-- ===== src/Snapshot/Emit.antt =====
-- Sv_EmitEntities and Sv_WriteFrame of src/server/sv_entity.c: the server's side of a snapshot.
use quake2world.Prelude.{
  ℕ, zero, suc, ◌+◌, ◌-◌, ◌%◌, ◌^◌, true, false, Option, none, some, List, [], ◌∷◌, ltb, leb, ◌==◌,
  if◌then◌else◌, length,
}
use quake2world.MemBuf.{MemBuf}
use quake2world.Message.Write.{Writer, ◌>>◌, write_byte, write_short, write_long, write_data}
use quake2world.Message.Vector.{Floats}
use quake2world.Message.Entity.{EntityState, write_delta_entity, fatal}
use quake2world.Snapshot.PlayerState.{PlayerState, write_player_state}

-- `sv_frame_t`; `area_bits` is what `area_bytes` counts of the array.
pub record SvFrame : Type 0 where
  pub area_bits : List ℕ
  pub ps : PlayerState
  pub num_entities : ℕ
  pub first_entity : ℕ

-- What the server keeps: the ring `svs.entity_states`, `sv.baselines` and `sv_max_clients`.
pub record Store (V : Type 0) : Type 0 where
  pub entity_states : ℕ → EntityState V
  pub num_entity_states : ℕ
  pub baselines : ℕ → EntityState V
  pub max_clients : ℕ

-- U_REMOVE
abbrev pub u_remove : ℕ
u_remove = 1024

-- `count` states of the ring from `first` on, which the loop reads one by one and never writes
unfoldable pub entities_from : {V : Type 0} → Store V → ℕ → ℕ → List (EntityState V)
entities_from sv first zero = []
entities_from sv first (suc count) =
    sv.entity_states (first % sv.num_entity_states) ∷ entities_from sv (first + 1) count

abbrev pub frame_entities : {V : Type 0} → Store V → SvFrame → List (EntityState V)
frame_entities sv frame = entities_from sv frame.first_entity frame.num_entities

abbrev pub old_entities : {V : Type 0} → Store V → Option SvFrame → List (EntityState V)
old_entities sv none = []
old_entities sv (some frame) = frame_entities sv frame

-- SV_CMD_FRAME
abbrev pub sv_cmd_frame : ℕ
sv_cmd_frame = 6

module _ {V : Type 0} (ops : Floats V) (sv : Store V) where
  unfoldable pub write_removal : EntityState V → Writer
  write_removal old = do write_short old.number; write_short u_remove

  unfoldable pub write_new : EntityState V → Writer
  write_new new = write_delta_entity ops (sv.baselines new.number) new true true

  unfoldable pub write_old : EntityState V → EntityState V → Writer
  write_old old new = write_delta_entity ops old new false (leb new.number sv.max_clients)

  -- One turn of the loop while both lists have entities left, and what it leaves of them.
  unfoldable pub emit_step :
      EntityState V
      → List (EntityState V)
      → EntityState V
      → List (EntityState V)
      → Writer × List (EntityState V) × List (EntityState V)
  emit_step old olds new news =
      if new.number == old.number
      then (write_old old new, olds, news)
      else if ltb new.number old.number
      then (write_new new, old ∷ olds, news)
      else (write_removal old, olds, new ∷ news)

  -- The past end of a list counts as the entity 0xffff, above any other.
  unfoldable pub emit_loop : ℕ → List (EntityState V) → List (EntityState V) → Writer
  emit_loop fuel [] [] = write_short 0
  emit_loop zero [] (new ∷ news) = fatal ops
  emit_loop zero (old ∷ olds) news = fatal ops
  emit_loop (suc fuel) [] (new ∷ news) = write_new new >> emit_loop fuel [] news
  emit_loop (suc fuel) (old ∷ olds) [] = write_removal old >> emit_loop fuel olds []
  emit_loop (suc fuel) (old ∷ olds) (new ∷ news) =
      let (w, olds', news') = emit_step old olds new news in w >> emit_loop fuel olds' news'

  unfoldable pub emit_entities : Option SvFrame → SvFrame → Writer
  emit_entities from to =
      let olds = old_entities sv from in
      let news = frame_entities sv to in emit_loop (length olds + length news) olds news

-- `sv_client_t`, as far as a frame goes; `last_frame` is none when it is negative.
pub record SvClient : Type 0 where
  pub frames : ℕ → SvFrame
  pub last_frame : Option ℕ
  pub surpress_count : ℕ

abbrev pub packet_backup : ℕ
packet_backup = 32

-- The frame to delta from, with its number, for the `last_frame` given. The difference of the two
-- numbers is signed.
unfoldable pub delta_of : SvClient → ℕ → Option ℕ → Option (ℕ × SvFrame)
delta_of client frame_num none = none
delta_of client frame_num (some last) =
    if leb (last + (packet_backup - 3)) frame_num
    then none
    else some (last, client.frames (last % packet_backup))

abbrev pub choose_delta : SvClient → ℕ → Option (ℕ × SvFrame)
choose_delta client frame_num = delta_of client frame_num client.last_frame

abbrev pub delta_num : Option (ℕ × SvFrame) → ℕ
delta_num none = 2 ^ 32 - 1
delta_num (some (last, frame)) = last

abbrev pub delta_frame : Option (ℕ × SvFrame) → Option SvFrame
delta_frame none = none
delta_frame (some (last, frame)) = some frame

abbrev pub ps_of : Option SvFrame → Option PlayerState
ps_of none = none
ps_of (some frame) = some frame.ps

unfoldable pub frame_message : {V : Type 0} → Floats V → Store V → SvClient → ℕ → Writer
frame_message ops sv client frame_num =
    let frame = client.frames (frame_num % packet_backup) in
    let delta = choose_delta client frame_num in
    do
      write_byte sv_cmd_frame
      write_long frame_num
      write_long (delta_num delta)
      write_byte client.surpress_count
      write_byte (length frame.area_bits)
      write_data frame.area_bits
      write_player_state (ps_of (delta_frame delta)) frame.ps
      emit_entities ops sv (delta_frame delta) frame

-- Sv_WriteFrame: the client, with the frames dropped for its rate reported, and the message.
unfoldable pub write_frame :
    {V : Type 0} → Floats V → Store V → SvClient → ℕ → MemBuf → Option (SvClient × MemBuf)
write_frame ops sv client frame_num msg = elim (frame_message ops sv client frame_num msg) [
  | none ↦ none
  | some sent ↦ some (record client { surpress_count = 0 }, sent)
]
