-- ===== src/Snapshot/Parse.antt =====
-- Cl_ParseEntities and Cl_ParseDeltaEntity of src/client/cl_entity.c: the client's side of the
-- entities of a snapshot. The ring of entity states is written while the old states are read.
pub mod Ring
pub mod Removal
pub mod Fuel
use quake2world.Prelude.{
  ℕ, zero, suc, ◌+◌, ◌-◌, ◌%◌, ◌^◌, Bool, true, false, ◌||◌, Option, none, some, ltb, leb, ◌==◌,
  if◌then◌else◌, test_bit,
}
use quake2world.MemBuf.{MemBuf}
use quake2world.Message.Read.{read_short16}
use quake2world.Message.Vector.{Floats, Vec3}
use quake2world.Message.Entity.{EntityState, max_edicts, models_differ, read_delta_entity}

-- What a parse ends in: a value, Com_Error(ERR_DROP), the use of a null pointer or a write past an array, or a loop that
-- has not ended within its fuel.
pub data Outcome {ℓ} (A : Type ℓ) : Type ℓ where
  done : A → Outcome A
  dropped : Outcome A
  crashed : Outcome A
  unfinished : Outcome A

unfoldable pub and_then {ℓ} : {A B : Type ℓ} → Outcome A → (A → Outcome B) → Outcome B
and_then (done a) f = f a
and_then dropped f = dropped
and_then crashed f = crashed
and_then unfinished f = unfinished

-- `cl_entity_t`, the fields that a snapshot touches
pub record ClEntity (V : Type 0) : Type 0 where
  pub baseline : EntityState V
  pub current : EntityState V
  pub prev : EntityState V
  pub frame_num : ℕ
  pub animation1_time : ℕ
  pub animation2_time : ℕ

-- The entities of a `cl_frame_t`: their number, and the index of the first in the ring.
pub record Window : Type 0 where
  pub num_entities : ℕ
  pub entity_state : ℕ

-- `cl.entity_states`, `cl.entity_state`, `cl.entities`, and `cl.frame` with its number
pub record Client (V : Type 0) : Type 0 where
  pub entity_states : ℕ → EntityState V
  pub entity_state : ℕ
  pub entities : ℕ → ClEntity V
  pub frame : Window
  pub frame_num : ℕ

-- ENTITY_STATE_BACKUP, and `& ENTITY_STATE_MASK`
abbrev pub entity_state_backup : ℕ
entity_state_backup = 2048

abbrev pub slot : ℕ → ℕ
slot i = i % 2 ^ 32 % entity_state_backup

unfoldable pub put {ℓ} : {A : Type ℓ} → (ℕ → A) → ℕ → A → ℕ → A
put f i a j = if j == i then a else f j

-- The pointer `from`, into the ring or to a baseline.
pub data From : Type 0 where
  in_ring : ℕ → From
  baseline_of : ℕ → From

abbrev pub from_state : {V : Type 0} → Client V → From → EntityState V
from_state cl (in_ring i) = cl.entity_states i
from_state cl (baseline_of n) = (cl.entities n).baseline

-- Where the parse is in the old frame, 0xffff being past its end.
pub record Cursor (V : Type 0) : Type 0 where
  pub cl : Client V
  pub msg : MemBuf
  pub old_index : ℕ
  pub old_number : ℕ

abbrev pub past_end : ℕ
past_end = 65535

module _ {V : Type 0} (ops : Floats V) where
  abbrev far_apart : Vec3 V → Vec3 V → Bool
  far_apart a b = ops.far a.x b.x || ops.far a.y b.y || ops.far a.z b.z

  -- The entity as the state `to` leaves it, where `from` is what `to` was read over.
  unfoldable pub update_entity : ClEntity V → EntityState V → EntityState V → ℕ → ClEntity V
  update_entity ent from to frame_num =
      let seen =
        if models_differ from to || far_apart from.origin to.origin
        then 2 ^ 32 - 1
        else ent.frame_num in
      let is_continued = seen == (frame_num + (2 ^ 32 - 1)) % 2 ^ 32 in
      record ent {
        prev = if is_continued then ent.current else record to { origin = to.old_origin };
        animation1_time = if is_continued then ent.animation1_time else 0;
        animation2_time = if is_continued then ent.animation2_time else 0;
        frame_num = frame_num;
        current = to;
      }

  -- The state is read straight into the ring.
  abbrev pub store : Client V → EntityState V → Client V
  store cl to = record cl {
    entity_states = put cl.entity_states (slot cl.entity_state) to;
    entity_state = (cl.entity_state + 1) % 2 ^ 32;
    frame = record cl.frame { num_entities = (cl.frame.num_entities + 1) % 2 ^ 16 };
  }

  unfoldable pub parse_delta_entity : Client V → From → ℕ → ℕ → MemBuf → Client V × MemBuf
  parse_delta_entity cl from number bits msg =
      let (to, msg') = read_delta_entity ops (from_state cl from) number bits msg in
      let cl' = store cl to in
      let ent = update_entity (cl.entities number) (from_state cl' from) to cl.frame_num in
      (record cl' { entities = put cl.entities number ent }, msg')

  -- `old_number` at an index of the old frame
  abbrev pub old_number_at : Client V → Window → ℕ → ℕ
  old_number_at cl old i =
      if leb old.num_entities i
      then past_end
      else (cl.entity_states (slot (old.entity_state + i))).number

  -- `old_index++`, where the old frame's pointer is null if there is none
  unfoldable pub advance : Option Window → Cursor V → Outcome (Cursor V)
  advance none c = crashed
  advance (some old) c = done (record c {
    old_index = c.old_index + 1;
    old_number = old_number_at c.cl old (c.old_index + 1);
  })

  -- the place of `old_state`, which is set whenever `old_number` is not 0xffff
  abbrev pub old_place : Option Window → Cursor V → ℕ
  old_place none c = 0
  old_place (some old) c = slot (old.entity_state + c.old_index)

  unfoldable pub take_delta : From → ℕ → ℕ → Cursor V → Cursor V
  take_delta from number bits c =
      let (cl, msg) = parse_delta_entity c.cl from number bits c.msg in
      record c { cl = cl; msg = msg }

  -- while (old_number < number), and while (old_number != 0xffff) for `number` 0xffff
  unfoldable pub copy_unchanged : ℕ → Option Window → ℕ → Cursor V → Outcome (Cursor V)
  copy_unchanged zero old number c = if ltb c.old_number number then unfinished else done c
  copy_unchanged (suc fuel) old number c =
      if ltb c.old_number number
      then and_then (advance old (take_delta (in_ring (old_place old c)) c.old_number 0 c))
          (copy_unchanged fuel old number)
      else done c

  -- What the loop's turn does with an entity of the message, the older ones being copied.
  unfoldable pub parse_entity : Option Window → ℕ → ℕ → Cursor V → Outcome (Cursor V)
  parse_entity old number bits c =
      if test_bit bits 10
      then advance old c
      else if c.old_number == number
      then advance old (take_delta (in_ring (old_place old c)) number bits c)
      else if ltb number c.old_number
      then done (take_delta (baseline_of number) number bits c)
      else done c

  abbrev pub old_count : Option Window → ℕ
  old_count none = 0
  old_count (some old) = old.num_entities

  unfoldable pub entities_loop : ℕ → Option Window → Cursor V → Outcome (Cursor V)
  entities_loop zero old c = unfinished
  entities_loop (suc fuel) old c =
      let (number, msg) = read_short16 c.msg in
      if leb max_edicts number
      then dropped
      else if ltb msg.size msg.read
      then dropped
      else if number == 0
      then done (record c { msg = msg })
      else let (bits, msg') = read_short16 msg in
        and_then (copy_unchanged (old_count old) old number (record c { msg = msg' }))
          λ c'. and_then (parse_entity old number bits c') (entities_loop fuel old)

  abbrev pub first_number : Client V → Option Window → ℕ
  first_number cl none = past_end
  first_number cl (some old) = old_number_at cl old 0

  abbrev pub begin_frame : Client V → Client V
  begin_frame cl = record cl { frame = record { num_entities = 0; entity_state = cl.entity_state } }

  unfoldable pub parse_entities : Option Window → Client V → MemBuf → Outcome (Cursor V)
  parse_entities old cl msg =
      let cl' = begin_frame cl in
      let start : Cursor V = record {
        cl = cl';
        msg = msg;
        old_index = 0;
        old_number = first_number cl' old;
      } in
      and_then (entities_loop (suc msg.size) old start)
        (copy_unchanged (old_count old) old past_end)
