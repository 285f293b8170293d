-- ===== src/Snapshot/Frame/Known.antt =====
-- The frame that Cl_ParseFrame of src/client/cl_entity.c reads over, and the head of the message that it reads.
use quake2world.Prelude.{
  ℕ, ◌+◌, ◌-◌, ◌%◌, ◌^◌, ◌≤◌, ◌<◌, ◌≡◌, refl, ap, ◌∙◌, true, false, not, ◌||◌, Option, none, some,
  List, [], ◌∷◌, ◌++◌, arith, length, ltb, leb, ◌==◌, if_false,
}
use quake2world.Message.Read.{read_data}
use quake2world.Message.Read.Rules.{
  Reads, Reads-pure, Reads-bind, Reads-map, Reads-read_byte, Reads-read_long,
}
use quake2world.Message.Write.{long_bytes}
use quake2world.Message.Vector.{Floats}
use quake2world.Snapshot.Emit.{SvFrame, packet_backup, delta_num, delta_frame, ps_of}
use quake2world.Snapshot.Parse.{done, dropped, entity_state_backup}
use quake2world.Snapshot.Frame.{
  ClFrame, ClState, read_frame_header, delta_ps, check_delta, find_delta,
}

abbrev pub AreBytes : List ℕ → Type 0
AreBytes [] = Unit
AreBytes (c ∷ cs) = (c < 256) × AreBytes cs

pub read_data-Reads : (xs : List ℕ) → AreBytes xs → Reads (read_data (length xs)) xs xs
unfolding read_data
read_data-Reads [] h = Reads-pure []
read_data-Reads (c ∷ cs) (b, h) =
    let same : (c % 256) ≡ c = omega (arith, b) in
    Reads-bind _ (Reads-read_byte c)
      (Reads-map _ (c ∷ cs) (ap (λ d. d ∷ cs) same) (read_data-Reads cs h))

unfoldable pub header_bytes : ℕ → ℕ → ℕ → List ℕ
header_bytes n d s = long_bytes n ++ (long_bytes d ++ (s % 256 ∷ []))

pub header-Reads :
    (n d s : ℕ)
    → n < 2 ^ 32
    → d < 2 ^ 32
    → Reads read_frame_header
        (header_bytes n d s)
        (record { frame_num = n; delta_frame_num = d; surpress_count = s % 256 })
unfolding read_frame_header header_bytes
header-Reads n d s h k =
    Reads-bind _ (Reads-read_long n h)
      (Reads-bind _ (Reads-read_long d k) (Reads-map _ _ refl (Reads-read_byte (s % 256))))

-- The client's frame of the number that the server deltas from
abbrev pub known : {V : Type 0} → ClState V → Option (ℕ × SvFrame) → Option ClFrame
known st none = none
known st (some (last, frame)) = some (st.frames (last % packet_backup))

-- The client has that frame, valid and not too old.
abbrev pub IsKnown : {V : Type 0} → ClState V → Option (ℕ × SvFrame) → Type 0
IsKnown st none = Unit
IsKnown st (some (last, frame)) =
    (0 < last)
    × (last < 2 ^ 31)
    × ((st.frames (last % packet_backup)).valid ≡ true)
    × ((st.frames (last % packet_backup)).frame_num ≡ last)
    × ((st.frames (last % packet_backup)).ps ≡ frame.ps)
    × ((st.cl.entity_state + (2 ^ 32 - (st.frames (last % packet_backup)).window.entity_state))
          % 2 ^ 32
        ≤ entity_state_backup - packet_backup)

module _ {V : Type 0} (ops : Floats V) where
  pub find_delta-known :
      (st : ClState V) (delta : Option (ℕ × SvFrame))
      → IsKnown st delta
      → find_delta ops false st (delta_num delta) ≡ done (known st delta)
  unfolding find_delta check_delta
  find_delta-known st none k = refl
  find_delta-known st (some (last, frame)) (pos, small, v, n, p, recent) =
      let old : ClFrame = st.frames (last % packet_backup) in
      let number : (last == 0 || leb (2 ^ 31) last) ≡ false = ground (arith, pos, small) in
      let valid : not old.valid ≡ false = ap not v in
      let same : not (old.frame_num == last) ≡ false = ground (arith, n) in
      let young : ltb (entity_state_backup - packet_backup)
            ((st.cl.entity_state + (2 ^ 32 - old.window.entity_state)) % 2 ^ 32)
          ≡ false =
        ground (arith, recent) in
      if_false (done none) _ number
      ∙ if_false dropped _ valid
      ∙ if_false dropped _ same
      ∙ if_false dropped _ young

  pub known-ps :
      (st : ClState V) (delta : Option (ℕ × SvFrame))
      → IsKnown st delta
      → delta_ps (known st delta) ≡ ps_of (delta_frame delta)
  known-ps st none k = refl
  known-ps st (some (last, frame)) (pos, small, v, n, p, recent) = ap some p
