-- ===== src/Message/Entity/RoundTrips.antt =====
-- An `entity_state_t` through Net_WriteDeltaEntity and Net_ReadDeltaEntity.
use quake2world.Prelude.{
  ℕ, ◌+◌, ◌%◌, ◌^◌, ◌≤◌, ◌<◌, ◌≡◌, refl, sym, Bool, false, not, ◌&&◌, List, [], ◌∷◌, ◌++◌, arith,
  length, length-append, get_or, test_bit, test_bit-from_bits, from_bits-lt, ◌==◌, leb, some, subst,
}
use quake2world.MemBuf.{MemBuf}
use quake2world.MemBuf.Valid.{IsValid}
use quake2world.Message.Delta.{length-given, Reads-field, Reads-short_field, Reads-byte_field}
use quake2world.Message.Vector.{Floats}
use quake2world.Message.Vector.Grid.{
  OnGrid3, OnAngleGrid3, FloatLaws, position_bytes, angles_bytes, position-Writes, angles-Writes,
  position-Reads, angles-Reads, compare-grid, compare-angles, length-position_bytes,
  length-angles_bytes,
}
use quake2world.Message.Write.{short_bytes, given}
use quake2world.Message.Write.Rules.{
  Writes, Writes-seq, Writes-if, Writes-write_byte, Writes-write_short,
}
use quake2world.Message.Read.Rules.{
  Holds, Reads, Reads-bind, Reads-map, Reads-read_short16, Reads-read_byte8,
}
use quake2world.Message.RoundTrip.{RoundTrip, roundtrip}
use quake2world.Message.Entity.{
  EntityState, Pair, Four, animations, models, max_edicts, write_pair, write_four, read_pair,
  read_four, entity_changes, entity_bits, write_entity_fields, read_delta_entity,
  write_delta_entity, read_numbered_entity,
}

abbrev pair_bytes : Pair → List ℕ
pair_bytes (a, b) = (a % 256 ∷ []) ++ (b % 256 ∷ [])

abbrev four_bytes : Four → List ℕ
four_bytes (a, b, c, d) = (a % 256 ∷ []) ++ ((b % 256 ∷ []) ++ ((c % 256 ∷ []) ++ (d % 256 ∷ [])))

pair-Writes : (a b : ℕ) → Writes (write_pair (a, b)) (pair_bytes (a, b))
unfolding write_pair
pair-Writes a b = Writes-seq (Writes-write_byte a) (Writes-write_byte b)

four-Writes : (a b c d : ℕ) → Writes (write_four (a, b, c, d)) (four_bytes (a, b, c, d))
unfolding write_four
four-Writes a b c d =
    Writes-seq (Writes-write_byte a)
      (Writes-seq (Writes-write_byte b) (Writes-seq (Writes-write_byte c) (Writes-write_byte d)))

pair-Reads : (a b : ℕ) → a < 2 ^ 8 → b < 2 ^ 8 → Reads read_pair (pair_bytes (a, b)) (a, b)
unfolding read_pair
pair-Reads a b p q =
    Reads-bind _ (Reads-read_byte8 a p) (Reads-map _ (a, b) refl (Reads-read_byte8 b q))

four-Reads :
    (a b c d : ℕ)
    → a < 2 ^ 8
    → b < 2 ^ 8
    → c < 2 ^ 8
    → d < 2 ^ 8
    → Reads read_four (four_bytes (a, b, c, d)) (a, b, c, d)
unfolding read_four
four-Reads a b c d p q r s = Reads-bind _ (Reads-read_byte8 a p) (
    Reads-bind _ (Reads-read_byte8 b q)
      (Reads-bind _ (Reads-read_byte8 c r) (Reads-map _ (a, b, c, d) refl (Reads-read_byte8 d s))))

module _ {V : Type 0} (ops : Floats V) where
  -- The fields are within their C types, and the vectors on the grids that messages carry.
  pub record IsSendable (s : EntityState V) : Type 0 where
    pub number_pos : 0 < s.number
    pub number : s.number < max_edicts
    pub origin : OnGrid3 ops s.origin
    pub old_origin : OnGrid3 ops s.old_origin
    pub angles : OnAngleGrid3 ops s.angles
    pub animation1 : s.animation1 < 2 ^ 8
    pub animation2 : s.animation2 < 2 ^ 8
    pub event : s.event < 2 ^ 8
    pub effects : s.effects < 2 ^ 16
    pub model1 : s.model1 < 2 ^ 8
    pub model2 : s.model2 < 2 ^ 8
    pub model3 : s.model3 < 2 ^ 8
    pub model4 : s.model4 < 2 ^ 8
    pub client : s.client < 2 ^ 8
    pub sound : s.sound < 2 ^ 8
    pub solid : s.solid < 2 ^ 16

  -- The vectors are on the grids that messages carry; so it is with a baseline never set.
  pub record IsOnGrid (s : EntityState V) : Type 0 where
    pub origin : OnGrid3 ops s.origin
    pub old_origin : OnGrid3 ops s.old_origin
    pub angles : OnAngleGrid3 ops s.angles

  pub sendable-IsOnGrid : {s : EntityState V} → IsSendable s → IsOnGrid s
  sendable-IsOnGrid h = record { origin = h.origin; old_origin = h.old_origin; angles = h.angles }

  pub fields_bytes : ℕ → EntityState V → List ℕ
  fields_bytes bits to =
      given (test_bit bits 0) (position_bytes ops to.origin)
      ++ (given (test_bit bits 1) (position_bytes ops to.old_origin)
          ++ (given (test_bit bits 2) (angles_bytes ops to.angles)
              ++ (given (test_bit bits 3) (pair_bytes (animations to))
                  ++ (given (test_bit bits 4) (to.event % 256 ∷ [])
                      ++ (given (test_bit bits 5) (short_bytes to.effects)
                          ++ (given (test_bit bits 6) (four_bytes (models to))
                              ++ (given (test_bit bits 7) (to.client % 256 ∷ [])
                                  ++ (given (test_bit bits 8) (to.sound % 256 ∷ [])
                                      ++ given (test_bit bits 9) (short_bytes to.solid)))))))))

  pub fields-Writes :
      (bits : ℕ) (to : EntityState V)
      → Writes (write_entity_fields ops bits to) (fields_bytes bits to)
  unfolding write_entity_fields fields_bytes
  fields-Writes bits to = Writes-seq (Writes-if _ (position-Writes ops to.origin)) (
      Writes-seq (Writes-if _ (position-Writes ops to.old_origin)) (
        Writes-seq (Writes-if _ (angles-Writes ops to.angles)) (
          Writes-seq (Writes-if _ (pair-Writes to.animation1 to.animation2)) (
            Writes-seq (Writes-if _ (Writes-write_byte _)) (
              Writes-seq (Writes-if _ (Writes-write_short _)) (
                Writes-seq (Writes-if _ (four-Writes to.model1 to.model2 to.model3 to.model4)) (
                  Writes-seq (Writes-if _ (Writes-write_byte _)) (
                    Writes-seq (Writes-if _ (Writes-write_byte _))
                      (Writes-if _ (Writes-write_short _))))))))))

  pub length-fields_bytes : (bits : ℕ) (to : EntityState V) → length (fields_bytes bits to) ≤ 28
  unfolding fields_bytes
  length-fields_bytes bits to = omega (
    arith,
    length-append {0},
    length-given,
    length-position_bytes ops to.origin,
    length-position_bytes ops to.old_origin,
    length-angles_bytes ops to.angles,
  )

  pub no_fields : (to : EntityState V) → fields_bytes 0 to ≡ []
  unfolding fields_bytes given test_bit
  no_fields to = refl

  module _ (laws : FloatLaws ops) (from to : EntityState V) (is_new : Bool) where
    abbrev entity_bit :
        (k : ℕ)
        → test_bit (entity_bits ops from to is_new) k
          ≡ get_or (entity_changes ops from to is_new) k false
    entity_bit k = test_bit-from_bits (entity_changes ops from to is_new) k

    old_origin_same :
        IsOnGrid from
        → IsSendable to
        → get_or (entity_changes ops from to is_new) 1 false ≡ false
        → from.old_origin ≡ to.old_origin
    old_origin_same f t e =
        compare-grid ops laws from.old_origin to.old_origin f.old_origin t.old_origin (ground arith)

    -- What the fields of `to` go by, read over `from` under the same bits, gives `to`.
    pub fields-Reads :
        IsOnGrid from
        → IsSendable to
        → Reads
            (read_delta_entity ops from to.number (entity_bits ops from to is_new))
            (fields_bytes (entity_bits ops from to is_new) to)
            to
    unfolding read_delta_entity fields_bytes
    fields-Reads f t =
        Reads-bind _
          (Reads-field (entity_bit 0) (λ e. sym (compare-grid ops laws _ _ t.origin f.origin e))
            (position-Reads ops to.origin t.origin))
          (Reads-bind _
            (Reads-field (entity_bit 1) (old_origin_same f t)
              (position-Reads ops to.old_origin t.old_origin))
            (Reads-bind _
              (Reads-field (entity_bit 2)
                (λ e. sym (compare-angles ops laws _ _ t.angles f.angles e))
                (angles-Reads ops to.angles t.angles))
              (Reads-bind _
                (Reads-field (entity_bit 3) (λ e. ground arith)
                  (pair-Reads _ _ t.animation1 t.animation2))
                (Reads-bind _
                  (Reads-field (entity_bit 4) (λ e. ground arith)
                    (Reads-read_byte8 to.event t.event))
                  (Reads-bind _ (Reads-short_field _ _ (entity_bit 5) t.effects) (
                    Reads-bind _
                      (Reads-field (entity_bit 6) (λ e. ground arith)
                        (four-Reads _ _ _ _ t.model1 t.model2 t.model3 t.model4))
                      (Reads-bind _ (Reads-byte_field _ _ (entity_bit 7) t.client) (
                        Reads-bind _ (Reads-byte_field _ _ (entity_bit 8) t.sound) (
                          Reads-map _ to refl
                            (Reads-short_field _ _ (entity_bit 9) t.solid))))))))))

    -- the bytes of an entity that is sent
    abbrev pub sent_bytes : List ℕ
    sent_bytes =
        short_bytes to.number
        ++ (short_bytes (entity_bits ops from to is_new)
            ++ fields_bytes (entity_bits ops from to is_new) to)

    pub not_removal : test_bit (entity_bits ops from to is_new) 10 ≡ false
    not_removal = entity_bit 10

    pub length-sent_bytes : length sent_bytes ≤ 32
    length-sent_bytes =
        omega (arith, length-append {0}, length-fields_bytes (entity_bits ops from to is_new) to)

    pub bits-lt : entity_bits ops from to is_new < 2 ^ 10
    bits-lt = from_bits-lt (entity_changes ops from to is_new)

    pub sent-Writes :
        (force : Bool)
        → IsSendable to
        → (entity_bits ops from to is_new == 0 && not force) ≡ false
        → Writes (write_delta_entity ops from to force is_new) sent_bytes
    unfolding write_delta_entity
    sent-Writes force t e =
        let p : leb to.number 0 ≡ false = ground (arith, t.number_pos) in
        let q : leb max_edicts to.number ≡ false = ground (arith, t.number) in
        rw (p, q, e)
          (Writes-seq (Writes-write_short _)
            (Writes-seq (Writes-write_short _) (fields-Writes _ to)))

    -- An entity that changed or is forced, written where the buffer has 32 bytes of room, is read back by
    -- Cl_ParseEntities and Net_ReadDeltaEntity as it was sent, by a receiver that has the same `from`, if both have their
    -- fields in range and their vectors on the grids.
    pub delta_entity_roundtrip :
        (force : Bool) (buf : MemBuf)
        → IsSendable from
        → IsSendable to
        → (entity_bits ops from to is_new == 0 && not force) ≡ false
        → IsValid buf
        → buf.size + 32 ≤ buf.max_size
        → RoundTrip
            (write_delta_entity ops from to force is_new)
            (read_numbered_entity ops from)
            to
            buf
    unfolding read_numbered_entity
    delta_entity_roundtrip force buf f t e v h =
        roundtrip (sent-Writes force t e)
          (Reads-bind _ (Reads-read_short16 to.number (omega (arith, t.number))) (
            Reads-bind _ (Reads-read_short16 _ (omega (arith, bits-lt)))
              (fields-Reads (sendable-IsOnGrid f) t)))
          buf v
          (omega
            (arith, length-append {0}, length-fields_bytes (entity_bits ops from to is_new) to))

    -- An entity with nothing to send appends nothing, and is what a receiver that has `from`
    -- makes of it with no bits set, whatever is in its buffer.
    pub delta_entity_unsent :
        (buf msg : MemBuf) (rest : List ℕ)
        → IsSendable from
        → IsSendable to
        → entity_bits ops from to is_new ≡ 0
        → Holds msg rest
        → (write_delta_entity ops from to false is_new buf ≡ some buf)
          × ((read_delta_entity ops from to.number 0 msg).0 ≡ to)
          × Holds (read_delta_entity ops from to.number 0 msg).1 rest
    unfolding write_delta_entity
    delta_entity_unsent buf msg rest f t e h =
        let p : leb to.number 0 ≡ false = ground (arith, t.number_pos) in
        let q : leb max_edicts to.number ≡ false = ground (arith, t.number) in
        let r : Reads (read_delta_entity ops from to.number 0) [] to =
          subst (λ xs. Reads (read_delta_entity ops from to.number 0) xs to) (no_fields to)
            (subst
              (λ (b : ℕ). Reads (read_delta_entity ops from to.number b) (fields_bytes b to) to) e
              (fields-Reads (sendable-IsOnGrid f) t)) in
        (rw (p, q, e), r.value msg rest h, r.leaves msg rest h)
