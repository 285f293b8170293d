-- ===== src/Snapshot/Transfer/Turns.antt =====
-- What Cl_ParseEntities of src/client/cl_entity.c does with each entity of a message, and with those
-- of the old frame that the message passes over.
use quake2world.Prelude.{
  ℕ, zero, suc, ◌+◌, ◌≤◌, ◌<◌, ◌≡◌, refl, sym, ap, ◌∙◌, subst, Bool, true, false, Option, none,
  some, List, [], ◌∷◌, ◌++◌, append-nil, append_assoc, arith, length, length-append, ltb, ◌==◌,
  test_bit, if_true, if_false,
}
use quake2world.MemBuf.{MemBuf}
use quake2world.Message.Read.{read_if, ◌>>=◌}
use quake2world.Message.Read.Rules.{Holds, Reads}
use quake2world.Message.Vector.{Floats}
use quake2world.Message.Vector.Grid.{FloatLaws}
use quake2world.Message.Entity.{EntityState, entity_bits, read_delta_entity}
use quake2world.Message.Entity.RoundTrips.{
  IsSendable, IsOnGrid, fields_bytes, fields-Reads, no_fields,
}
use quake2world.Snapshot.Parse.{
  done, unfinished, and_then, Window, Cursor, From, in_ring, baseline_of, old_place, take_delta,
  advance, copy_unchanged, parse_entity,
}
use quake2world.Snapshot.Transfer.Places.{At, Fits, take-At, take_msg, advance-At, number_of}

-- With no bits what is read does not hang on the message.
unread_value :
    {V : Type 0} (ops : Floats V) (from : EntityState V) (n : ℕ) (msg msg' : MemBuf)
    → (read_delta_entity ops from n 0 msg).0 ≡ (read_delta_entity ops from n 0 msg').0
unfolding read_delta_entity read_if ◌>>=◌ test_bit
unread_value ops from n msg msg' = refl

pub unread_msg :
    {V : Type 0} (ops : Floats V) (from : EntityState V) (n : ℕ) (msg : MemBuf)
    → (read_delta_entity ops from n 0 msg).1 ≡ msg
unfolding read_delta_entity read_if ◌>>=◌ test_bit
unread_msg ops from n msg = refl

abbrev no_message : MemBuf
no_message = record {
  allow_overflow = false;
  overflowed = false;
  bytes = [];
  max_size = 0;
  size = 0;
  read = 0;
}

-- An old state and the new one of an entity that is not sent.
abbrev pub IsPassed : {V : Type 0} → Floats V → EntityState V × EntityState V → Type 0
IsPassed ops (u, w) = (msg : MemBuf) → (read_delta_entity ops u u.number 0 msg).0 ≡ w

pub unsent-IsPassed :
    {V : Type 0} (ops : Floats V) (laws : FloatLaws ops) (from to : EntityState V) (is_new : Bool)
    → IsOnGrid ops from
    → IsSendable ops to
    → entity_bits ops from to is_new ≡ 0
    → to.number ≡ from.number
    → IsPassed ops (from, to)
unsent-IsPassed ops laws from to is_new f t e n msg =
    let r : Reads (read_delta_entity ops from to.number 0) (fields_bytes ops 0 to) to =
      subst (λ (b : ℕ). Reads (read_delta_entity ops from to.number b) (fields_bytes ops b to) to) e
        (fields-Reads ops laws from to is_new f t) in
    let h : Holds no_message (fields_bytes ops 0 to ++ []) =
      subst (λ l. Holds no_message (l ++ [])) (sym (no_fields ops to))
        (record { valid = omega arith; within = omega arith; left = refl }) in
    unread_value ops from from.number msg no_message
    ∙ ap (λ (k : ℕ). (read_delta_entity ops from k 0 no_message).0) (sym n)
    ∙ r.value no_message [] h

abbrev pub Pairs : Type 0 → Type 0
Pairs V = List (EntityState V × EntityState V)

abbrev pub firsts : {V : Type 0} → Pairs V → List (EntityState V)
firsts [] = []
firsts ((u, w) ∷ l) = u ∷ firsts l

abbrev pub seconds : {V : Type 0} → Pairs V → List (EntityState V)
seconds [] = []
seconds ((u, w) ∷ l) = w ∷ seconds l

abbrev pub ArePassed : {V : Type 0} → Floats V → ℕ → Pairs V → Type 0
ArePassed ops k [] = Unit
ArePassed ops k (p ∷ l) = IsPassed ops p × (p.0.number ≤ k) × ArePassed ops k l

place_of :
    {V : Type 0} (ops : Floats V) (baselines : ℕ → EntityState V) (old : Option Window) (base : ℕ)
    {c : Cursor V} {new olds : List (EntityState V)} {o : EntityState V}
    → At ops baselines old base c new (o ∷ olds)
    → c.cl.entity_states (old_place ops old c) ≡ o
place_of ops baselines none base {c} {new} {olds} {o} a = absurd (omega (arith, a.index))
place_of ops baselines (some w) base {c} {new} {olds} {o} a = a.left.0

module _ {V : Type 0} (ops : Floats V) (baselines : ℕ → EntityState V) (old : Option Window)
    (base total : ℕ) (fits : Fits ops baselines old base total) where
  abbrev AtPlace : Cursor V → List (EntityState V) → List (EntityState V) → Type 0
  AtPlace = At ops baselines old base

  -- An entity of the old frame is delta'd from, and the old frame moves on.
  turn :
      (number bits : ℕ) (c : Cursor V) (new olds : List (EntityState V)) (o to : EntityState V)
      → length new < total
      → AtPlace c new (o ∷ olds)
      → (read_delta_entity ops o number bits c.msg).0 ≡ to
      → (d : Cursor V) × (advance ops old
            (take_delta ops (in_ring (old_place ops old c)) number bits c)
          ≡ done d)
        × (d.msg ≡ (read_delta_entity ops o number bits c.msg).1)
        × AtPlace d (new ++ (to ∷ [])) olds
  turn number bits c new olds o to h a e =
      let from : From = in_ring (old_place ops old c) in
      let p = place_of ops baselines old base a in
      let t =
        take-At ops baselines old base total from number bits c new (o ∷ olds) to fits h a
          (ap (λ s. (read_delta_entity ops s number bits c.msg).0) p ∙ e) in
      let (d, moved, msg, at) =
        advance-At ops baselines old base (take_delta ops from number bits c) (new ++ (to ∷ []))
          olds o t in
      (
        d,
        moved,
        msg
            ∙ take_msg ops from number bits c
            ∙ ap (λ s. (read_delta_entity ops s number bits c.msg).1) p,
        at,
      )

  copy_stops :
      (fuel limit : ℕ) (c : Cursor V)
      → ltb c.old_number limit ≡ false
      → copy_unchanged ops fuel old limit c ≡ done c
  unfolding copy_unchanged
  copy_stops zero limit c e = if_false unfinished _ e
  copy_stops (suc fuel) limit c e = if_false _ (done c) e

  -- The old entities that the message passed over are copied.
  pub copy-At :
      (us : Pairs V) (fuel limit k : ℕ) (c : Cursor V) (new olds : List (EntityState V))
      → ArePassed ops k us
      → k < limit
      → limit ≤ number_of olds
      → length us ≤ fuel
      → length new + length us ≤ total
      → AtPlace c new (firsts us ++ olds)
      → (d : Cursor V) × (copy_unchanged ops fuel old limit c ≡ done d)
        × (d.msg ≡ c.msg)
        × AtPlace d (new ++ seconds us) olds
  unfolding copy_unchanged and_then
  copy-At [] fuel limit k c new olds p h l f t a =
      let e : ltb c.old_number limit ≡ false = ground (arith, a.number, l) in
      (c, copy_stops fuel limit c e, refl, subst (λ n. AtPlace c n olds) (sym (append-nil new)) a)
  copy-At ((u, w) ∷ us) zero limit k c new olds p h l f t a = absurd (omega (arith, f))
  copy-At ((u, w) ∷ us) (suc fuel) limit k c new olds (p, le, ps) h l f t a =
      let e : ltb c.old_number limit ≡ true = ground (arith, a.number, le, h) in
      let value : (read_delta_entity ops u c.old_number 0 c.msg).0 ≡ w =
        ap (λ (n : ℕ). (read_delta_entity ops u n 0 c.msg).0) a.number ∙ p c.msg in
      let (d, moved, msg, at) =
        turn c.old_number 0 c new (firsts us ++ olds) u w (omega (arith, t)) a value in
      let n = length-append new (w ∷ []) in
      let (d', finished, msg', at') =
        copy-At us fuel limit k d (new ++ (w ∷ [])) olds ps h l (omega (arith, f))
          (omega (arith, t, n)) at in
      (
        d',
        if_true _ (done c) e
            ∙ ap (λ r. and_then r (copy_unchanged ops fuel old limit)) moved
            ∙ finished,
        msg' ∙ msg ∙ unread_msg ops u c.old_number c.msg,
        subst (λ l. AtPlace d' l olds) (append_assoc new (w ∷ []) (seconds us)) at',
      )

  -- The entity is removed.
  pub removal-At :
      (c : Cursor V) (new olds : List (EntityState V)) (o : EntityState V) (number : ℕ)
      → AtPlace c new (o ∷ olds)
      → (d : Cursor V) × (parse_entity ops old number 1024 c ≡ done d)
        × (d.msg ≡ c.msg)
        × AtPlace d new olds
  unfolding parse_entity
  removal-At c new olds o number a =
      let e : test_bit 1024 10 ≡ true = unfold test_bit in refl in
      let (d, moved, msg, at) = advance-At ops baselines old base c new olds o a in
      (d, if_true (advance ops old c) _ e ∙ moved, msg, at)

  -- The entity is delta'd from its state in the old frame.
  pub delta-At :
      (c : Cursor V) (new olds : List (EntityState V)) (o to : EntityState V) (bits : ℕ)
      → length new < total
      → AtPlace c new (o ∷ olds)
      → test_bit bits 10 ≡ false
      → to.number ≡ o.number
      → (read_delta_entity ops o to.number bits c.msg).0 ≡ to
      → (d : Cursor V) × (parse_entity ops old to.number bits c ≡ done d)
        × (d.msg ≡ (read_delta_entity ops o to.number bits c.msg).1)
        × AtPlace d (new ++ (to ∷ [])) olds
  unfolding parse_entity
  delta-At c new olds o to bits h a e n v =
      let same : (c.old_number == to.number) ≡ true = ground (arith, a.number, n) in
      let (d, moved, msg, at) = turn to.number bits c new olds o to h a v in
      (d, if_false (advance ops old c) _ e ∙ if_true _ _ same ∙ moved, msg, at)

  -- The entity is new, and is delta'd from its baseline.
  pub baseline-At :
      (c : Cursor V) (new olds : List (EntityState V)) (to : EntityState V) (bits : ℕ)
      → length new < total
      → AtPlace c new olds
      → test_bit bits 10 ≡ false
      → to.number < number_of olds
      → (read_delta_entity ops (baselines to.number) to.number bits c.msg).0 ≡ to
      → (d : Cursor V) × (parse_entity ops old to.number bits c ≡ done d)
        × (d.msg ≡ (read_delta_entity ops (baselines to.number) to.number bits c.msg).1)
        × AtPlace d (new ++ (to ∷ [])) olds
  unfolding parse_entity
  baseline-At c new olds to bits h a e n v =
      let other : (c.old_number == to.number) ≡ false = ground (arith, a.number, n) in
      let below : ltb to.number c.old_number ≡ true = ground (arith, a.number, n) in
      let from : From = baseline_of to.number in
      let d : Cursor V = take_delta ops from to.number bits c in
      let b = a.same to.number in
      (
        d,
        if_false (advance ops old c) _ e ∙ if_false _ _ other ∙ if_true (done d) _ below,
        take_msg ops from to.number bits c
            ∙ ap (λ s. (read_delta_entity ops s to.number bits c.msg).1) b,
        take-At ops baselines old base total from to.number bits c new olds to fits h a
            (ap (λ s. (read_delta_entity ops s to.number bits c.msg).0) b ∙ v),
      )
