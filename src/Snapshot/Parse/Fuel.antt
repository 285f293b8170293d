-- ===== src/Snapshot/Parse/Fuel.antt =====
-- The loops of Cl_ParseEntities of src/client/cl_entity.c end, on any message.
use quake2world.Prelude.{
  ℕ, zero, suc, ◌+◌, ◌^◌, ◌≤◌, ◌<◌, ◌≡◌, ◌≢◌, refl, sym, ap, ◌∙◌, subst, Bool, true, false, Option,
  none, some, leb, ltb, ◌==◌, test_bit, arith, if◌then◌else◌,
}
use quake2world.MemBuf.{MemBuf}
use quake2world.MemBuf.Valid.{IsValid}
use quake2world.Message.Read.{read_short16, read_if, ◌>>=◌}
use quake2world.Message.Cursor.{
  Moved, Moves-read_short16, read_short16-read, Moves-read_delta_entity,
}
use quake2world.Message.Vector.{Floats}
use quake2world.Message.Entity.{max_edicts, read_delta_entity}
use quake2world.Snapshot.Parse.{
  Outcome, done, dropped, crashed, unfinished, and_then, Client, Window, Cursor, From, in_ring,
  baseline_of, past_end, old_count, old_place, take_delta, parse_delta_entity, copy_unchanged,
  parse_entity, advance, entities_loop, begin_frame, first_number, parse_entities,
}

-- The old frame, if there is none or it is used up, counts as past its end.
record IsPlaced {V : Type 0} (ops : Floats V) (old : Option Window) (c : Cursor V) : Type 0 where
  used_up : old_count ops old ≤ c.old_index → c.old_number ≡ past_end

-- The parse ended, with `P` where it is done.
unfoldable Finishes : {V : Type 0} → (Cursor V → Type 0) → Outcome (Cursor V) → Type 0
Finishes P (done c) = P c
Finishes P dropped = Unit
Finishes P crashed = Unit
Finishes P unfinished = ⊥

Finishes-and_then :
    {V : Type 0} (P Q : Cursor V → Type 0) (r : Outcome (Cursor V))
    (f : Cursor V → Outcome (Cursor V))
    → Finishes P r
    → ((c : Cursor V) → P c → Finishes Q (f c))
    → Finishes Q (and_then r f)
unfolding and_then Finishes
Finishes-and_then P Q (done c) f h k = k c h
Finishes-and_then P Q dropped f h k = tt
Finishes-and_then P Q crashed f h k = tt
Finishes-and_then P Q unfinished f h k = absurd h

Finishes-weaken :
    {V : Type 0} (P Q : Cursor V → Type 0) (r : Outcome (Cursor V))
    → ((c : Cursor V) → P c → Q c)
    → Finishes P r
    → Finishes Q r
unfolding Finishes
Finishes-weaken P Q (done c) k h = k c h
Finishes-weaken P Q dropped k h = tt
Finishes-weaken P Q crashed k h = tt
Finishes-weaken P Q unfinished k h = h

Finishes-if :
    {V : Type 0} (P : Cursor V → Type 0) (b : Bool) (r t : Outcome (Cursor V))
    → (b ≡ true → Finishes P r)
    → (b ≡ false → Finishes P t)
    → Finishes P (if b then r else t)
Finishes-if P true r t p q = p refl
Finishes-if P false r t p q = q refl

-- What a turn leaves: a place, one further on in the old frame.
abbrev Next : {V : Type 0} → Floats V → Option Window → Cursor V → Cursor V → Type 0
Next ops old c d = IsPlaced ops old d × (d.old_index ≡ c.old_index + 1) × (d.msg ≡ c.msg)

advance-Finishes :
    {V : Type 0} (ops : Floats V) (old : Option Window) (c : Cursor V)
    → Finishes (Next ops old c) (advance ops old c)
unfolding Finishes advance
advance-Finishes ops none c = tt
advance-Finishes ops (some w) c = (record { used_up = λ h. ground arith }, refl, refl)

abbrev start : {V : Type 0} → Floats V → Option Window → Client V → MemBuf → Cursor V
start ops old cl msg = record {
  cl = cl;
  msg = msg;
  old_index = 0;
  old_number = first_number ops cl old;
}

start-IsPlaced :
    {V : Type 0} (ops : Floats V) (old : Option Window) (cl : Client V) (msg : MemBuf)
    → IsPlaced ops old (start ops old cl msg)
start-IsPlaced ops none cl msg = record { used_up = λ h. refl }
start-IsPlaced ops (some w) cl msg = record { used_up = λ h. ground arith }

Finishes-ends :
    {V : Type 0} (P : Cursor V → Type 0) (r : Outcome (Cursor V)) → Finishes P r → r ≢ unfinished
unfolding Finishes
Finishes-ends P r h e = subst (Finishes P) e h

module _ {V : Type 0} (ops : Floats V) (old : Option Window) where
  Finishes-done : (P : Cursor V → Type 0) (c : Cursor V) → P c → Finishes P (done c)
  unfolding Finishes
  Finishes-done P c h = h

  Finishes-dropped : (P : Cursor V → Type 0) → Finishes P dropped
  unfolding Finishes
  Finishes-dropped P = tt

  take-Moved :
      (from : From) (number bits : ℕ) (c : Cursor V)
      → c.msg.read + 28 < 2 ^ 64
      → Moved c.msg (take_delta ops from number bits c).msg 28
  unfolding take_delta parse_delta_entity
  take-Moved from number bits c h = (Moves-read_delta_entity ops _ number bits).moved c.msg h

  -- With no bits nothing is read.
  take-unread :
      (from : From) (number : ℕ) (c : Cursor V) → (take_delta ops from number 0 c).msg ≡ c.msg
  unfolding take_delta parse_delta_entity read_delta_entity read_if ◌>>=◌ test_bit
  take-unread from number c = refl

  take_delta-place :
      (from : From) (number bits : ℕ) (c : Cursor V)
      → ((take_delta ops from number bits c).old_index ≡ c.old_index)
        × ((take_delta ops from number bits c).old_number ≡ c.old_number)
  unfolding take_delta
  take_delta-place from number bits c = (refl, refl)

  copy-Finishes :
      (fuel number : ℕ) (c : Cursor V)
      → number ≤ past_end
      → IsPlaced ops old c
      → old_count ops old ≤ fuel + c.old_index
      → Finishes (λ d. IsPlaced ops old d × (d.msg ≡ c.msg)) (copy_unchanged ops fuel old number c)
  unfolding copy_unchanged
  copy-Finishes zero number c h p q =
      Finishes-if _ (ltb c.old_number number) unfinished (done c)
        (λ e. absurd (ground (arith, p.used_up (omega (arith, q)))))
        (λ e. Finishes-done _ c (p, refl))
  copy-Finishes (suc fuel) number c h p q =
      let from : From = in_ring (old_place ops old c) in
      let d : Cursor V = take_delta ops from c.old_number 0 c in
      let same = take_delta-place from c.old_number 0 c in
      let unread : d.msg ≡ c.msg = take-unread from c.old_number c in
      Finishes-if _ (ltb c.old_number number) _ (done c)
        (λ e.
          Finishes-and_then (Next ops old d) _ _ _ (advance-Finishes ops old d)
            (λ d' (placed, index, msg).
              subst
                (λ m.
                  Finishes (λ r. IsPlaced ops old r × (r.msg ≡ m))
                    (copy_unchanged ops fuel old number d'))
                (msg ∙ unread)
                (copy-Finishes fuel number d' h placed (omega (arith, q, index, same)))))
        (λ e. Finishes-done _ c (p, refl))

  entity-Finishes :
      (number bits : ℕ) (c : Cursor V)
      → c.msg.read + 28 < 2 ^ 64
      → IsPlaced ops old c
      → Finishes
          (λ d. IsPlaced ops old d × Moved c.msg d.msg 28)
          (parse_entity ops old number bits c)
  unfolding parse_entity
  entity-Finishes number bits c h p =
      let from : From = in_ring (old_place ops old c) in
      let place = take_delta-place (baseline_of number) number bits c in
      let turn : (d : Cursor V)
          → Moved c.msg d.msg 28
          → Finishes (λ d. IsPlaced ops old d × Moved c.msg d.msg 28) (advance ops old d) =
        λ d m.
          Finishes-weaken (Next ops old d) _ _
            (λ d' (placed, index, msg). (placed, subst (λ t. Moved c.msg t 28) (sym msg) m))
            (advance-Finishes ops old d) in
      Finishes-if _ (test_bit bits 10) _ _ (λ e. turn c (omega arith))
        (λ e.
          Finishes-if _ (c.old_number == number) _ _
            (λ e. turn (take_delta ops from number bits c) (take-Moved from number bits c h))
            (λ e.
              Finishes-if _ (ltb number c.old_number) _ _
                (λ e. Finishes-done _ _ (
                  record { used_up = λ u. place.1 ∙ p.used_up (omega (arith, place, u)) },
                  take-Moved (baseline_of number) number bits c h,
                ))
                (λ e. Finishes-done _ c (p, omega arith))))

  loop-Finishes :
      (fuel : ℕ) (c : Cursor V)
      → IsPlaced ops old c
      → c.msg.size < 2 ^ 63
      → c.msg.read ≤ c.msg.size + 32
      → 1 ≤ fuel
      → c.msg.size + 1 ≤ fuel + c.msg.read
      → Finishes (IsPlaced ops old) (entities_loop ops fuel old c)
  unfolding entities_loop
  loop-Finishes zero c p s r f l = absurd (omega (arith, f))
  loop-Finishes (suc fuel) c p s r f l =
      let a = Moves-read_short16.moved c.msg (omega (arith, s, r)) in
      let on = read_short16-read c.msg (omega (arith, s, r)) in
      let number : ℕ = (read_short16 c.msg).0 in
      let msg : MemBuf = (read_short16 c.msg).1 in
      let b = Moves-read_short16.moved msg (omega (arith, s, r, a)) in
      let bits : ℕ = (read_short16 msg).0 in
      let d : Cursor V = record c { msg = (read_short16 msg).1 } in
      Finishes-if _ (leb max_edicts number) _ _ (λ e. Finishes-dropped _)
        (λ small.
          Finishes-if _ (ltb msg.size msg.read) _ _ (λ e. Finishes-dropped _)
            (λ inside.
              Finishes-if _ (number == 0) _ _
                (λ e. Finishes-done _ _ (record { used_up = p.used_up }))
                (λ e.
                  Finishes-and_then (λ d'. IsPlaced ops old d' × (d'.msg ≡ d.msg)) _
                    (copy_unchanged ops (old_count ops old) old number d)
                    (λ e'.
                      and_then (parse_entity ops old number bits e') (entities_loop ops fuel old))
                    (copy-Finishes (old_count ops old) number d (ground arith)
                      (record { used_up = p.used_up }) (omega arith))
                    (λ d' (placed, same).
                      let read : d'.msg.read ≡ d.msg.read = ap (λ m. m.read) same in
                      let size : d'.msg.size ≡ d.msg.size = ap (λ m. m.size) same in
                      let fits : msg.read ≤ msg.size = ground (arith, inside) in
                      Finishes-and_then (λ t. IsPlaced ops old t × Moved d'.msg t.msg 28) _
                        (parse_entity ops old number bits d') (entities_loop ops fuel old)
                        (entity-Finishes number bits d' (omega (arith, read, a, b, s, r)) placed)
                        (λ t (placed', m).
                          loop-Finishes fuel t placed' (omega (arith, m, size, b, a, s))
                            (omega (arith, m, size, read, b, a, fits))
                            (omega (arith, l, fits, a, on))
                            (omega (arith, l, m, read, size, a, b, on)))))))

  -- Whatever a valid message holds, and whatever the client has, with an old frame or with none, Cl_ParseEntities
  -- ends: its loops do not use up their fuel.
  pub parse_entities-ends :
      (cl : Client V) (msg : MemBuf)
      → IsValid msg
      → msg.read ≤ msg.size
      → (parse_entities ops old cl msg) ≢ unfinished
  unfolding parse_entities
  parse_entities-ends cl msg v r = Finishes-ends _ _ (
      Finishes-and_then (IsPlaced ops old) (IsPlaced ops old) _ _
        (loop-Finishes (suc msg.size) (start ops old (begin_frame ops cl) msg)
          (start-IsPlaced ops old _ msg) (omega (arith, v)) (omega (arith, r)) (omega arith)
          (omega arith))
        (λ c p.
          Finishes-weaken (λ d. IsPlaced ops old d × (d.msg ≡ c.msg)) _ _ (λ d q. q.0)
            (copy-Finishes (old_count ops old) past_end c (omega arith) p (omega arith))))
