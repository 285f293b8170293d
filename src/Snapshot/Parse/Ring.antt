-- ===== src/Snapshot/Parse/Ring.antt =====
-- What Cl_ParseEntities of src/client/cl_entity.c does to the ring of entity states.
use quake2world.Prelude.{
  ℕ, zero, suc, ◌+◌, ◌%◌, ◌^◌, ◌<◌, ◌≤◌, ◌≡◌, ◌≢◌, refl, sym, ap, ◌∙◌, Bool, true, false, some, ltb,
  leb, ◌==◌, if◌then◌else◌, ==_iff, Bool-cases, inl, inr, arith, if_true, if_false,
}
use quake2world.MemBuf.{MemBuf}
use quake2world.MemBuf.Valid.{IsValid}
use quake2world.Message.Read.{read_short16}
use quake2world.Message.Vector.{Floats}
use quake2world.Message.Entity.{max_edicts, read_delta_entity}
use quake2world.Snapshot.Parse.{
  Outcome, done, dropped, crashed, unfinished, and_then, ClEntity, Window, Client, Cursor, From,
  slot, put, entity_state_backup, parse_delta_entity, advance, take_delta, copy_unchanged,
  parse_entity, old_count, entities_loop, begin_frame, parse_entities, store, update_entity,
  from_state,
}
use quake2world.Snapshot.Parse.Fuel.{parse_entities-ends}

-- The parse did not use a null pointer, and `P` holds of what it made of the client, if it is done.
unfoldable Ends : {V : Type 0} → (Client V → Type 0) → Outcome (Cursor V) → Type 0
Ends P (done c) = P c.cl
Ends P dropped = Unit
Ends P crashed = ⊥
Ends P unfinished = Unit

-- Of a parse that has ended: it did not use a null pointer, and `P` holds of what it made of the client,
-- unless Com_Error dropped the connection.
unfoldable pub Results : {V : Type 0} → (Client V → Type 0) → Outcome (Cursor V) → Type 0
Results P (done c) = P c.cl
Results P dropped = Unit
Results P crashed = ⊥
Results P unfinished = ⊥

Ends-Results :
    {V : Type 0} (P : Client V → Type 0) (r : Outcome (Cursor V))
    → Ends P r
    → r ≢ unfinished
    → Results P r
unfolding Ends Results
Ends-Results P (done c) h k = h
Ends-Results P dropped h k = tt
Ends-Results P crashed h k = h
Ends-Results P unfinished h k = k refl

module _ {V : Type 0} (ops : Floats V) (P : Client V → Type 0) (old : Window)
    (step : (cl : Client V) (from : From) (number bits : ℕ) (msg : MemBuf)
      → P cl
      → P (parse_delta_entity ops cl from number bits msg).0) where
  Ends-and_then :
      (r : Outcome (Cursor V)) (f : Cursor V → Outcome (Cursor V))
      → Ends P r
      → ((c : Cursor V) → P c.cl → Ends P (f c))
      → Ends P (and_then r f)
  unfolding and_then Ends
  Ends-and_then (done c) f h k = k c h
  Ends-and_then dropped f h k = tt
  Ends-and_then crashed f h k = h
  Ends-and_then unfinished f h k = tt

  advance-Ends : (c : Cursor V) → P c.cl → Ends P (advance ops (some old) c)
  unfolding advance Ends
  advance-Ends c h = h

  take-Ends :
      (from : From) (number bits : ℕ) (c : Cursor V)
      → P c.cl
      → P (take_delta ops from number bits c).cl
  unfolding take_delta
  take-Ends from number bits c h = step c.cl from number bits c.msg h

  Ends-if :
      (b : Bool) (r t : Outcome (Cursor V)) → Ends P r → Ends P t → Ends P (if b then r else t)
  Ends-if true r t p q = p
  Ends-if false r t p q = q

  Ends-done : (c : Cursor V) → P c.cl → Ends P (done c)
  unfolding Ends
  Ends-done c h = h

  Ends-dropped : Ends P dropped
  unfolding Ends
  Ends-dropped = tt

  Ends-unfinished : Ends P unfinished
  unfolding Ends
  Ends-unfinished = tt

  copy-Ends :
      (fuel number : ℕ) (c : Cursor V)
      → P c.cl
      → Ends P (copy_unchanged ops fuel (some old) number c)
  unfolding copy_unchanged
  copy-Ends zero number c h = Ends-if _ _ _ Ends-unfinished (Ends-done _ h)
  copy-Ends (suc fuel) number c h =
      Ends-if _ _ _
        (Ends-and_then _ _ (advance-Ends _ (take-Ends _ _ _ c h)) (copy-Ends fuel number))
        (Ends-done _ h)

  entity-Ends :
      (number bits : ℕ) (c : Cursor V) → P c.cl → Ends P (parse_entity ops (some old) number bits c)
  unfolding parse_entity
  entity-Ends number bits c h = Ends-if _ _ _ (advance-Ends c h) (
      Ends-if _ _ _ (advance-Ends _ (take-Ends _ _ _ c h))
        (Ends-if _ _ _ (Ends-done _ (take-Ends _ _ _ c h)) (Ends-done _ h)))

  loop-Ends : (fuel : ℕ) (c : Cursor V) → P c.cl → Ends P (entities_loop ops fuel (some old) c)
  unfolding entities_loop
  loop-Ends zero c h = Ends-unfinished
  loop-Ends (suc fuel) c h =
      let number : ℕ = (read_short16 c.msg).0 in
      let msg : MemBuf = (read_short16 c.msg).1 in
      let bits : ℕ = (read_short16 msg).0 in
      let d : Cursor V = record c { msg = (read_short16 msg).1 } in
      Ends-if (leb max_edicts number) _ _ Ends-dropped (
        Ends-if (ltb msg.size msg.read) _ _ Ends-dropped (
          Ends-if (number == 0) _ _ (Ends-done (record c { msg = msg }) h) (
            Ends-and_then (copy_unchanged ops (old_count ops (some old)) (some old) number d)
              (λ e.
                and_then (parse_entity ops (some old) number bits e)
                  (entities_loop ops fuel (some old)))
              (copy-Ends _ number d h)
              (λ e k. Ends-and_then _ _ (entity-Ends number bits e k) (loop-Ends fuel)))))

  entities-Ends :
      (cl : Client V) (msg : MemBuf)
      → P (begin_frame ops cl)
      → Ends P (parse_entities ops (some old) cl msg)
  unfolding parse_entities
  entities-Ends cl msg h = Ends-and_then _ _ (loop-Ends _ _ h) (copy-Ends _ _)

-- `cl'` is `cl` with `count` states stored after its last one: the frame's window is these states,
-- no other slot of the ring is written, and the baselines are as they were.
pub record Stores {V : Type 0} (cl cl' : Client V) (count : ℕ) : Type 0 where
  pub entity_state : cl'.entity_state ≡ (cl.entity_state + count) % 2 ^ 32
  pub first : cl'.frame.entity_state ≡ cl.entity_state
  pub num_entities : cl'.frame.num_entities ≡ count % 2 ^ 16
  pub others :
      (i : ℕ)
      → ((k : ℕ) → k < count → i ≢ slot (cl.entity_state + k))
      → cl'.entity_states i ≡ cl.entity_states i
  pub baselines : (n : ℕ) → (cl'.entities n).baseline ≡ (cl.entities n).baseline

abbrev pub IsStored : {V : Type 0} → Client V → Client V → Type 0
IsStored cl cl' = (count : ℕ) × Stores cl cl' count

pub put-same : {A : Type 0} (f : ℕ → A) (i : ℕ) (a : A) (j : ℕ) → j ≢ i → put f i a j ≡ f j
unfolding put
put-same f i a j h = ground arith

pub put_self : {A : Type 0} (f : ℕ → A) (i : ℕ) (a : A) → put f i a i ≡ a
unfolding put
put_self f i a = ground arith

pub put-baseline :
    {V : Type 0} (f : ℕ → ClEntity V) (i : ℕ) (ent : ClEntity V)
    → ent.baseline ≡ (f i).baseline
    → (n : ℕ) → (put f i ent n).baseline ≡ (f n).baseline
unfolding put
put-baseline f i ent e n = elim (Bool-cases (n == i)) [
  | inl q ↦
      ap (λ t. t.baseline) (if_true ent (f n) q)
      ∙ e
      ∙ ap (λ j. (f j).baseline) (sym ((==_iff n i).0 q))
  | inr q ↦ ap (λ t. t.baseline) (if_false ent (f n) q)
]

module _ {V : Type 0} (ops : Floats V) where
  pub parse-Stores :
      (cl cl' : Client V) (count : ℕ) (from : From) (number bits : ℕ) (msg : MemBuf)
      → Stores cl cl' count
      → Stores cl (parse_delta_entity ops cl' from number bits msg).0 (suc count)
  unfolding parse_delta_entity put update_entity
  parse-Stores cl cl' count from number bits msg s =
      let to = (read_delta_entity ops (from_state cl' from) number bits msg).0 in
      let ent =
        update_entity ops (cl'.entities number) (from_state (store ops cl' to) from) to
          cl'.frame_num in
      record {
        entity_state = omega (arith, s.entity_state);
        first = s.first;
        num_entities = omega (arith, s.num_entities);
        others = λ i h.
            put-same cl'.entity_states (slot cl'.entity_state) _ i
              (λ e. h count (omega arith) (e ∙ omega (arith, s.entity_state)))
            ∙ s.others i (λ k q. h k (omega arith));
        baselines = λ n. put-baseline cl'.entities number ent refl n ∙ s.baselines n;
      }

  pub begin-Stores : (cl : Client V) → cl.entity_state < 2 ^ 32 → Stores cl (begin_frame ops cl) 0
  begin-Stores cl h = record {
    entity_state = omega arith;
    first = refl;
    num_entities = refl;
    others = λ i k. refl;
    baselines = λ n. refl;
  }

  written-Ends :
      (old : Window) (cl : Client V) (msg : MemBuf)
      → cl.entity_state < 2 ^ 32
      → Ends (IsStored cl) (parse_entities ops (some old) cl msg)
  written-Ends old cl msg h =
      entities-Ends ops (IsStored cl) old
        (λ cl' from number bits m (count, s).
          (suc count, parse-Stores cl cl' count from number bits m s))
        cl msg (0, begin-Stores cl h)

  -- On a valid message, whatever it holds, Cl_ParseEntities with an old frame ends and does not use a
  -- null pointer. Either it drops the connection, or it stores some number of states after the last
  -- one; these are the window of the frame, and no other slot of the ring and no baseline is written.
  pub parse_entities_lem :
      (old : Window) (cl : Client V) (msg : MemBuf)
      → cl.entity_state < 2 ^ 32
      → IsValid msg
      → msg.read ≤ msg.size
      → Results (IsStored cl) (parse_entities ops (some old) cl msg)
  parse_entities_lem old cl msg h v r =
      Ends-Results (IsStored cl) _ (written-Ends old cl msg h)
        (parse_entities-ends ops (some old) cl msg v r)

-- States that are stored leave those of an old frame as they were, if the last of them is less than
-- ENTITY_STATE_BACKUP after the first of the old frame and the indices do not wrap.
pub old_states_kept :
    {V : Type 0} {cl cl' : Client V} (count : ℕ) (old : Window) (j : ℕ)
    → Stores cl cl' count
    → old.entity_state + old.num_entities ≤ cl.entity_state
    → cl.entity_state + count ≤ old.entity_state + entity_state_backup
    → cl.entity_state + count < 2 ^ 32
    → j < old.num_entities
    → cl'.entity_states (slot (old.entity_state + j))
      ≡ cl.entity_states (slot (old.entity_state + j))
old_states_kept count old j s before room h k = s.others _ (λ i q e. omega (arith, e))
