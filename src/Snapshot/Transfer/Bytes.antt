-- ===== src/Snapshot/Transfer/Bytes.antt =====
-- The bytes that Sv_EmitEntities of src/server/sv_entity.c writes.
use quake2world.Prelude.{
  ℕ, zero, suc, ◌+◌, ◌*◌, ◌≤◌, ◌≡◌, refl, sym, ap, ◌∙◌, subst, Bool, true, false, ◌&&◌, List, [],
  ◌∷◌, ◌++◌, arith, length, length-append, ltb, leb, ◌==◌, if◌then◌else◌, Bool-cases, inl, inr,
  if_true, if_false,
}
use quake2world.Message.Vector.{Floats}
use quake2world.Message.Vector.Grid.{FloatLaws}
use quake2world.Message.Write.{skip, short_bytes}
use quake2world.Message.Write.Rules.{Writes, Writes-seq, Writes-skip, Writes-write_short}
use quake2world.Message.Entity.{EntityState, entity_bits, write_delta_entity, max_edicts}
use quake2world.Message.Entity.RoundTrips.{IsSendable, sent_bytes, sent-Writes, length-sent_bytes}
use quake2world.Snapshot.Backup.{emit_step-lt}
use quake2world.Snapshot.Emit.{
  Store, u_remove, write_removal, write_new, write_old, emit_step, emit_loop,
}

-- Every state can go over the wire.
abbrev pub AreSendable : {V : Type 0} → Floats V → List (EntityState V) → Type 0
AreSendable ops [] = Unit
AreSendable ops (x ∷ l) = IsSendable ops x × AreSendable ops l

module _ {V : Type 0} (ops : Floats V) (laws : FloatLaws ops) (sv : Store V) where
  abbrev pub removal_bytes : EntityState V → List ℕ
  removal_bytes old = short_bytes old.number ++ short_bytes u_remove

  abbrev pub new_bytes : EntityState V → List ℕ
  new_bytes new = sent_bytes ops laws (sv.baselines new.number) new true

  abbrev pub is_player : EntityState V → Bool
  is_player new = leb new.number sv.max_clients

  abbrev pub is_same : EntityState V → EntityState V → Bool
  is_same old new = entity_bits ops old new (is_player new) == 0

  abbrev pub old_bytes : EntityState V → EntityState V → List ℕ
  old_bytes old new = if is_same old new then [] else sent_bytes ops laws old new (is_player new)

  abbrev pub step_bytes : EntityState V → EntityState V → List ℕ
  step_bytes old new =
      if new.number == old.number
      then old_bytes old new
      else if ltb new.number old.number
      then new_bytes new
      else removal_bytes old

  unfoldable pub emit_bytes : ℕ → List (EntityState V) → List (EntityState V) → List ℕ
  emit_bytes fuel [] [] = short_bytes 0
  emit_bytes zero [] (new ∷ news) = []
  emit_bytes zero (old ∷ olds) news = []
  emit_bytes (suc fuel) [] (new ∷ news) = new_bytes new ++ emit_bytes fuel [] news
  emit_bytes (suc fuel) (old ∷ olds) [] = removal_bytes old ++ emit_bytes fuel olds []
  emit_bytes (suc fuel) (old ∷ olds) (new ∷ news) =
      let (w, olds', news') = emit_step ops sv old olds new news in
      step_bytes old new ++ emit_bytes fuel olds' news'

  removal-Writes : (old : EntityState V) → Writes (write_removal ops sv old) (removal_bytes old)
  unfolding write_removal
  removal-Writes old = Writes-seq (Writes-write_short _) (Writes-write_short _)

  new-Writes :
      (new : EntityState V) → IsSendable ops new → Writes (write_new ops sv new) (new_bytes new)
  unfolding write_new
  new-Writes new n = sent-Writes ops laws (sv.baselines new.number) new true true n (ground arith)

  skipped :
      (old new : EntityState V) (is_new : Bool)
      → IsSendable ops new
      → (entity_bits ops old new is_new == 0) ≡ true
      → write_delta_entity ops old new false is_new ≡ skip
  unfolding write_delta_entity
  skipped old new is_new n e =
      let p : leb new.number 0 ≡ false = ground (arith, n.number_pos) in
      let q : leb max_edicts new.number ≡ false = ground (arith, n.number) in rw (p, q, e) refl

  old-Writes :
      (old new : EntityState V)
      → IsSendable ops new
      → Writes (write_old ops sv old new) (old_bytes old new)
  unfolding write_old
  old-Writes old new n = elim (Bool-cases (is_same old new)) [
    | inl e ↦
        subst (λ w. Writes w (old_bytes old new)) (sym (skipped old new (is_player new) n e))
          (subst (Writes skip) (sym (if_true _ _ e)) Writes-skip)
    | inr e ↦
        subst (Writes (write_delta_entity ops old new false (is_player new))) (sym (if_false _ _ e))
          (sent-Writes ops laws old new (is_player new) false n (ap (λ b. b && true) e ∙ refl))
  ]

  step-Writes :
      (old : EntityState V) (olds : List (EntityState V)) (new : EntityState V)
      (news : List (EntityState V))
      → IsSendable ops new
      → Writes (emit_step ops sv old olds new news).0 (step_bytes old new)
  unfolding emit_step
  step-Writes old olds new news n = elim (Bool-cases (new.number == old.number)) [
    | inl e ↦ rw (e) (old-Writes old new n)
    | inr e ↦ elim (Bool-cases (ltb new.number old.number)) [
      | inl f ↦ rw (e, f) (new-Writes new n)
      | inr f ↦ rw (e, f) (removal-Writes old)
    ]
  ]

  step-AreSendable :
      (old : EntityState V) (olds : List (EntityState V)) (new : EntityState V)
      (news : List (EntityState V))
      → IsSendable ops new
      → AreSendable ops news
      → AreSendable ops (emit_step ops sv old olds new news).2
  unfolding emit_step
  step-AreSendable old olds new news n ns = elim (Bool-cases (new.number == old.number)) [
    | inl e ↦ rw (e) ns
    | inr e ↦ elim (Bool-cases (ltb new.number old.number)) [
      | inl f ↦ rw (e, f) ns
      | inr f ↦ rw (e, f) (n, ns)
    ]
  ]

  -- With fuel enough, the loop writes `emit_bytes`.
  pub emit-Writes :
      (fuel : ℕ) (olds news : List (EntityState V))
      → length olds + length news ≤ fuel
      → AreSendable ops news
      → Writes (emit_loop ops sv fuel olds news) (emit_bytes fuel olds news)
  unfolding emit_loop emit_bytes
  emit-Writes fuel [] [] h s = Writes-write_short 0
  emit-Writes zero [] (new ∷ news) h s = absurd (omega arith)
  emit-Writes zero (old ∷ olds) news h s = absurd (omega arith)
  emit-Writes (suc fuel) [] (new ∷ news) h (n, s) =
      Writes-seq (new-Writes new n) (emit-Writes fuel [] news (omega arith) s)
  emit-Writes (suc fuel) (old ∷ olds) [] h s =
      Writes-seq (removal-Writes old) (emit-Writes fuel olds [] (omega arith) tt)
  emit-Writes (suc fuel) (old ∷ olds) (new ∷ news) h (n, s) =
      Writes-seq (step-Writes old olds new news n) (
        emit-Writes fuel (emit_step ops sv old olds new news).1
          (emit_step ops sv old olds new news).2
          (omega (arith, emit_step-lt ops sv old olds new news))
          (step-AreSendable old olds new news n s))

  -- The bytes of a turn, case by case.
  module _ (fuel : ℕ) (old : EntityState V) (olds : List (EntityState V)) (new : EntityState V)
      (news : List (EntityState V)) where
    abbrev turn_bytes : List ℕ
    turn_bytes = emit_bytes (suc fuel) (old ∷ olds) (new ∷ news)

    pub bytes-same :
        (new.number == old.number) ≡ true
        → is_same old new ≡ true
        → turn_bytes ≡ emit_bytes fuel olds news
    unfolding emit_bytes emit_step
    bytes-same e s = rw (e, s) refl

    pub bytes-changed :
        (new.number == old.number) ≡ true
        → is_same old new ≡ false
        → turn_bytes ≡ sent_bytes ops laws old new (is_player new) ++ emit_bytes fuel olds news
    unfolding emit_bytes emit_step
    bytes-changed e s = rw (e, s) refl

    pub bytes-new :
        (new.number == old.number) ≡ false
        → ltb new.number old.number ≡ true
        → turn_bytes ≡ new_bytes new ++ emit_bytes fuel (old ∷ olds) news
    unfolding emit_bytes emit_step
    bytes-new e s = rw (e, s) refl

    pub bytes-removed :
        (new.number == old.number) ≡ false
        → ltb new.number old.number ≡ false
        → turn_bytes ≡ removal_bytes old ++ emit_bytes fuel olds (new ∷ news)
    unfolding emit_bytes emit_step
    bytes-removed e s = rw (e, s) refl

  sent_room :
      (from to : EntityState V) (is_new : Bool) (more : List ℕ)
      → length (sent_bytes ops laws from to is_new ++ more) ≤ 32 + length more
  sent_room from to is_new more = omega (
    arith,
    length-append (sent_bytes ops laws from to is_new) more,
    length-sent_bytes ops laws from to is_new,
  )

  pub length-emit_bytes :
      (fuel : ℕ) (olds news : List (EntityState V))
      → length olds + length news ≤ fuel
      → length (emit_bytes fuel olds news) ≤ 32 * (length olds + length news) + 2
  unfolding emit_bytes
  length-emit_bytes fuel [] [] h = omega arith
  length-emit_bytes zero [] (n ∷ news) h = absurd (omega arith)
  length-emit_bytes zero (o ∷ olds) news h = absurd (omega arith)
  length-emit_bytes (suc fuel) [] (n ∷ news) h = omega (
    arith,
    sent_room (sv.baselines n.number) n true (emit_bytes fuel [] news),
    length-emit_bytes fuel [] news (omega arith),
  )
  length-emit_bytes (suc fuel) (o ∷ olds) [] h =
      omega (arith, length-emit_bytes fuel olds [] (omega arith))
  length-emit_bytes (suc fuel) (o ∷ olds) (n ∷ news) h = elim (Bool-cases (n.number == o.number)) [
    | inl e ↦ elim (Bool-cases (is_same o n)) [
      | inl s ↦ omega (
        arith,
        ap length (bytes-same fuel o olds n news e s),
        length-emit_bytes fuel olds news (omega arith),
      )
      | inr s ↦ omega (
        arith,
        ap length (bytes-changed fuel o olds n news e s),
        sent_room o n (is_player n) (emit_bytes fuel olds news),
        length-emit_bytes fuel olds news (omega arith),
      )
    ]
    | inr e ↦ elim (Bool-cases (ltb n.number o.number)) [
      | inl s ↦ omega (
        arith,
        ap length (bytes-new fuel o olds n news e s),
        sent_room (sv.baselines n.number) n true (emit_bytes fuel (o ∷ olds) news),
        length-emit_bytes fuel (o ∷ olds) news (omega arith),
      )
      | inr s ↦ omega (
        arith,
        ap length (bytes-removed fuel o olds n news e s),
        length-emit_bytes fuel olds (n ∷ news) (omega arith),
      )
    ]
  ]
