-- ===== src/Snapshot/Backup.antt =====
-- The ring of frames that Sv_WriteFrame of src/server/sv_entity.c deltas from, and the end of its
-- loop over the entities.
use quake2world.Prelude.{
  ℕ, zero, suc, ◌+◌, ◌-◌, ◌%◌, ◌≤◌, ◌<◌, ◌≡◌, ◌≢◌, refl, ap, ◌∙◌, leb, false, if_false, Option,
  none, some, List, [], ◌∷◌, arith, length,
}
use quake2world.Message.Write.{Writer, ◌>>◌}
use quake2world.Message.Vector.{Floats}
use quake2world.Message.Entity.{EntityState}
use quake2world.Snapshot.Emit.{
  SvFrame, SvClient, Store, packet_backup, choose_delta, delta_of, emit_step, emit_loop, write_new,
  write_removal,
}

chosen :
    (client : SvClient) (frame_num last : ℕ) (frame : SvFrame) (named : Option ℕ)
    → delta_of client frame_num named ≡ some (last, frame)
    → (named ≡ some last)
      × (frame ≡ client.frames (last % packet_backup))
      × frame_num < last + (packet_backup - 3)
unfolding delta_of
chosen client frame_num last frame none e = absurd (cc e)
chosen client frame_num last frame (some l) e = ground (arith, e)

-- The frame that Sv_WriteFrame deltas from is what the ring has for the number that the client named. If that number is below the
-- number of the frame being written, no later frame, the one being written included, has taken its place in the ring.
pub choose_delta_lem :
    (client : SvClient) (frame_num last : ℕ) (frame : SvFrame)
    → choose_delta client frame_num ≡ some (last, frame)
    → last < frame_num
    → (client.last_frame ≡ some last)
      × (frame ≡ client.frames (last % packet_backup))
      × ((n : ℕ) → last < n → n ≤ frame_num → (n % packet_backup) ≢ (last % packet_backup))
choose_delta_lem client frame_num last frame e below =
    let (named, kept, still) = chosen client frame_num last frame client.last_frame e in
    ground (arith, named, kept, still)

-- The number that a client names is not compared with that of the frame being written from above: PACKET_BACKUP past it, the
-- frame to delta from is the one being written.
pub choose_delta_ahead :
    (client : SvClient) (frame_num : ℕ)
    → client.last_frame ≡ some (frame_num + packet_backup)
    → choose_delta client frame_num
      ≡ some (frame_num + packet_backup, client.frames (frame_num % packet_backup))
unfolding delta_of
choose_delta_ahead client frame_num e =
    let taken : leb (frame_num + packet_backup + (packet_backup - 3)) frame_num ≡ false =
      ground arith in
    let same : ((frame_num + packet_backup) % packet_backup) ≡ frame_num % packet_backup =
      omega arith in
    ap (delta_of client frame_num) e
    ∙ if_false none
        (some
          (frame_num + packet_backup, client.frames ((frame_num + packet_backup) % packet_backup)))
        taken
    ∙ ap (λ i. some (frame_num + packet_backup, client.frames i)) same

module _ {V : Type 0} (ops : Floats V) (sv : Store V) where
  abbrev pub left_over : Writer × List (EntityState V) × List (EntityState V) → ℕ
  left_over (w, olds, news) = length olds + length news

  pub emit_step-lt :
      (old : EntityState V) (olds : List (EntityState V)) (new : EntityState V)
      (news : List (EntityState V))
      → left_over (emit_step ops sv old olds new news) ≤ length olds + suc (length news)
  unfolding emit_step
  emit_step-lt old olds new news = ground arith

  -- Sv_EmitEntities ends: any fuel from the number of entities in both frames on gives the same message.
  pub emit_loop-enough :
      (fuel more : ℕ) (olds news : List (EntityState V))
      → length olds + length news ≤ fuel
      → length olds + length news ≤ more
      → emit_loop ops sv fuel olds news ≡ emit_loop ops sv more olds news
  unfolding emit_loop
  emit_loop-enough fuel more [] [] p q = refl
  emit_loop-enough zero more (o ∷ olds) news p q = absurd (omega arith)
  emit_loop-enough zero more [] (n ∷ news) p q = absurd (omega arith)
  emit_loop-enough (suc fuel) zero (o ∷ olds) news p q = absurd (omega arith)
  emit_loop-enough (suc fuel) zero [] (n ∷ news) p q = absurd (omega arith)
  emit_loop-enough (suc fuel) (suc more) [] (n ∷ news) p q =
      ap (λ r. write_new ops sv n >> r)
        (emit_loop-enough fuel more [] news (omega arith) (omega arith))
  emit_loop-enough (suc fuel) (suc more) (o ∷ olds) [] p q =
      ap (λ r. write_removal ops sv o >> r)
        (emit_loop-enough fuel more olds [] (omega arith) (omega arith))
  emit_loop-enough (suc fuel) (suc more) (o ∷ olds) (n ∷ news) p q =
      let l = emit_step-lt o olds n news in
      ap (λ r. (emit_step ops sv o olds n news).0 >> r)
        (emit_loop-enough fuel more (emit_step ops sv o olds n news).1
          (emit_step ops sv o olds n news).2 (omega (arith, l)) (omega (arith, l)))
