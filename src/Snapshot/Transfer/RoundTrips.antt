-- ===== src/Snapshot/Transfer/RoundTrips.antt =====
-- What Cl_ParseEntities of src/client/cl_entity.c makes of the bytes that Sv_EmitEntities of
-- src/server/sv_entity.c wrote, when both have the same old frame and the same baselines.
use quake2world.Prelude.{
  ℕ, zero, suc, ◌+◌, ◌*◌, ◌≤◌, ◌<◌, ◌≡◌, ap, sym, subst, Bool-cases, inl, inr, true, Option, some,
  List, [], ◌∷◌, ◌++◌, arith, length, length-append, length-drop, ltb, ◌==◌,
}
use quake2world.MemBuf.{MemBuf, contents, remaining}
use quake2world.MemBuf.Valid.{IsValid}
use quake2world.MemBuf.Spec.{length-contents}
use quake2world.Message.RoundTrip.{from_mark, from_mark-Holds}
use quake2world.Message.Read.Rules.{Holds}
use quake2world.Message.Vector.{Floats}
use quake2world.Message.Vector.Grid.{FloatLaws}
use quake2world.Message.Entity.{EntityState}
use quake2world.Message.Entity.RoundTrips.{IsOnGrid, sent_bytes}
use quake2world.Snapshot.Emit.{Store, SvFrame, old_entities, frame_entities, emit_entities}
use quake2world.Snapshot.Parse.{done, Client, Window, Cursor, old_count, parse_entities}
use quake2world.Snapshot.Transfer.Bytes.{
  AreSendable, new_bytes, is_player, is_same, emit_bytes, emit-Writes, length-emit_bytes,
  bytes-same, bytes-changed, bytes-new, bytes-removed,
}
use quake2world.Snapshot.Transfer.Places.{Fits, Run, first_old, number_of, start_of, start-At}
use quake2world.Snapshot.Transfer.Turns.{Pairs, seconds}
use quake2world.Snapshot.Transfer.Lists.{AreSorted}
use quake2world.Snapshot.Transfer.Steps.{
  Parsed, Turn, Turn-room, end-Parsed, removed-Parsed, sent-Parsed, passed-Parsed, take_new,
  take_old,
}

module _ {V : Type 0} (ops : Floats V) (laws : FloatLaws ops) (sv : Store V) (old : Option Window)
    (base total : ℕ) (fits : Fits ops sv.baselines old base total)
    (grid : (n : ℕ) → IsOnGrid ops (sv.baselines n)) where
  abbrev bytes_of : ℕ → List (EntityState V) → List (EntityState V) → List ℕ
  bytes_of = emit_bytes ops laws sv

  abbrev Before :
      ℕ
      → ℕ
      → Pairs V
      → Cursor V
      → List (EntityState V)
      → List (EntityState V)
      → List (EntityState V)
      → List ℕ
      → Type 0
  Before = Turn ops laws sv old base total fits grid

  abbrev After : ℕ → Cursor V → List (EntityState V) → List ℕ → Type 0
  After = Parsed ops laws sv old base total fits grid

  new-Parsed :
      (fuel k : ℕ) (us : Pairs V) (c : Cursor V) (new olds news : List (EntityState V))
      (n : EntityState V) (more rest : List ℕ)
      → Before fuel k us c new olds (n ∷ news) (new_bytes ops laws sv n ++ more)
      → n.number < number_of olds
      → AreSorted n.number olds
      → Holds c.msg ((new_bytes ops laws sv n ++ more) ++ rest)
      → ((left : ℕ) (d : Cursor V)
          → Before left n.number [] d ((new ++ seconds us) ++ (n ∷ [])) olds news more
          → Holds d.msg (more ++ rest)
          → After left d (((new ++ seconds us) ++ (n ∷ [])) ++ news) rest)
      → After fuel c (new ++ (seconds us ++ (n ∷ news))) rest
  new-Parsed fuel k us c new olds news n more rest t le so h next =
      sent-Parsed ops laws sv old base total fits grid fuel k us c new olds olds news
        (sv.baselines n.number) n true more rest t (omega (arith, le)) t.old_sendable so h
        (λ d a holds.
          take_new ops laws sv old base total fits grid d (new ++ seconds us) olds n (more ++ rest)
            t.sendable.0
            (Turn-room ops laws sv old base total fits grid fuel k us c new olds news n
              (new_bytes ops laws sv n ++ more) t)
            le a holds)
        next

  changed-Parsed :
      (fuel k : ℕ) (us : Pairs V) (c : Cursor V) (new olds news : List (EntityState V))
      (o n : EntityState V) (more rest : List ℕ)
      → Before fuel k us c new
          (o ∷ olds)
          (n ∷ news)
          (sent_bytes ops laws o n (is_player ops laws sv n) ++ more)
      → n.number ≡ o.number
      → Holds c.msg ((sent_bytes ops laws o n (is_player ops laws sv n) ++ more) ++ rest)
      → ((left : ℕ) (d : Cursor V)
          → Before left n.number [] d ((new ++ seconds us) ++ (n ∷ [])) olds news more
          → Holds d.msg (more ++ rest)
          → After left d (((new ++ seconds us) ++ (n ∷ [])) ++ news) rest)
      → After fuel c (new ++ (seconds us ++ (n ∷ news))) rest
  changed-Parsed fuel k us c new olds news o n more rest t e h next =
      let player = is_player ops laws sv n in
      sent-Parsed ops laws sv old base total fits grid fuel k us c new (o ∷ olds) olds news o n
        player more rest t (omega (arith, e)) t.old_sendable.1
        (subst (λ (k : ℕ). AreSorted k olds) (sym e) t.old_sorted.1) h
        (λ d a holds.
          take_old ops laws sv old base total fits grid d (new ++ seconds us) olds o n player
            (more ++ rest) t.old_sendable.0 t.sendable.0
            (Turn-room ops laws sv old base total fits grid fuel k us c new (o ∷ olds) news n
              (sent_bytes ops laws o n player ++ more) t)
            e a holds)
        next

  turned :
      {fuel k : ℕ} {us : Pairs V} {c : Cursor V} {new olds news : List (EntityState V)}
      {bytes bytes' : List ℕ}
      → bytes ≡ bytes'
      → Before fuel k us c new olds news bytes
      → Before fuel k us c new olds news bytes'
  turned {fuel} {k} {us} {c} {new} {olds} {news} e t = subst (Before fuel k us c new olds news) e t

  pub loop-Parsed :
      (fuel left k : ℕ) (us : Pairs V) (c : Cursor V) (new olds news : List (EntityState V))
      (rest : List ℕ)
      → length olds + length news ≤ fuel
      → Before left k us c new olds news (bytes_of fuel olds news)
      → Holds c.msg (bytes_of fuel olds news ++ rest)
      → After left c (new ++ (seconds us ++ news)) rest
  unfolding emit_bytes
  loop-Parsed fuel left k us c new [] [] rest f t h =
      end-Parsed ops laws sv old base total fits grid left k us c new rest t h
  loop-Parsed zero left k us c new [] (n ∷ news) rest f t h = absurd (omega (arith, f))
  loop-Parsed zero left k us c new (o ∷ olds) news rest f t h = absurd (omega (arith, f))
  loop-Parsed (suc fuel) left k us c new [] (n ∷ news) rest f t h =
      let small = t.sendable.0.number in
      new-Parsed left k us c new [] news n (bytes_of fuel [] news) rest t (omega (arith, small)) tt
        h
        λ left' d t' h'.
          loop-Parsed fuel left' n.number [] d ((new ++ seconds us) ++ (n ∷ [])) [] news rest
            (omega (arith, f)) t' h'
  loop-Parsed (suc fuel) left k us c new (o ∷ olds) [] rest f t h =
      removed-Parsed ops laws sv old base total fits grid left k us c new olds [] o
        (bytes_of fuel olds []) rest t tt h
        λ left' d t' h'.
          loop-Parsed fuel left' o.number [] d (new ++ seconds us) olds [] rest (omega (arith, f))
            t' h'
  loop-Parsed (suc fuel) left k us c new (o ∷ olds) (n ∷ news) rest f t h =
      elim (Bool-cases (n.number == o.number)) [
        | inl e ↦ elim (Bool-cases (is_same ops laws sv o n)) [
          | inl s ↦
              let b = bytes-same ops laws sv fuel o olds n news e s in
              passed-Parsed ops laws sv old base total fits grid left k us c new olds news o n
                (bytes_of fuel olds news) rest (turned b t) (ground (arith, e)) s
                λ t'.
                  loop-Parsed fuel left o.number (us ++ ((o, n) ∷ [])) c new olds news rest
                    (omega (arith, f)) t' (subst (λ l. Holds c.msg (l ++ rest)) b h)
          | inr s ↦
              let b = bytes-changed ops laws sv fuel o olds n news e s in
              let q : n.number ≡ o.number = ground (arith, e) in
              changed-Parsed left k us c new olds news o n (bytes_of fuel olds news) rest
                (turned b t) q (subst (λ l. Holds c.msg (l ++ rest)) b h)
                λ left' d t' h'.
                  loop-Parsed fuel left' n.number [] d ((new ++ seconds us) ++ (n ∷ [])) olds news
                    rest (omega (arith, f)) t' h'
        ]
        | inr e ↦ elim (Bool-cases (ltb n.number o.number)) [
          | inl s ↦
              let b = bytes-new ops laws sv fuel o olds n news e s in
              let q : n.number < o.number = ground (arith, s) in
              new-Parsed left k us c new (o ∷ olds) news n (bytes_of fuel (o ∷ olds) news) rest
                (turned b t) q (q, t.old_sorted.1) (subst (λ l. Holds c.msg (l ++ rest)) b h)
                λ left' d t' h'.
                  loop-Parsed fuel left' n.number [] d ((new ++ seconds us) ++ (n ∷ [])) (o ∷ olds)
                    news rest (omega (arith, f)) t' h'
          | inr s ↦
              let b = bytes-removed ops laws sv fuel o olds n news e s in
              let q : o.number < n.number = ground (arith, e, s) in
              removed-Parsed ops laws sv old base total fits grid left k us c new olds (n ∷ news) o
                (bytes_of fuel olds (n ∷ news)) rest (turned b t) (q, t.sorted.1)
                (subst (λ l. Holds c.msg (l ++ rest)) b h)
                λ left' d t' h'.
                  loop-Parsed fuel left' o.number [] d (new ++ seconds us) olds (n ∷ news) rest
                    (omega (arith, f)) t' h'
        ]
      ]

-- Both sides have the frame to delta from and the baselines, and the client's ring has room for the new frame.
pub record IsInStep {V : Type 0} (ops : Floats V) (sv : Store V) (from : Option SvFrame)
    (to : SvFrame) (old : Option Window) (cl : Client V) : Type 0 where
  pub count : length (old_entities sv from) ≡ old_count ops old
  pub kept : Run cl.entity_states (first_old cl.entity_state old) (old_entities sv from)
  pub baselines : (n : ℕ) → (cl.entities n).baseline ≡ sv.baselines n
  pub fits : Fits ops sv.baselines old cl.entity_state (length (frame_entities sv to))

-- The entities can go over the wire, each once and in the order of their numbers.
pub record IsFrame {V : Type 0} (ops : Floats V) (l : List (EntityState V)) : Type 0 where
  pub sendable : AreSendable ops l
  pub sorted : AreSorted 0 l

module _ {V : Type 0} (ops : Floats V) (laws : FloatLaws ops) (sv : Store V) (from : Option SvFrame)
    (to : SvFrame) (old : Option Window) (cl : Client V) where
  -- What Cl_ParseEntities does with a message that ends in the bytes of the frame `to` against `from`
  pub entities_parsed :
      (grid : (n : ℕ) → IsOnGrid ops (sv.baselines n)) (msg : MemBuf)
      → IsInStep ops sv from to old cl
      → IsFrame ops (old_entities sv from)
      → IsFrame ops (frame_entities sv to)
      → Holds msg (
          emit_bytes ops laws sv
            (length (old_entities sv from) + length (frame_entities sv to))
            (old_entities sv from)
            (frame_entities sv to)
          ++ [])
      → (d : Cursor V) × (parse_entities ops old cl msg ≡ done d)
        × (remaining d.msg ≡ [])
        × (d.cl.frame.num_entities ≡ length (frame_entities sv to))
        × Run d.cl.entity_states d.cl.frame.entity_state (frame_entities sv to)
  unfolding parse_entities
  entities_parsed grid msg step f t h =
      let olds = old_entities sv from in
      let news = frame_entities sv to in
      let fuel : ℕ = length olds + length news in
      let bytes = emit_bytes ops laws sv fuel olds news in
      let fits : length bytes ≤ msg.size = omega (
        arith,
        ap length h.left,
        length-append bytes [],
        length-drop msg.read (contents msg),
        length-contents h.valid,
      ) in
      let (d, e, holds, at) =
        loop-Parsed ops laws sv old cl.entity_state (length news) step.fits grid fuel (suc msg.size)
          0 [] (start_of ops old cl msg) [] olds news [] (omega arith)
          (record {
            old_sendable = f.sendable;
            sendable = t.sendable;
            old_sorted = f.sorted;
            sorted = t.sorted;
            passed = tt;
            below = omega arith;
            enough = omega (arith, fits);
            room = omega arith;
            at = start-At ops sv.baselines old cl msg olds step.count step.kept step.baselines;
          })
          h in
      (
        d,
        e,
        holds.left,
        at.window,
        subst (λ (n : ℕ). Run d.cl.entity_states n news) (sym at.first) at.stored,
      )

  -- What Sv_EmitEntities writes of a frame `to` against the frame `from`, Cl_ParseEntities reads to the last byte, without an
  -- error and within its fuel, and the client's new frame is then the states of `to`, exactly and in their order, if the client has
  -- the old frame and the baselines as the server does, and room in its ring; if the numbers of each frame ascend from 1 and
  -- the fields of each entity are in range, with vectors on the grids; and if the buffer has 32 bytes of room for each entity and two more.
  pub entities_delivered :
      (grid : (n : ℕ) → IsOnGrid ops (sv.baselines n)) (buf : MemBuf)
      → IsInStep ops sv from to old cl
      → IsFrame ops (old_entities sv from)
      → IsFrame ops (frame_entities sv to)
      → IsValid buf
      → buf.size + (32 * (length (old_entities sv from) + length (frame_entities sv to)) + 2)
        ≤ buf.max_size
      → (sent : MemBuf) × (emit_entities ops sv from to buf ≡ some sent)
        × (d : Cursor V) × (parse_entities ops old cl (from_mark buf sent) ≡ done d)
        × (remaining d.msg ≡ [])
        × (d.cl.frame.num_entities ≡ length (frame_entities sv to))
        × Run d.cl.entity_states d.cl.frame.entity_state (frame_entities sv to)
  unfolding emit_entities
  entities_delivered grid buf step f t v room =
      let olds = old_entities sv from in
      let news = frame_entities sv to in
      let fuel : ℕ = length olds + length news in
      let bytes = emit_bytes ops laws sv fuel olds news in
      let w = emit-Writes ops laws sv fuel olds news (omega arith) t.sendable in
      let enough : buf.size + length bytes ≤ buf.max_size =
        omega (arith, length-emit_bytes ops laws sv fuel olds news (omega arith), room) in
      let sent = w.result buf in
      let a = w.appends buf v enough in
      let (d, e, nothing, count, run) =
        entities_parsed grid (from_mark buf sent) step f t (from_mark-Holds bytes v a) in
      (sent, w.returns buf v enough, d, e, nothing, count, run)
