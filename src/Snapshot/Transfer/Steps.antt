-- ===== src/Snapshot/Transfer/Steps.antt =====
-- The turns of Cl_ParseEntities of src/client/cl_entity.c, by what Sv_EmitEntities of
-- src/server/sv_entity.c did with an entity.
use quake2world.Prelude.{
  ℕ, ◌+◌, ◌≤◌, ◌<◌, ◌≡◌, sym, ap, ◌∙◌, subst, Bool, true, Option, List, [], ◌∷◌, ◌++◌, append-nil,
  append_assoc, arith, length, length-append,
}
use quake2world.Message.Write.{short_bytes}
use quake2world.Message.Read.Rules.{Holds}
use quake2world.Message.Vector.{Floats}
use quake2world.Message.Vector.Grid.{FloatLaws}
use quake2world.Message.Entity.{EntityState, entity_bits, max_edicts}
use quake2world.Message.Entity.RoundTrips.{
  IsSendable, IsOnGrid, sendable-IsOnGrid, fields_bytes, fields-Reads, sent_bytes, bits-lt,
  not_removal,
}
use quake2world.Snapshot.Emit.{Store, u_remove}
use quake2world.Snapshot.Parse.{
  done, and_then, Window, Cursor, past_end, old_count, copy_unchanged, parse_entity, entities_loop,
}
use quake2world.Snapshot.Transfer.Bytes.{AreSendable, removal_bytes, is_player, is_same}
use quake2world.Snapshot.Transfer.Places.{At, Fits, number_of}
use quake2world.Snapshot.Transfer.Turns.{
  Pairs, firsts, seconds, ArePassed, unsent-IsPassed, removal-At, delta-At, baseline-At,
}
use quake2world.Snapshot.Transfer.Items.{read_end, item, copied}
use quake2world.Snapshot.Transfer.Lists.{
  AreSorted, firsts-append, seconds-append, length-seconds, append-ArePassed, shape,
}

module _ {V : Type 0} (ops : Floats V) (laws : FloatLaws ops) (sv : Store V) (old : Option Window)
    (base total : ℕ) (fits : Fits ops sv.baselines old base total)
    (grid : (n : ℕ) → IsOnGrid ops (sv.baselines n)) where
  -- The loop and what follows it end, with `l` stored, and `rest` left to read.
  abbrev pub Parsed : ℕ → Cursor V → List (EntityState V) → List ℕ → Type 0
  Parsed fuel c l rest =
      (d : Cursor V) × (and_then (entities_loop ops fuel old c)
          (copy_unchanged ops (old_count ops old) old past_end)
        ≡ done d)
      × Holds d.msg rest
      × At ops sv.baselines old base d l []

  then-Parsed :
      (fuel left number bits : ℕ) (c d d' : Cursor V) (l : List (EntityState V)) (rest : List ℕ)
      → entities_loop ops fuel old c
        ≡ and_then (parse_entity ops old number bits d) (entities_loop ops left old)
      → parse_entity ops old number bits d ≡ done d'
      → Parsed left d' l rest
      → Parsed fuel c l rest
  unfolding and_then
  then-Parsed fuel left number bits c d d' l rest p q (x, e, holds, at) = (
    x,
    ap (λ r. and_then r (copy_unchanged ops (old_count ops old) old past_end))
          (p ∙ ap (λ r. and_then r (entities_loop ops left old)) q)
        ∙ e,
    holds,
    at,
  )

  -- What holds before a turn, `us` being the entities passed over so far.
  pub record Turn (fuel k : ℕ) (us : Pairs V) (c : Cursor V) (new olds news : List (EntityState V))
      (bytes : List ℕ) : Type 0 where
    pub old_sendable : AreSendable ops olds
    pub sendable : AreSendable ops news
    pub old_sorted : AreSorted k olds
    pub sorted : AreSorted k news
    pub passed : ArePassed ops k us
    pub below : k < max_edicts
    pub enough : length bytes ≤ fuel
    pub room : length new + length us + length news ≤ total
    pub at : At ops sv.baselines old base c new (firsts us ++ olds)

  pub Turn-room :
      (fuel k : ℕ) (us : Pairs V) (c : Cursor V) (new olds news : List (EntityState V))
      (n : EntityState V) (bytes : List ℕ)
      → Turn fuel k us c new olds (n ∷ news) bytes
      → length (new ++ seconds us) < total
  Turn-room fuel k us c new olds news n bytes t =
      omega (arith, t.room, length-append new (seconds us), length-seconds us)

  pub end-Parsed :
      (fuel k : ℕ) (us : Pairs V) (c : Cursor V) (new : List (EntityState V)) (rest : List ℕ)
      → Turn fuel k us c new [] [] (short_bytes 0)
      → Holds c.msg (short_bytes 0 ++ rest)
      → Parsed fuel c (new ++ (seconds us ++ [])) rest
  unfolding and_then
  end-Parsed fuel k us c new rest t h =
      let (msg, e, left) = read_end ops old fuel c rest (omega (arith, t.enough)) h in
      let a = t.at in
      let (d, q, holds, place) =
        copied ops sv.baselines old base total fits us past_end k (record c { msg = msg }) new []
          rest t.passed (omega (arith, t.below)) (omega arith) (omega (arith, t.room))
          (record {
            index = a.index;
            number = a.number;
            left = a.left;
            stored = a.stored;
            count = a.count;
            window = a.window;
            first = a.first;
            same = a.same;
          })
          left in
      (
        d,
        ap (λ r. and_then r (copy_unchanged ops (old_count ops old) old past_end)) e ∙ q,
        holds,
        subst (λ l. At ops sv.baselines old base d (new ++ l) []) (sym (append-nil (seconds us)))
            place,
      )

  -- The turn of an entity that is gone.
  pub removed-Parsed :
      (fuel k : ℕ) (us : Pairs V) (c : Cursor V) (new olds news : List (EntityState V))
      (o : EntityState V) (more rest : List ℕ)
      → Turn fuel k us c new (o ∷ olds) news (removal_bytes ops laws sv o ++ more)
      → AreSorted o.number news
      → Holds c.msg ((removal_bytes ops laws sv o ++ more) ++ rest)
      → ((left : ℕ) (d : Cursor V)
          → Turn left o.number [] d (new ++ seconds us) olds news more
          → Holds d.msg (more ++ rest)
          → Parsed left d ((new ++ seconds us) ++ news) rest)
      → Parsed fuel c (new ++ (seconds us ++ news)) rest
  removed-Parsed fuel k us c new olds news o more rest t s h next =
      let n = t.old_sendable.0.number in
      let (left, d, e, p, holds, place) =
        item ops sv.baselines old base total fits fuel o.number u_remove k us c new (o ∷ olds)
          (more ++ rest) (omega (arith, t.enough)) n (omega arith) t.passed t.old_sorted.0
          (omega arith) (omega (arith, t.room)) t.at
          (subst (Holds c.msg) (append_assoc (removal_bytes ops laws sv o) more rest) h) in
      let (d', q, msg, place') =
        removal-At ops sv.baselines old base total fits d (new ++ seconds us) olds o o.number
          place in
      let r =
        next left d'
          (record {
            old_sendable = t.old_sendable.1;
            sendable = t.sendable;
            old_sorted = t.old_sorted.1;
            sorted = s;
            passed = tt;
            below = n;
            enough = omega (arith, e, t.enough, length-append {0});
            room = omega (arith, t.room, length-append new (seconds us), length-seconds us);
            at = place';
          })
          (subst (λ m. Holds m (more ++ rest)) (sym msg) holds) in
      then-Parsed fuel left o.number u_remove c d d' (new ++ (seconds us ++ news)) rest p q
        (subst (λ l. Parsed left d' l rest) (append_assoc new (seconds us) news) r)

  -- What is known of a cursor that an entity was taken off, the numbers being `to`'s and the bits `bits`.
  abbrev Taken :
      Cursor V → EntityState V → ℕ → List (EntityState V) → List (EntityState V) → List ℕ → Type 0
  Taken d to bits new olds bytes =
      (d' : Cursor V) × (parse_entity ops old to.number bits d ≡ done d')
      × Holds d'.msg bytes
      × At ops sv.baselines old base d' (new ++ (to ∷ [])) olds

  -- The turn of an entity that is sent.
  pub sent-Parsed :
      (fuel k : ℕ) (us : Pairs V) (c : Cursor V) (new olds olds' news : List (EntityState V))
      (from to : EntityState V) (is_new : Bool) (more rest : List ℕ)
      → Turn fuel k us c new olds (to ∷ news) (sent_bytes ops laws from to is_new ++ more)
      → to.number ≤ number_of olds
      → AreSendable ops olds'
      → AreSorted to.number olds'
      → Holds c.msg ((sent_bytes ops laws from to is_new ++ more) ++ rest)
      → ((d : Cursor V)
          → At ops sv.baselines old base d (new ++ seconds us) olds
          → Holds d.msg (fields_bytes ops (entity_bits ops from to is_new) to ++ (more ++ rest))
          → Taken d to (entity_bits ops from to is_new) (new ++ seconds us) olds' (more ++ rest))
      → ((left : ℕ) (d : Cursor V)
          → Turn left to.number [] d ((new ++ seconds us) ++ (to ∷ [])) olds' news more
          → Holds d.msg (more ++ rest)
          → Parsed left d (((new ++ seconds us) ++ (to ∷ [])) ++ news) rest)
      → Parsed fuel c (new ++ (seconds us ++ (to ∷ news))) rest
  sent-Parsed fuel k us c new olds olds' news from to is_new more rest t le os so h take next =
      let bits = entity_bits ops from to is_new in
      let n = t.sendable.0.number in
      let (left, d, e, p, holds, place) =
        item ops sv.baselines old base total fits fuel to.number bits k us c new olds
          (fields_bytes ops bits to ++ (more ++ rest)) (omega (arith, t.enough, length-append {0}))
          n (omega (arith, bits-lt ops laws from to is_new)) t.passed t.sorted.0 le
          (omega (arith, t.room)) t.at
          (subst (Holds c.msg)
            (shape (short_bytes to.number) (short_bytes bits) (fields_bytes ops bits to) more rest)
            h) in
      let (d', q, holds', place') = take d place holds in
      let r =
        next left d'
          (record {
            old_sendable = os;
            sendable = t.sendable.1;
            old_sorted = so;
            sorted = t.sorted.1;
            passed = tt;
            below = n;
            enough = omega (arith, e, t.enough, length-append (fields_bytes ops bits to) more);
            room = omega (
              arith,
              t.room,
              length-append new (seconds us),
              length-append (new ++ seconds us) (to ∷ []),
              length-seconds us,
            );
            at = place';
          })
          holds' in
      then-Parsed fuel left to.number bits c d d' (new ++ (seconds us ++ (to ∷ news))) rest p q (
        subst (λ l. Parsed left d' l rest)
          (append_assoc (new ++ seconds us) (to ∷ []) news
            ∙ append_assoc new (seconds us) (to ∷ news))
          r)

  pub take_new :
      (d : Cursor V) (new olds : List (EntityState V)) (to : EntityState V) (bytes : List ℕ)
      → IsSendable ops to
      → length new < total
      → to.number < number_of olds
      → At ops sv.baselines old base d new olds
      → Holds d.msg
          (fields_bytes ops (entity_bits ops (sv.baselines to.number) to true) to ++ bytes)
      → Taken d to (entity_bits ops (sv.baselines to.number) to true) new olds bytes
  take_new d new olds to bytes s h n a holds =
      let from = sv.baselines to.number in
      let r = fields-Reads ops laws from to true (grid to.number) s in
      let (d', q, msg, at) =
        baseline-At ops sv.baselines old base total fits d new olds to
          (entity_bits ops from to true) h a (not_removal ops laws from to true) n
          (r.value d.msg bytes holds) in
      (d', q, subst (λ m. Holds m bytes) (sym msg) (r.leaves d.msg bytes holds), at)

  pub take_old :
      (d : Cursor V) (new olds : List (EntityState V)) (from to : EntityState V) (is_new : Bool)
      (bytes : List ℕ)
      → IsSendable ops from
      → IsSendable ops to
      → length new < total
      → to.number ≡ from.number
      → At ops sv.baselines old base d new (from ∷ olds)
      → Holds d.msg (fields_bytes ops (entity_bits ops from to is_new) to ++ bytes)
      → Taken d to (entity_bits ops from to is_new) new olds bytes
  take_old d new olds from to is_new bytes f s h n a holds =
      let r = fields-Reads ops laws from to is_new (sendable-IsOnGrid ops f) s in
      let (d', q, msg, at) =
        delta-At ops sv.baselines old base total fits d new olds from to
          (entity_bits ops from to is_new) h a (not_removal ops laws from to is_new) n
          (r.value d.msg bytes holds) in
      (d', q, subst (λ m. Holds m bytes) (sym msg) (r.leaves d.msg bytes holds), at)

  -- The turn of an entity that is not sent.
  pub passed-Parsed :
      (fuel k : ℕ) (us : Pairs V) (c : Cursor V) (new olds news : List (EntityState V))
      (o n : EntityState V) (more rest : List ℕ)
      → Turn fuel k us c new (o ∷ olds) (n ∷ news) more
      → n.number ≡ o.number
      → is_same ops laws sv o n ≡ true
      → (Turn fuel o.number (us ++ ((o, n) ∷ [])) c new olds news more
          → Parsed fuel c (new ++ (seconds (us ++ ((o, n) ∷ [])) ++ news)) rest)
      → Parsed fuel c (new ++ (seconds us ++ (n ∷ news))) rest
  passed-Parsed fuel k us c new olds news o n more rest t e same next =
      let unsent : entity_bits ops o n (is_player ops laws sv n) ≡ 0 = ground (arith, same) in
      let r = next (record {
        old_sendable = t.old_sendable.1;
        sendable = t.sendable.1;
        old_sorted = t.old_sorted.1;
        sorted = subst (λ (k : ℕ). AreSorted k news) e t.sorted.1;
        passed =
            append-ArePassed ops k o.number us (o, n) t.passed t.old_sorted.0
              (unsent-IsPassed ops laws o n (is_player ops laws sv n)
                (sendable-IsOnGrid ops t.old_sendable.0) t.sendable.0 unsent e)
              (omega arith);
        below = t.old_sendable.0.number;
        enough = t.enough;
        room = omega (arith, t.room, length-append us ((o, n) ∷ []));
        at = subst (At ops sv.baselines old base c new) (sym (firsts-append us (o, n) olds)) t.at;
      }) in
      subst (λ l. Parsed fuel c (new ++ l) rest) (seconds-append us (o, n) news) r
