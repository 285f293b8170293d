-- ===== src/Snapshot/Transfer/Items.antt =====
-- A turn of the loop of Cl_ParseEntities of src/client/cl_entity.c on bytes that Sv_EmitEntities of
-- src/server/sv_entity.c wrote.
use quake2world.Prelude.{
  ℕ, zero, suc, ◌+◌, ◌^◌, ◌≤◌, ◌<◌, ◌≡◌, refl, sym, ap, ◌∙◌, subst, true, false, Option, List, [],
  ◌∷◌, ◌++◌, arith, length, length-append, ltb, leb, ◌==◌, if_true, if_false,
}
use quake2world.MemBuf.{MemBuf}
use quake2world.Message.Write.{short_bytes}
use quake2world.Message.Read.{read_short16}
use quake2world.Message.Read.Rules.{Holds, Reads-read_short16}
use quake2world.Message.Vector.{Floats}
use quake2world.Message.Entity.{EntityState, max_edicts}
use quake2world.Snapshot.Parse.{
  Outcome, done, dropped, and_then, Window, Cursor, old_count, copy_unchanged, parse_entity,
  entities_loop,
}
use quake2world.Snapshot.Transfer.Places.{At, Fits, number_of}
use quake2world.Snapshot.Transfer.Turns.{Pairs, firsts, seconds, ArePassed, copy-At}

module _ {V : Type 0} (ops : Floats V) (old : Option Window) where
  -- the rest of a turn, from the number and the bits on
  abbrev rest_of_turn : ℕ → ℕ → ℕ → Cursor V → Outcome (Cursor V)
  rest_of_turn fuel number bits c =
      and_then (copy_unchanged ops (old_count ops old) old number c)
        λ d. and_then (parse_entity ops old number bits d) (entities_loop ops fuel old)

  take_item :
      (fuel number bits : ℕ) (c : Cursor V) (more : List ℕ)
      → 0 < fuel
      → 0 < number
      → number < max_edicts
      → bits < 2 ^ 16
      → Holds c.msg (short_bytes number ++ (short_bytes bits ++ more))
      → (left : ℕ) × (msg : MemBuf) × (fuel ≡ suc left)
        × (entities_loop ops fuel old c ≡ rest_of_turn left number bits (record c { msg = msg }))
        × Holds msg more
  unfolding entities_loop
  take_item zero number bits c more f pos h k at = absurd (omega arith)
  take_item (suc left) number bits c more f pos h k at =
      let m = Reads-read_short16 number (omega (arith, h)) in
      let v = m.value c.msg (short_bytes bits ++ more) at in
      let l = m.leaves c.msg (short_bytes bits ++ more) at in
      let w = Reads-read_short16 bits k in
      let n : ℕ = (read_short16 c.msg).0 in
      let msg : MemBuf = (read_short16 c.msg).1 in
      let small : leb max_edicts n ≡ false = ground (arith, v) in
      let inside : ltb msg.size msg.read ≡ false = ground (arith, l.within) in
      let some_entity : (n == 0) ≡ false = ground (arith, v) in
      let d : Cursor V = record c { msg = (read_short16 msg).1 } in
      (
        left,
        (read_short16 msg).1,
        refl,
        if_false dropped _ small
            ∙ if_false dropped _ inside
            ∙ if_false (done (record c { msg = msg })) _ some_entity
            ∙ ap (λ (k : ℕ). rest_of_turn left k (read_short16 msg).0 d) v
            ∙ ap (λ (b : ℕ). rest_of_turn left number b d) (w.value msg more l),
        w.leaves msg more l,
      )

  pub read_end :
      (fuel : ℕ) (c : Cursor V) (more : List ℕ)
      → 0 < fuel
      → Holds c.msg (short_bytes 0 ++ more)
      → (msg : MemBuf) × (entities_loop ops fuel old c ≡ done (record c { msg = msg }))
        × Holds msg more
  unfolding entities_loop
  read_end zero c more f at = absurd (omega arith)
  read_end (suc left) c more f at =
      let m = Reads-read_short16 0 (omega arith) in
      let v = m.value c.msg more at in
      let l = m.leaves c.msg more at in
      let n : ℕ = (read_short16 c.msg).0 in
      let msg : MemBuf = (read_short16 c.msg).1 in
      let small : leb max_edicts n ≡ false = ground (arith, v) in
      let inside : ltb msg.size msg.read ≡ false = ground (arith, l.within) in
      let ended : (n == 0) ≡ true = ground (arith, v) in
      (
        msg,
        if_false dropped _ small
            ∙ if_false dropped _ inside
            ∙ if_true (done (record c { msg = msg })) _ ended,
        l,
      )

length-firsts : {V : Type 0} (us : Pairs V) → length (firsts us) ≡ length us
length-firsts [] = refl
length-firsts ((u, w) ∷ us) = ap suc (length-firsts us)

module _ {V : Type 0} (ops : Floats V) (baselines : ℕ → EntityState V) (old : Option Window)
    (base total : ℕ) (fits : Fits ops baselines old base total) where
  abbrev pub AtPlace : Cursor V → List (EntityState V) → List (EntityState V) → Type 0
  AtPlace = At ops baselines old base

  At-msg :
      {c : Cursor V} {new olds : List (EntityState V)} (msg : MemBuf)
      → AtPlace c new olds
      → AtPlace (record c { msg = msg }) new olds
  At-msg msg a = record {
    index = a.index;
    number = a.number;
    left = a.left;
    stored = a.stored;
    count = a.count;
    window = a.window;
    first = a.first;
    same = a.same;
  }

  pub copied :
      (us : Pairs V) (limit k : ℕ) (c : Cursor V) (new olds : List (EntityState V)) (more : List ℕ)
      → ArePassed ops k us
      → k < limit
      → limit ≤ number_of olds
      → length new + length us ≤ total
      → AtPlace c new (firsts us ++ olds)
      → Holds c.msg more
      → (d : Cursor V) × (copy_unchanged ops (old_count ops old) old limit c ≡ done d)
        × Holds d.msg more
        × AtPlace d (new ++ seconds us) olds
  copied us limit k c new olds more p h l t a holds =
      let (d, e, msg, at) =
        copy-At ops baselines old base total fits us (old_count ops old) limit k c new olds p h l
          (omega (arith, a.index, length-append (firsts us) olds, length-firsts us)) t a in
      (d, e, subst (λ m. Holds m more) (sym msg) holds, at)

  -- An entity of the message is next, and the old ones below it are copied.
  pub item :
      (fuel number bits k : ℕ) (us : Pairs V) (c : Cursor V) (new olds : List (EntityState V))
      (more : List ℕ)
      → 0 < fuel
      → number < max_edicts
      → bits < 2 ^ 16
      → ArePassed ops k us
      → k < number
      → number ≤ number_of olds
      → length new + length us ≤ total
      → AtPlace c new (firsts us ++ olds)
      → Holds c.msg (short_bytes number ++ (short_bytes bits ++ more))
      → (left : ℕ) × (d : Cursor V) × (fuel ≡ suc left)
        × (entities_loop ops fuel old c
            ≡ and_then (parse_entity ops old number bits d) (entities_loop ops left old))
        × Holds d.msg more
        × AtPlace d (new ++ seconds us) olds
  unfolding and_then
  item fuel number bits k us c new olds more f h b p pos l t a at =
      let (left, msg, e, q, holds) =
        take_item ops old fuel number bits c more f (omega (arith, pos)) h b at in
      let (d, r, holds', place) =
        copied us number k (record c { msg = msg }) new olds more p pos l t (At-msg msg a) holds in
      (
        left,
        d,
        e,
        q
            ∙ ap
                (λ r.
                  and_then r (λ d.
                    and_then (parse_entity ops old number bits d) (entities_loop ops left old)))
                r,
        holds',
        place,
      )
