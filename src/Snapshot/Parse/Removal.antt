-- ===== src/Snapshot/Parse/Removal.antt =====
-- A removal in a snapshot that is not a delta, which Sv_EmitEntities of src/server/sv_entity.c
-- never sends and Cl_ParseEntities of src/client/cl_entity.c does not refuse.
use quake2world.Prelude.{
  ℕ, suc, ◌^◌, ◌≤◌, ◌<◌, ◌≡◌, refl, ap, ◌∙◌, true, false, none, List, ◌++◌, leb, ltb, ◌==◌,
  test_bit, arith, if_false,
}
use quake2world.MemBuf.{MemBuf}
use quake2world.Message.Write.{short_bytes}
use quake2world.Message.Read.{read_short16}
use quake2world.Message.Read.Rules.{Holds, Reads-read_short16}
use quake2world.Message.Vector.{Floats}
use quake2world.Message.Entity.{max_edicts}
use quake2world.Snapshot.Parse.{
  done, dropped, crashed, and_then, Client, Cursor, past_end, copy_unchanged, parse_entity, advance,
  entities_loop, begin_frame, parse_entities,
}

module _ {V : Type 0} (ops : Floats V) where
  removed :
      (fuel number bits : ℕ) (c : Cursor V)
      → number ≤ past_end
      → c.old_number ≡ past_end
      → test_bit bits 10 ≡ true
      → and_then
          (copy_unchanged ops 0 none number c)
          (λ d. and_then (parse_entity ops none number bits d) (entities_loop ops fuel none))
        ≡ crashed
  unfolding copy_unchanged parse_entity advance and_then
  removed fuel number bits c h e b =
      let p : ltb c.old_number number ≡ false = ground (arith, e) in rw p (rw b refl)

  module _ (number bits : ℕ) (rest : List ℕ) (h : number < max_edicts) (k : bits < 2 ^ 16) where
    loop_crashes :
        (fuel : ℕ) (c : Cursor V)
        → 0 < number
        → test_bit bits 10 ≡ true
        → c.old_number ≡ past_end
        → Holds c.msg (short_bytes number ++ (short_bytes bits ++ rest))
        → entities_loop ops (suc fuel) none c ≡ crashed
    unfolding entities_loop
    loop_crashes fuel c pos b e at =
        let m = Reads-read_short16 number (omega (arith, h)) in
        let v = m.value c.msg (short_bytes bits ++ rest) at in
        let l = m.leaves c.msg (short_bytes bits ++ rest) at in
        let w = (Reads-read_short16 bits k).value (read_short16 c.msg).1 rest l in
        let n : ℕ = (read_short16 c.msg).0 in
        let msg : MemBuf = (read_short16 c.msg).1 in
        let small : leb max_edicts n ≡ false = ground (arith, v) in
        let inside : ltb msg.size msg.read ≡ false = ground (arith, l.within) in
        let some_entity : (n == 0) ≡ false = ground (arith, v) in
        let bits' : ℕ = (read_short16 msg).0 in
        let d : Cursor V = record c { msg = (read_short16 msg).1 } in
        if_false dropped _ small
        ∙ if_false dropped _ inside
        ∙ if_false (done (record c { msg = msg })) _ some_entity
        ∙ removed fuel n bits' d (omega (arith, v)) e (ap (λ t. test_bit t 10) w ∙ b)

  -- A frame that is not a delta and starts with a removal, of any entity, makes Cl_ParseEntities use the null
  -- pointer that stands for the old frame.
  pub removal_crashes :
      (cl : Client V) (msg : MemBuf) (number bits : ℕ) (rest : List ℕ)
      → 0 < number
      → number < max_edicts
      → bits < 2 ^ 16
      → test_bit bits 10 ≡ true
      → Holds msg (short_bytes number ++ (short_bytes bits ++ rest))
      → parse_entities ops none cl msg ≡ crashed
  unfolding parse_entities and_then
  removal_crashes cl msg number bits rest pos h k b at =
      ap (λ r. and_then r (copy_unchanged ops 0 none past_end))
        (loop_crashes number bits rest h k msg.size
          (record { cl = begin_frame ops cl; msg = msg; old_index = 0; old_number = past_end }) pos
          b refl at)
