-- ===== src/Snapshot/Transfer/Places.antt =====
-- Where Cl_ParseEntities of src/client/cl_entity.c is: which states it has stored, and which of the
-- old frame are left.
use quake2world.Prelude.{
  ℕ, ◌+◌, ◌^◌, ◌≤◌, ◌<◌, ◌≡◌, refl, sym, ap, ◌∙◌, subst, Option, none, some, List, [], ◌∷◌, ◌++◌,
  arith, length, length-append, if_true, if_false, leb, true, false,
}
use quake2world.MemBuf.{MemBuf}
use quake2world.Message.Vector.{Floats}
use quake2world.Message.Entity.{EntityState, read_delta_entity}
use quake2world.Snapshot.Parse.{
  done, Window, Client, Cursor, From, slot, put, past_end, old_count, begin_frame, first_number,
  old_number_at, take_delta, advance, from_state, store, update_entity, parse_delta_entity,
  entity_state_backup,
}
use quake2world.Snapshot.Parse.Ring.{put-same, put_self, put-baseline}

-- The states of the ring from an index on.
abbrev pub Run : {V : Type 0} → (ℕ → EntityState V) → ℕ → List (EntityState V) → Type 0
Run states start [] = Unit
Run states start (x ∷ l) = (states (slot start) ≡ x) × Run states (start + 1) l

-- A state stored after a run, less than the ring's size from its start, leaves it alone.
Run-put :
    {V : Type 0} (states : ℕ → EntityState V) (start : ℕ) (l : List (EntityState V)) (at : ℕ)
    (to : EntityState V)
    → start + length l ≤ at
    → at < start + entity_state_backup
    → at < 2 ^ 32
    → Run states start l
    → Run (put states (slot at) to) start l
Run-put states start [] at to h k b r = tt
Run-put states start (x ∷ l) at to h k b (e, r) = (
  put-same states (slot at) to (slot start) (λ q. omega (arith, q, h, k, b)) ∙ e,
  Run-put states (start + 1) l at to (omega arith) (omega arith) b r,
)

Run-append :
    {V : Type 0} (states : ℕ → EntityState V) (start : ℕ) (l : List (EntityState V))
    (x : EntityState V)
    → Run states start l
    → states (slot (start + length l)) ≡ x
    → Run states start (l ++ (x ∷ []))
Run-append states start [] x r e = (ap (λ (n : ℕ). states (slot n)) (omega arith) ∙ e, tt)
Run-append states start (y ∷ l) x (p, r) e =
    (p, Run-append states (start + 1) l x r (ap (λ (n : ℕ). states (slot n)) (omega arith) ∙ e))

abbrev pub number_of : {V : Type 0} → List (EntityState V) → ℕ
number_of [] = past_end
number_of (x ∷ l) = x.number

-- The index of the old frame's first state; without an old frame, that of the new one's.
abbrev pub first_old : ℕ → Option Window → ℕ
first_old base none = base
first_old base (some old) = old.entity_state

module _ {V : Type 0} (ops : Floats V) (baselines : ℕ → EntityState V) (old : Option Window)
    (base : ℕ) where
  -- `new` has been stored from `base` on, and `olds` is left of the old frame.
  pub record At (c : Cursor V) (new olds : List (EntityState V)) : Type 0 where
    pub index : c.old_index + length olds ≡ old_count ops old
    pub number : c.old_number ≡ number_of olds
    pub left : Run c.cl.entity_states (first_old base old + c.old_index) olds
    pub stored : Run c.cl.entity_states base new
    pub count : c.cl.entity_state ≡ base + length new
    pub window : c.cl.frame.num_entities ≡ length new
    pub first : c.cl.frame.entity_state ≡ base
    pub same : (n : ℕ) → (c.cl.entities n).baseline ≡ baselines n

  -- The ring has room for the new states beside those of the old frame, and no index wraps.
  pub record Fits (total : ℕ) : Type 0 where
    pub old_before : first_old base old + old_count ops old ≤ base
    pub room : base + total ≤ first_old base old + entity_state_backup
    pub indices : base + total < 2 ^ 32
    pub small : total < 2 ^ 16

  pub take-At :
      (total : ℕ) (from : From) (number bits : ℕ) (c : Cursor V) (new olds : List (EntityState V))
      (to : EntityState V)
      → Fits total
      → length new < total
      → At c new olds
      → (read_delta_entity ops (from_state c.cl from) number bits c.msg).0 ≡ to
      → At (take_delta ops from number bits c) (new ++ (to ∷ [])) olds
  unfolding take_delta parse_delta_entity update_entity
  take-At total from number bits c new olds to f h a e =
      let n = length-append new (to ∷ []) in
      let read = (read_delta_entity ops (from_state c.cl from) number bits c.msg).0 in
      let ent =
        update_entity ops (c.cl.entities number) (from_state (store ops c.cl read) from) read
          c.cl.frame_num in
      record {
        index = a.index;
        number = a.number;
        left =
            Run-put c.cl.entity_states (first_old base old + c.old_index) olds c.cl.entity_state
              read (omega (arith, a.index, a.count, f.old_before))
              (omega (arith, a.count, f.room, h)) (omega (arith, a.count, f.indices, h)) a.left;
        stored =
            Run-append (put c.cl.entity_states (slot c.cl.entity_state) read) base new to
              (Run-put c.cl.entity_states base new c.cl.entity_state read (omega (arith, a.count))
                (omega (arith, a.count, f.room, f.old_before, h))
                (omega (arith, a.count, f.indices, h)) a.stored)
              (ap (put c.cl.entity_states (slot c.cl.entity_state) read) (ap slot (sym a.count))
                ∙ put_self c.cl.entity_states _ read
                ∙ e);
        count = omega (arith, a.count, n, f.indices, h);
        window = omega (arith, a.window, n, f.small, h);
        first = a.first;
        same = λ k. put-baseline c.cl.entities number ent refl k ∙ a.same k;
      }

pub take_msg :
    {V : Type 0} (ops : Floats V) (from : From) (number bits : ℕ) (c : Cursor V)
    → (take_delta ops from number bits c).msg
      ≡ (read_delta_entity ops (from_state c.cl from) number bits c.msg).1
unfolding take_delta parse_delta_entity
take_msg ops from number bits c = refl

number_at :
    {V : Type 0} (ops : Floats V) (cl : Client V) (w : Window) (i : ℕ) (olds : List (EntityState V))
    → i + length olds ≡ w.num_entities
    → Run cl.entity_states (w.entity_state + i) olds
    → old_number_at ops cl w i ≡ number_of olds
number_at ops cl w i [] h r =
    let e : leb w.num_entities i ≡ true = ground (arith, h) in if_true past_end _ e
number_at ops cl w i (x ∷ l) h r =
    let e : leb w.num_entities i ≡ false = ground (arith, h) in
    if_false past_end (cl.entity_states (slot (w.entity_state + i))).number e
    ∙ ap (λ s. s.number) r.0

-- One on in the old frame.
pub advance-At :
    {V : Type 0} (ops : Floats V) (baselines : ℕ → EntityState V) (old : Option Window) (base : ℕ)
    (c : Cursor V) (new olds : List (EntityState V)) (o : EntityState V)
    → At ops baselines old base c new (o ∷ olds)
    → (d : Cursor V) × (advance ops old c ≡ done d)
      × (d.msg ≡ c.msg)
      × At ops baselines old base d new olds
unfolding advance
advance-At ops baselines none base c new olds o a = absurd (omega (arith, a.index))
advance-At ops baselines (some w) base c new olds o a =
    let run : Run c.cl.entity_states (w.entity_state + (c.old_index + 1)) olds =
      subst (λ (n : ℕ). Run c.cl.entity_states n olds) (omega arith) a.left.1 in
    let index : c.old_index + 1 + length olds ≡ w.num_entities = omega (arith, a.index) in
    (
      _,
      refl,
      refl,
      record {
        index = index;
        number = number_at ops c.cl w (c.old_index + 1) olds index run;
        left = run;
        stored = a.stored;
        count = a.count;
        window = a.window;
        first = a.first;
        same = a.same;
      },
    )

-- where the parse begins
abbrev pub start_of : {V : Type 0} → Floats V → Option Window → Client V → MemBuf → Cursor V
start_of ops old cl msg = record {
  cl = begin_frame ops cl;
  msg = msg;
  old_index = 0;
  old_number = first_number ops (begin_frame ops cl) old;
}

-- Before the first entity.
pub start-At :
    {V : Type 0} (ops : Floats V) (baselines : ℕ → EntityState V) (old : Option Window)
    (cl : Client V) (msg : MemBuf) (olds : List (EntityState V))
    → length olds ≡ old_count ops old
    → Run cl.entity_states (first_old cl.entity_state old) olds
    → ((n : ℕ) → (cl.entities n).baseline ≡ baselines n)
    → At ops baselines old cl.entity_state (start_of ops old cl msg) [] olds
start-At ops baselines none cl msg [] h r b = record {
  index = refl;
  number = refl;
  left = tt;
  stored = tt;
  count = omega arith;
  window = refl;
  first = refl;
  same = b;
}
start-At ops baselines none cl msg (x ∷ l) h r b = absurd (omega (arith, h))
start-At ops baselines (some w) cl msg olds h r b =
    let run : Run cl.entity_states (w.entity_state + 0) olds =
      subst (λ (n : ℕ). Run cl.entity_states n olds) (omega arith) r in
    record {
      index = omega (arith, h);
      number = number_at ops (begin_frame ops cl) w 0 olds (omega (arith, h)) run;
      left = run;
      stored = tt;
      count = omega arith;
      window = refl;
      first = refl;
      same = b;
    }
