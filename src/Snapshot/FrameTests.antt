-- ===== src/Snapshot/FrameTests.antt =====
-- The theorems about the frames and the entities of a snapshot at concrete states.
use quake2world.Prelude.{
  ℕ, ◌+◌, ◌-◌, ◌%◌, ◌<◌, ◌≤◌, ◌≡◌, ◌≢◌, refl, false, none, some, List, [], ◌∷◌, ltb, ◌==◌, arith,
  length, test_bit,
}
use quake2world.MemBuf.{MemBuf}
use quake2world.Message.Read.{read_short16, read_short, ◌>>=◌, read_if}
use quake2world.Message.Vector.{Floats, Vec3}
use quake2world.Message.Entity.{EntityState, read_delta_entity}
use quake2world.Snapshot.PlayerState.{clean}
use quake2world.Snapshot.Emit.{SvFrame, SvClient, Store, packet_backup, delta_of}
use quake2world.Snapshot.Backup.{choose_delta_lem}
use quake2world.Snapshot.Parse.{
  Outcome, done, dropped, crashed, unfinished, ClEntity, Client, Window, begin_frame, in_ring,
  Cursor, parse_entities, entities_loop, copy_unchanged, parse_entity, advance, take_delta,
  parse_delta_entity, and_then, put,
}
use quake2world.Snapshot.Parse.Ring.{Results, IsStored, parse_entities_lem}
use quake2world.Snapshot.Parse.Fuel.{parse_entities-ends}
use quake2world.Snapshot.Parse.Removal.{removal_crashes}

-- Vectors in eighths and angles in bytes, as their own numbers.
abbrev whole : Floats ℕ
whole = record {
  same = λ a b. a == b;
  pack = λ v. v;
  unpack = λ n. n;
  pack_angle = λ v. v;
  unpack_angle = λ n. n;
  far = λ a b. ltb 2048 (a - b);
}

abbrev origin : Vec3 ℕ
origin = record { x = 0; y = 0; z = 0 }

abbrev entity : ℕ → EntityState ℕ
entity n = record {
  number = n;
  origin = origin;
  old_origin = origin;
  angles = origin;
  animation1 = 0;
  animation2 = 0;
  event = 0;
  effects = 0;
  model1 = 1;
  model2 = 0;
  model3 = 0;
  model4 = 0;
  client = 0;
  sound = 0;
  solid = 0;
}

abbrev frame_at : ℕ → SvFrame
frame_at n = record { area_bits = n ∷ []; ps = clean; num_entities = 2; first_entity = n }

abbrev behind : SvClient
behind = record { frames = frame_at; last_frame = some 40; surpress_count = 0 }

choose_delta_lem_example :
    (behind.last_frame ≡ some 40)
    × (frame_at 8 ≡ behind.frames (40 % packet_backup))
    × ((n : ℕ) → 40 < n → n ≤ 44 → (n % packet_backup) ≢ (40 % packet_backup))
choose_delta_lem_example =
    choose_delta_lem behind 44 40 (frame_at 8) (unfold delta_of in refl) (omega arith)

abbrev server : Store ℕ
server = record {
  entity_states = entity;
  num_entity_states = 64;
  baselines = entity;
  max_clients = 8;
}

abbrev known : ℕ → ClEntity ℕ
known n = record {
  baseline = entity n;
  current = entity n;
  prev = entity n;
  frame_num = 0;
  animation1_time = 0;
  animation2_time = 0;
}

abbrev client : Client ℕ
client = record {
  entity_states = λ i. entity (i + 3);
  entity_state = 2;
  entities = known;
  frame = record { num_entities = 0; entity_state = 0 };
  frame_num = 44;
}

abbrev old_frame : Window
old_frame = record { num_entities = 2; entity_state = 0 }

-- a message of these bytes, from its start
abbrev message : List ℕ → MemBuf
message xs = record {
  allow_overflow = false;
  overflowed = false;
  bytes = xs;
  max_size = length xs;
  size = length xs;
  read = 0;
}

-- A delta that removes entity 3, leaves entity 4 and adds entity 9 from its baseline.
abbrev delta : MemBuf
delta = message (3 ∷ 0 ∷ 0 ∷ 4 ∷ 9 ∷ 0 ∷ 0 ∷ 0 ∷ 0 ∷ 0 ∷ [])

parse_entities_lem_example :
    Results (IsStored client) (parse_entities whole (some old_frame) client delta)
parse_entities_lem_example =
    parse_entities_lem whole old_frame client delta (omega arith) (omega arith) (omega arith)

-- the numbers of the first two states of the new frame, when the parse is done
abbrev numbers : Outcome (Cursor ℕ) → List ℕ
numbers (done c) =
    (c.cl.entity_states 2).number ∷ (c.cl.entity_states 3).number ∷ c.cl.frame.num_entities ∷ []
numbers dropped = []
numbers crashed = []
numbers unfinished = []

removed_and_added : numbers (parse_entities whole (some old_frame) client delta) ≡ 4 ∷ 9 ∷ 2 ∷ []
unfolding parse_entities entities_loop copy_unchanged parse_entity advance take_delta
    parse_delta_entity and_then put read_short16 read_short ◌>>=◌ read_if read_delta_entity test_bit
removed_and_added = refl

abbrev removal : MemBuf
removal = message (3 ∷ 0 ∷ 0 ∷ 4 ∷ 0 ∷ 0 ∷ [])

removal_crashes_example : parse_entities whole none client removal ≡ crashed
removal_crashes_example =
    removal_crashes whole client removal 3 1024 (0 ∷ 0 ∷ []) (omega arith) (omega arith)
      (omega arith) (unfold test_bit in refl)
      (record { valid = omega arith; within = omega arith; left = refl })

parse_entities-ends_example : (parse_entities whole (some old_frame) client delta) ≢ unfinished
parse_entities-ends_example =
    parse_entities-ends whole (some old_frame) client delta (omega arith) (omega arith)

abbrev stored : Client ℕ
stored = (parse_delta_entity whole (begin_frame whole client) (in_ring 1) 4 0 delta).0
