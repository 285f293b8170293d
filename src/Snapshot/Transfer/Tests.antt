-- ===== src/Snapshot/Transfer/Tests.antt =====
-- A frame of three entities against another, from the server to the client.
use quake2world.Prelude.{
  ℕ, ◌-◌, ◌≡◌, refl, true, false, if◌then◌else◌, ◌^◌, some, List, [], ◌∷◌, arith, get_or, replicate,
  ltb, ◌==◌,
}
use quake2world.MemBuf.{MemBuf, init_buffer, remaining}
use quake2world.Message.RoundTrip.{from_mark}
use quake2world.Message.Vector.{Floats, Vec3}
use quake2world.Message.Vector.Grid.{FloatLaws}
use quake2world.Message.Entity.{EntityState}
use quake2world.Message.Entity.RoundTrips.{IsOnGrid}
use quake2world.Snapshot.PlayerState.{clean}
use quake2world.Snapshot.Emit.{
  SvFrame, SvClient, Store, delta_of, write_frame, entities_from, old_entities, frame_entities,
}
use quake2world.Snapshot.Parse.{done, ClEntity, Client, Window}
use quake2world.Message.Read.{read_byte}
use quake2world.Snapshot.Frame.{ClFrame, ClState, parse_frame}
use quake2world.Snapshot.Frame.Delivery.{CanSend, HasFrame, frame_delivered}
use quake2world.Snapshot.Transfer.RoundTrips.{IsInStep, IsFrame}

-- Vectors in eighths and angles in bytes, as their own numbers.
abbrev eighths : Floats ℕ
eighths = record {
  same = λ a b. a == b;
  pack = λ v. v;
  unpack = λ n. n;
  pack_angle = λ v. v;
  unpack_angle = λ n. n;
  far = λ a b. ltb 2048 (a - b);
}

eighths_laws : FloatLaws eighths
eighths_laws = record {
  same_grid = λ a b g h e. ground arith;
  same_angle = λ a b g h e. ground arith;
}

abbrev at : ℕ → Vec3 ℕ
at n = record { x = n; y = n; z = n }

abbrev entity : ℕ → ℕ → EntityState ℕ
entity number place = record {
  number = number;
  origin = at place;
  old_origin = at 0;
  angles = at 0;
  animation1 = 0;
  animation2 = 0;
  event = 0;
  effects = 0;
  model1 = 1;
  model2 = 0;
  model3 = 0;
  model4 = 0;
  client = 0;
  sound = 0;
  solid = 0;
}

-- Entity 3 moves, entity 5 stays, entity 7 goes and entity 9 comes.
abbrev states : List (EntityState ℕ)
states = entity 3 0 ∷ entity 5 0 ∷ entity 7 0 ∷ entity 3 80 ∷ entity 5 0 ∷ entity 9 16 ∷ []

abbrev server : Store ℕ
server = record {
  entity_states = λ i. get_or states i (entity 1 0);
  num_entity_states = 64;
  baselines = λ n. entity n 0;
  max_clients = 4;
}

abbrev frame_at : ℕ → SvFrame
frame_at n = record { area_bits = []; ps = clean; num_entities = 3; first_entity = n }

abbrev known : ℕ → ClEntity ℕ
known n = record {
  baseline = entity n 0;
  current = entity n 0;
  prev = entity n 0;
  frame_num = 0;
  animation1_time = 0;
  animation2_time = 0;
}

abbrev client : Client ℕ
client = record {
  entity_states = λ i. get_or states i (entity 1 0);
  entity_state = 3;
  entities = known;
  frame = record { num_entities = 3; entity_state = 0 };
  frame_num = 44;
}

abbrev old_frame : Window
old_frame = record { num_entities = 3; entity_state = 0 }

baseline-IsOnGrid : (n : ℕ) → IsOnGrid eighths (server.baselines n)
baseline-IsOnGrid n = ground arith

in_step : IsInStep eighths server (some (frame_at 0)) (frame_at 3) (some old_frame) client
unfolding entities_from
in_step = record {
  count = refl;
  kept = (refl, (refl, (refl, tt)));
  baselines = λ n. refl;
  fits = omega arith;
}

old-IsFrame : IsFrame eighths (old_entities server (some (frame_at 0)))
unfolding entities_from
old-IsFrame = ground arith

new-IsFrame : IsFrame eighths (frame_entities server (frame_at 3))
unfolding entities_from
new-IsFrame = ground arith

-- Frame 1 is known, and frame 2 is sent.
abbrev sv_client : SvClient
sv_client = record {
  frames = λ i. if i == 1 then frame_at 0 else frame_at 3;
  last_frame = some 1;
  surpress_count = 0;
}

abbrev known_frame : ClFrame
known_frame = record {
  frame_num = 1;
  delta_frame_num = 2 ^ 32 - 1;
  area_bits = [];
  ps = clean;
  window = old_frame;
  valid = true;
}

abbrev cl_state : ClState ℕ
cl_state = record { cl = client; area_bits = []; frames = λ i. known_frame; surpress_count = 0 }

abbrev big_buffer : MemBuf
big_buffer = init_buffer (replicate 400 0) 400

can_send : CanSend eighths eighths_laws server sv_client 2 cl_state
unfolding entities_from delta_of
can_send = record {
  number = omega arith;
  is_known = (omega arith, omega arith, refl, refl, refl, omega arith);
  in_step = in_step;
  grid = baseline-IsOnGrid;
  old_frame_ok = old-IsFrame;
  frame_ok = new-IsFrame;
  player = ground arith;
  stats = refl;
  area = tt;
  area_fits = omega arith;
}

frame_delivered_example :
    (sent : MemBuf) × (write_frame eighths server sv_client 2 big_buffer
      ≡ some (record sv_client { surpress_count = 0 }, sent))
    × (st' : ClState ℕ) × (m : MemBuf) × (parse_frame eighths false cl_state
          (read_byte (from_mark big_buffer sent)).1
        ≡ done (st', m))
    × (remaining m ≡ [])
    × HasFrame eighths eighths_laws server sv_client 2 cl_state st'
unfolding entities_from delta_of
frame_delivered_example =
    frame_delivered eighths eighths_laws server sv_client 2 cl_state big_buffer can_send
      (omega arith) (omega arith)
