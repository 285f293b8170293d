-- ===== src/Message/Entity.antt =====
-- `entity_state_t` of src/quake2world.h and its delta compression, Net_WriteDeltaEntity and
-- Net_ReadDeltaEntity of src/net_message.c.

pub mod RoundTrips
use quake2world.Prelude.{
  ℕ, ◌≤◌, Bool, not, ◌&&◌, ◌||◌, none, List, [], ◌∷◌, ◌==◌, leb, if◌then◌else◌, from_bits, test_bit,
}
use quake2world.Message.Delta.{differ}
use quake2world.Message.Vector.{
  Floats, Vec3, vector_compare, write_position, write_angles, read_position, read_angles,
}
use quake2world.Message.Write.{Writer, ◌>>◌, skip, write_if, write_byte, write_short}
use quake2world.Message.Read.{Reader, ◌>>=◌, pure, read_if, read_byte8, read_short16}

pub record EntityState (V : Type 0) : Type 0 where
  pub number : ℕ
  pub origin : Vec3 V
  pub old_origin : Vec3 V
  pub angles : Vec3 V
  pub animation1 : ℕ
  pub animation2 : ℕ
  pub event : ℕ
  pub effects : ℕ
  pub model1 : ℕ
  pub model2 : ℕ
  pub model3 : ℕ
  pub model4 : ℕ
  pub client : ℕ
  pub sound : ℕ
  pub solid : ℕ

abbrev pub max_edicts : ℕ
max_edicts = 1024

abbrev pub models_differ : {V : Type 0} → EntityState V → EntityState V → Bool
models_differ a b =
    differ a.model1 b.model1
    || differ a.model2 b.model2
    || differ a.model3 b.model3
    || differ a.model4 b.model4

-- the bytes that go under one bit
abbrev pub Pair : Type 0
Pair = ℕ × ℕ

abbrev pub Four : Type 0
Four = ℕ × ℕ × ℕ × ℕ

pub write_pair : Pair → Writer
write_pair (a, b) = do write_byte a; write_byte b

pub write_four : Four → Writer
write_four (a, b, c, d) = do write_byte a; write_byte b; write_byte c; write_byte d

unfoldable pub read_pair : Reader Pair
read_pair = do a ← read_byte8; b ← read_byte8; pure (a, b)

unfoldable pub read_four : Reader Four
read_four = do a ← read_byte8; b ← read_byte8; c ← read_byte8; d ← read_byte8; pure (a, b, c, d)

abbrev pub animations : {V : Type 0} → EntityState V → Pair
animations s = (s.animation1, s.animation2)

abbrev pub models : {V : Type 0} → EntityState V → Four
models s = (s.model1, s.model2, s.model3, s.model4)

module _ {V : Type 0} (ops : Floats V) where
  -- The conditions of U_ORIGIN to U_SOLID, the bits 0 to 9. An event is sent if there is one.
  abbrev pub entity_changes : EntityState V → EntityState V → Bool → List Bool
  entity_changes from to is_new =
      not (vector_compare ops to.origin from.origin)
      ∷ (is_new || not (vector_compare ops from.old_origin to.old_origin))
      ∷ not (vector_compare ops to.angles from.angles)
      ∷ (differ to.animation1 from.animation1 || differ to.animation2 from.animation2)
      ∷ not (to.event == 0)
      ∷ differ to.effects from.effects
      ∷ models_differ to from
      ∷ differ to.client from.client
      ∷ differ to.sound from.sound
      ∷ differ to.solid from.solid
      ∷ []

  abbrev pub entity_bits : EntityState V → EntityState V → Bool → ℕ
  entity_bits from to is_new = from_bits (entity_changes from to is_new)

  pub write_entity_fields : ℕ → EntityState V → Writer
  write_entity_fields bits to = do
    write_if (test_bit bits 0) (write_position ops to.origin)
    write_if (test_bit bits 1) (write_position ops to.old_origin)
    write_if (test_bit bits 2) (write_angles ops to.angles)
    write_if (test_bit bits 3) (write_pair (animations to))
    write_if (test_bit bits 4) (write_byte to.event)
    write_if (test_bit bits 5) (write_short to.effects)
    write_if (test_bit bits 6) (write_four (models to))
    write_if (test_bit bits 7) (write_byte to.client)
    write_if (test_bit bits 8) (write_byte to.sound)
    write_if (test_bit bits 9) (write_short to.solid)

  abbrev pub fatal : Writer
  fatal buf = none

  -- Com_Error(ERR_FATAL) ends the write, as an abort does.
  unfoldable pub write_delta_entity : EntityState V → EntityState V → Bool → Bool → Writer
  write_delta_entity from to force is_new =
      let bits = entity_bits from to is_new in
      if leb to.number 0
      then fatal
      else if leb max_edicts to.number
      then fatal
      else if bits == 0 && not force
      then skip
      else do write_short to.number; write_short bits; write_entity_fields bits to

  unfoldable pub read_delta_entity : EntityState V → ℕ → ℕ → Reader (EntityState V)
  read_delta_entity from number bits = do
    origin ← read_if (test_bit bits 0) (read_position ops) from.origin
    old_origin ← read_if (test_bit bits 1) (read_position ops) from.old_origin
    angles ← read_if (test_bit bits 2) (read_angles ops) from.angles
    animation ← read_if (test_bit bits 3) read_pair (animations from)
    event ← read_if (test_bit bits 4) read_byte8 0
    effects ← read_if (test_bit bits 5) read_short16 from.effects
    model ← read_if (test_bit bits 6) read_four (models from)
    client ← read_if (test_bit bits 7) read_byte8 from.client
    sound ← read_if (test_bit bits 8) read_byte8 from.sound
    solid ← read_if (test_bit bits 9) read_short16 from.solid
    pure (record {
      number = number;
      origin = origin;
      old_origin = old_origin;
      angles = angles;
      animation1 = animation.0;
      animation2 = animation.1;
      event = event;
      effects = effects;
      model1 = model.0;
      model2 = model.1;
      model3 = model.2;
      model4 = model.3;
      client = client;
      sound = sound;
      solid = solid;
    })

  -- the number and the bits, which Cl_ParseEntities reads before the fields
  unfoldable pub read_numbered_entity : EntityState V → Reader (EntityState V)
  read_numbered_entity from = do
    number ← read_short16
    bits ← read_short16
    read_delta_entity from number bits
