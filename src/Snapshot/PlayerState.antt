-- ===== src/Snapshot/PlayerState.antt =====
-- `player_state_t` and `pm_state_t` of src/quake2world.h, Sv_WritePlayerstate of
-- src/server/sv_entity.c and Cl_ParsePlayerstate of src/client/cl_entity.c.
pub mod Stats
pub mod RoundTrips
use quake2world.Prelude.{
  ℕ, zero, suc, ◌+◌, Bool, ◌||◌, Option, none, some, List, [], ◌∷◌, if◌then◌else◌, from_bits,
  test_bit, replicate,
}
use quake2world.Message.Delta.{differ}
use quake2world.Message.UserCmd.{Short3}
use quake2world.Message.Write.{Writer, ◌>>◌, skip, write_if, write_byte, write_short, write_long}
use quake2world.Message.Read.{
  Reader, ◌>>=◌, pure, read_if, read_byte, read_short, read_short16, read_long,
}

-- `type` is the number of a `pm_type_t`.
pub record PmState : Type 0 where
  pub pm_type : ℕ
  pub origin : Short3
  pub velocity : Short3
  pub flags : ℕ
  pub time : ℕ
  pub gravity : ℕ
  pub view_offset : Short3
  pub view_angles : Short3
  pub kick_angles : Short3
  pub delta_angles : Short3

-- `stats` holds MAX_STATS numbers of type int16_t.
pub record PlayerState : Type 0 where
  pub pm_state : PmState
  pub stats : List ℕ

abbrev pub max_stats : ℕ
max_stats = 32

-- PM_FREEZE
abbrev pub pm_freeze : ℕ
pm_freeze = 3

abbrev zero3 : Short3
zero3 = record { x = 0; y = 0; z = 0 }

-- the state of zeros, which a frame that is not a delta starts from
abbrev pub clean : PlayerState
clean = record {
  pm_state = record {
    pm_type = 0;
    origin = zero3;
    velocity = zero3;
    flags = 0;
    time = 0;
    gravity = 0;
    view_offset = zero3;
    view_angles = zero3;
    kick_angles = zero3;
    delta_angles = zero3;
  };
  stats = replicate max_stats 0;
}

abbrev pub base : Option PlayerState → PlayerState
base none = clean
base (some ps) = ps

abbrev pub differ3 : Short3 → Short3 → Bool
differ3 a b = differ a.x b.x || differ a.y b.y || differ a.z b.z

-- The conditions of PS_PM_TYPE to PS_PM_DELTA_ANGLES, the bits 0 to 9.
abbrev pub pm_changes : PmState → PmState → List Bool
pm_changes pm old =
    differ pm.pm_type old.pm_type
    ∷ differ3 pm.origin old.origin
    ∷ differ3 pm.velocity old.velocity
    ∷ differ pm.flags old.flags
    ∷ differ pm.time old.time
    ∷ differ pm.gravity old.gravity
    ∷ differ3 pm.view_offset old.view_offset
    ∷ differ3 pm.view_angles old.view_angles
    ∷ differ3 pm.kick_angles old.kick_angles
    ∷ differ3 pm.delta_angles old.delta_angles
    ∷ []

pub write_short3 : Short3 → Writer
write_short3 v = do write_short v.x; write_short v.y; write_short v.z

pub read_short3 : Reader Short3
read_short3 = do
  x ← read_short16
  y ← read_short16
  z ← read_short16
  pure (record { x = x; y = y; z = z })

pub write_pm_state : PmState → PmState → Writer
write_pm_state pm old =
    let bits = from_bits (pm_changes pm old) in
    do
      write_short bits
      write_if (test_bit bits 0) (write_byte pm.pm_type)
      write_if (test_bit bits 1) (write_short3 pm.origin)
      write_if (test_bit bits 2) (write_short3 pm.velocity)
      write_if (test_bit bits 3) (write_short pm.flags)
      write_if (test_bit bits 4) (write_short pm.time)
      write_if (test_bit bits 5) (write_short pm.gravity)
      write_if (test_bit bits 6) (write_short3 pm.view_offset)
      write_if (test_bit bits 7) (write_short3 pm.view_angles)
      write_if (test_bit bits 8) (write_short3 pm.kick_angles)
      write_if (test_bit bits 9) (write_short3 pm.delta_angles)

-- A demo freezes the player, whatever was sent. `pm_state_bits` has 16 bits.
abbrev pub shown_type : Bool → ℕ → ℕ
shown_type demo_server t = if demo_server then pm_freeze else t

pub read_pm_state : Bool → PmState → Reader PmState
read_pm_state demo_server old = do
  bits ← read_short16
  t ← read_if (test_bit bits 0) read_byte old.pm_type
  origin ← read_if (test_bit bits 1) read_short3 old.origin
  velocity ← read_if (test_bit bits 2) read_short3 old.velocity
  flags ← read_if (test_bit bits 3) read_short16 old.flags
  time ← read_if (test_bit bits 4) read_short16 old.time
  gravity ← read_if (test_bit bits 5) read_short16 old.gravity
  view_offset ← read_if (test_bit bits 6) read_short3 old.view_offset
  view_angles ← read_if (test_bit bits 7) read_short3 old.view_angles
  kick_angles ← read_if (test_bit bits 8) read_short3 old.kick_angles
  delta_angles ← read_if (test_bit bits 9) read_short3 old.delta_angles
  pure (record {
    pm_type = shown_type demo_server t;
    origin = origin;
    velocity = velocity;
    flags = flags;
    time = time;
    gravity = gravity;
    view_offset = view_offset;
    view_angles = view_angles;
    kick_angles = kick_angles;
    delta_angles = delta_angles;
  })

-- `ps->stats[i] != ops->stats[i]` for each i
abbrev pub stat_changes : List ℕ → List ℕ → List Bool
stat_changes [] old = []
stat_changes (s ∷ stats) [] = []
stat_changes (s ∷ stats) (o ∷ old) = differ s o ∷ stat_changes stats old

-- The loops over the stats, from stat `i` on.
pub write_stats : ℕ → ℕ → List ℕ → Writer
write_stats bits i [] = skip
write_stats bits i (s ∷ stats) = do
  write_if (test_bit bits i) (write_short s)
  write_stats bits (i + 1) stats

pub read_stats : ℕ → ℕ → List ℕ → Reader (List ℕ)
read_stats bits i [] = pure []
read_stats bits i (o ∷ old) = do
  s ← read_if (test_bit bits i) read_short16 o
  stats ← read_stats bits (i + 1) old
  pure (s ∷ stats)

unfoldable pub write_player_state : Option PlayerState → PlayerState → Writer
write_player_state from ps =
    let ops = base from in
    let stat_bits = from_bits (stat_changes ps.stats ops.stats) in
    do
      write_pm_state ps.pm_state ops.pm_state
      write_long stat_bits
      write_stats stat_bits 0 ps.stats

unfoldable pub read_player_state : Bool → Option PlayerState → Reader PlayerState
read_player_state demo_server from =
    let ops = base from in
    do
      pm_state ← read_pm_state demo_server ops.pm_state
      stat_bits ← read_long
      stats ← read_stats stat_bits 0 ops.stats
      pure (record { pm_state = pm_state; stats = stats })
