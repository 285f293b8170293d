-- ===== src/Message/UserCmd.antt =====
-- `user_cmd_t` of src/quake2world.h and its delta compression, Net_WriteDeltaUserCmd and
-- Net_ReadDeltaUserCmd of src/net_message.c.
pub mod RoundTrips
use quake2world.Prelude.{ℕ, Bool, not, List, [], ◌∷◌, ◌==◌, from_bits, test_bit}
use quake2world.Message.Delta.{differ}
use quake2world.Message.Write.{Writer, ◌>>◌, write_if, write_byte, write_short}
use quake2world.Message.Read.{Reader, ◌>>=◌, pure, read_if, read_byte, read_byte8, read_short16}

-- int16_t[3]
pub record Short3 : Type 0 where
  pub x : ℕ
  pub y : ℕ
  pub z : ℕ

pub record UserCmd : Type 0 where
  pub msec : ℕ
  pub buttons : ℕ
  pub angles : Short3
  pub forward : ℕ
  pub right : ℕ
  pub up : ℕ

-- The conditions of CMD_ANGLE1, CMD_ANGLE2, CMD_ANGLE3, CMD_FORWARD, CMD_RIGHT, CMD_UP and
-- CMD_BUTTONS, the bits 0 to 6.
abbrev pub cmd_changes : UserCmd → UserCmd → List Bool
cmd_changes from to =
    differ to.angles.x from.angles.x
    ∷ differ to.angles.y from.angles.y
    ∷ differ to.angles.z from.angles.z
    ∷ differ to.forward from.forward
    ∷ differ to.right from.right
    ∷ differ to.up from.up
    ∷ differ to.buttons from.buttons
    ∷ []

pub write_delta_user_cmd : UserCmd → UserCmd → Writer
write_delta_user_cmd from to =
    let bits = from_bits (cmd_changes from to) in
    do
      write_byte bits
      write_if (test_bit bits 0) (write_short to.angles.x)
      write_if (test_bit bits 1) (write_short to.angles.y)
      write_if (test_bit bits 2) (write_short to.angles.z)
      write_if (test_bit bits 3) (write_short to.forward)
      write_if (test_bit bits 4) (write_short to.right)
      write_if (test_bit bits 5) (write_short to.up)
      write_if (test_bit bits 6) (write_byte to.buttons)
      write_byte to.msec

pub read_delta_user_cmd : UserCmd → Reader UserCmd
read_delta_user_cmd from = do
  bits ← read_byte
  x ← read_if (test_bit bits 0) read_short16 from.angles.x
  y ← read_if (test_bit bits 1) read_short16 from.angles.y
  z ← read_if (test_bit bits 2) read_short16 from.angles.z
  forward ← read_if (test_bit bits 3) read_short16 from.forward
  right ← read_if (test_bit bits 4) read_short16 from.right
  up ← read_if (test_bit bits 5) read_short16 from.up
  buttons ← read_if (test_bit bits 6) read_byte8 from.buttons
  msec ← read_byte8
  pure (record {
    msec = msec;
    buttons = buttons;
    angles = record { x = x; y = y; z = z };
    forward = forward;
    right = right;
    up = up;
  })
