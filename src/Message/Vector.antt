-- ===== src/Message/Vector.antt =====
-- vec_t, the float of src/quake2world.h, and how src/net_message.c sends vectors and angles. The
-- arithmetic of floats is a parameter: what the code does with a vec_t is an operation of `Floats`.
pub mod Grid
use quake2world.Prelude.{ℕ, ◌%◌, Bool, ◌&&◌}
use quake2world.Message.Write.{Writer, ◌>>◌, write_byte, write_short}
use quake2world.Message.Read.{Reader, ◌>>=◌, pure, read_char, read_short}

pub record Floats (V : Type 0) : Type 0 where
  -- a == b
  pub same : V → V → Bool
  -- (int32_t) (v * 8.0), and n * (1.0 / 8.0)
  pub pack : V → ℕ
  pub unpack : ℕ → V
  -- (int32_t) (v * 255.0 / 360.0), and n * (360.0 / 255.0)
  pub pack_angle : V → ℕ
  pub unpack_angle : ℕ → V
  -- fabs(a - b) > 256.0
  pub far : V → V → Bool

-- vec3_t
pub record Vec3 (V : Type 0) : Type 0 where
  pub x : V
  pub y : V
  pub z : V

module _ {V : Type 0} (ops : Floats V) where
  abbrev pub vector_compare : Vec3 V → Vec3 V → Bool
  vector_compare a b = ops.same a.x b.x && (ops.same a.y b.y && ops.same a.z b.z)

  unfoldable pub write_vector : V → Writer
  write_vector v = write_short (ops.pack v)

  unfoldable pub write_position : Vec3 V → Writer
  write_position p = do write_vector p.x; write_vector p.y; write_vector p.z

  unfoldable pub write_angle : V → Writer
  write_angle v = write_byte (ops.pack_angle v % 256)

  unfoldable pub write_angles : Vec3 V → Writer
  write_angles a = do write_angle a.x; write_angle a.y; write_angle a.z

  unfoldable pub read_vector : Reader V
  read_vector = do c ← read_short; pure (ops.unpack c)

  unfoldable pub read_position : Reader (Vec3 V)
  read_position = do
    x ← read_vector
    y ← read_vector
    z ← read_vector
    pure (record { x = x; y = y; z = z })

  unfoldable pub read_angle : Reader V
  read_angle = do c ← read_char; pure (ops.unpack_angle c)

  unfoldable pub read_angles : Reader (Vec3 V)
  read_angles = do
    x ← read_angle
    y ← read_angle
    z ← read_angle
    pure (record { x = x; y = y; z = z })
