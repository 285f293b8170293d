-- ===== src/Message/Vector/Grid.antt =====
-- The vectors that go through a message unchanged: multiples of 1/8 in the range of a short, and
-- the angles that a byte stands for.
use quake2world.Prelude.{
  ℕ, ◌%◌, ◌^◌, ◌≡◌, refl, ap, ◌∙◌, true, false, not, List, [], ◌∷◌, ◌++◌, ◌*◌, ◌+◌, ◌/◌, arith,
  length,
}
use quake2world.Message.Vector.{
  Floats, Vec3, vector_compare, write_vector, write_position, write_angle, write_angles,
  read_vector, read_position, read_angle, read_angles,
}
use quake2world.Message.Write.{short_bytes}
use quake2world.Message.Write.Rules.{Writes, Writes-seq, Writes-write_byte, Writes-write_short}
use quake2world.Message.Read.{sign8, sign16}
use quake2world.Message.Read.Rules.{Reads, Reads-bind, Reads-map, Reads-read_char, Reads-read_short}

module _ {V : Type 0} (ops : Floats V) where
  abbrev pub OnGrid : V → Type 0
  OnGrid v = ops.unpack (sign16 (ops.pack v % 2 ^ 16)) ≡ v

  abbrev pub OnAngleGrid : V → Type 0
  OnAngleGrid v = ops.unpack_angle (sign8 (ops.pack_angle v % 256)) ≡ v

  pub record OnGrid3 (p : Vec3 V) : Type 0 where
    pub x : OnGrid p.x
    pub y : OnGrid p.y
    pub z : OnGrid p.z

  pub record OnAngleGrid3 (p : Vec3 V) : Type 0 where
    pub x : OnAngleGrid p.x
    pub y : OnAngleGrid p.y
    pub z : OnAngleGrid p.z

  -- `==` of floats tells values of a grid apart: neither -0.0 nor a NaN is on one.
  pub record FloatLaws : Type 0 where
    pub same_grid : (a b : V) → OnGrid a → OnGrid b → ops.same a b ≡ true → a ≡ b
    pub same_angle : (a b : V) → OnAngleGrid a → OnAngleGrid b → ops.same a b ≡ true → a ≡ b

  pub position_bytes : Vec3 V → List ℕ
  position_bytes p =
      short_bytes (ops.pack p.x) ++ (short_bytes (ops.pack p.y) ++ short_bytes (ops.pack p.z))

  abbrev angle_bytes : V → List ℕ
  angle_bytes v = ops.pack_angle v % 256 % 256 ∷ []

  pub angles_bytes : Vec3 V → List ℕ
  angles_bytes p = angle_bytes p.x ++ (angle_bytes p.y ++ angle_bytes p.z)

  vector-Writes : (v : V) → Writes (write_vector ops v) (short_bytes (ops.pack v))
  unfolding write_vector
  vector-Writes v = Writes-write_short (ops.pack v)

  pub position-Writes : (p : Vec3 V) → Writes (write_position ops p) (position_bytes p)
  unfolding write_position position_bytes
  position-Writes p =
      Writes-seq (vector-Writes p.x) (Writes-seq (vector-Writes p.y) (vector-Writes p.z))

  angle-Writes : (v : V) → Writes (write_angle ops v) (angle_bytes v)
  unfolding write_angle
  angle-Writes v = Writes-write_byte (ops.pack_angle v % 256)

  pub angles-Writes : (p : Vec3 V) → Writes (write_angles ops p) (angles_bytes p)
  unfolding write_angles angles_bytes
  angles-Writes p = Writes-seq (angle-Writes p.x) (Writes-seq (angle-Writes p.y) (angle-Writes p.z))

  vector-Reads : (v : V) → OnGrid v → Reads (read_vector ops) (short_bytes (ops.pack v)) v
  unfolding read_vector
  vector-Reads v g =
      let w = ops.pack v in
      let e : (w % 256 + w / 256 % 256 * 2 ^ 8) % 2 ^ 16 ≡ w % 2 ^ 16 = omega arith in
      Reads-map ops.unpack v (ap (λ n. ops.unpack (sign16 n)) e ∙ g) (Reads-read_short _ _)

  pub position-Reads : (p : Vec3 V) → OnGrid3 p → Reads (read_position ops) (position_bytes p) p
  unfolding read_position position_bytes
  position-Reads p g =
      Reads-bind _ (vector-Reads p.x g.x)
        (Reads-bind _ (vector-Reads p.y g.y) (Reads-map _ p refl (vector-Reads p.z g.z)))

  angle-Reads : (v : V) → OnAngleGrid v → Reads (read_angle ops) (angle_bytes v) v
  unfolding read_angle
  angle-Reads v g =
      let e : ops.pack_angle v % 256 % 256 ≡ ops.pack_angle v % 256 = omega arith in
      Reads-map ops.unpack_angle v (ap (λ n. ops.unpack_angle (sign8 n)) e ∙ g) (Reads-read_char _)

  pub angles-Reads : (p : Vec3 V) → OnAngleGrid3 p → Reads (read_angles ops) (angles_bytes p) p
  unfolding read_angles angles_bytes
  angles-Reads p g =
      Reads-bind _ (angle-Reads p.x g.x)
        (Reads-bind _ (angle-Reads p.y g.y) (Reads-map _ p refl (angle-Reads p.z g.z)))

  -- Vectors of a grid that VectorCompare finds alike are one.
  pub compare-grid :
      FloatLaws
      → (a b : Vec3 V) → OnGrid3 a
      → OnGrid3 b
      → not (vector_compare ops a b) ≡ false
      → a ≡ b
  compare-grid laws a b g h e = ground (
    arith,
    laws.same_grid a.x b.x g.x h.x,
    laws.same_grid a.y b.y g.y h.y,
    laws.same_grid a.z b.z g.z h.z,
  )

  pub compare-angles :
      FloatLaws
      → (a b : Vec3 V) → OnAngleGrid3 a
      → OnAngleGrid3 b
      → not (vector_compare ops a b) ≡ false
      → a ≡ b
  compare-angles laws a b g h e = ground (
    arith,
    laws.same_angle a.x b.x g.x h.x,
    laws.same_angle a.y b.y g.y h.y,
    laws.same_angle a.z b.z g.z h.z,
  )

  pub length-position_bytes : (p : Vec3 V) → length (position_bytes p) ≡ 6
  unfolding position_bytes
  length-position_bytes p = refl

  pub length-angles_bytes : (p : Vec3 V) → length (angles_bytes p) ≡ 3
  unfolding angles_bytes
  length-angles_bytes p = refl
