-- ===== src/Message/Cursor.antt =====
-- How far a reader of src/net_message.c moves the cursor, whatever it reads, past the end too.
use quake2world.Prelude.{ℕ, ◌+◌, ◌^◌, ◌≤◌, ◌<◌, ◌≡◌, Bool, true, false, arith}
use quake2world.MemBuf.{MemBuf}
use quake2world.Message.Read.{
  Reader, ◌>>=◌, pure, read_if, read_char, read_byte, read_short, read_byte8, read_short16,
}
use quake2world.Message.Vector.{Floats, read_vector, read_position, read_angle, read_angles}
use quake2world.Message.Entity.{EntityState, read_pair, read_four, read_delta_entity}

-- `after` is `before` with the cursor at most `k` bytes further on.
pub record Moved (before after : MemBuf) (k : ℕ) : Type 0 where
  pub size : after.size ≡ before.size
  pub forward : before.read ≤ after.read
  pub bounded : after.read ≤ before.read + k

pub record Moves {ℓ} {A : Type ℓ} (m : Reader A) (k : ℕ) : Type ℓ where
  pub moved : (buf : MemBuf) → buf.read + k < 2 ^ 64 → Moved buf (m buf).1 k

Moves-pure {ℓ} : {A : Type ℓ} (a : A) → Moves (pure a) 0
Moves-pure a = record { moved = λ buf h. omega arith }

pub Moves-bind {ℓ} :
    {A B : Type ℓ} {m : Reader A} {f : A → Reader B} {j k : ℕ}
    → Moves m j
    → ((a : A) → Moves (f a) k)
    → Moves (m >>= f) (j + k)
unfolding ◌>>=◌
Moves-bind {m = m} p q = record {
  moved = λ buf h.
      let s = p.moved buf (omega arith) in
      let t = (q (m buf).0).moved (m buf).1 (omega (arith, s)) in omega (arith, s, t);
}

Moves-if {ℓ} :
    {A : Type ℓ} (c : Bool) {m : Reader A} (old : A) {k : ℕ} → Moves m k → Moves (read_if c m old) k
unfolding read_if
Moves-if true old p = p
Moves-if false old p = record { moved = λ buf h. omega arith }

pub Moves-map {ℓ} :
    {A B : Type ℓ} {m : Reader A} (f : A → B) {k : ℕ} → Moves m k → Moves (m >>= λ a. pure (f a)) k
unfolding ◌>>=◌
Moves-map f p = record { moved = λ buf h. p.moved buf h }

Moves-read_char : Moves read_char 1
unfolding read_char
Moves-read_char = record { moved = λ buf h. omega arith }

Moves-read_byte : Moves read_byte 1
unfolding read_byte
Moves-read_byte = record { moved = λ buf h. omega arith }

Moves-read_short : Moves read_short 2
unfolding read_short
Moves-read_short = record { moved = λ buf h. omega arith }

Moves-read_byte8 : Moves read_byte8 1
unfolding read_byte8
Moves-read_byte8 = Moves-map _ Moves-read_byte

pub Moves-read_short16 : Moves read_short16 2
unfolding read_short16
Moves-read_short16 = Moves-map _ Moves-read_short

pub read_short16-read :
    (buf : MemBuf) → buf.read + 2 < 2 ^ 64 → (read_short16 buf).1.read ≡ buf.read + 2
unfolding read_short16 read_short ◌>>=◌
read_short16-read buf h = omega arith

module _ {V : Type 0} (ops : Floats V) where
  Moves-read_vector : Moves (read_vector ops) 2
  unfolding read_vector
  Moves-read_vector = Moves-map _ Moves-read_short

  Moves-read_angle : Moves (read_angle ops) 1
  unfolding read_angle
  Moves-read_angle = Moves-map _ Moves-read_char

  Moves-read_position : Moves (read_position ops) 6
  unfolding read_position
  Moves-read_position =
      Moves-bind Moves-read_vector
        λ x. Moves-bind Moves-read_vector λ y. Moves-map _ Moves-read_vector

  Moves-read_angles : Moves (read_angles ops) 3
  unfolding read_angles
  Moves-read_angles =
      Moves-bind Moves-read_angle λ x. Moves-bind Moves-read_angle λ y. Moves-map _ Moves-read_angle

  Moves-read_pair : Moves read_pair 2
  unfolding read_pair
  Moves-read_pair = Moves-bind Moves-read_byte8 λ a. Moves-map _ Moves-read_byte8

  Moves-read_four : Moves read_four 4
  unfolding read_four
  Moves-read_four = Moves-bind Moves-read_byte8 λ a.
      Moves-bind Moves-read_byte8 λ b. Moves-bind Moves-read_byte8 λ c. Moves-map _ Moves-read_byte8

  pub Moves-read_delta_entity :
      (from : EntityState V) (number bits : ℕ) → Moves (read_delta_entity ops from number bits) 28
  unfolding read_delta_entity
  Moves-read_delta_entity from number bits = Moves-bind (Moves-if _ _ Moves-read_position) λ origin.
      Moves-bind (Moves-if _ _ Moves-read_position) λ old_origin.
        Moves-bind (Moves-if _ _ Moves-read_angles) λ angles.
          Moves-bind (Moves-if _ _ Moves-read_pair) λ animation.
            Moves-bind (Moves-if _ _ Moves-read_byte8) λ event.
              Moves-bind (Moves-if _ _ Moves-read_short16) λ effects.
                Moves-bind (Moves-if _ _ Moves-read_four) λ model.
                  Moves-bind (Moves-if _ _ Moves-read_byte8) λ client.
                    Moves-bind (Moves-if _ _ Moves-read_byte8)
                      λ sound. Moves-map _ (Moves-if _ _ Moves-read_short16)
