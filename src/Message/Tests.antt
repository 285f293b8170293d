-- ===== src/Message/Tests.antt =====
-- Runs of src/net_message.c, and its theorems at concrete messages.
use quake2world.Prelude.{
  ℕ, ◌+◌, ◌-◌, ◌^◌, ◌≡◌, refl, ap, zero, suc, from_bits, true, false, ◌==◌, ◌&&◌, some, List, [],
  ◌∷◌, arith, replicate, ltb,
}
use quake2world.MemBuf.{MemBuf, init_buffer}
use quake2world.MemBuf.Valid.{IsValid}
use quake2world.Message.Write.{write_string}
use quake2world.Message.Read.{read_string, read_short}
use quake2world.Message.RoundTrip.{RoundTrip}
use quake2world.Message.Strings.{IsText, write_string-read_string}
use quake2world.Message.UserCmd.{UserCmd, write_delta_user_cmd, read_delta_user_cmd}
use quake2world.Message.UserCmd.RoundTrips.{delta_user_cmd_roundtrip}
use quake2world.Message.Vector.{Floats, Vec3}
use quake2world.Message.Vector.Grid.{FloatLaws}
use quake2world.Message.Entity.{EntityState, entity_bits, write_delta_entity, read_numbered_entity}
use quake2world.Message.Entity.RoundTrips.{IsSendable, delta_entity_roundtrip}

abbrev empty : MemBuf
empty = init_buffer (replicate 40 0) 40

empty-IsValid : IsValid empty
empty-IsValid = omega arith

-- -2 as a short
minus_two : (read_short (record empty { bytes = 254 ∷ 255 ∷ []; size = 2 })).0 ≡ 2 ^ 32 - 2
unfolding read_short
minus_two = refl

-- a read past the end
past_end : (read_short (record empty { bytes = 254 ∷ 255 ∷ []; size = 1 })).0 ≡ 2 ^ 32 - 1
unfolding read_short
past_end = refl

abbrev hello : List ℕ
hello = 104 ∷ 105 ∷ []

write_string-read_string_example : RoundTrip (write_string (some hello)) read_string hello empty
write_string-read_string_example =
    write_string-read_string hello empty (omega arith) (omega arith) empty-IsValid (omega arith)

abbrev idle : UserCmd
idle = record {
  msec = 10;
  buttons = 0;
  angles = record { x = 1; y = 2; z = 3 };
  forward = 0;
  right = 0;
  up = 0;
}

abbrev moving : UserCmd
moving = record idle { forward = 300; right = 2 ^ 16 - 300; buttons = 1 }

delta_user_cmd_roundtrip_example :
    RoundTrip (write_delta_user_cmd idle moving) (read_delta_user_cmd idle) moving empty
delta_user_cmd_roundtrip_example =
    delta_user_cmd_roundtrip idle moving empty (omega arith) empty-IsValid (omega arith)

-- Vectors in eighths and angles in bytes, as their own numbers.
abbrev eighths : Floats ℕ
eighths = record {
  same = λ a b. a == b;
  pack = λ v. v;
  unpack = λ n. n;
  pack_angle = λ v. v;
  unpack_angle = λ n. n;
  far = λ a b. ltb 2048 (a - b);
}

eighths_laws : FloatLaws eighths
eighths_laws = record {
  same_grid = λ a b g h e. ground arith;
  same_angle = λ a b g h e. ground arith;
}

abbrev at : ℕ → Vec3 ℕ
at n = record { x = n; y = n; z = n }

abbrev baseline : EntityState ℕ
baseline = record {
  number = 7;
  origin = at 0;
  old_origin = at 0;
  angles = at 0;
  animation1 = 0;
  animation2 = 0;
  event = 0;
  effects = 0;
  model1 = 1;
  model2 = 0;
  model3 = 0;
  model4 = 0;
  client = 0;
  sound = 0;
  solid = 0;
}

abbrev running : EntityState ℕ
running = record baseline { origin = at 800; animation2 = 3; event = 5; solid = 2 ^ 15 + 1 }

baseline-IsSendable : IsSendable eighths baseline
baseline-IsSendable = ground arith

running-IsSendable : IsSendable eighths running
running-IsSendable = ground arith

running_bits : entity_bits eighths baseline running false ≡ 1 + 8 + 16 + 512
unfolding from_bits
running_bits = refl

delta_entity_roundtrip_example :
    RoundTrip
      (write_delta_entity eighths baseline running false false)
      (read_numbered_entity eighths baseline)
      running
      empty
delta_entity_roundtrip_example =
    delta_entity_roundtrip eighths eighths_laws baseline running false false empty
      baseline-IsSendable running-IsSendable (ap (λ n. n == 0 && true) running_bits) empty-IsValid
      (omega arith)

unchanged_bits : entity_bits eighths baseline baseline false ≡ 0
unfolding from_bits
unchanged_bits = refl

abbrev letters : ℕ → List ℕ
letters n = replicate n 65

letters-IsText : (n : ℕ) → IsText (letters n)
letters-IsText zero = tt
letters-IsText (suc n) = (omega arith, omega arith, letters-IsText n)

abbrev lettered : MemBuf
lettered = record {
  allow_overflow = false;
  overflowed = false;
  bytes = letters 1025;
  max_size = 1025;
  size = 1025;
  read = 0;
}
