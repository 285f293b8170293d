-- ===== src/Prelude/Bits.antt =====
-- Bit sets. A C word that is built from 0 by `bits |= 1 << k` under one condition for each k is
-- the number whose binary digits are those conditions, lowest first.
use Prim.Native.Nat.{ℕ, zero, suc, ◌+◌, ◌*◌, ◌/◌, ◌%◌, ◌^◌, ◌<◌}
use mathlib.Core.Path.{◌≡◌, refl}
use mathlib.Core.Bool.{Bool, false}
use mathlib.Core.List.{List, [], ◌∷◌}
use native.Mathlib.Nat.{pow-suc}
use native.Mathlib.Omega.{arith}
use quake2world.Prelude.Lists.{length, get_or}
use quake2world.Prelude.Tests.{◌==◌, if◌then◌else◌}

unfoldable pub from_bits : List Bool → ℕ
from_bits [] = 0
from_bits (b ∷ bs) = (if b then 1 else 0) + 2 * from_bits bs

-- `bits & (1 << k)`
unfoldable pub test_bit : ℕ → ℕ → Bool
test_bit n zero = n % 2 == 1
test_bit n (suc k) = test_bit (n / 2) k

test_bit-zero : (k : ℕ) → test_bit 0 k ≡ false
unfolding test_bit
test_bit-zero zero = refl
test_bit-zero (suc k) = test_bit-zero k

pub test_bit-from_bits : (bs : List Bool) (k : ℕ) → test_bit (from_bits bs) k ≡ get_or bs k false
unfolding from_bits test_bit
test_bit-from_bits [] k = test_bit-zero k
test_bit-from_bits (b ∷ bs) zero = ground arith
test_bit-from_bits (b ∷ bs) (suc k) =
    let e : ((if b then 1 else 0) + 2 * from_bits bs) / 2 ≡ from_bits bs = ground arith in
    rw e (test_bit-from_bits bs k)

pub from_bits-lt : (bs : List Bool) → from_bits bs < 2 ^ length bs
unfolding from_bits
from_bits-lt [] = omega arith
from_bits-lt (b ∷ bs) = rw pow-suc (ground (arith, from_bits-lt bs))
