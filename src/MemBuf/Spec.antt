-- ===== src/MemBuf/Spec.antt =====
-- What a buffer promises: a byte log of bounded length that forgets everything on overflow.
use quake2world.Prelude.{
  ℕ, ◌+◌, ◌^◌, ◌<◌, ◌≡◌, ◌++◌, Bool, true, not, Option, none, some, List, arith, length, ltb,
  if◌then◌else◌, length-take, take-write_at,
}
use quake2world.MemBuf.{MemBuf, alloc_buffer, write_buffer, contents}
use quake2world.MemBuf.Valid.{IsValid}

-- The bytes logged, and whether any were lost.
abbrev pub Log : Type 0
Log = List ℕ × Bool

unfoldable pub append : (cap : ℕ) (allow : Bool) → Log → List ℕ → Option Log
append cap allow (log, lost) xs =
    if ltb cap (length log + length xs)
    then (if not allow then none else if ltb cap (length xs) then none else some (xs, true))
    else some (log ++ xs, lost)

abbrev pub log_of : Option MemBuf → Option Log
log_of none = none
log_of (some buf) = some (contents buf, buf.overflowed)

pub length-contents : {buf : MemBuf} → IsValid buf → length (contents buf) ≡ buf.size
length-contents {buf} v = omega (arith, length-take buf.size buf.bytes)

-- On a valid buffer, a write of any bytes (aborting, overflowing or fitting) is `append`.
pub write_buffer_refines :
    {buf : MemBuf} (xs : List ℕ)
    → IsValid buf
    → length xs < 2 ^ 63
    → log_of (write_buffer buf xs)
      ≡ append buf.max_size buf.allow_overflow (contents buf, buf.overflowed) xs
unfolding write_buffer alloc_buffer append
write_buffer_refines {buf} xs v h =
    ground
      (arith, length-contents v, take-write_at buf.bytes buf.size xs, take-write_at buf.bytes 0 xs)
