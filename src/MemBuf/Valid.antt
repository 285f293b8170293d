-- ===== src/MemBuf/Valid.antt =====
-- The representation invariant of `mem_buf_t`, and what a write that fits does.
use quake2world.Prelude.{
  ℕ, ◌+◌, ◌^◌, ◌≤◌, ◌<◌, ◌≡◌, ◌++◌, some, List, arith, length, length-write_at, take-write_at,
  write_at,
}
use quake2world.MemBuf.{MemBuf, alloc_buffer, write_buffer, contents, clear_buffer, init_buffer}

pub record IsValid (buf : MemBuf) : Type 0 where
  pub storage : buf.max_size ≤ length buf.bytes
  pub bounded : buf.max_size < 2 ^ 63
  pub in_use : buf.size ≤ buf.max_size

pub init_buffer-IsValid :
    (storage : List ℕ) (len : ℕ)
    → len ≤ length storage
    → len < 2 ^ 63
    → IsValid (init_buffer storage len)
init_buffer-IsValid storage len h k = omega arith

pub clear_buffer-IsValid : {buf : MemBuf} → IsValid buf → IsValid (clear_buffer buf)
unfolding clear_buffer
clear_buffer-IsValid v = omega arith

-- The room that an allocation hands out lies inside the storage, ends the bytes in use, and the
-- buffer stays valid.
pub alloc_buffer-IsValid :
    {buf : MemBuf} (len offset : ℕ) {buf' : MemBuf}
    → IsValid buf
    → len < 2 ^ 63
    → alloc_buffer buf len ≡ some (offset, buf')
    → (offset + len ≡ buf'.size) × (offset + len ≤ length buf'.bytes) × IsValid buf'
unfolding alloc_buffer
alloc_buffer-IsValid len offset v h e = ground arith

-- What relates a buffer to itself after writes that append `xs`.
pub record Appends (buf : MemBuf) (xs : List ℕ) (buf' : MemBuf) : Type 0 where
  pub valid : IsValid buf'
  pub same_max : buf'.max_size ≡ buf.max_size
  pub same_read : buf'.read ≡ buf.read
  pub same_allow : buf'.allow_overflow ≡ buf.allow_overflow
  pub same_overflowed : buf'.overflowed ≡ buf.overflowed
  pub grown : buf'.size ≡ buf.size + length xs
  pub appended : contents buf' ≡ contents buf ++ xs

-- the buffer after a write that fits
pub written : MemBuf → List ℕ → MemBuf
written buf xs = record buf { bytes = write_at buf.bytes buf.size xs; size = buf.size + length xs }

pub write_buffer_lem :
    (buf : MemBuf) (xs : List ℕ)
    → IsValid buf
    → buf.size + length xs ≤ buf.max_size
    → write_buffer buf xs ≡ some (written buf xs)
unfolding write_buffer alloc_buffer written
write_buffer_lem buf xs v h = ground arith

pub written-Appends :
    (buf : MemBuf) (xs : List ℕ)
    → IsValid buf
    → buf.size + length xs ≤ buf.max_size
    → Appends buf xs (written buf xs)
unfolding written
written-Appends buf xs v h =
    ground (arith, length-write_at buf.bytes buf.size xs, take-write_at buf.bytes buf.size xs)

-- Whatever a write does, short of aborting, it keeps the buffer valid, and its limit.
pub write_buffer-IsValid :
    (buf : MemBuf) (xs : List ℕ) {buf' : MemBuf}
    → IsValid buf
    → length xs < 2 ^ 63
    → write_buffer buf xs ≡ some buf'
    → IsValid buf' × (buf'.max_size ≡ buf.max_size) × (buf'.allow_overflow ≡ buf.allow_overflow)
unfolding write_buffer alloc_buffer
write_buffer-IsValid buf xs v h e =
    ground (arith, length-write_at buf.bytes buf.size xs, length-write_at buf.bytes 0 xs)
