-- ===== src/MemBuf.antt =====
-- src/mem_buf.c: the fixed-size buffers that hold network messages. An operation returns the new
-- buffer; `none` is the SIGABRT that the source raises.
pub mod Valid
pub mod Spec
mod Tests
use quake2world.Prelude.{
  ℕ, ◌+◌, ◌-◌, ◌%◌, ◌^◌, Bool, true, false, Option, none, some, List, [], ◌++◌, ltb, not,
  if◌then◌else◌, length, take, drop, write_at,
}

-- `mem_buf_t`; `bytes` is the storage behind `data`, of which the first `size` bytes are in use.
pub record MemBuf : Type 0 where
  pub allow_overflow : Bool
  pub overflowed : Bool
  pub bytes : List ℕ
  pub max_size : ℕ
  pub size : ℕ
  pub read : ℕ

-- `size_t` addition
abbrev pub add_size : ℕ → ℕ → ℕ
add_size a b = (a + b) % 2 ^ 64

abbrev pub init_buffer : List ℕ → ℕ → MemBuf
init_buffer storage len = record {
  allow_overflow = false;
  overflowed = false;
  bytes = storage;
  max_size = len;
  size = 0;
  read = 0;
}

unfoldable pub clear_buffer : MemBuf → MemBuf
clear_buffer buf = record buf { size = 0; overflowed = false }

-- The room is taken at the end of what is in use; the result's number is the offset of `data`.
take_room : MemBuf → ℕ → ℕ × MemBuf
take_room buf len = (buf.size, record buf { size = add_size buf.size len })

unfoldable pub alloc_buffer : MemBuf → ℕ → Option (ℕ × MemBuf)
unfolding take_room clear_buffer
alloc_buffer buf len =
    if ltb buf.max_size (add_size buf.size len)
    then (if not buf.allow_overflow
        then none
        else if ltb buf.max_size len
        then none
        else some (take_room (record (clear_buffer buf) { overflowed = true }) len))
    else some (take_room buf len)

-- memcpy into the room that was taken
unfoldable pub copy_in : List ℕ → Option (ℕ × MemBuf) → Option MemBuf
copy_in xs none = none
copy_in xs (some (offset, buf)) = some (record buf { bytes = write_at buf.bytes offset xs })

unfoldable pub write_buffer : MemBuf → List ℕ → Option MemBuf
unfolding copy_in
write_buffer buf xs = copy_in xs (alloc_buffer buf (length xs))

-- What is in use, and what of it has not been read.
abbrev pub contents : MemBuf → List ℕ
contents buf = take buf.size buf.bytes

abbrev pub remaining : MemBuf → List ℕ
remaining buf = drop buf.read (contents buf)
