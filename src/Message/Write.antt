-- ===== src/Message/Write.antt =====
-- The Net_Write* primitives of src/net_message.c. A writer takes the buffer to the buffer after
-- the write; `none` is the SIGABRT of src/mem_buf.c.
pub mod Rules
pub mod Strict
use quake2world.Prelude.{
  ℕ, ◌/◌, ◌%◌, ◌^◌, Bool, Option, none, some, List, [], ◌∷◌, ◌++◌, if◌then◌else◌,
}
use quake2world.MemBuf.{MemBuf, write_buffer}

abbrev pub Writer : Type 0
Writer = MemBuf → Option MemBuf

infixl 5 ◌>>◌
unfoldable pub ◌>>◌ : Writer → Writer → Writer
◌>>◌ w v buf = elim (w buf) [ none ↦ none | some buf' ↦ v buf' ]

abbrev pub skip : Writer
skip buf = some buf

unfoldable pub write_if : Bool → Writer → Writer
write_if c w = if c then w else skip

-- the two and the four bytes of a word, lowest first
abbrev pub short_bytes : ℕ → List ℕ
short_bytes c = c % 256 ∷ c / 256 % 256 ∷ []

abbrev pub long_bytes : ℕ → List ℕ
long_bytes c = c % 256 ∷ c / 256 % 256 ∷ c / 65536 % 256 ∷ c / 16777216 % 256 ∷ []

unfoldable pub write_data : List ℕ → Writer
write_data xs buf = write_buffer buf xs

-- The bytes are stored into the room that Mem_AllocBuffer returns, as Mem_WriteBuffer does.
unfoldable pub write_char : ℕ → Writer
write_char c buf = write_buffer buf (c % 256 ∷ [])

unfoldable pub write_byte : ℕ → Writer
write_byte c buf = write_buffer buf (c % 256 ∷ [])

unfoldable pub write_short : ℕ → Writer
write_short c buf = write_buffer buf (short_bytes c)

unfoldable pub write_long : ℕ → Writer
write_long c buf = write_buffer buf (long_bytes c)

-- A string is the bytes before its NUL; `none` is the null pointer.
unfoldable pub write_string : Option (List ℕ) → Writer
write_string none buf = write_buffer buf (0 ∷ [])
write_string (some s) buf = write_buffer buf (s ++ (0 ∷ []))

-- what `write_if` appends
unfoldable pub given : Bool → List ℕ → List ℕ
given c xs = if c then xs else []
