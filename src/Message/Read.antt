-- ===== src/Message/Read.antt =====
-- The Net_Read* primitives of src/net_message.c. A reader takes the buffer to the value read and
-- the buffer with its cursor moved.
pub mod Rules
use quake2world.Prelude.{
  ℕ, zero, suc, ◌+◌, ◌*◌, ◌-◌, ◌%◌, ◌^◌, Bool, ◌||◌, List, [], ◌∷◌, ltb, ◌==◌, if◌then◌else◌,
  get_or,
}
use quake2world.MemBuf.{MemBuf, add_size}

abbrev pub Reader {ℓ} : Type ℓ → Type ℓ
Reader A = MemBuf → A × MemBuf

infixl 5 ◌>>=◌ ◌>>◌
unfoldable pub ◌>>=◌ {ℓ} : {A B : Type ℓ} → Reader A → (A → Reader B) → Reader B
◌>>=◌ m f buf = let (a, buf') = m buf in f a buf'

abbrev pub ◌>>◌ {ℓ} : {A B : Type ℓ} → Reader A → Reader B → Reader B
m >> k = m >>= λ _. k

abbrev pub pure {ℓ} : {A : Type ℓ} → A → Reader A
pure a buf = (a, buf)

-- `if (bits & FLAG) x = Net_Read…()`, where `x` was `old`
unfoldable pub read_if {ℓ} : {A : Type ℓ} → Bool → Reader A → A → Reader A
read_if c m old = if c then m else pure old

-- the int32_t -1
abbrev pub minus_one : ℕ
minus_one = 2 ^ 32 - 1

-- (signed char) and (int16_t), widened to int32_t
abbrev pub sign8 : ℕ → ℕ
sign8 n = if ltb n 128 then n else n + (2 ^ 32 - 256)

abbrev pub sign16 : ℕ → ℕ
sign16 n = if ltb n 32768 then n else n + (2 ^ 32 - 65536)

-- `sb->data[sb->read + i]`
abbrev pub peek : MemBuf → ℕ → ℕ
peek sb i = get_or sb.bytes (sb.read + i) 0

unfoldable pub begin_reading : MemBuf → MemBuf
begin_reading msg = record msg { read = 0 }

abbrev pub skip_bytes : ℕ → MemBuf → MemBuf
skip_bytes n sb = record sb { read = add_size sb.read n }

unfoldable pub read_char : Reader ℕ
read_char sb =
    let c = if ltb sb.size (add_size sb.read 1) then minus_one else sign8 (peek sb 0) in
    (c, skip_bytes 1 sb)

unfoldable pub read_byte : Reader ℕ
read_byte sb =
    let c = if ltb sb.size (add_size sb.read 1) then minus_one else peek sb 0 in
    (c, skip_bytes 1 sb)

unfoldable pub read_short : Reader ℕ
read_short sb =
    let c =
      if ltb sb.size (add_size sb.read 2)
      then minus_one
      else sign16 ((peek sb 0 + peek sb 1 * 2 ^ 8) % 2 ^ 16) in
    (c, skip_bytes 2 sb)

unfoldable pub read_long : Reader ℕ
read_long sb =
    let c =
      if ltb sb.size (add_size sb.read 4)
      then minus_one
      else (peek sb 0 + peek sb 1 * 2 ^ 8 + peek sb 2 * 2 ^ 16 + peek sb 3 * 2 ^ 24) % 2 ^ 32 in
    (c, skip_bytes 4 sb)

-- a short and a byte stored into a field of 16 and of 8 bits
unfoldable pub read_short16 : Reader ℕ
read_short16 = do c ← read_short; pure (c % 2 ^ 16)

unfoldable pub read_byte8 : Reader ℕ
read_byte8 = do c ← read_byte; pure (c % 2 ^ 8)

unfoldable pub read_data : ℕ → Reader (List ℕ)
read_data zero = pure []
read_data (suc len) = do c ← read_byte; cs ← read_data len; pure (c % 256 ∷ cs)

-- MAX_STRING_CHARS
abbrev pub max_string_chars : ℕ
max_string_chars = 1024

-- The loops of Net_ReadString and Net_ReadStringLine; the number is the room left in `string`.
unfoldable pub keep_char : ℕ → Reader (List ℕ) → Reader (List ℕ)
keep_char c more = do cs ← more; pure (c % 256 ∷ cs)

unfoldable pub string_step : Reader (List ℕ) → ℕ → Reader (List ℕ)
string_step more c = if c == minus_one || c == 0 then pure [] else keep_char c more

unfoldable pub string_loop : ℕ → Reader (List ℕ)
string_loop zero = pure []
string_loop (suc room) = do c ← read_char; string_step (string_loop room) c

unfoldable pub line_step : Reader (List ℕ) → ℕ → Reader (List ℕ)
line_step more c = if c == minus_one || c == 0 || c == 10 then pure [] else keep_char c more

unfoldable pub line_loop : ℕ → Reader (List ℕ)
line_loop zero = pure []
line_loop (suc room) = do c ← read_char; line_step (line_loop room) c

unfoldable pub read_string : Reader (List ℕ)
read_string = string_loop (max_string_chars - 1)

unfoldable pub read_string_line : Reader (List ℕ)
read_string_line = line_loop (max_string_chars - 1)
