-- ===== src/Message/Strings.antt =====
-- Net_WriteString against Net_ReadString and Net_ReadStringLine of src/net_message.c.
use quake2world.Prelude.{
  ℕ, zero, suc, ◌+◌, ◌-◌, ◌%◌, ◌≤◌, ◌<◌, ◌≡◌, ap, false, some, List, [], ◌∷◌, ◌++◌, ◌||◌, ◌==◌,
  arith, length, length-append, take, drop, take-append-drop, sym, ◌∙◌, subst, append_assoc,
}
use quake2world.MemBuf.{MemBuf}
use quake2world.MemBuf.Valid.{IsValid}
use quake2world.Message.Write.{write_string}
use quake2world.Message.Write.Rules.{Writes-write_string}
use quake2world.Message.Read.{
  minus_one, sign8, string_loop, read_string, Reader, string_step, keep_char, max_string_chars,
}
use quake2world.Message.Read.Rules.{
  Reads, Reads-bind, Reads-map, Reads-pure, Reads-read_char, Holds,
}
use quake2world.Message.RoundTrip.{RoundTrip, roundtrip}

-- No byte of a text is NUL, or the 255 that Net_ReadChar returns as -1.
abbrev pub IsText : List ℕ → Type 0
IsText [] = Unit
IsText (x ∷ s) = (0 < x) × (x < 255) × IsText s

text_byte : (x : ℕ) → 0 < x → x < 255 → (sign8 x == minus_one || sign8 x == 0) ≡ false
text_byte x h k = ground arith

text_char : (x : ℕ) → x < 255 → sign8 x % 256 ≡ x
text_char x k = ground arith

-- The loop ends at a NUL.
stop : (more : Reader (List ℕ)) → Reads (string_step more (sign8 0)) [] []
unfolding string_step
stop more = Reads-pure []

-- Any other byte of a text is kept.
keep :
    {more : Reader (List ℕ)} {xs s : List ℕ} (x : ℕ)
    → 0 < x
    → x < 255
    → Reads more xs s
    → Reads (string_step more (sign8 x)) xs (x ∷ s)
unfolding string_step keep_char
keep {s = s} x h k p =
    rw (text_byte x h k)
      (Reads-map (λ cs. sign8 x % 256 ∷ cs) (x ∷ s) (ap (λ c. c ∷ s) (text_char x k)) p)

-- A string that the room holds is read whole, with its NUL.
string_loop-Reads :
    (room : ℕ) (s : List ℕ)
    → IsText s
    → length s < room
    → Reads (string_loop room) (s ++ (0 ∷ [])) s
unfolding string_loop
string_loop-Reads zero s t h = absurd (omega arith)
string_loop-Reads (suc room) [] t h = Reads-bind _ (Reads-read_char 0) (stop _)
string_loop-Reads (suc room) (x ∷ s) t h =
    Reads-bind _ (Reads-read_char x) (keep x t.0 t.1 (string_loop-Reads room s t.2 (omega arith)))

-- Of a longer one, as much as the room holds is read.
string_loop-full :
    (room : ℕ) (s : List ℕ)
    → IsText s
    → room ≤ length s
    → Reads (string_loop room) (take room s) (take room s)
unfolding string_loop
string_loop-full zero s t h = Reads-pure []
string_loop-full (suc room) [] t h = absurd (omega arith)
string_loop-full (suc room) (x ∷ s) t h =
    Reads-bind _ (Reads-read_char x) (keep x t.0 t.1 (string_loop-full room s t.2 (omega arith)))

-- A text shorter than MAX_STRING_CHARS - 1 that Net_WriteString writes where the buffer has room is
-- what Net_ReadString reads back, and nothing is left unread, the NUL included.
pub write_string-read_string :
    (s : List ℕ) (buf : MemBuf)
    → IsText s
    → length s < max_string_chars - 1
    → IsValid buf
    → buf.size + length s + 1 ≤ buf.max_size
    → RoundTrip (write_string (some s)) read_string s buf
unfolding read_string
write_string-read_string s buf t h v room =
    roundtrip (Writes-write_string s) (string_loop-Reads (max_string_chars - 1) s t h) buf v
      (omega (arith, length-append s (0 ∷ [])))

-- From a message that starts with a text of MAX_STRING_CHARS - 1 bytes or more, Net_ReadString
-- returns the first MAX_STRING_CHARS - 1 and leaves the rest of the text unread.
pub read_string-long :
    (s rest : List ℕ) (buf : MemBuf)
    → IsText s
    → max_string_chars - 1 ≤ length s
    → Holds buf (s ++ rest)
    → ((read_string buf).0 ≡ take (max_string_chars - 1) s)
      × Holds (read_string buf).1 (drop (max_string_chars - 1) s ++ rest)
unfolding read_string
read_string-long s rest buf t h holds =
    let k : ℕ = max_string_chars - 1 in
    let p = string_loop-full k s t h in
    let e : s ++ rest ≡ take k s ++ (drop k s ++ rest) =
      ap (λ l. l ++ rest) (sym (take-append-drop k s)) ∙ append_assoc (take k s) (drop k s) rest in
    let at = subst (λ l. Holds buf l) e holds in
    (p.value buf (drop k s ++ rest) at, p.leaves buf (drop k s ++ rest) at)
