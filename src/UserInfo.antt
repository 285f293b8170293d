-- ===== src/UserInfo.antt =====
-- The user-info strings of src/shared.c, lists of keys and values such as \name\newbie\skin\ichabod.
-- A string is its bytes before the NUL. Fuel stands for the loops, which go on to a later
-- place in the string each time: more fuel than bytes is enough.
pub mod Pairs
pub mod Lookup
pub mod Update
pub mod GetSet
mod Tests
use quake2world.Prelude.{
  ℕ, zero, suc, ◌+◌, ◌-◌, ◌%◌, Bool, true, false, not, ◌&&◌, ◌||◌, List, [], ◌∷◌, ◌++◌, ltb, leb,
  ◌==◌, if◌then◌else◌, length, take,
}

-- the backslash, the semicolon and the quotation mark
abbrev pub bs : ℕ
bs = 92

abbrev pub semicolon : ℕ
semicolon = 59

abbrev pub quote : ℕ
quote = 34

abbrev pub max_user_info_string : ℕ
max_user_info_string = 512

-- `!g_strcmp0(a, b)`
abbrev pub str_eq : List ℕ → List ℕ → Bool
str_eq [] [] = true
str_eq [] (b ∷ t) = false
str_eq (a ∷ s) [] = false
str_eq (a ∷ s) (b ∷ t) = a == b && str_eq s t

-- `strstr` of a string of one byte
abbrev pub has_byte : ℕ → List ℕ → Bool
has_byte c [] = false
has_byte c (x ∷ s) = x == c || has_byte c s

abbrev pub strip : List ℕ → List ℕ
strip [] = []
strip (c ∷ s) = if c == bs then s else c ∷ s

-- What stands before the next backslash, and the string from there.
unfoldable pub span : List ℕ → List ℕ × List ℕ
span [] = ([], [])
span (c ∷ s) = let (word, rest) = span s in if c == bs then ([], c ∷ s) else (c ∷ word, rest)

-- The loop of GetUserInfo; `more` goes round once more, from behind a backslash.
abbrev pub next_pair : (List ℕ → List ℕ) → List ℕ → List ℕ
next_pair more [] = []
next_pair more (c ∷ s) = more s

abbrev pub get_value : List ℕ → List ℕ → (List ℕ → List ℕ) → List ℕ × List ℕ → List ℕ
get_value key pkey more (value, s) = if str_eq key pkey then value else next_pair more s

abbrev pub get_key : List ℕ → (List ℕ → List ℕ) → List ℕ × List ℕ → List ℕ
get_key key more (pkey, []) = []
get_key key more (pkey, c ∷ s) = get_value key pkey more (span s)

unfoldable pub get_loop : ℕ → List ℕ → List ℕ → List ℕ
get_loop zero key s = []
get_loop (suc fuel) key s = get_key key (get_loop fuel key) (span s)

unfoldable pub get_user_info : List ℕ → List ℕ → List ℕ
unfolding get_loop span
get_user_info s key = get_loop (suc (length s)) key (strip s)

-- The loop of DeleteUserInfo, from `start` on: the bytes of a pair that stays are those between
-- `start` and the string behind it.
abbrev pub keep_pair : List ℕ → (List ℕ → List ℕ) → List ℕ → List ℕ
keep_pair start more [] = start
keep_pair start more (c ∷ s) = take (length start - length (c ∷ s)) start ++ more (c ∷ s)

abbrev pub delete_value : List ℕ → List ℕ → List ℕ → (List ℕ → List ℕ) → List ℕ × List ℕ → List ℕ
delete_value key start pkey more (value, s) = if str_eq key pkey then s else keep_pair start more s

abbrev pub delete_key : List ℕ → List ℕ → (List ℕ → List ℕ) → List ℕ × List ℕ → List ℕ
delete_key key start more (pkey, []) = start
delete_key key start more (pkey, c ∷ s) = delete_value key start pkey more (span s)

unfoldable pub delete_loop : ℕ → List ℕ → List ℕ → List ℕ
delete_loop zero key start = start
delete_loop (suc fuel) key start = delete_key key start (delete_loop fuel key) (span (strip start))

unfoldable pub delete_user_info : List ℕ → List ℕ → List ℕ
unfolding delete_loop span
delete_user_info s key = if has_byte bs key then s else delete_loop (suc (length s)) key s

unfoldable pub validate_user_info : List ℕ → Bool
validate_user_info [] = false
validate_user_info (c ∷ s) = not (has_byte quote (c ∷ s)) && not (has_byte semicolon (c ∷ s))

-- "\\%s\\%s"
abbrev pub new_pair : List ℕ → List ℕ → List ℕ
new_pair key value = bs ∷ (key ++ (bs ∷ value))

-- the high bit stripped, and only the printable bytes kept
unfoldable pub copy_ascii : List ℕ → List ℕ
copy_ascii [] = []
copy_ascii (v ∷ vs) =
    let c = v % 128 in let rest = copy_ascii vs in if leb 32 c && ltb c 127 then c ∷ rest else rest

-- the tests that make SetUserInfo return before it changes the string
abbrev pub is_refused : List ℕ → List ℕ → Bool
is_refused key value =
    (has_byte bs key || has_byte bs value)
    || has_byte semicolon key
    || (has_byte quote key || has_byte quote value)
    || (ltb 63 (length key) || ltb 63 (length value))

abbrev pub append_pair : List ℕ → List ℕ → List ℕ → List ℕ
append_pair s key [] = s
append_pair s key (c ∷ value) =
    if ltb max_user_info_string (length (new_pair key (c ∷ value)) + length s)
    then s
    else s ++ copy_ascii (new_pair key (c ∷ value))

unfoldable pub set_user_info : List ℕ → List ℕ → List ℕ → List ℕ
unfolding delete_user_info copy_ascii
set_user_info s key value =
    if is_refused key value then s else append_pair (delete_user_info s key) key value
