-- ===== src/Glob.antt =====
-- GlobMatch and GlobMatchStar of src/shared.c: a text against a pattern with wildcards. A string is
-- the list of its characters before the NUL.
pub mod Scans
pub mod Sets
pub mod Skipping
pub mod SetItems
pub mod SetScans
pub mod Matching
pub mod Stars
pub mod Decides
pub mod Escapes
mod Tests
use quake2world.Prelude.{
  ℕ, zero, suc, ◌+◌, ◌%◌, Bool, true, false, not, ◌&&◌, ◌||◌, List, [], ◌∷◌, length, ltb, leb, ◌==◌,
  if◌then◌else◌,
}

-- What a match ends in: its answer, a read past the NUL of the pattern, or a loop that has not ended
-- within its fuel.
pub data Verdict : Type 0 where
  answer : Bool → Verdict
  overrun : Verdict
  unfinished : Verdict

-- The characters that are special, `?`, `*`, `[`, `]`, `\`, `-`, `!` and `^`
abbrev pub question : ℕ
question = 63

abbrev pub star : ℕ
star = 42

abbrev pub open_set : ℕ
open_set = 91

abbrev pub close_set : ℕ
close_set = 93

abbrev pub escape : ℕ
escape = 92

abbrev pub dash : ℕ
dash = 45

abbrev pub is_inversion : ℕ → Bool
is_inversion c = c == 33 || c == 94

-- `*p`, the NUL at the end, and what `p++` leaves
abbrev pub char_at : List ℕ → ℕ
char_at [] = 0
char_at (c ∷ p) = c

abbrev pub past : List ℕ → List ℕ
past [] = []
past (c ∷ p) = p

-- `a <= b` of chars, which are signed
abbrev pub char_leb : ℕ → ℕ → Bool
char_leb a b = leb ((a + 128) % 256) ((b + 128) % 256)

-- What is read of a set up to the next test of its loop: `return 0`, a read past the NUL, or a range
-- with the character after it and the rest of the pattern.
pub data Item : Type 0 where
  bad_item : Item
  item_overrun : Item
  range : (cstart cend c : ℕ) → List ℕ → Item

unfoldable pub range_end : ℕ → List ℕ → Item
range_end cstart p =
    let cend = if char_at p == escape then char_at (past p) else char_at p in
    let rest = if char_at p == escape then past (past p) else past p in
    if cend == 0 then bad_item else range cstart cend (char_at rest) (past rest)

unfoldable pub range_from : ℕ → List ℕ → Item
range_from cstart p =
    if char_at p == dash && not (char_at (past p) == close_set)
    then range_end cstart (past p)
    else range cstart cstart (char_at p) (past p)

unfoldable pub read_item : ℕ → List ℕ → Item
read_item c [] = if c == escape then item_overrun else if c == 0 then bad_item else range_from c []
read_item c (x ∷ p) =
    if c == escape then range_from x p else if c == 0 then bad_item else range_from c (x ∷ p)

-- What a set makes of a character: `return 0`, a read past the NUL, or the pattern after the set.
pub data Scan : Type 0 where
  refused : Scan
  scan_overrun : Scan
  scan_unfinished : Scan
  passed : List ℕ → Scan

-- The rest of the set after a range that the character is in.
unfoldable pub skip_set : ℕ → List ℕ → Scan
skip_set c [] = if c == close_set then passed [] else refused
skip_set c (x ∷ []) =
    if c == close_set
    then passed (x ∷ [])
    else if c == 0 || x == 0
    then refused
    else if x == escape
    then scan_overrun
    else skip_set x []
skip_set c (x ∷ y ∷ p) =
    let escaped = skip_set x p in
    let next = skip_set x (y ∷ p) in
    if c == close_set
    then passed (x ∷ y ∷ p)
    else if c == 0 || x == 0
    then refused
    else if x == escape
    then escaped
    else next

unfoldable pub invert_scan : Bool → Scan → Scan
invert_scan true (passed p) = refused
invert_scan true refused = refused
invert_scan true scan_overrun = scan_overrun
invert_scan true scan_unfinished = scan_unfinished
invert_scan false s = s

-- What follows from the next item of a set, `c1` being the character of the text.
unfoldable pub test_item : (ℕ → List ℕ → Scan) → Bool → ℕ → Item → Scan
test_item next invert c1 bad_item = refused
test_item next invert c1 item_overrun = scan_overrun
test_item next invert c1 (range cstart cend c rest) =
    if char_leb cstart c1 && char_leb c1 cend
    then invert_scan invert (skip_set c rest)
    else if c == close_set
    then if invert then passed rest else refused
    else next c rest

-- `c` is the character last read of the pattern.
unfoldable pub set_loop : ℕ → Bool → ℕ → ℕ → List ℕ → Scan
set_loop zero invert c1 c p = scan_unfinished
set_loop (suc fuel) invert c1 c p = test_item (set_loop fuel invert c1) invert c1 (read_item c p)

unfoldable pub scan_set : ℕ → List ℕ → Scan
scan_set c1 p =
    let invert = is_inversion (char_at p) in
    let q = if invert then past p else p in set_loop (length p + 2) invert c1 (char_at q) (past q)

abbrev pub Matcher : Type 0
Matcher = List ℕ → List ℕ → Verdict

unfoldable pub or_else : Verdict → Verdict → Verdict
or_else (answer true) r = answer true
or_else (answer false) r = r
or_else overrun r = overrun
or_else unfinished r = unfinished

-- GlobMatchStar's last loop, with `q` the pattern from the first character that is no wildcard
unfoldable pub star_loop : Matcher → List ℕ → Bool → ℕ → List ℕ → Verdict
star_loop try q is_set c1 [] =
    if is_set || 0 == c1 then or_else (try q []) (answer false) else answer false
star_loop try q is_set c1 (x ∷ t) =
    let rest = star_loop try q is_set c1 t in
    if is_set || x == c1 then or_else (try q (x ∷ t)) rest else rest

unfoldable pub glob_match_star : Matcher → List ℕ → List ℕ → Verdict
glob_match_star try [] t = answer true
glob_match_star try (c ∷ p) [] =
    let rest = glob_match_star try p [] in
    if c == question
    then answer false
    else if c == star
    then rest
    else star_loop try (c ∷ p) (c == open_set) (if c == escape then char_at p else c) []
glob_match_star try (c ∷ p) (x ∷ t) =
    let one_less = glob_match_star try p t in
    let rest = glob_match_star try p (x ∷ t) in
    if c == question
    then one_less
    else if c == star
    then rest
    else star_loop try (c ∷ p) (c == open_set) (if c == escape then char_at p else c) (x ∷ t)

-- On from a set
unfoldable pub after_set : Matcher → Scan → List ℕ → Verdict
after_set try refused t = answer false
after_set try scan_overrun t = overrun
after_set try scan_unfinished t = unfinished
after_set try (passed p) t = try p t

-- `*p++ != *t++` after a backslash, where both may be the NUL
unfoldable pub match_escaped : Matcher → List ℕ → List ℕ → Verdict
match_escaped try [] [] = overrun
match_escaped try [] (x ∷ t) = answer false
match_escaped try (y ∷ p) [] = answer false
match_escaped try (y ∷ p) (x ∷ t) = if y == x then try p t else answer false

unfoldable pub match_char : Matcher → ℕ → List ℕ → List ℕ → Verdict
match_char try c p [] =
    if c == escape
    then match_escaped try p []
    else if c == star
    then glob_match_star try p []
    else answer false
match_char try c p (x ∷ t) =
    if c == question
    then try p t
    else if c == escape
    then match_escaped try p (x ∷ t)
    else if c == star
    then glob_match_star try p (x ∷ t)
    else if c == open_set
    then after_set try (scan_set x p) t
    else if c == x
    then try p t
    else answer false

unfoldable pub match_loop : ℕ → Matcher
match_loop zero p t = unfinished
match_loop (suc fuel) [] [] = answer true
match_loop (suc fuel) [] (x ∷ t) = answer false
match_loop (suc fuel) (c ∷ p) t = match_char (match_loop fuel) c p t

unfoldable pub glob_match : Matcher
glob_match p t = match_loop (suc (length p)) p t
