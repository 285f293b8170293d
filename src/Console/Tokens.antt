-- ===== src/Console/Tokens.antt =====
-- ParseToken of src/shared.c and Cmd_TokenizeString of src/cmd.c. A string is its bytes before the
-- NUL; a byte from 128 on is a negative char, so it counts as white space.
pub mod Printing
pub mod RoundTrip
pub mod Sizes
pub mod Bounds
use quake2world.Prelude.{
  ℕ, zero, suc, ◌+◌, ◌-◌, Bool, true, false, not, ◌&&◌, ◌||◌, List, [], ◌∷◌, ◌++◌, ltb, leb, ◌==◌,
  if◌then◌else◌, length, take,
}
use quake2world.UserInfo.{quote, str_eq}

abbrev pub newline : ℕ
newline = 10

abbrev pub space : ℕ
space = 32

abbrev pub slash : ℕ
slash = 47

abbrev pub dollar : ℕ
dollar = 36

-- MAX_TOKEN_CHARS, MAX_STRING_TOKENS and MAX_STRING_CHARS
abbrev pub max_token_chars : ℕ
max_token_chars = 256

abbrev pub max_string_tokens : ℕ
max_string_tokens = 128

abbrev pub max_string_chars : ℕ
max_string_chars = 1024

-- `c <= ' '` of a char
abbrev pub is_white : ℕ → Bool
is_white c = leb c space || leb 128 c

abbrev pub starts_with : ℕ → List ℕ → Bool
starts_with c [] = false
starts_with c (x ∷ s) = x == c

-- Where `*data_p` points: nowhere, into the string, or past its NUL.
pub data Place : Type 0 where
  null : Place
  at : List ℕ → Place
  past_nul : Place

-- What ParseToken returns and leaves, or a NUL written one past the end of `token`.
pub data Parsed : Type 0 where
  token : List ℕ → Place → Parsed
  token_overflow : Parsed

-- White space and comments are skipped, true being inside a comment.
unfoldable pub skip_white : Bool → List ℕ → List ℕ
skip_white true [] = []
skip_white true (c ∷ s) =
    let out = skip_white false s in
    let inside = skip_white true s in if c == newline then out else inside
skip_white false [] = []
skip_white false (c ∷ s) =
    let more = skip_white false s in
    let comment = skip_white true s in
    if is_white c then more else if c == slash && starts_with slash s then comment else c ∷ s

-- What is before the closing quotation mark or the NUL, and the place behind either.
unfoldable pub close_quote : List ℕ → List ℕ × Place
close_quote [] = ([], past_nul)
close_quote (c ∷ s) =
    let (word, rest) = close_quote s in if c == quote then ([], at s) else (c ∷ word, rest)

-- The characters up to the next white space, and the rest.
unfoldable pub word_end : List ℕ → List ℕ × List ℕ
word_end [] = ([], [])
word_end (c ∷ s) =
    let (word, rest) = word_end s in if is_white c then ([], c ∷ s) else (c ∷ word, rest)

abbrev pub quoted_token : List ℕ × Place → Parsed
quoted_token (word, rest) =
    if leb max_token_chars (length word) then token_overflow else token word rest

abbrev pub word_token : List ℕ → List ℕ → Parsed
word_token word rest = token (if leb max_token_chars (length word) then [] else word) (at rest)

unfoldable pub token_at : List ℕ → Parsed
token_at [] = token [] null
token_at (c ∷ s) =
    if c == quote
    then quoted_token (close_quote s)
    else word_token (c ∷ (word_end s).0) (word_end s).1

unfoldable pub parse_token : List ℕ → Parsed
parse_token s = token_at (skip_white false s)

-- `cmd_args_t`; `argc` is the number of tokens.
pub record Args : Type 0 where
  pub argv : List (List ℕ)
  pub args : List ℕ

abbrev pub no_args : Args
no_args = record { argv = []; args = [] }

-- What Cmd_TokenizeString leaves; a read past the end of the text, or a write past the end of a
-- token; or a loop that has not ended.
pub data Tokenized : Type 0 where
  tokens : Args → Tokenized
  overflow : Tokenized
  overrun : Tokenized
  unfinished : Tokenized

-- `while (*text <= ' ')`, with the return at the NUL and at a newline as the empty rest
unfoldable pub skip_blank : List ℕ → List ℕ
skip_blank [] = []
skip_blank (c ∷ s) =
    let rest = skip_blank s in if is_white c then if c == newline then [] else rest else c ∷ s

-- The text without the white space at its end
abbrev strip_one : ℕ → List ℕ → List ℕ
strip_one c [] = if is_white c then [] else c ∷ []
strip_one c (x ∷ s) = c ∷ x ∷ s

unfoldable pub strip_end : List ℕ → List ℕ
strip_end [] = []
strip_end (c ∷ s) = strip_one c (strip_end s)

-- "alias"
abbrev pub alias_name : List ℕ
alias_name = 97 ∷ 108 ∷ 105 ∷ 97 ∷ 115 ∷ []

abbrev pub is_alias : List (List ℕ) → Bool
is_alias [] = false
is_alias (name ∷ argv) = str_eq name alias_name

module _ (variable : List ℕ → List ℕ) where
  -- `$name` is the string of the variable, but for the arguments of alias.
  unfoldable pub expand : List (List ℕ) → List ℕ → List ℕ
  expand argv [] = []
  expand argv (c ∷ t) = if c == dollar && not (is_alias argv) then variable t else c ∷ t

  -- From a character that is not white on.
  unfoldable pub add_token : (Args → Place → Tokenized) → Args → Parsed → Tokenized
  add_token next a token_overflow = overflow
  add_token next a (token [] rest) = tokens a
  add_token next a (token (c ∷ t) rest) =
      next (record a { argv = a.argv ++ (take (max_token_chars - 1) (expand a.argv (c ∷ t)) ∷ []) })
        rest

  unfoldable pub with_args : Args → List ℕ → Args
  with_args a s = record a { args = if length a.argv == 1 then strip_end s else a.args }

  unfoldable pub tokenize_from : (Args → Place → Tokenized) → Args → List ℕ → Tokenized
  tokenize_from next a [] = tokens a
  tokenize_from next a (c ∷ s) = add_token next (with_args a (c ∷ s)) (parse_token (c ∷ s))

  unfoldable pub tokenize_loop : ℕ → Args → Place → Tokenized
  tokenize_loop zero a place = unfinished
  tokenize_loop (suc fuel) a null = if length a.argv == max_string_tokens then tokens a else overrun
  tokenize_loop (suc fuel) a past_nul =
      if length a.argv == max_string_tokens then tokens a else overrun
  tokenize_loop (suc fuel) a (at s) =
      if length a.argv == max_string_tokens
      then tokens a
      else tokenize_from (tokenize_loop fuel) a (skip_blank s)

  unfoldable pub tokenize : List ℕ → Tokenized
  tokenize text =
      if leb max_string_chars (length text)
      then tokens no_args
      else tokenize_loop (suc max_string_tokens) no_args (at text)
