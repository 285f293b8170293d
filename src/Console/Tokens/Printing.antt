-- ===== src/Console/Tokens/Printing.antt =====
-- A command line as items that are printed, and what ParseToken of src/shared.c reads of it.
use quake2world.Prelude.{
  ℕ, zero, suc, ◌≤◌, ◌≡◌, refl, sym, ap, ◌∙◌, subst, Bool, true, false, not, ◌&&◌, List, [], ◌∷◌,
  ◌++◌, append-nil, append_assoc, arith, length, leb, ltb, ◌==◌, if_false, take,
}
use quake2world.UserInfo.{quote, has_byte}
use quake2world.Console.Tokens.{
  space, slash, dollar, max_token_chars, is_white, starts_with, at, token, token_overflow,
  skip_white, close_quote, word_end, quoted_token, token_at, parse_token, skip_blank, strip_one,
  strip_end,
}

-- A token as it is printed, with quotation marks or without.
pub data Item : Type 0 where
  word : List ℕ → Item
  quoted : List ℕ → Item

abbrev pub text : Item → List ℕ
text (word t) = t
text (quoted t) = t

abbrev pub show : Item → List ℕ
show (word t) = t
show (quoted t) = quote ∷ (t ++ (quote ∷ []))

abbrev pub texts : List Item → List (List ℕ)
texts [] = []
texts (i ∷ l) = text i ∷ texts l

abbrev pub spaced : List Item → List ℕ
spaced [] = []
spaced (i ∷ l) = space ∷ (show i ++ spaced l)

abbrev pub print_items : List Item → List ℕ
print_items [] = []
print_items (i ∷ l) = show i ++ spaced l

abbrev pub no_white : List ℕ → Bool
no_white [] = true
no_white (c ∷ s) = not (is_white c) && no_white s

-- The item can be printed: not empty, not too long, no variable, and a word has no white space and starts neither
-- a quoted token nor a comment.
abbrev pub is_item : Item → Bool
is_item (word []) = false
is_item (word (c ∷ t)) =
    no_white (c ∷ t)
    && not (c == quote)
    && not (c == dollar)
    && not (c == slash && starts_with slash t)
    && ltb (length (c ∷ t)) max_token_chars
is_item (quoted []) = false
is_item (quoted (c ∷ t)) =
    not (has_byte quote (c ∷ t)) && not (c == dollar) && ltb (length (c ∷ t)) max_token_chars

abbrev pub are_items : List Item → Bool
are_items [] = true
are_items (i ∷ l) = is_item i && are_items l

close_quote-end :
    (t rest : List ℕ) → has_byte quote t ≡ false → close_quote (t ++ (quote ∷ rest)) ≡ (t, at rest)
unfolding close_quote
close_quote-end [] rest h = refl
close_quote-end (c ∷ t) rest h = ground (arith, close_quote-end t rest)

-- What stands behind an item ends a word.
abbrev EndsWord : List ℕ → Type 0
EndsWord rest = word_end rest ≡ ([], rest)

word_end-word :
    (t rest : List ℕ) → no_white t ≡ true → EndsWord rest → word_end (t ++ rest) ≡ (t, rest)
unfolding word_end
word_end-word [] rest h e = e
word_end-word (c ∷ t) rest h e =
    let w : is_white c ≡ false = ground (arith, h) in
    let later = word_end-word t rest (ground (arith, h)) e in rw (w, later) refl

spaced-EndsWord : (l : List Item) → EndsWord (spaced l)
unfolding word_end
spaced-EndsWord [] = refl
spaced-EndsWord (i ∷ l) = refl

starts-append :
    (c : ℕ) (t rest : List ℕ)
    → starts_with slash rest ≡ false
    → (c == slash && starts_with slash t) ≡ false
    → (c == slash && starts_with slash (t ++ rest)) ≡ false
starts-append c [] rest r h = ground (arith, r)
starts-append c (x ∷ t) rest r h = h

spaced-starts : (l : List Item) → starts_with slash (spaced l) ≡ false
spaced-starts [] = refl
spaced-starts (i ∷ l) = refl

pub parse_token-item :
    (i : Item) (l : List Item)
    → is_item i ≡ true
    → parse_token (show i ++ spaced l) ≡ token (text i) (at (spaced l))
unfolding parse_token skip_white token_at
parse_token-item (word []) l h = absurd (cc h)
parse_token-item (word (c ∷ t)) l h =
    let w : is_white c ≡ false = ground (arith, h) in
    let q : (c == quote) ≡ false = ground (arith, h) in
    let n : (c == slash && starts_with slash (t ++ spaced l)) ≡ false =
      starts-append c t (spaced l) (spaced-starts l) (ground (arith, h)) in
    let e = word_end-word t (spaced l) (ground (arith, h)) (spaced-EndsWord l) in
    let short : leb max_token_chars (length (c ∷ t)) ≡ false = ground (arith, h) in
    rw (w, n, q, e, short) refl
parse_token-item (quoted []) l h = absurd (cc h)
parse_token-item (quoted (c ∷ t)) l h =
    let e = close_quote-end (c ∷ t) (spaced l) (ground (arith, h)) in
    let short : leb max_token_chars (length (c ∷ t)) ≡ false = ground (arith, h) in
    ap (λ s. quoted_token (close_quote (c ∷ s))) (append_assoc t (quote ∷ []) (spaced l))
    ∙ ap quoted_token e
    ∙ if_false token_overflow (token (c ∷ t) (at (spaced l))) short

-- An item starts with no white space.
abbrev pub first_char : Item → ℕ
first_char (word []) = 0
first_char (word (c ∷ t)) = c
first_char (quoted t) = quote

abbrev pub shown_rest : Item → List ℕ → List ℕ
shown_rest (word []) rest = rest
shown_rest (word (c ∷ t)) rest = t ++ rest
shown_rest (quoted t) rest = (t ++ (quote ∷ [])) ++ rest

pub record Starts (i : Item) (rest : List ℕ) : Type 0 where
  pub is_black : is_white (first_char i) ≡ false
  pub splits : show i ++ rest ≡ first_char i ∷ shown_rest i rest

pub item-Starts : (i : Item) (rest : List ℕ) → is_item i ≡ true → Starts i rest
item-Starts (word []) rest h = absurd (cc h)
item-Starts (word (c ∷ t)) rest h = record { is_black = ground (arith, h); splits = refl }
item-Starts (quoted t) rest h = record { is_black = refl; splits = refl }

pub skip_blank-item :
    (i : Item) (rest : List ℕ) → is_item i ≡ true → skip_blank (show i ++ rest) ≡ show i ++ rest
unfolding skip_blank
skip_blank-item i rest h =
    let s = item-Starts i rest h in
    subst (λ t. skip_blank t ≡ t) (sym s.splits)
      (if_false _ (first_char i ∷ shown_rest i rest) s.is_black)

-- `args`
abbrev pub args_of : List Item → List ℕ
args_of [] = []
args_of (i ∷ l) = print_items l

abbrev ends_black : List ℕ → Bool
ends_black [] = false
ends_black (c ∷ []) = not (is_white c)
ends_black (c ∷ x ∷ s) = ends_black (x ∷ s)

pub strip_end-black : (s : List ℕ) → ends_black s ≡ true → strip_end s ≡ s
unfolding strip_end
strip_end-black [] h = refl
strip_end-black (c ∷ []) h = if_false [] (c ∷ []) (ground (arith, h))
strip_end-black (c ∷ x ∷ s) h = ap (strip_one c) (strip_end-black (x ∷ s) h)

append-black : (s t : List ℕ) → ends_black t ≡ true → ends_black (s ++ t) ≡ true
append-black [] t h = h
append-black (c ∷ []) [] h = absurd (cc h)
append-black (c ∷ []) (x ∷ t) h = h
append-black (c ∷ x ∷ s) t h = append-black (x ∷ s) t h

no_white-black : (c : ℕ) (t : List ℕ) → no_white (c ∷ t) ≡ true → ends_black (c ∷ t) ≡ true
no_white-black c [] h = ground (arith, h)
no_white-black c (x ∷ t) h = no_white-black x t (ground (arith, h))

show-black : (i : Item) → is_item i ≡ true → ends_black (show i) ≡ true
show-black (word []) h = absurd (cc h)
show-black (word (c ∷ t)) h = no_white-black c t (ground (arith, h))
show-black (quoted t) h = append-black (quote ∷ t) (quote ∷ []) refl

pub print_items-black :
    (i : Item) (l : List Item) → are_items (i ∷ l) ≡ true → ends_black (show i ++ spaced l) ≡ true
print_items-black i [] h =
    subst (λ s. ends_black s ≡ true) (sym (append-nil (show i))) (show-black i (ground (arith, h)))
print_items-black i (j ∷ l) h =
    append-black (show i) (spaced (j ∷ l))
      (append-black (space ∷ []) (show j ++ spaced l) (print_items-black j l (ground (arith, h))))

pub take-all : (n : ℕ) (t : List ℕ) → length t ≤ n → take n t ≡ t
take-all zero [] h = refl
take-all zero (c ∷ t) h = absurd (omega arith)
take-all (suc n) [] h = refl
take-all (suc n) (c ∷ t) h = ap (λ s. c ∷ s) (take-all n t (omega arith))
