-- ===== src/Console/Tokens/Sizes.antt =====
-- The sizes of what ParseToken of src/shared.c and the loops of Cmd_TokenizeString of src/cmd.c take from a text.
use quake2world.Prelude.{
  ℕ, ◌≤◌, ◌≡◌, Bool, Bool-cases, inl, inr, true, false, ◌&&◌, List, [], ◌∷◌, arith, length, leb,
  ◌==◌,
}
use quake2world.UserInfo.{quote, has_byte}
use quake2world.Console.Tokens.{
  slash, newline, starts_with, max_token_chars, is_white, Place, null, at, past_nul, Parsed, token,
  token_overflow, skip_white, close_quote, word_end, quoted_token, token_at, parse_token,
  skip_blank,
}

-- `r` is no longer than `s`, and has a quotation mark only if `s` has one.
pub record Within (r s : List ℕ) : Type 0 where
  pub shorter : length r ≤ length s
  pub quotes : has_byte quote r ≡ true → has_byte quote s ≡ true

pub here : (s : List ℕ) → Within s s
here s = record { shorter = omega arith; quotes = λ q. q }

pub behind : (c : ℕ) (r s : List ℕ) → Within r s → Within r (c ∷ s)
behind c r s w = record {
  shorter = omega (arith, w.shorter);
  quotes = λ q. ground (arith, w.quotes q);
}

skip_white-Within : (b : Bool) (s : List ℕ) → Within (skip_white b s) s
unfolding skip_white
skip_white-Within true [] = here []
skip_white-Within true (c ∷ s) = elim (Bool-cases (c == newline)) [
  | inl e ↦ rw (e) (behind c (skip_white false s) s (skip_white-Within false s))
  | inr e ↦ rw (e) (behind c (skip_white true s) s (skip_white-Within true s))
]
skip_white-Within false [] = here []
skip_white-Within false (c ∷ s) = elim (Bool-cases (is_white c)) [
  | inl e ↦ rw (e) (behind c (skip_white false s) s (skip_white-Within false s))
  | inr e ↦ elim (Bool-cases (c == slash && starts_with slash s)) [
    | inl f ↦ rw (e, f) (behind c (skip_white true s) s (skip_white-Within true s))
    | inr f ↦ rw (e, f) (here (c ∷ s))
  ]
]

pub skip_blank-Within : (s : List ℕ) → Within (skip_blank s) s
unfolding skip_blank
skip_blank-Within [] = here []
skip_blank-Within (c ∷ s) = elim (Bool-cases (is_white c)) [
  | inl e ↦ elim (Bool-cases (c == newline)) [
    | inl f ↦ rw (e, f) (record { shorter = omega arith; quotes = λ q. absurd (cc q) })
    | inr f ↦ rw (e, f) (behind c (skip_blank s) s (skip_blank-Within s))
  ]
  | inr e ↦ rw (e) (here (c ∷ s))
]

word_end-Within : (s : List ℕ) → Within (word_end s).1 s
unfolding word_end
word_end-Within [] = here []
word_end-Within (c ∷ s) = elim (Bool-cases (is_white c)) [
  | inl e ↦ rw (e) (here (c ∷ s))
  | inr e ↦ rw (e) (behind c (word_end s).1 s (word_end-Within s))
]

-- The place behind a token of `s`
abbrev pub PlaceWithin : List ℕ → Place → Type 0
PlaceWithin s null = ⊥
PlaceWithin s (at r) = Within r s
PlaceWithin s past_nul = has_byte quote s ≡ true

abbrev pub ParsedWithin : List ℕ → Parsed → Type 0
ParsedWithin s (token [] p) = Unit
ParsedWithin s (token (c ∷ t) p) = PlaceWithin s p
ParsedWithin s token_overflow = has_byte quote s ≡ true

token-ParsedWithin : (s t : List ℕ) (p : Place) → PlaceWithin s p → ParsedWithin s (token t p)
token-ParsedWithin s [] p h = tt
token-ParsedWithin s (c ∷ t) p h = h

close_quote-Place :
    (s u : List ℕ) → length s ≤ length u → has_byte quote u ≡ true → PlaceWithin u (close_quote s).1
unfolding close_quote
close_quote-Place [] u h q = q
close_quote-Place (c ∷ s) u h q = elim (Bool-cases (c == quote)) [
  | inl e ↦ rw (e) (record { shorter = omega (arith, h); quotes = λ r. q })
  | inr e ↦ rw (e) (close_quote-Place s u (omega (arith, h)) q)
]

quoted-ParsedWithin :
    (s word : List ℕ) (p : Place)
    → has_byte quote s ≡ true
    → PlaceWithin s p
    → ParsedWithin s (quoted_token (word, p))
quoted-ParsedWithin s word p q h = elim (Bool-cases (leb max_token_chars (length word))) [
  | inl e ↦ rw (e) q
  | inr e ↦ rw (e) (token-ParsedWithin s word p h)
]

token_at-ParsedWithin : (s : List ℕ) → ParsedWithin s (token_at s)
unfolding token_at
token_at-ParsedWithin [] = tt
token_at-ParsedWithin (c ∷ s) = elim (Bool-cases (c == quote)) [
  | inl e ↦
      let q : has_byte quote (c ∷ s) ≡ true = ground (arith, e) in
      rw (e) (
        quoted-ParsedWithin (c ∷ s) (close_quote s).0 (close_quote s).1 q
          (close_quote-Place s (c ∷ s) (omega arith) q))
  | inr e ↦ rw (e) (token-ParsedWithin (c ∷ s) _ _ (behind c (word_end s).1 s (word_end-Within s)))
]

pub Within-trans : {r s u : List ℕ} → Within r s → Within s u → Within r u
Within-trans a b = record {
  shorter = omega (arith, a.shorter, b.shorter);
  quotes = λ q. b.quotes (a.quotes q);
}

Place-mono : (p : Place) {r s : List ℕ} → Within r s → PlaceWithin r p → PlaceWithin s p
Place-mono null w h = h
Place-mono (at x) w h = Within-trans h w
Place-mono past_nul w h = w.quotes h

pub Parsed-mono : (p : Parsed) {r s : List ℕ} → Within r s → ParsedWithin r p → ParsedWithin s p
Parsed-mono (token [] p) w h = tt
Parsed-mono (token (c ∷ t) p) w h = Place-mono p w h
Parsed-mono token_overflow w h = w.quotes h

pub parse_token-ParsedWithin : (s : List ℕ) → ParsedWithin s (parse_token s)
unfolding parse_token
parse_token-ParsedWithin s =
    Parsed-mono (token_at (skip_white false s)) (skip_white-Within false s)
      (token_at-ParsedWithin (skip_white false s))
