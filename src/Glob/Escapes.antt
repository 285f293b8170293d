-- ===== src/Glob/Escapes.antt =====
-- What GlobMatch of src/shared.c makes of a backslash at the end of a pattern, and in a set.
use quake2world.Prelude.{
  ℕ, zero, suc, ◌+◌, ◌<◌, ◌≡◌, refl, ◌∙◌, Bool, true, false, not, ◌&&◌, ◌||◌, List, [], ◌∷◌, ◌++◌,
  arith, length, length-append, ◌==◌,
}
use quake2world.Glob.{
  overrun, question, star, open_set, close_set, escape, dash, is_inversion, char_leb, range_from,
  read_item, passed, skip_set, invert_scan, test_item, set_loop, scan_set, match_escaped,
  match_char, match_loop, glob_match, Matcher,
}

-- A character that stands for itself, in a set too.
abbrev pub is_plain : ℕ → Bool
is_plain c = not (
    c == 0
    || c == question
    || c == star
    || c == open_set
    || c == close_set
    || c == escape
    || c == dash
    || is_inversion c)

abbrev pub all_plain : List ℕ → Bool
all_plain [] = true
all_plain (c ∷ l) = is_plain c && all_plain l

plain_char :
    (try : Matcher) (c : ℕ) (p t : List ℕ)
    → is_plain c ≡ true
    → match_char try c p (c ∷ t) ≡ try p t
unfolding match_char
plain_char try c p t h =
    let q : (c == question) ≡ false = ground (arith, h) in
    let e : (c == escape) ≡ false = ground (arith, h) in
    let s : (c == star) ≡ false = ground (arith, h) in
    let o : (c == open_set) ≡ false = ground (arith, h) in
    let same : (c == c) ≡ true = ground arith in rw (q, e, s, o, same) refl

overrun_loop :
    (fuel : ℕ) (l : List ℕ)
    → all_plain l ≡ true
    → length l + 1 < fuel
    → match_loop fuel (l ++ (escape ∷ [])) l ≡ overrun
unfolding match_loop match_char match_escaped
overrun_loop zero l h f = absurd (omega (arith, f))
overrun_loop (suc fuel) [] h f = refl
overrun_loop (suc fuel) (c ∷ l) h f =
    plain_char (match_loop fuel) c (l ++ (escape ∷ [])) l (ground (arith, h))
    ∙ overrun_loop fuel l (ground (arith, h)) (omega (arith, f))

-- A backslash at the end of a pattern that is plain before it makes GlobMatch read past the NUL of the pattern when
-- the text is what is before the backslash.
pub overrun_at_escape :
    (l : List ℕ) → all_plain l ≡ true → glob_match (l ++ (escape ∷ [])) l ≡ overrun
unfolding glob_match
overrun_at_escape l h =
    overrun_loop (suc (length (l ++ (escape ∷ [])))) l h
      (omega (arith, length-append l (escape ∷ [])))

skip_close : (p : List ℕ) → skip_set close_set p ≡ passed p
unfolding skip_set
skip_close [] = refl
skip_close (x ∷ []) = refl
skip_close (x ∷ y ∷ p) = refl

skip_escaped : (p : List ℕ) → skip_set escape (close_set ∷ p) ≡ passed p
unfolding skip_set
skip_escaped [] = refl
skip_escaped (x ∷ p) = skip_close (x ∷ p)

escaped_turn :
    (fuel c : ℕ) (p : List ℕ)
    → is_plain c ≡ true
    → 0 < fuel
    → set_loop fuel false c c (escape ∷ close_set ∷ p) ≡ passed p
unfolding set_loop test_item read_item range_from invert_scan
escaped_turn zero c p h f = absurd (omega (arith, f))
escaped_turn (suc fuel) c p h f =
    let e : (c == escape) ≡ false = ground (arith, h) in
    let z : (c == 0) ≡ false = ground (arith, h) in
    let same : char_leb c c ≡ true = ground arith in rw (e, z, same) (skip_escaped p)

-- If the character matches the range right before an escaped `]` of a set, the set ends at that `]`, which is
-- to be a member of it.
pub escaped_close_ends :
    (c : ℕ) (p : List ℕ) → is_plain c ≡ true → scan_set c (c ∷ escape ∷ close_set ∷ p) ≡ passed p
unfolding scan_set
escaped_close_ends c p h =
    let i : is_inversion c ≡ false = ground (arith, h) in
    rw (i) (escaped_turn (length (c ∷ escape ∷ close_set ∷ p) + 2) c p h (omega arith))
