-- ===== src/Glob/Stars.antt =====
-- GlobMatchStar of src/shared.c is right if the matcher it tries is.
use quake2world.Prelude.{
  ℕ, ◌<◌, ◌≡◌, ◌≢◌, refl, ap, ◌⊎◌, inl, inr, Bool, Bool-cases, true, false, ◌||◌, List, [], ◌∷◌,
  arith, length, ◌==◌, if◌then◌else◌,
}
use quake2world.Glob.{
  Verdict, answer, overrun, unfinished, question, star, open_set, escape, char_at, Matcher, or_else,
  star_loop, glob_match_star,
}
use quake2world.Glob.Scans.{has_escape}
use quake2world.Glob.Matching.{
  Matches, leave, take, at_end, escaped_inv, plain_inv, Starred, star_cases, star_end, all_taken,
  one_star, more_stars, drop_question, add_question,
}

-- A verdict that is right about `G`; only a pattern with a backslash is overrun.
abbrev pub Judges : Type 0 → Bool → Verdict → Type 0
Judges G escapes (answer true) = G
Judges G escapes (answer false) = ¬ G
Judges G escapes overrun = escapes ≡ true
Judges G escapes unfinished = ⊥

pub Judges-iff :
    {G H : Type 0} {e e' : Bool} (v : Verdict)
    → (G → H)
    → (H → G)
    → (e ≡ true → e' ≡ true)
    → Judges G e v
    → Judges H e' v
Judges-iff (answer true) f g h j = f j
Judges-iff (answer false) f g h j = λ x. j (g x)
Judges-iff overrun f g h j = h j
Judges-iff unfinished f g h j = j

Judges-or :
    {A B G : Type 0} (e : Bool) (v w : Verdict)
    → (A → G)
    → (B → G)
    → (G → A ⊎ B)
    → Judges A e v
    → Judges B e w
    → Judges G e (or_else v w)
unfolding or_else
Judges-or e (answer true) w f g k a b = f a
Judges-or e (answer false) w f g k a b =
    Judges-iff w g (λ x. elim (k x) [ inl y ↦ absurd (a y) | inr z ↦ z ]) (λ h. h) b
Judges-or e overrun w f g k a b = a
Judges-or e unfinished w f g k a b = absurd a

-- `try` is right about the patterns of less than `n` characters.
abbrev pub IsRight : ℕ → Matcher → Type 0
IsRight n try = (q t : List ℕ) → length q < n → Judges (Matches q t) (has_escape q) (try q t)

leads :
    (c : ℕ) (p : List ℕ) (x : ℕ) (t : List ℕ)
    → c ≢ question
    → c ≢ star
    → Matches (c ∷ p) (x ∷ t)
    → (c == open_set || x == (if c == escape then char_at p else c)) ≡ true
leads c p x t nq ns m = elim (Bool-cases (c == open_set)) [
  | inl o ↦ rw (o) refl
  | inr o ↦ elim (Bool-cases (c == escape)) [
    | inl e ↦
        let (r, q, d) = escaped_inv (ground (arith, e)) m in
        let at : char_at p ≡ x = ap char_at q in rw (o, e) (ground (arith, at))
    | inr e ↦
        let (s, d) = plain_inv nq (λ z. ground (arith, z, e)) ns (λ z. ground (arith, z, o)) m in
        rw (o, e) (ground (arith, s))
  ]
]

module _ (try : Matcher) (c : ℕ) (p : List ℕ) (is_set : Bool) (c1 : ℕ) (escapes : Bool) where
  star_loop-Judges :
      (t : List ℕ)
      → c ≢ star
      → ((x : ℕ) (u : List ℕ) → Matches (c ∷ p) (x ∷ u) → (is_set || x == c1) ≡ true)
      → ((u : List ℕ) → Judges (Matches (c ∷ p) u) escapes (try (c ∷ p) u))
      → Judges (Starred (c ∷ p) t) escapes (star_loop try (c ∷ p) is_set c1 t)
  unfolding star_loop
  star_loop-Judges [] ns lead right = elim (Bool-cases (is_set || 0 == c1)) [
    | inl l ↦ rw (l) (
        Judges-or {B = ⊥} escapes (try (c ∷ p) []) (answer false) (λ m. leave refl m)
          (λ b. absurd b) (λ s. inl (star_end s)) (right []) (λ b. b))
    | inr l ↦ rw (l) (λ s. ns (at_end (star_end s)).0)
  ]
  star_loop-Judges (x ∷ t) ns lead right =
      let rest = star_loop-Judges t ns lead right in
      elim (Bool-cases (is_set || x == c1)) [
        | inl l ↦ rw (l) (
            Judges-or escapes (try (c ∷ p) (x ∷ t)) (star_loop try (c ∷ p) is_set c1 t)
              (λ m. leave refl m) (λ s. take refl s) star_cases (right (x ∷ t)) rest)
        | inr l ↦ rw (l) (
            Judges-iff (star_loop try (c ∷ p) is_set c1 t) (λ s. take refl s)
              (λ s. elim (star_cases s) [
                | inl m ↦ absurd (ground (arith, lead x t m, l))
                | inr r ↦ r
              ])
              (λ h. h) rest)
      ]

pub more_escapes : (c : ℕ) (p : List ℕ) → has_escape p ≡ true → has_escape (c ∷ p) ≡ true
more_escapes c p h = ground (arith, h)

-- At a character that is no wildcard, the rest of the star's search.
at_char-Judges :
    (n : ℕ) (try : Matcher) (c : ℕ) (p t : List ℕ)
    → IsRight n try
    → length (c ∷ p) < n
    → c ≢ question
    → c ≢ star
    → Judges
        (Starred (c ∷ p) t)
        (has_escape (c ∷ p))
        (star_loop try (c ∷ p) (c == open_set) (if c == escape then char_at p else c) t)
at_char-Judges n try c p t right h nq ns =
    star_loop-Judges try c p (c == open_set) (if c == escape then char_at p else c)
      (has_escape (c ∷ p)) t ns (λ x u m. leads c p x u nq ns m) λ u. right (c ∷ p) u h

pub glob_match_star-Judges :
    (n : ℕ) (try : Matcher) (p t : List ℕ)
    → IsRight n try
    → length p < n
    → Judges (Starred p t) (has_escape p) (glob_match_star try p t)
unfolding glob_match_star
glob_match_star-Judges n try [] t right h = all_taken t
glob_match_star-Judges n try (c ∷ p) [] right h = elim (Bool-cases (c == question)) [
  | inl q ↦ rw (q) (λ s. ground (arith, q, (at_end (star_end s)).0))
  | inr q ↦ elim (Bool-cases (c == star)) [
    | inl s ↦
        let k : c ≡ star = ground (arith, s) in
        rw (q, s)
          (Judges-iff (glob_match_star try p []) (more_stars [] c p k) (one_star [] c p k)
            (more_escapes c p) (glob_match_star-Judges n try p [] right (omega (arith, h))))
    | inr s ↦
        rw (q, s)
          (at_char-Judges n try c p [] right h (λ z. ground (arith, z, q))
            (λ z. ground (arith, z, s)))
  ]
]
glob_match_star-Judges n try (c ∷ p) (x ∷ t) right h = elim (Bool-cases (c == question)) [
  | inl q ↦
      let k : c ≡ question = ground (arith, q) in
      rw (q) (
        Judges-iff (glob_match_star try p t) (add_question t c x p k) (drop_question t c x p k)
          (more_escapes c p) (glob_match_star-Judges n try p t right (omega (arith, h))))
  | inr q ↦ elim (Bool-cases (c == star)) [
    | inl s ↦
        let k : c ≡ star = ground (arith, s) in
        rw (q, s)
          (Judges-iff (glob_match_star try p (x ∷ t)) (more_stars (x ∷ t) c p k)
            (one_star (x ∷ t) c p k) (more_escapes c p)
            (glob_match_star-Judges n try p (x ∷ t) right (omega (arith, h))))
    | inr s ↦
        rw (q, s)
          (at_char-Judges n try c p (x ∷ t) right h (λ z. ground (arith, z, q))
            (λ z. ground (arith, z, s)))
  ]
]
