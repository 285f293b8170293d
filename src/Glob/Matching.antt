-- ===== src/Glob/Matching.antt =====
-- What it means for a text to match a pattern of GlobMatch in src/shared.c, with no order of search in it.
use quake2world.Prelude.{ℕ, ◌≡◌, ◌≢◌, refl, sym, subst, ◌⊎◌, inl, inr, List, [], ◌∷◌, arith}
use quake2world.Glob.{question, star, open_set, escape}
use quake2world.Glob.Sets.{SetTakes}

-- A pattern and a text that it uses up
pub data Matches : List ℕ → List ℕ → Type 0 where
  ended : Matches [] []
  any : {c x : ℕ} {p t : List ℕ} → c ≡ question → Matches p t → Matches (c ∷ p) (x ∷ t)
  escaped :
      {c x : ℕ} {p r t : List ℕ} → c ≡ escape → p ≡ x ∷ r → Matches r t → Matches (c ∷ p) (x ∷ t)
  leave : {c : ℕ} {p t : List ℕ} → c ≡ star → Matches p t → Matches (c ∷ p) t
  take : {c x : ℕ} {p t : List ℕ} → c ≡ star → Matches (c ∷ p) t → Matches (c ∷ p) (x ∷ t)
  in_set :
      {c x : ℕ} {p q t : List ℕ}
      → c ≡ open_set
      → SetTakes x p q
      → Matches q t
      → Matches (c ∷ p) (x ∷ t)
  plain :
      {c x : ℕ} {p t : List ℕ}
      → c ≢ question
      → c ≢ escape
      → c ≢ star
      → c ≢ open_set
      → c ≡ x
      → Matches p t
      → Matches (c ∷ p) (x ∷ t)

pub at_end : {c : ℕ} {p : List ℕ} → Matches (c ∷ p) [] → (c ≡ star) × Matches p []
at_end (leave e d) = (e, d)

pub nothing_left : {x : ℕ} {t : List ℕ} → ¬ Matches [] (x ∷ t)
nothing_left m = elim m [ ]

pub any_inv : {c x : ℕ} {p t : List ℕ} → c ≡ question → Matches (c ∷ p) (x ∷ t) → Matches p t
any_inv q (any e d) = d
any_inv q (escaped e f d) = absurd (omega (arith, q, e))
any_inv q (leave e d) = absurd (omega (arith, q, e))
any_inv q (take e d) = absurd (omega (arith, q, e))
any_inv q (in_set e s d) = absurd (omega (arith, q, e))
any_inv q (plain nq ne ns nb e d) = absurd (nq q)

pub escaped_inv :
    {c x : ℕ} {p t : List ℕ}
    → c ≡ escape
    → Matches (c ∷ p) (x ∷ t)
    → (r : List ℕ) × (p ≡ x ∷ r) × Matches r t
escaped_inv q (any e d) = absurd (omega (arith, q, e))
escaped_inv q (escaped e f d) = (_, f, d)
escaped_inv q (leave e d) = absurd (omega (arith, q, e))
escaped_inv q (take e d) = absurd (omega (arith, q, e))
escaped_inv q (in_set e s d) = absurd (omega (arith, q, e))
escaped_inv q (plain nq ne ns nb e d) = absurd (ne q)

pub set_inv :
    {c x : ℕ} {p t : List ℕ}
    → c ≡ open_set
    → Matches (c ∷ p) (x ∷ t)
    → (q : List ℕ) × SetTakes x p q × Matches q t
set_inv q (any e d) = absurd (omega (arith, q, e))
set_inv q (escaped e f d) = absurd (omega (arith, q, e))
set_inv q (leave e d) = absurd (omega (arith, q, e))
set_inv q (take e d) = absurd (omega (arith, q, e))
set_inv q (in_set e s d) = (_, s, d)
set_inv q (plain nq ne ns nb e d) = absurd (nb q)

pub plain_inv :
    {c x : ℕ} {p t : List ℕ}
    → c ≢ question
    → c ≢ escape
    → c ≢ star
    → c ≢ open_set
    → Matches (c ∷ p) (x ∷ t)
    → (c ≡ x) × Matches p t
plain_inv a b s o (any e d) = absurd (a e)
plain_inv a b s o (escaped e f d) = absurd (b e)
plain_inv a b s o (leave e d) = absurd (s e)
plain_inv a b s o (take e d) = absurd (s e)
plain_inv a b s o (in_set e q d) = absurd (o e)
plain_inv a b s o (plain nq ne ns nb e d) = (e, d)

-- A star takes any number of characters.
abbrev pub Starred : List ℕ → List ℕ → Type 0
Starred p t = Matches (star ∷ p) t

pub star_cases : {p t : List ℕ} {x : ℕ} → Starred p (x ∷ t) → Matches p (x ∷ t) ⊎ Starred p t
star_cases (leave e d) = inl d
star_cases (take e d) = inr d
star_cases (any e d) = absurd (omega (arith, e))
star_cases (escaped e f d) = absurd (omega (arith, e))
star_cases (in_set e q d) = absurd (omega (arith, e))
star_cases (plain nq ne ns nb e d) = absurd (ns refl)

pub star_end : {p : List ℕ} → Starred p [] → Matches p []
star_end d = (at_end d).1

pub all_taken : (t : List ℕ) → Starred [] t
all_taken [] = leave refl ended
all_taken (x ∷ t) = take refl (all_taken t)

pub one_star : (t : List ℕ) (c : ℕ) (p : List ℕ) → c ≡ star → Starred (c ∷ p) t → Starred p t
one_star [] c p e d = leave refl (star_end (subst (λ (k : ℕ). Matches (k ∷ p) []) e (star_end d)))
one_star (x ∷ t) c p e d = elim (star_cases d) [
  | inl m ↦ subst (λ (k : ℕ). Matches (k ∷ p) (x ∷ t)) e m
  | inr r ↦ take refl (one_star t c p e r)
]

pub more_stars : (t : List ℕ) (c : ℕ) (p : List ℕ) → c ≡ star → Starred p t → Starred (c ∷ p) t
more_stars t c p e d = leave refl (subst (λ (k : ℕ). Matches (k ∷ p) t) (sym e) d)

pub drop_question :
    (t : List ℕ) (c x : ℕ) (p : List ℕ) → c ≡ question → Starred (c ∷ p) (x ∷ t) → Starred p t
drop_question [] c x p e d = elim (star_cases d) [
  | inl m ↦ leave refl (any_inv e m)
  | inr r ↦ absurd (omega (arith, e, (at_end (star_end r)).0))
]
drop_question (y ∷ t) c x p e d = elim (star_cases d) [
  | inl m ↦ leave refl (any_inv e m)
  | inr r ↦ take refl (drop_question t c y p e r)
]

pub add_question :
    (t : List ℕ) (c x : ℕ) (p : List ℕ) → c ≡ question → Starred p t → Starred (c ∷ p) (x ∷ t)
add_question [] c x p e d = leave refl (any e (star_end d))
add_question (y ∷ t) c x p e d = elim (star_cases d) [
  | inl m ↦ leave refl (any e m)
  | inr r ↦ take refl (add_question t c y p e r)
]
