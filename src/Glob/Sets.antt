-- ===== src/Glob/Sets.antt =====
-- What the sets of a pattern of GlobMatch in src/shared.c say, `[SET]` and `[!SET]`: characters and ranges
-- of them up to a `]`, a backslash before a character that is meant as it stands. The order of chars is that of signed bytes.
use quake2world.Prelude.{ℕ, ◌+◌, ◌%◌, ◌≤◌, ◌≡◌, ◌≢◌, ◌⊎◌, Bool, true, false, List, ◌∷◌}
use quake2world.Glob.{close_set, escape, dash, char_at, past}

-- A character and what is behind it
pub data Char : List ℕ → ℕ → List ℕ → Type 0 where
  bare : {c : ℕ} {r : List ℕ} → c ≢ escape → c ≢ 0 → Char (c ∷ r) c r
  quoted : {e c : ℕ} {r : List ℕ} → e ≡ escape → Char (e ∷ c ∷ r) c r

-- A character or a range, its ends and what is behind it. A dash that is the last character before `]` is no range.
pub data Spans : List ℕ → ℕ → ℕ → List ℕ → Type 0 where
  single :
      {a : ℕ} {s r : List ℕ}
      → Char s a r
      → (char_at r ≢ dash) ⊎ (char_at (past r) ≡ close_set)
      → Spans s a a r
  ranged :
      {d a b : ℕ} {s q r : List ℕ}
      → Char s a (d ∷ q)
      → d ≡ dash
      → char_at q ≢ close_set
      → Char q b r
      → b ≢ 0
      → Spans s a b r

abbrev pub InRange : ℕ → ℕ → ℕ → Type 0
InRange a x b = ((a + 128) % 256 ≤ (x + 128) % 256) × ((x + 128) % 256 ≤ (b + 128) % 256)

-- Up to the `]` that ends the set and no backslash stands before
pub data Rest : List ℕ → List ℕ → Type 0 where
  closed : {c : ℕ} {q : List ℕ} → c ≡ close_set → Rest (c ∷ q) q
  over : {c : ℕ} {p q : List ℕ} → c ≢ close_set → c ≢ 0 → c ≢ escape → Rest p q → Rest (c ∷ p) q
  over_quoted : {c y : ℕ} {p q : List ℕ} → c ≡ escape → Rest p q → Rest (c ∷ y ∷ p) q

-- The rest of a set from behind a range. Its first character is left out as it stands: if it is a backslash, it does not
-- keep a `]` behind it from ending the set.
pub data Skips : List ℕ → List ℕ → Type 0 where
  at_once : {c : ℕ} {q : List ℕ} → c ≡ close_set → Skips (c ∷ q) q
  drop : {c : ℕ} {p q : List ℕ} → c ≢ close_set → c ≢ 0 → Rest p q → Skips (c ∷ p) q

-- The set takes `x` and leaves the pattern `q`: one of its ranges has `x`, or it is inverted and none has.
pub data Takes : Bool → ℕ → List ℕ → List ℕ → Type 0 where
  hit : {x a b : ℕ} {s r q : List ℕ} → Spans s a b r → InRange a x b → Skips r q → Takes false x s q
  miss :
      {c x a b : ℕ} {s q : List ℕ}
      → Spans s a b (c ∷ q)
      → ¬ InRange a x b
      → c ≡ close_set
      → Takes true x s q
  later :
      {i : Bool} {x a b : ℕ} {s r q : List ℕ}
      → Spans s a b r
      → ¬ InRange a x b
      → char_at r ≢ close_set
      → Takes i x r q
      → Takes i x s q

-- What is behind the `[`, where `!` and `^` invert the set
pub data SetTakes : ℕ → List ℕ → List ℕ → Type 0 where
  upright :
      {x : ℕ} {p q : List ℕ} → char_at p ≢ 33 → char_at p ≢ 94 → Takes false x p q → SetTakes x p q
  inverted :
      {c x : ℕ} {p q : List ℕ} → (c ≡ 33) ⊎ (c ≡ 94) → Takes true x p q → SetTakes x (c ∷ p) q
