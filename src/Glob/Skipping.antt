-- ===== src/Glob/Skipping.antt =====
-- The loop of GlobMatch in src/shared.c that skips the rest of a set.
use quake2world.Prelude.{
  ℕ, ◌≡◌, ◌≢◌, refl, sym, ap, ◌∙◌, subst, inl, inr, Bool-cases, true, false, ◌||◌, List, [], ◌∷◌,
  arith, ◌==◌,
}
use quake2world.Glob.{
  close_set, escape, char_at, past, refused, scan_overrun, scan_unfinished, passed, Scan, skip_set,
}
use quake2world.Glob.Sets.{Rest, closed, over, over_quoted, Skips, at_once, drop}

abbrev pub rest_of : Scan → List ℕ
rest_of (passed q) = q
rest_of refused = []
rest_of scan_overrun = []
rest_of scan_unfinished = []

close_lem : (c : ℕ) (p : List ℕ) → c ≡ close_set → skip_set c p ≡ passed p
unfolding skip_set
close_lem c [] e = let t : (c == close_set) ≡ true = ground (arith, e) in rw (t) refl
close_lem c (x ∷ []) e = let t : (c == close_set) ≡ true = ground (arith, e) in rw (t) refl
close_lem c (x ∷ y ∷ p) e = let t : (c == close_set) ≡ true = ground (arith, e) in rw (t) refl

end_lem : (c : ℕ) → c ≢ close_set → skip_set c [] ≡ refused
unfolding skip_set
end_lem c n = let t : (c == close_set) ≡ false = ground (arith, n) in rw (t) refl

nul_lem :
    (c x : ℕ) (p : List ℕ)
    → c ≢ close_set
    → (c == 0 || x == 0) ≡ true
    → skip_set c (x ∷ p) ≡ refused
unfolding skip_set
nul_lem c x [] n z = let t : (c == close_set) ≡ false = ground (arith, n) in rw (t, z) refl
nul_lem c x (y ∷ p) n z = let t : (c == close_set) ≡ false = ground (arith, n) in rw (t, z) refl

next_lem :
    (c x : ℕ) (p : List ℕ)
    → c ≢ close_set
    → c ≢ 0
    → x ≢ 0
    → x ≢ escape
    → skip_set c (x ∷ p) ≡ skip_set x p
unfolding skip_set
next_lem c x [] n cz xz xe =
    let t : (c == close_set) ≡ false = ground (arith, n) in
    let z : (c == 0 || x == 0) ≡ false = ground (arith, cz, xz) in
    let e : (x == escape) ≡ false = ground (arith, xe) in rw (t, z, e) refl
next_lem c x (y ∷ p) n cz xz xe =
    let t : (c == close_set) ≡ false = ground (arith, n) in
    let z : (c == 0 || x == 0) ≡ false = ground (arith, cz, xz) in
    let e : (x == escape) ≡ false = ground (arith, xe) in rw (t, z, e) refl

quoted_lem :
    (c x y : ℕ) (p : List ℕ)
    → c ≢ close_set
    → c ≢ 0
    → x ≡ escape
    → skip_set c (x ∷ y ∷ p) ≡ skip_set x p
unfolding skip_set
quoted_lem c x y p n cz xe =
    let t : (c == close_set) ≡ false = ground (arith, n) in
    let z : (c == 0 || x == 0) ≡ false = ground (arith, cz, xe) in
    let e : (x == escape) ≡ true = ground (arith, xe) in rw (t, z, e) refl

overrun_lem : (c x : ℕ) → c ≢ close_set → c ≢ 0 → x ≡ escape → skip_set c (x ∷ []) ≡ scan_overrun
unfolding skip_set
overrun_lem c x n cz xe =
    let t : (c == close_set) ≡ false = ground (arith, n) in
    let z : (c == 0 || x == 0) ≡ false = ground (arith, cz, xe) in
    let e : (x == escape) ≡ true = ground (arith, xe) in rw (t, z, e) refl

skip_set-Rest : {p q : List ℕ} (c : ℕ) → c ≢ close_set → c ≢ 0 → Rest p q → skip_set c p ≡ passed q
skip_set-Rest c n z (closed {c = x} {q} e) =
    next_lem c x q n z (omega (arith, e)) (omega (arith, e)) ∙ close_lem x q e
skip_set-Rest c n z (over {c = x} {p} {q} xn xz xe r) =
    next_lem c x p n z xz xe ∙ skip_set-Rest x xn xz r
skip_set-Rest c n z (over_quoted {c = x} {y} {p} {q} e r) =
    quoted_lem c x y p n z e ∙ skip_set-Rest x (omega (arith, e)) (omega (arith, e)) r

over-Rest :
    (c x : ℕ) (p q : List ℕ)
    → c ≢ close_set
    → c ≢ 0
    → x ≢ 0
    → x ≢ escape
    → (x ≢ close_set → skip_set x p ≡ passed q → Rest p q)
    → skip_set c (x ∷ p) ≡ passed q
    → Rest (x ∷ p) q
over-Rest c x p q n z xz xe go h = elim (Bool-cases (x == close_set)) [
  | inl e ↦
      let k : x ≡ close_set = ground (arith, e) in
      subst (λ l. Rest (x ∷ p) l)
        (ap rest_of (sym (next_lem c x p n z xz xe ∙ close_lem x p k) ∙ h)) (closed k)
  | inr e ↦
      let k : x ≢ close_set = λ m. ground (arith, e, m) in
      over k xz xe (go k (sym (next_lem c x p n z xz xe) ∙ h))
]

Rest-skip_set : (c : ℕ) (p q : List ℕ) → c ≢ close_set → c ≢ 0 → skip_set c p ≡ passed q → Rest p q
Rest-skip_set c [] q n z h = absurd (cc (end_lem c n, h))
Rest-skip_set c (x ∷ []) q n z h = elim (Bool-cases (x == 0)) [
  | inl e ↦ absurd (cc (nul_lem c x [] n (ground (arith, e)), h))
  | inr e ↦ elim (Bool-cases (x == escape)) [
    | inl b ↦ absurd (cc (overrun_lem c x n z (ground (arith, b)), h))
    | inr b ↦
        let xz : x ≢ 0 = λ m. ground (arith, e, m) in
        over-Rest c x [] q n z xz (λ m. ground (arith, b, m)) (λ k l. Rest-skip_set x [] q k xz l) h
  ]
]
Rest-skip_set c (x ∷ y ∷ p) q n z h = elim (Bool-cases (x == 0)) [
  | inl e ↦ absurd (cc (nul_lem c x (y ∷ p) n (ground (arith, e)), h))
  | inr e ↦ elim (Bool-cases (x == escape)) [
    | inl b ↦
        let k : x ≡ escape = ground (arith, b) in
        over_quoted k (
          Rest-skip_set x p q (omega (arith, k)) (omega (arith, k))
            (sym (quoted_lem c x y p n z k) ∙ h))
    | inr b ↦
        let xz : x ≢ 0 = λ m. ground (arith, e, m) in
        over-Rest c x (y ∷ p) q n z xz (λ m. ground (arith, b, m))
          (λ k l. Rest-skip_set x (y ∷ p) q k xz l) h
  ]
]

zero_lem : (p : List ℕ) → skip_set 0 p ≡ refused
zero_lem [] = end_lem 0 (omega arith)
zero_lem (x ∷ p) = nul_lem 0 x p (omega arith) refl

pub skip_set-Skips : {r q : List ℕ} → Skips r q → skip_set (char_at r) (past r) ≡ passed q
skip_set-Skips (at_once {c} {q} e) = close_lem c q e
skip_set-Skips (drop {c} n z r) = skip_set-Rest c n z r

pub Skips-skip_set : (r q : List ℕ) → skip_set (char_at r) (past r) ≡ passed q → Skips r q
Skips-skip_set [] q h = absurd (cc (zero_lem [], h))
Skips-skip_set (c ∷ p) q h = elim (Bool-cases (c == close_set)) [
  | inl e ↦
      let k : c ≡ close_set = ground (arith, e) in
      subst (λ l. Skips (c ∷ p) l) (ap rest_of (sym (close_lem c p k) ∙ h)) (at_once k)
  | inr e ↦ elim (Bool-cases (c == 0)) [
    | inl z ↦
        let k : c ≡ 0 = ground (arith, z) in
        absurd (cc (ap (λ (k : ℕ). skip_set k p) k, zero_lem p, h))
    | inr z ↦
        let n : c ≢ close_set = λ m. ground (arith, e, m) in
        let k : c ≢ 0 = λ m. ground (arith, z, m) in drop n k (Rest-skip_set c p q n k h)
  ]
]
