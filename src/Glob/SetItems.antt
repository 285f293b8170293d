-- ===== src/Glob/SetItems.antt =====
-- How GlobMatch in src/shared.c reads the next character or range of a set.
use quake2world.Prelude.{
  ℕ, ◌≡◌, ◌≢◌, ◌<◌, refl, ◌∙◌, inl, inr, Bool-cases, true, false, not, ◌&&◌, List, [], ◌∷◌, arith,
  length, ◌==◌,
}
use quake2world.Glob.{
  escape, dash, close_set, char_at, past, Item, bad_item, item_overrun, range, range_end,
  range_from, read_item,
}
use quake2world.Glob.Sets.{Char, bare, quoted, Spans, single, ranged}

length-Char : {a : ℕ} {s r : List ℕ} → Char s a r → length r < length s
length-Char (bare n z) = omega arith
length-Char (quoted e) = omega arith

pub length-Spans : {a b : ℕ} {s r : List ℕ} → Spans s a b r → length r < length s
length-Spans (single c h) = length-Char c
length-Spans (ranged c e n d z) =
    let l = length-Char c in let m = length-Char d in omega (arith, l, m)

range_end-Char :
    {b : ℕ} {q r : List ℕ} (a : ℕ)
    → Char q b r
    → b ≢ 0
    → range_end a q ≡ range a b (char_at r) (past r)
unfolding range_end
range_end-Char a (bare {c} n z) k =
    let e : (c == escape) ≡ false = ground (arith, n) in
    let z : (c == 0) ≡ false = ground (arith, k) in rw (e, z) refl
range_end-Char a (quoted {e = d} {c} h) k =
    let e : (d == escape) ≡ true = ground (arith, h) in
    let z : (c == 0) ≡ false = ground (arith, k) in rw (e, z) refl

read_bare : (c : ℕ) (r : List ℕ) → c ≢ escape → c ≢ 0 → read_item c r ≡ range_from c r
unfolding read_item
read_bare c [] n k =
    let e : (c == escape) ≡ false = ground (arith, n) in
    let z : (c == 0) ≡ false = ground (arith, k) in rw (e, z) refl
read_bare c (x ∷ r) n k =
    let e : (c == escape) ≡ false = ground (arith, n) in
    let z : (c == 0) ≡ false = ground (arith, k) in rw (e, z) refl

read_quoted : (c x : ℕ) (r : List ℕ) → c ≡ escape → read_item c (x ∷ r) ≡ range_from x r
unfolding read_item
read_quoted c x r h = let e : (c == escape) ≡ true = ground (arith, h) in rw (e) refl

read_item-Char :
    {a : ℕ} {s r : List ℕ} → Char s a r → read_item (char_at s) (past s) ≡ range_from a r
read_item-Char (bare {c} {r} n z) = read_bare c r n z
read_item-Char (quoted {e} {c} {r} h) = read_quoted e c r h

range_from-single :
    (a : ℕ) (r : List ℕ)
    → (char_at r == dash && not (char_at (past r) == close_set)) ≡ false
    → range_from a r ≡ range a a (char_at r) (past r)
unfolding range_from
range_from-single a r e = rw (e) refl

range_from-ranged :
    (a : ℕ) (r : List ℕ)
    → (char_at r == dash && not (char_at (past r) == close_set)) ≡ true
    → range_from a r ≡ range_end a (past r)
unfolding range_from
range_from-ranged a r e = rw (e) refl

pub read_item-Spans :
    {a b : ℕ} {s r : List ℕ}
    → Spans s a b r
    → read_item (char_at s) (past s) ≡ range a b (char_at r) (past r)
read_item-Spans (single {a} {r} c (inl n)) =
    read_item-Char c ∙ range_from-single a r (ground (arith, n))
read_item-Spans (single {a} {r} c (inr n)) =
    read_item-Char c ∙ range_from-single a r (ground (arith, n))
read_item-Spans (ranged {d} {a} {q} c e n h z) =
    read_item-Char c ∙ range_from-ranged a (d ∷ q) (ground (arith, e, n)) ∙ range_end-Char a h z

-- What is read is a character or a range of the set, if it is anything.
pub data Reads (s : List ℕ) : Item → Type 0 where
  no_item : Reads s bad_item
  no_more : Reads s item_overrun
  item : {a b : ℕ} {r : List ℕ} → Spans s a b r → Reads s (range a b (char_at r) (past r))

range_end-Reads :
    (s : List ℕ) (a d : ℕ) (q : List ℕ)
    → Char s a (d ∷ q)
    → d ≡ dash
    → char_at q ≢ close_set
    → Reads s (range_end a q)
unfolding range_end
range_end-Reads s a d [] c e n = no_item
range_end-Reads s a d (x ∷ []) c e n = elim (Bool-cases (x == escape)) [
  | inl b ↦ rw (b) no_item
  | inr b ↦ elim (Bool-cases (x == 0)) [
    | inl z ↦ rw (b, z) no_item
    | inr z ↦
        let k : x ≢ 0 = λ m. ground (arith, z, m) in
        rw (b, z) (item (ranged c e n (bare (λ m. ground (arith, b, m)) k) k))
  ]
]
range_end-Reads s a d (x ∷ y ∷ q) c e n = elim (Bool-cases (x == escape)) [
  | inl b ↦ elim (Bool-cases (y == 0)) [
    | inl z ↦ rw (b, z) no_item
    | inr z ↦
        rw (b, z) (item (ranged c e n (quoted (ground (arith, b))) (λ m. ground (arith, z, m))))
  ]
  | inr b ↦ elim (Bool-cases (x == 0)) [
    | inl z ↦ rw (b, z) no_item
    | inr z ↦
        let k : x ≢ 0 = λ m. ground (arith, z, m) in
        rw (b, z) (item (ranged c e n (bare (λ m. ground (arith, b, m)) k) k))
  ]
]

range_from-Reads : (s : List ℕ) (a : ℕ) (r : List ℕ) → Char s a r → Reads s (range_from a r)
unfolding range_from
range_from-Reads s a [] c = item (single c (inl (omega arith)))
range_from-Reads s a (d ∷ q) c = elim (Bool-cases (d == dash)) [
  | inl e ↦ elim (Bool-cases (char_at q == close_set)) [
    | inl k ↦ rw (e, k) (item (single c (inr (ground (arith, k)))))
    | inr k ↦ rw (e, k) (range_end-Reads s a d q c (ground (arith, e)) (λ m. ground (arith, k, m)))
  ]
  | inr e ↦ rw (e) (item (single c (inl (λ m. ground (arith, e, m)))))
]

pub read_item-Reads : (s : List ℕ) → Reads s (read_item (char_at s) (past s))
unfolding read_item
read_item-Reads [] = no_item
read_item-Reads (c ∷ []) = elim (Bool-cases (c == escape)) [
  | inl e ↦ rw (e) no_more
  | inr e ↦ elim (Bool-cases (c == 0)) [
    | inl z ↦ rw (e, z) no_item
    | inr z ↦
        rw (e, z)
          (range_from-Reads (c ∷ []) c []
            (bare (λ m. ground (arith, e, m)) (λ m. ground (arith, z, m))))
  ]
]
read_item-Reads (c ∷ x ∷ p) = elim (Bool-cases (c == escape)) [
  | inl e ↦ rw (e) (range_from-Reads (c ∷ x ∷ p) x p (quoted (ground (arith, e))))
  | inr e ↦ elim (Bool-cases (c == 0)) [
    | inl z ↦ rw (e, z) no_item
    | inr z ↦
        rw (e, z)
          (range_from-Reads (c ∷ x ∷ p) c (x ∷ p)
            (bare (λ m. ground (arith, e, m)) (λ m. ground (arith, z, m))))
  ]
]
