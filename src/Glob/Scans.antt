-- ===== src/Glob/Scans.antt =====
-- The set of a pattern of GlobMatch in src/shared.c: how far it is read.
use quake2world.Prelude.{
  ℕ, zero, suc, ◌+◌, ◌≤◌, ◌<◌, ◌≡◌, refl, ap, ◌∙◌, ◌⊎◌, inl, inr, Bool, Bool-cases, true, false,
  not, ◌&&◌, ◌||◌, List, [], ◌∷◌, arith, length, ◌==◌,
}
use quake2world.Glob.{
  escape, dash, close_set, is_inversion, char_at, char_leb, past, Item, bad_item, item_overrun,
  range, range_end, range_from, read_item, Scan, refused, scan_overrun, scan_unfinished, passed,
  skip_set, invert_scan, test_item, set_loop, scan_set,
}

-- The pattern has a backslash.
abbrev pub has_escape : List ℕ → Bool
has_escape [] = false
has_escape (c ∷ p) = c == escape || has_escape p

-- `c` and then `rest` are what is read next of `p`, or `c` is the NUL.
record Follows (c : ℕ) (rest p : List ℕ) : Type 0 where
  shorter : length rest ≤ length p
  moves : (c ≡ 0) ⊎ (length rest < length p)
  escapes : has_escape (c ∷ rest) ≡ true → has_escape p ≡ true

next-Follows : (p : List ℕ) → Follows (char_at p) (past p) p
next-Follows [] = record { shorter = omega arith; moves = inl refl; escapes = λ e. e }
next-Follows (c ∷ p) = record { shorter = omega arith; moves = inr (omega arith); escapes = λ e. e }

past-Follows : (c : ℕ) (rest p : List ℕ) → Follows c rest (past p) → Follows c rest p
past-Follows c rest [] f = f
past-Follows c rest (x ∷ p) f = record {
  shorter = omega (arith, f.shorter);
  moves = inr (omega (arith, f.shorter));
  escapes = λ e. ground (arith, f.escapes e);
}

abbrev ItemFollows : List ℕ → Item → Type 0
ItemFollows p bad_item = Unit
ItemFollows p item_overrun = ⊥
ItemFollows p (range cstart cend c rest) = Follows c rest p

range_end-ItemFollows : (s : ℕ) (p : List ℕ) → ItemFollows p (range_end s p)
unfolding range_end
range_end-ItemFollows s p = elim (Bool-cases (char_at p == escape)) [
  | inl e ↦ elim (Bool-cases (char_at (past p) == 0)) [
    | inl z ↦ rw (e, z) tt
    | inr z ↦
        rw (e, z) (past-Follows _ _ p (past-Follows _ _ (past p) (next-Follows (past (past p)))))
  ]
  | inr e ↦ elim (Bool-cases (char_at p == 0)) [
    | inl z ↦ rw (e, z) tt
    | inr z ↦ rw (e, z) (past-Follows _ _ p (next-Follows (past p)))
  ]
]

item-past : (p : List ℕ) (i : Item) → ItemFollows (past p) i → ItemFollows p i
item-past p bad_item f = tt
item-past p item_overrun f = f
item-past p (range cstart cend c rest) f = past-Follows c rest p f

range_from-ItemFollows : (s : ℕ) (p : List ℕ) → ItemFollows p (range_from s p)
unfolding range_from
range_from-ItemFollows s p =
    elim (Bool-cases (char_at p == dash && not (char_at (past p) == close_set))) [
      | inl e ↦ rw (e) (item-past p (range_end s (past p)) (range_end-ItemFollows s (past p)))
      | inr e ↦ rw (e) (next-Follows p)
    ]

abbrev ItemRead : ℕ → List ℕ → Item → Type 0
ItemRead c p bad_item = Unit
ItemRead c p item_overrun = has_escape (c ∷ p) ≡ true
ItemRead c p (range cstart cend c' rest) = Follows c' rest p

follows-ItemRead : (c : ℕ) (p : List ℕ) (i : Item) → ItemFollows p i → ItemRead c p i
follows-ItemRead c p bad_item f = tt
follows-ItemRead c p item_overrun f = absurd f
follows-ItemRead c p (range cstart cend c' rest) f = f

read_item-ItemRead : (c : ℕ) (p : List ℕ) → ItemRead c p (read_item c p)
unfolding read_item
read_item-ItemRead c [] = elim (Bool-cases (c == escape)) [
  | inl e ↦ rw (e) (ground arith)
  | inr e ↦ elim (Bool-cases (c == 0)) [
    | inl z ↦ rw (e, z) tt
    | inr z ↦ rw (e, z) (follows-ItemRead c [] (range_from c []) (range_from-ItemFollows c []))
  ]
]
read_item-ItemRead c (x ∷ p) = elim (Bool-cases (c == escape)) [
  | inl e ↦ rw (e) (
      follows-ItemRead c (x ∷ p) (range_from x p)
        (item-past (x ∷ p) (range_from x p) (range_from-ItemFollows x p)))
  | inr e ↦ elim (Bool-cases (c == 0)) [
    | inl z ↦ rw (e, z) tt
    | inr z ↦
        rw (e, z)
          (follows-ItemRead c (x ∷ p) (range_from c (x ∷ p)) (range_from-ItemFollows c (x ∷ p)))
  ]
]

-- A scan stays in the pattern, or finds a backslash; and it ends.
abbrev pub Scanned : Bool → ℕ → Scan → Type 0
Scanned escapes n refused = Unit
Scanned escapes n scan_overrun = escapes ≡ true
Scanned escapes n scan_unfinished = ⊥
Scanned escapes n (passed r) = (length r ≤ n) × (has_escape r ≡ true → escapes ≡ true)

Scanned-mono :
    (s : Scan) {e e' : Bool} {n n' : ℕ}
    → (e ≡ true → e' ≡ true)
    → n ≤ n'
    → Scanned e n s
    → Scanned e' n' s
Scanned-mono refused f h s = tt
Scanned-mono scan_overrun f h s = f s
Scanned-mono scan_unfinished f h s = s
Scanned-mono (passed r) f h (l, g) = (omega (arith, l, h), λ x. f (g x))

skip_set-Scanned : (c : ℕ) (p : List ℕ) → Scanned (has_escape (c ∷ p)) (length p) (skip_set c p)
unfolding skip_set
skip_set-Scanned c [] = elim (Bool-cases (c == close_set)) [
  | inl e ↦ rw (e) (omega arith, λ x. ground (arith, x))
  | inr e ↦ rw (e) tt
]
skip_set-Scanned c (x ∷ []) = elim (Bool-cases (c == close_set)) [
  | inl e ↦ rw (e) (omega arith, λ x. ground (arith, x))
  | inr e ↦ elim (Bool-cases (c == 0 || x == 0)) [
    | inl z ↦ rw (e, z) tt
    | inr z ↦ elim (Bool-cases (x == escape)) [
      | inl b ↦ rw (e, z, b) (ground (arith, b))
      | inr b ↦
          rw (e, z, b)
            (Scanned-mono (skip_set x []) (λ h. ground (arith, h)) (omega arith)
              (skip_set-Scanned x []))
    ]
  ]
]
skip_set-Scanned c (x ∷ y ∷ p) = elim (Bool-cases (c == close_set)) [
  | inl e ↦ rw (e) (omega arith, λ x. ground (arith, x))
  | inr e ↦ elim (Bool-cases (c == 0 || x == 0)) [
    | inl z ↦ rw (e, z) tt
    | inr z ↦ elim (Bool-cases (x == escape)) [
      | inl b ↦
          rw (e, z, b)
            (Scanned-mono (skip_set x p) (λ h. ground (arith, b)) (omega arith)
              (skip_set-Scanned x p))
      | inr b ↦
          rw (e, z, b)
            (Scanned-mono (skip_set x (y ∷ p)) (λ h. ground (arith, h)) (omega arith)
              (skip_set-Scanned x (y ∷ p)))
    ]
  ]
]

invert-Scanned :
    (invert : Bool) (s : Scan) (e : Bool) (n : ℕ)
    → Scanned e n s
    → Scanned e n (invert_scan invert s)
unfolding invert_scan
invert-Scanned true (passed r) e n h = tt
invert-Scanned true refused e n h = tt
invert-Scanned true scan_overrun e n h = h
invert-Scanned true scan_unfinished e n h = h
invert-Scanned false s e n h = h

test_item-Scanned :
    (next : ℕ → List ℕ → Scan) (invert : Bool) (c1 c : ℕ) (p : List ℕ) (i : Item)
    → ItemRead c p i
    → ((c' : ℕ) (rest : List ℕ)
        → (c' ≡ 0) ⊎ (length rest < length p)
        → Scanned (has_escape (c' ∷ rest)) (length rest) (next c' rest))
    → Scanned (has_escape (c ∷ p)) (length p) (test_item next invert c1 i)
unfolding test_item
test_item-Scanned next invert c1 c p bad_item r n = tt
test_item-Scanned next invert c1 c p item_overrun r n = r
test_item-Scanned next invert c1 c p (range cstart cend c' rest) f n =
    let kept : (s : Scan)
        → Scanned (has_escape (c' ∷ rest)) (length rest) s
        → Scanned (has_escape (c ∷ p)) (length p) s =
      λ s h. Scanned-mono s (λ x. ground (arith, f.escapes x)) f.shorter h in
    elim (Bool-cases (char_leb cstart c1 && char_leb c1 cend)) [
      | inl m ↦ rw (m) (
          kept (invert_scan invert (skip_set c' rest))
            (invert-Scanned invert (skip_set c' rest) _ _ (skip_set-Scanned c' rest)))
      | inr m ↦ elim (Bool-cases (c' == close_set)) [
        | inl e ↦ elim (Bool-cases invert) [
          | inl v ↦ rw (m, e, v) (kept (passed rest) (omega arith, λ x. ground (arith, x)))
          | inr v ↦ rw (m, e, v) tt
        ]
        | inr e ↦ rw (m, e) (kept (next c' rest) (n c' rest f.moves))
      ]
    ]

nul_item : (p : List ℕ) → read_item 0 p ≡ bad_item
unfolding read_item
nul_item [] = refl
nul_item (x ∷ p) = refl

set_loop-Scanned :
    (fuel : ℕ) (invert : Bool) (c1 c : ℕ) (p : List ℕ)
    → (c ≡ 0) ⊎ (length p + 1 < fuel)
    → 0 < fuel
    → Scanned (has_escape (c ∷ p)) (length p) (set_loop fuel invert c1 c p)
unfolding set_loop test_item
set_loop-Scanned zero invert c1 c p h f = absurd (omega (arith, f))
set_loop-Scanned (suc fuel) invert c1 c p (inl z) f =
    let e : read_item c p ≡ bad_item = ap (λ (k : ℕ). read_item k p) z ∙ nul_item p in rw (e) tt
set_loop-Scanned (suc fuel) invert c1 c p (inr h) f =
    test_item-Scanned (set_loop fuel invert c1) invert c1 c p (read_item c p)
      (read_item-ItemRead c p)
      λ c' rest m.
        set_loop-Scanned fuel invert c1 c' rest
          (elim m [ inl z ↦ inl z | inr l ↦ inr (omega (arith, l, h)) ]) (omega (arith, h))

read_from :
    (c1 : ℕ) (invert : Bool) (c : ℕ) (rest p : List ℕ)
    → Follows c rest p
    → Scanned (has_escape p) (length p) (set_loop (length p + 2) invert c1 c rest)
read_from c1 invert c rest p f =
    Scanned-mono (set_loop (length p + 2) invert c1 c rest) f.escapes f.shorter (
      set_loop-Scanned (length p + 2) invert c1 c rest (inr (omega (arith, f.shorter)))
        (omega arith))

-- A set of the pattern `p` is read to its end within the fuel.
pub scan_set-Scanned : (c1 : ℕ) (p : List ℕ) → Scanned (has_escape p) (length p) (scan_set c1 p)
unfolding scan_set
scan_set-Scanned c1 p = elim (Bool-cases (is_inversion (char_at p))) [
  | inl v ↦ rw (v) (read_from c1 true _ _ p (past-Follows _ _ p (next-Follows (past p))))
  | inr v ↦ rw (v) (read_from c1 false _ _ p (next-Follows p))
]
