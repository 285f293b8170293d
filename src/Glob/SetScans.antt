-- ===== src/Glob/SetScans.antt =====
-- The set of a pattern of GlobMatch in src/shared.c: which characters it takes.
use quake2world.Prelude.{
  ℕ, zero, suc, ◌+◌, ◌%◌, ◌≤◌, ◌<◌, ◌≡◌, ◌≢◌, refl, sym, ap, ◌∙◌, subst, inl, inr, Bool, Bool-cases,
  true, false, ◌&&◌, List, [], ◌∷◌, arith, length, ◌==◌, leb, if◌then◌else◌, if_true, if_false,
}
use quake2world.Glob.{
  close_set, is_inversion, char_at, past, char_leb, Item, range, read_item, refused, scan_overrun,
  scan_unfinished, passed, Scan, skip_set, invert_scan, test_item, set_loop, scan_set,
}
use quake2world.Glob.Sets.{Spans, InRange, Takes, hit, miss, later, SetTakes, upright, inverted}
use quake2world.Glob.Skipping.{rest_of, skip_set-Skips, Skips-skip_set}
use quake2world.Glob.SetItems.{
  length-Spans, read_item-Spans, Reads, no_item, no_more, item, read_item-Reads,
}

≤-leb : (m n : ℕ) → leb m n ≡ true → m ≤ n
≤-leb m n h = ground (arith, h)

leb-≤ : (m n : ℕ) → m ≤ n → leb m n ≡ true
leb-≤ m n h = ground (arith, h)

and_both : (a b : Bool) → (a && b) ≡ true → (a ≡ true) × (b ≡ true)
and_both true true h = (refl, refl)
and_both true false h = cc
and_both false b h = cc

is_in_range : ℕ → ℕ → ℕ → Bool
is_in_range a x b = char_leb a x && char_leb x b

InRange-is_in_range : (a x b : ℕ) → is_in_range a x b ≡ true → InRange a x b
unfolding is_in_range
InRange-is_in_range a x b h =
    let (l, r) = and_both (char_leb a x) (char_leb x b) h in
    (≤-leb ((a + 128) % 256) ((x + 128) % 256) l, ≤-leb ((x + 128) % 256) ((b + 128) % 256) r)

is_in_range-InRange : (a x b : ℕ) → InRange a x b → is_in_range a x b ≡ true
unfolding is_in_range
is_in_range-InRange a x b (l, r) =
    let low : char_leb a x ≡ true = leb-≤ ((a + 128) % 256) ((x + 128) % 256) l in
    let high : char_leb x b ≡ true = leb-≤ ((x + 128) % 256) ((b + 128) % 256) r in
    rw (low, high) refl

out_of_range : (a x b : ℕ) → ¬ InRange a x b → is_in_range a x b ≡ false
out_of_range a x b n = elim (Bool-cases (is_in_range a x b)) [
  | inl e ↦ absurd (n (InRange-is_in_range a x b e))
  | inr e ↦ e
]

module _ (next : ℕ → List ℕ → Scan) (invert : Bool) (x : ℕ) where
  test-hit :
      (a b c : ℕ) (rest : List ℕ)
      → is_in_range a x b ≡ true
      → test_item next invert x (range a b c rest) ≡ invert_scan invert (skip_set c rest)
  unfolding test_item is_in_range
  test-hit a b c rest e =
      if_true (invert_scan invert (skip_set c rest))
        (if c == close_set then if invert then passed rest else refused else next c rest) e

  test-miss :
      (a b c : ℕ) (rest : List ℕ)
      → is_in_range a x b ≡ false
      → (c == close_set) ≡ true
      → test_item next invert x (range a b c rest) ≡ (if invert then passed rest else refused)
  unfolding test_item is_in_range
  test-miss a b c rest e k =
      if_false (invert_scan invert (skip_set c rest))
        (if c == close_set then if invert then passed rest else refused else next c rest) e
      ∙ if_true (if invert then passed rest else refused) (next c rest) k

  test-later :
      (a b c : ℕ) (rest : List ℕ)
      → is_in_range a x b ≡ false
      → (c == close_set) ≡ false
      → test_item next invert x (range a b c rest) ≡ next c rest
  unfolding test_item is_in_range
  test-later a b c rest e k =
      if_false (invert_scan invert (skip_set c rest))
        (if c == close_set then if invert then passed rest else refused else next c rest) e
      ∙ if_false (if invert then passed rest else refused) (next c rest) k

inverted_hit : (s : Scan) (q : List ℕ) → invert_scan true s ≢ passed q
unfolding invert_scan
inverted_hit (passed p) q h = cc
inverted_hit refused q h = cc
inverted_hit scan_overrun q h = cc
inverted_hit scan_unfinished q h = cc

upright_hit : (s : Scan) → invert_scan false s ≡ s
unfolding invert_scan
upright_hit s = refl

hit_sound :
    (invert : Bool) (x a b : ℕ) (s r q : List ℕ)
    → Spans s a b r
    → InRange a x b
    → invert_scan invert (skip_set (char_at r) (past r)) ≡ passed q
    → Takes invert x s q
hit_sound true x a b s r q sp i h = absurd (inverted_hit (skip_set (char_at r) (past r)) q h)
hit_sound false x a b s r q sp i h =
    hit sp i (Skips-skip_set r q (sym (upright_hit (skip_set (char_at r) (past r))) ∙ h))

miss_sound :
    (invert : Bool) (x a b : ℕ) (s r q : List ℕ)
    → Spans s a b r
    → ¬ InRange a x b
    → char_at r ≡ close_set
    → (if invert then passed (past r) else refused) ≡ passed q
    → Takes invert x s q
miss_sound false x a b s r q sp n k h = cc
miss_sound true x a b s [] q sp n k h = absurd (omega (arith, k))
miss_sound true x a b s (c ∷ r) q sp n k h =
    subst (λ l. Takes true x s l) (ap rest_of h) (miss sp n k)

test_sound :
    (next : ℕ → List ℕ → Scan) (invert : Bool) (x : ℕ) (s q : List ℕ) (i : Item)
    → ((r : List ℕ) → next (char_at r) (past r) ≡ passed q → Takes invert x r q)
    → Reads s i
    → test_item next invert x i ≡ passed q
    → Takes invert x s q
unfolding test_item
test_sound next invert x s q i go no_item h = cc
test_sound next invert x s q i go no_more h = cc
test_sound next invert x s q i go (item {a} {b} {r} sp) h = elim (Bool-cases (is_in_range a x b)) [
  | inl e ↦
      hit_sound invert x a b s r q sp (InRange-is_in_range a x b e)
        (sym (test-hit next invert x a b (char_at r) (past r) e) ∙ h)
  | inr e ↦
      let out : ¬ InRange a x b = λ m. cc (e, is_in_range-InRange a x b m) in
      elim (Bool-cases (char_at r == close_set)) [
        | inl k ↦
            miss_sound invert x a b s r q sp out (ground (arith, k))
              (sym (test-miss next invert x a b (char_at r) (past r) e k) ∙ h)
        | inr k ↦
            later sp out (λ m. ground (arith, k, m))
              (go r (sym (test-later next invert x a b (char_at r) (past r) e k) ∙ h))
      ]
]

loop_sound :
    (fuel : ℕ) (invert : Bool) (x : ℕ) (s q : List ℕ)
    → set_loop fuel invert x (char_at s) (past s) ≡ passed q
    → Takes invert x s q
unfolding set_loop
loop_sound zero invert x s q h = cc
loop_sound (suc fuel) invert x s q h =
    test_sound (set_loop fuel invert x) invert x s q (read_item (char_at s) (past s))
      (λ r l. loop_sound fuel invert x r q l) (read_item-Reads s) h

read_next :
    {a b : ℕ} {s r : List ℕ} (fuel : ℕ) (invert : Bool) (x : ℕ)
    → Spans s a b r
    → set_loop (suc fuel) invert x (char_at s) (past s)
      ≡ test_item (set_loop fuel invert x) invert x (range a b (char_at r) (past r))
unfolding set_loop
read_next fuel invert x sp = ap (test_item (set_loop fuel invert x) invert x) (read_item-Spans sp)

loop_complete :
    {invert : Bool} {x : ℕ} {s q : List ℕ} (fuel : ℕ)
    → length s < fuel
    → Takes invert x s q
    → set_loop fuel invert x (char_at s) (past s) ≡ passed q
loop_complete zero l t = absurd (omega (arith, l))
loop_complete (suc fuel) l (hit {x} {a} {b} {s} {r} {q} sp i k) =
    read_next fuel false x sp
    ∙ test-hit (set_loop fuel false x) false x a b (char_at r) (past r)
        (is_in_range-InRange a x b i)
    ∙ upright_hit (skip_set (char_at r) (past r))
    ∙ skip_set-Skips k
loop_complete (suc fuel) l (miss {c} {x} {a} {b} {s} {q} sp n k) =
    read_next fuel true x sp
    ∙ test-miss (set_loop fuel true x) true x a b c q (out_of_range a x b n) (ground (arith, k))
loop_complete (suc fuel) l (later {i} {x} {a} {b} {s} {r} {q} sp n k t) =
    let shorter = length-Spans sp in
    read_next fuel i x sp
    ∙ test-later (set_loop fuel i x) i x a b (char_at r) (past r) (out_of_range a x b n)
        (ground (arith, k))
    ∙ loop_complete fuel (omega (arith, shorter, l)) t

scan_upright :
    (x : ℕ) (p : List ℕ)
    → is_inversion (char_at p) ≡ false
    → scan_set x p ≡ set_loop (length p + 2) false x (char_at p) (past p)
unfolding scan_set
scan_upright x p v = rw (v) refl

scan_inverted :
    (x c : ℕ) (p : List ℕ)
    → is_inversion c ≡ true
    → scan_set x (c ∷ p) ≡ set_loop (length (c ∷ p) + 2) true x (char_at p) (past p)
unfolding scan_set
scan_inverted x c p v = rw (v) refl

pub SetTakes-scan_set : (x : ℕ) (p q : List ℕ) → scan_set x p ≡ passed q → SetTakes x p q
unfolding scan_set
SetTakes-scan_set x [] q h = upright (omega arith) (omega arith) (loop_sound 2 false x [] q h)
SetTakes-scan_set x (c ∷ p) q h = elim (Bool-cases (is_inversion c)) [
  | inl v ↦
      inverted (ground (arith, v))
        (loop_sound (length (c ∷ p) + 2) true x p q (sym (scan_inverted x c p v) ∙ h))
  | inr v ↦
      upright (λ m. ground (arith, v, m)) (λ m. ground (arith, v, m))
        (loop_sound (length (c ∷ p) + 2) false x (c ∷ p) q (sym (scan_upright x (c ∷ p) v) ∙ h))
]

pub scan_set-SetTakes : {x : ℕ} {p q : List ℕ} → SetTakes x p q → scan_set x p ≡ passed q
scan_set-SetTakes (upright {x} {p} n m t) =
    scan_upright x p (ground (arith, n, m)) ∙ loop_complete (length p + 2) (omega arith) t
scan_set-SetTakes (inverted {c} {x} {p} e t) =
    scan_inverted x c p (ground (arith, e)) ∙ loop_complete (length (c ∷ p) + 2) (omega arith) t
