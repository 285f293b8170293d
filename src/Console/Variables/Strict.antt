-- ===== src/Console/Variables/Strict.antt =====
-- The strict order of the names of variables, which g_list_insert_sorted of src/cvar.c keeps: all pairs of
-- names, and the variables of some flags.
use quake2world.Prelude.{
  ℕ, ◌≡◌, refl, ap, ap₂, ◌∙◌, Bool, Bool-cases, inl, inr, true, false, ◌&&◌, none, some, List, [],
  ◌∷◌, arith, if◌then◌else◌, if_true, if_false,
}
use quake2world.UserInfo.{str_eq}
use quake2world.Console.Variables.{has, Var, get_, str_less}
use quake2world.Console.Variables.Order.{names, is_before, is_sorted}

str_less_trans : (s t u : List ℕ) → str_less s t ≡ true → str_less t u ≡ true → str_less s u ≡ true
unfolding str_less
str_less_trans [] [] u h k = cc
str_less_trans [] (d ∷ t) [] h k = cc
str_less_trans [] (d ∷ t) (e ∷ u) h k = refl
str_less_trans (c ∷ s) [] u h k = cc
str_less_trans (c ∷ s) (d ∷ t) [] h k = cc
str_less_trans (c ∷ s) (d ∷ t) (e ∷ u) h k = ground (arith, h, k, str_less_trans s t u)

str_less-differs : (s t : List ℕ) → str_less s t ≡ true → str_eq s t ≡ false
unfolding str_less
str_less-differs [] [] h = cc
str_less-differs [] (d ∷ t) h = refl
str_less-differs (c ∷ s) [] h = cc
str_less-differs (c ∷ s) (d ∷ t) h = ground (arith, h, str_less-differs s t)

pub str_less-differs_back : (s t : List ℕ) → str_less s t ≡ true → str_eq t s ≡ false
unfolding str_less
str_less-differs_back [] [] h = cc
str_less-differs_back [] (d ∷ t) h = refl
str_less-differs_back (c ∷ s) [] h = cc
str_less-differs_back (c ∷ s) (d ∷ t) h = ground (arith, h, str_less-differs_back s t)

-- The name is before that of each variable.
abbrev pub all_after : List ℕ → List Var → Bool
all_after n [] = true
all_after n (w ∷ vs) = str_less n w.name && all_after n vs

abbrev pub strict : List Var → Bool
strict [] = true
strict (v ∷ vs) = all_after v.name vs && strict vs

-- The variables that have a flag of the mask
abbrev pub with_flags : ℕ → List Var → List Var
with_flags mask [] = []
with_flags mask (v ∷ vs) = if has mask v.flags then v ∷ with_flags mask vs else with_flags mask vs

all_after-sorted :
    (n : List ℕ) (vs : List Var)
    → is_before n (names vs) ≡ true
    → is_sorted (names vs) ≡ true
    → all_after n vs ≡ true
all_after-sorted n [] h k = refl
all_after-sorted n (w ∷ []) h k = ground (arith, h)
all_after-sorted n (w ∷ x ∷ vs) h k =
    let later : str_less w.name x.name ≡ true = ground (arith, k) in
    let rest : is_sorted (names (x ∷ vs)) ≡ true = ground (arith, k) in
    ap₂ (λ a b. a && b) h
      (all_after-sorted n (x ∷ vs) (str_less_trans n w.name x.name h later) rest)

strict-sorted : (vs : List Var) → is_sorted (names vs) ≡ true → strict vs ≡ true
strict-sorted [] h = refl
strict-sorted (v ∷ vs) h =
    let before : is_before v.name (names vs) ≡ true = ground (arith, h) in
    let rest : is_sorted (names vs) ≡ true = ground (arith, h) in
    ap₂ (λ a b. a && b) (all_after-sorted v.name vs before rest) (strict-sorted vs rest)

all_after-with_flags :
    (mask : ℕ) (n : List ℕ) (vs : List Var)
    → all_after n vs ≡ true
    → all_after n (with_flags mask vs) ≡ true
all_after-with_flags mask n [] h = refl
all_after-with_flags mask n (w ∷ vs) h =
    let rest = all_after-with_flags mask n vs (ground (arith, h)) in
    let less : str_less n w.name ≡ true = ground (arith, h) in
    elim (Bool-cases (has mask w.flags)) [
      | inl e ↦
          ap (all_after n) (if_true (w ∷ with_flags mask vs) (with_flags mask vs) e)
          ∙ ap₂ (λ a b. a && b) less rest
      | inr e ↦ ap (all_after n) (if_false (w ∷ with_flags mask vs) (with_flags mask vs) e) ∙ rest
    ]

strict-with_flags :
    (mask : ℕ) (vs : List Var) → strict vs ≡ true → strict (with_flags mask vs) ≡ true
strict-with_flags mask [] h = refl
strict-with_flags mask (v ∷ vs) h =
    let rest = strict-with_flags mask vs (ground (arith, h)) in
    let after = all_after-with_flags mask v.name vs (ground (arith, h)) in
    elim (Bool-cases (has mask v.flags)) [
      | inl e ↦
          ap strict (if_true (v ∷ with_flags mask vs) (with_flags mask vs) e)
          ∙ ap₂ (λ a b. a && b) after rest
      | inr e ↦ ap strict (if_false (v ∷ with_flags mask vs) (with_flags mask vs) e) ∙ rest
    ]

-- The variables of a flag of a sorted list are in strict order.
pub sorted-strict :
    (mask : ℕ) (vs : List Var) → is_sorted (names vs) ≡ true → strict (with_flags mask vs) ≡ true
sorted-strict mask vs h = strict-with_flags mask vs (strict-sorted vs h)

-- A name before all of them is none of them.
pub all_after-get_ : (n : List ℕ) (vs : List Var) → all_after n vs ≡ true → get_ n vs ≡ none
unfolding get_
all_after-get_ n [] h = refl
all_after-get_ n (w ∷ vs) h =
    let less : str_less n w.name ≡ true = ground (arith, h) in
    if_false (some w) (get_ n vs) (str_less-differs n w.name less)
    ∙ all_after-get_ n vs (ground (arith, h))
