-- ===== src/Console/Variables/Order.antt =====
-- The names of the variables of src/cvar.c stay in their order.
use quake2world.Prelude.{
  ℕ, ◌≡◌, refl, sym, ap, ap₂, ◌∙◌, Bool, Bool-cases, inl, inr, true, false, ◌&&◌, none, some, List,
  [], ◌∷◌, arith, if_true, if_false,
}
use quake2world.UserInfo.{str_eq}
use quake2world.UserInfo.Pairs.{str_eq-true}
use quake2world.Console.Variables.Lookup.{none_or_some}
use quake2world.Console.Variables.{Var, get_, put, str_less, insert_sorted}

less_or_equal : (s t : List ℕ) → str_less s t ≡ false → str_eq t s ≡ false → str_less t s ≡ true
unfolding str_less
less_or_equal [] [] h e = cc
less_or_equal [] (d ∷ t) h e = cc
less_or_equal (c ∷ s) [] h e = refl
less_or_equal (c ∷ s) (d ∷ t) h e = ground (arith, h, e, less_or_equal s t)

abbrev pub names : List Var → List (List ℕ)
names [] = []
names (v ∷ vs) = v.name ∷ names vs

abbrev pub is_before : List ℕ → List (List ℕ) → Bool
is_before n [] = true
is_before n (m ∷ ms) = str_less n m

abbrev pub is_sorted : List (List ℕ) → Bool
is_sorted [] = true
is_sorted (n ∷ ns) = is_before n ns && is_sorted ns

pub names-put : (v : Var) (vs : List Var) → names (put v vs) ≡ names vs
unfolding put
names-put v [] = refl
names-put v (w ∷ vs) = elim (Bool-cases (str_eq v.name w.name)) [
  | inl e ↦
      ap names (if_true (v ∷ vs) (w ∷ put v vs) e)
      ∙ ap (λ n. n ∷ names vs) (str_eq-true v.name w.name e)
  | inr e ↦ ap names (if_false (v ∷ vs) (w ∷ put v vs) e) ∙ ap (λ ns. w.name ∷ ns) (names-put v vs)
]

is_before-insert :
    (n : List ℕ) (v : Var) (vs : List Var)
    → str_less n v.name ≡ true
    → is_before n (names vs) ≡ true
    → is_before n (names (insert_sorted v vs)) ≡ true
unfolding insert_sorted
is_before-insert n v [] l h = l
is_before-insert n v (w ∷ vs) l h = elim (Bool-cases (str_less w.name v.name)) [
  | inl e ↦ ap (λ vs. is_before n (names vs)) (if_true (w ∷ insert_sorted v vs) (v ∷ w ∷ vs) e) ∙ h
  | inr e ↦ ap (λ vs. is_before n (names vs)) (if_false (w ∷ insert_sorted v vs) (v ∷ w ∷ vs) e) ∙ l
]

pub is_sorted-insert_sorted :
    (v : Var) (vs : List Var)
    → get_ v.name vs ≡ none
    → is_sorted (names vs) ≡ true
    → is_sorted (names (insert_sorted v vs)) ≡ true
unfolding insert_sorted get_
is_sorted-insert_sorted v [] g h = refl
is_sorted-insert_sorted v (w ∷ vs) g h = elim (Bool-cases (str_eq v.name w.name)) [
  | inl d ↦ absurd (none_or_some w (sym g ∙ if_true (some w) (get_ v.name vs) d))
  | inr d ↦ elim (Bool-cases (str_less w.name v.name)) [
    | inl e ↦
        let g' : get_ v.name vs ≡ none = sym (if_false (some w) (get_ v.name vs) d) ∙ g in
        let h' : is_sorted (names vs) ≡ true = ground (arith, h) in
        let b' : is_before w.name (names vs) ≡ true = ground (arith, h) in
        ap (λ vs. is_sorted (names vs)) (if_true (w ∷ insert_sorted v vs) (v ∷ w ∷ vs) e)
        ∙ ap₂ (λ a b. a && b) (is_before-insert w.name v vs e b')
            (is_sorted-insert_sorted v vs g' h')
    | inr e ↦
        ap (λ vs. is_sorted (names vs)) (if_false (w ∷ insert_sorted v vs) (v ∷ w ∷ vs) e)
        ∙ ap₂ (λ a b. a && b) (less_or_equal w.name v.name e d) h
  ]
]
