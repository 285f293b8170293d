-- ===== src/Console/Variables/Lookup.antt =====
-- The list of variables of src/cvar.c as a table: looking a name up, putting a variable in, and the order.
use quake2world.Prelude.{
  ℕ, ◌≡◌, ◌≢◌, refl, sym, ap, ◌∙◌, subst, Bool-cases, inl, inr, true, false, none, some, List, [],
  ◌∷◌, if◌then◌else◌, if_true, if_false,
}
use quake2world.UserInfo.{str_eq}
use quake2world.UserInfo.Pairs.{str_eq_self, str_eq-true}
use quake2world.Console.Variables.{Var, get_, put, str_less, insert_sorted}

pub some-injective : {A : Type 0} {x y : A} → some x ≡ some y → x ≡ y
some-injective {x = x} e = ap (λ o. elim o [ none ↦ x | some z ↦ z ]) e

pub none_or_some : {A : Type 0} (x : A) → none ≢ some x
none_or_some x e = cc

module _ (name : List ℕ) where
  pub get_-name : (vs : List Var) (v : Var) → get_ name vs ≡ some v → v.name ≡ name
  unfolding get_
  get_-name [] v h = absurd (none_or_some v h)
  get_-name (w ∷ vs) v h = elim (Bool-cases (str_eq name w.name)) [
    | inl e ↦
        let w_is : w ≡ v = some-injective (sym (if_true (some w) (get_ name vs) e) ∙ h) in
        ap (λ (v : Var). v.name) (sym w_is) ∙ sym (str_eq-true name w.name e)
    | inr e ↦ get_-name vs v (sym (if_false (some w) (get_ name vs) e) ∙ h)
  ]

  pub get_-put :
      (vs : List Var) (v w : Var)
      → get_ name vs ≡ some w
      → v.name ≡ name
      → get_ name (put v vs) ≡ some v
  unfolding get_ put
  get_-put [] v w h n = absurd (none_or_some w h)
  get_-put (u ∷ vs) v w h n = elim (Bool-cases (str_eq name u.name)) [
    | inl e ↦
        let same : str_eq v.name u.name ≡ true = ap (λ n. str_eq n u.name) n ∙ e in
        let found : str_eq name v.name ≡ true =
          subst (λ m. str_eq name m ≡ true) (sym n) (str_eq_self name) in
        ap (get_ name) (if_true (v ∷ vs) (u ∷ put v vs) same)
        ∙ if_true (some v) (get_ name vs) found
    | inr e ↦
        let other : str_eq v.name u.name ≡ false = ap (λ n. str_eq n u.name) n ∙ e in
        ap (get_ name) (if_false (v ∷ vs) (u ∷ put v vs) other)
        ∙ if_false (some u) (get_ name (put v vs)) e
        ∙ get_-put vs v w (sym (if_false (some u) (get_ name vs) e) ∙ h) n
  ]

  pub get_-put_other :
      (vs : List Var) (v : Var) → str_eq name v.name ≡ false → get_ name (put v vs) ≡ get_ name vs
  unfolding get_ put
  get_-put_other [] v h = refl
  get_-put_other (u ∷ vs) v h = elim (Bool-cases (str_eq v.name u.name)) [
    | inl e ↦
        let other : str_eq name u.name ≡ false =
          subst (λ m. str_eq name m ≡ false) (str_eq-true v.name u.name e) h in
        ap (get_ name) (if_true (v ∷ vs) (u ∷ put v vs) e)
        ∙ if_false (some v) (get_ name vs) h
        ∙ sym (if_false (some u) (get_ name vs) other)
    | inr e ↦
        ap (get_ name) (if_false (v ∷ vs) (u ∷ put v vs) e)
        ∙ ap (λ o. if str_eq name u.name then some u else o) (get_-put_other vs v h)
  ]

  pub get_-insert_sorted_other :
      (vs : List Var) (v : Var)
      → str_eq name v.name ≡ false
      → get_ name (insert_sorted v vs) ≡ get_ name vs
  unfolding get_ insert_sorted
  get_-insert_sorted_other [] v h = if_false (some v) none h
  get_-insert_sorted_other (u ∷ vs) v h = elim (Bool-cases (str_less u.name v.name)) [
    | inl e ↦
        ap (get_ name) (if_true (u ∷ insert_sorted v vs) (v ∷ u ∷ vs) e)
        ∙ ap (λ o. if str_eq name u.name then some u else o) (get_-insert_sorted_other vs v h)
    | inr e ↦
        ap (get_ name) (if_false (u ∷ insert_sorted v vs) (v ∷ u ∷ vs) e)
        ∙ if_false (some v) (get_ name (u ∷ vs)) h
  ]

  pub get_-insert_sorted :
      (vs : List Var) (v : Var)
      → get_ name vs ≡ none
      → v.name ≡ name
      → get_ name (insert_sorted v vs) ≡ some v
  unfolding get_ insert_sorted
  get_-insert_sorted [] v h n =
      if_true (some v) none (subst (λ m. str_eq name m ≡ true) (sym n) (str_eq_self name))
  get_-insert_sorted (u ∷ vs) v h n =
      let found : str_eq name v.name ≡ true =
        subst (λ m. str_eq name m ≡ true) (sym n) (str_eq_self name) in
      elim (Bool-cases (str_eq name u.name)) [
        | inl e ↦ absurd (none_or_some u (sym h ∙ if_true (some u) (get_ name vs) e))
        | inr e ↦ elim (Bool-cases (str_less u.name v.name)) [
          | inl l ↦
              ap (get_ name) (if_true (u ∷ insert_sorted v vs) (v ∷ u ∷ vs) l)
              ∙ if_false (some u) (get_ name (insert_sorted v vs)) e
              ∙ get_-insert_sorted vs v (sym (if_false (some u) (get_ name vs) e) ∙ h) n
          | inr l ↦
              ap (get_ name) (if_false (u ∷ insert_sorted v vs) (v ∷ u ∷ vs) l)
              ∙ if_true (some v) (get_ name (u ∷ vs)) found
        ]
      ]
