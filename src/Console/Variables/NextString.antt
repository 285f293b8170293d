-- ===== src/Console/Variables/NextString.antt =====
-- The string that a variable of src/cvar.c has in the next game, and one change of it.
use quake2world.Prelude.{
  ℕ, ◌≡◌, refl, sym, ap, ap₂, ◌∙◌, subst, Bool, Bool-cases, inl, inr, true, false, not, ◌&&◌, some,
  List, [], ◌∷◌, map, arith, if_true, if_false,
}
use quake2world.UserInfo.{str_eq}
use quake2world.UserInfo.Pairs.{str_eq-true}
use quake2world.Console.Variables.{Latched, no_latch, latched, freed, Var, Env, get_, put}
use quake2world.Console.Variables.Change.{
  forget, change_latched, set_latch, update_var, updated_all, sets_game, go_on, update_latched,
}
use quake2world.Console.Variables.Lookup.{none_or_some, some-injective}

-- The string of the variable in the next game, if it is not freed
abbrev pub next_string : Latched → List ℕ → List ℕ
next_string no_latch s = s
next_string (latched t) s = t
next_string freed s = []

and_left : (a b : Bool) → (a && b) ≡ true → a ≡ true
and_left a b h = ground (arith, h)

and_right : (a b : Bool) → (a && b) ≡ true → b ≡ true
and_right a b h = ground (arith, h)

false-not : (a : Bool) → not a ≡ true → a ≡ false
false-not true h = sym h
false-not false h = refl

abbrev pub is_freed : Latched → Bool
is_freed no_latch = false
is_freed (latched s) = false
is_freed freed = true

abbrev pub none_freed : List Var → Bool
none_freed [] = true
none_freed (v ∷ vs) = not (is_freed v.latched_string) && none_freed vs

-- No variable "game" has a latched string.
abbrev pub no_new_game : List Var → Bool
no_new_game [] = true
no_new_game (v ∷ vs) = not (sets_game v) && no_new_game vs

pub no_new_game-put :
    (v : Var) (vs : List Var)
    → sets_game v ≡ false
    → no_new_game vs ≡ true
    → no_new_game (put v vs) ≡ true
unfolding put
no_new_game-put v [] h k = refl
no_new_game-put v (w ∷ vs) h k = elim (Bool-cases (str_eq v.name w.name)) [
  | inl e ↦
      ap no_new_game (if_true (v ∷ vs) (w ∷ put v vs) e)
      ∙ ap₂ (λ a b. not a && b) h (and_right (not (sets_game w)) (no_new_game vs) k)
  | inr e ↦
      let rest = no_new_game-put v vs h (and_right (not (sets_game w)) (no_new_game vs) k) in
      ap no_new_game (if_false (v ∷ vs) (w ∷ put v vs) e)
      ∙ ap₂ (λ a b. not a && b)
          (false-not (sets_game w) (and_left (not (sets_game w)) (no_new_game vs) k)) rest
]

pub none_freed-put :
    (v : Var) (vs : List Var)
    → is_freed v.latched_string ≡ false
    → none_freed vs ≡ true
    → none_freed (put v vs) ≡ true
unfolding put
none_freed-put v [] h k = refl
none_freed-put v (w ∷ vs) h k = elim (Bool-cases (str_eq v.name w.name)) [
  | inl e ↦ ap none_freed (if_true (v ∷ vs) (w ∷ put v vs) e) ∙ ground (arith, h, k)
  | inr e ↦
      let rest = none_freed-put v vs h (ground (arith, k)) in
      ap none_freed (if_false (v ∷ vs) (w ∷ put v vs) e) ∙ ground (arith, rest, k)
]

pub none_freed-get_ :
    (name : List ℕ) (vs : List Var) (v : Var)
    → none_freed vs ≡ true
    → get_ name vs ≡ some v
    → is_freed v.latched_string ≡ false
unfolding get_
none_freed-get_ name [] v h e = absurd (none_or_some v e)
none_freed-get_ name (w ∷ vs) v h e = elim (Bool-cases (str_eq name w.name)) [
  | inl d ↦
      subst (λ (v : Var). is_freed v.latched_string ≡ false)
        (some-injective (sym (if_true (some w) (get_ name vs) d) ∙ e)) (ground (arith, h))
  | inr d ↦
      none_freed-get_ name vs v (ground (arith, h)) (sym (if_false (some w) (get_ name vs) d) ∙ e)
]

-- What Cvar_UpdateLatched makes of the variables
abbrev pub updated : Var → Var
updated v = record v { string = next_string v.latched_string v.string; latched_string = no_latch }

update_var_lem :
    (v : Var) (l : Latched)
    → is_freed l ≡ false
    → v.latched_string ≡ l
    → update_var v ≡ some (record v { string = next_string l v.string; latched_string = no_latch })
unfolding update_var
update_var_lem v no_latch h e = rw (e) refl
update_var_lem v (latched s) h e = rw (e) refl
update_var_lem v freed h e = cc

pub update_latched_lem :
    (vs : List Var)
    → none_freed vs ≡ true
    → no_new_game vs ≡ true
    → update_latched vs ≡ updated_all (map updated vs)
unfolding update_latched
update_latched_lem [] h k = refl
update_latched_lem (v ∷ vs) h k =
    let game = false-not (sets_game v) (and_left (not (sets_game v)) (no_new_game vs) k) in
    let rest =
      update_latched_lem vs (ground (arith, h))
        (and_right (not (sets_game v)) (no_new_game vs) k) in
    ap (λ b. go_on b (update_var v) vs (update_latched vs)) game
    ∙ ap₂ (λ o r. go_on false o vs r) (update_var_lem v v.latched_string (ground (arith, h)) refl)
        rest

pub get_-updated :
    (name : List ℕ) (vs : List Var) (v : Var)
    → get_ name vs ≡ some v
    → get_ name (map updated vs) ≡ some (updated v)
unfolding get_
get_-updated name [] v e = absurd (none_or_some v e)
get_-updated name (w ∷ vs) v e = elim (Bool-cases (str_eq name w.name)) [
  | inl d ↦
      if_true (some (updated w)) (get_ name (map updated vs)) d
      ∙ ap (λ v. some (updated v)) (some-injective (sym (if_true (some w) (get_ name vs) d) ∙ e))
  | inr d ↦
      if_false (some (updated w)) (get_ name (map updated vs)) d
      ∙ get_-updated name vs v (sym (if_false (some w) (get_ name vs) d) ∙ e)
]

-- `w` is `v` but for a string that is latched, and is to be `n`.
abbrev Waits : Var → List ℕ → Var → Type 0
Waits v n w =
    (w.name ≡ v.name)
    × (w.flags ≡ v.flags)
    × (w.string ≡ v.string)
    × (next_string w.latched_string w.string ≡ n)
    × (is_freed w.latched_string ≡ false)

module _ (env : Env) (up : env.server ≡ true) where
  set_latch_lem :
      (v : Var) (value : List ℕ)
      → set_latch env v value ≡ record v { latched_string = latched value }
  unfolding set_latch
  set_latch_lem v value =
      if_true (record v { latched_string = latched value })
        (record v { latched_string = forget v.latched_string; string = value }) up

  pub change_latched-Waits :
      (v : Var) (value : List ℕ) (l : Latched)
      → is_freed l ≡ false
      → v.latched_string ≡ l
      → (w : Var) × (change_latched env v value ≡ some w) × Waits v value w
  unfolding change_latched
  change_latched-Waits v value no_latch h e = elim (Bool-cases (str_eq value v.string)) [
    | inl d ↦ (
      v,
      rw (e, d) refl,
      (
        refl,
        refl,
        refl,
        ap (λ l. next_string l v.string) e ∙ sym (str_eq-true value v.string d),
        ap is_freed e,
      ),
    )
    | inr d ↦ (
      record v { latched_string = latched value },
      rw (e, d) (ap some (set_latch_lem (record v { latched_string = no_latch }) value)),
      (refl, refl, refl, refl, refl),
    )
  ]
  change_latched-Waits v value (latched s) h e = elim (Bool-cases (str_eq value s)) [
    | inl d ↦ (
      v,
      rw (e, d) refl,
      (
        refl,
        refl,
        refl,
        ap (λ l. next_string l v.string) e ∙ sym (str_eq-true value s d),
        ap is_freed e,
      ),
    )
    | inr d ↦ (
      record v { latched_string = latched value },
      rw (e, d) (ap some (set_latch_lem (record v { latched_string = latched s }) value)),
      (refl, refl, refl, refl, refl),
    )
  ]
  change_latched-Waits v value freed h e = cc
