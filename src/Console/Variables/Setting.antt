-- ===== src/Console/Variables/Setting.antt =====
-- What Cvar_Set of src/cvar.c leaves: the string of the variable, and the other variables.
use quake2world.Prelude.{
  ℕ, ◌≡◌, refl, sym, ap, ◌∙◌, subst, Bool, Bool-cases, inl, inr, true, false, ◌&&◌, ◌||◌, Option,
  none, some, List, [], if◌then◌else◌, if_true, if_false,
}
use quake2world.UserInfo.{str_eq}
use quake2world.UserInfo.Pairs.{str_eq-true}
use quake2world.Console.Variables.{
  cvar_latch, cvar_user_info, has, no_latch, latched, Var, Vars, Env, get_, get_string, put, assign,
  assign_changed,
}
use quake2world.Console.Variables.Change.{
  forget, change_latched, set_latch, refuses_info, is_kept, put_var, set_var, set_found, set_, set,
}
use quake2world.Console.Variables.Lookup.{get_-name, get_-put, get_-put_other}

-- The variable `name` of `st` has the string `s`, and the others are those of `before`.
abbrev pub Leaves : Vars → List ℕ → List ℕ → Vars → Type 0
Leaves before name s st =
    (get_string name st.vars ≡ s)
    × ((other : List ℕ) → str_eq other name ≡ false → get_ other st.vars ≡ get_ other before.vars)

abbrev pub Yields : Vars → List ℕ → List ℕ → Option Vars → Type 0
Yields before name s none = ⊥
Yields before name s (some st) = Leaves before name s st

pub choose₂ :
    {A B : Type 0} (P : B → A → Type 0) (b : Bool) {u w : B} {x y : A}
    → P u x
    → P w y
    → P (if b then u else w) (if b then x else y)
choose₂ P true p q = p
choose₂ P false p q = q

module _ (name : List ℕ) (st : Vars) (w : Var) (found : get_ name st.vars ≡ some w) where
  keeps : Leaves st name w.string st
  unfolding get_string
  keeps = (ap (λ o. elim o [ none ↦ [] | some v ↦ v.string ]) found, (λ other d. refl))

  puts :
      (v : Var)
      → v.name ≡ name
      → (m : Bool)
      → Leaves st name v.string (record { vars = put v st.vars; user_info_modified = m })
  unfolding get_string
  puts v n m = (
    ap (λ o. elim o [ none ↦ [] | some v ↦ v.string ]) (get_-put name st.vars v w found n),
    (λ other d. get_-put_other other st.vars v (subst (λ n. str_eq other n ≡ false) (sym n) d)),
  )

  pub changes :
      (v : Var) (value : List ℕ) → v.name ≡ name → Leaves st name value (assign_changed v value st)
  unfolding assign_changed assign
  changes v value n = elim (Bool-cases (str_eq value v.string)) [
    | inl e ↦
        subst (Leaves st name value)
          (sym (if_true (record st { vars = put v st.vars }) (assign v value v.flags st) e))
          (subst (λ s. Leaves st name s (record st { vars = put v st.vars }))
            (sym (str_eq-true value v.string e)) (puts v n st.user_info_modified))
    | inr e ↦
        subst (Leaves st name value)
          (sym (if_false (record st { vars = put v st.vars }) (assign v value v.flags st) e))
          (puts (record v { string = value; modified = true }) n
            (has cvar_user_info v.flags || st.user_info_modified))
  ]

if_same : {A : Type 0} (b : Bool) (x : A) → (if b then x else x) ≡ x
if_same true x = refl
if_same false x = refl

nested :
    {A : Type 0} (a b c d : Bool) (x y : A)
    → (if a || b || c && d then x else y)
      ≡ (if a then x else if b then x else if c then if d then x else y else y)
nested true b c d x y = refl
nested false true c d x y = refl
nested false false true d x y = refl
nested false false false d x y = refl

module _ (env : Env) (name value : List ℕ) (st : Vars) (v : Var) where
  abbrev pub string_after : List ℕ
  string_after =
      if refuses_info env v value || is_kept env v st.vars || has cvar_latch v.flags && env.server
      then v.string
      else value

  module _ (found : get_ name st.vars ≡ some v) (no_pending : v.latched_string ≡ no_latch) where
    v_name : v.name ≡ name
    v_name = get_-name name st.vars v found

    no_latch_change :
        change_latched env v value
        ≡ some (if str_eq value v.string then v else set_latch env v value)
    unfolding change_latched
    no_latch_change = rw (no_pending) refl

    sets_latch :
        (e : str_eq value v.string ≡ false)
        → Leaves st name
            (if env.server then v.string else value)
            (record st { vars = put (set_latch env v value) st.vars })
    unfolding set_latch
    sets_latch e =
        choose₂ (λ w s. Leaves st name s (record st { vars = put w st.vars })) env.server
          {u = record v { latched_string = latched value }}
          {w = record v { latched_string = forget v.latched_string; string = value }}
          (puts name st v found (record v { latched_string = latched value }) v_name
            st.user_info_modified)
          (puts name st v found
            (record v { latched_string = forget v.latched_string; string = value }) v_name
            st.user_info_modified)

    latches :
        Yields st name
          (if env.server then v.string else value)
          (put_var st (change_latched env v value))
    latches = elim (Bool-cases (str_eq value v.string)) [
      | inl e ↦
          let s_is : value ≡ v.string = str_eq-true value v.string e in
          subst (λ o. Yields st name (if env.server then v.string else value) (put_var st o))
            (sym (no_latch_change ∙ ap some (if_true v (set_latch env v value) e)))
            (subst (λ s. Leaves st name s (record st { vars = put v st.vars }))
              (sym
                (ap (λ t. if env.server then v.string else t) s_is ∙ if_same env.server v.string))
              (puts name st v found v v_name st.user_info_modified))
      | inr e ↦
          subst (λ o. Yields st name (if env.server then v.string else value) (put_var st o))
            (sym (no_latch_change ∙ ap some (if_false v (set_latch env v value) e))) (sets_latch e)
    ]

    pub set-Yields : Yields st name string_after (set env name value st)
    unfolding set set_ set_var
    set-Yields =
        subst (λ o. Yields st name string_after (set_found env false name value st o)) (sym found)
          (subst (λ s. Yields st name s (set_var env false v value st))
            (sym (
              nested (refuses_info env v value) (is_kept env v st.vars) (has cvar_latch v.flags)
                env.server v.string value))
            (choose₂ (λ o s. Yields st name s o) (refuses_info env v value) (keeps name st v found)
              (choose₂ (λ o s. Yields st name s o) (is_kept env v st.vars) (keeps name st v found)
                (choose₂ (λ o s. Yields st name s o) (has cvar_latch v.flags) latches
                  (changes name st v found v value v_name)))))
