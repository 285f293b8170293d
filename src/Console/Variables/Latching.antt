-- ===== src/Console/Variables/Latching.antt =====
-- The strings that src/cvar.c holds back for the next game, CVAR_LATCH.
use quake2world.Prelude.{
  ℕ, ◌≡◌, refl, ap, ◌∙◌, Bool, true, false, not, ◌&&◌, ◌||◌, Option, none, some, List, [], ◌∷◌,
  ◌++◌, map, arith, if_true, if_false,
}
use quake2world.UserInfo.{str_eq}
use quake2world.Console.Variables.{
  cvar_cli, cvar_latch, cvar_lo_only, cvar_no_set, has, is_info, latched, freed, Var, Vars, Env,
  info_validate, get_, get_string, put, assign_changed,
}
use quake2world.Console.Variables.Change.{
  change_latched, set_latch, refuses_info, is_online, is_kept, put_var, set_var, set_found, set_,
  set, force_set, updated_all, game_name, is_unlatched, sets_game, update_latched,
}
use quake2world.Console.Variables.Lookup.{get_-name, get_-put}
use quake2world.Console.Variables.NextString.{
  next_string, no_new_game, no_new_game-put, none_freed, none_freed-put, none_freed-get_, updated,
  update_latched_lem, get_-updated, change_latched-Waits,
}

unprotected :
    (a b c d e f : Bool)
    → c ≡ true
    → d ≡ false
    → f ≡ false
    → (a && not b && not c || d && e || f) ≡ false
unprotected a b c d e f h k m = ground (arith, h, k, m)

-- Cvar_Set with one value after the other
abbrev pub sets : Env → List ℕ → List (List ℕ) → Vars → Option Vars
sets env name [] st = some st
sets env name (value ∷ values) st = elim (set env name value st) [
  | none ↦ none
  | some st' ↦ sets env name values st'
]

module _ (env : Env) (name : List ℕ) (flags : ℕ) (string : List ℕ) where
  -- The variable has `flags` and `string`, is to be `n`, no string is freed, and no game is pending.
  abbrev Held : List ℕ → Vars → Type 0
  Held n st =
      (w : Var) × (get_ name st.vars ≡ some w)
      × (w.flags ≡ flags)
      × (w.string ≡ string)
      × (next_string w.latched_string w.string ≡ n)
      × (none_freed st.vars ≡ true)
      × (no_new_game st.vars ≡ true)

  update-Held :
      (n : List ℕ) (st : Vars)
      → Held n st
      → (vs : List Var) × (update_latched st.vars ≡ updated_all vs) × (get_string name vs ≡ n)
  unfolding get_string
  update-Held n st (w, found, f, s, next, free, idle) = (
    map updated st.vars,
    update_latched_lem st.vars free idle,
    ap (λ o. elim o [ none ↦ [] | some v ↦ v.string ]) (get_-updated name st.vars w found) ∙ next,
  )

  module _ (up : env.server ≡ true) (latches : has cvar_latch flags ≡ true)
      (no_info : is_info flags ≡ false) (no_lo_only : has cvar_lo_only flags ≡ false)
      (may_set : has cvar_no_set flags ≡ false) (other : str_eq name game_name ≡ false) where
    set_-latches :
        (v : Var) (value : List ℕ) (st : Vars)
        → v.flags ≡ flags
        → set_var env false v value st ≡ put_var st (change_latched env v value)
    unfolding set_var refuses_info is_kept
    set_-latches v value st f =
        let valid : refuses_info env v value ≡ false =
          ap (λ b. b && not (info_validate value)) (ap is_info f ∙ no_info) in
        let not_local : has cvar_lo_only v.flags ≡ false = ap (has cvar_lo_only) f ∙ no_lo_only in
        let settable : has cvar_no_set v.flags ≡ false = ap (has cvar_no_set) f ∙ may_set in
        let free : is_kept env v st.vars ≡ false =
          unprotected (has cvar_cli v.flags) env.client env.server (has cvar_lo_only v.flags)
            (is_online env st.vars) (has cvar_no_set v.flags) up not_local settable in
        let latch : has cvar_latch v.flags ≡ true = ap (has cvar_latch) f ∙ latches in
        if_false (some st) _ valid
        ∙ if_false (some st) _ free
        ∙ if_true (put_var st (change_latched env v value)) (some (assign_changed v value st)) latch

    set-Held :
        (n value : List ℕ) (st : Vars)
        → Held n st
        → (st' : Vars) × (set env name value st ≡ some st') × Held value st'
    unfolding set set_
    set-Held n value st (w, found, f, s, next, free, idle) =
        let (w', changed, (m, f', s', next', ok)) =
          change_latched-Waits env up w value w.latched_string
            (none_freed-get_ name st.vars w free found) refl in
        let same : w'.name ≡ name = m ∙ get_-name name st.vars w found in
        let no_game : sets_game w' ≡ false =
          ap (λ n. str_eq n game_name && not (is_unlatched w'.latched_string)) same
          ∙ ap (λ b. b && not (is_unlatched w'.latched_string)) other in
        (
          record st { vars = put w' st.vars },
          ap (set_found env false name value st) found
              ∙ set_-latches w value st f
              ∙ ap (put_var st) changed,
          (
            w',
            get_-put name st.vars w' w found same,
            f' ∙ f,
            s' ∙ s,
            next',
            none_freed-put w' st.vars ok free,
            no_new_game-put w' st.vars no_game idle,
          ),
        )

    sets-Held :
        (values : List (List ℕ)) (last n : List ℕ) (st : Vars)
        → Held n st
        → (st' : Vars) × (sets env name (values ++ (last ∷ [])) st ≡ some st') × Held last st'
    sets-Held [] last n st h =
        let (st', e, h') = set-Held n last st h in
        (st', ap (λ o. elim o [ none ↦ none | some st ↦ some st ]) e, h')
    sets-Held (value ∷ values) last n st h =
        let (st', e, h') = set-Held n value st h in
        let (st'', e', h'') = sets-Held values last value st' h' in
        (
          st'',
          ap (λ o. elim o [ none ↦ none | some st ↦ sets env name (values ++ (last ∷ [])) st ]) e
              ∙ e',
          h'',
        )

-- While the server runs, Cvar_Set leaves the string of a CVAR_LATCH variable, which is not "game", is no info variable and no other flag
-- protects, as it is, any number of times, if no latched string has been freed and no new game is pending;
-- Cvar_UpdateLatched then updates all variables and makes the last of the values its string.
pub sets-latched :
    (env : Env) (name : List ℕ) (values : List (List ℕ)) (last : List ℕ) (st : Vars) (v : Var)
    → get_ name st.vars ≡ some v
    → none_freed st.vars ≡ true
    → no_new_game st.vars ≡ true
    → str_eq name game_name ≡ false
    → env.server ≡ true
    → has cvar_latch v.flags ≡ true
    → is_info v.flags ≡ false
    → has cvar_lo_only v.flags ≡ false
    → has cvar_no_set v.flags ≡ false
    → (st' : Vars) × (sets env name (values ++ (last ∷ [])) st ≡ some st')
      × (get_string name st'.vars ≡ v.string)
      × ((vs : List Var) × (update_latched st'.vars ≡ updated_all vs) × (get_string name vs ≡ last))
unfolding get_string
sets-latched env name values last st v found free idle other up l i o s =
    let (st', e, h) =
      sets-Held env name v.flags v.string up l i o s other values last
        (next_string v.latched_string v.string) st (v, found, refl, refl, refl, free, idle) in
    let (w, at, f, same, next, more, idle') = h in
    (
      st',
      e,
      ap (λ o. elim o [ none ↦ [] | some v ↦ v.string ]) at ∙ same,
      update-Held env name v.flags v.string last st' h,
    )

unguarded :
    (a b c d e f : Bool)
    → a ≡ false
    → d ≡ false
    → f ≡ false
    → (a && not b && not c || d && e || f) ≡ false
unguarded a b c d e f h k m = ground (arith, h, k, m)

set_var-latches :
    (env : Env) (v : Var) (value : List ℕ) (st : Vars)
    → has cvar_latch v.flags ≡ true
    → is_info v.flags ≡ false
    → has cvar_cli v.flags ≡ false
    → has cvar_lo_only v.flags ≡ false
    → has cvar_no_set v.flags ≡ false
    → set_var env false v value st ≡ put_var st (change_latched env v value)
unfolding set_var refuses_info is_kept
set_var-latches env v value st latch info cli o s =
    let valid : refuses_info env v value ≡ false = ap (λ b. b && not (info_validate value)) info in
    let free : is_kept env v st.vars ≡ false =
      unguarded (has cvar_cli v.flags) env.client env.server (has cvar_lo_only v.flags)
        (is_online env st.vars) (has cvar_no_set v.flags) cli o s in
    if_false (some st) _ valid
    ∙ if_false (some st) _ free
    ∙ if_true (put_var st (change_latched env v value)) (some (assign_changed v value st)) latch

-- When no server runs, Cvar_Set of a CVAR_LATCH variable that has a pending string, with another value than that, sets the
-- variable to the value, but frees the pending string and keeps its address: if the variable is no info variable
-- and no other flag protects it, the next Cvar_Set or Cvar_ForceSet of it, whatever the value, reads or frees what is free.
pub pending-freed :
    (env : Env) (name : List ℕ) (st : Vars) (v : Var) (pending value more : List ℕ)
    → get_ name st.vars ≡ some v
    → v.latched_string ≡ latched pending
    → str_eq value pending ≡ false
    → env.server ≡ false
    → has cvar_latch v.flags ≡ true
    → is_info v.flags ≡ false
    → has cvar_cli v.flags ≡ false
    → has cvar_lo_only v.flags ≡ false
    → has cvar_no_set v.flags ≡ false
    → (st' : Vars) × (set env name value st ≡ some st')
      × (get_string name st'.vars ≡ value)
      × (set env name more st' ≡ none)
      × (force_set env name more st' ≡ none)
unfolding set force_set set_ get_string set_var change_latched set_latch refuses_info
pending-freed env name st v pending value more found l d down latch info cli o s =
    let w : Var = record v { latched_string = freed; string = value } in
    let st' : Vars = record st { vars = put w st.vars } in
    let changed : change_latched env v value ≡ some w = rw (l, d, down) refl in
    let at : get_ name st'.vars ≡ some w =
      get_-put name st.vars w v found (get_-name name st.vars v found) in
    (
      st',
      ap (set_found env false name value st) found
          ∙ set_var-latches env v value st latch info cli o s
          ∙ ap (put_var st) changed,
      ap (λ o. elim o [ none ↦ [] | some v ↦ v.string ]) at,
      ap (set_found env false name more st') at ∙ set_var-latches env w more st' latch info cli o s,
      ap (set_found env true name more st') at
          ∙ if_false (some st') _ (ap (λ b. b && not (info_validate more)) info),
    )
