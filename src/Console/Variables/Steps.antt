-- ===== src/Console/Variables/Steps.antt =====
-- The operations of src/cvar.c as steps, and what each of them keeps of the list of variables.
use quake2world.Prelude.{
  ℕ, ◌≡◌, refl, ap, ap₂, ◌∙◌, subst, Bool, true, false, not, ◌&&◌, Option, none, some, List, [],
  ◌∷◌, map, if◌then◌else◌,
}
use quake2world.UserInfo.{str_eq}
use quake2world.Console.Variables.{
  cvar_lo_only, cvar_latch, zero_digit, one_digit, has, is_info, no_latch, latched, freed, Var,
  Vars, Env, info_validate, value_validate, get_, put, new_var, with_meta, get_or_create, get,
  assign, assign_changed,
}
use quake2world.Console.Variables.Change.{
  unlatch, change_latched, is_online, refuses_info, is_kept, put_var, assign_var, set_var,
  set_found, set_, set, toggle, toggle_found, reset_var, reset_local, full_set_found, full_set,
  update_var, Updated, updated_all, game_set, stale, cons_updated, sets_game, go_on, update_latched,
  clear_var, clear_all,
}
use quake2world.Console.Variables.Order.{names, is_sorted, names-put, is_sorted-insert_sorted}

abbrev pub Sorted : Vars → Type 0
Sorted st = is_sorted (names st.vars) ≡ true

choose : {A : Type 0} (P : A → Type 0) (b : Bool) {x y : A} → P x → P y → P (if b then x else y)
choose P true p q = p
choose P false p q = q

put-Sorted :
    (v : Var) (vs : List Var) → is_sorted (names vs) ≡ true → is_sorted (names (put v vs)) ≡ true
put-Sorted v vs h = ap is_sorted (names-put v vs) ∙ h

get_or_create-Sorted :
    (name : List ℕ) (value : Option (List ℕ)) (flags : ℕ) (st : Vars) (o : Option Var)
    → get_ name st.vars ≡ o
    → Sorted st
    → Sorted (get_or_create name value flags st o)
unfolding get_or_create
get_or_create-Sorted name value flags st (some v) e h =
    put-Sorted (with_meta value flags v) st.vars h
get_or_create-Sorted name none flags st none e h = h
get_or_create-Sorted name (some value) flags st none e h =
    is_sorted-insert_sorted (new_var name value flags) st.vars e h

pub get-Sorted :
    (name : List ℕ) (value : Option (List ℕ)) (flags : ℕ) (st : Vars)
    → Sorted st
    → Sorted (get name value flags st)
unfolding get
get-Sorted name value flags st h =
    choose Sorted (is_info flags && not (info_validate name && value_validate value)) h
      (get_or_create-Sorted name value flags st (get_ name st.vars) refl h)

assign-Sorted :
    (v : Var) (value : List ℕ) (flags : ℕ) (st : Vars)
    → Sorted st
    → Sorted (assign v value flags st)
unfolding assign
assign-Sorted v value flags st h =
    put-Sorted (record v { string = value; modified = true; flags = flags }) st.vars h

assign_changed-Sorted :
    (v : Var) (value : List ℕ) (st : Vars) → Sorted st → Sorted (assign_changed v value st)
unfolding assign_changed
assign_changed-Sorted v value st h =
    choose Sorted (str_eq value v.string) (put-Sorted v st.vars h)
      (assign-Sorted v value v.flags st h)

-- What holds of the state, if there is one.
abbrev Of : (Vars → Type 0) → Option Vars → Type 0
Of P none = Unit
Of P (some st) = P st

put_var-Of : (st : Vars) (o : Option Var) → Sorted st → Of Sorted (put_var st o)
put_var-Of st none h = tt
put_var-Of st (some v) h = put-Sorted v st.vars h

assign_var-Of :
    (value : List ℕ) (st : Vars) (o : Option Var) → Sorted st → Of Sorted (assign_var value st o)
assign_var-Of value st none h = tt
assign_var-Of value st (some v) h = assign_changed-Sorted v value st h

module _ (env : Env) where
  set_var-Of :
      (force : Bool) (v : Var) (value : List ℕ) (st : Vars)
      → Sorted st
      → Of Sorted (set_var env force v value st)
  unfolding set_var
  set_var-Of force v value st h =
      let changed = assign_changed-Sorted v value st h in
      choose (Of Sorted) (refuses_info env v value) h (
        choose (Of Sorted) force (assign_var-Of value st (unlatch v) h) (
          choose (Of Sorted) (is_kept env v st.vars) h (
            choose (Of Sorted) (has cvar_latch v.flags)
              (put_var-Of st (change_latched env v value) h) changed)))

  set_-Of :
      (force : Bool) (name value : List ℕ) (st : Vars)
      → Sorted st
      → Of Sorted (set_ env force name value st)
  unfolding set_
  set_-Of force name value st h =
      elim (get_ name st.vars) as (λ o. Of Sorted (set_found env force name value st o)) [
        | none ↦ get-Sorted name (some value) 0 st h
        | some v ↦ set_var-Of force v value st h
      ]

  toggle-Of : (name : List ℕ) (st : Vars) → Sorted st → Of Sorted (toggle env name st)
  unfolding toggle set
  toggle-Of name st h = elim (get_ name st.vars) as (λ o. Of Sorted (toggle_found env name st o)) [
    | none ↦ h
    | some v ↦ set_-Of false name (if env.non_zero v.string then zero_digit else one_digit) st h
  ]

  names-reset : (vs : List Var) → names (map (reset_var env) vs) ≡ names vs
  unfolding reset_var
  names-reset [] = refl
  names-reset (v ∷ vs) =
      ap₂ (λ n ns. n ∷ ns)
        (choose (λ w. w.name ≡ v.name) (has cvar_lo_only v.flags)
          {x = record v { string = v.default_value; modified = true }} {y = v} refl refl)
        (names-reset vs)

  reset_local-Sorted : (st : Vars) → Sorted st → Sorted (reset_local env st)
  unfolding reset_local
  reset_local-Sorted st h =
      choose Sorted (is_online env st.vars) (ap is_sorted (names-reset st.vars) ∙ h) h

full_set-Sorted :
    (name value : List ℕ) (flags : ℕ) (st : Vars)
    → Sorted st
    → Sorted (full_set name value flags st)
unfolding full_set
full_set-Sorted name value flags st h =
    elim (get_ name st.vars) as (λ o. Sorted (full_set_found name value flags st o)) [
      | none ↦ get-Sorted name (some value) flags st h
      | some v ↦ assign-Sorted v value flags st h
    ]

abbrev Names : List (List ℕ) → Updated → Type 0
Names ns stale = Unit
Names ns (updated_all vs) = names vs ≡ ns
Names ns (game_set vs) = names vs ≡ ns

abbrev Named : List ℕ → Option Var → Type 0
Named n none = Unit
Named n (some v) = v.name ≡ n

cons_updated-Names :
    (n : List ℕ) (ns : List (List ℕ)) (v : Var) (u : Updated)
    → v.name ≡ n
    → Names ns u
    → Names (n ∷ ns) (cons_updated v u)
cons_updated-Names n ns v (updated_all vs) e f = ap₂ (λ n ns. n ∷ ns) e f
cons_updated-Names n ns v (game_set vs) e f = ap₂ (λ n ns. n ∷ ns) e f
cons_updated-Names n ns v stale e f = tt

go_on-Names :
    (game : Bool) (n : List ℕ) (o : Option Var) (vs : List Var) (u : Updated)
    → Named n o
    → Names (names vs) u
    → Names (n ∷ names vs) (go_on game o vs u)
go_on-Names game n none vs u e f = tt
go_on-Names true n (some v) vs u e f = ap (λ n. n ∷ names vs) e
go_on-Names false n (some v) vs u e f = cons_updated-Names n (names vs) v u e f

update_var-Named : (v : Var) → Named v.name (update_var v)
unfolding update_var
update_var-Named v =
    elim v.latched_string
      as (λ l. Named v.name (elim l [
        | no_latch ↦ some v
        | latched s ↦ some (record v { string = s; latched_string = no_latch })
        | freed ↦ none
      ])) [ no_latch ↦ refl | latched s ↦ refl | freed ↦ tt ]

update_latched-Names : (vs : List Var) → Names (names vs) (update_latched vs)
unfolding update_latched
update_latched-Names [] = refl
update_latched-Names (v ∷ vs) =
    go_on-Names (sets_game v) v.name (update_var v) vs (update_latched vs) (update_var-Named v)
      (update_latched-Names vs)

names-clear : (mask : ℕ) (vs : List Var) → names (clear_all mask vs) ≡ names vs
unfolding clear_all clear_var
names-clear mask [] = refl
names-clear mask (v ∷ vs) =
    ap₂ (λ n ns. n ∷ ns)
      (choose (λ w. w.name ≡ v.name) (has mask v.flags && v.modified)
        {x = record v { modified = false }} {y = v} refl refl)
      (names-clear mask vs)

-- One call of an operation that changes the variables, in any state of the client and the server
pub data Step : Vars → Vars → Type 0 where
  by_get :
      {st : Vars} (name : List ℕ) (value : Option (List ℕ)) (flags : ℕ)
      → Step st (get name value flags st)
  by_set :
      {st st' : Vars} (env : Env) (force : Bool) (name value : List ℕ)
      → set_ env force name value st ≡ some st'
      → Step st st'
  by_toggle :
      {st st' : Vars} (env : Env) (name : List ℕ) → toggle env name st ≡ some st' → Step st st'
  by_full_set :
      {st : Vars} (name value : List ℕ) (flags : ℕ) → Step st (full_set name value flags st)
  by_reset_local : {st : Vars} (env : Env) → Step st (reset_local env st)
  by_update_latched :
      {st : Vars} {vs : List Var}
      → update_latched st.vars ≡ updated_all vs
      → Step st (record st { vars = vs })
  -- up to Fs_SetGame; what is run then, and the rest of the variables, follow as calls of their own
  by_game_set :
      {st : Vars} {vs : List Var}
      → update_latched st.vars ≡ game_set vs
      → Step st (record st { vars = vs })
  by_update_var :
      {st : Vars} {v w : Var} (name : List ℕ)
      → get_ name st.vars ≡ some v
      → update_var v ≡ some w
      → Step st (record st { vars = put w st.vars })
  by_clear_all : {st : Vars} (mask : ℕ) → Step st (record st { vars = clear_all mask st.vars })

-- Any number of calls
pub data Calls : Vars → Vars → Type 0 where
  no_call : {st : Vars} → Calls st st
  call : {a b c : Vars} → Step a b → Calls b c → Calls a c

step-Sorted : {a b : Vars} → Step a b → Sorted a → Sorted b
step-Sorted {a = st} (by_get name value flags) h = get-Sorted name value flags st h
step-Sorted {a = st} (by_set env force name value e) h =
    subst (Of Sorted) e (set_-Of env force name value st h)
step-Sorted {a = st} (by_toggle env name e) h = subst (Of Sorted) e (toggle-Of env name st h)
step-Sorted {a = st} (by_full_set name value flags) h = full_set-Sorted name value flags st h
step-Sorted {a = st} (by_reset_local env) h = reset_local-Sorted env st h
step-Sorted {a = st} (by_update_latched {vs = vs} e) h =
    ap is_sorted (subst (Names (names st.vars)) e (update_latched-Names st.vars)) ∙ h
step-Sorted {a = st} (by_game_set {vs = vs} e) h =
    ap is_sorted (subst (Names (names st.vars)) e (update_latched-Names st.vars)) ∙ h
step-Sorted {a = st} (by_update_var {w = w} name found e) h = put-Sorted w st.vars h
step-Sorted {a = st} (by_clear_all mask) h = ap is_sorted (names-clear mask st.vars) ∙ h

-- Whatever calls of Cvar_Get, Cvar_Set, Cvar_ForceSet, Cvar_FullSet, Cvar_Toggle, Cvar_ResetLocal, Cvar_UpdateLatched
-- and Cvar_ClearAll are made, the names of the variables stay in the strict order of strcmp, no name twice,
-- if they are so at first.
pub Calls-Sorted : {a b : Vars} → Calls a b → Sorted a → Sorted b
Calls-Sorted no_call h = h
Calls-Sorted (call s r) h = Calls-Sorted r (step-Sorted s h)
