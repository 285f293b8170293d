-- ===== src/Console/Config/Lines.antt =====
-- The lines that Cvar_WriteAll of src/cvar.c writes, and the variables that take their values back.
use quake2world.Prelude.{
  ℕ, ◌≡◌, refl, sym, ap, ap₂, ◌∙◌, subst, Bool, Bool-cases, Option-cases, inl, inr, true, false,
  not, ◌&&◌, ◌||◌, Option, none, some, List, [], ◌∷◌, ◌++◌, append-nil, map, arith, length, ltb,
  if_true, if_false,
}
use quake2world.UserInfo.{quote, str_eq}
use quake2world.Console.Tokens.{newline, space, max_string_chars}
use quake2world.Console.Tokens.Printing.{word, quoted, is_item, print_items}
use quake2world.Console.Buffer.Lines.{unbroken, unlines, AreLines}
use quake2world.Console.Variables.{
  cvar_archive, cvar_cli, cvar_lo_only, cvar_no_set, cvar_latch, has, is_info, Latched, no_latch,
  latched, freed, Var, Vars, Env, info_validate, get_, get_string, string_or_empty, new_var,
  get_or_create, get,
}
use quake2world.Console.Variables.Change.{
  is_unlatched, refuses_info, is_kept, is_online, set_found, set_, set,
}
use quake2world.Console.Variables.Lookup.{get_-insert_sorted, get_-insert_sorted_other}
use quake2world.Console.Variables.Strict.{all_after, with_flags, str_less-differs_back}
use quake2world.Console.Variables.Setting.{Leaves, Yields, set-Yields}
use quake2world.Console.Config.{set_name, set_line, write_all}

-- A variable that is not there yet, or that takes the value from the console
abbrev pub accepts : Option Var → List ℕ → Bool
accepts none value = true
accepts (some u) value =
    not (is_info u.flags && not (info_validate value))
    && not (has cvar_cli u.flags)
    && not (has cvar_lo_only u.flags)
    && not (has cvar_no_set u.flags)
    && is_unlatched u.latched_string

unlatched_is : (l : Latched) → is_unlatched l ≡ true → l ≡ no_latch
unlatched_is no_latch h = refl
unlatched_is (latched s) h = cc
unlatched_is freed h = cc

takes :
    (info cli off lo online no_set latch server : Bool) (u : Bool)
    → (not info && not cli && not lo && not no_set && u) ≡ true
    → server ≡ false
    → (info || (cli && off && not server || lo && online || no_set) || latch && server) ≡ false
takes info cli off lo online no_set latch server u h k = ground (arith, h, k)

unlatched : (a b c d e : Bool) → (a && b && c && d && e) ≡ true → e ≡ true
unlatched a b c d e h = ground (arith, h)

module _ (env : Env) (down : env.server ≡ false) (name value : List ℕ) (st : Vars) where
  set_new : get_ name st.vars ≡ none → Yields st name value (set env name value st)
  unfolding set set_ get get_or_create get_string
  set_new e =
      let v = new_var name value 0 in
      let found = get_-insert_sorted name st.vars v e refl in
      subst (λ o. Yields st name value (set_found env false name value st o)) (sym e)
        (subst (λ o. Yields st name value (some (get_or_create name (some value) 0 st o))) (sym e)
          (ap string_or_empty found, (λ other d. get_-insert_sorted_other other st.vars v d)))

  set_there :
      (u : Var)
      → get_ name st.vars ≡ some u
      → accepts (some u) value ≡ true
      → Yields st name value (set env name value st)
  unfolding refuses_info is_kept
  set_there u e a =
      let free : u.latched_string ≡ no_latch = unlatched_is u.latched_string (
        unlatched (not (is_info u.flags && not (info_validate value))) (not (has cvar_cli u.flags))
          (not (has cvar_lo_only u.flags)) (not (has cvar_no_set u.flags))
          (is_unlatched u.latched_string) a) in
      let taken =
        takes (is_info u.flags && not (info_validate value)) (has cvar_cli u.flags) (not env.client)
          (has cvar_lo_only u.flags) (is_online env st.vars) (has cvar_no_set u.flags)
          (has cvar_latch u.flags) env.server (is_unlatched u.latched_string) a down in
      subst (λ s. Yields st name s (set env name value st)) (if_false u.string value taken)
        (set-Yields env name value st u e free)

  pub set-accepted :
      accepts (get_ name st.vars) value ≡ true → Yields st name value (set env name value st)
  set-accepted a = elim (Option-cases (get_ name st.vars)) [
    | inl e ↦ set_new e
    | inr (u, e) ↦ set_there u e (subst (λ o. accepts o value ≡ true) e a)
  ]

pub the_state :
    (st : Vars) (name s : List ℕ) (o : Option Vars)
    → Yields st name s o
    → (st' : Vars) × (o ≡ some st') × Leaves st name s st'
the_state st name s none h = absurd h
the_state st name s (some st') h = (st', refl, h)

-- A name and a string that Cmd_TokenizeString reads back, in a line that is short enough
abbrev pub is_plain : Var → Bool
is_plain v =
    is_item (word v.name)
    && is_item (quoted v.string)
    && unbroken false (set_line v)
    && ltb (length (set_line v)) max_string_chars

abbrev pub ready : List Var → Vars → Bool
ready [] st = true
ready (v ∷ vs) st = (is_plain v && accepts (get_ v.name st.vars) v.string) && ready vs st

pub ready-frame :
    (n : List ℕ) (vs : List Var) (st st' : Vars)
    → all_after n vs ≡ true
    → ((other : List ℕ) → str_eq other n ≡ false → get_ other st'.vars ≡ get_ other st.vars)
    → ready vs st ≡ true
    → ready vs st' ≡ true
ready-frame n [] st st' a f h = refl
ready-frame n (v ∷ vs) st st' a f h =
    let same = f v.name (str_less-differs_back n v.name (ground (arith, a))) in
    let rest = ready-frame n vs st st' (ground (arith, a)) f (ground (arith, h)) in
    ap₂ (λ o r. (is_plain v && accepts o v.string) && r) same rest ∙ ground (arith, h)

pub set_line-print_items :
    (v : Var) → set_line v ≡ print_items (word set_name ∷ word v.name ∷ quoted v.string ∷ [])
set_line-print_items v =
    ap (λ s. set_name ++ (space ∷ (v.name ++ (space ∷ s))))
      (sym (append-nil (quote ∷ (v.string ++ (quote ∷ [])))))

pub ready-AreLines : (vs : List Var) (st : Vars) → ready vs st ≡ true → AreLines (map set_line vs)
ready-AreLines [] st h = tt
ready-AreLines (v ∷ vs) st h =
    (ground (arith, h), ground (arith, h), ready-AreLines vs st (ground (arith, h)))

pub write_all-unlines :
    (vs : List Var) → write_all vs ≡ unlines (map set_line (with_flags cvar_archive vs))
unfolding write_all
write_all-unlines [] = refl
write_all-unlines (v ∷ vs) = elim (Bool-cases (has cvar_archive v.flags)) [
  | inl e ↦
      if_true (set_line v ++ (newline ∷ write_all vs)) (write_all vs) e
      ∙ ap (λ s. set_line v ++ (newline ∷ s)) (write_all-unlines vs)
      ∙ ap (λ vs. unlines (map set_line vs))
          (sym (if_true (v ∷ with_flags cvar_archive vs) (with_flags cvar_archive vs) e))
  | inr e ↦
      if_false (set_line v ++ (newline ∷ write_all vs)) (write_all vs) e
      ∙ write_all-unlines vs
      ∙ ap (λ vs. unlines (map set_line vs))
          (sym (if_false (v ∷ with_flags cvar_archive vs) (with_flags cvar_archive vs) e))
]
