-- ===== src/Console/Config/Restore.antt =====
-- The configuration that src/cvar.c writes with Cvar_WriteAll is what src/cmd.c restores the variables from.
use quake2world.Prelude.{
  ℕ, ◌<◌, ◌≡◌, refl, sym, ap, ◌∙◌, subst, Bool-cases, inl, inr, true, false, Option, none, some,
  List, [], ◌∷◌, map, arith, length, if_true, if_false,
}
use quake2world.UserInfo.{str_eq}
use quake2world.UserInfo.Pairs.{str_eq-true}
use quake2world.Console.Tokens.{Args, max_string_chars, tokenize}
use quake2world.Console.Tokens.Printing.{Item, word, quoted, are_items, texts, args_of, print_items}
use quake2world.Console.Tokens.RoundTrip.{tokenize-print_items}
use quake2world.Console.Buffer.{
  Cbuf, Command, ran, run_tokens, run_command, execute_string, execute,
}
use quake2world.Console.Buffer.Lines.{Runs, all_run, line_runs, execute-Runs}
use quake2world.Console.Variables.{cvar_archive, Var, Vars, Env, get_, get_string, string_or_empty}
use quake2world.Console.Variables.Change.{set}
use quake2world.Console.Variables.Lookup.{none_or_some, some-injective}
use quake2world.Console.Variables.Order.{names, is_sorted}
use quake2world.Console.Variables.Strict.{
  all_after, strict, with_flags, sorted-strict, all_after-get_,
}
use quake2world.Console.Variables.Setting.{Leaves}
use quake2world.Console.Config.Lines.{
  set-accepted, the_state, is_plain, ready, ready-frame, set_line-print_items, ready-AreLines,
  write_all-unlines,
}
use quake2world.Console.Config.{
  set_name, set_by_name, set_f, keep_buffer, set_command, console, set_line, write_all,
}

length-map : (vs : List Var) → length (map set_line vs) ≡ length vs
length-map [] = refl
length-map (v ∷ vs) = omega (arith, length-map vs)

module _ (env : Env) (commands : List ℕ → Option (Command Vars)) (forward : Args → Vars → Vars)
    (h : commands set_name ≡ some (set_command env)) where
  run_set_line :
      (v : Var) (st st' : Vars) (b : Cbuf)
      → is_plain v ≡ true
      → set env v.name v.string st ≡ some st'
      → execute_string (console env commands forward) (set_line v) (b, st) ≡ some (b, st')
  unfolding execute_string run_tokens run_command set_f set_by_name
  run_set_line v st st' b p e =
      let items : List Item = word set_name ∷ word v.name ∷ quoted v.string ∷ [] in
      let plain : are_items items ≡ true = ground (arith, p) in
      let short : length (print_items items) < max_string_chars =
        subst (λ l. length l < max_string_chars) (set_line-print_items v) (ground (arith, p)) in
      let variable = λ (name : List ℕ). get_string name st.vars in
      ap (run_tokens (console env commands forward) (b, st)) (
        ap (tokenize variable) (set_line-print_items v)
        ∙ tokenize-print_items variable items plain (omega arith) short)
      ∙ ap
          (run_command (console env commands forward)
            (record { argv = texts items; args = args_of items }) (b, st))
          h
      ∙ ap (keep_buffer b) e

  abbrev Restored : List Var → Vars → Vars → Type 0
  Restored vs st st' =
      ((name : List ℕ) (v : Var) → get_ name vs ≡ some v → get_string name st'.vars ≡ v.string)
      × ((name : List ℕ) → get_ name vs ≡ none → get_ name st'.vars ≡ get_ name st.vars)

  first_and_rest :
      (v : Var) (vs : List Var) (st st' st'' : Vars)
      → all_after v.name vs ≡ true
      → Leaves st v.name v.string st'
      → Restored vs st' st''
      → Restored (v ∷ vs) st st''
  unfolding get_ get_string
  first_and_rest v vs st st' st'' a (s, f) (r, k) = (
    (λ name w e. elim (Bool-cases (str_eq name v.name)) [
      | inl d ↦
          let w_is : v ≡ w = some-injective (sym (if_true (some v) (get_ name vs) d) ∙ e) in
          let n_is : name ≡ v.name = str_eq-true name v.name d in
          ap (λ n. get_string n st''.vars) n_is
          ∙ ap string_or_empty (k v.name (all_after-get_ v.name vs a))
          ∙ s
          ∙ ap (λ (v : Var). v.string) w_is
      | inr d ↦ r name w (sym (if_false (some v) (get_ name vs) d) ∙ e)
    ]),
    (λ name e. elim (Bool-cases (str_eq name v.name)) [
      | inl d ↦ absurd (none_or_some v (sym e ∙ if_true (some v) (get_ name vs) d))
      | inr d ↦ k name (sym (if_false (some v) (get_ name vs) d) ∙ e) ∙ f name d
    ]),
  )

  abbrev RunsLines : List Var → Vars → Type 0
  RunsLines vs st =
      (st' : Vars) × Runs (console env commands forward) (map set_line vs) st st' []
      × Restored vs st st'

  runs_cons :
      (v : Var) (vs : List Var) (st st' : Vars)
      → is_plain v ≡ true
      → all_after v.name vs ≡ true
      → set env v.name v.string st ≡ some st'
      → Leaves st v.name v.string st'
      → RunsLines vs st'
      → RunsLines (v ∷ vs) st
  runs_cons v vs st st' p a e l (st'', runs, rest) = (
    st'',
    line_runs (λ b. run_set_line v st st' b p e) runs,
    first_and_rest v vs st st' st'' a l rest,
  )

  runs_next :
      (v : Var) (vs : List Var) (st : Vars)
      → env.server ≡ false
      → strict (v ∷ vs) ≡ true
      → ready (v ∷ vs) st ≡ true
      → ((st' : Vars) → ready vs st' ≡ true → RunsLines vs st')
      → (st' : Vars) × (set env v.name v.string st ≡ some st') × Leaves st v.name v.string st'
      → RunsLines (v ∷ vs) st
  runs_next v vs st down o r next (st', e, l) =
      let after : all_after v.name vs ≡ true = ground (arith, o) in
      runs_cons v vs st st' (ground (arith, r)) after e l
        (next st' (ready-frame v.name vs st st' after l.1 (ground (arith, r))))

  runs_lines :
      (vs : List Var) (st : Vars)
      → env.server ≡ false
      → strict vs ≡ true
      → ready vs st ≡ true
      → RunsLines vs st
  unfolding get_
  runs_lines [] st down o r =
      (st, all_run, ((λ name v e. absurd (none_or_some v e)), (λ name e. refl)))
  runs_lines (v ∷ vs) st down o r =
      runs_next v vs st down o r (λ st' r'. runs_lines vs st' down (ground (arith, o)) r')
        (the_state st v.name v.string (set env v.name v.string st)
          (set-accepted env down v.name v.string st (ground (arith, r))))

  -- Cbuf_Execute on the text that Cvar_WriteAll wrote gives each archived variable the string that it had, and changes no
  -- other. The names are in their order; each archived name and string can be read back by Cmd_TokenizeString; `set` is the
  -- command Cvar_Set_f; no server runs, and an archived variable that is there already takes values from the console. `fuel` is one more than the lines.
  pub execute-write_all :
      (saved : List Var) (st : Vars) (b : Cbuf) (fuel : ℕ)
      → env.server ≡ false
      → is_sorted (names saved) ≡ true
      → ready (with_flags cvar_archive saved) st ≡ true
      → length (with_flags cvar_archive saved) < fuel
      → (st' : Vars) × (execute
            (console env commands forward)
            fuel
            (record b { pending = write_all saved; wait = false }, st)
          ≡ ran (record b { pending = []; wait = false; alias_loop_count = 0 }, st'))
        × ((name : List ℕ) (v : Var)
            → get_ name (with_flags cvar_archive saved) ≡ some v
            → get_string name st'.vars ≡ v.string)
        × ((name : List ℕ)
            → get_ name (with_flags cvar_archive saved) ≡ none
            → get_ name st'.vars ≡ get_ name st.vars)
  execute-write_all saved st b fuel down o r n =
      let vs = with_flags cvar_archive saved in
      let (st', runs, rest) = runs_lines vs st down (sorted-strict cvar_archive saved o) r in
      (
        st',
        ap
              (λ t.
                execute (console env commands forward) fuel
                  (record b { pending = t; wait = false }, st))
              (write_all-unlines saved)
            ∙ execute-Runs (console env commands forward) fuel b runs (ready-AreLines vs st r)
                (omega (arith, n, length-map vs)),
        rest.0,
        rest.1,
      )
