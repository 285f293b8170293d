-- ===== src/Console/Tests.antt =====
-- The console of src/cmd.c and src/cvar.c at concrete inputs.
use quake2world.Prelude.{
  ℕ, ◌≤◌, ◌≡◌, ◌≢◌, refl, ap, true, false, Option, none, some, List, [], ◌∷◌, ◌++◌, ◌+◌, ◌==◌,
  if◌then◌else◌, arith, length,
}
use quake2world.Console.Tokens.{Args, Tokenized, tokens, overflow, overrun, unfinished, tokenize}
use quake2world.Console.Tokens.Bounds.{TokenizedFits, tokenize-Fits}
use quake2world.Console.Tokens.Printing.{word}
use quake2world.Console.Tokens.RoundTrip.{tokenize-print_items}
use quake2world.Console.Buffer.{
  Cbuf, Command, function, alias, forwarded, Engine, ran, not_ended, run_tokens, run_command,
  run_variable, execute_string, execute,
}
use quake2world.Console.Buffer.Lines.{
  unlines, Runs, line_runs, line_waits, execute-Runs, execute-ends,
}
use quake2world.Console.Variables.{
  cvar_archive, cvar_latch, str_less, get, Latched, no_latch, latched, Var, Vars, Env, get_,
  get_string,
}
use quake2world.Console.Variables.Change.{set, force_set, updated_all, update_latched}
use quake2world.Console.Variables.Steps.{Sorted, by_get, no_call, call, Calls-Sorted}
use quake2world.Console.Variables.Latching.{sets, sets-latched, pending-freed}
use quake2world.Console.Variables.Strict.{with_flags}
use quake2world.UserInfo.{str_eq}
use quake2world.Console.Variables.Lookup.{none_or_some, some-injective}
use quake2world.Console.Variables.Order.{names, is_sorted}
use quake2world.Console.Config.Lines.{ready}
use quake2world.Console.Table.{Cmd, Table, add, add_alias, enumerate}
use quake2world.Console.Table.Listing.{
  IsListed, Lists, by_add, by_alias, no_change, change, Changes-Lists,
}
use quake2world.Console.Config.{set_name, set_command, console, write_all}
use quake2world.Console.Config.Restore.{execute-write_all}

abbrev offline : Env
offline = record { client = false; server = false; above_one = λ s. false; non_zero = λ s. false }

abbrev serving : Env
serving = record { client = false; server = true; above_one = λ s. false; non_zero = λ s. false }

-- "fov" and "hz", "90", "1", and a quoted text
abbrev fov : List ℕ
fov = 102 ∷ 111 ∷ 118 ∷ []

abbrev hz : List ℕ
hz = 104 ∷ 122 ∷ []

abbrev ninety : List ℕ
ninety = 57 ∷ 48 ∷ []

abbrev one : List ℕ
one = 49 ∷ []

abbrev var : List ℕ → List ℕ → Latched → ℕ → Var
var name value l flags = record {
  name = name;
  default_value = one;
  string = value;
  latched_string = l;
  modified = false;
  flags = flags;
}

abbrev table : List Var → Vars
table vs = record { vars = vs; user_info_modified = false }

abbrev empty : Cbuf
empty = record { pending = []; deferred = []; wait = false; alias_loop_count = 0 }

tokenize-Fits_example : TokenizedFits ninety (tokenize (λ s. s) ninety)
tokenize-Fits_example = tokenize-Fits (λ s. s) ninety

-- A command "9" counts, a command "1" waits.
abbrev counting : List ℕ → Option (Command ℕ)
counting [] = none
counting (c ∷ name) =
    if c == 49
    then some (function (λ a st. some (record (st.0) { wait = true }, st.1)))
    else some (function (λ a st. some (st.0, st.1 + 1)))

abbrev counter : Engine ℕ
counter = record {
  commands = λ st name. counting name;
  variable = λ st name. [];
  variable_command = λ a st. none;
  forward = λ a st. st;
}

counts : (b : Cbuf) (s : ℕ) → execute_string counter ninety (b, s) ≡ some (b, s + 1)
unfolding execute_string run_tokens run_command
counts b s =
    ap (run_tokens counter (b, s))
      (tokenize-print_items (λ n. []) (word ninety ∷ []) refl (omega arith) (omega arith))

waits : (b : Cbuf) (s : ℕ) → execute_string counter one (b, s) ≡ some (record b { wait = true }, s)
unfolding execute_string run_tokens run_command
waits b s =
    ap (run_tokens counter (b, s))
      (tokenize-print_items (λ n. []) (word one ∷ []) refl (omega arith) (omega arith))

abbrev counted : Runs counter (ninety ∷ one ∷ ninety ∷ []) 5 6 (ninety ∷ [])
counted = line_runs (λ b. counts b 5) (line_waits (λ b. waits b 6))

execute-Runs_example :
    execute counter 4 (record empty { pending = unlines (ninety ∷ one ∷ ninety ∷ []) }, 5)
    ≡ ran (record empty { pending = unlines (ninety ∷ []) }, 6)
execute-Runs_example =
    execute-Runs counter 4 empty counted
      (refl, omega arith, (refl, omega arith, (refl, omega arith, tt))) (omega arith)

-- No command: each line goes to a server.
abbrev silent : Engine ℕ
silent = record {
  commands = λ st name. none;
  variable = λ st name. [];
  variable_command = λ a st. some (false, st);
  forward = λ a st. st + 1;
}

same_size : (p q : Cbuf × ℕ) → some p ≡ some q → length q.0.pending ≤ length p.0.pending
same_size p q e = omega (arith, ap (λ (p : Cbuf × ℕ). length p.0.pending) (some-injective e))

silent-argv :
    (argv : List (List ℕ)) (args : List ℕ) (b b' : Cbuf) (s s' : ℕ)
    → run_tokens silent (b, s) (tokens (record { argv = argv; args = args })) ≡ some (b', s')
    → length b'.pending ≤ length b.pending
unfolding run_tokens run_command run_variable
silent-argv [] args b b' s s' e = same_size (b, s) (b', s') e
silent-argv (name ∷ argv) args b b' s s' e = same_size (b, s + 1) (b', s') e

silent_run :
    (t : Tokenized) (b b' : Cbuf) (s s' : ℕ)
    → run_tokens silent (b, s) t ≡ some (b', s')
    → length b'.pending ≤ length b.pending
unfolding run_tokens
silent_run overflow b b' s s' e = absurd (none_or_some (b', s') e)
silent_run overrun b b' s s' e = absurd (none_or_some (b', s') e)
silent_run unfinished b b' s s' e = absurd (none_or_some (b', s') e)
silent_run (tokens a) b b' s s' e = silent-argv a.argv a.args b b' s s' e

silent-AddsNone :
    (l : List ℕ) (b b' : Cbuf) (s s' : ℕ)
    → execute_string silent l (b, s) ≡ some (b', s')
    → length b'.pending ≤ length b.pending
unfolding execute_string
silent-AddsNone l b b' s s' e = silent_run (tokenize (λ n. []) l) b b' s s' e

execute-ends_example :
    execute silent 4 (record empty { pending = ninety ++ (10 ∷ []) }, 0) ≢ not_ended
execute-ends_example =
    execute-ends silent 4 (record empty { pending = ninety ++ (10 ∷ []) }) 0 silent-AddsNone
      (omega arith)

-- "x" is the alias of "x;x".
abbrev aliased : Engine ℕ
aliased = record {
  commands = λ st name. some (alias (120 ∷ 59 ∷ 120 ∷ 10 ∷ []));
  variable = λ st name. [];
  variable_command = λ a st. none;
  forward = λ a st. st;
}

abbrev one_var : Vars
one_var = table (var fov ninety no_latch cvar_archive ∷ [])

Calls-Sorted_example : Sorted (get fov (some ninety) cvar_archive (get hz (some one) 0 (table [])))
Calls-Sorted_example =
    Calls-Sorted
      (call (by_get hz (some one) 0) (call (by_get fov (some ninety) cvar_archive) no_call)) refl

abbrev latched_var : Vars
latched_var = table (var fov ninety no_latch cvar_latch ∷ [])

found_latched : get_ fov (latched_var.vars) ≡ some (var fov ninety no_latch cvar_latch)
unfolding get_
found_latched = refl

sets-latched_example :
    (st' : Vars) × (sets serving fov (one ∷ hz ∷ []) latched_var ≡ some st')
    × (get_string fov st'.vars ≡ ninety)
    × ((vs : List Var) × (update_latched st'.vars ≡ updated_all vs) × (get_string fov vs ≡ hz))
sets-latched_example =
    sets-latched serving fov (one ∷ []) hz latched_var (var fov ninety no_latch cvar_latch)
      found_latched refl refl refl refl refl refl refl refl

abbrev pending_var : Vars
pending_var = table (var fov ninety (latched one) cvar_latch ∷ [])

found_pending : get_ fov (pending_var.vars) ≡ some (var fov ninety (latched one) cvar_latch)
unfolding get_
found_pending = refl

pending-freed_example :
    (st' : Vars) × (set offline fov hz pending_var ≡ some st')
    × (get_string fov st'.vars ≡ hz)
    × (set offline fov one st' ≡ none)
    × (force_set offline fov one st' ≡ none)
pending-freed_example =
    pending-freed offline fov pending_var (var fov ninety (latched one) cvar_latch) one hz one
      found_pending refl refl refl refl refl refl refl refl

-- "set" only
abbrev only_set : List ℕ → Option (Command Vars)
only_set name = if str_eq name set_name then some (set_command offline) else none

abbrev saved : List Var
saved = var fov ninety no_latch cvar_archive ∷ var hz one no_latch 0 ∷ []

abbrev ignore : Args → Vars → Vars
ignore a st = st

sorted_saved : is_sorted (names saved) ≡ true
unfolding str_less
sorted_saved = refl

ready-saved : ready (with_flags cvar_archive saved) (table []) ≡ true
unfolding get_
ready-saved = refl

execute-write_all_example :
    (st' : Vars) × (execute
        (console offline only_set ignore)
        2
        (record empty { pending = write_all saved }, table [])
      ≡ ran (empty, st'))
    × ((name : List ℕ) (v : Var)
        → get_ name (with_flags cvar_archive saved) ≡ some v
        → get_string name st'.vars ≡ v.string)
    × ((name : List ℕ)
        → get_ name (with_flags cvar_archive saved) ≡ none
        → get_ name st'.vars ≡ get_ name [])
execute-write_all_example =
    execute-write_all offline only_set ignore refl saved (table []) empty 2 refl sorted_saved
      ready-saved (omega arith)

abbrev no_table : Table ℕ
no_table = record { commands = λ n. none; keys = [] }

abbrev two_commands : Table ℕ
two_commands = add_alias (λ n. false) fov ninety (add (λ n. false) hz forwarded 0 no_table)

Changes-Lists_example :
    (l : List (Cmd ℕ)) × (enumerate two_commands.commands two_commands.keys ≡ some l)
    × Lists two_commands.commands two_commands.keys l
    × IsListed two_commands
Changes-Lists_example =
    Changes-Lists
      (change (by_add (λ n. false) hz forwarded 0)
        (change (by_alias (λ n. false) fov ninety) no_change))
      (λ n. refl)
