-- ===== src/Console/Config.antt =====
-- The console commands of src/cvar.c, and the variables as Cvar_WriteAll writes them for the next run.
pub mod Lines
pub mod Restore
use quake2world.Prelude.{
  ℕ, Bool, true, false, Option, none, some, List, [], ◌∷◌, ◌++◌, if◌then◌else◌,
}
use quake2world.UserInfo.{quote, str_eq}
use quake2world.Console.Tokens.{Args, newline, space}
use quake2world.Console.Buffer.{Cbuf, Command, function, Engine}
use quake2world.Console.Variables.{
  cvar_archive, cvar_user_info, cvar_server_info, has, Var, Vars, Env, get_, get_string,
}
use quake2world.Console.Variables.Change.{set, full_set, toggle}

-- "set", "seta", "sets" and "setu"
abbrev pub set_name : List ℕ
set_name = 115 ∷ 101 ∷ 116 ∷ []

abbrev pub seta_name : List ℕ
seta_name = 115 ∷ 101 ∷ 116 ∷ 97 ∷ []

abbrev pub sets_name : List ℕ
sets_name = 115 ∷ 101 ∷ 116 ∷ 115 ∷ []

abbrev pub setu_name : List ℕ
setu_name = 115 ∷ 101 ∷ 116 ∷ 117 ∷ []

module _ (env : Env) where
  unfoldable pub set_by_name : List ℕ → List ℕ → List ℕ → Vars → Option Vars
  set_by_name command name value st =
      if str_eq seta_name command
      then some (full_set name value cvar_archive st)
      else if str_eq sets_name command
      then some (full_set name value cvar_server_info st)
      else if str_eq setu_name command
      then some (full_set name value cvar_user_info st)
      else set env name value st

  -- Cvar_Set_f, which prints its usage if there are not three arguments
  unfoldable pub set_f : List (List ℕ) → Vars → Option Vars
  set_f [] st = some st
  set_f (a ∷ []) st = some st
  set_f (a ∷ b ∷ []) st = some st
  set_f (a ∷ b ∷ c ∷ []) st = set_by_name a b c st
  set_f (a ∷ b ∷ c ∷ d ∷ argv) st = some st

  -- Cvar_Toggle_f
  unfoldable pub toggle_f : List (List ℕ) → Vars → Option Vars
  toggle_f [] st = some st
  toggle_f (a ∷ []) st = some st
  toggle_f (a ∷ b ∷ []) st = toggle env b st
  toggle_f (a ∷ b ∷ c ∷ argv) st = some st

  abbrev done : Option Vars → Option (Bool × Vars)
  done none = none
  done (some st) = some (true, st)

  abbrev print_or_set : List (List ℕ) → Vars → Option Var → Option (Bool × Vars)
  print_or_set argv st none = some (false, st)
  print_or_set [] st (some v) = some (true, st)
  print_or_set (value ∷ argv) st (some v) = done (set env v.name value st)

  -- Cvar_Command, for a command line that is not empty
  unfoldable pub variable_command : List ℕ → List (List ℕ) → Vars → Option (Bool × Vars)
  variable_command name argv st = print_or_set argv st (get_ name st.vars)

abbrev pub keep_buffer : Cbuf → Option Vars → Option (Cbuf × Vars)
keep_buffer b none = none
keep_buffer b (some st) = some (b, st)

-- The command "set" as Cmd_ExecuteString calls it
abbrev pub set_command : Env → Command Vars
set_command env = function (λ a (st : Cbuf × Vars). keep_buffer st.0 (set_f env a.argv st.1))

abbrev command_of_args : Env → List (List ℕ) → Vars → Option (Bool × Vars)
command_of_args env [] st = some (false, st)
command_of_args env (name ∷ argv) st = variable_command env name argv st

-- The commands work on the variables; `commands` is the table of Cmd_Get.
abbrev pub console : Env → (List ℕ → Option (Command Vars)) → (Args → Vars → Vars) → Engine Vars
console env commands forward = record {
  commands = λ st name. commands name;
  variable = λ st name. get_string name st.vars;
  variable_command = λ a st. command_of_args env a.argv st;
  forward = forward;
}

-- The line of a variable, without its end
abbrev pub set_line : Var → List ℕ
set_line v = set_name ++ (space ∷ (v.name ++ (space ∷ quote ∷ (v.string ++ (quote ∷ [])))))

-- Cvar_WriteAll
unfoldable pub write_all : List Var → List ℕ
write_all [] = []
write_all (v ∷ vs) =
    let rest = write_all vs in
    if has cvar_archive v.flags then set_line v ++ (newline ∷ rest) else rest
