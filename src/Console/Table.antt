-- ===== src/Console/Table.antt =====
-- The table of commands of src/cmd.c: Cmd_Get, Cmd_Add, Cmd_Alias, Cmd_Remove, Cmd_RemoveAll, Cmd_Enumerate and
-- Cmd_Alias_f. The hash table is a function of the name, `keys` the list beside it.
pub mod Listing
use Prim.Native.Nat.{bit_and}
use quake2world.Prelude.{
  ℕ, ◌-◌, Bool, true, false, not, ◌||◌, Option, none, some, List, [], ◌∷◌, ◌++◌, ◌==◌,
  if◌then◌else◌, take,
}
use quake2world.UserInfo.{str_eq}
use quake2world.Console.Tokens.{newline, space, max_string_chars}
use quake2world.Console.Buffer.{Command, alias}
use quake2world.Console.Variables.{has, str_less}

-- `cmd_t`, which is in the table under its name
pub record Cmd (S : Type 0) : Type 0 where
  pub command : Command S
  pub flags : ℕ

-- `cmd_state.commands` and `cmd_state.keys`
pub record Table (S : Type 0) : Type 0 where
  pub commands : List ℕ → Option (Cmd S)
  pub keys : List (List ℕ)

-- g_list_insert_sorted with strcmp
unfoldable pub insert_key : List ℕ → List (List ℕ) → List (List ℕ)
insert_key name [] = name ∷ []
insert_key name (k ∷ ks) =
    let rest = insert_key name ks in if str_less k name then k ∷ rest else name ∷ k ∷ ks

abbrev pub is_some {ℓ} : {A : Type ℓ} → Option A → Bool
is_some none = false
is_some (some a) = true

-- The words behind the name, with spaces between them
unfoldable pub join_words : List (List ℕ) → List ℕ
join_words [] = []
join_words (w ∷ []) = w
join_words (w ∷ x ∷ ws) = w ++ (space ∷ join_words (x ∷ ws))

module _ {S : Type 0} where
  unfoldable pub insert_command : List ℕ → Cmd S → Table S → Table S
  insert_command name c st = record {
    commands = λ n. if str_eq n name then some c else st.commands n;
    keys = insert_key name st.keys;
  }

  -- Cmd_Add, where the first argument says which names are variables
  unfoldable pub add : (List ℕ → Bool) → List ℕ → Command S → ℕ → Table S → Table S
  add is_variable name command flags st =
      if is_variable name || is_some (st.commands name)
      then st
      else insert_command name (record { command = command; flags = flags }) st

  -- Cmd_Alias
  unfoldable pub add_alias : (List ℕ → Bool) → List ℕ → List ℕ → Table S → Table S
  add_alias is_variable name text st =
      if is_variable name || is_some (st.commands name)
      then st
      else insert_command name (record { command = alias text; flags = 0 }) st

  -- Cmd_Remove
  unfoldable pub remove : List ℕ → Table S → Table S
  remove name st = record st { commands = λ n. if str_eq n name then none else st.commands n }

  abbrev pub is_removed : ℕ → Option (Cmd S) → Bool
  is_removed mask none = false
  is_removed mask (some c) = has mask c.flags

  abbrev pub unless_removed : ℕ → Option (Cmd S) → Option (Cmd S)
  unless_removed mask none = none
  unless_removed mask (some c) = if has mask c.flags then none else some c

  abbrev pub without : List ℕ → (List ℕ → Option (Cmd S)) → List ℕ → Option (Cmd S)
  without name commands n = if str_eq n name then none else commands n

  -- g_list_remove of the key of each command that is removed: one key, the first that is equal, as the keys of one name
  -- stand with the last one added first
  abbrev pub keep_keys : ℕ → (List ℕ → Option (Cmd S)) → List (List ℕ) → List (List ℕ)
  keep_keys mask commands [] = []
  keep_keys mask commands (k ∷ ks) =
      if is_removed mask (commands k)
      then keep_keys mask (without k commands) ks
      else k ∷ keep_keys mask commands ks

  -- Cmd_RemoveAll
  unfoldable pub remove_all : ℕ → Table S → Table S
  remove_all mask st = record {
    commands = λ n. unless_removed mask (st.commands n);
    keys = keep_keys mask st.commands st.keys;
  }

  abbrev pub visit : Option (Cmd S) → Option (List (Cmd S)) → Option (List (Cmd S))
  visit none l = none
  visit (some c) none = none
  visit (some c) (some l) = some (c ∷ l)

  -- The commands that Cmd_Enumerate calls its function on; none is Com_Error(ERR_FATAL).
  unfoldable pub enumerate : (List ℕ → Option (Cmd S)) → List (List ℕ) → Option (List (Cmd S))
  enumerate commands [] = some []
  enumerate commands (k ∷ ks) = visit (commands k) (enumerate commands ks)

  -- Cmd_Alias_f, which only prints if there are fewer than three arguments
  unfoldable pub alias_f : (List ℕ → Bool) → List (List ℕ) → Table S → Table S
  alias_f is_variable [] st = st
  alias_f is_variable (a ∷ []) st = st
  alias_f is_variable (a ∷ name ∷ []) st = st
  alias_f is_variable (a ∷ name ∷ w ∷ ws) st =
      if is_variable name || is_some (st.commands name)
      then st
      else add_alias is_variable name
          (take (max_string_chars - 1) (join_words (w ∷ ws) ++ (newline ∷ []))) st
