-- ===== src/Console/Buffer.antt =====
-- The command buffer of src/cmd.c, Cbuf_*, and Cmd_ExecuteString. `S` is what the commands work on
-- beside the buffer.
pub mod Lines
pub mod Aliases
use quake2world.Prelude.{
  ℕ, zero, suc, ◌+◌, ◌%◌, ◌^◌, Bool, true, false, not, ◌&&◌, ◌||◌, Option, none, some, List, [],
  ◌∷◌, ◌++◌, ltb, leb, ◌==◌, if◌then◌else◌, length,
}
use quake2world.UserInfo.{quote, semicolon}
use quake2world.Console.Tokens.{
  Args, Tokenized, tokens, overflow, overrun, unfinished, tokenize, newline, max_string_chars,
}

-- CBUF_CHARS, which is `max_size` of the buffer
abbrev pub cbuf_chars : ℕ
cbuf_chars = 8192

abbrev pub max_alias_loop_count : ℕ
max_alias_loop_count = 8

-- `cmd_state_t`: the bytes in use of `buf`, the text deferred, and the two marks
pub record Cbuf : Type 0 where
  pub pending : List ℕ
  pub deferred : List ℕ
  pub wait : Bool
  pub alias_loop_count : ℕ

-- Cbuf_AddText
unfoldable pub add_text : List ℕ → List ℕ → List ℕ
add_text text pending =
    if leb cbuf_chars (length pending + length text) then pending else pending ++ text

-- Cbuf_InsertText; none is the abort of Mem_WriteBuffer.
unfoldable pub insert_text : List ℕ → Cbuf → Option Cbuf
insert_text text b =
    let front = add_text text [] in
    if ltb cbuf_chars (length front + length b.pending)
    then none
    else some (record b { pending = front ++ b.pending })

-- Cbuf_CopyToDefer and Cbuf_InsertFromDefer, the second buffer being clear at first
unfoldable pub copy_to_defer : Cbuf → Cbuf
copy_to_defer b = record b { pending = []; deferred = b.pending }

unfoldable pub insert_from_defer : Cbuf → Option Cbuf
insert_from_defer b = elim (insert_text b.deferred b) [
  | none ↦ none
  | some b' ↦ some (record b' { deferred = [] })
]

-- The text up to a line break and the text behind it; `odd` is an odd number of quotation marks.
unfoldable pub split_line : Bool → List ℕ → List ℕ × List ℕ
split_line odd [] = ([], [])
split_line odd (c ∷ s) =
    let odd' = if c == quote then not odd else odd in
    let (line, rest) = split_line odd' s in
    if not odd' && c == semicolon || c == newline then ([], s) else (c ∷ line, rest)

module _ (S : Type 0) where
  -- A command: `Execute`, the text of an alias, or neither.
  pub data Command : Type 0 where
    function : (Args → Cbuf × S → Option (Cbuf × S)) → Command
    alias : List ℕ → Command
    forwarded : Command

  -- The commands, the strings of variables, Cvar_Command, which says if the name is a variable's, and
  -- Cmd_ForwardToServer, with the test that there is one.
  pub record Engine : Type 0 where
    pub commands : S → List ℕ → Option Command
    pub variable : S → List ℕ → List ℕ
    pub variable_command : Args → S → Option (Bool × S)
    pub forward : Args → S → S

  -- What Cbuf_Execute ends in: the state, an abort or a fault, the NUL of a line written one past the
  -- end of its array, or a loop that has not ended.
  pub data Ran : Type 0 where
    ran : Cbuf × S → Ran
    fault : Ran
    line_overflow : Ran
    not_ended : Ran

module _ {S : Type 0} (engine : Engine S) where
  -- An alias goes in front of the text that is pending.
  unfoldable pub run_alias : List ℕ → Cbuf × S → Option (Cbuf × S)
  run_alias text (b, s) =
      let count = (b.alias_loop_count + 1) % 2 ^ 16 in
      let b' = record b { alias_loop_count = count } in
      if count == max_alias_loop_count
      then some (b', s)
      else elim (insert_text text b') [ none ↦ none | some b'' ↦ some (b'', s) ]

  unfoldable pub run_variable : Args → Cbuf → Option (Bool × S) → Option (Cbuf × S)
  run_variable a b none = none
  run_variable a b (some (true, s)) = some (b, s)
  run_variable a b (some (false, s)) = some (b, engine.forward a s)

  unfoldable pub run_command : Args → Cbuf × S → Option (Command S) → Option (Cbuf × S)
  run_command a (b, s) none = run_variable a b (engine.variable_command a s)
  run_command a st (some (function f)) = f a st
  run_command a st (some (alias text)) = run_alias text st
  run_command a (b, s) (some forwarded) = some (b, engine.forward a s)

  unfoldable pub run_tokens : Cbuf × S → Tokenized → Option (Cbuf × S)
  run_tokens st overflow = none
  run_tokens st overrun = none
  run_tokens st unfinished = none
  run_tokens (b, s) (tokens a) = elim a.argv [
    | [] ↦ some (b, s)
    | name ∷ argv ↦ run_command a (b, s) (engine.commands s name)
  ]

  -- Cmd_ExecuteString
  unfoldable pub execute_string : List ℕ → Cbuf × S → Option (Cbuf × S)
  execute_string text (b, s) = run_tokens (b, s) (tokenize (engine.variable s) text)

  -- After a line the loop goes on, unless there is to be a wait.
  unfoldable pub after_line : (Cbuf × S → Ran S) → Option (Cbuf × S) → Ran S
  after_line next none = fault
  after_line next (some (b, s)) =
      let rest = next (b, s) in if b.wait then ran (record b { wait = false }, s) else rest

  unfoldable pub run_line : (Cbuf × S → Ran S) → Cbuf × S → List ℕ × List ℕ → Ran S
  run_line next (b, s) (line, rest) =
      if ltb max_string_chars (length line)
      then ran (b, s)
      else if length line == max_string_chars
      then line_overflow
      else after_line next (execute_string line (record b { pending = rest }, s))

  -- the loop of Cbuf_Execute
  unfoldable pub execute_loop : ℕ → Cbuf × S → Ran S
  execute_loop zero st = not_ended
  execute_loop (suc fuel) (b, s) =
      let next = run_line (execute_loop fuel) (b, s) (split_line false b.pending) in
      if length b.pending == 0 then ran (b, s) else next

  -- Cbuf_Execute, with fuel
  unfoldable pub execute : ℕ → Cbuf × S → Ran S
  execute fuel (b, s) = execute_loop fuel (record b { alias_loop_count = 0 }, s)
