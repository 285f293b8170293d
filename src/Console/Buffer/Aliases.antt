-- ===== src/Console/Buffer/Aliases.antt =====
-- The count of Cbuf_Execute and Cmd_ExecuteString that is to end an alias that runs itself.
use quake2world.Prelude.{ℕ, ◌≡◌, Bool, false, Option, none, some, List, [], ◌∷◌, if◌then◌else◌}
use quake2world.UserInfo.{semicolon}
use quake2world.Console.Tokens.{newline}
use quake2world.Console.Buffer.{Cbuf, Engine, alias}

-- "x" and the text "x;x", with the line break that Cmd_Alias_f puts behind it
abbrev pub x : List ℕ
x = 120 ∷ []

abbrev pub x_twice : List ℕ
x_twice = 120 ∷ 59 ∷ 120 ∷ 10 ∷ []

-- A line "x" for each mark, which says if its end is a line break or a semicolon.
abbrev pub xs : List Bool → List ℕ
xs [] = []
xs (b ∷ bs) = 120 ∷ (if b then newline else semicolon) ∷ xs bs

module _ {S : Type 0} (engine : Engine S) (b : Cbuf) (s : S)
    (h : engine.commands s x ≡ some (alias x_twice)) where
  abbrev held : List Bool → ℕ → Cbuf
  held bs c = record b { pending = xs bs; wait = false; alias_loop_count = c }

  abbrev put : Option Cbuf → Option (Cbuf × S)
  put none = none
  put (some b') = some (b', s)
