-- ===== src/Console/Variables.antt =====
-- The console variables of src/cvar.c. A variable's number is a function of its string, so it is not
-- a field; the list of the variables is `cvar_state.keys`, each name with what the hash table has for it.
pub mod Change
pub mod Lookup
pub mod Order
pub mod Strict
pub mod Steps
pub mod Setting
pub mod NextString
pub mod Latching
use Prim.Native.Nat.{bit_and, bit_or}
use quake2world.Prelude.{
  ℕ, ◌+◌, Bool, true, false, not, ◌&&◌, ◌||◌, Option, none, some, List, [], ◌∷◌, ◌++◌, map, ltb,
  ◌==◌, if◌then◌else◌, length,
}
use quake2world.UserInfo.{bs, quote, semicolon, str_eq, has_byte}
use quake2world.Console.Tokens.{Args, newline, space}

-- the CVAR_ flags
abbrev pub cvar_cli : ℕ
cvar_cli = 1

abbrev pub cvar_archive : ℕ
cvar_archive = 2

abbrev pub cvar_user_info : ℕ
cvar_user_info = 4

abbrev pub cvar_server_info : ℕ
cvar_server_info = 8

abbrev pub cvar_lo_only : ℕ
cvar_lo_only = 16

abbrev pub cvar_no_set : ℕ
cvar_no_set = 32

abbrev pub cvar_latch : ℕ
cvar_latch = 64

-- "sv_max_clients"
abbrev pub sv_max_clients : List ℕ
sv_max_clients = 115 ∷ 118 ∷ 95 ∷ 109 ∷ 97 ∷ 120 ∷ 95 ∷ 99 ∷ 108 ∷ 105 ∷ 101 ∷ 110 ∷ 116 ∷ 115 ∷ []

abbrev pub zero_digit : List ℕ
zero_digit = 48 ∷ []

abbrev pub one_digit : List ℕ
one_digit = 49 ∷ []

abbrev pub has : ℕ → ℕ → Bool
has mask flags = not (bit_and flags mask == 0)

abbrev pub is_info : ℕ → Bool
is_info flags = has (cvar_user_info + cvar_server_info) flags

-- Where `latched_string` points: nowhere, to a string, or to memory that is free.
pub data Latched : Type 0 where
  no_latch : Latched
  latched : List ℕ → Latched
  freed : Latched

pub record Var : Type 0 where
  pub name : List ℕ
  pub default_value : List ℕ
  pub string : List ℕ
  pub latched_string : Latched
  pub modified : Bool
  pub flags : ℕ

pub record Vars : Type 0 where
  pub vars : List Var
  pub user_info_modified : Bool

-- What Com_WasInit says of the client and the server, and if atof has a number above one, or other
-- than zero, for a string.
pub record Env : Type 0 where
  pub client : Bool
  pub server : Bool
  pub above_one : List ℕ → Bool
  pub non_zero : List ℕ → Bool

-- Cvar_InfoValidate
unfoldable pub info_validate : List ℕ → Bool
info_validate s = not (has_byte bs s) && not (has_byte quote s) && not (has_byte semicolon s)

abbrev pub value_validate : Option (List ℕ) → Bool
value_validate none = false
value_validate (some s) = info_validate s

-- Cvar_Get_
unfoldable pub get_ : List ℕ → List Var → Option Var
get_ name [] = none
get_ name (v ∷ vs) = let more = get_ name vs in if str_eq name v.name then some v else more

abbrev pub string_or_empty : Option Var → List ℕ
string_or_empty none = []
string_or_empty (some v) = v.string

-- Cvar_GetString
unfoldable pub get_string : List ℕ → List Var → List ℕ
get_string name vs = string_or_empty (get_ name vs)

-- The variable of the name, as it is now
unfoldable pub put : Var → List Var → List Var
put v [] = []
put v (w ∷ vs) = let rest = put v vs in if str_eq v.name w.name then v ∷ vs else w ∷ rest

-- strcmp is below 0
unfoldable pub str_less : List ℕ → List ℕ → Bool
str_less [] [] = false
str_less [] (d ∷ t) = true
str_less (c ∷ s) [] = false
str_less (c ∷ s) (d ∷ t) = ltb c d || c == d && str_less s t

-- g_list_insert_sorted of the name
unfoldable pub insert_sorted : Var → List Var → List Var
insert_sorted v [] = v ∷ []
insert_sorted v (w ∷ vs) =
    let rest = insert_sorted v vs in if str_less w.name v.name then w ∷ rest else v ∷ w ∷ vs

abbrev pub new_var : List ℕ → List ℕ → ℕ → Var
new_var name value flags = record {
  name = name;
  default_value = value;
  string = value;
  latched_string = no_latch;
  modified = true;
  flags = flags;
}

-- A value is the new default, and the flags are added.
abbrev with_meta : Option (List ℕ) → ℕ → Var → Var
with_meta none flags v = record v { flags = bit_or v.flags flags }
with_meta (some value) flags v = record v { default_value = value; flags = bit_or v.flags flags }

unfoldable pub get_or_create : List ℕ → Option (List ℕ) → ℕ → Vars → Option Var → Vars
get_or_create name value flags st (some v) = record st {
  vars = put (with_meta value flags v) st.vars;
}
get_or_create name none flags st none = st
get_or_create name (some value) flags st none = record st {
  vars = insert_sorted (new_var name value flags) st.vars;
}

-- Cvar_Get
unfoldable pub get : List ℕ → Option (List ℕ) → ℕ → Vars → Vars
get name value flags st =
    if is_info flags && not (info_validate name && value_validate value)
    then st
    else get_or_create name value flags st (get_ name st.vars)

-- The end of Cvar_Set_ and, with other flags, of Cvar_FullSet
unfoldable pub assign : Var → List ℕ → ℕ → Vars → Vars
assign v value flags st = record st {
  vars = put (record v { string = value; modified = true; flags = flags }) st.vars;
  user_info_modified = has cvar_user_info v.flags || st.user_info_modified;
}

unfoldable pub assign_changed : Var → List ℕ → Vars → Vars
assign_changed v value st =
    if str_eq value v.string then record st { vars = put v st.vars } else assign v value v.flags st
