-- ===== src/Console/Variables/Change.antt =====
-- The operations of src/cvar.c that change a variable.
use quake2world.Prelude.{
  ℕ, Bool, true, false, not, ◌&&◌, ◌||◌, Option, none, some, List, [], ◌∷◌, map, if◌then◌else◌,
}
use quake2world.UserInfo.{str_eq}
use quake2world.Console.Variables.{
  cvar_cli, cvar_user_info, cvar_lo_only, cvar_no_set, cvar_latch, has, is_info, sv_max_clients,
  zero_digit, one_digit, Latched, no_latch, latched, freed, Var, Vars, Env, info_validate, get_,
  get_string, put, get, assign, assign_changed,
}

-- The string that is latched is freed; none is a fault.
abbrev pub unlatch : Var → Option Var
unlatch v = elim v.latched_string [
  | no_latch ↦ some v
  | latched s ↦ some (record v { latched_string = no_latch })
  | freed ↦ none
]

-- `latched_string` is freed and keeps its address.
abbrev pub forget : Latched → Latched
forget no_latch = no_latch
forget (latched s) = freed
forget freed = freed

abbrev pub any_local_user_info : List Var → Bool
any_local_user_info [] = false
any_local_user_info (v ∷ vs) =
    has cvar_lo_only v.flags && has cvar_user_info v.flags || any_local_user_info vs

abbrev pub put_var : Vars → Option Var → Option Vars
put_var st none = none
put_var st (some v) = some (record st { vars = put v st.vars })

abbrev pub assign_var : List ℕ → Vars → Option Var → Option Vars
assign_var value st none = none
assign_var value st (some v) = some (assign_changed v value st)

module _ (env : Env) where
  -- A value that is new, for the next game or at once
  unfoldable pub set_latch : Var → List ℕ → Var
  set_latch v value =
      if env.server
      then record v { latched_string = latched value }
      else record v { latched_string = forget v.latched_string; string = value }

  -- The branch of CVAR_LATCH; none is a fault.
  unfoldable pub change_latched : Var → List ℕ → Option Var
  change_latched v value = elim v.latched_string [
    | no_latch ↦ some (if str_eq value v.string then v else set_latch v value)
    | latched s ↦ some (if str_eq value s then v else set_latch v value)
    | freed ↦ none
  ]

  -- The game is not offline.
  abbrev pub is_online : List Var → Bool
  is_online vs = env.above_one (get_string sv_max_clients vs) || env.client && not env.server

  unfoldable pub refuses_info : Var → List ℕ → Bool
  refuses_info v value = is_info v.flags && not (info_validate value)

  -- A variable that keeps its string when it is not forced
  unfoldable pub is_kept : Var → List Var → Bool
  is_kept v vs =
      has cvar_cli v.flags && not env.client && not env.server
      || has cvar_lo_only v.flags && is_online vs
      || has cvar_no_set v.flags

  unfoldable pub set_var : Bool → Var → List ℕ → Vars → Option Vars
  set_var force v value st =
      if refuses_info v value
      then some st
      else if force
      then assign_var value st (unlatch v)
      else if is_kept v st.vars
      then some st
      else if has cvar_latch v.flags
      then put_var st (change_latched v value)
      else some (assign_changed v value st)

  abbrev pub set_found : Bool → List ℕ → List ℕ → Vars → Option Var → Option Vars
  set_found force name value st none = some (get name (some value) 0 st)
  set_found force name value st (some v) = set_var force v value st

  -- Cvar_Set_; none is a read of memory that is free.
  unfoldable pub set_ : Bool → List ℕ → List ℕ → Vars → Option Vars
  set_ force name value st = set_found force name value st (get_ name st.vars)

  -- Cvar_Set and Cvar_ForceSet
  unfoldable pub set : List ℕ → List ℕ → Vars → Option Vars
  set name value st = set_ false name value st

  unfoldable pub force_set : List ℕ → List ℕ → Vars → Option Vars
  force_set name value st = set_ true name value st

  abbrev pub toggle_found : List ℕ → Vars → Option Var → Option Vars
  toggle_found name st none = some st
  toggle_found name st (some v) =
      set name (if env.non_zero v.string then zero_digit else one_digit) st

  -- Cvar_Toggle
  unfoldable pub toggle : List ℕ → Vars → Option Vars
  toggle name st = toggle_found name st (get_ name st.vars)

  unfoldable pub reset_var : Var → Var
  reset_var v =
      if has cvar_lo_only v.flags then record v { string = v.default_value; modified = true } else v

  -- Cvar_ResetLocal
  unfoldable pub reset_local : Vars → Vars
  reset_local st =
      if is_online st.vars
      then record st {
        vars = map reset_var st.vars;
        user_info_modified = any_local_user_info st.vars || st.user_info_modified;
      }
      else st

abbrev pub full_set_found : List ℕ → List ℕ → ℕ → Vars → Option Var → Vars
full_set_found name value flags st none = get name (some value) flags st
full_set_found name value flags st (some v) = assign v value flags st

-- Cvar_FullSet
unfoldable pub full_set : List ℕ → List ℕ → ℕ → Vars → Vars
full_set name value flags st = full_set_found name value flags st (get_ name st.vars)

-- Cvar_PendingLatched
unfoldable pub pending_latched : List Var → Bool
pending_latched [] = false
pending_latched (v ∷ vs) =
    let later = pending_latched vs in
    elim v.latched_string [ no_latch ↦ later | latched s ↦ true | freed ↦ true ]

abbrev pub is_unlatched : Latched → Bool
is_unlatched no_latch = true
is_unlatched (latched s) = false
is_unlatched freed = false

-- The string that is latched becomes the string.
unfoldable pub update_var : Var → Option Var
update_var v = elim v.latched_string [
  | no_latch ↦ some v
  | latched s ↦ some (record v { string = s; latched_string = no_latch })
  | freed ↦ none
]

-- What Cvar_UpdateLatched ends in: all variables updated; the variables as they are when it calls Fs_SetGame, for the
-- variable "game", after which it may run autoexec.cfg before it goes on; or a string in memory that is free.
pub data Updated : Type 0 where
  updated_all : List Var → Updated
  game_set : List Var → Updated
  stale : Updated

abbrev pub cons_updated : Var → Updated → Updated
cons_updated v (updated_all vs) = updated_all (v ∷ vs)
cons_updated v (game_set vs) = game_set (v ∷ vs)
cons_updated v stale = stale

-- "game"
abbrev pub game_name : List ℕ
game_name = 103 ∷ 97 ∷ 109 ∷ 101 ∷ []

-- Is there a new game?
abbrev pub sets_game : Var → Bool
sets_game v = str_eq v.name game_name && not (is_unlatched v.latched_string)

abbrev pub go_on : Bool → Option Var → List Var → Updated → Updated
go_on game none vs rest = stale
go_on true (some v) vs rest = game_set (v ∷ vs)
go_on false (some v) vs rest = cons_updated v rest

-- Cvar_UpdateLatched, up to the call of Fs_SetGame
unfoldable pub update_latched : List Var → Updated
update_latched [] = updated_all []
update_latched (v ∷ vs) = go_on (sets_game v) (update_var v) vs (update_latched vs)

-- Cvar_Pending and Cvar_ClearAll, of the flags of a mask
unfoldable pub pending : ℕ → List Var → Bool
pending mask [] = false
pending mask (v ∷ vs) = has mask v.flags && v.modified || pending mask vs

unfoldable pub clear_var : ℕ → Var → Var
clear_var mask v = if has mask v.flags && v.modified then record v { modified = false } else v

unfoldable pub clear_all : ℕ → List Var → List Var
clear_all mask vs = map (clear_var mask) vs
