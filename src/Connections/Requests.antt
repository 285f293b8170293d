-- ===== src/Connections/Requests.antt =====
-- Svc_Connect of src/server/sv_main.c from the arguments of the request on, and the user info that it
-- hands to the game.
pub mod RealAddress
use quake2world.Prelude.{
  ℕ, ◌-◌, Bool, true, false, not, Option, none, some, List, [], ◌∷◌, ◌==◌, if◌then◌else◌, length,
  take,
}
use quake2world.Channel.{NetAddr}
use quake2world.UserInfo.{
  has_byte, max_user_info_string, get_user_info, validate_user_info, set_user_info,
}
use quake2world.Connections.{Challenge, Slot, Request, request}

-- PROTOCOL
abbrev pub protocol : ℕ
protocol = 1005

-- "ip"
abbrev pub ip_key : List ℕ
ip_key = 105 ∷ 112 ∷ []

-- The room of g_strlcpy for the user info, without its NUL.
abbrev pub info_room : ℕ
info_room = max_user_info_string - 25 - 1

-- The tests of the user info, none being "Connection refused".
unfoldable pub checked_info : List ℕ → Option (List ℕ)
checked_info info =
    if length info == 0
    then none
    else if has_byte 255 info
    then none
    else if not (length (get_user_info info ip_key) == 0)
    then none
    else if not (validate_user_info info)
    then none
    else some info

-- What a connection request ends in before the game is asked, with the user info for the game.
pub data Answer : Type 0 where
  wrong_version : Answer
  connection_refused : Answer
  looked_at : (info : List ℕ) → Request → Answer

unfoldable pub after_info :
    NetAddr
    → (qport number : ℕ) → (address : List ℕ) → List Slot
    → List Challenge
    → Option (List ℕ)
    → Answer × List Challenge
after_info from qport number address slots l none = (connection_refused, l)
after_info from qport number address slots l (some info) =
    let (r, l') = request from qport number slots l in
    (looked_at (set_user_info info ip_key address) r, l')

-- `address` is what Net_NetaddrToString makes of `from`.
unfoldable pub connect :
    NetAddr
    → (version qport number : ℕ) → (info address : List ℕ) → List Slot
    → List Challenge
    → Answer × List Challenge
connect from version qport number info address slots l =
    if not (version == protocol)
    then (wrong_version, l)
    else after_info from qport number address slots l (checked_info (take info_room info))
