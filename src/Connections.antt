-- ===== src/Connections.antt =====
-- How src/server/sv_main.c lets a client in: Svc_GetChallenge, and what Svc_Connect does with the
-- challenge and the client slots.
pub mod Granted
pub mod Oldest
pub mod Slots
pub mod Requests
mod Tests
use quake2world.Prelude.{
  ℕ, zero, suc, ◌+◌, ◌-◌, ◌%◌, ◌^◌, Bool, true, false, not, ◌&&◌, ◌||◌, Option, none, some, List,
  [], ◌∷◌, ltb, ◌==◌, if◌then◌else◌, get_or, set,
}
use quake2world.Channel.{NetAddr}

-- `sv_challenge_t`
pub record Challenge : Type 0 where
  pub addr : NetAddr
  pub challenge : ℕ
  pub time : ℕ

-- Net_CompareClientNetaddr
abbrev pub same_client : NetAddr → NetAddr → Bool
same_client a b = a.addr_type == b.addr_type && a.addr == b.addr

-- What the loop of Svc_GetChallenge ends with: the entry of the client, or the oldest one when the
-- client has none.
pub data Search : Type 0 where
  entry : ℕ → Search
  oldest_entry : ℕ → Search

unfoldable pub search_loop : NetAddr → (i oldest oldest_time : ℕ) → List Challenge → Search
search_loop from i oldest oldest_time [] = oldest_entry oldest
search_loop from i oldest oldest_time (c ∷ l) =
    let newer = search_loop from (i + 1) oldest oldest_time l in
    let older = search_loop from (i + 1) i c.time l in
    if same_client from c.addr then entry i else if ltb c.time oldest_time then older else newer

abbrev pub nobody : NetAddr → Challenge
nobody a = record { addr = a; challenge = 0; time = 0 }

-- The entry is made if need be, and its challenge is sent.
unfoldable pub grant : NetAddr → (random now : ℕ) → List Challenge → Search → List Challenge × ℕ
grant from random now l (entry i) = (l, (get_or l i (nobody from)).challenge)
grant from random now l (oldest_entry i) =
    (set l i (record { addr = from; challenge = random % 2 ^ 15; time = now }), random % 2 ^ 15)

unfoldable pub get_challenge : NetAddr → (random now : ℕ) → List Challenge → List Challenge × ℕ
get_challenge from random now l = grant from random now l (search_loop from 0 0 (2 ^ 31 - 1) l)

-- The check of Svc_Connect: the challenges with the one used reset, "Bad challenge", or "No
-- challenge for address".
pub data Check : Type 0 where
  good : List Challenge → Check
  bad_challenge : Check
  no_challenge : Check

unfoldable pub after_other : Challenge → Check → Check
after_other c (good l) = good (c ∷ l)
after_other c bad_challenge = bad_challenge
after_other c no_challenge = no_challenge

unfoldable pub check_challenge : NetAddr → ℕ → List Challenge → Check
check_challenge from number [] = no_challenge
check_challenge from number (c ∷ l) =
    let rest = check_challenge from number l in
    if same_client from c.addr
    then if number == c.challenge then good (record c { challenge = 0 } ∷ l) else bad_challenge
    else after_other c rest

-- `sv_client_t`, as far as the choice of a slot goes
pub record Slot : Type 0 where
  pub is_free : Bool
  pub is_ai : Bool
  pub remote_address : NetAddr
  pub qport : ℕ

abbrev pub is_reconnect : NetAddr → ℕ → Slot → Bool
is_reconnect from qport s =
    not s.is_free
    && (same_client from s.remote_address
        && (from.port == s.remote_address.port || qport == s.qport))

abbrev pub is_available : Slot → Bool
is_available s = s.is_free && not s.is_ai

-- the loops over the slots, and their `break`
unfoldable pub first_slot : (Slot → Bool) → ℕ → List Slot → Option ℕ
first_slot test i [] = none
first_slot test i (s ∷ l) = let rest = first_slot test (i + 1) l in if test s then some i else rest

unfoldable pub or_slot : Option ℕ → Option ℕ → Option ℕ
or_slot (some i) j = some i
or_slot none j = j

-- `client`, none being "Server is full"
unfoldable pub choose_slot : NetAddr → ℕ → List Slot → Option ℕ
choose_slot from qport l =
    or_slot (first_slot (is_reconnect from qport) 0 l) (first_slot is_available 0 l)

-- What a connection request, its user info being accepted, ends in; the game has the last word on
-- an offered slot.
pub data Request : Type 0 where
  bad_challenge_sent : Request
  no_challenge_sent : Request
  full_sent : Request
  offered : ℕ → Request

abbrev pub slot_request : Option ℕ → Request
slot_request none = full_sent
slot_request (some i) = offered i

unfoldable pub after_check :
    NetAddr → ℕ → List Slot → List Challenge → Check → Request × List Challenge
after_check from qport slots l (good l') = (slot_request (choose_slot from qport slots), l')
after_check from qport slots l bad_challenge = (bad_challenge_sent, l)
after_check from qport slots l no_challenge = (no_challenge_sent, l)

unfoldable pub request :
    NetAddr → (qport number : ℕ) → List Slot → List Challenge → Request × List Challenge
request from qport number slots l = after_check from qport slots l (check_challenge from number l)
