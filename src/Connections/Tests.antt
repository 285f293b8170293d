-- ===== src/Connections/Tests.antt =====
-- Challenges and slots of src/server/sv_main.c at concrete states.
use quake2world.Prelude.{ℕ, ◌≡◌, refl, true, false, List, [], ◌∷◌, arith}
use quake2world.Channel.{NetAddr}
use quake2world.UserInfo.{get_user_info, get_loop, span, set_user_info, validate_user_info}
use quake2world.UserInfo.Pairs.{Pairs, print}
use quake2world.Connections.Requests.{ip_key, connect, after_info, checked_info}
use quake2world.Connections.Requests.RealAddress.{real_address}
use quake2world.Connections.{
  Challenge, search_loop, get_challenge, grant, after_other, check_challenge, Slot, choose_slot,
  first_slot, or_slot, offered, slot_request, request, after_check,
}
use quake2world.Connections.Granted.{IsGood, granted_request, spent_challenge}
use quake2world.Connections.Oldest.{IsAt, NoneBefore, oldest_overwritten}

abbrev address : ℕ → NetAddr
address n = record { addr_type = 3; addr = n; port = 27910 }

abbrev asked : ℕ → ℕ → ℕ → Challenge
asked n challenge time = record { addr = address n; challenge = challenge; time = time }

abbrev challenges : List Challenge
challenges = asked 1 100 50 ∷ asked 2 200 20 ∷ asked 3 300 70 ∷ []

abbrev slots : List Slot
slots =
    record { is_free = false; is_ai = false; remote_address = address 8; qport = 5 }
    ∷ record { is_free = true; is_ai = true; remote_address = address 0; qport = 0 }
    ∷ record { is_free = true; is_ai = false; remote_address = address 0; qport = 0 }
    ∷ []

granted_request_example :
    (request
      (address 9)
      7
      (get_challenge (address 9) 40000 90 challenges).1
      slots
      (get_challenge (address 9) 40000 90 challenges).0).0
    ≡ slot_request (choose_slot (address 9) 7 slots)
granted_request_example = granted_request (address 9) 7 40000 90 slots challenges (omega arith)

offers_free :
    (request
      (address 9)
      7
      (get_challenge (address 9) 40000 90 challenges).1
      slots
      (get_challenge (address 9) 40000 90 challenges).0).0
    ≡ offered 2
unfolding request after_check check_challenge after_other get_challenge grant search_loop
    choose_slot first_slot or_slot
offers_free = refl

spent_challenge_example :
    IsGood (check_challenge (address 2) 0 (asked 1 100 50 ∷ asked 2 0 20 ∷ asked 3 300 70 ∷ []))
spent_challenge_example =
    spent_challenge (address 2) 200 challenges (asked 1 100 50 ∷ asked 2 0 20 ∷ asked 3 300 70 ∷ [])
      (unfold check_challenge after_other in refl)

oldest_overwritten_example : (x : Challenge) × IsAt challenges 1 x × NoneBefore x.time challenges
oldest_overwritten_example =
    oldest_overwritten (address 9) 1 (asked 1 100 50) (asked 2 200 20 ∷ asked 3 300 70 ∷ [])
      (omega arith, (omega arith, (omega arith, tt))) (unfold search_loop in refl)

-- "na" and "A"
abbrev settings : Pairs
settings = (110 ∷ 97 ∷ [], 65 ∷ []) ∷ []

-- "1.2:3"
abbrev sender : List ℕ
sender = 49 ∷ 46 ∷ 50 ∷ 58 ∷ 51 ∷ []

real_address_example : get_user_info (set_user_info (print settings) ip_key sender) ip_key ≡ sender
real_address_example =
    real_address (address 2) 7 200 (print settings) sender slots challenges settings
      (set_user_info (print settings) ip_key sender) (offered 2) ip_key refl (refl, refl, tt)
      (refl, tt) (omega arith) refl refl (omega arith) (omega arith)
      (unfold connect after_info checked_info get_user_info get_loop span validate_user_info request
          after_check check_challenge after_other choose_slot first_slot or_slot in
        refl)
