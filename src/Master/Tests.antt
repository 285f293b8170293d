-- ===== src/Master/Tests.antt =====
-- The master of src/master/main.c at concrete lists.
use quake2world.Prelude.{
  inl, none, ℕ, ◌≡◌, refl, Bool, true, false, some, List, [], ◌∷◌, ◌++◌, arith, ◌==◌,
}
use quake2world.Master.{
  SockAddr, Servers, servers, ack, parse_message, list_servers, listing_head, frame, get_server,
  same_addr, handle, heartbeat, classify, new_server, update_server,
}
use quake2world.Master.Registry.{IsRegistry, list_of, parse_message-IsRegistry, frame-IsRegistry}
use quake2world.Master.Listing.{entries, list_servers_lem}
use quake2world.Master.Walk.{frames, addrs, kept_a_minute, silent_dropped}

abbrev alice : SockAddr
alice = record { ip = 1; port = 1998 }

abbrev bob : SockAddr
bob = record { ip = 2; port = 1998 }

abbrev registry : Servers
registry = record (new_server alice 100) { validated = true } ∷ new_server bob 50 ∷ []

registry-IsRegistry : IsRegistry registry
unfolding get_server same_addr
registry-IsRegistry = (refl, omega arith, (refl, omega arith, tt))

-- a comparison that finds "heartbeat" in every message
abbrev is_heartbeat : List ℕ → List ℕ → Bool
is_heartbeat cmd [] = true
is_heartbeat cmd (c ∷ prefix) = c == 104

abbrev nobody : SockAddr → Bool
nobody a = false

abbrev later : Servers
later = record (new_server alice 120) { validated = true } ∷ new_server bob 50 ∷ []

heard : parse_message is_heartbeat nobody registry alice [] 120 ≡ some (later, ack alice ∷ [])
unfolding parse_message handle heartbeat classify update_server get_server same_addr
heard = refl

parse_message-IsRegistry_example : IsRegistry later
parse_message-IsRegistry_example =
    parse_message-IsRegistry nobody is_heartbeat registry alice [] 120 registry-IsRegistry heard

frame-IsRegistry_example : IsRegistry (list_of (frame 100 registry))
frame-IsRegistry_example = frame-IsRegistry 100 registry registry-IsRegistry

list_servers_lem_example :
    list_servers registry bob ≡ some (servers bob (listing_head ++ entries registry) ∷ [])
list_servers_lem_example = list_servers_lem registry bob

kept_a_minute_example :
    (l' : Servers) × (frames (100 ∷ 110 ∷ 110 ∷ 159 ∷ []) registry ≡ some l')
    × (addrs l' ≡ addrs registry)
kept_a_minute_example =
    kept_a_minute 100 (100 ∷ 110 ∷ 110 ∷ 159 ∷ []) registry (refl, (refl, tt))
      (
        omega arith,
        omega arith,
        (omega arith, omega arith, (omega arith, omega arith, (omega arith, omega arith, tt))),
      )

-- ten seconds from one to the next
abbrev eight_frames : List ℕ
eight_frames = 140 ∷ 150 ∷ 160 ∷ 170 ∷ 180 ∷ 190 ∷ 200 ∷ 210 ∷ []

silent_dropped_example : frames eight_frames registry ≡ none
silent_dropped_example =
    silent_dropped 130 eight_frames registry (inl (omega arith, omega arith))
      (
        omega arith,
        (
          omega arith,
          (
            omega arith,
            (omega arith, (omega arith, (omega arith, (omega arith, (omega arith, tt))))),
          ),
        ),
      )
      (omega arith)
