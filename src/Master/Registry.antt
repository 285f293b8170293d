-- ===== src/Master/Registry.antt =====
-- The invariant of the master's list: no address is listed twice, and no server has more than seven
-- pings queued, so that the count of 16 bits never wraps.
use quake2world.Prelude.{ℕ, ◌≤◌, ◌≡◌, refl, Bool, false, none, some, List, [], ◌∷◌, arith}
use quake2world.Master.{
  SockAddr, Server, Servers, Sent, Frame, walked, dangling, behind, same_addr, get_server,
  drop_server, update_server, add_server, remove_server, ack_server, heartbeat, acknowledged, ping,
  frame, Command, cmd_ping, cmd_heartbeat, cmd_ack, cmd_shutdown, cmd_getservers, cmd_unknown,
  handle, parse_message, pinged,
}

abbrev pub IsRegistry : Servers → Type 0
IsRegistry [] = Unit
IsRegistry (s ∷ l) = (get_server l s.addr ≡ none) × (s.queued_pings ≤ 7) × IsRegistry l

get-drop :
    (l : Servers) (from a : SockAddr)
    → get_server l a ≡ none
    → get_server (drop_server l from) a ≡ none
unfolding get_server drop_server
get-drop [] from a h = refl
get-drop (s ∷ l) from a h = ground (arith, get-drop l from a)

drop-IsRegistry : (l : Servers) (from : SockAddr) → IsRegistry l → IsRegistry (drop_server l from)
unfolding drop_server
drop-IsRegistry [] from h = tt
drop-IsRegistry (s ∷ l) from h = ground (arith, drop-IsRegistry l from h.2, get-drop l from s.addr)

module _ (f : Server → Server) (keeps : (s : Server) → (f s).addr ≡ s.addr) where
  get-update :
      (l : Servers) (from a : SockAddr)
      → get_server l a ≡ none
      → get_server (update_server f l from) a ≡ none
  unfolding get_server update_server
  get-update [] from a h = refl
  get-update (s ∷ l) from a h = ground (arith, get-update l from a, keeps s)

  update-IsRegistry :
      (l : Servers) (from : SockAddr)
      → ((s : Server) → s.queued_pings ≤ 7 → (f s).queued_pings ≤ 7)
      → IsRegistry l
      → IsRegistry (update_server f l from)
  unfolding update_server
  update-IsRegistry [] from q h = tt
  update-IsRegistry (s ∷ l) from q h =
      ground (arith, keeps s, q s h.1, update-IsRegistry l from q h.2, get-update l from s.addr h.0)

module _ (blacklisted : SockAddr → Bool) where
  add-IsRegistry :
      (l : Servers) (from : SockAddr) (now : ℕ)
      → IsRegistry l
      → IsRegistry (add_server blacklisted l from now).0
  unfolding add_server
  add-IsRegistry l from now h = ground arith

  handle-IsRegistry :
      (cmd : Command) (l : Servers) (from : SockAddr) (now : ℕ) {l' : Servers} {sent : List Sent}
      → IsRegistry l
      → handle blacklisted cmd l from now ≡ some (l', sent)
      → IsRegistry l'
  unfolding handle heartbeat ack_server remove_server
  handle-IsRegistry cmd_ping l from now h e = ground (arith, add-IsRegistry l from now h)
  handle-IsRegistry cmd_heartbeat l from now h e = ground (
    arith,
    add-IsRegistry l from now h,
    update-IsRegistry (λ t. record t { last_heartbeat = now }) (λ s. refl) l from (λ s q. q) h,
  )
  handle-IsRegistry cmd_ack l from now h e =
      ground (arith, update-IsRegistry acknowledged (λ s. refl) l from (λ s q. omega arith) h)
  handle-IsRegistry cmd_shutdown l from now h e = ground (arith, drop-IsRegistry l from h)
  handle-IsRegistry cmd_getservers l from now h e = ground arith
  handle-IsRegistry cmd_unknown l from now h e = ground arith

  -- Whatever a datagram holds and whoever sends it, the list that it leaves has no address twice
  -- and no server with more than seven pings queued, if this was so before.
  pub parse_message-IsRegistry :
      (has : List ℕ → List ℕ → Bool) (l : Servers) (from : SockAddr) (xs : List ℕ) (now : ℕ)
      {l' : Servers} {sent : List Sent}
      → IsRegistry l
      → parse_message has blacklisted l from xs now ≡ some (l', sent)
      → IsRegistry l'
  unfolding parse_message
  parse_message-IsRegistry has l from xs now h e = handle-IsRegistry _ l from now h e

abbrev pub list_of : Frame → Servers
list_of (walked l sent) = l
list_of (dangling l sent) = l

get-behind :
    (t : Server) (sent : List Sent) (r : Frame) (a : SockAddr)
    → same_addr t.addr a ≡ false
    → get_server (list_of r) a ≡ none
    → get_server (list_of (behind t sent r)) a ≡ none
unfolding get_server
get-behind t sent (walked l more) a e h = rw e h
get-behind t sent (dangling l more) a e h = rw e h

get-frame :
    (now : ℕ) (l : Servers) (a : SockAddr)
    → get_server l a ≡ none
    → get_server (list_of (frame now l)) a ≡ none
unfolding get_server frame
get-frame now [] a h = refl
get-frame now (s ∷ l) a h = ground (
  arith,
  get-frame now l a,
  get-behind s [] (frame now l) a,
  get-behind (pinged now s) (ping s.addr ∷ []) (frame now l) a,
)

behind-IsRegistry :
    (t : Server) (sent : List Sent) (r : Frame)
    → get_server (list_of r) t.addr ≡ none
    → t.queued_pings ≤ 7
    → IsRegistry (list_of r)
    → IsRegistry (list_of (behind t sent r))
behind-IsRegistry t sent (walked l more) e q h = (e, q, h)
behind-IsRegistry t sent (dangling l more) e q h = (e, q, h)

-- Ms_Frame too leaves a list with no address twice and no more than seven pings queued, as far as
-- it gets.
pub frame-IsRegistry : (now : ℕ) (l : Servers) → IsRegistry l → IsRegistry (list_of (frame now l))
unfolding frame
frame-IsRegistry now [] h = tt
frame-IsRegistry now (s ∷ l) h = ground (
  arith,
  frame-IsRegistry now l h.2,
  get-frame now l s.addr h.0,
  behind-IsRegistry s [] (frame now l),
  behind-IsRegistry (pinged now s) (ping s.addr ∷ []) (frame now l),
)
