-- ===== src/Master.antt =====
-- src/master/main.c: the master server, which keeps the list of the public game servers. A handler
-- takes the list to the new one and the datagrams sent. The clock, the comparison of GLib and the blacklist
-- file are parameters.
pub mod Registry
pub mod Listing
pub mod Walk
mod Tests
use quake2world.Prelude.{
  ℕ, zero, suc, ◌+◌, ◌%◌, ◌^◌, Bool, true, false, ◌&&◌, ◌||◌, Option, none, some, List, [], ◌∷◌,
  ◌++◌, ltb, leb, ◌==◌, if◌then◌else◌, drop,
}
use quake2world.MemBuf.{MemBuf, contents}
use quake2world.Message.Write.{Writer, ◌>>◌, skip, write_data, write_if, short_bytes, long_bytes}
use quake2world.Channel.{new_buffer}

-- the address and port of a `struct sockaddr_in`
pub record SockAddr : Type 0 where
  pub ip : ℕ
  pub port : ℕ

-- `ms_server_t`
pub record Server : Type 0 where
  pub addr : SockAddr
  pub queued_pings : ℕ
  pub last_heartbeat : ℕ
  pub last_ping : ℕ
  pub validated : Bool

-- the datagrams that the master sends
pub data Sent : Type 0 where
  ack ping : SockAddr → Sent
  servers : SockAddr → List ℕ → Sent

abbrev pub Servers : Type 0
Servers = List Server

unfoldable pub same_addr : SockAddr → SockAddr → Bool
same_addr a b = a.ip == b.ip && a.port == b.port

unfoldable pub get_server : Servers → SockAddr → Option Server
get_server [] from = none
get_server (s ∷ ms_servers) from =
    if same_addr s.addr from then some s else get_server ms_servers from

-- Ms_DropServer of the server that Ms_GetServer finds.
unfoldable pub drop_server : Servers → SockAddr → Servers
drop_server [] from = []
drop_server (s ∷ ms_servers) from =
    if same_addr s.addr from then ms_servers else s ∷ drop_server ms_servers from

-- A write through the pointer that Ms_GetServer returns.
unfoldable pub update_server : (Server → Server) → Servers → SockAddr → Servers
update_server f [] from = []
update_server f (s ∷ ms_servers) from =
    if same_addr s.addr from then f s ∷ ms_servers else s ∷ update_server f ms_servers from

abbrev pub Step : Type 0
Step = Servers × List Sent

abbrev pub new_server : SockAddr → ℕ → Server
new_server from now = record {
  addr = from;
  queued_pings = 0;
  last_heartbeat = now;
  last_ping = 0;
  validated = false;
}

unfoldable pub add_server : (SockAddr → Bool) → Servers → SockAddr → ℕ → Step
add_server blacklisted ms_servers from now = elim (get_server ms_servers from) [
  | some s ↦ (ms_servers, [])
  | none ↦
      if blacklisted from
      then (ms_servers, [])
      else (new_server from now ∷ ms_servers, ack from ∷ [])
]

unfoldable pub remove_server : Servers → SockAddr → Step
remove_server ms_servers from = elim (get_server ms_servers from) [
  | none ↦ (ms_servers, [])
  | some s ↦ (drop_server ms_servers from, [])
]

abbrev pub acknowledged : Server → Server
acknowledged s = record s { validated = true; queued_pings = 0 }

unfoldable pub ack_server : Servers → SockAddr → Step
ack_server ms_servers from = elim (get_server ms_servers from) [
  | none ↦ (ms_servers, [])
  | some s ↦ (update_server acknowledged ms_servers from, [])
]

unfoldable pub heartbeat : (SockAddr → Bool) → Servers → SockAddr → ℕ → Step
heartbeat blacklisted ms_servers from now = elim (get_server ms_servers from) [
  | some s ↦
      (update_server (λ t. record t { last_heartbeat = now }) ms_servers from, ack s.addr ∷ [])
  | none ↦ add_server blacklisted ms_servers from now
]

-- "\xFF\xFF\xFF\xFF" "servers "
abbrev pub listing_head : List ℕ
listing_head = 255 ∷ 255 ∷ 255 ∷ 255 ∷ 115 ∷ 101 ∷ 114 ∷ 118 ∷ 101 ∷ 114 ∷ 115 ∷ 32 ∷ []

-- The bytes of the address and of the port, as the host stores them, lowest first.
unfoldable pub write_servers : Servers → Writer
write_servers [] = skip
write_servers (s ∷ ms_servers) = do
  write_if s.validated (write_data (long_bytes s.addr.ip) >> write_data (short_bytes s.addr.port))
  write_servers ms_servers

abbrev pub max_listing : ℕ
max_listing = 0xffff

abbrev pub reply_with : SockAddr → Option MemBuf → Option (List Sent)
reply_with from none = none
reply_with from (some buf) = some (servers from (contents buf) ∷ [])

-- The reply to "getservers"; `none` is the abort of a list that does not fit.
unfoldable pub list_servers : Servers → SockAddr → Option (List Sent)
list_servers ms_servers from =
    reply_with from ((write_data listing_head >> write_servers ms_servers) (new_buffer max_listing))

-- What the master does once in a second or after a message. The walk goes by `next` of the list's
-- links; where it drops a server, it reads `next` of a link that has been freed, so what it does
-- from there on is not defined: `dangling`, with the list as it stands then.
pub data Frame : Type 0 where
  walked : Servers → List Sent → Frame
  dangling : Servers → List Sent → Frame

abbrev pub is_silent : ℕ → Server → Bool
is_silent now s = ltb (s.last_heartbeat + 30) now

abbrev pub is_lost : ℕ → Server → Bool
is_lost now s = is_silent now s && ltb 6 s.queued_pings

abbrev pub is_pinged : ℕ → Server → Bool
is_pinged now s = is_silent now s && leb (s.last_ping + 10) now

abbrev pub pinged : ℕ → Server → Server
pinged now s = record s { queued_pings = (s.queued_pings + 1) % 2 ^ 16; last_ping = now }

abbrev pub behind : Server → List Sent → Frame → Frame
behind s sent (walked ms_servers more) = walked (s ∷ ms_servers) (sent ++ more)
behind s sent (dangling ms_servers more) = dangling (s ∷ ms_servers) (sent ++ more)

unfoldable pub frame : ℕ → Servers → Frame
frame now [] = walked [] []
frame now (s ∷ ms_servers) =
    let rest = frame now ms_servers in
    if is_lost now s
    then dangling ms_servers []
    else if is_pinged now s
    then behind (pinged now s) (ping s.addr ∷ []) rest
    else behind s [] rest

-- the line, with its newline overwritten
unfoldable pub terminate : List ℕ → List ℕ
terminate [] = []
terminate (c ∷ cs) = if c == 10 || c == 0 then 0 ∷ cs else c ∷ terminate cs

-- `cmd += 4`
unfoldable pub command_of : List ℕ → List ℕ
command_of xs = drop 4 (terminate xs)

-- the commands, by the prefixes that Ms_ParseMessage tests in turn
pub data Command : Type 0 where
  cmd_ping cmd_heartbeat cmd_ack cmd_shutdown cmd_getservers cmd_unknown : Command

unfoldable pub handle : (SockAddr → Bool) → Command → Servers → SockAddr → ℕ → Option Step
handle blacklisted cmd_ping ms_servers from now = some (add_server blacklisted ms_servers from now)
handle blacklisted cmd_heartbeat ms_servers from now =
    some (heartbeat blacklisted ms_servers from now)
handle blacklisted cmd_ack ms_servers from now = some (ack_server ms_servers from)
handle blacklisted cmd_shutdown ms_servers from now = some (remove_server ms_servers from)
handle blacklisted cmd_getservers ms_servers from now = elim (list_servers ms_servers from) [
  | none ↦ none
  | some sent ↦ some (ms_servers, sent)
]
handle blacklisted cmd_unknown ms_servers from now = some (ms_servers, [])

-- `has cmd s` is `!g_ascii_strncasecmp(cmd, s, strlen(s))`.
unfoldable pub classify : (List ℕ → List ℕ → Bool) → List ℕ → Command
classify has cmd =
    if has cmd (112 ∷ 105 ∷ 110 ∷ 103 ∷ [])
    then cmd_ping
    else if has cmd (104 ∷ 101 ∷ 97 ∷ 114 ∷ 116 ∷ 98 ∷ 101 ∷ 97 ∷ 116 ∷ [])
        || has cmd (112 ∷ 114 ∷ 105 ∷ 110 ∷ 116 ∷ [])
    then cmd_heartbeat
    else if has cmd (97 ∷ 99 ∷ 107 ∷ [])
    then cmd_ack
    else if has cmd (115 ∷ 104 ∷ 117 ∷ 116 ∷ 100 ∷ 111 ∷ 119 ∷ 110 ∷ [])
    then cmd_shutdown
    else if has cmd (103 ∷ 101 ∷ 116 ∷ 115 ∷ 101 ∷ 114 ∷ 118 ∷ 101 ∷ 114 ∷ 115 ∷ [])
        || has cmd (121 ∷ [])
    then cmd_getservers
    else cmd_unknown

unfoldable pub parse_message :
    (List ℕ → List ℕ → Bool) → (SockAddr → Bool) → Servers → SockAddr → List ℕ → ℕ → Option Step
parse_message has blacklisted ms_servers from xs now =
    handle blacklisted (classify has (command_of xs)) ms_servers from now
