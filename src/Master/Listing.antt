-- ===== src/Master/Listing.antt =====
-- The reply of Ms_GetServers in src/master/main.c.
use quake2world.Prelude.{
  ℕ, ◌+◌, ◌*◌, ◌≤◌, ◌<◌, ◌≡◌, refl, sym, ap, ◌∙◌, false, none, some, List, [], ◌∷◌, ◌++◌, arith,
  length, length-append, leb, if◌then◌else◌, Bool-cases, inl, inr, if_true, if_false,
}
use quake2world.Message.Write.{◌>>◌, write_data, given, short_bytes, long_bytes}
use quake2world.Message.Write.Rules.{Writes, Writes-seq, Writes-if, Writes-skip, Writes-write_data}
use quake2world.Message.Write.Strict.{Aborts, Aborts-seq, Aborts-if, Aborts-skip, Aborts-write_data}
use quake2world.Channel.{new_buffer}
use quake2world.Channel.Packet.{new_buffer-IsEmpty, appended_to_empty}
use quake2world.Master.{
  Server, Servers, SockAddr, servers, write_servers, list_servers, reply_with, listing_head,
  max_listing,
}

-- six bytes for each validated server, in the order of the list
abbrev entry : Server → List ℕ
entry s = long_bytes s.addr.ip ++ short_bytes s.addr.port

pub entries : Servers → List ℕ
entries [] = []
entries (s ∷ l) = given s.validated (entry s) ++ entries l

abbrev pub validated_count : Servers → ℕ
validated_count [] = 0
validated_count (s ∷ l) = (if s.validated then 1 else 0) + validated_count l

pub length-entries : (l : Servers) → length (entries l) ≡ 6 * validated_count l
unfolding entries given
length-entries [] = refl
length-entries (s ∷ l) =
    ground (arith, length-append (given s.validated (entry s)) (entries l), length-entries l)

entry-Writes :
    (s : Server)
    → Writes (write_data (long_bytes s.addr.ip) >> write_data (short_bytes s.addr.port)) (entry s)
entry-Writes s = Writes-seq (Writes-write_data _) (Writes-write_data _)

entry-Aborts :
    (s : Server)
    → Aborts (write_data (long_bytes s.addr.ip) >> write_data (short_bytes s.addr.port)) (entry s)
entry-Aborts s =
    Aborts-seq (Writes-write_data _) (Aborts-write_data (long_bytes s.addr.ip) (omega arith))
      (Aborts-write_data (short_bytes s.addr.port) (omega arith))

entries-Writes : (l : Servers) → Writes (write_servers l) (entries l)
unfolding write_servers entries
entries-Writes [] = Writes-skip
entries-Writes (s ∷ l) = Writes-seq (Writes-if s.validated (entry-Writes s)) (entries-Writes l)

entries-Aborts : (l : Servers) → Aborts (write_servers l) (entries l)
unfolding write_servers entries
entries-Aborts [] = Aborts-skip
entries-Aborts (s ∷ l) =
    Aborts-seq (Writes-if s.validated (entry-Writes s)) (Aborts-if s.validated (entry-Aborts s))
      (entries-Aborts l)

new_buffer-strict : (n : ℕ) → (new_buffer n).allow_overflow ≡ false
unfolding new_buffer
new_buffer-strict n = refl

listing-Writes :
    (l : Servers) → Writes (write_data listing_head >> write_servers l) (listing_head ++ entries l)
listing-Writes l = Writes-seq (Writes-write_data listing_head) (entries-Writes l)

listing-Aborts :
    (l : Servers) → Aborts (write_data listing_head >> write_servers l) (listing_head ++ entries l)
listing-Aborts l =
    Aborts-seq (Writes-write_data listing_head) (Aborts-write_data listing_head (omega arith))
      (entries-Aborts l)

-- The reply to "getservers" is the head and six bytes for each validated server, in the order of the list; if
-- there are more than 10920 validated servers, the master aborts.
pub list_servers_lem :
    (l : Servers) (from : SockAddr)
    → list_servers l from ≡ (
        if leb (validated_count l) 10920
        then some (servers from (listing_head ++ entries l) ∷ [])
        else none)
unfolding list_servers
list_servers_lem l from =
    let e = new_buffer-IsEmpty max_listing (omega arith) in
    let buf = new_buffer max_listing in
    elim (Bool-cases (leb (validated_count l) 10920)) [
      | inl fits ↦
          let room : buf.size + length (listing_head ++ entries l) ≤ buf.max_size =
            ground
              (arith, e.empty, e.room, length-append listing_head (entries l), length-entries l) in
          let w = listing-Writes l in
          ap (reply_with from) (w.returns buf e.valid room)
          ∙ ap (λ xs. some (servers from xs ∷ []))
              (appended_to_empty _ e (w.appends buf e.valid room))
          ∙ sym (if_true _ _ fits)
      | inr over ↦
          let full : buf.max_size < buf.size + length (listing_head ++ entries l) =
            ground
              (arith, e.empty, e.room, length-append listing_head (entries l), length-entries l) in
          ap (reply_with from)
            ((listing-Aborts l).aborts buf e.valid (new_buffer-strict max_listing) full)
          ∙ sym (if_false _ _ over)
    ]
