-- ===== src/Channel/Network/Tests.antt =====
-- Sessions over the network at concrete states: nothing is lost in them until the sequences run out.
use quake2world.Prelude.{
  ℕ, suc, ◌+◌, ◌≤◌, ◌<◌, ◌≡◌, ◌⊎◌, refl, ap, ◌∙◌, inl, false, List, [], ◌∷◌, ◌++◌, arith, length,
  take,
}
use quake2world.MemBuf.{MemBuf}
use quake2world.MemBuf.Valid.{IsValid, written, written-Appends, write_buffer_lem}
use quake2world.Channel.{
  NetChan, NetAddr, udp_client, setup, max_reliable, new_buffer, process, accept, stage,
  need_reliable, after_send,
}
use quake2world.Channel.Packet.{reliable_part, new_buffer-IsEmpty}
use quake2world.Channel.Invariant.{
  IsChan, setup-IsChan, packet_bytes, transmit_sends, length-packet_bytes, stage-IsChan,
}
use quake2world.Channel.Network.{
  Net, Packet, Reply, packet_of, last_sequence, a_sends, b_sends, a_receives, b_receives, a_writes,
  a_sent, b_sent, a_received, b_received, reply_of, Round, round, Reach, here, next, start,
}
use quake2world.Channel.Network.Invariant.{Inv, start-Inv}
use quake2world.Channel.Network.Sends.{stage-Keeps}
use quake2world.Channel.Network.Delivery.{Step-Inv, Reach-Inv, reliable_delivery}
use quake2world.Channel.Network.Progress.{three_rounds_deliver}

-- a message with these bytes
abbrev message : List ℕ → MemBuf
message xs = record {
  allow_overflow = false;
  overflowed = false;
  bytes = xs;
  max_size = length xs;
  size = length xs;
  read = 0;
}

take-length : (xs : List ℕ) → take (length xs) xs ≡ xs
take-length [] = refl
take-length (x ∷ xs) = ap (λ l. x ∷ l) (take-length xs)

process-message : (c : NetChan) (msg : MemBuf) (now : ℕ) → (process c msg now).0.message ≡ c.message
unfolding process accept
process-message c msg now = ground arith

process-outgoing :
    (c : NetChan) (msg : MemBuf) (now : ℕ)
    → (process c msg now).0.outgoing_sequence ≡ c.outgoing_sequence
unfolding process accept
process-outgoing c msg now = ground arith

stage-overflowed : (c : NetChan) → (stage c).message.overflowed ≡ c.message.overflowed
unfolding stage
stage-overflowed c = ground arith

-- Both ends can still send `k` datagrams.
record Ready (k : ℕ) (s : Net) : Type 0 where
  inv : Inv s
  ok_a : s.a.message.overflowed ≡ false
  ok_b : s.b.message.overflowed ≡ false
  room_a : s.a.outgoing_sequence + k ≤ last_sequence
  room_b : s.b.outgoing_sequence + k ≤ last_sequence

abbrev next_of : NetChan → NetChan
next_of c = after_send (stage c) (need_reliable c) 0

abbrev datagram : NetChan → List ℕ → List ℕ
datagram c xs = packet_bytes (stage c) (need_reliable c) xs

message-IsValid : (c : NetChan) (xs : List ℕ) → IsChan c → IsValid (message (datagram c xs))
message-IsValid c xs v = omega (arith, length-packet_bytes (need_reliable c) xs (stage-IsChan v))

-- A round of two datagrams with no unreliable data.
round_possible : (k : ℕ) (s : Net) → Ready (suc k) s → (u : Net) × Round s u × Ready k u
round_possible k s y =
    let i = y.inv in
    let e = transmit_sends [] 0 i.a_chan y.ok_a in
    let p : Packet = packet_of s.a (datagram s.a []) [] in
    let s1 : Net = a_sent s [] (next_of s.a) (datagram s.a []) in
    let i1 : Inv s1 = Step-Inv (a_sends [] 0 _ _ e (omega (arith, y.room_a))) i in
    let m : MemBuf = message (datagram s.a []) in
    let mv = message-IsValid s.a [] i.a_chan in
    let s2 : Net = b_received s1 p m 0 in
    let i2 : Inv s2 = Step-Inv (b_receives p m 0 (inl refl) mv (take-length _)) i1 in
    let ok : s2.b.message.overflowed ≡ false =
      ap (λ t. t.overflowed) (process-message s.b m 0) ∙ y.ok_b in
    let out = process-outgoing s.b m 0 in
    let f = transmit_sends [] 0 i2.b_chan ok in
    let s3 : Net = b_sent s2 [] (next_of s2.b) (datagram s2.b []) in
    let i3 : Inv s3 = Step-Inv (b_sends [] 0 _ _ f (omega (arith, y.room_b, out))) i2 in
    let q : Reply = reply_of s2 (datagram s2.b []) [] in
    let m' : MemBuf = message (datagram s2.b []) in
    let mv' = message-IsValid s2.b [] i2.b_chan in
    let ka = stage-Keeps s.a in
    let kb = stage-Keeps s2.b in
    (
      a_received s3 q m' 0,
      round [] [] _ _ 0 (next_of s.a) (next_of s2.b) m m' e (omega (arith, y.room_a)) mv
          (take-length _) f (omega (arith, y.room_b, out)) mv' (take-length _),
      record {
        inv = Step-Inv (a_receives q m' 0 (inl refl) mv' (take-length _)) i3;
        ok_a =
            ap (λ t. t.overflowed) (process-message (next_of s.a) m' 0)
            ∙ stage-overflowed s.a
            ∙ y.ok_a;
        ok_b = stage-overflowed s2.b ∙ ok;
        room_a = omega (arith, process-outgoing (next_of s.a) m' 0, ka.outgoing, y.room_a);
        room_b = omega (arith, kb.outgoing, out, y.room_b);
      },
    )

abbrev here_addr : NetAddr
here_addr = record { addr_type = 2; addr = 0x0100007f; port = 1998 }

abbrev begun : Net
begun = start here_addr here_addr 7 0

-- a session in which `a` has written a message of two bytes, and has sent nothing
abbrev waiting : Net
waiting = record begun { a = record begun.a { message = written begun.a.message (5 ∷ 6 ∷ []) } }

waiting_room : begun.a.message.size + 2 ≤ begun.a.message.max_size
unfolding setup
waiting_room =
    let e = new_buffer-IsEmpty max_reliable (omega arith) in omega (arith, e.empty, e.room)

begun_valid : IsValid begun.a.message
begun_valid = (setup-IsChan udp_client here_addr 7 0).message

written_step : Reach begun waiting
written_step = next here (
    a_writes (5 ∷ 6 ∷ []) _ (omega arith)
      (write_buffer_lem begun.a.message (5 ∷ 6 ∷ []) begun_valid waiting_room))

waiting-Ready : Ready 4 waiting
unfolding setup new_buffer
waiting-Ready = record {
  inv = Reach-Inv written_step (start-Inv here_addr here_addr 7 0);
  ok_a = (written-Appends begun.a.message (5 ∷ 6 ∷ []) begun_valid waiting_room).same_overflowed;
  ok_b = refl;
  room_a = omega arith;
  room_b = omega arith;
}

-- The message is sent, and has not arrived.
abbrev sent : Net
sent = a_sent waiting [] (next_of waiting.a) (datagram waiting.a [])

sent_step : Reach begun sent
sent_step = next written_step (
    a_sends [] 0 _ _ (transmit_sends [] 0 waiting-Ready.inv.a_chan waiting-Ready.ok_a)
      (omega (arith, waiting-Ready.room_a)))

sent-Ready : Ready 3 sent
sent-Ready = record {
  inv = Reach-Inv sent_step (start-Inv here_addr here_addr 7 0);
  ok_a = stage-overflowed waiting.a ∙ waiting-Ready.ok_a;
  ok_b = waiting-Ready.ok_b;
  room_a = omega (arith, waiting-Ready.room_a, (stage-Keeps waiting.a).outgoing);
  room_b = omega (arith, waiting-Ready.room_b);
}

first : (u : Net) × Round sent u × Ready 2 u
first = round_possible 2 sent sent-Ready

second : (u : Net) × Round first.0 u × Ready 1 u
second = round_possible 1 first.0 first.2

third : (u : Net) × Round second.0 u × Ready 0 u
third = round_possible 0 second.0 second.2

three_rounds_deliver_example : take (length sent.staged) third.0.got ≡ sent.staged
three_rounds_deliver_example =
    three_rounds_deliver here_addr here_addr 7 0 sent_step first.1 second.1 third.1

reliable_delivery_example :
    (sent.staged ≡ sent.got)
    ⊎ ((sent.staged ≡ sent.got ++ (reliable_part sent.a ∷ [])) × (0 < sent.a.reliable_size))
reliable_delivery_example = reliable_delivery here_addr here_addr 7 0 sent_step
