-- ===== src/Channel/Network.antt =====
-- Two ends of a channel of src/net_chan.c, `a` and `b`, and a network between them that loses,
-- repeats and reorders datagrams. The reliable messages of `a` are followed.
pub mod Invariant
pub mod Staging
pub mod SendsA
pub mod Sends
pub mod Taking
pub mod Receives
pub mod Delivery
pub mod Progress
mod Tests
use quake2world.Prelude.{
  ℕ, ◌+◌, ◌-◌, ◌^◌, ◌<◌, ◌≡◌, ◌⊎◌, Bool, true, false, ◌&&◌, not, Option, none, some, List, [], ◌∷◌,
  ◌++◌, ◌==◌, if◌then◌else◌, take, length,
}
use quake2world.MemBuf.{MemBuf, contents, remaining, write_buffer}
use quake2world.MemBuf.Valid.{IsValid}
use quake2world.Channel.{
  NetChan, NetAddr, udp_client, udp_server, setup, stage, need_reliable, transmit, process,
}
use quake2world.Channel.Packet.{reliable_part}

-- A datagram under way: its bytes, and the staged channel that they were built from, the test that
-- added the reliable part, and the unreliable data.
pub record Packet : Type 0 where
  pub bytes : List ℕ
  pub sender : NetChan
  pub reliable : Bool
  pub unreliable : List ℕ

-- A datagram of `b`, with the number of messages that `b` had when it sent it.
pub record Reply : Type 0 where
  pub packet : Packet
  pub count : ℕ

-- The ends, all the datagrams ever sent, the messages that `a` has staged and that `b` has got, in
-- order, and the number of them in the last datagram that `a` has used.
pub record Net : Type 0 where
  pub a : NetChan
  pub b : NetChan
  pub to_b : List Packet
  pub to_a : List Reply
  pub staged : List (List ℕ)
  pub got : List (List ℕ)
  pub known : ℕ

abbrev pub Has : {A : Type 0} → A → List A → Type 0
Has x [] = ⊥
Has x (y ∷ l) = (y ≡ x) ⊎ Has x l

abbrev pub All : {A : Type 0} → (A → Type 0) → List A → Type 0
All P [] = Unit
All P (x ∷ l) = P x × All P l

-- the datagram that an end sends
abbrev pub packet_of : NetChan → List ℕ → List ℕ → Packet
packet_of chan bytes xs = record {
  bytes = bytes;
  sender = stage chan;
  reliable = need_reliable chan;
  unreliable = xs;
}

-- Netchan_Transmit stages the message that waits if none is in flight.
abbrev pub is_staged : NetChan → Bool
is_staged chan = chan.reliable_size == 0 && not (chan.message.size == 0)

abbrev pub with_staged : NetChan → List (List ℕ) → List (List ℕ)
with_staged chan l = if is_staged chan then l ++ (contents chan.message ∷ []) else l

-- The reliable message that `b` reads: the first bytes of the payload of a reliable packet that it uses.
abbrev pub with_got : Packet → MemBuf × Bool → List (List ℕ) → List (List ℕ)
with_got p (body, used) l =
    if used && p.reliable then l ++ (take p.sender.reliable_size (remaining body) ∷ []) else l

-- The sequences of a session stay below the bit that the header takes for the reliable flag.
abbrev pub last_sequence : ℕ
last_sequence = 2 ^ 31 - 1

-- The four events, and what they change.
abbrev pub a_sent : Net → List ℕ → NetChan → List ℕ → Net
a_sent s xs a bytes = record s {
  a = a;
  to_b = packet_of s.a bytes xs ∷ s.to_b;
  staged = with_staged s.a s.staged;
}

abbrev pub reply_of : Net → List ℕ → List ℕ → Reply
reply_of s bytes xs = record { packet = packet_of s.b bytes xs; count = length s.got }

abbrev pub b_sent : Net → List ℕ → NetChan → List ℕ → Net
b_sent s xs b bytes = record s { b = b; to_a = reply_of s bytes xs ∷ s.to_a }

abbrev pub b_received : Net → Packet → MemBuf → ℕ → Net
b_received s p msg now = record s {
  b = (process s.b msg now).0;
  got = with_got p ((process s.b msg now).1, (process s.b msg now).2) s.got;
}

abbrev pub a_received : Net → Reply → MemBuf → ℕ → Net
a_received s q msg now = record s {
  a = (process s.a msg now).0;
  known = if (process s.a msg now).2 then q.count else s.known;
}

pub data Step (s : Net) : Net → Type 0 where
  a_sends :
      (xs : List ℕ) (now : ℕ) (a : NetChan) (bytes : List ℕ)
      → transmit s.a xs now ≡ some (a, some bytes)
      → s.a.outgoing_sequence < last_sequence
      → Step s (a_sent s xs a bytes)
  b_sends :
      (xs : List ℕ) (now : ℕ) (b : NetChan) (bytes : List ℕ)
      → transmit s.b xs now ≡ some (b, some bytes)
      → s.b.outgoing_sequence < last_sequence
      → Step s (b_sent s xs b bytes)
  -- any datagram ever sent
  b_receives :
      (p : Packet) (msg : MemBuf) (now : ℕ)
      → Has p s.to_b
      → IsValid msg
      → contents msg ≡ p.bytes
      → Step s (b_received s p msg now)
  a_receives :
      (q : Reply) (msg : MemBuf) (now : ℕ)
      → Has q s.to_a
      → IsValid msg
      → contents msg ≡ q.packet.bytes
      → Step s (a_received s q msg now)
  -- More is written to the message that waits.
  a_writes :
      (xs : List ℕ) (message : MemBuf)
      → length xs < 2 ^ 63
      → write_buffer s.a.message xs ≡ some message
      → Step s (record s { a = record s.a { message = message } })
  b_writes :
      (xs : List ℕ) (message : MemBuf)
      → length xs < 2 ^ 63
      → write_buffer s.b.message xs ≡ some message
      → Step s (record s { b = record s.b { message = message } })

-- A datagram from `a` to `b` and then one back, neither of them lost.
pub data Round (s : Net) : Net → Type 0 where
  round :
      (xs ys bytes_a bytes_b : List ℕ) (now : ℕ) (a b : NetChan) (msg_a msg_b : MemBuf)
      → transmit s.a xs now ≡ some (a, some bytes_a)
      → s.a.outgoing_sequence < last_sequence
      → IsValid msg_a
      → contents msg_a ≡ bytes_a
      → transmit (process s.b msg_a now).0 ys now ≡ some (b, some bytes_b)
      → (process s.b msg_a now).0.outgoing_sequence < last_sequence
      → IsValid msg_b
      → contents msg_b ≡ bytes_b
      → Round s (
          a_received
            (b_sent
              (b_received (a_sent s xs a bytes_a) (packet_of s.a bytes_a xs) msg_a now)
              ys
              b
              bytes_b)
            (reply_of
              (b_received (a_sent s xs a bytes_a) (packet_of s.a bytes_a xs) msg_a now)
              bytes_b
              ys)
            msg_b
            now)

pub data Reach (s : Net) : Net → Type 0 where
  here : Reach s s
  next : {t u : Net} → Reach s t → Step t u → Reach s u

-- A client and a server that have just been set up.
abbrev pub start : NetAddr → NetAddr → ℕ → ℕ → Net
start addr_a addr_b qport now = record {
  a = setup udp_client addr_a qport now;
  b = setup udp_server addr_b qport now;
  to_b = [];
  to_a = [];
  staged = [];
  got = [];
  known = 0;
}
