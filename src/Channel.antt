-- ===== src/Channel.antt =====
-- src/net_chan.c: the sequenced channel that carries reliable and unreliable messages over UDP.
-- A time is `quake2world.time`, and a packet is the bytes of a datagram.
pub mod Invariant
pub mod Network
pub mod Packet
pub mod Sequence
mod Tests
use quake2world.Prelude.{
  ℕ, ◌+◌, ◌-◌, ◌*◌, ◌/◌, ◌%◌, ◌^◌, Bool, true, false, not, ◌&&◌, ◌||◌, Option, none, some, List, [],
  ltb, leb, ◌==◌, if◌then◌else◌, length, take, replicate, write_at,
}
use quake2world.MemBuf.{MemBuf, init_buffer, contents}
use quake2world.Message.Write.{Writer, ◌>>◌, write_if, write_long, write_byte, write_data}
use quake2world.Message.Read.{begin_reading, read_long, read_byte, minus_one}

-- `net_src_t`
pub data NetSrc : Type 0 where
  udp_client udp_server : NetSrc

abbrev pub is_client : NetSrc → Bool
is_client udp_client = true
is_client udp_server = false

-- `net_addr_t`
pub record NetAddr : Type 0 where
  pub addr_type : ℕ
  pub addr : ℕ
  pub port : ℕ

abbrev pub max_msg_size : ℕ
max_msg_size = 1400

-- sizeof(message_buffer)
abbrev pub max_reliable : ℕ
max_reliable = max_msg_size - 16

-- `net_chan_t`; `message.bytes` is `message_buffer`.
pub record NetChan : Type 0 where
  pub fatal_error : Bool
  pub source : NetSrc
  pub dropped : ℕ
  pub last_received : ℕ
  pub last_sent : ℕ
  pub remote_address : NetAddr
  pub qport : ℕ
  pub incoming_sequence : ℕ
  pub incoming_acknowledged : ℕ
  pub incoming_reliable_acknowledged : ℕ
  pub incoming_reliable_sequence : ℕ
  pub outgoing_sequence : ℕ
  pub reliable_sequence : ℕ
  pub last_reliable_sequence : ℕ
  pub message : MemBuf
  pub reliable_size : ℕ
  pub reliable_buffer : List ℕ

unfoldable pub new_buffer : ℕ → MemBuf
new_buffer size = init_buffer (replicate size 0) size

unfoldable pub setup : NetSrc → NetAddr → ℕ → ℕ → NetChan
setup source addr qport now = record {
  fatal_error = false;
  source = source;
  dropped = 0;
  last_received = now;
  last_sent = 0;
  remote_address = addr;
  qport = qport;
  incoming_sequence = 0;
  incoming_acknowledged = 0;
  incoming_reliable_acknowledged = 0;
  incoming_reliable_sequence = 0;
  outgoing_sequence = 1;
  reliable_sequence = 0;
  last_reliable_sequence = 0;
  message = record (new_buffer max_reliable) { allow_overflow = true };
  reliable_size = 0;
  reliable_buffer = replicate max_reliable 0;
}

unfoldable pub can_reliable : NetChan → Bool
can_reliable chan = if not (chan.reliable_size == 0) then false else true

-- A dropped reliable message is to be sent again, or a new one waits and none is in flight.
unfoldable pub need_reliable : NetChan → Bool
need_reliable chan =
    ltb chan.last_reliable_sequence chan.incoming_acknowledged
      && not (chan.incoming_reliable_acknowledged == chan.reliable_sequence)
    || chan.reliable_size == 0 && not (chan.message.size == 0)

-- `x ^ 1`
abbrev pub flip : ℕ → ℕ
flip x = if x % 2 == 0 then x + 1 else x - 1

-- The message that waits becomes the reliable one.
unfoldable pub stage : NetChan → NetChan
stage chan =
    if chan.reliable_size == 0 && not (chan.message.size == 0)
    then record chan {
      reliable_buffer = write_at chan.reliable_buffer 0 (contents chan.message);
      reliable_size = chan.message.size;
      message = record chan.message { size = 0 };
      reliable_sequence = flip chan.reliable_sequence;
    }
    else chan

-- `(sequence & ~(1 << 31)) | (bit << 31)`
abbrev pub header_word : ℕ → ℕ → ℕ
header_word sequence bit = sequence % 2 ^ 31 + bit % 2 * 2 ^ 31

abbrev pub to_bit : Bool → ℕ
to_bit b = if b then 1 else 0

-- the unreliable part, if it fits
unfoldable pub write_unreliable : List ℕ → Writer
write_unreliable xs send =
    if leb (length xs) (send.max_size - send.size) then write_data xs send else some send

-- `chan` is staged, with its sequence not yet counted up.
unfoldable pub write_head : NetChan → Bool → Writer
write_head chan send_reliable = do
  write_long (header_word chan.outgoing_sequence (to_bit send_reliable))
  write_long (header_word chan.incoming_sequence chan.incoming_reliable_sequence)
  write_if (is_client chan.source) (write_byte chan.qport)
  write_if send_reliable (write_data (take chan.reliable_size chan.reliable_buffer))

unfoldable pub write_packet : NetChan → Bool → List ℕ → Writer
write_packet chan send_reliable xs = do write_head chan send_reliable; write_unreliable xs

abbrev pub next_sequence : ℕ → ℕ
next_sequence s = (s + 1) % 2 ^ 32

abbrev pub after_send : NetChan → Bool → ℕ → NetChan
after_send chan send_reliable now = record chan {
  outgoing_sequence = next_sequence chan.outgoing_sequence;
  last_sent = now;
  last_reliable_sequence =
      if send_reliable then next_sequence chan.outgoing_sequence else chan.last_reliable_sequence;
}

abbrev pub sent_packet : NetChan → Option MemBuf → Option (NetChan × Option (List ℕ))
sent_packet chan none = none
sent_packet chan (some send) = some (chan, some (contents send))

unfoldable pub send_staged : NetChan → Bool → List ℕ → ℕ → Option (NetChan × Option (List ℕ))
send_staged staged send_reliable xs now =
    sent_packet (after_send staged send_reliable now)
      (write_packet staged send_reliable xs (new_buffer max_msg_size))

-- Returns the channel and the datagram sent, if one is; `none` is an abort.
unfoldable pub transmit : NetChan → List ℕ → ℕ → Option (NetChan × Option (List ℕ))
transmit chan xs now =
    if chan.message.overflowed
    then some (record chan { fatal_error = true }, none)
    else send_staged (stage chan) (need_reliable chan) xs now

-- the two words of a packet's header, and the message with its cursor behind the header
pub record Header : Type 0 where
  pub sequence : ℕ
  pub sequence_ack : ℕ
  pub body : MemBuf

-- a server reads the client's qport
unfoldable pub skip_qport : NetChan → MemBuf → MemBuf
skip_qport chan msg = if is_client chan.source then msg else (read_byte msg).1

unfoldable pub read_header : NetChan → MemBuf → Header
read_header chan msg =
    let (sequence, msg1) = read_long (begin_reading msg) in
    let (sequence_ack, msg2) = read_long msg1 in
    record { sequence = sequence; sequence_ack = sequence_ack; body = skip_qport chan msg2 }

-- What Netchan_Process makes of the header.
unfoldable pub accept : NetChan → ℕ → ℕ → ℕ → NetChan × Bool
accept chan word word_ack now =
    let sequence = word % 2 ^ 31 in
    let reliable_message = word / 2 ^ 31 in
    let reliable_ack = word_ack / 2 ^ 31 in
    if leb sequence chan.incoming_sequence then (chan, false) else (
      record chan {
        dropped = (sequence + 2 ^ 32 - next_sequence chan.incoming_sequence) % 2 ^ 32;
        reliable_size = if reliable_ack == chan.reliable_sequence then 0 else chan.reliable_size;
        incoming_sequence = sequence;
        incoming_acknowledged = word_ack % 2 ^ 31;
        incoming_reliable_acknowledged = reliable_ack;
        incoming_reliable_sequence =
            if reliable_message == 0
            then chan.incoming_reliable_sequence
            else flip chan.incoming_reliable_sequence;
        last_received = now;
      },
      true,
    )

-- Returns the channel, the message at its payload, and whether the packet is to be used.
unfoldable pub process : NetChan → MemBuf → ℕ → NetChan × MemBuf × Bool
process chan msg now =
    let h = read_header chan msg in
    let (chan', used) = accept chan h.sequence h.sequence_ack now in (chan', h.body, used)

-- A datagram outside any channel: the sequence -1, then the data.
unfoldable pub out_of_band : List ℕ → Option (List ℕ)
out_of_band xs = elim ((write_long minus_one >> write_data xs) (new_buffer max_msg_size)) [
  | none ↦ none
  | some send ↦ some (contents send)
]
