-- ===== src/Channel/Invariant.antt =====
-- The invariant of `net_chan_t`: the buffers hold what they are declared for, and the single bits
-- are bits.
use quake2world.Prelude.{
  ℕ, ◌^◌, ◌≤◌, ◌<◌, ◌≡◌, ◌∙◌, refl, ap, Bool, true, false, Option, none, some, List, ◌++◌, arith,
  length, length-write_at, length-replicate, Bool-cases, inl, inr, if_true, if_false,
}
use quake2world.MemBuf.{contents}
use quake2world.MemBuf.Valid.{IsValid}
use quake2world.MemBuf.Spec.{length-contents}
use quake2world.Channel.{
  NetSrc, NetAddr, NetChan, setup, stage, flip, accept, need_reliable, transmit, send_staged,
  after_send, max_reliable, max_msg_size,
}
use quake2world.Channel.Packet.{head_bytes, unreliable_part, write_packet_lem, new_buffer-IsEmpty}

pub record IsChan (chan : NetChan) : Type 0 where
  pub message : IsValid chan.message
  pub message_max : chan.message.max_size ≡ max_reliable
  pub message_allow : chan.message.allow_overflow ≡ true
  pub reliable_room : length chan.reliable_buffer ≡ max_reliable
  pub reliable_size : chan.reliable_size ≤ max_reliable
  pub incoming : chan.incoming_sequence < 2 ^ 31
  pub outgoing : chan.outgoing_sequence < 2 ^ 32
  pub reliable_in : chan.incoming_reliable_sequence < 2
  pub reliable_out : chan.reliable_sequence < 2

pub setup-IsChan :
    (source : NetSrc) (addr : NetAddr) (qport now : ℕ) → IsChan (setup source addr qport now)
unfolding setup
setup-IsChan source addr qport now =
    let e = new_buffer-IsEmpty max_reliable (omega arith) in
    record {
      message = omega (arith, e.valid);
      message_max = e.room;
      message_allow = refl;
      reliable_room = length-replicate {0} {A = ℕ} max_reliable 0;
      reliable_size = omega arith;
      incoming = omega arith;
      outgoing = omega arith;
      reliable_in = omega arith;
      reliable_out = omega arith;
    }

pub flip-lt : (x : ℕ) → x < 2 → flip x < 2
flip-lt x h = ground arith

pub stage-IsChan : {chan : NetChan} → IsChan chan → IsChan (stage chan)
unfolding stage
stage-IsChan {chan} v = ground (
  arith,
  length-write_at chan.reliable_buffer 0 (contents chan.message),
  flip-lt chan.reliable_sequence v.reliable_out,
)

-- Netchan_Process keeps the invariant, whatever the header says.
pub accept-IsChan :
    {chan : NetChan} (word word_ack now : ℕ)
    → IsChan chan
    → IsChan (accept chan word word_ack now).0
unfolding accept
accept-IsChan {chan} word word_ack now v =
    ground (arith, flip-lt chan.incoming_reliable_sequence v.reliable_in)

-- A datagram fits, and a call that sends none has set the fatal error.
abbrev pub IsOutcome : NetChan → Option (List ℕ) → Type 0
IsOutcome chan none = chan.fatal_error ≡ true
IsOutcome chan (some packet) = length packet ≤ max_msg_size

-- the bytes of the packet that a staged channel sends
abbrev pub packet_bytes : NetChan → Bool → List ℕ → List ℕ
packet_bytes chan r xs = head_bytes chan r ++ unreliable_part chan r xs

send_staged_total :
    {chan : NetChan} (r : Bool) (xs : List ℕ) (now : ℕ)
    → IsChan chan
    → (send_staged chan r xs now ≡ some (after_send chan r now, some (packet_bytes chan r xs)))
      × (length (packet_bytes chan r xs) ≤ max_msg_size)
unfolding send_staged
send_staged_total {chan} r xs now v =
    let (send, p) = write_packet_lem chan r xs v.reliable_size in
    (
      rw (p.built, p.body) refl,
      omega (arith, ap length p.body, length-contents p.valid, p.max, p.valid),
    )

pub length-packet_bytes :
    {chan : NetChan} (r : Bool) (xs : List ℕ)
    → IsChan chan
    → length (packet_bytes chan r xs) ≤ max_msg_size
length-packet_bytes r xs v = (send_staged_total r xs 0 v).1

-- Without an overflow a packet is sent.
pub transmit_sends :
    {chan : NetChan} (xs : List ℕ) (now : ℕ)
    → IsChan chan
    → chan.message.overflowed ≡ false
    → transmit chan xs now
      ≡ some (
        after_send (stage chan) (need_reliable chan) now,
        some (packet_bytes (stage chan) (need_reliable chan) xs),
      )
unfolding transmit
transmit_sends {chan} xs now v ok =
    if_false _ _ ok ∙ (send_staged_total (need_reliable chan) xs now (stage-IsChan v)).0

pub after_send-IsChan :
    {chan : NetChan} (r : Bool) (now : ℕ) → IsChan chan → IsChan (after_send chan r now)
after_send-IsChan r now v = ground arith

-- On a channel that satisfies the invariant Netchan_Transmit never aborts: it returns a channel
-- that satisfies it too, and either a datagram of at most MAX_MSG_SIZE bytes or none, and then
-- the channel has its fatal error set.
pub transmit_total :
    {chan : NetChan} (xs : List ℕ) (now : ℕ)
    → IsChan chan
    → (chan' : NetChan) × (sent : Option (List ℕ)) × (transmit chan xs now ≡ some (chan', sent))
      × IsChan chan'
      × IsOutcome chan' sent
unfolding transmit
transmit_total {chan} xs now v = elim (Bool-cases chan.message.overflowed) [
  | inl lost ↦ (record chan { fatal_error = true }, none, if_true _ _ lost, ground arith, refl)
  | inr ok ↦ (
    after_send (stage chan) (need_reliable chan) now,
    some (packet_bytes (stage chan) (need_reliable chan) xs),
    transmit_sends xs now v ok,
    after_send-IsChan (need_reliable chan) now (stage-IsChan v),
    (send_staged_total (need_reliable chan) xs now (stage-IsChan v)).1,
  )
]
