-- ===== src/Channel/Network/Staging.antt =====
-- One packet that `a` sends in src/net_chan.c keeps the invariant.
use quake2world.Prelude.{
  ℕ, ◌+◌, ◌%◌, ◌<◌, ◌≡◌, refl, ap, ◌∙◌, inl, inr, Bool, true, false, some, List, [], ◌∷◌, ◌++◌,
  arith, length, Bool-cases, if_true,
}
use quake2world.Channel.{NetChan, is_client, transmit, after_send}
use quake2world.Channel.Packet.{reliable_part}
use quake2world.Channel.Invariant.{IsChan, packet_bytes, after_send-IsChan}
use quake2world.Channel.Network.{Packet, Net, last_sequence}
use quake2world.Channel.Network.Invariant.{Inv, ToB, seq, All-map}

-- A call that sends a packet found no overflow.
pub transmit_ok :
    (chan : NetChan) {chan' : NetChan} {bytes : List ℕ} (xs : List ℕ) (now : ℕ)
    → transmit chan xs now ≡ some (chan', some bytes)
    → chan.message.overflowed ≡ false
unfolding transmit
transmit_ok chan xs now e = elim (Bool-cases chan.message.overflowed) [
  | inl lost ↦ cc (if_true _ _ lost)
  | inr ok ↦ ok
]

-- the channel after the staging, and the packet
abbrev pub packet_with : NetChan → Bool → List ℕ → Packet
packet_with a r xs = record {
  bytes = packet_bytes a r xs;
  sender = a;
  reliable = r;
  unreliable = xs;
}

abbrev pub sent_by_a : Net → NetChan → Bool → List (List ℕ) → List ℕ → ℕ → Net
sent_by_a s a r l xs now = record s {
  a = after_send a r now;
  to_b = packet_with a r xs ∷ s.to_b;
  staged = l;
}

-- What the staging makes of `a`, where the packet is to carry the reliable message.
pub record Stages (s : Net) (a : NetChan) (l : List (List ℕ)) : Type 0 where
  pub chan : IsChan a
  pub source : a.source ≡ s.a.source
  pub outgoing : a.outgoing_sequence ≡ s.a.outgoing_sequence
  pub incoming : a.incoming_sequence ≡ s.a.incoming_sequence
  pub acknowledged : a.incoming_acknowledged ≡ s.a.incoming_acknowledged
  pub known_bit : a.incoming_reliable_acknowledged ≡ s.a.incoming_reliable_acknowledged
  pub bit : a.reliable_sequence ≡ length l % 2
  pub all_known : s.known ≡ length s.got
  pub pending : length s.got + 1 ≡ length l
  pub busy : 0 < a.reliable_size
  pub order : l ≡ s.got ++ (reliable_part a ∷ [])
  pub none_live : (p : Packet) → ToB s p → p.reliable ≡ true → s.b.incoming_sequence < seq p → ⊥

module _ {s : Net} (i : Inv s) (xs : List ℕ) (now : ℕ)
    (below : s.a.outgoing_sequence < last_sequence) where
  open i use {counts, replies, packets, ordered}

  pub reliable-Inv :
      (a : NetChan) (l : List (List ℕ)) → Stages s a l → Inv (sent_by_a s a true l xs now)
  reliable-Inv a l g = record {
    a_chan = after_send-IsChan true now g.chan;
    b_chan = i.b_chan;
    a_source = ap is_client g.source ∙ i.a_source;
    b_source = i.b_source;
    counts = record {
      bit_out = g.bit;
      bit_in = counts.bit_in;
      bit_known = g.known_bit ∙ counts.bit_known;
      known_le = counts.known_le;
      got_le = omega (arith, g.pending);
      staged_le = omega (arith, g.pending, g.all_known);
      idle = λ e. absurd (omega (arith, e, g.busy));
      busy = λ e. omega (arith, g.pending, g.all_known);
      out_a = omega (arith, g.outgoing, below);
      out_b = counts.out_b;
      in_a = omega (arith, g.incoming, counts.in_a);
      in_b = omega (arith, g.outgoing, counts.in_b, below);
      last = omega arith;
      ack = omega (arith, g.acknowledged, counts.ack);
      ack_old = λ e. absurd (omega (arith, e, g.all_known));
    };
    order = record { all = λ e. absurd (omega (arith, e, g.pending)); but_last = λ e. g.order };
    packets = (
      record {
        built = record { chan = g.chan; source = ap is_client g.source ∙ i.a_source; bytes = refl };
        sent = omega (arith, g.outgoing, below);
        reliable = λ e. omega (arith, g.outgoing, below);
        live = λ e h. record {
          last = omega (arith, g.outgoing, below);
          pending = g.pending;
          size = refl;
          part = refl;
        };
      },
      All-map s.to_b
          (λ p h. record {
            built = h.built;
            sent = omega (arith, h.sent, g.outgoing, below);
            reliable = λ e. omega (arith, h.sent, g.outgoing, below);
            live = λ e later. absurd (g.none_live p h e later);
          })
          packets,
    );
    replies =
        All-map s.to_a
          (λ q h. record {
            built = h.built;
            sent = h.sent;
            ack = h.ack;
            count = h.count;
            bit = h.bit;
            old = λ e. omega (arith, h.old e, counts.last, g.outgoing, below);
            known = λ e. h.known (omega (arith, e, g.incoming));
          })
          replies;
    ordered = ordered;
  }

  pub unreliable-Inv : Inv (sent_by_a s s.a false s.staged xs now)
  unreliable-Inv = record {
    a_chan = after_send-IsChan false now i.a_chan;
    b_chan = i.b_chan;
    a_source = i.a_source;
    b_source = i.b_source;
    counts = record {
      bit_out = counts.bit_out;
      bit_in = counts.bit_in;
      bit_known = counts.bit_known;
      known_le = counts.known_le;
      got_le = counts.got_le;
      staged_le = counts.staged_le;
      idle = counts.idle;
      busy = counts.busy;
      out_a = omega (arith, below);
      out_b = counts.out_b;
      in_a = counts.in_a;
      in_b = omega (arith, counts.in_b, below);
      last = omega (arith, counts.last, below);
      ack = counts.ack;
      ack_old = counts.ack_old;
    };
    order = record { all = i.order.all; but_last = i.order.but_last };
    packets = (
      record {
        built = record { chan = i.a_chan; source = i.a_source; bytes = refl };
        sent = omega (arith, below);
        reliable = λ e. cc;
        live = λ e h. cc;
      },
      All-map s.to_b
          (λ p h. record {
            built = h.built;
            sent = omega (arith, h.sent, below);
            reliable = h.reliable;
            live = λ e later.
                let l = h.live e later in
                record { last = l.last; pending = l.pending; size = l.size; part = l.part };
          })
          packets,
    );
    replies =
        All-map s.to_a
          (λ q h. record {
            built = h.built;
            sent = h.sent;
            ack = h.ack;
            count = h.count;
            bit = h.bit;
            old = h.old;
            known = h.known;
          })
          replies;
    ordered = ordered;
  }

-- the channel with its waiting message in flight
