-- ===== src/Channel/Network/Sends.antt =====
-- Netchan_Transmit of src/net_chan.c at `b` keeps the invariant.
use quake2world.Prelude.{
  ℕ, ◌<◌, ◌≡◌, refl, sym, ap, ◌∙◌, subst, inl, inr, Bool, some, List, ◌∷◌, arith, length,
  Bool-cases,
}
use quake2world.Channel.{NetChan, is_client, stage, need_reliable, transmit, after_send}
use quake2world.Channel.Invariant.{IsChan, transmit_sends, after_send-IsChan, stage-IsChan}
use quake2world.Channel.Network.{Net, packet_of, is_staged, last_sequence}
use quake2world.Channel.Network.Invariant.{Inv, All-map}
use quake2world.Channel.Network.Staging.{transmit_ok, packet_with}
use quake2world.Channel.Network.SendsA.{stage-staged, stage-unstaged, sent_parts}

-- The staging leaves alone what was received, the sequence and the source.
pub record Keeps (b c : NetChan) : Type 0 where
  pub source : c.source ≡ b.source
  pub outgoing : c.outgoing_sequence ≡ b.outgoing_sequence
  pub last : c.last_reliable_sequence ≡ b.last_reliable_sequence
  pub incoming : c.incoming_sequence ≡ b.incoming_sequence
  pub bit : c.incoming_reliable_sequence ≡ b.incoming_reliable_sequence

pub stage-Keeps : (b : NetChan) → Keeps b (stage b)
unfolding stage
stage-Keeps b = elim (Bool-cases (is_staged b)) [
  | inl e ↦
      subst (Keeps b) (sym (stage-staged b e))
        (record { source = refl; outgoing = refl; last = refl; incoming = refl; bit = refl })
  | inr e ↦
      subst (Keeps b) (sym (stage-unstaged b e))
        (record { source = refl; outgoing = refl; last = refl; incoming = refl; bit = refl })
]

abbrev sent_by_b : Net → NetChan → Bool → List ℕ → ℕ → Net
sent_by_b s b r xs now = record s {
  b = after_send b r now;
  to_a = record { packet = packet_with b r xs; count = length s.got } ∷ s.to_a;
}

module _ {s : Net} (i : Inv s) where
  open i use {counts}

  b_sends_at :
      (c : NetChan) (r : Bool) (xs : List ℕ) (now : ℕ)
      → IsChan c
      → Keeps s.b c
      → s.b.outgoing_sequence < last_sequence
      → Inv (sent_by_b s c r xs now)
  b_sends_at c r xs now v k below = record {
    a_chan = i.a_chan;
    b_chan = after_send-IsChan r now v;
    a_source = i.a_source;
    b_source = ap is_client k.source ∙ i.b_source;
    counts = record {
      bit_out = counts.bit_out;
      bit_in = k.bit ∙ counts.bit_in;
      bit_known = counts.bit_known;
      known_le = counts.known_le;
      got_le = counts.got_le;
      staged_le = counts.staged_le;
      idle = counts.idle;
      busy = counts.busy;
      out_a = counts.out_a;
      out_b = omega (arith, k.outgoing, below);
      in_a = omega (arith, k.outgoing, below, counts.in_a);
      in_b = omega (arith, k.incoming, counts.in_b);
      last = counts.last;
      ack = omega (arith, k.incoming, counts.ack);
      ack_old = counts.ack_old;
    };
    order = record { all = i.order.all; but_last = i.order.but_last };
    packets =
        All-map s.to_b
          (λ p h. record {
            built = h.built;
            sent = h.sent;
            reliable = h.reliable;
            live = λ e later.
                let l = h.live e (omega (arith, later, k.incoming)) in
                record { last = l.last; pending = l.pending; size = l.size; part = l.part };
          })
          i.packets;
    replies = (
      record {
        built = record { chan = v; source = ap is_client k.source ∙ i.b_source; bytes = refl };
        sent = omega (arith, k.outgoing, below);
        ack = omega arith;
        count = omega arith;
        bit = k.bit ∙ counts.bit_in;
        old = λ e. absurd (omega (arith, e));
        known = λ e. counts.known_le;
      },
      All-map s.to_a
          (λ q h. record {
            built = h.built;
            sent = omega (arith, h.sent, k.outgoing, below);
            ack = omega (arith, h.ack, k.incoming);
            count = h.count;
            bit = h.bit;
            old = h.old;
            known = h.known;
          })
          i.replies,
    );
    ordered =
        (All-map s.to_a (λ q h. (omega (arith, h.sent, k.outgoing), h.count)) i.replies, i.ordered);
  }

  pub b_sends-Inv :
      (xs : List ℕ) (now : ℕ) (b : NetChan) (bytes : List ℕ)
      → transmit s.b xs now ≡ some (b, some bytes)
      → s.b.outgoing_sequence < last_sequence
      → Inv (record s {
        b = b;
        to_a = record { packet = packet_of s.b bytes xs; count = length s.got } ∷ s.to_a;
      })
  b_sends-Inv xs now b bytes e below =
      let sent = sym (transmit_sends xs now i.b_chan (transmit_ok s.b xs now e)) ∙ e in
      let (p, q) = sent_parts _ _ _ _ sent in
      subst
        (λ t. Inv (record s {
          b = t;
          to_a = record { packet = packet_of s.b bytes xs; count = length s.got } ∷ s.to_a;
        }))
        p
        (subst
          (λ t. Inv (record s {
            b = after_send (stage s.b) (need_reliable s.b) now;
            to_a = record { packet = packet_of s.b t xs; count = length s.got } ∷ s.to_a;
          }))
          q
          (b_sends_at (stage s.b) (need_reliable s.b) xs now (stage-IsChan i.b_chan)
            (stage-Keeps s.b) below))
