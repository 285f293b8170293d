-- ===== src/Channel/Network/Taking.antt =====
-- One packet that `b` takes in src/net_chan.c keeps the invariant.
use quake2world.Prelude.{
  ℕ, ◌<◌, ◌≡◌, sym, ap, ◌∙◌, subst, Bool, true, false, not, List, [], ◌∷◌, ◌++◌, arith, length,
  if_true, if_false, take, take-append, length-append, length-take,
}
use quake2world.MemBuf.{MemBuf, contents, remaining}
use quake2world.MemBuf.Valid.{IsValid}
use quake2world.Message.Write.{given}
use quake2world.Channel.{NetChan, is_client, process}
use quake2world.Channel.Packet.{reliable_part, payload, unreliable_part}
use quake2world.Channel.Invariant.{IsChan, accept-IsChan}
use quake2world.Channel.Sequence.{received, is_newer, process_packet}
use quake2world.Channel.Network.{Packet, Net}
use quake2world.Channel.Network.Invariant.{Inv, ToB, IsBuilt, seq, All-map}

pub process-IsChan :
    {chan : NetChan} (msg : MemBuf) (now : ℕ) → IsChan chan → IsChan (process chan msg now).0
unfolding process
process-IsChan msg now v = accept-IsChan _ _ now v

-- What the receiver makes of a packet of the other end's.
pub record Processed (c : NetChan) (p : Packet) (msg : MemBuf) (now : ℕ) : Type 0 where
  pub used : (process c msg now).2 ≡ is_newer p.sender c
  pub newer :
      is_newer p.sender c ≡ true → (process c msg now).0 ≡ received p.sender c p.reliable now
  pub older : is_newer p.sender c ≡ false → (process c msg now).0 ≡ c
  pub body : remaining (process c msg now).1 ≡ payload p.sender p.reliable p.unreliable

pub processed :
    (c : NetChan) (p : Packet) (msg : MemBuf) (now : ℕ) (from_client : Bool)
    → IsChan c
    → is_client c.source ≡ not from_client
    → IsBuilt from_client p
    → IsValid msg
    → contents msg ≡ p.bytes
    → Processed c p msg now
processed c p msg now from_client v k h ok e =
    let (used, chan, body) =
      process_packet p.sender c p.reliable p.unreliable msg now (k ∙ ap not (sym h.source)) h.chan v
        ok (e ∙ h.bytes) in
    record {
      used = used;
      newer = λ n. chan ∙ if_true _ _ n;
      older = λ n. chan ∙ if_false _ _ n;
      body = body.left;
    }

-- The reliable message is the front of the payload.
pub payload_front :
    (p : Packet)
    → p.reliable ≡ true
    → IsChan p.sender
    → take p.sender.reliable_size (payload p.sender p.reliable p.unreliable)
      ≡ reliable_part p.sender
unfolding given
payload_front p r v =
    let n : length (reliable_part p.sender) ≡ p.sender.reliable_size = omega (
      arith,
      length-take p.sender.reliable_size p.sender.reliable_buffer,
      v.reliable_size,
      v.reliable_room,
    ) in
    ap (λ l. take p.sender.reliable_size (l ++ unreliable_part p.sender p.reliable p.unreliable))
      (if_true _ _ r)
    ∙ subst
        (λ (k : ℕ).
          take k (reliable_part p.sender ++ unreliable_part p.sender p.reliable p.unreliable)
          ≡ reliable_part p.sender)
        n (take-append (reliable_part p.sender) _)

module _ {s : Net} (i : Inv s) (p : Packet) (now : ℕ) (h : ToB s p)
    (n : s.b.incoming_sequence < seq p) where
  open i use {counts}

  abbrev got_by_b : Bool → List (List ℕ) → Net
  got_by_b r l = record s { b = received p.sender s.b r now; got = l }

  -- a packet without a reliable message
  pub unreliable-Inv : IsChan (received p.sender s.b false now) → Inv (got_by_b false s.got)
  unreliable-Inv v = record {
    a_chan = i.a_chan;
    b_chan = v;
    a_source = i.a_source;
    b_source = i.b_source;
    counts = record {
      bit_out = counts.bit_out;
      bit_in = counts.bit_in;
      bit_known = counts.bit_known;
      known_le = counts.known_le;
      got_le = counts.got_le;
      staged_le = counts.staged_le;
      idle = counts.idle;
      busy = counts.busy;
      out_a = counts.out_a;
      out_b = counts.out_b;
      in_a = counts.in_a;
      in_b = omega (arith, h.sent, counts.out_a);
      last = counts.last;
      ack = omega (arith, h.sent, n, counts.ack, counts.out_a);
      ack_old = counts.ack_old;
    };
    order = record { all = i.order.all; but_last = i.order.but_last };
    packets =
        All-map s.to_b
          (λ q k. record {
            built = k.built;
            sent = k.sent;
            reliable = k.reliable;
            live = λ e later.
                let l = k.live e (omega (arith, later, n, h.sent, counts.out_a)) in
                record { last = l.last; pending = l.pending; size = l.size; part = l.part };
          })
          i.packets;
    replies =
        All-map s.to_a
          (λ q k. record {
            built = k.built;
            sent = k.sent;
            ack = omega (arith, k.ack, n, h.sent, counts.out_a);
            count = k.count;
            bit = k.bit;
            old = k.old;
            known = k.known;
          })
          i.replies;
    ordered = i.ordered;
  }

  -- a packet with the reliable message in flight
  pub reliable-Inv :
      p.reliable ≡ true
      → IsChan (received p.sender s.b true now)
      → Inv (got_by_b true (s.got ++ (reliable_part p.sender ∷ [])))
  reliable-Inv r v =
      let l = h.live r n in
      let more = length-append s.got (reliable_part p.sender ∷ []) in
      record {
        a_chan = i.a_chan;
        b_chan = v;
        a_source = i.a_source;
        b_source = i.b_source;
        counts = record {
          bit_out = counts.bit_out;
          bit_in = ground (arith, counts.bit_in, more);
          bit_known = counts.bit_known;
          known_le = omega (arith, counts.known_le, more);
          got_le = omega (arith, l.pending, more);
          staged_le = counts.staged_le;
          idle = counts.idle;
          busy = counts.busy;
          out_a = counts.out_a;
          out_b = counts.out_b;
          in_a = counts.in_a;
          in_b = omega (arith, h.sent, counts.out_a);
          last = counts.last;
          ack = omega (arith, h.sent, n, counts.ack, counts.out_a);
          ack_old = λ e. omega (arith, counts.ack, n, l.last);
        };
        order = record {
          all = λ e. i.order.but_last l.pending ∙ ap (λ m. s.got ++ (m ∷ [])) (sym l.part);
          but_last = λ e. absurd (omega (arith, e, more, l.pending));
        };
        packets =
            All-map s.to_b
              (λ q k. record {
                built = k.built;
                sent = k.sent;
                reliable = k.reliable;
                live = λ e later.
                    absurd (omega (arith, k.reliable e, l.last, later, h.sent, counts.out_a));
              })
              i.packets;
        replies =
            All-map s.to_a
              (λ q k. record {
                built = k.built;
                sent = k.sent;
                ack = omega (arith, k.ack, n, h.sent, counts.out_a);
                count = omega (arith, k.count, more);
                bit = k.bit;
                old = λ e. omega (arith, k.ack, n, l.last);
                known = k.known;
              })
              i.replies;
        ordered = i.ordered;
      }
