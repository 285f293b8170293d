-- ===== src/Channel/Network/Receives.antt =====
-- Netchan_Process of src/net_chan.c at either end keeps the invariant, whatever datagram of the
-- other end it is given, however late or often.
use quake2world.Prelude.{
  ℕ, ◌+◌, ◌%◌, ◌^◌, ◌≤◌, ◌<◌, ◌≡◌, ◌≢◌, sym, ap, ◌∙◌, subst, inl, inr, Bool, true, false, ◌&&◌,
  List, [], ◌∷◌, ◌++◌, arith, length, Bool-cases, if_true, if_false, ◌==◌, take, if◌then◌else◌,
}
use quake2world.MemBuf.{MemBuf, contents, remaining}
use quake2world.MemBuf.Valid.{IsValid}
use quake2world.Channel.{NetChan, process}
use quake2world.Channel.Packet.{reliable_part}
use quake2world.Channel.Invariant.{IsChan}
use quake2world.Channel.Sequence.{received, is_newer}
use quake2world.Channel.Network.{Packet, Reply, Net, Has, with_got}
use quake2world.Channel.Network.Invariant.{
  Inv, ToB, ToA, seq, back_along, All-map, All-both, All-has, All-ordered,
}
use quake2world.Channel.Network.Taking.{
  process-IsChan, processed, payload_front, unreliable-Inv, reliable-Inv,
}

pub newer_at :
    (c : NetChan) (p : Packet)
    → seq p < 2 ^ 31
    → is_newer p.sender c ≡ true
    → c.incoming_sequence < seq p
newer_at c p h e = ground (arith, e)

parity : (a b : ℕ) → a % 2 ≡ b % 2 → b ≤ a → a ≤ b + 1 → a ≡ b
parity a b e h k = omega arith

parity_ne : (a b : ℕ) → a % 2 ≢ b % 2 → b ≤ a → a ≤ b + 1 → a ≡ b + 1
parity_ne a b e h k = omega arith

module _ {s : Net} (i : Inv s) (msg : MemBuf) (now : ℕ) (valid : IsValid msg) where
  open i use {counts}

  abbrev after_b : NetChan → List (List ℕ) → Net
  after_b b l = record s { b = b; got = l }

  pub b_receives-Inv :
      (p : Packet)
      → Has p s.to_b
      → contents msg ≡ p.bytes
      → Inv (
          after_b
            (process s.b msg now).0
            (with_got p ((process s.b msg now).1, (process s.b msg now).2) s.got))
  b_receives-Inv p m e =
      let h = All-has (ToB s) s.to_b p m i.packets in
      let d = processed s.b p msg now true i.b_chan i.b_source h.built valid e in
      let v = process-IsChan {chan = s.b} msg now i.b_chan in
      elim (Bool-cases (is_newer p.sender s.b)) [
        | inr old ↦
            back_along (λ b l. Inv (after_b b l)) (d.older old)
              (if_false _ _ (ap (λ u. u && p.reliable) (d.used ∙ old))) i
        | inl new ↦
            let n = newer_at s.b p (omega (arith, h.sent, counts.out_a)) new in
            elim (Bool-cases p.reliable) [
              | inr plain ↦
                  let q : (process s.b msg now).0 ≡ received p.sender s.b false now =
                    d.newer new ∙ ap (λ r. received p.sender s.b r now) plain in
                  back_along (λ b l. Inv (after_b b l)) q
                    (if_false _ _ (ap (λ u. u && p.reliable) (d.used ∙ new) ∙ plain))
                    (unreliable-Inv i p now h n (subst IsChan q v))
              | inl yes_r ↦
                  let q : (process s.b msg now).0 ≡ received p.sender s.b true now =
                    d.newer new ∙ ap (λ r. received p.sender s.b r now) yes_r in
                  let u : take p.sender.reliable_size (remaining (process s.b msg now).1)
                      ≡ reliable_part p.sender =
                    ap (take p.sender.reliable_size) d.body ∙ payload_front p yes_r h.built.chan in
                  back_along (λ b l. Inv (after_b b l)) q
                    (if_true _ _ (ap (λ t. t && p.reliable) (d.used ∙ new) ∙ yes_r)
                      ∙ ap (λ t. s.got ++ (t ∷ [])) u)
                    (reliable-Inv i p now h n yes_r (subst IsChan q v))
            ]
      ]

  abbrev after_a : NetChan → ℕ → Net
  after_a a k = record s { a = a; known = k }

  -- a reply that `a` uses
  reply-Inv :
      (q : Reply)
      → Has q s.to_a
      → (r : Bool) → ToA s q
      → s.a.incoming_sequence < seq q.packet
      → IsChan (received q.packet.sender s.a r now)
      → Inv (after_a (received q.packet.sender s.a r now) q.count)
  reply-Inv q m r h n v =
      let le = h.known n in
      let bit : ℕ = q.packet.sender.incoming_reliable_sequence in
      let acked : (bit == s.a.reliable_sequence) ≡ true → length s.staged ≡ q.count = λ e.
        parity _ _ (ground (arith, e, h.bit, counts.bit_out))
          (omega (arith, h.count, counts.got_le)) (omega (arith, le, counts.staged_le)) in
      let open_yet : (bit == s.a.reliable_sequence) ≡ false → length s.staged ≡ q.count + 1 = λ e.
        parity_ne _ _ (ground (arith, e, h.bit, counts.bit_out))
          (omega (arith, h.count, counts.got_le)) (omega (arith, le, counts.staged_le)) in
      let unacked : length s.got + 1 ≡ length s.staged
          → s.a.reliable_size ≡ (received q.packet.sender s.a r now).reliable_size =
        λ u. elim (Bool-cases (bit == s.a.reliable_sequence)) [
          | inl same ↦ absurd (omega (arith, u, acked same, h.count))
          | inr other ↦ sym (if_false 0 s.a.reliable_size other)
        ] in
      let later = All-ordered s.to_a q m i.ordered in
      record {
        a_chan = v;
        b_chan = i.b_chan;
        a_source = i.a_source;
        b_source = i.b_source;
        counts = record {
          bit_out = counts.bit_out;
          bit_in = counts.bit_in;
          bit_known = h.bit;
          known_le = h.count;
          got_le = counts.got_le;
          staged_le = omega (arith, counts.staged_le, le);
          idle = λ e. elim (Bool-cases (bit == s.a.reliable_sequence)) [
            | inl same ↦ acked same
            | inr other ↦ absurd (
                omega (
                  arith,
                  open_yet other,
                  counts.idle (sym (if_false 0 s.a.reliable_size other) ∙ e),
                  le,
                ))
          ];
          busy = λ e. elim (Bool-cases (bit == s.a.reliable_sequence)) [
            | inl same ↦ absurd (omega (arith, e, if_true 0 s.a.reliable_size same))
            | inr other ↦ open_yet other
          ];
          out_a = counts.out_a;
          out_b = counts.out_b;
          in_a = omega (arith, h.sent, counts.out_b);
          in_b = counts.in_b;
          last = counts.last;
          ack = h.ack;
          ack_old = h.old;
        };
        order = record {
          all = i.order.all;
          but_last = λ e.
              i.order.but_last e
              ∙ ap (λ (k : ℕ). s.got ++ (take k s.a.reliable_buffer ∷ [])) (unacked e);
        };
        packets =
            All-map s.to_b
              (λ p k. record {
                built = k.built;
                sent = k.sent;
                reliable = k.reliable;
                live = λ e after.
                    let l = k.live e after in
                    record {
                      last = l.last;
                      pending = l.pending;
                      size = l.size ∙ unacked l.pending;
                      part =
                          l.part ∙ ap (λ (t : ℕ). take t s.a.reliable_buffer) (unacked l.pending);
                    };
              })
              i.packets;
        replies =
            All-both s.to_a
              (λ t k after. record {
                built = k.built;
                sent = k.sent;
                ack = k.ack;
                count = k.count;
                bit = k.bit;
                old = k.old;
                known = λ e. after (omega (arith, e, h.sent, counts.out_b));
              })
              i.replies later;
        ordered = i.ordered;
      }

  pub a_receives-Inv :
      (q : Reply)
      → Has q s.to_a
      → contents msg ≡ q.packet.bytes
      → Inv (after_a (process s.a msg now).0 (if (process s.a msg now).2 then q.count else s.known))
  a_receives-Inv q m e =
      let p : Packet = q.packet in
      let h = All-has (ToA s) s.to_a q m i.replies in
      let d = processed s.a p msg now false i.a_chan i.a_source h.built valid e in
      let v = process-IsChan {chan = s.a} msg now i.a_chan in
      elim (Bool-cases (is_newer p.sender s.a)) [
        | inr old ↦
            back_along (λ a k. Inv (after_a a k)) (d.older old) (if_false _ _ (d.used ∙ old)) i
        | inl new ↦
            let n = newer_at s.a p (omega (arith, h.sent, counts.out_b)) new in
            back_along (λ a k. Inv (after_a a k)) (d.newer new) (if_true _ _ (d.used ∙ new))
              (reply-Inv q m p.reliable h n (subst IsChan (d.newer new) v))
      ]
