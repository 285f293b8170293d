-- ===== src/Channel/Network/SendsA.antt =====
-- Netchan_Transmit of src/net_chan.c at `a` keeps the invariant.
use quake2world.Prelude.{
  ℕ, ◌+◌, ◌<◌, ◌≡◌, refl, sym, ap, ◌∙◌, subst, inl, inr, Bool, true, false, not, ◌&&◌, some, Option,
  List, [], ◌∷◌, ◌++◌, arith, length, Bool-cases, if_true, if_false, ltb, ◌==◌, take, take-write_at,
  write_at, ◌≢◌, length-append,
}
use quake2world.MemBuf.{contents}
use quake2world.MemBuf.Spec.{length-contents}
use quake2world.Channel.{NetChan, stage, need_reliable, transmit, after_send, flip}
use quake2world.Channel.Packet.{reliable_part}
use quake2world.Channel.Invariant.{IsChan, transmit_sends, stage-IsChan}
use quake2world.Channel.Network.{Net, packet_of, is_staged, with_staged, last_sequence}
use quake2world.Channel.Network.Invariant.{Inv}
use quake2world.Channel.Network.Staging.{
  transmit_ok, sent_by_a, Stages, reliable-Inv, unreliable-Inv,
}

abbrev staged_chan : NetChan → NetChan
staged_chan chan = record chan {
  reliable_buffer = write_at chan.reliable_buffer 0 (contents chan.message);
  reliable_size = chan.message.size;
  message = record chan.message { size = 0 };
  reliable_sequence = flip chan.reliable_sequence;
}

pub stage-staged : (chan : NetChan) → is_staged chan ≡ true → stage chan ≡ staged_chan chan
unfolding stage
stage-staged chan e = if_true _ _ e

pub stage-unstaged : (chan : NetChan) → is_staged chan ≡ false → stage chan ≡ chan
unfolding stage
stage-unstaged chan e = if_false _ _ e

pub need_reliable-staged : (chan : NetChan) → is_staged chan ≡ true → need_reliable chan ≡ true
unfolding need_reliable
need_reliable-staged chan e = ground (arith, e)

-- Without a new message, the one in flight goes along if its datagram is known to be lost.
pub need_reliable-unstaged :
    (chan : NetChan)
    → is_staged chan ≡ false
    → need_reliable chan ≡ (
        ltb chan.last_reliable_sequence chan.incoming_acknowledged
        && not (chan.incoming_reliable_acknowledged == chan.reliable_sequence))
unfolding need_reliable
need_reliable-unstaged chan e = ground (arith, e)

staged_part :
    (chan : NetChan) → IsChan chan → reliable_part (staged_chan chan) ≡ contents chan.message
staged_part chan v =
    let l : 0 + length (contents chan.message) ≡ chan.message.size =
      omega (arith, length-contents v.message) in
    subst
      (λ (n : ℕ).
        take n (write_at chan.reliable_buffer 0 (contents chan.message)) ≡ contents chan.message)
      l
      (take-write_at chan.reliable_buffer 0 (contents chan.message)
        (omega (arith, l, v.message, v.message_max, v.reliable_room)))

both_true : (x y : Bool) → (x && not y) ≡ true → (x ≡ true) × (y ≡ false)
both_true x y h = ground arith

pub sent_parts :
    (a b : NetChan) (xs ys : List ℕ)
    → ◌≡◌ {A = Option (NetChan × Option (List ℕ))} (some (a, some xs)) (some (b, some ys))
    → (a ≡ b) × (xs ≡ ys)
sent_parts a b xs ys e = (cc, cc)

module _ {s : Net} (i : Inv s) where
  open i use {counts}

  staged-Stages :
      is_staged s.a ≡ true → Stages s (staged_chan s.a) (s.staged ++ (contents s.a.message ∷ []))
  staged-Stages e =
      let size : s.a.reliable_size ≡ 0 = ground (arith, e) in
      let some_bytes : 0 < s.a.message.size = ground (arith, e) in
      let all = counts.idle size in
      let n = length-append s.staged (contents s.a.message ∷ []) in
      record {
        chan = subst IsChan (stage-staged s.a e) (stage-IsChan i.a_chan);
        source = refl;
        outgoing = refl;
        incoming = refl;
        acknowledged = refl;
        known_bit = refl;
        bit = ground (arith, counts.bit_out, n);
        all_known = omega (arith, all, counts);
        pending = omega (arith, all, n, counts);
        busy = some_bytes;
        order =
            ap (λ l. l ++ (contents s.a.message ∷ [])) (i.order.all (omega (arith, all, counts)))
            ∙ ap (λ m. s.got ++ (m ∷ [])) (sym (staged_part s.a i.a_chan));
        none_live = λ p h r later. omega (arith, (h.live r later).pending, all, counts);
      }

  repeated-Stages :
      ltb s.a.last_reliable_sequence s.a.incoming_acknowledged ≡ true
      → (s.a.incoming_reliable_acknowledged == s.a.reliable_sequence) ≡ false
      → Stages s s.a s.staged
  repeated-Stages acked other =
      let ne : length s.staged ≢ s.known =
        λ e. ground (arith, other, counts.bit_out, counts.bit_known, e) in
      let busy : 0 < s.a.reliable_size = elim (Bool-cases (s.a.reliable_size == 0)) [
        | inl z ↦ absurd (ne (counts.idle (ground arith)))
        | inr z ↦ ground arith
      ] in
      let behind = counts.busy busy in
      let newer : s.a.last_reliable_sequence < s.a.incoming_acknowledged = ground (arith, acked) in
      let level : s.known ≡ length s.got = elim (Bool-cases (ltb s.known (length s.got))) [
        | inl lt ↦ absurd (omega (arith, newer, counts.ack_old (ground arith)))
        | inr ge ↦ ground (arith, counts.known_le)
      ] in
      record {
        chan = i.a_chan;
        source = refl;
        outgoing = refl;
        incoming = refl;
        acknowledged = refl;
        known_bit = refl;
        bit = counts.bit_out;
        all_known = level;
        pending = omega (arith, level, behind);
        busy = busy;
        order = i.order.but_last (omega (arith, level, behind));
        none_live = λ p h r later. omega (arith, newer, (h.live r later).last, later, counts.ack);
      }

  -- The two cases of the staging, and of the reliable part.
  sends_at :
      (xs : List ℕ) (now : ℕ)
      → s.a.outgoing_sequence < last_sequence
      → Inv (sent_by_a s (stage s.a) (need_reliable s.a) (with_staged s.a s.staged) xs now)
  sends_at xs now below =
      let at : (a : NetChan) (r : Bool) (l : List (List ℕ))
          → stage s.a ≡ a
          → need_reliable s.a ≡ r
          → with_staged s.a s.staged ≡ l
          → Inv (sent_by_a s a r l xs now)
          → Inv (sent_by_a s (stage s.a) (need_reliable s.a) (with_staged s.a s.staged) xs now) =
        λ a r l p q u h.
          subst (λ t. Inv (sent_by_a s t (need_reliable s.a) (with_staged s.a s.staged) xs now))
            (sym p)
            (subst (λ t. Inv (sent_by_a s a t (with_staged s.a s.staged) xs now)) (sym q)
              (subst (λ t. Inv (sent_by_a s a r t xs now)) (sym u) h)) in
      elim (Bool-cases (is_staged s.a)) [
        | inl new ↦
            at _ true _ (stage-staged s.a new) (need_reliable-staged s.a new) (if_true _ _ new)
              (reliable-Inv i xs now below _ _ (staged-Stages new))
        | inr old ↦ elim (Bool-cases (need_reliable s.a)) [
          | inl again ↦
              let (acked, other) = both_true _ _ (sym (need_reliable-unstaged s.a old) ∙ again) in
              at s.a true s.staged (stage-unstaged s.a old) again (if_false _ _ old)
                (reliable-Inv i xs now below _ _ (repeated-Stages acked other))
          | inr none_due ↦
              at s.a false s.staged (stage-unstaged s.a old) none_due (if_false _ _ old)
                (unreliable-Inv i xs now below)
        ]
      ]

  pub a_sends-Inv :
      (xs : List ℕ) (now : ℕ) (a : NetChan) (bytes : List ℕ)
      → transmit s.a xs now ≡ some (a, some bytes)
      → s.a.outgoing_sequence < last_sequence
      → Inv (record s {
        a = a;
        to_b = packet_of s.a bytes xs ∷ s.to_b;
        staged = with_staged s.a s.staged;
      })
  a_sends-Inv xs now a bytes e below =
      let sent = sym (transmit_sends xs now i.a_chan (transmit_ok s.a xs now e)) ∙ e in
      let (p, q) = sent_parts _ _ _ _ sent in
      subst
        (λ t. Inv (record s {
          a = t;
          to_b = packet_of s.a bytes xs ∷ s.to_b;
          staged = with_staged s.a s.staged;
        }))
        p
        (subst
          (λ t. Inv (record s {
            a = after_send (stage s.a) (need_reliable s.a) now;
            to_b = packet_of s.a t xs ∷ s.to_b;
            staged = with_staged s.a s.staged;
          }))
          q (sends_at xs now below))
