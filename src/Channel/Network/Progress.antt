-- ===== src/Channel/Network/Progress.antt =====
-- When the datagrams of src/net_chan.c arrive again, the reliable message in flight arrives.
use quake2world.Prelude.{
  ℕ, ◌+◌, ◌^◌, ◌≤◌, ◌<◌, ◌≡◌, ◌⊎◌, refl, sym, ap, ◌∙◌, inl, inr, true, false, ◌&&◌, some, List, [],
  ◌∷◌, arith, length, length-append, Bool-cases, if_true, if_false, take, take-append, append-nil,
  append_assoc, ◌++◌, zero, suc, ◌==◌, if◌then◌else◌,
}
use quake2world.MemBuf.{MemBuf, contents, remaining}
use quake2world.MemBuf.Valid.{IsValid}
use quake2world.Channel.{NetChan, NetAddr, transmit, process, need_reliable}
use quake2world.Channel.Packet.{reliable_part}
use quake2world.Channel.Invariant.{transmit_sends}
use quake2world.Channel.Sequence.{is_newer}
use quake2world.Channel.Network.{
  Packet, Reply, Net, packet_of, is_staged, with_staged, last_sequence, a_sends, b_sends,
  a_receives, b_receives, a_sent, b_sent, a_received, b_received, reply_of, Round, round, Reach,
  start,
}
use quake2world.Channel.Network.Invariant.{Inv, start-Inv, ToB, ToA, seq}
use quake2world.Channel.Network.Staging.{transmit_ok}
use quake2world.Channel.Network.SendsA.{sent_parts, need_reliable-staged, need_reliable-unstaged}
use quake2world.Channel.Network.Sends.{stage-Keeps}
use quake2world.Channel.Network.Taking.{processed}
use quake2world.Channel.Network.Delivery.{Step-Inv, Reach-Inv}

-- Messages are only staged behind the others.
abbrev Begins : Net → Net → Type 0
Begins s t = (more : List (List ℕ)) × (t.staged ≡ s.staged ++ more)

Begins-trans : (s t u : Net) → Begins s t → Begins t u → Begins s u
Begins-trans s t u (x, e) (y, f) = (x ++ y, f ∙ ap (λ l. l ++ y) e ∙ append_assoc s.staged x y)

with_staged-Begins :
    (s : Net) → (more : List (List ℕ)) × (with_staged s.a s.staged ≡ s.staged ++ more)
with_staged-Begins s = elim (Bool-cases (is_staged s.a)) [
  | inl new ↦ (contents s.a.message ∷ [], if_true _ s.staged new)
  | inr old ↦ (
    [],
    if_false (s.staged ++ (contents s.a.message ∷ [])) s.staged old ∙ sym (append-nil s.staged),
  )
]

-- What a round does to the numbers.
record Advances (s u : Net) : Type 0 where
  inv : Inv u
  outgoing : u.a.outgoing_sequence ≡ s.a.outgoing_sequence + 1
  ack : u.a.incoming_acknowledged ≡ s.a.outgoing_sequence
  known : u.known ≡ length u.got
  more : length s.staged ≤ length u.staged
  begins : Begins s u
  grows : length s.got ≤ length u.got
  delivers : need_reliable s.a ≡ true → length u.got ≡ length u.staged
  waits : need_reliable s.a ≡ false → u.a.last_reliable_sequence ≡ s.a.last_reliable_sequence
  keeps : need_reliable s.a ≡ false → length u.staged ≡ length s.staged

-- `a` sends.
record Sent (s t : Net) : Type 0 where
  outgoing : t.a.outgoing_sequence ≡ s.a.outgoing_sequence + 1
  last :
      t.a.last_reliable_sequence
      ≡ (if need_reliable s.a then s.a.outgoing_sequence + 1 else s.a.last_reliable_sequence)
  more : length s.staged ≤ length t.staged
  begins : Begins s t
  keeps : need_reliable s.a ≡ false → length t.staged ≡ length s.staged

a_sent-Sent :
    {s : Net} (i : Inv s) (xs : List ℕ) (now : ℕ) (a : NetChan) (bytes : List ℕ)
    → transmit s.a xs now ≡ some (a, some bytes)
    → s.a.outgoing_sequence < last_sequence
    → Sent s (a_sent s xs a bytes)
a_sent-Sent {s} i xs now a bytes e below =
    let p =
      (sent_parts _ _ _ _
        (sym (transmit_sends xs now i.a_chan (transmit_ok s.a xs now e)) ∙ e)).0 in
    let k = stage-Keeps s.a in
    let n = length-append s.staged (contents s.a.message ∷ []) in
    record {
      outgoing = sym (ap (λ c. c.outgoing_sequence) p) ∙ omega (arith, k.outgoing, below);
      last = sym (ap (λ c. c.last_reliable_sequence) p) ∙ ground (arith, k.last, k.outgoing, below);
      more = ground (arith, n);
      begins = with_staged-Begins s;
      keeps = λ u. elim (Bool-cases (is_staged s.a)) [
        | inl new ↦ cc (need_reliable-staged s.a new)
        | inr old ↦ ap length (if_false _ _ old)
      ];
    }

-- `b` receives the newest packet.
record Arrived (s t : Net) (p : Packet) : Type 0 where
  incoming : t.b.incoming_sequence ≡ seq p
  grows : length s.got ≤ length t.got
  delivers : p.reliable ≡ true → length t.got ≡ length s.got + 1

b_received-Arrived :
    {s : Net} (i : Inv s) (p : Packet) (msg : MemBuf) (now : ℕ)
    → ToB s p
    → s.b.incoming_sequence < seq p
    → IsValid msg
    → contents msg ≡ p.bytes
    → Arrived s (b_received s p msg now) p
b_received-Arrived {s} i p msg now h n v e =
    let d = processed s.b p msg now true i.b_chan i.b_source h.built v e in
    let small : seq p < 2 ^ 31 = omega (arith, h.sent, i.counts.out_a) in
    let new : is_newer p.sender s.b ≡ true = ground (arith, small, n) in
    record {
      incoming = ap (λ c. c.incoming_sequence) (d.newer new) ∙ omega (arith, small);
      grows = ground (
        arith,
        length-append s.got (take p.sender.reliable_size (remaining (process s.b msg now).1) ∷ []),
      );
      delivers = λ r.
          ap length (if_true _ _ (ap (λ u. u && p.reliable) (d.used ∙ new) ∙ r))
          ∙ length-append s.got _;
    }

-- `a` receives the newest reply.
record Answered (s t : Net) (q : Reply) : Type 0 where
  ack : t.a.incoming_acknowledged ≡ q.packet.sender.incoming_sequence
  known : t.known ≡ q.count
  outgoing : t.a.outgoing_sequence ≡ s.a.outgoing_sequence
  last : t.a.last_reliable_sequence ≡ s.a.last_reliable_sequence

a_received-Answered :
    {s : Net} (i : Inv s) (q : Reply) (msg : MemBuf) (now : ℕ)
    → ToA s q
    → s.a.incoming_sequence < seq q.packet
    → IsValid msg
    → contents msg ≡ q.packet.bytes
    → Answered s (a_received s q msg now) q
a_received-Answered {s} i q msg now h n v e =
    let p : Packet = q.packet in
    let d = processed s.a p msg now false i.a_chan i.a_source h.built v e in
    let small : seq p < 2 ^ 31 = omega (arith, h.sent, i.counts.out_b) in
    let new : is_newer p.sender s.a ≡ true = ground (arith, small, n) in
    record {
      ack = ap (λ c. c.incoming_acknowledged) (d.newer new);
      known = if_true _ _ (d.used ∙ new);
      outgoing = ap (λ c. c.outgoing_sequence) (d.newer new);
      last = ap (λ c. c.last_reliable_sequence) (d.newer new);
    }

Round-Advances : {s u : Net} → Inv s → Round s u → Advances s u
Round-Advances {s} i
      (round xs ys bytes_a bytes_b now a b msg_a msg_b ea below_a va ca eb below_b vb cb) =
    let p : Packet = packet_of s.a bytes_a xs in
    let s1 : Net = a_sent s xs a bytes_a in
    let i1 : Inv s1 = Step-Inv (a_sends xs now a bytes_a ea below_a) i in
    let s2 : Net = b_received s1 p msg_a now in
    let i2 : Inv s2 = Step-Inv (b_receives p msg_a now (inl refl) va ca) i1 in
    let s3 : Net = b_sent s2 ys b bytes_b in
    let i3 : Inv s3 = Step-Inv (b_sends ys now b bytes_b eb below_b) i2 in
    let q : Reply = reply_of s2 bytes_b ys in
    let out : seq p ≡ s.a.outgoing_sequence = (stage-Keeps s.a).outgoing in
    let lt : s.b.incoming_sequence < seq p = omega (arith, out, i.counts.in_b) in
    let keep = stage-Keeps s2.b in
    let sent = a_sent-Sent i xs now a bytes_a ea below_a in
    let arrived = b_received-Arrived i1 p msg_a now i1.packets.0 lt va ca in
    let answered =
      a_received-Answered i3 q msg_b now i3.replies.0 (omega (arith, keep.outgoing, i2.counts.in_a))
        vb cb in
    record {
      inv = Step-Inv (a_receives q msg_b now (inl refl) vb cb) i3;
      outgoing = answered.outgoing ∙ sent.outgoing;
      ack = answered.ack ∙ keep.incoming ∙ arrived.incoming ∙ out;
      known = answered.known;
      more = sent.more;
      begins = sent.begins;
      grows = arrived.grows;
      delivers = λ r. arrived.delivers r ∙ ((i1.packets.0).live r lt).pending;
      waits = λ r. answered.last ∙ sent.last ∙ if_false _ _ r;
      keeps = sent.keeps;
    }

-- A test that failed: nothing is in flight, or it is too early to tell that it was lost.
not_needed :
    {s : Net} (i : Inv s)
    → s.known ≡ length s.got
    → s.a.last_reliable_sequence < s.a.incoming_acknowledged
    → need_reliable s.a ≡ false
    → length s.got ≡ length s.staged
not_needed {s} i k lt no_need = elim (Bool-cases (is_staged s.a)) [
  | inl new ↦ cc (need_reliable-staged s.a new)
  | inr old ↦ ground (
    arith,
    need_reliable-unstaged s.a old,
    i.counts.bit_out,
    i.counts.bit_known,
    i.counts.staged_le,
    i.counts.got_le,
  )
]

counted :
    {s t u v : Net} → Inv s → Round s t → Round t u → Round u v → length s.staged ≤ length v.got
counted {s} {t} {u} {v} i first second third =
    let x = Round-Advances i first in
    let y = Round-Advances x.inv second in
    let z = Round-Advances y.inv third in
    let later : u.a.last_reliable_sequence ≤ s.a.outgoing_sequence
        → (length u.got ≡ length u.staged) ⊎ (need_reliable u.a ≡ true) =
      λ old. elim (Bool-cases (need_reliable u.a)) [
        | inl n ↦ inr n
        | inr n ↦ inl (not_needed y.inv y.known (omega (arith, old, y.ack, x.outgoing)) n)
      ] in
    elim (Bool-cases (need_reliable s.a)) [
      | inl n ↦ omega (arith, x.delivers n, x.more, y.grows, z.grows)
      | inr early ↦ elim (Bool-cases (need_reliable t.a)) [
        | inl n ↦ omega (arith, y.delivers n, x.more, y.more, z.grows)
        | inr waits ↦ elim (later (omega (arith, x.waits early, y.waits waits, i.counts.last))) [
          | inl all ↦ omega (arith, all, x.more, y.more, z.grows)
          | inr n ↦ omega (arith, z.delivers n, x.more, y.more, z.more)
        ]
      ]
    ]

take_front : (n : ℕ) (xs ys : List (List ℕ)) → n ≤ length xs → take n (xs ++ ys) ≡ take n xs
take_front zero xs ys h = refl
take_front (suc n) [] ys h = absurd (omega (arith, h))
take_front (suc n) (x ∷ xs) ys h = ap (λ l. x ∷ l) (take_front n xs ys (omega (arith, h)))

-- What `b` has got begins with the messages that were staged before, if it has as many.
front_got :
    (s v : Net)
    → Inv v
    → Begins s v
    → length s.staged ≤ length v.got
    → take (length s.staged) v.got ≡ s.staged
front_got s v i (more, e) h =
    let front : take (length s.staged) v.staged ≡ s.staged =
      ap (take (length s.staged)) e ∙ take-append s.staged more in
    elim (Bool-cases (length v.got == length v.staged)) [
      | inl all ↦ ap (take (length s.staged)) (sym (i.order.all (ground (arith, all)))) ∙ front
      | inr short ↦
          let c = i.counts in
          let one : length v.got + 1 ≡ length v.staged =
            ground (arith, short, c.got_le, c.known_le, c.staged_le) in
          sym (take_front (length s.staged) v.got (reliable_part v.a ∷ []) h)
          ∙ ap (take (length s.staged)) (sym (i.order.but_last one))
          ∙ front
    ]

-- In any state of a session, after three rounds in which nothing is lost, what the server `b` has got begins with
-- the messages that the client `a` had staged before them, each once and in their order, whatever else is sent along.
pub three_rounds_deliver :
    (addr_a addr_b : NetAddr) (qport now : ℕ) {s t u v : Net}
    → Reach (start addr_a addr_b qport now) s
    → Round s t
    → Round t u
    → Round u v
    → take (length s.staged) v.got ≡ s.staged
three_rounds_deliver addr_a addr_b qport now {s} {t} {u} {v} r first second third =
    let i = Reach-Inv r (start-Inv addr_a addr_b qport now) in
    let x = Round-Advances i first in
    let y = Round-Advances x.inv second in
    let z = Round-Advances y.inv third in
    front_got s v z.inv (Begins-trans s u v (Begins-trans s t u x.begins y.begins) z.begins)
      (counted i first second third)
