-- ===== src/Channel/Network/Delivery.antt =====
-- The reliable messages of src/net_chan.c arrive once and in order over a network that loses,
-- repeats and reorders datagrams.
use quake2world.Prelude.{
  ℕ, ◌+◌, ◌^◌, ◌<◌, ◌≡◌, ◌⊎◌, inl, inr, some, List, [], ◌∷◌, ◌++◌, arith, length, Bool-cases, ◌==◌,
}
use quake2world.MemBuf.{MemBuf, write_buffer}
use quake2world.MemBuf.Valid.{write_buffer-IsValid}
use quake2world.Channel.{NetChan, NetAddr}
use quake2world.Channel.Packet.{reliable_part}
use quake2world.Channel.Invariant.{IsChan}
use quake2world.Channel.Network.{
  Net, Step, a_sends, b_sends, a_receives, b_receives, a_writes, b_writes, Reach, here, next, start,
}
use quake2world.Channel.Network.Invariant.{Inv, All-map, start-Inv}
use quake2world.Channel.Network.SendsA.{a_sends-Inv}
use quake2world.Channel.Network.Sends.{b_sends-Inv}
use quake2world.Channel.Network.Receives.{a_receives-Inv, b_receives-Inv}

with_message :
    {chan : NetChan} (xs : List ℕ) (message : MemBuf)
    → IsChan chan
    → length xs < 2 ^ 63
    → write_buffer chan.message xs ≡ some message
    → IsChan (record chan { message = message })
with_message {chan} xs message v h e =
    let (valid, max, allow) = write_buffer-IsValid chan.message xs v.message h e in
    ground (arith, valid, max, allow)

module _ {s : Net} (i : Inv s) (message : MemBuf) where
  a_writes-Inv :
      IsChan (record s.a { message = message })
      → Inv (record s { a = record s.a { message = message } })
  a_writes-Inv v = record {
    a_chan = v;
    b_chan = i.b_chan;
    a_source = i.a_source;
    b_source = i.b_source;
    counts = ground (arith, i.counts);
    order = record { all = i.order.all; but_last = i.order.but_last };
    packets =
        All-map s.to_b
          (λ p h. record {
            built = h.built;
            sent = h.sent;
            reliable = h.reliable;
            live = λ e later.
                let l = h.live e later in
                record { last = l.last; pending = l.pending; size = l.size; part = l.part };
          })
          i.packets;
    replies =
        All-map s.to_a
          (λ q h. record {
            built = h.built;
            sent = h.sent;
            ack = h.ack;
            count = h.count;
            bit = h.bit;
            old = h.old;
            known = h.known;
          })
          i.replies;
    ordered = i.ordered;
  }

  b_writes-Inv :
      IsChan (record s.b { message = message })
      → Inv (record s { b = record s.b { message = message } })
  b_writes-Inv v = record {
    a_chan = i.a_chan;
    b_chan = v;
    a_source = i.a_source;
    b_source = i.b_source;
    counts = ground (arith, i.counts);
    order = record { all = i.order.all; but_last = i.order.but_last };
    packets =
        All-map s.to_b
          (λ p h. record {
            built = h.built;
            sent = h.sent;
            reliable = h.reliable;
            live = λ e later.
                let l = h.live e later in
                record { last = l.last; pending = l.pending; size = l.size; part = l.part };
          })
          i.packets;
    replies =
        All-map s.to_a
          (λ q h. record {
            built = h.built;
            sent = h.sent;
            ack = h.ack;
            count = h.count;
            bit = h.bit;
            old = h.old;
            known = h.known;
          })
          i.replies;
    ordered = i.ordered;
  }

pub Step-Inv : {s t : Net} → Step s t → Inv s → Inv t
Step-Inv (a_sends xs now a bytes e below) i = a_sends-Inv i xs now a bytes e below
Step-Inv (b_sends xs now b bytes e below) i = b_sends-Inv i xs now b bytes e below
Step-Inv (b_receives p msg now m v e) i = b_receives-Inv i msg now v p m e
Step-Inv (a_receives q msg now m v e) i = a_receives-Inv i msg now v q m e
Step-Inv (a_writes xs message h e) i = a_writes-Inv i message (with_message xs message i.a_chan h e)
Step-Inv (b_writes xs message h e) i = b_writes-Inv i message (with_message xs message i.b_chan h e)

pub Reach-Inv : {s t : Net} → Reach s t → Inv s → Inv t
Reach-Inv here i = i
Reach-Inv (next r st) i = Step-Inv st (Reach-Inv r i)

in_flight : {s : Net} → Inv s → length s.got + 1 ≡ length s.staged → 0 < s.a.reliable_size
in_flight {s} i e = elim (Bool-cases (s.a.reliable_size == 0)) [
  | inl z ↦ absurd (omega (arith, e, i.counts.idle (ground arith), i.counts.known_le))
  | inr z ↦ ground arith
]

-- However the network loses, repeats and reorders the datagrams of a session, `b` has got each
-- message that `a` has staged once and in order, except that the last one may not have arrived; then it is
-- the one that `a` still holds in flight.
pub reliable_delivery :
    (addr_a addr_b : NetAddr) (qport now : ℕ) {s : Net}
    → Reach (start addr_a addr_b qport now) s
    → (s.staged ≡ s.got)
      ⊎ ((s.staged ≡ s.got ++ (reliable_part s.a ∷ [])) × (0 < s.a.reliable_size))
reliable_delivery addr_a addr_b qport now {s} r =
    let i = Reach-Inv r (start-Inv addr_a addr_b qport now) in
    let c = i.counts in
    elim (Bool-cases (length s.got == length s.staged)) [
      | inl e ↦ inl (i.order.all (ground arith))
      | inr e ↦
          let one : length s.got + 1 ≡ length s.staged =
            ground (arith, c.got_le, c.known_le, c.staged_le) in
          inr (i.order.but_last one, in_flight i one)
    ]
