-- ===== src/Channel/Sequence.antt =====
-- What Netchan_Process of src/net_chan.c makes of a packet that Netchan_Transmit has built, and of
-- one that comes late or twice.
use quake2world.Prelude.{
  ℕ, ◌+◌, ◌-◌, ◌%◌, ◌^◌, ◌≤◌, ◌<◌, ◌≡◌, ◌∙◌, subst, Bool, true, false, not, List, [], ◌∷◌, ◌++◌,
  ltb, ◌==◌, if◌then◌else◌, arith,
}
use quake2world.MemBuf.{MemBuf, contents}
use quake2world.MemBuf.Valid.{IsValid}
use quake2world.Message.Write.{given, long_bytes}
use quake2world.Message.Read.{begin_reading, read_long, read_byte}
use quake2world.Message.Read.Rules.{Holds, Reads-read_long, Reads-read_byte, Holds-begin_reading}
use quake2world.Channel.{
  NetChan, is_client, flip, header_word, to_bit, read_header, skip_qport, accept, process,
}
use quake2world.Channel.Packet.{head_bytes, unreliable_part, payload, packet_split}
use quake2world.Channel.Invariant.{IsChan}

header_word-lt : (s b : ℕ) → header_word s b < 2 ^ 32
header_word-lt s b = omega arith

-- the one side of a channel is a client, the other a server
abbrev pub ArePeers : NetChan → NetChan → Type 0
ArePeers a b = is_client b.source ≡ not (is_client a.source)

-- The words of a packet's header are the sender's, and its payload is left to read.
pub record IsHeader (a b : NetChan) (r : Bool) (xs : List ℕ) (msg : MemBuf) : Type 0 where
  pub sequence : (read_header b msg).sequence ≡ header_word a.outgoing_sequence (to_bit r)
  pub sequence_ack :
      (read_header b msg).sequence_ack
      ≡ header_word a.incoming_sequence a.incoming_reliable_sequence
  pub body : Holds (read_header b msg).body (payload a r xs)

qport_skipped :
    (from_client to_client : Bool) (q : ℕ) (rest : List ℕ) (msg : MemBuf)
    → to_client ≡ not from_client
    → Holds msg (given from_client (q ∷ []) ++ rest)
    → Holds (if to_client then msg else (read_byte msg).1) rest
unfolding given
qport_skipped true to_client q rest msg p h = rw p ((Reads-read_byte q).leaves msg rest h)
qport_skipped false to_client q rest msg p h = rw p h

-- A packet that one side has built is taken apart by the other.
pub read_header_lem :
    (a b : NetChan) (r : Bool) (xs : List ℕ) (msg : MemBuf)
    → ArePeers a b
    → IsValid msg
    → contents msg ≡ head_bytes a r ++ unreliable_part a r xs
    → IsHeader a b r xs msg
unfolding read_header skip_qport
read_header_lem a b r xs msg p v e =
    let w1 = header_word a.outgoing_sequence (to_bit r) in
    let w2 = header_word a.incoming_sequence a.incoming_reliable_sequence in
    let q = given (is_client a.source) (a.qport % 256 ∷ []) ++ payload a r xs in
    let h0 : Holds (begin_reading msg) (long_bytes w1 ++ (long_bytes w2 ++ q)) =
      subst (λ l. Holds (begin_reading msg) l) (e ∙ packet_split a r xs)
        (Holds-begin_reading msg v) in
    let l1 = Reads-read_long w1 (header_word-lt a.outgoing_sequence (to_bit r)) in
    let l2 = Reads-read_long w2 (header_word-lt a.incoming_sequence a.incoming_reliable_sequence) in
    let h1 = l1.leaves (begin_reading msg) (long_bytes w2 ++ q) h0 in
    record {
      sequence = l1.value (begin_reading msg) (long_bytes w2 ++ q) h0;
      sequence_ack = l2.value (read_long (begin_reading msg)).1 q h1;
      body =
          qport_skipped (is_client a.source) (is_client b.source) _ (payload a r xs) _ p
            (l2.leaves (read_long (begin_reading msg)).1 q h1);
    }

-- the receiver, once it has used a packet of the sender's
abbrev pub received : NetChan → NetChan → Bool → ℕ → NetChan
received a b r now = record b {
  dropped = a.outgoing_sequence % 2 ^ 31 - (b.incoming_sequence + 1);
  reliable_size =
      if a.incoming_reliable_sequence == b.reliable_sequence then 0 else b.reliable_size;
  incoming_sequence = a.outgoing_sequence % 2 ^ 31;
  incoming_acknowledged = a.incoming_sequence;
  incoming_reliable_acknowledged = a.incoming_reliable_sequence;
  incoming_reliable_sequence =
      if r then flip b.incoming_reliable_sequence else b.incoming_reliable_sequence;
  last_received = now;
}

abbrev pub is_newer : NetChan → NetChan → Bool
is_newer a b = ltb b.incoming_sequence (a.outgoing_sequence % 2 ^ 31)

accept_used :
    (a b : NetChan) (r : Bool) (word_ack now : ℕ)
    → (accept b (header_word a.outgoing_sequence (to_bit r)) word_ack now).1 ≡ is_newer a b
unfolding accept
accept_used a b r word_ack now = ground arith

accept_chan :
    (a b : NetChan) (r : Bool) (now : ℕ)
    → IsChan a
    → IsChan b
    → (accept b
        (header_word a.outgoing_sequence (to_bit r))
        (header_word a.incoming_sequence a.incoming_reliable_sequence)
        now).0
      ≡ (if is_newer a b then received a b r now else b)
unfolding accept
accept_chan a b r now v w = ground (arith, v.incoming, v.reliable_in, w.incoming)

module _ (a b : NetChan) (r : Bool) (xs : List ℕ) (msg : MemBuf) (now : ℕ) where
  -- A packet that the other side has built is used if and only if its sequence is above the last
  -- one used. If so, the channel takes the sequence, the acknowledgements and the reliable bit from the
  -- sender, forgets the reliable message in flight if the sender has it, and sets the number of packets
  -- dropped and the time; all else, and the whole channel if the packet is not used, is as it was. The sender's
  -- payload, reliable part first, is what is left to read.
  pub process_packet :
      ArePeers a b
      → IsChan a
      → IsChan b
      → IsValid msg
      → contents msg ≡ head_bytes a r ++ unreliable_part a r xs
      → ((process b msg now).2 ≡ is_newer a b)
        × ((process b msg now).0 ≡ (if is_newer a b then received a b r now else b))
        × Holds (process b msg now).1 (payload a r xs)
  unfolding process
  process_packet p v w ok e =
      let h = read_header_lem a b r xs msg p ok e in
      (
        rw (h.sequence) (accept_used a b r _ now),
        rw (h.sequence, h.sequence_ack) (accept_chan a b r now v w),
        h.body,
      )

-- A packet, of any content, that is seen again after it or a later one was used changes nothing and is not used, however
-- the channel sends in between.
pub no_replay :
    (b : NetChan) (msg again : MemBuf) (now later : ℕ)
    → (process b msg now).2 ≡ true
    → (c : NetChan) → (process b msg now).0.incoming_sequence ≤ c.incoming_sequence
    → (read_header c again).sequence ≡ (read_header b msg).sequence
    → ((process c again later).2 ≡ false) × ((process c again later).0 ≡ c)
unfolding process accept
no_replay b msg again now later u c le same = ground arith
