-- ===== src/Channel/Packet.antt =====
-- The datagrams that Netchan_Transmit of src/net_chan.c builds.
use quake2world.Prelude.{
  ℕ, ◌+◌, ◌-◌, ◌%◌, ◌^◌, ◌≤◌, ◌<◌, ◌≡◌, refl, ap, ◌∙◌, Bool, true, false, inl, inr, some, List, [],
  ◌∷◌, ◌++◌, append-nil, append_assoc, leb, if◌then◌else◌, arith, length, length-append,
  length-take, length-replicate, take, replicate, Bool-cases,
}
use quake2world.MemBuf.{MemBuf, contents}
use quake2world.MemBuf.Valid.{IsValid, Appends, init_buffer-IsValid}
use quake2world.Message.Delta.{length-given}
use quake2world.Message.Write.{given, long_bytes}
use quake2world.Message.Write.Rules.{
  Writes, seq_returns, Writes-seq, Writes-if, Writes-write_byte, Writes-write_long,
  Writes-write_data,
}
use quake2world.Channel.{
  NetChan, is_client, header_word, to_bit, write_head, write_unreliable, write_packet, new_buffer,
  max_msg_size, max_reliable,
}

abbrev pub reliable_part : NetChan → List ℕ
reliable_part chan = take chan.reliable_size chan.reliable_buffer

module _ (chan : NetChan) (r : Bool) where
  unfoldable pub head_bytes : List ℕ
  head_bytes =
      long_bytes (header_word chan.outgoing_sequence (to_bit r))
      ++ (long_bytes (header_word chan.incoming_sequence chan.incoming_reliable_sequence)
          ++ (given (is_client chan.source) (chan.qport % 256 ∷ [])
              ++ given r (reliable_part chan)))

  head-Writes : Writes (write_head chan r) head_bytes
  unfolding write_head head_bytes
  head-Writes = Writes-seq (Writes-write_long _) (
      Writes-seq (Writes-write_long _)
        (Writes-seq (Writes-if _ (Writes-write_byte _)) (Writes-if _ (Writes-write_data _))))

  pub length-head_bytes : chan.reliable_size ≤ max_reliable → length head_bytes ≤ max_reliable + 9
  unfolding head_bytes
  length-head_bytes h =
      omega (
        arith,
        length-append {0},
        length-given,
        length-take chan.reliable_size chan.reliable_buffer,
      )

  -- the unreliable data goes along if the datagram has room for it
  abbrev pub unreliable_part : List ℕ → List ℕ
  unreliable_part xs = if leb (length xs) (max_msg_size - length head_bytes) then xs else []

-- the payload that a packet carries
abbrev pub payload : NetChan → Bool → List ℕ → List ℕ
payload chan r xs = given r (reliable_part chan) ++ unreliable_part chan r xs

pub packet_split :
    (chan : NetChan) (r : Bool) (xs : List ℕ)
    → head_bytes chan r ++ unreliable_part chan r xs
      ≡ long_bytes (header_word chan.outgoing_sequence (to_bit r))
        ++ (long_bytes (header_word chan.incoming_sequence chan.incoming_reliable_sequence)
            ++ (given (is_client chan.source) (chan.qport % 256 ∷ []) ++ payload chan r xs))
packet_split chan r xs = let u = unreliable_part chan r xs in unfold head_bytes in simp append_assoc

-- A new buffer is empty.
pub record IsEmpty (buf : MemBuf) (size : ℕ) : Type 0 where
  pub valid : IsValid buf
  pub empty : buf.size ≡ 0
  pub room : buf.max_size ≡ size

pub new_buffer-IsEmpty : (size : ℕ) → size < 2 ^ 63 → IsEmpty (new_buffer size) size
unfolding new_buffer
new_buffer-IsEmpty size h = record {
  valid =
      init_buffer-IsValid (replicate size 0) size
        (omega (arith, length-replicate {0} {A = ℕ} size 0)) h;
  empty = refl;
  room = refl;
}

unreliable_dropped :
    (xs : List ℕ) (buf : MemBuf)
    → leb (length xs) (buf.max_size - buf.size) ≡ false
    → write_unreliable xs buf ≡ some buf
unfolding write_unreliable
unreliable_dropped xs buf h = rw h

unreliable-Writes : (xs : List ℕ) → Writes (write_unreliable xs) xs
unfolding write_unreliable
unreliable-Writes xs =
    let w = Writes-write_data xs in
    record {
      result = w.result;
      returns = λ buf v h.
          let e : leb (length xs) (buf.max_size - buf.size) ≡ true = ground arith in
          rw e (w.returns buf v h);
      appends = w.appends;
    }

-- Without room for the unreliable part, the packet is the head.
packet_without :
    (chan : NetChan) (r : Bool) (xs : List ℕ) (buf : MemBuf)
    → IsEmpty buf max_msg_size
    → chan.reliable_size ≤ max_reliable
    → leb (length xs) (max_msg_size - length (head_bytes chan r)) ≡ false
    → (send : MemBuf) × (write_packet chan r xs buf ≡ some send)
      × Appends buf (head_bytes chan r) send
unfolding write_packet
packet_without chan r xs buf e h no_room =
    let w = head-Writes chan r in
    let fits : buf.size + length (head_bytes chan r) ≤ buf.max_size =
      omega (arith, e.empty, e.room, length-head_bytes chan r h) in
    let a = w.appends buf e.valid fits in
    let same : leb (length xs) ((w.result buf).max_size - (w.result buf).size) ≡ false =
      ground (arith, a.same_max, a.grown, e.empty, e.room) in
    (
      w.result buf,
      seq_returns _ _ (w.returns buf e.valid fits) ∙ unreliable_dropped xs (w.result buf) same,
      a,
    )

packet_with :
    (chan : NetChan) (r : Bool) (xs : List ℕ) (buf : MemBuf)
    → IsEmpty buf max_msg_size
    → chan.reliable_size ≤ max_reliable
    → leb (length xs) (max_msg_size - length (head_bytes chan r)) ≡ true
    → (send : MemBuf) × (write_packet chan r xs buf ≡ some send)
      × Appends buf (head_bytes chan r ++ xs) send
unfolding write_packet
packet_with chan r xs buf e h room =
    let w = Writes-seq (head-Writes chan r) (unreliable-Writes xs) in
    let fits : buf.size + length (head_bytes chan r ++ xs) ≤ buf.max_size =
      ground (
        arith,
        e.empty,
        e.room,
        length-head_bytes chan r h,
        length-append (head_bytes chan r) xs,
      ) in
    (w.result buf, w.returns buf e.valid fits, w.appends buf e.valid fits)

-- what the bytes in an empty buffer are, once `xs` has been appended
pub appended_to_empty :
    {buf send : MemBuf} {n : ℕ} (xs : List ℕ)
    → IsEmpty buf n
    → Appends buf xs send
    → contents send ≡ xs
appended_to_empty {buf} xs e a = a.appended ∙ ap (λ (k : ℕ). take k buf.bytes ++ xs) e.empty

pub record IsPacket (chan : NetChan) (r : Bool) (xs : List ℕ) (send : MemBuf) : Type 0 where
  pub built : write_packet chan r xs (new_buffer max_msg_size) ≡ some send
  pub valid : IsValid send
  pub max : send.max_size ≡ max_msg_size
  pub body : contents send ≡ head_bytes chan r ++ unreliable_part chan r xs

-- A packet is always built, and is the header, the reliable part if it is due, and the unreliable
-- part if it fits.
pub write_packet_lem :
    (chan : NetChan) (r : Bool) (xs : List ℕ)
    → chan.reliable_size ≤ max_reliable
    → (send : MemBuf) × IsPacket chan r xs send
write_packet_lem chan r xs h =
    let e = new_buffer-IsEmpty max_msg_size (omega arith) in
    elim (Bool-cases (leb (length xs) (max_msg_size - length (head_bytes chan r)))) [
      | inl room ↦
          let (send, built, a) = packet_with chan r xs (new_buffer max_msg_size) e h room in
          (
            send,
            record {
              built = built;
              valid = a.valid;
              max = a.same_max ∙ e.room;
              body = rw room (appended_to_empty _ e a);
            },
          )
      | inr no_room ↦
          let (send, built, a) = packet_without chan r xs (new_buffer max_msg_size) e h no_room in
          (
            send,
            record {
              built = built;
              valid = a.valid;
              max = a.same_max ∙ e.room;
              body = rw (no_room, append-nil) (appended_to_empty _ e a);
            },
          )
    ]
