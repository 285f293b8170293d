-- ===== src/Channel/Network/Invariant.antt =====
-- What holds of the two ends of src/net_chan.c and of the datagrams between them, at any time.
use quake2world.Prelude.{
  ℕ, ◌+◌, ◌%◌, ◌^◌, ◌≤◌, ◌<◌, ◌≡◌, refl, sym, subst, inl, inr, Bool, true, false, List, [], ◌∷◌,
  ◌++◌, arith, length,
}
use quake2world.Channel.{NetAddr, is_client, setup}
use quake2world.Channel.Packet.{head_bytes, unreliable_part, reliable_part}
use quake2world.Channel.Invariant.{IsChan, setup-IsChan}
use quake2world.Channel.Network.{Packet, Reply, Net, Has, All, start}

-- Back along two equations.
pub back_along :
    {A B : Type 0} (P : A → B → Type 0) {a a' : A} {b b' : B} → a ≡ a' → b ≡ b' → P a' b' → P a b
back_along P {a} {a'} {b} {b'} p q h = subst (λ x. P x b) (sym p) (subst (P a') (sym q) h)

pub All-map :
    {A : Type 0} {P Q : A → Type 0} (l : List A) → ((x : A) → P x → Q x) → All P l → All Q l
All-map [] f h = tt
All-map (x ∷ l) f (p, h) = (f x p, All-map l f h)

pub All-both :
    {A : Type 0} {P Q R : A → Type 0} (l : List A)
    → ((x : A) → P x → Q x → R x)
    → All P l
    → All Q l
    → All R l
All-both [] f h k = tt
All-both (x ∷ l) f (p, h) (q, k) = (f x p q, All-both l f h k)

pub All-has : {A : Type 0} (P : A → Type 0) (l : List A) (x : A) → Has x l → All P l → P x
All-has P [] x m h = absurd m
All-has P (y ∷ l) x (inl e) (p, h) = subst P e p
All-has P (y ∷ l) x (inr m) (p, h) = All-has P l x m h

abbrev pub seq : Packet → ℕ
seq p = p.sender.outgoing_sequence

-- The bytes are those that Netchan_Transmit wrote.
pub record IsBuilt (from_client : Bool) (p : Packet) : Type 0 where
  pub chan : IsChan p.sender
  pub source : is_client p.sender.source ≡ from_client
  pub bytes :
      p.bytes ≡ head_bytes p.sender p.reliable ++ unreliable_part p.sender p.reliable p.unreliable

-- the reliable message in flight
pub record IsLive (s : Net) (p : Packet) : Type 0 where
  pub last : seq p + 1 ≡ s.a.last_reliable_sequence
  pub pending : length s.got + 1 ≡ length s.staged
  pub size : p.sender.reliable_size ≡ s.a.reliable_size
  pub part : reliable_part p.sender ≡ reliable_part s.a

pub record ToB (s : Net) (p : Packet) : Type 0 where
  pub built : IsBuilt true p
  pub sent : seq p < s.a.outgoing_sequence
  pub reliable : p.reliable ≡ true → seq p < s.a.last_reliable_sequence
  pub live : p.reliable ≡ true → s.b.incoming_sequence < seq p → IsLive s p

pub record ToA (s : Net) (q : Reply) : Type 0 where
  pub built : IsBuilt false q.packet
  pub sent : seq q.packet < s.b.outgoing_sequence
  pub ack : q.packet.sender.incoming_sequence ≤ s.b.incoming_sequence
  pub count : q.count ≤ length s.got
  pub bit : q.packet.sender.incoming_reliable_sequence ≡ q.count % 2
  pub old : q.count < length s.got → q.packet.sender.incoming_sequence < s.a.last_reliable_sequence
  pub known : s.a.incoming_sequence < seq q.packet → s.known ≤ q.count

-- A later reply knows of no fewer messages.
abbrev pub IsBefore : Reply → Reply → Type 0
IsBefore q r = (seq r.packet < seq q.packet) × (r.count ≤ q.count)

abbrev pub AreOrdered : List Reply → Type 0
AreOrdered [] = Unit
AreOrdered (q ∷ l) = All (IsBefore q) l × AreOrdered l

pub All-ordered :
    (l : List Reply) (q : Reply)
    → Has q l
    → AreOrdered l
    → All (λ r. seq q.packet < seq r.packet → q.count ≤ r.count) l
All-ordered [] q m h = absurd m
All-ordered (r ∷ l) q (inl e) (h, k) =
    subst (λ t. All (λ u. seq t.packet < seq u.packet → t.count ≤ u.count) (r ∷ l)) e
      (λ lt. absurd (omega arith), All-map l (λ u b lt. absurd (omega (arith, b))) h)
All-ordered (r ∷ l) q (inr m) (h, k) = (λ lt. (All-has (IsBefore r) l q m h).1, All-ordered l q m k)

-- the numbers of messages staged, got and known to be got, against the bits of the channels
pub record Counts (s : Net) : Type 0 where
  pub bit_out : s.a.reliable_sequence ≡ length s.staged % 2
  pub bit_in : s.b.incoming_reliable_sequence ≡ length s.got % 2
  pub bit_known : s.a.incoming_reliable_acknowledged ≡ s.known % 2
  pub known_le : s.known ≤ length s.got
  pub got_le : length s.got ≤ length s.staged
  pub staged_le : length s.staged ≤ s.known + 1
  pub idle : s.a.reliable_size ≡ 0 → length s.staged ≡ s.known
  pub busy : 0 < s.a.reliable_size → length s.staged ≡ s.known + 1
  pub out_a : s.a.outgoing_sequence < 2 ^ 31
  pub out_b : s.b.outgoing_sequence < 2 ^ 31
  pub in_a : s.a.incoming_sequence < s.b.outgoing_sequence
  pub in_b : s.b.incoming_sequence < s.a.outgoing_sequence
  pub last : s.a.last_reliable_sequence ≤ s.a.outgoing_sequence
  pub ack : s.a.incoming_acknowledged ≤ s.b.incoming_sequence
  pub ack_old : s.known < length s.got → s.a.incoming_acknowledged < s.a.last_reliable_sequence

-- What `b` has got is what `a` has staged, but for the last message.
pub record InOrder (s : Net) : Type 0 where
  pub all : length s.got ≡ length s.staged → s.staged ≡ s.got
  pub but_last : length s.got + 1 ≡ length s.staged → s.staged ≡ s.got ++ (reliable_part s.a ∷ [])

pub record Inv (s : Net) : Type 0 where
  pub a_chan : IsChan s.a
  pub b_chan : IsChan s.b
  pub a_source : is_client s.a.source ≡ true
  pub b_source : is_client s.b.source ≡ false
  pub counts : Counts s
  pub order : InOrder s
  pub packets : All (ToB s) s.to_b
  pub replies : All (ToA s) s.to_a
  pub ordered : AreOrdered s.to_a

pub start-Inv : (addr_a addr_b : NetAddr) (qport now : ℕ) → Inv (start addr_a addr_b qport now)
unfolding setup
start-Inv addr_a addr_b qport now = record {
  a_chan = setup-IsChan _ addr_a qport now;
  b_chan = setup-IsChan _ addr_b qport now;
  a_source = refl;
  b_source = refl;
  counts = ground arith;
  order = record { all = λ h. refl; but_last = λ h. absurd (omega (arith, h)) };
  packets = tt;
  replies = tt;
  ordered = tt;
}
