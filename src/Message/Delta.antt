-- ===== src/Message/Delta.antt =====
-- What the delta-compressed fields of src/net_message.c share: a field is written if its bit is
-- set, and read under the same bit, over the value that the receiver has.
use quake2world.Prelude.{
  ℕ, ◌%◌, ◌^◌, ◌<◌, ◌≡◌, Bool, true, false, not, List, [], ◌∷◌, ◌==◌, arith, if◌then◌else◌, subst,
  refl, sym, ◌∙◌, length, ◌≤◌,
}
use quake2world.Message.Write.{short_bytes, given}
use quake2world.Message.Read.{Reader, read_if, read_short16, read_byte, read_byte8}
use quake2world.Message.Read.Rules.{
  Reads, Reads-if, Reads-read_short16, Reads-read_byte8, Reads-read_byte,
}

abbrev pub differ : ℕ → ℕ → Bool
differ a b = not (a == b)

if_same {ℓ} :
    {A : Type ℓ} (bit : Bool) (old new : A)
    → (bit ≡ false → old ≡ new)
    → (if bit then new else old) ≡ new
if_same true old new same = refl
if_same false old new same = same refl

-- If a bit that is clear means that the receiver's value is the sender's, the receiver has the
-- sender's value in both cases.
pub Reads-field {ℓ} :
    {A : Type ℓ} {bit c : Bool} {m : Reader A} {xs : List ℕ} {old new : A}
    → bit ≡ c
    → (c ≡ false → old ≡ new)
    → Reads m xs new
    → Reads (read_if bit m old) (given bit xs) new
unfolding given
Reads-field {bit = bit} {m = m} {xs} {old} {new} e same p =
    subst (λ v. Reads (read_if bit m old) (given bit xs) v)
      (if_same bit old new (λ b. same (sym e ∙ b))) (Reads-if bit old p)

-- Two values that do not differ are one.
pub differ-false : (a b : ℕ) → differ a b ≡ false → b ≡ a
differ-false a b h = ground arith

module _ {bit : Bool} (old new : ℕ) (e : bit ≡ differ new old) where
  pub Reads-short_field :
      new < 2 ^ 16 → Reads (read_if bit read_short16 old) (given bit (short_bytes new)) new
  Reads-short_field h = Reads-field e (differ-false new old) (Reads-read_short16 new h)

  pub Reads-byte_field :
      new < 2 ^ 8 → Reads (read_if bit read_byte8 old) (given bit (new % 256 ∷ [])) new
  Reads-byte_field h = Reads-field e (differ-false new old) (Reads-read_byte8 new h)

-- A set of at most 8 or 16 bits goes through its byte or short.
pub Reads-bits8 : (c : ℕ) → c < 2 ^ 8 → Reads read_byte (c % 256 ∷ []) c
Reads-bits8 c h =
    subst (λ v. Reads read_byte (c % 256 ∷ []) v) (omega arith) (Reads-read_byte (c % 256))

pub length-given : (c : Bool) (xs : List ℕ) → length (given c xs) ≤ length xs
unfolding given
length-given c xs = ground arith
