-- ===== src/Message/RoundTrip.antt =====
-- A writer and a reader of src/net_message.c against each other.
use quake2world.Prelude.{
  ℕ, ◌+◌, ◌≤◌, ◌≡◌, sym, ap, ◌∙◌, subst, some, List, [], ◌++◌, append-nil, arith, length, drop,
  drop-append,
}
use quake2world.MemBuf.{MemBuf, contents, remaining}
use quake2world.MemBuf.Valid.{IsValid, Appends}
use quake2world.MemBuf.Spec.{length-contents}
use quake2world.Message.Write.{Writer}
use quake2world.Message.Write.Rules.{Writes}
use quake2world.Message.Read.{Reader}
use quake2world.Message.Read.Rules.{Reads, Holds}

-- The receiver's cursor, once it has read all that stood before the write.
abbrev pub from_mark : MemBuf → MemBuf → MemBuf
from_mark buf sent = record sent { read = buf.size }

-- `w` appends to `buf`, and `m` reads `a` back from where the write began, to the last byte.
abbrev pub RoundTrip {ℓ} : {A : Type ℓ} → Writer → Reader A → A → MemBuf → Type ℓ
RoundTrip w m a buf =
    (sent : MemBuf) × (w buf ≡ some sent)
    × ((m (from_mark buf sent)).0 ≡ a)
    × (remaining (m (from_mark buf sent)).1 ≡ [])

pub from_mark-Holds :
    {buf sent : MemBuf} (xs : List ℕ)
    → IsValid buf
    → Appends buf xs sent
    → Holds (from_mark buf sent) (xs ++ [])
from_mark-Holds {buf} {sent} xs v p = record {
  valid = omega (arith, p.valid);
  within = omega (arith, p.grown);
  left =
      ap (λ t. drop buf.size t) p.appended
      ∙ subst (λ (n : ℕ). drop n (contents buf ++ xs) ≡ xs) (length-contents v)
          (drop-append (contents buf) xs)
      ∙ sym (append-nil xs);
}

pub roundtrip {ℓ} :
    {A : Type ℓ} {w : Writer} {m : Reader A} {xs : List ℕ} {a : A}
    → Writes w xs
    → Reads m xs a
    → (buf : MemBuf) → IsValid buf
    → buf.size + length xs ≤ buf.max_size
    → RoundTrip w m a buf
roundtrip {xs = xs} p q buf v h =
    let sent = p.result buf in
    let at = from_mark-Holds xs v (p.appends buf v h) in
    (
      sent,
      p.returns buf v h,
      q.value (from_mark buf sent) [] at,
      (q.leaves (from_mark buf sent) [] at).left,
    )
