-- ===== src/Message/Write/Strict.antt =====
-- When a writer aborts: a buffer that may not overflow has no room for what it would append.
use quake2world.Prelude.{
  ℕ, ◌+◌, ◌^◌, ◌≤◌, ◌<◌, ◌≡◌, ◌∙◌, Bool, true, false, inl, inr, none, List, [], ◌++◌, arith, leb,
  length, length-append, Bool-cases,
}
use quake2world.MemBuf.{MemBuf, write_buffer, alloc_buffer}
use quake2world.MemBuf.Valid.{IsValid}
use quake2world.Message.Write.{Writer, ◌>>◌, skip, write_if, write_data, given}
use quake2world.Message.Write.Rules.{Writes, seq_returns}

pub record Aborts (w : Writer) (xs : List ℕ) : Type 0 where
  pub aborts :
      (buf : MemBuf)
      → IsValid buf
      → buf.allow_overflow ≡ false
      → buf.max_size < buf.size + length xs
      → w buf ≡ none

seq_none : (w v : Writer) {buf : MemBuf} → w buf ≡ none → (w >> v) buf ≡ none
unfolding ◌>>◌
seq_none w v e = rw (e, ◌>>◌)

pub Aborts-seq :
    {w v : Writer} {xs ys : List ℕ}
    → Writes w xs
    → Aborts w xs
    → Aborts v ys
    → Aborts (w >> v) (xs ++ ys)
Aborts-seq {w} {v} {xs} {ys} p a b = record {
  aborts = λ buf ok allow h. elim (Bool-cases (leb (buf.size + length xs) buf.max_size)) [
    | inl e ↦
        let room : buf.size + length xs ≤ buf.max_size = ground arith in
        let q = p.appends buf ok room in
        seq_returns w v (p.returns buf ok room)
        ∙ b.aborts (p.result buf) q.valid (q.same_allow ∙ allow)
            (omega (arith, q.grown, q.same_max, length-append xs ys, h))
    | inr e ↦ seq_none w v (a.aborts buf ok allow (ground arith))
  ];
}

pub Aborts-skip : Aborts skip []
Aborts-skip = record { aborts = λ buf ok allow h. absurd (omega (arith, ok.in_use, h)) }

pub Aborts-if :
    (c : Bool) {w : Writer} {xs : List ℕ} → Aborts w xs → Aborts (write_if c w) (given c xs)
unfolding write_if given
Aborts-if true a = a
Aborts-if false a = Aborts-skip

pub Aborts-write_data : (xs : List ℕ) → length xs < 2 ^ 62 → Aborts (write_data xs) xs
unfolding write_data write_buffer alloc_buffer
Aborts-write_data xs l = record { aborts = λ buf ok allow h. ground arith }
