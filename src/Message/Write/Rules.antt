-- ===== src/Message/Write/Rules.antt =====
-- What a writer appends, with a rule for each way to build a writer.
use quake2world.Prelude.{
  ℕ, ◌+◌, ◌%◌, ◌≤◌, ◌≡◌, refl, ap, ◌∙◌, Bool, true, false, some, List, [], ◌∷◌, ◌++◌, append-nil,
  arith, length, length-append, append_assoc,
}
use quake2world.MemBuf.{MemBuf, write_buffer, contents}
use quake2world.MemBuf.Valid.{IsValid, Appends, written, write_buffer_lem, written-Appends}
use quake2world.Message.Write.{
  Writer, ◌>>◌, skip, write_if, short_bytes, long_bytes, write_data, write_char, write_byte,
  write_short, write_long, write_string, given,
}

-- With room for `xs` the writer `w` returns, and has appended exactly `xs`.
pub record Writes (w : Writer) (xs : List ℕ) : Type 0 where
  pub result : (buf : MemBuf) → MemBuf
  pub returns :
      (buf : MemBuf) → IsValid buf → buf.size + length xs ≤ buf.max_size → w buf ≡ some (result buf)
  pub appends :
      (buf : MemBuf)
      → IsValid buf
      → buf.size + length xs ≤ buf.max_size
      → Appends buf xs (result buf)

Appends-trans :
    {a b c : MemBuf} (xs ys : List ℕ) → Appends a xs b → Appends b ys c → Appends a (xs ++ ys) c
Appends-trans {a} xs ys p q = record {
  valid = q.valid;
  same_max = ground arith;
  same_read = ground arith;
  same_allow = ground arith;
  same_overflowed = ground arith;
  grown = omega (arith, length-append xs ys, p.grown, q.grown);
  appended = q.appended ∙ ap (λ t. t ++ ys) p.appended ∙ append_assoc (contents a) xs ys;
}

pub seq_returns : (w v : Writer) {buf buf' : MemBuf} → w buf ≡ some buf' → (w >> v) buf ≡ v buf'
unfolding ◌>>◌
seq_returns w v e = rw (e, ◌>>◌)

pub Writes-seq :
    {w v : Writer} {xs ys : List ℕ} → Writes w xs → Writes v ys → Writes (w >> v) (xs ++ ys)
unfolding ◌>>◌
Writes-seq {w} {v} {xs} {ys} p q = record {
  result = λ buf. q.result (p.result buf);
  returns = λ buf ok h.
      let room : buf.size + length xs ≤ buf.max_size = omega (arith, length-append xs ys, h) in
      let a = p.appends buf ok room in
      rw (p.returns buf ok room, ◌>>◌)
        (q.returns (p.result buf) a.valid
          (omega (arith, a.grown, a.same_max, length-append xs ys, h)));
  appends = λ buf ok h.
      let room : buf.size + length xs ≤ buf.max_size = omega (arith, length-append xs ys, h) in
      let a = p.appends buf ok room in
      Appends-trans xs ys a (
        q.appends (p.result buf) a.valid
          (omega (arith, a.grown, a.same_max, length-append xs ys, h)));
}

pub Writes-skip : Writes skip []
Writes-skip = record {
  result = λ buf. buf;
  returns = λ buf ok h. refl;
  appends = λ buf ok h. ground (arith, append-nil (contents buf));
}

pub Writes-if :
    (c : Bool) {w : Writer} {xs : List ℕ} → Writes w xs → Writes (write_if c w) (given c xs)
unfolding write_if given
Writes-if true p = p
Writes-if false p = Writes-skip

-- every primitive is one write to the buffer
Writes-write_buffer : (xs : List ℕ) → Writes (λ buf. write_buffer buf xs) xs
Writes-write_buffer xs = record {
  result = λ buf. written buf xs;
  returns = λ buf ok h. write_buffer_lem buf xs ok h;
  appends = λ buf ok h. written-Appends buf xs ok h;
}

pub Writes-write_data : (xs : List ℕ) → Writes (write_data xs) xs
unfolding write_data
Writes-write_data xs = Writes-write_buffer xs

pub Writes-write_char : (c : ℕ) → Writes (write_char c) (c % 256 ∷ [])
unfolding write_char
Writes-write_char c = Writes-write_buffer (c % 256 ∷ [])

pub Writes-write_byte : (c : ℕ) → Writes (write_byte c) (c % 256 ∷ [])
unfolding write_byte
Writes-write_byte c = Writes-write_buffer (c % 256 ∷ [])

pub Writes-write_short : (c : ℕ) → Writes (write_short c) (short_bytes c)
unfolding write_short
Writes-write_short c = Writes-write_buffer (short_bytes c)

pub Writes-write_long : (c : ℕ) → Writes (write_long c) (long_bytes c)
unfolding write_long
Writes-write_long c = Writes-write_buffer (long_bytes c)

pub Writes-write_string : (s : List ℕ) → Writes (write_string (some s)) (s ++ (0 ∷ []))
unfolding write_string
Writes-write_string s = Writes-write_buffer (s ++ (0 ∷ []))
