-- ===== src/Message/Read/Rules.antt =====
-- What a reader takes off the front of the unread bytes, with a rule for each way to build one.
use Prim.Native.Nat.add
use native.Mathlib.Nat.{add-zero}
use quake2world.Prelude.{
  ℕ, zero, suc, ◌+◌, ◌*◌, ◌/◌, ◌%◌, ◌^◌, ◌≤◌, ◌<◌, ◌≡◌, refl, ap, ◌∙◌, subst, Bool, true, false,
  List, [], ◌∷◌, ◌++◌, arith, if◌then◌else◌, get_or, take, drop, append_assoc,
}
use quake2world.MemBuf.{MemBuf, remaining, contents, add_size}
use quake2world.MemBuf.Valid.{IsValid}
use quake2world.Message.Write.{short_bytes, long_bytes}
use quake2world.Message.Read.{
  Reader, ◌>>=◌, pure, read_if, skip_bytes, sign8, sign16, read_char, read_byte, read_short,
  read_long, read_short16, read_byte8, begin_reading,
}

-- `xs` is what a valid buffer has left to read.
pub record Holds (buf : MemBuf) (xs : List ℕ) : Type 0 where
  pub valid : IsValid buf
  pub within : buf.read ≤ buf.size
  pub left : remaining buf ≡ xs

-- the next unread byte of a list
record Next (l : List ℕ) (size r x : ℕ) (rest : List ℕ) : Type 0 where
  inside : r < size
  value : get_or l r 0 ≡ x
  tail : drop (r + 1) (take size l) ≡ rest

following-Next :
    (l : List ℕ) (size r x : ℕ) (rest : List ℕ)
    → drop r (take size l) ≡ x ∷ rest
    → Next l size r x rest
following-Next [] zero zero x rest h = absurd (cc h)
following-Next [] zero (suc r) x rest h = absurd (cc h)
following-Next [] (suc size) zero x rest h = absurd (cc h)
following-Next [] (suc size) (suc r) x rest h = absurd (cc h)
following-Next (y ∷ l) zero zero x rest h = absurd (cc h)
following-Next (y ∷ l) zero (suc r) x rest h = absurd (cc h)
following-Next (y ∷ l) (suc size) zero x rest h = record {
  inside = omega arith;
  value = ground arith;
  tail = ground arith;
}
following-Next (y ∷ l) (suc size) (suc r) x rest h =
    let n = following-Next l size r x rest h in
    record { inside = omega (arith, n.inside); value = n.value; tail = rw add.suc n.tail }

-- One byte on, from a cursor at `r`.
record Step (buf : MemBuf) (r x : ℕ) (rest : List ℕ) : Type 0 where
  inside : r < buf.size
  small : buf.size < 2 ^ 63
  value : get_or buf.bytes r 0 ≡ x
  next : Holds (record buf { read = r + 1 }) rest

step_at :
    (buf : MemBuf) (r x : ℕ) (rest : List ℕ)
    → Holds (record buf { read = r }) (x ∷ rest)
    → Step buf r x rest
step_at buf r x rest h =
    let n = following-Next buf.bytes buf.size r x rest h.left in
    record {
      inside = n.inside;
      small = omega (arith, h.valid);
      value = n.value;
      next = record {
        valid = omega (arith, h.valid);
        within = omega (arith, n.inside);
        left = n.tail;
      };
    }

-- From a buffer that has `xs` and more to read, `m` returns `a` and leaves the rest.
pub record Reads {ℓ} {A : Type ℓ} (m : Reader A) (xs : List ℕ) (a : A) : Type ℓ where
  pub value : (buf : MemBuf) (rest : List ℕ) → Holds buf (xs ++ rest) → (m buf).0 ≡ a
  pub leaves : (buf : MemBuf) (rest : List ℕ) → Holds buf (xs ++ rest) → Holds (m buf).1 rest

pub Reads-pure {ℓ} : {A : Type ℓ} (a : A) → Reads (pure a) [] a
Reads-pure a = record { value = λ buf rest h. refl; leaves = λ buf rest h. h }

pub Reads-bind {ℓ} :
    {A B : Type ℓ} {m : Reader A} (f : A → Reader B) {xs ys : List ℕ} {a : A} {b : B}
    → Reads m xs a
    → Reads (f a) ys b
    → Reads (m >>= f) (xs ++ ys) b
unfolding ◌>>=◌
Reads-bind {m = m} f {xs} {ys} p q = record {
  value = λ buf rest h.
      let h' = rw append_assoc at h in
      rw (p.value buf (ys ++ rest) h', ◌>>=◌)
        (q.value (m buf).1 rest (p.leaves buf (ys ++ rest) h'));
  leaves = λ buf rest h.
      let h' = rw append_assoc at h in
      rw (p.value buf (ys ++ rest) h', ◌>>=◌)
        (q.leaves (m buf).1 rest (p.leaves buf (ys ++ rest) h'));
}

-- A guarded read, where the sender wrote the field if and only if it had changed.
pub Reads-if {ℓ} :
    {A : Type ℓ} (c : Bool) {m : Reader A} {xs : List ℕ} (old : A) {new : A}
    → Reads m xs new
    → Reads (read_if c m old) (if c then xs else []) (if c then new else old)
unfolding read_if
Reads-if true old p = p
Reads-if false old p = Reads-pure old

-- The cursor does not wrap.
skip-Holds :
    (buf : MemBuf) (n r : ℕ) {rest : List ℕ}
    → r ≡ buf.read + n
    → Holds (record buf { read = r }) rest
    → Holds (skip_bytes n buf) rest
skip-Holds buf n r {rest} e h =
    let p : r ≡ add_size buf.read n = omega (arith, e, h.valid, h.within) in
    subst (λ (t : ℕ). Holds (record buf { read = t }) rest) p h

pub Reads-read_byte : (x : ℕ) → Reads read_byte (x ∷ []) x
unfolding read_byte
Reads-read_byte x = record {
  value = λ buf rest h. ground (arith, step_at buf buf.read x rest h, add-zero buf.read);
  leaves = λ buf rest h. skip-Holds buf 1 (buf.read + 1) refl (step_at buf buf.read x rest h).next;
}

pub Reads-read_char : (x : ℕ) → Reads read_char (x ∷ []) (sign8 x)
unfolding read_char
Reads-read_char x = record {
  value = λ buf rest h. ground (arith, step_at buf buf.read x rest h, add-zero buf.read);
  leaves = λ buf rest h. skip-Holds buf 1 (buf.read + 1) refl (step_at buf buf.read x rest h).next;
}

-- Two and four bytes on.
module _ (buf : MemBuf) (rest : List ℕ) where
  two_at :
      (r a b : ℕ)
      → Holds (record buf { read = r }) (a ∷ b ∷ rest)
      → Step buf r a (b ∷ rest) × Step buf (r + 1) b rest
  two_at r a b h = let s = step_at buf r a (b ∷ rest) h in (s, step_at buf (r + 1) b rest s.next)

module _ (buf : MemBuf) (rest : List ℕ) where
  four_at :
      (r a b c d : ℕ)
      → Holds (record buf { read = r }) (a ∷ b ∷ c ∷ d ∷ rest)
      → Step buf r a (b ∷ c ∷ d ∷ rest)
        × Step buf (r + 1) b (c ∷ d ∷ rest)
        × Step buf (r + 1 + 1) c (d ∷ rest)
        × Step buf (r + 1 + 1 + 1) d rest
  four_at r a b c d h =
      let (s, t) = two_at buf (c ∷ d ∷ rest) r a b h in
      let (u, v) = two_at buf rest (r + 1 + 1) c d t.next in (s, t, u, v)

-- the values that the bytes of a short and of a long stand for
abbrev pub short_value : ℕ → ℕ → ℕ
short_value a b = sign16 ((a + b * 2 ^ 8) % 2 ^ 16)

abbrev long_value : ℕ → ℕ → ℕ → ℕ → ℕ
long_value a b c d = (a + b * 2 ^ 8 + c * 2 ^ 16 + d * 2 ^ 24) % 2 ^ 32

pub Reads-read_short : (a b : ℕ) → Reads read_short (a ∷ b ∷ []) (short_value a b)
unfolding read_short
Reads-read_short a b = record {
  value = λ buf rest h. ground (arith, two_at buf rest buf.read a b h, add-zero buf.read);
  leaves = λ buf rest h.
      skip-Holds buf 2 (buf.read + 1 + 1) (omega arith) (two_at buf rest buf.read a b h).1.next;
}

Reads-read_long_bytes : (a b c d : ℕ) → Reads read_long (a ∷ b ∷ c ∷ d ∷ []) (long_value a b c d)
unfolding read_long
Reads-read_long_bytes a b c d = record {
  value = λ buf rest h.
      let (s, t, u, v) = four_at buf rest buf.read a b c d h in
      let e2 : buf.read + 2 ≡ buf.read + 1 + 1 = omega arith in
      let e3 : buf.read + 3 ≡ buf.read + 1 + 1 + 1 = omega arith in
      rw (e2, e3)
        (ground (arith, s.value, t.value, u.value, v.value, v.inside, v.small, add-zero buf.read));
  leaves = λ buf rest h.
      skip-Holds buf 4 (buf.read + 1 + 1 + 1 + 1) (omega arith)
        (four_at buf rest buf.read a b c d h).3.next;
}

-- What was written as a word is read back as that word.
pub Reads-read_long : (c : ℕ) → c < 2 ^ 32 → Reads read_long (long_bytes c) c
Reads-read_long c h =
    let e : long_value (c % 256) (c / 256 % 256) (c / 65536 % 256) (c / 16777216 % 256) ≡ c =
      omega arith in
    subst (λ (v : ℕ). Reads read_long (long_bytes c) v) e (Reads-read_long_bytes _ _ _ _)

pub Reads-map {ℓ} :
    {A B : Type ℓ} {m : Reader A} {xs : List ℕ} {a : A} (f : A → B) (b : B)
    → f a ≡ b
    → Reads m xs a
    → Reads (m >>= λ c. pure (f c)) xs b
unfolding ◌>>=◌
Reads-map f b e p = record {
  value = λ buf rest h. ap f (p.value buf rest h) ∙ e;
  leaves = λ buf rest h. p.leaves buf rest h;
}

pub Reads-read_short16 : (c : ℕ) → c < 2 ^ 16 → Reads read_short16 (short_bytes c) c
unfolding read_short16
Reads-read_short16 c h =
    Reads-map (λ n. n % 2 ^ 16) c (ground arith) (Reads-read_short (c % 256) (c / 256 % 256))

pub Reads-read_byte8 : (c : ℕ) → c < 2 ^ 8 → Reads read_byte8 (c % 256 ∷ []) c
unfolding read_byte8
Reads-read_byte8 c h = Reads-map (λ n. n % 2 ^ 8) c (omega arith) (Reads-read_byte (c % 256))

-- Reading begins at the front of what was written.
pub Holds-begin_reading : (buf : MemBuf) → IsValid buf → Holds (begin_reading buf) (contents buf)
unfolding begin_reading
Holds-begin_reading buf v = record { valid = omega (arith, v); within = omega arith; left = refl }
