-- ===== src/Connections/Oldest.antt =====
-- Which challenge Svc_GetChallenge of src/server/sv_main.c overwrites.
use quake2world.Prelude.{
  ℕ, zero, suc, ◌+◌, ◌-◌, ◌^◌, ◌≤◌, ◌<◌, ◌≡◌, refl, subst, ◌⊎◌, inl, inr, Bool-cases, List, [], ◌∷◌,
  arith, ltb,
}
use quake2world.Channel.{NetAddr}
use quake2world.Connections.{Challenge, same_client, Search, entry, oldest_entry, search_loop}

-- No entry is from before the time.
abbrev pub NoneBefore : ℕ → List Challenge → Type 0
NoneBefore time [] = Unit
NoneBefore time (c ∷ l) = (time ≤ c.time) × NoneBefore time l

abbrev pub AllBefore : ℕ → List Challenge → Type 0
AllBefore time [] = Unit
AllBefore time (c ∷ l) = (c.time < time) × AllBefore time l

-- the entry at an index, as a relation
abbrev pub IsAt : List Challenge → ℕ → Challenge → Type 0
IsAt [] i x = ⊥
IsAt (c ∷ l) zero x = c ≡ x
IsAt (c ∷ l) (suc i) x = IsAt l i x

-- The index is the one from before, with the time it had, or one of an entry that is older than that.
abbrev Oldest : (i oldest oldest_time : ℕ) → List Challenge → Search → Type 0
Oldest i oldest oldest_time l (entry k) = Unit
Oldest i oldest oldest_time l (oldest_entry k) =
    ((k ≡ oldest) × NoneBefore oldest_time l)
    ⊎ ((j : ℕ) × (x : Challenge) × (k ≡ i + j)
        × IsAt l j x
        × (x.time < oldest_time)
        × NoneBefore x.time l)

NoneBefore-mono : (a b : ℕ) (l : List Challenge) → a ≤ b → NoneBefore b l → NoneBefore a l
NoneBefore-mono a b [] h n = tt
NoneBefore-mono a b (c ∷ l) h (m, n) = (omega (arith, h, m), NoneBefore-mono a b l h n)

newer-Oldest :
    (i oldest time : ℕ) (c : Challenge) (l : List Challenge) (s : Search)
    → time ≤ c.time
    → Oldest (i + 1) oldest time l s
    → Oldest i oldest time (c ∷ l) s
newer-Oldest i oldest time c l (entry k) h o = tt
newer-Oldest i oldest time c l (oldest_entry k) h (inl (e, n)) = inl (e, (h, n))
newer-Oldest i oldest time c l (oldest_entry k) h (inr (j, x, e, a, b, n)) =
    inr (suc j, x, omega (arith, e), a, b, (omega (arith, b, h), n))

older-Oldest :
    (i oldest time : ℕ) (c : Challenge) (l : List Challenge) (s : Search)
    → c.time < time
    → Oldest (i + 1) i c.time l s
    → Oldest i oldest time (c ∷ l) s
older-Oldest i oldest time c l (entry k) h o = tt
older-Oldest i oldest time c l (oldest_entry k) h (inl (e, n)) =
    inr (0, c, omega (arith, e), refl, h, (omega arith, n))
older-Oldest i oldest time c l (oldest_entry k) h (inr (j, x, e, a, b, n)) =
    inr (suc j, x, omega (arith, e), a, omega (arith, b, h), (omega (arith, b), n))

search-Oldest :
    (from : NetAddr) (i oldest time : ℕ) (l : List Challenge)
    → Oldest i oldest time l (search_loop from i oldest time l)
unfolding search_loop
search-Oldest from i oldest time [] = inl (refl, tt)
search-Oldest from i oldest time (c ∷ l) = elim (Bool-cases (same_client from c.addr)) [
  | inl same ↦ rw (same) tt
  | inr other ↦ elim (Bool-cases (ltb c.time time)) [
    | inl e ↦
        rw (other, e)
          (older-Oldest i oldest time c l (search_loop from (i + 1) i c.time l) (ground (arith, e))
            (search-Oldest from (i + 1) i c.time l))
    | inr e ↦
        rw (other, e)
          (newer-Oldest i oldest time c l (search_loop from (i + 1) oldest time l)
            (ground (arith, e)) (search-Oldest from (i + 1) oldest time l))
  ]
]

-- Of a client with no entry, the search of Svc_GetChallenge ends with the index of an entry that no other is older than, if
-- the times are below 2 ^ 31 - 1 and there is an entry.
pub oldest_overwritten :
    (from : NetAddr) (k : ℕ) (c : Challenge) (l : List Challenge)
    → AllBefore (2 ^ 31 - 1) (c ∷ l)
    → search_loop from 0 0 (2 ^ 31 - 1) (c ∷ l) ≡ oldest_entry k
    → (x : Challenge) × IsAt (c ∷ l) k x × NoneBefore x.time (c ∷ l)
oldest_overwritten from k c l (b, bs) e =
    elim (subst (Oldest 0 0 (2 ^ 31 - 1) (c ∷ l)) e (search-Oldest from 0 0 (2 ^ 31 - 1) (c ∷ l))) [
      | inl (q, (n, ns)) ↦ absurd (omega (arith, n, b))
      | inr (j, x, q, a, older, n) ↦
          (x, subst (λ (m : ℕ). IsAt (c ∷ l) m x) (omega (arith, q)) a, n)
    ]
