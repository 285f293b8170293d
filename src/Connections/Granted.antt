-- ===== src/Connections/Granted.antt =====
-- What Svc_GetChallenge of src/server/sv_main.c grants, Svc_Connect takes.
use quake2world.Prelude.{
  ℕ, zero, suc, ◌+◌, ◌-◌, ◌%◌, ◌^◌, ◌≤◌, ◌<◌, ◌≡◌, refl, sym, ◌∙◌, subst, ◌⊎◌, inl, inr, Bool-cases,
  true, false, List, [], ◌∷◌, arith, length, get_or, set, ltb, ◌==◌,
}
use quake2world.Channel.{NetAddr}
use quake2world.Connections.{
  Challenge, same_client, nobody, Search, entry, oldest_entry, search_loop, grant, get_challenge,
  Check, good, bad_challenge, no_challenge, after_other, check_challenge, Slot, choose_slot,
  slot_request, after_check, request,
}

abbrev pub IsGood : Check → Type 0
IsGood (good l) = Unit
IsGood bad_challenge = ⊥
IsGood no_challenge = ⊥

other-IsGood : (c : Challenge) (k : Check) → IsGood k → IsGood (after_other c k)
unfolding after_other
other-IsGood c (good l) h = tt
other-IsGood c bad_challenge h = h
other-IsGood c no_challenge h = h

-- The challenge of the entry at `i` is taken from the client.
abbrev TakenAt : NetAddr → List Challenge → ℕ → Type 0
TakenAt from l i = IsGood (check_challenge from (get_or l i (nobody from)).challenge l)

abbrev HasNone : NetAddr → List Challenge → Type 0
HasNone from [] = Unit
HasNone from (c ∷ l) = (same_client from c.addr ≡ false) × HasNone from l

-- What the search from the index `i` on has found.
abbrev Found : NetAddr → ℕ → ℕ → List Challenge → Search → Type 0
Found from i oldest l (entry k) = (j : ℕ) × (k ≡ i + j) × TakenAt from l j
Found from i oldest l (oldest_entry k) =
    HasNone from l × ((k ≡ oldest) ⊎ ((i ≤ k) × (k < i + length l)))

later-Found :
    (from : NetAddr) (i oldest oldest' : ℕ) (c : Challenge) (l : List Challenge) (s : Search)
    → same_client from c.addr ≡ false
    → (oldest' ≡ oldest) ⊎ (oldest' ≡ i)
    → Found from (i + 1) oldest' l s
    → Found from i oldest (c ∷ l) s
unfolding check_challenge
later-Found from i oldest oldest' c l (entry k) other o (j, e, t) = (
  suc j,
  omega (arith, e),
  rw (other) (other-IsGood c (check_challenge from (get_or l j (nobody from)).challenge l) t),
)
later-Found from i oldest oldest' c l (oldest_entry k) other o (none_, p) = (
  (other, none_),
  elim p [
    | inl e ↦ elim o [
      | inl q ↦ inl (e ∙ q)
      | inr q ↦ inr (omega (arith, e, q), omega (arith, e, q))
    ]
    | inr (a, b) ↦ inr (omega (arith, a), omega (arith, b))
  ],
)

first-IsGood :
    (from : NetAddr) (c : Challenge) (l : List Challenge)
    → same_client from c.addr ≡ true
    → IsGood (check_challenge from c.challenge (c ∷ l))
unfolding check_challenge
first-IsGood from c l same =
    let equal : (c.challenge == c.challenge) ≡ true = ground arith in rw (same, equal) tt

search-Found :
    (from : NetAddr) (i oldest oldest_time : ℕ) (l : List Challenge)
    → Found from i oldest l (search_loop from i oldest oldest_time l)
unfolding search_loop check_challenge
search-Found from i oldest oldest_time [] = (tt, inl refl)
search-Found from i oldest oldest_time (c ∷ l) = elim (Bool-cases (same_client from c.addr)) [
  | inl same ↦ rw (same) (0, omega arith, first-IsGood from c l same)
  | inr other ↦ elim (Bool-cases (ltb c.time oldest_time)) [
    | inl e ↦
        rw (other, e)
          (later-Found from i oldest i c l (search_loop from (i + 1) i c.time l) other (inr refl)
            (search-Found from (i + 1) i c.time l))
    | inr e ↦
        rw (other, e)
          (later-Found from i oldest oldest c l (search_loop from (i + 1) oldest oldest_time l)
            other (inl refl) (search-Found from (i + 1) oldest oldest_time l))
  ]
]

abbrev made : NetAddr → (number now : ℕ) → Challenge
made from number now = record { addr = from; challenge = number; time = now }

set-IsGood :
    (from : NetAddr) (number now : ℕ) (l : List Challenge) (i : ℕ)
    → HasNone from l
    → i < length l
    → IsGood (check_challenge from number (set l i (made from number now)))
unfolding check_challenge
set-IsGood from number now [] i n h = absurd (omega (arith, h))
set-IsGood from number now (c ∷ l) zero n h =
    first-IsGood from (made from number now) l (ground arith)
set-IsGood from number now (c ∷ l) (suc i) (other, n) h = rw (other) (
    other-IsGood c (check_challenge from number (set l i (made from number now)))
      (set-IsGood from number now l i n (omega (arith, h))))

grant-IsGood :
    (from : NetAddr) (random now : ℕ) (l : List Challenge) (s : Search)
    → 0 < length l
    → Found from 0 0 l s
    → IsGood (check_challenge from (grant from random now l s).1 (grant from random now l s).0)
unfolding grant
grant-IsGood from random now l (entry k) h (j, e, t) =
    subst (λ (n : ℕ). TakenAt from l n) (sym (e ∙ omega arith)) t
grant-IsGood from random now l (oldest_entry k) h (n, p) =
    set-IsGood from (random % 2 ^ 15) now l k n
      (elim p [ inl e ↦ omega (arith, e, h) | inr (a, b) ↦ omega (arith, b) ])

granted-IsGood :
    (from : NetAddr) (random now : ℕ) (l : List Challenge)
    → 0 < length l
    → IsGood (
        check_challenge from
          (get_challenge from random now l).1
          (get_challenge from random now l).0)
unfolding get_challenge
granted-IsGood from random now l h =
    grant-IsGood from random now l (search_loop from 0 0 (2 ^ 31 - 1) l) h
      (search-Found from 0 0 (2 ^ 31 - 1) l)

good-after_check :
    (from : NetAddr) (qport : ℕ) (slots : List Slot) (l : List Challenge) (k : Check)
    → IsGood k
    → (after_check from qport slots l k).0 ≡ slot_request (choose_slot from qport slots)
unfolding after_check
good-after_check from qport slots l (good l') h = refl
good-after_check from qport slots l bad_challenge h = absurd h
good-after_check from qport slots l no_challenge h = absurd h

-- A client that answers with the challenge that Svc_GetChallenge sent it, whether it had one before or not, with no
-- other request in between, is not refused for its challenge by Svc_Connect: what comes back depends on the slots alone.
pub granted_request :
    (from : NetAddr) (qport random now : ℕ) (slots : List Slot) (l : List Challenge)
    → 0 < length l
    → (request from qport
        (get_challenge from random now l).1
        slots
        (get_challenge from random now l).0).0
      ≡ slot_request (choose_slot from qport slots)
unfolding request
granted_request from qport random now slots l h =
    let k = get_challenge from random now l in
    good-after_check from qport slots k.0 (check_challenge from k.1 k.0)
      (granted-IsGood from random now l h)

-- What is left when a challenge was used takes the challenge 0 from the same client.
abbrev Reused : NetAddr → Check → Type 0
Reused from (good l) = IsGood (check_challenge from 0 l)
Reused from bad_challenge = Unit
Reused from no_challenge = Unit

other-Reused :
    (from : NetAddr) (c : Challenge) (k : Check)
    → same_client from c.addr ≡ false
    → Reused from k
    → Reused from (after_other c k)
unfolding after_other check_challenge
other-Reused from c (good l) other r = rw (other) (other-IsGood c (check_challenge from 0 l) r)
other-Reused from c bad_challenge other r = tt
other-Reused from c no_challenge other r = tt

check-Reused :
    (from : NetAddr) (number : ℕ) (l : List Challenge) → Reused from (check_challenge from number l)
unfolding check_challenge
check-Reused from number [] = tt
check-Reused from number (c ∷ l) = elim (Bool-cases (same_client from c.addr)) [
  | inl same ↦ elim (Bool-cases (number == c.challenge)) [
    | inl e ↦ rw (same, e) (first-IsGood from (made c.addr 0 c.time) l same)
    | inr e ↦ rw (same, e) tt
  ]
  | inr other ↦
      rw (other)
        (other-Reused from c (check_challenge from number l) other (check-Reused from number l))
]

-- After Svc_Connect took a challenge from a client, it takes the challenge 0 from the same client.
pub spent_challenge :
    (from : NetAddr) (number : ℕ) (l l' : List Challenge)
    → check_challenge from number l ≡ good l'
    → IsGood (check_challenge from 0 l')
spent_challenge from number l l' e = subst (Reused from) e (check-Reused from number l)
