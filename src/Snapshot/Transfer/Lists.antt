-- ===== src/Snapshot/Transfer/Lists.antt =====
-- Lists of entity states, as Sv_EmitEntities of src/server/sv_entity.c walks them.
use quake2world.Prelude.{
  ℕ, suc, ◌≤◌, ◌<◌, ◌≡◌, refl, ap, ◌∙◌, List, [], ◌∷◌, ◌++◌, append_assoc, arith, length,
}
use quake2world.Message.Vector.{Floats}
use quake2world.Message.Entity.{EntityState}
use quake2world.Snapshot.Transfer.Turns.{Pairs, firsts, seconds, IsPassed, ArePassed}

-- The numbers ascend, from above `k`.
abbrev pub AreSorted : {V : Type 0} → ℕ → List (EntityState V) → Type 0
AreSorted k [] = Unit
AreSorted k (x ∷ l) = (k < x.number) × AreSorted x.number l

pub firsts-append :
    {V : Type 0} (us : Pairs V) (p : EntityState V × EntityState V) (l : List (EntityState V))
    → firsts (us ++ (p ∷ [])) ++ l ≡ firsts us ++ (p.0 ∷ l)
firsts-append [] (u, w) l = refl
firsts-append ((u, w) ∷ us) p l = ap (λ t. u ∷ t) (firsts-append us p l)

pub seconds-append :
    {V : Type 0} (us : Pairs V) (p : EntityState V × EntityState V) (l : List (EntityState V))
    → seconds (us ++ (p ∷ [])) ++ l ≡ seconds us ++ (p.1 ∷ l)
seconds-append [] (u, w) l = refl
seconds-append ((u, w) ∷ us) p l = ap (λ t. w ∷ t) (seconds-append us p l)

pub length-seconds : {V : Type 0} (us : Pairs V) → length (seconds us) ≡ length us
length-seconds [] = refl
length-seconds ((u, w) ∷ us) = ap suc (length-seconds us)

pub append-ArePassed :
    {V : Type 0} (ops : Floats V) (k j : ℕ) (us : Pairs V) (p : EntityState V × EntityState V)
    → ArePassed ops k us
    → k < j
    → IsPassed ops p
    → p.0.number ≤ j
    → ArePassed ops j (us ++ (p ∷ []))
append-ArePassed ops k j [] p ps h q n = (q, n, tt)
append-ArePassed ops k j (u ∷ us) p (w, le, ps) h q n =
    (w, omega (arith, le, h), append-ArePassed ops k j us p ps h q n)

pub shape : (a b f e r : List ℕ) → ((a ++ (b ++ f)) ++ e) ++ r ≡ a ++ (b ++ (f ++ (e ++ r)))
shape a b f e r =
    append_assoc (a ++ (b ++ f)) e r
    ∙ append_assoc a (b ++ f) (e ++ r)
    ∙ ap (λ t. a ++ t) (append_assoc b f (e ++ r))
