-- ===== src/Connections/Slots.antt =====
-- The slot that Svc_Connect of src/server/sv_main.c offers.
use quake2world.Prelude.{
  ℕ, zero, suc, ◌+◌, ◌≡◌, Bool, ◌⊎◌, true, false, Option, none, some, List, [], ◌∷◌,
}
use quake2world.Channel.{NetAddr}
use quake2world.Connections.{Slot, is_reconnect, is_available}

-- No slot passes the test.
abbrev pub NonePass : (Slot → Bool) → List Slot → Type 0
NonePass test [] = Unit
NonePass test (s ∷ l) = (test s ≡ false) × NonePass test l

-- The slot passes the test, and none before it does.
abbrev pub IsFirst : (Slot → Bool) → List Slot → ℕ → Type 0
IsFirst test [] i = ⊥
IsFirst test (s ∷ l) zero = test s ≡ true
IsFirst test (s ∷ l) (suc i) = (test s ≡ false) × IsFirst test l i

abbrev FirstFrom : (Slot → Bool) → ℕ → List Slot → Option ℕ → Type 0
FirstFrom test i l none = NonePass test l
FirstFrom test i l (some k) = (j : ℕ) × (k ≡ i + j) × IsFirst test l j

-- The slot of the client's own lost connection, or the first that is free and no bot's if there is none; no
-- slot only if there is neither.
abbrev pub Chosen : NetAddr → ℕ → List Slot → Option ℕ → Type 0
Chosen from qport l none = NonePass (is_reconnect from qport) l × NonePass is_available l
Chosen from qport l (some k) =
    IsFirst (is_reconnect from qport) l k
    ⊎ (NonePass (is_reconnect from qport) l × IsFirst is_available l k)
