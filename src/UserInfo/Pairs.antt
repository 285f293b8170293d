-- ===== src/UserInfo/Pairs.antt =====
-- The strings that stand for lists of pairs, which is what the user-info functions keep.
use quake2world.Prelude.{
  ℕ, suc, ◌≤◌, ◌≡◌, refl, true, false, List, [], ◌∷◌, ◌++◌, arith, length, length-append,
  if◌then◌else◌,
}
use quake2world.UserInfo.{bs, str_eq, has_byte, span}

abbrev pub Pairs : Type 0
Pairs = List (List ℕ × List ℕ)

-- \key\value for each pair
abbrev pub print : Pairs → List ℕ
print [] = []
print ((k, v) ∷ ps) = bs ∷ (k ++ (bs ∷ (v ++ print ps)))

abbrev pub AreClean : Pairs → Type 0
AreClean [] = Unit
AreClean ((k, v) ∷ ps) = (has_byte bs k ≡ false) × (has_byte bs v ≡ false) × AreClean ps

abbrev pub find : List ℕ → Pairs → List ℕ
find key [] = []
find key ((k, v) ∷ ps) = if str_eq key k then v else find key ps

abbrev pub erase : List ℕ → Pairs → Pairs
erase key [] = []
erase key ((k, v) ∷ ps) = if str_eq key k then ps else (k, v) ∷ erase key ps

abbrev pub count : Pairs → ℕ
count [] = 0
count (p ∷ ps) = suc (count ps)

pub count-le-print : (ps : Pairs) → count ps ≤ length (print ps)
count-le-print [] = omega arith
count-le-print ((k, v) ∷ ps) =
    omega
      (arith, length-append k (bs ∷ (v ++ print ps)), length-append v (print ps), count-le-print ps)

-- A word ends at the next backslash, or with the string.
pub span-word : (k s : List ℕ) → has_byte bs k ≡ false → span (k ++ (bs ∷ s)) ≡ (k, bs ∷ s)
unfolding span
span-word [] s h = refl
span-word (c ∷ k) s h = ground (arith, span-word k s)

span-last : (k : List ℕ) → has_byte bs k ≡ false → span (k ++ []) ≡ (k, [])
unfolding span
span-last [] h = refl
span-last (c ∷ k) h = ground (arith, span-last k)

pub span-value :
    (v : List ℕ) (ps : Pairs) → has_byte bs v ≡ false → span (v ++ print ps) ≡ (v, print ps)
span-value v [] h = span-last v h
span-value v ((k, w) ∷ ps) h = span-word v _ h

pub str_eq_self : (s : List ℕ) → str_eq s s ≡ true
str_eq_self [] = refl
str_eq_self (c ∷ s) = ground (arith, str_eq_self s)

pub str_eq-true : (s t : List ℕ) → str_eq s t ≡ true → s ≡ t
str_eq-true [] [] h = refl
str_eq-true [] (b ∷ t) h = cc
str_eq-true (a ∷ s) [] h = cc
str_eq-true (a ∷ s) (b ∷ t) h = ground (arith, str_eq-true s t)
