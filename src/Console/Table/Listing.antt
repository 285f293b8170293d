-- ===== src/Console/Table/Listing.antt =====
-- Which commands Cmd_Enumerate of src/cmd.c lists.
use quake2world.Prelude.{
  ℕ, ◌≡◌, refl, sym, ap, ap₂, ◌∙◌, Bool, Bool-cases, inl, inr, true, false, ◌||◌, ◌+◌, ◌-◌, ◌≤◌,
  Option, none, some, List, [], ◌∷◌, arith, if◌then◌else◌, if_true, if_false,
}
use quake2world.UserInfo.{str_eq}
use quake2world.UserInfo.Pairs.{str_eq_self, str_eq-true}
use quake2world.Console.Buffer.{Command, alias}
use quake2world.Console.Variables.{has, str_less}
use quake2world.Console.Table.{
  Cmd, Table, insert_key, is_some, insert_command, add, add_alias, is_removed, without,
  unless_removed, keep_keys, remove_all, visit, enumerate,
}

abbrev pub has_key : List ℕ → List (List ℕ) → Bool
has_key n [] = false
has_key n (k ∷ ks) = str_eq n k || has_key n ks

abbrev pub one_if : Bool → ℕ
one_if true = 1
one_if false = 0

-- How often the name is among the keys
abbrev pub count : List ℕ → List (List ℕ) → ℕ
count n [] = 0
count n (k ∷ ks) = one_if (str_eq n k) + count n ks

count-insert_key :
    (n name : List ℕ) (ks : List (List ℕ))
    → count n (insert_key name ks) ≡ one_if (str_eq n name) + count n ks
unfolding insert_key
count-insert_key n name [] = refl
count-insert_key n name (k ∷ ks) = elim (Bool-cases (str_less k name)) [
  | inl e ↦
      let later = count-insert_key n name ks in
      ap (count n) (if_true (k ∷ insert_key name ks) (name ∷ k ∷ ks) e) ∙ omega (arith, later)
  | inr e ↦ ap (count n) (if_false (k ∷ insert_key name ks) (name ∷ k ∷ ks) e)
]

count-has_key : (n : List ℕ) (ks : List (List ℕ)) → has_key n ks ≡ true → 1 ≤ count n ks
count-has_key n [] h = cc
count-has_key n (k ∷ ks) h = elim (Bool-cases (str_eq n k)) [
  | inl e ↦ let one = ap one_if e in omega (arith, one)
  | inr e ↦
      let later = count-has_key n ks (ap (λ b. b || has_key n ks) (sym e) ∙ h) in
      omega (arith, later)
]

one_if-true : (b : Bool) → 1 ≤ one_if b → b ≡ true
one_if-true true h = refl
one_if-true false h = absurd (omega (arith, h))

some_of : {A : Type 0} (o : Option A) → is_some o ≡ true → (a : A) × (o ≡ some a)
some_of none h = cc
some_of (some a) h = (a, refl)

module _ {S : Type 0} where
  -- The keys are the names of the commands in the table, each once.
  abbrev pub IsListed : Table S → Type 0
  IsListed st = (n : List ℕ) → count n st.keys ≡ one_if (is_some (st.commands n))

  insert_command-IsListed :
      (name : List ℕ) (c : Cmd S) (st : Table S)
      → is_some (st.commands name) ≡ false
      → IsListed st
      → IsListed (insert_command name c st)
  unfolding insert_command
  insert_command-IsListed name c st new h n =
      count-insert_key n name st.keys ∙ elim (Bool-cases (str_eq n name)) [
        | inl e ↦
            let at : count n st.keys ≡ 0 =
              h n ∙ ap one_if (ap (λ n. is_some (st.commands n)) (str_eq-true n name e) ∙ new) in
            ap₂ (λ a b. a + b) (ap one_if e) at
            ∙ sym (ap (λ o. one_if (is_some o)) (if_true (some c) (st.commands n) e))
        | inr e ↦
            let zero = ap one_if e in
            let at = h n in
            let same = ap (λ o. one_if (is_some o)) (if_false (some c) (st.commands n) e) in
            omega (arith, zero, at, same)
      ]

  count-keep_keys :
      (mask : ℕ) (f : List ℕ → Option (Cmd S)) (n : List ℕ) (ks : List (List ℕ))
      → count n (keep_keys mask f ks) ≡ count n ks - one_if (is_removed mask (f n))
  count-keep_keys mask f n [] = omega arith
  count-keep_keys mask f n (k ∷ ks) =
      let same : str_eq n k ≡ true → is_removed mask (f k) ≡ is_removed mask (f n) =
        λ e. ap (λ m. is_removed mask (f m)) (sym (str_eq-true n k e)) in
      elim (Bool-cases (is_removed mask (f k))) [
        | inl r ↦
            let later = count-keep_keys mask (without k f) n ks in
            ap (count n) (if_true (keep_keys mask (without k f) ks) (k ∷ keep_keys mask f ks) r)
            ∙ elim (Bool-cases (str_eq n k)) [
              | inl e ↦
                  let gone = ap one_if (sym (same e) ∙ r) in
                  let one = ap one_if e in
                  let none_left = ap (λ o. one_if (is_removed mask o)) (if_true none (f n) e) in
                  omega (arith, later, gone, one, none_left)
              | inr e ↦
                  let zero = ap one_if e in
                  let left = ap (λ o. one_if (is_removed mask o)) (if_false none (f n) e) in
                  omega (arith, later, zero, left)
            ]
        | inr r ↦
            let later = count-keep_keys mask f n ks in
            ap (count n) (if_false (keep_keys mask (without k f) ks) (k ∷ keep_keys mask f ks) r)
            ∙ elim (Bool-cases (str_eq n k)) [
              | inl e ↦ let kept = ap one_if (sym (same e) ∙ r) in omega (arith, later, kept)
              | inr e ↦ let zero = ap one_if e in omega (arith, later, zero)
            ]
      ]

  one_if-unless_removed :
      (mask : ℕ) (o : Option (Cmd S))
      → one_if (is_some o) - one_if (is_removed mask o) ≡ one_if (is_some (unless_removed mask o))
  one_if-unless_removed mask none = omega arith
  one_if-unless_removed mask (some c) = elim (Bool-cases (has mask c.flags)) [
    | inl e ↦
        ap (λ b. 1 - one_if b) e ∙ sym (ap (λ o. one_if (is_some o)) (if_true none (some c) e))
    | inr e ↦
        ap (λ b. 1 - one_if b) e ∙ sym (ap (λ o. one_if (is_some o)) (if_false none (some c) e))
  ]

  remove_all-IsListed : (mask : ℕ) (st : Table S) → IsListed st → IsListed (remove_all mask st)
  unfolding remove_all
  remove_all-IsListed mask st h n =
      count-keep_keys mask st.commands n st.keys
      ∙ ap (λ a. a - one_if (is_removed mask (st.commands n))) (h n)
      ∙ one_if-unless_removed mask (st.commands n)

  unchanged_or :
      (b c : Bool) (x y : Table S)
      → IsListed x
      → (c ≡ false → IsListed y)
      → IsListed (if b || c then x else y)
  unchanged_or true c x y h k = h
  unchanged_or false true x y h k = h
  unchanged_or false false x y h k = k refl

  -- One call of an operation on the table; any names may be those of variables.
  pub data Change : Table S → Table S → Type 0 where
    by_add :
        {st : Table S} (is_variable : List ℕ → Bool) (name : List ℕ) (command : Command S)
        (flags : ℕ)
        → Change st (add is_variable name command flags st)
    by_alias :
        {st : Table S} (is_variable : List ℕ → Bool) (name text : List ℕ)
        → Change st (add_alias is_variable name text st)
    by_remove_all : {st : Table S} (mask : ℕ) → Change st (remove_all mask st)

  pub data Changes : Table S → Table S → Type 0 where
    no_change : {st : Table S} → Changes st st
    change : {a b c : Table S} → Change a b → Changes b c → Changes a c

  Change-IsListed : {a b : Table S} → Change a b → IsListed a → IsListed b
  unfolding add add_alias
  Change-IsListed {a = st} (by_add v name command flags) h =
      let c : Cmd S = record { command = command; flags = flags } in
      unchanged_or (v name) (is_some (st.commands name)) st (insert_command name c st) h
        (λ new. insert_command-IsListed name c st new h)
  Change-IsListed {a = st} (by_alias v name text) h =
      let c : Cmd S = record { command = alias text; flags = 0 } in
      unchanged_or (v name) (is_some (st.commands name)) st (insert_command name c st) h
        (λ new. insert_command-IsListed name c st new h)
  Change-IsListed {a = st} (by_remove_all mask) h = remove_all-IsListed mask st h

  Changes-IsListed : {a b : Table S} → Changes a b → IsListed a → IsListed b
  Changes-IsListed no_change h = h
  Changes-IsListed (change c r) h = Changes-IsListed r (Change-IsListed c h)

  -- The commands of the names, one by one
  abbrev pub Lists : (List ℕ → Option (Cmd S)) → List (List ℕ) → List (Cmd S) → Type 0
  Lists f [] [] = Unit
  Lists f [] (c ∷ l) = ⊥
  Lists f (k ∷ ks) [] = ⊥
  Lists f (k ∷ ks) (c ∷ l) = (f k ≡ some c) × Lists f ks l

  enumerate-Lists :
      (f : List ℕ → Option (Cmd S)) (ks : List (List ℕ))
      → ((n : List ℕ) → has_key n ks ≡ true → is_some (f n) ≡ true)
      → (l : List (Cmd S)) × (enumerate f ks ≡ some l) × Lists f ks l
  unfolding enumerate
  enumerate-Lists f [] h = ([], refl, tt)
  enumerate-Lists f (k ∷ ks) h =
      let (c, found) = some_of (f k) (h k (ap (λ b. b || has_key k ks) (str_eq_self k))) in
      let (l, e, more) = enumerate-Lists f ks (λ n d. h n (ground (arith, d))) in
      (c ∷ l, ap₂ visit found e, (found, more))

  is_some-has_key :
      (st : Table S)
      → IsListed st
      → (n : List ℕ) → has_key n st.keys ≡ true
      → is_some (st.commands n) ≡ true
  is_some-has_key st h n d =
      let here = count-has_key n st.keys d in
      let at = h n in one_if-true (is_some (st.commands n)) (omega (arith, here, at))

  -- After any calls of Cmd_Add, Cmd_Alias and Cmd_RemoveAll from a table whose keys are the names of its commands, each once, as the
  -- empty one is, Cmd_Enumerate meets no missing command: it calls its function on the command of each key, in the order
  -- of the keys, and the keys are still the names of the commands, each once.
  pub Changes-Lists :
      {a b : Table S}
      → Changes a b
      → IsListed a
      → (l : List (Cmd S)) × (enumerate b.commands b.keys ≡ some l)
        × Lists b.commands b.keys l
        × IsListed b
  Changes-Lists {b = st} r h =
      let listed = Changes-IsListed r h in
      let (l, e, more) = enumerate-Lists st.commands st.keys (is_some-has_key st listed) in
      (l, e, more, listed)
