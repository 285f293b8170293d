-- ===== src/UserInfo/Update.antt =====
-- DeleteUserInfo and SetUserInfo of src/shared.c on a string of pairs.
use quake2world.Prelude.{
  ℕ, zero, suc, ◌+◌, ◌-◌, ◌≤◌, ◌<◌, ◌≡◌, refl, sym, ap, ap₂, ◌∙◌, subst, Bool, false, ◌||◌, List,
  [], ◌∷◌, ◌++◌, arith, length, length-append, take, take-append, append_assoc, append-nil, ltb,
  if◌then◌else◌, if_false, if_true, Bool-cases, inl, inr,
}
use quake2world.UserInfo.{
  bs, str_eq, has_byte, delete_key, delete_value, delete_loop, delete_user_info, span,
  set_user_info, is_refused, append_pair, new_pair, copy_ascii, max_user_info_string,
}
use quake2world.UserInfo.Pairs.{
  Pairs, print, AreClean, find, erase, count, count-le-print, span-word, span-value, str_eq_self,
  str_eq-true,
}

abbrev pair_bytes : List ℕ → List ℕ → List ℕ
pair_bytes k v = bs ∷ (k ++ (bs ∷ v))

print-cons : (k v : List ℕ) (ps : Pairs) → print ((k, v) ∷ ps) ≡ pair_bytes k v ++ print ps
print-cons k v ps = ap (λ t. bs ∷ t) (sym (append_assoc k (bs ∷ v) (print ps)))

-- the bytes before what is left
take-front : (a b : List ℕ) → take (length (a ++ b) - length b) (a ++ b) ≡ a
take-front a b =
    let e : length (a ++ b) - length b ≡ length a = omega (arith, length-append a b) in
    rw e (take-append a b)

take-pair :
    (k v : List ℕ) (ps : Pairs)
    → take (length (print ((k, v) ∷ ps)) - length (print ps)) (print ((k, v) ∷ ps)) ≡ pair_bytes k v
take-pair k v ps =
    subst (λ t. take (length t - length (print ps)) t ≡ pair_bytes k v) (sym (print-cons k v ps))
      (take-front (pair_bytes k v) (print ps))

delete_first :
    (fuel : ℕ) (key k v : List ℕ) (ps : Pairs)
    → AreClean ((k, v) ∷ ps)
    → delete_loop (suc fuel) key (print ((k, v) ∷ ps))
      ≡ delete_value key (print ((k, v) ∷ ps)) k (delete_loop fuel key) (v, print ps)
unfolding delete_loop
delete_first fuel key k v ps c =
    let start = print ((k, v) ∷ ps) in
    ap (delete_key key start (delete_loop fuel key)) (span-word k (v ++ print ps) c.0)
    ∙ ap (delete_value key start k (delete_loop fuel key)) (span-value v ps c.1)

delete_none : (fuel : ℕ) (key : List ℕ) → delete_loop fuel key [] ≡ []
unfolding delete_loop span
delete_none zero key = refl
delete_none (suc fuel) key = refl

delete_loop-lem :
    (fuel : ℕ) (key : List ℕ) (ps : Pairs)
    → AreClean ps
    → count ps ≤ fuel
    → delete_loop fuel key (print ps) ≡ print (erase key ps)
delete_loop-lem fuel key [] c h = delete_none fuel key
delete_loop-lem zero key (p ∷ ps) c h = absurd (omega arith)
delete_loop-lem (suc fuel) key ((k, v) ∷ []) c h =
    delete_first fuel key k v [] c
    ∙ elim (Bool-cases (str_eq key k)) [ inl e ↦ rw e | inr e ↦ rw e ]
delete_loop-lem (suc fuel) key ((k, v) ∷ (j, w) ∷ ps) c h =
    let rest : Pairs = (j, w) ∷ ps in
    let ih = delete_loop-lem fuel key rest c.2 (omega arith) in
    delete_first fuel key k v rest c ∙ elim (Bool-cases (str_eq key k)) [
      | inl e ↦ rw e
      | inr e ↦
          if_false _ _ e
          ∙ ap₂ ◌++◌ (take-pair k v rest) ih
          ∙ sym (print-cons k v (erase key rest))
          ∙ ap print (sym (if_false rest ((k, v) ∷ erase key rest) e))
    ]

delete_user_info-lem :
    (ps : Pairs) (key : List ℕ)
    → AreClean ps
    → has_byte bs key ≡ false
    → delete_user_info (print ps) key ≡ print (erase key ps)
unfolding delete_user_info
delete_user_info-lem ps key c h =
    if_false _ _ h
    ∙ delete_loop-lem (suc (length (print ps))) key ps c (omega (arith, count-le-print ps))

-- the bytes that a user-info string keeps as they are
abbrev pub IsPrintable : List ℕ → Type 0
IsPrintable [] = Unit
IsPrintable (c ∷ s) = (32 ≤ c) × (c < 127) × IsPrintable s

copy_ascii-append : (s t : List ℕ) → IsPrintable s → copy_ascii (s ++ t) ≡ s ++ copy_ascii t
unfolding copy_ascii
copy_ascii-append [] t h = refl
copy_ascii-append (c ∷ s) t h = ground (arith, copy_ascii-append s t h.2)

copy_ascii_self : (s : List ℕ) → IsPrintable s → copy_ascii s ≡ s
unfolding copy_ascii
copy_ascii_self [] h = refl
copy_ascii_self (c ∷ s) h = ground (arith, copy_ascii_self s h.2)

copy_ascii-pair :
    (key value : List ℕ)
    → IsPrintable key
    → IsPrintable value
    → copy_ascii (new_pair key value) ≡ new_pair key value
unfolding copy_ascii
copy_ascii-pair key value p q =
    ap (λ t. bs ∷ t)
      (copy_ascii-append key (bs ∷ value) p ∙ ap (λ t. key ++ (bs ∷ t)) (copy_ascii_self value q))

pub print-append :
    (ps : Pairs) (k v : List ℕ) → print ps ++ new_pair k v ≡ print (ps ++ ((k, v) ∷ []))
print-append [] k v = rw append-nil
print-append ((j, w) ∷ ps) k v =
    ap (λ t. t ++ new_pair k v) (print-cons j w ps)
    ∙ append_assoc (pair_bytes j w) (print ps) (new_pair k v)
    ∙ ap (λ t. pair_bytes j w ++ t) (print-append ps k v)
    ∙ sym (print-cons j w (ps ++ ((k, v) ∷ [])))

-- What SetUserInfo makes of the pairs: a refused key or value changes nothing; else the first
-- pair with the key goes, and a value that is not empty, with its key, goes to the end, if
-- the string then has at most MAX_USER_INFO_STRING bytes.
abbrev pub put : List ℕ → List ℕ → Pairs → Pairs
put key [] ps = erase key ps
put key (c ∷ value) ps =
    if ltb max_user_info_string (length (new_pair key (c ∷ value)) + length (print (erase key ps)))
    then erase key ps
    else erase key ps ++ ((key, c ∷ value) ∷ [])

append_pair-put :
    (ps : Pairs) (key value : List ℕ)
    → IsPrintable key
    → IsPrintable value
    → append_pair (print (erase key ps)) key value ≡ print (put key value ps)
append_pair-put ps key [] p q = refl
append_pair-put ps key (c ∷ value) p q =
    let old = erase key ps in
    let long = ltb max_user_info_string (length (new_pair key (c ∷ value)) + length (print old)) in
    elim (Bool-cases long) [
      | inl over ↦ if_true _ _ over ∙ ap print (sym (if_true _ _ over))
      | inr fits ↦
          if_false _ _ fits
          ∙ ap (λ t. print old ++ t) (copy_ascii-pair key (c ∷ value) p q)
          ∙ print-append old key (c ∷ value)
          ∙ ap print (sym (if_false _ _ fits))
    ]

key_allowed : (key value : List ℕ) → is_refused key value ≡ false → has_byte bs key ≡ false
key_allowed key value h = ground arith

-- SetUserInfo of a string of pairs, with a key and a value of printable bytes, is `put` of these
-- pairs, on every branch.
pub set_user_info_refines :
    (ps : Pairs) (key value : List ℕ)
    → AreClean ps
    → IsPrintable key
    → IsPrintable value
    → set_user_info (print ps) key value
      ≡ print (if is_refused key value then ps else put key value ps)
unfolding set_user_info
set_user_info_refines ps key value c p q = elim (Bool-cases (is_refused key value)) [
  | inl refused ↦ if_true _ _ refused ∙ ap print (sym (if_true ps (put key value ps) refused))
  | inr allowed ↦
      if_false _ _ allowed
      ∙ ap (λ s. append_pair s key value)
          (delete_user_info-lem ps key c (key_allowed key value allowed))
      ∙ append_pair-put ps key value p q
      ∙ ap print (sym (if_false ps (put key value ps) allowed))
]

pub find-append_ne :
    (ps : Pairs) (key value j : List ℕ)
    → str_eq j key ≡ false
    → find j (ps ++ ((key, value) ∷ [])) ≡ find j ps
find-append_ne [] key value j h = rw h
find-append_ne ((k, v) ∷ ps) key value j h =
    ap (λ r. if str_eq j k then v else r) (find-append_ne ps key value j h)

pub find-erase_ne :
    (ps : Pairs) (key j : List ℕ) → str_eq j key ≡ false → find j (erase key ps) ≡ find j ps
find-erase_ne [] key j h = refl
find-erase_ne ((k, v) ∷ ps) key j h = elim (Bool-cases (str_eq key k)) [
  | inl e ↦
      let k_is : key ≡ k = str_eq-true key k e in
      ap (find j) (if_true _ _ e) ∙ sym (if_false _ _ (subst (λ t. str_eq j t ≡ false) k_is h))
  | inr e ↦
      ap (find j) (if_false _ _ e)
      ∙ ap (λ r. if str_eq j k then v else r) (find-erase_ne ps key j h)
]

-- no key twice
abbrev pub is_key : List ℕ → Pairs → Bool
is_key key [] = false
is_key key ((k, v) ∷ ps) = str_eq key k || is_key key ps

abbrev pub AreDistinct : Pairs → Type 0
AreDistinct [] = Unit
AreDistinct ((k, v) ∷ ps) = (is_key k ps ≡ false) × AreDistinct ps

pub find-append_self :
    (ps : Pairs) (key value : List ℕ)
    → is_key key ps ≡ false
    → find key (ps ++ ((key, value) ∷ [])) ≡ value
find-append_self [] key value h = rw (str_eq_self key)
find-append_self ((k, v) ∷ ps) key value h = ground (arith, find-append_self ps key value)

pub is_key-erase : (ps : Pairs) (key : List ℕ) → AreDistinct ps → is_key key (erase key ps) ≡ false
is_key-erase [] key d = refl
is_key-erase ((k, v) ∷ ps) key d = elim (Bool-cases (str_eq key k)) [
  | inl e ↦
      ap (is_key key) (if_true _ _ e)
      ∙ subst (λ t. is_key t ps ≡ false) (sym (str_eq-true key k e)) d.0
  | inr e ↦ ap (is_key key) (if_false _ _ e) ∙ rw e (is_key-erase ps key d.1)
]
