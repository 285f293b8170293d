-- ===== src/UserInfo/GetSet.antt =====
-- GetUserInfo after SetUserInfo of src/shared.c, and how long the strings grow.
use quake2world.Prelude.{
  ℕ, ◌+◌, ◌≤◌, ◌<◌, ◌≡◌, sym, ap, ◌∙◌, false, List, [], ◌∷◌, ◌++◌, arith, length, length-append,
  ltb, if◌then◌else◌, if_false, if_true, Bool-cases, inl, inr, subst,
}
use quake2world.UserInfo.{
  bs, str_eq, has_byte, get_user_info, set_user_info, is_refused, new_pair, max_user_info_string,
}
use quake2world.UserInfo.Pairs.{Pairs, print, AreClean, find, erase, str_eq-true}
use quake2world.UserInfo.Lookup.{get_user_info_refines}
use quake2world.UserInfo.Update.{
  IsPrintable, AreDistinct, is_key-erase, find-append_self, find-append_ne, find-erase_ne, put,
  set_user_info_refines, print-append,
}

AreClean-erase : (ps : Pairs) (key : List ℕ) → AreClean ps → AreClean (erase key ps)
AreClean-erase [] key c = tt
AreClean-erase ((k, v) ∷ ps) key c = elim (Bool-cases (str_eq key k)) [
  | inl e ↦ subst AreClean (sym (if_true ps ((k, v) ∷ erase key ps) e)) c.2
  | inr e ↦
      subst AreClean (sym (if_false ps ((k, v) ∷ erase key ps) e))
        (c.0, c.1, AreClean-erase ps key c.2)
]

AreClean-append :
    (ps : Pairs) (key value : List ℕ)
    → AreClean ps
    → has_byte bs key ≡ false
    → has_byte bs value ≡ false
    → AreClean (ps ++ ((key, value) ∷ []))
AreClean-append [] key value c p q = (p, q, tt)
AreClean-append ((k, v) ∷ ps) key value c p q = (c.0, c.1, AreClean-append ps key value c.2 p q)

allowed_bytes :
    (key value : List ℕ)
    → is_refused key value ≡ false
    → (has_byte bs key ≡ false) × (has_byte bs value ≡ false)
allowed_bytes key value h = ground arith

-- the number of bytes that a new pair asks for, beside the pairs that stay
abbrev pub wanted : Pairs → List ℕ → List ℕ → ℕ
wanted ps key value = length (new_pair key value) + length (print (erase key ps))

put-fits :
    (ps : Pairs) (key value : List ℕ)
    → 0 < length value
    → wanted ps key value ≤ max_user_info_string
    → put key value ps ≡ erase key ps ++ ((key, value) ∷ [])
put-fits ps key [] h w = absurd (omega arith)
put-fits ps key (c ∷ value) h w =
    let n = wanted ps key (c ∷ value) in
    let e : ltb max_user_info_string n ≡ false = ground arith in if_false _ _ e

module _ (ps : Pairs) (key value : List ℕ) where
  set_bytes :
      AreClean ps
      → IsPrintable key
      → IsPrintable value
      → is_refused key value ≡ false
      → 0 < length value
      → wanted ps key value ≤ max_user_info_string
      → set_user_info (print ps) key value ≡ print (erase key ps ++ ((key, value) ∷ []))
  set_bytes c p q allowed h w =
      set_user_info_refines ps key value c p q
      ∙ ap print (if_false ps (put key value ps) allowed ∙ put-fits ps key value h w)

  pub get-set_user_info :
      (j : List ℕ)
      → AreClean ps
      → AreDistinct ps
      → IsPrintable key
      → IsPrintable value
      → is_refused key value ≡ false
      → 0 < length value
      → wanted ps key value ≤ max_user_info_string
      → get_user_info (set_user_info (print ps) key value) j
        ≡ (if str_eq j key then value else get_user_info (print ps) j)
  get-set_user_info j c d p q allowed h w =
      let (ok_key, ok_value) = allowed_bytes key value allowed in
      let after = erase key ps ++ ((key, value) ∷ []) in
      let read : get_user_info (set_user_info (print ps) key value) j ≡ find j after =
        ap (λ s. get_user_info s j) (set_bytes c p q allowed h w)
        ∙ get_user_info_refines after j
            (AreClean-append (erase key ps) key value (AreClean-erase ps key c) ok_key ok_value) in
      read ∙ elim (Bool-cases (str_eq j key)) [
        | inl e ↦
            subst (λ t. find t after ≡ value) (sym (str_eq-true j key e))
              (find-append_self (erase key ps) key value (is_key-erase ps key d))
            ∙ sym (if_true _ _ e)
        | inr e ↦
            find-append_ne (erase key ps) key value j e
            ∙ find-erase_ne ps key j e
            ∙ sym (get_user_info_refines ps j c)
            ∙ sym (if_false _ _ e)
      ]

  -- When the new pair and the pairs that stay ask for MAX_USER_INFO_STRING bytes, SetUserInfo leaves a
  -- string of MAX_USER_INFO_STRING bytes, so its NUL is one past the end of an array of that size.
  pub set_user_info_fills :
      AreClean ps
      → IsPrintable key
      → IsPrintable value
      → is_refused key value ≡ false
      → 0 < length value
      → wanted ps key value ≡ max_user_info_string
      → length (set_user_info (print ps) key value) ≡ max_user_info_string
  set_user_info_fills c p q allowed h w =
      ap length
        (set_bytes c p q allowed h (omega (arith, w)) ∙ sym (print-append (erase key ps) key value))
      ∙ omega (arith, length-append (print (erase key ps)) (new_pair key value), w)
