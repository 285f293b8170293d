-- ===== src/Connections/Requests/RealAddress.antt =====
-- The address in the user info that Svc_Connect of src/server/sv_main.c hands to the game.
use quake2world.Prelude.{
  ℕ, ◌≤◌, ◌<◌, ◌≡◌, refl, sym, ap, ◌∙◌, subst, ◌⊎◌, inl, inr, Bool-cases, false, not, Option, none,
  some, List, [], ◌∷◌, ◌++◌, arith, length, length-append, take, length-take, ◌==◌, if◌then◌else◌,
  if_true,
}
use quake2world.Channel.{NetAddr}
use quake2world.UserInfo.{
  bs, quote, has_byte, str_eq, get_user_info, validate_user_info, set_user_info,
}
use quake2world.UserInfo.Pairs.{Pairs, print, AreClean, erase}
use quake2world.UserInfo.Update.{IsPrintable, AreDistinct}
use quake2world.UserInfo.GetSet.{get-set_user_info}
use quake2world.Connections.{Challenge, Slot, Request}
use quake2world.Connections.Requests.{
  ip_key, info_room, protocol, checked_info, Answer, wrong_version, connection_refused, looked_at,
  after_info, connect,
}

checked_cases : (info : List ℕ) → (checked_info info ≡ none) ⊎ (checked_info info ≡ some info)
unfolding checked_info
checked_cases info = elim (Bool-cases (length info == 0)) [
  | inl e ↦ inl (if_true _ _ e)
  | inr e ↦ elim (Bool-cases (has_byte 255 info)) [
    | inl f ↦ inl (rw (e, f) refl)
    | inr f ↦ elim (Bool-cases (not (length (get_user_info info ip_key) == 0))) [
      | inl g ↦ inl (rw (e, f, g) refl)
      | inr g ↦ elim (Bool-cases (not (validate_user_info info))) [
        | inl v ↦ inl (rw (e, f, g, v) refl)
        | inr v ↦ inr (rw (e, f, g, v) refl)
      ]
    ]
  ]
]

length-erase : (ps : Pairs) (key : List ℕ) → length (print (erase key ps)) ≤ length (print ps)
length-erase [] key = omega arith
length-erase ((k, v) ∷ ps) key = elim (Bool-cases (str_eq key k)) [
  | inl e ↦
      rw (e) (omega (arith, length-append k (bs ∷ (v ++ print ps)), length-append v (print ps)))
  | inr e ↦ rw (e) (
      omega (
        arith,
        length-append k (bs ∷ (v ++ print ps)),
        length-append v (print ps),
        length-append k (bs ∷ (v ++ print (erase key ps))),
        length-append v (print (erase key ps)),
        length-erase ps key,
      ))
]

-- the user info handed on
abbrev info_of : Answer → List ℕ
info_of wrong_version = []
info_of connection_refused = []
info_of (looked_at info r) = info

module _ (from : NetAddr) (qport number : ℕ) (info address : List ℕ) (slots : List Slot)
    (l : List Challenge) where
  handed :
      (k : Option (List ℕ)) (text sent : List ℕ) (r : Request)
      → (k ≡ none) ⊎ (k ≡ some text)
      → (after_info from qport number address slots l k).0 ≡ looked_at sent r
      → sent ≡ set_user_info text ip_key address
  unfolding after_info
  handed none text sent r (inl e) h = absurd (cc h)
  handed none text sent r (inr e) h = absurd (cc e)
  handed (some t) text sent r (inl e) h = absurd (cc e)
  handed (some t) text sent r (inr e) h =
      sym (ap info_of h) ∙ ap (λ x. set_user_info x ip_key address) (cc e)

  -- If Svc_Connect looks at a request whose user info, cut to its room, is a list of clean pairs with distinct keys, then
  -- the user info that the game gets has the address of the sender for "ip", and for any other key what the
  -- request had, if the address is printable without a backslash or a quotation mark and of at most 21 characters.
  pub real_address :
      (ps : Pairs) (sent : List ℕ) (r : Request) (j : List ℕ)
      → take info_room info ≡ print ps
      → AreClean ps
      → AreDistinct ps
      → IsPrintable address
      → has_byte bs address ≡ false
      → has_byte quote address ≡ false
      → 0 < length address
      → length address ≤ 21
      → (connect from protocol qport number info address slots l).0 ≡ looked_at sent r
      → get_user_info sent j ≡ (if str_eq j ip_key then address else get_user_info (print ps) j)
  unfolding connect
  real_address ps sent r j cut c d p b q pos short h =
      let text : sent ≡ set_user_info (print ps) ip_key address =
        handed (checked_info (take info_room info)) (print ps) sent r
          (subst
            (λ t.
              (checked_info (take info_room info) ≡ none)
              ⊎ (checked_info (take info_room info) ≡ some t))
            cut (checked_cases (take info_room info)))
          h in
      let room : length (print ps) ≤ 486 =
        omega (arith, ap length cut, length-take info_room info) in
      ap (λ t. get_user_info t j) text
      ∙ get-set_user_info ps ip_key address j c d (omega arith) p (ground (arith, b, q, short)) pos
          (omega (arith, length-erase ps ip_key, room, short))
