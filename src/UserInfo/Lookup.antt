-- ===== src/UserInfo/Lookup.antt =====
-- GetUserInfo of src/shared.c on a string of pairs.
use quake2world.Prelude.{
  ℕ, zero, suc, ◌<◌, ◌≡◌, refl, ap, ◌∙◌, List, [], ◌∷◌, ◌++◌, arith, length, if◌then◌else◌,
}
use quake2world.UserInfo.{bs, str_eq, get_key, get_value, get_loop, get_user_info}
use quake2world.UserInfo.Pairs.{
  Pairs, print, AreClean, find, count, count-le-print, span-word, span-value,
}

-- One round of the loop.
get_loop_first :
    (fuel : ℕ) (key k v : List ℕ) (ps : Pairs)
    → AreClean ((k, v) ∷ ps)
    → get_loop (suc fuel) key (k ++ (bs ∷ (v ++ print ps)))
      ≡ get_value key k (get_loop fuel key) (v, print ps)
unfolding get_loop
get_loop_first fuel key k v ps c =
    ap (get_key key (get_loop fuel key)) (span-word k (v ++ print ps) c.0)
    ∙ ap (get_value key k (get_loop fuel key)) (span-value v ps c.1)

-- From a key on, with fuel for the pairs that are left.
get_loop-lem :
    (fuel : ℕ) (key k v : List ℕ) (ps : Pairs)
    → AreClean ((k, v) ∷ ps)
    → count ps < fuel
    → get_loop fuel key (k ++ (bs ∷ (v ++ print ps))) ≡ find key ((k, v) ∷ ps)
unfolding get_loop
get_loop-lem zero key k v ps c h = absurd (omega arith)
get_loop-lem (suc fuel) key k v [] c h = get_loop_first fuel key k v [] c
get_loop-lem (suc fuel) key k v ((j, w) ∷ ps) c h =
    get_loop_first fuel key k v ((j, w) ∷ ps) c
    ∙ ap (λ r. if str_eq key k then v else r) (get_loop-lem fuel key j w ps c.2 (omega arith))

-- GetUserInfo of a string of pairs, with no backslash in a key or a value, is the value of the first pair with the key, and
-- the empty string if there is none.
pub get_user_info_refines :
    (ps : Pairs) (key : List ℕ) → AreClean ps → get_user_info (print ps) key ≡ find key ps
unfolding get_user_info
get_user_info_refines [] key c = refl
get_user_info_refines ((k, v) ∷ ps) key c =
    get_loop-lem (suc (length (print ((k, v) ∷ ps)))) key k v ps c
      (omega (arith, count-le-print ((k, v) ∷ ps)))
