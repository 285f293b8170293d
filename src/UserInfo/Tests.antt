-- ===== src/UserInfo/Tests.antt =====
-- The user-info strings of src/shared.c at concrete pairs.
use quake2world.Prelude.{ℕ, ◌≡◌, refl, List, [], ◌∷◌, arith, length, replicate, zero, suc, false}
use quake2world.UserInfo.{set_user_info, has_byte, max_user_info_string, bs}
use quake2world.UserInfo.Pairs.{Pairs, print}
use quake2world.UserInfo.Update.{put, set_user_info_refines}
use quake2world.UserInfo.GetSet.{set_user_info_fills}

abbrev name : List ℕ
name = 110 ∷ 97 ∷ []

abbrev skin : List ℕ
skin = 115 ∷ 107 ∷ []

abbrev pairs : Pairs
pairs = (name, 65 ∷ []) ∷ (skin, 66 ∷ 67 ∷ []) ∷ []

set_user_info_refines_example :
    set_user_info (print pairs) name (68 ∷ []) ≡ print (put name (68 ∷ []) pairs)
set_user_info_refines_example =
    set_user_info_refines pairs name (68 ∷ []) (refl, refl, (refl, refl, tt)) (omega arith)
      (omega arith)

-- 506 bytes for one pair, and 6 for the new one
abbrev long : Pairs
long = (skin, replicate 502 66) ∷ []

bytes_clean : (n : ℕ) → has_byte bs (replicate n 66) ≡ false
bytes_clean zero = refl
bytes_clean (suc n) = bytes_clean n

set_user_info_fills_example :
    length (set_user_info (print long) name (68 ∷ 69 ∷ [])) ≡ max_user_info_string
set_user_info_fills_example =
    set_user_info_fills long name (68 ∷ 69 ∷ []) (refl, bytes_clean 502, tt) (omega arith)
      (omega arith) refl (omega arith) refl
