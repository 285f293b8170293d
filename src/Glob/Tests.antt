-- ===== src/Glob/Tests.antt =====
-- GlobMatch at concrete patterns.
use quake2world.Prelude.{ℕ, ◌≡◌, refl, List, [], ◌∷◌, ◌++◌, true, false}
use quake2world.Glob.{
  answer, overrun, escape, scan_set, glob_match, match_loop, match_char, match_escaped, after_set,
  glob_match_star, star_loop, or_else, set_loop, test_item, read_item, range_from, range_end,
  skip_set, invert_scan,
}
use quake2world.Glob.Escapes.{overrun_at_escape}

-- "*[!a-c]x?" and texts
abbrev pattern : List ℕ
pattern = 42 ∷ 91 ∷ 33 ∷ 97 ∷ 45 ∷ 99 ∷ 93 ∷ 120 ∷ 63 ∷ []

abbrev accepted : List ℕ
accepted = 97 ∷ 100 ∷ 120 ∷ 122 ∷ []

is_accepted : glob_match pattern accepted ≡ answer true
unfolding glob_match match_loop match_char match_escaped after_set glob_match_star star_loop or_else
    scan_set set_loop test_item read_item range_from range_end skip_set invert_scan
is_accepted = refl

is_rejected : glob_match pattern (97 ∷ 98 ∷ 120 ∷ 122 ∷ []) ≡ answer false
unfolding glob_match match_loop match_char match_escaped after_set glob_match_star star_loop or_else
    scan_set set_loop test_item read_item range_from range_end skip_set invert_scan
is_rejected = refl

overrun_at_escape_example : glob_match ((97 ∷ []) ++ (escape ∷ [])) (97 ∷ []) ≡ overrun
overrun_at_escape_example = overrun_at_escape (97 ∷ []) refl

-- "[a\]]b" does not match "ab".
not_accepted : glob_match (91 ∷ 97 ∷ 92 ∷ 93 ∷ 93 ∷ 98 ∷ []) (97 ∷ 98 ∷ []) ≡ answer false
unfolding glob_match match_loop match_char match_escaped after_set glob_match_star star_loop or_else
    scan_set set_loop test_item read_item range_from range_end skip_set invert_scan
not_accepted = refl
