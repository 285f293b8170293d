-- ===== src/Console/Buffer/Lines.antt =====
-- The lines of the command buffer of src/cmd.c, in the order in which Cbuf_Execute runs them.
use quake2world.Prelude.{
  ℕ, zero, suc, ◌≤◌, ◌<◌, ◌≡◌, ◌≢◌, refl, ◌⊎◌, sym, ap, ◌∙◌, subst, Bool, Bool-cases, inl, inr,
  true, false, not, ◌&&◌, ◌||◌, Option, none, some, List, [], ◌∷◌, ◌++◌, arith, length,
  length-append, ltb, ◌==◌, if◌then◌else◌, if_true, if_false,
}
use quake2world.UserInfo.{quote, semicolon}
use quake2world.Console.Tokens.{newline, max_string_chars}
use quake2world.Console.Buffer.{
  Cbuf, split_line, Engine, Ran, ran, fault, line_overflow, not_ended, execute_string, after_line,
  run_line, execute_loop, execute,
}

abbrev flip : Bool → ℕ → Bool
flip odd c = if c == quote then not odd else odd

-- A text that no character breaks, after an odd number of quotation marks or an even one.
abbrev pub unbroken : Bool → List ℕ → Bool
unbroken odd [] = true
unbroken odd (c ∷ s) =
    let odd' = if c == quote then not odd else odd in
    not (not odd' && c == semicolon || c == newline) && unbroken odd' s

abbrev pub unlines : List (List ℕ) → List ℕ
unlines [] = []
unlines (l ∷ ls) = l ++ (newline ∷ unlines ls)

no_break : (x y : Bool) → (not x && y) ≡ true → x ≡ false
no_break x y h = ground (arith, h)

both : (x y : Bool) → (x && y) ≡ true → y ≡ true
both x y h = ground (arith, h)

pub split_line-unbroken :
    (odd : Bool) (l rest : List ℕ)
    → unbroken odd l ≡ true
    → split_line odd (l ++ (newline ∷ rest)) ≡ (l, rest)
unfolding split_line
split_line-unbroken true [] rest h = refl
split_line-unbroken false [] rest h = refl
split_line-unbroken odd (c ∷ l) rest h =
    let more : (not (flip odd c) && c == semicolon || c == newline) ≡ false =
      no_break (not (flip odd c) && c == semicolon || c == newline) (unbroken (flip odd c) l) h in
    let later = split_line-unbroken (flip odd c) l rest (
      both (not (not (flip odd c) && c == semicolon || c == newline)) (unbroken (flip odd c) l)
        h) in
    if_false ([], l ++ (newline ∷ rest)) _ more ∙ ap (λ p. (c ∷ p.0, p.1)) later

broken_or_not :
    (odd : Bool) (c : ℕ) (s : List ℕ)
    → ((split_line odd (c ∷ s)).1 ≡ s)
      ⊎ ((split_line odd (c ∷ s)).1 ≡ (split_line (flip odd c) s).1)
unfolding split_line
broken_or_not odd c s = elim (Bool-cases (not (flip odd c) && c == semicolon || c == newline)) [
  | inl e ↦ inl (ap (λ (p : List ℕ × List ℕ). p.1) (if_true ([], s) _ e))
  | inr e ↦ inr (ap (λ (p : List ℕ × List ℕ). p.1) (if_false ([], s) _ e))
]

split_le : (odd : Bool) (s : List ℕ) → length (split_line odd s).1 ≤ length s
unfolding split_line
split_le odd [] = omega arith
split_le odd (c ∷ s) = elim (broken_or_not odd c s) [
  | inl e ↦ omega (arith, ap length e)
  | inr e ↦ omega (arith, ap length e, split_le (flip odd c) s)
]

split_shorter : (odd : Bool) (s : List ℕ) → 0 < length s → length (split_line odd s).1 < length s
split_shorter odd [] h = absurd (omega (arith, h))
split_shorter odd (c ∷ s) h = elim (broken_or_not odd c s) [
  | inl e ↦ omega (arith, ap length e)
  | inr e ↦ omega (arith, ap length e, split_le (flip odd c) s)
]

abbrev pub AreLines : List (List ℕ) → Type 0
AreLines [] = Unit
AreLines (l ∷ ls) = (unbroken false l ≡ true) × (length l < max_string_chars) × AreLines ls

module _ {S : Type 0} (engine : Engine S) where
  -- The lines take `s` to `s'`, with `rest` left behind a line that waits.
  pub data Runs : List (List ℕ) → S → S → List (List ℕ) → Type 0 where
    all_run : {s : S} → Runs [] s s []
    line_runs :
        {l : List ℕ} {ls rest : List (List ℕ)} {s s' s'' : S}
        → ((b : Cbuf) → execute_string engine l (b, s) ≡ some (b, s'))
        → Runs ls s' s'' rest
        → Runs (l ∷ ls) s s'' rest
    line_waits :
        {l : List ℕ} {ls : List (List ℕ)} {s s' : S}
        → ((b : Cbuf) → execute_string engine l (b, s) ≡ some (record b { wait = true }, s'))
        → Runs (l ∷ ls) s s' ls

  abbrev with_lines : Cbuf → List (List ℕ) → Cbuf
  with_lines b ls = record b { pending = unlines ls; wait = false }

  one_line :
      (fuel : ℕ) (b : Cbuf) (s : S) (l : List ℕ) (ls : List (List ℕ))
      → unbroken false l ≡ true
      → length l < max_string_chars
      → execute_loop engine (suc fuel) (with_lines b (l ∷ ls), s)
        ≡ after_line engine
            (execute_loop engine fuel)
            (execute_string engine l (with_lines b ls, s))
  unfolding execute_loop run_line
  one_line fuel b s l ls h n =
      let some_text : (length (unlines (l ∷ ls)) == 0) ≡ false =
        ground (arith, length-append l (newline ∷ unlines ls)) in
      let short : ltb max_string_chars (length l) ≡ false = ground (arith, n) in
      let fits : (length l == max_string_chars) ≡ false = ground (arith, n) in
      if_false (ran (with_lines b (l ∷ ls), s)) _ some_text
      ∙ ap (run_line engine (execute_loop engine fuel) (with_lines b (l ∷ ls), s))
          (split_line-unbroken false l (unlines ls) h)
      ∙ if_false (ran (with_lines b (l ∷ ls), s)) _ short
      ∙ if_false line_overflow _ fits

  loop_lem :
      (fuel : ℕ) (b : Cbuf) {s s' : S} {ls rest : List (List ℕ)}
      → Runs ls s s' rest
      → AreLines ls
      → length ls < fuel
      → execute_loop engine fuel (with_lines b ls, s) ≡ ran (with_lines b rest, s')
  unfolding execute_loop after_line
  loop_lem zero b r h n = absurd (omega (arith, n))
  loop_lem (suc fuel) b all_run h n = refl
  loop_lem (suc fuel) b (line_runs {l = l} {ls = ls} {s = s} e r) (u, m, h) n =
      one_line fuel b s l ls u m
      ∙ ap (after_line engine (execute_loop engine fuel)) (e (with_lines b ls))
      ∙ loop_lem fuel b r h (omega (arith, n))
  loop_lem (suc fuel) b (line_waits {l = l} {ls = ls} {s = s} e) (u, m, h) n =
      one_line fuel b s l ls u m
      ∙ ap (after_line engine (execute_loop engine fuel)) (e (with_lines b ls))

  -- Cbuf_Execute runs the lines of the buffer in their order, each of them once, up to the first that asks for a wait, and leaves those behind it
  -- for the next call, if the lines are shorter than MAX_STRING_CHARS, no character breaks them, and the commands add no
  -- text themselves.
  pub execute-Runs :
      (fuel : ℕ) (b : Cbuf) {s s' : S} {ls rest : List (List ℕ)}
      → Runs ls s s' rest
      → AreLines ls
      → length ls < fuel
      → execute engine fuel (record b { pending = unlines ls; wait = false }, s)
        ≡ ran (record b { pending = unlines rest; wait = false; alias_loop_count = 0 }, s')
  unfolding execute
  execute-Runs fuel b r h n = loop_lem fuel (record b { alias_loop_count = 0 }) r h n

  -- A command leaves no more text than there was.
  abbrev pub AddsNone : Type 0
  AddsNone =
      (l : List ℕ) (b b' : Cbuf) (s s' : S)
      → execute_string engine l (b, s) ≡ some (b', s')
      → length b'.pending ≤ length b.pending

  abbrev Ends : Ran S → Type 0
  Ends (ran st) = Unit
  Ends fault = Unit
  Ends line_overflow = Unit
  Ends not_ended = ⊥

  after_line-Ends :
      (next : Cbuf × S → Ran S) (o : Option (Cbuf × S)) (n : ℕ)
      → ((b : Cbuf) (s : S) → length b.pending < n → Ends (next (b, s)))
      → ((b : Cbuf) (s : S) → o ≡ some (b, s) → length b.pending < n)
      → Ends (after_line engine next o)
  unfolding after_line
  after_line-Ends next none n e h = tt
  after_line-Ends next (some (b, s)) n e h = elim (Bool-cases b.wait) [
    | inl w ↦ subst Ends (sym (if_true (ran (record b { wait = false }, s)) (next (b, s)) w)) tt
    | inr w ↦
        subst Ends (sym (if_false (ran (record b { wait = false }, s)) (next (b, s)) w))
          (e b s (h b s refl))
  ]

  run_line-Ends :
      (next : Cbuf × S → Ran S) (b : Cbuf) (s : S) (line rest : List ℕ) (n : ℕ)
      → AddsNone
      → ((b : Cbuf) (s : S) → length b.pending < n → Ends (next (b, s)))
      → length rest < n
      → Ends (run_line engine next (b, s) (line, rest))
  unfolding run_line
  run_line-Ends next b s line rest n q e h =
      elim (Bool-cases (ltb max_string_chars (length line))) [
        | inl x ↦ rw (x) tt
        | inr x ↦ elim (Bool-cases (length line == max_string_chars)) [
          | inl y ↦ rw (x, y) tt
          | inr y ↦
              let b' : Cbuf = record b { pending = rest } in
              rw (x, y)
                (after_line-Ends next (execute_string engine line (b', s)) n e
                  (λ b'' s' o. omega (arith, q line b' b'' s s' o, h)))
        ]
      ]

  loop-Ends :
      (fuel : ℕ) (b : Cbuf) (s : S)
      → AddsNone
      → length b.pending < fuel
      → Ends (execute_loop engine fuel (b, s))
  unfolding execute_loop
  loop-Ends zero b s q h = absurd (omega (arith, h))
  loop-Ends (suc fuel) b s q h = elim (Bool-cases (length b.pending == 0)) [
    | inl e ↦ rw (e) tt
    | inr e ↦ rw (e) (
        run_line-Ends (execute_loop engine fuel) b s (split_line false b.pending).0
          (split_line false b.pending).1 fuel q (λ b s k. loop-Ends fuel b s q k)
          (omega (arith, h, split_shorter false b.pending (ground (arith, e)))))
  ]

  -- Cbuf_Execute ends, with a unit of fuel for each byte of the text and one more, if no command adds text.
  pub execute-ends :
      (fuel : ℕ) (b : Cbuf) (s : S)
      → AddsNone
      → length b.pending < fuel
      → execute engine fuel (b, s) ≢ not_ended
  unfolding execute
  execute-ends fuel b s q h e =
      subst Ends e (loop-Ends fuel (record b { alias_loop_count = 0 }) s q h)

  -- A command of more than MAX_STRING_CHARS bytes at the front of the buffer stays there: Cbuf_Execute runs nothing
  -- and leaves all of the text for the next call, in which it is the same again.
  pub long_command_stays :
      (fuel : ℕ) (b : Cbuf) (s : S)
      → max_string_chars < length (split_line false b.pending).0
      → execute engine (suc fuel) (b, s) ≡ ran (record b { alias_loop_count = 0 }, s)
  unfolding execute execute_loop run_line
  long_command_stays fuel b s h =
      let long : ltb max_string_chars (length (split_line false b.pending).0) ≡ true =
        ground (arith, h) in
      let next =
        run_line engine (execute_loop engine fuel) (record b { alias_loop_count = 0 }, s)
          (split_line false b.pending) in
      elim (Bool-cases (length b.pending == 0)) [ inl e ↦ rw (e) refl | inr e ↦ rw (e, long) refl ]
