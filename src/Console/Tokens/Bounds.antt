-- ===== src/Console/Tokens/Bounds.antt =====
-- What Cmd_TokenizeString of src/cmd.c leaves of any text fits its arrays, but for quotation marks.
use quake2world.Prelude.{
  ℕ, zero, suc, ◌+◌, ◌-◌, ◌≤◌, ◌<◌, ◌≡◌, sym, subst, Bool-cases, inl, inr, true, List, [], ◌∷◌,
  ◌++◌, arith, length, length-append, length-take, take, leb, ◌==◌, if_true, if_false,
}
use quake2world.UserInfo.{quote, has_byte}
use quake2world.Console.Tokens.{
  max_token_chars, max_string_tokens, max_string_chars, is_white, Place, null, at, past_nul, Parsed,
  token, token_overflow, parse_token, Args, no_args, Tokenized, tokens, overflow, overrun,
  unfinished, skip_blank, strip_one, strip_end, expand, add_token, with_args, tokenize_from,
  tokenize_loop, tokenize,
}
use quake2world.Console.Tokens.Sizes.{
  Within, here, skip_blank-Within, PlaceWithin, ParsedWithin, Within-trans, Parsed-mono,
  parse_token-ParsedWithin,
}

abbrev pub AllShort : List (List ℕ) → Type 0
AllShort [] = Unit
AllShort (t ∷ l) = (length t < max_token_chars) × AllShort l

-- The arguments fit `cmd_args_t`, with a NUL behind each string.
pub record FitsArrays (a : Args) : Type 0 where
  pub count : length a.argv ≤ max_string_tokens
  pub short : AllShort a.argv
  pub args : length a.args < max_string_chars

abbrev pub TokenizedFits : List ℕ → Tokenized → Type 0
TokenizedFits text (tokens a) = FitsArrays a
TokenizedFits text overflow = has_byte quote text ≡ true
TokenizedFits text overrun = has_byte quote text ≡ true
TokenizedFits text unfinished = ⊥

strip_one-le : (c : ℕ) (s : List ℕ) → length (strip_one c s) ≤ suc (length s)
strip_one-le c [] = elim (Bool-cases (is_white c)) [
  | inl e ↦ rw (e) (omega arith)
  | inr e ↦ rw (e) (omega arith)
]
strip_one-le c (x ∷ s) = omega arith

strip_end-le : (s : List ℕ) → length (strip_end s) ≤ length s
unfolding strip_end
strip_end-le [] = omega arith
strip_end-le (c ∷ s) = omega (arith, strip_one-le c (strip_end s), strip_end-le s)

AllShort-append :
    (l : List (List ℕ)) (t : List ℕ)
    → AllShort l
    → length t < max_token_chars
    → AllShort (l ++ (t ∷ []))
AllShort-append [] t h k = (k, tt)
AllShort-append (u ∷ l) t (p, h) k = (p, AllShort-append l t h k)

module _ (variable : List ℕ → List ℕ) (text : List ℕ) (small : length text < max_string_chars) where
  abbrev GoesOn : ℕ → (Args → Place → Tokenized) → Type 0
  GoesOn n next =
      (a : Args) (p : Place)
      → FitsArrays a
      → length a.argv ≡ n
      → PlaceWithin text p
      → TokenizedFits text (next a p)

  add_token-Fits :
      (next : Args → Place → Tokenized) (a : Args) (p : Parsed)
      → GoesOn (suc (length a.argv)) next
      → FitsArrays a
      → length a.argv < max_string_tokens
      → ParsedWithin text p
      → TokenizedFits text (add_token variable next a p)
  unfolding add_token
  add_token-Fits next a token_overflow g f n h = h
  add_token-Fits next a (token [] p) g f n h = f
  add_token-Fits next a (token (c ∷ t) p) g f n h =
      let u = take (max_token_chars - 1) (expand variable a.argv (c ∷ t)) in
      let short : length u < max_token_chars =
        omega (arith, length-take (max_token_chars - 1) (expand variable a.argv (c ∷ t))) in
      let size = length-append a.argv (u ∷ []) in
      g (record a { argv = a.argv ++ (u ∷ []) }) p
        (record {
          count = omega (arith, size, n);
          short = AllShort-append a.argv u f.short short;
          args = f.args;
        })
        (omega (arith, size)) h

  with_args-Fits :
      (a : Args) (s : List ℕ)
      → length s ≤ length text
      → FitsArrays a
      → FitsArrays (with_args variable a s)
  unfolding with_args
  with_args-Fits a s h f = elim (Bool-cases (length a.argv == 1)) [
    | inl e ↦ record {
      count = f.count;
      short = f.short;
      args =
          subst (λ l. length l < max_string_chars) (sym (if_true (strip_end s) a.args e))
            (omega (arith, strip_end-le s, h, small));
    }
    | inr e ↦ record {
      count = f.count;
      short = f.short;
      args =
          subst (λ l. length l < max_string_chars) (sym (if_false (strip_end s) a.args e)) f.args;
    }
  ]

  tokenize_from-Fits :
      (next : Args → Place → Tokenized) (a : Args) (s : List ℕ)
      → GoesOn (suc (length a.argv)) next
      → FitsArrays a
      → length a.argv < max_string_tokens
      → Within s text
      → TokenizedFits text (tokenize_from variable next a s)
  unfolding tokenize_from with_args
  tokenize_from-Fits next a [] g f n w = f
  tokenize_from-Fits next a (c ∷ s) g f n w =
      add_token-Fits next (with_args variable a (c ∷ s)) (parse_token (c ∷ s)) g
        (with_args-Fits a (c ∷ s) w.shorter f) n
        (Parsed-mono (parse_token (c ∷ s)) w (parse_token-ParsedWithin (c ∷ s)))

  tokenize_loop-Fits :
      (fuel : ℕ) (a : Args) (p : Place)
      → FitsArrays a
      → max_string_tokens < length a.argv + fuel
      → PlaceWithin text p
      → TokenizedFits text (tokenize_loop variable fuel a p)
  unfolding tokenize_loop
  tokenize_loop-Fits zero a p f n h = absurd (omega (arith, f.count, n))
  tokenize_loop-Fits (suc fuel) a null f n h = absurd h
  tokenize_loop-Fits (suc fuel) a past_nul f n h =
      elim (Bool-cases (length a.argv == max_string_tokens)) [ inl e ↦ rw (e) f | inr e ↦ rw (e) h ]
  tokenize_loop-Fits (suc fuel) a (at s) f n h =
      elim (Bool-cases (length a.argv == max_string_tokens)) [
        | inl e ↦ rw (e) f
        | inr e ↦ rw (e) (
            tokenize_from-Fits (tokenize_loop variable fuel) a (skip_blank s)
              (λ b p g m w. tokenize_loop-Fits fuel b p g (omega (arith, m, n)) w) f
              (ground (arith, f.count, e)) (Within-trans (skip_blank-Within s) h))
      ]

-- Cmd_TokenizeString ends on any text; the arguments it leaves fit their arrays, with a NUL behind each string; and it writes past a token or
-- reads past the end of the text only if there is a quotation mark in the text.
pub tokenize-Fits :
    (variable : List ℕ → List ℕ) (text : List ℕ) → TokenizedFits text (tokenize variable text)
unfolding tokenize
tokenize-Fits variable text =
    let none_yet : FitsArrays no_args = record {
      count = omega arith;
      short = tt;
      args = omega arith;
    } in
    elim (Bool-cases (leb max_string_chars (length text))) [
      | inl e ↦ rw (e) none_yet
      | inr e ↦ rw (e) (
          tokenize_loop-Fits variable text (ground (arith, e)) (suc max_string_tokens) no_args
            (at text) none_yet (omega arith) (here text))
    ]
