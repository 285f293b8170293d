-- ===== src/Console/Tokens/RoundTrip.antt =====
-- A command line that is printed is tokenized to the same tokens by Cmd_TokenizeString of src/cmd.c.
use quake2world.Prelude.{
  ℕ, zero, suc, ◌+◌, ◌-◌, ◌≤◌, ◌<◌, ◌≡◌, refl, sym, ap, ◌∙◌, subst, Bool-cases, inl, inr, true,
  false, not, ◌&&◌, List, [], ◌∷◌, ◌++◌, append-nil, append_assoc, arith, length, length-append,
  leb, ◌==◌, if◌then◌else◌, if_false, take,
}
use quake2world.Console.Tokens.{
  dollar, max_token_chars, max_string_tokens, max_string_chars, Place, at, token, parse_token, Args,
  no_args, Tokenized, tokens, skip_blank, strip_end, is_alias, expand, add_token, with_args,
  tokenize_from, tokenize_loop, tokenize,
}
use quake2world.Console.Tokens.Printing.{
  Item, word, quoted, text, show, texts, spaced, print_items, is_item, are_items, parse_token-item,
  first_char, shown_rest, item-Starts, skip_blank-item, args_of, strip_end-black, print_items-black,
  take-all,
}

module _ (variable : List ℕ → List ℕ) where
  taken :
      (c : ℕ) (t : List ℕ) (argv : List (List ℕ))
      → (c == dollar) ≡ false
      → leb max_token_chars (length (c ∷ t)) ≡ false
      → take (max_token_chars - 1) (expand variable argv (c ∷ t)) ≡ c ∷ t
  unfolding expand
  taken c t argv d h =
      let e : (c == dollar && not (is_alias argv)) ≡ false = ground (arith, d) in
      ap (λ s. take (max_token_chars - 1) s) (if_false (variable t) (c ∷ t) e)
      ∙ take-all (max_token_chars - 1) (c ∷ t) (ground (arith, h))

  add_token-item :
      (next : Args → Place → Tokenized) (a : Args) (i : Item) (rest : Place)
      → is_item i ≡ true
      → add_token variable next a (token (text i) rest)
        ≡ next (record a { argv = a.argv ++ (text i ∷ []) }) rest
  unfolding add_token
  add_token-item next a (word []) rest h = absurd (cc h)
  add_token-item next a (quoted []) rest h = absurd (cc h)
  add_token-item next a (word (c ∷ t)) rest h =
      ap (λ s. next (record a { argv = a.argv ++ (s ∷ []) }) rest)
        (taken c t a.argv (ground (arith, h)) (ground (arith, h)))
  add_token-item next a (quoted (c ∷ t)) rest h =
      ap (λ s. next (record a { argv = a.argv ++ (s ∷ []) }) rest)
        (taken c t a.argv (ground (arith, h)) (ground (arith, h)))

  from_black :
      (next : Args → Place → Tokenized) (a : Args) (c : ℕ) (r s : List ℕ)
      → s ≡ c ∷ r
      → tokenize_from variable next a s
        ≡ add_token variable next (with_args variable a s) (parse_token s)
  unfolding tokenize_from
  from_black next a c r s e =
      subst
        (λ s.
          tokenize_from variable next a s
          ≡ add_token variable next (with_args variable a s) (parse_token s))
        (sym e) refl

  abbrev with_token : Args → Item → List ℕ → Args
  with_token a i s = record {
    argv = a.argv ++ (text i ∷ []);
    args = if length a.argv == 1 then strip_end s else a.args;
  }

  one_token :
      (next : Args → Place → Tokenized) (a : Args) (i : Item) (l : List Item)
      → is_item i ≡ true
      → tokenize_from variable next a (skip_blank (show i ++ spaced l))
        ≡ next (with_token a i (show i ++ spaced l)) (at (spaced l))
  unfolding with_args
  one_token next a i l h =
      let s = show i ++ spaced l in
      ap (tokenize_from variable next a) (skip_blank-item i (spaced l) h)
      ∙ from_black next a (first_char i) (shown_rest i (spaced l)) s
          (item-Starts i (spaced l) h).splits
      ∙ ap (add_token variable next (with_args variable a s)) (parse_token-item i l h)
      ∙ add_token-item next (with_args variable a s) i (at (spaced l)) h

  -- The first item of a line is in front, the others are behind a space.
  first_turn :
      (fuel : ℕ) (a : Args) (i : Item) (l : List Item)
      → is_item i ≡ true
      → length a.argv < max_string_tokens
      → tokenize_loop variable (suc fuel) a (at (show i ++ spaced l))
        ≡ tokenize_loop variable fuel (with_token a i (show i ++ spaced l)) (at (spaced l))
  unfolding tokenize_loop
  first_turn fuel a i l h n =
      let few : (length a.argv == max_string_tokens) ≡ false = ground (arith, n) in
      if_false (tokens a) _ few ∙ one_token (tokenize_loop variable fuel) a i l h

  later_turn :
      (fuel : ℕ) (a : Args) (i : Item) (l : List Item)
      → is_item i ≡ true
      → length a.argv < max_string_tokens
      → tokenize_loop variable (suc fuel) a (at (spaced (i ∷ l)))
        ≡ tokenize_loop variable fuel (with_token a i (show i ++ spaced l)) (at (spaced l))
  unfolding tokenize_loop skip_blank
  later_turn fuel a i l h n =
      let few : (length a.argv == max_string_tokens) ≡ false = ground (arith, n) in
      if_false (tokens a) _ few ∙ one_token (tokenize_loop variable fuel) a i l h

  end_turn : (fuel : ℕ) (a : Args) → tokenize_loop variable (suc fuel) a (at []) ≡ tokens a
  unfolding tokenize_loop tokenize_from skip_blank
  end_turn fuel a = elim (Bool-cases (length a.argv == max_string_tokens)) [
    | inl e ↦ rw (e) refl
    | inr e ↦ rw (e) refl
  ]

  later_tokens :
      (fuel : ℕ) (a : Args) (l : List Item)
      → are_items l ≡ true
      → length l < fuel
      → 2 ≤ length a.argv
      → length a.argv + length l ≤ max_string_tokens
      → tokenize_loop variable fuel a (at (spaced l))
        ≡ tokens (record a { argv = a.argv ++ texts l })
  later_tokens zero a l h f n m = absurd (omega (arith, f))
  later_tokens (suc fuel) a [] h f n m =
      end_turn fuel a ∙ ap (λ v. tokens (record a { argv = v })) (sym (append-nil a.argv))
  later_tokens (suc fuel) a (i ∷ l) h f n m =
      let none_left : (length a.argv == 1) ≡ false = ground (arith, n) in
      let size = length-append a.argv (text i ∷ []) in
      later_turn fuel a i l (ground (arith, h)) (omega (arith, m))
      ∙ ap
          (λ x.
            tokenize_loop variable fuel (record { argv = a.argv ++ (text i ∷ []); args = x })
              (at (spaced l)))
          (if_false (strip_end (show i ++ spaced l)) a.args none_left)
      ∙ later_tokens fuel (record { argv = a.argv ++ (text i ∷ []); args = a.args }) l
          (ground (arith, h)) (omega (arith, f)) (omega (arith, size, n)) (omega (arith, size, m))
      ∙ ap (λ v. tokens (record { argv = v; args = a.args }))
          (append_assoc a.argv (text i ∷ []) (texts l))

  -- A command line of items, which may be words or be quoted, none of them empty and none a variable, is tokenized to their texts,
  -- with the items after the first as they are in `args`, if it is not too long and has no more than MAX_STRING_TOKENS items.
  pub tokenize-print_items :
      (l : List Item)
      → are_items l ≡ true
      → length l ≤ max_string_tokens
      → length (print_items l) < max_string_chars
      → tokenize variable (print_items l) ≡ tokens (record { argv = texts l; args = args_of l })
  unfolding tokenize
  tokenize-print_items [] h n m = end_turn max_string_tokens no_args
  tokenize-print_items (i ∷ []) h n m =
      let short : leb max_string_chars (length (print_items (i ∷ []))) ≡ false =
        ground (arith, m) in
      if_false (tokens no_args) _ short
      ∙ first_turn max_string_tokens no_args i [] (ground (arith, h)) (omega arith)
      ∙ end_turn 127 (record { argv = text i ∷ []; args = [] })
  tokenize-print_items (i ∷ j ∷ l) h n m =
      let start : Args = record { argv = text i ∷ []; args = [] } in
      let short : leb max_string_chars (length (print_items (i ∷ j ∷ l))) ≡ false =
        ground (arith, m) in
      if_false (tokens no_args) _ short
      ∙ first_turn max_string_tokens no_args i (j ∷ l) (ground (arith, h)) (omega arith)
      ∙ later_turn 127 start j l (ground (arith, h)) (omega arith)
      ∙ ap
          (λ x.
            tokenize_loop variable 127 (record { argv = text i ∷ text j ∷ []; args = x })
              (at (spaced l)))
          (strip_end-black (print_items (j ∷ l)) (print_items-black j l (ground (arith, h))))
      ∙ later_tokens 127 (record { argv = text i ∷ text j ∷ []; args = print_items (j ∷ l) }) l
          (ground (arith, h)) (omega (arith, n)) (omega arith) (omega (arith, n))
