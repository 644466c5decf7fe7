-- ===== src/Cliutil/Parsing.antt =====
-- internal/cliutil/args.go: `ParseFlags` on the words of items, and behind a terminator.
use zerock.Prelude.{
  append_assoc, append-nil, subst, ◌≢◌, ◌≡◌, refl, ◌∙◌, ap, Bool, true, Option, none, some, List,
  [], ◌∷◌, ◌++◌, Text, codes, arith,
}
use zerock.Cliutil.{
  Kind, text_flag, int_flag, bool_flag, FlagSet, takes_value, terminator, arrange, no_flag, flag,
  read_word, Parsed, set_flag, set_word, parse_word, parse, parse_flags,
}
use zerock.Cliutil.Items.{
  Item, operand, switch, attached, valued, dashed, flatten, operands_of, flags_of, settings_of,
  add_settings, Takes, IsFine, AreFine, read_word-dashed, named-plain, named-attached,
  read_word-operand,
}
use zerock.Cliutil.Arranged.{arrange-flatten, arrange-terminator}

module _ (accepts : Kind → Text → Bool) (fs : FlagSet) where
  parse_none :
      (s : Text) (ws : List Text)
      → read_word s ≡ no_flag
      → parse accepts fs (s ∷ ws) ≡ some (record { settings = []; operands = s ∷ ws })
  unfolding parse parse_word
  parse_none s [] h = rw h refl
  parse_none s (w ∷ ws) h = rw h refl

  set_word-attached :
      (kind : Kind) (name value : Text) (next : Option Text) (after skipped : Option Parsed)
      → Takes accepts fs name kind value
      → set_word accepts fs name (some value) next after skipped ≡ set_flag name value after
  unfolding set_word
  set_word-attached text_flag name value next after skipped (n, f, a) = rw (set_word, f, a) refl
  set_word-attached int_flag name value next after skipped (n, f, a) = rw (set_word, f, a) refl
  set_word-attached bool_flag name value next after skipped (n, f, a) = rw (set_word, f, a) refl

  set_word-switch :
      (name : Text) (next : Option Text) (after skipped : Option Parsed)
      → Takes accepts fs name bool_flag (codes "true")
      → set_word accepts fs name none next after skipped ≡ set_flag name (codes "true") after
  unfolding set_word
  set_word-switch name next after skipped (n, f, a) = rw (set_word, f, a) refl

  set_word-valued :
      (kind : Kind) (name value : Text) (after skipped : Option Parsed)
      → takes_value (some kind) ≡ true
      → Takes accepts fs name kind value
      → set_word accepts fs name none (some value) after skipped ≡ set_flag name value skipped
  unfolding set_word
  set_word-valued text_flag name value after skipped t (n, f, a) = rw (set_word, f, a) refl
  set_word-valued int_flag name value after skipped t (n, f, a) = rw (set_word, f, a) refl
  set_word-valued bool_flag name value after skipped t (n, f, a) = ground arith

  parse_switch :
      (s name : Text) (ws : List Text)
      → read_word s ≡ flag name none
      → Takes accepts fs name bool_flag (codes "true")
      → parse accepts fs (s ∷ ws) ≡ set_flag name (codes "true") (parse accepts fs ws)
  unfolding parse
  parse_switch s name [] h a =
      rw (h, parse_word) (set_word-switch name none (parse accepts fs []) none a)
  parse_switch s name (w ∷ ws) h a =
      rw (h, parse_word)
        (set_word-switch name (some w) (parse accepts fs (w ∷ ws)) (parse accepts fs ws) a)

  parse_attached :
      (kind : Kind) (s name value : Text) (ws : List Text)
      → read_word s ≡ flag name (some value)
      → Takes accepts fs name kind value
      → parse accepts fs (s ∷ ws) ≡ set_flag name value (parse accepts fs ws)
  unfolding parse
  parse_attached kind s name value [] h a =
      rw (h, parse_word) (set_word-attached kind name value none (parse accepts fs []) none a)
  parse_attached kind s name value (w ∷ ws) h a =
      rw (h, parse_word)
        (set_word-attached kind name value (some w) (parse accepts fs (w ∷ ws))
          (parse accepts fs ws) a)

  parse_valued :
      (kind : Kind) (s name value : Text) (ws : List Text)
      → read_word s ≡ flag name none
      → takes_value (some kind) ≡ true
      → Takes accepts fs name kind value
      → parse accepts fs (s ∷ value ∷ ws) ≡ set_flag name value (parse accepts fs ws)
  unfolding parse
  parse_valued kind s name value ws h t a =
      rw (h, parse_word)
        (set_word-valued kind name value (parse accepts fs (value ∷ ws)) (parse accepts fs ws) t a)

  parse_item :
      (i : Item) (ws : List Text)
      → IsFine accepts fs i
      → parse accepts fs (flags_of (i ∷ []) ++ ws)
        ≡ add_settings (settings_of (i ∷ [])) (parse accepts fs ws)
  parse_item (operand s) ws h = refl
  parse_item (switch d []) ws h = absurd h.0
  parse_item (switch d (c ∷ s)) ws h =
      parse_switch (dashed d (c ∷ s)) (c ∷ s) ws
        (read_word-dashed d c s h.0.0 ∙ named-plain (c ∷ s) h.0) h
  parse_item (attached d [] value) ws h = absurd h.1.0
  parse_item (attached d (c ∷ s) value) ws (kind, h) =
      parse_attached kind (dashed d (c ∷ s ++ b'=' ∷ value)) (c ∷ s) value ws
        (read_word-dashed d c (s ++ b'=' ∷ value) h.0.0 ∙ named-attached (c ∷ s) value h.0) h
  parse_item (valued d [] value) ws (kind, t, h) = absurd h.0
  parse_item (valued d (c ∷ s) value) ws (kind, t, h) =
      parse_valued kind (dashed d (c ∷ s)) (c ∷ s) value ws
        (read_word-dashed d c s h.0.0 ∙ named-plain (c ∷ s) h.0) t h

  parse-flags_of :
      (is : List Item) (ws : List Text)
      → AreFine accepts fs is
      → parse accepts fs (flags_of is ++ ws) ≡ add_settings (settings_of is) (parse accepts fs ws)
  parse-flags_of [] ws h = refl
  parse-flags_of (operand s ∷ is) ws (h, hs) = parse-flags_of is ws hs
  parse-flags_of (switch d name ∷ is) ws (h, hs) =
      parse_item (switch d name) (flags_of is ++ ws) h
      ∙ ap (set_flag name (codes "true")) (parse-flags_of is ws hs)
  parse-flags_of (attached d name value ∷ is) ws (h, hs) =
      parse_item (attached d name value) (flags_of is ++ ws) h
      ∙ ap (set_flag name value) (parse-flags_of is ws hs)
  parse-flags_of (valued d name value ∷ is) ws (h, hs) =
      parse_item (valued d name value) (flags_of is ++ ws) h
      ∙ ap (set_flag name value) (parse-flags_of is ws hs)

  add_settings_lem :
      (l : List (Text × Text)) (ops : List Text)
      → add_settings l (some (record { settings = []; operands = ops }))
        ≡ some (record { settings = l; operands = ops })
  add_settings_lem [] ops = refl
  add_settings_lem (s ∷ l) ops = ap (set_flag s.0 s.1) (add_settings_lem l ops)

  -- Behind an operand nothing is a flag.
  parse-operands_of :
      (is : List Item) (ws : List Text)
      → AreFine accepts fs is
      → operands_of is ≢ []
      → parse accepts fs (operands_of is ++ ws)
        ≡ some (record { settings = []; operands = operands_of is ++ ws })
  parse-operands_of [] ws h ne = absurd (ne refl)
  parse-operands_of (operand s ∷ is) ws (h, hs) ne =
      parse_none s (operands_of is ++ ws) (read_word-operand s h)
  parse-operands_of (switch d name ∷ is) ws (h, hs) ne = parse-operands_of is ws hs ne
  parse-operands_of (attached d name value ∷ is) ws (h, hs) ne = parse-operands_of is ws hs ne
  parse-operands_of (valued d name value ∷ is) ws (h, hs) ne = parse-operands_of is ws hs ne

  parse-all_operands :
      (is : List Item)
      → AreFine accepts fs is
      → parse accepts fs (operands_of is)
        ≡ some (record { settings = []; operands = operands_of is })
  parse-all_operands [] h = unfold parse in refl
  parse-all_operands (operand s ∷ is) (h, hs) =
      parse_none s (operands_of is) (read_word-operand s h)
  parse-all_operands (switch d name ∷ is) (h, hs) = parse-all_operands is hs
  parse-all_operands (attached d name value ∷ is) (h, hs) = parse-all_operands is hs
  parse-all_operands (valued d name value ∷ is) (h, hs) = parse-all_operands is hs

  parse_flags_lem :
      (is : List Item) (ws : List Text)
      → AreFine accepts fs is
      → parse_flags accepts fs (flatten is ++ ws)
        ≡ add_settings
            (settings_of is)
            (parse accepts fs ((arrange fs ws).0 ++ (operands_of is ++ (arrange fs ws).1)))
  unfolding parse_flags
  parse_flags_lem is ws h =
      let a = arrange fs ws in
      rw
        (arrange-flatten accepts fs is ws h, append_assoc (flags_of is) a.0 (operands_of is ++ a.1))
        (parse-flags_of is (a.0 ++ (operands_of is ++ a.1)) h)

  parse_flags-terminated :
      (is : List Item) (ws : List Text)
      → AreFine accepts fs is
      → parse_flags accepts fs (flatten is ++ terminator ∷ ws)
        ≡ add_settings (settings_of is) (parse accepts fs (operands_of is ++ ws))
  parse_flags-terminated is ws h =
      rw (parse_flags_lem is (terminator ∷ ws) h, arrange-terminator accepts fs ws) refl

  -- For every list of items in which each operand begins with no dash or is a lone dash, each flag is
  -- defined under a name that begins with no dash and has no equals sign, and each value is one that the flag accepts, a flag
  -- without a value being Boolean and a flag whose value is the next word not Boolean: `parse_flags`
  -- reads from the words of the items exactly their flags with their values and exactly their
  -- operands, both in order, wherever the flags stand among the operands and whatever the values look
  -- like.
  pub parse_flags-flatten :
      (is : List Item)
      → AreFine accepts fs is
      → parse_flags accepts fs (flatten is)
        ≡ some (record { settings = settings_of is; operands = operands_of is })
  unfolding arrange
  parse_flags-flatten is h =
      subst
        (λ l.
          parse_flags accepts fs l
          ≡ some (record { settings = settings_of is; operands = operands_of is }))
        (append-nil (flatten is))
        (rw (parse_flags_lem is [] h, arrange, append-nil (operands_of is), parse-all_operands is h)
          (add_settings_lem (settings_of is) (operands_of is)))

  -- Behind an operand the terminator does what it is for.
  pub parse_flags-terminator :
      (is : List Item) (ws : List Text)
      → AreFine accepts fs is
      → operands_of is ≢ []
      → parse_flags accepts fs (flatten is ++ terminator ∷ ws)
        ≡ some (record { settings = settings_of is; operands = operands_of is ++ ws })
  parse_flags-terminator is ws h ne =
      rw (parse_flags-terminated is ws h, parse-operands_of is ws h ne)
        (add_settings_lem (settings_of is) (operands_of is ++ ws))

  -- For flags only, each defined under a name that begins with no dash and has no equals sign, each
  -- with a value that it accepts, followed by the terminator `--` and any words: `parse_flags` sets
  -- the flags and then parses the words as package flag does where no terminator stands before them:
  -- it reads flags, or errors, up to the first operand among the words.
  pub parse_flags-terminator_lost :
      (is : List Item) (ws : List Text)
      → AreFine accepts fs is
      → operands_of is ≡ []
      → parse_flags accepts fs (flatten is ++ terminator ∷ ws)
        ≡ add_settings (settings_of is) (parse accepts fs ws)
  parse_flags-terminator_lost is ws h e = rw (parse_flags-terminated is ws h, e) refl
