-- ===== src/Cliutil/Arranged.antt =====
-- internal/cliutil/args.go: how the loop of `ParseFlags` tells flags from operands.
use zerock.Prelude.{
  ℕ, ◌≡◌, refl, ◌∙◌, Bool, true, false, some, List, [], ◌∷◌, ◌++◌, Text, text_eq, text_dec, arith,
  has_byte,
}
use zerock.Prelude.Assoc
use zerock.Cliutil.{
  Kind, bool_flag, FlagSet, is_dash, is_operand, takes_value, takes_next, terminator, arrange,
}
use zerock.Cliutil.Items.{
  Item, operand, switch, attached, valued, dashed, words, flatten, operands_of, flags_of, IsName,
  IsFine, AreFine, trim-dashed, dashed-flag, has_byte-append,
}

module _ (accepts : Kind → Text → Bool) (fs : FlagSet) where
  arrange_operand :
      (s : Text) (ws : List Text)
      → is_operand s ≡ true
      → arrange fs (s ∷ ws) ≡ ((arrange fs ws).0, s ∷ (arrange fs ws).1)
  unfolding arrange is_operand text_dec
  arrange_operand [] [] h = refl
  arrange_operand s [] h = ground arith
  arrange_operand s (w ∷ ws) h = ground arith

  pub arrange-terminator : (ws : List Text) → arrange fs (terminator ∷ ws) ≡ ([], ws)
  unfolding arrange text_dec
  arrange-terminator [] = refl
  arrange-terminator (w ∷ ws) = refl

  arrange_flag :
      (s : Text) (ws : List Text)
      → text_eq s terminator ≡ false
      → is_operand s ≡ false
      → takes_next fs s ≡ false
      → arrange fs (s ∷ ws) ≡ (s ∷ (arrange fs ws).0, (arrange fs ws).1)
  unfolding arrange
  arrange_flag s [] t o n = ground arith
  arrange_flag s (w ∷ ws) t o n = ground arith

  arrange_valued :
      (s v : Text) (ws : List Text)
      → text_eq s terminator ≡ false
      → is_operand s ≡ false
      → takes_next fs s ≡ true
      → arrange fs (s ∷ v ∷ ws) ≡ (s ∷ v ∷ (arrange fs ws).0, (arrange fs ws).1)
  unfolding arrange
  arrange_valued s v ws t o n = ground arith

  takes_next-dashed :
      (kind : Kind) (d : Bool) (c : ℕ) (s : Text)
      → IsName (c ∷ s)
      → Assoc.find text_dec fs (c ∷ s) ≡ some kind
      → takes_next fs (dashed d (c ∷ s)) ≡ takes_value (some kind)
  unfolding takes_next has_byte
  takes_next-dashed kind d c s (n, e, h) f = rw (trim-dashed d c s n, f) (ground arith)

  takes_next-attached :
      (d : Bool) (c : ℕ) (s value : Text)
      → is_dash c ≡ false
      → takes_next fs (dashed d (c ∷ s ++ b'=' ∷ value)) ≡ false
  unfolding takes_next
  takes_next-attached d c s value n =
      rw (trim-dashed d c (s ++ b'=' ∷ value) n, has_byte-append b'=' (c ∷ s) value) refl

  -- What the words of one item are taken for.
  arrange_item :
      (i : Item) (ws : List Text)
      → IsFine accepts fs i
      → arrange fs (words i ++ ws)
        ≡ (flags_of (i ∷ []) ++ (arrange fs ws).0, operands_of (i ∷ []) ++ (arrange fs ws).1)
  arrange_item (operand s) ws h = arrange_operand s ws h
  arrange_item (switch d []) ws h = absurd h.0
  arrange_item (switch d (c ∷ s)) ws (n, f, a) =
      let no = dashed-flag d c s n.0 in
      arrange_flag (dashed d (c ∷ s)) ws no.0 no.1 (takes_next-dashed bool_flag d c s n f)
  arrange_item (attached d [] value) ws h = absurd h.1.0
  arrange_item (attached d (c ∷ s) value) ws (kind, h) =
      let no = dashed-flag d c (s ++ b'=' ∷ value) h.0.0 in
      arrange_flag (dashed d (c ∷ s ++ b'=' ∷ value)) ws no.0 no.1
        (takes_next-attached d c s value h.0.0)
  arrange_item (valued d [] value) ws (kind, t, h) = absurd h.0
  arrange_item (valued d (c ∷ s) value) ws (kind, t, h) =
      let no = dashed-flag d c s h.0.0 in
      arrange_valued (dashed d (c ∷ s)) value ws no.0 no.1
        (takes_next-dashed kind d c s h.0 h.1 ∙ t)

  -- Flags and operands are told apart, in their orders.
  pub arrange-flatten :
      (is : List Item) (ws : List Text)
      → AreFine accepts fs is
      → arrange fs (flatten is ++ ws)
        ≡ (flags_of is ++ (arrange fs ws).0, operands_of is ++ (arrange fs ws).1)
  arrange-flatten [] ws h = refl
  arrange-flatten (operand s ∷ is) ws (h, hs) =
      arrange_item (operand s) (flatten is ++ ws) h ∙ rw (arrange-flatten is ws hs) refl
  arrange-flatten (switch d name ∷ is) ws (h, hs) =
      arrange_item (switch d name) (flatten is ++ ws) h ∙ rw (arrange-flatten is ws hs) refl
  arrange-flatten (attached d name value ∷ is) ws (h, hs) =
      arrange_item (attached d name value) (flatten is ++ ws) h ∙ rw (arrange-flatten is ws hs) refl
  arrange-flatten (valued d name value ∷ is) ws (h, hs) =
      arrange_item (valued d name value) (flatten is ++ ws) h ∙ rw (arrange-flatten is ws hs) refl
