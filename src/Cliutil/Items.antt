-- ===== src/Cliutil/Items.antt =====
-- Command lines as lists of items, and what `ParseFlags` makes of their words.
use zerock.Prelude.{
  ℕ, ◌==◌, ◌≡◌, refl, Bool, true, false, Option, none, some, List, [], ◌∷◌, ◌++◌, Text, codes,
  text_eq, text_dec, arith, has_byte,
}
use zerock.Prelude.Strings.{trim_left}
use zerock.Prelude.Net.{cut_first}
use zerock.Prelude.Assoc
use zerock.Cliutil.{
  Kind, bool_flag, FlagSet, is_dash, is_operand, takes_value, terminator, no_flag, flag, named,
  read_word, Parsed, set_flag,
}

-- An operand, `-name`, `-name=value` or `-name value`; the Boolean tells whether the flag has two
-- dashes.
pub data Item : Type 0 where
  operand : Text → Item
  switch : Bool → Text → Item
  attached : Bool → Text → Text → Item
  valued : Bool → Text → Text → Item

abbrev pub dashed : Bool → Text → Text
dashed true name = b'-' ∷ b'-' ∷ name
dashed false name = b'-' ∷ name

abbrev pub words : Item → List Text
words (operand s) = s ∷ []
words (switch d name) = dashed d name ∷ []
words (attached d name value) = dashed d (name ++ b'=' ∷ value) ∷ []
words (valued d name value) = dashed d name ∷ value ∷ []

abbrev pub flatten : List Item → List Text
flatten [] = []
flatten (i ∷ is) = words i ++ flatten is

abbrev pub operands_of : List Item → List Text
operands_of [] = []
operands_of (operand s ∷ is) = s ∷ operands_of is
operands_of (switch d name ∷ is) = operands_of is
operands_of (attached d name value ∷ is) = operands_of is
operands_of (valued d name value ∷ is) = operands_of is

abbrev pub flags_of : List Item → List Text
flags_of [] = []
flags_of (operand s ∷ is) = flags_of is
flags_of (switch d name ∷ is) = dashed d name ∷ flags_of is
flags_of (attached d name value ∷ is) = dashed d (name ++ b'=' ∷ value) ∷ flags_of is
flags_of (valued d name value ∷ is) = dashed d name ∷ value ∷ flags_of is

abbrev pub settings_of : List Item → List (Text × Text)
settings_of [] = []
settings_of (operand s ∷ is) = settings_of is
settings_of (switch d name ∷ is) = (name, codes "true") ∷ settings_of is
settings_of (attached d name value ∷ is) = (name, value) ∷ settings_of is
settings_of (valued d name value ∷ is) = (name, value) ∷ settings_of is

-- The flags that were set before the rest of the words.
abbrev pub add_settings : List (Text × Text) → Option Parsed → Option Parsed
add_settings [] rest = rest
add_settings ((name, value) ∷ l) rest = set_flag name value (add_settings l rest)

-- The name of a flag: no dash in front, no equals sign anywhere.
abbrev pub IsName : Text → Type 0
IsName [] = ⊥
IsName (c ∷ s) = (is_dash c ≡ false) × ((c == b'=') ≡ false) × (has_byte b'=' s ≡ false)

module _ (accepts : Kind → Text → Bool) (fs : FlagSet) where
  -- The flag is defined and accepts the value.
  abbrev pub Takes : Text → Kind → Text → Type 0
  Takes name kind value =
      IsName name × (Assoc.find text_dec fs name ≡ some kind) × (accepts kind value ≡ true)

  abbrev pub IsFine : Item → Type 0
  IsFine (operand s) = is_operand s ≡ true
  IsFine (switch d name) = Takes name bool_flag (codes "true")
  IsFine (attached d name value) = (kind : Kind) × Takes name kind value
  IsFine (valued d name value) =
      (kind : Kind) × (takes_value (some kind) ≡ true) × Takes name kind value

  abbrev pub AreFine : List Item → Type 0
  AreFine [] = Unit
  AreFine (i ∷ is) = IsFine i × AreFine is

pub trim-dashed :
    (d : Bool) (c : ℕ) (s : Text) → is_dash c ≡ false → trim_left is_dash (dashed d (c ∷ s)) ≡ c ∷ s
unfolding trim_left
trim-dashed true c s h = ground arith
trim-dashed false c s h = ground arith

-- The word of a flag is neither the terminator nor an operand.
pub dashed-flag :
    (d : Bool) (c : ℕ) (s : Text)
    → is_dash c ≡ false
    → (text_eq (dashed d (c ∷ s)) terminator ≡ false) × (is_operand (dashed d (c ∷ s)) ≡ false)
unfolding is_operand text_dec
dashed-flag true c s h = ground arith
dashed-flag false c s h = ground arith

pub has_byte-append : (b : ℕ) (s t : Text) → has_byte b (s ++ b ∷ t) ≡ true
unfolding has_byte
has_byte-append b [] t = ground arith
has_byte-append b (c ∷ s) t = ground (arith, has_byte-append b s t)

cut_first-none : (b : ℕ) (s : Text) → has_byte b s ≡ false → cut_first b s ≡ none
unfolding cut_first has_byte
cut_first-none b [] h = refl
cut_first-none b (c ∷ s) h = ground (arith, cut_first-none b s)

cut_first-append :
    (b : ℕ) (s t : Text) → has_byte b s ≡ false → cut_first b (s ++ b ∷ t) ≡ some (s, t)
unfolding cut_first has_byte
cut_first-append b [] t h = ground arith
cut_first-append b (c ∷ s) t h = ground (arith, cut_first-append b s t)

pub read_word-dashed :
    (d : Bool) (c : ℕ) (s : Text) → is_dash c ≡ false → read_word (dashed d (c ∷ s)) ≡ named (c ∷ s)
unfolding read_word
read_word-dashed true c s h = ground arith
read_word-dashed false c s h = ground arith

pub named-plain : (name : Text) → IsName name → named name ≡ flag name none
unfolding named
named-plain [] h = absurd h
named-plain (c ∷ s) (d, e, h) = rw (cut_first-none b'=' s h) (ground arith)

pub named-attached :
    (name value : Text) → IsName name → named (name ++ b'=' ∷ value) ≡ flag name (some value)
unfolding named
named-attached [] value h = absurd h
named-attached (c ∷ s) value (d, e, h) = rw (cut_first-append b'=' s value h) (ground arith)

pub read_word-operand : (s : Text) → is_operand s ≡ true → read_word s ≡ no_flag
unfolding is_operand read_word
read_word-operand [] h = refl
read_word-operand (a ∷ []) h = refl
read_word-operand (a ∷ b ∷ s) h = ground arith
