-- ===== src/Cliutil.antt =====
-- internal/cliutil/args.go: `ParseFlags`, which lets flags stand behind operands, and what package
-- flag then does with the words. Which values a flag takes (`Value.Set`) is a parameter, by its kind.
pub mod Items
pub mod Arranged
pub mod Parsing
mod Examples
use zerock.Prelude.{
  ℕ, Bool, true, false, ◌&&◌, ◌||◌, not, ◌==◌, Option, none, some, List, [], ◌∷◌, ◌++◌, Text, codes,
  text_eq, text_dec, if◌then◌else◌, is_empty, has_byte, length,
}
use zerock.Prelude.Strings.{trim_left}
use zerock.Prelude.Net.{cut_first}
use zerock.Prelude.Assoc
use zerock.Prelude.Assoc.{Assoc}

pub data Kind : Type 0 where
  text_flag int_flag bool_flag : Kind

-- The flags that are defined, by name.
abbrev pub FlagSet : Type 0
FlagSet = Assoc Text Kind

abbrev pub is_dash : ℕ → Bool
is_dash c = c == b'-'

-- A lone dash and what does not begin with one.
unfoldable pub is_operand : Text → Bool
is_operand [] = true
is_operand (c ∷ s) = not (is_dash c) || is_empty s

abbrev pub takes_value : Option Kind → Bool
takes_value none = false
takes_value (some text_flag) = true
takes_value (some int_flag) = true
takes_value (some bool_flag) = false

-- Whether the loop of `ParseFlags` takes the next word for the flag's value.
unfoldable pub takes_next : FlagSet → Text → Bool
takes_next fs arg =
    if has_byte b'=' (trim_left is_dash arg)
    then false
    else takes_value (Assoc.find text_dec fs (trim_left is_dash arg))

abbrev pub terminator : Text
terminator = codes "--"

-- The flags with their values, and the operands.
unfoldable pub arrange : FlagSet → List Text → List Text × List Text
arrange fs [] = ([], [])
arrange fs (arg ∷ []) =
    if text_eq arg terminator
    then ([], [])
    else if is_operand arg
    then ([], arg ∷ [])
    else (arg ∷ [], [])
arrange fs (arg ∷ v ∷ rest) =
    let after = arrange fs (v ∷ rest) in
    let skipped = arrange fs rest in
    if text_eq arg terminator
    then ([], v ∷ rest)
    else if is_operand arg
    then (after.0, arg ∷ after.1)
    else if takes_next fs arg
    then (arg ∷ v ∷ skipped.0, skipped.1)
    else (arg ∷ after.0, after.1)

-- How `FlagSet.parseOne` reads a word.
pub data Word : Type 0 where
  no_flag end_of_flags malformed : Word
  flag : Text → Option Text → Word

-- The name and the value of a flag without its dashes; an equals sign is not looked for in front.
unfoldable pub named : Text → Word
unfolding cut_first
named [] = malformed
named (c ∷ s) =
    if c == b'-' || c == b'='
    then malformed
    else elim (cut_first b'=' s) [ none ↦ flag (c ∷ s) none | some p ↦ flag (c ∷ p.0) (some p.1) ]

unfoldable pub read_word : Text → Word
unfolding named
read_word [] = no_flag
read_word (a ∷ []) = no_flag
read_word (a ∷ b ∷ s) =
    if not (is_dash a)
    then no_flag
    else if is_dash b
    then (if is_empty s then end_of_flags else named s)
    else named (b ∷ s)

-- The flags that were set, in order, and what is left.
pub record Parsed : Type 0 where
  pub settings : List (Text × Text)
  pub operands : List Text

abbrev pub set_flag : Text → Text → Option Parsed → Option Parsed
set_flag name value none = none
set_flag name value (some p) = some (record p { settings = (name, value) ∷ p.settings })

module _ (accepts : Kind → Text → Bool) where
  abbrev pub set_checked : Kind → Text → Text → Option Parsed → Option Parsed
  set_checked kind name value rest = if accepts kind value then set_flag name value rest else none

  -- A flag that needs the next word as its value takes `skipped`, any other `after`.
  unfoldable pub set_word :
      FlagSet → Text → Option Text → Option Text → Option Parsed → Option Parsed → Option Parsed
  set_word fs name value next after skipped = elim (Assoc.find text_dec fs name) [
    | none ↦ none
    | some bool_flag ↦ elim value [
      | none ↦ set_checked bool_flag name (codes "true") after
      | some v ↦ set_checked bool_flag name v after
    ]
    | some kind ↦ elim value [
      | some v ↦ set_checked kind name v after
      | none ↦ elim next [ none ↦ none | some v ↦ set_checked kind name v skipped ]
    ]
  ]

  unfoldable pub parse_word :
      FlagSet
      → Word
      → List Text
      → List Text
      → Option Text
      → Option Parsed
      → Option Parsed
      → Option Parsed
  unfolding set_word
  parse_word fs no_flag all rest next after skipped =
      some (record { settings = []; operands = all })
  parse_word fs end_of_flags all rest next after skipped =
      some (record { settings = []; operands = rest })
  parse_word fs malformed all rest next after skipped = none
  parse_word fs (flag name value) all rest next after skipped =
      set_word fs name value next after skipped

  -- `FlagSet.Parse`; `none` is an error.
  unfoldable pub parse : FlagSet → List Text → Option Parsed
  unfolding read_word parse_word
  parse fs [] = some (record { settings = []; operands = [] })
  parse fs (s ∷ []) = parse_word fs (read_word s) (s ∷ []) [] none (parse fs []) none
  parse fs (s ∷ v ∷ rest) =
      let after = parse fs (v ∷ rest) in
      let skipped = parse fs rest in
      parse_word fs (read_word s) (s ∷ v ∷ rest) (v ∷ rest) (some v) after skipped

  unfoldable pub parse_flags : FlagSet → List Text → Option Parsed
  unfolding arrange
  parse_flags fs words = parse fs ((arrange fs words).0 ++ (arrange fs words).1)

-- `ExactArgs`
unfoldable pub exact_args : Parsed → ℕ → Bool
exact_args p n = length p.operands == n
