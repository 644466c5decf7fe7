-- ===== src/Cliutil/Examples.antt =====
-- The theorems on command lines at concrete words, and tests.
use zerock.Prelude.{
  ◌≡◌, refl, Bool, true, false, not, none, some, List, [], ◌∷◌, Text, codes, is_empty, text_dec,
  has_byte,
}
use zerock.Prelude.Strings.{trim_left}
use zerock.Prelude.Net.{cut_first}
use zerock.Prelude.Assoc
use zerock.Cliutil.{
  Kind, text_flag, int_flag, bool_flag, FlagSet, is_operand, takes_next, terminator, arrange,
  read_word, named, set_word, parse_word, parse, parse_flags,
}
use zerock.Cliutil.Items.{Item, operand, switch, attached, valued, flatten, settings_of}
use zerock.Cliutil.Parsing.{parse_flags-flatten, parse_flags-terminator_lost}

abbrev accepts : Kind → Text → Bool
accepts kind value = not (is_empty value)

abbrev flags : FlagSet
flags = (codes "sub", text_flag) ∷ (codes "port", int_flag) ∷ (codes "json", bool_flag) ∷ []

-- zerock http 3000 --sub -x -json --port=80
abbrev items : List Item
items =
    operand (codes "http")
    ∷ operand (codes "3000")
    ∷ valued true (codes "sub") (codes "-x")
    ∷ switch false (codes "json")
    ∷ attached true (codes "port") (codes "80")
    ∷ []

parse_flags-flatten_example :
    parse_flags accepts flags (flatten items)
    ≡ some (record { settings = settings_of items; operands = codes "http" ∷ codes "3000" ∷ [] })
unfolding is_operand has_byte text_dec Assoc.find
parse_flags-flatten_example = parse_flags-flatten accepts flags items (
  refl,
  (
    refl,
    (
      (text_flag, refl, ((refl, refl, refl), refl, refl)),
      (((refl, refl, refl), refl, refl), ((int_flag, ((refl, refl, refl), refl, refl)), tt)),
    ),
  ),
)

parse_flags-terminator_lost_example :
    parse_flags accepts flags (codes "-json" ∷ terminator ∷ codes "--sub" ∷ codes "x" ∷ [])
    ≡ some (record {
      settings = (codes "json", codes "true") ∷ (codes "sub", codes "x") ∷ [];
      operands = [];
    })
unfolding has_byte text_dec Assoc.find parse read_word named cut_first set_word parse_word
parse_flags-terminator_lost_example =
    parse_flags-terminator_lost accepts flags (switch false (codes "json") ∷ [])
      (codes "--sub" ∷ codes "x" ∷ []) (((refl, refl, refl), refl, refl), tt) refl

-- Words as they are typed.
typed :
    parse_flags accepts flags (codes "http" ∷ codes "3000" ∷ codes "--sub" ∷ codes "api-x" ∷ [])
    ≡ some (record {
      settings = (codes "sub", codes "api-x") ∷ [];
      operands = codes "http" ∷ codes "3000" ∷ [];
    })
unfolding parse_flags arrange is_operand takes_next trim_left has_byte text_dec Assoc.find parse
    read_word named cut_first set_word parse_word
typed = refl

unknown : parse_flags accepts flags (codes "http" ∷ codes "--nope" ∷ []) ≡ none
unfolding parse_flags arrange is_operand takes_next trim_left has_byte text_dec Assoc.find parse
    read_word named cut_first set_word parse_word
unknown = refl
