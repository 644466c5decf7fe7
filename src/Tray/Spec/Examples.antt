-- ===== src/Tray/Spec/Examples.antt =====
-- The theorems on the lines that ask for tunnels at concrete tunnels, and tests.
use zerock.Prelude.Words.{fields, fields_loop}
use zerock.Prelude.{
  ◌≡◌, refl, some, [], ◌∷◌, Text, codes, text_dec, ℕ_discrete, pos, to_lower, trim_space, has_byte,
}
use zerock.Prelude.Strings.{trim, trim_left, lower_byte}
use zerock.Prelude.Net.{atoi, decimal, cut_first, cut_last, unsigned, digits}
use zerock.Prelude.Net.Laws.{atoi-decimal}
use zerock.Prelude.Assoc
use zerock.Prelude.Assoc.{Assoc}
use zerock.Client.Profiles.{SavedTunnel, args}
use zerock.Cliutil.{
  parse_flags, arrange, is_operand, takes_next, parse, read_word, named, set_word, parse_word,
}
use zerock.Tray.Spec.{
  parse_spec, parse_spec_args, spec_parsed, set_all, set_one, take_kind, take_sub, spec_with,
  read_port, after_colon, spec_of, name_of, unique_loop, unique_name,
}
use zerock.Tray.Spec.Fixtures.{read_bool, database, database-IsSaved}
use zerock.Tray.Spec.Lines.{parse_spec-args}
use zerock.Tray.Spec.Unique.{Fresh, unique_name-Fresh}

parse_spec-args_example : parse_spec atoi read_bool (args database) ≡ some (codes "db", database)
parse_spec-args_example =
    parse_spec-args atoi read_bool database database-IsSaved (atoi-decimal 7000)

abbrev taken : Assoc Text SavedTunnel
taken = (codes "db", database) ∷ (codes "db-2", database) ∷ []

unique_name-Fresh_example : Fresh (codes "db") taken (unique_name (codes "db") taken)
unique_name-Fresh_example = unique_name-Fresh (codes "db") taken

third : unique_name (codes "db") taken ≡ some (codes "db-3")
unfolding unique_name unique_loop Assoc.find text_dec decimal
third = refl

short :
    parse_spec atoi read_bool (codes " 3000  Api-x ")
    ≡ some (
      codes "api-x",
      record database {
        type = codes "http";
        port = pos 3000;
        host = [];
        subdomain = codes "api-x";
        remote_port = pos 0;
      },
    )
unfolding parse_spec parse_spec_args spec_parsed fields fields_loop parse_flags arrange is_operand
    takes_next trim_left parse read_word named set_word parse_word cut_first cut_last atoi unsigned
    digits set_all set_one take_kind take_sub spec_with read_port after_colon spec_of name_of
    to_lower lower_byte trim_space trim text_dec ℕ_discrete has_byte decimal
short = refl
