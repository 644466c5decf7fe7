-- ===== src/Clientcli/Examples.antt =====
-- The theorem on the commands at a concrete tunnel, and tests.
use mathlib.Core.Option
use zerock.Prelude.Words.{fields}
use zerock.Prelude.{◌≡◌, refl, none, some, [], ◌∷◌, codes, has_byte, text_dec, ℕ_discrete}
use zerock.Prelude.Strings.{trim_left}
use zerock.Prelude.Net.{atoi, cut_first, cut_last, unsigned, digits}
use zerock.Prelude.Net.Laws.{atoi-decimal}
use zerock.Prelude.Assoc
use zerock.Client.Profiles.{zero_profile, args}
use zerock.Client.Agent.{new_agent}
use zerock.Cliutil.{
  parse_flags, exact_args, arrange, is_operand, takes_next, parse, read_word, named, set_word,
  parse_word,
}
use zerock.Tray.Manager.{agent_options}
use zerock.Tray.Spec.{read_port, after_colon}
use zerock.Tray.Spec.Fixtures.{read_bool, database, database-IsSaved}
use zerock.Clientcli.{
  request_options, run_verb, run_http, run_tcp, http_parsed, tcp_parsed, assign_all, assign,
  parse_port_arg,
}
use zerock.Clientcli.Opens.{run_verb-args}

run_verb-args_example :
    Option.map
      (λ req. new_agent (request_options zero_profile req))
      (run_verb atoi read_bool (fields (args database)))
    ≡ some (new_agent (agent_options zero_profile database))
run_verb-args_example =
    run_verb-args atoi read_bool zero_profile database database-IsSaved (atoi-decimal 7000)

-- Credentials are for HTTP only.
refuses_auth :
    run_verb atoi read_bool (codes "tcp" ∷ codes "5432" ∷ codes "--auth" ∷ codes "a:b" ∷ []) ≡ none
unfolding run_verb run_http run_tcp http_parsed tcp_parsed assign_all assign parse_port_arg
    parse_flags exact_args arrange is_operand takes_next trim_left parse read_word named set_word
    parse_word cut_first cut_last atoi unsigned digits read_port after_colon has_byte text_dec
    ℕ_discrete Assoc.find
refuses_auth = refl
