-- ===== src/Clientcli/Opens.antt =====
-- internal/clientcli/tunnel.go with `SavedTunnel.Args` of internal/client/config.go: the command line
-- of a saved tunnel opens the tunnel that the tray would open.
use mathlib.Core.Option
use zerock.Prelude.{
  subst, ◌≡◌, ◌⊎◌, inl, inr, refl, sym, ap, Bool, true, false, ◌&&◌, not, Option, some, List, [],
  ◌∷◌, Text, codes, text_eq, text_dec, ℕ_discrete, if◌then◌else◌, is_empty, has_byte, arith, ℤ, pos,
}
use zerock.Prelude.Int.{eqb_ℤ_iff, eqb_ℤ}
use zerock.Prelude.Net.{decimal}
use zerock.Prelude.Assoc
use zerock.Prelude.Words.{fields}
use zerock.Tray.Spec.Lines.{fields-args}
use zerock.Server.Tunnel.{type_http, type_tcp}
use zerock.Client.Profiles.{Profile, SavedTunnel, arg_words, args}
use zerock.Client.Agent.{new_agent}
use zerock.Cliutil.{text_flag, int_flag, parse_flags, exact_args}
use zerock.Cliutil.Items.{flatten, operands_of, settings_of, AreFine}
use zerock.Cliutil.Parsing.{parse_flags-flatten}
use zerock.Tray.Manager.{agent_options}
use zerock.Tray.Spec.{accepts}
use zerock.Tray.Spec.Arguments.{
  IsSaved, arg_words-items_of, operands-items_of, type_eq, read_port-saved,
}
use zerock.Clientcli.{
  default_vars, http_flags, tcp_flags, parse_port_arg, http_with, tcp_with, request_options,
  assign_all, http_parsed, tcp_parsed, run_http, run_tcp, run_verb,
}
use zerock.Clientcli.Variables.{vars_of, rest_of, request_of, rest_of-AreFine, vars-rest_of}

operands-rest_of : (t : SavedTunnel) → operands_of (rest_of t) ≡ decimal t.port ∷ []
operands-rest_of t = ap behind (operands-items_of t)
  where
    behind : List Text → List Text
    behind [] = []
    behind (w ∷ ws) = ws

parse_port_arg-saved :
    (t : SavedTunnel) (settings : List (Text × Text))
    → IsSaved t
    → parse_port_arg (record { settings = settings; operands = decimal t.port ∷ [] }) ≡ some t.port
unfolding parse_port_arg exact_args
parse_port_arg-saved t settings s = read_port-saved t s

no_remote_port : (t : SavedTunnel) → IsSaved t → t.type ≡ type_http → t.remote_port ≡ pos 0
no_remote_port t s e =
    (eqb_ℤ_iff t.remote_port (pos 0)).0
      (ground (arith, type_eq t.type s.type, s.remote_port, is_http))
  where
    is_http : text_eq t.type type_http ≡ true
    is_http = rw e (unfold text_dec in refl)

no_auth : (t : SavedTunnel) → IsSaved t → t.type ≡ type_tcp → is_empty t.basic_auth ≡ true
no_auth t s e = ground (arith, s.auth, not_http)
  where
    not_http : text_eq t.type type_http ≡ false
    not_http = rw e (unfold text_dec in refl)

http_with-saved :
    (t : SavedTunnel)
    → IsSaved t
    → t.type ≡ type_http
    → http_with (vars_of t) (some t.port) ≡ some (request_of t)
http_with-saved t s e =
    let passes : (not (is_empty t.basic_auth) && not (has_byte b':' t.basic_auth)) ≡ false =
      ground (arith, s.auth) in
    rw passes (λ i.
      some (record (request_of t) { type = sym e i; remote_port = sym (no_remote_port t s e) i }))

tcp_with-saved :
    (t : SavedTunnel)
    → IsSaved t
    → t.type ≡ type_tcp
    → tcp_with (vars_of t) (some t.port) ≡ some (request_of t)
tcp_with-saved t s e = λ i. some (record (request_of t) {
  type = sym e i;
  basic_auth = sym (empty t.basic_auth (no_auth t s e)) i;
})
  where
    empty : (a : Text) → is_empty a ≡ true → a ≡ []
    empty [] h = refl
    empty (c ∷ a) h = ground arith

same_agent :
    (prof : Profile) (t : SavedTunnel)
    → new_agent (request_options prof (request_of t)) ≡ new_agent (agent_options prof t)
unfolding new_agent request_options agent_options
same_agent prof t = λ i. record {
  opts = record (agent_options prof t) { local_host = twice t.host i };
  granted_sub = [];
  stop_retry = false;
}
  where
    named : Text → Text
    named h = if is_empty h then codes "127.0.0.1" else h

    twice : (h : Text) → named (named h) ≡ named h
    twice [] = refl
    twice (c ∷ h) = refl

module _ (read_int : Text → Option ℤ) (read_bool : Text → Option Bool) where
  http-AreFine :
      (t : SavedTunnel)
      → IsSaved t
      → t.type ≡ type_http
      → AreFine (accepts read_int read_bool) http_flags (rest_of t)
  unfolding has_byte Assoc.find text_dec ℕ_discrete
  http-AreFine t s e =
      rest_of-AreFine read_int read_bool http_flags t s
        (text_flag, refl, ((refl, refl, refl), refl, refl))
        (text_flag, refl, ((refl, refl, refl), refl, refl))
        (λ given. absurd (ground (arith, given, ap (λ n. eqb_ℤ n (pos 0)) (no_remote_port t s e))))
        (λ given. (text_flag, refl, ((refl, refl, refl), refl, refl)))

  tcp-AreFine :
      (t : SavedTunnel)
      → IsSaved t
      → t.type ≡ type_tcp
      → read_int (decimal t.remote_port) ≡ some t.remote_port
      → AreFine (accepts read_int read_bool) tcp_flags (rest_of t)
  unfolding has_byte Assoc.find text_dec ℕ_discrete
  tcp-AreFine t s e r =
      rest_of-AreFine read_int read_bool tcp_flags t s
        (text_flag, refl, ((refl, refl, refl), refl, refl))
        (text_flag, refl, ((refl, refl, refl), refl, refl))
        (λ given. (int_flag, refl, ((refl, refl, refl), refl, rw (accepts, r) refl)))
        (λ given. absurd (ground (arith, given, no_auth t s e)))

  http_parsed-some :
      (settings : List (Text × Text)) (operands : List Text)
      → http_parsed read_int read_bool (some (record { settings = settings; operands = operands }))
        ≡ http_with
            (assign_all read_int read_bool settings default_vars)
            (parse_port_arg (record { settings = settings; operands = operands }))
  unfolding http_parsed
  http_parsed-some settings operands = refl

  tcp_parsed-some :
      (settings : List (Text × Text)) (operands : List Text)
      → tcp_parsed read_int read_bool (some (record { settings = settings; operands = operands }))
        ≡ tcp_with
            (assign_all read_int read_bool settings default_vars)
            (parse_port_arg (record { settings = settings; operands = operands }))
  unfolding tcp_parsed
  tcp_parsed-some settings operands = refl

  run_http-parsed :
      (words : List Text)
      → run_http read_int read_bool words
        ≡ http_parsed read_int read_bool (parse_flags (accepts read_int read_bool) http_flags words)
  unfolding run_http
  run_http-parsed words = refl

  run_tcp-parsed :
      (words : List Text)
      → run_tcp read_int read_bool words
        ≡ tcp_parsed read_int read_bool (parse_flags (accepts read_int read_bool) tcp_flags words)
  unfolding run_tcp
  run_tcp-parsed words = refl

  run_verb-http :
      (verb : Text) (words : List Text)
      → verb ≡ type_http
      → run_verb read_int read_bool (verb ∷ words) ≡ run_http read_int read_bool words
  unfolding run_verb
  run_verb-http verb words e = rw e refl

  run_verb-tcp :
      (verb : Text) (words : List Text)
      → verb ≡ type_tcp
      → run_verb read_int read_bool (verb ∷ words) ≡ run_tcp read_int read_bool words
  unfolding run_verb
  run_verb-tcp verb words e = rw e refl

  run_verb-rest_of :
      (t : SavedTunnel)
      → IsSaved t
      → read_int (decimal t.remote_port) ≡ some t.remote_port
      → (t.type ≡ type_http) ⊎ (t.type ≡ type_tcp)
      → run_verb read_int read_bool (t.type ∷ flatten (rest_of t)) ≡ some (request_of t)
  run_verb-rest_of t s r (inl e) =
      rw
        (
          run_verb-http t.type (flatten (rest_of t)) e,
          run_http-parsed (flatten (rest_of t)),
          parse_flags-flatten (accepts read_int read_bool) http_flags (rest_of t)
              (http-AreFine t s e),
          http_parsed-some (settings_of (rest_of t)) (operands_of (rest_of t)),
          vars-rest_of read_int read_bool t s r,
          operands-rest_of t,
          parse_port_arg-saved t (settings_of (rest_of t)) s,
        )
        (http_with-saved t s e)
  run_verb-rest_of t s r (inr e) =
      rw
        (
          run_verb-tcp t.type (flatten (rest_of t)) e,
          run_tcp-parsed (flatten (rest_of t)),
          parse_flags-flatten (accepts read_int read_bool) tcp_flags (rest_of t)
              (tcp-AreFine t s e r),
          tcp_parsed-some (settings_of (rest_of t)) (operands_of (rest_of t)),
          vars-rest_of read_int read_bool t s r,
          operands-rest_of t,
          parse_port_arg-saved t (settings_of (rest_of t)) s,
        )
        (tcp_with-saved t s e)

  -- The commands on the words that `Args` joins.
  run_verb-arg_words :
      (prof : Profile) (t : SavedTunnel)
      → IsSaved t
      → read_int (decimal t.remote_port) ≡ some t.remote_port
      → Option.map
          (λ req. new_agent (request_options prof req))
          (run_verb read_int read_bool (arg_words t))
        ≡ some (new_agent (agent_options prof t))
  run_verb-arg_words prof t s r =
      subst
        (λ l.
          Option.map (λ req. new_agent (request_options prof req)) (run_verb read_int read_bool l)
          ≡ some (new_agent (agent_options prof t)))
        (arg_words-items_of t)
        (rw (run_verb-rest_of t s r s.type) (ap (λ a. some a) (same_agent prof t)))

  -- For every tunnel of a known type with a port from 1 to 65535, a trimmed host that is neither
  -- 127.0.0.1 nor localhost, a trimmed subdomain in lower case, credentials with a colon for HTTP
  -- only and a public port for TCP only, no profile and no autostart, and no white space in the
  -- host, the subdomain and the credentials, if package flag reads the public port as it is
  -- written: the line that `Args` writes, split at white space, is accepted by the command of its
  -- type, and the agent that `runTunnel` then makes is the one that the tray's `Start` makes for the
  -- tunnel.
  pub run_verb-args :
      (prof : Profile) (t : SavedTunnel)
      → IsSaved t
      → read_int (decimal t.remote_port) ≡ some t.remote_port
      → Option.map
          (λ req. new_agent (request_options prof req))
          (run_verb read_int read_bool (fields (args t)))
        ≡ some (new_agent (agent_options prof t))
  run_verb-args prof t s r = rw (fields-args t s) (run_verb-arg_words prof t s r)
