-- ===== src/Client/Agent/Examples.antt =====
-- The theorems on the agent at concrete attempts, and tests of its loop.
use zerock.Prelude.{
  ◌≡◌, ◌↔◌, refl, inr, true, false, not, none, some, [], ◌∷◌, arith, codes, text_dec, pos,
  ℕ_discrete, all, is_empty, trim_space, to_lower, split,
}
use zerock.Prelude.Strings.{trim, lower_byte}
use zerock.Prelude.Assoc
use zerock.Bolt.InMemory
use zerock.Bolt.InMemory.{in_memory}
use zerock.Namegen.{valid_subdomain}
use zerock.Store.Token.{has_scope, any_scope, active}
use zerock.Store.Secret.{hash_secret, matches, parse_token, token_parts}
use zerock.Store.Tokens.{authenticate, get_token}
use zerock.Store.Reservations.{clean, reservation}
use zerock.Server.Config.{is_reserved}
use zerock.Server.Registry.{new_registry, add, count_for_token, lookup, port_taken}
use zerock.Server.Registry.Invariant.{new_registry-IsValid}
use zerock.Server.Tcp.{bind_tcp, walk}
use zerock.Server.Tunnel.{type_tcp}
use zerock.Server.Control.{
  tunnel_limit, authorize, check_hello, check_token, resolve_subdomain, requested_name, new_tunnel,
  with_port, choose_port, register, acknowledge, host_port, tcp_public_addr,
}
use zerock.Server.Fixtures.{sha, db, cfg, all_ready, arrival, grant}
use zerock.Client.Profiles.{zero_profile}
use zerock.Client.Agent.{
  Options, Agent, refusal, refused, stopped, failed, run, run_from, continued, decide, session,
  answered, serve, read_events, next_backoff, new_agent, hello_of,
}
use zerock.Client.Agent.Fixtures.{unreachable, dropped, closed}
use zerock.Client.Agent.Rounds.{is_last, run_goes_on}
use zerock.Client.Agent.Waits.{schedule, waits_after, run_waits}
use zerock.Client.Agent.Names.{Granted, session-same_subdomain}

abbrev opts : Options
opts = record {
  profile = record zero_profile { host = codes "example.com"; token = codes "zk_ab_cd" };
  type = type_tcp;
  local_host = [];
  local_port = pos 5432;
  subdomain = codes "DB";
  remote_port = pos 0;
  basic_auth = [];
  reconnect = true;
}

run_waits_example :
    (run opts (unreachable ∷ dropped ∷ [])).waits
    ≡ schedule 0 (waits_after true (unreachable ∷ dropped ∷ []))
run_waits_example = run_waits opts (unreachable ∷ dropped ∷ [])

waits_double : (run opts (unreachable ∷ dropped ∷ unreachable ∷ [])).waits ≡ 1 ∷ 2 ∷ 4 ∷ []
unfolding run run_from continued decide session answered serve read_events next_backoff new_agent
waits_double = refl

run_goes_on_example :
    ((run opts (unreachable ∷ dropped ∷ [])).finish ≡ none)
    ↔ (all (λ att. not (is_last att)) (unreachable ∷ dropped ∷ []) ≡ true)
run_goes_on_example = run_goes_on opts (unreachable ∷ dropped ∷ []) refl

stops_when_closed : (run opts (dropped ∷ closed ∷ dropped ∷ [])).finish ≡ some stopped
unfolding run run_from continued decide session answered serve read_events next_backoff new_agent
    text_dec ℕ_discrete
stops_when_closed = refl

fails_when_refused :
    (run opts (record dropped { reply = some (refusal tunnel_limit []) } ∷ [])).finish
    ≡ some (failed (refused tunnel_limit []))
unfolding run run_from continued decide session answered serve read_events next_backoff new_agent
fails_when_refused = refl

abbrev agent : Agent
agent = record { opts = opts; granted_sub = []; stop_retry = false }

first_session : Granted in_memory sha cfg (codes "zerock/dev") (codes "laptop") agent grant
unfolding hello_of authorize check_hello check_token resolve_subdomain requested_name new_tunnel
    with_port choose_port register acknowledge authenticate parse_token trim_space trim split
    token_parts text_dec ℕ_discrete get_token InMemory.get InMemory.stored Assoc.put Assoc.find
    matches hash_secret active has_scope any_scope count_for_token clean to_lower lower_byte
    valid_subdomain is_reserved reservation lookup add bind_tcp walk port_taken host_port
    tcp_public_addr
first_session = record {
  ready = all_ready;
  reg = new_registry;
  db = db;
  arrival = arrival;
  valid = new_registry-IsValid;
  draws = λ j. omega arith;
  grants = refl;
}

second_session :
    Granted in_memory sha cfg
      (codes "zerock/dev")
      (codes "laptop")
      (session true dropped agent).agent
      grant
unfolding session answered serve read_events hello_of authorize check_hello check_token
    resolve_subdomain requested_name new_tunnel with_port choose_port register acknowledge
    authenticate parse_token trim_space trim split token_parts text_dec ℕ_discrete get_token
    InMemory.get InMemory.stored Assoc.put Assoc.find matches hash_secret active has_scope any_scope
    count_for_token clean to_lower lower_byte valid_subdomain is_reserved reservation lookup add
    bind_tcp walk port_taken host_port tcp_public_addr
second_session = record {
  ready = all_ready;
  reg = new_registry;
  db = db;
  arrival = arrival;
  valid = new_registry-IsValid;
  draws = λ j. omega arith;
  grants = refl;
}

asks_db : is_empty (clean opts.subdomain) ≡ false
unfolding clean trim_space trim to_lower
asks_db = refl

session-same_subdomain_example : grant.tunnel.subdomain ≡ grant.tunnel.subdomain
session-same_subdomain_example =
    session-same_subdomain in_memory sha cfg (codes "zerock/dev") (codes "laptop") true dropped
      agent grant grant (inr asks_db) refl refl refl first_session second_session
