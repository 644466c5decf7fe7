-- ===== src/Server/Session/Examples.antt =====
-- The theorems on sessions at a concrete connection.
use zerock.Prelude.{
  ◌≡◌, refl, true, false, some, [], text_dec, ℕ_discrete, trim_space, to_lower, split,
}
use zerock.Prelude.Strings.{trim, lower_byte}
use zerock.Prelude.Assoc
use zerock.Bolt.InMemory
use zerock.Bolt.InMemory.{in_memory}
use zerock.Namegen.{valid_subdomain}
use zerock.Store.Token.{has_scope, any_scope, active}
use zerock.Store.Secret.{hash_secret, matches, parse_token, token_parts}
use zerock.Store.Tokens.{authenticate, get_token}
use zerock.Store.Reservations.{clean, reservation}
use zerock.Server.Config.{is_reserved}
use zerock.Server.Tunnel.{new_cell}
use zerock.Server.Registry.{new_registry, add, count_for_token, lookup, port_taken}
use zerock.Server.Tcp.{bind_tcp, walk}
use zerock.Server.Control.{
  go, authorize, check_hello, check_token, resolve_subdomain, requested_name, new_tunnel, with_port,
  choose_port, register, acknowledge, host_port, tcp_public_addr,
}
use zerock.Server.Api.{State, ready}
use zerock.Server.Session.{Connection, attached, handle_control_conn}
use zerock.Server.Session.Released.{
  Ends, decided_on, Unchanged, handle_control_conn-Ends, handle_control_conn-Unchanged,
}
use zerock.Server.Fixtures.{sha, db, cfg, arrival, hello, grant}

abbrev start : State in_memory
start = record {
  db = db;
  live = record { registry = new_registry; cells = λ ref. new_cell; effects = [] };
}

abbrev conn : Connection in_memory
conn = record {
  sets_deadline = true;
  hello = some hello;
  ack_written = true;
  clears_deadline = true;
  opens_session = true;
  events = attached;
  later = 8;
  meanwhile = λ s. s;
}

handle_control_conn-Ends_example :
    Ends
      (decided_on in_memory sha cfg arrival start conn.hello)
      start
      (handle_control_conn in_memory sha cfg arrival conn start).0
      (handle_control_conn in_memory sha cfg arrival conn start).1
handle_control_conn-Ends_example = handle_control_conn-Ends in_memory sha cfg arrival conn start

authorizes :
    authorize in_memory sha cfg (ready start.live) start.live.registry start.db arrival hello
    ≡ go grant
unfolding authorize check_hello check_token resolve_subdomain requested_name new_tunnel with_port
    choose_port register acknowledge authenticate parse_token trim_space trim split token_parts
    text_dec ℕ_discrete get_token InMemory.get InMemory.stored Assoc.put Assoc.find matches
    hash_secret active has_scope any_scope count_for_token clean to_lower lower_byte valid_subdomain
    is_reserved reservation lookup add bind_tcp walk port_taken host_port tcp_public_addr
authorizes = refl

-- The agent went away before it was acknowledged.
handle_control_conn-Unchanged_example :
    Unchanged in_memory start
      (handle_control_conn in_memory sha cfg arrival (record conn { ack_written = false }) start)
handle_control_conn-Unchanged_example =
    handle_control_conn-Unchanged in_memory sha cfg arrival (record conn { ack_written = false })
      start hello grant refl authorizes refl
