-- ===== src/Server/Control/Examples.antt =====
-- The theorem on granted tunnels at a concrete handshake, and tests of refusals.
use zerock.Prelude.{
  ◌≡◌, refl, inr, ◌++◌, has_byte, none, [], ◌∷◌, arith, codes, text_dec, pos, ℕ_discrete,
  trim_space, to_lower, split,
}
use zerock.Prelude.Strings.{trim, trim_right, lower_byte}
use zerock.Prelude.Assoc
use zerock.Bolt.InMemory
use zerock.Bolt.InMemory.{in_memory, no_entries}
use zerock.Namegen.{valid_subdomain}
use zerock.Store.Token.{has_scope, any_scope, active}
use zerock.Store.Secret.{hash_secret, matches, parse_token, token_parts}
use zerock.Store.Tokens.{authenticate, get_token}
use zerock.Store.Reservations.{clean, reservation}
use zerock.Server.Config.{
  Config, ok, default_config, is_reserved, normalize, normalized, normal_domain, normal_api_host,
  normal_mode, check_rest, subdomain_of, reserved_loop,
}
use zerock.Server.Config.Hosts.{IsNormalDomain}
use zerock.Server.Http.{Request, route, to_tunnel}
use zerock.Server.Http.Routes.{public_host, route-authorize}
use zerock.Prelude.Net.{decimal}
use zerock.Server.Registry.{new_registry, add, count_for_token, lookup, port_taken}
use zerock.Server.Registry.Invariant.{new_registry-IsValid}
use zerock.Server.Tcp.{bind_tcp, walk}
use zerock.Server.Control.{
  go, refused, sub_blocked, authorize, check_hello, check_token, resolve_subdomain, requested_name,
  new_tunnel, with_port, choose_port, register, acknowledge, host_port, tcp_public_addr,
}
use zerock.Server.Control.Granted.{IsLawful, authorize-IsLawful}
use zerock.Server.Fixtures.{sha, laptop, db, cfg, all_ready, arrival, hello, tunnel, grant}

authorizes : authorize in_memory sha cfg all_ready new_registry db arrival hello ≡ go grant
unfolding authorize check_hello check_token resolve_subdomain requested_name new_tunnel with_port
    choose_port register acknowledge authenticate parse_token trim_space trim split token_parts
    text_dec ℕ_discrete get_token InMemory.get InMemory.stored Assoc.put Assoc.find matches
    hash_secret active has_scope any_scope count_for_token clean to_lower lower_byte valid_subdomain
    is_reserved reservation lookup add bind_tcp walk port_taken host_port tcp_public_addr
authorizes = refl

authorize-IsLawful_example :
    IsLawful in_memory sha cfg all_ready new_registry db arrival hello grant
authorize-IsLawful_example =
    authorize-IsLawful in_memory sha cfg all_ready new_registry db arrival hello grant
      new_registry-IsValid (λ j. omega arith) authorizes

-- A name that the server keeps for itself is refused.
blocks_admin :
    resolve_subdomain in_memory cfg all_ready new_registry db arrival
      (record hello { subdomain = codes " Admin" })
      laptop
    ≡ refused sub_blocked []
unfolding resolve_subdomain requested_name clean to_lower lower_byte trim_space trim valid_subdomain
    is_reserved text_dec ℕ_discrete
blocks_admin = refl

-- The same handshake under a configuration that was normalized.
abbrev home : Config
home = record default_config { domain = codes "example.com" }

abbrev home_normal : Config
home_normal = normalized home (codes "example.com") (codes "auto")

home_normalizes : normalize home ≡ ok home_normal
unfolding normalize normal_domain normal_mode check_rest has_byte to_lower lower_byte trim_space
    trim text_dec ℕ_discrete
home_normalizes = refl

authorizes_normal :
    authorize in_memory sha home_normal all_ready new_registry db arrival hello ≡ go grant
unfolding authorize check_hello check_token resolve_subdomain requested_name new_tunnel with_port
    choose_port register acknowledge authenticate parse_token trim_space trim split token_parts
    text_dec ℕ_discrete get_token InMemory.get InMemory.stored Assoc.put Assoc.find matches
    hash_secret active has_scope any_scope count_for_token clean to_lower lower_byte valid_subdomain
    is_reserved reservation lookup add bind_tcp walk port_taken host_port tcp_public_addr normalized
    normal_api_host subdomain_of reserved_loop
authorizes_normal = refl

example_com-IsNormalDomain : IsNormalDomain (codes "example.com")
unfolding to_lower lower_byte trim_right
example_com-IsNormalDomain = record { lower = refl; trimmed = refl; some_byte = λ e. cc }

abbrev request : Request
request = record {
  method = codes "GET";
  host = codes "db.example.com:443";
  remote_addr = codes "198.51.100.7:50000";
  path = codes "/";
  raw_query = [];
  headers = [];
  credentials = none;
}

asks_443 : request.host ≡ public_host home_normal (codes "db") ++ (b':' ∷ decimal (pos 443))
unfolding decimal normalized
asks_443 = refl

route-authorize_example : route home_normal grant.registry request ≡ to_tunnel tunnel
unfolding normalized
route-authorize_example =
    route-authorize in_memory sha home home_normal all_ready new_registry db arrival hello grant
      request home_normalizes example_com-IsNormalDomain refl new_registry-IsValid
      (λ j. omega arith) authorizes_normal (inr (443, asks_443))
