-- ===== src/Server/Examples.antt =====
-- The theorems on the server at concrete inputs, and tests of its operations.
use zerock.Prelude.{
  ℕ, ◌+◌, ◌≤◌, ◌≡◌, refl, Bool, true, not, ◌&&◌, none, some, [], ◌∷◌, ◌++◌, arith, Text, codes,
  text_eq, text_dec, ℤ, pos, int_dec, ℕ_discrete, if◌then◌else◌, trim_space, to_lower, has_byte,
  is_empty, Distinct, ltb_ℤ, leb_ℤ, eqb_ℤ, requested,
}
use zerock.Prelude.Strings.{trim, trim_right, lower_byte}
use zerock.Prelude.Assoc
use zerock.Namegen.{valid_subdomain}
use zerock.Server.Config.{
  Config, ok, default_config, normalize, normalized, normal_domain, normal_api_host, normal_mode,
  check_rest, subdomain_of, is_reserved, with_label,
}
use zerock.Server.Config.Normal.{normalize_lem}
use zerock.Server.Config.Hosts.{IsNormalDomain, subdomain_of-host}
use zerock.Server.Tunnel.{
  Tunnel, type_http, type_tcp, new_cell, close, close_effects, close_closed_ch, write_close,
  close_events, close_session,
}
use zerock.Server.Api.{Live, drop}
use zerock.Server.Lifecycle.{close_all, close_all_lem}
use zerock.Server.Registry.{
  Registry, new_registry, enter, add, remove, count_for_token, list, by_id, port_taken,
}
use zerock.Server.Registry.Invariant.{
  IsValid, new_registry-IsValid, live_count, has_port, add-IsValid, remove-IsValid,
}
use zerock.Server.Registry.Stale.{remove_twice-undercounts}
use zerock.Server.Tcp.{bound, is_free, bind_tcp, walk}
use zerock.Server.Tcp.Choice.{Answers, bind_tcp_any}

abbrev box : Tunnel
box = record {
  ref = 1;
  id = codes "tn_1";
  subdomain = codes "db";
  type = type_tcp;
  url = codes "tcp://db.example.com:20000";
  public_port = pos 20000;
  local_addr = codes "127.0.0.1:5432";
  token_id = codes "ab";
  token_label = codes "laptop";
  agent_host = [];
  agent_ver = [];
  remote_ip = codes "192.0.2.1";
  started_at = 5;
  basic_auth = [];
}

abbrev web : Tunnel
web = record box {
  ref = 2;
  id = codes "tn_2";
  subdomain = codes "api-x";
  type = type_http;
  url = codes "https://api-x.example.com";
  public_port = pos 0;
}

abbrev one : Registry
one = enter new_registry box

abbrev two : Registry
two = enter one web

add-IsValid_example :
    IsValid one
    × (Assoc.find text_dec new_registry.by_sub (codes "db") ≡ none)
    × (Assoc.find text_dec one.by_sub (codes "db") ≡ some box)
    × (count_for_token one (codes "ab") ≡ count_for_token new_registry (codes "ab") + 1)
unfolding add Assoc.find
add-IsValid_example = add-IsValid new_registry box one new_registry-IsValid (λ h. refl) refl

two-IsValid : IsValid two
unfolding add enter Assoc.find Assoc.put Assoc.erase text_dec int_dec ℕ_discrete
two-IsValid = (add-IsValid one web two add-IsValid_one (λ h. absurd (cc)) refl).0
  where
    add-IsValid_one : IsValid one
    add-IsValid_one = (add-IsValid new_registry box one new_registry-IsValid (λ h. refl) refl).0

two-db : Assoc.find text_dec two.by_sub (codes "db") ≡ some box
unfolding enter Assoc.find Assoc.put Assoc.erase text_dec ℕ_discrete
two-db = refl

remove-IsValid_example :
    IsValid (remove two box)
    × ((k : Text)
        → Assoc.find text_dec (remove two box).by_sub k
          ≡ (if text_eq (codes "db") k then none else Assoc.find text_dec two.by_sub k))
    × (has_port box ≡ true → Assoc.find int_dec (remove two box).by_port (pos 20000) ≡ none)
    × (count_for_token two (codes "ab") ≡ count_for_token (remove two box) (codes "ab") + 1)
remove-IsValid_example = remove-IsValid two box two-IsValid two-db

another_left : 1 ≤ live_count (codes "ab") (remove two box)
unfolding remove enter Assoc.find Assoc.put Assoc.erase text_dec ℕ_discrete
another_left = omega arith

remove_twice-undercounts_example :
    ((remove (remove two box) box).by_sub ≡ (remove two box).by_sub)
    × (count_for_token (remove (remove two box) box) (codes "ab") + 1
        ≡ live_count (codes "ab") (remove (remove two box) box))
remove_twice-undercounts_example = remove_twice-undercounts two box two-IsValid two-db another_left

abbrev all_ready : ℕ → Bool
all_ready ref = true

lists_by_name : list all_ready two [] ≡ web ∷ box ∷ []
unfolding list enter Assoc.put Assoc.erase text_dec ℕ_discrete
lists_by_name = refl

box-by_id : by_id all_ready two (codes "tn_1") ≡ some box
unfolding by_id enter Assoc.put Assoc.erase text_dec ℕ_discrete
box-by_id = refl

-- Port 20001 is held by another process.
abbrev can_listen : ℤ → Bool
can_listen p = not (eqb_ℤ p (pos 20001))

bind_tcp_any_example :
    Answers
      (is_free two can_listen)
      (pos 20999)
      (pos 20000)
      (bind_tcp default_config.tcp_port_range two can_listen (pos 0))
bind_tcp_any_example = bind_tcp_any default_config.tcp_port_range two can_listen

binds_20002 :
    bind_tcp (record { from = pos 20000; to = pos 20003 }) two can_listen (pos 0)
    ≡ bound (pos 20002)
unfolding bind_tcp walk port_taken enter Assoc.find Assoc.put Assoc.erase int_dec ℕ_discrete
binds_20002 = refl

abbrev home : Config
home = record default_config { domain = codes " Example.com. " }

abbrev home_normal : Config
home_normal = normalized home (codes "example.com") (codes "auto")

home_normalizes : normalize home ≡ ok home_normal
unfolding normalize normal_domain normal_mode check_rest has_byte to_lower lower_byte trim_space
    trim text_dec ℕ_discrete
home_normalizes = refl

normalize_lem_example :
    (has_byte b'.' home_normal.domain ≡ true)
    × (ltb_ℤ (pos 0) home_normal.tcp_port_range.from ≡ true)
    × (leb_ℤ home_normal.tcp_port_range.from home_normal.tcp_port_range.to ≡ true)
    × Distinct home_normal.reserved_subdomains
    × ((s : Text)
        → is_reserved home_normal s ≡ (
            not (is_empty s)
            && requested s (
                with_label
                  (subdomain_of home_normal.domain home_normal.api_host)
                  home.reserved_subdomains)))
normalize_lem_example = normalize_lem home home_normal home_normalizes

zerock_is_valid : valid_subdomain (codes "zerock") ≡ true
unfolding valid_subdomain
zerock_is_valid = refl

home_api_label : subdomain_of home_normal.domain home_normal.api_host ≡ some (codes "zerock")
unfolding subdomain_of normalized normal_api_host lower_byte text_dec ℕ_discrete
home_api_label = refl

example_com-IsNormalDomain : IsNormalDomain (codes "example.com")
unfolding to_lower lower_byte trim_right
example_com-IsNormalDomain = record { lower = refl; trimmed = refl; some_byte = λ e. cc }

subdomain_of-host_example :
    subdomain_of (codes "example.com") (codes "zerock" ++ (b'.' ∷ codes "example.com"))
    ≡ some (codes "zerock")
subdomain_of-host_example =
    subdomain_of-host (codes "example.com") (codes "zerock") example_com-IsNormalDomain
      zerock_is_valid

found_in_host :
    subdomain_of (codes "example.com") (codes "API-x.example.com.") ≡ some (codes "api-x")
unfolding subdomain_of lower_byte text_dec ℕ_discrete
found_in_host = refl

-- One tunnel, ready and with an event stream.
abbrev running : Live
running = record {
  registry = one;
  cells = λ ref. record new_cell { session = true; ready = true; events = true };
  effects = [];
}

-- The agent is told before its streams are closed.
drop_tells :
    (drop (codes "bye") box running).effects
    ≡ (1, close_closed_ch)
      ∷ (1, write_close (codes "bye") true)
      ∷ (1, close_events)
      ∷ (1, close_session)
      ∷ []
unfolding drop close close_effects
drop_tells = refl

close_all_lem_example :
    ((close_all (codes "shutdown") running).registry ≡ one)
    × ((k : Text) (u : Tunnel)
        → Assoc.find text_dec one.by_sub k ≡ some u
        → ((close_all (codes "shutdown") running).cells u.ref).closed ≡ true)
close_all_lem_example = close_all_lem (codes "shutdown") running
