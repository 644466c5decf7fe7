-- ===== src/Server/Api/Examples.antt =====
-- The theorems on the management API at a concrete server, and tests of its handlers.
use zerock.Prelude.{
  ℕ, ◌≡◌, ◌⊎◌, ◌↔◌, refl, true, false, none, some, List, [], ◌∷◌, arith, Text, codes, text_dec, pos,
  ℕ_discrete, trim_space, to_lower, split,
}
use zerock.Prelude.Strings.{trim, lower_byte}
use zerock.Prelude.Assoc
use zerock.Bolt.InMemory
use zerock.Bolt.InMemory.{in_memory, no_entries}
use zerock.Namegen.{valid_subdomain}
use zerock.Store.Token.{Token, scope_tunnel, scope_admin, has_scope, any_scope}
use zerock.Store.Secret.{hash_secret, parse_token, token_parts}
use zerock.Store.Db.{Reservation, err, not_found}
use zerock.Store.Tokens.{authenticate, get_token, put_token, revoke_token, touch_token}
use zerock.Store.Tokens.Keyed.{IsKeyed}
use zerock.Store.Reservations.{clean, reservation, reserve, reserve_free, release}
use zerock.Server.Config.{Config, default_config, is_reserved}
use zerock.Server.Tunnel.{Tunnel, new_cell, type_tcp}
use zerock.Server.Registry.{Registry, new_registry, enter, add, is_listed, by_id, first_by_id}
use zerock.Server.Registry.Invariant.{IsValid, new_registry-IsValid, add-IsValid}
use zerock.Server.Api.{
  State, Reply, failure, no_content, token_found, reserved, ready, drop, drop_tunnels_for_token,
  to_dto, ReserveRequest, effective_reservation_limit, is_foreign_to, touched_or, authed,
  handle_revoke_token, handle_close_tunnel, handle_release, handle_reserve, reserve_for,
}
use zerock.Server.Api.Revocation.{drop_tunnels_for_token_lem, handle_revoke_token-drops}
use zerock.Server.Api.Closing.{Closes, Declines, handle_close_tunnel_lem}
use zerock.Server.Api.Ownership.{Reserves, Admits, handle_reserve_lem, authed_lem}

abbrev sha : Text → List ℕ
sha s = s

-- The token whose presented form is zk_ab_cd.
abbrev laptop : Token
laptop = record {
  id = codes "ab";
  hash = hash_secret sha (codes "cd");
  label = codes "laptop";
  scopes = scope_tunnel ∷ [];
  created_at = 1;
  expires_at = none;
  revoked_at = none;
  last_used = none;
  max_tunnels = pos 2;
  max_reservations = pos 0;
}

abbrev boss : Token
boss = record laptop { id = codes "zz"; scopes = scope_admin ∷ [] }

abbrev api_x : Reservation
api_x = record { subdomain = codes "api-x"; token_id = codes "ab"; note = []; created_at = 3 }

abbrev box : Tunnel
box = record {
  ref = 1;
  id = codes "tn_1";
  subdomain = codes "db";
  type = type_tcp;
  url = codes "tcp://db.example.com:20000";
  public_port = pos 20000;
  local_addr = codes "127.0.0.1:5432";
  token_id = codes "ab";
  token_label = codes "laptop";
  agent_host = [];
  agent_ver = [];
  remote_ip = codes "192.0.2.1";
  started_at = 5;
  basic_auth = [];
}

abbrev one : Registry
one = enter new_registry box

one-IsValid : IsValid one
unfolding add Assoc.find
one-IsValid = (add-IsValid new_registry box one new_registry-IsValid (λ h. refl) refl).0

abbrev served : State in_memory
served = record {
  db = record {
    tokens = InMemory.stored (no_entries Token) (codes "ab") laptop;
    reservations = InMemory.stored (no_entries Reservation) (codes "api-x") api_x;
  };
  live = record {
    registry = one;
    cells = λ ref. record new_cell { session = true; ready = true; listener = true };
    effects = [];
  };
}

served-IsKeyed : IsKeyed in_memory served.db
unfolding InMemory.get InMemory.stored Assoc.find
served-IsKeyed = record {
  tokens = λ id tok e. ground (arith, Assoc.find-put text_dec [] (codes "ab") id laptop);
  reservations = λ sub r e. ground (arith, Assoc.find-put text_dec [] (codes "api-x") sub api_x);
}

drop_tunnels_for_token_lem_example :
    (Assoc.find text_dec
        (drop_tunnels_for_token (codes "ab") (codes "token revoked") served.live).registry.by_sub
        (codes "db")
      ≡ some box)
    ↔ ((Assoc.find text_dec one.by_sub (codes "db") ≡ some box)
        × (is_listed (ready served.live) (codes "ab") box ≡ false))
drop_tunnels_for_token_lem_example =
    drop_tunnels_for_token_lem (codes "ab") (codes "token revoked") served.live (codes "db") box
      one-IsValid

-- After the revocation, at the time 9.
abbrev gone : Token
gone = record laptop { revoked_at = some 9 }

abbrev after : State in_memory
after = record {
  db = record served.db { tokens = InMemory.stored served.db.tokens (codes "ab") gone };
  live = drop_tunnels_for_token (codes "ab") (codes "token revoked") served.live;
}

revokes :
    handle_revoke_token in_memory 9 10 (codes "ab") served boss
    ≡ (after, token_found (to_dto after.live.registry 10 gone))
unfolding handle_revoke_token revoke_token get_token put_token InMemory.get InMemory.put
    InMemory.stored Assoc.find Assoc.put Assoc.erase text_dec ℕ_discrete
revokes = refl

parses : parse_token (codes "zk_ab_cd") ≡ some (codes "ab", codes "cd")
unfolding parse_token trim_space trim split token_parts text_dec ℕ_discrete
parses = refl

handle_revoke_token-drops_example :
    (authenticate in_memory sha 11 after.db (codes "zk_ab_cd") ≡ err not_found)
    × ((k : Text) (u : Tunnel)
        → Assoc.find text_dec after.live.registry.by_sub k ≡ some u
        → u.token_id ≡ codes "ab"
        → ready served.live u.ref ≡ false)
handle_revoke_token-drops_example =
    handle_revoke_token-drops in_memory sha 9 10 11 (codes "ab") (codes "cd") (codes "zk_ab_cd")
      served after boss (to_dto after.live.registry 10 gone) served-IsKeyed one-IsValid parses
      revokes

abbrev without_box : State in_memory
without_box = record served { live = drop (codes "closed from the API") box served.live }

closes : handle_close_tunnel in_memory (codes "tn_1") served laptop ≡ (without_box, no_content)
unfolding handle_close_tunnel by_id first_by_id enter Assoc.put Assoc.erase is_foreign_to text_dec
    ℕ_discrete
closes = refl

handle_close_tunnel_lem_example :
    ((without_box ≡ served) × Declines in_memory (codes "tn_1") served laptop no_content)
    ⊎ ((no_content ≡ no_content) × Closes in_memory (codes "tn_1") served laptop without_box)
handle_close_tunnel_lem_example =
    handle_close_tunnel_lem in_memory (codes "tn_1") served without_box laptop no_content
      one-IsValid closes

abbrev cfg : Config
cfg = record default_config { domain = codes "example.com" }

abbrev request : ReserveRequest
request = record { subdomain = codes " Blog"; note = []; token_id = [] }

abbrev blog : Reservation
blog = record { subdomain = codes "blog"; token_id = codes "ab"; note = []; created_at = 12 }

abbrev with_blog : State in_memory
with_blog = record served {
  db = record served.db {
    reservations = InMemory.stored served.db.reservations (codes "blog") blog;
  };
}

reserves : handle_reserve in_memory cfg 12 (some request) served laptop ≡ (with_blog, reserved blog)
unfolding handle_reserve reserve_for reserve reserve_free clean to_lower lower_byte trim_space trim
    valid_subdomain is_reserved effective_reservation_limit has_scope any_scope InMemory.get
    InMemory.put InMemory.stored Assoc.find Assoc.put Assoc.erase text_dec ℕ_discrete
reserves = refl

handle_reserve_lem_example : Reserves in_memory cfg request served laptop with_blog blog
handle_reserve_lem_example =
    handle_reserve_lem in_memory cfg 12 request served with_blog laptop blog reserves

abbrev without_api_x : State in_memory
without_api_x = record served {
  db = record served.db { reservations = InMemory.removed served.db.reservations (codes "api-x") };
}

releases : handle_release in_memory (codes "API-x") served boss ≡ (without_api_x, no_content)
unfolding handle_release reservation release clean to_lower lower_byte trim_space trim is_foreign_to
    has_scope any_scope InMemory.get InMemory.delete InMemory.stored Assoc.find Assoc.put
    Assoc.erase text_dec ℕ_discrete
releases = refl

-- A handler that closes the tunnel tn_1.
abbrev closing : State in_memory → Token → State in_memory × Reply
closing = handle_close_tunnel in_memory (codes "tn_1")

abbrev header : Text
header = codes "Bearer zk_ab_cd"

authed_lem_example :
    (authed in_memory sha 7 8 scope_tunnel closing header served ≡ (served, failure 401))
    ⊎ ((authed in_memory sha 7 8 scope_tunnel closing header served ≡ (served, failure 403))
        ⊎ ((tok : Token) × Admits in_memory sha 7 scope_tunnel header served tok
            × (authed in_memory sha 7 8 scope_tunnel closing header served
                ≡ closing
                    (record served {
                      db =
                          touched_or in_memory served.db (touch_token in_memory 8 served.db tok.id);
                    })
                    tok)))
authed_lem_example = authed_lem in_memory sha 7 8 scope_tunnel closing header served

no_admin : has_scope laptop scope_admin ≡ false
unfolding has_scope any_scope text_dec ℕ_discrete
no_admin = refl
