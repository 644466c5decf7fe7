-- ===== src/Server/Fixtures.antt =====
-- The inputs that the tests of the server share: a token, a database that has it, a handshake, and
-- the tunnel that it is granted. The stand-in for SHA-256 returns the bytes of the text.
use zerock.Prelude.{ℕ, Bool, true, none, List, [], ◌∷◌, Text, codes, pos}
use zerock.Bolt.InMemory
use zerock.Bolt.InMemory.{in_memory, no_entries}
use zerock.Namegen.{Picks}
use zerock.Store.Token.{Token, scope_tunnel}
use zerock.Store.Secret.{hash_secret}
use zerock.Store.Db.{Db, Reservation}
use zerock.Server.Config.{Config, default_config}
use zerock.Server.Tunnel.{Tunnel, type_tcp}
use zerock.Server.Registry.{new_registry, enter}
use zerock.Server.Control.{Hello, Arrival, Grant}

abbrev pub sha : Text → List ℕ
sha s = s

abbrev pub laptop : Token
laptop = record {
  id = codes "ab";
  hash = hash_secret sha (codes "cd");
  label = codes "laptop";
  scopes = scope_tunnel ∷ [];
  created_at = 1;
  expires_at = none;
  revoked_at = none;
  last_used = none;
  max_tunnels = pos 1;
  max_reservations = pos 0;
}

abbrev pub db : Db in_memory
db = record {
  tokens = InMemory.stored (no_entries Token) (codes "ab") laptop;
  reservations = no_entries Reservation;
}

abbrev pub cfg : Config
cfg = record default_config { domain = codes "example.com" }

abbrev pub drawn : Picks
drawn = record { h0 = 0; h1 = 0; h2 = 0; adjective = 0; noun = 0 }

abbrev pub all_ready : ℕ → Bool
all_ready ref = true

abbrev pub arrival : Arrival
arrival = record {
  now = 7;
  draws = λ i. drawn;
  tunnel_ref = 1;
  tunnel_id = codes "tn_1";
  remote_ip = codes "192.0.2.1";
  listen = λ p. true;
}

abbrev pub hello : Hello
hello = record {
  v = pos 1;
  token = codes "zk_ab_cd";
  type = type_tcp;
  subdomain = codes "DB";
  local_host = [];
  local_port = pos 5432;
  remote_port = pos 0;
  basic_auth = [];
  agent = codes "zerock/dev";
  hostname = codes "laptop";
}

abbrev pub tunnel : Tunnel
tunnel = record {
  ref = 1;
  id = codes "tn_1";
  subdomain = codes "db";
  type = type_tcp;
  url = codes "tcp://db.example.com:20000";
  public_port = pos 20000;
  local_addr = codes "127.0.0.1:5432";
  token_id = codes "ab";
  token_label = codes "laptop";
  agent_host = codes "laptop";
  agent_ver = codes "zerock/dev";
  remote_ip = codes "192.0.2.1";
  started_at = 7;
  basic_auth = [];
}

abbrev pub grant : Grant
grant = record {
  tunnel = tunnel;
  token = laptop;
  registry = enter new_registry tunnel;
  ack = record {
    tunnel_id = codes "tn_1";
    subdomain = codes "db";
    url = codes "tcp://db.example.com:20000";
    public_addr = codes "db.example.com:20000";
  };
}
