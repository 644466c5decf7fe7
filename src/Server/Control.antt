-- ===== src/Server/Control.antt =====
-- internal/server/control.go: from the agent's Hello to a registered tunnel or a refusal. The texts
-- of messages and of logs are left out; the codes and the values of the acknowledgement are not.
pub mod Names
pub mod Granted
mod Examples
use zerock.Prelude.Net.{decimal}
use zerock.Prelude.{
  ℕ, zero, suc, ◌+◌, ◌-◌, ◌/◌, ◌%◌, Bool, true, false, ◌&&◌, ◌||◌, not, Option, none, some, List,
  [], ◌∷◌, ◌++◌, Text, codes, text_eq, text_dec, ℤ, pos, negsuc, ltb_ℤ, leb_ℤ, eqb_ℤ, ◌==◌,
  if◌then◌else◌, is_empty,
}
use zerock.Bolt.{Bolt}
use zerock.Namegen.{Picks, new_name, valid_subdomain}
use zerock.Store.Token.{Token, has_scope, scope_tunnel}
use zerock.Store.Db.{Db, Result, Reservation}
use zerock.Store.Tokens.{authenticate}
use zerock.Store.Reservations.{clean, reservation}
use zerock.Server.Config.{Config, is_reserved, scheme}
use zerock.Server.Tunnel.{Tunnel, Effect, Cell, type_http, type_tcp, new_cell, close}
use zerock.Server.Registry.{Registry, count_for_token, lookup, add}
use zerock.Server.Tcp.{Bound, bound, outside, in_use, not_opened, no_free_port, bind_tcp}

-- proto.Hello
pub record Hello : Type 0 where
  pub v : ℤ
  pub token : Text
  pub type : Text
  pub subdomain : Text
  pub local_host : Text
  pub local_port : ℤ
  pub remote_port : ℤ
  pub basic_auth : Text
  pub agent : Text
  pub hostname : Text

-- The error codes of proto.HelloAck.
pub data Code : Type 0 where
  bad_request unauthorized version_mismatch sub_taken sub_reserved : Code
  sub_blocked sub_invalid tunnel_limit no_ports internal : Code

-- The values of a positive proto.HelloAck.
pub record HelloAck : Type 0 where
  pub tunnel_id : Text
  pub subdomain : Text
  pub url : Text
  pub public_addr : Text

-- A step of the handshake: it goes on with a value, or the tunnel is refused, after the effects of
-- closing what was opened for it.
pub data Step {ℓ} (A : Type ℓ) : Type ℓ where
  go : A → Step A
  refused : Code → List Effect → Step A

infixl 5 ◌>>=◌ ◌>>◌
abbrev pub ◌>>=◌ {ℓ κ} : {A : Type ℓ} {B : Type κ} → Step A → (A → Step B) → Step B
go a >>= f = f a
refused c es >>= f = refused c es

abbrev pub ◌>>◌ {ℓ} : {B : Type ℓ} → Step (Unit {0}) → Step B → Step B
m >> k = m >>= λ _. k

abbrev pub refuse_if : Bool → Code → Step (Unit {0})
refuse_if b c = if b then refused c [] else go tt

-- What a connection brings with it: the instant, the names that `namegen.New` will draw, the address
-- of the new tunnel in memory and its random id, the peer's host, and the ports that can be bound.
pub record Arrival : Type 0 where
  pub now : ℕ
  pub draws : ℕ → Picks
  pub tunnel_ref : ℕ
  pub tunnel_id : Text
  pub remote_ip : Text
  pub listen : ℤ → Bool

-- `hostPort`
unfoldable pub host_port : Text → ℤ → Text
unfolding decimal
host_port host port = host ++ (b':' ∷ decimal port)

unfoldable pub tcp_public_addr : Text → Text → Text → ℤ → Text
unfolding host_port
tcp_public_addr type subdomain domain public_port =
    if not (text_eq type type_tcp) then [] else host_port (subdomain ++ (b'.' ∷ domain)) public_port

-- Whether a reservation is another token's.
abbrev pub is_foreign : Text → Option Reservation → Bool
is_foreign id none = false
is_foreign id (some r) = not (text_eq r.token_id id)

abbrev pub is_live : Option Tunnel → Bool
is_live none = false
is_live (some t) = true

abbrev pub as_step : Result Token → Step Token
as_step (Result.ok tok) = go tok
as_step (Result.err e) = refused unauthorized []

-- A grant: the tunnel, the token behind it, the registry that holds it and the acknowledgement.
pub record Grant : Type 0 where
  pub tunnel : Tunnel
  pub token : Token
  pub registry : Registry
  pub ack : HelloAck

-- `for range 12`, from the i-th draw on.
unfoldable pub random_name : ℕ → (ℕ → Picks) → ℕ → (Text → Bool) → Step Text
random_name zero draws i usable = refused internal []
random_name (suc rounds) draws i usable =
    let rest = random_name rounds draws (i + 1) usable in
    if usable (new_name (draws i)) then go (new_name (draws i)) else rest

-- The listener that a TCP tunnel owns is the only resource that a refused tunnel has opened.
unfoldable pub opened_cell : Tunnel → Cell
opened_cell t = record new_cell { listener = text_eq t.type type_tcp }

unfoldable pub register : Registry → Tunnel → Step Registry
unfolding close opened_cell
register reg t = elim (add reg t) [
  | none ↦ refused sub_taken (close (opened_cell t) [] false).1
  | some reg' ↦ go reg'
]

-- The tests on the frame itself.
unfoldable pub check_hello : Hello → Step (Unit {0})
check_hello hello = do
  refuse_if (not (eqb_ℤ hello.v (pos 1))) version_mismatch
  refuse_if (not (text_eq hello.type type_http || text_eq hello.type type_tcp)) bad_request
  refuse_if (ltb_ℤ hello.local_port (pos 1) || ltb_ℤ (pos 65535) hello.local_port) bad_request

-- The tests on the token.
unfoldable pub check_token : Registry → Token → Step (Unit {0})
check_token reg tok = do
  refuse_if (not (has_scope tok scope_tunnel)) unauthorized
  refuse_if
      (ltb_ℤ (pos 0) tok.max_tunnels && leb_ℤ tok.max_tunnels (pos (count_for_token reg tok.id)))
      tunnel_limit

module _ (cfg : Config) where
  -- The tunnel of `authorize`, before its port is chosen.
  unfoldable pub new_tunnel : Arrival → Hello → Token → Text → Tunnel
  new_tunnel arrival hello tok sub = record {
    ref = arrival.tunnel_ref;
    id = arrival.tunnel_id;
    subdomain = sub;
    type = hello.type;
    url = scheme cfg ++ (codes "://" ++ (sub ++ (b'.' ∷ cfg.domain)));
    public_port = pos 0;
    local_addr =
        host_port (if is_empty hello.local_host then codes "127.0.0.1" else hello.local_host)
          hello.local_port;
    token_id = tok.id;
    token_label = tok.label;
    agent_host = hello.hostname;
    agent_ver = hello.agent;
    remote_ip = arrival.remote_ip;
    started_at = arrival.now;
    basic_auth = hello.basic_auth;
  }

  unfoldable pub with_port : Tunnel → Bound → Step Tunnel
  with_port t (bound p) = go (record t {
    public_port = p;
    url = codes "tcp://" ++ host_port (t.subdomain ++ (b'.' ∷ cfg.domain)) p;
  })
  with_port t _ = refused no_ports []

  unfoldable pub choose_port : Registry → Arrival → Hello → Tunnel → Step Tunnel
  choose_port reg arrival hello t =
      if text_eq hello.type type_tcp
      then with_port t (bind_tcp cfg.tcp_port_range reg arrival.listen hello.remote_port)
      else go t

  unfoldable pub acknowledge : Tunnel → HelloAck
  acknowledge t = record {
    tunnel_id = t.id;
    subdomain = t.subdomain;
    url = t.url;
    public_addr = tcp_public_addr t.type t.subdomain cfg.domain t.public_port;
  }

module _ (bolt : Bolt) (cfg : Config) where
  -- The tests of a random name: not reserved by the server, not live, not reserved by a token.
  unfoldable pub is_usable : (ℕ → Bool) → Registry → Db bolt → Text → Bool
  is_usable ready reg db name =
      if is_reserved cfg name then false else elim (lookup ready reg name) [
        | some t ↦ false
        | none ↦ elim (reservation bolt db name) [ some r ↦ false | none ↦ true ]
      ]

  unfoldable pub requested_name : (ℕ → Bool) → Registry → Db bolt → Token → Text → Step Text
  requested_name ready reg db tok name = do
    refuse_if (not (valid_subdomain name)) sub_invalid
    refuse_if (is_reserved cfg name) sub_blocked
    refuse_if (is_foreign tok.id (reservation bolt db name)) sub_reserved
    refuse_if (is_live (lookup ready reg name)) sub_taken
    go name

  unfoldable pub resolve_subdomain :
      (ℕ → Bool) → Registry → Db bolt → Arrival → Hello → Token → Step Text
  resolve_subdomain ready reg db arrival hello tok =
      if is_empty (clean hello.subdomain)
      then random_name 12 arrival.draws 0 (is_usable ready reg db)
      else requested_name ready reg db tok (clean hello.subdomain)

unfoldable pub authorize :
    (bolt : Bolt)
    → (Text → List ℕ)
    → Config
    → (ℕ → Bool)
    → Registry
    → Db bolt
    → Arrival
    → Hello
    → Step Grant
authorize bolt sha256 cfg ready reg db arrival hello = do
  check_hello hello
  tok ← as_step (authenticate bolt sha256 arrival.now db hello.token)
  check_token reg tok
  sub ← resolve_subdomain bolt cfg ready reg db arrival hello tok
  tun ← choose_port cfg reg arrival hello (new_tunnel cfg arrival hello tok sub)
  reg' ← register reg tun
  go (record { tunnel = tun; token = tok; registry = reg'; ack = acknowledge cfg tun })
