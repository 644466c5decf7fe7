-- ===== src/Server/Http.antt =====
-- internal/server/http.go: the public edge. A request is its host, address, path, method, headers and
-- basic credentials as net/http reads them; the reverse proxy and what it does to the response are
-- net/http/httputil's, so a request that is forwarded is given what came back.
pub mod Routes
pub mod Headers
pub mod Recorder
mod Examples
use zerock.Prelude.{
  ℕ, ◌+◌, Bool, true, false, ◌&&◌, ◌||◌, not, ◌==◌, Option, none, some, List, [], ◌∷◌, ◌++◌, Text,
  codes, text_eq, text_dec, if◌then◌else◌, is_empty, to_lower, trim_space,
}
use zerock.Prelude.Strings.{trim, cut_prefix}
use zerock.Prelude.Net.{split_host_port, cut_first}
use zerock.Prelude.Assoc
use zerock.Prelude.Assoc.{Assoc}
use zerock.Server.Config.{Config, subdomain_of, scheme as cfg_scheme}
use zerock.Server.Tunnel.{Tunnel, Cell, Effect, close_events, record_traffic}
use zerock.Server.Registry.{Registry, claimed}

-- `http.Header`, by canonical names, with the first value of each.
abbrev pub Header : Type 0
Header = Assoc Text Text

-- `Header.Get`
unfoldable pub header : Header → Text → Text
header h k = elim (Assoc.find text_dec h k) [ none ↦ [] | some v ↦ v ]

pub record Request : Type 0 where
  pub method : Text
  pub host : Text
  pub remote_addr : Text
  pub path : Text
  pub raw_query : Text
  pub headers : Header
  -- `BasicAuth()`
  pub credentials : Option (Text × Text)

abbrev pub is_bracket : ℕ → Bool
is_bracket c = c == b'[' || c == b']'

abbrev pub or_trimmed : Text → Option (Text × Text) → Text
or_trimmed host none = trim is_bracket host
or_trimmed host (some (h, port)) = h

unfoldable pub normalize_host : Text → Text
unfolding split_host_port
normalize_host host =
    or_trimmed (to_lower (trim_space host)) (split_host_port (to_lower (trim_space host)))

-- `hostOnly` of control.go
unfoldable pub host_only : Text → Text
unfolding split_host_port
host_only addr = elim (split_host_port addr) [ none ↦ addr | some (host, port) ↦ host ]

-- `strings.Cut`
abbrev pub cut_or : Text → Option (Text × Text) → Text × Text
cut_or s none = (s, [])
cut_or s (some p) = p

-- The first address of X-Forwarded-For.
unfoldable pub first_address : Text → Text
unfolding cut_first
first_address xff = trim_space (cut_or xff (cut_first b',' xff)).0

unfoldable pub client_ip : Config → Request → Text
client_ip cfg r =
    let remote = host_only r.remote_addr in
    let ip = first_address (header r.headers (codes "X-Forwarded-For")) in
    if cfg.trust_proxy_headers
    then (if is_empty (header r.headers (codes "X-Forwarded-For"))
        then remote
        else if is_empty ip
        then remote
        else ip)
    else remote

unfoldable pub request_path : Request → Text
request_path r = if is_empty r.raw_query then r.path else r.path ++ (b'?' ∷ r.raw_query)

abbrev pub given : Option (Text × Text) → Text × Text
given none = ([], [])
given (some p) = p

unfoldable pub check_basic_auth : Text → Option (Text × Text) → Bool
check_basic_auth basic_auth credentials =
    let want = cut_or basic_auth (cut_first b':' basic_auth) in
    let user_ok = text_eq (given credentials).0 want.0 in
    let pass_ok = text_eq (given credentials).1 want.1 in
    if is_empty basic_auth
    then true
    else elim credentials [ none ↦ false | some p ↦ user_ok && pass_ok ]

-- What the switch and the lookups of `newFrontend` decide.
pub data Route : Type 0 where
  to_api : Route
  unknown_host : Route
  no_tunnel : Text → Route
  to_tunnel : Tunnel → Route

abbrev pub claimed_route : Text → Option Tunnel → Route
claimed_route sub none = no_tunnel sub
claimed_route sub (some t) = to_tunnel t

unfoldable pub route_host : Config → Registry → Text → Route
unfolding claimed
route_host cfg reg host =
    if text_eq host cfg.api_host || text_eq host cfg.domain
    then to_api
    else elim (subdomain_of cfg.domain host) [
      | none ↦ unknown_host
      | some sub ↦ claimed_route sub (claimed reg sub)
    ]

unfoldable pub route : Config → Registry → Request → Route
route cfg reg r = route_host cfg reg (normalize_host r.host)

-- What ends the wait of `waitReady` for a tunnel that is not ready.
pub data Wakeup : Type 0 where
  made_ready was_closed cancelled timed_out : Wakeup

unfoldable pub wait_ready : Bool → Wakeup → Bool
wait_ready true w = true
wait_ready false made_ready = true
wait_ready false was_closed = false
wait_ready false cancelled = false
wait_ready false timed_out = false

-- The request as the backend sees it.
pub record Outgoing : Type 0 where
  pub scheme : Text
  pub url_host : Text
  pub host : Text
  pub headers : Header

abbrev pub set_if : Bool → Text → Text → Header → Header
set_if b k v h = if b then Assoc.put text_dec h k v else h

-- `Rewrite` of `buildProxy`; `out` has the headers that the library has copied.
unfoldable pub rewrite : Config → Tunnel → Request → Header → Outgoing
rewrite cfg tun r out =
    let ip = client_ip cfg r in
    let h1 = Assoc.put text_dec out (codes "X-Forwarded-Host") r.host in
    let h2 = Assoc.put text_dec h1 (codes "X-Forwarded-Proto") (cfg_scheme cfg) in
    let h3 = Assoc.put text_dec h2 (codes "X-Zerock-Tunnel") tun.id in
    let h4 = set_if (not (is_empty ip)) (codes "X-Forwarded-For") ip h3 in
    let h5 = set_if (not (is_empty ip)) (codes "X-Real-Ip") ip h4 in
    record {
      scheme = codes "http";
      url_host = tun.local_addr;
      host = r.host;
      headers =
          if is_empty tun.basic_auth then h5 else Assoc.erase text_dec h5 (codes "Authorization");
    }

pub record Answer : Type 0 where
  -- The event went to the agent.
  pub delivered : Bool
  pub cell : Cell
  pub effects : List Effect

-- `emit`, given whether the write to the event stream succeeds; a failed write drops the stream.
unfoldable pub emit : Bool → Cell → Answer
emit written c =
    if not c.events
    then record { delivered = false; cell = c; effects = [] }
    else if written
    then record { delivered = true; cell = c; effects = [] }
    else record {
      delivered = false;
      cell = record c { events = false };
      effects = close_events ∷ [];
    }

-- What a request comes to.
pub data Outcome : Type 0 where
  api_call : Outcome
  edge_error : ℕ → Outcome
  proxied : Outgoing → Answer → Outcome

-- What the proxy reports: the bytes of the body that were read, those of the response that were
-- written, and whether the agent takes the event.
pub record Exchange : Type 0 where
  pub body_read : ℕ
  pub written : ℕ
  pub event_written : Bool

unfoldable pub proxy_http : Config → Tunnel → Cell → Request → Header → Exchange → Outcome
proxy_http cfg tun c r out x =
    if not (check_basic_auth tun.basic_auth r.credentials)
    then edge_error 401
    else proxied (rewrite cfg tun r out)
        (emit x.event_written (record_traffic x.body_read x.written c))

unfoldable pub dispatch :
    Config → (ℕ → Cell) → Wakeup → Request → Header → Exchange → Route → Outcome
dispatch cfg cells wakeup r out x to_api = api_call
dispatch cfg cells wakeup r out x unknown_host = edge_error 404
dispatch cfg cells wakeup r out x (no_tunnel sub) = edge_error 404
dispatch cfg cells wakeup r out x (to_tunnel t) =
    if not (wait_ready (cells t.ref).ready wakeup)
    then edge_error 503
    else proxy_http cfg t (cells t.ref) r out x

unfoldable pub front_end :
    Config → Registry → (ℕ → Cell) → Wakeup → Request → Header → Exchange → Outcome
unfolding dispatch
front_end cfg reg cells wakeup r out x = dispatch cfg cells wakeup r out x (route cfg reg r)

-- `redirectToHTTPS`: `none` is not found, or the host and the path of the target.
unfoldable pub redirect_to_https : Request → Option (Text × Text)
redirect_to_https r = elim (cut_prefix r.path (codes "/.well-known/acme-challenge/")) [
  | some rest ↦ none
  | none ↦ some (normalize_host r.host, request_path r)
]
