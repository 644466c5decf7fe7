-- ===== src/Server/Tunnel.antt =====
-- internal/server/registry.go: one tunnel. The fields that are fixed once it is registered are the
-- record `Tunnel`, whose `ref` stands for the pointer; what changes later is the record `Cell`.
use zerock.Prelude.{
  ℕ, ◌+◌, Bool, true, false, ◌&&◌, not, List, [], ◌∷◌, ◌++◌, Text, codes, ℤ, if◌then◌else◌,
  is_empty,
}

abbrev pub type_http : Text
type_http = codes "http"

abbrev pub type_tcp : Text
type_tcp = codes "tcp"

pub record Tunnel : Type 0 where
  pub ref : ℕ
  pub id : Text
  pub subdomain : Text
  pub type : Text
  pub url : Text
  pub public_port : ℤ
  pub local_addr : Text
  pub token_id : Text
  pub token_label : Text
  pub agent_host : Text
  pub agent_ver : Text
  pub remote_ip : Text
  pub started_at : ℕ
  pub basic_auth : Text

-- What the mutex, the flags and the channels of a tunnel guard. A field that holds an interface is
-- here whether it is set.
pub record Cell : Type 0 where
  pub session : Bool
  pub ready : Bool
  pub events : Bool
  pub requests : ℕ
  pub bytes_in : ℕ
  pub bytes_out : ℕ
  pub closed : Bool
  pub listener : Bool

-- What `Close` does to the outside, in order.
pub data Effect : Type 0 where
  close_closed_ch : Effect
  write_close : Text → Bool → Effect
  close_events close_listener close_session : Effect

abbrev pub when : Bool → Effect → List Effect
when b e = if b then e ∷ [] else []

-- `newTunnel`
abbrev pub new_cell : Cell
new_cell = record {
  session = false;
  ready = false;
  events = false;
  requests = 0;
  bytes_in = 0;
  bytes_out = 0;
  closed = false;
  listener = false;
}

unfoldable pub mark_ready : Cell → Cell
mark_ready c = record c { ready = true }

unfoldable pub attach_events : Cell → Cell
attach_events c = record c { events = true }

-- `recordRequest` and `recordConn`, which have one body.
unfoldable pub record_traffic : ℕ → ℕ → Cell → Cell
record_traffic bytes_in bytes_out c = record c {
  requests = c.requests + 1;
  bytes_in = c.bytes_in + bytes_in;
  bytes_out = c.bytes_out + bytes_out;
}

-- The calls of `Close` after the mutex is released, on the fields read under it.
unfoldable pub close_effects : Cell → Text → Bool → List Effect
close_effects c reason final =
    close_closed_ch
    ∷ (when (c.events && not (is_empty reason)) (write_close reason final)
        ++ (when c.events close_events
            ++ (when c.listener close_listener ++ when c.session close_session)))

unfoldable pub close : Cell → Text → Bool → Cell × List Effect
close c reason final = if c.closed then (c, []) else (
  record c { closed = true; events = false; listener = false },
  close_effects c reason final,
)

-- The guard of `openStream`: whether a stream may be opened at all.
unfoldable pub can_open_stream : Cell → Bool
can_open_stream c = if not c.ready then false else c.session
