-- ===== src/Server/Session.antt =====
-- internal/server/control.go: `handleControlConn`, one agent's session from the first byte to the
-- release of its tunnel. What the network answers at each step is the record `Connection`; what the
-- other handlers do while the session is open is a function on the server's state.
pub mod Released
mod Examples
use zerock.Prelude.{
  ℕ, Bool, true, false, ◌&&◌, not, Option, none, some, List, [], ◌++◌, Text, text_eq, if◌then◌else◌,
}
use zerock.Bolt.{Bolt}
use zerock.Store.Tokens.{touch_token}
use zerock.Server.Config.{Config}
use zerock.Server.Tunnel.{Tunnel, Cell, type_tcp, mark_ready, attach_events}
use zerock.Server.Control.{
  Hello, HelloAck, Code, Step, go, refused, Arrival, Grant, authorize, opened_cell,
}
use zerock.Server.Api.{Live, State, ready, tagged, set_cell, touched_or}
use zerock.Server.Lifecycle.{release_tunnel}

-- What becomes of the event stream that the server opens.
pub data EventStream : Type 0 where
  not_opened broken attached : EventStream

pub record Connection (bolt : Bolt) : Type 0 where
  pub sets_deadline : Bool
  -- `none` is a frame that cannot be read.
  pub hello : Option Hello
  pub ack_written : Bool
  pub clears_deadline : Bool
  pub opens_session : Bool
  pub events : EventStream
  -- The instant of the touch.
  pub later : ℕ
  pub meanwhile : State bolt → State bolt

-- What the agent was sent.
pub data Told : Type 0 where
  nothing : Told
  refusal : Code → Told
  acceptance : HelloAck → Told

unfoldable pub update_cell : ℕ → (Cell → Cell) → Live → Live
update_cell ref f l = record l { cells = set_cell l.cells ref (f (l.cells ref)) }

abbrev pub with_events : EventStream → Cell → Cell
with_events not_opened c = c
with_events broken c = c
with_events attached c = attach_events c

-- From the session to the moment the tunnel is routable.
unfoldable pub open_session : EventStream → Cell → Cell
open_session e c = mark_ready (with_events e (record c { session = true }))

-- The state in which `authorize` leaves a grant.
unfoldable pub granted : {bolt : Bolt} → Grant → State bolt → State bolt
granted g s = record s {
  live = record s.live {
    registry = g.registry;
    cells = set_cell s.live.cells g.tunnel.ref (opened_cell g.tunnel);
  };
}

unfoldable pub released : {bolt : Bolt} → Tunnel → State bolt → State bolt
released t s = record s { live = release_tunnel (some t) s.live }

module _ (bolt : Bolt) where
  -- The session of a tunnel that was acknowledged, until the agent goes away.
  unfoldable pub serve_session : Grant → Connection bolt → State bolt → State bolt
  serve_session g conn s =
      let live = update_cell g.tunnel.ref (open_session conn.events) s.live in
      let opened : State bolt = record {
        db = touched_or bolt s.db (touch_token bolt conn.later s.db g.token.id);
        live = live;
      } in
      if text_eq g.tunnel.type type_tcp && not (live.cells g.tunnel.ref).listener
      then opened
      else conn.meanwhile opened

  -- What follows a grant, up to the release that ends every path.
  unfoldable pub run_granted : Grant → Connection bolt → State bolt → State bolt
  run_granted g conn s =
      if not conn.ack_written
      then s
      else if not conn.clears_deadline
      then s
      else if not conn.opens_session
      then s
      else serve_session g conn s

  unfoldable pub after_authorize : Step Grant → Connection bolt → State bolt → ℕ → State bolt × Told
  after_authorize (refused code es) conn s ref = (
    record s { live = record s.live { effects = s.live.effects ++ tagged ref es } },
    refusal code,
  )
  after_authorize (go g) conn s ref =
      (released g.tunnel (run_granted g conn (granted g s)), acceptance g.ack)

  unfoldable pub after_hello :
      (Text → List ℕ)
      → Config
      → Arrival
      → Connection bolt
      → State bolt
      → Option Hello
      → State bolt × Told
  unfolding after_authorize
  after_hello sha256 cfg arrival conn s none = (s, nothing)
  after_hello sha256 cfg arrival conn s (some hello) =
      after_authorize (authorize bolt sha256 cfg (ready s.live) s.live.registry s.db arrival hello)
        conn s arrival.tunnel_ref

  unfoldable pub handle_control_conn :
      (Text → List ℕ) → Config → Arrival → Connection bolt → State bolt → State bolt × Told
  unfolding after_hello
  handle_control_conn sha256 cfg arrival conn s =
      if not conn.sets_deadline
      then (s, nothing)
      else after_hello sha256 cfg arrival conn s conn.hello
