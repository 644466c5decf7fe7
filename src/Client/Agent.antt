-- ===== src/Client/Agent.antt =====
-- internal/client/agent.go: the agent's sessions and the loop that reconnects. What the network and
-- the caller's context do in one round is the record `Attempt`; the calls of the Handler and the
-- frames that were sent are recorded in order. Waits are in seconds.
pub mod Rounds
pub mod Waits
pub mod Names
pub mod Fixtures
mod Examples
use zerock.Prelude.{
  ℕ, ◌*◌, Bool, true, false, ◌&&◌, ◌||◌, not, Option, none, some, List, [], ◌∷◌, ◌++◌, Text, codes,
  text_eq, ℤ, pos, ltb, if◌then◌else◌, is_empty,
}
use zerock.Server.Control.{Hello, HelloAck, Code}
use zerock.Client.Profiles.{Profile}

-- AgentOptions
pub record Options : Type 0 where
  pub profile : Profile
  pub type : Text
  pub local_host : Text
  pub local_port : ℤ
  pub subdomain : Text
  pub remote_port : ℤ
  pub basic_auth : Text
  pub reconnect : Bool

pub record Agent : Type 0 where
  pub opts : Options
  pub granted_sub : Text
  pub stop_retry : Bool

unfoldable pub new_agent : Options → Agent
new_agent opts = record {
  opts = record opts {
    local_host = if is_empty opts.local_host then codes "127.0.0.1" else opts.local_host;
  };
  granted_sub = [];
  stop_retry = false;
}

-- proto.Event, without what is only shown.
pub record Event : Type 0 where
  pub t : Text
  pub message : Text
  pub final : Bool

abbrev pub event_close : Text
event_close = codes "close"

-- The server's answer to a Hello.
pub data Reply : Type 0 where
  refusal : Code → Text → Reply
  acceptance : HelloAck → Reply

-- `lost` is every error that is no refusal.
pub data SessionError : Type 0 where
  lost : SessionError
  refused : Code → Text → SessionError

pub record Attempt : Type 0 where
  pub dials : Bool
  pub sets_deadline : Bool
  pub hello_written : Bool
  -- `none` is a frame that cannot be read.
  pub reply : Option Reply
  pub clears_deadline : Bool
  pub multiplexes : Bool
  -- What the event stream delivers until it ends, or until the bounded wait for it at the end of
  -- the session is over.
  pub events : List Event
  -- The context was cancelled by the end of the session, or in the wait that follows.
  pub cancelled : Bool
  pub cancelled_waiting : Bool

pub data Note : Type 0 where
  on_connect : HelloAck → Bool → Note
  on_event : Event → Note
  on_disconnect : Option SessionError → ℕ → Note

unfoldable pub hello_of : Text → Text → Agent → Hello
hello_of user_agent hostname a = record {
  v = pos 1;
  token = a.opts.profile.token;
  type = a.opts.type;
  subdomain = if is_empty a.opts.subdomain then a.granted_sub else a.opts.subdomain;
  local_host = a.opts.local_host;
  local_port = a.opts.local_port;
  remote_port = a.opts.remote_port;
  basic_auth = a.opts.basic_auth;
  agent = user_agent;
  hostname = hostname;
}

-- The test of `readEvents`.
abbrev pub is_final : Event → Bool
is_final ev = text_eq ev.t event_close && ev.final

abbrev pub any_final : List Event → Bool
any_final [] = false
any_final (ev ∷ evs) = is_final ev || any_final evs

unfoldable pub read_events : List Event → Agent → Agent
read_events [] a = a
read_events (ev ∷ evs) a =
    read_events evs (if is_final ev then record a { stop_retry = true } else a)

abbrev pub event_notes : List Event → List Note
event_notes [] = []
event_notes (ev ∷ evs) = on_event ev ∷ event_notes evs

pub record Session : Type 0 where
  pub agent : Agent
  pub error : Option SessionError
  pub notes : List Note

-- From the acknowledgement to the end of the session.
unfoldable pub serve : Bool → Attempt → Agent → HelloAck → Session
unfolding read_events
serve first att a ack =
    let granted : Agent = record a { granted_sub = ack.subdomain } in
    if not att.clears_deadline
    then record { agent = a; error = some lost; notes = [] }
    else if not att.multiplexes
    then record { agent = granted; error = some lost; notes = [] }
    else record {
      agent = read_events att.events granted;
      error = if att.cancelled then none else some lost;
      notes = on_connect ack (not first) ∷ event_notes att.events;
    }

unfoldable pub answered : Bool → Attempt → Agent → Option Reply → Session
unfolding serve
answered first att a none = record { agent = a; error = some lost; notes = [] }
answered first att a (some (refusal c m)) = record {
  agent = a;
  error = some (refused c m);
  notes = [];
}
answered first att a (some (acceptance ack)) = serve first att a ack

unfoldable pub session : Bool → Attempt → Agent → Session
unfolding answered
session first att a =
    if not (att.dials && (att.sets_deadline && att.hello_written))
    then record { agent = a; error = some lost; notes = [] }
    else answered first att a att.reply

abbrev pub max_backoff : ℕ
max_backoff = 30

unfoldable pub next_backoff : ℕ → ℕ
next_backoff backoff = if ltb max_backoff (backoff * 2) then max_backoff else backoff * 2

-- How `Run` returns.
pub data Finish : Type 0 where
  stopped : Finish
  failed : SessionError → Finish

-- What one round decides: to return, or to wait.
abbrev pub is_refused : Option SessionError → Bool
is_refused none = false
is_refused (some lost) = false
is_refused (some (refused c m)) = true

abbrev pub returned : Option SessionError → Finish
returned none = stopped
returned (some e) = failed e

unfoldable pub decide : Attempt → Session → Option Finish
decide att s =
    if att.cancelled
    then some stopped
    else if is_refused s.error
    then some (returned s.error)
    else if s.agent.stop_retry
    then some stopped
    else if not s.agent.opts.reconnect
    then some (returned s.error)
    else none

pub record Run : Type 0 where
  -- `none`: the rounds that were given are over and the agent goes on.
  pub finish : Option Finish
  pub notes : List Note
  -- The waits between the sessions.
  pub waits : List ℕ

-- The end of a round: the loop returns, or waits, and returns or goes on.
unfoldable pub continued : Option Finish → Attempt → ℕ → Session → Run → Run
continued (some f) att backoff s rest = record { finish = some f; notes = s.notes; waits = [] }
continued none att backoff s rest =
    let waited = s.notes ++ on_disconnect s.error backoff ∷ [] in
    if att.cancelled_waiting
    then record { finish = some stopped; notes = waited; waits = backoff ∷ [] }
    else record { finish = rest.finish; notes = waited ++ rest.notes; waits = backoff ∷ rest.waits }

-- The loop of `Run`, over the rounds that it is given.
unfoldable pub run_from : ℕ → Bool → Agent → List Attempt → Run
run_from backoff first a [] = record { finish = none; notes = []; waits = [] }
run_from backoff first a (att ∷ atts) =
    let s = session first att a in
    let rest = run_from (next_backoff backoff) false s.agent atts in
    continued (decide att s) att backoff s rest

unfoldable pub run : Options → List Attempt → Run
run opts atts = run_from 1 true (new_agent opts) atts
