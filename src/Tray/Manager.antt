-- ===== src/Tray/Manager.antt =====
-- internal/tray/manager.go: the tunnels that the tray runs, and their statuses. A run is known by its
-- field `ref`, as a Go pointer would be; what its goroutine and its callbacks do is a step of its own.
-- The calls of `notify`, which only redraws, and the bounded waits are left out.
pub mod Summed
pub mod Followed
pub mod Valid
pub mod Effects
pub mod Steps
pub mod Forgotten
mod Examples
use zerock.Prelude.{
  ℕ, ◌+◌, Bool, true, false, ◌&&◌, ◌||◌, not, ◌==◌, Option, none, some, List, [], ◌∷◌, Text, codes,
  text_eq, text_dec, if◌then◌else◌, is_empty,
}
use zerock.Prelude.Assoc
use zerock.Prelude.Assoc.{Assoc}
use zerock.Prelude.Sorting.{sort, text_lt}
use zerock.Server.Control.{HelloAck, Code}
use zerock.Client.Profiles.{Profile, SavedTunnel, keys}
use zerock.Client.Agent
use zerock.Client.Agent.{
  Options, Event, event_close, Note, on_connect, on_event, on_disconnect, SessionError, lost,
  refused, Finish, stopped, failed,
}

pub data State : Type 0 where
  state_stopped state_connecting state_up state_reconnecting state_failed : State

pub record Status : Type 0 where
  pub name : Text
  pub spec : SavedTunnel
  pub state : State
  pub target : Text
  pub tunnel_id : Text
  pub requests : ℕ
  pub since : ℕ
  pub err : Text

abbrev pub is_active : State → Bool
is_active state_stopped = false
is_active state_connecting = true
is_active state_up = true
is_active state_reconnecting = true
is_active state_failed = false

-- `Status.Active`
abbrev pub active : Status → Bool
active st = is_active st.state

-- A run that is in the map; `cancelled` is `ctx.Err() != nil`.
pub record Run : Type 0 where
  pub ref : ℕ
  pub cancelled : Bool
  pub st : Status

-- `next` is the ref of the next run.
pub record Manager : Type 0 where
  pub runs : Assoc Text Run
  pub next : ℕ

abbrev pub new_manager : Manager
new_manager = record { runs = []; next = 0 }

-- The agent that `Start` runs.
unfoldable pub agent_options : Profile → SavedTunnel → Options
agent_options prof spec = record {
  profile = prof;
  type = spec.type;
  local_host = spec.host;
  local_port = spec.port;
  subdomain = spec.subdomain;
  remote_port = spec.remote_port;
  basic_auth = spec.basic_auth;
  reconnect = true;
}

-- The status of a run that `Start` makes.
abbrev pub starting : Text → SavedTunnel → ℕ → Status
starting name spec now = record {
  name = name;
  spec = spec;
  state = state_connecting;
  target = [];
  tunnel_id = [];
  requests = 0;
  since = now;
  err = [];
}

abbrev pub is_running : Option Run → Bool
is_running none = false
is_running (some r) = active r.st

-- The map's part of `Start`.
unfoldable pub start : Text → SavedTunnel → ℕ → Manager → Manager
unfolding Assoc.put
start name spec now m = if is_running (Assoc.find text_dec m.runs name) then m else record {
  runs =
      Assoc.put text_dec m.runs name
        (record { ref = m.next; cancelled = false; st = starting name spec now });
  next = m.next + 1;
}

abbrev pub cancel : Run → Run
cancel r = record r { cancelled = true }

abbrev pub map_values {ℓ κ} : {V : Type ℓ} {W : Type κ} → (V → W) → Assoc Text V → Assoc Text W
map_values f [] = []
map_values f ((k, v) ∷ m) = (k, f v) ∷ map_values f m

-- What happens to the run of a ref.
abbrev pub touch : ℕ → (Run → Run) → Run → Run
touch k f r = if r.ref == k then f r else r

unfoldable pub with_run : ℕ → (Run → Run) → Manager → Manager
with_run k f m = record m { runs = map_values (touch k f) m.runs }

unfoldable pub stop : Text → Manager → Manager
unfolding with_run
stop name m = elim (Assoc.find text_dec m.runs name) [ none ↦ m | some r ↦ with_run r.ref cancel m ]

-- `delete(m.runs, name)`; between the stop and this, `Forget` waits without the lock.
unfoldable pub delete_run : Text → Manager → Manager
unfolding Assoc.erase
delete_run name m = record m { runs = Assoc.erase text_dec m.runs name }

-- `Forget`, when nothing happens while it waits.
unfoldable pub forget : Text → Manager → Manager
unfolding stop delete_run
forget name m = delete_run name (stop name m)

unfoldable pub stop_all : Manager → Manager
stop_all m = record m { runs = map_values cancel m.runs }

unfoldable pub snapshot : Manager → Assoc Text Status
snapshot m = map_values (λ (r : Run). r.st) m.runs

unfoldable pub tunnel_ids : Assoc Text Status → Assoc Text Bool
unfolding Assoc.put
tunnel_ids [] = []
tunnel_ids ((name, st) ∷ all) =
    let rest = tunnel_ids all in
    if is_empty st.tunnel_id then rest else Assoc.put text_dec rest st.tunnel_id true

abbrev pub is_stopped : State → Bool
is_stopped state_stopped = true
is_stopped state_connecting = false
is_stopped state_up = false
is_stopped state_reconnecting = false
is_stopped state_failed = false

abbrev pub is_failed : State → Bool
is_failed state_stopped = false
is_failed state_connecting = false
is_failed state_up = false
is_failed state_reconnecting = false
is_failed state_failed = true

-- The switch of `Summary`.
unfoldable pub roll_up : State → State × ℕ → State × ℕ
roll_up state_stopped (icon, up) = (icon, up)
roll_up state_connecting (icon, up) =
    (if not (is_failed icon) then state_reconnecting else icon, up)
roll_up state_up (icon, up) = (if is_stopped icon then state_up else icon, up + 1)
roll_up state_reconnecting (icon, up) =
    (if not (is_failed icon) then state_reconnecting else icon, up)
roll_up state_failed (icon, up) = (state_failed, up)

-- The state of `all[name]`; a missing name has the zero Status.
abbrev pub state_of : Option Status → State
state_of none = state_stopped
state_of (some st) = st.state

unfoldable pub summary_loop : Assoc Text Status → List Text → State × ℕ → State × ℕ
unfolding roll_up
summary_loop all [] sum = sum
summary_loop all (name ∷ names) sum =
    summary_loop all names (roll_up (state_of (Assoc.find text_dec all name)) sum)

unfoldable pub summary : Assoc Text Status → State × ℕ
unfolding summary_loop sort text_lt
summary all = summary_loop all (sort text_lt (keys all)) (state_stopped, 0)

abbrev pub event_request : Text
event_request = codes "req"

abbrev pub event_conn : Text
event_conn = codes "conn"

abbrev pub event_notice : Text
event_notice = codes "notice"

unfoldable pub connected : HelloAck → Status → Status
connected ack st = record st {
  state = state_up;
  err = [];
  tunnel_id = ack.tunnel_id;
  target = if is_empty ack.public_addr then ack.url else ack.public_addr;
}

abbrev pub is_request : Event → Bool
is_request ev = text_eq ev.t event_request || text_eq ev.t event_conn

unfoldable pub heard : Event → Status → Status
heard ev st =
    if is_request ev
    then record st { requests = st.requests + 1 }
    else if text_eq ev.t event_close || text_eq ev.t event_notice
    then record st { err = ev.message }
    else st

module _ (error_text : SessionError → Text) where
  unfoldable pub disconnected : Option SessionError → Status → Status
  disconnected e st = record st {
    state = state_reconnecting;
    err = elim e [
      | some e ↦ error_text e
      | none ↦ if is_empty st.err then codes "connection lost" else st.err
    ];
  }

  -- The callbacks of a run.
  unfoldable pub noted : Note → Status → Status
  unfolding connected heard disconnected
  noted (on_connect ack again) st = connected ack st
  noted (on_event ev) st = heard ev st
  noted (on_disconnect e backoff) st = disconnected e st

  -- What the goroutine of a run does when `Run` of the agent has returned.
  unfoldable pub ended : Bool → Finish → Status → Status
  ended true f st = record st { state = state_stopped }
  ended false (failed e) st = record st { state = state_failed; err = error_text e }
  ended false stopped st = record st {
    state = state_failed;
    err = if is_empty st.err then codes "closed by the server" else st.err;
  }

  abbrev pub note_run : Note → Run → Run
  note_run n r = record r { st = noted n r.st }

  abbrev pub end_run : Finish → Run → Run
  end_run f r = record r { st = ended r.cancelled f r.st }

  unfoldable pub noted_all : List Note → Status → Status
  unfolding noted
  noted_all [] st = st
  noted_all (n ∷ notes) st = noted_all notes (noted n st)

  abbrev pub ended_if : Bool → Option Finish → Status → Status
  ended_if c none st = st
  ended_if c (some f) st = ended c f st

  -- What the agent of a run has made of its status.
  unfoldable pub shown : Agent.Run → Bool → Status → Status
  unfolding noted_all ended
  shown r c st = ended_if c r.finish (noted_all r.notes st)
