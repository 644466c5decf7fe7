-- ===== src/Client/Agent/Fixtures.antt =====
-- Attempts for the tests of the agent and of what runs it.
use zerock.Prelude.{true, false, none, some, [], ◌∷◌, codes}
use zerock.Server.Fixtures.{grant}
use zerock.Client.Agent.{Attempt, event_close, acceptance}

abbrev pub unreachable : Attempt
unreachable = record {
  dials = false;
  sets_deadline = true;
  hello_written = true;
  reply = none;
  clears_deadline = true;
  multiplexes = true;
  events = [];
  cancelled = false;
  cancelled_waiting = false;
}

-- A session that ends with the connection.
abbrev pub dropped : Attempt
dropped = record unreachable { dials = true; reply = some (acceptance grant.ack) }

-- One that the server ends for good.
abbrev pub closed : Attempt
closed = record dropped {
  events = record { t = event_close; message = codes "token revoked"; final = true } ∷ [];
}
