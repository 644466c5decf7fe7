-- ===== src/Tray/Manager/Examples.antt =====
-- The theorems on the manager at concrete tunnels, and tests.
use mathlib.Core.Option
use zerock.Prelude.{
  or_kept, ◌≡◌, ◌↔◌, refl, true, false, not, some, List, [], ◌∷◌, Text, codes, text_dec, pos, all,
  is_empty,
}
use zerock.Prelude.Lists.{tally}
use zerock.Prelude.Assoc
use zerock.Prelude.Assoc.{Assoc}
use zerock.Prelude.Sorting.{sort, text_lt}
use zerock.Client.Profiles.{SavedTunnel, zero_profile}
use zerock.Server.Fixtures.{grant}
use zerock.Client.Agent.{
  on_connect, Note, SessionError, lost, refused, Attempt, on_event, run, run_from, continued,
  decide, session, answered, serve, read_events, next_backoff, new_agent,
}
use zerock.Client.Agent.Fixtures.{unreachable, dropped}
use zerock.Client.Agent.Rounds.{is_last}
use zerock.Tray.Manager.{
  Status, Run, Manager, new_manager, State, state_up, state_connecting, state_reconnecting,
  state_failed, active, agent_options, starting, start, with_run, forget, note_run, roll_up,
  summary_loop, summary, event_request, connected, heard, disconnected, noted, ended, noted_all,
  shown, is_failed,
}
use zerock.Tray.Manager.Summed.{rolled, count_of, is_trying, is_up, summary_lem}
use zerock.Tray.Manager.Followed.{
  IsShown, phase_of, last_of, end_state, is_counted, says_why, shown-run,
}
use zerock.Tray.Manager.Valid.{IsValid, new_manager-IsValid, start-IsValid}
use zerock.Tray.Manager.Steps.{
  Action, starts, stops, notes, act_all, empty_book, Refines, told_all, act_all-Refines,
}
use zerock.Tray.Manager.Forgotten.{with_run-forget}

abbrev error_text : SessionError → Text
error_text lost = codes "connection refused"
error_text (refused c m) = codes "refused"

errors_speak : (e : SessionError) → is_empty (error_text e) ≡ false
errors_speak lost = refl
errors_speak (refused c m) = refl

abbrev web : SavedTunnel
web = record {
  type = codes "http";
  port = pos 3000;
  host = [];
  subdomain = codes "web";
  remote_port = pos 0;
  basic_auth = [];
  profile = [];
  autostart = false;
}

abbrev in_state : State → Status
in_state s = record (starting (codes "web") web 0) { state = s }

abbrev statuses : Assoc Text Status
statuses =
    (codes "web", in_state state_up)
    ∷ (codes "api", in_state state_failed)
    ∷ (codes "db", in_state state_connecting)
    ∷ []

summary_lem_example :
    summary statuses
    ≡ rolled (count_of is_failed statuses) (count_of is_trying statuses) (count_of is_up statuses)
unfolding Assoc.find text_dec
summary_lem_example = summary_lem statuses (refl, (refl, (refl, tt)))

trouble_wins : summary statuses ≡ (state_failed, 1)
unfolding summary summary_loop roll_up sort text_lt Assoc.find text_dec
trouble_wins = refl

-- A session with a request, then none.
abbrev attempts : List Attempt
attempts =
    record dropped { events = record { t = event_request; message = []; final = false } ∷ [] }
    ∷ unreachable
    ∷ []

shown-run_example :
    let r = run (agent_options zero_profile web) attempts in
    let st = shown error_text r false (starting (codes "web") web 7) in
    IsShown
      (on_connect grant.ack false ∷ [])
      (noted_all error_text (on_connect grant.ack false ∷ []) (starting (codes "web") web 7))
    × ((active st ≡ true) ↔ (all (λ att. not (is_last att)) attempts ≡ true))
    × (st.state
        ≡ or_kept
            (or_kept state_connecting (last_of phase_of r.notes))
            (Option.map (end_state false) r.finish))
    × (says_why st ≡ true)
    × (st.requests ≡ tally is_counted r.notes)
shown-run_example =
    shown-run error_text zero_profile (codes "web") web 7 (on_connect grant.ack false ∷ []) attempts
      false errors_speak

reconnecting :
    (shown error_text
      (run (agent_options zero_profile web) attempts)
      false
      (in_state state_connecting)).state
    ≡ state_reconnecting
unfolding shown agent_options noted_all noted connected heard disconnected ended run run_from
    continued decide session answered serve read_events next_backoff new_agent text_dec
reconnecting = refl

abbrev started : Manager
started = start (codes "web") web 7 new_manager

abbrev event : Note
event = on_event (record { t = event_request; message = []; final = false })

abbrev actions : List (Action error_text)
actions = starts (codes "web") web 7 ∷ notes 0 event ∷ stops (codes "web") ∷ []

act_all-Refines_example :
    IsValid (act_all error_text actions new_manager)
    × Refines (act_all error_text actions new_manager) (told_all error_text actions empty_book)
act_all-Refines_example = act_all-Refines error_text actions

abbrev web_run : Run
web_run = record { ref = 0; cancelled = false; st = starting (codes "web") web 7 }

found_web : Assoc.find text_dec started.runs (codes "web") ≡ some web_run
unfolding start Assoc.find Assoc.put text_dec
found_web = refl

event_of_forgotten :
    with_run 0 (note_run error_text event) (forget (codes "web") started)
    ≡ forget (codes "web") started
event_of_forgotten =
    with_run-forget (codes "web") web_run (note_run error_text event) started
      (start-IsValid (codes "web") web 7 new_manager new_manager-IsValid) found_web

started_twice : start (codes "web") web 9 started ≡ started
unfolding start Assoc.find Assoc.put text_dec
started_twice = refl
