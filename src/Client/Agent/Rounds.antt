-- ===== src/Client/Agent/Rounds.antt =====
-- internal/client/agent.go: what an attempt comes to, and when the agent returns.
use zerock.Prelude.{
  ℕ, ◌≡◌, ◌↔◌, refl, ap, ◌∙◌, Bool, true, false, ◌&&◌, ◌||◌, not, Option, none, some, List, [], ◌∷◌,
  arith, if◌then◌else◌, all,
}
use zerock.Client.Agent.{
  Options, Agent, Event, Reply, refusal, acceptance, Attempt, Session, Finish, is_final, any_final,
  read_events, serve, answered, session, Run, is_refused, decide, continued, next_backoff, run_from,
  run, new_agent,
}

-- What the agent keeps through a session's events.
pub read_events_lem :
    (evs : List Event) (a : Agent)
    → ((read_events evs a).opts ≡ a.opts)
      × ((read_events evs a).granted_sub ≡ a.granted_sub)
      × ((read_events evs a).stop_retry ≡ (any_final evs || a.stop_retry))
unfolding read_events
read_events_lem [] a = ground arith
read_events_lem (ev ∷ evs) a =
    ground (arith, read_events_lem evs (if is_final ev then record a { stop_retry = true } else a))

-- What an attempt says of itself, whatever the agent: the server answered, and with a refusal or
-- with the acknowledgement of a session that was opened.
abbrev pub is_heard : Attempt → Bool
is_heard att = att.dials && (att.sets_deadline && att.hello_written)

abbrev pub is_refusal : Option Reply → Bool
is_refusal none = false
is_refusal (some (refusal c m)) = true
is_refusal (some (acceptance ack)) = false

abbrev pub is_acceptance : Option Reply → Bool
is_acceptance none = false
is_acceptance (some (refusal c m)) = false
is_acceptance (some (acceptance ack)) = true

abbrev pub is_served : Attempt → Bool
is_served att =
    is_heard att && (is_acceptance att.reply && (att.clears_deadline && att.multiplexes))

-- The attempt is the last one: the caller cancels, the server refuses, or it closes the tunnel for
-- good.
abbrev pub is_last : Attempt → Bool
is_last att =
    att.cancelled
    || (att.cancelled_waiting
        || (is_heard att && is_refusal att.reply || is_served att && any_final att.events))

answered_lem :
    (first : Bool) (att : Attempt) (a : Agent) (reply : Option Reply)
    → ((answered first att a reply).agent.opts ≡ a.opts)
      × (is_refused (answered first att a reply).error ≡ is_refusal reply)
      × ((answered first att a reply).agent.stop_retry ≡ (
          is_acceptance reply && (att.clears_deadline && att.multiplexes) && any_final att.events
          || a.stop_retry))
unfolding answered serve
answered_lem first att a none = ground arith
answered_lem first att a (some (refusal c m)) = ground arith
answered_lem first att a (some (acceptance ack)) =
    ground (arith, read_events_lem att.events (record a { granted_sub = ack.subdomain }))

pub session_lem :
    (first : Bool) (att : Attempt) (a : Agent)
    → ((session first att a).agent.opts ≡ a.opts)
      × (is_refused (session first att a).error ≡ (is_heard att && is_refusal att.reply))
      × ((session first att a).agent.stop_retry
          ≡ (is_served att && any_final att.events || a.stop_retry))
unfolding session
session_lem first att a = ground (arith, answered_lem first att a att.reply)

pub decide-none :
    (att : Attempt) (s : Session)
    → (decide att s ≡ none) ↔ (
        (att.cancelled
          || (is_refused s.error || (s.agent.stop_retry || not s.agent.opts.reconnect)))
        ≡ false)
unfolding decide
decide-none att s = ground arith

continued-none :
    (o : Option Finish) (att : Attempt) (backoff : ℕ) (s : Session) (rest : Run)
    → ((continued o att backoff s rest).finish ≡ none)
      ↔ ((o ≡ none) × (att.cancelled_waiting ≡ false) × (rest.finish ≡ none))
unfolding continued
continued-none (some f) att backoff s rest = ground arith
continued-none none att backoff s rest = ground arith

-- Of an agent that reconnects and was not told to stop.
abbrev IsRetrying : Agent → Type 0
IsRetrying a = (a.opts.reconnect ≡ true) × (a.stop_retry ≡ false)

decide-is_last :
    (first : Bool) (att : Attempt) (a : Agent)
    → IsRetrying a
    → ((decide att (session first att a) ≡ none) × (att.cancelled_waiting ≡ false))
      ↔ (is_last att ≡ false)
decide-is_last first att a r =
    let (opts, declined, stop) = session_lem first att a in
    let (to, from) = decide-none att (session first att a) in
    let reconnects : (session first att a).agent.opts.reconnect ≡ true =
      ap (λ (o : Options). o.reconnect) opts ∙ r.0 in
    (
      λ h. ground (arith, to h.0, declined, stop, r.1),
      λ h. (from (ground (arith, declined, stop, r.1, reconnects)), ground (arith, h)),
    )

session-IsRetrying :
    (first : Bool) (att : Attempt) (a : Agent)
    → IsRetrying a
    → is_last att ≡ false
    → IsRetrying (session first att a).agent
session-IsRetrying first att a r h =
    let (opts, declined, stop) = session_lem first att a in
    (ap (λ (o : Options). o.reconnect) opts ∙ r.0, ground (arith, stop, r.1, h))

goes_on_from :
    (backoff : ℕ) (first : Bool) (a : Agent) (atts : List Attempt)
    → IsRetrying a
    → ((run_from backoff first a atts).finish ≡ none) ↔ (all (λ att. not (is_last att)) atts ≡ true)
unfolding run_from
goes_on_from backoff first a [] r = (λ h. refl, λ h. refl)
goes_on_from backoff first a (att ∷ atts) r =
    let s = session first att a in
    let (to, from) =
      continued-none (decide att s) att backoff s
        (run_from (next_backoff backoff) false s.agent atts) in
    let (last_to, last_from) = decide-is_last first att a r in
    (
      λ h.
          let (d, c, more) = to h in
          let going = last_to (d, c) in
          rw (
            going,
            (goes_on_from (next_backoff backoff) false s.agent atts
                  (session-IsRetrying first att a r going)).0
                more,
          ),
      λ h.
          let going : is_last att ≡ false = ground (arith, h) in
          let (d, c) = last_from going in
          from (
            d,
            c,
            (goes_on_from (next_backoff backoff) false s.agent atts
                  (session-IsRetrying first att a r going)).1
                (ground (arith, h)),
          ),
    )

-- An agent that reconnects goes on exactly as long as no attempt is its last: the caller cancels,
-- the server refuses the tunnel, or it closes it for good. Any other failure is retried, however
-- often.
pub run_goes_on :
    (opts : Options) (atts : List Attempt)
    → opts.reconnect ≡ true
    → ((run opts atts).finish ≡ none) ↔ (all (λ att. not (is_last att)) atts ≡ true)
unfolding run new_agent
run_goes_on opts atts h = goes_on_from 1 true (new_agent opts) atts (h, refl)
