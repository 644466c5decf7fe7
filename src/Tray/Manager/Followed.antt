-- ===== src/Tray/Manager/Followed.antt =====
-- internal/tray/manager.go with internal/client/agent.go: the status of a tunnel follows its agent.
use mathlib.Core.Option
use zerock.Prelude.{
  ◌∙◌, ap, or_kept, ℕ, ◌+◌, ◌≡◌, ◌↔◌, refl, Bool, true, false, ◌||◌, not, Option, none, some, List,
  [], ◌∷◌, Text, is_empty, if◌then◌else◌, arith, all,
}
use zerock.Prelude.Lists.{tally}
use zerock.Server.Control.{HelloAck}
use zerock.Client.Profiles.{Profile, SavedTunnel}
use zerock.Client.Agent.{
  Attempt, Note, on_connect, on_event, on_disconnect, SessionError, Finish, stopped, failed, run,
}
use zerock.Client.Agent.Rounds.{is_last, run_goes_on}
use zerock.Tray.Manager.{
  state_up, state_connecting, state_reconnecting, state_failed, state_stopped, State, Status,
  is_failed, active, starting, agent_options, connected, is_request, heard, disconnected, noted,
  ended, noted_all, ended_if, shown,
}

-- The calls of the Handler that the widget counts.
abbrev pub is_counted : Note → Bool
is_counted (on_connect ack again) = false
is_counted (on_event ev) = is_request ev
is_counted (on_disconnect e backoff) = false

-- A failed tunnel has a message.
abbrev pub says_why : Status → Bool
says_why st = not (is_failed st.state) || not (is_empty st.err)

-- The state that a call of the Handler stands for, if it stands for one.
abbrev pub phase_of : Note → Option State
phase_of (on_connect ack again) = some state_up
phase_of (on_event ev) = none
phase_of (on_disconnect e backoff) = some state_reconnecting

abbrev pub acknowledged : Note → Option HelloAck
acknowledged (on_connect ack again) = some ack
acknowledged (on_event ev) = none
acknowledged (on_disconnect e backoff) = none

abbrev pub or_found {ℓ} : {A : Type ℓ} → Option A → Option A → Option A
or_found none o = o
or_found (some a) o = some a

-- What the last note has that has anything.
abbrev pub last_of {ℓ} : {A : Type ℓ} → (Note → Option A) → List Note → Option A
last_of f [] = none
last_of f (n ∷ notes) = or_found (last_of f notes) (f n)

-- What is kept of two calls, the later one first.
kept-found {ℓ} :
    {A B : Type ℓ} (f : A → B) (d : B) (o p : Option A)
    → or_kept (or_kept d (Option.map f p)) (Option.map f o)
      ≡ or_kept d (Option.map f (or_found o p))
kept-found f d none p = refl
kept-found f d (some a) p = refl

kept-found_plain {ℓ} :
    {A : Type ℓ} (d : A) (o p : Option A) → or_kept (or_kept d p) o ≡ or_kept d (or_found o p)
kept-found_plain d none p = refl
kept-found_plain d (some a) p = refl

abbrev pub id_of : HelloAck → Text
id_of ack = ack.tunnel_id

abbrev pub target_of : HelloAck → Text
target_of ack = if is_empty ack.public_addr then ack.url else ack.public_addr

-- What a status shows of the calls: the state, the tunnel's id and the target.
pub record IsShown (notes : List Note) (st : Status) : Type 0 where
  pub state : st.state ≡ or_kept state_connecting (last_of phase_of notes)
  pub tunnel_id : st.tunnel_id ≡ or_kept [] (Option.map id_of (last_of acknowledged notes))
  pub target : st.target ≡ or_kept [] (Option.map target_of (last_of acknowledged notes))

-- The state once `Run` has returned.
abbrev pub end_state : Bool → Finish → State
end_state true f = state_stopped
end_state false stopped = state_failed
end_state false (failed e) = state_failed

module _ (error_text : SessionError → Text) where
  noted-active : (n : Note) (st : Status) → active st ≡ true → active (noted error_text n st) ≡ true
  unfolding noted connected heard disconnected
  noted-active (on_connect ack again) st h = refl
  noted-active (on_event ev) st h = ground arith
  noted-active (on_disconnect e backoff) st h = refl

  noted-requests :
      (n : Note) (st : Status)
      → (noted error_text n st).requests ≡ (if is_counted n then 1 else 0) + st.requests
  unfolding noted connected heard disconnected
  noted-requests (on_connect ack again) st = ground arith
  noted-requests (on_event ev) st = ground arith
  noted-requests (on_disconnect e backoff) st = ground arith

  noted_all-active :
      (notes : List Note) (st : Status)
      → active st ≡ true
      → active (noted_all error_text notes st) ≡ true
  unfolding noted_all
  noted_all-active [] st h = h
  noted_all-active (n ∷ notes) st h =
      noted_all-active notes (noted error_text n st) (noted-active n st h)

  noted_all-requests :
      (notes : List Note) (st : Status)
      → (noted_all error_text notes st).requests ≡ tally is_counted notes + st.requests
  unfolding noted_all
  noted_all-requests [] st = ground arith
  noted_all-requests (n ∷ notes) st =
      omega (arith, noted_all-requests notes (noted error_text n st), noted-requests n st)

  ended_lem :
      (c : Bool) (f : Finish) (st : Status)
      → ((e : SessionError) → is_empty (error_text e) ≡ false)
      → (active (ended error_text c f st) ≡ false)
        × ((ended error_text c f st).state ≡ end_state c f)
        × (says_why (ended error_text c f st) ≡ true)
        × ((ended error_text c f st).requests ≡ st.requests)
  unfolding ended
  ended_lem true f st h = ground arith
  ended_lem false stopped st h = ground arith
  ended_lem false (failed e) st h = ground (arith, h e)

  ended_if_lem :
      (c : Bool) (o : Option Finish) (st : Status)
      → ((e : SessionError) → is_empty (error_text e) ≡ false)
      → active st ≡ true
      → ((active (ended_if error_text c o st) ≡ true) ↔ (o ≡ none))
        × (says_why (ended_if error_text c o st) ≡ true)
        × ((ended_if error_text c o st).requests ≡ st.requests)
        × ((ended_if error_text c o st).state ≡ or_kept st.state (Option.map (end_state c) o))
  ended_if_lem c none st h a = ground arith
  ended_if_lem c (some f) st h a = ground (arith, ended_lem c f st h)

  noted_shows :
      (n : Note) (st : Status)
      → ((noted error_text n st).state ≡ or_kept st.state (phase_of n))
        × ((noted error_text n st).tunnel_id
            ≡ or_kept st.tunnel_id (Option.map id_of (acknowledged n)))
        × ((noted error_text n st).target
            ≡ or_kept st.target (Option.map target_of (acknowledged n)))
  unfolding noted connected heard disconnected
  noted_shows (on_connect ack again) st = (refl, refl, refl)
  noted_shows (on_event ev) st = ground arith
  noted_shows (on_disconnect e backoff) st = (refl, refl, refl)

  -- The fields of a status that the calls of the Handler set, from any status on.
  noted_all_shows :
      (notes : List Note) (st : Status)
      → ((noted_all error_text notes st).state ≡ or_kept st.state (last_of phase_of notes))
        × ((noted_all error_text notes st).tunnel_id
            ≡ or_kept st.tunnel_id (Option.map id_of (last_of acknowledged notes)))
        × ((noted_all error_text notes st).target
            ≡ or_kept st.target (Option.map target_of (last_of acknowledged notes)))
  unfolding noted_all
  noted_all_shows [] st = (refl, refl, refl)
  noted_all_shows (n ∷ notes) st =
      let (state, id, target) = noted_all_shows notes (noted error_text n st) in
      let (state1, id1, target1) = noted_shows n st in
      let later = last_of phase_of notes in
      let ack = last_of acknowledged notes in
      (
        state ∙ ap (λ d. or_kept d later) state1 ∙ kept-found_plain st.state later (phase_of n),
        id
            ∙ ap (λ d. or_kept d (Option.map id_of ack)) id1
            ∙ kept-found id_of st.tunnel_id ack (acknowledged n),
        target
            ∙ ap (λ d. or_kept d (Option.map target_of ack)) target1
            ∙ kept-found target_of st.target ack (acknowledged n),
      )

  -- For a tunnel that the widget has started, if no error has an empty text. After any calls of the
  -- Handler the tunnel is shown as up if the last call that tells is that it connected, as
  -- reconnecting if it is that it was disconnected, and as connecting before any; its id and its
  -- target are those of the last acknowledgement. Whatever happens in the attempts of its agent, it
  -- is shown as active exactly as long as no attempt was the agent's last; then it is shown as
  -- stopped if its context was cancelled, and else as failed, with a message; and its number of
  -- requests is the number of request and connection events that the agent reported.
  pub shown-run :
      (prof : Profile) (name : Text) (spec : SavedTunnel) (now : ℕ) (seen : List Note)
      (atts : List Attempt) (c : Bool)
      → ((e : SessionError) → is_empty (error_text e) ≡ false)
      → let r = run (agent_options prof spec) atts in
        let st = shown error_text r c (starting name spec now) in
        IsShown seen (noted_all error_text seen (starting name spec now))
        × ((active st ≡ true) ↔ (all (λ att. not (is_last att)) atts ≡ true))
        × (st.state
            ≡ or_kept
                (or_kept state_connecting (last_of phase_of r.notes))
                (Option.map (end_state c) r.finish))
        × (says_why st ≡ true)
        × (st.requests ≡ tally is_counted r.notes)
  unfolding shown agent_options
  shown-run prof name spec now seen atts c h =
      let r = run (agent_options prof spec) atts in
      let s = starting name spec now in
      let (act, why, count, state) =
        ended_if_lem c r.finish (noted_all error_text r.notes s) h
          (noted_all-active r.notes s refl) in
      let (to, from) = run_goes_on (agent_options prof spec) atts refl in
      let (phase, id, target) = noted_all_shows seen s in
      (
        record { state = phase; tunnel_id = id; target = target },
        (λ a. to (act.0 a), λ a. act.1 (from a)),
        state
            ∙ ap (λ p. or_kept p (Option.map (end_state c) r.finish)) (noted_all_shows r.notes s).0,
        why,
        omega (arith, count, noted_all-requests r.notes s),
      )
