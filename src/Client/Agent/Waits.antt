-- ===== src/Client/Agent/Waits.antt =====
-- internal/client/agent.go: how often and how long the agent waits between its sessions.
use zerock.Prelude.{
  ℕ, zero, suc, ◌^◌, ◌≡◌, ◌↔◌, refl, ap, ◌∙◌, Bool, true, false, ◌&&◌, ◌||◌, not, Option, none,
  some, List, [], ◌∷◌, arith, ltb, if◌then◌else◌,
}
use native.Mathlib.Nat.{pow-suc}
use zerock.Client.Agent.{
  Options, Agent, Attempt, Session, Finish, any_final, session, Run, decide, continued, max_backoff,
  next_backoff, run_from, run, new_agent,
}
use zerock.Client.Agent.Rounds.{is_heard, is_refusal, is_served, session_lem, decide-none}

-- 2 ^ k seconds, 30 at most.
pub capped : ℕ → ℕ
capped k = if ltb max_backoff (2 ^ k) then max_backoff else 2 ^ k

next_backoff-capped : (k : ℕ) → next_backoff (capped k) ≡ capped (suc k)
unfolding next_backoff capped
next_backoff-capped k = rw (pow-suc 2 k) (ground arith)

-- The waits from the k-th on.
pub schedule : ℕ → ℕ → List ℕ
schedule k zero = []
schedule k (suc n) = capped k ∷ schedule (suc k) n

-- The attempt ends the loop before any wait.
abbrev pub is_final_attempt : Attempt → Bool
is_final_attempt att =
    att.cancelled || (is_heard att && is_refusal att.reply || is_served att && any_final att.events)

-- How often an agent waits: once after each attempt that does not end the loop, up to and with the
-- one in whose wait the caller cancels.
pub waits_after : Bool → List Attempt → ℕ
waits_after reconnect [] = 0
waits_after reconnect (att ∷ atts) =
    let more = waits_after reconnect atts in
    if is_final_attempt att || not reconnect
    then 0
    else if att.cancelled_waiting
    then 1
    else suc more

decide_lem :
    (first : Bool) (att : Attempt) (a : Agent)
    → a.stop_retry ≡ false
    → (decide att (session first att a) ≡ none)
      ↔ ((is_final_attempt att || not a.opts.reconnect) ≡ false)
decide_lem first att a r =
    let (opts, declined, stop) = session_lem first att a in
    let (to, from) = decide-none att (session first att a) in
    let same : (session first att a).agent.opts.reconnect ≡ a.opts.reconnect =
      ap (λ (o : Options). o.reconnect) opts in
    (
      λ h. ground (arith, to h, declined, stop, r, same),
      λ h. from (ground (arith, declined, stop, r, same, h)),
    )

waits-continued :
    (o : Option Finish) (att : Attempt) (k n : ℕ) (b : Bool) (s : Session) (rest : Run)
    → (o ≡ none) ↔ (b ≡ false)
    → (b ≡ false → att.cancelled_waiting ≡ false → rest.waits ≡ schedule (suc k) n)
    → (continued o att (capped k) s rest).waits
      ≡ schedule k (if b then 0 else if att.cancelled_waiting then 1 else suc n)
unfolding continued schedule
waits-continued (some f) att k n true s rest e h = refl
waits-continued (some f) att k n false s rest e h = absurd (ground (arith, e.1 refl))
waits-continued none att k n true s rest e h = absurd (ground (arith, e.0 refl))
waits-continued none att k n false s rest e h = ground (arith, h refl)

waits_from :
    (k : ℕ) (first : Bool) (a : Agent) (atts : List Attempt)
    → a.stop_retry ≡ false
    → (run_from (capped k) first a atts).waits ≡ schedule k (waits_after a.opts.reconnect atts)
unfolding run_from waits_after
waits_from k first a [] r = unfold schedule in refl
waits_from k first a (att ∷ atts) r =
    let s = session first att a in
    let (opts, declined, stop) = session_lem first att a in
    waits-continued (decide att s) att k (waits_after a.opts.reconnect atts)
      (is_final_attempt att || not a.opts.reconnect) s
      (run_from (next_backoff (capped k)) false s.agent atts) (decide_lem first att a r)
      (λ goes waits. rw (next_backoff-capped k) (
        waits_from (suc k) false s.agent atts (ground (arith, stop, r, goes))
        ∙ ap (λ (o : Options). schedule (suc k) (waits_after o.reconnect atts)) opts))

-- The agent waits once after each attempt that does not end the loop, which the caller's cancelling,
-- a refusal, a final close and an agent that does not reconnect do, until the caller cancels in a
-- wait: 1 second after the first attempt, then twice as long after each, and never longer than 30.
pub run_waits :
    (opts : Options) (atts : List Attempt)
    → (run opts atts).waits ≡ schedule 0 (waits_after opts.reconnect atts)
unfolding run capped new_agent
run_waits opts atts = waits_from 0 true (new_agent opts) atts refl
