-- ===== src/Client/Agent/Names.antt =====
-- internal/client/agent.go with internal/server/control.go: the name of a tunnel over a reconnect.
use zerock.Prelude.{
  ℕ, ◌≡◌, refl, sym, ap, ◌∙◌, ◌⊎◌, inl, inr, Bool, true, false, some, List, [], ◌∷◌, arith, Text,
  ◌≤◌, length, is_empty, if◌then◌else◌, to_lower, trim_space,
}
use zerock.Bolt.{Bolt}
use zerock.Namegen.{valid_subdomain}
use zerock.Namegen.Valid.{valid_subdomain_sound}
use zerock.Store.Db.{Db}
use zerock.Store.Reservations.{clean}
use zerock.Server.Config.{Config}
use zerock.Server.Config.Normal.{clean_label}
use zerock.Server.Registry.{Registry}
use zerock.Server.Registry.Invariant.{IsValid}
use zerock.Server.Control.{HelloAck, go, Arrival, Grant, authorize}
use zerock.Server.Control.Names.{InRange}
use zerock.Server.Control.Granted.{authorize-IsLawful, authorize-ack}
use zerock.Prelude.Strings.{trim}
use zerock.Client.Agent.{Options, Agent, Attempt, acceptance, session, answered, serve, hello_of}
use zerock.Client.Agent.Rounds.{is_heard, read_events_lem}

-- After an acknowledged session the agent remembers the name that it was granted, and nothing else
-- of what it asks for has changed.
session-granted_sub :
    (first : Bool) (att : Attempt) (a : Agent) (ack : HelloAck)
    → is_heard att ≡ true
    → att.clears_deadline ≡ true
    → att.reply ≡ some (acceptance ack)
    → ((session first att a).agent.granted_sub ≡ ack.subdomain)
      × ((session first att a).agent.opts ≡ a.opts)
unfolding session answered serve
session-granted_sub first att a ack heard clear reply =
    ground (arith, read_events_lem att.events (record a { granted_sub = ack.subdomain }))

hello_of-subdomain :
    (user_agent hostname : Text) (a : Agent)
    → (hello_of user_agent hostname a).subdomain
      ≡ (if is_empty a.opts.subdomain then a.granted_sub else a.opts.subdomain)
unfolding hello_of
hello_of-subdomain user_agent hostname a = refl

asks_granted :
    (user_agent hostname : Text) (a : Agent)
    → is_empty a.opts.subdomain ≡ true
    → (hello_of user_agent hostname a).subdomain ≡ a.granted_sub
asks_granted user_agent hostname a h = hello_of-subdomain user_agent hostname a ∙ ground arith

asks_own :
    (user_agent hostname : Text) (a : Agent)
    → is_empty a.opts.subdomain ≡ false
    → (hello_of user_agent hostname a).subdomain ≡ a.opts.subdomain
asks_own user_agent hostname a h = hello_of-subdomain user_agent hostname a ∙ ground arith

not_empty : (name : Text) → is_empty (clean name) ≡ false → is_empty name ≡ false
unfolding clean trim_space to_lower trim
not_empty [] h = h
not_empty (c ∷ name) h = refl

-- A granted name is clean and not blank.
label_clean :
    (label : Text)
    → valid_subdomain label ≡ true
    → (clean label ≡ label) × (is_empty (clean label) ≡ false)
unfolding clean
label_clean label v = (
  clean_label label v,
  ap (λ (t : Text). is_empty t) (clean_label label v)
      ∙ has_byte_one label (valid_subdomain_sound label v).0,
)
  where
    has_byte_one : (l : Text) → 1 ≤ length l → is_empty l ≡ false
    has_byte_one [] h = absurd (omega arith)
    has_byte_one (c ∷ l) h = refl

module _ (bolt : Bolt) (sha256 : Text → List ℕ) (cfg : Config) (user_agent hostname : Text) where
  -- Any server state in which a Hello of the agent is granted.
  pub record Granted (a : Agent) (g : Grant) : Type 0 where
    pub ready : ℕ → Bool
    pub reg : Registry
    pub db : Db bolt
    pub arrival : Arrival
    pub valid : IsValid reg
    pub draws : (j : ℕ) → InRange (arrival.draws j)
    pub grants :
        authorize bolt sha256 cfg ready reg db arrival (hello_of user_agent hostname a) ≡ go g

  valid_name : (a : Agent) (g : Grant) → Granted a g → valid_subdomain g.tunnel.subdomain ≡ true
  valid_name a g w =
      (authorize-IsLawful bolt sha256 cfg w.ready w.reg w.db w.arrival
        (hello_of user_agent hostname a) g w.valid w.draws w.grants).grantable.valid

  asked_name :
      (a : Agent) (g : Grant)
      → Granted a g
      → is_empty (clean (hello_of user_agent hostname a).subdomain) ≡ false
      → g.tunnel.subdomain ≡ clean (hello_of user_agent hostname a).subdomain
  asked_name a g w =
      (authorize-IsLawful bolt sha256 cfg w.ready w.reg w.db w.arrival
        (hello_of user_agent hostname a) g w.valid w.draws w.grants).asked

  -- The name that a Hello asks for, once cleaned, and that is not blank, is the one granted.
  name_of_grant :
      (a : Agent) (g : Grant) (name : Text)
      → Granted a g
      → (hello_of user_agent hostname a).subdomain ≡ name
      → is_empty (clean name) ≡ false
      → g.tunnel.subdomain ≡ clean name
  name_of_grant a g name w e ne =
      asked_name a g w (ap (λ (t : Text). is_empty (clean t)) e ∙ ne) ∙ ap clean e

  -- The public name survives a reconnect: where the server granted a session of the agent that was
  -- heard, and the agent read the acceptance, a later grant on the agent's next Hello, by the server
  -- in any state whose registry is well formed, is of the same subdomain. The agent asked for no
  -- name, or for one that is not blank.
  pub session-same_subdomain :
      (first : Bool) (att : Attempt) (a : Agent) (g g' : Grant)
      → (is_empty a.opts.subdomain ≡ true) ⊎ (is_empty (clean a.opts.subdomain) ≡ false)
      → is_heard att ≡ true
      → att.clears_deadline ≡ true
      → att.reply ≡ some (acceptance g.ack)
      → Granted a g
      → Granted (session first att a).agent g'
      → g'.tunnel.subdomain ≡ g.tunnel.subdomain
  session-same_subdomain first att a g g' asked heard clear reply w w' =
      let (kept, opts) = session-granted_sub first att a g.ack heard clear reply in
      let same_opts = ap (λ (o : Options). o.subdomain) opts in
      elim asked [
        | inl no_name ↦
            let (label, not_blank) = label_clean g.tunnel.subdomain (valid_name a g w) in
            let named =
              kept
              ∙ authorize-ack bolt sha256 cfg w.ready w.reg w.db w.arrival
                  (hello_of user_agent hostname a) g w.grants in
            name_of_grant (session first att a).agent g' g.tunnel.subdomain w'
              (asks_granted user_agent hostname (session first att a).agent
                  (ap (λ (t : Text). is_empty t) same_opts ∙ no_name)
                ∙ named)
              not_blank
            ∙ label
        | inr name ↦
            name_of_grant (session first att a).agent g' a.opts.subdomain w'
              (asks_own user_agent hostname (session first att a).agent
                  (ap (λ (t : Text). is_empty t) same_opts ∙ not_empty a.opts.subdomain name)
                ∙ same_opts)
              name
            ∙ sym (
                name_of_grant a g a.opts.subdomain w
                  (asks_own user_agent hostname a (not_empty a.opts.subdomain name)) name)
      ]
