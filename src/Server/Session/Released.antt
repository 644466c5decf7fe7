-- ===== src/Server/Session/Released.antt =====
-- internal/server/control.go: no session leaves its tunnel behind.
use zerock.Prelude.{
  ℕ, ◌≡◌, refl, sym, subst, Bool, true, false, ◌&&◌, not, ◌==◌, Option, none, some, List, [], arith,
  Text, text_dec, if◌then◌else◌,
}
use zerock.Prelude.Assoc
use zerock.Bolt.{Bolt}
use zerock.Server.Config.{Config}
use zerock.Server.Tunnel.{Tunnel, Effect}
use zerock.Server.Registry.{Registry, enter, add, remove, count_for_token}
use zerock.Server.Registry.Invariant.{count-remove, count-enter, sub-enter, add_free}
use zerock.Server.Control.{Hello, Code, Step, go, refused, Arrival, Grant, authorize}
use zerock.Server.Control.Granted.{authorize-add}
use zerock.Server.Api.{Live, State, ready}
use zerock.Server.Lifecycle.{release_tunnel, close_ref, closed-close}
use zerock.Server.Session.{
  Connection, Told, nothing, refusal, acceptance, granted, released, run_granted, after_authorize,
  after_hello, handle_control_conn,
}

-- A pointer that stands under no name, and whose cell is closed.
pub record IsGone (t : Tunnel) (l : Live) : Type 0 where
  pub unlisted :
      (u : Tunnel)
      → Assoc.find text_dec l.registry.by_sub t.subdomain ≡ some u
      → (u.ref == t.ref) ≡ false
  pub closed : (l.cells t.ref).closed ≡ true

removed_unlisted :
    (r : Registry) (t u : Tunnel)
    → Assoc.find text_dec (remove r t).by_sub t.subdomain ≡ some u
    → (u.ref == t.ref) ≡ false
unfolding remove
removed_unlisted r t u h =
    ground (arith, Assoc.find-erase text_dec r.by_sub t.subdomain t.subdomain)

release_tunnel-IsGone : (t : Tunnel) (l : Live) → IsGone t (release_tunnel (some t) l)
unfolding release_tunnel close_ref
release_tunnel-IsGone t l = record {
  unlisted = λ u h. removed_unlisted l.registry t u h;
  closed = ground (arith, closed-close (l.cells t.ref) [] false);
}

-- What a session comes to, given what `authorize` decides on the Hello, if one was heard: nothing
-- happened, it was refused with the code that was decided, or it was granted, and the tunnel of that
-- very grant is gone.
pub data Ends {bolt : Bolt} (decided : Option (Step Grant)) (s : State bolt) (s' : State bolt)
    : Told → Type 0 where
  ignored : s' ≡ s → Ends decided s s' nothing
  turned_away :
      (c : Code) (es : List Effect)
      → decided ≡ some (refused c es)
      → s'.db ≡ s.db
      → s'.live.registry ≡ s.live.registry
      → Ends decided s s' (refusal c)
  served :
      (g : Grant)
      → decided ≡ some (go g)
      → IsGone g.tunnel s'.live
      → Ends decided s s' (acceptance g.ack)

guarded :
    {bolt : Bolt} (decided : Option (Step Grant)) (s : State bolt) (b : Bool)
    (p : State bolt × Told)
    → Ends decided s p.0 p.1
    → Ends decided s (if not b then (s, nothing) else p).0 (if not b then (s, nothing) else p).1
guarded decided s true p h = h
guarded decided s false p h = ignored refl

module _ (bolt : Bolt) (sha256 : Text → List ℕ) (cfg : Config) (arrival : Arrival) where
  -- What `authorize` decides on the Hello, if there is one.
  abbrev pub decided_on : State bolt → Option Hello → Option (Step Grant)
  decided_on s none = none
  decided_on s (some hello) =
      some (authorize bolt sha256 cfg (ready s.live) s.live.registry s.db arrival hello)

  after_authorize-Ends :
      (step : Step Grant) (conn : Connection bolt) (s : State bolt)
      → Ends
          (some step)
          s
          (after_authorize bolt step conn s arrival.tunnel_ref).0
          (after_authorize bolt step conn s arrival.tunnel_ref).1
  unfolding after_authorize released
  after_authorize-Ends (refused c es) conn s = turned_away c es refl refl refl
  after_authorize-Ends (go g) conn s =
      served g refl (release_tunnel-IsGone g.tunnel (run_granted bolt g conn (granted g s)).live)

  after_hello-Ends :
      (conn : Connection bolt) (s : State bolt) (hello : Option Hello)
      → Ends
          (decided_on s hello)
          s
          (after_hello bolt sha256 cfg arrival conn s hello).0
          (after_hello bolt sha256 cfg arrival conn s hello).1
  unfolding after_hello
  after_hello-Ends conn s none = ignored refl
  after_hello-Ends conn s (some hello) =
      after_authorize-Ends
        (authorize bolt sha256 cfg (ready s.live) s.live.registry s.db arrival hello) conn s

  -- However a connection ends, at whatever step, and whatever the other handlers do meanwhile: it
  -- was not heard and nothing changed; or `authorize` refused its Hello, it was told so, and neither
  -- the database nor the registry changed; or `authorize` granted a tunnel, and this tunnel no
  -- longer stands under its name in the registry and is closed.
  pub handle_control_conn-Ends :
      (conn : Connection bolt) (s : State bolt)
      → Ends
          (decided_on s conn.hello)
          s
          (handle_control_conn bolt sha256 cfg arrival conn s).0
          (handle_control_conn bolt sha256 cfg arrival conn s).1
  unfolding handle_control_conn
  handle_control_conn-Ends conn s =
      guarded (decided_on s conn.hello) s conn.sets_deadline
        (after_hello bolt sha256 cfg arrival conn s conn.hello) (after_hello-Ends conn s conn.hello)

-- Two registries in which every name has the same holder and every token the same count.
pub record AgreesWith (r r' : Registry) : Type 0 where
  pub names : (k : Text) → Assoc.find text_dec r'.by_sub k ≡ Assoc.find text_dec r.by_sub k
  pub counts : (id : Text) → count_for_token r' id ≡ count_for_token r id

remove-enter :
    (r : Registry) (t : Tunnel)
    → Assoc.find text_dec r.by_sub t.subdomain ≡ none
    → AgreesWith r (remove (enter r t) t)
remove-enter r t free = record {
  names = λ k.
      unfold remove in
      unfold enter in
      ground (
        arith,
        Assoc.find-erase text_dec (enter r t).by_sub t.subdomain k,
        sub-enter r t k,
        sub-enter r t t.subdomain,
      );
  counts = λ id. ground (arith, count-remove (enter r t) t id, count-enter r t id);
}

remove-add : (r r' : Registry) (t : Tunnel) → add r t ≡ some r' → AgreesWith r (remove r' t)
remove-add r r' t h =
    let (free, same) = add_free r t r' h in
    subst (λ (x : Registry). AgreesWith r (remove x t)) same (remove-enter r t free)

module _ (bolt : Bolt) where
  run_failed :
      (g : Grant) (conn : Connection bolt) (s : State bolt)
      → (conn.ack_written && (conn.clears_deadline && conn.opens_session)) ≡ false
      → run_granted bolt g conn s ≡ s
  unfolding run_granted
  run_failed g conn s h = ground arith

  released_registry :
      (g : Grant) (conn : Connection bolt) (s : State bolt)
      → (conn.ack_written && (conn.clears_deadline && conn.opens_session)) ≡ false
      → ((released g.tunnel (run_granted bolt g conn (granted g s))).live.registry
          ≡ remove g.registry g.tunnel)
        × ((released g.tunnel (run_granted bolt g conn (granted g s))).db ≡ s.db)
  unfolding released granted release_tunnel close_ref
  released_registry g conn s h = rw (run_failed g conn (granted g s) h) (refl, refl)

  -- The state is as before, but for the effects on the outside.
  abbrev pub Unchanged : State bolt → State bolt × Told → Type 0
  Unchanged s p = AgreesWith s.live.registry p.0.live.registry × (p.0.db ≡ s.db)

  go-Unchanged :
      (g : Grant) (conn : Connection bolt) (s : State bolt) (ref : ℕ)
      → add s.live.registry g.tunnel ≡ some g.registry
      → (conn.ack_written && (conn.clears_deadline && conn.opens_session)) ≡ false
      → Unchanged s (after_authorize bolt (go g) conn s ref)
  unfolding after_authorize
  go-Unchanged g conn s ref added broke =
      let (reg, db) = released_registry g conn s broke in
      (
        subst (AgreesWith s.live.registry) (sym reg)
            (remove-add s.live.registry g.registry g.tunnel added),
        db,
      )

  hello-Unchanged :
      (sha256 : Text → List ℕ) (cfg : Config) (arrival : Arrival) (conn : Connection bolt)
      (s : State bolt) (hello : Hello) (g : Grant)
      → authorize bolt sha256 cfg (ready s.live) s.live.registry s.db arrival hello ≡ go g
      → (conn.ack_written && (conn.clears_deadline && conn.opens_session)) ≡ false
      → Unchanged s (after_hello bolt sha256 cfg arrival conn s (some hello))
  unfolding after_hello
  hello-Unchanged sha256 cfg arrival conn s hello g h broke =
      subst (λ x. Unchanged s (after_authorize bolt x conn s arrival.tunnel_ref)) (sym h)
        (go-Unchanged g conn s arrival.tunnel_ref
          (authorize-add bolt sha256 cfg (ready s.live) s.live.registry s.db arrival hello g h)
          broke)

  unheard-Unchanged :
      (s : State bolt) (b : Bool) (p : State bolt × Told)
      → Unchanged s p
      → Unchanged s (if not b then (s, nothing) else p)
  unheard-Unchanged s true p h = h
  unheard-Unchanged s false p h = (record { names = λ k. refl; counts = λ id. refl }, refl)

  -- A connection that breaks after its tunnel was granted and before the session is open, be it at
  -- the acknowledgement, the deadline or the multiplexer, leaves the database, the holder of every
  -- name and the count of every token as they were.
  pub handle_control_conn-Unchanged :
      (sha256 : Text → List ℕ) (cfg : Config) (arrival : Arrival) (conn : Connection bolt)
      (s : State bolt) (hello : Hello) (g : Grant)
      → conn.hello ≡ some hello
      → authorize bolt sha256 cfg (ready s.live) s.live.registry s.db arrival hello ≡ go g
      → (conn.ack_written && (conn.clears_deadline && conn.opens_session)) ≡ false
      → Unchanged s (handle_control_conn bolt sha256 cfg arrival conn s)
  unfolding handle_control_conn
  handle_control_conn-Unchanged sha256 cfg arrival conn s hello g heard h broke =
      unheard-Unchanged s conn.sets_deadline (after_hello bolt sha256 cfg arrival conn s conn.hello)
        (subst (λ o. Unchanged s (after_hello bolt sha256 cfg arrival conn s o)) (sym heard)
          (hello-Unchanged sha256 cfg arrival conn s hello g h broke))
