-- ===== src/Server/Api/Closing.antt =====
-- internal/server/api.go: `handleCloseTunnel`.
use zerock.Prelude.{
  ℕ, ◌≡◌, refl, sym, subst, ap, ◌∙◌, ◌⊎◌, inl, inr, true, false, ◌==◌, ◌++◌, if◌then◌else◌, none,
  some, arith, Text, codes, text_eq, text_dec, Bool-cases, Option-cases,
}
use zerock.Prelude.Assoc
use zerock.Prelude.Assoc.{Assoc}
use zerock.Bolt.{Bolt}
use zerock.Store.Token.{Token}
use zerock.Server.Tunnel.{Tunnel, close}
use zerock.Server.Lifecycle.{closed-close}
use zerock.Server.Registry.{by_id}
use zerock.Server.Registry.Invariant.{IsValid, remove-IsValid}
use zerock.Server.Registry.Views.{by_id_sound}
use zerock.Server.Api.{
  State, Reply, failure, no_content, ready, tagged, drop, is_foreign_to, handle_close_tunnel,
}
use zerock.Server.Api.Ownership.{MayAct, own-MayAct}

module _ (bolt : Bolt) where
  -- What the reply `no_content` of `handleCloseTunnel` means.
  pub record Closes (id : Text) (s : State bolt) (tok : Token) (s' : State bolt) : Type 0 where
    pub tunnel : Tunnel
    pub found : by_id (ready s.live) s.live.registry id ≡ some tunnel
    pub may : MayAct tok tunnel.token_id
    pub same_db : s'.db ≡ s.db
    pub valid : IsValid s'.live.registry
    pub closed : (s'.live.cells tunnel.ref).closed ≡ true
    pub told :
        s'.live.effects
        ≡ s.live.effects
          ++ tagged tunnel.ref
              (close (s.live.cells tunnel.ref) (codes "closed from the API") true).1
    pub untouched : (ref : ℕ) → (ref == tunnel.ref) ≡ false → s'.live.cells ref ≡ s.live.cells ref
    pub names :
        (k : Text)
        → Assoc.find text_dec s'.live.registry.by_sub k ≡ (
            if text_eq tunnel.subdomain k
            then none
            else Assoc.find text_dec s.live.registry.by_sub k)

  -- Why nothing was closed.
  pub data Declines (id : Text) (s : State bolt) (tok : Token) : Reply → Type 0 where
    unknown : by_id (ready s.live) s.live.registry id ≡ none → Declines id s tok (failure 404)
    foreign :
        (tunnel : Tunnel)
        → by_id (ready s.live) s.live.registry id ≡ some tunnel
        → is_foreign_to tok tunnel.token_id ≡ true
        → Declines id s tok (failure 403)

  close_steps :
      (id : Text) (s : State bolt) (tok : Token) (tun : Tunnel)
      → by_id (ready s.live) s.live.registry id ≡ some tun
      → handle_close_tunnel bolt id s tok ≡ (
          if is_foreign_to tok tun.token_id
          then (s, failure 403)
          else (record s { live = drop (codes "closed from the API") tun s.live }, no_content))
  unfolding handle_close_tunnel
  close_steps id s tok tun e = rw (e, handle_close_tunnel)

  drop-Closes :
      (id : Text) (s : State bolt) (tok : Token) (tun : Tunnel)
      → IsValid s.live.registry
      → by_id (ready s.live) s.live.registry id ≡ some tun
      → MayAct tok tun.token_id
      → Closes id s tok (record s { live = drop (codes "closed from the API") tun s.live })
  unfolding drop
  drop-Closes id s tok tun v e may =
      let (named, live, held) = by_id_sound (ready s.live) s.live.registry id tun v e in
      let (v', names, free, count) = remove-IsValid s.live.registry tun v held in
      record {
        tunnel = tun;
        found = e;
        may = may;
        same_db = refl;
        valid = v';
        closed =
            ground (arith, closed-close (s.live.cells tun.ref) (codes "closed from the API") true);
        told = refl;
        untouched = λ ref ne. rw ne refl;
        names = names;
      }

  -- Closing a tunnel over the API changes nothing and replies 404 where no ready tunnel has the id,
  -- and 403 where the caller neither owns it nor is an administrator; else it replies that there is
  -- no content and closes the tunnel: its cell is closed and its agent told so for good, its name is
  -- free, every other name has the tunnel that it had, and no other tunnel's cell is touched.
  pub handle_close_tunnel_lem :
      (id : Text) (s s' : State bolt) (tok : Token) (reply : Reply)
      → IsValid s.live.registry
      → handle_close_tunnel bolt id s tok ≡ (s', reply)
      → ((s' ≡ s) × Declines id s tok reply) ⊎ ((reply ≡ no_content) × Closes id s tok s')
  unfolding handle_close_tunnel
  handle_close_tunnel_lem id s s' tok reply v h =
      elim (Option-cases (by_id (ready s.live) s.live.registry id)) [
        | inl e ↦
            let step : ◌≡◌ {A = State bolt × Reply} (s, failure 404) (s', reply) =
              rw (e, handle_close_tunnel) at h in
            inl
              (sym (ap (λ p. p.0) step), subst (Declines id s tok) (ap (λ p. p.1) step) (unknown e))
        | inr (tun, e) ↦ elim (Bool-cases (is_foreign_to tok tun.token_id)) [
          | inl other ↦
              let step : ◌≡◌ {A = State bolt × Reply} (s, failure 403) (s', reply) =
                rw other at (sym (close_steps id s tok tun e) ∙ h) in
              inl (
                sym (ap (λ p. p.0) step),
                subst (Declines id s tok) (ap (λ p. p.1) step) (foreign tun e other),
              )
          | inr own ↦
              let step : ◌≡◌ {A = State bolt × Reply}
                  (record s { live = drop (codes "closed from the API") tun s.live }, no_content)
                  (s', reply) =
                rw own at (sym (close_steps id s tok tun e) ∙ h) in
              inr (
                sym (ap (λ p. p.1) step),
                subst (λ (p : State bolt × Reply). Closes id s tok (p.0)) step
                    (drop-Closes id s tok tun v e (own-MayAct tok tun.token_id own)),
              )
        ]
      ]
