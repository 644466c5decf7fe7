-- ===== src/Server/Control/Granted.antt =====
-- internal/server/control.go: what a granted tunnel guarantees.
use zerock.Prelude.{
  ℕ, ◌+◌, ◌≡◌, refl, sym, ap, ◌∙◌, inl, inr, Bool, true, false, ◌&&◌, none, some, List, [], arith,
  Text, text_eq, text_dec, ℤ, pos, ltb_ℤ, leb_ℤ, int_dec, is_empty, Bool-cases, Option-cases, subst,
}
use zerock.Prelude.Assoc
use zerock.Prelude.Assoc.{passes}
use zerock.Bolt.{Bolt}
use zerock.Store.Token.{Token, has_scope, scope_tunnel}
use zerock.Store.Db.{Db, Result}
use zerock.Store.Tokens.{authenticate}
use zerock.Store.Tokens.Auth.{Proves, authenticate_lem}
use zerock.Store.Reservations.{clean}
use zerock.Server.Config.{Config}
use zerock.Server.Tunnel.{Tunnel, type_tcp, close}
use zerock.Server.Registry.{Registry, count_for_token, add, port_taken}
use zerock.Server.Registry.Invariant.{IsValid, add-IsValid, has_port}
use zerock.Server.Tcp.{Bound, bound, outside, in_use, not_opened, no_free_port, bind_tcp}
use zerock.Server.Tcp.Choice.{bind_tcp_sound}
use zerock.Server.Control.Names.{
  go-injective, >>=-eq-go, InRange, IsGrantable, resolve_subdomain_sound,
}
use zerock.Server.Control.{
  Hello, Code, go, refused, Arrival, Grant, as_step, resolve_subdomain, new_tunnel, with_port,
  choose_port, opened_cell, register, acknowledge, check_hello, check_token, authorize,
}

as_step-eq-go : (r : Result Token) (tok : Token) → as_step r ≡ go tok → r ≡ Result.ok tok
as_step-eq-go (Result.ok t) tok h = ap Result.ok (go-injective t tok h)
as_step-eq-go (Result.err e) tok h = cc

register-add :
    (reg : Registry) (t : Tunnel) (reg' : Registry)
    → register reg t ≡ go reg'
    → add reg t ≡ some reg'
unfolding register
register-add reg t reg' h = elim (Option-cases (add reg t)) [
  | inl e ↦ absurd (
      let bad : refused Code.sub_taken (close (opened_cell t) [] false).1 ≡ go reg' =
        rw (e, register) at h in
      cc)
  | inr (r, e) ↦ e ∙ ap some (go-injective r reg' (rw (e, register) at h))
]

port_taken-none :
    (reg : Registry) (p : ℤ) → port_taken reg p ≡ false → Assoc.find int_dec reg.by_port p ≡ none
unfolding port_taken
port_taken-none reg p h = ground arith

-- A tunnel with its port: who it belongs to is as before, and its port is in the range and free.
pub record IsPlaced (cfg : Config) (reg : Registry) (t u : Tunnel) : Type 0 where
  pub name : u.subdomain ≡ t.subdomain
  pub owner : u.token_id ≡ t.token_id
  pub kind : u.type ≡ t.type
  pub free : has_port u ≡ true → Assoc.find int_dec reg.by_port u.public_port ≡ none
  pub inside :
      has_port u ≡ true
      → (leb_ℤ cfg.tcp_port_range.from u.public_port ≡ true)
        × (leb_ℤ u.public_port cfg.tcp_port_range.to ≡ true)

with_port-bound :
    (cfg : Config) (t : Tunnel) (b : Bound) (u : Tunnel)
    → with_port cfg t b ≡ go u
    → (p : ℤ) × (b ≡ bound p)
      × (u.subdomain ≡ t.subdomain)
      × (u.token_id ≡ t.token_id)
      × (u.type ≡ t.type)
      × (u.public_port ≡ p)
unfolding with_port
with_port-bound cfg t (bound p) u h =
    (p, refl, ground arith, ground arith, ground arith, ground arith)
with_port-bound cfg t outside u h = cc
with_port-bound cfg t in_use u h = cc
with_port-bound cfg t not_opened u h = cc
with_port-bound cfg t no_free_port u h = cc

choose_port-IsPlaced :
    (cfg : Config) (reg : Registry) (arrival : Arrival) (hello : Hello) (t u : Tunnel)
    → has_port t ≡ false
    → choose_port cfg reg arrival hello t ≡ go u
    → IsPlaced cfg reg t u
unfolding choose_port
choose_port-IsPlaced cfg reg arrival hello t u portless h =
    elim (Bool-cases (text_eq hello.type type_tcp)) [
      | inl e ↦
          let (p, chosen, name, owner, kind, at) =
            with_port-bound cfg t (bind_tcp cfg.tcp_port_range reg arrival.listen hello.remote_port)
              u (rw e at h) in
          let (low, high, untaken, _, _) =
            bind_tcp_sound cfg.tcp_port_range reg arrival.listen hello.remote_port p chosen in
          record {
            name = name;
            owner = owner;
            kind = kind;
            free = λ _. port_taken-none reg u.public_port (rw at untaken);
            inside = λ _. (rw at low, rw at high);
          }
      | inr e ↦
          let same = go-injective t u (rw e at h) in
          subst (IsPlaced cfg reg t) same
            (record { name = refl; owner = refl; kind = refl; free = λ b. cc; inside = λ b. cc })
    ]

module _ (bolt : Bolt) (sha256 : Text → List ℕ) (cfg : Config) (ready : ℕ → Bool) (reg : Registry)
    (db : Db bolt) (arrival : Arrival) (hello : Hello) where
  -- The guarantees of a grant.
  pub record IsLawful (g : Grant) : Type 0 where
    pub proved : Proves bolt sha256 arrival.now db hello.token g.token
    pub scoped : has_scope g.token scope_tunnel ≡ true
    pub grantable : IsGrantable bolt cfg ready reg db g.token g.tunnel.subdomain
    pub asked :
        is_empty (clean hello.subdomain) ≡ false → g.tunnel.subdomain ≡ clean hello.subdomain
    pub owner : g.tunnel.token_id ≡ g.token.id
    pub inside :
        has_port g.tunnel ≡ true
        → (leb_ℤ cfg.tcp_port_range.from g.tunnel.public_port ≡ true)
          × (leb_ℤ g.tunnel.public_port cfg.tcp_port_range.to ≡ true)
    pub valid : IsValid g.registry
    pub was_free : Assoc.find text_dec reg.by_sub g.tunnel.subdomain ≡ none
    pub held : Assoc.find text_dec g.registry.by_sub g.tunnel.subdomain ≡ some g.tunnel
    pub limit :
        ltb_ℤ (pos 0) g.token.max_tunnels ≡ true
        → leb_ℤ (pos (count_for_token g.registry g.token.id)) g.token.max_tunnels ≡ true

  within_limit :
      (max : ℤ) (n : ℕ)
      → (ltb_ℤ (pos 0) max && leb_ℤ max (pos n)) ≡ false
      → ltb_ℤ (pos 0) max ≡ true
      → leb_ℤ (pos (n + 1)) max ≡ true
  within_limit max n h k = ground arith

  check_token_sound :
      (tok : Token)
      → check_token reg tok ≡ go tt
      → (has_scope tok scope_tunnel ≡ true)
        × ((ltb_ℤ (pos 0) tok.max_tunnels
              && leb_ℤ tok.max_tunnels (pos (count_for_token reg tok.id)))
            ≡ false)
  unfolding check_token
  check_token_sound tok h = ground arith

  grant_of :
      (tok : Token) (sub : Text) (tun : Tunnel) (reg' : Registry)
      → IsValid reg
      → ((j : ℕ) → InRange (arrival.draws j))
      → authenticate bolt sha256 arrival.now db hello.token ≡ Result.ok tok
      → check_token reg tok ≡ go tt
      → resolve_subdomain bolt cfg ready reg db arrival hello tok ≡ go sub
      → choose_port cfg reg arrival hello (new_tunnel cfg arrival hello tok sub) ≡ go tun
      → register reg tun ≡ go reg'
      → IsLawful (record { tunnel = tun; token = tok; registry = reg'; ack = acknowledge cfg tun })
  unfolding new_tunnel
  grant_of tok sub tun reg' v ranges h1 h2 h3 h4 h5 =
      let (scoped, below) = check_token_sound tok h2 in
      let (grantable, asked) =
        resolve_subdomain_sound bolt cfg ready reg db tok arrival hello sub ranges h3 in
      let placed =
        choose_port-IsPlaced cfg reg arrival hello (new_tunnel cfg arrival hello tok sub) tun
          (ground arith) h4 in
      let (valid, was_free, held, more) =
        add-IsValid reg tun reg' v placed.free (register-add reg tun reg' h5) in
      record {
        proved = ((authenticate_lem bolt sha256 arrival.now db hello.token).0 tok).0 h1;
        scoped = scoped;
        grantable = subst (IsGrantable bolt cfg ready reg db tok) (sym placed.name) grantable;
        asked = λ e. placed.name ∙ asked e;
        owner = placed.owner;
        inside = placed.inside;
        valid = valid;
        was_free = was_free;
        held = held;
        limit = λ k.
            ap (λ (n : ℕ). leb_ℤ (pos n) tok.max_tunnels)
              (ap (count_for_token reg') (sym placed.owner)
                ∙ more
                ∙ ap (λ (i : Text). count_for_token reg i + 1) placed.owner)
            ∙ within_limit tok.max_tunnels (count_for_token reg tok.id) below k;
      }

  -- The steps of an `authorize` that grants, each with what it went on with.
  authorize_steps :
      (g : Grant)
      → authorize bolt sha256 cfg ready reg db arrival hello ≡ go g
      → (tok : Token) × (sub : Text) × (tun : Tunnel) × (reg' : Registry) × (authenticate bolt
            sha256 arrival.now db hello.token
          ≡ Result.ok tok)
        × (check_token reg tok ≡ go tt)
        × (resolve_subdomain bolt cfg ready reg db arrival hello tok ≡ go sub)
        × (choose_port cfg reg arrival hello (new_tunnel cfg arrival hello tok sub) ≡ go tun)
        × (register reg tun ≡ go reg')
        × (◌≡◌ {A = Grant}
            (record { tunnel = tun; token = tok; registry = reg'; ack = acknowledge cfg tun })
            g)
  unfolding authorize
  authorize_steps g h =
      let (_, _, h1) = >>=-eq-go (check_hello hello) _ g h in
      let (tok, a, h2) =
        >>=-eq-go (as_step (authenticate bolt sha256 arrival.now db hello.token)) _ g h1 in
      let (_, b, h3) = >>=-eq-go (check_token reg tok) _ g h2 in
      let (sub, c, h4) =
        >>=-eq-go (resolve_subdomain bolt cfg ready reg db arrival hello tok) _ g h3 in
      let (tun, d, h5) =
        >>=-eq-go (choose_port cfg reg arrival hello (new_tunnel cfg arrival hello tok sub)) _ g
          h4 in
      let (reg', e, h6) = >>=-eq-go (register reg tun) _ g h5 in
      (tok, sub, tun, reg', as_step-eq-go _ tok a, b, c, d, e, go-injective _ g h6)

  -- Every tunnel that `authorize` grants in a valid registry is lawful: its token was proved and has
  -- the scope, its name may be had and was free, its port is in the range, the new registry is valid
  -- and holds the tunnel under its name, and the token is still within its limit.
  pub authorize-IsLawful :
      (g : Grant)
      → IsValid reg
      → ((j : ℕ) → InRange (arrival.draws j))
      → authorize bolt sha256 cfg ready reg db arrival hello ≡ go g
      → IsLawful g
  authorize-IsLawful g v ranges h =
      let (tok, sub, tun, reg', a, b, c, d, e, same) = authorize_steps g h in
      subst IsLawful same (grant_of tok sub tun reg' v ranges a b c d e)

  -- The registry of a grant is the old one with the tunnel added.
  pub authorize-add :
      (g : Grant)
      → authorize bolt sha256 cfg ready reg db arrival hello ≡ go g
      → add reg g.tunnel ≡ some g.registry
  authorize-add g h =
      let (tok, sub, tun, reg', a, b, c, d, e, same) = authorize_steps g h in
      subst (λ (x : Grant). add reg x.tunnel ≡ some x.registry) same (register-add reg tun reg' e)

  -- The acknowledgement names the tunnel's subdomain.
  pub authorize-ack :
      (g : Grant)
      → authorize bolt sha256 cfg ready reg db arrival hello ≡ go g
      → g.ack.subdomain ≡ g.tunnel.subdomain
  unfolding acknowledge
  authorize-ack g h =
      let (tok, sub, tun, reg', a, b, c, d, e, same) = authorize_steps g h in
      subst (λ (x : Grant). x.ack.subdomain ≡ x.tunnel.subdomain) same refl
