-- ===== src/Server/Api/Revocation.antt =====
-- internal/server/api.go: what closing the tunnels of a token leaves in the registry.
use zerock.Prelude.{
  ℕ, ◌≤◌, ◌≡◌, refl, ◌∙◌, ◌↔◌, inl, inr, Bool, true, false, ◌&&◌, ◌==◌, none, some, List, [], ◌∷◌,
  arith, Text, codes, text_eq, text_dec, tally, Bool-cases,
}
use zerock.Prelude.Assoc
use zerock.Prelude.Assoc.{Assoc, Unique}
use zerock.Server.Tunnel.{Tunnel}
use zerock.Server.Registry.{Registry, is_listed, list, remove}
use zerock.Server.Registry.Invariant.{IsValid}
use zerock.Server.Registry.Views.{list_lem}
use zerock.Bolt.{Bolt}
use zerock.Store.Token.{Token}
use zerock.Store.Db.{ok, err, not_found}
use zerock.Store.Secret.{parse_token}
use zerock.Store.Tokens.{revoke_token, authenticate}
use zerock.Store.Tokens.Keyed.{IsKeyed}
use zerock.Store.Tokens.Auth.{authenticate-revoke_token}
use zerock.Server.Api.{
  State, TokenDto, token_found, handle_revoke_token, Live, ready, drop, drop_all,
  drop_tunnels_for_token,
}

-- The pointer of u, under the name k.
abbrev is_at : Text → Tunnel → Tunnel → Bool
is_at k u t = text_eq t.subdomain k && t.ref == u.ref

removed_found :
    (r : Registry) (t : Tunnel) (k : Text) (u : Tunnel)
    → Assoc.find text_dec (remove r t).by_sub k ≡ some u
    → (Assoc.find text_dec r.by_sub k ≡ some u) × (is_at k u t ≡ false)
unfolding remove
removed_found r t k u h = ground (arith, Assoc.find-erase text_dec r.by_sub t.subdomain k)

kept_found :
    (r : Registry) (t : Tunnel) (k : Text) (u : Tunnel)
    → Assoc.find text_dec r.by_sub k ≡ some u
    → is_at k u t ≡ false
    → Assoc.find text_dec (remove r t).by_sub k ≡ some u
unfolding remove
kept_found r t k u h e = ground (arith, Assoc.find-erase text_dec r.by_sub t.subdomain k)

dropped_found :
    (reason : Text) (ts : List Tunnel) (l : Live) (k : Text) (u : Tunnel)
    → Assoc.find text_dec (drop_all reason ts l).registry.by_sub k ≡ some u
    → (Assoc.find text_dec l.registry.by_sub k ≡ some u) × (tally (is_at k u) ts ≡ 0)
unfolding drop_all drop
dropped_found reason [] l k u h = (h, refl)
dropped_found reason (t ∷ ts) l k u h =
    let (there, none_left) = dropped_found reason ts (drop reason t l) k u h in
    let (before, apart) = removed_found l.registry t k u there in (before, ground arith)

dropped_kept :
    (reason : Text) (ts : List Tunnel) (l : Live) (k : Text) (u : Tunnel)
    → Assoc.find text_dec l.registry.by_sub k ≡ some u
    → tally (is_at k u) ts ≡ 0
    → Assoc.find text_dec (drop_all reason ts l).registry.by_sub k ≡ some u
unfolding drop_all drop
dropped_kept reason [] l k u h e = h
dropped_kept reason (t ∷ ts) l k u h e =
    dropped_kept reason ts (drop reason t l) k u (kept_found l.registry t k u h (ground arith))
      (ground arith)

module _ (q : Tunnel → Bool) where
  found_counts :
      (m : Assoc Text Tunnel) (k : Text) (u : Tunnel)
      → Assoc.find text_dec m k ≡ some u
      → q u ≡ true
      → 1 ≤ tally q (Assoc.values m)
  unfolding Assoc.find
  found_counts [] k u h e = cc
  found_counts ((j, v) ∷ m) k u h e = ground (arith, found_counts m k u)

  -- Every value stands under its subdomain.
  abbrev Named : Assoc Text Tunnel → Type 0
  Named m = (j : Text) (t : Tunnel) → Assoc.find text_dec m j ≡ some t → t.subdomain ≡ j

  tail-Named :
      (j : Text) (v : Tunnel) (m : Assoc Text Tunnel)
      → Assoc.find text_dec m j ≡ none
      → Named ((j, v) ∷ m)
      → Named m
  unfolding Assoc.find
  tail-Named j v m fresh named i t h = ground (arith, named i t)

  subdomain-head :
      (j : Text) (v : Tunnel) (m : Assoc Text Tunnel) → Named ((j, v) ∷ m) → v.subdomain ≡ j
  unfolding Assoc.find
  subdomain-head j v m named = named j v (ground arith)

  -- Where only the name k passes the test and its tunnel does not, nothing is counted.
  unlisted_counts :
      (m : Assoc Text Tunnel) (k : Text)
      → Unique text_dec m
      → Named m
      → ((t : Tunnel) → q t ≡ true → t.subdomain ≡ k)
      → ((t : Tunnel) → Assoc.find text_dec m k ≡ some t → q t ≡ false)
      → tally q (Assoc.values m) ≡ 0
  unfolding Assoc.find
  unlisted_counts [] k u named only not_k = refl
  unlisted_counts ((j, v) ∷ m) k u named only not_k = ground (
    arith,
    subdomain-head j v m named,
    only v,
    not_k v,
    unlisted_counts m k u.1 (tail-Named j v m u.0 named) only (λ t h. ground (arith, not_k t, u.0)),
  )

module _ (token_id reason : Text) (l : Live) (k : Text) (u : Tunnel) (v : IsValid l.registry) where
  abbrev Gone : Type 0
  Gone = is_listed (ready l) token_id u ≡ false

  abbrev both : Tunnel → Bool
  both t = is_listed (ready l) token_id t && is_at k u t

  counted :
      tally (is_at k u) (list (ready l) l.registry token_id)
      ≡ tally both (Assoc.values l.registry.by_sub)
  counted = (list_lem (ready l) l.registry token_id).1 (is_at k u)

  listed_counts :
      Assoc.find text_dec l.registry.by_sub k ≡ some u
      → tally (is_at k u) (list (ready l) l.registry token_id) ≡ 0
      → Gone
  listed_counts h e = elim (Bool-cases (is_listed (ready l) token_id u)) [
    | inl shown ↦ absurd (
        ground (
          arith,
          counted,
          found_counts both l.registry.by_sub k u h (ground (arith, v.named k u h)),
        ))
    | inr hidden ↦ hidden
  ]

  gone_counts :
      Assoc.find text_dec l.registry.by_sub k ≡ some u
      → Gone
      → tally (is_at k u) (list (ready l) l.registry token_id) ≡ 0
  gone_counts h e =
      counted
      ∙ unlisted_counts both l.registry.by_sub k v.unique v.named (λ t. ground arith)
          (λ t there. ground arith)

-- Dropping the tunnels of a token leaves under each name exactly the tunnel that was there before, if
-- that one was not ready or belongs to another token.
pub drop_tunnels_for_token_lem :
    (token_id reason : Text) (l : Live) (k : Text) (u : Tunnel)
    → IsValid l.registry
    → (Assoc.find text_dec (drop_tunnels_for_token token_id reason l).registry.by_sub k ≡ some u)
      ↔ ((Assoc.find text_dec l.registry.by_sub k ≡ some u)
          × (is_listed (ready l) token_id u ≡ false))
unfolding drop_tunnels_for_token
drop_tunnels_for_token_lem token_id reason l k u v = (
  λ h.
      (let (there, none_left) = dropped_found reason (list (ready l) l.registry token_id) l k u h in
        (there, listed_counts token_id reason l k u v there none_left)),
  λ (there, gone).
      dropped_kept reason (list (ready l) l.registry token_id) l k u there
        (gone_counts token_id reason l k u v there gone),
)

module _ (bolt : Bolt) where
  -- What a revocation that succeeds has done.
  revoke_steps :
      (now later : ℕ) (id : Text) (s s' : State bolt) (actor : Token) (dto : TokenDto)
      → handle_revoke_token bolt now later id s actor ≡ (s', token_found dto)
      → (revoke_token bolt now s.db id ≡ ok s'.db)
        × (s'.live ≡ drop_tunnels_for_token id (codes "token revoked") s.live)
        × (text_eq id actor.id ≡ false)
  unfolding handle_revoke_token
  revoke_steps now later id s s' actor dto h = ground arith

-- After a revocation that succeeds no text with the token's id authenticates, at any time, and none
-- of the tunnels that are left belongs to the token and was ready before.
pub handle_revoke_token-drops :
    (bolt : Bolt) (sha256 : Text → List ℕ) (now later at : ℕ) (id secret full : Text)
    → (s s' : State bolt) (actor : Token) (dto : TokenDto) → IsKeyed bolt s.db
    → IsValid s.live.registry
    → parse_token full ≡ some (id, secret)
    → handle_revoke_token bolt now later id s actor ≡ (s', token_found dto)
    → (authenticate bolt sha256 at s'.db full ≡ err not_found)
      × ((k : Text) (u : Tunnel)
          → Assoc.find text_dec s'.live.registry.by_sub k ≡ some u
          → u.token_id ≡ id
          → ready s.live u.ref ≡ false)
handle_revoke_token-drops bolt sha256 now later at id secret full s s' actor dto keyed v parsed h =
    let (revoked, dropped, other) = revoke_steps bolt now later id s s' actor dto h in
    (
      authenticate-revoke_token bolt sha256 now at s.db s'.db full id secret keyed revoked parsed,
      λ k u there owned.
          let here : Assoc.find text_dec
                (drop_tunnels_for_token id (codes "token revoked") s.live).registry.by_sub k
              ≡ some u =
            rw dropped at there in
          let (was, hidden) =
            (drop_tunnels_for_token_lem id (codes "token revoked") s.live k u v).0 here in
          ground (arith, hidden, owned),
    )
