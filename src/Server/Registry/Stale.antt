-- ===== src/Server/Registry/Stale.antt =====
-- internal/server/registry.go: removing a tunnel that no longer holds its name.
use zerock.Prelude.{
  ◌+◌, ◌≤◌, ◌≡◌, ◌∙◌, true, false, ◌&&◌, none, some, arith, text_dec, int_dec, Bool-cases, inl, inr,
}
use zerock.Prelude.Assoc
use zerock.Prelude.Assoc.{Assoc}
use zerock.Server.Tunnel.{Tunnel}
use zerock.Server.Registry.{Registry, count_for_token, is_cur, remove}
use zerock.Server.Registry.Invariant.{IsValid, live_count, has_port, count-remove, remove-IsValid}

-- The tunnel holds neither its name nor its port: it was removed before, or replaced.
pub record IsStale (r : Registry) (t : Tunnel) : Type 0 where
  pub name : is_cur t (Assoc.find text_dec r.by_sub t.subdomain) ≡ false
  pub port : (has_port t && is_cur t (Assoc.find int_dec r.by_port t.public_port)) ≡ false

-- A stale removal takes nothing out of the two maps of tunnels.
pub remove_stale :
    (r : Registry) (t : Tunnel)
    → IsStale r t
    → ((remove r t).by_sub ≡ r.by_sub) × ((remove r t).by_port ≡ r.by_port)
unfolding remove
remove_stale r t s = (rw s.name, rw s.port)

removed-IsStale :
    (r : Registry) (t : Tunnel)
    → Assoc.find text_dec (remove r t).by_sub t.subdomain ≡ none
    → (has_port t ≡ true → Assoc.find int_dec (remove r t).by_port t.public_port ≡ none)
    → IsStale (remove r t) t
removed-IsStale r t gone closed = elim (Bool-cases (has_port t)) [
  | inl e ↦ record { name = rw gone; port = rw (closed e) (ground arith) }
  | inr e ↦ record { name = rw gone; port = rw e }
]

-- Removing a tunnel a second time, as closing it from the API and then ending its session does,
-- leaves the live tunnels as the first removal left them, but takes one more off the count of its
-- token: while the token holds another tunnel, its count is one short of what it holds.
pub remove_twice-undercounts :
    (r : Registry) (t : Tunnel)
    → IsValid r
    → Assoc.find text_dec r.by_sub t.subdomain ≡ some t
    → 1 ≤ live_count t.token_id (remove r t)
    → ((remove (remove r t) t).by_sub ≡ (remove r t).by_sub)
      × (count_for_token (remove (remove r t) t) t.token_id + 1
          ≡ live_count t.token_id (remove (remove r t) t))
remove_twice-undercounts r t v held others =
    let (v', subs, closed, _) = remove-IsValid r t v held in
    let (same, _) =
      remove_stale (remove r t) t (removed-IsStale r t (subs t.subdomain ∙ ground arith) closed) in
    (same, rw same (ground (arith, count-remove (remove r t) t t.token_id, v'.counted t.token_id)))
