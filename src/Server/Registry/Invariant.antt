-- ===== src/Server/Registry/Invariant.antt =====
-- internal/server/registry.go: the three maps agree, and `add` and `remove` keep them so.
use mathlib.Core.Option.{some-injective}
use zerock.Prelude.{
  ℕ, ◌+◌, ◌-◌, ◌≡◌, refl, inl, inr, Bool, true, ◌&&◌, not, none, some, arith, Text, text_eq,
  text_dec, ℤ, pos, int_dec, eqb_ℤ, if◌then◌else◌, tally, Option-cases, subst,
}
use zerock.Prelude.Assoc
use zerock.Prelude.Assoc.{Assoc, Unique, is_yes}
use zerock.Server.Tunnel.{Tunnel}
use zerock.Server.Registry.{Registry, new_registry, or_zero, count_for_token, enter, add, remove}

-- How many live tunnels a token holds.
abbrev pub live_count : Text → Registry → ℕ
live_count id r = tally (λ e. text_eq (e.1).token_id id) r.by_sub

abbrev pub has_port : Tunnel → Bool
has_port t = not (eqb_ℤ t.public_port (pos 0))

pub record IsValid (r : Registry) : Type 0 where
  pub unique : Unique text_dec r.by_sub
  pub named : (k : Text) (t : Tunnel) → Assoc.find text_dec r.by_sub k ≡ some t → t.subdomain ≡ k
  pub counted : (id : Text) → count_for_token r id ≡ live_count id r
  pub port_owned :
      (p : ℤ) (t : Tunnel)
      → Assoc.find int_dec r.by_port p ≡ some t
      → (t.public_port ≡ p)
        × (has_port t ≡ true)
        × (Assoc.find text_dec r.by_sub t.subdomain ≡ some t)
  pub port_listed :
      (k : Text) (t : Tunnel)
      → Assoc.find text_dec r.by_sub k ≡ some t
      → has_port t ≡ true
      → Assoc.find int_dec r.by_port t.public_port ≡ some t

pub new_registry-IsValid : IsValid new_registry
unfolding count_for_token Assoc.find
new_registry-IsValid = record {
  unique = tt;
  named = λ k t e. cc;
  counted = λ id. refl;
  port_owned = λ p t e. cc;
  port_listed = λ k t e h. cc;
}

pub add_free :
    (r : Registry) (t : Tunnel) (r' : Registry)
    → add r t ≡ some r'
    → (Assoc.find text_dec r.by_sub t.subdomain ≡ none) × (enter r t ≡ r')
unfolding add
add_free r t r' h = elim (Option-cases (Assoc.find text_dec r.by_sub t.subdomain)) [
  | inl e ↦ (e, some-injective (enter r t) r' (rw (e, add) at h))
  | inr (cur, e) ↦ absurd (let bad : none ≡ some r' = rw (e, add) at h in cc)
]

-- What `enter` writes, map by map.
module _ (r : Registry) (t : Tunnel) where
  pub sub-enter :
      (k : Text)
      → Assoc.find text_dec (enter r t).by_sub k
        ≡ (if text_eq t.subdomain k then some t else Assoc.find text_dec r.by_sub k)
  unfolding enter
  sub-enter k = Assoc.find-put text_dec r.by_sub t.subdomain k t

  port-enter :
      (p : ℤ)
      → Assoc.find int_dec (enter r t).by_port p ≡ (
          if has_port t && is_yes (int_dec t.public_port p)
          then some t
          else Assoc.find int_dec r.by_port p)
  unfolding enter
  port-enter p = ground (arith, Assoc.find-put int_dec r.by_port t.public_port p t)

  pub count-enter :
      (id : Text)
      → count_for_token (enter r t) id
        ≡ (if text_eq t.token_id id then 1 else 0) + count_for_token r id
  unfolding enter count_for_token
  count-enter id = ground (
    arith,
    Assoc.find-put text_dec r.by_token t.token_id id
        (or_zero (Assoc.find text_dec r.by_token t.token_id) + 1),
  )

  live-enter :
      (id : Text)
      → Assoc.find text_dec r.by_sub t.subdomain ≡ none
      → live_count id (enter r t) ≡ (if text_eq t.token_id id then 1 else 0) + live_count id r
  unfolding enter Assoc.put
  live-enter id free = rw (Assoc.erase_absent text_dec r.by_sub t.subdomain free)

module _ (r : Registry) (t : Tunnel) (v : IsValid r)
    (free : Assoc.find text_dec r.by_sub t.subdomain ≡ none)
    (port_free : has_port t ≡ true → Assoc.find int_dec r.by_port t.public_port ≡ none) where
  enter-port_owned :
      (p : ℤ) (u : Tunnel)
      → Assoc.find int_dec (enter r t).by_port p ≡ some u
      → (u.public_port ≡ p)
        × (has_port u ≡ true)
        × (Assoc.find text_dec (enter r t).by_sub u.subdomain ≡ some u)
  enter-port_owned p u e =
      ground (arith, port-enter r t p, sub-enter r t u.subdomain, v.port_owned p u, free)

  enter-port_listed :
      (k : Text) (u : Tunnel)
      → Assoc.find text_dec (enter r t).by_sub k ≡ some u
      → has_port u ≡ true
      → Assoc.find int_dec (enter r t).by_port u.public_port ≡ some u
  enter-port_listed k u e h =
      ground (arith, sub-enter r t k, port-enter r t u.public_port, v.port_listed k u, port_free)

  enter-IsValid : IsValid (enter r t)
  enter-IsValid = record {
    unique = unfold enter in Assoc.put-Unique text_dec r.by_sub t.subdomain t v.unique;
    named = λ k u e. ground (arith, sub-enter r t k, v.named k u);
    counted = λ id. ground (arith, count-enter r t id, live-enter r t id free, v.counted id);
    port_owned = enter-port_owned;
    port_listed = enter-port_listed;
  }

-- A tunnel that `add` accepts has a free name, becomes the holder of it, and leaves the registry
-- valid, if its port is not taken.
pub add-IsValid :
    (r : Registry) (t : Tunnel) (r' : Registry)
    → IsValid r
    → (has_port t ≡ true → Assoc.find int_dec r.by_port t.public_port ≡ none)
    → add r t ≡ some r'
    → IsValid r'
      × (Assoc.find text_dec r.by_sub t.subdomain ≡ none)
      × (Assoc.find text_dec r'.by_sub t.subdomain ≡ some t)
      × (count_for_token r' t.token_id ≡ count_for_token r t.token_id + 1)
add-IsValid r t r' v port_free h =
    let (free, same) = add_free r t r' h in
    (
      subst IsValid same (enter-IsValid r t v free port_free),
      free,
      rw (← same) (ground (arith, sub-enter r t t.subdomain)),
      rw (← same) (ground (arith, count-enter r t t.token_id)),
    )

-- What `remove` leaves, map by map.
module _ (r : Registry) (t : Tunnel) where
  pub count-remove :
      (id : Text)
      → count_for_token (remove r t) id
        ≡ (if text_eq t.token_id id then count_for_token r id - 1 else count_for_token r id)
  unfolding remove count_for_token
  count-remove id = ground (
    arith,
    Assoc.find-put text_dec r.by_token t.token_id id
        (or_zero (Assoc.find text_dec r.by_token t.token_id) - 1),
    Assoc.find-erase text_dec r.by_token t.token_id id,
  )

  sub-remove :
      (k : Text)
      → Assoc.find text_dec r.by_sub t.subdomain ≡ some t
      → Assoc.find text_dec (remove r t).by_sub k
        ≡ (if text_eq t.subdomain k then none else Assoc.find text_dec r.by_sub k)
  unfolding remove
  sub-remove k held = ground (arith, Assoc.find-erase text_dec r.by_sub t.subdomain k)

  port-remove :
      (p : ℤ)
      → (has_port t ≡ true → Assoc.find int_dec r.by_port t.public_port ≡ some t)
      → Assoc.find int_dec (remove r t).by_port p ≡ (
          if has_port t && is_yes (int_dec t.public_port p)
          then none
          else Assoc.find int_dec r.by_port p)
  unfolding remove
  port-remove p listed = ground (arith, listed, Assoc.find-erase int_dec r.by_port t.public_port p)

  live-remove :
      (id : Text)
      → Unique text_dec r.by_sub
      → Assoc.find text_dec r.by_sub t.subdomain ≡ some t
      → live_count id r ≡ (if text_eq t.token_id id then 1 else 0) + live_count id (remove r t)
  unfolding remove
  live-remove id u held = ground (
    arith,
    Assoc.tally-erase text_dec (λ e. text_eq (e.1).token_id id) r.by_sub t.subdomain t u held,
  )

module _ (r : Registry) (t : Tunnel) (v : IsValid r)
    (held : Assoc.find text_dec r.by_sub t.subdomain ≡ some t) where
  remove-Unique : Unique text_dec (remove r t).by_sub
  unfolding remove
  remove-Unique =
      ground (arith, Assoc.erase-Unique text_dec r.by_sub t.subdomain v.unique, v.unique)

  listed : has_port t ≡ true → Assoc.find int_dec r.by_port t.public_port ≡ some t
  listed = v.port_listed t.subdomain t held

  remove-port_owned :
      (p : ℤ) (u : Tunnel)
      → Assoc.find int_dec (remove r t).by_port p ≡ some u
      → (u.public_port ≡ p)
        × (has_port u ≡ true)
        × (Assoc.find text_dec (remove r t).by_sub u.subdomain ≡ some u)
  remove-port_owned p u e =
      ground (arith, port-remove r t p listed, sub-remove r t u.subdomain held, v.port_owned p u)

  remove-port_listed :
      (k : Text) (u : Tunnel)
      → Assoc.find text_dec (remove r t).by_sub k ≡ some u
      → has_port u ≡ true
      → Assoc.find int_dec (remove r t).by_port u.public_port ≡ some u
  remove-port_listed k u e h = ground (
    arith,
    sub-remove r t k held,
    port-remove r t u.public_port listed,
    v.port_listed k u,
    v.named k u,
    listed,
  )

  -- Removing the tunnel that holds its name leaves the registry valid; the name and the port are
  -- free, every other name has the tunnel that it had, and the token holds one tunnel less.
  pub remove-IsValid :
      IsValid (remove r t)
      × ((k : Text)
          → Assoc.find text_dec (remove r t).by_sub k
            ≡ (if text_eq t.subdomain k then none else Assoc.find text_dec r.by_sub k))
      × (has_port t ≡ true → Assoc.find int_dec (remove r t).by_port t.public_port ≡ none)
      × (count_for_token r t.token_id ≡ count_for_token (remove r t) t.token_id + 1)
  remove-IsValid = (
    record {
      unique = remove-Unique;
      named = λ k u e. ground (arith, sub-remove r t k held, v.named k u);
      counted =
          λ id. ground (arith, count-remove r t id, live-remove r t id v.unique held, v.counted id);
      port_owned = remove-port_owned;
      port_listed = remove-port_listed;
    },
    λ k. sub-remove r t k held,
    λ h. ground (arith, port-remove r t t.public_port listed),
    ground (
      arith,
      count-remove r t t.token_id,
      live-remove r t t.token_id v.unique held,
      v.counted t.token_id,
    ),
  )
