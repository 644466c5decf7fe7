-- ===== src/Server/Api/Ownership.antt =====
-- internal/server/api.go: who may reach a handler, and on whose records it may act.
use zerock.Prelude.{
  ℕ, ◌≡◌, ◌≢◌, ℤ, refl, sym, subst, ◌∙◌, ◌⊎◌, inl, inr, Bool, true, false, ◌&&◌, not, none, some,
  List, [], ◌∷◌, arith, Text, codes, text_eq, text_dec, tally, Bool-cases, Option-cases, is_empty,
  to_lower, trim_space,
}
use zerock.Prelude.Strings.{cut_prefix}
use zerock.Prelude.Assoc
use zerock.Prelude.Assoc.{Assoc}
use zerock.Bolt.{Bolt}
use zerock.Namegen.{valid_subdomain}
use zerock.Store.Token.{Token, has_scope, scope_admin}
use zerock.Store.Db.{Result, ok, err, StoreError, Reservation}
use zerock.Store.Tokens.{authenticate, touch_token, get_token}
use zerock.Store.Tokens.Auth.{Proves, authenticate_lem}
use zerock.Store.Reservations.{clean, reservation, release, reserve}
use zerock.Store.Reservations.Laws.{reserve-exclusive, release_lem}
use zerock.Server.Config.{Config, is_reserved}
use zerock.Server.Registry.{Registry, list, is_listed}
use zerock.Server.Registry.Views.{list_lem}
use zerock.Server.Api.{
  State, Reply, failure, no_content, reserved, ready, is_foreign_to, owner_filter, touched_or,
  authed, handle_release, handle_reserve, effective_reservation_limit, reserve_for, ReserveRequest,
}

Result-cases :
    {A : Type 0} (r : Result A) → ((e : StoreError) × (r ≡ err e)) ⊎ ((a : A) × (r ≡ ok a))
Result-cases (ok a) = inr (a, refl)
Result-cases (err e) = inl (e, refl)

-- The token owns what it acts on, or has the admin scope.
abbrev pub MayAct : Token → Text → Type 0
MayAct tok owner = (owner ≡ tok.id) ⊎ (has_scope tok scope_admin ≡ true)

pub own-MayAct : (tok : Token) (owner : Text) → is_foreign_to tok owner ≡ false → MayAct tok owner
unfolding is_foreign_to
own-MayAct tok owner h = elim (text_dec owner tok.id) [ yes e ↦ inl e | no ne ↦ inr (ground arith) ]

module _ (bolt : Bolt) where
  -- What `handleReserve` replies with a reservation for.
  pub record Reserves (cfg : Config) (req : ReserveRequest) (s : State bolt) (tok : Token)
      (s' : State bolt) (res : Reservation) : Type 0 where
    pub valid : valid_subdomain (to_lower (trim_space req.subdomain)) ≡ true
    pub allowed : is_reserved cfg (to_lower (trim_space req.subdomain)) ≡ false
    pub may : MayAct tok res.token_id
    pub same_live : s'.live ≡ s.live
    pub same_tokens : s'.db.tokens ≡ s.db.tokens
    pub others :
        (j : Text)
        → j ≢ clean (to_lower (trim_space req.subdomain))
        → bolt.get s'.db.reservations j ≡ bolt.get s.db.reservations j

  reserve_for_lem :
      (now : ℕ) (sub owner note : Text) (limit : ℤ) (s s' : State bolt) (res : Reservation)
      → reserve_for bolt now sub owner note limit s ≡ (s', reserved res)
      → (reserve bolt sub owner note limit now s.db ≡ ok (res, s'.db)) × (s'.live ≡ s.live)
  unfolding reserve_for
  reserve_for_lem now sub owner note limit s s' res h = ground arith

  -- The ways through `handleReserve` that reserve.
  reserve_ways :
      (cfg : Config) (now : ℕ) (req : ReserveRequest) (s s' : State bolt) (tok : Token)
      (res : Reservation)
      → handle_reserve bolt cfg now (some req) s tok ≡ (s', reserved res)
      → (valid_subdomain (to_lower (trim_space req.subdomain)) ≡ true)
        × (is_reserved cfg (to_lower (trim_space req.subdomain)) ≡ false)
        × ((owner : Text) × (limit : ℤ) × ((owner ≡ tok.id) ⊎ (has_scope tok scope_admin ≡ true))
            × (reserve_for bolt now (to_lower (trim_space req.subdomain)) owner req.note limit s
                ≡ (s', reserved res)))
  unfolding handle_reserve
  reserve_ways cfg now req s s' tok res h = (
    ground arith,
    ground arith,
    elim (Bool-cases (not (is_empty req.token_id) && not (text_eq req.token_id tok.id))) [
      | inl other ↦ elim (Result-cases (get_token bolt s.db req.token_id)) [
        | inl (e, missing) ↦ absurd (ground arith)
        | inr (target, there) ↦ (
          target.id,
          effective_reservation_limit target cfg.max_reservations_per_token,
          ground arith,
          ground arith,
        )
      ]
      | inr own ↦ (
        tok.id,
        effective_reservation_limit tok cfg.max_reservations_per_token,
        inl refl,
        ground arith,
      )
    ],
  )

  -- A reservation over the API is of a valid subdomain that the server does not keep for itself,
  -- and for the caller's own token unless the caller is an administrator; no other reservation,
  -- no token and no tunnel changes.
  pub handle_reserve_lem :
      (cfg : Config) (now : ℕ) (req : ReserveRequest) (s s' : State bolt) (tok : Token)
      (res : Reservation)
      → handle_reserve bolt cfg now (some req) s tok ≡ (s', reserved res)
      → Reserves cfg req s tok s' res
  handle_reserve_lem cfg now req s s' tok res h =
      let (valid, allowed, (owner, limit, may, way)) = reserve_ways cfg now req s s' tok res h in
      let (stored, live) =
        reserve_for_lem now (to_lower (trim_space req.subdomain)) owner req.note limit s s' res
          way in
      let (owned, there, others, tokens, before) =
        reserve-exclusive bolt (to_lower (trim_space req.subdomain)) owner req.note limit now s.db
          res s'.db stored in
      record {
        valid = valid;
        allowed = allowed;
        may = subst (MayAct tok) (sym owned) may;
        same_live = live;
        same_tokens = tokens;
        others = others;
      }

  -- What the reply `no_content` of `handleRelease` means.
  pub record Releases (path : Text) (s : State bolt) (tok : Token) (s' : State bolt) : Type 0 where
    pub held : Reservation
    pub found : reservation bolt s.db (to_lower path) ≡ some held
    pub may : MayAct tok held.token_id
    pub same_live : s'.live ≡ s.live
    pub same_tokens : s'.db.tokens ≡ s.db.tokens
    pub freed : reservation bolt s'.db (to_lower path) ≡ none
    pub others :
        (j : Text)
        → j ≢ clean (to_lower path)
        → bolt.get s'.db.reservations j ≡ bolt.get s.db.reservations j

  release_steps :
      (path : Text) (s s' : State bolt) (tok : Token)
      → handle_release bolt path s tok ≡ (s', no_content)
      → (held : Reservation) × (reservation bolt s.db (to_lower path) ≡ some held)
        × (is_foreign_to tok held.token_id ≡ false)
        × (release bolt s.db (to_lower path) ≡ ok s'.db)
        × (s'.live ≡ s.live)
  unfolding handle_release
  release_steps path s s' tok h = elim (Option-cases (reservation bolt s.db (to_lower path))) [
    | inl e ↦ absurd (ground arith)
    | inr (held, e) ↦ (held, e, ground arith, ground arith, ground arith)
  ]

  -- A release over the API frees a subdomain that the caller's token holds, or any one for an
  -- administrator; no other reservation, no token and no tunnel changes.
  pub handle_release_lem :
      (path : Text) (s s' : State bolt) (tok : Token)
      → handle_release bolt path s tok ≡ (s', no_content)
      → Releases path s tok s'
  handle_release_lem path s s' tok h =
      let (held, found, own, done, live) = release_steps path s s' tok h in
      let (freed, others, tokens) = (release_lem bolt (to_lower path) s.db).0 s'.db done in
      record {
        held = held;
        found = found;
        may = own-MayAct tok held.token_id own;
        same_live = live;
        same_tokens = tokens;
        freed = freed;
        others = others;
      }

  -- How a request reaches its handler.
  pub record Admits (sha256 : Text → List ℕ) (now : ℕ) (scope header : Text) (s : State bolt)
      (tok : Token) : Type 0 where
    pub raw : Text
    pub bearer : cut_prefix header (codes "Bearer ") ≡ some raw
    pub proof : Proves bolt sha256 now s.db (trim_space raw) tok
    pub scoped : has_scope tok scope ≡ true

  -- A request is refused with 401 or 403 and changes nothing, or it carries a bearer token that is
  -- on file, active and of the scope, and the handler runs as that token, on a database where at
  -- most its time of last use is newer.
  pub authed_lem :
      (sha256 : Text → List ℕ) (now later : ℕ) (scope : Text)
      → (next : State bolt → Token → State bolt × Reply) (header : Text) (s : State bolt)
      → (authed bolt sha256 now later scope next header s ≡ (s, failure 401))
        ⊎ ((authed bolt sha256 now later scope next header s ≡ (s, failure 403))
            ⊎ ((tok : Token) × Admits sha256 now scope header s tok
                × (authed bolt sha256 now later scope next header s
                    ≡ next
                        (record s {
                          db = touched_or bolt s.db (touch_token bolt later s.db tok.id);
                        })
                        tok)))
  unfolding authed
  authed_lem sha256 now later scope next header s =
      elim (Option-cases (cut_prefix header (codes "Bearer "))) [
        | inl e ↦ inl (ground arith)
        | inr (raw, e) ↦ elim (Result-cases (authenticate bolt sha256 now s.db (trim_space raw))) [
          | inl (x, f) ↦ inl (ground arith)
          | inr (tok, f) ↦ elim (Bool-cases (has_scope tok scope)) [
            | inr g ↦ inr (inl (ground arith))
            | inl g ↦ inr (
                inr (
                  tok,
                  record {
                    raw = raw;
                    bearer = e;
                    proof = ((authenticate_lem bolt sha256 now s.db (trim_space raw)).0 tok).0 f;
                    scoped = g;
                  },
                  ground arith,
                ))
          ]
        ]
      ]

select_none :
    {A : Type 0} (p q : A → Bool) (xs : List A)
    → ((x : A) → (p x && q x) ≡ false)
    → tally (λ x. p x && q x) xs ≡ 0
select_none p q [] h = refl
select_none p q (x ∷ xs) h = ground (arith, h x, select_none p q xs h)

-- A token that is no administrator is shown none of the tunnels of another token.
pub owner_filter-list :
    (ready : ℕ → Bool) (r : Registry) (tok : Token) (mine : Bool)
    → has_scope tok scope_admin ≡ false
    → is_empty tok.id ≡ false
    → tally (λ t. not (text_eq t.token_id tok.id)) (list ready r (owner_filter tok mine)) ≡ 0
unfolding owner_filter
owner_filter-list ready r tok mine plain named =
    (list_lem ready r (owner_filter tok mine)).1 (λ t. not (text_eq t.token_id tok.id))
    ∙ select_none (is_listed ready (owner_filter tok mine)) (λ t. not (text_eq t.token_id tok.id))
        (Assoc.values r.by_sub) (λ t. rw plain (ground arith))
