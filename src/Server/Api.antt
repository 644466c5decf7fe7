-- ===== src/Server/Api.antt =====
-- internal/server/api.go: the management API's authentication and its handlers. A request is given
-- by its header, its path values and its decoded body; a handler returns the server's new state and
-- a reply, without the texts of messages and logs. Instants read from the clock are arguments.
pub mod Revocation
pub mod Ownership
pub mod Closing
mod Examples
use zerock.Prelude.{
  ℕ, Bool, true, false, ◌&&◌, not, Option, none, some, List, [], ◌∷◌, ◌++◌, Text, codes, text_eq,
  ltb_ℤ, leb_ℤ, map, ℤ, pos, if◌then◌else◌, is_empty, to_lower, trim_space, ◌==◌,
}
use zerock.Prelude.Strings.{cut_prefix}
use zerock.Bolt.{Bolt}
use zerock.Namegen.{valid_subdomain}
use zerock.Store.Secret.{Group, SecretBytes}
use zerock.Store.Token.{scope_tunnel, Token, has_scope, status, scope_admin}
use zerock.Store.Db.{
  Db, Result, ok, err, StoreError, not_found, conflict, bad_request, failed, Reservation,
}
use zerock.Store.Tokens.{
  CreateTokenOpts, create_token, list_tokens, get_token, authenticate, touch_token, revoke_token,
  delete_token,
}
use zerock.Store.Reservations.{reserve, reservation, release, list_reservations}
use zerock.Server.Config.{Config, is_reserved}
use zerock.Server.Tunnel.{Tunnel, Cell, Effect, close}
use zerock.Server.Registry.{Registry, count_for_token, remove, list, by_id}

-- The live tunnels: the registry, the cell behind each pointer, and what was done to the outside.
pub record Live : Type 0 where
  pub registry : Registry
  pub cells : ℕ → Cell
  pub effects : List (ℕ × Effect)

pub record State (bolt : Bolt) : Type 0 where
  pub db : Db bolt
  pub live : Live

abbrev pub ready : Live → ℕ → Bool
ready l ref = (l.cells ref).ready

abbrev pub tagged : ℕ → List Effect → List (ℕ × Effect)
tagged ref [] = []
tagged ref (e ∷ es) = (ref, e) ∷ tagged ref es

abbrev pub set_cell : (ℕ → Cell) → ℕ → Cell → ℕ → Cell
set_cell cells ref c k = if k == ref then c else cells k

-- `s.reg.remove(t)`, then `t.Close(reason, true)`
unfoldable pub drop : Text → Tunnel → Live → Live
drop reason t l = record {
  registry = remove l.registry t;
  cells = set_cell l.cells t.ref (close (l.cells t.ref) reason true).0;
  effects = l.effects ++ tagged t.ref (close (l.cells t.ref) reason true).1;
}

unfoldable pub drop_all : Text → List Tunnel → Live → Live
drop_all reason [] l = l
drop_all reason (t ∷ ts) l = drop_all reason ts (drop reason t l)

unfoldable pub drop_tunnels_for_token : Text → Text → Live → Live
drop_tunnels_for_token token_id reason l = drop_all reason (list (ready l) l.registry token_id) l

pub record TokenDto : Type 0 where
  pub id : Text
  pub label : Text
  pub scopes : List Text
  pub status : Text
  pub created_at : ℕ
  pub expires_at : Option ℕ
  pub revoked_at : Option ℕ
  pub last_used : Option ℕ
  pub max_tunnels : ℤ
  pub max_reservations : ℤ
  pub active_tunnels : ℕ

unfoldable pub to_dto : Registry → ℕ → Token → TokenDto
to_dto r now t = record {
  id = t.id;
  label = t.label;
  scopes = t.scopes;
  status = status t now;
  created_at = t.created_at;
  expires_at = t.expires_at;
  revoked_at = t.revoked_at;
  last_used = t.last_used;
  max_tunnels = t.max_tunnels;
  max_reservations = t.max_reservations;
  active_tunnels = count_for_token r t.id;
}

-- The replies; `failure` has the status code.
pub data Reply : Type 0 where
  failure : ℕ → Reply
  no_content : Reply
  token_found : TokenDto → Reply
  tunnels_found : List Tunnel → Reply
  reserved : Reservation → Reply
  reservations_found : List Reservation → Reply
  -- The token's view and the domain; the version is left out.
  who_am_i : TokenDto → Text → Reply
  tokens_found : List TokenDto → Reply
  -- The view, and the only showing of the presented text.
  token_created : TokenDto → Text → Reply

-- `writeStoreError`
abbrev pub store_failure : StoreError → Reply
store_failure not_found = failure 404
store_failure conflict = failure 409
store_failure bad_request = failure 400
store_failure failed = failure 500

pub record ReserveRequest : Type 0 where
  pub subdomain : Text
  pub note : Text
  pub token_id : Text

pub record CreateTokenRequest : Type 0 where
  pub label : Text
  pub scopes : List Text
  pub expires_in : Text
  pub max_tunnels : ℤ
  pub max_reservations : ℤ

-- `none` is a duration that does not parse or is not positive; the parser is the library's.
unfoldable pub requested_ttl : (Text → Option ℤ) → Text → Option ℤ
requested_ttl parse_duration expires_in =
    if is_empty expires_in then some (pos 0) else elim (parse_duration expires_in) [
      | none ↦ none
      | some d ↦ if leb_ℤ d (pos 0) then none else some d
    ]

unfoldable pub create_opts : CreateTokenRequest → ℤ → CreateTokenOpts
create_opts req ttl = record {
  label = req.label;
  scopes = if is_empty req.scopes then scope_tunnel ∷ [] else req.scopes;
  ttl = ttl;
  max_tunnels = req.max_tunnels;
  max_reservations = req.max_reservations;
}

-- The cap on reservations of a token; 0 is no limit.
unfoldable pub effective_reservation_limit : Token → ℤ → ℤ
effective_reservation_limit tok server_default =
    if ltb_ℤ (pos 0) tok.max_reservations
    then tok.max_reservations
    else if has_scope tok scope_admin
    then pos 0
    else server_default

-- An empty filter shows the records of every token.
unfoldable pub owner_filter : Token → Bool → Text
owner_filter tok mine = if has_scope tok scope_admin && not mine then [] else tok.id

-- `x.TokenID != tok.ID && !tok.HasScope(store.ScopeAdmin)`
unfoldable pub is_foreign_to : Token → Text → Bool
is_foreign_to tok owner = not (text_eq owner tok.id) && not (has_scope tok scope_admin)

module _ (bolt : Bolt) where
  -- A failed touch is ignored.
  abbrev pub touched_or : Db bolt → Result (Db bolt) → Db bolt
  touched_or db (ok db') = db'
  touched_or db (err e) = db

  unfoldable pub authed :
      (Text → List ℕ)
      → ℕ
      → ℕ
      → Text
      → (State bolt → Token → State bolt × Reply)
      → Text
      → State bolt
      → State bolt × Reply
  authed sha256 now later scope next header s = elim (cut_prefix header (codes "Bearer ")) [
    | none ↦ (s, failure 401)
    | some raw ↦ elim (authenticate bolt sha256 now s.db (trim_space raw)) [
      | err e ↦ (s, failure 401)
      | ok tok ↦
          if not (has_scope tok scope)
          then (s, failure 403)
          else next (record s { db = touched_or s.db (touch_token bolt later s.db tok.id) }) tok
    ]
  ]

  unfoldable pub handle_whoami : Config → ℕ → State bolt → Token → Reply
  handle_whoami cfg now s tok = who_am_i (to_dto s.live.registry now tok) cfg.domain

  unfoldable pub handle_list_tokens : ℕ → State bolt → Reply
  handle_list_tokens now s = tokens_found (map (to_dto s.live.registry now) (list_tokens bolt s.db))

  unfoldable pub handle_get_token : ℕ → Text → State bolt → Reply
  handle_get_token now id s = elim (get_token bolt s.db id) [
    | err e ↦ store_failure e
    | ok tok ↦ token_found (to_dto s.live.registry now tok)
  ]

  -- The body is `none` where it does not decode; `drawn` is what `NewSecret` draws.
  unfoldable pub handle_create_token :
      (Text → List ℕ)
      → (Text → Option ℤ)
      → ℕ
      → ℕ
      → Option (Group × SecretBytes)
      → Option CreateTokenRequest
      → State bolt
      → State bolt × Reply
  handle_create_token sha256 parse_duration now later drawn none s = (s, failure 400)
  handle_create_token sha256 parse_duration now later drawn (some req) s =
      elim (requested_ttl parse_duration req.expires_in) [
        | none ↦ (s, failure 400)
        | some ttl ↦ elim (create_token bolt sha256 (create_opts req ttl) drawn now s.db) [
          | err e ↦ (s, store_failure e)
          | ok (tok, secret, db) ↦
              (record s { db = db }, token_created (to_dto s.live.registry later tok) secret)
        ]
      ]

  unfoldable pub handle_revoke_token : ℕ → ℕ → Text → State bolt → Token → State bolt × Reply
  handle_revoke_token now later id s actor =
      if text_eq id actor.id then (s, failure 400) else elim (revoke_token bolt now s.db id) [
        | err e ↦ (s, store_failure e)
        | ok db ↦
            let live = drop_tunnels_for_token id (codes "token revoked") s.live in
            (
              record { db = db; live = live },
              elim (get_token bolt db id) [
                | err e ↦ store_failure e
                | ok tok ↦ token_found (to_dto live.registry later tok)
              ],
            )
      ]

  unfoldable pub handle_delete_token : Text → State bolt → Token → State bolt × Reply
  handle_delete_token id s actor =
      if text_eq id actor.id then (s, failure 400) else elim (delete_token bolt s.db id) [
        | err e ↦ (s, store_failure e)
        | ok db ↦ (
          record { db = db; live = drop_tunnels_for_token id (codes "token deleted") s.live },
          no_content,
        )
      ]

  unfoldable pub handle_list_tunnels : Bool → State bolt → Token → Reply
  handle_list_tunnels mine s tok =
      tunnels_found (list (ready s.live) s.live.registry (owner_filter tok mine))

  unfoldable pub handle_close_tunnel : Text → State bolt → Token → State bolt × Reply
  handle_close_tunnel id s tok = elim (by_id (ready s.live) s.live.registry id) [
    | none ↦ (s, failure 404)
    | some tun ↦
        if is_foreign_to tok tun.token_id
        then (s, failure 403)
        else (record s { live = drop (codes "closed from the API") tun s.live }, no_content)
  ]

  unfoldable pub handle_list_reservations : Bool → State bolt → Token → Reply
  handle_list_reservations mine s tok =
      reservations_found (list_reservations bolt s.db (owner_filter tok mine))

  -- The call of `Reserve` and what follows.
  unfoldable pub reserve_for : ℕ → Text → Text → Text → ℤ → State bolt → State bolt × Reply
  reserve_for now sub owner note limit s = elim (reserve bolt sub owner note limit now s.db) [
    | err e ↦ (s, store_failure e)
    | ok (res, db) ↦ (record s { db = db }, reserved res)
  ]

  -- The body is `none` where it does not decode.
  unfoldable pub handle_reserve :
      Config → ℕ → Option ReserveRequest → State bolt → Token → State bolt × Reply
  handle_reserve cfg now none s tok = (s, failure 400)
  handle_reserve cfg now (some req) s tok =
      let sub = to_lower (trim_space req.subdomain) in
      if not (valid_subdomain sub)
      then (s, failure 400)
      else if is_reserved cfg sub
      then (s, failure 409)
      else if not (is_empty req.token_id) && not (text_eq req.token_id tok.id)
      then (if not (has_scope tok scope_admin)
          then (s, failure 403)
          else elim (get_token bolt s.db req.token_id) [
            | err e ↦ (s, store_failure e)
            | ok target ↦
                reserve_for now sub target.id req.note
                  (effective_reservation_limit target cfg.max_reservations_per_token) s
          ])
      else reserve_for now sub tok.id req.note
          (effective_reservation_limit tok cfg.max_reservations_per_token) s

  unfoldable pub handle_release : Text → State bolt → Token → State bolt × Reply
  handle_release path s tok =
      let sub = to_lower path in
      elim (reservation bolt s.db sub) [
        | none ↦ (s, failure 404)
        | some res ↦
            if is_foreign_to tok res.token_id
            then (s, failure 403)
            else elim (release bolt s.db sub) [
              | err e ↦ (s, store_failure e)
              | ok db ↦ (record s { db = db }, no_content)
            ]
      ]
