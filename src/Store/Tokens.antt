-- ===== src/Store/Tokens.antt =====
-- internal/store/store.go: the operations on tokens. Each takes the instant that it reads from the
-- clock; an update returns the new database.
pub mod Scopes
pub mod Keyed
pub mod Auth
pub mod Races
pub mod Deletion
use zerock.Prelude.{
  member, is_empty, ℕ, ◌+◌, Bool, true, false, ◌||◌, ◌&&◌, Option, none, some, List, [], ◌∷◌, ◌++◌,
  Text, text_eq, text_dec, ltb, ltb_ℤ, ℤ, pos, pos_part, if◌then◌else◌, tally, to_lower, trim_space,
  text_lt, sort,
}
use zerock.Prelude.Assoc
use zerock.Prelude.Assoc.{Assoc}
use zerock.Bolt.{Bolt}
use zerock.Store.Token.{Token, scope_tunnel, scope_admin, has_scope, active, is_set}
use zerock.Store.Secret.{Group, SecretBytes, Minted, mint, hash_secret, matches, parse_token}
use zerock.Store.Db.{
  Db, Result, ok, err, ◌>>=◌, or_fail, not_found, bad_request, failed, Reservation,
}

pub record CreateTokenOpts : Type 0 where
  pub label : Text
  pub scopes : List Text
  pub ttl : ℤ
  pub max_tunnels : ℤ
  pub max_reservations : ℤ

-- One round of the loop of `normalizeScopes`; what was seen is what was put out.
unfoldable pub admit_scope : Text → List Text → List Text
admit_scope s out =
    if text_eq s scope_tunnel || text_eq s scope_admin
    then (if member s out then out else out ++ s ∷ [])
    else out

unfoldable pub normalize_loop : List Text → List Text → List Text
unfolding admit_scope to_lower trim_space
normalize_loop [] out = out
normalize_loop (s ∷ rest) out = normalize_loop rest (admit_scope (to_lower (trim_space s)) out)

unfoldable pub normalize_scopes : List Text → List Text
unfolding normalize_loop sort text_lt
normalize_scopes scopes = sort text_lt (normalize_loop scopes [])

-- The record that `CreateToken` writes.
unfoldable pub new_token : CreateTokenOpts → Minted → Text → List Text → Text → ℕ → Token
new_token opts m hash scopes label now = record {
  id = m.id;
  hash = hash;
  label = label;
  scopes = scopes;
  created_at = now;
  expires_at = if ltb_ℤ (pos 0) opts.ttl then some (now + pos_part opts.ttl) else none;
  revoked_at = none;
  last_used = none;
  max_tunnels = opts.max_tunnels;
  max_reservations = opts.max_reservations;
}

module _ (bolt : Bolt) where
  unfoldable pub put_token : Db bolt → Token → Result (Db bolt)
  put_token db tok = do
    tokens ← or_fail (bolt.put db.tokens tok.id tok) failed
    ok (record db { tokens = tokens })

  unfoldable pub get_token : Db bolt → Text → Result Token
  get_token db id = or_fail (bolt.get db.tokens id) not_found

  -- `none` is an error of the source of random bytes.
  unfoldable pub create_token :
      (Text → List ℕ)
      → CreateTokenOpts
      → Option (Group × SecretBytes)
      → ℕ
      → Db bolt
      → Result (Token × Text × Db bolt)
  create_token sha256 opts drawn now db =
      let label = trim_space opts.label in
      let scopes = normalize_scopes opts.scopes in
      if is_empty label then err bad_request else if is_empty scopes then err bad_request else do
        (id_bytes, secret_bytes) ← or_fail drawn failed
        let m = mint id_bytes secret_bytes
        let tok = new_token opts m (hash_secret sha256 m.secret) scopes label now
        saved ← put_token db tok
        ok (tok, m.full, saved)

  -- Every failure is `not_found`.
  unfoldable pub authenticate : (Text → List ℕ) → ℕ → Db bolt → Text → Result Token
  unfolding get_token matches parse_token active
  authenticate sha256 now db full = do
    (id, secret) ← or_fail (parse_token full) not_found
    tok ← get_token db id
    if matches sha256 tok secret
        then (if active tok now then ok tok else err not_found)
        else err not_found

  -- The second transaction of `TouchToken`, on the token that the first one read.
  abbrev pub touch_read : ℕ → Db bolt → Token → Result (Db bolt)
  touch_read now db tok = put_token db (record tok { last_used = some now })

  unfoldable pub touch_token : ℕ → Db bolt → Text → Result (Db bolt)
  unfolding get_token put_token
  touch_token now db id = do tok ← get_token db id; touch_read now db tok

  -- Newest first.
  unfoldable pub list_tokens : Db bolt → List Token
  unfolding sort
  list_tokens db =
      sort (λ a b. ltb b.created_at a.created_at) (Assoc.values (bolt.for_each db.tokens))

  unfoldable pub revoke_token : ℕ → Db bolt → Text → Result (Db bolt)
  unfolding get_token put_token
  revoke_token now db id = do
    tok ← get_token db id
    if is_set tok.revoked_at then ok db else put_token db (record tok { revoked_at = some now })

  -- The loop over the orphans; `none` is the first error.
  unfoldable pub delete_all : {V : Type 0} → List Text → bolt.Bucket V → Option (bolt.Bucket V)
  delete_all [] b = some b
  delete_all (k ∷ ks) b = elim (bolt.delete b k) [ none ↦ none | some c ↦ delete_all ks c ]

  unfoldable pub delete_token : Db bolt → Text → Result (Db bolt)
  unfolding get_token delete_all
  delete_token db id = do
    tok ← get_token db id
    tokens ← or_fail (bolt.delete db.tokens id) failed
    let orphans = Assoc.keys_where (λ r. text_eq r.token_id id) (bolt.for_each db.reservations)
    reservations ← or_fail (delete_all orphans db.reservations) failed
    ok (record { tokens = tokens; reservations = reservations })

  unfoldable pub count_admins : ℕ → Db bolt → ℕ
  unfolding list_tokens active has_scope
  count_admins now db = tally (λ t. active t now && has_scope t scope_admin) (list_tokens db)
