-- ===== src/Store/Token.antt =====
-- internal/store/token.go: the token record, its scopes and its state. Instants are numbers of
-- nanoseconds, and a pointer that may be nil is an option.
use zerock.Prelude.{
  ℕ, Bool, true, false, ◌||◌, not, Option, none, some, List, [], ◌∷◌, Text, codes, text_eq, ltb,
  if◌then◌else◌, ℤ,
}

abbrev pub scope_tunnel : Text
scope_tunnel = codes "tunnel"

abbrev pub scope_admin : Text
scope_admin = codes "admin"

pub record Token : Type 0 where
  pub id : Text
  pub hash : Text
  pub label : Text
  pub scopes : List Text
  pub created_at : ℕ
  pub expires_at : Option ℕ
  pub revoked_at : Option ℕ
  pub last_used : Option ℕ
  pub max_tunnels : ℤ
  pub max_reservations : ℤ

-- The loop of `HasScope` over the scopes.
unfoldable pub any_scope : List Text → Text → Bool
any_scope [] s = false
any_scope (have ∷ rest) s = (text_eq have s || text_eq have scope_admin) || any_scope rest s

unfoldable pub has_scope : Token → Text → Bool
has_scope t s = any_scope t.scopes s

-- `p != nil && now.After(*p)`
unfoldable pub is_past : Option ℕ → ℕ → Bool
is_past none now = false
is_past (some at) now = ltb at now

abbrev pub is_set : Option ℕ → Bool
is_set none = false
is_set (some at) = true

unfoldable pub active : Token → ℕ → Bool
unfolding is_past
active t now = if is_set t.revoked_at then false else not (is_past t.expires_at now)

unfoldable pub status : Token → ℕ → Text
unfolding is_past
status t now =
    if is_set t.revoked_at
    then codes "revoked"
    else if is_past t.expires_at now
    then codes "expired"
    else codes "active"
