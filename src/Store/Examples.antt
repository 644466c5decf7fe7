-- ===== src/Store/Examples.antt =====
-- The theorems on the store at concrete inputs, and tests of its operations. The stand-in for
-- SHA-256 returns the bytes of the text.
use zerock.Prelude.{
  ◌↔◌, ◌⊎◌, ℕ, ◌≡◌, ◌≢◌, ◌≤◌, ◌↔◌, refl, false, none, some, List, [], ◌∷◌, arith, Text, codes,
  text_eq, text_dec, pos, ℕ_discrete, All, if◌then◌else◌, trim_space, to_lower, split, sort,
}
use zerock.Prelude.Strings.{trim, lower_byte}
use zerock.Prelude.Assoc
use zerock.Prelude.Assoc.{passes}
use zerock.Bolt.InMemory
use zerock.Bolt.InMemory.{in_memory, Table, no_entries}
use zerock.Store.Token.{Token, scope_tunnel, has_scope, is_past, active, any_scope}
use zerock.Store.Secret.{Group, SecretBytes, mint, hash_secret, matches, parse_token, token_parts}
use zerock.Store.Secret.Laws.{IsBytes}
use zerock.Store.Db.{Db, ok, err, not_found, Reservation, StoreError}
use zerock.Store.Tokens.{
  CreateTokenOpts, new_token, create_token, authenticate, revoke_token, delete_token, delete_all,
  count_admins, list_tokens, get_token, put_token, touch_read, normalize_scopes,
}
use zerock.Store.Tokens.Keyed.{IsKeyed}
use zerock.Store.Tokens.Auth.{Proves, minted, authenticate_lem, create_token-authenticates}
use zerock.Store.Tokens.Races.{touch_read-revoke_token}
use zerock.Store.Tokens.Deletion.{owned, delete_token_lem}
use zerock.Store.Reservations.{clean, held_by, reserve, reserve_free}
use zerock.Store.Reservations.Laws.{bound, reserve-exclusive, reserve_limit}

abbrev sha : Text → List ℕ
sha s = s

abbrev zeros : Group
zeros = record { b0 = 0; b1 = 0; b2 = 0; b3 = 0; b4 = 0 }

abbrev ones : SecretBytes
ones = record { g0 = group; g1 = group; g2 = group; g3 = group }
  where
    group : Group
    group = record { b0 = 255; b1 = 255; b2 = 255; b3 = 255; b4 = 255 }

abbrev laptop_opts : CreateTokenOpts
laptop_opts = record {
  label = codes " laptop ";
  scopes = codes "Tunnel" ∷ codes "tunnel" ∷ codes "root" ∷ [];
  ttl = pos 100;
  max_tunnels = pos 2;
  max_reservations = pos 0;
}

-- The token whose presented form is zk_ab_cd.
abbrev laptop : Token
laptop = record {
  id = codes "ab";
  hash = hash_secret sha (codes "cd");
  label = codes "laptop";
  scopes = scope_tunnel ∷ [];
  created_at = 1;
  expires_at = none;
  revoked_at = none;
  last_used = none;
  max_tunnels = pos 2;
  max_reservations = pos 0;
}

abbrev api_x : Reservation
api_x = record { subdomain = codes "api-x"; token_id = codes "ab"; note = []; created_at = 2 }

-- One token, which holds one subdomain.
abbrev small : Db in_memory
small = record {
  tokens = InMemory.stored (no_entries Token) (codes "ab") laptop;
  reservations = InMemory.stored (no_entries Reservation) (codes "api-x") api_x;
}

small-IsKeyed : IsKeyed in_memory small
unfolding InMemory.get InMemory.stored Assoc.find
small-IsKeyed = record {
  tokens = λ id tok e. ground (arith, Assoc.find-put text_dec [] (codes "ab") id laptop);
  reservations = λ sub r e. ground (arith, Assoc.find-put text_dec [] (codes "api-x") sub api_x);
}

parse_token_malformed : parse_token (codes "zk_ab_cd_ef") ≡ none
unfolding parse_token trim_space split token_parts
parse_token_malformed = refl

zeros-IsBytes : IsBytes zeros
zeros-IsBytes = omega arith

ones-IsBytes : All IsBytes (ones.g0 ∷ ones.g1 ∷ ones.g2 ∷ ones.g3 ∷ [])
ones-IsBytes = omega arith

mint-id : (mint zeros ones).id ≡ codes "aaaaaaaa"
unfolding mint
mint-id = refl

normalize_scopes_test : normalize_scopes laptop_opts.scopes ≡ scope_tunnel ∷ []
unfolding normalize_scopes text_dec ℕ_discrete trim
normalize_scopes_test = refl

authenticates : authenticate in_memory sha 7 small (codes "zk_ab_cd") ≡ ok laptop
unfolding authenticate parse_token trim_space trim split token_parts text_dec ℕ_discrete get_token
    InMemory.get InMemory.stored Assoc.put Assoc.find matches hash_secret active
authenticates = refl

authenticate_lem_example :
    ((tok : Token)
      → (authenticate in_memory sha 7 small (codes "zk_ab_cd") ≡ ok tok)
        ↔ Proves in_memory sha 7 small (codes "zk_ab_cd") tok)
    × ((e : StoreError)
        → authenticate in_memory sha 7 small (codes "zk_ab_cd") ≡ err e
        → e ≡ not_found)
authenticate_lem_example = authenticate_lem in_memory sha 7 small (codes "zk_ab_cd")

-- The database after the token was revoked at 9.
abbrev small_revoked : Db in_memory
small_revoked = record small {
  tokens = InMemory.stored small.tokens (codes "ab") (record laptop { revoked_at = some 9 });
}

revokes : revoke_token in_memory 9 small (codes "ab") ≡ ok small_revoked
unfolding revoke_token get_token put_token text_dec ℕ_discrete InMemory.get InMemory.put
    InMemory.stored Assoc.put Assoc.find
revokes = refl

abbrev small_touched : Db in_memory
small_touched = record small {
  tokens =
      InMemory.stored small_revoked.tokens (codes "ab") (record laptop { last_used = some 10 });
}

touches : touch_read in_memory 10 small_revoked laptop ≡ ok small_touched
unfolding put_token text_dec ℕ_discrete InMemory.put InMemory.stored Assoc.put
touches = refl

touch_read-revoke_token_example :
    (authenticate in_memory sha 11 small_revoked (codes "zk_ab_cd") ≡ err not_found)
    × (authenticate in_memory sha 11 small_touched (codes "zk_ab_cd")
        ≡ ok (record laptop { last_used = some 10 }))
unfolding active
touch_read-revoke_token_example =
    touch_read-revoke_token in_memory sha 7 9 10 11 small small_revoked small_touched
      (codes "zk_ab_cd") laptop small-IsKeyed authenticates revokes touches refl

abbrev small_minted : Db in_memory
small_minted = record small {
  tokens =
      InMemory.stored small.tokens (codes "aaaaaaaa")
        (minted in_memory sha laptop_opts zeros ones 5);
}

minted_written :
    InMemory.put small.tokens
      (minted in_memory sha laptop_opts zeros ones 5).id
      (minted in_memory sha laptop_opts zeros ones 5)
    ≡ some small_minted.tokens
unfolding new_token mint InMemory.put
minted_written = refl

create_token-authenticates_example :
    (create_token in_memory sha laptop_opts (some (zeros, ones)) 5 small
      ≡ ok (minted in_memory sha laptop_opts zeros ones 5, (mint zeros ones).full, small_minted))
    × ((later : ℕ)
        → is_past (minted in_memory sha laptop_opts zeros ones 5).expires_at later ≡ false
        → authenticate in_memory sha later small_minted (mint zeros ones).full
          ≡ ok (minted in_memory sha laptop_opts zeros ones 5))
unfolding normalize_scopes trim_space trim text_dec ℕ_discrete
create_token-authenticates_example =
    create_token-authenticates in_memory sha laptop_opts zeros ones 5 small small_minted.tokens refl
      refl zeros-IsBytes ones-IsBytes minted_written

abbrev small_deleted : Db in_memory
small_deleted = record {
  tokens = InMemory.removed small.tokens (codes "ab");
  reservations = InMemory.removed small.reservations (codes "api-x");
}

deletes : delete_token in_memory small (codes "ab") ≡ ok small_deleted
unfolding delete_token delete_all get_token text_dec ℕ_discrete InMemory.get InMemory.delete
    InMemory.stored Assoc.put Assoc.find Assoc.erase
deletes = refl

delete_token_lem_example :
    ((j : Text)
      → InMemory.get small_deleted.tokens j
        ≡ (if text_eq (codes "ab") j then none else InMemory.get small.tokens j))
    × ((sub : Text)
        → InMemory.get small_deleted.reservations sub ≡ (
            if passes (owned (codes "ab")) (InMemory.get small.reservations sub)
            then none
            else InMemory.get small.reservations sub))
delete_token_lem_example = delete_token_lem in_memory small (codes "ab") small_deleted deletes

no_admins : count_admins in_memory 7 small ≡ 0
unfolding count_admins list_tokens InMemory.stored Assoc.put Assoc.erase sort has_scope any_scope
    active text_dec ℕ_discrete
no_admins = refl

abbrev db_x : Reservation
db_x = record { subdomain = codes "db"; token_id = codes "ab"; note = codes "n"; created_at = 3 }

abbrev small_reserved : Db in_memory
small_reserved = record small {
  reservations = InMemory.stored small.reservations (codes "db") db_x;
}

reserves :
    reserve in_memory (codes " DB") (codes "ab") (codes "n") (pos 2) 3 small
    ≡ ok (db_x, small_reserved)
unfolding reserve reserve_free clean to_lower lower_byte trim_space trim text_dec ℕ_discrete
    InMemory.get InMemory.put InMemory.stored Assoc.put Assoc.erase Assoc.find
reserves = refl

reserve-exclusive_example :
    (db_x.token_id ≡ codes "ab")
    × (InMemory.get small_reserved.reservations (clean (codes " DB")) ≡ some db_x)
    × ((j : Text)
        → j ≢ clean (codes " DB")
        → InMemory.get small_reserved.reservations j ≡ InMemory.get small.reservations j)
    × (small_reserved.tokens ≡ small.tokens)
    × ((InMemory.get small.reservations (clean (codes " DB")) ≡ some db_x)
        ⊎ ((InMemory.get small.reservations (clean (codes " DB")) ≡ none)
            × (db_x ≡ bound in_memory (codes " DB") (codes "ab") (codes "n") 3)))
reserve-exclusive_example =
    reserve-exclusive in_memory (codes " DB") (codes "ab") (codes "n") (pos 2) 3 small db_x
      small_reserved reserves

reserve_limit_example :
    (held_by (codes "ab") small.reservations.entries ≤ 2
      → held_by (codes "ab") small_reserved.reservations.entries ≤ 2)
    × ((other : Text)
        → other ≢ codes "ab"
        → held_by other small_reserved.reservations.entries
          ≡ held_by other small.reservations.entries)
reserve_limit_example =
    reserve_limit in_memory (codes " DB") (codes "ab") (codes "n") 1 3 small db_x small_reserved
      reserves
