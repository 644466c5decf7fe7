-- ===== src/Store/Db.antt =====
-- internal/store/store.go: the database of a server, its errors, and the steps of a transaction.
use zerock.Prelude.{ℕ, Option, none, some, Text}
use zerock.Bolt.{Bolt}
use zerock.Store.Token.{Token}

-- `failed` stands for every error that is none of the three named ones: bbolt's, and of the
-- source of random bytes.
pub data StoreError : Type 0 where
  not_found conflict bad_request failed : StoreError

pub data Result {ℓ} (A : Type ℓ) : Type ℓ where
  ok : A → Result A
  err : StoreError → Result A

infixl 5 ◌>>=◌
abbrev pub ◌>>=◌ {ℓ κ} : {A : Type ℓ} {B : Type κ} → Result A → (A → Result B) → Result B
ok a >>= f = f a
err e >>= f = err e

abbrev pub or_fail {ℓ} : {A : Type ℓ} → Option A → StoreError → Result A
or_fail none e = err e
or_fail (some a) e = ok a

-- A subdomain bound to the token that holds it.
pub record Reservation : Type 0 where
  pub subdomain : Text
  pub token_id : Text
  pub note : Text
  pub created_at : ℕ

-- The two buckets that are used; the third, `meta`, is created and never read.
pub record Db (bolt : Bolt) : Type 0 where
  pub tokens : bolt.Bucket Token
  pub reservations : bolt.Bucket Reservation

-- `Open` on a new file. An update that errs leaves the database as it was, so its result is the
-- new database or an error alone.
abbrev pub open_empty : (bolt : Bolt) → Db bolt
open_empty bolt = record { tokens = bolt.empty Token; reservations = bolt.empty Reservation }
