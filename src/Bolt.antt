-- ===== src/Bolt.antt =====
-- go.etcd.io/bbolt, which internal/store/store.go keeps its records in. It is no code of the
-- repository, so the model takes it as a record of operations with their documented behaviour.
-- A value stands for its JSON text, which `json.Unmarshal` reads back as it was.
pub mod InMemory
use zerock.Prelude.{◌≡◌, Option, none, some, Text, text_eq, text_dec, if◌then◌else◌}
use zerock.Prelude.Assoc
use zerock.Prelude.Assoc.{Assoc, Unique}

-- The pairs that `ForEach` visits: each key of the bucket once, with its value.
pub record Enumerates {V : Type 0} (visited : Assoc Text V) (get : Text → Option V) : Type 0 where
  pub unique : Unique text_dec visited
  pub found : (k : Text) → Assoc.find text_dec visited k ≡ get k

pub record Bolt : Type 1 where
  pub Bucket : Type 0 → Type 0
  pub empty : (V : Type 0) → Bucket V
  pub get : {V : Type 0} → Bucket V → Text → Option V
  -- `none` is an error: an empty or oversized key, or a commit that fails, which rolls back.
  pub put : {V : Type 0} → Bucket V → Text → V → Option (Bucket V)
  pub delete : {V : Type 0} → Bucket V → Text → Option (Bucket V)
  pub for_each : {V : Type 0} → Bucket V → Assoc Text V
  pub get-empty : (V : Type 0) (k : Text) → get (empty V) k ≡ none
  pub get-put :
      {V : Type 0} (b : Bucket V) (k j : Text) (v : V) (c : Bucket V)
      → put b k v ≡ some c
      → get c j ≡ (if text_eq k j then some v else get b j)
  pub get-delete :
      {V : Type 0} (b : Bucket V) (k j : Text) (c : Bucket V)
      → delete b k ≡ some c
      → get c j ≡ (if text_eq k j then none else get b j)
  pub visits : {V : Type 0} (b : Bucket V) → Enumerates (for_each b) (get b)
