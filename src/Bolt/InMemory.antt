-- ===== src/Bolt/InMemory.antt =====
-- The assumptions on bbolt can be met: buckets in memory, where only an empty key is refused.
use mathlib.Core.Option.{some-injective}
use zerock.Prelude.{
  ◌≡◌, ◌∙◌, refl, sym, ap, Option, none, some, [], ◌∷◌, Text, text_dec, text_eq, if◌then◌else◌,
}
use zerock.Prelude.Assoc
use zerock.Prelude.Assoc.{Assoc, Unique}
use zerock.Bolt.{Bolt, Enumerates}

pub record Table (V : Type 0) : Type 0 where
  pub entries : Assoc Text V
  pub unique : Unique text_dec entries

module _ {V : Type 0} where
  unfoldable pub get : Table V → Text → Option V
  get b k = Assoc.find text_dec b.entries k

  unfoldable pub stored : Table V → Text → V → Table V
  stored b k v = record {
    entries = Assoc.put text_dec b.entries k v;
    unique = Assoc.put-Unique text_dec b.entries k v b.unique;
  }

  unfoldable pub put : Table V → Text → V → Option (Table V)
  put b [] v = none
  put b (c ∷ k) v = some (stored b (c ∷ k) v)

  unfoldable pub removed : Table V → Text → Table V
  removed b k = record {
    entries = Assoc.erase text_dec b.entries k;
    unique = Assoc.erase-Unique text_dec b.entries k b.unique;
  }

  unfoldable pub delete : Table V → Text → Option (Table V)
  delete b k = some (removed b k)

  pub get-put :
      (b : Table V) (k j : Text) (v : V) (c : Table V)
      → put b k v ≡ some c
      → get c j ≡ (if text_eq k j then some v else get b j)
  unfolding get put stored
  get-put b [] j v c h = cc
  get-put b (x ∷ k) j v c h =
      sym (ap (λ (t : Table V). Assoc.find text_dec t.entries j) (some-injective _ _ h))
      ∙ Assoc.find-put text_dec b.entries (x ∷ k) j v

  pub get-delete :
      (b : Table V) (k j : Text) (c : Table V)
      → delete b k ≡ some c
      → get c j ≡ (if text_eq k j then none else get b j)
  unfolding get delete removed
  get-delete b k j c h =
      sym (ap (λ (t : Table V). Assoc.find text_dec t.entries j) (some-injective _ _ h))
      ∙ Assoc.find-erase text_dec b.entries k j

  pub visits : (b : Table V) → Enumerates b.entries (get b)
  unfolding get
  visits b = record { unique = b.unique; found = λ k. refl }

pub get-empty :
    (V : Type 0) (k : Text) → get {V = V} (record { entries = []; unique = tt }) k ≡ none
unfolding get Assoc.find
get-empty V k = refl

abbrev pub no_entries : (V : Type 0) → Table V
no_entries V = record { entries = []; unique = tt }

-- The tests and the instances of theorems run on these buckets.
abbrev pub in_memory : Bolt
in_memory = record {
  Bucket = Table;
  empty = λ V. record { entries = []; unique = tt };
  get = get;
  put = put;
  delete = delete;
  for_each = λ b. b.entries;
  get-empty = get-empty;
  get-put = get-put;
  get-delete = get-delete;
  visits = visits;
}
