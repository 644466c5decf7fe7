-- ===== src/Prelude/Sorting.antt =====
-- `sort.Slice` and `sort.Strings`: an insertion sort by a strict order, given as a Boolean test.
use Prim.Native.Nat.{◌+◌}
use mathlib.Core.Path.{◌≡◌, refl}
use mathlib.Core.Bool.{Bool, true, false, ◌||◌}
use mathlib.Core.List.{List, [], ◌∷◌, ◌++◌, Perm}
use mathlib.Core.List.Perm
use mathlib.Core.Logic.{inl, inr}
use native.Mathlib.Omega.{arith}
use zerock.Prelude.Tests.{if◌then◌else◌, Bool-cases, ltb, ◌==◌}
use zerock.Prelude.Strings.{Text, text_eq, member, to_lower, trim_space}
use zerock.Prelude.Lists.{tally}

module _ {ℓ} {A : Type ℓ} (before : A → A → Bool) where
  insert : A → List A → List A
  insert a [] = a ∷ []
  insert a (x ∷ xs) = let rest = insert a xs in if before x a then x ∷ rest else a ∷ x ∷ xs

  unfoldable pub sort : List A → List A
  unfolding insert
  sort [] = []
  sort (x ∷ xs) = insert x (sort xs)

  -- No element comes after one that it is before.
  abbrev pub AtMost : A → List A → Type 0
  AtMost a [] = Unit
  AtMost a (x ∷ xs) = (before x a ≡ false) × AtMost a xs

  abbrev pub IsSorted : List A → Type 0
  IsSorted [] = Unit
  IsSorted (x ∷ xs) = AtMost x xs × IsSorted xs

  insert-perm : (a : A) (xs : List A) → Perm (insert a xs) (a ∷ xs)
  unfolding insert
  insert-perm a [] = Perm.rfl
  insert-perm a (x ∷ xs) = ground (
    arith,
    Perm.trans (Perm.cons x (insert-perm a xs)) (Perm.swap a x xs),
    Perm.refl (a ∷ x ∷ xs),
  )

  pub sort-perm : (xs : List A) → Perm (sort xs) xs
  unfolding sort
  sort-perm [] = Perm.rfl
  sort-perm (x ∷ xs) = Perm.trans (insert-perm x (sort xs)) (Perm.cons x (sort-perm xs))

module _ {ℓ} {A : Type ℓ} (before : A → A → Bool)
    (asym : (a b : A) → before a b ≡ true → before b a ≡ false)
    (trans : (a b c : A) → before b a ≡ false → before c b ≡ false → before c a ≡ false) where
  AtMost-trans :
      (a b : A) (xs : List A) → before b a ≡ false → AtMost before b xs → AtMost before a xs
  AtMost-trans a b [] h m = tt
  AtMost-trans a b (x ∷ xs) h m = (trans a b x h m.0, AtMost-trans a b xs h m.1)

  insert-AtMost :
      (a b : A) (xs : List A)
      → before b a ≡ false
      → AtMost before a xs
      → AtMost before a (insert before b xs)
  unfolding insert
  insert-AtMost a b [] h m = (h, tt)
  insert-AtMost a b (x ∷ xs) h m = elim (Bool-cases (before x b)) [
    | inl e ↦ rw e (m.0, insert-AtMost a b xs h m.1)
    | inr e ↦ rw e (h, m)
  ]

  insert-IsSorted :
      (a : A) (xs : List A) → IsSorted before xs → IsSorted before (insert before a xs)
  unfolding insert
  insert-IsSorted a [] s = (tt, tt)
  insert-IsSorted a (x ∷ xs) s = elim (Bool-cases (before x a)) [
    | inl e ↦ rw e (insert-AtMost x a xs (asym x a e) s.0, insert-IsSorted a xs s.1)
    | inr e ↦ rw e ((e, AtMost-trans a x xs e s.0), s)
  ]

  pub sort-IsSorted : (xs : List A) → IsSorted before (sort before xs)
  unfolding sort
  sort-IsSorted [] = tt
  sort-IsSorted (x ∷ xs) = insert-IsSorted x (sort before xs) (sort-IsSorted xs)

-- Sorting keeps the counts and the members, and so a list of distinct texts stays one.
module _ {ℓ} {A : Type ℓ} (before : A → A → Bool) (p : A → Bool) where
  tally-insert :
      (a : A) (xs : List A) → tally p (insert before a xs) ≡ (if p a then 1 else 0) + tally p xs
  unfolding insert
  tally-insert a [] = refl
  tally-insert a (x ∷ xs) = ground (arith, tally-insert a xs)

  pub tally-sort : (xs : List A) → tally p (sort before xs) ≡ tally p xs
  unfolding sort
  tally-sort [] = refl
  tally-sort (x ∷ xs) = omega (arith, tally-insert x (sort before xs), tally-sort xs)

abbrev pub Distinct : List Text → Type 0
Distinct [] = Unit
Distinct (x ∷ xs) = (member x xs ≡ false) × Distinct xs

module _ (before : Text → Text → Bool) where
  member-insert :
      (s a : Text) (xs : List Text) → member s (insert before a xs) ≡ (text_eq a s || member s xs)
  unfolding insert
  member-insert s a [] = refl
  member-insert s a (x ∷ xs) = ground (arith, member-insert s a xs)

  pub member-sort : (s : Text) (xs : List Text) → member s (sort before xs) ≡ member s xs
  unfolding sort
  member-sort s [] = refl
  member-sort s (x ∷ xs) = ground (arith, member-insert s x (sort before xs), member-sort s xs)

  insert-Distinct :
      (a : Text) (xs : List Text)
      → member a xs ≡ false
      → Distinct xs
      → Distinct (insert before a xs)
  unfolding insert
  insert-Distinct a [] h d = (refl, tt)
  insert-Distinct a (x ∷ xs) h d = ground (arith, insert-Distinct a xs, member-insert x a xs)

  pub sort-Distinct : (xs : List Text) → Distinct xs → Distinct (sort before xs)
  unfolding sort
  sort-Distinct [] d = tt
  sort-Distinct (x ∷ xs) d =
      insert-Distinct x (sort before xs) (rw member-sort d.0) (sort-Distinct xs d.1)

-- Some text of the list is this one, once it is lowercased and trimmed.
abbrev pub requested : Text → List Text → Bool
requested s [] = false
requested s (x ∷ xs) = text_eq (to_lower (trim_space x)) s || requested s xs

pub member-append_one :
    (s a : Text) (xs : List Text) → member s (xs ++ a ∷ []) ≡ (member s xs || text_eq a s)
member-append_one s a [] = ground arith
member-append_one s a (x ∷ xs) = ground (arith, member-append_one s a xs)

pub append_one-Distinct :
    (a : Text) (xs : List Text) → member a xs ≡ false → Distinct xs → Distinct (xs ++ a ∷ [])
append_one-Distinct a [] h d = (refl, tt)
append_one-Distinct a (x ∷ xs) h d =
    ground (arith, append_one-Distinct a xs, member-append_one x a xs)

-- The order of strings, byte by byte.
unfoldable pub text_lt : Text → Text → Bool
text_lt [] [] = false
text_lt [] (b ∷ t) = true
text_lt (a ∷ s) [] = false
text_lt (a ∷ s) (b ∷ t) =
    let rest = text_lt s t in if ltb a b then true else if a == b then rest else false

pub text_lt_asym : (s t : Text) → text_lt s t ≡ true → text_lt t s ≡ false
unfolding text_lt
text_lt_asym [] [] h = refl
text_lt_asym [] (b ∷ t) h = refl
text_lt_asym (a ∷ s) [] h = cc
text_lt_asym (a ∷ s) (b ∷ t) h = ground (arith, text_lt_asym s t)

pub text_le_trans : (s t u : Text) → text_lt t s ≡ false → text_lt u t ≡ false → text_lt u s ≡ false
unfolding text_lt
text_le_trans [] [] u h k = k
text_le_trans [] (b ∷ t) [] h k = refl
text_le_trans [] (b ∷ t) (c ∷ u) h k = refl
text_le_trans (a ∷ s) [] u h k = cc
text_le_trans (a ∷ s) (b ∷ t) [] h k = cc
text_le_trans (a ∷ s) (b ∷ t) (c ∷ u) h k = ground (arith, text_le_trans s t u)
