-- ===== src/Prelude/Assoc.antt =====
-- Go maps: association lists with distinct keys, over any key whose equality is decided.
use Prim.Native.Nat.{ℕ, ◌+◌, ◌≤◌}
use mathlib.Core.Path.{◌≡◌, refl, sym, ap, ◌∙◌}
use mathlib.Core.Bool.{Bool, true, false}
use mathlib.Core.List.{List, [], ◌∷◌}
use mathlib.Core.Option.{Option, none, some}
use native.Mathlib.Omega.{arith}
use zerock.Prelude.Tests.{if◌then◌else◌}
use zerock.Prelude.Strings.{Text, text_dec, member}
use zerock.Prelude.Lists.{tally}

abbrev pub Assoc {ℓ κ} : Type ℓ → Type κ → Type (ℓ ⊔ κ)
Assoc K V = List (K × V)

-- A test from a decision; the tactics split on the decision.
abbrev pub is_yes {ℓ} : {P : Type ℓ} → Dec P → Bool
is_yes d = elim d [ yes p ↦ true | no p ↦ false ]

module _ {ℓ κ} {K : Type ℓ} {V : Type κ} (dec : (a b : K) → Dec (a ≡ b)) where
  -- m[k], with its `ok`
  unfoldable pub find : Assoc K V → K → Option V
  find [] k = none
  find ((j, v) ∷ m) k = let rest = find m k in if is_yes (dec j k) then some v else rest

  -- delete(m, k)
  unfoldable pub erase : Assoc K V → K → Assoc K V
  erase [] k = []
  erase ((j, v) ∷ m) k = let rest = erase m k in if is_yes (dec j k) then rest else (j, v) ∷ rest

  -- m[k] = v
  unfoldable pub put : Assoc K V → K → V → Assoc K V
  unfolding erase
  put m k v = (k, v) ∷ erase m k

  pub find-erase :
      (m : Assoc K V) (k j : K) → find (erase m k) j ≡ (if is_yes (dec k j) then none else find m j)
  unfolding find erase
  find-erase [] k j = ground arith
  find-erase ((i, v) ∷ m) k j = ground (arith, find-erase m k j)

  pub find-put :
      (m : Assoc K V) (k j : K) (v : V)
      → find (put m k v) j ≡ (if is_yes (dec k j) then some v else find m j)
  unfolding find put
  find-put m k j v = ground (arith, find-erase m k j)

  abbrev pub Unique : Assoc K V → Type κ
  Unique [] = Unit
  Unique ((k, v) ∷ m) = (find m k ≡ none) × Unique m

  pub find-erase_self : (m : Assoc K V) (k : K) → find (erase m k) k ≡ none
  find-erase_self m k = ground (arith, find-erase m k k)

  pub erase-Unique : (m : Assoc K V) (k : K) → Unique m → Unique (erase m k)
  unfolding erase
  erase-Unique [] k u = tt
  erase-Unique ((j, v) ∷ m) k u = ground (arith, erase-Unique m k u.1, find-erase m k j)

  pub put-Unique : (m : Assoc K V) (k : K) (v : V) → Unique m → Unique (put m k v)
  unfolding put
  put-Unique m k v u = (find-erase_self m k, erase-Unique m k u)

  -- Erasing a key that is not there changes nothing.
  pub erase_absent : (m : Assoc K V) (k : K) → find m k ≡ none → erase m k ≡ m
  unfolding find erase
  erase_absent [] k h = refl
  erase_absent ((j, v) ∷ m) k h = ground (arith, erase_absent m k)

  -- An entry that is there is counted once, and erasing its key takes it out of the count.
  pub tally-erase :
      (p : K × V → Bool) (m : Assoc K V) (k : K) (v : V)
      → Unique m
      → find m k ≡ some v
      → tally p m ≡ (if p (k, v) then 1 else 0) + tally p (erase m k)
  unfolding find erase
  tally-erase p [] k v u h = cc
  tally-erase p ((j, w) ∷ m) k v u h = ground (arith, tally-erase p m k v u.1, erase_absent m k)

  pub tally-erase-le : (p : K × V → Bool) (m : Assoc K V) (k : K) → tally p (erase m k) ≤ tally p m
  unfolding erase
  tally-erase-le p [] k = omega arith
  tally-erase-le p ((j, w) ∷ m) k = ground (arith, tally-erase-le p m k)

  -- Nothing is found in an empty enumeration only.
  none_everywhere : (m : Assoc K V) → ((k : K) → find m k ≡ none) → m ≡ []
  unfolding find
  none_everywhere [] h = refl
  none_everywhere ((j, v) ∷ m) h = ground (arith, h j)

  -- An entry behind a key that is not there again.
  pub find_tail :
      (k j : K) (v w : V) (m : Assoc K V)
      → find m k ≡ none
      → find m j ≡ some w
      → find ((k, v) ∷ m) j ≡ some w
  unfolding find
  find_tail k j v w m n h = ground (arith, n, h, apart)
    where
      apart : (k ≡ j) → ⊥
      apart e = ground (arith, ap (λ i. find m i) e, n, h)

  pub find_head : (k : K) (v : V) (m : Assoc K V) → find ((k, v) ∷ m) k ≡ some v
  unfolding find
  find_head k v m = ground arith

  -- Two enumerations of one map have the same count.
  pub tally_ext :
      (p : K × V → Bool) (m n : Assoc K V)
      → Unique m
      → Unique n
      → ((k : K) → find m k ≡ find n k)
      → tally p m ≡ tally p n
  tally_ext p [] n u w h = rw (none_everywhere n (λ k. sym (h k) ∙ unfold find in refl))
  tally_ext p ((k, v) ∷ m) n u w h = rw (tally-erase p n k v w (sym (h k) ∙ find_head k v m)) (
      ap (λ (t : ℕ). (if p (k, v) then 1 else 0) + t)
        (tally_ext p m (erase n k) u.1 (erase-Unique n k w) rest))
    where
      rest : (j : K) → find m j ≡ find (erase n k) j
      rest j = unfold find in ground (arith, h j, find-erase n k j, u.0)

-- The keys whose values pass a test, in the order of the enumeration.
abbrev pub keys_where {ℓ κ} : {K : Type ℓ} {V : Type κ} → (V → Bool) → Assoc K V → List K
keys_where p [] = []
keys_where p ((k, v) ∷ m) = let rest = keys_where p m in if p v then k ∷ rest else rest

abbrev pub values {ℓ κ} : {K : Type ℓ} {V : Type κ} → Assoc K V → List V
values [] = []
values ((k, v) ∷ m) = v ∷ values m

abbrev pub passes {ℓ} : {V : Type ℓ} → (V → Bool) → Option V → Bool
passes p none = false
passes p (some v) = p v

module _ {ℓ} {V : Type ℓ} (p : V → Bool) where
  member_absent :
      (m : Assoc Text V) (j : Text) → find text_dec m j ≡ none → member j (keys_where p m) ≡ false
  unfolding find
  member_absent [] j h = refl
  member_absent ((k, v) ∷ m) j h = ground (arith, member_absent m j)

  -- A key is listed exactly if its value passes.
  pub member-keys_where :
      (m : Assoc Text V) (j : Text)
      → Unique text_dec m
      → member j (keys_where p m) ≡ passes p (find text_dec m j)
  unfolding find
  member-keys_where [] j u = refl
  member-keys_where ((k, v) ∷ m) j u =
      ground (arith, member-keys_where m j u.1, member_absent m k u.0, member_absent m j)
