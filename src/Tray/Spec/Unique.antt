-- ===== src/Tray/Spec/Unique.antt =====
-- internal/tray/spec.go: `uniqueName` returns, with the first name that no saved tunnel has.
use mathlib.Core.List.{append_cancel_left}
use zerock.Prelude.{
  ℕ, zero, suc, ◌+◌, ◌<◌, ◌≤◌, ◌≡◌, ◌≢◌, refl, sym, ◌∙◌, ap, Option, none, some, [], ◌∷◌, Text,
  text_dec, arith, length, pos, pos, Option-cases, ℕ_discrete, inl, inr,
}
use zerock.Prelude.Assoc
use zerock.Prelude.Assoc.{Assoc}
use zerock.Prelude.Net.{decimal, atoi}
use zerock.Prelude.Net.Laws.{atoi-decimal}
use zerock.Client.Profiles.{SavedTunnel}
use zerock.Tray.Spec.{candidate, unique_loop, unique_name}

erase_le : (m : Assoc Text SavedTunnel) (k : Text) → length (Assoc.erase text_dec m k) ≤ length m
unfolding Assoc.erase
erase_le [] k = omega arith
erase_le ((j, v) ∷ m) k = ground (arith, erase_le m k)

-- Erasing a name that is there makes the map smaller.
erase_lt :
    (m : Assoc Text SavedTunnel) (k : Text) (t : SavedTunnel)
    → Assoc.find text_dec m k ≡ some t
    → length (Assoc.erase text_dec m k) < length m
unfolding Assoc.erase Assoc.find
erase_lt [] k t h = ground arith
erase_lt ((j, v) ∷ m) k t h = ground (arith, erase_lt m k t, erase_le m k)

pos_injective : (i j : ℕ) → some (pos i) ≡ some (pos j) → i ≡ j
pos_injective i j h = ground arith

-- Two numbers make two names.
candidate_injective : (name : Text) (i j : ℕ) → candidate name i ≡ candidate name j → i ≡ j
candidate_injective name i j h = pos_injective i j (
    sym (atoi-decimal i)
    ∙ ap atoi (
        append_cancel_left (b'-' ∷ []) (decimal (pos i)) (decimal (pos j))
          (append_cancel_left name (b'-' ∷ decimal (pos i)) (b'-' ∷ decimal (pos j)) h))
    ∙ atoi-decimal j)

-- The number of the first candidate from the i-th on that is free.
pub record First (name : Text) (taken : Assoc Text SavedTunnel) (i k : ℕ) : Type 0 where
  pub from : i ≤ k
  pub is_free : Assoc.find text_dec taken (candidate name k) ≡ none
  pub before : (j : ℕ) → i ≤ j → j < k → Assoc.find text_dec taken (candidate name j) ≢ none

loop_free :
    (fuel i : ℕ) (name : Text) (taken : Assoc Text SavedTunnel)
    → Assoc.find text_dec taken (candidate name i) ≡ none
    → unique_loop (suc fuel) i name taken ≡ some (candidate name i)
unfolding unique_loop
loop_free fuel i name taken e = rw (unique_loop, e) refl

loop_taken :
    (fuel i : ℕ) (name : Text) (taken : Assoc Text SavedTunnel) (t : SavedTunnel)
    → Assoc.find text_dec taken (candidate name i) ≡ some t
    → unique_loop (suc fuel) i name taken ≡ unique_loop fuel (i + 1) name taken
unfolding unique_loop
loop_taken fuel i name taken t e = rw (unique_loop, e) refl

First-taken :
    (name : Text) (taken : Assoc Text SavedTunnel) (i k : ℕ) (t : SavedTunnel)
    → Assoc.find text_dec taken (candidate name i) ≡ some t
    → First name taken (i + 1) k
    → First name taken i k
First-taken name taken i k t e f = record {
  from = omega (arith, f.from);
  is_free = f.is_free;
  before = λ j a b. elim (ℕ_discrete i j) [
    | yes s ↦ λ n. ground (arith, ap (λ l. Assoc.find text_dec taken (candidate name l)) s, e, n)
    | no d ↦ f.before j (ground (arith, a, d)) b
  ];
}

erased-other :
    (name : Text) (m : Assoc Text SavedTunnel) (i j : ℕ)
    → i < j
    → Assoc.find text_dec (Assoc.erase text_dec m (candidate name i)) (candidate name j)
      ≡ Assoc.find text_dec m (candidate name j)
erased-other name m i j h =
    ground (arith, Assoc.find-erase text_dec m (candidate name i) (candidate name j), apart)
  where
    apart : (candidate name i ≡ candidate name j) → ⊥
    apart e = omega (arith, candidate_injective name i j e, h)

-- `m` is what is left of the saved tunnels for the candidates from the i-th on.
loop-First :
    (fuel i : ℕ) (name : Text) (taken m : Assoc Text SavedTunnel)
    → length m < fuel
    → ((j : ℕ)
        → i ≤ j
        → Assoc.find text_dec m (candidate name j) ≡ Assoc.find text_dec taken (candidate name j))
    → (k : ℕ) × First name taken i k × (unique_loop fuel i name taken ≡ some (candidate name k))
loop-First zero i name taken m l h = absurd (omega (arith, l))
loop-First (suc fuel) i name taken m l h =
    elim (Option-cases (Assoc.find text_dec taken (candidate name i))) [
      | inl e ↦ (
        i,
        record { from = omega arith; is_free = e; before = λ j a b. absurd (omega (arith, a, b)) },
        loop_free fuel i name taken e,
      )
      | inr (t, e) ↦
          let less = erase_lt m (candidate name i) t (h i (omega arith) ∙ e) in
          let (k, f, r) =
            loop-First fuel (i + 1) name taken (Assoc.erase text_dec m (candidate name i))
              (omega (arith, less, l))
              (λ j a. erased-other name m i j (omega (arith, a)) ∙ h j (omega (arith, a))) in
          (k, First-taken name taken i k t e f, loop_taken fuel i name taken t e ∙ r)
    ]

-- What `uniqueName` answers with.
pub data Fresh (name : Text) (taken : Assoc Text SavedTunnel) : Option Text → Type 0 where
  unused : Assoc.find text_dec taken name ≡ none → Fresh name taken (some name)
  numbered :
      (k : ℕ)
      → Assoc.find text_dec taken name ≢ none
      → First name taken 2 k
      → Fresh name taken (some (candidate name k))

-- `unique_name` always returns: with the name itself if no saved tunnel has it, and else with the
-- name, a dash and the smallest number from 2 on for which no saved tunnel has the result.
pub unique_name-Fresh :
    (name : Text) (taken : Assoc Text SavedTunnel) → Fresh name taken (unique_name name taken)
unfolding unique_name
unique_name-Fresh name taken = elim (Option-cases (Assoc.find text_dec taken name)) [
  | inl e ↦ rw (unique_name, e) (unused e)
  | inr (t, e) ↦
      let (k, f, r) =
        loop-First (suc (length taken)) 2 name taken taken (omega arith) (λ j a. refl) in
      rw (unique_name, e, r) (numbered k (λ n. ground (arith, e, n)) f)
]
