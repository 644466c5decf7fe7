-- ===== src/Prelude/Strings/Laws.antt =====
-- Laws of trimming, splitting and cutting.
use Prim.Native.Nat.{ℕ}
use mathlib.Core.Path.{◌≡◌, refl, ap}
use mathlib.Core.Logic.{◌≢◌, inl, inr}
use mathlib.Core.Bool.{Bool, true, false, not}
use mathlib.Core.List.{List, [], ◌∷◌, ◌++◌}
use mathlib.Core.Option.{some}
use native.Mathlib.Omega.{arith}
use zerock.Prelude.Tests.{◌==◌, Option-cases, Bool-cases}
use zerock.Prelude.Lists.{all, All, length, length-append}
use zerock.Prelude.Strings.{
  Text, trim_left, trim_right, keep_left, trim, split, cons_head, cut_suffix, to_lower, lower_byte,
}

-- Trimming does nothing to a text without a byte to trim.
trim_left-none : (p : ℕ → Bool) (s : Text) → all (λ c. not (p c)) s ≡ true → trim_left p s ≡ s
unfolding trim_left
trim_left-none p [] h = refl
trim_left-none p (c ∷ s) h = ground arith

trim_right-none : (p : ℕ → Bool) (s : Text) → all (λ c. not (p c)) s ≡ true → trim_right p s ≡ s
unfolding trim_right keep_left
trim_right-none p [] h = refl
trim_right-none p (c ∷ []) h = ground arith
trim_right-none p (c ∷ d ∷ s) h = ground (arith, trim_right-none p (d ∷ s))

pub trim-none : (p : ℕ → Bool) (s : Text) → all (λ c. not (p c)) s ≡ true → trim p s ≡ s
unfolding trim
trim-none p s h = rw (trim_left-none p s h) (trim_right-none p s h)

-- The text has no such byte.
abbrev pub Lacks : ℕ → Text → Type 0
Lacks b s = all (λ c. not (c == b)) s ≡ true

pub split-one : (sep : ℕ) (p : Text) → Lacks sep p → split p sep ≡ p ∷ []
unfolding split
split-one sep [] h = refl
split-one sep (c ∷ p) h = ground (arith, split-one sep p)

pub split-first :
    (sep : ℕ) (p rest : Text) → Lacks sep p → split (p ++ (sep ∷ rest)) sep ≡ p ∷ split rest sep
unfolding split
split-first sep [] rest h = ground arith
split-first sep (c ∷ p) rest h = ground (arith, split-first sep p rest)

-- The parts with the separator between them.
unfoldable pub glue : ℕ → List Text → Text
glue sep [] = []
glue sep (p ∷ []) = p
glue sep (p ∷ q ∷ ps) = p ++ (sep ∷ glue sep (q ∷ ps))

glue-cons_head : (sep c : ℕ) (ps : List Text) → glue sep (cons_head c ps) ≡ c ∷ glue sep ps
unfolding glue
glue-cons_head sep c [] = refl
glue-cons_head sep c (p ∷ []) = refl
glue-cons_head sep c (p ∷ q ∷ ps) = refl

glue_empty_first : (sep : ℕ) (ps : List Text) → ps ≢ [] → glue sep ([] ∷ ps) ≡ sep ∷ glue sep ps
unfolding glue
glue_empty_first sep [] h = absurd (h refl)
glue_empty_first sep (p ∷ ps) h = refl

split-ne-nil : (sep : ℕ) (s : Text) → split s sep ≢ []
unfolding split
split-ne-nil sep [] e = cc
split-ne-nil sep (c ∷ s) e = ground arith

-- The parts of a split spell the text.
pub glue-split : (sep : ℕ) (s : Text) → glue sep (split s sep) ≡ s
unfolding split
glue-split sep [] = unfold glue in refl
glue-split sep (c ∷ s) = ground (
  arith,
  glue-split sep s,
  glue-cons_head sep c (split s sep),
  glue_empty_first sep (split s sep),
  split-ne-nil sep s,
)

cons_head-Lacks :
    (sep c : ℕ) (ps : List Text)
    → (c == sep) ≡ false
    → All (Lacks sep) ps
    → All (Lacks sep) (cons_head c ps)
cons_head-Lacks sep c [] h a = ground arith
cons_head-Lacks sep c (p ∷ ps) h a = ground arith

-- No part holds the separator.
pub split-Lacks : (sep : ℕ) (s : Text) → All (Lacks sep) (split s sep)
unfolding split
split-Lacks sep [] = (refl, tt)
split-Lacks sep (c ∷ s) = elim (Bool-cases (c == sep)) [
  | inl e ↦ rw e (refl, split-Lacks sep s)
  | inr e ↦ rw e (cons_head-Lacks sep c (split s sep) e (split-Lacks sep s))
]

-- A suffix that is found is the end of the text.
pub cut_suffix_sound : (s suffix l : Text) → cut_suffix s suffix ≡ some l → s ≡ l ++ suffix
unfolding cut_suffix
cut_suffix_sound [] suffix l h = ground arith
cut_suffix_sound (c ∷ s) suffix l h = elim (Option-cases (cut_suffix s suffix)) [
  | inl e ↦ ground arith
  | inr (m, e) ↦ ground (arith, cut_suffix_sound s suffix m)
]

longer-ne : (c : ℕ) (l suffix : Text) → c ∷ (l ++ suffix) ≢ suffix
longer-ne c l suffix e = omega (arith, ap length e, length-append l suffix)

-- And it is found behind every text.
pub cut_suffix-append : (l suffix : Text) → cut_suffix (l ++ suffix) suffix ≡ some l
unfolding cut_suffix
cut_suffix-append [] [] = refl
cut_suffix-append [] (b ∷ suffix) = ground arith
cut_suffix-append (c ∷ l) suffix = ground (arith, cut_suffix-append l suffix, longer-ne c l suffix)

-- Trimming a text whose first byte stays, and whose end is a text that trimming leaves alone.
trim_right-append :
    (p : ℕ → Bool) (s t : Text) → t ≢ [] → trim_right p t ≡ t → trim_right p (s ++ t) ≡ s ++ t
unfolding trim_right keep_left
trim_right-append p [] t ne h = h
trim_right-append p (c ∷ []) [] ne h = absurd (ne refl)
trim_right-append p (c ∷ []) (d ∷ t) ne h = rw h
trim_right-append p (c ∷ d ∷ s) t ne h = rw (trim_right-append p (d ∷ s) t ne h)

pub trim-append :
    (p : ℕ → Bool) (c : ℕ) (s t : Text)
    → p c ≡ false
    → t ≢ []
    → trim_right p t ≡ t
    → trim p ((c ∷ s) ++ t) ≡ (c ∷ s) ++ t
unfolding trim trim_left
trim-append p c s t hc ne h = rw hc (trim_right-append p (c ∷ s) t ne h)

pub to_lower-append : (s t : Text) → to_lower (s ++ t) ≡ to_lower s ++ to_lower t
unfolding to_lower
to_lower-append [] t = refl
to_lower-append (c ∷ s) t = ap (λ (r : Text). lower_byte c ∷ r) (to_lower-append s t)
