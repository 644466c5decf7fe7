-- ===== src/Prelude/Strings.antt =====
-- Go strings as the list of their bytes, and what the program uses of package `strings`.
-- Case mapping and white space are those of ASCII: a text outside ASCII is not in the model.
pub mod Laws
use Prim.Native.Nat.{ℕ, ◌+◌}
use Prim.Native.Char.{code}
use Prim.Native.String.{String}
use mathlib.Core.Path.{◌≡◌, refl}
use mathlib.Core.Logic.{◌↔◌, ◌≢◌}
use mathlib.Core.Bool.{Bool, true, false, ◌&&◌, ◌||◌}
use mathlib.Core.Option
use mathlib.Core.Option.{Option, none, some}
use mathlib.Core.List.{List, [], ◌∷◌}
use native.Mathlib.Omega.{arith}
use native.Mathlib.Decide.{ℕ_discrete}
use zerock.Prelude.Tests.{leb, ◌==◌, if◌then◌else◌}

abbrev pub Text : Type 0
Text = List ℕ

-- The bytes of a literal.
abbrev pub codes : String → Text
codes String.[] = []
codes (String.◌∷◌ c s) = code c ∷ codes s

text_cons : {a b : ℕ} {s t : Text} → Dec (a ≡ b) → Dec (s ≡ t) → Dec (a ∷ s ≡ b ∷ t)
text_cons (yes p) (yes q) = yes (cc)
text_cons (yes p) (no q) = no (λ e. q (cc))
text_cons (no p) _ = no (λ e. p (cc))

unfoldable pub text_dec : (s t : Text) → Dec (s ≡ t)
unfolding ℕ_discrete text_cons
text_dec [] [] = yes refl
text_dec [] (b ∷ t) = no (λ e. cc)
text_dec (a ∷ s) [] = no (λ e. cc)
text_dec (a ∷ s) (b ∷ t) = text_cons (ℕ_discrete a b) (text_dec s t)

-- `s == t` on strings. The tactics split on the decision, and each branch has its proof.
abbrev pub text_eq : Text → Text → Bool
text_eq s t = elim (text_dec s t) [ yes p ↦ true | no p ↦ false ]

pub text_eq_iff : (s t : Text) → (text_eq s t ≡ true) ↔ (s ≡ t)
text_eq_iff s t = ground arith

pub text_eq_refl : (s : Text) → text_eq s s ≡ true
text_eq_refl s = ground arith

pub text_eq_comm : (s t : Text) → text_eq s t ≡ text_eq t s
text_eq_comm s t = ground arith

pub text_eq_ne : (s t : Text) → s ≢ t → text_eq s t ≡ false
text_eq_ne s t h = ground arith

-- Whether a text is in a list of texts.
abbrev pub member : Text → List Text → Bool
member s [] = false
member s (x ∷ xs) = text_eq x s || member s xs

unfoldable pub lower_byte : ℕ → ℕ
lower_byte c = if leb b'A' c && leb c b'Z' then c + 32 else c

-- `strings.ToLower`
unfoldable pub to_lower : Text → Text
unfolding lower_byte
to_lower [] = []
to_lower (c ∷ s) = lower_byte c ∷ to_lower s

abbrev pub is_space : ℕ → Bool
is_space c = (leb 9 c && leb c 13) || c == 32

unfoldable pub trim_left : (ℕ → Bool) → Text → Text
trim_left p [] = []
trim_left p (c ∷ s) = let rest = trim_left p s in if p c then rest else c ∷ s

-- A byte before a text whose right end is trimmed.
unfoldable pub keep_left : (ℕ → Bool) → ℕ → Text → Text
keep_left p c [] = if p c then [] else c ∷ []
keep_left p c (d ∷ s) = c ∷ d ∷ s

unfoldable pub trim_right : (ℕ → Bool) → Text → Text
unfolding keep_left
trim_right p [] = []
trim_right p (c ∷ s) = keep_left p c (trim_right p s)

-- `strings.Trim`, the cutset being a test.
unfoldable pub trim : (ℕ → Bool) → Text → Text
unfolding trim_left trim_right
trim p s = trim_right p (trim_left p s)

-- `strings.TrimSpace`
unfoldable pub trim_space : Text → Text
unfolding trim
trim_space s = trim is_space s

-- A byte before the first part.
abbrev pub cons_head : ℕ → List Text → List Text
cons_head c [] = (c ∷ []) ∷ []
cons_head c (p ∷ ps) = (c ∷ p) ∷ ps

-- `strings.Split` at one byte.
unfoldable pub split : Text → ℕ → List Text
split [] sep = [] ∷ []
split (c ∷ s) sep = let rest = split s sep in if c == sep then [] ∷ rest else cons_head c rest

-- `strings.Contains` of one byte.
unfoldable pub has_byte : ℕ → Text → Bool
has_byte b [] = false
has_byte b (c ∷ s) = c == b || has_byte b s

-- `strings.HasSuffix` and `strings.TrimSuffix`: the text before the suffix, if it is there.
unfoldable pub cut_suffix : Text → Text → Option Text
unfolding text_dec
cut_suffix [] suffix = if text_eq [] suffix then some [] else none
cut_suffix (c ∷ s) suffix =
    let rest = Option.map (λ l. c ∷ l) (cut_suffix s suffix) in
    if text_eq (c ∷ s) suffix then some [] else rest

-- `strings.HasPrefix` and `strings.CutPrefix`.
unfoldable pub cut_prefix : Text → Text → Option Text
cut_prefix s [] = some s
cut_prefix [] (b ∷ prefix) = none
cut_prefix (c ∷ s) (b ∷ prefix) = let rest = cut_prefix s prefix in if c == b then rest else none
