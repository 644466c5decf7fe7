-- ===== src/Prelude/Net/Laws.antt =====
-- Laws of decimal numbers and of addresses: what is written is read back.
use Prim.Native.Nat.{ℕ, zero, suc, ◌+◌, ◌/◌, ◌%◌, ◌<◌}
use mathlib.Core.Path.{◌≡◌, refl, ◌∙◌}
use mathlib.Core.Bool.{Bool, true, false, not, ◌&&◌}
use mathlib.Core.Logic.{◌≢◌}
use mathlib.Core.Option.{none, some}
use mathlib.Core.List.{[], ◌∷◌, ◌++◌}
use native.Mathlib.Omega.{arith}
use zerock.Prelude.Int.{ℤ, pos, negsuc}
use zerock.Prelude.Words.{has_no_space, IsWord}
use zerock.Prelude.Lists.{all, is_empty}
use zerock.Prelude.Strings.{Text, has_byte}
use zerock.Prelude.Net.{
  decimal_loop, decimal, is_digit, digits, unsigned, atoi, cut_last, checked, split_at,
  split_host_port,
}

-- The digits written before `out` are read as the number, and then `out` is read on.
digits-decimal_loop :
    (fuel n : ℕ) (out : Text) → n < fuel → digits 0 (decimal_loop fuel n out) ≡ digits n out
unfolding decimal_loop digits
digits-decimal_loop zero n out h = absurd (omega arith)
digits-decimal_loop (suc fuel) n out h =
    ground (arith, digits-decimal_loop fuel (n / 10) ((b'0' + n % 10) ∷ out))

all_digits :
    (fuel n : ℕ) (out : Text)
    → all is_digit out ≡ true
    → all is_digit (decimal_loop fuel n out) ≡ true
unfolding decimal_loop
all_digits zero n out h = h
all_digits (suc fuel) n out h = ground (arith, all_digits fuel (n / 10) ((b'0' + n % 10) ∷ out))

pub decimal-digits : (n : ℕ) → all is_digit (decimal (pos n)) ≡ true
unfolding decimal
decimal-digits n = all_digits (suc n) n [] refl

atoi-digits :
    (s : Text) (n : ℕ)
    → all is_digit s ≡ true
    → digits 0 s ≡ some n
    → s ≢ []
    → atoi s ≡ some (pos n)
unfolding atoi unsigned
atoi-digits [] n a h ne = absurd (ne refl)
atoi-digits (c ∷ s) n a h ne = rw h (ground arith)

loop_not_empty : (fuel n : ℕ) (out : Text) → decimal_loop (suc fuel) n out ≢ []
unfolding decimal_loop
loop_not_empty zero n out e = ground arith
loop_not_empty (suc fuel) n out e =
    ground (arith, loop_not_empty fuel (n / 10) ((b'0' + n % 10) ∷ out))

-- A number that is written is read back.
pub atoi-decimal : (n : ℕ) → atoi (decimal (pos n)) ≡ some (pos n)
unfolding decimal
atoi-decimal n =
    atoi-digits (decimal_loop (suc n) n []) n (all_digits (suc n) n [] refl)
      (digits-decimal_loop (suc n) n [] (omega arith) ∙ unfold digits in refl)
      (loop_not_empty n n [])

digits_are_word : (s : Text) → all is_digit s ≡ true → has_no_space s ≡ true
digits_are_word [] h = refl
digits_are_word (c ∷ s) h = ground (arith, digits_are_word s)

not_empty : (s : Text) → s ≢ [] → is_empty s ≡ false
not_empty [] h = absurd (h refl)
not_empty (c ∷ s) h = refl

-- A number is one word.
pub decimal-IsWord : (n : ℤ) → IsWord (decimal n)
unfolding decimal
decimal-IsWord (pos n) = (
  not_empty (decimal_loop (suc n) n []) (loop_not_empty n n []),
  digits_are_word (decimal_loop (suc n) n []) (all_digits (suc n) n [] refl),
)
decimal-IsWord (negsuc n) = (
  refl,
  digits_are_word (decimal_loop (suc (suc n)) (suc n) [])
      (all_digits (suc (suc n)) (suc n) [] refl),
)

pub has_byte-digits :
    (b : ℕ) (s : Text) → is_digit b ≡ false → all is_digit s ≡ true → has_byte b s ≡ false
unfolding has_byte
has_byte-digits b [] h a = refl
has_byte-digits b (c ∷ s) h a = ground (arith, has_byte-digits b s)

pub cut_last-none : (b : ℕ) (s : Text) → has_byte b s ≡ false → cut_last b s ≡ none
unfolding cut_last has_byte
cut_last-none b [] h = refl
cut_last-none b (c ∷ s) h = ground (arith, cut_last-none b s)

cut_last-append :
    (b : ℕ) (s t : Text) → has_byte b t ≡ false → cut_last b (s ++ (b ∷ t)) ≡ some (s, t)
unfolding cut_last
cut_last-append b [] t h = ground (arith, cut_last-none b t h)
cut_last-append b (c ∷ s) t h = rw (cut_last-append b s t h)

-- Neither colons nor brackets.
abbrev pub is_plain : Text → Bool
is_plain s = not (has_byte b':' s) && (not (has_byte b'[' s) && not (has_byte b']' s))

split_at-plain :
    (host port : Text)
    → is_plain host ≡ true
    → is_plain port ≡ true
    → split_at host port ≡ some (host, port)
unfolding split_at checked
split_at-plain [] port h p = ground arith
split_at-plain (c ∷ s) port h p = unfold has_byte in ground arith

-- A host and a port without colons and brackets are split where they were joined.
pub split_host_port-plain :
    (host port : Text)
    → is_plain host ≡ true
    → is_plain port ≡ true
    → split_host_port (host ++ (b':' ∷ port)) ≡ some (host, port)
unfolding split_host_port
split_host_port-plain host port h p =
    rw (cut_last-append b':' host port (ground arith), split_host_port)
      (split_at-plain host port h p)

-- A text without a colon is no host and port.
pub split_host_port-none : (s : Text) → has_byte b':' s ≡ false → split_host_port s ≡ none
unfolding split_host_port
split_host_port-none s h = rw (cut_last-none b':' s h, split_host_port)
