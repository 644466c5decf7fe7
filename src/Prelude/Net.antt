-- ===== src/Prelude/Net.antt =====
-- What the program uses of packages `strconv` and `net`: decimal numbers, and addresses of a host and
-- a port. `atoi` has no range of its own: every caller tests the range that it allows.
pub mod Laws
use Prim.Native.Nat.{ℕ, zero, suc, ◌+◌, ◌-◌, ◌*◌, ◌/◌, ◌%◌}
use mathlib.Core.Bool.{Bool, true, false, ◌&&◌, ◌||◌}
use mathlib.Core.Option
use mathlib.Core.Option.{Option, none, some}
use mathlib.Core.List.{List, [], ◌∷◌, ◌++◌}
use native.Mathlib.Omega.{arith}
use zerock.Prelude.Tests.{leb, ◌==◌, if◌then◌else◌}
use zerock.Prelude.Int.{ℤ, pos, negsuc}
use zerock.Prelude.Strings.{Text, has_byte}

-- The decimal digits of a number, the last one first; the fuel is above the number.
unfoldable pub decimal_loop : ℕ → ℕ → Text → Text
decimal_loop zero n out = out
decimal_loop (suc fuel) n out =
    let rest = decimal_loop fuel (n / 10) ((b'0' + n % 10) ∷ out) in
    if n / 10 == 0 then (b'0' + n % 10) ∷ out else rest

-- `%d`, and `strconv.Itoa`
unfoldable pub decimal : ℤ → Text
unfolding decimal_loop
decimal (pos n) = decimal_loop (suc n) n []
decimal (negsuc n) = b'-' ∷ decimal_loop (suc (suc n)) (suc n) []

abbrev pub is_digit : ℕ → Bool
is_digit c = leb b'0' c && leb c b'9'

unfoldable pub digits : ℕ → Text → Option ℕ
digits acc [] = some acc
digits acc (c ∷ s) =
    let rest = digits (acc * 10 + (c - b'0')) s in if is_digit c then rest else none

-- At least one digit.
unfoldable pub unsigned : Text → Option ℕ
unfolding digits
unsigned [] = none
unsigned (c ∷ s) = digits 0 (c ∷ s)

abbrev pub negated : ℕ → ℤ
negated zero = pos zero
negated (suc n) = negsuc n

-- `strconv.Atoi`
unfoldable pub atoi : Text → Option ℤ
unfolding unsigned
atoi [] = none
atoi (c ∷ s) =
    if c == b'-'
    then Option.map negated (unsigned s)
    else if c == b'+'
    then Option.map pos (unsigned s)
    else Option.map pos (unsigned (c ∷ s))

-- The text before and after the first such byte, as `strings.Cut`.
unfoldable pub cut_first : ℕ → Text → Option (Text × Text)
cut_first b [] = none
cut_first b (c ∷ s) =
    let rest = Option.map (λ p. (c ∷ p.0, p.1)) (cut_first b s) in
    if c == b then some ([], s) else rest

-- The text before and after the last such byte.
unfoldable pub cut_last : ℕ → Text → Option (Text × Text)
cut_last b [] = none
cut_last b (c ∷ s) = elim (cut_last b s) [
  | some p ↦ some (c ∷ p.0, p.1)
  | none ↦ if c == b then some ([], s) else none
]

-- No bracket stands where it must not.
unfoldable pub checked : Text → Text → Option (Text × Text)
checked host port =
    if has_byte b'[' host || (has_byte b'[' port || has_byte b']' port)
    then none
    else some (host, port)

-- The part before the last colon: in brackets, or without any colon of its own.
unfoldable pub split_at : Text → Text → Option (Text × Text)
unfolding checked cut_first
split_at [] port = checked [] port
split_at (c ∷ s) port =
    if c == b'['
    then elim (cut_first b']' s) [
      | none ↦ none
      | some (host, []) ↦ checked host port
      | some (host, d ∷ more) ↦ none
    ]
    else if has_byte b':' (c ∷ s) || has_byte b']' (c ∷ s)
    then none
    else checked (c ∷ s) port

-- `net.SplitHostPort`; `none` is an error.
unfoldable pub split_host_port : Text → Option (Text × Text)
unfolding cut_last split_at
split_host_port s = elim (cut_last b':' s) [
  | none ↦ none
  | some (before, port) ↦ split_at before port
]

-- `net.JoinHostPort`
unfoldable pub join_host_port : Text → Text → Text
join_host_port host port =
    if has_byte b':' host then b'[' ∷ (host ++ (b']' ∷ b':' ∷ port)) else host ++ (b':' ∷ port)
