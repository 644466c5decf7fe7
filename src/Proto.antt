-- ===== src/Proto.antt =====
-- internal/proto/proto.go: the framing of messages, a length of four bytes in big-endian order and
-- that many bytes of JSON. The JSON encoder is a parameter. A writer takes every byte it is given,
-- and a reader is the list of the bytes that arrive before the end of the stream.
pub mod Framing
mod Examples
use zerock.Prelude.{
  ℕ, zero, suc, ◌+◌, ◌*◌, ◌/◌, ◌%◌, ◌==◌, Bool, true, false, Option, none, some, List, [], ◌∷◌,
  ◌++◌, length, ltb, if◌then◌else◌,
}

-- `maxMsg`, 1 << 20
abbrev pub max_msg : ℕ
max_msg = 1048576

pub data ReadError : Type 0 where
  short empty_message too_large malformed : ReadError

pub data Read (A : Type 0) : Type 0 where
  message : A → List ℕ → Read A
  broken : ReadError → Read A

-- `PutUint32` of `uint32(n)`
unfoldable pub put_uint32 : ℕ → List ℕ
put_uint32 n = n / 16777216 % 256 ∷ n / 65536 % 256 ∷ n / 256 % 256 ∷ n % 256 ∷ []

-- `io.ReadFull` of a buffer of that length; `none` is the end of the stream before it is full.
unfoldable pub read_full : ℕ → List ℕ → Option (List ℕ × List ℕ)
read_full zero s = some ([], s)
read_full (suc n) [] = none
read_full (suc n) (b ∷ s) = elim (read_full n s) [
  | none ↦ none
  | some (bs, rest) ↦ some (b ∷ bs, rest)
]

-- `Uint32` of the four bytes of the header.
unfoldable pub read_header : List ℕ → Option (ℕ × List ℕ)
read_header (b3 ∷ b2 ∷ b1 ∷ b0 ∷ s) = some (b3 * 16777216 + b2 * 65536 + b1 * 256 + b0, s)
read_header s = none

-- `none` is an error, and nothing is written.
unfoldable pub write_msg : {A : Type 0} → (A → Option (List ℕ)) → A → Option (List ℕ)
write_msg marshal v = elim (marshal v) [
  | none ↦ none
  | some b ↦ if ltb max_msg (length b) then none else some (put_uint32 (length b) ++ b)
]

module _ {A : Type 0} (unmarshal : List ℕ → Option A) where
  unfoldable pub read_body : ℕ → List ℕ → Read A
  read_body n s = elim (read_full n s) [
    | none ↦ broken short
    | some (b, rest) ↦ elim (unmarshal b) [ none ↦ broken malformed | some v ↦ message v rest ]
  ]

  unfoldable pub read_msg : List ℕ → Read A
  read_msg s = elim (read_header s) [
    | none ↦ broken short
    | some (n, body) ↦
        if n == 0
        then broken empty_message
        else if ltb max_msg n
        then broken too_large
        else read_body n body
  ]
