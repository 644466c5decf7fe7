-- ===== src/Proto/Examples.antt =====
-- The theorems on the framing at concrete messages.
use zerock.Prelude.{
  ℕ, ◌+◌, ◌≤◌, ◌≡◌, refl, Option, none, some, List, [], ◌∷◌, ◌++◌, arith, length, if◌then◌else◌,
  ◌==◌,
}
use zerock.Proto.{message, max_msg, put_uint32, write_msg, read_msg}
use zerock.Proto.Framing.{IsCodec, read_msg-write_msg, read_msg_bounds}

-- A text behind a quotation mark stands for its JSON.
abbrev quoted : List ℕ → Option (List ℕ)
quoted v = some (34 ∷ v)

abbrev unquoted : List ℕ → Option (List ℕ)
unquoted [] = none
unquoted (c ∷ v) = if c == 34 then some v else none

quoted-IsCodec : IsCodec quoted unquoted
quoted-IsCodec = record { reads_back = λ v b e. ground arith; written = λ v e. cc }

abbrev frame : List ℕ
frame = 0 ∷ 0 ∷ 0 ∷ 3 ∷ 34 ∷ 104 ∷ 105 ∷ []

writes : write_msg quoted (104 ∷ 105 ∷ []) ≡ some frame
unfolding write_msg put_uint32
writes = refl

read_msg-write_msg_example : read_msg unquoted (frame ++ 7 ∷ []) ≡ message (104 ∷ 105 ∷ []) (7 ∷ [])
read_msg-write_msg_example =
    read_msg-write_msg quoted unquoted (104 ∷ 105 ∷ []) frame (7 ∷ []) quoted-IsCodec writes

read_msg_bounds_example :
    (b : List ℕ) × (unquoted b ≡ some (104 ∷ 105 ∷ []))
    × (1 ≤ length b)
    × (length b ≤ max_msg)
    × (length (frame ++ 7 ∷ []) ≡ 4 + length b + 1)
read_msg_bounds_example =
    read_msg_bounds unquoted (frame ++ 7 ∷ []) (104 ∷ 105 ∷ []) (7 ∷ []) read_msg-write_msg_example
