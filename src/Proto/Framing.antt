-- ===== src/Proto/Framing.antt =====
-- internal/proto/proto.go: what WriteMsg frames, ReadMsg reads back.
use zerock.Prelude.{
  ℕ, zero, suc, ◌+◌, ◌*◌, ◌/◌, ◌%◌, ◌≤◌, ◌≡◌, ◌≢◌, ◌∙◌, refl, Option, some, List, [], ◌∷◌, ◌++◌,
  length, append_assoc, ltb, ◌==◌, if◌then◌else◌, arith, inl, inr, Option-cases,
}
use zerock.Proto.{
  broken, empty_message, too_large, max_msg, message, put_uint32, read_full, read_header, write_msg,
  read_body, read_msg,
}

read_full-append : (b s : List ℕ) → read_full (length b) (b ++ s) ≡ some (b, s)
unfolding read_full
read_full-append [] s = refl
read_full-append (x ∷ b) s = rw (read_full-append b s)

uint32_lem :
    (n : ℕ)
    → n ≤ 1048576
    → n / 16777216 % 256 * 16777216 + n / 65536 % 256 * 65536 + n / 256 % 256 * 256 + n % 256 ≡ n
uint32_lem n h = omega arith

read_header-put_uint32 :
    (n : ℕ) (s : List ℕ) → n ≤ max_msg → read_header (put_uint32 n ++ s) ≡ some (n, s)
unfolding read_header put_uint32
read_header-put_uint32 n s h = rw (uint32_lem n h)

-- What the framing needs of the JSON encoder: it reads back what it wrote, which is never empty.
pub record IsCodec {A : Type 0} (marshal : A → Option (List ℕ)) (unmarshal : List ℕ → Option A)
    : Type 0 where
  pub reads_back : (v : A) (b : List ℕ) → marshal v ≡ some b → unmarshal b ≡ some v
  pub written : (v : A) → marshal v ≢ some []

module _ {A : Type 0} (marshal : A → Option (List ℕ)) (unmarshal : List ℕ → Option A) where
  read_body-append :
      (v : A) (b s : List ℕ)
      → unmarshal b ≡ some v
      → read_body unmarshal (length b) (b ++ s) ≡ message v s
  unfolding read_body
  read_body-append v b s e = rw (read_full-append b s, e, read_body)

  -- The frame of a body that is written.
  write_msg-eq-some :
      (v : A) (frame : List ℕ)
      → write_msg marshal v ≡ some frame
      → (b : List ℕ) × (marshal v ≡ some b)
        × (length b ≤ max_msg)
        × (frame ≡ put_uint32 (length b) ++ b)
  unfolding write_msg
  write_msg-eq-some v frame h = elim (Option-cases (marshal v)) [
    | inl e ↦ absurd (ground arith)
    | inr (b, e) ↦ (b, e, ground arith, ground arith)
  ]

  read_frame :
      (n : ℕ) (s : List ℕ)
      → n ≢ 0
      → n ≤ max_msg
      → read_msg unmarshal (put_uint32 n ++ s) ≡ read_body unmarshal n s
  unfolding read_msg
  read_frame n s positive small = rw (read_header-put_uint32 n s small, read_msg) (ground arith)

  -- Whatever `WriteMsg` writes, followed by anything, `ReadMsg` reads back as the same message, and
  -- leaves what follows unread.
  pub read_msg-write_msg :
      (v : A) (frame s : List ℕ)
      → IsCodec marshal unmarshal
      → write_msg marshal v ≡ some frame
      → read_msg unmarshal (frame ++ s) ≡ message v s
  read_msg-write_msg v frame s codec h =
      let (b, e, small, framed) = write_msg-eq-some v frame h in
      rw framed (
        rw (append_assoc (put_uint32 (length b)) b s) (
          read_frame (length b) (b ++ s) (λ z. codec.written v (e ∙ ground (arith, z))) small
          ∙ read_body-append v b s (codec.reads_back v b e)))

read_full_sound :
    (n : ℕ) (s b rest : List ℕ)
    → read_full n s ≡ some (b, rest)
    → (length b ≡ n) × (length s ≡ n + length rest)
unfolding read_full
read_full_sound zero s b rest h = ground arith
read_full_sound (suc n) [] b rest h = cc
read_full_sound (suc n) (x ∷ s) b rest h = elim (Option-cases (read_full n s)) [
  | inl e ↦ absurd (ground arith)
  | inr ((c, r), e) ↦ ground (arith, read_full_sound n s c r e)
]

module _ {A : Type 0} (unmarshal : List ℕ → Option A) where
  body_sound :
      (n : ℕ) (s : List ℕ) (v : A) (rest : List ℕ)
      → read_body unmarshal n s ≡ message v rest
      → (b : List ℕ) × (unmarshal b ≡ some v) × (length b ≡ n) × (length s ≡ n + length rest)
  unfolding read_body
  body_sound n s v rest h = elim (Option-cases (read_full n s)) [
    | inl e ↦ absurd (ground arith)
    | inr ((b, r), e) ↦ elim (Option-cases (unmarshal b)) [
      | inl f ↦ absurd (ground arith)
      | inr (w, f) ↦ (
        b,
        ground arith,
        ground (arith, read_full_sound n s b r e),
        ground (arith, read_full_sound n s b r e),
      )
    ]
  ]

  header_sound :
      (s : List ℕ) (n : ℕ) (body : List ℕ)
      → read_header s ≡ some (n, body)
      → length s ≡ 4 + length body
  unfolding read_header
  header_sound [] n body h = cc
  header_sound (a ∷ []) n body h = cc
  header_sound (a ∷ b ∷ []) n body h = cc
  header_sound (a ∷ b ∷ c ∷ []) n body h = cc
  header_sound (a ∷ b ∷ c ∷ d ∷ s) n body h = ground arith

  -- A message that is read came in a frame of 1 to 2^20 bytes after a header of four, and exactly
  -- those bytes were taken from the stream, whatever the peer sent.
  pub read_msg_bounds :
      (s : List ℕ) (v : A) (rest : List ℕ)
      → read_msg unmarshal s ≡ message v rest
      → (b : List ℕ) × (unmarshal b ≡ some v)
        × (1 ≤ length b)
        × (length b ≤ max_msg)
        × (length s ≡ 4 + length b + length rest)
  unfolding read_msg
  read_msg_bounds s v rest h = elim (Option-cases (read_header s)) [
    | inl e ↦ absurd (ground arith)
    | inr ((n, body), e) ↦
        let (positive, small, step) = guards n body (rw (e, read_msg) at h) in
        let (b, decoded, size, taken) = body_sound n body v rest step in
        (
          b,
          decoded,
          omega (arith, positive, size),
          omega (arith, small, size),
          omega (arith, header_sound s n body e, size, taken),
        )
  ]
    where
      guards :
          (n : ℕ) (body : List ℕ)
          → (if n == 0
              then broken empty_message
              else if ltb max_msg n
              then broken too_large
              else read_body unmarshal n body)
            ≡ message v rest
          → (1 ≤ n) × (n ≤ max_msg) × (read_body unmarshal n body ≡ message v rest)
      guards n body h = ground arith
