-- ===== src/Store/Secret.antt =====
-- internal/store/token.go: minting and parsing the presented form of a token. SHA-256 is a
-- parameter, from the bytes of a text to a list of bytes.
pub mod Laws
use zerock.Prelude.{
  ℕ, ◌+◌, ◌*◌, ◌/◌, ◌%◌, ◌-◌, Bool, Option, none, some, List, [], ◌∷◌, ◌++◌, Text, codes, text_eq,
  text_dec, ltb, if◌then◌else◌, split, trim_space,
}
use zerock.Store.Token.{Token}

-- Five random bytes: `NewSecret` draws one such group for the id and four for the secret, so the
-- encoder never meets a partial group and writes no padding.
pub record Group : Type 0 where
  pub b0 : ℕ
  pub b1 : ℕ
  pub b2 : ℕ
  pub b3 : ℕ
  pub b4 : ℕ

-- The lowercase base32 digit of a value below 32.
unfoldable pub base32_digit : ℕ → ℕ
base32_digit v = if ltb v 26 then b'a' + v else b'2' + (v - 26)

-- `strings.ToLower(tokenAlphabet.EncodeToString(...))` of one group: eight digits of five bits.
unfoldable pub encode_group : Group → Text
unfolding base32_digit
encode_group g =
    base32_digit (g.b0 / 8)
    ∷ base32_digit (g.b0 % 8 * 4 + g.b1 / 64)
    ∷ base32_digit (g.b1 / 2 % 32)
    ∷ base32_digit (g.b1 % 2 * 16 + g.b2 / 16)
    ∷ base32_digit (g.b2 % 16 * 2 + g.b3 / 128)
    ∷ base32_digit (g.b3 / 4 % 32)
    ∷ base32_digit (g.b3 % 4 * 8 + g.b4 / 32)
    ∷ base32_digit (g.b4 % 32)
    ∷ []

unfoldable pub encode_groups : List Group → Text
unfolding encode_group
encode_groups [] = []
encode_groups (g ∷ gs) = encode_group g ++ encode_groups gs

-- The twenty bytes of a secret.
pub record SecretBytes : Type 0 where
  pub g0 : Group
  pub g1 : Group
  pub g2 : Group
  pub g3 : Group

abbrev pub hex_digit : ℕ → ℕ
hex_digit v = if ltb v 10 then b'0' + v else b'a' + (v - 10)

-- `hex.EncodeToString`
unfoldable pub hex : List ℕ → Text
hex [] = []
hex (b ∷ bs) = hex_digit (b / 16) ∷ hex_digit (b % 16) ∷ hex bs

-- What `NewSecret` returns.
pub record Minted : Type 0 where
  pub id : Text
  pub secret : Text
  pub full : Text

-- `NewSecret` on the bytes that it drew; the hash of the secret is `hash_secret` below.
unfoldable pub mint : Group → SecretBytes → Minted
unfolding encode_groups
mint id_bytes s =
    let id = encode_groups (id_bytes ∷ []) in
    let secret = encode_groups (s.g0 ∷ s.g1 ∷ s.g2 ∷ s.g3 ∷ []) in
    record { id = id; secret = secret; full = codes "zk_" ++ (id ++ (codes "_" ++ secret)) }

-- The three parts of `zk_<id>_<secret>`; any other list of parts is malformed.
unfoldable pub token_parts : List Text → Option (Text × Text)
unfolding text_dec
token_parts (tag ∷ id ∷ secret ∷ []) =
    if text_eq tag (codes "zk")
    then (if text_eq id [] then none else if text_eq secret [] then none else some (id, secret))
    else none
token_parts _ = none

-- `none` is `ErrMalformedToken`.
unfoldable pub parse_token : Text → Option (Text × Text)
unfolding trim_space split token_parts
parse_token full = token_parts (split (trim_space full) b'_')

module _ (sha256 : Text → List ℕ) where
  unfoldable pub hash_secret : Text → Text
  unfolding hex
  hash_secret secret = hex (sha256 secret)

  -- `subtle.ConstantTimeCompare` returns 1 exactly on equal texts.
  unfoldable pub matches : Token → Text → Bool
  unfolding hash_secret
  matches t secret = text_eq t.hash (hash_secret secret)
