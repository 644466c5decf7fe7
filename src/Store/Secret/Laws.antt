-- ===== src/Store/Secret/Laws.antt =====
-- internal/store/token.go: what is minted parses back, and what parses has the form of a token.
use zerock.Prelude.{
  ℕ, ◌+◌, ◌*◌, ◌/◌, ◌%◌, ◌<◌, ◌≡◌, ◌≢◌, ◌↔◌, refl, sym, ap, subst, ◌∙◌, Bool, true, not, ◌&&◌, ◌||◌,
  some, List, [], ◌∷◌, ◌++◌, arith, Text, codes, leb, all, all-append, All, is_space, trim_space,
  split,
}
use zerock.Prelude.Strings.Laws.{
  Lacks, trim-none, split-one, split-first, glue, glue-split, split-Lacks,
}
use zerock.Store.Secret.{
  Group, SecretBytes, base32_digit, encode_group, encode_groups, mint, token_parts, parse_token,
}

-- A digit of lowercase base32.
abbrev is_digit : ℕ → Bool
is_digit c = (leb b'a' c && leb c b'z') || (leb b'2' c && leb c b'7')

pub record IsBytes (g : Group) : Type 0 where
  pub b0 : g.b0 < 256
  pub b1 : g.b1 < 256
  pub b2 : g.b2 < 256
  pub b3 : g.b3 < 256
  pub b4 : g.b4 < 256

base32_digit-is_digit : (v : ℕ) → v < 32 → is_digit (base32_digit v) ≡ true
unfolding base32_digit
base32_digit-is_digit v h = ground arith

encode_group-digits : (g : Group) → IsBytes g → all is_digit (encode_group g) ≡ true
unfolding encode_group
encode_group-digits g v = rw (
  base32_digit-is_digit (g.b0 / 8) (omega arith),
  base32_digit-is_digit (g.b0 % 8 * 4 + g.b1 / 64) (omega arith),
  base32_digit-is_digit (g.b1 / 2 % 32) (omega arith),
  base32_digit-is_digit (g.b1 % 2 * 16 + g.b2 / 16) (omega arith),
  base32_digit-is_digit (g.b2 % 16 * 2 + g.b3 / 128) (omega arith),
  base32_digit-is_digit (g.b3 / 4 % 32) (omega arith),
  base32_digit-is_digit (g.b3 % 4 * 8 + g.b4 / 32) (omega arith),
  base32_digit-is_digit (g.b4 % 32) (omega arith),
)

pub encode_groups-digits :
    (gs : List Group) → All IsBytes gs → all is_digit (encode_groups gs) ≡ true
unfolding encode_groups
encode_groups-digits [] h = refl
encode_groups-digits (g ∷ gs) h =
    rw (all-append is_digit (encode_group g) (encode_groups gs), encode_group-digits g h.0)
      (encode_groups-digits gs h.1)

digits-Lacks : (s : Text) → all is_digit s ≡ true → Lacks b'_' s
digits-Lacks [] h = refl
digits-Lacks (c ∷ s) h = ground (arith, digits-Lacks s)

digits-no_space : (s : Text) → all is_digit s ≡ true → all (λ c. not (is_space c)) s ≡ true
digits-no_space [] h = refl
digits-no_space (c ∷ s) h = ground (arith, digits-no_space s)

encode_groups-ne-nil : (g : Group) (gs : List Group) → encode_groups (g ∷ gs) ≢ []
unfolding encode_groups encode_group
encode_groups-ne-nil g gs e = cc

-- The text that stands for an id and a secret.
abbrev pub presented : Text → Text → Text
presented id secret = codes "zk_" ++ (id ++ (codes "_" ++ secret))

presented-no_space :
    (id secret : Text)
    → all is_digit id ≡ true
    → all is_digit secret ≡ true
    → all (λ c. not (is_space c)) (presented id secret) ≡ true
presented-no_space id secret hi hs =
    rw (all-append (λ c. not (is_space c)) id (codes "_" ++ secret), digits-no_space id hi)
      (digits-no_space secret hs)

split-presented :
    (id secret : Text)
    → Lacks b'_' id
    → Lacks b'_' secret
    → split (presented id secret) b'_' ≡ codes "zk" ∷ id ∷ secret ∷ []
split-presented id secret hi hs =
    rw (split-first b'_' (codes "zk") (id ++ (codes "_" ++ secret)) refl) (
      ap (λ (ps : List Text). codes "zk" ∷ ps)
        (split-first b'_' id secret hi
          ∙ ap (λ (ps : List Text). id ∷ ps) (split-one b'_' secret hs)))

token_parts_lem :
    (id secret : Text)
    → id ≢ []
    → secret ≢ []
    → token_parts (codes "zk" ∷ id ∷ secret ∷ []) ≡ some (id, secret)
unfolding token_parts
token_parts_lem id secret hi hs = ground arith

-- The parts of an accepted text.
token_parts_sound :
    (ps : List Text) (id secret : Text)
    → token_parts ps ≡ some (id, secret)
    → (ps ≡ codes "zk" ∷ id ∷ secret ∷ []) × (id ≢ []) × (secret ≢ [])
unfolding token_parts
token_parts_sound (tag ∷ i ∷ s ∷ []) id secret h = ground arith
token_parts_sound _ id secret h = cc

-- What an accepted text looks like.
abbrev pub IsPresented : Text → Text → Text → Type 0
IsPresented full id secret =
    (trim_space full ≡ presented id secret)
    × (id ≢ [])
    × (secret ≢ [])
    × Lacks b'_' id
    × Lacks b'_' secret

parse_token_sound :
    (full id secret : Text) → parse_token full ≡ some (id, secret) → IsPresented full id secret
unfolding parse_token
parse_token_sound full id secret h =
    let s = trim_space full in
    let (e, hi, hs) = token_parts_sound (split s b'_') id secret h in
    let lacks = subst (All (Lacks b'_')) e (split-Lacks b'_' s) in
    (
      sym (glue-split b'_' s) ∙ ap (glue b'_') e ∙ unfold glue in refl,
      hi,
      hs,
      lacks.1.0,
      lacks.1.1.0,
    )

-- A text parses to an id and a secret exactly if, without the white space around it, it is `zk_`,
-- the id, `_` and the secret, where both are not empty and hold no `_`.
pub parse_token_iff :
    (full id secret : Text) → (parse_token full ≡ some (id, secret)) ↔ IsPresented full id secret
unfolding parse_token
parse_token_iff full id secret = (
  parse_token_sound full id secret,
  λ h. rw (h.0, split-presented id secret h.3 h.4) (token_parts_lem id secret h.1 h.2),
)

-- A freshly minted token parses to its own id and secret.
pub parse_token-mint :
    (g : Group) (s : SecretBytes)
    → IsBytes g
    → All IsBytes (s.g0 ∷ s.g1 ∷ s.g2 ∷ s.g3 ∷ [])
    → parse_token (mint g s).full ≡ some ((mint g s).id, (mint g s).secret)
unfolding mint
parse_token-mint g s hg hs =
    let id = encode_groups (g ∷ []) in
    let secret = encode_groups (s.g0 ∷ s.g1 ∷ s.g2 ∷ s.g3 ∷ []) in
    let hid = encode_groups-digits (g ∷ []) (hg, tt) in
    let hsec = encode_groups-digits (s.g0 ∷ s.g1 ∷ s.g2 ∷ s.g3 ∷ []) hs in
    (parse_token_iff (presented id secret) id secret).1 (
      unfold trim_space in
          trim-none is_space (presented id secret) (presented-no_space id secret hid hsec),
      encode_groups-ne-nil g [],
      encode_groups-ne-nil s.g0 (s.g1 ∷ s.g2 ∷ s.g3 ∷ []),
      digits-Lacks id hid,
      digits-Lacks secret hsec,
    )
