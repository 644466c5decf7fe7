-- ===== src/Store/Tokens/Auth.antt =====
-- internal/store/store.go: who authenticates, and what minting and revoking do to it.
use zerock.Prelude.{
  ℕ, ◌≡◌, ◌↔◌, refl, sym, ◌∙◌, ◌⊎◌, inl, inr, Bool, true, false, none, some, List, [], ◌∷◌, All,
  arith, Text, text_dec, if◌then◌else◌, Option-cases, Bool-cases, subst, is_empty, trim_space,
}
use zerock.Bolt.{Bolt}
use zerock.Store.Token.{Token, active, is_past}
use zerock.Store.Secret.{Group, SecretBytes, mint, hash_secret, matches, parse_token}
use zerock.Store.Secret.Laws.{IsBytes, parse_token-mint}
use zerock.Store.Db.{Db, ok, err, StoreError, not_found}
use zerock.Store.Tokens.{
  CreateTokenOpts, put_token, authenticate, create_token, new_token, normalize_scopes, revoke_token,
}
use zerock.Store.Tokens.Keyed.{IsKeyed, revoke_token_lem, revoked, ok-injective}

revoked-active : (now later : ℕ) (t : Token) → active (revoked now t) later ≡ false
unfolding active
revoked-active now later t = ground arith

both_refused :
    (m : Bool) (t : Token)
    → (if m then (if false then ok t else err not_found) else err not_found) ≡ err not_found
both_refused m t = ground arith

module _ (bolt : Bolt) (sha256 : Text → List ℕ) where
  -- What it takes to be `tok`: a well-formed text whose id is on file, whose secret has the stored
  -- hash, and a token that is active.
  pub record Proves (now : ℕ) (db : Db bolt) (full : Text) (tok : Token) : Type 0 where
    pub id : Text
    pub secret : Text
    pub parsed : parse_token full ≡ some (id, secret)
    pub stored : bolt.get db.tokens id ≡ some tok
    pub matching : tok.hash ≡ hash_secret sha256 secret
    pub live : active tok now ≡ true

  unparsed_fails :
      (now : ℕ) (db : Db bolt) (full : Text)
      → parse_token full ≡ none
      → authenticate bolt sha256 now db full ≡ err not_found
  unfolding authenticate
  unparsed_fails now db full e = rw e

  missing_fails :
      (now : ℕ) (db : Db bolt) (full id secret : Text)
      → parse_token full ≡ some (id, secret)
      → bolt.get db.tokens id ≡ none
      → authenticate bolt sha256 now db full ≡ err not_found
  unfolding authenticate
  missing_fails now db full id secret e f = rw (e, f)

  found_lem :
      (now : ℕ) (db : Db bolt) (full id secret : Text) (tok : Token)
      → parse_token full ≡ some (id, secret)
      → bolt.get db.tokens id ≡ some tok
      → authenticate bolt sha256 now db full ≡ (
          if matches sha256 tok secret
          then (if active tok now then ok tok else err not_found)
          else err not_found)
  unfolding authenticate
  found_lem now db full id secret tok e f = rw (e, f)

  Proves-authenticate :
      (now : ℕ) (db : Db bolt) (full : Text) (tok : Token)
      → Proves now db full tok
      → authenticate bolt sha256 now db full ≡ ok tok
  unfolding matches
  Proves-authenticate now db full tok v =
      found_lem now db full v.id v.secret tok v.parsed v.stored
      ∙ rw v.live (ground (arith, v.matching))

  -- The three outcomes of `authenticate`: refused, or proved.
  authenticate_cases :
      (now : ℕ) (db : Db bolt) (full : Text)
      → (authenticate bolt sha256 now db full ≡ err not_found)
        ⊎ ((tok : Token) × (authenticate bolt sha256 now db full ≡ ok tok) × Proves now db full tok)
  unfolding matches
  authenticate_cases now db full = elim (Option-cases (parse_token full)) [
    | inl e ↦ inl (unparsed_fails now db full e)
    | inr ((id, secret), e) ↦ elim (Option-cases (bolt.get db.tokens id)) [
      | inl f ↦ inl (missing_fails now db full id secret e f)
      | inr (tok, f) ↦ elim (text_dec tok.hash (hash_secret sha256 secret)) [
        | no p ↦ inl (found_lem now db full id secret tok e f ∙ ground arith)
        | yes p ↦ elim (Bool-cases (active tok now)) [
          | inr dead ↦ inl (found_lem now db full id secret tok e f ∙ rw dead (ground arith))
          | inl live ↦
              let proof : Proves now db full tok = record {
                id = id;
                secret = secret;
                parsed = e;
                stored = f;
                matching = p;
                live = live;
              } in
              inr (tok, Proves-authenticate now db full tok proof, proof)
        ]
      ]
    ]
  ]

  -- A presented text authenticates as a token exactly if it proves to be that token, and every
  -- failure is the same `not_found`, whatever was wrong.
  pub authenticate_lem :
      (now : ℕ) (db : Db bolt) (full : Text)
      → ((tok : Token) → (authenticate bolt sha256 now db full ≡ ok tok) ↔ Proves now db full tok)
        × ((e : StoreError) → authenticate bolt sha256 now db full ≡ err e → e ≡ not_found)
  authenticate_lem now db full = elim (authenticate_cases now db full) [
    | inl refused ↦ (
      λ tok. (λ h. absurd (cc (refused, h)), Proves-authenticate now db full tok),
      λ e h. cc (refused, h),
    )
    | inr (t, accepted, proof) ↦ (
      λ tok. (
        λ h. subst (Proves now db full) (ok-injective t tok (sym accepted ∙ h)) proof,
        Proves-authenticate now db full tok,
      ),
      λ e h. absurd (cc (accepted, h)),
    )
  ]

  pub authenticate-revoke_token :
      (now later : ℕ) (db db' : Db bolt) (full id secret : Text)
      → IsKeyed bolt db
      → revoke_token bolt now db id ≡ ok db'
      → parse_token full ≡ some (id, secret)
      → authenticate bolt sha256 later db' full ≡ err not_found
  authenticate-revoke_token now later db db' full id secret k h parsed =
      let u = revoke_token_lem bolt now db id db' k h in
      found_lem later db' full id secret (revoked now u.target) parsed u.now
      ∙ rw (revoked-active now later u.target)
          (both_refused (matches sha256 (revoked now u.target) secret) (revoked now u.target))

  -- The token that `CreateToken` makes of what it drew.
  abbrev pub minted : CreateTokenOpts → Group → SecretBytes → ℕ → Token
  minted opts g s now =
      new_token opts (mint g s) (hash_secret sha256 (mint g s).secret)
        (normalize_scopes opts.scopes) (trim_space opts.label) now

  put_token_ok :
      (db : Db bolt) (tok : Token) (c : bolt.Bucket Token)
      → bolt.put db.tokens tok.id tok ≡ some c
      → put_token bolt db tok ≡ ok (record db { tokens = c })
  unfolding put_token
  put_token_ok db tok c e = rw e

  minted-id :
      (opts : CreateTokenOpts) (g : Group) (s : SecretBytes) (now : ℕ)
      → (minted opts g s now).id ≡ (mint g s).id
  unfolding new_token
  minted-id opts g s now = refl

  get_new :
      (b c : bolt.Bucket Token) (tok : Token) (id : Text)
      → bolt.put b tok.id tok ≡ some c
      → tok.id ≡ id
      → bolt.get c id ≡ some tok
  get_new b c tok id e same = bolt.get-put b tok.id id tok c e ∙ ground arith

  create_token-ok :
      (opts : CreateTokenOpts) (g : Group) (s : SecretBytes) (now : ℕ) (db : Db bolt)
      (c : bolt.Bucket Token)
      → is_empty (trim_space opts.label) ≡ false
      → is_empty (normalize_scopes opts.scopes) ≡ false
      → bolt.put db.tokens (minted opts g s now).id (minted opts g s now) ≡ some c
      → create_token bolt sha256 opts (some (g, s)) now db
        ≡ ok (minted opts g s now, (mint g s).full, record db { tokens = c })
  unfolding create_token
  create_token-ok opts g s now db c label scopes written =
      rw (label, scopes, put_token_ok db (minted opts g s now) c written)

  minted_live :
      (opts : CreateTokenOpts) (g : Group) (s : SecretBytes) (now later : ℕ)
      → is_past (minted opts g s now).expires_at later ≡ false
      → active (minted opts g s now) later ≡ true
  unfolding active new_token
  minted_live opts g s now later h = ground arith

  -- With a label, a known scope, random bytes and a write that succeeds, a token is made, and the
  -- text that is handed out authenticates as that token until it expires.
  pub create_token-authenticates :
      (opts : CreateTokenOpts) (g : Group) (s : SecretBytes) (now : ℕ) (db : Db bolt)
      (c : bolt.Bucket Token)
      → is_empty (trim_space opts.label) ≡ false
      → is_empty (normalize_scopes opts.scopes) ≡ false
      → IsBytes g
      → All IsBytes (s.g0 ∷ s.g1 ∷ s.g2 ∷ s.g3 ∷ [])
      → bolt.put db.tokens (minted opts g s now).id (minted opts g s now) ≡ some c
      → (create_token bolt sha256 opts (some (g, s)) now db
          ≡ ok (minted opts g s now, (mint g s).full, record db { tokens = c }))
        × ((later : ℕ)
            → is_past (minted opts g s now).expires_at later ≡ false
            → authenticate bolt sha256 later (record db { tokens = c }) (mint g s).full
              ≡ ok (minted opts g s now))
  create_token-authenticates opts g s now db c label scopes hg hs written = (
    create_token-ok opts g s now db c label scopes written,
    λ later live.
        Proves-authenticate later (record db { tokens = c }) (mint g s).full (minted opts g s now)
          (record {
            id = (mint g s).id;
            secret = (mint g s).secret;
            parsed = parse_token-mint g s hg hs;
            stored =
                get_new db.tokens c (minted opts g s now) (mint g s).id written
                  (minted-id opts g s now);
            matching = unfold new_token in refl;
            live = minted_live opts g s now later live;
          }),
  )
