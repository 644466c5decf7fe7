-- ===== src/Store/Tokens/Races.antt =====
-- internal/store/store.go: what may happen between the two transactions of `TouchToken`.
use zerock.Prelude.{ℕ, ◌≡◌, refl, sym, ap, ◌∙◌, true, some, List, arith, Text}
use zerock.Bolt.{Bolt}
use zerock.Store.Token.{Token, active}
use zerock.Store.Db.{Db, ok, err, not_found}
use zerock.Store.Tokens.{touch_read, authenticate, revoke_token}
use zerock.Store.Tokens.Keyed.{IsKeyed, touched, put_token_lem}
use zerock.Store.Tokens.Auth.{authenticate_lem, authenticate-revoke_token}

touched-active :
    (later instant : ℕ) (t : Token) → active (touched later t) instant ≡ active t instant
unfolding active
touched-active later instant t = refl

module _ (bolt : Bolt) (sha256 : Text → List ℕ) where
  -- The write of `TouchToken` puts a token that authenticated back as it was read, in whatever
  -- database the write finds. So the text authenticates afterwards, also where that database is the
  -- one after a revocation of the token: the revocation is lost.
  touch_read-authenticates :
      (now later instant : ℕ) (db mid db' : Db bolt) (full : Text) (tok : Token)
      → IsKeyed bolt db
      → authenticate bolt sha256 now db full ≡ ok tok
      → touch_read bolt later mid tok ≡ ok db'
      → active tok instant ≡ true
      → authenticate bolt sha256 instant db' full ≡ ok (touched later tok)
  touch_read-authenticates now later instant db mid db' full tok keyed accepted written live =
      let v = ((authenticate_lem bolt sha256 now db full).0 tok).0 accepted in
      let (got, same) = put_token_lem bolt mid (touched later tok) db' written in
      ((authenticate_lem bolt sha256 instant db' full).0 (touched later tok)).1 (record {
        id = v.id;
        secret = v.secret;
        parsed = v.parsed;
        stored = ground (arith, got v.id, keyed.tokens v.id tok v.stored);
        matching = v.matching;
        live = touched-active later instant tok ∙ live;
      })

  -- A token authenticates, and `TouchToken` has read it; then the token is revoked, and then
  -- `TouchToken` writes. After the revocation the text authenticates no more; after the write it
  -- authenticates again, at every instant up to the token's expiry: the revocation is lost.
  pub touch_read-revoke_token :
      (now date later instant : ℕ) (db mid db' : Db bolt) (full : Text) (tok : Token)
      → IsKeyed bolt db
      → authenticate bolt sha256 now db full ≡ ok tok
      → revoke_token bolt date db tok.id ≡ ok mid
      → touch_read bolt later mid tok ≡ ok db'
      → active tok instant ≡ true
      → (authenticate bolt sha256 instant mid full ≡ err not_found)
        × (authenticate bolt sha256 instant db' full ≡ ok (touched later tok))
  touch_read-revoke_token now date later instant db mid db' full tok k accepted gone written live =
      let v = ((authenticate_lem bolt sha256 now db full).0 tok).0 accepted in
      let same : tok.id ≡ v.id = k.tokens v.id tok v.stored in
      (
        authenticate-revoke_token bolt sha256 date instant db mid full tok.id v.secret k gone
            (v.parsed ∙ ap (λ (id : Text). some (id, v.secret)) (sym same)),
        touch_read-authenticates now later instant db mid db' full tok k accepted written live,
      )
