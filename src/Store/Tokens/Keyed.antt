-- ===== src/Store/Tokens/Keyed.antt =====
-- internal/store/store.go: every token is filed under its own id, whatever the operations do, and
-- an update of one token leaves the others alone.
use zerock.Prelude.{
  ℕ, ◌≡◌, ◌≢◌, refl, sym, ap, ◌∙◌, inl, inr, Option, none, some, arith, Text, text_eq,
  if◌then◌else◌, Option-cases, Bool-cases, subst,
}
use zerock.Bolt.{Bolt}
use zerock.Store.Token.{Token}
use zerock.Store.Db.{Reservation, Db, Result, ok, err, StoreError, or_fail, not_found, failed}
use zerock.Store.Tokens.{put_token, get_token, touch_token, revoke_token, is_set}

-- Inversion of a step that succeeded.
pub or_fail-eq-ok {ℓ} :
    {A : Type ℓ} (o : Option A) (e : StoreError) (a : A) → or_fail o e ≡ ok a → o ≡ some a
or_fail-eq-ok none e a h = cc
or_fail-eq-ok (some b) e a h = cc

pub or_fail-ne-some {ℓ} :
    {A : Type ℓ} (o : Option A) (e c : StoreError) → or_fail o e ≡ err c → c ≡ e
or_fail-ne-some none e c h = ground arith
or_fail-ne-some (some b) e c h = cc

ok_value {ℓ} : {A : Type ℓ} → A → Result A → A
ok_value d (ok a) = a
ok_value d (err e) = d

pub ok-injective {ℓ} : {A : Type ℓ} (a b : A) → ok a ≡ ok b → a ≡ b
unfolding ok_value
ok-injective a b h = ap (ok_value a) h

-- The token as `TouchToken` and as `RevokeToken` write it back.
abbrev pub touched : ℕ → Token → Token
touched now t = record t { last_used = some now }

abbrev pub revoked : ℕ → Token → Token
revoked now t = if is_set t.revoked_at then t else record t { revoked_at = some now }

module _ (bolt : Bolt) where
  put_token-eq-ok :
      (db : Db bolt) (tok : Token) (db' : Db bolt)
      → put_token bolt db tok ≡ ok db'
      → (c : bolt.Bucket Token) × (bolt.put db.tokens tok.id tok ≡ some c)
        × (record db { tokens = c } ≡ db')
  unfolding put_token
  put_token-eq-ok db tok db' h = elim (Option-cases (bolt.put db.tokens tok.id tok)) [
    | inl e ↦ let bad : err failed ≡ ok db' = rw e at h in cc
    | inr (c, e) ↦ (c, e, ok-injective (record db { tokens = c }) db' (rw e at h))
  ]

  -- What a successful write of a token does.
  pub put_token_lem :
      (db : Db bolt) (tok : Token) (db' : Db bolt)
      → put_token bolt db tok ≡ ok db'
      → ((j : Text)
          → bolt.get db'.tokens j ≡ (if text_eq tok.id j then some tok else bolt.get db.tokens j))
        × (db'.reservations ≡ db.reservations)
  put_token_lem db tok db' h =
      let (c, e, same) = put_token-eq-ok db tok db' h in
      (
        λ j.
            sym (ap (λ (d : Db bolt). bolt.get d.tokens j) same)
            ∙ bolt.get-put db.tokens tok.id j tok c e,
        sym (ap (λ (d : Db bolt). d.reservations) same),
      )

  -- Every token is filed under its id, and every reservation under its subdomain.
  pub record IsKeyed (db : Db bolt) : Type 0 where
    pub tokens : (id : Text) (tok : Token) → bolt.get db.tokens id ≡ some tok → tok.id ≡ id
    pub reservations :
        (sub : Text) (r : Reservation) → bolt.get db.reservations sub ≡ some r → r.subdomain ≡ sub

  pub put_token-IsKeyed :
      (db : Db bolt) (tok : Token) (db' : Db bolt)
      → put_token bolt db tok ≡ ok db'
      → IsKeyed db
      → IsKeyed db'
  put_token-IsKeyed db tok db' h k =
      let (got, same) = put_token_lem db tok db' h in
      record {
        tokens = λ id t e. ground (arith, got id, k.tokens id t);
        reservations = λ sub r e. k.reservations sub r (rw (← same) e);
      }

  -- An update of one token: the token is there, it is replaced, and no other entry changes.
  pub record Updates (db : Db bolt) (id : Text) (change : Token → Token) (db' : Db bolt)
      : Type 0 where
    pub target : Token
    pub was : bolt.get db.tokens id ≡ some target
    pub now : bolt.get db'.tokens id ≡ some (change target)
    pub others : (j : Text) → j ≢ id → bolt.get db'.tokens j ≡ bolt.get db.tokens j
    pub same : db'.reservations ≡ db.reservations

  get_put-Updates :
      (db : Db bolt) (id : Text) (tok : Token) (change : Token → Token) (db' : Db bolt)
      → bolt.get db.tokens id ≡ some tok
      → (change tok).id ≡ id
      → put_token bolt db (change tok) ≡ ok db'
      → Updates db id change db'
  get_put-Updates db id tok change db' there keyed h =
      let (got, same) = put_token_lem db (change tok) db' h in
      record {
        target = tok;
        was = there;
        now = ground (arith, got id);
        others = λ j ne. ground (arith, got j);
        same = same;
      }

  get_token-eq-ok :
      (db : Db bolt) (id : Text) (tok : Token)
      → get_token bolt db id ≡ ok tok
      → bolt.get db.tokens id ≡ some tok
  unfolding get_token
  get_token-eq-ok db id tok h = or_fail-eq-ok (bolt.get db.tokens id) not_found tok h

  touch_found :
      (now : ℕ) (db : Db bolt) (id : Text) (tok : Token) (db' : Db bolt)
      → IsKeyed db
      → bolt.get db.tokens id ≡ some tok
      → touch_token bolt now db id ≡ ok db'
      → Updates db id (touched now) db'
  unfolding touch_token
  touch_found now db id tok db' k e h =
      get_put-Updates db id tok (touched now) db' e (k.tokens id tok e)
        (unfold put_token in rw e at h)

  revoke_found :
      (now : ℕ) (db : Db bolt) (id : Text) (tok : Token) (db' : Db bolt)
      → IsKeyed db
      → bolt.get db.tokens id ≡ some tok
      → revoke_token bolt now db id ≡ ok db'
      → Updates db id (revoked now) db'
  unfolding revoke_token
  revoke_found now db id tok db' k e h = elim (Bool-cases (is_set tok.revoked_at)) [
    | inl set ↦
        let step : ok db ≡ ok db' = rw (e, set) at h in
        subst (Updates db id (revoked now)) (ok-injective db db' step)
          (record { target = tok; was = e; now = rw set e; others = λ j ne. refl; same = refl })
    | inr unset ↦
        get_put-Updates db id tok (revoked now) db' e (rw unset (k.tokens id tok e))
          (unfold put_token in rw unset (rw (e, unset) at h))
  ]

  missing_fails :
      (now : ℕ) (db : Db bolt) (id : Text)
      → bolt.get db.tokens id ≡ none
      → (touch_token bolt now db id ≡ err not_found) × (revoke_token bolt now db id ≡ err not_found)
  unfolding touch_token revoke_token
  missing_fails now db id e = (rw e, rw e)

  -- A touch that succeeds sets the time of last use of that one token, and changes nothing else.
  pub touch_token_lem :
      (now : ℕ) (db : Db bolt) (id : Text) (db' : Db bolt)
      → IsKeyed db
      → touch_token bolt now db id ≡ ok db'
      → Updates db id (touched now) db'
  touch_token_lem now db id db' k h = elim (Option-cases (bolt.get db.tokens id)) [
    | inl e ↦ absurd (cc ((missing_fails now db id e).0))
    | inr (tok, e) ↦ touch_found now db id tok db' k e h
  ]

  -- A revocation that succeeds dates the token's revocation unless it has a date, and changes
  -- nothing else; so it is idempotent.
  pub revoke_token_lem :
      (now : ℕ) (db : Db bolt) (id : Text) (db' : Db bolt)
      → IsKeyed db
      → revoke_token bolt now db id ≡ ok db'
      → Updates db id (revoked now) db'
  revoke_token_lem now db id db' k h = elim (Option-cases (bolt.get db.tokens id)) [
    | inl e ↦ absurd (cc ((missing_fails now db id e).1))
    | inr (tok, e) ↦ revoke_found now db id tok db' k e h
  ]
