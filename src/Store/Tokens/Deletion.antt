-- ===== src/Store/Tokens/Deletion.antt =====
-- internal/store/store.go: `DeleteToken` with the reservations that it releases, and `CountAdmins`.
use mathlib.Core.Option.{some-injective}
use zerock.Prelude.{
  ℕ, ◌≡◌, ◌≢◌, ◌↔◌, refl, sym, ap, ◌∙◌, inl, inr, Bool, true, false, ◌&&◌, none, some, List, [],
  ◌∷◌, arith, Text, text_eq, text_dec, member, if◌then◌else◌, Option-cases, Bool-cases, tally,
  tally-sort,
}
use zerock.Prelude.Assoc
use zerock.Prelude.Assoc.{Assoc, passes}
use zerock.Bolt.{Bolt}
use zerock.Store.Token.{Token, active, has_scope, scope_admin}
use zerock.Store.Db.{Db, ok, err, not_found, failed, Reservation}
use zerock.Store.Tokens.{
  delete_all, delete_token, get_token, count_admins, list_tokens, authenticate,
}
use zerock.Store.Tokens.Keyed.{ok-injective}
use zerock.Store.Tokens.Auth.{authenticate_lem}

-- Whether a reservation belongs to a token.
abbrev pub owned : Text → Reservation → Bool
owned id r = text_eq r.token_id id

module _ (bolt : Bolt) where
  -- Deleting a list of keys removes exactly these.
  delete_all_lem :
      {V : Type 0} (ks : List Text) (b c : bolt.Bucket V)
      → delete_all bolt ks b ≡ some c
      → (j : Text) → bolt.get c j ≡ (if member j ks then none else bolt.get b j)
  unfolding delete_all
  delete_all_lem {V} [] b c h j =
      ap (λ (d : bolt.Bucket V). bolt.get d j) (some-injective c b (sym h))
  delete_all_lem (k ∷ ks) b c h j = elim (Option-cases (bolt.delete b k)) [
    | inl e ↦ absurd (let bad : none ≡ some c = rw (e, delete_all) at h in cc)
    | inr (d, e) ↦
        ground (arith, delete_all_lem ks d c (rw (e, delete_all) at h) j, bolt.get-delete b k j d e)
  ]

  -- The keys of the reservations that a token holds.
  abbrev pub orphans : Db bolt → Text → List Text
  orphans db id = Assoc.keys_where (owned id) (bolt.for_each db.reservations)

  member-orphans :
      (db : Db bolt) (id sub : Text)
      → member sub (orphans db id) ≡ passes (owned id) (bolt.get db.reservations sub)
  member-orphans db id sub =
      let v = bolt.visits db.reservations in
      Assoc.member-keys_where (owned id) (bolt.for_each db.reservations) sub v.unique
      ∙ ap (passes (owned id)) (v.found sub)

  delete_token-eq-ok :
      (db : Db bolt) (id : Text) (db' : Db bolt)
      → delete_token bolt db id ≡ ok db'
      → (bolt.delete db.tokens id ≡ some db'.tokens)
        × (delete_all bolt (orphans db id) db.reservations ≡ some db'.reservations)
  unfolding delete_token
  delete_token-eq-ok db id db' h = elim (Option-cases (bolt.get db.tokens id)) [
    | inl e ↦ absurd (let bad : err not_found ≡ ok db' = unfold get_token in rw e at h in cc)
    | inr (tok, e) ↦ elim (Option-cases (bolt.delete db.tokens id)) [
      | inl f ↦ absurd (let bad : err failed ≡ ok db' = unfold get_token in rw (e, f) at h in cc)
      | inr (ts, f) ↦ elim (Option-cases (delete_all bolt (orphans db id) db.reservations)) [
        | inl g ↦
            absurd (let bad : err failed ≡ ok db' = unfold get_token in rw (e, f, g) at h in cc)
        | inr (rs, g) ↦
            let same : record { tokens = ts; reservations = rs } ≡ db' =
              ok-injective (record { tokens = ts; reservations = rs }) db'
                (unfold get_token in rw (e, f, g) at h) in
            (
              f ∙ ap (λ (d : Db bolt). some d.tokens) same,
              g ∙ ap (λ (d : Db bolt). some d.reservations) same,
            )
      ]
    ]
  ]

  -- A deletion that succeeds takes out the token and exactly the reservations that it held: every
  -- other token and every other reservation stays as it was.
  pub delete_token_lem :
      (db : Db bolt) (id : Text) (db' : Db bolt)
      → delete_token bolt db id ≡ ok db'
      → ((j : Text) → bolt.get db'.tokens j ≡ (if text_eq id j then none else bolt.get db.tokens j))
        × ((sub : Text)
            → bolt.get db'.reservations sub ≡ (
                if passes (owned id) (bolt.get db.reservations sub)
                then none
                else bolt.get db.reservations sub))
  delete_token_lem db id db' h =
      let (gone, released) = delete_token-eq-ok db id db' h in
      (
        λ j. bolt.get-delete db.tokens id j db'.tokens gone,
        λ sub.
            delete_all_lem (orphans db id) db.reservations db'.reservations released sub
            ∙ rw (member-orphans db id sub),
      )

  -- A token is among the values that a listing goes over exactly if it is filed.
  tally_filed :
      (p : Token → Bool) (m : Assoc Text Token) (id : Text) (tok : Token)
      → Assoc.find text_dec m id ≡ some tok
      → p tok ≡ true
      → tally p (Assoc.values m) ≢ 0
  unfolding Assoc.find
  tally_filed p [] id tok h q e = cc
  tally_filed p ((k, t) ∷ m) id tok h q e = elim (text_dec k id) [
    | yes same ↦ ground arith
    | no other ↦ tally_filed p m id tok (ground arith) q (ground arith)
  ]

  tally_none :
      (p : Token → Bool) (m : Assoc Text Token)
      → Assoc.Unique text_dec m
      → ((id : Text) (tok : Token) → Assoc.find text_dec m id ≡ some tok → p tok ≡ false)
      → tally p (Assoc.values m) ≡ 0
  tally_none p [] u h = refl
  tally_none p ((k, t) ∷ m) u h =
      rw
        (
          h k t (Assoc.find_head text_dec k t m),
          tally_none p m u.1 (λ id tok e. h id tok (Assoc.find_tail text_dec k id t tok m u.0 e)),
        )
        refl

  -- `CountAdmins` finds no administrator exactly if no token on file that is active at that instant
  -- has the admin scope: revoked and expired tokens do not count.
  count_admins_iff :
      (now : ℕ) (db : Db bolt)
      → (count_admins bolt now db ≡ 0) ↔ (
          (id : Text) (tok : Token)
          → bolt.get db.tokens id ≡ some tok
          → (active tok now && has_scope tok scope_admin) ≡ false)
  unfolding count_admins list_tokens
  count_admins_iff now db =
      let b = bolt.visits db.tokens in
      let p = λ (t : Token). active t now && has_scope t scope_admin in
      (
        λ zero id tok stored. elim (Bool-cases (p tok)) [
          | inr e ↦ e
          | inl e ↦ absurd (
              tally_filed p (bolt.for_each db.tokens) id tok (b.found id ∙ stored) e
                (sym (tally-sort _ _ (Assoc.values (bolt.for_each db.tokens))) ∙ zero))
        ],
        λ h.
            tally-sort _ _ (Assoc.values (bolt.for_each db.tokens))
            ∙ tally_none p (bolt.for_each db.tokens) b.unique
                (λ id tok e. h id tok (sym (b.found id) ∙ e)),
      )

  -- If `CountAdmins` finds no administrator, nobody can authenticate as one at that instant.
  no_admin_authenticates :
      (sha256 : Text → List ℕ) (now : ℕ) (db : Db bolt) (full : Text) (tok : Token)
      → count_admins bolt now db ≡ 0
      → authenticate bolt sha256 now db full ≡ ok tok
      → has_scope tok scope_admin ≡ false
  no_admin_authenticates sha256 now db full tok zero_admins h =
      let v = ((authenticate_lem bolt sha256 now db full).0 tok).0 h in
      ground (arith, (count_admins_iff now db).0 zero_admins v.id tok v.stored, v.live)
