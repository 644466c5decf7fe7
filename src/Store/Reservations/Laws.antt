-- ===== src/Store/Reservations/Laws.antt =====
-- internal/store/store.go: who holds a subdomain, before and after each operation.
use zerock.Prelude.{
  ℕ, ◌+◌, ◌≤◌, ◌≡◌, ◌≢◌, refl, ◌∙◌, ◌⊎◌, inl, inr, Bool, false, ◌&&◌, none, some, ◌∷◌, arith, Text,
  text_eq, text_dec, if◌then◌else◌, Option-cases, Bool-cases, subst, tally, leb_ℤ, ltb_ℤ, ℤ, pos,
  suc,
}
use zerock.Prelude.Assoc
use zerock.Prelude.Assoc.{Assoc}
use zerock.Bolt.{Bolt}
use zerock.Store.Db.{Db, Result, ok, err, not_found, conflict, bad_request, failed, Reservation}
use zerock.Store.Reservations.{clean, held_by, reserve_free, reserve, reservation, release}
use zerock.Store.Tokens.Keyed.{ok-injective}

module _ (bolt : Bolt) where
  -- The record that `Reserve` writes.
  abbrev pub bound : Text → Text → Text → ℕ → Reservation
  bound sub token_id note now = record {
    subdomain = clean sub;
    token_id = token_id;
    note = note;
    created_at = now;
  }

  -- The test of the limit.
  abbrev pub is_full : ℤ → Text → Db bolt → Bool
  is_full max token_id db =
      ltb_ℤ (pos 0) max && leb_ℤ max (pos (held_by token_id (bolt.for_each db.reservations)))

  -- How a reservation can succeed: it was held by the same token, and nothing changes, or it was
  -- free and below the limit, and one record is written.
  pub data Reserved (sub token_id note : Text) (max : ℤ) (now : ℕ) (db : Db bolt) (r : Reservation)
      (db' : Db bolt) : Type 0 where
    again :
        bolt.get db.reservations (clean sub) ≡ some r
        → r.token_id ≡ token_id
        → db' ≡ db
        → Reserved sub token_id note max now db r db'
    fresh :
        bolt.get db.reservations (clean sub) ≡ none
        → is_full max token_id db ≡ false
        → r ≡ bound sub token_id note now
        → bolt.put db.reservations (clean sub) r ≡ some db'.reservations
        → db'.tokens ≡ db.tokens
        → Reserved sub token_id note max now db r db'

  reserve_free-eq-ok :
      (sub token_id note : Text) (max : ℤ) (now : ℕ) (db : Db bolt) (r : Reservation)
      (db' : Db bolt)
      → bolt.get db.reservations (clean sub) ≡ none
      → reserve_free bolt (clean sub) token_id note max now db ≡ ok (r, db')
      → Reserved sub token_id note max now db r db'
  unfolding reserve_free
  reserve_free-eq-ok sub token_id note max now db r db' free h =
      elim (Bool-cases (is_full max token_id db)) [
        | inl full ↦ absurd (let bad : err bad_request ≡ ok (r, db') = rw full at h in cc)
        | inr room ↦
            elim (Option-cases
              (bolt.put db.reservations (clean sub) (bound sub token_id note now))) [
                | inl e ↦ absurd (let bad : err failed ≡ ok (r, db') = rw (room, e) at h in cc)
                | inr (c, e) ↦
                    let same : ◌≡◌ {A = Reservation × Db bolt}
                        (bound sub token_id note now, record db { reservations = c }) (r, db') =
                      ok-injective (bound sub token_id note now, record db { reservations = c })
                        (r, db') (rw (room, e) at h) in
                    subst (λ p. Reserved sub token_id note max now db (p.0) (p.1)) same
                      (fresh free room refl e refl)
              ]
      ]

  -- A reservation that succeeds was held by the same token or was free and below the limit.
  pub reserve-Reserved :
      (sub token_id note : Text) (max : ℤ) (now : ℕ) (db : Db bolt) (r : Reservation)
      (db' : Db bolt)
      → reserve bolt sub token_id note max now db ≡ ok (r, db')
      → Reserved sub token_id note max now db r db'
  unfolding reserve
  reserve-Reserved sub token_id note max now db r db' h =
      elim (Option-cases (bolt.get db.reservations (clean sub))) [
        | inl e ↦ reserve_free-eq-ok sub token_id note max now db r db' e (rw (e, reserve) at h)
        | inr (x, e) ↦ elim (text_dec x.token_id token_id) [
          | no other ↦ absurd (
              let bad : ◌≡◌ {A = Result (Reservation × Db bolt)} (err conflict) (ok (r, db')) =
                held_by_other x other ∙ rw (e, reserve) at h in
              cc)
          | yes mine ↦
              let same : ◌≡◌ {A = Reservation × Db bolt} (x, db) (r, db') =
                ok-injective (x, db) (r, db') (held_by_same x mine ∙ rw (e, reserve) at h) in
              subst (λ p. Reserved sub token_id note max now db (p.0) (p.1)) same
                (again e mine refl)
        ]
      ]
    where
      held_by_other :
          (x : Reservation)
          → x.token_id ≢ token_id
          → ◌≡◌ {A = Result (Reservation × Db bolt)}
              (err conflict)
              (if text_eq x.token_id token_id then ok (x, db) else err conflict)
      held_by_other x ne = ground arith

      held_by_same :
          (x : Reservation)
          → x.token_id ≡ token_id
          → ◌≡◌ {A = Result (Reservation × Db bolt)}
              (ok (x, db))
              (if text_eq x.token_id token_id then ok (x, db) else err conflict)
      held_by_same x e = ground arith

  Reserved-exclusive :
      (sub token_id note : Text) (max : ℤ) (now : ℕ) (db : Db bolt) (r : Reservation)
      (db' : Db bolt)
      → Reserved sub token_id note max now db r db'
      → (r.token_id ≡ token_id)
        × (bolt.get db'.reservations (clean sub) ≡ some r)
        × ((j : Text) → j ≢ clean sub → bolt.get db'.reservations j ≡ bolt.get db.reservations j)
        × (db'.tokens ≡ db.tokens)
        × ((bolt.get db.reservations (clean sub) ≡ some r)
            ⊎ ((bolt.get db.reservations (clean sub) ≡ none) × (r ≡ bound sub token_id note now)))
  Reserved-exclusive sub token_id note max now db r db' (again e mine same) =
      (mine, rw same e, λ j ne. rw same, rw same, inl e)
  Reserved-exclusive sub token_id note max now db r db' (fresh free room eq e same) = (
    rw eq,
    bolt.get-put db.reservations (clean sub) (clean sub) r db'.reservations e ∙ ground arith,
    λ j ne. bolt.get-put db.reservations (clean sub) j r db'.reservations e ∙ ground arith,
    same,
    inr (free, eq),
  )

  -- After a reservation that succeeds the subdomain, lowercased and trimmed, is held by the token
  -- that asked for it, under the record that was returned; this is the record that the token held
  -- before, or the subdomain was free and the record is a new one for the token; every other
  -- subdomain has the holder that it had, and the tokens are as they were.
  pub reserve-exclusive :
      (sub token_id note : Text) (max : ℤ) (now : ℕ) (db : Db bolt) (r : Reservation)
      (db' : Db bolt)
      → reserve bolt sub token_id note max now db ≡ ok (r, db')
      → (r.token_id ≡ token_id)
        × (bolt.get db'.reservations (clean sub) ≡ some r)
        × ((j : Text) → j ≢ clean sub → bolt.get db'.reservations j ≡ bolt.get db.reservations j)
        × (db'.tokens ≡ db.tokens)
        × ((bolt.get db.reservations (clean sub) ≡ some r)
            ⊎ ((bolt.get db.reservations (clean sub) ≡ none) × (r ≡ bound sub token_id note now)))
  reserve-exclusive sub token_id note max now db r db' h =
      Reserved-exclusive sub token_id note max now db r db'
        (reserve-Reserved sub token_id note max now db r db' h)

  -- A subdomain that another token holds cannot be taken, whatever the limit: the answer is
  -- `conflict`. Its own token gets the record that is there, even at its limit.
  pub reserve_held :
      (sub token_id note : Text) (max : ℤ) (now : ℕ) (db : Db bolt) (held : Reservation)
      → bolt.get db.reservations (clean sub) ≡ some held
      → reserve bolt sub token_id note max now db
        ≡ (if text_eq held.token_id token_id then ok (held, db) else err conflict)
  unfolding reserve
  reserve_held sub token_id note max now db held e = rw (e, reserve)

  -- One more entry of a bucket is one more entry of its enumeration.
  tally-for_each :
      {V : Type 0} (p : Text × V → Bool) (b c : bolt.Bucket V) (k : Text) (v : V)
      → bolt.get b k ≡ none
      → bolt.put b k v ≡ some c
      → tally p (bolt.for_each c) ≡ (if p (k, v) then 1 else 0) + tally p (bolt.for_each b)
  tally-for_each p b c k v free e =
      let before = bolt.visits b in
      let after = bolt.visits c in
      Assoc.tally_ext text_dec p (bolt.for_each c) ((k, v) ∷ bolt.for_each b) after.unique
        (before.found k ∙ free, before.unique)
        λ j.
          unfold Assoc.find in
          after.found j ∙ bolt.get-put b k j v c e ∙ ground (arith, before.found j)

  -- The limit holds: a token that keeps to a positive limit still does after a reservation, and
  -- nobody else's count changes.
  pub reserve_limit :
      (sub token_id note : Text) (max now : ℕ) (db : Db bolt) (r : Reservation) (db' : Db bolt)
      → reserve bolt sub token_id note (pos (suc max)) now db ≡ ok (r, db')
      → (held_by token_id (bolt.for_each db.reservations) ≤ suc max
          → held_by token_id (bolt.for_each db'.reservations) ≤ suc max)
        × ((other : Text)
            → other ≢ token_id
            → held_by other (bolt.for_each db'.reservations)
              ≡ held_by other (bolt.for_each db.reservations))
  reserve_limit sub token_id note max now db r db' h =
      go (reserve-Reserved sub token_id note (pos (suc max)) now db r db' h)
    where
      go :
          Reserved sub token_id note (pos (suc max)) now db r db'
          → (held_by token_id (bolt.for_each db.reservations) ≤ suc max
              → held_by token_id (bolt.for_each db'.reservations) ≤ suc max)
            × ((other : Text)
                → other ≢ token_id
                → held_by other (bolt.for_each db'.reservations)
                  ≡ held_by other (bolt.for_each db.reservations))
      go (again e mine same) = (λ fits. rw same fits, λ other ne. rw same)
      go (fresh free room eq e same) =
          let written =
            tally-for_each (λ x. text_eq (x.1).token_id token_id) db.reservations db'.reservations
              (clean sub) r free e in
          (
            λ fits. ground arith,
            λ other ne.
                tally-for_each (λ x. text_eq (x.1).token_id other) db.reservations db'.reservations
                  (clean sub) r free e
                ∙ ground arith,
          )

  -- A release that succeeds frees that subdomain and no other; it fails with `not_found` on a
  -- subdomain that nobody holds.
  pub release_lem :
      (sub : Text) (db : Db bolt)
      → ((db' : Db bolt)
          → release bolt db sub ≡ ok db'
          → (reservation bolt db' sub ≡ none)
            × ((j : Text)
                → j ≢ clean sub
                → bolt.get db'.reservations j ≡ bolt.get db.reservations j)
            × (db'.tokens ≡ db.tokens))
        × (reservation bolt db sub ≡ none → release bolt db sub ≡ err not_found)
  unfolding reservation release
  release_lem sub db = (
    λ db' h. elim (Option-cases (bolt.get db.reservations (clean sub))) [
      | inl e ↦ absurd (let bad : err not_found ≡ ok db' = rw e at h in cc)
      | inr (x, e) ↦ elim (Option-cases (bolt.delete db.reservations (clean sub))) [
        | inl f ↦ absurd (let bad : err failed ≡ ok db' = rw (e, f) at h in cc)
        | inr (c, f) ↦
            let same = ok-injective (record db { reservations = c }) db' (rw (e, f) at h) in
            let gone = λ (j : Text). bolt.get-delete db.reservations (clean sub) j c f in
            (
              rw (← same) (gone (clean sub) ∙ ground arith),
              λ j ne. rw (← same) (gone j ∙ ground arith),
              rw (← same),
            )
      ]
    ],
    λ e. rw e,
  )
