-- ===== src/Store/Reservations.antt =====
-- internal/store/store.go: the operations on reservations.
pub mod Laws
use zerock.Prelude.{
  is_empty, ℕ, Bool, ◌||◌, ◌&&◌, Option, none, some, List, Text, text_eq, ltb_ℤ, leb_ℤ, ℤ, pos,
  if◌then◌else◌, tally, to_lower, trim_space, text_lt, sort, select,
}
use zerock.Prelude.Assoc
use zerock.Prelude.Assoc.{Assoc}
use zerock.Bolt.{Bolt}
use zerock.Store.Db.{
  Db, Result, ok, err, ◌>>=◌, or_fail, not_found, conflict, bad_request, failed, Reservation,
}

-- `strings.ToLower(strings.TrimSpace(sub))`, which every operation applies to its argument.
unfoldable pub clean : Text → Text
unfolding to_lower trim_space
clean sub = to_lower (trim_space sub)

-- How many entries of the bucket name the token.
abbrev pub held_by : Text → Assoc Text Reservation → ℕ
held_by token_id m = tally (λ e. text_eq (e.1).token_id token_id) m

module _ (bolt : Bolt) where
  -- A subdomain that nobody holds is written, unless the limit is reached; `max` ≤ 0 is no limit.
  unfoldable pub reserve_free :
      Text → Text → Text → ℤ → ℕ → Db bolt → Result (Reservation × Db bolt)
  reserve_free sub token_id note max now db =
      let r : Reservation = record {
        subdomain = sub;
        token_id = token_id;
        note = note;
        created_at = now;
      } in
      if ltb_ℤ (pos 0) max && leb_ℤ max (pos (held_by token_id (bolt.for_each db.reservations)))
      then err bad_request
      else do
        reservations ← or_fail (bolt.put db.reservations sub r) failed
        ok (r, record db { reservations = reservations })

  unfoldable pub reserve : Text → Text → Text → ℤ → ℕ → Db bolt → Result (Reservation × Db bolt)
  reserve sub token_id note max now db = elim (bolt.get db.reservations (clean sub)) [
    | none ↦ reserve_free (clean sub) token_id note max now db
    | some existing ↦ if text_eq existing.token_id token_id then ok (existing, db) else err conflict
  ]

  -- `none` is an unreserved subdomain.
  unfoldable pub reservation : Db bolt → Text → Option Reservation
  reservation db sub = bolt.get db.reservations (clean sub)

  -- An empty id lists every reservation.
  unfoldable pub list_reservations : Db bolt → Text → List Reservation
  unfolding sort text_lt
  list_reservations db token_id =
      sort (λ a b. text_lt a.subdomain b.subdomain)
        (select (λ r. is_empty token_id || text_eq r.token_id token_id)
          (Assoc.values (bolt.for_each db.reservations)))

  unfoldable pub release : Db bolt → Text → Result (Db bolt)
  release db sub = do
    held ← or_fail (bolt.get db.reservations (clean sub)) not_found
    reservations ← or_fail (bolt.delete db.reservations (clean sub)) failed
    ok (record db { reservations = reservations })
