-- ===== src/Carpool/Store/Revisions.antt =====
-- What the moderated operations leave in the tables when they succeed.
use backend_demo.Prelude.{ℕ, pos, eq_ℤ, Bool, true, ◌&&◌, ◌||◌, not, ◌≡◌, ◌∙◌, ap, none, some}
use backend_demo.Platform.Errors.{
  ok, Tx, Runs, transaction-Runs, guard-Runs, query-Runs, lift-Runs, check-Runs, >>=-Runs,
}
use backend_demo.Platform.Text.{Text, is_empty, trim}
use backend_demo.Platform.Events.{Host}
use backend_demo.Carpool.Trip.{Trip, TripInput, is_pending, is_approved, is_rejected, is_draft}
use backend_demo.Carpool.Database.{Database, Lawful, put_trip, joined}
use backend_demo.Carpool.Store.{
  Cipher, TripPayload, edited, redrafted, submitted, reviewed, revoked, create_trip, new_trip,
}
use backend_demo.Carpool.Store.Moderation.{
  reviewable, mutate_reviewable_trip, recontact, update_trip, submit_review, review, revoke_review,
}
use backend_demo.Carpool.Store.Effects.{record_trip-Runs, found_trip}

module _ {S : Type 0} (db : Database S) (host : Host TripPayload) (cipher : Cipher)
    (law : Lawful db) where
  mutate-Runs :
      (id organizer version clock : ℕ) (change : Trip → Tx S Trip) (s : S) {u : Trip}
      → (mutate_reviewable_trip db id organizer version clock change s).0 ≡ ok u
      → (t : Trip) × ((db.tables s).trips id ≡ some t)
        × (reviewable organizer version clock t ≡ ok tt)
        × Runs (change t) s u (mutate_reviewable_trip db id organizer version clock change s).1
  unfolding mutate_reviewable_trip
  mutate-Runs id organizer version clock change s h =
      let (t, found, h1) = query-Runs (transaction-Runs _ s h) in
      let (passed, h2) = check-Runs h1 in (t, found_trip db host cipher law id s found, passed, h2)

  pub submit_review-ok :
      (id organizer version clock : ℕ) (s : S) {u : Trip}
      → (submit_review db host cipher id organizer version clock s).0 ≡ ok u
      → (t : Trip) × ((db.tables s).trips id ≡ some t)
        × (reviewable organizer version clock t ≡ ok tt)
        × ((is_draft t.review_status || is_rejected t.review_status) ≡ true)
        × (u ≡ submitted t)
        × (db.tables (submit_review db host cipher id organizer version clock s).1
            ≡ put_trip (submitted t) (db.tables s))
  unfolding submit_review
  submit_review-ok id organizer version clock s h =
      let (t, found, passed, h1) = mutate-Runs id organizer version clock _ s h in
      let (state, h2) = guard-Runs _ h1 in
      let (same, saved) = record_trip-Runs db host cipher law (submitted t) _ s h2 in
      (t, found, passed, state, same, saved)

  pub review-ok :
      (id admin version : ℕ) (approved : Bool) (reason : Text) (now clock : ℕ) (s : S) {u : Trip}
      → (review db host cipher id admin version approved reason now clock s).0 ≡ ok u
      → (t : Trip) × ((db.tables s).trips id ≡ some t)
        × (reviewable 0 version clock t ≡ ok tt)
        × (is_pending t.review_status ≡ true)
        × ((approved || not (is_empty (trim reason))) ≡ true)
        × (u ≡ reviewed admin approved (trim reason) now t)
        × (db.tables (review db host cipher id admin version approved reason now clock s).1
            ≡ put_trip (reviewed admin approved (trim reason) now t) (db.tables s))
  unfolding review
  review-ok id admin version approved reason now clock s h =
      let (t, found, passed, h1) = mutate-Runs id 0 version clock _ s h in
      let (state, h2) = guard-Runs _ h1 in
      let (reasoned, h3) = guard-Runs _ h2 in
      let (same, saved) =
        record_trip-Runs db host cipher law (reviewed admin approved (trim reason) now t) _ s h3 in
      (t, found, passed, state, reasoned, same, saved)

  pub revoke_review-ok :
      (id admin version : ℕ) (reason : Text) (now clock : ℕ) (s : S) {u : Trip}
      → (revoke_review db host cipher id admin version reason now clock s).0 ≡ ok u
      → (t : Trip) × ((db.tables s).trips id ≡ some t)
        × (reviewable 0 version clock t ≡ ok tt)
        × (not (is_empty (trim reason)) ≡ true)
        × ((is_approved t.review_status && eq_ℤ t.occupied_seats (pos 0)) ≡ true)
        × (u ≡ revoked admin (trim reason) now t)
        × (db.tables (revoke_review db host cipher id admin version reason now clock s).1
            ≡ put_trip (revoked admin (trim reason) now t) (db.tables s))
  unfolding revoke_review
  revoke_review-ok id admin version reason now clock s h =
      let (t, found, passed, h1) = mutate-Runs id 0 version clock _ s h in
      let (reasoned, h2) = guard-Runs _ h1 in
      let (state, h3) = guard-Runs _ h2 in
      let (same, saved) =
        record_trip-Runs db host cipher law (revoked admin (trim reason) now t) _ s h3 in
      (t, found, passed, reasoned, state, same, saved)

  pub update_trip-ok :
      (id organizer version : ℕ) (input : TripInput) (clock : ℕ) (s : S) {u : Trip}
      → (update_trip db host cipher id organizer version input clock s).0 ≡ ok u
      → (t v : Trip) × ((db.tables s).trips id ≡ some t)
        × (reviewable organizer version clock t ≡ ok tt)
        × (eq_ℤ t.occupied_seats (pos 0) ≡ true)
        × (recontact db host cipher input (edited input t) ≡ ok v)
        × (u ≡ redrafted v)
        × (db.tables (update_trip db host cipher id organizer version input clock s).1
            ≡ put_trip (redrafted v) (db.tables s))
  unfolding update_trip
  update_trip-ok id organizer version input clock s h =
      let (t, found, passed, h1) = mutate-Runs id organizer version clock _ s h in
      let (unoccupied, h2) = guard-Runs _ h1 in
      let (v, contact, h3) = lift-Runs h2 in
      let (same, saved) = record_trip-Runs db host cipher law (redrafted v) _ s h3 in
      (t, v, found, passed, unoccupied, contact, same, saved)

  -- A new trip takes an unused number; what stands in the table is the trip that is returned.
  pub create_trip-ok :
      (organizer : ℕ) (input : TripInput) (s : S) {u : Trip}
      → (create_trip db host cipher organizer input s).0 ≡ ok u
      → (ciphertext : Text) × (u
          ≡ record (new_trip organizer input) { id = u.id; contact_ciphertext = ciphertext })
        × ((db.tables s).trips u.id ≡ none)
        × (joined u.id (db.tables s).participants ≡ 0)
        × (db.tables (create_trip db host cipher organizer input s).1
            ≡ put_trip u (put_trip (record (new_trip organizer input) { id = u.id }) (db.tables s)))
  unfolding create_trip
  create_trip-ok organizer input s {u} h =
      let (t, s1, made, h1) = >>=-Runs (transaction-Runs _ s h) in
      let (ciphertext, _, h2) = lift-Runs h1 in
      let v = record t { contact_ciphertext = ciphertext } in
      let (same, saved) = record_trip-Runs db host cipher law v _ s1 h2 in
      let (named, _, fresh, alone, put) = law.create_trip_id _ t s s1 made.result in
      rw same (
        ciphertext,
        ap {A = Trip} {B = Trip} (λ x. record x { id = t.id; contact_ciphertext = ciphertext })
            named,
        fresh,
        alone,
        saved ∙ ap (put_trip v) (put ∙ ap (λ x. put_trip x (db.tables s)) named),
      )
