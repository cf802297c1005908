-- ===== src/Carpool/Store/Moderation.antt =====
-- infrastructure/store.go: `mutateReviewableTrip` and the operations that pass through it. `clock`
-- is the reading of `time.Now()` inside the transaction.
use backend_demo.Prelude.{ℕ, pos, Bool, ◌&&◌, ◌||◌, not, ltb, eq_ℤ, ◌==◌, if◌then◌else◌}
use backend_demo.Platform.Errors.{
  app, Result, ok, err, Tx, ◌>>=◌, ◌>>◌, lift, query, guard, map_err, conflict, transaction,
}
use backend_demo.Platform.Text.{Text, codes, is_empty, trim}
use backend_demo.Platform.Events.{Host}
use backend_demo.Carpool.Trip.{
  Trip, TripInput, is_open, is_pending, is_approved, is_rejected, is_draft,
}
use backend_demo.Carpool.Database.{Database}
use backend_demo.Carpool.Store.{
  Cipher, TripPayload, not_found, contact_aad, record_trip, edited, redrafted, submitted, reviewed,
  revoked,
}

-- What `mutateReviewableTrip` asks of the trip, in its order.
unfoldable pub reviewable : ℕ → ℕ → ℕ → Trip → Result (Unit {0})
reviewable organizer version clock trip =
    if not (organizer == 0) && not (trip.organizer_id == organizer)
    then err (app 403 "not_organizer")
    else if not (trip.version == version)
    then err (conflict "version_conflict")
    else if not (is_open trip.status) || not (ltb clock trip.departure_at)
    then err (conflict "trip_unavailable")
    else ok tt

module _ {S : Type 0} (db : Database S) where
  unfoldable pub mutate_reviewable_trip : ℕ → ℕ → ℕ → ℕ → (Trip → Tx S Trip) → S → Result Trip × S
  mutate_reviewable_trip id organizer version clock change = transaction do
    trip ← query λ s. map_err not_found (db.first_trip id s)
    lift (reviewable organizer version clock trip)
    change trip

module _ {S : Type 0} (db : Database S) (host : Host TripPayload) (cipher : Cipher) where
  -- The contact is encrypted anew where the input has one.
  unfoldable pub recontact : TripInput → Trip → Result Trip
  recontact input t =
      if input.contact_provided
      then elim (cipher.encrypt (trim input.contact) (contact_aad t.id)) [
        | ok ciphertext ↦
            ok
              (record t { contact_type = trim input.contact_type; contact_ciphertext = ciphertext })
        | err e ↦ err e
      ]
      else ok t

  unfoldable pub update_trip : ℕ → ℕ → ℕ → TripInput → ℕ → S → Result Trip × S
  unfolding mutate_reviewable_trip reviewable edited redrafted record_trip
  update_trip id organizer version input clock =
      mutate_reviewable_trip db id organizer version clock λ trip. do
        lift (guard (eq_ℤ trip.occupied_seats (pos 0)) (conflict "trip_has_participants"))
        changed ← lift (recontact input (edited input trip))
        record_trip db host cipher (redrafted changed) (codes "carpool.updated")

module _ {S : Type 0} (db : Database S) (host : Host TripPayload) (cipher : Cipher) where
  unfoldable pub submit_review : ℕ → ℕ → ℕ → ℕ → S → Result Trip × S
  unfolding mutate_reviewable_trip reviewable submitted record_trip
  submit_review id organizer version clock =
      mutate_reviewable_trip db id organizer version clock λ trip. do
        lift (
            guard (is_draft trip.review_status || is_rejected trip.review_status)
              (conflict "invalid_carpool_review_state"))
        record_trip db host cipher (submitted trip) (codes "carpool.review_submitted")

  unfoldable pub review : ℕ → ℕ → ℕ → Bool → Text → ℕ → ℕ → S → Result Trip × S
  unfolding mutate_reviewable_trip reviewable reviewed record_trip
  review id admin version approved reason now clock =
      mutate_reviewable_trip db id 0 version clock λ trip. do
        lift (guard (is_pending trip.review_status) (conflict "invalid_carpool_review_state"))
        lift
            (guard (approved || not (is_empty (trim reason))) (app 400 "rejection_reason_required"))
        record_trip db host cipher (reviewed admin approved (trim reason) now trip)
            (codes "carpool.reviewed")

  unfoldable pub revoke_review : ℕ → ℕ → ℕ → Text → ℕ → ℕ → S → Result Trip × S
  unfolding mutate_reviewable_trip reviewable revoked record_trip
  revoke_review id admin version reason now clock =
      mutate_reviewable_trip db id 0 version clock λ trip. do
        lift (guard (not (is_empty (trim reason))) (app 400 "revoke_reason_required"))
        lift (
            guard (is_approved trip.review_status && eq_ℤ trip.occupied_seats (pos 0))
              (conflict "invalid_carpool_review_state"))
        record_trip db host cipher (revoked admin (trim reason) now trip)
            (codes "carpool.review_revoked")
