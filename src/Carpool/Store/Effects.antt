-- ===== src/Carpool/Store/Effects.antt =====
-- What the transactions on a trip leave in the tables when they succeed.
use backend_demo.Prelude.{
  ap, ℕ, ◌⊎◌, Bool, true, false, not, ◌≡◌, refl, ◌∙◌, inl, inr, Option, none, some, arith,
}
use backend_demo.Platform.Errors.{
  Result, ok, err, record_not_found, Reads, Runs, if-Runs, pure-Runs, >>-Runs, >>=-Runs, guard-Runs,
  query-Runs, exec-Runs, lift-Runs, check-Runs, map_err, map_err-eq-ok,
}
use backend_demo.Platform.Text.{Text}
use backend_demo.Platform.Events.{Host}
use backend_demo.Platform.Events.Effects.{write_with_key-Runs}
use backend_demo.Carpool.Trip.{Trip, Participant, trip_completed, trip_cancelled, is_joined}
use backend_demo.Carpool.Database.{
  Database, Lawful, put_trip, put_participant, find_participant, is_due,
}
use backend_demo.Carpool.Store.{
  Cipher, TripPayload, not_found, event, record_trip, optional, has_joined, seat_taken,
  seat_released, ended, rejoined, left, new_participant,
}
use backend_demo.Carpool.Store.Seats.{
  joinable, leavable, cancellable, leaver, enrol, join_tx, leave_tx, cancel_tx, complete_found,
  complete_one_tx,
}

-- The participant's row after a join.
abbrev pub enrolled : ℕ → ℕ → ℕ → Option Participant → Participant
enrolled id user now none = new_participant id user now
enrolled id user now (some p) = rejoined now p

leaver-eq-ok :
    (o : Option Participant) {p : Participant}
    → leaver o ≡ ok p
    → (o ≡ some p) × (is_joined p.status ≡ true)
leaver-eq-ok none h = cc
leaver-eq-ok (some p) h = ground arith

false_of_not : (b : Bool) → not b ≡ true → b ≡ false
false_of_not b h = ground arith

module _ {S : Type 0} (db : Database S) (host : Host TripPayload) (cipher : Cipher)
    (law : Lawful db) where
  event-tables :
      (t : Trip) (kind : Text) (s s' : S)
      → Runs (event db host cipher t kind) s tt s'
      → db.tables s' ≡ db.tables s
  unfolding event
  event-tables t kind s s' h = elim (write_with_key-Runs host db.events _ _ _ _ _ s s' h) [
    | inl (e, inserted) ↦ law.insert_ok e s s' inserted
    | inr same ↦ rw same
  ]

  -- The end of every transaction saves the trip that it returns, and nothing else.
  pub record_trip-Runs :
      (t : Trip) (kind : Text) (s : S) {u : Trip} {s' : S}
      → Runs (record_trip db host cipher t kind) s u s'
      → (u ≡ t) × (db.tables s' ≡ put_trip t (db.tables s))
  unfolding record_trip
  record_trip-Runs t kind s {u} {s'} h =
      let (s1, saved, rest) = exec-Runs h in
      let (s2, wrote, done) = >>-Runs rest in
      let (same, last) = pure-Runs done in
      (
        same,
        ap db.tables last ∙ event-tables t kind s1 s2 wrote ∙ law.save_trip_ok t s s1 saved.result,
      )

  pub found_trip :
      (id : ℕ) (s : S) {t : Trip}
      → Reads (λ s. map_err not_found (db.first_trip id s)) s t
      → (db.tables s).trips id ≡ some t
  found_trip id s {t} h =
      law.first_trip_ok id s t (map_err-eq-ok not_found (db.first_trip id s) h.result)

  row_cases :
      (id user : ℕ) (s : S) (r : Result Participant) {o : Option Participant}
      → db.first_participant id user s ≡ r
      → optional r ≡ ok o
      → find_participant id user (db.tables s).participants ≡ o
  row_cases id user s (ok p) e h = law.first_participant_ok id user s p e ∙ cc
  row_cases id user s (err record_not_found) e h = law.first_participant_missing id user s e ∙ cc
  row_cases id user s (err _) e h = cc

  found_row :
      (id user : ℕ) (s : S) {o : Option Participant}
      → Reads (λ s. optional (db.first_participant id user s)) s o
      → find_participant id user (db.tables s).participants ≡ o
  found_row id user s h = row_cases id user s (db.first_participant id user s) refl h.result

  enrol-tables :
      (id user now : ℕ) (o : Option Participant) (s s' : S)
      → enrol db id user now o s ≡ ok s'
      → db.tables s' ≡ put_participant (enrolled id user now o) (db.tables s)
  unfolding enrol
  enrol-tables id user now none s s' h = law.create_participant_ok _ s s' h
  enrol-tables id user now (some p) s s' h = law.save_participant_ok _ s s' h

  -- A join that succeeds found a trip with room and a user without a seat, and took one.
  pub join_tx-Runs :
      (id user version now : ℕ) {s : S} {u : Trip} {s' : S}
      → Runs (join_tx db host cipher id user version now) s u s'
      → (t : Trip) × (o : Option Participant) × ((db.tables s).trips id ≡ some t)
        × (joinable user version now t ≡ ok tt)
        × (find_participant id user (db.tables s).participants ≡ o)
        × (has_joined o ≡ false)
        × (u ≡ seat_taken t)
        × (db.tables s'
            ≡ put_trip (seat_taken t) (put_participant (enrolled id user now o) (db.tables s)))
  unfolding join_tx
  join_tx-Runs id user version now {s} h =
      let (t, found, h1) = query-Runs h in
      let (room, h2) = check-Runs h1 in
      let (o, row, h3) = query-Runs h2 in
      let (free, h4) = guard-Runs _ h3 in
      let (s1, enrolled_row, h5) = exec-Runs h4 in
      let (same, saved) = record_trip-Runs (seat_taken t) _ s1 h5 in
      (
        t,
        o,
        found_trip id s found,
        room,
        found_row id user s row,
        false_of_not _ free,
        same,
        saved ∙ ap (put_trip (seat_taken t)) (enrol-tables id user now o s s1 enrolled_row.result),
      )

  -- A user who leaves held a seat, and releases it.
  pub leave_tx-Runs :
      (id user version now : ℕ) {s : S} {u : Trip} {s' : S}
      → Runs (leave_tx db host cipher id user version now) s u s'
      → (t : Trip) × (p : Participant) × ((db.tables s).trips id ≡ some t)
        × (leavable version now t ≡ ok tt)
        × (find_participant id user (db.tables s).participants ≡ some p)
        × (is_joined p.status ≡ true)
        × (u ≡ seat_released t)
        × (db.tables s' ≡ put_trip (seat_released t) (put_participant (left now p) (db.tables s)))
  unfolding leave_tx
  leave_tx-Runs id user version now {s} h =
      let (t, found, h1) = query-Runs h in
      let (active, h2) = check-Runs h1 in
      let (o, row, h3) = query-Runs h2 in
      let (p, holder, h4) = lift-Runs h3 in
      let (present, held) = leaver-eq-ok o holder in
      let (s1, wrote, h5) = exec-Runs h4 in
      let (same, saved) = record_trip-Runs (seat_released t) _ s1 h5 in
      (
        t,
        p,
        found_trip id s found,
        active,
        found_row id user s row ∙ present,
        held,
        same,
        saved
            ∙ ap (put_trip (seat_released t))
                (law.save_participant_ok (left now p) s s1 wrote.result),
      )

  pub cancel_tx-Runs :
      (id user version now : ℕ) {s : S} {u : Trip} {s' : S}
      → Runs (cancel_tx db host cipher id user version now) s u s'
      → (t : Trip) × ((db.tables s).trips id ≡ some t)
        × (cancellable user version now t ≡ ok tt)
        × (u ≡ ended trip_cancelled t)
        × (db.tables s' ≡ put_trip (ended trip_cancelled t) (db.tables s))
  unfolding cancel_tx
  cancel_tx-Runs id user version now {s} h =
      let (t, found, h1) = query-Runs h in
      let (active, h2) = check-Runs h1 in
      let (same, saved) = record_trip-Runs (ended trip_cancelled t) _ s h2 in
      (t, found_trip id s found, active, same, saved)

  complete_cases :
      (now : ℕ) (t : Trip) (s : S) {b : Bool} {s' : S}
      → Runs (complete_found db host cipher now t) s b s'
      → ((b ≡ false) × (is_due now t ≡ false) × (s' ≡ s))
        ⊎ ((b ≡ true)
            × (is_due now t ≡ true)
            × (db.tables s' ≡ put_trip (ended trip_completed t) (db.tables s)))
  unfolding complete_found
  complete_cases now t s h = elim (if-Runs (is_due now t) h) [
    | inl (due, h0) ↦
        let (_, s1, stored, h1) = >>=-Runs h0 in
        let (changed, last) = pure-Runs h1 in
        inr (
          changed,
          due,
          ap db.tables last ∙ (record_trip-Runs (ended trip_completed t) _ s stored).1,
        )
    | inr (early, h0) ↦ let (kept, last) = pure-Runs h0 in inl (kept, early, last)
  ]

  -- One round of the completion either leaves the trip alone or ends it, by whether it is due.
  pub complete_one_tx-Runs :
      (now id : ℕ) {s : S} {b : Bool} {s' : S}
      → Runs (complete_one_tx db host cipher now id) s b s'
      → (t : Trip) × ((db.tables s).trips id ≡ some t)
        × (((b ≡ false) × (is_due now t ≡ false) × (s' ≡ s))
            ⊎ ((b ≡ true)
                × (is_due now t ≡ true)
                × (db.tables s' ≡ put_trip (ended trip_completed t) (db.tables s))))
  unfolding complete_one_tx
  complete_one_tx-Runs now id {s} h =
      let (t, found, h1) = query-Runs h in
      (t, law.first_trip_ok id s t found.result, complete_cases now t s h1)
