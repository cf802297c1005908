-- ===== src/Activity/Store/Registrations.antt =====
-- infrastructure/store.go: `Register` and `CancelRegistration`.
use backend_demo.Prelude.{
  ℕ, ◌+◌, pos, suc_ℤ, pred_ℤ, ltb_ℤ, Bool, ◌||◌, not, Option, none, some, ltb, ◌==◌, u64,
  if◌then◌else◌,
}
use backend_demo.Platform.Errors.{
  Error, app, record_not_found, Result, ok, err, Tx, ◌>>=◌, ◌>>◌, pure, lift, query, exec, guard,
  map_err, transaction,
}
use backend_demo.Platform.Text.{Text, codes, is_empty, byte_len, trim}
use backend_demo.Activity.Entry.{
  Activity, Registration, registration_active, registration_cancelled, is_active,
}
use backend_demo.Activity.Rule.{Verdict, valid, invalid, registration_allowed, cancellation_allowed}
use backend_demo.Activity.Database.{Database}
use backend_demo.Activity.Store.{Services, activity_not_found, activity_event, registration_event}

unfoldable pub valid_key : Text → Bool
valid_key key = not (is_empty key || ltb 128 (byte_len key))

-- A read that may find no row.
abbrev pub optional_row : Result Registration → Result (Option Registration)
optional_row (ok r) = ok (some r)
optional_row (err record_not_found) = ok none
optional_row (err e) = err e

abbrev pub registration_not_found : Error → Error
registration_not_found record_not_found = app 404 "registration_not_found"
registration_not_found e = e

-- A refusal of the rules, as the conflict that the store reports.
abbrev pub or_conflict : Error → Verdict → Result (Unit {0})
or_conflict e valid = ok tt
or_conflict e (invalid _) = err e

unfoldable pub new_registration : ℕ → ℕ → Text → ℕ → Registration
new_registration activity user key now = record {
  id = 0;
  activity_id = activity;
  user_id = user;
  status = registration_active;
  registered_at = now;
  cancelled_at = none;
  idempotency_key = key;
  version = 1;
}

unfoldable pub reactivated : Text → ℕ → Registration → Registration
reactivated key now r = record r {
  status = registration_active;
  registered_at = now;
  cancelled_at = none;
  idempotency_key = key;
  version = u64 (r.version + 1);
}

unfoldable pub withdrawn : ℕ → Registration → Registration
withdrawn now r = record r {
  status = registration_cancelled;
  cancelled_at = some now;
  version = u64 (r.version + 1);
}

unfoldable pub place_taken : Activity → Activity
unfolding suc_ℤ
place_taken a = record a { registered_count = suc_ℤ a.registered_count }

unfoldable pub place_released : Activity → Activity
unfolding pred_ℤ
place_released a = record a {
  registered_count =
      (if ltb_ℤ (pos 0) a.registered_count then pred_ℤ a.registered_count else a.registered_count);
}

module _ {S : Type 0} (db : Database S) (env : Services) where
  -- The row of a user who has none, or a cancelled one.
  unfoldable pub enrol : ℕ → ℕ → Text → ℕ → Option Registration → Tx S Registration
  unfolding new_registration reactivated
  enrol activity user key now none = db.create_registration (new_registration activity user key now)
  enrol activity user key now (some r) = do
    lift (guard (not (is_active r.status)) (app 409 "already_registered"))
    exec (db.save_registration (reactivated key now r))
    pure (reactivated key now r)

  unfoldable pub register_new : ℕ → Text → ℕ → Activity → Tx S (Registration × Activity)
  unfolding enrol place_taken registration_event
  register_new user key now a = do
    lift (or_conflict (app 409 "activity_not_registrable") (registration_allowed a now))
    row ← query λ s. optional_row (db.first_registration a.id user s)
    r ← enrol a.id user key now row
    exec (db.save_activity (place_taken a))
    registration_event db env (place_taken a) (codes "activity.registration_created") r
    pure (r, place_taken a)

  -- With the row that has the key, if there is one.
  unfoldable pub register_found :
      ℕ → Text → ℕ → Activity → Option Registration → Tx S (Registration × Activity)
  unfolding register_new
  register_found user key now a (some r) = pure (r, a)
  register_found user key now a none = register_new user key now a

  unfoldable pub register_tx : ℕ → ℕ → Text → ℕ → Tx S (Registration × Activity)
  unfolding register_found
  register_tx id user key now = do
    a ← query λ s. map_err activity_not_found (db.first_activity id s)
    lift (guard (not (a.created_by == user)) (app 403 "self_registration"))
    found ← query λ s. optional_row (db.registration_by_key id user key s)
    register_found user key now a found

  unfoldable pub register : ℕ → ℕ → Text → ℕ → S → Result (Registration × Activity) × S
  unfolding valid_key register_tx
  register id user key now s =
      if valid_key (trim key)
      then transaction (register_tx id user (trim key) now) s
      else (err (app 400 "invalid_idempotency_key"), s)

  unfoldable pub cancel_registration_tx : ℕ → ℕ → ℕ → ℕ → Tx S (Registration × Activity)
  unfolding withdrawn place_released activity_event registration_event
  cancel_registration_tx id user version now = do
    a ← query λ s. map_err activity_not_found (db.first_activity id s)
    r ← query λ s. map_err registration_not_found (db.first_registration id user s)
    lift (guard (r.version == version) (app 409 "version_conflict"))
    lift (or_conflict (app 409 "registration_not_cancellable") (cancellation_allowed r a now))
    exec (db.save_registration (withdrawn now r))
    exec (db.save_activity (place_released a))
    activity_event db env (place_released a) (codes "activity.registration_cancelled")
    registration_event db env (place_released a) (codes "activity.registration_cancelled")
        (withdrawn now r)
    pure (withdrawn now r, place_released a)

  unfoldable pub cancel_registration : ℕ → ℕ → ℕ → ℕ → S → Result (Registration × Activity) × S
  unfolding cancel_registration_tx
  cancel_registration id user version now = transaction (cancel_registration_tx id user version now)
