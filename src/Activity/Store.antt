-- ===== src/Activity/Store.antt =====
-- infrastructure/store.go: what the transactions on an activity are made of, and its creation.
pub mod Lifecycle
pub mod Registrations
pub mod Reads
pub mod Effects
pub mod Admission
pub mod Capacity
pub mod Replay
pub mod Privacy
use backend_demo.Prelude.{ℕ, ◌+◌, pos, not, none, List, [], ◌++◌, ◌==◌, u64}
use backend_demo.Platform.Errors.{
  Error, app, record_not_found, Result, Tx, ◌>>=◌, ◌>>◌, pure, lift, query, exec, guard, map_err,
  transaction,
}
use backend_demo.Platform.Text.{Text, codes, trim, decimal}
use backend_demo.Platform.Events.{Host, write_event}
use backend_demo.Activity.Entry.{
  Activity, Registration, ActivityInput, ActivityStatus, RegistrationStatus, activity_draft,
  review_draft,
}
use backend_demo.Activity.Database.{Database}

-- `activityNotFound`.
abbrev pub activity_not_found : Error → Error
activity_not_found record_not_found = app 404 "activity_not_found"
activity_not_found e = e

pub record ActivityPayload : Type 0 where
  pub activity_id : ℕ
  pub status : ActivityStatus
  pub version : ℕ

pub record RegistrationPayload : Type 0 where
  pub activity_id : ℕ
  pub registration_id : ℕ
  pub user_id : ℕ
  pub status : RegistrationStatus
  pub version : ℕ

-- Services of the host: the JSON of events with the digest and the clock, and the cipher, which is
-- configured.
pub record Services : Type 0 where
  pub activity_host : Host ActivityPayload
  pub registration_host : Host RegistrationPayload
  pub encrypt : Text → Text → Result Text
  pub decrypt : Text → Text → Result Text

unfoldable pub activity_contact_aad : ℕ → Text
activity_contact_aad id = codes "activity:" ++ decimal id

module _ {S : Type 0} (db : Database S) (env : Services) where
  unfoldable pub activity_event : Activity → Text → Tx S (Unit {0})
  activity_event a kind =
      write_event env.activity_host db.events (λ (p : ActivityPayload). p.version)
        (codes "activity") a.id kind
        (record { activity_id = a.id; status = a.status; version = a.version })

  unfoldable pub registration_event : Activity → Text → Registration → Tx S (Unit {0})
  registration_event a kind r =
      write_event env.registration_host db.events (λ (p : RegistrationPayload). p.version)
        (codes "activity_registration") r.id kind
        (record {
          activity_id = a.id;
          registration_id = r.id;
          user_id = r.user_id;
          status = r.status;
          version = r.version;
        })

-- The activity that `Create` inserts.
unfoldable pub new_activity : ℕ → ActivityInput → Activity
new_activity actor input = record {
  id = 0;
  title = trim input.title;
  summary = trim input.summary;
  body = trim input.body;
  location = trim input.location;
  signup_start_at = input.signup_start_at;
  signup_end_at = input.signup_end_at;
  start_at = input.start_at;
  end_at = input.end_at;
  capacity = input.capacity;
  registered_count = pos 0;
  status = activity_draft;
  review_status = review_draft;
  review_comment = none;
  contact_type = trim input.contact.kind;
  contact_ciphertext = [];
  created_by = actor;
  updated_by = actor;
  version = 1;
}

module _ {S : Type 0} (db : Database S) (env : Services) where
  unfoldable pub create_tx : ℕ → ActivityInput → Tx S Activity
  unfolding new_activity activity_event
  create_tx actor input = do
    a ← db.create_activity (new_activity actor input)
    ciphertext ← lift (env.encrypt (trim input.contact.value) (activity_contact_aad a.id))
    exec (db.save_activity (record a { contact_ciphertext = ciphertext }))
    activity_event db env (record a { contact_ciphertext = ciphertext }) (codes "activity.created")
    pure (record a { contact_ciphertext = ciphertext })

  unfoldable pub create : ℕ → ActivityInput → S → Result Activity × S
  unfolding create_tx
  create actor input = transaction (create_tx actor input)

  -- The functions that `mutateActivityWithEvent` is given check the activity and change it; each
  -- ends with `tx.Save(activity)`, which stands here.
  unfoldable pub mutate_activity_tx : ℕ → ℕ → Text → (Activity → Result Activity) → Tx S Activity
  unfolding activity_event
  mutate_activity_tx id version kind change = do
    a ← query λ s. map_err activity_not_found (db.first_activity id s)
    lift (guard (a.version == version) (app 409 "version_conflict"))
    b ← lift (change a)
    exec (db.save_activity b)
    activity_event db env b kind
    pure b
