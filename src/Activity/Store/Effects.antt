-- ===== src/Activity/Store/Effects.antt =====
-- What the transactions on an activity leave in the tables when they succeed.
use backend_demo.Prelude.{
  ap, ℕ, ◌⊎◌, Bool, true, false, ◌==◌, ◌≡◌, refl, ◌∙◌, inl, inr, Option, none, some,
}
use backend_demo.Platform.Errors.{
  app, fault, record_not_found, Result, ok, err, Reads, Runs, if-Runs, pure-Runs, >>-Runs, >>=-Runs,
  guard-Runs, query-Runs, exec-Runs, lift-Runs, map_err, map_err-eq-ok, Error,
}
use backend_demo.Platform.Text.{Text}
use backend_demo.Platform.Events.Effects.{write_event-Runs}
use backend_demo.Activity.Entry.{Activity, Registration, ActivityInput, is_active}
use backend_demo.Activity.Rule.{Verdict, valid, invalid, is_publicly_visible}
use backend_demo.Activity.Database.{Database, Lawful, put_activity, find_registration, registered}
use backend_demo.Activity.Store.{
  Services, activity_not_found, activity_event, registration_event, new_activity, create_tx,
  mutate_activity_tx,
}
use backend_demo.Activity.Store.Lifecycle.{publish_change, publish_found, publish_tx}
use backend_demo.Activity.Store.Registrations.{
  optional_row, or_conflict, new_registration, reactivated,
}

pub or_conflict-ok : (e : Error) (v : Verdict) → or_conflict e v ≡ ok tt → v ≡ valid
or_conflict-ok e valid h = refl
or_conflict-ok e (invalid _) h = cc

abbrev pub has_active : Option Registration → Bool
has_active none = false
has_active (some r) = is_active r.status

-- The row after a registration under a new key.
abbrev pub enrolled : ℕ → ℕ → ℕ → Text → ℕ → Option Registration → Registration
enrolled id activity user key now none = record (new_registration activity user key now) { id = id }
enrolled id activity user key now (some r) = reactivated key now r

module _ {S : Type 0} (db : Database S) (env : Services) (law : Lawful db) where
  pub activity_event-tables :
      (a : Activity) (kind : Text) (s s' : S)
      → Runs (activity_event db env a kind) s tt s'
      → db.tables s' ≡ db.tables s
  unfolding activity_event
  activity_event-tables a kind s s' h =
      elim (write_event-Runs env.activity_host db.events _ _ _ _ _ s s' h) [
        | inl (e, inserted) ↦ law.insert_ok e s s' inserted
        | inr same ↦ rw same
      ]

  pub registration_event-tables :
      (a : Activity) (kind : Text) (r : Registration) (s s' : S)
      → Runs (registration_event db env a kind r) s tt s'
      → db.tables s' ≡ db.tables s
  unfolding registration_event
  registration_event-tables a kind r s s' h =
      elim (write_event-Runs env.registration_host db.events _ _ _ _ _ s s' h) [
        | inl (e, inserted) ↦ law.insert_ok e s s' inserted
        | inr same ↦ rw same
      ]

  pub found_activity :
      (id : ℕ) (s : S) {a : Activity}
      → Reads (λ s. map_err activity_not_found (db.first_activity id s)) s a
      → (db.tables s).activities id ≡ some a
  found_activity id s {a} h =
      law.first_activity_ok id s a
        (map_err-eq-ok activity_not_found (db.first_activity id s) h.result)

  pub row_cases :
      (activity user : ℕ) (s : S) (r : Result Registration) {o : Option Registration}
      → db.first_registration activity user s ≡ r
      → optional_row r ≡ ok o
      → find_registration activity user (db.tables s).registrations ≡ o
  row_cases activity user s (ok r) e h = law.first_registration_ok activity user s r e ∙ cc
  row_cases activity user s (err record_not_found) e h =
      law.first_registration_missing activity user s e ∙ cc
  row_cases activity user s (err (app _ _)) e h = cc
  row_cases activity user s (err (fault _)) e h = cc

  -- A change saves what it makes of the activity, and nothing else.
  pub mutate_activity_tx-Runs :
      (id version : ℕ) (kind : Text) (change : Activity → Result Activity) {s : S} {u : Activity}
      {s' : S}
      → Runs (mutate_activity_tx db env id version kind change) s u s'
      → (a : Activity) × ((db.tables s).activities id ≡ some a)
        × ((a.version == version) ≡ true)
        × (change a ≡ ok u)
        × (db.tables s' ≡ put_activity u (db.tables s))
  unfolding mutate_activity_tx
  mutate_activity_tx-Runs id version kind change {s} {u} {s'} h =
      let (a, found, h1) = query-Runs h in
      let (current, h2) = guard-Runs _ h1 in
      let (b, changed, h3) = lift-Runs h2 in
      let (s1, saved, h4) = exec-Runs h3 in
      let (s2, wrote, done) = >>-Runs h4 in
      let (same, last) = pure-Runs done in
      (
        a,
        found_activity id s found,
        current,
        changed ∙ cc,
        ap db.tables last
            ∙ activity_event-tables b kind s1 s2 wrote
            ∙ law.save_activity_ok b s s1 saved.result
            ∙ ap (λ x. put_activity x (db.tables s)) (cc),
      )

  pub create_tx-Runs :
      (actor : ℕ) (input : ActivityInput) {s : S} {u : Activity} {s' : S}
      → Runs (create_tx db env actor input) s u s'
      → (b : Activity) × (ciphertext : Text) × (b ≡ record (new_activity actor input) { id = b.id })
        × (registered b.id (db.tables s).registrations ≡ 0)
        × (u ≡ record b { contact_ciphertext = ciphertext })
        × (db.tables s' ≡ put_activity u (put_activity b (db.tables s)))
  unfolding create_tx
  create_tx-Runs actor input {s} {u} {s'} h =
      let (b, s1, made, h1) = >>=-Runs h in
      let (ciphertext, _, h2) = lift-Runs h1 in
      let (s2, saved, h3) = exec-Runs h2 in
      let (s3, wrote, done) = >>-Runs h3 in
      let (same, last) = pure-Runs done in
      let (named, alone, put) = law.create_activity_ok _ b s s1 made.result in
      let c = record b { contact_ciphertext = ciphertext } in
      (
        b,
        ciphertext,
        named,
        alone,
        same,
        ap db.tables last
            ∙ activity_event-tables c _ s2 s3 wrote
            ∙ law.save_activity_ok c s1 s2 saved.result
            ∙ ap (put_activity c) put
            ∙ ap (λ x. put_activity x (put_activity b (db.tables s))) (cc),
      )

  pub publish_found-Runs :
      (actor now : ℕ) (a : Activity) {s : S} {u : Activity} {s' : S}
      → Runs (publish_found db env actor now a) s u s'
      → ((is_publicly_visible a.status a.review_status ≡ true) × (u ≡ a) × (s' ≡ s))
        ⊎ ((publish_change actor now a ≡ ok u) × (db.tables s' ≡ put_activity u (db.tables s)))
  unfolding publish_found
  publish_found-Runs actor now a {s} {u} {s'} h =
      elim (if-Runs (is_publicly_visible a.status a.review_status) h) [
        | inl (seen, h0) ↦ let (same, last) = pure-Runs h0 in inl (seen, same, last)
        | inr (_, h0) ↦
            let (b, changed, h1) = lift-Runs h0 in
            let (s1, saved, h2) = exec-Runs h1 in
            let (s2, wrote, done) = >>-Runs h2 in
            let (same, last) = pure-Runs done in
            inr (
              changed ∙ cc,
              ap db.tables last
                  ∙ activity_event-tables b _ s1 s2 wrote
                  ∙ law.save_activity_ok b s s1 saved.result
                  ∙ ap (λ x. put_activity x (db.tables s)) (cc),
            )
      ]

  pub publish_tx-Runs :
      (id actor version now : ℕ) {s : S} {u : Activity} {s' : S}
      → Runs (publish_tx db env id actor version now) s u s'
      → (a : Activity) × ((db.tables s).activities id ≡ some a)
        × ((a.version == version) ≡ true)
        × ((a.created_by == actor) ≡ true)
        × (((is_publicly_visible a.status a.review_status ≡ true) × (u ≡ a) × (s' ≡ s))
            ⊎ ((publish_change actor now a ≡ ok u) × (db.tables s' ≡ put_activity u (db.tables s))))
  unfolding publish_tx
  publish_tx-Runs id actor version now {s} h =
      let (a, found, h1) = query-Runs h in
      let (current, h2) = guard-Runs _ h1 in
      let (own, h3) = guard-Runs _ h2 in
      (a, found_activity id s found, current, own, publish_found-Runs actor now a h3)
