-- ===== src/Activity/Store/Admission.antt =====
-- What a registration, and the cancellation of one, leave in the tables when they succeed.
use backend_demo.Prelude.{
  ap, ℕ, ◌⊎◌, Bool, true, false, not, ◌==◌, ◌≡◌, refl, ◌∙◌, inl, inr, Option, none, some, arith,
}
use backend_demo.Platform.Errors.{
  app, fault, record_not_found, Result, ok, err, Runs, pure-Runs, >>-Runs, >>=-Runs, guard-Runs,
  query-Runs, exec-Runs, check-Runs, map_err-eq-ok,
}
use backend_demo.Platform.Text.{Text}
use backend_demo.Activity.Entry.{Activity, Registration}
use backend_demo.Activity.Rule.{valid, registration_allowed, cancellation_allowed}
use backend_demo.Activity.Database.{
  Database, Lawful, put_activity, put_registration, find_registration,
}
use backend_demo.Activity.Store.{Services}
use backend_demo.Activity.Store.Registrations.{
  optional_row, registration_not_found, withdrawn, place_taken, place_released, enrol, register_new,
  register_found, register_tx, cancel_registration_tx,
}
use backend_demo.Activity.Store.Effects.{
  has_active, enrolled, or_conflict-ok, activity_event-tables, registration_event-tables,
  found_activity, row_cases,
}

false_of_not : (b : Bool) → not b ≡ true → b ≡ false
false_of_not b h = ground arith

pub optional_row-none :
    (r : Result Registration) → optional_row r ≡ ok none → r ≡ err record_not_found
optional_row-none (ok o) h = cc
optional_row-none (err record_not_found) h = refl
optional_row-none (err (app status code)) h = cc
optional_row-none (err (fault n)) h = cc

pub optional_row-some :
    (r : Result Registration) (q : Registration) → optional_row r ≡ ok (some q) → r ≡ ok q
optional_row-some (ok p) q h = cc
optional_row-some (err record_not_found) q h = cc
optional_row-some (err (app status code)) q h = cc
optional_row-some (err (fault n)) q h = cc

module _ {S : Type 0} (db : Database S) (env : Services) (law : Lawful db) where
  enrol-Runs :
      (activity user : ℕ) (key : Text) (now : ℕ) (o : Option Registration) {s : S}
      {r : Registration} {s' : S}
      → Runs (enrol db env activity user key now o) s r s'
      → (has_active o ≡ false)
        × (r ≡ enrolled r.id activity user key now o)
        × (db.tables s' ≡ put_registration r (db.tables s))
  unfolding enrol
  enrol-Runs activity user key now none {s} {r} {s'} h =
      let (named, put) = law.create_registration_ok _ r s s' h.result in (refl, named, put)
  enrol-Runs activity user key now (some q) {s} {r} {s'} h =
      let (free, h1) = guard-Runs _ h in
      let (s1, saved, done) = exec-Runs h1 in
      let (same, last) = pure-Runs done in
      (
        false_of_not _ free,
        same,
        ap db.tables last
            ∙ law.save_registration_ok _ s s1 saved.result
            ∙ ap (λ x. put_registration x (db.tables s)) (cc),
      )

  -- A registration under a new key found a place and a user without one.
  pub record Admitted (user : ℕ) (key : Text) (now : ℕ) (a : Activity) (s : S) (r : Registration)
      (s' : S) : Type 0 where
    pub row : Option Registration
    pub found : find_registration a.id user (db.tables s).registrations ≡ row
    pub allowed : registration_allowed a now ≡ valid
    pub free : has_active row ≡ false
    pub made : r ≡ enrolled r.id a.id user key now row
    pub put : db.tables s' ≡ put_activity (place_taken a) (put_registration r (db.tables s))

  register_new-Runs :
      (user : ℕ) (key : Text) (now : ℕ) (a : Activity) {s : S} {u : Registration × Activity}
      {s' : S}
      → Runs (register_new db env user key now a) s u s'
      → (u.1 ≡ place_taken a) × Admitted user key now a s u.0 s'
  unfolding register_new
  register_new-Runs user key now a {s} {u} {s'} h =
      let (allowed, h1) = check-Runs h in
      let (o, row, h2) = query-Runs h1 in
      let (r, s1, joined, h3) = >>=-Runs h2 in
      let (s2, saved, h4) = exec-Runs h3 in
      let (s3, wrote, done) = >>-Runs h4 in
      let (same, last) = pure-Runs done in
      let (free, made, put) = enrol-Runs a.id user key now o joined in
      let named : u.0 ≡ r = ap (λ (x : Registration × Activity). x.0) same in
      let stored =
        ap db.tables last
        ∙ registration_event-tables db env law (place_taken a) _ r s2 s3 wrote
        ∙ law.save_activity_ok (place_taken a) s1 s2 saved.result
        ∙ ap (put_activity (place_taken a)) put in
      (
        ap (λ (x : Registration × Activity). x.1) same,
        record {
          row = o;
          found = row_cases db env law a.id user s _ refl row.result;
          allowed = or_conflict-ok _ _ allowed;
          free = free;
          made = cc (named, made);
          put = cc (named, stored);
        },
      )

  -- Sent again, a registration finds its row; else it is a new one.
  pub register_tx-Runs :
      (id user : ℕ) (key : Text) (now : ℕ) {s : S} {u : Registration × Activity} {s' : S}
      → Runs (register_tx db env id user key now) s u s'
      → (a : Activity) × ((db.tables s).activities id ≡ some a)
        × (((find_registration id user (db.tables s).registrations ≡ some u.0)
              × (law.same_key u.0.idempotency_key key ≡ true)
              × (u.1 ≡ a)
              × (s' ≡ s))
            ⊎ ((db.registration_by_key id user key s ≡ err record_not_found)
                × (u.1 ≡ place_taken a)
                × Admitted user key now a s u.0 s'))
  unfolding register_tx register_found
  register_tx-Runs id user key now {s} {u} {s'} h =
      let (a, found, h1) = query-Runs h in
      let (_, h2) = guard-Runs _ h1 in
      let (o, looked, h3) = query-Runs h2 in
      (a, found_activity db env law id s found, by_row a o looked.result h3)
    where
      by_row :
          (a : Activity) (o : Option Registration)
          → optional_row (db.registration_by_key id user key s) ≡ ok o
          → Runs (register_found db env user key now a o) s u s'
          → ((find_registration id user (db.tables s).registrations ≡ some u.0)
              × (law.same_key u.0.idempotency_key key ≡ true)
              × (u.1 ≡ a)
              × (s' ≡ s))
            ⊎ ((db.registration_by_key id user key s ≡ err record_not_found)
                × (u.1 ≡ place_taken a)
                × Admitted user key now a s u.0 s')
      by_row a none looked h =
          let (counted, admitted) = register_new-Runs user key now a h in
          inr (optional_row-none _ looked, counted, admitted)
      by_row a (some r) looked h =
          let (same, last) = pure-Runs h in
          let (row, keyed) =
            law.registration_by_key_ok id user key s r (optional_row-some _ r looked) in
          let named : u.0 ≡ r = ap (λ (x : Registration × Activity). x.0) same in
          inl (
            cc (named, row),
            cc (named, keyed),
            ap (λ (x : Registration × Activity). x.1) same,
            last,
          )

  pub cancel_registration_tx-Runs :
      (id user version now : ℕ) {s : S} {u : Registration × Activity} {s' : S}
      → Runs (cancel_registration_tx db env id user version now) s u s'
      → (a : Activity) × (r : Registration) × ((db.tables s).activities id ≡ some a)
        × (find_registration id user (db.tables s).registrations ≡ some r)
        × ((r.version == version) ≡ true)
        × (cancellation_allowed r a now ≡ valid)
        × (u ≡ (withdrawn now r, place_released a))
        × (db.tables s'
            ≡ put_activity (place_released a) (put_registration (withdrawn now r) (db.tables s)))
  unfolding cancel_registration_tx
  cancel_registration_tx-Runs id user version now {s} {u} {s'} h =
      let (a, found, h1) = query-Runs h in
      let (r, row, h2) = query-Runs h1 in
      let (current, h3) = guard-Runs _ h2 in
      let (allowed, h4) = check-Runs h3 in
      let (s1, freed, h5) = exec-Runs h4 in
      let (s2, saved, h6) = exec-Runs h5 in
      let (s3, told, h7) = >>-Runs h6 in
      let (s4, wrote, done) = >>-Runs h7 in
      let (same, last) = pure-Runs done in
      let b = place_released a in
      (
        a,
        r,
        found_activity db env law id s found,
        law.first_registration_ok id user s r
            (map_err-eq-ok registration_not_found (db.first_registration id user s) row.result),
        current,
        or_conflict-ok _ _ allowed,
        same,
        ap db.tables last
            ∙ registration_event-tables db env law b _ (withdrawn now r) s3 s4 wrote
            ∙ activity_event-tables db env law b _ s2 s3 told
            ∙ law.save_activity_ok b s1 s2 saved.result
            ∙ ap (put_activity b) (law.save_registration_ok (withdrawn now r) s s1 freed.result),
      )
