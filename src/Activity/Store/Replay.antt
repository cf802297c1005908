-- ===== src/Activity/Store/Replay.antt =====
-- A registration that is sent again.
use backend_demo.Prelude.{
  ℕ, Bool, true, false, ◌≡◌, refl, sym, ◌∙◌, ap, inl, inr, Option, none, some, List, [], ◌∷◌,
  ==_refl, arith, if◌then◌else◌,
}
use backend_demo.Platform.Errors.{app, ok, err, Runs, transaction, transaction-Runs}
use backend_demo.Platform.Text.{Text, trim}
use backend_demo.Activity.Entry.{Activity, Registration}
use backend_demo.Activity.Database.{Database, Lawful, Tables, find_registration, put_row}
use backend_demo.Activity.Store.{Services}
use backend_demo.Activity.Store.Registrations.{
  register, register_tx, valid_key, new_registration, reactivated, place_taken,
}
use backend_demo.Activity.Store.Effects.{enrolled}
use backend_demo.Activity.Store.Admission.{Admitted, register_tx-Runs}
use backend_demo.Activity.Store.Capacity.{enrolled-matches}

-- The row that was written is the one that is found.
find_registration-put_row :
    (q : Registration) (rs : List Registration)
    → find_registration q.activity_id q.user_id (put_row q rs) ≡ some q
find_registration-put_row q [] = ground (arith, ==_refl q.activity_id, ==_refl q.user_id)
find_registration-put_row q (r ∷ rs) =
    ground (arith, ==_refl q.activity_id, ==_refl q.user_id, find_registration-put_row q rs)

enrolled_key :
    (id activity user : ℕ) (key : Text) (now : ℕ) (o : Option Registration)
    → (enrolled id activity user key now o).idempotency_key ≡ key
unfolding new_registration reactivated
enrolled_key id activity user key now none = refl
enrolled_key id activity user key now (some r) = refl

place_taken_id : (a : Activity) → (place_taken a).id ≡ a.id
unfolding place_taken
place_taken_id a = refl

module _ {S : Type 0} (db : Database S) (env : Services) (law : Lawful db) where
  -- The user's row under the key, as a registration leaves it.
  record Bound (id user : ℕ) (key : Text) (s : S) (r : Registration) : Type 0 where
    row : find_registration id user (db.tables s).registrations ≡ some r
    keyed : law.same_key r.idempotency_key key ≡ true

  Admitted-Bound :
      (id user : ℕ) (key : Text) (now : ℕ) (a : Activity) (s : S) (r : Registration) (s' : S)
      → (db.tables s).activities id ≡ some a
      → Admitted db env law user key now a s r s'
      → Bound id user key s' r
  Admitted-Bound id user key now a s r s' found w =
      let own = law.keyed s id a found in
      let (at, of) =
        enrolled-matches r.id a.id user key now w.row (db.tables s).registrations w.found in
      let act = ap (λ (x : Registration). x.activity_id) w.made ∙ at ∙ own in
      let who = ap (λ (x : Registration). x.user_id) w.made ∙ of in
      record {
        row =
            ap (λ (tb : Tables). find_registration id user tb.registrations) w.put
            ∙ ap (λ n. find_registration n user (put_row r (db.tables s).registrations)) (sym act)
            ∙ ap (λ n. find_registration r.activity_id n (put_row r (db.tables s).registrations))
                (sym who)
            ∙ find_registration-put_row r (db.tables s).registrations;
        keyed =
            ap (λ (x : Registration). law.same_key x.idempotency_key key) w.made
            ∙ ap (λ k. law.same_key k key) (enrolled_key r.id a.id user key now w.row)
            ∙ law.same_key_refl key;
      }

  register_tx-Bound :
      (id user : ℕ) (key : Text) (now : ℕ) {s : S} {u : Registration × Activity} {s' : S}
      → Runs (register_tx db env id user key now) s u s'
      → Bound id user key s' u.0
  register_tx-Bound id user key now {s} {u} {s'} h =
      let (a, found, outcome) = register_tx-Runs db env law id user key now h in
      elim outcome [
        | inl (row, keyed, _, last) ↦ rw last (record { row = row; keyed = keyed })
        | inr (_, _, w) ↦ Admitted-Bound id user key now a s u.0 s' found w
      ]

  Bound-register_tx :
      (id user : ℕ) (key : Text) (now : ℕ) {s : S} {r : Registration} {w : Registration × Activity}
      {s' : S}
      → Bound id user key s r
      → Runs (register_tx db env id user key now) s w s'
      → (w.0 ≡ r) × ((db.tables s).activities id ≡ some w.1) × (s' ≡ s)
  Bound-register_tx id user key now {s} {r} {w} {s'} b h =
      let (a, found, outcome) = register_tx-Runs db env law id user key now h in
      elim outcome [
        | inl (row, _, same, last) ↦ (cc (row, b.row), rw same found, last)
        | inr (missing, _, _) ↦
            let absent = law.registration_by_key_missing id user key s r missing b.row in
            cc (absent, b.keyed)
      ]

  register-Runs :
      (id user : ℕ) (key : Text) (now : ℕ) (s : S) {u : Registration × Activity}
      → (register db env id user key now s).0 ≡ ok u
      → Runs (register_tx db env id user (trim key) now) s u (register db env id user key now s).1
  unfolding register
  register-Runs id user key now s {u} h = if_allowed (valid_key (trim key)) h
    where
      if_allowed :
          (b : Bool)
          → (if b
              then transaction (register_tx db env id user (trim key) now) s
              else (err (app 400 "invalid_idempotency_key"), s)).0
            ≡ ok u
          → Runs
              (register_tx db env id user (trim key) now)
              s
              u
              (if b
                then transaction (register_tx db env id user (trim key) now) s
                else (err (app 400 "invalid_idempotency_key"), s)).1
      if_allowed true h = transaction-Runs _ s h
      if_allowed false h = cc

  -- After a registration succeeded, in every state in which the row of that registration is as it
  -- was left, whatever else has changed there, one of the same user for the same activity under the
  -- same key, at any time, can only return that registration with the activity as it is then, and
  -- changes nothing.
  pub register-repeated :
      (id user : ℕ) (key : Text) (now now' : ℕ) (s later : S) {u w : Registration × Activity}
      → (register db env id user key now s).0 ≡ ok u
      → find_registration id user (db.tables later).registrations ≡ some u.0
      → (register db env id user key now' later).0 ≡ ok w
      → (w.0 ≡ u.0)
        × ((db.tables later).activities id ≡ some w.1)
        × ((register db env id user key now' later).1 ≡ later)
  register-repeated id user key now now' s later first row second =
      let b = register_tx-Bound id user (trim key) now (register-Runs id user key now s first) in
      Bound-register_tx id user (trim key) now' (record { row = row; keyed = b.keyed })
        (register-Runs id user key now' later second)
