-- ===== src/Activity/Manager/Places.antt =====
-- No registration, and no cancellation of one, gives a place away twice, or loses one.
use backend_demo.Prelude.{
  ap, ℕ, Bool, true, false, ◌≡◌, refl, sym, ◌∙◌, subst, some, inl, inr, arith, if◌then◌else◌,
}
use backend_demo.Platform.Errors.{
  Error, Result, err, transaction, transaction-Runs, transaction_keeps,
}
use backend_demo.Platform.Text.{Text, trim}
use backend_demo.Activity.Entry.{Activity, Registration, is_active}
use backend_demo.Activity.Rule.{valid, cancellation_allowed}
use backend_demo.Activity.Database.{Database, Lawful, put_row, put_activity, registered}
use backend_demo.Activity.Store.{Services}
use backend_demo.Activity.Store.Registrations.{
  register, register_tx, cancel_registration, place_taken, place_released, withdrawn, valid_key,
}
use backend_demo.Activity.Store.Effects.{enrolled}
use backend_demo.Activity.Store.Admission.{register_tx-Runs, cancel_registration_tx-Runs}
use backend_demo.Activity.Store.Capacity.{
  CapacityOk, AllCapacityOk, find_registration-matches, enrolled-matches, registered-enrolled,
  registered-withdrawn, place_taken-CapacityOk, place_released-CapacityOk,
  put_activity-AllCapacityOk, put_registration-AllCapacityOk,
}

held_before :
    (r : Registration) (a : Activity) (now : ℕ)
    → cancellation_allowed r a now ≡ valid
    → is_active r.status ≡ true
unfolding cancellation_allowed
held_before r a now h = ground arith

same_id : (a : Activity) → ((place_taken a).id ≡ a.id) × ((place_released a).id ≡ a.id)
unfolding place_taken place_released
same_id a = (refl, refl)

withdrawn-activity : (now : ℕ) (r : Registration) → (withdrawn now r).activity_id ≡ r.activity_id
unfolding withdrawn
withdrawn-activity now r = refl

module _ {S : Type 0} (db : Database S) (env : Services) (law : Lawful db) where
  -- `AllCapacityOk` of what the tables hold.
  abbrev pub Sound : S → Type 0
  Sound s = AllCapacityOk (db.tables s)

  register_tx-Sound :
      (id user : ℕ) (key : Text) (now : ℕ) (s : S)
      → Sound s
      → Sound (transaction (register_tx db env id user key now) s).1
  register_tx-Sound id user key now s all = transaction_keeps Sound _ s all λ u h.
      let (a, found, outcome) =
        register_tx-Runs db env law id user key now (transaction-Runs _ s h) in
      let rs = (db.tables s).registrations in
      let own = law.keyed s id a found in
      elim outcome [
        | inl (_, _, _, same) ↦ subst Sound (sym same) all
        | inr (_, _, w) ↦
            let q = enrolled u.0.id a.id user key now w.row in
            let counted = registered-enrolled u.0.id a.id user key now w.row rs w.found w.free in
            let fits =
              place_taken-CapacityOk now a (registered a.id rs) w.allowed
                (subst (λ n. CapacityOk a (registered n rs)) (sym own) (all id a found)) in
            subst AllCapacityOk (sym w.put) (
              put_registration-AllCapacityOk (db.tables s) (place_taken a) u.0 all
                (ap (λ (x : Registration). x.activity_id) w.made
                  ∙ (enrolled-matches u.0.id a.id user key now w.row rs w.found).0
                  ∙ sym (same_id a).0)
                (subst (λ n. CapacityOk (place_taken a) (registered n (put_row u.0 rs)))
                  (sym (same_id a).0)
                  (subst (λ x. CapacityOk (place_taken a) (registered a.id (put_row x rs)))
                    (sym w.made) (subst (CapacityOk (place_taken a)) (sym counted) fits))))
      ]

  pub register-Sound :
      (id user : ℕ) (key : Text) (now : ℕ) (s : S)
      → Sound s
      → Sound (register db env id user key now s).1
  unfolding register
  register-Sound id user key now s all =
      if_allowed (valid_key (trim key)) _ _ (register_tx-Sound id user (trim key) now s all)
    where
      if_allowed :
          (b : Bool) (m : Result (Registration × Activity) × S) (e : Error)
          → Sound m.1
          → Sound (if b then m else (err e, s)).1
      if_allowed true m e kept = kept
      if_allowed false m e kept = all

  pub cancel_registration-Sound :
      (id user version now : ℕ) (s : S)
      → Sound s
      → Sound (cancel_registration db env id user version now s).1
  unfolding cancel_registration
  cancel_registration-Sound id user version now s all = transaction_keeps Sound _ s all λ u h.
      let (a, r, found, row, _, allowed, _, put) =
        cancel_registration_tx-Runs db env law id user version now (transaction-Runs _ s h) in
      let rs = (db.tables s).registrations in
      let own = law.keyed s id a found in
      let left = registered-withdrawn id user now r rs row (held_before r a now allowed) in
      let fits =
        place_released-CapacityOk a (registered id (put_row (withdrawn now r) rs))
          (subst (CapacityOk a) (sym left) (all id a found)) in
      subst AllCapacityOk (sym put) (
        put_registration-AllCapacityOk (db.tables s) (place_released a) (withdrawn now r) all
          (withdrawn-activity now r
            ∙ (find_registration-matches id user rs row).0
            ∙ sym ((same_id a).1 ∙ own))
          (subst (λ n. CapacityOk (place_released a) (registered n (put_row (withdrawn now r) rs)))
            (sym ((same_id a).1 ∙ own)) fits))

  -- An activity written over by one with the same places.
  pub rewrite-Sound :
      (id : ℕ) (a u : Activity) (s s' : S)
      → Sound s
      → (db.tables s).activities id ≡ some a
      → u.id ≡ a.id
      → ((n : ℕ) → CapacityOk a n → CapacityOk u n)
      → db.tables s' ≡ put_activity u (db.tables s)
      → Sound s'
  rewrite-Sound id a u s s' all found own keep put = subst AllCapacityOk (sym put) (
      put_activity-AllCapacityOk (db.tables s) u all (
        subst (λ n. CapacityOk u (registered n (db.tables s).registrations))
          (sym (own ∙ law.keyed s id a found))
          (keep (registered id (db.tables s).registrations) (all id a found))))
