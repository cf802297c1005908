-- ===== src/Activity/Store/Privacy.antt =====
-- Who sees an activity, and its contact.
use backend_demo.Prelude.{ℕ, Bool, true, false, ◌≡◌, ◌≢◌, ◌⊎◌, inr, refl, some, [], arith}
use backend_demo.Platform.Errors.{Result, ok, err}
use backend_demo.Platform.Text.{Text}
use backend_demo.Platform.Privacy.{mask_contact}
use backend_demo.Activity.Entry.{Activity, Registration, is_active}
use backend_demo.Activity.Rule.{visible_to_viewer, is_publicly_visible}
use backend_demo.Activity.Database.{Database, Lawful, find_registration}
use backend_demo.Activity.Store.{Services, activity_contact_aad}
use backend_demo.Activity.Store.Reads.{
  ContactDetails, decrypt_contact, is_over, masked_contact, contact_with_access, is_some_row,
  is_viewer_registered, seen_by, shown_to, contact_for, contact, get_public,
}

masked :
    (env : Services) (a : Activity) (value : Text) {d : ContactDetails}
    → decrypt_contact env a.contact_ciphertext (activity_contact_aad a.id) ≡ ok value
    → masked_contact env a ≡ ok d
    → (d.value ≡ []) ⊎ (d.value ≡ mask_contact value)
unfolding masked_contact
masked env a value h shown = ground (arith, h, shown)

module _ {S : Type 0} (db : Database S) (env : Services) (law : Lawful db) where
  counts : (r : Result ℕ) → is_some_row r ≡ ok true → (n : ℕ) × (r ≡ ok n) × (n ≢ 0)
  counts (ok n) h = (n, refl, ground arith)
  counts (err e) h = cc

  -- The viewer has an active registration.
  abbrev pub Registered : ℕ → ℕ → S → Type 0
  Registered activity viewer s =
      (r : Registration) × (find_registration activity viewer (db.tables s).registrations ≡ some r)
      × (is_active r.status ≡ true)

  pub is_viewer_registered-Registered :
      (viewer activity : ℕ) (s : S)
      → is_viewer_registered db env viewer activity s ≡ ok true
      → Registered activity viewer s
  unfolding is_viewer_registered
  is_viewer_registered-Registered viewer activity s h =
      let (n, counted, some_row) = counts (db.count_active activity viewer s) (ground arith) in
      law.count_active_ok activity viewer n s counted some_row

  access_cases :
      (a : Activity) (viewer : ℕ) (value : Text) (registered : Bool) (s : S) {d : ContactDetails}
      → decrypt_contact env a.contact_ciphertext (activity_contact_aad a.id) ≡ ok value
      → is_over a.status ≡ false
      → is_viewer_registered db env viewer a.id s ≡ ok registered
      → contact_with_access env a viewer registered ≡ ok d
      → (d.value ≡ [])
        ⊎ (d.value ≡ mask_contact value)
        ⊎ ((is_over a.status ≡ false) × ((a.created_by ≡ viewer) ⊎ Registered a.id viewer s))
  unfolding contact_with_access
  access_cases a viewer value true s h live e shown =
      inr (inr (live, inr (is_viewer_registered-Registered viewer a.id s e)))
  access_cases a viewer value false s {d} h live e shown =
      ground (arith, live, shown, masked env a value {d = d} h)

  for_cases :
      (a : Activity) (viewer : ℕ) (value : Text) (r : Result Bool) (s : S) {d : ContactDetails}
      → decrypt_contact env a.contact_ciphertext (activity_contact_aad a.id) ≡ ok value
      → is_over a.status ≡ false
      → is_viewer_registered db env viewer a.id s ≡ r
      → contact_for env a viewer r ≡ ok d
      → (d.value ≡ [])
        ⊎ (d.value ≡ mask_contact value)
        ⊎ ((is_over a.status ≡ false) × ((a.created_by ≡ viewer) ⊎ Registered a.id viewer s))
  for_cases a viewer value (ok registered) s h live e shown =
      access_cases a viewer value registered s h live e shown
  for_cases a viewer value (err x) s h live e shown = cc

  -- Of a contact that decrypts to `value`, a viewer gets nothing or the mask, unless the activity
  -- is neither cancelled nor finished and the viewer is its creator or has an active registration.
  pub contact-Registered :
      (a : Activity) (viewer : ℕ) (value : Text) (s : S) {d : ContactDetails}
      → decrypt_contact env a.contact_ciphertext (activity_contact_aad a.id) ≡ ok value
      → contact db env a viewer s ≡ ok d
      → (d.value ≡ [])
        ⊎ (d.value ≡ mask_contact value)
        ⊎ ((is_over a.status ≡ false) × ((a.created_by ≡ viewer) ⊎ Registered a.id viewer s))
  unfolding contact
  contact-Registered a viewer value s {d} h shown = ground (
    arith,
    shown,
    masked env a value {d = d} h,
    for_cases a viewer value (is_viewer_registered db env viewer a.id s) s {d = d} h,
  )

  seen_cases :
      (a : Activity) (viewer : ℕ) (r : Result Bool) (s : S) {b : Activity}
      → is_viewer_registered db env viewer a.id s ≡ r
      → seen_by a viewer r ≡ ok b
      → (is_publicly_visible b.status b.review_status ≡ true)
        ⊎ (b.created_by ≡ viewer)
        ⊎ Registered b.id viewer s
  unfolding visible_to_viewer
  seen_cases a viewer (ok true) s {b} e h =
      let same : b ≡ a = ground arith in
      inr (inr (rw same (is_viewer_registered-Registered viewer a.id s e)))
  seen_cases a viewer (ok false) s {b} e h = ground arith
  seen_cases a viewer (err x) s e h = cc

  -- Any activity is shown to a viewer only if it is publicly visible, or the viewer has created it
  -- or has an active registration.
  pub get_public-visible :
      (id viewer : ℕ) (s : S) {b : Activity}
      → get_public db env id viewer s ≡ ok b
      → (is_publicly_visible b.status b.review_status ≡ true)
        ⊎ (b.created_by ≡ viewer)
        ⊎ Registered b.id viewer s
  unfolding get_public
  get_public-visible id viewer s {b} h = of_row (db.first_activity id s) h
    where
      of_row :
          (r : Result Activity)
          → shown_to db env viewer r s ≡ ok b
          → (is_publicly_visible b.status b.review_status ≡ true)
            ⊎ (b.created_by ≡ viewer)
            ⊎ Registered b.id viewer s
      of_row (ok a) h = seen_cases a viewer _ s refl h
      of_row (err x) h = cc
