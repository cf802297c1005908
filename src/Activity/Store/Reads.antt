-- ===== src/Activity/Store/Reads.antt =====
-- infrastructure/store.go: one activity as an administrator or a member sees it, and its contact.
use backend_demo.Prelude.{ℕ, Bool, true, false, ◌&&◌, not, [], ltb, ◌==◌, if◌then◌else◌}
use backend_demo.Platform.Errors.{record_not_found, Result, ok, err, map_err}
use backend_demo.Platform.Text.{Text, is_empty}
use backend_demo.Platform.Privacy.{mask_contact}
use backend_demo.Activity.Entry.{Activity, ActivityStatus, activity_cancelled, activity_finished}
use backend_demo.Activity.Rule.{visible_to_viewer}
use backend_demo.Activity.Database.{Database}
use backend_demo.Activity.Store.{Services, activity_not_found, activity_contact_aad}

abbrev pub is_over : ActivityStatus → Bool
is_over activity_cancelled = true
is_over activity_finished = true
is_over _ = false

pub record ContactDetails : Type 0 where
  pub kind : Text
  pub value : Text

-- `decryptContact`, with the cipher configured.
unfoldable pub decrypt_contact : Services → Text → Text → Result Text
decrypt_contact env ciphertext aad =
    if is_empty ciphertext then ok ciphertext else env.decrypt ciphertext aad

abbrev details : Activity → Result Text → (Text → Text) → Result ContactDetails
details a (ok value) shown = ok (record { kind = a.contact_type; value = shown value })
details a (err e) shown = err e

abbrev mask : Text → Text
mask value = if is_empty value then [] else mask_contact value

unfoldable pub plain_contact : Services → Activity → Result ContactDetails
unfolding decrypt_contact
plain_contact env a =
    details a (decrypt_contact env a.contact_ciphertext (activity_contact_aad a.id))
      (λ value. value)

unfoldable pub masked_contact : Services → Activity → Result ContactDetails
unfolding decrypt_contact
masked_contact env a =
    if is_empty a.contact_ciphertext
    then ok (record { kind = a.contact_type; value = [] })
    else details a (decrypt_contact env a.contact_ciphertext (activity_contact_aad a.id)) mask

unfoldable pub contact_with_access : Services → Activity → ℕ → Bool → Result ContactDetails
unfolding plain_contact masked_contact
contact_with_access env a viewer registered =
    if is_over a.status
    then masked_contact env a
    else if not (viewer == 0) && (viewer == a.created_by)
    then plain_contact env a
    else if registered
    then plain_contact env a
    else masked_contact env a

abbrev pub is_some_row : Result ℕ → Result Bool
is_some_row (ok n) = ok (ltb 0 n)
is_some_row (err e) = err e

abbrev pub seen_by : Activity → ℕ → Result Bool → Result Activity
seen_by a viewer (ok registered) =
    if visible_to_viewer a.status a.review_status a.created_by viewer registered
    then ok a
    else err (activity_not_found record_not_found)
seen_by a viewer (err e) = err e

abbrev pub contact_for : Services → Activity → ℕ → Result Bool → Result ContactDetails
contact_for env a viewer (ok registered) = contact_with_access env a viewer registered
contact_for env a viewer (err e) = err e

module _ {S : Type 0} (db : Database S) (env : Services) where
  unfoldable pub get_admin : ℕ → S → Result Activity
  get_admin id s = map_err activity_not_found (db.first_activity id s)

  unfoldable pub is_viewer_registered : ℕ → ℕ → S → Result Bool
  is_viewer_registered viewer activity s =
      if viewer == 0 then ok false else is_some_row (db.count_active activity viewer s)

  abbrev pub shown_to : ℕ → Result Activity → S → Result Activity
  shown_to viewer (ok a) s = seen_by a viewer (is_viewer_registered viewer a.id s)
  shown_to viewer (err e) s = err (activity_not_found e)

  unfoldable pub get_public : ℕ → ℕ → S → Result Activity
  unfolding is_viewer_registered
  get_public id viewer s = shown_to viewer (db.first_activity id s) s

  unfoldable pub contact : Activity → ℕ → S → Result ContactDetails
  unfolding contact_with_access is_viewer_registered
  contact a viewer s =
      if is_over a.status
      then masked_contact env a
      else if not (viewer == 0) && (viewer == a.created_by)
      then plain_contact env a
      else contact_for env a viewer (is_viewer_registered viewer a.id s)
