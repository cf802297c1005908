-- ===== src/Errand/Contact.antt =====
-- infrastructure/store.go: `Contact`, which shows the contact of a task to its parties, and a mask
-- to all others.
use backend_demo.Prelude.{
  ℕ, Bool, true, false, ◌&&◌, ◌||◌, not, ◌≡◌, ◌⊎◌, ◌==◌, arith, if◌then◌else◌,
}
use backend_demo.Platform.Errors.{Result, ok, err}
use backend_demo.Platform.Text.{Text, is_empty}
use backend_demo.Platform.Privacy.{mask_contact}
use backend_demo.Errand.Task.{Task, is_ended, is_running}
use backend_demo.Errand.Rule.{is_runner}
use backend_demo.Errand.Store.{Services, task_contact_aad}

pub record ContactDetails : Type 0 where
  pub kind : Text
  pub value : Text

-- `decryptContact`, with the cipher configured.
unfoldable pub decrypt_contact : Services → Text → Text → Result Text
decrypt_contact env ciphertext aad =
    if is_empty ciphertext then ok ciphertext else env.decrypt ciphertext aad

unfoldable pub may_read : Task → ℕ → Bool
may_read task viewer =
    not (is_ended task.status)
    && ((viewer == task.requester_id)
        || (is_runner task.runner_id viewer && is_running task.status))

unfoldable pub shown : Task → ℕ → Text → Text
unfolding may_read
shown task viewer value =
    if is_empty value then value else if may_read task viewer then value else mask_contact value

unfoldable pub contact : Services → Task → ℕ → Result ContactDetails
unfolding decrypt_contact shown
contact env task viewer =
    elim (decrypt_contact env task.contact_ciphertext (task_contact_aad task.id)) [
      | err e ↦ err e
      | ok value ↦ ok (record { kind = task.contact_type; value = shown task viewer value })
    ]

private_ :
    (env : Services) (task : Task) (viewer : ℕ) (value : Text) {details : ContactDetails}
    → decrypt_contact env task.contact_ciphertext (task_contact_aad task.id) ≡ ok value
    → contact env task viewer ≡ ok details
    → details.value ≡ shown task viewer value
unfolding contact
private_ env task viewer value h shown_ = ground (arith, h, shown_)

-- What a viewer gets of a contact is its mask, unless the task has not ended and the viewer is its
-- requester, or its runner while the task is under way, or there is nothing to hide.
pub contact-private :
    (env : Services) (task : Task) (viewer : ℕ) (value : Text) {details : ContactDetails}
    → decrypt_contact env task.contact_ciphertext (task_contact_aad task.id) ≡ ok value
    → contact env task viewer ≡ ok details
    → (details.value ≡ mask_contact value)
      ⊎ ((is_ended task.status ≡ false) × (task.requester_id ≡ viewer))
      ⊎ ((is_running task.status ≡ true) × (is_runner task.runner_id viewer ≡ true))
      ⊎ (is_empty value ≡ true)
unfolding shown
contact-private env task viewer value h read = ground (arith, private_ env task viewer value h read)
