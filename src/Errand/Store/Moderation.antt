-- ===== src/Errand/Store/Moderation.antt =====
-- infrastructure/store.go: the publisher's changes to an open task, and its review.
use backend_demo.Prelude.{ℕ, ◌+◌, Bool, ◌||◌, not, none, some, u64, if◌then◌else◌}
use backend_demo.Platform.Errors.{
  app, Result, ok, err, Tx, ◌>>=◌, ◌>>◌, pure, lift, exec, guard, transaction,
}
use backend_demo.Platform.Text.{Text, codes, is_empty, trim}
use backend_demo.Errand.Task.{
  Task, TaskInput, task_open, review_pending, review_approved, review_rejected, review_draft,
  is_pending, is_approved, is_rejected, is_draft,
}
use backend_demo.Errand.Rule.{can_edit}
use backend_demo.Errand.Database.{Database}
use backend_demo.Errand.Store.{Services, task_contact_aad, task_event, key_of, mutate_tx}

-- The assignments to the task, by the operation that makes them.
unfoldable pub edited : TaskInput → Task → Task
edited input t = record t {
  title = trim input.title;
  description = trim input.description;
  reward_cents = input.reward_cents;
  pickup_location = trim input.pickup_location;
  dropoff_location = trim input.dropoff_location;
  deadline = input.deadline;
  version = u64 (t.version + 1);
}

unfoldable pub redrafted : Task → Task
redrafted t = record t {
  review_status = review_draft;
  review_reason = none;
  reviewed_by = none;
  reviewed_at = none;
}

unfoldable pub submitted : Task → Task
submitted t = record t {
  review_status = review_pending;
  review_reason = none;
  reviewed_by = none;
  reviewed_at = none;
  version = u64 (t.version + 1);
}

unfoldable pub reviewed : ℕ → Bool → Text → ℕ → Task → Task
reviewed admin approved reason now t = record t {
  review_status = (if approved then review_approved else review_rejected);
  review_reason = (if approved then none else some reason);
  reviewed_by = some admin;
  reviewed_at = some now;
  version = u64 (t.version + 1);
}

unfoldable pub revoked : ℕ → Text → ℕ → Task → Task
revoked admin reason now t = record t {
  review_status = review_pending;
  review_reason = some reason;
  reviewed_by = some admin;
  reviewed_at = some now;
  version = u64 (t.version + 1);
}

-- The contact is encrypted anew where the input has one.
unfoldable pub recontact : Services → TaskInput → Task → Result Task
recontact env input t =
    if input.contact.provided
    then elim (env.encrypt (trim input.contact.value) (task_contact_aad t.id)) [
      | ok ciphertext ↦
          ok (record t { contact_type = trim input.contact.kind; contact_ciphertext = ciphertext })
      | err e ↦ err e
    ]
    else ok t

module _ {S : Type 0} (db : Database S) (env : Services) where
  -- `tx.Save(task)` and the event, the end of these transactions.
  unfoldable pub record_task : Task → Text → Tx S Task
  record_task task kind = do
    exec (db.save_task task)
    task_event db env task kind (key_of kind task.id task.version)
    pure task

  unfoldable pub update_tx : ℕ → ℕ → ℕ → TaskInput → Tx S Task
  unfolding mutate_tx edited redrafted recontact record_task
  update_tx id requester version input = mutate_tx db id requester version task_open λ task. do
    lift (guard (can_edit task.status task.review_status) (app 409 "invalid_errand_review_state"))
    changed ← lift (recontact env input (edited input task))
    record_task (redrafted changed) (codes "errand.updated")

  unfoldable pub submit_review_tx : ℕ → ℕ → ℕ → Tx S Task
  unfolding mutate_tx submitted record_task
  submit_review_tx id requester version = mutate_tx db id requester version task_open λ task. do
    lift (
        guard (is_draft task.review_status || is_rejected task.review_status)
          (app 409 "invalid_errand_review_state"))
    record_task (submitted task) (codes "errand.review_submitted")

  unfoldable pub review_tx : ℕ → ℕ → ℕ → Bool → Text → ℕ → Tx S Task
  unfolding mutate_tx reviewed record_task
  review_tx id admin version approved reason now = mutate_tx db id 0 version task_open λ task. do
    lift (guard (is_pending task.review_status) (app 409 "invalid_errand_review_state"))
    lift (guard (approved || not (is_empty (trim reason))) (app 400 "rejection_reason_required"))
    record_task (reviewed admin approved (trim reason) now task) (codes "errand.reviewed")

  unfoldable pub revoke_review_tx : ℕ → ℕ → ℕ → Text → ℕ → Tx S Task
  unfolding mutate_tx revoked record_task
  revoke_review_tx id admin version reason now = mutate_tx db id 0 version task_open λ task. do
    lift (guard (not (is_empty (trim reason))) (app 400 "revoke_reason_required"))
    lift (guard (is_approved task.review_status) (app 409 "invalid_errand_review_state"))
    record_task (revoked admin (trim reason) now task) (codes "errand.review_revoked")

module _ {S : Type 0} (db : Database S) (env : Services) where
  unfoldable pub update : ℕ → ℕ → ℕ → TaskInput → S → Result Task × S
  unfolding update_tx
  update id requester version input = transaction (update_tx db env id requester version input)

  unfoldable pub submit_review : ℕ → ℕ → ℕ → S → Result Task × S
  unfolding submit_review_tx
  submit_review id requester version = transaction (submit_review_tx db env id requester version)

  unfoldable pub review : ℕ → ℕ → ℕ → Bool → Text → ℕ → S → Result Task × S
  unfolding review_tx
  review id admin version approved reason now =
      transaction (review_tx db env id admin version approved reason now)

  unfoldable pub revoke_review : ℕ → ℕ → ℕ → Text → ℕ → S → Result Task × S
  unfolding revoke_review_tx
  revoke_review id admin version reason now =
      transaction (revoke_review_tx db env id admin version reason now)
