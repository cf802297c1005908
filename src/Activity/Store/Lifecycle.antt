-- ===== src/Activity/Store/Lifecycle.antt =====
-- infrastructure/store.go: the owner's changes of an activity, and its review.
use backend_demo.Prelude.{ℕ, ◌+◌, Bool, ◌&&◌, not, none, some, ltb, ◌==◌, u64, if◌then◌else◌}
use backend_demo.Platform.Errors.{
  app, Result, ok, err, Tx, ◌>>=◌, ◌>>◌, pure, lift, query, exec, guard, map_err, transaction,
}
use backend_demo.Platform.Text.{Text, codes, is_empty, trim}
use backend_demo.Activity.Entry.{
  Activity, ActivityInput, activity_published, activity_cancelled, activity_finished, review_draft,
  review_pending, review_approved, review_rejected,
}
use backend_demo.Activity.Rule.{
  is_valid, can_edit, can_submit_review, can_approve, can_reject, can_publish, can_cancel,
  can_finish, is_publicly_visible, validate_capacity_update, validate_review_comment,
}
use backend_demo.Activity.Database.{Database}
use backend_demo.Activity.Store.{
  Services, activity_not_found, activity_contact_aad, activity_event, mutate_activity_tx,
}

abbrev pub not_owner : Result Activity
not_owner = err (app 403 "not_activity_owner")

abbrev pub invalid_state : Result Activity
invalid_state = err (app 409 "invalid_activity_state")

-- The assignments of `Update`, but for the contact.
unfoldable pub edited : ℕ → ActivityInput → Activity → Activity
edited actor input a = record a {
  title = trim input.title;
  summary = trim input.summary;
  body = trim input.body;
  location = trim input.location;
  signup_start_at = input.signup_start_at;
  signup_end_at = input.signup_end_at;
  start_at = input.start_at;
  end_at = input.end_at;
  capacity = input.capacity;
  review_status = review_draft;
  review_comment = none;
  updated_by = actor;
  version = u64 (a.version + 1);
}

abbrev with_contact : ActivityInput → Activity → Result Text → Result Activity
with_contact input a (ok ciphertext) =
    ok (record a { contact_type = trim input.contact.kind; contact_ciphertext = ciphertext })
with_contact input a (err e) = err e

unfoldable pub recontact : Services → ActivityInput → Activity → Result Activity
recontact env input a =
    if input.contact.provided
    then with_contact input a (env.encrypt (trim input.contact.value) (activity_contact_aad a.id))
    else ok a

-- What each operation does to the activity that it has found.
unfoldable pub update_change : Services → ℕ → ActivityInput → Activity → Result Activity
unfolding edited recontact
update_change env actor input a =
    if not (a.created_by == actor)
    then not_owner
    else if not (can_edit a.status a.review_status)
    then invalid_state
    else if not (is_valid (validate_capacity_update input.capacity a.registered_count))
    then err (app 400 "capacity_below_registered")
    else recontact env input (edited actor input a)

unfoldable pub submit_change : ℕ → Activity → Result Activity
submit_change actor a =
    if not (a.created_by == actor)
    then not_owner
    else if not (can_submit_review a.status a.review_status)
    then invalid_state
    else ok (record a {
      review_status = review_pending;
      review_comment = none;
      updated_by = actor;
      version = u64 (a.version + 1);
    })

unfoldable pub approved_as : ℕ → Text → Activity → Activity
approved_as actor comment a = record a {
  status = activity_published;
  review_status = review_approved;
  review_comment = (if is_empty comment then none else some comment);
  updated_by = actor;
  version = u64 (a.version + 1);
}

unfoldable pub rejected_as : ℕ → Text → Activity → Activity
rejected_as actor comment a = record a {
  review_status = review_rejected;
  review_comment = some comment;
  updated_by = actor;
  version = u64 (a.version + 1);
}

unfoldable pub review_change : ℕ → Bool → Text → ℕ → Activity → Result Activity
unfolding approved_as rejected_as
review_change actor approved comment now a =
    if approved && not (can_approve a.status a.review_status)
    then invalid_state
    else if not approved && not (can_reject a.status a.review_status)
    then invalid_state
    else if not approved && is_empty comment
    then err (app 400 "review_comment_required")
    else if not (is_valid (validate_review_comment comment))
    then err (app 400 "review_comment_too_long")
    else if approved && not (ltb now a.end_at)
    then err (app 409 "activity_expired")
    else ok (if approved then approved_as actor comment a else rejected_as actor comment a)

unfoldable pub cancel_change : ℕ → Activity → Result Activity
cancel_change actor a =
    if not (a.created_by == actor)
    then not_owner
    else if not (can_cancel a.status)
    then invalid_state
    else ok (record a {
      status = activity_cancelled;
      updated_by = actor;
      version = u64 (a.version + 1);
    })

unfoldable pub finish_change : ℕ → ℕ → Activity → Result Activity
finish_change actor now a =
    if not (a.created_by == actor)
    then not_owner
    else if not (can_finish a.status)
    then invalid_state
    else if ltb now a.end_at
    then err (app 409 "activity_not_ended")
    else ok
        (record a { status = activity_finished; updated_by = actor; version = u64 (a.version + 1) })

unfoldable pub publish_change : ℕ → ℕ → Activity → Result Activity
publish_change actor now a =
    if not (can_publish a.status a.review_status)
    then invalid_state
    else if not (ltb now a.end_at)
    then err (app 409 "activity_expired")
    else ok (record a {
      status = activity_published;
      updated_by = actor;
      version = u64 (a.version + 1);
    })

module _ {S : Type 0} (db : Database S) (env : Services) where
  -- `Publish` once the version and the owner are right: a published activity stays as it is.
  unfoldable pub publish_found : ℕ → ℕ → Activity → Tx S Activity
  unfolding publish_change activity_event
  publish_found actor now a = if is_publicly_visible a.status a.review_status then pure a else (do
    b ← lift (publish_change actor now a)
    exec (db.save_activity b)
    activity_event db env b (codes "activity.published")
    pure b)

  unfoldable pub publish_tx : ℕ → ℕ → ℕ → ℕ → Tx S Activity
  unfolding publish_found
  publish_tx id actor version now = do
    a ← query λ s. map_err activity_not_found (db.first_activity id s)
    lift (guard (a.version == version) (app 409 "version_conflict"))
    lift (guard (a.created_by == actor) (app 403 "not_activity_owner"))
    publish_found actor now a

  unfoldable pub publish : ℕ → ℕ → ℕ → ℕ → S → Result Activity × S
  unfolding publish_tx
  publish id actor version now = transaction (publish_tx id actor version now)

  unfoldable pub update : ℕ → ℕ → ℕ → ActivityInput → S → Result Activity × S
  unfolding mutate_activity_tx update_change
  update id actor version input = transaction (
      mutate_activity_tx db env id version (codes "activity.updated")
        (update_change env actor input))

  unfoldable pub submit_review : ℕ → ℕ → ℕ → S → Result Activity × S
  unfolding mutate_activity_tx submit_change
  submit_review id actor version = transaction (
      mutate_activity_tx db env id version (codes "activity.submitted_for_review")
        (submit_change actor))

  unfoldable pub review : ℕ → ℕ → ℕ → Bool → Text → ℕ → S → Result Activity × S
  unfolding mutate_activity_tx review_change
  review id actor version approved comment now = transaction (
      mutate_activity_tx db env id version
        (if approved then codes "activity.approved" else codes "activity.rejected")
        (review_change actor approved (trim comment) now))

  unfoldable pub cancel : ℕ → ℕ → ℕ → S → Result Activity × S
  unfolding mutate_activity_tx cancel_change
  cancel id actor version =
      transaction
        (mutate_activity_tx db env id version (codes "activity.cancelled") (cancel_change actor))

  unfoldable pub finish : ℕ → ℕ → ℕ → ℕ → S → Result Activity × S
  unfolding mutate_activity_tx finish_change
  finish id actor version now =
      transaction
        (mutate_activity_tx db env id version (codes "activity.finished") (finish_change actor now))
