-- ===== src/Errand/Manager/Kept.antt =====
-- A task that has ended keeps its row under every transaction of the store.
use backend_demo.Prelude.{
  ℕ, Bool, true, false, ◌≡◌, refl, ◌∙◌, ap, inl, inr, Option, some, ◌==◌, ==_iff, Bool-cases, arith,
}
use backend_demo.Platform.Errors.{
  ok, Result, Runs, pure-Runs, >>-Runs, >>=-Runs, guard-Runs, exec-Runs, lift-Runs,
}
use backend_demo.Platform.Text.{Text, trim}
use backend_demo.Trade.{Order}
use backend_demo.Errand.Task.{Task, TaskInput, TaskStatus, task_open, is_ended}
use backend_demo.Errand.Database.{Database, Lawful, Tables, put_task}
use backend_demo.Errand.Store.{Services, create_tx}
use backend_demo.Errand.Store.Moderation.{
  edited, redrafted, submitted, reviewed, revoked, recontact, update_tx, submit_review_tx,
  review_tx, revoke_review_tx,
}
use backend_demo.Errand.Store.Lifecycle.{acceptable, accepted, advanced, runner_tx, accept_tx}
use backend_demo.Errand.Store.Finish.{Outcome, finished, finish_tx}
use backend_demo.Errand.Store.Effects.{
  mutate_tx-Runs, record_task-Runs, move_task-Runs, task_event-tables,
}
use backend_demo.Errand.Store.Outcomes.{accept_tx-Runs, finish_tx-Runs}
use backend_demo.Errand.Store.Consistent.{finished-id}
use backend_demo.Errand.Store.Final.{mutable-ended, finishable-ended, Finished-tasks}

acceptable-ended :
    (runner version now : ℕ) (t : Task)
    → acceptable runner version now t ≡ ok tt
    → is_ended t.status ≡ false
unfolding acceptable
acceptable-ended runner version now t passed = ground arith

redrafted_id :
    (env : Services) (input : TaskInput) (t v : Task)
    → recontact env input (edited input t) ≡ ok v
    → (redrafted v).id ≡ t.id
unfolding recontact edited redrafted
redrafted_id env input t v contact = ground arith

advanced_id : (to : TaskStatus) (now : ℕ) (t : Task) → (advanced to now t).id ≡ t.id
unfolding advanced
advanced_id to now t = ground arith

same_ids : Unit {0}
unfolding submitted reviewed revoked accepted
same_ids = tt

module _ {S : Type 0} (db : Database S) (env : Services) (law : Lawful db) (id : ℕ) (t : Task)
    (over : is_ended t.status ≡ true) where
  -- The row of the ended task.
  abbrev pub Kept : S → Type 0
  Kept s = (db.tables s).tasks id ≡ some t

  -- A transaction that saves the row of a task which had not ended.
  put-Kept :
      (n : ℕ) (old new : Task) (s s' : S)
      → (db.tables s).tasks n ≡ some old
      → is_ended old.status ≡ false
      → new.id ≡ old.id
      → (db.tables s').tasks ≡ (put_task new (db.tables s)).tasks
      → Kept s
      → Kept s'
  put-Kept n old new s s' found live same put kept = elim (Bool-cases (id == new.id)) [
    | inl here ↦
        let number : id ≡ n = (==_iff id new.id).0 here ∙ same ∙ law.keyed s n old found in
        let own : old ≡ t = cc (number, found, kept) in absurd (cc (own, live, over))
    | inr other ↦ ap (λ f. f id) put ∙ rw other kept
  ]

  pub submit_review_tx-Kept :
      (n requester version : ℕ) {s s' : S} {u : Task}
      → Runs (submit_review_tx db env n requester version) s u s'
      → Kept s
      → Kept s'
  unfolding submit_review_tx same_ids
  submit_review_tx-Kept n requester version {s} {s'} h kept =
      let (old, found, passed, h1) = mutate_tx-Runs db env law n requester version task_open _ h in
      let (_, h2) = guard-Runs _ h1 in
      let (_, put) = record_task-Runs db env law (submitted old) _ h2 in
      put-Kept n old (submitted old) s s' found
        (mutable-ended requester version task_open old passed) refl
        (ap (λ (tb : Tables). tb.tasks) put) kept

  pub review_tx-Kept :
      (n admin version : ℕ) (approved : Bool) (reason : Text) (now : ℕ) {s s' : S} {u : Task}
      → Runs (review_tx db env n admin version approved reason now) s u s'
      → Kept s
      → Kept s'
  unfolding review_tx same_ids
  review_tx-Kept n admin version approved reason now {s} {s'} h kept =
      let (old, found, passed, h1) = mutate_tx-Runs db env law n 0 version task_open _ h in
      let (_, h2) = guard-Runs _ h1 in
      let (_, h3) = guard-Runs _ h2 in
      let new = reviewed admin approved (trim reason) now old in
      let (_, put) = record_task-Runs db env law new _ h3 in
      put-Kept n old new s s' found (mutable-ended 0 version task_open old passed) refl
        (ap (λ (tb : Tables). tb.tasks) put) kept

  pub revoke_review_tx-Kept :
      (n admin version : ℕ) (reason : Text) (now : ℕ) {s s' : S} {u : Task}
      → Runs (revoke_review_tx db env n admin version reason now) s u s'
      → Kept s
      → Kept s'
  unfolding revoke_review_tx same_ids
  revoke_review_tx-Kept n admin version reason now {s} {s'} h kept =
      let (old, found, passed, h1) = mutate_tx-Runs db env law n 0 version task_open _ h in
      let (_, h2) = guard-Runs _ h1 in
      let (_, h3) = guard-Runs _ h2 in
      let new = revoked admin (trim reason) now old in
      let (_, put) = record_task-Runs db env law new _ h3 in
      put-Kept n old new s s' found (mutable-ended 0 version task_open old passed) refl
        (ap (λ (tb : Tables). tb.tasks) put) kept

  pub update_tx-Kept :
      (n requester version : ℕ) (input : TaskInput) {s s' : S} {u : Task}
      → Runs (update_tx db env n requester version input) s u s'
      → Kept s
      → Kept s'
  unfolding update_tx
  update_tx-Kept n requester version input {s} {s'} h kept =
      let (old, found, passed, h1) = mutate_tx-Runs db env law n requester version task_open _ h in
      let (_, h2) = guard-Runs _ h1 in
      let (w, contact, h3) = lift-Runs h2 in
      let (_, put) = record_task-Runs db env law (redrafted w) _ h3 in
      put-Kept n old (redrafted w) s s' found (mutable-ended requester version task_open old passed)
        (redrafted_id env input old w contact) (ap (λ (tb : Tables). tb.tasks) put) kept

  pub runner_tx-Kept :
      (n runner version : ℕ) (from to : TaskStatus) (now : ℕ) (word : Text) {s s' : S} {u : Task}
      → is_ended from ≡ false
      → Runs (runner_tx db env n runner version from to now word) s u s'
      → Kept s
      → Kept s'
  unfolding runner_tx
  runner_tx-Kept n runner version from to now word {s} {s'} live h kept =
      let (old, found, passed, h1) = mutate_tx-Runs db env law n 0 version from _ h in
      let (_, h2) = guard-Runs _ h1 in
      let (x, _, _, put) = move_task-Runs db env law (advanced to now old) from runner word h2 in
      put-Kept n old (advanced to now old) s s' found
        (mutable-ended 0 version from old passed ∙ live) (advanced_id to now old)
        (ap (λ (tb : Tables). tb.tasks) put) kept

  pub accept_tx-Kept :
      (n runner version : ℕ) (key : Text) (now : ℕ) (fresh_no : Result Text) {s s' : S}
      {u : Task × Order}
      → Runs (accept_tx db env n runner version key now fresh_no) s u s'
      → Kept s
      → Kept s'
  unfolding same_ids
  accept_tx-Kept n runner version key now fresh_no {s} {s'} {u} h kept =
      let (old, found, outcome) = accept_tx-Runs db env law n runner version key now fresh_no h in
      elim outcome [
        | inl (_, _, same) ↦ ap (λ x. (db.tables x).tasks id) same ∙ kept
        | inr a ↦
            put-Kept n old u.0 s s' found (acceptable-ended runner version now old a.passed)
              (ap (λ (x : Task). x.id) a.result) (ap (λ (tb : Tables). tb.tasks) a.put) kept
      ]

  pub finish_tx-Kept :
      (outcome : Outcome) (n actor version now : ℕ) {s s' : S} {u : Task × Option Order}
      → Runs (finish_tx db env outcome n actor version now) s u s'
      → Kept s
      → Kept s'
  finish_tx-Kept outcome n actor version now {s} {s'} {u} h kept =
      let (old, found, f) = finish_tx-Runs db env law outcome n actor version now h in
      put-Kept n old (finished outcome now old) s s' found
        (finishable-ended outcome actor version old f.passed) (finished-id outcome now old)
        (Finished-tasks db env law outcome actor version now old u.0 s s' f) kept

  pub create_tx-Kept :
      (requester : ℕ) (input : TaskInput) {s s' : S} {u : Task}
      → Runs (create_tx db env requester input) s u s'
      → Kept s
      → Kept s'
  unfolding create_tx
  create_tx-Kept requester input {s} {s'} h kept =
      let (v, s1, created, h1) = >>=-Runs h in
      let (ciphertext, _, h2) = lift-Runs h1 in
      let (s2, saved, h3) = exec-Runs h2 in
      let (s3, wrote, h4) = >>-Runs h3 in
      let (_, last) = pure-Runs h4 in
      let (_, unused, put) = law.create_task_ok _ v s s1 created.result in
      let v' = record v { contact_ciphertext = ciphertext } in
      elim (Bool-cases (id == v.id)) [
        | inl here ↦ cc ((==_iff id v.id).0 here, unused, kept)
        | inr other ↦
            ap (λ x. (db.tables x).tasks id) last
            ∙ ap (λ (tb : Tables). tb.tasks id) (task_event-tables db env law v' _ _ wrote)
            ∙ ap (λ (tb : Tables). tb.tasks id) (law.save_task_ok v' s1 s2 saved.result)
            ∙ rw other (ap (λ (tb : Tables). tb.tasks id) put ∙ rw other kept)
      ]
