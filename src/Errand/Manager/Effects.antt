-- ===== src/Errand/Manager/Effects.antt =====
-- Each successful transaction on a task leaves tables that agree, when they did before.
use backend_demo.Prelude.{ℕ, Bool, ◌≡◌, refl, sym, ◌∙◌, ap, subst, Option, some, [], arith}
use backend_demo.Platform.Errors.{
  ok, Runs, pure-Runs, >>-Runs, >>=-Runs, guard-Runs, exec-Runs, lift-Runs,
}
use backend_demo.Platform.Text.{Text, trim}
use backend_demo.Trade.{Order}
use backend_demo.Errand.Task.{Task, TaskInput, task_open}
use backend_demo.Errand.Database.{Database, Lawful, put_task}
use backend_demo.Errand.Store.{Services, new_task, mutable, create_tx}
use backend_demo.Errand.Store.Moderation.{
  edited, redrafted, submitted, reviewed, revoked, recontact, update_tx, submit_review_tx,
  review_tx, revoke_review_tx,
}
use backend_demo.Errand.Store.Linked.{TaskOk}
use backend_demo.Errand.Store.Steps.{Reworded, Reworded-TaskOk}
use backend_demo.Errand.Store.Effects.{mutate_tx-Runs, record_task-Runs, task_event-tables}
use backend_demo.Errand.Store.Consistent.{Consistent, put_task-Consistent}

mutable-open :
    (requester version : ℕ) (t : Task)
    → mutable requester version task_open t ≡ ok tt
    → t.status ≡ task_open
unfolding mutable
mutable-open requester version t passed = ground arith

submitted-Reworded : (t : Task) → t.status ≡ task_open → Reworded t (submitted t)
unfolding submitted
submitted-Reworded t open_ = record {
  open_before = open_;
  open_after = open_;
  same_order = refl;
  same_runner = refl;
}

reviewed-Reworded :
    (admin : ℕ) (approved : Bool) (reason : Text) (now : ℕ) (t : Task)
    → t.status ≡ task_open
    → Reworded t (reviewed admin approved reason now t)
unfolding reviewed
reviewed-Reworded admin approved reason now t open_ = record {
  open_before = open_;
  open_after = open_;
  same_order = refl;
  same_runner = refl;
}

revoked-Reworded :
    (admin : ℕ) (reason : Text) (now : ℕ) (t : Task)
    → t.status ≡ task_open
    → Reworded t (revoked admin reason now t)
unfolding revoked
revoked-Reworded admin reason now t open_ = record {
  open_before = open_;
  open_after = open_;
  same_order = refl;
  same_runner = refl;
}

redrafted-Reworded :
    (env : Services) (input : TaskInput) (t v : Task)
    → t.status ≡ task_open
    → recontact env input (edited input t) ≡ ok v
    → Reworded t (redrafted v)
unfolding recontact edited redrafted
redrafted-Reworded env input t v open_ contact = record {
  open_before = open_;
  open_after = ground arith;
  same_order = ground arith;
  same_runner = ground arith;
}

new_task-TaskOk :
    (orders : ℕ → Option Order) (requester id : ℕ) (input : TaskInput) (ciphertext : Text)
    → TaskOk orders (record (new_task requester input) { id = id; contact_ciphertext = ciphertext })
unfolding new_task
new_task-TaskOk orders requester id input ciphertext = record {
  free = λ _. (refl, refl);
  taken = λ h. cc (h);
  backed = λ _ h. cc (h);
}

module _ {S : Type 0} (db : Database S) (env : Services) (law : Lawful db) where
  -- What holds of the state: its tables agree.
  abbrev pub Sound : S → Type 0
  Sound s = Consistent (db.tables s)

  -- A transaction on an open task that saves a reworded one.
  reword-Sound :
      (id : ℕ) (t u : Task) (s s' : S)
      → (db.tables s).tasks id ≡ some t
      → Reworded t u
      → db.tables s' ≡ put_task u (db.tables s)
      → Sound s
      → Sound s'
  reword-Sound id t u s s' found r put v = subst Consistent (sym put) (
      put_task-Consistent u (db.tables s)
        (Reworded-TaskOk (db.tables s).orders t u r (v.agree.each id t found)) v)

  pub submit_review_tx-Sound :
      (id requester version : ℕ) {s s' : S} {u : Task}
      → Runs (submit_review_tx db env id requester version) s u s'
      → Sound s
      → Sound s'
  unfolding submit_review_tx
  submit_review_tx-Sound id requester version {s} {s'} h v =
      let (t, found, passed, h1) = mutate_tx-Runs db env law id requester version task_open _ h in
      let (_, h2) = guard-Runs _ h1 in
      let (_, put) = record_task-Runs db env law (submitted t) _ h2 in
      reword-Sound id t (submitted t) s s' found
        (submitted-Reworded t (mutable-open requester version t passed)) put v

  pub review_tx-Sound :
      (id admin version : ℕ) (approved : Bool) (reason : Text) (now : ℕ) {s s' : S} {u : Task}
      → Runs (review_tx db env id admin version approved reason now) s u s'
      → Sound s
      → Sound s'
  unfolding review_tx
  review_tx-Sound id admin version approved reason now {s} {s'} h v =
      let (t, found, passed, h1) = mutate_tx-Runs db env law id 0 version task_open _ h in
      let (_, h2) = guard-Runs _ h1 in
      let (_, h3) = guard-Runs _ h2 in
      let (_, put) =
        record_task-Runs db env law (reviewed admin approved (trim reason) now t) _ h3 in
      reword-Sound id t _ s s' found
        (reviewed-Reworded admin approved (trim reason) now t (mutable-open 0 version t passed)) put
        v

  pub revoke_review_tx-Sound :
      (id admin version : ℕ) (reason : Text) (now : ℕ) {s s' : S} {u : Task}
      → Runs (revoke_review_tx db env id admin version reason now) s u s'
      → Sound s
      → Sound s'
  unfolding revoke_review_tx
  revoke_review_tx-Sound id admin version reason now {s} {s'} h v =
      let (t, found, passed, h1) = mutate_tx-Runs db env law id 0 version task_open _ h in
      let (_, h2) = guard-Runs _ h1 in
      let (_, h3) = guard-Runs _ h2 in
      let (_, put) = record_task-Runs db env law (revoked admin (trim reason) now t) _ h3 in
      reword-Sound id t _ s s' found
        (revoked-Reworded admin (trim reason) now t (mutable-open 0 version t passed)) put v

  pub update_tx-Sound :
      (id requester version : ℕ) (input : TaskInput) {s s' : S} {u : Task}
      → Runs (update_tx db env id requester version input) s u s'
      → Sound s
      → Sound s'
  unfolding update_tx
  update_tx-Sound id requester version input {s} {s'} h v =
      let (t, found, passed, h1) = mutate_tx-Runs db env law id requester version task_open _ h in
      let (_, h2) = guard-Runs _ h1 in
      let (w, contact, h3) = lift-Runs h2 in
      let (_, put) = record_task-Runs db env law (redrafted w) _ h3 in
      reword-Sound id t (redrafted w) s s' found
        (redrafted-Reworded env input t w (mutable-open requester version t passed) contact) put v

  pub create_tx-Sound :
      (requester : ℕ) (input : TaskInput) {s s' : S} {u : Task}
      → Runs (create_tx db env requester input) s u s'
      → Sound s
      → Sound s'
  unfolding create_tx
  create_tx-Sound requester input {s} {s'} h v =
      let (t, s1, created, h1) = >>=-Runs h in
      let (ciphertext, _, h2) = lift-Runs h1 in
      let (s2, saved, h3) = exec-Runs h2 in
      let (s3, wrote, h4) = >>-Runs h3 in
      let (_, last) = pure-Runs h4 in
      let (made, _, put) = law.create_task_ok _ t s s1 created.result in
      let t' = record t { contact_ciphertext = ciphertext } in
      let orders = (db.tables s).orders in
      let first =
        put_task-Consistent t (db.tables s)
          (subst (TaskOk orders) (sym made) (new_task-TaskOk orders requester t.id input [])) v in
      let second =
        put_task-Consistent t' (put_task t (db.tables s))
          (subst (λ (x : Task). TaskOk orders (record x { contact_ciphertext = ciphertext }))
            (sym made) (new_task-TaskOk orders requester t.id input ciphertext))
          first in
      subst Consistent
        (sym (
          ap db.tables last
          ∙ task_event-tables db env law t' _ _ wrote
          ∙ law.save_task_ok t' s1 s2 saved.result
          ∙ ap (put_task t') put))
        second
