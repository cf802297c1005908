-- ===== src/Errand/Store/Final.antt =====
-- A task that was completed or cancelled stays as it is.
use backend_demo.Prelude.{ℕ, true, false, ◌≡◌, refl, ◌∙◌, ap, inl, inr, Option, some, arith}
use backend_demo.Platform.Errors.{ok, Tx, Runs}
use backend_demo.Trade.{Order}
use backend_demo.Errand.Task.{Task, TaskStatus, is_ended}
use backend_demo.Errand.Database.{Database, Lawful, Tables, put_task}
use backend_demo.Errand.Store.{Services, mutable, mutate_tx}
use backend_demo.Errand.Store.Finish.{Outcome, finishable, finished, finish_tx}
use backend_demo.Errand.Store.Effects.{mutate_tx-Runs}
use backend_demo.Errand.Store.Outcomes.{Finished, finish_tx-Runs}

pub finished-ended :
    (outcome : Outcome) (now : ℕ) (t : Task) → is_ended (finished outcome now t).status ≡ true
unfolding finished
finished-ended Outcome.completes now t = refl
finished-ended Outcome.cancels now t = refl

pub mutable-ended :
    (requester version : ℕ) (status : TaskStatus) (t : Task)
    → mutable requester version status t ≡ ok tt
    → is_ended t.status ≡ is_ended status
unfolding mutable
mutable-ended requester version status t passed = ground arith

pub finishable-ended :
    (outcome : Outcome) (actor version : ℕ) (t : Task)
    → finishable outcome actor version t ≡ ok tt
    → is_ended t.status ≡ false
unfolding finishable
finishable-ended Outcome.completes actor version t passed = ground arith
finishable-ended Outcome.cancels actor version t passed = ground arith

module _ {S : Type 0} (db : Database S) (env : Services) (law : Lawful db) where
  -- The rows of the tasks after the end of one.
  pub Finished-tasks :
      (outcome : Outcome) (actor version now : ℕ) (t u : Task) (s s' : S)
      → Finished db env law outcome actor version now t s u s'
      → (db.tables s').tasks ≡ (put_task (finished outcome now t) (db.tables s)).tasks
  Finished-tasks outcome actor version now t u s s' f =
      let saved = ap (λ (tb : Tables). tb.tasks) f.between_put in
      let after : (db.tables f.after).tasks ≡ (db.tables f.between).tasks = elim f.order [
        | inl (_, still) ↦ ap (λ x. (db.tables x).tasks) still
        | inr (_, _, c) ↦ ap (λ (tb : Tables). tb.tasks) c.put
      ] in
      ap (λ (tb : Tables). tb.tasks) f.put ∙ after ∙ saved

  -- A task that has ended passes no check of a change.
  pub mutate_tx-ended :
      (id requester version : ℕ) (status : TaskStatus) (change : Task → Tx S Task) {s : S}
      {t u : Task} {s' : S}
      → (db.tables s).tasks id ≡ some t
      → is_ended t.status ≡ true
      → is_ended status ≡ false
      → ¬ Runs (mutate_tx db id requester version status change) s u s'
  mutate_tx-ended id requester version status change there over live h =
      let (t, found, passed, _) = mutate_tx-Runs db env law id requester version status change h in
      cc (found, there, mutable-ended requester version status t passed, live, over)

  pub finish_tx-ended :
      (outcome : Outcome) (id actor version now : ℕ) {s : S} {t : Task} {u : Task × Option Order}
      {s' : S}
      → (db.tables s).tasks id ≡ some t
      → is_ended t.status ≡ true
      → ¬ Runs (finish_tx db env outcome id actor version now) s u s'
  finish_tx-ended outcome id actor version now there over h =
      let (t, found, f) = finish_tx-Runs db env law outcome id actor version now h in
      cc (found, there, finishable-ended outcome actor version t f.passed, over)
