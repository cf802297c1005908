-- ===== src/Activity/Manager/History.antt =====
-- The places add up after every history of calls on the manager.
use backend_demo.Prelude.{
  ap, ℕ, Bool, true, false, ◌≡◌, refl, sym, subst, ◌∙◌, some, List, [], ◌∷◌, inl, inr, arith,
  if◌then◌else◌,
}
use backend_demo.Platform.Errors.{
  Error, Result, ok, err, transaction, transaction-Runs, transaction_keeps,
}
use backend_demo.Platform.Text.{Text, trim, is_empty, codes}
use backend_demo.Activity.Entry.{Activity, ActivityInput}
use backend_demo.Activity.Rule.{
  Verdict, valid, invalid, validate_activity_input, validate_capacity_update, can_edit,
}
use backend_demo.Activity.Database.{Database, Lawful, put_activity, registered}
use backend_demo.Activity.Store as Store
use backend_demo.Activity.Store.{Services, mutate_activity_tx, create_tx, new_activity}
use backend_demo.Activity.Store.Lifecycle as Lifecycle
use backend_demo.Activity.Store.Lifecycle.{
  update_change, submit_change, review_change, cancel_change, finish_change, publish_change,
  publish_tx, edited, recontact, approved_as, rejected_as,
}
use backend_demo.Activity.Store.Effects.{mutate_activity_tx-Runs, create_tx-Runs, publish_tx-Runs}
use backend_demo.Activity.Store.Capacity.{CapacityOk, AllCapacityOk, put_activity-AllCapacityOk}
use backend_demo.Activity.Manager.{if_valid, create, update, approve, reject}
use backend_demo.Activity.Manager.Calls.{
  Call, creates, updates, submits, publishes, cancels, finishes, withdraws, approves, rejects,
  registers, perform, history,
}
use backend_demo.Activity.Manager.Places.{
  Sound, rewrite-Sound, register-Sound, cancel_registration-Sound,
}

-- A change that keeps the activity's number, and its places in order.
record Keeps (change : Activity → Result Activity) : Type 0 where
  own : (a u : Activity) → change a ≡ ok u → u.id ≡ a.id
  fits : (a u : Activity) (n : ℕ) → change a ≡ ok u → CapacityOk a n → CapacityOk u n

update_change-Keeps :
    (env : Services) (actor : ℕ) (input : ActivityInput) → Keeps (update_change env actor input)
unfolding update_change validate_capacity_update recontact edited can_edit
update_change-Keeps env actor input = record {
  own = λ a u h. ground arith;
  fits = λ a u n h v. ground arith;
}

submit_change-Keeps : (actor : ℕ) → Keeps (submit_change actor)
unfolding submit_change
submit_change-Keeps actor = record { own = λ a u h. ground arith; fits = λ a u n h v. ground arith }

review_change-Keeps :
    (actor : ℕ) (approved : Bool) (comment : Text) (now : ℕ)
    → Keeps (review_change actor approved comment now)
unfolding review_change approved_as rejected_as
review_change-Keeps actor approved comment now = record {
  own = λ a u h. ground arith;
  fits = λ a u n h v. ground arith;
}

cancel_change-Keeps : (actor : ℕ) → Keeps (cancel_change actor)
unfolding cancel_change
cancel_change-Keeps actor = record { own = λ a u h. ground arith; fits = λ a u n h v. ground arith }

finish_change-Keeps : (actor now : ℕ) → Keeps (finish_change actor now)
unfolding finish_change
finish_change-Keeps actor now = record {
  own = λ a u h. ground arith;
  fits = λ a u n h v. ground arith;
}

publish_change-Keeps : (actor now : ℕ) → Keeps (publish_change actor now)
unfolding publish_change
publish_change-Keeps actor now = record {
  own = λ a u h. ground arith;
  fits = λ a u n h v. ground arith;
}

new_activity-CapacityOk :
    (actor id now : ℕ) (input : ActivityInput) (ciphertext : Text)
    → validate_activity_input input true now ≡ valid
    → CapacityOk (record (new_activity actor input) { id = id; contact_ciphertext = ciphertext }) 0
      × CapacityOk (record (new_activity actor input) { id = id }) 0
unfolding new_activity validate_activity_input
new_activity-CapacityOk actor id now input ciphertext v = ground arith

module _ {S : Type 0} (db : Database S) (env : Services) (law : Lawful db) where
  mutate-Sound :
      (id version : ℕ) (kind : Text) (change : Activity → Result Activity) (s : S)
      → Keeps change
      → Sound db env law s
      → Sound db env law (transaction (mutate_activity_tx db env id version kind change) s).1
  mutate-Sound id version kind change s k all = transaction_keeps (Sound db env law) _ s all λ u h.
      let (a, found, _, changed, put) =
        mutate_activity_tx-Runs db env law id version kind change (transaction-Runs _ s h) in
      rewrite-Sound db env law id a u s _ all found (k.own a u changed) (λ n. k.fits a u n changed)
        put

  publish-Sound :
      (id actor version now : ℕ) (s : S)
      → Sound db env law s
      → Sound db env law (Lifecycle.publish db env id actor version now s).1
  unfolding Lifecycle.publish
  publish-Sound id actor version now s all = transaction_keeps (Sound db env law) _ s all λ u h.
      let (a, found, _, _, outcome) =
        publish_tx-Runs db env law id actor version now (transaction-Runs _ s h) in
      let k = publish_change-Keeps actor now in
      elim outcome [
        | inl (_, _, same) ↦ subst (Sound db env law) (sym same) all
        | inr (changed, put) ↦
            rewrite-Sound db env law id a u s _ all found (k.own a u changed)
              (λ n. k.fits a u n changed) put
      ]

  create-Sound :
      (actor : ℕ) (input : ActivityInput) (now : ℕ) (s : S)
      → validate_activity_input input true now ≡ valid
      → Sound db env law s
      → Sound db env law (Store.create db env actor input s).1
  unfolding Store.create
  create-Sound actor input now s v all = transaction_keeps (Sound db env law) _ s all λ u h.
      let (b, ciphertext, made, alone, result, put) =
        create_tx-Runs db env law actor input (transaction-Runs _ s h) in
      let (sealed, blank) = new_activity-CapacityOk actor b.id now input ciphertext v in
      let tb = db.tables s in
      let c = record (new_activity actor input) { id = b.id; contact_ciphertext = ciphertext } in
      let same : u ≡ c =
        result ∙ ap (λ (x : Activity). record x { contact_ciphertext = ciphertext }) made in
      let first : CapacityOk b 0 = subst (λ x. CapacityOk x 0) (sym made) blank in
      subst AllCapacityOk (sym put) (
        put_activity-AllCapacityOk (put_activity b tb) u
          (put_activity-AllCapacityOk tb b all (subst (CapacityOk b) (sym alone) first))
          (subst (λ x. CapacityOk x (registered x.id tb.registrations)) (sym same)
            (subst (CapacityOk c) (sym alone) sealed)))

  if_valid-Sound :
      (verdict : Verdict) (m : S → Result Activity × S) (s : S)
      → Sound db env law s
      → (verdict ≡ valid → Sound db env law (m s).1)
      → Sound db env law (if_valid verdict m s).1
  if_valid-Sound valid m s all kept = kept refl
  if_valid-Sound (invalid reason) m s all kept = all

  review-Sound :
      (id actor version : ℕ) (approved : Bool) (comment : Text) (now : ℕ) (s : S)
      → Sound db env law s
      → Sound db env law (Lifecycle.review db env id actor version approved comment now s).1
  unfolding Lifecycle.review
  review-Sound id actor version approved comment now s all =
      mutate-Sound id version _ _ s (review_change-Keeps actor approved (trim comment) now) all

  reject-Sound :
      (b : Bool) (e : Error) (m : S → Result Activity × S) (s : S)
      → Sound db env law s
      → Sound db env law (m s).1
      → Sound db env law (if b then (err e, s) else m s).1
  reject-Sound true e m s all kept = all
  reject-Sound false e m s all kept = kept

  -- One call, at any time and with any arguments, keeps the places of every activity in order.
  perform-Sound :
      (now : ℕ) (call : Call) (s : S)
      → Sound db env law s
      → Sound db env law (perform db env now call s)
  unfolding perform create update approve reject Lifecycle.update Lifecycle.submit_review
      Lifecycle.cancel Lifecycle.finish
  perform-Sound now (creates actor input) s all =
      if_valid-Sound _ _ s all (λ v. create-Sound actor input now s v all)
  perform-Sound now (updates id actor version input) s all =
      if_valid-Sound _ (Lifecycle.update db env id actor version input) s all (λ v.
        mutate-Sound id version (codes "activity.updated") _ s (update_change-Keeps env actor input)
          all)
  perform-Sound now (submits id actor version) s all =
      mutate-Sound id version _ _ s (submit_change-Keeps actor) all
  perform-Sound now (publishes id actor version) s all = publish-Sound id actor version now s all
  perform-Sound now (cancels id actor version) s all =
      mutate-Sound id version _ _ s (cancel_change-Keeps actor) all
  perform-Sound now (finishes id actor version) s all =
      mutate-Sound id version _ _ s (finish_change-Keeps actor now) all
  perform-Sound now (approves id actor version comment) s all =
      review-Sound id actor version true comment now s all
  perform-Sound now (rejects id actor version comment) s all =
      reject-Sound (is_empty (trim comment)) _
        (Lifecycle.review db env id actor version false comment 0) s all
        (review-Sound id actor version false comment 0 s all)
  perform-Sound now (registers id user key) s all = register-Sound db env law id user key now s all
  perform-Sound now (withdraws id user version) s all =
      cancel_registration-Sound db env law id user version now s all

  history-Sound :
      (calls : List (ℕ × Call)) (s : S)
      → AllCapacityOk (db.tables s)
      → AllCapacityOk (db.tables (history db env calls s))
  unfolding history
  history-Sound [] s all = all
  history-Sound ((now, call) ∷ calls) s all =
      history-Sound calls (perform db env now call s) (perform-Sound now call s all)

  -- After every history of calls on a database in which the places of every activity add up, they
  -- add up: an activity's counter is the number of its active registrations, which is at most its
  -- capacity, and a draft has no active registration.
  pub history-CapacityOk :
      (calls : List (ℕ × Call)) (s : S)
      → AllCapacityOk (db.tables s)
      → (id : ℕ) (a : Activity) → (db.tables (history db env calls s)).activities id ≡ some a
      → CapacityOk a (registered id (db.tables (history db env calls s)).registrations)
  history-CapacityOk calls s all = history-Sound calls s all
