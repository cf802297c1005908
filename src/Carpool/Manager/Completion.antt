-- ===== src/Carpool/Manager/Completion.antt =====
-- `CompleteDue` ends the trips that have departed.
use backend_demo.Prelude.{
  ℕ, suc, ◌<◌, ◌≡◌, refl, sym, ap, subst, Bool, true, false, Option, none, some, List, [], ◌∷◌,
  length, ◌==◌, ==_refl, ==_iff, Bool-cases, any, inl, inr, arith,
}
use backend_demo.Platform.Errors.{Error, Result, ok, err, transaction-Runs, transaction_keeps}
use backend_demo.Platform.Events.{Host}
use backend_demo.Carpool.Trip.{Trip, trip_completed}
use backend_demo.Carpool.Database.{Database, Lawful, Tables, put_trip, is_due}
use backend_demo.Carpool.Store.{Cipher, TripPayload, ended}
use backend_demo.Carpool.Store.Seats.{
  complete_one, complete_rows, complete_due, after_round, with_rows,
}
use backend_demo.Carpool.Store.Effects.{complete_one_tx-Runs}

-- The trip, if there is one, is no longer due.
abbrev pub Settled : ℕ → ℕ → Tables → Type 0
Settled now id tb = (t : Trip) → tb.trips id ≡ some t → is_due now t ≡ false

put_ended-Settled :
    (now id : ℕ) (t : Trip) (tb : Tables)
    → Settled now id tb
    → Settled now id (put_trip (ended trip_completed t) tb)
unfolding ended
put_ended-Settled now id t tb done u h = ground (arith, done u)

put_ended_self :
    (now id : ℕ) (t : Trip) (tb : Tables)
    → t.id ≡ id
    → Settled now id (put_trip (ended trip_completed t) tb)
unfolding ended
put_ended_self now id t tb e u h = ground (arith, ==_refl id)

not_due :
    (now id : ℕ) (t : Trip) (tb : Tables)
    → tb.trips id ≡ some t
    → is_due now t ≡ false
    → Settled now id tb
not_due now id t tb found early u h = ground arith

-- Every element has the property.
abbrev pub All : (Trip → Type 0) → List Trip → Type 0
All P [] = Unit {0}
All P (t ∷ ts) = P t × All P ts

module _ {S : Type 0} (db : Database S) (host : Host TripPayload) (cipher : Cipher)
    (law : Lawful db) where
  complete_one_keeps :
      (now j id : ℕ) (s : S)
      → Settled now j (db.tables s)
      → Settled now j (db.tables (complete_one db host cipher now id s).1)
  unfolding complete_one
  complete_one_keeps now j id s done =
      transaction_keeps (λ s. Settled now j (db.tables s)) _ s done
        λ b h.
          let (t, found, outcome) =
            complete_one_tx-Runs db host cipher law now id (transaction-Runs _ s h) in
          elim outcome [
            | inl (_, _, same) ↦ subst (λ s. Settled now j (db.tables s)) (sym same) done
            | inr (_, _, put) ↦
                subst (Settled now j) (sym put) (put_ended-Settled now j t (db.tables s) done)
          ]

  complete_one_ends :
      (now id : ℕ) (s : S) {b : Bool}
      → (complete_one db host cipher now id s).0 ≡ ok b
      → Settled now id (db.tables (complete_one db host cipher now id s).1)
  unfolding complete_one
  complete_one_ends now id s h =
      let (t, found, outcome) =
        complete_one_tx-Runs db host cipher law now id (transaction-Runs _ s h) in
      elim outcome [
        | inl (_, early, same) ↦
            subst (λ s. Settled now id (db.tables s)) (sym same)
              (not_due now id t (db.tables s) found early)
        | inr (_, _, put) ↦
            subst (Settled now id) (sym put)
              (put_ended_self now id t (db.tables s) (law.keyed s id t found))
      ]

  after_round_keeps :
      (now j : ℕ) (r : Result Bool) (n : ℕ) (s : S) (rest : ℕ → (ℕ × Option Error) × S)
      → Settled now j (db.tables s)
      → ((k : ℕ) → Settled now j (db.tables (rest k).1))
      → Settled now j (db.tables (after_round r n s rest).1)
  after_round_keeps now j (err e) n s rest done more = done
  after_round_keeps now j (ok true) n s rest done more = more (suc n)
  after_round_keeps now j (ok false) n s rest done more = more n

  complete_rows_keeps :
      (now j : ℕ) (rows : List Trip) (n : ℕ) (s : S)
      → Settled now j (db.tables s)
      → Settled now j (db.tables (complete_rows db host cipher now rows n s).1)
  unfolding complete_rows
  complete_rows_keeps now j [] n s done = done
  complete_rows_keeps now j (row ∷ rows) n s done =
      let step = complete_one db host cipher now row.id s in
      let kept = complete_one_keeps now j row.id s done in
      after_round_keeps now j step.0 n step.1 (λ k. complete_rows db host cipher now rows k step.1)
        kept (λ k. complete_rows_keeps now j rows k step.1 kept)

  -- A round that went through was a success, and so are the rounds after it.
  after_round_done :
      (r : Result Bool) (n : ℕ) (s : S) (rest : ℕ → (ℕ × Option Error) × S) {k : ℕ}
      → (after_round r n s rest).0 ≡ (k, none)
      → (b : Bool) × (m : ℕ) × (r ≡ ok b)
        × ((rest m).0 ≡ (k, none))
        × (after_round r n s rest ≡ rest m)
  after_round_done (err e) n s rest h = cc (ap (λ x. x.1) h)
  after_round_done (ok true) n s rest h = (true, suc n, refl, h, refl)
  after_round_done (ok false) n s rest h = (false, n, refl, h, refl)

  complete_rows_ends :
      (now : ℕ) (rows : List Trip) (n : ℕ) (s : S) {k : ℕ}
      → (complete_rows db host cipher now rows n s).0 ≡ (k, none)
      → All
          (λ row. Settled now row.id (db.tables (complete_rows db host cipher now rows n s).1))
          rows
  unfolding complete_rows
  complete_rows_ends now [] n s h = tt
  complete_rows_ends now (row ∷ rows) n s {k} h =
      let step = complete_one db host cipher now row.id s in
      let rest = λ (m : ℕ). complete_rows db host cipher now rows m step.1 in
      let (b, m, went, more, same) = after_round_done step.0 n step.1 rest h in
      subst (λ out. All (λ row. Settled now row.id (db.tables out.1)) (row ∷ rows)) (sym same)
        (
          complete_rows_keeps now row.id rows m step.1 (complete_one_ends now row.id s went),
          complete_rows_ends now rows m step.1 more,
        )

  listed-Settled :
      (now id : ℕ) (tb : Tables) (rows : List Trip)
      → any (λ row. row.id == id) rows ≡ true
      → All (λ row. Settled now row.id tb) rows
      → Settled now id tb
  listed-Settled now id tb [] h all = cc
  listed-Settled now id tb (row ∷ rows) h all = elim (Bool-cases (row.id == id)) [
    | inl here ↦ subst (λ j. Settled now j tb) ((==_iff row.id id).0 here) all.0
    | inr elsewhere ↦ listed-Settled now id tb rows (ground arith) all.1
  ]

  unlisted-Settled :
      (now id : ℕ) (s : S) (rows : List Trip)
      → db.due_trips now 100 s ≡ ok rows
      → length rows < 100
      → any (λ row. row.id == id) rows ≡ false
      → Settled now id (db.tables s)
  unlisted-Settled now id s rows found few unlisted t h = elim (Bool-cases (is_due now t)) [
    | inl due ↦ cc (law.due_trips_all now 100 s rows id t found few h due)
    | inr early ↦ early
  ]

  -- A run of `CompleteDue` that meets no error and fewer than a hundred due trips leaves no trip in
  -- the table that has departed by `now` and is still open or full.
  pub complete_due-is_due :
      (now : ℕ) (s : S) (rows : List Trip) {k : ℕ}
      → db.due_trips now 100 s ≡ ok rows
      → length rows < 100
      → (complete_due db host cipher now s).0 ≡ (k, none)
      → (id : ℕ) (t : Trip) → (db.tables (complete_due db host cipher now s).1).trips id ≡ some t
      → is_due now t ≡ false
  unfolding complete_due
  complete_due-is_due now s rows {k} found few h id =
      let run = λ (rs : List Trip). complete_rows db host cipher now rs 0 s in
      let went : (run rows).0 ≡ (k, none) =
        subst (λ r. (with_rows r s run).0 ≡ (k, none)) found h in
      subst (λ r. Settled now id (db.tables (with_rows r s run).1)) (sym found)
        (elim (Bool-cases (any (λ row. row.id == id) rows)) [
          | inl listed ↦
              listed-Settled now id (db.tables (run rows).1) rows listed
                (complete_rows_ends now rows 0 s went)
          | inr unlisted ↦
              complete_rows_keeps now id rows 0 s
                (unlisted-Settled now id s rows found few unlisted)
        ])
