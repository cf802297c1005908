-- ===== src/Carpool/Manager/Seats.antt =====
-- No call on the manager sells a seat twice, or loses one.
use backend_demo.Prelude.{
  ℕ, suc, Bool, true, false, ◌≡◌, refl, sym, ◌∙◌, subst, Option, none, some, List, [], ◌∷◌, inl,
  inr, arith,
}
use backend_demo.Platform.Errors.{Error, Result, ok, err, transaction-Runs, transaction_keeps}
use backend_demo.Platform.Events.{Host}
use backend_demo.Carpool.Trip.{Trip, Participant, is_joined}
use backend_demo.Carpool.Database.{Database, Lawful, find_participant, put_row, put_trip, joined}
use backend_demo.Carpool.Store.{
  Cipher, TripPayload, has_joined, seat_taken, seat_released, new_participant, rejoined, left,
}
use backend_demo.Carpool.Store.Seats as SeatStore
use backend_demo.Carpool.Store.Effects.{
  enrolled, join_tx-Runs, leave_tx-Runs, cancel_tx-Runs, complete_one_tx-Runs,
}
use backend_demo.Carpool.Store.Capacity.{
  SeatsOk, AllSeatsOk, joined-put_row, find_participant-matches, seat_taken-SeatsOk,
  seat_released-SeatsOk, ended-SeatsOk, put_trip-AllSeatsOk, put_participant-AllSeatsOk,
}

-- Who takes a seat was not counted before, and is now.
joined-enrolled :
    (id user now : ℕ) (o : Option Participant) (ps : List Participant)
    → find_participant id user ps ≡ o
    → has_joined o ≡ false
    → joined id (put_row (enrolled id user now o) ps) ≡ suc (joined id ps)
unfolding new_participant rejoined
joined-enrolled id user now none ps found h =
    ground (arith, joined-put_row id (new_participant id user now) ps)
joined-enrolled id user now (some p) ps found h =
    ground (arith, joined-put_row id (rejoined now p) ps, find_participant-matches id user ps found)

-- Who leaves was counted, and is no longer.
joined-left :
    (id user now : ℕ) (p : Participant) (ps : List Participant)
    → find_participant id user ps ≡ some p
    → is_joined p.status ≡ true
    → suc (joined id (put_row (left now p) ps)) ≡ joined id ps
unfolding left
joined-left id user now p ps found h =
    ground (arith, joined-put_row id (left now p) ps, find_participant-matches id user ps found)

enrolled-trip :
    (id user now : ℕ) (o : Option Participant) (ps : List Participant)
    → find_participant id user ps ≡ o
    → (enrolled id user now o).trip_id ≡ id
unfolding new_participant rejoined
enrolled-trip id user now none ps found = refl
enrolled-trip id user now (some p) ps found = (find_participant-matches id user ps found).0

module _ {S : Type 0} (db : Database S) (host : Host TripPayload) (cipher : Cipher)
    (law : Lawful db) where
  -- `AllSeatsOk` of what the tables hold.
  abbrev pub Sound : S → Type 0
  Sound s = AllSeatsOk (db.tables s)

  pub join-Sound :
      (id user version now : ℕ) (s : S)
      → Sound s
      → Sound (SeatStore.join db host cipher id user version now s).1
  unfolding SeatStore.join
  join-Sound id user version now s all = transaction_keeps Sound _ s all λ u h.
      let (t, o, found, room, row, free, _, put) =
        join_tx-Runs db host cipher law id user version now (transaction-Runs _ s h) in
      let q = enrolled id user now o in
      let ps = (db.tables s).participants in
      let own = law.keyed s id t found in
      subst AllSeatsOk (sym put) (
        put_participant-AllSeatsOk (db.tables s) (seat_taken t) q all
          (enrolled-trip id user now o ps row ∙ sym own)
          (subst (λ n. SeatsOk (seat_taken t) (joined n (put_row q ps))) (sym own)
            (subst (SeatsOk (seat_taken t)) (sym (joined-enrolled id user now o ps row free))
              (seat_taken-SeatsOk user version now t (joined id ps) room (all id t found)))))

  pub leave-Sound :
      (id user version now : ℕ) (s : S)
      → Sound s
      → Sound (SeatStore.leave db host cipher id user version now s).1
  unfolding SeatStore.leave
  leave-Sound id user version now s all = transaction_keeps Sound _ s all λ u h.
      let (t, p, found, _, row, held, _, put) =
        leave_tx-Runs db host cipher law id user version now (transaction-Runs _ s h) in
      let ps = (db.tables s).participants in
      let own = law.keyed s id t found in
      subst AllSeatsOk (sym put) (
        put_participant-AllSeatsOk (db.tables s) (seat_released t) (left now p) all
          ((find_participant-matches id user ps row).0 ∙ sym own)
          (subst (λ n. SeatsOk (seat_released t) (joined n (put_row (left now p) ps))) (sym own)
            (seat_released-SeatsOk t (joined id (put_row (left now p) ps))
              (subst (SeatsOk t) (sym (joined-left id user now p ps row held)) (all id t found)))))

  -- A trip written over by one with the same seats.
  pub rewrite-Sound :
      (id : ℕ) (t u : Trip) (s s' : S)
      → Sound s
      → (db.tables s).trips id ≡ some t
      → u.id ≡ t.id
      → ((n : ℕ) → SeatsOk t n → SeatsOk u n)
      → db.tables s' ≡ put_trip u (db.tables s)
      → Sound s'
  rewrite-Sound id t u s s' all found own keep put = subst AllSeatsOk (sym put) (
      put_trip-AllSeatsOk (db.tables s) u all (
        subst (λ n. SeatsOk u (joined n (db.tables s).participants))
          (sym (own ∙ law.keyed s id t found))
          (keep (joined id (db.tables s).participants) (all id t found))))

  pub cancel-Sound :
      (id user version now : ℕ) (s : S)
      → Sound s
      → Sound (SeatStore.cancel db host cipher id user version now s).1
  unfolding SeatStore.cancel
  cancel-Sound id user version now s all = transaction_keeps Sound _ s all λ u h.
      let (t, found, _, _, put) =
        cancel_tx-Runs db host cipher law id user version now (transaction-Runs _ s h) in
      rewrite-Sound id t _ s _ all found refl (λ n v. (ended-SeatsOk t n v).0) put

  complete_one-Sound :
      (now id : ℕ) (s : S) → Sound s → Sound (SeatStore.complete_one db host cipher now id s).1
  unfolding SeatStore.complete_one
  complete_one-Sound now id s all = transaction_keeps Sound _ s all λ b h.
      let (t, found, outcome) =
        complete_one_tx-Runs db host cipher law now id (transaction-Runs _ s h) in
      elim outcome [
        | inl (_, _, same) ↦ subst Sound (sym same) all
        | inr (_, _, put) ↦
            rewrite-Sound id t _ s _ all found refl (λ n v. (ended-SeatsOk t n v).1) put
      ]

  after_round-Sound :
      (r : Result Bool) (n : ℕ) (s : S) (rest : ℕ → (ℕ × Option Error) × S)
      → Sound s
      → ((k : ℕ) → Sound (rest k).1)
      → Sound (SeatStore.after_round r n s rest).1
  after_round-Sound (err e) n s rest all more = all
  after_round-Sound (ok true) n s rest all more = more (suc n)
  after_round-Sound (ok false) n s rest all more = more n

  with_rows-Sound :
      (r : Result (List Trip)) (s : S) (loop : List Trip → (ℕ × Option Error) × S)
      → Sound s
      → ((rows : List Trip) → Sound (loop rows).1)
      → Sound (SeatStore.with_rows r s loop).1
  with_rows-Sound (err e) s loop all more = all
  with_rows-Sound (ok rows) s loop all more = more rows

  complete_rows-Sound :
      (now : ℕ) (rows : List Trip) (n : ℕ) (s : S)
      → Sound s
      → Sound (SeatStore.complete_rows db host cipher now rows n s).1
  unfolding SeatStore.complete_rows
  complete_rows-Sound now [] n s all = all
  complete_rows-Sound now (row ∷ rows) n s all =
      let step = SeatStore.complete_one db host cipher now row.id s in
      after_round-Sound step.0 n step.1
        (λ k. SeatStore.complete_rows db host cipher now rows k step.1)
        (complete_one-Sound now row.id s all)
        (λ k. complete_rows-Sound now rows k step.1 (complete_one-Sound now row.id s all))

  pub complete_due-Sound :
      (now : ℕ) (s : S) → Sound s → Sound (SeatStore.complete_due db host cipher now s).1
  unfolding SeatStore.complete_due
  complete_due-Sound now s all =
      with_rows-Sound (db.due_trips now 100 s) s
        (λ rows. SeatStore.complete_rows db host cipher now rows 0 s) all
        (λ rows. complete_rows-Sound now rows 0 s all)
