-- ===== src/Carpool/Manager/History.antt =====
-- The seats add up after every history of calls on the manager.
use backend_demo.Prelude.{
  ℕ, ℤ, pos, ltb_ℤ, eq_ℤ, Bool, true, false, ◌&&◌, ◌||◌, ◌≡◌, refl, sym, subst, some, List, [], ◌∷◌,
  arith,
}
use backend_demo.Platform.Errors.{Result, ok, transaction_keeps}
use backend_demo.Platform.Text.{Text, trim}
use backend_demo.Platform.Events.{Host}
use backend_demo.Carpool.Trip.{Trip, TripInput, is_pending, is_approved, is_rejected, is_draft}
use backend_demo.Carpool.Rule.{
  Verdict, valid, invalid, validate_trip_input, validate_trip_update_input,
}
use backend_demo.Carpool.Database.{Database, Lawful, put_trip, joined}
use backend_demo.Carpool.Store.{
  Cipher, TripPayload, create_trip, new_trip, edited, redrafted, submitted, reviewed, revoked,
}
use backend_demo.Carpool.Store.Moderation.{
  reviewable, mutate_reviewable_trip, recontact, update_trip, submit_review, review, revoke_review,
}
use backend_demo.Carpool.Store.Revisions.{
  submit_review-ok, review-ok, revoke_review-ok, update_trip-ok, create_trip-ok,
}
use backend_demo.Carpool.Store.Capacity.{SeatsOk, AllSeatsOk, put_trip-AllSeatsOk}
use backend_demo.Carpool.Manager.{if_valid, create, update}
use backend_demo.Carpool.Manager.Calls.{
  Call, creates, updates, submits, reviews, revokes, joins, leaves, cancels, completes, perform,
  history,
}
use backend_demo.Carpool.Manager.Seats.{
  Sound, rewrite-Sound, join-Sound, leave-Sound, cancel-Sound, complete_due-Sound,
}

-- What a valid input says of the seats.
record SeatsValid (total : ℤ) : Type 0 where
  some_seat : ltb_ℤ total (pos 1) ≡ false

create-SeatsValid :
    (input : TripInput) (now : ℕ)
    → validate_trip_input input now ≡ valid
    → SeatsValid input.total_seats
unfolding validate_trip_input
create-SeatsValid input now h = ground arith

update-SeatsValid :
    (input : TripInput) (now : ℕ)
    → validate_trip_update_input input now ≡ valid
    → SeatsValid input.total_seats
unfolding validate_trip_update_input
update-SeatsValid input now h = ground arith

new_trip-SeatsOk :
    (organizer id : ℕ) (input : TripInput) (ciphertext : Text)
    → SeatsValid input.total_seats
    → SeatsOk (record (new_trip organizer input) { id = id; contact_ciphertext = ciphertext }) 0
unfolding new_trip
new_trip-SeatsOk organizer id input ciphertext v = ground arith

submitted-SeatsOk :
    (t : Trip) (n : ℕ)
    → (is_draft t.review_status || is_rejected t.review_status) ≡ true
    → SeatsOk t n
    → SeatsOk (submitted t) n
unfolding submitted
submitted-SeatsOk t n state v = ground arith

reviewed-SeatsOk :
    (admin : ℕ) (approved : Bool) (reason : Text) (now : ℕ) (t : Trip) (n : ℕ)
    → is_pending t.review_status ≡ true
    → SeatsOk t n
    → SeatsOk (reviewed admin approved reason now t) n
unfolding reviewed
reviewed-SeatsOk admin approved reason now t n state v = ground arith

revoked-SeatsOk :
    (admin : ℕ) (reason : Text) (now : ℕ) (t : Trip) (n : ℕ)
    → (is_approved t.review_status && eq_ℤ t.occupied_seats (pos 0)) ≡ true
    → SeatsOk t n
    → SeatsOk (revoked admin reason now t) n
unfolding revoked
revoked-SeatsOk admin reason now t n state v = ground arith

module _ {S : Type 0} (db : Database S) (host : Host TripPayload) (cipher : Cipher)
    (law : Lawful db) where
  redrafted-SeatsOk :
      (organizer version clock : ℕ) (input : TripInput) (t v : Trip) (n : ℕ)
      → SeatsValid input.total_seats
      → reviewable organizer version clock t ≡ ok tt
      → eq_ℤ t.occupied_seats (pos 0) ≡ true
      → recontact db host cipher input (edited input t) ≡ ok v
      → SeatsOk t n
      → SeatsOk (redrafted v) n
  unfolding redrafted edited recontact reviewable
  redrafted-SeatsOk organizer version clock input t v n seats passed empty contact ok_ =
      ground arith

  redrafted-id :
      (input : TripInput) (t v : Trip)
      → recontact db host cipher input (edited input t) ≡ ok v
      → (redrafted v).id ≡ t.id
  unfolding redrafted edited recontact
  redrafted-id input t v contact = ground arith

  submit-Sound :
      (id user version clock : ℕ) (s : S)
      → Sound db host cipher law s
      → Sound db host cipher law (submit_review db host cipher id user version clock s).1
  unfolding submit_review mutate_reviewable_trip
  submit-Sound id user version clock s all =
      transaction_keeps (Sound db host cipher law) _ s all λ u h.
        let (t, found, _, state, _, put) =
          submit_review-ok db host cipher law id user version clock s h in
        rewrite-Sound db host cipher law id t (submitted t) s _ all found refl
          (λ n. submitted-SeatsOk t n state) put

  review-Sound :
      (id admin version : ℕ) (approved : Bool) (reason : Text) (now clock : ℕ) (s : S)
      → Sound db host cipher law s
      → Sound db host cipher law
          (review db host cipher id admin version approved reason now clock s).1
  unfolding review mutate_reviewable_trip
  review-Sound id admin version approved reason now clock s all =
      transaction_keeps (Sound db host cipher law) _ s all λ u h.
        let (t, found, _, state, _, _, put) =
          review-ok db host cipher law id admin version approved reason now clock s h in
        rewrite-Sound db host cipher law id t (reviewed admin approved (trim reason) now t) s _ all
          found refl (λ n. reviewed-SeatsOk admin approved (trim reason) now t n state) put

  revoke-Sound :
      (id admin version : ℕ) (reason : Text) (now clock : ℕ) (s : S)
      → Sound db host cipher law s
      → Sound db host cipher law
          (revoke_review db host cipher id admin version reason now clock s).1
  unfolding revoke_review mutate_reviewable_trip
  revoke-Sound id admin version reason now clock s all =
      transaction_keeps (Sound db host cipher law) _ s all λ u h.
        let (t, found, _, _, state, _, put) =
          revoke_review-ok db host cipher law id admin version reason now clock s h in
        rewrite-Sound db host cipher law id t (revoked admin (trim reason) now t) s _ all found refl
          (λ n. revoked-SeatsOk admin (trim reason) now t n state) put

  update_trip-Sound :
      (id user version : ℕ) (input : TripInput) (clock : ℕ) (s : S)
      → SeatsValid input.total_seats
      → Sound db host cipher law s
      → Sound db host cipher law (update_trip db host cipher id user version input clock s).1
  unfolding update_trip mutate_reviewable_trip
  update_trip-Sound id user version input clock s seats all =
      transaction_keeps (Sound db host cipher law) _ s all λ u h.
        let (t, v, found, passed, empty, contact, _, put) =
          update_trip-ok db host cipher law id user version input clock s h in
        rewrite-Sound db host cipher law id t (redrafted v) s _ all found
          (redrafted-id input t v contact)
          (λ n. redrafted-SeatsOk user version clock input t v n seats passed empty contact) put

  create_trip-Sound :
      (user : ℕ) (input : TripInput) (s : S)
      → SeatsValid input.total_seats
      → Sound db host cipher law s
      → Sound db host cipher law (create_trip db host cipher user input s).1
  unfolding create_trip
  create_trip-Sound user input s seats all =
      transaction_keeps (Sound db host cipher law) _ s all λ u h.
        let (ciphertext, made, fresh, alone, put) =
          create_trip-ok db host cipher law user input s h in
        let none_yet = sym alone in
        let blank = record (new_trip user input) { id = u.id } in
        let tb = db.tables s in
        subst AllSeatsOk (sym put) (
          put_trip-AllSeatsOk (put_trip blank tb) u
            (put_trip-AllSeatsOk tb blank all
              (subst (SeatsOk blank) none_yet (new_trip-SeatsOk user u.id input [] seats)))
            (subst (SeatsOk u) none_yet (
              subst (λ x. SeatsOk x 0) (sym made)
                (new_trip-SeatsOk user u.id input ciphertext seats))))

  if_valid-Sound :
      (verdict : Verdict) (m : S → Result Trip × S) (s : S)
      → Sound db host cipher law s
      → (verdict ≡ valid → Sound db host cipher law (m s).1)
      → Sound db host cipher law (if_valid verdict m s).1
  if_valid-Sound valid m s all kept = kept refl
  if_valid-Sound (invalid reason) m s all kept = all

  -- One call, at any time and with any arguments, keeps the seats of every trip in order.
  pub perform-Sound :
      (now clock : ℕ) (call : Call) (s : S)
      → Sound db host cipher law s
      → Sound db host cipher law (perform db host cipher now clock call s)
  unfolding perform create update
  perform-Sound now clock (creates user input) s all =
      if_valid-Sound _ _ s all
        (λ v. create_trip-Sound user input s (create-SeatsValid input now v) all)
  perform-Sound now clock (updates id user version input) s all =
      if_valid-Sound _ _ s all
        (λ v. update_trip-Sound id user version input clock s (update-SeatsValid input now v) all)
  perform-Sound now clock (submits id user version) s all = submit-Sound id user version clock s all
  perform-Sound now clock (reviews id admin version approved reason) s all =
      review-Sound id admin version approved reason now clock s all
  perform-Sound now clock (revokes id admin version reason) s all =
      revoke-Sound id admin version reason now clock s all
  perform-Sound now clock (joins id user version) s all =
      join-Sound db host cipher law id user version now s all
  perform-Sound now clock (leaves id user version) s all =
      leave-Sound db host cipher law id user version now s all
  perform-Sound now clock (cancels id user version) s all =
      cancel-Sound db host cipher law id user version now s all
  perform-Sound now clock completes s all = complete_due-Sound db host cipher law now s all

  pub history-Sound :
      (calls : List (ℕ × ℕ × Call)) (s : S)
      → AllSeatsOk (db.tables s)
      → AllSeatsOk (db.tables (history db host cipher calls s))
  unfolding history
  history-Sound [] s all = all
  history-Sound ((now, clock, call) ∷ calls) s all =
      history-Sound calls (perform db host cipher now clock call s)
        (perform-Sound now clock call s all)

  -- After every history of calls on a database whose seats add up, the seats of every trip add up:
  -- its counter is the number of its joined participants and at most its seats, an open trip has a
  -- free seat and a full trip none, and a trip that is not approved has no participants.
  pub history-SeatsOk :
      (calls : List (ℕ × ℕ × Call)) (s : S)
      → AllSeatsOk (db.tables s)
      → (id : ℕ) (t : Trip) → (db.tables (history db host cipher calls s)).trips id ≡ some t
      → SeatsOk t (joined id (db.tables (history db host cipher calls s)).participants)
  history-SeatsOk calls s all = history-Sound calls s all
