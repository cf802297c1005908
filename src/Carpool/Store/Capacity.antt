-- ===== src/Carpool/Store/Capacity.antt =====
-- The seats of a trip: what the counter on the trip and the participants' rows say of one another.
use backend_demo.Prelude.{
  ℕ, suc, ◌+◌, ◌≤◌, ◌<◌, pos, pos_part, Bool, true, false, ◌≡◌, sym, ◌∙◌, subst, ◌≢◌, inl, inr,
  Option, none, some, List, [], ◌∷◌, ◌==◌, ==_iff, Bool-cases, arith, if◌then◌else◌,
}
use backend_demo.Platform.Errors.{ok}
use backend_demo.Carpool.Trip.{
  Trip, Participant, trip_open, trip_full, trip_cancelled, trip_completed, is_approved,
}
use backend_demo.Carpool.Database.{
  Tables, find_participant, put_row, put_trip, put_participant, holds, joined,
}
use backend_demo.Carpool.Store.{seat_taken, seat_released, ended}
use backend_demo.Carpool.Store.Seats.{joinable}

-- The seats that a row takes of a trip.
abbrev seat : ℕ → Option Participant → ℕ
seat trip none = 0
seat trip (some p) = if holds trip p then 1 else 0

-- A write of one row changes the count by that row alone.
pub joined-put_row :
    (trip : ℕ) (q : Participant) (ps : List Participant)
    → joined trip (put_row q ps) + seat trip (find_participant q.trip_id q.user_id ps)
      ≡ joined trip ps + seat trip (some q)
joined-put_row trip q [] = ground arith
joined-put_row trip q (p ∷ ps) = ground (arith, joined-put_row trip q ps)

-- A row that is found has the trip and the user that were asked for.
pub find_participant-matches :
    (trip user : ℕ) (ps : List Participant) {found : Participant}
    → find_participant trip user ps ≡ some found
    → (found.trip_id ≡ trip) × (found.user_id ≡ user)
find_participant-matches trip user [] h = cc
find_participant-matches trip user (p ∷ ps) {found} h =
    ground (arith, find_participant-matches trip user ps {found = found})

-- The trip's counter is the number of its participants, which the seats bound; an open trip has a
-- seat left, and a full one has none; a trip that is not approved has no participants.
pub record SeatsOk (t : Trip) (n : ℕ) : Type 0 where
  pub occupied : t.occupied_seats ≡ pos n
  pub total : t.total_seats ≡ pos (pos_part t.total_seats)
  pub within : n ≤ pos_part t.total_seats
  pub room : t.status ≡ trip_open → n < pos_part t.total_seats
  pub taken : t.status ≡ trip_full → n ≡ pos_part t.total_seats
  pub hidden : is_approved t.review_status ≡ false → n ≡ 0

pub seat_taken-SeatsOk :
    (user version now : ℕ) (t : Trip) (n : ℕ)
    → joinable user version now t ≡ ok tt
    → SeatsOk t n
    → SeatsOk (seat_taken t) (suc n)
unfolding seat_taken joinable
seat_taken-SeatsOk user version now t n h v = ground arith

pub seat_released-SeatsOk : (t : Trip) (n : ℕ) → SeatsOk t (suc n) → SeatsOk (seat_released t) n
unfolding seat_released
seat_released-SeatsOk t n v = ground arith

pub ended-SeatsOk :
    (t : Trip) (n : ℕ)
    → SeatsOk t n
    → SeatsOk (ended trip_cancelled t) n × SeatsOk (ended trip_completed t) n
unfolding ended
ended-SeatsOk t n v = ground arith

-- The participants of other trips do not count.
pub joined-put_row_ne :
    (trip : ℕ) (q : Participant) (ps : List Participant)
    → trip ≢ q.trip_id
    → joined trip (put_row q ps) ≡ joined trip ps
joined-put_row_ne trip q [] h = ground arith
joined-put_row_ne trip q (p ∷ ps) h = ground (arith, joined-put_row_ne trip q ps)

-- The seats of every trip in the tables add up.
abbrev pub AllSeatsOk : Tables → Type 0
AllSeatsOk tb = (id : ℕ) (t : Trip) → tb.trips id ≡ some t → SeatsOk t (joined id tb.participants)

if_true :
    (b : Bool) (u : Trip) (o : Option Trip) {t : Trip}
    → b ≡ true
    → (if b then some u else o) ≡ some t
    → u ≡ t
if_true b u o e h = ground arith

if_false :
    (b : Bool) (u : Trip) (o : Option Trip) {t : Trip}
    → b ≡ false
    → (if b then some u else o) ≡ some t
    → o ≡ some t
if_false b u o e h = ground arith

put_trip_cases :
    (tb : Tables) (u : Trip) (ps : List Participant)
    → SeatsOk u (joined u.id ps)
    → ((id : ℕ) (t : Trip) → id ≢ u.id → tb.trips id ≡ some t → SeatsOk t (joined id ps))
    → (id : ℕ) (t : Trip) → (put_trip u tb).trips id ≡ some t
    → SeatsOk t (joined id ps)
put_trip_cases tb u ps v others id t h = elim (Bool-cases (id == u.id)) [
  | inl here ↦
      subst (λ x. SeatsOk t (joined x ps)) (sym ((==_iff id u.id).0 here))
        (subst (λ x. SeatsOk x (joined u.id ps)) (if_true (id == u.id) u (tb.trips id) here h) v)
  | inr elsewhere ↦ others id t (ground arith) (if_false (id == u.id) u (tb.trips id) elsewhere h)
]

pub put_trip-AllSeatsOk :
    (tb : Tables) (u : Trip)
    → AllSeatsOk tb
    → SeatsOk u (joined u.id tb.participants)
    → AllSeatsOk (put_trip u tb)
put_trip-AllSeatsOk tb u all v = put_trip_cases tb u tb.participants v (λ id t _ h. all id t h)

pub put_participant-AllSeatsOk :
    (tb : Tables) (u : Trip) (q : Participant)
    → AllSeatsOk tb
    → q.trip_id ≡ u.id
    → SeatsOk u (joined u.id (put_row q tb.participants))
    → AllSeatsOk (put_trip u (put_participant q tb))
put_participant-AllSeatsOk tb u q all own v =
    put_trip_cases tb u (put_row q tb.participants) v λ id t other h.
      subst (SeatsOk t) (sym (joined-put_row_ne id q tb.participants (λ e. other (e ∙ own))))
        (all id t h)
