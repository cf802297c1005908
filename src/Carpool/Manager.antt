-- ===== src/Carpool/Manager.antt =====
-- application/manager.go: input is validated before the store sees it. `now` is the reading of the
-- manager's clock, `clock` that of the store's.
pub mod Calls
pub mod Seats
pub mod History
pub mod Completion
use backend_demo.Prelude.{ℕ, Bool, true, false, Option, none, some, List, [], ◌∷◌, ◌==◌, any, map}
use backend_demo.Platform.Errors.{Error, app, Result, ok, err}
use backend_demo.Platform.Text.{Text}
use backend_demo.Platform.Events.{Host}
use backend_demo.Carpool.Trip.{Trip, TripInput, Relation, Action}
use backend_demo.Carpool.Rule.{
  Verdict, valid, invalid, validate_trip_input, validate_trip_update_input, viewer_relation,
  available_actions,
}
use backend_demo.Carpool.Database.{Database}
use backend_demo.Carpool.Store.{Cipher, TripPayload, create_trip}
use backend_demo.Carpool.Store.Moderation.{update_trip}

abbrev pub if_valid : {S : Type 0} → Verdict → (S → Result Trip × S) → S → Result Trip × S
if_valid valid m s = m s
if_valid (invalid reason) m s = (err (app 400 "invalid_carpool_trip"), s)

module _ {S : Type 0} (db : Database S) (host : Host TripPayload) (cipher : Cipher) where
  unfoldable pub create : ℕ → TripInput → ℕ → S → Result Trip × S
  create user input now =
      if_valid (validate_trip_input input now) (create_trip db host cipher user input)

  unfoldable pub update : ℕ → ℕ → ℕ → TripInput → ℕ → ℕ → S → Result Trip × S
  update id user version input now clock =
      if_valid (validate_trip_update_input input now)
        (update_trip db host cipher id user version input clock)

-- `JoinedTrips` returns the trips on which the viewer holds a seat; the contexts of a page follow.
unfoldable pub viewer_context : Trip → ℕ → List ℕ → ℕ → Relation × List Action
viewer_context trip viewer joined_trips now =
    let joined = any (λ id. id == trip.id) joined_trips in
    (viewer_relation trip viewer joined, available_actions trip viewer joined now)

unfoldable pub viewer_contexts : List Trip → ℕ → List ℕ → ℕ → List (ℕ × (Relation × List Action))
unfolding viewer_context
viewer_contexts [] viewer joined_trips now = []
viewer_contexts (t ∷ ts) viewer joined_trips now =
    (t.id, viewer_context t viewer joined_trips now) ∷ viewer_contexts ts viewer joined_trips now
