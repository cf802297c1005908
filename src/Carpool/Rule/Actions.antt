-- ===== src/Carpool/Rule/Actions.antt =====
-- The actions that the rules offer to a viewer against what the store accepts.
use backend_demo.Prelude.{ℕ, pos, eq_ℤ, Bool, true, false, ◌||◌, ◌≡◌, ◌≢◌, ◌↔◌, List, any, arith}
use backend_demo.Platform.Errors.{ok}
use backend_demo.Carpool.Trip.{Trip, Action, is_draft, is_rejected}
use backend_demo.Carpool.Rule.{available_actions}
use backend_demo.Carpool.Store.Moderation.{reviewable}
use backend_demo.Carpool.Store.Capacity.{SeatsOk}
use backend_demo.Carpool.Store.Seats.{joinable, leavable, cancellable}

abbrev action_eq : Action → Action → Bool
action_eq Action.edit Action.edit = true
action_eq Action.submit_review Action.submit_review = true
action_eq Action.cancel Action.cancel = true
action_eq Action.join Action.join = true
action_eq Action.leave Action.leave = true
action_eq _ _ = false

-- Is the action offered?
abbrev pub offers : Action → List Action → Bool
offers a = any (action_eq a)

-- A viewer is offered to join exactly when he is signed in (not viewer 0), has not joined and the
-- store, asked with the trip's current version, lets him.
pub available_actions-join :
    (t : Trip) (viewer : ℕ) (joined : Bool) (now : ℕ)
    → (offers Action.join (available_actions t viewer joined now) ≡ true)
      ↔ ((viewer ≢ 0) × (joined ≡ false) × (joinable viewer t.version now t ≡ ok tt))
unfolding available_actions joinable
available_actions-join t viewer joined now = (λ o. ground arith, λ o. ground arith)

-- A viewer is offered to leave exactly when he is signed in, has joined, did not organize the trip,
-- and the store, asked with the trip's current version, lets a participant leave.
pub available_actions-leave :
    (t : Trip) (viewer : ℕ) (joined : Bool) (now : ℕ)
    → (offers Action.leave (available_actions t viewer joined now) ≡ true) ↔ (
        (viewer ≢ 0)
        × (joined ≡ true)
        × (t.organizer_id ≢ viewer)
        × (leavable t.version now t ≡ ok tt))
unfolding available_actions leavable
available_actions-leave t viewer joined now = (λ o. ground arith, λ o. ground arith)

-- A viewer is offered to cancel exactly when he is signed in and the store, asked with the trip's
-- current version, lets him.
pub available_actions-cancel :
    (t : Trip) (viewer : ℕ) (joined : Bool) (now : ℕ)
    → (offers Action.cancel (available_actions t viewer joined now) ≡ true)
      ↔ ((viewer ≢ 0) × (cancellable viewer t.version now t ≡ ok tt))
unfolding available_actions cancellable
available_actions-cancel t viewer joined now = (λ o. ground arith, λ o. ground arith)

-- A viewer is offered to edit exactly when he is signed in, the store, asked with the trip's
-- current version, lets him change the trip and no seat is taken.
pub available_actions-edit :
    (t : Trip) (viewer : ℕ) (joined : Bool) (now : ℕ)
    → (offers Action.edit (available_actions t viewer joined now) ≡ true) ↔ (
        (viewer ≢ 0)
        × (reviewable viewer t.version now t ≡ ok tt)
        × (eq_ℤ t.occupied_seats (pos 0) ≡ true))
unfolding available_actions reviewable
available_actions-edit t viewer joined now = (λ o. ground arith, λ o. ground arith)

-- Submission for review is offered exactly to a viewer who is signed in and from whom the store
-- takes it, on a trip whose seats add up: what the rules ask besides, that no seat is taken, holds
-- of every trip that is not approved.
pub available_actions-submit_review :
    (t : Trip) (n viewer : ℕ) (joined : Bool) (now : ℕ)
    → SeatsOk t n
    → (offers Action.submit_review (available_actions t viewer joined now) ≡ true) ↔ (
        (viewer ≢ 0)
        × (reviewable viewer t.version now t ≡ ok tt)
        × ((is_draft t.review_status || is_rejected t.review_status) ≡ true))
unfolding available_actions reviewable
available_actions-submit_review t n viewer joined now v = (λ o. ground arith, λ o. ground arith)
