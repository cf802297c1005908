-- ===== src/Carpool/Manager/Calls.antt =====
-- The calls on the carpool manager, one after another: a history of the module. Each call has its
-- arguments and the readings of the clocks.
use backend_demo.Prelude.{ℕ, Bool, List, [], ◌∷◌}
use backend_demo.Platform.Text.{Text}
use backend_demo.Platform.Events.{Host}
use backend_demo.Carpool.Trip.{TripInput}
use backend_demo.Carpool.Database.{Database}
use backend_demo.Carpool.Store.{Cipher, TripPayload}
use backend_demo.Carpool.Store.Moderation.{submit_review, review, revoke_review}
use backend_demo.Carpool.Store.Seats
use backend_demo.Carpool.Store.Seats.{complete_due}
use backend_demo.Carpool.Manager.{create, update}

pub data Call : Type 0 where
  creates : ℕ → TripInput → Call
  updates : ℕ → ℕ → ℕ → TripInput → Call
  submits : ℕ → ℕ → ℕ → Call
  reviews : ℕ → ℕ → ℕ → Bool → Text → Call
  revokes : ℕ → ℕ → ℕ → Text → Call
  joins leaves cancels : ℕ → ℕ → ℕ → Call
  completes : Call

module _ {S : Type 0} (db : Database S) (host : Host TripPayload) (cipher : Cipher) where
  -- The state after a call at the times `now` and `clock`.
  unfoldable pub perform : ℕ → ℕ → Call → S → S
  perform now clock (creates user input) s = (create db host cipher user input now s).1
  perform now clock (updates id user version input) s =
      (update db host cipher id user version input now clock s).1
  perform now clock (submits id user version) s =
      (submit_review db host cipher id user version clock s).1
  perform now clock (reviews id admin version approved reason) s =
      (review db host cipher id admin version approved reason now clock s).1
  perform now clock (revokes id admin version reason) s =
      (revoke_review db host cipher id admin version reason now clock s).1
  perform now clock (joins id user version) s = (Seats.join db host cipher id user version now s).1
  perform now clock (leaves id user version) s =
      (Seats.leave db host cipher id user version now s).1
  perform now clock (cancels id user version) s =
      (Seats.cancel db host cipher id user version now s).1
  perform now clock completes s = (complete_due db host cipher now s).1

  unfoldable pub history : List (ℕ × ℕ × Call) → S → S
  unfolding perform
  history [] s = s
  history ((now, clock, call) ∷ calls) s = history calls (perform now clock call s)
