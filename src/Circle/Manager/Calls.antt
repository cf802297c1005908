-- ===== src/Circle/Manager/Calls.antt =====
-- The calls on the campus-circle manager that change something, one after another: a history of the
-- module. Each call has its arguments and the reading of the clock.
use backend_demo.Prelude.{ℕ, Bool, Option, List, [], ◌∷◌}
use backend_demo.Platform.Text.{Text}
use backend_demo.Circle.Post.{PostInput, SectionStatus}
use backend_demo.Circle.Input.{SectionInput}
use backend_demo.Circle.Database.{Database}
use backend_demo.Circle.Store.{Services}
use backend_demo.Circle.Manager.{
  create_section, update_section, set_section_status, create_post, update_post, submit_post_review,
  withdraw_post, review_post, revoke_post_review, like_post,
}

pub data Call : Type 0 where
  creates_section : ℕ → SectionInput → Call
  updates_section : ℕ → ℕ → ℕ → SectionInput → Call
  moves_section : ℕ → ℕ → ℕ → SectionStatus → Call
  creates_post : ℕ → PostInput → Call
  updates_post : ℕ → ℕ → ℕ → PostInput → Call
  submits withdraws : ℕ → ℕ → ℕ → Call
  reviews : ℕ → ℕ → ℕ → Bool → Text → Call
  revokes : ℕ → ℕ → ℕ → Text → Call
  likes : ℕ → ℕ → Bool → Call

module _ (parse_uri : Text → Option (Text × Text)) (lower : Text → Text) {S : Type 0}
    (db : Database S) (env : Services) where
  -- The state after a call at the time `now`.
  unfoldable pub perform : ℕ → Call → S → S
  perform now (creates_section actor input) s =
      (create_section parse_uri lower db env actor input s).1
  perform now (updates_section id actor version input) s =
      (update_section parse_uri lower db env id actor version input s).1
  perform now (moves_section id actor version status) s =
      (set_section_status parse_uri lower db env id actor version status s).1
  perform now (creates_post actor input) s = (create_post parse_uri lower db env actor input s).1
  perform now (updates_post id actor version input) s =
      (update_post parse_uri lower db env id actor version input s).1
  perform now (submits id actor version) s = (submit_post_review db env id actor version s).1
  perform now (withdraws id actor version) s = (withdraw_post db env id actor version s).1
  perform now (reviews id admin version approved reason) s =
      (review_post db env id admin version approved reason now s).1
  perform now (revokes id admin version reason) s =
      (revoke_post_review db env id admin version reason now s).1
  perform now (likes id actor liked) s = (like_post db env id actor now liked s).1

  unfoldable pub history : List (ℕ × Call) → S → S
  unfolding perform
  history [] s = s
  history ((now, call) ∷ calls) s = history calls (perform now call s)
