-- ===== src/Circle/Manager.antt =====
-- application/manager.go: input is normalized and validated before the store sees it. `now` is the
-- reading of the manager's clock.
pub mod Calls
pub mod History
use backend_demo.Prelude.{
  ℕ, Bool, true, false, ◌&&◌, ◌||◌, not, Option, length, ltb, ◌==◌, if◌then◌else◌,
}
use backend_demo.Platform.Errors.{Error, app, Result, err}
use backend_demo.Platform.Text.{Text, is_empty, trim}
use backend_demo.Circle.Post.{Section, PostInput, SectionStatus}
use backend_demo.Circle.Rule.{normalize_post_input, validate_post_input}
use backend_demo.Circle.Input.{SectionInput, normalize_section_input, validate_section_input}
use backend_demo.Circle.Database.{Database}
use backend_demo.Circle.Store.{Services, post_not_found}
use backend_demo.Circle.Store.Sections as Sections
use backend_demo.Circle.Store.Posts as Posts
use backend_demo.Circle.Store.Posts.{
  Item, update_change, submit_change, withdraw_change, review_change, revoke_change,
}
use backend_demo.Circle.Store.Likes as Likes

abbrev pub invalid_section : Error
invalid_section = app 400 "invalid_campus_circle_section"

abbrev pub invalid_post : Error
invalid_post = app 400 "invalid_campus_circle_post"

abbrev pub invalid_review : Error
invalid_review = app 400 "invalid_campus_circle_review"

-- `if !test { return err }`, before the store is called.
unfoldable pub only_if : {S A : Type 0} → Bool → Error → (S → Result A × S) → S → Result A × S
only_if true e m s = m s
only_if false e m s = (err e, s)

abbrev pub named : ℕ → ℕ → ℕ → Bool
named id actor version = not ((id == 0) || (actor == 0) || (version == 0))

module _ (parse_uri : Text → Option (Text × Text)) (lower : Text → Text) {S : Type 0}
    (db : Database S) (env : Services) where
  unfoldable pub create_section : ℕ → SectionInput → S → Result Section × S
  create_section actor input =
      let clean = normalize_section_input parse_uri lower input in
      only_if (validate_section_input parse_uri lower clean true) invalid_section
        (Sections.create_section db env actor clean)

  unfoldable pub update_section : ℕ → ℕ → ℕ → SectionInput → S → Result Section × S
  update_section id actor version input =
      let clean = normalize_section_input parse_uri lower input in
      only_if (named id actor version) invalid_section (
        only_if (validate_section_input parse_uri lower clean false) invalid_section
          (Sections.update_section db env id actor version clean))

  unfoldable pub set_section_status : ℕ → ℕ → ℕ → SectionStatus → S → Result Section × S
  set_section_status id actor version status =
      only_if (named id actor version) invalid_section
        (Sections.set_section_status db env id actor version status)

  unfoldable pub create_post : ℕ → PostInput → S → Result Item × S
  create_post actor input =
      let clean = normalize_post_input input in
      only_if (not (actor == 0)) invalid_post (
        only_if (validate_post_input parse_uri clean) invalid_post
          (Posts.create_post db env actor clean))

  unfoldable pub update_post : ℕ → ℕ → ℕ → PostInput → S → Result Item × S
  update_post id actor version input =
      let clean = normalize_post_input input in
      only_if (named id actor version) invalid_post (
        only_if (validate_post_input parse_uri clean) invalid_post
          (Posts.mutate_post db env id actor version actor (update_change db env clean)))

module _ {S : Type 0} (db : Database S) (env : Services) where
  unfoldable pub get_post : ℕ → ℕ → Bool → S → Result Item
  get_post id viewer admin s =
      if id == 0 then err post_not_found else Posts.get_post db env id viewer admin s

  unfoldable pub submit_post_review : ℕ → ℕ → ℕ → S → Result Item × S
  submit_post_review id actor version =
      only_if (named id actor version) invalid_post
        (Posts.mutate_post db env id actor version actor (submit_change db env))

  unfoldable pub withdraw_post : ℕ → ℕ → ℕ → S → Result Item × S
  withdraw_post id actor version =
      only_if (named id actor version) invalid_post
        (Posts.mutate_post db env id actor version actor (withdraw_change db env))

  -- An administrator is no owner: the owner is 0.
  unfoldable pub review_post : ℕ → ℕ → ℕ → Bool → Text → ℕ → S → Result Item × S
  review_post id admin version approved reason now =
      only_if (named id admin version) invalid_review (
        only_if (approved || not (is_empty (trim reason))) (app 400 "rejection_reason_required") (
          only_if (not (ltb 500 (length (trim reason)))) invalid_review (
            Posts.mutate_post db env id 0 version admin
              (review_change db env admin approved (trim reason) now))))

  unfoldable pub revoke_post_review : ℕ → ℕ → ℕ → Text → ℕ → S → Result Item × S
  revoke_post_review id admin version reason now =
      only_if
        (named id admin version
          && not (is_empty (trim reason))
          && not (ltb 500 (length (trim reason))))
        (app 400 "revoke_reason_required")
        (Posts.mutate_post db env id 0 version admin (revoke_change db env admin (trim reason) now))

  -- `LikePost` and `UnlikePost`.
  unfoldable pub like_post : ℕ → ℕ → ℕ → Bool → S → Result Item × S
  like_post id actor now liked =
      only_if (not ((id == 0) || (actor == 0))) post_not_found
        (Likes.change_like db env id actor now liked)
