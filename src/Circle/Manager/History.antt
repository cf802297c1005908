-- ===== src/Circle/Manager/History.antt =====
-- The tree of sections and the posts stay sound after every history of calls on the manager.
use backend_demo.Prelude.{ℕ, Bool, true, false, ◌≡◌, refl, Option, none, some, List, [], ◌∷◌}
use backend_demo.Platform.Errors.{Error, Result}
use backend_demo.Platform.Text.{Text, trim}
use backend_demo.Circle.Post.{Section, Post}
use backend_demo.Circle.Rule.{is_root, normalize_post_input}
use backend_demo.Circle.Input.{normalize_section_input}
use backend_demo.Circle.Database.{Database, Lawful}
use backend_demo.Circle.Store.{Services}
use backend_demo.Circle.Store.Hierarchy.{PostOk, Sound}
use backend_demo.Circle.Store.Placement.{
  create_section-Sound, update_section-Sound, set_section_status-Sound,
}
use backend_demo.Circle.Store.Moderation.{
  mutate_post-Sound, update_change-Sane, submit_change-Sane, withdraw_change-Sane,
  review_change-Sane, revoke_change-Sane,
}
use backend_demo.Circle.Store.Fairness.{create_post-Sound, change_like-Sound}
use backend_demo.Circle.Manager.{
  only_if, create_section, update_section, set_section_status, create_post, update_post,
  submit_post_review, withdraw_post, review_post, revoke_post_review, like_post,
}
use backend_demo.Circle.Manager.Calls.{
  Call, creates_section, updates_section, moves_section, creates_post, updates_post, submits,
  withdraws, reviews, revokes, likes, perform, history,
}

module _ (parse_uri : Text → Option (Text × Text)) (lower : Text → Text) {S : Type 0}
    (db : Database S) (env : Services) (law : Lawful db) where
  abbrev Kept : S → Type 0
  Kept s = Sound (db.tables s)

  only_if-Kept :
      {A : Type 0} (b : Bool) (e : Error) (m : S → Result A × S) (s : S)
      → Kept s
      → Kept (m s).1
      → Kept (only_if b e m s).1
  unfolding only_if
  only_if-Kept true e m s sound kept = kept
  only_if-Kept false e m s sound kept = sound

  perform-Kept :
      (now : ℕ) (call : Call) (s : S) → Kept s → Kept (perform parse_uri lower db env now call s)
  unfolding perform create_section update_section set_section_status create_post update_post
      submit_post_review withdraw_post review_post revoke_post_review like_post
  perform-Kept now (creates_section actor input) s sound = only_if-Kept _ _ _ s sound (
      create_section-Sound db env law actor (normalize_section_input parse_uri lower input) s sound)
  perform-Kept now (updates_section id actor version input) s sound = only_if-Kept _ _ _ s sound (
      only_if-Kept _ _ _ s sound (
        update_section-Sound db env law id actor version
          (normalize_section_input parse_uri lower input) s sound))
  perform-Kept now (moves_section id actor version status) s sound =
      only_if-Kept _ _ _ s sound
        (set_section_status-Sound db env law id actor version status s sound)
  perform-Kept now (creates_post actor input) s sound = only_if-Kept _ _ _ s sound (
      only_if-Kept _ _ _ s sound
        (create_post-Sound db env law actor (normalize_post_input input) s sound))
  perform-Kept now (updates_post id actor version input) s sound = only_if-Kept _ _ _ s sound (
      only_if-Kept _ _ _ s sound (
        mutate_post-Sound db env law id actor version actor _ s
          (update_change-Sane db env law (normalize_post_input input)) sound))
  perform-Kept now (submits id actor version) s sound = only_if-Kept _ _ _ s sound (
      mutate_post-Sound db env law id actor version actor _ s (submit_change-Sane db env law) sound)
  perform-Kept now (withdraws id actor version) s sound = only_if-Kept _ _ _ s sound (
      mutate_post-Sound db env law id actor version actor _ s (withdraw_change-Sane db env law)
        sound)
  perform-Kept now (reviews id admin version approved reason) s sound = only_if-Kept _ _ _ s sound (
      only_if-Kept _ _ _ s sound (
        only_if-Kept _ _ _ s sound (
          mutate_post-Sound db env law id 0 version admin _ s
            (review_change-Sane db env law admin approved (trim reason) now) sound)))
  perform-Kept now (revokes id admin version reason) s sound = only_if-Kept _ _ _ s sound (
      mutate_post-Sound db env law id 0 version admin _ s
        (revoke_change-Sane db env law admin (trim reason) now) sound)
  perform-Kept now (likes id actor liked) s sound =
      only_if-Kept _ _ _ s sound (change_like-Sound db env law id actor now liked s sound)

  history-Kept :
      (calls : List (ℕ × Call)) (s : S) → Kept s → Kept (history parse_uri lower db env calls s)
  unfolding history
  history-Kept [] s sound = sound
  history-Kept ((now, call) ∷ calls) s sound =
      history-Kept calls (perform parse_uri lower db env now call s) (perform-Kept now call s sound)

  -- After every history of calls on sound tables, a post is in a section that has a parent, and
  -- that parent is there and has none; if the post is approved it has a reviewer and a time of
  -- publication; and its author does not like it.
  pub history-PostOk :
      (calls : List (ℕ × Call)) (s : S)
      → Sound (db.tables s)
      → (id : ℕ) (x : Post) → (db.tables (history parse_uri lower db env calls s)).posts id ≡ some x
      → let tb = db.tables (history parse_uri lower db env calls s) in
        PostOk tb.sections tb.likes x
        × ((section : Section) × (p : ℕ) × (root : Section) × (tb.sections x.section_id
              ≡ some section)
            × (section.parent_id ≡ some p)
            × (tb.sections p ≡ some root)
            × (root.parent_id ≡ none))
  history-PostOk calls s sound id x there =
      let kept = history-Kept calls s sound in
      let v = kept.posts id x there in
      let (section, found, child) = v.leaf in
      let (p, up) = parent_number section.parent_id child in
      let (root, stands, top) = kept.tree x.section_id p section found up in
      (v, (section, p, root, found, up, stands, top))
    where
      parent_number : (o : Option ℕ) → is_root o ≡ false → (p : ℕ) × (o ≡ some p)
      parent_number none h = cc
      parent_number (some p) h = (p, refl)
