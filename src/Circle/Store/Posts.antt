-- ===== src/Circle/Store/Posts.antt =====
-- infrastructure/store.go: a post is created, changed, withdrawn and reviewed.
use backend_demo.Prelude.{
  ℕ, ◌+◌, ℤ, Bool, true, false, ◌||◌, Option, none, some, List, ◌==◌, u64, if◌then◌else◌,
}
use backend_demo.Platform.Errors.{
  app, Result, ok, err, Tx, ◌>>=◌, ◌>>◌, pure, lift, query, exec, guard, transaction,
}
use backend_demo.Platform.Text.{Text, codes}
use backend_demo.Circle.Post.{
  Post, PostInput, post_pending, post_approved, post_rejected, post_withdrawn,
}
use backend_demo.Circle.Rule.{
  visible_to, can_edit_post, can_withdraw_post, can_submit_post_review, can_review_post,
  can_revoke_post_review,
}
use backend_demo.Circle.Database.{Database}
use backend_demo.Circle.Store.{
  Services, optional_string, lock_post, ensure_section_accepts_posts, replace_images,
  write_post_event, normalize_post_error, post_not_found, version_conflict, invalid_post_state,
}

pub record Item : Type 0 where
  pub post : Post
  pub images : List Text
  pub like_count : ℤ
  pub comment_count : ℤ
  pub liked : Bool

unfoldable pub new_post : ℕ → PostInput → Post
new_post author input = record {
  id = 0;
  section_id = input.section_id;
  author_id = author;
  title = optional_string input.title;
  content = optional_string input.content;
  status = post_pending;
  review_reason = none;
  reviewed_by = none;
  reviewed_at = none;
  published_at = none;
  version = 1;
}

unfoldable pub edited_post : PostInput → Post → Post
edited_post input x = record x {
  section_id = input.section_id;
  title = optional_string input.title;
  content = optional_string input.content;
  status = post_pending;
  review_reason = none;
  reviewed_by = none;
  reviewed_at = none;
  version = u64 (x.version + 1);
}

unfoldable pub resubmitted : Post → Post
resubmitted x = record x {
  status = post_pending;
  review_reason = none;
  reviewed_by = none;
  reviewed_at = none;
  version = u64 (x.version + 1);
}

unfoldable pub withdrawn_post : Post → Post
withdrawn_post x = record x { status = post_withdrawn; version = u64 (x.version + 1) }

abbrev first_time : Option ℕ → ℕ → Option ℕ
first_time none now = some now
first_time (some t) now = some t

unfoldable pub decided : ℕ → Bool → Text → ℕ → Post → Post
decided admin approved reason now x = record x {
  status = (if approved then post_approved else post_rejected);
  published_at = (if approved then first_time x.published_at now else x.published_at);
  review_reason = optional_string reason;
  reviewed_by = some admin;
  reviewed_at = some now;
  version = u64 (x.version + 1);
}

unfoldable pub reopened : ℕ → Text → ℕ → Post → Post
reopened admin reason now x = record x {
  status = post_pending;
  review_reason = some reason;
  reviewed_by = some admin;
  reviewed_at = some now;
  version = u64 (x.version + 1);
}

module _ {S : Type 0} (db : Database S) (env : Services) where
  -- `item`: the post with what is read of it.
  unfoldable pub item : Post → ℕ → S → Result Item
  item x viewer s = elim (db.load_images x.id s) [
    | err e ↦ err e
    | ok images ↦ elim (db.count_likes x.id s) [
      | err e ↦ err e
      | ok likes ↦ elim (if viewer == 0 then ok false else db.viewer_likes x.id viewer s) [
        | err e ↦ err e
        | ok liked ↦ elim (db.count_comments x.id s) [
          | err e ↦ err e
          | ok comments ↦ ok (record {
            post = x;
            images = images;
            like_count = likes;
            comment_count = comments;
            liked = liked;
          })
        ]
      ]
    ]
  ]

  -- After the transaction, the item is read.
  abbrev pub with_item : ℕ → Result Post × S → Result Item × S
  with_item viewer (ok x, s) = (item x viewer s, s)
  with_item viewer (err e, s) = (err (normalize_post_error e), s)

  unfoldable pub create_post_tx : ℕ → PostInput → Tx S Post
  unfolding ensure_section_accepts_posts new_post replace_images write_post_event
  create_post_tx author input = do
    ensure_section_accepts_posts db input.section_id
    x ← db.create_post (new_post author input)
    replace_images db x.id input.image_urls
    write_post_event db env x (codes "campus_circle.post_created")
    pure x

  unfoldable pub create_post : ℕ → PostInput → S → Result Item × S
  unfolding create_post_tx item
  create_post author input s = with_item author (transaction (create_post_tx author input) s)

  -- The transaction of `mutatePost`; an owner of 0 is an administrator.
  unfoldable pub mutate_post_tx : ℕ → ℕ → ℕ → (Post → Tx S Post) → Tx S Post
  unfolding lock_post
  mutate_post_tx id owner version change = do
    x ← query (lock_post db id)
    lift (guard ((owner == 0) || (x.author_id == owner)) (app 403 "not_campus_circle_post_author"))
    lift (guard (x.version == version) version_conflict)
    change x

  unfoldable pub mutate_post : ℕ → ℕ → ℕ → ℕ → (Post → Tx S Post) → S → Result Item × S
  unfolding mutate_post_tx item
  mutate_post id owner version viewer change s =
      with_item viewer (transaction (mutate_post_tx id owner version change) s)

  -- The end of every change.
  unfoldable pub save_with_event : Post → Text → Tx S Post
  unfolding write_post_event
  save_with_event x kind = do exec (db.save_post x); write_post_event db env x kind; pure x

  unfoldable pub update_change : PostInput → Post → Tx S Post
  unfolding ensure_section_accepts_posts edited_post replace_images write_post_event
  update_change input x = do
    lift (guard (can_edit_post x.status) invalid_post_state)
    ensure_section_accepts_posts db input.section_id
    exec (db.save_post (edited_post input x))
    replace_images db x.id input.image_urls
    write_post_event db env (edited_post input x) (codes "campus_circle.post_updated")
    pure (edited_post input x)

  unfoldable pub submit_change : Post → Tx S Post
  unfolding ensure_section_accepts_posts resubmitted save_with_event
  submit_change x = do
    lift (guard (can_submit_post_review x.status) invalid_post_state)
    ensure_section_accepts_posts db x.section_id
    save_with_event (resubmitted x) (codes "campus_circle.review_submitted")

  unfoldable pub withdraw_change : Post → Tx S Post
  unfolding withdrawn_post save_with_event
  withdraw_change x = do
    lift (guard (can_withdraw_post x.status) invalid_post_state)
    save_with_event (withdrawn_post x) (codes "campus_circle.post_withdrawn")

  abbrev pub if_approved : Bool → Tx S (Unit {0}) → Tx S (Unit {0})
  if_approved true m = m
  if_approved false m = pure tt

  unfoldable pub review_change : ℕ → Bool → Text → ℕ → Post → Tx S Post
  unfolding ensure_section_accepts_posts decided save_with_event
  review_change admin approved reason now x = do
    lift (guard (can_review_post x.status) invalid_post_state)
    if_approved approved (ensure_section_accepts_posts db x.section_id)
    save_with_event (decided admin approved reason now x) (codes "campus_circle.post_reviewed")

  unfoldable pub revoke_change : ℕ → Text → ℕ → Post → Tx S Post
  unfolding reopened save_with_event
  revoke_change admin reason now x = do
    lift (guard (can_revoke_post_review x.status) invalid_post_state)
    save_with_event (reopened admin reason now x) (codes "campus_circle.review_revoked")

  -- `GetPost`.
  abbrev pub shown_post : ℕ → Bool → Result Post → S → Result Item
  shown_post viewer admin (ok x) s =
      if visible_to (some x) viewer admin then item x viewer s else err post_not_found
  shown_post viewer admin (err e) s = err (normalize_post_error e)

  unfoldable pub get_post : ℕ → ℕ → Bool → S → Result Item
  unfolding item
  get_post id viewer admin s = shown_post viewer admin (db.first_post id s) s
