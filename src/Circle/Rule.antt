-- ===== src/Circle/Rule.antt =====
-- domain/rule.go: the tree of sections, what a post may hold, and what its viewer may do. The
-- standard library's parser of URLs is a parameter: the scheme and the host of a text it accepts.
use backend_demo.Prelude.{
  ℕ, Bool, true, false, ◌&&◌, ◌||◌, not, Option, none, some, List, [], ◌∷◌, ◌++◌, map, length, any,
  ltb, ◌==◌, if◌then◌else◌,
}
use backend_demo.Platform.Text.{Text, codes, text_eq, is_empty, trim}
use backend_demo.Circle.Post.{
  Section, Post, PostInput, PostStatus, SectionStatus, Relation, Action, is_active, is_pending,
  is_approved, is_rejected,
}

abbrev pub is_root : Option ℕ → Bool
is_root none = true
is_root (some _) = false

-- `ValidateSectionParent`: no error.
unfoldable pub valid_parent : ℕ → Option ℕ → Option Section → Bool
valid_parent section none none = true
valid_parent section none (some _) = false
valid_parent section (some requested) none = false
valid_parent section (some requested) (some parent) = not (
    (requested == 0)
    || (requested == section)
    || not (parent.id == requested)
    || not (is_root parent.parent_id)
    || not (is_active parent.status))

abbrev is_child_of : Option ℕ → ℕ → Bool
is_child_of none id = false
is_child_of (some p) id = id == p

unfoldable pub can_accept_posts : Option Section → Option Section → Bool
can_accept_posts none parent = false
can_accept_posts (some section) none = false
can_accept_posts (some section) (some parent) =
    not (is_root section.parent_id)
    && is_active section.status
    && is_child_of section.parent_id parent.id
    && is_root parent.parent_id
    && is_active parent.status

unfoldable pub can_archive_section : SectionStatus → Bool
can_archive_section status = is_active status

unfoldable pub can_activate_section : SectionStatus → Bool
can_activate_section status = not (is_active status)

unfoldable pub normalize_post_input : PostInput → PostInput
normalize_post_input input = record input {
  title = trim input.title;
  content = trim input.content;
  image_urls = map trim input.image_urls;
}

module _ (parse_uri : Text → Option (Text × Text)) where
  abbrev has_host : Option (Text × Text) → Bool
  has_host none = false
  has_host (some (scheme, host)) =
      (text_eq scheme (codes "https") || text_eq scheme (codes "http")) && not (is_empty host)

  unfoldable pub valid_url : Text → Bool
  valid_url value = if ltb 2048 (length value) then false else has_host (parse_uri value)

  -- `ValidatePostInput` of a normalized input: no error.
  unfoldable pub valid_post : PostInput → Bool
  unfolding valid_url
  valid_post input =
      if (input.section_id == 0)
        || ltb 100 (length input.title)
        || ltb 5000 (length input.content)
        || ltb 9 (length input.image_urls)
      then false
      else if any (λ image. is_empty image || not (valid_url image)) input.image_urls
      then false
      else not (is_empty input.title && is_empty input.content && (length input.image_urls == 0))

  unfoldable pub validate_post_input : PostInput → Bool
  validate_post_input input = valid_post (normalize_post_input input)

unfoldable pub visible_to : Option Post → ℕ → Bool → Bool
visible_to none viewer admin = false
visible_to (some post) viewer admin =
    admin || is_approved post.status || (not (viewer == 0) && (post.author_id == viewer))

abbrev is_author : Option Post → ℕ → Bool
is_author none viewer = false
is_author (some post) viewer = not (viewer == 0) && (post.author_id == viewer)

unfoldable pub viewer_relation : Option Post → ℕ → Bool → Relation
viewer_relation post viewer admin =
    if admin
    then Relation.admin
    else if is_author post viewer
    then Relation.owner
    else if viewer == 0
    then Relation.anonymous
    else Relation.other

unfoldable pub can_edit_post : PostStatus → Bool
can_edit_post status = is_pending status || is_approved status || is_rejected status

unfoldable pub can_withdraw_post : PostStatus → Bool
can_withdraw_post status = is_pending status || is_approved status || is_rejected status

unfoldable pub can_submit_post_review : PostStatus → Bool
can_submit_post_review status = is_rejected status

unfoldable pub can_review_post : PostStatus → Bool
can_review_post status = is_pending status

unfoldable pub can_revoke_post_review : PostStatus → Bool
can_revoke_post_review status = is_approved status || is_rejected status

unfoldable pub available_actions : Option Post → ℕ → Bool → Bool → List Action
unfolding can_edit_post can_withdraw_post can_submit_post_review
available_actions none viewer liked admin = []
available_actions (some post) viewer liked admin =
    if admin
    then []
    else if not (viewer == 0) && (post.author_id == viewer)
    then (if can_edit_post post.status then Action.edit ∷ [] else [])
      ++ ((if can_withdraw_post post.status then Action.withdraw ∷ [] else [])
          ++ (if can_submit_post_review post.status then Action.submit_review ∷ [] else []))
    else if (viewer == 0) || not (is_approved post.status)
    then []
    else (if liked then Action.unlike else Action.like) ∷ Action.comment ∷ []
