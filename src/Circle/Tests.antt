-- ===== src/Circle/Tests.antt =====
-- Sections and a post, and the theorems at work on them.
use backend_demo.Prelude.{pos, false, ◌≡◌, refl, none, some}
use backend_demo.Platform.Text.{codes}
use backend_demo.Circle.Post.{
  Section, Post, section_active, section_archived, post_approved, is_active,
}
use backend_demo.Circle.Rule.{valid_parent, can_accept_posts}
use backend_demo.Circle.Access.{valid_parent-posts, can_accept_posts-two_levels}

abbrev pub sport : Section
sport = record {
  id = 1;
  parent_id = none;
  slug = codes "sport";
  name = codes "sport";
  description = none;
  icon_url = none;
  cover_url = none;
  sort_order = pos 0;
  status = section_active;
  created_by = 1;
  updated_by = 1;
  version = 1;
}

abbrev pub tennis : Section
tennis = record sport { id = 2; parent_id = some 1; slug = codes "tennis" }

abbrev closed_sport : Section
closed_sport = record sport { status = section_archived; version = 2 }

abbrev pub post : Post
post = record {
  id = 1;
  section_id = 2;
  author_id = 7;
  title = none;
  content = some (codes "hello");
  status = post_approved;
  review_reason = none;
  reviewed_by = some 1;
  reviewed_at = some 5;
  published_at = some 5;
  version = 2;
}

valid_parent-posts_example :
    can_accept_posts (some tennis) (some closed_sport) ≡ is_active section_archived
unfolding valid_parent
valid_parent-posts_example = valid_parent-posts tennis sport closed_sport refl refl refl refl

can_accept_posts-two_levels_example :
    (can_accept_posts (some sport) (some tennis) ≡ false)
    × (valid_parent 3 (some tennis.id) (some tennis) ≡ false)
unfolding can_accept_posts
can_accept_posts-two_levels_example = can_accept_posts-two_levels tennis sport tennis 3 refl
