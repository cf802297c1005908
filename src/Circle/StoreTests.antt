-- ===== src/Circle/StoreTests.antt =====
-- Two sections in memory: a history of the manager, and the theorems at work on it.
use backend_demo.Prelude.{
  ℕ, true, false, ◌≡◌, refl, Option, none, some, List, [], ◌∷◌, ◌==◌, if◌then◌else◌, arith,
}
use backend_demo.Platform.Errors.{ok, statements}
use backend_demo.Platform.Text.{codes, decimal, is_empty, trim, Text}
use backend_demo.Platform.Events.{write_with_key}
use backend_demo.Circle.Post.{Section, Post, PostInput, post_approved}
use backend_demo.Circle.Rule.{
  normalize_post_input, validate_post_input, valid_post, can_accept_posts, can_review_post,
}
use backend_demo.Circle.Memory.{Memory, memory, memory-Lawful}
use backend_demo.Circle.Store.{
  Services, lock_post, lock_section, ensure_section_accepts_posts, replace_images, write_post_event,
  write_like_event,
}
use backend_demo.Circle.Store.Posts.{
  create_post_tx, mutate_post_tx, mutate_post, review_change, save_with_event, new_post, decided,
  item,
}
use backend_demo.Circle.Store.Posts as Posts
use backend_demo.Circle.Store.Likes.{change_like, change_like_tx, apply_like}
use backend_demo.Circle.Database.{put_like}
use backend_demo.Circle.Store.LikeSet.{change_like-put_like}
use backend_demo.Circle.Store.Hierarchy.{Sound, PostOk}
use backend_demo.Circle.Manager.{only_if, create_post, review_post, like_post}
use backend_demo.Circle.Manager.Calls.{Call, creates_post, reviews, likes, history}
use backend_demo.Circle.Manager.History.{history-PostOk}
use backend_demo.Circle.Tests.{sport, tennis}

abbrev services : Services
services = record {
  section_host = record { marshal = λ p. ok []; digest = λ t. t; time = 0 };
  post_host = record { marshal = λ p. ok []; digest = λ t. t; time = 0 };
  like_host = record { marshal = λ p. ok []; digest = λ t. t; time = 0 };
}

abbrev club : Memory
club = record {
  sections = λ i. if i == 1 then some sport else if i == 2 then some tennis else none;
  posts = λ i. none;
  images = λ i. [];
  liked = λ i. false;
  likes = λ i u. false;
  next = 3;
}

club-Sound : Sound (memory.tables club)
club-Sound = record {
  tree = λ id p x there up. root id p x there up;
  posts = λ id x there. cc (there);
}
  where
    root :
        (id p : ℕ) (x : Section)
        → (memory.tables club).sections id ≡ some x
        → x.parent_id ≡ some p
        → (r : Section) × ((memory.tables club).sections p ≡ some r) × (r.parent_id ≡ none)
    root id p x there up = (sport, ground (arith, there, up), refl)

abbrev no_uri : Text → Option (Text × Text)
no_uri t = none

abbrev same_text : Text → Text
same_text t = t

abbrev match_report : PostInput
match_report = record { section_id = 2; title = codes "won"; content = []; image_urls = [] }

-- Member 7 posts, administrator 1 approves, member 5 likes.
abbrev calls : List (ℕ × Call)
calls = (10, creates_post 7 match_report) ∷ (20, reviews 3 1 1 true []) ∷ (30, likes 3 5 true) ∷ []

abbrev report : Post
report = record {
  id = 3;
  section_id = 2;
  author_id = 7;
  title = some (codes "won");
  content = none;
  status = post_approved;
  review_reason = none;
  reviewed_by = some 1;
  reviewed_at = some 20;
  published_at = some 20;
  version = 2;
}

runs : Unit {0}
unfolding valid_post history only_if create_post review_post like_post normalize_post_input
    validate_post_input can_accept_posts can_review_post lock_post lock_section
    ensure_section_accepts_posts replace_images write_post_event write_like_event Posts.create_post
    create_post_tx mutate_post_tx mutate_post review_change save_with_event new_post decided item
    change_like change_like_tx apply_like write_with_key statements decimal is_empty trim
runs = tt

abbrev later : Memory
later = history no_uri same_text memory services calls club

history-PostOk_example :
    PostOk (memory.tables later).sections (memory.tables later).likes report
    × ((section : Section) × (p : ℕ) × (root : Section) × ((memory.tables later).sections 2
          ≡ some section)
        × (section.parent_id ≡ some p)
        × ((memory.tables later).sections p ≡ some root)
        × (root.parent_id ≡ none))
unfolding runs
history-PostOk_example =
    history-PostOk no_uri same_text memory services memory-Lawful calls club club-Sound 3 report
      refl

-- Member 5 takes the like back at 40.
change_like-put_like_example :
    memory.tables (change_like memory services 3 5 40 false later).1
    ≡ put_like 3 5 false (memory.tables later)
unfolding runs
change_like-put_like_example =
    change_like-put_like memory services memory-Lawful 3 5 40 false later refl
