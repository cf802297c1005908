-- ===== src/Circle/Store.antt =====
-- infrastructure/store.go: what the transactions on sections and posts are made of.
pub mod Sections
pub mod Posts
pub mod Likes
pub mod Effects
pub mod Hierarchy
pub mod Moderation
pub mod Fairness
pub mod Placement
pub mod LikeSet
use backend_demo.Prelude.{
  ℕ, ℤ, Bool, true, false, Option, none, some, List, [], ◌∷◌, ◌++◌, ◌==◌, if◌then◌else◌,
}
use backend_demo.Platform.Errors.{
  Error, app, fault, record_not_found, Result, ok, err, Tx, ◌>>=◌, ◌>>◌, pure, lift, query, exec,
  guard, map_err,
}
use backend_demo.Platform.Text.{Text, codes, is_empty, decimal}
use backend_demo.Platform.Events.{Host, write_with_key}
use backend_demo.Circle.Post.{Section, Post, SectionStatus, PostStatus}
use backend_demo.Circle.Rule.{can_accept_posts}
use backend_demo.Circle.Database.{Database}

-- `gorm.ErrDuplicatedKey`.
abbrev pub duplicated_key : Error
duplicated_key = fault 30

abbrev pub post_not_found : Error
post_not_found = app 404 "campus_circle_post_not_found"

abbrev pub normalize_section_error : Error → Error
normalize_section_error record_not_found = app 404 "campus_circle_section_not_found"
normalize_section_error (fault n) =
    if n == 30 then app 409 "campus_circle_section_slug_exists" else fault n
normalize_section_error (app status code) = app status code

abbrev pub normalize_post_error : Error → Error
normalize_post_error record_not_found = post_not_found
normalize_post_error e = e

abbrev pub version_conflict : Error
version_conflict = app 409 "version_conflict"

abbrev pub invalid_hierarchy : Error
invalid_hierarchy = app 409 "invalid_campus_circle_section_hierarchy"

abbrev pub invalid_section_state : Error
invalid_section_state = app 409 "invalid_campus_circle_section_state"

abbrev pub section_unavailable : Error
section_unavailable = app 409 "campus_circle_section_unavailable"

abbrev pub invalid_post_state : Error
invalid_post_state = app 409 "invalid_campus_circle_post_state"

abbrev pub optional_string : Text → Option Text
optional_string value = if is_empty value then none else some value

pub record SectionPayload : Type 0 where
  pub section_id : ℕ
  pub parent_id : Option ℕ
  pub status : SectionStatus
  pub version : ℕ

pub record PostPayload : Type 0 where
  pub post_id : ℕ
  pub section_id : ℕ
  pub author_id : ℕ
  pub status : PostStatus
  pub version : ℕ

pub record LikePayload : Type 0 where
  pub post_id : ℕ
  pub actor_id : ℕ
  pub occurred_at : ℕ

-- Services of the host: the JSON of each payload with the digest and the clock.
pub record Services : Type 0 where
  pub section_host : Host SectionPayload
  pub post_host : Host PostPayload
  pub like_host : Host LikePayload

abbrev versioned_key : Text → ℕ → ℕ → Text
versioned_key kind id version =
    kind ++ (codes ":" ++ (decimal id ++ (codes ":" ++ decimal version)))

abbrev like_key : Text → ℕ → ℕ → ℕ → Text
like_key kind post actor now = versioned_key kind post actor ++ (codes ":" ++ decimal now)

module _ {S : Type 0} (db : Database S) (env : Services) where
  unfoldable pub write_section_event : Section → Text → Tx S (Unit {0})
  write_section_event x kind =
      write_with_key env.section_host db.events (codes "campus_circle_section") x.id kind
        (versioned_key kind x.id x.version)
        (record {
          section_id = x.id;
          parent_id = x.parent_id;
          status = x.status;
          version = x.version;
        })

  unfoldable pub write_post_event : Post → Text → Tx S (Unit {0})
  write_post_event x kind =
      write_with_key env.post_host db.events (codes "campus_circle_post") x.id kind
        (versioned_key kind x.id x.version)
        (record {
          post_id = x.id;
          section_id = x.section_id;
          author_id = x.author_id;
          status = x.status;
          version = x.version;
        })

  unfoldable pub write_like_event : Post → ℕ → Text → ℕ → Tx S (Unit {0})
  write_like_event x actor kind now =
      write_with_key env.like_host db.events (codes "campus_circle_post") x.id kind
        (like_key kind x.id actor now)
        (record { post_id = x.id; actor_id = actor; occurred_at = now })

abbrev pub parent_of : Section → Result ℕ
parent_of x = elim x.parent_id [ none ↦ err section_unavailable | some p ↦ ok p ]

module _ {S : Type 0} (db : Database S) where
  -- `lockSection`, and the reads of a section by its number.
  unfoldable pub lock_section : ℕ → S → Result Section
  lock_section id s = map_err normalize_section_error (db.first_section id s)

  unfoldable pub lock_post : ℕ → S → Result Post
  lock_post id s = map_err normalize_post_error (db.first_post id s)

  unfoldable pub ensure_section_accepts_posts : ℕ → Tx S (Unit {0})
  unfolding lock_section
  ensure_section_accepts_posts id = do
    x ← query (lock_section id)
    p ← lift (parent_of x)
    parent ← query (lock_section p)
    lift (guard (can_accept_posts (some x) (some parent)) section_unavailable)
    pure tt

  abbrev pub insert_images : ℕ → List Text → Tx S (Unit {0})
  insert_images post [] = pure tt
  insert_images post (url ∷ urls) = exec (db.create_images post (url ∷ urls))

  unfoldable pub replace_images : ℕ → List Text → Tx S (Unit {0})
  replace_images post urls = do exec (db.delete_images post); insert_images post urls

-- The outcome of a transaction, its error normalized.
abbrev pub normalized : {S A : Type 0} → (Error → Error) → Result A × S → Result A × S
normalized f (r, s) = (map_err f r, s)
