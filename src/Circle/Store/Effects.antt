-- ===== src/Circle/Store/Effects.antt =====
-- What the transactions of the campus circle leave in the tables when they succeed.
use backend_demo.Prelude.{
  ap, ℕ, false, ◌≡◌, refl, ◌∙◌, inl, inr, Option, some, List, [], ◌∷◌, ==_refl, arith,
}
use backend_demo.Platform.Errors.{
  Result, ok, err, Runs, pure-Runs, >>-Runs, guard-Runs, query-Runs, exec-Runs, lift-Runs,
  map_err-eq-ok, statements,
}
use backend_demo.Platform.Text.{Text}
use backend_demo.Platform.Events.Effects.{write_with_key-Runs}
use backend_demo.Circle.Post.{Section, Post}
use backend_demo.Circle.Rule.{is_root}
use backend_demo.Circle.Database.{Database, Lawful, Tables, put_post}
use backend_demo.Circle.Store.{
  Services, write_section_event, write_post_event, write_like_event, lock_section, lock_post,
  ensure_section_accepts_posts, insert_images, replace_images, parent_of, normalize_section_error,
  normalize_post_error,
}
use backend_demo.Circle.Store.Posts.{save_with_event}

-- A section that posts may be in: its parent is set.
abbrev pub Leaf : (ℕ → Option Section) → ℕ → Type 0
Leaf sections id = (x : Section) × (sections id ≡ some x) × (is_root x.parent_id ≡ false)

-- The tables but for the images: the post was written.
pub record Wrote (x : Post) (before after : Tables) : Type 0 where
  pub sections : after.sections ≡ before.sections
  pub posts : after.posts ≡ (put_post x before).posts
  pub likes : after.likes ≡ before.likes

parent-not_root : (x : Section) (p : ℕ) → parent_of x ≡ ok p → is_root x.parent_id ≡ false
parent-not_root x p h = ground (arith, h)

module _ {S : Type 0} (db : Database S) (env : Services) (law : Lawful db) where
  pub section_event-tables :
      (x : Section) (kind : Text) (s s' : S)
      → Runs (write_section_event db env x kind) s tt s'
      → db.tables s' ≡ db.tables s
  unfolding write_section_event
  section_event-tables x kind s s' h =
      elim (write_with_key-Runs env.section_host db.events _ _ _ _ _ s s' h) [
        | inl (e, inserted) ↦ law.insert_ok e s s' inserted
        | inr same ↦ rw same
      ]

  pub post_event-tables :
      (x : Post) (kind : Text) (s s' : S)
      → Runs (write_post_event db env x kind) s tt s'
      → db.tables s' ≡ db.tables s
  unfolding write_post_event
  post_event-tables x kind s s' h =
      elim (write_with_key-Runs env.post_host db.events _ _ _ _ _ s s' h) [
        | inl (e, inserted) ↦ law.insert_ok e s s' inserted
        | inr same ↦ rw same
      ]

  pub like_event-tables :
      (x : Post) (actor : ℕ) (kind : Text) (now : ℕ) (s s' : S)
      → Runs (write_like_event db env x actor kind now) s tt s'
      → db.tables s' ≡ db.tables s
  unfolding write_like_event
  like_event-tables x actor kind now s s' h =
      elim (write_with_key-Runs env.like_host db.events _ _ _ _ _ s s' h) [
        | inl (e, inserted) ↦ law.insert_ok e s s' inserted
        | inr same ↦ rw same
      ]

  pub found_section :
      (id : ℕ) (s : S) {x : Section}
      → lock_section db id s ≡ ok x
      → (db.tables s).sections id ≡ some x
  unfolding lock_section
  found_section id s {x} h =
      law.first_section_ok id s x (map_err-eq-ok normalize_section_error (db.first_section id s) h)

  pub found_post :
      (id : ℕ) (s : S) {x : Post} → lock_post db id s ≡ ok x → (db.tables s).posts id ≡ some x
  unfolding lock_post
  found_post id s {x} h =
      law.first_post_ok id s x (map_err-eq-ok normalize_post_error (db.first_post id s) h)

  -- A section that accepts posts is a leaf, and is only read.
  pub ensure-Runs :
      (id : ℕ) {s s' : S}
      → Runs (ensure_section_accepts_posts db id) s tt s'
      → Leaf (db.tables s).sections id × (s' ≡ s)
  unfolding ensure_section_accepts_posts
  ensure-Runs id {s} h =
      let (x, read, h1) = query-Runs h in
      let (p, child, h2) = lift-Runs h1 in
      let (_, _, h3) = query-Runs h2 in
      let (_, h4) = guard-Runs _ h3 in
      let (_, last) = pure-Runs h4 in
      ((x, found_section id s read.result, parent-not_root x p child), last)

  -- A part of the tables that the writes of images leave alone.
  pub record Unseen (s s' : S) : Type 0 where
    pub sections : (db.tables s').sections ≡ (db.tables s).sections
    pub posts : (db.tables s').posts ≡ (db.tables s).posts
    pub likes : (db.tables s').likes ≡ (db.tables s).likes

  unseen :
      (s s' : S) (tb : Tables)
      → db.tables s' ≡ tb
      → tb.sections ≡ (db.tables s).sections
      → tb.posts ≡ (db.tables s).posts
      → tb.likes ≡ (db.tables s).likes
      → Unseen s s'
  unseen s s' tb e a b c = record {
    sections = ap (λ (x : Tables). x.sections) e ∙ a;
    posts = ap (λ (x : Tables). x.posts) e ∙ b;
    likes = ap (λ (x : Tables). x.likes) e ∙ c;
  }

  insert-Unseen :
      (post : ℕ) (urls : List Text) {s s' : S}
      → (db.tables s).images post ≡ []
      → Runs (insert_images db post urls) s tt s'
      → Unseen s s'
  unfolding statements
  insert-Unseen post [] {s} {s'} empty h =
      unseen s s' (db.tables s) (ap db.tables (pure-Runs h).1) refl refl refl
  insert-Unseen post (url ∷ urls) {s} {s'} empty h = inserted _ refl h.result
    where
      inserted :
          (r : Result S)
          → db.create_images post (url ∷ urls) s ≡ r
          → insert_images db post (url ∷ urls) s ≡ ok (tt, s')
          → Unseen s s'
      inserted (ok s1) e h =
          let same : s' ≡ s1 = ground (arith, e, h) in
          unseen s s' _ (ap db.tables same ∙ law.create_images_ok post (url ∷ urls) s s1 e empty)
            refl refl refl
      inserted (err x) e h = absurd (ground (arith, e, h))

  pub replace_images-Unseen :
      (post : ℕ) (urls : List Text) {s s' : S}
      → Runs (replace_images db post urls) s tt s'
      → Unseen s s'
  unfolding replace_images
  replace_images-Unseen post urls {s} {s'} h =
      let (s1, cleared, rest) = exec-Runs h in
      let gone = law.delete_images_ok post s s1 cleared.result in
      let none_left : (db.tables s1).images post ≡ [] =
        ap (λ (x : Tables). x.images post) gone ∙ rw (==_refl post) refl in
      let later = insert-Unseen post urls none_left rest in
      record {
        sections = later.sections ∙ ap (λ (x : Tables). x.sections) gone;
        posts = later.posts ∙ ap (λ (x : Tables). x.posts) gone;
        likes = later.likes ∙ ap (λ (x : Tables). x.likes) gone;
      }

  wrote :
      (x : Post) (s s' : S)
      → db.tables s' ≡ put_post x (db.tables s)
      → Wrote x (db.tables s) (db.tables s')
  wrote x s s' e = record {
    sections = ap (λ (t : Tables). t.sections) e;
    posts = ap (λ (t : Tables). t.posts) e;
    likes = ap (λ (t : Tables). t.likes) e;
  }

  pub save_with_event-Runs :
      (x : Post) (kind : Text) {s : S} {u : Post} {s' : S}
      → Runs (save_with_event db env x kind) s u s'
      → (u ≡ x) × Wrote x (db.tables s) (db.tables s')
  unfolding save_with_event
  save_with_event-Runs x kind {s} {u} {s'} h =
      let (s1, saved, h1) = exec-Runs h in
      let (s2, told, h2) = >>-Runs h1 in
      let (same, last) = pure-Runs h2 in
      (
        same,
        wrote x s s' (
            ap db.tables last
            ∙ post_event-tables x kind s1 s2 told
            ∙ law.save_post_ok x s s1 saved.result),
      )

  -- A write of a post, its images and an event.
  pub Wrote-Unseen :
      (x : Post) (kind : Text) (s s1 s2 s3 s' : S)
      → db.tables s1 ≡ put_post x (db.tables s)
      → Unseen s1 s2
      → Runs (write_post_event db env x kind) s2 tt s3
      → s' ≡ s3
      → Wrote x (db.tables s) (db.tables s')
  Wrote-Unseen x kind s s1 s2 s3 s' saved images told last =
      let kept = ap db.tables last ∙ post_event-tables x kind s2 s3 told in
      record {
        sections =
            ap (λ (t : Tables). t.sections) kept
            ∙ images.sections
            ∙ ap (λ (t : Tables). t.sections) saved;
        posts =
            ap (λ (t : Tables). t.posts) kept ∙ images.posts ∙ ap (λ (t : Tables). t.posts) saved;
        likes =
            ap (λ (t : Tables). t.likes) kept ∙ images.likes ∙ ap (λ (t : Tables). t.likes) saved;
      }
