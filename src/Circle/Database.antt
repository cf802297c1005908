-- ===== src/Circle/Database.antt =====
-- The statements that the campus-circle store sends to the database, as an interface: what each
-- returns, and what a read sees after a write. Every statement may fail with an error of its own.
use backend_demo.Prelude.{
  ℕ, ℤ, ◌≡◌, Bool, true, false, ◌&&◌, Option, none, some, List, [], ◌==◌, if◌then◌else◌,
}
use backend_demo.Platform.Errors.{record_not_found, Result, ok, err}
use backend_demo.Platform.Text.{Text}
use backend_demo.Platform.Events.{Event, EventTable}
use backend_demo.Circle.Post.{Section, Post}

-- What the tables of sections, posts, images and likes hold. A like is told by its post and user,
-- which are a unique key; images are in their order.
pub record Tables : Type 0 where
  pub sections : ℕ → Option Section
  pub posts : ℕ → Option Post
  pub images : ℕ → List Text
  pub likes : ℕ → ℕ → Bool

abbrev pub put_section : Section → Tables → Tables
put_section x tb = record tb { sections = λ i. if i == x.id then some x else tb.sections i }

abbrev pub put_post : Post → Tables → Tables
put_post x tb = record tb { posts = λ i. if i == x.id then some x else tb.posts i }

abbrev pub put_images : ℕ → List Text → Tables → Tables
put_images post urls tb = record tb { images = λ i. if i == post then urls else tb.images i }

abbrev pub put_like : ℕ → ℕ → Bool → Tables → Tables
put_like post user liked tb = record tb {
  likes = λ i u. if (i == post) && (u == user) then liked else tb.likes i u;
}

pub record Database (S : Type 0) : Type 0 where
  pub tables : S → Tables
  pub first_section : ℕ → S → Result Section
  pub first_post : ℕ → S → Result Post
  pub create_section : Section → S → Result (Section × S)
  pub save_section : Section → S → Result S
  pub create_post : Post → S → Result (Post × S)
  pub save_post : Post → S → Result S
  pub delete_images : ℕ → S → Result S
  pub create_images : ℕ → List Text → S → Result S
  pub first_like : ℕ → ℕ → S → Result (Unit {0})
  pub create_like : ℕ → ℕ → S → Result S
  pub delete_like : ℕ → ℕ → S → Result S
  pub load_images : ℕ → S → Result (List Text)
  pub count_likes : ℕ → S → Result ℤ
  pub viewer_likes : ℕ → ℕ → S → Result Bool
  pub count_comments : ℕ → S → Result ℤ
  pub events : EventTable S

-- The documented behaviour: `id` is the primary key, a statement that reports success has done its
-- work, and a read that finds no row says so. A new row has an unused number, also by rows that
-- refer to it.
pub record Lawful {S : Type 0} (db : Database S) : Type 0 where
  pub section_keyed :
      (s : S) (id : ℕ) (x : Section) → (db.tables s).sections id ≡ some x → x.id ≡ id
  pub post_keyed : (s : S) (id : ℕ) (x : Post) → (db.tables s).posts id ≡ some x → x.id ≡ id
  pub first_section_ok :
      (id : ℕ) (s : S) (x : Section)
      → db.first_section id s ≡ ok x
      → (db.tables s).sections id ≡ some x
  pub first_post_ok :
      (id : ℕ) (s : S) (x : Post) → db.first_post id s ≡ ok x → (db.tables s).posts id ≡ some x
  pub create_section_ok :
      (x y : Section) (s s' : S)
      → db.create_section x s ≡ ok (y, s')
      → (y ≡ record x { id = y.id })
        × ((db.tables s).sections y.id ≡ none)
        × (db.tables s' ≡ put_section y (db.tables s))
  pub save_section_ok :
      (x : Section) (s s' : S)
      → db.save_section x s ≡ ok s'
      → db.tables s' ≡ put_section x (db.tables s)
  pub create_post_ok :
      (x y : Post) (s s' : S)
      → db.create_post x s ≡ ok (y, s')
      → (y ≡ record x { id = y.id })
        × ((user : ℕ) → (db.tables s).likes y.id user ≡ false)
        × (db.tables s' ≡ put_post y (db.tables s))
  pub save_post_ok :
      (x : Post) (s s' : S) → db.save_post x s ≡ ok s' → db.tables s' ≡ put_post x (db.tables s)
  pub delete_images_ok :
      (post : ℕ) (s s' : S)
      → db.delete_images post s ≡ ok s'
      → db.tables s' ≡ put_images post [] (db.tables s)
  pub create_images_ok :
      (post : ℕ) (urls : List Text) (s s' : S)
      → db.create_images post urls s ≡ ok s'
      → (db.tables s).images post ≡ []
      → db.tables s' ≡ put_images post urls (db.tables s)
  pub first_like_ok :
      (post user : ℕ) (s : S)
      → db.first_like post user s ≡ ok tt
      → (db.tables s).likes post user ≡ true
  pub first_like_missing :
      (post user : ℕ) (s : S)
      → db.first_like post user s ≡ err record_not_found
      → (db.tables s).likes post user ≡ false
  pub create_like_ok :
      (post user : ℕ) (s s' : S)
      → db.create_like post user s ≡ ok s'
      → db.tables s' ≡ put_like post user true (db.tables s)
  pub delete_like_ok :
      (post user : ℕ) (s s' : S)
      → db.delete_like post user s ≡ ok s'
      → db.tables s' ≡ put_like post user false (db.tables s)
  pub insert_ok : (e : Event) (s s' : S) → db.events.insert e s ≡ ok s' → db.tables s' ≡ db.tables s
