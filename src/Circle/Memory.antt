-- ===== src/Circle/Memory.antt =====
-- A campus circle in memory. It shows that the laws of `Database` can hold, and runs the examples.
use backend_demo.Prelude.{
  ℕ, suc, pos, ◌≡◌, refl, ap, ◌∙◌, Bool, true, false, ◌&&◌, Option, none, some, List, [], ◌==◌,
  ==_iff, Bool-cases, inl, inr, if◌then◌else◌, arith,
}
use backend_demo.Platform.Errors.{fault, record_not_found, Result, ok, err}
use backend_demo.Platform.Text.{Text}
use backend_demo.Circle.Post.{Section, Post}
use backend_demo.Circle.Database.{Database, Lawful, Tables, put_section, put_post}

-- `liked` tells the posts that may have likes.
pub record Memory : Type 0 where
  pub sections : ℕ → Option Section
  pub posts : ℕ → Option Post
  pub images : ℕ → List Text
  pub liked : ℕ → Bool
  pub likes : ℕ → ℕ → Bool
  pub next : ℕ

-- Rows carry their number.
abbrev section_at : ℕ → Option Section → Option Section
section_at i none = none
section_at i (some x) = some (record x { id = i })

abbrev post_at : ℕ → Option Post → Option Post
post_at i none = none
post_at i (some x) = some (record x { id = i })

abbrev found {ℓ} : {A : Type ℓ} → Option A → Result A
found none = err record_not_found
found (some a) = ok a

abbrev found_row : Bool → Result (Unit {0})
found_row true = ok tt
found_row false = err record_not_found

abbrev is_none : Option Section → Bool
is_none none = true
is_none (some _) = false

abbrev shown : (ℕ → Bool) → (ℕ → ℕ → Bool) → ℕ → ℕ → Bool
shown liked likes i u = liked i && likes i u

abbrev view : Memory → Tables
view m = record {
  sections = λ i. section_at i (m.sections i);
  posts = λ i. post_at i (m.posts i);
  images = m.images;
  likes = shown m.liked m.likes;
}

abbrev set_like : ℕ → ℕ → Bool → (ℕ → Bool) → (ℕ → ℕ → Bool) → ℕ → ℕ → Bool
set_like post user b liked likes i u =
    if (i == post) && (u == user) then b else shown liked likes i u

abbrev pub memory : Database Memory
memory = record {
  tables = view;
  first_section = λ id m. found (section_at id (m.sections id));
  first_post = λ id m. found (post_at id (m.posts id));
  create_section = λ x m.
      let y = record x { id = m.next } in
      if is_none (m.sections m.next)
      then ok (
        y,
        record m { sections = λ i. if i == y.id then some y else m.sections i; next = suc m.next },
      )
      else err (fault 9);
  save_section =
      λ x m. ok (record m { sections = λ i. if i == x.id then some x else m.sections i });
  create_post = λ x m.
      let y = record x { id = m.next } in
      if m.liked m.next
      then err (fault 9)
      else ok
          (y, record m { posts = λ i. if i == y.id then some y else m.posts i; next = suc m.next });
  save_post = λ x m. ok (record m { posts = λ i. if i == x.id then some x else m.posts i });
  delete_images = λ post m. ok (record m { images = λ i. if i == post then [] else m.images i });
  create_images =
      λ post urls m. ok (record m { images = λ i. if i == post then urls else m.images i });
  first_like = λ post user m. found_row (shown m.liked m.likes post user);
  create_like = λ post user m. ok (record m {
    liked = λ i. if i == post then true else m.liked i;
    likes = set_like post user true m.liked m.likes;
  });
  delete_like = λ post user m. ok (record m { likes = set_like post user false m.liked m.likes });
  load_images = λ post m. ok (m.images post);
  count_likes = λ post m. ok (pos 0);
  viewer_likes = λ post user m. ok (shown m.liked m.likes post user);
  count_comments = λ post m. ok (pos 0);
  events = record { insert = λ e m. ok m; take = λ k m. err record_not_found };
}

section_at-id : (i : ℕ) (o : Option Section) {x : Section} → section_at i o ≡ some x → x.id ≡ i
section_at-id i none h = cc
section_at-id i (some y) h = ground arith

post_at-id : (i : ℕ) (o : Option Post) {x : Post} → post_at i o ≡ some x → x.id ≡ i
post_at-id i none h = cc
post_at-id i (some y) h = ground arith

section_at-write :
    (x : Section) (rows : ℕ → Option Section) (i : ℕ)
    → section_at i (if i == x.id then some x else rows i)
      ≡ (if i == x.id then some x else section_at i (rows i))
section_at-write x rows i = elim (Bool-cases (i == x.id)) [
  | inl here ↦ rw here (ap (λ (n : ℕ). some (record x { id = n })) ((==_iff i x.id).0 here))
  | inr other ↦ rw other refl
]

post_at-write :
    (x : Post) (rows : ℕ → Option Post) (i : ℕ)
    → post_at i (if i == x.id then some x else rows i)
      ≡ (if i == x.id then some x else post_at i (rows i))
post_at-write x rows i = elim (Bool-cases (i == x.id)) [
  | inl here ↦ rw here (ap (λ (n : ℕ). some (record x { id = n })) ((==_iff i x.id).0 here))
  | inr other ↦ rw other refl
]

view-section :
    (x : Section) (m m' : Memory)
    → m'.sections ≡ (λ i. if i == x.id then some x else m.sections i)
    → m'.posts ≡ m.posts
    → m'.images ≡ m.images
    → m'.liked ≡ m.liked
    → m'.likes ≡ m.likes
    → view m' ≡ put_section x (view m)
view-section x m m' a b c d e i = record {
  sections = λ j.
      (ap (λ (f : ℕ → Option Section). section_at j (f j)) a ∙ section_at-write x m.sections j) i;
  posts = λ j. post_at j (b i j);
  images = c i;
  likes = shown (d i) (e i);
}

view-post :
    (x : Post) (m m' : Memory)
    → m'.posts ≡ (λ i. if i == x.id then some x else m.posts i)
    → m'.sections ≡ m.sections
    → m'.images ≡ m.images
    → m'.liked ≡ m.liked
    → m'.likes ≡ m.likes
    → view m' ≡ put_post x (view m)
view-post x m m' a b c d e i = record {
  posts = λ j. (ap (λ (f : ℕ → Option Post). post_at j (f j)) a ∙ post_at-write x m.posts j) i;
  sections = λ j. section_at j (b i j);
  images = c i;
  likes = shown (d i) (e i);
}

found-ok {ℓ} : {A : Type ℓ} (o : Option A) {a : A} → found o ≡ ok a → o ≡ some a
found-ok none h = cc
found-ok (some a) h = cc

found_row-ok : (b : Bool) → found_row b ≡ ok tt → b ≡ true
found_row-ok true h = refl
found_row-ok false h = cc

found_row-missing : (b : Bool) → found_row b ≡ err record_not_found → b ≡ false
found_row-missing true h = cc
found_row-missing false h = refl

stored : (m m' : Memory) → ◌≡◌ {A = Result Memory} (ok m) (ok m') → m' ≡ m
stored m m' h = cc

shown-delete :
    (post user : ℕ) (liked : ℕ → Bool) (likes : ℕ → ℕ → Bool) (i u : ℕ)
    → shown liked (set_like post user false liked likes) i u
      ≡ (if (i == post) && (u == user) then false else shown liked likes i u)
shown-delete post user liked likes i u = ground arith

shown-create :
    (post user : ℕ) (liked : ℕ → Bool) (likes : ℕ → ℕ → Bool) (i u : ℕ)
    → shown (λ j. if j == post then true else liked j) (set_like post user true liked likes) i u
      ≡ (if (i == post) && (u == user) then true else shown liked likes i u)
shown-create post user liked likes i u = ground arith

new_section_row :
    (x y : Section) (m m' : Memory)
    → memory.create_section x m ≡ ok (y, m')
    → (y ≡ record x { id = y.id })
      × (section_at y.id (m.sections y.id) ≡ none)
      × (m'.sections ≡ (λ i. if i == y.id then some y else m.sections i))
      × (m'.posts ≡ m.posts)
      × (m'.images ≡ m.images)
      × (m'.liked ≡ m.liked)
      × (m'.likes ≡ m.likes)
new_section_row x y m m' h = ground arith

new_post_row :
    (x y : Post) (m m' : Memory)
    → memory.create_post x m ≡ ok (y, m')
    → (y ≡ record x { id = y.id })
      × (m.liked y.id ≡ false)
      × (m'.posts ≡ (λ i. if i == y.id then some y else m.posts i))
      × (m'.sections ≡ m.sections)
      × (m'.images ≡ m.images)
      × (m'.liked ≡ m.liked)
      × (m'.likes ≡ m.likes)
new_post_row x y m m' h = ground arith

pub memory-Lawful : Lawful memory
memory-Lawful = record {
  section_keyed = λ m id x h. section_at-id id (m.sections id) h;
  post_keyed = λ m id x h. post_at-id id (m.posts id) h;
  first_section_ok = λ id m x h. found-ok (section_at id (m.sections id)) h;
  first_post_ok = λ id m x h. found-ok (post_at id (m.posts id)) h;
  create_section_ok = λ x y m m' h.
      let (made, fresh, a, b, c, d, e) = new_section_row x y m m' h in
      (made, fresh, view-section y m m' a b c d e);
  save_section_ok = λ x m m' h.
      ap view (stored _ m' h)
      ∙ view-section x m (record m { sections = λ i. if i == x.id then some x else m.sections i })
          refl refl refl refl refl;
  create_post_ok = λ x y m m' h.
      let (made, free, a, b, c, d, e) = new_post_row x y m m' h in
      (made, λ user. rw free refl, view-post y m m' a b c d e);
  save_post_ok = λ x m m' h.
      ap view (stored _ m' h)
      ∙ view-post x m (record m { posts = λ i. if i == x.id then some x else m.posts i }) refl refl
          refl refl refl;
  delete_images_ok = λ post m m' h. ap view (stored _ m' h);
  create_images_ok = λ post urls m m' h empty. ap view (stored _ m' h);
  first_like_ok = λ post user m h. found_row-ok (shown m.liked m.likes post user) h;
  first_like_missing = λ post user m h. found_row-missing (shown m.liked m.likes post user) h;
  create_like_ok = λ post user m m' h.
      ap view (stored _ m' h)
      ∙ (λ i. record (view m) { likes = λ j u. shown-create post user m.liked m.likes j u i });
  delete_like_ok = λ post user m m' h.
      ap view (stored _ m' h)
      ∙ (λ i. record (view m) { likes = λ j u. shown-delete post user m.liked m.likes j u i });
  insert_ok = λ e m m' h. ap view (stored m m' h);
}
