-- ===== src/Circle/Store/Fairness.antt =====
-- A new post, and likes, keep the tables sound.
use backend_demo.Prelude.{
  ap, ℕ, Bool, true, false, ◌&&◌, not, ◌≡◌, ◌≢◌, refl, sym, ◌∙◌, subst, inl, inr, some, ◌==◌,
  Bool-cases, arith, if◌then◌else◌,
}
use backend_demo.Platform.Errors.{
  Runs, pure-Runs, >>-Runs, >>=-Runs, guard-Runs, query-Runs, exec-Runs, transaction-Runs,
}
use backend_demo.Circle.Post.{Post, PostInput, is_approved}
use backend_demo.Circle.Database.{Database, Lawful, Tables, put_post, put_like}
use backend_demo.Circle.Store.{Services}
use backend_demo.Circle.Store.Posts.{new_post, create_post_tx, create_post}
use backend_demo.Circle.Store.Likes.{apply_like, change_like_tx, change_like}
use backend_demo.Circle.Store.Effects.{
  Leaf, found_post, ensure-Runs, replace_images-Unseen, Wrote-Unseen, like_event-tables,
}
use backend_demo.Circle.Store.Hierarchy.{Sound, Wrote-Sound}
use backend_demo.Circle.Store.Moderation.{with_item-Sound}

new_post-facts :
    (author : ℕ) (input : PostInput)
    → ((new_post author input).section_id ≡ input.section_id)
      × (is_approved (new_post author input).status ≡ false)
unfolding new_post
new_post-facts author input = (refl, refl)

fair_like :
    (likes : ℕ → ℕ → Bool) (x : Post) (post actor : ℕ)
    → (x.id ≡ post → x.author_id ≢ actor)
    → ((user : ℕ) → likes x.id user ≡ true → x.author_id ≢ user)
    → (user : ℕ) → (if (x.id == post) && (user == actor) then true else likes x.id user) ≡ true
    → x.author_id ≢ user
fair_like likes x post actor other fair user h =
    elim (Bool-cases ((x.id == post) && (user == actor))) [
      | inl here ↦ λ same. other (ground (arith, here)) (same ∙ ground (arith, here))
      | inr apart ↦ fair user (sym (rw apart refl) ∙ h)
    ]

unfair_like :
    (likes : ℕ → ℕ → Bool) (x : Post) (post actor : ℕ)
    → ((user : ℕ) → likes x.id user ≡ true → x.author_id ≢ user)
    → (user : ℕ) → (if (x.id == post) && (user == actor) then false else likes x.id user) ≡ true
    → x.author_id ≢ user
unfair_like likes x post actor fair user h = elim (Bool-cases ((x.id == post) && (user == actor))) [
  | inl here ↦ absurd (ground (arith, here, h))
  | inr apart ↦ fair user (sym (rw apart refl) ∙ h)
]

-- A like of a post by another than its author, or the end of one.
put_like-Sound :
    (tb : Tables) (id actor : ℕ) (x : Post) (liked : Bool)
    → ((i : ℕ) (y : Post) → tb.posts i ≡ some y → y.id ≡ i)
    → tb.posts id ≡ some x
    → x.author_id ≢ actor
    → Sound tb
    → Sound (put_like id actor liked tb)
put_like-Sound tb id actor x liked keyed there other sound = record {
  tree = sound.tree;
  posts = λ i y stored.
      let v = sound.posts i y stored in
      record { leaf = v.leaf; decided = v.decided; fair = fair liked i y stored v.fair };
}
  where
    fair :
        (b : Bool) (i : ℕ) (y : Post)
        → tb.posts i ≡ some y
        → ((user : ℕ) → tb.likes y.id user ≡ true → y.author_id ≢ user)
        → (user : ℕ) → (put_like id actor b tb).likes y.id user ≡ true
        → y.author_id ≢ user
    fair false i y stored v user h = unfair_like tb.likes y id actor v user h
    fair true i y stored v user h =
        fair_like tb.likes y id actor
          (λ here.
            let at = sym (keyed i y stored) ∙ here in
            let z = sym stored ∙ ap tb.posts at ∙ there in
            let e : y ≡ x = cc (z) in subst (λ (p : Post). p.author_id ≢ actor) (sym e) other)
          v user h

differs : (a b : ℕ) → not (a == b) ≡ true → a ≢ b
differs a b h = ground (arith, h)

module _ {S : Type 0} (db : Database S) (env : Services) (law : Lawful db) where
  apply_like-Sound :
      (id actor now : ℕ) (x : Post) (liked existing : Bool) {s : S} {u : Post} {s' : S}
      → (db.tables s).posts id ≡ some x
      → x.author_id ≢ actor
      → Sound (db.tables s)
      → Runs (apply_like db env id x actor now liked existing) s u s'
      → Sound (db.tables s')
  unfolding apply_like
  apply_like-Sound id actor now x true false {s} {u} {s'} there other sound h =
      let (s1, made, h1) = exec-Runs h in
      let (s2, told, h2) = >>-Runs h1 in
      let (_, last) = pure-Runs h2 in
      subst Sound
        (sym (
          ap db.tables last
          ∙ like_event-tables db env law x actor _ now s1 s2 told
          ∙ law.create_like_ok id actor s s1 made.result))
        (put_like-Sound (db.tables s) id actor x true (λ i y. law.post_keyed s i y) there other
          sound)
  apply_like-Sound id actor now x false true {s} {u} {s'} there other sound h =
      let (s1, made, h1) = exec-Runs h in
      let (s2, told, h2) = >>-Runs h1 in
      let (_, last) = pure-Runs h2 in
      subst Sound
        (sym (
          ap db.tables last
          ∙ like_event-tables db env law x actor _ now s1 s2 told
          ∙ law.delete_like_ok id actor s s1 made.result))
        (put_like-Sound (db.tables s) id actor x false (λ i y. law.post_keyed s i y) there other
          sound)
  apply_like-Sound id actor now x true true there other sound h =
      subst (λ t. Sound (db.tables t)) (sym (pure-Runs h).1) sound
  apply_like-Sound id actor now x false false there other sound h =
      subst (λ t. Sound (db.tables t)) (sym (pure-Runs h).1) sound

  pub change_like-Sound :
      (id actor now : ℕ) (liked : Bool) (s : S)
      → Sound (db.tables s)
      → Sound (db.tables (change_like db env id actor now liked s).1)
  unfolding change_like change_like_tx
  change_like-Sound id actor now liked s sound = with_item-Sound db env law actor _ s sound λ u h.
      let (x, read, h1) = query-Runs (transaction-Runs _ s h) in
      let (_, h2) = guard-Runs _ h1 in
      let (other, h3) = guard-Runs _ h2 in
      let (existing, _, h4) = query-Runs h3 in
      apply_like-Sound id actor now x liked existing (found_post db env law id s read.result)
        (differs x.author_id actor other) sound h4

  pub create_post-Sound :
      (author : ℕ) (input : PostInput) (s : S)
      → Sound (db.tables s)
      → Sound (db.tables (create_post db env author input s).1)
  unfolding create_post create_post_tx
  create_post-Sound author input s sound = with_item-Sound db env law author _ s sound λ u h.
      let (s1, checked, h1) = >>-Runs (transaction-Runs _ s h) in
      let (leaf, same) = ensure-Runs db env law input.section_id checked in
      let (x, s2, made, h2) = >>=-Runs h1 in
      let (s3, pictured, h3) = >>-Runs h2 in
      let (s4, told, h4) = >>-Runs h3 in
      let (_, last) = pure-Runs h4 in
      let (named, unliked, put) = law.create_post_ok _ x s1 s2 made.result in
      let (section, hidden) = new_post-facts author input in
      let images = replace_images-Unseen db env law x.id input.image_urls pictured in
      Wrote-Sound x (db.tables s) _
        (Wrote-Unseen db env law x _ s s2 s3 s4 _ (put ∙ ap (λ t. put_post x (db.tables t)) same)
          images told last)
        (record {
          leaf =
              subst (Leaf (db.tables s).sections)
                (sym (ap (λ (p : Post). p.section_id) named ∙ section)) leaf;
          decided = λ shown. cc (shown, ap (λ (p : Post). is_approved p.status) named, hidden);
          fair =
              λ user liked. cc (ap (λ t. (db.tables t).likes x.id user) same, unliked user, liked);
        })
        sound
