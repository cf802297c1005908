-- ===== src/Circle/Store/LikeSet.antt =====
-- Likes are a set of users to each post: a like adds one, an unlike takes one away.
use backend_demo.Prelude.{
  ap, ℕ, Bool, true, false, ◌&&◌, ◌≡◌, refl, sym, ◌∙◌, inl, inr, ◌==◌, ==_iff, Bool-cases,
  if◌then◌else◌,
}
use backend_demo.Platform.Errors.{
  app, fault, record_not_found, Result, ok, err, Runs, pure-Runs, >>-Runs, guard-Runs, query-Runs,
  exec-Runs, transaction-Runs,
}
use backend_demo.Circle.Post.{Post}
use backend_demo.Circle.Database.{Database, Lawful, Tables, put_like}
use backend_demo.Circle.Store.{Services}
use backend_demo.Circle.Store.Posts.{Item, with_item}
use backend_demo.Circle.Store.Likes.{found_like, apply_like, change_like_tx, change_like}
use backend_demo.Circle.Store.Effects.{like_event-tables}

found_like-true : (r : Result (Unit {0})) → found_like r ≡ ok true → r ≡ ok tt
found_like-true (ok tt) h = refl
found_like-true (err record_not_found) h = cc
found_like-true (err (app _ _)) h = cc
found_like-true (err (fault _)) h = cc

found_like-false : (r : Result (Unit {0})) → found_like r ≡ ok false → r ≡ err record_not_found
found_like-false (ok tt) h = cc
found_like-false (err record_not_found) h = refl
found_like-false (err (app _ _)) h = cc
found_like-false (err (fault _)) h = cc

-- What is there already need not be written.
put_like-same :
    (tb : Tables) (post user : ℕ) (b : Bool) → tb.likes post user ≡ b → put_like post user b tb ≡ tb
put_like-same tb post user b h i = record tb { likes = λ p u. same p u i }
  where
    same : (p u : ℕ) → (if (p == post) && (u == user) then b else tb.likes p u) ≡ tb.likes p u
    same p u = elim (Bool-cases (p == post)) [
      | inr other ↦ rw other refl
      | inl here ↦ elim (Bool-cases (u == user)) [
        | inr other ↦ rw here (rw other refl)
        | inl mine ↦ rw here (
            rw mine (
              sym h
              ∙ (λ j. tb.likes (sym ((==_iff p post).0 here) j) (sym ((==_iff u user).0 mine) j))))
      ]
    ]

module _ {S : Type 0} (db : Database S) (env : Services) (law : Lawful db) where
  apply_like-Runs :
      (id actor now : ℕ) (x : Post) (liked existing : Bool) {s : S} {u : Post} {s' : S}
      → (db.tables s).likes id actor ≡ existing
      → Runs (apply_like db env id x actor now liked existing) s u s'
      → db.tables s' ≡ put_like id actor liked (db.tables s)
  unfolding apply_like
  apply_like-Runs id actor now x true false {s} {u} {s'} there h =
      let (s1, made, h1) = exec-Runs h in
      let (s2, told, h2) = >>-Runs h1 in
      let (_, last) = pure-Runs h2 in
      ap db.tables last
      ∙ like_event-tables db env law x actor _ now s1 s2 told
      ∙ law.create_like_ok id actor s s1 made.result
  apply_like-Runs id actor now x false true {s} {u} {s'} there h =
      let (s1, made, h1) = exec-Runs h in
      let (s2, told, h2) = >>-Runs h1 in
      let (_, last) = pure-Runs h2 in
      ap db.tables last
      ∙ like_event-tables db env law x actor _ now s1 s2 told
      ∙ law.delete_like_ok id actor s s1 made.result
  apply_like-Runs id actor now x true true {s} there h =
      ap db.tables (pure-Runs h).1 ∙ sym (put_like-same (db.tables s) id actor true there)
  apply_like-Runs id actor now x false false {s} there h =
      ap db.tables (pure-Runs h).1 ∙ sym (put_like-same (db.tables s) id actor false there)

  existing_like :
      (id actor : ℕ) (s : S) (b : Bool)
      → found_like (db.first_like id actor s) ≡ ok b
      → (db.tables s).likes id actor ≡ b
  existing_like id actor s true h =
      law.first_like_ok id actor s (found_like-true (db.first_like id actor s) h)
  existing_like id actor s false h =
      law.first_like_missing id actor s (found_like-false (db.first_like id actor s) h)

  with_item-ok :
      (viewer : ℕ) (m : Result Post × S) {w : Item}
      → (with_item db env viewer m).0 ≡ ok w
      → (u : Post) × (m.0 ≡ ok u) × ((with_item db env viewer m).1 ≡ m.1)
  with_item-ok viewer (ok x, s) h = (x, refl, refl)
  with_item-ok viewer (err e, s) h = cc

  -- A like or an unlike that succeeds leaves the tables as they were, except that the user is in
  -- the set of those who like the post, or is not, as was asked, whether or not that was so before.
  pub change_like-put_like :
      (id actor now : ℕ) (liked : Bool) (s : S) {w : Item}
      → (change_like db env id actor now liked s).0 ≡ ok w
      → db.tables (change_like db env id actor now liked s).1
        ≡ put_like id actor liked (db.tables s)
  unfolding change_like change_like_tx
  change_like-put_like id actor now liked s h =
      let (u, done, state) = with_item-ok actor _ h in
      let (x, _, h1) = query-Runs (transaction-Runs _ s done) in
      let (_, h2) = guard-Runs _ h1 in
      let (_, h3) = guard-Runs _ h2 in
      let (existing, read, h4) = query-Runs h3 in
      ap db.tables state
      ∙ apply_like-Runs id actor now x liked existing
          (existing_like id actor s existing read.result) h4
