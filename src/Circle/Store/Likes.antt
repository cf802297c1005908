-- ===== src/Circle/Store/Likes.antt =====
-- infrastructure/store.go: `changeLike`, which is LikePost and UnlikePost.
use backend_demo.Prelude.{ℕ, Bool, true, false, not, ◌==◌}
use backend_demo.Platform.Errors.{
  app, record_not_found, Result, ok, err, Tx, ◌>>=◌, ◌>>◌, pure, lift, query, exec, guard,
  transaction,
}
use backend_demo.Platform.Text.{codes}
use backend_demo.Circle.Post.{Post, is_approved}
use backend_demo.Circle.Database.{Database}
use backend_demo.Circle.Store.{Services, lock_post, write_like_event, post_not_found}
use backend_demo.Circle.Store.Posts.{Item, item, with_item}

-- Whether the user's like was found.
abbrev pub found_like : Result (Unit {0}) → Result Bool
found_like (ok tt) = ok true
found_like (err record_not_found) = ok false
found_like (err e) = err e

module _ {S : Type 0} (db : Database S) (env : Services) where
  -- By what is wanted, and what is there.
  unfoldable pub apply_like : ℕ → Post → ℕ → ℕ → Bool → Bool → Tx S Post
  unfolding write_like_event
  apply_like id x actor now true false = do
    exec (db.create_like id actor)
    write_like_event db env x actor (codes "campus_circle.post_liked") now
    pure x
  apply_like id x actor now false true = do
    exec (db.delete_like id actor)
    write_like_event db env x actor (codes "campus_circle.post_unliked") now
    pure x
  apply_like id x actor now true true = pure x
  apply_like id x actor now false false = pure x

  unfoldable pub change_like_tx : ℕ → ℕ → ℕ → Bool → Tx S Post
  unfolding lock_post apply_like
  change_like_tx id actor now liked = do
    x ← query (lock_post db id)
    lift (guard (is_approved x.status) post_not_found)
    lift (guard (not (x.author_id == actor)) (app 409 "cannot_like_own_post"))
    existing ← query λ s. found_like (db.first_like id actor s)
    apply_like id x actor now liked existing

  unfoldable pub change_like : ℕ → ℕ → ℕ → Bool → S → Result Item × S
  unfolding change_like_tx item
  change_like id actor now liked s =
      with_item db env actor (transaction (change_like_tx id actor now liked) s)
