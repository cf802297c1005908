-- ===== src/Platform/Auth/Reuse.antt =====
-- internal/core/auth/service.go: a refresh token that is used a second time.
use backend_demo.Prelude.{
  ℕ, ◌≡◌, ◌≢◌, ◌⊎◌, inl, inr, refl, sym, ◌∙◌, ap, Bool, true, false, Option, none, some,
}
use backend_demo.Platform.Errors.{Error, app, Result, ok, err}
use backend_demo.Platform.Text.{Text, codes}
use backend_demo.Platform.Auth.{
  Claims, TokenPair, Stores, Host, parse, sign, issue, refresh_claims, refresh, and_next, or_error,
  some_or, checked, current_user, refresh_claimed, refresh_with, rotated, reuse_answer,
  invalid_token, invalid_refresh,
}

-- What the store of sessions does: it keeps a hash for each session, a rotation of a session that
-- has the old hash puts the new one, any other rotation changes nothing, and a session that is
-- deleted is gone.
pub record Lawful {S : Type 0} (stores : Stores S) : Type 0 where
  pub session : S → Text → Option Text
  pub rotate_done :
      (sid old new : Text) (ttl : ℕ) (s s' : S)
      → stores.rotate sid old new ttl s ≡ ok (true, s')
      → (session s sid ≡ some old) × (session s' sid ≡ some new)
  pub rotate_not_done :
      (sid old new : Text) (ttl : ℕ) (s s' : S)
      → stores.rotate sid old new ttl s ≡ ok (false, s')
      → s' ≡ s
  pub delete_done : (sid : Text) (s s' : S) → stores.delete sid s ≡ ok s' → session s' sid ≡ none

-- A token that is good at two times has the same claims at both.
pub record Stable (host : Host) : Type 0 where
  pub same_claims :
      (raw : Text) (now later : ℕ) (c d : Claims)
      → host.verify raw now ≡ ok c
      → host.verify raw later ≡ ok d
      → d ≡ c

and_next-ok :
    {A B : Type 0} (m : Result A) (f : A → Result B) {b : B}
    → and_next m f ≡ ok b
    → (a : A) × (m ≡ ok a) × (f a ≡ ok b)
and_next-ok (ok a) f h = (a, refl, h)
and_next-ok (err e) f h = cc

or_error-ok : {A : Type 0} (e : Error) (m : Result A) {a : A} → or_error e m ≡ ok a → m ≡ ok a
or_error-ok e (ok a) h = h
or_error-ok e (err _) h = cc

checked-ok : {A : Type 0} (b : Bool) (e : Error) (a : A) {c : A} → checked b e a ≡ ok c → c ≡ a
checked-ok true e a h = cc
checked-ok false e a h = cc

module _ (host : Host) where
  parse-verify :
      (raw typ : Text) (now : ℕ) {c : Claims}
      → parse host raw typ now ≡ ok c
      → host.verify raw now ≡ ok c
  unfolding parse
  parse-verify raw typ now {c} h =
      let (d, found, rest) = and_next-ok (or_error invalid_token (host.verify raw now)) _ h in
      or_error-ok _ _ found ∙ ap ok (sym (checked-ok _ _ _ rest))

  issue-hash :
      (uid : ℕ) (sid : Text) (version : ℕ) (ids : Result Text × Result Text) (now : ℕ)
      {pair : TokenPair} {hash : Text}
      → issue host uid sid version ids now ≡ ok (pair, hash)
      → hash ≡ host.token_hash pair.refresh_token
  unfolding issue
  issue-hash uid sid version ids now h =
      let (access, _, more) = and_next-ok (sign host uid sid version _ _ ids.0 now) _ h in
      let (fresh, _, last) = and_next-ok (sign host uid sid version _ _ ids.1 now) _ more in cc

  module _ {S : Type 0} (stores : Stores S) (law : Lawful stores) where
    refresh_claims-verify :
        (raw : Text) (now : ℕ) (s : S) {c : Claims} {uid version : ℕ}
        → refresh_claims host stores raw now s ≡ ok (c, (uid, version))
        → host.verify raw now ≡ ok c
    unfolding refresh_claims
    refresh_claims-verify raw now s h =
        let (c, good, more) =
          and_next-ok (or_error invalid_refresh (parse host raw (codes "refresh") now)) _ h in
        let (uid, _, rest) =
          and_next-ok (some_or invalid_refresh (host.parse_uint c.subject)) _ more in
        let (u, _, last) = and_next-ok (current_user host stores c invalid_refresh uid s) _ rest in
        parse-verify raw (codes "refresh") now (or_error-ok _ _ good) ∙ cc

    reuse_answer-not_ok :
        (r : Result S) (s : S) {pair : TokenPair} {s1 : S}
        → reuse_answer host stores r s ≢ (ok pair, s1)
    reuse_answer-not_ok (ok s') s h = cc
    reuse_answer-not_ok (err e) s h = cc

    rotated-ok :
        (r : Result (Bool × S)) (sid : Text) (made pair : TokenPair) (s s1 : S)
        → rotated host stores r sid made s ≡ (ok pair, s1)
        → (r ≡ ok (true, s1)) × (made ≡ pair)
    rotated-ok (ok (true, s')) sid made pair s s1 h = (cc, cc)
    rotated-ok (ok (false, s')) sid made pair s s1 h =
        absurd (reuse_answer-not_ok (stores.delete sid s') s' h)
    rotated-ok (err e) sid made pair s s1 h = cc

    -- A refresh that succeeds moves the session from the hash of its token to the hash of the next.
    refreshed_from :
        (raw : Text) (c : Claims) (made : Result (TokenPair × Text)) (pair : TokenPair) (s s1 : S)
        → refresh_with host stores raw c made s ≡ (ok pair, s1)
        → (hash : Text) × (made ≡ ok (pair, hash))
          × (law.session s c.session_id ≡ some (host.token_hash raw))
          × (law.session s1 c.session_id ≡ some hash)
    refreshed_from raw c (err e) pair s s1 h = cc
    refreshed_from raw c (ok (made, hash)) pair s s1 h =
        let (turned, same) = rotated-ok _ c.session_id made pair s s1 h in
        let (before, after) = law.rotate_done c.session_id _ hash _ s s1 turned in
        (hash, cc, before, after)

    claimed_from :
        (raw : Text) (r : Result (Claims × (ℕ × ℕ))) (ids : Result Text × Result Text) (now : ℕ)
        (pair : TokenPair) (s s1 : S)
        → refresh_claims host stores raw now s ≡ r
        → refresh_claimed host stores raw r ids now s ≡ (ok pair, s1)
        → (c : Claims) × (host.verify raw now ≡ ok c)
          × (law.session s c.session_id ≡ some (host.token_hash raw))
          × (law.session s1 c.session_id ≡ some (host.token_hash pair.refresh_token))
    claimed_from raw (err e) ids now pair s s1 found h = cc
    claimed_from raw (ok (c, (uid, version))) ids now pair s s1 found h =
        let (hash, made, before, after) = refreshed_from raw c _ pair s s1 h in
        (
          c,
          refresh_claims-verify raw now s found,
          before,
          after ∙ ap some (issue-hash uid c.session_id version ids now made),
        )

    pub refresh-turned :
        (raw : Text) (ids : Result Text × Result Text) (now : ℕ) (pair : TokenPair) (s s1 : S)
        → refresh host stores raw ids now s ≡ (ok pair, s1)
        → (c : Claims) × (host.verify raw now ≡ ok c)
          × (law.session s c.session_id ≡ some (host.token_hash raw))
          × (law.session s1 c.session_id ≡ some (host.token_hash pair.refresh_token))
    unfolding refresh
    refresh-turned raw ids now pair s s1 h = claimed_from raw _ ids now pair s s1 refl h

    -- What keeps a refresh from rotating a stale token's session and from revoking it: the token or
    -- its account is not good, no new pair can be made, or a statement on the session fails.
    pub data Hindered (raw : Text) (ids : Result Text × Result Text) (now : ℕ) (s : S)
        : Type 0 where
      claims_refused :
          (e : Error) → refresh_claims host stores raw now s ≡ err e → Hindered raw ids now s
      not_signed :
          (c : Claims) (uid version : ℕ) (e : Error)
          → refresh_claims host stores raw now s ≡ ok (c, (uid, version))
          → issue host uid c.session_id version ids now ≡ err e
          → Hindered raw ids now s
      not_rotated :
          (c : Claims) (new : Text) (e : Error)
          → host.verify raw now ≡ ok c
          → stores.rotate c.session_id (host.token_hash raw) new host.refresh_ttl s ≡ err e
          → Hindered raw ids now s
      not_deleted :
          (c : Claims) (e : Error)
          → host.verify raw now ≡ ok c
          → stores.delete c.session_id s ≡ err e
          → Hindered raw ids now s

    -- What a stale token gets: an error. The store is as it was, and then there is a reason; or the
    -- answer is that the token was reused, and the token's session is gone.
    abbrev pub Refused : Text → Result Text × Result Text → ℕ → S → Result TokenPair × S → Type 0
    Refused raw ids now s answer =
        ((e : Error) × (answer.0 ≡ err e))
        × (((answer.1 ≡ s) × Hindered raw ids now s)
            ⊎ ((c : Claims) × (host.verify raw now ≡ ok c)
                × (answer.0 ≡ err (app 401 "refresh_reused"))
                × (law.session answer.1 c.session_id ≡ none)))

    reuse_answer-Refused :
        (raw : Text) (ids : Result Text × Result Text) (now : ℕ) (c : Claims) (r : Result S) (s : S)
        → host.verify raw now ≡ ok c
        → stores.delete c.session_id s ≡ r
        → Refused raw ids now s (reuse_answer host stores r s)
    reuse_answer-Refused raw ids now c (ok s') s good e =
        ((_, refl), inr (c, good, refl, law.delete_done c.session_id s s' e))
    reuse_answer-Refused raw ids now c (err x) s good e =
        ((_, refl), inl (refl, not_deleted c x good e))

    rotated-Refused :
        (raw : Text) (ids : Result Text × Result Text) (now : ℕ) (c : Claims)
        (r : Result (Bool × S)) (new : Text) (made : TokenPair) (s : S)
        → host.verify raw now ≡ ok c
        → law.session s c.session_id ≢ some (host.token_hash raw)
        → stores.rotate c.session_id (host.token_hash raw) new host.refresh_ttl s ≡ r
        → Refused raw ids now s (rotated host stores r c.session_id made s)
    rotated-Refused raw ids now c (err x) new made s good stale e =
        ((_, refl), inl (refl, not_rotated c new x good e))
    rotated-Refused raw ids now c (ok (true, s')) new made s good stale e =
        absurd (stale (law.rotate_done c.session_id (host.token_hash raw) new _ s s' e).0)
    rotated-Refused raw ids now c (ok (false, s')) new made s good stale e =
        let same : s' ≡ s = law.rotate_not_done c.session_id (host.token_hash raw) new _ s s' e in
        rw same (reuse_answer-Refused raw ids now c _ s good refl)

    refresh_with-Refused :
        (raw : Text) (ids : Result Text × Result Text) (now : ℕ) (c : Claims) (uid version : ℕ)
        (made : Result (TokenPair × Text)) (s : S)
        → refresh_claims host stores raw now s ≡ ok (c, (uid, version))
        → law.session s c.session_id ≢ some (host.token_hash raw)
        → issue host uid c.session_id version ids now ≡ made
        → Refused raw ids now s (refresh_with host stores raw c made s)
    refresh_with-Refused raw ids now c uid version (err e) s found stale signed =
        ((_, refl), inl (refl, not_signed c uid version e found signed))
    refresh_with-Refused raw ids now c uid version (ok (made, hash)) s found stale signed =
        rotated-Refused raw ids now c _ hash made s (refresh_claims-verify raw now s found) stale
          refl

    refresh_claimed-Refused :
        (raw : Text) (r : Result (Claims × (ℕ × ℕ))) (ids : Result Text × Result Text) (now : ℕ)
        (s : S)
        → ((c : Claims)
            → host.verify raw now ≡ ok c
            → law.session s c.session_id ≢ some (host.token_hash raw))
        → refresh_claims host stores raw now s ≡ r
        → Refused raw ids now s (refresh_claimed host stores raw r ids now s)
    refresh_claimed-Refused raw (err e) ids now s stale found =
        ((_, refl), inl (refl, claims_refused e found))
    refresh_claimed-Refused raw (ok (c, (uid, version))) ids now s stale found =
        refresh_with-Refused raw ids now c uid version _ s found
          (stale c (refresh_claims-verify raw now s found)) refl

    -- After a refresh that succeeded, whose new token has another hash than the old, and in every
    -- state in which each session has the hash that it had then, a second refresh with the old
    -- token, at any time, fails. Either it answers that the token was reused and has deleted the
    -- token's session; or it leaves the store as it was, and then the token or its account is not
    -- good, the new pair could not be made, or the rotation or the deletion of the session failed.
    pub refresh-reused :
        Stable host
        → (raw : Text) (ids again : Result Text × Result Text) (now later : ℕ) (pair : TokenPair)
          (s s1 s2 : S)
        → refresh host stores raw ids now s ≡ (ok pair, s1)
        → host.token_hash pair.refresh_token ≢ host.token_hash raw
        → ((sid : Text) → law.session s2 sid ≡ law.session s1 sid)
        → Refused raw again later s2 (refresh host stores raw again later s2)
    unfolding refresh
    refresh-reused stable raw ids again now later pair s s1 s2 h fresh kept =
        let (c, good, _, after) = refresh-turned raw ids now pair s s1 h in
        refresh_claimed-Refused raw _ again later s2
          (λ d good_later e.
            let same : d ≡ c = stable.same_claims raw now later c d good good_later in
            let there : law.session s2 c.session_id ≡ some (host.token_hash raw) =
              ap (λ (x : Claims). law.session s2 x.session_id) (sym same) ∙ e in
            let both : some (host.token_hash pair.refresh_token) ≡ some (host.token_hash raw) =
              sym after ∙ sym (kept c.session_id) ∙ there in
            fresh cc)
          refl
