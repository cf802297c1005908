-- ===== src/Platform/Auth.antt =====
-- internal/core/auth/service.go: sessions of signed tokens, of which the refresh token changes with
-- each use. The clock is read once for an operation.
pub mod Reuse
pub mod Tests
use backend_demo.Prelude.{
  ℕ, ◌+◌, ◌≡◌, Bool, true, false, ◌&&◌, ◌||◌, not, Option, none, some, List, [], ◌==◌,
  if◌then◌else◌,
}
use backend_demo.Platform.Errors.{Error, app, fault, record_not_found, Result, ok, err}
use backend_demo.Platform.Text.{Text, codes, text_eq, is_empty, decimal}

-- Any status but `active` is refused like `disabled`.
pub data UserStatus : Type 0 where
  user_active user_disabled : UserStatus

-- What authentication reads of an account. A user that is missing is the error `record_not_found`.
pub record User : Type 0 where
  pub id : ℕ
  pub password_hash : Text
  pub status : UserStatus
  pub session_version : ℕ

-- `Claims`, with the registered claims that are set.
pub record Claims : Type 0 where
  pub typ : Text
  pub session_id : Text
  pub family_id : Text
  pub session_version : ℕ
  pub issuer : Text
  pub subject : Text
  pub token_id : Text
  pub issued_at : ℕ
  pub expires_at : ℕ

pub record TokenPair : Type 0 where
  pub access_token : Text
  pub refresh_token : Text
  pub token_type : Text
  pub expires_in : ℕ

-- The repository of users and the store of sessions. A rotation tells whether the session was there
-- with the old hash.
pub record Stores (S : Type 0) : Type 0 where
  pub get_by_id : ℕ → S → Result User
  pub get_by_username : Text → S → Result User
  pub create : Text → ℕ → Text → ℕ → S → Result S
  pub exists_ : Text → S → Result Bool
  pub rotate : Text → Text → Text → ℕ → S → Result (Bool × S)
  pub delete : Text → S → Result S
  pub delete_user : ℕ → S → Result S

-- The signing and the verification of a token at a time (its signature, method, issuer and times),
-- the digest of a token, `strconv.ParseUint`, the check of a password, and the configuration.
pub record Host : Type 0 where
  pub sign_claims : Claims → Result Text
  pub verify : Text → ℕ → Result Claims
  pub token_hash : Text → Text
  pub parse_uint : Text → Option ℕ
  pub check_password : Text → Text → Bool
  pub dummy_password_hash : Text
  pub issuer : Text
  pub access_ttl : ℕ
  pub refresh_ttl : ℕ

abbrev pub store_failed : Error
store_failed = fault 40

abbrev pub sign_failed : Error
sign_failed = fault 41

abbrev pub invalid_token : Error
invalid_token = fault 42

abbrev pub invalid_refresh : Error
invalid_refresh = app 401 "invalid_refresh_token"

abbrev pub is_active : UserStatus → Bool
is_active user_active = true
is_active user_disabled = false

unfoldable pub effective_session_version : User → ℕ
effective_session_version u = if u.session_version == 0 then 1 else u.session_version

abbrev and_next : {A B : Type 0} → Result A → (A → Result B) → Result B
and_next (ok a) f = f a
and_next (err e) f = err e

abbrev or_error : {A : Type 0} → Error → Result A → Result A
or_error e (ok a) = ok a
or_error e (err _) = err e

abbrev some_or : {A : Type 0} → Error → Option A → Result A
some_or e (some a) = ok a
some_or e none = err e

abbrev checked : {A : Type 0} → Bool → Error → A → Result A
checked true e a = ok a
checked false e a = err e

module _ (host : Host) where
  -- `parse`.
  unfoldable pub parse : Text → Text → ℕ → Result Claims
  parse raw typ now = and_next (or_error invalid_token (host.verify raw now)) λ c.
      checked
        (text_eq c.typ typ
          && not (is_empty c.session_id)
          && text_eq c.family_id c.session_id
          && not (c.session_version == 0))
        invalid_token c

  -- `sign`, with the outcome of `randomID`.
  unfoldable pub sign : ℕ → Text → ℕ → Text → ℕ → Result Text → ℕ → Result Text
  sign uid sid version typ expires token_id now = and_next token_id λ jti. or_error sign_failed (
      host.sign_claims (record {
        typ = typ;
        session_id = sid;
        family_id = sid;
        session_version = version;
        issuer = host.issuer;
        subject = decimal uid;
        token_id = jti;
        issued_at = now;
        expires_at = expires;
      }))

  -- `issue`: the pair and the hash of its refresh token. `ids` are the two random numbers.
  unfoldable pub issue : ℕ → Text → ℕ → Result Text × Result Text → ℕ → Result (TokenPair × Text)
  unfolding sign
  issue uid sid version ids now =
      and_next (sign uid sid version (codes "access") (now + host.access_ttl) ids.0 now) λ access.
        and_next (sign uid sid version (codes "refresh") (now + host.refresh_ttl) ids.1 now)
          λ refresh. ok (
            record {
              access_token = access;
              refresh_token = refresh;
              token_type = codes "Bearer";
              expires_in = host.access_ttl;
            },
            host.token_hash refresh,
          )

  abbrev pub family : Result Claims → Text → Text
  family (ok c) raw = c.family_id
  family (err _) raw = host.token_hash raw

  -- `RefreshFamily`.
  unfoldable pub refresh_family : Text → ℕ → Text
  unfolding parse
  refresh_family raw now = family (parse raw (codes "refresh") now) raw

  module _ {S : Type 0} (stores : Stores S) where
    abbrev pub created : Result S → TokenPair → S → Result TokenPair × S
    created (ok s') pair s = (ok pair, s')
    created (err _) pair s = (err store_failed, s)

    abbrev pub new_session : Text → ℕ → Result (TokenPair × Text) → S → Result TokenPair × S
    new_session sid uid (err e) s = (err e, s)
    new_session sid uid (ok (pair, hash)) s =
        created (stores.create sid uid hash host.refresh_ttl s) pair s

    -- The user and the hash that a password is compared with; a missing user has the dummy's.
    abbrev pub credentials : Result User → Result (Option User × Text)
    credentials (ok u) = ok (some u, u.password_hash)
    credentials (err record_not_found) = ok (none, host.dummy_password_hash)
    credentials (err _) = err store_failed

    abbrev pub admitted : Option User → Bool → Result User
    admitted none matches = err (app 401 "invalid_credentials")
    admitted (some u) false = err (app 401 "invalid_credentials")
    admitted (some u) true = checked (is_active u.status) (app 403 "user_disabled") u

    abbrev pub open_session :
        Result User → Result Text → Result Text × Result Text → ℕ → S → Result TokenPair × S
    open_session (err e) sid ids now s = (err e, s)
    open_session (ok u) (err e) ids now s = (err e, s)
    open_session (ok u) (ok sid) ids now s =
        new_session sid u.id (issue u.id sid (effective_session_version u) ids now) s

    -- `Login`, with the session's random number and those of its tokens.
    unfoldable pub login :
        Text → Text → Result Text → Result Text × Result Text → ℕ → S → Result TokenPair × S
    unfolding issue effective_session_version
    login username password sid ids now s =
        let user =
          and_next (credentials (stores.get_by_username username s))
            λ found. admitted found.0 (host.check_password found.1 password) in
        open_session user sid ids now s

    -- The account that a token's claims name, if the claims are still good.
    abbrev pub current_user : Claims → Error → ℕ → S → Result User
    current_user c e uid s =
        and_next (or_error e (stores.get_by_id uid s)) λ u.
          checked (is_active u.status && (c.session_version == effective_session_version u)) e u

    abbrev pub reuse_answer : Result S → S → Result TokenPair × S
    reuse_answer (ok s') s = (err (app 401 "refresh_reused"), s')
    reuse_answer (err _) s = (err store_failed, s)

    abbrev pub rotated : Result (Bool × S) → Text → TokenPair → S → Result TokenPair × S
    rotated (err _) sid pair s = (err store_failed, s)
    rotated (ok (true, s')) sid pair s = (ok pair, s')
    rotated (ok (false, s')) sid pair s = reuse_answer (stores.delete sid s') s'

    abbrev pub refresh_with : Text → Claims → Result (TokenPair × Text) → S → Result TokenPair × S
    refresh_with raw c (err e) s = (err e, s)
    refresh_with raw c (ok (pair, hash)) s =
        rotated (stores.rotate c.session_id (host.token_hash raw) hash host.refresh_ttl s)
          c.session_id pair s

    -- The claims of a refresh token with its account's number and session version.
    unfoldable pub refresh_claims : Text → ℕ → S → Result (Claims × (ℕ × ℕ))
    unfolding parse effective_session_version
    refresh_claims raw now s =
        and_next (or_error invalid_refresh (parse raw (codes "refresh") now)) λ c.
          and_next (some_or invalid_refresh (host.parse_uint c.subject)) λ uid.
            and_next (current_user c invalid_refresh uid s)
              λ u. ok (c, (uid, effective_session_version u))

    abbrev pub refresh_claimed :
        Text → Result (Claims × (ℕ × ℕ)) → Result Text × Result Text → ℕ → S → Result TokenPair × S
    refresh_claimed raw (err e) ids now s = (err e, s)
    refresh_claimed raw (ok (c, (uid, version))) ids now s =
        refresh_with raw c (issue uid c.session_id version ids now) s

    -- `Refresh`.
    unfoldable pub refresh : Text → Result Text × Result Text → ℕ → S → Result TokenPair × S
    unfolding refresh_claims issue
    refresh raw ids now s = refresh_claimed raw (refresh_claims raw now s) ids now s

    -- `Authenticate`: the user and the session of an access token.
    unfoldable pub authenticate : Text → ℕ → S → Result (ℕ × Text)
    unfolding parse effective_session_version
    authenticate raw now s =
        and_next (or_error (app 401 "invalid_access_token") (parse raw (codes "access") now)) λ c.
          and_next (some_or (app 401 "invalid_access_token") (host.parse_uint c.subject)) λ uid.
            and_next (or_error store_failed (stores.exists_ c.session_id s)) λ there.
              and_next (checked there (app 401 "session_expired") tt) λ _.
                and_next (current_user c (app 403 "user_disabled") uid s)
                  λ u. ok (uid, c.session_id)

    abbrev pub done_or_failed : Result S → S → Result (Unit {0}) × S
    done_or_failed (ok s') s = (ok tt, s')
    done_or_failed (err _) s = (err store_failed, s)

    unfoldable pub logout : Text → S → Result (Unit {0}) × S
    logout sid s = done_or_failed (stores.delete sid s) s

    unfoldable pub revoke_user : ℕ → S → Result (Unit {0}) × S
    revoke_user uid s = done_or_failed (stores.delete_user uid s) s
