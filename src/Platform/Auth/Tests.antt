-- ===== src/Platform/Auth/Tests.antt =====
-- One session in memory, and a refresh token that is used twice.
use backend_demo.Prelude.{
  ◌≡◌, ◌≢◌, refl, ap, Bool, true, false, Option, none, some, arith, if◌then◌else◌,
}
use backend_demo.Platform.Errors.{app, record_not_found, Result, ok, err}
use backend_demo.Platform.Text.{Text, codes, is_empty, text_eq, text_eq_eq}
use backend_demo.Platform.Auth.{
  User, user_active, Claims, TokenPair, Stores, Host, sign, issue, parse, refresh_claims, refresh,
  login, authenticate, effective_session_version,
}
use backend_demo.Platform.Auth.Reuse.{Lawful, Stable, Refused, refresh-reused}

-- The session "s" has a hash or is gone.
abbrev Slot : Type 0
Slot = Option Text

abbrev member : User
member = record { id = 7; password_hash = codes "pw"; status = user_active; session_version = 0 }

abbrev hash_of : Bool → Slot → Option Text
hash_of true s = s
hash_of false s = none

abbrev turn : Option Text → Text → Text → Slot → Result (Bool × Slot)
turn none old new s = ok (false, s)
turn (some hash) old new s = if text_eq hash old then ok (true, some new) else ok (false, s)

abbrev slot : Stores Slot
slot = record {
  get_by_id = λ uid s. ok member;
  get_by_username =
      λ username s. if text_eq username (codes "ada") then ok member else err record_not_found;
  create = λ sid uid hash ttl s. ok (some hash);
  exists_ = λ sid s. ok (is_there (hash_of (text_eq sid (codes "s")) s));
  rotate = λ sid old new ttl s. turn (hash_of (text_eq sid (codes "s")) s) old new s;
  delete = λ sid s. ok none;
  delete_user = λ uid s. ok none;
}
  where
    is_there : Option Text → Bool
    is_there none = false
    is_there (some _) = true

abbrev claims : Claims
claims = record {
  typ = codes "refresh";
  session_id = codes "s";
  family_id = codes "s";
  session_version = 1;
  issuer = codes "demo";
  subject = codes "7";
  token_id = codes "t";
  issued_at = 0;
  expires_at = 90;
}

abbrev host : Host
host = record {
  sign_claims = λ c. ok c.token_id;
  verify = λ raw now. ok claims;
  token_hash = λ raw. raw;
  parse_uint = λ s. some 7;
  check_password = text_eq;
  dummy_password_hash = codes "dummy";
  issuer = codes "demo";
  access_ttl = 10;
  refresh_ttl = 90;
}

turn-done :
    (b : Bool) (old new : Text) (s s' : Slot)
    → turn (hash_of b s) old new s ≡ ok (true, s')
    → (hash_of b s ≡ some old) × (hash_of b s' ≡ some new)
turn-done true old new none s' h = cc
turn-done true old new (some hash) s' h =
    let same : text_eq hash old ≡ true = ground arith in
    (ap some (text_eq_eq hash old same), ground arith)
turn-done false old new s s' h = cc

turn-not_done :
    (o : Option Text) (old new : Text) (s s' : Slot) → turn o old new s ≡ ok (false, s') → s' ≡ s
turn-not_done none old new s s' h = cc
turn-not_done (some hash) old new s s' h = ground arith

abbrev gone : Result Slot
gone = ok none

hash_of-none : (b : Bool) (s : Slot) → gone ≡ ok s → hash_of b s ≡ none
hash_of-none true s h = cc
hash_of-none false s h = refl

abbrev slot_laws : Lawful slot
slot_laws = record {
  session = λ s sid. hash_of (text_eq sid (codes "s")) s;
  rotate_done = λ sid old new ttl s s' h. turn-done (text_eq sid (codes "s")) old new s s' h;
  rotate_not_done =
      λ sid old new ttl s s' h. turn-not_done (hash_of (text_eq sid (codes "s")) s) old new s s' h;
  delete_done = λ sid s s' h. hash_of-none (text_eq sid (codes "s")) s' h;
}

host-Stable : Stable host
host-Stable = record { same_claims = λ raw now later c d g h. cc }

abbrev second : TokenPair
second = record {
  access_token = codes "a";
  refresh_token = codes "two";
  token_type = codes "Bearer";
  expires_in = 10;
}

abbrev two : Result Text × Result Text
two = (ok (codes "a"), ok (codes "two"))

abbrev three : Result Text × Result Text
three = (ok (codes "b"), ok (codes "three"))

two-one : codes "two" ≢ codes "one"
two-one h = let differ : true ≡ false = ap (λ (x : Text). text_eq (codes "two") x) h in cc

login_test :
    login host slot (codes "ada") (codes "pw") (ok (codes "s")) two 3 none
    ≡ (ok second, some (codes "two"))
unfolding login issue sign effective_session_version
login_test = refl

wrong_password_test :
    login host slot (codes "ada") (codes "no") (ok (codes "s")) two 3 none
    ≡ (err (app 401 "invalid_credentials"), none)
unfolding login
wrong_password_test = refl

refresh_test :
    refresh host slot (codes "one") two 3 (some (codes "one")) ≡ (ok second, some (codes "two"))
unfolding refresh refresh_claims parse issue sign effective_session_version is_empty
refresh_test = refl

reuse_test :
    refresh host slot (codes "one") three 5 (some (codes "two"))
    ≡ (err (app 401 "refresh_reused"), none)
unfolding refresh refresh_claims parse issue sign effective_session_version is_empty
reuse_test = refl

access_test :
    authenticate host slot (codes "one") 3 (some (codes "one"))
    ≡ err (app 401 "invalid_access_token")
unfolding authenticate parse
access_test = refl

refresh-reused_example :
    Refused host slot slot_laws
      (codes "one")
      three
      5
      (some (codes "two"))
      (refresh host slot (codes "one") three 5 (some (codes "two")))
refresh-reused_example =
    refresh-reused host slot slot_laws host-Stable (codes "one") two three 3 5 second
      (some (codes "one")) (some (codes "two")) (some (codes "two")) refresh_test two-one
      (λ sid. refl)
