-- ===== src/Platform/Errors.antt =====
-- internal/core/apperror/error.go, and the way in which a store runs its statements: each may fail,
-- and a failed transaction leaves the database as it was.
use backend_demo.Prelude.{
  ℕ, String, ◌≡◌, refl, ◌⊎◌, inl, inr, Bool, true, false, arith, if◌then◌else◌,
}

-- An `*apperror.Error` by its HTTP status and code, `gorm.ErrRecordNotFound`, or any other error.
-- Messages are for people, and are left out.
pub data Error : Type 0 where
  app : ℕ → String → Error
  record_not_found : Error
  fault : ℕ → Error

pub data Result {ℓ} (A : Type ℓ) : Type ℓ where
  ok : A → Result A
  err : Error → Result A

-- Statements inside a transaction, over the database's state.
abbrev pub Tx : Type 0 → Type 0 → Type 0
Tx S A = S → Result (A × S)

module _ {S A B : Type 0} where
  abbrev pub chain : Result (A × S) → (A → Tx S B) → Result (B × S)
  chain (ok (a, s)) f = f a s
  chain (err e) f = err e

  infixl 5 ◌>>=◌
  unfoldable pub ◌>>=◌ : Tx S A → (A → Tx S B) → Tx S B
  ◌>>=◌ m f s = chain (m s) f

module _ {S B : Type 0} where
  infixl 5 ◌>>◌
  unfoldable pub ◌>>◌ : Tx S (Unit {0}) → Tx S B → Tx S B
  unfolding ◌>>=◌
  m >> k = m >>= λ _. k

-- `if err != nil { return f(err) }`.
abbrev pub map_err {ℓ} : {A : Type ℓ} → (Error → Error) → Result A → Result A
map_err f (ok a) = ok a
map_err f (err e) = err (f e)

module _ {S A : Type 0} where
  unfoldable pub pure : A → Tx S A
  pure a s = ok (a, s)

  abbrev pub raise : Error → Tx S A
  raise e s = err e

  unfoldable pub lift : Result A → Tx S A
  lift (ok a) s = ok (a, s)
  lift (err e) s = err e

  -- A statement that reads, and one that writes.
  unfoldable pub query : (S → Result A) → Tx S A
  unfolding lift
  query read s = lift (read s) s

  abbrev pub settled : Result (A × S) → S → Result A × S
  settled (ok (a, s')) s = (ok a, s')
  settled (err e) s = (err e, s)

  -- `db.Transaction(m)`: commit, or roll back and report the error.
  unfoldable pub transaction : Tx S A → S → Result A × S
  transaction m s = settled (m s) s

  -- A failed transaction changes nothing.
  pub transaction-err :
      (m : Tx S A) (s : S) {e : Error} → (transaction m s).0 ≡ err e → (transaction m s).1 ≡ s
  unfolding transaction
  transaction-err m s h = ground arith

-- `if !test { return e }`.
unfoldable pub guard : Bool → Error → Result (Unit {0})
guard true e = ok tt
guard false e = err e

abbrev pub conflict : String → Error
conflict code = app 409 code

abbrev pub is_not_found : Error → Bool
is_not_found record_not_found = true
is_not_found _ = false

-- A statement that writes.
module _ {S : Type 0} where
  abbrev pub written : Result S → Result (Unit {0} × S)
  written (ok s) = ok (tt, s)
  written (err e) = err e

  unfoldable pub exec : (S → Result S) → Tx S (Unit {0})
  exec write s = written (write s)

-- All of these at once, for a proof that runs a transaction.
unfoldable pub statements : Unit {0}
unfolding ◌>>=◌ ◌>>◌ pure lift guard query exec transaction
statements = tt

-- The statements `m`, run on `s`, succeed with `a` and leave `s'`.
pub record Runs {S A : Type 0} (m : Tx S A) (s : S) (a : A) (s' : S) : Type 0 where
  pub result : m s ≡ ok (a, s')

-- The same of one read and of one write.
pub record Reads {S A : Type 0} (read : S → Result A) (s : S) (a : A) : Type 0 where
  pub result : read s ≡ ok a

pub record Writes {S : Type 0} (write : S → Result S) (s s' : S) : Type 0 where
  pub result : write s ≡ ok s'

guard_cases : (test : Bool) (e : Error) → guard test e ≡ ok tt → test ≡ true
unfolding guard
guard_cases true e h = refl
guard_cases false e h = cc

-- Inversion of what came through, one combinator at a time.
module _ {S A B : Type 0} where
  chain-eq-ok :
      (m : Result (A × S)) (f : A → Tx S B) {b : B} {s'' : S}
      → chain m f ≡ ok (b, s'')
      → (a : A) × (s' : S) × (m ≡ ok (a, s')) × (f a s' ≡ ok (b, s''))
  chain-eq-ok (ok (a, s')) f h = (a, s', refl, h)
  chain-eq-ok (err e) f h = cc

  pub >>=-Runs :
      {m : Tx S A} {f : A → Tx S B} {s : S} {b : B} {s'' : S}
      → Runs (m >>= f) s b s''
      → (a : A) × (s' : S) × Runs m s a s' × Runs (f a) s' b s''
  unfolding ◌>>=◌
  >>=-Runs {m} {f} {s} h =
      let (a, s', ran, rest) = chain-eq-ok (m s) f h.result in
      (a, s', record { result = ran }, record { result = rest })

  lift_cases :
      (m : Result A) (f : A → Tx S B) (s : S) {b : B} {s' : S}
      → chain (lift m s) f ≡ ok (b, s')
      → (a : A) × (m ≡ ok a) × Runs (f a) s b s'
  unfolding lift
  lift_cases (ok a) f s h = (a, refl, record { result = h })
  lift_cases (err e) f s h = cc

  pub lift-Runs :
      {m : Result A} {f : A → Tx S B} {s : S} {b : B} {s' : S}
      → Runs (lift m >>= f) s b s'
      → (a : A) × (m ≡ ok a) × Runs (f a) s b s'
  unfolding ◌>>=◌
  lift-Runs {m} {f} {s} h = lift_cases m f s h.result

  pub query-Runs :
      {read : S → Result A} {f : A → Tx S B} {s : S} {b : B} {s' : S}
      → Runs (query read >>= f) s b s'
      → (a : A) × Reads read s a × Runs (f a) s b s'
  unfolding query ◌>>=◌
  query-Runs {read} {f} {s} h =
      let (a, found, rest) = lift_cases (read s) f s h.result in
      (a, record { result = found }, rest)

module _ {S B : Type 0} where
  check_cases :
      (m : Result (Unit {0})) (k : Tx S B) (s : S) {b : B} {s' : S}
      → chain (lift m s) (λ _. k) ≡ ok (b, s')
      → (m ≡ ok tt) × Runs k s b s'
  unfolding lift
  check_cases (ok tt) k s h = (refl, record { result = h })
  check_cases (err e) k s h = cc

  -- A check that was passed.
  pub check-Runs :
      {m : Result (Unit {0})} {k : Tx S B} {s : S} {b : B} {s' : S}
      → Runs (lift m >> k) s b s'
      → (m ≡ ok tt) × Runs k s b s'
  unfolding ◌>>◌
  check-Runs {m} {k} {s} h = check_cases m k s h.result

  pub guard-Runs :
      {test : Bool} (e : Error) {k : Tx S B} {s : S} {b : B} {s' : S}
      → Runs (lift (guard test e) >> k) s b s'
      → (test ≡ true) × Runs k s b s'
  guard-Runs {test} e h = let (passed, rest) = check-Runs h in (guard_cases test e passed, rest)

  exec_cases :
      (m : Result S) (k : Tx S B) {b : B} {s'' : S}
      → chain (written m) (λ _. k) ≡ ok (b, s'')
      → (s' : S) × (m ≡ ok s') × Runs k s' b s''
  exec_cases (ok s') k h = (s', refl, record { result = h })
  exec_cases (err e) k h = cc

  pub exec-Runs :
      {write : S → Result S} {k : Tx S B} {s : S} {b : B} {s'' : S}
      → Runs (exec write >> k) s b s''
      → (s' : S) × Writes write s s' × Runs k s' b s''
  unfolding exec ◌>>◌
  exec-Runs {write} {k} {s} h =
      let (s', wrote, rest) = exec_cases (write s) k h.result in
      (s', record { result = wrote }, rest)

  pub >>-Runs :
      {m : Tx S (Unit {0})} {k : Tx S B} {s : S} {b : B} {s'' : S}
      → Runs (m >> k) s b s''
      → (s' : S) × Runs m s tt s' × Runs k s' b s''
  unfolding ◌>>◌
  >>-Runs {m} {k} {s} h =
      let (_, s', ran, rest) = chain-eq-ok (m s) (λ _. k) h.result in
      (s', record { result = ran }, record { result = rest })

module _ {S A : Type 0} where
  pub pure-Runs : {a b : A} {s s' : S} → Runs (pure a) s b s' → (b ≡ a) × (s' ≡ s)
  unfolding pure
  pure-Runs h = (cc (h.result), cc (h.result))

  transaction_cases :
      (m : Result (A × S)) (s : S) {a : A} → (settled m s).0 ≡ ok a → m ≡ ok (a, (settled m s).1)
  transaction_cases (ok (a, s')) s h = ground arith
  transaction_cases (err e) s h = ground arith

  -- A transaction that reports success has run its statements.
  pub transaction-Runs :
      (m : Tx S A) (s : S) {a : A} → (transaction m s).0 ≡ ok a → Runs m s a (transaction m s).1
  unfolding transaction
  transaction-Runs m s h = record { result = transaction_cases (m s) s h }

pub map_err-eq-ok {ℓ} :
    {A : Type ℓ} (f : Error → Error) (r : Result A) {a : A} → map_err f r ≡ ok a → r ≡ ok a
map_err-eq-ok f (ok a) h = h
map_err-eq-ok f (err e) h = cc

module _ {S A : Type 0} where
  pub if-Runs :
      (b : Bool) {m n : Tx S A} {s : S} {a : A} {s' : S}
      → Runs (if b then m else n) s a s'
      → ((b ≡ true) × Runs m s a s') ⊎ ((b ≡ false) × Runs n s a s')
  if-Runs true h = inl (refl, h)
  if-Runs false h = inr (refl, h)

module _ {S A : Type 0} where
  settled_keeps {ℓ} :
      (P : S → Type ℓ) (m : Result (A × S)) (s : S)
      → P s
      → ((a : A) → (settled m s).0 ≡ ok a → P (settled m s).1)
      → P (settled m s).1
  settled_keeps P (ok (a, s')) s p q = q a refl
  settled_keeps P (err e) s p q = p

  -- What held before a transaction holds after it, if it holds after the ones that succeed.
  pub transaction_keeps {ℓ} :
      (P : S → Type ℓ) (m : Tx S A) (s : S)
      → P s
      → ((a : A) → (transaction m s).0 ≡ ok a → P (transaction m s).1)
      → P (transaction m s).1
  unfolding transaction
  transaction_keeps P m s p q = settled_keeps P (m s) s p q
