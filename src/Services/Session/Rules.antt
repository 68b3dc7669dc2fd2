-- ===== src/Services/Session/Rules.antt =====
-- What holds of a method is shown for the two answers to its next statement.
use dfir_investigation_workb.Services.Session.{
  Action, ServiceError, Session, Tables, after, answered, assertion_error, commit, conflict, flush,
  guarded, infrastructure, key_error, not_found, of_result, query, raises_now, refresh,
  sqlalchemy_error, type_error,
}
use dfir_investigation_workb.Prelude.{
  Bool-cases, Result, Text, arith, err, inl, inr, ok, refl, ◌≡◌, ◌⊎◌,
}
use mathlib.Core.Path.{subst}

module _ {ℓ κ} {A : Type ℓ} (P : Result ServiceError A × Session → Type κ) (s : Session) where
  -- One of the two results of a statement that returns nothing.
  pub after-two :
      (m : Action (Unit {0})) (t : Session) (k : Action A)
      → (m s ≡ (ok tt, t)) ⊎ (m s ≡ (err sqlalchemy_error, answered s))
      → P (err sqlalchemy_error, answered s)
      → P (k t)
      → P (after (m s) (λ _. k))
  after-two m t k (inl fine) refused goes_on = rw fine goes_on
  after-two m t k (inr failing) refused goes_on = rw failing refused

  pub after-flush :
      (k : Action A)
      → P (err sqlalchemy_error, answered s)
      → P (k (answered s))
      → P (after (flush s) (λ _. k))
  unfolding flush
  after-flush k = after-two flush (answered s) k (ground arith)

  pub after-refresh :
      (k : Action A)
      → P (err sqlalchemy_error, answered s)
      → P (k (answered s))
      → P (after (refresh s) (λ _. k))
  unfolding refresh
  after-refresh k = after-two refresh (answered s) k (ground arith)

  pub after-commit :
      (k : Action A)
      → P (err sqlalchemy_error, answered s)
      → P (k (record (answered s) { stored = s.working }))
      → P (after (commit s) (λ _. k))
  unfolding commit
  after-commit k = after-two commit (record (answered s) { stored = s.working }) k (ground arith)

  pub after-query :
      {B : Type 0} (read : Tables → B) (k : B → Action A)
      → P (err sqlalchemy_error, answered s)
      → P (k (read s.working) (answered s))
      → P (after (query read s) k)
  unfolding query
  after-query read k refused goes_on = elim (Bool-cases (raises_now s)) [
    | inl failing ↦ rw failing refused
    | inr fine ↦ rw fine goes_on
  ]

-- What is stored when an error is translated is what was stored when it was raised.
pub guarded-stored {ℓ} :
    {A : Type ℓ} (message : Text) (r : Result ServiceError A × Session)
    → (guarded message r).1.stored ≡ r.1.stored
guarded-stored message (ok a, s) = refl
guarded-stored message (err sqlalchemy_error, s) = refl
guarded-stored message (err (not_found m), s) = refl
guarded-stored message (err (conflict m), s) = refl
guarded-stored message (err (infrastructure m), s) = refl
guarded-stored message (err key_error, s) = refl
guarded-stored message (err assertion_error, s) = refl
guarded-stored message (err type_error, s) = refl

-- What holds of the value and the session of a method that returns.
abbrev pub WhenOk {ℓ} :
    {A : Type ℓ} → (A → Session → Type 0) → Result ServiceError A × Session → Type 0
WhenOk Q (ok a, s) = Q a s
WhenOk Q (err e, s) = Unit

pub guarded-WhenOk {ℓ} :
    {A : Type ℓ} (Q : A → Session → Type 0) (message : Text) (r : Result ServiceError A × Session)
    → WhenOk Q r
    → WhenOk Q (guarded message r)
guarded-WhenOk Q message (ok a, s) h = h
guarded-WhenOk Q message (err sqlalchemy_error, s) h = tt
guarded-WhenOk Q message (err (not_found m), s) h = tt
guarded-WhenOk Q message (err (conflict m), s) h = tt
guarded-WhenOk Q message (err (infrastructure m), s) h = tt
guarded-WhenOk Q message (err key_error, s) h = tt
guarded-WhenOk Q message (err assertion_error, s) h = tt
guarded-WhenOk Q message (err type_error, s) h = tt

pub after-WhenOk {ℓ κ} :
    {A : Type ℓ} {B : Type κ} (Q : A → Session → Type 0) (R : B → Session → Type 0)
    (r : Result ServiceError A × Session) (f : A → Action B)
    → WhenOk Q r
    → ((a : A) (s : Session) → Q a s → WhenOk R (f a s))
    → WhenOk R (after r f)
after-WhenOk Q R (ok a, s) f h each = each a s h
after-WhenOk Q R (err e, s) f h each = tt

pub WhenOk-map {ℓ} :
    {A : Type ℓ} (Q R : A → Session → Type 0) (r : Result ServiceError A × Session)
    → ((a : A) (s : Session) → Q a s → R a s)
    → WhenOk Q r
    → WhenOk R r
WhenOk-map Q R (ok a, s) each h = each a s h
WhenOk-map Q R (err e, s) each h = tt

pub returned-WhenOk {ℓ} :
    {A : Type ℓ} (Q : A → Session → Type 0) (r : Result ServiceError A × Session) (a : A)
    (s : Session)
    → r ≡ (ok a, s)
    → WhenOk Q r
    → Q a s
returned-WhenOk Q r a s same h = subst (λ x. WhenOk Q x) same h

-- What holds of a computation outside the database is shown for both of its ends.
pub after-result {ℓ κ} :
    {A : Type ℓ} {B : Type κ} (P : Result ServiceError B × Session → Type 0)
    (r : Result ServiceError A) (s : Session) (f : A → Action B)
    → ((e : ServiceError) → r ≡ err e → P (err e, s))
    → ((a : A) → r ≡ ok a → P (f a s))
    → P (after (of_result r s) f)
after-result P (ok a) s f fails goes_on = goes_on a refl
after-result P (err e) s f fails goes_on = fails e refl
