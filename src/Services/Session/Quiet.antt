-- ===== src/Services/Session/Quiet.antt =====
-- Sessions whose database carries out every statement.
use dfir_investigation_workb.Services.Session.{
  Action, ServiceError, Session, Tables, after, answered, commit, flush, guarded, has_unnamed,
  query, raises_now, refresh,
}
use dfir_investigation_workb.Prelude.{Result, Text, [], err, false, ok, refl, ◌≡◌}

-- No answer but that a statement is carried out, and no row that a constraint refuses.
abbrev pub IsQuiet : Session → Type 0
IsQuiet s = (s.answers ≡ []) × (has_unnamed s.working.cases ≡ false)

abbrev pub Returned {ℓ} : {A : Type ℓ} → Result ServiceError A × Session → Type 0
Returned (ok a, s) = IsQuiet s
Returned (err e, s) = ⊥

pub answered-IsQuiet : (s : Session) → IsQuiet s → IsQuiet (answered s)
answered-IsQuiet s (quiet, named) = (rw quiet refl, named)

pub quiet-raises_now : (s : Session) → IsQuiet s → raises_now s ≡ false
unfolding raises_now
quiet-raises_now s (quiet, named) = rw quiet refl

flush-carried : (s : Session) → IsQuiet s → flush s ≡ (ok tt, answered s)
unfolding flush
flush-carried s h = rw (quiet-raises_now s h, h.1) refl

refresh-carried : (s : Session) → IsQuiet s → refresh s ≡ (ok tt, answered s)
unfolding refresh
refresh-carried s h = rw (quiet-raises_now s h) refl

commit-carried :
    (s : Session) → IsQuiet s → commit s ≡ (ok tt, record (answered s) { stored = s.working })
unfolding commit
commit-carried s h = rw (quiet-raises_now s h, h.1) refl

query-carried :
    {B : Type 0} (read : Tables → B) (s : Session)
    → IsQuiet s
    → query read s ≡ (ok (read s.working), answered s)
unfolding query
query-carried read s h = rw (quiet-raises_now s h) refl

module _ {ℓ} {A : Type ℓ} (P : Result ServiceError A × Session → Type 0) (s : Session)
    (h : IsQuiet s) where
  pub flush-quiet : (k : Action A) → P (k (answered s)) → P (after (flush s) (λ _. k))
  flush-quiet k goes_on = rw (flush-carried s h) goes_on

  pub refresh-quiet : (k : Action A) → P (k (answered s)) → P (after (refresh s) (λ _. k))
  refresh-quiet k goes_on = rw (refresh-carried s h) goes_on

  pub commit-quiet :
      (k : Action A)
      → P (k (record (answered s) { stored = s.working }))
      → P (after (commit s) (λ _. k))
  commit-quiet k goes_on = rw (commit-carried s h) goes_on

  pub query-quiet :
      {B : Type 0} (read : Tables → B) (k : B → Action A)
      → P (k (read s.working) (answered s))
      → P (after (query read s) k)
  query-quiet read k goes_on = rw (query-carried read s h) goes_on

pub after-Returned {ℓ κ} :
    {A : Type ℓ} {B : Type κ} (r : Result ServiceError A × Session) (f : A → Action B)
    → Returned r
    → ((a : A) (s : Session) → IsQuiet s → Returned (f a s))
    → Returned (after r f)
after-Returned (ok a, s) f h each = each a s h
after-Returned (err e, s) f h each = elim h [ ]

pub guarded-Returned {ℓ} :
    {A : Type ℓ} (message : Text) (r : Result ServiceError A × Session)
    → Returned r
    → Returned (guarded message r)
guarded-Returned message (ok a, s) h = h
guarded-Returned message (err e, s) h = elim h [ ]

pub Returned-ok {ℓ} :
    {A : Type ℓ} (r : Result ServiceError A × Session)
    → Returned r
    → (a : A) × (s : Session) × (r ≡ (ok a, s))
Returned-ok (ok a, s) h = (a, s, refl)
Returned-ok (err e, s) h = elim h [ ]
