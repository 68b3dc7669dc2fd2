-- ===== src/Services/Cases/History.antt =====
-- What no sequence of requests to the case service can do to a stored case.
use dfir_investigation_workb.Services.Session.{
  AuditAction, Case, Session, Tables, find_case, replace_case, rolled_back,
}
use dfir_investigation_workb.Prelude.{
  ==→eq, Bool, Bool-cases, List, [], ap, arith, if◌then◌else◌, inl, inr, refl, some, true, ℕ, ◌++◌,
  ◌==◌, ◌∙◌, ◌∷◌, ◌≡◌, ◌≤◌,
}
use dfir_investigation_workb.Domain.{CaseStatus}
use dfir_investigation_workb.Services.Cases.{Request, handle, serve}
use dfir_investigation_workb.Services.Cases.Lifecycle.{
  Moves, Step, archiving, closing, creates, handle-Step, moves, stays, updates,
}

-- how far a case has come
abbrev pub rank : CaseStatus → ℕ
rank CaseStatus.open_case = 0
rank CaseStatus.closed = 1
rank CaseStatus.archived = 2

find_case-append :
    (i : ℕ) (cs ds : List Case) (c : Case)
    → find_case i cs ≡ some c
    → find_case i (cs ++ ds) ≡ some c
unfolding find_case
find_case-append i [] ds c h = cc
find_case-append i (x ∷ cs) ds c h = ground (arith, find_case-append i cs ds c)

find_case-replace_case :
    (i : ℕ) (row : Case) (cs : List Case) (c : Case)
    → find_case i cs ≡ some c
    → find_case i (replace_case row cs) ≡ some (if row.id == i then row else c)
unfolding find_case replace_case
find_case-replace_case i row [] c h = cc
find_case-replace_case i row (x ∷ cs) c h = ground (arith, find_case-replace_case i row cs c)

pub find_case-id : (i : ℕ) (cs : List Case) (c : Case) → find_case i cs ≡ some c → c.id ≡ i
unfolding find_case
find_case-id i [] c h = cc
find_case-id i (x ∷ cs) c h = ground (arith, find_case-id i cs c)

-- The row that now stands for a case: it has come as far or farther, and was not touched earlier.
abbrev pub IsLater : Case → Case → Type 0
IsLater c c' = (rank c.status ≤ rank c'.status) × (c.updated_at ≤ c'.updated_at)

abbrev pub Follows : ℕ → Case → List Case → Type 0
Follows i c cs = (c' : Case) × (find_case i cs ≡ some c') × IsLater c c'

Moves-rank : {a b : CaseStatus} {e : AuditAction} → Moves a b e → rank a ≤ rank b
Moves-rank (closing p q r) = rw (p, q) (omega arith)
Moves-rank (archiving p q r) = rw (p, q) (omega arith)

-- a row that replaces the row found under its id
replaced-Follows :
    (i : ℕ) (c : Case) (cs : List Case) (j : ℕ) (old row : Case)
    → find_case i cs ≡ some c
    → find_case j cs ≡ some old
    → row.id ≡ old.id
    → IsLater old row
    → Follows i c (replace_case row cs)
replaced-Follows i c cs j old row hi hj same later = elim (Bool-cases (row.id == i)) [
  | inl hit ↦ (
    row,
    find_case-replace_case i row cs c hi ∙ ap (λ (b : Bool). some (if b then row else c)) hit,
    rw (← same_row hit) later,
  )
  | inr miss ↦ (
    c,
    find_case-replace_case i row cs c hi ∙ ap (λ (b : Bool). some (if b then row else c)) miss,
    (omega arith, omega arith),
  )
]
  where
    same_row : (row.id == i) ≡ true → old ≡ c
    same_row hit = ground (arith, hi, hj, find_case-id j cs old hj, ==→eq row.id i hit)

Step-Follows :
    {t t' : Tables} (i : ℕ) (c : Case)
    → Step t t'
    → find_case i t.cases ≡ some c
    → Follows i c t'.cases
Step-Follows i c (stays e) h = rw e (c, h, (omega arith, omega arith))
Step-Follows {t} i c (creates row number o e) h =
    rw e (c, find_case-append i t.cases (row ∷ []) c h, (omega arith, omega arith))
Step-Follows {t} i c (updates j old row fields found same kept later e) h =
    rw e (replaced-Follows i c t.cases j old row h found same (rw kept (omega arith), omega arith))
Step-Follows {t} i c (moves j old row action found same move later e) h =
    rw e (replaced-Follows i c t.cases j old row h found same (Moves-rank move, omega arith))

-- Whatever requests are served, and whatever the database answers, a stored case stays stored
-- under its id; its status never goes back, so an archived case stays archived, and its
-- `updated_at` never decreases.
pub serve-Follows :
    (requests : List Request) (s : Session) (i : ℕ) (c : Case)
    → find_case i s.stored.cases ≡ some c
    → Follows i c (serve s requests).stored.cases
unfolding serve
serve-Follows [] s i c h = (c, h, (omega arith, omega arith))
serve-Follows (r ∷ rest) s i c h =
    let (c', found, later) = Step-Follows i c (handle-Step r (rolled_back s) refl) h in
    let (c2, found2, later2) =
      serve-Follows rest (rolled_back (handle r (rolled_back s)).1) i c' found in
    (c2, found2, (omega (arith, later.0, later2.0), omega (arith, later.1, later2.1)))
