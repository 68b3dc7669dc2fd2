-- ===== src/Services/Investigation/Kept.antt =====
-- What no sequence of runs and updates can do to the stored matches and findings.
use dfir_investigation_workb.Services.Session.{Finding, Session, Tables, rolled_back}
use dfir_investigation_workb.Prelude.{
  ==→eq, Bool, Bool-cases, Datetime, List, [], ap, arith, if◌then◌else◌, inl, inr, refl, some, sym,
  true, ℕ, ◌++◌, ◌<◌, ◌==◌, ◌∙◌, ◌∷◌, ◌≡◌, ◌⊎◌,
}
use dfir_investigation_workb.Domain.{FindingStatus}
use dfir_investigation_workb.Services.Runs.{Outside, new_finding}
use dfir_investigation_workb.Services.Runs.Adds.{Adds, nothing, one_more}
use dfir_investigation_workb.Services.Runs.Steps.{RunStep, no_run, one_run, run-Step}
use dfir_investigation_workb.Services.Findings.{find_finding, may_become, replace_finding}
use dfir_investigation_workb.Services.Findings.Transitions.{
  FindingStep, SameFinding, moves, stays, update_finding-Step, updates,
}
use dfir_investigation_workb.Services.Runs.Keys.{
  FindingStep-IsConsistent, IsConsistent, RunStep-IsConsistent, find_finding-id,
}
use dfir_investigation_workb.Services.Investigation.{
  CorrelationRequest, handle_correlation, patch_finding, run_correlation, serve_correlation,
}

-- how far the review of a finding has come
abbrev pub review_rank : FindingStatus → ℕ
review_rank FindingStatus.open_finding = 0
review_rank FindingStatus.reviewed = 1
review_rank FindingStatus.resolved = 2
review_rank FindingStatus.dismissed = 2

-- A finding that was updated some number of times: it is about the same match, its status is the
-- same or was reached by the review going on.
abbrev pub IsFollowed : Finding → Finding → Type 0
IsFollowed f g =
    SameFinding f g × ((f.status ≡ g.status) ⊎ (review_rank f.status < review_rank g.status))

abbrev pub StaysFound : ℕ → Finding → List Finding → Type 0
StaysFound i f fs = (g : Finding) × (find_finding i fs ≡ some g) × IsFollowed f g

may_become-lt : (a b : FindingStatus) → may_become a b ≡ true → review_rank a < review_rank b
unfolding may_become
may_become-lt a b h = ground arith

abbrev IsLater : FindingStatus → FindingStatus → Type 0
IsLater a b = (a ≡ b) ⊎ (review_rank a < review_rank b)

rank_trans : (a b c : FindingStatus) → IsLater a b → IsLater b c → IsLater a c
rank_trans a b c (inl p) (inl q) = inl (p ∙ q)
rank_trans a b c (inl p) (inr q) = rw p (inr q)
rank_trans a b c (inr p) (inl q) = rw (← q) (inr p)
rank_trans a b c (inr p) (inr q) = inr (omega arith)

IsFollowed-twice : (f g h : Finding) → IsFollowed f g → IsFollowed g h → IsFollowed f h
IsFollowed-twice f g h (same, later) (same', later') = (
  ap
        (λ (x : Finding). record x {
          status = h.status;
          severity = h.severity;
          confidence = h.confidence;
          analyst_notes = h.analyst_notes;
          updated_at = h.updated_at;
        })
        same
      ∙ same',
  rank_trans f.status g.status h.status later later',
)

find_finding-append :
    (i : ℕ) (fs : List Finding) (f row : Finding)
    → find_finding i fs ≡ some f
    → find_finding i (fs ++ row ∷ []) ≡ some f
unfolding find_finding
find_finding-append i [] f row h = cc
find_finding-append i (x ∷ fs) f row h = ground (arith, find_finding-append i fs f row)

find_finding-replace_finding :
    (i : ℕ) (row : Finding) (fs : List Finding) (f : Finding)
    → find_finding i fs ≡ some f
    → find_finding i (replace_finding row fs) ≡ some (if row.id == i then row else f)
unfolding find_finding replace_finding
find_finding-replace_finding i row [] f h = cc
find_finding-replace_finding i row (x ∷ fs) f h =
    ground (arith, find_finding-replace_finding i row fs f)

replaced-StaysFound :
    (i : ℕ) (f : Finding) (fs : List Finding) (j : ℕ) (old row : Finding)
    → find_finding i fs ≡ some f
    → find_finding j fs ≡ some old
    → IsFollowed old row
    → StaysFound i f (replace_finding row fs)
replaced-StaysFound i f fs j old row hi hj (same, later) = elim (Bool-cases (row.id == i)) [
  | inl hit ↦ (
    row,
    find_finding-replace_finding i row fs f hi ∙ ap (λ (b : Bool). some (if b then row else f)) hit,
    rw (← same_row hit) (same, later),
  )
  | inr miss ↦ (
    f,
    find_finding-replace_finding i row fs f hi
        ∙ ap (λ (b : Bool). some (if b then row else f)) miss,
    (refl, inl refl),
  )
]
  where
    same_row : (row.id == i) ≡ true → old ≡ f
    same_row hit = ground (
      arith,
      hi,
      hj,
      find_finding-id j fs old hj,
      ==→eq row.id i hit,
      ap (λ (x : Finding). x.id) same,
    )

FindingStep-StaysFound :
    {t t' : Tables} (now : Datetime) (i : ℕ) (f : Finding) (j : ℕ)
    → FindingStep now j t t'
    → find_finding i t.findings ≡ some f
    → StaysFound i f t'.findings
FindingStep-StaysFound now i f j (stays e) h = rw e (f, h, (refl, inl refl))
FindingStep-StaysFound {t} now i f j (updates old row fields found same stamped kept e) h =
    rw e (replaced-StaysFound i f t.findings j old row h found (same, inl (sym kept)))
FindingStep-StaysFound {t} now i f j (moves old row fields found same stamped move e) h = rw e (
    replaced-StaysFound i f t.findings j old row h found
      (same, inr (may_become-lt old.status row.status move)))

Adds-find_finding :
    {o : Outside} {case_id window : ℕ} {t t' : Tables} {n : ℕ} (i : ℕ) (f : Finding)
    → Adds o case_id window t t' n
    → find_finding i t.findings ≡ some f
    → find_finding i t'.findings ≡ some f
Adds-find_finding i f nothing h = h
Adds-find_finding {o} {case_id} {window} i f (one_more {t'} {n} c before absent) h =
    find_finding-append i t'.findings f (new_finding o case_id window c n n)
      (Adds-find_finding i f before h)

RunStep-StaysFound :
    {o : Outside} {case_id window : ℕ} {t t' : Tables} (i : ℕ) (f : Finding)
    → RunStep o case_id window t t'
    → find_finding i t.findings ≡ some f
    → StaysFound i f t'.findings
RunStep-StaysFound i f (no_run e) h = rw e (f, h, (refl, inl refl))
RunStep-StaysFound i f (one_run event_count warnings n added' more e) h =
    rw e (f, Adds-find_finding i f more h, (refl, inl refl))

handle-StaysFound :
    (r : CorrelationRequest) (s : Session) (i : ℕ) (f : Finding)
    → s.working ≡ s.stored
    → find_finding i s.stored.findings ≡ some f
    → StaysFound i f (handle_correlation r s).stored.findings
unfolding handle_correlation
handle-StaysFound (run_correlation o k) s i f fresh h =
    RunStep-StaysFound i f (run-Step o k 300 s fresh) h
handle-StaysFound (patch_finding now k p) s i f fresh h =
    FindingStep-StaysFound now i f k (update_finding-Step now k p s fresh) h

-- Whatever runs and updates are served, and whatever the database answers, a stored finding stays
-- stored under its id, about the same match and with the same key; its status is the same, or farther on in the review, so
-- that a run never opens a finding again that an examiner has reviewed or closed.
pub serve-StaysFound :
    (requests : List CorrelationRequest) (s : Session) (i : ℕ) (f : Finding)
    → find_finding i s.stored.findings ≡ some f
    → StaysFound i f (serve_correlation s requests).stored.findings
unfolding serve_correlation
serve-StaysFound [] s i f h = (f, h, (refl, inl refl))
serve-StaysFound (r ∷ rest) s i f h =
    let (g, found, followed) = handle-StaysFound r (rolled_back s) i f refl h in
    let (g2, found2, followed2) =
      serve-StaysFound rest (rolled_back (handle_correlation r (rolled_back s))) i g found in
    (g2, found2, IsFollowed-twice f g g2 followed followed2)

handle-IsConsistent :
    (r : CorrelationRequest) (s : Session)
    → s.working ≡ s.stored
    → IsConsistent s.stored
    → IsConsistent (handle_correlation r s).stored
unfolding handle_correlation
handle-IsConsistent (run_correlation o k) s fresh h =
    RunStep-IsConsistent o k 300 (run-Step o k 300 s fresh) h
handle-IsConsistent (patch_finding now k p) s fresh h =
    FindingStep-IsConsistent now k (update_finding-Step now k p s fresh) h

-- Whatever runs and updates are served, and whatever the database answers, the stored matches keep
-- different keys, and the stored findings stay about the stored matches, one about each, in their order.
pub serve-IsConsistent :
    (requests : List CorrelationRequest) (s : Session)
    → IsConsistent s.stored
    → IsConsistent (serve_correlation s requests).stored
unfolding serve_correlation
serve-IsConsistent [] s h = h
serve-IsConsistent (r ∷ rest) s h =
    serve-IsConsistent rest (rolled_back (handle_correlation r (rolled_back s)))
      (handle-IsConsistent r (rolled_back s) refl h)
