-- ===== src/Services/Runs/Steps.antt =====
-- What a run of the correlation service does to the stored tables.
use dfir_investigation_workb.Services.Session.{
  Action, Case, CorrelationRun, ServiceError, Session, Tables, after, answered, find_case,
  not_found, raises_now, sqlalchemy_error,
}
use dfir_investigation_workb.Prelude.{
  Bool-cases, List, Option-cases, Result, Text, [], err, inl, inr, length, lit, refl, some, ℕ, ◌++◌,
  ◌∙◌, ◌∷◌, ◌≡◌, ◌⊎◌,
}
use dfir_investigation_workb.Correlation.Events.{TimelineEvent}
use dfir_investigation_workb.Correlation.Candidates.{CorrelationCandidate}
use dfir_investigation_workb.Services.Runs.{
  Outside, completed_row, finish_run, read_events, run, run_body, run_event, run_on, running_row,
  save_run, with_run,
}
use dfir_investigation_workb.Services.Runs.Adds.{Adds, after-Counted, nothing, persist_all-Counted}
use dfir_investigation_workb.Services.Session.Rules.{
  after-commit, after-flush, after-query, after-refresh, guarded-stored,
}
use dfir_investigation_workb.Services.Cases.{get_for_update}
use dfir_investigation_workb.Services.Cases.Lifecycle.{
  get_for_update-found, get_for_update-missing, get_for_update-raises,
}
use dfir_investigation_workb.Services.Runs.Evaluations.{found_in, run_on-found_in}

-- The three answers of the query for the case.
pub after-get_for_update {ℓ} :
    {A : Type ℓ} (P : Result ServiceError A × Session → Type 0) (i : ℕ) (s : Session)
    (f : Case → Action A)
    → P (err sqlalchemy_error, answered s)
    → P (err (not_found (lit "Case was not found")), answered s)
    → ((c : Case) → find_case i s.working.cases ≡ some c → P (f c (answered s)))
    → P (after (get_for_update i s) f)
after-get_for_update P i s f refused missing goes_on = elim (Bool-cases (raises_now s)) [
  | inl failing ↦ rw (get_for_update-raises i s failing) refused
  | inr fine ↦ elim (Option-cases (find_case i s.working.cases)) [
    | inl absent ↦ rw (get_for_update-missing i s fine absent) missing
    | inr (c, found) ↦ rw (get_for_update-found i s c fine found) (goes_on c found)
  ]
]

module _ (o : Outside) (case_id window : ℕ) where
  -- the tables behind a run that has added n matches, which were t' before its last statements
  abbrev pub finished : ℕ → List Text → ℕ → Tables → Tables
  finished event_count warnings n t' =
      let done = save_run (completed_row o case_id window event_count warnings n n) t' in
      record done {
        audit_events =
            done.audit_events ++ run_event o case_id window event_count warnings n n ∷ [];
      }

  -- What a run may do to the tables.
  pub data RunStep (t t' : Tables) : Type 0 where
    no_run : t' ≡ t → RunStep t t'
    one_run :
        (event_count : ℕ) (warnings : List Text) (n : ℕ) (added' : Tables)
        → Adds o case_id window
            (with_run (running_row o case_id window event_count warnings) t)
            added'
            n
        → t' ≡ finished event_count warnings n added'
        → RunStep t t'

  -- The body of the try block leaves what is stored, or commits the whole run.
  abbrev Atomic : Tables → ℕ → List Text → Result ServiceError CorrelationRun × Session → Type 0
  Atomic t event_count warnings (r, s) =
      (s.stored ≡ t)
      ⊎ ((n : ℕ) × (added' : Tables) × Adds o case_id window
            (with_run (running_row o case_id window event_count warnings) t) added' n
          × (s.stored ≡ finished event_count warnings n added'))

  finish_run-Atomic :
      (t : Tables) (event_count : ℕ) (warnings : List Text) (n : ℕ) (s : Session)
      → s.stored ≡ t
      → Adds o case_id window
          (with_run (running_row o case_id window event_count warnings) t)
          s.working
          n
      → Atomic t event_count warnings (finish_run o case_id window event_count warnings n n s)
  unfolding finish_run
  finish_run-Atomic t event_count warnings n s same more =
      after-commit (Atomic t event_count warnings) _ _ (inl same) (
        after-refresh (Atomic t event_count warnings) _ _ (inr (n, s.working, more, refl))
          (inr (n, s.working, more, refl)))

  run_body-Atomic :
      (event_count : ℕ) (cs : List CorrelationCandidate) (warnings : List Text) (s : Session)
      → s.working ≡ s.stored
      → Atomic s.stored event_count warnings (run_body o case_id window event_count cs warnings s)
  unfolding run_body
  run_body-Atomic event_count cs warnings s fresh =
      after-flush (Atomic s.stored event_count warnings) _ _ (inl refl) (
        after-Counted o case_id window s.stored _ (Atomic s.stored event_count warnings) _ _
          (persist_all-Counted o case_id window s.stored
            (with_run (running_row o case_id window event_count warnings) s.stored) cs 0 _ refl
            (rw fresh nothing))
          (λ n s' kept more. finish_run-Atomic s.stored event_count warnings n s' kept more)
          (λ e s' kept. inl kept))

  run_on-Step :
      (events : List TimelineEvent) (s : Session)
      → s.working ≡ s.stored
      → RunStep s.stored (run_on o case_id window events s).1.stored
  run_on-Step events s fresh =
      let (cs, warnings) = found_in o case_id window events in
      let unchanged =
        guarded-stored (lit "Correlation run persistence failed")
          (run_body o case_id window (length events) cs warnings s) in
      rw (run_on-found_in o case_id window events s)
        (elim (run_body-Atomic (length events) cs warnings s fresh) [
          | inl kept ↦ no_run (unchanged ∙ kept)
          | inr (n, added', more, done) ↦
              one_run (length events) warnings n added' more (unchanged ∙ done)
        ])

  -- What a correlation run in a fresh session does to the stored tables, whatever the database
  -- answers to each statement: nothing, or, in one commit, a run row, and for each of n candidates
  -- whose key no stored match has a match with its two links, an open finding and an audit event; the
  -- run row and the last audit event count n matches and n findings.
  pub run-Step :
      (s : Session) → s.working ≡ s.stored → RunStep s.stored (run o case_id window s).1.stored
  unfolding run read_events
  run-Step s fresh =
      after-get_for_update (λ r. RunStep s.stored r.1.stored) case_id s _ (no_run refl)
        (no_run refl)
        (λ c found.
          after-query (λ r. RunStep s.stored r.1.stored) (answered s) _ _ (no_run refl)
            (run_on-Step _ (answered (answered s)) fresh))
