-- ===== src/Services/Runs/Warns.antt =====
-- The status of a run: the rule for the registry warns whatever the timeline holds.
use dfir_investigation_workb.Services.Session.{CorrelationRun, Session, answered}
use dfir_investigation_workb.Prelude.{List, Text, ok, refl, ℕ, ◌≡◌}
use dfir_investigation_workb.Domain.{CorrelationRunStatus}
use dfir_investigation_workb.Correlation.Candidates.{CorrelationCandidate}
use dfir_investigation_workb.Correlation.Events.{TimelineEvent}
use dfir_investigation_workb.Correlation.Rules.{evtx_prefetch, lnk_evtx, ntfs_evtx, registry_evtx}
use dfir_investigation_workb.Services.Runs.{
  Outside, finish_run, persist_all, read_events, run, run_body, run_status,
}
use dfir_investigation_workb.Services.Session.Rules.{
  WhenOk, after-WhenOk, after-commit, after-flush, after-query, after-refresh, guarded-WhenOk,
  returned-WhenOk,
}
use dfir_investigation_workb.Services.Runs.Steps.{after-get_for_update}
use dfir_investigation_workb.Services.Runs.Repeats.{persist_all-Grows}
use dfir_investigation_workb.Services.Runs.Evaluations.{found_in, run_on-found_in}

module _ (o : Outside) (case_id window : ℕ) where
  abbrev Warned : CorrelationRun → Session → Type 0
  Warned row s = row.status ≡ CorrelationRunStatus.completed_with_warnings

  finish_run-Warned :
      (event_count : ℕ) (warnings : List Text) (n k : ℕ) (s : Session)
      → run_status warnings ≡ CorrelationRunStatus.completed_with_warnings
      → WhenOk Warned (finish_run o case_id window event_count warnings n k s)
  unfolding finish_run
  finish_run-Warned event_count warnings n k s warned =
      after-commit (WhenOk Warned) _ _ tt (after-refresh (WhenOk Warned) _ _ tt warned)

  run_body-Warned :
      (event_count : ℕ) (cs : List CorrelationCandidate) (warnings : List Text) (s : Session)
      → run_status warnings ≡ CorrelationRunStatus.completed_with_warnings
      → WhenOk Warned (run_body o case_id window event_count cs warnings s)
  unfolding run_body
  run_body-Warned event_count cs warnings s warned = after-flush (WhenOk Warned) _ _ tt (
      after-WhenOk _ Warned (persist_all o case_id window cs 0 0 _) _
        (persist_all-Grows o case_id window cs 0 0 _)
        (λ counts s' h. finish_run-Warned event_count warnings counts.0 counts.1 s' warned))

  evaluated-warns :
      (events : List TimelineEvent)
      → run_status (found_in o case_id window events).1
        ≡ CorrelationRunStatus.completed_with_warnings
  unfolding found_in evtx_prefetch lnk_evtx ntfs_evtx registry_evtx
  evaluated-warns events = refl

  -- A correlation run that returns has the status COMPLETED_WITH_WARNINGS, whatever the timeline
  -- holds and whatever the database answers.
  pub run-warns :
      (s s' : Session) (row : CorrelationRun)
      → run o case_id window s ≡ (ok row, s')
      → row.status ≡ CorrelationRunStatus.completed_with_warnings
  unfolding run read_events
  run-warns s s' row returned = returned-WhenOk Warned _ row s' returned (
      after-get_for_update (WhenOk Warned) case_id s _ tt tt (λ c found.
        after-query (WhenOk Warned) (answered s) _ _ tt (
          rw (run_on-found_in o case_id window _ (answered (answered s)))
            (guarded-WhenOk Warned _ _ (run_body-Warned _ _ _ _ (evaluated-warns _))))))
