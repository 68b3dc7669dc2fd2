-- ===== src/Services/Runs/Returns.antt =====
-- That a run of the correlation service returns, with a database that carries out every statement.
use dfir_investigation_workb.Services.Session.{
  Case, CorrelationMatch, CorrelationRun, Session, answered, find_case,
}
use dfir_investigation_workb.Prelude.{List, Option, Text, [], none, ok, some, ℕ, ◌∷◌, ◌≡◌}
use dfir_investigation_workb.Correlation.Candidates.{CorrelationCandidate}
use dfir_investigation_workb.Services.Runs.{
  Outside, finish_run, persist, persist_all, persist_new, read_events, run, run_body,
  unless_existing,
}
use dfir_investigation_workb.Services.Session.Quiet.{
  IsQuiet, Returned, Returned-ok, after-Returned, answered-IsQuiet, commit-quiet, flush-quiet,
  guarded-Returned, query-quiet, quiet-raises_now, refresh-quiet,
}
use dfir_investigation_workb.Services.Cases.Lifecycle.{get_for_update-found}
use dfir_investigation_workb.Services.Runs.Evaluations.{run_on-found_in}

module _ (o : Outside) (case_id window : ℕ) where
  unless_existing-Returned :
      (c : CorrelationCandidate) (n k : ℕ) (s : Session) (found : Option CorrelationMatch)
      → IsQuiet s
      → Returned (unless_existing o case_id window c n k found s)
  unfolding unless_existing persist_new
  unless_existing-Returned c n k s none h = flush-quiet Returned _ h _ (
      flush-quiet Returned _ (answered-IsQuiet s h) _
        (answered-IsQuiet (answered s) (answered-IsQuiet s h)))
  unless_existing-Returned c n k s (some m) h = h

  persist_all-Returned :
      (cs : List CorrelationCandidate) (n k : ℕ) (s : Session)
      → IsQuiet s
      → Returned (persist_all o case_id window cs n k s)
  unfolding persist_all persist
  persist_all-Returned [] n k s h = h
  persist_all-Returned (c ∷ cs) n k s h =
      after-Returned (persist o case_id window c n k s) _
        (query-quiet Returned s h _ _
          (unless_existing-Returned c n k (answered s) _ (answered-IsQuiet s h)))
        (λ counts s' h'. persist_all-Returned cs counts.0 counts.1 s' h')

  finish_run-Returned :
      (event_count : ℕ) (warnings : List Text) (n k : ℕ) (s : Session)
      → IsQuiet s
      → Returned (finish_run o case_id window event_count warnings n k s)
  unfolding finish_run
  finish_run-Returned event_count warnings n k s h = commit-quiet Returned _ h _ (
      refresh-quiet Returned _ (answered-IsQuiet s h) _
        (answered-IsQuiet (answered s) (answered-IsQuiet s h)))

  run_body-Returned :
      (event_count : ℕ) (cs : List CorrelationCandidate) (warnings : List Text) (s : Session)
      → IsQuiet s
      → Returned (run_body o case_id window event_count cs warnings s)
  unfolding run_body
  run_body-Returned event_count cs warnings s h = flush-quiet Returned _ h _ (
      after-Returned (persist_all o case_id window cs 0 0 _) _
        (persist_all-Returned cs 0 0 _ (answered-IsQuiet s h))
        (λ counts s' h'. finish_run-Returned event_count warnings counts.0 counts.1 s' h'))

  -- With a database that carries out every statement and holds a case under the identifier, a correlation run returns
  -- its run row, whatever the timeline holds: no assertion of the rules fails on an event without a time.
  pub run-returns :
      (s : Session) (c : Case)
      → IsQuiet s
      → find_case case_id s.working.cases ≡ some c
      → (row : CorrelationRun) × (s' : Session) × (run o case_id window s ≡ (ok row, s'))
  unfolding run read_events
  run-returns s c h found = Returned-ok (run o case_id window s) (
      rw (get_for_update-found case_id s c (quiet-raises_now s h) found) (
        query-quiet Returned (answered s) (answered-IsQuiet s h) _ _ (
          rw (run_on-found_in o case_id window _ (answered (answered s))) (
            guarded-Returned _ (run_body o case_id window _ _ _ _)
              (run_body-Returned _ _ _ _ (answered-IsQuiet (answered s) (answered-IsQuiet s h)))))))
