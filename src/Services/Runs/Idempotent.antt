-- ===== src/Services/Runs/Idempotent.antt =====
-- A second correlation run on the same timeline.
use dfir_investigation_workb.Services.Session.{CorrelationRun, Session, Tables, answered}
use dfir_investigation_workb.Prelude.{Datetime, ok, ℕ, ◌≡◌}
use dfir_investigation_workb.Services.Runs.{Outside, match_key, read_events, run}
use dfir_investigation_workb.Services.Session.Rules.{
  WhenOk, after-query, guarded-WhenOk, returned-WhenOk,
}
use dfir_investigation_workb.Services.Runs.Steps.{after-get_for_update}
use dfir_investigation_workb.Services.Runs.Repeats.{
  AddsNothing, AllKnown, Found, candidates_in, run_body-AddsNothing, run_body-Found,
}
use dfir_investigation_workb.Services.Runs.Evaluations.{found_in, run_on-found_in}

module _ (o : Outside) (case_id window : ℕ) where
  run-Found :
      (s : Session)
      → WhenOk
          (Found o case_id window
            (candidates_in o case_id window s.working)
            s.working.timeline_events)
          (run o case_id window s)
  unfolding run read_events
  run-Found s =
      let Q =
        Found o case_id window (candidates_in o case_id window s.working)
          s.working.timeline_events in
      after-get_for_update (WhenOk Q) case_id s _ tt tt (λ c found.
        after-query (WhenOk Q) (answered s) _ _ tt (
          rw (run_on-found_in o case_id window _ (answered (answered s)))
            (guarded-WhenOk Q _ _ (run_body-Found o case_id window _ _ _ (answered (answered s))))))

  run-AddsNothing :
      (s : Session)
      → AllKnown o case_id window (candidates_in o case_id window s.working) s.working
      → WhenOk (AddsNothing o case_id window s.working) (run o case_id window s)
  unfolding run read_events
  run-AddsNothing s known =
      let Q = AddsNothing o case_id window s.working in
      after-get_for_update (WhenOk Q) case_id s _ tt tt (λ c found.
        after-query (WhenOk Q) (answered s) _ _ tt (
          rw (run_on-found_in o case_id window _ (answered (answered s))) (
            guarded-WhenOk Q _ _
              (run_body-AddsNothing o case_id window _ _ _ (answered (answered s)) known))))

-- What a later run takes from outside: its identifiers and clock readings are its own.
abbrev pub later : Outside → ℕ → (ℕ → ℕ) → (ℕ → ℕ) → Datetime → Datetime → Datetime → Outside
later o run_id match_id finding_id started_at completed_at database_now = record o {
  run_id = run_id;
  match_id = match_id;
  finding_id = finding_id;
  started_at = started_at;
  completed_at = completed_at;
  database_now = database_now;
}

module _ (o : Outside) (case_id window : ℕ) (run_id : ℕ) (match_id finding_id : ℕ → ℕ)
    (started_at completed_at database_now : Datetime) where
  -- The keys and the candidates of a later run are those of the earlier one.
  AllKnown-later :
      (t t' : Tables)
      → t'.timeline_events ≡ t.timeline_events
      → AllKnown o case_id window (candidates_in o case_id window t) t'
      → AllKnown
          (later o run_id match_id finding_id started_at completed_at database_now)
          case_id
          window
          (candidates_in
            (later o run_id match_id finding_id started_at completed_at database_now)
            case_id
            window
            t')
          t'
  unfolding match_key found_in
  AllKnown-later t t' same known = rw same known

  -- A correlation run in a fresh session that returns has left a match for every candidate: if a
  -- second run, with identifiers and clock readings of its own, returns from the tables that
  -- the first has stored, then it reports no match and no finding, and the stored matches, links and findings
  -- are the same as before it, whatever the database answers to its other statements.
  pub run-AddsNothing_again :
      (s s' u u' : Session) (row row' : CorrelationRun)
      → run o case_id window s ≡ (ok row, s')
      → u.working ≡ s'.stored
      → run
          (later o run_id match_id finding_id started_at completed_at database_now)
          case_id
          window
          u
        ≡ (ok row', u')
      → AddsNothing o case_id window s'.stored row' u'
  run-AddsNothing_again s s' u u' row row' one fresh two =
      let found = returned-WhenOk _ _ row s' one (run-Found o case_id window s) in
      let known = AllKnown-later s.working s'.stored found.1 found.0 in
      let o' = later o run_id match_id finding_id started_at completed_at database_now in
      let still =
        returned-WhenOk _ _ row' u' two (run-AddsNothing o' case_id window u (rw fresh known)) in
      rw (← fresh) still
