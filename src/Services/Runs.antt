-- ===== src/Services/Runs.antt =====
-- `CorrelationService.run` of backend/app/services/correlation_service.py. A SHA-256 digest, the text
-- of an identifier, the order in which the database returns the events, the clock and the fresh
-- identifiers are arguments.
pub mod Adds
pub mod Steps
pub mod Keys
pub mod Repeats
pub mod Idempotent
pub mod Evaluations
pub mod Returns
pub mod Warns
pub mod Samples
mod Tests
use dfir_investigation_workb.Services.Session.{
  Action, AuditEvent, CorrelationMatch, CorrelationMatchEvent, CorrelationRun, Finding,
  ServiceError, Tables, add_audit, assertion_error, commit, correlation_run, finding_created, flush,
  guarded, of_result, pure, query, refresh, write, ◌>>=◌, ◌>>◌,
}
use dfir_investigation_workb.Prelude.{
  Datetime, List, Option, Result, Text, [], err, if◌then◌else◌, length, lit, map, none, ok, some,
  text_eq, ℕ, ◌++◌, ◌+◌, ◌==◌, ◌∷◌,
}
use dfir_investigation_workb.Domain.{CorrelationRunStatus, FindingStatus}
use dfir_investigation_workb.Correlation.Events.{
  TimelineEvent, compare_text, not_after, or_empty, then_compare, time_or_zero,
}
use dfir_investigation_workb.Correlation.Candidates.{CorrelationCandidate, RuleEvaluation}
use dfir_investigation_workb.Correlation.Asserts.{RuleError, assertion_failed}
use dfir_investigation_workb.Correlation.Registry.{
  CorrelationRule, registered_rules, rule_set_version, rule_version,
}
use dfir_investigation_workb.Services.Cases.{get_for_update}
use Prim.Native.Nat.{compare, Ordering}

-- Python's tuples of two texts, sorted
abbrev pub sorted_texts : Text → Text → Text × Text
sorted_texts a b = if not_after (compare_text a b) then (a, b) else (b, a)

-- `_candidate_sort_key`, as a comparison; the events of a candidate have passed the assertion of `_delta`,
-- so that no missing time is compared.
unfoldable pub compare_candidates : CorrelationCandidate → CorrelationCandidate → Ordering
compare_candidates c d = then_compare (compare_text c.rule_id d.rule_id) (
    then_compare (compare (time_or_zero c.event_a.event_time) (time_or_zero d.event_a.event_time)) (
      then_compare (compare (time_or_zero c.event_b.event_time) (time_or_zero d.event_b.event_time))
        (then_compare
          (compare_text (or_empty c.event_a.source_identifier)
            (or_empty d.event_a.source_identifier))
          (then_compare
            (compare_text (or_empty c.event_b.source_identifier)
              (or_empty d.event_b.source_identifier))
            (then_compare (compare_text c.normalized_identity d.normalized_identity) (
              then_compare (compare_text c.event_a.id d.event_a.id)
                (compare_text c.event_b.id d.event_b.id)))))))

unfoldable pub insert_candidate :
    CorrelationCandidate → List CorrelationCandidate → List CorrelationCandidate
insert_candidate c [] = c ∷ []
insert_candidate c (d ∷ ds) =
    let rest = insert_candidate c ds in
    if not_after (compare_candidates c d) then c ∷ d ∷ ds else d ∷ rest

-- `candidates.sort(key=_candidate_sort_key)`, which is stable
unfoldable pub sort_candidates : List CorrelationCandidate → List CorrelationCandidate
sort_candidates [] = []
sort_candidates (c ∷ cs) = insert_candidate c (sort_candidates cs)

abbrev pub Evaluated : Type 0
Evaluated = List CorrelationCandidate × List Text

abbrev pub with_evaluation :
    Result RuleError RuleEvaluation → Result RuleError Evaluated → Result RuleError Evaluated
with_evaluation (err e) rest = err e
with_evaluation (ok result) (err e) = err e
with_evaluation (ok result) (ok (candidates, warnings)) =
    ok (result.candidates ++ candidates, result.warnings ++ warnings)

-- the candidates and the warnings of all rules, in their order, or the error of the first that raises
unfoldable pub evaluate_rules :
    List CorrelationRule → List TimelineEvent → ℕ → Result RuleError Evaluated
evaluate_rules [] events window = ok ([], [])
evaluate_rules (r ∷ rs) events window =
    with_evaluation (r.evaluate events window) (evaluate_rules rs events window)

abbrev pub sorted_evaluation : Result RuleError Evaluated → Result ServiceError Evaluated
sorted_evaluation (ok (candidates, warnings)) = ok (sort_candidates candidates, warnings)
sorted_evaluation (err assertion_failed) = err assertion_error

-- `select(CorrelationMatch).where(CorrelationMatch.deterministic_key == key)`
unfoldable pub find_match : Text → List CorrelationMatch → Option CorrelationMatch
find_match key [] = none
find_match key (m ∷ ms) =
    let rest = find_match key ms in if text_eq m.deterministic_key key then some m else rest

abbrev pub rule_names : List CorrelationRule → List (Text × Text × Text)
rule_names rs = map (λ (r : CorrelationRule). (r.rule_id, r.version, r.name)) rs

abbrev pub rule_versions : List CorrelationRule → List (Text × Text)
rule_versions rs = map (λ (r : CorrelationRule). (r.rule_id, r.version)) rs

abbrev pub run_status : List Text → CorrelationRunStatus
run_status [] = CorrelationRunStatus.completed
run_status (w ∷ ws) = CorrelationRunStatus.completed_with_warnings

abbrev pub case_events : ℕ → List TimelineEvent → List TimelineEvent
case_events i [] = []
case_events i (e ∷ es) = if e.case_id == i then e ∷ case_events i es else case_events i es

unfoldable pub replace_run : CorrelationRun → List CorrelationRun → List CorrelationRun
replace_run row [] = []
replace_run row (r ∷ rs) = if r.id == row.id then row ∷ rs else r ∷ replace_run row rs

abbrev pub with_match : CorrelationMatch → Tables → Tables
with_match m t = record t { correlation_matches = t.correlation_matches ++ m ∷ [] }

abbrev pub with_links : List CorrelationMatchEvent → Tables → Tables
with_links links t = record t { match_events = t.match_events ++ links }

abbrev pub with_finding : Finding → Tables → Tables
with_finding f t = record t { findings = t.findings ++ f ∷ [] }

abbrev pub with_run : CorrelationRun → Tables → Tables
with_run row t = record t { correlation_runs = t.correlation_runs ++ row ∷ [] }

abbrev pub save_run : CorrelationRun → Tables → Tables
save_run row t = record t { correlation_runs = replace_run row t.correlation_runs }

-- What the run takes from outside: `hashlib.sha256(text.encode()).hexdigest()`, `str` of the case's
-- identifier, the `uuid4` of the run, of the n-th match and of the n-th finding, the two clock readings,
-- Python's `casefold`, and how the database orders the events that it returns.
pub record Outside : Type 0 where
  pub casefold : Text → Text
  pub sha256_hex : Text → Text
  pub uuid_text : ℕ → Text
  pub run_id : ℕ
  pub match_id : ℕ → ℕ
  pub finding_id : ℕ → ℕ
  pub started_at : Datetime
  pub completed_at : Datetime
  -- the time of the transaction, which dates new rows
  pub database_now : Datetime
  pub order_by : List TimelineEvent → List TimelineEvent

module _ (o : Outside) (case_id window : ℕ) where
  -- `_match_key`
  unfoldable pub match_key : CorrelationCandidate → Text
  match_key c =
      let (id_1, id_2) = sorted_texts c.event_a.id c.event_b.id in
      let bar = lit "|" in
      o.sha256_hex (
        o.uuid_text case_id
        ++ (bar
            ++ (c.rule_id
                ++ (bar
                    ++ (rule_version
                        ++ (bar
                            ++ (id_1
                                ++ (bar
                                    ++ (id_2
                                        ++ (bar
                                            ++ (c.match_basis
                                                ++ (bar ++ c.normalized_identity))))))))))))

  abbrev pub new_match : CorrelationCandidate → ℕ → CorrelationMatch
  new_match c n = record {
    id = o.match_id n;
    correlation_run_id = o.run_id;
    case_id = case_id;
    rule_id = c.rule_id;
    rule_version = rule_version;
    deterministic_key = match_key c;
    temporal_delta = c.temporal_delta;
    match_basis = c.match_basis;
    matched_fields = c.matched_fields;
    normalized_identity = c.normalized_identity;
    temporal_window_seconds = window;
    signed_delta = c.signed_delta;
    event_a_time = c.event_a.event_time;
    event_b_time = c.event_b.event_time;
  }

  abbrev pub new_links : CorrelationCandidate → ℕ → List CorrelationMatchEvent
  new_links c n =
      record {
        correlation_match_id = o.match_id n;
        timeline_event_id = c.event_a.id;
        event_role = c.event_a_role;
        event_order = 0;
      }
      ∷ record {
        correlation_match_id = o.match_id n;
        timeline_event_id = c.event_b.id;
        event_role = c.event_b_role;
        event_order = 1;
      }
      ∷ []

  abbrev pub new_finding : CorrelationCandidate → ℕ → ℕ → Finding
  new_finding c n k = record {
    id = o.finding_id k;
    case_id = case_id;
    correlation_run_id = o.run_id;
    correlation_match_id = o.match_id n;
    finding_type = c.finding_type;
    status = FindingStatus.open_finding;
    severity = c.severity;
    confidence = c.confidence;
    rule_id = c.rule_id;
    rule_version = rule_version;
    deterministic_key = o.sha256_hex (lit "finding|" ++ match_key c);
    analyst_notes = none;
    match_basis = c.match_basis;
    updated_at = o.database_now;
  }

  abbrev pub created_event : CorrelationCandidate → ℕ → ℕ → AuditEvent
  created_event c n k = record {
    case_id = case_id;
    action = finding_created (o.finding_id k) (o.match_id n) c.rule_id rule_version;
  }

  -- one round of the loop, on the matches and the findings created so far
  unfoldable pub persist_new : CorrelationCandidate → ℕ → ℕ → Action (ℕ × ℕ)
  persist_new c n k = do
    write (with_match (new_match c n))
    flush
    write (with_links (new_links c n))
    write (with_finding (new_finding c n k))
    flush
    add_audit (created_event c n k)
    pure (n + 1, k + 1)

  unfoldable pub unless_existing :
      CorrelationCandidate → ℕ → ℕ → Option CorrelationMatch → Action (ℕ × ℕ)
  unless_existing c n k none = persist_new c n k
  unless_existing c n k (some m) = pure (n, k)

  unfoldable pub persist : CorrelationCandidate → ℕ → ℕ → Action (ℕ × ℕ)
  persist c n k = do
    existing ← query (λ (t : Tables). find_match (match_key c) t.correlation_matches)
    unless_existing c n k existing

  unfoldable pub persist_all : List CorrelationCandidate → ℕ → ℕ → Action (ℕ × ℕ)
  persist_all [] n k = pure (n, k)
  persist_all (c ∷ cs) n k = do counts ← persist c n k; persist_all cs counts.0 counts.1

  abbrev pub running_row : ℕ → List Text → CorrelationRun
  running_row event_count warnings = record {
    id = o.run_id;
    case_id = case_id;
    started_at = o.started_at;
    completed_at = none;
    status = CorrelationRunStatus.running;
    rule_set_version = rule_set_version;
    temporal_window_seconds = window;
    event_count = event_count;
    matched_count = 0;
    finding_count = 0;
    rules_evaluated = rule_names (registered_rules o.casefold);
    warnings = warnings;
    errors = [];
  }

  abbrev pub completed_row : ℕ → List Text → ℕ → ℕ → CorrelationRun
  completed_row event_count warnings n k = record (running_row event_count warnings) {
    completed_at = some o.completed_at;
    status = run_status warnings;
    matched_count = n;
    finding_count = k;
  }

  abbrev pub run_event : ℕ → List Text → ℕ → ℕ → AuditEvent
  run_event event_count warnings n k = record {
    case_id = case_id;
    action =
        correlation_run o.run_id rule_set_version (rule_versions (registered_rules o.casefold))
          event_count n k (length warnings);
  }

  -- the body of the try block behind the loop
  unfoldable pub finish_run : ℕ → List Text → ℕ → ℕ → Action CorrelationRun
  finish_run event_count warnings n k = do
    write (save_run (completed_row event_count warnings n k))
    add_audit (run_event event_count warnings n k)
    commit
    refresh
    pure (completed_row event_count warnings n k)

  unfoldable pub run_body : ℕ → List CorrelationCandidate → List Text → Action CorrelationRun
  run_body event_count candidates warnings = do
    write (with_run (running_row event_count warnings))
    flush
    counts ← persist_all candidates 0 0
    finish_run event_count warnings counts.0 counts.1

  -- the sorted candidates, and the warnings
  unfoldable pub evaluated : List TimelineEvent → Result ServiceError Evaluated
  evaluated events = sorted_evaluation (evaluate_rules (registered_rules o.casefold) events window)

  -- the try block
  abbrev pub run_found : ℕ → Evaluated → Action CorrelationRun
  run_found event_count found s =
      guarded (lit "Correlation run persistence failed") (run_body event_count found.0 found.1 s)

  unfoldable pub run_on : List TimelineEvent → Action CorrelationRun
  run_on events = do found ← of_result (evaluated events); run_found (length events) found

  unfoldable pub read_events : Action (List TimelineEvent)
  read_events s = query (λ (t : Tables). o.order_by (case_events case_id t.timeline_events)) s

  unfoldable pub run : Action CorrelationRun
  run = do c ← get_for_update case_id; events ← read_events; run_on events
