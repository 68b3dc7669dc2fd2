-- ===== src/Services/Findings/Tests.antt =====
-- Updates of findings, and the theorem at those inputs.
use dfir_investigation_workb.Services.Session.{
  Finding, Session, Tables, commit, conflict, query, raises_now,
}
use dfir_investigation_workb.Prelude.{[], err, lit, none, ok, refl, some, ◌∷◌, ◌≡◌}
use dfir_investigation_workb.Domain.{FindingConfidence, FindingSeverity, FindingStatus, FindingType}
use dfir_investigation_workb.Services.Findings.{
  FindingUpdate, apply_finding_update, audit_status, change_finding, checked_status, find_finding,
  finding_conflict, finding_or_not_found, finding_status_value, get_finding, may_become,
  record_finding, replace_finding, update_finding, updated_finding,
}
use dfir_investigation_workb.Services.Findings.Transitions.{FindingStep, update_finding-Step}

abbrev empty_tables : Tables
empty_tables = record {
  cases = [];
  audit_events = [];
  evidence = [];
  artifacts = [];
  artifact_records = [];
  timeline_events = [];
  correlation_runs = [];
  correlation_matches = [];
  match_events = [];
  findings = [];
}

abbrev finding_7 : Finding
finding_7 = record {
  id = 7;
  case_id = 5;
  correlation_run_id = 1;
  correlation_match_id = 2;
  finding_type = FindingType.lnk_process_association;
  status = FindingStatus.reviewed;
  severity = FindingSeverity.low;
  confidence = FindingConfidence.medium;
  rule_id = lit "CORR-LNK-EVTX-001";
  rule_version = lit "1.0.0";
  deterministic_key = lit "k";
  analyst_notes = none;
  match_basis = lit "basename_match";
  updated_at = 90;
}

abbrev one_finding : Session
one_finding = record {
  stored = record empty_tables { findings = finding_7 ∷ [] };
  working = record empty_tables { findings = finding_7 ∷ [] };
  case_number_seq = 0;
  answers = [];
}

abbrev to_status : FindingStatus → FindingUpdate
to_status target = record {
  status = some (some target);
  severity = none;
  confidence = none;
  analyst_notes = none;
}

resolves :
    (update_finding 95 7 (to_status FindingStatus.resolved) one_finding).0
    ≡ ok (record finding_7 { status = FindingStatus.resolved; updated_at = 95 })
unfolding update_finding get_finding query finding_or_not_found change_finding checked_status
    apply_finding_update updated_finding record_finding audit_status commit may_become find_finding
    replace_finding raises_now
resolves = refl

-- A reviewed finding does not open again.
reopens :
    (update_finding 95 7 (to_status FindingStatus.open_finding) one_finding).0
    ≡ err (conflict (lit "Finding cannot transition from REVIEWED to OPEN"))
unfolding update_finding get_finding query finding_or_not_found change_finding checked_status
    may_become find_finding raises_now finding_conflict finding_status_value lit
reopens = refl

update_finding-Step_example :
    FindingStep 95 7 one_finding.stored
      (update_finding 95 7 (to_status FindingStatus.resolved) one_finding).1.stored
update_finding-Step_example =
    update_finding-Step 95 7 (to_status FindingStatus.resolved) one_finding refl
