-- ===== src/Services/Investigation/Tests.antt =====
-- Requests in a row, and the theorems at those inputs.
use dfir_investigation_workb.Services.Session.{CorrelationMatch, Finding, Session, Tables}
use dfir_investigation_workb.Prelude.{List, [], lit, none, pos, refl, some, ◌∷◌, ◌≡◌}
use dfir_investigation_workb.Domain.{FindingConfidence, FindingSeverity, FindingStatus, FindingType}
use dfir_investigation_workb.Services.Runs.{find_match}
use dfir_investigation_workb.Services.Runs.Samples.{outside, sample_tables, start}
use dfir_investigation_workb.Services.Runs.Keys.{IsConsistent}
use dfir_investigation_workb.Services.Findings.{FindingUpdate, find_finding}
use dfir_investigation_workb.Services.Investigation.{
  CorrelationRequest, patch_finding, run_correlation, serve_correlation,
}
use dfir_investigation_workb.Services.Investigation.Kept.{
  StaysFound, serve-IsConsistent, serve-StaysFound,
}

-- a finding from an earlier run, which was reviewed, with its match
abbrev old_finding : Finding
old_finding = record {
  id = 7;
  case_id = 5;
  correlation_run_id = 90;
  correlation_match_id = 6;
  finding_type = FindingType.lnk_process_association;
  status = FindingStatus.reviewed;
  severity = FindingSeverity.low;
  confidence = FindingConfidence.medium;
  rule_id = lit "CORR-LNK-EVTX-001";
  rule_version = lit "1.0.0";
  deterministic_key = lit "finding|k";
  analyst_notes = none;
  match_basis = lit "basename_match";
  updated_at = 90;
}

abbrev old_match : CorrelationMatch
old_match = record {
  id = 6;
  correlation_run_id = 90;
  case_id = 5;
  rule_id = lit "CORR-LNK-EVTX-001";
  rule_version = lit "1.0.0";
  deterministic_key = lit "k";
  temporal_delta = 1;
  match_basis = lit "basename_match";
  matched_fields = lit "basename" ∷ [];
  normalized_identity = lit "a.exe";
  temporal_window_seconds = 300;
  signed_delta = pos 1;
  event_a_time = some 3;
  event_b_time = some 4;
}

abbrev reviewed_tables : Tables
reviewed_tables = record sample_tables {
  correlation_matches = old_match ∷ [];
  findings = old_finding ∷ [];
}

abbrev reviewed_start : Session
reviewed_start = record start { stored = reviewed_tables; working = reviewed_tables }

abbrev to_status : FindingStatus → FindingUpdate
to_status target = record {
  status = some (some target);
  severity = none;
  confidence = none;
  analyst_notes = none;
}

abbrev requests : List CorrelationRequest
requests =
    run_correlation (outside 10) 5
    ∷ patch_finding 95 7 (to_status FindingStatus.resolved)
    ∷ patch_finding 95 7 (to_status FindingStatus.open_finding)
    ∷ run_correlation (outside 20) 5
    ∷ []

old-found : find_finding 7 reviewed_tables.findings ≡ some old_finding
unfolding find_finding
old-found = refl

old-IsConsistent : IsConsistent reviewed_tables
unfolding find_match
old-IsConsistent = ((refl, tt), refl)

serve-StaysFound_example :
    StaysFound 7 old_finding (serve_correlation reviewed_start requests).stored.findings
serve-StaysFound_example = serve-StaysFound requests reviewed_start 7 old_finding old-found

serve-IsConsistent_example : IsConsistent (serve_correlation reviewed_start requests).stored
serve-IsConsistent_example = serve-IsConsistent requests reviewed_start old-IsConsistent
