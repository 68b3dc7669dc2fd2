-- ===== src/Services/Runs/Samples.antt =====
-- A small case, and what the tests of its runs take from outside.
use dfir_investigation_workb.Prelude.{[], lit, none, some, ℕ, ◌*◌, ◌+◌, ◌∷◌}
use dfir_investigation_workb.Domain.{CaseStatus}
use dfir_investigation_workb.Services.Session.{Case, Session, Tables}
use dfir_investigation_workb.Services.Runs.{Outside}
use dfir_investigation_workb.Correlation.Samples.{executed, fold_ascii, linked, process}

-- A digest that keeps the text, and identifiers that count.
abbrev pub outside : ℕ → Outside
outside first = record {
  casefold = fold_ascii;
  sha256_hex = λ text. text;
  uuid_text = λ i. lit "5";
  run_id = first;
  match_id = λ n. first + 2 * n + 1;
  finding_id = λ n. first + 2 * n + 2;
  started_at = 100;
  completed_at = 200;
  database_now = 150;
  order_by = λ events. events;
}

abbrev pub sample_case : Case
sample_case = record {
  id = 5;
  case_number = lit "CASE-2024-0001";
  name = some (lit "Laptop");
  description = none;
  investigator = none;
  status = CaseStatus.open_case;
  updated_at = 100;
}

abbrev pub sample_tables : Tables
sample_tables = record {
  cases = sample_case ∷ [];
  audit_events = [];
  evidence = [];
  artifacts = [];
  artifact_records = [];
  timeline_events = linked ∷ executed ∷ process ∷ [];
  correlation_runs = [];
  correlation_matches = [];
  match_events = [];
  findings = [];
}

abbrev pub start : Session
start = record {
  stored = sample_tables;
  working = sample_tables;
  case_number_seq = 0;
  answers = [];
}
