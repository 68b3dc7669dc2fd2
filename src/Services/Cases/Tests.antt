-- ===== src/Services/Cases/Tests.antt =====
-- Runs of the case service, and the theorems at those inputs.
use dfir_investigation_workb.Services.Session.{
  Answer, Case, Session, Tables, case_archived, case_closed, commit, conflict, find_case,
  infrastructure, raises_now, refresh, replace_case, select_case,
}
use dfir_investigation_workb.Prelude.{
  List, [], decimal, err, false, lit, none, ok, refl, some, true, year_of, ◌*◌, ◌∷◌, ◌≡◌,
}
use dfir_investigation_workb.Domain.{CaseStatus, case_status_is}
use dfir_investigation_workb.Services.Cases.{
  CaseUpdate, Request, archive_case, case_number, close, close_case, conflict_text, four_digits,
  get_for_update, handle, move_case, moved_row, or_not_found, record_change, serve, transition,
  update, update_case,
}
use dfir_investigation_workb.Services.Cases.Lifecycle.{Step, changed, handle-Step}
use dfir_investigation_workb.Services.Cases.History.{Follows, serve-Follows}
use dfir_investigation_workb.Services.Cases.Outcomes.{
  returned, transition-answer, transition-ok, update-null_name,
}

abbrev blank : Tables
blank = record {
  cases = [];
  audit_events = [];
  evidence = [];
  artifacts = [];
  artifact_records = [];
  timeline_events = [];
  correlation_runs = [];
  correlation_matches = [];
  match_events = [];
  findings = [];
}

abbrev row_5 : Case
row_5 = record {
  id = 5;
  case_number = lit "CASE-2024-0001";
  name = some (lit "Laptop");
  description = none;
  investigator = none;
  status = CaseStatus.open_case;
  updated_at = 100;
}

abbrev one_case : Tables
one_case = record blank { cases = row_5 ∷ [] }

abbrev quiet : Session
quiet = record { stored = one_case; working = one_case; case_number_seq = 1; answers = [] }

-- the third statement, the refresh behind the commit, raises
abbrev shaky : Session
shaky = record quiet { answers = Answer.carried_out ∷ Answer.carried_out ∷ Answer.raises ∷ [] }

year_2024 : year_of (738885 * 86400000000) ≡ 2024
unfolding year_of
year_2024 = refl

number_7 : case_number (738885 * 86400000000) 7 ≡ lit "CASE-2024-0007"
unfolding case_number year_of four_digits decimal lit
number_7 = refl

close-quiet : close 90 5 quiet ≡ (
  ok (moved_row 90 CaseStatus.closed row_5),
  record quiet {
    stored =
        changed one_case
          (moved_row 90 CaseStatus.closed row_5)
          (case_closed CaseStatus.open_case CaseStatus.closed);
    working =
        changed one_case
          (moved_row 90 CaseStatus.closed row_5)
          (case_closed CaseStatus.open_case CaseStatus.closed);
  },
)
unfolding close transition get_for_update select_case or_not_found move_case record_change commit
    refresh raises_now find_case replace_case
close-quiet = refl

-- A failure behind the commit is reported as a failure, and yet the case is closed.
close-shaky :
    ((close 90 5 shaky).0 ≡ err (infrastructure (lit "Case lifecycle transition failed")))
    × ((close 90 5 shaky).1.stored
        ≡ changed one_case
            (moved_row 90 CaseStatus.closed row_5)
            (case_closed CaseStatus.open_case CaseStatus.closed))
unfolding close transition get_for_update select_case or_not_found move_case record_change commit
    refresh raises_now find_case replace_case
close-shaky = (refl, refl)

handle-Step_example : Step one_case (handle (close_case 90 5) shaky).1.stored
handle-Step_example = handle-Step (close_case 90 5) shaky refl

abbrev script : List Request
script =
    close_case 90 5
    ∷ archive_case 300 5
    ∷ update_case 310 5 (record { name = some none; description = none; investigator = none })
    ∷ close_case 320 5
    ∷ []

serve-Follows_example : Follows 5 row_5 (serve quiet script).stored.cases
unfolding find_case
serve-Follows_example = serve-Follows script quiet 5 row_5 refl

transition-ok_example :
    (c : Case) × (find_case 5 one_case.cases ≡ some c)
    × (case_status_is c.status CaseStatus.open_case ≡ true)
    × (moved_row 90 CaseStatus.closed row_5 ≡ moved_row 90 CaseStatus.closed c)
    × ((close 90 5 quiet).1.stored
        ≡ changed one_case
            (moved_row 90 CaseStatus.closed row_5)
            (case_closed c.status CaseStatus.closed))
unfolding close transition get_for_update select_case or_not_found move_case record_change commit
    refresh raises_now find_case replace_case
transition-ok_example =
    transition-ok 90 5 CaseStatus.open_case CaseStatus.closed case_closed
      (moved_row 90 CaseStatus.closed row_5) quiet (close 90 5 quiet).1 refl refl

transition-answer_example :
    (transition 90 5 CaseStatus.closed CaseStatus.archived case_archived quiet).0
    ≡ err (conflict (conflict_text CaseStatus.open_case CaseStatus.archived))
unfolding find_case replace_case
transition-answer_example =
    transition-answer 90 5 CaseStatus.closed CaseStatus.archived case_archived row_5 quiet refl refl
      refl refl

abbrev null_name : CaseUpdate
null_name = record { name = some none; description = none; investigator = none }

update-null_name_example :
    ((update 90 5 null_name quiet).1.stored ≡ one_case)
    × (returned (update 90 5 null_name quiet).0 ≡ false)
update-null_name_example = update-null_name 90 5 null_name quiet refl
