-- ===== src/Services/Runs/Tests.antt =====
-- Correlation runs on a small case, and the theorems at those inputs.
use dfir_investigation_workb.Services.Session.{
  CorrelationRun, Session, commit, find_case, flush, query, raises_now, refresh, rolled_back,
  select_case,
}
use dfir_investigation_workb.Prelude.{[], lit, ok, refl, some, text_eq, ℕ, ◌≡◌}
use dfir_investigation_workb.Domain.{CorrelationRunStatus}
use dfir_investigation_workb.Json.{get}
use dfir_investigation_workb.Correlation.Paths.{
  after_last, ascii_upper, basename, basename_of, cleaned, components, full_path_of, is_absolute,
  is_space, join_components, keep_component, name_of, normal_components, normpath, path_of,
  split_drive, split_root, split_server, split_share, strip, strip_left, to_backslashes,
  to_separator,
}
use dfir_investigation_workb.Correlation.Pairs.{
  add_to_group, all_pairs, group_events, group_of, identity_time_pairs, pairs_with, within_window,
}
use dfir_investigation_workb.Correlation.Candidates.{is_process_event, process_events}
use dfir_investigation_workb.Correlation.Events.{
  compare_events, compare_text, insert_event, sort_events,
}
use dfir_investigation_workb.Correlation.Rules.{
  evtx_prefetch, lnk_candidate, lnk_candidates, lnk_conflict, lnk_evtx, lnk_exact, ntfs_evtx,
  prefetch_candidate, registry_evtx,
}
use dfir_investigation_workb.Services.Runs.Samples.{outside, sample_case, start}
use dfir_investigation_workb.Services.Cases.{get_for_update, or_not_found}
use dfir_investigation_workb.Services.Runs.{
  compare_candidates, completed_row, evaluate_rules, evaluated, find_match, finish_run,
  insert_candidate, match_key, persist, persist_all, persist_new, read_events, run, run_body,
  run_on, sort_candidates, unless_existing,
}
use dfir_investigation_workb.Services.Runs.Steps.{RunStep, run-Step}
use dfir_investigation_workb.Services.Runs.Repeats.{AddsNothing}
use dfir_investigation_workb.Services.Runs.Idempotent.{run-AddsNothing_again}
use dfir_investigation_workb.Services.Runs.Returns.{run-returns}
use dfir_investigation_workb.Services.Runs.Warns.{run-warns}
use dfir_investigation_workb.Correlation.Asserts.{
  evaluate_evtx_prefetch, evaluate_lnk_evtx, evaluate_ntfs_evtx, raising_all_pairs, raising_pairs,
  sorted_events, unconflicted, with_deltas,
}

abbrev run_row : ℕ → ℕ → CorrelationRun
run_row first created =
    completed_row (outside first) 5 300 3 (registry_evtx [] 300).warnings created created

abbrev behind_first : Session
behind_first = (run (outside 1) 5 300 start).1

abbrev behind_second : Session
behind_second = (run (outside 100) 5 300 (rolled_back behind_first)).1

-- The link and the Prefetch file both go with the process.
first_run : run (outside 1) 5 300 start ≡ (ok (run_row 1 2), behind_first)
unfolding lit text_eq split_root split_server split_share to_separator split_drive ascii_upper
    components keep_component normal_components join_components normpath is_space strip_left strip
    to_backslashes is_absolute after_last basename cleaned path_of name_of basename_of full_path_of
    get compare_text compare_events insert_event sort_events within_window add_to_group group_of
    group_events pairs_with all_pairs identity_time_pairs is_process_event process_events
    evtx_prefetch lnk_evtx lnk_candidates lnk_conflict ntfs_evtx registry_evtx lnk_candidate
    lnk_exact prefetch_candidate run get_for_update select_case raises_now or_not_found find_case
    query read_events run_on run_body evaluated evaluate_rules sorted_events raising_all_pairs
    raising_pairs with_deltas unconflicted evaluate_evtx_prefetch evaluate_lnk_evtx
    evaluate_ntfs_evtx sort_candidates insert_candidate compare_candidates flush persist_all persist
    find_match match_key unless_existing persist_new finish_run commit refresh
first_run = refl

second_run :
    run (outside 100) 5 300 (rolled_back behind_first) ≡ (ok (run_row 100 0), behind_second)
unfolding lit text_eq split_root split_server split_share to_separator split_drive ascii_upper
    components keep_component normal_components join_components normpath is_space strip_left strip
    to_backslashes is_absolute after_last basename cleaned path_of name_of basename_of full_path_of
    get compare_text compare_events insert_event sort_events within_window add_to_group group_of
    group_events pairs_with all_pairs identity_time_pairs is_process_event process_events
    evtx_prefetch lnk_evtx lnk_candidates lnk_conflict ntfs_evtx registry_evtx lnk_candidate
    lnk_exact prefetch_candidate run get_for_update select_case raises_now or_not_found find_case
    query read_events run_on run_body evaluated evaluate_rules sorted_events raising_all_pairs
    raising_pairs with_deltas unconflicted evaluate_evtx_prefetch evaluate_lnk_evtx
    evaluate_ntfs_evtx sort_candidates insert_candidate compare_candidates flush persist_all persist
    find_match match_key unless_existing persist_new finish_run commit refresh
second_run = refl

run-Step_example : RunStep (outside 1) 5 300 start.stored behind_first.stored
run-Step_example = run-Step (outside 1) 5 300 start refl

sample-found : find_case 5 start.working.cases ≡ some sample_case
unfolding find_case
sample-found = refl

run-returns_example :
    (row : CorrelationRun) × (s' : Session) × (run (outside 1) 5 300 start ≡ (ok row, s'))
run-returns_example = run-returns (outside 1) 5 300 start sample_case (refl, refl) sample-found

run-AddsNothing_again_example :
    AddsNothing (outside 1) 5 300 behind_first.stored (run_row 100 0) behind_second
run-AddsNothing_again_example =
    run-AddsNothing_again (outside 1) 5 300 100 (outside 100).match_id (outside 100).finding_id 100
      200 150 start behind_first (rolled_back behind_first) behind_second (run_row 1 2)
      (run_row 100 0) first_run refl second_run

run-warns_example : (run_row 1 2).status ≡ CorrelationRunStatus.completed_with_warnings
run-warns_example = run-warns (outside 1) 5 300 start behind_first (run_row 1 2) first_run
