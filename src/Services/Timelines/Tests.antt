-- ===== src/Services/Timelines/Tests.antt =====
-- Generations of a small timeline, and the theorems at those inputs.
use dfir_investigation_workb.Services.Session.{
  Session, Tables, commit, find_case, query, raises_now, rolled_back, select_case,
}
use dfir_investigation_workb.Json.{
  array, cons, end, entries, field, get, integer, item_list, nil, object, string,
}
use dfir_investigation_workb.Domain.{ArtifactType, FindingConfidence, TimelineEventType}
use dfir_investigation_workb.Prelude.{
  List, Text, [], inl, lit, ok, pos, refl, some, text_eq, ℕ, ◌+◌, ◌∷◌, ◌≡◌,
}
use dfir_investigation_workb.Correlation.Events.{
  TimelineEvent, compare_events, compare_text, insert_event, sort_events,
}
use dfir_investigation_workb.Correlation.Candidates.{
  CorrelationCandidate, is_process_event, process_events,
}
use dfir_investigation_workb.Correlation.Rules.{ntfs_candidate, ntfs_evtx}
use dfir_investigation_workb.Correlation.Matching.{Among}
use dfir_investigation_workb.Correlation.Samples.{event_at}
use dfir_investigation_workb.Correlation.Pairs.{
  add_to_group, all_pairs, group_events, group_of, identity_time_pairs, pairs_with, within_window,
}
use dfir_investigation_workb.Correlation.Paths.{
  basename, basename_of, cleaned, components, is_space, name_of, normpath, path_of, split_root,
  strip, strip_left, to_backslashes,
}
use dfir_investigation_workb.Timeline.Times.{aware_iso, aware_time}
use dfir_investigation_workb.Timeline.Identity.{extract_evtx_process_identity, only_dicts}
use dfir_investigation_workb.Timeline.Normalizer.{ArtifactRecord}
use dfir_investigation_workb.Timeline.Mappings.{normalize}
use dfir_investigation_workb.Timeline.Samples.{mft_record, python, record_of}
use dfir_investigation_workb.Services.Cases.{get_for_update, or_not_found}
use dfir_investigation_workb.Services.Timelines.{
  Sources, TimelineGenerationStats, artifact_by_id, artifact_warnings, backfill,
  backfilled_metadata, case_artifacts, case_records, event_rows, find_record, generate,
  generate_body, generate_for, generate_from, has_identity, has_type, insert_events, insert_values,
  is_case_record, merge, put, record_warnings, records_without_events, same_identity,
  unsupported_types, values_of, with_artifacts,
}
use dfir_investigation_workb.Services.Runs.Samples.{sample_case, sample_tables}
use dfir_investigation_workb.Services.Timelines.Again.{later_sources}
use dfir_investigation_workb.Services.Timelines.Idempotent.{CreatesNone, generate-CreatesNone_again}
use dfir_investigation_workb.Services.Timelines.Distinct.{
  DistinctIdentities, generate-DistinctIdentities,
}
use dfir_investigation_workb.Services.Timelines.Origin.{generate-never_exact}
use dfir_investigation_workb.Services.Timelines.Returns.{generate-returns}

abbrev sources : Sources
sources = record {
  python = python;
  uuid_text = λ i. (48 + i) ∷ [];
  event_id = λ n. (48 + n) ∷ [];
  order_artifacts = λ artifacts. artifacts;
  order_records = λ records. records;
}

-- the creation of a process by the name of the file in the $MFT record
abbrev process_record : ArtifactRecord
process_record = record_of "EVTX_EVENT" (
    (lit "event_timestamp", string (lit "2024-01-02T03:04:05.123456Z"))
    ∷ (lit "event_id", integer (pos 4688))
    ∷ (lit "channel", string (lit "Security"))
    ∷ (
      lit "event_data",
      array (
          cons
            (object (
              field (lit "name") (string (lit "NewProcessName"))
                (field (lit "value") (string (lit "C:/Tools/A.exe")) end)))
            nil),
    )
    ∷ [])

abbrev case_tables : Tables
case_tables = record sample_tables {
  timeline_events = [];
  evidence = record { id = 1; case_id = 5 } ∷ [];
  artifacts =
      record { id = 2; evidence_id = 1; artifact_type = ArtifactType.evtx; warnings = lit "w" ∷ [] }
      ∷ record { id = 3; evidence_id = 1; artifact_type = ArtifactType.ntfs_mft; warnings = [] }
      ∷ [];
  artifact_records =
      record { id = 4; artifact_id = 2; content = process_record }
      ∷ record { id = 5; artifact_id = 3; content = mft_record }
      ∷ [];
}

abbrev empty_start : Session
empty_start = record {
  stored = case_tables;
  working = case_tables;
  case_number_seq = 0;
  answers = [];
}

abbrev behind_first : Session
behind_first = (generate sources 5 empty_start).1

abbrev later_ids : ℕ → Text
later_ids n = (60 + n) ∷ []

abbrev behind_second : Session
behind_second = (generate (later_sources sources later_ids) 5 (rolled_back behind_first)).1

abbrev stats_of : ℕ → ℕ → TimelineGenerationStats
stats_of created skipped = record {
  case_id = 5;
  artifacts_considered = 2;
  records_considered = 2;
  events_created = created;
  events_skipped = skipped;
  warnings = lit "Artifact 2: w" ∷ [];
  unsupported_artifact_types = [];
}

first_generation : generate sources 5 empty_start ≡ (ok (stats_of 3 0), behind_first)
unfolding lit text_eq get item_list entries only_dicts normalize generate get_for_update select_case
    raises_now or_not_found find_case query generate_for generate_from generate_body case_artifacts
    is_case_record case_records artifact_by_id with_artifacts insert_values insert_events
    has_identity same_identity values_of event_rows artifact_warnings record_warnings
    records_without_events unsupported_types has_type backfill commit
first_generation = refl

second_generation :
    generate (later_sources sources later_ids) 5 (rolled_back behind_first)
    ≡ (ok (stats_of 0 3), behind_second)
unfolding lit text_eq get item_list entries only_dicts normalize generate get_for_update select_case
    raises_now or_not_found find_case query generate_for generate_from generate_body case_artifacts
    is_case_record case_records artifact_by_id with_artifacts insert_values insert_events
    has_identity same_identity values_of event_rows artifact_warnings record_warnings
    records_without_events unsupported_types has_type backfill commit put merge find_record
    backfilled_metadata
second_generation = refl

generate-CreatesNone_again_example :
    CreatesNone sources 5 behind_first.stored (stats_of 0 3) behind_second
generate-CreatesNone_again_example =
    generate-CreatesNone_again sources 5 later_ids empty_start behind_first
      (rolled_back behind_first) behind_second (stats_of 3 0) (stats_of 0 3) first_generation refl
      second_generation

generate-DistinctIdentities_example : DistinctIdentities behind_first.stored.timeline_events
generate-DistinctIdentities_example = generate-DistinctIdentities sources 5 empty_start refl tt

abbrev placeholder : TimelineEvent
placeholder = event_at 1 TimelineEventType.evtx_event 0 []

abbrev head_or : List CorrelationCandidate → CorrelationCandidate
head_or [] =
    ntfs_candidate python.casefold
      (record { left = placeholder; right = placeholder; identity = [] })
head_or (c ∷ cs) = c

abbrev association : CorrelationCandidate
association = head_or (ntfs_evtx python.casefold behind_first.stored.timeline_events 300).candidates

association-found :
    Among association
      (ntfs_evtx python.casefold
        (generate sources 5 empty_start).1.stored.timeline_events
        300).candidates
unfolding lit text_eq get item_list entries only_dicts normalize generate get_for_update select_case
    raises_now or_not_found find_case query generate_for generate_from generate_body case_artifacts
    is_case_record case_records artifact_by_id with_artifacts insert_values insert_events
    has_identity same_identity values_of event_rows artifact_warnings record_warnings
    records_without_events unsupported_types has_type backfill commit put merge find_record
    backfilled_metadata ntfs_evtx is_process_event process_events identity_time_pairs group_events
    group_of add_to_group pairs_with all_pairs within_window sort_events insert_event compare_events
    compare_text name_of basename_of path_of cleaned strip strip_left is_space to_backslashes
    normpath components split_root basename extract_evtx_process_identity aware_time aware_iso
association-found = inl refl

generate-never_exact_example :
    (association.match_basis ≡ lit "basename_match")
    × (association.confidence ≡ FindingConfidence.medium)
generate-never_exact_example =
    generate-never_exact sources 5 empty_start python.casefold 300 association refl refl
      association-found

case-found : find_case 5 empty_start.working.cases ≡ some sample_case
unfolding find_case
case-found = refl

generate-returns_example :
    (stats : TimelineGenerationStats) × (s' : Session) × (generate sources 5 empty_start
      ≡ (ok stats, s'))
generate-returns_example =
    generate-returns sources 5 empty_start sample_case
      (record { keeps_artifacts = λ as_ a h. h; adds_no_record = λ rs r h. h }) (refl, refl)
      case-found
