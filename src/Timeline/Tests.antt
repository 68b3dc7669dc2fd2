-- ===== src/Timeline/Tests.antt =====
-- Runs of the timeline normalizer, and the theorems at those inputs.
use dfir_investigation_workb.Correlation.Paths.{
  basename, basename_of, cleaned, components, is_space, name_of, normpath, path_of, split_root,
  strip, strip_left, to_backslashes,
}
use dfir_investigation_workb.Correlation.Rules.{ntfs_candidate, ntfs_evtx}
use dfir_investigation_workb.Correlation.Candidates.{is_ntfs, is_process_event}
use dfir_investigation_workb.Correlation.Matching.{Among, not_both}
use dfir_investigation_workb.Correlation.Pairs.{
  Pair, add_to_group, all_pairs, group_events, group_of, identity_time_pairs, pairs_with,
  within_window,
}
use dfir_investigation_workb.Correlation.Events.{
  TimelineEvent, compare_events, compare_text, insert_event, sort_events,
}
use dfir_investigation_workb.Timeline.NtfsPaths.{IsNormalized, ntfs_evtx-never_exact}
use dfir_investigation_workb.Prelude.{
  All, [], ap, arith, decimal, inl, inr, length, lit, map, none, not, pos, refl, some, text_eq,
  true, ◌*◌, ◌∷◌, ◌≡◌, ◌≤◌,
}
use dfir_investigation_workb.Domain.{
  ArtifactType, FindingConfidence, TimelineEventType, TimestampPrecision,
}
use dfir_investigation_workb.Json.{array, cons, entries, get, integer, item_list, nil, null, string}
use dfir_investigation_workb.Timeline.Times.{aware_iso, iso_precision}
use dfir_investigation_workb.Timeline.Identity.{only_dicts, path_name}
use dfir_investigation_workb.Timeline.Normalizer.{
  ArtifactRecord, NormalizedTimelineEvent, creation, file_name, standard_information,
}
use dfir_investigation_workb.Timeline.Mappings.{normalize, normalize_prefetch, ntfs_event}
use dfir_investigation_workb.Timeline.Keys.{AllDistinct}
use dfir_investigation_workb.Timeline.Unique.{normalize-AllDistinct}
use dfir_investigation_workb.Timeline.Counts.{
  event_at_position, execution_times, is_timed_in, normalize-fits, normalize_prefetch-positions,
  position_count, positions, positions_where, raw_execution_times, warning_at_position,
}
use dfir_investigation_workb.Timeline.Samples.{mft_record, python, record_of}

precision-6 :
    iso_precision python (some (lit "2024-01-02T03:04:05.123456Z")) ≡ TimestampPrecision.microsecond
unfolding iso_precision lit
precision-6 = refl

precision-none :
    iso_precision python (some (lit "2024-01-02T03:04:05.Z")) ≡ TimestampPrecision.second
unfolding iso_precision lit
precision-none = refl

time-z : aware_iso python (some (lit "2024-01-02T03:04:05.123456Z")) ≡ some (738886 * 86400000000)
unfolding aware_iso lit text_eq
time-z = refl

name-path : path_name (lit "C:\\Windows\\.\\cmd.exe\\.") ≡ lit "cmd.exe"
unfolding path_name lit text_eq
name-path = refl

-- a Prefetch record with two times and three raw times, the last of which is no text
abbrev prefetch_record : ArtifactRecord
prefetch_record = record_of "PREFETCH_FILE" (
    (
      lit "execution_times",
      array (cons (string (lit "2024-01-02T03:04:05.123456Z")) (cons null nil)),
    )
    ∷ (
      lit "execution_time_filetime_values",
      array (cons (string (lit "1")) (cons (string (lit "2")) (cons null nil))),
    )
    ∷ [])

prefetch-run :
    (length (normalize_prefetch python prefetch_record).events ≡ 2)
    × ((normalize_prefetch python prefetch_record).warnings
        ≡ lit "Prefetch execution timestamp 2 is empty" ∷ [])
unfolding normalize_prefetch lit text_eq get item_list decimal
prefetch-run = (refl, refl)

normalize_prefetch-positions_example :
    ((normalize_prefetch python prefetch_record).events
      ≡ map
          (event_at_position python prefetch_record
            (execution_times prefetch_record)
            (raw_execution_times prefetch_record))
          (positions_where
            (is_timed_in prefetch_record)
            (positions 0 (position_count prefetch_record))))
    × ((normalize_prefetch python prefetch_record).warnings
        ≡ map warning_at_position (
            positions_where
              (λ i. not (is_timed_in prefetch_record i))
              (positions 0 (position_count prefetch_record))))
unfolding lit text_eq get item_list
normalize_prefetch-positions_example =
    normalize_prefetch-positions python prefetch_record refl (omega arith)

normalize-AllDistinct_example :
    AllDistinct (normalize python ArtifactType.ntfs_mft mft_record).events
normalize-AllDistinct_example = normalize-AllDistinct python ArtifactType.ntfs_mft mft_record

normalize-fits_example :
    All
      (λ (e : NormalizedTimelineEvent). length e.description ≤ 1000)
      (normalize python ArtifactType.ntfs_mft mft_record).events
normalize-fits_example = normalize-fits python ArtifactType.ntfs_mft mft_record

abbrev standard_event : NormalizedTimelineEvent
standard_event =
    ntfs_event python mft_record standard_information (some (lit "A.exe")) null 0 creation
      (some (lit "2024-01-02T03:04:05.123456Z")) none

abbrev file_name_event : NormalizedTimelineEvent
file_name_event =
    ntfs_event python mft_record file_name (some (lit "A.exe")) null 0 creation
      (some (lit "2024-01-02T03:04:05.123456Z")) none

mft-run :
    (normalize python ArtifactType.ntfs_mft mft_record).events
    ≡ standard_event ∷ file_name_event ∷ []
unfolding normalize lit text_eq get item_list entries only_dicts
mft-run = refl

-- a process creation of the same name, and the event of the file name
abbrev process : TimelineEvent
process = record {
  id = b'1' ∷ [];
  case_id = 5;
  artifact_record_id = 1;
  artifact_type = ArtifactType.evtx;
  event_type = TimelineEventType.evtx_event;
  event_time = some (738886 * 86400000000);
  source_identifier = none;
  time_source = lit "evtx.system.time_created";
  event_ordinal = 0;
  metadata =
      (lit "event_id", integer (pos 4688))
      ∷ (lit "channel", string (lit "Security"))
      ∷ (lit "process_name", string (lit "a.exe"))
      ∷ (lit "process_path", string (lit "C:\\a.exe"))
      ∷ [];
}

abbrev file_event : TimelineEvent
file_event = record {
  id = b'2' ∷ [];
  case_id = 5;
  artifact_record_id = 2;
  artifact_type = ArtifactType.ntfs_mft;
  event_type = TimelineEventType.ntfs_fn_creation;
  event_time = some (738886 * 86400000000);
  source_identifier = none;
  time_source = file_name_event.time_source;
  event_ordinal = 0;
  metadata = file_name_event.metadata;
}

abbrev matched : Pair
matched = record { left = process; right = file_event; identity = lit "a.exe" }

ntfs-run :
    (ntfs_evtx python.casefold (process ∷ file_event ∷ []) 300).candidates
    ≡ ntfs_candidate python.casefold matched ∷ []
unfolding ntfs_evtx is_process_event path_of name_of basename_of cleaned basename split_root
    to_backslashes strip is_space strip_left normpath components sort_events compare_events
    compare_text insert_event group_events group_of add_to_group identity_time_pairs all_pairs
    pairs_with within_window get lit text_eq ntfs_event
ntfs-run = refl

file_event-IsNormalized : IsNormalized python file_event
unfolding IsNormalized ntfs_event
file_event-IsNormalized =
    (ArtifactType.ntfs_mft, mft_record, file_name_event, rw mft-run (inr (inl refl)), refl, refl)

file_events-IsNormalized :
    (e : TimelineEvent)
    → Among e (process ∷ file_event ∷ [])
    → is_ntfs e.event_type ≡ true
    → IsNormalized python e
file_events-IsNormalized e (inl p) kind =
    elim (not_both kind (ap (λ (t : TimelineEvent). is_ntfs t.event_type) p)) [ ]
file_events-IsNormalized e (inr (inl p)) kind = rw p file_event-IsNormalized
file_events-IsNormalized e (inr (inr h)) kind = elim h [ ]

ntfs_evtx-never_exact_example :
    ((ntfs_candidate python.casefold matched).match_basis ≡ lit "basename_match")
    × ((ntfs_candidate python.casefold matched).confidence ≡ FindingConfidence.medium)
ntfs_evtx-never_exact_example =
    ntfs_evtx-never_exact python python.casefold (process ∷ file_event ∷ []) 300
      (ntfs_candidate python.casefold matched) file_events-IsNormalized (rw ntfs-run (inl refl))
