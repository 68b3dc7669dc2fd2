-- ===== src/Correlation/Tests.antt =====
-- Runs of the correlation rules, and the theorems at those inputs.
use dfir_investigation_workb.Json.{get, string}
use dfir_investigation_workb.Correlation.Exactness.{
  Matches, SamePath, evtx_prefetch-Matches, lnk_evtx-Matches, ntfs_evtx-Matches,
}
use dfir_investigation_workb.Correlation.Rules.{
  evtx_prefetch, lnk_candidate, lnk_candidates, lnk_conflict, lnk_evtx, ntfs_candidate, ntfs_evtx,
  prefetch_candidate,
}
use dfir_investigation_workb.Correlation.Candidates.{
  is_lnk, is_ntfs, is_prefetch, is_process_event, process_events, value_basename, value_name,
}
use dfir_investigation_workb.Correlation.Matching.{Among}
use dfir_investigation_workb.Prelude.{List, [], lit, refl, text_eq, ◌↔◌, ◌∷◌, ◌≡◌}
use dfir_investigation_workb.Domain.{TimelineEventType}
use dfir_investigation_workb.Correlation.Paths.{
  after_last, ascii_upper, basename, basename_of, cleaned, components, full_path_of, is_absolute,
  is_space, join_components, keep_component, name_of, normal_components, normpath, path_of,
  split_drive, split_root, split_server, split_share, strip, strip_left, to_backslashes,
  to_separator,
}
use dfir_investigation_workb.Correlation.Events.{
  TimelineEvent, compare_events, compare_text, insert_event, sort_events,
}
use dfir_investigation_workb.Correlation.Pairs.{
  Pair, add_to_group, all_pairs, group_events, group_of, identity_time_pairs, pairs_with,
  within_window,
}
use dfir_investigation_workb.Correlation.Samples.{
  event_at, executed, executed_early, fold_ascii, linked, process,
}

-- the same name at another place
abbrev linked_elsewhere : TimelineEvent
linked_elsewhere =
    event_at 5 TimelineEventType.lnk_metadata_access 700000001
      ((lit "target_path", string (lit "d:\\a.exe")) ∷ [])

abbrev events : List TimelineEvent
events = linked ∷ linked_elsewhere ∷ executed ∷ executed_early ∷ process ∷ []

abbrev pair_with : TimelineEvent → Pair
pair_with e = record { left = process; right = e; identity = lit "a.exe" }

normpath-dots : normpath (lit "C:\\a\\..\\.\\b\\\\c") ≡ lit "C:\\b\\c"
unfolding lit text_eq split_root split_server split_share to_separator split_drive ascii_upper
    components keep_component normal_components join_components normpath
normpath-dots = refl

normpath-root : normpath (lit "\\..\\a") ≡ lit "\\a"
unfolding lit text_eq split_root split_server split_share to_separator split_drive ascii_upper
    components keep_component normal_components join_components normpath
normpath-root = refl

normpath-empty : normpath (lit "a\\..") ≡ lit "."
unfolding lit text_eq split_root split_server split_share to_separator split_drive ascii_upper
    components keep_component normal_components join_components normpath
normpath-empty = refl

basename-unc : basename (lit "\\\\server\\share\\a.exe") ≡ lit "a.exe"
unfolding lit text_eq split_root split_server split_share to_separator split_drive ascii_upper
    components keep_component normal_components join_components normpath is_space strip_left strip
    to_backslashes is_absolute after_last basename cleaned path_of name_of basename_of full_path_of
basename-unc = refl

prefetch-run :
    (evtx_prefetch fold_ascii events 300).candidates
    ≡ prefetch_candidate fold_ascii (pair_with executed) ∷ []
unfolding lit text_eq split_root split_server split_share to_separator split_drive ascii_upper
    components keep_component normal_components join_components normpath is_space strip_left strip
    to_backslashes is_absolute after_last basename cleaned path_of name_of basename_of full_path_of
    get compare_text compare_events insert_event sort_events within_window add_to_group group_of
    group_events pairs_with all_pairs identity_time_pairs is_process_event process_events
    evtx_prefetch
prefetch-run = refl

lnk-run :
    (lnk_evtx fold_ascii events 300).candidates ≡ lnk_candidate fold_ascii (pair_with linked) ∷ []
unfolding lit text_eq split_root split_server split_share to_separator split_drive ascii_upper
    components keep_component normal_components join_components normpath is_space strip_left strip
    to_backslashes is_absolute after_last basename cleaned path_of name_of basename_of full_path_of
    get compare_text compare_events insert_event sort_events within_window add_to_group group_of
    group_events pairs_with all_pairs identity_time_pairs is_process_event process_events lnk_evtx
    lnk_candidates lnk_conflict
lnk-run = refl

evtx_prefetch-Matches_example :
    Among
      (prefetch_candidate fold_ascii (pair_with executed))
      (evtx_prefetch fold_ascii events 300).candidates
    ↔ ((p : Pair) × Matches fold_ascii events 300
          (λ (e : TimelineEvent). is_prefetch e.event_type)
          (value_name fold_ascii "application_name")
          p
        × (prefetch_candidate fold_ascii (pair_with executed) ≡ prefetch_candidate fold_ascii p))
evtx_prefetch-Matches_example =
    evtx_prefetch-Matches fold_ascii events 300 (prefetch_candidate fold_ascii (pair_with executed))

lnk_evtx-Matches_example :
    Among
      (lnk_candidate fold_ascii (pair_with linked_elsewhere))
      (lnk_evtx fold_ascii events 300).candidates
    ↔ ((p : Pair) × Matches fold_ascii events 300
          (λ (e : TimelineEvent). is_lnk e.event_type)
          (value_basename fold_ascii "target_path")
          p
        × SamePath fold_ascii p
        × (lnk_candidate fold_ascii (pair_with linked_elsewhere) ≡ lnk_candidate fold_ascii p))
lnk_evtx-Matches_example =
    lnk_evtx-Matches fold_ascii events 300 (lnk_candidate fold_ascii (pair_with linked_elsewhere))

abbrev file_seen : TimelineEvent
file_seen =
    event_at 6 TimelineEventType.ntfs_fn_creation 700000000
      ((lit "filename", string (lit "A.exe")) ∷ [])

ntfs_evtx-Matches_example :
    Among
      (ntfs_candidate fold_ascii (pair_with file_seen))
      (ntfs_evtx fold_ascii (file_seen ∷ events) 0).candidates
    ↔ ((p : Pair) × Matches fold_ascii
          (file_seen ∷ events)
          0
          (λ (e : TimelineEvent). is_ntfs e.event_type)
          (value_basename fold_ascii "filename")
          p
        × (ntfs_candidate fold_ascii (pair_with file_seen) ≡ ntfs_candidate fold_ascii p))
ntfs_evtx-Matches_example =
    ntfs_evtx-Matches fold_ascii (file_seen ∷ events) 0
      (ntfs_candidate fold_ascii (pair_with file_seen))
