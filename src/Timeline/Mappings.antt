-- ===== src/Timeline/Mappings.antt =====
-- `_prefetch`, `_lnk`, `_ntfs` and `normalize` of backend/app/services/timeline_normalizer.py.
use dfir_investigation_workb.Prelude.{
  Bool, List, Option, Text, [], decimal, false, if◌then◌else◌, length, lit, ltb, none, not, suc,
  text_eq, true, zero, ℕ, ◌&&◌, ◌++◌, ◌+◌, ◌==◌, ◌∷◌,
}
use dfir_investigation_workb.Domain.{ArtifactType, TimelineEventType}
use dfir_investigation_workb.Json.{Dict, Value, get, get_field, null, string}
use dfir_investigation_workb.Timeline.Times.{Python, aware_iso}
use dfir_investigation_workb.Timeline.Identity.{as_dict, as_list, as_string, dict_list, text_value}
use dfir_investigation_workb.Timeline.Normalizer.{
  ArtifactRecord, LinkTime, NormalizationResult, NormalizedTimelineEvent, NtfsFamily, TimeField,
  access, creation, description_of, family_name, family_semantics, field_key, field_words,
  file_name, link_access, link_creation, link_event_type, link_modification, link_semantics,
  link_word, mft_change, modification, normalize_evtx, normalize_registry, ntfs_event_type,
  or_default, precision_with_raw, result_of, standard_information, string_at,
}

-- `filename or f"MFT record {record_data.get('record_number')}"`
abbrev pub display_name : (Value → Text) → Dict → Option Text → Text
display_name str body filename =
    or_default filename (lit "MFT record " ++ str (get_field "record_number" body))

-- `_first_filename`
abbrev pub filename_of_first : List Dict → Option Text
filename_of_first [] = none
filename_of_first (name ∷ names) = as_string (get_field "filename" name)

abbrev pub has_time : Option Text → Option Text → Bool
has_time none none = false
has_time _ _ = true

-- `max(a, b)`
abbrev pub larger : ℕ → ℕ → ℕ
larger a b = if ltb a b then b else a

module _ (python : Python) where
  -- the event of one execution time
  unfoldable pub execution_event :
      ArtifactRecord → ℕ → Option Text → Option Text → NormalizedTimelineEvent
  unfolding description_of
  execution_event r index normalized raw = record {
    event_type = TimelineEventType.prefetch_execution;
    event_time = aware_iso python normalized;
    raw_time = raw;
    time_source = lit "prefetch.execution_time[" ++ (decimal index ++ lit "]");
    time_semantics = lit "Prefetch execution-related metadata timestamp";
    timestamp_precision = precision_with_raw python raw normalized;
    event_ordinal = index;
    description = description_of (
        lit "Prefetch execution-related timestamp observed for "
        ++ or_default (as_string (get_field "application_name" r.body))
            (lit "unknown application"));
    source_identifier = r.source_record_identifier;
    metadata =
        (lit "application_name", get_field "application_name" r.body)
        ∷ (lit "executable_hash", get_field "executable_hash" r.body)
        ∷ (lit "prefetch_filename", get_field "source_prefetch_filename" r.body)
        ∷ (lit "run_count", get_field "run_count" r.body)
        ∷ [];
    provenance = r.provenance;
  }

  -- the loop over the indices, from one on, as often as is left
  unfoldable pub executions :
      ArtifactRecord → List Value → List Value → ℕ → ℕ → List NormalizedTimelineEvent × List Text
  unfolding execution_event
  executions r times raw_times zero index = ([], [])
  executions r times raw_times (suc left) index =
      let (events, warnings) = executions r times raw_times left (index + 1) in
      let normalized = string_at times index in
      let raw = string_at raw_times index in
      if has_time normalized raw
      then (execution_event r index normalized raw ∷ events, warnings)
      else (
        events,
        (lit "Prefetch execution timestamp " ++ (decimal index ++ lit " is empty")) ∷ warnings,
      )

  unfoldable pub prefetch_times : ArtifactRecord → List Value → List Value → NormalizationResult
  unfolding executions
  prefetch_times r times raw_times =
      if (length raw_times == 0) && (length times == 0)
      then result_of [] (lit "Prefetch record has no execution timestamp" ∷ [])
      else let (events, warnings) =
          executions r times raw_times (larger (length times) (length raw_times)) 0 in
        result_of events warnings

  -- `_prefetch`
  unfoldable pub normalize_prefetch : ArtifactRecord → NormalizationResult
  unfolding prefetch_times
  normalize_prefetch r =
      if not (text_eq r.record_type (lit "PREFETCH_FILE"))
      then result_of [] []
      else prefetch_times r (as_list (get_field "execution_times" r.body))
          (as_list (get_field "execution_time_filetime_values" r.body))

  unfoldable pub link_event :
      ArtifactRecord → ℕ → LinkTime → Option Text → Option Text → NormalizedTimelineEvent
  unfolding description_of
  link_event r ordinal t normalized raw = record {
    event_type = link_event_type t;
    event_time = aware_iso python normalized;
    raw_time = raw;
    time_source = lit "lnk.header." ++ (link_word t ++ lit "_time");
    time_semantics = link_semantics t;
    timestamp_precision = precision_with_raw python raw normalized;
    event_ordinal = ordinal;
    description = description_of (link_semantics t ++ lit " observed for Shell Link target");
    source_identifier = r.source_record_identifier;
    metadata =
        (lit "target_path", get_field "target_path" r.body)
        ∷ (lit "relative_path", get_field "relative_path" r.body)
        ∷ (lit "source_lnk_filename", get_field "source_lnk_filename" r.body)
        ∷ [];
    provenance = r.provenance;
  }

  -- one round of the loop over the definitions
  unfoldable pub link_events : ArtifactRecord → ℕ → LinkTime → List NormalizedTimelineEvent
  unfolding link_event
  link_events r ordinal t =
      let normalized = as_string (get (link_word t ++ lit "_time") r.body) in
      let raw = as_string (get (link_word t ++ lit "_time_filetime") r.body) in
      if has_time normalized raw then link_event r ordinal t normalized raw ∷ [] else []

  -- `_lnk`
  unfoldable pub normalize_lnk : ArtifactRecord → NormalizationResult
  unfolding link_events
  normalize_lnk r =
      if not (text_eq r.record_type (lit "SHELL_LINK"))
      then result_of [] []
      else result_of
          (link_events r 0 link_creation
            ++ (link_events r 1 link_access ++ link_events r 2 link_modification))
          []

  unfoldable pub ntfs_event :
      ArtifactRecord
      → NtfsFamily
      → Option Text
      → Value
      → ℕ
      → TimeField
      → Option Text
      → Option Text
      → NormalizedTimelineEvent
  unfolding description_of
  ntfs_event r family filename parent ordinal f normalized raw = record {
    event_type = ntfs_event_type family f;
    event_time = aware_iso python normalized;
    raw_time = raw;
    time_source = family_name family ++ (lit "." ++ lit (field_key f));
    time_semantics = family_semantics family;
    timestamp_precision = precision_with_raw python raw normalized;
    event_ordinal = ordinal;
    description = description_of (
        lit "NTFS "
        ++ (family_name family
            ++ (lit " "
                ++ (field_words f
                    ++ (lit " timestamp for " ++ display_name python.str r.body filename)))));
    source_identifier = r.source_record_identifier;
    metadata =
        (lit "record_number", get_field "record_number" r.body)
        ∷ (lit "filename", text_value filename)
        ∷ (lit "parent_directory_reference", parent)
        ∷ (lit "source_record_offset", get_field "source_record_offset" r.body)
        ∷ (lit "timestamp_family", string (family_name family))
        ∷ (lit "timestamp_field", string (lit (field_key f)))
        ∷ [];
    provenance = r.provenance;
  }

  -- one round of the loop of `_ntfs_family`
  unfoldable pub ntfs_events :
      ArtifactRecord
      → Dict
      → NtfsFamily
      → Option Text
      → Value
      → ℕ
      → TimeField
      → List NormalizedTimelineEvent
  unfolding ntfs_event
  ntfs_events r timestamps family filename parent ordinal f =
      let normalized = as_string (get_field (field_key f) timestamps) in
      let raw = as_string (get (lit (field_key f) ++ lit "_filetime") timestamps) in
      if has_time normalized raw
      then ntfs_event r family filename parent ordinal f normalized raw ∷ []
      else []

  -- `_ntfs_family`
  unfoldable pub ntfs_family :
      ArtifactRecord → Dict → NtfsFamily → Option Text → Value → ℕ → List NormalizedTimelineEvent
  unfolding ntfs_events
  ntfs_family r timestamps family filename parent ordinal =
      ntfs_events r timestamps family filename parent ordinal creation
      ++ (ntfs_events r timestamps family filename parent ordinal modification
          ++ (ntfs_events r timestamps family filename parent ordinal mft_change
              ++ ntfs_events r timestamps family filename parent ordinal access))

  -- the loop over the file names, numbered from an ordinal on
  unfoldable pub file_name_events : ArtifactRecord → ℕ → List Dict → List NormalizedTimelineEvent
  unfolding ntfs_family
  file_name_events r ordinal [] = []
  file_name_events r ordinal (name ∷ names) =
      ntfs_family r name file_name (as_string (get_field "filename" name))
        (get_field "parent_directory_reference" name) ordinal
      ++ file_name_events r (ordinal + 1) names

  unfoldable pub standard_events : ArtifactRecord → Dict → List NormalizedTimelineEvent
  unfolding ntfs_family
  standard_events r [] = []
  standard_events r (entry ∷ more) =
      ntfs_family r (entry ∷ more) standard_information
        (filename_of_first (dict_list (get_field "file_names" r.body))) null 0

  -- `_ntfs`
  unfoldable pub normalize_ntfs : ArtifactRecord → NormalizationResult
  unfolding standard_events file_name_events
  normalize_ntfs r =
      if not (text_eq r.record_type (lit "NTFS_MFT_RECORD"))
      then result_of [] []
      else result_of
          (standard_events r (as_dict (get_field "standard_information" r.body))
            ++ file_name_events r 0 (dict_list (get_field "file_names" r.body)))
          []

  -- `normalize`, by the type of the artifact
  unfoldable pub normalize : ArtifactType → ArtifactRecord → NormalizationResult
  unfolding normalize_evtx normalize_registry normalize_prefetch normalize_lnk normalize_ntfs
  normalize ArtifactType.evtx r = normalize_evtx python r
  normalize ArtifactType.registry r = normalize_registry python r
  normalize ArtifactType.prefetch r = normalize_prefetch r
  normalize ArtifactType.lnk r = normalize_lnk r
  normalize ArtifactType.ntfs_mft r = normalize_ntfs r
  normalize ArtifactType.ntfs r = record { events = []; warnings = []; supported = false }
  normalize ArtifactType.reference r = record { events = []; warnings = []; supported = false }
