-- ===== src/Timeline/Every.antt =====
-- What holds of every event that backend/app/services/timeline_normalizer.py makes.
use dfir_investigation_workb.Timeline.Identity.{as_dict, as_list, as_string, dict_list}
use dfir_investigation_workb.Domain.{ArtifactType}
use dfir_investigation_workb.Prelude.{
  All, All-append, Bool, List, Option, String, Text, [], false, if◌then◌else◌, length, lit, none,
  not, some, suc, text_eq, true, zero, ℕ, ◌&&◌, ◌++◌, ◌+◌, ◌==◌, ◌∷◌,
}
use dfir_investigation_workb.Json.{Dict, Value, get_field}
use dfir_investigation_workb.Timeline.Times.{Python}
use dfir_investigation_workb.Timeline.Normalizer.{
  ArtifactRecord, LinkTime, NormalizationResult, NormalizedTimelineEvent, NtfsFamily, TimeField,
  access, creation, event_of_evtx, event_of_registry, evtx_with_time, file_name, link_access,
  link_creation, link_modification, mft_change, modification, registry_with_time, result_of,
  standard_information, string_at,
}
use dfir_investigation_workb.Timeline.Mappings.{
  execution_event, executions, file_name_events, larger, link_event, link_events, normalize,
  ntfs_event, ntfs_events, ntfs_family, prefetch_times, standard_events,
}

-- A condition holds of every event that a mapping may make of a record.
pub record Each {κ} (python : Python) (P : NormalizedTimelineEvent → Type κ) (r : ArtifactRecord)
    : Type κ where
  pub of_evtx : (raw : Text) → P (event_of_evtx python r raw)
  pub of_registry : (raw : Text) → P (event_of_registry python r raw)
  pub of_execution :
      (index : ℕ) (normalized raw : Option Text) → P (execution_event python r index normalized raw)
  pub of_link :
      (ordinal : ℕ) (t : LinkTime) (normalized raw : Option Text)
      → P (link_event python r ordinal t normalized raw)
  pub of_ntfs :
      (family : NtfsFamily) (filename : Option Text) (parent : Value) (ordinal : ℕ) (f : TimeField)
      (normalized raw : Option Text)
      → P (ntfs_event python r family filename parent ordinal f normalized raw)

module _ {κ} (python : Python) (P : NormalizedTimelineEvent → Type κ) (r : ArtifactRecord)
    (each : Each python P r) where
  optional-All : (b : Bool) (e : NormalizedTimelineEvent) → P e → All P (if b then e ∷ [] else [])
  optional-All true e h = (h, tt)
  optional-All false e h = tt

  choice-All :
      (b : Bool) (e : NormalizedTimelineEvent) (es : List NormalizedTimelineEvent)
      (ws ws' : List Text)
      → P e
      → All P es
      → All P
          (if◌then◌else◌ {A = List NormalizedTimelineEvent × List Text} b (e ∷ es, ws) (es, ws')).0
  choice-All true e es ws ws' h hs = (h, hs)
  choice-All false e es ws ws' h hs = hs

  executions-All :
      (times raw_times : List Value) (left index : ℕ)
      → All P (executions python r times raw_times left index).0
  unfolding executions
  executions-All times raw_times zero index = tt
  executions-All times raw_times (suc left) index =
      choice-All _ _ _ _ _
        (each.of_execution index (string_at times index) (string_at raw_times index))
        (executions-All times raw_times left (index + 1))

  link_events-All : (ordinal : ℕ) (t : LinkTime) → All P (link_events python r ordinal t)
  unfolding link_events
  link_events-All ordinal t = optional-All _ _ (each.of_link ordinal t _ _)

  ntfs_events-All :
      (timestamps : Dict) (family : NtfsFamily) (filename : Option Text) (parent : Value)
      (ordinal : ℕ) (f : TimeField)
      → All P (ntfs_events python r timestamps family filename parent ordinal f)
  unfolding ntfs_events
  ntfs_events-All timestamps family filename parent ordinal f =
      optional-All _ _ (each.of_ntfs family filename parent ordinal f _ _)

  ntfs_family-All :
      (timestamps : Dict) (family : NtfsFamily) (filename : Option Text) (parent : Value)
      (ordinal : ℕ)
      → All P (ntfs_family python r timestamps family filename parent ordinal)
  unfolding ntfs_family
  ntfs_family-All timestamps family filename parent ordinal =
      let one = ntfs_events-All timestamps family filename parent ordinal in
      All-append P _ _ (one creation)
        (All-append P _ _ (one modification) (All-append P _ _ (one mft_change) (one access)))

  file_name_events-All :
      (names : List Dict) (ordinal : ℕ) → All P (file_name_events python r ordinal names)
  unfolding file_name_events
  file_name_events-All [] ordinal = tt
  file_name_events-All (name ∷ names) ordinal =
      All-append P _ _ (ntfs_family-All name file_name _ _ ordinal)
        (file_name_events-All names (ordinal + 1))

  standard_events-All : (standard : Dict) → All P (standard_events python r standard)
  unfolding standard_events
  standard_events-All [] = tt
  standard_events-All (entry ∷ more) = ntfs_family-All (entry ∷ more) standard_information _ _ 0

  -- the condition holds of the events of a result
  Holds : NormalizationResult → Type κ
  Holds n = All P n.events

  evtx-Holds : (raw : Option Text) → Holds (evtx_with_time python r raw)
  unfolding Holds evtx_with_time
  evtx-Holds none = tt
  evtx-Holds (some raw) = (each.of_evtx raw, tt)

  registry-Holds : (raw : Option Text) → Holds (registry_with_time python r raw)
  unfolding Holds registry_with_time
  registry-Holds none = tt
  registry-Holds (some raw) = (each.of_registry raw, tt)

  if-Holds :
      (b : Bool) (warnings : List Text) (n : NormalizationResult)
      → Holds n
      → Holds (if b then result_of [] warnings else n)
  unfolding Holds
  if-Holds true warnings n h = tt
  if-Holds false warnings n h = h

  prefetch-Holds : (times raw_times : List Value) → Holds (prefetch_times python r times raw_times)
  unfolding Holds prefetch_times
  prefetch-Holds times raw_times =
      let all = executions python r times raw_times (larger (length times) (length raw_times)) 0 in
      if-Holds ((length raw_times == 0) && (length times == 0))
        (lit "Prefetch record has no execution timestamp" ∷ []) (result_of all.0 all.1)
        (executions-All times raw_times _ 0)

  guard-Holds :
      (kind : String) (n : NormalizationResult)
      → Holds n
      → Holds (if not (text_eq r.record_type (lit kind)) then result_of [] [] else n)
  guard-Holds kind n h = if-Holds (not (text_eq r.record_type (lit kind))) [] n h

  normalize-Holds : (t : ArtifactType) → Holds (normalize python t r)
  unfolding Holds normalize
  normalize-Holds ArtifactType.evtx =
      guard-Holds "EVTX_EVENT" _ (evtx-Holds (as_string (get_field "event_timestamp" r.body)))
  normalize-Holds ArtifactType.registry =
      guard-Holds "REGISTRY_KEY" _
        (registry-Holds (as_string (get_field "key_last_write_time" r.body)))
  normalize-Holds ArtifactType.prefetch = guard-Holds "PREFETCH_FILE" _ (
      prefetch-Holds (as_list (get_field "execution_times" r.body))
        (as_list (get_field "execution_time_filetime_values" r.body)))
  normalize-Holds ArtifactType.lnk =
      guard-Holds "SHELL_LINK"
        (result_of
          (link_events python r 0 link_creation
            ++ (link_events python r 1 link_access ++ link_events python r 2 link_modification))
          [])
        (All-append P _ _ (link_events-All 0 link_creation)
          (All-append P _ _ (link_events-All 1 link_access) (link_events-All 2 link_modification)))
  normalize-Holds ArtifactType.ntfs_mft =
      let standard = as_dict (get_field "standard_information" r.body) in
      let names = dict_list (get_field "file_names" r.body) in
      guard-Holds "NTFS_MFT_RECORD"
        (result_of (standard_events python r standard ++ file_name_events python r 0 names) [])
        (All-append P _ _ (standard_events-All standard) (file_name_events-All names 0))
  normalize-Holds ArtifactType.ntfs = tt
  normalize-Holds ArtifactType.reference = tt

  pub normalize-All : (t : ArtifactType) → All P (normalize python t r).events
  unfolding Holds
  normalize-All t = normalize-Holds t
