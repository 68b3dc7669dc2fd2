-- ===== src/Timeline/Unique.antt =====
-- The events that `normalize` of backend/app/services/timeline_normalizer.py makes of one record.
use dfir_investigation_workb.Prelude.{
  Bool, List, Option, String, Text, [], arith, false, if◌then◌else◌, length, lit, none, not, refl,
  some, suc, text_eq, true, zero, ℕ, ◌&&◌, ◌*◌, ◌++◌, ◌+◌, ◌==◌, ◌∷◌, ◌≡◌, ◌≤◌,
}
use dfir_investigation_workb.Domain.{ArtifactType}
use dfir_investigation_workb.Json.{Dict, Value, get_field}
use dfir_investigation_workb.Timeline.Times.{Python}
use dfir_investigation_workb.Timeline.Identity.{as_dict, as_list, as_string, dict_list}
use dfir_investigation_workb.Timeline.Normalizer.{
  ArtifactRecord, LinkTime, NormalizationResult, NtfsFamily, TimeField, access, creation,
  event_of_evtx, event_of_registry, evtx_with_time, file_name, link_access, link_creation,
  link_event_type, link_modification, mft_change, modification, ntfs_event_type, registry_with_time,
  result_of, standard_information, string_at,
}
use dfir_investigation_workb.Timeline.Mappings.{
  execution_event, executions, file_name_events, has_time, larger, link_event, link_events,
  normalize, ntfs_event, ntfs_events, ntfs_family, prefetch_times, standard_events,
}
use dfir_investigation_workb.Timeline.Keys.{
  AllDistinct, Between, Between-AllDistinct, Between-append, Between-widen, choice-Between,
  optional-Between, type_rank,
}

-- The four event types of a family have ranks in a row.
field_ranks :
    (family : NtfsFamily)
    → (type_rank (ntfs_event_type family modification)
        ≡ type_rank (ntfs_event_type family creation) + 1)
      × (type_rank (ntfs_event_type family mft_change)
          ≡ type_rank (ntfs_event_type family creation) + 2)
      × (type_rank (ntfs_event_type family access)
          ≡ type_rank (ntfs_event_type family creation) + 3)
field_ranks standard_information = (refl, refl, refl)
field_ranks file_name = (refl, refl, refl)

module _ (python : Python) where
  executions-Between :
      (r : ArtifactRecord) (times raw_times : List Value) (left index hi : ℕ)
      → 8 * (index + left) ≤ hi
      → Between (8 * index) hi (executions python r times raw_times left index).0
  unfolding executions execution_event
  executions-Between r times raw_times zero index hi le = omega arith
  executions-Between r times raw_times (suc left) index hi le =
      let normalized = string_at times index in
      let raw = string_at raw_times index in
      let (events, warnings) = executions python r times raw_times left (index + 1) in
      Between-widen (8 * index) (0 + 8 * index) hi _ (omega arith) (
        choice-Between (has_time normalized raw) (execution_event python r index normalized raw)
          events warnings _ (8 * (index + 1)) hi (omega arith)
          (executions-Between r times raw_times left (index + 1) hi (omega arith)))

  link_events-Between :
      (r : ArtifactRecord) (t : LinkTime) (ordinal : ℕ)
      → Between
          (type_rank (link_event_type t) + 8 * ordinal)
          (type_rank (link_event_type t) + 8 * ordinal + 1)
          (link_events python r ordinal t)
  unfolding link_events link_event
  link_events-Between r t ordinal = optional-Between _ _

  ntfs_events-Between :
      (r : ArtifactRecord) (timestamps : Dict) (family : NtfsFamily) (filename : Option Text)
      (parent : Value) (ordinal : ℕ) (f : TimeField)
      → Between
          (type_rank (ntfs_event_type family f) + 8 * ordinal)
          (type_rank (ntfs_event_type family f) + 8 * ordinal + 1)
          (ntfs_events python r timestamps family filename parent ordinal f)
  unfolding ntfs_events ntfs_event
  ntfs_events-Between r timestamps family filename parent ordinal f = optional-Between _ _

  ntfs_family-Between :
      (r : ArtifactRecord) (timestamps : Dict) (family : NtfsFamily) (filename : Option Text)
      (parent : Value) (ordinal : ℕ)
      → Between
          (type_rank (ntfs_event_type family creation) + 8 * ordinal)
          (type_rank (ntfs_event_type family access) + 8 * ordinal + 1)
          (ntfs_family python r timestamps family filename parent ordinal)
  unfolding ntfs_family
  ntfs_family-Between r timestamps family filename parent ordinal =
      let ranks = field_ranks family in
      let one = ntfs_events-Between r timestamps family filename parent ordinal in
      Between-append _ _ _ _ _ _ (one creation) (omega (arith, ranks)) (
        Between-append _ _ _ _ _ _ (one modification) (omega (arith, ranks))
          (Between-append _ _ _ _ _ _ (one mft_change) (omega (arith, ranks)) (one access)))

  file_name_events-Between :
      (r : ArtifactRecord) (names : List Dict) (ordinal hi : ℕ)
      → 4 + 8 * (ordinal + length names) ≤ hi
      → Between (4 + 8 * ordinal) hi (file_name_events python r ordinal names)
  unfolding file_name_events
  file_name_events-Between r [] ordinal hi le = omega arith
  file_name_events-Between r (name ∷ names) ordinal hi le =
      Between-append _ _ (4 + 8 * (ordinal + 1)) hi _ _
        (ntfs_family-Between r name file_name _ _ ordinal) (omega arith)
        (file_name_events-Between r names (ordinal + 1) hi (omega arith))

  standard_events-Between :
      (r : ArtifactRecord) (standard : Dict) → Between 0 4 (standard_events python r standard)
  unfolding standard_events
  standard_events-Between r [] = omega arith
  standard_events-Between r (entry ∷ more) = ntfs_family-Between r _ standard_information _ _ 0

  -- the events of a result are in the order of their ranks
  InOrder : NormalizationResult → Type 0
  InOrder n = (lo : ℕ) × (hi : ℕ) × Between lo hi n.events

  if-InOrder :
      (b : Bool) (m n : NormalizationResult) → InOrder m → InOrder n → InOrder (if b then m else n)
  if-InOrder true m n hm hn = hm
  if-InOrder false m n hm hn = hn

  empty-InOrder : (warnings : List Text) → InOrder (result_of [] warnings)
  unfolding InOrder
  empty-InOrder warnings = (0, 0, omega arith)

  guard-InOrder :
      (kind : String) (r : ArtifactRecord) (n : NormalizationResult)
      → InOrder n
      → InOrder (if not (text_eq r.record_type (lit kind)) then result_of [] [] else n)
  guard-InOrder kind r n h =
      if-InOrder (not (text_eq r.record_type (lit kind))) (result_of [] []) n (empty-InOrder []) h

  evtx-InOrder : (r : ArtifactRecord) (raw : Option Text) → InOrder (evtx_with_time python r raw)
  unfolding InOrder evtx_with_time event_of_evtx
  evtx-InOrder r none = (0, 0, omega arith)
  evtx-InOrder r (some raw) = (0, 1, (omega arith, omega arith))

  registry-InOrder :
      (r : ArtifactRecord) (raw : Option Text) → InOrder (registry_with_time python r raw)
  unfolding InOrder registry_with_time event_of_registry
  registry-InOrder r none = (0, 0, omega arith)
  registry-InOrder r (some raw) = (0, 1, (omega arith, omega arith))

  prefetch-InOrder :
      (r : ArtifactRecord) (times raw_times : List Value)
      → InOrder (prefetch_times python r times raw_times)
  unfolding InOrder prefetch_times
  prefetch-InOrder r times raw_times =
      let count = larger (length times) (length raw_times) in
      let all = executions python r times raw_times count 0 in
      if-InOrder ((length raw_times == 0) && (length times == 0)) _ (result_of all.0 all.1)
        (empty-InOrder (lit "Prefetch record has no execution timestamp" ∷ []))
        (
          8 * 0,
          8 * (0 + count),
          executions-Between r times raw_times count 0 (8 * (0 + count)) (omega arith),
        )

  link-InOrder :
      (r : ArtifactRecord)
      → InOrder (
          result_of
            (link_events python r 0 link_creation
              ++ (link_events python r 1 link_access ++ link_events python r 2 link_modification))
            [])
  unfolding InOrder
  link-InOrder r = (
    _,
    _,
    Between-append _ _ _ _ _ _ (link_events-Between r link_creation 0) (omega arith) (
        Between-append _ _ _ _ _ _ (link_events-Between r link_access 1) (omega arith)
          (link_events-Between r link_modification 2)),
  )

  ntfs-InOrder :
      (r : ArtifactRecord) (standard : Dict) (names : List Dict)
      → InOrder
          (result_of (standard_events python r standard ++ file_name_events python r 0 names) [])
  unfolding InOrder
  ntfs-InOrder r standard names = (
    0,
    4 + 8 * (0 + length names),
    Between-append 0 4 (4 + 8 * 0) _ _ _ (standard_events-Between r standard) (omega arith)
        (file_name_events-Between r names 0 _ (omega arith)),
  )

  normalize-InOrder : (t : ArtifactType) (r : ArtifactRecord) → InOrder (normalize python t r)
  unfolding InOrder normalize
  normalize-InOrder ArtifactType.evtx r =
      guard-InOrder "EVTX_EVENT" r _
        (evtx-InOrder r (as_string (get_field "event_timestamp" r.body)))
  normalize-InOrder ArtifactType.registry r =
      guard-InOrder "REGISTRY_KEY" r _
        (registry-InOrder r (as_string (get_field "key_last_write_time" r.body)))
  normalize-InOrder ArtifactType.prefetch r = guard-InOrder "PREFETCH_FILE" r _ (
      prefetch-InOrder r (as_list (get_field "execution_times" r.body))
        (as_list (get_field "execution_time_filetime_values" r.body)))
  normalize-InOrder ArtifactType.lnk r = guard-InOrder "SHELL_LINK" r _ (link-InOrder r)
  normalize-InOrder ArtifactType.ntfs_mft r = guard-InOrder "NTFS_MFT_RECORD" r _ (
      ntfs-InOrder r (as_dict (get_field "standard_information" r.body))
        (dict_list (get_field "file_names" r.body)))
  normalize-InOrder ArtifactType.ntfs r = (0, 0, omega arith)
  normalize-InOrder ArtifactType.reference r = (0, 0, omega arith)

  -- Whatever the record, the events that it is normalized to have pairwise different keys, so that
  -- the constraint on the logical identity of timeline events never makes one of them drop another.
  pub normalize-AllDistinct :
      (t : ArtifactType) (r : ArtifactRecord) → AllDistinct (normalize python t r).events
  unfolding InOrder
  normalize-AllDistinct t r =
      let (lo, hi, h) = normalize-InOrder t r in
      Between-AllDistinct lo hi (normalize python t r).events h
