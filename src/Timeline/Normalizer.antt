-- ===== src/Timeline/Normalizer.antt =====
-- `TimelineNormalizer` of backend/app/services/timeline_normalizer.py.
use dfir_investigation_workb.Prelude.{
  Bool, Datetime, List, Option, String, Text, [], get_elem?, if◌then◌else◌, lit, none, not, some,
  take, text_eq, true, ℕ, ◌++◌, ◌∷◌,
}
use dfir_investigation_workb.Domain.{TimelineEventType, TimestampPrecision}
use dfir_investigation_workb.Json.{Dict, Value, get_field}
use dfir_investigation_workb.Correlation.Paths.{is_empty_text}
use dfir_investigation_workb.Timeline.Times.{Moment, Python, aware_iso, aware_time, iso_precision}
use dfir_investigation_workb.Timeline.Identity.{
  as_string, extract_evtx_process_identity, text_value,
}

-- the columns of an `ArtifactRecord` that the normalizer reads
pub record ArtifactRecord : Type 0 where
  pub record_type : Text
  pub event_time : Option Moment
  pub source_record_identifier : Option Text
  pub body : Dict
  pub provenance : Dict

pub record NormalizedTimelineEvent : Type 0 where
  pub event_type : TimelineEventType
  pub event_time : Option Datetime
  pub raw_time : Option Text
  pub time_source : Text
  pub time_semantics : Text
  pub timestamp_precision : TimestampPrecision
  pub event_ordinal : ℕ
  pub description : Text
  pub source_identifier : Option Text
  pub metadata : Dict
  pub provenance : Dict

pub record NormalizationResult : Type 0 where
  pub events : List NormalizedTimelineEvent
  pub warnings : List Text
  pub supported : Bool

abbrev pub result_of : List NormalizedTimelineEvent → List Text → NormalizationResult
result_of events warnings = record { events = events; warnings = warnings; supported = true }

-- `_description`
unfoldable pub description_of : Text → Text
description_of value = take 1000 value

-- `a or b` on times
abbrev pub or_time : Option Datetime → Option Datetime → Option Datetime
or_time none b = b
or_time (some a) b = some a

-- `_string(value) or default`
abbrev pub or_default : Option Text → Text → Text
or_default none fallback = fallback
or_default (some t) fallback = if is_empty_text t then fallback else t

-- the item at an index, if there is one: `_string(items[index]) if index < len(items) else None`
abbrev pub string_at : List Value → ℕ → Option Text
string_at items index = elim (get_elem? items index) [ none ↦ none | some v ↦ as_string v ]

-- the field of a timestamp family, with the words that the source derives from it
pub data TimeField : Type 0 where
  creation modification mft_change access : TimeField

abbrev pub field_key : TimeField → String
field_key creation = "creation_time"
field_key modification = "modification_time"
field_key mft_change = "mft_change_time"
field_key access = "access_time"

abbrev pub field_words : TimeField → Text
field_words creation = lit "creation"
field_words modification = lit "modification"
field_words mft_change = lit "MFT change"
field_words access = lit "access"

pub data NtfsFamily : Type 0 where
  standard_information file_name : NtfsFamily

-- `TimelineEventType[f"{prefix}_{suffix}"]`, by its value: EventNames has the lookup by name, which finds it
abbrev pub ntfs_event_type : NtfsFamily → TimeField → TimelineEventType
ntfs_event_type standard_information creation = TimelineEventType.ntfs_si_creation
ntfs_event_type standard_information modification = TimelineEventType.ntfs_si_modification
ntfs_event_type standard_information mft_change = TimelineEventType.ntfs_si_mft_change
ntfs_event_type standard_information access = TimelineEventType.ntfs_si_access
ntfs_event_type file_name creation = TimelineEventType.ntfs_fn_creation
ntfs_event_type file_name modification = TimelineEventType.ntfs_fn_modification
ntfs_event_type file_name mft_change = TimelineEventType.ntfs_fn_mft_change
ntfs_event_type file_name access = TimelineEventType.ntfs_fn_access

abbrev pub family_name : NtfsFamily → Text
family_name standard_information = lit "$STANDARD_INFORMATION"
family_name file_name = lit "$FILE_NAME"

abbrev pub family_semantics : NtfsFamily → Text
family_semantics standard_information = lit "NTFS standard information metadata timestamp"
family_semantics file_name = lit "NTFS filename metadata timestamp"

-- the three timestamps of a Shell Link, in the order of the source
pub data LinkTime : Type 0 where
  link_creation link_access link_modification : LinkTime

abbrev pub link_event_type : LinkTime → TimelineEventType
link_event_type link_creation = TimelineEventType.lnk_metadata_creation
link_event_type link_access = TimelineEventType.lnk_metadata_access
link_event_type link_modification = TimelineEventType.lnk_metadata_modification

abbrev pub link_word : LinkTime → Text
link_word link_creation = lit "creation"
link_word link_access = lit "access"
link_word link_modification = lit "modification"

abbrev pub link_semantics : LinkTime → Text
link_semantics t = lit "Shell Link " ++ (link_word t ++ lit " metadata timestamp")

module _ (python : Python) where
  -- 100NS where there is a FILETIME
  abbrev pub precision_with_raw : Option Text → Option Text → TimestampPrecision
  precision_with_raw (some raw) normalized = TimestampPrecision.hundred_nanosecond
  precision_with_raw none normalized = iso_precision python normalized

  -- a record of the type, with its time
  unfoldable pub event_of_evtx : ArtifactRecord → Text → NormalizedTimelineEvent
  unfolding description_of
  event_of_evtx r raw_time = record {
    event_type = TimelineEventType.evtx_event;
    event_time = or_time (aware_time r.event_time) (aware_iso python (some raw_time));
    raw_time = some raw_time;
    time_source = lit "evtx.system.time_created";
    time_semantics = lit "Windows event source timestamp";
    timestamp_precision = iso_precision python (some raw_time);
    event_ordinal = 0;
    description = description_of (
        lit "Windows event "
        ++ (python.str (get_field "event_id" r.body)
            ++ (lit " observed from "
                ++ or_default (as_string (get_field "channel" r.body)) (lit "unknown channel"))));
    source_identifier = r.source_record_identifier;
    metadata =
        (lit "event_record_id", text_value r.source_record_identifier)
        ∷ (lit "provider", get_field "provider" r.body)
        ∷ (lit "event_id", get_field "event_id" r.body)
        ∷ (lit "channel", get_field "channel" r.body)
        ∷ (lit "computer", get_field "computer" r.body)
        ∷ (lit "level", get_field "level" r.body)
        ∷ extract_evtx_process_identity python.casefold r.body;
    provenance = r.provenance;
  }

  unfoldable pub evtx_with_time : ArtifactRecord → Option Text → NormalizationResult
  unfolding event_of_evtx
  evtx_with_time r none = result_of [] (lit "EVTX record has no source event timestamp" ∷ [])
  evtx_with_time r (some raw_time) = result_of (event_of_evtx r raw_time ∷ []) []

  -- `_evtx`
  unfoldable pub normalize_evtx : ArtifactRecord → NormalizationResult
  unfolding evtx_with_time
  normalize_evtx r =
      if not (text_eq r.record_type (lit "EVTX_EVENT"))
      then result_of [] []
      else evtx_with_time r (as_string (get_field "event_timestamp" r.body))

  unfoldable pub event_of_registry : ArtifactRecord → Text → NormalizedTimelineEvent
  unfolding description_of
  event_of_registry r raw_time = record {
    event_type = TimelineEventType.registry_key_last_write;
    event_time = or_time (aware_time r.event_time) (aware_iso python (some raw_time));
    raw_time = some raw_time;
    time_source = lit "registry.key_last_write";
    time_semantics = lit "Registry key metadata LastWrite timestamp";
    timestamp_precision = iso_precision python (some raw_time);
    event_ordinal = 0;
    description = description_of (
        lit "Registry key LastWrite timestamp observed for "
        ++ or_default (as_string (get_field "key_path" r.body)) (lit "unknown key"));
    source_identifier = r.source_record_identifier;
    metadata =
        (lit "hive", get_field "hive_type" r.body)
        ∷ (lit "key_path", get_field "key_path" r.body)
        ∷ [];
    provenance = r.provenance;
  }

  unfoldable pub registry_with_time : ArtifactRecord → Option Text → NormalizationResult
  unfolding event_of_registry
  registry_with_time r none = result_of [] (lit "Registry key has no LastWrite timestamp" ∷ [])
  registry_with_time r (some raw_time) = result_of (event_of_registry r raw_time ∷ []) []

  -- `_registry`
  unfoldable pub normalize_registry : ArtifactRecord → NormalizationResult
  unfolding registry_with_time
  normalize_registry r =
      if not (text_eq r.record_type (lit "REGISTRY_KEY"))
      then result_of [] []
      else registry_with_time r (as_string (get_field "key_last_write_time" r.body))
