-- ===== src/Timeline/EventNames.antt =====
-- The lookup `TimelineEventType[f"{prefix}_{suffix}"]` of backend/app/services/timeline_normalizer.py, which
-- raises a KeyError where no member has the name.
use dfir_investigation_workb.Prelude.{
  List, Option, Text, [], if◌then◌else◌, lit, none, refl, some, text_eq, ◌++◌, ◌∷◌, ◌≡◌,
}
use dfir_investigation_workb.Domain.{TimelineEventType}
use dfir_investigation_workb.Timeline.Normalizer.{
  NtfsFamily, TimeField, access, creation, file_name, mft_change, modification, ntfs_event_type,
  standard_information,
}

-- the name of the member of the enumeration
abbrev pub event_type_name : TimelineEventType → Text
event_type_name TimelineEventType.evtx_event = lit "EVTX_EVENT"
event_type_name TimelineEventType.registry_key_last_write = lit "REGISTRY_KEY_LAST_WRITE"
event_type_name TimelineEventType.prefetch_execution = lit "PREFETCH_EXECUTION"
event_type_name TimelineEventType.lnk_metadata_creation = lit "LNK_METADATA_CREATION"
event_type_name TimelineEventType.lnk_metadata_access = lit "LNK_METADATA_ACCESS"
event_type_name TimelineEventType.lnk_metadata_modification = lit "LNK_METADATA_MODIFICATION"
event_type_name TimelineEventType.ntfs_si_creation = lit "NTFS_SI_CREATION"
event_type_name TimelineEventType.ntfs_si_modification = lit "NTFS_SI_MODIFICATION"
event_type_name TimelineEventType.ntfs_si_mft_change = lit "NTFS_SI_MFT_CHANGE"
event_type_name TimelineEventType.ntfs_si_access = lit "NTFS_SI_ACCESS"
event_type_name TimelineEventType.ntfs_fn_creation = lit "NTFS_FN_CREATION"
event_type_name TimelineEventType.ntfs_fn_modification = lit "NTFS_FN_MODIFICATION"
event_type_name TimelineEventType.ntfs_fn_mft_change = lit "NTFS_FN_MFT_CHANGE"
event_type_name TimelineEventType.ntfs_fn_access = lit "NTFS_FN_ACCESS"

abbrev pub event_types : List TimelineEventType
event_types =
    TimelineEventType.evtx_event ∷ TimelineEventType.registry_key_last_write
    ∷ TimelineEventType.prefetch_execution ∷ TimelineEventType.lnk_metadata_creation
    ∷ TimelineEventType.lnk_metadata_access ∷ TimelineEventType.lnk_metadata_modification
    ∷ TimelineEventType.ntfs_si_creation ∷ TimelineEventType.ntfs_si_modification
    ∷ TimelineEventType.ntfs_si_mft_change ∷ TimelineEventType.ntfs_si_access
    ∷ TimelineEventType.ntfs_fn_creation ∷ TimelineEventType.ntfs_fn_modification
    ∷ TimelineEventType.ntfs_fn_mft_change ∷ TimelineEventType.ntfs_fn_access ∷ []

-- `TimelineEventType[name]`; none is the KeyError
unfoldable pub member_named : Text → List TimelineEventType → Option TimelineEventType
member_named name [] = none
member_named name (t ∷ ts) =
    let rest = member_named name ts in if text_eq (event_type_name t) name then some t else rest

abbrev pub ntfs_prefix : NtfsFamily → Text
ntfs_prefix standard_information = lit "NTFS_SI"
ntfs_prefix file_name = lit "NTFS_FN"

abbrev pub ntfs_suffix : TimeField → Text
ntfs_suffix creation = lit "CREATION"
ntfs_suffix modification = lit "MODIFICATION"
ntfs_suffix mft_change = lit "MFT_CHANGE"
ntfs_suffix access = lit "ACCESS"

-- The lookup finds a member for each family and each field: the normalizer raises no KeyError here.
pub member_named-ntfs_event_type :
    (family : NtfsFamily) (f : TimeField)
    → member_named (ntfs_prefix family ++ (lit "_" ++ ntfs_suffix f)) event_types
      ≡ some (ntfs_event_type family f)
unfolding lit text_eq member_named
member_named-ntfs_event_type standard_information creation = refl
member_named-ntfs_event_type standard_information modification = refl
member_named-ntfs_event_type standard_information mft_change = refl
member_named-ntfs_event_type standard_information access = refl
member_named-ntfs_event_type file_name creation = refl
member_named-ntfs_event_type file_name modification = refl
member_named-ntfs_event_type file_name mft_change = refl
member_named-ntfs_event_type file_name access = refl
