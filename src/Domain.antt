-- ===== src/Domain.antt =====
-- backend/app/domain/enums.py: the enumerations that the services and parsers share.
use dfir_investigation_workb.Prelude.{Bool, false, true, ℕ}

pub data CaseStatus : Type 0 where
  open_case closed archived : CaseStatus

pub data ArtifactType : Type 0 where
  reference evtx registry prefetch lnk ntfs ntfs_mft : ArtifactType

pub data ParserExecutionStatus : Type 0 where
  pending running completed completed_with_warnings failed unsupported : ParserExecutionStatus

pub data TimelineEventType : Type 0 where
  evtx_event registry_key_last_write prefetch_execution : TimelineEventType
  lnk_metadata_creation lnk_metadata_access lnk_metadata_modification : TimelineEventType
  ntfs_si_creation ntfs_si_modification ntfs_si_mft_change ntfs_si_access : TimelineEventType
  ntfs_fn_creation ntfs_fn_modification ntfs_fn_mft_change ntfs_fn_access : TimelineEventType

pub data TimestampPrecision : Type 0 where
  second millisecond microsecond hundred_nanosecond unknown_precision : TimestampPrecision

pub data CorrelationRunStatus : Type 0 where
  running completed completed_with_warnings failed : CorrelationRunStatus

pub data FindingStatus : Type 0 where
  open_finding reviewed resolved dismissed : FindingStatus

pub data FindingSeverity : Type 0 where
  info low medium high critical : FindingSeverity

pub data FindingConfidence : Type 0 where
  low medium high : FindingConfidence

pub data FindingType : Type 0 where
  process_execution_corroborated lnk_process_association : FindingType
  file_activity_association registry_process_association : FindingType

-- `a is b` on the members of an enumeration
abbrev pub case_status_is : CaseStatus → CaseStatus → Bool
case_status_is CaseStatus.open_case CaseStatus.open_case = true
case_status_is CaseStatus.closed CaseStatus.closed = true
case_status_is CaseStatus.archived CaseStatus.archived = true
case_status_is _ _ = false

abbrev pub finding_status_is : FindingStatus → FindingStatus → Bool
finding_status_is FindingStatus.open_finding FindingStatus.open_finding = true
finding_status_is FindingStatus.reviewed FindingStatus.reviewed = true
finding_status_is FindingStatus.resolved FindingStatus.resolved = true
finding_status_is FindingStatus.dismissed FindingStatus.dismissed = true
finding_status_is _ _ = false

abbrev pub artifact_type_is : ArtifactType → ArtifactType → Bool
artifact_type_is ArtifactType.reference ArtifactType.reference = true
artifact_type_is ArtifactType.evtx ArtifactType.evtx = true
artifact_type_is ArtifactType.registry ArtifactType.registry = true
artifact_type_is ArtifactType.prefetch ArtifactType.prefetch = true
artifact_type_is ArtifactType.lnk ArtifactType.lnk = true
artifact_type_is ArtifactType.ntfs ArtifactType.ntfs = true
artifact_type_is ArtifactType.ntfs_mft ArtifactType.ntfs_mft = true
artifact_type_is _ _ = false

-- the place of a member, by which members are compared
abbrev pub event_type_code : TimelineEventType → ℕ
event_type_code TimelineEventType.evtx_event = 0
event_type_code TimelineEventType.registry_key_last_write = 1
event_type_code TimelineEventType.prefetch_execution = 2
event_type_code TimelineEventType.lnk_metadata_creation = 3
event_type_code TimelineEventType.lnk_metadata_access = 4
event_type_code TimelineEventType.lnk_metadata_modification = 5
event_type_code TimelineEventType.ntfs_si_creation = 6
event_type_code TimelineEventType.ntfs_si_modification = 7
event_type_code TimelineEventType.ntfs_si_mft_change = 8
event_type_code TimelineEventType.ntfs_si_access = 9
event_type_code TimelineEventType.ntfs_fn_creation = 10
event_type_code TimelineEventType.ntfs_fn_modification = 11
event_type_code TimelineEventType.ntfs_fn_mft_change = 12
event_type_code TimelineEventType.ntfs_fn_access = 13

abbrev pub finding_severity_is : FindingSeverity → FindingSeverity → Bool
finding_severity_is FindingSeverity.info FindingSeverity.info = true
finding_severity_is FindingSeverity.low FindingSeverity.low = true
finding_severity_is FindingSeverity.medium FindingSeverity.medium = true
finding_severity_is FindingSeverity.high FindingSeverity.high = true
finding_severity_is FindingSeverity.critical FindingSeverity.critical = true
finding_severity_is _ _ = false

abbrev pub finding_confidence_is : FindingConfidence → FindingConfidence → Bool
finding_confidence_is FindingConfidence.low FindingConfidence.low = true
finding_confidence_is FindingConfidence.medium FindingConfidence.medium = true
finding_confidence_is FindingConfidence.high FindingConfidence.high = true
finding_confidence_is _ _ = false
