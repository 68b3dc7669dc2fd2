-- ===== src/Correlation/Samples.antt =====
-- Events that the tests of the rules and of the runs use.
use dfir_investigation_workb.Prelude.{
  List, Text, [], if◌then◌else◌, leb, lit, map, none, pos, some, ℕ, ◌&&◌, ◌+◌, ◌∷◌,
}
use dfir_investigation_workb.Json.{Value, integer, string}
use dfir_investigation_workb.Domain.{ArtifactType, TimelineEventType}
use dfir_investigation_workb.Correlation.Events.{TimelineEvent}

-- a `casefold` of the ASCII letters
abbrev pub fold_ascii : Text → Text
fold_ascii = map (λ (c : ℕ). if leb b'A' c && leb c b'Z' then c + 32 else c)

abbrev pub event_at : ℕ → TimelineEventType → ℕ → List (Text × Value) → TimelineEvent
event_at i kind time metadata = record {
  id = (48 + i) ∷ [];
  case_id = 5;
  artifact_record_id = i;
  artifact_type = ArtifactType.evtx;
  event_type = kind;
  event_time = some time;
  source_identifier = none;
  time_source = lit "UTC";
  event_ordinal = i;
  metadata = metadata;
}

abbrev pub process : TimelineEvent
process = event_at 1 TimelineEventType.evtx_event 700000000 (
    (lit "event_id", integer (pos 4688))
    ∷ (lit "channel", string (lit "Security"))
    ∷ (lit "process_name", string (lit "C:/Tools/A.exe"))
    ∷ (lit "process_path", string (lit "C:/Tools/A.exe"))
    ∷ [])

abbrev pub executed : TimelineEvent
executed =
    event_at 2 TimelineEventType.prefetch_execution 400000000
      ((lit "application_name", string (lit "a.EXE")) ∷ [])

-- the same executable, a microsecond beyond the window
abbrev pub executed_early : TimelineEvent
executed_early =
    event_at 3 TimelineEventType.prefetch_execution 399999999
      ((lit "application_name", string (lit "a.EXE")) ∷ [])

abbrev pub linked : TimelineEvent
linked =
    event_at 4 TimelineEventType.lnk_metadata_access 700000001
      ((lit "target_path", string (lit "c:\\tools\\.\\a.exe")) ∷ [])
