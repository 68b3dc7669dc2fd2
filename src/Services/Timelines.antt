-- ===== src/Services/Timelines.antt =====
-- `TimelineService.generate` of backend/app/services/timeline_service.py. What Python and the database
-- contribute is an argument.
pub mod Inserts
pub mod Again
pub mod Idempotent
pub mod Safe
pub mod Distinct
pub mod Origin
pub mod Returns
mod Tests
use dfir_investigation_workb.Services.Session.{
  Action, Artifact, AuditEvent, Case, Evidence, ServiceError, StoredRecord, Tables, add_audit,
  commit, guarded, key_error, of_result, pure, query, timeline_generated, write, ◌>>=◌, ◌>>◌,
}
use dfir_investigation_workb.Prelude.{
  Bool, List, Option, Result, Text, [], err, false, if◌then◌else◌, length, lit, map, none, ok, some,
  text_eq, true, ℕ, ◌&&◌, ◌++◌, ◌+◌, ◌-◌, ◌==◌, ◌||◌, ◌∷◌,
}
use dfir_investigation_workb.Domain.{ArtifactType, artifact_type_is, event_type_code}
use dfir_investigation_workb.Json.{Dict, Value}
use dfir_investigation_workb.Forensic.Parser.{is_empty}
use dfir_investigation_workb.Correlation.Events.{TimelineEvent}
use dfir_investigation_workb.Correlation.Candidates.{is_evtx}
use dfir_investigation_workb.Timeline.Times.{Python}
use dfir_investigation_workb.Timeline.Identity.{extract_evtx_process_identity}
use dfir_investigation_workb.Timeline.Normalizer.{NormalizationResult, NormalizedTimelineEvent}
use dfir_investigation_workb.Timeline.Mappings.{normalize}
use dfir_investigation_workb.Services.Cases.{get_for_update}

pub record TimelineGenerationStats : Type 0 where
  pub case_id : ℕ
  pub artifacts_considered : ℕ
  pub records_considered : ℕ
  pub events_created : ℕ
  pub events_skipped : ℕ
  pub warnings : List Text
  pub unsupported_artifact_types : List ArtifactType

-- Python's operations, the text of an identifier, the `uuid4` of the n-th event, and the orders in
-- which the database returns artifacts and records.
pub record Sources : Type 0 where
  pub python : Python
  pub uuid_text : ℕ → Text
  pub event_id : ℕ → Text
  pub order_artifacts : List Artifact → List Artifact
  pub order_records : List StoredRecord → List StoredRecord

-- the join with the evidence of a case
abbrev pub is_of_case : ℕ → ℕ → List Evidence → Bool
is_of_case i evidence_id [] = false
is_of_case i evidence_id (e ∷ es) =
    (e.id == evidence_id && e.case_id == i) || is_of_case i evidence_id es

unfoldable pub case_artifacts : ℕ → List Evidence → List Artifact → List Artifact
case_artifacts i es [] = []
case_artifacts i es (a ∷ as_) =
    let rest = case_artifacts i es as_ in if is_of_case i a.evidence_id es then a ∷ rest else rest

-- the join of a record with its artifact and the evidence of a case
unfoldable pub is_case_record : ℕ → List Evidence → List Artifact → ℕ → Bool
is_case_record i es [] artifact_id = false
is_case_record i es (a ∷ as_) artifact_id =
    let rest = is_case_record i es as_ artifact_id in
    (a.id == artifact_id && is_of_case i a.evidence_id es) || rest

unfoldable pub case_records :
    ℕ → List Evidence → List Artifact → List StoredRecord → List StoredRecord
case_records i es as_ [] = []
case_records i es as_ (r ∷ rs) =
    let rest = case_records i es as_ rs in
    if is_case_record i es as_ r.artifact_id then r ∷ rest else rest

-- `artifacts_by_id[artifact_id]`: a KeyError for an artifact that is not among those of the case
unfoldable pub artifact_by_id : ℕ → List Artifact → Result ServiceError Artifact
artifact_by_id i [] = err key_error
artifact_by_id i (a ∷ as_) = let rest = artifact_by_id i as_ in if a.id == i then ok a else rest

abbrev pub with_found :
    StoredRecord
    → Result ServiceError Artifact
    → Result ServiceError (List (Artifact × StoredRecord))
    → Result ServiceError (List (Artifact × StoredRecord))
with_found r (err e) rest = err e
with_found r (ok a) (err e) = err e
with_found r (ok a) (ok ps) = ok ((a, r) ∷ ps)

-- each record with the artifact that the loop looks up for it
unfoldable pub with_artifacts :
    List Artifact → List StoredRecord → Result ServiceError (List (Artifact × StoredRecord))
with_artifacts as_ [] = ok []
with_artifacts as_ (r ∷ rs) =
    with_found r (artifact_by_id r.artifact_id as_) (with_artifacts as_ rs)

unfoldable pub has_type : ArtifactType → List Artifact → Bool
has_type t [] = false
has_type t (a ∷ as_) = let rest = has_type t as_ in artifact_type_is a.artifact_type t || rest

-- the types that the normalizer does not know, by their values
unfoldable pub unsupported_types : List Artifact → List ArtifactType
unsupported_types as_ =
    (if has_type ArtifactType.ntfs as_ then ArtifactType.ntfs ∷ [] else [])
    ++ (if has_type ArtifactType.reference as_ then ArtifactType.reference ∷ [] else [])

-- the constraint uq_timeline_events_logical_identity
unfoldable pub same_identity : TimelineEvent → TimelineEvent → Bool
same_identity a b =
    a.artifact_record_id == b.artifact_record_id
    && (event_type_code a.event_type == event_type_code b.event_type)
    && text_eq a.time_source b.time_source
    && (a.event_ordinal == b.event_ordinal)

unfoldable pub has_identity : TimelineEvent → List TimelineEvent → Bool
has_identity v [] = false
has_identity v (e ∷ es) = let rest = has_identity v es in same_identity e v || rest

-- `insert(...).values(values).on_conflict_do_nothing(...)`, with the number of rows that it returns
unfoldable pub insert_events : List TimelineEvent → List TimelineEvent → ℕ → List TimelineEvent × ℕ
insert_events [] table n = (table, n)
insert_events (v ∷ vs) table n = elim (has_identity v table) [
  | true ↦ insert_events vs table n
  | false ↦ insert_events vs (table ++ v ∷ []) (n + 1)
]

-- `d[key] = value`
unfoldable pub put : Text → Value → Dict → Dict
put key v [] = (key, v) ∷ []
put key v ((k, w) ∷ rest) =
    let later = put key v rest in if text_eq k key then (k, v) ∷ rest else (k, w) ∷ later

-- `{**old, **new}`
unfoldable pub merge : Dict → Dict → Dict
merge old [] = old
merge old ((k, v) ∷ rest) = merge (put k v old) rest

unfoldable pub find_record : ℕ → List StoredRecord → Option StoredRecord
find_record i [] = none
find_record i (r ∷ rs) = let rest = find_record i rs in if r.id == i then some r else rest

abbrev pub is_evtx_row : TimelineEvent → Bool
is_evtx_row e = artifact_type_is e.artifact_type ArtifactType.evtx && is_evtx e.event_type

-- The metadata of a row behind `_backfill_evtx_process_identity`; merging nothing new leaves them.
unfoldable pub backfilled_metadata : (Text → Text) → ℕ → List StoredRecord → TimelineEvent → Dict
backfilled_metadata casefold i rs e =
    if e.case_id == i && is_evtx_row e
    then elim (find_record e.artifact_record_id rs) [
      | none ↦ e.metadata
      | some r ↦ merge e.metadata (extract_evtx_process_identity casefold r.content.body)
    ]
    else e.metadata

abbrev pub backfill_one : (Text → Text) → ℕ → List StoredRecord → TimelineEvent → TimelineEvent
backfill_one casefold i rs e = record e { metadata = backfilled_metadata casefold i rs e }

unfoldable pub backfill : (Text → Text) → ℕ → Tables → Tables
backfill casefold i t = record t {
  timeline_events = map (backfill_one casefold i t.artifact_records) t.timeline_events;
}

module _ (o : Sources) (case_id : ℕ) where
  -- the values of a new row, but for the columns that are only displayed
  abbrev pub event_row : Artifact → StoredRecord → NormalizedTimelineEvent → ℕ → TimelineEvent
  event_row a r e n = record {
    id = o.event_id n;
    case_id = case_id;
    artifact_record_id = r.id;
    artifact_type = a.artifact_type;
    event_type = e.event_type;
    event_time = e.event_time;
    source_identifier = e.source_identifier;
    time_source = e.time_source;
    event_ordinal = e.event_ordinal;
    metadata = e.metadata;
  }

  unfoldable pub event_rows :
      Artifact → StoredRecord → List NormalizedTimelineEvent → ℕ → List TimelineEvent
  event_rows a r [] n = []
  event_rows a r (e ∷ es) n = event_row a r e n ∷ event_rows a r es (n + 1)

  abbrev pub normalized : Artifact × StoredRecord → NormalizationResult
  normalized (a, r) = normalize o.python a.artifact_type r.content

  -- `values`
  unfoldable pub values_of : List (Artifact × StoredRecord) → ℕ → List TimelineEvent
  values_of [] n = []
  values_of (p ∷ ps) n =
      event_rows p.0 p.1 (normalized p).events n ++ values_of ps (n + length (normalized p).events)

  abbrev pub prefixed : Text → List Text → List Text
  prefixed prefix [] = []
  prefixed prefix (w ∷ ws) = (prefix ++ (lit ": " ++ w)) ∷ prefixed prefix ws

  unfoldable pub artifact_warnings : List Artifact → List Text
  artifact_warnings [] = []
  artifact_warnings (a ∷ as_) =
      prefixed (lit "Artifact " ++ o.uuid_text a.id) a.warnings ++ artifact_warnings as_

  unfoldable pub record_warnings : List (Artifact × StoredRecord) → List Text
  record_warnings [] = []
  record_warnings (p ∷ ps) =
      prefixed (lit "ArtifactRecord " ++ o.uuid_text p.1.id) (normalized p).warnings
      ++ record_warnings ps

  unfoldable pub records_without_events : List (Artifact × StoredRecord) → ℕ
  records_without_events [] = 0
  records_without_events (p ∷ ps) =
      let rest = records_without_events ps in
      if is_empty (normalized p).events then rest + 1 else rest

  abbrev pub inserted : List TimelineEvent → Tables → Tables
  inserted values t = record t { timeline_events = (insert_events values t.timeline_events 0).0 }

  -- how many of the values are new
  abbrev pub created_in : List TimelineEvent → Tables → ℕ
  created_in values t = (insert_events values t.timeline_events 0).1

  -- one statement, which is left out where there is nothing to insert
  unfoldable pub insert_values : List TimelineEvent → Action ℕ
  insert_values [] = pure 0
  insert_values (v ∷ vs) = do
    created ← query (created_in (v ∷ vs))
    write (inserted (v ∷ vs))
    pure created

  abbrev pub generated_stats :
      List Artifact → List (Artifact × StoredRecord) → ℕ → TimelineGenerationStats
  generated_stats as_ rs created = record {
    case_id = case_id;
    artifacts_considered = length as_;
    records_considered = length rs;
    events_created = created;
    events_skipped = length (values_of rs 0) - created + records_without_events rs;
    warnings = artifact_warnings as_ ++ record_warnings rs;
    unsupported_artifact_types = unsupported_types as_;
  }

  abbrev pub generated_event : TimelineGenerationStats → AuditEvent
  generated_event stats = record {
    case_id = case_id;
    action =
        timeline_generated stats.artifacts_considered stats.records_considered stats.events_created
          stats.events_skipped (length stats.warnings) stats.unsupported_artifact_types;
  }

  -- the body of the try block; the backfill starts with a query
  unfoldable pub generate_body :
      List Artifact → List (Artifact × StoredRecord) → Action TimelineGenerationStats
  generate_body as_ rs = do
    created ← insert_values (values_of rs 0)
    rows ← query (λ (t : Tables). t.timeline_events)
    write (backfill o.python.casefold case_id)
    add_audit (generated_event (generated_stats as_ rs created))
    commit
    pure (generated_stats as_ rs created)

  unfoldable pub generate_from :
      List Artifact → List (Artifact × StoredRecord) → Action TimelineGenerationStats
  generate_from as_ rs s =
      guarded (lit "Timeline generation persistence failed") (generate_body as_ rs s)

  abbrev pub artifacts_in : Tables → List Artifact
  artifacts_in t = o.order_artifacts (case_artifacts case_id t.evidence t.artifacts)

  abbrev pub records_in : Tables → List StoredRecord
  records_in t = o.order_records (case_records case_id t.evidence t.artifacts t.artifact_records)

  abbrev pub pairs_in : Tables → Result ServiceError (List (Artifact × StoredRecord))
  pairs_in t = with_artifacts (artifacts_in t) (records_in t)

  unfoldable pub generate_for : Case → Action TimelineGenerationStats
  generate_for c = do
    as_ ← query artifacts_in
    rs ← query records_in
    pairs ← of_result (with_artifacts as_ rs)
    generate_from as_ pairs

  unfoldable pub generate : Action TimelineGenerationStats
  generate = do c ← get_for_update case_id; generate_for c
