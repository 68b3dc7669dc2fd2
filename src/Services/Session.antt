-- ===== src/Services/Session.antt =====
-- The database session that the services of backend/app/services work in, the errors of
-- backend/app/core/exceptions.py, and the rows that backend/app/db/models keeps.
pub mod Rules
pub mod Quiet
use dfir_investigation_workb.Prelude.{
  Bool, Datetime, List, Option, Result, Text, [], err, false, if◌then◌else◌, none, ok, some, true,
  ℕ, ℤ, ◌++◌, ◌+◌, ◌==◌, ◌||◌, ◌∷◌,
}
use dfir_investigation_workb.Domain.{
  ArtifactType, CaseStatus, CorrelationRunStatus, FindingConfidence, FindingSeverity, FindingStatus,
  FindingType,
}
use dfir_investigation_workb.Correlation.Events.{TimelineEvent}
use dfir_investigation_workb.Timeline.Normalizer.{ArtifactRecord}

pub record Case : Type 0 where
  pub id : ℕ
  pub case_number : Text
  -- NULL is refused by the database
  pub name : Option Text
  pub description : Option Text
  pub investigator : Option Text
  pub status : CaseStatus
  pub updated_at : Datetime

-- the columns that the timeline service reads
pub record Evidence : Type 0 where
  pub id : ℕ
  pub case_id : ℕ

pub record Artifact : Type 0 where
  pub id : ℕ
  pub evidence_id : ℕ
  pub artifact_type : ArtifactType
  pub warnings : List Text

pub record StoredRecord : Type 0 where
  pub id : ℕ
  pub artifact_id : ℕ
  pub content : ArtifactRecord

pub record CorrelationRun : Type 0 where
  pub id : ℕ
  pub case_id : ℕ
  pub started_at : Datetime
  pub completed_at : Option Datetime
  pub status : CorrelationRunStatus
  pub rule_set_version : Text
  pub temporal_window_seconds : ℕ
  pub event_count : ℕ
  pub matched_count : ℕ
  pub finding_count : ℕ
  -- the identifier, the version and the name of each rule
  pub rules_evaluated : List (Text × Text × Text)
  pub warnings : List Text
  pub errors : List Text

pub record CorrelationMatch : Type 0 where
  pub id : ℕ
  pub correlation_run_id : ℕ
  pub case_id : ℕ
  pub rule_id : Text
  pub rule_version : Text
  pub deterministic_key : Text
  pub temporal_delta : ℕ
  pub match_basis : Text
  -- `metadata_`
  pub matched_fields : List Text
  pub normalized_identity : Text
  pub temporal_window_seconds : ℕ
  pub signed_delta : ℤ
  pub event_a_time : Option Datetime
  pub event_b_time : Option Datetime

pub record CorrelationMatchEvent : Type 0 where
  pub correlation_match_id : ℕ
  -- the text of the identifier
  pub timeline_event_id : Text
  pub event_role : Text
  pub event_order : ℕ

-- `created_at`, which nothing changes, is left out.
pub record Finding : Type 0 where
  pub id : ℕ
  pub case_id : ℕ
  pub correlation_run_id : ℕ
  pub correlation_match_id : ℕ
  pub finding_type : FindingType
  pub status : FindingStatus
  pub severity : FindingSeverity
  pub confidence : FindingConfidence
  pub rule_id : Text
  pub rule_version : Text
  pub deterministic_key : Text
  pub analyst_notes : Option Text
  -- `metadata_`
  pub match_basis : Text
  pub updated_at : Datetime

-- What `AuditEvent.action` says, with its `details`.
pub data AuditAction : Type 0 where
  -- the finding, its match, the rule and its version
  finding_created : ℕ → ℕ → Text → Text → AuditAction
  -- the finding and the updated fields, in alphabetical order
  finding_updated : ℕ → List Text → AuditAction
  finding_status_changed : ℕ → FindingStatus → FindingStatus → AuditAction
  -- how many artifacts, records, events created, events skipped and warnings, and the types left out
  timeline_generated : ℕ → ℕ → ℕ → ℕ → ℕ → List ArtifactType → AuditAction
  -- the run, the version of the rules, the rules with their versions, and how many events, matches,
  -- findings and warnings
  correlation_run : ℕ → Text → List (Text × Text) → ℕ → ℕ → ℕ → ℕ → AuditAction
  case_created : Text → AuditAction
  -- the updated fields, in alphabetical order
  case_updated : List Text → AuditAction
  case_closed case_archived : CaseStatus → CaseStatus → AuditAction

-- The actor is LOCAL_APPLICATION in every row.
pub record AuditEvent : Type 0 where
  pub case_id : ℕ
  pub action : AuditAction

pub record Tables : Type 0 where
  pub cases : List Case
  pub audit_events : List AuditEvent
  pub evidence : List Evidence
  pub artifacts : List Artifact
  pub artifact_records : List StoredRecord
  pub timeline_events : List TimelineEvent
  pub correlation_runs : List CorrelationRun
  pub correlation_matches : List CorrelationMatch
  pub match_events : List CorrelationMatchEvent
  pub findings : List Finding

-- What the database answers to a statement: it carries it out, or SQLAlchemy raises; a scalar
-- query may return no value.
pub data Answer : Type 0 where
  carried_out raises no_value : Answer

-- A session. `stored` is what is committed, `working` what the transaction sees; the sequence is
-- not part of the transaction. `answers` are the database's to the next statements; when they run
-- out, every statement is carried out.
pub record Session : Type 0 where
  pub stored : Tables
  pub working : Tables
  pub case_number_seq : ℕ
  pub answers : List Answer

pub data ServiceError : Type 0 where
  not_found conflict infrastructure : Text → ServiceError
  sqlalchemy_error : ServiceError
  -- Python's KeyError, AssertionError and TypeError
  key_error assertion_error type_error : ServiceError

-- A method that works in a session: what was changed stays changed when it raises.
abbrev pub Action {ℓ} : Type ℓ → Type ℓ
Action A = Session → Result ServiceError A × Session

module _ {ℓ} {A : Type ℓ} where
  abbrev pub pure : A → Action A
  pure a s = (ok a, s)

  abbrev pub raise : ServiceError → Action A
  raise e s = (err e, s)

-- A computation outside the database, which returns or raises.
abbrev pub of_result {ℓ} : {A : Type ℓ} → Result ServiceError A → Action A
of_result r s = (r, s)

-- What follows a call, on what the call returned.
abbrev pub after {ℓ κ} :
    {A : Type ℓ} {B : Type κ}
    → Result ServiceError A × Session
    → (A → Action B)
    → Result ServiceError B × Session
after (ok a, s) f = f a s
after (err e, s) f = (err e, s)

infixl 5 ◌>>=◌ ◌>>◌
abbrev pub ◌>>=◌ {ℓ κ} : {A : Type ℓ} {B : Type κ} → Action A → (A → Action B) → Action B
◌>>=◌ m f s = after (m s) f

abbrev pub ◌>>◌ {κ} : {B : Type κ} → Action (Unit {0}) → Action B → Action B
◌>>◌ m k s = after (m s) (λ _. k)

-- One statement takes one answer; `do_it` is what it does when it is carried out.
abbrev next_answer : List Answer → Answer
next_answer [] = carried_out
next_answer (a ∷ rest) = a

abbrev later_answers : List Answer → List Answer
later_answers [] = []
later_answers (a ∷ rest) = rest

abbrev pub answered : Session → Session
answered s = record s { answers = later_answers s.answers }

unfoldable pub raises_now : Session → Bool
raises_now s = elim (next_answer s.answers) [ Answer.raises ↦ true | _ ↦ false ]

-- the rows that a NOT NULL constraint refuses
abbrev pub has_unnamed : List Case → Bool
has_unnamed [] = false
has_unnamed (c ∷ cs) = elim c.name [ none ↦ true | some n ↦ has_unnamed cs ]

-- `session.flush()`: the constraints are checked
unfoldable pub flush : Action (Unit {0})
flush s =
    if raises_now s || has_unnamed s.working.cases
    then (err sqlalchemy_error, answered s)
    else (ok tt, answered s)

-- the row with an id
unfoldable pub find_case : ℕ → List Case → Option Case
find_case i [] = none
find_case i (c ∷ cs) = if c.id == i then some c else find_case i cs

-- `session.refresh(row)`
unfoldable pub refresh : Action (Unit {0})
refresh s = if raises_now s then (err sqlalchemy_error, answered s) else (ok tt, answered s)

-- `session.scalar(select(Case).where(Case.id == case_id))`, locked or not
unfoldable pub select_case : ℕ → Action (Option Case)
select_case i s =
    if raises_now s
    then (err sqlalchemy_error, answered s)
    else (ok (find_case i s.working.cases), answered s)

-- any other query, on what the transaction sees
unfoldable pub query {ℓ} : {A : Type ℓ} → (Tables → A) → Action A
query read s =
    if raises_now s then (err sqlalchemy_error, answered s) else (ok (read s.working), answered s)

-- A change of the working tables, which waits for the next flush.
abbrev pub write : (Tables → Tables) → Action (Unit {0})
write change s = (ok tt, record s { working = change s.working })

-- `session.commit()`
unfoldable pub commit : Action (Unit {0})
commit s =
    if raises_now s || has_unnamed s.working.cases
    then (err sqlalchemy_error, answered s)
    else (ok tt, record (answered s) { stored = s.working })

-- `session.scalar(CASE_NUMBER_SEQUENCE.next_value())`
unfoldable pub next_case_number : Action (Option ℕ)
next_case_number s = elim (next_answer s.answers) [
  | Answer.carried_out ↦ (
    ok (some (s.case_number_seq + 1)),
    record (answered s) { case_number_seq = s.case_number_seq + 1 },
  )
  | Answer.no_value ↦ (ok none, answered s)
  | Answer.raises ↦ (err sqlalchemy_error, answered s)
]

-- the row is replaced by what the session holds for its id
unfoldable pub replace_case : Case → List Case → List Case
replace_case c [] = []
replace_case c (d ∷ ds) = if d.id == c.id then c ∷ ds else d ∷ replace_case c ds

abbrev pub save_case : Case → Action (Unit {0})
save_case c s =
    (ok tt, record s { working = record s.working { cases = replace_case c s.working.cases } })

abbrev pub add_case : Case → Action (Unit {0})
add_case c s =
    (ok tt, record s { working = record s.working { cases = s.working.cases ++ c ∷ [] } })

abbrev pub add_audit : AuditEvent → Action (Unit {0})
add_audit e s = (
  ok tt,
  record s { working = record s.working { audit_events = s.working.audit_events ++ e ∷ [] } },
)

-- `session.rollback()`
abbrev pub rolled_back : Session → Session
rolled_back s = record s { working = s.stored }

-- `try: body except SQLAlchemyError: session.rollback(); raise InfrastructureError(message)`
abbrev pub guarded {ℓ} :
    {A : Type ℓ} → Text → Result ServiceError A × Session → Result ServiceError A × Session
guarded message (ok a, s) = (ok a, s)
guarded message (err sqlalchemy_error, s) = (err (infrastructure message), rolled_back s)
guarded message (err (not_found m), s) = (err (not_found m), s)
guarded message (err (conflict m), s) = (err (conflict m), s)
guarded message (err (infrastructure m), s) = (err (infrastructure m), s)
guarded message (err key_error, s) = (err key_error, s)
guarded message (err assertion_error, s) = (err assertion_error, s)
guarded message (err type_error, s) = (err type_error, s)
