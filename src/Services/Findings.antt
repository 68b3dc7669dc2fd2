-- ===== src/Services/Findings.antt =====
-- The findings of `CorrelationService` in backend/app/services/correlation_service.py: reading one
-- and `update_finding`.
pub mod Transitions
mod Tests
use dfir_investigation_workb.Services.Session.{
  Action, Finding, Tables, add_audit, commit, conflict, finding_status_changed, finding_updated,
  guarded, not_found, pure, query, raise, write, ◌>>=◌, ◌>>◌,
}
use dfir_investigation_workb.Prelude.{
  Bool, Datetime, List, Option, String, Text, [], false, if◌then◌else◌, lit, none, some, text_eq,
  true, ℕ, ◌&&◌, ◌++◌, ◌==◌, ◌∷◌,
}
use dfir_investigation_workb.Domain.{
  FindingConfidence, FindingSeverity, FindingStatus, finding_confidence_is, finding_severity_is,
  finding_status_is,
}

-- The fields that the client has set; a set field may be null.
pub record FindingUpdate : Type 0 where
  pub status : Option (Option FindingStatus)
  pub severity : Option (Option FindingSeverity)
  pub confidence : Option (Option FindingConfidence)
  pub analyst_notes : Option (Option Text)

-- a field that is not set is None, like one that is null
abbrev pub requested {ℓ} : {A : Type ℓ} → Option (Option A) → Option A
requested none = none
requested (some v) = v

abbrev pub unless_none {ℓ} : {A : Type ℓ} → Option A → A → A
unless_none none old = old
unless_none (some v) old = v

abbrev pub set_name {ℓ} : {A : Type ℓ} → Option A → String → List Text → List Text
set_name none name rest = rest
set_name (some v) name rest = lit name ∷ rest

-- `sorted(payload.model_fields_set)`
abbrev pub set_fields : FindingUpdate → List Text
set_fields p = set_name p.analyst_notes "analyst_notes" (
    set_name p.confidence "confidence"
      (set_name p.severity "severity" (set_name p.status "status" [])))

-- `VALID_FINDING_TRANSITIONS`
unfoldable pub may_become : FindingStatus → FindingStatus → Bool
may_become FindingStatus.open_finding FindingStatus.reviewed = true
may_become FindingStatus.open_finding FindingStatus.dismissed = true
may_become FindingStatus.reviewed FindingStatus.resolved = true
may_become FindingStatus.reviewed FindingStatus.dismissed = true
may_become _ _ = false

unfoldable pub finding_status_value : FindingStatus → Text
finding_status_value FindingStatus.open_finding = lit "OPEN"
finding_status_value FindingStatus.reviewed = lit "REVIEWED"
finding_status_value FindingStatus.resolved = lit "RESOLVED"
finding_status_value FindingStatus.dismissed = lit "DISMISSED"

unfoldable pub finding_conflict : FindingStatus → FindingStatus → Text
finding_conflict from target =
    lit "Finding cannot transition from "
    ++ (finding_status_value from ++ (lit " to " ++ finding_status_value target))

-- the status behind the check of the transition
unfoldable pub checked_status : FindingStatus → Option FindingStatus → Action FindingStatus
checked_status old none = pure old
checked_status old (some new) =
    if finding_status_is new old
    then pure old
    else if may_become old new
    then pure new
    else raise (conflict (finding_conflict old new))

unfoldable pub find_finding : ℕ → List Finding → Option Finding
find_finding i [] = none
find_finding i (f ∷ fs) = if f.id == i then some f else find_finding i fs

unfoldable pub replace_finding : Finding → List Finding → List Finding
replace_finding row [] = []
replace_finding row (f ∷ fs) = if f.id == row.id then row ∷ fs else f ∷ replace_finding row fs

unfoldable pub finding_or_not_found : Option Finding → Action Finding
finding_or_not_found none = raise (not_found (lit "Finding was not found"))
finding_or_not_found (some f) = pure f

unfoldable pub get_finding : ℕ → Action Finding
get_finding i = do
  found ← query (λ (t : Tables). find_finding i t.findings)
  finding_or_not_found found

-- the row with the fields that are set
abbrev pub assigned_finding : FindingStatus → FindingUpdate → Finding → Finding
assigned_finding status p f = record f {
  status = status;
  severity = unless_none (requested p.severity) f.severity;
  confidence = unless_none (requested p.confidence) f.confidence;
  analyst_notes = unless_none p.analyst_notes f.analyst_notes;
}

abbrev pub same_notes : Option Text → Option Text → Bool
same_notes none none = true
same_notes (some a) (some b) = text_eq a b
same_notes _ _ = false

-- No attribute has a new value, so that the flush writes no UPDATE.
abbrev pub is_unchanged : Finding → Finding → Bool
is_unchanged row f =
    finding_status_is row.status f.status
    && finding_severity_is row.severity f.severity
    && finding_confidence_is row.confidence f.confidence
    && same_notes row.analyst_notes f.analyst_notes

-- The row as an UPDATE leaves it: `onupdate=func.now()` of the mixin sets `updated_at` to the
-- database's time.
unfoldable pub updated_finding : Datetime → FindingStatus → FindingUpdate → Finding → Finding
updated_finding now status p f =
    let row = assigned_finding status p f in
    if is_unchanged row f then f else record row { updated_at = now }

abbrev pub save_finding : Finding → Tables → Tables
save_finding row t = record t { findings = replace_finding row t.findings }

-- the second audit event, on a change of the status
unfoldable pub audit_status : FindingStatus → Finding → Action (Unit {0})
audit_status old row =
    if finding_status_is row.status old
    then pure tt
    else add_audit
        (record { case_id = row.case_id; action = finding_status_changed row.id old row.status })

-- the body of the try block
unfoldable pub record_finding : FindingStatus → List Text → Finding → Action Finding
record_finding old fields row = do
  write (save_finding row)
  add_audit (record { case_id = row.case_id; action = finding_updated row.id fields })
  audit_status old row
  commit
  get_finding row.id

unfoldable pub apply_finding_update :
    Datetime → FindingUpdate → Finding → FindingStatus → Action Finding
apply_finding_update now p f status s =
    guarded (lit "Finding update persistence failed")
      (record_finding f.status (set_fields p) (updated_finding now status p f) s)

-- `update_finding` behind the query
unfoldable pub change_finding : Datetime → FindingUpdate → Finding → Action Finding
change_finding now p f = do
  status ← checked_status f.status (requested p.status)
  apply_finding_update now p f status

-- `now` is the time of the database.
unfoldable pub update_finding : Datetime → ℕ → FindingUpdate → Action Finding
update_finding now i p = do f ← get_finding i; change_finding now p f
