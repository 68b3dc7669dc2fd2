-- ===== src/Services/Cases.antt =====
-- `CaseService` of backend/app/services/case_service.py. The reading of the clock and the fresh
-- identifier that a call makes are its arguments.
pub mod Lifecycle
pub mod History
pub mod Outcomes
mod Tests
use dfir_investigation_workb.Services.Session.{
  Action, AuditAction, Case, Session, add_audit, add_case, case_archived, case_closed, case_created,
  case_updated, commit, conflict, flush, guarded, infrastructure, next_case_number, not_found, pure,
  raise, refresh, rolled_back, save_case, select_case, sqlalchemy_error, ◌>>=◌, ◌>>◌,
}
use dfir_investigation_workb.Prelude.{
  Datetime, List, Option, String, Text, [], decimal, if◌then◌else◌, lit, ltb, none, not, some,
  year_of, ℕ, ◌++◌, ◌+◌, ◌∷◌,
}
use dfir_investigation_workb.Domain.{CaseStatus, case_status_is}

pub record CaseCreate : Type 0 where
  pub name : Text
  pub description : Option Text
  pub investigator : Option Text

-- The fields that the client has set, `exclude_unset`; a set field may be null.
pub record CaseUpdate : Type 0 where
  pub name : Option (Option Text)
  pub description : Option (Option Text)
  pub investigator : Option (Option Text)

-- `f"{value:04d}"`
unfoldable pub four_digits : ℕ → Text
four_digits n =
    let digits = decimal n in
    if ltb n 10
    then lit "000" ++ digits
    else if ltb n 100
    then lit "00" ++ digits
    else if ltb n 1000
    then lit "0" ++ digits
    else digits

unfoldable pub case_number : Datetime → ℕ → Text
case_number now value = lit "CASE-" ++ (decimal (year_of now) ++ (lit "-" ++ four_digits value))

unfoldable pub or_infrastructure : Option ℕ → Action ℕ
or_infrastructure none = raise (infrastructure (lit "Case number sequence returned no value"))
or_infrastructure (some value) = pure value

-- the body of the try block of `create`
unfoldable pub create_body : Datetime → ℕ → CaseCreate → Action Case
create_body now fresh payload = do
  answer ← next_case_number
  value ← or_infrastructure answer
  let row : Case = record {
    id = fresh;
    case_number = case_number now value;
    name = some payload.name;
    description = payload.description;
    investigator = payload.investigator;
    status = CaseStatus.open_case;
    updated_at = now;
  }
  add_case row
  flush
  add_audit (record { case_id = fresh; action = case_created (case_number now value) })
  commit
  refresh
  pure row

unfoldable pub create : Datetime → ℕ → CaseCreate → Action Case
create now fresh payload s = guarded (lit "Case creation failed") (create_body now fresh payload s)

unfoldable pub or_not_found : Option Case → Action Case
or_not_found none = raise (not_found (lit "Case was not found"))
or_not_found (some c) = pure c

-- `get` and `_get_for_update`
unfoldable pub get_for_update : ℕ → Action Case
get_for_update i = do found ← select_case i; or_not_found found

-- `_next_updated_at`
unfoldable pub next_updated_at : Datetime → Datetime → Datetime
next_updated_at now current = if ltb current now then now else current + 1

abbrev pub or_old {ℓ} : {A : Type ℓ} → Option A → A → A
or_old none old = old
or_old (some v) old = v

abbrev pub field_name {ℓ} : {A : Type ℓ} → Option A → String → List Text → List Text
field_name none name rest = rest
field_name (some v) name rest = lit name ∷ rest

-- `sorted(changes)`
abbrev pub updated_fields : CaseUpdate → List Text
updated_fields p =
    field_name p.description "description"
      (field_name p.investigator "investigator" (field_name p.name "name" []))

abbrev pub updated_row : Datetime → CaseUpdate → Case → Case
updated_row now p c = record c {
  name = or_old p.name c.name;
  description = or_old p.description c.description;
  investigator = or_old p.investigator c.investigator;
  updated_at = next_updated_at now c.updated_at;
}

-- the body of the try blocks: the row, the audit event, the commit
unfoldable pub record_change : Case → AuditAction → Action Case
record_change row action = do
  save_case row
  add_audit (record { case_id = row.id; action = action })
  commit
  refresh
  pure row

unfoldable pub apply_update : Datetime → CaseUpdate → Case → Action Case
apply_update now p c s =
    guarded (lit "Case update failed")
      (record_change (updated_row now p c) (case_updated (updated_fields p)) s)

unfoldable pub update : Datetime → ℕ → CaseUpdate → Action Case
update now i p = do c ← get_for_update i; apply_update now p c

unfoldable pub status_value : CaseStatus → Text
status_value CaseStatus.open_case = lit "OPEN"
status_value CaseStatus.closed = lit "CLOSED"
status_value CaseStatus.archived = lit "ARCHIVED"

unfoldable pub conflict_text : CaseStatus → CaseStatus → Text
conflict_text from target =
    lit "Case cannot transition from " ++ (status_value from ++ (lit " to " ++ status_value target))

-- the row of a case with its new status
abbrev pub moved_row : Datetime → CaseStatus → Case → Case
moved_row now target c = record c { status = target; updated_at = next_updated_at now c.updated_at }

-- The rollback has expired the row, so that reading `case.status` for the message loads it again.
unfoldable pub refuse_reloaded : CaseStatus → Option Case → Action Case
refuse_reloaded target none = raise sqlalchemy_error
refuse_reloaded target (some d) = raise (conflict (conflict_text d.status target))

unfoldable pub refuse : CaseStatus → Case → Action Case
refuse target c = do reloaded ← select_case c.id; refuse_reloaded target reloaded

-- `_transition` behind the query
unfoldable pub move_case :
    Datetime
    → CaseStatus
    → CaseStatus
    → (CaseStatus → CaseStatus → AuditAction)
    → Case
    → Action Case
move_case now expected target action c s =
    if not (case_status_is c.status expected)
    then refuse target c (rolled_back s)
    else guarded (lit "Case lifecycle transition failed")
        (record_change (moved_row now target c) (action c.status target) s)

unfoldable pub transition :
    Datetime → ℕ → CaseStatus → CaseStatus → (CaseStatus → CaseStatus → AuditAction) → Action Case
transition now i expected target action = do
  c ← get_for_update i
  move_case now expected target action c

unfoldable pub close : Datetime → ℕ → Action Case
close now i = transition now i CaseStatus.open_case CaseStatus.closed case_closed

unfoldable pub archive : Datetime → ℕ → Action Case
archive now i = transition now i CaseStatus.closed CaseStatus.archived case_archived

-- A request of the case routes, and the clock reading and identifier that serving it takes.
pub data Request : Type 0 where
  create_case : Datetime → ℕ → CaseCreate → Request
  update_case : Datetime → ℕ → CaseUpdate → Request
  close_case archive_case : Datetime → ℕ → Request

unfoldable pub handle : Request → Action Case
handle (create_case now fresh payload) = create now fresh payload
handle (update_case now i p) = update now i p
handle (close_case now i) = close now i
handle (archive_case now i) = archive now i

-- Each request has a session of its own, which sees what is stored, and closes without a commit.
unfoldable pub serve : Session → List Request → Session
serve s [] = s
serve s (r ∷ rest) = serve (rolled_back (handle r (rolled_back s)).1) rest
