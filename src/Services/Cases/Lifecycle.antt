-- ===== src/Services/Cases/Lifecycle.antt =====
-- Each request of the case service as one step of the stored tables: nothing, or a row together
-- with its audit event, where a status only moves from open to closed and from closed to archived.
use dfir_investigation_workb.Services.Session.{
  Action, AuditAction, Case, Session, Tables, after, answered, case_archived, case_closed,
  case_created, case_updated, commit, find_case, flush, guarded, next_case_number, not_found,
  raises_now, refresh, replace_case, rolled_back, select_case, sqlalchemy_error,
}
use dfir_investigation_workb.Prelude.{
  Bool-cases, Datetime, List, Option-cases, Text, [], ap, arith, err, false, inl, inr, lit, none,
  ok, refl, some, sym, true, ℕ, ◌++◌, ◌+◌, ◌<◌, ◌∙◌, ◌∷◌, ◌≡◌, ◌⊎◌,
}
use dfir_investigation_workb.Domain.{CaseStatus, case_status_is}
use dfir_investigation_workb.Services.Cases.{
  CaseCreate, CaseUpdate, Request, apply_update, archive, archive_case, case_number, close,
  close_case, create, create_body, create_case, get_for_update, handle, move_case, moved_row,
  next_updated_at, or_infrastructure, or_not_found, record_change, refuse, refuse_reloaded,
  transition, update, update_case, updated_fields, updated_row,
}

-- A row is replaced and an event is appended to the audit trail, in one commit.
abbrev pub changed : Tables → Case → AuditAction → Tables
changed t row action = record t {
  cases = replace_case row t.cases;
  audit_events = t.audit_events ++ record { case_id = row.id; action = action } ∷ [];
}

abbrev pub appended : Tables → Case → AuditAction → Tables
appended t row action = record t {
  cases = t.cases ++ row ∷ [];
  audit_events = t.audit_events ++ record { case_id = row.id; action = action } ∷ [];
}

-- The moves of the lifecycle, with the event that records each.
pub data Moves : CaseStatus → CaseStatus → AuditAction → Type 0 where
  closing :
      {a b : CaseStatus} {e : AuditAction}
      → a ≡ CaseStatus.open_case
      → b ≡ CaseStatus.closed
      → e ≡ case_closed a b
      → Moves a b e
  archiving :
      {a b : CaseStatus} {e : AuditAction}
      → a ≡ CaseStatus.closed
      → b ≡ CaseStatus.archived
      → e ≡ case_archived a b
      → Moves a b e

-- What one request may do to the stored tables.
pub data Step (t t' : Tables) : Type 0 where
  stays : t' ≡ t → Step t t'
  creates :
      (row : Case) (number : Text)
      → row.status ≡ CaseStatus.open_case
      → t' ≡ appended t row (case_created number)
      → Step t t'
  updates :
      (i : ℕ) (c row : Case) (fields : List Text)
      → find_case i t.cases ≡ some c
      → row.id ≡ c.id
      → row.status ≡ c.status
      → c.updated_at < row.updated_at
      → t' ≡ changed t row (case_updated fields)
      → Step t t'
  moves :
      (i : ℕ) (c row : Case) (action : AuditAction)
      → find_case i t.cases ≡ some c
      → row.id ≡ c.id
      → Moves c.status row.status action
      → c.updated_at < row.updated_at
      → t' ≡ changed t row action
      → Step t t'

-- What a change leaves in `stored`: all of it or nothing of it.
record_change-atomic :
    (row : Case) (action : AuditAction) (message : Text) (s : Session)
    → s.working ≡ s.stored
    → ((guarded message (record_change row action s)).1.stored ≡ s.stored)
      ⊎ ((guarded message (record_change row action s)).1.stored ≡ changed s.stored row action)
unfolding record_change commit refresh
record_change-atomic row action message s fresh = ground arith

next_updated_at-lt : (now current : Datetime) → current < next_updated_at now current
unfolding next_updated_at
next_updated_at-lt now current = ground arith

-- The three answers of the query.
pub get_for_update-raises :
    (i : ℕ) (s : Session)
    → raises_now s ≡ true
    → get_for_update i s ≡ (err sqlalchemy_error, answered s)
unfolding get_for_update select_case
get_for_update-raises i s h = rw h

pub get_for_update-missing :
    (i : ℕ) (s : Session)
    → raises_now s ≡ false
    → find_case i s.working.cases ≡ none
    → get_for_update i s ≡ (err (not_found (lit "Case was not found")), answered s)
unfolding get_for_update select_case or_not_found
get_for_update-missing i s h1 h2 = rw (h1, h2)

pub get_for_update-found :
    (i : ℕ) (s : Session) (c : Case)
    → raises_now s ≡ false
    → find_case i s.working.cases ≡ some c
    → get_for_update i s ≡ (ok c, answered s)
unfolding get_for_update select_case or_not_found
get_for_update-found i s c h1 h2 = rw (h1, h2)

abbrev new_row : Datetime → ℕ → ℕ → CaseCreate → Case
new_row now fresh_id value payload = record {
  id = fresh_id;
  case_number = case_number now value;
  name = some payload.name;
  description = payload.description;
  investigator = payload.investigator;
  status = CaseStatus.open_case;
  updated_at = now;
}

create-atomic :
    (now : Datetime) (fresh_id : ℕ) (payload : CaseCreate) (s : Session)
    → s.working ≡ s.stored
    → ((create now fresh_id payload s).1.stored ≡ s.stored)
      ⊎ ((create now fresh_id payload s).1.stored
          ≡ appended s.stored
              (new_row now fresh_id (s.case_number_seq + 1) payload)
              (case_created (case_number now (s.case_number_seq + 1))))
unfolding create create_body next_case_number or_infrastructure flush commit refresh
create-atomic now fresh_id payload s fresh = ground arith

create-Step :
    (now : Datetime) (fresh_id : ℕ) (payload : CaseCreate) (s : Session)
    → s.working ≡ s.stored
    → Step s.stored (create now fresh_id payload s).1.stored
create-Step now fresh_id payload s fresh = elim (create-atomic now fresh_id payload s fresh) [
  | inl kept ↦ stays kept
  | inr done ↦
      creates (new_row now fresh_id (s.case_number_seq + 1) payload)
        (case_number now (s.case_number_seq + 1)) refl done
]

apply_update-Step :
    (now : Datetime) (i : ℕ) (p : CaseUpdate) (c : Case) (s : Session)
    → find_case i s.stored.cases ≡ some c
    → s.working ≡ s.stored
    → Step s.stored (apply_update now p c s).1.stored
unfolding apply_update
apply_update-Step now i p c s found fresh =
    elim (record_change-atomic (updated_row now p c) (case_updated (updated_fields p))
      (lit "Case update failed") s fresh) [
        | inl kept ↦ stays kept
        | inr done ↦
            updates i c (updated_row now p c) (updated_fields p) found refl refl
              (next_updated_at-lt now c.updated_at) done
      ]

is_open : (a : CaseStatus) → case_status_is a CaseStatus.open_case ≡ true → a ≡ CaseStatus.open_case
is_open a h = ground arith

is_closed : (a : CaseStatus) → case_status_is a CaseStatus.closed ≡ true → a ≡ CaseStatus.closed
is_closed a h = ground arith

refuse-stored :
    (target : CaseStatus) (c : Case) (s : Session) → (refuse target c s).1.stored ≡ s.stored
unfolding refuse refuse_reloaded select_case
refuse-stored target c s = ground arith

-- The guard of a transition compares with the one status that it may leave.
move_case-Step :
    (now : Datetime) (i : ℕ) (expected target : CaseStatus)
    (action : CaseStatus → CaseStatus → AuditAction) (c : Case) (s : Session)
    → ((a : CaseStatus) → case_status_is a expected ≡ true → Moves a target (action a target))
    → find_case i s.stored.cases ≡ some c
    → s.working ≡ s.stored
    → Step s.stored (move_case now expected target action c s).1.stored
unfolding move_case
move_case-Step now i expected target action c s legal found fresh =
    elim (Bool-cases (case_status_is c.status expected)) [
      | inl allowed ↦
          elim (record_change-atomic (moved_row now target c) (action c.status target)
            (lit "Case lifecycle transition failed") s fresh) [
              | inl kept ↦ stays (rw allowed kept)
              | inr done ↦
                  moves i c (moved_row now target c) (action c.status target) found refl
                    (legal c.status allowed) (next_updated_at-lt now c.updated_at) (rw allowed done)
            ]
      | inr refused ↦ stays (rw refused (refuse-stored target c (rolled_back s)))
    ]

module _ (i : ℕ) (s : Session) (fresh : s.working ≡ s.stored) (f : Case → Action Case) where
  -- A method that reads its case first does nothing to the tables if there is none.
  after-get :
      ((c : Case) → find_case i s.stored.cases ≡ some c → Step s.stored (f c (answered s)).1.stored)
      → Step s.stored (after (get_for_update i s) f).1.stored
  after-get each = elim (Bool-cases (raises_now s)) [
    | inl failing ↦ rw (get_for_update-raises i s failing) (stays refl)
    | inr fine ↦ elim (Option-cases (find_case i s.working.cases)) [
      | inl missing ↦ rw (get_for_update-missing i s fine missing) (stays refl)
      | inr (c, found) ↦
          rw (get_for_update-found i s c fine found)
            (each c (ap (λ (t : Tables). find_case i t.cases) (sym fresh) ∙ found))
    ]
  ]

-- What serving one request in a fresh session, whose transaction sees what is stored, does to the
-- stored tables, whatever the database answers to each of its statements, is one step of the
-- lifecycle: nothing, or in one commit a new open case, new metadata with the status kept, or a
-- move from open to closed or from closed to archived, each with exactly one event at the end of
-- the audit trail; a change or a move of a case comes with a later `updated_at`.
pub handle-Step :
    (r : Request) (s : Session) → s.working ≡ s.stored → Step s.stored (handle r s).1.stored
unfolding handle update close archive transition
handle-Step (create_case now fresh_id payload) s fresh = create-Step now fresh_id payload s fresh
handle-Step (update_case now i p) s fresh =
    after-get i s fresh (apply_update now p)
      (λ c found. apply_update-Step now i p c (answered s) found fresh)
handle-Step (close_case now i) s fresh =
    after-get i s fresh (move_case now CaseStatus.open_case CaseStatus.closed case_closed)
      (λ c found.
        move_case-Step now i CaseStatus.open_case CaseStatus.closed case_closed c (answered s)
          (λ a h. closing (is_open a h) refl refl) found fresh)
handle-Step (archive_case now i) s fresh =
    after-get i s fresh (move_case now CaseStatus.closed CaseStatus.archived case_archived)
      (λ c found.
        move_case-Step now i CaseStatus.closed CaseStatus.archived case_archived c (answered s)
          (λ a h. archiving (is_closed a h) refl refl) found fresh)
