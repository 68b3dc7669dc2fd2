-- ===== src/Services/Findings/Transitions.antt =====
-- What updating a finding may do to the stored tables.
use dfir_investigation_workb.Services.Session.{
  AuditAction, Finding, ServiceError, Session, Tables, answered, commit, conflict,
  finding_status_changed, finding_updated, guarded, query, raises_now,
}
use dfir_investigation_workb.Prelude.{
  Bool, Bool-cases, Datetime, List, Option, Option-cases, Text, [], ap, arith, err, false,
  if◌then◌else◌, inl, inr, lit, none, ok, refl, some, sym, true, ℕ, ◌++◌, ◌∙◌, ◌∷◌, ◌≡◌, ◌⊎◌,
}
use dfir_investigation_workb.Domain.{FindingStatus, finding_status_is}
use dfir_investigation_workb.Services.Findings.{
  FindingUpdate, apply_finding_update, assigned_finding, audit_status, change_finding,
  checked_status, find_finding, finding_conflict, finding_or_not_found, get_finding, is_unchanged,
  may_become, record_finding, requested, save_finding, set_fields, update_finding, updated_finding,
}
use dfir_investigation_workb.Correlation.Matching.{not_both}

abbrev pub audited : Tables → ℕ → AuditAction → Tables
audited t i action = record t {
  audit_events = t.audit_events ++ record { case_id = i; action = action } ∷ [];
}

-- a finding that was updated, with the event that says so
abbrev pub recorded : Tables → Finding → List Text → Tables
recorded t row fields = audited (save_finding row t) row.case_id (finding_updated row.id fields)

-- Two findings that differ in nothing but what an examiner may change, and when it changed.
abbrev pub SameFinding : Finding → Finding → Type 0
SameFinding f g =
    record f {
      status = g.status;
      severity = g.severity;
      confidence = g.confidence;
      analyst_notes = g.analyst_notes;
      updated_at = g.updated_at;
    }
    ≡ g

-- The row is untouched, or carries the time of the change.
abbrev pub IsStamped : Datetime → Finding → Finding → Type 0
IsStamped now f g = (g ≡ f) ⊎ (g.updated_at ≡ now)

pub data FindingStep (now : Datetime) (i : ℕ) (t t' : Tables) : Type 0 where
  stays : t' ≡ t → FindingStep now i t t'
  updates :
      (f row : Finding) (fields : List Text)
      → find_finding i t.findings ≡ some f
      → SameFinding f row
      → IsStamped now f row
      → row.status ≡ f.status
      → t' ≡ recorded t row fields
      → FindingStep now i t t'
  moves :
      (f row : Finding) (fields : List Text)
      → find_finding i t.findings ≡ some f
      → SameFinding f row
      → row.updated_at ≡ now
      → may_become f.status row.status ≡ true
      → t'
        ≡ audited
            (recorded t row fields)
            row.case_id
            (finding_status_changed row.id f.status row.status)
      → FindingStep now i t t'

-- What is left in `stored` by the body of the try block.
record_finding-atomic :
    (old : FindingStatus) (fields : List Text) (row : Finding) (message : Text) (s : Session)
    → s.working ≡ s.stored
    → ((guarded message (record_finding old fields row s)).1.stored ≡ s.stored)
      ⊎ ((guarded message (record_finding old fields row s)).1.stored ≡ (
          if finding_status_is row.status old
          then recorded s.stored row fields
          else audited
              (recorded s.stored row fields)
              row.case_id
              (finding_status_changed row.id old row.status)))
unfolding record_finding audit_status commit get_finding query finding_or_not_found
record_finding-atomic old fields row message s fresh = ground arith

status_is_refl : (a : FindingStatus) → finding_status_is a a ≡ true
status_is_refl a = ground arith

-- The table of transitions has no loop.
may_become-is : (a b : FindingStatus) → may_become a b ≡ true → finding_status_is b a ≡ false
unfolding may_become
may_become-is a b h = ground arith

if_true : (b : Bool) (x y : Tables) → b ≡ true → (if b then x else y) ≡ x
if_true b x y h = rw h refl

if_false : (b : Bool) (x y : Tables) → b ≡ false → (if b then x else y) ≡ y
if_false b x y h = rw h refl

finding_status-eq : (a b : FindingStatus) → finding_status_is a b ≡ true → a ≡ b
finding_status-eq a b h = ground arith

-- The row behind the flush: the old one, or the assigned one with the time of the change.
updated_finding-cases :
    (now : Datetime) (status : FindingStatus) (p : FindingUpdate) (f : Finding)
    → ((updated_finding now status p f ≡ f) × (finding_status_is status f.status ≡ true))
      ⊎ (updated_finding now status p f ≡ record (assigned_finding status p f) { updated_at = now })
unfolding updated_finding
updated_finding-cases now status p f =
    elim (Bool-cases (is_unchanged (assigned_finding status p f) f)) [
      | inl still ↦ inl (rw still refl, ground (arith, still))
      | inr other ↦ inr (rw other refl)
    ]

module _ (now : Datetime) (i : ℕ) (p : FindingUpdate) (f : Finding) (status : FindingStatus)
    (t t' : Tables) (found : find_finding i t.findings ≡ some f) where
  kept-Step :
      status ≡ f.status
      → t' ≡ recorded t (updated_finding now status p f) (set_fields p)
      → FindingStep now i t t'
  kept-Step same done = elim (updated_finding-cases now status p f) [
    | inl (e, _) ↦
        updates f f (set_fields p) found refl (inl refl) refl
          (done ∙ ap (λ row. recorded t row (set_fields p)) e)
    | inr e ↦
        let row : Finding = record (assigned_finding status p f) { updated_at = now } in
        updates f row (set_fields p) found refl (inr refl) same
          (done ∙ ap (λ r. recorded t r (set_fields p)) e)
  ]

  moved-Step :
      may_become f.status status ≡ true
      → t'
        ≡ audited
            (recorded t (updated_finding now status p f) (set_fields p))
            (updated_finding now status p f).case_id
            (finding_status_changed
              (updated_finding now status p f).id
              f.status
              (updated_finding now status p f).status)
      → FindingStep now i t t'
  moved-Step move done = elim (updated_finding-cases now status p f) [
    | inl (e, still) ↦ elim (not_both still (may_become-is f.status status move)) [ ]
    | inr e ↦
        let row : Finding = record (assigned_finding status p f) { updated_at = now } in
        moves f row (set_fields p) found refl refl move (
          done
          ∙ ap
              (λ (r : Finding).
                audited (recorded t r (set_fields p)) r.case_id
                  (finding_status_changed r.id f.status r.status))
              e)
  ]

-- what the row's status is, whatever was assigned
updated_finding-status :
    (now : Datetime) (status : FindingStatus) (p : FindingUpdate) (f : Finding)
    → (updated_finding now status p f).status ≡ status
updated_finding-status now status p f = elim (updated_finding-cases now status p f) [
  | inl (e, same) ↦ ap (λ (r : Finding). r.status) e ∙ sym (finding_status-eq status f.status same)
  | inr e ↦ ap (λ (r : Finding). r.status) e
]

apply-Step :
    (now : Datetime) (i : ℕ) (p : FindingUpdate) (f : Finding) (status : FindingStatus)
    (s : Session)
    → find_finding i s.stored.findings ≡ some f
    → s.working ≡ s.stored
    → (status ≡ f.status) ⊎ (may_become f.status status ≡ true)
    → FindingStep now i s.stored (apply_finding_update now p f status s).1.stored
unfolding apply_finding_update
apply-Step now i p f status s found fresh legal =
    let new = updated_finding-status now status p f in
    elim (record_finding-atomic f.status (set_fields p) (updated_finding now status p f)
      (lit "Finding update persistence failed") s fresh) [
        | inl kept ↦ stays kept
        | inr done ↦ elim legal [
          | inl same ↦ kept-Step now i p f status s.stored _ found same (
              done
              ∙ if_true _ _ _
                  (ap (λ a. finding_status_is a f.status) (new ∙ same) ∙ status_is_refl f.status))
          | inr move ↦ moved-Step now i p f status s.stored _ found move (
              done
              ∙ if_false _ _ _
                  (ap (λ a. finding_status_is a f.status) new ∙ may_become-is f.status status move))
        ]
      ]

-- The check of the transition: the status is kept, or moves along the table, or the call ends.
checked_status-cases :
    (old : FindingStatus) (new : Option FindingStatus) (s : Session)
    → ((status : FindingStatus) × (checked_status old new s ≡ (ok status, s))
        × ((status ≡ old) ⊎ (may_become old status ≡ true)))
      ⊎ ((e : ServiceError) × (checked_status old new s ≡ (err e, s)))
unfolding checked_status
checked_status-cases old none s = inl (old, refl, inl refl)
checked_status-cases old (some new) s = elim (Bool-cases (finding_status_is new old)) [
  | inl same ↦ inl (old, rw same refl, inl refl)
  | inr other ↦ elim (Bool-cases (may_become old new)) [
    | inl move ↦ inl (new, rw (other, move) refl, inr move)
    | inr refused ↦ inr (conflict (finding_conflict old new), rw (other, refused) refl)
  ]
]

change-Step :
    (now : Datetime) (i : ℕ) (p : FindingUpdate) (f : Finding) (s : Session)
    → find_finding i s.stored.findings ≡ some f
    → s.working ≡ s.stored
    → FindingStep now i s.stored (change_finding now p f s).1.stored
unfolding change_finding
change-Step now i p f s found fresh = elim (checked_status-cases f.status (requested p.status) s) [
  | inl (status, same, legal) ↦ rw same (apply-Step now i p f status s found fresh legal)
  | inr (e, refused) ↦ rw refused (stays refl)
]

-- What updating a finding in a fresh session does to the stored tables, whatever the database
-- answers to each statement: nothing, or, in one commit, the finding changes in nothing but its
-- status, severity, confidence and notes and the `updated_at` that goes with them, which is the
-- database's time unless the row is untouched, with an event at the end of the audit trail; if the
-- status changes, then along the table of transitions, and with a second event that names both
-- statuses.
pub update_finding-Step :
    (now : Datetime) (i : ℕ) (p : FindingUpdate) (s : Session)
    → s.working ≡ s.stored
    → FindingStep now i s.stored (update_finding now i p s).1.stored
unfolding update_finding get_finding query finding_or_not_found
update_finding-Step now i p s fresh = elim (Bool-cases (raises_now s)) [
  | inl failing ↦ rw failing (stays refl)
  | inr fine ↦ elim (Option-cases (find_finding i s.working.findings)) [
    | inl missing ↦ rw (fine, missing) (stays refl)
    | inr (f, found) ↦
        rw (fine, found)
          (change-Step now i p f (answered s)
            (ap (λ (t : Tables). find_finding i t.findings) (sym fresh) ∙ found) fresh)
  ]
]
