-- ===== src/Services/Cases/Outcomes.antt =====
-- What the client is told by the case service, next to what is stored.
use dfir_investigation_workb.Services.Session.{
  AuditAction, Case, ServiceError, Session, Tables, after, answered, case_updated, commit, conflict,
  find_case, guarded, has_unnamed, raises_now, refresh, replace_case, rolled_back, select_case,
}
use dfir_investigation_workb.Services.Cases.History.{find_case-id}
use dfir_investigation_workb.Prelude.{
  Bool, Bool-cases, Datetime, List, Option-cases, Result, Text, [], ap, arith, err, false,
  if◌then◌else◌, inl, inr, lit, none, ok, some, sym, true, ℕ, ◌∙◌, ◌∷◌, ◌≡◌,
}
use dfir_investigation_workb.Domain.{CaseStatus, case_status_is}
use dfir_investigation_workb.Services.Cases.{
  CaseUpdate, apply_update, conflict_text, get_for_update, move_case, moved_row, or_not_found,
  record_change, refuse, refuse_reloaded, transition, update, updated_fields, updated_row,
}
use dfir_investigation_workb.Services.Cases.Lifecycle.{
  changed, get_for_update-found, get_for_update-missing, get_for_update-raises,
}

record_change-ok :
    (row row' : Case) (action : AuditAction) (message : Text) (s s' : Session)
    → s.working ≡ s.stored
    → guarded message (record_change row action s) ≡ (ok row', s')
    → (row' ≡ row) × (s'.stored ≡ changed s.stored row action)
unfolding record_change commit refresh
record_change-ok row row' action message s s' fresh h = ground arith

-- A refusal never ends in a case.
refuse-fails :
    (target : CaseStatus) (c row : Case) (s s' : Session) → refuse target c s ≡ (ok row, s') → ⊥
unfolding refuse refuse_reloaded select_case
refuse-fails target c row s s' h = ground arith

move_case-ok :
    (now : Datetime) (expected target : CaseStatus) (action : CaseStatus → CaseStatus → AuditAction)
    (c row : Case) (s s' : Session)
    → s.working ≡ s.stored
    → move_case now expected target action c s ≡ (ok row, s')
    → (case_status_is c.status expected ≡ true)
      × (row ≡ moved_row now target c)
      × (s'.stored ≡ changed s.stored (moved_row now target c) (action c.status target))
unfolding move_case
move_case-ok now expected target action c row s s' fresh h = ground (
  arith,
  record_change-ok (moved_row now target c) row (action c.status target)
      (lit "Case lifecycle transition failed") s s' fresh,
  refuse-fails target c row (rolled_back s) s',
)

-- A transition in a fresh session that reports success has found the case in the status that it leaves, and has
-- stored the moved row together with its audit event, whatever the database answered.
pub transition-ok :
    (now : Datetime) (i : ℕ) (expected target : CaseStatus)
    (action : CaseStatus → CaseStatus → AuditAction) (row : Case) (s s' : Session)
    → s.working ≡ s.stored
    → transition now i expected target action s ≡ (ok row, s')
    → (c : Case) × (find_case i s.stored.cases ≡ some c)
      × (case_status_is c.status expected ≡ true)
      × (row ≡ moved_row now target c)
      × (s'.stored ≡ changed s.stored row (action c.status target))
unfolding transition
transition-ok now i expected target action row s s' fresh h = elim (Bool-cases (raises_now s)) [
  | inl failing ↦ ground (arith, get_for_update-raises i s failing)
  | inr fine ↦ elim (Option-cases (find_case i s.working.cases)) [
    | inl missing ↦ ground (arith, get_for_update-missing i s fine missing)
    | inr (c, found) ↦
        let moved : move_case now expected target action c (answered s) ≡ (ok row, s') =
          ap
            (λ (r : Result ServiceError Case × Session).
              after r (move_case now expected target action))
            (sym (get_for_update-found i s c fine found))
          ∙ h in
        let (allowed, same, done) =
          move_case-ok now expected target action c row (answered s) s' fresh moved in
        (
          c,
          ap (λ (t : Tables). find_case i t.cases) (sym fresh) ∙ found,
          allowed,
          same,
          rw same done,
        )
  ]
]

-- In a fresh session, with a database that carries out every statement, closing or archiving a
-- stored case is answered by its status alone: the moved row if the case is in the status that the transition leaves, and
-- otherwise a conflict. The rows have names, as the database demands.
pub transition-answer :
    (now : Datetime) (i : ℕ) (expected target : CaseStatus)
    (action : CaseStatus → CaseStatus → AuditAction) (c : Case) (s : Session)
    → s.working ≡ s.stored
    → s.answers ≡ []
    → find_case i s.stored.cases ≡ some c
    → has_unnamed (replace_case (moved_row now target c) s.stored.cases) ≡ false
    → (transition now i expected target action s).0 ≡ (
        if case_status_is c.status expected
        then ok (moved_row now target c)
        else err (conflict (conflict_text c.status target)))
unfolding transition get_for_update select_case or_not_found move_case record_change commit refresh
    raises_now refuse refuse_reloaded
transition-answer now i expected target action c s fresh quiet found named =
    ground (arith, find_case-id i s.stored.cases c found)

abbrev pub returned {ℓ} : {A : Type ℓ} → Result ServiceError A → Bool
returned (ok a) = true
returned (err e) = false

has_unnamed-replace_case :
    (i : ℕ) (row c : Case) (cs : List Case)
    → find_case i cs ≡ some c
    → row.id ≡ i
    → row.name ≡ none
    → has_unnamed (replace_case row cs) ≡ true
unfolding find_case replace_case
has_unnamed-replace_case i row c [] h1 h2 h3 = cc
has_unnamed-replace_case i row c (x ∷ cs) h1 h2 h3 =
    ground (arith, has_unnamed-replace_case i row c cs)

record_change-unnamed :
    (row : Case) (action : AuditAction) (message : Text) (s : Session)
    → has_unnamed (replace_case row s.working.cases) ≡ true
    → ((guarded message (record_change row action s)).1.stored ≡ s.stored)
      × (returned (guarded message (record_change row action s)).0 ≡ false)
unfolding record_change commit
record_change-unnamed row action message s h = ground arith

-- An update that sets the name to null, which the request schema lets through, always fails: it
-- stores nothing and returns no case, whatever the database answers.
pub update-null_name :
    (now : Datetime) (i : ℕ) (p : CaseUpdate) (s : Session)
    → p.name ≡ some none
    → ((update now i p s).1.stored ≡ s.stored) × (returned (update now i p s).0 ≡ false)
unfolding update apply_update
update-null_name now i p s h = elim (Bool-cases (raises_now s)) [
  | inl failing ↦ ground (arith, get_for_update-raises i s failing)
  | inr fine ↦ elim (Option-cases (find_case i s.working.cases)) [
    | inl missing ↦ ground (arith, get_for_update-missing i s fine missing)
    | inr (c, found) ↦ rw (get_for_update-found i s c fine found) (
        record_change-unnamed (updated_row now p c) (case_updated (updated_fields p))
          (lit "Case update failed") (answered s)
          (has_unnamed-replace_case i (updated_row now p c) c s.working.cases found
            (find_case-id i s.working.cases c found) (ground (arith, h))))
  ]
]
