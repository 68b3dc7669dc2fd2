-- ===== src/Services/Timelines/Returns.antt =====
-- That a generation returns, with a database that carries out every statement.
use dfir_investigation_workb.Services.Session.{
  Artifact, Case, Evidence, Session, StoredRecord, Tables, answered, find_case, of_result,
}
use dfir_investigation_workb.Prelude.{
  Bool, Bool-cases, List, [], arith, false, if◌then◌else◌, inl, inr, ok, refl, some, true, ℕ, ◌==◌,
  ◌∷◌, ◌≡◌, ◌⊎◌,
}
use dfir_investigation_workb.Correlation.Matching.{Among, not_both}
use dfir_investigation_workb.Correlation.Events.{TimelineEvent}
use dfir_investigation_workb.Services.Timelines.{
  Sources, TimelineGenerationStats, artifact_by_id, artifacts_in, backfill, case_artifacts,
  case_records, generate, generate_body, generate_for, generate_from, insert_values, is_case_record,
  is_of_case, pairs_in, records_in, with_artifacts,
}
use dfir_investigation_workb.Services.Session.Quiet.{
  IsQuiet, Returned, Returned-ok, after-Returned, answered-IsQuiet, commit-quiet, guarded-Returned,
  query-quiet, quiet-raises_now,
}
use dfir_investigation_workb.Services.Cases.Lifecycle.{get_for_update-found}

-- Every record of the case is joined with an artifact of the case.
is_case_record-Among :
    (i : ℕ) (es : List Evidence) (as_ : List Artifact) (k : ℕ)
    → is_case_record i es as_ k ≡ true
    → (a : Artifact) × Among a (case_artifacts i es as_) × (a.id ≡ k)
unfolding is_case_record case_artifacts
is_case_record-Among i es [] k h = elim (not_both h refl) [ ]
is_case_record-Among i es (a ∷ as_) k h = elim (Bool-cases (is_of_case i a.evidence_id es)) [
  | inl ours ↦ elim (Bool-cases (a.id == k)) [
    | inl same ↦ (a, rw ours (inl refl), ground (arith, same))
    | inr other ↦
        let (b, there, id) = is_case_record-Among i es as_ k (ground (arith, h, other)) in
        (b, rw ours (inr there), id)
  ]
  | inr others ↦
      let (b, there, id) = is_case_record-Among i es as_ k (ground (arith, h, others)) in
      (b, rw others there, id)
]

case_records-is_case_record :
    (i : ℕ) (es : List Evidence) (as_ : List Artifact) (rs : List StoredRecord) (r : StoredRecord)
    → Among r (case_records i es as_ rs)
    → is_case_record i es as_ r.artifact_id ≡ true
unfolding case_records
case_records-is_case_record i es as_ [] r h = elim h [ ]
case_records-is_case_record i es as_ (q ∷ rs) r h =
    by_case (is_case_record i es as_ q.artifact_id) refl (case_records-is_case_record i es as_ rs r)
      h
  where
    by_case :
        (b : Bool)
        → is_case_record i es as_ q.artifact_id ≡ b
        → (Among r (case_records i es as_ rs) → is_case_record i es as_ r.artifact_id ≡ true)
        → Among r (if b then q ∷ case_records i es as_ rs else case_records i es as_ rs)
        → is_case_record i es as_ r.artifact_id ≡ true
    by_case true ours later (inl e) = rw e ours
    by_case true ours later (inr there) = later there
    by_case false others later there = later there

artifact_by_id-found :
    (i : ℕ) (as_ : List Artifact) (a : Artifact)
    → Among a as_
    → a.id ≡ i
    → (b : Artifact) × (artifact_by_id i as_ ≡ ok b)
unfolding artifact_by_id
artifact_by_id-found i [] a h same = elim h [ ]
artifact_by_id-found i (b ∷ as_) a h same = elim (Bool-cases (b.id == i)) [
  | inl here ↦ (b, rw here refl)
  | inr other ↦ later (λ there. artifact_by_id-found i as_ a there same) other h
]
  where
    later :
        (Among a as_ → (c : Artifact) × (artifact_by_id i as_ ≡ ok c))
        → (b.id == i) ≡ false
        → (a ≡ b) ⊎ Among a as_
        → (c : Artifact) × (artifact_by_id i (b ∷ as_) ≡ ok c)
    later find other (inl e) =
        let impossible : ⊥ = ground (arith, e, same, other) in elim impossible [ ]
    later find other (inr there) = let (c, found) = find there in (c, rw (other, found) refl)

with_artifacts-ok :
    (as_ : List Artifact) (rs : List StoredRecord)
    → ((r : StoredRecord) → Among r rs → (a : Artifact) × (artifact_by_id r.artifact_id as_ ≡ ok a))
    → (ps : List (Artifact × StoredRecord)) × (with_artifacts as_ rs ≡ ok ps)
unfolding with_artifacts
with_artifacts-ok as_ [] h = ([], refl)
with_artifacts-ok as_ (r ∷ rs) h =
    let (a, found) = h r (inl refl) in
    let (ps, rest) = with_artifacts-ok as_ rs (λ q there. h q (inr there)) in
    ((a, r) ∷ ps, rw (found, rest) refl)

-- The orders in which the database returns rows leave no artifact out and add no record.
pub record KeepsRows (o : Sources) : Type 0 where
  pub keeps_artifacts :
      (as_ : List Artifact) (a : Artifact) → Among a as_ → Among a (o.order_artifacts as_)
  pub adds_no_record :
      (rs : List StoredRecord) (r : StoredRecord) → Among r (o.order_records rs) → Among r rs

module _ (o : Sources) (case_id : ℕ) where
  insert_values-Returned :
      (vs : List TimelineEvent) (s : Session) → IsQuiet s → Returned (insert_values o case_id vs s)
  unfolding insert_values
  insert_values-Returned [] s h = h
  insert_values-Returned (v ∷ vs) s h = query-quiet Returned s h _ _ (answered-IsQuiet s h)

  generate_body-Returned :
      (as_ : List Artifact) (rs : List (Artifact × StoredRecord)) (s : Session)
      → IsQuiet s
      → Returned (generate_body o case_id as_ rs s)
  unfolding generate_body backfill
  generate_body-Returned as_ rs s h =
      after-Returned (insert_values o case_id _ s) _ (insert_values-Returned _ s h)
        (λ created s' h'. query-quiet Returned s' h' _ _ (
          commit-quiet Returned _ (answered-IsQuiet s' h') _
            (answered-IsQuiet (answered s') (answered-IsQuiet s' h'))))

  -- no lookup of an artifact fails
  pairs_in-ok :
      KeepsRows o
      → (t : Tables) → (ps : List (Artifact × StoredRecord)) × (pairs_in o case_id t ≡ ok ps)
  pairs_in-ok keeps t =
      with_artifacts-ok (artifacts_in o case_id t) (records_in o case_id t) (λ r h.
        let joined =
          case_records-is_case_record case_id t.evidence t.artifacts t.artifact_records r
            (keeps.adds_no_record _ r h) in
        let (a, there, same) =
          is_case_record-Among case_id t.evidence t.artifacts r.artifact_id joined in
        artifact_by_id-found r.artifact_id (artifacts_in o case_id t) a
          (keeps.keeps_artifacts _ a there) same)

  -- With a database that carries out every statement, holds a case under the identifier, and returns
  -- each artifact of the case and no other record than those of the case, a generation of the timeline
  -- of the case returns its counts, whatever the artifacts and records hold: no lookup of the artifact of a
  -- record fails.
  pub generate-returns :
      (s : Session) (c : Case)
      → KeepsRows o
      → IsQuiet s
      → find_case case_id s.working.cases ≡ some c
      → (stats : TimelineGenerationStats) × (s' : Session) × (generate o case_id s ≡ (ok stats, s'))
  unfolding generate generate_for generate_from
  generate-returns s c keeps h found =
      let h' = answered-IsQuiet s h in
      let h'' = answered-IsQuiet (answered s) h' in
      let (ps, joined) = pairs_in-ok keeps s.working in
      Returned-ok (generate o case_id s) (
        rw (get_for_update-found case_id s c (quiet-raises_now s h) found) (
          query-quiet Returned (answered s) h' _ _ (
            query-quiet Returned (answered (answered s)) h'' _ _ (
              after-Returned (of_result (pairs_in o case_id s.working) _) _
                (rw joined (answered-IsQuiet (answered (answered s)) h''))
                (λ qs s' quiet.
                  guarded-Returned _ (generate_body o case_id _ qs _)
                    (generate_body-Returned _ qs _ quiet))))))
