-- ===== src/Services/Timelines/Idempotent.antt =====
-- What a second generation of the same timeline creates.
use dfir_investigation_workb.Services.Session.{
  Artifact, ServiceError, Session, StoredRecord, Tables, answered,
}
use dfir_investigation_workb.Prelude.{List, Result, Text, [], ap, arith, map, ok, refl, ℕ, ◌∷◌, ◌≡◌}
use dfir_investigation_workb.Correlation.Events.{TimelineEvent}
use dfir_investigation_workb.Services.Timelines.{
  Sources, TimelineGenerationStats, backfill, backfill_one, generate, generate_body, generate_for,
  generate_from, insert_values, pairs_in, values_of,
}
use dfir_investigation_workb.Services.Timelines.Inserts.{ArePresent, insert_events-again}
use dfir_investigation_workb.Services.Timelines.Again.{
  Generated, generate_body-Generated, later_sources, values_of-ArePresent,
}
use dfir_investigation_workb.Services.Session.Rules.{
  WhenOk, WhenOk-map, after-WhenOk, after-commit, after-query, after-result, guarded-WhenOk,
  returned-WhenOk,
}
use dfir_investigation_workb.Services.Runs.Steps.{after-get_for_update}
use mathlib.Core.Path.{subst}

module _ (o : Sources) (case_id : ℕ) where
  -- the same, of the records with their artifacts as they were found
  abbrev GeneratedFrom : Tables → TimelineGenerationStats → Session → Type 0
  GeneratedFrom t stats s =
      (ps : List (Artifact × StoredRecord)) × (pairs_in o case_id t ≡ ok ps)
      × Generated o case_id (values_of o case_id ps 0) t stats s

  generate_from-GeneratedFrom :
      (t : Tables) (ps : List (Artifact × StoredRecord)) (as_ : List Artifact) (s : Session)
      → pairs_in o case_id t ≡ ok ps
      → s.working ≡ t
      → WhenOk (GeneratedFrom t) (generate_from o case_id as_ ps s)
  unfolding generate_from
  generate_from-GeneratedFrom t ps as_ s found same =
      guarded-WhenOk (GeneratedFrom t) _ (generate_body o case_id as_ ps s) (
        WhenOk-map (Generated o case_id (values_of o case_id ps 0) s.working) (GeneratedFrom t)
          (generate_body o case_id as_ ps s) (λ stats s' h. (ps, found, rw (← same) h))
          (generate_body-Generated o case_id as_ ps s))

  generate-Generated : (s : Session) → WhenOk (GeneratedFrom s.working) (generate o case_id s)
  unfolding generate generate_for
  generate-Generated s =
      let P = WhenOk (GeneratedFrom s.working) in
      after-get_for_update P case_id s _ tt tt (λ c found. after-query P (answered s) _ _ tt (
        after-query P (answered (answered s)) _ _ tt (
          after-result P (pairs_in o case_id s.working) (answered (answered (answered s))) _
            (λ e h. tt)
            (λ ps h.
              generate_from-GeneratedFrom s.working ps _ (answered (answered (answered s))) h
                refl))))

  -- No event is created, and the rows are those that were there, with their metadata filled in.
  abbrev pub CreatesNone : Tables → TimelineGenerationStats → Session → Type 0
  CreatesNone t stats s =
      (stats.events_created ≡ 0)
      × (s.stored.timeline_events
          ≡ map (backfill_one o.python.casefold case_id t.artifact_records) t.timeline_events)

  abbrev Kept : Tables → ℕ → Session → Type 0
  Kept t created s =
      (created ≡ 0)
      × (s.working.timeline_events ≡ t.timeline_events)
      × (s.working.artifact_records ≡ t.artifact_records)

  insert_values-Kept :
      (vs : List TimelineEvent) (s : Session)
      → ArePresent vs s.working.timeline_events
      → WhenOk (Kept s.working) (insert_values o case_id vs s)
  unfolding insert_values
  insert_values-Kept [] s there = (refl, refl, refl)
  insert_values-Kept (v ∷ vs) s there =
      let again = insert_events-again (v ∷ vs) s.working.timeline_events 0 there in
      after-query (WhenOk (Kept s.working)) s _ _ tt (
        ap (λ (r : List TimelineEvent × ℕ). r.1) again,
        ap (λ (r : List TimelineEvent × ℕ). r.0) again,
        refl,
      )

  generate_body-CreatesNone :
      (as_ : List Artifact) (rs : List (Artifact × StoredRecord)) (s : Session)
      → ArePresent (values_of o case_id rs 0) s.working.timeline_events
      → WhenOk (CreatesNone s.working) (generate_body o case_id as_ rs s)
  unfolding generate_body backfill
  generate_body-CreatesNone as_ rs s there =
      after-WhenOk (Kept s.working) (CreatesNone s.working) (insert_values o case_id _ s) _
        (insert_values-Kept _ s there)
        (λ created s' (none_new, events, records).
          after-query (WhenOk (CreatesNone s.working)) s' _ _ tt (
            after-commit (WhenOk (CreatesNone s.working)) _ _ tt
              (none_new, rw (events, records) refl)))

  -- the values of a run are there, if its records have artifacts
  abbrev pub ValuesPresent : Tables → Type 0
  ValuesPresent t =
      (ps : List (Artifact × StoredRecord))
      → pairs_in o case_id t ≡ ok ps
      → ArePresent (values_of o case_id ps 0) t.timeline_events

  generate-CreatesNone :
      (s : Session)
      → ValuesPresent s.working
      → WhenOk (CreatesNone s.working) (generate o case_id s)
  unfolding generate generate_for generate_from
  generate-CreatesNone s there =
      let P = WhenOk (CreatesNone s.working) in
      after-get_for_update P case_id s _ tt tt (λ c found. after-query P (answered s) _ _ tt (
        after-query P (answered (answered s)) _ _ tt (
          after-result P (pairs_in o case_id s.working) (answered (answered (answered s))) _
            (λ e h. tt)
            (λ ps h.
              guarded-WhenOk (CreatesNone s.working) _ _
                (generate_body-CreatesNone _ ps (answered (answered (answered s))) (there ps h))))))

module _ (o : Sources) (case_id : ℕ) (event_id : ℕ → Text) where
  ok_injective :
      {ps qs : List (Artifact × StoredRecord)}
      {r : Result ServiceError (List (Artifact × StoredRecord))}
      → r ≡ ok ps
      → r ≡ ok qs
      → ps ≡ qs
  ok_injective p q = ground (arith, p, q)

  still-ValuesPresent :
      (t t' : Tables) (ps : List (Artifact × StoredRecord))
      → t'.evidence ≡ t.evidence
      → t'.artifacts ≡ t.artifacts
      → t'.artifact_records ≡ t.artifact_records
      → pairs_in o case_id t ≡ ok ps
      → ArePresent (values_of o case_id ps 0) t'.timeline_events
      → ValuesPresent (later_sources o event_id) case_id t'
  still-ValuesPresent t t' ps evidence artifacts records found there qs found' =
      let same : pairs_in o case_id t' ≡ ok ps = rw (evidence, artifacts, records) found in
      values_of-ArePresent o case_id event_id qs 0 0 t'.timeline_events (
        subst (λ xs. ArePresent (values_of o case_id xs 0) t'.timeline_events)
          (ok_injective same found') there)

  -- If a generation of a timeline returns, and a later one, whose events would get identifiers of their own,
  -- returns from the tables that the first has stored, then the later one creates no event, and leaves
  -- the stored events as they were but for process identities merged into the metadata of EVTX
  -- events, whatever the database answers to its other statements.
  pub generate-CreatesNone_again :
      (s s' u u' : Session) (stats stats' : TimelineGenerationStats)
      → generate o case_id s ≡ (ok stats, s')
      → u.working ≡ s'.stored
      → generate (later_sources o event_id) case_id u ≡ (ok stats', u')
      → CreatesNone o case_id s'.stored stats' u'
  generate-CreatesNone_again s s' u u' stats stats' one fresh two =
      let (ps, found, present) =
        returned-WhenOk _ _ stats s' one (generate-Generated o case_id s) in
      let (there, evidence, artifacts, records) = present in
      let still =
        still-ValuesPresent s.working s'.stored ps evidence artifacts records found there in
      rw (← fresh) (
        returned-WhenOk _ _ stats' u' two
          (generate-CreatesNone (later_sources o event_id) case_id u (rw fresh still)))
