-- ===== src/Services/Timelines/Again.antt =====
-- A second generation of the same timeline.
use dfir_investigation_workb.Services.Session.{Artifact, Session, StoredRecord, Tables}
use dfir_investigation_workb.Prelude.{
  All-append, List, Text, [], length, refl, ℕ, ◌++◌, ◌+◌, ◌∙◌, ◌∷◌, ◌≡◌,
}
use dfir_investigation_workb.Correlation.Events.{TimelineEvent}
use dfir_investigation_workb.Timeline.Normalizer.{NormalizedTimelineEvent}
use dfir_investigation_workb.Services.Timelines.{
  Sources, TimelineGenerationStats, backfill, event_row, event_rows, generate_body, has_identity,
  insert_values, normalized, same_identity, values_of,
}
use dfir_investigation_workb.Services.Timelines.Inserts.{
  ArePresent, IsPresent, has_identity-backfill_one, insert_events-ArePresent,
}
use dfir_investigation_workb.Services.Session.Rules.{
  WhenOk, after-WhenOk, after-commit, after-query,
}

-- Whether a value is there does not depend on its fresh identifier.
has_identity-event_row :
    (o o' : Sources) (case_id : ℕ) (a : Artifact) (r : StoredRecord) (e : NormalizedTimelineEvent)
    (n n' : ℕ) (table : List TimelineEvent)
    → has_identity (event_row o case_id a r e n) table
      ≡ has_identity (event_row o' case_id a r e n') table
unfolding has_identity same_identity
has_identity-event_row o o' case_id a r e n n' [] = refl
has_identity-event_row o o' case_id a r e n n' (x ∷ table) =
    rw (has_identity-event_row o o' case_id a r e n n' table) refl

-- The sources of a later run: the identifiers of its events are its own.
abbrev pub later_sources : Sources → (ℕ → Text) → Sources
later_sources o event_id = record o { event_id = event_id }

module _ (o : Sources) (case_id : ℕ) where
  event_rows-ArePresent :
      (event_id : ℕ → Text) (a : Artifact) (r : StoredRecord) (es : List NormalizedTimelineEvent)
      (n n' : ℕ) (table : List TimelineEvent)
      → ArePresent (event_rows o case_id a r es n) table
      → ArePresent (event_rows (later_sources o event_id) case_id a r es n') table
  unfolding event_rows
  event_rows-ArePresent event_id a r [] n n' table h = tt
  event_rows-ArePresent event_id a r (e ∷ es) n n' table (one, rest) = (
    has_identity-event_row (later_sources o event_id) o case_id a r e n' n table ∙ one,
    event_rows-ArePresent event_id a r es (n + 1) (n' + 1) table rest,
  )

  All-split :
      (vs ws table : List TimelineEvent)
      → ArePresent (vs ++ ws) table
      → ArePresent vs table × ArePresent ws table
  All-split [] ws table h = (tt, h)
  All-split (v ∷ vs) ws table (one, rest) =
      let (left, right) = All-split vs ws table rest in ((one, left), right)

  pub values_of-ArePresent :
      (event_id : ℕ → Text) (ps : List (Artifact × StoredRecord)) (n n' : ℕ)
      (table : List TimelineEvent)
      → ArePresent (values_of o case_id ps n) table
      → ArePresent (values_of (later_sources o event_id) case_id ps n') table
  unfolding values_of
  values_of-ArePresent event_id [] n n' table h = tt
  values_of-ArePresent event_id (p ∷ ps) n n' table h =
      let es = (normalized o case_id p).events in
      let (here, there) = All-split (event_rows o case_id p.0 p.1 es n) _ table h in
      All-append (λ v. IsPresent v table)
        (event_rows (later_sources o event_id) case_id p.0 p.1 es n')
        (values_of (later_sources o event_id) case_id ps (n' + length es))
        (event_rows-ArePresent event_id p.0 p.1 es n n' table here)
        (values_of-ArePresent event_id ps (n + length es) (n' + length es) table there)

  -- filling in metadata keeps what is there
  backfill-ArePresent :
      (vs : List TimelineEvent) (t : Tables)
      → ArePresent vs t.timeline_events
      → ArePresent vs (backfill o.python.casefold case_id t).timeline_events
  unfolding backfill
  backfill-ArePresent [] t h = tt
  backfill-ArePresent (v ∷ vs) t (one, rest) = (
    has_identity-backfill_one o.python.casefold case_id t.artifact_records v t.timeline_events
        ∙ one,
    backfill-ArePresent vs t rest,
  )

  -- What a generation that returns has stored: its values are there, and what they are made of is
  -- the same.
  abbrev pub Generated : List TimelineEvent → Tables → TimelineGenerationStats → Session → Type 0
  Generated vs t stats s =
      ArePresent vs s.stored.timeline_events
      × (s.stored.evidence ≡ t.evidence)
      × (s.stored.artifacts ≡ t.artifacts)
      × (s.stored.artifact_records ≡ t.artifact_records)

  abbrev Inserted : List TimelineEvent → Tables → ℕ → Session → Type 0
  Inserted vs t created s =
      ArePresent vs s.working.timeline_events
      × (s.working.evidence ≡ t.evidence)
      × (s.working.artifacts ≡ t.artifacts)
      × (s.working.artifact_records ≡ t.artifact_records)

  insert_values-Inserted :
      (vs : List TimelineEvent) (s : Session)
      → WhenOk (Inserted vs s.working) (insert_values o case_id vs s)
  unfolding insert_values
  insert_values-Inserted [] s = (tt, refl, refl, refl)
  insert_values-Inserted (v ∷ vs) s =
      after-query (WhenOk (Inserted (v ∷ vs) s.working)) s _ _ tt
        (insert_events-ArePresent (v ∷ vs) s.working.timeline_events 0, refl, refl, refl)

  pub generate_body-Generated :
      (as_ : List Artifact) (rs : List (Artifact × StoredRecord)) (s : Session)
      → WhenOk (Generated (values_of o case_id rs 0) s.working) (generate_body o case_id as_ rs s)
  unfolding generate_body backfill
  generate_body-Generated as_ rs s =
      let vs = values_of o case_id rs 0 in
      after-WhenOk (Inserted vs s.working) (Generated vs s.working) (insert_values o case_id vs s) _
        (insert_values-Inserted vs s)
        (λ created s' (there, evidence, artifacts, records).
          after-query (WhenOk (Generated vs s.working)) s' _ _ tt (
            after-commit (WhenOk (Generated vs s.working)) _ _ tt
              (backfill-ArePresent vs s'.working there, evidence, artifacts, records)))
