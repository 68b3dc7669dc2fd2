-- ===== src/Services/Timelines/Safe.antt =====
-- What every generation keeps of the stored events, if an insertion and a backfill keep it.
use dfir_investigation_workb.Services.Session.{
  Action, Artifact, ServiceError, Session, StoredRecord, Tables, after, answered,
}
use dfir_investigation_workb.Prelude.{List, Result, [], err, map, ok, refl, sym, ℕ, ◌∷◌, ◌≡◌}
use dfir_investigation_workb.Correlation.Events.{TimelineEvent}
use dfir_investigation_workb.Services.Timelines.{
  Sources, TimelineGenerationStats, backfill, backfill_one, generate, generate_body, generate_for,
  generate_from, insert_events, insert_values, pairs_in, values_of,
}
use dfir_investigation_workb.Services.Session.Rules.{
  after-commit, after-query, after-result, guarded-stored,
}
use dfir_investigation_workb.Services.Runs.Steps.{after-get_for_update}
use mathlib.Core.Path.{subst}

module _ (o : Sources) (case_id : ℕ) (Good : List TimelineEvent → Type 0)
    (keeps_insert : (ps : List (Artifact × StoredRecord)) (table : List TimelineEvent)
      → Good table
      → Good (insert_events (values_of o case_id ps 0) table 0).0)
    (keeps_backfill : (rs : List StoredRecord) (table : List TimelineEvent)
      → Good table
      → Good (map (backfill_one o.python.casefold case_id rs) table)) where
  -- in what is stored and in what the transaction sees, also behind an error
  abbrev SafeIn : Session → Type 0
  SafeIn s = Good s.stored.timeline_events × Good s.working.timeline_events

  abbrev Safe : {A : Type 0} → Result ServiceError A × Session → Type 0
  Safe r = SafeIn r.1

  after-Safe :
      {A B : Type 0} (r : Result ServiceError A × Session) (f : A → Action B)
      → Safe r
      → ((a : A) (s : Session) → SafeIn s → Safe (f a s))
      → Safe (after r f)
  after-Safe (ok a, s) f h each = each a s h
  after-Safe (err e, s) f h each = h

  insert_all-Safe :
      (ps : List (Artifact × StoredRecord)) (vs : List TimelineEvent) (s : Session)
      → values_of o case_id ps 0 ≡ vs
      → SafeIn s
      → Safe (insert_values o case_id vs s)
  unfolding insert_values
  insert_all-Safe ps [] s same h = h
  insert_all-Safe ps (v ∷ vs) s same h =
      after-query Safe s _ _ h (h.0, rw (← same) (keeps_insert ps s.working.timeline_events h.1))

  generate_body-Safe :
      (as_ : List Artifact) (ps : List (Artifact × StoredRecord)) (s : Session)
      → SafeIn s
      → Safe (generate_body o case_id as_ ps s)
  unfolding generate_body backfill
  generate_body-Safe as_ ps s h =
      after-Safe (insert_values o case_id _ s) _ (insert_all-Safe ps _ s refl h) (λ created s' h'.
        let filled = keeps_backfill s'.working.artifact_records s'.working.timeline_events h'.1 in
        after-query Safe s' _ _ h' (after-commit Safe _ _ (h'.0, filled) (filled, filled)))

  pub generate-Good :
      (s : Session)
      → s.working ≡ s.stored
      → Good s.stored.timeline_events
      → Good (generate o case_id s).1.stored.timeline_events
  unfolding generate generate_for generate_from
  generate-Good s fresh h =
      let P = λ (r : Result ServiceError TimelineGenerationStats × Session).
        Good r.1.stored.timeline_events in
      after-get_for_update P case_id s _ h h (λ c found. after-query P (answered s) _ _ h (
        after-query P (answered (answered s)) _ _ h (
          after-result P (pairs_in o case_id s.working) (answered (answered (answered s))) _
            (λ e raised. h)
            (λ ps returned.
              subst (λ (t : Tables). Good t.timeline_events)
                (sym (
                  guarded-stored _
                    (generate_body o case_id _ ps (answered (answered (answered s))))))
                (generate_body-Safe _ ps (answered (answered (answered s))) (h, rw fresh h)).0))))
