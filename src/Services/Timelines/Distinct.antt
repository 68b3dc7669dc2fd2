-- ===== src/Services/Timelines/Distinct.antt =====
-- The constraint on the logical identity of the stored events.
use dfir_investigation_workb.Services.Session.{Session, StoredRecord}
use dfir_investigation_workb.Json.{Dict}
use dfir_investigation_workb.Prelude.{
  Bool-cases, List, Text, [], arith, false, inl, inr, map, refl, text_eq, text_eq_iff, text_eq_refl,
  ℕ, ◌++◌, ◌+◌, ◌∙◌, ◌∷◌, ◌≡◌,
}
use dfir_investigation_workb.Correlation.Events.{TimelineEvent}
use dfir_investigation_workb.Services.Timelines.{
  Sources, backfill_one, backfilled_metadata, generate, has_identity, insert_events, same_identity,
  values_of,
}
use dfir_investigation_workb.Services.Timelines.Inserts.{
  has_identity-backfill_one, insert_events-cons,
}
use dfir_investigation_workb.Services.Timelines.Safe.{generate-Good}

abbrev pub DistinctIdentities : List TimelineEvent → Type 0
DistinctIdentities [] = Unit
DistinctIdentities (e ∷ es) = (has_identity e es ≡ false) × DistinctIdentities es

same_identity-other : (a b : TimelineEvent) → same_identity a b ≡ false → same_identity b a ≡ false
unfolding same_identity
same_identity-other a b other = elim (Bool-cases (text_eq b.time_source a.time_source)) [
  | inl same ↦
      ground
        (arith, other, (text_eq_iff b.time_source a.time_source).0 same, text_eq_refl b.time_source)
  | inr differs ↦ ground (arith, other, differs)
]

has_identity-append :
    (e v : TimelineEvent) (table : List TimelineEvent)
    → has_identity e table ≡ false
    → same_identity v e ≡ false
    → has_identity e (table ++ v ∷ []) ≡ false
unfolding has_identity
has_identity-append e v [] absent other = rw other refl
has_identity-append e v (x ∷ table) absent other =
    ground (arith, absent, other, has_identity-append e v table)

append-DistinctIdentities :
    (table : List TimelineEvent) (v : TimelineEvent)
    → DistinctIdentities table
    → has_identity v table ≡ false
    → DistinctIdentities (table ++ v ∷ [])
unfolding has_identity
append-DistinctIdentities [] v distinct absent = (refl, tt)
append-DistinctIdentities (x ∷ table) v (new, distinct) absent = (
  has_identity-append x v table new (same_identity-other x v (ground (arith, absent))),
  append-DistinctIdentities table v distinct (ground (arith, absent)),
)

insert_events-DistinctIdentities :
    (vs table : List TimelineEvent) (n : ℕ)
    → DistinctIdentities table
    → DistinctIdentities (insert_events vs table n).0
unfolding insert_events
insert_events-DistinctIdentities [] table n h = h
insert_events-DistinctIdentities (v ∷ vs) table n h =
    insert_events-cons (λ r. DistinctIdentities r.0) v vs table n
      (λ there. insert_events-DistinctIdentities vs table n h)
      (λ new.
        insert_events-DistinctIdentities vs (table ++ v ∷ []) (n + 1)
          (append-DistinctIdentities table v h new))

has_identity-metadata :
    (e : TimelineEvent) (d : Dict) (table : List TimelineEvent)
    → has_identity (record e { metadata = d }) table ≡ has_identity e table
unfolding has_identity same_identity
has_identity-metadata e d [] = refl
has_identity-metadata e d (x ∷ table) = rw (has_identity-metadata e d table) refl

backfill-DistinctIdentities :
    (casefold : Text → Text) (i : ℕ) (rs : List StoredRecord) (table : List TimelineEvent)
    → DistinctIdentities table
    → DistinctIdentities (map (backfill_one casefold i rs) table)
backfill-DistinctIdentities casefold i rs [] h = tt
backfill-DistinctIdentities casefold i rs (e ∷ table) (new, h) = (
  has_identity-metadata e (backfilled_metadata casefold i rs e)
        (map (backfill_one casefold i rs) table)
      ∙ has_identity-backfill_one casefold i rs e table
      ∙ new,
  backfill-DistinctIdentities casefold i rs table h,
)

-- If the stored events have different identities, they still have behind a generation, whatever it
-- returns and whatever the database answers.
pub generate-DistinctIdentities :
    (o : Sources) (case_id : ℕ) (s : Session)
    → s.working ≡ s.stored
    → DistinctIdentities s.stored.timeline_events
    → DistinctIdentities (generate o case_id s).1.stored.timeline_events
generate-DistinctIdentities o case_id =
    generate-Good o case_id DistinctIdentities
      (λ ps table h. insert_events-DistinctIdentities (values_of o case_id ps 0) table 0 h)
      (λ rs table h. backfill-DistinctIdentities o.python.casefold case_id rs table h)
