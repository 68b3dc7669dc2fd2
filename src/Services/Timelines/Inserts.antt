-- ===== src/Services/Timelines/Inserts.antt =====
-- Inserting rows that may be there already, and filling in metadata.
use dfir_investigation_workb.Services.Session.{StoredRecord}
use dfir_investigation_workb.Prelude.{
  All, Bool-cases, List, Text, [], arith, false, inl, inr, map, refl, sym, text_eq_refl, true, ℕ,
  ◌++◌, ◌+◌, ◌∙◌, ◌∷◌, ◌≡◌,
}
use dfir_investigation_workb.Correlation.Events.{TimelineEvent}
use dfir_investigation_workb.Services.Timelines.{
  backfill_one, has_identity, insert_events, same_identity,
}
use mathlib.Core.Path.{subst}

same_identity_refl : (v : TimelineEvent) → same_identity v v ≡ true
unfolding same_identity
same_identity_refl v = rw (text_eq_refl v.time_source) (ground arith)

-- an event with the identity is there
abbrev pub IsPresent : TimelineEvent → List TimelineEvent → Type 0
IsPresent v table = has_identity v table ≡ true

append-IsPresent :
    (v u : TimelineEvent) (table : List TimelineEvent)
    → IsPresent v table
    → IsPresent v (table ++ u ∷ [])
unfolding has_identity
append-IsPresent v u [] h = cc
append-IsPresent v u (e ∷ table) h = ground (arith, append-IsPresent v u table)

appended-IsPresent :
    (v : TimelineEvent) (table : List TimelineEvent) → IsPresent v (table ++ v ∷ [])
unfolding has_identity
appended-IsPresent v [] = rw (same_identity_refl v) refl
appended-IsPresent v (e ∷ table) = ground (arith, appended-IsPresent v table)

insert_events-there :
    (v : TimelineEvent) (vs table : List TimelineEvent) (n : ℕ)
    → IsPresent v table
    → insert_events (v ∷ vs) table n ≡ insert_events vs table n
unfolding insert_events
insert_events-there v vs table n there = rw (insert_events, there) refl

insert_events-new :
    (v : TimelineEvent) (vs table : List TimelineEvent) (n : ℕ)
    → has_identity v table ≡ false
    → insert_events (v ∷ vs) table n ≡ insert_events vs (table ++ v ∷ []) (n + 1)
unfolding insert_events
insert_events-new v vs table n new = rw (insert_events, new) refl

-- What holds of both ways to treat the first value holds of the insertion.
pub insert_events-cons :
    (P : List TimelineEvent × ℕ → Type 0) (v : TimelineEvent) (vs table : List TimelineEvent)
    (n : ℕ)
    → (IsPresent v table → P (insert_events vs table n))
    → (has_identity v table ≡ false → P (insert_events vs (table ++ v ∷ []) (n + 1)))
    → P (insert_events (v ∷ vs) table n)
insert_events-cons P v vs table n old fresh = elim (Bool-cases (has_identity v table)) [
  | inl there ↦ subst P (sym (insert_events-there v vs table n there)) (old there)
  | inr new ↦ subst P (sym (insert_events-new v vs table n new)) (fresh new)
]

-- What is there stays there.
insert_events-keeps :
    (v : TimelineEvent) (vs table : List TimelineEvent) (n : ℕ)
    → IsPresent v table
    → IsPresent v (insert_events vs table n).0
unfolding insert_events
insert_events-keeps v [] table n h = h
insert_events-keeps v (w ∷ vs) table n h =
    insert_events-cons (λ r. IsPresent v r.0) w vs table n
      (λ there. insert_events-keeps v vs table n h)
      (λ new. insert_events-keeps v vs (table ++ w ∷ []) (n + 1) (append-IsPresent v w table h))

abbrev pub ArePresent : List TimelineEvent → List TimelineEvent → Type 0
ArePresent vs table = All (λ v. IsPresent v table) vs

-- Behind an insertion every value is there.
pub insert_events-ArePresent :
    (vs table : List TimelineEvent) (n : ℕ) → ArePresent vs (insert_events vs table n).0
unfolding insert_events
insert_events-ArePresent [] table n = tt
insert_events-ArePresent (v ∷ vs) table n =
    insert_events-cons (λ r. ArePresent (v ∷ vs) r.0) v vs table n
      (λ there. (insert_events-keeps v vs table n there, insert_events-ArePresent vs table n))
      (λ new. (
        insert_events-keeps v vs (table ++ v ∷ []) (n + 1) (appended-IsPresent v table),
        insert_events-ArePresent vs (table ++ v ∷ []) (n + 1),
      ))

-- Inserting what is there does nothing.
pub insert_events-again :
    (vs table : List TimelineEvent) (n : ℕ)
    → ArePresent vs table
    → insert_events vs table n ≡ (table, n)
unfolding insert_events
insert_events-again [] table n h = refl
insert_events-again (v ∷ vs) table n (one, rest) =
    insert_events-there v vs table n one ∙ insert_events-again vs table n rest

backfill_one-identity :
    (casefold : Text → Text) (i : ℕ) (rs : List StoredRecord) (e v : TimelineEvent)
    → same_identity (backfill_one casefold i rs e) v ≡ same_identity e v
unfolding same_identity
backfill_one-identity casefold i rs e v = refl

-- Filling in metadata changes no identity.
pub has_identity-backfill_one :
    (casefold : Text → Text) (i : ℕ) (rs : List StoredRecord) (v : TimelineEvent)
    (table : List TimelineEvent)
    → has_identity v (map (backfill_one casefold i rs) table) ≡ has_identity v table
unfolding has_identity
has_identity-backfill_one casefold i rs v [] = refl
has_identity-backfill_one casefold i rs v (e ∷ table) =
    rw (backfill_one-identity casefold i rs e v, has_identity-backfill_one casefold i rs v table)
      refl
