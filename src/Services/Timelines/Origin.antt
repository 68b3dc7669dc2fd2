-- ===== src/Services/Timelines/Origin.antt =====
-- Where the stored NTFS events come from, and what that means for the correlation rules.
use dfir_investigation_workb.Services.Session.{Artifact, Session, StoredRecord}
use dfir_investigation_workb.Domain.{FindingConfidence}
use dfir_investigation_workb.Prelude.{
  All, All-append, List, Text, [], arith, false, inl, inr, lit, map, refl, true, ℕ, ◌&&◌, ◌++◌, ◌+◌,
  ◌==◌, ◌∙◌, ◌∷◌, ◌≡◌,
}
use dfir_investigation_workb.Correlation.Events.{TimelineEvent}
use dfir_investigation_workb.Correlation.Candidates.{CorrelationCandidate, is_ntfs}
use dfir_investigation_workb.Correlation.Rules.{ntfs_evtx}
use dfir_investigation_workb.Correlation.Matching.{Among}
use dfir_investigation_workb.Timeline.Times.{Python}
use dfir_investigation_workb.Timeline.Normalizer.{NormalizedTimelineEvent}
use dfir_investigation_workb.Timeline.NtfsPaths.{IsNormalized, ntfs_evtx-never_exact}
use dfir_investigation_workb.Services.Timelines.{
  Sources, backfill_one, backfilled_metadata, event_rows, generate, insert_events, is_evtx_row,
  normalized, values_of,
}
use dfir_investigation_workb.Services.Timelines.Inserts.{insert_events-cons}
use dfir_investigation_workb.Services.Timelines.Safe.{generate-Good}

abbrev pub NtfsNormalized : Python → TimelineEvent → Type 0
NtfsNormalized python e = is_ntfs e.event_type ≡ true → IsNormalized python e

insert_events-All :
    (P : TimelineEvent → Type 0) (vs table : List TimelineEvent) (n : ℕ)
    → All P vs
    → All P table
    → All P (insert_events vs table n).0
unfolding insert_events
insert_events-All P [] table n hv h = h
insert_events-All P (v ∷ vs) table n (one, hv) h =
    insert_events-cons (λ r. All P r.0) v vs table n (λ there. insert_events-All P vs table n hv h)
      (λ new.
        insert_events-All P vs (table ++ v ∷ []) (n + 1) hv
          (All-append P table (v ∷ []) h (one, tt)))

module _ (o : Sources) (case_id : ℕ) where
  event_rows-NtfsNormalized :
      (a : Artifact) (r : StoredRecord) (es : List NormalizedTimelineEvent) (n : ℕ)
      → ((e : NormalizedTimelineEvent) → Among e es → Among e (normalized o case_id (a, r)).events)
      → All (NtfsNormalized o.python) (event_rows o case_id a r es n)
  unfolding event_rows IsNormalized
  event_rows-NtfsNormalized a r [] n each = tt
  event_rows-NtfsNormalized a r (e ∷ es) n each = (
    (λ kind. (a.artifact_type, r.content, e, each e (inl refl), refl, refl)),
    event_rows-NtfsNormalized a r es (n + 1) (λ f h. each f (inr h)),
  )

  values_of-NtfsNormalized :
      (ps : List (Artifact × StoredRecord)) (n : ℕ)
      → All (NtfsNormalized o.python) (values_of o case_id ps n)
  unfolding values_of
  values_of-NtfsNormalized [] n = tt
  values_of-NtfsNormalized (p ∷ ps) n =
      All-append (NtfsNormalized o.python)
        (event_rows o case_id p.0 p.1 (normalized o case_id p).events n) _
        (event_rows-NtfsNormalized p.0 p.1 (normalized o case_id p).events n (λ e h. h))
        (values_of-NtfsNormalized ps _)

  -- an event is not both of EVTX and of NTFS
  is_ntfs-row :
      (e : TimelineEvent)
      → is_ntfs e.event_type ≡ true
      → (e.case_id == case_id && is_evtx_row e) ≡ false
  is_ntfs-row e kind = ground (arith, kind)

  backfilled-ntfs :
      (rs : List StoredRecord) (e : TimelineEvent)
      → is_ntfs e.event_type ≡ true
      → backfilled_metadata o.python.casefold case_id rs e ≡ e.metadata
  unfolding backfilled_metadata
  backfilled-ntfs rs e kind = rw (is_ntfs-row e kind) refl

  backfill-NtfsNormalized :
      (rs : List StoredRecord) (table : List TimelineEvent)
      → All (NtfsNormalized o.python) table
      → All (NtfsNormalized o.python) (map (backfill_one o.python.casefold case_id rs) table)
  unfolding IsNormalized
  backfill-NtfsNormalized rs [] h = tt
  backfill-NtfsNormalized rs (e ∷ table) (one, h) = (
    (λ kind.
        let (t, r, n, among, same_type, same_metadata) = one kind in
        (t, r, n, among, same_type, backfilled-ntfs rs e kind ∙ same_metadata)),
    backfill-NtfsNormalized rs table h,
  )

  generate-NtfsNormalized :
      (s : Session)
      → s.working ≡ s.stored
      → All (NtfsNormalized o.python) s.stored.timeline_events
      → All (NtfsNormalized o.python) (generate o case_id s).1.stored.timeline_events
  generate-NtfsNormalized =
      generate-Good o case_id (λ table. All (NtfsNormalized o.python) table)
        (λ ps table h.
          insert_events-All (NtfsNormalized o.python) (values_of o case_id ps 0) table 0
            (values_of-NtfsNormalized ps 0) h)
        (λ rs table h. backfill-NtfsNormalized rs table h)

All-Among :
    (P : TimelineEvent → Type 0) (e : TimelineEvent) (table : List TimelineEvent)
    → All P table
    → Among e table
    → P e
All-Among P e [] h found = elim found [ ]
All-Among P e (x ∷ table) h (inl same) = rw same h.0
All-Among P e (x ∷ table) h (inr found) = All-Among P e table h.1 found

-- From tables without events, a generation leaves a timeline on which the NTFS rule never finds an
-- exact path, whatever the database answers: every candidate rests on the file name alone and has
-- medium confidence.
pub generate-never_exact :
    (o : Sources) (case_id : ℕ) (s : Session) (casefold : Text → Text) (window : ℕ)
    (c : CorrelationCandidate)
    → s.working ≡ s.stored
    → s.stored.timeline_events ≡ []
    → Among c (ntfs_evtx casefold (generate o case_id s).1.stored.timeline_events window).candidates
    → (c.match_basis ≡ lit "basename_match") × (c.confidence ≡ FindingConfidence.medium)
generate-never_exact o case_id s casefold window c fresh none_yet found =
    let events = (generate o case_id s).1.stored.timeline_events in
    let made = generate-NtfsNormalized o case_id s fresh (rw none_yet tt) in
    ntfs_evtx-never_exact o.python casefold events window c
      (λ e among kind. All-Among (NtfsNormalized o.python) e events made among kind) found
