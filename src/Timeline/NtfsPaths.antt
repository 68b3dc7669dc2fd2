-- ===== src/Timeline/NtfsPaths.antt =====
-- The NTFS events of backend/app/services/timeline_normalizer.py, as the NTFS rule of
-- backend/app/correlation/rules.py reads them.
use dfir_investigation_workb.Correlation.Paths.{cleaned, path_of}
use dfir_investigation_workb.Correlation.Exactness.{Matches, ntfs_evtx-Matches}
use dfir_investigation_workb.Correlation.Rules.{ntfs_candidate, ntfs_evtx, ntfs_exact}
use dfir_investigation_workb.Correlation.Matching.{Among, not_both}
use dfir_investigation_workb.Correlation.Pairs.{Pair}
use dfir_investigation_workb.Correlation.Events.{TimelineEvent, get_value}
use dfir_investigation_workb.Domain.{ArtifactType, FindingConfidence}
use dfir_investigation_workb.Prelude.{
  All, List, Option, Text, [], ap, false, inl, inr, lit, none, refl, some, text_eq, true, ℕ, ◌∙◌,
  ◌∷◌, ◌≡◌, ◌⊎◌,
}
use dfir_investigation_workb.Json.{get, get_field, null}
use dfir_investigation_workb.Timeline.Times.{Python}
use dfir_investigation_workb.Timeline.Normalizer.{
  ArtifactRecord, NormalizedTimelineEvent, event_of_evtx, event_of_registry,
}
use dfir_investigation_workb.Timeline.Mappings.{execution_event, link_event, normalize, ntfs_event}
use dfir_investigation_workb.Timeline.Every.{Each, normalize-All}
use dfir_investigation_workb.Correlation.Candidates.{CorrelationCandidate, both_paths, is_ntfs}

-- An NTFS event has no full path.
abbrev NoFullPath : NormalizedTimelineEvent → Type 0
NoFullPath e = (is_ntfs e.event_type ≡ false) ⊎ (get_field "full_path" e.metadata ≡ null)

Each-NoFullPath : (python : Python) (r : ArtifactRecord) → Each python NoFullPath r
unfolding event_of_evtx event_of_registry execution_event link_event ntfs_event get text_eq lit
Each-NoFullPath python r = record {
  of_evtx = λ raw. inl refl;
  of_registry = λ raw. inl refl;
  of_execution = λ index normalized raw. inl refl;
  of_link = λ ordinal t normalized raw. inr refl;
  of_ntfs = λ family filename parent ordinal f normalized raw. inr refl;
}

Among-All :
    (P : NormalizedTimelineEvent → Type 0) (n : NormalizedTimelineEvent)
    (ns : List NormalizedTimelineEvent)
    → All P ns
    → Among n ns
    → P n
Among-All P n [] h a = elim a [ ]
Among-All P n (m ∷ ns) h (inl e) = rw e h.0
Among-All P n (m ∷ ns) h (inr a) = Among-All P n ns h.1 a

both_paths-none : (o : Option Text) → both_paths text_eq o none ≡ false
both_paths-none none = refl
both_paths-none (some t) = refl

ntfs_exact-null :
    (casefold : Text → Text) (p : Pair)
    → get_value "full_path" p.right ≡ null
    → ntfs_exact casefold p ≡ false
unfolding ntfs_exact path_of cleaned
ntfs_exact-null casefold p h = rw h (both_paths-none _)

-- The event has the type and the metadata of one that the normalizer makes.
unfoldable pub IsNormalized : Python → TimelineEvent → Type 0
IsNormalized python e =
    (t : ArtifactType) × (r : ArtifactRecord) × (n : NormalizedTimelineEvent) × Among n
      (normalize python t r).events
    × (e.event_type ≡ n.event_type)
    × (e.metadata ≡ n.metadata)

IsNormalized-null :
    (python : Python) (e : TimelineEvent)
    → IsNormalized python e
    → is_ntfs e.event_type ≡ true
    → get_value "full_path" e ≡ null
unfolding IsNormalized
IsNormalized-null python e (t, r, n, a, same_type, same_metadata) kind =
    elim (Among-All NoFullPath n (normalize python t r).events
      (normalize-All python _ r (Each-NoFullPath python r) t) a) [
        | inl other ↦ elim (not_both kind (ap (λ t. is_ntfs t) same_type ∙ other)) [ ]
        | inr missing ↦ ap (λ d. get_field "full_path" d) same_metadata ∙ missing
      ]

-- In a timeline whose NTFS events come from the normalizer, the NTFS rule never finds an exact path:
-- every candidate rests on the file name alone and has medium confidence.
pub ntfs_evtx-never_exact :
    (python : Python) (casefold : Text → Text) (events : List TimelineEvent) (window : ℕ)
    (c : CorrelationCandidate)
    → ((e : TimelineEvent) → Among e events → is_ntfs e.event_type ≡ true → IsNormalized python e)
    → Among c (ntfs_evtx casefold events window).candidates
    → (c.match_basis ≡ lit "basename_match") × (c.confidence ≡ FindingConfidence.medium)
unfolding Matches ntfs_candidate
ntfs_evtx-never_exact python casefold events window c made found =
    let (p, (l, r, process, kind, i, j, case, near), same) =
      (ntfs_evtx-Matches casefold events window c).0 found in
    let never =
      ntfs_exact-null casefold p (IsNormalized-null python p.right (made p.right r kind) kind) in
    (
      ap (λ (d : CorrelationCandidate). d.match_basis) same ∙ rw never refl,
      ap (λ (d : CorrelationCandidate). d.confidence) same ∙ rw never refl,
    )
