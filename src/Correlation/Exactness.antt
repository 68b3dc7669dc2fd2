-- ===== src/Correlation/Exactness.antt =====
-- What the rules of backend/app/correlation/rules.py find, and that they find nothing else.
use dfir_investigation_workb.Correlation.Paths.{full_path_of}
use dfir_investigation_workb.Prelude.{
  Bool, Bool-cases, List, Option, Text, [], ap, arith, false, inl, inr, map, none, not, refl, some,
  sym, text_eq, text_eq_iff, true, ℕ, ◌↔◌, ◌∙◌, ◌∷◌, ◌≡◌,
}
use dfir_investigation_workb.Correlation.Events.{TimelineEvent, get_value}
use dfir_investigation_workb.Correlation.Pairs.{Identity, Pair, identity_time_pairs, within_window}
use dfir_investigation_workb.Correlation.Matching.{Among, not_both}
use dfir_investigation_workb.Correlation.Complete.{
  Together, identity_time_pairs-Together, some_injective,
}
use dfir_investigation_workb.Correlation.Candidates.{
  CorrelationCandidate, both_paths, events_where, is_lnk, is_ntfs, is_prefetch, is_process_event,
  process_events, value_basename, value_name,
}
use dfir_investigation_workb.Correlation.Rules.{
  evtx_prefetch, lnk_candidate, lnk_candidates, lnk_conflict, lnk_evtx, ntfs_candidate, ntfs_evtx,
  prefetch_candidate,
}

events_where-Among :
    (test : TimelineEvent → Bool) (a : TimelineEvent) (es : List TimelineEvent)
    → Among a (events_where test es) ↔ (Among a es × (test a ≡ true))
events_where-Among test a [] = (λ h. elim h [ ], λ h. h.0)
events_where-Among test a (e ∷ es) =
    let (there, back) = events_where-Among test a es in
    elim (Bool-cases (test e)) [
      | inl kept ↦ rw kept (
        λ h. elim h [ inl p ↦ (inl p, ap test p ∙ kept) | inr r ↦ (inr (there r).0, (there r).1) ],
        λ h. elim h.0 [ inl p ↦ inl p | inr r ↦ inr (back (r, h.1)) ],
      )
      | inr left_out ↦ rw left_out (
        λ h. (inr (there h).0, (there h).1),
        λ h. elim h.0 [
          | inl p ↦ elim (not_both h.1 (ap test p ∙ left_out)) [ ]
          | inr r ↦ back (r, h.1)
        ],
      )
    ]

map-Among :
    (f : Pair → CorrelationCandidate) (c : CorrelationCandidate) (ps : List Pair)
    → Among c (map f ps) ↔ ((p : Pair) × Among p ps × (c ≡ f p))
map-Among f c [] = (λ h. elim h [ ], λ h. h.1)
map-Among f c (q ∷ ps) =
    let (there, back) = map-Among f c ps in
    (
      λ h. elim h [ inl e ↦ (q, inl refl, e) | inr r ↦ let (p, x, e) = there r in (p, inr x, e) ],
      λ (p, x, e). elim x [ inl same ↦ inl (e ∙ ap f same) | inr r ↦ inr (back (p, r, e)) ],
    )

module _ (casefold : Text → Text) where
  -- A process creation that the Security log reports and an observation of the kind, both of the
  -- timeline, which have the same identity and case and are within the window.
  unfoldable pub Matches :
      List TimelineEvent → ℕ → (TimelineEvent → Bool) → Identity → Pair → Type 0
  Matches events window kind identity_of p =
      Among p.left events
      × Among p.right events
      × (is_process_event casefold p.left ≡ true)
      × (kind p.right ≡ true)
      × (value_name casefold "process_name" p.left ≡ some p.identity)
      × (identity_of p.right ≡ some p.identity)
      × (p.left.case_id ≡ p.right.case_id)
      × (within_window p.left p.right window ≡ true)

  pairs-Matches :
      (events : List TimelineEvent) (window : ℕ) (kind : TimelineEvent → Bool)
      (identity_of : Identity) (p : Pair)
      → Among p (
          identity_time_pairs
            (process_events casefold events)
            (events_where kind events)
            (value_name casefold "process_name")
            identity_of
            window)
        ↔ Matches events window kind identity_of p
  unfolding process_events Together Matches
  pairs-Matches events window kind identity_of p =
      let (there, back) =
        identity_time_pairs-Together (process_events casefold events) (events_where kind events)
          (value_name casefold "process_name") identity_of window p in
      let (of_left, to_left) = events_where-Among (is_process_event casefold) p.left events in
      let (of_right, to_right) = events_where-Among kind p.right events in
      (
        λ h.
            let (l, r, i, j, c, w) = there h in
            ((of_left l).0, (of_right r).0, (of_left l).1, (of_right r).1, i, j, c, w),
        λ (l, r, a, b, i, j, c, w). back (to_left (l, a), to_right (r, b), i, j, c, w),
      )

  mapped-Matches :
      (f : Pair → CorrelationCandidate) (events : List TimelineEvent) (window : ℕ)
      (kind : TimelineEvent → Bool) (identity_of : Identity) (c : CorrelationCandidate)
      → Among c (
          map f (
            identity_time_pairs
              (process_events casefold events)
              (events_where kind events)
              (value_name casefold "process_name")
              identity_of
              window))
        ↔ ((p : Pair) × Matches events window kind identity_of p × (c ≡ f p))
  mapped-Matches f events window kind identity_of c =
      let (there, back) = map-Among f c (
        identity_time_pairs (process_events casefold events) (events_where kind events)
          (value_name casefold "process_name") identity_of window) in
      (
        λ h.
            let (p, x, e) = there h in (p, (pairs-Matches events window kind identity_of p).0 x, e),
        λ (p, x, e). back (p, (pairs-Matches events window kind identity_of p).1 x, e),
      )

  -- The Prefetch rule reports exactly the matches of a process creation and a Prefetch execution.
  pub evtx_prefetch-Matches :
      (events : List TimelineEvent) (window : ℕ) (c : CorrelationCandidate)
      → Among c (evtx_prefetch casefold events window).candidates ↔ (
          (p : Pair) × Matches events window
            (λ (e : TimelineEvent). is_prefetch e.event_type)
            (value_name casefold "application_name")
            p
          × (c ≡ prefetch_candidate casefold p))
  unfolding evtx_prefetch
  evtx_prefetch-Matches events window c =
      mapped-Matches (prefetch_candidate casefold) events window
        (λ (e : TimelineEvent). is_prefetch e.event_type) (value_name casefold "application_name") c

  -- The NTFS rule reports exactly the matches of a process creation and an NTFS observation.
  pub ntfs_evtx-Matches :
      (events : List TimelineEvent) (window : ℕ) (c : CorrelationCandidate)
      → Among c (ntfs_evtx casefold events window).candidates ↔ (
          (p : Pair) × Matches events window
            (λ (e : TimelineEvent). is_ntfs e.event_type)
            (value_basename casefold "filename")
            p
          × (c ≡ ntfs_candidate casefold p))
  unfolding ntfs_evtx
  ntfs_evtx-Matches events window c =
      mapped-Matches (ntfs_candidate casefold) events window
        (λ (e : TimelineEvent). is_ntfs e.event_type) (value_basename casefold "filename") c

  -- The full paths of the two events are not different ones.
  unfoldable pub SamePath : Pair → Type 0
  SamePath p =
      (a b : Text)
      → full_path_of casefold (get_value "process_path" p.left) ≡ some a
      → full_path_of casefold (get_value "target_path" p.right) ≡ some b
      → a ≡ b

  no_conflict :
      (o o' : Option Text)
      → (both_paths (λ a b. not (text_eq a b)) o o' ≡ false)
        ↔ ((a b : Text) → o ≡ some a → o' ≡ some b → a ≡ b)
  no_conflict none o' = (λ h a b e e'. cc, λ h. refl)
  no_conflict (some x) none = (λ h a b e e'. cc, λ h. refl)
  no_conflict (some x) (some y) = (
    λ h a b e e'.
        let same : x ≡ y = (text_eq_iff x y).0 (ground (arith, h)) in
        sym (some_injective e) ∙ same ∙ some_injective e',
    λ h. let same : text_eq x y ≡ true = (text_eq_iff x y).1 (h x y refl refl) in rw same refl,
  )

  lnk_candidates-Among :
      (c : CorrelationCandidate) (ps : List Pair)
      → Among c (lnk_candidates casefold ps)
        ↔ ((p : Pair) × Among p ps × SamePath p × (c ≡ lnk_candidate casefold p))
  unfolding lnk_candidates SamePath lnk_conflict
  lnk_candidates-Among c [] = (λ h. elim h [ ], λ h. h.1)
  lnk_candidates-Among c (q ∷ ps) =
      let (there, back) = lnk_candidates-Among c ps in
      let (to_same, from_same) =
        no_conflict (full_path_of casefold (get_value "process_path" q.left))
          (full_path_of casefold (get_value "target_path" q.right)) in
      elim (Bool-cases (lnk_conflict casefold q)) [
        | inl conflict ↦ rw conflict (
          λ h. let (p, x, s, e) = there h in (p, inr x, s, e),
          λ (p, x, s, e). elim x [
            | inl same ↦ elim (not_both conflict (from_same (rw same at s))) [ ]
            | inr r ↦ back (p, r, s, e)
          ],
        )
        | inr fine ↦ rw fine (
          λ h. elim h [
            | inl e ↦ (q, inl refl, to_same fine, e)
            | inr r ↦ let (p, x, s, e) = there r in (p, inr x, s, e)
          ],
          λ (p, x, s, e). elim x [
            | inl same ↦ inl (e ∙ ap (lnk_candidate casefold) same)
            | inr r ↦ inr (back (p, r, s, e))
          ],
        )
      ]

  -- The Shell Link rule reports exactly the matches of a process creation and a link observation
  -- whose full paths, where both are known, are the same.
  pub lnk_evtx-Matches :
      (events : List TimelineEvent) (window : ℕ) (c : CorrelationCandidate)
      → Among c (lnk_evtx casefold events window).candidates ↔ (
          (p : Pair) × Matches events window
            (λ (e : TimelineEvent). is_lnk e.event_type)
            (value_basename casefold "target_path")
            p
          × SamePath p
          × (c ≡ lnk_candidate casefold p))
  unfolding lnk_evtx
  lnk_evtx-Matches events window c =
      let kind = λ (e : TimelineEvent). is_lnk e.event_type in
      let identity_of = value_basename casefold "target_path" in
      let (there, back) = lnk_candidates-Among c (
        identity_time_pairs (process_events casefold events) (events_where kind events)
          (value_name casefold "process_name") identity_of window) in
      (
        λ h.
            let (p, x, s, e) = there h in
            (p, (pairs-Matches events window kind identity_of p).0 x, s, e),
        λ (p, x, s, e). back (p, (pairs-Matches events window kind identity_of p).1 x, s, e),
      )
