-- ===== src/Services/Runs/Repeats.antt =====
-- What a run finds already stored, and what a second run adds.
use dfir_investigation_workb.Services.Session.{
  CorrelationMatch, CorrelationRun, Session, Tables, answered,
}
use dfir_investigation_workb.Prelude.{
  All, Bool-cases, List, Option, Text, [], ap, arith, inl, inr, none, refl, some, text_eq,
  text_eq_refl, ℕ, ◌++◌, ◌∙◌, ◌∷◌, ◌≡◌,
}
use dfir_investigation_workb.Correlation.Candidates.{CorrelationCandidate}
use dfir_investigation_workb.Correlation.Events.{TimelineEvent}
use dfir_investigation_workb.Services.Runs.{
  Outside, case_events, find_match, finish_run, match_key, new_match, persist, persist_all,
  persist_new, run_body, unless_existing,
}
use dfir_investigation_workb.Services.Session.Rules.{
  WhenOk, WhenOk-map, after-WhenOk, after-commit, after-flush, after-query, after-refresh,
}
use dfir_investigation_workb.Services.Runs.Evaluations.{found_in}

-- a match with the key is there
abbrev pub Known : Text → List CorrelationMatch → Type 0
Known key ms = (m : CorrelationMatch) × (find_match key ms ≡ some m)

abbrev pub Extends : List CorrelationMatch → List CorrelationMatch → Type 0
Extends ms ms' = (key : Text) → Known key ms → Known key ms'

find_match-kept :
    (key : Text) (ms : List CorrelationMatch) (m found : CorrelationMatch)
    → find_match key ms ≡ some found
    → find_match key (ms ++ m ∷ []) ≡ some found
unfolding find_match
find_match-kept key [] m found h = cc
find_match-kept key (x ∷ ms) m found h = ground (arith, find_match-kept key ms m found)

append-Extends : (ms : List CorrelationMatch) (m : CorrelationMatch) → Extends ms (ms ++ m ∷ [])
append-Extends ms m key (found, h) = (found, find_match-kept key ms m found h)

append-Known :
    (ms : List CorrelationMatch) (m : CorrelationMatch) → Known m.deterministic_key (ms ++ m ∷ [])
unfolding find_match
append-Known [] m = (m, rw (text_eq_refl m.deterministic_key) refl)
append-Known (x ∷ ms) m = elim (Bool-cases (text_eq x.deterministic_key m.deterministic_key)) [
  | inl hit ↦ (x, rw hit refl)
  | inr miss ↦ let (found, h) = append-Known ms m in (found, rw miss h)
]

module _ (o : Outside) (case_id window : ℕ) where
  -- every candidate has a match
  abbrev pub AllKnown : List CorrelationCandidate → Tables → Type 0
  AllKnown cs t =
      All (λ (c : CorrelationCandidate). Known (match_key o case_id window c) t.correlation_matches)
        cs

  AllKnown-Extends :
      (cs : List CorrelationCandidate) (t t' : Tables)
      → Extends t.correlation_matches t'.correlation_matches
      → AllKnown cs t
      → AllKnown cs t'
  AllKnown-Extends [] t t' more known = tt
  AllKnown-Extends (c ∷ cs) t t' more (one, known) =
      (more (match_key o case_id window c) one, AllKnown-Extends cs t t' more known)

  abbrev Grows : List CorrelationCandidate → Session → ℕ × ℕ → Session → Type 0
  Grows cs s counts s' =
      Extends s.working.correlation_matches s'.working.correlation_matches
      × AllKnown cs s'.working
      × (s'.working.timeline_events ≡ s.working.timeline_events)

  persist_new-Grows :
      (c : CorrelationCandidate) (n k : ℕ) (s : Session)
      → WhenOk (Grows (c ∷ []) s) (persist_new o case_id window c n k s)
  unfolding persist_new
  persist_new-Grows c n k s =
      let ms = s.working.correlation_matches in
      let m = new_match o case_id window c n in
      after-flush (WhenOk (Grows (c ∷ []) s)) _ _ tt (
        after-flush (WhenOk (Grows (c ∷ []) s)) _ _ tt
          (append-Extends ms m, (append-Known ms m, tt), refl))

  unless_existing-Grows :
      (c : CorrelationCandidate) (n k : ℕ) (s : Session) (found : Option CorrelationMatch)
      → find_match (match_key o case_id window c) s.working.correlation_matches ≡ found
      → WhenOk (Grows (c ∷ []) s) (unless_existing o case_id window c n k found s)
  unfolding unless_existing
  unless_existing-Grows c n k s none h = persist_new-Grows c n k s
  unless_existing-Grows c n k s (some m) h = (λ key known. known, ((m, h), tt), refl)

  persist-Grows :
      (c : CorrelationCandidate) (n k : ℕ) (s : Session)
      → WhenOk (Grows (c ∷ []) s) (persist o case_id window c n k s)
  unfolding persist
  persist-Grows c n k s =
      after-query (WhenOk (Grows (c ∷ []) s)) s _ _ tt
        (unless_existing-Grows c n k (answered s) _ refl)

  -- Behind the loop every candidate has a match, and no match is lost.
  pub persist_all-Grows :
      (cs : List CorrelationCandidate) (n k : ℕ) (s : Session)
      → WhenOk (Grows cs s) (persist_all o case_id window cs n k s)
  unfolding persist_all
  persist_all-Grows [] n k s = (λ key known. known, tt, refl)
  persist_all-Grows (c ∷ cs) n k s =
      after-WhenOk (Grows (c ∷ []) s) (Grows (c ∷ cs) s) (persist o case_id window c n k s) _
        (persist-Grows c n k s)
        (λ counts s' (more, (one, _), events).
          WhenOk-map (Grows cs s') (Grows (c ∷ cs) s)
            (persist_all o case_id window cs counts.0 counts.1 s')
            (λ _ s'' (more', known, events').
              (λ key known'. more' key (more key known'), (more' _ one, known), events' ∙ events))
            (persist_all-Grows cs counts.0 counts.1 s'))

  -- A loop all of whose candidates have a match adds nothing.
  abbrev Unmoved : ℕ → ℕ → Session → ℕ × ℕ → Session → Type 0
  Unmoved n k s counts s' = (counts ≡ (n, k)) × (s'.working ≡ s.working)

  unless_existing-Unmoved :
      (c : CorrelationCandidate) (n k : ℕ) (s : Session) (found : Option CorrelationMatch)
      → ((m : CorrelationMatch) × (found ≡ some m))
      → WhenOk (Unmoved n k s) (unless_existing o case_id window c n k found s)
  unfolding unless_existing
  unless_existing-Unmoved c n k s none (m, h) = cc
  unless_existing-Unmoved c n k s (some m) h = (refl, refl)

  persist_all-Unmoved :
      (cs : List CorrelationCandidate) (n k : ℕ) (s : Session)
      → AllKnown cs s.working
      → WhenOk (Unmoved n k s) (persist_all o case_id window cs n k s)
  unfolding persist_all persist
  persist_all-Unmoved [] n k s known = (refl, refl)
  persist_all-Unmoved (c ∷ cs) n k s (one, known) =
      after-WhenOk (Unmoved n k s) (Unmoved n k s) (persist o case_id window c n k s) _
        (after-query (WhenOk (Unmoved n k s)) s _ _ tt
          (unless_existing-Unmoved c n k (answered s) _ one))
        (λ counts s' (same, still). rw same (
          WhenOk-map (Unmoved n k s') (Unmoved n k s) (persist_all o case_id window cs n k s')
            (λ _ s'' (same', still'). (same', still' ∙ still))
            (persist_all-Unmoved cs n k s' (rw still known))))

  -- the candidates that a run finds in the tables
  abbrev pub candidates_in : Tables → List CorrelationCandidate
  candidates_in t =
      (found_in o case_id window (o.order_by (case_events case_id t.timeline_events))).0

  abbrev pub Found :
      List CorrelationCandidate → List TimelineEvent → CorrelationRun → Session → Type 0
  Found cs events row s = AllKnown cs s.stored × (s.stored.timeline_events ≡ events)

  finish_run-Found :
      (cs : List CorrelationCandidate) (events : List TimelineEvent) (event_count : ℕ)
      (warnings : List Text) (n k : ℕ) (s : Session)
      → AllKnown cs s.working
      → s.working.timeline_events ≡ events
      → WhenOk (Found cs events) (finish_run o case_id window event_count warnings n k s)
  unfolding finish_run
  finish_run-Found cs events event_count warnings n k s known same =
      after-commit (WhenOk (Found cs events)) _ _ tt
        (after-refresh (WhenOk (Found cs events)) _ _ tt (known, same))

  pub run_body-Found :
      (event_count : ℕ) (cs : List CorrelationCandidate) (warnings : List Text) (s : Session)
      → WhenOk
          (Found cs s.working.timeline_events)
          (run_body o case_id window event_count cs warnings s)
  unfolding run_body
  run_body-Found event_count cs warnings s =
      after-flush (WhenOk (Found cs s.working.timeline_events)) _ _ tt (
        after-WhenOk _ (Found cs s.working.timeline_events) (persist_all o case_id window cs 0 0 _)
          _ (persist_all-Grows cs 0 0 _)
          (λ counts s' (more, known, same).
            finish_run-Found cs s.working.timeline_events event_count warnings counts.0 counts.1 s'
              known same))

  abbrev pub AddsNothing : Tables → CorrelationRun → Session → Type 0
  AddsNothing t row s =
      (row.matched_count ≡ 0)
      × (row.finding_count ≡ 0)
      × (s.stored.correlation_matches ≡ t.correlation_matches)
      × (s.stored.match_events ≡ t.match_events)
      × (s.stored.findings ≡ t.findings)

  finish_run-AddsNothing :
      (t : Tables) (event_count : ℕ) (warnings : List Text) (n k : ℕ) (s : Session)
      → n ≡ 0
      → k ≡ 0
      → s.working.correlation_matches ≡ t.correlation_matches
      → s.working.match_events ≡ t.match_events
      → s.working.findings ≡ t.findings
      → WhenOk (AddsNothing t) (finish_run o case_id window event_count warnings n k s)
  unfolding finish_run
  finish_run-AddsNothing t event_count warnings n k s no_match no_finding matches links findings =
      after-commit (WhenOk (AddsNothing t)) _ _ tt (
        after-refresh (WhenOk (AddsNothing t)) _ _ tt
          (no_match, no_finding, matches, links, findings))

  pub run_body-AddsNothing :
      (event_count : ℕ) (cs : List CorrelationCandidate) (warnings : List Text) (s : Session)
      → AllKnown cs s.working
      → WhenOk (AddsNothing s.working) (run_body o case_id window event_count cs warnings s)
  unfolding run_body
  run_body-AddsNothing event_count cs warnings s known =
      after-flush (WhenOk (AddsNothing s.working)) _ _ tt (
        after-WhenOk _ (AddsNothing s.working) (persist_all o case_id window cs 0 0 _) _
          (persist_all-Unmoved cs 0 0 _ known)
          (λ counts s' (none_more, still).
            finish_run-AddsNothing s.working event_count warnings counts.0 counts.1 s'
              (ap (λ (c : ℕ × ℕ). c.0) none_more) (ap (λ (c : ℕ × ℕ). c.1) none_more)
              (ap (λ (t : Tables). t.correlation_matches) still)
              (ap (λ (t : Tables). t.match_events) still) (ap (λ (t : Tables). t.findings) still)))
