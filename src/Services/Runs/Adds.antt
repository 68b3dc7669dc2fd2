-- ===== src/Services/Runs/Adds.antt =====
-- The matches that the loop of `run` adds to the tables, each with its links, its finding and its
-- audit event.
use dfir_investigation_workb.Services.Session.{
  Action, CorrelationMatch, ServiceError, Session, Tables, after, answered,
}
use dfir_investigation_workb.Prelude.{
  List, Option, Result, [], err, none, ok, refl, some, ℕ, ◌++◌, ◌+◌, ◌∷◌, ◌≡◌,
}
use dfir_investigation_workb.Correlation.Candidates.{CorrelationCandidate}
use dfir_investigation_workb.Services.Runs.{
  Outside, created_event, find_match, match_key, new_finding, new_links, new_match, persist,
  persist_all, persist_new, unless_existing,
}
use dfir_investigation_workb.Services.Session.Rules.{after-flush, after-query}

module _ (o : Outside) (case_id window : ℕ) where
  -- what creating the n-th match leaves in the tables
  abbrev pub added : CorrelationCandidate → ℕ → Tables → Tables
  added c n t = record t {
    correlation_matches = t.correlation_matches ++ new_match o case_id window c n ∷ [];
    match_events = t.match_events ++ new_links o case_id window c n;
    findings = t.findings ++ new_finding o case_id window c n n ∷ [];
    audit_events = t.audit_events ++ created_event o case_id window c n n ∷ [];
  }

  -- `Adds t t' n`: from `t` to `t'`, n matches were added, each with a key that no match had before.
  pub data Adds (t : Tables) : Tables → ℕ → Type 0 where
    nothing : Adds t t 0
    one_more :
        {t' : Tables} {n : ℕ} (c : CorrelationCandidate)
        → Adds t t' n
        → find_match (match_key o case_id window c) t'.correlation_matches ≡ none
        → Adds t (added c n t') (n + 1)

  -- How a piece of the loop ends that has counted the matches since the tables were `t`.
  abbrev pub Counted : Tables → Tables → Result ServiceError (ℕ × ℕ) × Session → Type 0
  Counted stored t (ok (n, k), s) = (s.stored ≡ stored) × (k ≡ n) × Adds t s.working n
  Counted stored t (err e, s) = s.stored ≡ stored

  module _ (stored t : Tables) where
    persist_new-Counted :
        (c : CorrelationCandidate) (n : ℕ) (s : Session)
        → s.stored ≡ stored
        → Adds t s.working n
        → find_match (match_key o case_id window c) s.working.correlation_matches ≡ none
        → Counted stored t (persist_new o case_id window c n n s)
    unfolding persist_new
    persist_new-Counted c n s same before absent =
        after-flush (Counted stored t) _ _ same
          (after-flush (Counted stored t) _ _ same (same, refl, one_more c before absent))

    unless_existing-Counted :
        (c : CorrelationCandidate) (n : ℕ) (s : Session) (found : Option CorrelationMatch)
        → find_match (match_key o case_id window c) s.working.correlation_matches ≡ found
        → s.stored ≡ stored
        → Adds t s.working n
        → Counted stored t (unless_existing o case_id window c n n found s)
    unfolding unless_existing
    unless_existing-Counted c n s none absent same before =
        persist_new-Counted c n s same before absent
    unless_existing-Counted c n s (some m) present same before = (same, refl, before)

    persist-Counted :
        (c : CorrelationCandidate) (n : ℕ) (s : Session)
        → s.stored ≡ stored
        → Adds t s.working n
        → Counted stored t (persist o case_id window c n n s)
    unfolding persist
    persist-Counted c n s same before =
        after-query (Counted stored t) s _ _ same
          (unless_existing-Counted c n (answered s) _ refl same before)

    -- What comes behind a piece of the loop holds if it holds for both of its ends.
    pub after-Counted :
        {X : Type 0} (P : Result ServiceError X × Session → Type 0) (f : ℕ × ℕ → Action X)
        (r : Result ServiceError (ℕ × ℕ) × Session)
        → Counted stored t r
        → ((n : ℕ) (s : Session) → s.stored ≡ stored → Adds t s.working n → P (f (n, n) s))
        → ((e : ServiceError) (s : Session) → s.stored ≡ stored → P (err e, s))
        → P (after r f)
    after-Counted P f (ok (n, k), s) (kept, even, more) goes_on fails =
        rw even (goes_on n s kept more)
    after-Counted P f (err e, s) kept goes_on fails = fails e s kept

    -- The loop adds a match for some of the candidates, and counts them; an error stores nothing.
    pub persist_all-Counted :
        (cs : List CorrelationCandidate) (n : ℕ) (s : Session)
        → s.stored ≡ stored
        → Adds t s.working n
        → Counted stored t (persist_all o case_id window cs n n s)
    unfolding persist_all
    persist_all-Counted [] n s same before = (same, refl, before)
    persist_all-Counted (c ∷ cs) n s same before =
        after-Counted (Counted stored t) _ (persist o case_id window c n n s)
          (persist-Counted c n s same before)
          (λ n' s' kept more. persist_all-Counted cs n' s' kept more) (λ e s' kept. kept)
