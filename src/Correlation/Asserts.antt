-- ===== src/Correlation/Asserts.antt =====
-- The assertions of `_event_sort_key` and `_delta` in backend/app/correlation/rules.py, and the rules as
-- evaluations that raise where one fails.
use dfir_investigation_workb.Prelude.{
  Bool, List, Option, Result, Text, [], err, if◌then◌else◌, map, none, ok, some, true, ℕ, ◌&&◌,
  ◌++◌, ◌>>=◌, ◌∷◌,
}
use dfir_investigation_workb.Correlation.Events.{TimelineEvent, sort_events}
use dfir_investigation_workb.Correlation.Pairs.{
  Groups, Identity, Pair, group_events, group_of, has_time, pairs_with,
}
use dfir_investigation_workb.Correlation.Candidates.{
  RuleEvaluation, events_where, is_lnk, is_ntfs, is_prefetch, process_events, value_basename,
  value_name,
}
use dfir_investigation_workb.Correlation.Rules.{
  lnk_candidate, lnk_conflict, ntfs_candidate, prefetch_candidate,
}

-- Python's AssertionError
pub data RuleError : Type 0 where
  assertion_failed : RuleError

abbrev pub all_timed : List TimelineEvent → Bool
all_timed [] = true
all_timed (e ∷ es) = has_time e && all_timed es

-- `sorted(events, key=_event_sort_key)`: the keys of all events are computed before any is compared.
unfoldable pub sorted_events : List TimelineEvent → Result RuleError (List TimelineEvent)
sorted_events es = if all_timed es then ok (sort_events es) else err assertion_failed

abbrev pub raising_pairs_of :
    ℕ → Groups → TimelineEvent → Option Text → Result RuleError (List Pair)
raising_pairs_of window groups e none = ok []
raising_pairs_of window groups e (some identity) = do
  others ← sorted_events (group_of identity groups)
  ok (pairs_with window e identity others)

unfoldable pub raising_all_pairs :
    ℕ → Groups → Identity → List TimelineEvent → Result RuleError (List Pair)
raising_all_pairs window groups left_identity [] = ok []
raising_all_pairs window groups left_identity (e ∷ es) = do
  pairs ← raising_pairs_of window groups e (left_identity e)
  later ← raising_all_pairs window groups left_identity es
  ok (pairs ++ later)

-- `_identity_time_pairs`, with the assertions of its two sorts
unfoldable pub raising_pairs :
    List TimelineEvent → List TimelineEvent → Identity → Identity → ℕ → Result RuleError (List Pair)
raising_pairs left right left_identity right_identity window = do
  sorted ← sorted_events left
  raising_all_pairs window (group_events right_identity right []) left_identity sorted

abbrev pub pairs_timed : List Pair → Bool
pairs_timed [] = true
pairs_timed (p ∷ ps) = has_time p.left && has_time p.right && pairs_timed ps

-- the assertion of `_delta`, for each pair that it is called with
unfoldable pub with_deltas : List Pair → Result RuleError (List Pair)
with_deltas ps = if pairs_timed ps then ok ps else err assertion_failed

module _ (casefold : Text → Text) where
  unfoldable pub evaluate_evtx_prefetch : List TimelineEvent → ℕ → Result RuleError RuleEvaluation
  evaluate_evtx_prefetch events window = do
    pairs ←
        raising_pairs (process_events casefold events)
          (events_where (λ (e : TimelineEvent). is_prefetch e.event_type) events)
          (value_name casefold "process_name") (value_name casefold "application_name") window
    kept ← with_deltas pairs
    ok (record { candidates = map (prefetch_candidate casefold) kept; warnings = [] })

  -- the pairs behind the `continue`
  unfoldable pub unconflicted : List Pair → List Pair
  unconflicted [] = []
  unconflicted (p ∷ ps) =
      let rest = unconflicted ps in if lnk_conflict casefold p then rest else p ∷ rest

  unfoldable pub evaluate_lnk_evtx : List TimelineEvent → ℕ → Result RuleError RuleEvaluation
  evaluate_lnk_evtx events window = do
    pairs ←
        raising_pairs (process_events casefold events)
          (events_where (λ (e : TimelineEvent). is_lnk e.event_type) events)
          (value_name casefold "process_name") (value_basename casefold "target_path") window
    kept ← with_deltas (unconflicted pairs)
    ok (record { candidates = map (lnk_candidate casefold) kept; warnings = [] })

  unfoldable pub evaluate_ntfs_evtx : List TimelineEvent → ℕ → Result RuleError RuleEvaluation
  evaluate_ntfs_evtx events window = do
    pairs ←
        raising_pairs (process_events casefold events)
          (events_where (λ (e : TimelineEvent). is_ntfs e.event_type) events)
          (value_name casefold "process_name") (value_basename casefold "filename") window
    kept ← with_deltas pairs
    ok (record { candidates = map (ntfs_candidate casefold) kept; warnings = [] })
