-- ===== src/Correlation/Timed.antt =====
-- No assertion of the rules fails: every event that is sorted and every pair has its times.
use dfir_investigation_workb.Prelude.{
  Bool, Bool-cases, List, Option, Text, [], ap, arith, false, inl, inr, map, none, ok, refl, some,
  true, ℕ, ◌&&◌, ◌++◌, ◌==◌, ◌∷◌, ◌≡◌,
}
use dfir_investigation_workb.Correlation.Events.{TimelineEvent, sort_events}
use dfir_investigation_workb.Correlation.Pairs.{
  Groups, Identity, Pair, all_pairs, group_events, group_of, has_time, identity_time_pairs,
  pairs_of, pairs_with, within_window,
}
use dfir_investigation_workb.Correlation.Candidates.{is_process_event, process_events}
use dfir_investigation_workb.Correlation.Rules.{
  evtx_prefetch, lnk_candidate, lnk_candidates, lnk_conflict, lnk_evtx, ntfs_evtx,
}
use dfir_investigation_workb.Correlation.Matching.{not_both}
use dfir_investigation_workb.Correlation.Grouping.{group_of-group_events, identity_is, members}
use dfir_investigation_workb.Correlation.Asserts.{
  all_timed, evaluate_evtx_prefetch, evaluate_lnk_evtx, evaluate_ntfs_evtx, pairs_timed,
  raising_all_pairs, raising_pairs, raising_pairs_of, sorted_events, unconflicted, with_deltas,
}

and_right : (a b : Bool) → (a && b) ≡ true → b ≡ true
and_right true b h = h
and_right false b h = elim (not_both h refl) [ ]

is_process_event-has_time :
    (casefold : Text → Text) (e : TimelineEvent)
    → is_process_event casefold e ≡ true
    → has_time e ≡ true
unfolding is_process_event
is_process_event-has_time casefold e h = ground (arith, h)

process_events-all_timed :
    (casefold : Text → Text) (events : List TimelineEvent)
    → all_timed (process_events casefold events) ≡ true
unfolding process_events
process_events-all_timed casefold [] = refl
process_events-all_timed casefold (e ∷ es) = elim (Bool-cases (is_process_event casefold e)) [
  | inl kept ↦
      rw (kept, is_process_event-has_time casefold e kept) (process_events-all_timed casefold es)
  | inr dropped ↦ rw dropped (process_events-all_timed casefold es)
]

members-all_timed :
    (identity_of : Identity) (key : Text) (es : List TimelineEvent)
    → all_timed (members identity_of key es) ≡ true
members-all_timed identity_of key [] = refl
members-all_timed identity_of key (e ∷ es) = elim (Bool-cases (has_time e)) [
  | inr timeless ↦ rw timeless (members-all_timed identity_of key es)
  | inl timed ↦ elim (Bool-cases (identity_is key (identity_of e))) [
    | inl here ↦ rw (timed, here, timed) (members-all_timed identity_of key es)
    | inr there ↦ rw (timed, there) (members-all_timed identity_of key es)
  ]
]

group_of-all_timed :
    (identity_of : Identity) (key : Text) (es : List TimelineEvent)
    → all_timed (group_of key (group_events identity_of es [])) ≡ true
unfolding group_of
group_of-all_timed identity_of key es =
    rw (group_of-group_events identity_of key es []) (members-all_timed identity_of key es)

raising_all_pairs-ok :
    (window : ℕ) (right_identity left_identity : Identity) (right es : List TimelineEvent)
    → raising_all_pairs window (group_events right_identity right []) left_identity es
      ≡ ok (all_pairs window (group_events right_identity right []) left_identity es)
unfolding raising_all_pairs all_pairs sorted_events
raising_all_pairs-ok window right_identity left_identity right [] = refl
raising_all_pairs-ok window right_identity left_identity right (e ∷ es) =
    rw (one (left_identity e), raising_all_pairs-ok window right_identity left_identity right es)
      refl
  where
    one :
        (identity : Option Text)
        → raising_pairs_of window (group_events right_identity right []) e identity
          ≡ ok (pairs_of window (group_events right_identity right []) e identity)
    one none = refl
    one (some key) = rw (group_of-all_timed right_identity key right) refl

raising_pairs-ok :
    (left right : List TimelineEvent) (left_identity right_identity : Identity) (window : ℕ)
    → all_timed left ≡ true
    → raising_pairs left right left_identity right_identity window
      ≡ ok (identity_time_pairs left right left_identity right_identity window)
unfolding raising_pairs sorted_events identity_time_pairs
raising_pairs-ok left right left_identity right_identity window timed =
    rw timed (raising_all_pairs-ok window right_identity left_identity right (sort_events left))

within_window-timed :
    (e f : TimelineEvent) (window : ℕ)
    → within_window e f window ≡ true
    → (has_time e ≡ true) × (has_time f ≡ true)
unfolding within_window
within_window-timed e f window h = (ground (arith, h), ground (arith, h))

pairs_with-timed :
    (window : ℕ) (e : TimelineEvent) (identity : Text) (fs : List TimelineEvent)
    → pairs_timed (pairs_with window e identity fs) ≡ true
unfolding pairs_with
pairs_with-timed window e identity [] = refl
pairs_with-timed window e identity (f ∷ fs) =
    elim (Bool-cases ((e.case_id == f.case_id) && within_window e f window)) [
      | inl fits ↦
          let (timed, timed') = within_window-timed e f window (and_right _ _ fits) in
          rw (fits, timed, timed') (pairs_with-timed window e identity fs)
      | inr apart ↦ rw apart (pairs_with-timed window e identity fs)
    ]

append-timed :
    (ps qs : List Pair)
    → pairs_timed ps ≡ true
    → pairs_timed qs ≡ true
    → pairs_timed (ps ++ qs) ≡ true
append-timed [] qs h h' = h'
append-timed (p ∷ ps) qs h h' =
    let rest = append-timed ps qs (ground (arith, h)) h' in ground (arith, h, rest)

all_pairs-timed :
    (window : ℕ) (groups : Groups) (left_identity : Identity) (es : List TimelineEvent)
    → pairs_timed (all_pairs window groups left_identity es) ≡ true
unfolding all_pairs
all_pairs-timed window groups left_identity [] = refl
all_pairs-timed window groups left_identity (e ∷ es) =
    append-timed (pairs_of window groups e (left_identity e)) _ (one (left_identity e))
      (all_pairs-timed window groups left_identity es)
  where
    one : (identity : Option Text) → pairs_timed (pairs_of window groups e identity) ≡ true
    one none = refl
    one (some key) = pairs_with-timed window e key (sort_events (group_of key groups))

with_deltas-ok : (ps : List Pair) → pairs_timed ps ≡ true → with_deltas ps ≡ ok ps
unfolding with_deltas
with_deltas-ok ps timed = rw timed refl

identity_time_pairs-timed :
    (left right : List TimelineEvent) (left_identity right_identity : Identity) (window : ℕ)
    → pairs_timed (identity_time_pairs left right left_identity right_identity window) ≡ true
unfolding identity_time_pairs
identity_time_pairs-timed left right left_identity right_identity window =
    all_pairs-timed window (group_events right_identity right []) left_identity (sort_events left)

module _ (casefold : Text → Text) where
  unconflicted-timed :
      (ps : List Pair) → pairs_timed ps ≡ true → pairs_timed (unconflicted casefold ps) ≡ true
  unfolding unconflicted
  unconflicted-timed [] h = refl
  unconflicted-timed (p ∷ ps) h =
      let rest = unconflicted-timed ps (ground (arith, h)) in
      elim (Bool-cases (lnk_conflict casefold p)) [
        | inl conflict ↦ rw conflict rest
        | inr agree ↦ rw agree (ground (arith, h, rest))
      ]

  map-unconflicted :
      (ps : List Pair)
      → map (lnk_candidate casefold) (unconflicted casefold ps) ≡ lnk_candidates casefold ps
  unfolding unconflicted lnk_candidates
  map-unconflicted [] = refl
  map-unconflicted (p ∷ ps) = elim (Bool-cases (lnk_conflict casefold p)) [
    | inl conflict ↦ rw conflict (map-unconflicted ps)
    | inr agree ↦ rw agree (ap (λ cs. lnk_candidate casefold p ∷ cs) (map-unconflicted ps))
  ]

  pub evaluate_evtx_prefetch-ok :
      (events : List TimelineEvent) (window : ℕ)
      → evaluate_evtx_prefetch casefold events window ≡ ok (evtx_prefetch casefold events window)
  unfolding evaluate_evtx_prefetch evtx_prefetch
  evaluate_evtx_prefetch-ok events window =
      rw
        (
          raising_pairs-ok (process_events casefold events) _ _ _ window
              (process_events-all_timed casefold events),
          with_deltas-ok _ (identity_time_pairs-timed _ _ _ _ window),
        )
        refl

  pub evaluate_lnk_evtx-ok :
      (events : List TimelineEvent) (window : ℕ)
      → evaluate_lnk_evtx casefold events window ≡ ok (lnk_evtx casefold events window)
  unfolding evaluate_lnk_evtx lnk_evtx
  evaluate_lnk_evtx-ok events window =
      rw
        (
          raising_pairs-ok (process_events casefold events) _ _ _ window
              (process_events-all_timed casefold events),
          with_deltas-ok _ (unconflicted-timed _ (identity_time_pairs-timed _ _ _ _ window)),
          map-unconflicted,
        )
        refl

  pub evaluate_ntfs_evtx-ok :
      (events : List TimelineEvent) (window : ℕ)
      → evaluate_ntfs_evtx casefold events window ≡ ok (ntfs_evtx casefold events window)
  unfolding evaluate_ntfs_evtx ntfs_evtx
  evaluate_ntfs_evtx-ok events window =
      rw
        (
          raising_pairs-ok (process_events casefold events) _ _ _ window
              (process_events-all_timed casefold events),
          with_deltas-ok _ (identity_time_pairs-timed _ _ _ _ window),
        )
        refl
