-- ===== src/Timeline/Counts.antt =====
-- Which events `_prefetch` of backend/app/services/timeline_normalizer.py makes, and how long the
-- descriptions of all events are.
use dfir_investigation_workb.Prelude.{
  All, Bool, Bool-cases, List, Text, [], arith, decimal, false, if◌then◌else◌, inl, inr, length,
  length-take, lit, map, not, refl, suc, text_eq, true, zero, ℕ, ◌&&◌, ◌++◌, ◌+◌, ◌<◌, ◌==◌, ◌∷◌,
  ◌≡◌, ◌≤◌,
}
use dfir_investigation_workb.Domain.{ArtifactType}
use dfir_investigation_workb.Json.{Value, get_field}
use dfir_investigation_workb.Timeline.Times.{Python}
use dfir_investigation_workb.Timeline.Identity.{as_list}
use dfir_investigation_workb.Timeline.Normalizer.{
  ArtifactRecord, NormalizedTimelineEvent, description_of, event_of_evtx, event_of_registry,
  string_at,
}
use dfir_investigation_workb.Timeline.Mappings.{
  execution_event, executions, has_time, larger, link_event, normalize, normalize_prefetch,
  ntfs_event, prefetch_times,
}
use dfir_investigation_workb.Timeline.Every.{Each, normalize-All}

description_of-le : (t : Text) → length (description_of t) ≤ 1000
unfolding description_of
description_of-le t = omega (arith, length-take 1000 t)

Each-fits :
    (python : Python) (r : ArtifactRecord)
    → Each python (λ (e : NormalizedTimelineEvent). length e.description ≤ 1000) r
unfolding event_of_evtx event_of_registry execution_event link_event ntfs_event
Each-fits python r = record {
  of_evtx = λ raw. description_of-le _;
  of_registry = λ raw. description_of-le _;
  of_execution = λ index normalized raw. description_of-le _;
  of_link = λ ordinal t normalized raw. description_of-le _;
  of_ntfs = λ family filename parent ordinal f normalized raw. description_of-le _;
}

-- Every description fits the column of backend/app/db/models/timeline.py: it has no more than 1000
-- characters, whatever the record holds.
pub normalize-fits :
    (python : Python) (t : ArtifactType) (r : ArtifactRecord)
    → All
        (λ (e : NormalizedTimelineEvent). length e.description ≤ 1000)
        (normalize python t r).events
normalize-fits python t r = normalize-All python _ r (Each-fits python r) t

-- `range(index, index + left)`
abbrev pub positions : ℕ → ℕ → List ℕ
positions index zero = []
positions index (suc left) = index ∷ positions (index + 1) left

abbrev pub positions_where : (ℕ → Bool) → List ℕ → List ℕ
positions_where test [] = []
positions_where test (i ∷ is) =
    if test i then i ∷ positions_where test is else positions_where test is

-- one of the two lists has a text at the position
abbrev pub is_timed : List Value → List Value → ℕ → Bool
is_timed times raw_times i = has_time (string_at times i) (string_at raw_times i)

-- the event, and the warning, of a position
abbrev pub event_at_position :
    Python → ArtifactRecord → List Value → List Value → ℕ → NormalizedTimelineEvent
event_at_position python r times raw_times i =
    execution_event python r i (string_at times i) (string_at raw_times i)

abbrev pub warning_at_position : ℕ → Text
warning_at_position i = lit "Prefetch execution timestamp " ++ (decimal i ++ lit " is empty")

module _ (python : Python) (r : ArtifactRecord) (times raw_times : List Value) where
  -- the loop from a position on
  executions-positions :
      (left index : ℕ)
      → executions python r times raw_times left index ≡ (
        map
            (event_at_position python r times raw_times)
            (positions_where (is_timed times raw_times) (positions index left)),
        map warning_at_position
            (positions_where (λ i. not (is_timed times raw_times i)) (positions index left)),
      )
  unfolding executions
  executions-positions zero index = refl
  executions-positions (suc left) index = elim (Bool-cases (is_timed times raw_times index)) [
    | inl timed ↦ rw (executions-positions left (index + 1), timed) refl
    | inr empty ↦ rw (executions-positions left (index + 1), empty) refl
  ]

-- the two lists that `_prefetch` reads
abbrev pub execution_times : ArtifactRecord → List Value
execution_times r = as_list (get_field "execution_times" r.body)

abbrev pub raw_execution_times : ArtifactRecord → List Value
raw_execution_times r = as_list (get_field "execution_time_filetime_values" r.body)

-- how many positions the two lists have
abbrev pub position_count : ArtifactRecord → ℕ
position_count r = larger (length (execution_times r)) (length (raw_execution_times r))

abbrev pub is_timed_in : ArtifactRecord → ℕ → Bool
is_timed_in r = is_timed (execution_times r) (raw_execution_times r)

some_position : (a b : ℕ) → 0 < larger a b → ((b == 0) && (a == 0)) ≡ false
some_position a b h = ground (arith, h)

-- If a Prefetch record has an execution time at all, then its events are, in order, those of the
-- positions of its two lists of execution times at which one of them has a text, and its warnings
-- are, in order, those of all other positions: none is dropped silently, from the first to the last.
pub normalize_prefetch-positions :
    (python : Python) (r : ArtifactRecord)
    → text_eq r.record_type (lit "PREFETCH_FILE") ≡ true
    → 0 < position_count r
    → ((normalize_prefetch python r).events
        ≡ map
            (event_at_position python r (execution_times r) (raw_execution_times r))
            (positions_where (is_timed_in r) (positions 0 (position_count r))))
      × ((normalize_prefetch python r).warnings
          ≡ map warning_at_position
              (positions_where (λ i. not (is_timed_in r i)) (positions 0 (position_count r))))
unfolding normalize_prefetch prefetch_times
normalize_prefetch-positions python r kind some_time =
    let found =
      executions-positions python r (execution_times r) (raw_execution_times r) (position_count r)
        0 in
    rw
      (
        kind,
        some_position (length (execution_times r)) (length (raw_execution_times r)) some_time,
        found,
      )
      (refl, refl)
