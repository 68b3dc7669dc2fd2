-- ===== src/Correlation/Events.antt =====
-- The timeline events that the rules of backend/app/correlation/rules.py read, and their order.
use dfir_investigation_workb.Json.{Dict, Value, get}
use Prim.Native.Nat.{compare, Ordering}
use dfir_investigation_workb.Prelude.{
  Bool, Datetime, List, Option, String, Text, [], false, if◌then◌else◌, lit, none, some, true, ℕ,
  ◌∷◌,
}
use dfir_investigation_workb.Domain.{ArtifactType, TimelineEventType}

-- `id` is the text of the identifier, by which events are ordered.
pub record TimelineEvent : Type 0 where
  pub id : Text
  pub case_id : ℕ
  pub artifact_record_id : ℕ
  pub artifact_type : ArtifactType
  pub event_type : TimelineEventType
  pub event_time : Option Datetime
  pub source_identifier : Option Text
  pub time_source : Text
  pub event_ordinal : ℕ
  pub metadata : Dict

abbrev pub get_value : String → TimelineEvent → Value
get_value key e = get (lit key) e.metadata

-- The comparison of two keys goes on only where they are equal.
abbrev pub then_compare : Ordering → Ordering → Ordering
then_compare Ordering.eq o = o
then_compare o _ = o

-- `<`, `==` or `>` on texts
unfoldable pub compare_text : Text → Text → Ordering
compare_text [] [] = Ordering.eq
compare_text [] (y ∷ ys) = Ordering.lt
compare_text (x ∷ xs) [] = Ordering.gt
compare_text (x ∷ xs) (y ∷ ys) = let rest = compare_text xs ys in then_compare (compare x y) rest

abbrev pub or_empty : Option Text → Text
or_empty none = []
or_empty (some t) = t

abbrev pub time_or_zero : Option Datetime → Datetime
time_or_zero none = 0
time_or_zero (some t) = t

-- `_event_sort_key`, as a comparison of events that have passed its assertion: Asserts has the sort
-- that raises where an event has no time.
unfoldable pub compare_events : TimelineEvent → TimelineEvent → Ordering
unfolding compare_text
compare_events a b =
    then_compare (compare (time_or_zero a.event_time) (time_or_zero b.event_time)) (
      then_compare (compare_text (or_empty a.source_identifier) (or_empty b.source_identifier)) (
        then_compare (compare_text a.time_source b.time_source)
          (then_compare (compare a.event_ordinal b.event_ordinal) (compare_text a.id b.id))))

abbrev pub not_after : Ordering → Bool
not_after Ordering.gt = false
not_after _ = true

-- `sorted(events, key=_event_sort_key)`, which is stable
unfoldable pub insert_event : TimelineEvent → List TimelineEvent → List TimelineEvent
unfolding compare_events
insert_event e [] = e ∷ []
insert_event e (f ∷ fs) =
    if not_after (compare_events e f) then e ∷ f ∷ fs else f ∷ insert_event e fs

unfoldable pub sort_events : List TimelineEvent → List TimelineEvent
unfolding insert_event
sort_events [] = []
sort_events (e ∷ es) = insert_event e (sort_events es)
