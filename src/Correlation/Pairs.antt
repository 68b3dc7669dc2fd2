-- ===== src/Correlation/Pairs.antt =====
-- `_identity_time_pairs` and `_within_window` of backend/app/correlation/rules.py.
use dfir_investigation_workb.Prelude.{
  Bool, Datetime, List, Option, Text, [], false, if◌then◌else◌, leb, none, some, text_eq, true, ℕ,
  ◌&&◌, ◌*◌, ◌++◌, ◌+◌, ◌-◌, ◌==◌, ◌∷◌,
}
use dfir_investigation_workb.Correlation.Events.{TimelineEvent, sort_events}

abbrev pub distance : Datetime → Datetime → ℕ
distance a b = (a - b) + (b - a)

-- `_within_window`; the window is in seconds, the times in microseconds
unfoldable pub within_window : TimelineEvent → TimelineEvent → ℕ → Bool
within_window left right seconds = elim left.event_time [
  | none ↦ false
  | some a ↦ elim right.event_time [
    | none ↦ false
    | some b ↦ leb (distance a b) (seconds * 1000000)
  ]
]

abbrev pub Groups : Type 0
Groups = List (Text × List TimelineEvent)

-- `grouped.setdefault(identity, []).append(event)`
unfoldable pub add_to_group : Text → TimelineEvent → Groups → Groups
add_to_group key e [] = (key, e ∷ []) ∷ []
add_to_group key e ((k, es) ∷ rest) =
    if text_eq k key then (k, es ++ e ∷ []) ∷ rest else (k, es) ∷ add_to_group key e rest

-- `grouped.get(identity, [])`
unfoldable pub group_of : Text → Groups → List TimelineEvent
group_of key [] = []
group_of key ((k, es) ∷ rest) = if text_eq k key then es else group_of key rest

abbrev pub has_time : TimelineEvent → Bool
has_time e = elim e.event_time [ none ↦ false | some t ↦ true ]

abbrev pub Identity : Type 0
Identity = TimelineEvent → Option Text

abbrev pub add_identified : Option Text → TimelineEvent → Groups → Groups
add_identified none e groups = groups
add_identified (some key) e groups = add_to_group key e groups

-- the first loop
unfoldable pub group_events : Identity → List TimelineEvent → Groups → Groups
group_events right_identity [] groups = groups
group_events right_identity (e ∷ es) groups =
    group_events right_identity es
      (if has_time e then add_identified (right_identity e) e groups else groups)

pub record Pair : Type 0 where
  pub left : TimelineEvent
  pub right : TimelineEvent
  pub identity : Text

-- the inner loop: the events of one group that fit one event
unfoldable pub pairs_with : ℕ → TimelineEvent → Text → List TimelineEvent → List Pair
pairs_with window e identity [] = []
pairs_with window e identity (f ∷ fs) =
    let rest = pairs_with window e identity fs in
    if (e.case_id == f.case_id) && within_window e f window
    then record { left = e; right = f; identity = identity } ∷ rest
    else rest

abbrev pub pairs_of : ℕ → Groups → TimelineEvent → Option Text → List Pair
pairs_of window groups e none = []
pairs_of window groups e (some identity) =
    pairs_with window e identity (sort_events (group_of identity groups))

-- the outer loop, over the sorted events
unfoldable pub all_pairs : ℕ → Groups → Identity → List TimelineEvent → List Pair
all_pairs window groups left_identity [] = []
all_pairs window groups left_identity (e ∷ es) =
    pairs_of window groups e (left_identity e) ++ all_pairs window groups left_identity es

unfoldable pub identity_time_pairs :
    List TimelineEvent → List TimelineEvent → Identity → Identity → ℕ → List Pair
identity_time_pairs left right left_identity right_identity window =
    all_pairs window (group_events right_identity right []) left_identity (sort_events left)
