-- ===== src/Timeline/Keys.antt =====
-- The logical identity of timeline events, the columns of the constraint
-- uq_timeline_events_logical_identity of backend/app/db/models/timeline.py.
use dfir_investigation_workb.Prelude.{
  All, Bool, List, Text, [], ap, arith, false, if◌then◌else◌, true, ℕ, ◌*◌, ◌++◌, ◌+◌, ◌<◌, ◌∷◌,
  ◌≡◌, ◌≤◌,
}
use dfir_investigation_workb.Domain.{TimelineEventType}
use dfir_investigation_workb.Timeline.Normalizer.{NormalizedTimelineEvent}

-- what the constraint compares in the events of one record
unfoldable pub SameKey : NormalizedTimelineEvent → NormalizedTimelineEvent → Type 0
SameKey e f =
    (e.event_type ≡ f.event_type)
    × (e.time_source ≡ f.time_source)
    × (e.event_ordinal ≡ f.event_ordinal)

-- no two events of the list have the same key
abbrev pub AllDistinct : List NormalizedTimelineEvent → Type 0
AllDistinct [] = Unit {0}
AllDistinct (e ∷ es) = All (λ f. ¬ SameKey e f) es × AllDistinct es

-- A number that the type and the ordinal of an event determine; the normalizer makes the events of
-- a record in its order.
abbrev pub type_rank : TimelineEventType → ℕ
type_rank TimelineEventType.lnk_metadata_access = 1
type_rank TimelineEventType.lnk_metadata_modification = 2
type_rank TimelineEventType.ntfs_si_modification = 1
type_rank TimelineEventType.ntfs_si_mft_change = 2
type_rank TimelineEventType.ntfs_si_access = 3
type_rank TimelineEventType.ntfs_fn_creation = 4
type_rank TimelineEventType.ntfs_fn_modification = 5
type_rank TimelineEventType.ntfs_fn_mft_change = 6
type_rank TimelineEventType.ntfs_fn_access = 7
type_rank _ = 0

abbrev pub rank : NormalizedTimelineEvent → ℕ
rank e = type_rank e.event_type + 8 * e.event_ordinal

-- The ranks ascend from one bound on and stay below the other.
abbrev pub Between : ℕ → ℕ → List NormalizedTimelineEvent → Type 0
Between lo hi [] = lo ≤ hi
Between lo hi (e ∷ es) = (lo ≤ rank e) × Between (rank e + 1) hi es

Between-le : (lo hi : ℕ) (es : List NormalizedTimelineEvent) → Between lo hi es → lo ≤ hi
Between-le lo hi [] h = h
Between-le lo hi (e ∷ es) h = omega (arith, Between-le (rank e + 1) hi es h.1, h.0)

pub Between-widen :
    (lo lo' hi : ℕ) (es : List NormalizedTimelineEvent)
    → lo ≤ lo'
    → Between lo' hi es
    → Between lo hi es
Between-widen lo lo' hi [] le h = omega (arith, h)
Between-widen lo lo' hi (e ∷ es) le h = (omega (arith, h.0), h.1)

pub Between-append :
    (lo mid mid' hi : ℕ) (es fs : List NormalizedTimelineEvent)
    → Between lo mid es
    → mid ≤ mid'
    → Between mid' hi fs
    → Between lo hi (es ++ fs)
Between-append lo mid mid' hi [] fs h le k = Between-widen lo mid' hi fs (omega (arith, h)) k
Between-append lo mid mid' hi (e ∷ es) fs h le k =
    (h.0, Between-append (rank e + 1) mid mid' hi es fs h.1 le k)

rank-ne : (e f : NormalizedTimelineEvent) → rank e < rank f → ¬ SameKey e f
unfolding SameKey
rank-ne e f lt (t, s, o) = omega (arith, ap (λ (k : TimelineEventType). type_rank k) t)

Between-apart :
    (e : NormalizedTimelineEvent) (lo hi : ℕ) (es : List NormalizedTimelineEvent)
    → rank e < lo
    → Between lo hi es
    → All (λ f. ¬ SameKey e f) es
Between-apart e lo hi [] lt h = tt
Between-apart e lo hi (f ∷ es) lt h =
    (rank-ne e f (omega (arith, h.0)), Between-apart e (rank f + 1) hi es (omega (arith, h.0)) h.1)

pub Between-AllDistinct :
    (lo hi : ℕ) (es : List NormalizedTimelineEvent) → Between lo hi es → AllDistinct es
Between-AllDistinct lo hi [] h = tt
Between-AllDistinct lo hi (e ∷ es) h = (
  Between-apart e (rank e + 1) hi es (omega arith) h.1,
  Between-AllDistinct (rank e + 1) hi es h.1,
)

pub optional-Between :
    (b : Bool) (e : NormalizedTimelineEvent)
    → Between (rank e) (rank e + 1) (if b then e ∷ [] else [])
optional-Between true e = (omega arith, omega arith)
optional-Between false e = omega arith

pub choice-Between :
    (b : Bool) (e : NormalizedTimelineEvent) (es : List NormalizedTimelineEvent)
    (ws ws' : List Text) (lo hi : ℕ)
    → rank e < lo
    → Between lo hi es
    → Between
        (rank e)
        hi
        (if◌then◌else◌ {A = List NormalizedTimelineEvent × List Text} b (e ∷ es, ws) (es, ws')).0
choice-Between true e es ws ws' lo hi lt h =
    (omega arith, Between-widen (rank e + 1) lo hi es (omega arith) h)
choice-Between false e es ws ws' lo hi lt h = Between-widen (rank e) lo hi es (omega arith) h
