-- ===== src/Correlation/Candidates.antt =====
-- What the rules of backend/app/correlation/rules.py make, and the events that they look at. The
-- texts that explain a finding are not modelled; a delta is in microseconds.
use dfir_investigation_workb.Json.{Value, integer, string}
use dfir_investigation_workb.Prelude.{
  Bool, List, Option, String, Text, [], abs, false, if◌then◌else◌, lit, none, pos, some, sub_ℕ,
  text_eq, true, ℕ, ℤ, ◌&&◌, ◌==◌, ◌∷◌,
}
use dfir_investigation_workb.Domain.{
  FindingConfidence, FindingSeverity, FindingType, TimelineEventType,
}
use dfir_investigation_workb.Correlation.Paths.{basename_of, name_of}
use dfir_investigation_workb.Correlation.Events.{TimelineEvent, get_value, time_or_zero}
use dfir_investigation_workb.Correlation.Pairs.{has_time}

pub record CorrelationCandidate : Type 0 where
  pub rule_id : Text
  pub event_a : TimelineEvent
  pub event_b : TimelineEvent
  pub event_a_role : Text
  pub event_b_role : Text
  pub temporal_delta : ℕ
  pub signed_delta : ℤ
  pub match_basis : Text
  pub matched_fields : List Text
  pub normalized_identity : Text
  pub finding_type : FindingType
  pub severity : FindingSeverity
  pub confidence : FindingConfidence

pub record RuleEvaluation : Type 0 where
  pub candidates : List CorrelationCandidate
  pub warnings : List Text

-- the second part of `_delta`, behind its assertion, which Asserts has
abbrev pub signed : TimelineEvent → TimelineEvent → ℤ
signed left right = sub_ℕ (time_or_zero right.event_time) (time_or_zero left.event_time)

-- the first part
abbrev pub delta : TimelineEvent → TimelineEvent → ℕ
delta left right = abs (signed left right)

abbrev pub events_where : (TimelineEvent → Bool) → List TimelineEvent → List TimelineEvent
events_where test [] = []
events_where test (e ∷ es) = if test e then e ∷ events_where test es else events_where test es

abbrev pub is_evtx : TimelineEventType → Bool
is_evtx TimelineEventType.evtx_event = true
is_evtx _ = false

abbrev pub is_prefetch : TimelineEventType → Bool
is_prefetch TimelineEventType.prefetch_execution = true
is_prefetch _ = false

-- the name starts with LNK_METADATA_
abbrev pub is_lnk : TimelineEventType → Bool
is_lnk TimelineEventType.lnk_metadata_creation = true
is_lnk TimelineEventType.lnk_metadata_access = true
is_lnk TimelineEventType.lnk_metadata_modification = true
is_lnk _ = false

-- the name starts with NTFS_
abbrev pub is_ntfs : TimelineEventType → Bool
is_ntfs TimelineEventType.ntfs_si_creation = true
is_ntfs TimelineEventType.ntfs_si_modification = true
is_ntfs TimelineEventType.ntfs_si_mft_change = true
is_ntfs TimelineEventType.ntfs_si_access = true
is_ntfs TimelineEventType.ntfs_fn_creation = true
is_ntfs TimelineEventType.ntfs_fn_modification = true
is_ntfs TimelineEventType.ntfs_fn_mft_change = true
is_ntfs TimelineEventType.ntfs_fn_access = true
is_ntfs _ = false

abbrev pub is_4688 : Value → Bool
is_4688 (integer (pos n)) = n == 4688
is_4688 _ = false

abbrev pub is_present : Option Text → Bool
is_present none = false
is_present (some t) = true

-- both paths are there, and the test holds of them
abbrev pub both_paths : (Text → Text → Bool) → Option Text → Option Text → Bool
both_paths test (some a) (some b) = test a b
both_paths test _ _ = false

abbrev pub exact_identity : Bool → Option Text → Text → Text
exact_identity true (some p) identity = p
exact_identity _ _ identity = identity

module _ (casefold : Text → Text) where
  abbrev pub is_security : Value → Bool
  is_security (string t) = text_eq (casefold t) (lit "security")
  is_security _ = false

  abbrev pub value_name : String → TimelineEvent → Option Text
  value_name key e = name_of casefold (get_value key e)

  abbrev pub value_basename : String → TimelineEvent → Option Text
  value_basename key e = basename_of casefold (get_value key e)

  unfoldable pub is_process_event : TimelineEvent → Bool
  is_process_event e =
      is_evtx e.event_type
      && is_4688 (get_value "event_id" e)
      && is_security (get_value "channel" e)
      && is_present (value_name "process_name" e)
      && has_time e

  -- `_process_events`
  unfoldable pub process_events : List TimelineEvent → List TimelineEvent
  unfolding is_process_event
  process_events events = events_where is_process_event events
