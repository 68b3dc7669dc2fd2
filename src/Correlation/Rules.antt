-- ===== src/Correlation/Rules.antt =====
-- The four rules of backend/app/correlation/rules.py. Python's `casefold` is a parameter.
-- What `evaluate` returns is written here; Asserts adds the assertions that it reaches.
use dfir_investigation_workb.Prelude.{
  Bool, List, Text, [], if◌then◌else◌, lit, map, not, text_eq, ℕ, ◌∷◌,
}
use dfir_investigation_workb.Domain.{FindingConfidence, FindingSeverity, FindingType}
use dfir_investigation_workb.Correlation.Paths.{full_path_of, path_of}
use dfir_investigation_workb.Correlation.Events.{TimelineEvent, get_value}
use dfir_investigation_workb.Correlation.Pairs.{Pair, identity_time_pairs}
use dfir_investigation_workb.Correlation.Candidates.{
  CorrelationCandidate, RuleEvaluation, both_paths, delta, events_where, exact_identity, is_lnk,
  is_ntfs, is_prefetch, process_events, signed, value_basename, value_name,
}

module _ (casefold : Text → Text) where
  -- EvtxPrefetchRule
  unfoldable pub prefetch_candidate : Pair → CorrelationCandidate
  prefetch_candidate p = record {
    rule_id = lit "CORR-EVTX-PREFETCH-001";
    event_a = p.left;
    event_b = p.right;
    event_a_role = lit "process_creation";
    event_b_role = lit "prefetch_execution_observation";
    temporal_delta = delta p.left p.right;
    signed_delta = signed p.left p.right;
    match_basis = lit "basename_match";
    matched_fields = lit "process_name" ∷ lit "application_name" ∷ [];
    normalized_identity = p.identity;
    finding_type = FindingType.process_execution_corroborated;
    severity = FindingSeverity.medium;
    confidence = FindingConfidence.medium;
  }

  unfoldable pub evtx_prefetch : List TimelineEvent → ℕ → RuleEvaluation
  unfolding process_events prefetch_candidate
  evtx_prefetch events window = record {
    candidates = map prefetch_candidate (
        identity_time_pairs (process_events casefold events)
          (events_where (λ (e : TimelineEvent). is_prefetch e.event_type) events)
          (value_name casefold "process_name") (value_name casefold "application_name") window);
    warnings = [];
  }

  -- LnkEvtxRule
  unfoldable pub lnk_exact : Pair → Bool
  lnk_exact p =
      both_paths text_eq (full_path_of casefold (get_value "process_path" p.left))
        (full_path_of casefold (get_value "target_path" p.right))

  -- two full paths that differ
  unfoldable pub lnk_conflict : Pair → Bool
  lnk_conflict p =
      both_paths (λ a b. not (text_eq a b))
        (full_path_of casefold (get_value "process_path" p.left))
        (full_path_of casefold (get_value "target_path" p.right))

  unfoldable pub lnk_candidate : Pair → CorrelationCandidate
  unfolding lnk_exact
  lnk_candidate p =
      let exact = lnk_exact p in
      record {
        rule_id = lit "CORR-LNK-EVTX-001";
        event_a = p.left;
        event_b = p.right;
        event_a_role = lit "process_creation";
        event_b_role = lit "lnk_metadata_observation";
        temporal_delta = delta p.left p.right;
        signed_delta = signed p.left p.right;
        match_basis = if exact then lit "exact_path_match" else lit "basename_match";
        matched_fields =
            if exact
            then lit "process_path" ∷ lit "target_path" ∷ []
            else lit "process_name" ∷ lit "target_basename" ∷ [];
        normalized_identity =
            exact_identity exact (full_path_of casefold (get_value "process_path" p.left))
              p.identity;
        finding_type = FindingType.lnk_process_association;
        severity = FindingSeverity.low;
        confidence = if exact then FindingConfidence.high else FindingConfidence.medium;
      }

  unfoldable pub lnk_candidates : List Pair → List CorrelationCandidate
  unfolding lnk_conflict lnk_candidate
  lnk_candidates [] = []
  lnk_candidates (p ∷ ps) =
      let rest = lnk_candidates ps in if lnk_conflict p then rest else lnk_candidate p ∷ rest

  unfoldable pub lnk_evtx : List TimelineEvent → ℕ → RuleEvaluation
  unfolding process_events lnk_candidates
  lnk_evtx events window = record {
    candidates = lnk_candidates (
        identity_time_pairs (process_events casefold events)
          (events_where (λ (e : TimelineEvent). is_lnk e.event_type) events)
          (value_name casefold "process_name") (value_basename casefold "target_path") window);
    warnings = [];
  }

  -- NtfsEvtxRule
  unfoldable pub ntfs_exact : Pair → Bool
  ntfs_exact p =
      both_paths text_eq (path_of casefold (get_value "process_path" p.left))
        (path_of casefold (get_value "full_path" p.right))

  unfoldable pub ntfs_candidate : Pair → CorrelationCandidate
  unfolding ntfs_exact
  ntfs_candidate p =
      let exact = ntfs_exact p in
      record {
        rule_id = lit "CORR-NTFS-EVTX-001";
        event_a = p.left;
        event_b = p.right;
        event_a_role = lit "process_creation";
        event_b_role = lit "ntfs_metadata_observation";
        temporal_delta = delta p.left p.right;
        signed_delta = signed p.left p.right;
        match_basis = if exact then lit "exact_path_match" else lit "basename_match";
        matched_fields =
            if exact
            then lit "process_path" ∷ lit "full_path" ∷ []
            else lit "process_name" ∷ lit "filename" ∷ [];
        normalized_identity =
            exact_identity exact (path_of casefold (get_value "process_path" p.left)) p.identity;
        finding_type = FindingType.file_activity_association;
        severity = FindingSeverity.low;
        confidence = if exact then FindingConfidence.high else FindingConfidence.medium;
      }

  unfoldable pub ntfs_evtx : List TimelineEvent → ℕ → RuleEvaluation
  unfolding process_events ntfs_candidate
  ntfs_evtx events window = record {
    candidates = map ntfs_candidate (
        identity_time_pairs (process_events casefold events)
          (events_where (λ (e : TimelineEvent). is_ntfs e.event_type) events)
          (value_name casefold "process_name") (value_basename casefold "filename") window);
    warnings = [];
  }

-- RegistryEvtxRule: no match is made, whatever the events
unfoldable pub registry_evtx : List TimelineEvent → ℕ → RuleEvaluation
registry_evtx events window = record {
  candidates = [];
  warnings =
      lit
        "CORR-REGISTRY-EVTX-001 produced no matches because Registry timeline metadata does not contain an explicit executable identity."
      ∷ [];
}
