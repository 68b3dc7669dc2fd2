-- ===== src/Correlation/Registry.antt =====
-- backend/app/correlation/registry.py: the rules by identifier, and the registry that the service
-- evaluates.
use dfir_investigation_workb.Prelude.{
  Bool, List, Result, Text, [], err, false, if◌then◌else◌, lit, ok, refl, text_eq, ℕ, ◌++◌, ◌>>=◌,
  ◌||◌, ◌∷◌, ◌≡◌,
}
use dfir_investigation_workb.Correlation.Events.{TimelineEvent, compare_text, not_after}
use dfir_investigation_workb.Correlation.Candidates.{RuleEvaluation}
use dfir_investigation_workb.Correlation.Rules.{registry_evtx}
use dfir_investigation_workb.Correlation.Asserts.{
  RuleError, evaluate_evtx_prefetch, evaluate_lnk_evtx, evaluate_ntfs_evtx,
}

pub record CorrelationRule : Type 0 where
  pub rule_id : Text
  pub version : Text
  pub name : Text
  pub evaluate : List TimelineEvent → ℕ → Result RuleError RuleEvaluation

unfoldable pub is_registered : Text → List CorrelationRule → Bool
is_registered i [] = false
is_registered i (r ∷ rs) = let rest = is_registered i rs in text_eq r.rule_id i || rest

-- `register`; the error is the text of the ValueError
unfoldable pub register :
    CorrelationRule → List CorrelationRule → Result Text (List CorrelationRule)
register r rs =
    if is_registered r.rule_id rs
    then err (lit "Correlation rule " ++ (r.rule_id ++ lit " is already registered"))
    else ok (rs ++ r ∷ [])

unfoldable pub insert_rule : CorrelationRule → List CorrelationRule → List CorrelationRule
insert_rule r [] = r ∷ []
insert_rule r (q ∷ qs) =
    let rest = insert_rule r qs in
    if not_after (compare_text r.rule_id q.rule_id) then r ∷ q ∷ qs else q ∷ rest

-- `rules`: in the order of their identifiers
unfoldable pub rules : List CorrelationRule → List CorrelationRule
rules [] = []
rules (r ∷ rs) = insert_rule r (rules rs)

abbrev pub rule_version : Text
rule_version = lit "1.0.0"

abbrev pub rule_set_version : Text
rule_set_version = lit "1.0.0"

module _ (casefold : Text → Text) where
  abbrev evtx_prefetch_rule : CorrelationRule
  evtx_prefetch_rule = record {
    rule_id = lit "CORR-EVTX-PREFETCH-001";
    version = rule_version;
    name = lit "Process Creation and Prefetch Corroboration";
    evaluate = evaluate_evtx_prefetch casefold;
  }

  abbrev lnk_evtx_rule : CorrelationRule
  lnk_evtx_rule = record {
    rule_id = lit "CORR-LNK-EVTX-001";
    version = rule_version;
    name = lit "LNK Target and Process Creation Association";
    evaluate = evaluate_lnk_evtx casefold;
  }

  abbrev ntfs_evtx_rule : CorrelationRule
  ntfs_evtx_rule = record {
    rule_id = lit "CORR-NTFS-EVTX-001";
    version = rule_version;
    name = lit "NTFS Metadata and Process Activity Association";
    evaluate = evaluate_ntfs_evtx casefold;
  }

  abbrev registry_evtx_rule : CorrelationRule
  registry_evtx_rule = record {
    rule_id = lit "CORR-REGISTRY-EVTX-001";
    version = rule_version;
    name = lit "Registry LastWrite and Process Activity Association";
    evaluate = λ events window. ok (registry_evtx events window);
  }

  -- `correlation_rule_registry`, as importing the module fills it
  unfoldable pub correlation_rule_registry : Result Text (List CorrelationRule)
  correlation_rule_registry = do
    one ← register evtx_prefetch_rule []
    two ← register lnk_evtx_rule one
    three ← register ntfs_evtx_rule two
    register registry_evtx_rule three

  abbrev pub registered_rules : List CorrelationRule
  registered_rules = evtx_prefetch_rule ∷ lnk_evtx_rule ∷ ntfs_evtx_rule ∷ registry_evtx_rule ∷ []

  -- Importing the module registers the four rules, and `rules` gives them in the order written here.
  pub rules-correlation_rule_registry :
      elim correlation_rule_registry [ ok rs ↦ rules rs | err e ↦ [] ] ≡ registered_rules
  unfolding correlation_rule_registry register is_registered rules insert_rule compare_text text_eq
      lit
  rules-correlation_rule_registry = refl
