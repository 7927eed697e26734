-- ===== src/Platform/Gate.antt =====
-- src/model_passport/platform/gate.py: the release gate, with the policy of
-- src/model_passport/llm/project.py (`POLICY_TEMPLATE`) as far as the gate keeps its rules.
pub mod Limits
use model_passport.Prelude.{is_yes, keep, str_eq, ℤ, pos, String, Bool, ◌||◌, none, some, [], ◌∷◌}
use model_passport.Prelude.Outcome.{Outcome}
use model_passport.Core.Schema.{warn, fail, Verdict-discrete, EntityAuditResult, Evidence}
use model_passport.Policy.Engine.{
  num, word, plain, table, Policy, PolicyError, PolicyResult, evaluate,
}

-- `POLICY_TEMPLATE` as YAML reads it.
unfoldable pub policy_template : Policy
policy_template = record {
  rules =
      ("entity_critical_max", plain (num (pos 0)))
      ∷ ("entity_high_max", plain (num (pos 0)))
      ∷ ("el_mia_auc_max", table (("warn", num (pos 550000)) ∷ ("fail", num (pos 600000)) ∷ []))
      ∷ (
        "el_mia_tpr_at_1pct_fpr_max",
        table (("warn", num (pos 20000)) ∷ ("fail", num (pos 50000)) ∷ []),
      )
      ∷ ("secrets_found_max", plain (num (pos 0)))
      ∷ ("unsafe_pickle", plain (word "fail"))
      ∷ ("critical_cves_max", plain (num (pos 0)))
      ∷ [];
  missing_evidence = warn;
}

-- `name in ENTITY_RULES`
unfoldable pub entity_rule : String → Bool
entity_rule name =
    str_eq name "entity_critical_max"
    || str_eq name "entity_high_max"
    || str_eq name "el_mia_auc_max"
    || str_eq name "el_mia_tpr_at_1pct_fpr_max"

unfoldable pub default_policy : Policy
unfolding policy_template entity_rule keep
default_policy = record policy_template {
  rules = keep (λ e. entity_rule e.0) policy_template.rules;
}

-- The evidence that holds an entity audit and nothing else.
unfoldable pub evidence_of : EntityAuditResult → Evidence
evidence_of audit = record {
  privacy_report = some record {
    datasets_scanned = [];
    data_findings = [];
    reidentification = [];
    leakage = none;
    entity_audit = some audit;
  };
  security_report = none;
}

-- `check` with the default policy.
unfoldable pub check_audit : (ℤ → ℤ) → EntityAuditResult → Outcome PolicyError PolicyResult
unfolding default_policy evidence_of evaluate
check_audit round4 audit = evaluate round4 default_policy (evidence_of audit)

unfoldable pub blocking : PolicyResult → Bool
blocking result = is_yes (Verdict-discrete result.verdict fail)
