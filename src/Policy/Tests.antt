-- ===== src/Policy/Tests.antt =====
-- Runs of the policy engine.
use model_passport.Prelude.{
  keep, any, first, str_eq, ℤ, pos, ◌≤◌, ◌≡◌, refl, none, some, [], ◌∷◌, arith,
}
use mathlib.Core.List.{Memᴰ}
use mathlib.Core.Option.{bind}
use model_passport.Prelude.Outcome.{ok, err}
use model_passport.Core.Schema.{warn, fail, Evidence}
use model_passport.Policy.Evidence.{
  rate, value, maximum, minimum, Rule, min_of, present, some_in, reid_results, min_k, leakage_field,
  get, rules_known, rule_named,
}
use model_passport.Policy.Engine.{
  num, word, Threshold, plain, table, Policy, type_error, PolicyResult, verdict_index, worse,
  worst_from, worst, limit_at, known_key, thresholds, beyond, violates, judge_limits, judge, shown,
  evaluate_rule, evaluate_rules, evaluate, check_threshold, check_rule, check_rules, unknown_names,
  load_policy,
}
use model_passport.Policy.Engine.Worst.{evaluate_missing}
use model_passport.Policy.Engine.Judge.{judge_mono}
use model_passport.Policy.Engine.Load.{evaluate_total, text_limit_raises}

abbrev same : ℤ → ℤ
same r = r

-- A leakage audit whose attack has the AUC 0.58, and nothing else.
abbrev attacked : Evidence
attacked = record {
  privacy_report = some record {
    datasets_scanned = [];
    data_findings = [];
    reidentification = [];
    leakage =
        some record { mia_auc = pos 580000; tpr_at_low_fpr = pos 10000; generalization_gap = none };
    entity_audit = none;
  };
  security_report = none;
}

abbrev auc_limits : Threshold
auc_limits = table (("warn", num (pos 550000)) ∷ ("fail", num (pos 600000)) ∷ [])

abbrev auc_policy : Policy
auc_policy = record {
  rules = ("mia_auc_max", auc_limits) ∷ ("min_k_anonymity", plain (num (pos 5000000))) ∷ [];
  missing_evidence = fail;
}

abbrev auc_rule : Rule
auc_rule = record {
  name = "mia_auc_max";
  evidence = leakage_field (λ l. some l.mia_auc);
  kind = maximum;
}

abbrev k_rule : Rule
k_rule = record { name = "min_k_anonymity"; evidence = min_k; kind = minimum }

abbrev auc_result : PolicyResult
auc_result = record {
  rules =
      record {
        name = "mia_auc_max";
        threshold = auc_limits;
        observed = some (rate (pos 580000));
        result = warn;
      }
      ∷ record {
        name = "min_k_anonymity";
        threshold = plain (num (pos 5000000));
        observed = none;
        result = fail;
      }
      ∷ [];
  verdict = fail;
}

auc_evaluated : evaluate same auc_policy attacked ≡ ok auc_result
unfolding evaluate evaluate_rules evaluate_rule rule_named rules_known first str_eq leakage_field
    min_k min_of present reid_results bind value judge thresholds judge_limits violates beyond
    limit_at get known_key any some_in shown worst worst_from worse verdict_index
auc_evaluated = refl

evaluate_missing_example : verdict_index fail ≤ verdict_index auc_result.verdict
unfolding rule_named rules_known first str_eq min_k min_of present reid_results
evaluate_missing_example =
    evaluate_missing same auc_policy attacked ("min_k_anonymity", plain (num (pos 5000000))) k_rule
      (Memᴰ.tail (Memᴰ.head refl)) refl refl auc_evaluated

evaluate_total_example : (r : PolicyResult) × (evaluate same auc_policy attacked ≡ ok r)
unfolding load_policy unknown_names keep some_in check_rules check_rule check_threshold rule_named
    rules_known first str_eq thresholds limit_at get known_key any
evaluate_total_example = evaluate_total same auc_policy attacked refl ((tt, (tt, tt)), (tt, tt))

judge_mono_example : verdict_index warn ≤ verdict_index fail
unfolding judge thresholds judge_limits violates beyond limit_at get known_key any some_in str_eq
judge_mono_example =
    judge_mono "mia_auc_max" maximum auc_limits (pos 580000) (pos 610000) {v = warn} {w = fail}
      (omega arith) refl refl

text_limit_raises_example :
    (check_rule ("mia_auc_max", table (("fail", word "high") ∷ [])) ≡ ok tt)
    × (evaluate_rule same "mia_auc_max" (table (("fail", word "high") ∷ [])) attacked warn
        ≡ err (type_error "mia_auc_max"))
unfolding rule_named rules_known first str_eq leakage_field bind
text_limit_raises_example =
    text_limit_raises same "mia_auc_max" "high" auc_rule attacked warn (rate (pos 580000)) refl
      (λ e. cc) refl
