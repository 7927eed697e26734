-- ===== src/Platform/Gate/Limits.antt =====
-- What the default gate blocks.
use model_passport.Prelude.{
  ltb, if◌then◌else◌, is_yes_iff, keep, first, str_eq, ℤ, pos, ltb_int, millions, ℕ, ◌<◌, String,
  ◌≡◌, refl, sym, ◌∙◌, ◌↔◌, ◌⊎◌, inl, inr, Bool, true, false, Option, none, some, [], ◌∷◌, map,
  arith,
}
use mathlib.Core.Option
use mathlib.Core.Option.{bind}
use model_passport.Prelude.Outcome.{ok, Outcome}
use model_passport.Core.Schema.{Verdict, pass, warn, fail, EntityAuditResult}
use model_passport.Policy.Evidence.{
  get, Observed, count, rate, value, maximum, Rule, entity_audit_of, severity_word, entities_at,
  entity_auc, entity_tpr, rules_known, rule_named,
}
use model_passport.Policy.Engine.{
  PolicyResult, worst, evaluate_rule, evaluate_rules, evaluate, num, Threshold, plain, table,
  PolicyError, RuleResult, thresholds, beyond, violates, judge_limits, judge, verdict_index, worse,
  worst_from,
}
use model_passport.Platform.Gate.{
  check_audit, policy_template, entity_rule, default_policy, evidence_of, blocking,
}

-- The number of entities of a severity that an audit counted.
abbrev pub severity_count : String → EntityAuditResult → ℕ
severity_count severity audit = elim (get severity audit.severity_counts) [ none ↦ 0 | some n ↦ n ]

abbrev pub Exceeds : ℕ → Option ℤ → Type 0
Exceeds limit none = ⊥
Exceeds limit (some r) = ltb_int (pos limit) r ≡ true

by_count : ℕ → Verdict
by_count n = if ltb 0 n then fail else pass

by_rate : ℕ → ℕ → Option ℤ → Verdict
by_rate w f none = warn
by_rate w f (some r) = if ltb_int (pos f) r then fail else if ltb_int (pos w) r then warn else pass

count_test : (n : ℕ) → ltb_int (pos 0) (millions n) ≡ ltb 0 n
count_test n = ground arith

-- The verdict on the two comparisons.
compared :
    (a b : Bool)
    → ◌≡◌ {A = Outcome PolicyError Verdict}
        (if a then ok fail else ok (if b then warn else pass))
        (ok (if a then fail else if b then warn else pass))
compared true b = refl
compared false b = refl

judge_count :
    (name : String) (n : ℕ)
    → judge name maximum (plain (num (pos 0))) (millions n) ≡ ok (by_count n)
unfolding judge thresholds judge_limits violates beyond by_count
judge_count name n =
    rw (judge, thresholds, judge_limits, violates, beyond, count_test n) (compared (ltb 0 n) false)

judge_rate :
    (name : String) (w f : ℕ) (r : ℤ)
    → judge name maximum (table (("warn", num (pos w)) ∷ ("fail", num (pos f)) ∷ [])) r
      ≡ ok (by_rate w f (some r))
unfolding judge thresholds judge_limits violates beyond by_rate str_eq
judge_rate name w f r = compared (ltb_int (pos f) r) (ltb_int (pos w) r)

module _ (round4 : ℤ → ℤ) (audit : EntityAuditResult) where
  rule_result :
      (name : String) (threshold : Threshold) (rule : Rule) (observed : Observed) (v : Verdict)
      → rule_named name ≡ some rule
      → rule.evidence (evidence_of audit) ≡ some observed
      → judge name rule.kind threshold (value observed) ≡ ok v
      → (q : RuleResult) × (evaluate_rule round4 name threshold (evidence_of audit) warn ≡ ok q)
        × (q.result ≡ v)
  unfolding evaluate_rule
  rule_result name threshold rule observed v known seen judged =
      rw (evaluate_rule, known, seen, judged) (_, refl, refl)

  rule_absent :
      (name : String) (threshold : Threshold) (rule : Rule)
      → rule_named name ≡ some rule
      → rule.evidence (evidence_of audit) ≡ none
      → (q : RuleResult) × (evaluate_rule round4 name threshold (evidence_of audit) warn ≡ ok q)
        × (q.result ≡ warn)
  unfolding evaluate_rule
  rule_absent name threshold rule known gone = rw (evaluate_rule, known, gone) (_, refl, refl)

  rate_result :
      (name : String) (w f : ℕ) (rule : Rule) (o : Option ℤ)
      → rule_named name ≡ some rule
      → rule.kind ≡ maximum
      → rule.evidence (evidence_of audit) ≡ Option.map rate o
      → (q : RuleResult) × (evaluate_rule round4 name
            (table (("warn", num (pos w)) ∷ ("fail", num (pos f)) ∷ []))
            (evidence_of audit)
            warn
          ≡ ok q)
        × (q.result ≡ by_rate w f o)
  unfolding by_rate value
  rate_result name w f rule none known kind seen = rule_absent name _ rule known seen
  rate_result name w f rule (some r) known kind seen =
      rule_result name _ rule (rate r) _ known seen (rw kind (judge_rate name w f r))

  count_result :
      (name : String) (rule : Rule) (n : ℕ)
      → rule_named name ≡ some rule
      → rule.kind ≡ maximum
      → rule.evidence (evidence_of audit) ≡ some (count n)
      → (q : RuleResult) × (evaluate_rule round4 name (plain (num (pos 0))) (evidence_of audit) warn
          ≡ ok q)
        × (q.result ≡ by_count n)
  unfolding value
  count_result name rule n known kind seen =
      rule_result name _ rule (count n) _ known seen (rw kind (judge_count name n))

  check_audit_verdicts :
      (r : PolicyResult) × (check_audit round4 audit ≡ ok r)
      × (r.verdict
          ≡ worst (
              by_count (severity_count "critical" audit)
              ∷ by_count (severity_count "high" audit)
              ∷ by_rate 550000 600000 audit.auc
              ∷ by_rate 20000 50000 (get "0.01" audit.tpr_at_fpr)
              ∷ []))
  unfolding check_audit evaluate evaluate_rules default_policy policy_template keep entity_rule
      rule_named rules_known first str_eq evidence_of entities_at entity_auc entity_tpr
      entity_audit_of severity_word bind
  check_audit_verdicts =
      let (a, ra, va) =
        count_result "entity_critical_max" _ (severity_count "critical" audit) refl refl refl in
      let (b, rb, vb) =
        count_result "entity_high_max" _ (severity_count "high" audit) refl refl refl in
      let (c, rc, vc) = rate_result "el_mia_auc_max" 550000 600000 _ audit.auc refl refl refl in
      let (d, rd, vd) =
        rate_result "el_mia_tpr_at_1pct_fpr_max" 20000 50000 _ (get "0.01" audit.tpr_at_fpr) refl
          refl refl in
      let results = a ∷ b ∷ c ∷ d ∷ [] in
      let runs : evaluate_rules round4 default_policy.rules (evidence_of audit) warn ≡ ok results =
        rw (evaluate_rules, ra, rb, rc, rd) refl in
      (
        record { rules = results; verdict = worst (map (λ q. q.result) results) },
        rw (evaluate, runs) refl,
        rw (va, vb, vc, vd) refl,
      )

count_fails : (n : ℕ) → (by_count n ≡ fail) ↔ (0 < n)
unfolding by_count
count_fails n = ground arith

rate_test : (a b : Bool) → ((if a then fail else if b then warn else pass) ≡ fail) ↔ (a ≡ true)
rate_test a b = ground arith

rate_fails : (w f : ℕ) (o : Option ℤ) → (by_rate w f o ≡ fail) ↔ Exceeds f o
unfolding by_rate
rate_fails w f none = (λ h. cc, λ h. absurd h)
rate_fails w f (some r) = rate_test (ltb_int (pos f) r) (ltb_int (pos w) r)

either_four :
    {A B C D P Q R S : Type 0}
    → (A ↔ P)
    → (B ↔ Q)
    → (C ↔ R)
    → (D ↔ S)
    → (A ⊎ B ⊎ C ⊎ D) ↔ (P ⊎ Q ⊎ R ⊎ S)
either_four a b c d = (go a.0 b.0 c.0 d.0, go a.1 b.1 c.1 d.1)
  where
    go :
        {A B C D P Q R S : Type 0}
        → (A → P)
        → (B → Q)
        → (C → R)
        → (D → S)
        → A ⊎ B ⊎ C ⊎ D
        → P ⊎ Q ⊎ R ⊎ S
    go a b c d (inl x) = inl (a x)
    go a b c d (inr (inl x)) = inr (inl (b x))
    go a b c d (inr (inr (inl x))) = inr (inr (inl (c x)))
    go a b c d (inr (inr (inr x))) = inr (inr (inr (d x)))

four_fail :
    (a b c d : Verdict)
    → (worst (a ∷ b ∷ c ∷ d ∷ []) ≡ fail) ↔ ((a ≡ fail) ⊎ (b ≡ fail) ⊎ (c ≡ fail) ⊎ (d ≡ fail))
unfolding worst worst_from worse verdict_index
four_fail a b c d = ground arith

-- What the default gate must keep out: a critical or a high finding, an attack AUC above 0.60, or a
-- true-positive rate above 0.05 at a false-positive rate of 1%.
abbrev pub Blocks : EntityAuditResult → Type 0
Blocks audit =
    (0 < severity_count "critical" audit)
    ⊎ (0 < severity_count "high" audit)
    ⊎ Exceeds 600000 audit.auc
    ⊎ Exceeds 50000 (get "0.01" audit.tpr_at_fpr)

-- The gate with the default policy gives a result for every entity audit, and that result blocks
-- the release exactly if the audit counted a critical or a high finding, measured an attack AUC
-- above 0.60, or a true-positive rate above 0.05 at a false-positive rate of 1%.
pub gate-Blocks :
    (round4 : ℤ → ℤ) (audit : EntityAuditResult)
    → (r : PolicyResult) × (check_audit round4 audit ≡ ok r) × ((blocking r ≡ true) ↔ Blocks audit)
unfolding blocking
gate-Blocks round4 audit =
    let (r, run, verdict) = check_audit_verdicts round4 audit in
    let (to, from) = four_fail _ _ _ _ in
    let (there, back) =
      either_four (count_fails (severity_count "critical" audit))
        (count_fails (severity_count "high" audit)) (rate_fails 550000 600000 audit.auc)
        (rate_fails 20000 50000 (get "0.01" audit.tpr_at_fpr)) in
    (
      r,
      run,
      (
        λ h. there (to (sym verdict ∙ (is_yes_iff _).0 h)),
        λ b. (is_yes_iff _).1 (verdict ∙ from (back b)),
      ),
    )
