-- ===== src/Policy/Engine/Load.antt =====
-- What the checks of `load_policy` guarantee of the evaluation.
use model_passport.Prelude.{
  if◌then◌else◌, Bool-cases, Option-cases, any, All, str_eq, ℤ, pos, ltb_int, String, ◌≡◌, refl,
  subst, ◌≢◌, inl, inr, Bool, true, false, ◌||◌, not, some, List, [], ◌∷◌,
}
use model_passport.Prelude.Outcome.{ok, ◌>>=◌, >>=-eq-ok, ok-eq, err, >>-eq-ok, Outcome, ◌>>◌}
use model_passport.Core.Schema.{Verdict, pass, warn, fail, Evidence}
use model_passport.Policy.Evidence.{
  Kind, maximum, minimum, flag, Rule, some_in, get, rule_named, Observed, value,
}
use model_passport.Policy.Engine.{
  Scalar, num, word, boolean, null, compound, Threshold, plain, table, verdict_word, limit_at,
  known_key, thresholds, violates, judge_limits, flag_verdict, judge, check_flag, check_rule,
  Policy, type_error, RuleResult, PolicyResult, evaluate_rule, evaluate_rules, evaluate,
  check_threshold, check_rules, load_policy, PolicyError, unknown_names,
}

-- A limit that compares with a number, or that is none.
abbrev pub IsNumeric : Scalar → Type 0
IsNumeric (word s) = ⊥
IsNumeric compound = ⊥
IsNumeric _ = Unit

-- A table of limits has numbers, Booleans and nulls in it only.
abbrev pub HasNumbers : Threshold → Type 0
HasNumbers (plain v) = Unit
HasNumbers (table entries) = All (λ e. IsNumeric e.1) entries

violates_total :
    (name : String) (kind : Kind) (observed : ℤ) (limit : Scalar)
    → IsNumeric limit
    → (b : Bool) × (violates name kind observed limit ≡ ok b)
unfolding violates
violates_total name kind observed null h = (_, refl)
violates_total name kind observed (num l) h = (_, refl)
violates_total name kind observed (boolean x) h = (_, refl)
violates_total name kind observed (word s) h = absurd h
violates_total name kind observed compound h = absurd h

decided :
    (failed warned : Bool)
    → (v : Verdict) × ◌≡◌ {A = Outcome PolicyError Verdict}
        (if failed then ok fail else ok (if warned then warn else pass))
        (ok v)
decided true warned = (fail, refl)
decided false warned = (_, refl)

judge_limits_total :
    (name : String) (kind : Kind) (observed : ℤ) (warn_at fail_at : Scalar)
    → IsNumeric warn_at
    → IsNumeric fail_at
    → (v : Verdict) × (judge_limits name kind observed warn_at fail_at ≡ ok v)
unfolding judge_limits
judge_limits_total name kind observed warn_at fail_at w f =
    let (failed, e) = violates_total name kind observed fail_at f in
    let (warned, e1) = violates_total name kind observed warn_at w in
    rw (judge_limits, e, e1) (decided failed warned)

limit_at-IsNumeric :
    (key : String) (entries : List (String × Scalar))
    → All (λ e. IsNumeric e.1) entries
    → IsNumeric (limit_at key entries)
unfolding limit_at get
limit_at-IsNumeric key [] all = tt
limit_at-IsNumeric key (entry ∷ rest) (h, all) = elim (Bool-cases (str_eq entry.0 key)) [
  | inl e ↦ rw (limit_at, get, e) h
  | inr e ↦ rw (limit_at, get, e) (limit_at-IsNumeric key rest all)
]

thresholds-IsNumeric :
    (name : String) (threshold : Threshold) {limits : Scalar × Scalar}
    → HasNumbers threshold
    → thresholds name threshold ≡ ok limits
    → IsNumeric limits.0 × IsNumeric limits.1
unfolding thresholds
thresholds-IsNumeric name (plain (num n)) h e =
    subst (λ l. IsNumeric l.0 × IsNumeric l.1) (ok-eq e) (tt, tt)
thresholds-IsNumeric name (plain (word s)) h e = absurd (cc)
thresholds-IsNumeric name (plain (boolean s)) h e = absurd (cc)
thresholds-IsNumeric name (plain null) h e = absurd (cc)
thresholds-IsNumeric name (plain compound) h e = absurd (cc)
thresholds-IsNumeric name (table entries) h e =
    elim (Bool-cases (any (λ e. not (known_key e.0)) entries || not (some_in entries))) [
      | inl bad ↦ absurd (let e' = rw bad at e in cc)
      | inr good ↦
          subst (λ l. IsNumeric l.0 × IsNumeric l.1) (ok-eq (rw good at e))
            (limit_at-IsNumeric "warn" entries h, limit_at-IsNumeric "fail" entries h)
    ]

judge_limits_checked :
    (name : String) (kind : Kind) (threshold : Threshold) (observed : ℤ)
    → HasNumbers threshold
    → (thresholds name threshold >>= λ _. ok tt) ≡ ok tt
    → (v : Verdict) × ((thresholds name threshold >>= λ l. judge_limits name kind observed l.0 l.1)
        ≡ ok v)
judge_limits_checked name kind threshold observed h e =
    let (limits, run, _) = >>=-eq-ok (thresholds name threshold) _ e in
    let (w, f) = thresholds-IsNumeric name threshold h run in
    rw run (judge_limits_total name kind observed limits.0 limits.1 w f)

flag_checked :
    (name : String) (threshold : Threshold)
    → check_flag name threshold ≡ ok tt
    → (v : Verdict) × (flag_verdict name threshold ≡ ok v)
unfolding check_flag flag_verdict
flag_checked name (plain (word s)) e = elim (Option-cases (verdict_word s)) [
  | inl n ↦ absurd (let e' = rw n at e in cc)
  | inr (v, n) ↦ rw (flag_verdict, n) (v, refl)
]
flag_checked name (plain (num s)) e = absurd (cc)
flag_checked name (plain (boolean s)) e = absurd (cc)
flag_checked name (plain null) e = absurd (cc)
flag_checked name (plain compound) e = absurd (cc)
flag_checked name (table s) e = absurd (cc)

judge_checked :
    (name : String) (kind : Kind) (threshold : Threshold) (observed : ℤ)
    → HasNumbers threshold
    → check_threshold name kind threshold ≡ ok tt
    → (v : Verdict) × (judge name kind threshold observed ≡ ok v)
unfolding judge check_threshold
judge_checked name maximum threshold observed h e =
    judge_limits_checked name maximum threshold observed h e
judge_checked name minimum threshold observed h e =
    judge_limits_checked name minimum threshold observed h e
judge_checked name flag threshold observed h e = elim (Bool-cases (ltb_int (pos 0) observed)) [
  | inl more ↦ rw more (flag_checked name threshold e)
  | inr none_seen ↦ rw none_seen (pass, refl)
]

accepted :
    (policy : Policy)
    → load_policy policy ≡ ok policy
    → (check_rules policy.rules >> ok policy) ≡ ok policy
unfolding load_policy
accepted policy e = elim (Bool-cases (some_in (unknown_names policy))) [
  | inl bad ↦ absurd (let e' = rw (load_policy, bad) at e in cc)
  | inr good ↦ rw (load_policy, good) at e
]

check_rule-known :
    (entry : String × Threshold)
    → check_rule entry ≡ ok tt
    → (rule : Rule) × (rule_named entry.0 ≡ some rule)
      × (check_threshold entry.0 rule.kind entry.1 ≡ ok tt)
unfolding check_rule
check_rule-known entry e = elim (Option-cases (rule_named entry.0)) [
  | inl n ↦ absurd (let e' = rw (check_rule, n) at e in cc)
  | inr (rule, n) ↦ (rule, n, rw (check_rule, n) at e)
]

text_limit :
    (name text : String) (kind : Kind) (observed : ℤ)
    → kind ≢ flag
    → (check_threshold name kind (table (("fail", word text) ∷ [])) ≡ ok tt)
      × (judge name kind (table (("fail", word text) ∷ [])) observed ≡ err (type_error name))
unfolding check_threshold judge thresholds judge_limits violates str_eq
text_limit name text maximum observed h = (refl, refl)
text_limit name text minimum observed h = (refl, refl)
text_limit name text flag observed h = absurd (h refl)

module _ (round4 : ℤ → ℤ) where
  evaluate_rule_total :
      (entry : String × Threshold) (passport : Evidence) (missing : Verdict)
      → HasNumbers entry.1
      → check_rule entry ≡ ok tt
      → (q : RuleResult) × (evaluate_rule round4 entry.0 entry.1 passport missing ≡ ok q)
  unfolding evaluate_rule
  evaluate_rule_total entry passport missing h e =
      let (rule, known, checked) = check_rule-known entry e in
      elim (Option-cases (rule.evidence passport)) [
        | inl n ↦ rw (evaluate_rule, known, n) (_, refl)
        | inr (observed, n) ↦
            let (v, judged) = judge_checked entry.0 rule.kind entry.1 (value observed) h checked in
            rw (evaluate_rule, known, n, judged) (_, refl)
      ]

  evaluate_rules_total :
      (entries : List (String × Threshold)) (passport : Evidence) (missing : Verdict)
      → All (λ e. HasNumbers e.1) entries
      → check_rules entries ≡ ok tt
      → (qs : List RuleResult) × (evaluate_rules round4 entries passport missing ≡ ok qs)
  unfolding evaluate_rules check_rules
  evaluate_rules_total [] passport missing all e = ([], refl)
  evaluate_rules_total (entry ∷ rest) passport missing (h, all) e =
      let (u, first_one, others) = >>-eq-ok (check_rule entry) (check_rules rest) e in
      let (q, run) = evaluate_rule_total entry passport missing h first_one in
      let (qs, runs) = evaluate_rules_total rest passport missing all others in
      rw (evaluate_rules, run, runs) (_, refl)

  -- A policy that `load_policy` accepts, and whose tables have only numbers, Booleans and nulls for
  -- limits (no text, list, date or mapping), is evaluated on every passport without an error.
  pub evaluate_total :
      (policy : Policy) (passport : Evidence)
      → load_policy policy ≡ ok policy
      → All (λ e. HasNumbers e.1) policy.rules
      → (r : PolicyResult) × (evaluate round4 policy passport ≡ ok r)
  unfolding evaluate load_policy
  evaluate_total policy passport e all =
      let (u, checked, _) = >>-eq-ok (check_rules policy.rules) (ok policy) (accepted policy e) in
      let (qs, runs) =
        evaluate_rules_total policy.rules passport policy.missing_evidence all checked in
      rw (evaluate, runs) (_, refl)

  -- The checks of `load_policy` do not see a text as a limit: a rule with the limit `fail: text`
  -- passes them, and on every passport that has the rule's evidence the evaluation is a `TypeError`.
  pub text_limit_raises :
      (name text : String) (rule : Rule) (passport : Evidence) (missing : Verdict)
      (observed : Observed)
      → rule_named name ≡ some rule
      → rule.kind ≢ flag
      → rule.evidence passport ≡ some observed
      → (check_rule (name, table (("fail", word text) ∷ [])) ≡ ok tt)
        × (evaluate_rule round4 name (table (("fail", word text) ∷ [])) passport missing
            ≡ err (type_error name))
  unfolding check_rule evaluate_rule
  text_limit_raises name text rule passport missing observed known kind seen =
      let (checked, judged) = text_limit name text rule.kind (value observed) kind in
      (rw (check_rule, known) checked, rw (evaluate_rule, known, seen, judged) refl)
