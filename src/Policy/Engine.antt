-- ===== src/Policy/Engine.antt =====
-- src/model_passport/policy/engine.py: the verdict of a rule and of a policy.
--
-- What YAML and pydantic deliver for a policy file is the argument of `load_policy`. A number is an
-- integer in millionths. The messages of results and errors, and the file's digest, are left out.
pub mod Worst
pub mod Judge
pub mod Load
use model_passport.Prelude.{
  ltb, if◌then◌else◌, is_some, keep, any, str_eq, ℤ, pos, ltb_int, millions, ℕ, String, Bool, false,
  ◌||◌, not, Option, none, some, List, [], ◌∷◌, map,
}
use model_passport.Prelude.Outcome.{Outcome, ok, err, ◌>>=◌, ◌>>◌, require}
use model_passport.Core.Schema.{Verdict, pass, warn, fail, Evidence}
use model_passport.Policy.Evidence.{
  Observed, count, rate, value, Kind, maximum, flag, some_in, get, rule_named,
}

-- A value in a policy file.
pub data Scalar : Type 0 where
  num : ℤ → Scalar
  word : String → Scalar
  boolean : Bool → Scalar
  null : Scalar
  -- A list, a date, a set or a mapping below a limit.
  compound : Scalar

pub data Threshold : Type 0 where
  plain : Scalar → Threshold
  table : List (String × Scalar) → Threshold

pub record Policy : Type 0 where
  pub rules : List (String × Threshold)
  pub missing_evidence : Verdict

-- `PolicyError` is the first three; the rest are the `KeyError` of a rule that is not known, the
-- `ValueError` of `Verdict(...)` and Python's `TypeError`.
pub data PolicyError : Type 0 where
  unknown_rules : List String → PolicyError
  bad_threshold : String → PolicyError
  bad_keys : String → PolicyError
  key_error : String → PolicyError
  value_error : String → PolicyError
  type_error : String → PolicyError

pub record RuleResult : Type 0 where
  pub name : String
  pub threshold : Threshold
  pub observed : Option Observed
  pub result : Verdict

pub record PolicyResult : Type 0 where
  pub rules : List RuleResult
  pub verdict : Verdict

-- `VERDICT_ORDER.index`
unfoldable pub verdict_index : Verdict → ℕ
verdict_index pass = 0
verdict_index warn = 1
verdict_index fail = 2

-- One step of `max(..., key=VERDICT_ORDER.index)`: of equal verdicts the first stays.
unfoldable pub worse : Verdict → Verdict → Verdict
unfolding verdict_index
worse a b = if ltb (verdict_index a) (verdict_index b) then b else a

unfoldable pub worst_from : Verdict → List Verdict → Verdict
worst_from v [] = v
worst_from v (w ∷ rest) = worst_from (worse v w) rest

unfoldable pub worst : List Verdict → Verdict
unfolding worst_from
worst [] = pass
worst (v ∷ rest) = worst_from v rest

-- `Verdict(text)`
unfoldable pub verdict_word : String → Option Verdict
verdict_word s =
    if str_eq s "pass"
    then some pass
    else if str_eq s "warn"
    then some warn
    else if str_eq s "fail"
    then some fail
    else none

-- Of a table: the value of a key, `None` when it is missing.
unfoldable pub limit_at : String → List (String × Scalar) → Scalar
unfolding get
limit_at key entries = elim (get key entries) [ none ↦ null | some v ↦ v ]

unfoldable pub known_key : String → Bool
known_key key = str_eq key "warn" || str_eq key "fail"

unfoldable pub thresholds : String → Threshold → Outcome PolicyError (Scalar × Scalar)
unfolding any some_in limit_at known_key
thresholds name (table entries) =
    if any (λ e. not (known_key e.0)) entries || not (some_in entries)
    then err (bad_keys name)
    else ok (limit_at "warn" entries, limit_at "fail" entries)
thresholds name (plain (num n)) = ok (null, num n)
thresholds name (plain _) = err (bad_threshold name)

-- `observed > threshold` or `observed < threshold`
unfoldable pub beyond : Kind → ℤ → ℤ → Bool
beyond maximum observed limit = ltb_int limit observed
beyond _ observed limit = ltb_int observed limit

-- In Python `True` compares as 1 and `False` as 0, and what is no number does not compare with one.
unfoldable pub violates : String → Kind → ℤ → Scalar → Outcome PolicyError Bool
unfolding beyond
violates name kind observed null = ok false
violates name kind observed (num limit) = ok (beyond kind observed limit)
violates name kind observed (boolean b) = ok (beyond kind observed (millions (if b then 1 else 0)))
violates name kind observed (word s) = err (type_error name)
violates name kind observed compound = err (type_error name)

unfoldable pub judge_limits : String → Kind → ℤ → Scalar → Scalar → Outcome PolicyError Verdict
unfolding violates
judge_limits name kind observed warn_at fail_at = violates name kind observed fail_at >>= λ failed.
    if failed
    then ok fail
    else (violates name kind observed warn_at >>= λ warned. ok (if warned then warn else pass))

-- `Verdict(threshold)`
unfoldable pub flag_verdict : String → Threshold → Outcome PolicyError Verdict
unfolding verdict_word
flag_verdict name (plain (word s)) = elim (verdict_word s) [
  | none ↦ err (value_error name)
  | some v ↦ ok v
]
flag_verdict name _ = err (value_error name)

-- The verdict on an observation.
unfoldable pub judge : String → Kind → Threshold → ℤ → Outcome PolicyError Verdict
unfolding flag_verdict thresholds judge_limits
judge name flag threshold observed =
    if ltb_int (pos 0) observed then flag_verdict name threshold else ok pass
judge name kind threshold observed =
    thresholds name threshold >>= λ limits. judge_limits name kind observed limits.0 limits.1

-- `round4` is `round(x, 4)`, which the code shows a rate with.
unfoldable pub shown : (ℤ → ℤ) → Kind → Observed → Observed
shown round4 flag observed = observed
shown round4 _ (count n) = count n
shown round4 _ (rate r) = rate (round4 r)

module _ (round4 : ℤ → ℤ) where
  unfoldable pub evaluate_rule :
      String → Threshold → Evidence → Verdict → Outcome PolicyError RuleResult
  unfolding rule_named value judge shown
  evaluate_rule name threshold passport missing = elim (rule_named name) [
    | none ↦ err (key_error name)
    | some rule ↦ elim (rule.evidence passport) [
      | none ↦ ok record { name = name; threshold = threshold; observed = none; result = missing }
      | some observed ↦ judge name rule.kind threshold (value observed) >>= λ verdict. ok record {
        name = name;
        threshold = threshold;
        observed = some (shown round4 rule.kind observed);
        result = verdict;
      }
    ]
  ]

  unfoldable pub evaluate_rules :
      List (String × Threshold) → Evidence → Verdict → Outcome PolicyError (List RuleResult)
  unfolding evaluate_rule
  evaluate_rules [] passport missing = ok []
  evaluate_rules (entry ∷ rest) passport missing =
      evaluate_rule entry.0 entry.1 passport missing >>= λ r.
      (evaluate_rules rest passport missing >>= λ others. ok (r ∷ others))

  unfoldable pub evaluate : Policy → Evidence → Outcome PolicyError PolicyResult
  unfolding evaluate_rules worst
  evaluate policy passport =
      evaluate_rules policy.rules passport policy.missing_evidence >>= λ results.
      ok record { rules = results; verdict = worst (map (λ r. r.result) results) }

-- `threshold not in {"pass", "warn", "fail"}`: a table has no hash.
unfoldable pub check_flag : String → Threshold → Outcome PolicyError (Unit {0})
unfolding verdict_word
check_flag name (plain (word s)) = require (is_some (verdict_word s)) (bad_threshold name)
check_flag name (plain _) = err (bad_threshold name)
check_flag name (table _) = err (type_error name)

-- The check of a threshold by the kind of its rule.
unfoldable pub check_threshold : String → Kind → Threshold → Outcome PolicyError (Unit {0})
unfolding check_flag thresholds
check_threshold name flag threshold = check_flag name threshold
check_threshold name _ threshold = thresholds name threshold >>= λ _. ok tt

unfoldable pub check_rule : String × Threshold → Outcome PolicyError (Unit {0})
unfolding rule_named check_threshold
check_rule entry = elim (rule_named entry.0) [
  | none ↦ err (key_error entry.0)
  | some rule ↦ check_threshold entry.0 rule.kind entry.1
]

unfoldable pub check_rules : List (String × Threshold) → Outcome PolicyError (Unit {0})
unfolding check_rule
check_rules [] = ok tt
check_rules (entry ∷ rest) = check_rule entry >> check_rules rest

-- `set(policy.rules) - set(RULES)`
unfoldable pub unknown_names : Policy → List String
unfolding keep rule_named
unknown_names policy = keep (λ name. not (is_some (rule_named name))) (map (λ e. e.0) policy.rules)

-- The checks of `load_policy`.
unfoldable pub load_policy : Policy → Outcome PolicyError Policy
unfolding some_in unknown_names check_rules
load_policy policy =
    if some_in (unknown_names policy)
    then err (unknown_rules (unknown_names policy))
    else check_rules policy.rules >> ok policy
