-- ===== src/Policy/Engine/Worst.antt =====
-- The verdict of a policy is the worst of its rules'.
use model_passport.Prelude.{
  ltb, Bool-cases, All, All-at, ℤ, ◌≤◌, String, ◌≡◌, refl, sym, ap, ◌∙◌, subst, ◌↔◌, ◌⊎◌, inl, inr,
  none, some, List, [], ◌∷◌, map, arith,
}
use mathlib.Core.List.{Memᴰ}
use model_passport.Prelude.Outcome.{ok, >>=-eq-ok, ok-eq}
use model_passport.Core.Schema.{Verdict, pass, fail, Evidence}
use model_passport.Policy.Evidence.{Rule, rule_named}
use model_passport.Policy.Engine.{
  Threshold, Policy, RuleResult, PolicyResult, verdict_index, worse, worst_from, worst,
  evaluate_rule, evaluate_rules, evaluate,
}

worse_bound :
    (a b : Verdict)
    → (verdict_index a ≤ verdict_index (worse a b)) × (verdict_index b ≤ verdict_index (worse a b))
unfolding worse verdict_index
worse_bound a b = ground arith

worst_from_bound :
    (v : Verdict) (rest : List Verdict)
    → (verdict_index v ≤ verdict_index (worst_from v rest))
      × All (λ w. verdict_index w ≤ verdict_index (worst_from v rest)) rest
unfolding worst_from
worst_from_bound v [] = (omega arith, tt)
worst_from_bound v (w ∷ rest) =
    let (step, others) = worst_from_bound (worse v w) rest in
    let (l, r) = worse_bound v w in (omega (arith, step, l), (omega (arith, step, r), others))

worst_from-Mem : (v : Verdict) (rest : List Verdict) → Memᴰ (worst_from v rest) (v ∷ rest)
unfolding worst_from worse
worst_from-Mem v [] = Memᴰ.head refl
worst_from-Mem v (w ∷ rest) = elim (worst_from-Mem (worse v w) rest) [
  | Memᴰ.head e ↦ elim (Bool-cases (ltb (verdict_index v) (verdict_index w))) [
    | inl h ↦ Memᴰ.tail (Memᴰ.head (cc))
    | inr h ↦ Memᴰ.head (cc)
  ]
  | Memᴰ.tail m ↦ Memᴰ.tail (Memᴰ.tail m)
]

-- The worst of a list of verdicts is at least as bad as each of them, and it is one of them or
-- `pass`.
pub worst_max :
    (vs : List Verdict)
    → All (λ v. verdict_index v ≤ verdict_index (worst vs)) vs
      × ((worst vs ≡ pass) ⊎ Memᴰ (worst vs) vs)
unfolding worst
worst_max [] = (tt, inl refl)
worst_max (v ∷ rest) =
    let (first_one, others) = worst_from_bound v rest in
    ((first_one, others), inr (worst_from-Mem v rest))

Memᴰ-map :
    (rs : List RuleResult) {v : Verdict}
    → Memᴰ v (map (λ r. r.result) rs)
    → (r : RuleResult) × Memᴰ r rs × (r.result ≡ v)
Memᴰ-map [] m = elim m [ ]
Memᴰ-map (r ∷ rs) (Memᴰ.head e) = (r, Memᴰ.head refl, sym e)
Memᴰ-map (r ∷ rs) (Memᴰ.tail m) = let (q, n, e) = Memᴰ-map rs m in (q, Memᴰ.tail n, e)

map-Memᴰ :
    (rs : List RuleResult) {r : RuleResult} → Memᴰ r rs → Memᴰ r.result (map (λ q. q.result) rs)
map-Memᴰ [] m = elim m [ ]
map-Memᴰ (q ∷ rs) (Memᴰ.head e) = Memᴰ.head (cc)
map-Memᴰ (q ∷ rs) (Memᴰ.tail m) = Memᴰ.tail (map-Memᴰ rs m)

at_most_fail : (v : Verdict) → verdict_index fail ≤ verdict_index v → v ≡ fail
unfolding verdict_index
at_most_fail v h = ground arith

module _ (round4 : ℤ → ℤ) where
  pub evaluate_split :
      (policy : Policy) (passport : Evidence) {r : PolicyResult}
      → evaluate round4 policy passport ≡ ok r
      → (evaluate_rules round4 policy.rules passport policy.missing_evidence ≡ ok r.rules)
        × (r.verdict ≡ worst (map (λ q. q.result) r.rules))
  unfolding evaluate
  evaluate_split policy passport e =
      let (results, run, e1) = >>=-eq-ok (evaluate_rules round4 policy.rules passport _) _ e in
      let same = ok-eq e1 in (run ∙ ap (λ (q : PolicyResult). ok q.rules) same, cc)

  -- When a policy is evaluated, its verdict is `fail` exactly if the result of some rule is `fail`.
  evaluate_fails :
      (policy : Policy) (passport : Evidence) {r : PolicyResult}
      → evaluate round4 policy passport ≡ ok r
      → (r.verdict ≡ fail) ↔ ((q : RuleResult) × Memᴰ q r.rules × (q.result ≡ fail))
  evaluate_fails policy passport {r = r} e =
      let (_, v) = evaluate_split policy passport e in
      let (bound, found) = worst_max (map (λ q. q.result) r.rules) in
      (
        λ h. elim found [
          | inl p ↦ absurd (cc)
          | inr m ↦ let (q, n, same) = Memᴰ-map r.rules m in (q, n, cc)
        ],
        λ (q, n, h).
            v
            ∙ at_most_fail _ (
                subst (λ w. verdict_index w ≤ verdict_index (worst (map (λ q. q.result) r.rules))) h
                  (All-at _ _ bound (map-Memᴰ r.rules n))),
      )

  rule_missing :
      (entry : String × Threshold) (passport : Evidence) (missing : Verdict) (rule : Rule)
      {q : RuleResult}
      → rule_named entry.0 ≡ some rule
      → rule.evidence passport ≡ none
      → evaluate_rule round4 entry.0 entry.1 passport missing ≡ ok q
      → q.result ≡ missing
  unfolding evaluate_rule
  rule_missing entry passport missing rule known gone e =
      let e1 = rw (evaluate_rule, known, gone) at e in
      sym (ap (λ (q : RuleResult). q.result) (ok-eq e1))

  rules_missing :
      (entries : List (String × Threshold)) (passport : Evidence) (missing : Verdict)
      (entry : String × Threshold) (rule : Rule) {results : List RuleResult}
      → Memᴰ entry entries
      → rule_named entry.0 ≡ some rule
      → rule.evidence passport ≡ none
      → evaluate_rules round4 entries passport missing ≡ ok results
      → Memᴰ missing (map (λ q. q.result) results)
  unfolding evaluate_rules
  rules_missing [] passport missing entry rule m known gone e = elim m [ ]
  rules_missing (x ∷ rest) passport missing entry rule m known gone e =
      let (q, run, e1) = >>=-eq-ok (evaluate_rule round4 x.0 x.1 passport missing) _ e in
      let (others, runs, e2) = >>=-eq-ok (evaluate_rules round4 rest passport missing) _ e1 in
      subst (λ rs. Memᴰ missing (map (λ q. q.result) rs)) (ok-eq e2)
        elim m [
          | Memᴰ.head same ↦ Memᴰ.head (sym (rule_missing x passport missing rule (cc) gone run))
          | Memᴰ.tail n ↦
              Memᴰ.tail (rules_missing rest passport missing entry rule n known gone runs)
        ]

  -- When a policy is evaluated and the evidence of one of its rules was not collected, the verdict
  -- is at least as bad as `missing_evidence`.
  pub evaluate_missing :
      (policy : Policy) (passport : Evidence) (entry : String × Threshold) (rule : Rule)
      {r : PolicyResult}
      → Memᴰ entry policy.rules
      → rule_named entry.0 ≡ some rule
      → rule.evidence passport ≡ none
      → evaluate round4 policy passport ≡ ok r
      → verdict_index policy.missing_evidence ≤ verdict_index r.verdict
  evaluate_missing policy passport entry rule {r = r} m known gone e =
      let (run, v) = evaluate_split policy passport e in
      let (bound, _) = worst_max (map (λ q. q.result) r.rules) in
      subst (λ w. verdict_index policy.missing_evidence ≤ verdict_index w) (sym v)
        (All-at _ _ bound
          (rules_missing policy.rules passport policy.missing_evidence entry rule m known gone run))
