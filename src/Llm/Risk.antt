-- ===== src/Llm/Risk.antt =====
-- src/model_passport/llm/risk.py: the risk of an entity and its severity.
--
-- Probabilities, q-values and the rate `fdr` are natural numbers of millionths, impacts of tenths;
-- a risk is exact in millionths until it is rounded to hundredths, ties upwards.
use model_passport.Prelude.{
  leb, ltb, if◌then◌else◌, Bool-cases, ℕ, ◌+◌, ◌-◌, ◌*◌, ◌/◌, ◌≤◌, ◌≡◌, inl, inr, true, arith,
  subst,
}
use model_passport.Core.Schema.{
  Severity, at_least, severity_index, info, low, medium, high, critical,
}

-- The bands, of hundredths.
unfoldable pub severity : ℕ → Severity
severity risk =
    if leb 900 risk
    then critical
    else if leb 700 risk
    then high
    else if leb 400 risk
    then medium
    else if leb 10 risk
    then low
    else info

-- `min(risk, NOT_SIGNIFICANT_CAP)`
unfoldable pub capped : ℕ → ℕ
capped risk = if leb risk 3900000 then risk else 3900000

-- `round(risk, 2)`
unfoldable pub to_hundredths : ℕ → ℕ
to_hundredths risk = (risk + 5000) / 10000

-- The risk of `entity_risk`, from p, q and the impact of the type.
unfoldable pub entity_risk : ℕ → ℕ → ℕ → ℕ → ℕ
unfolding capped to_hundredths
entity_risk p q weight fdr =
    let risk = (1000000 - p) * weight in to_hundredths (if ltb fdr q then capped risk else risk)

severity-high : (risk : ℕ) → at_least (severity risk) high ≡ true → 700 ≤ risk
unfolding severity at_least severity_index
severity-high risk e = ground arith

capped-le : (risk : ℕ) → capped risk ≤ 3900000
unfolding capped
capped-le risk = ground arith

-- A finding is high or critical only if it is significant, and its likelihood times its impact is
-- 0.6995 at least: a type of impact 0.6 or lower never is.
pub severity-significant :
    (p q weight fdr : ℕ)
    → at_least (severity (entity_risk p q weight fdr)) high ≡ true
    → (q ≤ fdr) × (6995000 ≤ (1000000 - p) * weight)
unfolding entity_risk to_hundredths
severity-significant p q weight fdr e =
    let risk = (1000000 - p) * weight in
    let big = severity-high (entity_risk p q weight fdr) e in
    elim (Bool-cases (ltb fdr q)) [
      | inl h ↦
          let cut : 700 ≤ (capped risk + 5000) / 10000 =
            subst (λ b. 700 ≤ ((if b then capped risk else risk) + 5000) / 10000) h big in
          absurd (let small = capped-le risk in omega (arith, cut, small))
      | inr h ↦
          let full : 700 ≤ (risk + 5000) / 10000 =
            subst (λ b. 700 ≤ ((if b then capped risk else risk) + 5000) / 10000) h big in
          (ground arith, omega (arith, full))
    ]
