-- ===== src/Llm/Tests/Rounds.antt =====
-- Runs of the remediation, of the holdout and of the rating. The gate
-- passes once the address of the record is gone.
use model_passport.Prelude.{
  length, All, any, same_text, letters, ℕ, ◌≡◌, refl, Bool, true, some, List, [], ◌∷◌, ◌==◌,
  if◌then◌else◌, pos, keep, ◌⊎◌, String, map, none, Option, ◌≤◌, ◌-◌, ◌*◌, ◌/◌,
}
use model_passport.Prelude.Outcome.{Outcome, ok, err}
use model_passport.Llm.Entities.{Text, slice, from_index, up_to}
use model_passport.Core.Schema.{medium, high, pass, at_least, severity_index}
use model_passport.Llm.Sanitize.{Record, sanitize, surrogate, is_target}
use model_passport.Llm.Remediate.{
  RemediationSettings, Project, AuditedPassport, Round, Audit, RemediationError, remediate,
  translate, translate_one, translated, last_of,
}
use model_passport.Llm.Remediate.Rounds.{Ended, Raised, remediate-Ended}
use model_passport.Llm.Remediate.Originals.{IsOriginal, translate-IsOriginal}
use model_passport.Guard.Vault.{numeral}
use model_passport.Llm.Versions.{join_dots, bump_minor, bump_minor-next}
use model_passport.Llm.Holdout.{ids, split_holdout, split_holdout-sanitize}
use model_passport.Llm.Risk.{severity, entity_risk, to_hundredths, severity-significant}
use model_passport.Llm.Tests.{toy_sampler, toy_record}

abbrev toy_settings : RemediationSettings
toy_settings = record {
  max_rounds = 3;
  min_severity = medium;
  always = letters "SSN" ∷ [];
  strategy = surrogate;
  type_auc_max = pos 600000;
}

abbrev toy_project : Project
toy_project = record {
  version = letters "1.0.0";
  version_line = true;
  raw = some (toy_record ∷ []);
  train = some (toy_record ∷ []);
  history = [];
}

abbrev toy_audit : Bool → Audit
toy_audit leaks = record {
  auc = some (pos 700000);
  primary_method = letters "min-k";
  metrics = [];
  severity_counts = if leaks then (letters "high", 1) ∷ [] else [];
  findings =
      if leaks
      then record {
        in_record = letters "r1";
        span = (0, 3);
        entity_type = letters "EMAIL";
        severity = high;
      }
        ∷ []
      else [];
}

-- Until a training text is archived, the audit finds the address.
abbrev toy_build : ℕ → Project → Outcome String AuditedPassport
toy_build n p = ok (record {
  passport_id = letters "p";
  verdict = some pass;
  entity_audit = some (toy_audit (length p.history == 0));
})

remediate-Ended_example :
    ((done : List Round × Project) × (remediate toy_sampler
          (λ _. 0)
          toy_build
          toy_settings
          true
          toy_project
        ≡ ok done)
      × Ended 3 toy_project done)
    ⊎ ((e : RemediationError × Project) × (remediate toy_sampler
            (λ _. 0)
            toy_build
            toy_settings
            true
            toy_project
          ≡ err e)
        × Raised toy_build 3 0 toy_project e)
remediate-Ended_example = remediate-Ended toy_sampler (λ _. 0) toy_build toy_settings toy_project

-- The number of rounds, the version and the training texts that a run leaves.
abbrev outcome_of :
    Outcome (RemediationError × Project) (List Round × Project) → Option (ℕ × (Text × List Text))
outcome_of (err _) = none
outcome_of (ok (rounds, final)) = elim final.train [
  | none ↦ none
  | some train ↦ some (length rounds, (final.version, map (λ (r : Record). r.text) train))
]

-- The gate passes in the second round.
remediated :
    outcome_of (remediate toy_sampler (λ _. 0) toy_build toy_settings true toy_project)
    ≡ some (2, (letters "1.1.0", letters "c@d.e Al" ∷ []))
unfolding remediate numeral keep any
remediated = refl

translate-IsOriginal_example :
    All
      (IsOriginal (λ _. (4, 6) ∷ []) (toy_record ∷ []) (toy_record ∷ []) (letters "r1"))
      (translate true (λ _. (4, 6) ∷ []) (toy_record ∷ []) (toy_record ∷ []) (letters "r1"))
translate-IsOriginal_example =
    translate-IsOriginal (λ _. (4, 6) ∷ []) (toy_record ∷ []) (toy_record ∷ []) (letters "r1")

translated_once :
    translate true (λ _. (4, 6) ∷ []) (toy_record ∷ []) (toy_record ∷ []) (letters "r1")
    ≡ (4, 6) ∷ []
unfolding translate translate_one translated last_of is_target same_text slice from_index up_to any
translated_once = refl

-- An id is held out by its length.
split_holdout-sanitize_example :
    (ids
        (split_holdout length
          (λ n. n / 100)
          300
          (sanitize toy_sampler surrogate (λ _. (0, 3) ∷ []) (toy_record ∷ []) 0).0).0
      ≡ ids (split_holdout length (λ n. n / 100) 300 (toy_record ∷ [])).0)
    × (ids
          (split_holdout length
            (λ n. n / 100)
            300
            (sanitize toy_sampler surrogate (λ _. (0, 3) ∷ []) (toy_record ∷ []) 0).0).1
        ≡ ids (split_holdout length (λ n. n / 100) 300 (toy_record ∷ [])).1)
split_holdout-sanitize_example =
    split_holdout-sanitize length (λ n. n / 100) toy_sampler surrogate (λ _. (0, 3) ∷ [])
      (toy_record ∷ []) 0 300 (λ e. cc)

-- p = 0.01 and q = 0.04 of an identifier: the risk is 9.9.
one_risk : entity_risk 10000 40000 10 50000 ≡ 990
unfolding entity_risk to_hundredths
one_risk = refl

one_high : at_least (severity (entity_risk 10000 40000 10 50000)) high ≡ true
unfolding entity_risk to_hundredths severity at_least severity_index
one_high = refl

severity-significant_example : (40000 ≤ 50000) × (6995000 ≤ (1000000 - 10000) * 10)
severity-significant_example = severity-significant 10000 40000 10 50000 one_high

bump_minor-next_example :
    bump_minor (join_dots (numeral 1 ∷ numeral 9 ∷ (b'4' ∷ []) ∷ []))
    ≡ join_dots (numeral 1 ∷ numeral 10 ∷ (b'0' ∷ []) ∷ [])
bump_minor-next_example = bump_minor-next 1 9 (b'4' ∷ []) (refl, tt)
