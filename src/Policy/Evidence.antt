-- ===== src/Policy/Evidence.antt =====
-- src/model_passport/policy/engine.py: what the rules read from a passport's reports.
use model_passport.Prelude.{
  ltb, if◌then◌else◌, is_yes, is_some, length, keep, any, first, str_eq, ℤ, ltb_int, millions, ℕ,
  String, Bool, true, false, ◌&&◌, ◌||◌, Option, none, some, List, [], ◌∷◌, map,
}
use mathlib.Core.Option
use mathlib.Core.Option.{bind}
use model_passport.Core.Schema.{
  Severity, info, low, medium, high, critical, Severity-discrete, at_least,
  DependencyAudit-discrete, ReidentificationResult, LeakageResult, EntityAuditResult, Evidence,
  audit_done,
}

-- What a rule observes: a count, or a rate.
pub data Observed : Type 0 where
  count : ℕ → Observed
  rate : ℤ → Observed

unfoldable pub value : Observed → ℤ
value (count n) = millions n
value (rate r) = r

pub data Kind : Type 0 where
  maximum minimum flag : Kind

pub record Rule : Type 0 where
  pub name : String
  pub evidence : Evidence → Option Observed
  pub kind : Kind

-- `min(values)` of a list that is not empty.
unfoldable pub least : ℕ → List ℕ → ℕ
least m [] = m
least m (n ∷ rest) = least (if ltb n m then n else m) rest

unfoldable pub min_of : List ℕ → Option Observed
unfolding least
min_of [] = none
min_of (m ∷ rest) = some (count (least m rest))

unfoldable pub greatest : ℤ → List ℤ → ℤ
greatest m [] = m
greatest m (n ∷ rest) = greatest (if ltb_int m n then n else m) rest

unfoldable pub max_of : List ℤ → Option Observed
unfolding greatest
max_of [] = none
max_of (m ∷ rest) = some (rate (greatest m rest))

-- `[x for x in xs if x is not None]`
unfoldable pub present : List (Option ℕ) → List ℕ
present [] = []
present (none ∷ rest) = present rest
present (some n ∷ rest) = n ∷ present rest

unfoldable pub some_in {ℓ} : {A : Type ℓ} → List A → Bool
some_in [] = false
some_in (_ ∷ _) = true

unfoldable pub same_location : Option String → Option String → Bool
same_location none none = true
same_location (some s) (some t) = str_eq s t
same_location none (some t) = false
same_location (some s) none = false

-- The distinct values of a list, as a set comprehension has them.
unfoldable pub distinct : List (Option String) → List (Option String)
unfolding any same_location
distinct [] = []
distinct (x ∷ rest) =
    let others = distinct rest in if any (same_location x) others then others else x ∷ others

unfoldable pub pii_columns : Evidence → Option Observed
unfolding keep some_in distinct
pii_columns p = elim p.privacy_report [
  | none ↦ none
  | some report ↦
      if some_in report.datasets_scanned
      then some (
          count (
            length (
              distinct (
                map (λ f. f.location)
                  (keep (λ f. str_eq f.scanner "pii" && f.direct_identifier)
                    report.data_findings)))))
      else none
]

unfoldable pub reid_results : Evidence → List ReidentificationResult
reid_results p = elim p.privacy_report [ none ↦ [] | some report ↦ report.reidentification ]

unfoldable pub min_k : Evidence → Option Observed
unfolding min_of present reid_results
min_k p = min_of (present (map (λ r. r.k_anonymity) (reid_results p)))

unfoldable pub max_unique : Evidence → Option Observed
unfolding max_of keep some_in reid_results
max_unique p =
    max_of (map (λ r. r.unique_fraction) (keep (λ r. some_in r.quasi_identifiers) (reid_results p)))

unfoldable pub min_l : Evidence → Option Observed
unfolding min_of present reid_results
min_l p = min_of (present (map (λ r. r.l_diversity) (reid_results p)))

-- `_leakage(field)`: `field` reads the attribute, which may be missing itself.
unfoldable pub leakage_field : (LeakageResult → Option ℤ) → Evidence → Option Observed
unfolding bind
leakage_field field p =
    Option.map rate (bind (bind p.privacy_report (λ report. report.leakage)) field)

unfoldable pub secrets : Evidence → Option Observed
unfolding keep at_least
secrets p = elim p.security_report [
  | none ↦ none
  | some report ↦
      if is_some report.files_scanned_for_secrets
      then some (count (length (keep (λ f. at_least f.severity high) report.secret_findings)))
      else none
]

-- The categories in `UNSAFE_ARTIFACT_CATEGORIES`.
unfoldable pub unsafe_artifact : String → Bool
unsafe_artifact category = str_eq category "UNSAFE_PICKLE" || str_eq category "SCAN_ERROR"

unfoldable pub unsafe_pickles : Evidence → Option Observed
unfolding keep some_in unsafe_artifact
unsafe_pickles p = elim p.security_report [
  | none ↦ none
  | some report ↦
      if some_in report.artifacts_scanned
      then some (count (length (keep (λ f. unsafe_artifact f.category) report.artifact_findings)))
      else none
]

unfoldable pub cves : Severity → Evidence → Option Observed
unfolding keep
cves severity p = elim p.security_report [
  | none ↦ none
  | some report ↦
      if is_yes (DependencyAudit-discrete report.dependency_audit audit_done)
      then some (
          count (
            length (
              keep (λ f. is_yes (Severity-discrete f.severity severity))
                report.dependency_vulnerabilities)))
      else none
]

unfoldable pub entity_audit_of : Evidence → Option EntityAuditResult
unfolding bind
entity_audit_of p = bind p.privacy_report (λ report. report.entity_audit)

-- `dict.get` of a table with text keys.
unfoldable pub get {ℓ} : {A : Type ℓ} → String → List (String × A) → Option A
get key [] = none
get key (entry ∷ rest) =
    let found = get key rest in if str_eq entry.0 key then some entry.1 else found

unfoldable pub severity_word : Severity → String
severity_word info = "info"
severity_word low = "low"
severity_word medium = "medium"
severity_word high = "high"
severity_word critical = "critical"

unfoldable pub entities_at : Severity → Evidence → Option Observed
unfolding entity_audit_of get severity_word
entities_at severity p = elim (entity_audit_of p) [
  | none ↦ none
  | some audit ↦
      some (
        count (elim (get (severity_word severity) audit.severity_counts) [ none ↦ 0 | some n ↦ n ]))
]

unfoldable pub entity_auc : Evidence → Option Observed
unfolding entity_audit_of bind
entity_auc p = Option.map rate (bind (entity_audit_of p) (λ audit. audit.auc))

unfoldable pub entity_tpr : Evidence → Option Observed
unfolding entity_audit_of get bind
entity_tpr p = Option.map rate (bind (entity_audit_of p) (λ audit. get "0.01" audit.tpr_at_fpr))

unfoldable pub rules_known : List Rule
rules_known =
    record { name = "pii_columns_max"; evidence = pii_columns; kind = maximum }
    ∷ record { name = "min_k_anonymity"; evidence = min_k; kind = minimum }
    ∷ record { name = "unique_record_fraction_max"; evidence = max_unique; kind = maximum }
    ∷ record { name = "min_l_diversity"; evidence = min_l; kind = minimum }
    ∷ record {
      name = "mia_auc_max";
      evidence = leakage_field (λ l. some l.mia_auc);
      kind = maximum;
    }
    ∷ record {
      name = "mia_tpr_at_low_fpr_max";
      evidence = leakage_field (λ l. some l.tpr_at_low_fpr);
      kind = maximum;
    }
    ∷ record {
      name = "generalization_gap_max";
      evidence = leakage_field (λ l. l.generalization_gap);
      kind = maximum;
    }
    ∷ record { name = "secrets_found_max"; evidence = secrets; kind = maximum }
    ∷ record { name = "unsafe_pickle"; evidence = unsafe_pickles; kind = flag }
    ∷ record { name = "critical_cves_max"; evidence = cves critical; kind = maximum }
    ∷ record { name = "entity_critical_max"; evidence = entities_at critical; kind = maximum }
    ∷ record { name = "entity_high_max"; evidence = entities_at high; kind = maximum }
    ∷ record { name = "el_mia_auc_max"; evidence = entity_auc; kind = maximum }
    ∷ record { name = "el_mia_tpr_at_1pct_fpr_max"; evidence = entity_tpr; kind = maximum }
    ∷ record { name = "high_cves_max"; evidence = cves high; kind = maximum }
    ∷ []

unfoldable pub rule_named : String → Option Rule
unfolding first rules_known
rule_named name = first (λ r. str_eq r.name name) rules_known
