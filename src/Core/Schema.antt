-- ===== src/Core/Schema.antt =====
-- src/model_passport/core/schema.py: verdicts, severities and the reports that a passport holds.
--
-- A rate (AUC, TPR, a fraction, a gap) is an integer in millionths: the auditors round to four or
-- six decimals.
use model_passport.Prelude.{leb, ℤ, ℕ, String, Bool, Option, List}

pub data Verdict : Type 0 where
  pass warn fail : Verdict

pub data Severity : Type 0 where
  info low medium high critical : Severity

unfoldable pub Verdict-discrete : Discrete Verdict
Verdict-discrete = hlevel

unfoldable pub Severity-discrete : Discrete Severity
Severity-discrete = hlevel

-- `SEVERITY_ORDER.index`
unfoldable pub severity_index : Severity → ℕ
severity_index info = 0
severity_index low = 1
severity_index medium = 2
severity_index high = 3
severity_index critical = 4

unfoldable pub at_least : Severity → Severity → Bool
unfolding severity_index
at_least severity minimum = leb (severity_index minimum) (severity_index severity)

pub data DependencyAudit : Type 0 where
  audit_done audit_not_run audit_failed : DependencyAudit

unfoldable pub DependencyAudit-discrete : Discrete DependencyAudit
DependencyAudit-discrete = hlevel

-- `direct_identifier` is the entry of that name in `details`.
pub record Finding : Type 0 where
  pub scanner : String
  pub category : String
  pub severity : Severity
  pub location : Option String
  pub count : ℕ
  pub direct_identifier : Bool

pub record ReidentificationResult : Type 0 where
  pub rows : ℕ
  pub quasi_identifiers : List String
  pub k_anonymity : Option ℕ
  pub unique_fraction : ℤ
  pub l_diversity : Option ℕ

pub record LeakageResult : Type 0 where
  pub mia_auc : ℤ
  pub tpr_at_low_fpr : ℤ
  pub generalization_gap : Option ℤ

pub record EntityFinding : Type 0 where
  pub recorded_in : String
  pub span : ℕ × ℕ
  pub entity_type : String
  pub fingerprint : Option String
  pub severity : Severity
  pub confirmed : Option Bool

pub record EntityAuditResult : Type 0 where
  pub auc : Option ℤ
  pub tpr_at_fpr : List (String × ℤ)
  pub severity_counts : List (String × ℕ)
  pub findings : List EntityFinding

pub record PrivacyReport : Type 0 where
  pub datasets_scanned : List String
  pub data_findings : List Finding
  pub reidentification : List ReidentificationResult
  pub leakage : Option LeakageResult
  pub entity_audit : Option EntityAuditResult

pub record SecurityReport : Type 0 where
  pub files_scanned_for_secrets : Option ℕ
  pub secret_findings : List Finding
  pub artifacts_scanned : List String
  pub artifact_findings : List Finding
  pub dependency_audit : DependencyAudit
  pub dependency_vulnerabilities : List Finding

-- The two sections that a policy reads.
pub record Evidence : Type 0 where
  pub privacy_report : Option PrivacyReport
  pub security_report : Option SecurityReport
