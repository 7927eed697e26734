-- ===== src/Llm/Remediate.antt =====
-- src/model_passport/llm/remediate.py: sanitize, retrain and audit again, until the gate passes.
--
-- `_build`, the pipeline and the building of the passport, is the parameter `build`, of the attempt
-- and the project, and may raise; the passport's version is the project's. A corpus is the records of
-- its file, none if the file does not parse. A
-- dictionary of counts or rates is a list of entries. What is printed is left out.
pub mod Originals
pub mod Rounds
use model_passport.Prelude.{
  ◌==◌, if◌then◌else◌, length, keep, any, same_text, ℕ, zero, suc, ◌+◌, ℤ, Bool, true, false, ◌&&◌,
  not, Option, none, some, List, [], ◌∷◌, ◌++◌, map, letters, ltb_int, String, ◌||◌,
}
use model_passport.Prelude.Outcome.{Outcome, ok, err, ◌>>=◌}
use model_passport.Core.Schema.{Severity, Verdict, at_least, fail, high}
use model_passport.Llm.Entities.{Text, Span, slice, loaded_spans, is_nil}
use model_passport.Llm.Sanitize.{
  Record, Sampler, Strategy, Targets, is_target, Risk, risky_spans, sanitize,
}
use model_passport.Llm.Versions.{bump_minor}

pub data RemediationError : Type 0 where
  no_entity_audit no_version_line corpus_not_found : RemediationError
  -- What `_build` and `load_corpus` raise.
  build_failed : String → RemediationError
  unreadable_corpus : RemediationError

pub record RemediationSettings : Type 0 where
  pub max_rounds : ℕ
  pub min_severity : Severity
  pub always : List Text
  pub strategy : Strategy
  pub type_auc_max : ℤ

pub record MethodMetrics : Type 0 where
  pub method : Text
  pub entity_type : Option Text
  pub auc : ℤ

-- What the loop reads of a passport's entity audit.
pub record Audit : Type 0 where
  pub auc : Option ℤ
  pub primary_method : Text
  pub metrics : List MethodMetrics
  pub severity_counts : List (Text × ℕ)
  pub findings : List Risk

-- What the loop reads of a passport; the verdict of one without a policy is "none".
pub record AuditedPassport : Type 0 where
  pub passport_id : Text
  pub verdict : Option Verdict
  pub entity_audit : Option Audit

pub record Project : Type 0 where
  pub version : Text
  -- `VERSION_RE` finds the version in the configuration.
  pub version_line : Bool
  pub raw : Option (List Record)
  pub train : Option (List Record)
  -- The copies of the training text, the last one that was written first: one of the same version
  -- as an older one takes its file.
  pub history : List (Text × Option (List Record))

pub record Round : Type 0 where
  pub version : Text
  pub passport_id : Text
  pub verdict : Option Verdict
  pub auc : Option ℤ
  pub severity_counts : List (Text × ℕ)
  pub risky_types : List Text
  pub type_auc : List (Text × ℤ)
  pub sanitized : List Text
  pub whole_types : List Text

-- `.get(name, 0)`
unfoldable pub count_at : Text → List (Text × ℕ) → ℕ
unfolding same_text
count_at name [] = 0
count_at name ((key, n) ∷ counts) =
    let rest = count_at name counts in if same_text key name then n else rest

unfoldable pub count_blocking : Round → ℕ
unfolding count_at
count_blocking r =
    count_at (letters "critical") r.severity_counts + count_at (letters "high") r.severity_counts

abbrev pub is_fail : Option Verdict → Bool
is_fail (some fail) = true
is_fail _ = false

-- `verdict != fail and not count_blocking`
unfoldable pub passes : Round → Bool
unfolding count_blocking
passes r = not (is_fail r.verdict) && count_blocking r == 0

unfoldable pub gate_passed : List Round → Bool
unfolding passes
gate_passed [] = false
gate_passed (r ∷ []) = passes r
gate_passed (_ ∷ r ∷ rounds) = gate_passed (r ∷ rounds)

unfoldable pub type_auc : Audit → List MethodMetrics → List (Text × ℤ)
unfolding same_text
type_auc audit [] = []
type_auc audit (m ∷ metrics) =
    let rest = type_auc audit metrics in
    elim m.entity_type [
      | none ↦ rest
      | some kind ↦
          if not (is_nil kind) && same_text m.method audit.primary_method
          then (kind, m.auc) ∷ rest
          else rest
    ]

unfoldable pub high_risk_types : List Risk → List Text
unfolding at_least
high_risk_types findings = map (λ r. r.entity_type) (keep (λ r. at_least r.severity high) findings)

-- `_round`
unfoldable pub round_of : Text → AuditedPassport → Outcome RemediationError Round
unfolding type_auc high_risk_types
round_of version passport = elim passport.entity_audit [
  | none ↦ err no_entity_audit
  | some audit ↦ ok (record {
    version = version;
    passport_id = passport.passport_id;
    verdict = passport.verdict;
    auc = audit.auc;
    severity_counts = audit.severity_counts;
    risky_types = high_risk_types audit.findings;
    type_auc = type_auc audit audit.metrics;
    sanitized = [];
    whole_types = [];
  })
]

abbrev pub findings_of : AuditedPassport → List Risk
findings_of passport = elim passport.entity_audit [ none ↦ [] | some audit ↦ audit.findings ]

-- `load_corpus`, of records that were written with their entities.
unfoldable pub load_corpus : Option (List Record) → Outcome RemediationError (List Record)
unfolding loaded_spans
load_corpus none = err unreadable_corpus
load_corpus (some records) =
    ok (map (λ (r : Record). record r { entities = loaded_spans r.text r.entities }) records)

-- The wanted spans of a record at their places in its copy; with `only_original`, those whose values
-- are the same still.
unfoldable pub translated : Bool → Targets → Record → Record → List Span → List Span → Targets
unfolding is_target same_text slice
translated only_original wanted original copy [] _ = []
translated only_original wanted original copy (_ ∷ _) [] = []
translated only_original wanted original copy (s ∷ spans) (now ∷ copies) =
    let rest = translated only_original wanted original copy spans copies in
    let same = same_text (slice now.start now.end copy.text) (slice s.start s.end original.text) in
    if is_target s wanted && (not only_original || same) then (now.start, now.end) ∷ rest else rest

-- `current`, which has the last record of an id.
unfoldable pub last_of : Text → List Record → Option Record
unfolding same_text
last_of id [] = none
last_of id (r ∷ records) = elim (last_of id records) [
  | some found ↦ some found
  | none ↦ if same_text r.id id then some r else none
]

-- The targets of one record of the original corpus.
unfoldable pub translate_one : Bool → Targets → Record → Option Record → Targets
unfolding translated
translate_one only_original wanted original none = []
translate_one only_original wanted original (some copy) =
    if length copy.entities == length original.entities
    then translated only_original wanted original copy original.entities copy.entities
    else []

-- What `translate` has for an id.
unfoldable pub translate : Bool → (Text → Targets) → List Record → List Record → Text → Targets
unfolding translate_one last_of same_text
translate only_original targets [] train id = []
translate only_original targets (r ∷ raw) train id =
    let rest = translate only_original targets raw train id in
    if same_text r.id id
    then translate_one only_original (targets r.id) r (last_of r.id train) ++ rest
    else rest

-- The types that every value is replaced of in the next round.
unfoldable pub whole_types_of : ℤ → List Text → Round → List Text
unfolding count_blocking same_text
whole_types_of limit previous r =
    let twice = keep (λ kind. any (same_text kind) previous) r.risky_types in
    if count_blocking r == 0
    then twice ++ map (λ k. k.0) (keep (λ k. ltb_int limit k.1) r.type_auc)
    else twice

unfoldable pub set_version : Text → Project → Outcome (RemediationError × Project) Project
set_version version project =
    if project.version_line
    then ok (record project { version = version })
    else err (no_version_line, project)

module _ (lib : Sampler) (fresh : List Record → lib.State)
    (build : ℕ → Project → Outcome String AuditedPassport) where
  -- `_build` and `_round`
  unfoldable pub audited_round : ℕ → Project → Outcome RemediationError (AuditedPassport × Round)
  unfolding round_of
  audited_round attempt project = elim (build attempt project) [
    | err raised ↦ err (build_failed raised)
    | ok passport ↦ (round_of project.version passport >>= λ current. ok (passport, current))
  ]

  -- `_sanitize_round`, of the corpora that were loaded: the archived, cleaned project, and the types
  -- of the values replaced.
  unfoldable pub sanitize_loaded :
      RemediationSettings
      → AuditedPassport
      → List Text
      → Project
      → List Record
      → List Record
      → List Text × Project
  unfolding risky_spans translate sanitize
  sanitize_loaded s passport whole project raw train =
      let found = λ (id : Text).
        risky_spans (findings_of passport) raw s.min_severity [] id
        ++ risky_spans [] raw s.min_severity (s.always ++ whole) id in
      let (cleaned, (replaced, _)) =
        sanitize lib s.strategy (λ r. translate true found raw train r.id) train (fresh train) in
      (
        replaced,
        record project {
          train = some cleaned;
          history = (project.version, project.train) ∷ project.history;
        },
      )

  unfoldable pub sanitize_round :
      RemediationSettings
      → AuditedPassport
      → List Text
      → Project
      → Outcome RemediationError (List Text × Project)
  unfolding load_corpus sanitize_loaded
  sanitize_round s passport whole project = load_corpus project.raw >>= λ raw.
      (load_corpus project.train >>= λ train.
      ok (sanitize_loaded s passport whole project raw train))

  -- One turn after the gate failed, before `set_version`.
  unfoldable pub remedy :
      RemediationSettings
      → AuditedPassport
      → List Text
      → Round
      → Project
      → Outcome RemediationError (Round × Project)
  unfolding whole_types_of sanitize_round
  remedy s passport previous current project =
      let whole = whole_types_of s.type_auc_max previous current in
      sanitize_round s passport whole project >>= λ cleaned.
      ok (record current { whole_types = whole; sanitized = cleaned.0 }, cleaned.1)

  -- The loop of `remediate`, with `left` rounds after this one; what is raised stands beside the
  -- project as it was left.
  unfoldable pub rounds_from :
      RemediationSettings
      → ℕ
      → ℕ
      → List Text
      → Project
      → Outcome (RemediationError × Project) (List Round × Project)
  unfolding audited_round passes remedy set_version bump_minor
  rounds_from s zero attempt previous project = elim (audited_round attempt project) [
    | err e ↦ err (e, project)
    | ok found ↦ ok (found.1 ∷ [], project)
  ]
  rounds_from s (suc left) attempt previous project = elim (audited_round attempt project) [
    | err e ↦ err (e, project)
    | ok found ↦ elim (passes found.1) [
      | true ↦ ok (found.1 ∷ [], project)
      | false ↦ elim (remedy s found.0 previous found.1 project) [
        | err e ↦ err (e, project)
        | ok fixed ↦ elim (set_version (bump_minor found.1.version) fixed.1) [
          | err e ↦ err e
          | ok next ↦ elim (rounds_from s left (suc attempt) found.1.risky_types next) [
            | err e ↦ err e
            | ok rest ↦ ok (fixed.0 ∷ rest.0, rest.1)
          ]
        ]
      ]
    ]
  ]

  unfoldable pub remediate :
      RemediationSettings
      → Bool
      → Project
      → Outcome (RemediationError × Project) (List Round × Project)
  unfolding rounds_from
  remediate s has_corpora project =
      if has_corpora
      then rounds_from s s.max_rounds 0 [] project
      else err (corpus_not_found, project)
