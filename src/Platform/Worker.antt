-- ===== src/Platform/Worker.antt =====
-- src/model_passport/platform/worker.py: the audit step, the recovery after the last attempt, and
-- the loop of a worker.
--
-- Reading files and attacking the model is the parameter `Machinery`, as is the text of an
-- attestation. A step reads in one transaction and writes in another; here no other transaction
-- runs between the two. What a step raises is its message.
pub mod Outcomes
use model_passport.Prelude.{
  ltb, if◌then◌else◌, is_some, first, concat, str_eq, ℤ, ℕ, ◌+◌, String, Bool, true, false, ◌||◌,
  not, Option, none, some, [], ◌∷◌,
}
use model_passport.Prelude.Outcome.{Outcome, ok, err, ◌>>=◌, require}
use model_passport.Core.Schema.{Verdict, pass, warn, fail, high, critical, EntityAuditResult}
use model_passport.Policy.Evidence.{get}
use model_passport.Policy.Engine.{PolicyError, PolicyResult}
use model_passport.Platform.Models.{
  State, registered, findings, clean, text, Dataset, ModelVersion, Job, Session, Model,
}
use model_passport.Platform.Auditlog.{Hashing, system, digest, record_event}
use model_passport.Platform.Lifecycle.{transitions, Who, TransitionError, store_version, move}
use model_passport.Platform.Services.{get_owned}
use model_passport.Platform.Gate.{check_audit, blocking}

-- `audit_corpus` decrypts the reference data and the model and runs the audit; `attestation` is
-- the digest of the signed document; `round4` is `round(x, 4)`.
pub record Machinery : Type 0 where
  pub audit_corpus : ModelVersion → Dataset → Outcome String EntityAuditResult
  pub attestation : Session → ModelVersion → Outcome String String
  pub round4 : ℤ → ℤ

abbrev pub worker_who : Who
worker_who = record { actor = system; role = none; super_admin = false; is_system = true }

-- What a step raises, as the message of the job.
abbrev pub or_message : {E A : Type 0} → String → Outcome E A → Outcome String A
or_message message (ok a) = ok a
or_message message (err e) = err message

-- `job.payload["version"]`
unfoldable pub payload_version : Job → Outcome String String
unfolding get
payload_version job = elim (get "version" job.payload) [
  | some (text id) ↦ ok id
  | _ ↦ err "KeyError: version"
]

unfoldable pub version_for : Session → Job → Outcome String ModelVersion
unfolding payload_version
version_for s job = payload_version job >>= λ id.
    or_message "NotFoundError"
      (get_owned (λ v. v.id) (λ v. v.tenant_id) s.versions job.tenant_id id)

unfoldable pub dataset_with : Session → String → Option Dataset
unfolding first
dataset_with s id = first (λ d. str_eq d.id id) s.datasets

unfoldable pub reference_of : Session → ModelVersion → Outcome String Dataset
unfolding dataset_with
reference_of s version = elim version.reference_dataset_id [
  | none ↦ err "JobFailedError: no reference dataset"
  | some id ↦ elim (dataset_with s id) [
    | none ↦ err "JobFailedError: no reference dataset"
    | some d ↦ ok d
  ]
]

unfoldable pub model_with : Session → String → Option Model
unfolding first
model_with s id = first (λ x. str_eq x.id id) s.models

-- `if version.artifact_key`
unfoldable pub has_artifact : ModelVersion → Bool
has_artifact version = elim version.artifact_key [ none ↦ false | some key ↦ not (str_eq key "") ]

-- When `_model_spec` raises: a demo model has to be trained before it can be audited.
unfoldable pub check_model_spec : Session → ModelVersion → Outcome String (Unit {0})
unfolding model_with has_artifact
check_model_spec s version = elim (model_with s version.model_id) [
  | none ↦ err "AttributeError: the version has no model"
  | some model ↦
      require (has_artifact version || not (str_eq model.base "tiny"))
        "JobFailedError: train the demo model first"
]

unfoldable pub count_of : String → EntityAuditResult → ℕ
unfolding get
count_of severity audit = elim (get severity audit.severity_counts) [ none ↦ 0 | some n ↦ n ]

unfoldable pub verdict_text : Verdict → String
verdict_text pass = "pass"
verdict_text warn = "warn"
verdict_text fail = "fail"

-- The row with the outcome of an audit.
unfoldable pub audited : ModelVersion → EntityAuditResult → Verdict → ModelVersion
unfolding count_of verdict_text
audited version result verdict = record version {
  audit = some result;
  auc = result.auc;
  critical = count_of "critical" result;
  high = count_of "high" result;
  verdict = some (verdict_text verdict);
}

unfoldable pub target_of : ModelVersion → PolicyResult → State
unfolding blocking
target_of version verdict =
    if blocking verdict || ltb 0 (version.critical + version.high) then findings else clean

module _ (m : Machinery) ⦃h : Hashing⦄ where
  -- `attest.attest`: the digest is written to the row and to the log.
  unfoldable pub attest : Session → ModelVersion → Outcome String (ModelVersion × Session)
  unfolding store_version
  attest s version = m.attestation s version >>= λ digest. ok (
    record version { attestation_sha256 = some digest },
    record_event (store_version s (record version { attestation_sha256 = some digest }))
        version.tenant_id system "version.attested" "model_version" version.id
        (("sha256", text digest) ∷ []),
  )

  -- The second transaction of `_audit`.
  unfoldable pub complete_audit :
      Session → Job → EntityAuditResult → Outcome String (ModelVersion × Session)
  unfolding version_for audited target_of attest
  complete_audit s job result = version_for s job >>= λ version.
      (or_message "PolicyError" (check_audit m.round4 result) >>= λ verdict.
      (let row = audited version result verdict.verdict in
        or_message "TransitionError" (
          move s row (target_of row verdict) worker_who
            (concat "gate verdict " (verdict_text verdict.verdict)))
        >>= λ moved. attest moved.1 moved.0))

  -- `_audit`
  unfoldable pub audit_step : Session → Job → Outcome String (ModelVersion × Session)
  unfolding reference_of check_model_spec complete_audit
  audit_step s job = version_for s job >>= λ version.
      (reference_of s version >>= λ reference.
      (m.audit_corpus version reference >>= λ result. complete_audit s job result))

-- `RECOVERY.get(job.kind)`
unfoldable pub recovery : String → Option State
recovery kind =
    if str_eq kind "audit"
    then some registered
    else if str_eq kind "remediate"
    then some findings
    else none

module _ ⦃h : Hashing⦄ where
  unfoldable pub move_back : Session → Job → ModelVersion → State → Outcome TransitionError Session
  move_back s job version target =
      if is_some (transitions version.state target)
      then (move s version target worker_who (concat job.kind " job failed") >>= λ moved.
          ok moved.1)
      else ok s

  -- `_recover`
  unfoldable pub recover : Session → Job → Outcome TransitionError Session
  unfolding recovery payload_version move_back first
  recover s job = elim (recovery job.kind) [
    | none ↦ ok s
    | some target ↦ elim (payload_version job) [
      | err e ↦ ok s
      | ok id ↦ elim (first (λ v. str_eq v.id id) s.versions) [
        | none ↦ ok s
        | some version ↦ move_back s job version target
      ]
    ]
  ]
