-- ===== src/Platform/Api.antt =====
-- src/model_passport/platform/api/deps.py and the version routes of routes_tenant.py.
--
-- An HTTP error is its status code. A request runs in one transaction that is rolled back when the
-- handler raises, so a handler that raises has no new session. The control plane is another
-- program: a parameter, with what its calls answer.
pub mod Decisions
use model_passport.Prelude.{
  ltb, ◌==◌, if◌then◌else◌, str_eq, ℕ, ◌+◌, String, Bool, true, false, ◌||◌, not, Option, none,
  some, List, [], ◌∷◌, ◌++◌,
}
use model_passport.Prelude.Outcome.{Outcome, ok, err, ◌>>=◌, ◌>>◌, require}
use model_passport.Platform.Models.{
  Role, org_admin, State, auditing, remediating, canary, verifying, approved, released, rejected,
  killed, text, number, Tenant, User, ModelVersion, Approval, TestReport, Job, Session,
}
use model_passport.Platform.Rbac.{
  Permission, models_read, audits_run, remediation_run, approvals_decide, kill_switch, test_reports,
  allowed,
}
use model_passport.Platform.Auditlog.{Hashing, Actor, record_event}
use model_passport.Platform.Lifecycle.{Who, check, move}
use model_passport.Platform.Jobs.{enqueue}
use model_passport.Platform.Services.{get_owned}

-- The control plane: `deploy` answers for a version and an environment, `kill` for a version and
-- the database that it changes; an error is a code such as `NOT_FOUND`.
pub record ControlPlane : Type 0 where
  pub deploy : String → String → Outcome String (Unit {0})
  pub kill : Session → String → String → Outcome String Session

pub record Ctx : Type 0 where
  pub session : Session
  pub user : User
  pub tenant : Tenant
  pub role : Option Role
  pub controlplane : Option ControlPlane

abbrev pub actor_of : Ctx → Actor
actor_of c = record { id = some c.user.id; label = c.user.email }

abbrev pub who_of : Ctx → Who
who_of c = record {
  actor = actor_of c;
  role = c.role;
  super_admin = c.user.is_super_admin;
  is_system = false;
}

abbrev pub Response : Type 0 → Type 0
Response A = Outcome ℕ (A × Session)

-- `raise HTTPException(status, ...) from exc`
abbrev pub or_status : {E A : Type 0} → (E → ℕ) → Outcome E A → Outcome ℕ A
or_status status (ok a) = ok a
or_status status (err e) = err (status e)

-- `CONTROLPLANE_HTTP.get(exc.code, 502)`
unfoldable pub controlplane_http : String → ℕ
controlplane_http code =
    if str_eq code "PERMISSION_DENIED"
    then 403
    else if str_eq code "FAILED_PRECONDITION"
    then 409
    else if str_eq code "NOT_FOUND"
    then 404
    else if str_eq code "UNAUTHENTICATED"
    then 401
    else if str_eq code "INVALID_ARGUMENT"
    then 400
    else 502

-- `DEPLOYS.get(to)`
unfoldable pub deploys : State → Option String
deploys canary = some "dev"
deploys released = some "consumer"
deploys _ = none

-- `allowed(role, permission, user.is_super_admin)` of the dependency `require`.
unfoldable pub require_permission : Ctx → Permission → Outcome ℕ (Unit {0})
require_permission c needed = require (allowed c.role needed c.user.is_super_admin) 403

-- `_version`
unfoldable pub version_of : Ctx → String → Outcome ℕ ModelVersion
version_of c version_id =
    or_status (λ _. 404)
      (get_owned (λ v. v.id) (λ v. v.tenant_id) c.session.versions c.tenant.id version_id)

-- `_deploy_first`
deploy_to : Option ControlPlane → Option String → ModelVersion → Outcome ℕ (Unit {0})
deploy_to none environment version = ok tt
deploy_to (some plane) none version = ok tt
deploy_to (some plane) (some environment) version =
    or_status controlplane_http (plane.deploy version.id environment)

unfoldable pub deploy_first : Ctx → ModelVersion → State → Outcome ℕ (Unit {0})
unfolding deploy_to deploys
deploy_first c version to = deploy_to c.controlplane (deploys to) version

-- The sum of `leaks_found` over the test reports of a version.
unfoldable pub leaks_of : String → List TestReport → ℕ
leaks_of version_id [] = 0
leaks_of version_id (r ∷ rest) =
    (if str_eq r.version_id version_id then r.leaks_found else 0) + leaks_of version_id rest

-- `version.verdict == "fail"`
unfoldable pub verdict_is_fail : Option String → Bool
verdict_is_fail none = false
verdict_is_fail (some v) = str_eq v "fail"

-- `version.verdict == "fail" or version.critical or version.high`
unfoldable pub has_blocking : ModelVersion → Bool
unfolding verdict_is_fail
has_blocking version =
    verdict_is_fail version.verdict || ltb 0 version.critical || ltb 0 version.high

-- `_check_approvable`
unfoldable pub check_approvable : Ctx → ModelVersion → Outcome ℕ (Unit {0})
unfolding has_blocking
check_approvable c version = do
  require (not (has_blocking version)) 409
  require (leaks_of version.id c.session.test_reports == 0) 409

-- The decision of `DecisionIn`, one of two words.
pub data Decision : Type 0 where
  approve reject : Decision

unfoldable pub decision_value : Decision → String
decision_value approve = "approve"
decision_value reject = "reject"

-- The state that a decision leads to.
abbrev pub decided : Decision → State
decided approve = approved
decided reject = rejected

unfoldable pub check_decision : Ctx → ModelVersion → Decision → Outcome ℕ (Unit {0})
check_decision c version approve = check_approvable c version
check_decision c version reject = ok tt

-- `c.role or "org_admin"`
abbrev pub role_or_admin : Option Role → Role
role_or_admin none = org_admin
role_or_admin (some role) = role

-- `version.state in (State.CANARY, State.VERIFYING)`
unfoldable pub on_dev_endpoints : State → Bool
on_dev_endpoints canary = true
on_dev_endpoints verifying = true
on_dev_endpoints _ = false

module _ ⦃h : Hashing⦄ where
  -- `_move`
  unfoldable pub move_or_409 : Ctx → Session → ModelVersion → State → String → Response ModelVersion
  move_or_409 c s version to reason = or_status (λ _. 409) (move s version to (who_of c) reason)

  -- Queueing a job of a known kind cannot fail, so its error has no status of its own.
  unfoldable pub start_audit : Ctx → (job_id version_id : String) → Response Job
  start_audit c job_id version_id = do
    require_permission c audits_run
    version ← version_of c version_id
    moved ← move_or_409 c c.session version auditing "audit requested"
    or_status (λ _. 500)
        (enqueue moved.1 job_id c.tenant.id "audit" (("version", text version.id) ∷ []) (actor_of c)
          3)

  unfoldable pub start_remediation : Ctx → (job_id version_id : String) → Response Job
  start_remediation c job_id version_id = do
    require_permission c remediation_run
    version ← version_of c version_id
    moved ← move_or_409 c c.session version remediating "remediation requested"
    or_status (λ _. 500)
        (enqueue moved.1 job_id c.tenant.id "remediate" (("version", text version.id) ∷ [])
          (actor_of c) 3)

  unfoldable pub transition : Ctx → String → State → String → Response ModelVersion
  unfolding deploy_first
  transition c version_id to reason = do
    require_permission c models_read
    version ← version_of c version_id
    or_status (λ _. 409) (check version to (who_of c))
    deploy_first c version to
    move_or_409 c c.session version to reason

  unfoldable pub decide :
      Ctx → (approval_id version_id : String) → Decision → String → Response ModelVersion
  unfolding check_decision
  decide c approval_id version_id decision comment = do
    require_permission c approvals_decide
    version ← version_of c version_id
    check_decision c version decision
    let approval : Approval = record {
      id = approval_id;
      tenant_id = c.tenant.id;
      version_id = version.id;
      user_id = c.user.id;
      role = role_or_admin c.role;
      decision = decision_value decision;
      comment = comment;
    }
    move_or_409 c (record c.session { approvals = c.session.approvals ++ approval ∷ [] }) version
        (decided decision) comment

  kill_through : Ctx → Option ControlPlane → ModelVersion → String → Response ModelVersion
  kill_through c none version reason = move_or_409 c c.session version killed reason
  kill_through c (some plane) version reason = do
    s ← or_status controlplane_http (plane.kill c.session version.id reason)
    refreshed ← version_of (record c { session = s }) version.id
    ok (refreshed, s)

  unfoldable pub kill : Ctx → (version_id reason : String) → Response ModelVersion
  unfolding kill_through
  kill c version_id reason = do
    require_permission c kill_switch
    version ← version_of c version_id
    kill_through c c.controlplane version reason

  unfoldable pub submit_test_report :
      Ctx → (report_id version_id : String) → (prompts leaks : ℕ) → String → Response TestReport
  submit_test_report c report_id version_id prompts leaks summary = do
    require_permission c test_reports
    version ← version_of c version_id
    require (on_dev_endpoints version.state) 409
    let report : TestReport = record {
      id = report_id;
      tenant_id = c.tenant.id;
      version_id = version.id;
      user_id = c.user.id;
      prompt_count = prompts;
      leaks_found = leaks;
      summary = summary;
    }
    ok (
      report,
      record_event (record c.session { test_reports = c.session.test_reports ++ report ∷ [] })
          c.tenant.id (actor_of c) "testreport.submitted" "model_version" version.id
          (("prompts", number prompts) ∷ ("leaks", number leaks) ∷ []),
    )
