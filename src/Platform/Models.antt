-- ===== src/Platform/Models.antt =====
-- src/model_passport/platform/models.py: the rows of the database, and the database itself.
--
-- A table is the list of its rows in the order of insertion. Columns that no operation reads are
-- left out (display names of users, descriptions, byte sizes). A JSON column holds the values
-- that the operations write to it. `clock` is the value of `now()` in the current transaction.
use model_passport.Prelude.{ℤ, ℕ, String, Bool, Option, List}
use model_passport.Core.Schema.{EntityAuditResult}

pub data Role : Type 0 where
  org_admin ml_engineer compliance_auditor canary_tester end_consumer external_reviewer : Role

pub data Plan : Type 0 where
  free team enterprise : Plan

pub data TenantStatus : Type 0 where
  active suspended : TenantStatus

pub data Access : Type 0 where
  open_weight api : Access

pub data State : Type 0 where
  registered auditing findings clean remediating superseded canary verifying approved released
        rolled_back rejected killed :
      State

pub data JobStatus : Type 0 where
  queued running succeeded failed cancelled : JobStatus

unfoldable pub Role-discrete : Discrete Role
Role-discrete = hlevel

unfoldable pub State-discrete : Discrete State
State-discrete = hlevel

unfoldable pub Plan-discrete : Discrete Plan
Plan-discrete = hlevel

unfoldable pub TenantStatus-discrete : Discrete TenantStatus
TenantStatus-discrete = hlevel

unfoldable pub JobStatus-discrete : Discrete JobStatus
JobStatus-discrete = hlevel

-- A value of the `details` of an audit event, or of the payload of a job.
pub data Detail : Type 0 where
  null : Detail
  text : String → Detail
  number : ℕ → Detail
  flag : Bool → Detail

abbrev pub Details : Type 0
Details = List (String × Detail)

pub record Tenant : Type 0 where
  pub id : String
  pub slug : String
  pub name : String
  pub plan : Plan
  pub status : TenantStatus
  pub wrapped_key : String

pub record User : Type 0 where
  pub id : String
  pub email : String
  pub name : String
  pub password_hash : String
  pub is_super_admin : Bool
  pub disabled : Bool

pub record Membership : Type 0 where
  pub id : String
  pub tenant_id : String
  pub user_id : String
  pub role : Role

pub record Dataset : Type 0 where
  pub id : String
  pub tenant_id : String
  pub name : String
  pub source : String
  pub license : String
  pub consent : String
  pub sha256 : String
  pub object_key : String
  pub created_by : Option String

pub record Model : Type 0 where
  pub id : String
  pub tenant_id : String
  pub name : String
  pub description : String
  pub access : Access
  pub base : String
  pub created_by : Option String

pub record ModelVersion : Type 0 where
  pub id : String
  pub tenant_id : String
  pub model_id : String
  pub version : String
  pub state : State
  pub parent_id : Option String
  pub dataset_id : Option String
  pub reference_dataset_id : Option String
  pub artifact_key : Option String
  pub artifact_sha256 : Option String
  pub audit : Option EntityAuditResult
  pub verdict : Option String
  pub auc : Option ℤ
  pub critical : ℕ
  pub high : ℕ
  pub attestation_sha256 : Option String
  pub created_by : Option String

pub record Approval : Type 0 where
  pub id : String
  pub tenant_id : String
  pub version_id : String
  pub user_id : String
  pub role : Role
  pub decision : String
  pub comment : String

pub record TestReport : Type 0 where
  pub id : String
  pub tenant_id : String
  pub version_id : String
  pub user_id : String
  pub prompt_count : ℕ
  pub leaks_found : ℕ
  pub summary : String

pub record Job : Type 0 where
  pub id : String
  pub tenant_id : String
  pub kind : String
  pub status : JobStatus
  pub payload : Details
  pub result : Option Details
  pub error : Option String
  pub attempts : ℕ
  pub max_attempts : ℕ
  pub locked_by : Option String
  pub created_by : Option String
  pub created_at : ℕ
  pub started_at : Option ℕ
  pub finished_at : Option ℕ

pub record AuditEvent : Type 0 where
  pub tenant_id : String
  pub seq : ℕ
  pub actor_id : Option String
  pub actor : String
  pub action : String
  pub target_type : String
  pub target_id : String
  pub details : Details
  pub prev_hash : String
  pub hash : String
  pub created_at : ℕ

pub record GuardKey : Type 0 where
  pub id : String
  pub tenant_id : String
  pub name : String
  pub hint : String
  pub secret_sha256 : String
  pub created_by : Option String
  pub created_at : ℕ
  pub revoked_at : Option ℕ

-- The database as one transaction sees it.
pub record Session : Type 0 where
  pub clock : ℕ
  pub tenants : List Tenant
  pub users : List User
  pub memberships : List Membership
  pub datasets : List Dataset
  pub models : List Model
  pub versions : List ModelVersion
  pub approvals : List Approval
  pub test_reports : List TestReport
  pub jobs : List Job
  pub guard_keys : List GuardKey
  pub events : List AuditEvent
