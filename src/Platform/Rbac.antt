-- ===== src/Platform/Rbac.antt =====
-- src/model_passport/platform/rbac.py: which role grants which permission.
pub mod Laws
use model_passport.Prelude.{is_yes, any, Bool, false, ◌||◌, Option, none, some, List, [], ◌∷◌, ◌++◌}
use model_passport.Platform.Models.{
  Role, org_admin, ml_engineer, compliance_auditor, canary_tester, end_consumer, external_reviewer,
}

pub data Permission : Type 0 where
  tenants_manage members_manage models_read models_write audits_run remediation_run findings_read
        approvals_decide releases_manage kill_switch dev_endpoints test_reports consumer_use
        audit_log_read analytics_read provenance_read reports_read jobs_read guard_manage
        guard_read :
      Permission

unfoldable pub Permission-discrete : Discrete Permission
Permission-discrete = hlevel

read_permissions : List Permission
read_permissions = models_read ∷ findings_read ∷ analytics_read ∷ provenance_read ∷ jobs_read ∷ []

unfoldable pub role_permissions : Role → List Permission
unfolding read_permissions
role_permissions org_admin =
    read_permissions
    ++ (members_manage ∷ approvals_decide ∷ releases_manage ∷ kill_switch ∷ audit_log_read
        ∷ reports_read ∷ guard_manage ∷ guard_read ∷ [])
role_permissions ml_engineer =
    read_permissions
    ++ (models_write ∷ audits_run ∷ remediation_run ∷ dev_endpoints ∷ guard_manage ∷ guard_read
        ∷ [])
role_permissions compliance_auditor =
    read_permissions
    ++ (approvals_decide ∷ kill_switch ∷ audit_log_read ∷ reports_read ∷ guard_read ∷ [])
role_permissions canary_tester = models_read ∷ dev_endpoints ∷ test_reports ∷ []
role_permissions end_consumer = consumer_use ∷ []
role_permissions external_reviewer = reports_read ∷ provenance_read ∷ []

-- `permission in ROLE_PERMISSIONS[role]`
unfoldable pub grants : Role → Permission → Bool
unfolding role_permissions any Permission-discrete
grants role permission =
    any (λ p. is_yes (Permission-discrete permission p)) (role_permissions role)

-- `role is not None and ...`
unfoldable pub role_grants : Option Role → Permission → Bool
unfolding grants
role_grants none permission = false
role_grants (some role) permission = grants role permission

unfoldable pub allowed : Option Role → Permission → Bool → Bool
unfolding role_grants
allowed role permission super_admin = super_admin || role_grants role permission
