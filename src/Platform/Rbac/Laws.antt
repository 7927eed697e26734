-- ===== src/Platform/Rbac/Laws.antt =====
-- What the table of permissions of rbac.py rules out.
use model_passport.Prelude.{◌≡◌, refl, Bool, false, ◌&&◌, Option, none, some, arith}
use model_passport.Platform.Models.{Role, org_admin}
use model_passport.Platform.Rbac.{tenants_manage, approvals_decide, audits_run, grants, allowed}

-- Only a super admin manages tenants, whatever the role.
pub allowed-tenants_manage :
    (role : Option Role) (super_admin : Bool)
    → allowed role tenants_manage super_admin ≡ super_admin
unfolding allowed
allowed-tenants_manage none super_admin = ground arith
allowed-tenants_manage (some org_admin) super_admin = ground arith
allowed-tenants_manage (some _) super_admin = ground arith

-- No role may both start audits and decide approvals.
pub audits_run-approvals_decide :
    (role : Role) → (grants role audits_run && grants role approvals_decide) ≡ false
unfolding grants
audits_run-approvals_decide org_admin = refl
audits_run-approvals_decide _ = refl
