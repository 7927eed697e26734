-- ===== src/Platform/Api/Decisions.antt =====
-- When the routes approve a version.
use model_passport.Prelude.{
  ◌==◌, ==_iff, Option-cases, ℕ, String, ◌≡◌, refl, ap, inl, inr, Bool, true, false, not, Option,
  none, some, arith,
}
use model_passport.Platform.Lifecycle.Paths.{into_approved}
use mathlib.Core.List.{Memᴰ}
use model_passport.Prelude.Outcome.{Outcome, ok, err, require, >>=-eq-ok, require-ok, require-holds}
use model_passport.Platform.Models.{
  verifying, approved, ModelVersion, Session, Role, org_admin, State,
}
use model_passport.Platform.Rbac.{approvals_decide, allowed, models_read}
use model_passport.Platform.Auditlog.{Hashing}
use model_passport.Platform.Api.{
  Ctx, or_status, leaks_of, verdict_is_fail, has_blocking, check_approvable, approve, decide,
  check_decision, who_of, require_permission, version_of, move_or_409, deploy_first, transition,
  deploy_to,
}
use model_passport.Platform.Lifecycle.{apply_move, transitions}
use model_passport.Platform.Lifecycle.Moves.{move_iff, is_some-May, May, check_iff}
use model_passport.Platform.Services.Isolation.{get_owned_sound}

-- The version has no blocking finding, and testers reported no leak of it.
abbrev pub IsApprovable : Session → ModelVersion → Type 0
IsApprovable s version =
    (verdict_is_fail version.verdict ≡ false)
    × (version.critical ≡ 0)
    × (version.high ≡ 0)
    × (leaks_of version.id s.test_reports ≡ 0)

or_status-ok :
    {E A : Type 0} (f : E → ℕ) (m : Outcome E A) {a : A} → or_status f m ≡ ok a → m ≡ ok a
or_status-ok f (ok b) e = cc
or_status-ok f (err x) e = absurd (cc)

no_blocking :
    (version : ModelVersion) (leaks : ℕ)
    → not (has_blocking version) ≡ true
    → leaks ≡ 0
    → (verdict_is_fail version.verdict ≡ false)
      × (version.critical ≡ 0)
      × (version.high ≡ 0)
      × (leaks ≡ 0)
unfolding has_blocking
no_blocking version leaks clear none_found = ground arith

check_approvable-IsApprovable :
    (c : Ctx) (version : ModelVersion)
    → check_approvable c version ≡ ok tt
    → IsApprovable c.session version
unfolding check_approvable has_blocking
check_approvable-IsApprovable c version e =
    let (clear, e1) =
      require-ok (not (has_blocking version)) 409
        (require (leaks_of version.id c.session.test_reports == 0) 409) e in
    no_blocking version _ clear ((==_iff _ _).0 (require-holds _ 409 e1))

module _ ⦃h : Hashing⦄ where
  -- An approval that the route `decide` accepts is of a version that the tenant owns and that was
  -- in the state `verifying`; the caller has the permission to decide approvals; the verdict of the
  -- latest audit is not `fail`, it left no critical and no high finding, and no leak was reported.
  pub decide_approves :
      (c : Ctx) (approval_id version_id comment : String) {result : ModelVersion} {t : Session}
      → decide c approval_id version_id approve comment ≡ ok (result, t)
      → (version : ModelVersion) × Memᴰ version c.session.versions
        × (version.tenant_id ≡ c.tenant.id)
        × (version.state ≡ verifying)
        × (allowed c.role approvals_decide c.user.is_super_admin ≡ true)
        × IsApprovable c.session version
        × (result ≡ record version { state = approved })
  unfolding decide require_permission check_decision move_or_409 version_of
  decide_approves c approval_id version_id comment e =
      let (may, e1) = require-ok (allowed c.role approvals_decide c.user.is_super_admin) 403 _ e in
      let (version, found, e2) = >>=-eq-ok (version_of c version_id) _ e1 in
      let (u, clear, e3) = >>=-eq-ok (check_approvable c version) _ e2 in
      let (row, owned_id, owned) =
        get_owned_sound (λ v. v.id) (λ v. v.tenant_id) c.session.versions c.tenant.id version_id
          (or_status-ok (λ _. 404) _ found) in
      let (may_move, same) =
        (move_iff _ version approved (who_of c) comment _).0 (or_status-ok (λ _. 409) _ e3) in
      (
        version,
        row,
        owned,
        into_approved version.state (is_some-May (who_of c) _ may_move),
        may,
        check_approvable-IsApprovable c version clear,
        unfold apply_move in ap (λ (r : ModelVersion × Session). r.0) same,
      )

May-approve :
    (c : Ctx) (from : State)
    → from ≡ verifying
    → allowed c.role approvals_decide c.user.is_super_admin ≡ true
    → May (who_of c) (transitions from approved)
unfolding transitions allowed
May-approve c from e may = rw e (ground arith)

approver_reads :
    (role : Option Role) (super_admin : Bool)
    → allowed role approvals_decide super_admin ≡ true
    → allowed role models_read super_admin ≡ true
unfolding allowed
approver_reads none super_admin e = ground arith
approver_reads (some org_admin) super_admin e = ground arith
approver_reads (some _) super_admin e = ground arith

no_deployment : (c : Ctx) (version : ModelVersion) → deploy_first c version approved ≡ ok tt
unfolding deploy_first
no_deployment c version = elim (Option-cases c.controlplane) [
  | inl e ↦ rw (e, deploy_to)
  | inr (plane, e) ↦ rw (e, deploy_to)
]

module _ ⦃h : Hashing⦄ where
  -- The route `transition` makes no check of its own: whatever the findings, the verdict and the
  -- reported leaks of a version in the state `verifying`, a caller who may decide approvals
  -- approves it there.
  pub transition_approves :
      (c : Ctx) (version_id reason : String) (version : ModelVersion)
      → version_of c version_id ≡ ok version
      → version.state ≡ verifying
      → allowed c.role approvals_decide c.user.is_super_admin ≡ true
      → transition c version_id approved reason
        ≡ ok (apply_move c.session version approved (who_of c) reason)
  unfolding transition require_permission move_or_409
  transition_approves c version_id reason version found state may =
      let granted = May-approve c version.state state may in
      rw (
        approver_reads c.role c.user.is_super_admin may,
        found,
        (check_iff version approved (who_of c)).1 granted,
        no_deployment c version,
        (move_iff c.session version approved (who_of c) reason _).1 (granted, refl),
      )
