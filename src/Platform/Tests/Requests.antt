-- ===== src/Platform/Tests/Requests.antt =====
-- Runs of the requests.
use model_passport.Prelude.{
  first, str_eq, pos, ◌≡◌, refl, ◌↔◌, true, false, none, some, List, [], ◌∷◌,
}
use mathlib.Core.List.{Memᴰ}
use model_passport.Prelude.Outcome.{ok}
use model_passport.Platform.Models.{
  org_admin, ml_engineer, compliance_auditor, State, registered, auditing, clean, canary, verifying,
  approved, released, ModelVersion, Approval, Session, free, null, text, Tenant, User, Model,
}
use model_passport.Platform.Rbac.{approvals_decide, allowed}
use model_passport.Platform.Lifecycle.{transitions, check, apply_move, move, check_needed}
use model_passport.Platform.Lifecycle.Paths.{
  IsHistory, RoleStep, released_history, release_needs_two_roles,
}
use model_passport.Platform.Services.{get_owned, add_member}
use model_passport.Platform.Api.{
  who_of, require_permission, version_of, leaks_of, verdict_is_fail, has_blocking, check_approvable,
  approve, decision_value, move_or_409, transition, decide, check_decision,
}
use model_passport.Platform.Api.Decisions.{IsApprovable, decide_approves, transition_approves}
use model_passport.Core.Schema.{EntityAuditResult}
use model_passport.Policy.Engine.{PolicyResult}
use model_passport.Platform.Gate.{check_audit, blocking}
use model_passport.Platform.Gate.Limits.{Blocks, gate-Blocks}
use model_passport.Platform.Runs.{member_added, Reached-verifies, next, start}
use model_passport.Platform.Tests.Data.{
  toy, toy_corpora, tested, ready, risky, auditor_on, plain_lib, blank, acme, ann, chat, ann_actor,
}
use model_passport.Platform.Auditlog.{platform, chain, record_event, verify_chain}
use model_passport.Platform.Services.Slug.{}

abbrev approval_row : Approval
approval_row = record {
  id = "a1";
  tenant_id = "t1";
  version_id = "v1";
  user_id = "u1";
  role = compliance_auditor;
  decision = "approve";
  comment = "fine";
}

abbrev approved_result : ModelVersion × Session
approved_result =
    apply_move ⦃h = toy⦄ (record ready { approvals = approval_row ∷ [] }) tested approved
      (who_of (auditor_on (tested ∷ []))) "fine"

approving :
    decide ⦃h = toy⦄ (auditor_on (tested ∷ [])) "a1" "v1" approve "fine"
    ≡ ok (approved_result.0, approved_result.1)
unfolding decide require_permission allowed version_of get_owned first str_eq check_decision
    check_approvable has_blocking verdict_is_fail leaks_of decision_value move_or_409 move check
    check_needed transitions
approving = refl

decide_approves_example :
    (version : ModelVersion) × Memᴰ version (tested ∷ [])
    × (version.tenant_id ≡ "t1")
    × (version.state ≡ verifying)
    × (allowed (some compliance_auditor) approvals_decide false ≡ true)
    × IsApprovable (auditor_on (tested ∷ [])).session version
    × (approved_result.0 ≡ record version { state = approved })
decide_approves_example =
    decide_approves ⦃h = toy⦄ (auditor_on (tested ∷ [])) "a1" "v1" "fine" approving

transition_approves_example :
    transition ⦃h = toy⦄ (auditor_on (risky ∷ [])) "v1" approved "go"
    ≡ ok (
        apply_move ⦃h = toy⦄
          (record ready { versions = risky ∷ [] })
          risky
          approved
          (who_of (auditor_on (risky ∷ [])))
          "go")
unfolding version_of get_owned first str_eq allowed
transition_approves_example =
    transition_approves ⦃h = toy⦄ (auditor_on (risky ∷ [])) "v1" "go" risky refl refl refl

release_needs_two_roles_example :
    ¬ IsHistory
      (RoleStep org_admin)
      (released ∷ approved ∷ verifying ∷ canary ∷ clean ∷ auditing ∷ registered ∷ [])
release_needs_two_roles_example =
    release_needs_two_roles org_admin
      (approved ∷ verifying ∷ canary ∷ clean ∷ auditing ∷ registered ∷ [])

released_history_example :
    (older : List State) × ◌≡◌ {A = List State}
      (approved ∷ verifying ∷ canary ∷ clean ∷ auditing ∷ registered ∷ [])
      (approved ∷ verifying ∷ canary ∷ clean ∷ auditing ∷ older)
unfolding transitions
released_history_example =
    released_history (approved ∷ verifying ∷ canary ∷ clean ∷ auditing ∷ registered ∷ [])
      (refl, (refl, (refl, (refl, (refl, (refl, refl))))))

-- The database once a person was made a member.
abbrev with_member : Session
with_member = (add_member ⦃h = toy⦄ blank "b1" acme ann ml_engineer ann_actor).1

Reached-verifies_example : verify_chain ⦃h = toy⦄ (chain with_member "t1") ≡ []
Reached-verifies_example =
    Reached-verifies plain_lib toy_corpora ⦃h = toy⦄ with_member
      (next blank with_member (start blank refl)
        (member_added blank "b1" acme ann ml_engineer ann_actor))
      "t1"

abbrev tenant_made : Tenant
tenant_made = record acme { plan = free; wrapped_key = "mkt1" }

abbrev with_tenant : Session
with_tenant =
    record_event ⦃h = toy⦄ (record blank { tenants = tenant_made ∷ [] }) platform ann_actor
      "tenant.created" "tenant" "t1" (("slug", text "acme") ∷ ("plan", text "free") ∷ [])

abbrev bob : User
bob = record {
  id = "u2";
  email = "bob@acme.test";
  name = "Bob";
  password_hash = "hashed correct-horse";
  is_super_admin = false;
  disabled = false;
}

abbrev chat_made : Model
chat_made = record chat { created_by = some "u1" }

abbrev with_model : Session
with_model =
    record_event ⦃h = toy⦄ (record blank { models = chat_made ∷ [] }) "t1" ann_actor
      "model.registered" "model" "m1"
      (("name", text "chat") ∷ ("access", text "open-weight") ∷ ("base", text "tiny") ∷ [])

abbrev version_made : ModelVersion
version_made = record tested { state = registered; verdict = none; created_by = some "u1" }

abbrev with_version : Session
with_version =
    record_event ⦃h = toy⦄ (record blank { versions = version_made ∷ [] }) "t1" ann_actor
      "version.registered" "model_version" "v1"
      (("model", text "chat")
        ∷ ("version", text "1.0")
        ∷ ("dataset", null)
        ∷ ("reference", text "00")
        ∷ ("parent", null)
        ∷ [])

abbrev one_high : EntityAuditResult
one_high = record {
  auc = some (pos 520000);
  tpr_at_fpr = ("0.01", pos 10000) ∷ [];
  severity_counts = ("high", 1) ∷ [];
  findings = [];
}

gate-Blocks_example :
    (r : PolicyResult) × (check_audit (λ x. x) one_high ≡ ok r)
    × ((blocking r ≡ true) ↔ Blocks one_high)
gate-Blocks_example = gate-Blocks (λ x. x) one_high
