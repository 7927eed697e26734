-- ===== src/Platform/Tests/Steps.antt =====
-- Runs of a worker's steps and of the routes that register and remove.
use model_passport.Prelude.{
  keep, any, first, str_eq, pos, String, ◌≡◌, refl, false, none, some, [], ◌∷◌,
}
use mathlib.Core.List.{Memᴰ}
use mathlib.Core.Option.{bind}
use model_passport.Prelude.Outcome.{ok}
use model_passport.Core.Schema.{Verdict-discrete, EntityAuditResult}
use model_passport.Policy.Evidence.{
  value, some_in, entity_audit_of, get, severity_word, entities_at, entity_auc, entity_tpr,
  rules_known, rule_named,
}
use model_passport.Policy.Engine.{
  verdict_index, worse, worst_from, worst, limit_at, known_key, thresholds, beyond, violates,
  judge_limits, judge, shown, evaluate_rule, evaluate_rules, evaluate,
}
use model_passport.Platform.Models.{
  null, org_admin, ml_engineer, registered, auditing, clean, text, Membership, Dataset, Model,
  ModelVersion, Job, Session,
}
use model_passport.Platform.Rbac.{allowed}
use model_passport.Platform.Auditlog.{system, record_event}
use model_passport.Platform.Lifecycle.{
  transitions, check_needed, check, store_version, apply_move, move,
}
use model_passport.Platform.Services.{version_taken, register_version, get_owned}
use model_passport.Platform.Services.Datasets.{Provenance, Stored, store_dataset}
use model_passport.Platform.Gate.{
  policy_template, entity_rule, default_policy, evidence_of, check_audit, blocking,
}
use model_passport.Platform.Api.{Ctx, require_permission}
use model_passport.Platform.Worker.{
  Machinery, worker_who, payload_version, version_for, count_of, verdict_text, audited, target_of,
  attest, complete_audit,
}
use model_passport.Platform.Worker.Outcomes.{Agrees, complete_audit-Agrees}
use model_passport.Platform.Routes.{
  model_of, dataset_of, training_of, train_first, register_version_route,
}
use model_passport.Platform.Routes.Owned.{register_version_route_owned}
use model_passport.Platform.Tests.Data.{
  toy, toy_corpora, blank, acme, chat, reference_set, tested, ready, ann_actor, auditor_on,
  queued_job,
}

abbrev clear_audit : EntityAuditResult
clear_audit = record {
  auc = some (pos 510000);
  tpr_at_fpr = [];
  severity_counts = [];
  findings = [];
}

abbrev machine : Machinery
machine = record {
  audit_corpus = λ _ _. ok clear_audit;
  attestation = λ _ _. ok "d";
  round4 = λ x. x;
}

abbrev in_audit : ModelVersion
in_audit = record tested { state = auditing; verdict = none }

abbrev auditing_now : Session
auditing_now = record ready { versions = in_audit ∷ [] }

abbrev audit_job : Job
audit_job = record (queued_job "j1" 4) { payload = ("version", text "v1") ∷ [] }

abbrev audited_row : ModelVersion
audited_row = record in_audit {
  audit = some clear_audit;
  auc = some (pos 510000);
  verdict = some "warn";
}

abbrev moved_clean : ModelVersion × Session
moved_clean = apply_move ⦃h = toy⦄ auditing_now audited_row clean worker_who "gate verdict warn"

abbrev cleared : ModelVersion × Session
cleared = (
  record moved_clean.0 { attestation_sha256 = some "d" },
  record_event ⦃h = toy⦄
      (store_version moved_clean.1 (record moved_clean.0 { attestation_sha256 = some "d" })) "t1"
      system "version.attested" "model_version" "v1" (("sha256", text "d") ∷ []),
)

audit_completes :
    complete_audit machine ⦃h = toy⦄ auditing_now audit_job clear_audit ≡ ok (cleared.0, cleared.1)
unfolding complete_audit version_for payload_version get get_owned first str_eq check_audit
    default_policy policy_template keep entity_rule evidence_of evaluate evaluate_rules
    evaluate_rule rule_named rules_known entities_at entity_auc entity_tpr entity_audit_of
    severity_word value judge thresholds judge_limits violates beyond limit_at known_key any some_in
    shown worst worst_from worse verdict_index audited count_of verdict_text target_of blocking
    Verdict-discrete move check check_needed transitions attest apply_move bind
audit_completes = refl

complete_audit-Agrees_example : Agrees cleared.0
complete_audit-Agrees_example =
    complete_audit-Agrees machine ⦃h = toy⦄ auditing_now audit_job clear_audit audit_completes

abbrev other_member : Membership
other_member = record { id = "b2"; tenant_id = "t1"; user_id = "u2"; role = ml_engineer }

abbrev as_admin : Ctx
as_admin = record (auditor_on []) {
  session = record ready {
    memberships = other_member ∷ [];
    models = chat ∷ [];
    datasets = reference_set ∷ [];
    versions = [];
  };
  role = some org_admin;
}

abbrev as_engineer : Ctx
as_engineer = record as_admin { role = some ml_engineer }

abbrev new_version : ModelVersion
new_version = record tested {
  state = registered;
  verdict = none;
  version = "2.0";
  created_by = some "u1";
}

abbrev after_version : Session
after_version =
    record_event ⦃h = toy⦄ (record as_admin.session { versions = new_version ∷ [] }) "t1" ann_actor
      "version.registered" "model_version" "v1"
      (("model", text "chat")
        ∷ ("version", text "2.0")
        ∷ ("dataset", null)
        ∷ ("reference", text "00")
        ∷ ("parent", null)
        ∷ [])

register_version_route_owned_example :
    ◌≡◌ {A = String} "t1" "t1"
    × (new_version.state ≡ registered)
    × ((model : Model) × Memᴰ model (chat ∷ []) × (model.tenant_id ≡ "t1") × ("m1" ≡ model.id))
    × ((reference : Dataset) × Memᴰ reference (reference_set ∷ [])
        × (reference.tenant_id ≡ "t1")
        × (some "d1" ≡ some reference.id))
unfolding register_version_route require_permission allowed str_eq model_of dataset_of training_of
    get_owned first register_version version_taken any train_first
register_version_route_owned_example =
    register_version_route_owned ⦃h = toy⦄ as_engineer "v1" "j9" "m1" "2.0" none "d1" false
      {row = new_version} {t = after_version} refl

abbrev known_origin : Provenance
known_origin = record { source = "survey"; license = "internal"; consent = "obtained" }

abbrev stored_set : Stored
stored_set =
    store_dataset toy_corpora ⦃h = toy⦄ blank "d2" acme "notes" "text" known_origin ann_actor 2
