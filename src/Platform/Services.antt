-- ===== src/Platform/Services.antt =====
-- src/model_passport/platform/services.py: organizations, people, models and versions.
--
-- Each function takes the identifiers that `new_id` would draw. Password hashing, key wrapping and
-- the text methods of Python are the parameter `Externals`.
pub mod Slug
pub mod Datasets
pub mod Isolation
pub mod Unique
pub mod Logged
use model_passport.Prelude.{
  leb, ◌==◌, if◌then◌else◌, is_yes, length, keep, any, first, update, str_eq, ℕ, String, Bool, true,
  false, ◌&&◌, not, Option, none, some, List, [], ◌∷◌, ◌++◌, map,
}
use Slug.{valid_slug, reserved_slugs, characters}
use mathlib.Core.Option
use model_passport.Prelude.Outcome.{Outcome, ok, err, ◌>>=◌, ◌>>◌, require}
use model_passport.Platform.Models.{
  Role, org_admin, ml_engineer, compliance_auditor, canary_tester, end_consumer, external_reviewer,
  Plan, free, team, enterprise, TenantStatus, active, suspended, Access, open_weight, api,
  registered, Plan-discrete, TenantStatus-discrete, Detail, null, text, Details, Tenant, User,
  Membership, Dataset, Model, ModelVersion, Session,
}
use model_passport.Platform.Auditlog.{Hashing, Actor, platform, record_event}

pub record Externals : Type 0 where
  pub hash_password : String → String
  pub new_data_key : String → String
  pub wrap_key : String → String → String → String
  pub strip_lower : String → String

-- The messages of `ServiceError` and `NotFoundError`.
pub data ServiceError : Type 0 where
  bad_slug : ServiceError
  tenant_exists : String → ServiceError
  bad_email : ServiceError
  short_password : ServiceError
  account_exists : String → ServiceError
  bad_consent : ServiceError
  dataset_exists : String → ServiceError
  bad_corpus : ServiceError
  model_exists : String → ServiceError
  version_exists : String → ServiceError
  not_found : String → ServiceError

abbrev pub min_password : ℕ
min_password = 12

unfoldable pub plan_value : Plan → String
plan_value free = "free"
plan_value team = "team"
plan_value enterprise = "enterprise"

unfoldable pub status_value : TenantStatus → String
status_value active = "active"
status_value suspended = "suspended"

unfoldable pub access_value : Access → String
access_value open_weight = "open-weight"
access_value api = "api"

unfoldable pub role_value : Role → String
role_value org_admin = "org_admin"
role_value ml_engineer = "ml_engineer"
role_value compliance_auditor = "compliance_auditor"
role_value canary_tester = "canary_tester"
role_value end_consumer = "end_consumer"
role_value external_reviewer = "external_reviewer"

abbrev pub optional_text : Option String → Detail
optional_text none = null
optional_text (some s) = text s

-- `x in xs` on texts.
unfoldable pub contains : String → List String → Bool
unfolding any
contains x xs = any (λ y. str_eq x y) xs

unfoldable pub slug_taken : Session → String → Bool
unfolding any
slug_taken s slug = any (λ t. str_eq t.slug slug) s.tenants

unfoldable pub email_taken : Session → String → Bool
unfolding any
email_taken s email = any (λ u. str_eq u.email email) s.users

-- The `select(Membership).where(...)` of a tenant and a user.
abbrev pub is_member : String → String → Membership → Bool
is_member tenant_id user_id m = str_eq m.tenant_id tenant_id && str_eq m.user_id user_id

unfoldable pub model_taken : Session → String → String → Bool
unfolding any
model_taken s tenant_id name =
    any (λ m. str_eq m.tenant_id tenant_id && str_eq m.name name) s.models

-- `any(v.version == version for v in model.versions)`
unfoldable pub version_taken : Session → String → String → Bool
unfolding any
version_taken s model_id version =
    any (λ v. str_eq v.model_id model_id && str_eq v.version version) s.versions

-- The changes that `update_tenant` collects: of the plan, then of the status.
plan_change : Tenant → Option Plan → Details
plan_change t none = []
plan_change t (some p) =
    if is_yes (Plan-discrete p t.plan) then [] else ("plan", text (plan_value p)) ∷ []

status_change : Tenant → Option TenantStatus → Details
status_change t none = []
status_change t (some p) =
    if is_yes (TenantStatus-discrete p t.status) then [] else ("status", text (status_value p)) ∷ []

abbrev or_else {ℓ} : {A : Type ℓ} → Option A → A → A
or_else none d = d
or_else (some a) d = a

abbrev has_changes : Details → Bool
has_changes [] = false
has_changes (_ ∷ _) = true

module _ ⦃h : Hashing⦄ where
  module _ (lib : Externals) where
    unfoldable pub create_tenant :
        Session
        → (id seed master_key slug name : String) → Actor
        → Plan
        → Outcome ServiceError (Tenant × Session)
    create_tenant s id seed master_key slug name actor plan = do
      require (valid_slug (characters slug) && not (contains slug reserved_slugs)) bad_slug
      require (not (slug_taken s slug)) (tenant_exists slug)
      let tenant : Tenant = record {
        id = id;
        slug = slug;
        name = name;
        plan = plan;
        status = active;
        wrapped_key = lib.wrap_key master_key (lib.new_data_key seed) id;
      }
      ok (
        tenant,
        record_event (record s { tenants = s.tenants ++ tenant ∷ [] }) platform actor
            "tenant.created" "tenant" id
            (("slug", text slug) ∷ ("plan", text (plan_value plan)) ∷ []),
      )

    unfoldable pub create_user :
        Session → (id email password name : String) → Bool → Outcome ServiceError (User × Session)
    create_user s id email password name super_admin = do
      let address = lib.strip_lower email
      require (any (λ c. c == b'@') (characters address)) bad_email
      require (leb min_password (length (characters password))) short_password
      require (not (email_taken s address)) (account_exists address)
      let user : User = record {
        id = id;
        email = address;
        name = name;
        password_hash = lib.hash_password password;
        is_super_admin = super_admin;
        disabled = false;
      }
      ok (user, record s { users = s.users ++ user ∷ [] })

  unfoldable pub update_tenant :
      Session → Tenant → Actor → Option Plan → Option TenantStatus → Tenant × Session
  unfolding plan_change status_change
  update_tenant s tenant actor plan status =
      let changes = plan_change tenant plan ++ status_change tenant status in
      let changed = record tenant {
        plan = or_else plan tenant.plan;
        status = or_else status tenant.status;
      } in
      let stored = record s {
        tenants = update (λ t. str_eq t.id tenant.id) (λ _. changed) s.tenants;
      } in
      (
        changed,
        if has_changes changes
            then record_event stored platform actor "tenant.updated" "tenant" tenant.id changes
            else stored,
      )

  change_role : Session → Tenant → User → Role → Actor → Membership → Membership × Session
  change_role s tenant user role actor existing =
      let changed = record existing { role = role } in
      (
        changed,
        record_event
            (record s {
              memberships = update (λ m. str_eq m.id existing.id) (λ _. changed) s.memberships;
            })
            tenant.id actor "member.role_changed" "user" user.id
            (("from", text (role_value existing.role)) ∷ ("to", text (role_value role)) ∷ []),
      )

  join : Session → String → Tenant → User → Role → Actor → Membership × Session
  join s id tenant user role actor =
      let membership : Membership = record {
        id = id;
        tenant_id = tenant.id;
        user_id = user.id;
        role = role;
      } in
      (
        membership,
        record_event (record s { memberships = s.memberships ++ membership ∷ [] }) tenant.id actor
            "member.added" "user" user.id
            (("email", text user.email) ∷ ("role", text (role_value role)) ∷ []),
      )

  unfoldable pub add_member : Session → String → Tenant → User → Role → Actor → Membership × Session
  unfolding change_role join
  add_member s id tenant user role actor =
      elim (first (is_member tenant.id user.id) s.memberships) [
        | some existing ↦ change_role s tenant user role actor existing
        | none ↦ join s id tenant user role actor
      ]

  unfoldable pub remove_member : Session → Membership → Actor → Session
  remove_member s membership actor =
      let logged =
        record_event s membership.tenant_id actor "member.removed" "user" membership.user_id
          (("role", text (role_value membership.role)) ∷ []) in
      record logged { memberships = keep (λ m. not (str_eq m.id membership.id)) logged.memberships }

  unfoldable pub register_model :
      Session
      → (id : String) → Tenant
      → (name : String) → Access
      → (base description : String) → Actor
      → Outcome ServiceError (Model × Session)
  register_model s id tenant name access base description actor = do
    require (not (model_taken s tenant.id name)) (model_exists name)
    let model : Model = record {
      id = id;
      tenant_id = tenant.id;
      name = name;
      description = description;
      access = access;
      base = base;
      created_by = actor.id;
    }
    ok (
      model,
      record_event (record s { models = s.models ++ model ∷ [] }) tenant.id actor "model.registered"
          "model" id
          (("name", text name) ∷ ("access", text (access_value access)) ∷ ("base", text base) ∷ []),
    )

  unfoldable pub register_version :
      Session
      → (id : String) → Model
      → (version : String) → Option Dataset
      → Dataset
      → Actor
      → Option (String × String)
      → Option ModelVersion
      → Outcome ServiceError (ModelVersion × Session)
  register_version s id model version dataset reference actor artifact parent = do
    require (not (version_taken s model.id version)) (version_exists version)
    let row : ModelVersion = record {
      id = id;
      tenant_id = model.tenant_id;
      model_id = model.id;
      version = version;
      state = registered;
      parent_id = Option.map (λ p. p.id) parent;
      dataset_id = Option.map (λ d. d.id) dataset;
      reference_dataset_id = some reference.id;
      artifact_key = Option.map (λ a. a.0) artifact;
      artifact_sha256 = Option.map (λ a. a.1) artifact;
      audit = none;
      verdict = none;
      auc = none;
      critical = 0;
      high = 0;
      attestation_sha256 = none;
      created_by = actor.id;
    }
    ok (
      row,
      record_event (record s { versions = s.versions ++ row ∷ [] }) model.tenant_id actor
          "version.registered" "model_version" id
          (("model", text model.name)
            ∷ ("version", text version)
            ∷ ("dataset", optional_text (Option.map (λ d. d.sha256) dataset))
            ∷ ("reference", text reference.sha256)
            ∷ ("parent", optional_text (Option.map (λ p. p.version) parent))
            ∷ []),
    )

-- `get`, for a table whose rows have these two columns.
unfoldable pub get_owned :
    {A : Type 0} → (A → String) → (A → String) → List A → String → String → Outcome ServiceError A
get_owned id_of tenant_of table tenant_id object_id =
    elim (first (λ r. str_eq (id_of r) object_id) table) [
      | none ↦ err (not_found object_id)
      | some found ↦
          if str_eq (tenant_of found) tenant_id then ok found else err (not_found object_id)
    ]
