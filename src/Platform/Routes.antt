-- ===== src/Platform/Routes.antt =====
-- src/model_passport/platform/api/routes_tenant.py: the routes for members, models, versions and
-- reports, and `find_or_create_user` of deps.py.
--
-- A response that only shows what is stored is left out.
pub mod Owned
use model_passport.Prelude.{
  if◌then◌else◌, first, str_eq, ℕ, String, Bool, true, false, ◌&&◌, not, Option, none, some, [],
  ◌∷◌,
}
use model_passport.Prelude.Outcome.{Outcome, ok, err, ◌>>=◌, ◌>>◌, require}
use model_passport.Platform.Models.{
  Role, Access, text, flag, User, Membership, Dataset, Model, ModelVersion, Job, Session,
}
use model_passport.Platform.Rbac.{members_manage, models_write, audits_run, reports_read, allowed}
use model_passport.Platform.Auditlog.{Hashing}
use model_passport.Platform.Jobs.{enqueue}
use model_passport.Platform.Services.{
  Externals, create_user, add_member, remove_member, register_model, register_version, get_owned,
}
use model_passport.Platform.Api.{Ctx, actor_of, Response, or_status, require_permission}

-- `_model`
unfoldable pub model_of : Ctx → String → Outcome ℕ Model
model_of c model_id =
    or_status (λ _. 404)
      (get_owned (λ x. x.id) (λ x. x.tenant_id) c.session.models c.tenant.id model_id)

-- `_dataset`
unfoldable pub dataset_of : Ctx → String → Outcome ℕ Dataset
dataset_of c dataset_id =
    or_status (λ _. 404)
      (get_owned (λ x. x.id) (λ x. x.tenant_id) c.session.datasets c.tenant.id dataset_id)

-- `_dataset(c, body.dataset_id) if body.dataset_id else None`
unfoldable pub training_of : Ctx → Option String → Outcome ℕ (Option Dataset)
unfolding dataset_of
training_of c none = ok none
training_of c (some id) = if str_eq id "" then ok none else (dataset_of c id >>= λ d. ok (some d))

-- `_membership`
unfoldable pub membership_of : Ctx → String → Outcome ℕ Membership
unfolding first
membership_of c user_id =
    elim (first (λ m. str_eq m.tenant_id c.tenant.id && str_eq m.user_id user_id)
      c.session.memberships) [ none ↦ err 404 | some member ↦ ok member ]

-- `member.user`: the foreign key says that the row is there.
unfoldable pub user_row : Session → String → Outcome ℕ User
unfolding first
user_row s id = elim (first (λ u. str_eq u.id id) s.users) [ none ↦ err 500 | some user ↦ ok user ]

module _ (lib : Externals) ⦃h : Hashing⦄ where
  -- `find_or_create_user`: a person without an account needs a password.
  unfoldable pub find_or_create_user :
      Session → (id email : String) → Option String → String → Outcome ℕ (User × Session)
  unfolding first
  find_or_create_user s id email password name =
      elim (first (λ u. str_eq u.email (lib.strip_lower email)) s.users) [
        | some user ↦ ok (user, s)
        | none ↦ elim password [
          | none ↦ err 400
          | some given ↦
              if str_eq given ""
              then err 400
              else or_status (λ _. 400) (create_user lib s id email given name false)
        ]
      ]

  unfoldable pub add_member_route :
      Ctx
      → (user_id membership_id email : String) → Option String
      → String
      → Role
      → Response Membership
  unfolding find_or_create_user
  add_member_route c user_id membership_id email password name role = do
    require_permission c members_manage
    found ← find_or_create_user c.session user_id email password name
    ok (add_member found.1 membership_id c.tenant found.0 role (actor_of c))

module _ ⦃h : Hashing⦄ where
  unfoldable pub change_role_route :
      Ctx → (membership_id user_id : String) → Role → Response Membership
  unfolding membership_of user_row
  change_role_route c membership_id user_id role = do
    require_permission c members_manage
    member ← membership_of c user_id
    user ← user_row c.session member.user_id
    ok (add_member c.session membership_id c.tenant user role (actor_of c))

  unfoldable pub remove_member_route : Ctx → String → Outcome ℕ Session
  unfolding membership_of
  remove_member_route c user_id = do
    require_permission c members_manage
    require (not (str_eq user_id c.user.id)) 400
    member ← membership_of c user_id
    ok (remove_member c.session member (actor_of c))

  unfoldable pub register_model_route :
      Ctx → (id name : String) → Access → (base description : String) → Response Model
  register_model_route c id name access base description = do
    require_permission c models_write
    or_status (λ _. 400)
        (register_model c.session id c.tenant name access base description (actor_of c))

  -- `if body.train`: a caller whose role does not run audits is refused, and the version with it.
  unfoldable pub train_first : Ctx → String → Bool → ModelVersion × Session → Response ModelVersion
  train_first c job_id false made = ok made
  train_first c job_id true made = do
    require (allowed c.role audits_run c.user.is_super_admin) 403
    queued_job ←
        or_status (λ _. 500)
          (enqueue made.1 job_id c.tenant.id "train"
            (("version", text made.0.id) ∷ ("then_audit", flag true) ∷ []) (actor_of c) 3)
    ok (made.0, queued_job.1)

  unfoldable pub register_version_route :
      Ctx
      → (id job_id model_id version : String) → Option String
      → (reference_id : String) → Bool
      → Response ModelVersion
  unfolding model_of training_of dataset_of train_first
  register_version_route c id job_id model_id version dataset_id reference_id train = do
    require_permission c models_write
    model ← model_of c model_id
    training ← training_of c dataset_id
    reference ← dataset_of c reference_id
    made ←
        or_status (λ _. 400)
          (register_version c.session id model version training reference (actor_of c) none none)
    train_first c job_id train made

  unfoldable pub generate_report : Ctx → (job_id model_id : String) → Response Job
  unfolding model_of
  generate_report c job_id model_id = do
    require_permission c reports_read
    model ← model_of c model_id
    or_status (λ _. 500)
        (enqueue c.session job_id c.tenant.id "report" (("model", text model.id) ∷ []) (actor_of c)
          3)
