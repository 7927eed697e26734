-- ===== src/Platform/Services/Logged.antt =====
-- The operations of services.py leave an intact audit log.
use model_passport.Prelude.{
  leb, ◌==◌, Bool-cases, Option-cases, length, any, first, String, ◌≡◌, refl, sym, subst, inl, inr,
  Bool, ◌&&◌, not, Option, [], ◌∷◌, ◌++◌,
}
use model_passport.Prelude.Outcome.{ok, ok-eq, require-ok}
use model_passport.Platform.Models.{
  Plan, Details, Tenant, Session, Role, TenantStatus, Access, text, User, Membership, Dataset,
  Model, ModelVersion,
}
use model_passport.Platform.Auditlog.{Hashing, Actor, genesis, for_tenant, record_event}
use model_passport.Platform.Auditlog.Chain.{Intact, IsIntactLog, record_event-IsIntactLog}
use model_passport.Platform.Services.Slug.{characters, valid_slug, reserved_slugs}
use model_passport.Platform.Services.{
  Externals, create_tenant, bad_slug, tenant_exists, bad_email, short_password, account_exists,
  model_exists, version_exists, min_password, role_value, contains, slug_taken, email_taken,
  is_member, model_taken, version_taken, create_user, update_tenant, add_member, remove_member,
  register_model, register_version, plan_change, status_change, has_changes,
}

module _ ⦃h : Hashing⦄ where
  pub logged :
      (s t : Session) (tenant_id : String) (actor : Actor) (action target_type target_id : String)
      (details : Details)
      → t.events ≡ s.events
      → IsIntactLog s
      → IsIntactLog (record_event t tenant_id actor action target_type target_id details)
  logged s t tenant_id actor action target_type target_id details same i =
      record_event-IsIntactLog t tenant_id actor action target_type target_id details
        (record { at = λ u. subst (λ es. Intact genesis 1 (for_tenant u es)) (sym same) (i.at u) })

  logged_self :
      (s : Session) (tenant_id : String) (actor : Actor) (action target_type target_id : String)
      (details : Details)
      → IsIntactLog s
      → IsIntactLog (record_event s tenant_id actor action target_type target_id details)
  logged_self s tenant_id actor action target_type target_id details i =
      record_event-IsIntactLog s tenant_id actor action target_type target_id details i

  pub create_tenant-IsIntactLog :
      (lib : Externals) (s : Session) (id seed master_key slug name : String) (actor : Actor)
      (plan : Plan) {tenant : Tenant} {t : Session}
      → IsIntactLog s
      → create_tenant lib s id seed master_key slug name actor plan ≡ ok (tenant, t)
      → IsIntactLog t
  unfolding create_tenant
  create_tenant-IsIntactLog lib s id seed master_key slug name actor plan i e =
      let (valid, e1) =
        require-ok (valid_slug (characters slug) && not (contains slug reserved_slugs)) bad_slug _
          e in
      let (new, e2) = require-ok (not (slug_taken s slug)) (tenant_exists slug) _ e1 in
      subst (λ (r : Tenant × Session). IsIntactLog r.1) (ok-eq e2) (logged s _ _ _ _ _ _ _ refl i)

  pub create_user-IsIntactLog :
      (lib : Externals) (s : Session) (id email password name : String) (super_admin : Bool)
      {user : User} {t : Session}
      → IsIntactLog s
      → create_user lib s id email password name super_admin ≡ ok (user, t)
      → IsIntactLog t
  unfolding create_user
  create_user-IsIntactLog lib s id email password name super_admin i e =
      let address = lib.strip_lower email in
      let (a, e1) = require-ok (any (λ c. c == b'@') (characters address)) bad_email _ e in
      let (b, e2) =
        require-ok (leb min_password (length (characters password))) short_password _ e1 in
      let (c, e3) = require-ok (not (email_taken s address)) (account_exists address) _ e2 in
      subst (λ (r : User × Session). IsIntactLog r.1) (ok-eq e3) (record { at = i.at })

  pub update_tenant-IsIntactLog :
      (s : Session) (tenant : Tenant) (actor : Actor) (plan : Option Plan)
      (status : Option TenantStatus)
      → IsIntactLog s
      → IsIntactLog (update_tenant s tenant actor plan status).1
  unfolding update_tenant
  update_tenant-IsIntactLog s tenant actor plan status i =
      elim (Bool-cases (has_changes (plan_change tenant plan ++ status_change tenant status))) [
        | inl e ↦ rw e (logged s _ _ _ _ _ _ _ refl i)
        | inr e ↦ rw e (record { at = i.at })
      ]

  pub add_member-IsIntactLog :
      (s : Session) (id : String) (tenant : Tenant) (user : User) (role : Role) (actor : Actor)
      → IsIntactLog s
      → IsIntactLog (add_member s id tenant user role actor).1
  unfolding add_member
  add_member-IsIntactLog s id tenant user role actor i =
      elim (Option-cases (first (is_member tenant.id user.id) s.memberships)) [
        | inl e ↦ rw (e, add_member) (logged s _ _ _ _ _ _ _ refl i)
        | inr (m, e) ↦ rw (e, add_member) (logged s _ _ _ _ _ _ _ refl i)
      ]

  pub remove_member-IsIntactLog :
      (s : Session) (membership : Membership) (actor : Actor)
      → IsIntactLog s
      → IsIntactLog (remove_member s membership actor)
  unfolding remove_member
  remove_member-IsIntactLog s membership actor i =
      let after =
        logged_self s membership.tenant_id actor "member.removed" "user" membership.user_id
          (("role", text (role_value membership.role)) ∷ []) i in
      record { at = after.at }

  pub register_model-IsIntactLog :
      (s : Session) (id : String) (tenant : Tenant) (name : String) (access : Access)
      (base description : String) (actor : Actor) {model : Model} {t : Session}
      → IsIntactLog s
      → register_model s id tenant name access base description actor ≡ ok (model, t)
      → IsIntactLog t
  unfolding register_model
  register_model-IsIntactLog s id tenant name access base description actor i e =
      let (new, e1) = require-ok (not (model_taken s tenant.id name)) (model_exists name) _ e in
      subst (λ (r : Model × Session). IsIntactLog r.1) (ok-eq e1) (logged s _ _ _ _ _ _ _ refl i)

  pub register_version-IsIntactLog :
      (s : Session) (id : String) (model : Model) (version : String) (dataset : Option Dataset)
      (reference : Dataset) (actor : Actor) (artifact : Option (String × String))
      (parent : Option ModelVersion) {row : ModelVersion} {t : Session}
      → IsIntactLog s
      → register_version s id model version dataset reference actor artifact parent ≡ ok (row, t)
      → IsIntactLog t
  unfolding register_version
  register_version-IsIntactLog s id model version dataset reference actor artifact parent i e =
      let (new, e1) =
        require-ok (not (version_taken s model.id version)) (version_exists version) _ e in
      subst (λ (r : ModelVersion × Session). IsIntactLog r.1) (ok-eq e1)
        (logged s _ _ _ _ _ _ _ refl i)
