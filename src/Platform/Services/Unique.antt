-- ===== src/Platform/Services/Unique.antt =====
-- Names that must be taken once, and what an accepted request satisfies.
use model_passport.Prelude.{
  ◌==◌, not-true, and_not, leb-le, length, any, Unique, Unique-add, str_eq, ◌≤◌, String, ◌≡◌, refl,
  subst, Bool, true, false, ◌&&◌, Option, none, [], ◌∷◌, ◌++◌,
}
use model_passport.Prelude.Outcome.{ok, ok-eq, require-ok}
use model_passport.Platform.Models.{
  Plan, Tenant, Session, Access, registered, User, Dataset, Model, ModelVersion,
}
use model_passport.Platform.Auditlog.{Hashing, Actor, record_event}
use model_passport.Platform.Services.Slug.{characters, valid_slug, reserved_slugs}
use model_passport.Platform.Services.{
  Externals, contains, slug_taken, create_tenant, email_taken, model_taken, version_taken,
  create_user, register_model, register_version,
}

abbrev pub SlugsUnique : Session → Type 0
SlugsUnique s = Unique (λ a b. str_eq a.slug b.slug) s.tenants

abbrev pub EmailsUnique : Session → Type 0
EmailsUnique s = Unique (λ a b. str_eq a.email b.email) s.users

abbrev pub ModelsUnique : Session → Type 0
ModelsUnique s = Unique (λ a b. str_eq a.tenant_id b.tenant_id && str_eq a.name b.name) s.models

abbrev pub VersionsUnique : Session → Type 0
VersionsUnique s =
    Unique (λ a b. str_eq a.model_id b.model_id && str_eq a.version b.version) s.versions

module _ ⦃h : Hashing⦄ where
  -- An accepted organization has a slug that matches the pattern, is not reserved and was free;
  -- it is added at the end of the table, and slugs stay unique.
  create_tenant-Unique :
      (lib : Externals) (s : Session) (id seed master_key slug name : String) (actor : Actor)
      (plan : Plan) {tenant : Tenant} {t : Session}
      → SlugsUnique s
      → create_tenant lib s id seed master_key slug name actor plan ≡ ok (tenant, t)
      → (valid_slug (characters slug) ≡ true)
        × (contains slug reserved_slugs ≡ false)
        × (tenant.slug ≡ slug)
        × (t.tenants ≡ s.tenants ++ tenant ∷ [])
        × SlugsUnique t
  unfolding create_tenant record_event slug_taken
  create_tenant-Unique lib s id seed master_key slug name actor plan u e =
      let (valid, e1) = require-ok _ _ _ e in
      let (free_slug, e2) = require-ok _ _ _ e1 in
      subst
        (λ (r : Tenant × Session).
          (valid_slug (characters slug) ≡ true)
          × (contains slug reserved_slugs ≡ false)
          × (r.0.slug ≡ slug)
          × (r.1.tenants ≡ s.tenants ++ r.0 ∷ [])
          × SlugsUnique r.1)
        (ok-eq e2)
        (
          (and_not valid).0,
          (and_not valid).1,
          refl,
          refl,
          Unique-add (λ a b. str_eq a.slug b.slug) s.tenants _ u (not-true free_slug),
        )

  -- An accepted account has the normalised address, which holds an `@`, and a password of at
  -- least twelve characters; addresses stay unique.
  create_user-Unique :
      (lib : Externals) (s : Session) (id email password name : String) (super_admin : Bool)
      {user : User} {t : Session}
      → EmailsUnique s
      → create_user lib s id email password name super_admin ≡ ok (user, t)
      → (user.email ≡ lib.strip_lower email)
        × (any (λ c. c == b'@') (characters user.email) ≡ true)
        × (12 ≤ length (characters password))
        × (t.users ≡ s.users ++ user ∷ [])
        × EmailsUnique t
  unfolding create_user email_taken
  create_user-Unique lib s id email password name super_admin u e =
      let (at_sign, e1) = require-ok _ _ _ e in
      let (long, e2) = require-ok _ _ _ e1 in
      let (new, e3) = require-ok _ _ _ e2 in
      subst
        (λ (r : User × Session).
          (r.0.email ≡ lib.strip_lower email)
          × (any (λ c. c == b'@') (characters r.0.email) ≡ true)
          × (12 ≤ length (characters password))
          × (r.1.users ≡ s.users ++ r.0 ∷ [])
          × EmailsUnique r.1)
        (ok-eq e3)
        (
          refl,
          at_sign,
          leb-le _ _ long,
          refl,
          Unique-add (λ a b. str_eq a.email b.email) s.users _ u (not-true new),
        )

  -- An accepted model belongs to the tenant; in each tenant the names of models stay unique.
  register_model-Unique :
      (s : Session) (id : String) (tenant : Tenant) (name : String) (access : Access)
      (base description : String) (actor : Actor) {model : Model} {t : Session}
      → ModelsUnique s
      → register_model s id tenant name access base description actor ≡ ok (model, t)
      → (model.tenant_id ≡ tenant.id) × (t.models ≡ s.models ++ model ∷ []) × ModelsUnique t
  unfolding register_model record_event model_taken
  register_model-Unique s id tenant name access base description actor u e =
      let (new, e1) = require-ok _ _ _ e in
      subst
        (λ (r : Model × Session).
          (r.0.tenant_id ≡ tenant.id) × (r.1.models ≡ s.models ++ r.0 ∷ []) × ModelsUnique r.1)
        (ok-eq e1) (refl, refl, Unique-add _ s.models _ u (not-true new))

  -- An accepted version starts in the state `registered`, belongs to the tenant of its model and
  -- has no audit and no verdict; in each model the names of versions stay unique.
  register_version-Unique :
      (s : Session) (id : String) (model : Model) (version : String) (dataset : Option Dataset)
      (reference : Dataset) (actor : Actor) (artifact : Option (String × String))
      (parent : Option ModelVersion) {row : ModelVersion} {t : Session}
      → VersionsUnique s
      → register_version s id model version dataset reference actor artifact parent ≡ ok (row, t)
      → (row.state ≡ registered)
        × (row.tenant_id ≡ model.tenant_id)
        × (row.audit ≡ none)
        × (row.verdict ≡ none)
        × (t.versions ≡ s.versions ++ row ∷ [])
        × VersionsUnique t
  unfolding register_version record_event version_taken
  register_version-Unique s id model version dataset reference actor artifact parent u e =
      let (new, e1) = require-ok _ _ _ e in
      subst
        (λ (r : ModelVersion × Session).
          (r.0.state ≡ registered)
          × (r.0.tenant_id ≡ model.tenant_id)
          × (r.0.audit ≡ none)
          × (r.0.verdict ≡ none)
          × (r.1.versions ≡ s.versions ++ r.0 ∷ [])
          × VersionsUnique r.1)
        (ok-eq e1) (refl, refl, refl, refl, refl, Unique-add _ s.versions _ u (not-true new))
