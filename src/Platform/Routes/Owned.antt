-- ===== src/Platform/Routes/Owned.antt =====
-- What the routes may touch.
use model_passport.Prelude.{
  Option-cases, not-true, first, first_sound, first-Mem, str_eq, str_eq_iff, ℕ, String, ◌≡◌, refl,
  sym, ap, ◌∙◌, subst, ◌≢◌, inl, inr, Bool, true, false, ◌&&◌, not, Option, none, some, [], ◌∷◌,
  arith,
}
use mathlib.Core.List.{Memᴰ}
use model_passport.Prelude.Outcome.{Outcome, ok, err, >>=-eq-ok, require-ok, ok-eq}
use model_passport.Platform.Models.{
  registered, Membership, Dataset, Model, ModelVersion, Session, text, flag,
}
use model_passport.Platform.Rbac.{members_manage, models_write, allowed, audits_run}
use model_passport.Platform.Auditlog.{Hashing, Actor}
use model_passport.Platform.Services.{remove_member, register_version}
use model_passport.Platform.Api.{Ctx, actor_of, or_status, require_permission}
use model_passport.Platform.Routes.{
  model_of, dataset_of, training_of, remove_member_route, register_version_route, membership_of,
  train_first,
}
use model_passport.Platform.Services.Isolation.{get_owned_sound}
use model_passport.Platform.Jobs.{enqueue}

status-ok : {E A : Type 0} (f : E → ℕ) (m : Outcome E A) {a : A} → or_status f m ≡ ok a → m ≡ ok a
status-ok f (ok b) e = cc
status-ok f (err x) e = absurd (cc)

model_of_lem :
    (c : Ctx) (id : String) {model : Model}
    → model_of c id ≡ ok model
    → Memᴰ model c.session.models × (model.id ≡ id) × (model.tenant_id ≡ c.tenant.id)
unfolding model_of
model_of_lem c id e =
    get_owned_sound (λ x. x.id) (λ x. x.tenant_id) c.session.models c.tenant.id id
      (status-ok (λ _. 404) _ e)

dataset_of_lem :
    (c : Ctx) (id : String) {dataset : Dataset}
    → dataset_of c id ≡ ok dataset
    → Memᴰ dataset c.session.datasets × (dataset.id ≡ id) × (dataset.tenant_id ≡ c.tenant.id)
unfolding dataset_of
dataset_of_lem c id e =
    get_owned_sound (λ x. x.id) (λ x. x.tenant_id) c.session.datasets c.tenant.id id
      (status-ok (λ _. 404) _ e)

and_both : {a b : Bool} → (a && b) ≡ true → (a ≡ true) × (b ≡ true)
and_both e = ground arith

membership_of_lem :
    (c : Ctx) (user_id : String) {member : Membership}
    → membership_of c user_id ≡ ok member
    → Memᴰ member c.session.memberships
      × (member.tenant_id ≡ c.tenant.id)
      × (member.user_id ≡ user_id)
unfolding membership_of
membership_of_lem c user_id {member = member} e =
    let test = λ (m : Membership). str_eq m.tenant_id c.tenant.id && str_eq m.user_id user_id in
    elim (Option-cases (first test c.session.memberships)) [
      | inl n ↦ absurd (let e' = rw (membership_of, n) at e in cc)
      | inr (m, n) ↦
          let both = first_sound test c.session.memberships n in
          subst
            (λ (x : Membership).
              Memᴰ x c.session.memberships × (x.tenant_id ≡ c.tenant.id) × (x.user_id ≡ user_id))
            (ok-eq (rw (membership_of, n) at e))
            (
              first-Mem test c.session.memberships n,
              (str_eq_iff m.tenant_id c.tenant.id).0 (and_both both).0,
              (str_eq_iff m.user_id user_id).0 (and_both both).1,
            )
    ]

module _ ⦃h : Hashing⦄ where
  -- What the row of a new version says of its model and its reference data.
  abbrev Describes : Model → Dataset → ModelVersion → Type 0
  Describes model reference row =
      (row.tenant_id ≡ model.tenant_id)
      × (row.state ≡ registered)
      × (row.model_id ≡ model.id)
      × (row.reference_dataset_id ≡ some reference.id)

  register_version-Describes :
      (s : Session) (id : String) (model : Model) (version : String) (dataset : Option Dataset)
      (reference : Dataset) (actor : Actor) {made : ModelVersion × Session}
      → register_version s id model version dataset reference actor none none ≡ ok made
      → Describes model reference made.0
  unfolding register_version
  register_version-Describes s id model version dataset reference actor e =
      let (new, e1) = require-ok _ _ _ e in
      subst (λ (r : ModelVersion × Session). Describes model reference r.0) (ok-eq e1)
        (refl, refl, refl, refl)

  train_first_row :
      (c : Ctx) (job_id : String) (train : Bool) (made : ModelVersion × Session)
      {row : ModelVersion} {t : Session}
      → train_first c job_id train made ≡ ok (row, t)
      → made.0 ≡ row
  unfolding train_first
  train_first_row c job_id false made e = ap (λ (r : ModelVersion × Session). r.0) (ok-eq e)
  train_first_row c job_id true made e =
      let (_, e1) = require-ok (allowed c.role audits_run c.user.is_super_admin) 403 _ e in
      let (queued_job, _, e2) =
        >>=-eq-ok
          (or_status (λ _. 500)
            (enqueue made.1 job_id c.tenant.id "train"
              (("version", text made.0.id) ∷ ("then_audit", flag true) ∷ []) (actor_of c) 3))
          _ e1 in
      ap (λ (r : ModelVersion × Session). r.0) (ok-eq e2)

  -- An accepted removal is of a membership of the caller's organization, never the caller's own,
  -- and by a caller who may manage members.
  remove_member_route_other :
      (c : Ctx) (user_id : String) {t : Session}
      → remove_member_route c user_id ≡ ok t
      → (allowed c.role members_manage c.user.is_super_admin ≡ true)
        × (user_id ≢ c.user.id)
        × ((member : Membership) × Memᴰ member c.session.memberships
            × (member.tenant_id ≡ c.tenant.id)
            × (member.user_id ≡ user_id)
            × (t ≡ remove_member c.session member (actor_of c)))
  unfolding remove_member_route require_permission
  remove_member_route_other c user_id e =
      let (may, e1) = require-ok (allowed c.role members_manage c.user.is_super_admin) 403 _ e in
      let (other, e2) = require-ok (not (str_eq user_id c.user.id)) 400 _ e1 in
      let (member, found, e3) = >>=-eq-ok (membership_of c user_id) _ e2 in
      let (row, owned, named) = membership_of_lem c user_id found in
      (
        may,
        λ same. (let h1 = (str_eq_iff user_id c.user.id).1 same in let h2 = not-true other in cc),
        (member, row, owned, named, sym (ok-eq e3)),
      )

  -- The version that the route accepts belongs to the caller's organization, and so do its model
  -- and the reference data that it will be audited against; it starts in `registered`.
  pub register_version_route_owned :
      (c : Ctx) (id job_id model_id version : String) (dataset_id : Option String)
      (reference_id : String) (train : Bool) {row : ModelVersion} {t : Session}
      → register_version_route c id job_id model_id version dataset_id reference_id train
        ≡ ok (row, t)
      → (row.tenant_id ≡ c.tenant.id)
        × (row.state ≡ registered)
        × ((model : Model) × Memᴰ model c.session.models
            × (model.tenant_id ≡ c.tenant.id)
            × (row.model_id ≡ model.id))
        × ((reference : Dataset) × Memᴰ reference c.session.datasets
            × (reference.tenant_id ≡ c.tenant.id)
            × (row.reference_dataset_id ≡ some reference.id))
  unfolding register_version_route require_permission
  register_version_route_owned c id job_id model_id version dataset_id reference_id train e =
      let (_, e1) = require-ok (allowed c.role models_write c.user.is_super_admin) 403 _ e in
      let (model, found, e2) = >>=-eq-ok (model_of c model_id) _ e1 in
      let (training, _, e3) = >>=-eq-ok (training_of c dataset_id) _ e2 in
      let (reference, seen, e4) = >>=-eq-ok (dataset_of c reference_id) _ e3 in
      let (made, run, e5) =
        >>=-eq-ok
          (or_status (λ _. 400)
            (register_version c.session id model version training reference (actor_of c) none none))
          _ e4 in
      let (tenant, state, of_model, against) =
        subst (Describes model reference) (train_first_row c job_id train made e5) (
          register_version-Describes c.session id model version training reference (actor_of c)
            (status-ok (λ _. 400) _ run)) in
      let (model_row, _, model_owned) = model_of_lem c model_id found in
      let (data_row, _, data_owned) = dataset_of_lem c reference_id seen in
      (
        tenant ∙ model_owned,
        state,
        (model, model_row, model_owned, of_model),
        (reference, data_row, data_owned, against),
      )
