-- ===== src/Platform/Runs.antt =====
-- Whole runs of the platform: sequences of the operations of services.py, lifecycle.py and jobs.py,
-- each in a transaction of its own, from a database without events.
use model_passport.Prelude.{keep, ℕ, String, ◌≡◌, refl, sym, subst, Bool, Option, []}
use model_passport.Prelude.Outcome.{ok, ok-eq, require-ok}
use model_passport.Platform.Models.{
  Role, Plan, TenantStatus, Access, State, Details, Tenant, User, Membership, Dataset, Model,
  ModelVersion, Job, Session,
}
use model_passport.Platform.Auditlog.{Hashing, Actor, genesis, for_tenant, chain, verify_chain}
use model_passport.Platform.Auditlog.Chain.{Intact, IsIntactLog, verify_chain-chain}
use model_passport.Platform.Lifecycle.{Who, store_version, apply_move, move}
use model_passport.Platform.Lifecycle.Moves.{move_iff}
use model_passport.Platform.Jobs.{
  store_job, enqueue, claim_job, finish, fail_with, kinds_known, unknown_kind, kind_in,
}
use model_passport.Platform.Services.{
  Externals, create_tenant, create_user, update_tenant, add_member, remove_member, register_model,
  register_version,
}
use model_passport.Platform.Services.Datasets.{
  Corpora, Provenance, Stored, add_dataset, add_dataset-IsIntactLog,
}
use model_passport.Platform.Services.Logged.{
  logged, create_tenant-IsIntactLog, create_user-IsIntactLog, update_tenant-IsIntactLog,
  add_member-IsIntactLog, remove_member-IsIntactLog, register_model-IsIntactLog,
  register_version-IsIntactLog,
}

module _ (lib : Externals) (corpora : Corpora) ⦃h : Hashing⦄ where
  -- One transaction.
  pub data Transaction : Session → Session → Type 0 where
    tick : (s : Session) (now : ℕ) → Transaction s (record s { clock = now })
    tenant_created :
        (s t : Session) (id seed master_key slug name : String) (actor : Actor) (plan : Plan)
        (tenant : Tenant)
        → create_tenant lib s id seed master_key slug name actor plan ≡ ok (tenant, t)
        → Transaction s t
    user_created :
        (s t : Session) (id email password name : String) (super_admin : Bool) (user : User)
        → create_user lib s id email password name super_admin ≡ ok (user, t)
        → Transaction s t
    tenant_updated :
        (s : Session) (tenant : Tenant) (actor : Actor) (plan : Option Plan)
        (status : Option TenantStatus)
        → Transaction s (update_tenant s tenant actor plan status).1
    member_added :
        (s : Session) (id : String) (tenant : Tenant) (user : User) (role : Role) (actor : Actor)
        → Transaction s (add_member s id tenant user role actor).1
    member_removed :
        (s : Session) (membership : Membership) (actor : Actor)
        → Transaction s (remove_member s membership actor)
    model_registered :
        (s t : Session) (id : String) (tenant : Tenant) (name : String) (access : Access)
        (base description : String) (actor : Actor) (model : Model)
        → register_model s id tenant name access base description actor ≡ ok (model, t)
        → Transaction s t
    version_registered :
        (s t : Session) (id : String) (model : Model) (version : String) (dataset : Option Dataset)
        (reference : Dataset) (actor : Actor) (artifact : Option (String × String))
        (parent : Option ModelVersion) (row : ModelVersion)
        → register_version s id model version dataset reference actor artifact parent ≡ ok (row, t)
        → Transaction s t
    dataset_added :
        (s : Session) (id : String) (tenant : Tenant) (name content : String)
        (provenance : Provenance) (actor : Actor) (stored : Stored)
        → add_dataset corpora s id tenant name content provenance actor ≡ ok stored
        → Transaction s stored.session
    version_moved :
        (s : Session) (version : ModelVersion) (to : State) (who : Who) (reason : String)
        (result : ModelVersion × Session)
        → move s version to who reason ≡ ok result
        → Transaction s result.1
    job_queued :
        (s t : Session) (id tenant_id kind : String) (payload : Details) (actor : Actor)
        (max_attempts : ℕ) (job : Job)
        → enqueue s id tenant_id kind payload actor max_attempts ≡ ok (job, t)
        → Transaction s t
    job_claimed :
        (s : Session) (worker : String) (job : Job) → Transaction s (claim_job s worker job).1
    job_finished :
        (s : Session) (job : Job) (result : Details) → Transaction s (finish s job result)
    job_failed :
        (s : Session) (job : Job) (error detail : String)
        → Transaction s (fail_with s job error detail)

  -- The sessions that such runs reach.
  pub data Reached : Session → Type 0 where
    start : (s : Session) → s.events ≡ [] → Reached s
    next : (s t : Session) → Reached s → Transaction s t → Reached t

  empty-IsIntactLog : (s : Session) → s.events ≡ [] → IsIntactLog s
  unfolding for_tenant keep
  empty-IsIntactLog s none_yet = record {
    at = λ u. subst (λ es. Intact genesis 1 (for_tenant u es)) (sym none_yet) tt;
  }

  pub Transaction-IsIntactLog : {s t : Session} → IsIntactLog s → Transaction s t → IsIntactLog t
  unfolding enqueue apply_move claim_job finish fail_with store_version store_job
  Transaction-IsIntactLog i (tick s now) = record { at = i.at }
  Transaction-IsIntactLog i (tenant_created s t id seed master_key slug name actor plan tenant e) =
      create_tenant-IsIntactLog lib s id seed master_key slug name actor plan i e
  Transaction-IsIntactLog i (user_created s t id email password name super_admin user e) =
      create_user-IsIntactLog lib s id email password name super_admin i e
  Transaction-IsIntactLog i (tenant_updated s tenant actor plan status) =
      update_tenant-IsIntactLog s tenant actor plan status i
  Transaction-IsIntactLog i (member_added s id tenant user role actor) =
      add_member-IsIntactLog s id tenant user role actor i
  Transaction-IsIntactLog i (member_removed s membership actor) =
      remove_member-IsIntactLog s membership actor i
  Transaction-IsIntactLog i
        (model_registered s t id tenant name access base description actor model e) =
      register_model-IsIntactLog s id tenant name access base description actor i e
  Transaction-IsIntactLog i
        (version_registered s t id model version dataset reference actor artifact parent row e) =
      register_version-IsIntactLog s id model version dataset reference actor artifact parent i e
  Transaction-IsIntactLog i (dataset_added s id tenant name content provenance actor stored e) =
      add_dataset-IsIntactLog corpora s id tenant name content provenance actor i e
  Transaction-IsIntactLog i (version_moved s version to who reason result e) =
      subst (λ (r : ModelVersion × Session). IsIntactLog r.1)
        (sym ((move_iff s version to who reason result).0 e).1) (logged s _ _ _ _ _ _ _ refl i)
  Transaction-IsIntactLog i (job_queued s t id tenant_id kind payload actor max_attempts job e) =
      let (known, e1) = require-ok (kind_in kind kinds_known) (unknown_kind kind) _ e in
      subst (λ (r : Job × Session). IsIntactLog r.1) (ok-eq e1) (logged s _ _ _ _ _ _ _ refl i)
  Transaction-IsIntactLog i (job_claimed s worker job) = logged s _ _ _ _ _ _ _ refl i
  Transaction-IsIntactLog i (job_finished s job result) = logged s _ _ _ _ _ _ _ refl i
  Transaction-IsIntactLog i (job_failed s job error detail) = logged s _ _ _ _ _ _ _ refl i

  Reached-IsIntactLog : {s : Session} → Reached s → IsIntactLog s
  Reached-IsIntactLog (start s none_yet) = empty-IsIntactLog s none_yet
  Reached-IsIntactLog (next s t r step) = Transaction-IsIntactLog (Reached-IsIntactLog r) step

  -- Whatever sequence of the transactions of `Transaction` ran since the database had no events,
  -- `verify_chain` finds no problem in the audit log of any tenant.
  pub Reached-verifies :
      (s : Session) → Reached s → (tenant_id : String) → verify_chain (chain s tenant_id) ≡ []
  Reached-verifies s r tenant_id = verify_chain-chain s (Reached-IsIntactLog r) tenant_id
