-- ===== src/Platform/Lifecycle.antt =====
-- src/model_passport/platform/lifecycle.py: the states of a model version and who may change them.
pub mod Moves
pub mod Paths
use model_passport.Prelude.{
  is_some, keep, update, concat, str_eq, String, Bool, ◌||◌, Option, none, some, List, [], ◌∷◌,
}
use model_passport.Prelude.Outcome.{Outcome, ok, err, require, ◌>>=◌, ◌>>◌}
use model_passport.Platform.Models.{
  Role, State, registered, auditing, findings, clean, remediating, superseded, canary, verifying,
  approved, released, rolled_back, rejected, killed, text, ModelVersion, Session,
}
use model_passport.Platform.Rbac.{
  Permission, audits_run, remediation_run, approvals_decide, releases_manage, kill_switch,
  dev_endpoints, allowed,
}
use model_passport.Platform.Auditlog.{Hashing, Actor, record_event}

-- `State.value`
unfoldable pub state_value : State → String
state_value registered = "registered"
state_value auditing = "auditing"
state_value findings = "findings"
state_value clean = "clean"
state_value remediating = "remediating"
state_value superseded = "superseded"
state_value canary = "canary"
state_value verifying = "verifying"
state_value approved = "approved"
state_value released = "released"
state_value rolled_back = "rolled_back"
state_value rejected = "rejected"
state_value killed = "killed"

-- What a step of the lifecycle needs: a permission, or that a worker makes it.
pub data Needed : Type 0 where
  permission : Permission → Needed
  system_only : Needed

-- `TRANSITIONS`, with the entries that the loop over `KILLABLE` adds; `none` is a missing key.
unfoldable pub transitions : State → State → Option Needed
transitions registered auditing = some (permission audits_run)
transitions clean auditing = some (permission audits_run)
transitions findings auditing = some (permission audits_run)
transitions auditing findings = some system_only
transitions auditing clean = some system_only
transitions auditing registered = some system_only
transitions findings remediating = some (permission remediation_run)
transitions remediating superseded = some system_only
transitions remediating findings = some system_only
transitions clean canary = some (permission dev_endpoints)
transitions canary verifying = some (permission dev_endpoints)
transitions verifying findings = some (permission approvals_decide)
transitions verifying approved = some (permission approvals_decide)
transitions verifying rejected = some (permission approvals_decide)
transitions approved rejected = some (permission approvals_decide)
transitions approved released = some (permission releases_manage)
transitions released rolled_back = some (permission releases_manage)
transitions findings killed = some (permission kill_switch)
transitions clean killed = some (permission kill_switch)
transitions canary killed = some (permission kill_switch)
transitions verifying killed = some (permission kill_switch)
transitions approved killed = some (permission kill_switch)
transitions released killed = some (permission kill_switch)
transitions _ _ = none

pub record Who : Type 0 where
  pub actor : Actor
  pub role : Option Role
  pub super_admin : Bool
  pub is_system : Bool

-- The three messages of `TransitionError`.
pub data TransitionError : Type 0 where
  not_a_step : State → State → TransitionError
  set_by_platform : State → TransitionError
  permission_required : Permission → State → State → TransitionError

-- The tests of `check`, given the entry of the table.
unfoldable pub check_needed :
    State → State → Who → Option Needed → Outcome TransitionError (Unit {0})
check_needed from to who none = err (not_a_step from to)
check_needed from to who (some system_only) = require who.is_system (set_by_platform to)
check_needed from to who (some (permission needed)) =
    require (who.is_system || allowed who.role needed who.super_admin)
      (permission_required needed from to)

unfoldable pub check : ModelVersion → State → Who → Outcome TransitionError (Unit {0})
unfolding check_needed
check version to who = check_needed version.state to who (transitions version.state to)

-- Write a changed row of `model_versions` back.
unfoldable pub store_version : Session → ModelVersion → Session
store_version s version = record s {
  versions = update (λ v. str_eq v.id version.id) (λ _. version) s.versions;
}

-- The states in the order of their values, as `sorted` puts them.
abbrev by_value : List State
by_value =
    approved ∷ auditing ∷ canary ∷ clean ∷ findings ∷ killed ∷ registered ∷ rejected ∷ released
    ∷ remediating ∷ rolled_back ∷ superseded ∷ verifying ∷ []

-- `next_states`, in the order of the values of the states.
unfoldable pub next_states : State → List State
next_states from = keep (λ to. is_some (transitions from to)) by_value

-- `f"version.{to.value}"`
unfoldable pub state_action : State → String
unfolding state_value
state_action to = concat "version." (state_value to)

module _ ⦃h : Hashing⦄ where
  -- The change that `move` makes when `check` passes.
  unfoldable pub apply_move : Session → ModelVersion → State → Who → String → ModelVersion × Session
  unfolding store_version
  apply_move s version to who reason =
      let moved = record version { state = to } in
      (
        moved,
        record_event (store_version s moved) version.tenant_id who.actor (state_action to)
            "model_version" version.id
            (("from", text (state_value version.state))
              ∷ ("to", text (state_value to))
              ∷ ("reason", text reason)
              ∷ []),
      )

  unfoldable pub move :
      Session
      → ModelVersion
      → State
      → Who
      → String
      → Outcome TransitionError (ModelVersion × Session)
  unfolding apply_move
  move s version to who reason = do check version to who; ok (apply_move s version to who reason)
