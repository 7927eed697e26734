-- ===== src/Platform/Lifecycle/Moves.antt =====
-- What one `move` does, and when it is refused.
use model_passport.Prelude.{is_some, String, ◌≡◌, refl, ◌↔◌, ◌⊎◌, true, Option, none, some, arith}
use model_passport.Prelude.Outcome.{ok, >>=-eq-ok}
use model_passport.Platform.Models.{State, ModelVersion, Session}
use model_passport.Platform.Rbac.{role_grants, allowed}
use model_passport.Platform.Auditlog.{Hashing}
use model_passport.Platform.Lifecycle.{
  Needed, permission, system_only, transitions, Who, check, apply_move, move, check_needed,
}

-- The caller may take the step: it is in the table, and the platform makes it or the caller has
-- its permission (nobody but the platform makes the steps that workers make).
abbrev pub May : Who → Option Needed → Type 0
May who none = ⊥
May who (some system_only) = who.is_system ≡ true
May who (some (permission p)) =
    (who.is_system ≡ true) ⊎ (who.super_admin ≡ true) ⊎ (role_grants who.role p ≡ true)

check_needed_iff :
    (from to : State) (who : Who) (o : Option Needed)
    → (check_needed from to who o ≡ ok tt) ↔ May who o
unfolding check_needed allowed
check_needed_iff from to who none = (λ e. cc, λ m. absurd m)
check_needed_iff from to who (some system_only) = ground arith
check_needed_iff from to who (some (permission p)) = ground arith

module _ ⦃h : Hashing⦄ (s : Session) (version : ModelVersion) (to : State) (who : Who)
    (reason : String) where
  -- `move` succeeds exactly when the table has the step and the caller may take it. It then sets
  -- the state of the version, writes the row back and appends one event for the version's tenant
  -- that names the two states.
  pub move_iff :
      (result : ModelVersion × Session)
      → (move s version to who reason ≡ ok result)
        ↔ (May who (transitions version.state to) × (result ≡ apply_move s version to who reason))
  unfolding move check
  move_iff result = (
    λ e.
        let (u, passed, same) =
          >>=-eq-ok (check version to who) (λ _. ok (apply_move s version to who reason)) e in
        ((check_needed_iff version.state to who (transitions version.state to)).0 passed, cc),
    λ m.
        let passed = (check_needed_iff version.state to who (transitions version.state to)).1 m.0 in
        rw (passed, m.1),
  )

pub is_some-May : (who : Who) (o : Option Needed) → May who o → is_some o ≡ true
is_some-May who none m = absurd m
is_some-May who (some n) m = refl

pub check_iff :
    (version : ModelVersion) (to : State) (who : Who)
    → (check version to who ≡ ok tt) ↔ May who (transitions version.state to)
unfolding check
check_iff version to who = check_needed_iff version.state to who (transitions version.state to)
