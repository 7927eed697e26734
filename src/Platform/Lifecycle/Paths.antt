-- ===== src/Platform/Lifecycle/Paths.antt =====
-- Which histories the lifecycle allows. A history is the list of the states of one version, the
-- newest first.
use model_passport.Prelude.{
  is_some, keep, ◌≡◌, refl, ap, subst, ◌≢◌, ◌↔◌, ◌⊎◌, true, Option, none, some, List, [], ◌∷◌,
  arith, inl, inr,
}
use model_passport.Platform.Models.{
  Role, org_admin, State, registered, auditing, findings, clean, superseded, canary, verifying,
  approved, released, rolled_back, rejected, killed,
}
use model_passport.Platform.Rbac.{approvals_decide, dev_endpoints, grants}
use model_passport.Platform.Lifecycle.{Needed, permission, system_only, transitions, next_states}

-- A state from which no step leads away.
abbrev pub IsFinal : State → Type 0
IsFinal s = (s ≡ superseded) ⊎ (s ≡ rolled_back) ⊎ (s ≡ rejected) ⊎ (s ≡ killed)

-- No step leads away from `superseded`, `rolled_back`, `rejected` and `killed`, and some step
-- leads away from every other state.
pub next_states-IsFinal : (s : State) → (next_states s ≡ []) ↔ IsFinal s
unfolding next_states keep transitions
next_states-IsFinal registered = ground arith
next_states-IsFinal _ = ground arith

-- A history that begins with `registered` and whose steps the condition `Ok` accepts.
abbrev pub IsHistory : (State → State → Type 0) → List State → Type 0
IsHistory Ok [] = ⊥
IsHistory Ok (s ∷ []) = s ≡ registered
IsHistory Ok (t ∷ s ∷ rest) = Ok s t × IsHistory Ok (s ∷ rest)

-- The step is in the table.
abbrev pub IsStep : State → State → Type 0
IsStep s t = is_some (transitions s t) ≡ true

-- A person of this role, not a super admin, may take the step.
abbrev pub ByRole : Role → Option Needed → Type 0
ByRole role none = ⊥
ByRole role (some system_only) = ⊥
ByRole role (some (permission p)) = grants role p ≡ true

-- The states that worker.py moves versions to, whatever step of the table leads there: `_train`,
-- `_audit`, `_remediate` and `_recover` do, and `check` asks workers for no permission.
abbrev pub IsWorkerTarget : State → Type 0
IsWorkerTarget t =
    (t ≡ auditing) ⊎ (t ≡ findings) ⊎ (t ≡ clean) ⊎ (t ≡ superseded) ⊎ (t ≡ registered)

-- A person of the role takes the step, or a worker does.
abbrev pub RoleStep : Role → State → State → Type 0
RoleStep role s t = ByRole role (transitions s t) ⊎ (IsStep s t × IsWorkerTarget t)

into_released : (s : State) → IsStep s released → s ≡ approved
unfolding transitions
into_released registered e = ground arith
into_released _ e = ground arith

pub into_approved : (s : State) → IsStep s approved → s ≡ verifying
unfolding transitions
into_approved registered e = ground arith
into_approved _ e = ground arith

into_verifying : (s : State) → IsStep s verifying → s ≡ canary
unfolding transitions
into_verifying registered e = ground arith
into_verifying _ e = ground arith

into_canary : (s : State) → IsStep s canary → s ≡ clean
unfolding transitions
into_canary registered e = ground arith
into_canary _ e = ground arith

into_clean : (s : State) → IsStep s clean → s ≡ auditing
unfolding transitions
into_clean registered e = ground arith
into_clean _ e = ground arith

-- One step back in a history from a state that has a single way in.
IsStep-back :
    (t s : State)
    → t ≢ registered
    → ((from : State) → IsStep from t → from ≡ s)
    → (rest : List State) → IsHistory IsStep (t ∷ rest)
    → (older : List State) × (rest ≡ s ∷ older) × IsHistory IsStep (s ∷ older)
IsStep-back t s new only [] h = absurd (new h)
IsStep-back t s new only (u ∷ older) (step, h) =
    let e = only u step in
    (older, ap (λ v. v ∷ older) e, subst (λ v. IsHistory IsStep (v ∷ older)) e h)

-- However a version came to be released, it went through an audit to `clean`, from there to
-- `canary`, `verifying` and `approved`, with no other state between these, and was then released.
pub released_history :
    (rest : List State)
    → IsHistory IsStep (released ∷ rest)
    → (older : List State) × (rest ≡ approved ∷ verifying ∷ canary ∷ clean ∷ auditing ∷ older)
released_history rest h =
    let (a, e, ha) = IsStep-back released approved (λ x. cc) into_released rest h in
    let (b, f, hb) = IsStep-back approved verifying (λ x. cc) into_approved a ha in
    let (c, g, hc) = IsStep-back verifying canary (λ x. cc) into_verifying b hb in
    let (d, i, hd) = IsStep-back canary clean (λ x. cc) into_canary c hc in
    let (older, j, _) = IsStep-back clean auditing (λ x. cc) into_clean d hd in (older, cc)

is_some_of_ByRole : (role : Role) (o : Option Needed) → ByRole role o → is_some o ≡ true
is_some_of_ByRole role none h = absurd h
is_some_of_ByRole role (some n) h = refl

RoleStep-IsStep : (role : Role) (s t : State) → RoleStep role s t → IsStep s t
RoleStep-IsStep role s t (inl h) = is_some_of_ByRole role (transitions s t) h
RoleStep-IsStep role s t (inr (step, _)) = step

steps_of_role : (role : Role) (l : List State) → IsHistory (RoleStep role) l → IsHistory IsStep l
steps_of_role role [] h = h
steps_of_role role (s ∷ []) h = h
steps_of_role role (t ∷ s ∷ rest) (step, h) =
    (RoleStep-IsStep role s t step, steps_of_role role (s ∷ rest) h)

approver_no_engineer :
    (role : Role) → grants role approvals_decide ≡ true → grants role dev_endpoints ≡ true → ⊥
unfolding grants
approver_no_engineer org_admin a d = cc
approver_no_engineer _ a d = cc

-- No worker moves a version on the way to a release, where a person has to.
by_person :
    (role : Role) (s t : State)
    → ¬ IsWorkerTarget t
    → RoleStep role s t
    → ByRole role (transitions s t)
by_person role s t no_worker (inl h) = h
by_person role s t no_worker (inr (_, target)) = absurd (no_worker target)

-- People of a single role who are not super admins, together with the workers, which may take any
-- step of the table into a state that worker.py moves versions to, cannot bring a version from
-- `registered` to `released`: whatever the role, no history of such steps ends there.
pub release_needs_two_roles :
    (role : Role) (rest : List State) → ¬ IsHistory (RoleStep role) (released ∷ rest)
unfolding transitions
release_needs_two_roles role rest h =
    let (older, e) = released_history rest (steps_of_role role (released ∷ rest) h) in
    let h' = subst (λ r. IsHistory (RoleStep role) (released ∷ r)) e h in
    approver_no_engineer role (by_person role verifying approved (λ t. ground arith) h'.1.0)
      (by_person role clean canary (λ t. ground arith) h'.1.1.1.0)
