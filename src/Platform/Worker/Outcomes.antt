-- ===== src/Platform/Worker/Outcomes.antt =====
-- What the steps of a worker leave behind.
use model_passport.Prelude.{
  ltb, if◌then◌else◌, Bool-cases, is_yes, is_some, concat, str_eq, ℕ, ◌+◌, String, ◌≡◌, refl, sym,
  ap, ◌∙◌, subst, ◌⊎◌, inl, inr, Bool, true, false, ◌||◌, Option, none, some, arith,
}
use model_passport.Prelude.Outcome.{Outcome, ok, err, >>=-eq-ok, ok-eq}
use model_passport.Core.Schema.{Verdict, pass, warn, fail, Verdict-discrete, EntityAuditResult}
use model_passport.Policy.Engine.{PolicyResult}
use model_passport.Platform.Models.{findings, clean, ModelVersion, Job, Session, State}
use model_passport.Platform.Auditlog.{Hashing}
use model_passport.Platform.Lifecycle.{
  move, Needed, permission, system_only, transitions, apply_move,
}
use model_passport.Platform.Lifecycle.Moves.{move_iff, May}
use model_passport.Platform.Gate.{check_audit, blocking}
use model_passport.Platform.Api.{verdict_is_fail, has_blocking}
use model_passport.Platform.Worker.{
  Machinery, worker_who, or_message, version_for, count_of, verdict_text, audited, target_of,
  attest, complete_audit, move_back,
}

or_message-ok :
    {E A : Type 0} (message : String) (run : Outcome E A) {a : A}
    → or_message message run ≡ ok a
    → run ≡ ok a
or_message-ok message (ok b) e = ap ok (ok-eq e)
or_message-ok message (err x) e = absurd (cc)

-- The state that an audit leads to agrees with what blocks an approval.
abbrev pub Agrees : ModelVersion → Type 0
Agrees version =
    ((version.state ≡ clean) × (has_blocking version ≡ false))
    ⊎ ((version.state ≡ findings) × (has_blocking version ≡ true))

verdict_text-fail :
    (v : Verdict) → verdict_is_fail (some (verdict_text v)) ≡ is_yes (Verdict-discrete v fail)
unfolding verdict_is_fail verdict_text str_eq Verdict-discrete
verdict_text-fail pass = refl
verdict_text-fail warn = refl
verdict_text-fail fail = refl

sum_test : (b : Bool) (m n : ℕ) → (b || ltb 0 m || ltb 0 n) ≡ (b || ltb 0 (m + n))
sum_test b m n = ground arith

has_blocking-target_of :
    (version : ModelVersion) (result : EntityAuditResult) (verdict : PolicyResult)
    → has_blocking (audited version result verdict.verdict) ≡ (
        blocking verdict
        || ltb 0 (
            (audited version result verdict.verdict).critical
            + (audited version result verdict.verdict).high))
unfolding has_blocking audited blocking
has_blocking-target_of version result verdict = rw (verdict_text-fail verdict.verdict) (
    sum_test (is_yes (Verdict-discrete verdict.verdict fail)) (count_of "critical" result)
      (count_of "high" result))

agreed :
    (version row : ModelVersion) (b : Bool)
    → has_blocking version ≡ b
    → has_blocking row ≡ has_blocking version
    → row.state ≡ (if b then findings else clean)
    → Agrees row
agreed version row true e same state = inr (state, same ∙ e)
agreed version row false e same state = inl (state, same ∙ e)

module _ (m : Machinery) ⦃h : Hashing⦄ where
  -- A completed audit leaves the version either in `clean`, with a verdict other than `fail` and no
  -- critical and no high finding, or in `findings`, with one of these.
  pub complete_audit-Agrees :
      (s : Session) (job : Job) (result : EntityAuditResult) {version : ModelVersion} {t : Session}
      → complete_audit m s job result ≡ ok (version, t)
      → Agrees version
  unfolding complete_audit attest has_blocking apply_move target_of
  complete_audit-Agrees s job result e =
      let (version, found, e1) = >>=-eq-ok (version_for s job) _ e in
      let (verdict, judged, e2) =
        >>=-eq-ok (or_message "PolicyError" (check_audit m.round4 result)) _ e1 in
      let row = audited version result verdict.verdict in
      let (moved, run, e3) =
        >>=-eq-ok
          (or_message "TransitionError" (
            move s row (target_of row verdict) worker_who
              (concat "gate verdict " (verdict_text verdict.verdict))))
          _ e2 in
      let (digest, _, e4) = >>=-eq-ok (m.attestation moved.1 moved.0) _ e3 in
      let (_, same) =
        (move_iff s row (target_of row verdict) worker_who
            (concat "gate verdict " (verdict_text verdict.verdict)) moved).0
          (or_message-ok "TransitionError" _ run) in
      subst (λ (r : ModelVersion × Session). Agrees r.0) (ok-eq e4)
        (subst
          (λ (r : ModelVersion × Session). Agrees (record r.0 { attestation_sha256 = some digest }))
          (sym same)
          (agreed row
            (record row { state = target_of row verdict; attestation_sha256 = some digest })
            (blocking verdict || ltb 0 (row.critical + row.high))
            (has_blocking-target_of version result verdict) refl refl))

module _ ⦃h : Hashing⦄ where
  worker-May : (o : Option Needed) → is_some o ≡ true → May worker_who o
  worker-May none e = absurd (cc)
  worker-May (some system_only) e = refl
  worker-May (some (permission p)) e = inl refl

  -- The recovery of a version for which the table has the step succeeds and moves it; a version
  -- for which it has none stays as it is.
  move_back-move :
      (s : Session) (job : Job) (version : ModelVersion) (target : State)
      → ((is_some (transitions version.state target) ≡ true)
          × (move_back s job version target
              ≡ ok (apply_move s version target worker_who (concat job.kind " job failed")).1))
        ⊎ ((is_some (transitions version.state target) ≡ false)
            × (move_back s job version target ≡ ok s))
  unfolding move_back
  move_back-move s job version target =
      elim (Bool-cases (is_some (transitions version.state target))) [
        | inr e ↦ inr (e, rw (move_back, e) refl)
        | inl e ↦ inl (
          e,
          rw
              (
                move_back,
                e,
                (move_iff s version target worker_who (concat job.kind " job failed") _).1
                    (worker-May (transitions version.state target) e, refl),
              )
              refl,
        )
      ]
