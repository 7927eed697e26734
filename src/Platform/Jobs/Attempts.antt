-- ===== src/Platform/Jobs/Attempts.antt =====
-- How often a job runs.
use model_passport.Prelude.{
  Bool-cases, Option-cases, some-eq, All, All-append, All-update, ℕ, ◌≤◌, ◌<◌, String, ◌≡◌, subst,
  inl, inr, true, some, List, arith,
}
use model_passport.Prelude.Outcome.{ok, ok-eq}
use model_passport.Platform.Models.{queued, Details, Job, Session}
use model_passport.Platform.Auditlog.{Hashing, Actor, record_event}
use model_passport.Platform.Jobs.Claims.{oldest_sound}
use model_passport.Platform.Jobs.{
  claimable, store_job, start_job, finish_job, retries, fail_job, enqueue, claim_job, claim,
  kinds_known, kind_in, oldest, finish, fail_with,
}

-- A queued job has an attempt left, and no job has had more than its share.
abbrev pub WithinAttempts : Job → Type 0
WithinAttempts job =
    (job.attempts ≤ job.max_attempts) × (job.status ≡ queued → job.attempts < job.max_attempts)

abbrev pub AllWithin : Session → Type 0
AllWithin s = All WithinAttempts s.jobs

queued_of_claimable :
    (kinds : List String) (job : Job) → claimable kinds job ≡ true → job.status ≡ queued
unfolding claimable
queued_of_claimable kinds job h = ground arith

start_job-Within :
    (clock : ℕ) (worker : String) (job : Job)
    → WithinAttempts job
    → job.status ≡ queued
    → WithinAttempts (start_job clock worker job)
unfolding start_job
start_job-Within clock worker job (a, b) q = (omega (arith, b q), λ e. cc)

finish_job-Within :
    (clock : ℕ) (result : Details) (job : Job)
    → WithinAttempts job
    → WithinAttempts (finish_job clock result job)
unfolding finish_job
finish_job-Within clock result job (a, b) = (a, λ e. cc)

fail_job-Within :
    (clock : ℕ) (error : String) (job : Job)
    → WithinAttempts job
    → WithinAttempts (fail_job clock error job)
unfolding fail_job retries
fail_job-Within clock error job (a, b) = (a, λ e. ground arith)

store_job-Within :
    (s : Session) (job : Job) → WithinAttempts job → AllWithin s → AllWithin (store_job s job)
unfolding store_job
store_job-Within s job w all = All-update _ _ _ s.jobs (λ _ _. w) all

module _ ⦃h : Hashing⦄ where
  -- Queueing a job with at least one attempt keeps every job within its attempts.
  enqueue-Within :
      (s : Session) (id tenant_id kind : String) (payload : Details) (actor : Actor)
      (max_attempts : ℕ) {job : Job} {t : Session}
      → 0 < max_attempts
      → AllWithin s
      → enqueue s id tenant_id kind payload actor max_attempts ≡ ok (job, t)
      → AllWithin t
  unfolding enqueue record_event
  enqueue-Within s id tenant_id kind payload actor max_attempts {t = t} pos all e =
      elim (Bool-cases (kind_in kind kinds_known)) [
        | inl known ↦
            subst (λ (r : Job × Session). AllWithin r.1) (ok-eq (rw known at e))
              (All-append WithinAttempts s.jobs _ all ((omega arith, λ _. pos), tt))
        | inr unknown ↦ absurd (let e' = rw unknown at e in cc)
      ]

  claimed-Within :
      (s : Session) (worker : String) (kinds : List String) (j : Job)
      → AllWithin s
      → oldest (claimable kinds) s.jobs ≡ some j
      → AllWithin (claim_job s worker j).1
  unfolding claim_job record_event
  claimed-Within s worker kinds j all found =
      let (w, passes, _) = oldest_sound (claimable kinds) WithinAttempts s.jobs j all found in
      store_job-Within s _
        (start_job-Within s.clock worker j w (queued_of_claimable kinds j passes)) all

  -- Claiming a job keeps every job within its attempts.
  pub claim-Within :
      (s : Session) (worker : String) (kinds : List String) {job : Job} {t : Session}
      → AllWithin s
      → claim s worker kinds ≡ some (job, t)
      → AllWithin t
  unfolding claim
  claim-Within s worker kinds all e = elim (Option-cases (oldest (claimable kinds) s.jobs)) [
    | inl f ↦ absurd (let e' = rw (f, claim) at e in cc)
    | inr (j, f) ↦
        subst (λ (r : Job × Session). AllWithin r.1) (some-eq (rw (f, claim) at e))
          (claimed-Within s worker kinds j all f)
  ]

  -- Finishing a job that is within its attempts keeps every job so.
  finish-Within :
      (s : Session) (job : Job) (result : Details)
      → WithinAttempts job
      → AllWithin s
      → AllWithin (finish s job result)
  unfolding finish record_event
  finish-Within s job result w all =
      store_job-Within s _ (finish_job-Within s.clock result job w) all

  -- Failing a job that is within its attempts, for another try or for good, keeps every job so: a
  -- job that goes back to the queue has an attempt left.
  pub fail_with-Within :
      (s : Session) (job : Job) (error detail : String)
      → WithinAttempts job
      → AllWithin s
      → AllWithin (fail_with s job error detail)
  unfolding fail_with record_event
  fail_with-Within s job error detail w all =
      store_job-Within s _ (fail_job-Within s.clock error job w) all
