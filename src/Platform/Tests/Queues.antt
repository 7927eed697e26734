-- ===== src/Platform/Tests/Queues.antt =====
-- Runs of the queue.
use model_passport.Prelude.{
  any, update, All, str_eq, ◌+◌, ◌≤◌, ◌≡◌, refl, ◌≢◌, true, some, [], ◌∷◌, ◌++◌, arith,
}
use mathlib.Core.List.{Memᴰ}
use model_passport.Prelude.Outcome.{ok}
use model_passport.Platform.Models.{queued, running, Job, Session, text}
use model_passport.Platform.Auditlog.{record_event}
use model_passport.Platform.Jobs.{
  kind_in, claimable, oldest, store_job, start_job, enqueue, claim_job, claim, fail_with,
}
use model_passport.Platform.Jobs.Claims.{claim_oldest, claim_again}
use model_passport.Platform.Jobs.Attempts.{
  AllWithin, WithinAttempts, claim-Within, fail_with-Within,
}
use model_passport.Platform.Tests.Data.{toy, ann_actor, queued_job, two_jobs}

abbrev claimed : Job × Session
claimed = claim_job ⦃h = toy⦄ two_jobs "w" (queued_job "j1" 4)

abbrev claimed_next : Job × Session
claimed_next = claim_job ⦃h = toy⦄ claimed.1 "w2" (queued_job "j2" 5)

first_claim : claim ⦃h = toy⦄ two_jobs "w" ("audit" ∷ []) ≡ some (claimed.0, claimed.1)
unfolding claim oldest claimable kind_in any str_eq
first_claim = refl

second_claim : claim ⦃h = toy⦄ claimed.1 "w2" ("audit" ∷ []) ≡ some (claimed_next.0, claimed_next.1)
unfolding claim oldest claimable kind_in any str_eq claim_job store_job update start_job
    record_event
second_claim = refl

claim_oldest_example :
    (j : Job) × Memᴰ j two_jobs.jobs
    × (j.status ≡ queued)
    × (kind_in j.kind ("audit" ∷ []) ≡ true)
    × All (λ k. claimable ("audit" ∷ []) k ≡ true → j.created_at ≤ k.created_at) two_jobs.jobs
    × (claimed.0 ≡ record j {
      status = running;
      attempts = j.attempts + 1;
      locked_by = some "w";
      started_at = some 7;
    })
claim_oldest_example = claim_oldest ⦃h = toy⦄ two_jobs "w" ("audit" ∷ []) first_claim

claim_again_example : claimed_next.0.id ≢ claimed.0.id
claim_again_example =
    claim_again ⦃h = toy⦄ two_jobs "w" "w2" ("audit" ∷ []) ("audit" ∷ []) first_claim second_claim

two_jobs-Within : AllWithin two_jobs
two_jobs-Within = ((omega arith, λ _. omega arith), ((omega arith, λ _. omega arith), tt))

abbrev third : Job
third = record (queued_job "j3" 7) { kind = "train"; created_by = some "u1" }

abbrev three_jobs : Session
three_jobs =
    record_event ⦃h = toy⦄ (record two_jobs { jobs = two_jobs.jobs ++ third ∷ [] }) "t1" ann_actor
      "job.queued" "job" "j3" (("kind", text "train") ∷ [])

third_queued : enqueue ⦃h = toy⦄ two_jobs "j3" "t1" "train" [] ann_actor 3 ≡ ok (third, three_jobs)
unfolding enqueue kind_in any str_eq
third_queued = refl

claimed-Within_once : WithinAttempts claimed.0
unfolding claim_job start_job
claimed-Within_once = (omega arith, λ e. cc)

fail_with-Within_example : AllWithin (fail_with ⦃h = toy⦄ claimed.1 claimed.0 "crash" "trace")
fail_with-Within_example =
    fail_with-Within ⦃h = toy⦄ claimed.1 claimed.0 "crash" "trace" claimed-Within_once
      (claim-Within ⦃h = toy⦄ two_jobs "w" ("audit" ∷ []) two_jobs-Within first_claim)
