-- ===== src/Platform/Jobs.antt =====
-- src/model_passport/platform/jobs.py: the queue of background jobs.
--
-- The row locks of PostgreSQL (`SKIP LOCKED`) keep transactions apart; here each operation is one
-- function of the session.
pub mod Attempts
pub mod Claims
use model_passport.Prelude.{
  ltb, leb, if◌then◌else◌, is_yes, any, update, concat, str_eq, ℕ, ◌+◌, String, Bool, ◌&&◌, Option,
  none, some, List, [], ◌∷◌, ◌++◌,
}
use model_passport.Prelude.Outcome.{Outcome, ok, ◌>>=◌, ◌>>◌, require}
use model_passport.Platform.Models.{
  JobStatus, queued, running, succeeded, failed, JobStatus-discrete, text, number, Details, Job,
  Session,
}
use model_passport.Platform.Auditlog.{Hashing, Actor, record_event}

abbrev pub kinds_known : List String
kinds_known = "train" ∷ "audit" ∷ "remediate" ∷ "report" ∷ []

pub data JobError : Type 0 where
  unknown_kind : String → JobError

-- `kind in kinds`
unfoldable pub kind_in : String → List String → Bool
unfolding any
kind_in kind kinds = any (λ k. str_eq kind k) kinds

abbrev is_queued : JobStatus → Bool
is_queued status = is_yes (JobStatus-discrete status queued)

-- The `where` of the query in `claim`.
unfoldable pub claimable : List String → Job → Bool
unfolding kind_in JobStatus-discrete
claimable kinds job = is_queued job.status && kind_in job.kind kinds

-- `order_by(Job.created_at).limit(1)` over the rows that pass; of two jobs of the same time the
-- one inserted first.
unfoldable pub oldest : (Job → Bool) → List Job → Option Job
oldest p [] = none
oldest p (j ∷ rest) =
    let found = oldest p rest in
    if p j
    then elim found [
      | none ↦ some j
      | some k ↦ some (if leb j.created_at k.created_at then j else k)
    ]
    else found

-- Write a changed row of `jobs` back.
unfoldable pub store_job : Session → Job → Session
store_job s job = record s { jobs = update (λ j. str_eq j.id job.id) (λ _. job) s.jobs }

-- `auditlog.Actor(None, f"worker:{worker}")`; the name of an unlocked job reads `None`.
abbrev pub worker_actor : Option String → Actor
worker_actor none = record { id = none; label = "worker:None" }
worker_actor (some worker) = record { id = none; label = concat "worker:" worker }

-- The row that `claim` writes.
unfoldable pub start_job : ℕ → String → Job → Job
start_job clock worker job = record job {
  status = running;
  attempts = job.attempts + 1;
  locked_by = some worker;
  started_at = some clock;
}

-- The row that `finish` writes.
unfoldable pub finish_job : ℕ → Details → Job → Job
finish_job clock result job = record job {
  status = succeeded;
  result = some result;
  error = none;
  finished_at = some clock;
}

-- `job.attempts < job.max_attempts`
unfoldable pub retries : Job → Bool
retries job = ltb job.attempts job.max_attempts

-- The row that `fail` writes. `error` is the message, already cut to 2000 characters.
unfoldable pub fail_job : ℕ → String → Job → Job
unfolding retries
fail_job clock error job = record job {
  status = if retries job then queued else failed;
  error = some error;
  finished_at = if retries job then none else some clock;
}

module _ ⦃h : Hashing⦄ where
  -- `id` is the new row's identifier.
  unfoldable pub enqueue :
      Session
      → (id tenant_id kind : String) → Details
      → Actor
      → (max_attempts : ℕ) → Outcome JobError (Job × Session)
  enqueue s id tenant_id kind payload actor max_attempts = do
    require (kind_in kind kinds_known) (unknown_kind kind)
    let job : Job = record {
      id = id;
      tenant_id = tenant_id;
      kind = kind;
      status = queued;
      payload = payload;
      result = none;
      error = none;
      attempts = 0;
      max_attempts = max_attempts;
      locked_by = none;
      created_by = actor.id;
      created_at = s.clock;
      started_at = none;
      finished_at = none;
    }
    ok (
      job,
      record_event (record s { jobs = s.jobs ++ job ∷ [] }) tenant_id actor "job.queued" "job" id
          (("kind", text kind) ∷ []),
    )

  unfoldable pub claim_job : Session → String → Job → Job × Session
  unfolding start_job store_job
  claim_job s worker job =
      let started = start_job s.clock worker job in
      (
        started,
        record_event (store_job s started) job.tenant_id (worker_actor (some worker)) "job.started"
            "job" job.id (("kind", text job.kind) ∷ ("attempt", number started.attempts) ∷ []),
      )

  -- The oldest queued job of these kinds, marked running; `none` when there is none.
  unfoldable pub claim : Session → String → List String → Option (Job × Session)
  unfolding claim_job
  claim s worker kinds = elim (oldest (claimable kinds) s.jobs) [
    | none ↦ none
    | some job ↦ some (claim_job s worker job)
  ]

  unfoldable pub finish : Session → Job → Details → Session
  unfolding finish_job store_job
  finish s job result =
      record_event (store_job s (finish_job s.clock result job)) job.tenant_id
        (worker_actor job.locked_by) "job.succeeded" "job" job.id (("kind", text job.kind) ∷ [])

  -- `detail` is the message cut to 200 characters, as the log holds it.
  unfoldable pub fail_with : Session → Job → (error detail : String) → Session
  unfolding fail_job store_job retries
  fail_with s job error detail =
      record_event (store_job s (fail_job s.clock error job)) job.tenant_id
        (worker_actor job.locked_by) (if retries job then "job.retrying" else "job.failed") "job"
        job.id
        (("kind", text job.kind) ∷ ("attempt", number job.attempts) ∷ ("error", text detail) ∷ [])
