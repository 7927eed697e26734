-- ===== src/Platform/Jobs/Claims.antt =====
-- Which job `claim` takes.
use model_passport.Prelude.{
  leb, if◌then◌else◌, Bool-cases, Option-cases, some-eq, All, All-update_split, All-Mem, str_eq,
  str_eq_iff, ◌+◌, ◌≤◌, String, ◌≡◌, refl, sym, ap, ◌∙◌, subst, ◌≢◌, ◌↔◌, inl, inr, Bool, true,
  false, Option, none, some, List, [], ◌∷◌, arith,
}
use mathlib.Core.List.{Memᴰ}
use model_passport.Platform.Models.{Job, queued, running, Session}
use model_passport.Platform.Auditlog.{Hashing, record_event}
use model_passport.Platform.Jobs.{
  oldest, kind_in, claimable, store_job, start_job, claim_job, claim,
}

module _ (p : Job → Bool) where
  -- No row that passes is older.
  abbrev pub NotOlder : Job → Job → Type 0
  NotOlder j k = p k ≡ true → j.created_at ≤ k.created_at

  pub oldest-none : (jobs : List Job) → oldest p jobs ≡ none → All (λ k. p k ≡ false) jobs
  unfolding oldest
  oldest-none [] e = tt
  oldest-none (k ∷ rest) e = elim (Option-cases (oldest p rest)) [
    | inl f ↦ (ground arith, oldest-none rest f)
    | inr (l, f) ↦ absurd (ground arith)
  ]

  later_All :
      (j l : Job) (rest : List Job)
      → j.created_at ≤ l.created_at
      → All (NotOlder l) rest
      → All (NotOlder j) rest
  later_All j l [] le all = tt
  later_All j l (k ∷ rest) le (h, all) = (λ e. omega (arith, h e), later_All j l rest le all)

  none_All : (j : Job) (rest : List Job) → All (λ k. p k ≡ false) rest → All (NotOlder j) rest
  none_All j [] all = tt
  none_All j (k ∷ rest) (h, all) = (λ e. absurd (cc), none_All j rest all)

  -- `j` is a row of the table that passes the test, and no row that passes is older.
  abbrev pub IsOldest {κ} : (Job → Type κ) → List Job → Job → Type κ
  IsOldest Q jobs j = Q j × (p j ≡ true) × All (NotOlder j) jobs

  pick-IsOldest {κ} :
      (Q : Job → Type κ) (k : Job) (rest : List Job) (j : Job)
      → Q k
      → p k ≡ true
      → (o : Option Job) → ((l : Job) → o ≡ some l → IsOldest Q rest l)
      → (o ≡ none → All (λ l. p l ≡ false) rest)
      → elim o [ none ↦ some k | some l ↦ some (if leb k.created_at l.created_at then k else l) ]
        ≡ some j
      → IsOldest Q (k ∷ rest) j
  pick-IsOldest Q k rest j q passes none ih empty e =
      subst (IsOldest Q (k ∷ rest)) (some-eq e)
        (q, passes, (λ _. omega arith, none_All k rest (empty refl)))
  pick-IsOldest Q k rest j q passes (some l) ih empty e =
      let (ql, pl, al) = ih l refl in
      elim (Bool-cases (leb k.created_at l.created_at)) [
        | inl older ↦
            subst (IsOldest Q (k ∷ rest)) (some-eq (rw older at e))
              (q, passes, (λ _. omega arith, later_All k l rest (ground arith) al))
        | inr later ↦
            subst (IsOldest Q (k ∷ rest)) (some-eq (rw later at e))
              (ql, pl, (λ _. ground arith, al))
      ]

  -- The row that `oldest` gives is in the table, passes the test, and no row that passes is older.
  pub oldest_sound {κ} :
      (Q : Job → Type κ) (jobs : List Job) (j : Job)
      → All Q jobs
      → oldest p jobs ≡ some j
      → IsOldest Q jobs j
  unfolding oldest
  oldest_sound Q [] j all e = absurd (cc)
  oldest_sound Q (k ∷ rest) j (q, all) e = elim (Bool-cases (p k)) [
    | inl passes ↦
        pick-IsOldest Q k rest j q passes (oldest p rest) (λ l f. oldest_sound Q rest l all f)
          (oldest-none rest) (rw passes at e)
    | inr fails ↦
        let (qj, pj, aj) = oldest_sound Q rest j all (rw fails at e) in
        (qj, pj, (λ f. absurd (cc), aj))
  ]

claimable_queued : (kinds : List String) (j : Job) → claimable kinds j ≡ true → j.status ≡ queued
unfolding claimable
claimable_queued kinds j e = ground arith

module _ ⦃h : Hashing⦄ where
  claim_split :
      (s : Session) (worker : String) (kinds : List String) {job : Job} {t : Session}
      → claim s worker kinds ≡ some (job, t)
      → (j : Job) × (oldest (claimable kinds) s.jobs ≡ some j) × (claim_job s worker j ≡ (job, t))
  unfolding claim
  claim_split s worker kinds e = elim (Option-cases (oldest (claimable kinds) s.jobs)) [
    | inl f ↦ absurd (let e' = rw (f, claim) at e in cc)
    | inr (j, f) ↦ (j, f, some-eq (rw (f, claim) at e))
  ]

  -- The job that `claim` returns is a row of the table that was queued, of one of the asked kinds,
  -- and no older than any other such row; it comes back running, locked by the worker, with one
  -- attempt more.
  pub claim_oldest :
      (s : Session) (worker : String) (kinds : List String) {job : Job} {t : Session}
      → claim s worker kinds ≡ some (job, t)
      → (j : Job) × Memᴰ j s.jobs
        × (j.status ≡ queued)
        × (kind_in j.kind kinds ≡ true)
        × All (λ k. claimable kinds k ≡ true → j.created_at ≤ k.created_at) s.jobs
        × (job ≡ record j {
          status = running;
          attempts = j.attempts + 1;
          locked_by = some worker;
          started_at = some s.clock;
        })
  unfolding claim_job start_job claimable
  claim_oldest s worker kinds e =
      let (j, found, same) = claim_split s worker kinds e in
      let (m, passes, all) =
        oldest_sound (claimable kinds) (λ k. Memᴰ k s.jobs) s.jobs j (All-Mem s.jobs) found in
      (j, m, ground arith, ground arith, all, sym (ap (λ (r : Job × Session). r.0) same))

  -- `claim` comes back empty exactly when no job is queued of the asked kinds.
  claim-none :
      (s : Session) (worker : String) (kinds : List String)
      → (claim s worker kinds ≡ none) ↔ All (λ k. claimable kinds k ≡ false) s.jobs
  unfolding claim
  claim-none s worker kinds = elim (Option-cases (oldest (claimable kinds) s.jobs)) [
    | inl f ↦ (λ e. oldest-none (claimable kinds) s.jobs f, λ all. rw (f, claim))
    | inr (j, f) ↦ (
      λ e. absurd (let e' = rw (f, claim) at e in cc),
      λ all. absurd (
          let (no_match, passes, _) =
            oldest_sound (claimable kinds) (λ k. claimable kinds k ≡ false) s.jobs j all f in
          cc),
    )
  ]

  abbrev RunningAs : Job → Job → Type 0
  RunningAs job k = str_eq k.id job.id ≡ true → k.status ≡ running

  claim-RunningAs :
      (s : Session) (worker : String) (j : Job)
      → All (RunningAs (claim_job s worker j).0) (claim_job s worker j).1.jobs
  unfolding claim_job store_job record_event start_job
  claim-RunningAs s worker j =
      All-update_split _ _ _ s.jobs (λ k _ _. refl) (λ k differs same. absurd (cc))

  -- A job that `claim` returned is not returned by the next `claim`, whichever worker makes it and
  -- for whichever kinds: its identifier is another.
  pub claim_again :
      (s : Session) (worker other : String) (kinds asked : List String) {job second : Job}
      {t u : Session}
      → claim s worker kinds ≡ some (job, t)
      → claim t other asked ≡ some (second, u)
      → second.id ≢ job.id
  claim_again s worker other kinds asked {job = job} {second = second} {t = t} e f same =
      let (j, _, first_claim) = claim_split s worker kinds e in
      let (k, found, second_claim) = claim_split t other asked f in
      let all =
        subst (λ (r : Job × Session). All (RunningAs r.0) r.1.jobs) first_claim
          (claim-RunningAs s worker j) in
      let (run, passes, _) = oldest_sound (claimable asked) (RunningAs job) t.jobs k all found in
      let id_kept : k.id ≡ second.id =
        unfold claim_job start_job in ap (λ (r : Job × Session). r.0.id) second_claim in
      let status = run ((str_eq_iff k.id job.id).1 (id_kept ∙ same)) in
      let was_queued = claimable_queued asked k passes in cc
