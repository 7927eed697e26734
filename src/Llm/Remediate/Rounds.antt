-- ===== src/Llm/Remediate/Rounds.antt =====
-- The loop of the remediation: where it stops, and why it raises.
use model_passport.Prelude.{
  Bool-cases, Option-cases, length, ℕ, zero, suc, String, ◌+◌, ◌≤◌, ◌<◌, ◌≡◌, refl, ap, ◌∙◌, ◌⊎◌,
  inl, inr, true, false, Option, none, some, List, [], ◌∷◌, arith,
}
use model_passport.Prelude.Outcome.{Outcome, ok, err, Outcome-cases}
use model_passport.Llm.Entities.{Text}
use model_passport.Llm.Versions.{bump_minor}
use model_passport.Llm.Sanitize.{Record, Sampler}
use model_passport.Llm.Remediate.{
  RemediationSettings, RemediationError, no_entity_audit, no_version_line, corpus_not_found,
  build_failed, unreadable_corpus, Project, AuditedPassport, Round, passes, round_of, load_corpus,
  set_version, whole_types_of, count_blocking, audited_round, sanitize_loaded, sanitize_round,
  remedy, rounds_from, remediate,
}

-- Where the rounds stop: the gate failed in every round before the last, and the last one passed
-- it, unless all the rounds were done.
abbrev pub Stopped : ℕ → List Round → Type 0
Stopped left [] = ⊥
Stopped left (r ∷ []) = (passes r ≡ true) ⊎ (left ≡ 0)
Stopped zero (r ∷ next ∷ rest) = ⊥
Stopped (suc left) (r ∷ next ∷ rest) = (passes r ≡ false) × Stopped left (next ∷ rest)

-- A copy of the training text is written in every round before the last.
abbrev pub Ended : ℕ → Project → List Round × Project → Type 0
Ended left project (rounds, final) =
    Stopped left rounds × (length final.history + 1 ≡ length project.history + length rounds)

Ended-cons :
    (left : ℕ) (before after : Project) (r : Round) (done : List Round × Project)
    → passes r ≡ false
    → length after.history ≡ suc (length before.history)
    → Ended left after done
    → Ended (suc left) before (r ∷ done.0, done.1)
Ended-cons left before after r ([], final) failed e (stopped, archived) = absurd stopped
Ended-cons left before after r (next ∷ rest, final) failed e (stopped, archived) =
    ((failed, stopped), omega (arith, archived, e))

-- Why a run that began at the round `attempt` with `left` rounds after it raises, and where: the
-- project `stopped` is as the run left it.
abbrev pub Raised :
    (ℕ → Project → Outcome String AuditedPassport)
    → ℕ
    → ℕ
    → Project
    → RemediationError × Project
    → Type 0
Raised build left attempt project (corpus_not_found, stopped) = ⊥
Raised build left attempt project (no_entity_audit, stopped) =
    (n : ℕ) × (attempt ≤ n)
    × (n ≤ attempt + left)
    × (passport : AuditedPassport) × (build n stopped ≡ ok passport)
    × (passport.entity_audit ≡ none)
Raised build left attempt project (build_failed raised, stopped) =
    (n : ℕ) × (attempt ≤ n) × (n ≤ attempt + left) × (build n stopped ≡ err raised)
Raised build left attempt project (unreadable_corpus, stopped) =
    (stopped.raw ≡ none) ⊎ (stopped.train ≡ none)
Raised build left attempt project (no_version_line, stopped) =
    (stopped.version_line ≡ false) × (length project.history < length stopped.history)

Raised-later :
    (build : ℕ → Project → Outcome String AuditedPassport) (left attempt : ℕ)
    (before after : Project) (e : RemediationError × Project)
    → length before.history ≤ length after.history
    → Raised build left (suc attempt) after e
    → Raised build (suc left) attempt before e
Raised-later build left attempt before after (corpus_not_found, stopped) le h = h
Raised-later build left attempt before after (no_entity_audit, stopped) le
      (n, low, high, passport, built, absent) =
    (n, omega (arith, low), omega (arith, high), passport, built, absent)
Raised-later build left attempt before after (build_failed raised, stopped) le
      (n, low, high, more) =
    (n, omega (arith, low), omega (arith, high), more)
Raised-later build left attempt before after (unreadable_corpus, stopped) le h = h
Raised-later build left attempt before after (no_version_line, stopped) le (no_line, more) =
    (no_line, omega (arith, le, more))

-- A new version line leaves the archive as it is, and where there is none, the project is left.
set_version-cases :
    (version : Text) (project : Project)
    → ((next : Project) × (set_version version project ≡ ok next)
        × (next.history ≡ project.history))
      ⊎ (set_version version project ≡ err (no_version_line, project))
        × (project.version_line ≡ false)
unfolding set_version
set_version-cases version project = elim (Bool-cases project.version_line) [
  | inl line ↦ inl (rw line (_, refl, refl))
  | inr line ↦ inr (rw (set_version, line) refl, line)
]

load_corpus-cases :
    (file : Option (List Record))
    → ((records : List Record) × (load_corpus file ≡ ok records))
      ⊎ (load_corpus file ≡ err unreadable_corpus) × (file ≡ none)
unfolding load_corpus
load_corpus-cases none = inr (refl, refl)
load_corpus-cases (some records) = inl (_, refl)

round_of-cases :
    (version : Text) (passport : AuditedPassport)
    → ((r : Round) × (round_of version passport ≡ ok r))
      ⊎ (round_of version passport ≡ err no_entity_audit) × (passport.entity_audit ≡ none)
unfolding round_of
round_of-cases version passport = elim (Option-cases passport.entity_audit) [
  | inl e ↦ inr (rw (round_of, e) refl, e)
  | inr (audit, e) ↦ inl (rw e (_, refl))
]

module _ (lib : Sampler) (fresh : List Record → lib.State)
    (build : ℕ → Project → Outcome String AuditedPassport) where
  audited_round-cases :
      (attempt : ℕ) (project : Project)
      → ((found : AuditedPassport × Round) × (audited_round lib fresh build attempt project
            ≡ ok found))
        ⊎ ((e : RemediationError) × (audited_round lib fresh build attempt project ≡ err e)
            × ((left : ℕ) → Raised build left attempt project (e, project)))
  unfolding audited_round
  audited_round-cases attempt project = elim (Outcome-cases (build attempt project)) [
    | inr (raised, e) ↦ inr (
      build_failed raised,
      rw (audited_round, e) refl,
      λ left. (attempt, omega arith, omega arith, e),
    )
    | inl (passport, e) ↦ elim (round_of-cases project.version passport) [
      | inl (r, e') ↦ inl ((passport, r), rw (audited_round, e, e') refl)
      | inr (e', absent) ↦ inr (
        no_entity_audit,
        rw (audited_round, e, e') refl,
        λ left. (attempt, omega arith, omega arith, passport, e, absent),
      )
    ]
  ]

  -- A turn writes one copy, and its round is as far from the gate as before.
  remedy-cases :
      (s : RemediationSettings) (passport : AuditedPassport) (previous : List Text) (r : Round)
      (project : Project)
      → ((fixed : Round × Project) × (remedy lib fresh build s passport previous r project
            ≡ ok fixed)
          × (passes fixed.0 ≡ passes r)
          × (length fixed.1.history ≡ suc (length project.history)))
        ⊎ (remedy lib fresh build s passport previous r project ≡ err unreadable_corpus)
          × ((project.raw ≡ none) ⊎ (project.train ≡ none))
  unfolding remedy sanitize_round sanitize_loaded passes count_blocking
  remedy-cases s passport previous r project = elim (load_corpus-cases project.raw) [
    | inr (e, gone) ↦ inr (rw (remedy, sanitize_round, e) refl, inl gone)
    | inl (raw, e) ↦ elim (load_corpus-cases project.train) [
      | inr (e', gone) ↦ inr (rw (remedy, sanitize_round, e, e') refl, inr gone)
      | inl (train, e') ↦
          let whole = whole_types_of s.type_auc_max previous r in
          let cleaned = sanitize_loaded lib fresh build s passport whole project raw train in
          inl (
            (record r { whole_types = whole; sanitized = cleaned.0 }, cleaned.1),
            rw (remedy, sanitize_round, e, e') refl,
            refl,
            refl,
          )
    ]
  ]

  abbrev Run : RemediationSettings → ℕ → ℕ → List Text → Project → Type 0
  Run s left attempt previous project =
      ((done : List Round × Project) × (rounds_from lib fresh build s left attempt previous project
          ≡ ok done)
        × Ended left project done)
      ⊎ ((e : RemediationError × Project) × (rounds_from lib fresh build s left attempt previous
              project
            ≡ err e)
          × Raised build left attempt project e)

  rounds_from-raised :
      (s : RemediationSettings) (left attempt : ℕ) (previous : List Text) (project : Project)
      (e : RemediationError)
      → audited_round lib fresh build attempt project ≡ err e
      → rounds_from lib fresh build s left attempt previous project ≡ err (e, project)
  unfolding rounds_from
  rounds_from-raised s zero attempt previous project e h = rw (rounds_from, h) refl
  rounds_from-raised s (suc left) attempt previous project e h = rw (rounds_from, h) refl

  -- The rounds after one that failed the gate.
  module _ (s : RemediationSettings) (left attempt : ℕ) (previous : List Text) (project : Project)
      {found : AuditedPassport × Round}
      (seen : audited_round lib fresh build attempt project ≡ ok found)
      (failed : passes found.1 ≡ false) where
    after_remedy :
        (fixed : Round × Project)
        → remedy lib fresh build s found.0 previous found.1 project ≡ ok fixed
        → passes fixed.0 ≡ false
        → length fixed.1.history ≡ suc (length project.history)
        → ((next : Project) → Run s left (suc attempt) found.1.risky_types next)
        → Run s (suc left) attempt previous project
    unfolding rounds_from
    after_remedy fixed e still archived later =
        elim (set_version-cases (bump_minor found.1.version) fixed.1) [
          | inr (e', no_line) ↦ inr (
            (no_version_line, fixed.1),
            rw (rounds_from, seen, failed, e, e') refl,
            (no_line, omega (arith, archived)),
          )
          | inl (next, e', same) ↦
              let kept = ap length same in
              elim (later next) [
                | inl (done, ran, ended) ↦ inl (
                  (fixed.0 ∷ done.0, done.1),
                  rw (rounds_from, seen, failed, e, e', ran) refl,
                  Ended-cons left project next fixed.0 done still (omega (arith, kept, archived))
                      ended,
                )
                | inr (raised, ran, why) ↦ inr (
                  raised,
                  rw (rounds_from, seen, failed, e, e', ran) refl,
                  Raised-later build left attempt project next raised
                      (omega (arith, kept, archived)) why,
                )
              ]
        ]

    failed_round :
        ((next : Project) → Run s left (suc attempt) found.1.risky_types next)
        → Run s (suc left) attempt previous project
    unfolding rounds_from
    failed_round later = elim (remedy-cases s found.0 previous found.1 project) [
      | inr (e, gone) ↦
          inr ((unreadable_corpus, project), rw (rounds_from, seen, failed, e) refl, gone)
      | inl (fixed, e, same, archived) ↦ after_remedy fixed e (same ∙ failed) archived later
    ]

  rounds_from-Run :
      (s : RemediationSettings) (left attempt : ℕ) (previous : List Text) (project : Project)
      → Run s left attempt previous project
  unfolding rounds_from
  rounds_from-Run s zero attempt previous project = elim (audited_round-cases attempt project) [
    | inr (e, h, why) ↦
        inr ((e, project), rounds_from-raised s 0 attempt previous project e h, why 0)
    | inl (found, h) ↦ inl ((found.1 ∷ [], project), rw (rounds_from, h) refl, (inr refl, refl))
  ]
  rounds_from-Run s (suc left) attempt previous project =
      elim (audited_round-cases attempt project) [
        | inr (e, h, why) ↦ inr (
          (e, project),
          rounds_from-raised s (suc left) attempt previous project e h,
          why (suc left),
        )
        | inl (found, h) ↦ elim (Bool-cases (passes found.1)) [
          | inl passed ↦
              inl ((found.1 ∷ [], project), rw (rounds_from, h, passed) refl, (inl passed, refl))
          | inr failed ↦
              failed_round s left attempt previous project h failed
                (λ next. rounds_from-Run s left (suc attempt) found.1.risky_types next)
        ]
      ]

  -- A remediation whose corpora are there always ends. Either it gives back rounds, of which every one
  -- before the last failed the gate and the last passed it, unless all `max_rounds + 1` were done,
  -- and every round but the last wrote a copy of the training text; or it raises, and then on the
  -- project as it was left one of the first `max_rounds + 1` builds raised or gave a passport without
  -- an entity audit, a corpus does not parse, or, after a copy was written, there is no version line.
  pub remediate-Ended :
      (s : RemediationSettings) (project : Project)
      → ((done : List Round × Project) × (remediate lib fresh build s true project ≡ ok done)
          × Ended s.max_rounds project done)
        ⊎ ((e : RemediationError × Project) × (remediate lib fresh build s true project ≡ err e)
            × Raised build s.max_rounds 0 project e)
  unfolding remediate
  remediate-Ended s project = rounds_from-Run s s.max_rounds 0 [] project
