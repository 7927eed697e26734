-- ===== src/Llm/Holdout.antt =====
-- src/model_passport/llm/entities.py: `split_holdout`, and what sanitizing leaves of it.
--
-- The hash of an id, its first four bytes as a number, is a parameter. So is
-- `int(fraction * 10_000)`, of the fraction in millionths; a fraction of 0 or less is 0.
use model_passport.Prelude.{
  ◌==◌, ltb, if◌then◌else◌, Bool-cases, ℕ, ◌%◌, ◌≡◌, refl, ap, ◌∙◌, sym, inl, inr, Bool, true,
  false, List, [], ◌∷◌, ◌≢◌,
}
use model_passport.Llm.Entities.{Text}
use model_passport.Llm.Sanitize.{
  Record, Sampler, Strategy, Targets, Shared, surrogate, masked, dropped, no_targets, rewrite,
  sanitize_all, sanitize,
}

abbrev pub ids : List Record → List Text
ids [] = []
ids (r ∷ records) = r.id ∷ ids records

module _ (hash : Text → ℕ) (scaled : ℕ → ℕ) where
  -- The side of an id, with `cut` of ten thousand buckets held out.
  unfoldable pub held_out : ℕ → Text → Bool
  held_out cut id = ltb (hash id % 10000) cut

  unfoldable pub split_at : ℕ → List Record → List Record × List Record
  unfolding held_out
  split_at cut [] = ([], [])
  split_at cut (r ∷ records) =
      let rest = split_at cut records in
      if held_out cut r.id then (rest.0, r ∷ rest.1) else (r ∷ rest.0, rest.1)

  unfoldable pub split_holdout : ℕ → List Record → List Record × List Record
  unfolding split_at
  split_holdout fraction records =
      if fraction == 0 then (records, []) else split_at (scaled fraction) records

  split_at-ids :
      (cut : ℕ) (rs ss : List Record)
      → ids rs ≡ ids ss
      → (ids (split_at cut rs).0 ≡ ids (split_at cut ss).0)
        × (ids (split_at cut rs).1 ≡ ids (split_at cut ss).1)
  unfolding split_at
  split_at-ids cut [] [] e = (refl, refl)
  split_at-ids cut [] (s ∷ ss) e = absurd (cc)
  split_at-ids cut (r ∷ rs) [] e = absurd (cc)
  split_at-ids cut (r ∷ rs) (s ∷ ss) e =
      let same : r.id ≡ s.id = cc in
      let (one, other) = split_at-ids cut rs ss (cc) in
      elim (Bool-cases (held_out cut r.id)) [
        | inl h ↦
            let h' : held_out cut s.id ≡ true = ap (held_out cut) (sym same) ∙ h in
            rw (h, h') (one, cc)
        | inr h ↦
            let h' : held_out cut s.id ≡ false = ap (held_out cut) (sym same) ∙ h in
            rw (h, h') (cc, other)
      ]

  split_holdout-ids :
      (fraction : ℕ) (rs ss : List Record)
      → ids rs ≡ ids ss
      → (ids (split_holdout fraction rs).0 ≡ ids (split_holdout fraction ss).0)
        × (ids (split_holdout fraction rs).1 ≡ ids (split_holdout fraction ss).1)
  unfolding split_holdout
  split_holdout-ids fraction rs ss e = elim (Bool-cases (fraction == 0)) [
    | inl h ↦ rw h (e, refl)
    | inr h ↦ rw h (split_at-ids (scaled fraction) rs ss e)
  ]

  sanitize_all-ids :
      (lib : Sampler) (strategy : Strategy) (targets : Record → Targets) (records : List Record)
      (state : Shared lib)
      → ids (sanitize_all lib strategy targets records state).0 ≡ ids records
  unfolding sanitize_all rewrite
  sanitize_all-ids lib strategy targets [] state = refl
  sanitize_all-ids lib strategy targets (r ∷ records) state =
      elim (Bool-cases (no_targets lib (targets r))) [
        | inl h ↦
            rw (sanitize_all, h)
              (ap (◌∷◌ r.id) (sanitize_all-ids lib strategy targets records state))
        | inr h ↦
            rw (sanitize_all, h) (ap (◌∷◌ r.id) (sanitize_all-ids lib strategy targets records _))
      ]

  -- A strategy that replaces leaves the split as it was: the ids that are trained on and those that
  -- are held out are the same of the sanitized records as of the records.
  pub split_holdout-sanitize :
      (lib : Sampler) (strategy : Strategy) (targets : Record → Targets) (records : List Record)
      (sampler : lib.State) (fraction : ℕ)
      → strategy ≢ dropped
      → (ids (split_holdout fraction (sanitize lib strategy targets records sampler).0).0
          ≡ ids (split_holdout fraction records).0)
        × (ids (split_holdout fraction (sanitize lib strategy targets records sampler).0).1
            ≡ ids (split_holdout fraction records).1)
  unfolding sanitize
  split_holdout-sanitize lib dropped targets records sampler fraction kept = absurd (kept refl)
  split_holdout-sanitize lib surrogate targets records sampler fraction kept =
      split_holdout-ids fraction _ records (sanitize_all-ids lib surrogate targets records _)
  split_holdout-sanitize lib masked targets records sampler fraction kept =
      split_holdout-ids fraction _ records (sanitize_all-ids lib masked targets records _)
