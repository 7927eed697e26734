-- ===== src/Guard/Protected.antt =====
-- A request that is protected by placeholders is restored to what it was.
use model_passport.Prelude.{
  length, keep, All, All-map, ℕ, zero, ◌≤◌, ◌≡◌, refl, sym, ap, ◌∙◌, subst, ◌⊎◌, inl, inr, none,
  some, List, [], ◌∷◌, ◌++◌, arith,
}
use model_passport.Prelude.Outcome.{ok}
use model_passport.Llm.Entities.{Text, Span, from_index, slice}
use model_passport.Llm.Entities.Apart.{IsSpan, IsOrdered}
use model_passport.Guard.Policy.{mask, allow, Policy, for_request}
use model_passport.Guard.Vault.{Decimals, Vault, value_of_token, placeholder, restore_from, restore}
use model_passport.Guard.Tokens.{IsKind}
use model_passport.Guard.Placed.{IsVault, placeholder-Placed}
use model_passport.Guard.Restored.{
  IsPlain, join_right, slice-from_index, from_index-IsPlain, slice-IsPlain, plain_kept, plain_whole,
  token_restored,
}
use model_passport.Guard.Engine.{
  Report, Guard, blocked_types, protected_value, protect_from, protect,
}

-- The value of the span is masked, and its type is one that `PLACEHOLDER` matches, or it is let
-- through.
abbrev pub IsReversible : Policy → Span → Type 0
IsReversible policy s =
    ((for_request policy s.entity_type ≡ mask) × IsKind s.entity_type)
    ⊎ (for_request policy s.entity_type ≡ allow)

-- What one vault knows, another does.
abbrev Extends : Vault → Vault → Type 0
Extends old next =
    (t v : Text) → value_of_token t old.values ≡ some v → value_of_token t next.values ≡ some v

module _ (lib : Decimals) (policy : Policy) (text : Text) where
  abbrev IsRestored : ℕ → Vault → Text × (Vault × Report) → Type 0
  IsRestored last vault (out, (next, report)) =
      Extends vault next
      × IsVault next
      × ((known : Vault)
          → Extends next known
          → restore_from lib none known zero out ≡ from_index last text)

  -- One span, whatever was put for it, if the rest is restored.
  step_restored :
      (last : ℕ) (span : Span) (shown rest : Text) (known : Vault)
      → IsPlain text
      → last ≤ span.start
      → span.start ≤ span.end
      → ((more : Text)
          → restore_from lib none known zero (shown ++ more)
            ≡ slice span.start span.end text ++ restore_from lib none known zero more)
      → restore_from lib none known zero rest ≡ from_index span.end text
      → restore_from lib none known zero (slice last span.start text ++ shown ++ rest)
        ≡ from_index last text
  step_restored last span shown rest known plain before inside stands later =
      ap (restore_from lib none known zero) (join_right (slice last span.start text) shown rest)
      ∙ plain_kept lib known (slice last span.start text) (shown ++ rest)
          (slice-IsPlain last span.start text plain)
      ∙ ap (λ t. slice last span.start text ++ t)
          (stands rest
            ∙ ap (λ t. slice span.start span.end text ++ t) later
            ∙ slice-from_index span.start span.end text inside)
      ∙ slice-from_index last span.start text before

  protect_from-IsRestored :
      (last : ℕ) (spans : List Span) (vault : Vault) (report : Report)
      → IsPlain text
      → All (λ s. last ≤ s.start) spans
      → IsOrdered spans
      → All (IsSpan (length text)) spans
      → All (IsReversible policy) spans
      → IsVault vault
      → IsRestored last vault (protect_from policy text last spans (vault, report))
  unfolding protect_from protected_value
  protect_from-IsRestored last [] vault report plain before ordered all reversible good = (
    λ t v h. h,
    good,
    λ known more. plain_whole lib known (from_index last text) (from_index-IsPlain last text plain),
  )
  protect_from-IsRestored last (s ∷ spans) vault report plain (le, _) (after, ordered)
        ((pos_span, _), all) (inl (masks, k), reversible) good =
      let value = slice s.start s.end text in
      let p = placeholder s.entity_type value vault in
      let (good', stands, (kind, n, k', made), old) =
        placeholder-Placed s.entity_type value vault k good in
      let (more_kept, good_after, later) =
        protect_from-IsRestored s.end spans p.1
          (record report { masked = s.entity_type ∷ report.masked }) plain after ordered all
          reversible good' in
      rw (protect_from, masks)
        (
          λ t v h. more_kept t v (old t v h),
          good_after,
          λ known more.
              step_restored last s p.0 _ known plain le (omega (arith, pos_span))
                (λ rest.
                  subst
                    (λ tok.
                      restore_from lib none known zero (tok ++ rest)
                      ≡ value ++ restore_from lib none known zero rest)
                    (sym made)
                    (token_restored lib known kind rest n k' (
                      subst (λ tok. value_of_token tok known.values ≡ some value) made
                        (more p.0 value (more_kept p.0 value stands)))))
                (later known more),
        )
  protect_from-IsRestored last (s ∷ spans) vault report plain (le, _) (after, ordered)
        ((pos_span, _), all) (inr allows, reversible) good =
      let (more_kept, good_after, later) =
        protect_from-IsRestored s.end spans vault report plain after ordered all reversible good in
      rw (protect_from, allows)
        (
          more_kept,
          good_after,
          λ known more.
              step_restored last s (slice s.start s.end text) _ known plain le
                (omega (arith, pos_span))
                (λ rest.
                  plain_kept lib known (slice s.start s.end text) rest
                    (slice-IsPlain s.start s.end text plain))
                (later known more),
        )

none_blocked :
    (policy : Policy) (spans : List Span)
    → All (IsReversible policy) spans
    → blocked_types (λ s. for_request policy s.entity_type) spans ≡ []
unfolding blocked_types keep
none_blocked policy [] all = refl
none_blocked policy (s ∷ spans) (inl (masks, _), all) = rw (masks) (none_blocked policy spans all)
none_blocked policy (s ∷ spans) (inr allows, all) = rw (allows) (none_blocked policy spans all)

-- The request is not blocked, restoring what the model may see gives the text back, with the vault
-- that the request leaves, and that vault is as good as the one before, where: the spans that the
-- detector finds are inside the text and in order; the policy masks or lets through each of them, and
-- the type of each that it masks is a capital letter and then capitals and digits, as those of the
-- built-in detectors are and as `PLACEHOLDER` expects (a type like EMAIL_ADDRESS of another detector
-- is not: see `underscore_lost`); the text has no `[`; and the vault holds only placeholders that it
-- made for such types, as the empty one does.
pub restore-protect :
    (lib : Decimals) (guard : Guard) (text : Text) (vault : Vault) (report : Report)
    → IsOrdered (guard.find text)
    → All (IsSpan (length text)) (guard.find text)
    → All (IsReversible guard.policy) (guard.find text)
    → IsPlain text
    → IsVault vault
    → (shown : Text) × (next : Vault) × (done : Report) × (protect guard text vault report
        ≡ ok (shown, (next, done)))
      × IsVault next
      × (restore lib none next shown ≡ text)
unfolding protect restore from_index blocked_types
restore-protect lib guard text vault report ordered all reversible plain good =
    let (_, good_after, restored) =
      protect_from-IsRestored lib guard.policy text 0 (guard.find text) vault report plain
        (All-map _ _ (guard.find text) (λ s _. omega arith) all) ordered all reversible good in
    (
      (protect_from guard.policy text 0 (guard.find text) (vault, report)).0,
      (protect_from guard.policy text 0 (guard.find text) (vault, report)).1.0,
      (protect_from guard.policy text 0 (guard.find text) (vault, report)).1.1,
      rw (protect, none_blocked guard.policy (guard.find text) reversible) refl,
      good_after,
      restored (protect_from guard.policy text 0 (guard.find text) (vault, report)).1.0
          (λ t v h. h),
    )
