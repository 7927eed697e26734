-- ===== src/Guard/Engine.antt =====
-- src/model_passport/guard/engine.py: requests are protected and replies are reviewed.
use model_passport.Prelude.{
  if◌then◌else◌, keep, ℕ, Bool, true, false, not, Option, List, [], ◌∷◌, ◌++◌, map,
}
use model_passport.Prelude.Outcome.{Outcome, ok, err}
use model_passport.Llm.Entities.{Text, Span, from_index, slice}
use model_passport.Guard.Policy.{Action, mask, redact, block, allow, Policy, for_request, for_reply}
use model_passport.Guard.Vault.{Decimals, Vault, placeholder, knows, restore}

pub data Blocked : Type 0 where
  request_blocked reply_blocked : List Text → Blocked

-- The counts by type, as the types that were counted.
pub record Report : Type 0 where
  pub masked : List Text
  pub redacted : List Text
  pub leaked : List Text
  pub memorized_values : List Text

pub record Guard : Type 0 where
  pub policy : Policy
  pub find : Text → List Span
  pub is_memorized : Text → Text → Bool
  pub upper : Text → Text

abbrev is_block : Action → Bool
is_block block = true
is_block _ = false

unfoldable pub blocked_types : (Span → Action) → List Span → List Text
blocked_types action spans = map (λ s. s.entity_type) (keep (λ s. is_block (action s)) spans)

-- What stands for a value in the protected text.
unfoldable pub protected_value : Action → Text → Text → Vault × Report → Text × (Vault × Report)
unfolding placeholder
protected_value mask kind value (vault, report) =
    let (token, vault) = placeholder kind value vault in
    (token, (vault, record report { masked = kind ∷ report.masked }))
protected_value redact kind value (vault, report) =
    (b'[' ∷ kind ++ b']' ∷ [], (vault, record report { redacted = kind ∷ report.redacted }))
protected_value block kind value state = (value, state)
protected_value allow kind value state = (value, state)

-- The loop over the spans, from the character `last`.
unfoldable pub protect_from :
    Policy → Text → ℕ → List Span → Vault × Report → Text × (Vault × Report)
unfolding protected_value slice from_index for_request
protect_from policy text last [] state = (from_index last text, state)
protect_from policy text last (span ∷ spans) state =
    let value = slice span.start span.end text in
    let (shown, state) =
      protected_value (for_request policy span.entity_type) span.entity_type value state in
    let (rest, state) = protect_from policy text span.end spans state in
    (slice last span.start text ++ shown ++ rest, state)

unfoldable pub protect : Guard → Text → Vault → Report → Outcome Blocked (Text × (Vault × Report))
unfolding blocked_types protect_from for_request
protect guard text vault report =
    let spans = guard.find text in
    let blocked = blocked_types (λ s. for_request guard.policy s.entity_type) spans in
    elim blocked [
      | kind ∷ kinds ↦ err (request_blocked (kind ∷ kinds))
      | [] ↦ ok (protect_from guard.policy text 0 spans (vault, report))
    ]

-- The spans of a reply whose values the user did not send.
unfoldable pub new_spans : Guard → Text → Vault → List Span
unfolding knows slice
new_spans guard text vault =
    keep (λ s. not (knows (slice s.start s.end text) vault)) (guard.find text)

-- The action for a span of a reply, and whether its value was memorized.
unfoldable pub reply_action : Guard → Text → Span → Action × Bool
unfolding slice for_reply
reply_action guard text span =
    if guard.is_memorized span.entity_type (slice span.start span.end text)
    then (guard.policy.memorized, true)
    else (for_reply guard.upper guard.policy span.entity_type, false)

unfoldable pub count_reply : Guard → Text → List Span → Report → Report
unfolding reply_action
count_reply guard text [] report = report
count_reply guard text (span ∷ spans) report =
    let (_, memorized) = reply_action guard text span in
    count_reply guard text spans (record report {
      leaked = span.entity_type ∷ report.leaked;
      memorized_values =
          if memorized then span.entity_type ∷ report.memorized_values else report.memorized_values;
    })

unfoldable pub reviewed_value : Action → Text → Text → Report → Text × Report
reviewed_value mask kind value report =
    (b'[' ∷ kind ++ b']' ∷ [], record report { redacted = kind ∷ report.redacted })
reviewed_value redact kind value report =
    (b'[' ∷ kind ++ b']' ∷ [], record report { redacted = kind ∷ report.redacted })
reviewed_value block kind value report = (value, report)
reviewed_value allow kind value report = (value, report)

unfoldable pub review_from : Guard → Text → ℕ → List Span → Report → Text × Report
unfolding reviewed_value reply_action slice from_index
review_from guard text last [] report = (from_index last text, report)
review_from guard text last (span ∷ spans) report =
    let value = slice span.start span.end text in
    let (shown, report) =
      reviewed_value (reply_action guard text span).0 span.entity_type value report in
    let (rest, report) = review_from guard text span.end spans report in
    (slice last span.start text ++ shown ++ rest, report)

unfoldable pub review :
    Decimals
    → Guard
    → Text
    → Vault
    → Report
    → Option (Text → Text)
    → Outcome Blocked (Text × Report)
unfolding new_spans count_reply blocked_types review_from restore
review lib guard text vault report escape =
    let spans = new_spans guard text vault in
    let counted = count_reply guard text spans report in
    let blocked = blocked_types (λ s. (reply_action guard text s).0) spans in
    elim blocked [
      | kind ∷ kinds ↦ err (reply_blocked (kind ∷ kinds))
      | [] ↦
          let (shown, counted) = review_from guard text 0 spans counted in
          ok (restore lib escape vault shown, counted)
    ]
