-- ===== src/Guard/Tests.antt =====
-- A run of the guard on one message.
use model_passport.Prelude.{
  leb, All, same_text, letters, ℕ, ◌≤◌, ◌≡◌, refl, inl, Bool, true, false, ◌&&◌, none, List, [],
  ◌∷◌, arith,
}
use model_passport.Prelude.Outcome.{ok}
use model_passport.Llm.Entities.{Text, Span, from_index, up_to, slice}
use model_passport.Guard.Policy.{mask, redact, value_at, Policy, for_request}
use model_passport.Guard.Vault.{
  Decimals, digits_of, numeral, Vault, empty_vault, token_of_value, count_of_kind, render,
  placeholder, restore, restore_from,
}
use model_passport.Guard.Placed.{IsVault}
use model_passport.Guard.Restored.{IsPlain}
use model_passport.Guard.Protected.{IsReversible, restore-protect}
use model_passport.Guard.Engine.{Report, Guard, protected_value, protect_from, protect}

abbrev ascii_digit : ℕ → Bool
ascii_digit c = leb b'0' c && leb c b'9'

ascii_digit-holds : (c : ℕ) → b'0' ≤ c → c ≤ b'9' → ascii_digit c ≡ true
ascii_digit-holds c low high = ground arith

abbrev ascii_decimals : Decimals
ascii_decimals = record { is_decimal = ascii_digit; ascii = ascii_digit-holds; closing = refl }

abbrev message : Text
message = letters "mail a@b now, a@b"

abbrev email_spans : List Span
email_spans =
    record { start = 5; end = 8; entity_type = letters "EMAIL" }
    ∷ record { start = 14; end = 17; entity_type = letters "EMAIL" }
    ∷ []

abbrev masking : Policy
masking = record { inbound = []; inbound_default = mask; outbound = []; memorized = redact }

abbrev email_guard : Guard
email_guard = record {
  policy = masking;
  find = λ _. email_spans;
  is_memorized = λ _ _. false;
  upper = λ t. t;
}

abbrev no_report : Report
no_report = record { masked = []; redacted = []; leaked = []; memorized_values = [] }

-- The same value gets the same placeholder.
message_shown :
    (protect_from masking message 0 email_spans (empty_vault, no_report)).0
    ≡ letters "mail [EMAIL_1] now, [EMAIL_1]"
unfolding protect_from protected_value placeholder token_of_value same_text count_of_kind render
    numeral digits_of for_request value_at slice up_to from_index
message_shown = refl

message-IsPlain : IsPlain message
message-IsPlain = (
  refl,
  (
    refl,
    (
      refl,
      (
        refl,
        (
          refl,
          (
            refl,
            (
              refl,
              (refl, (refl, (refl, (refl, (refl, (refl, (refl, (refl, (refl, (refl, tt)))))))))),
            ),
          ),
        ),
      ),
    ),
  ),
)

spans-IsReversible : All (IsReversible masking) email_spans
unfolding for_request value_at same_text
spans-IsReversible = (
  inl (refl, (refl, (refl, (refl, (refl, (refl, tt)))))),
  (inl (refl, (refl, (refl, (refl, (refl, (refl, tt)))))), tt),
)

restore-protect_example :
    (shown : Text) × (next : Vault) × (done : Report) × (protect email_guard message empty_vault
        no_report
      ≡ ok (shown, (next, done)))
    × IsVault next
    × (restore ascii_decimals none next shown ≡ message)
restore-protect_example =
    restore-protect ascii_decimals email_guard message empty_vault no_report
      ((omega arith, tt), (tt, tt)) ((omega arith, omega arith), ((omega arith, omega arith), tt))
      spans-IsReversible message-IsPlain (tt, tt)

-- A detector whose types have an underscore.
abbrev address_spans : List Span
address_spans = record { start = 5; end = 8; entity_type = letters "EMAIL_ADDRESS" } ∷ []

abbrev address_shown : Text × (Vault × Report)
address_shown = protect_from masking (letters "mail a@b") 0 address_spans (empty_vault, no_report)

-- The placeholder of a type with an underscore is not restored.
underscore_lost :
    restore ascii_decimals none address_shown.1.0 address_shown.0 ≡ letters "mail [EMAIL_ADDRESS_1]"
unfolding protect_from protected_value placeholder token_of_value same_text count_of_kind render
    numeral digits_of for_request value_at slice up_to from_index restore restore_from
underscore_lost = refl
