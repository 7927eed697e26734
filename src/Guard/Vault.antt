-- ===== src/Guard/Vault.antt =====
-- src/model_passport/guard/engine.py: the placeholders of one request, and their way back.
--
-- The three dictionaries are lists of entries. `PLACEHOLDER` is a scan, by the classes of its
-- expression: `\d` is the parameter `is_decimal`, which holds of the ASCII digits and not of `]`.
use model_passport.Prelude.{
  ltb, leb, ◌==◌, if◌then◌else◌, any, ℕ, zero, suc, ◌+◌, ◌-◌, ◌/◌, ◌%◌, ◌≤◌, ◌≡◌, Bool, true, false,
  ◌&&◌, ◌||◌, Option, none, some, List, [], ◌∷◌, ◌++◌, same_text,
}
use model_passport.Llm.Entities.{Text, up_to}

pub record Decimals : Type 0 where
  pub is_decimal : ℕ → Bool
  pub ascii : (c : ℕ) → b'0' ≤ c → c ≤ b'9' → is_decimal c ≡ true
  pub closing : is_decimal b']' ≡ false

-- `str(n)`, on fuel: `n + 1` is enough.
unfoldable pub digits_of : ℕ → ℕ → Text
digits_of zero n = []
digits_of (suc fuel) n =
    let before = digits_of fuel (n / 10) in
    if ltb n 10 then (b'0' + n) ∷ [] else before ++ (b'0' + n % 10) ∷ []

unfoldable pub numeral : ℕ → Text
unfolding digits_of
numeral n = digits_of (suc n) n

pub record Vault : Type 0 where
  pub tokens : List ((Text × Text) × Text)
  pub values : List (Text × Text)
  pub counts : List (Text × ℕ)

abbrev pub empty_vault : Vault
empty_vault = record { tokens = []; values = []; counts = [] }

unfoldable pub token_of_value : Text → Text → List ((Text × Text) × Text) → Option Text
unfolding same_text
token_of_value kind value [] = none
token_of_value kind value (((k, v), token) ∷ entries) =
    let rest = token_of_value kind value entries in
    if same_text k kind && same_text v value then some token else rest

unfoldable pub value_of_token : Text → List (Text × Text) → Option Text
unfolding same_text
value_of_token token [] = none
value_of_token token ((t, value) ∷ entries) =
    let rest = value_of_token token entries in if same_text t token then some value else rest

-- `Counter[kind]`
unfoldable pub count_of_kind : Text → List (Text × ℕ) → ℕ
unfolding same_text
count_of_kind kind [] = 0
count_of_kind kind ((k, n) ∷ entries) =
    let rest = count_of_kind kind entries in if same_text k kind then n else rest

-- `f"[{entity_type}_{n}]"`
unfoldable pub render : Text → ℕ → Text
unfolding numeral
render kind n = b'[' ∷ kind ++ b'_' ∷ numeral n ++ b']' ∷ []

-- A new entry stands before the older ones of its key.
unfoldable pub placeholder : Text → Text → Vault → Text × Vault
unfolding token_of_value count_of_kind render
placeholder kind value vault = elim (token_of_value kind value vault.tokens) [
  | some token ↦ (token, vault)
  | none ↦
      let n = count_of_kind kind vault.counts + 1 in
      let token = render kind n in
      (
        token,
        record {
          tokens = ((kind, value), token) ∷ vault.tokens;
          values = (token, value) ∷ vault.values;
          counts = (kind, n) ∷ vault.counts;
        },
      )
]

unfoldable pub knows : Text → Vault → Bool
unfolding same_text any
knows value vault = any (λ e. same_text e.1 value) vault.values

-- `[A-Z]`
abbrev pub is_capital : ℕ → Bool
is_capital c = leb b'A' c && leb c b'Z'

-- `[A-Z0-9]`
abbrev pub is_name_char : ℕ → Bool
is_name_char c = is_capital c || (leb b'0' c && leb c b'9')

abbrev one_more : Option ℕ → Option ℕ
one_more none = none
one_more (some n) = some (suc n)

module _ (lib : Decimals) where
  -- How far `\d*\]` reaches, where `seen` says that a digit stood before.
  unfoldable pub after_digits : Bool → Text → Option ℕ
  after_digits seen [] = none
  after_digits seen (c ∷ text) =
      let more = after_digits true text in
      if lib.is_decimal c then one_more more else if seen && c == b']' then some 1 else none

  -- How far `[A-Z0-9]*_\d+\]` reaches.
  unfoldable pub after_name : Text → Option ℕ
  unfolding after_digits
  after_name [] = none
  after_name (c ∷ text) =
      let more = after_name text in
      let digits = after_digits false text in
      if is_name_char c then one_more more else if c == b'_' then one_more digits else none

  -- How far a placeholder reaches that starts the text.
  unfoldable pub match_placeholder : Text → Option ℕ
  unfolding after_name
  match_placeholder (c ∷ d ∷ text) =
      if c == b'[' && is_capital d then one_more (one_more (after_name text)) else none
  match_placeholder _ = none

  -- The replacement of a match: a placeholder that is not in the vault stays.
  unfoldable pub replacement : Option (Text → Text) → Vault → Text → Text
  unfolding value_of_token
  replacement escape vault token = elim (value_of_token token vault.values) [
    | none ↦ token
    | some value ↦ elim escape [ none ↦ value | some encode ↦ encode value ]
  ]

  -- `PLACEHOLDER.sub(value, text)`; `skip` characters are left of the last match.
  unfoldable pub restore_from : Option (Text → Text) → Vault → ℕ → Text → Text
  unfolding match_placeholder replacement up_to
  restore_from escape vault skip [] = []
  restore_from escape vault (suc skip) (c ∷ text) = restore_from escape vault skip text
  restore_from escape vault zero (c ∷ text) = elim (match_placeholder (c ∷ text)) [
    | none ↦ c ∷ restore_from escape vault zero text
    | some size ↦
        replacement escape vault (up_to size (c ∷ text))
        ++ restore_from escape vault (size - 1) text
  ]

  unfoldable pub restore : Option (Text → Text) → Vault → Text → Text
  unfolding restore_from
  restore escape vault text = restore_from escape vault zero text
