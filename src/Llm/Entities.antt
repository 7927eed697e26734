-- ===== src/Llm/Entities.antt =====
-- src/model_passport/llm/entities.py: spans of sensitive values, and their detection by patterns.
--
-- A text is the list of its characters. The regular expressions and `str.isspace` are the parameter
-- `Patterns`: the matches of each expression in the order of the detectors, each inside the text.
pub mod Apart
use model_passport.Prelude.{
  ltb, leb, ◌==◌, if◌then◌else◌, length, keep, any, All, letters, ℕ, zero, suc, ◌+◌, ◌-◌, ◌*◌, ◌%◌,
  ◌≤◌, Bool, true, false, ◌&&◌, ◌||◌, not, List, [], ◌∷◌, ◌++◌, same_text,
}

abbrev pub Text : Type 0
Text = List ℕ

pub record Span : Type 0 where
  pub start : ℕ
  pub end : ℕ
  pub entity_type : Text

-- One match of a detector's expression: where it starts, and its text.
pub record Match : Type 0 where
  pub at : ℕ
  pub group : Text

pub record Patterns : Type 0 where
  pub finditer : Text → Text → List Match
  pub is_space : ℕ → Bool
  -- `int(ch)` of a digit of any script.
  pub digit : ℕ → ℕ
  pub ip_address : Text → Bool
  pub inside :
      (kind : Text) (text : Text)
      → All (λ m. m.at + length m.group ≤ length text) (finditer kind text)

-- `text[n:]`
unfoldable pub from_index : ℕ → Text → Text
from_index zero text = text
from_index (suc n) [] = []
from_index (suc n) (c ∷ text) = from_index n text

-- `text[:n]`
unfoldable pub up_to : ℕ → Text → Text
up_to zero text = []
up_to (suc n) [] = []
up_to (suc n) (c ∷ text) = c ∷ up_to n text

-- `text[start:end]`
unfoldable pub slice : ℕ → ℕ → Text → Text
unfolding from_index up_to
slice start end text = up_to (end - start) (from_index start text)

-- The digits of a card without its separators, as numbers.
unfoldable pub card_digits : Text → Text
card_digits text = keep (λ c. not (c == b' ' || c == b'-')) text

-- `len(set(digits)) > 1`
unfoldable pub varied : Text → Bool
varied [] = false
varied (c ∷ text) = any (λ d. not (c == d)) text

-- The sum of `luhn_valid`, over the digits from the right; `odd` is `i % 2`.
unfoldable pub luhn_sum : (ℕ → ℕ) → Bool → Text → ℕ
luhn_sum digit odd [] = 0
luhn_sum digit odd (c ∷ rest) =
    let n = digit c in
    let doubled = if ltb 9 (n * 2) then n * 2 - 9 else n * 2 in
    (if odd then doubled else n) + luhn_sum digit (not odd) rest

unfoldable pub reversed : Text → Text
reversed [] = []
reversed (c ∷ text) = reversed text ++ c ∷ []

unfoldable pub luhn_valid : (ℕ → ℕ) → Text → Bool
unfolding luhn_sum reversed
luhn_valid digit digits = luhn_sum digit false (reversed digits) % 10 == 0

unfoldable pub valid_card : (ℕ → ℕ) → Text → Bool
unfolding card_digits luhn_valid varied
valid_card digit text =
    let digits = card_digits text in
    leb 13 (length digits) && leb (length digits) 19 && luhn_valid digit digits && varied digits

abbrev pub is_nil : Text → Bool
is_nil [] = true
is_nil (_ ∷ _) = false

abbrev pub detected_types : List Text
detected_types =
    letters "EMAIL"
    ∷ letters "SSN"
    ∷ letters "CREDITCARDNUMBER"
    ∷ letters "PHONENUMBER"
    ∷ letters "IPV4"
    ∷ letters "IPV6"
    ∷ letters "DATE"
    ∷ []

module _ (lib : Patterns) where
  unfoldable pub lstrip : Text → Text
  lstrip [] = []
  lstrip (c ∷ text) = let rest = lstrip text in if lib.is_space c then rest else c ∷ text

  -- A space goes if nothing is left after it.
  unfoldable pub onto_stripped : ℕ → Text → Text
  onto_stripped c [] = if lib.is_space c then [] else c ∷ []
  onto_stripped c (d ∷ rest) = c ∷ d ∷ rest

  unfoldable pub rstrip : Text → Text
  unfolding onto_stripped
  rstrip [] = []
  rstrip (c ∷ text) = onto_stripped c (rstrip text)

  -- `_DETECTORS`, with the check of each.
  unfoldable pub validates : Text → Text → Bool
  unfolding valid_card same_text
  validates kind value =
      if same_text kind (letters "CREDITCARDNUMBER")
      then valid_card lib.digit value
      else if same_text kind (letters "IPV4") || same_text kind (letters "IPV6")
      then lib.ip_address value
      else true

  -- The span of a match, unless it is blank or not valid.
  unfoldable pub span_of : Text → Match → List Span
  unfolding lstrip rstrip validates
  span_of kind m =
      let value = rstrip (lstrip m.group) in
      if is_nil value || not (validates kind value)
      then []
      else (let start = m.at + (length m.group - length (lstrip m.group)) in
          record { start = start; end = start + length value; entity_type = kind } ∷ [])

  unfoldable pub spans_of : Text → List Match → List Span
  unfolding span_of
  spans_of kind [] = []
  spans_of kind (m ∷ matches) = span_of kind m ++ spans_of kind matches

  unfoldable pub found_by : List Text → Text → List Span
  unfolding spans_of
  found_by [] text = []
  found_by (kind ∷ kinds) text = spans_of kind (lib.finditer kind text) ++ found_by kinds text

-- `span.end <= k.start or span.start >= k.end` for every `k`
unfoldable pub apart_from : Span → List Span → Bool
apart_from span [] = true
apart_from span (k ∷ kept) = (leb span.end k.start || leb k.end span.start) && apart_from span kept

-- Earlier detectors win on overlap.
unfoldable pub keep_apart : List Span → List Span → List Span
unfolding apart_from
keep_apart kept [] = kept
keep_apart kept (span ∷ found) =
    keep_apart (if apart_from span kept then kept ++ span ∷ [] else kept) found

unfoldable pub insert_span : Span → List Span → List Span
insert_span span [] = span ∷ []
insert_span span (other ∷ rest) =
    let later = insert_span span rest in
    if leb span.start other.start then span ∷ other ∷ rest else other ∷ later

-- `sorted(kept, key=lambda s: s.start)`
unfoldable pub sort_spans : List Span → List Span
unfolding insert_span
sort_spans [] = []
sort_spans (span ∷ rest) = insert_span span (sort_spans rest)

unfoldable pub detect : Patterns → Text → List Span
unfolding found_by keep_apart sort_spans
detect lib text = sort_spans (keep_apart [] (found_by lib detected_types text))

-- `_spans` and `record_from_json`, on spans whose types are in upper case.
unfoldable pub loaded_spans : Text → List Span → List Span
unfolding sort_spans
loaded_spans text spans =
    keep (λ s. leb s.end (length text)) (sort_spans (keep (λ s. ltb s.start s.end) spans))
