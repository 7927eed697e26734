-- ===== src/Llm/Sanitize.antt =====
-- src/model_passport/llm/sanitize.py: risky values are replaced in the training text.
--
-- `ReferenceSampler` is the parameter `Sampler`, with its random state. Offsets are natural numbers:
-- the shift of the spans is what the text has grown, less what was cut (a start stops at 0, which it
-- can reach only where spans overlap). Types are in upper case.
pub mod Rewritten
use model_passport.Prelude.{
  ◌==◌, if◌then◌else◌, length, keep, any, same_text, ℕ, ◌+◌, ◌-◌, Bool, true, false, ◌&&◌, Option,
  none, some, List, [], ◌∷◌, ◌++◌, map,
}
use model_passport.Core.Schema.{Severity, at_least}
use model_passport.Llm.Entities.{Text, Span, from_index, slice, sort_spans}

pub record Record : Type 0 where
  pub id : Text
  pub text : Text
  pub entities : List Span

pub record Sampler : Type 1 where
  pub State : Type 0
  pub one : State → Text → Text → Text × State

pub data Strategy : Type 0 where
  surrogate masked dropped : Strategy

-- The positions that are to be sanitized in a record.
abbrev pub Targets : Type 0
Targets = List (ℕ × ℕ)

unfoldable pub is_target : Span → Targets → Bool
is_target span targets = any (λ t. t.0 == span.start && t.1 == span.end) targets

-- A finding of the audit, with the record it is in.
pub record Risk : Type 0 where
  pub in_record : Text
  pub span : ℕ × ℕ
  pub entity_type : Text
  pub severity : Severity

-- The positions of a record that the audit found at `minimum` or above.
unfoldable pub found_in : Text → Severity → List Risk → Targets
unfolding same_text at_least
found_in id minimum risks =
    map (λ r. r.span) (keep (λ r. at_least r.severity minimum && same_text r.in_record id) risks)

-- The positions of its entities of a type that is always replaced.
unfoldable pub always_in : List Text → Record → Targets
unfolding same_text
always_in kinds r =
    map (λ s. (s.start, s.end)) (keep (λ s. any (same_text s.entity_type) kinds) r.entities)

unfoldable pub always_at : List Text → List Record → Text → Targets
unfolding always_in same_text
always_at kinds [] id = []
always_at kinds (r ∷ records) id =
    let rest = always_at kinds records id in
    if same_text r.id id then always_in kinds r ++ rest else rest

-- What `risky_spans` has for an id.
unfoldable pub risky_spans : List Risk → List Record → Severity → List Text → Text → Targets
unfolding found_in always_at
risky_spans risks records minimum kinds id = found_in id minimum risks ++ always_at kinds records id

unfoldable pub replaced_at : Text → List (Text × Text) → Option Text
unfolding same_text
replaced_at key [] = none
replaced_at key ((k, value) ∷ entries) =
    let rest = replaced_at key entries in if same_text k key then some value else rest

-- `f"{span.entity_type}\x00{value}"`
abbrev pub replace_key : Text → Text → Text
replace_key kind value = kind ++ 0 ∷ value

module _ (lib : Sampler) where
  -- What the records share: the dictionary, the sampler, and the types that were replaced.
  pub record Shared : Type 0 where
    pub replace : List (Text × Text)
    pub sampler : lib.State
    pub replaced : List Text

  unfoldable pub new_value : Strategy → Text → Text → lib.State → Text × lib.State
  new_value masked kind value sampler = (b'[' ∷ kind ++ b']' ∷ [], sampler)
  new_value surrogate kind value sampler = lib.one sampler kind value
  new_value dropped kind value sampler = lib.one sampler kind value

  -- The value that stands for a risky one, from the dictionary or new.
  unfoldable pub replacement_of : Strategy → Text → Text → Shared → Text × Shared
  unfolding replaced_at new_value
  replacement_of strategy kind value state =
      elim (replaced_at (replace_key kind value) state.replace) [
        | some known ↦ (known, record state { replaced = kind ∷ state.replaced })
        | none ↦
            let (fresh, sampler) = new_value strategy kind value state.sampler in
            (
              fresh,
              record {
                replace = (replace_key kind value, fresh) ∷ state.replace;
                sampler = sampler;
                replaced = kind ∷ state.replaced;
              },
            )
      ]

  -- The value of a span in the new text.
  unfoldable pub value_for : Strategy → Targets → Text → Span → Shared → Text × Shared
  unfolding is_target replacement_of slice
  value_for strategy targets text span state =
      let value = slice span.start span.end text in
      if is_target span targets
      then replacement_of strategy span.entity_type value state
      else (value, state)

  -- The loop of `_rewrite`, from the character `cursor`.
  unfoldable pub rewrite_from :
      Strategy → Targets → Text → ℕ → ℕ → ℕ → List Span → Shared → Text × (List Span × Shared)
  unfolding value_for slice from_index
  rewrite_from strategy targets text cursor grown cut [] state =
      (from_index cursor text, ([], state))
  rewrite_from strategy targets text cursor grown cut (span ∷ spans) state =
      let (value, state) = value_for strategy targets text span state in
      let start = span.start + grown - cut in
      let (rest, (new_spans, state)) =
        rewrite_from strategy targets text span.end (grown + length value)
          (cut + (span.end - span.start)) spans state in
      (
        slice cursor span.start text ++ value ++ rest,
        (
          record { start = start; end = start + length value; entity_type = span.entity_type }
              ∷ new_spans,
          state,
        ),
      )

  unfoldable pub rewrite : Strategy → Targets → Record → Shared → Record × Shared
  unfolding rewrite_from sort_spans
  rewrite strategy targets r state =
      let (text, (spans, state)) =
        rewrite_from strategy targets r.text 0 0 0 (sort_spans r.entities) state in
      (record { id = r.id; text = text; entities = spans }, state)

  abbrev pub no_targets : Targets → Bool
  no_targets [] = true
  no_targets (_ ∷ _) = false

  -- The records of `sanitize` with a strategy that replaces.
  unfoldable pub sanitize_all :
      Strategy → (Record → Targets) → List Record → Shared → List Record × Shared
  unfolding rewrite
  sanitize_all strategy targets [] state = ([], state)
  sanitize_all strategy targets (r ∷ records) state =
      let (first_one, state) =
        if no_targets (targets r) then (r, state) else rewrite strategy (targets r) r state in
      let (others, state) = sanitize_all strategy targets records state in
      (first_one ∷ others, state)

  -- `sanitize`: the records, the types that were replaced, and how many records were dropped.
  unfoldable pub sanitize :
      Strategy → (Record → Targets) → List Record → lib.State → List Record × (List Text × ℕ)
  unfolding sanitize_all
  sanitize dropped targets records sampler =
      let kept = keep (λ r. no_targets (targets r)) records in
      (kept, ([], length records - length kept))
  sanitize strategy targets records sampler =
      let (out, state) =
        sanitize_all strategy targets records
          (record { replace = []; sampler = sampler; replaced = [] }) in
      (out, (state.replaced, 0))
