-- ===== src/Llm/Tests.antt =====
-- Runs of the detection and of the sanitizing.
mod Rounds
use model_passport.Prelude.{
  ◌==◌, if◌then◌else◌, Bool-cases, length, All, letters, ◌+◌, ◌≤◌, ◌≡◌, refl, inl, inr, true, ◌||◌,
  List, [], ◌∷◌, arith, same_text, ℕ, suc, any, ◌-◌,
}
use model_passport.Llm.Entities.{
  Text, Match, Patterns, from_index, up_to, slice, lstrip, onto_stripped, rstrip, validates,
  span_of, spans_of, found_by, apart_from, keep_apart, insert_span, sort_spans, detect,
}
use model_passport.Llm.Sanitize.{
  Record, Sampler, Shared, surrogate, rewrite, rewrite_from, value_for, is_target, replacement_of,
  replaced_at, new_value,
}
use model_passport.Llm.Sanitize.Rewritten.{IsRewritten, rewrite-IsRewritten}
use model_passport.Llm.Entities.Apart.{IsSpan, IsOrdered, detect-IsOrdered}

-- An address is the whole text, and so is a date.
abbrev toy_matches : Text → Text → List Match
toy_matches kind text =
    if same_text kind (letters "EMAIL") || same_text kind (letters "DATE")
    then record { at = 0; group = text } ∷ []
    else []

toy_inside :
    (kind text : Text) → All (λ m. m.at + length m.group ≤ length text) (toy_matches kind text)
toy_inside kind text =
    elim (Bool-cases (same_text kind (letters "EMAIL") || same_text kind (letters "DATE"))) [
      | inl e ↦ rw (toy_matches, e) (omega arith, tt)
      | inr e ↦ rw (toy_matches, e) tt
    ]

abbrev toy_patterns : Patterns
toy_patterns = record {
  finditer = toy_matches;
  is_space = λ c. c == b' ';
  digit = λ c. c - b'0';
  ip_address = λ _. true;
  inside = toy_inside;
}

found_once :
    detect toy_patterns (letters " a@b ")
    ≡ record { start = 1; end = 4; entity_type = letters "EMAIL" } ∷ []
unfolding detect found_by spans_of span_of lstrip rstrip onto_stripped validates same_text
    keep_apart apart_from sort_spans insert_span
found_once = refl

detect-IsOrdered_example :
    IsOrdered (detect toy_patterns (letters " a@b "))
    × All (IsSpan 5) (detect toy_patterns (letters " a@b "))
detect-IsOrdered_example = detect-IsOrdered toy_patterns (letters " a@b ")

-- Every value of a type has the same stand-in, and the state counts the calls.
abbrev pub toy_sampler : Sampler
toy_sampler = record { State = ℕ; one = λ n kind value. (letters "c@d.e", suc n) }

abbrev pub toy_record : Record
toy_record = record {
  id = letters "r1";
  text = letters "a@b Al";
  entities =
      record { start = 4; end = 6; entity_type = letters "NAME" }
      ∷ record { start = 0; end = 3; entity_type = letters "EMAIL" }
      ∷ [];
}

abbrev toy_state : Shared toy_sampler
toy_state = record { replace = []; sampler = 0; replaced = [] }

toy-IsOrdered : IsOrdered (sort_spans toy_record.entities)
unfolding sort_spans insert_span
toy-IsOrdered = ((omega arith, tt), (tt, tt))

toy-IsSpan : All (IsSpan (length toy_record.text)) (sort_spans toy_record.entities)
unfolding sort_spans insert_span
toy-IsSpan = ((omega arith, omega arith), ((omega arith, omega arith), tt))

rewritten_once : (rewrite toy_sampler surrogate ((0, 3) ∷ []) toy_record toy_state).0 ≡ record {
  id = letters "r1";
  text = letters "c@d.e Al";
  entities =
      record { start = 0; end = 5; entity_type = letters "EMAIL" }
      ∷ record { start = 6; end = 8; entity_type = letters "NAME" }
      ∷ [];
}
unfolding rewrite rewrite_from value_for is_target replacement_of replaced_at new_value slice
    from_index up_to sort_spans insert_span any
rewritten_once = refl

rewrite-IsRewritten_example :
    IsRewritten
      ((0, 3) ∷ [])
      toy_record.text
      (rewrite toy_sampler surrogate ((0, 3) ∷ []) toy_record toy_state).0.text
      (rewrite toy_sampler surrogate ((0, 3) ∷ []) toy_record toy_state).1.replace
      (sort_spans toy_record.entities)
      (rewrite toy_sampler surrogate ((0, 3) ∷ []) toy_record toy_state).0.entities
rewrite-IsRewritten_example =
    rewrite-IsRewritten toy_sampler surrogate ((0, 3) ∷ []) toy_record toy_state toy-IsOrdered
      toy-IsSpan
