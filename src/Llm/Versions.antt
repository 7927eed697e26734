-- ===== src/Llm/Versions.antt =====
-- src/model_passport/llm/remediate.py: `bump_minor`, on ASCII digits.
use model_passport.Prelude.{
  ◌==◌, leb, if◌then◌else◌, All, ℕ, ◌+◌, ◌≡◌, refl, ap, ◌∙◌, sym, Bool, true, false, ◌&&◌, List, [],
  ◌∷◌, ◌++◌, arith, subst,
}
use model_passport.Llm.Entities.{Text}
use model_passport.Guard.Vault.{numeral}
use model_passport.Guard.Numerals.{
  IsDigit, numeral-IsDigit, numeral-cons, read_digits, read_digits-numeral,
}

unfoldable pub onto_first : ℕ → List Text → List Text
onto_first c [] = (c ∷ []) ∷ []
onto_first c (part ∷ parts) = (c ∷ part) ∷ parts

-- `version.split(".")`
unfoldable pub split_dots : Text → List Text
unfolding onto_first
split_dots [] = [] ∷ []
split_dots (c ∷ text) =
    let parts = split_dots text in if c == b'.' then [] ∷ parts else onto_first c parts

-- `".".join(parts)`
unfoldable pub join_dots : List Text → Text
join_dots [] = []
join_dots (part ∷ []) = part
join_dots (part ∷ next ∷ parts) = part ++ b'.' ∷ join_dots (next ∷ parts)

unfoldable pub all_digits : Text → Bool
all_digits [] = true
all_digits (c ∷ text) = leb b'0' c && leb c b'9' && all_digits text

unfoldable pub isdigit : Text → Bool
unfolding all_digits
isdigit [] = false
isdigit (c ∷ text) = all_digits (c ∷ text)

-- `["0"] * max(len(parts) - 2, 1)`, of the parts after the second.
unfoldable pub zero_parts : List Text → List Text
zero_parts [] = (b'0' ∷ []) ∷ []
zero_parts (_ ∷ []) = (b'0' ∷ []) ∷ []
zero_parts (_ ∷ p ∷ parts) = (b'0' ∷ []) ∷ zero_parts (p ∷ parts)

unfoldable pub bump_parts : Text → List Text → Text
unfolding join_dots isdigit zero_parts
bump_parts version (major ∷ minor ∷ parts) =
    if isdigit major && isdigit minor
    then join_dots (major ∷ numeral (read_digits 0 minor + 1) ∷ zero_parts parts)
    else version ++ b'.' ∷ b'1' ∷ []
bump_parts version (_ ∷ []) = version ++ b'.' ∷ b'1' ∷ []
bump_parts version [] = version ++ b'.' ∷ b'1' ∷ []

unfoldable pub bump_minor : Text → Text
unfolding bump_parts split_dots
bump_minor version = bump_parts version (split_dots version)

abbrev pub NoDot : Text → Type 0
NoDot part = All (λ c. c == b'.' ≡ false) part

split_dots-part :
    (part rest : Text) → NoDot part → split_dots (part ++ b'.' ∷ rest) ≡ part ∷ split_dots rest
unfolding split_dots onto_first
split_dots-part [] rest no_dot = refl
split_dots-part (c ∷ part) rest (h, no_dot) =
    rw h (ap (onto_first c) (split_dots-part part rest no_dot))

split_dots-last : (part : Text) → NoDot part → split_dots part ≡ part ∷ []
unfolding split_dots onto_first
split_dots-last [] no_dot = refl
split_dots-last (c ∷ part) (h, no_dot) = rw h (ap (onto_first c) (split_dots-last part no_dot))

digits-NoDot : (part : Text) → All IsDigit part → NoDot part
digits-NoDot [] digits = tt
digits-NoDot (c ∷ part) ((low, high), digits) = (ground arith, digits-NoDot part digits)

all_digits-true : (part : Text) → All IsDigit part → all_digits part ≡ true
unfolding all_digits
all_digits-true [] digits = refl
all_digits-true (c ∷ part) ((low, high), digits) =
    let rest = all_digits-true part digits in ground arith

numeral-isdigit : (n : ℕ) → isdigit (numeral n) ≡ true
unfolding isdigit
numeral-isdigit n =
    let (c, rest, e) = numeral-cons n in
    let digits = all_digits-true (numeral n) (numeral-IsDigit n) in
    subst (λ t. isdigit t ≡ true) (sym e) (subst (λ t. all_digits t ≡ true) e digits)

-- The version after `major.minor.patch` is `major.(minor + 1).0`, when the patch has no dot.
pub bump_minor-next :
    (major minor : ℕ) (patch : Text)
    → NoDot patch
    → bump_minor (join_dots (numeral major ∷ numeral minor ∷ patch ∷ []))
      ≡ join_dots (numeral major ∷ numeral (minor + 1) ∷ (b'0' ∷ []) ∷ [])
unfolding bump_minor bump_parts join_dots zero_parts
bump_minor-next major minor patch no_dot =
    let parts =
      split_dots-part (numeral major) (numeral minor ++ b'.' ∷ patch)
        (digits-NoDot (numeral major) (numeral-IsDigit major))
      ∙ ap (◌∷◌ (numeral major)) (
          split_dots-part (numeral minor) patch
            (digits-NoDot (numeral minor) (numeral-IsDigit minor))
          ∙ ap (◌∷◌ (numeral minor)) (split_dots-last patch no_dot)) in
    rw (parts, numeral-isdigit major, numeral-isdigit minor, read_digits-numeral minor) refl
