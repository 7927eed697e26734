-- ===== src/Platform/Storage/Keys.antt =====
-- The parts of a key: what is joined splits into the same parts.
use model_passport.Prelude.{
  ◌==◌, Bool-cases, keep, keep-append, All, ◌≡◌, refl, ◌∙◌, inl, inr, true, false, List, [], ◌∷◌,
  ◌++◌,
}
use model_passport.Platform.Storage.{Text, split, is_given, parts_of, join}

-- A part that a key can have: it is given, and has no `/`.
abbrev pub IsPart : Text → Type 0
IsPart part = (is_given part ≡ true) × All (λ c. (c == b'/') ≡ false) part

-- Every split text has a first part.
split-cons : (s : Text) → (part : Text) × (parts : List Text) × (split s ≡ part ∷ parts)
unfolding split
split-cons [] = ([], [], refl)
split-cons (c ∷ s) =
    let (part, parts, e) = split-cons s in
    elim (Bool-cases (c == b'/')) [
      | inl h ↦ rw h ([], split s, refl)
      | inr h ↦ rw (h, e) (c ∷ part, parts, refl)
    ]

split-append : (s t : Text) → split (s ++ b'/' ∷ t) ≡ split s ++ split t
unfolding split
split-append [] t = refl
split-append (c ∷ s) t =
    let (part, parts, e) = split-cons s in
    elim (Bool-cases (c == b'/')) [
      | inl h ↦ rw (h, split-append s t) refl
      | inr h ↦ rw (h, split-append s t, e) refl
    ]

pub parts_of-append : (s t : Text) → parts_of (s ++ b'/' ∷ t) ≡ parts_of s ++ parts_of t
unfolding parts_of
parts_of-append s t = rw (split-append s t) (keep-append is_given (split s) (split t))

split-whole : (part : Text) → All (λ c. (c == b'/') ≡ false) part → split part ≡ part ∷ []
unfolding split
split-whole [] all = refl
split-whole (c ∷ part) (h, all) = rw (h, split-whole part all) refl

pub parts_of-whole : (part : Text) → IsPart part → parts_of part ≡ part ∷ []
unfolding parts_of keep
parts_of-whole part (given, all) = rw (split-whole part all, given) refl

pub parts_of-join : (parts : List Text) → All IsPart parts → parts_of (join parts) ≡ parts
unfolding join parts_of split keep
parts_of-join [] all = refl
parts_of-join (part ∷ []) (h, _) = parts_of-whole part h
parts_of-join (part ∷ other_part ∷ parts) (h, all) =
    parts_of-append part (join (other_part ∷ parts))
    ∙ rw (parts_of-whole part h, parts_of-join (other_part ∷ parts) all) refl

first_part-free : (s : Text) → All (λ p. All (λ c. (c == b'/') ≡ false) p) (split s)
unfolding split
first_part-free [] = (tt, tt)
first_part-free (c ∷ s) =
    let (part, parts, e) = split-cons s in
    let later = first_part-free s in
    elim (Bool-cases (c == b'/')) [
      | inl h ↦ rw h (tt, later)
      | inr h ↦ let (one, more) = rw e at later in rw (h, e) ((h, one), more)
    ]

keep_given :
    (ps : List Text)
    → All (λ p. All (λ c. (c == b'/') ≡ false) p) ps
    → All IsPart (keep is_given ps)
unfolding keep
keep_given [] all = tt
keep_given ([] ∷ ps) (h, all) = keep_given ps all
keep_given ((c ∷ p) ∷ ps) (h, all) = ((refl, h), keep_given ps all)

-- The parts of a key are given and have no `/`.
pub parts_of-IsPart : (s : Text) → All IsPart (parts_of s)
unfolding parts_of
parts_of-IsPart s = keep_given (split s) (first_part-free s)
