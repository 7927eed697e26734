-- ===== src/Guard/Tokens.antt =====
-- Placeholders: each is matched whole, and stands for one type and one number.
use model_passport.Prelude.{
  ◌==◌, if◌then◌else◌, length, All, ℕ, ◌<◌, ◌≡◌, refl, ap, ◌⊎◌, inl, inr, Bool, true, false, some,
  List, [], ◌∷◌, ◌++◌, arith, cons-tail, cons-head, sym, ◌∙◌,
}
use model_passport.Llm.Entities.{Text}
use model_passport.Guard.Vault.{
  Decimals, numeral, render, is_capital, is_name_char, after_digits, after_name, match_placeholder,
}
use model_passport.Guard.Numerals.{IsDigit, numeral-IsDigit, numeral-cons, numeral_injective}

-- A type whose placeholders match: `[A-Z][A-Z0-9]*`.
abbrev pub IsKind : Text → Type 0
IsKind [] = ⊥
IsKind (c ∷ kind) = (is_capital c ≡ true) × All (λ d. is_name_char d ≡ true) kind

module _ (lib : Decimals) where
  after_digits-numeral :
      (seen : Bool) (digits rest : Text)
      → All IsDigit digits
      → (seen ≡ true) ⊎ (0 < length digits)
      → after_digits lib seen ((digits ++ b']' ∷ []) ++ rest) ≡ some (length (digits ++ b']' ∷ []))
  unfolding after_digits
  after_digits-numeral true [] rest all some_digit = rw (lib.closing) refl
  after_digits-numeral false [] rest all (inl e) = absurd (cc)
  after_digits-numeral false [] rest all (inr e) = absurd (omega (arith, e))
  after_digits-numeral seen (c ∷ digits) rest ((low, high), all) some_digit =
      rw (lib.ascii c low high, after_digits-numeral true digits rest all (inl refl)) refl

  after_name-kind :
      (kind digits rest : Text)
      → All (λ d. is_name_char d ≡ true) kind
      → All IsDigit digits
      → 0 < length digits
      → after_name lib ((kind ++ b'_' ∷ digits ++ b']' ∷ []) ++ rest)
        ≡ some (length (kind ++ b'_' ∷ digits ++ b']' ∷ []))
  unfolding after_name
  after_name-kind [] digits rest all are_digits some_digit =
      rw (after_digits-numeral false digits rest are_digits (inr some_digit)) refl
  after_name-kind (c ∷ kind) digits rest (h, all) are_digits some_digit =
      rw (h, after_name-kind kind digits rest all are_digits some_digit) refl

  -- A placeholder is matched up to its end, whatever follows it.
  pub match_placeholder-render :
      (kind rest : Text) (n : ℕ)
      → IsKind kind
      → match_placeholder lib (render kind n ++ rest) ≡ some (length (render kind n))
  unfolding match_placeholder render
  match_placeholder-render [] rest n bad = absurd bad
  match_placeholder-render (c ∷ kind) rest n (h, all) =
      let (d, more, e) = numeral-cons n in
      let some_digit : 0 < length (numeral n) = rw e omega arith in
      rw (h, after_name-kind kind (numeral n) rest all (numeral-IsDigit n) some_digit) refl

-- What stands before the first `_`, and what stands after it.
abbrev before_bar : Text → Text
before_bar [] = []
before_bar (c ∷ text) = let rest = before_bar text in if c == b'_' then [] else c ∷ rest

abbrev after_bar : Text → Text
after_bar [] = []
after_bar (c ∷ text) = let rest = after_bar text in if c == b'_' then text else rest

name_char-bar : (c : ℕ) → is_name_char c ≡ true → (c == b'_') ≡ false
name_char-bar c e = ground arith

before_bar-kind :
    (kind digits : Text)
    → All (λ d. is_name_char d ≡ true) kind
    → (before_bar (kind ++ b'_' ∷ digits ++ b']' ∷ []) ≡ kind)
      × (after_bar (kind ++ b'_' ∷ digits ++ b']' ∷ []) ≡ digits ++ b']' ∷ [])
before_bar-kind [] digits all = (refl, refl)
before_bar-kind (c ∷ kind) digits (h, all) =
    let (before, after) = before_bar-kind kind digits all in
    rw (name_char-bar c h) (ap (◌∷◌ c) before, after)

last_cancel : {A : Type 0} (xs ys : List A) (z : A) → xs ++ z ∷ [] ≡ ys ++ z ∷ [] → xs ≡ ys
last_cancel [] [] z e = refl
last_cancel [] (y ∷ []) z e = absurd (cc)
last_cancel [] (y ∷ w ∷ ys) z e = absurd (cc)
last_cancel (x ∷ []) [] z e = absurd (cc)
last_cancel (x ∷ w ∷ xs) [] z e = absurd (cc)
last_cancel (x ∷ xs) (y ∷ ys) z e =
    let tails = last_cancel xs ys z (cons-tail e) in let heads = cons-head e in cc

IsKind-All : (kind : Text) → IsKind kind → All (λ d. is_name_char d ≡ true) kind
IsKind-All [] bad = absurd bad
IsKind-All (c ∷ kind) (h, all) = (ground arith, all)

-- Placeholders of different types or numbers are different.
pub render_injective :
    (kind kind' : Text) (m n : ℕ)
    → IsKind kind
    → IsKind kind'
    → render kind m ≡ render kind' n
    → (kind ≡ kind') × (m ≡ n)
unfolding render
render_injective kind kind' m n k k' e =
    let (before, after) = before_bar-kind kind (numeral m) (IsKind-All kind k) in
    let (before', after') = before_bar-kind kind' (numeral n) (IsKind-All kind' k') in
    let tails = cons-tail e in
    (
      sym before ∙ ap before_bar tails ∙ before',
      numeral_injective m n
          (last_cancel (numeral m) (numeral n) b']' (sym after ∙ ap after_bar tails ∙ after')),
    )
