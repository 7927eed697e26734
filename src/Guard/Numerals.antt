-- ===== src/Guard/Numerals.antt =====
-- Numerals: they are digits, and different numbers have different ones.
use model_passport.Prelude.{
  ltb, Bool-cases, All, All-append, ℕ, zero, suc, ◌+◌, ◌-◌, ◌*◌, ◌/◌, ◌%◌, ◌≤◌, ◌<◌, ◌≡◌, refl, sym,
  ap, ◌∙◌, inl, inr, [], ◌∷◌, ◌++◌, arith,
}
use model_passport.Llm.Entities.{Text}
use model_passport.Guard.Vault.{digits_of, numeral}

-- The number that a text of digits stands for, after `read`.
abbrev pub read_digits : ℕ → Text → ℕ
read_digits read [] = read
read_digits read (c ∷ text) = read_digits (read * 10 + (c - b'0')) text

read_digits-append :
    (read : ℕ) (text : Text) (c : ℕ)
    → read_digits read (text ++ c ∷ []) ≡ read_digits read text * 10 + (c - b'0')
read_digits-append read [] c = refl
read_digits-append read (d ∷ text) c = read_digits-append (read * 10 + (d - b'0')) text c

read_digits-digits_of : (fuel n : ℕ) → n < fuel → read_digits 0 (digits_of fuel n) ≡ n
unfolding digits_of
read_digits-digits_of zero n enough = absurd (omega (arith, enough))
read_digits-digits_of (suc fuel) n enough = elim (Bool-cases (ltb n 10)) [
  | inl e ↦ rw e omega arith
  | inr e ↦
      let big : 10 ≤ n = ground arith in
      let before = read_digits-digits_of fuel (n / 10) (omega (arith, big, enough)) in
      rw e (read_digits-append 0 (digits_of fuel (n / 10)) (b'0' + n % 10) ∙ rw before omega arith)
]

pub read_digits-numeral : (n : ℕ) → read_digits 0 (numeral n) ≡ n
unfolding numeral
read_digits-numeral n = read_digits-digits_of (suc n) n (omega arith)

pub numeral_injective : (m n : ℕ) → numeral m ≡ numeral n → m ≡ n
numeral_injective m n e = sym (read_digits-numeral m) ∙ ap (read_digits 0) e ∙ read_digits-numeral n

abbrev pub IsDigit : ℕ → Type 0
IsDigit c = (b'0' ≤ c) × (c ≤ b'9')

digits_of-IsDigit : (fuel n : ℕ) → All IsDigit (digits_of fuel n)
unfolding digits_of
digits_of-IsDigit zero n = tt
digits_of-IsDigit (suc fuel) n = elim (Bool-cases (ltb n 10)) [
  | inl e ↦ rw e ((omega arith, ground arith), tt)
  | inr e ↦ rw e (
      All-append IsDigit (digits_of fuel (n / 10)) _ (digits_of-IsDigit fuel (n / 10))
        ((omega arith, omega arith), tt))
]

pub numeral-IsDigit : (n : ℕ) → All IsDigit (numeral n)
unfolding numeral
numeral-IsDigit n = digits_of-IsDigit (suc n) n

-- A numeral has a first digit.
pub numeral-cons : (n : ℕ) → (c : ℕ) × (rest : Text) × (numeral n ≡ c ∷ rest)
unfolding numeral digits_of
numeral-cons n = elim (Bool-cases (ltb n 10)) [
  | inl e ↦ rw e (b'0' + n, [], refl)
  | inr e ↦ rw e (last_one (digits_of n (n / 10)) (b'0' + n % 10))
]
  where
    last_one : (text : Text) (c : ℕ) → (d : ℕ) × (rest : Text) × (text ++ c ∷ [] ≡ d ∷ rest)
    last_one [] c = (c, [], refl)
    last_one (d ∷ text) c = (d, text ++ c ∷ [], refl)
