-- ===== src/Guard/Restored.antt =====
-- A protected request is restored: the placeholders turn back into the values they stand for.
use model_passport.Prelude.{
  ◌==◌, length, All, ℕ, zero, suc, ◌+◌, ◌-◌, ◌≤◌, ◌≡◌, refl, sym, ap, ◌∙◌, subst, false, none, some,
  [], ◌∷◌, ◌++◌, arith,
}
use mathlib.Core.List.{append-nil}
use model_passport.Llm.Entities.{Text, from_index, up_to, slice}
use model_passport.Guard.Vault.{
  Decimals, numeral, Vault, value_of_token, render, match_placeholder, replacement, restore_from,
}
use model_passport.Guard.Tokens.{IsKind, match_placeholder-render}

-- No character starts a placeholder.
abbrev pub IsPlain : Text → Type 0
IsPlain text = All (λ c. (c == b'[') ≡ false) text

pub join_right : (a b c : Text) → (a ++ b) ++ c ≡ a ++ (b ++ c)
join_right [] b c = refl
join_right (x ∷ a) b c = ap (◌∷◌ x) (join_right a b c)

up_to-whole : (a b : Text) → up_to (length a) (a ++ b) ≡ a
unfolding up_to
up_to-whole [] b = refl
up_to-whole (x ∷ a) b = ap (◌∷◌ x) (up_to-whole a b)

up_to-from_index : (n : ℕ) (text : Text) → up_to n text ++ from_index n text ≡ text
unfolding up_to from_index
up_to-from_index zero text = refl
up_to-from_index (suc n) [] = refl
up_to-from_index (suc n) (c ∷ text) = ap (◌∷◌ c) (up_to-from_index n text)

from_index-twice :
    (a n m : ℕ) (text : Text) → m ≡ a + n → from_index n (from_index a text) ≡ from_index m text
unfolding from_index
from_index-twice zero n m text e =
    subst (λ k. from_index n text ≡ from_index k text) (omega (arith, e)) refl
from_index-twice (suc a) n zero text e = absurd (omega (arith, e))
from_index-twice (suc a) zero (suc m) [] e = refl
from_index-twice (suc a) (suc n) (suc m) [] e = refl
from_index-twice (suc a) n (suc m) (c ∷ text) e = from_index-twice a n m text (omega (arith, e))

-- A text up to a place, and from there on, is the text.
pub slice-from_index :
    (a b : ℕ) (text : Text) → a ≤ b → slice a b text ++ from_index b text ≡ from_index a text
unfolding slice
slice-from_index a b text le =
    ap (λ t. up_to (b - a) (from_index a text) ++ t)
      (sym (from_index-twice a (b - a) b text (omega (arith, le))))
    ∙ up_to-from_index (b - a) (from_index a text)

up_to-IsPlain : (n : ℕ) (text : Text) → IsPlain text → IsPlain (up_to n text)
unfolding up_to
up_to-IsPlain zero text plain = tt
up_to-IsPlain (suc n) [] plain = tt
up_to-IsPlain (suc n) (c ∷ text) (h, plain) = (h, up_to-IsPlain n text plain)

pub from_index-IsPlain : (n : ℕ) (text : Text) → IsPlain text → IsPlain (from_index n text)
unfolding from_index
from_index-IsPlain zero text plain = plain
from_index-IsPlain (suc n) [] plain = tt
from_index-IsPlain (suc n) (c ∷ text) (h, plain) = from_index-IsPlain n text plain

pub slice-IsPlain : (a b : ℕ) (text : Text) → IsPlain text → IsPlain (slice a b text)
unfolding slice
slice-IsPlain a b text plain =
    up_to-IsPlain (b - a) (from_index a text) (from_index-IsPlain a text plain)

module _ (lib : Decimals) (vault : Vault) where
  pub plain_kept :
      (piece text : Text)
      → IsPlain piece
      → restore_from lib none vault zero (piece ++ text)
        ≡ piece ++ restore_from lib none vault zero text
  unfolding restore_from match_placeholder
  plain_kept [] text plain = refl
  plain_kept (c ∷ []) [] (h, _) = refl
  plain_kept (c ∷ []) (d ∷ text) (h, _) = rw (restore_from, match_placeholder, h) refl
  plain_kept (c ∷ d ∷ piece) text (h, plain) =
      rw (restore_from, match_placeholder, h) (ap (◌∷◌ c) (plain_kept (d ∷ piece) text plain))

  skipped :
      (piece text : Text)
      → restore_from lib none vault (length piece) (piece ++ text)
        ≡ restore_from lib none vault zero text
  unfolding restore_from
  skipped [] text = refl
  skipped (c ∷ piece) text = skipped piece text

  matched_restored :
      (c : ℕ) (body text : Text) {value : Text}
      → match_placeholder lib (c ∷ (body ++ text)) ≡ some (suc (length body))
      → value_of_token (c ∷ body) vault.values ≡ some value
      → restore_from lib none vault zero (c ∷ (body ++ text))
        ≡ value ++ restore_from lib none vault zero text
  unfolding restore_from replacement
  matched_restored c body text {value} matched stands =
      let less : suc (length body) - 1 ≡ length body = omega arith in
      let replaced =
        ap (replacement lib none vault) (up_to-whole (c ∷ body) text)
        ∙ rw (replacement, stands) refl in
      rw (restore_from, matched)
        (ap (λ r. r ++ restore_from lib none vault (suc (length body) - 1) (body ++ text)) replaced
          ∙ ap (λ k. value ++ restore_from lib none vault k (body ++ text)) less
          ∙ ap (λ t. value ++ t) (skipped body text))

  -- A text without placeholders stays.
  pub plain_whole : (text : Text) → IsPlain text → restore_from lib none vault zero text ≡ text
  unfolding restore_from
  plain_whole text plain =
      ap (restore_from lib none vault zero) (sym (append-nil text))
      ∙ plain_kept text [] plain
      ∙ append-nil text

  -- A placeholder of the vault turns into its value.
  pub token_restored :
      (kind text : Text) (n : ℕ) {value : Text}
      → IsKind kind
      → value_of_token (render kind n) vault.values ≡ some value
      → restore_from lib none vault zero (render kind n ++ text)
        ≡ value ++ restore_from lib none vault zero text
  unfolding render
  token_restored kind text n k stands =
      matched_restored b'[' (kind ++ b'_' ∷ numeral n ++ b']' ∷ []) text
        (match_placeholder-render lib kind text n k) stands
