-- ===== src/Prelude/Strings.antt =====
-- Equality of texts as a test.
use Prim.Native.String.{String, ◌++◌ as text_append}
use text.Mathlib.Text.{◌==◌ as text_eq}
use text.Mathlib.TextEquality.{eq_iff}
use text.Mathlib.TextPositions.{eq_refl}
use Prim.Native.Char.{code}
use Prim.Native.Nat.{ℕ}
use mathlib.Core.List.{List, [], ◌∷◌}
use mathlib.Core.Path.{◌≡◌, refl}
use mathlib.Core.Logic.{◌↔◌}
use mathlib.Core.Bool.{Bool, true, false}

-- `+` on Python's `str`, and an f-string.
abbrev pub concat : String → String → String
concat s t = text_append s t

-- `==` on Python's `str`.
unfoldable pub str_eq : String → String → Bool
str_eq s t = text_eq s t

pub str_eq_iff : (s t : String) → (str_eq s t ≡ true) ↔ (s ≡ t)
unfolding str_eq
str_eq_iff s t = eq_iff s t

pub str_eq_refl : (s : String) → str_eq s s ≡ true
unfolding str_eq
str_eq_refl s = eq_refl s

-- A test that is right decides.
decide_by_test : {s t : String} → (b : Bool) → (b ≡ true) ↔ (s ≡ t) → Dec (s ≡ t)
decide_by_test true h = yes (h.0 refl)
decide_by_test false h = no (λ e. cc (h.1 e))

-- Texts have decidable equality, so that `hlevel` finds it for the records that hold them.
pub String-discrete : Discrete String
String-discrete s t = decide_by_test (str_eq s t) (str_eq_iff s t)

-- The code points of a literal, for the parts that take texts apart.
abbrev pub letters : String → List ℕ
letters String.[] = []
letters (String.◌∷◌ first_char others) = code first_char ∷ letters others
