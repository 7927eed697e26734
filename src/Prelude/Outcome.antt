-- ===== src/Prelude/Outcome.antt =====
-- Code that may raise: the error type is the component's own.
use mathlib.Core.Path.{◌≡◌, refl}
use mathlib.Core.Logic.{◌⊎◌, inl, inr}
use mathlib.Core.Bool.{Bool, true, false}

pub data Outcome {ℓ} (E A : Type ℓ) : Type ℓ where
  ok : A → Outcome E A
  err : E → Outcome E A

module _ {ℓ} {E A B : Type ℓ} where
  infixl 5 ◌>>=◌ ◌>>◌
  abbrev pub ◌>>=◌ : Outcome E A → (A → Outcome E B) → Outcome E B
  ok value >>= rest = rest value
  err raised >>= rest = err raised

  -- What comes after a statement whose value is not used.
  abbrev pub ◌>>◌ : Outcome E A → Outcome E B → Outcome E B
  first_part >> rest = first_part >>= (λ _. rest)

-- `if not test: raise e`
abbrev pub require : {E : Type 0} → Bool → E → Outcome E (Unit {0})
require true e = ok tt
require false e = err e

-- Inversion of a successful bind, for proofs where the parts stay shut.
pub >>=-eq-ok {ℓ} :
    {E A B : Type ℓ} (first_part : Outcome E A) (rest : A → Outcome E B) {last : B}
    → (first_part >>= rest) ≡ ok last
    → (value : A) × (first_part ≡ ok value) × (rest value ≡ ok last)
>>=-eq-ok (ok value) rest e = (value, refl, e)
>>=-eq-ok (err raised) rest e = cc

pub ok-eq {ℓ} : {E A : Type ℓ} {a b : A} → ◌≡◌ {A = Outcome E A} (ok a) (ok b) → a ≡ b
ok-eq e = cc

-- Past a test that raises, the test holds.
pub require-ok :
    {E A : Type 0} (b : Bool) (x : E) (k : Outcome E A) {r : A}
    → (require b x >> k) ≡ ok r
    → (b ≡ true) × (k ≡ ok r)
require-ok true x k e = (refl, e)
require-ok false x k e = absurd (cc)

pub require-holds : {E : Type 0} (b : Bool) (x : E) {u : Unit {0}} → require b x ≡ ok u → b ≡ true
require-holds true x e = refl
require-holds false x e = absurd (cc)

pub >>-eq-ok {ℓ} :
    {E A B : Type ℓ} (m : Outcome E A) (k : Outcome E B) {b : B}
    → (m >> k) ≡ ok b
    → (a : A) × (m ≡ ok a) × (k ≡ ok b)
>>-eq-ok (ok a) k h = (a, refl, h)
>>-eq-ok (err e) k h = cc

pub Outcome-cases {ℓ} :
    {E A : Type ℓ} (o : Outcome E A) → ((a : A) × (o ≡ ok a)) ⊎ ((e : E) × (o ≡ err e))
Outcome-cases (ok a) = inl (a, refl)
Outcome-cases (err e) = inr (e, refl)
