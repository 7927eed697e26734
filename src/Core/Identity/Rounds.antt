-- ===== src/Core/Identity/Rounds.antt =====
-- The rounds of the Merkle tree end.
use model_passport.Prelude.{
  length, ℕ, zero, suc, ◌≤◌, ◌≡◌, refl, ap, ◌∙◌, some, List, [], ◌∷◌, map, arith,
}
use mathlib.Core.Option
use model_passport.Core.Identity.{pair_up, rounds}

module _ {A : Type 0} (node : A → A → A) where
  length-pair_up : (xs : List A) → length (pair_up node xs) ≤ length xs
  unfolding pair_up
  length-pair_up [] = omega arith
  length-pair_up (x ∷ []) = omega arith
  length-pair_up (x ∷ y ∷ rest) = omega (arith, length-pair_up rest)

  -- As many rounds as there are elements are enough for a list that is not empty.
  pub rounds_enough :
      (fuel : ℕ) (x : A) (rest : List A)
      → length rest ≤ fuel
      → (root : A) × (rounds node fuel (x ∷ rest) ≡ some root)
  unfolding rounds pair_up
  rounds_enough fuel x [] h = (x, refl)
  rounds_enough zero x (y ∷ rest) h = absurd (omega (arith, h))
  rounds_enough (suc fuel) x (y ∷ rest) h =
      rounds_enough fuel (node x y) (pair_up node rest) (omega (arith, length-pair_up rest, h))

  module _ {B : Type 0} (other : B → B → B) (f : A → B)
      (hom : (x y : A) → f (node x y) ≡ other (f x) (f y)) where
    map-pair_up : (xs : List A) → pair_up other (map f xs) ≡ map f (pair_up node xs)
    unfolding pair_up
    map-pair_up [] = refl
    map-pair_up (x ∷ []) = refl
    map-pair_up (x ∷ y ∷ rest) = rw (hom x y, map-pair_up rest) refl

    -- A map that respects the joining respects the rounds.
    pub rounds-map :
        (fuel : ℕ) (xs : List A) → rounds other fuel (map f xs) ≡ Option.map f (rounds node fuel xs)
    unfolding rounds
    rounds-map fuel [] = refl
    rounds-map fuel (x ∷ []) = refl
    rounds-map zero (x ∷ y ∷ rest) = refl
    rounds-map (suc fuel) (x ∷ y ∷ rest) =
        ap (rounds other fuel) (map-pair_up (x ∷ y ∷ rest))
        ∙ rounds-map fuel (pair_up node (x ∷ y ∷ rest))
