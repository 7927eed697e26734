-- ===== src/Core/Identity.antt =====
-- src/model_passport/core/identity.py: the Merkle root of a passport's artifacts.
--
-- A byte string is the list of its bytes. SHA-256 and the hexadecimal notation are the parameter
-- `Digests`. `fuel` bounds the rounds; the number of leaves is enough (Identity/Rounds).
pub mod Rounds
pub mod Trees
pub mod Total
use model_passport.Prelude.{
  if◌then◌else◌, length, ℕ, zero, suc, String, ◌≡◌, Bool, true, false, Option, none, some, List, [],
  ◌∷◌, ◌++◌, map,
}
use Prim.Native.String.{compare}
use Prim.Native.Nat.{Ordering}
use mathlib.Core.Option
use mathlib.Core.Option.{bind}
use model_passport.Prelude.Outcome.{Outcome, ok, err}

-- SHA-256 gives 32 bytes, and two byte strings of the same notation are the same. `Hex` are the
-- texts that `bytes.hex` writes.
pub record Digests : Type 1 where
  pub Hex : Type 0
  pub sha256 : List ℕ → List ℕ
  pub fromhex : String → Option (List ℕ)
  pub hex : List ℕ → Hex
  pub width : (bytes : List ℕ) → length (sha256 bytes) ≡ 32
  pub hex_injective : (a b : List ℕ) → hex a ≡ hex b → a ≡ b

pub data MerkleError : Type 0 where
  no_hashes bad_hash out_of_fuel : MerkleError

-- `a <= b` on Python's `str`
unfoldable pub str_leb : String → String → Bool
str_leb a b = elim (compare a b) [ Ordering.gt ↦ false | _ ↦ true ]

unfoldable pub insert : String → List String → List String
unfolding str_leb
insert x [] = x ∷ []
insert x (y ∷ rest) = let later = insert x rest in if str_leb x y then x ∷ y ∷ rest else y ∷ later

-- `sorted(hashes)`
unfoldable pub sorted : List String → List String
unfolding insert
sorted [] = []
sorted (x ∷ rest) = insert x (sorted rest)

-- `[bytes.fromhex(h) for h in leaves]`
unfoldable pub all_bytes : (String → Option (List ℕ)) → List String → Option (List (List ℕ))
all_bytes fromhex [] = some []
all_bytes fromhex (h ∷ rest) =
    let others = all_bytes fromhex rest in
    bind (fromhex h) (λ bytes. Option.map (λ later. bytes ∷ later) others)

module _ {A : Type 0} (node : A → A → A) where
  -- One round: neighbours are joined, an odd one at the end is promoted.
  unfoldable pub pair_up : List A → List A
  pair_up [] = []
  pair_up (x ∷ []) = x ∷ []
  pair_up (x ∷ y ∷ rest) = node x y ∷ pair_up rest

  -- `while len(level) > 1`
  unfoldable pub rounds : ℕ → List A → Option A
  unfolding pair_up
  rounds fuel [] = none
  rounds fuel (x ∷ []) = some x
  rounds zero (x ∷ y ∷ rest) = none
  rounds (suc fuel) (x ∷ y ∷ rest) = rounds fuel (pair_up (x ∷ y ∷ rest))

module _ (d : Digests) where
  unfoldable pub leaf_digest : List ℕ → List ℕ
  leaf_digest bytes = d.sha256 (0 ∷ bytes)

  unfoldable pub node_digest : List ℕ → List ℕ → List ℕ
  node_digest left right = d.sha256 (1 ∷ left ++ right)

  unfoldable pub root_of : List (List ℕ) → Outcome MerkleError d.Hex
  unfolding rounds leaf_digest node_digest
  root_of leaves = elim (rounds node_digest (length leaves) (map leaf_digest leaves)) [
    | none ↦ err out_of_fuel
    | some root ↦ ok (d.hex root)
  ]

  unfoldable pub merkle_root : List String → Outcome MerkleError d.Hex
  unfolding sorted all_bytes root_of
  merkle_root [] = err no_hashes
  merkle_root (h ∷ rest) = elim (all_bytes d.fromhex (sorted (h ∷ rest))) [
    | none ↦ err bad_hash
    | some leaves ↦ root_of leaves
  ]
