-- ===== src/Core/Identity/Total.antt =====
-- When there is a Merkle root.
use model_passport.Prelude.{
  Bool-cases, Option-cases, some-eq, length, length-map, ℕ, suc, ◌<◌, String, ◌≡◌, refl, sym, ap,
  ◌∙◌, inl, inr, Option, some, List, [], ◌∷◌, map, arith,
}
use mathlib.Core.Option.{bind}
use model_passport.Prelude.Outcome.{ok}
use model_passport.Core.Identity.{
  Digests, str_leb, insert, sorted, all_bytes, leaf_digest, node_digest, root_of, merkle_root,
}
use model_passport.Core.Identity.Rounds.{rounds_enough}

length-insert : (x : String) (xs : List String) → length (insert x xs) ≡ suc (length xs)
unfolding insert
length-insert x [] = refl
length-insert x (y ∷ rest) = elim (Bool-cases (str_leb x y)) [
  | inl e ↦ rw (insert, e) refl
  | inr e ↦ rw (insert, e) (ap suc (length-insert x rest))
]

length-sorted : (xs : List String) → length (sorted xs) ≡ length xs
unfolding sorted
length-sorted [] = refl
length-sorted (x ∷ rest) = length-insert x (sorted rest) ∙ ap suc (length-sorted rest)

length-all_bytes :
    (fromhex : String → Option (List ℕ)) (xs : List String) {bs : List (List ℕ)}
    → all_bytes fromhex xs ≡ some bs
    → length bs ≡ length xs
unfolding all_bytes bind
length-all_bytes fromhex [] e = ap length (sym (some-eq e))
length-all_bytes fromhex (x ∷ rest) e = elim (Option-cases (fromhex x)) [
  | inl n ↦ absurd (let h = rw (all_bytes, n, bind) at e in cc)
  | inr (b, n) ↦ elim (Option-cases (all_bytes fromhex rest)) [
    | inl m ↦ absurd (let h = rw (all_bytes, n, m, bind) at e in cc)
    | inr (others, m) ↦
        ap length (sym (some-eq (rw (all_bytes, n, m, bind) at e)))
        ∙ ap suc (length-all_bytes fromhex rest m)
  ]
]

root_of_total :
    (d : Digests) (bs : List (List ℕ)) → 0 < length bs → (root : d.Hex) × (root_of d bs ≡ ok root)
unfolding root_of
root_of_total d [] h = absurd (omega (arith, h))
root_of_total d (b ∷ bs) h =
    let (root, e) =
      rounds_enough (node_digest d) (suc (length bs)) (leaf_digest d b) (map (leaf_digest d) bs)
        (omega (arith, length-map (leaf_digest d) bs)) in
    (d.hex root, rw (root_of, e) refl)

-- There is a Merkle root for every list of at least one hash in which every hash is hexadecimal:
-- the rounds end.
pub merkle_root_total :
    (d : Digests) (hashes : List String) {bs : List (List ℕ)}
    → 0 < length hashes
    → all_bytes d.fromhex (sorted hashes) ≡ some bs
    → (root : d.Hex) × (merkle_root d hashes ≡ ok root)
unfolding merkle_root
merkle_root_total d [] some_hash e = absurd (omega (arith, some_hash))
merkle_root_total d (h ∷ rest) {bs = bs} some_hash e =
    let same = length-all_bytes d.fromhex (sorted (h ∷ rest)) e ∙ length-sorted (h ∷ rest) in
    let (root, run) = root_of_total d bs (omega (arith, same, some_hash)) in
    (root, rw (merkle_root, e) run)
