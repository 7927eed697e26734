-- ===== src/Core/Identity/Trees.antt =====
-- The Merkle root binds the hashes under it.
use model_passport.Prelude.{
  ◌==◌, ==_iff, Bool-cases, Option-cases, some-eq, length, ℕ, zero, suc, String, ◌≡◌, refl, sym, ap,
  ◌∙◌, ◌≢◌, ◌⊎◌, inl, inr, none, some, List, [], ◌∷◌, ◌++◌, map, arith,
}
use mathlib.Core.Option
use mathlib.Core.List.{append_assoc, append-nil}
use model_passport.Core.Identity.{
  Digests, pair_up, rounds, leaf_digest, node_digest, root_of, sorted, all_bytes, merkle_root,
}
use model_passport.Prelude.Outcome.{ok, ok-eq}
use model_passport.Core.Identity.Rounds.{rounds-map}

-- The tree that the rounds build.
data Tree : Type 0 where
  leaf : List ℕ → Tree
  fork : Tree → Tree → Tree

abbrev leaves : Tree → List (List ℕ)
leaves (leaf bytes) = bytes ∷ []
leaves (fork l r) = leaves l ++ leaves r

abbrev all_leaves : List Tree → List (List ℕ)
all_leaves [] = []
all_leaves (t ∷ rest) = leaves t ++ all_leaves rest

all_leaves-pair_up : (ts : List Tree) → all_leaves (pair_up fork ts) ≡ all_leaves ts
unfolding pair_up
all_leaves-pair_up [] = refl
all_leaves-pair_up (t ∷ []) = refl
all_leaves-pair_up (t ∷ u ∷ rest) =
    append_assoc (leaves t) (leaves u) _
    ∙ ap (λ x. leaves t ++ (leaves u ++ x)) (all_leaves-pair_up rest)

rounds-leaves :
    (fuel : ℕ) (ts : List Tree) {t : Tree} → rounds fork fuel ts ≡ some t → leaves t ≡ all_leaves ts
unfolding rounds
rounds-leaves fuel [] e = absurd (cc)
rounds-leaves fuel (t ∷ []) e = ap leaves (sym (some-eq e)) ∙ sym (append-nil (leaves t))
rounds-leaves zero (t ∷ u ∷ rest) e = absurd (cc)
rounds-leaves (suc fuel) (t ∷ u ∷ rest) e =
    rounds-leaves fuel (pair_up fork (t ∷ u ∷ rest)) e ∙ all_leaves-pair_up (t ∷ u ∷ rest)

all_leaves-map : (bs : List (List ℕ)) → all_leaves (map leaf bs) ≡ bs
all_leaves-map [] = refl
all_leaves-map (b ∷ bs) = ap (λ x. b ∷ x) (all_leaves-map bs)

-- The first parts of equal sequences are equal when their lengths are, and so are the rest.
append_cancel : (a b c d : List ℕ) → length a ≡ length b → a ++ c ≡ b ++ d → (a ≡ b) × (c ≡ d)
append_cancel [] [] c d l e = (refl, e)
append_cancel [] (y ∷ b) c d l e = absurd (omega (arith, l))
append_cancel (x ∷ a) [] c d l e = absurd (omega (arith, l))
append_cancel (x ∷ a) (y ∷ b) c d l e =
    let later : a ++ c ≡ b ++ d = cc in
    let (p, q) = append_cancel a b c d (omega (arith, l)) later in (cc, q)

ℕ-discrete : Discrete ℕ
ℕ-discrete a b = elim (Bool-cases (a == b)) [
  | inl e ↦ yes ((==_iff a b).0 e)
  | inr e ↦ no (λ p. absurd (let h = (==_iff a b).1 p in cc))
]

Bytes-discrete : Discrete (List ℕ)
Bytes-discrete = hlevel (ℕ-discrete)

module _ (d : Digests) where
  -- Two byte strings with the same SHA-256.
  abbrev pub Collision : Type 0
  Collision = (a : List ℕ) × (b : List ℕ) × (a ≢ b) × (d.sha256 a ≡ d.sha256 b)

  same_input : (a b : List ℕ) → d.sha256 a ≡ d.sha256 b → (a ≡ b) ⊎ Collision
  same_input a b e = elim (Bytes-discrete a b) [ yes p ↦ inl p | no n ↦ inr (a, b, n, e) ]

  digest : Tree → List ℕ
  digest (leaf bytes) = leaf_digest d bytes
  digest (fork l r) = node_digest d (digest l) (digest r)

  length-digest : (t : Tree) → length (digest t) ≡ 32
  unfolding digest leaf_digest node_digest
  length-digest (leaf bytes) = d.width _
  length-digest (fork l r) = d.width _

  -- A leaf is never hashed as a node.
  domains_differ : (a b : List ℕ) → (0 ∷ a) ≢ (1 ∷ b)
  domains_differ a b e = let h : ◌≡◌ {A = ℕ} 0 1 = cc in omega (arith, h)

  same_tree : (t u : Tree) → digest t ≡ digest u → (t ≡ u) ⊎ Collision
  unfolding digest leaf_digest node_digest
  same_tree (leaf a) (leaf b) e = elim (same_input (0 ∷ a) (0 ∷ b) e) [
    | inl p ↦ inl (cc)
    | inr c ↦ inr c
  ]
  same_tree (leaf a) (fork l r) e = inr (_, _, domains_differ a _, e)
  same_tree (fork l r) (leaf b) e = inr (_, _, domains_differ b _, sym e)
  same_tree (fork l r) (fork m s) e =
      elim (same_input (1 ∷ digest l ++ digest r) (1 ∷ digest m ++ digest s) e) [
        | inr c ↦ inr c
        | inl p ↦
            let (left, right) =
              append_cancel (digest l) (digest m) (digest r) (digest s)
                (length-digest l ∙ sym (length-digest m)) (cc) in
            elim (same_tree l m left) [
              | inr c ↦ inr c
              | inl q ↦ elim (same_tree r s right) [ inr c ↦ inr c | inl w ↦ inl (cc) ]
            ]
      ]

  map-digest : (bs : List (List ℕ)) → map (leaf_digest d) bs ≡ map digest (map leaf bs)
  unfolding digest
  map-digest [] = refl
  map-digest (b ∷ bs) = ap (λ x. leaf_digest d b ∷ x) (map-digest bs)

  -- What the rounds compute is the digest of a tree with the leaves they start from.
  root_tree :
      (fuel : ℕ) (bs : List (List ℕ)) {root : List ℕ}
      → rounds (node_digest d) fuel (map (leaf_digest d) bs) ≡ some root
      → (t : Tree) × (digest t ≡ root) × (leaves t ≡ bs)
  unfolding digest
  root_tree fuel bs {root = root} e = elim (Option-cases (rounds fork fuel (map leaf bs))) [
    | inl n ↦ absurd (let h : none ≡ some root = ap (Option.map digest) (sym n) ∙ through e in cc)
    | inr (t, n) ↦ (
      t,
      some-eq (ap (Option.map digest) (sym n) ∙ through e),
      rounds-leaves fuel (map leaf bs) n ∙ all_leaves-map bs,
    )
  ]
    where
      through :
          rounds (node_digest d) fuel (map (leaf_digest d) bs) ≡ some root
          → Option.map digest (rounds fork fuel (map leaf bs)) ≡ some root
      through h =
          sym (rounds-map fork (node_digest d) digest (λ _ _. refl) fuel (map leaf bs))
          ∙ ap (rounds (node_digest d) fuel) (sym (map-digest bs))
          ∙ h

  root_of-tree :
      (bs : List (List ℕ)) {root : d.Hex}
      → root_of d bs ≡ ok root
      → (t : Tree) × (d.hex (digest t) ≡ root) × (leaves t ≡ bs)
  unfolding root_of
  root_of-tree bs e =
      elim (Option-cases (rounds (node_digest d) (length bs) (map (leaf_digest d) bs))) [
        | inl n ↦ absurd (let h = rw (root_of, n) at e in cc)
        | inr (root, n) ↦
            let (t, same, under) = root_tree (length bs) bs n in
            (t, ap d.hex same ∙ ok-eq (rw (root_of, n) at e), under)
      ]

  merkle_root-tree :
      (hashes : List String) {root : d.Hex}
      → merkle_root d hashes ≡ ok root
      → (t : Tree) × (d.hex (digest t) ≡ root)
        × (all_bytes d.fromhex (sorted hashes) ≡ some (leaves t))
  unfolding merkle_root
  merkle_root-tree [] e = absurd (cc)
  merkle_root-tree (h ∷ rest) e = elim (Option-cases (all_bytes d.fromhex (sorted (h ∷ rest)))) [
    | inl n ↦ absurd (let h = rw (merkle_root, n) at e in cc)
    | inr (bs, n) ↦
        let (t, same, under) = root_of-tree bs (rw (merkle_root, n) at e) in
        (t, same, n ∙ ap some (sym under))
  ]

  -- The Merkle root binds the hashes: if two lists of hashes have the same root, then sorted and
  -- read as bytes they are the same list, or two different byte strings have the same SHA-256.
  pub merkle_root_binds :
      (xs ys : List String) {root : d.Hex}
      → merkle_root d xs ≡ ok root
      → merkle_root d ys ≡ ok root
      → (all_bytes d.fromhex (sorted xs) ≡ all_bytes d.fromhex (sorted ys)) ⊎ Collision
  merkle_root_binds xs ys ex ey =
      let (t, tx, under_x) = merkle_root-tree xs ex in
      let (u, uy, under_y) = merkle_root-tree ys ey in
      elim (same_tree t u (d.hex_injective _ _ (tx ∙ sym uy))) [
        | inl p ↦ inl (under_x ∙ ap (λ x. some (leaves x)) p ∙ sym under_y)
        | inr c ↦ inr c
      ]
