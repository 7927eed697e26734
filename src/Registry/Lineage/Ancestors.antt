-- ===== src/Registry/Lineage/Ancestors.antt =====
-- The lineage holds every ancestor that is near enough.
use model_passport.Prelude.{
  Bool-cases, some-eq, any, All, All-at, str_eq_refl, ℕ, zero, suc, ◌<◌, String, ◌≡◌, sym, ◌∙◌,
  subst, inl, inr, true, false, some, List, [], ◌∷◌, arith,
}
use mathlib.Core.List.{Memᴰ}
use model_passport.Core.Verifier.{is_empty}
use model_passport.Core.Verifier.Laws.{is_empty_iff}
use model_passport.Registry.Db.{StoredPassport, find_passport}
use model_passport.Registry.Lineage.{
  Relation, Graph, max_lineage_depth, has_node, parents, visit_all, lineage_rounds, lineage,
}
use model_passport.Registry.Lineage.Parents.{or_cases, or_left, or_right, waits, placed_in, IsRow}
use model_passport.Registry.Lineage.Looked.{
  visit_all-Looked, waits-Mem, unseen, waits-unseen, unseen-IsRow,
}

module _ (rows : List StoredPassport) where
  -- `Climb n y x`: `x` is the parent of a parent ... of `y`, `n` links up, by the rows of the table.
  pub data Climb : ℕ → String → String → Type 0 where
    here : (x : String) → Climb zero x x
    up :
        (n : ℕ) (y x : String) (row : StoredPassport) (link : String × Relation)
        → find_passport rows y ≡ some row
        → Memᴰ link (parents row)
        → Climb n link.0 x
        → Climb (suc n) y x

  -- The parents of the nodes are nodes or wait.
  abbrev IsClosed : Graph × List StoredPassport → Type 0
  IsClosed state =
      (x : String) (row : StoredPassport)
      → has_node x state.0.nodes ≡ true
      → find_passport rows x ≡ some row
      → (link : String × Relation) → Memᴰ link (parents row)
      → placed_in state link.0 ≡ true

  -- In a graph that is closed with nothing left to look at, all ancestors of a node are nodes.
  closed-Climb :
      (graph : Graph) (frontier : List StoredPassport)
      → IsClosed (graph, frontier)
      → ((x : String) → waits x frontier ≡ true → has_node x graph.nodes ≡ true)
      → {n : ℕ} {y x : String} → Climb n y x
      → has_node y graph.nodes ≡ true
      → has_node x graph.nodes ≡ true
  closed-Climb graph frontier closed all (here x) h = h
  closed-Climb graph frontier closed all (up n y x row link found m path) h =
      closed-Climb graph frontier closed all path
        (elim (or_cases (closed y row h found link m)) [ inl e ↦ e | inr e ↦ all link.0 e ])

  round-IsClosed :
      (graph : Graph) (frontier : List StoredPassport)
      → IsClosed (graph, frontier)
      → All (IsRow rows) frontier
      → IsClosed (visit_all rows (unseen rows graph frontier) graph [])
        × ((y : String)
            → placed_in (graph, frontier) y ≡ true
            → has_node y (visit_all rows (unseen rows graph frontier) graph []).0.nodes ≡ true)
        × All (IsRow rows) (visit_all rows (unseen rows graph frontier) graph []).1
  round-IsClosed graph frontier closed all =
      let result = visit_all rows (unseen rows graph frontier) graph [] in
      let (kept, _, fresh, looked, rows_kept) =
        visit_all-Looked rows (unseen rows graph frontier) graph [] in
      let placed : (y : String)
          → placed_in (graph, frontier) y ≡ true
          → has_node y result.0.nodes ≡ true =
        λ y h. elim (or_cases h) [
          | inl there ↦ kept y there
          | inr waiting ↦ elim (waits-unseen rows y graph frontier waiting) [
            | inl there ↦ kept y there
            | inr left ↦
                let (row, m, same) = waits-Mem rows y (unseen rows graph frontier) left in
                subst (λ i. has_node i result.0.nodes ≡ true) same (looked row m).0
          ]
        ] in
      (
        λ x row h found link m. elim (fresh x h) [
          | inl old ↦
              or_left (waits link.0 result.1) (placed link.0 (closed x row old found link m))
          | inr (inl none_there) ↦ absurd (cc)
          | inr (inr (current, there, same)) ↦
              let is_row =
                All-at (IsRow rows) (unseen rows graph frontier)
                  (unseen-IsRow rows graph frontier all) there in
              (looked current there).1 link (
                subst (λ r. Memᴰ link (parents r))
                  (some-eq
                    (sym found ∙ subst (λ i. find_passport rows i ≡ some current) same is_row))
                  m)
        ],
        placed,
        rows_kept tt,
      )

  rounds_kept :
      (depth : ℕ) (frontier : List StoredPassport) (graph : Graph) (x : String)
      → has_node x graph.nodes ≡ true
      → has_node x (lineage_rounds rows depth frontier graph).0.nodes ≡ true
  unfolding lineage_rounds
  rounds_kept zero frontier graph x h = h
  rounds_kept (suc depth) frontier graph x h =
      let result = visit_all rows (unseen rows graph frontier) graph [] in
      elim (Bool-cases (is_empty (unseen rows graph frontier))) [
        | inl e ↦ rw (e) h
        | inr e ↦ rw (e) (
            rounds_kept depth result.1 result.0 x
              ((visit_all-Looked rows (unseen rows graph frontier) graph []).0 x h))
      ]

  none_left :
      (graph : Graph) (frontier : List StoredPassport)
      → is_empty (unseen rows graph frontier) ≡ true
      → (z : String) → placed_in (graph, frontier) z ≡ true
      → has_node z graph.nodes ≡ true
  unfolding any
  none_left graph frontier e z h = elim (or_cases h) [
    | inl there ↦ there
    | inr w ↦ elim (waits-unseen rows z graph frontier w) [
      | inl there ↦ there
      | inr left ↦
          absurd (let left' = subst (λ u. waits z u ≡ true) ((is_empty_iff _).0 e) left in cc)
    ]
  ]

  rounds-Climb :
      (depth : ℕ) (frontier : List StoredPassport) (graph : Graph)
      → IsClosed (graph, frontier)
      → All (IsRow rows) frontier
      → {n : ℕ} {y x : String} → Climb n y x
      → placed_in (graph, frontier) y ≡ true
      → n < depth
      → has_node x (lineage_rounds rows depth frontier graph).0.nodes ≡ true
  unfolding lineage_rounds
  rounds-Climb zero frontier graph closed all path h few = absurd (omega (arith, few))
  rounds-Climb (suc depth) frontier graph closed all (here z) h few =
      elim (Bool-cases (is_empty (unseen rows graph frontier))) [
        | inl e ↦ rw (e) (none_left graph frontier e z h)
        | inr e ↦
            let result = visit_all rows (unseen rows graph frontier) graph [] in
            let (_, placed, _) = round-IsClosed graph frontier closed all in
            rw (e) (rounds_kept depth result.1 result.0 z (placed z h))
      ]
  rounds-Climb (suc depth) frontier graph closed all (up m z x row link found mem path) h few =
      elim (Bool-cases (is_empty (unseen rows graph frontier))) [
        | inl e ↦ rw (e) (
            closed-Climb graph frontier closed
              (λ w waiting.
                none_left graph frontier e w (or_right (has_node w graph.nodes) waiting))
              (up m z x row link found mem path) (none_left graph frontier e z h))
        | inr e ↦
            let result = visit_all rows (unseen rows graph frontier) graph [] in
            let (closed', placed, all') = round-IsClosed graph frontier closed all in
            rw (e) (
              rounds-Climb depth result.1 result.0 closed' all' path
                (closed' z row (placed z h) found link mem) (omega (arith, few)))
      ]

  -- For a passport that is in the table, every ancestor that is fewer than twenty links up, by the
  -- upstream models and the superseded versions of the rows, is a node of its lineage.
  pub lineage-Climb :
      (stored : StoredPassport) {n : ℕ} {x : String}
      → find_passport rows stored.passport_id ≡ some stored
      → Climb n stored.passport_id x
      → n < max_lineage_depth
      → has_node x (lineage rows stored).nodes ≡ true
  unfolding lineage has_node any
  lineage-Climb stored found path few =
      rounds-Climb max_lineage_depth (stored ∷ []) (record { nodes = []; edges = [] })
        (λ x row h. absurd (cc)) (found, tt) path (or_left false (str_eq_refl stored.passport_id))
        few
