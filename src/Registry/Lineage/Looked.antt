-- ===== src/Registry/Lineage/Looked.antt =====
-- What a round of the lineage does with the rows it looks at.
use model_passport.Prelude.{
  Bool-cases, keep, any, All, str_eq, str_eq_iff, str_eq_refl, String, ◌≡◌, refl, sym, ◌∙◌, subst,
  ◌⊎◌, inl, inr, true, not, none, List, [], ◌∷◌,
}
use mathlib.Core.List.{Memᴰ}
use model_passport.Registry.Db.{StoredPassport, summary, find_passport}
use model_passport.Registry.Lineage.{
  shown, Relation, Graph, has_node, set_node, parents, visit_parents, visit_all,
}
use model_passport.Registry.Lineage.Parents.{
  or_cases, or_left, or_right, has_node-set_node, waits, placed_in, IsRow, visit_parents-Visited,
}

-- A row is a node, and all its parents are placed.
abbrev pub Shown : StoredPassport → Graph × List StoredPassport → Type 0
Shown row result =
    (has_node row.passport_id result.0.nodes ≡ true)
    × ((link : String × Relation) → Memᴰ link (parents row) → placed_in result link.0 ≡ true)

module _ (rows : List StoredPassport) where
  -- What a round does with the rows it looks at: it loses no node, its new nodes have no row or are
  -- these rows, all of which become nodes, and all their parents are placed.
  abbrev pub Looked :
      List StoredPassport → Graph → List StoredPassport → Graph × List StoredPassport → Type 0
  Looked frontier graph next result =
      ((x : String) → has_node x graph.nodes ≡ true → has_node x result.0.nodes ≡ true)
      × ((x : String) → waits x next ≡ true → waits x result.1 ≡ true)
      × ((x : String)
          → has_node x result.0.nodes ≡ true
          → (has_node x graph.nodes ≡ true)
            ⊎ ((find_passport rows x ≡ none)
                ⊎ ((row : StoredPassport) × Memᴰ row frontier × (row.passport_id ≡ x))))
      × ((row : StoredPassport) → Memᴰ row frontier → Shown row result)
      × (All (IsRow rows) next → All (IsRow rows) result.1)

  placed_kept :
      (graph : Graph) (next : List StoredPassport) (result : Graph × List StoredPassport)
      (id : String)
      → (has_node id graph.nodes ≡ true → has_node id result.0.nodes ≡ true)
      → (waits id next ≡ true → waits id result.1 ≡ true)
      → placed_in (graph, next) id ≡ true
      → placed_in result id ≡ true
  placed_kept graph next result id nodes_kept waiting_kept e = elim (or_cases e) [
    | inl h ↦ or_left _ (nodes_kept h)
    | inr h ↦ or_right _ (waiting_kept h)
  ]

  pub visit_all-Looked :
      (frontier : List StoredPassport) (graph : Graph) (next : List StoredPassport)
      → Looked frontier graph next (visit_all rows frontier graph next)
  unfolding visit_all
  visit_all-Looked [] graph next = (λ x h. h, λ x h. h, λ x h. inl h, λ row m. elim m [ ], λ h. h)
  visit_all-Looked (current ∷ frontier) graph next =
      let id = current.passport_id in
      let started : Graph = record graph {
        nodes = set_node id (shown (summary current)) graph.nodes;
      } in
      let between = visit_parents rows id (parents current) started next in
      let (kept, waiting, fresh, placed, rows_kept) =
        visit_parents-Visited rows id (parents current) started next in
      let (kept', waiting', fresh', placed', rows_kept') =
        visit_all-Looked frontier between.0 between.1 in
      let after = visit_all rows frontier between.0 between.1 in
      let into : (x : String) → has_node x graph.nodes ≡ true → has_node x started.nodes ≡ true =
        λ x h.
          has_node-set_node x id (shown (summary current)) graph.nodes ∙ or_left (str_eq id x) h in
      (
        λ x h. kept' x (kept x (into x h)),
        λ x h. waiting' x (waiting x h),
        λ x h. elim (fresh' x h) [
          | inl before ↦ elim (fresh x before) [
            | inl at_start ↦
                elim (or_cases (sym (has_node-set_node x id _ graph.nodes) ∙ at_start)) [
                  | inl old ↦ inl old
                  | inr same ↦ inr (inr (current, Memᴰ.head refl, (str_eq_iff id x).0 same))
                ]
            | inr none_there ↦ inr (inl none_there)
          ]
          | inr (inl none_there) ↦ inr (inl none_there)
          | inr (inr (row, m, same)) ↦ inr (inr (row, Memᴰ.tail m, same))
        ],
        λ row m. elim m [
          | Memᴰ.head same ↦
              subst (λ r. Shown r after) (sym same)
                (
                  kept' id (
                      kept id
                        (has_node-set_node id id _ graph.nodes ∙ or_right _ (str_eq_refl id))),
                  λ link m.
                      placed_kept between.0 between.1 after link.0 (kept' link.0) (waiting' link.0)
                        (placed link m),
                )
          | Memᴰ.tail m ↦ placed' row m
        ],
        λ h. rows_kept' (rows_kept h),
      )

  pub waits-Mem :
      (x : String) (frontier : List StoredPassport)
      → waits x frontier ≡ true
      → (row : StoredPassport) × Memᴰ row frontier × (row.passport_id ≡ x)
  unfolding any
  waits-Mem x [] e = absurd (cc)
  waits-Mem x (r ∷ frontier) e = elim (or_cases e) [
    | inl h ↦ (r, Memᴰ.head refl, (str_eq_iff r.passport_id x).0 h)
    | inr h ↦ let (row, m, same) = waits-Mem x frontier h in (row, Memᴰ.tail m, same)
  ]

  abbrev pub unseen : Graph → List StoredPassport → List StoredPassport
  unseen graph frontier = keep (λ p. not (has_node p.passport_id graph.nodes)) frontier

  pub waits-unseen :
      (x : String) (graph : Graph) (frontier : List StoredPassport)
      → waits x frontier ≡ true
      → (has_node x graph.nodes ≡ true) ⊎ (waits x (unseen graph frontier) ≡ true)
  unfolding any keep
  waits-unseen x graph [] e = absurd (cc)
  waits-unseen x graph (r ∷ frontier) e = elim (Bool-cases (has_node r.passport_id graph.nodes)) [
    | inl seen ↦ rw (seen) elim (or_cases {a = str_eq r.passport_id x} e) [
      | inl h ↦
          inl (subst (λ i. has_node i graph.nodes ≡ true) ((str_eq_iff r.passport_id x).0 h) seen)
      | inr h ↦ waits-unseen x graph frontier h
    ]
    | inr fresh ↦ rw (fresh) elim (or_cases {a = str_eq r.passport_id x} e) [
      | inl h ↦ inr (or_left (waits x (unseen graph frontier)) h)
      | inr h ↦ elim (waits-unseen x graph frontier h) [
        | inl there ↦ inl there
        | inr there ↦ inr (or_right (str_eq r.passport_id x) there)
      ]
    ]
  ]

  pub unseen-IsRow :
      (graph : Graph) (frontier : List StoredPassport)
      → All (IsRow rows) frontier
      → All (IsRow rows) (unseen graph frontier)
  unfolding keep
  unseen-IsRow graph [] all = tt
  unseen-IsRow graph (r ∷ frontier) (h, all) =
      elim (Bool-cases (has_node r.passport_id graph.nodes)) [
        | inl seen ↦ rw (seen) (unseen-IsRow graph frontier all)
        | inr fresh ↦ rw (fresh) (h, unseen-IsRow graph frontier all)
      ]
