-- ===== src/Registry/Lineage/Parents.antt =====
-- What the loop over the parents of a row does to the graph and to the rows that wait.
use model_passport.Prelude.{
  Bool-cases, Option-cases, any, first_sound, All, All-append, any-update, any-append, any-split,
  str_eq, str_eq_iff, str_eq_refl, String, ◌≡◌, refl, sym, ap, ◌∙◌, subst, ◌⊎◌, inl, inr, Bool,
  true, false, ◌||◌, none, some, List, [], ◌∷◌, ◌++◌, arith,
}
use mathlib.Core.List.{Memᴰ}
use model_passport.Registry.Lineage.{
  Node, absent, Relation, Edge, Graph, has_node, set_node, set_default, visit_parents,
}
use model_passport.Registry.Db.{StoredPassport, find_passport}

pub or_cases : {a b : Bool} → (a || b) ≡ true → (a ≡ true) ⊎ (b ≡ true)
or_cases {a = true} e = inl refl
or_cases {a = false} e = inr e

pub or_left : {a : Bool} (b : Bool) → a ≡ true → (a || b) ≡ true
or_left b e = ground arith

pub or_right : (a : Bool) {b : Bool} → b ≡ true → (a || b) ≡ true
or_right a e = ground arith

-- A node that is there absorbs the test on its identifier.
seen_already :
    (x id : String) (nodes : List (String × Node))
    → has_node id nodes ≡ true
    → has_node x nodes ≡ (has_node x nodes || str_eq id x)
seen_already x id nodes e = elim (Bool-cases (str_eq id x)) [
  | inl same ↦
      let there = subst (λ i. has_node i nodes ≡ true) ((str_eq_iff id x).0 same) e in ground arith
  | inr differs ↦ ground arith
]

has_node-last :
    (x id : String) (node : Node) (nodes : List (String × Node))
    → has_node x (nodes ++ (id, node) ∷ []) ≡ (has_node x nodes || str_eq id x)
unfolding has_node any
has_node-last x id node nodes = any-split (λ n. str_eq n.0 x) nodes ((id, node) ∷ []) ∙ ground arith

-- `set_node` and `set_default` keep the identifiers that are there and add theirs.
pub has_node-set_node :
    (x id : String) (node : Node) (nodes : List (String × Node))
    → has_node x (set_node id node nodes) ≡ (has_node x nodes || str_eq id x)
unfolding set_node has_node
has_node-set_node x id node nodes = elim (Bool-cases (has_node id nodes)) [
  | inl e ↦
      rw (set_node, e)
        (any-update (λ n. str_eq n.0 x) (λ n. str_eq n.0 id) (λ _. (id, node)) nodes
            (λ n same. rw ((str_eq_iff n.0 id).0 same) refl)
          ∙ seen_already x id nodes e)
  | inr e ↦ rw (set_node, e) (has_node-last x id node nodes)
]

pub has_node-set_default :
    (x id : String) (node : Node) (nodes : List (String × Node))
    → has_node x (set_default id node nodes) ≡ (has_node x nodes || str_eq id x)
unfolding set_default
has_node-set_default x id node nodes = elim (Bool-cases (has_node id nodes)) [
  | inl e ↦ rw (set_default, e) (seen_already x id nodes e)
  | inr e ↦ rw (set_default, e) (has_node-last x id node nodes)
]

-- A row with this identifier waits for the next round.
abbrev pub waits : String → List StoredPassport → Bool
waits id frontier = any (λ r. str_eq r.passport_id id) frontier

-- A node, or a row that waits.
abbrev pub placed_in : Graph × List StoredPassport → String → Bool
placed_in result id = has_node id result.0.nodes || waits id result.1

module _ (rows : List StoredPassport) where
  abbrev pub IsRow : StoredPassport → Type 0
  IsRow row = find_passport rows row.passport_id ≡ some row

  pub find_passport-id :
      (id : String) {row : StoredPassport}
      → find_passport rows id ≡ some row
      → (row.passport_id ≡ id) × IsRow row
  unfolding find_passport
  find_passport-id id {row} e =
      let same = (str_eq_iff row.passport_id id).0 (first_sound _ rows e) in
      (same, subst (λ i. find_passport rows i ≡ some row) (sym same) e)

  -- What a part of a round does to the nodes and to the rows that wait: it loses none, its new
  -- nodes have no row or are among `shown_now`, and it finds a place for all of `wanted`.
  abbrev pub Visited :
      List (String × Relation) → Graph → List StoredPassport → Graph × List StoredPassport → Type 0
  Visited wanted graph next result =
      ((x : String) → has_node x graph.nodes ≡ true → has_node x result.0.nodes ≡ true)
      × ((x : String) → waits x next ≡ true → waits x result.1 ≡ true)
      × ((x : String)
          → has_node x result.0.nodes ≡ true
          → (has_node x graph.nodes ≡ true) ⊎ (find_passport rows x ≡ none))
      × ((link : String × Relation) → Memᴰ link wanted → placed_in result link.0 ≡ true)
      × (All IsRow next → All IsRow result.1)

  pub visit_parents-Visited :
      (child : String) (links : List (String × Relation)) (graph : Graph)
      (next : List StoredPassport)
      → Visited links graph next (visit_parents rows child links graph next)
  unfolding visit_parents any
  visit_parents-Visited child [] graph next =
      (λ x h. h, λ x h. h, λ x h. inl h, λ link m. elim m [ ], λ h. h)
  visit_parents-Visited child ((id, relation) ∷ links) graph next =
      elim (Option-cases (find_passport rows id)) [
        | inl e ↦
            let edge : Edge = record { parent = id; child = child; relation = relation } in
            let later : Graph = record {
              nodes = set_default id absent graph.nodes;
              edges = graph.edges ++ edge ∷ [];
            } in
            let result = visit_parents rows child links later next in
            let (nodes_kept, waiting_kept, new_nodes, placed, are_rows) =
              visit_parents-Visited child links later next in
            rw (visit_parents, e)
              (
                λ x h. nodes_kept x (has_node-set_default x id absent graph.nodes ∙ rw h refl),
                waiting_kept,
                λ x h. elim (new_nodes x h) [
                  | inr none_there ↦ inr none_there
                  | inl there ↦
                      elim (or_cases (sym (has_node-set_default x id absent graph.nodes) ∙ there)) [
                        | inl old ↦ inl old
                        | inr same ↦
                            inr (
                              subst (λ i. find_passport rows i ≡ none) ((str_eq_iff id x).0 same) e)
                      ]
                ],
                λ link m. elim m [
                  | Memᴰ.head same ↦
                      subst (λ i. placed_in result i ≡ true)
                        (sym (ap (λ (l : String × Relation). l.0) same))
                        (or_left (waits id result.1) (
                          nodes_kept id (
                            has_node-set_default id id absent graph.nodes
                            ∙ or_right (has_node id graph.nodes) (str_eq_refl id))))
                  | Memᴰ.tail m ↦ placed link m
                ],
                are_rows,
              )
        | inr (row, e) ↦
            let edge : Edge = record { parent = id; child = child; relation = relation } in
            let later : Graph = record graph { edges = graph.edges ++ edge ∷ [] } in
            let result = visit_parents rows child links later (next ++ row ∷ []) in
            let (nodes_kept, waiting_kept, new_nodes, placed, are_rows) =
              visit_parents-Visited child links later (next ++ row ∷ []) in
            rw (visit_parents, e)
              (
                nodes_kept,
                λ x h. waiting_kept x (any-append _ next _ h),
                new_nodes,
                λ link m. elim m [
                  | Memᴰ.head same ↦
                      subst (λ i. placed_in result i ≡ true)
                        (sym (ap (λ (l : String × Relation). l.0) same))
                        (or_right (has_node id result.0.nodes) (
                          waiting_kept id (
                            any-split (λ r. str_eq r.passport_id id) next (row ∷ [])
                            ∙ or_right (waits id next) (
                                or_left false
                                  ((str_eq_iff row.passport_id id).1 (find_passport-id id e).0)))))
                  | Memᴰ.tail m ↦ placed link m
                ],
                λ h. are_rows (All-append IsRow next _ h ((find_passport-id id e).1, tt)),
              )
      ]
