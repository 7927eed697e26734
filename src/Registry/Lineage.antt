-- ===== src/Registry/Lineage.antt =====
-- src/model_passport/registry/api.py: the lineage of a stored passport, breadth first.
--
-- The dictionary of nodes is the list of its entries in the order of their insertion.
pub mod Parents
pub mod Looked
pub mod Ancestors
use model_passport.Prelude.{
  if◌then◌else◌, keep, any, update, str_eq, ℕ, zero, suc, String, Bool, not, Option, none, some,
  List, [], ◌∷◌, ◌++◌, map,
}
use model_passport.Core.Verifier.{is_empty}
use model_passport.Registry.Db.{StoredPassport, Summary, summary, find_passport}

pub data Node : Type 0 where
  shown : Summary → Node
  absent : Node

pub data Relation : Type 0 where
  upstream superseded : Relation

pub record Edge : Type 0 where
  pub parent : String
  pub child : String
  pub relation : Relation

pub record Graph : Type 0 where
  pub nodes : List (String × Node)
  pub edges : List Edge

-- `MAX_LINEAGE_DEPTH`
abbrev pub max_lineage_depth : ℕ
max_lineage_depth = 20

-- `key in nodes`
unfoldable pub has_node : String → List (String × Node) → Bool
has_node id nodes = any (λ n. str_eq n.0 id) nodes

-- `nodes[id] = node`: an entry that is there keeps its place.
unfoldable pub set_node : String → Node → List (String × Node) → List (String × Node)
unfolding has_node
set_node id node nodes =
    if has_node id nodes
    then update (λ n. str_eq n.0 id) (λ _. (id, node)) nodes
    else nodes ++ (id, node) ∷ []

-- `nodes.setdefault(id, node)`
unfoldable pub set_default : String → Node → List (String × Node) → List (String × Node)
unfolding has_node
set_default id node nodes = if has_node id nodes then nodes else nodes ++ (id, node) ∷ []

-- `if stored.supersedes:` leaves out the empty text too.
unfoldable pub superseded_id : Option String → List (String × Relation)
superseded_id none = []
superseded_id (some id) = if str_eq id "" then [] else (id, superseded) ∷ []

unfoldable pub parents : StoredPassport → List (String × Relation)
unfolding superseded_id
parents stored =
    map (λ link. (link, upstream)) stored.document.lineage_links ++ superseded_id stored.supersedes

module _ (rows : List StoredPassport) where
  -- The loop over the parents of one row: the graph, and the rows that the next round looks at.
  unfoldable pub visit_parents :
      String → List (String × Relation) → Graph → List StoredPassport → Graph × List StoredPassport
  unfolding set_default
  visit_parents child [] graph next = (graph, next)
  visit_parents child ((parent_id, relation) ∷ rest) graph next =
      let edges =
        graph.edges ++ record { parent = parent_id; child = child; relation = relation } ∷ [] in
      elim (find_passport rows parent_id) [
        | none ↦
            visit_parents child rest
              (record { nodes = set_default parent_id absent graph.nodes; edges = edges }) next
        | some parent ↦
            visit_parents child rest (record graph { edges = edges }) (next ++ parent ∷ [])
      ]

  unfoldable pub visit_all :
      List StoredPassport → Graph → List StoredPassport → Graph × List StoredPassport
  unfolding visit_parents set_node parents
  visit_all [] graph next = (graph, next)
  visit_all (current ∷ frontier) graph next =
      let (graph, next) =
        visit_parents current.passport_id (parents current)
          (record graph {
            nodes = set_node current.passport_id (shown (summary current)) graph.nodes;
          })
          next in
      visit_all frontier graph next

  -- `for _ in range(MAX_LINEAGE_DEPTH)`; the frontier that is left is not looked at.
  unfoldable pub lineage_rounds : ℕ → List StoredPassport → Graph → Graph × List StoredPassport
  unfolding visit_all
  lineage_rounds zero frontier graph = (graph, frontier)
  lineage_rounds (suc depth) frontier graph =
      let unseen = keep (λ p. not (has_node p.passport_id graph.nodes)) frontier in
      if is_empty unseen
      then (graph, [])
      else (let (graph, next) = visit_all unseen graph [] in lineage_rounds depth next graph)

  unfoldable pub lineage : StoredPassport → Graph
  unfolding lineage_rounds
  lineage stored =
      (lineage_rounds max_lineage_depth (stored ∷ []) (record { nodes = []; edges = [] })).0
