-- ===== src/Stitching/Find/Stores.antt =====
-- The paths of a `Database` (stack-graphs/src/stitching.rs) by their start and end nodes.
use stack_graphs_muffet.Prelude.{
  ℕ, suc, ◌+◌, ◌<◌, ◌≡◌, subst, not, ◌&&◌, ◌==◌, inl, inr, Bool, Bool-cases, false, if◌then◌else◌,
  List, [], ◌∷◌, ◌++◌, length, arith, none, some,
}
use stack_graphs_muffet.Arena.{Handle}
use stack_graphs_muffet.Arena.Supplemental.{SupplementalArena}
use stack_graphs_muffet.Arena.Supplemental.Laws.{or_default-put}
use stack_graphs_muffet.Graph.Edges.{Degree, add_degree}
use stack_graphs_muffet.Graph.Node
use stack_graphs_muffet.Graph.Node.{Node}
use stack_graphs_muffet.Graph.StackGraph
use stack_graphs_muffet.Graph.StackGraph.{StackGraph}
use stack_graphs_muffet.Partial.Path.{PartialPath}
use stack_graphs_muffet.Stitching.{count_path, degree}
use stack_graphs_muffet.Stitching.Index.{RootPath}
use stack_graphs_muffet.Stitching.Adding.{root_path}

-- Whether a node of the graph is the root.
unfoldable pub is_root_at : StackGraph → Handle → Bool
unfolding StackGraph.index Node.is_root
is_root_at g node = elim (StackGraph.index g node) [ none ↦ false | some n ↦ Node.is_root n ]

-- The paths that start at the root, with the handles from `h` on.
unfoldable pub root_paths : StackGraph → Handle → List PartialPath → List RootPath
unfolding is_root_at root_path
root_paths g h [] = []
root_paths g h (p ∷ ps) =
    let rest = root_paths g (suc h) ps in
    if is_root_at g p.start_node then root_path p.symbol_stack_precondition h ∷ rest else rest

-- The handles of the paths that start at another node.
unfoldable pub node_paths : StackGraph → Handle → Handle → List PartialPath → List Handle
unfolding is_root_at
node_paths g node h [] = []
node_paths g node h (p ∷ ps) =
    let rest = node_paths g node (suc h) ps in
    if not (is_root_at g p.start_node) && (p.start_node == node) then h ∷ rest else rest

-- The number of paths that end at a node, as a degree.
unfoldable pub paths_to : Handle → List PartialPath → ℕ
paths_to node [] = 0
paths_to node (p ∷ ps) = if p.end_node == node then suc (paths_to node ps) else paths_to node ps

root_paths-snoc :
    (g : StackGraph) (h : Handle) (ps : List PartialPath) (p : PartialPath)
    → root_paths g h (ps ++ p ∷ []) ≡ (
        if is_root_at g p.start_node
        then root_paths g h ps ++ root_path p.symbol_stack_precondition (h + length ps) ∷ []
        else root_paths g h ps)
unfolding root_paths
root_paths-snoc g h [] p = let e : h + 0 ≡ h = omega arith in ground (arith, e)
root_paths-snoc g h (q ∷ ps) p =
    let e : h + suc (length ps) ≡ suc h + length ps = omega arith in
    ground (arith, e, root_paths-snoc g (suc h) ps p)

node_paths-snoc :
    (g : StackGraph) (node h : Handle) (ps : List PartialPath) (p : PartialPath)
    → node_paths g node h (ps ++ p ∷ []) ≡ (
        if not (is_root_at g p.start_node) && (p.start_node == node)
        then node_paths g node h ps ++ (h + length ps) ∷ []
        else node_paths g node h ps)
unfolding node_paths
node_paths-snoc g node h [] p = let e : h + 0 ≡ h = omega arith in ground (arith, e)
node_paths-snoc g node h (q ∷ ps) p =
    let e : h + suc (length ps) ≡ suc h + length ps = omega arith in
    elim (Bool-cases (not (is_root_at g q.start_node) && (q.start_node == node))) [
      | inl here ↦ ground (arith, e, here, node_paths-snoc g node (suc h) ps p)
      | inr away ↦ ground (arith, e, away, node_paths-snoc g node (suc h) ps p)
    ]

-- The same for the first handle.
pub root_paths-added :
    (g : StackGraph) (ps : List PartialPath) (p : PartialPath)
    → root_paths g 1 (ps ++ p ∷ []) ≡ (
        if is_root_at g p.start_node
        then root_paths g 1 ps ++ root_path p.symbol_stack_precondition (suc (length ps)) ∷ []
        else root_paths g 1 ps)
root_paths-added g ps p =
    let e : 1 + length ps ≡ suc (length ps) = omega arith in
    subst
      (λ n. root_paths g 1 (ps ++ p ∷ []) ≡ (
        if is_root_at g p.start_node
        then root_paths g 1 ps ++ root_path p.symbol_stack_precondition n ∷ []
        else root_paths g 1 ps))
      e (root_paths-snoc g 1 ps p)

pub node_paths-added :
    (g : StackGraph) (node : Handle) (ps : List PartialPath) (p : PartialPath)
    → node_paths g node 1 (ps ++ p ∷ []) ≡ (
        if not (is_root_at g p.start_node) && (p.start_node == node)
        then node_paths g node 1 ps ++ suc (length ps) ∷ []
        else node_paths g node 1 ps)
node_paths-added g node ps p =
    let e : 1 + length ps ≡ suc (length ps) = omega arith in
    subst
      (λ n. node_paths g node 1 (ps ++ p ∷ []) ≡ (
        if not (is_root_at g p.start_node) && (p.start_node == node)
        then node_paths g node 1 ps ++ n ∷ []
        else node_paths g node 1 ps))
      e (node_paths-snoc g node 1 ps p)

pub paths_to-snoc :
    (node : Handle) (ps : List PartialPath) (p : PartialPath)
    → paths_to node (ps ++ p ∷ [])
      ≡ (if p.end_node == node then suc (paths_to node ps) else paths_to node ps)
unfolding paths_to
paths_to-snoc node [] p = ground arith
paths_to-snoc node (q ∷ ps) p = ground (arith, paths_to-snoc node ps p)

pub degree-count_path :
    (degrees : SupplementalArena Degree) (k m : Handle)
    → 0 < k
    → 0 < m
    → degree (count_path degrees k) m
      ≡ (if k == m then add_degree (degree degrees k) Degree.one else degree degrees m)
unfolding count_path
degree-count_path degrees k m hk hm =
    or_default-put Degree.zero degrees k m (add_degree (degree degrees k) Degree.one) hk hm
