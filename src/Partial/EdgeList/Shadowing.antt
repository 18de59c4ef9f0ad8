-- ===== src/Partial/EdgeList/Shadowing.antt =====
-- `shadows` of the edge lists in stack-graphs/src/partial.rs.
use stack_graphs_muffet.Prelude.{
  ◌≡◌, ◌↔◌, refl, true, false, ==_refl, List, [], ◌∷◌, ◌++◌, map, arith, ℤ, ltb_ℤ, Option, some,
  none, Option-cases, Bool-cases, inl, inr, ◌==◌,
}
use stack_graphs_muffet.Utils.{equals_option}
use stack_graphs_muffet.Arena.{Handle}
use stack_graphs_muffet.Graph.NodeId
use stack_graphs_muffet.Graph.NodeId.{NodeId}
use stack_graphs_muffet.Partial.EdgeList.{
  PartialPathEdge, PartialPathEdgeList, shadows, shadows_loop, edge_shadows,
}

equals_refl : (id : NodeId) → NodeId.equals id id ≡ true
unfolding NodeId.equals
equals_refl id = elim (Option-cases id.file) [
  | inl root ↦ ground arith
  | inr (f, e) ↦ ground (arith, ==_refl f)
]

same_file : (f f' : Option Handle) → equals_option ◌==◌ f f' ≡ true → f ≡ f'
unfolding equals_option
same_file none none e = refl
same_file none (some g) e = absurd (ground (arith, e))
same_file (some f) none e = absurd (ground (arith, e))
same_file (some f) (some g) e = let same : f ≡ g = ground (arith, e) in ground (arith, same)

equals_sound : (a b : NodeId) → NodeId.equals a b ≡ true → a ≡ b
unfolding NodeId.equals
equals_sound a b e =
    let files : equals_option ◌==◌ a.file b.file ≡ true = ground (arith, e) in
    let file = same_file a.file b.file files in
    let local : a.local_id ≡ b.local_id = ground (arith, e) in
    λ i. record { file = file i; local_id = local i }

irreflexive : (p : ℤ) → ltb_ℤ p p ≡ false
irreflexive p = ground arith

shadows_loop-irreflexive : (es : List PartialPathEdge) → shadows_loop es es ≡ false
unfolding shadows_loop edge_shadows
shadows_loop-irreflexive [] = refl
shadows_loop-irreflexive (e ∷ es) =
    ground
      (arith, equals_refl e.source_node_id, irreflexive e.precedence, shadows_loop-irreflexive es)

-- No list of edges shadows itself.
shadows-irreflexive : (l : PartialPathEdgeList) → shadows l l ≡ false
unfolding shadows
shadows-irreflexive l = shadows_loop-irreflexive l.edges

abbrev sources : List PartialPathEdge → List NodeId
sources es = map (λ e. e.source_node_id) es

-- The two lists go through the same nodes up to a place where both have an edge from the same node, and
-- the edge of the first one has the higher precedence.
pub record Overtakes (xs ys : List PartialPathEdge) : Type 0 where
  pub before : List PartialPathEdge
  pub edge : PartialPathEdge
  pub after : List PartialPathEdge
  pub other_before : List PartialPathEdge
  pub other_edge : PartialPathEdge
  pub other_after : List PartialPathEdge
  pub splits : xs ≡ before ++ edge ∷ after
  pub other_splits : ys ≡ other_before ++ other_edge ∷ other_after
  pub same_nodes : sources before ≡ sources other_before
  pub same_node : edge.source_node_id ≡ other_edge.source_node_id
  pub higher : ltb_ℤ other_edge.precedence edge.precedence ≡ true

shadows_loop-Overtakes :
    (xs ys : List PartialPathEdge) → shadows_loop xs ys ≡ true → Overtakes xs ys
unfolding shadows_loop edge_shadows
shadows_loop-Overtakes [] ys e = absurd (ground (arith, e))
shadows_loop-Overtakes (x ∷ xs) [] e = absurd (ground (arith, e))
shadows_loop-Overtakes (x ∷ xs) (y ∷ ys) e =
    let equal : NodeId.equals x.source_node_id y.source_node_id ≡ true = ground (arith, e) in
    let node = equals_sound x.source_node_id y.source_node_id equal in
    let later = shadows_loop-Overtakes xs ys in
    elim (Bool-cases (ltb_ℤ y.precedence x.precedence)) [
      | inl higher ↦ record {
        before = [];
        edge = x;
        after = xs;
        other_before = [];
        other_edge = y;
        other_after = ys;
        splits = refl;
        other_splits = refl;
        same_nodes = refl;
        same_node = node;
        higher = higher;
      }
      | inr lower ↦
          let rest : shadows_loop xs ys ≡ true = ground (arith, e, equal, lower) in
          let o = later rest in
          record {
            before = x ∷ o.before;
            edge = o.edge;
            after = o.after;
            other_before = y ∷ o.other_before;
            other_edge = o.other_edge;
            other_after = o.other_after;
            splits = λ i. x ∷ o.splits i;
            other_splits = λ i. y ∷ o.other_splits i;
            same_nodes = λ i. node i ∷ o.same_nodes i;
            same_node = o.same_node;
            higher = o.higher;
          }
    ]

shadows_loop-split :
    (before : List PartialPathEdge) (x : PartialPathEdge) (after before' : List PartialPathEdge)
    (y : PartialPathEdge) (after' : List PartialPathEdge)
    → sources before ≡ sources before'
    → x.source_node_id ≡ y.source_node_id
    → ltb_ℤ y.precedence x.precedence ≡ true
    → shadows_loop (before ++ x ∷ after) (before' ++ y ∷ after') ≡ true
unfolding shadows_loop edge_shadows
shadows_loop-split [] x after [] y after' nodes node higher =
    let equal : NodeId.equals x.source_node_id y.source_node_id ≡ true =
      rw node (equals_refl y.source_node_id) in
    ground (arith, equal, higher)
shadows_loop-split [] x after (c ∷ before') y after' nodes node higher = absurd cc
shadows_loop-split (b ∷ before) x after [] y after' nodes node higher = absurd cc
shadows_loop-split (b ∷ before) x after (c ∷ before') y after' nodes node higher =
    let front : b.source_node_id ≡ c.source_node_id = cc in
    let rest : sources before ≡ sources before' = cc in
    let equal : NodeId.equals b.source_node_id c.source_node_id ≡ true =
      rw front (equals_refl c.source_node_id) in
    let later = shadows_loop-split before x after before' y after' rest node higher in
    ground (arith, equal, later)

-- One list of edges shadows another one exactly if, after a start on which both go through the same
-- nodes, both have an edge from the same node, and there the first one has the higher precedence.
pub shadows-Overtakes :
    (l other : PartialPathEdgeList) → (shadows l other ≡ true) ↔ Overtakes l.edges other.edges
unfolding shadows
shadows-Overtakes l other = (
  shadows_loop-Overtakes l.edges other.edges,
  λ o. rw o.splits (
      rw o.other_splits (
        shadows_loop-split o.before o.edge o.after o.other_before o.other_edge o.other_after
          o.same_nodes o.same_node o.higher)),
)
