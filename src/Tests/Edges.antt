-- ===== src/Tests/Edges.antt =====
-- The edges of stack-graphs/src/graph.rs, on a graph with edges from node 3 to nodes 4 and 6.
use stack_graphs_muffet.Prelude.{zero, suc, ◌≡◌, ◌<◌, refl, [], ◌∷◌, some, arith, pos}
use stack_graphs_muffet.Arena.{Handle}
use stack_graphs_muffet.Arena.Supplemental
use stack_graphs_muffet.Graph.Edges
use stack_graphs_muffet.Graph.Edges.Count.{as_degree}
use stack_graphs_muffet.Graph.EdgeStore.{EdgeStore, add_edge, edges_of, degree_of, sink_of}
use stack_graphs_muffet.Graph.EdgeStore.Search
use stack_graphs_muffet.Graph.EdgeStore.Search.{find_key}
use stack_graphs_muffet.Graph.EdgeStore.Sorted.{
  IsSorted, edge_between, add_edge-IsSorted, add_edge-edge_between,
}
use stack_graphs_muffet.Graph.EdgeStore.Degrees.{
  HasDegrees, total_to, edges_to, add_edge-HasDegrees,
}

abbrev graph : EdgeStore
graph = record {
  outgoing_edges = record {
    items =
        []
        ∷ []
        ∷ (record { sink = 4; precedence = pos 0 } ∷ record { sink = 6; precedence = pos 1 } ∷ [])
        ∷ [];
  };
  incoming_edges = record {
    items = Edges.zero ∷ Edges.zero ∷ Edges.zero ∷ Edges.one ∷ Edges.zero ∷ Edges.one ∷ [];
  };
}

IsSorted-at : (source : Handle) → Search.IsSorted sink_of (edges_of graph.outgoing_edges source)
unfolding Supplemental.get
IsSorted-at zero = refl
IsSorted-at (suc zero) = refl
IsSorted-at (suc (suc zero)) = refl
IsSorted-at (suc (suc (suc zero))) = ((omega arith, refl), (refl, refl))
IsSorted-at (suc (suc (suc (suc n)))) = refl

graph-IsSorted : IsSorted graph
graph-IsSorted = record { increasing = λ s h. IsSorted-at s }

degree_at :
    (t : Handle)
    → 0 < t
    → degree_of graph.incoming_edges t ≡ as_degree (total_to t graph.outgoing_edges.items)
unfolding Supplemental.get total_to edges_to as_degree
degree_at zero h = absurd (omega arith)
degree_at (suc zero) h = refl
degree_at (suc (suc zero)) h = refl
degree_at (suc (suc (suc zero))) h = refl
degree_at (suc (suc (suc (suc zero)))) h = refl
degree_at (suc (suc (suc (suc (suc zero))))) h = refl
degree_at (suc (suc (suc (suc (suc (suc zero)))))) h = refl
degree_at (suc (suc (suc (suc (suc (suc (suc n))))))) h = ground arith

graph-HasDegrees : HasDegrees graph
graph-HasDegrees = record { counted = degree_at }

add_edge-IsSorted_example : IsSorted (add_edge graph 3 5 (pos 2))
add_edge-IsSorted_example = add_edge-IsSorted graph 3 5 (pos 2) (omega arith) graph-IsSorted

add_edge-HasDegrees_example : HasDegrees (add_edge graph 3 4 (pos 2))
add_edge-HasDegrees_example =
    add_edge-HasDegrees graph 3 4 (pos 2) (omega arith) (omega arith) graph-HasDegrees

add_edge-edge_between_example :
    edge_between (add_edge graph 3 5 (pos 2)) 3 5 ≡ some (record { sink = 5; precedence = pos 2 })
unfolding edge_between find_key Supplemental.get
add_edge-edge_between_example =
    add_edge-edge_between graph 3 5 (pos 2) 3 5 (omega arith) (omega arith) graph-IsSorted
