-- ===== src/Graph/EdgeStore/Sorted.antt =====
-- The edges of a node after `add_edge` and `set_edge_precedence` of stack-graphs/src/graph.rs.
use stack_graphs_muffet.Prelude.{
  ◌<◌, ◌≡◌, refl, ap, sym, ◌∙◌, subst, ◌&&◌, ◌==◌, if◌then◌else◌, Bool, Bool-cases, true, false,
  inl, inr, List, [], Option, none, some, ℤ, arith,
}
use stack_graphs_muffet.Arena.{Handle}
use stack_graphs_muffet.Arena.Supplemental.{SupplementalArena}
use stack_graphs_muffet.Arena.Supplemental.Laws.{or_default-put}
use stack_graphs_muffet.Graph.EdgeStore.{
  OutgoingEdge, EdgeStore, search, edges_of, put_edges, sink_of, add_edge,
}
use stack_graphs_muffet.Graph.EdgeStore.Search
use stack_graphs_muffet.Graph.EdgeStore.Search.{
  Position-cases, find_key, inserted, IsSorted-inserted, find_key-inserted,
}

edges_of-put :
    (outgoing : SupplementalArena (List OutgoingEdge)) (s s' : Handle) (es : List OutgoingEdge)
    → 0 < s
    → 0 < s'
    → edges_of (put_edges outgoing s es) s' ≡ (if s == s' then es else edges_of outgoing s')
edges_of-put outgoing s s' es h h' = or_default-put [] outgoing s s' es h h'

-- The edges of the source are those after an insertion.
add_edge-outgoing :
    (g : EdgeStore) (source sink : Handle) (precedence : ℤ)
    → (add_edge g source sink precedence).outgoing_edges
      ≡ put_edges g.outgoing_edges source (
          inserted sink_of
            (edges_of g.outgoing_edges source)
            sink
            (record { sink = sink; precedence = precedence }))
unfolding add_edge inserted
add_edge-outgoing g source sink precedence =
    elim (Position-cases (search sink_of (edges_of g.outgoing_edges source) sink)) [
      | inl (i, at) ↦ ground (arith, at)
      | inr (i, at) ↦ ground (arith, at)
    ]

-- The edges of each node stand in the order of their sinks.
pub record IsSorted (g : EdgeStore) : Type 0 where
  pub increasing :
      (source : Handle) → 0 < source → Search.IsSorted sink_of (edges_of g.outgoing_edges source)

-- `add_edge` keeps the edges of each node in the increasing order of their sinks. The source is not 0.
pub add_edge-IsSorted :
    (g : EdgeStore) (source sink : Handle) (precedence : ℤ)
    → 0 < source
    → IsSorted g
    → IsSorted (add_edge g source sink precedence)
add_edge-IsSorted g source sink precedence h sorted = record {
  increasing = λ s hs.
      let edges = edges_of g.outgoing_edges source in
      let new : OutgoingEdge = record { sink = sink; precedence = precedence } in
      let read = edges_of-put g.outgoing_edges source s (inserted sink_of edges sink new) h hs in
      let at : edges_of (add_edge g source sink precedence).outgoing_edges s
          ≡ (if source == s then inserted sink_of edges sink new else edges_of g.outgoing_edges s) =
        ap (λ z. edges_of z s) (add_edge-outgoing g source sink precedence) ∙ read in
      subst (Search.IsSorted sink_of) (sym at) (
        chosen (source == s) (inserted sink_of edges sink new) (edges_of g.outgoing_edges s)
          (IsSorted-inserted sink_of edges sink new refl (sorted.increasing source h))
          (sorted.increasing s hs));
}
  where
    chosen :
        (b : Bool) (xs ys : List OutgoingEdge)
        → Search.IsSorted sink_of xs
        → Search.IsSorted sink_of ys
        → Search.IsSorted sink_of (if b then xs else ys)
    chosen true xs ys i j = i
    chosen false xs ys i j = j

-- The edge between two nodes.
unfoldable pub edge_between : EdgeStore → Handle → Handle → Option OutgoingEdge
unfolding find_key
edge_between g source sink = find_key sink_of (edges_of g.outgoing_edges source) sink

-- After `add_edge` there is an edge from the source to the sink: the one that was there, with its
-- precedence, or else the new one. No other edge comes, goes or changes. The edges are in order and
-- handles are not 0.
pub add_edge-edge_between :
    (g : EdgeStore) (source sink : Handle) (precedence : ℤ) (s t : Handle)
    → 0 < source
    → 0 < s
    → IsSorted g
    → edge_between (add_edge g source sink precedence) s t ≡ (
        if (source == s) && (sink == t)
        then (elim (edge_between g source sink) [
          | none ↦ some (record { sink = sink; precedence = precedence })
          | some o ↦ some o
        ])
        else edge_between g s t)
unfolding edge_between
add_edge-edge_between g source sink precedence s t h hs sorted =
    let edges = edges_of g.outgoing_edges source in
    let new : OutgoingEdge = record { sink = sink; precedence = precedence } in
    let read = edges_of-put g.outgoing_edges source s (inserted sink_of edges sink new) h hs in
    let at : edges_of (add_edge g source sink precedence).outgoing_edges s
        ≡ (if source == s then inserted sink_of edges sink new else edges_of g.outgoing_edges s) =
      ap (λ z. edges_of z s) (add_edge-outgoing g source sink precedence) ∙ read in
    let found_edge = find_key-inserted sink_of edges sink new t refl (sorted.increasing source h) in
    elim (Bool-cases (source == s)) [
      | inl one ↦
          let same : source ≡ s = ground (arith, one) in
          let list : edges_of (add_edge g source sink precedence).outgoing_edges s
              ≡ inserted sink_of edges sink new =
            ground (arith, at, one) in
          let old : find_key sink_of edges t ≡ find_key sink_of (edges_of g.outgoing_edges s) t =
            ap (λ z. find_key sink_of (edges_of g.outgoing_edges z) t) same in
          ap (λ z. find_key sink_of z t) list ∙ ground (arith, one, found_edge, old)
      | inr two ↦
          let list : edges_of (add_edge g source sink precedence).outgoing_edges s
              ≡ edges_of g.outgoing_edges s =
            ground (arith, at, two) in
          ap (λ z. find_key sink_of z t) list ∙ ground (arith, two)
    ]
