-- ===== src/Graph/EdgeStore/Degrees.antt =====
-- The incoming degrees that `add_edge` of stack-graphs/src/graph.rs keeps.
use stack_graphs_muffet.Prelude.{
  ℕ, zero, suc, ◌+◌, ◌-◌, ◌<◌, ◌≡◌, refl, ap, sym, ◌∙◌, subst, ◌==◌, leb, if◌then◌else◌, Bool-cases,
  inl, inr, List, [], ◌∷◌, ◌++◌, none, some, ℤ, arith, set, get_elem?, replicate, length,
  length-append, length-replicate,
}
use stack_graphs_muffet.Arena.{Handle}
use stack_graphs_muffet.Arena.Supplemental
use stack_graphs_muffet.Arena.Supplemental.{SupplementalArena, grow, put_or_default}
use stack_graphs_muffet.Arena.Supplemental.Laws.{or_default-put}
use stack_graphs_muffet.Graph.Edges.{Degree, add_degree}
use stack_graphs_muffet.Graph.Edges.Count.{as_degree, as_degree-suc}
use stack_graphs_muffet.Graph.EdgeStore.{
  OutgoingEdge, EdgeStore, search, insert, edges_of, degree_of, put_edges, sink_of, add_edge,
}
use stack_graphs_muffet.Graph.EdgeStore.Search.{Position-cases}

-- The edges of a list that end at the sink, and those of all nodes.
unfoldable pub edges_to : Handle → List OutgoingEdge → ℕ
edges_to t [] = 0
edges_to t (o ∷ os) = let rest = edges_to t os in if o.sink == t then suc rest else rest

unfoldable pub total_to : Handle → List (List OutgoingEdge) → ℕ
unfolding edges_to
total_to t [] = 0
total_to t (es ∷ ess) = edges_to t es + total_to t ess

edges_to-insert :
    (t : Handle) (es : List OutgoingEdge) (i : ℕ) (o : OutgoingEdge)
    → edges_to t (insert es i o) ≡ (if o.sink == t then suc (edges_to t es) else edges_to t es)
unfolding edges_to insert
edges_to-insert t es zero o = ground arith
edges_to-insert t [] (suc i) o = ground arith
edges_to-insert t (e ∷ es) (suc i) o = ground (arith, edges_to-insert t es i o)

item : List (List OutgoingEdge) → ℕ → List OutgoingEdge
item ess i = elim (get_elem? ess i) [ none ↦ [] | some es ↦ es ]

total_to-set :
    (t : Handle) (ess : List (List OutgoingEdge)) (i : ℕ) (es : List OutgoingEdge)
    → i < length ess
    → total_to t (set ess i es) + edges_to t (item ess i) ≡ total_to t ess + edges_to t es
unfolding total_to item
total_to-set t [] i es h = absurd (omega arith)
total_to-set t (x ∷ ess) zero es h = omega arith
total_to-set t (x ∷ ess) (suc i) es h = omega (arith, total_to-set t ess i es (omega (arith, h)))

total_to-append :
    (t : Handle) (xs ys : List (List OutgoingEdge))
    → total_to t (xs ++ ys) ≡ total_to t xs + total_to t ys
unfolding total_to
total_to-append t [] ys = omega arith
total_to-append t (x ∷ xs) ys = omega (arith, total_to-append t xs ys)

total_to-replicate : (t : Handle) (n : ℕ) → total_to t (replicate n []) ≡ 0
unfolding total_to edges_to
total_to-replicate t zero = refl
total_to-replicate t (suc n) = omega (arith, total_to-replicate t n)

total_to-grow :
    (t : Handle) (ess : List (List OutgoingEdge)) (n : ℕ)
    → total_to t (grow [] ess n) ≡ total_to t ess
unfolding grow
total_to-grow t ess n = omega (
  arith,
  total_to-append t ess (replicate (n - length ess) []),
  total_to-replicate t (n - length ess),
)

item-append :
    (ess : List (List OutgoingEdge)) (n i : ℕ) → item (ess ++ replicate n []) i ≡ item ess i
unfolding item
item-append [] zero i = refl
item-append [] (suc n) zero = refl
item-append [] (suc n) (suc i) = item-append [] n i
item-append (x ∷ ess) n zero = refl
item-append (x ∷ ess) n (suc i) = item-append ess n i

length-grow : (ess : List (List OutgoingEdge)) (i : ℕ) → i < length (grow [] ess (suc i))
unfolding grow
length-grow ess i = omega (
  arith,
  length-append ess (replicate (suc i - length ess) []),
  length-replicate {A = List OutgoingEdge} (suc i - length ess) [],
)

total_to-put :
    (t : Handle) (out : SupplementalArena (List OutgoingEdge)) (s : Handle) (es : List OutgoingEdge)
    → 0 < s
    → total_to t (put_edges out s es).items + edges_to t (edges_of out s)
      ≡ total_to t out.items + edges_to t es
total_to-put t out zero es h = absurd (omega arith)
total_to-put t out (suc i) es h = elim (Bool-cases (leb (length out.items) i)) [
  | inl short ↦
      let whole : (put_edges out (suc i) es).items ≡ set (grow [] out.items (suc i)) i es =
        unfold put_or_default in ground (arith, short) in
      let old : item (grow [] out.items (suc i)) i ≡ edges_of out (suc i) =
        unfold grow Supplemental.get in
        item-append out.items (suc i - length out.items) i ∙ (unfold item in refl) in
      let step = total_to-set t (grow [] out.items (suc i)) i es (length-grow out.items i) in
      omega (
        arith,
        step,
        total_to-grow t out.items (suc i),
        ap (λ z. total_to t z) whole,
        ap (λ z. edges_to t z) old,
      )
  | inr fits ↦
      let whole : (put_edges out (suc i) es).items ≡ set out.items i es =
        unfold put_or_default in ground (arith, fits) in
      let old : item out.items i ≡ edges_of out (suc i) = unfold item Supplemental.get in refl in
      let step = total_to-set t out.items i es (ground (arith, fits)) in
      omega (arith, step, ap (λ z. total_to t z) whole, ap (λ z. edges_to t z) old)
]

-- Each degree is that of the number of edges to the node.
pub record HasDegrees (g : EdgeStore) : Type 0 where
  pub counted :
      (t : Handle)
      → 0 < t
      → degree_of g.incoming_edges t ≡ as_degree (total_to t g.outgoing_edges.items)

-- `add_edge` keeps the degree of each node that of the number of edges that end there. The source and the
-- sink are not 0.
pub add_edge-HasDegrees :
    (g : EdgeStore) (source sink : Handle) (precedence : ℤ)
    → 0 < source
    → 0 < sink
    → HasDegrees g
    → HasDegrees (add_edge g source sink precedence)
add_edge-HasDegrees g source sink precedence hs hk d = record {
  counted = λ t ht. elim (Position-cases (search sink_of (edges_of g.outgoing_edges source) sink)) [
    | inl (i, at) ↦
        let edges = edges_of g.outgoing_edges source in
        let step : add_edge g source sink precedence ≡ record {
          outgoing_edges = put_edges g.outgoing_edges source edges;
          incoming_edges = g.incoming_edges;
        } =
          unfold add_edge in ground (arith, at) in
        let same : total_to t (put_edges g.outgoing_edges source edges).items
            ≡ total_to t g.outgoing_edges.items =
          omega (arith, total_to-put t g.outgoing_edges source edges hs) in
        subst
          (λ (z : EdgeStore).
            degree_of z.incoming_edges t ≡ as_degree (total_to t z.outgoing_edges.items))
          (sym step) (d.counted t ht ∙ ap as_degree (sym same))
    | inr (i, at) ↦
        let edges = edges_of g.outgoing_edges source in
        let new : OutgoingEdge = record { sink = sink; precedence = precedence } in
        let after = put_edges g.outgoing_edges source (insert edges i new) in
        let step : add_edge g source sink precedence ≡ record {
          outgoing_edges = put_edges g.outgoing_edges source (insert edges i new);
          incoming_edges =
              put_or_default Degree.zero g.incoming_edges sink
                (add_degree (degree_of g.incoming_edges sink) Degree.one);
        } =
          unfold add_edge in ground (arith, at) in
        let total = total_to-put t g.outgoing_edges source (insert edges i new) hs in
        let read =
          or_default-put Degree.zero g.incoming_edges sink t
            (add_degree (degree_of g.incoming_edges sink) Degree.one) hk ht in
        subst
          (λ (z : EdgeStore).
            degree_of z.incoming_edges t ≡ as_degree (total_to t z.outgoing_edges.items))
          (sym step)
          (elim (Bool-cases (sink == t)) [
            | inl one ↦
                let same : sink ≡ t = ground (arith, one) in
                let more : edges_to t (insert edges i new) ≡ suc (edges_to t edges) =
                  ground (arith, one, edges_to-insert t edges i new) in
                let counted : total_to t after.items ≡ suc (total_to t g.outgoing_edges.items) =
                  omega (arith, total, more) in
                let before : degree_of g.incoming_edges sink
                    ≡ as_degree (total_to t g.outgoing_edges.items) =
                  subst
                    (λ z.
                      degree_of g.incoming_edges z ≡ as_degree (total_to t g.outgoing_edges.items))
                    (sym same) (d.counted t ht) in
                ground (
                  arith,
                  read,
                  one,
                  before,
                  counted,
                  as_degree-suc (total_to t g.outgoing_edges.items),
                )
            | inr two ↦
                let more : edges_to t (insert edges i new) ≡ edges_to t edges =
                  ground (arith, two, edges_to-insert t edges i new) in
                let counted : total_to t after.items ≡ total_to t g.outgoing_edges.items =
                  omega (arith, total, more) in
                ground (arith, read, two, d.counted t ht, counted)
          ])
  ];
}
