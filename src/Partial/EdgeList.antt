-- ===== src/Partial/EdgeList.antt =====
-- stack-graphs/src/partial.rs, `PartialPathEdge` and `PartialPathEdgeList`.
pub mod Shadowing
use stack_graphs_muffet.Prelude.{
  ℕ, Bool, true, false, ◌&&◌, ◌==◌, not, if◌then◌else◌, List, [], ◌∷◌, ◌++◌, Option, none, some,
  add_u32, sub_u32, Ordering, compare, reverse, ℤ, ltb_ℤ, cmp_ℤ,
}
use stack_graphs_muffet.Utils.{cmp_option, then_with}
use stack_graphs_muffet.Graph.NodeId
use stack_graphs_muffet.Graph.NodeId.{NodeId}

pub record PartialPathEdge : Type 0 where
  pub source_node_id : NodeId
  pub precedence : ℤ

-- `self.source_node_id == other.source_node_id && self.precedence > other.precedence`.
unfoldable pub edge_shadows : PartialPathEdge → PartialPathEdge → Bool
unfolding NodeId.equals
edge_shadows e other =
    NodeId.equals e.source_node_id other.source_node_id && ltb_ℤ other.precedence e.precedence

is_eq : Ordering → Bool
is_eq Ordering.eq = true
is_eq Ordering.lt = false
is_eq Ordering.gt = false

-- The derived equality and order.
unfoldable pub edge_equals : PartialPathEdge → PartialPathEdge → Bool
unfolding NodeId.equals is_eq
edge_equals e other =
    NodeId.equals e.source_node_id other.source_node_id
    && is_eq (cmp_ℤ e.precedence other.precedence)

unfoldable pub edge_cmp : PartialPathEdge → PartialPathEdge → Ordering
unfolding cmp_option then_with
edge_cmp e other = then_with (cmp_option compare e.source_node_id.file other.source_node_id.file) (
    then_with (compare e.source_node_id.local_id other.source_node_id.local_id)
      (cmp_ℤ e.precedence other.precedence))

pub record PartialPathEdgeList : Type 0 where
  pub edges : List PartialPathEdge
  pub length : ℕ

abbrev pub empty : PartialPathEdgeList
empty = record { edges = []; length = 0 }

unfoldable pub push_front : PartialPathEdgeList → PartialPathEdge → PartialPathEdgeList
push_front l edge = record { edges = edge ∷ l.edges; length = add_u32 l.length 1 }

unfoldable pub push_back : PartialPathEdgeList → PartialPathEdge → PartialPathEdgeList
push_back l edge = record { edges = l.edges ++ edge ∷ []; length = add_u32 l.length 1 }

pop : List PartialPathEdge → PartialPathEdgeList → Option PartialPathEdge × PartialPathEdgeList
pop [] l = (none, l)
pop (e ∷ es) l = (some e, record { edges = es; length = sub_u32 l.length 1 })

unfoldable pub pop_front : PartialPathEdgeList → Option PartialPathEdge × PartialPathEdgeList
unfolding pop
pop_front l = pop l.edges l

unfoldable pub pop_back : PartialPathEdgeList → Option PartialPathEdge × PartialPathEdgeList
unfolding pop
pop_back l =
    let (e, popped) = pop (reverse l.edges) (record l { edges = reverse l.edges }) in
    (e, record popped { edges = reverse popped.edges })

-- The loop of `shadows`.
unfoldable pub shadows_loop : List PartialPathEdge → List PartialPathEdge → Bool
unfolding edge_shadows NodeId.equals
shadows_loop [] ys = false
shadows_loop (x ∷ xs) [] = false
shadows_loop (x ∷ xs) (y ∷ ys) =
    if not (NodeId.equals x.source_node_id y.source_node_id)
    then false
    else if edge_shadows x y
    then true
    else shadows_loop xs ys

unfoldable pub shadows : PartialPathEdgeList → PartialPathEdgeList → Bool
unfolding shadows_loop
shadows l other = shadows_loop l.edges other.edges

unfoldable pub equals_loop : List PartialPathEdge → List PartialPathEdge → Bool
unfolding edge_equals
equals_loop [] [] = true
equals_loop [] (y ∷ ys) = false
equals_loop (x ∷ xs) [] = false
equals_loop (x ∷ xs) (y ∷ ys) = if edge_equals x y then equals_loop xs ys else false

unfoldable pub equals : PartialPathEdgeList → PartialPathEdgeList → Bool
unfolding equals_loop
equals l other = equals_loop l.edges other.edges

unfoldable pub cmp_loop : List PartialPathEdge → List PartialPathEdge → Ordering
unfolding edge_cmp then_with
cmp_loop [] [] = Ordering.eq
cmp_loop [] (y ∷ ys) = Ordering.lt
cmp_loop (x ∷ xs) [] = Ordering.gt
cmp_loop (x ∷ xs) (y ∷ ys) = then_with (edge_cmp x y) (cmp_loop xs ys)

unfoldable pub cmp : PartialPathEdgeList → PartialPathEdgeList → Ordering
unfolding cmp_loop
cmp l other = cmp_loop l.edges other.edges

-- The loop of `concatenate`: the edges, popped from the front, go to the back of the list.
unfoldable pub push_all : List PartialPathEdge → PartialPathEdgeList → PartialPathEdgeList
unfolding push_back
push_all [] l = l
push_all (e ∷ es) l = push_all es (push_back l e)
