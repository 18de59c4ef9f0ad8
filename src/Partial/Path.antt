-- ===== src/Partial/Path.antt =====
-- stack-graphs/src/partial.rs, `PartialPath`: building a path edge by edge.
pub mod Semantics
pub mod Sound
pub mod Walks
pub mod Join
use stack_graphs_muffet.Prelude.{
  ℕ, Bool, true, false, ◌&&◌, ◌==◌, not, if◌then◌else◌, List, [], ◌∷◌, Option, none, some, is_some,
  Ordering, compare, pos,
}
use mathlib.Core.Option
use stack_graphs_muffet.Utils.{then_with}
use stack_graphs_muffet.Paths.{
  Result, ok, err, panic, out_of_fuel, ◌>>=◌, unwrap, expect, incorrect_source_node,
  empty_scope_stack,
}
use stack_graphs_muffet.Arena.{Handle}
use stack_graphs_muffet.Graph.Node
use stack_graphs_muffet.Graph.Node.{Node}
use stack_graphs_muffet.Graph.StackGraph
use stack_graphs_muffet.Graph.StackGraph.{StackGraph}
use stack_graphs_muffet.Graph.Edges.{Edge}
use stack_graphs_muffet.Partial.ScopeStack
use stack_graphs_muffet.Partial.ScopeStack.{PartialScopeStack, ScopeStackVariable}
use stack_graphs_muffet.Partial.SymbolStack
use stack_graphs_muffet.Partial.SymbolStack.{PartialSymbolStack}
use stack_graphs_muffet.Partial.EdgeList
use stack_graphs_muffet.Partial.EdgeList.{PartialPathEdgeList}
use stack_graphs_muffet.Partial.Stacks
use stack_graphs_muffet.Partial.Stacks.{Stacks, append_to_partial_stacks}

-- The pre- and postconditions are grouped, as `append_to_partial_stacks` takes them.
pub record PartialPath : Type 0 where
  pub start_node : Handle
  pub end_node : Handle
  pub stacks : Stacks
  pub open stacks use *
  pub edges : PartialPathEdgeList

-- The path of no node: the stacks are the variables that stand for what is there.
abbrev pub initial_stacks : Stacks
initial_stacks = record {
  symbol_stack_precondition = SymbolStack.from_variable SymbolStack.initial;
  scope_stack_precondition = ScopeStack.from_variable ScopeStack.initial;
  symbol_stack_postcondition = SymbolStack.from_variable SymbolStack.initial;
  scope_stack_postcondition = ScopeStack.from_variable ScopeStack.initial;
}

unfoldable pub from_node : StackGraph → Handle → Result PartialPath
unfolding append_to_partial_stacks StackGraph.index
from_node g node = unwrap (StackGraph.index g node) >>= λ n.
    expect (append_to_partial_stacks n g initial_stacks) >>= λ s.
    ok (record { start_node = node; end_node = node; stacks = s; edges = EdgeList.empty })

-- A test of the node at an end of the path; `none` is a handle that is not in the graph.
node_test : (Node → Bool) → StackGraph → Handle → Option Bool
unfolding StackGraph.index
node_test test g node = Option.map test (StackGraph.index g node)

unfoldable pub starts_at_reference : PartialPath → StackGraph → Option Bool
unfolding node_test Node.is_reference SymbolStack.can_match_empty ScopeStack.can_match_empty
starts_at_reference p g =
    node_test
      (λ n.
        Node.is_reference n
        && (SymbolStack.can_match_empty p.symbol_stack_precondition
            && ScopeStack.can_match_empty p.scope_stack_precondition))
      g p.start_node

unfoldable pub ends_at_definition : PartialPath → StackGraph → Option Bool
unfolding node_test Node.is_definition SymbolStack.can_match_empty
ends_at_definition p g =
    node_test
      (λ n. Node.is_definition n && SymbolStack.can_match_empty p.symbol_stack_postcondition) g
      p.end_node

-- The second test is made only if the first one holds.
unfoldable pub is_complete : PartialPath → StackGraph → Option Bool
unfolding starts_at_reference ends_at_definition
is_complete p g = elim (starts_at_reference p g) [
  | none ↦ none
  | some false ↦ some false
  | some true ↦ ends_at_definition p g
]

unfoldable pub starts_at_endpoint : PartialPath → StackGraph → Option Bool
unfolding node_test Node.is_endpoint
starts_at_endpoint p g = node_test Node.is_endpoint g p.start_node

unfoldable pub ends_at_endpoint : PartialPath → StackGraph → Option Bool
unfolding node_test Node.is_endpoint
ends_at_endpoint p g = node_test Node.is_endpoint g p.end_node

unfoldable pub ends_in_jump : PartialPath → StackGraph → Option Bool
unfolding node_test Node.is_jump_to
ends_in_jump p g = node_test Node.is_jump_to g p.end_node

unfoldable pub shadows : PartialPath → PartialPath → Bool
unfolding EdgeList.shadows
shadows p other = EdgeList.shadows p.edges other.edges

unfoldable pub equals : PartialPath → PartialPath → Bool
unfolding SymbolStack.equals ScopeStack.equals
equals p other =
    (p.start_node == other.start_node)
    && (p.end_node == other.end_node)
    && SymbolStack.equals p.symbol_stack_precondition other.symbol_stack_precondition
    && SymbolStack.equals p.symbol_stack_postcondition other.symbol_stack_postcondition
    && ScopeStack.equals p.scope_stack_precondition other.scope_stack_precondition
    && ScopeStack.equals p.scope_stack_postcondition other.scope_stack_postcondition

-- `order` compares the strings of symbols.
unfoldable pub cmp : (Handle → Handle → Ordering) → PartialPath → PartialPath → Ordering
unfolding SymbolStack.cmp ScopeStack.cmp then_with
cmp order p other = then_with (compare p.start_node other.start_node) (
    then_with (compare p.end_node other.end_node) (
      then_with (SymbolStack.cmp order p.symbol_stack_precondition other.symbol_stack_precondition)
        (then_with
          (SymbolStack.cmp order p.symbol_stack_postcondition other.symbol_stack_postcondition)
          (then_with (ScopeStack.cmp p.scope_stack_precondition other.scope_stack_precondition)
            (ScopeStack.cmp p.scope_stack_postcondition other.scope_stack_postcondition)))))

-- `resolve_from_postcondition`, at the node at which the path ends and the popped scope.
unfoldable pub resolve_at :
    PartialPath → Node → Option Handle × PartialScopeStack → Result PartialPath
unfolding EdgeList.push_back Node.node_id
resolve_at p n (none, rest) = ok p
resolve_at p n (some top_scope, rest) = ok (record {
  start_node = p.start_node;
  end_node = top_scope;
  stacks = record p.stacks { scope_stack_postcondition = rest };
  edges =
      EdgeList.push_back p.edges (record { source_node_id = Node.node_id n; precedence = pos 0 });
})

unfoldable pub resolve_from_postcondition : PartialPath → StackGraph → Result PartialPath
unfolding resolve_at ScopeStack.pop_front ScopeStack.can_only_match_empty Node.is_jump_to
    StackGraph.index
resolve_from_postcondition p g = unwrap (StackGraph.index g p.end_node) >>= λ n.
    if not (Node.is_jump_to n)
    then ok p
    else if ScopeStack.can_only_match_empty p.scope_stack_postcondition
    then err empty_scope_stack
    else resolve_at p n (ScopeStack.pop_front p.scope_stack_postcondition)

-- The path with the edge, before the jump at its new end is resolved.
unfoldable pub extended : PartialPath → Node → Edge → Stacks → PartialPath
unfolding EdgeList.push_back Node.node_id
extended p source edge s = record {
  start_node = p.start_node;
  end_node = edge.sink;
  stacks = s;
  edges =
      EdgeList.push_back p.edges
        (record { source_node_id = Node.node_id source; precedence = edge.precedence });
}

unfoldable pub append : PartialPath → StackGraph → Edge → Result PartialPath
unfolding extended resolve_from_postcondition append_to_partial_stacks StackGraph.index
append p g edge =
    if edge.source == p.end_node
    then (unwrap (StackGraph.index g edge.sink) >>= λ sink.
        append_to_partial_stacks sink g p.stacks >>= λ s.
        unwrap (StackGraph.index g edge.source) >>= λ source.
        resolve_from_postcondition (extended p source edge s) g)
    else err incorrect_source_node
