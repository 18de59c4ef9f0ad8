-- ===== src/Tests/PartialPaths.antt =====
-- The graph and the partial paths of stack-graphs/src/graph.rs and partial.rs on a small graph.
use stack_graphs_muffet.Prelude.{
  ℕ, zero, suc, ◌+◌, ◌≡◌, ◌↔◌, ◌<◌, ◌≤◌, refl, ap, List, [], ◌∷◌, Option, some, none, ◌==◌, ◌&&◌,
  arith, Bool, true, false, if◌then◌else◌, ℤ, pos, ltb_ℤ, u32_mod,
}
use stack_graphs_muffet.Paths.{ok, out_of_fuel}
use stack_graphs_muffet.Arena
use stack_graphs_muffet.Arena.Supplemental
use stack_graphs_muffet.Arena.{Handle}
use stack_graphs_muffet.Graph.NodeId
use stack_graphs_muffet.Graph.NodeId.{NodeId}
use stack_graphs_muffet.Graph.Node.{Node}
use stack_graphs_muffet.Graph.StackGraph
use stack_graphs_muffet.Graph.StackGraph.{StackGraph, index, node_for_id, add_node}
use stack_graphs_muffet.Graph.StackGraph.Laws.{add_node-fresh, add_node-taken}
use stack_graphs_muffet.Graph.Edges.{Edge}
use stack_graphs_muffet.Partial.ScopeStack
use stack_graphs_muffet.Partial.ScopeStack.{PartialScopeStack}
use stack_graphs_muffet.Partial.SymbolStack
use stack_graphs_muffet.Partial.SymbolStack.{PartialSymbolStack}
use stack_graphs_muffet.Partial.EdgeList
use stack_graphs_muffet.Partial.EdgeList.{PartialPathEdgeList, shadows}
use stack_graphs_muffet.Partial.EdgeList.Shadowing.{Overtakes, shadows-Overtakes}
use stack_graphs_muffet.Partial.Stacks.{Stacks, append_to_partial_stacks}
use stack_graphs_muffet.Partial.ScopeBindings
use stack_graphs_muffet.Partial.ScopeBindings.{ScopeBindings, add, unify}
use stack_graphs_muffet.Partial.ScopeBindings.Laws.{add-diverges}
use stack_graphs_muffet.Partial.ScopeBindings.Sound.{Agree, Solves, IsFree, unify-Agree}
use stack_graphs_muffet.Partial.ScopeBindings.Complete.{Succeeds, unify-Succeeds}
use stack_graphs_muffet.Partial.Path
use stack_graphs_muffet.Partial.Path.{PartialPath, initial_stacks}
use stack_graphs_muffet.Partial.Path.Semantics.{Assignment}
use stack_graphs_muffet.Partial.Path.Sound.{Sound, append_to_partial_stacks-Sound}
use stack_graphs_muffet.Partial.Path.Walks.{
  IsSound, started, appended, Built-IsSound, append-IsSound, from_node-IsSound,
}
use stack_graphs_muffet.Partial.Path.Join
use stack_graphs_muffet.Partial.Path.Join.Variables.{
  Kind, of_symbols, InPreconditions, InPath, in_symbols, in_scopes, at_end, attached,
  attached_first, attached_later, before_path, after_symbols, after_scopes, Roomy,
  ensure_no_overlapping_variables_lt,
}

-- A reference to symbol 5 and a definition of it, in the first file.
abbrev reference : Node
reference = Node.push_symbol (NodeId.new_in_file 1 0) 5 true

abbrev definition : Node
definition = Node.pop_symbol (NodeId.new_in_file 1 1) 5 true

abbrev graph : StackGraph
graph = record {
  nodes = record {
    items = Node.root NodeId.root ∷ Node.jump_to NodeId.jump_to ∷ reference ∷ definition ∷ [];
  };
  node_id_handles = record { items = (some 3 ∷ some 4 ∷ []) ∷ [] };
}

abbrev edge : Edge
edge = record { source = 3; sink = 4; precedence = pos 0 }

abbrev IsEdge : Edge → Type 0
IsEdge e = e ≡ edge

abbrev variable_1 : PartialSymbolStack
variable_1 = SymbolStack.from_variable 1

abbrev at_reference : PartialPath
at_reference = record {
  start_node = 3;
  end_node = 3;
  stacks = record initial_stacks {
    symbol_stack_postcondition = record {
      symbols = record { symbol = 5; scopes = none } ∷ [];
      length = 1;
      variable = some 1;
    };
  };
  edges = EdgeList.empty;
}

abbrev at_definition : PartialPath
at_definition = record {
  start_node = 3;
  end_node = 4;
  stacks = initial_stacks;
  edges = record {
    edges = record { source_node_id = NodeId.new_in_file 1 0; precedence = pos 0 } ∷ [];
    length = 1;
  };
}

starts : Path.from_node graph 3 ≡ ok at_reference
unfolding Path.from_node SymbolStack.push_front Arena.get stack_graphs_muffet.Prelude.add_u32
starts = refl

continues : Path.append at_reference graph edge ≡ ok at_definition
unfolding Path.append EdgeList.push_back Arena.get stack_graphs_muffet.Prelude.sub_u32
    stack_graphs_muffet.Prelude.add_u32
continues = refl

from_node-IsSound_example : IsSound graph IsEdge at_reference
from_node-IsSound_example = from_node-IsSound graph IsEdge 3 at_reference starts

append-IsSound_example : IsSound graph IsEdge at_definition
append-IsSound_example =
    append-IsSound graph IsEdge at_reference at_definition edge continues refl
      (from_node-IsSound graph IsEdge 3 at_reference starts)

Built-IsSound_example : IsSound graph IsEdge at_definition
Built-IsSound_example = Built-IsSound graph IsEdge (appended edge (started starts) refl continues)

abbrev of_edges : ℤ → ℤ → PartialPathEdgeList
of_edges p q = record {
  edges =
      record { source_node_id = NodeId.root; precedence = p }
      ∷ record { source_node_id = NodeId.jump_to; precedence = q }
      ∷ [];
  length = 2;
}

-- The first list has the higher precedence at the second node only.
shadows-Overtakes_example :
    (shadows (of_edges (pos 0) (pos 1)) (of_edges (pos 1) (pos 0)) ≡ true)
    ↔ Overtakes (of_edges (pos 0) (pos 1)).edges (of_edges (pos 1) (pos 0)).edges
shadows-Overtakes_example = shadows-Overtakes (of_edges (pos 0) (pos 1)) (of_edges (pos 1) (pos 0))

-- A definition with a scope list, on a path that has pushed nothing.
abbrev scoped_definition : Node
scoped_definition = Node.pop_scoped_symbol (NodeId.new_in_file 1 1) 6 true

abbrev popped : Stacks
popped = record initial_stacks {
  symbol_stack_precondition = record {
    symbols = record { symbol = 6; scopes = some (ScopeStack.from_variable 2) } ∷ [];
    length = 1;
    variable = some 1;
  };
  scope_stack_postcondition = ScopeStack.from_variable 2;
}

pops : append_to_partial_stacks scoped_definition graph initial_stacks ≡ ok popped
unfolding append_to_partial_stacks stack_graphs_muffet.Prelude.add_u32
pops = refl

append_to_partial_stacks-Sound_example : Sound graph scoped_definition initial_stacks popped
append_to_partial_stacks-Sound_example =
    append_to_partial_stacks-Sound graph scoped_definition initial_stacks popped pops (λ v e. e)

-- The scopes 7, 8 before a variable, and 7 before another.
abbrev longer : PartialScopeStack
longer = record { scopes = 7 ∷ 8 ∷ []; length = 2; variable = some 1 }

abbrev shorter : PartialScopeStack
shorter = record { scopes = 7 ∷ []; length = 1; variable = some 2 }

abbrev scope_bindings : ScopeBindings
scope_bindings = none ∷ some (record { scopes = 8 ∷ []; length = 1; variable = some 1 }) ∷ []

unified : unify 2 longer shorter [] ≡ ok (longer, scope_bindings)
unfolding unify ScopeBindings.get ScopeBindings.bind stack_graphs_muffet.Prelude.sub_u32
unified = refl

-- The scope 9 for variable 1, and the scopes 8, 9 for variable 2.
abbrev assignment : Assignment
assignment = record { symbols_of = λ v. []; scopes_of = λ v. if v == 1 then 9 ∷ [] else 8 ∷ 9 ∷ [] }

abbrev or_empty : Option PartialScopeStack → PartialScopeStack
or_empty none = ScopeStack.empty
or_empty (some s) = s

assignment-Solves : Solves assignment scope_bindings
unfolding ScopeBindings.get Path.Semantics.scopes
assignment-Solves zero s e = absurd (ground arith)
assignment-Solves (suc zero) s e = absurd (ground arith)
assignment-Solves (suc (suc zero)) s e =
    ap (λ (z : Option PartialScopeStack). Path.Semantics.scopes assignment (or_empty z)) e
assignment-Solves (suc (suc (suc v))) s e = absurd (ground arith)

unbound : (n : ℕ) → IsFree [] (some (suc n))
unfolding ScopeBindings.get
unbound n zero e = absurd (ground arith)
unbound n (suc v) e = (omega arith, refl)

unify-Agree_example : Agree assignment [] longer shorter longer
unify-Agree_example =
    unify-Agree 2 assignment [] scope_bindings longer shorter longer (unbound 0) (unbound 1) unified
      assignment-Solves

nothing-Solves : Solves assignment []
unfolding ScopeBindings.get
nothing-Solves zero s e = absurd (ground arith)
nothing-Solves (suc v) s e = absurd (ground arith)

unify-Succeeds_example : Succeeds assignment (unify 2 longer shorter [])
unify-Succeeds_example =
    unify-Succeeds 1 assignment [] longer shorter (unbound 0) (unbound 1) nothing-Solves
      (unfold Path.Semantics.scopes in refl)

add-diverges_example : add 100 (some (ScopeStack.from_variable 1) ∷ []) 1 shorter ≡ out_of_fuel
add-diverges_example =
    add-diverges (some (ScopeStack.from_variable 1) ∷ []) 1 7 [] 1 (some 2)
      (unfold ScopeBindings.get in refl) (unfold ScopeStack.same_variable in refl) 100

limit : Kind → ℕ
limit kind = 1

at_definition-bound : (kind : Kind) (v : ℕ) → InPreconditions at_definition kind v → v ≤ limit kind
unfolding limit
at_definition-bound _ v (in_symbols (at_end e)) = ground (arith, e)
at_definition-bound _ v (in_symbols (attached a)) = elim a [ ]
at_definition-bound _ v (in_scopes e) = ground (arith, e)

at_reference-Roomy : Roomy limit at_reference
unfolding limit
at_reference-Roomy _ v (before_path (in_symbols (at_end e))) =
    (ground (arith, e), ground (arith, e))
at_reference-Roomy _ v (before_path (in_symbols (attached a))) = elim a [ ]
at_reference-Roomy _ v (before_path (in_scopes e)) = (ground (arith, e), ground (arith, e))
at_reference-Roomy _ v (after_symbols (at_end e)) = (ground (arith, e), ground (arith, e))
at_reference-Roomy _ v (after_symbols (attached (attached_first s e f))) =
    absurd (ground (arith, e))
at_reference-Roomy _ v (after_symbols (attached (attached_later a))) = elim a [ ]
at_reference-Roomy _ v (after_scopes e) = (ground (arith, e), ground (arith, e))

-- The variable of the renamed symbol stack postcondition.
renamed : InPath (Path.Join.ensure_no_overlapping_variables at_reference at_definition) of_symbols 2
unfolding Path.Join.ensure_no_overlapping_variables stack_graphs_muffet.Prelude.add_u32
renamed = after_symbols (at_end refl)

ensure_no_overlapping_variables_lt_example : 1 < 2
ensure_no_overlapping_variables_lt_example =
    ensure_no_overlapping_variables_lt at_reference at_definition limit at_definition-bound
      at_reference-Roomy of_symbols 1 2 (in_symbols (at_end refl)) renamed

add_node-fresh_example :
    (g : StackGraph) × (h : Handle) × (add_node graph (NodeId.new_in_file 1 2) definition
      ≡ some (g, some h))
    × (index g h ≡ some definition)
    × (node_for_id g (NodeId.new_in_file 1 2) ≡ some h)
add_node-fresh_example =
    add_node-fresh graph 0 2 0 2 definition (omega arith)
      (unfold node_for_id StackGraph.try_handle_for_id Supplemental.get in refl)

add_node-taken_example :
    (g : StackGraph) × (add_node graph (NodeId.new_in_file 1 1) reference ≡ some (g, none))
    × (g.nodes ≡ graph.nodes)
    × (node_for_id g (NodeId.new_in_file 1 1) ≡ node_for_id graph (NodeId.new_in_file 1 1))
add_node-taken_example =
    add_node-taken graph 0 1 0 1 reference 4
      (unfold node_for_id StackGraph.try_handle_for_id Supplemental.get in refl)
