-- ===== src/Tests/Stitching.antt =====
-- The indexes of stack-graphs/src/stitching.rs, on a small graph.
use stack_graphs_muffet.Prelude.{
  ◌↔◌, ℕ, zero, suc, ◌≡◌, refl, List, [], ◌∷◌, Option, some, none, true, false, arith, subst, ◌==◌,
}
use stack_graphs_muffet.Arena
use stack_graphs_muffet.Arena.{Handle}
use stack_graphs_muffet.Arena.Laws.{HasRoom}
use stack_graphs_muffet.Arena.HandleSet
use stack_graphs_muffet.Arena.Supplemental
use stack_graphs_muffet.Arena.Lists
use stack_graphs_muffet.Graph.NodeId
use stack_graphs_muffet.Graph.Node.{Node}
use stack_graphs_muffet.Graph.Edges.{Degree}
use stack_graphs_muffet.Graph.StackGraph
use stack_graphs_muffet.Graph.StackGraph.{StackGraph}
use stack_graphs_muffet.Partial.ScopeStack
use stack_graphs_muffet.Partial.SymbolStack
use stack_graphs_muffet.Partial.SymbolStack.{PartialSymbolStack}
use stack_graphs_muffet.Partial.ScopedSymbol.{PartialScopedSymbol}
use stack_graphs_muffet.Partial.EdgeList
use stack_graphs_muffet.Partial.Path.{PartialPath}
use stack_graphs_muffet.Stitching
use stack_graphs_muffet.Stitching.{
  Database, SymbolStackKeys, add_partial_path, find_candidate_partial_paths,
  from_partial_symbol_stack,
}
use stack_graphs_muffet.Stitching.Keys.{IsKeyed, new-IsKeyed, pushed}
use stack_graphs_muffet.Prelude.Same.{same}
use stack_graphs_muffet.Stitching.Adding.{root_path}
use stack_graphs_muffet.Stitching.Find.{from_partial_symbol_stack-same}
use stack_graphs_muffet.Stitching.LocalNodes.{find_local_nodes, node_is_local}
use stack_graphs_muffet.Stitching.LocalNodes.Sound.{is_endpoint, FromRoot, ToRoot}
use stack_graphs_muffet.Stitching.LocalNodes.Returns.{find_local_nodes-local}
use stack_graphs_muffet.Stitching.Find.Stored.{find-stored}
use stack_graphs_muffet.Stitching.Find.Once.{occurrences, fits}
use stack_graphs_muffet.Stitching.Find.Stores.{is_root_at}
use stack_graphs_muffet.Stitching.Find.Paths.{
  IsComplete, new-IsComplete, add_partial_path-IsComplete, find_candidate_partial_paths_lem,
  candidates,
}

-- The root, the jump-to node and a definition.
abbrev graph : StackGraph
graph = record {
  nodes = record {
    items =
        Node.root NodeId.root
        ∷ Node.jump_to NodeId.jump_to
        ∷ Node.pop_symbol (NodeId.new_in_file 1 0) 5 true
        ∷ [];
  };
  node_id_handles = record { items = (some 3 ∷ []) ∷ [] };
}

abbrev symbol : Handle → PartialScopedSymbol
symbol s = record { symbol = s; scopes = none }

abbrev stack : List PartialScopedSymbol → Option ℕ → PartialSymbolStack
stack xs v = record { symbols = xs; length = 0; variable = v }

-- From the root to the definition, for symbols 5 and 6.
abbrev path : PartialPath
path = record {
  start_node = 1;
  end_node = 3;
  stacks = record {
    symbol_stack_precondition = stack (symbol 5 ∷ symbol 6 ∷ []) (some 1);
    symbol_stack_postcondition = stack [] (some 1);
    scope_stack_precondition = ScopeStack.from_variable 1;
    scope_stack_postcondition = ScopeStack.from_variable 1;
  };
  edges = EdgeList.empty;
}

-- A path to the root that leaves symbols 5, 6 and 7.
abbrev query : PartialPath
query = record {
  start_node = 3;
  end_node = 1;
  stacks = record {
    symbol_stack_precondition = stack [] none;
    symbol_stack_postcondition = stack (symbol 5 ∷ symbol 6 ∷ symbol 7 ∷ []) none;
    scope_stack_precondition = ScopeStack.from_variable 1;
    scope_stack_postcondition = ScopeStack.from_variable 1;
  };
  edges = EdgeList.empty;
}

-- The database with the path: keys 1 and 2 are those of 5, and of 5 and 6.
abbrev db1 : Database
db1 = record {
  partial_paths = record { items = path ∷ [] };
  local_nodes = record { elements = [] };
  keys = record {
    cells = record {
      items = record { head = 5; tail = Lists.empty } ∷ record { head = 6; tail = 1 } ∷ [];
    };
    cache = ((6, 1), 2) ∷ ((5, Lists.empty), 1) ∷ [];
  };
  paths_by_start_node = record { items = [] };
  root_paths_by_precondition_prefix = record { items = (1 ∷ []) ∷ [] };
  root_paths_by_precondition_with_variable = record { items = [] ∷ (1 ∷ []) ∷ [] };
  root_paths_by_precondition_without_variable = record { items = [] };
  incoming_paths = record { items = Degree.zero ∷ Degree.zero ∷ Degree.one ∷ [] };
}

added : add_partial_path Stitching.new graph path ≡ some (db1, 1)
unfolding add_partial_path Stitching.new Arena.new Supplemental.new HandleSet.new Arena.get
    stack_graphs_muffet.Prelude.as_u32
added = refl

complete : IsComplete graph Stitching.new
complete = new-IsComplete graph

root_at : StackGraph.index graph 1 ≡ some (Node.root NodeId.root)
unfolding StackGraph.index Arena.get
root_at = refl

add_partial_path-IsComplete_example :
    (db' : Database) × (add_partial_path Stitching.new graph path ≡ some (db', 1))
    × (db'.partial_paths ≡ (Arena.add Stitching.new.partial_paths path).0)
    × IsComplete graph db'
unfolding Stitching.new Arena.new
add_partial_path-IsComplete_example =
    add_partial_path-IsComplete graph Stitching.new path (Node.root NodeId.root) complete root_at
      (omega arith) (omega arith) (omega arith)

db1-IsComplete : IsComplete graph db1
db1-IsComplete =
    let same : add_partial_path-IsComplete_example.0 ≡ db1 =
      ground (arith, added, add_partial_path-IsComplete_example.1) in
    subst (IsComplete graph) same add_partial_path-IsComplete_example.3

find_candidate_partial_paths_lem_example :
    (db' : Database) × (find_candidate_partial_paths db1 graph query
      ≡ some (db', candidates graph db1 query))
    × (db'.partial_paths ≡ db1.partial_paths)
    × IsComplete graph db'
find_candidate_partial_paths_lem_example =
    find_candidate_partial_paths_lem graph db1 query (Node.root NodeId.root) db1-IsComplete root_at
      (omega arith)

root_here : is_root_at graph 1 ≡ true
unfolding is_root_at StackGraph.index Arena.get
root_here = refl

find-stored_example :
    (db' : Database) × (found : List Handle) × (find_candidate_partial_paths db1 graph query
      ≡ some (db', found))
    × (occurrences 1 found ≡ 1)
unfolding fits pushed root_path SymbolStack.has_variable SymbolStack.contains_symbols
find-stored_example =
    find-stored graph db1 [] path [] query (Node.root NodeId.root) (symbol 5)
      (symbol 6 ∷ symbol 7 ∷ []) db1-IsComplete refl root_here root_at root_here refl (omega arith)

abbrev no_keys : SymbolStackKeys
no_keys = record { cells = record { items = [] }; cache = [] }

no_keys-IsKeyed : IsKeyed no_keys
no_keys-IsKeyed = unfold Arena.new in new-IsKeyed

room_left : HasRoom 3 (from_partial_symbol_stack no_keys path.symbol_stack_precondition).0.cells
unfolding from_partial_symbol_stack Lists.push_front Arena.add
room_left = omega arith

from_partial_symbol_stack-same_example :
    (let u = from_partial_symbol_stack no_keys path.symbol_stack_precondition in
      let w = from_partial_symbol_stack u.0 query.symbol_stack_postcondition in
      (u.1 == w.1) ≡ same (6 ∷ 5 ∷ []) (7 ∷ 6 ∷ 5 ∷ []))
unfolding pushed
from_partial_symbol_stack-same_example =
    from_partial_symbol_stack-same no_keys path.symbol_stack_precondition
      query.symbol_stack_postcondition no_keys-IsKeyed (omega arith) room_left

find_local_nodes-local_example :
    (db' : Database) × (find_local_nodes db1 ≡ some db')
    × ((node_is_local db' 3 ≡ true) ↔ (
        (is_endpoint 3 (path ∷ []) ≡ true) × (¬ FromRoot (path ∷ []) 3) × (¬ ToRoot (path ∷ []) 3)))
find_local_nodes-local_example = find_local_nodes-local db1 3
