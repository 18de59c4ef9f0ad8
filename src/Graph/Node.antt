-- ===== src/Graph/Node.antt =====
-- stack-graphs/src/graph.rs, `Node`. The fields `_symbol`, `_scope`, `_is_endpoint` and `_phantom` of
-- the node structs, which only give them one layout, are left out.
use stack_graphs_muffet.Prelude.{Bool, true, false, ◌||◌, Option, none, some}
use stack_graphs_muffet.Arena.{Handle}
use stack_graphs_muffet.Graph.NodeId.{NodeId, is_in_file as id_is_in_file}

pub data Node : Type 0 where
  drop_scopes : (id : NodeId) → Node
  jump_to : (id : NodeId) → Node
  pop_scoped_symbol : (id : NodeId) (symbol : Handle) (is_definition : Bool) → Node
  pop_symbol : (id : NodeId) (symbol : Handle) (is_definition : Bool) → Node
  push_scoped_symbol :
      (id : NodeId) (symbol : Handle) (attached : NodeId) (is_reference : Bool) → Node
  push_symbol : (id : NodeId) (symbol : Handle) (is_reference : Bool) → Node
  root : (id : NodeId) → Node
  scope : (id : NodeId) (is_exported : Bool) → Node

unfoldable pub is_exported_scope : Node → Bool
is_exported_scope (scope id is_exported) = is_exported
is_exported_scope _ = false

unfoldable pub is_definition : Node → Bool
is_definition (pop_scoped_symbol id symbol d) = d
is_definition (pop_symbol id symbol d) = d
is_definition _ = false

unfoldable pub is_reference : Node → Bool
is_reference (push_scoped_symbol id symbol attached r) = r
is_reference (push_symbol id symbol r) = r
is_reference _ = false

unfoldable pub is_jump_to : Node → Bool
is_jump_to (jump_to id) = true
is_jump_to _ = false

unfoldable pub is_root : Node → Bool
is_root (root id) = true
is_root _ = false

unfoldable pub is_endpoint : Node → Bool
unfolding is_definition is_exported_scope is_reference is_root
is_endpoint n = is_definition n || is_exported_scope n || is_reference n || is_root n

unfoldable pub node_symbol : Node → Option Handle
node_symbol (push_scoped_symbol id symbol attached r) = some symbol
node_symbol (push_symbol id symbol r) = some symbol
node_symbol (pop_scoped_symbol id symbol d) = some symbol
node_symbol (pop_symbol id symbol d) = some symbol
node_symbol _ = none

unfoldable pub node_scope : Node → Option NodeId
node_scope (push_scoped_symbol id symbol attached r) = some attached
node_scope _ = none

unfoldable pub node_id : Node → NodeId
node_id (drop_scopes id) = id
node_id (jump_to id) = id
node_id (pop_scoped_symbol id symbol d) = id
node_id (pop_symbol id symbol d) = id
node_id (push_scoped_symbol id symbol attached r) = id
node_id (push_symbol id symbol r) = id
node_id (root id) = id
node_id (scope id e) = id

unfoldable pub node_file : Node → Option Handle
unfolding node_id
node_file n = (node_id n).file

unfoldable pub is_in_file : Node → Handle → Bool
unfolding node_id id_is_in_file
is_in_file n file = id_is_in_file (node_id n) file
