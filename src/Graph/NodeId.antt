-- ===== src/Graph/NodeId.antt =====
-- stack-graphs/src/graph.rs, `NodeID`: a node is known by its file and a number in that file.
use stack_graphs_muffet.Prelude.{ℕ, Bool, true, ◌&&◌, ◌==◌, Option, none, some, is_some, not}
use stack_graphs_muffet.Utils.{equals_option}
use stack_graphs_muffet.Arena.{Handle}

-- `file` is none for the root and the jump-to node.
pub record NodeId : Type 0 where
  pub file : Option Handle
  pub local_id : ℕ

abbrev pub root_node_id : ℕ
root_node_id = 1

abbrev pub jump_to_node_id : ℕ
jump_to_node_id = 2

abbrev pub root : NodeId
root = record { file = none; local_id = root_node_id }

abbrev pub jump_to : NodeId
jump_to = record { file = none; local_id = jump_to_node_id }

abbrev pub new_in_file : Handle → ℕ → NodeId
new_in_file file local_id = record { file = some file; local_id = local_id }

unfoldable pub is_root : NodeId → Bool
is_root id = not (is_some id.file) && (id.local_id == root_node_id)

unfoldable pub is_jump_to : NodeId → Bool
is_jump_to id = not (is_some id.file) && (id.local_id == jump_to_node_id)

in_file : Option Handle → Handle → Bool
in_file (some this_file) file = this_file == file
in_file none file = true

unfoldable pub is_in_file : NodeId → Handle → Bool
unfolding in_file
is_in_file id file = in_file id.file file

-- The derived equality.
unfoldable pub equals : NodeId → NodeId → Bool
unfolding equals_option
equals a b = equals_option ◌==◌ a.file b.file && (a.local_id == b.local_id)
