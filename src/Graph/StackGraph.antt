-- ===== src/Graph/StackGraph.antt =====
-- stack-graphs/src/graph.rs, `StackGraph`: the nodes and their identifiers. The outer `none` of a
-- result is a panic (an identifier with no file, an index out of range).
pub mod Laws
use stack_graphs_muffet.Prelude.{
  ℕ, zero, suc, ◌+◌, ◌-◌, Bool, true, false, leb, ltb, if◌then◌else◌, List, [], ◌∷◌, ◌++◌, Option,
  none, some, is_some, get_elem?, set, length, replicate, as_u32,
}
use mathlib.Core.Option
use stack_graphs_muffet.Arena
use stack_graphs_muffet.Arena.{Arena, Handle}
use stack_graphs_muffet.Arena.Supplemental
use stack_graphs_muffet.Arena.Supplemental.{SupplementalArena}
use stack_graphs_muffet.Graph.NodeId
use stack_graphs_muffet.Graph.NodeId.{NodeId}
use stack_graphs_muffet.Graph.Node
use stack_graphs_muffet.Graph.Node.{Node}

-- `NodeIDHandles`: for each file, the handles of its nodes under their local identifiers.
abbrev pub NodeIdHandles : Type 0
NodeIdHandles = SupplementalArena (List (Option Handle))

-- The entry at an index, with an index out of range a missing one.
abbrev pub entry_at : List (Option Handle) → ℕ → Option Handle
entry_at entries i = elim (get_elem? entries i) [ none ↦ none | some e ↦ e ]

-- `file_entry`, which an index through `files[...]` creates if there is none.
abbrev pub file_entry : NodeIdHandles → Handle → List (Option Handle)
file_entry files file = elim (Supplemental.get files file) [ none ↦ [] | some es ↦ es ]

unfoldable pub try_handle_for_id : NodeIdHandles → NodeId → Option (Option Handle)
try_handle_for_id files node_id =
    Option.map (λ file. entry_at (file_entry files file) node_id.local_id) node_id.file

unfoldable pub resized : List (Option Handle) → ℕ → List (Option Handle)
resized entries i =
    if leb (length entries) i then entries ++ replicate (i + 1 - length entries) none else entries

unfoldable pub handle_for_id : NodeIdHandles → NodeId → Option (NodeIdHandles × Option Handle)
unfolding resized
handle_for_id files node_id =
    Option.map
      (λ file.
        let entries = resized (file_entry files file) node_id.local_id in
        (Supplemental.put_or_default [] files file entries, entry_at entries node_id.local_id))
      node_id.file

-- The index is in range after `handle_for_id`.
unfoldable pub set_handle_for_id : NodeIdHandles → NodeId → Handle → Option NodeIdHandles
set_handle_for_id files node_id handle =
    Option.map
      (λ file.
        Supplemental.put_or_default [] files file
          (set (file_entry files file) node_id.local_id (some handle)))
      node_id.file

unfoldable pub unused_id : NodeIdHandles → Handle → NodeId
unused_id files file = NodeId.new_in_file file (as_u32 (length (file_entry files file)))

present : List (Option Handle) → List Handle
present [] = []
present (none ∷ es) = present es
present (some h ∷ es) = h ∷ present es

unfoldable pub nodes_for_file : NodeIdHandles → Handle → List Handle
unfolding present
nodes_for_file files file = present (file_entry files file)

pub record StackGraph : Type 0 where
  pub nodes : Arena Node
  pub node_id_handles : NodeIdHandles

abbrev pub root_node : Handle
root_node = 1

abbrev pub jump_to_node : Handle
jump_to_node = 2

-- `StackGraph::default`: the root and the jump-to node are the first two nodes.
unfoldable pub new : StackGraph
unfolding Arena.new Arena.add Arena.len Supplemental.new as_u32
new =
    let roots = (Arena.add Arena.new (Node.root NodeId.root)).0 in
    record {
      nodes = (Arena.add roots (Node.jump_to NodeId.jump_to)).0;
      node_id_handles = Supplemental.new;
    }

-- `graph[handle]`.
unfoldable pub index : StackGraph → Handle → Option Node
index g handle = Arena.get g.nodes handle

unfoldable pub node_for_id : StackGraph → NodeId → Option Handle
node_for_id g id =
    if is_some id.file
    then elim (try_handle_for_id g.node_id_handles id) [ none ↦ none | some h ↦ h ]
    else if NodeId.is_root id
    then some root_node
    else if NodeId.is_jump_to id
    then some jump_to_node
    else none

-- The new handle is stored under the identifier.
unfoldable pub store_node :
    StackGraph → NodeIdHandles → NodeId → Node → Option (StackGraph × Handle)
store_node g files id node =
    let added = Arena.add g.nodes node in
    Option.map (λ stored. (record { nodes = added.0; node_id_handles = stored }, added.1))
      (set_handle_for_id files id added.1)

unfoldable pub add_node : StackGraph → NodeId → Node → Option (StackGraph × Option Handle)
unfolding store_node
add_node g id node = elim (handle_for_id g.node_id_handles id) [
  | none ↦ none
  | some (files, some handle) ↦ some (record g { node_id_handles = files }, none)
  | some (files, none) ↦ Option.map (λ (g', h). (g', some h)) (store_node g files id node)
]

unfoldable pub get_or_create_node : StackGraph → NodeId → Node → Option (StackGraph × Handle)
unfolding store_node
get_or_create_node g id node = elim (handle_for_id g.node_id_handles id) [
  | none ↦ none
  | some (files, some handle) ↦ some (record g { node_id_handles = files }, handle)
  | some (files, none) ↦ store_node g files id node
]
