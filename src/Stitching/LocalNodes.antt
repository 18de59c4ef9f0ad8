-- ===== src/Stitching/LocalNodes.antt =====
-- stack-graphs/src/stitching.rs, `Database::find_local_nodes` and the other operations on local nodes.
pub mod Sound
pub mod Progress
pub mod Returns
use stack_graphs_muffet.Prelude.{
  ℕ, zero, suc, ◌+◌, ◌&&◌, not, Bool, true, false, if◌then◌else◌, List, [], ◌∷◌, length, Option,
  none, some,
}
use mathlib.Core.Option
use stack_graphs_muffet.Arena.{Handle}
use stack_graphs_muffet.Arena.HandleSet
use stack_graphs_muffet.Arena.HandleSet.{HandleSet}
use stack_graphs_muffet.Graph.StackGraph.{root_node, jump_to_node}
use stack_graphs_muffet.Partial.Path.{PartialPath}
use stack_graphs_muffet.Stitching.{Database}

-- The variables of `find_local_nodes`: `nonlocal_start_nodes`, `nonlocal_end_nodes`, `keep_checking`.
pub record Marks : Type 0 where
  pub local_nodes : HandleSet
  pub starts : HandleSet
  pub ends : HandleSet
  pub keep_checking : Bool

-- Non-localness goes from the start node of a path to its end node.
unfoldable pub check_forwards : Marks → PartialPath → Marks
unfolding HandleSet.contains HandleSet.add HandleSet.remove
check_forwards m p =
    if HandleSet.contains m.starts p.start_node && not (HandleSet.contains m.starts p.end_node)
    then record m {
      keep_checking = true;
      starts = HandleSet.add m.starts p.end_node;
      local_nodes = HandleSet.remove m.local_nodes p.end_node;
    }
    else m

-- And from the end node to the start node.
unfoldable pub check_backwards : Marks → PartialPath → Marks
unfolding HandleSet.contains HandleSet.add HandleSet.remove
check_backwards m p =
    if not (HandleSet.contains m.ends p.start_node) && HandleSet.contains m.ends p.end_node
    then record m {
      keep_checking = true;
      ends = HandleSet.add m.ends p.start_node;
      local_nodes = HandleSet.remove m.local_nodes p.start_node;
    }
    else m

-- The `for` loop.
unfoldable pub check_paths : Marks → List PartialPath → Marks
unfolding check_forwards check_backwards
check_paths m [] = m
check_paths m (p ∷ ps) = check_paths (check_backwards (check_forwards m p) p) ps

-- The `while` loop.
unfoldable pub check_loop : ℕ → Marks → List PartialPath → Option Marks
unfolding check_paths
check_loop zero m ps = none
check_loop (suc fuel) m ps =
    let checked = check_paths (record m { keep_checking = false }) ps in
    let rest = check_loop fuel checked ps in if checked.keep_checking then rest else some checked

unfoldable pub add_endpoints : HandleSet → List PartialPath → HandleSet
unfolding HandleSet.add
add_endpoints nodes [] = nodes
add_endpoints nodes (p ∷ ps) =
    add_endpoints (HandleSet.add (HandleSet.add nodes p.start_node) p.end_node) ps

abbrev roots : HandleSet
roots = HandleSet.add (HandleSet.add HandleSet.new root_node) jump_to_node

unfoldable pub initial_marks : HandleSet → List PartialPath → Marks
unfolding HandleSet.clear HandleSet.new HandleSet.add HandleSet.remove add_endpoints
initial_marks nodes ps = record {
  local_nodes =
      HandleSet.remove (HandleSet.remove (add_endpoints (HandleSet.clear nodes) ps) root_node)
        jump_to_node;
  starts = roots;
  ends = roots;
  keep_checking = true;
}

-- Each round but the last marks the end or the start of a path.
unfoldable pub find_local_nodes : Database → Option Database
unfolding initial_marks check_loop
find_local_nodes db =
    let paths = db.partial_paths.items in
    Option.map (λ (m : Marks). record db { local_nodes = m.local_nodes })
      (check_loop (suc (length paths + length paths)) (initial_marks db.local_nodes paths) paths)

unfoldable pub mark_local_node : Database → Handle → Database
unfolding HandleSet.add
mark_local_node db node = record db { local_nodes = HandleSet.add db.local_nodes node }

unfoldable pub node_is_local : Database → Handle → Bool
unfolding HandleSet.contains
node_is_local db node = HandleSet.contains db.local_nodes node
