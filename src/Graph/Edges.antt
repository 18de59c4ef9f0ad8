-- ===== src/Graph/Edges.antt =====
-- stack-graphs/src/graph.rs, `Edge` and `Degree`.
pub mod Count
use stack_graphs_muffet.Prelude.{ℤ}
use stack_graphs_muffet.Arena.{Handle}

pub record Edge : Type 0 where
  pub source : Handle
  pub sink : Handle
  pub precedence : ℤ

-- The number of edges that end at a node, as far as it matters.
pub data Degree : Type 0 where
  zero one multiple : Degree

-- `Degree::add`.
unfoldable pub add_degree : Degree → Degree → Degree
add_degree zero d = d
add_degree one zero = one
add_degree multiple zero = multiple
add_degree one one = multiple
add_degree one multiple = multiple
add_degree multiple one = multiple
add_degree multiple multiple = multiple
