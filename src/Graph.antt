-- ===== src/Graph.antt =====
-- stack-graphs/src/graph.rs: node identifiers, nodes, edges, and the graph that holds them.
pub mod NodeId
pub mod Node
pub mod StackGraph
pub mod EdgeStore
pub mod Edges
pub mod Strings
