-- ===== src/Lib.antt =====
-- A verification library for the `stack-graphs` crate: the arenas and deques in which the program keeps
-- its data, the nodes of a stack graph, and the partial paths from which name bindings are found.
--
-- The parts, and how they interact. A stack graph (`Graph`) is an arena of nodes, found by identifiers.
-- A partial path (`Partial`) goes from node to node along edges; each node pushes to, or pops from, a
-- symbol stack and a scope stack of which only a part is known, the rest being variables. The
-- precondition says what the path needs of the stacks before it, the postcondition what it leaves.
-- Paths are joined by unifying stacks under bindings of their variables. The known parts of the stacks
-- are deques in shared arenas (`Arena`). A database (`Stitching`) stores partial paths with indexes from which
-- the candidates for extending a path are taken: by start node, or at the root by a key, a handle that
-- stands for a list of symbols.
--
-- Files and sources (files of stack-graphs/src):
--   * Prelude: shared tests, list functions and lemmas, integers and u32 words.
--   * Utils: stack-graphs/src/utils.rs, `equals_option` and `cmp_option`.
--   * Paths: stack-graphs/src/paths.rs, `PathResolutionError`, and the results of fallible operations.
--   * Arena: stack-graphs/src/arena.rs, `Handle` and `Arena`; Arena/HandleSet, Arena/Supplemental: `HandleSet` and
--     `SupplementalArena`; Arena/Reversible: `ReversibleList` and its cells; Arena/Deque: `Deque`; Arena/Lists: `List`.
--   * Graph/NodeId, Graph/Node, Graph/Edges, Graph/StackGraph: stack-graphs/src/graph.rs, `NodeID`, `Node`, `Edge`, and
--     of `StackGraph` the nodes and `NodeIDHandles`; Graph/EdgeStore: its edges; Graph/Strings and Graph/Strings/Names:
--     `InternedStringArena`, and the symbols, strings and files.
--   * Partial/ScopeStack, SymbolStack, ScopedSymbol, EdgeList: stack-graphs/src/partial.rs, the stacks and edge lists;
--     Partial/ScopeBindings, SymbolBindings: the bindings, `unify` and `apply_partial_bindings`;
--     Partial/Stacks: the methods of `Node`; Partial/Path and Partial/Path/Join: `PartialPath`.
--   * Partial/Path/Semantics: the specification, concrete walks and what a partial stack stands for.
--   * Cycles: stack-graphs/src/cycles.rs, `SimilarPathDetector` on the paths of one key; Cycles/Appending:
--     `AppendingCycleDetector`, and `Appendable` of stack-graphs/src/stitching.rs.
--   * Stitching: stack-graphs/src/stitching.rs, `Database` and `SymbolStackKey`; Stitching/LocalNodes: its local nodes.
--   * Stats: stack-graphs/src/stats.rs, `FrequencyDistribution`.
--   * Tests: concrete runs at which the theorems apply.
--
-- State and operations. An operation that takes `&mut self` or an arena returns the new values. Slot 0
-- of an arena is never initialised and left out, so that a handle is the number of a slot from 1 on. A
-- panic is `none` in the arenas and `panic` in the results of partial paths; an `Err` is `err`. A
-- result of two layers of `Option` has the panic outside. Operations of partial.rs that take
-- `PartialPaths` work on deques; a deque is modelled there by the sequence that it holds, and
-- Arena/Deque is about its representation. The four stacks that `append_to_partial_stacks` takes by mutable
-- reference are one record. Symbol handles are compared by a parameter `order` where the source
-- compares their strings. A hash map is an association list. The fields of `StackGraph` that hold edges, and those that
-- hold names, are records of their own. A pointer into a buffer is its number, the version of its memory,
-- and an offset; a read of memory that has been reallocated is `none`. A search in a sorted slice
-- is modelled by the position that it gives. Derived implementations of equality and order are written out.
--
-- Bounds and fuel. Counters and variables are u32 with wrap-around, as in a release build; theorems
-- that need room in an arena or among the variables say so. The loops of a reversible list run on as
-- much fuel as the arena has cells and one more, since a list passes no cell twice; so do those of a plain
-- list. Each round of `find_local_nodes` but the last one marks an end of a path, so that twice as
-- many rounds as paths, and one more, are enough. The doubling of `next_power_of_two` takes its argument as fuel. `unify` and `add`
-- call each other without a bound in the source: they take their fuel as an argument, one unit for each
-- round, and a run that needs more is `out_of_fuel`.
--
-- Not modelled: source information and the copy of a graph into another one (stack-graphs/src/graph.rs); raw
-- pointers and preallocation (stack-graphs/src/arena.rs); display; the hash map of the similar paths' buckets and
-- the statistics of cycles.rs; the stitcher of stitching.rs and its statistics; the quantiles of stats.rs, which round floats; storage.rs and serde, which read and write;
-- assert.rs and c.rs; the crates around this one, which drive parsers.
pub mod Prelude
pub mod Utils
pub mod Arena
pub mod Paths
pub mod Graph
pub mod Partial
pub mod Cycles
pub mod Stitching
pub mod Stats
mod Tests
