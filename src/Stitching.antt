-- ===== src/Stitching.antt =====
-- stack-graphs/src/stitching.rs, `Database`, `SymbolStackKey` and their indexes: the partial paths from
-- which longer paths are stitched. The outer `none` of a result is a panic, or fuel that ran out.
pub mod Keys
pub mod Index
pub mod Roots
pub mod Adding
pub mod Find
pub mod LocalNodes
use stack_graphs_muffet.Prelude.{
  ℕ, zero, suc, ◌&&◌, ◌==◌, not, Bool, true, false, if◌then◌else◌, List, [], ◌∷◌, ◌++◌, map, length,
  Option, none, some, is_some,
}
use mathlib.Core.Option
use stack_graphs_muffet.Arena
use stack_graphs_muffet.Arena.{Arena, Handle}
use stack_graphs_muffet.Arena.HandleSet
use stack_graphs_muffet.Arena.HandleSet.{HandleSet}
use stack_graphs_muffet.Arena.Supplemental
use stack_graphs_muffet.Arena.Supplemental.{SupplementalArena}
use stack_graphs_muffet.Arena.Lists
use stack_graphs_muffet.Arena.Lists.{ListArena, pop_front}
use stack_graphs_muffet.Graph.Edges
use stack_graphs_muffet.Graph.Edges.{Degree, add_degree}
use stack_graphs_muffet.Graph.Node
use stack_graphs_muffet.Graph.StackGraph
use stack_graphs_muffet.Graph.StackGraph.{StackGraph}
use stack_graphs_muffet.Partial.ScopedSymbol.{PartialScopedSymbol}
use stack_graphs_muffet.Partial.SymbolStack
use stack_graphs_muffet.Partial.SymbolStack.{PartialSymbolStack}
use stack_graphs_muffet.Partial.Path.{PartialPath}

-- A key is the handle of its last symbol, with the symbols before it behind. The cache, a hash map,
-- gives the cell of a symbol on top of a key.
pub record SymbolStackKeys : Type 0 where
  pub cells : ListArena Handle
  pub cache : List ((Handle × Handle) × Handle)

abbrev pub empty_key : Handle
empty_key = Lists.empty

-- `symbol_stack_key_cache.get`.
unfoldable pub cached : Handle → Handle → List ((Handle × Handle) × Handle) → Option Handle
cached head tail [] = none
cached head tail (((h, t), k) ∷ rest) =
    if (head == h) && (tail == t) then some k else cached head tail rest

-- `SymbolStackKey::push_back`. A new entry is one that the cache does not have.
unfoldable pub push_back : SymbolStackKeys → Handle → Handle → SymbolStackKeys × Handle
unfolding cached Lists.push_front
push_back keys key symbol = elim (cached symbol key keys.cache) [
  | some k ↦ (keys, k)
  | none ↦
      let pushed = Lists.push_front key keys.cells symbol in
      (record { cells = pushed.0; cache = ((symbol, key), pushed.1) ∷ keys.cache }, pushed.1)
]

-- `SymbolStackKey::from_partial_symbol_stack`, on the symbols of the stack.
unfoldable pub push_symbols :
    SymbolStackKeys → Handle → List PartialScopedSymbol → SymbolStackKeys × Handle
unfolding push_back
push_symbols keys key [] = (keys, key)
push_symbols keys key (x ∷ xs) =
    let pushed = push_back keys key x.symbol in push_symbols pushed.0 pushed.1 xs

unfoldable pub from_partial_symbol_stack :
    SymbolStackKeys → PartialSymbolStack → SymbolStackKeys × Handle
unfolding push_symbols
from_partial_symbol_stack keys stack = push_symbols keys empty_key stack.symbols

-- An index of paths, by node or by key.
abbrev pub PathIndex : Type 0
PathIndex = SupplementalArena (List Handle)

abbrev pub entries : PathIndex → Handle → List Handle
entries index key = elim (Supplemental.get index key) [ none ↦ [] | some paths ↦ paths ]

-- `index[key].push(path)`.
unfoldable pub push_path : PathIndex → Handle → Handle → PathIndex
unfolding Supplemental.put_or_default Supplemental.get
push_path index key path = Supplemental.put_or_default [] index key (entries index key ++ path ∷ [])

pub record Database : Type 0 where
  pub partial_paths : Arena PartialPath
  pub local_nodes : HandleSet
  pub keys : SymbolStackKeys
  pub paths_by_start_node : PathIndex
  pub root_paths_by_precondition_prefix : PathIndex
  pub root_paths_by_precondition_with_variable : PathIndex
  pub root_paths_by_precondition_without_variable : PathIndex
  pub incoming_paths : SupplementalArena Degree

unfoldable pub new : Database
unfolding Arena.new Supplemental.new HandleSet.new
new = record {
  partial_paths = Arena.new;
  local_nodes = HandleSet.new;
  keys = record { cells = Arena.new; cache = [] };
  paths_by_start_node = Supplemental.new;
  root_paths_by_precondition_prefix = Supplemental.new;
  root_paths_by_precondition_with_variable = Supplemental.new;
  root_paths_by_precondition_without_variable = Supplemental.new;
  incoming_paths = Supplemental.new;
}

unfoldable pub clear : Database → Database
unfolding Arena.clear Supplemental.clear HandleSet.clear
clear db = record {
  partial_paths = Arena.clear db.partial_paths;
  local_nodes = HandleSet.clear db.local_nodes;
  keys = record { cells = Arena.clear db.keys.cells; cache = [] };
  paths_by_start_node = Supplemental.clear db.paths_by_start_node;
  root_paths_by_precondition_prefix = Supplemental.clear db.root_paths_by_precondition_prefix;
  root_paths_by_precondition_with_variable =
      Supplemental.clear db.root_paths_by_precondition_with_variable;
  root_paths_by_precondition_without_variable =
      Supplemental.clear db.root_paths_by_precondition_without_variable;
  incoming_paths = Supplemental.clear db.incoming_paths;
}

-- The `while` loop of `add_partial_path`: the path goes to the proper prefixes of its key.
unfoldable pub index_prefixes :
    ℕ → ListArena Handle → Handle → PathIndex → Handle → Option PathIndex
unfolding Lists.pop_front push_path
index_prefixes zero cells key index path = none
index_prefixes (suc fuel) cells key index path = elim (pop_front key cells) [
  | none ↦ none
  | some (none, key') ↦ some index
  | some (some x, key') ↦ elim (Lists.is_empty key') [
    | true ↦ some index
    | false ↦ index_prefixes fuel cells key' (push_path index key' path) path
  ]
]

-- A path that starts at the root is indexed by its symbol stack precondition.
unfoldable pub index_root_path : Database → PartialSymbolStack → Handle → Option Database
unfolding from_partial_symbol_stack index_prefixes push_path SymbolStack.has_variable
index_root_path db stack handle =
    let (keys, key) = from_partial_symbol_stack db.keys stack in
    let exact = not (Lists.is_empty key) in
    Option.map
      (λ prefixes. record db {
        keys = keys;
        root_paths_by_precondition_with_variable =
            if exact && SymbolStack.has_variable stack
            then push_path db.root_paths_by_precondition_with_variable key handle
            else db.root_paths_by_precondition_with_variable;
        root_paths_by_precondition_without_variable =
            if exact && not (SymbolStack.has_variable stack)
            then push_path db.root_paths_by_precondition_without_variable key handle
            else db.root_paths_by_precondition_without_variable;
        root_paths_by_precondition_prefix = prefixes;
      })
      (index_prefixes (suc (length keys.cells.items)) keys.cells key
        db.root_paths_by_precondition_prefix handle)

-- `incoming_paths[node] += Degree::One` counts from zero at a node that has no degree yet.
abbrev pub degree : SupplementalArena Degree → Handle → Degree
degree degrees node = elim (Supplemental.get degrees node) [ none ↦ Degree.zero | some d ↦ d ]

unfoldable pub count_path : SupplementalArena Degree → Handle → SupplementalArena Degree
unfolding add_degree Supplemental.get Supplemental.put_or_default
count_path degrees node =
    Supplemental.put_or_default Degree.zero degrees node
      (add_degree (degree degrees node) Degree.one)

unfoldable pub add_partial_path : Database → StackGraph → PartialPath → Option (Database × Handle)
unfolding index_root_path push_path count_path StackGraph.index Node.is_root Arena.add
add_partial_path db g path =
    let added = Arena.add db.partial_paths path in
    let db' = record db { partial_paths = added.0 } in
    elim (StackGraph.index g path.start_node) [
      | none ↦ none
      | some n ↦
          Option.map
            (λ (indexed : Database). (
              record indexed { incoming_paths = count_path indexed.incoming_paths path.end_node },
              added.1,
            ))
            (if Node.is_root n
              then index_root_path db' path.symbol_stack_precondition added.1
              else some (record db' {
                paths_by_start_node = push_path db.paths_by_start_node path.start_node added.1;
              }))
    ]

-- The `loop` of `find_candidate_partial_paths_from_root`: the paths at the key, and at its prefixes.
unfoldable pub find_prefixes : ℕ → ListArena Handle → Handle → PathIndex → Option (List Handle)
unfolding Lists.pop_front
find_prefixes zero cells key index = none
find_prefixes (suc fuel) cells key index = elim (pop_front key cells) [
  | none ↦ none
  | some (none, key') ↦ some (entries index key)
  | some (some x, key') ↦
      Option.map (λ rest. entries index key ++ rest) (find_prefixes fuel cells key' index)
]

-- `find_candidate_partial_paths_from_root` for a symbol stack. The key of the stack may be new.
unfoldable pub find_candidate_partial_paths_from_root :
    Database → PartialSymbolStack → Option (Database × List Handle)
unfolding from_partial_symbol_stack find_prefixes SymbolStack.has_variable
find_candidate_partial_paths_from_root db stack =
    let (keys, key) = from_partial_symbol_stack db.keys stack in
    let exact = entries db.root_paths_by_precondition_without_variable key in
    let extensions =
      if SymbolStack.has_variable stack
      then entries db.root_paths_by_precondition_prefix key
      else [] in
    Option.map (λ prefixes. (record db { keys = keys }, exact ++ (extensions ++ prefixes)))
      (find_prefixes (suc (length keys.cells.items)) keys.cells key
        db.root_paths_by_precondition_with_variable)

abbrev all_entries : List (Handle × List Handle) → List Handle
all_entries [] = []
all_entries ((k, paths) ∷ rest) = paths ++ all_entries rest

-- The same for no symbol stack: all root paths that are indexed.
unfoldable pub find_all_root_paths : Database → List Handle
unfolding Supplemental.iter
find_all_root_paths db =
    all_entries (Supplemental.iter db.root_paths_by_precondition_with_variable)
    ++ all_entries (Supplemental.iter db.root_paths_by_precondition_without_variable)

unfoldable pub find_candidate_partial_paths_from_node : Database → Handle → List Handle
find_candidate_partial_paths_from_node db node = entries db.paths_by_start_node node

unfoldable pub find_candidate_partial_paths :
    Database → StackGraph → PartialPath → Option (Database × List Handle)
unfolding find_candidate_partial_paths_from_root find_candidate_partial_paths_from_node
    StackGraph.index Node.is_root
find_candidate_partial_paths db g path = elim (StackGraph.index g path.end_node) [
  | none ↦ none
  | some n ↦
      if Node.is_root n
      then find_candidate_partial_paths_from_root db path.symbol_stack_postcondition
      else some (db, find_candidate_partial_paths_from_node db path.end_node)
]

-- The index panics, here none, for a node after the last one that has a degree.
unfoldable pub get_incoming_path_degree : Database → Handle → Option Degree
unfolding Supplemental.get
get_incoming_path_degree db node = Supplemental.get db.incoming_paths node
