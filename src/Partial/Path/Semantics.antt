-- ===== src/Partial/Path/Semantics.antt =====
-- What partial paths are about: the stacks of a concrete walk through a stack graph, what a node does
-- to them, and the concrete stacks that a partial stack stands for under an assignment of its
-- variables. This is the specification of stack-graphs/src/partial.rs.
use stack_graphs_muffet.Prelude.{
  ℕ, ◌≡◌, true, ◌==◌, if◌then◌else◌, List, [], ◌∷◌, ◌++◌, map, Option, none, some,
}
use mathlib.Core.Option
use stack_graphs_muffet.Arena.{Handle}
use stack_graphs_muffet.Graph.Node.{
  Node, drop_scopes, jump_to, pop_scoped_symbol, pop_symbol, push_scoped_symbol, push_symbol, root,
  scope, is_jump_to,
}
use stack_graphs_muffet.Graph.StackGraph
use stack_graphs_muffet.Graph.StackGraph.{StackGraph}
use stack_graphs_muffet.Graph.Edges.{Edge}
use stack_graphs_muffet.Partial.ScopeStack.{PartialScopeStack}
use stack_graphs_muffet.Partial.ScopedSymbol.{PartialScopedSymbol}
use stack_graphs_muffet.Partial.SymbolStack.{PartialSymbolStack}
use stack_graphs_muffet.Partial.Stacks.{Stacks}

pub record ScopedSymbol : Type 0 where
  pub symbol : Handle
  pub scopes : Option (List Handle)

-- The symbol stack and the scope stack of a walk.
pub record Machine : Type 0 where
  pub symbols : List ScopedSymbol
  pub scopes : List Handle

unfoldable pub pop_scoped : Handle → List Handle → List ScopedSymbol → Option Machine
pop_scoped symbol scopes [] = none
pop_scoped symbol scopes (x ∷ xs) =
    if x.symbol == symbol
    then Option.map (λ attached. record { symbols = xs; scopes = attached }) x.scopes
    else none

unfoldable pub pop_unscoped : Handle → List Handle → List ScopedSymbol → Option Machine
pop_unscoped symbol scopes [] = none
pop_unscoped symbol scopes (x ∷ xs) =
    if x.symbol == symbol
    then elim x.scopes [ none ↦ some (record { symbols = xs; scopes = scopes }) | some _ ↦ none ]
    else none

-- What a node does to the stacks of a walk that reaches it; `none` if the walk cannot enter it.
unfoldable pub visit : StackGraph → Node → Machine → Option Machine
unfolding pop_scoped pop_unscoped
visit g (drop_scopes id) m = some (record m { scopes = [] })
visit g (jump_to id) m = some m
visit g (pop_scoped_symbol id symbol d) m = pop_scoped symbol m.scopes m.symbols
visit g (pop_symbol id symbol d) m = pop_unscoped symbol m.scopes m.symbols
visit g (push_scoped_symbol id symbol attached r) m =
    Option.map
      (λ h. record m {
        symbols = record { symbol = symbol; scopes = some (h ∷ m.scopes) } ∷ m.symbols;
      })
      (StackGraph.node_for_id g attached)
visit g (push_symbol id symbol r) m =
    some (record m { symbols = record { symbol = symbol; scopes = none } ∷ m.symbols })
visit g (root id) m = some m
visit g (scope id e) m = some m

-- A walk from before `start` with the stacks `before`: it enters the start node, follows edges, and
-- at the jump-to node it jumps to the scope on top of the scope stack.
pub data Walk (g : StackGraph) (IsEdge : Edge → Type 0) (start : Handle) (before : Machine)
    : Handle → Machine → Type 0 where
  enter :
      {m : Machine} (n : Node)
      → StackGraph.index g start ≡ some n
      → visit g n before ≡ some m
      → Walk g IsEdge start before start m
  follow :
      {h k : Handle} {m m' : Machine} (e : Edge) (n : Node)
      → Walk g IsEdge start before h m
      → IsEdge e
      → e.source ≡ h
      → e.sink ≡ k
      → StackGraph.index g k ≡ some n
      → visit g n m ≡ some m'
      → Walk g IsEdge start before k m'
  jump :
      {h k : Handle} {m m' : Machine} (n : Node)
      → Walk g IsEdge start before h m
      → StackGraph.index g h ≡ some n
      → is_jump_to n ≡ true
      → m.scopes ≡ k ∷ m'.scopes
      → m.symbols ≡ m'.symbols
      → Walk g IsEdge start before k m'

-- The concrete stacks that the variables stand for.
pub record Assignment : Type 0 where
  pub symbols_of : ℕ → List ScopedSymbol
  pub scopes_of : ℕ → List Handle

abbrev pub rest_of {ℓ} : {A : Type ℓ} → (ℕ → List A) → Option ℕ → List A
rest_of f none = []
rest_of f (some v) = f v

unfoldable pub scopes : Assignment → PartialScopeStack → List Handle
scopes a s = s.scopes ++ rest_of a.scopes_of s.variable

unfoldable pub scoped_symbol : Assignment → PartialScopedSymbol → ScopedSymbol
unfolding scopes
scoped_symbol a x = record { symbol = x.symbol; scopes = Option.map (scopes a) x.scopes }

unfoldable pub symbols : Assignment → PartialSymbolStack → List ScopedSymbol
unfolding scoped_symbol
symbols a s = map (scoped_symbol a) s.symbols ++ rest_of a.symbols_of s.variable

-- The stacks before and after a walk of the path.
unfoldable pub precondition : Assignment → Stacks → Machine
unfolding symbols
precondition a s = record {
  symbols = symbols a s.symbol_stack_precondition;
  scopes = scopes a s.scope_stack_precondition;
}

unfoldable pub postcondition : Assignment → Stacks → Machine
unfolding symbols
postcondition a s = record {
  symbols = symbols a s.symbol_stack_postcondition;
  scopes = scopes a s.scope_stack_postcondition;
}
