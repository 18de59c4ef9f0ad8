-- ===== src/Partial/Path/Sound.antt =====
-- `append_to_partial_stacks` and `append` of stack-graphs/src/partial.rs, against concrete walks.
use stack_graphs_muffet.Prelude.{
  ℕ, ◌≡◌, refl, ap, ◌==◌, if◌then◌else◌, List, [], ◌∷◌, ◌++◌, map, Option, none, some, arith,
  append_assoc, List-cases, ==_refl,
}
use mathlib.Core.List.{map-append}
use stack_graphs_muffet.Paths.{ok}
use stack_graphs_muffet.Arena.{Handle}
use stack_graphs_muffet.Graph.Node.{
  Node, drop_scopes, jump_to, pop_scoped_symbol, pop_symbol, push_scoped_symbol, push_symbol, root,
  scope,
}
use stack_graphs_muffet.Graph.StackGraph.{StackGraph}
use stack_graphs_muffet.Partial.ScopeStack
use stack_graphs_muffet.Partial.ScopeStack.{PartialScopeStack}
use stack_graphs_muffet.Partial.ScopedSymbol.{PartialScopedSymbol}
use stack_graphs_muffet.Partial.SymbolStack
use stack_graphs_muffet.Partial.SymbolStack.{PartialSymbolStack}
use stack_graphs_muffet.Partial.Stacks
use stack_graphs_muffet.Partial.Stacks.{
  Stacks, append_to_partial_stacks, fresh_scope_stack_variable,
}
use stack_graphs_muffet.Partial.Path.Semantics
use stack_graphs_muffet.Partial.Path.Semantics.{
  Assignment, Machine, visit, precondition, postcondition, rest_of, symbols, scopes, scoped_symbol,
}

-- The variable of the symbol postcondition is that of the precondition.
abbrev pub IsLinked : Stacks → Type 0
IsLinked s =
    (v : ℕ)
    → s.symbol_stack_postcondition.variable ≡ some v
    → s.symbol_stack_precondition.variable ≡ some v

-- The assignment with one more symbol in front of what a variable stands for.
abbrev pub consed : Assignment → ℕ → Semantics.ScopedSymbol → Assignment
consed a v x = record a { symbols_of = λ k. if k == v then x ∷ a.symbols_of v else a.symbols_of k }

-- A walk that reaches the node with what `s` stands for leaves it with what `t` stands for.
abbrev pub Sound : StackGraph → Node → Stacks → Stacks → Type 0
Sound g n s t =
    (a : Assignment)
    → (b : Assignment) × (precondition b s ≡ precondition a t)
      × (visit g n (postcondition b s) ≡ some (postcondition a t))

-- A symbol moved from what the variable stands for to the back of the stack.
symbols-push_back :
    (a : Assignment) (pre : PartialSymbolStack) (v : ℕ) (y : PartialScopedSymbol)
    → pre.variable ≡ some v
    → symbols (consed a v (scoped_symbol a y)) pre ≡ symbols a (SymbolStack.push_back pre y)
unfolding symbols SymbolStack.push_back
symbols-push_back a pre v y e =
    rw (e, map-append, append_assoc (map (scoped_symbol a) pre.symbols))
      (ap (λ (z : List Semantics.ScopedSymbol). map (scoped_symbol a) pre.symbols ++ z)
        (rw (==_refl v)))

-- The variable stands for the symbol and what it stood for.
rest_of-consed :
    (a : Assignment) (v : ℕ) (x : Semantics.ScopedSymbol)
    → (consed a v x).symbols_of v ≡ x ∷ a.symbols_of v
rest_of-consed a v x = ground (arith, ==_refl v)

-- The stacks of a path, with the symbol postcondition laid open.
abbrev opened :
    PartialSymbolStack
    → PartialScopeStack
    → List PartialScopedSymbol
    → ℕ
    → Option ℕ
    → PartialScopeStack
    → Stacks
opened pre scope_pre xs n v scope_post = record {
  symbol_stack_precondition = pre;
  scope_stack_precondition = scope_pre;
  symbol_stack_postcondition = record { symbols = xs; length = n; variable = v };
  scope_stack_postcondition = scope_post;
}

module _ (symbol : Handle) (pre : PartialSymbolStack)
    (scope_pre scope_post : PartialScopeStack) where
  pop_unscoped-Sound :
      (xs : List PartialScopedSymbol) (n : ℕ) (v : Option ℕ) (t : Stacks)
      → Stacks.pop_unscoped symbol
          (opened pre scope_pre xs n v scope_post)
          (SymbolStack.pop_front (record { symbols = xs; length = n; variable = v }))
        ≡ ok t
      → IsLinked (opened pre scope_pre xs n v scope_post)
      → (a : Assignment)
      → (b : Assignment) × (precondition b (opened pre scope_pre xs n v scope_post)
          ≡ precondition a t)
        × (Semantics.pop_unscoped symbol
              (scopes b scope_post)
              (symbols b (record { symbols = xs; length = n; variable = v }))
            ≡ some (postcondition a t))
  unfolding Stacks.pop_unscoped SymbolStack.pop_front Semantics.pop_unscoped precondition
      postcondition symbols
  pop_unscoped-Sound (x ∷ xs) n v t e l a = (a, ground arith, ground arith)
  pop_unscoped-Sound [] n none t e l a = absurd (ground arith)
  pop_unscoped-Sound [] n (some v) t e l a =
      let y : PartialScopedSymbol = record { symbol = symbol; scopes = none } in
      (
        consed a v (scoped_symbol a y),
        ground (arith, symbols-push_back a pre v y (l v refl)),
        ground (arith, rest_of-consed a v (scoped_symbol a y), ==_refl symbol),
      )

  pop_scoped-Sound :
      (xs : List PartialScopedSymbol) (n : ℕ) (v : Option ℕ) (t : Stacks)
      → Stacks.pop_scoped symbol
          (opened pre scope_pre xs n v scope_post)
          (SymbolStack.pop_front (record { symbols = xs; length = n; variable = v }))
        ≡ ok t
      → IsLinked (opened pre scope_pre xs n v scope_post)
      → (a : Assignment)
      → (b : Assignment) × (precondition b (opened pre scope_pre xs n v scope_post)
          ≡ precondition a t)
        × (Semantics.pop_scoped symbol
              (scopes b scope_post)
              (symbols b (record { symbols = xs; length = n; variable = v }))
            ≡ some (postcondition a t))
  unfolding Stacks.pop_scoped SymbolStack.pop_front Semantics.pop_scoped precondition postcondition
      symbols
  pop_scoped-Sound (x ∷ xs) n v t e l a = (a, ground arith, ground arith)
  pop_scoped-Sound [] n none t e l a = absurd (ground arith)
  pop_scoped-Sound [] n (some v) t e l a =
      let y : PartialScopedSymbol = record {
        symbol = symbol;
        scopes = some (ScopeStack.from_variable (fresh_scope_stack_variable pre scope_pre));
      } in
      (
        consed a v (scoped_symbol a y),
        ground (arith, symbols-push_back a pre v y (l v refl)),
        ground (arith, rest_of-consed a v (scoped_symbol a y), ==_refl symbol),
      )

-- Appending a node changes no symbol variable.
pub append_to_partial_stacks-IsLinked :
    (g : StackGraph) (n : Node) (s t : Stacks)
    → append_to_partial_stacks n g s ≡ ok t
    → IsLinked s
    → IsLinked t
unfolding append_to_partial_stacks
append_to_partial_stacks-IsLinked g (drop_scopes id) s t e l v = ground (arith, l v)
append_to_partial_stacks-IsLinked g (jump_to id) s t e l v = ground (arith, l v)
append_to_partial_stacks-IsLinked g (root id) s t e l v = ground (arith, l v)
append_to_partial_stacks-IsLinked g (scope id x) s t e l v = ground (arith, l v)
append_to_partial_stacks-IsLinked g (push_symbol id symbol r) s t e l v = ground (arith, l v)
append_to_partial_stacks-IsLinked g (push_scoped_symbol id symbol attached r) s t e l v =
    ground (arith, l v)
append_to_partial_stacks-IsLinked g (pop_symbol id symbol d) s t e l v =
    ground (arith, l v, List-cases s.symbol_stack_postcondition.symbols)
append_to_partial_stacks-IsLinked g (pop_scoped_symbol id symbol d) s t e l v =
    ground (arith, l v, List-cases s.symbol_stack_postcondition.symbols)

module _ (g : StackGraph) where
  -- When a node is appended to linked partial stacks, then for every assignment of the new stacks'
  -- variables there is one of the old stacks' variables under which the preconditions stand for the
  -- same stacks, and the node takes what the old postcondition stands for to what the new one does.
  pub append_to_partial_stacks-Sound :
      (n : Node) (s t : Stacks) → append_to_partial_stacks n g s ≡ ok t → IsLinked s → Sound g n s t
  unfolding append_to_partial_stacks visit precondition postcondition
  append_to_partial_stacks-Sound (drop_scopes id) s t e l a = (a, ground arith, ground arith)
  append_to_partial_stacks-Sound (jump_to id) s t e l a = (a, ground arith, ground arith)
  append_to_partial_stacks-Sound (root id) s t e l a = (a, ground arith, ground arith)
  append_to_partial_stacks-Sound (scope id x) s t e l a = (a, ground arith, ground arith)
  append_to_partial_stacks-Sound (push_symbol id symbol r) s t e l a =
      (a, ground arith, ground arith)
  append_to_partial_stacks-Sound (push_scoped_symbol id symbol attached r) s t e l a =
      (a, ground arith, ground arith)
  append_to_partial_stacks-Sound (pop_symbol id symbol d) s t e l a =
      let post = s.symbol_stack_postcondition in
      pop_unscoped-Sound symbol s.symbol_stack_precondition s.scope_stack_precondition
        s.scope_stack_postcondition post.symbols post.length post.variable t e l a
  append_to_partial_stacks-Sound (pop_scoped_symbol id symbol d) s t e l a =
      let post = s.symbol_stack_postcondition in
      pop_scoped-Sound symbol s.symbol_stack_precondition s.scope_stack_precondition
        s.scope_stack_postcondition post.symbols post.length post.variable t e l a
