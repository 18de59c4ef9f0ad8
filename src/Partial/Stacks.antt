-- ===== src/Partial/Stacks.antt =====
-- stack-graphs/src/partial.rs, `impl Node`: what a node does to the partial stacks of a path that
-- reaches it.
use stack_graphs_muffet.Prelude.{ℕ, ◌==◌, if◌then◌else◌, Option, none, some, is_some, max}
use stack_graphs_muffet.Paths.{
  Result, ok, err, ◌>>=◌, unwrap, ok_or, incorrect_popped_symbol, missing_attached_scope_list,
  symbol_stack_unsatisfied, unexpected_attached_scope_list, unknown_attached_scope,
  empty_symbol_stack,
}
use stack_graphs_muffet.Arena.{Handle}
use stack_graphs_muffet.Graph.Node.{
  Node, drop_scopes, jump_to, pop_scoped_symbol, pop_symbol, push_scoped_symbol, push_symbol, root,
  scope,
}
use stack_graphs_muffet.Graph.StackGraph
use stack_graphs_muffet.Graph.StackGraph.{StackGraph}
use stack_graphs_muffet.Partial.ScopeStack
use stack_graphs_muffet.Partial.ScopeStack.{PartialScopeStack, ScopeStackVariable}
use stack_graphs_muffet.Partial.ScopedSymbol.{PartialScopedSymbol}
use stack_graphs_muffet.Partial.SymbolStack
use stack_graphs_muffet.Partial.SymbolStack.{PartialSymbolStack}

-- The four stacks that `append_to_partial_stacks` takes by mutable reference.
pub record Stacks : Type 0 where
  pub symbol_stack_precondition : PartialSymbolStack
  pub scope_stack_precondition : PartialScopeStack
  pub symbol_stack_postcondition : PartialSymbolStack
  pub scope_stack_postcondition : PartialScopeStack

unfoldable pub largest_scope_stack_variable : PartialSymbolStack → PartialScopeStack → ℕ
unfolding SymbolStack.largest_scope_stack_variable ScopeStack.largest_scope_stack_variable
largest_scope_stack_variable symbols scopes =
    max (SymbolStack.largest_scope_stack_variable symbols)
      (ScopeStack.largest_scope_stack_variable scopes)

unfoldable pub fresh_scope_stack_variable :
    PartialSymbolStack → PartialScopeStack → ScopeStackVariable
unfolding largest_scope_stack_variable ScopeStack.fresher_than
fresh_scope_stack_variable symbols scopes =
    ScopeStack.fresher_than (largest_scope_stack_variable symbols scopes)

-- A pop of a scoped symbol: the popped symbol, or a new one in the precondition.
unfoldable pub pop_scoped :
    Handle → Stacks → Option PartialScopedSymbol × PartialSymbolStack → Result Stacks
unfolding fresh_scope_stack_variable SymbolStack.push_back SymbolStack.has_variable
pop_scoped symbol s (some top, post) =
    if top.symbol == symbol
    then (ok_or missing_attached_scope_list top.scopes >>= λ new_scope_stack. ok (record s {
      symbol_stack_postcondition = post;
      scope_stack_postcondition = new_scope_stack;
    }))
    else err incorrect_popped_symbol
pop_scoped symbol s (none, post) =
    let v = fresh_scope_stack_variable s.symbol_stack_precondition s.scope_stack_precondition in
    let precondition_symbol : PartialScopedSymbol = record {
      symbol = symbol;
      scopes = some (ScopeStack.from_variable v);
    } in
    if SymbolStack.has_variable s.symbol_stack_postcondition
    then ok (record s {
      symbol_stack_precondition =
          SymbolStack.push_back s.symbol_stack_precondition precondition_symbol;
      scope_stack_postcondition = ScopeStack.from_variable v;
    })
    else err symbol_stack_unsatisfied

unfoldable pub pop_unscoped :
    Handle → Stacks → Option PartialScopedSymbol × PartialSymbolStack → Result Stacks
unfolding SymbolStack.push_back SymbolStack.has_variable
pop_unscoped symbol s (some top, post) =
    if top.symbol == symbol
    then if is_some top.scopes
      then err unexpected_attached_scope_list
      else ok (record s { symbol_stack_postcondition = post })
    else err incorrect_popped_symbol
pop_unscoped symbol s (none, post) =
    if SymbolStack.has_variable s.symbol_stack_postcondition
    then ok (record s {
      symbol_stack_precondition =
          SymbolStack.push_back s.symbol_stack_precondition
            (record { symbol = symbol; scopes = none });
    })
    else err symbol_stack_unsatisfied

unfoldable pub append_to_partial_stacks : Node → StackGraph → Stacks → Result Stacks
unfolding pop_scoped pop_unscoped SymbolStack.pop_front SymbolStack.push_front ScopeStack.push_front
append_to_partial_stacks (drop_scopes id) g s =
    ok (record s { scope_stack_postcondition = ScopeStack.empty })
append_to_partial_stacks (jump_to id) g s = ok s
append_to_partial_stacks (pop_scoped_symbol id symbol d) g s =
    pop_scoped symbol s (SymbolStack.pop_front s.symbol_stack_postcondition)
append_to_partial_stacks (pop_symbol id symbol d) g s =
    pop_unscoped symbol s (SymbolStack.pop_front s.symbol_stack_postcondition)
append_to_partial_stacks (push_scoped_symbol id symbol attached r) g s =
    ok_or unknown_attached_scope (StackGraph.node_for_id g attached) >>= λ sink_scope.
    ok (record s {
      symbol_stack_postcondition = SymbolStack.push_front s.symbol_stack_postcondition (record {
        symbol = symbol;
        scopes = some (ScopeStack.push_front s.scope_stack_postcondition sink_scope);
      });
    })
append_to_partial_stacks (push_symbol id symbol r) g s = ok (record s {
  symbol_stack_postcondition =
      SymbolStack.push_front s.symbol_stack_postcondition
        (record { symbol = symbol; scopes = none });
})
append_to_partial_stacks (root id) g s = ok s
append_to_partial_stacks (scope id e) g s = ok s

-- The symbol at the top has to be the node's.
popped_is :
    Handle
    → Option PartialScopedSymbol × PartialSymbolStack
    → Result (PartialScopedSymbol × PartialSymbolStack)
popped_is symbol (none, post) = err empty_symbol_stack
popped_is symbol (some top, post) =
    if top.symbol == symbol then ok (top, post) else err incorrect_popped_symbol

-- The stacks before the effect of the start node of the right path, and of the left path's end node.
unfoldable pub halfopen_closed_partial_precondition :
    Node → PartialSymbolStack → PartialScopeStack → Result (PartialSymbolStack × PartialScopeStack)
unfolding popped_is SymbolStack.pop_front
halfopen_closed_partial_precondition (pop_scoped_symbol id symbol d) symbols scopes =
    popped_is symbol (SymbolStack.pop_front symbols) >>= λ (top, post).
    unwrap top.scopes >>= λ attached. ok (post, attached)
halfopen_closed_partial_precondition (pop_symbol id symbol d) symbols scopes =
    popped_is symbol (SymbolStack.pop_front symbols) >>= λ (top, post). ok (post, scopes)
halfopen_closed_partial_precondition _ symbols scopes = ok (symbols, scopes)

unfoldable pub halfopen_closed_partial_postcondition :
    Node → PartialSymbolStack → PartialScopeStack → Result (PartialSymbolStack × PartialScopeStack)
unfolding popped_is SymbolStack.pop_front
halfopen_closed_partial_postcondition (push_scoped_symbol id symbol attached r) symbols scopes =
    popped_is symbol (SymbolStack.pop_front symbols) >>= λ (top, post). ok (post, scopes)
halfopen_closed_partial_postcondition (push_symbol id symbol r) symbols scopes =
    popped_is symbol (SymbolStack.pop_front symbols) >>= λ (top, post). ok (post, scopes)
halfopen_closed_partial_postcondition _ symbols scopes = ok (symbols, scopes)
