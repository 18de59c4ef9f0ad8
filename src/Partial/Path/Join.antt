-- ===== src/Partial/Path/Join.antt =====
-- stack-graphs/src/partial.rs, `PartialPath`: renaming variables apart, concatenation and cycles. The
-- fuel is that of the two `unify` functions.
pub mod Apart
pub mod Variables
use stack_graphs_muffet.Prelude.{
  ℕ, Bool, true, false, ◌&&◌, ◌||◌, ◌==◌, not, if◌then◌else◌, List, [], ◌∷◌, Option, none, some,
  is_some,
}
use stack_graphs_muffet.Paths.{
  Result, ok, err, panic, out_of_fuel, ◌>>=◌, unwrap, expect, incorrect_source_node,
  scope_stack_unsatisfied,
}
use stack_graphs_muffet.Arena.{Handle}
use stack_graphs_muffet.Graph.Node
use stack_graphs_muffet.Graph.StackGraph
use stack_graphs_muffet.Graph.StackGraph.{StackGraph}
use stack_graphs_muffet.Partial.ScopeStack
use stack_graphs_muffet.Partial.ScopeStack.{PartialScopeStack}
use stack_graphs_muffet.Partial.ScopeBindings
use stack_graphs_muffet.Partial.ScopeBindings.{ScopeBindings}
use stack_graphs_muffet.Partial.SymbolStack
use stack_graphs_muffet.Partial.SymbolStack.{PartialSymbolStack}
use stack_graphs_muffet.Partial.SymbolBindings
use stack_graphs_muffet.Partial.SymbolBindings.{Bindings}
use stack_graphs_muffet.Partial.EdgeList
use stack_graphs_muffet.Partial.Stacks
use stack_graphs_muffet.Partial.Stacks.{
  Stacks, halfopen_closed_partial_precondition, halfopen_closed_partial_postcondition,
}
use stack_graphs_muffet.Partial.Path.{PartialPath, from_node, resolve_from_postcondition}

unfoldable pub largest_symbol_stack_variable : PartialPath → ℕ
unfolding SymbolStack.largest_symbol_stack_variable
largest_symbol_stack_variable p =
    SymbolStack.largest_symbol_stack_variable p.symbol_stack_precondition

unfoldable pub largest_scope_stack_variable : PartialPath → ℕ
unfolding Stacks.largest_scope_stack_variable
largest_scope_stack_variable p =
    Stacks.largest_scope_stack_variable p.symbol_stack_precondition p.scope_stack_precondition

unfoldable pub ensure_no_overlapping_variables : PartialPath → PartialPath → PartialPath
unfolding largest_symbol_stack_variable largest_scope_stack_variable SymbolStack.with_offset
    ScopeStack.with_offset
ensure_no_overlapping_variables p other =
    let symbol_offset = largest_symbol_stack_variable other in
    let scope_offset = largest_scope_stack_variable other in
    record p {
      stacks = record {
        symbol_stack_precondition =
            SymbolStack.with_offset p.symbol_stack_precondition symbol_offset scope_offset;
        scope_stack_precondition = ScopeStack.with_offset p.scope_stack_precondition scope_offset;
        symbol_stack_postcondition =
            SymbolStack.with_offset p.symbol_stack_postcondition symbol_offset scope_offset;
        scope_stack_postcondition = ScopeStack.with_offset p.scope_stack_postcondition scope_offset;
      };
    }

abbrev pub no_bindings : Bindings
no_bindings = record { symbols = []; scopes = [] }

-- The four stacks with the bindings applied.
unfoldable pub apply_bindings : Stacks → Bindings → Stacks
unfolding SymbolBindings.apply_partial_bindings ScopeBindings.apply_partial_bindings
apply_bindings s b = record {
  symbol_stack_precondition = SymbolBindings.apply_partial_bindings s.symbol_stack_precondition b;
  scope_stack_precondition =
      ScopeBindings.apply_partial_bindings s.scope_stack_precondition b.scopes;
  symbol_stack_postcondition = SymbolBindings.apply_partial_bindings s.symbol_stack_postcondition b;
  scope_stack_postcondition =
      ScopeBindings.apply_partial_bindings s.scope_stack_postcondition b.scopes;
}

bind_symbol : ℕ → Option ℕ → Bindings → Result Bindings
unfolding SymbolBindings.add
bind_symbol fuel none b = ok b
bind_symbol fuel (some v) b = expect (SymbolBindings.add fuel b v SymbolStack.empty)

bind_scope : ℕ → Option ℕ → Bindings → Result Bindings
unfolding ScopeBindings.add
bind_scope fuel none b = ok b
bind_scope fuel (some v) b = expect (ScopeBindings.add fuel b.scopes v ScopeStack.empty) >>= λ s.
    ok (record b { scopes = s })

unfoldable pub eliminate_precondition_stack_variables : ℕ → PartialPath → Result PartialPath
unfolding bind_symbol bind_scope apply_bindings
eliminate_precondition_stack_variables fuel p =
    bind_symbol fuel p.symbol_stack_precondition.variable no_bindings >>= λ b.
    bind_scope fuel p.scope_stack_precondition.variable b >>= λ b'.
    ok (record p { stacks = apply_bindings p.stacks b' })

-- `resolve_to_node`, once the path is seen to end at the jump-to node. (It applies the bindings to
-- the preconditions only.)
unfoldable pub resolve_variable_to : ℕ → PartialPath → Handle → Option ℕ → Result PartialPath
unfolding SymbolBindings.apply_partial_bindings ScopeBindings.apply_partial_bindings
    ScopeBindings.add ScopeStack.push_front
resolve_variable_to fuel p node none = err scope_stack_unsatisfied
resolve_variable_to fuel p node (some v) =
    expect (ScopeBindings.add fuel [] v (ScopeStack.push_front (ScopeStack.from_variable v) node))
    >>= λ scopes.
        let b : Bindings = record { symbols = []; scopes = scopes } in
        ok (record p {
          end_node = node;
          stacks = record p.stacks {
            symbol_stack_precondition =
                SymbolBindings.apply_partial_bindings p.symbol_stack_precondition b;
            scope_stack_precondition =
                ScopeBindings.apply_partial_bindings p.scope_stack_precondition scopes;
          };
        })

unfoldable pub resolve_to_node : ℕ → PartialPath → StackGraph → Handle → Result PartialPath
unfolding resolve_variable_to Node.is_jump_to StackGraph.index
resolve_to_node fuel p g node = unwrap (StackGraph.index g p.end_node) >>= λ n.
    if not (Node.is_jump_to n)
    then ok p
    else resolve_variable_to fuel p node p.scope_stack_postcondition.variable

-- `Join`; its other two fields are only displayed.
unfoldable pub compute_join : ℕ → StackGraph → PartialPath → PartialPath → Result Bindings
unfolding SymbolBindings.unify ScopeBindings.unify halfopen_closed_partial_precondition
    halfopen_closed_partial_postcondition StackGraph.index
compute_join fuel g lhs rhs =
    if lhs.end_node == rhs.start_node
    then (unwrap (StackGraph.index g lhs.end_node) >>= λ end.
        expect (
          halfopen_closed_partial_postcondition end lhs.symbol_stack_postcondition
            lhs.scope_stack_postcondition)
        >>= λ (lhs_symbols, lhs_scopes). unwrap (StackGraph.index g rhs.start_node) >>= λ start.
            expect (
              halfopen_closed_partial_precondition start rhs.symbol_stack_precondition
                rhs.scope_stack_precondition)
            >>= λ (rhs_symbols, rhs_scopes).
                SymbolBindings.unify fuel lhs_symbols rhs_symbols no_bindings >>= λ (_, b).
                ScopeBindings.unify fuel lhs_scopes rhs_scopes b.scopes >>= λ (_, scopes).
                ok (record b { scopes = scopes }))
    else err incorrect_source_node

-- The joined path, before the jump at its end is resolved.
unfoldable pub joined : PartialPath → PartialPath → Bindings → PartialPath
unfolding apply_bindings EdgeList.push_all
joined lhs rhs b = record {
  start_node = lhs.start_node;
  end_node = rhs.end_node;
  stacks =
      apply_bindings
        (record {
          symbol_stack_precondition = lhs.symbol_stack_precondition;
          scope_stack_precondition = lhs.scope_stack_precondition;
          symbol_stack_postcondition = rhs.symbol_stack_postcondition;
          scope_stack_postcondition = rhs.scope_stack_postcondition;
        })
        b;
  edges = EdgeList.push_all rhs.edges.edges lhs.edges;
}

unfoldable pub concatenate : ℕ → PartialPath → StackGraph → PartialPath → Result PartialPath
unfolding compute_join joined resolve_from_postcondition
concatenate fuel lhs g rhs =
    compute_join fuel g lhs rhs >>= λ b. resolve_from_postcondition (joined lhs rhs b) g

pub data Cyclicity : Type 0 where
  free strengthens_precondition strengthens_postcondition : Cyclicity

abbrev symbol_bound : Bindings → Option ℕ → Bool
symbol_bound b none = false
symbol_bound b (some v) = is_some (SymbolBindings.get b.symbols v)

abbrev scope_bound : Bindings → Option ℕ → Bool
scope_bound b none = false
scope_bound b (some v) = is_some (ScopeBindings.get b.scopes v)

unfoldable pub cyclicity : PartialPath → PartialPath → Bindings → Cyclicity
unfolding SymbolBindings.get ScopeBindings.get
cyclicity lhs rhs b =
    if symbol_bound b lhs.symbol_stack_precondition.variable
      || scope_bound b lhs.scope_stack_precondition.variable
    then strengthens_precondition
    else if symbol_bound b rhs.symbol_stack_postcondition.variable
        || scope_bound b rhs.scope_stack_postcondition.variable
    then strengthens_postcondition
    else free

cyclic_join : PartialPath → PartialPath → Result Bindings → Result (Option Cyclicity)
unfolding cyclicity
cyclic_join lhs rhs (ok b) = ok (some (cyclicity lhs rhs b))
cyclic_join lhs rhs (err e) = ok none
cyclic_join lhs rhs panic = panic
cyclic_join lhs rhs out_of_fuel = out_of_fuel

unfoldable pub is_cyclic : ℕ → PartialPath → StackGraph → Result (Option Cyclicity)
unfolding ensure_no_overlapping_variables compute_join cyclic_join
is_cyclic fuel p g =
    if not (p.start_node == p.end_node)
    then ok none
    else let rhs = ensure_no_overlapping_variables p p in
      cyclic_join p rhs (compute_join fuel g p rhs)
