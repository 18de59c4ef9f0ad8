-- ===== src/Partial/ScopedSymbol.antt =====
-- stack-graphs/src/partial.rs, `PartialScopedSymbol`: a symbol with an attached scope stack, or none.
use stack_graphs_muffet.Prelude.{
  ℕ, Bool, true, false, ◌==◌, ◌&&◌, if◌then◌else◌, Option, none, some, Ordering,
}
use mathlib.Core.Option
use stack_graphs_muffet.Paths.{Result, ok, err, ◌>>=◌, symbol_stack_unsatisfied}
use stack_graphs_muffet.Utils.{equals_option, cmp_option, then_with}
use stack_graphs_muffet.Arena.{Handle}
use stack_graphs_muffet.Partial.ScopeStack
use stack_graphs_muffet.Partial.ScopeStack.{PartialScopeStack}
use stack_graphs_muffet.Partial.ScopeBindings
use stack_graphs_muffet.Partial.ScopeBindings.{ScopeBindings}

pub record PartialScopedSymbol : Type 0 where
  pub symbol : Handle
  pub scopes : Option PartialScopeStack

unfoldable pub with_offset : PartialScopedSymbol → ℕ → PartialScopedSymbol
with_offset s offset = record s {
  scopes = Option.map (λ stack. ScopeStack.with_offset stack offset) s.scopes;
}

-- `unify` of the attached stacks, over the fuel of the scope stacks' `unify`.
unfoldable pub unify_scopes :
    ℕ
    → Option PartialScopeStack
    → Option PartialScopeStack
    → ScopeBindings
    → Result (Option PartialScopeStack × ScopeBindings)
unify_scopes fuel (some l) (some r) b =
    ScopeBindings.unify fuel l r b >>= λ (s, b'). ok (some s, b')
unify_scopes fuel none none b = ok (none, b)
unify_scopes fuel (some l) none b = err symbol_stack_unsatisfied
unify_scopes fuel none (some r) b = err symbol_stack_unsatisfied

unfoldable pub unify :
    ℕ
    → PartialScopedSymbol
    → PartialScopedSymbol
    → ScopeBindings
    → Result (PartialScopedSymbol × ScopeBindings)
unfolding unify_scopes
unify fuel l r b =
    if l.symbol == r.symbol
    then (unify_scopes fuel l.scopes r.scopes b >>= λ (s, b'). ok (record l { scopes = s }, b'))
    else err symbol_stack_unsatisfied

matches_scopes : Option PartialScopeStack → Option PartialScopeStack → Bool
matches_scopes (some pre) (some post) = ScopeStack.matches pre post
matches_scopes none none = true
matches_scopes (some pre) none = false
matches_scopes none (some post) = false

unfoldable pub matches : PartialScopedSymbol → PartialScopedSymbol → Bool
unfolding matches_scopes ScopeStack.matches
matches s postcondition =
    if s.symbol == postcondition.symbol then matches_scopes s.scopes postcondition.scopes else false

unfoldable pub apply_partial_bindings : PartialScopedSymbol → ScopeBindings → PartialScopedSymbol
apply_partial_bindings s b = record s {
  scopes = Option.map (λ stack. ScopeBindings.apply_partial_bindings stack b) s.scopes;
}

unfoldable pub equals : PartialScopedSymbol → PartialScopedSymbol → Bool
unfolding equals_option ScopeStack.equals
equals s other = s.symbol == other.symbol && equals_option ScopeStack.equals s.scopes other.scopes

-- `order` compares the symbols' strings, `graph[self.symbol].cmp(&graph[other.symbol])`.
unfoldable pub cmp :
    (Handle → Handle → Ordering) → PartialScopedSymbol → PartialScopedSymbol → Ordering
unfolding cmp_option ScopeStack.cmp then_with
cmp order s other =
    then_with (order s.symbol other.symbol) (cmp_option ScopeStack.cmp s.scopes other.scopes)
