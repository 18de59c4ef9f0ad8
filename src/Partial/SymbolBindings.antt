-- ===== src/Partial/SymbolBindings.antt =====
-- stack-graphs/src/partial.rs, `PartialSymbolStackBindings`, and the operations on symbol stacks that
-- use them. As for the scope stacks, `unify` and `add` call each other on fuel.
use stack_graphs_muffet.Prelude.{
  ℕ, zero, suc, ◌-◌, ◌&&◌, not, ltb, if◌then◌else◌, List, [], ◌∷◌, ◌++◌, Option, none, some,
  is_some, length, get_elem?, set, replicate, reverse, sub_u32,
}
use stack_graphs_muffet.Paths.{
  Result, ok, err, panic, out_of_fuel, ◌>>=◌, unwrap, symbol_stack_unsatisfied,
  scope_stack_unsatisfied,
}
use stack_graphs_muffet.Partial.ScopeBindings.{ScopeBindings, shared}
use stack_graphs_muffet.Partial.ScopedSymbol
use stack_graphs_muffet.Partial.ScopedSymbol.{PartialScopedSymbol}
use stack_graphs_muffet.Partial.SymbolStack.{
  SymbolStackVariable, PartialSymbolStack, empty, from_variable, push_front, prepend,
  contains_symbols,
}

abbrev pub SymbolBindings : Type 0
SymbolBindings = List (Option PartialSymbolStack)

-- The symbol bindings and the scope bindings, which `unify` changes together.
pub record Bindings : Type 0 where
  pub symbols : SymbolBindings
  pub scopes : ScopeBindings

unfoldable pub get : SymbolBindings → SymbolStackVariable → Option PartialSymbolStack
get b zero = none
get b (suc i) = elim (get_elem? b i) [ none ↦ none | some bound ↦ bound ]

unfoldable pub resized : SymbolBindings → ℕ → SymbolBindings
resized b n = if ltb (length b) n then b ++ replicate (n - length b) none else b

unfoldable pub bind : SymbolBindings → SymbolStackVariable → PartialSymbolStack → SymbolBindings
bind b zero s = b
bind b (suc i) s = set b i (some s)

abbrev pub Unifier : Type 0
Unifier =
    PartialSymbolStack → PartialSymbolStack → Bindings → Result (PartialSymbolStack × Bindings)

-- `add`, over the `unify` that it calls.
unfoldable pub add_with :
    Unifier → Bindings → SymbolStackVariable → PartialSymbolStack → Result Bindings
add_with unify b v s =
    let b' : Bindings = record b { symbols = resized b.symbols v } in
    elim (get b'.symbols v) [
      | none ↦ ok (record b' { symbols = bind b'.symbols v s })
      | some old ↦ unify s old b' >>= λ (t, b''). ok (record b'' { symbols = bind b''.symbols v t })
    ]

-- What is left of two lists with their length counters, the unified symbols in front of them, and
-- the scope bindings.
pub record Rest : Type 0 where
  pub head : List PartialScopedSymbol
  pub lhs : List PartialScopedSymbol
  pub lhs_length : ℕ
  pub rhs : List PartialScopedSymbol
  pub rhs_length : ℕ
  pub scopes : ScopeBindings

-- The `while` loop of `unify`.
unfoldable pub unify_common :
    ℕ
    → List PartialScopedSymbol
    → List PartialScopedSymbol
    → ℕ
    → List PartialScopedSymbol
    → ℕ
    → ScopeBindings
    → Result Rest
unfolding ScopedSymbol.unify
unify_common fuel head (x ∷ xs) n (y ∷ ys) m b = ScopedSymbol.unify fuel x y b >>= λ (z, b').
    unify_common fuel (head ++ z ∷ []) xs (sub_u32 n 1) ys (sub_u32 m 1) b'
unify_common fuel head [] n ys m b =
    ok (record { head = head; lhs = []; lhs_length = n; rhs = ys; rhs_length = m; scopes = b })
unify_common fuel head (x ∷ xs) n [] m b =
    ok (record { head = head; lhs = x ∷ xs; lhs_length = n; rhs = []; rhs_length = m; scopes = b })

abbrev pub Adder : Type 0
Adder = Bindings → SymbolStackVariable → PartialSymbolStack → Result Bindings

abbrev pub binding :
    Adder
    → Bindings
    → SymbolStackVariable
    → PartialSymbolStack
    → PartialSymbolStack
    → Result (PartialSymbolStack × Bindings)
binding add b v s result = add b v s >>= λ b'. ok (result, b')

-- `unify`, where both lists of symbols ran out: the cases on the two variables.
unfoldable pub unify_empty :
    Adder
    → Bindings
    → List PartialScopedSymbol
    → PartialSymbolStack
    → PartialSymbolStack
    → Option ℕ
    → Option ℕ
    → Result (PartialSymbolStack × Bindings)
unify_empty add b head lhs rhs none none = ok (prepend lhs head, b)
unify_empty add b head lhs rhs none (some v) = binding add b v empty (prepend rhs head)
unify_empty add b head lhs rhs (some v) none = binding add b v empty (prepend lhs head)
unify_empty add b head lhs rhs (some v) (some w) =
    binding add b w (from_variable v) (prepend lhs head)

-- `unify`, where `lhs` or `rhs` has symbols left. (Two equal variables raise the scope stack's error.)
unfoldable pub unify_rest :
    Adder
    → Bindings
    → List PartialScopedSymbol
    → PartialSymbolStack
    → PartialSymbolStack
    → Result (PartialSymbolStack × Bindings)
unfolding contains_symbols prepend
unify_rest add b head lhs rhs =
    if not (contains_symbols lhs) && not (is_some lhs.variable)
    then err symbol_stack_unsatisfied
    else if not (contains_symbols rhs) && not (is_some rhs.variable)
    then err symbol_stack_unsatisfied
    else if shared lhs.variable rhs.variable
    then err scope_stack_unsatisfied
    else if contains_symbols lhs
    then (unwrap rhs.variable >>= λ v. binding add b v lhs (prepend lhs head))
    else if contains_symbols rhs
    then (unwrap lhs.variable >>= λ v. binding add b v rhs (prepend rhs head))
    else panic

-- The fuel is that of the scope stacks' `unify`.
unfoldable pub unify_with : ℕ → Adder → Unifier
unfolding unify_common unify_empty unify_rest contains_symbols prepend
unify_with fuel add l r b =
    unify_common fuel [] l.symbols l.length r.symbols r.length b.scopes >>= λ rest.
    let lhs : PartialSymbolStack = record l { symbols = rest.lhs; length = rest.lhs_length } in
    let rhs : PartialSymbolStack = record r { symbols = rest.rhs; length = rest.rhs_length } in
    let b' : Bindings = record b { scopes = rest.scopes } in
    if not (contains_symbols lhs) && not (contains_symbols rhs)
    then unify_empty add b' rest.head lhs rhs lhs.variable rhs.variable
    else unify_rest add b' rest.head lhs rhs

unfoldable pub unify : ℕ → Unifier
unfolding unify_with add_with get resized bind
unify zero l r b = out_of_fuel
unify (suc fuel) l r b = unify_with fuel (add_with (unify fuel)) l r b

unfoldable pub add : ℕ → Adder
unfolding unify add_with
add fuel = add_with (unify fuel)

unfoldable pub bound_or_variable : SymbolBindings → Option ℕ → PartialSymbolStack
unfolding get
bound_or_variable b none = empty
bound_or_variable b (some v) = elim (get b v) [ none ↦ from_variable v | some bound ↦ bound ]

-- The loop of `apply_partial_bindings`: the symbols, popped from the back, go in front.
unfoldable pub push_applied :
    List PartialScopedSymbol → ScopeBindings → PartialSymbolStack → PartialSymbolStack
unfolding push_front ScopedSymbol.apply_partial_bindings
push_applied [] b s = s
push_applied (x ∷ xs) b s =
    push_applied xs b (push_front s (ScopedSymbol.apply_partial_bindings x b))

unfoldable pub apply_partial_bindings : PartialSymbolStack → Bindings → PartialSymbolStack
unfolding bound_or_variable push_applied
apply_partial_bindings s b =
    push_applied (reverse s.symbols) b.scopes (bound_or_variable b.symbols s.variable)
