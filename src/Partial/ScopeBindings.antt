-- ===== src/Partial/ScopeBindings.antt =====
-- stack-graphs/src/partial.rs, `PartialScopeStackBindings`, and the two operations on scope stacks
-- that use them. `unify` and `add` call each other, and nothing in the source bounds how deep: each
-- round takes one unit of fuel.
use stack_graphs_muffet.Prelude.{
  ℕ, zero, suc, ◌+◌, ◌-◌, Bool, true, false, ◌&&◌, not, ◌==◌, ltb, if◌then◌else◌, List, [], ◌∷◌,
  ◌++◌, Option, none, some, is_some, length, get_elem?, set, replicate, reverse, sub_u32,
}
use stack_graphs_muffet.Paths.{
  Result, ok, err, panic, out_of_fuel, ◌>>=◌, unwrap, scope_stack_unsatisfied,
}
use stack_graphs_muffet.Arena.{Handle}
use stack_graphs_muffet.Partial.ScopeStack.{
  ScopeStackVariable, PartialScopeStack, empty, from_variable, push_front, same_variable,
  contains_scopes,
}
pub mod Laws
pub mod Sound
pub mod Complete

abbrev pub ScopeBindings : Type 0
ScopeBindings = List (Option PartialScopeStack)

-- The slot of a variable; a slot beyond the end is `none`, and so is that of no variable.
unfoldable pub get : ScopeBindings → ScopeStackVariable → Option PartialScopeStack
get b zero = none
get b (suc i) = elim (get_elem? b i) [ none ↦ none | some bound ↦ bound ]

-- `resize_with(index, || None)`, if the vector is shorter.
unfoldable pub resized : ScopeBindings → ℕ → ScopeBindings
resized b n = if ltb (length b) n then b ++ replicate (n - length b) none else b

abbrev pub Unifier : Type 0
Unifier =
    PartialScopeStack
    → PartialScopeStack
    → ScopeBindings
    → Result (PartialScopeStack × ScopeBindings)

-- Writes a slot: `bindings[index - 1] = Some(scopes)`.
unfoldable pub bind : ScopeBindings → ScopeStackVariable → PartialScopeStack → ScopeBindings
bind b zero s = b
bind b (suc i) s = set b i (some s)

-- `add`, over the `unify` that it calls.
unfoldable pub add_with :
    Unifier → ScopeBindings → ScopeStackVariable → PartialScopeStack → Result ScopeBindings
add_with unify b v s = elim (get (resized b v) v) [
  | none ↦ ok (bind (resized b v) v s)
  | some old ↦ unify s old (resized b v) >>= λ (t, b'). ok (bind b' v t)
]

-- What is left of two lists with their length counters once the common elements are popped.
pub record Rest : Type 0 where
  pub lhs : List Handle
  pub lhs_length : ℕ
  pub rhs : List Handle
  pub rhs_length : ℕ

-- The `while` loop of `unify`.
unfoldable pub pop_common : List Handle → ℕ → List Handle → ℕ → Result Rest
pop_common (x ∷ xs) n (y ∷ ys) m =
    if x == y then pop_common xs (sub_u32 n 1) ys (sub_u32 m 1) else err scope_stack_unsatisfied
pop_common [] n ys m = ok (record { lhs = []; lhs_length = n; rhs = ys; rhs_length = m })
pop_common (x ∷ xs) n [] m = ok (record { lhs = x ∷ xs; lhs_length = n; rhs = []; rhs_length = m })

abbrev pub Adder : Type 0
Adder = ScopeBindings → ScopeStackVariable → PartialScopeStack → Result ScopeBindings

-- Binds the variable and returns the stack.
abbrev pub binding :
    Adder
    → ScopeBindings
    → ScopeStackVariable
    → PartialScopeStack
    → PartialScopeStack
    → Result (PartialScopeStack × ScopeBindings)
binding add b v s result = add b v s >>= λ b'. ok (result, b')

-- `unify`, where both lists of scopes ran out: the cases on the two variables.
unfoldable pub unify_empty :
    Adder
    → PartialScopeStack
    → PartialScopeStack
    → ScopeBindings
    → Option ℕ
    → Option ℕ
    → Result (PartialScopeStack × ScopeBindings)
unify_empty add l r b none none = ok (l, b)
unify_empty add l r b none (some v) = binding add b v empty r
unify_empty add l r b (some v) none = binding add b v empty l
unify_empty add l r b (some v) (some w) = binding add b w (from_variable v) l

abbrev pub shared : Option ℕ → Option ℕ → Bool
shared (some v) (some w) = v == w
shared _ _ = false

-- `unify`, where `lhs` or `rhs` has scopes left.
unfoldable pub unify_rest :
    Adder
    → PartialScopeStack
    → PartialScopeStack
    → ScopeBindings
    → PartialScopeStack
    → PartialScopeStack
    → Result (PartialScopeStack × ScopeBindings)
unfolding contains_scopes
unify_rest add l r b lhs rhs =
    if not (contains_scopes lhs) && not (is_some lhs.variable)
    then err scope_stack_unsatisfied
    else if not (contains_scopes rhs) && not (is_some rhs.variable)
    then err scope_stack_unsatisfied
    else if shared lhs.variable rhs.variable
    then err scope_stack_unsatisfied
    else if contains_scopes lhs
    then (unwrap rhs.variable >>= λ v. binding add b v lhs l)
    else if contains_scopes rhs
    then (unwrap lhs.variable >>= λ v. binding add b v rhs r)
    else panic

-- `self` and `original_rhs` are what `unify` returns, `lhs` and `rhs` what the loop leaves of them.
unfoldable pub unify_with : Adder → Unifier
unfolding pop_common unify_empty unify_rest contains_scopes
unify_with add l r b = pop_common l.scopes l.length r.scopes r.length >>= λ rest.
    let lhs : PartialScopeStack = record l { scopes = rest.lhs; length = rest.lhs_length } in
    let rhs : PartialScopeStack = record r { scopes = rest.rhs; length = rest.rhs_length } in
    if not (contains_scopes lhs) && not (contains_scopes rhs)
    then unify_empty add l r b lhs.variable rhs.variable
    else unify_rest add l r b lhs rhs

unfoldable pub unify : ℕ → Unifier
unfolding unify_with add_with get resized bind
unify zero l r b = out_of_fuel
unify (suc fuel) l r b = unify_with (add_with (unify fuel)) l r b

unfoldable pub add : ℕ → Adder
unfolding unify add_with
add fuel = add_with (unify fuel)

-- The bound stack, or the variable itself.
unfoldable pub bound_or_variable : ScopeBindings → Option ℕ → PartialScopeStack
unfolding get
bound_or_variable b none = empty
bound_or_variable b (some v) = elim (get b v) [ none ↦ from_variable v | some bound ↦ bound ]

-- The loop of `apply_partial_bindings`: the scopes, popped from the back, go in front.
unfoldable pub push_all : List Handle → PartialScopeStack → PartialScopeStack
unfolding push_front
push_all [] s = s
push_all (x ∷ xs) s = push_all xs (push_front s x)

unfoldable pub apply_partial_bindings : PartialScopeStack → ScopeBindings → PartialScopeStack
unfolding bound_or_variable push_all
apply_partial_bindings s b = push_all (reverse s.scopes) (bound_or_variable b s.variable)
