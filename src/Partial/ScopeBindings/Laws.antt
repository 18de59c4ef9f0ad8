-- ===== src/Partial/ScopeBindings/Laws.antt =====
-- Bindings of scope stack variables (stack-graphs/src/partial.rs): what `add` does for a bound variable.
use stack_graphs_muffet.Prelude.{
  ℕ, zero, suc, ◌≤◌, ◌≡◌, refl, ap, ◌∙◌, false, List, ◌∷◌, Option, none, some, arith, length,
  get_elem?, lt-length_of_get_elem?,
}
use stack_graphs_muffet.Paths.{ok, out_of_fuel, ◌>>=◌}
use stack_graphs_muffet.Arena.{Handle}
use stack_graphs_muffet.Partial.ScopeStack.{PartialScopeStack, from_variable}
use stack_graphs_muffet.Partial.ScopeBindings.{
  ScopeBindings, Unifier, get, resized, bind, add_with, pop_common, unify_rest, unify_with, unify,
  add, shared,
}

-- A slot that is in range needs no resizing.
get-in_range : (b : ScopeBindings) (v : ℕ) (s : PartialScopeStack) → get b v ≡ some s → v ≤ length b
unfolding get
get-in_range b zero s e = cc
get-in_range b (suc i) s e = in_range (get_elem? b i) refl
  where
    in_range : (o : Option (Option PartialScopeStack)) → get_elem? b i ≡ o → suc i ≤ length b
    in_range none p = absurd (ground arith)
    in_range (some x) p = lt-length_of_get_elem? b i x p

resized_lem : (b : ScopeBindings) (v : ℕ) → v ≤ length b → resized b v ≡ b
unfolding resized
resized_lem b v h = ground arith

-- `add` for a variable that is bound unifies with what it is bound to.
pub add_with_bound :
    (u : Unifier) (b : ScopeBindings) (v : ℕ) (s old : PartialScopeStack)
    → get b v ≡ some old
    → add_with u b v s ≡ (u s old b >>= λ (t, b'). ok (bind b' v t))
unfolding add_with
add_with_bound u b v s old e =
    let whole : resized b v ≡ b = resized_lem b v (get-in_range b v old e) in
    let found : get (resized b v) v ≡ some old = ap (λ (z : ScopeBindings). get z v) whole ∙ e in
    ground arith

-- Unifying a stack that has scopes with a bare variable adds the stack for the variable.
pub unify_variable :
    (fuel : ℕ) (b : ScopeBindings) (v : ℕ) (x : Handle) (xs : List Handle) (n : ℕ) (w : Option ℕ)
    → shared w (some v) ≡ false
    → unify (suc fuel) (record { scopes = x ∷ xs; length = n; variable = w }) (from_variable v) b
      ≡ (add fuel b v (record { scopes = x ∷ xs; length = n; variable = w }) >>= λ b'.
          ok (record { scopes = x ∷ xs; length = n; variable = w }, b'))
unfolding unify unify_with pop_common unify_rest add
unify_variable fuel b v x xs n w other = ground arith

-- Where a variable is bound to itself, adding a stack for it that has at least one scope and does not end
-- in that same variable makes no progress: it calls itself with the same arguments, whatever the fuel.
pub add-diverges :
    (b : ScopeBindings) (v : ℕ) (x : Handle) (xs : List Handle) (n : ℕ) (w : Option ℕ)
    → get b v ≡ some (from_variable v)
    → shared w (some v) ≡ false
    → (fuel : ℕ) → add fuel b v (record { scopes = x ∷ xs; length = n; variable = w }) ≡ out_of_fuel
unfolding add unify
add-diverges b v x xs n w self other zero = add_with_bound (unify 0) b v _ _ self
add-diverges b v x xs n w self other (suc fuel) =
    add_with_bound (unify (suc fuel)) b v _ _ self
    ∙ rw (unify_variable fuel b v x xs n w other, add-diverges b v x xs n w self other fuel)
