-- ===== src/Partial/Path/Join/Apart.antt =====
-- `ensure_no_overlapping_variables` (stack-graphs/src/partial.rs): the variables of the renamed path.
use stack_graphs_muffet.Prelude.{
  ℕ, ◌+◌, ◌<◌, ◌≡◌, refl, ap, sym, ◌∙◌, subst, List, [], ◌∷◌, ◌++◌, map, Option, none, some, arith,
  u32_mod, append_assoc, append-nil, add_u32_lt,
}
use mathlib.Core.Option
use stack_graphs_muffet.Partial.ScopeStack
use stack_graphs_muffet.Partial.ScopeStack.{PartialScopeStack, variable_with_offset}
use stack_graphs_muffet.Partial.ScopedSymbol
use stack_graphs_muffet.Partial.ScopedSymbol.{PartialScopedSymbol}
use stack_graphs_muffet.Partial.SymbolStack
use stack_graphs_muffet.Partial.SymbolStack.{PartialSymbolStack, push_offset, offset_variable}
use stack_graphs_muffet.Partial.Path.{PartialPath}
use stack_graphs_muffet.Partial.Path.Join.{
  ensure_no_overlapping_variables, largest_symbol_stack_variable, largest_scope_stack_variable,
}

-- The variable, if there is one, is a number from 1 on to which `k` can be added.
abbrev pub Fits : ℕ → Option ℕ → Type 0
Fits k o = (v : ℕ) → o ≡ some v → (0 < v) × (v + k < u32_mod)

abbrev pub Above : ℕ → Option ℕ → Type 0
Above k o = (v : ℕ) → o ≡ some v → k < v

-- A predicate of the variables of the attached scope stacks.
abbrev pub Attached : (Option ℕ → Type 0) → List PartialScopedSymbol → Type 0
Attached P [] = Unit {0}
Attached P (x ∷ xs) = ((s : PartialScopeStack) → x.scopes ≡ some s → P s.variable) × Attached P xs

shifted : (k : ℕ) (o : Option ℕ) → Fits k o → Above k (Option.map (λ v. variable_with_offset v k) o)
unfolding variable_with_offset
shifted k none f v e = absurd (ground arith)
shifted k (some w) f v e =
    let (pos, small) = f w refl in omega (arith, add_u32_lt w k small, some_eq _ _ e)
  where
    some_eq : (a b : ℕ) → ◌≡◌ {A = Option ℕ} (some a) (some b) → a ≡ b
    some_eq a b p = cc

shifted_scopes :
    (k : ℕ) (s : PartialScopeStack)
    → Fits k s.variable
    → Above k (ScopeStack.with_offset s k).variable
unfolding ScopeStack.with_offset
shifted_scopes k s f = shifted k s.variable f

-- `push_offset` appends the renamed symbols.
push_offset_symbols :
    (xs : List PartialScopedSymbol) (k : ℕ) (r : PartialSymbolStack)
    → (push_offset xs k r).symbols ≡ r.symbols ++ map (λ x. ScopedSymbol.with_offset x k) xs
unfolding push_offset
push_offset_symbols [] k r = sym (append-nil r.symbols)
push_offset_symbols (x ∷ xs) k r =
    push_offset_symbols xs k (SymbolStack.push_back r (ScopedSymbol.with_offset x k))
    ∙ append_assoc r.symbols (ScopedSymbol.with_offset x k ∷ [])
        (map (λ x. ScopedSymbol.with_offset x k) xs)

push_offset_variable :
    (xs : List PartialScopedSymbol) (k : ℕ) (r : PartialSymbolStack)
    → (push_offset xs k r).variable ≡ r.variable
unfolding push_offset
push_offset_variable [] k r = refl
push_offset_variable (x ∷ xs) k r =
    push_offset_variable xs k (SymbolStack.push_back r (ScopedSymbol.with_offset x k))

Attached-shifted :
    (xs : List PartialScopedSymbol) (k : ℕ)
    → Attached (Fits k) xs
    → Attached (Above k) (map (λ x. ScopedSymbol.with_offset x k) xs)
unfolding ScopedSymbol.with_offset
Attached-shifted [] k f = tt
Attached-shifted (x ∷ xs) k f = (top x.scopes f.0, Attached-shifted xs k f.1)
  where
    top :
        (o : Option PartialScopeStack)
        → ((s : PartialScopeStack) → o ≡ some s → Fits k s.variable)
        → (s : PartialScopeStack) → Option.map (λ t. ScopeStack.with_offset t k) o ≡ some s
        → Above k s.variable
    top none fits s e = absurd (ground arith)
    top (some t) fits s e =
        let same : ScopeStack.with_offset t k ≡ s = ground arith in
        subst (λ (z : PartialScopeStack). Above k z.variable) same
          (shifted_scopes k t (fits t refl))

-- The stack that `with_offset` starts from has no symbols and the renamed variable.
start_stack :
    (o : Option ℕ) (j : ℕ)
    → ((offset_variable o j).symbols ≡ [])
      × ((offset_variable o j).variable ≡ Option.map (λ v. SymbolStack.variable_with_offset v j) o)
unfolding offset_variable
start_stack none j = (refl, refl)
start_stack (some v) j = (refl, refl)

same_shift :
    (o : Option ℕ) (j : ℕ)
    → Option.map (λ v. SymbolStack.variable_with_offset v j) o
      ≡ Option.map (λ v. variable_with_offset v j) o
unfolding SymbolStack.variable_with_offset variable_with_offset
same_shift o j = refl

shifted_symbols :
    (j k : ℕ) (s : PartialSymbolStack)
    → Fits j s.variable
    → Attached (Fits k) s.symbols
    → Above j (SymbolStack.with_offset s j k).variable
      × Attached (Above k) (SymbolStack.with_offset s j k).symbols
unfolding SymbolStack.with_offset
shifted_symbols j k s f fs =
    let (bare, variable) = start_stack s.variable j in
    (
      subst (λ (z : Option ℕ). Above j z)
          (sym (
            push_offset_variable s.symbols k (offset_variable s.variable j)
            ∙ variable
            ∙ same_shift s.variable j))
          (shifted j s.variable f),
      subst (λ (z : List PartialScopedSymbol). Attached (Above k) z)
          (sym (
            push_offset_symbols s.symbols k (offset_variable s.variable j)
            ∙ ap
                (λ (z : List PartialScopedSymbol).
                  z ++ map (λ x. ScopedSymbol.with_offset x k) s.symbols)
                bare))
          (Attached-shifted s.symbols k fs),
    )

-- The variables of a path leave room for the offsets.
pub record Renamable (j k : ℕ) (p : PartialPath) : Type 0 where
  pub symbol_pre : Fits j p.symbol_stack_precondition.variable
  pub symbol_post : Fits j p.symbol_stack_postcondition.variable
  pub scope_pre : Fits k p.scope_stack_precondition.variable
  pub scope_post : Fits k p.scope_stack_postcondition.variable
  pub attached_pre : Attached (Fits k) p.symbol_stack_precondition.symbols
  pub attached_post : Attached (Fits k) p.symbol_stack_postcondition.symbols

-- Every variable of the path is larger than `j` (a symbol variable) or `k` (a scope variable).
pub record IsAbove (j k : ℕ) (p : PartialPath) : Type 0 where
  pub symbol_pre : Above j p.symbol_stack_precondition.variable
  pub symbol_post : Above j p.symbol_stack_postcondition.variable
  pub scope_pre : Above k p.scope_stack_precondition.variable
  pub scope_post : Above k p.scope_stack_postcondition.variable
  pub attached_pre : Attached (Above k) p.symbol_stack_precondition.symbols
  pub attached_post : Attached (Above k) p.symbol_stack_postcondition.symbols

-- When the variables leave room for the offsets on u32, `ensure_no_overlapping_variables` makes every
-- variable of the path, those of attached scope stacks included, larger than the offset of its kind, that
-- `largest_symbol_stack_variable` or `largest_scope_stack_variable` computes.
pub ensure_no_overlapping_variables-IsAbove :
    (p other : PartialPath)
    → Renamable (largest_symbol_stack_variable other) (largest_scope_stack_variable other) p
    → IsAbove
        (largest_symbol_stack_variable other)
        (largest_scope_stack_variable other)
        (ensure_no_overlapping_variables p other)
unfolding ensure_no_overlapping_variables
ensure_no_overlapping_variables-IsAbove p other r =
    let j = largest_symbol_stack_variable other in
    let k = largest_scope_stack_variable other in
    let pre = shifted_symbols j k p.symbol_stack_precondition r.symbol_pre r.attached_pre in
    let post = shifted_symbols j k p.symbol_stack_postcondition r.symbol_post r.attached_post in
    record {
      symbol_pre = pre.0;
      symbol_post = post.0;
      scope_pre = shifted_scopes k p.scope_stack_precondition r.scope_pre;
      scope_post = shifted_scopes k p.scope_stack_postcondition r.scope_post;
      attached_pre = pre.1;
      attached_post = post.1;
    }
