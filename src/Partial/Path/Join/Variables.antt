-- ===== src/Partial/Path/Join/Variables.antt =====
-- `ensure_no_overlapping_variables` (stack-graphs/src/partial.rs): the variables of the renamed path and those
-- of the other path.
use stack_graphs_muffet.Prelude.{
  ℕ, ◌+◌, ◌<◌, ◌≤◌, ◌≡◌, List, [], ◌∷◌, Option, some, arith, u32_mod, Option-cases, inl, inr,
}
use stack_graphs_muffet.Partial.ScopeStack
use stack_graphs_muffet.Partial.ScopeStack.{PartialScopeStack}
use stack_graphs_muffet.Partial.ScopedSymbol.{PartialScopedSymbol}
use stack_graphs_muffet.Partial.SymbolStack
use stack_graphs_muffet.Partial.SymbolStack.{PartialSymbolStack, largest_attached}
use stack_graphs_muffet.Partial.Stacks
use stack_graphs_muffet.Partial.Path.{PartialPath}
use stack_graphs_muffet.Partial.Path.Join.{
  ensure_no_overlapping_variables, largest_symbol_stack_variable, largest_scope_stack_variable,
}
use stack_graphs_muffet.Partial.Path.Join.Apart.{
  Fits, Above, Attached, Renamable, IsAbove, ensure_no_overlapping_variables-IsAbove,
}

-- The variables of symbol stacks and those of scope stacks.
pub data Kind : Type 0 where
  of_symbols : Kind
  of_scopes : Kind

-- A variable of a scope stack that is attached to one of the symbols.
pub data AttachedIn : List PartialScopedSymbol → ℕ → Type 0 where
  attached_first :
      {x : PartialScopedSymbol} {xs : List PartialScopedSymbol} {v : ℕ}
      → (s : PartialScopeStack) → x.scopes ≡ some s
      → s.variable ≡ some v
      → AttachedIn (x ∷ xs) v
  attached_later :
      {x : PartialScopedSymbol} {xs : List PartialScopedSymbol} {v : ℕ}
      → AttachedIn xs v
      → AttachedIn (x ∷ xs) v

pub data InSymbolStack (s : PartialSymbolStack) : Kind → ℕ → Type 0 where
  at_end : {v : ℕ} → s.variable ≡ some v → InSymbolStack s of_symbols v
  attached : {v : ℕ} → AttachedIn s.symbols v → InSymbolStack s of_scopes v

-- The variables of the preconditions of a path.
pub data InPreconditions (p : PartialPath) : Kind → ℕ → Type 0 where
  in_symbols :
      {kind : Kind} {v : ℕ}
      → InSymbolStack p.symbol_stack_precondition kind v
      → InPreconditions p kind v
  in_scopes : {v : ℕ} → p.scope_stack_precondition.variable ≡ some v → InPreconditions p of_scopes v

-- All variables of a path.
pub data InPath (p : PartialPath) : Kind → ℕ → Type 0 where
  before_path : {kind : Kind} {v : ℕ} → InPreconditions p kind v → InPath p kind v
  after_symbols :
      {kind : Kind} {v : ℕ} → InSymbolStack p.symbol_stack_postcondition kind v → InPath p kind v
  after_scopes : {v : ℕ} → p.scope_stack_postcondition.variable ≡ some v → InPath p of_scopes v

AttachedIn-largest :
    (xs : List PartialScopedSymbol) (v : ℕ) → AttachedIn xs v → v ≤ largest_attached xs
unfolding largest_attached
AttachedIn-largest _ v (attached_first {x} {xs} s e f) = ground (arith, e, f)
AttachedIn-largest _ v (attached_later {x} {xs} a) =
    let later = AttachedIn-largest xs v a in ground (arith, later)

largest_attached_le :
    (xs : List PartialScopedSymbol) (k : ℕ)
    → ((v : ℕ) → AttachedIn xs v → v ≤ k)
    → largest_attached xs ≤ k
unfolding largest_attached
largest_attached_le [] k bound = omega arith
largest_attached_le (x ∷ xs) k bound =
    let later = largest_attached_le xs k (λ v a. bound v (attached_later a)) in
    elim (Option-cases x.scopes) [
      | inl bare ↦ ground (arith, bare, later)
      | inr (s, e) ↦ elim (Option-cases s.variable) [
        | inl closed ↦ ground (arith, e, closed, later)
        | inr (v, f) ↦ let top = bound v (attached_first s e f) in ground (arith, e, f, later, top)
      ]
    ]

-- The numbers that the code adds to the variables of each kind.
abbrev offset : PartialPath → Kind → ℕ
offset other of_symbols = largest_symbol_stack_variable other
offset other of_scopes = largest_scope_stack_variable other

InPreconditions-offset :
    (other : PartialPath) (kind : Kind) (v : ℕ)
    → InPreconditions other kind v
    → v ≤ offset other kind
unfolding largest_symbol_stack_variable largest_scope_stack_variable
    SymbolStack.largest_symbol_stack_variable Stacks.largest_scope_stack_variable
    SymbolStack.largest_scope_stack_variable ScopeStack.largest_scope_stack_variable
InPreconditions-offset other _ v (in_symbols (at_end e)) = ground (arith, e)
InPreconditions-offset other _ v (in_symbols (attached a)) =
    let most = AttachedIn-largest other.symbol_stack_precondition.symbols v a in
    ground (arith, most)
InPreconditions-offset other _ v (in_scopes e) = ground (arith, e)

offset_le :
    (other : PartialPath) (limit : Kind → ℕ)
    → ((kind : Kind) (v : ℕ) → InPreconditions other kind v → v ≤ limit kind)
    → (kind : Kind) → offset other kind ≤ limit kind
unfolding largest_symbol_stack_variable largest_scope_stack_variable
    SymbolStack.largest_symbol_stack_variable Stacks.largest_scope_stack_variable
    SymbolStack.largest_scope_stack_variable ScopeStack.largest_scope_stack_variable
offset_le other limit bound of_symbols =
    elim (Option-cases other.symbol_stack_precondition.variable) [
      | inl closed ↦ ground (arith, closed)
      | inr (v, e) ↦
          let most = bound of_symbols v (in_symbols (at_end e)) in ground (arith, e, most)
    ]
offset_le other limit bound of_scopes =
    let xs =
      largest_attached_le other.symbol_stack_precondition.symbols (limit of_scopes)
        (λ v a. bound of_scopes v (in_symbols (attached a))) in
    elim (Option-cases other.scope_stack_precondition.variable) [
      | inl closed ↦ ground (arith, closed, xs)
      | inr (v, e) ↦ let most = bound of_scopes v (in_scopes e) in ground (arith, e, most, xs)
    ]

Attached-Fits :
    (xs : List PartialScopedSymbol) (j k : ℕ)
    → j ≤ k
    → ((v : ℕ) → AttachedIn xs v → (0 < v) × (v + k < u32_mod))
    → Attached (Fits j) xs
Attached-Fits [] j k le fits = tt
Attached-Fits (x ∷ xs) j k le fits = (
  λ s e v f.
      let (positive, room) = fits v (attached_first s e f) in (positive, omega (arith, room, le)),
  Attached-Fits xs j k le (λ v a. fits v (attached_later a)),
)

AttachedIn-Above :
    (xs : List PartialScopedSymbol) (k v : ℕ) → AttachedIn xs v → Attached (Above k) xs → k < v
AttachedIn-Above _ k v (attached_first {x} {xs} s e f) above = above.0 s e v f
AttachedIn-Above _ k v (attached_later {x} {xs} a) above = AttachedIn-Above xs k v a above.1

-- The variables of a path that leave room for an offset of each kind on u32.
abbrev pub Roomy : (Kind → ℕ) → PartialPath → Type 0
Roomy limit p = (kind : Kind) (v : ℕ) → InPath p kind v → (0 < v) × (v + limit kind < u32_mod)

Fits-Roomy :
    (p : PartialPath) (limit : Kind → ℕ) (j : ℕ) (kind : Kind) (o : Option ℕ)
    → j ≤ limit kind
    → Roomy limit p
    → ((v : ℕ) → o ≡ some v → InPath p kind v)
    → Fits j o
Fits-Roomy p limit j kind o le roomy within v e =
    let (positive, room) = roomy kind v (within v e) in (positive, omega (arith, room, le))

Roomy-Renamable :
    (p other : PartialPath) (limit : Kind → ℕ)
    → ((kind : Kind) → offset other kind ≤ limit kind)
    → Roomy limit p
    → Renamable (largest_symbol_stack_variable other) (largest_scope_stack_variable other) p
Roomy-Renamable p other limit le roomy =
    let j = largest_symbol_stack_variable other in
    let k = largest_scope_stack_variable other in
    record {
      symbol_pre =
          Fits-Roomy p limit j of_symbols p.symbol_stack_precondition.variable (le of_symbols) roomy
            (λ v e. before_path (in_symbols (at_end e)));
      symbol_post =
          Fits-Roomy p limit j of_symbols p.symbol_stack_postcondition.variable (le of_symbols)
            roomy (λ v e. after_symbols (at_end e));
      scope_pre =
          Fits-Roomy p limit k of_scopes p.scope_stack_precondition.variable (le of_scopes) roomy
            (λ v e. before_path (in_scopes e));
      scope_post =
          Fits-Roomy p limit k of_scopes p.scope_stack_postcondition.variable (le of_scopes) roomy
            (λ v e. after_scopes e);
      attached_pre =
          Attached-Fits p.symbol_stack_precondition.symbols k (limit of_scopes) (le of_scopes)
            (λ v a. roomy of_scopes v (before_path (in_symbols (attached a))));
      attached_post =
          Attached-Fits p.symbol_stack_postcondition.symbols k (limit of_scopes) (le of_scopes)
            (λ v a. roomy of_scopes v (after_symbols (attached a)));
    }

IsAbove-offset :
    (p other : PartialPath) (kind : Kind) (w : ℕ)
    → IsAbove (largest_symbol_stack_variable other) (largest_scope_stack_variable other) p
    → InPath p kind w
    → offset other kind < w
IsAbove-offset p other _ w above (before_path (in_symbols (at_end e))) = above.symbol_pre w e
IsAbove-offset p other _ w above (before_path (in_symbols (attached a))) =
    AttachedIn-Above p.symbol_stack_precondition.symbols (largest_scope_stack_variable other) w a
      above.attached_pre
IsAbove-offset p other _ w above (before_path (in_scopes e)) = above.scope_pre w e
IsAbove-offset p other _ w above (after_symbols (at_end e)) = above.symbol_post w e
IsAbove-offset p other _ w above (after_symbols (attached a)) =
    AttachedIn-Above p.symbol_stack_postcondition.symbols (largest_scope_stack_variable other) w a
      above.attached_post
IsAbove-offset p other _ w above (after_scopes e) = above.scope_post w e

-- After `ensure_no_overlapping_variables` every variable of the path is larger than every variable of its
-- kind in the other path's preconditions; variables of attached scope stacks count on both sides.
-- There are limits that the variables of the other path's preconditions do not exceed, and the path's own
-- variables, which start from 1, leave room for these limits on u32.
pub ensure_no_overlapping_variables_lt :
    (p other : PartialPath) (limit : Kind → ℕ)
    → ((kind : Kind) (v : ℕ) → InPreconditions other kind v → v ≤ limit kind)
    → Roomy limit p
    → (kind : Kind) (v w : ℕ) → InPreconditions other kind v
    → InPath (ensure_no_overlapping_variables p other) kind w
    → v < w
ensure_no_overlapping_variables_lt p other limit bound roomy kind v w theirs ours =
    let room = Roomy-Renamable p other limit (offset_le other limit bound) roomy in
    let above =
      IsAbove-offset (ensure_no_overlapping_variables p other) other kind w
        (ensure_no_overlapping_variables-IsAbove p other room) ours in
    omega (arith, InPreconditions-offset other kind v theirs, above)
