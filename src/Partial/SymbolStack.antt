-- ===== src/Partial/SymbolStack.antt =====
-- stack-graphs/src/partial.rs, `SymbolStackVariable` and `PartialSymbolStack`.
use stack_graphs_muffet.Prelude.{
  ℕ, Bool, true, false, ◌&&◌, not, if◌then◌else◌, List, [], ◌∷◌, ◌++◌, Option, none, some, is_some,
  add_u32, sub_u32, reverse, Ordering, compare, max,
}
use stack_graphs_muffet.Utils.{cmp_option, then_with}
use stack_graphs_muffet.Arena.{Handle}
use stack_graphs_muffet.Partial.ScopeStack.{PartialScopeStack, same_variable}
use stack_graphs_muffet.Partial.ScopedSymbol
use stack_graphs_muffet.Partial.ScopedSymbol.{PartialScopedSymbol}

abbrev pub SymbolStackVariable : Type 0
SymbolStackVariable = ℕ

abbrev pub initial : SymbolStackVariable
initial = 1

unfoldable pub variable_with_offset : SymbolStackVariable → ℕ → SymbolStackVariable
variable_with_offset variable offset = add_u32 variable offset

pub record PartialSymbolStack : Type 0 where
  pub symbols : List PartialScopedSymbol
  pub length : ℕ
  pub variable : Option SymbolStackVariable

abbrev nonempty {ℓ} : {A : Type ℓ} → List A → Bool
nonempty [] = false
nonempty (x ∷ xs) = true

unfoldable pub contains_symbols : PartialSymbolStack → Bool
contains_symbols s = nonempty s.symbols

unfoldable pub can_match_empty : PartialSymbolStack → Bool
unfolding contains_symbols
can_match_empty s = not (contains_symbols s)

unfoldable pub can_only_match_empty : PartialSymbolStack → Bool
unfolding contains_symbols
can_only_match_empty s = not (contains_symbols s) && not (is_some s.variable)

unfoldable pub has_variable : PartialSymbolStack → Bool
has_variable s = is_some s.variable

abbrev pub empty : PartialSymbolStack
empty = record { symbols = []; length = 0; variable = none }

abbrev pub from_variable : SymbolStackVariable → PartialSymbolStack
from_variable v = record { symbols = []; length = 0; variable = some v }

unfoldable pub push_front : PartialSymbolStack → PartialScopedSymbol → PartialSymbolStack
push_front s symbol = record s { symbols = symbol ∷ s.symbols; length = add_u32 s.length 1 }

unfoldable pub push_back : PartialSymbolStack → PartialScopedSymbol → PartialSymbolStack
push_back s symbol = record s { symbols = s.symbols ++ symbol ∷ []; length = add_u32 s.length 1 }

pop :
    List PartialScopedSymbol → PartialSymbolStack → Option PartialScopedSymbol × PartialSymbolStack
pop [] s = (none, s)
pop (x ∷ xs) s = (some x, record s { symbols = xs; length = sub_u32 s.length 1 })

unfoldable pub pop_front : PartialSymbolStack → Option PartialScopedSymbol × PartialSymbolStack
unfolding pop
pop_front s = pop s.symbols s

-- `pop_back` pops from the reversed list.
unfoldable pub pop_back : PartialSymbolStack → Option PartialScopedSymbol × PartialSymbolStack
unfolding pop
pop_back s =
    let (x, popped) = pop (reverse s.symbols) (record s { symbols = reverse s.symbols }) in
    (x, record popped { symbols = reverse popped.symbols })

-- The loop of `with_offset`: the symbols, popped from the front, go to the back of the result.
unfoldable pub push_offset : List PartialScopedSymbol → ℕ → PartialSymbolStack → PartialSymbolStack
unfolding push_back ScopedSymbol.with_offset
push_offset [] offset result = result
push_offset (x ∷ xs) offset result =
    push_offset xs offset (push_back result (ScopedSymbol.with_offset x offset))

unfoldable pub offset_variable : Option ℕ → ℕ → PartialSymbolStack
unfolding variable_with_offset
offset_variable none offset = empty
offset_variable (some v) offset = from_variable (variable_with_offset v offset)

unfoldable pub with_offset : PartialSymbolStack → ℕ → ℕ → PartialSymbolStack
unfolding push_offset offset_variable
with_offset s symbol_variable_offset scope_variable_offset =
    push_offset s.symbols scope_variable_offset (offset_variable s.variable symbol_variable_offset)

-- `prepend`: the symbols of the deque, popped from the back, go to the front.
push_all : List PartialScopedSymbol → PartialSymbolStack → PartialSymbolStack
unfolding push_front
push_all [] s = s
push_all (x ∷ xs) s = push_all xs (push_front s x)

unfoldable pub prepend : PartialSymbolStack → List PartialScopedSymbol → PartialSymbolStack
unfolding push_all
prepend s head = push_all (reverse head) s

-- The loops of `matches`: every element matches one, and none is left over.
unfoldable pub same_symbols :
    (PartialScopedSymbol → PartialScopedSymbol → Bool)
    → List PartialScopedSymbol
    → List PartialScopedSymbol
    → Bool
same_symbols same [] [] = true
same_symbols same [] (y ∷ ys) = false
same_symbols same (x ∷ xs) [] = false
same_symbols same (x ∷ xs) (y ∷ ys) = if same x y then same_symbols same xs ys else false

unfoldable pub matches : PartialSymbolStack → PartialSymbolStack → Bool
unfolding same_symbols same_variable ScopedSymbol.matches
matches s other =
    if same_symbols ScopedSymbol.matches s.symbols other.symbols
    then same_variable s.variable other.variable
    else false

unfoldable pub equals : PartialSymbolStack → PartialSymbolStack → Bool
unfolding same_symbols same_variable ScopedSymbol.equals
equals s other =
    if same_symbols ScopedSymbol.equals s.symbols other.symbols
    then same_variable s.variable other.variable
    else false

-- The loop of `cmp`, with what it compares at the end of both lists.
unfoldable pub cmp_symbols :
    (Handle → Handle → Ordering)
    → List PartialScopedSymbol
    → List PartialScopedSymbol
    → Ordering
    → Ordering
unfolding ScopedSymbol.cmp then_with
cmp_symbols order [] [] end = end
cmp_symbols order [] (y ∷ ys) end = Ordering.lt
cmp_symbols order (x ∷ xs) [] end = Ordering.gt
cmp_symbols order (x ∷ xs) (y ∷ ys) end =
    then_with (ScopedSymbol.cmp order x y) (cmp_symbols order xs ys end)

unfoldable pub cmp :
    (Handle → Handle → Ordering) → PartialSymbolStack → PartialSymbolStack → Ordering
unfolding cmp_symbols cmp_option
cmp order s other =
    cmp_symbols order s.symbols other.symbols (cmp_option compare s.variable other.variable)

variable_or_zero : Option ℕ → ℕ
variable_or_zero none = 0
variable_or_zero (some v) = v

unfoldable pub largest_symbol_stack_variable : PartialSymbolStack → ℕ
unfolding variable_or_zero
largest_symbol_stack_variable s = variable_or_zero s.variable

-- The scope variable of an attached stack, 0 if there is none.
attached_variable : Option PartialScopeStack → ℕ
unfolding variable_or_zero
attached_variable none = 0
attached_variable (some stack) = variable_or_zero stack.variable

unfoldable pub largest_attached : List PartialScopedSymbol → ℕ
unfolding attached_variable
largest_attached [] = 0
largest_attached (x ∷ xs) = max (attached_variable x.scopes) (largest_attached xs)

-- The largest of them, in whatever order.
unfoldable pub largest_scope_stack_variable : PartialSymbolStack → ℕ
unfolding largest_attached
largest_scope_stack_variable s = largest_attached s.symbols
