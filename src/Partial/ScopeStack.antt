-- ===== src/Partial/ScopeStack.antt =====
-- stack-graphs/src/partial.rs, `ScopeStackVariable` and `PartialScopeStack`.
use stack_graphs_muffet.Prelude.{
  ℕ, Bool, true, false, ◌&&◌, ◌==◌, not, if◌then◌else◌, List, [], ◌∷◌, ◌++◌, Option, none, some,
  is_some, add_u32, sub_u32, reverse, Ordering, compare,
}
use mathlib.Core.Option
use stack_graphs_muffet.Utils.{equals_option, cmp_option, then_with}
use stack_graphs_muffet.Arena.{Handle}
use stack_graphs_muffet.Arena.Reversible.Compare.{all_equal, lexicographic}

abbrev pub ScopeStackVariable : Type 0
ScopeStackVariable = ℕ

abbrev pub initial : ScopeStackVariable
initial = 1

unfoldable pub fresher_than : ℕ → ScopeStackVariable
fresher_than max_used = add_u32 max_used 1

unfoldable pub variable_with_offset : ScopeStackVariable → ℕ → ScopeStackVariable
variable_with_offset variable offset = add_u32 variable offset

-- `==` of two optional variables.
unfoldable pub same_variable : Option ℕ → Option ℕ → Bool
unfolding equals_option
same_variable = equals_option ◌==◌

pub record PartialScopeStack : Type 0 where
  pub scopes : List Handle
  pub length : ℕ
  pub variable : Option ScopeStackVariable

abbrev nonempty {ℓ} : {A : Type ℓ} → List A → Bool
nonempty [] = false
nonempty (x ∷ xs) = true

unfoldable pub contains_scopes : PartialScopeStack → Bool
contains_scopes s = nonempty s.scopes

unfoldable pub can_match_empty : PartialScopeStack → Bool
unfolding contains_scopes
can_match_empty s = not (contains_scopes s)

unfoldable pub can_only_match_empty : PartialScopeStack → Bool
unfolding contains_scopes
can_only_match_empty s = not (contains_scopes s) && not (is_some s.variable)

unfoldable pub has_variable : PartialScopeStack → Bool
has_variable s = is_some s.variable

abbrev pub empty : PartialScopeStack
empty = record { scopes = []; length = 0; variable = none }

abbrev pub from_variable : ScopeStackVariable → PartialScopeStack
from_variable v = record { scopes = []; length = 0; variable = some v }

unfoldable pub with_offset : PartialScopeStack → ℕ → PartialScopeStack
unfolding variable_with_offset
with_offset s offset = record s {
  variable = Option.map (λ v. variable_with_offset v offset) s.variable;
}

unfoldable pub push_front : PartialScopeStack → Handle → PartialScopeStack
push_front s node = record s { scopes = node ∷ s.scopes; length = add_u32 s.length 1 }

unfoldable pub push_back : PartialScopeStack → Handle → PartialScopeStack
push_back s node = record s { scopes = s.scopes ++ node ∷ []; length = add_u32 s.length 1 }

pop : List Handle → PartialScopeStack → Option Handle × PartialScopeStack
pop [] s = (none, s)
pop (x ∷ xs) s = (some x, record s { scopes = xs; length = sub_u32 s.length 1 })

unfoldable pub pop_front : PartialScopeStack → Option Handle × PartialScopeStack
unfolding pop
pop_front s = pop s.scopes s

-- `pop_back` pops from the reversed list.
unfoldable pub pop_back : PartialScopeStack → Option Handle × PartialScopeStack
unfolding pop
pop_back s =
    let (x, popped) = pop (reverse s.scopes) (record s { scopes = reverse s.scopes }) in
    (x, record popped { scopes = reverse popped.scopes })

-- The loops of `matches`: every element has an equal one, and none is left over.
unfoldable pub same_scopes : List Handle → List Handle → Bool
same_scopes [] [] = true
same_scopes [] (y ∷ ys) = false
same_scopes (x ∷ xs) [] = false
same_scopes (x ∷ xs) (y ∷ ys) = if x == y then same_scopes xs ys else false

unfoldable pub matches : PartialScopeStack → PartialScopeStack → Bool
unfolding same_scopes same_variable
matches s other =
    if same_scopes s.scopes other.scopes then same_variable s.variable other.variable else false

-- The deques compare as the lists that they hold (`Arena.Deque.Compare`).
unfoldable pub equals : PartialScopeStack → PartialScopeStack → Bool
unfolding all_equal same_variable
equals s other = all_equal ◌==◌ s.scopes other.scopes && same_variable s.variable other.variable

unfoldable pub cmp : PartialScopeStack → PartialScopeStack → Ordering
unfolding lexicographic cmp_option then_with
cmp s other =
    then_with (lexicographic compare s.scopes other.scopes)
      (cmp_option compare s.variable other.variable)

variable_or_zero : Option ℕ → ℕ
variable_or_zero none = 0
variable_or_zero (some v) = v

unfoldable pub largest_scope_stack_variable : PartialScopeStack → ℕ
unfolding variable_or_zero
largest_scope_stack_variable s = variable_or_zero s.variable
