-- ===== src/Cycles.antt =====
-- stack-graphs/src/cycles.rs, `SimilarPathDetector`: of the paths with one key, those that no other one
-- beats. `cmp` is the caller's comparison of two paths.
pub mod Laws
pub mod Appending
use stack_graphs_muffet.Prelude.{
  ℕ, zero, suc, ◌+◌, Bool, true, false, ◌&&◌, ◌==◌, if◌then◌else◌, List, [], ◌∷◌, ◌++◌, Option,
  none, some, Ordering,
}
use mathlib.Core.Option
use stack_graphs_muffet.Arena.{Handle}
use stack_graphs_muffet.Partial.Path.{PartialPath}

pub record PathKey : Type 0 where
  pub start_node : Handle
  pub end_node : Handle
  pub symbol_stack_precondition_len : ℕ
  pub scope_stack_precondition_len : ℕ
  pub symbol_stack_postcondition_len : ℕ
  pub scope_stack_postcondition_len : ℕ

unfoldable pub key : PartialPath → PathKey
key p = record {
  start_node = p.start_node;
  end_node = p.end_node;
  symbol_stack_precondition_len = p.symbol_stack_precondition.length;
  scope_stack_precondition_len = p.scope_stack_precondition.length;
  symbol_stack_postcondition_len = p.symbol_stack_postcondition.length;
  scope_stack_postcondition_len = p.scope_stack_postcondition.length;
}

-- The derived equality.
unfoldable pub key_equals : PathKey → PathKey → Bool
key_equals a b =
    (a.start_node == b.start_node)
    && (a.end_node == b.end_node)
    && (a.symbol_stack_precondition_len == b.symbol_stack_precondition_len)
    && (a.scope_stack_precondition_len == b.scope_stack_precondition_len)
    && (a.symbol_stack_postcondition_len == b.symbol_stack_postcondition_len)
    && (a.scope_stack_postcondition_len == b.scope_stack_postcondition_len)

-- The paths of one key, and their counts if statistics are collected.
pub record Bucket (P : Type 0) : Type 0 where
  pub paths : List P
  pub counts : Option (List ℕ)

-- `counts[idx]`, and the counts behind it; `none` is a panic.
unfoldable pub take_count : Option (List ℕ) → Option (ℕ × Option (List ℕ))
take_count none = some (0, none)
take_count (some []) = none
take_count (some (c ∷ cs)) = some (c, some cs)

-- The bucket with the path in front that the loop passes by.
unfoldable pub pass : {P : Type 0} → P → Option (List ℕ) → Bool × Bucket P → Bool × Bucket P
pass q none (similar, b) = (similar, record b { paths = q ∷ b.paths })
pass q (some []) (similar, b) = (similar, record b { paths = q ∷ b.paths })
pass q (some (c ∷ cs)) (similar, b) =
    (similar, record { paths = q ∷ b.paths; counts = Option.map (◌∷◌ c) b.counts })

unfoldable pub counts_behind : Option (List ℕ) → Option (List ℕ)
counts_behind none = none
counts_behind (some []) = some []
counts_behind (some (c ∷ cs)) = some cs

-- The loop of `add_path` from `idx` on, and what follows it. Whether a similar path was found, and
-- the bucket from `idx` on.
unfoldable pub add_loop :
    {P : Type 0}
    → (P → P → Option Ordering)
    → P
    → List P
    → Option (List ℕ)
    → ℕ
    → Option (Bool × Bucket P)
unfolding take_count pass counts_behind
add_loop cmp path [] counts count =
    some (false, record { paths = path ∷ []; counts = Option.map (λ cs. cs ++ count ∷ []) counts })
add_loop cmp path (q ∷ qs) counts count = elim (cmp path q) [
  | some Ordering.lt ↦ elim (take_count counts) [
    | none ↦ none
    | some (c, cs) ↦ add_loop cmp path qs cs (count + c)
  ]
  | none ↦ Option.map (pass q counts) (add_loop cmp path qs (counts_behind counts) count)
  | some _ ↦
      Option.map
        (λ (c, cs). (true, record { paths = q ∷ qs; counts = Option.map (◌∷◌ (suc c)) cs }))
        (take_count counts)
]

-- `add_path` on the bucket of the path's key.
unfoldable pub add_to_bucket :
    {P : Type 0} → (P → P → Option Ordering) → P → Bucket P → Option (Bool × Bucket P)
unfolding add_loop
add_to_bucket cmp path b = add_loop cmp path b.paths b.counts 0
