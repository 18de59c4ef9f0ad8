-- ===== src/Utils.antt =====
-- stack-graphs/src/utils.rs: equality and order lifted to options; `then_with` and `reverse` are
-- the methods of Rust's `Ordering` that the comparisons chain.
use stack_graphs_muffet.Prelude.{Bool, true, false, Option, none, some, Ordering}

module _ {ℓ} {A : Type ℓ} where
  unfoldable pub equals_option : (A → A → Bool) → Option A → Option A → Bool
  equals_option eq (some a) (some b) = eq a b
  equals_option eq (some a) none = false
  equals_option eq none (some b) = false
  equals_option eq none none = true

  unfoldable pub cmp_option : (A → A → Ordering) → Option A → Option A → Ordering
  cmp_option cmp (some a) (some b) = cmp a b
  cmp_option cmp (some a) none = Ordering.gt
  cmp_option cmp none (some b) = Ordering.lt
  cmp_option cmp none none = Ordering.eq

unfoldable pub then_with : Ordering → Ordering → Ordering
then_with Ordering.eq o = o
then_with Ordering.lt o = Ordering.lt
then_with Ordering.gt o = Ordering.gt
