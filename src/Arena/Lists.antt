-- ===== src/Arena/Lists.antt =====
-- stack-graphs/src/arena.rs, `List` and `ListCell`: singly linked lists in an arena. A list is the
-- handle of its first cell. `none` is a panic (a handle out of range) or fuel that ran out.
pub mod Repr
use stack_graphs_muffet.Prelude.{
  ℕ, zero, suc, Bool, true, false, ◌==◌, if◌then◌else◌, Option, none, some, u32_max, Ordering, List,
  [], ◌∷◌, length,
}
use mathlib.Core.Option
use stack_graphs_muffet.Utils.{equals_option, cmp_option}
use stack_graphs_muffet.Arena.{Arena, Handle, add, get}
use stack_graphs_muffet.Arena.Reversible.{◌>>=◌}

-- `EMPTY_LIST_HANDLE`, the handle of the empty list.
abbrev pub empty : Handle
empty = u32_max

abbrev pub is_empty : Handle → Bool
is_empty l = l == empty

pub record ListCell {ℓ} (A : Type ℓ) : Type ℓ where
  pub head : A
  pub tail : Handle

abbrev pub ListArena {ℓ} : Type ℓ → Type ℓ
ListArena A = Arena (ListCell A)

module _ {ℓ} {A : Type ℓ} where
  unfoldable pub push_front : Handle → ListArena A → A → ListArena A × Handle
  push_front l a x = add a (record { head = x; tail = l })

  unfoldable pub pop_front : Handle → ListArena A → Option (Option A × Handle)
  pop_front l a =
      if is_empty l then some (none, l) else Option.map (λ c. (some c.head, c.tail)) (get a l)

  -- `iter`: the elements that `pop_front` gives until the list is empty.
  unfoldable pub iter_loop : ℕ → Handle → ListArena A → Option (List A)
  unfolding pop_front
  iter_loop zero l a = none
  iter_loop (suc fuel) l a = elim (pop_front l a) [
    | none ↦ none
    | some (none, l') ↦ some []
    | some (some x, l') ↦ Option.map (◌∷◌ x) (iter_loop fuel l' a)
  ]

  unfoldable pub iter : Handle → ListArena A → Option (List A)
  unfolding iter_loop
  iter l a = iter_loop (suc (length a.items)) l a

  unfoldable pub equals_loop : (A → A → Bool) → ℕ → Handle → ListArena A → Handle → Option Bool
  unfolding pop_front equals_option
  equals_loop eq zero l a m = none
  equals_loop eq (suc fuel) l a m = elim (l == m) [
    | true ↦ some true
    | false ↦ pop_front l a >>= λ (x, l'). pop_front m a >>= λ (y, m').
        elim (equals_option eq x y) [ false ↦ some false | true ↦ equals_loop eq fuel l' a m' ]
  ]

  unfoldable pub equals_with : Handle → ListArena A → Handle → (A → A → Bool) → Option Bool
  unfolding equals_loop
  equals_with l a m eq = equals_loop eq (suc (length a.items)) l a m

  unfoldable pub cmp_loop : (A → A → Ordering) → ℕ → Handle → ListArena A → Handle → Option Ordering
  unfolding pop_front cmp_option
  cmp_loop cmp zero l a m = none
  cmp_loop cmp (suc fuel) l a m = elim (l == m) [
    | true ↦ some Ordering.eq
    | false ↦ pop_front l a >>= λ (x, l'). pop_front m a >>= λ (y, m'). elim (cmp_option cmp x y) [
      | Ordering.eq ↦ cmp_loop cmp fuel l' a m'
      | Ordering.lt ↦ some Ordering.lt
      | Ordering.gt ↦ some Ordering.gt
    ]
  ]

  unfoldable pub cmp_with : Handle → ListArena A → Handle → (A → A → Ordering) → Option Ordering
  unfolding cmp_loop
  cmp_with l a m cmp = cmp_loop cmp (suc (length a.items)) l a m
