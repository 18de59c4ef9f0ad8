-- ===== src/Arena/Reversible.antt =====
-- stack-graphs/src/arena.rs, `ReversibleList` and `ReversibleListCell`: linked lists in an arena
-- whose cells cache the handle of the reversed list. A list is the handle of its first cell. `none`
-- is a panic (a handle out of range, an `unwrap` of none) or fuel that ran out.
pub mod Repr
pub mod Grow
pub mod Reverse
pub mod Compare
use stack_graphs_muffet.Prelude.{
  ℕ, zero, suc, ◌≡◌, Bool, true, false, ◌==◌, if◌then◌else◌, Option, none, some, is_some, length,
  u32_max, Ordering, List, [], ◌∷◌,
}
use mathlib.Core.Option
use stack_graphs_muffet.Utils.{equals_option, cmp_option}
use stack_graphs_muffet.Arena.{Arena, Handle, add, get, put}

-- `EMPTY_LIST_HANDLE`, the handle of the empty list.
abbrev pub empty : Handle
empty = u32_max

-- `ReversibleListCell::is_empty_handle`.
abbrev pub is_empty : Handle → Bool
is_empty l = l == empty

pub record ReversibleListCell {ℓ} (A : Type ℓ) : Type ℓ where
  pub head : A
  pub tail : Handle
  pub reversed : Option Handle

abbrev pub ReversibleListArena {ℓ} : Type ℓ → Type ℓ
ReversibleListArena A = Arena (ReversibleListCell A)

infixl 5 ◌>>=◌
abbrev pub ◌>>=◌ {ℓ κ} : {A : Type ℓ} {B : Type κ} → Option A → (A → Option B) → Option B
none >>= f = none
some a >>= f = f a

module _ {ℓ} {A : Type ℓ} where
  unfoldable pub have_reversal : Handle → ReversibleListArena A → Option Bool
  have_reversal l a =
      if is_empty l then some true else Option.map (λ c. is_some c.reversed) (get a l)

  unfoldable pub push_front : Handle → ReversibleListArena A → A → ReversibleListArena A × Handle
  push_front l a x = add a (record { head = x; tail = l; reversed = none })

  unfoldable pub pop_front : Handle → ReversibleListArena A → Option (Option A × Handle)
  pop_front l a =
      if is_empty l then some (none, l) else Option.map (λ c. (some c.head, c.tail)) (get a l)

  -- `iter`: the elements that `pop_front` gives until the list is empty.
  unfoldable pub iter : ℕ → Handle → ReversibleListArena A → Option (List A)
  iter zero l a = none
  iter (suc fuel) l a = elim (pop_front l a) [
    | none ↦ none
    | some (none, l') ↦ some []
    | some (some x, l') ↦ Option.map (◌∷◌ x) (iter fuel l' a)
  ]

  -- The cell that the loop of `reverse` adds: the reversal of the last one is the original list.
  abbrev pub reversed_cell : Handle → A → Handle → Handle → ReversibleListCell A
  reversed_cell forwards head reversed current = record {
    head = head;
    tail = reversed;
    reversed = if is_empty current then some forwards else none;
  }

  -- The `while` loop of `ReversibleListCell::reverse`.
  unfoldable pub reverse_loop :
      ℕ → ReversibleListArena A → Handle → Handle → Handle → Option (ReversibleListArena A × Handle)
  reverse_loop zero a forwards current reversed = none
  reverse_loop (suc fuel) a forwards current reversed = elim (is_empty current) [
    | true ↦ some (a, reversed)
    | false ↦ elim (get a current) [
      | none ↦ none
      | some c ↦
          reverse_loop fuel (add a (reversed_cell forwards c.head reversed c.tail)).0 forwards
            c.tail (add a (reversed_cell forwards c.head reversed c.tail)).1
    ]
  ]

  -- A list has at most as many cells as the arena.
  unfoldable pub reverse_cell :
      Handle → ReversibleListArena A → Option (ReversibleListArena A × Handle)
  reverse_cell forwards a = reverse_loop (suc (length a.items)) a forwards forwards empty

  -- `arena.get(l).reversed.set(Some(r))`.
  unfoldable pub set_reversed :
      ReversibleListArena A → Handle → Handle → Option (ReversibleListArena A)
  set_reversed a l r = Option.map (λ c. put a l (record c { reversed = some r })) (get a l)

  unfoldable pub ensure_reversal_available :
      Handle → ReversibleListArena A → Option (ReversibleListArena A)
  ensure_reversal_available l a =
      if is_empty l
      then some a
      else get a l >>= λ c.
          if is_some c.reversed
          then some a
          else reverse_cell l a >>= λ (a', new_reversed). set_reversed a' l new_reversed

  unfoldable pub reverse : Handle → ReversibleListArena A → Option (ReversibleListArena A × Handle)
  reverse l a =
      if is_empty l
      then some (a, l)
      else ensure_reversal_available l a >>= λ a'.
          get a' l >>= λ c. Option.map (λ r. (a', r)) c.reversed

  -- `reverse_reused`: the outer option is the panic, the inner one the `Err(())`.
  unfoldable pub reverse_reused : Handle → ReversibleListArena A → Option (Option Handle)
  reverse_reused l a = if is_empty l then some (some l) else Option.map (λ c. c.reversed) (get a l)

  unfoldable pub equals_loop :
      (A → A → Bool) → ℕ → Handle → ReversibleListArena A → Handle → Option Bool
  equals_loop eq zero l a m = none
  equals_loop eq (suc fuel) l a m = elim (l == m) [
    | true ↦ some true
    | false ↦ pop_front l a >>= λ (x, l'). pop_front m a >>= λ (y, m').
        elim (equals_option eq x y) [ true ↦ equals_loop eq fuel l' a m' | false ↦ some false ]
  ]

  unfoldable pub cmp_loop :
      (A → A → Ordering) → ℕ → Handle → ReversibleListArena A → Handle → Option Ordering
  cmp_loop cmp zero l a m = none
  cmp_loop cmp (suc fuel) l a m = elim (l == m) [
    | true ↦ some Ordering.eq
    | false ↦ pop_front l a >>= λ (x, l'). pop_front m a >>= λ (y, m'). elim (cmp_option cmp x y) [
      | Ordering.eq ↦ cmp_loop cmp fuel l' a m'
      | Ordering.lt ↦ some Ordering.lt
      | Ordering.gt ↦ some Ordering.gt
    ]
  ]

  unfoldable pub equals_with :
      Handle → ReversibleListArena A → Handle → (A → A → Bool) → Option Bool
  equals_with l a m eq = equals_loop eq (suc (length a.items)) l a m

  unfoldable pub cmp_with :
      Handle → ReversibleListArena A → Handle → (A → A → Ordering) → Option Ordering
  cmp_with l a m cmp = cmp_loop cmp (suc (length a.items)) l a m
