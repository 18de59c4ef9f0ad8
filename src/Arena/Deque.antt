-- ===== src/Arena/Deque.antt =====
-- stack-graphs/src/arena.rs, `Deque`: a reversible list with the direction in which it is stored.
-- Pushing or popping at the far end reverses the list first. `none` is a panic.
pub mod Holds
pub mod Laws
pub mod Pop
pub mod Compare
use stack_graphs_muffet.Prelude.{
  ℕ, Bool, true, false, Option, none, some, List, ◌∷◌, [], if◌then◌else◌, ◌==◌, Ordering, suc,
  length,
}
use mathlib.Core.Option
use stack_graphs_muffet.Arena.{Arena, Handle}
use stack_graphs_muffet.Arena.Reversible
use stack_graphs_muffet.Arena.Reversible.{ReversibleListArena, ◌>>=◌}

pub data DequeDirection : Type 0 where
  forwards backwards : DequeDirection

-- `!direction`.
abbrev pub flip : DequeDirection → DequeDirection
flip forwards = backwards
flip backwards = forwards

abbrev pub same_direction : DequeDirection → DequeDirection → Bool
same_direction forwards forwards = true
same_direction backwards backwards = true
same_direction _ _ = false

pub record Deque : Type 0 where
  pub list : Handle
  pub direction : DequeDirection

abbrev pub DequeArena {ℓ} : Type ℓ → Type ℓ
DequeArena A = ReversibleListArena A

unfoldable pub empty : Deque
empty = record { list = Reversible.empty; direction = forwards }

unfoldable pub is_empty : Deque → Bool
is_empty d = Reversible.is_empty d.list

abbrev pub is_backwards : Deque → Bool
is_backwards d = same_direction d.direction backwards

abbrev pub is_forwards : Deque → Bool
is_forwards d = same_direction d.direction forwards

module _ {ℓ} {A : Type ℓ} where
  unfoldable pub have_reversal : Deque → DequeArena A → Option Bool
  have_reversal d a = Reversible.have_reversal d.list a

  -- `list.reverse(arena)`, and the new direction.
  unfoldable pub reverse_to : DequeDirection → Deque → DequeArena A → Option (DequeArena A × Deque)
  reverse_to direction d a =
      Option.map (λ (b, l). (b, record { list = l; direction = direction }))
        (Reversible.reverse d.list a)

  unfoldable pub ensure_backwards : Deque → DequeArena A → Option (DequeArena A × Deque)
  unfolding reverse_to
  ensure_backwards d a = if is_backwards d then some (a, d) else reverse_to backwards d a

  unfoldable pub ensure_forwards : Deque → DequeArena A → Option (DequeArena A × Deque)
  unfolding reverse_to
  ensure_forwards d a = if is_forwards d then some (a, d) else reverse_to forwards d a

  -- The list operations, on the deque's list.
  abbrev pub list_push_front : Deque → DequeArena A → A → DequeArena A × Deque
  list_push_front d a x =
      let (b, l) = Reversible.push_front d.list a x in (b, record d { list = l })

  abbrev pub list_pop_front : Deque → DequeArena A → Option (DequeArena A × Option A × Deque)
  list_pop_front d a =
      Option.map (λ (x, l). (a, x, record d { list = l })) (Reversible.pop_front d.list a)

  unfoldable pub push_front : Deque → DequeArena A → A → Option (DequeArena A × Deque)
  push_front d a x = Option.map (λ (b, d'). list_push_front d' b x) (ensure_forwards d a)

  unfoldable pub push_back : Deque → DequeArena A → A → Option (DequeArena A × Deque)
  push_back d a x = Option.map (λ (b, d'). list_push_front d' b x) (ensure_backwards d a)

  unfoldable pub pop_front : Deque → DequeArena A → Option (DequeArena A × Option A × Deque)
  pop_front d a = ensure_forwards d a >>= λ (b, d'). list_pop_front d' b

  unfoldable pub pop_back : Deque → DequeArena A → Option (DequeArena A × Option A × Deque)
  pop_back d a = ensure_backwards d a >>= λ (b, d'). list_pop_front d' b

  -- The elements of a list, with the fuel that its arena gives.
  abbrev pub elements : DequeArena A × Handle → Option (DequeArena A × List A)
  elements (a, l) = Option.map (λ xs. (a, xs)) (Reversible.iter (suc (length a.items)) l a)

  unfoldable pub iter : Deque → DequeArena A → Option (DequeArena A × List A)
  iter d a = (if is_backwards d then Reversible.reverse d.list a else some (a, d.list)) >>= elements

  unfoldable pub iter_reversed : Deque → DequeArena A → Option (DequeArena A × List A)
  iter_reversed d a =
      (if is_forwards d then Reversible.reverse d.list a else some (a, d.list)) >>= elements

  unfoldable pub iter_unordered : Deque → DequeArena A → Option (List A)
  iter_unordered d a = Reversible.iter (suc (length a.items)) d.list a

  -- `self` is reversed if its reversal is at hand, and else `other` is.
  unfoldable pub ensure_same_direction :
      Deque → DequeArena A → Deque → Option (DequeArena A × Deque × Deque)
  ensure_same_direction d a other =
      if same_direction d.direction other.direction
      then some (a, d, other)
      else have_reversal d a >>= λ at_hand.
          if at_hand
          then Option.map (λ (b, d'). (b, d', other)) (reverse_to (flip d.direction) d a)
          else Option.map (λ (b, o'). (b, d, o')) (reverse_to (flip other.direction) other a)

  unfoldable pub equals_with :
      Deque → DequeArena A → Deque → (A → A → Bool) → Option (DequeArena A × Bool)
  equals_with d a other eq = ensure_same_direction d a other >>= λ (b, d', o').
      Option.map (λ r. (b, r)) (Reversible.equals_with d'.list b o'.list eq)

  unfoldable pub cmp_with :
      Deque → DequeArena A → Deque → (A → A → Ordering) → Option (DequeArena A × Ordering)
  cmp_with d a other cmp = ensure_forwards d a >>= λ (b, d').
      ensure_forwards other b >>= λ (b', o').
      Option.map (λ r. (b', r)) (Reversible.cmp_with d'.list b' o'.list cmp)
