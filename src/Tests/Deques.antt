-- ===== src/Tests/Deques.antt =====
-- The arenas, sets and deques of stack-graphs/src/arena.rs on small data.
use stack_graphs_muffet.Prelude.{
  ℕ, ◌≡◌, refl, [], ◌∷◌, some, ◌==◌, ◌∙◌, ==_refl, arith, length, compare, true, false,
  if◌then◌else◌, Ordering,
}
use stack_graphs_muffet.Arena
use stack_graphs_muffet.Arena.{Arena, Handle}
use stack_graphs_muffet.Arena.Laws.{HasRoom}
use stack_graphs_muffet.Arena.HandleSet
use stack_graphs_muffet.Arena.HandleSet.{HandleSet}
use stack_graphs_muffet.Arena.HandleSet.Laws.{contains-add}
use stack_graphs_muffet.Arena.Supplemental
use stack_graphs_muffet.Arena.Supplemental.{SupplementalArena}
use stack_graphs_muffet.Arena.Supplemental.Laws.{get-put_or_default}
use stack_graphs_muffet.Arena.Reversible
use stack_graphs_muffet.Arena.Reversible.{ReversibleListArena}
use stack_graphs_muffet.Arena.Reversible.Repr.{Represents, nil, IsValid, Grows, new-IsValid}
use stack_graphs_muffet.Arena.Reversible.Compare.{
  push_front_lem, length-push_front, all_equal, lexicographic,
}
use stack_graphs_muffet.Arena.Reversible.Reverse.{Reversed, reverse_lem}
use stack_graphs_muffet.Arena.Deque
use stack_graphs_muffet.Arena.Deque.{Deque, DequeArena, forwards, backwards}
use stack_graphs_muffet.Arena.Deque.Laws.{Leaves, push_front-Holds, push_back-Holds}
use stack_graphs_muffet.Arena.Deque.Pop.{pop_front-Holds, pop_back-Holds, iter-Holds}
use stack_graphs_muffet.Arena.Deque.Compare.{equals_with-Holds, cmp_with-Holds}

abbrev none_yet : ReversibleListArena ℕ
none_yet = Arena.new

abbrev one : ReversibleListArena ℕ × Handle
one = Reversible.push_front Reversible.empty none_yet 10

abbrev two : ReversibleListArena ℕ × Handle
two = Reversible.push_front one.1 one.0 20

one_room : HasRoom 1 none_yet
one_room = unfold Arena.new in omega arith

one_lem : Grows none_yet one.0 × Represents one.0 one.1 (10 ∷ [])
one_lem = push_front_lem none_yet Reversible.empty 10 [] new-IsValid (nil refl) one_room

length-one : length one.0.items ≡ 1
length-one = length-push_front none_yet Reversible.empty 10 ∙ unfold Arena.new in refl

length-two : length two.0.items ≡ 2
length-two = omega (arith, length-push_front one.0 one.1 20, length-one)

two_lem : Grows one.0 two.0 × Represents two.0 two.1 (20 ∷ 10 ∷ [])
two_lem =
    push_front_lem one.0 one.1 20 (10 ∷ []) one_lem.0.valid one_lem.1 (omega (arith, length-one))

-- The list 20, 10 as a deque, and its reversal.
abbrev facing_front : Deque
facing_front = record { list = two.1; direction = forwards }

abbrev facing_back : Deque
facing_back = record { list = two.1; direction = backwards }

valid : IsValid two.0
valid = two_lem.0.valid

room_3 : HasRoom 3 two.0
room_3 = omega (arith, length-two)

room_4 : HasRoom 4 two.0
room_4 = omega (arith, length-two)

push_back-Holds_example :
    (b : DequeArena ℕ) × (e : Deque) × (Deque.push_back facing_front two.0 30 ≡ some (b, e))
    × Leaves two.0 b e (20 ∷ 10 ∷ 30 ∷ []) 3
push_back-Holds_example =
    push_back-Holds two.0 facing_front (20 ∷ 10 ∷ []) valid two_lem.1 room_3 30

push_front-Holds_example :
    (b : DequeArena ℕ) × (e : Deque) × (Deque.push_front facing_back two.0 30 ≡ some (b, e))
    × Leaves two.0 b e (30 ∷ 10 ∷ 20 ∷ []) 3
push_front-Holds_example =
    push_front-Holds two.0 facing_back (10 ∷ 20 ∷ []) valid two_lem.1 room_3 30

pop_front-Holds_example :
    (b : DequeArena ℕ) × (e : Deque) × (Deque.pop_front facing_back two.0 ≡ some (b, some 10, e))
    × Leaves two.0 b e (20 ∷ []) 2
pop_front-Holds_example = pop_front-Holds two.0 facing_back (10 ∷ 20 ∷ []) valid two_lem.1 room_3

pop_back-Holds_example :
    (b : DequeArena ℕ) × (e : Deque) × (Deque.pop_back facing_front two.0 ≡ some (b, some 10, e))
    × Leaves two.0 b e (20 ∷ []) 2
pop_back-Holds_example = pop_back-Holds two.0 facing_front (20 ∷ 10 ∷ []) valid two_lem.1 room_3

iter-Holds_example :
    (b : DequeArena ℕ) × (Deque.iter facing_back two.0 ≡ some (b, 10 ∷ 20 ∷ [])) × Grows two.0 b
iter-Holds_example = iter-Holds two.0 facing_back (10 ∷ 20 ∷ []) valid two_lem.1 room_3

equals_with-Holds_example :
    (b : DequeArena ℕ) × (Deque.equals_with facing_front two.0 facing_back ◌==◌ ≡ some (b, false))
    × Grows two.0 b
unfolding all_equal
equals_with-Holds_example =
    equals_with-Holds two.0 facing_front facing_back (20 ∷ 10 ∷ []) (10 ∷ 20 ∷ []) valid two_lem.1
      two_lem.1 room_4 ◌==◌ ==_refl

compare_refl : (n : ℕ) → compare n n ≡ Ordering.eq
compare_refl n = ground arith

cmp_with-Holds_example :
    (b : DequeArena ℕ) × (Deque.cmp_with facing_front two.0 facing_back compare
      ≡ some (b, Ordering.gt))
    × Grows two.0 b
unfolding lexicographic stack_graphs_muffet.Utils.then_with
cmp_with-Holds_example =
    cmp_with-Holds two.0 facing_front facing_back (20 ∷ 10 ∷ []) (10 ∷ 20 ∷ []) valid two_lem.1
      two_lem.1 room_4 compare compare_refl

reverse_lem_example :
    (b : ReversibleListArena ℕ) × (r : Handle) × (Reversible.reverse two.1 two.0 ≡ some (b, r))
    × Reversed two.0 b r (10 ∷ 20 ∷ []) 2
reverse_lem_example =
    reverse_lem two.0 two.1 (20 ∷ 10 ∷ []) valid two_lem.1 (omega (arith, length-two))

-- The handles 1 and 3.
abbrev some_handles : HandleSet
some_handles = HandleSet.add (HandleSet.add HandleSet.new 3) 1

contains-add_example :
    HandleSet.contains (HandleSet.add some_handles 40) 40
    ≡ (if 40 == 40 then true else HandleSet.contains some_handles 40)
contains-add_example = contains-add some_handles 40 40

abbrev no_items : SupplementalArena ℕ
no_items = record { items = [] }

get-put_or_default_example :
    Supplemental.get (Supplemental.put_or_default 0 no_items 3 7) 1 ≡ some 0
get-put_or_default_example = get-put_or_default 0 no_items 2 0 7
