-- ===== src/Tests/Cycles.antt =====
-- The detector of stack-graphs/src/cycles.rs on pairs of a kind and a size, of which those of one kind
-- compare.
use stack_graphs_muffet.Prelude.{
  ℕ, zero, suc, pos, length, arith, ◌≡◌, refl, ◌==◌, if◌then◌else◌, compare, Bool, false, [], ◌∷◌,
  ◌++◌, Option, none, some, Ordering,
}
use stack_graphs_muffet.Arena
use stack_graphs_muffet.Arena.{Handle}
use stack_graphs_muffet.Arena.Laws.{HasRoom}
use stack_graphs_muffet.Arena.Lists
use stack_graphs_muffet.Arena.Lists.{ListArena, push_front}
use stack_graphs_muffet.Arena.Lists.Repr.{
  Represents, IsValid, new-IsValid, push_front-IsValid, push_front-Represents,
}
use stack_graphs_muffet.Paths.{ok}
use stack_graphs_muffet.Cycles.Appending.{
  Appendable, Appendables, InternedOrHandle, database, edge_appendable, cycle_length,
}
use stack_graphs_muffet.Cycles.Appending.Length.{
  Starts, Shortest, one_more_start, no_more, of_handle, cycle_length_lem,
}
use stack_graphs_muffet.Cycles.{Bucket, add_to_bucket}
use stack_graphs_muffet.Cycles.Laws.{
  IsApart, has_similar, unbeaten, add_to_bucket-IsApart, add_to_bucket-similar, add_to_bucket-new,
  add_to_bucket-returns,
}

abbrev by_kind : ℕ × ℕ → ℕ × ℕ → Option Ordering
by_kind p q = if p.0 == q.0 then some (compare p.1 q.1) else none

abbrev bucket : Bucket (ℕ × ℕ)
bucket = record { paths = (1, 5) ∷ (2, 3) ∷ []; counts = some (0 ∷ 2 ∷ []) }

-- A better path of the second kind.
abbrev improved : Bucket (ℕ × ℕ)
improved = record { paths = (1, 5) ∷ (2, 1) ∷ []; counts = some (0 ∷ 2 ∷ []) }

adds : add_to_bucket by_kind (2, 1) bucket ≡ some (false, improved)
unfolding add_to_bucket
adds = refl

add_to_bucket-IsApart_example : IsApart by_kind improved.paths
add_to_bucket-IsApart_example =
    add_to_bucket-IsApart by_kind (2, 1) bucket improved false ((refl, tt), (tt, tt)) adds

add_to_bucket-similar_example : false ≡ has_similar by_kind (2, 1) bucket.paths
add_to_bucket-similar_example = add_to_bucket-similar by_kind (2, 1) bucket improved false adds

add_to_bucket-new_example : improved.paths ≡ unbeaten by_kind (2, 1) bucket.paths ++ (2, 1) ∷ []
add_to_bucket-new_example = add_to_bucket-new by_kind (2, 1) bucket improved adds

add_to_bucket-returns_example :
    (r : Bool) × (b : Bucket (ℕ × ℕ)) × (add_to_bucket by_kind (2, 4) bucket ≡ some (r, b))
add_to_bucket-returns_example = add_to_bucket-returns by_kind (2, 4) bucket refl

-- A detector with an edge from node 4 to node 3 after one from 3 to 4.
abbrev edges : ℕ → Option Appendable
edges zero = none
edges (suc zero) = some (edge_appendable (record { source = 3; sink = 4; precedence = pos 0 }))
edges (suc (suc n)) = some (edge_appendable (record { source = 4; sink = 3; precedence = pos 0 }))

abbrev no_elements : ListArena (InternedOrHandle ℕ)
no_elements = Arena.new

abbrev one_element : ListArena (InternedOrHandle ℕ) × Handle
one_element = push_front Lists.empty no_elements (database 1)

abbrev two_elements : ListArena (InternedOrHandle ℕ) × Handle
two_elements = push_front one_element.1 one_element.0 (database 2)

room : HasRoom 2 no_elements
room = unfold Arena.new in omega arith

room_left : HasRoom 1 one_element.0
room_left = unfold Arena.new push_front Arena.add in omega arith

one-Represents : Represents one_element.0 one_element.1 (database 1 ∷ [])
one-Represents =
    push_front-Represents no_elements Lists.empty (database 1) [] (omega (arith, room)) refl

one-IsValid : IsValid one_element.0
one-IsValid =
    push_front-IsValid no_elements Lists.empty (database 1) [] new-IsValid (omega (arith, room))
      refl

abbrev detector : Appendables ℕ
detector = record { elements = two_elements.0; interned = record { items = [] } }

starts : Starts edges detector (database 2 ∷ database 1 ∷ []) (4 ∷ 3 ∷ [])
unfolding edge_appendable
starts = one_more_start (of_handle _ refl refl) (one_more_start (of_handle _ refl refl) no_more)

cycle_length_lem_example :
    (result : Option ℕ) × (cycle_length edges
        (suc (length detector.elements.items))
        detector
        two_elements.1
        3
      ≡ ok result)
    × Shortest 3 (4 ∷ 3 ∷ []) result
cycle_length_lem_example =
    cycle_length_lem edges detector 3 two_elements.1 (database 2 ∷ database 1 ∷ []) (4 ∷ 3 ∷ [])
      (push_front-IsValid one_element.0 one_element.1 (database 2) (database 1 ∷ []) one-IsValid
        room_left one-Represents)
      (push_front-Represents one_element.0 one_element.1 (database 2) (database 1 ∷ []) room_left
        one-Represents)
      starts
