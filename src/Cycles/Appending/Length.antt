-- ===== src/Cycles/Appending/Length.antt =====
-- The search for a cycle in the appendages of an `AppendingCycleDetector` (stack-graphs/src/cycles.rs).
use stack_graphs_muffet.Prelude.{
  ℕ, zero, suc, ◌<◌, ◌≡◌, refl, ◌==◌, true, false, inl, inr, Bool-cases, List, [], ◌∷◌, ◌++◌,
  length, Option, none, some, arith,
}
use stack_graphs_muffet.Paths.{ok, ◌>>=◌}
use stack_graphs_muffet.Arena
use stack_graphs_muffet.Arena.{Handle}
use stack_graphs_muffet.Arena.HandleSet.Laws.{listed}
use stack_graphs_muffet.Arena.Lists.Repr.{
  Represents, IsValid, Represents-bound, pop_front-nil, pop_front-cons,
}
use stack_graphs_muffet.Partial.Path.{PartialPath}
use stack_graphs_muffet.Cycles.Appending.{
  Appendable, Appendables, InternedOrHandle, appendable_of, cycle_length, one_more, interned,
  database, path_appendable,
}

module _ {H : Type 0} (db : H → Option Appendable) (appendables : Appendables H) where
  -- The appendage stands for a path or an edge that starts at the node.
  pub data StartsAt : InternedOrHandle H → Handle → Type 0 where
    of_path :
        {h n : Handle}
        → (path : PartialPath) → Arena.get appendables.interned h ≡ some path
        → path.start_node ≡ n
        → StartsAt (interned h) n
    of_handle :
        {h : H} {n : Handle}
        → (x : Appendable) → db h ≡ some x
        → x.start_node ≡ n
        → StartsAt (database h) n

  -- The nodes at which the appendages of a list start, one by one.
  pub data Starts : List (InternedOrHandle H) → List Handle → Type 0 where
    no_more : Starts [] []
    one_more_start :
        {a : InternedOrHandle H} {n : Handle} {xs : List (InternedOrHandle H)} {ns : List Handle}
        → StartsAt a n
        → Starts xs ns
        → Starts (a ∷ xs) (n ∷ ns)

-- The length of the shortest start of a list of nodes that ends with this node, if the node is in the list.
pub data Shortest (node : Handle) : List Handle → Option ℕ → Type 0 where
  first_at :
      (before after : List Handle)
      → listed node before ≡ false
      → Shortest node (before ++ node ∷ after) (some (suc (length before)))
  nowhere : (ns : List Handle) → listed node ns ≡ false → Shortest node ns none

module _ {H : Type 0} (db : H → Option Appendable) (appendables : Appendables H)
    (end_node : Handle) where
  appendable_of-StartsAt :
      (a : InternedOrHandle H) (n : Handle)
      → StartsAt db appendables a n
      → (x : Appendable) × (appendable_of db appendables a ≡ ok x) × (x.start_node ≡ n)
  unfolding appendable_of path_appendable
  appendable_of-StartsAt _ n (of_path path e start) = (path_appendable path, rw e refl, start)
  appendable_of-StartsAt _ n (of_handle x e start) = (x, rw e refl, start)

  cycle_length-nil :
      (fuel : ℕ) (list : Handle)
      → Represents appendables.elements list []
      → cycle_length db (suc fuel) appendables list end_node ≡ ok none
  unfolding cycle_length
  cycle_length-nil fuel list r = ground (arith, pop_front-nil appendables.elements list r)

  cycle_length-cons :
      (fuel : ℕ) (list : Handle) (a : InternedOrHandle H) (rest : List (InternedOrHandle H))
      (r : Represents appendables.elements list (a ∷ rest))
      → cycle_length db (suc fuel) appendables list end_node ≡ (
          appendable_of db appendables a >>= λ appendage. elim (appendage.start_node == end_node) [
            | true ↦ ok (some 1)
            | false ↦ cycle_length db fuel appendables r.1 end_node >>= one_more
          ])
  unfolding cycle_length
  cycle_length-cons fuel list a rest r = rw (pop_front-cons appendables.elements list a rest r) refl

  -- What the search has to give.
  abbrev Finds : ℕ → Handle → List Handle → Type 0
  Finds fuel list ns =
      (result : Option ℕ) × (cycle_length db fuel appendables list end_node ≡ ok result)
      × Shortest end_node ns result

  Shortest-cons :
      (n : Handle) (ns : List Handle) (result : Option ℕ)
      → (n == end_node) ≡ false
      → Shortest end_node ns result
      → (result' : Option ℕ) × (one_more result ≡ ok result') × Shortest end_node (n ∷ ns) result'
  unfolding one_more listed
  Shortest-cons n _ _ other (first_at before after away) = (
    some (suc (suc (length before))),
    refl,
    first_at (n ∷ before) after (ground (arith, other, away)),
  )
  Shortest-cons n ns _ other (nowhere _ away) =
      (none, refl, nowhere (n ∷ ns) (ground (arith, other, away)))

  cycle_length-Finds :
      (fuel : ℕ) (list : Handle) (xs : List (InternedOrHandle H)) (ns : List Handle)
      → Represents appendables.elements list xs
      → length xs < fuel
      → Starts db appendables xs ns
      → Finds fuel list ns
  cycle_length-Finds zero list xs ns r h s = absurd (omega (arith, h))
  cycle_length-Finds (suc fuel) list _ _ r h no_more =
      (none, cycle_length-nil fuel list r, nowhere [] (unfold listed in refl))
  cycle_length-Finds (suc fuel) list _ _ r h (one_more_start {a} {n} {xs} {ns} start rest) =
      let (x, is_x, at) = appendable_of-StartsAt a n start in
      let run = cycle_length-cons fuel list a xs r in
      let (later, runs, shortest) = cycle_length-Finds fuel r.1 xs ns r.3 (omega (arith, h)) rest in
      elim (Bool-cases (n == end_node)) [
        | inl here ↦
            let same : n ≡ end_node = ground (arith, here) in
            let ended : cycle_length db (suc fuel) appendables list end_node ≡ ok (some 1) =
              ground (arith, run, is_x, at, here) in
            (some 1, ended, rw same (first_at [] ns (unfold listed in refl)))
        | inr other ↦
            let (result, more, longer) = Shortest-cons n ns later other shortest in
            let found : cycle_length db (suc fuel) appendables list end_node ≡ ok result =
              ground (arith, run, is_x, at, other, runs, more) in
            (result, found, longer)
      ]

-- In a valid arena of appendages, `is_cyclic`'s search for a cycle ends. It gives the length of the
-- shortest start of the detector's list whose last appendage starts at the node, and none if no appendage
-- of the list does. Every appendage of the list stands for a path or an edge.
pub cycle_length_lem :
    {H : Type 0} (db : H → Option Appendable) (appendables : Appendables H) (end_node list : Handle)
    (xs : List (InternedOrHandle H)) (ns : List Handle)
    → IsValid appendables.elements
    → Represents appendables.elements list xs
    → Starts db appendables xs ns
    → (result : Option ℕ) × (cycle_length db
          (suc (length appendables.elements.items))
          appendables
          list
          end_node
        ≡ ok result)
      × Shortest end_node ns result
cycle_length_lem db appendables end_node list xs ns v r starts =
    cycle_length-Finds db appendables end_node (suc (length appendables.elements.items)) list xs ns
      r (Represents-bound appendables.elements list xs v r) starts
