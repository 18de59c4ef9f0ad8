-- ===== src/Cycles/Appending.antt =====
-- stack-graphs/src/stitching.rs, `Appendable`, and stack-graphs/src/cycles.rs, `AppendingCycleDetector`. A handle is
-- looked up in the external database by a parameter.
pub mod Length
use stack_graphs_muffet.Prelude.{
  ℕ, zero, suc, ◌==◌, if◌then◌else◌, true, false, List, [], ◌∷◌, length, Option, none, some,
}
use stack_graphs_muffet.Paths.{Result, ok, panic, out_of_fuel, ◌>>=◌, unwrap}
use stack_graphs_muffet.Arena
use stack_graphs_muffet.Arena.{Arena, Handle}
use stack_graphs_muffet.Arena.Lists
use stack_graphs_muffet.Arena.Lists.{ListCell, ListArena}
use stack_graphs_muffet.Graph.StackGraph.{StackGraph}
use stack_graphs_muffet.Graph.Edges.{Edge}
use stack_graphs_muffet.Partial.Path
use stack_graphs_muffet.Partial.Path.{PartialPath}
use stack_graphs_muffet.Partial.Path.Join
use stack_graphs_muffet.Partial.Path.Join.{Cyclicity}

-- The trait `Appendable`; the fuel is that of `unify`.
pub record Appendable : Type 0 where
  pub append_to : ℕ → StackGraph → PartialPath → Result PartialPath
  pub start_node : Handle
  pub end_node : Handle

unfoldable pub append_edge : Edge → ℕ → StackGraph → PartialPath → Result PartialPath
unfolding Join.resolve_to_node Path.append
append_edge edge fuel g path =
    Join.resolve_to_node fuel path g edge.source >>= λ resolved. Path.append resolved g edge

unfoldable pub edge_appendable : Edge → Appendable
unfolding append_edge
edge_appendable edge = record {
  append_to = append_edge edge;
  start_node = edge.source;
  end_node = edge.sink;
}

unfoldable pub append_path : PartialPath → ℕ → StackGraph → PartialPath → Result PartialPath
unfolding Join.resolve_to_node Join.ensure_no_overlapping_variables Join.concatenate
append_path appended fuel g path =
    Join.resolve_to_node fuel path g appended.start_node >>= λ resolved.
    Join.concatenate fuel (Join.ensure_no_overlapping_variables resolved appended) g appended

unfoldable pub path_appendable : PartialPath → Appendable
unfolding append_path
path_appendable path = record {
  append_to = append_path path;
  start_node = path.start_node;
  end_node = path.end_node;
}

pub data InternedOrHandle (H : Type 0) : Type 0 where
  interned : (handle : Handle) → InternedOrHandle H
  database : (handle : H) → InternedOrHandle H

pub record Appendables (H : Type 0) : Type 0 where
  pub elements : ListArena (InternedOrHandle H)
  pub interned : Arena PartialPath

abbrev or_from_node : StackGraph → Handle → Option PartialPath → Result PartialPath
or_from_node g node none = Path.from_node g node
or_from_node g node (some path) = ok path

abbrev with_cycle : List Cyclicity → Option Cyclicity → List Cyclicity
with_cycle cycles none = cycles
with_cycle cycles (some c) = c ∷ cycles

-- One more element, if the rest has a cycle.
unfoldable pub one_more : Option ℕ → Result (Option ℕ)
one_more none = ok none
one_more (some k) = ok (some (suc k))

module _ {H : Type 0} where
  -- A detector is the list of its appendages, the last one first.
  unfoldable pub from : Appendables H → PartialPath → Appendables H × Handle
  unfolding Arena.add Lists.push_front
  from appendables path =
      let added = Arena.add appendables.interned path in
      let pushed = Lists.push_front Lists.empty appendables.elements (interned added.1) in
      (record { elements = pushed.0; interned = added.0 }, pushed.1)

  unfoldable pub append : Handle → Appendables H → H → Appendables H × Handle
  unfolding Lists.push_front
  append appendages appendables appendage =
      let pushed = Lists.push_front appendages appendables.elements (database appendage) in
      (record appendables { elements = pushed.0 }, pushed.1)

  -- What an appendage stands for.
  unfoldable pub appendable_of :
      (H → Option Appendable) → Appendables H → InternedOrHandle H → Result Appendable
  unfolding Arena.get path_appendable
  appendable_of db appendables (interned h) =
      unwrap (Arena.get appendables.interned h) >>= λ path. ok (path_appendable path)
  appendable_of db appendables (database h) = unwrap (db h)

  -- The length of the shortest cycle back from the front of the list, if there is one.
  unfoldable pub cycle_length :
      (H → Option Appendable) → ℕ → Appendables H → Handle → Handle → Result (Option ℕ)
  unfolding Lists.pop_front appendable_of one_more
  cycle_length db zero appendables list end_node = out_of_fuel
  cycle_length db (suc fuel) appendables list end_node =
      unwrap (Lists.pop_front list appendables.elements) >>= λ (front, rest). elim front [
        | none ↦ ok none
        | some a ↦ appendable_of db appendables a >>= λ appendage.
            elim (appendage.start_node == end_node) [
              | true ↦ ok (some 1)
              | false ↦ cycle_length db fuel appendables rest end_node >>= one_more
            ]
      ]

  -- The first appendages of the list, the last one in front, and the rest of the list.
  unfoldable pub collect :
      ℕ
      → List (InternedOrHandle H)
      → Appendables H
      → Handle
      → Result (List (InternedOrHandle H) × Handle)
  unfolding Lists.pop_front
  collect zero prefix appendables list = ok (prefix, list)
  collect (suc n) prefix appendables list =
      unwrap (Lists.pop_front list appendables.elements) >>= λ (front, rest). elim front [
        | none ↦ panic
        | some a ↦ collect n (a ∷ prefix) appendables rest
      ]

  unfoldable pub append_all :
      (H → Option Appendable)
      → ℕ
      → StackGraph
      → Appendables H
      → List (InternedOrHandle H)
      → PartialPath
      → Result PartialPath
  unfolding appendable_of
  append_all db fuel g appendables [] path = ok path
  append_all db fuel g appendables (a ∷ rest) path = appendable_of db appendables a >>= λ appendage.
      appendage.append_to fuel g path >>= λ path'. append_all db fuel g appendables rest path'

  -- The `loop` of `is_cyclic`. The set of cyclicities is a list.
  unfoldable pub cycles_loop :
      (H → Option Appendable)
      → ℕ
      → ℕ
      → StackGraph
      → Appendables H
      → Handle
      → Handle
      → Option PartialPath
      → List Cyclicity
      → Result (List Cyclicity)
  unfolding cycle_length collect append_all append_path Path.from_node Join.is_cyclic
  cycles_loop db zero fuel g appendables end_node list last cycles = out_of_fuel
  cycles_loop db (suc rounds) fuel g appendables end_node list last cycles =
      cycle_length db (suc (length appendables.elements.items)) appendables list end_node
      >>= λ found. elim found [
        | none ↦ ok cycles
        | some n ↦ collect n [] appendables list >>= λ (prefix, rest).
            Path.from_node g end_node >>= λ start.
            append_all db fuel g appendables prefix start >>= λ prefix_path.
            or_from_node g end_node last >>= λ cyclic_path.
            append_path cyclic_path fuel g prefix_path >>= λ joined.
            (if joined.edges.length == 0 then ok none else Join.is_cyclic fuel joined g)
            >>= λ cyclicity.
                cycles_loop db rounds fuel g appendables end_node rest (some joined)
                  (with_cycle cycles cyclicity)
      ]

  unfoldable pub is_cyclic :
      (H → Option Appendable) → ℕ → StackGraph → Appendables H → Handle → Result (List Cyclicity)
  unfolding Lists.pop_front appendable_of cycles_loop
  is_cyclic db fuel g appendables appendages =
      unwrap (Lists.pop_front appendages appendables.elements) >>= λ (front, rest). elim front [
        | none ↦ ok []
        | some a ↦ appendable_of db appendables a >>= λ appendage.
            cycles_loop db (suc (length appendables.elements.items)) fuel g appendables
              appendage.end_node appendages none []
      ]
