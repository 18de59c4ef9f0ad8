-- ===== src/Partial/Path/Walks.antt =====
-- The paths that `from_node` and `append` of stack-graphs/src/partial.rs build, against concrete walks.
use stack_graphs_muffet.Prelude.{
  ◌≡◌, refl, sym, subst, true, ◌==◌, ==_iff, List, ◌∷◌, ◌⊎◌, some, arith, Bool-cases, Option-cases,
  List-cases, inl, inr,
}
use stack_graphs_muffet.Paths.{ok, Result-cases}
use stack_graphs_muffet.Arena.{Handle}
use stack_graphs_muffet.Graph.Node.{Node, is_jump_to}
use stack_graphs_muffet.Graph.StackGraph
use stack_graphs_muffet.Graph.StackGraph.{StackGraph}
use stack_graphs_muffet.Graph.Edges.{Edge}
use stack_graphs_muffet.Partial.EdgeList
use stack_graphs_muffet.Partial.Stacks.{Stacks, append_to_partial_stacks}
use stack_graphs_muffet.Partial.Path.{
  PartialPath, initial_stacks, from_node, append, extended, resolve_from_postcondition,
}
use stack_graphs_muffet.Partial.Path.Semantics.{
  Assignment, Machine, Walk, enter, follow, jump, precondition, postcondition, scopes,
}
use stack_graphs_muffet.Partial.Path.Sound.{
  IsLinked, append_to_partial_stacks-Sound, append_to_partial_stacks-IsLinked,
}

-- Under every assignment the path stands for a walk from its precondition to its postcondition.
pub record IsSound (g : StackGraph) (IsEdge : Edge → Type 0) (p : PartialPath) : Type 0 where
  pub linked : IsLinked p.stacks
  pub walks :
      (a : Assignment)
      → Walk g IsEdge p.start_node (precondition a p.stacks) p.end_node (postcondition a p.stacks)

-- What one jump from the node `n` to the scope `top` makes of a path.
record Jumped (g : StackGraph) (p q : PartialPath) : Type 0 where
  node : Node
  rest : List Handle
  found : StackGraph.index g p.end_node ≡ some node
  jumps : is_jump_to node ≡ true
  popped : p.scope_stack_postcondition.scopes ≡ q.end_node ∷ rest
  start : q.start_node ≡ p.start_node
  stacks : q.stacks ≡ record p.stacks {
    scope_stack_postcondition = record q.scope_stack_postcondition {
      scopes = rest;
      variable = p.scope_stack_postcondition.variable;
    };
  }

resolve_cases :
    (g : StackGraph) (p q : PartialPath)
    → resolve_from_postcondition p g ≡ ok q
    → (q ≡ p) ⊎ Jumped g p q
unfolding resolve_from_postcondition
resolve_cases g p q e = elim (Option-cases (StackGraph.index g p.end_node)) [
  | inl missing ↦ absurd (ground arith)
  | inr (n, found) ↦ elim (Bool-cases (is_jump_to n)) [
    | inl jumps ↦ elim (List-cases p.scope_stack_postcondition.scopes) [
      | inl dry ↦ inl (ground arith)
      | inr (top, rest, popped) ↦ inr (record {
        node = n;
        rest = rest;
        found = found;
        jumps = jumps;
        popped = ground arith;
        start = ground arith;
        stacks = ground arith;
      })
    ]
    | inr stays ↦ inl (ground arith)
  ]
]

module _ (g : StackGraph) (p q : PartialPath) (j : Jumped g p q) (a : Assignment) where
  jumped_scopes : (postcondition a p.stacks).scopes ≡ q.end_node ∷ (postcondition a q.stacks).scopes
  unfolding postcondition scopes
  jumped_scopes = ground (arith, j.popped, j.stacks)

  jumped_symbols : (postcondition a p.stacks).symbols ≡ (postcondition a q.stacks).symbols
  unfolding postcondition
  jumped_symbols = ground (arith, j.stacks)

  jumped_precondition : precondition a p.stacks ≡ precondition a q.stacks
  unfolding precondition
  jumped_precondition = ground (arith, j.stacks)

module _ (g : StackGraph) (IsEdge : Edge → Type 0) where
  Jumped-IsSound : (p q : PartialPath) → Jumped g p q → IsSound g IsEdge p → IsSound g IsEdge q
  Jumped-IsSound p q j h = record {
    linked = λ v e. ground (arith, j.stacks, h.linked v);
    walks = λ a.
        subst (λ (z : Machine). Walk g IsEdge q.start_node z q.end_node (postcondition a q.stacks))
          (jumped_precondition g p q j a)
          (subst
            (λ (z : Handle).
              Walk g IsEdge z (precondition a p.stacks) q.end_node (postcondition a q.stacks))
            (sym j.start)
            (jump j.node (h.walks a) j.found j.jumps (jumped_scopes g p q j a)
              (jumped_symbols g p q j a)));
  }

  -- What `resolve_from_postcondition` makes of a sound path is sound.
  pub resolve_from_postcondition-IsSound :
      (p q : PartialPath)
      → resolve_from_postcondition p g ≡ ok q
      → IsSound g IsEdge p
      → IsSound g IsEdge q
  resolve_from_postcondition-IsSound p q e h = elim (resolve_cases g p q e) [
    | inl same ↦ subst (λ (z : PartialPath). IsSound g IsEdge z) (sym same) h
    | inr j ↦ Jumped-IsSound p q j h
  ]

  entered-IsSound :
      (node : Handle) (n : Node) (s : Stacks)
      → StackGraph.index g node ≡ some n
      → append_to_partial_stacks n g initial_stacks ≡ ok s
      → IsSound g IsEdge
          (record { start_node = node; end_node = node; stacks = s; edges = EdgeList.empty })
  unfolding precondition postcondition
  entered-IsSound node n s found lifted = record {
    linked = append_to_partial_stacks-IsLinked g n initial_stacks s lifted (λ v e. e);
    walks = λ a.
        let (b, pre, post) =
          append_to_partial_stacks-Sound g n initial_stacks s lifted (λ v e. e) a in
        subst (λ (z : Machine). Walk g IsEdge node z node (postcondition a s)) pre
          (enter n found post);
  }

  -- `from_node` gives a path that stands for the walks that enter the node.
  pub from_node-IsSound :
      (node : Handle) (p : PartialPath) → from_node g node ≡ ok p → IsSound g IsEdge p
  unfolding from_node
  from_node-IsSound node p e = elim (Option-cases (StackGraph.index g node)) [
    | inl missing ↦ absurd (ground arith)
    | inr (n, found) ↦ elim (Result-cases (append_to_partial_stacks n g initial_stacks)) [
      | inl (s, lifted) ↦
          subst (λ (z : PartialPath). IsSound g IsEdge z) (ground arith)
            (entered-IsSound node n s found lifted)
      | inr failed ↦ absurd (ground arith)
    ]
  ]

  extended-IsSound :
      (p : PartialPath) (source sink : Node) (e : Edge) (s : Stacks)
      → IsSound g IsEdge p
      → IsEdge e
      → e.source ≡ p.end_node
      → StackGraph.index g e.sink ≡ some sink
      → append_to_partial_stacks sink g p.stacks ≡ ok s
      → IsSound g IsEdge (extended p source e s)
  unfolding extended
  extended-IsSound p source sink e s h is_edge from found done = record {
    linked = append_to_partial_stacks-IsLinked g sink p.stacks s done h.linked;
    walks = λ a.
        let (b, pre, post) = append_to_partial_stacks-Sound g sink p.stacks s done h.linked a in
        subst (λ (z : Machine). Walk g IsEdge p.start_node z e.sink (postcondition a s)) pre
          (follow e sink (h.walks b) is_edge from refl found post);
  }

  -- A path that stands for walks still does when `append` extends it by an edge (and resolves a
  -- jump): the walks of the new path follow the old one's, the edge, and the jump.
  pub append-IsSound :
      (p q : PartialPath) (e : Edge)
      → append p g e ≡ ok q
      → IsEdge e
      → IsSound g IsEdge p
      → IsSound g IsEdge q
  unfolding append
  append-IsSound p q e run is_edge h = elim (Bool-cases (e.source == p.end_node)) [
    | inr other ↦ absurd (ground arith)
    | inl from ↦ elim (Option-cases (StackGraph.index g e.sink)) [
      | inl missing ↦ absurd (ground arith)
      | inr (sink, found) ↦ elim (Result-cases (append_to_partial_stacks sink g p.stacks)) [
        | inr failed ↦ absurd (ground arith)
        | inl (s, done) ↦ elim (Option-cases (StackGraph.index g e.source)) [
          | inl missing ↦ absurd (ground arith)
          | inr (source, there) ↦
              resolve_from_postcondition-IsSound (extended p source e s) q (ground arith)
                (extended-IsSound p source sink e s h is_edge ((==_iff _ _).0 from) found done)
        ]
      ]
    ]
  ]

  -- `append` along a sequence of edges, as far as it succeeds.
  pub data Built (start : Handle) : PartialPath → Type 0 where
    started : {p : PartialPath} → from_node g start ≡ ok p → Built start p
    appended :
        {p q : PartialPath} (e : Edge)
        → Built start p
        → IsEdge e
        → append p g e ≡ ok q
        → Built start q

  -- Whatever `from_node` and then `append` along edges of the graph build stands for walks: under
  -- every assignment of its variables a concrete walk leads from the precondition at the start node
  -- to the postcondition at the end node.
  pub Built-IsSound : {start : Handle} {p : PartialPath} → Built start p → IsSound g IsEdge p
  Built-IsSound (started e) = from_node-IsSound _ _ e
  Built-IsSound (appended {p} {q} e b is_edge run) =
      append-IsSound p q e run is_edge (Built-IsSound b)
