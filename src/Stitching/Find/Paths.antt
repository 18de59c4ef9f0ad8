-- ===== src/Stitching/Find/Paths.antt =====
-- The indexes of a `Database` (stack-graphs/src/stitching.rs), against its arena of partial paths.
use stack_graphs_muffet.Prelude.{
  zero, suc, ◌<◌, ◌≡◌, refl, ap, sym, ◌∙◌, subst, not, ◌&&◌, ◌==◌, inl, inr, Bool-cases, true,
  false, if◌then◌else◌, List, [], ◌∷◌, ◌++◌, length, arith, some,
}
use stack_graphs_muffet.Arena
use stack_graphs_muffet.Arena.{Arena, Handle}
use stack_graphs_muffet.Arena.Laws.{HasRoom, add-handle, get_bounds}
use stack_graphs_muffet.Arena.Supplemental
use stack_graphs_muffet.Arena.Supplemental.{SupplementalArena}
use stack_graphs_muffet.Graph.Edges.{Degree}
use stack_graphs_muffet.Graph.Edges.Count.{as_degree, as_degree-suc}
use stack_graphs_muffet.Graph.Node
use stack_graphs_muffet.Graph.Node.{Node}
use stack_graphs_muffet.Graph.StackGraph
use stack_graphs_muffet.Graph.StackGraph.{StackGraph}
use stack_graphs_muffet.Partial.Path.{PartialPath}
use stack_graphs_muffet.Partial.SymbolStack
use stack_graphs_muffet.Stitching
use stack_graphs_muffet.Stitching.{
  Database, PathIndex, entries, push_path, index_root_path, add_partial_path, count_path, degree,
  find_candidate_partial_paths, find_candidate_partial_paths_from_root,
  find_candidate_partial_paths_from_node, get_incoming_path_degree,
}
use stack_graphs_muffet.Stitching.Keys.{pushed}
use stack_graphs_muffet.Stitching.Index.{RootPath, entries-push_path}
use stack_graphs_muffet.Stitching.Adding.{root_path, HasRoots, new-HasRoots, index_root_path_lem}
use stack_graphs_muffet.Stitching.Find.{root_candidates, find_candidate_partial_paths_from_root_lem}
use stack_graphs_muffet.Stitching.Find.Stores.{
  root_paths-added, node_paths-added, paths_to-snoc, degree-count_path, is_root_at, node_paths,
  paths_to, root_paths,
}

-- The indexes hold the paths of the arena, in its order, and no others.
pub record IsComplete (g : StackGraph) (db : Database) : Type 0 where
  pub roots : HasRoots db (root_paths g 1 db.partial_paths.items)
  pub starts :
      (node : Handle)
      → 0 < node
      → entries db.paths_by_start_node node ≡ node_paths g node 1 db.partial_paths.items
  pub degrees :
      (node : Handle)
      → 0 < node
      → degree db.incoming_paths node ≡ as_degree (paths_to node db.partial_paths.items)

IsComplete-add :
    (g : StackGraph) (db db' : Database) (path : PartialPath)
    → IsComplete g db
    → 0 < path.end_node
    → db'.partial_paths.items ≡ db.partial_paths.items ++ path ∷ []
    → HasRoots db' (root_paths g 1 (db.partial_paths.items ++ path ∷ []))
    → ((node : Handle)
        → 0 < node
        → entries db'.paths_by_start_node node ≡ (
            if not (is_root_at g path.start_node) && (path.start_node == node)
            then entries db.paths_by_start_node node ++ suc (length db.partial_paths.items) ∷ []
            else entries db.paths_by_start_node node))
    → db'.incoming_paths ≡ count_path db.incoming_paths path.end_node
    → IsComplete g db'
IsComplete-add g db db' path i he items roots starts degrees = record {
  roots = subst (λ z. HasRoots db' (root_paths g 1 z)) (sym items) roots;
  starts = λ node h.
      let known = i.starts node h in
      let all = starts node h in
      let more = node_paths-added g node db.partial_paths.items path in
      subst (λ z. entries db'.paths_by_start_node node ≡ node_paths g node 1 z) (sym items)
        (starts_at node known all more);
  degrees = λ node h.
      subst (λ z. degree db'.incoming_paths node ≡ as_degree (paths_to node z)) (sym items)
        (subst
          (λ z. degree z node ≡ as_degree (paths_to node (db.partial_paths.items ++ path ∷ [])))
          (sym degrees) (ends_at node h));
}
  where
    starts_at :
        (node : Handle)
        → entries db.paths_by_start_node node ≡ node_paths g node 1 db.partial_paths.items
        → entries db'.paths_by_start_node node ≡ (
            if not (is_root_at g path.start_node) && (path.start_node == node)
            then entries db.paths_by_start_node node ++ suc (length db.partial_paths.items) ∷ []
            else entries db.paths_by_start_node node)
        → node_paths g node 1 (db.partial_paths.items ++ path ∷ []) ≡ (
            if not (is_root_at g path.start_node) && (path.start_node == node)
            then node_paths g node 1 db.partial_paths.items
              ++ suc (length db.partial_paths.items) ∷ []
            else node_paths g node 1 db.partial_paths.items)
        → entries db'.paths_by_start_node node
          ≡ node_paths g node 1 (db.partial_paths.items ++ path ∷ [])
    starts_at node known all more =
        elim (Bool-cases (not (is_root_at g path.start_node) && (path.start_node == node))) [
          | inl here ↦ ground (arith, here, known, all, more)
          | inr away ↦ ground (arith, away, known, all, more)
        ]

    ends_at :
        (node : Handle)
        → 0 < node
        → degree (count_path db.incoming_paths path.end_node) node
          ≡ as_degree (paths_to node (db.partial_paths.items ++ path ∷ []))
    ends_at node h =
        let read = degree-count_path db.incoming_paths path.end_node node he h in
        let known = i.degrees path.end_node he in
        let more = paths_to-snoc node db.partial_paths.items path in
        elim (Bool-cases (path.end_node == node)) [
          | inl here ↦
              let one : path.end_node ≡ node = ground (arith, here) in
              let counted : paths_to path.end_node db.partial_paths.items
                  ≡ paths_to node db.partial_paths.items =
                ap (λ z. paths_to z db.partial_paths.items) one in
              ground (
                arith,
                here,
                read,
                known,
                more,
                counted,
                as_degree-suc (paths_to node db.partial_paths.items),
              )
          | inr away ↦ ground (arith, away, read, i.degrees node h, more)
        ]

-- In a database whose indexes hold exactly its paths, `add_partial_path` returns, gives the path the next
-- handle, and leaves indexes that hold exactly the paths with the new one. The start node of the path is
-- in the graph, its end node is not 0, and there is room for the path and its keys.
pub add_partial_path-IsComplete :
    (g : StackGraph) (db : Database) (path : PartialPath) (start : Node)
    → IsComplete g db
    → StackGraph.index g path.start_node ≡ some start
    → 0 < path.end_node
    → HasRoom 1 db.partial_paths
    → HasRoom (length path.symbol_stack_precondition.symbols) db.keys.cells
    → (db' : Database) × (add_partial_path db g path
        ≡ some (db', suc (length db.partial_paths.items)))
      × (db'.partial_paths ≡ (Arena.add db.partial_paths path).0)
      × IsComplete g db'
unfolding is_root_at StackGraph.index
add_partial_path-IsComplete g db path start i at he room keys =
    elim (Bool-cases (Node.is_root start)) [
      | inl root ↦
          let root_here : is_root_at g path.start_node ≡ true = ground (arith, at, root) in
          let run =
            index_root_path_lem db1 ps path.symbol_stack_precondition h (same_roots i.roots) keys in
          let db2 = run.0 in
          let same = run.3 in
          let db' : Database = record db2 {
            incoming_paths = count_path db2.incoming_paths path.end_node;
          } in
          let step : add_partial_path db g path ≡ some (db', h) =
            unfold add_partial_path in
            ground (arith, at, root, run.1, add-handle db.partial_paths path room) in
          let roots : HasRoots db' (root_paths g 1 (db.partial_paths.items ++ path ∷ [])) =
            subst (HasRoots db')
              (sym (root_paths-added g db.partial_paths.items path ∙ ground (arith, root_here)))
              (counted_roots db2 (ps ++ root_path path.symbol_stack_precondition h ∷ [])
                (count_path db2.incoming_paths path.end_node) run.2) in
          (
            db',
            step,
            same.same_paths,
            IsComplete-add g db db' path i he
                (ap (λ (z : Arena PartialPath). z.items) same.same_paths ∙ unfold Arena.add in refl)
                roots
                (λ node hn. ap (λ z. entries z node) same.same_starts ∙ ground (arith, root_here))
                (ap (λ z. count_path z path.end_node) same.same_degrees),
          )
      | inr other ↦
          let other_here : is_root_at g path.start_node ≡ false = ground (arith, at, other) in
          let db' : Database = record db1 {
            paths_by_start_node = push_path db.paths_by_start_node path.start_node h;
            incoming_paths = count_path db.incoming_paths path.end_node;
          } in
          let step : add_partial_path db g path ≡ some (db', h) =
            unfold add_partial_path in
            ground (arith, at, other, add-handle db.partial_paths path room) in
          let roots : HasRoots db' (root_paths g 1 (db.partial_paths.items ++ path ∷ [])) =
            subst (HasRoots db')
              (sym (root_paths-added g db.partial_paths.items path ∙ ground (arith, other_here)))
              (record {
                keyed = i.roots.keyed;
                backed = i.roots.backed;
                with_variable = i.roots.with_variable;
                without_variable = i.roots.without_variable;
                prefixes = i.roots.prefixes;
              }) in
          (
            db',
            step,
            refl,
            IsComplete-add g db db' path i he (unfold Arena.add in refl) roots
                (λ node hn. entries-start node hn other_here) refl,
          )
    ]
  where
    h : Handle
    h = suc (length db.partial_paths.items)

    db1 : Database
    db1 = record db { partial_paths = (Arena.add db.partial_paths path).0 }

    ps : List RootPath
    ps = root_paths g 1 db.partial_paths.items

    same_roots : HasRoots db ps → HasRoots db1 ps
    same_roots r = record {
      keyed = r.keyed;
      backed = r.backed;
      with_variable = r.with_variable;
      without_variable = r.without_variable;
      prefixes = r.prefixes;
    }

    counted_roots :
        (d : Database) (qs : List RootPath) (degrees : SupplementalArena Degree)
        → HasRoots d qs
        → HasRoots (record d { incoming_paths = degrees }) qs
    counted_roots d qs degrees r = record {
      keyed = r.keyed;
      backed = r.backed;
      with_variable = r.with_variable;
      without_variable = r.without_variable;
      prefixes = r.prefixes;
    }

    start_bound : 0 < path.start_node
    start_bound = (get_bounds g.nodes path.start_node start at).0

    entries-start :
        (node : Handle)
        → 0 < node
        → is_root_at g path.start_node ≡ false
        → entries (push_path db.paths_by_start_node path.start_node h) node ≡ (
            if not (is_root_at g path.start_node) && (path.start_node == node)
            then entries db.paths_by_start_node node ++ h ∷ []
            else entries db.paths_by_start_node node)
    entries-start node hn other =
        let read = entries-push_path db.paths_by_start_node path.start_node node h start_bound hn in
        elim (Bool-cases (path.start_node == node)) [
          | inl here ↦
              let one : path.start_node ≡ node = ground (arith, here) in
              let lists : entries db.paths_by_start_node path.start_node
                  ≡ entries db.paths_by_start_node node =
                ap (λ z. entries db.paths_by_start_node z) one in
              ground (arith, here, read, other, lists)
          | inr away ↦ ground (arith, away, read, other)
        ]

-- An empty database is complete.
pub new-IsComplete : (g : StackGraph) → IsComplete g Stitching.new
new-IsComplete g = record {
  roots = unfold root_paths Stitching.new Arena.new in new_roots;
  starts = λ node h.
      unfold node_paths Stitching.new Arena.new Supplemental.new Supplemental.get in no_starts node;
  degrees = λ node h.
      unfold paths_to as_degree Stitching.new Arena.new Supplemental.new Supplemental.get in
      no_degrees node;
}
  where
    new_roots : HasRoots Stitching.new []
    new_roots = new-HasRoots

    no_starts : (node : Handle) → entries (record { items = [] }) node ≡ []
    no_starts zero = unfold Supplemental.get in refl
    no_starts (suc n) = unfold Supplemental.get in refl

    no_degrees : (node : Handle) → degree (record { items = [] }) node ≡ Degree.zero
    no_degrees zero = unfold Supplemental.get in refl
    no_degrees (suc n) = unfold Supplemental.get in refl

-- The candidates of a path, from the list of all paths.
unfoldable pub candidates : StackGraph → Database → PartialPath → List Handle
unfolding is_root_at SymbolStack.has_variable pushed
candidates g db path =
    if is_root_at g path.end_node
    then root_candidates (root_paths g 1 db.partial_paths.items)
        (pushed [] path.symbol_stack_postcondition.symbols)
        (SymbolStack.has_variable path.symbol_stack_postcondition)
    else node_paths g path.end_node 1 db.partial_paths.items

-- In a database whose indexes hold exactly its paths, `find_candidate_partial_paths` returns the candidates
-- that `candidates` takes from the list of all paths, and leaves such a database with the same paths. The
-- end node of the path is in the graph, and there is room for the keys.
pub find_candidate_partial_paths_lem :
    (g : StackGraph) (db : Database) (path : PartialPath) (end : Node)
    → IsComplete g db
    → StackGraph.index g path.end_node ≡ some end
    → HasRoom (length path.symbol_stack_postcondition.symbols) db.keys.cells
    → (db' : Database) × (find_candidate_partial_paths db g path ≡ some (db', candidates g db path))
      × (db'.partial_paths ≡ db.partial_paths)
      × IsComplete g db'
unfolding StackGraph.index
find_candidate_partial_paths_lem g db path end i at keys = elim (Bool-cases (Node.is_root end)) [
  | inl root ↦
      let run =
        find_candidate_partial_paths_from_root_lem db (root_paths g 1 db.partial_paths.items)
          path.symbol_stack_postcondition i.roots keys in
      let step : find_candidate_partial_paths db g path ≡ some (run.0, candidates g db path) =
        unfold find_candidate_partial_paths candidates is_root_at in
        ground (arith, at, root, run.1) in
      let same = run.3 in
      (
        run.0,
        step,
        same.same_paths,
        record {
          roots =
              subst (λ (z : Arena PartialPath). HasRoots run.0 (root_paths g 1 z.items))
                (sym same.same_paths) run.2;
          starts = λ node h.
              ap (λ z. entries z node) same.same_starts
              ∙ i.starts node h
              ∙ ap (λ (z : Arena PartialPath). node_paths g node 1 z.items) (sym same.same_paths);
          degrees = λ node h.
              ap (λ z. degree z node) same.same_degrees
              ∙ i.degrees node h
              ∙ ap (λ (z : Arena PartialPath). as_degree (paths_to node z.items))
                  (sym same.same_paths);
        },
      )
  | inr other ↦
      let start = i.starts path.end_node (get_bounds g.nodes path.end_node end at).0 in
      let step : find_candidate_partial_paths db g path ≡ some (db, candidates g db path) =
        unfold find_candidate_partial_paths candidates is_root_at
          find_candidate_partial_paths_from_node in
        ground (arith, at, other, start) in
      (db, step, refl, i)
]

-- A degree that the database gives is zero, one or multiple as the number of its paths to the node is.
get_incoming_path_degree_lem :
    (g : StackGraph) (db : Database) (node : Handle) (d : Degree)
    → IsComplete g db
    → 0 < node
    → get_incoming_path_degree db node ≡ some d
    → d ≡ as_degree (paths_to node db.partial_paths.items)
unfolding get_incoming_path_degree
get_incoming_path_degree_lem g db node d i h e = ground (arith, i.degrees node h, e)
