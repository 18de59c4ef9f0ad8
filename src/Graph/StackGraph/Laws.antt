-- ===== src/Graph/StackGraph/Laws.antt =====
-- Adding nodes to a `StackGraph` (stack-graphs/src/graph.rs) and finding them by their identifiers.
use stack_graphs_muffet.Prelude.{
  ℕ, zero, suc, ◌+◌, ◌-◌, ◌<◌, ◌≡◌, ◌≢◌, refl, ap, sym, ◌∙◌, subst, ◌==◌, ◌&&◌, ==_refl, ==_iff,
  leb, if◌then◌else◌, List, [], ◌∷◌, ◌++◌, Option, none, some, arith, set, length, replicate,
  Bool-cases, inl, inr, length-append, length-replicate, get_elem?-set_self, get_elem?-set_ne,
  get_elem?_beyond, Option-cases,
}
use stack_graphs_muffet.Arena
use stack_graphs_muffet.Arena.{Arena, Handle}
use stack_graphs_muffet.Arena.Laws.{HasRoom, get-add_self}
use stack_graphs_muffet.Arena.Supplemental
use stack_graphs_muffet.Arena.Supplemental.Laws.{get-put_or_default}
use stack_graphs_muffet.Graph.NodeId
use stack_graphs_muffet.Graph.NodeId.{NodeId}
use stack_graphs_muffet.Graph.Node.{Node}
use stack_graphs_muffet.Graph.StackGraph.{
  StackGraph, NodeIdHandles, entry_at, file_entry, resized, try_handle_for_id, handle_for_id,
  set_handle_for_id, node_for_id, add_node, store_node, index,
}

-- The handle of node `i` of file `f`.
abbrev found : NodeIdHandles → Handle → ℕ → Option Handle
found files f i = entry_at (file_entry files f) i

entry-replicate : (n j : ℕ) → entry_at (replicate n none) j ≡ none
entry-replicate zero j = refl
entry-replicate (suc n) zero = refl
entry-replicate (suc n) (suc j) = entry-replicate n j

entry-append :
    (es : List (Option Handle)) (n j : ℕ) → entry_at (es ++ replicate n none) j ≡ entry_at es j
entry-append [] n j = entry-replicate n j
entry-append (e ∷ es) n zero = refl
entry-append (e ∷ es) n (suc j) = entry-append es n j

entry-resized : (es : List (Option Handle)) (i j : ℕ) → entry_at (resized es i) j ≡ entry_at es j
unfolding resized
entry-resized es i j = elim (Bool-cases (leb (length es) i)) [
  | inl short ↦ ground (arith, entry-append es (i + 1 - length es) j)
  | inr long ↦ ground arith
]

length-resized : (es : List (Option Handle)) (i : ℕ) → i < length (resized es i)
unfolding resized
length-resized es i = ground (
  arith,
  length-append es (replicate (i + 1 - length es) none),
  length-replicate {A = Option Handle} (i + 1 - length es) none,
)

entry-set :
    (es : List (Option Handle)) (i j : ℕ) (h : Handle)
    → entry_at (set (resized es i) i (some h)) j ≡ (if i == j then some h else entry_at es j)
entry-set es i j h = elim (Bool-cases (i == j)) [
  | inl same ↦
      let e : i ≡ j = (==_iff i j).0 same in
      ground (arith, get_elem?-set_self (resized es i) i (some h), length-resized es i)
  | inr other ↦
      let n : i ≢ j = ground arith in
      ground (arith, get_elem?-set_ne (resized es i) i j (some h) n, entry-resized es i j)
]

-- A file's entry is read back after it is stored, and other files keep theirs.
file_entry-put :
    (files : NodeIdHandles) (f k : ℕ) (es : List (Option Handle))
    → file_entry (Supplemental.put_or_default [] files (suc f) es) (suc k)
      ≡ (if f == k then es else file_entry files (suc k))
unfolding Supplemental.get
file_entry-put files f k es =
    ground (arith, get-put_or_default [] files f k es, get_elem?_beyond files.items k)

-- The files after the handle `h` is stored for node `i` of file `f`.
abbrev stored : NodeIdHandles → ℕ → ℕ → Handle → NodeIdHandles
stored files f i h =
    let grown =
      Supplemental.put_or_default [] files (suc f) (resized (file_entry files (suc f)) i) in
    Supplemental.put_or_default [] grown (suc f) (set (file_entry grown (suc f)) i (some h))

found-stored :
    (files : NodeIdHandles) (f i k j : ℕ) (h : Handle)
    → found (stored files f i h) (suc k) j
      ≡ (if (f == k) && (i == j) then some h else found files (suc k) j)
found-stored files f i k j h =
    let es = file_entry files (suc f) in
    let grown = Supplemental.put_or_default [] files (suc f) (resized es i) in
    let this : file_entry grown (suc f) ≡ resized es i =
      file_entry-put files f f (resized es i) ∙ rw (==_refl f) in
    subst
      (λ (z : List (Option Handle)).
        found (Supplemental.put_or_default [] grown (suc f) (set z i (some h))) (suc k) j
        ≡ (if (f == k) && (i == j) then some h else found files (suc k) j))
      (sym this)
      (rw
        (
          file_entry-put grown f k (set (resized es i) i (some h)),
          file_entry-put files f k (resized es i),
        )
        (elim (Bool-cases (f == k)) [
          | inl same ↦
              subst
                (λ (z : ℕ).
                  entry_at
                    (if f == z
                      then set (resized es i) i (some h)
                      else (if f == z then resized es i else file_entry files (suc z)))
                    j
                  ≡ (if (f == z) && (i == j) then some h else found files (suc z) j))
                ((==_iff f k).0 same) (ground (arith, ==_refl f, entry-set es i j h))
          | inr other ↦ ground arith
        ]))

-- Resizing an entry changes no lookup.
found-resized :
    (files : NodeIdHandles) (f i k j : ℕ)
    → found
        (Supplemental.put_or_default [] files (suc f) (resized (file_entry files (suc f)) i))
        (suc k)
        j
      ≡ found files (suc k) j
found-resized files f i k j =
    let es = file_entry files (suc f) in
    rw (file_entry-put files f k (resized es i)) (elim (Bool-cases (f == k)) [
      | inl same ↦
          let e : f ≡ k = (==_iff f k).0 same in
          rw same (entry-resized es i j ∙ ap (λ (z : ℕ). entry_at (file_entry files (suc z)) j) e)
      | inr other ↦ rw other
    ])

-- What a graph answers for an identifier of a file.
node_for_id-file :
    (g : StackGraph) (f i : ℕ)
    → node_for_id g (NodeId.new_in_file (suc f) i) ≡ found g.node_id_handles (suc f) i
unfolding node_for_id try_handle_for_id
node_for_id-file g f i = elim (Option-cases (found g.node_id_handles (suc f) i)) [
  | inl none_e ↦ rw none_e
  | inr (h, e) ↦ rw e
]

-- What `add_node` does for an identifier of a file, written in terms of the files' entries.
add_node_lem :
    (g : StackGraph) (f i : ℕ) (n : Node)
    → found g.node_id_handles (suc f) i ≡ none
    → add_node g (NodeId.new_in_file (suc f) i) n
      ≡ some (
        record {
          nodes = (Arena.add g.nodes n).0;
          node_id_handles = stored g.node_id_handles f i (Arena.add g.nodes n).1;
        },
        some (Arena.add g.nodes n).1,
      )
unfolding add_node handle_for_id store_node set_handle_for_id
add_node_lem g f i n e = ground (arith, entry-resized (file_entry g.node_id_handles (suc f)) i i)

-- An identifier of a file for which `node_for_id` finds nothing is one that `add_node` takes, if
-- the arena has room for a node: the result is a handle that reads as the node, the identifier
-- now stands for the handle, and every other identifier of a file stands for what it did before.
pub add_node-fresh :
    (g : StackGraph) (f i k j : ℕ) (n : Node)
    → HasRoom 1 g.nodes
    → node_for_id g (NodeId.new_in_file (suc f) i) ≡ none
    → (g' : StackGraph) × (h : Handle) × (add_node g (NodeId.new_in_file (suc f) i) n
        ≡ some (g', some h))
      × (index g' h ≡ some n)
      × (node_for_id g' (NodeId.new_in_file (suc k) j)
          ≡ (if (f == k) && (i == j) then some h else node_for_id g (NodeId.new_in_file (suc k) j)))
unfolding index
add_node-fresh g f i k j n room fresh =
    let h : Handle = (Arena.add g.nodes n).1 in
    let g' : StackGraph = record {
      nodes = (Arena.add g.nodes n).0;
      node_id_handles = stored g.node_id_handles f i h;
    } in
    (
      g',
      h,
      add_node_lem g f i n (sym (node_for_id-file g f i) ∙ fresh),
      get-add_self g.nodes n room,
      rw (node_for_id-file g' k j, node_for_id-file g k j)
          (found-stored g.node_id_handles f i k j h),
    )

-- An identifier of a file that already stands for a node is refused by `add_node`: the result has
-- no handle, the nodes are the ones of the graph, and every identifier of a file stands for what
-- it did before.
pub add_node-taken :
    (g : StackGraph) (f i k j : ℕ) (n : Node) (h : Handle)
    → node_for_id g (NodeId.new_in_file (suc f) i) ≡ some h
    → (g' : StackGraph) × (add_node g (NodeId.new_in_file (suc f) i) n ≡ some (g', none))
      × (g'.nodes ≡ g.nodes)
      × (node_for_id g' (NodeId.new_in_file (suc k) j)
          ≡ node_for_id g (NodeId.new_in_file (suc k) j))
unfolding add_node handle_for_id
add_node-taken g f i k j n h taken =
    let es = file_entry g.node_id_handles (suc f) in
    let files = Supplemental.put_or_default [] g.node_id_handles (suc f) (resized es i) in
    let g' : StackGraph = record g { node_id_handles = files } in
    let e : entry_at (resized es i) i ≡ some h =
      entry-resized es i i ∙ sym (node_for_id-file g f i) ∙ taken in
    (
      g',
      ground (arith, e),
      refl,
      rw (node_for_id-file g' k j, node_for_id-file g k j)
          (found-resized g.node_id_handles f i k j),
    )
