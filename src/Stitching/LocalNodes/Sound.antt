-- ===== src/Stitching/LocalNodes/Sound.antt =====
-- What the marks of `find_local_nodes` (stack-graphs/src/stitching.rs) mean.
use stack_graphs_muffet.Prelude.{
  ◌≡◌, refl, sym, subst, ◌&&◌, ◌||◌, ◌==◌, not, inl, inr, Bool, Bool-cases, true, false, List, [],
  ◌∷◌, arith,
}
use stack_graphs_muffet.Arena.{Handle}
use stack_graphs_muffet.Arena.HandleSet
use stack_graphs_muffet.Arena.HandleSet.{HandleSet, contains}
use stack_graphs_muffet.Arena.HandleSet.Laws.{contains-add, contains-remove}
use stack_graphs_muffet.Graph.StackGraph.{root_node, jump_to_node}
use stack_graphs_muffet.Partial.Path.{PartialPath}
use stack_graphs_muffet.Stitching.LocalNodes.{
  Marks, check_forwards, check_backwards, check_paths, add_endpoints, initial_marks,
}

pub data Among (p : PartialPath) : List PartialPath → Type 0 where
  here : (ps : List PartialPath) → Among p (p ∷ ps)
  there : (q : PartialPath) (ps : List PartialPath) → Among p ps → Among p (q ∷ ps)

-- The nodes to which a sequence of paths leads from the root or from the jump-to node.
pub data FromRoot (ps : List PartialPath) : Handle → Type 0 where
  at_root : FromRoot ps root_node
  at_jump_to : FromRoot ps jump_to_node
  follow : (p : PartialPath) → Among p ps → FromRoot ps p.start_node → FromRoot ps p.end_node

-- The nodes from which a sequence of paths leads to the root or to the jump-to node.
pub data ToRoot (ps : List PartialPath) : Handle → Type 0 where
  at_root : ToRoot ps root_node
  at_jump_to : ToRoot ps jump_to_node
  precede : (p : PartialPath) → Among p ps → ToRoot ps p.end_node → ToRoot ps p.start_node

-- Whether a path starts or ends at the node.
unfoldable pub is_endpoint : Handle → List PartialPath → Bool
is_endpoint n [] = false
is_endpoint n (p ∷ ps) = (p.start_node == n) || ((p.end_node == n) || is_endpoint n ps)

pub record IsSound (ps : List PartialPath) (m : Marks) : Type 0 where
  pub local :
      (n : Handle)
      → contains m.local_nodes n
        ≡ (is_endpoint n ps && (not (contains m.starts n) && not (contains m.ends n)))
  pub from : (n : Handle) → contains m.starts n ≡ true → FromRoot ps n
  pub to : (n : Handle) → contains m.ends n ≡ true → ToRoot ps n
  pub start_root : contains m.starts root_node ≡ true
  pub start_jump_to : contains m.starts jump_to_node ≡ true
  pub end_root : contains m.ends root_node ≡ true
  pub end_jump_to : contains m.ends jump_to_node ≡ true

check_forwards-IsSound :
    (ps : List PartialPath) (m : Marks) (p : PartialPath)
    → Among p ps
    → IsSound ps m
    → IsSound ps (check_forwards m p)
check_forwards-IsSound ps m p at i =
    elim (Bool-cases (contains m.starts p.start_node && not (contains m.starts p.end_node))) [
      | inr no_change ↦
          let step : check_forwards m p ≡ m = unfold check_forwards in ground (arith, no_change) in
          subst (IsSound ps) (sym step) i
      | inl change ↦
          let m' : Marks = record m {
            keep_checking = true;
            starts = HandleSet.add m.starts p.end_node;
            local_nodes = HandleSet.remove m.local_nodes p.end_node;
          } in
          let step : check_forwards m p ≡ m' = unfold check_forwards in ground (arith, change) in
          let before = i.from p.start_node (ground (arith, change)) in
          subst (IsSound ps) (sym step) (record {
            local = λ n. ground (
              arith,
              i.local n,
              contains-add m.starts p.end_node n,
              contains-remove m.local_nodes p.end_node n,
            );
            from = λ n e. elim (Bool-cases (p.end_node == n)) [
              | inl one ↦
                  let same : p.end_node ≡ n = ground (arith, one) in
                  subst (FromRoot ps) same (follow p at before)
              | inr two ↦ i.from n (ground (arith, e, two, contains-add m.starts p.end_node n))
            ];
            to = i.to;
            start_root = ground (arith, i.start_root, contains-add m.starts p.end_node root_node);
            start_jump_to =
                ground (arith, i.start_jump_to, contains-add m.starts p.end_node jump_to_node);
            end_root = i.end_root;
            end_jump_to = i.end_jump_to;
          })
    ]

check_backwards-IsSound :
    (ps : List PartialPath) (m : Marks) (p : PartialPath)
    → Among p ps
    → IsSound ps m
    → IsSound ps (check_backwards m p)
check_backwards-IsSound ps m p at i =
    elim (Bool-cases (not (contains m.ends p.start_node) && contains m.ends p.end_node)) [
      | inr no_change ↦
          let step : check_backwards m p ≡ m =
            unfold check_backwards in ground (arith, no_change) in
          subst (IsSound ps) (sym step) i
      | inl change ↦
          let m' : Marks = record m {
            keep_checking = true;
            ends = HandleSet.add m.ends p.start_node;
            local_nodes = HandleSet.remove m.local_nodes p.start_node;
          } in
          let step : check_backwards m p ≡ m' = unfold check_backwards in ground (arith, change) in
          let after = i.to p.end_node (ground (arith, change)) in
          subst (IsSound ps) (sym step) (record {
            local = λ n. ground (
              arith,
              i.local n,
              contains-add m.ends p.start_node n,
              contains-remove m.local_nodes p.start_node n,
            );
            from = i.from;
            to = λ n e. elim (Bool-cases (p.start_node == n)) [
              | inl one ↦
                  let same : p.start_node ≡ n = ground (arith, one) in
                  subst (ToRoot ps) same (precede p at after)
              | inr two ↦ i.to n (ground (arith, e, two, contains-add m.ends p.start_node n))
            ];
            start_root = i.start_root;
            start_jump_to = i.start_jump_to;
            end_root = ground (arith, i.end_root, contains-add m.ends p.start_node root_node);
            end_jump_to =
                ground (arith, i.end_jump_to, contains-add m.ends p.start_node jump_to_node);
          })
    ]

-- All of `qs` stand in `ps`.
abbrev pub Within : List PartialPath → List PartialPath → Type 0
Within qs ps = (p : PartialPath) → Among p qs → Among p ps

pub Within-tail : (q : PartialPath) (qs ps : List PartialPath) → Within (q ∷ qs) ps → Within qs ps
Within-tail q qs ps w p at = w p (there q qs at)

pub check_paths-IsSound :
    (ps : List PartialPath) (m : Marks) (qs : List PartialPath)
    → Within qs ps
    → IsSound ps m
    → IsSound ps (check_paths m qs)
unfolding check_paths
check_paths-IsSound ps m [] w i = i
check_paths-IsSound ps m (q ∷ qs) w i =
    let at = w q (here qs) in
    check_paths-IsSound ps (check_backwards (check_forwards m q) q) qs (Within-tail q qs ps w)
      (check_backwards-IsSound ps (check_forwards m q) q at (check_forwards-IsSound ps m q at i))

contains-add_endpoints :
    (nodes : HandleSet) (ps : List PartialPath) (n : Handle)
    → contains (add_endpoints nodes ps) n ≡ (is_endpoint n ps || contains nodes n)
unfolding add_endpoints is_endpoint
contains-add_endpoints nodes [] n = refl
contains-add_endpoints nodes (p ∷ ps) n =
    let once = HandleSet.add nodes p.start_node in
    ground (
      arith,
      contains-add_endpoints (HandleSet.add once p.end_node) ps n,
      contains-add once p.end_node n,
      contains-add nodes p.start_node n,
    )

contains-clear : (nodes : HandleSet) (n : Handle) → contains (HandleSet.clear nodes) n ≡ false
unfolding contains HandleSet.clear
contains-clear nodes n = refl

abbrev two_roots : HandleSet
two_roots = HandleSet.add (HandleSet.add HandleSet.new root_node) jump_to_node

contains-two_roots : (n : Handle) → contains two_roots n ≡ ((1 == n) || (2 == n))
contains-two_roots n = ground (
  arith,
  contains-add (HandleSet.add HandleSet.new root_node) jump_to_node n,
  contains-add HandleSet.new root_node n,
  contains-new n,
)
  where
    contains-new : (n : Handle) → contains HandleSet.new n ≡ false
    contains-new n = unfold contains HandleSet.new in refl

pub initial_marks-IsSound :
    (nodes : HandleSet) (ps : List PartialPath) → IsSound ps (initial_marks nodes ps)
unfolding initial_marks
initial_marks-IsSound nodes ps = record {
  local = λ n.
      let all = add_endpoints (HandleSet.clear nodes) ps in
      ground (
        arith,
        contains-remove (HandleSet.remove all root_node) jump_to_node n,
        contains-remove all root_node n,
        contains-add_endpoints (HandleSet.clear nodes) ps n,
        contains-clear nodes n,
        contains-two_roots n,
      );
  from = λ n e. elim (Bool-cases (1 == n)) [
    | inl one ↦ subst (FromRoot ps) (ground (arith, one)) at_root
    | inr other ↦
        let two : 2 ≡ n = ground (arith, e, other, contains-two_roots n) in
        subst (FromRoot ps) two at_jump_to
  ];
  to = λ n e. elim (Bool-cases (1 == n)) [
    | inl one ↦ subst (ToRoot ps) (ground (arith, one)) at_root
    | inr other ↦
        let two : 2 ≡ n = ground (arith, e, other, contains-two_roots n) in
        subst (ToRoot ps) two at_jump_to
  ];
  start_root = ground (arith, contains-two_roots 1);
  start_jump_to = ground (arith, contains-two_roots 2);
  end_root = ground (arith, contains-two_roots 1);
  end_jump_to = ground (arith, contains-two_roots 2);
}

-- Marks that no path changes.
pub record IsClosed (ps : List PartialPath) (m : Marks) : Type 0 where
  pub forwards :
      (p : PartialPath)
      → Among p ps
      → contains m.starts p.start_node ≡ true
      → contains m.starts p.end_node ≡ true
  pub backwards :
      (p : PartialPath)
      → Among p ps
      → contains m.ends p.end_node ≡ true
      → contains m.ends p.start_node ≡ true

pub FromRoot-contains :
    (ps : List PartialPath) (m : Marks) (n : Handle)
    → IsSound ps m
    → IsClosed ps m
    → FromRoot ps n
    → contains m.starts n ≡ true
FromRoot-contains ps m n i c at_root = i.start_root
FromRoot-contains ps m n i c at_jump_to = i.start_jump_to
FromRoot-contains ps m n i c (follow p at r) =
    c.forwards p at (FromRoot-contains ps m p.start_node i c r)

pub ToRoot-contains :
    (ps : List PartialPath) (m : Marks) (n : Handle)
    → IsSound ps m
    → IsClosed ps m
    → ToRoot ps n
    → contains m.ends n ≡ true
ToRoot-contains ps m n i c at_root = i.end_root
ToRoot-contains ps m n i c at_jump_to = i.end_jump_to
ToRoot-contains ps m n i c (precede p at r) =
    c.backwards p at (ToRoot-contains ps m p.end_node i c r)
