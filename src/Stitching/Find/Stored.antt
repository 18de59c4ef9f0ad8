-- ===== src/Stitching/Find/Stored.antt =====
-- Finding the root paths that a `Database` (stack-graphs/src/stitching.rs) stores.
use stack_graphs_muffet.Prelude.{
  ℕ, suc, ◌+◌, ◌<◌, ◌≡◌, refl, sym, subst, ◌==◌, inl, inr, List-cases, ◌&&◌, Bool, Bool-cases, true,
  false, if◌then◌else◌, List, [], ◌∷◌, ◌++◌, length, arith, some,
}
use stack_graphs_muffet.Arena.{Handle}
use stack_graphs_muffet.Arena.Laws.{HasRoom}
use stack_graphs_muffet.Graph.StackGraph
use stack_graphs_muffet.Graph.StackGraph.{StackGraph}
use stack_graphs_muffet.Graph.Node.{Node}
use stack_graphs_muffet.Partial.Path.{PartialPath}
use stack_graphs_muffet.Partial.SymbolStack
use stack_graphs_muffet.Partial.SymbolStack.{PartialSymbolStack}
use stack_graphs_muffet.Partial.ScopedSymbol.{PartialScopedSymbol}
use stack_graphs_muffet.Stitching.{Database, find_candidate_partial_paths}
use stack_graphs_muffet.Stitching.Keys.{pushed}
use stack_graphs_muffet.Stitching.Index.{RootPath}
use stack_graphs_muffet.Stitching.Adding.{root_path}
use stack_graphs_muffet.Stitching.Find.{root_candidates}
use stack_graphs_muffet.Stitching.Find.Once.{
  occurrences, passing, nonempty, fits, indexed, occurrences-root_candidates,
}
use stack_graphs_muffet.Stitching.Find.Stores.{is_root_at, root_paths}
use stack_graphs_muffet.Stitching.Find.Paths.{
  IsComplete, candidates, find_candidate_partial_paths_lem,
}

-- The handles before the first one are those of no path.
passing-older :
    (g : StackGraph) (test : RootPath → Bool) (h n : ℕ) (ps : List PartialPath)
    → h < n
    → passing h test (root_paths g n ps) ≡ 0
unfolding passing root_paths root_path
passing-older g test h n [] lt = refl
passing-older g test h n (p ∷ ps) lt = elim (Bool-cases (is_root_at g p.start_node)) [
  | inl root ↦ ground (arith, root, passing-older g test h (suc n) ps (omega (arith, lt)))
  | inr other ↦ ground (arith, other, passing-older g test h (suc n) ps (omega (arith, lt)))
]

passing-stored :
    (g : StackGraph) (test : RootPath → Bool) (n : ℕ) (before : List PartialPath) (p : PartialPath)
    (rest : List PartialPath)
    → is_root_at g p.start_node ≡ true
    → passing (n + length before) test (root_paths g n (before ++ p ∷ rest))
      ≡ (if test (root_path p.symbol_stack_precondition (n + length before)) then 1 else 0)
unfolding passing root_paths root_path
passing-stored g test n [] p rest root =
    let e : n + 0 ≡ n = omega arith in
    let none_after = passing-older g test n (suc n) rest (omega arith) in
    ground (arith, e, root, none_after)
passing-stored g test n (q ∷ before) p rest root =
    let e : n + suc (length before) ≡ suc n + length before = omega arith in
    let older : ((n + suc (length before)) == n) ≡ false = ground (arith, e) in
    let later = passing-stored g test (suc n) before p rest root in
    elim (Bool-cases (is_root_at g q.start_node)) [
      | inl start ↦ ground (arith, start, older, e, later)
      | inr other ↦ ground (arith, other, e, later)
    ]

nonempty-pushed :
    (ss : List Handle) (xs : List PartialScopedSymbol)
    → nonempty ss ≡ true
    → nonempty (pushed ss xs) ≡ true
unfolding pushed nonempty
nonempty-pushed ss [] e = e
nonempty-pushed ss (x ∷ xs) e = nonempty-pushed (x.symbol ∷ ss) xs refl

pushed-contains_symbols :
    (s : PartialSymbolStack) → nonempty (pushed [] s.symbols) ≡ SymbolStack.contains_symbols s
unfolding pushed SymbolStack.contains_symbols nonempty
pushed-contains_symbols s = elim (List-cases s.symbols) [
  | inl bare ↦ ground (arith, bare)
  | inr (x, xs, e) ↦ let full = nonempty-pushed (x.symbol ∷ []) xs refl in ground (arith, e, full)
]

indexed-root_path :
    (ss : List Handle) (variable : Bool) (s : PartialSymbolStack) (h : Handle)
    → indexed ss variable (root_path s h)
      ≡ (SymbolStack.contains_symbols s && fits ss variable (root_path s h))
unfolding indexed root_path
indexed-root_path ss variable s h = ground (arith, pushed-contains_symbols s)

occurrences-nonempty :
    (h : Handle) (ps : List RootPath) (ss : List Handle) (variable : Bool)
    → nonempty ss ≡ true
    → occurrences h (root_candidates ps ss variable) ≡ passing h (indexed ss variable) ps
occurrences-nonempty h ps [] variable e = absurd (unfold nonempty in ground (arith, e))
occurrences-nonempty h ps (x ∷ xs) variable e = occurrences-root_candidates h ps x xs variable

-- In a database whose indexes hold exactly its paths, a search for a path that ends at the root finds a
-- path that starts at the root once if its precondition has at least one symbol and fits the postcondition
-- of the first one, and not at all otherwise: a path without symbols in its precondition is never found,
-- also one whose variable fits. The postcondition has at least one symbol, and there is room for the keys.
pub find-stored :
    (g : StackGraph) (db : Database) (before : List PartialPath) (path : PartialPath)
    (rest : List PartialPath) (query : PartialPath) (end : Node) (x : PartialScopedSymbol)
    (xs : List PartialScopedSymbol)
    → IsComplete g db
    → db.partial_paths.items ≡ before ++ path ∷ rest
    → is_root_at g path.start_node ≡ true
    → StackGraph.index g query.end_node ≡ some end
    → is_root_at g query.end_node ≡ true
    → query.symbol_stack_postcondition.symbols ≡ x ∷ xs
    → HasRoom (length query.symbol_stack_postcondition.symbols) db.keys.cells
    → (db' : Database) × (found : List Handle) × (find_candidate_partial_paths db g query
        ≡ some (db', found))
      × (occurrences (1 + length before) found ≡ (
          if SymbolStack.contains_symbols path.symbol_stack_precondition
            && fits
                (pushed [] query.symbol_stack_postcondition.symbols)
                (SymbolStack.has_variable query.symbol_stack_postcondition)
                (root_path path.symbol_stack_precondition (1 + length before))
          then 1
          else 0))
find-stored g db before path rest query end x xs i items start at root symbols room =
    let h = 1 + length before in
    let ss = pushed [] query.symbol_stack_postcondition.symbols in
    let variable = SymbolStack.has_variable query.symbol_stack_postcondition in
    let run = find_candidate_partial_paths_lem g db query end i at room in
    let full : nonempty ss ≡ true =
      subst (λ z. nonempty (pushed [] z) ≡ true) (sym symbols)
        (unfold pushed in nonempty-pushed (x.symbol ∷ []) xs (unfold nonempty in refl)) in
    let once = occurrences-nonempty h (root_paths g 1 db.partial_paths.items) ss variable full in
    let stored =
      subst
        (λ z.
          passing h (indexed ss variable) (root_paths g 1 z)
          ≡ (if indexed ss variable (root_path path.symbol_stack_precondition h) then 1 else 0))
        (sym items) (passing-stored g (indexed ss variable) 1 before path rest start) in
    (
      run.0,
      candidates g db query,
      run.1,
      unfold candidates in
          let test = indexed-root_path ss variable path.symbol_stack_precondition h in
          ground (arith, root, once, stored, test),
    )
