-- ===== src/Stitching/Adding.antt =====
-- Adding a root path to the indexes of a `Database` (stack-graphs/src/stitching.rs).
use stack_graphs_muffet.Prelude.{
  zero, suc, ◌≡◌, refl, sym, ◌∙◌, subst, ◌&&◌, not, inl, inr, Bool, Bool-cases, true, false,
  if◌then◌else◌, List, [], ◌∷◌, ◌++◌, length, arith, some,
}
use stack_graphs_muffet.Arena
use stack_graphs_muffet.Arena.{Handle}
use stack_graphs_muffet.Arena.Laws.{HasRoom}
use stack_graphs_muffet.Arena.HandleSet
use stack_graphs_muffet.Arena.Supplemental
use stack_graphs_muffet.Arena.Lists.{is_empty}
use stack_graphs_muffet.Arena.Lists.Repr.{
  Represents, Represents_old, Represents-bound, pop_front-nil,
}
use stack_graphs_muffet.Partial.SymbolStack
use stack_graphs_muffet.Partial.SymbolStack.{PartialSymbolStack}
use stack_graphs_muffet.Stitching
use stack_graphs_muffet.Stitching.{
  Database, SymbolStackKeys, PathIndex, entries, push_path, index_prefixes, index_root_path,
  empty_key, push_symbols, from_partial_symbol_stack, find_prefixes,
  find_candidate_partial_paths_from_root,
}
use stack_graphs_muffet.Stitching.Keys.{IsKeyed, pushed, push_symbols_lem, new-IsKeyed, Pushed}
use stack_graphs_muffet.Prelude.Same.{same}
use stack_graphs_muffet.Stitching.Index.{
  RootPath, has_tail, has_proper_tail, exactly, longer, select, select-snoc, push_path-IsMarked,
  push_path-IsClean, index_prefixes_lem, marks_equal,
}
use stack_graphs_muffet.Stitching.Roots.{
  IsBacked, none_yet, IsBacked-snoc, IsBacked-Extends, exactly-IsTailTest, longer-IsTailTest,
  IsIndexed, IsIndexed-Extends,
}

-- The root path that a symbol stack precondition stands for.
unfoldable pub root_path : PartialSymbolStack → Handle → RootPath
unfolding SymbolStack.has_variable pushed
root_path stack h = record {
  handle = h;
  symbols = pushed [] stack.symbols;
  variable = SymbolStack.has_variable stack;
}

-- The keys and the indexes of the database hold the root paths.
pub record HasRoots (db : Database) (ps : List RootPath) : Type 0 where
  pub keyed : IsKeyed db.keys
  pub backed : IsBacked db.keys ps
  pub with_variable :
      IsIndexed db.keys (exactly true) ps db.root_paths_by_precondition_with_variable
  pub without_variable :
      IsIndexed db.keys (exactly false) ps db.root_paths_by_precondition_without_variable
  pub prefixes : IsIndexed db.keys longer ps db.root_paths_by_precondition_prefix

-- The test does not hold of the new path.
IsIndexed-skip :
    (t : SymbolStackKeys) (test : List Handle → RootPath → Bool) (ps : List RootPath) (p : RootPath)
    (index : PathIndex)
    → ((y : Handle) (ys : List Handle) → test (y ∷ ys) p ≡ false)
    → IsIndexed t test ps index
    → IsIndexed t test (ps ++ p ∷ []) index
IsIndexed-skip t test ps p index miss i = record {
  marked =
      λ m y ys r. ground (arith, i.marked m y ys r, select-snoc (test (y ∷ ys)) ps p, miss y ys);
  clean = i.clean;
}

matches : Bool → Bool → Bool
matches wanted variable = if wanted then variable else not variable

push-exactly :
    (wanted : Bool) (t : SymbolStackKeys) (index : PathIndex) (ps : List RootPath) (k h : Handle)
    (ss : List Handle) (variable : Bool)
    → IsKeyed t
    → Represents t.cells k ss
    → IsIndexed t (exactly wanted) ps index
    → IsIndexed t
        (exactly wanted)
        (ps ++ record { handle = h; symbols = ss; variable = variable } ∷ [])
        (if not (is_empty k) && matches wanted variable then push_path index k h else index)
unfolding matches
push-exactly wanted t index ps k h [] variable v r i =
    let step : (if not (is_empty k) && matches wanted variable then push_path index k h else index)
        ≡ index =
      ground (arith, r) in
    subst
      (IsIndexed t (exactly wanted)
        (ps ++ record { handle = h; symbols = []; variable = variable } ∷ []))
      (sym step)
      (IsIndexed-skip t (exactly wanted) ps
        (record { handle = h; symbols = []; variable = variable }) index
        (λ y ys. unfold exactly same in ground arith) i)
push-exactly wanted t index ps k h (x ∷ ss) variable v r i =
    elim (Bool-cases (matches wanted variable)) [
      | inl yes_here ↦
          let step : (if not (is_empty k) && matches wanted variable
                then push_path index k h
                else index)
              ≡ push_path index k h =
            ground (arith, r.0, yes_here) in
          let old = Represents_old t.cells k x ss r in
          let p : RootPath = record { handle = h; symbols = x ∷ ss; variable = variable } in
          subst (IsIndexed t (exactly wanted) (ps ++ p ∷ [])) (sym step) (record {
            marked =
                marks_equal t v (push_path index k h)
                  (λ zs.
                    if same (x ∷ ss) zs
                    then select (exactly wanted zs) ps ++ h ∷ []
                    else select (exactly wanted zs) ps)
                  (λ zs. select (exactly wanted zs) (ps ++ p ∷ []))
                  (λ y ys. sym (
                    select-snoc (exactly wanted (y ∷ ys)) ps p
                    ∙ (unfold exactly in ground (arith, yes_here))))
                  (push_path-IsMarked t v index (λ zs. select (exactly wanted zs) ps) k h x ss r
                    i.marked);
            clean = push_path-IsClean t index k h old.0 old.1 i.clean;
          })
      | inr no_here ↦
          let step : (if not (is_empty k) && matches wanted variable
                then push_path index k h
                else index)
              ≡ index =
            ground (arith, no_here) in
          let p : RootPath = record { handle = h; symbols = x ∷ ss; variable = variable } in
          subst (IsIndexed t (exactly wanted) (ps ++ p ∷ [])) (sym step) (
            IsIndexed-skip t (exactly wanted) ps p index
              (λ y ys. unfold exactly in ground (arith, no_here)) i)
    ]

push-longer :
    (t : SymbolStackKeys) (index : PathIndex) (ps : List RootPath) (k h : Handle) (ss : List Handle)
    (variable : Bool)
    → IsKeyed t
    → Represents t.cells k ss
    → IsIndexed t longer ps index
    → (index' : PathIndex) × (index_prefixes (suc (length t.cells.items)) t.cells k index h
        ≡ some index')
      × IsIndexed t longer
          (ps ++ record { handle = h; symbols = ss; variable = variable } ∷ [])
          index'
push-longer t index ps k h [] variable v r i = (
  index,
  unfold index_prefixes in ground (arith, pop_front-nil t.cells k r),
  IsIndexed-skip t longer ps (record { handle = h; symbols = []; variable = variable }) index
      (λ y ys. unfold longer has_proper_tail in refl) i,
)
push-longer t index ps k h (x ∷ ss) variable v r i =
    let p : RootPath = record { handle = h; symbols = x ∷ ss; variable = variable } in
    let bound = Represents-bound t.cells k (x ∷ ss) v.valid r in
    let run =
      index_prefixes_lem t v (suc (length t.cells.items)) k x ss index (λ zs. select (longer zs) ps)
        h (omega (arith, bound)) r i.marked i.clean in
    (
      run.0,
      run.1,
      record {
        marked =
            marks_equal t v run.0
              (λ zs.
                if has_tail ss zs then select (longer zs) ps ++ h ∷ [] else select (longer zs) ps)
              (λ zs. select (longer zs) (ps ++ p ∷ []))
              (λ y ys.
                sym (select-snoc (longer (y ∷ ys)) ps p ∙ (unfold longer has_proper_tail in refl)))
              run.2.marked;
        clean = run.2.clean;
      },
    )

pub new-HasRoots : HasRoots Stitching.new []
unfolding Stitching.new Arena.new Supplemental.new Supplemental.get HandleSet.new
new-HasRoots = record {
  keyed = unfold Arena.new in new-IsKeyed;
  backed = none_yet;
  with_variable = no_paths (exactly true);
  without_variable = no_paths (exactly false);
  prefixes = no_paths longer;
}
  where
    no_paths :
        (test : List Handle → RootPath → Bool)
        → IsIndexed
            (record { cells = record { items = [] }; cache = [] })
            test
            []
            (record { items = [] })
    no_paths test =
        unfold Supplemental.get select in
        record { marked = λ m y ys r. nothing m; clean = λ m h. nothing m }
      where
        nothing : (m : Handle) → entries (record { items = [] }) m ≡ []
        nothing zero = refl
        nothing (suc m) = refl

-- `from_partial_symbol_stack` only adds keys.
pub stack_key :
    (keys : SymbolStackKeys) (stack : PartialSymbolStack)
    → IsKeyed keys
    → HasRoom (length stack.symbols) keys.cells
    → Pushed keys 0 (pushed [] stack.symbols) (from_partial_symbol_stack keys stack)
stack_key keys stack v room =
    unfold from_partial_symbol_stack in push_symbols_lem keys empty_key stack.symbols [] v room refl

-- What stands outside the keys and the indexes of root paths is the same.
pub record SameNodes (db db' : Database) : Type 0 where
  pub same_paths : db'.partial_paths ≡ db.partial_paths
  pub same_starts : db'.paths_by_start_node ≡ db.paths_by_start_node
  pub same_degrees : db'.incoming_paths ≡ db.incoming_paths

-- A root path that is added is in the indexes, after the paths that were.
pub index_root_path_lem :
    (db : Database) (ps : List RootPath) (stack : PartialSymbolStack) (h : Handle)
    → HasRoots db ps
    → HasRoom (length stack.symbols) db.keys.cells
    → (db' : Database) × (index_root_path db stack h ≡ some db')
      × HasRoots db' (ps ++ root_path stack h ∷ [])
      × SameNodes db db'
unfolding index_root_path root_path
index_root_path_lem db ps stack h i room =
    let key = stack_key db.keys stack i.keyed room in
    let u = from_partial_symbol_stack db.keys stack in
    let ss = pushed [] stack.symbols in
    let variable = SymbolStack.has_variable stack in
    let run =
      push-longer u.0 db.root_paths_by_precondition_prefix ps u.1 h ss variable key.keyed key.stands
        (IsIndexed-Extends db.keys u.0 longer ps db.root_paths_by_precondition_prefix
          longer-IsTailTest key.keyed key.extends i.backed i.prefixes) in
    let db' : Database = record db {
      keys = u.0;
      root_paths_by_precondition_with_variable =
          if not (is_empty u.1) && variable
          then push_path db.root_paths_by_precondition_with_variable u.1 h
          else db.root_paths_by_precondition_with_variable;
      root_paths_by_precondition_without_variable =
          if not (is_empty u.1) && not variable
          then push_path db.root_paths_by_precondition_without_variable u.1 h
          else db.root_paths_by_precondition_without_variable;
      root_paths_by_precondition_prefix = run.0;
    } in
    let step : index_root_path db stack h ≡ some db' =
      unfold index_root_path in ground (arith, run.1) in
    (
      db',
      step,
      record {
        keyed = key.keyed;
        backed =
            IsBacked-snoc u.0 ps (root_path stack h) u.1 key.stands
              (IsBacked-Extends db.keys u.0 ps key.extends i.backed);
        with_variable =
            unfold matches in
            push-exactly true u.0 db.root_paths_by_precondition_with_variable ps u.1 h ss variable
              key.keyed key.stands
              (IsIndexed-Extends db.keys u.0 (exactly true) ps
                db.root_paths_by_precondition_with_variable (exactly-IsTailTest true) key.keyed
                key.extends i.backed i.with_variable);
        without_variable =
            unfold matches in
            push-exactly false u.0 db.root_paths_by_precondition_without_variable ps u.1 h ss
              variable key.keyed key.stands
              (IsIndexed-Extends db.keys u.0 (exactly false) ps
                db.root_paths_by_precondition_without_variable (exactly-IsTailTest false) key.keyed
                key.extends i.backed i.without_variable);
        prefixes = run.2;
      },
      record { same_paths = refl; same_starts = refl; same_degrees = refl },
    )
