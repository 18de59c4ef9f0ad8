-- ===== src/Stitching/Find.antt =====
-- `add_partial_path` and `find_candidate_partial_paths_from_root` of stack-graphs/src/stitching.rs,
-- against the list of the root paths.
pub mod Paths
pub mod Stores
pub mod Once
pub mod Stored
use stack_graphs_muffet.Prelude.{
  ℕ, zero, suc, ◌+◌, ◌≤◌, ◌<◌, ◌≡◌, ◌≢◌, refl, ap, sym, ◌∙◌, subst, ◌&&◌, ◌||◌, not, ◌==◌, ◌⊎◌, inl,
  inr, Bool, Bool-cases, true, false, if◌then◌else◌, List, [], ◌∷◌, ◌++◌, length, arith, Option,
  none, some,
}
use mathlib.Core.Option
use stack_graphs_muffet.Arena
use stack_graphs_muffet.Arena.{Handle}
use stack_graphs_muffet.Arena.Laws.{HasRoom}
use stack_graphs_muffet.Arena.HandleSet
use stack_graphs_muffet.Arena.Supplemental
use stack_graphs_muffet.Arena.Lists.{is_empty, ListArena, pop_front}
use stack_graphs_muffet.Arena.Lists.Repr.{
  Represents, Represents_old, Represents-bound, pop_front-nil, pop_front-cons,
}
use stack_graphs_muffet.Partial.SymbolStack
use stack_graphs_muffet.Partial.SymbolStack.{PartialSymbolStack}
use stack_graphs_muffet.Stitching
use stack_graphs_muffet.Stitching.{
  Database, SymbolStackKeys, PathIndex, entries, push_path, index_prefixes, index_root_path,
  empty_key, push_symbols, from_partial_symbol_stack, find_prefixes,
  find_candidate_partial_paths_from_root,
}
use stack_graphs_muffet.Stitching.Keys.{
  IsKeyed, Extends, pushed, push_symbols_lem, new-IsKeyed, Pushed,
}
use stack_graphs_muffet.Prelude.Same.{same}
use stack_graphs_muffet.Stitching.Index.{
  RootPath, has_tail, has_proper_tail, exactly, longer, select, select-snoc, IsMarked, IsClean,
  push_path-IsMarked, Represents-same, push_path-IsClean, index_prefixes_lem, marks_equal,
}
use stack_graphs_muffet.Stitching.Roots.{
  IsBacked, none_yet, IsBacked-snoc, IsBacked-Extends, exactly-IsTailTest, longer-IsTailTest,
  IsIndexed, IsIndexed-Extends,
}
use stack_graphs_muffet.Stitching.Adding.{HasRoots, SameNodes, stack_key}

-- The lists of an index at the tails of a list, the longest tail first.
unfoldable pub at_tails : (List Handle → List Handle) → List Handle → List Handle
at_tails lists [] = []
at_tails lists (x ∷ xs) = lists (x ∷ xs) ++ at_tails lists xs

unfoldable at_list : (List Handle → List Handle) → List Handle → List Handle
at_list lists [] = []
at_list lists (x ∷ xs) = lists (x ∷ xs)

-- `entries` at the key of any list.
entries-at :
    (t : SymbolStackKeys) (test : List Handle → RootPath → Bool) (ps : List RootPath)
    (index : PathIndex) (k : Handle) (xs : List Handle)
    → IsKeyed t
    → IsIndexed t test ps index
    → Represents t.cells k xs
    → entries index k ≡ at_list (λ ss. select (test ss) ps) xs
unfolding at_list
entries-at t test ps index k [] v i r = i.clean k (omega (arith, r, v.valid.small))
entries-at t test ps index k (x ∷ xs) v i r = i.marked k x xs r

find_prefixes_lem :
    (fuel : ℕ) (t : SymbolStackKeys) (test : List Handle → RootPath → Bool) (ps : List RootPath)
    (index : PathIndex) (k : Handle) (xs : List Handle)
    → IsKeyed t
    → IsIndexed t test ps index
    → Represents t.cells k xs
    → length xs < fuel
    → find_prefixes fuel t.cells k index ≡ some (at_tails (λ ss. select (test ss) ps) xs)
unfolding find_prefixes at_tails at_list
find_prefixes_lem zero t test ps index k xs v i r h = absurd (omega arith)
find_prefixes_lem (suc fuel) t test ps index k [] v i r h =
    ground (arith, pop_front-nil t.cells k r, entries-at t test ps index k [] v i r)
find_prefixes_lem (suc fuel) t test ps index k (x ∷ xs) v i r h = ground (
  arith,
  pop_front-cons t.cells k x xs r,
  entries-at t test ps index k (x ∷ xs) v i r,
  find_prefixes_lem fuel t test ps index r.1 xs v i r.3 (omega (arith, h)),
)

-- The candidates for a stack with these symbols, last first: the paths with exactly the symbols and no
-- variable; those with more symbols, if the stack has a variable; those with a variable that have the
-- symbols, or fewer. Nothing is found without symbols.
unfoldable pub root_candidates : List RootPath → List Handle → Bool → List Handle
root_candidates ps [] variable = []
root_candidates ps (x ∷ xs) variable =
    select (exactly false (x ∷ xs)) ps
    ++ ((if variable then select (longer (x ∷ xs)) ps else [])
        ++ at_tails (λ ss. select (exactly true ss) ps) (x ∷ xs))

pub find_candidate_partial_paths_from_root_lem :
    (db : Database) (ps : List RootPath) (stack : PartialSymbolStack)
    → HasRoots db ps
    → HasRoom (length stack.symbols) db.keys.cells
    → (db' : Database) × (find_candidate_partial_paths_from_root db stack
        ≡ some (db', root_candidates ps (pushed [] stack.symbols) (SymbolStack.has_variable stack)))
      × HasRoots db' ps
      × SameNodes db db'
unfolding root_candidates find_candidate_partial_paths_from_root at_tails at_list
find_candidate_partial_paths_from_root_lem db ps stack i room =
    let key = stack_key db.keys stack i.keyed room in
    let u = from_partial_symbol_stack db.keys stack in
    let ss = pushed [] stack.symbols in
    let with =
      IsIndexed-Extends db.keys u.0 (exactly true) ps db.root_paths_by_precondition_with_variable
        (exactly-IsTailTest true) key.keyed key.extends i.backed i.with_variable in
    let without =
      IsIndexed-Extends db.keys u.0 (exactly false) ps
        db.root_paths_by_precondition_without_variable (exactly-IsTailTest false) key.keyed
        key.extends i.backed i.without_variable in
    let more =
      IsIndexed-Extends db.keys u.0 longer ps db.root_paths_by_precondition_prefix longer-IsTailTest
        key.keyed key.extends i.backed i.prefixes in
    let found =
      find_prefixes_lem (suc (length u.0.cells.items)) u.0 (exactly true) ps
        db.root_paths_by_precondition_with_variable u.1 ss key.keyed with key.stands
        (Represents-bound u.0.cells u.1 ss key.keyed.valid key.stands) in
    let exact =
      entries-at u.0 (exactly false) ps db.root_paths_by_precondition_without_variable u.1 ss
        key.keyed without key.stands in
    let extended =
      entries-at u.0 longer ps db.root_paths_by_precondition_prefix u.1 ss key.keyed more
        key.stands in
    let db' : Database = record db { keys = u.0 } in
    let step : find_candidate_partial_paths_from_root db stack
        ≡ some (db', root_candidates ps ss (SymbolStack.has_variable stack)) =
      result ss found exact extended in
    (
      db',
      step,
      record {
        keyed = key.keyed;
        backed = IsBacked-Extends db.keys u.0 ps key.extends i.backed;
        with_variable = with;
        without_variable = without;
        prefixes = more;
      },
      record { same_paths = refl; same_starts = refl; same_degrees = refl },
    )
  where
    result :
        (ss : List Handle)
        → (let u = from_partial_symbol_stack db.keys stack in
            find_prefixes
              (suc (length u.0.cells.items))
              u.0.cells
              u.1
              db.root_paths_by_precondition_with_variable
            ≡ some (at_tails (λ ss. select (exactly true ss) ps) ss))
        → (entries db.root_paths_by_precondition_without_variable
              (from_partial_symbol_stack db.keys stack).1
            ≡ at_list (λ zs. select (exactly false zs) ps) ss)
        → (entries db.root_paths_by_precondition_prefix (from_partial_symbol_stack db.keys stack).1
            ≡ at_list (λ zs. select (longer zs) ps) ss)
        → find_candidate_partial_paths_from_root db stack
          ≡ some (
            record db { keys = (from_partial_symbol_stack db.keys stack).0 },
            root_candidates ps ss (SymbolStack.has_variable stack),
          )
    result [] found exact extended = ground (arith, found, exact, extended)
    result (x ∷ xs) found exact extended = ground (arith, found, exact, extended)

-- The keys of two stacks, made one after the other, have the same handle if the symbols of the stacks are
-- the same, and only then. The keys before are one for each list, and there is room.
pub from_partial_symbol_stack-same :
    (keys : SymbolStackKeys) (one two : PartialSymbolStack)
    → IsKeyed keys
    → HasRoom (length one.symbols) keys.cells
    → HasRoom (length two.symbols) (from_partial_symbol_stack keys one).0.cells
    → (let u = from_partial_symbol_stack keys one in
        let w = from_partial_symbol_stack u.0 two in
        (u.1 == w.1) ≡ same (pushed [] one.symbols) (pushed [] two.symbols))
from_partial_symbol_stack-same keys one two v room room' =
    let u = from_partial_symbol_stack keys one in
    let w = from_partial_symbol_stack u.0 two in
    let first = stack_key keys one v room in
    let second = stack_key u.0 two first.keyed room' in
    Represents-same w.0 second.keyed u.1 w.1 (pushed [] one.symbols) (pushed [] two.symbols)
      (second.extends.kept u.1 (pushed [] one.symbols) first.stands) second.stands
