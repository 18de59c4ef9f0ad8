-- ===== src/Graph/Strings/Names.antt =====
-- The symbols, interned strings and files of `StackGraph` (stack-graphs/src/graph.rs).
pub mod Tables
pub mod Laws
use stack_graphs_muffet.Prelude.{
  ℕ, zero, suc, Bool, true, false, List, [], ◌∷◌, Option, none, some, if◌then◌else◌,
}
use mathlib.Core.Option
use stack_graphs_muffet.Prelude.Same.{same}
use stack_graphs_muffet.Arena
use stack_graphs_muffet.Arena.{Arena, Handle}
use stack_graphs_muffet.Graph.Strings
use stack_graphs_muffet.Graph.Strings.{Bytes, InternedStringArena, InternedStringContent, as_str}

-- An arena with its hash map. A key of the map is a pointer to the content.
pub record Table : Type 0 where
  pub items : Arena InternedStringContent
  pub handles : List (InternedStringContent × Handle)

-- The fields of `StackGraph` that hold names.
pub record Names : Type 0 where
  pub interned_strings : InternedStringArena
  pub symbols : Table
  pub strings : Table
  pub files : Table

abbrev pub reads_as : Option Bytes → Bytes → Bool
reads_as none name = false
reads_as (some w) name = same w name

-- A lookup in the hash map.
unfoldable pub lookup :
    InternedStringArena → List (InternedStringContent × Handle) → Bytes → Option Handle
unfolding as_str same
lookup a [] name = none
lookup a ((c, h) ∷ rest) name =
    let later = lookup a rest name in if reads_as (as_str a c) name then some h else later

-- `interned_strings.add`, the new item, and its entry in the hash map.
unfoldable pub insert_new :
    InternedStringArena → Table → Bytes → (InternedStringArena × Table) × Handle
unfolding Strings.add Arena.add
insert_new a t name =
    let interned = Strings.add a name in
    let item = Arena.add t.items interned.1 in
    ((interned.0, record { items = item.0; handles = (interned.1, item.1) ∷ t.handles }), item.1)

unfoldable pub add_symbol : Names → Bytes → Names × Handle
unfolding lookup insert_new
add_symbol g symbol = elim (lookup g.interned_strings g.symbols.handles symbol) [
  | some handle ↦ (g, handle)
  | none ↦
      let new = insert_new g.interned_strings g.symbols symbol in
      (record g { interned_strings = new.0.0; symbols = new.0.1 }, new.1)
]

unfoldable pub add_string : Names → Bytes → Names × Handle
unfolding lookup insert_new
add_string g string = elim (lookup g.interned_strings g.strings.handles string) [
  | some handle ↦ (g, handle)
  | none ↦
      let new = insert_new g.interned_strings g.strings string in
      (record g { interned_strings = new.0.0; strings = new.0.1 }, new.1)
]

-- `Result<Handle<File>, Handle<File>>`.
pub data AddFile : Type 0 where
  created : (handle : Handle) → AddFile
  taken : (handle : Handle) → AddFile

unfoldable pub add_file : Names → Bytes → Names × AddFile
unfolding lookup insert_new
add_file g name = elim (lookup g.interned_strings g.files.handles name) [
  | some handle ↦ (g, taken handle)
  | none ↦
      let new = insert_new g.interned_strings g.files name in
      (record g { interned_strings = new.0.0; files = new.0.1 }, created new.1)
]

abbrev pub file_handle : AddFile → Handle
file_handle (created handle) = handle
file_handle (taken handle) = handle

unfoldable pub get_or_create_file : Names → Bytes → Names × Handle
unfolding add_file
get_or_create_file g name = let added = add_file g name in (added.0, file_handle added.1)

unfoldable pub get_file : Names → Bytes → Option Handle
unfolding lookup
get_file g name = lookup g.interned_strings g.files.handles name

-- `graph[handle]` of each kind: the outer `none` is a panic.
abbrev pub read_item : InternedStringArena → Table → Handle → Option Bytes
read_item a t handle = elim (Arena.get t.items handle) [ none ↦ none | some c ↦ as_str a c ]

unfoldable pub symbol_at : Names → Handle → Option Bytes
unfolding Arena.get as_str
symbol_at g handle = read_item g.interned_strings g.symbols handle

unfoldable pub string_at : Names → Handle → Option Bytes
unfolding Arena.get as_str
string_at g handle = read_item g.interned_strings g.strings handle

unfoldable pub file_at : Names → Handle → Option Bytes
unfolding Arena.get as_str
file_at g handle = read_item g.interned_strings g.files handle
