-- ===== src/Graph/Strings/Names/Laws.antt =====
-- Adding and reading the symbols and files of a `StackGraph` (stack-graphs/src/graph.rs).
use stack_graphs_muffet.Prelude.{
  zero, suc, ◌≡◌, ap, sym, ◌∙◌, subst, inl, inr, [], Option, none, some, Option-cases, arith,
}
use stack_graphs_muffet.Arena
use stack_graphs_muffet.Arena.{Arena, Handle}
use stack_graphs_muffet.Arena.Laws.{HasRoom, get-add_self}
use stack_graphs_muffet.Graph.Strings
use stack_graphs_muffet.Graph.Strings.{Bytes, InternedStringArena, InternedStringContent, as_str}
use stack_graphs_muffet.Graph.Strings.Laws.{
  IsValid, Keeps, add-IsValid, add-as_str, add-Keeps, new-IsValid,
}
use stack_graphs_muffet.Graph.Strings.Names.{
  Table, Names, lookup, insert_new, read_item, add_symbol, AddFile, created, taken, add_file,
  symbol_at, file_at, add_string,
}
use stack_graphs_muffet.Graph.Strings.Names.Tables.{
  IsTable, no_keys, IsTable-Keeps, insert_new-IsTable,
}

-- The names of a graph: each kind has one handle for each string.
pub record HasNames (g : Names) : Type 0 where
  pub valid : IsValid g.interned_strings
  pub symbols : IsTable g.interned_strings g.symbols
  pub strings : IsTable g.interned_strings g.strings
  pub files : IsTable g.interned_strings g.files

read_item-insert_new :
    (a : InternedStringArena) (t : Table) (name : Bytes)
    → IsValid a
    → HasRoom 1 t.items
    → read_item (insert_new a t name).0.0 (insert_new a t name).0.1 (insert_new a t name).1
      ≡ some name
unfolding insert_new
read_item-insert_new a t name v room =
    let c = (Strings.add a name).1 in
    ap
      (λ (z : Option InternedStringContent). elim z [
        | none ↦ none
        | some c ↦ as_str (Strings.add a name).0 c
      ])
      (get-add_self t.items c room)
    ∙ add-as_str a name v

-- What a handle reads as is found under that string.
lookup-read_item :
    (a : InternedStringArena) (t : Table) (h : Handle) (w : Bytes)
    → IsTable a t
    → read_item a t h ≡ some w
    → lookup a t.handles w ≡ some h
lookup-read_item a t h w i e = elim (Option-cases (Arena.get t.items h)) [
  | inl out ↦
      let gone : read_item a t h ≡ none = ground (arith, out) in absurd (ground (arith, e, gone))
  | inr (c, at) ↦
      let here = i.known h c at in
      let one : read_item a t h ≡ as_str a c = ground (arith, at) in
      let same : w ≡ here.0 = ground (arith, e, one, here.1) in
      subst (λ z. lookup a t.handles z ≡ some h) (sym same) here.2
]

-- And what is found under a string reads as it.
read_item-lookup :
    (a : InternedStringArena) (t : Table) (h : Handle) (w : Bytes)
    → IsTable a t
    → lookup a t.handles w ≡ some h
    → read_item a t h ≡ some w
read_item-lookup a t h w i e = let here = i.sound w h e in ground (arith, here.1, here.2)

read_item-Keeps :
    (a b : InternedStringArena) (t : Table) (h : Handle) (w : Bytes)
    → Keeps a b
    → read_item a t h ≡ some w
    → read_item b t h ≡ some w
read_item-Keeps a b t h w k e = elim (Option-cases (Arena.get t.items h)) [
  | inl out ↦
      let gone : read_item a t h ≡ none = ground (arith, out) in absurd (ground (arith, e, gone))
  | inr (c, at) ↦
      let one : as_str a c ≡ some w = ground (arith, e, at) in ground (arith, at, k.kept c w one)
]

-- The handle that `add_symbol` returns, whether new or old, reads as the string, in a graph with one handle
-- for each name and room for a symbol.
pub add_symbol-symbol_at :
    (g : Names) (symbol : Bytes)
    → HasNames g
    → HasRoom 1 g.symbols.items
    → symbol_at (add_symbol g symbol).0 (add_symbol g symbol).1 ≡ some symbol
unfolding symbol_at
add_symbol-symbol_at g symbol i room =
    elim (Option-cases (lookup g.interned_strings g.symbols.handles symbol)) [
      | inl missing ↦
          let new = insert_new g.interned_strings g.symbols symbol in
          let step : add_symbol g symbol
              ≡ (record g { interned_strings = new.0.0; symbols = new.0.1 }, new.1) =
            unfold add_symbol in ground (arith, missing) in
          subst
            (λ (z : Names × Handle). read_item z.0.interned_strings z.0.symbols z.1 ≡ some symbol)
            (sym step) (read_item-insert_new g.interned_strings g.symbols symbol i.valid room)
      | inr (h, at) ↦
          let step : add_symbol g symbol ≡ (g, h) = unfold add_symbol in ground (arith, at) in
          subst
            (λ (z : Names × Handle). read_item z.0.interned_strings z.0.symbols z.1 ≡ some symbol)
            (sym step) (read_item-lookup g.interned_strings g.symbols h symbol i.symbols at)
    ]

-- In a graph with one handle for each name, adding the string of a symbol again gives its handle and
-- changes nothing.
pub add_symbol-known :
    (g : Names) (symbol : Bytes) (handle : Handle)
    → HasNames g
    → symbol_at g handle ≡ some symbol
    → add_symbol g symbol ≡ (g, handle)
unfolding symbol_at
add_symbol-known g symbol handle i e =
    let at = lookup-read_item g.interned_strings g.symbols handle symbol i.symbols e in
    unfold add_symbol in ground (arith, at)

-- In a graph with one handle for each name, `add_file` with the name of a file gives the error with the
-- handle of that file, and changes nothing.
pub add_file-taken :
    (g : Names) (name : Bytes) (handle : Handle)
    → HasNames g
    → file_at g handle ≡ some name
    → add_file g name ≡ (g, taken handle)
unfolding file_at
add_file-taken g name handle i e =
    let at = lookup-read_item g.interned_strings g.files handle name i.files e in
    unfold add_file in ground (arith, at)

insert_new-Keeps :
    (a : InternedStringArena) (t : Table) (name : Bytes)
    → IsValid a
    → Keeps a (insert_new a t name).0.0
unfolding insert_new
insert_new-Keeps a t name v = add-Keeps a name v

insert_new-IsValid :
    (a : InternedStringArena) (t : Table) (name : Bytes)
    → IsValid a
    → IsValid (insert_new a t name).0.0
unfolding insert_new
insert_new-IsValid a t name v = add-IsValid a name v

pub add_symbol-HasNames :
    (g : Names) (symbol : Bytes)
    → HasNames g
    → HasRoom 1 g.symbols.items
    → HasNames (add_symbol g symbol).0
add_symbol-HasNames g symbol i room =
    elim (Option-cases (lookup g.interned_strings g.symbols.handles symbol)) [
      | inl missing ↦
          let new = insert_new g.interned_strings g.symbols symbol in
          let step : add_symbol g symbol
              ≡ (record g { interned_strings = new.0.0; symbols = new.0.1 }, new.1) =
            unfold add_symbol in ground (arith, missing) in
          let k = insert_new-Keeps g.interned_strings g.symbols symbol i.valid in
          subst (λ (z : Names × Handle). HasNames z.0) (sym step)
            (record {
              valid = insert_new-IsValid g.interned_strings g.symbols symbol i.valid;
              symbols =
                  insert_new-IsTable g.interned_strings g.symbols symbol i.valid i.symbols room
                    missing;
              strings = IsTable-Keeps g.interned_strings new.0.0 g.strings k i.strings;
              files = IsTable-Keeps g.interned_strings new.0.0 g.files k i.files;
            })
      | inr (h, at) ↦
          let step : add_symbol g symbol ≡ (g, h) = unfold add_symbol in ground (arith, at) in
          subst (λ (z : Names × Handle). HasNames z.0) (sym step) i
    ]

pub add_string-HasNames :
    (g : Names) (name : Bytes)
    → HasNames g
    → HasRoom 1 g.strings.items
    → HasNames (add_string g name).0
add_string-HasNames g name i room =
    elim (Option-cases (lookup g.interned_strings g.strings.handles name)) [
      | inl missing ↦
          let new = insert_new g.interned_strings g.strings name in
          let step : add_string g name
              ≡ (record g { interned_strings = new.0.0; strings = new.0.1 }, new.1) =
            unfold add_string in ground (arith, missing) in
          let k = insert_new-Keeps g.interned_strings g.strings name i.valid in
          subst (λ (z : Names × Handle). HasNames z.0) (sym step)
            (record {
              valid = insert_new-IsValid g.interned_strings g.strings name i.valid;
              strings =
                  insert_new-IsTable g.interned_strings g.strings name i.valid i.strings room
                    missing;
              symbols = IsTable-Keeps g.interned_strings new.0.0 g.symbols k i.symbols;
              files = IsTable-Keeps g.interned_strings new.0.0 g.files k i.files;
            })
      | inr (h, at) ↦
          let step : add_string g name ≡ (g, h) = unfold add_string in ground (arith, at) in
          subst (λ (z : Names × Handle). HasNames z.0) (sym step) i
    ]

-- `add_file` keeps one handle for each name of each kind, which can be read, if there is room for a file.
pub add_file-HasNames :
    (g : Names) (name : Bytes) → HasNames g → HasRoom 1 g.files.items → HasNames (add_file g name).0
add_file-HasNames g name i room =
    elim (Option-cases (lookup g.interned_strings g.files.handles name)) [
      | inl missing ↦
          let new = insert_new g.interned_strings g.files name in
          let step : add_file g name
              ≡ (record g { interned_strings = new.0.0; files = new.0.1 }, created new.1) =
            unfold add_file in ground (arith, missing) in
          let k = insert_new-Keeps g.interned_strings g.files name i.valid in
          subst (λ (z : Names × AddFile). HasNames z.0) (sym step)
            (record {
              valid = insert_new-IsValid g.interned_strings g.files name i.valid;
              files =
                  insert_new-IsTable g.interned_strings g.files name i.valid i.files room missing;
              symbols = IsTable-Keeps g.interned_strings new.0.0 g.symbols k i.symbols;
              strings = IsTable-Keeps g.interned_strings new.0.0 g.strings k i.strings;
            })
      | inr (h, at) ↦
          let step : add_file g name ≡ (g, taken h) = unfold add_file in ground (arith, at) in
          subst (λ (z : Names × AddFile). HasNames z.0) (sym step) i
    ]

abbrev pub empty_table : Table
empty_table = record { items = record { items = [] }; handles = [] }

empty_table-IsTable : (a : InternedStringArena) → IsTable a empty_table
empty_table-IsTable a = record {
  readable = no_keys;
  known = λ h c e. absurd (nothing h c e);
  sound = λ w h e. absurd (unfold lookup in ground (arith, e));
}
  where
    nothing :
        (h : Handle) (c : InternedStringContent)
        → Arena.get {A = InternedStringContent} (record { items = [] }) h ≡ some c
        → ⊥
    nothing zero c e = unfold Arena.get in ground (arith, e)
    nothing (suc h) c e = unfold Arena.get in ground (arith, e)

abbrev pub no_names : Names
no_names = record {
  interned_strings = Strings.new;
  symbols = empty_table;
  strings = empty_table;
  files = empty_table;
}

pub no_names-HasNames : HasNames no_names
no_names-HasNames = record {
  valid = new-IsValid;
  symbols = empty_table-IsTable Strings.new;
  strings = empty_table-IsTable Strings.new;
  files = empty_table-IsTable Strings.new;
}
