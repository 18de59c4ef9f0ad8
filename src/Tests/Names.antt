-- ===== src/Tests/Names.antt =====
-- The interned strings of stack-graphs/src/graph.rs, on small graphs.
use stack_graphs_muffet.Prelude.{ℕ, zero, suc, ◌≡◌, refl, List, [], ◌∷◌, Option, some, arith}
use stack_graphs_muffet.Arena
use stack_graphs_muffet.Arena.{Handle}
use stack_graphs_muffet.Arena.Laws.{HasRoom}
use stack_graphs_muffet.Graph.Strings
use stack_graphs_muffet.Graph.Strings.{InternedStringArena, as_str}
use stack_graphs_muffet.Graph.Strings.Laws.{IsValid, add-IsValid, add-as_str_old}
use stack_graphs_muffet.Graph.Strings.Names.{
  Names, add_symbol, add_file, taken, symbol_at, file_at, lookup, insert_new,
}
use stack_graphs_muffet.Graph.Strings.Names.Laws.{
  HasNames, no_names, no_names-HasNames, add_symbol-symbol_at, add_symbol-known, add_file-taken,
  add_file-HasNames, add_symbol-HasNames,
}

-- A full buffer of four bytes.
abbrev full : InternedStringArena
full = record {
  current_buffer = record { bytes = 97 ∷ 98 ∷ 99 ∷ []; capacity = 4; version = 0 };
  full_buffers = [];
}

full-IsValid : IsValid full
full-IsValid = record { fits = omega arith; in_place = refl }

-- Two more bytes go to a new buffer.
add-IsValid_example : IsValid (Strings.add full (100 ∷ 101 ∷ [])).0
add-IsValid_example = add-IsValid full (100 ∷ 101 ∷ []) full-IsValid

add-as_str_old_example :
    as_str
      (Strings.add full (100 ∷ 101 ∷ [])).0
      (record { buffer = 0; version = 0; start = 1; len = 2 })
    ≡ some (98 ∷ 99 ∷ [])
add-as_str_old_example =
    add-as_str_old full (100 ∷ 101 ∷ []) (record { buffer = 0; version = 0; start = 1; len = 2 })
      (98 ∷ 99 ∷ []) full-IsValid (unfold as_str in refl)

add_symbol-symbol_at_example :
    symbol_at (add_symbol no_names (97 ∷ [])).0 (add_symbol no_names (97 ∷ [])).1 ≡ some (97 ∷ [])
add_symbol-symbol_at_example =
    add_symbol-symbol_at no_names (97 ∷ []) no_names-HasNames (omega arith)

-- A graph with a file, and the symbol of the same name.
abbrev with_file : Names
with_file = (add_file no_names (97 ∷ [])).0

with_file-HasNames : HasNames with_file
with_file-HasNames = add_file-HasNames no_names (97 ∷ []) no_names-HasNames (omega arith)

file_here : file_at with_file 1 ≡ some (97 ∷ [])
unfolding add_file lookup insert_new Strings.add Strings.new Arena.add Arena.get as_str
    Strings.make_room Strings.extend_from_slice Strings.slice file_at
    stack_graphs_muffet.Prelude.as_u32
file_here = refl

add_file-taken_example : add_file with_file (97 ∷ []) ≡ (with_file, taken 1)
add_file-taken_example = add_file-taken with_file (97 ∷ []) 1 with_file-HasNames file_here

room_here : HasRoom 1 with_file.files.items
unfolding add_file lookup insert_new Arena.add
room_here = omega arith

add_file-HasNames_example : HasNames (add_file with_file (98 ∷ [])).0
add_file-HasNames_example = add_file-HasNames with_file (98 ∷ []) with_file-HasNames room_here

abbrev with_symbol : Names × Handle
with_symbol = add_symbol no_names (97 ∷ [])

add_symbol-known_example : add_symbol with_symbol.0 (97 ∷ []) ≡ with_symbol
add_symbol-known_example =
    add_symbol-known with_symbol.0 (97 ∷ []) with_symbol.1
      (add_symbol-HasNames no_names (97 ∷ []) no_names-HasNames (omega arith))
      (add_symbol-symbol_at no_names (97 ∷ []) no_names-HasNames (omega arith))
