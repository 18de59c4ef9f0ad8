-- ===== src/Graph/Strings.antt =====
-- stack-graphs/src/graph.rs, `InternedStringArena` and `InternedStringContent`, and the symbols, strings
-- and files of `StackGraph`. A string is the list of its bytes; a pointer is the number of a buffer, the
-- version of its memory, and an offset.
pub mod Laws
pub mod Names
use stack_graphs_muffet.Prelude.{
  ℕ, zero, suc, ◌+◌, ◌-◌, ◌*◌, ◌==◌, ltb, leb, max, if◌then◌else◌, Bool, true, false, List, [], ◌∷◌,
  ◌++◌, ◌&&◌, length, Option, none, some, get_elem?,
}
use mathlib.Core.Option
use stack_graphs_muffet.Arena
use stack_graphs_muffet.Arena.{Arena, Handle}

abbrev pub Bytes : Type 0
Bytes = List ℕ

-- `Vec<u8>`. A reallocation moves the bytes: it makes a new version of the memory.
pub record Buffer : Type 0 where
  pub bytes : Bytes
  pub capacity : ℕ
  pub version : ℕ

pub record InternedStringArena : Type 0 where
  pub current_buffer : Buffer
  pub full_buffers : List Buffer

pub record InternedStringContent : Type 0 where
  pub buffer : ℕ
  pub version : ℕ
  pub start : ℕ
  pub len : ℕ

abbrev pub initial_string_capacity : ℕ
initial_string_capacity = 512

abbrev pub with_capacity : ℕ → Buffer
with_capacity n = record { bytes = []; capacity = n; version = 0 }

unfoldable pub new : InternedStringArena
new = record { current_buffer = with_capacity initial_string_capacity; full_buffers = [] }

-- `next_power_of_two`, by doubling. The capacity of a vector is below 2^63: there is no overflow.
unfoldable pub double_until : ℕ → ℕ → ℕ → ℕ
double_until zero p n = p
double_until (suc fuel) p n = let rest = double_until fuel (2 * p) n in if leb n p then p else rest

unfoldable pub next_power_of_two : ℕ → ℕ
unfolding double_until
next_power_of_two n = double_until n 1 n

-- `extend_from_slice`: beyond the capacity, the vector is reallocated.
unfoldable pub extend_from_slice : Buffer → Bytes → Buffer
extend_from_slice b value =
    if leb (length b.bytes + length value) b.capacity
    then record b { bytes = b.bytes ++ value }
    else record {
      bytes = b.bytes ++ value;
      capacity = max (length b.bytes + length value) (2 * b.capacity);
      version = suc b.version;
    }

-- A new current buffer, if the string does not fit.
unfoldable pub make_room : InternedStringArena → ℕ → InternedStringArena
unfolding next_power_of_two
make_room a len =
    let capacity = a.current_buffer.capacity in
    if ltb (capacity - length a.current_buffer.bytes) len
    then record {
      current_buffer = with_capacity (next_power_of_two (max capacity len + 1));
      full_buffers = a.full_buffers ++ a.current_buffer ∷ [];
    }
    else a

unfoldable pub add : InternedStringArena → Bytes → InternedStringArena × InternedStringContent
unfolding make_room extend_from_slice
add a value =
    let room = make_room a (length value) in
    let extended = extend_from_slice room.current_buffer value in
    (
      record room { current_buffer = extended },
      record {
        buffer = length room.full_buffers;
        version = extended.version;
        start = length room.current_buffer.bytes;
        len = length value;
      },
    )

-- `len` bytes from an index on, if they are all there.
unfoldable pub slice : Bytes → ℕ → ℕ → Option Bytes
slice bs zero zero = some []
slice [] zero (suc n) = none
slice (b ∷ bs) zero (suc n) = elim (slice bs zero n) [ none ↦ none | some rest ↦ some (b ∷ rest) ]
slice [] (suc i) n = none
slice (b ∷ bs) (suc i) n = slice bs i n

abbrev pub buffers : InternedStringArena → List Buffer
buffers a = a.full_buffers ++ a.current_buffer ∷ []

abbrev pub read_buffer : Option Buffer → InternedStringContent → Option Bytes
read_buffer none c = none
read_buffer (some b) c = if b.version == c.version then slice b.bytes c.start c.len else none

-- `as_str`, with `none` for a read outside of the buffer or of memory that has been moved.
unfoldable pub as_str : InternedStringArena → InternedStringContent → Option Bytes
unfolding slice
as_str a c = read_buffer (get_elem? (buffers a) c.buffer) c
