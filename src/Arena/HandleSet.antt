-- ===== src/Arena/HandleSet.antt =====
-- stack-graphs/src/arena.rs, `HandleSet`: a set of handles as a bit vector indexed by the handle.
use stack_graphs_muffet.Prelude.{
  ℕ, zero, suc, ◌+◌, ◌-◌, ◌/◌, List, [], ◌∷◌, ◌++◌, Bool, true, false, if◌then◌else◌, leb,
  get_elem?, set, length, replicate, Option, none, some,
}
use stack_graphs_muffet.Arena.{Handle}
pub mod Laws

pub record HandleSet : Type 0 where
  pub elements : List Bool

unfoldable pub new : HandleSet
new = record { elements = [] }

unfoldable pub clear : HandleSet → HandleSet
clear s = record s { elements = [] }

unwrap_or_false : Option Bool → Bool
unwrap_or_false none = false
unwrap_or_false (some b) = b

unfoldable pub contains : HandleSet → Handle → Bool
unfolding unwrap_or_false
contains s handle = unwrap_or_false (get_elem? s.elements handle)

unfoldable pub resize : List Bool → ℕ → List Bool
resize bits n = bits ++ replicate (n - length bits) false

unfoldable pub add : HandleSet → Handle → HandleSet
unfolding resize
add s handle =
    let grown =
      if leb (length s.elements) handle then resize s.elements (handle + 1) else s.elements in
    record s { elements = set grown handle true }

-- A handle out of range is left alone, as `set` leaves the list.
unfoldable pub remove : HandleSet → Handle → HandleSet
remove s handle = record s { elements = set s.elements handle false }

-- `iter_ones`, the indices counted from `i`.
unfoldable pub ones_from : ℕ → List Bool → List Handle
ones_from i [] = []
ones_from i (true ∷ bits) = i ∷ ones_from (suc i) bits
ones_from i (false ∷ bits) = ones_from (suc i) bits

unfoldable pub iter : HandleSet → List Handle
unfolding ones_from
iter s = ones_from 0 s.elements

-- The number of 32-bit words of the bit vector.
unfoldable pub len : HandleSet → ℕ
len s = (length s.elements + 31) / 32
