-- ===== src/Arena/HandleSet/Laws.antt =====
-- Membership in a `HandleSet` (stack-graphs/src/arena.rs).
use stack_graphs_muffet.Prelude.{
  ℕ, zero, suc, ◌+◌, ◌-◌, ◌≤◌, ◌<◌, ◌≡◌, refl, ap, List, [], ◌∷◌, ◌++◌, Bool, true, false, inl, inr,
  if◌then◌else◌, leb, ◌==◌, ◌||◌, get_elem?, set, length, replicate, arith, length-append,
  length-replicate, Bool-cases, ◌∙◌,
}
use stack_graphs_muffet.Arena.{Handle}
use stack_graphs_muffet.Arena.HandleSet.{
  HandleSet, contains, unwrap_or_false, add, remove, resize, iter, ones_from,
}

abbrev bit : List Bool → ℕ → Bool
bit bits i = unwrap_or_false (get_elem? bits i)

bit-set :
    (bits : List Bool) (i j : ℕ) (b : Bool)
    → i < length bits
    → bit (set bits i b) j ≡ (if i == j then b else bit bits j)
unfolding unwrap_or_false
bit-set [] i j b h = elim h [ ]
bit-set (c ∷ bits) zero zero b h = refl
bit-set (c ∷ bits) zero (suc j) b h = ground arith
bit-set (c ∷ bits) (suc i) zero b h = ground arith
bit-set (c ∷ bits) (suc i) (suc j) b h = ground (arith, bit-set bits i j b)

bit_out :
    (bits : List Bool) (i j : ℕ)
    → length bits ≤ i
    → bit (set bits i false) j ≡ (if i == j then false else bit bits j)
unfolding unwrap_or_false
bit_out [] i j h = ground arith
bit_out (c ∷ bits) zero j h = absurd (omega arith)
bit_out (c ∷ bits) (suc i) zero h = ground arith
bit_out (c ∷ bits) (suc i) (suc j) h = ground (arith, bit_out bits i j)

bit-replicate : (n j : ℕ) → bit (replicate n false) j ≡ false
unfolding unwrap_or_false
bit-replicate zero j = refl
bit-replicate (suc n) zero = refl
bit-replicate (suc n) (suc j) = bit-replicate n j

bit-append : (bits : List Bool) (n j : ℕ) → bit (bits ++ replicate n false) j ≡ bit bits j
unfolding unwrap_or_false
bit-append [] n j = bit-replicate n j
bit-append (c ∷ bits) n zero = refl
bit-append (c ∷ bits) n (suc j) = bit-append bits n j

bit-resize : (bits : List Bool) (n j : ℕ) → bit (resize bits n) j ≡ bit bits j
unfolding resize
bit-resize bits n j = bit-append bits (n - length bits) j

length-resize : (bits : List Bool) (n : ℕ) → n ≤ length (resize bits n)
unfolding resize
length-resize bits n = omega (
  arith,
  length-append {0} bits (replicate (n - length bits) false),
  length-replicate {0} (n - length bits) false,
)

-- After `add h` exactly the old members and `h` are members, also when the bit vector had to grow.
pub contains-add :
    (s : HandleSet) (h k : Handle) → contains (add s h) k ≡ (if h == k then true else contains s k)
unfolding contains add
contains-add s h k = elim (Bool-cases (leb (length s.elements) h)) [
  | inl grow ↦ ground (
    arith,
    bit-set (resize s.elements (h + 1)) h k true,
    bit-resize s.elements (h + 1) k,
    length-resize s.elements (h + 1),
  )
  | inr fits ↦ ground (arith, bit-set s.elements h k true)
]

-- After `remove h` exactly the old members other than `h` are members.
pub contains-remove :
    (s : HandleSet) (h k : Handle)
    → contains (remove s h) k ≡ (if h == k then false else contains s k)
unfolding contains remove
contains-remove s h k = elim (Bool-cases (leb (length s.elements) h)) [
  | inl beyond ↦ ground (arith, bit_out s.elements h k)
  | inr fits ↦ ground (arith, bit-set s.elements h k false)
]

-- Whether a list of handles has `h`.
unfoldable pub listed : Handle → List Handle → Bool
listed h [] = false
listed h (k ∷ ks) = (k == h) || listed h ks

listed-ones_from_lt : (bits : List Bool) (i h : ℕ) → h < i → listed h (ones_from i bits) ≡ false
unfolding listed ones_from
listed-ones_from_lt [] i h lt = refl
listed-ones_from_lt (true ∷ bits) i h lt = ground (arith, listed-ones_from_lt bits (suc i) h)
listed-ones_from_lt (false ∷ bits) i h lt = listed-ones_from_lt bits (suc i) h (omega arith)

listed-ones_from : (bits : List Bool) (i j : ℕ) → listed (i + j) (ones_from i bits) ≡ bit bits j
unfolding listed ones_from unwrap_or_false
listed-ones_from [] i j = refl
listed-ones_from (true ∷ bits) i zero = ground arith
listed-ones_from (false ∷ bits) i zero = listed-ones_from_lt bits (suc i) (i + 0) (omega arith)
listed-ones_from (true ∷ bits) i (suc j) =
    let shift : i + suc j ≡ suc i + j = omega arith in
    let later : listed (i + suc j) (ones_from (suc i) bits) ≡ bit bits j =
      ap (λ (z : ℕ). listed z (ones_from (suc i) bits)) shift ∙ listed-ones_from bits (suc i) j in
    ground arith
listed-ones_from (false ∷ bits) i (suc j) =
    let shift : i + suc j ≡ suc i + j = omega arith in rw shift (listed-ones_from bits (suc i) j)

-- `iter` lists exactly the members of the set.
pub listed-iter : (s : HandleSet) (h : Handle) → listed h (iter s) ≡ contains s h
unfolding iter contains
listed-iter s h =
    let shift : h ≡ 0 + h = omega arith in
    ap (λ (z : ℕ). listed z (ones_from 0 s.elements)) shift ∙ listed-ones_from s.elements 0 h
