-- ===== src/Prelude/Words.antt =====
-- The u32 counters of the program, with their wrap-around (arithmetic as in a release build).
use Prim.Native.Nat.{ℕ, suc, ◌+◌, ◌-◌, ◌%◌, ◌<◌}
use mathlib.Core.Path.{◌≡◌}
use native.Mathlib.Omega.{arith}

abbrev pub u32_mod : ℕ
u32_mod = 4294967296

abbrev pub u32_max : ℕ
u32_max = 4294967295

-- `a + b` and `a - b` on u32.
unfoldable pub add_u32 : ℕ → ℕ → ℕ
add_u32 a b = (a + b) % u32_mod

unfoldable pub sub_u32 : ℕ → ℕ → ℕ
sub_u32 a b = (a + u32_mod - b) % u32_mod

-- `n as u32`.
unfoldable pub as_u32 : ℕ → ℕ
as_u32 n = n % u32_mod

pub add_u32_lt : (a b : ℕ) → a + b < u32_mod → add_u32 a b ≡ a + b
unfolding add_u32
add_u32_lt a b h = omega arith

pub as_u32_lt : (n : ℕ) → n < u32_mod → as_u32 n ≡ n
unfolding as_u32
as_u32_lt n h = omega arith

-- A counter that holds a count modulo 2^32 keeps doing so.
pub add_u32-as_u32 : (n : ℕ) → add_u32 (as_u32 n) 1 ≡ as_u32 (suc n)
unfolding add_u32 as_u32
add_u32-as_u32 n = omega arith

pub sub_u32-as_u32 : (n : ℕ) → sub_u32 (as_u32 (suc n)) 1 ≡ as_u32 n
unfolding sub_u32 as_u32
sub_u32-as_u32 n = omega arith
