-- ===== src/Arena/Supplemental.antt =====
-- stack-graphs/src/arena.rs, `SupplementalArena`: additional data of some of the instances in an
-- arena, under the handles of that arena. As in `Arena`, slot 0 is never initialised and is left
-- out. `none` is a missing item, or the panic of an index out of range.
use stack_graphs_muffet.Prelude.{
  ℕ, zero, suc, ◌+◌, ◌-◌, ◌≤◌, ◌<◌, ◌≡◌, refl, sym, List, [], ◌∷◌, ◌++◌, Option, none, some, arith,
  leb, ltb, ◌==◌, if◌then◌else◌, get_elem?, set, length, replicate, as_u32,
}
use stack_graphs_muffet.Arena.{Handle}
pub mod Laws

pub record SupplementalArena {ℓ} (A : Type ℓ) : Type ℓ where
  pub items : List A

module _ {ℓ} {A : Type ℓ} where
  unfoldable pub new : SupplementalArena A
  new = record { items = [] }

  unfoldable pub clear : SupplementalArena A → SupplementalArena A
  clear s = record { items = [] }

  unfoldable pub len : SupplementalArena A → ℕ
  len s = suc (length s.items)

  unfoldable pub get : SupplementalArena A → Handle → Option A
  get s zero = none
  get s (suc i) = get_elem? s.items i

  -- `resize_with(index + 1, T::default)`, for slots that are not there.
  unfoldable pub grow : A → List A → ℕ → List A
  grow default items n = items ++ replicate (n - length items) default

  -- `*get_mut_or_default(handle) = item`, and the same through `index_mut`. A handle is not 0.
  unfoldable pub put_or_default : A → SupplementalArena A → Handle → A → SupplementalArena A
  unfolding grow
  put_or_default default s zero item = s
  put_or_default default s (suc i) item = record {
    items = set (if leb (length s.items) i then grow default s.items (suc i) else s.items) i item;
  }

  entries_from : ℕ → List A → List (Handle × A)
  entries_from i [] = []
  entries_from i (x ∷ xs) = (as_u32 i, x) ∷ entries_from (suc i) xs

  unfoldable pub iter : SupplementalArena A → List (Handle × A)
  unfolding entries_from
  iter s = entries_from 1 s.items
