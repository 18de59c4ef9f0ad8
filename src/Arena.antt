-- ===== src/Arena.antt =====
-- stack-graphs/src/arena.rs, `Handle` and `Arena`. Slot 0 of the vector is never initialised, so
-- `items` holds the slots from 1 on, and a handle is the index of a slot. A read outside of the
-- vector panics and a read of slot 0 is undefined: both are `none` here.
pub mod Laws
pub mod HandleSet
pub mod Supplemental
pub mod Reversible
pub mod Deque
pub mod Lists
use stack_graphs_muffet.Prelude.{
  ℕ, zero, suc, ◌+◌, List, [], ◌∷◌, ◌++◌, Option, none, some, as_u32, get_elem?, set, length,
}

abbrev pub Handle : Type 0
Handle = ℕ

pub record Arena {ℓ} (A : Type ℓ) : Type ℓ where
  pub items : List A

module _ {ℓ} {A : Type ℓ} where
  unfoldable pub new : Arena A
  new = record { items = [] }

  unfoldable pub clear : Arena A → Arena A
  clear a = record { items = [] }

  unfoldable pub len : Arena A → ℕ
  len a = suc (length a.items)

  unfoldable pub add : Arena A → A → Arena A × Handle
  unfolding len
  add a item = (record { items = a.items ++ item ∷ [] }, as_u32 (len a))

  unfoldable pub get : Arena A → Handle → Option A
  get a zero = none
  get a (suc i) = get_elem? a.items i

  -- `*get_mut(handle) = item`.
  unfoldable pub put : Arena A → Handle → A → Arena A
  put a zero item = a
  put a (suc i) item = record { items = set a.items i item }

-- The handles from `first` on, `n` of them.
handles_from : ℕ → ℕ → List Handle
handles_from first zero = []
handles_from first (suc n) = as_u32 first ∷ handles_from (suc first) n

unfoldable pub iter_handles {ℓ} : {A : Type ℓ} → Arena A → List Handle
unfolding handles_from
iter_handles a = handles_from 1 (length a.items)
