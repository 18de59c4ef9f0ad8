-- ===== src/Arena/Laws.antt =====
-- The arena operations of stack-graphs/src/arena.rs, one after another.
use stack_graphs_muffet.Prelude.{
  ℕ, zero, suc, ◌+◌, ◌<◌, ◌≤◌, ◌≡◌, ◌≢◌, refl, ap, sym, ◌∙◌, [], ◌∷◌, some, arith, u32_max,
  as_u32_lt, length, length-append, length-set, get_elem?-append, get_elem?-append_last,
  get_elem?-append_ne, get_elem?-set_self, get_elem?-set_ne, lt-length_of_get_elem?,
}
use stack_graphs_muffet.Arena.{Arena, Handle, len, add, get, put}

module _ {ℓ} {A : Type ℓ} where
  -- `n` more items leave every index below `EMPTY_LIST_HANDLE`.
  abbrev pub HasRoom : ℕ → Arena A → Type 0
  HasRoom n a = length a.items + n < u32_max

  pub add-handle : (a : Arena A) (x : A) → HasRoom 1 a → (add a x).1 ≡ suc (length a.items)
  unfolding add len
  add-handle a x h = as_u32_lt (suc (length a.items)) (omega arith)

  pub length-add : (a : Arena A) (x : A) → length (add a x).0.items ≡ suc (length a.items)
  unfolding add
  length-add a x = omega (arith, length-append a.items (x ∷ []))

  pub get-add_self : (a : Arena A) (x : A) → HasRoom 1 a → get (add a x).0 (add a x).1 ≡ some x
  unfolding get
  get-add_self a x h = rw (add-handle a x h) (last a x)
    where
      last : (a : Arena A) (x : A) → get (add a x).0 (suc (length a.items)) ≡ some x
      last a x = unfold add in get_elem?-append_last a.items x

  pub get-add_old :
      (a : Arena A) (x v : A) (h : Handle) → get a h ≡ some v → get (add a x).0 h ≡ some v
  unfolding get add
  get-add_old a x v zero e = cc
  get-add_old a x v (suc i) e = get_elem?-append a.items i v x e

  pub get-add_ne :
      (a : Arena A) (x : A) (h : Handle)
      → HasRoom 1 a
      → h ≢ (add a x).1
      → get (add a x).0 h ≡ get a h
  get-add_ne a x zero room n = unfold get in refl
  get-add_ne a x (suc i) room n =
      unfold get add len in
      get_elem?-append_ne a.items i x (λ e. n (ap suc e ∙ sym (add-handle a x room)))

  -- A handle that can be read is the index of a slot in use.
  pub get_bounds :
      (a : Arena A) (h : Handle) (v : A) → get a h ≡ some v → (0 < h) × (h ≤ length a.items)
  unfolding get
  get_bounds a zero v e = cc
  get_bounds a (suc i) v e = (omega arith, omega (arith, lt-length_of_get_elem? a.items i v e))

  pub length-put : (a : Arena A) (h : Handle) (v : A) → length (put a h v).items ≡ length a.items
  unfolding put
  length-put a zero v = refl
  length-put a (suc i) v = length-set a.items i v

  pub get-put_self :
      (a : Arena A) (h : Handle) (v w : A) → get a h ≡ some v → get (put a h w) h ≡ some w
  unfolding get put
  get-put_self a zero v w e = cc
  get-put_self a (suc i) v w e =
      get_elem?-set_self a.items i w (lt-length_of_get_elem? a.items i v e)

  pub get-put_ne : (a : Arena A) (h k : Handle) (w : A) → h ≢ k → get (put a h w) k ≡ get a k
  unfolding get put
  get-put_ne a zero k w n = refl
  get-put_ne a (suc i) zero w n = refl
  get-put_ne a (suc i) (suc k) w n = get_elem?-set_ne a.items i k w (λ e. n (ap suc e))
