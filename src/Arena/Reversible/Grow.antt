-- ===== src/Arena/Reversible/Grow.antt =====
-- The two writes of `ReversibleList` (stack-graphs/src/arena.rs), a new cell and a cached reversal.
use stack_graphs_muffet.Prelude.{
  suc, ◌<◌, ◌≤◌, ◌≡◌, ◌≢◌, refl, ap, sym, ◌∙◌, subst, List, ◌∷◌, some, arith, length, reverse,
}
use native.Mathlib.Decide.{ℕ_discrete}
use stack_graphs_muffet.Arena.{Handle, add, get, put}
use stack_graphs_muffet.Arena.Laws.{
  HasRoom, add-handle, get-add_self, get-add_old, get-add_ne, get_bounds, get-put_self, get-put_ne,
}
use stack_graphs_muffet.Arena.Reversible.{
  ReversibleListCell, ReversibleListArena, empty, set_reversed,
}
use stack_graphs_muffet.Arena.Reversible.Repr.{
  Represents, nil, cons, Extends, Represents-Extends, Represents-unique, IsCell, IsValid, Grows,
  IsCell-Extends,
}

module _ {ℓ} {A : Type ℓ} where
  Extends-add : (a : ReversibleListArena A) (c : ReversibleListCell A) → Extends a (add a c).0
  Extends-add a c = record { cell = λ l d e. (d, get-add_old a c d l e, refl, refl) }

  -- A list of a valid arena has no more elements than the arena has cells.
  pub Represents-length :
      {a : ReversibleListArena A} {l : Handle} {xs : List A}
      → IsValid a
      → Represents a l xs
      → length xs ≤ length a.items
  Represents-length v (nil e) = omega arith
  Represents-length {a} v (cons {l} {xs} c n e r) =
      let k = v.cells l c e in
      omega (arith, k.short, get_bounds a l c e, ap length (Represents-unique r k.tail))

  pub Represents-bound :
      {a : ReversibleListArena A} {l : Handle} {xs : List A}
      → IsValid a
      → Represents a l xs
      → length xs < suc (length a.items)
  Represents-bound v r = omega (arith, Represents-length v r)

  -- Adding a cell in front of a list, with a right cache or none.
  module _ (a : ReversibleListArena A) (c : ReversibleListCell A) (xs : List A) (v : IsValid a)
      (room : HasRoom 1 a) (r : Represents a c.tail xs)
      (ok : (q : Handle) → c.reversed ≡ some q → Represents a q (reverse (c.head ∷ xs))) where
    new-IsCell : IsCell (add a c).0 (add a c).1 c
    new-IsCell = record {
      rest = xs;
      tail = Represents-Extends (Extends-add a c) r;
      short = omega (arith, Represents-length v r, add-handle a c room);
      cached = λ q e. Represents-Extends (Extends-add a c) (ok q e);
    }

    add_cells :
        (l : Handle) (d : ReversibleListCell A)
        → get (add a c).0 l ≡ some d
        → IsCell (add a c).0 l d
    add_cells l d e = elim (ℕ_discrete l (add a c).1) [
      | yes p ↦
          let same : c ≡ d = ground (arith, get-add_self a c room) in
          subst (λ (z : Handle). IsCell (add a c).0 z d) (sym p)
            (subst (λ (z : ReversibleListCell A). IsCell (add a c).0 (add a c).1 z) same new-IsCell)
      | no n ↦
          IsCell-Extends (Extends-add a c) refl refl refl
            (v.cells l d (sym (get-add_ne a c l room n) ∙ e))
    ]

    pub Grows-add : Grows a (add a c).0
    Grows-add = record { valid = record { cells = add_cells }; kept = Extends-add a c }

    pub Represents-add : Represents (add a c).0 (add a c).1 (c.head ∷ xs)
    Represents-add =
        cons c (omega (arith, add-handle a c room)) (get-add_self a c room)
          (Represents-Extends (Extends-add a c) r)

  -- Caching a right reversal.
  module _ (a : ReversibleListArena A) (l q : Handle) (c : ReversibleListCell A) (xs : List A)
      (v : IsValid a) (n : l ≢ empty) (found : get a l ≡ some c) (r : Represents a l xs)
      (ok : Represents a q (reverse xs)) where
    abbrev cached_cell : ReversibleListCell A
    cached_cell = record c { reversed = some q }

    Extends-put : Extends a (put a l cached_cell)
    Extends-put = record {
      cell = λ k d e. elim (ℕ_discrete l k) [
        | yes p ↦ (
          cached_cell,
          ground (arith, get-put_self a l c cached_cell),
          ground arith,
          ground arith,
        )
        | no n ↦ (d, get-put_ne a l k cached_cell n ∙ e, refl, refl)
      ];
    }

    put_here : IsCell (put a l cached_cell) l cached_cell
    put_here =
        let k = v.cells l c found in
        record {
          rest = k.rest;
          tail = Represents-Extends Extends-put k.tail;
          short = k.short;
          cached = λ t e.
              let whole : xs ≡ c.head ∷ k.rest = Represents-unique r (cons c n found k.tail) in
              let same : q ≡ t = ground arith in
              subst (λ (z : Handle). Represents (put a l cached_cell) z (reverse (c.head ∷ k.rest)))
                same
                (subst (λ (z : List A). Represents (put a l cached_cell) q (reverse z)) whole
                  (Represents-Extends Extends-put ok));
        }

    put_cells :
        (k : Handle) (d : ReversibleListCell A)
        → get (put a l cached_cell) k ≡ some d
        → IsCell (put a l cached_cell) k d
    put_cells k d e = elim (ℕ_discrete l k) [
      | yes p ↦
          let same : cached_cell ≡ d = ground (arith, get-put_self a l c cached_cell) in
          subst (λ (z : Handle). IsCell (put a l cached_cell) z d) p
            (subst (λ (z : ReversibleListCell A). IsCell (put a l cached_cell) l z) same put_here)
      | no m ↦
          IsCell-Extends Extends-put refl refl refl
            (v.cells k d (sym (get-put_ne a l k cached_cell m) ∙ e))
    ]

    pub Grows-put : Grows a (put a l cached_cell)
    Grows-put = record { valid = record { cells = put_cells }; kept = Extends-put }

    pub set_reversed-put : set_reversed a l q ≡ some (put a l cached_cell)
    unfolding set_reversed
    set_reversed-put = rw found
