-- ===== src/Arena/Reversible/Reverse.antt =====
-- `reverse` of the lists in stack-graphs/src/arena.rs, and the caches that it writes.
use stack_graphs_muffet.Prelude.{
  ℕ, zero, suc, ◌+◌, ◌<◌, ◌≤◌, ◌≡◌, ◌≢◌, refl, sym, ◌∙◌, subst, List, [], ◌∷◌, ◌++◌, none, some,
  arith, length, reverse-cons, append_assoc, append-nil, true, false, Option-cases, if◌then◌else◌,
  Bool, inl, inr,
}
use mathlib.Core.List
use stack_graphs_muffet.Arena.{Handle, add, get, put}
use stack_graphs_muffet.Arena.Laws.{HasRoom, length-add, length-put, get-put_self}
use stack_graphs_muffet.Arena.Reversible.{
  ReversibleListCell, ReversibleListArena, empty, is_empty, reversed_cell, reverse_loop,
  reverse_cell, ensure_reversal_available, reverse,
}
use stack_graphs_muffet.Arena.Reversible.Repr.{
  Represents, nil, cons, Extends-refl, Extends-trans, Represents-Extends, Represents-unique,
  IsValid, Grows, Represents-inv, Represents-nil, Represents-empty,
}
use stack_graphs_muffet.Arena.Reversible.Grow.{
  Grows-add, Represents-add, Grows-put, set_reversed-put, Represents-bound,
}

-- A list other than the empty one is not at the empty handle.
pub is_empty_ne : (l : Handle) → l ≢ empty → is_empty l ≡ false
is_empty_ne l n = ground arith

module _ {ℓ} {A : Type ℓ} where
  -- A handle in a grown arena with at most `n` more cells, which stands for `xs`.
  pub record Reversed (a b : ReversibleListArena A) (l : Handle) (xs : List A) (n : ℕ)
      : Type ℓ where
    pub grows : Grows a b
    pub list : Represents b l xs
    pub size : length b.items ≤ length a.items + n

  reverse-cons-append :
      (y : A) (zs ys : List A) → List.reverse (y ∷ zs) ++ ys ≡ List.reverse zs ++ (y ∷ ys)
  reverse-cons-append y zs ys = rw reverse-cons (append_assoc (List.reverse zs) (y ∷ []) ys)

  -- What one round of the loop relies on, at the cell `c` of the element `y`.
  module _ (a : ReversibleListArena A) (forwards reversed : Handle) (c : ReversibleListCell A)
      (ys zs : List A) (v : IsValid a) (rt : Represents a c.tail ys) (rr : Represents a reversed zs)
      (rf : Represents a forwards (List.reverse zs ++ (c.head ∷ ys))) (room : HasRoom 1 a) where
    round_cached :
        (b : Bool) (q : Handle)
        → is_empty c.tail ≡ b
        → (if b then some forwards else none) ≡ some q
        → Represents a q (List.reverse (c.head ∷ zs))
    round_cached true q last e =
        let none_left : ys ≡ [] = Represents-empty rt (ground arith) in
        let whole : List.reverse zs ++ (c.head ∷ ys) ≡ List.reverse (c.head ∷ zs) =
          rw none_left (sym (reverse-cons c.head zs)) in
        let same : forwards ≡ q = ground arith in
        subst (λ (z : Handle). Represents a z (List.reverse (c.head ∷ zs))) same
          (subst (λ (z : List A). Represents a forwards z) whole rf)
    round_cached false q last e = cc

    round_ok :
        (q : Handle)
        → (reversed_cell forwards c.head reversed c.tail).reversed ≡ some q
        → Represents a q (List.reverse (c.head ∷ zs))
    round_ok q e = round_cached (is_empty c.tail) q refl e

    round-Grows : Grows a (add a (reversed_cell forwards c.head reversed c.tail)).0
    round-Grows = Grows-add a (reversed_cell forwards c.head reversed c.tail) zs v room rr round_ok

    round_list :
        Represents
          (add a (reversed_cell forwards c.head reversed c.tail)).0
          (add a (reversed_cell forwards c.head reversed c.tail)).1
          (c.head ∷ zs)
    round_list =
        Represents-add a (reversed_cell forwards c.head reversed c.tail) zs v room rr round_ok

    round_forwards :
        Represents
          (add a (reversed_cell forwards c.head reversed c.tail)).0
          forwards
          (List.reverse (c.head ∷ zs) ++ ys)
    round_forwards = Represents-Extends round-Grows.kept (
        subst (λ (z : List A). Represents a forwards z) (sym (reverse-cons-append c.head zs ys)) rf)

  reverse_loop_step :
      (fuel : ℕ) (a : ReversibleListArena A) (forwards current reversed : Handle)
      (c : ReversibleListCell A)
      → current ≢ empty
      → get a current ≡ some c
      → reverse_loop (suc fuel) a forwards current reversed
        ≡ reverse_loop fuel
            (add a (reversed_cell forwards c.head reversed c.tail)).0
            forwards
            c.tail
            (add a (reversed_cell forwards c.head reversed c.tail)).1
  unfolding reverse_loop
  reverse_loop_step fuel a forwards current reversed c n e = ground arith

  whole :
      (x y : A) (ys zs : List A) → x ≡ y → List.reverse ys ++ (x ∷ zs) ≡ List.reverse (y ∷ ys) ++ zs
  whole x y ys zs h = rw (h, reverse-cons-append)

  reverse_loop_lem :
      (fuel : ℕ) (a : ReversibleListArena A) (forwards current reversed : Handle) (ys zs : List A)
      → IsValid a
      → Represents a current ys
      → Represents a reversed zs
      → Represents a forwards (List.reverse zs ++ ys)
      → HasRoom (length ys) a
      → length ys < fuel
      → (b : ReversibleListArena A) × (l : Handle) × (reverse_loop fuel a forwards current reversed
          ≡ some (b, l))
        × Reversed a b l (List.reverse ys ++ zs) (length ys)
  unfolding reverse_loop
  reverse_loop_lem zero a forwards current reversed ys zs v rc rr rf room f = absurd (omega arith)
  reverse_loop_lem (suc fuel) a forwards current reversed [] zs v rc rr rf room f = (
    a,
    reversed,
    rw (Represents-nil rc refl),
    record { grows = record { valid = v; kept = Extends-refl a }; list = rr; size = omega arith },
  )
  reverse_loop_lem (suc fuel) a forwards current reversed (y ∷ ys) zs v rc rr rf room f =
      let (c, e, n, h, t) = Represents-inv rc y ys refl in
      let one : HasRoom 1 a = omega arith in
      let rf' : Represents a forwards (List.reverse zs ++ (c.head ∷ ys)) = rw h rf in
      let cell = reversed_cell forwards c.head reversed c.tail in
      let a' = (add a cell).0 in
      let l' = (add a cell).1 in
      let grows = round-Grows a forwards reversed c ys zs v t rr rf' one in
      let (b, l, run, done) =
        reverse_loop_lem fuel a' forwards c.tail l' ys (c.head ∷ zs) grows.valid
          (Represents-Extends grows.kept t) (round_list a forwards reversed c ys zs v t rr rf' one)
          (round_forwards a forwards reversed c ys zs v t rr rf' one)
          (omega (arith, length-add a cell)) (omega arith) in
      (
        b,
        l,
        reverse_loop_step fuel a forwards current reversed c n e ∙ run,
        record {
          grows = record {
            valid = done.grows.valid;
            kept = Extends-trans grows.kept done.grows.kept;
          };
          list = subst (λ (z : List A). Represents b l z) (whole c.head y ys zs h) done.list;
          size = omega (arith, done.size, length-add a cell);
        },
      )

  reverse_cell_lem :
      (a : ReversibleListArena A) (l : Handle) (xs : List A)
      → IsValid a
      → Represents a l xs
      → HasRoom (length xs) a
      → (b : ReversibleListArena A) × (r : Handle) × (reverse_cell l a ≡ some (b, r))
        × Reversed a b r (List.reverse xs) (length xs)
  unfolding reverse_cell
  reverse_cell_lem a l xs v r room =
      let (b, q, run, done) =
        reverse_loop_lem (suc (length a.items)) a l l empty xs [] v r (nil refl) r room
          (Represents-bound v r) in
      (
        b,
        q,
        run,
        record {
          grows = done.grows;
          list = subst (λ (z : List A). Represents b q z) (append-nil (List.reverse xs)) done.list;
          size = done.size;
        },
      )

  -- After `ensure_reversal_available` the first cell caches the reversed list.
  ensure_lem :
      (a : ReversibleListArena A) (l : Handle) (c : ReversibleListCell A) (xs : List A)
      → IsValid a
      → l ≢ empty
      → get a l ≡ some c
      → Represents a l xs
      → HasRoom (length xs) a
      → (b : ReversibleListArena A) × (d : ReversibleListCell A) × (r : Handle)
        × (ensure_reversal_available l a ≡ some b)
        × (get b l ≡ some d)
        × (d.reversed ≡ some r)
        × Reversed a b r (List.reverse xs) (length xs)
  unfolding ensure_reversal_available
  ensure_lem a l c xs v n e r room = elim (Option-cases c.reversed) [
    | inr (q, cached) ↦
        let k = v.cells l c e in
        (
          a,
          c,
          q,
          ground arith,
          e,
          cached,
          record {
            grows = record { valid = v; kept = Extends-refl a };
            list =
                subst (λ (z : List A). Represents a q (List.reverse z))
                  (Represents-unique (cons c n e k.tail) r) (k.cached q cached);
            size = omega arith;
          },
        )
    | inl fresh ↦
        let (b, q, run, done) = reverse_cell_lem a l xs v r room in
        let (d, f, dh, dt) = done.grows.kept.cell l c e in
        let r' = Represents-Extends done.grows.kept r in
        let grows = Grows-put b l q d xs done.grows.valid n f r' done.list in
        let stored = set_reversed-put b l q d xs done.grows.valid n f r' done.list in
        (
          put b l (record d { reversed = some q }),
          record d { reversed = some q },
          q,
          ground arith,
          get-put_self b l d (record d { reversed = some q }) f,
          refl,
          record {
            grows = record { valid = grows.valid; kept = Extends-trans done.grows.kept grows.kept };
            list = Represents-Extends grows.kept done.list;
            size = omega (arith, done.size, length-put b l (record d { reversed = some q }));
          },
        )
  ]

  -- On a valid arena `reverse` returns: its handle stands for the reversed list, the arena stays
  -- valid, and every list that stood in it still stands there.
  pub reverse_lem :
      (a : ReversibleListArena A) (l : Handle) (xs : List A)
      → IsValid a
      → Represents a l xs
      → HasRoom (length xs) a
      → (b : ReversibleListArena A) × (r : Handle) × (reverse l a ≡ some (b, r))
        × Reversed a b r (List.reverse xs) (length xs)
  unfolding reverse
  reverse_lem a l [] v (nil e) room = (
    a,
    l,
    ground arith,
    record {
      grows = record { valid = v; kept = Extends-refl a };
      list = nil e;
      size = omega arith;
    },
  )
  reverse_lem a l xs v (cons c n e t) room =
      let (b, d, q, run, found, cached, done) = ensure_lem a l c xs v n e (cons c n e t) room in
      (b, q, ground arith, done)
