-- ===== src/Arena/Deque/Pop.antt =====
-- Taking elements from the deques of stack-graphs/src/arena.rs: `pop_front`, `pop_back`, `iter`.
use stack_graphs_muffet.Prelude.{
  suc, ◌≡◌, refl, ap, sym, ◌∙◌, subst, List, [], ◌∷◌, Option, none, some, arith, length,
  reverse-reverse, length-reverse,
}
use mathlib.Core.List
use stack_graphs_muffet.Arena.{Handle}
use stack_graphs_muffet.Arena.Laws.{HasRoom}
use stack_graphs_muffet.Arena.Reversible.Repr.{Represents, IsValid, Grows, Extends-refl}
use stack_graphs_muffet.Arena.Reversible.Compare.{pop_front_nil, pop_front_cons, iter_lem}
use stack_graphs_muffet.Arena.Reversible.Reverse.{reverse_lem}
use stack_graphs_muffet.Arena.Deque.{
  DequeDirection, forwards, backwards, Deque, DequeArena, pop_front, pop_back, list_pop_front, iter,
  iter_reversed, elements,
}
use stack_graphs_muffet.Arena.Deque.Holds.{stored, Holds, Turned}
use stack_graphs_muffet.Arena.Deque.Laws.{Leaves, facing_front, facing_back}

-- The first element, and the elements behind it.
abbrev pub front {ℓ} : {A : Type ℓ} → List A → Option A
front [] = none
front (x ∷ xs) = some x

abbrev pub rest {ℓ} : {A : Type ℓ} → List A → List A
rest [] = []
rest (x ∷ xs) = xs

module _ {ℓ} {A : Type ℓ} where
  stored_twice : (o : DequeDirection) (xs : List A) → stored o (stored o xs) ≡ xs
  stored_twice forwards xs = refl
  stored_twice backwards xs = reverse-reverse xs

  -- What `list_pop_front` does to a list stored in the direction `o`.
  popped :
      (a b : DequeArena A) (e : Deque) (o : DequeDirection) (xs ys : List A)
      → Turned a b e xs o (length xs)
      → stored o xs ≡ ys
      → (d : Deque) × (list_pop_front e b ≡ some (b, front ys, d))
        × Leaves a b d (stored o (rest ys)) (length xs)
  popped a b e o xs [] t s = (
    e,
    rw (pop_front_nil b e.list (subst (λ (z : List A). Represents b e.list z) s t.holds)),
    record {
      grows = t.grows;
      holds =
          subst (λ (z : List A). Represents b e.list z)
            (s
              ∙ sym (stored_twice o [])
              ∙ ap (λ (z : DequeDirection). stored z (stored o [])) (sym t.direction))
            t.holds;
      size = t.size;
    },
  )
  popped a b e o xs (y ∷ ys) t s =
      let (l, run, list) =
        pop_front_cons b e.list y ys (subst (λ (z : List A). Represents b e.list z) s t.holds) in
      (
        record e { list = l },
        rw run,
        record {
          grows = t.grows;
          holds =
              subst (λ (z : List A). Represents b l z)
                (sym (stored_twice o ys)
                  ∙ ap (λ (z : DequeDirection). stored z (stored o ys)) (sym t.direction))
                list;
          size = t.size;
        },
      )

  module _ (a : DequeArena A) (d : Deque) (xs : List A) (v : IsValid a) (h : Holds a d xs)
      (room : HasRoom (suc (length xs)) a) where
    -- On a valid arena with room, `pop_front` gives the first element and leaves the others, in
    -- order (nothing of an empty deque); every deque of the arena holds what it did.
    pub pop_front-Holds :
        (b : DequeArena A) × (e : Deque) × (pop_front d a ≡ some (b, front xs, e))
        × Leaves a b e (rest xs) (length xs)
    unfolding pop_front
    pop_front-Holds =
        let (b, e, run, t) = facing_front a d xs v h room in
        let (f, pop, leaves) = popped a b e forwards xs xs t refl in (b, f, ground arith, leaves)

    -- On a valid arena with room, `pop_back` gives the last element and leaves the others, in
    -- order (nothing of an empty deque); every deque of the arena holds what it did.
    pub pop_back-Holds :
        (b : DequeArena A) × (e : Deque) × (pop_back d a ≡ some (b, front (List.reverse xs), e))
        × Leaves a b e (List.reverse (rest (List.reverse xs))) (length xs)
    unfolding pop_back
    pop_back-Holds =
        let (b, e, run, t) = facing_back a d xs v h room in
        let (f, pop, leaves) = popped a b e backwards xs (List.reverse xs) t refl in
        (b, f, ground arith, leaves)

    elements_lem :
        (b : DequeArena A) (l : Handle) (zs : List A)
        → IsValid b
        → Represents b l zs
        → elements (b, l) ≡ some (b, zs)
    elements_lem b l zs w r = rw (iter_lem b l zs w r)

    iter_facing :
        (o : DequeDirection)
        → Represents a d.list (stored o xs)
        → (b : DequeArena A) × (iter (record d { direction = o }) a ≡ some (b, xs)) × Grows a b
    unfolding iter
    iter_facing forwards r =
        (a, elements_lem a d.list xs v r, record { valid = v; kept = Extends-refl a })
    iter_facing backwards r =
        let (b, l, run, done) =
          reverse_lem a d.list (List.reverse xs) v r (omega (arith, length-reverse xs)) in
        (
          b,
          rw run (
              elements_lem b l xs done.grows.valid
                (subst (λ (z : List A). Represents b l z) (reverse-reverse xs) done.list)),
          done.grows,
        )

    -- On a valid arena with room, `iter` gives the elements of the deque in order, whatever the
    -- direction in which they are stored; every deque of the arena holds what it did.
    pub iter-Holds : (b : DequeArena A) × (iter d a ≡ some (b, xs)) × Grows a b
    iter-Holds = iter_facing d.direction h

    iter_reversed_facing :
        (o : DequeDirection)
        → Represents a d.list (stored o xs)
        → (b : DequeArena A) × (iter_reversed (record d { direction = o }) a
            ≡ some (b, List.reverse xs))
          × Grows a b
    unfolding iter_reversed
    iter_reversed_facing backwards r = (
      a,
      elements_lem a d.list (List.reverse xs) v r,
      record { valid = v; kept = Extends-refl a },
    )
    iter_reversed_facing forwards r =
        let (b, l, run, done) = reverse_lem a d.list xs v r (omega arith) in
        (b, rw run (elements_lem b l (List.reverse xs) done.grows.valid done.list), done.grows)

    -- On a valid arena with room, `iter_reversed` gives the elements of the deque from the back.
    pub iter_reversed-Holds :
        (b : DequeArena A) × (iter_reversed d a ≡ some (b, List.reverse xs)) × Grows a b
    iter_reversed-Holds = iter_reversed_facing d.direction h
