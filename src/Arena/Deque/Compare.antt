-- ===== src/Arena/Deque/Compare.antt =====
-- `equals_with` and `cmp_with` of the deques in stack-graphs/src/arena.rs.
use stack_graphs_muffet.Prelude.{
  ◌+◌, ◌≡◌, refl, ap, ◌∙◌, subst, List, [], ◌∷◌, ◌++◌, some, arith, length, Bool, true, false, ◌&&◌,
  Ordering, reverse-cons, Bool-cases, inl, inr, is_some,
}
use mathlib.Core.List
use stack_graphs_muffet.Arena.{Handle}
use stack_graphs_muffet.Arena.Laws.{HasRoom}
use stack_graphs_muffet.Arena.Reversible
use stack_graphs_muffet.Arena.Reversible.Repr.{
  Represents, nil, cons, IsValid, Grows, Extends-refl, Extends-trans, Represents-Extends,
}
use stack_graphs_muffet.Arena.Reversible.Compare.{
  all_equal, lexicographic, equals_with_lem, cmp_with_lem,
}
use stack_graphs_muffet.Arena.Deque.{
  DequeDirection, forwards, backwards, flip, same_direction, Deque, DequeArena, have_reversal,
  ensure_same_direction, equals_with, cmp_with,
}
use stack_graphs_muffet.Arena.Deque.Holds.{stored, Holds, reverse_to_lem, ensure_forwards_lem}

module _ {ℓ} {A : Type ℓ} where
  all_equal-append :
      (eq : A → A → Bool) (x y : A) (xs ys : List A)
      → all_equal eq (xs ++ x ∷ []) (ys ++ y ∷ []) ≡ (eq x y && all_equal eq xs ys)
  unfolding all_equal
  all_equal-append eq x y [] [] = refl
  all_equal-append eq x y [] (z ∷ []) = ground arith
  all_equal-append eq x y [] (z ∷ w ∷ ys) = ground arith
  all_equal-append eq x y (z ∷ []) [] = ground arith
  all_equal-append eq x y (z ∷ w ∷ xs) [] = ground arith
  all_equal-append eq x y (z ∷ xs) (w ∷ ys) = ground (arith, all_equal-append eq x y xs ys)

  all_equal_short :
      (eq : A → A → Bool) (x : A) (xs : List A)
      → (all_equal eq (xs ++ x ∷ []) [] ≡ false) × (all_equal eq [] (xs ++ x ∷ []) ≡ false)
  unfolding all_equal
  all_equal_short eq x [] = (refl, refl)
  all_equal_short eq x (y ∷ xs) = (refl, refl)

  -- Whether lists agree does not depend on the direction of the comparison.
  all_equal-reverse :
      (eq : A → A → Bool) (xs ys : List A)
      → all_equal eq (List.reverse xs) (List.reverse ys) ≡ all_equal eq xs ys
  unfolding all_equal
  all_equal-reverse eq [] [] = refl
  all_equal-reverse eq [] (y ∷ ys) =
      rw (reverse-cons y ys) ((all_equal_short eq y (List.reverse ys)).1)
  all_equal-reverse eq (x ∷ xs) [] =
      rw (reverse-cons x xs) ((all_equal_short eq x (List.reverse xs)).0)
  all_equal-reverse eq (x ∷ xs) (y ∷ ys) =
      rw (reverse-cons x xs, reverse-cons y ys, all_equal-append, all_equal-reverse eq xs ys)

  all_equal-stored :
      (eq : A → A → Bool) (o : DequeDirection) (xs ys : List A)
      → all_equal eq (stored o xs) (stored o ys) ≡ all_equal eq xs ys
  all_equal-stored eq forwards xs ys = refl
  all_equal-stored eq backwards xs ys = all_equal-reverse eq xs ys

  have_reversal_lem :
      {a : DequeArena A} {l : Handle} {zs : List A}
      → Represents a l zs
      → (o : DequeDirection)
      → (r : Bool) × (have_reversal (record { list = l; direction = o }) a ≡ some r)
  unfolding have_reversal Reversible.have_reversal
  have_reversal_lem (nil e) o = (true, ground arith)
  have_reversal_lem (cons c n e t) o = (is_some c.reversed, ground arith)

  -- Both deques stored in one direction, in an arena that has grown.
  pub record Aligned (a b : DequeArena A) (d e : Deque) (xs ys : List A) (o : DequeDirection)
      : Type ℓ where
    pub grows : Grows a b
    pub left : Represents b d.list (stored o xs)
    pub right : Represents b e.list (stored o ys)

  module _ (a : DequeArena A) (l m : Handle) (xs ys : List A) (v : IsValid a)
      (room : HasRoom (length xs + length ys) a) where
    abbrev at : Handle → DequeDirection → Deque
    at l o = record { list = l; direction = o }

    turn_left :
        (o : DequeDirection)
        → Represents a l (stored o xs)
        → Represents a m (stored (flip o) ys)
        → have_reversal (at l o) a ≡ some true
        → same_direction o (flip o) ≡ false
        → (b : DequeArena A) × (d e : Deque) × (ensure_same_direction (at l o) a (at m (flip o))
            ≡ some (b, d, e))
          × Aligned a b d e xs ys (flip o)
    unfolding ensure_same_direction
    turn_left o r s at_hand n =
        let (b, d, run, t) = reverse_to_lem a (at l o) xs v r (omega arith) in
        (
          b,
          d,
          at m (flip o),
          ground arith,
          record { grows = t.grows; left = t.holds; right = Represents-Extends t.grows.kept s },
        )

    turn_right :
        (o : DequeDirection)
        → Represents a l (stored o xs)
        → Represents a m (stored (flip o) ys)
        → have_reversal (at l o) a ≡ some false
        → same_direction o (flip o) ≡ false
        → flip (flip o) ≡ o
        → (b : DequeArena A) × (d e : Deque) × (ensure_same_direction (at l o) a (at m (flip o))
            ≡ some (b, d, e))
          × Aligned a b d e xs ys o
    unfolding ensure_same_direction
    turn_right o r s fresh n twice =
        let (b, e, run, t) = reverse_to_lem a (at m (flip o)) ys v s (omega arith) in
        (
          b,
          at l o,
          e,
          ground arith,
          record {
            grows = t.grows;
            left = Represents-Extends t.grows.kept r;
            right = subst (λ (z : DequeDirection). Represents b e.list (stored z ys)) twice t.holds;
          },
        )

    turn :
        (o : DequeDirection)
        → Represents a l (stored o xs)
        → Represents a m (stored (flip o) ys)
        → same_direction o (flip o) ≡ false
        → flip (flip o) ≡ o
        → (b : DequeArena A) × (d e : Deque) × (p : DequeDirection) × (ensure_same_direction
              (at l o)
              a
              (at m (flip o))
            ≡ some (b, d, e))
          × Aligned a b d e xs ys p
    turn o r s n twice =
        let (at_hand, e) = have_reversal_lem r o in
        elim (Bool-cases at_hand) [
          | inl p ↦
              let (b, d, f, run, al) = turn_left o r s (e ∙ ap some p) n in
              (b, d, f, flip o, run, al)
          | inr p ↦
              let (b, d, f, run, al) = turn_right o r s (e ∙ ap some p) n twice in
              (b, d, f, o, run, al)
        ]

    ensure_same_direction_lem :
        (o p : DequeDirection)
        → Represents a l (stored o xs)
        → Represents a m (stored p ys)
        → (b : DequeArena A) × (d e : Deque) × (q : DequeDirection) × (ensure_same_direction
              (at l o)
              a
              (at m p)
            ≡ some (b, d, e))
          × Aligned a b d e xs ys q
    unfolding ensure_same_direction
    ensure_same_direction_lem forwards backwards r s = turn forwards r s refl refl
    ensure_same_direction_lem backwards forwards r s = turn backwards r s refl refl
    ensure_same_direction_lem forwards forwards r s = (
      a,
      at l forwards,
      at m forwards,
      forwards,
      refl,
      record { grows = record { valid = v; kept = Extends-refl a }; left = r; right = s },
    )
    ensure_same_direction_lem backwards backwards r s = (
      a,
      at l backwards,
      at m backwards,
      backwards,
      refl,
      record { grows = record { valid = v; kept = Extends-refl a }; left = r; right = s },
    )

  -- Two deques of a valid arena with room, and an equality or an order that is reflexive.
  module _ (a : DequeArena A) (d e : Deque) (xs ys : List A) (v : IsValid a) (h : Holds a d xs)
      (k : Holds a e ys) (room : HasRoom (length xs + length ys) a) where
    -- On two deques of a valid arena with room, and for a test that every element passes with
    -- itself, `equals_with` returns, and tells whether the deques have equally many elements that
    -- pass the test pairwise, front first, whatever the directions in which they are stored. Every
    -- deque of the arena holds what it did.
    pub equals_with-Holds :
        (eq : A → A → Bool)
        → ((x : A) → eq x x ≡ true)
        → (b : DequeArena A) × (equals_with d a e eq ≡ some (b, all_equal eq xs ys)) × Grows a b
    unfolding equals_with
    equals_with-Holds eq h_refl =
        let (b, f, g, q, run, al) =
          ensure_same_direction_lem a d.list e.list xs ys v room d.direction e.direction h k in
        let same =
          equals_with_lem b eq h_refl f.list g.list (stored q xs) (stored q ys) al.grows.valid
            al.left al.right in
        (b, ground (arith, all_equal-stored eq q xs ys), al.grows)

    -- On two deques of a valid arena with room, and for an order in which every element is equal to
    -- itself, `cmp_with` returns the lexicographic order of the two sequences, front first. Every
    -- deque of the arena holds what it did.
    pub cmp_with-Holds :
        (cmp : A → A → Ordering)
        → ((x : A) → cmp x x ≡ Ordering.eq)
        → (b : DequeArena A) × (cmp_with d a e cmp ≡ some (b, lexicographic cmp xs ys)) × Grows a b
    unfolding cmp_with
    cmp_with-Holds cmp h_refl =
        let (b, f, run, t) = ensure_forwards_lem a d.list xs v (omega arith) d.direction h in
        let (c, g, run', t') =
          ensure_forwards_lem b e.list ys t.grows.valid (omega (arith, t.size)) e.direction
            (Represents-Extends t.grows.kept k) in
        let order =
          cmp_with_lem c cmp h_refl f.list g.list xs ys t'.grows.valid
            (Represents-Extends t'.grows.kept t.holds) t'.holds in
        (
          c,
          ground arith,
          record { valid = t'.grows.valid; kept = Extends-trans t.grows.kept t'.grows.kept },
        )
