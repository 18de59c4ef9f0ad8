-- ===== src/Arena/Reversible/Compare.antt =====
-- `push_front`, `pop_front`, `iter`, `equals_with` and `cmp_with` of the lists in
-- stack-graphs/src/arena.rs, against the lists that the handles stand for.
use stack_graphs_muffet.Prelude.{
  ℕ, zero, suc, ◌<◌, ◌≡◌, refl, sym, subst, List, [], ◌∷◌, none, some, arith, Bool, true, false,
  ◌&&◌, length, ◌==◌, ==_iff, Bool-cases, inl, inr, Ordering, ◌<◌,
}
use stack_graphs_muffet.Utils.{equals_option, cmp_option, then_with}
use stack_graphs_muffet.Arena.{Handle}
use stack_graphs_muffet.Arena.Laws.{HasRoom, length-add}
use stack_graphs_muffet.Arena.Reversible.{
  ReversibleListCell, ReversibleListArena, push_front, pop_front, iter, equals_loop, cmp_loop,
  equals_with, cmp_with,
}
use stack_graphs_muffet.Arena.Reversible.Repr.{
  Represents, IsValid, Grows, Represents-inv, Represents-nil, Represents-unique,
}
use stack_graphs_muffet.Arena.Reversible.Grow.{Grows-add, Represents-add, Represents-bound}

module _ {ℓ} {A : Type ℓ} where
  -- The elements agree one by one.
  unfoldable pub all_equal : (A → A → Bool) → List A → List A → Bool
  all_equal eq [] [] = true
  all_equal eq [] (y ∷ ys) = false
  all_equal eq (x ∷ xs) [] = false
  all_equal eq (x ∷ xs) (y ∷ ys) = eq x y && all_equal eq xs ys

  -- The lexicographic order, a prefix first.
  unfoldable pub lexicographic : (A → A → Ordering) → List A → List A → Ordering
  lexicographic cmp [] [] = Ordering.eq
  lexicographic cmp [] (y ∷ ys) = Ordering.lt
  lexicographic cmp (x ∷ xs) [] = Ordering.gt
  lexicographic cmp (x ∷ xs) (y ∷ ys) = then_with (cmp x y) (lexicographic cmp xs ys)

  pub all_equal_refl :
      (eq : A → A → Bool) → ((x : A) → eq x x ≡ true) → (xs : List A) → all_equal eq xs xs ≡ true
  unfolding all_equal
  all_equal_refl eq h [] = refl
  all_equal_refl eq h (x ∷ xs) = ground (arith, h x, all_equal_refl eq h xs)

  pub lexicographic_refl :
      (cmp : A → A → Ordering)
      → ((x : A) → cmp x x ≡ Ordering.eq)
      → (xs : List A) → lexicographic cmp xs xs ≡ Ordering.eq
  unfolding lexicographic then_with
  lexicographic_refl cmp h [] = refl
  lexicographic_refl cmp h (x ∷ xs) = ground (arith, h x, lexicographic_refl cmp h xs)

  pub pop_front_nil :
      (a : ReversibleListArena A) (l : Handle) → Represents a l [] → pop_front l a ≡ some (none, l)
  unfolding pop_front
  pop_front_nil a l r = ground (arith, Represents-nil r refl)

  pub pop_front_cons :
      (a : ReversibleListArena A) (l : Handle) (x : A) (xs : List A)
      → Represents a l (x ∷ xs)
      → (t : Handle) × (pop_front l a ≡ some (some x, t)) × Represents a t xs
  unfolding pop_front
  pop_front_cons a l x xs r =
      let (c, e, n, h, t) = Represents-inv r x xs refl in (c.tail, ground arith, t)

  pub length-push_front :
      (a : ReversibleListArena A) (l : Handle) (x : A)
      → length (push_front l a x).0.items ≡ suc (length a.items)
  unfolding push_front
  length-push_front a l x = length-add a _

  pub push_front_lem :
      (a : ReversibleListArena A) (l : Handle) (x : A) (xs : List A)
      → IsValid a
      → Represents a l xs
      → HasRoom 1 a
      → Grows a (push_front l a x).0 × Represents (push_front l a x).0 (push_front l a x).1 (x ∷ xs)
  unfolding push_front
  push_front_lem a l x xs v r room =
      let cell : ReversibleListCell A = record { head = x; tail = l; reversed = none } in
      (Grows-add a cell xs v room r (λ q e. cc), Represents-add a cell xs v room r (λ q e. cc))

  iter_loop :
      (fuel : ℕ) (a : ReversibleListArena A) (l : Handle) (xs : List A)
      → Represents a l xs
      → length xs < fuel
      → iter fuel l a ≡ some xs
  unfolding iter
  iter_loop zero a l xs r f = absurd (omega arith)
  iter_loop (suc fuel) a l [] r f = ground (arith, pop_front_nil a l r)
  iter_loop (suc fuel) a l (x ∷ xs) r f =
      let (t, e, rt) = pop_front_cons a l x xs r in ground (arith, iter_loop fuel a t xs rt)

  pub iter_lem :
      (a : ReversibleListArena A) (l : Handle) (xs : List A)
      → IsValid a
      → Represents a l xs
      → iter (suc (length a.items)) l a ≡ some xs
  iter_lem a l xs v r = iter_loop (suc (length a.items)) a l xs r (Represents-bound v r)

  -- Two handles for lists, compared element by element: the loops end, and comparing handles first
  -- makes no difference where an element equals itself.
  module _ (a : ReversibleListArena A) where
    equals_loop_lem :
        (eq : A → A → Bool)
        → ((x : A) → eq x x ≡ true)
        → (fuel : ℕ) (l m : Handle) (xs ys : List A) → Represents a l xs
        → Represents a m ys
        → length xs < fuel
        → equals_loop eq fuel l a m ≡ some (all_equal eq xs ys)
    unfolding equals_loop all_equal equals_option
    equals_loop_lem eq h zero l m xs ys r s f = absurd (omega arith)
    equals_loop_lem eq h (suc fuel) l m [] [] r s f =
        ground (arith, Represents-nil r refl, Represents-nil s refl)
    equals_loop_lem eq h (suc fuel) l m [] (y ∷ ys) r s f =
        let (t, e, rt) = pop_front_cons a m y ys s in
        let (c, g, n, p, q) = Represents-inv s y ys refl in
        ground (arith, Represents-nil r refl, pop_front_nil a l r, n)
    equals_loop_lem eq h (suc fuel) l m (x ∷ xs) [] r s f =
        let (t, e, rt) = pop_front_cons a l x xs r in
        let (c, g, n, p, q) = Represents-inv r x xs refl in
        ground (arith, Represents-nil s refl, pop_front_nil a m s, n)
    equals_loop_lem eq h (suc fuel) l m (x ∷ xs) (y ∷ ys) r s f = elim (Bool-cases (l == m)) [
      | inl same ↦
          let lists : x ∷ xs ≡ y ∷ ys =
            Represents-unique r
              (subst (λ (z : Handle). Represents a z (y ∷ ys)) (sym ((==_iff l m).0 same)) s) in
          let heads : x ≡ y = ground arith in
          let tails : xs ≡ ys = ground arith in ground (arith, all_equal_refl eq h xs, h x)
      | inr other ↦
          let (t, e, rt) = pop_front_cons a l x xs r in
          let (u, g, ru) = pop_front_cons a m y ys s in
          ground (arith, equals_loop_lem eq h fuel t u xs ys rt ru)
    ]

    -- `equals_with` returns on lists of a valid arena, and tells whether they agree one by one.
    pub equals_with_lem :
        (eq : A → A → Bool)
        → ((x : A) → eq x x ≡ true)
        → (l m : Handle) (xs ys : List A) → IsValid a
        → Represents a l xs
        → Represents a m ys
        → equals_with l a m eq ≡ some (all_equal eq xs ys)
    unfolding equals_with
    equals_with_lem eq h l m xs ys v r s =
        equals_loop_lem eq h (suc (length a.items)) l m xs ys r s (Represents-bound v r)

    cmp_loop_lem :
        (cmp : A → A → Ordering)
        → ((x : A) → cmp x x ≡ Ordering.eq)
        → (fuel : ℕ) (l m : Handle) (xs ys : List A) → Represents a l xs
        → Represents a m ys
        → length xs < fuel
        → cmp_loop cmp fuel l a m ≡ some (lexicographic cmp xs ys)
    unfolding cmp_loop lexicographic cmp_option then_with
    cmp_loop_lem cmp h zero l m xs ys r s f = absurd (omega arith)
    cmp_loop_lem cmp h (suc fuel) l m [] [] r s f =
        ground (arith, Represents-nil r refl, Represents-nil s refl)
    cmp_loop_lem cmp h (suc fuel) l m [] (y ∷ ys) r s f =
        let (t, e, rt) = pop_front_cons a m y ys s in
        let (c, g, n, p, q) = Represents-inv s y ys refl in
        ground (arith, Represents-nil r refl, pop_front_nil a l r, n)
    cmp_loop_lem cmp h (suc fuel) l m (x ∷ xs) [] r s f =
        let (t, e, rt) = pop_front_cons a l x xs r in
        let (c, g, n, p, q) = Represents-inv r x xs refl in
        ground (arith, Represents-nil s refl, pop_front_nil a m s, n)
    cmp_loop_lem cmp h (suc fuel) l m (x ∷ xs) (y ∷ ys) r s f = elim (Bool-cases (l == m)) [
      | inl same ↦
          let lists : x ∷ xs ≡ y ∷ ys =
            Represents-unique r
              (subst (λ (z : Handle). Represents a z (y ∷ ys)) (sym ((==_iff l m).0 same)) s) in
          let heads : x ≡ y = ground arith in
          let tails : xs ≡ ys = ground arith in ground (arith, lexicographic_refl cmp h xs, h x)
      | inr other ↦
          let (t, e, rt) = pop_front_cons a l x xs r in
          let (u, g, ru) = pop_front_cons a m y ys s in
          ground (arith, cmp_loop_lem cmp h fuel t u xs ys rt ru)
    ]

    -- `cmp_with` returns on lists of a valid arena, and orders them lexicographically.
    pub cmp_with_lem :
        (cmp : A → A → Ordering)
        → ((x : A) → cmp x x ≡ Ordering.eq)
        → (l m : Handle) (xs ys : List A) → IsValid a
        → Represents a l xs
        → Represents a m ys
        → cmp_with l a m cmp ≡ some (lexicographic cmp xs ys)
    unfolding cmp_with
    cmp_with_lem cmp h l m xs ys v r s =
        cmp_loop_lem cmp h (suc (length a.items)) l m xs ys r s (Represents-bound v r)
