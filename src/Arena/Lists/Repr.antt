-- ===== src/Arena/Lists/Repr.antt =====
-- The list that a handle of a `ListArena` (stack-graphs/src/arena.rs) stands for.
use stack_graphs_muffet.Prelude.{
  ℕ, zero, suc, ◌<◌, ◌≤◌, ◌≡◌, ◌≢◌, refl, ap, sym, ◌∙◌, subst, inl, inr, ◌⊎◌, List, [], ◌∷◌, none,
  some, arith, u32_max, length,
}
use native.Mathlib.Decide.{ℕ_discrete}
use stack_graphs_muffet.Arena.{Handle, new, add, get}
use stack_graphs_muffet.Arena.Laws.{
  HasRoom, add-handle, length-add, get-add_self, get-add_old, get-add_ne, get_bounds,
}
use stack_graphs_muffet.Arena.Lists.{
  ListCell, ListArena, empty, push_front, pop_front, iter_loop, iter,
}

module _ {A : Type 0} where
  -- The handle `l` stands for the list.
  abbrev pub Represents : ListArena A → Handle → List A → Type 0
  Represents a l [] = l ≡ empty
  Represents a l (x ∷ xs) =
      (l ≢ empty)
      × (t : Handle) × (get a l ≡ some (record { head = x; tail = t }))
      × Represents a t xs

  -- The tail of each cell is the empty list, or an older cell.
  pub record IsValid (a : ListArena A) : Type 0 where
    pub small : length a.items < u32_max
    pub older : (l : Handle) (c : ListCell A) → get a l ≡ some c → (c.tail ≡ empty) ⊎ (c.tail < l)

  pub Represents-unique :
      (a : ListArena A) (l : Handle) (xs ys : List A)
      → Represents a l xs
      → Represents a l ys
      → xs ≡ ys
  Represents-unique a l [] [] r s = refl
  Represents-unique a l [] (y ∷ ys) r s = absurd (s.0 r)
  Represents-unique a l (x ∷ xs) [] r s = absurd (r.0 s)
  Represents-unique a l (x ∷ xs) (y ∷ ys) (n, t, e, r) (m, u, f, s) =
      let tails : t ≡ u = ground (arith, e, f) in
      let rest =
        Represents-unique a t xs ys r (subst (λ (z : Handle). Represents a z ys) (sym tails) s) in
      ground (arith, e, f, rest)

  pub Represents-tail :
      (a : ListArena A) (l : Handle) (x : A) (xs : List A)
      → Represents a l (x ∷ xs)
      → (t : Handle) × Represents a t xs
  Represents-tail a l x xs (n, t, e, r) = (t, r)

  -- A new cell changes no list.
  pub Represents-add :
      (a : ListArena A) (c : ListCell A) (l : Handle) (xs : List A)
      → Represents a l xs
      → Represents (add a c).0 l xs
  Represents-add a c l [] r = r
  Represents-add a c l (x ∷ xs) (n, t, e, r) =
      (n, t, get-add_old a c (record { head = x; tail = t }) l e, Represents-add a c t xs r)

  pub push_front-Represents :
      (a : ListArena A) (l : Handle) (x : A) (xs : List A)
      → HasRoom 1 a
      → Represents a l xs
      → Represents (push_front l a x).0 (push_front l a x).1 (x ∷ xs)
  unfolding push_front
  push_front-Represents a l x xs room r =
      let c : ListCell A = record { head = x; tail = l } in
      let n : (add a c).1 ≢ empty = omega (arith, add-handle a c room) in
      (n, l, get-add_self a c room, Represents-add a c l xs r)

  length-nil :
      (a : ListArena A) (l : Handle) (xs : List A) → l ≡ empty → Represents a l xs → length xs ≡ 0
  length-nil a l [] e r = refl
  length-nil a l (x ∷ xs) e (n, t, f, r) = absurd (n e)

  below_handle :
      (a : ListArena A) (l : Handle) (xs : List A)
      → IsValid a
      → Represents a l xs
      → l ≢ empty
      → length xs ≤ l
  below_handle a l [] v r n = omega arith
  below_handle a l (x ∷ xs) v (n', t, e, r) n =
      let pos = (get_bounds a l (record { head = x; tail = t }) e).0 in
      elim (v.older l (record { head = x; tail = t }) e) [
        | inl last ↦ omega (arith, length-nil a t xs last r)
        | inr older ↦
            let short = below_handle a t xs v r (λ q.
              omega
                (arith, q, v.small, older, (get_bounds a l (record { head = x; tail = t }) e).1)) in
            omega (arith, short, older)
      ]

  pub Represents-bound :
      (a : ListArena A) (l : Handle) (xs : List A)
      → IsValid a
      → Represents a l xs
      → length xs < suc (length a.items)
  Represents-bound a l [] v r = omega arith
  Represents-bound a l (x ∷ xs) v r = omega (
    arith,
    below_handle a l (x ∷ xs) v r r.0,
    (get_bounds a l (record { head = x; tail = r.1 }) r.2).1,
  )

  pub Represents_old :
      (a : ListArena A) (l : Handle) (x : A) (xs : List A)
      → Represents a l (x ∷ xs)
      → (0 < l) × (l ≤ length a.items)
  Represents_old a l x xs r = get_bounds a l (record { head = x; tail = r.1 }) r.2

  tail_old :
      (a : ListArena A) (l : Handle) (xs : List A)
      → Represents a l xs
      → (l ≡ empty) ⊎ (l ≤ length a.items)
  tail_old a l [] r = inl r
  tail_old a l (x ∷ xs) r = inr (Represents_old a l x xs r).1

  pub push_front-IsValid :
      (a : ListArena A) (l : Handle) (x : A) (xs : List A)
      → IsValid a
      → HasRoom 1 a
      → Represents a l xs
      → IsValid (push_front l a x).0
  unfolding push_front
  push_front-IsValid a l x xs v room r = record {
    small = omega (arith, length-add a c);
    older = λ k d e. elim (ℕ_discrete k (add a c).1) [
      | yes new ↦
          let same : d ≡ c =
            ground (arith, e, new, get-add_self a c room, ap (get (add a c).0) new) in
          older_tail k new d same (tail_old a l xs r)
      | no old ↦ v.older k d (sym (get-add_ne a c k room old) ∙ e)
    ];
  }
    where
      c : ListCell A
      c = record { head = x; tail = l }

      older_tail :
          (k : Handle)
          → k ≡ (add a c).1
          → (d : ListCell A) → d ≡ c
          → (l ≡ empty) ⊎ (l ≤ length a.items)
          → (d.tail ≡ empty) ⊎ (d.tail < k)
      older_tail k new d same (inl e) = inl (ap (λ (z : ListCell A). z.tail) same ∙ e)
      older_tail k new d same (inr e) =
          let t : d.tail ≡ l = ap (λ (z : ListCell A). z.tail) same in
          inr (omega (arith, add-handle a c room, t, new, e))

  -- `pop_front` on a represented list.
  pub pop_front-nil :
      (a : ListArena A) (l : Handle) → Represents a l [] → pop_front l a ≡ some (none, l)
  unfolding pop_front
  pop_front-nil a l r = ground (arith, r)

  pub pop_front-cons :
      (a : ListArena A) (l : Handle) (x : A) (xs : List A) (r : Represents a l (x ∷ xs))
      → pop_front l a ≡ some (some x, r.1)
  unfolding pop_front
  pop_front-cons a l x xs (n, t, e, r) = ground (arith, n, e)

  iter_loop_lem :
      (fuel : ℕ) (a : ListArena A) (l : Handle) (xs : List A)
      → Represents a l xs
      → length xs < fuel
      → iter_loop fuel l a ≡ some xs
  unfolding iter_loop
  iter_loop_lem zero a l xs r f = absurd (omega arith)
  iter_loop_lem (suc fuel) a l [] r f = ground (arith, pop_front-nil a l r)
  iter_loop_lem (suc fuel) a l (x ∷ xs) r f =
      ground (arith, pop_front-cons a l x xs r, iter_loop_lem fuel a r.1 xs r.3)

  -- On a valid arena `iter` gives the elements of the list, in order.
  pub iter_lem :
      (a : ListArena A) (l : Handle) (xs : List A)
      → IsValid a
      → Represents a l xs
      → iter l a ≡ some xs
  unfolding iter
  iter_lem a l xs v r = iter_loop_lem (suc (length a.items)) a l xs r (Represents-bound a l xs v r)

  pub new-IsValid : IsValid (new {A = ListCell A})
  unfolding new get
  new-IsValid = record { small = omega arith; older = none_yet }
    where
      none_yet :
          (l : Handle) (c : ListCell A) → get new l ≡ some c → (c.tail ≡ empty) ⊎ (c.tail < l)
      none_yet zero c e = absurd (ground (arith, e))
      none_yet (suc i) c e = absurd (ground (arith, e))
