-- ===== src/Graph/EdgeStore/Search.antt =====
-- Insertion at the position of a binary search, as stack-graphs/src/graph.rs inserts edges.
use stack_graphs_muffet.Prelude.{
  ℕ, suc, ◌<◌, ◌≡◌, refl, ap, sym, subst, ◌∙◌, ◌==◌, ltb, if◌then◌else◌, Bool, Bool-cases, true,
  false, ◌⊎◌, inl, inr, List, [], ◌∷◌, Option, none, some, arith,
}
use stack_graphs_muffet.Graph.EdgeStore.{Position, found, missing, one_further, search, insert}

pub Position-cases : (p : Position) → ((i : ℕ) × (p ≡ found i)) ⊎ ((i : ℕ) × (p ≡ missing i))
Position-cases (found i) = inl (i, refl)
Position-cases (missing i) = inr (i, refl)

module _ {A : Type 0} (key : A → ℕ) where
  -- The first element with the key.
  unfoldable pub find_key : List A → ℕ → Option A
  find_key [] k = none
  find_key (x ∷ xs) k = let rest = find_key xs k in if key x == k then some x else rest

  abbrev pub IsAbove : ℕ → List A → Type 0
  IsAbove n [] = n ≡ n
  IsAbove n (x ∷ xs) = (n < key x) × IsAbove n xs

  -- The keys increase.
  abbrev pub IsSorted : List A → Type 0
  IsSorted [] = IsAbove 0 []
  IsSorted (x ∷ xs) = IsAbove (key x) xs × IsSorted xs

  -- What `add_edge` makes of the edges of a node.
  unfoldable pub inserted : List A → ℕ → A → List A
  unfolding search insert
  inserted xs k x = elim (search key xs k) [ found i ↦ xs | missing i ↦ insert xs i x ]

  inserted-nil : (k : ℕ) (x : A) → inserted [] k x ≡ x ∷ []
  unfolding inserted search insert
  inserted-nil k x = refl

  inserted-cons :
      (y : A) (ys : List A) (k : ℕ) (x : A)
      → inserted (y ∷ ys) k x
        ≡ (if key y == k then y ∷ ys else if ltb (key y) k then y ∷ inserted ys k x else x ∷ y ∷ ys)
  unfolding inserted search insert
  inserted-cons y ys k x = go (search key ys k)
    where
      go :
          (p : Position)
          → (elim (if key y == k
              then found 0
              else if ltb (key y) k
              then one_further p
              else missing 0) [ found i ↦ y ∷ ys | missing i ↦ insert (y ∷ ys) i x ])
            ≡ (if key y == k
                then y ∷ ys
                else if ltb (key y) k
                then y ∷ (elim p [ found i ↦ ys | missing i ↦ insert ys i x ])
                else x ∷ y ∷ ys)
      go (found i) = unfold one_further in ground arith
      go (missing i) = unfold one_further in ground arith

  IsAbove-lt : (m n : ℕ) (xs : List A) → m < n → IsAbove n xs → IsAbove m xs
  IsAbove-lt m n [] h a = refl
  IsAbove-lt m n (x ∷ xs) h a = (omega (arith, h, a.0), IsAbove-lt m n xs h a.1)

  IsAbove-find_key : (n k : ℕ) (xs : List A) → k < suc n → IsAbove n xs → find_key xs k ≡ none
  unfolding find_key
  IsAbove-find_key n k [] h a = refl
  IsAbove-find_key n k (x ∷ xs) h a = ground (arith, h, a.0, IsAbove-find_key n k xs h a.1)

  IsAbove-inserted :
      (n : ℕ) (xs : List A) (k : ℕ) (x : A) → n < key x → IsAbove n xs → IsAbove n (inserted xs k x)
  IsAbove-inserted n [] k x h a = unfold inserted search insert in (h, refl)
  IsAbove-inserted n (y ∷ ys) k x h a =
      subst (IsAbove n) (sym (inserted-cons y ys k x))
        (cases (IsAbove-inserted n ys k x h a.1) (key y == k) (ltb (key y) k))
    where
      cases :
          IsAbove n (inserted ys k x)
          → (same less : Bool)
          → IsAbove n (if same then y ∷ ys else if less then y ∷ inserted ys k x else x ∷ y ∷ ys)
      cases rest true less = a
      cases rest false true = (a.0, rest)
      cases rest false false = (h, a)

  -- An insertion keeps the keys increasing.
  pub IsSorted-inserted :
      (xs : List A) (k : ℕ) (x : A) → key x ≡ k → IsSorted xs → IsSorted (inserted xs k x)
  IsSorted-inserted [] k x e s = unfold inserted search insert in (refl, refl)
  IsSorted-inserted (y ∷ ys) k x e s =
      subst IsSorted (sym (inserted-cons y ys k x)) (elim (Bool-cases (key y == k)) [
        | inl same ↦ subst IsSorted {x = y ∷ ys} (ground (arith, same)) s
        | inr other ↦ elim (Bool-cases (ltb (key y) k)) [
          | inl less ↦
              let step : (y ∷ inserted ys k x) ≡ (
                  if key y == k
                  then y ∷ ys
                  else if ltb (key y) k
                  then y ∷ inserted ys k x
                  else x ∷ y ∷ ys) =
                ground (arith, other, less) in
              let lt : key y < key x = ground (arith, less, e) in
              subst IsSorted step
                (IsAbove-inserted (key y) ys k x lt s.0, IsSorted-inserted ys k x e s.1)
          | inr more ↦
              let step : (x ∷ y ∷ ys) ≡ (
                  if key y == k
                  then y ∷ ys
                  else if ltb (key y) k
                  then y ∷ inserted ys k x
                  else x ∷ y ∷ ys) =
                ground (arith, other, more) in
              let lt : key x < key y = ground (arith, other, more, e) in
              subst IsSorted step ((lt, IsAbove-lt (key x) (key y) ys lt s.0), s)
        ]
      ])

  -- An insertion adds the element if its key is new, and changes nothing otherwise.
  pub find_key-inserted :
      (xs : List A) (k : ℕ) (x : A) (k' : ℕ)
      → key x ≡ k
      → IsSorted xs
      → find_key (inserted xs k x) k' ≡ (
          if k == k'
          then (elim (find_key xs k) [ none ↦ some x | some y ↦ some y ])
          else find_key xs k')
  unfolding find_key
  find_key-inserted [] k x k' e s = ground (arith, e, inserted-nil k x)
  find_key-inserted (y ∷ ys) k x k' e s =
      let rest = find_key-inserted ys k x k' e s.1 in
      let step = inserted-cons y ys k x in
      elim (Bool-cases (key y == k)) [
        | inl same ↦
            let whole : inserted (y ∷ ys) k x ≡ y ∷ ys = ground (arith, step, same) in
            ap (λ z. find_key z k') whole ∙ ground (arith, same)
        | inr other ↦ elim (Bool-cases (ltb (key y) k)) [
          | inl less ↦
              let whole : inserted (y ∷ ys) k x ≡ y ∷ inserted ys k x =
                ground (arith, step, other, less) in
              ap (λ z. find_key z k') whole ∙ ground (arith, other, less, rest)
          | inr more ↦
              let whole : inserted (y ∷ ys) k x ≡ x ∷ y ∷ ys = ground (arith, step, other, more) in
              let lt : k < key y = ground (arith, other, more) in
              let new : find_key ys k ≡ none =
                IsAbove-find_key (key y) k ys (omega (arith, lt)) s.0 in
              ap (λ z. find_key z k') whole ∙ ground (arith, other, new, e)
        ]
      ]
