-- ===== src/Arena/Reversible/Repr.antt =====
-- The list that a handle stands for, and the arenas in which every cell heads a list.
use stack_graphs_muffet.Prelude.{
  zero, suc, ◌<◌, ◌≡◌, ◌≢◌, refl, sym, ◌∙◌, subst, List, [], ◌∷◌, some, arith, length, reverse,
}
use stack_graphs_muffet.Arena.{Handle, new, get}
use stack_graphs_muffet.Arena.Reversible.{ReversibleListCell, ReversibleListArena, empty}

module _ {ℓ} {A : Type ℓ} where
  -- The handle `l` stands for the list `xs`.
  pub data Represents (a : ReversibleListArena A) : Handle → List A → Type ℓ where
    nil : {l : Handle} → l ≡ empty → Represents a l []
    cons :
        {l : Handle} {xs : List A} (c : ReversibleListCell A)
        → l ≢ empty
        → get a l ≡ some c
        → Represents a c.tail xs
        → Represents a l (c.head ∷ xs)

  -- `b` has every cell of `a`, with the same head and tail.
  pub record Extends (a b : ReversibleListArena A) : Type ℓ where
    pub cell :
        (l : Handle) (c : ReversibleListCell A)
        → get a l ≡ some c
        → (d : ReversibleListCell A) × (get b l ≡ some d) × (d.head ≡ c.head) × (d.tail ≡ c.tail)

  pub Extends-refl : (a : ReversibleListArena A) → Extends a a
  Extends-refl a = record { cell = λ l c e. (c, e, refl, refl) }

  pub Extends-trans : {a b d : ReversibleListArena A} → Extends a b → Extends b d → Extends a d
  Extends-trans p q = record {
    cell = λ l c e.
        let (c', e', h', t') = p.cell l c e in
        let (c'', e'', h'', t'') = q.cell l c' e' in (c'', e'', h'' ∙ h', t'' ∙ t');
  }

  Represents-conv :
      {a : ReversibleListArena A} {l : Handle} {y : A} {xs : List A} (c : ReversibleListCell A)
      → l ≢ empty
      → get a l ≡ some c
      → c.head ≡ y
      → Represents a c.tail xs
      → Represents a l (y ∷ xs)
  Represents-conv {a} {l} {xs = xs} c n e h r =
      subst (λ (z : A). Represents a l (z ∷ xs)) h (cons c n e r)

  -- What a handle stands for does not change as the arena grows.
  pub Represents-Extends :
      {a b : ReversibleListArena A} {l : Handle} {xs : List A}
      → Extends a b
      → Represents a l xs
      → Represents b l xs
  Represents-Extends p (nil e) = nil e
  Represents-Extends {b = b} p (cons {l} {xs} c n e r) =
      let (d, e', h, t) = p.cell l c e in
      Represents-conv d n e' h
        (subst (λ (z : Handle). Represents b z xs) (sym t) (Represents-Extends p r))

  pub Represents-inv :
      {a : ReversibleListArena A} {l : Handle} {zs : List A}
      → Represents a l zs
      → (x : A) (xs : List A) → zs ≡ x ∷ xs
      → (c : ReversibleListCell A) × (get a l ≡ some c)
        × (l ≢ empty)
        × (c.head ≡ x)
        × Represents a c.tail xs
  Represents-inv (nil e) x xs p = cc
  Represents-inv {a} (cons {xs = ys} c n e r) x xs p =
      (c, e, n, ground arith, subst (λ (z : List A). Represents a c.tail z) (ground arith) r)

  pub Represents-empty :
      {a : ReversibleListArena A} {l : Handle} {zs : List A}
      → Represents a l zs
      → l ≡ empty
      → zs ≡ []
  Represents-empty (nil e) p = refl
  Represents-empty (cons c n e r) p = absurd (n p)

  pub Represents-nil :
      {a : ReversibleListArena A} {l : Handle} {zs : List A}
      → Represents a l zs
      → zs ≡ []
      → l ≡ empty
  Represents-nil (nil e) p = e
  Represents-nil (cons c n e r) p = cc

  -- A handle stands for one list at most.
  pub Represents-unique :
      {a : ReversibleListArena A} {l : Handle} {xs ys : List A}
      → Represents a l xs
      → Represents a l ys
      → xs ≡ ys
  Represents-unique (nil e) q = sym (Represents-empty q e)
  Represents-unique {ys = []} (cons c n e r) q = absurd (n (Represents-nil q refl))
  Represents-unique {a} {ys = y ∷ ys} (cons {xs} c n e r) q =
      let (d, e', m, h, t) = Represents-inv q y ys refl in
      let same : d ≡ c = ground arith in
      let rest : xs ≡ ys =
        Represents-unique r (subst (λ (z : ReversibleListCell A). Represents a z.tail ys) same t) in
      ground arith

  -- A cell heads a list that fits in front of it, and its cached reversal is that list reversed.
  pub record IsCell (a : ReversibleListArena A) (l : Handle) (c : ReversibleListCell A)
      : Type ℓ where
    pub rest : List A
    pub tail : Represents a c.tail rest
    pub short : length rest < l
    pub cached : (r : Handle) → c.reversed ≡ some r → Represents a r (reverse (c.head ∷ rest))

  -- The arenas that the operations of `ReversibleList` build.
  pub record IsValid (a : ReversibleListArena A) : Type ℓ where
    pub cells : (l : Handle) (c : ReversibleListCell A) → get a l ≡ some c → IsCell a l c

  -- `b` is a valid arena in which all lists of `a` stand as they were.
  pub record Grows (a b : ReversibleListArena A) : Type ℓ where
    pub valid : IsValid b
    pub kept : Extends a b

  pub IsCell-Extends :
      {a b : ReversibleListArena A} {l : Handle} {c d : ReversibleListCell A}
      → Extends a b
      → c.head ≡ d.head
      → c.tail ≡ d.tail
      → c.reversed ≡ d.reversed
      → IsCell a l c
      → IsCell b l d
  IsCell-Extends {b = b} {c} {d} p h t r k = record {
    rest = k.rest;
    tail = subst (λ (z : Handle). Represents b z k.rest) t (Represents-Extends p k.tail);
    short = k.short;
    cached = λ q e.
        subst (λ (z : A). Represents b q (reverse (z ∷ k.rest))) h
          (Represents-Extends p (k.cached q (r ∙ e)));
  }

  pub new-IsValid : IsValid new
  unfolding new get
  new-IsValid = record { cells = none_yet }
    where
      none_yet : (l : Handle) (c : ReversibleListCell A) → get new l ≡ some c → IsCell new l c
      none_yet zero c e = absurd (ground (arith, e))
      none_yet (suc i) c e = absurd (ground (arith, e))
