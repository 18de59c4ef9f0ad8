-- ===== src/Stitching/Roots.antt =====
-- The indexes of the root paths of a `Database` (stack-graphs/src/stitching.rs), against the list of
-- these paths.
use stack_graphs_muffet.Prelude.{
  ◌≡◌, refl, sym, ◌∙◌, subst, inl, inr, Bool, Bool-cases, true, List, [], ◌∷◌, ◌++◌, arith,
}
use stack_graphs_muffet.Arena.{Handle}
use stack_graphs_muffet.Arena.Lists.Repr.{Represents, Represents_old}
use stack_graphs_muffet.Stitching.{SymbolStackKeys, PathIndex}
use stack_graphs_muffet.Stitching.Keys.{IsKeyed, Extends, Represents-canonical}
use stack_graphs_muffet.Prelude.Same.{same, same_sound}
use stack_graphs_muffet.Stitching.Index.{
  RootPath, has_tail, has_proper_tail, exactly, longer, select, IsMarked, IsClean,
}

-- Each path has its symbols as a key.
pub data IsBacked (t : SymbolStackKeys) : List RootPath → Type 0 where
  none_yet : IsBacked t []
  one_more :
      (p : RootPath) (ps : List RootPath) (k : Handle)
      → Represents t.cells k p.symbols
      → IsBacked t ps
      → IsBacked t (p ∷ ps)

pub IsBacked-snoc :
    (t : SymbolStackKeys) (ps : List RootPath) (p : RootPath) (k : Handle)
    → Represents t.cells k p.symbols
    → IsBacked t ps
    → IsBacked t (ps ++ p ∷ [])
IsBacked-snoc t [] p k r none_yet = one_more p [] k r none_yet
IsBacked-snoc t (q ∷ ps) p k r (one_more _ _ m s b) =
    one_more q (ps ++ p ∷ []) m s (IsBacked-snoc t ps p k r b)

pub IsBacked-Extends :
    (t u : SymbolStackKeys) (ps : List RootPath) → Extends t u → IsBacked t ps → IsBacked u ps
IsBacked-Extends t u [] e none_yet = none_yet
IsBacked-Extends t u (q ∷ ps) e (one_more _ _ m s b) =
    one_more q ps m (e.kept m q.symbols s) (IsBacked-Extends t u ps e b)

-- A tail of a represented list has a key.
tail_key :
    (t : SymbolStackKeys) (k : Handle) (xs ss : List Handle)
    → Represents t.cells k xs
    → has_tail xs ss ≡ true
    → (m : Handle) × Represents t.cells m ss
unfolding has_tail
tail_key t k [] ss r h = (k, subst (Represents t.cells k) (same_sound [] ss h) r)
tail_key t k (x ∷ xs) ss r h = elim (Bool-cases (same (x ∷ xs) ss)) [
  | inl eq ↦ (k, subst (Represents t.cells k) (same_sound (x ∷ xs) ss eq) r)
  | inr ne ↦ tail_key t r.1 xs ss r.3 (ground (arith, h, ne))
]

-- A test of root paths that only holds of paths with the list as a tail of their symbols.
abbrev pub IsTailTest : (List Handle → RootPath → Bool) → Type 0
IsTailTest test =
    (ss : List Handle) (p : RootPath) → test ss p ≡ true → has_tail p.symbols ss ≡ true

same-has_tail : (xs ss : List Handle) → same xs ss ≡ true → has_tail xs ss ≡ true
unfolding has_tail
same-has_tail [] ss e = e
same-has_tail (x ∷ xs) ss e = ground (arith, e)

pub exactly-IsTailTest : (variable : Bool) → IsTailTest (exactly variable)
exactly-IsTailTest variable ss p e =
    same-has_tail p.symbols ss (unfold exactly in ground (arith, e))

pub longer-IsTailTest : IsTailTest longer
longer-IsTailTest ss p e = go p.symbols (unfold longer in e)
  where
    go : (xs : List Handle) → has_proper_tail xs ss ≡ true → has_tail xs ss ≡ true
    go [] e = absurd (unfold has_proper_tail in ground (arith, e))
    go (x ∷ xs) e = unfold has_tail has_proper_tail in ground (arith, e)

-- No path has a list without a key as a tail of its symbols.
select-unknown :
    (t : SymbolStackKeys) (test : List Handle → RootPath → Bool) (ss : List Handle)
    (ps : List RootPath)
    → IsTailTest test
    → IsBacked t ps
    → ((m : Handle) → Represents t.cells m ss → ⊥)
    → select (test ss) ps ≡ []
unfolding select
select-unknown t test ss [] tails b missing = refl
select-unknown t test ss (q ∷ ps) tails (one_more _ _ m s b) missing =
    elim (Bool-cases (test ss q)) [
      | inl yes_here ↦
          let key = tail_key t m q.symbols ss s (tails ss q yes_here) in
          absurd (missing key.0 key.1)
      | inr no_here ↦ ground (arith, no_here, select-unknown t test ss ps tails b missing)
    ]

-- The index holds the paths of the test at each key, and nothing else.
pub record IsIndexed (t : SymbolStackKeys) (test : List Handle → RootPath → Bool)
    (ps : List RootPath) (index : PathIndex) : Type 0 where
  pub marked : IsMarked t index (λ ss. select (test ss) ps)
  pub clean : IsClean t index

pub IsIndexed-Extends :
    (t u : SymbolStackKeys) (test : List Handle → RootPath → Bool) (ps : List RootPath)
    (index : PathIndex)
    → IsTailTest test
    → IsKeyed u
    → Extends t u
    → IsBacked t ps
    → IsIndexed t test ps index
    → IsIndexed u test ps index
IsIndexed-Extends t u test ps index tails v e b i = record {
  marked = λ m y ys r. elim (e.fresh m y ys r) [
    | inl old ↦ i.marked m y ys old
    | inr new ↦
        i.clean m new
        ∙ sym (
            select-unknown t test (y ∷ ys) ps tails b (λ k s.
              let one : k ≡ m = Represents-canonical u k m (y ∷ ys) v (e.kept k (y ∷ ys) s) r in
              absurd (omega (arith, one, new, (Represents_old t.cells k y ys s).1))))
  ];
  clean = λ m h. i.clean m (omega (arith, h, e.longer));
}
