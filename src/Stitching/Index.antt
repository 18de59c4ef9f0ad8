-- ===== src/Stitching/Index.antt =====
-- The root paths of a `Database` (stack-graphs/src/stitching.rs) under their symbols, and the indexes
-- that hold them.
use stack_graphs_muffet.Prelude.{
  ℕ, zero, suc, ◌≤◌, ◌<◌, ◌≡◌, refl, ap, sym, ◌∙◌, subst, ◌&&◌, ◌||◌, not, ◌==◌, inl, inr, Bool,
  Bool-cases, true, false, if◌then◌else◌, List, [], ◌∷◌, ◌++◌, length, some, arith,
}
use stack_graphs_muffet.Prelude.Same.{same, same_refl, same_sound}
use stack_graphs_muffet.Arena.{Handle}
use stack_graphs_muffet.Arena.Lists.Repr.{
  Represents, Represents_old, Represents-unique, pop_front-cons,
}
use stack_graphs_muffet.Arena.Supplemental.Laws.{or_default-put}
use stack_graphs_muffet.Stitching.{SymbolStackKeys, PathIndex, entries, push_path, index_prefixes}
use stack_graphs_muffet.Stitching.Keys.{IsKeyed, Represents-canonical}

-- A root path: the symbols of its precondition, last first, and whether a variable follows them.
pub record RootPath : Type 0 where
  pub handle : Handle
  pub symbols : List Handle
  pub variable : Bool

-- `ss` is what is left of the first list when some of its first elements are dropped.
unfoldable pub has_tail : List Handle → List Handle → Bool
unfolding same
has_tail [] ss = same [] ss
has_tail (x ∷ xs) ss = same (x ∷ xs) ss || has_tail xs ss

unfoldable pub has_proper_tail : List Handle → List Handle → Bool
unfolding has_tail
has_proper_tail [] ss = false
has_proper_tail (x ∷ xs) ss = has_tail xs ss

unfoldable pub exactly : Bool → List Handle → RootPath → Bool
unfolding same
exactly variable ss p = same p.symbols ss && (if variable then p.variable else not p.variable)

unfoldable pub longer : List Handle → RootPath → Bool
unfolding has_proper_tail
longer ss p = has_proper_tail p.symbols ss

unfoldable pub select : (RootPath → Bool) → List RootPath → List Handle
select test [] = []
select test (p ∷ ps) = if test p then p.handle ∷ select test ps else select test ps

pub select-snoc :
    (test : RootPath → Bool) (ps : List RootPath) (p : RootPath)
    → select test (ps ++ p ∷ [])
      ≡ (if test p then select test ps ++ p.handle ∷ [] else select test ps)
unfolding select
select-snoc test [] p = ground arith
select-snoc test (q ∷ ps) p = ground (arith, select-snoc test ps p)

pub has_tail-length : (xs ss : List Handle) → has_tail xs ss ≡ true → length ss ≤ length xs
unfolding has_tail same
has_tail-length [] [] e = omega arith
has_tail-length [] (s ∷ ss) e = absurd (ground (arith, e))
has_tail-length (x ∷ xs) ss e = elim (Bool-cases (same (x ∷ xs) ss)) [
  | inl eq ↦ omega (arith, ap (length {A = Handle}) (same_sound (x ∷ xs) ss eq))
  | inr ne ↦
      let rest : has_tail xs ss ≡ true = ground (arith, e, ne) in
      omega (arith, has_tail-length xs ss rest)
]

-- The index gives `lists ss` at the key of `ss`.
abbrev pub IsMarked : SymbolStackKeys → PathIndex → (List Handle → List Handle) → Type 0
IsMarked t index lists =
    (m y : Handle) (ys : List Handle)
    → Represents t.cells m (y ∷ ys)
    → entries index m ≡ lists (y ∷ ys)

-- Nothing is stored at handles that no cell has.
abbrev pub IsClean : SymbolStackKeys → PathIndex → Type 0
IsClean t index = (m : Handle) → length t.cells.items < m → entries index m ≡ []

pub entries-push_path :
    (index : PathIndex) (k m path : Handle)
    → 0 < k
    → 0 < m
    → entries (push_path index k path) m
      ≡ (if k == m then entries index k ++ path ∷ [] else entries index m)
unfolding push_path
entries-push_path index k m path hk hm =
    or_default-put [] index k m (entries index k ++ path ∷ []) hk hm

-- A push at a key of the arena.
pub push_path-IsClean :
    (t : SymbolStackKeys) (index : PathIndex) (k path : Handle)
    → 0 < k
    → k ≤ length t.cells.items
    → IsClean t index
    → IsClean t (push_path index k path)
push_path-IsClean t index k path hk bound c m h =
    ground (arith, hk, h, bound, entries-push_path index k m path hk (omega (arith, h)), c m h)

module _ (t : SymbolStackKeys) (v : IsKeyed t) where
  pub key-same :
      (k m x y : Handle) (xs ys : List Handle)
      → Represents t.cells k (x ∷ xs)
      → Represents t.cells m (y ∷ ys)
      → (k == m) ≡ same (x ∷ xs) (y ∷ ys)
  key-same k m x y xs ys r s = elim (Bool-cases (same (x ∷ xs) (y ∷ ys))) [
    | inl eq ↦
        let lists = same_sound (x ∷ xs) (y ∷ ys) eq in
        let one : k ≡ m =
          Represents-canonical t k m (y ∷ ys) v (subst (Represents t.cells k) lists r) s in
        ground (arith, eq, one)
    | inr ne ↦ elim (Bool-cases (k == m)) [
      | inl one ↦
          let keys : k ≡ m = ground (arith, one) in
          let lists : (x ∷ xs) ≡ (y ∷ ys) =
            Represents-unique t.cells m (x ∷ xs) (y ∷ ys)
              (subst (λ z. Represents t.cells z (x ∷ xs)) keys r) s in
          let all : same (x ∷ xs) (y ∷ ys) ≡ true =
            subst (λ z. same (x ∷ xs) z ≡ true) lists (same_refl (x ∷ xs)) in
          absurd (ground (arith, ne, all))
      | inr two ↦ ground (arith, ne, two)
    ]
  ]

  -- Keys are the same when their lists are.
  pub Represents-same :
      (k m : Handle) (xs ys : List Handle)
      → Represents t.cells k xs
      → Represents t.cells m ys
      → (k == m) ≡ same xs ys
  Represents-same k m [] [] r s = unfold same in ground (arith, r, s)
  Represents-same k m [] (y ∷ ys) r s = unfold same in ground (arith, r, s.0)
  Represents-same k m (x ∷ xs) [] r s = unfold same in ground (arith, r.0, s)
  Represents-same k m (x ∷ xs) (y ∷ ys) r s = key-same k m x y xs ys r s

  pub push_path-IsMarked :
      (index : PathIndex) (lists : List Handle → List Handle) (k path x : Handle) (xs : List Handle)
      → Represents t.cells k (x ∷ xs)
      → IsMarked t index lists
      → IsMarked t
          (push_path index k path)
          (λ ss. if same (x ∷ xs) ss then lists ss ++ path ∷ [] else lists ss)
  push_path-IsMarked index lists k path x xs r marked m y ys s =
      let hk = (Represents_old t.cells k x xs r).0 in
      let hm = (Represents_old t.cells m y ys s).0 in
      let here = marked m y ys s in
      elim (Bool-cases (k == m)) [
        | inl one ↦
            let keys : k ≡ m = ground (arith, one) in
            let at : entries index k ≡ lists (y ∷ ys) =
              subst (λ z. entries index z ≡ lists (y ∷ ys)) (sym keys) here in
            ground
              (arith, one, key-same k m x y xs ys r s, entries-push_path index k m path hk hm, at)
        | inr two ↦
            ground
              (arith, two, key-same k m x y xs ys r s, entries-push_path index k m path hk hm, here)
      ]

  pub marks_equal :
      (index : PathIndex) (f g : List Handle → List Handle)
      → ((y : Handle) (ys : List Handle) → f (y ∷ ys) ≡ g (y ∷ ys))
      → IsMarked t index f
      → IsMarked t index g
  marks_equal index f g e marked m y ys s = marked m y ys s ∙ e y ys

  -- The result of the loop of `add_partial_path`.
  pub record Prefixed (index : PathIndex) (lists : List Handle → List Handle) : Type 0 where
    pub marked : IsMarked t index lists
    pub clean : IsClean t index

  tail_twice :
      (x : Handle) (xs ss : List Handle) (old : List Handle) (path : Handle)
      → (if has_tail xs ss
          then (if same (x ∷ xs) ss then old ++ path ∷ [] else old) ++ path ∷ []
          else (if same (x ∷ xs) ss then old ++ path ∷ [] else old))
        ≡ (if has_tail (x ∷ xs) ss then old ++ path ∷ [] else old)
  unfolding has_tail
  tail_twice x xs ss old path = elim (Bool-cases (same (x ∷ xs) ss)) [
    | inl eq ↦ elim (Bool-cases (has_tail xs ss)) [
      | inl both ↦
          let a = has_tail-length xs ss both in
          let b : suc (length xs) ≡ length ss =
            ap (length {A = Handle}) (same_sound (x ∷ xs) ss eq) in
          absurd (omega (arith, a, b))
      | inr apart ↦ ground (arith, eq, apart)
    ]
    | inr ne ↦ ground (arith, ne)
  ]

  no_tail : (y : Handle) (ys : List Handle) → has_tail [] (y ∷ ys) ≡ false
  no_tail y ys = unfold has_tail same in refl

  pub index_prefixes_lem :
      (fuel : ℕ) (k x : Handle) (xs : List Handle) (index : PathIndex)
      (lists : List Handle → List Handle) (path : Handle)
      → length xs < fuel
      → Represents t.cells k (x ∷ xs)
      → IsMarked t index lists
      → IsClean t index
      → (index' : PathIndex) × (index_prefixes fuel t.cells k index path ≡ some index')
        × Prefixed index' (λ ss. if has_tail xs ss then lists ss ++ path ∷ [] else lists ss)
  index_prefixes_lem zero k x xs index lists path h r marked clean = absurd (omega arith)
  index_prefixes_lem (suc fuel) k x [] index lists path h r marked clean =
      let step : index_prefixes (suc fuel) t.cells k index path ≡ some index =
        unfold index_prefixes in ground (arith, pop_front-cons t.cells k x [] r, r.3) in
      (
        index,
        step,
        record {
          marked =
              marks_equal index lists
                (λ ss. if has_tail [] ss then lists ss ++ path ∷ [] else lists ss)
                (λ y ys. ground (arith, no_tail y ys)) marked;
          clean = clean;
        },
      )
  index_prefixes_lem (suc fuel) k x (x' ∷ xs) index lists path h r marked clean =
      let k' = r.1 in
      let s : Represents t.cells k' (x' ∷ xs) = r.3 in
      let next = push_path index k' path in
      let old = Represents_old t.cells k' x' xs s in
      let marked' = push_path-IsMarked index lists k' path x' xs s marked in
      let clean' = push_path-IsClean t index k' path old.0 old.1 clean in
      let lists' : List Handle → List Handle =
        λ ss. if same (x' ∷ xs) ss then lists ss ++ path ∷ [] else lists ss in
      let rest =
        index_prefixes_lem fuel k' x' xs next lists' path (omega (arith, h)) s marked' clean' in
      let step : index_prefixes (suc fuel) t.cells k index path
          ≡ index_prefixes fuel t.cells k' next path =
        unfold index_prefixes in ground (arith, pop_front-cons t.cells k x (x' ∷ xs) r, s.0) in
      (
        rest.0,
        step ∙ rest.1,
        record {
          marked =
              marks_equal rest.0
                (λ ss. if has_tail xs ss then lists' ss ++ path ∷ [] else lists' ss)
                (λ ss. if has_tail (x' ∷ xs) ss then lists ss ++ path ∷ [] else lists ss)
                (λ y ys. tail_twice x' xs (y ∷ ys) (lists (y ∷ ys)) path) rest.2.marked;
          clean = rest.2.clean;
        },
      )
