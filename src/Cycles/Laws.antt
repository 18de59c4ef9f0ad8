-- ===== src/Cycles/Laws.antt =====
-- The paths that `SimilarPathDetector` (stack-graphs/src/cycles.rs) keeps.
use stack_graphs_muffet.Prelude.{
  ℕ, suc, ◌+◌, ◌≡◌, refl, sym, subst, arith, Bool, true, false, List, [], ◌∷◌, ◌++◌, length, Option,
  none, some, Ordering, Option-cases, inl, inr, ◌⊎◌,
}
use mathlib.Core.Option
use stack_graphs_muffet.Cycles.{Bucket, add_loop, add_to_bucket, pass, take_count, counts_behind}

module _ {P : Type 0} where
  abbrev pub All : (P → Type 0) → List P → Type 0
  All Q [] = Unit {0}
  All Q (x ∷ xs) = Q x × All Q xs

  module _ (cmp : P → P → Option Ordering) where
    -- No path compares with one that was added before it.
    abbrev pub IsApart : List P → Type 0
    IsApart [] = Unit {0}
    IsApart (q ∷ qs) = All (λ p. cmp p q ≡ none) qs × IsApart qs

    -- Whether the path is equal to, or worse than, one of the paths.
    abbrev pub has_similar : P → List P → Bool
    has_similar path [] = false
    has_similar path (q ∷ qs) = elim (cmp path q) [
      | none ↦ has_similar path qs
      | some Ordering.lt ↦ has_similar path qs
      | some _ ↦ true
    ]

    -- The paths that the new one does not beat.
    abbrev pub unbeaten : P → List P → List P
    unbeaten path [] = []
    unbeaten path (q ∷ qs) =
        let others = unbeaten path qs in
        elim (cmp path q) [ some Ordering.lt ↦ others | _ ↦ q ∷ others ]

    -- What the loop makes of the paths from an index on.
    data Added (path : P) : List P → Bool → List P → Type 0 where
      alone : Added path [] false (path ∷ [])
      beats :
          {x : P} {qs ps : List P} {r : Bool}
          → cmp path x ≡ some Ordering.lt
          → Added path qs r ps
          → Added path (x ∷ qs) r ps
      passes :
          {x : P} {qs ps : List P} {r : Bool}
          → cmp path x ≡ none
          → Added path qs r ps
          → Added path (x ∷ qs) r (x ∷ ps)
      found :
          {x : P} {qs : List P}
          → (cmp path x ≡ some Ordering.eq) ⊎ (cmp path x ≡ some Ordering.gt)
          → Added path (x ∷ qs) true (x ∷ qs)

    abbrev IsAdded : P → List P → Option (Bool × Bucket P) → Type 0
    IsAdded path qs none = Unit {0}
    IsAdded path qs (some (r, b)) = Added path qs r b.paths

    taken-IsAdded :
        (path x : P) (qs : List P) (n : ℕ) (o : Option (ℕ × Option (List ℕ)))
        → cmp path x ≡ some Ordering.lt
        → ((cs : Option (List ℕ)) (m : ℕ) → IsAdded path qs (add_loop cmp path qs cs m))
        → IsAdded path
            (x ∷ qs)
            (elim o [ none ↦ none | some (c, cs) ↦ add_loop cmp path qs cs (n + c) ])
    taken-IsAdded path x qs n none e h = tt
    taken-IsAdded path x qs n (some (c, cs)) e h =
        beaten (add_loop cmp path qs cs (n + c)) (h cs (n + c))
      where
        beaten : (o : Option (Bool × Bucket P)) → IsAdded path qs o → IsAdded path (x ∷ qs) o
        beaten none k = tt
        beaten (some (r, b)) k = beats e k

    passed-IsAdded :
        (path x : P) (qs : List P) (cs : Option (List ℕ)) (o : Option (Bool × Bucket P))
        → cmp path x ≡ none
        → IsAdded path qs o
        → IsAdded path (x ∷ qs) (Option.map (pass x cs) o)
    unfolding pass
    passed-IsAdded path x qs cs none e h = tt
    passed-IsAdded path x qs none (some (r, b)) e h = passes e h
    passed-IsAdded path x qs (some []) (some (r, b)) e h = passes e h
    passed-IsAdded path x qs (some (c ∷ cs)) (some (r, b)) e h = passes e h

    found-IsAdded :
        (path x : P) (qs : List P) (o : Option (ℕ × Option (List ℕ)))
        → (cmp path x ≡ some Ordering.eq) ⊎ (cmp path x ≡ some Ordering.gt)
        → IsAdded path (x ∷ qs) (
            Option.map
              (λ (c, cs). (true, record { paths = x ∷ qs; counts = Option.map (◌∷◌ (suc c)) cs }))
              o)
    found-IsAdded path x qs none e = tt
    found-IsAdded path x qs (some (c, cs)) e = found e

    add_loop-IsAdded :
        (path : P) (qs : List P) (cs : Option (List ℕ)) (n : ℕ)
        → IsAdded path qs (add_loop cmp path qs cs n)
    unfolding add_loop
    add_loop-IsAdded path [] cs n = alone
    add_loop-IsAdded path (x ∷ qs) cs n =
        let T = λ (z : Option (Bool × Bucket P)). IsAdded path (x ∷ qs) z in
        elim (Option-cases (cmp path x)) [
          | inl apart ↦
              let step : add_loop cmp path (x ∷ qs) cs n
                  ≡ Option.map (pass x cs) (add_loop cmp path qs (counts_behind cs) n) =
                ground (arith, apart) in
              subst T (sym step) (
                passed-IsAdded path x qs cs _ apart (add_loop-IsAdded path qs (counts_behind cs) n))
          | inr (Ordering.lt, better) ↦
              let step : add_loop cmp path (x ∷ qs) cs n ≡ (elim (take_count cs) [
                | none ↦ none
                | some (c, cs') ↦ add_loop cmp path qs cs' (n + c)
              ]) =
                ground (arith, better) in
              subst T (sym step) (
                taken-IsAdded path x qs n (take_count cs) better
                  (λ cs' m. add_loop-IsAdded path qs cs' m))
          | inr (Ordering.eq, same) ↦
              let step : add_loop cmp path (x ∷ qs) cs n
                  ≡ Option.map
                      (λ (c, cs').
                        (true, record { paths = x ∷ qs; counts = Option.map (◌∷◌ (suc c)) cs' }))
                      (take_count cs) =
                ground (arith, same) in
              subst T (sym step) (found-IsAdded path x qs (take_count cs) (inl same))
          | inr (Ordering.gt, worse) ↦
              let step : add_loop cmp path (x ∷ qs) cs n
                  ≡ Option.map
                      (λ (c, cs').
                        (true, record { paths = x ∷ qs; counts = Option.map (◌∷◌ (suc c)) cs' }))
                      (take_count cs) =
                ground (arith, worse) in
              subst T (sym step) (found-IsAdded path x qs (take_count cs) (inr worse))
        ]

    Added-All :
        (Q : P → Type 0) {path : P} {qs ps : List P} {r : Bool}
        → Added path qs r ps
        → Q path
        → All Q qs
        → All Q ps
    Added-All Q alone q all = (q, tt)
    Added-All Q (beats e d) q all = Added-All Q d q all.1
    Added-All Q (passes e d) q all = (all.0, Added-All Q d q all.1)
    Added-All Q (found e) q all = all

    Added-IsApart :
        {path : P} {qs ps : List P} {r : Bool} → Added path qs r ps → IsApart qs → IsApart ps
    Added-IsApart alone h = (tt, tt)
    Added-IsApart (beats e d) h = Added-IsApart d h.1
    Added-IsApart (passes {x} e d) h =
        (Added-All (λ p. cmp p x ≡ none) d e h.0, Added-IsApart d h.1)
    Added-IsApart (found e) h = h

    Added-similar :
        {path : P} {qs ps : List P} {r : Bool}
        → Added path qs r ps
        → (r ≡ has_similar path qs) × (r ≡ false → ps ≡ unbeaten path qs ++ path ∷ [])
    Added-similar alone = (refl, λ e. refl)
    Added-similar (beats e d) =
        let (flag, kept) = Added-similar d in (ground arith, λ n. ground (arith, kept n))
    Added-similar (passes e d) =
        let (flag, kept) = Added-similar d in (ground arith, λ n. ground (arith, kept n))
    Added-similar (found (inl e)) = (ground arith, λ n. absurd (ground (arith, n)))
    Added-similar (found (inr e)) = (ground arith, λ n. absurd (ground (arith, n)))

    loop_lem :
        (path : P) (b b' : Bucket P) (r : Bool)
        → add_to_bucket cmp path b ≡ some (r, b')
        → Added path b.paths r b'.paths
    unfolding add_to_bucket
    loop_lem path b b' r e =
        subst (λ (z : Option (Bool × Bucket P)). IsAdded path b.paths z) e
          (add_loop-IsAdded path b.paths b.counts 0)

    -- When `add_path` returns, the paths of the bucket are still apart: none of them compares with one
    -- that was added before it. This holds for every comparison.
    pub add_to_bucket-IsApart :
        (path : P) (b b' : Bucket P) (r : Bool)
        → IsApart b.paths
        → add_to_bucket cmp path b ≡ some (r, b')
        → IsApart b'.paths
    add_to_bucket-IsApart path b b' r h e = Added-IsApart (loop_lem path b b' r e) h

    -- When `add_path` returns, its result is true exactly if the path is equal to or worse than one of
    -- the bucket, and false if it is new or better, which is the opposite of what its doc says.
    pub add_to_bucket-similar :
        (path : P) (b b' : Bucket P) (r : Bool)
        → add_to_bucket cmp path b ≡ some (r, b')
        → r ≡ has_similar path b.paths
    add_to_bucket-similar path b b' r e = (Added-similar (loop_lem path b b' r e)).0

    -- When `add_path` finds no similar path, the bucket then holds the paths that the new one does not
    -- beat, in their order, and the new one behind them.
    pub add_to_bucket-new :
        (path : P) (b b' : Bucket P)
        → add_to_bucket cmp path b ≡ some (false, b')
        → b'.paths ≡ unbeaten path b.paths ++ path ∷ []
    add_to_bucket-new path b b' e = (Added-similar (loop_lem path b b' false e)).1 refl

    -- There is a count for each path, if statistics are collected.
    abbrev pub IsCounted : List P → Option (List ℕ) → Type 0
    IsCounted qs none = Unit {0}
    IsCounted qs (some cs) = length cs ≡ length qs

    count_lem :
        (x : P) (qs : List P) (cs : Option (List ℕ))
        → IsCounted (x ∷ qs) cs
        → (c : ℕ) × (behind : Option (List ℕ)) × (take_count cs ≡ some (c, behind))
          × (counts_behind cs ≡ behind)
          × IsCounted qs behind
    unfolding take_count counts_behind
    count_lem x qs none h = (0, none, refl, refl, tt)
    count_lem x qs (some []) h = absurd (omega (arith, h))
    count_lem x qs (some (c ∷ cs)) h = (c, some cs, refl, refl, omega (arith, h))

    -- Where there is a count for each path, `add_path` does not panic.
    pub add_to_bucket-returns :
        (path : P) (b : Bucket P)
        → IsCounted b.paths b.counts
        → (r : Bool) × (b' : Bucket P) × (add_to_bucket cmp path b ≡ some (r, b'))
    unfolding add_to_bucket
    add_to_bucket-returns path b h = loop b.paths b.counts 0 h
      where
        loop :
            (qs : List P) (cs : Option (List ℕ)) (n : ℕ)
            → IsCounted qs cs
            → (r : Bool) × (b' : Bucket P) × (add_loop cmp path qs cs n ≡ some (r, b'))
        loop [] cs n h = (_, _, unfold add_loop in refl)
        loop (x ∷ qs) cs n h =
            let (c, behind, taken, rest, counted) = count_lem x qs cs h in
            elim (Option-cases (cmp path x)) [
              | inl apart ↦
                  let (r, b', e) = loop qs behind n counted in
                  let passed = pass x cs (r, b') in
                  (passed.0, passed.1, unfold add_loop in ground (arith, apart, rest, e))
              | inr (Ordering.lt, better) ↦
                  let (r, b', e) = loop qs behind (n + c) counted in
                  (r, b', unfold add_loop in ground (arith, better, taken, e))
              | inr (Ordering.eq, same) ↦ (
                true,
                record { paths = x ∷ qs; counts = Option.map (◌∷◌ (suc c)) behind },
                unfold add_loop in ground (arith, same, taken),
              )
              | inr (Ordering.gt, worse) ↦ (
                true,
                record { paths = x ∷ qs; counts = Option.map (◌∷◌ (suc c)) behind },
                unfold add_loop in ground (arith, worse, taken),
              )
            ]
