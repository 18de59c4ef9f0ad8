-- ===== src/Stitching/Find/Once.antt =====
-- How often a path is among the candidates at the root, for stack-graphs/src/stitching.rs.
use stack_graphs_muffet.Prelude.{
  ℕ, suc, ◌+◌, ◌≡◌, refl, ap, sym, not, ◌&&◌, ◌||◌, ◌==◌, inl, inr, Bool, Bool-cases, true, false,
  if◌then◌else◌, List, [], ◌∷◌, ◌++◌, length, arith,
}
use stack_graphs_muffet.Arena.{Handle}
use stack_graphs_muffet.Prelude.Same.{same, same_sound}
use stack_graphs_muffet.Stitching.Index.{
  RootPath, has_tail, has_proper_tail, exactly, longer, select, has_tail-length,
}
use stack_graphs_muffet.Stitching.Find.{root_candidates, at_tails}

unfoldable pub occurrences : Handle → List Handle → ℕ
occurrences h [] = 0
occurrences h (x ∷ xs) = if h == x then suc (occurrences h xs) else occurrences h xs

-- The paths with this handle that pass a test.
unfoldable pub passing : Handle → (RootPath → Bool) → List RootPath → ℕ
passing h test [] = 0
passing h test (p ∷ ps) =
    let rest = passing h test ps in if (h == p.handle) && test p then suc rest else rest

unfoldable pub nonempty : List Handle → Bool
nonempty [] = false
nonempty (x ∷ xs) = true

-- The precondition of the path fits the stack: one of the two lists of symbols is the whole of the other
-- one, or its start; what is missing in one of them is left to its variable.
unfoldable pub fits : List Handle → Bool → RootPath → Bool
unfolding same has_tail has_proper_tail
fits ss variable p =
    (same p.symbols ss && not p.variable)
    || (variable && has_proper_tail p.symbols ss)
    || (p.variable && has_tail ss p.symbols)

-- The test that the indexes make: a path without symbols in its precondition is in none of them.
unfoldable pub indexed : List Handle → Bool → RootPath → Bool
indexed ss variable p = nonempty p.symbols && fits ss variable p

occurrences-append :
    (h : Handle) (xs ys : List Handle)
    → occurrences h (xs ++ ys) ≡ occurrences h xs + occurrences h ys
unfolding occurrences
occurrences-append h [] ys = omega arith
occurrences-append h (x ∷ xs) ys =
    let rest = occurrences-append h xs ys in
    elim (Bool-cases (h == x)) [
      | inl here ↦
          let more : suc (occurrences h xs) + occurrences h ys ≡ suc (occurrences h (xs ++ ys)) =
            omega (arith, rest) in
          ground (arith, here, more)
      | inr away ↦ ground (arith, rest, away)
    ]

occurrences-select :
    (h : Handle) (test : RootPath → Bool) (ps : List RootPath)
    → occurrences h (select test ps) ≡ passing h test ps
unfolding occurrences select passing
occurrences-select h test [] = refl
occurrences-select h test (p ∷ ps) = ground (arith, occurrences-select h test ps)

-- Two tests that no path passes both.
passing-or :
    (h : Handle) (f g both : RootPath → Bool) (ps : List RootPath)
    → ((p : RootPath) → both p ≡ (f p || g p))
    → ((p : RootPath) → (f p && g p) ≡ false)
    → passing h both ps ≡ passing h f ps + passing h g ps
unfolding passing
passing-or h f g both [] e apart = omega arith
passing-or h f g both (p ∷ ps) e apart =
    ground (arith, passing-or h f g both ps e apart, e p, apart p)

passing-none :
    (h : Handle) (f : RootPath → Bool) (ps : List RootPath)
    → ((p : RootPath) → f p ≡ false)
    → passing h f ps ≡ 0
unfolding passing
passing-none h f [] e = refl
passing-none h f (p ∷ ps) e = ground (arith, e p, passing-none h f ps e)

same-sym : (xs ys : List Handle) → same xs ys ≡ same ys xs
unfolding same
same-sym [] [] = refl
same-sym [] (y ∷ ys) = refl
same-sym (x ∷ xs) [] = refl
same-sym (x ∷ xs) (y ∷ ys) = ground (arith, same-sym xs ys)

-- A list is not the same as one that some of its tails are.
same-not_tail :
    (ss : List Handle) (x : Handle) (xs : List Handle)
    → same ss (x ∷ xs) ≡ true
    → has_tail xs ss ≡ true
    → ⊥
same-not_tail ss x xs eq tail =
    let short = has_tail-length xs ss tail in
    let long = ap (length {A = Handle}) (same_sound ss (x ∷ xs) eq) in omega (arith, short, long)

same-not_proper : (ss xs : List Handle) → same ss xs ≡ true → has_proper_tail ss xs ≡ true → ⊥
same-not_proper [] xs eq tail = absurd (unfold has_proper_tail in ground (arith, tail))
same-not_proper (s ∷ ss) xs eq tail =
    let short = has_tail-length ss xs (unfold has_proper_tail in tail) in
    let long = ap (length {A = Handle}) (same_sound (s ∷ ss) xs eq) in omega (arith, short, long)

-- One of two lists cannot be a proper tail of the other one and have it as a tail.
tail-not_proper : (ss xs : List Handle) → has_tail xs ss ≡ true → has_proper_tail ss xs ≡ true → ⊥
tail-not_proper [] xs a b = absurd (unfold has_proper_tail in ground (arith, b))
tail-not_proper (s ∷ ss) xs a b =
    omega
      (arith, has_tail-length xs (s ∷ ss) a, has_tail-length ss xs (unfold has_proper_tail in b))

-- A path with a variable whose symbols are a tail of the list, and some.
unfoldable with_tail : List Handle → RootPath → Bool
unfolding has_tail
with_tail xs p = p.variable && (nonempty p.symbols && has_tail xs p.symbols)

with_tail-cons :
    (x : Handle) (xs : List Handle) (p : RootPath)
    → with_tail (x ∷ xs) p ≡ (exactly true (x ∷ xs) p || with_tail xs p)
unfolding with_tail has_tail exactly nonempty
with_tail-cons x xs p = go p.symbols
  where
    go :
        (ss : List Handle)
        → (p.variable && (nonempty ss && (same (x ∷ xs) ss || has_tail xs ss)))
          ≡ ((same ss (x ∷ xs) && p.variable) || (p.variable && (nonempty ss && has_tail xs ss)))
    go [] = unfold same in ground arith
    go (s ∷ ss) = ground (arith, same-sym (x ∷ xs) (s ∷ ss))

with_tail-apart :
    (x : Handle) (xs : List Handle) (p : RootPath)
    → (exactly true (x ∷ xs) p && with_tail xs p) ≡ false
unfolding with_tail exactly
with_tail-apart x xs p = elim (Bool-cases (same p.symbols (x ∷ xs))) [
  | inl eq ↦ elim (Bool-cases (has_tail xs p.symbols)) [
    | inl tail ↦ absurd (same-not_tail p.symbols x xs eq tail)
    | inr apart ↦ ground (arith, apart)
  ]
  | inr ne ↦ ground (arith, ne)
]

with_tail-nil : (p : RootPath) → with_tail [] p ≡ false
unfolding with_tail has_tail nonempty
with_tail-nil p = go p.symbols
  where
    go : (ss : List Handle) → (p.variable && (nonempty ss && same [] ss)) ≡ false
    go [] = ground arith
    go (s ∷ ss) = unfold same in ground arith

occurrences-at_tails :
    (h : Handle) (ps : List RootPath) (xs : List Handle)
    → occurrences h (at_tails (λ ss. select (exactly true ss) ps) xs) ≡ passing h (with_tail xs) ps
unfolding at_tails
occurrences-at_tails h ps [] =
    unfold occurrences in sym (passing-none h (with_tail []) ps with_tail-nil)
occurrences-at_tails h ps (x ∷ xs) =
    let split =
      occurrences-append h (select (exactly true (x ∷ xs)) ps)
        (at_tails (λ ss. select (exactly true ss) ps) xs) in
    let one = occurrences-select h (exactly true (x ∷ xs)) ps in
    let rest = occurrences-at_tails h ps xs in
    let both =
      passing-or h (exactly true (x ∷ xs)) (with_tail xs) (with_tail (x ∷ xs)) ps
        (with_tail-cons x xs) (with_tail-apart x xs) in
    omega (arith, split, one, rest, both)

-- The middle part of the candidates.
unfoldable extended : List Handle → Bool → RootPath → Bool
unfolding longer
extended xs variable p = variable && longer xs p

occurrences-extended :
    (h : Handle) (ps : List RootPath) (xs : List Handle) (variable : Bool)
    → occurrences h (if variable then select (longer xs) ps else [])
      ≡ passing h (extended xs variable) ps
unfolding extended
occurrences-extended h ps xs true = occurrences-select h (longer xs) ps
occurrences-extended h ps xs false =
    unfold occurrences in sym (passing-none h (extended xs false) ps (λ p. ground arith))

extended-apart :
    (xs : List Handle) (variable : Bool) (p : RootPath)
    → (extended xs variable p && with_tail xs p) ≡ false
unfolding extended longer with_tail
extended-apart xs variable p = elim (Bool-cases (has_tail xs p.symbols)) [
  | inl tail ↦ elim (Bool-cases (has_proper_tail p.symbols xs)) [
    | inl proper ↦ absurd (tail-not_proper p.symbols xs tail proper)
    | inr apart ↦ ground (arith, apart)
  ]
  | inr ne ↦ ground (arith, ne)
]

exact-apart :
    (xs : List Handle) (variable : Bool) (p : RootPath)
    → (exactly false xs p && (extended xs variable p || with_tail xs p)) ≡ false
unfolding exactly extended longer with_tail
exact-apart xs variable p = elim (Bool-cases (same p.symbols xs)) [
  | inl eq ↦ elim (Bool-cases (has_proper_tail p.symbols xs)) [
    | inl proper ↦ absurd (same-not_proper p.symbols xs eq proper)
    | inr apart ↦ ground (arith, eq, apart)
  ]
  | inr ne ↦ ground (arith, ne)
]

indexed-parts :
    (x : Handle) (xs : List Handle) (variable : Bool) (p : RootPath)
    → indexed (x ∷ xs) variable p
      ≡ (exactly false (x ∷ xs) p || (extended (x ∷ xs) variable p || with_tail (x ∷ xs) p))
unfolding indexed fits exactly extended longer with_tail
indexed-parts x xs variable p = go p.symbols
  where
    go :
        (ss : List Handle)
        → (nonempty ss
            && ((same ss (x ∷ xs) && not p.variable)
                || (variable && has_proper_tail ss (x ∷ xs))
                || (p.variable && has_tail (x ∷ xs) ss)))
          ≡ ((same ss (x ∷ xs) && not p.variable)
              || ((variable && has_proper_tail ss (x ∷ xs))
                  || (p.variable && (nonempty ss && has_tail (x ∷ xs) ss))))
    go [] = unfold nonempty same has_proper_tail in ground arith
    go (s ∷ ss) = unfold nonempty in ground arith

-- A path is found as often as it is in the indexes and fits.
pub occurrences-root_candidates :
    (h : Handle) (ps : List RootPath) (x : Handle) (xs : List Handle) (variable : Bool)
    → occurrences h (root_candidates ps (x ∷ xs) variable)
      ≡ passing h (indexed (x ∷ xs) variable) ps
unfolding root_candidates
occurrences-root_candidates h ps x xs variable =
    let ss : List Handle = x ∷ xs in
    let tails = at_tails (λ ss. select (exactly true ss) ps) ss in
    let mid = if variable then select (longer ss) ps else [] in
    let rest : RootPath → Bool = λ p. extended ss variable p || with_tail ss p in
    let outer = occurrences-append h (select (exactly false ss) ps) (mid ++ tails) in
    let inner = occurrences-append h mid tails in
    let one = occurrences-select h (exactly false ss) ps in
    let two = occurrences-extended h ps ss variable in
    let three = occurrences-at_tails h ps ss in
    let last =
      passing-or h (extended ss variable) (with_tail ss) rest ps (λ p. refl)
        (extended-apart ss variable) in
    let all =
      passing-or h (exactly false ss) rest (indexed ss variable) ps (indexed-parts x xs variable)
        (exact-apart ss variable) in
    omega (arith, outer, inner, one, two, three, last, all)
