-- ===== src/Arena/Supplemental/Laws.antt =====
-- Reading a `SupplementalArena` (stack-graphs/src/arena.rs) after a write.
use stack_graphs_muffet.Prelude.{
  ℕ, zero, suc, ◌-◌, ◌≤◌, ◌<◌, ◌≡◌, refl, List, [], ◌∷◌, none, some, arith, leb, ltb, ◌==◌,
  if◌then◌else◌, get_elem?, set, length, replicate, Bool-cases, inl, inr, length-append,
  length-replicate, get_elem?_beyond,
}
use stack_graphs_muffet.Arena.{Handle}
use stack_graphs_muffet.Arena.Supplemental.{SupplementalArena, get, put_or_default, grow}

module _ {A : Type 0} where
  get_elem?-set :
      (xs : List A) (i j : ℕ) (v : A)
      → i < length xs
      → get_elem? (set xs i v) j ≡ (if i == j then some v else get_elem? xs j)
  get_elem?-set [] i j v h = elim h [ ]
  get_elem?-set (x ∷ xs) zero zero v h = refl
  get_elem?-set (x ∷ xs) zero (suc j) v h = ground arith
  get_elem?-set (x ∷ xs) (suc i) zero v h = ground arith
  get_elem?-set (x ∷ xs) (suc i) (suc j) v h = ground (arith, get_elem?-set xs i j v)

  get_elem?-replicate :
      (n j : ℕ) (d : A) → get_elem? (replicate n d) j ≡ (if ltb j n then some d else none)
  get_elem?-replicate zero j d = ground arith
  get_elem?-replicate (suc n) zero d = ground arith
  get_elem?-replicate (suc n) (suc j) d = ground (arith, get_elem?-replicate n j d)

  get_elem?-grow :
      (d : A) (xs : List A) (n j : ℕ)
      → length xs ≤ n
      → get_elem? (grow d xs n) j
        ≡ (if ltb j (length xs) then get_elem? xs j else if ltb j n then some d else none)
  unfolding grow
  get_elem?-grow d [] n j h =
      let whole : n - 0 ≡ n = omega arith in ground (arith, get_elem?-replicate (n - 0) j d)
  get_elem?-grow d (x ∷ xs) zero j h = absurd (omega arith)
  get_elem?-grow d (x ∷ xs) (suc n) zero h = ground arith
  get_elem?-grow d (x ∷ xs) (suc n) (suc j) h =
      let less : suc n - suc (length xs) ≡ n - length xs = omega arith in
      ground (arith, get_elem?-grow d xs n j)

  length-grow : (d : A) (xs : List A) (n : ℕ) → n ≤ length (grow d xs n)
  unfolding grow
  length-grow d xs n =
      omega
        (arith, length-append xs (replicate (n - length xs) d), length-replicate (n - length xs) d)

  -- A write at a handle is read back there; it fills the missing slots below the handle with the
  -- default, and changes no item that was there.
  pub get-put_or_default :
      (d : A) (s : SupplementalArena A) (i j : ℕ) (v : A)
      → get (put_or_default d s (suc i) v) (suc j) ≡ (
          if i == j
          then some v
          else if ltb j (length s.items)
          then get s (suc j)
          else if ltb j i
          then some d
          else none)
  unfolding get put_or_default
  get-put_or_default d s i j v = elim (Bool-cases (leb (length s.items) i)) [
    | inl short ↦ ground (
      arith,
      get_elem?-set (grow d s.items (suc i)) i j v,
      get_elem?-grow d s.items (suc i) j,
      length-grow d s.items (suc i),
    )
    | inr fits ↦ ground (arith, get_elem?-set s.items i j v, get_elem?_beyond s.items j)
  ]

  -- The item at a handle, with the default for a missing one.
  abbrev pub or_default : A → SupplementalArena A → Handle → A
  or_default d s h = elim (get s h) [ none ↦ d | some v ↦ v ]

  pub or_default-put :
      (d : A) (s : SupplementalArena A) (h k : Handle) (v : A)
      → 0 < h
      → 0 < k
      → or_default d (put_or_default d s h v) k ≡ (if h == k then v else or_default d s k)
  or_default-put d s zero k v hh hk = absurd (omega arith)
  or_default-put d s (suc i) zero v hh hk = absurd (omega arith)
  or_default-put d s (suc i) (suc j) v hh hk =
      unfold get in ground (arith, get-put_or_default d s i j v, get_elem?_beyond s.items j)
