-- ===== src/Arena/Deque/Holds.antt =====
-- What a deque of stack-graphs/src/arena.rs holds, and the change of its direction.
use stack_graphs_muffet.Prelude.{
  ℕ, ◌+◌, ◌≤◌, ◌≡◌, refl, subst, List, some, arith, length, length-reverse, reverse-reverse,
}
use mathlib.Core.List
use stack_graphs_muffet.Arena.{Handle}
use stack_graphs_muffet.Arena.Laws.{HasRoom}
use stack_graphs_muffet.Arena.Reversible.Repr.{
  Represents, IsValid, Grows, Extends-refl, Represents-Extends,
}
use stack_graphs_muffet.Arena.Reversible.Reverse.{reverse_lem}
use stack_graphs_muffet.Arena.Deque.{
  DequeDirection, forwards, backwards, flip, Deque, DequeArena, reverse_to, ensure_backwards,
  ensure_forwards,
}

module _ {ℓ} {A : Type ℓ} where
  -- The elements in the order in which they are stored.
  abbrev pub stored : DequeDirection → List A → List A
  stored forwards xs = xs
  stored backwards xs = List.reverse xs

  -- The deque holds `xs`, front first.
  abbrev pub Holds : DequeArena A → Deque → List A → Type ℓ
  Holds a d xs = Represents a d.list (stored d.direction xs)

  pub Holds-Grows :
      {a b : DequeArena A} (d : Deque) (xs : List A) → Grows a b → Holds a d xs → Holds b d xs
  Holds-Grows d xs g h = Represents-Extends g.kept h

  length-stored : (o : DequeDirection) (xs : List A) → length (stored o xs) ≡ length xs
  length-stored forwards xs = refl
  length-stored backwards xs = length-reverse xs

  reverse-stored :
      (o : DequeDirection) (xs : List A) → List.reverse (stored o xs) ≡ stored (flip o) xs
  reverse-stored forwards xs = refl
  reverse-stored backwards xs = reverse-reverse xs

  -- An arena grown by at most `n` cells, and a deque in it that holds `xs`.
  pub record Turned (a b : DequeArena A) (d : Deque) (xs : List A) (o : DequeDirection) (n : ℕ)
      : Type ℓ where
    pub grows : Grows a b
    pub holds : Represents b d.list (stored o xs)
    pub direction : d.direction ≡ o
    pub size : length b.items ≤ length a.items + n

  pub Turned_refl :
      (a : DequeArena A) (d : Deque) (xs : List A)
      → IsValid a
      → Holds a d xs
      → Turned a a d xs d.direction (length xs)
  Turned_refl a d xs v h = record {
    grows = record { valid = v; kept = Extends-refl a };
    holds = h;
    direction = refl;
    size = omega arith;
  }

  pub reverse_to_lem :
      (a : DequeArena A) (d : Deque) (xs : List A)
      → IsValid a
      → Holds a d xs
      → HasRoom (length xs) a
      → (b : DequeArena A) × (e : Deque) × (reverse_to (flip d.direction) d a ≡ some (b, e))
        × Turned a b e xs (flip d.direction) (length xs)
  unfolding reverse_to
  reverse_to_lem a d xs v h room =
      let (b, r, run, done) =
        reverse_lem a d.list (stored d.direction xs) v h
          (omega (arith, length-stored d.direction xs)) in
      (
        b,
        record { list = r; direction = flip d.direction },
        rw run,
        record {
          grows = done.grows;
          holds =
              subst (λ (z : List A). Represents b r z) (reverse-stored d.direction xs) done.list;
          direction = refl;
          size = omega (arith, done.size, length-stored d.direction xs);
        },
      )

  -- The deque turned to the direction `o`: it holds what it held.
  module _ (a : DequeArena A) (l : Handle) (xs : List A) (v : IsValid a)
      (room : HasRoom (length xs) a) where
    pub ensure_forwards_lem :
        (o : DequeDirection)
        → Represents a l (stored o xs)
        → (b : DequeArena A) × (e : Deque) × (ensure_forwards (record { list = l; direction = o }) a
            ≡ some (b, e))
          × Turned a b e xs forwards (length xs)
    unfolding ensure_forwards
    ensure_forwards_lem forwards h =
        (a, record { list = l; direction = forwards }, refl, Turned_refl a _ xs v h)
    ensure_forwards_lem backwards h =
        reverse_to_lem a (record { list = l; direction = backwards }) xs v h room

    pub ensure_backwards_lem :
        (o : DequeDirection)
        → Represents a l (stored o xs)
        → (b : DequeArena A) × (e : Deque) × (ensure_backwards
              (record { list = l; direction = o })
              a
            ≡ some (b, e))
          × Turned a b e xs backwards (length xs)
    unfolding ensure_backwards
    ensure_backwards_lem backwards h =
        (a, record { list = l; direction = backwards }, refl, Turned_refl a _ xs v h)
    ensure_backwards_lem forwards h =
        reverse_to_lem a (record { list = l; direction = forwards }) xs v h room
