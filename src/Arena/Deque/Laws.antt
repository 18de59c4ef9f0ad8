-- ===== src/Arena/Deque/Laws.antt =====
-- Pushing elements to the deques of stack-graphs/src/arena.rs, against the lists that they hold.
use stack_graphs_muffet.Prelude.{
  ℕ, suc, ◌+◌, ◌≤◌, ◌≡◌, refl, ap, sym, ◌∙◌, subst, List, [], ◌∷◌, ◌++◌, some, arith, length,
  reverse-append,
}
use stack_graphs_muffet.Arena.Laws.{HasRoom}
use stack_graphs_muffet.Arena.Reversible
use stack_graphs_muffet.Arena.Reversible.{◌>>=◌}
use stack_graphs_muffet.Arena.Reversible.Repr.{Represents, IsValid, Grows, Extends-trans}
use stack_graphs_muffet.Arena.Reversible.Compare.{length-push_front, push_front_lem}
use stack_graphs_muffet.Arena.Deque.{
  DequeDirection, forwards, backwards, Deque, DequeArena, push_front, push_back, list_push_front,
  ensure_forwards, ensure_backwards,
}
use stack_graphs_muffet.Arena.Deque.Holds.{
  stored, Holds, Turned, ensure_forwards_lem, ensure_backwards_lem,
}

module _ {ℓ} {A : Type ℓ} where
  -- The arena has grown by at most `n` cells, and the deque in it holds `xs`.
  pub record Leaves (a b : DequeArena A) (d : Deque) (xs : List A) (n : ℕ) : Type ℓ where
    pub grows : Grows a b
    pub holds : Holds b d xs
    pub size : length b.items ≤ length a.items + n

  Grows-trans : {a b c : DequeArena A} → Grows a b → Grows b c → Grows a c
  Grows-trans p q = record { valid = q.valid; kept = Extends-trans p.kept q.kept }

  -- A cell pushed in front of the stored list.
  pushed :
      (a b : DequeArena A) (e : Deque) (o : DequeDirection) (x : A) (xs zs : List A)
      → HasRoom (suc (length xs)) a
      → Turned a b e xs o (length xs)
      → x ∷ stored o xs ≡ stored o zs
      → Leaves a (list_push_front e b x).0 (list_push_front e b x).1 zs (suc (length xs))
  pushed a b e o x xs zs room t s =
      let (grows, list) =
        push_front_lem b e.list x (stored o xs) t.grows.valid t.holds (omega (arith, t.size)) in
      record {
        grows = Grows-trans t.grows grows;
        holds =
            subst
              (λ (z : List A).
                Represents (Reversible.push_front e.list b x).0 (Reversible.push_front e.list b x).1
                  z)
              (s ∙ ap (λ (z : DequeDirection). stored z zs) (sym t.direction)) list;
        size = omega (arith, length-push_front b e.list x, t.size);
      }

  module _ (a : DequeArena A) (d : Deque) (xs : List A) (v : IsValid a) (h : Holds a d xs)
      (room : HasRoom (suc (length xs)) a) where
    pub facing_front :
        (b : DequeArena A) × (e : Deque) × (ensure_forwards d a ≡ some (b, e))
        × Turned a b e xs forwards (length xs)
    facing_front = ensure_forwards_lem a d.list xs v (omega arith) d.direction h

    pub facing_back :
        (b : DequeArena A) × (e : Deque) × (ensure_backwards d a ≡ some (b, e))
        × Turned a b e xs backwards (length xs)
    facing_back = ensure_backwards_lem a d.list xs v (omega arith) d.direction h

    -- On a valid arena with room, `push_front` returns a deque that holds the element and then
    -- what was held; the arena stays valid and every deque of it holds what it did.
    pub push_front-Holds :
        (x : A)
        → (b : DequeArena A) × (e : Deque) × (push_front d a x ≡ some (b, e))
          × Leaves a b e (x ∷ xs) (suc (length xs))
    unfolding push_front
    push_front-Holds x =
        let (b, e, run, t) = facing_front in
        (
          (list_push_front e b x).0,
          (list_push_front e b x).1,
          rw run,
          pushed a b e forwards x xs (x ∷ xs) room t refl,
        )

    -- On a valid arena with room, `push_back` returns a deque that holds what was held and then
    -- the element; the arena stays valid and every deque of it holds what it did.
    pub push_back-Holds :
        (x : A)
        → (b : DequeArena A) × (e : Deque) × (push_back d a x ≡ some (b, e))
          × Leaves a b e (xs ++ x ∷ []) (suc (length xs))
    unfolding push_back
    push_back-Holds x =
        let (b, e, run, t) = facing_back in
        (
          (list_push_front e b x).0,
          (list_push_front e b x).1,
          rw run,
          pushed a b e backwards x xs (xs ++ x ∷ []) room t (sym (reverse-append xs (x ∷ []))),
        )
