-- ===== src/Stitching/Keys.antt =====
-- The keys of stack-graphs/src/stitching.rs, `SymbolStackKey`: one handle for each list of symbols.
use stack_graphs_muffet.Prelude.{
  ℕ, zero, suc, ◌≤◌, ◌<◌, ◌≡◌, ◌≢◌, refl, ap, sym, ◌∙◌, subst, ◌&&◌, ◌==◌, ◌⊎◌, inl, inr,
  Bool-cases, true, if◌then◌else◌, List, [], ◌∷◌, length, none, some, Option-cases, arith,
}
use native.Mathlib.Decide.{ℕ_discrete}
use stack_graphs_muffet.Arena.{Handle, new, get, add}
use stack_graphs_muffet.Arena.Laws.{
  HasRoom, add-handle, length-add, get-add_self, get-add_old, get-add_ne, get_bounds,
}
use stack_graphs_muffet.Arena.Lists.{ListCell, ListArena, empty, push_front}
use stack_graphs_muffet.Arena.Lists.Repr.{
  Represents, IsValid, Represents-add, push_front-Represents, push_front-IsValid, new-IsValid,
}
use stack_graphs_muffet.Partial.ScopedSymbol.{PartialScopedSymbol}
use stack_graphs_muffet.Stitching.{SymbolStackKeys, cached, push_back, push_symbols}

-- Each cell is in the cache, and the cache gives nothing else.
pub record IsKeyed (t : SymbolStackKeys) : Type 0 where
  pub valid : IsValid t.cells
  pub known :
      (k : Handle) (c : ListCell Handle)
      → get t.cells k ≡ some c
      → cached c.head c.tail t.cache ≡ some k
  pub sound :
      (h tl k : Handle)
      → cached h tl t.cache ≡ some k
      → get t.cells k ≡ some (record { head = h; tail = tl })

pub new-IsKeyed : IsKeyed (record { cells = new; cache = [] })
unfolding new get cached
new-IsKeyed = record {
  valid = new-IsValid;
  known = none_yet;
  sound = λ h tl k e. absurd (ground (arith, e));
}
  where
    none_yet :
        (k : Handle) (c : ListCell Handle) → get new k ≡ some c → cached c.head c.tail [] ≡ some k
    none_yet zero c e = absurd (ground (arith, e))
    none_yet (suc i) c e = absurd (ground (arith, e))

-- Keys with the same symbols have the same handle.
pub Represents-canonical :
    (t : SymbolStackKeys) (k m : Handle) (ss : List Handle)
    → IsKeyed t
    → Represents t.cells k ss
    → Represents t.cells m ss
    → k ≡ m
Represents-canonical t k m [] v r s = r ∙ sym s
Represents-canonical t k m (x ∷ ss) v (n, a, e, r) (n', b, f, s) =
    let tails : a ≡ b = Represents-canonical t a b ss v r s in
    let left : cached x a t.cache ≡ some k = v.known k (record { head = x; tail = a }) e in
    let right : cached x b t.cache ≡ some m = v.known m (record { head = x; tail = b }) f in
    ground (arith, left, subst (λ z. cached x z t.cache ≡ some m) (sym tails) right)

-- The lists of `t` are lists of `u`, and the other lists of `u` have new handles.
pub record Extends (t u : SymbolStackKeys) : Type 0 where
  pub kept : (m : Handle) (ys : List Handle) → Represents t.cells m ys → Represents u.cells m ys
  pub fresh :
      (m y : Handle) (ys : List Handle)
      → Represents u.cells m (y ∷ ys)
      → Represents t.cells m (y ∷ ys) ⊎ (length t.cells.items < m)
  pub longer : length t.cells.items ≤ length u.cells.items

pub Extends-refl : (t : SymbolStackKeys) → Extends t t
Extends-refl t = record { kept = λ m ys r. r; fresh = λ m y ys r. inl r; longer = omega arith }

Extends-trans : (t u v : SymbolStackKeys) → Extends t u → Extends u v → Extends t v
Extends-trans t u v e f = record {
  kept = λ m ys r. f.kept m ys (e.kept m ys r);
  fresh = λ m y ys r. elim (f.fresh m y ys r) [
    | inl old ↦ e.fresh m y ys old
    | inr new ↦ inr (omega (arith, e.longer, new))
  ];
  longer = omega (arith, e.longer, f.longer);
}

tail_bound : (m t n : ℕ) → m ≤ n → (t ≡ empty) ⊎ (t < m) → (t ≡ empty) ⊎ (t ≤ n)
tail_bound m t n h (inl e) = inl e
tail_bound m t n h (inr e) = inr (omega (arith, e))

-- A list that does not start at the new cell is an old list.
Represents-old :
    (a : ListArena Handle) (c : ListCell Handle) (m : Handle) (ys : List Handle)
    → IsValid a
    → HasRoom 1 a
    → Represents (add a c).0 m ys
    → (m ≡ empty) ⊎ (m ≤ length a.items)
    → Represents a m ys
Represents-old a c m [] v room r h = r
Represents-old a c m (y ∷ ys) v room r (inl h) = absurd (r.0 h)
Represents-old a c m (y ∷ ys) v room (n, t, e, r) (inr h) =
    let same : get a m ≡ some (record { head = y; tail = t }) =
      sym (get-add_ne a c m room (λ q. omega (arith, q, add-handle a c room, h))) ∙ e in
    let older =
      tail_bound m t (length a.items) h (v.older m (record { head = y; tail = t }) same) in
    (n, t, same, Represents-old a c t ys v room r older)

Extends-add :
    (t : SymbolStackKeys) (c : ListCell Handle) (cache : List ((Handle × Handle) × Handle))
    → IsValid t.cells
    → HasRoom 1 t.cells
    → Extends t (record { cells = (add t.cells c).0; cache = cache })
Extends-add t c cache v room = record {
  kept = λ m ys r. Represents-add t.cells c m ys r;
  fresh = λ m y ys r. elim (ℕ_discrete m (add t.cells c).1) [
    | yes new ↦ inr (omega (arith, new, add-handle t.cells c room))
    | no old ↦ inl (Represents-old t.cells c m (y ∷ ys) v room r (inr (bound m y ys r old)))
  ];
  longer = omega (arith, length-add t.cells c);
}
  where
    bound :
        (m y : Handle) (ys : List Handle)
        → Represents (add t.cells c).0 m (y ∷ ys)
        → m ≢ (add t.cells c).1
        → m ≤ length t.cells.items
    bound m y ys r old = omega (
      arith,
      old,
      add-handle t.cells c room,
      length-add t.cells c,
      (get_bounds (add t.cells c).0 m (record { head = y; tail = r.1 }) r.2).1,
    )

-- The result of a push: the keys are still one for each list, and the new key stands for the list.
pub record Pushed (t : SymbolStackKeys) (n : ℕ) (ss : List Handle) (u : SymbolStackKeys × Handle)
    : Type 0 where
  pub keyed : IsKeyed u.0
  pub extends : Extends t u.0
  pub room : HasRoom n u.0.cells
  pub stands : Represents u.0.cells u.1 ss

same_cell :
    (a : ListArena Handle) (h tl k : Handle)
    → get a k ≡ some (record { head = h; tail = tl })
    → HasRoom 0 a
    → k ≢ empty
same_cell a h tl k e room q =
    omega (arith, q, room, (get_bounds a k (record { head = h; tail = tl }) e).1)

cached-cons :
    (h tl a b k : Handle) (rest : List ((Handle × Handle) × Handle))
    → cached h tl (((a, b), k) ∷ rest)
      ≡ (if (h == a) && (tl == b) then some k else cached h tl rest)
unfolding cached
cached-cons h tl a b k rest = refl

-- A new cell with its cache entry.
push-IsKeyed :
    (t : SymbolStackKeys) (k x : Handle) (ss : List Handle)
    → IsKeyed t
    → HasRoom 1 t.cells
    → Represents t.cells k ss
    → cached x k t.cache ≡ none
    → (let p = push_front k t.cells x in
        IsKeyed (record { cells = p.0; cache = ((x, k), p.1) ∷ t.cache }))
unfolding push_front
push-IsKeyed t k x ss v room r missing = record {
  valid = unfold push_front in push_front-IsValid t.cells k x ss v.valid room r;
  known = λ m d e. elim (ℕ_discrete m new) [
    | yes same ↦
        known_new m d same
          (ground (arith, e, same, get-add_self t.cells c room, ap (get (add t.cells c).0) same))
    | no other ↦ known_old m d (sym (get-add_ne t.cells c m room other) ∙ e)
  ];
  sound = λ h tl m e. elim (Bool-cases ((h == x) && (tl == k))) [
    | inl hit ↦ sound_new h tl m e hit
    | inr miss ↦
        let old : cached h tl t.cache ≡ some m =
          ground (arith, e, miss, cached-cons h tl x k new t.cache) in
        get-add_old t.cells c (record { head = h; tail = tl }) m (v.sound h tl m old)
  ];
}
  where
    c : ListCell Handle
    c = record { head = x; tail = k }

    new : Handle
    new = (add t.cells c).1

    known_new :
        (m : Handle) (d : ListCell Handle)
        → m ≡ new
        → d ≡ c
        → cached d.head d.tail (((x, k), new) ∷ t.cache) ≡ some m
    known_new m d same eq =
        let head : d.head ≡ x = ap (λ (z : ListCell Handle). z.head) eq in
        let tail : d.tail ≡ k = ap (λ (z : ListCell Handle). z.tail) eq in
        ground (arith, head, tail, same, cached-cons d.head d.tail x k new t.cache)

    known_old :
        (m : Handle) (d : ListCell Handle)
        → get t.cells m ≡ some d
        → cached d.head d.tail (((x, k), new) ∷ t.cache) ≡ some m
    known_old m d e = ground (
      arith,
      missing,
      v.known m d e,
      ap (λ z. cached z d.tail t.cache),
      cached-cons d.head d.tail x k new t.cache,
    )

    sound_new :
        (h tl m : Handle)
        → cached h tl (((x, k), new) ∷ t.cache) ≡ some m
        → ((h == x) && (tl == k)) ≡ true
        → get (add t.cells c).0 m ≡ some (record { head = h; tail = tl })
    sound_new h tl m e hit =
        let head : h ≡ x = ground (arith, hit) in
        let tail : tl ≡ k = ground (arith, hit) in
        let at : m ≡ new = ground (arith, e, hit, cached-cons h tl x k new t.cache) in
        subst (λ z. get (add t.cells c).0 z ≡ some (record { head = h; tail = tl })) (sym at)
          (ground (arith, head, tail, get-add_self t.cells c room))

push_back_lem :
    (t : SymbolStackKeys) (k x : Handle) (n : ℕ) (ss : List Handle)
    → IsKeyed t
    → HasRoom (suc n) t.cells
    → Represents t.cells k ss
    → Pushed t n (x ∷ ss) (push_back t k x)
push_back_lem t k x n ss v room r = elim (Option-cases (cached x k t.cache)) [
  | inl missing ↦
      let room1 : HasRoom 1 t.cells = omega (arith, room) in
      let c : ListCell Handle = record { head = x; tail = k } in
      let step : push_back t k x ≡ (
        record {
          cells = (push_front k t.cells x).0;
          cache = ((x, k), (push_front k t.cells x).1) ∷ t.cache;
        },
        (push_front k t.cells x).1,
      ) =
        unfold push_back in ground (arith, missing) in
      subst (Pushed t n (x ∷ ss)) (sym step) (record {
        keyed = push-IsKeyed t k x ss v room1 r missing;
        extends =
            unfold push_front in
            Extends-add t c (((x, k), (add t.cells c).1) ∷ t.cache) v.valid room1;
        room = unfold push_front in omega (arith, room, length-add t.cells c);
        stands = push_front-Represents t.cells k x ss room1 r;
      })
  | inr (m, found) ↦
      let step : push_back t k x ≡ (t, m) = unfold push_back in ground (arith, found) in
      let e = v.sound x k m found in
      subst (Pushed t n (x ∷ ss)) (sym step) (record {
        keyed = v;
        extends = Extends-refl t;
        room = omega (arith, room);
        stands = (same_cell t.cells x k m e (omega (arith, room)), k, e, r);
      })
]

-- The symbols of a stack, pushed onto a list one after another.
unfoldable pub pushed : List Handle → List PartialScopedSymbol → List Handle
pushed ss [] = ss
pushed ss (x ∷ xs) = pushed (x.symbol ∷ ss) xs

pub push_symbols_lem :
    (t : SymbolStackKeys) (k : Handle) (xs : List PartialScopedSymbol) (ss : List Handle)
    → IsKeyed t
    → HasRoom (length xs) t.cells
    → Represents t.cells k ss
    → Pushed t 0 (pushed ss xs) (push_symbols t k xs)
unfolding push_symbols pushed
push_symbols_lem t k [] ss v room r = record {
  keyed = v;
  extends = Extends-refl t;
  room = room;
  stands = r;
}
push_symbols_lem t k (x ∷ xs) ss v room r =
    let one = push_back_lem t k x.symbol (length xs) ss v room r in
    let p = push_back t k x.symbol in
    let rest = push_symbols_lem p.0 p.1 xs (x.symbol ∷ ss) one.keyed one.room one.stands in
    record {
      keyed = rest.keyed;
      extends = Extends-trans t p.0 (push_symbols p.0 p.1 xs).0 one.extends rest.extends;
      room = rest.room;
      stands = rest.stands;
    }
