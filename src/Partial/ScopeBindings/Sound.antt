-- ===== src/Partial/ScopeBindings/Sound.antt =====
-- Unification of scope stacks (stack-graphs/src/partial.rs), from the bindings to an assignment.
use stack_graphs_muffet.Prelude.{
  ℕ, zero, suc, ◌-◌, ◌<◌, ◌≤◌, ◌≡◌, ◌≢◌, refl, ap, sym, ◌∙◌, ◌==◌, ltb, if◌then◌else◌, List, [],
  ◌∷◌, ◌++◌, Option, none, some, arith, length, get_elem?, set, replicate, Bool-cases, inl, inr,
  length-append, length-replicate, get_elem?-set_self, get_elem?-set_ne, ◌⊎◌, append_assoc, ==_iff,
  Option-cases, List-cases, sub_u32,
}
use stack_graphs_muffet.Paths.{ok, Result-cases}
use stack_graphs_muffet.Arena.{Handle}
use stack_graphs_muffet.Partial.ScopeStack.{PartialScopeStack, from_variable, empty}
use stack_graphs_muffet.Partial.ScopeBindings.{
  ScopeBindings, Unifier, Rest, get, resized, bind, binding, add_with, pop_common, unify_rest,
  unify_empty, unify_with, unify,
}
use stack_graphs_muffet.Partial.Path.Semantics.{Assignment, scopes, rest_of}

-- The assignment satisfies every binding.
abbrev pub Solves : Assignment → ScopeBindings → Type 0
Solves a b = (v : ℕ) (s : PartialScopeStack) → get b v ≡ some s → a.scopes_of v ≡ scopes a s

-- The variable, if there is one, is a number from 1 on that is not bound.
abbrev pub IsFree : ScopeBindings → Option ℕ → Type 0
IsFree b o = (v : ℕ) → o ≡ some v → (0 < v) × (get b v ≡ none)

slot : Option (Option PartialScopeStack) → Option PartialScopeStack
slot none = none
slot (some o) = o

slot-replicate : (n i : ℕ) → slot (get_elem? (replicate n none) i) ≡ none
unfolding slot
slot-replicate zero i = refl
slot-replicate (suc n) zero = refl
slot-replicate (suc n) (suc i) = slot-replicate n i

slot-append :
    (b : ScopeBindings) (n i : ℕ)
    → slot (get_elem? (b ++ replicate n none) i) ≡ slot (get_elem? b i)
unfolding slot
slot-append [] n i = slot-replicate n i
slot-append (x ∷ b) n zero = refl
slot-append (x ∷ b) n (suc i) = slot-append b n i

get-slot : (b : ScopeBindings) (i : ℕ) → get b (suc i) ≡ slot (get_elem? b i)
unfolding get slot
get-slot b i = ground arith

pub get-resized : (b : ScopeBindings) (n v : ℕ) → get (resized b n) v ≡ get b v
get-resized b n zero = unfold get in refl
get-resized b n (suc i) = elim (Bool-cases (ltb (length b) n)) [
  | inl short ↦
      let grown : resized b n ≡ b ++ replicate (n - length b) none =
        unfold resized in ground arith in
      ap (λ (z : ScopeBindings). get z (suc i)) grown
      ∙ get-slot (b ++ replicate (n - length b) none) i
      ∙ slot-append b (n - length b) i
      ∙ sym (get-slot b i)
  | inr long ↦
      let same : resized b n ≡ b = unfold resized in ground arith in
      ap (λ (z : ScopeBindings). get z (suc i)) same
]

length-resized : (b : ScopeBindings) (n : ℕ) → n ≤ length (resized b n)
unfolding resized
length-resized b n = ground (
  arith,
  length-append b (replicate (n - length b) none),
  length-replicate {A = Option PartialScopeStack} (n - length b) none,
)

-- After a binding the variable reads as it was bound, and every other one as before.
pub get-bind :
    (b : ScopeBindings) (i w : ℕ) (s : PartialScopeStack)
    → get (bind (resized b (suc i)) (suc i) s) w ≡ (if suc i == w then some s else get b w)
unfolding bind
get-bind b i zero s = unfold get in ground arith
get-bind b i (suc j) s = elim (Bool-cases (i == j)) [
  | inl same ↦
      let e : i ≡ j = (==_iff i j).0 same in
      let stored = get_elem?-set_self (resized b (suc i)) i (some s) (length-resized b (suc i)) in
      get-slot (set (resized b (suc i)) i (some s)) j ∙ (unfold slot in ground arith)
  | inr other ↦
      let n : i ≢ j = ground arith in
      let kept = get_elem?-set_ne (resized b (suc i)) i j (some s) n in
      get-slot (set (resized b (suc i)) i (some s)) j
      ∙ ap slot kept
      ∙ sym (get-slot (resized b (suc i)) j)
      ∙ get-resized b (suc i) (suc j)
      ∙ (ground arith)
]

-- Binding a free variable: an assignment that satisfies the new bindings satisfies the old ones,
-- and gives the variable what it is bound to.
binding-Solves :
    (u : Unifier) (b b' : ScopeBindings) (v : ℕ) (s r t : PartialScopeStack) (a : Assignment)
    → 0 < v
    → get b v ≡ none
    → binding (add_with u) b v s r ≡ ok (t, b')
    → Solves a b'
    → (a.scopes_of v ≡ scopes a s) × Solves a b × (t ≡ r)
unfolding add_with
binding-Solves u b b' zero s r t a pos free e h = elim pos [ ]
binding-Solves u b b' (suc i) s r t a pos free e h =
    let resized_free : get (resized b (suc i)) (suc i) ≡ none =
      get-resized b (suc i) (suc i) ∙ free in
    let stored : bind (resized b (suc i)) (suc i) s ≡ b' = ground arith in
    let reads = λ (w : ℕ). ap (λ (z : ScopeBindings). get z w) (sym stored) ∙ get-bind b i w s in
    (
      h (suc i) s (ground (arith, reads (suc i))),
      λ w o f. h w o (ground (arith, reads w)),
      ground arith,
    )

-- What the loop leaves of two lists, behind what they have in common.
pub record Split (xs ys : List Handle) (r : Rest) : Type 0 where
  pub common : List Handle
  pub left : xs ≡ common ++ r.lhs
  pub right : ys ≡ common ++ r.rhs
  pub done : (r.lhs ≡ []) ⊎ (r.rhs ≡ [])

pub pop_common-Split :
    (xs ys : List Handle) (n m : ℕ) (r : Rest) → pop_common xs n ys m ≡ ok r → Split xs ys r
unfolding pop_common
pop_common-Split [] ys n m r e = record {
  common = [];
  left = ground arith;
  right = ground arith;
  done = inl (ground arith);
}
pop_common-Split (x ∷ xs) [] n m r e = record {
  common = [];
  left = ground arith;
  right = ground arith;
  done = inr (ground arith);
}
pop_common-Split (x ∷ xs) (y ∷ ys) n m r e = elim (Bool-cases (x == y)) [
  | inl same ↦
      let s = pop_common-Split xs ys (sub_u32 n 1) (sub_u32 m 1) r (ground arith) in
      let head : x ≡ y = (==_iff x y).0 same in
      record {
        common = x ∷ s.common;
        left = ap (◌∷◌ x) s.left;
        right = ap (◌∷◌ y) s.right ∙ ap (λ (z : Handle). z ∷ (s.common ++ r.rhs)) (sym head);
        done = s.done;
      }
  | inr other ↦ absurd (ground arith)
]

-- Two stacks, and a third that is returned for them, stand for the same scopes.
pub record Agree (a : Assignment) (b : ScopeBindings) (l r t : PartialScopeStack) : Type 0 where
  pub equal : scopes a l ≡ scopes a r
  pub result : scopes a t ≡ scopes a l
  pub solved : Solves a b

module _ (u : Unifier) (a : Assignment) (b b' : ScopeBindings) (l r t : PartialScopeStack)
    (h : Solves a b') where
  unify_empty-Agree :
      (v w : Option ℕ)
      → IsFree b v
      → IsFree b w
      → l.variable ≡ v
      → r.variable ≡ w
      → l.scopes ≡ r.scopes
      → unify_empty (add_with u) l r b v w ≡ ok (t, b')
      → Agree a b l r t
  unfolding unify_empty scopes
  unify_empty-Agree none none fl fr vl vr s e = record {
    equal = ground (arith, vl, vr, s);
    result = ground arith;
    solved = λ v o f. h v o (ground arith);
  }
  unify_empty-Agree none (some w) fl fr vl vr s e =
      let (value, solved, same) =
        binding-Solves u b b' w empty r t a (fr w refl).0 (fr w refl).1 e h in
      record { equal = ground arith; result = ground arith; solved = solved }
  unify_empty-Agree (some v) none fl fr vl vr s e =
      let (value, solved, same) =
        binding-Solves u b b' v empty l t a (fl v refl).0 (fl v refl).1 e h in
      record { equal = ground arith; result = ground arith; solved = solved }
  unify_empty-Agree (some v) (some w) fl fr vl vr s e =
      let (value, solved, same) =
        binding-Solves u b b' w (from_variable v) l t a (fr w refl).0 (fr w refl).1 e h in
      record { equal = ground arith; result = ground arith; solved = solved }

  -- One of the two has scopes left, and they go to the other's variable.
  module _ (lhs rhs : PartialScopeStack) (common : List Handle) (fl : IsFree b l.variable)
      (fr : IsFree b r.variable) (vl : lhs.variable ≡ l.variable) (vr : rhs.variable ≡ r.variable)
      (sl : l.scopes ≡ common ++ lhs.scopes) (sr : r.scopes ≡ common ++ rhs.scopes) where
    -- Equal rests make equal stacks.
    rests : scopes a lhs ≡ scopes a rhs → scopes a l ≡ scopes a r
    unfolding scopes
    rests e =
        ap (λ (z : List Handle). z ++ rest_of a.scopes_of l.variable) sl
        ∙ append_assoc common lhs.scopes (rest_of a.scopes_of l.variable)
        ∙ ap (λ (z : Option ℕ). common ++ (lhs.scopes ++ rest_of a.scopes_of z)) (sym vl)
        ∙ ap (λ (z : List Handle). common ++ z) e
        ∙ ap (λ (z : Option ℕ). common ++ (rhs.scopes ++ rest_of a.scopes_of z)) vr
        ∙ sym (append_assoc common rhs.scopes (rest_of a.scopes_of r.variable))
        ∙ ap (λ (z : List Handle). z ++ rest_of a.scopes_of r.variable) (sym sr)

    bound_right :
        (v : ℕ)
        → rhs.variable ≡ some v
        → rhs.scopes ≡ []
        → binding (add_with u) b v lhs l ≡ ok (t, b')
        → Agree a b l r t
    bound_right v e dry run =
        let (pos, free) = fr v (sym vr ∙ e) in
        let (value, solved, same) = binding-Solves u b b' v lhs l t a pos free run h in
        record {
          equal = rests (unfold scopes in ground arith);
          result = ap (scopes a) same;
          solved = solved;
        }

    bound_left :
        (v : ℕ)
        → lhs.variable ≡ some v
        → lhs.scopes ≡ []
        → binding (add_with u) b v rhs r ≡ ok (t, b')
        → Agree a b l r t
    bound_left v e dry run =
        let (pos, free) = fl v (sym vl ∙ e) in
        let (value, solved, same) = binding-Solves u b b' v rhs r t a pos free run h in
        let equal = rests (unfold scopes in ground arith) in
        record { equal = equal; result = ap (scopes a) same ∙ sym equal; solved = solved }

    unify_rest-Agree :
        (lhs.scopes ≡ []) ⊎ (rhs.scopes ≡ [])
        → unify_rest (add_with u) l r b lhs rhs ≡ ok (t, b')
        → Agree a b l r t
    unfolding unify_rest
    unify_rest-Agree done e = elim (List-cases lhs.scopes) [
      | inr (x, xs, more) ↦ elim (Option-cases rhs.variable) [
        | inl missing ↦ absurd (ground arith)
        | inr (v, found) ↦ bound_right v found (ground arith) (ground arith)
      ]
      | inl dry ↦ elim (Option-cases lhs.variable) [
        | inl missing ↦ absurd (ground arith)
        | inr (v, found) ↦ elim (List-cases rhs.scopes) [
          | inl both ↦ absurd (ground arith)
          | inr (y, ys, more) ↦ bound_left v found dry (ground arith)
        ]
      ]
    ]

unify_with-Agree :
    (u : Unifier) (a : Assignment) (b b' : ScopeBindings) (l r t : PartialScopeStack) (rest : Rest)
    → Solves a b'
    → IsFree b l.variable
    → IsFree b r.variable
    → pop_common l.scopes l.length r.scopes r.length ≡ ok rest
    → Split l.scopes r.scopes rest
    → unify_with (add_with u) l r b ≡ ok (t, b')
    → Agree a b l r t
unfolding unify_with
unify_with-Agree u a b b' l r t rest h fl fr popped s e =
    let lhs : PartialScopeStack = record l { scopes = rest.lhs; length = rest.lhs_length } in
    let rhs : PartialScopeStack = record r { scopes = rest.rhs; length = rest.rhs_length } in
    let go_on =
      unify_rest-Agree u a b b' l r t h lhs rhs s.common fl fr refl refl s.left s.right s.done in
    elim (List-cases rest.lhs) [
      | inr (x, xs, more) ↦ go_on (ground arith)
      | inl dry ↦ elim (List-cases rest.rhs) [
        | inr (y, ys, more) ↦ go_on (ground arith)
        | inl both ↦
            unify_empty-Agree u a b b' l r t h l.variable r.variable fl fr refl refl
              (s.left ∙ ap (λ (z : List Handle). s.common ++ z) (dry ∙ sym both) ∙ sym s.right)
              (ground arith)
      ]
    ]

-- When `unify` succeeds on two scope stacks whose variables are not bound yet, every assignment that
-- satisfies the resulting bindings makes the two stacks equal, the returned stack stands for the same
-- scopes, and the bindings that were there are satisfied too.
pub unify-Agree :
    (fuel : ℕ) (a : Assignment) (b b' : ScopeBindings) (l r t : PartialScopeStack)
    → IsFree b l.variable
    → IsFree b r.variable
    → unify fuel l r b ≡ ok (t, b')
    → Solves a b'
    → Agree a b l r t
unify-Agree zero a b b' l r t fl fr e h = absurd (unfold unify in ground arith)
unify-Agree (suc fuel) a b b' l r t fl fr e h =
    elim (Result-cases (pop_common l.scopes l.length r.scopes r.length)) [
      | inr failed ↦ absurd (unfold unify unify_with in ground arith)
      | inl (rest, popped) ↦
          unify_with-Agree (unify fuel) a b b' l r t rest h fl fr popped
            (pop_common-Split l.scopes r.scopes l.length r.length rest popped) (unfold unify in e)
    ]
