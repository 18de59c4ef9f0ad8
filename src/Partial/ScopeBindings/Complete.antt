-- ===== src/Partial/ScopeBindings/Complete.antt =====
-- Unification of scope stacks (stack-graphs/src/partial.rs), from an assignment to the bindings.
use stack_graphs_muffet.Prelude.{
  ℕ, zero, suc, ◌≡◌, ◌≢◌, refl, ap, sym, ◌∙◌, subst, ◌==◌, ==_iff, List, [], ◌∷◌, ◌++◌, Option,
  none, some, arith, length, length-append, true, false, Bool-cases, Option-cases, List-cases, inl,
  inr, ◌⊎◌, append_assoc, sub_u32,
}
use mathlib.Core.List.{append_cancel_left}
use stack_graphs_muffet.Paths.{Result, ok}
use stack_graphs_muffet.Arena.{Handle}
use stack_graphs_muffet.Partial.ScopeStack.{PartialScopeStack, from_variable, empty}
use stack_graphs_muffet.Partial.ScopeBindings.{
  ScopeBindings, Unifier, Rest, get, resized, bind, binding, add_with, pop_common, shared,
  unify_rest, unify_empty, unify_with, unify,
}
use stack_graphs_muffet.Partial.ScopeBindings.Sound.{
  Solves, IsFree, get-resized, get-bind, pop_common-Split,
}
use stack_graphs_muffet.Partial.Path.Semantics.{Assignment, scopes, rest_of}

-- A result whose bindings the assignment satisfies.
abbrev pub Succeeds : Assignment → Result (PartialScopeStack × ScopeBindings) → Type 0
Succeeds a result =
    (t : PartialScopeStack) × (b : ScopeBindings) × (result ≡ ok (t, b)) × Solves a b

-- No list is itself behind further elements.
append_longer : (x : Handle) (xs ys : List Handle) → (x ∷ xs) ++ ys ≢ ys
append_longer x xs ys e =
    let size : length ((x ∷ xs) ++ ys) ≡ length ys = ap length e in
    omega (arith, size, length-append xs ys)

binding-Succeeds :
    (u : Unifier) (a : Assignment) (b : ScopeBindings) (v : ℕ) (s r : PartialScopeStack)
    → IsFree b (some v)
    → Solves a b
    → a.scopes_of v ≡ scopes a s
    → Succeeds a (binding (add_with u) b v s r)
unfolding add_with
binding-Succeeds u a b zero s r free h value = elim (free zero refl).0 [ ]
binding-Succeeds u a b (suc i) s r free h value =
    let resized_free : get (resized b (suc i)) (suc i) ≡ none =
      get-resized b (suc i) (suc i) ∙ (free (suc i) refl).1 in
    (
      r,
      bind (resized b (suc i)) (suc i) s,
      ground (arith, resized_free),
      λ w o e. elim (Bool-cases (suc i == w)) [
        | inl same ↦
            let k : suc i ≡ w = (==_iff (suc i) w).0 same in ground (arith, get-bind b i w s)
        | inr other ↦ h w o (ground (arith, get-bind b i w s))
      ],
    )

pop_common_returns :
    (xs ys ps qs : List Handle) (n m : ℕ)
    → xs ++ ps ≡ ys ++ qs
    → (r : Rest) × (pop_common xs n ys m ≡ ok r)
unfolding pop_common
pop_common_returns [] ys ps qs n m e = (_, refl)
pop_common_returns (x ∷ xs) [] ps qs n m e = (_, refl)
pop_common_returns (x ∷ xs) (y ∷ ys) ps qs n m e =
    let tails : xs ++ ps ≡ ys ++ qs = ground (arith, e) in
    let heads : x ≡ y = ground (arith, e) in
    let same : (x == y) ≡ true = (==_iff x y).1 heads in
    let (r, run) = pop_common_returns xs ys ps qs (sub_u32 n 1) (sub_u32 m 1) tails in
    (r, ground arith)

-- Two variables with no scopes in front of them.
unify_empty-Succeeds :
    (u : Unifier) (a : Assignment) (b : ScopeBindings) (l r : PartialScopeStack) (v w : Option ℕ)
    → IsFree b v
    → IsFree b w
    → Solves a b
    → rest_of a.scopes_of v ≡ rest_of a.scopes_of w
    → Succeeds a (unify_empty (add_with u) l r b v w)
unfolding unify_empty scopes
unify_empty-Succeeds u a b l r none none fl fr h e = (l, b, refl, h)
unify_empty-Succeeds u a b l r none (some w) fl fr h e =
    binding-Succeeds u a b w empty r fr h (sym e)
unify_empty-Succeeds u a b l r (some v) none fl fr h e = binding-Succeeds u a b v empty l fl h e
unify_empty-Succeeds u a b l r (some v) (some w) fl fr h e =
    binding-Succeeds u a b w (from_variable v) l fr h (sym e)

-- The variable at the end of the longer stack is not the one that takes its scopes.
not_shared :
    (a : Assignment) (o : Option ℕ) (v : ℕ) (x : Handle) (xs : List Handle)
    → (x ∷ xs) ++ rest_of a.scopes_of o ≡ a.scopes_of v
    → (shared o (some v) ≡ false) × (shared (some v) o ≡ false)
not_shared a none v x xs e = (refl, refl)
not_shared a (some w) v x xs e =
    let other : w ≢ v = λ same.
      append_longer x xs (a.scopes_of v)
        (ap (λ (z : ℕ). (x ∷ xs) ++ a.scopes_of z) (sym same) ∙ e) in
    (ground arith, ground arith)

module _ (u : Unifier) (a : Assignment) (b : ScopeBindings) (l r lhs rhs : PartialScopeStack)
    (h : Solves a b) (e : scopes a lhs ≡ scopes a rhs) where
  more_on_left :
      (x : Handle) (xs : List Handle)
      → IsFree b rhs.variable
      → lhs.scopes ≡ x ∷ xs
      → rhs.scopes ≡ []
      → Succeeds a (unify_rest (add_with u) l r b lhs rhs)
  more_on_left x xs free more dry = elim (Option-cases rhs.variable) [
    | inl missing ↦ absurd (unfold scopes in ground (arith, e))
    | inr (v, found) ↦
        let value : scopes a lhs ≡ a.scopes_of v =
          e ∙ (unfold scopes in ground (arith, dry, found)) in
        let apart = not_shared a lhs.variable v x xs (
          ap (λ (z : List Handle). z ++ rest_of a.scopes_of lhs.variable) (sym more)
          ∙ (unfold scopes in value)) in
        let step : unify_rest (add_with u) l r b lhs rhs ≡ binding (add_with u) b v lhs l =
          unfold unify_rest in ground (arith, apart.0) in
        subst (λ (z : Result (PartialScopeStack × ScopeBindings)). Succeeds a z) (sym step)
          (binding-Succeeds u a b v lhs l (λ w q. free w (found ∙ q)) h (sym value))
  ]

  more_on_right :
      (x : Handle) (xs : List Handle)
      → IsFree b lhs.variable
      → rhs.scopes ≡ x ∷ xs
      → lhs.scopes ≡ []
      → Succeeds a (unify_rest (add_with u) l r b lhs rhs)
  more_on_right x xs free more dry = elim (Option-cases lhs.variable) [
    | inl missing ↦ absurd (unfold scopes in ground (arith, e))
    | inr (v, found) ↦
        let value : scopes a rhs ≡ a.scopes_of v =
          sym e ∙ (unfold scopes in ground (arith, dry, found)) in
        let apart = not_shared a rhs.variable v x xs (
          ap (λ (z : List Handle). z ++ rest_of a.scopes_of rhs.variable) (sym more)
          ∙ (unfold scopes in value)) in
        let step : unify_rest (add_with u) l r b lhs rhs ≡ binding (add_with u) b v rhs r =
          unfold unify_rest in ground (arith, apart.1) in
        subst (λ (z : Result (PartialScopeStack × ScopeBindings)). Succeeds a z) (sym step)
          (binding-Succeeds u a b v rhs r (λ w q. free w (found ∙ q)) h (sym value))
  ]

-- `unify` behind the loop, whose rests the assignment makes equal.
unify_with-Succeeds :
    (u : Unifier) (a : Assignment) (b : ScopeBindings) (l r : PartialScopeStack) (rest : Rest)
    → Solves a b
    → IsFree b l.variable
    → IsFree b r.variable
    → pop_common l.scopes l.length r.scopes r.length ≡ ok rest
    → (rest.lhs ≡ []) ⊎ (rest.rhs ≡ [])
    → rest.lhs ++ rest_of a.scopes_of l.variable ≡ rest.rhs ++ rest_of a.scopes_of r.variable
    → Succeeds a (unify_with (add_with u) l r b)
unify_with-Succeeds u a b l r rest h fl fr popped done e =
    let lhs : PartialScopeStack = record l { scopes = rest.lhs; length = rest.lhs_length } in
    let rhs : PartialScopeStack = record r { scopes = rest.rhs; length = rest.rhs_length } in
    let T = λ (z : Result (PartialScopeStack × ScopeBindings)). Succeeds a z in
    elim (List-cases rest.lhs) [
      | inr (x, xs, more) ↦
          let dry : rest.rhs ≡ [] = ground arith in
          let step : unify_with (add_with u) l r b ≡ unify_rest (add_with u) l r b lhs rhs =
            unfold unify_with in ground (arith, popped) in
          subst T (sym step)
            (more_on_left u a b l r lhs rhs h (unfold scopes in e) x xs fr more dry)
      | inl dry ↦ elim (List-cases rest.rhs) [
        | inr (x, xs, more) ↦
            let step : unify_with (add_with u) l r b ≡ unify_rest (add_with u) l r b lhs rhs =
              unfold unify_with in ground (arith, popped) in
            subst T (sym step)
              (more_on_right u a b l r lhs rhs h (unfold scopes in e) x xs fl more dry)
        | inl both ↦
            let step : unify_with (add_with u) l r b
                ≡ unify_empty (add_with u) l r b l.variable r.variable =
              unfold unify_with in ground (arith, popped) in
            subst T (sym step)
              (unify_empty-Succeeds u a b l r l.variable r.variable fl fr h (ground (arith, e)))
      ]
    ]

-- Two scope stacks whose variables are not bound yet, and which an assignment that satisfies the
-- bindings makes equal, are unified with any fuel from 1 on: `unify` returns a stack, and bindings
-- that the assignment satisfies too.
pub unify-Succeeds :
    (fuel : ℕ) (a : Assignment) (b : ScopeBindings) (l r : PartialScopeStack)
    → IsFree b l.variable
    → IsFree b r.variable
    → Solves a b
    → scopes a l ≡ scopes a r
    → Succeeds a (unify (suc fuel) l r b)
unfolding unify
unify-Succeeds fuel a b l r fl fr h e =
    let ps = rest_of a.scopes_of l.variable in
    let qs = rest_of a.scopes_of r.variable in
    let whole : l.scopes ++ ps ≡ r.scopes ++ qs = unfold scopes in e in
    let (rest, popped) = pop_common_returns l.scopes r.scopes ps qs l.length r.length whole in
    let s = pop_common-Split l.scopes r.scopes l.length r.length rest popped in
    unify_with-Succeeds (unify fuel) a b l r rest h fl fr popped s.done (
      append_cancel_left s.common (rest.lhs ++ ps) (rest.rhs ++ qs) (
        sym (append_assoc s.common rest.lhs ps)
        ∙ ap (λ (z : List Handle). z ++ ps) (sym s.left)
        ∙ whole
        ∙ ap (λ (z : List Handle). z ++ qs) s.right
        ∙ append_assoc s.common rest.rhs qs))
