-- ===== src/Paths.antt =====
-- stack-graphs/src/paths.rs, `PathResolutionError`, and the results of the operations that raise it.
use stack_graphs_muffet.Prelude.{◌≡◌, refl, Option, none, some, ◌⊎◌, inl, inr}

pub data PathResolutionError : Type 0 where
  disallowed_cycle empty_scope_stack empty_symbol_stack : PathResolutionError
  incompatible_scope_stack_variables incompatible_symbol_stack_variables : PathResolutionError
  incorrect_file incorrect_popped_symbol incorrect_source_node : PathResolutionError
  missing_attached_scope_list scope_stack_unsatisfied symbol_stack_unsatisfied : PathResolutionError
  unbound_symbol_stack_variable unbound_scope_stack_variable : PathResolutionError
  unexpected_attached_scope_list unknown_attached_scope : PathResolutionError

-- `panic` is a Rust panic, `out_of_fuel` a recursion that the fuel did not cover.
pub data Result {ℓ} (A : Type ℓ) : Type ℓ where
  ok : A → Result A
  err : PathResolutionError → Result A
  panic : Result A
  out_of_fuel : Result A

infixl 5 ◌>>=◌
abbrev pub ◌>>=◌ {ℓ κ} : {A : Type ℓ} {B : Type κ} → Result A → (A → Result B) → Result B
panic >>= next = panic
out_of_fuel >>= next = out_of_fuel
err e >>= next = err e
ok value >>= next = next value

-- `expect` and `unwrap` on an option.
abbrev pub unwrap {ℓ} : {A : Type ℓ} → Option A → Result A
unwrap none = panic
unwrap (some a) = ok a

-- `unwrap` on a result: an error becomes a panic.
abbrev pub expect {ℓ} : {A : Type ℓ} → Result A → Result A
expect (ok a) = ok a
expect (err e) = panic
expect panic = panic
expect out_of_fuel = out_of_fuel

-- `ok_or`.
abbrev pub ok_or {ℓ} : {A : Type ℓ} → PathResolutionError → Option A → Result A
ok_or e none = err e
ok_or e (some a) = ok a

-- A chain that succeeds has a first result, and goes on from it.
pub >>=-eq-ok {ℓ κ} :
    {A : Type ℓ} {B : Type κ} {t : B} (r : Result A) (next : A → Result B)
    → (r >>= next) ≡ ok t
    → (value : A) × (r ≡ ok value) × (next value ≡ ok t)
>>=-eq-ok panic next e = cc
>>=-eq-ok out_of_fuel next e = cc
>>=-eq-ok (err raised) next e = cc
>>=-eq-ok (ok value) next e = (value, refl, e)

pub Result-cases {ℓ} :
    {A : Type ℓ} (r : Result A)
    → ((a : A) × (r ≡ ok a))
      ⊎ (((e : PathResolutionError) × (r ≡ err e)) ⊎ ((r ≡ panic) ⊎ (r ≡ out_of_fuel)))
Result-cases (ok a) = inl (a, refl)
Result-cases (err e) = inr (inl (e, refl))
Result-cases panic = inr (inr (inl refl))
Result-cases out_of_fuel = inr (inr (inr refl))
