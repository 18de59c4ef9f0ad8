-- ===== src/Graph/Edges/Count.antt =====
-- The degree that stands for a number of edges or paths, for `Degree` of stack-graphs/src/graph.rs.
use stack_graphs_muffet.Prelude.{ℕ, zero, suc, ◌≡◌, refl}
use stack_graphs_muffet.Graph.Edges.{Degree, add_degree}

unfoldable pub as_degree : ℕ → Degree
as_degree zero = Degree.zero
as_degree (suc zero) = Degree.one
as_degree (suc (suc n)) = Degree.multiple

pub as_degree-suc : (n : ℕ) → add_degree (as_degree n) Degree.one ≡ as_degree (suc n)
unfolding as_degree add_degree
as_degree-suc zero = refl
as_degree-suc (suc zero) = refl
as_degree-suc (suc (suc n)) = refl
