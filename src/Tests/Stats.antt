-- ===== src/Tests/Stats.antt =====
-- A frequency distribution of stack-graphs/src/stats.rs.
use stack_graphs_muffet.Prelude.{ℕ, [], ◌∷◌, arith, ◌==◌}
use stack_graphs_muffet.Stats.{FrequencyDistribution, add_assign}
use stack_graphs_muffet.Stats.Laws.{IsValid, sum_counts, add_assign-IsValid}

-- 3 twice and 5 once.
abbrev three_values : FrequencyDistribution ℕ
three_values = record { values = (3, 2) ∷ (5, 1) ∷ []; total = 3 }

three_values-IsValid : IsValid three_values
three_values-IsValid = record { summed = unfold sum_counts in omega arith }

add_assign-IsValid_example : IsValid (add_assign ◌==◌ three_values three_values)
add_assign-IsValid_example =
    add_assign-IsValid ◌==◌ three_values three_values three_values-IsValid three_values-IsValid
