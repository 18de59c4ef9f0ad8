-- ===== src/Stats/Laws.antt =====
-- The counts of a `FrequencyDistribution` (stack-graphs/src/stats.rs).
use stack_graphs_muffet.Prelude.{
  ℕ, ◌+◌, ◌≡◌, Bool, Bool-cases, inl, inr, List, [], ◌∷◌, arith, ◌==◌, length,
}
use stack_graphs_muffet.Stats.{
  FrequencyDistribution, add_count, record_value, add_counts, add_assign, default, unique,
  record_counts, frequencies,
}

-- The sum of the counts.
unfoldable pub sum_counts : {T : Type 0} → List (T × ℕ) → ℕ
sum_counts [] = 0
sum_counts ((v, n) ∷ rest) = n + sum_counts rest

module _ {T : Type 0} (eq : T → T → Bool) where
  sum_counts-add_count :
      (values : List (T × ℕ)) (v : T) (n : ℕ)
      → sum_counts (add_count eq values v n) ≡ sum_counts values + n
  unfolding sum_counts add_count
  sum_counts-add_count [] v n = omega arith
  sum_counts-add_count ((w, m) ∷ rest) v n = elim (Bool-cases (eq w v)) [
    | inl same ↦
        let e : m + n + sum_counts rest ≡ m + sum_counts rest + n = omega arith in
        ground (arith, same, e)
    | inr other ↦
        let e : m + sum_counts (add_count eq rest v n) ≡ m + sum_counts rest + n =
          omega (arith, sum_counts-add_count rest v n) in
        ground (arith, other, e)
  ]

  sum_counts-add_counts :
      (values others : List (T × ℕ))
      → sum_counts (add_counts eq values others) ≡ sum_counts values + sum_counts others
  unfolding sum_counts add_counts
  sum_counts-add_counts values [] = omega arith
  sum_counts-add_counts values ((v, n) ∷ rest) =
      omega (
        arith,
        sum_counts-add_counts (add_count eq values v n) rest,
        sum_counts-add_count values v n,
      )

-- The total is the sum of the counts.
pub record IsValid {T : Type 0} (d : FrequencyDistribution T) : Type 0 where
  pub summed : d.total ≡ sum_counts d.values

pub record_value-IsValid :
    {T : Type 0} (eq : T → T → Bool) (d : FrequencyDistribution T) (value : T)
    → IsValid d
    → IsValid (record_value eq d value)
unfolding record_value
record_value-IsValid eq d value v = record {
  summed = omega (arith, v.summed, sum_counts-add_count eq d.values value 1);
}

-- The sum of two distributions whose totals are the sums of their counts is such a one.
pub add_assign-IsValid :
    {T : Type 0} (eq : T → T → Bool) (d e : FrequencyDistribution T)
    → IsValid d
    → IsValid e
    → IsValid (add_assign eq d e)
unfolding add_assign
add_assign-IsValid eq d e v w = record {
  summed = omega (arith, v.summed, w.summed, sum_counts-add_counts eq d.values e.values);
}

total-record_counts :
    {T : Type 0} (fs : FrequencyDistribution ℕ) (values : List (T × ℕ))
    → (record_counts fs values).total ≡ fs.total + length values
unfolding record_counts record_value
total-record_counts fs [] = omega arith
total-record_counts fs ((v, n) ∷ rest) =
    omega (arith, total-record_counts (record_value ◌==◌ fs n) rest)

-- `frequencies` records one frequency for each unique value.
pub count-frequencies :
    {T : Type 0} (d : FrequencyDistribution T) → (frequencies d).total ≡ unique d
unfolding frequencies unique default
count-frequencies d =
    omega (arith, total-record_counts (record { values = []; total = 0 }) d.values)
