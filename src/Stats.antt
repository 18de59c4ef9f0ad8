-- ===== src/Stats.antt =====
-- stack-graphs/src/stats.rs, `FrequencyDistribution`: how often each value was recorded. The hash map is an
-- association list; counts are usize, below the number of recorded values.
pub mod Laws
use stack_graphs_muffet.Prelude.{
  ℕ, zero, suc, ◌+◌, Bool, true, false, if◌then◌else◌, List, [], ◌∷◌, length, Option, none, some,
  ◌==◌,
}

pub record FrequencyDistribution (T : Type 0) : Type 0 where
  pub values : List (T × ℕ)
  pub total : ℕ

module _ {T : Type 0} (eq : T → T → Bool) where
  -- `*values.entry(value).or_default() += n`.
  unfoldable pub add_count : List (T × ℕ) → T → ℕ → List (T × ℕ)
  add_count [] value n = (value, n) ∷ []
  add_count ((v, count) ∷ rest) value n =
      let later = add_count rest value n in
      if eq v value then (v, count + n) ∷ rest else (v, count) ∷ later

  -- `record`, a word of the language.
  unfoldable pub record_value : FrequencyDistribution T → T → FrequencyDistribution T
  unfolding add_count
  record_value d value = record { values = add_count d.values value 1; total = d.total + 1 }

  unfoldable pub add_counts : List (T × ℕ) → List (T × ℕ) → List (T × ℕ)
  unfolding add_count
  add_counts values [] = values
  add_counts values ((v, n) ∷ rest) = add_counts (add_count values v n) rest

  unfoldable pub add_assign :
      FrequencyDistribution T → FrequencyDistribution T → FrequencyDistribution T
  unfolding add_counts
  add_assign d e = record { values = add_counts d.values e.values; total = d.total + e.total }

unfoldable pub default : {T : Type 0} → FrequencyDistribution T
default = record { values = []; total = 0 }

module _ {T : Type 0} where
  unfoldable pub count : FrequencyDistribution T → ℕ
  count d = d.total

  unfoldable pub unique : FrequencyDistribution T → ℕ
  unique d = length d.values

  unfoldable pub record_counts : FrequencyDistribution ℕ → List (T × ℕ) → FrequencyDistribution ℕ
  unfolding record_value
  record_counts fs [] = fs
  record_counts fs ((v, n) ∷ rest) = record_counts (record_value ◌==◌ fs n) rest

  unfoldable pub frequencies : FrequencyDistribution T → FrequencyDistribution ℕ
  unfolding default record_counts
  frequencies d = record_counts default d.values
