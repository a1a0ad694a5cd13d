-- ===== src/Bench/Stats/Tests.antt =====
-- Tests of the percentiles, and instances of their theorems.
use systems_study.Prelude.{ℕ, ◌≤◌, ◌≡◌, refl, arith, none, some, List, [], ◌∷◌}
use systems_study.Bench.Stats.{
  ulp, round_to, to_f64, round, rank, p99, Stats, from, summarise, median,
}
use systems_study.Bench.Stats.Order.{IsOrdered, IsDrawn, from_lem}
use systems_study.Bench.Stats.Same.{from-SameSamples, SameSamples}

abbrev few : List ℕ
few = 30 ∷ 10 ∷ 50 ∷ 20 ∷ 40 ∷ []

-- 0.99 * 50 is 49.5, and goes up.
rank_test : rank 50 p99 ≡ 50
unfolding rank round to_f64 round_to ulp
rank_test = refl

-- 2^53 + 1 is no double: the tie goes to the even neighbour.
to_f64_test : to_f64 9007199254740993 ≡ 9007199254740992
unfolding to_f64 round_to ulp
to_f64_test = refl

few_test :
    from few ≡ some (record { n = 5; min = 10; p50 = 30; p90 = 50; p99 = 50; p999 = 50; max = 50 })
unfolding from rank round to_f64 round_to ulp
few_test = refl

from_lem_example :
    (from [] ≡ none)
    × (s : Stats) × (from few ≡ some s)
    × (s.n ≡ 5)
    × IsOrdered s
    × IsDrawn s few
    × (s.min ≤ 20)
    × (20 ≤ s.max)
from_lem_example = from_lem few 20 (omega arith)

swapped : SameSamples (1 ∷ 2 ∷ []) (2 ∷ 1 ∷ [])
swapped a = ground arith

from-SameSamples_example :
    (from (1 ∷ 2 ∷ []) ≡ from (2 ∷ 1 ∷ []))
    × (summarise (1 ∷ 2 ∷ []) ≡ summarise (2 ∷ 1 ∷ []))
    × (median (1 ∷ 2 ∷ []) ≡ median (2 ∷ 1 ∷ []))
from-SameSamples_example = from-SameSamples (1 ∷ 2 ∷ []) (2 ∷ 1 ∷ []) swapped
