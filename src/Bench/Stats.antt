-- ===== src/Bench/Stats.antt =====
-- The percentiles that the benchmarks print: `Stats::from` and `calibrate_timer` of
-- rung-01-kvm/toy-kvm-raw/src/main.rs, `Stats::from` of rung-03-uffd/toy-uffd-raw/src/main.rs and
-- `summarise` of rung-02-virtio/toy-virtq-raw/src/main.rs. A product of an index and a fraction is
-- an `f64`: a number of 53 significant bits, here counted in units of 2^-53.
pub mod Rounding
pub mod Sorting
pub mod Order
pub mod Same
pub mod Agree
mod Tests
use systems_study.Prelude.Options.{◌>>=◌}
use systems_study.Prelude.{
  ℕ, zero, suc, ◌+◌, ◌-◌, ◌*◌, ◌/◌, ◌%◌, Bool, true, false, ltb, leb, ◌==◌, if◌then◌else◌, Option,
  none, some, List, [], ◌∷◌, length, get_elem?,
}

-- 2^52 and 2^53.
abbrev pub half_one : ℕ
half_one = 4503599627370496

abbrev pub one : ℕ
one = 9007199254740992

-- The distance of the doubles around a number: 2^(k-53) for one of `k` bits. The fuel is the number
-- of bits by which it may exceed 53.
unfoldable pub ulp : ℕ → ℕ → ℕ
ulp zero x = 1
ulp (suc fuel) x = let u = 2 * ulp fuel (x / 2) in if ltb x one then 1 else u

-- To a multiple of `u`, a tie to the even one.
unfoldable pub round_to : ℕ → ℕ → ℕ
round_to u x =
    let down = x / u * u in
    if ltb (2 * (x % u)) u
    then down
    else if ltb u (2 * (x % u))
    then down + u
    else if x / u % 2 == 0
    then down
    else down + u

-- To the nearest double, for a number of 128 bits at most.
unfoldable pub to_f64 : ℕ → ℕ
to_f64 x = round_to (ulp 75 x) x

-- `round` of `x * 2^-53`: half away from zero.
unfoldable pub round : ℕ → ℕ
round x = (x + half_one) / one

-- `(last as f64 * p).round() as usize`, with `p` in units of 2^-53.
unfoldable pub rank : ℕ → ℕ → ℕ
rank last p = round (to_f64 (to_f64 last * p))

-- The doubles that are nearest to 0.5, 0.9, 0.99 and 0.999.
abbrev pub p50 : ℕ
p50 = 4503599627370496

abbrev pub p90 : ℕ
p90 = 8106479329266893

abbrev pub p99 : ℕ
p99 = 8917127262193582

abbrev pub p999 : ℕ
p999 = 8998192055486251

-- `sort_unstable`: on numbers, every sort gives the same list.
unfoldable pub put : ℕ → List ℕ → List ℕ
put a [] = a ∷ []
put a (b ∷ l) = let rest = put a l in if leb a b then a ∷ b ∷ l else b ∷ rest

unfoldable pub sort_unstable : List ℕ → List ℕ
unfolding put
sort_unstable [] = []
sort_unstable (a ∷ l) = put a (sort_unstable l)

pub record Stats : Type 0 where
  pub n : ℕ
  pub min : ℕ
  pub p50 : ℕ
  pub p90 : ℕ
  pub p99 : ℕ
  pub p999 : ℕ
  pub max : ℕ

-- The numbers of the third rung.
pub record Tail : Type 0 where
  pub p50 : ℕ
  pub p90 : ℕ
  pub p99 : ℕ
  pub p999 : ℕ
  pub max : ℕ

pub record Summary : Type 0 where
  pub p50 : ℕ
  pub p99 : ℕ

-- An index out of range is a panic, as all that gives `none` here.
abbrev pub quantile : List ℕ → ℕ → Option ℕ
quantile v p = get_elem? v (rank (length v - 1) p)

-- Of the sorted samples. Without samples the assertion fails.
unfoldable pub of_sorted : List ℕ → Option Stats
of_sorted v = do
  min ← get_elem? v 0
  a ← quantile v p50
  b ← quantile v p90
  c ← quantile v p99
  d ← quantile v p999
  max ← get_elem? v (length v - 1)
  some (record { n = length v; min = min; p50 = a; p90 = b; p99 = c; p999 = d; max = max })

unfoldable pub from : List ℕ → Option Stats
unfolding of_sorted sort_unstable
from [] = none
from (a ∷ l) = of_sorted (sort_unstable (a ∷ l))

unfoldable pub tail_of_sorted : List ℕ → Option Tail
tail_of_sorted v = do
  a ← quantile v p50
  b ← quantile v p90
  c ← quantile v p99
  d ← quantile v p999
  max ← get_elem? v (length v - 1)
  some (record { p50 = a; p90 = b; p99 = c; p999 = d; max = max })

unfoldable pub tail_from : List ℕ → Option Tail
unfolding tail_of_sorted sort_unstable
tail_from [] = none
tail_from (a ∷ l) = tail_of_sorted (sort_unstable (a ∷ l))

-- Of no samples, `len() - 1` is the panic, or an index that is out of range.
unfoldable pub summary_of_sorted : List ℕ → Option Summary
summary_of_sorted [] = none
summary_of_sorted (x ∷ l) = do
  a ← quantile (x ∷ l) p50
  b ← quantile (x ∷ l) p99
  some (record { p50 = a; p99 = b })

unfoldable pub summarise : List ℕ → Option Summary
unfolding summary_of_sorted sort_unstable
summarise v = summary_of_sorted (sort_unstable v)

-- `v[v.len() / 2]` of the sorted durations.
unfoldable pub median : List ℕ → Option ℕ
unfolding sort_unstable
median v = let sorted = sort_unstable v in get_elem? sorted (length sorted / 2)
