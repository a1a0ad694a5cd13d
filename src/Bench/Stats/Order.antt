-- ===== src/Bench/Stats/Order.antt =====
-- The percentiles are samples, in order, and between the least and the greatest.
use systems_study.Prelude.{
  ℕ, ◌-◌, ◌≤◌, ◌<◌, ◌≡◌, refl, ◌∙◌, arith, none, some, List, [], ◌∷◌, length, get_elem?,
}
use systems_study.Bench.Stats.{
  Stats, rank, p50, p90, p99, p999, sort_unstable, quantile, of_sorted, from,
}
use systems_study.Bench.Stats.Rounding.{rank_le, rank_mono}
use systems_study.Bench.Stats.Sorting.{
  count, IsSorted, count-sort_unstable, length-sort_unstable, sort_unstable-IsSorted,
  get_elem?_mono, get_elem?-some, count-get_elem?, place_of_count,
}

abbrev pub IsOrdered : Stats → Type 0
IsOrdered s =
    (s.min ≤ s.p50) × (s.p50 ≤ s.p90) × (s.p90 ≤ s.p99) × (s.p99 ≤ s.p999) × (s.p999 ≤ s.max)

-- Each number is one of the samples.
abbrev pub IsDrawn : Stats → List ℕ → Type 0
IsDrawn s v =
    (0 < count s.min v)
    × (0 < count s.p50 v)
    × (0 < count s.p90 v)
    × (0 < count s.p99 v)
    × (0 < count s.p999 v)
    × (0 < count s.max v)

-- What holds of the numbers that stand at the places of a sorted list.
pub record Read (v : List ℕ) (s : Stats) : Type 0 where
  pub total : s.n ≡ length v
  pub least : get_elem? v 0 ≡ some s.min
  pub half : quantile v p50 ≡ some s.p50
  pub nine : quantile v p90 ≡ some s.p90
  pub most : quantile v p99 ≡ some s.p99
  pub tail : quantile v p999 ≡ some s.p999
  pub greatest : get_elem? v (length v - 1) ≡ some s.max

quantile-some : (v : List ℕ) (p : ℕ) → 0 < length v → p ≤ p999 → (a : ℕ) × (quantile v p ≡ some a)
quantile-some v p h k =
    get_elem?-some v (rank (length v - 1) p) (omega (arith, rank_le (length v - 1) p k))

pub of_sorted-Read : (v : List ℕ) → 0 < length v → (s : Stats) × (of_sorted v ≡ some s) × Read v s
unfolding of_sorted
of_sorted-Read v h =
    let (min, e0) = get_elem?-some v 0 h in
    let (a, e1) = quantile-some v p50 h (omega arith) in
    let (b, e2) = quantile-some v p90 h (omega arith) in
    let (c, e3) = quantile-some v p99 h (omega arith) in
    let (d, e4) = quantile-some v p999 h (omega arith) in
    let (max, e5) = get_elem?-some v (length v - 1) (omega arith) in
    (
      record { n = length v; min = min; p50 = a; p90 = b; p99 = c; p999 = d; max = max },
      rw (e0, e1, e2, e3, e4, e5),
      record {
        total = refl;
        least = e0;
        half = e1;
        nine = e2;
        most = e3;
        tail = e4;
        greatest = e5;
      },
    )

Read-IsOrdered : (v : List ℕ) (s : Stats) → IsSorted v → Read v s → IsOrdered s
Read-IsOrdered v s t r =
    let last = length v - 1 in
    (
      get_elem?_mono v 0 (rank last p50) t (omega arith) r.least r.half,
      get_elem?_mono v (rank last p50) (rank last p90) t
          (rank_mono last p50 p90 (omega arith) (omega arith)) r.half r.nine,
      get_elem?_mono v (rank last p90) (rank last p99) t
          (rank_mono last p90 p99 (omega arith) (omega arith)) r.nine r.most,
      get_elem?_mono v (rank last p99) (rank last p999) t
          (rank_mono last p99 p999 (omega arith) (omega arith)) r.most r.tail,
      get_elem?_mono v (rank last p999) last t (rank_le last p999 (omega arith)) r.tail r.greatest,
    )

Read-IsDrawn : (v : List ℕ) (s : Stats) → Read v s → IsDrawn s v
Read-IsDrawn v s r = (
  count-get_elem? v 0 r.least,
  count-get_elem? v (rank (length v - 1) p50) r.half,
  count-get_elem? v (rank (length v - 1) p90) r.nine,
  count-get_elem? v (rank (length v - 1) p99) r.most,
  count-get_elem? v (rank (length v - 1) p999) r.tail,
  count-get_elem? v (length v - 1) r.greatest,
)

Read-between :
    (v : List ℕ) (s : Stats) (b : ℕ)
    → IsSorted v
    → Read v s
    → 0 < count b v
    → (s.min ≤ b) × (b ≤ s.max)
Read-between v s b t r h =
    let (i, l, e) = place_of_count v b h in
    (
      get_elem?_mono v 0 i t (omega arith) r.least e,
      get_elem?_mono v i (length v - 1) t (omega arith) e r.greatest,
    )

-- The same of the samples that were sorted.
unsorted : (s : Stats) (v : List ℕ) → IsDrawn s (sort_unstable v) → IsDrawn s v
unsorted s v (a, b, c, d, e, f) = (
  omega (arith, count-sort_unstable s.min v),
  omega (arith, count-sort_unstable s.p50 v),
  omega (arith, count-sort_unstable s.p90 v),
  omega (arith, count-sort_unstable s.p99 v),
  omega (arith, count-sort_unstable s.p999 v),
  omega (arith, count-sort_unstable s.max v),
)

-- Stats::from returns for every list with a sample `b`: with the rounding of the `f64` products no
-- index leaves the list, the numbers are samples and stand in the order of their names, `n` is the number
-- of samples, and `b` lies between the least and the greatest. Without samples it panics.
pub from_lem :
    (v : List ℕ) (b : ℕ)
    → 0 < count b v
    → (from [] ≡ none)
      × (s : Stats) × (from v ≡ some s)
      × (s.n ≡ length v)
      × IsOrdered s
      × IsDrawn s v
      × (s.min ≤ b)
      × (b ≤ s.max)
unfolding from
from_lem [] b h = absurd (omega arith)
from_lem (a ∷ l) b h =
    let v = sort_unstable (a ∷ l) in
    let t = sort_unstable-IsSorted (a ∷ l) in
    let (s, e, r) = of_sorted-Read v (omega (arith, length-sort_unstable (a ∷ l))) in
    let (p, q) = Read-between v s b t r (omega (arith, count-sort_unstable b (a ∷ l))) in
    (
      refl,
      s,
      e,
      r.total ∙ length-sort_unstable (a ∷ l),
      Read-IsOrdered v s t r,
      unsorted s (a ∷ l) (Read-IsDrawn v s r),
      p,
      q,
    )
