-- ===== src/Bench/Stats/Agree.antt =====
-- The three programs have a copy each of the percentiles, with different fields.
use systems_study.Prelude.Options.{◌>>=◌}
use systems_study.Prelude.{ℕ, ◌≡◌, refl, arith, Option, some, List, [], ◌∷◌}
use systems_study.Bench.Stats.{
  Stats, Tail, Summary, sort_unstable, from, tail_of_sorted, tail_from, summary_of_sorted,
  summarise,
}
use systems_study.Bench.Stats.Order.{Read, of_sorted-Read}
use systems_study.Bench.Stats.Sorting.{length-sort_unstable}

abbrev pub tail_of : Stats → Option Tail
tail_of s = some (record { p50 = s.p50; p90 = s.p90; p99 = s.p99; p999 = s.p999; max = s.max })

abbrev pub summary_of : Stats → Option Summary
summary_of s = some (record { p50 = s.p50; p99 = s.p99 })

tail_agrees : (v : List ℕ) (s : Stats) → Read v s → tail_of_sorted v ≡ tail_of s
unfolding tail_of_sorted
tail_agrees v s r = rw (r.half, r.nine, r.most, r.tail, r.greatest)

summary_agrees : (v : List ℕ) (s : Stats) → Read v s → summary_of_sorted v ≡ summary_of s
unfolding summary_of_sorted
summary_agrees [] s r = cc (r.half)
summary_agrees (x ∷ l) s r = rw (r.half, r.most)

-- The percentiles of the third rung and the summary of the second are those of the first, on every
-- list of samples, the empty one included, where all three panic.
pub copies_agree :
    (v : List ℕ) → (tail_from v ≡ (from v >>= tail_of)) × (summarise v ≡ (from v >>= summary_of))
unfolding from tail_from summarise
copies_agree [] = (refl, unfold sort_unstable summary_of_sorted in refl)
copies_agree (a ∷ l) =
    let v = sort_unstable (a ∷ l) in
    let (s, e, r) = of_sorted-Read v (omega (arith, length-sort_unstable (a ∷ l))) in
    (rw e (tail_agrees v s r), rw e (summary_agrees v s r))
