-- ===== src/Bench/Stats/Same.antt =====
-- The order in which the samples came does not matter.
use systems_study.Prelude.{ℕ, ◌≤◌, ◌≡◌, refl, ap, ◌∙◌, sym, arith, List, [], ◌∷◌}
use systems_study.Bench.Stats.{sort_unstable, from, of_sorted, summarise, median}
use systems_study.Bench.Stats.Sorting.{
  count, IsSorted, All-count, count-sort_unstable, sort_unstable-IsSorted,
}

-- Two lists hold the same samples, each as often.
abbrev pub SameSamples : List ℕ → List ℕ → Type 0
SameSamples v w = (a : ℕ) → count a v ≡ count a w

head_le : (a b : ℕ) (v w : List ℕ) → IsSorted (b ∷ w) → SameSamples (a ∷ v) (b ∷ w) → b ≤ a
head_le a b v w s h = ground (arith, h a, All-count b a w s.0)

tail_same : (a b : ℕ) (v w : List ℕ) → a ≡ b → SameSamples (a ∷ v) (b ∷ w) → SameSamples v w
tail_same a b v w e h c = ground (arith, h c)

-- There is one sorted list of the same samples.
sorted_unique : (v w : List ℕ) → IsSorted v → IsSorted w → SameSamples v w → v ≡ w
sorted_unique [] [] s t h = refl
sorted_unique [] (b ∷ w) s t h = absurd (ground (arith, h b))
sorted_unique (a ∷ v) [] s t h = absurd (ground (arith, h a))
sorted_unique (a ∷ v) (b ∷ w) s t h =
    let e : a ≡ b = omega (arith, head_le a b v w t h, head_le b a w v s (λ c. sym (h c))) in
    cc (e, sorted_unique v w s.1 t.1 (tail_same a b v w e h))

pub sort_same : (v w : List ℕ) → SameSamples v w → sort_unstable v ≡ sort_unstable w
sort_same v w h =
    sorted_unique (sort_unstable v) (sort_unstable w) (sort_unstable-IsSorted v)
      (sort_unstable-IsSorted w)
      (λ c. omega (arith, h c, count-sort_unstable c v, count-sort_unstable c w))

from_sorted : (v : List ℕ) → from v ≡ of_sorted (sort_unstable v)
unfolding from of_sorted sort_unstable
from_sorted [] = refl
from_sorted (a ∷ l) = refl

-- Stats::from, summarise and the median depend on the samples and how often each occurs, and not on
-- the order in which they were taken.
pub from-SameSamples :
    (v w : List ℕ)
    → SameSamples v w
    → (from v ≡ from w) × (summarise v ≡ summarise w) × (median v ≡ median w)
unfolding summarise median
from-SameSamples v w h = (
  from_sorted v ∙ ap of_sorted (sort_same v w h) ∙ sym (from_sorted w),
  rw (sort_same v w h),
  rw (sort_same v w h),
)
