-- ===== src/Uffd/Restore/Distinct.antt =====
-- How many distinct pages an order has, one page after the other.
use systems_study.Prelude.{
  ℕ, suc, ◌+◌, ◌≤◌, ◌<◌, ◌≡◌, refl, ap, arith, Bool, false, leb, ltb, ◌==◌, if◌then◌else◌, List, [],
  ◌∷◌, length, Bool-cases, inl, inr,
}
use systems_study.Bench.Stats.{put, sort_unstable}
use systems_study.Bench.Stats.Sorting.{
  count, IsSorted, All-count, count-sort_unstable, sort_unstable-IsSorted,
}
use systems_study.Bench.Stats.Same.{sort_same}
use systems_study.Uffd.Restore.{keep, dedup, distinct}

abbrev starts : ℕ → List ℕ → Bool
starts a [] = false
starts a (b ∷ l) = a == b

length-keep :
    (a : ℕ) (l : List ℕ) → length (keep a l) ≡ (if starts a l then length l else suc (length l))
unfolding keep
length-keep a [] = refl
length-keep a (b ∷ l) = ground arith

starts-keep : (a b : ℕ) (l : List ℕ) → starts a (keep b l) ≡ (a == b)
unfolding keep
starts-keep a b [] = refl
starts-keep a b (c ∷ l) = ground arith

starts-dedup : (a : ℕ) (l : List ℕ) → starts a (dedup l) ≡ starts a l
unfolding dedup
starts-dedup a [] = refl
starts-dedup a (b ∷ l) = starts-keep a b (dedup l)

starts-put : (b a : ℕ) (l : List ℕ) → b < a → starts b (put a l) ≡ starts b l
unfolding put
starts-put b a [] h = ground arith
starts-put b a (c ∷ l) h = ground arith

abbrev new : ℕ → List ℕ → ℕ
new a l = if ltb 0 (count a l) then 0 else 1

length-dedup :
    (a : ℕ) (l : List ℕ)
    → length (dedup (a ∷ l)) ≡ (if starts a l then length (dedup l) else suc (length (dedup l)))
unfolding dedup
length-dedup a l = rw (length-keep a (dedup l), starts-dedup a l)

length-dedup-put :
    (a : ℕ) (l : List ℕ) → IsSorted l → length (dedup (put a l)) ≡ new a l + length (dedup l)
unfolding put
length-dedup-put a [] s = unfold dedup keep in refl
length-dedup-put a (b ∷ l) s = elim (Bool-cases (leb a b)) [
  | inl e ↦ rw (e, length-dedup a (b ∷ l)) (ground (arith, All-count b a l s.0))
  | inr e ↦
      rw (e, length-dedup b (put a l), length-dedup b l)
        (ground (arith, starts-put b a l, length-dedup-put a l s.1))
]

-- A page counts if it is not among the others.
pub distinct-cons : (a : ℕ) (l : List ℕ) → distinct (a ∷ l) ≡ new a l + distinct l
unfolding distinct sort_unstable
distinct-cons a l =
    rw (length-dedup-put a (sort_unstable l) (sort_unstable-IsSorted l), count-sort_unstable a l)

pub distinct_le : (l : List ℕ) → distinct l ≤ length l
distinct_le [] = unfold distinct sort_unstable dedup in omega arith
distinct_le (a ∷ l) = ground (arith, distinct-cons a l, distinct_le l)

-- The pages of an order, before those of another list, the last one first.
abbrev pub onto : List ℕ → List ℕ → List ℕ
onto [] seen = seen
onto (a ∷ l) seen = onto l (a ∷ seen)

count-onto : (c : ℕ) (l seen : List ℕ) → count c (onto l seen) ≡ count c l + count c seen
count-onto c [] seen = omega arith
count-onto c (a ∷ l) seen = omega (arith, count-onto c l (a ∷ seen))

pub distinct-onto : (l : List ℕ) → distinct (onto l []) ≡ distinct l
unfolding distinct
distinct-onto l =
    ap (λ (v : List ℕ). length (dedup v))
      (sort_same (onto l []) l (λ c. omega (arith, count-onto c l [])))
