-- ===== src/Bench/Stats/Sorting.antt =====
-- The sort keeps every sample as often as it was, and puts them in order.
use systems_study.Prelude.{
  ℕ, zero, suc, ◌+◌, ◌≤◌, ◌<◌, ◌≡◌, refl, arith, ◌==◌, leb, if◌then◌else◌, some, List, [], ◌∷◌,
  length, get_elem?, Bool-cases, inl, inr,
}
use systems_study.Prelude.TextLaws.{All}
use systems_study.Bench.Stats.{put, sort_unstable}

abbrev pub count : ℕ → List ℕ → ℕ
count a [] = 0
count a (b ∷ l) = (if a == b then 1 else 0) + count a l

abbrev pub IsSorted : List ℕ → Type 0
IsSorted [] = Unit
IsSorted (a ∷ l) = All (λ b. a ≤ b) l × IsSorted l

pub count-put : (b a : ℕ) (l : List ℕ) → count b (put a l) ≡ (if b == a then 1 else 0) + count b l
unfolding put
count-put b a [] = refl
count-put b a (c ∷ l) = ground (arith, count-put b a l)

-- Sorting keeps how often each sample occurs.
pub count-sort_unstable : (b : ℕ) (l : List ℕ) → count b (sort_unstable l) ≡ count b l
unfolding sort_unstable
count-sort_unstable b [] = refl
count-sort_unstable b (a ∷ l) =
    omega (arith, count-put b a (sort_unstable l), count-sort_unstable b l)

length-put : (a : ℕ) (l : List ℕ) → length (put a l) ≡ suc (length l)
unfolding put
length-put a [] = refl
length-put a (b ∷ l) = ground (arith, length-put a l)

pub length-sort_unstable : (l : List ℕ) → length (sort_unstable l) ≡ length l
unfolding sort_unstable
length-sort_unstable [] = refl
length-sort_unstable (a ∷ l) = omega (arith, length-put a (sort_unstable l), length-sort_unstable l)

All-below : (a b : ℕ) (l : List ℕ) → a ≤ b → All (λ c. b ≤ c) l → All (λ c. a ≤ c) l
All-below a b [] h k = tt
All-below a b (c ∷ l) h k = (omega arith, All-below a b l h k.1)

All-put : (a b : ℕ) (l : List ℕ) → a ≤ b → All (λ c. a ≤ c) l → All (λ c. a ≤ c) (put b l)
unfolding put
All-put a b [] h k = (h, tt)
All-put a b (c ∷ l) h k = elim (Bool-cases (leb b c)) [
  | inl e ↦ rw e (h, k)
  | inr e ↦ rw e (k.0, All-put a b l h k.1)
]

put-IsSorted : (a : ℕ) (l : List ℕ) → IsSorted l → IsSorted (put a l)
unfolding put
put-IsSorted a [] h = (tt, tt)
put-IsSorted a (b ∷ l) h = elim (Bool-cases (leb a b)) [
  | inl e ↦ rw e ((ground arith, All-below a b l (ground arith) h.0), h)
  | inr e ↦ rw e (All-put b a l (ground arith) h.0, put-IsSorted a l h.1)
]

pub sort_unstable-IsSorted : (l : List ℕ) → IsSorted (sort_unstable l)
unfolding sort_unstable
sort_unstable-IsSorted [] = tt
sort_unstable-IsSorted (a ∷ l) = put-IsSorted a (sort_unstable l) (sort_unstable-IsSorted l)

-- A sample that is counted is not below the first of a sorted list.
pub All-count : (a b : ℕ) (l : List ℕ) → All (λ c. a ≤ c) l → 0 < count b l → a ≤ b
All-count a b [] h k = absurd (omega arith)
All-count a b (c ∷ l) h k = ground (arith, All-count a b l h.1)

All-get_elem? : (a b i : ℕ) (l : List ℕ) → All (λ c. a ≤ c) l → get_elem? l i ≡ some b → a ≤ b
All-get_elem? a b i [] h e = cc
All-get_elem? a b zero (c ∷ l) h e = ground arith
All-get_elem? a b (suc i) (c ∷ l) h e = All-get_elem? a b i l h.1 e

-- In a sorted list a later place holds no smaller sample.
pub get_elem?_mono :
    (l : List ℕ) (i j : ℕ) {a b : ℕ}
    → IsSorted l
    → i ≤ j
    → get_elem? l i ≡ some a
    → get_elem? l j ≡ some b
    → a ≤ b
get_elem?_mono [] i j s h p q = cc
get_elem?_mono (c ∷ l) zero zero s h p q = ground arith
get_elem?_mono (c ∷ l) zero (suc j) {a} {b} s h p q = ground (arith, All-get_elem? c b j l s.0 q)
get_elem?_mono (c ∷ l) (suc i) zero s h p q = absurd (omega arith)
get_elem?_mono (c ∷ l) (suc i) (suc j) s h p q = get_elem?_mono l i j s.1 (omega arith) p q

pub get_elem?-some : (l : List ℕ) (i : ℕ) → i < length l → (a : ℕ) × (get_elem? l i ≡ some a)
get_elem?-some [] i h = absurd (omega arith)
get_elem?-some (c ∷ l) zero h = (c, refl)
get_elem?-some (c ∷ l) (suc i) h = get_elem?-some l i (omega arith)

-- What a place holds is counted.
pub count-get_elem? : (l : List ℕ) (i : ℕ) {a : ℕ} → get_elem? l i ≡ some a → 0 < count a l
count-get_elem? [] i e = cc
count-get_elem? (c ∷ l) zero e = ground arith
count-get_elem? (c ∷ l) (suc i) {a} e = omega (arith, count-get_elem? l i e)

-- A counted sample has a place.
pub place_of_count :
    (l : List ℕ) (a : ℕ) → 0 < count a l → (i : ℕ) × (i < length l) × (get_elem? l i ≡ some a)
place_of_count [] a h = absurd (omega arith)
place_of_count (c ∷ l) a h = elim (Bool-cases (a == c)) [
  | inl e ↦ (0, omega arith, ground arith)
  | inr e ↦ let (i, b, k) = place_of_count l a (ground arith) in (suc i, omega arith, k)
]
