-- ===== src/Virtio/Driver/Pool.antt =====
-- Counting a descriptor in the free list and in the chains outstanding.
use systems_study.Prelude.{
  ℕ, zero, suc, ◌+◌, ◌≤◌, ◌≡◌, refl, arith, inl, inr, ◌∙◌, ap, ◌==◌, ltb, if◌then◌else◌, Option,
  none, some, List, [], ◌∷◌, ◌++◌, length, Bool-cases, Option-cases,
}
use mathlib.Core.List.{reverse, reverse-append}
use systems_study.Virtio.Driver.{remove, range_up}
use systems_study.Virtio.Driver.Send.{first?, pop_indices}

abbrev pub count : ℕ → List ℕ → ℕ
count a [] = 0
count a (x ∷ xs) = (if a == x then 1 else 0) + count a xs

abbrev pub held : ℕ → List (ℕ × List ℕ) → ℕ
held a [] = 0
held a ((k, is) ∷ m) = count a is + held a m

abbrev pub count? : ℕ → Option (List ℕ) → ℕ
count? a none = 0
count? a (some is) = count a is

-- Every chain is filed under its first index.
abbrev pub IsKeyed : List (ℕ × List ℕ) → Type 0
IsKeyed [] = Unit
IsKeyed ((k, is) ∷ m) = (first? is ≡ some k) × IsKeyed m

pub count-append : (a : ℕ) (is js : List ℕ) → count a is + count a js ≡ count a (is ++ js)
count-append a [] js = omega arith
count-append a (i ∷ is) js = let rest = count-append a is js in omega (arith, rest)

pub count-reverse : (a : ℕ) (xs : List ℕ) → count a (reverse xs) ≡ count a xs
count-reverse a [] = refl
count-reverse a (x ∷ xs) =
    ap (count a) (reverse-append (x ∷ []) xs)
    ∙ omega (arith, count-append a (reverse xs) (x ∷ []), count-reverse a xs)

pub held-remove :
    (a k : ℕ) (m : List (ℕ × List ℕ)) → count? a (remove k m).0 + held a (remove k m).1 ≡ held a m
unfolding remove
held-remove a k [] = omega arith
held-remove a k ((j, is) ∷ m) = ground (arith, held-remove a k m)

pub IsKeyed-remove : (k : ℕ) (m : List (ℕ × List ℕ)) → IsKeyed m → IsKeyed (remove k m).1
unfolding remove
IsKeyed-remove k [] h = tt
IsKeyed-remove k ((j, is) ∷ m) h = elim (Bool-cases (j == k)) [
  | inl e ↦ rw e h.1
  | inr e ↦ rw e (h.0, IsKeyed-remove k m h.1)
]

-- A chain that is found is filed under its key.
remove-first :
    (k : ℕ) (m : List (ℕ × List ℕ)) (is : List ℕ)
    → IsKeyed m
    → (remove k m).0 ≡ some is
    → first? is ≡ some k
unfolding remove
remove-first k [] is h e = cc
remove-first k ((j, js) ∷ m) is h e = ground (arith, remove-first k m is h.1)

pub count-first : (k : ℕ) (is : List ℕ) → first? is ≡ some k → 1 ≤ count k is
count-first k [] e = cc
count-first k (i ∷ is) e = ground arith

-- A key that no chain holds is not in the map.
pub remove-absent :
    (k : ℕ) (m : List (ℕ × List ℕ)) → IsKeyed m → held k m ≡ 0 → (remove k m).0 ≡ none
remove-absent k m h e = elim (Option-cases (remove k m).0) [
  | inl n ↦ n
  | inr (is, s) ↦
      let c = count-first k is (remove-first k m is h s) in
      let r = held-remove k k m in absurd (ground (arith, c, r))
]

pub pop_indices-count :
    (n : ℕ) (free taken left : List ℕ) (a : ℕ)
    → pop_indices n free ≡ some (taken, left)
    → (count a taken + count a left ≡ count a free) × (length taken ≡ n)
unfolding pop_indices
pop_indices-count zero free taken left a e = ground arith
pop_indices-count (suc n) [] taken left a e = cc
pop_indices-count (suc n) (i ∷ free) taken left a e = elim (Option-cases (pop_indices n free)) [
  | inl none_left ↦ absurd (ground arith)
  | inr (r, s) ↦ ground (arith, pop_indices-count n free r.0 r.1 a)
]

pub pop_indices_enough :
    (n : ℕ) (free : List ℕ)
    → n ≤ length free
    → (r : List ℕ × List ℕ) × (pop_indices n free ≡ some r)
unfolding pop_indices
pop_indices_enough zero free h = (([], free), refl)
pop_indices_enough (suc n) [] h = absurd (omega arith)
pop_indices_enough (suc n) (i ∷ free) h =
    let (r, e) = pop_indices_enough n free (omega arith) in ((i ∷ r.0, r.1), rw e)

pub count-range_up :
    (a i n : ℕ) → count a (range_up i n) ≡ (if ltb a i then 0 else if ltb a (i + n) then 1 else 0)
unfolding range_up
count-range_up a i zero = ground arith
count-range_up a i (suc n) = ground (arith, count-range_up a (suc i) n)
