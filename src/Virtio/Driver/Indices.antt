-- ===== src/Virtio/Driver/Indices.antt =====
-- The indices that `add_chain` takes: different ones of the table, and no more than it has.
use systems_study.Prelude.{
  ℕ, zero, suc, ◌+◌, ◌≤◌, ◌≡◌, refl, arith, ltb, ◌==◌, if◌then◌else◌, some, List, [], ◌∷◌, length,
}
use systems_study.Virtio.Driver.{Driver}
use systems_study.Virtio.Driver.Send.{pop_indices}
use systems_study.Virtio.Driver.Pool.{count, pop_indices-count}
use systems_study.Virtio.Driver.Owned.{IsOwned}
use systems_study.Virtio.Driver.Table.{AreIndices}

-- A list in which no index stands twice, and none is out of the table.
pub counted-AreIndices :
    (q : ℕ) (is : List ℕ) → ((i : ℕ) → count i is ≤ (if ltb i q then 1 else 0)) → AreIndices q is
counted-AreIndices q [] h = tt
counted-AreIndices q (i ∷ is) h =
    (ground (arith, h i), ground (arith, h i), counted-AreIndices q is (λ j. ground (arith, h j)))

-- Without the greatest index, the others fit into a table that is smaller by one.
without : ℕ → List ℕ → List ℕ
without a [] = []
without a (b ∷ l) = let rest = without a l in if a == b then rest else b ∷ rest

count-without : (a b : ℕ) (l : List ℕ) → count b (without a l) ≡ (if b == a then 0 else count b l)
unfolding without
count-without a b [] = ground arith
count-without a b (c ∷ l) = ground (arith, count-without a b l)

length-without : (a : ℕ) (l : List ℕ) → length (without a l) + count a l ≡ length l
unfolding without
length-without a [] = refl
length-without a (c ∷ l) = ground (arith, length-without a l)

pub pigeonhole :
    (q : ℕ) (is : List ℕ) → ((i : ℕ) → count i is ≤ (if ltb i q then 1 else 0)) → length is ≤ q
pigeonhole zero [] h = omega arith
pigeonhole zero (i ∷ is) h = absurd (ground (arith, h i))
pigeonhole (suc q) is h = ground (
  arith,
  h q,
  length-without q is,
  pigeonhole q (without q is) (λ i. ground (arith, h i, count-without q i is)),
)

-- The indices that are taken from the free list.
pub taken-counted :
    (d : Driver) (n : ℕ) (taken left : List ℕ)
    → IsOwned d
    → pop_indices n d.free_descs ≡ some (taken, left)
    → (i : ℕ) → count i taken ≤ (if ltb i d.layout.queue_size then 1 else 0)
taken-counted d n taken left h e i =
    omega (arith, (pop_indices-count n d.free_descs taken left i e).0, h.owned i)
