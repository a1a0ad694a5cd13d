-- ===== src/Virtio/Mem/Laws.antt =====
-- Slices of a byte list after one of its ranges was overwritten.
use systems_study.Prelude.{
  ℕ, zero, suc, ◌+◌, ◌≤◌, ◌≡◌, refl, ap, arith, ◌⊎◌, inl, inr, List, [], ◌∷◌, length, get_or, take,
  drop, length-take, length-drop,
}
use systems_study.Virtio.Mem.{slice, overwrite, splice}

length-overwrite : (ds xs : List ℕ) → length (overwrite ds xs) ≡ length xs
unfolding overwrite
length-overwrite [] xs = refl
length-overwrite (d ∷ ds) [] = refl
length-overwrite (d ∷ ds) (x ∷ xs) = ap suc (length-overwrite ds xs)

pub length-splice : (i : ℕ) (ds xs : List ℕ) → length (splice i ds xs) ≡ length xs
unfolding splice
length-splice zero ds xs = length-overwrite ds xs
length-splice (suc i) ds [] = refl
length-splice (suc i) ds (x ∷ xs) = ap suc (length-splice i ds xs)

pub length-slice : (i n : ℕ) (xs : List ℕ) → i + n ≤ length xs → length (slice i n xs) ≡ n
unfolding slice
length-slice i n xs h = omega (arith, length-take n (drop i xs), length-drop i xs)

-- The two bytes that `read_u16` picks are the slice.
pub slice_two :
    (i : ℕ) (xs : List ℕ)
    → i + 2 ≤ length xs
    → slice i 2 xs ≡ get_or xs i 0 ∷ get_or xs (suc i) 0 ∷ []
unfolding slice
slice_two i [] h = absurd (omega arith)
slice_two zero (x ∷ []) h = absurd (omega arith)
slice_two zero (x ∷ y ∷ xs) h = refl
slice_two (suc i) (x ∷ xs) h = slice_two i xs (omega arith)

take-overwrite : (ds xs : List ℕ) → length ds ≤ length xs → take (length ds) (overwrite ds xs) ≡ ds
unfolding overwrite
take-overwrite [] xs h = refl
take-overwrite (d ∷ ds) [] h = absurd (omega arith)
take-overwrite (d ∷ ds) (x ∷ xs) h = ap (λ t. d ∷ t) (take-overwrite ds xs (omega arith))

drop-overwrite : (j : ℕ) (ds xs : List ℕ) → length ds ≤ j → drop j (overwrite ds xs) ≡ drop j xs
unfolding overwrite
drop-overwrite j [] xs h = refl
drop-overwrite zero (d ∷ ds) xs h = absurd (omega arith)
drop-overwrite (suc j) (d ∷ ds) [] h = refl
drop-overwrite (suc j) (d ∷ ds) (x ∷ xs) h = drop-overwrite j ds xs (omega arith)

-- What was written is read back.
pub slice-splice_self :
    (i : ℕ) (ds xs : List ℕ) → i + length ds ≤ length xs → slice i (length ds) (splice i ds xs) ≡ ds
unfolding slice splice
slice-splice_self zero ds xs h = take-overwrite ds xs (omega arith)
slice-splice_self (suc i) ds [] h = absurd (omega arith)
slice-splice_self (suc i) ds (x ∷ xs) h = slice-splice_self i ds xs (omega arith)

-- A slice that does not meet the range is as it was.
pub slice-splice_disjoint :
    (i j n : ℕ) (ds xs : List ℕ)
    → (j + n ≤ i) ⊎ (i + length ds ≤ j)
    → slice j n (splice i ds xs) ≡ slice j n xs
unfolding slice splice
slice-splice_disjoint zero j zero ds xs k = refl
slice-splice_disjoint zero j (suc n) ds xs (inl k) = absurd (omega arith)
slice-splice_disjoint zero j (suc n) ds xs (inr k) =
    ap (take (suc n)) (drop-overwrite j ds xs (omega arith))
slice-splice_disjoint (suc i) j n ds [] k = refl
slice-splice_disjoint (suc i) zero zero ds (x ∷ xs) k = refl
slice-splice_disjoint (suc i) zero (suc n) ds (x ∷ xs) k =
    ap (λ t. x ∷ t) (slice-splice_disjoint i zero n ds xs (omega arith))
slice-splice_disjoint (suc i) (suc j) n ds (x ∷ xs) k =
    slice-splice_disjoint i j n ds xs (omega arith)
