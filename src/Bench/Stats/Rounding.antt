-- ===== src/Bench/Stats/Rounding.antt =====
-- The rank of a percentile: it stays in range, and grows with the percentile.
use systems_study.Prelude.{
  ℕ, zero, suc, ◌+◌, ◌*◌, ◌/◌, ◌%◌, ◌≤◌, ◌<◌, ◌≡◌, arith, ltb, ◌⊎◌, inl, inr, Bool-cases, refl,
}
use native.Mathlib.Nat.{div-add-mod', mod-lt, mul-le-mul_left, mul-add}
use systems_study.Bench.Stats.{one, half_one, ulp, round_to, to_f64, round, rank, p999}

-- A step between doubles is one, or at most the 2^-52nd part of the number.
ulp_bound : (fuel x : ℕ) → (ulp fuel x ≡ 1) ⊎ (half_one * ulp fuel x ≤ x)
unfolding ulp
ulp_bound zero x = inl refl
ulp_bound (suc fuel) x = elim (Bool-cases (ltb x one)) [
  | inl e ↦ inl (rw e)
  | inr e ↦
      rw e
        (elim (ulp_bound fuel (x / 2)) [ inl h ↦ inr (ground arith) | inr h ↦ inr (ground arith) ])
]

ulp_pos : (fuel x : ℕ) → 0 < ulp fuel x
unfolding ulp
ulp_pos zero x = omega arith
ulp_pos (suc fuel) x = ground (arith, ulp_pos fuel (x / 2))

abbrev Near : ℕ → ℕ → Type 0
Near x y = (one * x ≤ one * y + y) × (one * y ≤ one * x + y)

div_parts : (x u : ℕ) → 0 < u → (x / u * u + x % u ≡ x) × (x % u < u)
div_parts x u h = (div-add-mod' x u, mod-lt x h)

round_to-Near : (u x : ℕ) → 0 < u → (u ≡ 1) ⊎ (half_one * u ≤ x) → Near (round_to u x) x
unfolding round_to
round_to-Near u x p h = ground (arith, div_parts x u p)

to_f64-Near : (x : ℕ) → Near (to_f64 x) x
unfolding to_f64
to_f64-Near x = round_to-Near (ulp 75 x) x (ulp_pos 75 x) (ulp_bound 75 x)

pub rank_le : (last p : ℕ) → p ≤ p999 → rank last p ≤ last
unfolding rank round
rank_le last p h =
    let x = to_f64 last in omega (arith, to_f64-Near last, to_f64-Near (x * p), mul-le-mul_left x h)

round_mono : (x y : ℕ) → x ≤ y → round x ≤ round y
unfolding round
round_mono x y h = omega arith

-- Fractions that differ by 2^-52 or more keep their order.
pub rank_mono : (last p q : ℕ) → p + 2 ≤ q → q ≤ one → rank last p ≤ rank last q
unfolding rank
rank_mono last p q h b =
    let x = to_f64 last in
    round_mono (to_f64 (x * p)) (to_f64 (x * q)) (
      omega (
        arith,
        to_f64-Near (x * p),
        to_f64-Near (x * q),
        mul-le-mul_left x h,
        mul-le-mul_left x b,
        mul-add x p 2,
      ))
