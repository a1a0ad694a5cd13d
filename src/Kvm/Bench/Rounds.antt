-- ===== src/Kvm/Bench/Rounds.antt =====
-- The rounds of `run_bench` end, none of them panics, and together they ask for the samples.
use systems_study.Prelude.{
  ℕ, zero, suc, ◌+◌, ◌-◌, ◌*◌, ◌/◌, ◌≤◌, ◌<◌, ◌≡◌, refl, arith, inl, inr, some, List, [], ◌∷◌,
  length,
}
use systems_study.Kvm.Guest.{bench_program}
use systems_study.Kvm.Guest.Laws.{bench_program_lem}
use systems_study.Kvm.Bench.{planned, chunk, rounds}

-- The operand of `mov cx` in a program, and the sum of those of several.
abbrev pub operand : List ℕ → ℕ
operand (a ∷ b ∷ c ∷ d ∷ lo ∷ hi ∷ rest) = lo + 256 * hi
operand _ = 0

abbrev pub asked : List (List ℕ) → ℕ
asked [] = 0
asked (p ∷ ps) = operand p + asked ps

-- A chunk is a count that `bench_program` takes.
chunk_program :
    (count : ℕ)
    → 0 < count
    → count ≤ 65535
    → (p : List ℕ) × (bench_program count ≡ some p) × (operand p ≡ count)
chunk_program count pos fits = elim (bench_program_lem count) [
  | inl (bad, _) ↦ absurd (omega (arith, bad))
  | inr (_, _, lo, hi, _, _, whole, e) ↦ (_, e, whole)
]

-- With as much fuel as there are samples, the rounds end without a panic: the programs ask for
-- exactly the samples in all, and there are as many of them as 65535 samples a round need, rounded up.
pub rounds_lem :
    (fuel samples : ℕ)
    → samples ≤ fuel
    → (ps : List (List ℕ)) × (rounds fuel samples ≡ planned ps)
      × (asked ps ≡ samples)
      × (length ps ≡ (samples + 65534) / 65535)
unfolding rounds
rounds_lem fuel zero enough = ([], refl, refl, refl)
rounds_lem zero (suc r) enough = absurd (omega (arith, enough))
rounds_lem (suc fuel) (suc r) enough =
    let (p, built, asks) = chunk_program (chunk (suc r)) (omega arith) (omega arith) in
    let (ps, run, all, number) = rounds_lem fuel (suc r - chunk (suc r)) (omega (arith, enough)) in
    (p ∷ ps, rw (built, run) refl, omega (arith, asks, all), omega (arith, number))
