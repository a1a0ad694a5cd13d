-- ===== src/Kvm/Bench.antt =====
-- rung-01-kvm/toy-kvm-raw/src/main.rs, `run_bench`: the rounds in which it collects its samples, and
-- the program that it builds for each. What a round runs is `load`, `set_real_mode_regs` and `run`.
pub mod Rounds
mod Tests
use systems_study.Prelude.{ℕ, zero, suc, ◌-◌, min, Option, none, some, List, [], ◌∷◌}
use systems_study.Kvm.Guest.{bench_program, bench_max_per_round}

-- The programs of the rounds, the panic of `bench_program`, or fuel that ran out.
pub data Plan : Type 0 where
  planned : List (List ℕ) → Plan
  panicked : Plan
  out_of_fuel : Plan

abbrev pub prepend : List ℕ → Plan → Plan
prepend prog (planned ps) = planned (prog ∷ ps)
prepend prog panicked = panicked
prepend prog out_of_fuel = out_of_fuel

abbrev pub with_program : Option (List ℕ) → Plan → Plan
with_program none rest = panicked
with_program (some prog) rest = prepend prog rest

-- `chunk` of a round.
abbrev pub chunk : ℕ → ℕ
chunk remaining = min remaining bench_max_per_round

-- `while remaining > 0`, with fuel for its rounds.
pub rounds : ℕ → ℕ → Plan
rounds fuel zero = planned []
rounds zero (suc r) = out_of_fuel
rounds (suc fuel) (suc r) =
    with_program (bench_program (chunk (suc r))) (rounds fuel (suc r - chunk (suc r)))
