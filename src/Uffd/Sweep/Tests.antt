-- ===== src/Uffd/Sweep/Tests.antt =====
-- An instance of the walk's theorem: ten pages in batches of four, twice.
use systems_study.Prelude.{ℕ, ◌≡◌, refl, arith, true, none}
use systems_study.Prelude.Result.{Result, ok}
use systems_study.Uffd.Handler.{HandlerStats, Handler}
use systems_study.Uffd.Handler.Turn.{IsSetUp}
use systems_study.Uffd.Restore.Machine.{Memory, memory_paging, memory-IsKernel, handler, fresh}
use systems_study.Uffd.Sweep.{swept, run_config}
use systems_study.Uffd.Sweep.Rounds.{run_config_lem, Empties}

abbrev spinner : Handler
spinner = handler 10 4 true

spinner-IsSetUp : IsSetUp spinner
spinner-IsSetUp = record {
  aligned = refl;
  region_fits = omega arith;
  image_fits = omega arith;
  batched = omega arith;
}

abbrev empty_region : Memory → Result ℕ (Unit {0}) × Memory
empty_region m = (ok tt, record m { cells = λ a. none })

empty_region-Empties : Empties memory_paging memory-IsKernel empty_region spinner spinner-IsSetUp 0
empty_region-Empties m runs = (record m { cells = λ a. none }, refl, runs, λ q l. refl)

run_config_lem_example :
    (s : HandlerStats) × (k : Memory) × (run_config memory_paging empty_region spinner 1 2 fresh
      ≡ (swept s, k))
    × (s.faults ≡ 6)
    × (s.pages_installed ≡ 20)
run_config_lem_example =
    run_config_lem memory_paging memory-IsKernel empty_region spinner spinner-IsSetUp 0
      empty_region-Empties 3 (omega arith) (omega arith) 2 fresh (omega arith) refl
