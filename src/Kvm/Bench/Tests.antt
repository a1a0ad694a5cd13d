-- ===== src/Kvm/Bench/Tests.antt =====
-- Seventy thousand samples are two rounds.
use systems_study.Prelude.{ℕ, ◌+◌, ◌/◌, ◌≡◌, arith, List, length}
use systems_study.Kvm.Bench.{planned, rounds}
use systems_study.Kvm.Bench.Rounds.{asked, rounds_lem}

rounds_lem_example :
    (ps : List (List ℕ)) × (rounds 70000 70000 ≡ planned ps)
    × (asked ps ≡ 70000)
    × (length ps ≡ (70000 + 65534) / 65535)
rounds_lem_example = rounds_lem 70000 70000 (omega arith)
