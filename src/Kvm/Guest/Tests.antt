-- ===== src/Kvm/Guest/Tests.antt =====
-- The theorems on the programs and on loading at small inputs.
use systems_study.Prelude.{ℕ, ◌+◌, ◌≤◌, ◌<◌, ◌≡◌, ◌⊎◌, arith, List, [], ◌∷◌}
use systems_study.Prelude.Word.{u64_mod}
use systems_study.Kvm.Guest.{loaded, exceeds, stray, load}
use systems_study.Kvm.Guest.Laws.{IsLoaded, load_lem}

abbrev rounds : ℕ
rounds = 1000

abbrev ram : List ℕ
ram = 1 ∷ 2 ∷ 3 ∷ 4 ∷ []

-- The address two below 2^64, from where four bytes wrap back into memory.
abbrev near_end : ℕ
near_end = 18446744073709551614

load_lem_example :
    ((near_end + 4 ≤ 4)
      × (ram' : List ℕ) × (load ram near_end ram ≡ loaded ram')
      × IsLoaded ram ram' near_end ram)
    ⊎ (((4 < near_end + 4) × (near_end + 4 < u64_mod) × (load ram near_end ram ≡ exceeds))
        ⊎ (((4 + u64_mod < near_end + 4) × (load ram near_end ram ≡ exceeds))
            ⊎ ((u64_mod ≤ near_end + 4)
                × (near_end + 4 ≤ 4 + u64_mod)
                × (load ram near_end ram ≡ stray))))
load_lem_example = load_lem ram near_end ram (omega arith) (omega arith) (omega arith)
