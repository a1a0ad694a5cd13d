-- ===== src/Kvm/Vmm/Tests.antt =====
-- A guest that stores to the device, is interrupted, and halts: the theorems on `run` at its run.
use systems_study.Prelude.{ℕ, zero, suc, ◌<◌, ◌≡◌, ◌↔◌, refl, arith, some, [], ◌∷◌, replicate}
use systems_study.Prelude.Result.{ok, err}
use systems_study.Kvm.Device.{default, mmio_write}
use systems_study.Kvm.Vmm.{
  Session, Kernel, RunPage, run, run_loop, no_exits, handle_mmio, eintr, kvm_exit_mmio,
  kvm_exit_hlt,
}
use systems_study.Kvm.Vmm.Rounds.{Ended, Goes, run_loop_iff}
use systems_study.Kvm.Vmm.Steps.{Stops}
use systems_study.Kvm.Vmm.Accounts.{Balanced, run-Balanced}
use systems_study.Kvm.Vmm.Echo.{reported, store_exit, load_exit, store_then_load}

abbrev blank_page : RunPage
blank_page = record {
  exit_reason = 0;
  io = record { direction = 0; size = 1; port = 0; count = 1; data_offset = 0 };
  mmio = store_exit 66 [] 0;
  mapping = 0 ∷ [];
}

abbrev page_for : ℕ → RunPage → RunPage
page_for reason page = record page { exit_reason = reason }

-- The vCPU counts its entries: a store, an `EINTR`, and the halt.
abbrev small_guest : Kernel ℕ
small_guest zero page = (ok tt, (1, page_for kvm_exit_mmio page))
small_guest (suc zero) page = (err eintr, (2, page))
small_guest (suc (suc n)) page = (ok tt, (2, page_for kvm_exit_hlt page))

abbrev start : Session ℕ
start = record { vcpu = 0; page = blank_page; devices = default; summary = no_exits }

abbrev halted : Session ℕ
halted = record {
  vcpu = 2;
  page = page_for kvm_exit_hlt blank_page;
  devices = record default { latch = 66; mmio_writes = 1 };
  summary = record { exits = 2; io_exits = 0; mmio_exits = 1; interrupted = 1 };
}

halts : run small_guest 4 0 blank_page default ≡ (ok (some halted.summary), halted)
unfolding run mmio_write
halts = refl

run_loop_iff_example :
    (Ended (ok (some halted.summary))
      × (run_loop small_guest 4 start ≡ (ok (some halted.summary), halted)))
    ↔ ((k : ℕ) × (k < 4)
        × (t : Session ℕ) × Goes small_guest k start t
        × Stops small_guest t (ok (some halted.summary), halted))
run_loop_iff_example = run_loop_iff small_guest 4 start (ok (some halted.summary), halted)

run-Balanced_example : Balanced default halted.devices 4 halted.summary
run-Balanced_example =
    run-Balanced small_guest 4 0 blank_page default halted.summary halted (omega arith)
      (omega arith) (omega arith) halts

store_then_load_example :
    let stored = handle_mmio (reported (store_exit 66 (7 ∷ []) 1) start) in
    let resumed = record stored.1 { vcpu = 5 } in
    let loaded = handle_mmio (reported (load_exit [] 0) resumed) in
    (stored.0 ≡ ok tt)
    × (loaded.0 ≡ ok tt)
    × (loaded.1.page.mmio.bytes ≡ 66 ∷ replicate 7 0)
    × (loaded.1.devices.unhandled ≡ 0)
store_then_load_example = store_then_load start 66 (7 ∷ []) [] 1 0 5
