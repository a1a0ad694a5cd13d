-- ===== src/Kvm/Device/Tests.antt =====
-- The theorems on the devices at a few accesses.
use systems_study.Prelude.{◌+◌, arith, List, [], ◌∷◌}
use systems_study.Kvm.Device.{default, serial_port, mmio_base}
use systems_study.Kvm.Device.History.{
  Access, out_port, in_port, mmio_store, mmio_load, serve_all, Told, serve_all_lem,
}

-- `KV` in two writes, a store, a load past the register, and a port that nothing answers.
abbrev some_accesses : List Access
some_accesses =
    out_port serial_port (75 ∷ [])
    ∷ mmio_store mmio_base (66 ∷ [])
    ∷ out_port serial_port (86 ∷ [])
    ∷ mmio_load (mmio_base + 8) (0 ∷ [])
    ∷ in_port 96 (0 ∷ [])
    ∷ []

serve_all_lem_example : Told some_accesses default (serve_all some_accesses default)
serve_all_lem_example =
    serve_all_lem some_accesses default
      (omega arith, (omega arith, (omega arith, (omega arith, (omega arith, tt))))) (omega arith)
