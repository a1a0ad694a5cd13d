-- ===== src/Kvm/Vmm/Steps.antt =====
-- One entry of `run` in vmm.rs, as a step relation: what the kernel answered, what the exit was, and
-- what the loop has then done. It is told without the code's functions for a round.
pub mod Agree
use systems_study.Prelude.{
  ℕ, ◌+◌, ◌-◌, ◌*◌, min, ◌≤◌, ◌<◌, ◌≡◌, ◌≢◌, refl, arith, ◌∙◌, inl, inr, ◌⊎◌, true, false, Option,
  none, some, List, ◌++◌, length, take, drop, replicate,
}
use native.Mathlib.Decide.{ℕ_discrete, dec_lt}
use systems_study.Prelude.Result.{Result, ok, err}
use systems_study.Prelude.Word.{add64}
use systems_study.Kvm.Device.{
  Devices, pio_write, pio_read, mmio_write, mmio_read, mmio_base, mmio_len,
}
use systems_study.Kvm.Vmm.{
  Session, Kernel, RunPage, KvmRunIo, KvmRunMmio, RunSummary, RunError, os, payload_out_of_bounds,
  bad_direction, undeviced, unhandled_exit, eintr, kvm_exit_io, kvm_exit_hlt, kvm_exit_mmio,
  kvm_exit_intr, kvm_exit_io_in, kvm_exit_io_out, saturating_add, replace, handle_io, handle_mmio,
  transfer, serve_mmio, dispatch, after_entry, entered, round,
}

-- `KVM_RUN` has succeeded with this exit.
abbrev pub Exit : {V : Type 0} → Kernel V → Session V → V → RunPage → ℕ → Type 0
Exit kvm_run s v p reason = (kvm_run s.vcpu s.page ≡ (ok tt, (v, p))) × (p.exit_reason ≡ reason)

-- The end of the payload in the mapping, and the payload.
abbrev pub payload_end : RunPage → ℕ
payload_end p = saturating_add p.io.data_offset (p.io.size * p.io.count)

abbrev pub payload : RunPage → List ℕ
payload p = take (p.io.size * p.io.count) (drop p.io.data_offset p.mapping)

abbrev pub OwnsMmio : ℕ → Type 0
OwnsMmio a = (mmio_base ≤ a) × (a < mmio_base + mmio_len)

-- The summary after an exit, an I/O exit and an MMIO exit.
abbrev pub exit_count : RunSummary → RunSummary
exit_count n = record n { exits = add64 n.exits 1 }

abbrev pub io_count : RunSummary → RunSummary
io_count n = record n { exits = add64 n.exits 1; io_exits = add64 n.io_exits 1 }

abbrev pub mmio_count : RunSummary → RunSummary
mmio_count n = record n { exits = add64 n.exits 1; mmio_exits = add64 n.mmio_exits 1 }

-- The page after the device has filled the buffer of a port read or of a load.
abbrev pub port_page : RunPage → List ℕ → RunPage
port_page p filled = record p { mapping = replace p.io.data_offset filled p.mapping }

abbrev pub load_page : RunPage → List ℕ → RunPage
load_page p filled = record p {
  mmio = record p.mmio { bytes = filled ++ replicate (8 - min p.mmio.len 8) 0 };
}

-- The entries after which the guest is resumed.
pub data Resumes {V : Type 0} (kvm_run : Kernel V) (s : Session V) : Session V → Type 0 where
  no_entry :
      (v : V) (p : RunPage)
      → kvm_run s.vcpu s.page ≡ (err eintr, (v, p))
      → Resumes kvm_run s record {
        vcpu = v;
        page = p;
        devices = s.devices;
        summary = record s.summary { interrupted = add64 s.summary.interrupted 1 };
      }
  interrupted :
      (v : V) (p : RunPage)
      → Exit kvm_run s v p kvm_exit_intr
      → Resumes kvm_run s record {
        vcpu = v;
        page = p;
        devices = s.devices;
        summary = record (exit_count s.summary) { interrupted = add64 s.summary.interrupted 1 };
      }
  port_write :
      (v : V) (p : RunPage)
      → Exit kvm_run s v p kvm_exit_io
      → payload_end p ≤ length p.mapping
      → p.io.direction ≡ kvm_exit_io_out
      → Resumes kvm_run s record {
        vcpu = v;
        page = p;
        devices = pio_write p.io.port (payload p) s.devices;
        summary = io_count s.summary;
      }
  port_read :
      (v : V) (p : RunPage)
      → Exit kvm_run s v p kvm_exit_io
      → payload_end p ≤ length p.mapping
      → p.io.direction ≡ kvm_exit_io_in
      → Resumes kvm_run s record {
        vcpu = v;
        page = port_page p (pio_read p.io.port (payload p) s.devices).0;
        devices = (pio_read p.io.port (payload p) s.devices).1;
        summary = io_count s.summary;
      }
  store :
      (v : V) (p : RunPage)
      → Exit kvm_run s v p kvm_exit_mmio
      → OwnsMmio p.mmio.phys_addr
      → p.mmio.is_write ≢ 0
      → Resumes kvm_run s record {
        vcpu = v;
        page = p;
        devices = mmio_write p.mmio.phys_addr (take (min p.mmio.len 8) p.mmio.bytes) s.devices;
        summary = mmio_count s.summary;
      }
  load :
      (v : V) (p : RunPage)
      → Exit kvm_run s v p kvm_exit_mmio
      → OwnsMmio p.mmio.phys_addr
      → p.mmio.is_write ≡ 0
      → Resumes kvm_run s record {
        vcpu = v;
        page =
            load_page p (mmio_read p.mmio.phys_addr (replicate (min p.mmio.len 8) 0) s.devices).0;
        devices = (mmio_read p.mmio.phys_addr (replicate (min p.mmio.len 8) 0) s.devices).1;
        summary = mmio_count s.summary;
      }

-- The session at the end: the devices and the communication page are left as the entry left them.
abbrev pub final : {V : Type 0} → Session V → V → RunPage → RunSummary → Session V
final s v p n = record { vcpu = v; page = p; devices = s.devices; summary = n }

-- The entries that end the loop, with its result: the halt, and the errors.
pub data Stops {V : Type 0} (kvm_run : Kernel V) (s : Session V)
    : Result RunError (Option RunSummary) × Session V → Type 0 where
  halts :
      (v : V) (p : RunPage)
      → Exit kvm_run s v p kvm_exit_hlt
      → Stops kvm_run s (ok (some (exit_count s.summary)), final s v p (exit_count s.summary))
  fails :
      (v : V) (p : RunPage) (e : ℕ)
      → kvm_run s.vcpu s.page ≡ (err e, (v, p))
      → e ≢ eintr
      → Stops kvm_run s (err (os e), final s v p s.summary)
  out_of_bounds :
      (v : V) (p : RunPage)
      → Exit kvm_run s v p kvm_exit_io
      → length p.mapping < payload_end p
      → Stops kvm_run s (err payload_out_of_bounds, final s v p (io_count s.summary))
  no_direction :
      (v : V) (p : RunPage)
      → Exit kvm_run s v p kvm_exit_io
      → payload_end p ≤ length p.mapping
      → p.io.direction ≢ kvm_exit_io_out
      → p.io.direction ≢ kvm_exit_io_in
      → Stops kvm_run s (err (bad_direction p.io.direction), final s v p (io_count s.summary))
  no_device :
      (v : V) (p : RunPage)
      → Exit kvm_run s v p kvm_exit_mmio
      → ¬ OwnsMmio p.mmio.phys_addr
      → Stops kvm_run s (err (undeviced p.mmio.phys_addr), final s v p (mmio_count s.summary))
  no_handler :
      (v : V) (p : RunPage) (reason : ℕ)
      → Exit kvm_run s v p reason
      → reason ≢ kvm_exit_io
      → reason ≢ kvm_exit_mmio
      → reason ≢ kvm_exit_hlt
      → reason ≢ kvm_exit_intr
      → Stops kvm_run s (err (unhandled_exit reason), final s v p (exit_count s.summary))
