-- ===== src/Kvm/Vmm.antt =====
-- `run` of rung-01-kvm/toy-kvm-raw/src/vmm.rs: enter the guest, dispatch on the exit, resume. The
-- kernel with the guest, `KVM_RUN`, is a parameter: it takes the vCPU and the communication page to
-- an `errno` or success and to the new ones. The trace and the timings are left out.
pub mod Steps
pub mod Rounds
pub mod Counted
pub mod Accounts
pub mod Echo
mod Tests
use systems_study.Prelude.{
  ℕ, zero, suc, ◌+◌, ◌-◌, ◌*◌, min, Bool, true, false, not, ◌==◌, ltb, if◌then◌else◌, Option, none,
  some, List, [], ◌∷◌, ◌++◌, length, take, drop, replicate,
}
use systems_study.Prelude.Result.{
  Result, ok, err, Method, ◌>>=◌, ◌>>◌, bind_result, pure, fail, state, modify,
}
use systems_study.Prelude.Word.{add64, u64_mod}
pub use systems_study.Kvm.Ioctl.{
  kvm_exit_io, kvm_exit_hlt, kvm_exit_mmio, kvm_exit_intr, kvm_exit_io_in, kvm_exit_io_out,
}
use systems_study.Kvm.Device.{Devices, pio_write, pio_read, mmio_write, mmio_read, owns_mmio}

abbrev pub eintr : ℕ
eintr = 4

pub record KvmRunIo : Type 0 where
  pub direction : ℕ
  pub size : ℕ
  pub port : ℕ
  pub count : ℕ
  pub data_offset : ℕ

pub record KvmRunMmio : Type 0 where
  pub phys_addr : ℕ
  pub bytes : List ℕ
  pub len : ℕ
  pub is_write : ℕ

-- The communication page: the header's reason, the two variants of the union that are read, and the
-- bytes of the mapping, in which a port's payload lies.
pub record RunPage : Type 0 where
  pub exit_reason : ℕ
  pub io : KvmRunIo
  pub mmio : KvmRunMmio
  pub mapping : List ℕ

pub record RunSummary : Type 0 where
  pub exits : ℕ
  pub io_exits : ℕ
  pub mmio_exits : ℕ
  pub interrupted : ℕ

-- `RunSummary::default()`.
abbrev pub no_exits : RunSummary
no_exits = record { exits = 0; io_exits = 0; mmio_exits = 0; interrupted = 0 }

-- The errors that `run` returns, in its order.
pub data RunError : Type 0 where
  os : ℕ → RunError
  payload_out_of_bounds : RunError
  bad_direction : ℕ → RunError
  undeviced : ℕ → RunError
  unhandled_exit : ℕ → RunError

pub record Session (V : Type 0) : Type 0 where
  pub vcpu : V
  pub page : RunPage
  pub devices : Devices
  pub summary : RunSummary

abbrev pub Action : Type 0 → Type 0 → Type 0
Action V A = Method (Session V) RunError A

-- The answer of one entry.
abbrev pub Kernel : Type 0 → Type 0
Kernel V = V → RunPage → Result ℕ (Unit {0}) × (V × RunPage)

abbrev pub saturating_add : ℕ → ℕ → ℕ
saturating_add a b = min (a + b) (u64_mod - 1)

-- `bytes` in the mapping from `off` on.
abbrev pub replace : ℕ → List ℕ → List ℕ → List ℕ
replace off bytes mapping = take off mapping ++ (bytes ++ drop (off + length bytes) mapping)

module _ {V : Type 0} where
  abbrev count : (RunSummary → RunSummary) → Action V (Unit {0})
  count f = modify λ s. record s { summary = f s.summary }

  abbrev pub touch : (Devices → Devices) → Action V (Unit {0})
  touch f = modify λ s. record s { devices = f s.devices }

  -- What a device has left in the buffer goes back to the page.
  abbrev pub port_in : KvmRunIo → List ℕ → Session V → Session V
  port_in io bytes s =
      let (filled, d) = pio_read io.port bytes s.devices in
      record s {
        devices = d;
        page = record s.page { mapping = replace io.data_offset filled s.page.mapping };
      }

  pub transfer : KvmRunIo → List ℕ → Action V (Unit {0})
  transfer io bytes =
      if io.direction == kvm_exit_io_out
      then touch (pio_write io.port bytes)
      else if io.direction == kvm_exit_io_in
      then modify (port_in io bytes)
      else fail (bad_direction io.direction)

  -- The product of a `u8` and a `u32` does not wrap.
  pub handle_io : Action V (Unit {0})
  unfolding transfer
  handle_io = do
    count λ n. record n { io_exits = add64 n.io_exits 1 }
    s ← state
    let io = s.page.io
    let len = io.size * io.count
    if ltb (length s.page.mapping) (saturating_add io.data_offset len)
        then fail payload_out_of_bounds
        else transfer io (take len (drop io.data_offset s.page.mapping))

  -- The device fills the first `len` bytes of a zeroed buffer of 8, which goes to the page whole.
  abbrev pub mmio_load : KvmRunMmio → ℕ → Session V → Session V
  mmio_load m len s =
      let (filled, d) = mmio_read m.phys_addr (replicate len 0) s.devices in
      record s {
        devices = d;
        page = record s.page { mmio = record m { bytes = filled ++ replicate (8 - len) 0 } };
      }

  pub serve_mmio : KvmRunMmio → ℕ → Action V (Unit {0})
  serve_mmio m len =
      if not (m.is_write == 0)
      then touch (mmio_write m.phys_addr (take len m.bytes))
      else modify (mmio_load m len)

  pub handle_mmio : Action V (Unit {0})
  unfolding serve_mmio
  handle_mmio = do
    count λ n. record n { mmio_exits = add64 n.mmio_exits 1 }
    s ← state
    let m = s.page.mmio
    let len = min m.len 8
    if not (owns_mmio m.phys_addr) then fail (undeviced m.phys_addr) else serve_mmio m len

  abbrev pub interrupt : Action V (Unit {0})
  interrupt = count λ n. record n { interrupted = add64 n.interrupted 1 }

  abbrev pub halt : Action V (Option RunSummary)
  halt = do s ← state; pure (some s.summary)

  -- `none` is the end of a round after which the loop goes on.
  pub dispatch : ℕ → Action V (Option RunSummary)
  unfolding handle_io handle_mmio
  dispatch reason =
      if reason == kvm_exit_io
      then handle_io >> pure none
      else if reason == kvm_exit_mmio
      then handle_mmio >> pure none
      else if reason == kvm_exit_hlt
      then halt
      else if reason == kvm_exit_intr
      then interrupt >> pure none
      else fail (unhandled_exit reason)

  abbrev pub entered : Session V → Result ℕ (Unit {0}) × (V × RunPage) → Session V
  entered s (r, (v, p)) = record s { vcpu = v; page = p }

  -- The round once `KVM_RUN` has returned.
  pub after_entry : Result ℕ (Unit {0}) → Action V (Option RunSummary)
  unfolding dispatch
  after_entry (err e) = if e == eintr then interrupt >> pure none else fail (os e)
  after_entry (ok u) = do
    count λ n. record n { exits = add64 n.exits 1 }
    s ← state
    dispatch s.page.exit_reason

  module _ (kvm_run : Kernel V) where
    pub round : Action V (Option RunSummary)
    unfolding after_entry
    round s = let answer = kvm_run s.vcpu s.page in after_entry answer.0 (entered s answer)

    -- The loop, with fuel for the entries; `none` means that it ran out.
    pub run_loop : ℕ → Action V (Option RunSummary)
    unfolding round
    run_loop zero = pure none
    run_loop (suc fuel) = do
      result ← round
      elim result [ none ↦ run_loop fuel | some n ↦ pure (some n) ]

    pub run : ℕ → V → RunPage → Devices → Result RunError (Option RunSummary) × Session V
    unfolding run_loop
    run fuel v page devices =
        run_loop fuel record { vcpu = v; page = page; devices = devices; summary = no_exits }
