-- ===== src/Kvm/Device.antt =====
-- rung-01-kvm/toy-kvm-raw/src/device.rs: the serial port and the device of one register. A method
-- that fills a buffer returns its bytes. Arithmetic on `u64` wraps, as in the release build.
pub mod History
pub mod Calls
mod Tests
use systems_study.Prelude.{
  ℕ, ◌+◌, ◌-◌, ◌%◌, Bool, true, false, ◌==◌, ◌&&◌, ltb, leb, if◌then◌else◌, List, [], ◌∷◌, ◌++◌,
  length, replicate,
}
use systems_study.Prelude.Word.{add64, u64_mod}

abbrev pub mmio_base : ℕ
mmio_base = 0x8000

abbrev pub mmio_len : ℕ
mmio_len = 0x1000

abbrev pub serial_port : ℕ
serial_port = 0x3f8

-- Of guest.rs: the port that the handler ignores.
abbrev pub bench_port : ℕ
bench_port = 0x80

pub record Devices : Type 0 where
  pub serial_out : List ℕ
  pub latch : ℕ
  pub pio_writes : ℕ
  pub pio_reads : ℕ
  pub mmio_writes : ℕ
  pub mmio_reads : ℕ
  pub unhandled : ℕ

-- `Devices::default()`.
abbrev pub default : Devices
default = record {
  serial_out = [];
  latch = 0;
  pio_writes = 0;
  pio_reads = 0;
  mmio_writes = 0;
  mmio_reads = 0;
  unhandled = 0;
}

abbrev pub sub64 : ℕ → ℕ → ℕ
sub64 a b = (a + u64_mod - b) % u64_mod

abbrev pub refuse : Devices → Devices
refuse d = record d { unhandled = add64 d.unhandled 1 }

pub pio_write : ℕ → List ℕ → Devices → Devices
pio_write port bytes d =
    let counted = record d { pio_writes = add64 d.pio_writes 1 } in
    if port == serial_port
    then record counted { serial_out = d.serial_out ++ bytes }
    else if port == bench_port
    then counted
    else refuse counted

-- No port is readable: the guest reads all ones.
pub pio_read : ℕ → List ℕ → Devices → List ℕ × Devices
pio_read port bytes d =
    (replicate (length bytes) 0xff, refuse (record d { pio_reads = add64 d.pio_reads 1 }))

-- The arm of the match at offset 0, and the other one.
abbrev pub latch_write : List ℕ → Devices → Devices
latch_write [] d = refuse d
latch_write (b ∷ bytes) d = record d { latch = b }

unfoldable pub mmio_write : ℕ → List ℕ → Devices → Devices
mmio_write addr bytes d =
    let counted = record d { mmio_writes = add64 d.mmio_writes 1 } in
    if sub64 addr mmio_base == 0 then latch_write bytes counted else refuse counted

abbrev pub latch_read : List ℕ → Devices → List ℕ × Devices
latch_read [] d = ([], refuse d)
latch_read (b ∷ bytes) d = (d.latch ∷ replicate (length bytes) 0, d)

pub mmio_read : ℕ → List ℕ → Devices → List ℕ × Devices
mmio_read addr bytes d =
    let counted = record d { mmio_reads = add64 d.mmio_reads 1 } in
    if sub64 addr mmio_base == 0
    then latch_read bytes counted
    else (replicate (length bytes) 0xff, refuse counted)

abbrev pub owns_mmio : ℕ → Bool
owns_mmio addr = leb mmio_base addr && ltb addr (mmio_base + mmio_len)
