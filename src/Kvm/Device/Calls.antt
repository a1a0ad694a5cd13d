-- ===== src/Kvm/Device/Calls.antt =====
-- What one call of device.rs changes: the counters, and the register at the base address.
use systems_study.Prelude.{ℕ, suc, ◌+◌, ◌<◌, ◌≡◌, refl, arith, List, [], ◌∷◌, length, replicate}
use systems_study.Prelude.Word.{u64_mod}
use systems_study.Kvm.Device.{Devices, pio_write, pio_read, mmio_write, mmio_read, mmio_base}

-- The calls that the devices have counted.
abbrev pub port_calls : Devices → ℕ
port_calls d = d.pio_writes + d.pio_reads

abbrev pub mmio_calls : Devices → ℕ
mmio_calls d = d.mmio_writes + d.mmio_reads

-- A device call counts itself, where the counters have room.
pub pio_write-counts :
    (port : ℕ) (bytes : List ℕ) (d : Devices)
    → suc (port_calls d) < u64_mod
    → (port_calls (pio_write port bytes d) ≡ suc (port_calls d))
      × (mmio_calls (pio_write port bytes d) ≡ mmio_calls d)
unfolding pio_write
pio_write-counts port bytes d room = ground arith

pub pio_read-counts :
    (port : ℕ) (bytes : List ℕ) (d : Devices)
    → suc (port_calls d) < u64_mod
    → (port_calls (pio_read port bytes d).1 ≡ suc (port_calls d))
      × (mmio_calls (pio_read port bytes d).1 ≡ mmio_calls d)
unfolding pio_read
pio_read-counts port bytes d room = ground arith

pub mmio_write-counts :
    (addr : ℕ) (bytes : List ℕ) (d : Devices)
    → suc (mmio_calls d) < u64_mod
    → (mmio_calls (mmio_write addr bytes d) ≡ suc (mmio_calls d))
      × (port_calls (mmio_write addr bytes d) ≡ port_calls d)
unfolding mmio_write
mmio_write-counts addr [] d room = ground arith
mmio_write-counts addr (b ∷ bytes) d room = ground arith

pub mmio_read-counts :
    (addr : ℕ) (bytes : List ℕ) (d : Devices)
    → suc (mmio_calls d) < u64_mod
    → (mmio_calls (mmio_read addr bytes d).1 ≡ suc (mmio_calls d))
      × (port_calls (mmio_read addr bytes d).1 ≡ port_calls d)
unfolding mmio_read
mmio_read-counts addr [] d room = ground arith
mmio_read-counts addr (b ∷ bytes) d room = ground arith

pub store_at_base :
    (b : ℕ) (bytes : List ℕ) (d : Devices)
    → ((mmio_write mmio_base (b ∷ bytes) d).latch ≡ b)
      × ((mmio_write mmio_base (b ∷ bytes) d).unhandled ≡ d.unhandled)
unfolding mmio_write
store_at_base b bytes d = (refl, refl)

pub load_at_base :
    (b : ℕ) (bytes : List ℕ) (d : Devices)
    → ((mmio_read mmio_base (b ∷ bytes) d).0 ≡ d.latch ∷ replicate (length bytes) 0)
      × ((mmio_read mmio_base (b ∷ bytes) d).1.unhandled ≡ d.unhandled)
unfolding mmio_read
load_at_base b bytes d = (refl, refl)
