-- ===== src/Virtio/Hostile.antt =====
-- rung-02-virtio/toy-virtq-raw/src/main.rs, `hostile_chains` and `write_desc`: malformed chains, each
-- written into a fresh region and handed to a fresh device. The size of the region is an argument; an
-- `unwrap`, `expect` or assertion that fails is `none`. What is printed is left out.
pub mod Endless
pub mod Cycle
mod Tests
use Prim.Native.Nat.{bit_or}
use systems_study.Prelude.{
  ℕ, false, ◌-◌, ◌^◌, ◌==◌, if◌then◌else◌, Option, none, some, List, [], ◌∷◌,
}
use systems_study.Prelude.Options.{◌>>=◌}
use systems_study.Prelude.Result.{Result, ok, err}
use systems_study.Prelude.Word.{add64, u64_mod}
use systems_study.Virtio.Mem.{
  MemError, SharedMem, zeroed, write_u16, write_u32, write_u64, store_idx_release,
}
use systems_study.Virtio.Layout.{
  VirtqLayout, desc, avail_slot, avail_idx, virtq_desc_f_next, virtq_desc_f_write,
}
use systems_study.Virtio.Layout as Layout
use systems_study.Virtio.Device.{World}
use systems_study.Virtio.Device as Device
use systems_study.Virtio.Device.Process.{ProcessStats, RejectReason, process}

abbrev pub queue_size : ℕ
queue_size = 8

-- `unwrap`.
abbrev pub unwrap : {A : Type 0} → Result MemError A → Option A
unwrap (ok a) = some a
unwrap (err e) = none

pub write_desc : VirtqLayout → ℕ → ℕ → ℕ → ℕ → ℕ → SharedMem → Option SharedMem
write_desc layout index addr len flags next m = do
  at ← desc layout index
  m1 ← unwrap (write_u64 m at addr)
  m2 ← unwrap (write_u32 m1 (add64 at 8) len)
  m3 ← unwrap (write_u16 m2 (add64 at 12) flags)
  unwrap (write_u16 m3 (add64 at 14) next)

-- The five cases, in their order.
pub self_reference : VirtqLayout → SharedMem → Option SharedMem
self_reference layout m = write_desc layout 0 0x2000 16 virtq_desc_f_next 0 m

pub two_cycle : VirtqLayout → SharedMem → Option SharedMem
two_cycle layout m = do
  m1 ← write_desc layout 0 0x2000 16 virtq_desc_f_next 1 m
  write_desc layout 1 0x2000 16 virtq_desc_f_next 0 m1

pub next_outside : VirtqLayout → SharedMem → Option SharedMem
next_outside layout m = write_desc layout 0 0x2000 16 virtq_desc_f_next 60000 m

pub buffer_outside : VirtqLayout → SharedMem → Option SharedMem
buffer_outside layout m = write_desc layout 0 (u64_mod - 1 - 8) 4096 0 0 m

pub readable_last : VirtqLayout → SharedMem → Option SharedMem
readable_last layout m = do
  m1 ← write_desc layout 0 0x2000 16 (bit_or virtq_desc_f_write virtq_desc_f_next) 1 m
  write_desc layout 1 0x2000 16 0 0 m1

-- `expect` on what `process` returns, and the assertion on it.
abbrev pub expect_stats :
    Result MemError (Option (ProcessStats × Unit {0})) × World → Option ProcessStats
expect_stats (ok (some (s, c)), w) = if s.chains == 1 then some s else none
expect_stats (ok none, w) = none
expect_stats (err e, w) = none

-- The reason of the first rejection; `some none` is a chain that was not rejected.
abbrev pub first_reason : List (ℕ × RejectReason) → Option RejectReason
first_reason [] = none
first_reason ((head, r) ∷ rest) = some r

-- The closure returns the request. Two rounds are enough for one chain.
pub run_case : ℕ → VirtqLayout → (SharedMem → Option SharedMem) → Option (Option RejectReason)
unfolding write_desc
run_case region layout build = do
  m ← build (zeroed region)
  m1 ← unwrap (write_u16 m (avail_slot layout 0) 0)
  m2 ← unwrap (store_idx_release m1 (avail_idx layout) 1)
  stats ← expect_stats (
      process (λ (c : Unit {0}) (r : List ℕ). (r, c)) 2 tt
        (record { dev = Device.new layout false; memory = m2 }))
  some (first_reason stats.rejected)

pub hostile_chains : ℕ → Option (List (Option RejectReason))
unfolding run_case self_reference two_cycle next_outside buffer_outside readable_last
hostile_chains region = do
  layout ← Layout.new 0 queue_size
  a ← run_case region layout (self_reference layout)
  b ← run_case region layout (two_cycle layout)
  c ← run_case region layout (next_outside layout)
  d ← run_case region layout (buffer_outside layout)
  e ← run_case region layout (readable_last layout)
  some (a ∷ b ∷ c ∷ d ∷ e ∷ [])
