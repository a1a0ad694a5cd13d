-- ===== src/Virtio/Layout.antt =====
-- rung-02-virtio/toy-virtq-raw/src/layout.rs: where the rings of a split virtqueue lie, and the
-- notification predicate. Sums and products of `u64` wrap, as they do in the release build.
pub mod Placement
pub mod Slots
pub mod Event
mod Tests
use Prim.Native.Nat.{bit_and}
use systems_study.Prelude.{
  ℕ, zero, suc, ◌+◌, ◌-◌, ◌/◌, ◌%◌, ◌^◌, Bool, false, not, ◌&&◌, ◌||◌, ltb, leb, ◌==◌,
  if◌then◌else◌, Option, none, some,
}
use systems_study.Prelude.Word.{add64, mul64, sub16, u64_mod}
use systems_study.Virtio.Mem.{GuestAddr}

abbrev pub desc_size : ℕ
desc_size = 16

abbrev pub virtq_desc_f_next : ℕ
virtq_desc_f_next = 1

abbrev pub virtq_desc_f_write : ℕ
virtq_desc_f_write = 2

abbrev pub virtq_desc_f_indirect : ℕ
virtq_desc_f_indirect = 4

abbrev pub virtq_used_f_no_notify : ℕ
virtq_used_f_no_notify = 1

-- One entry of the descriptor table, as the driver wrote it.
pub record Descriptor : Type 0 where
  pub addr : ℕ
  pub len : ℕ
  pub flags : ℕ
  pub next : ℕ

unfoldable pub has_next : Descriptor → Bool
has_next d = not (bit_and d.flags virtq_desc_f_next == 0)

unfoldable pub is_write_only : Descriptor → Bool
is_write_only d = not (bit_and d.flags virtq_desc_f_write == 0)

unfoldable pub is_indirect : Descriptor → Bool
is_indirect d = not (bit_and d.flags virtq_desc_f_indirect == 0)

pub record VirtqLayout : Type 0 where
  pub queue_size : ℕ
  pub desc_table : GuestAddr
  pub avail_ring : GuestAddr
  pub used_ring : GuestAddr

abbrev pub desc_align : ℕ
desc_align = 16

abbrev pub avail_align : ℕ
avail_align = 2

abbrev pub used_align : ℕ
used_align = 4

-- `div_ceil` and `is_power_of_two` of the standard library, the latter of a `u16`.
abbrev pub div_ceil : ℕ → ℕ → ℕ
div_ceil v k = if v % k == 0 then v / k else v / k + 1

pub power_of_two_below : ℕ → ℕ → Bool
power_of_two_below zero n = false
power_of_two_below (suc k) n = n == 2 ^ k || power_of_two_below k n

pub is_power_of_two : ℕ → Bool
unfolding power_of_two_below
is_power_of_two n = power_of_two_below 16 n

pub align_up : ℕ → ℕ → ℕ
align_up v align = mul64 (div_ceil v align) align

-- `VirtqLayout::new`; `none` is the panic of its assertion.
pub new : GuestAddr → ℕ → Option VirtqLayout
unfolding align_up
new base queue_size =
    if ltb 0 queue_size && is_power_of_two queue_size && leb queue_size 32768
    then (let desc_table = align_up base desc_align in
        let avail_ring = align_up (add64 desc_table (mul64 desc_size queue_size)) avail_align in
        let used_ring =
          align_up (add64 (add64 (add64 avail_ring 4) (mul64 2 queue_size)) 2) used_align in
        some record {
          queue_size = queue_size;
          desc_table = desc_table;
          avail_ring = avail_ring;
          used_ring = used_ring;
        })
    else none

-- The subtraction of two `u64` wraps.
pub total_size : VirtqLayout → ℕ
total_size l =
    (add64 (add64 (add64 l.used_ring 4) (mul64 8 l.queue_size)) 2 + u64_mod - l.desc_table)
    % u64_mod

pub end : VirtqLayout → GuestAddr
unfolding total_size
end l = add64 l.desc_table (total_size l)

-- The address of a descriptor; `none` for an index outside the table.
pub desc : VirtqLayout → ℕ → Option GuestAddr
desc l index =
    if leb l.queue_size index then none else some (add64 l.desc_table (mul64 index desc_size))

abbrev pub avail_flags : VirtqLayout → GuestAddr
avail_flags l = l.avail_ring

pub avail_idx : VirtqLayout → GuestAddr
avail_idx l = add64 l.avail_ring 2

pub avail_slot : VirtqLayout → ℕ → GuestAddr
avail_slot l i = add64 (add64 l.avail_ring 4) (mul64 (i % l.queue_size) 2)

pub used_event : VirtqLayout → GuestAddr
used_event l = add64 (add64 l.avail_ring 4) (mul64 l.queue_size 2)

abbrev pub used_flags : VirtqLayout → GuestAddr
used_flags l = l.used_ring

pub used_idx : VirtqLayout → GuestAddr
used_idx l = add64 l.used_ring 2

pub used_slot : VirtqLayout → ℕ → GuestAddr × GuestAddr
used_slot l i =
    let base = add64 (add64 l.used_ring 4) (mul64 (i % l.queue_size) 8) in (base, add64 base 4)

pub avail_event : VirtqLayout → GuestAddr
avail_event l = add64 (add64 l.used_ring 4) (mul64 l.queue_size 8)

-- Has the counter crossed `event + 1` between `old` and `new`?
pub need_event : ℕ → ℕ → ℕ → Bool
need_event event new old = ltb (sub16 (sub16 new event) 1) (sub16 new old)
