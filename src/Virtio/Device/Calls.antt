-- ===== src/Virtio/Device/Calls.antt =====
-- The methods of the device where the rings lie in the region: what each returns and changes.
use systems_study.Prelude.{ℕ, ◌+◌, ◌*◌, ◌≤◌, ◌≡◌, ◌≢◌, arith, none, some}
use systems_study.Prelude.Result.{ok}
use systems_study.Prelude.Word.{add16, sub16, to_le_bytes}
use systems_study.Virtio.Mem.{SharedMem, len}
use systems_study.Virtio.Mem.Access.{
  IsRegion, peek, poke, len-poke, poke-IsRegion, read_u16_ok, write_u16_ok, write_u32_ok,
}
use systems_study.Virtio.Layout.{VirtqLayout, avail_idx, avail_slot, used_slot, used_idx}
use systems_study.Virtio.Layout.Placement.{
  IsPlaced, avail_idx_lem, avail_slot_lem, used_idx_lem, used_slot_lem,
}
use systems_study.Virtio.Device.{Device, World, available, pop_chain_head, add_used}

-- The rings are placed, and lie in a region shorter than the address space.
pub record HasRings (l : VirtqLayout) (m : SharedMem) : Type 0 where
  pub placed : IsPlaced l
  pub region : IsRegion m
  pub inside : l.used_ring + 6 + 8 * l.queue_size ≤ len m

module _ (w : World) (h : HasRings w.dev.layout w.memory) where
  pub available_lem :
      available w ≡ (ok (sub16 (peek 2 w.memory (avail_idx w.dev.layout)) w.dev.next_avail), w)
  unfolding available
  available_lem = rw (
      read_u16_ok w.memory (avail_idx w.dev.layout) h.region
        (omega (arith, h.inside, avail_idx_lem h.placed)))

abbrev pub count : World → ℕ
count w = sub16 (peek 2 w.memory (avail_idx w.dev.layout)) w.dev.next_avail

-- The device after it has taken a chain.
abbrev pub taken : World → World
taken w = record w { dev = record w.dev { next_avail = add16 w.dev.next_avail 1 } }

-- The region and the device after a completion.
abbrev pub completed : SharedMem → Device → ℕ → ℕ → SharedMem
completed m d head n =
    poke
      (poke (poke m (used_slot d.layout d.next_used).0 (to_le_bytes 4 head))
        (used_slot d.layout d.next_used).1 (to_le_bytes 4 n))
      (used_idx d.layout) (to_le_bytes 2 (add16 d.next_used 1))

abbrev pub completes : World → ℕ → ℕ → World
completes w head n = record {
  dev = record w.dev { next_used = add16 w.dev.next_used 1; num_added = add16 w.dev.num_added 1 };
  memory = completed w.memory w.dev head n;
}

module _ (w : World) (h : HasRings w.dev.layout w.memory) where
  pub pop_none : count w ≡ 0 → pop_chain_head w ≡ (ok none, w)
  unfolding pop_chain_head
  pop_none e = rw (available_lem w h) (ground arith)

  pub pop_some :
      count w ≢ 0
      → pop_chain_head w
        ≡ (ok (some (peek 2 w.memory (avail_slot w.dev.layout w.dev.next_avail))), taken w)
  unfolding pop_chain_head
  pop_some ne =
      let m = w.memory in
      let l = w.dev.layout in
      let slot = avail_slot_lem h.placed w.dev.next_avail in
      let in_slot : avail_slot l w.dev.next_avail + 2 ≤ len m =
        omega (arith, h.inside, h.placed.size_pos, slot) in
      let in_idx : avail_idx l + 2 ≤ len m = omega (arith, h.inside, avail_idx_lem h.placed) in
      rw (read_u16_ok m (avail_idx l) h.region in_idx)
        (ground (arith, read_u16_ok m (avail_slot l w.dev.next_avail) h.region in_slot))

  pub add_used_lem : (head n : ℕ) → add_used head n w ≡ (ok tt, completes w head n)
  unfolding add_used
  add_used_lem head n =
      let d = w.dev in
      let m = w.memory in
      let slot = used_slot d.layout d.next_used in
      let at = used_slot_lem h.placed d.next_used in
      let m1 = poke m slot.0 (to_le_bytes 4 head) in
      let m2 = poke m1 slot.1 (to_le_bytes 4 n) in
      let r1 : IsRegion m1 = poke-IsRegion m slot.0 (to_le_bytes 4 head) h.region in
      let r2 : IsRegion m2 = poke-IsRegion m1 slot.1 (to_le_bytes 4 n) r1 in
      let e1 = len-poke m slot.0 (to_le_bytes 4 head) in
      let e2 = len-poke m1 slot.1 (to_le_bytes 4 n) in
      let in0 : slot.0 + 4 ≤ len m = omega (arith, h.inside, h.placed.size_pos, at.0) in
      let in1 : slot.1 + 4 ≤ len m1 = omega (arith, h.inside, h.placed.size_pos, at.1, e1) in
      let in2 : used_idx d.layout + 2 ≤ len m2 =
        omega (arith, h.inside, used_idx_lem h.placed, e1, e2) in
      rw (
        write_u32_ok m slot.0 h.region head in0,
        write_u32_ok m1 slot.1 r1 n in1,
        write_u16_ok m2 (used_idx d.layout) r2 (add16 d.next_used 1) in2,
      )
