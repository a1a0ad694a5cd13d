-- ===== src/Virtio/Driver/Publish.antt =====
-- What publishing a head changes, and what the device reads then.
use systems_study.Prelude.{ℕ, ◌+◌, ◌*◌, ◌%◌, ◌≤◌, ◌<◌, ◌≡◌, ◌∙◌, arith, ◌⊎◌, inr}
use systems_study.Prelude.Result.{ok}
use systems_study.Prelude.Word.{add16, u16_mod, to_le_bytes, from_le_bytes-u16}
use systems_study.Virtio.Mem.{SharedMem, len}
use systems_study.Virtio.Mem.Access.{
  peek, poke, len-poke, poke-IsRegion, peek-poke-Apart, peek-poke_self, write_u16_ok,
}
use systems_study.Virtio.Layout.{VirtqLayout, avail_idx, avail_slot}
use systems_study.Virtio.Layout.Placement.{avail_idx_lem, avail_slot_lem}
use systems_study.Virtio.Device.Calls.{HasRings}
use systems_study.Virtio.Device.Frozen.{Frozen, Frozen-trans, Frozen-poke}
use systems_study.Virtio.Driver.{World}
use systems_study.Virtio.Driver.Send.{publish}

module _ (l : VirtqLayout) (m : SharedMem) (idx head : ℕ) where
  abbrev pub in_slot : SharedMem
  in_slot = poke m (avail_slot l idx) (to_le_bytes 2 head)

  abbrev pub published : SharedMem
  published = poke in_slot (avail_idx l) (to_le_bytes 2 (add16 idx 1))

  module _ (h : HasRings l m) where
    pub len-published : len published ≡ len m
    len-published = omega (
      arith,
      len-poke m (avail_slot l idx) (to_le_bytes 2 head),
      len-poke in_slot (avail_idx l) (to_le_bytes 2 (add16 idx 1)),
    )

    -- The device finds the head in its slot, and the index of the next one.
    pub published_lem :
        head < u16_mod
        → (peek 2 published (avail_slot l idx) ≡ head)
          × (peek 2 published (avail_idx l) ≡ add16 idx 1)
    unfolding to_le_bytes
    published_lem small =
        let p = h.placed in
        let slot = avail_slot_lem p idx in
        let at = avail_idx_lem p in
        let r : idx % l.queue_size < l.queue_size = omega (arith, p.size_pos) in
        let e = len-poke m (avail_slot l idx) (to_le_bytes 2 head) in
        (
          peek-poke-Apart in_slot (avail_idx l) (avail_slot l idx) 2 (to_le_bytes 2 (add16 idx 1))
                (inr (omega arith))
              ∙ peek-poke_self 2 m (avail_slot l idx) head (omega (arith, h.inside, p.avail_second))
              ∙ from_le_bytes-u16 head small,
          peek-poke_self 2 in_slot (avail_idx l) (add16 idx 1)
                (omega (arith, h.inside, p.avail_second))
              ∙ from_le_bytes-u16 (add16 idx 1) (omega arith),
        )

    -- The descriptor table is left alone.
    pub published-Frozen : Frozen l.desc_table (l.desc_table + 16 * l.queue_size) m published
    unfolding to_le_bytes
    published-Frozen =
        let p = h.placed in
        Frozen-trans
          (Frozen-poke l.desc_table (l.desc_table + 16 * l.queue_size) m (avail_slot l idx)
            (to_le_bytes 2 head) (inr (omega (arith, avail_slot_lem p idx, p.desc_first))))
          (Frozen-poke l.desc_table (l.desc_table + 16 * l.queue_size) in_slot (avail_idx l)
            (to_le_bytes 2 (add16 idx 1)) (inr (omega (arith, avail_idx_lem p, p.desc_first))))

-- Below the table and from the used ring on, nothing changes.
pub published-outside :
    (l : VirtqLayout) (m : SharedMem) (idx head : ℕ)
    → HasRings l m
    → (lo hi : ℕ) → (hi ≤ l.desc_table) ⊎ (l.used_ring ≤ lo)
    → Frozen lo hi m (published l m idx head)
unfolding to_le_bytes
published-outside l m idx head h lo hi apart =
    let p = h.placed in
    let below : idx % l.queue_size < l.queue_size = omega (arith, p.size_pos) in
    Frozen-trans
      (Frozen-poke lo hi m (avail_slot l idx) (to_le_bytes 2 head)
        (omega (arith, avail_slot_lem p idx, p.desc_first, p.avail_second)))
      (Frozen-poke lo hi (in_slot l m idx head) (avail_idx l) (to_le_bytes 2 (add16 idx 1))
        (omega (arith, avail_idx_lem p, p.desc_first, p.avail_second)))

pub publish_lem :
    (w : World) (head : ℕ)
    → HasRings w.drv.layout w.memory
    → publish head w ≡ (
      ok tt,
      record w {
        drv = record w.drv { avail_idx = add16 w.drv.avail_idx 1 };
        memory = published w.drv.layout w.memory w.drv.avail_idx head;
      },
    )
unfolding publish
publish_lem w head h =
    let l = w.drv.layout in
    let idx = w.drv.avail_idx in
    let p = h.placed in
    let below : idx % l.queue_size < l.queue_size = omega (arith, p.size_pos) in
    let e = len-poke w.memory (avail_slot l idx) (to_le_bytes 2 head) in
    let room : avail_slot l idx + 2 ≤ len w.memory =
      omega (arith, h.inside, p.avail_second, avail_slot_lem p idx) in
    let room_idx : avail_idx l + 2 ≤ len (in_slot l w.memory idx head) =
      omega (arith, h.inside, p.avail_second, avail_idx_lem p) in
    rw (
      write_u16_ok w.memory (avail_slot l idx) h.region head room,
      write_u16_ok (in_slot l w.memory idx head) (avail_idx l)
          (poke-IsRegion w.memory (avail_slot l idx) (to_le_bytes 2 head) h.region) (add16 idx 1)
          room_idx,
    )
