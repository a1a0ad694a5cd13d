-- ===== src/Virtio/Device/Used.antt =====
-- What a completion makes visible to the driver, and what it leaves.
use systems_study.Prelude.{
  ℕ, ◌+◌, ◌%◌, ◌≤◌, ◌<◌, ◌≡◌, ◌≢◌, refl, arith, ◌⊎◌, inl, inr, ◌∙◌, ap, sym,
}
use systems_study.Prelude.Result.{ok}
use systems_study.Prelude.Word.{
  add16, u16_mod, u32_mod, to_le_bytes, from_le_bytes-u32, from_le_bytes-wrap,
}
use systems_study.Virtio.Mem.{SharedMem, len, read_u16, read_u32}
use systems_study.Virtio.Mem.Access.{
  IsRegion, peek, poke, len-poke, peek-poke-Apart, peek-poke_self, read_u16_ok, read_u32_ok,
}
use systems_study.Virtio.Layout.{used_slot, used_idx}
use systems_study.Virtio.Layout.Placement.{used_slot_lem, used_idx_lem}
use systems_study.Virtio.Device.{Device, World, add_used}
use systems_study.Virtio.Device.Process.Entries.{OneEntry}
use systems_study.Virtio.Device.Process.Round.{completed_index}
use systems_study.Virtio.Device.Calls.{HasRings, completed, completes, add_used_lem}

module _ (m : SharedMem) (d : Device) (h : HasRings d.layout m) (head n : ℕ) where
  open d use {layout, next_used}

  abbrev id_at : ℕ
  id_at = (used_slot layout next_used).0

  abbrev len_at : ℕ
  len_at = (used_slot layout next_used).1

  abbrev with_id : SharedMem
  with_id = poke m id_at (to_le_bytes 4 head)

  abbrev with_len : SharedMem
  with_len = poke with_id len_at (to_le_bytes 4 n)

  completed-len : len (completed m d head n) ≡ len m
  completed-len = omega (
    arith,
    len-poke m id_at (to_le_bytes 4 head),
    len-poke with_id len_at (to_le_bytes 4 n),
    len-poke with_len (used_idx layout) (to_le_bytes 2 (add16 next_used 1)),
  )

  -- The id lies below the length, and both above the index.
  slot_order : (used_idx layout + 2 ≤ id_at) × (id_at + 4 ≡ len_at) × (len_at + 4 ≤ len m)
  slot_order =
      omega (
        arith,
        used_slot_lem h.placed next_used,
        used_idx_lem h.placed,
        h.inside,
        h.placed.size_pos,
      )

  completed_id : peek 4 (completed m d head n) id_at ≡ head % u32_mod
  unfolding to_le_bytes
  completed_id =
      let idx_bytes = to_le_bytes 2 (add16 next_used 1) in
      peek-poke-Apart with_len (used_idx layout) id_at 4 idx_bytes (inr (omega (arith, slot_order)))
      ∙ (peek-poke-Apart with_id len_at id_at 4 (to_le_bytes 4 n) (inl (omega (arith, slot_order)))
          ∙ (peek-poke_self 4 m id_at head (omega (arith, slot_order)) ∙ from_le_bytes-wrap head))

  completed_len : n < u32_mod → peek 4 (completed m d head n) len_at ≡ n
  unfolding to_le_bytes
  completed_len small =
      let idx_bytes = to_le_bytes 2 (add16 next_used 1) in
      let same = len-poke m id_at (to_le_bytes 4 head) in
      peek-poke-Apart with_len (used_idx layout) len_at 4 idx_bytes
        (inr (omega (arith, slot_order)))
      ∙ (peek-poke_self 4 with_id len_at n (omega (arith, slot_order, same))
          ∙ from_le_bytes-u32 n small)

  -- Four bytes of the ring above the index and outside this slot.
  completed_other :
      (b : ℕ)
      → used_idx layout + 2 ≤ b
      → (b + 4 ≤ id_at) ⊎ (len_at + 4 ≤ b)
      → peek 4 (completed m d head n) b ≡ peek 4 m b
  unfolding to_le_bytes
  completed_other b lo apart =
      let idx_bytes = to_le_bytes 2 (add16 next_used 1) in
      peek-poke-Apart with_len (used_idx layout) b 4 idx_bytes (inr (omega arith))
      ∙ (peek-poke-Apart with_id len_at b 4 (to_le_bytes 4 n) (omega (arith, slot_order))
          ∙ peek-poke-Apart m id_at b 4 (to_le_bytes 4 head) (omega (arith, slot_order)))

  -- One entry of the ring is new, and the others are as they were.
  pub completed-OneEntry : n < u32_mod → OneEntry layout next_used head n m (completed m d head n)
  completed-OneEntry small_len =
      let here = used_slot_lem h.placed next_used in
      let idx = used_idx_lem h.placed in
      record {
        id = completed_id;
        size = completed_len small_len;
        rest = λ i ne.
            let there = used_slot_lem h.placed i in
            (
              completed_other (used_slot layout i).0 (omega (arith, there, idx))
                  (omega (arith, there, here, ne)),
              completed_other (used_slot layout i).1 (omega (arith, there, idx))
                  (omega (arith, there, here, ne)),
            );
      }

  completed-IsRegion : IsRegion (completed m d head n)
  completed-IsRegion = omega (arith, completed-len, h.region)

  other_read :
      (b : ℕ)
      → used_idx layout + 2 ≤ b
      → b + 4 ≤ len m
      → (b + 4 ≤ id_at) ⊎ (len_at + 4 ≤ b)
      → read_u32 (completed m d head n) b ≡ read_u32 m b
  other_read b lo hi apart =
      read_u32_ok (completed m d head n) b completed-IsRegion (omega (arith, completed-len))
      ∙ (ap ok (completed_other b lo apart) ∙ sym (read_u32_ok m b h.region hi))

-- An entry of the used ring is in this slot, or keeps its id and its length.
other_slots :
    (w : World) (head n : ℕ) (h : HasRings w.dev.layout w.memory) (i : ℕ)
    → let m' = completed w.memory w.dev head n in
      let other = used_slot w.dev.layout i in
      (i % w.dev.layout.queue_size ≡ w.dev.next_used % w.dev.layout.queue_size)
      ⊎ ((read_u32 m' other.0 ≡ read_u32 w.memory other.0)
          × (read_u32 m' other.1 ≡ read_u32 w.memory other.1))
other_slots w head n h i =
    let m = w.memory in
    let d = w.dev in
    let l = w.dev.layout in
    let there = used_slot_lem h.placed i in
    let here = used_slot_lem h.placed d.next_used in
    let idx = used_idx_lem h.placed in
    let below : i % l.queue_size < l.queue_size = omega (arith, h.placed.size_pos) in
    let cases : (i % l.queue_size ≡ d.next_used % l.queue_size)
        ⊎ (i % l.queue_size ≢ d.next_used % l.queue_size) =
      omega arith in
    elim cases [
      | inl same ↦ inl same
      | inr ne ↦ inr (
        other_read m d h head n (used_slot l i).0 (omega (arith, there, idx))
            (omega (arith, there, h.inside)) (omega (arith, there, here)),
        other_read m d h head n (used_slot l i).1 (omega (arith, there, idx))
            (omega (arith, there, h.inside)) (omega (arith, there, here)),
      )
    ]

-- A completion of the chain `head` with `n` bytes succeeds, and the driver can read it: the slot of
-- the old used index holds `head` and `n`, the used index is one more (modulo 2^16), and the slots
-- of all other entries of the ring are as they were. The batch grows by one, and the device's
-- position in the available ring does not move.
pub add_used_publishes :
    (w : World) (head n : ℕ)
    → HasRings w.dev.layout w.memory
    → head < u16_mod
    → n < u32_mod
    → let slot = used_slot w.dev.layout w.dev.next_used in
      let next = add16 w.dev.next_used 1 in
      (w' : World) × (add_used head n w ≡ (ok tt, w'))
      × (w'.dev ≡ record w.dev { next_used = next; num_added = add16 w.dev.num_added 1 })
      × (read_u32 w'.memory slot.0 ≡ ok head)
      × (read_u32 w'.memory slot.1 ≡ ok n)
      × (read_u16 w'.memory (used_idx w.dev.layout) ≡ ok next)
      × ((i : ℕ)
          → let other = used_slot w.dev.layout i in
            (i % w.dev.layout.queue_size ≡ w.dev.next_used % w.dev.layout.queue_size)
            ⊎ ((read_u32 w'.memory other.0 ≡ read_u32 w.memory other.0)
                × (read_u32 w'.memory other.1 ≡ read_u32 w.memory other.1)))
add_used_publishes w head n h small_id small_len =
    let m = w.memory in
    let d = w.dev in
    let l = w.dev.layout in
    let m' = completed m d head n in
    let r' = completed-IsRegion m d h head n in
    let e = completed-len m d h head n in
    let at = slot_order m d h head n in
    (
      completes w head n,
      add_used_lem w h head n,
      refl,
      read_u32_ok m' (used_slot l d.next_used).0 r' (omega (arith, at, e))
          ∙ ap ok (completed_id m d h head n ∙ omega arith),
      read_u32_ok m' (used_slot l d.next_used).1 r' (omega (arith, at, e))
          ∙ ap ok (completed_len m d h head n small_len),
      read_u16_ok m' (used_idx l) r' (omega (arith, at, e)) ∙ ap ok (completed_index m d h head n),
      other_slots w head n h,
    )
