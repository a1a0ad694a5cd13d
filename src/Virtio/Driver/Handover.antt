-- ===== src/Virtio/Driver/Handover.antt =====
-- From the driver to the device: the chain that `add_chain` publishes is the one that the device
-- takes and collects.
mod Tests
use systems_study.Prelude.{
  ℕ, zero, suc, ◌+◌, ◌*◌, ◌≤◌, ◌<◌, ◌≡◌, refl, ap, sym, ◌∙◌, arith, Bool, true, false, ltb, ◌==◌,
  if◌then◌else◌, Option, none, some, List, [], ◌∷◌, length, Bool-cases, inl, inr, ◌≢◌, ◌⊎◌,
}
use mathlib.Core.Path.{subst}
use native.Mathlib.Decide.{dec_lt}
use systems_study.Prelude.Result.{ok, ◌>>=◌, ◌>>◌}
use systems_study.Prelude.Word.{add16, sub16, u16_mod, u32_mod}
use systems_study.Virtio.Mem.{SharedMem, len, slice}
use systems_study.Virtio.Mem.Access.{IsRegion, peek}
use systems_study.Virtio.Layout.{Descriptor, VirtqLayout, avail_slot, avail_idx}
use systems_study.Virtio.Chain.{Gathered, collect, read_descriptor}
use systems_study.Virtio.Chain.Entry.{entry, read_descriptor_ok}
use systems_study.Virtio.Layout.Placement.{desc_lem, desc_out}
use systems_study.Virtio.Chain.Legal.{EntryAt, Linked, last, link}
use systems_study.Virtio.Chain.Accept.{gathered, collect_legal}
use systems_study.Virtio.Device.{Device, World as Queue, pop_chain_head}
use systems_study.Virtio.Device.Calls.{HasRings, pop_some}
use systems_study.Virtio.Device.Frozen.{Frozen, Frozen-mono}
use systems_study.Virtio.Driver.{Buffer, Driver, World, insert}
use systems_study.Virtio.Driver.Send.{
  readable_first, pop_indices, first?, write_descriptors, publish, chain_up, add_chain,
}
use systems_study.Virtio.Driver.Pool.{count, pop_indices-count, pop_indices_enough}
use systems_study.Virtio.Driver.Owned.{IsOwned}
use systems_study.Virtio.Driver.Indices.{counted-AreIndices, pigeonhole, taken-counted}
use systems_study.Virtio.Driver.Table.{
  AreIndices, AreWords, AllDescribe, Rest, HasRings-len, EntryAt-entry, entry-Frozen,
}
use systems_study.Virtio.Driver.Described.{claimed, request_of, described-IsLegal}
use systems_study.Virtio.Driver.Links.{Links, write_descriptors_lem}
use systems_study.Virtio.Driver.Sent.{Sent, sent, add_chain-Sent}
use systems_study.Virtio.Driver.Publish.{
  published, len-published, published_lem, published-Frozen, published-outside, publish_lem,
}

module _ (l : VirtqLayout) (m m' : SharedMem) (h : HasRings l m)
    (f : Frozen l.desc_table (l.desc_table + 16 * l.queue_size) m m') where
  EntryAt-kept : (i : ℕ) (d : Descriptor) → EntryAt m l i d → EntryAt m' l i d
  EntryAt-kept i d (at, e, r) = elim (dec_lt i l.queue_size) [
    | no out ↦ absurd (ground (arith, desc_out h.placed i))
    | yes inside ↦
        let p = h.placed in
        let place : at ≡ l.desc_table + 16 * i = ground (arith, desc_lem p i inside) in
        let same : entry m' at ≡ entry m at =
          entry-Frozen m m' at (Frozen-mono f (omega arith) (omega arith)) in
        let region : IsRegion m' = omega (arith, f.same_len, h.region) in
        let room : at + 16 ≤ len m = omega (arith, h.inside, p.desc_first, p.avail_second) in
        (
          at,
          e,
          read_descriptor_ok m' at region (omega (arith, f.same_len))
              ∙ ap ok same
              ∙ sym (read_descriptor_ok m at h.region room)
              ∙ r,
        )
  ]

  Linked-kept : {i : ℕ} {ds : List Descriptor} → Linked m l i ds → Linked m' l i ds
  Linked-kept (last i d at e) = last i d (EntryAt-kept i d at) e
  Linked-kept (link i d ds at e rest) = link i d ds (EntryAt-kept i d at) e (Linked-kept rest)

-- A device that has taken all earlier chains finds the new one.
pop-published :
    (dev : Device) (l : VirtqLayout) (m : SharedMem) (idx head : ℕ)
    → HasRings l m
    → dev.layout ≡ l
    → dev.next_avail ≡ idx
    → idx < u16_mod
    → head < u16_mod
    → pop_chain_head (record { dev = dev; memory = published l m idx head }) ≡ (
      ok (some head),
      record {
        dev = record dev { next_avail = add16 dev.next_avail 1 };
        memory = published l m idx head;
      },
    )
pop-published dev l m idx head h el en small small_head =
    let v : Queue = record { dev = dev; memory = published l m idx head } in
    let (slot, at) = published_lem l m idx head h small_head in
    let rings : HasRings dev.layout v.memory =
      rw el (HasRings-len (len-published l m idx head h) h) in
    let found : peek 2 v.memory (avail_slot dev.layout dev.next_avail) ≡ head = rw (el, en) slot in
    let now : peek 2 v.memory (avail_idx dev.layout) ≡ add16 idx 1 = rw el at in
    pop_some v rings (omega (arith, now, en))
    ∙ ap
        (λ (x : ℕ).
          (ok (some x), record v { dev = record dev { next_avail = add16 dev.next_avail 1 } }))
        found

-- The driver and the device agree on a chain. Where the free list has a descriptor for each buffer,
-- and the buffers, at least one, have addresses and lengths of their widths that come to less than
-- 2^32 bytes, the readable ones first, `add_chain` returns a head without an error; a device on the
-- same rings that has taken all earlier chains then takes exactly this head, and collects exactly the
-- buffers, each in its direction and in order, with no fault found; and no byte outside the descriptor
-- table and the available ring has changed, so that the device reads what the driver put there.
pub collect-add_chain :
    (w : World) (dev : Device) (b : Buffer) (bs : List Buffer) (a n : ℕ)
    → IsOwned w.drv
    → HasRings w.drv.layout w.memory
    → AreWords (b ∷ bs)
    → readable_first (b ∷ bs) ≡ true
    → length (b ∷ bs) ≤ length w.drv.free_descs
    → claimed (b ∷ bs) < u32_mod
    → dev.layout ≡ w.drv.layout
    → dev.next_avail ≡ w.drv.avail_idx
    → w.drv.avail_idx < u16_mod
    → (a + n ≤ w.drv.layout.desc_table) ⊎ (w.drv.layout.used_ring ≤ a)
    → (head : ℕ) × (w' : World) × (add_chain (b ∷ bs) w ≡ (ok head, w'))
      × (pop_chain_head (record { dev = dev; memory = w'.memory }) ≡ (
        ok (some head),
        record { dev = record dev { next_avail = add16 dev.next_avail 1 }; memory = w'.memory },
      ))
      × (collect w'.memory dev.layout head ≡ some (request_of (b ∷ bs)))
      × (slice a n w'.memory.buf ≡ slice a n w.memory.buf)
collect-add_chain w dev b bs a n owned h words order room small el en idx apart =
    let l = w.drv.layout in
    let (head, taken, left, m, ds, done, inside, rings, linked, describe, fits, kept) =
      add_chain-Sent w b bs owned h words order room in
    let m' = published l m w.drv.avail_idx head in
    let (legal, same) = described-IsLegal l.queue_size ds (b ∷ bs) describe order fits small in
    let collected : collect m' l head ≡ some (request_of (b ∷ bs)) =
      collect_legal m' l head ds
        (Linked-kept l m m' rings (published-Frozen l m w.drv.avail_idx head rings) linked) legal
      ∙ ap some same in
    (
      head,
      record { drv = sent w.drv taken left head; memory = m' },
      done,
      pop-published dev l m w.drv.avail_idx head rings el en idx
          (omega (arith, h.placed.size_small)),
      rw el collected,
      (published-outside l m w.drv.avail_idx head rings a (a + n) apart).same a n (omega arith)
            (omega arith)
          ∙ kept a n apart,
    )
