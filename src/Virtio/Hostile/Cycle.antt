-- ===== src/Virtio/Hostile/Cycle.antt =====
-- The cases of `hostile_chains` that write a cycle, in any region and on any placed rings.
use systems_study.Prelude.{
  ℕ, ◌+◌, ◌*◌, ◌≤◌, ◌<◌, ◌≡◌, refl, ap, sym, ◌∙◌, ◌⊎◌, inl, inr, arith, true, some, List,
}
use mathlib.Core.Path.{subst}
use systems_study.Virtio.Mem.{SharedMem, len}
use systems_study.Virtio.Layout.{Descriptor, VirtqLayout, has_next, virtq_desc_f_next}
use systems_study.Virtio.Layout.Placement.{desc_lem}
use systems_study.Virtio.Chain.Entry.{entry}
use systems_study.Virtio.Chain.Legal.{EntryAt}
use systems_study.Virtio.Device.{Device}
use systems_study.Virtio.Device.Calls.{HasRings}
use systems_study.Virtio.Device.Process.{ProcessStats}
use systems_study.Virtio.Driver.Write.{written, len-written, peek_flags, peek_next, four_writes}
use systems_study.Virtio.Driver.Table.{EntryAt-entry, HasRings-len, entry-Frozen, written-Rest}
use systems_study.Virtio.Hostile.{write_desc, self_reference, two_cycle}
use systems_study.Virtio.Hostile.Endless.{IsEndless, Refused, endless-Refused}

write_desc_lem :
    (l : VirtqLayout) (i addr n flags next : ℕ) (m : SharedMem)
    → HasRings l m
    → i < l.queue_size
    → write_desc l i addr n flags next m
      ≡ some (written m (l.desc_table + 16 * i) addr n flags next)
unfolding write_desc
write_desc_lem l i addr n flags next m h inside =
    let at = l.desc_table + 16 * i in
    let p = h.placed in
    let room : at + 16 ≤ len m = omega (arith, h.inside, p.desc_first, p.avail_second, inside) in
    let f = four_writes m at addr n flags next h.region room in
    rw (desc_lem p i inside, f.addr_ok, f.len_ok, f.flags_ok, f.next_ok) refl

-- Entry `i` has a next, `j`.
abbrev Points : VirtqLayout → SharedMem → ℕ → ℕ → Type 0
Points l m i j = (d : Descriptor) × EntryAt m l i d × (has_next d ≡ true) × (d.next ≡ j)

flagged : (d : Descriptor) → d.flags ≡ virtq_desc_f_next → has_next d ≡ true
unfolding has_next
flagged d e = rw e refl

points :
    (l : VirtqLayout) (m : SharedMem) (i j : ℕ)
    → HasRings l m
    → i < l.queue_size
    → (entry m (l.desc_table + 16 * i)).flags ≡ virtq_desc_f_next
    → (entry m (l.desc_table + 16 * i)).next ≡ j
    → Points l m i j
points l m i j h inside f n =
    let d = entry m (l.desc_table + 16 * i) in (d, EntryAt-entry l m i h inside, flagged d f, n)

-- After the write of a descriptor with a next.
module _ (l : VirtqLayout) (m : SharedMem) (i addr n j : ℕ) (h : HasRings l m)
    (inside : i < l.queue_size) (small : j < 65536) where
  abbrev after : SharedMem
  after = written m (l.desc_table + 16 * i) addr n virtq_desc_f_next j

  after-HasRings : HasRings l after
  after-HasRings = HasRings-len (len-written m (l.desc_table + 16 * i) addr n virtq_desc_f_next j) h

  room : l.desc_table + 16 * i + 16 ≤ len m
  room = omega (arith, h.inside, h.placed.desc_first, h.placed.avail_second, inside)

  flags_after : (entry after (l.desc_table + 16 * i)).flags ≡ virtq_desc_f_next
  flags_after = peek_flags m (l.desc_table + 16 * i) addr n virtq_desc_f_next j room (omega arith)

  next_after : (entry after (l.desc_table + 16 * i)).next ≡ j
  next_after = peek_next m (l.desc_table + 16 * i) addr n virtq_desc_f_next j room small

  Points-after : Points l after i j
  Points-after = points l after i j after-HasRings inside flags_after next_after

-- A set of one entry.
self-IsEndless : (l : VirtqLayout) (m : SharedMem) → Points l m 0 0 → IsEndless m l (λ i. i ≡ 0)
self-IsEndless l m (d, at, goes, n) i e =
    (d, subst (λ (k : ℕ). EntryAt m l k d) (sym e) at, goes, n)

pair-IsEndless :
    (l : VirtqLayout) (m : SharedMem)
    → Points l m 0 1
    → Points l m 1 0
    → IsEndless m l (λ i. (i ≡ 0) ⊎ (i ≡ 1))
pair-IsEndless l m (d, at, goes, n) q i (inl e) =
    (d, subst (λ (k : ℕ). EntryAt m l k d) (sym e) at, goes, inr n)
pair-IsEndless l m p (d, at, goes, n) i (inr e) =
    (d, subst (λ (k : ℕ). EntryAt m l k d) (sym e) at, goes, inl n)

module _ {C : Type 0} (work : C → List ℕ → List ℕ × C) (stats : ProcessStats) (c : C) (dev : Device)
    (m : SharedMem) (h : HasRings dev.layout m) where
  -- On placed rings in any region, the first case of `hostile_chains` writes its descriptor without a
  -- panic, and the round of `process` that takes entry 0 as a chain refuses it, for every closure.
  pub self_reference-Refused :
      (m' : SharedMem) × (self_reference dev.layout m ≡ some m')
      × Refused work 0 stats c (record { dev = dev; memory = m' })
  unfolding self_reference
  self_reference-Refused =
      let l = dev.layout in
      let m1 = after l m 0 0x2000 16 0 h h.placed.size_pos (omega arith) in
      (
        m1,
        write_desc_lem l 0 0x2000 16 virtq_desc_f_next 0 m h h.placed.size_pos,
        endless-Refused work (λ i. i ≡ 0) 0 stats c (record { dev = dev; memory = m1 })
            (after-HasRings l m 0 0x2000 16 0 h h.placed.size_pos (omega arith))
            (self-IsEndless l m1 (Points-after l m 0 0x2000 16 0 h h.placed.size_pos (omega arith)))
            refl,
      )

  -- With two entries at least, the second case writes its two descriptors without a panic, and the
  -- round of `process` that takes entry 0 as a chain refuses the cycle, for every closure.
  pub two_cycle-Refused :
      1 < dev.layout.queue_size
      → (m' : SharedMem) × (two_cycle dev.layout m ≡ some m')
        × Refused work 0 stats c (record { dev = dev; memory = m' })
  unfolding two_cycle
  two_cycle-Refused two =
      let l = dev.layout in
      let pos : 0 < l.queue_size = omega arith in
      let m1 = after l m 0 0x2000 16 1 h pos (omega arith) in
      let h1 : HasRings l m1 = after-HasRings l m 0 0x2000 16 1 h pos (omega arith) in
      let m2 = after l m1 1 0x2000 16 0 h1 two (omega arith) in
      let h2 : HasRings l m2 = after-HasRings l m1 1 0x2000 16 0 h1 two (omega arith) in
      let kept : entry m2 (l.desc_table + 16 * 0) ≡ entry m1 (l.desc_table + 16 * 0) =
        entry-Frozen m1 m2 (l.desc_table + 16 * 0)
          ((written-Rest l m1 1 0x2000 16 virtq_desc_f_next 0 two).others 0 refl) in
      let zeroth : Points l m2 0 1 =
        points l m2 0 1 h2 pos
          (ap (λ (d : Descriptor). d.flags) kept
            ∙ flags_after l m 0 0x2000 16 1 h pos (omega arith))
          (ap (λ (d : Descriptor). d.next) kept
            ∙ next_after l m 0 0x2000 16 1 h pos (omega arith)) in
      (
        m2,
        rw (write_desc_lem l 0 0x2000 16 virtq_desc_f_next 1 m h pos)
            (write_desc_lem l 1 0x2000 16 virtq_desc_f_next 0 m1 h1 two),
        endless-Refused work (λ i. (i ≡ 0) ⊎ (i ≡ 1)) 0 stats c (record { dev = dev; memory = m2 })
            h2 (pair-IsEndless l m2 zeroth (Points-after l m1 1 0x2000 16 0 h1 two (omega arith)))
            (inl refl),
      )
