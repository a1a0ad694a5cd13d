-- ===== src/Virtio/Layout/Tests.antt =====
-- Runs of layout.rs, and its theorems at the sizes and counters of its own tests.
use systems_study.Prelude.{
  ℕ, ◌+◌, ◌*◌, ◌%◌, ◌≤◌, ◌<◌, ◌≡◌, ◌≢◌, ◌↔◌, ◌⊎◌, refl, arith, true, false, none, some,
}
use systems_study.Prelude.Word.{add16}
use systems_study.Virtio.Layout.{
  VirtqLayout, new, is_power_of_two, total_size, end, avail_slot, used_slot, used_event,
  avail_event, need_event,
}
use systems_study.Virtio.Layout.Placement.{IsPlaced, new-IsPlaced}
use systems_study.Virtio.Layout.Slots.{slots_apart}
use systems_study.Virtio.Layout.Event.{need_event_iff}

-- Eight entries from a misaligned base.
abbrev eight : VirtqLayout
eight = record { queue_size = 8; desc_table = 16; avail_ring = 144; used_ring = 168 }

new-eight : new 3 8 ≡ some eight
unfolding new is_power_of_two
new-eight = refl

new_six : new 3 6 ≡ none
unfolding new is_power_of_two
new_six = refl

batch_steps_over : need_event 100 106 100 ≡ true
unfolding need_event
batch_steps_over = refl

wraps : (need_event 0xffff 0 0xffff ≡ true) × (need_event 2 1 0 ≡ false)
unfolding need_event
wraps = (refl, refl)

eight-IsPlaced : IsPlaced eight
eight-IsPlaced = (new-IsPlaced 3 8 eight (omega arith) new-eight).0

need_event_iff_example : (need_event 0 2 0xfffe ≡ true) ↔ ((j : ℕ) × (j < 4) × (0 ≡ add16 0xfffe j))
need_event_iff_example = need_event_iff 0 0xfffe 4 (omega arith) (omega arith) (omega arith)

slots_apart_example :
    (((◌≡◌ {A = ℕ} (3 % 8) (12 % 8))
        × (avail_slot eight 3 ≡ avail_slot eight 12)
        × ((used_slot eight 3).0 ≡ (used_slot eight 12).0))
      ⊎ ((◌≢◌ {A = ℕ} (3 % 8) (12 % 8))
          × ((avail_slot eight 3 + 2 ≤ avail_slot eight 12)
              ⊎ (avail_slot eight 12 + 2 ≤ avail_slot eight 3))
          × (((used_slot eight 3).0 + 8 ≤ (used_slot eight 12).0)
              ⊎ ((used_slot eight 12).0 + 8 ≤ (used_slot eight 3).0))))
    × (144 + 4 ≤ avail_slot eight 3)
    × (avail_slot eight 3 + 2 ≤ used_event eight)
    × (168 + 4 ≤ (used_slot eight 3).0)
    × ((used_slot eight 3).1 + 4 ≤ avail_event eight)
slots_apart_example = slots_apart eight 3 12 eight-IsPlaced

new-IsPlaced_example :
    IsPlaced eight
    × (◌≡◌ {A = ℕ} 8 8)
    × (3 ≤ 16)
    × (16 < 3 + 16)
    × (end eight ≡ 168 + 6 + 8 * 8)
    × (total_size eight ≤ 26 * 8 + 14)
new-IsPlaced_example = new-IsPlaced 3 8 eight (omega arith) new-eight
