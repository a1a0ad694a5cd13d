-- ===== src/Virtio/Device/Tests.antt =====
-- Notifications and a completion of a device that has taken the one chain of the sample queue.
use systems_study.Prelude.{◌⊎◌, ℕ, ◌+◌, ◌%◌, ◌<◌, ◌≡◌, ◌↔◌, refl, arith, ◌∙◌, ap, Bool, true, false}
use systems_study.Prelude.Result.{ok}
use systems_study.Prelude.Word.{add16, sub16, from_le_bytes}
use systems_study.Virtio.Mem.{slice, read_u16, read_u32}
use systems_study.Virtio.Mem.Access.{read_u16_ok}
use systems_study.Virtio.Layout.{used_slot, used_idx, used_event, avail_event, need_event}
use systems_study.Virtio.Layout.Placement.{avail_idx_lem, used_event_lem}
use systems_study.Virtio.Sample.{two, sample, two-IsPlaced, sample-HasRings}
use systems_study.Virtio.Device.{
  World, available, add_used, needs_notification, enable_notification,
}
use systems_study.Virtio.Device.Calls.{count, available_lem}
use systems_study.Virtio.Device.Notify.{
  reset, needs_notification_lem, enable_notification_lem, no_lost_kick,
}
use systems_study.Virtio.Device.Used.{add_used_publishes}

-- It has completed the chain, and has not asked yet whether to interrupt.
abbrev drained : World
drained = record {
  dev = record { layout = two; next_avail = 1; next_used = 1; num_added = 1; event_idx = true };
  memory = sample;
}

drained-count : count drained ≡ 0
unfolding from_le_bytes slice
drained-count = rw (avail_idx_lem two-IsPlaced)

drained-available : available drained ≡ (ok 0, drained)
drained-available =
    available_lem drained sample-HasRings ∙ ap (λ (n : ℕ). (ok n, drained)) drained-count

event_is_zero : read_u16 sample (used_event two) ≡ ok 0
unfolding from_le_bytes slice
event_is_zero =
    read_u16_ok sample (used_event two) (omega arith) (omega (arith, used_event_lem two-IsPlaced))
    ∙ rw (used_event_lem two-IsPlaced)

needs_notification_lem_example :
    ((true ≡ false) × (needs_notification drained ≡ (ok true, reset drained)))
    ⊎ ((true ≡ true)
        × (b : Bool) × (needs_notification drained ≡ (ok b, reset drained))
        × ((b ≡ true) ↔ ((j : ℕ) × (j < 1) × (0 ≡ add16 (sub16 1 1) j))))
needs_notification_lem_example =
    needs_notification_lem drained 0 (omega arith) (omega arith) (omega arith) event_is_zero

drained-idle : (enable_notification drained).0 ≡ ok false
drained-idle =
    let (w', run, _, _, _) =
      enable_notification_lem drained 0 sample-HasRings (omega arith) refl drained-available in
    ap (λ r. r.0) run

abbrev left : ℕ
left = 0

no_lost_kick_example :
    (left ≡ 0)
    × (event : ℕ) × (read_u16 (enable_notification drained).1.memory (avail_event two) ≡ ok event)
    × (need_event event (add16 0 (1 + 1)) 0 ≡ true)
no_lost_kick_example =
    no_lost_kick drained left 0 1 1 sample-HasRings (omega arith) refl drained-available
      drained-idle (omega arith) refl (omega arith) (omega arith)

add_used_publishes_example :
    let slot = used_slot two 1 in
    (w' : World) × (add_used 0 4 drained ≡ (ok tt, w'))
    × (w'.dev ≡ record drained.dev { next_used = 2; num_added = 2 })
    × (read_u32 w'.memory slot.0 ≡ ok 0)
    × (read_u32 w'.memory slot.1 ≡ ok 4)
    × (read_u16 w'.memory (used_idx two) ≡ ok 2)
    × ((i : ℕ)
        → let other = used_slot two i in
          (i % 2 ≡ 1 % 2)
          ⊎ ((read_u32 w'.memory other.0 ≡ read_u32 sample other.0)
              × (read_u32 w'.memory other.1 ≡ read_u32 sample other.1)))
add_used_publishes_example =
    add_used_publishes drained 0 4 sample-HasRings (omega arith) (omega arith)
