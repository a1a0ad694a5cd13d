-- ===== src/Virtio/Driver/Tests.antt =====
-- A driver on the sample queue: its descriptors, its notifications, and `collect_used` across the
-- wrap of the 16-bit counter.
use systems_study.Prelude.{
  refl, ℕ, ◌+◌, ◌<◌, ◌⊎◌, ◌↔◌, Bool, ◌≡◌, arith, ◌∙◌, true, false, some, List, [], ◌∷◌,
}
use systems_study.Virtio.Layout.{Descriptor, has_next, is_write_only, is_indirect}
use systems_study.Virtio.Chain.Legal.{EntryAt}
use systems_study.Virtio.Driver.Write.{read_descriptor-write_descriptor}
use systems_study.Prelude.Result.{ok}
use systems_study.Prelude.Word.{add16, from_le_bytes}
use systems_study.Virtio.Mem.{read_u16, slice, load_idx_acquire}
use systems_study.Virtio.Mem.Access.{read_u16_ok}
use systems_study.Virtio.Layout.{used_idx, used_event, avail_event, need_event}
use systems_study.Virtio.Layout.Placement.{used_idx_lem, avail_event_lem}
use systems_study.Virtio.Sample.{two, sample, two-IsPlaced, sample-HasRings}
use systems_study.Virtio.Driver.{Buffer, World, new, collect_used, needs_kick, arm_used_event}
use systems_study.Virtio.Driver.Send.{write_descriptor, add_chain}
use systems_study.Virtio.Driver.Kick.{decided, needs_kick_lem, no_lost_interrupt}
use systems_study.Virtio.Driver.Owned.{
  IsOwned, new-IsOwned, add_chain-IsOwned, collect_used-IsOwned,
}
use systems_study.Virtio.Driver.Collect.{ReadTo, completions, collect_used_lem}

abbrev fresh : World
fresh = record { drv = new two 92 true; memory = sample }

abbrev buffers : List Buffer
buffers =
    record { addr = 72; len = 4; device_writable = false }
    ∷ record { addr = 80; len = 4; device_writable = true }
    ∷ []

add_chain-IsOwned_example : IsOwned (add_chain buffers fresh).1.drv
add_chain-IsOwned_example = add_chain-IsOwned buffers fresh (new-IsOwned two 92 true)

collect_used-IsOwned_example : IsOwned (collect_used 3 (add_chain buffers fresh).1).1.drv
collect_used-IsOwned_example =
    collect_used-IsOwned 3 (add_chain buffers fresh).1
      (add_chain-IsOwned buffers fresh (new-IsOwned two 92 true))

-- The driver has read up to the last value of the counter; one entry more is published.
abbrev behind : World
behind = record {
  drv = record {
    layout = two;
    avail_idx = 0;
    last_kick = 0;
    last_used = 65535;
    free_descs = [];
    outstanding = (0, 0 ∷ 1 ∷ []) ∷ [];
    arena = 80;
    arena_end = 92;
    event_idx = true;
  };
  memory = sample;
}

published : load_idx_acquire sample (used_idx two) ≡ ok 0
unfolding from_le_bytes slice
published =
    read_u16_ok sample (used_idx two) (omega arith) (omega (arith, used_idx_lem two-IsPlaced))
    ∙ rw (used_idx_lem two-IsPlaced)

collect_used_lem_example :
    (w' : World) × (collect_used 2 behind ≡ (ok (some (completions sample two 65535 1)), w'))
    × ReadTo behind w' 0
collect_used_lem_example =
    collect_used_lem 2 0 behind sample-HasRings (omega arith) (omega arith) published (omega arith)

-- The driver has published one chain since its last decision, and the device waits for it.
event_is_zero : read_u16 sample (avail_event two) ≡ ok 0
unfolding from_le_bytes slice
event_is_zero =
    read_u16_ok sample (avail_event two) (omega arith) (omega (arith, avail_event_lem two-IsPlaced))
    ∙ rw (avail_event_lem two-IsPlaced)

abbrev waiting : World
waiting = record behind { drv = record behind.drv { avail_idx = 1 } }

needs_kick_lem_example :
    ((true ≡ false) × (needs_kick waiting ≡ (ok true, decided waiting)))
    ⊎ ((true ≡ true)
        × (b : Bool) × (needs_kick waiting ≡ (ok b, decided waiting))
        × ((b ≡ true) ↔ ((j : ℕ) × (j < 1) × (0 ≡ add16 0 j))))
needs_kick_lem_example =
    needs_kick_lem waiting 0 1 (omega arith) (omega arith) refl (omega arith) event_is_zero

no_lost_interrupt_example :
    (w' : World) × (arm_used_event behind ≡ (ok tt, w'))
    × (w'.drv ≡ behind.drv)
    × (read_u16 w'.memory (used_event two) ≡ ok 65535)
    × (need_event 65535 (add16 65534 (1 + 2)) 65534 ≡ true)
no_lost_interrupt_example =
    no_lost_interrupt behind 65534 1 2 sample-HasRings (omega arith) (omega arith) refl
      (omega arith) (omega arith)

-- The first descriptor of a chain of two, in entry 0, with entry 1 to follow.
abbrev response_buffer : Buffer
response_buffer = record { addr = 80; len = 4; device_writable = true }

read_descriptor-write_descriptor_example :
    (w' : World) × (d : Descriptor) × (write_descriptor 0 (1 ∷ []) response_buffer false fresh
      ≡ (ok tt, w'))
    × (w'.drv ≡ fresh.drv)
    × EntryAt w'.memory fresh.drv.layout 0 d
    × (d.addr ≡ 80)
    × (d.len ≡ 4)
    × (d.next ≡ 1)
    × (has_next d ≡ true)
    × (is_write_only d ≡ true)
    × (is_indirect d ≡ false)
unfolding new
read_descriptor-write_descriptor_example =
    read_descriptor-write_descriptor fresh 0 1 (1 ∷ []) response_buffer false sample-HasRings
      (omega arith) (omega arith) (omega arith) refl (omega arith)
