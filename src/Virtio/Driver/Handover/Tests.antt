-- ===== src/Virtio/Driver/Handover/Tests.antt =====
-- An instance of the handover: two buffers through a queue of two entries.
use systems_study.Prelude.{
  ℕ, ◌+◌, ◌≤◌, ◌<◌, ◌≡◌, refl, arith, ◌⊎◌, inr, true, false, some, [], ◌∷◌, length,
}
use systems_study.Prelude.Result.{ok}
use systems_study.Prelude.Word.{add16, u16_mod}
use systems_study.Virtio.Mem.{slice}
use systems_study.Virtio.Sample.{two, sample, sample-HasRings}
use systems_study.Virtio.Chain.{collect}
use systems_study.Virtio.Device.{Device, pop_chain_head}
use systems_study.Virtio.Device.Calls.{HasRings}
use systems_study.Virtio.Driver.{Buffer, World, new}
use systems_study.Virtio.Driver.Send.{readable_first, add_chain}
use systems_study.Virtio.Driver.Owned.{new-IsOwned}
use systems_study.Virtio.Driver.Described.{request_of}
use systems_study.Virtio.Driver.Handover.{collect-add_chain}

abbrev fresh : World
fresh = record { drv = new two 92 true; memory = sample }

abbrev facing : Device
facing = record { layout = two; next_avail = 0; next_used = 0; num_added = 0; event_idx = true }

abbrev reads : Buffer
reads = record { addr = 72; len = 4; device_writable = false }

abbrev writes : Buffer
writes = record { addr = 80; len = 4; device_writable = true }

fresh-HasRings : HasRings fresh.drv.layout fresh.memory
unfolding new
fresh-HasRings = sample-HasRings

in_order : readable_first (reads ∷ writes ∷ []) ≡ true
unfolding readable_first
in_order = refl

enough : length (reads ∷ writes ∷ []) ≤ length fresh.drv.free_descs
unfolding new
enough = omega arith

same_layout : facing.layout ≡ fresh.drv.layout
unfolding new
same_layout = refl

same_index : facing.next_avail ≡ fresh.drv.avail_idx
unfolding new
same_index = refl

index_small : fresh.drv.avail_idx < u16_mod
unfolding new
index_small = omega arith

buffers_outside : (72 + 4 ≤ fresh.drv.layout.desc_table) ⊎ (fresh.drv.layout.used_ring ≤ 72)
unfolding new
buffers_outside = inr (omega arith)

collect-add_chain_example :
    (head : ℕ) × (w : World) × (add_chain (reads ∷ writes ∷ []) fresh ≡ (ok head, w))
    × (pop_chain_head (record { dev = facing; memory = w.memory }) ≡ (
      ok (some head),
      record { dev = record facing { next_avail = add16 0 1 }; memory = w.memory },
    ))
    × (collect w.memory two head ≡ some (request_of (reads ∷ writes ∷ [])))
    × (slice 72 4 w.memory.buf ≡ slice 72 4 sample.buf)
collect-add_chain_example =
    collect-add_chain fresh facing reads (writes ∷ []) 72 4 (new-IsOwned two 92 true) fresh-HasRings
      ((omega arith), (omega arith), (omega arith, omega arith, tt)) in_order enough (omega arith)
      same_layout same_index index_small buffers_outside
