-- ===== src/Virtio/Device/Process/Complete.antt =====
-- `process`, stated by the calls around it.
use systems_study.Prelude.{◌⊎◌, ℕ, ◌%◌, ◌+◌, ◌≤◌, ◌<◌, ◌≡◌, none}
use systems_study.Prelude.Result.{ok}
use systems_study.Prelude.Word.{add16, u64_mod}
use systems_study.Virtio.Mem.{SharedMem, read_u16, read_slice}
use systems_study.Virtio.Layout.{used_idx}
use systems_study.Virtio.Device.{Device, World, pop_chain_head}
use systems_study.Virtio.Device.Process.{ProcessStats}
use systems_study.Virtio.Device.Process.Entries.{Leaves, HasHeads, lengths}

-- The device after `n` completions.
abbrev pub after_completions : Device → ℕ → Device
after_completions d n = record d {
  next_avail = add16 d.next_avail n;
  next_used = add16 d.next_used n;
  num_added = add16 d.num_added n;
}

-- The used ring holds the `n` heads of the available ring in their order, from the device's
-- counters on, and the lengths beside them are the bytes the device wrote.
pub record Completed (d : Device) (n : ℕ) (stats : ProcessStats) (m m' : SharedMem) : Type 0 where
  pub heads : HasHeads d.layout d.next_used d.next_avail n m m'
  pub written : stats.bytes_written % u64_mod ≡ lengths d.layout m' d.next_used n % u64_mod

-- What a finished call of `process` on a queue of `n` available chains leaves.
pub record Finished (w : World) (n : ℕ) (stats : ProcessStats) (w' : World) : Type 0 where
  pub dev : w'.dev ≡ after_completions w.dev n
  pub chains : stats.chains ≡ n
  pub empty : pop_chain_head w' ≡ (ok none, w')
  pub published :
      (n ≡ 0) ⊎ (read_u16 w'.memory (used_idx w.dev.layout) ≡ ok (add16 w.dev.next_used n))
  pub kept :
      (a k : ℕ)
      → w.dev.layout.desc_table ≤ a
      → a + k ≤ w.dev.layout.used_ring
      → read_slice w'.memory a k ≡ read_slice w.memory a k
  pub others : Leaves w.dev.layout w.dev.next_used n w.memory w'.memory
  pub entries : (w.dev.layout.queue_size < n) ⊎ Completed w.dev n stats w.memory w'.memory
