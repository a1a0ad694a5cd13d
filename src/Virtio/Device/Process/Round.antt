-- ===== src/Virtio/Device/Process/Round.antt =====
-- One round of `process`: the chain that was popped is completed, whatever it holds.
use systems_study.Prelude.{ℕ, ◌+◌, ◌%◌, ◌≡◌, arith, inr, ◌∙◌, List, [], ◌∷◌, ◌++◌, length}
use systems_study.Prelude.Result.{ok}
use systems_study.Prelude.Word.{add16, add64, u64_mod, to_le_bytes, from_le_bytes-u16}
use systems_study.Virtio.Mem.{SharedMem}
use systems_study.Virtio.Mem.Access.{peek, poke, len-poke, peek-poke_self}
use systems_study.Virtio.Layout.{used_slot, used_idx}
use systems_study.Virtio.Layout.Placement.{used_slot_lem, used_idx_lem}
use systems_study.Virtio.Chain.{ChainError, Gathered}
use systems_study.Virtio.Device.{Device, World}
use systems_study.Virtio.Device.Calls.{HasRings, completed, completes, add_used_lem}
use systems_study.Virtio.Device.Frozen.{Frozen, Frozen-trans, Frozen-poke}
use systems_study.Virtio.Device.Process.Entries.{OneEntry}
use systems_study.Virtio.Device.Process.{
  RejectReason, chain, ProcessStats, Scatter, scatter, gather_request, refuse, answer,
}

-- A completion writes into the used ring alone, and its index is the device's.
module _ (m : SharedMem) (d : Device) (h : HasRings d.layout m) (head n : ℕ) where
  open d use {layout, next_used}

  pub completed-Frozen : Frozen layout.desc_table layout.used_ring m (completed m d head n)
  completed-Frozen =
      let at = used_slot_lem h.placed next_used in
      let m1 = poke m (used_slot layout next_used).0 (to_le_bytes 4 head) in
      let m2 = poke m1 (used_slot layout next_used).1 (to_le_bytes 4 n) in
      Frozen-trans
        (Frozen-trans
          (Frozen-poke layout.desc_table layout.used_ring m (used_slot layout next_used).0
            (to_le_bytes 4 head) (inr (omega (arith, at.0))))
          (Frozen-poke layout.desc_table layout.used_ring m1 (used_slot layout next_used).1
            (to_le_bytes 4 n) (inr (omega (arith, at.1)))))
        (Frozen-poke layout.desc_table layout.used_ring m2 (used_idx layout)
          (to_le_bytes 2 (add16 next_used 1)) (inr (omega (arith, used_idx_lem h.placed))))

  pub completed_index : peek 2 (completed m d head n) (used_idx layout) ≡ add16 next_used 1
  completed_index =
      let m1 = poke m (used_slot layout next_used).0 (to_le_bytes 4 head) in
      let m2 = poke m1 (used_slot layout next_used).1 (to_le_bytes 4 n) in
      let e1 = len-poke m (used_slot layout next_used).0 (to_le_bytes 4 head) in
      let e2 = len-poke m1 (used_slot layout next_used).1 (to_le_bytes 4 n) in
      peek-poke_self 2 m2 (used_idx layout) (add16 next_used 1)
        (omega (arith, used_idx_lem h.placed, h.inside, e1, e2))
      ∙ from_le_bytes-u16 (add16 next_used 1) (omega arith)

-- What one round on the chain `head` has done to the world and the counters; `before` are the
-- counters before it.
pub record Served (w : World) (head : ℕ) (before stats : ProcessStats) (w' : World) : Type 0 where
  pub dev :
      w'.dev
      ≡ record w.dev { next_used = add16 w.dev.next_used 1; num_added = add16 w.dev.num_added 1 }
  pub frozen : Frozen w.dev.layout.desc_table w.dev.layout.used_ring w.memory w'.memory
  pub index : peek 2 w'.memory (used_idx w.dev.layout) ≡ add16 w.dev.next_used 1
  pub counted : stats.chains ≡ add64 before.chains 1
  pub size : ℕ
  pub entry : OneEntry w.dev.layout w.dev.next_used head size w.memory w'.memory
  pub wrote : stats.bytes_written % u64_mod ≡ (before.bytes_written + size) % u64_mod

module _ {C : Type 0} (work : C → List ℕ → List ℕ × C) where
  abbrev pub refused : ℕ → ChainError → ProcessStats → ProcessStats
  refused head e stats = record stats {
    chains = add64 stats.chains 1;
    rejected = stats.rejected ++ (head, chain e) ∷ [];
  }

  pub refuse_lem :
      (head : ℕ) (e : ChainError) (stats : ProcessStats) (c : C) (w : World)
      → HasRings w.dev.layout w.memory
      → refuse work head e stats c w ≡ (ok (refused head e stats, c), completes w head 0)
  unfolding refuse
  refuse_lem head e stats c w h = rw (add_used_lem w h head 0)

  abbrev pub requested : ℕ → Gathered → ProcessStats → World → List ℕ × List (ℕ × RejectReason)
  requested head g stats w = gather_request w.memory head g.readable [] stats.rejected

  abbrev pub scattered : ℕ → Gathered → ProcessStats → C → World → Scatter
  scattered head g stats c w =
      scatter head (work c (requested head g stats w).0).0 g.writable record {
        memory = w.memory;
        cursor = 0;
        written = 0;
        rejected = (requested head g stats w).1;
      }

  abbrev pub answered : ℕ → Gathered → ProcessStats → C → World → ProcessStats
  answered head g stats c w =
      let s = scattered head g stats c w in
      record stats {
        chains = add64 stats.chains 1;
        bytes_read = add64 stats.bytes_read (length (requested head g stats w).0);
        bytes_written = add64 stats.bytes_written s.written;
        rejected = s.rejected;
      }

  abbrev pub written_to : ℕ → Gathered → ProcessStats → C → World → World
  written_to head g stats c w = record w { memory = (scattered head g stats c w).memory }

  pub answer_lem :
      (head : ℕ) (g : Gathered) (stats : ProcessStats) (c : C) (w : World)
      → HasRings w.dev.layout (scattered head g stats c w).memory
      → answer work head g stats c w ≡ (
        ok (answered head g stats c w, (work c (requested head g stats w).0).1),
        completes (written_to head g stats c w) head (scattered head g stats c w).written,
      )
  unfolding answer
  answer_lem head g stats c w h =
      rw (add_used_lem (written_to head g stats c w) h head (scattered head g stats c w).written)
