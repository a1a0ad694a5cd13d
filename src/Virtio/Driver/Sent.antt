-- ===== src/Virtio/Driver/Sent.antt =====
-- What a successful call of `add_chain` leaves: a chain in the table, and its head in its slot.
use systems_study.Prelude.{
  ℕ, ◌+◌, ◌≤◌, ◌<◌, ◌≡◌, arith, true, false, ltb, some, List, [], ◌∷◌, length, ◌⊎◌,
}
use systems_study.Prelude.Result.{ok}
use systems_study.Prelude.Word.{add16}
use systems_study.Virtio.Mem.{SharedMem, slice}
use systems_study.Virtio.Layout.{Descriptor}
use systems_study.Virtio.Chain.Legal.{Linked}
use systems_study.Virtio.Device.Calls.{HasRings}
use systems_study.Virtio.Driver.{Buffer, Driver, World, insert}
use systems_study.Virtio.Driver.Send.{readable_first, pop_indices, chain_up, add_chain}
use systems_study.Virtio.Driver.Pool.{pop_indices-count, pop_indices_enough}
use systems_study.Virtio.Driver.Owned.{IsOwned}
use systems_study.Virtio.Driver.Indices.{counted-AreIndices, pigeonhole, taken-counted}
use systems_study.Virtio.Driver.Table.{AreWords, AllDescribe, HasRings-len}
use systems_study.Virtio.Driver.Links.{write_descriptors_lem}
use systems_study.Virtio.Driver.Publish.{published, publish_lem}

-- The driver after `add_chain`.
abbrev pub sent : Driver → List ℕ → List ℕ → ℕ → Driver
sent d taken left head = record d {
  free_descs = left;
  outstanding = insert head taken d.outstanding;
  avail_idx = add16 d.avail_idx 1;
}

-- What a successful call leaves: the chain in the table, and its head in the slot.
abbrev pub Sent : World → List Buffer → Type 0
Sent w bs =
    (head : ℕ) × (taken : List ℕ) × (left : List ℕ) × (m : SharedMem) × (ds : List Descriptor)
    × (add_chain bs w ≡ (
      ok head,
      record {
        drv = sent w.drv taken left head;
        memory = published w.drv.layout m w.drv.avail_idx head;
      },
    ))
    × (head < w.drv.layout.queue_size)
    × HasRings w.drv.layout m
    × Linked m w.drv.layout head ds
    × AllDescribe ds bs
    × (length bs ≤ w.drv.layout.queue_size)
    × ((a n : ℕ)
        → (a + n ≤ w.drv.layout.desc_table) ⊎ (w.drv.layout.used_ring ≤ a)
        → slice a n m.buf ≡ slice a n w.memory.buf)

chain_up_lem :
    (w : World) (b : Buffer) (bs : List Buffer) (i : ℕ) (is left : List ℕ)
    → IsOwned w.drv
    → HasRings w.drv.layout w.memory
    → AreWords (b ∷ bs)
    → readable_first (b ∷ bs) ≡ true
    → length (b ∷ bs) ≤ length w.drv.free_descs
    → pop_indices (length (b ∷ bs)) w.drv.free_descs ≡ some (i ∷ is, left)
    → Sent w (b ∷ bs)
unfolding add_chain chain_up
chain_up_lem w b bs i is left owned h words order room popped =
    let q = w.drv.layout.queue_size in
    let counted = taken-counted w.drv (length (b ∷ bs)) (i ∷ is) left owned popped in
    let indices = counted-AreIndices q (i ∷ is) counted in
    let size = (pop_indices-count (length (b ∷ bs)) w.drv.free_descs (i ∷ is) left 0 popped).1 in
    let fits = pigeonhole q (i ∷ is) counted in
    let w1 = record w {
      drv = record w.drv { free_descs = left; outstanding = insert i (i ∷ is) w.drv.outstanding };
    } in
    let (m, ds, done, rest, linked, describe) =
      write_descriptors_lem w1 i is b bs h indices (omega arith) words in
    let rings : HasRings w.drv.layout m = HasRings-len rest.length_kept h in
    let enough : ltb (length w.drv.free_descs) (length (b ∷ bs)) ≡ false = ground arith in
    (
      i,
      i ∷ is,
      left,
      m,
      ds,
      rw (enough, order)
          (rw popped (rw done (rw (publish_lem (record w1 { memory = m }) i rings)))),
      indices.0,
      rings,
      linked,
      describe,
      omega arith,
      (λ a n apart.
          (rest.outside a (a + n) (omega (arith, h.placed.avail_second, h.placed.desc_first))).same
            a n (omega arith) (omega arith)),
    )

-- With descriptors enough, every step of `add_chain` succeeds.
pub add_chain-Sent :
    (w : World) (b : Buffer) (bs : List Buffer)
    → IsOwned w.drv
    → HasRings w.drv.layout w.memory
    → AreWords (b ∷ bs)
    → readable_first (b ∷ bs) ≡ true
    → length (b ∷ bs) ≤ length w.drv.free_descs
    → Sent w (b ∷ bs)
add_chain-Sent w b bs owned h words order room =
    let (r, popped) = pop_indices_enough (length (b ∷ bs)) w.drv.free_descs room in
    some_index r.0 r.1 popped
  where
    some_index :
        (taken left : List ℕ)
        → pop_indices (length (b ∷ bs)) w.drv.free_descs ≡ some (taken, left)
        → Sent w (b ∷ bs)
    some_index [] left popped =
        absurd
          (omega (arith, (pop_indices-count (length (b ∷ bs)) w.drv.free_descs [] left 0 popped).1))
    some_index (i ∷ is) left popped = chain_up_lem w b bs i is left owned h words order room popped
