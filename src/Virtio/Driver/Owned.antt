-- ===== src/Virtio/Driver/Owned.antt =====
-- Who owns a descriptor: the free list or one outstanding chain, whatever the methods of
-- driver.rs meet, errors and a hostile device included.
use systems_study.Prelude.{
  ℕ, zero, suc, ◌+◌, ◌≤◌, ◌%◌, ◌≡◌, refl, arith, inl, inr, ap, Bool, ◌==◌, ltb, if◌then◌else◌,
  Option, none, some, List, [], ◌∷◌, ◌++◌, length, Bool-cases, Option-cases,
}
use mathlib.Core.List.{reverse}
use systems_study.Prelude.Result.{Result-cases, ◌>>◌, pure}
use systems_study.Prelude.Word.{u16_mod}
use systems_study.Virtio.Mem.{read_u32, load_idx_acquire}
use systems_study.Virtio.Layout.{VirtqLayout, used_slot, used_idx}
use systems_study.Virtio.Driver.{
  Driver, Buffer, World, collect_used, collect_loop, collect_one, give_back, remove, insert, new,
}
use systems_study.Virtio.Driver.Send.{
  add_chain, chain_up, first?, pop_indices, write_descriptors, publish, readable_first,
}
use systems_study.Virtio.Driver.Pool.{
  count, held, count?, IsKeyed, count-append, count-reverse, held-remove, IsKeyed-remove,
  remove-absent, pop_indices-count, count-range_up, count-first,
}
use systems_study.Virtio.Driver.Keeps.{
  SamePool, SamePool-result, write_descriptors-SamePool, publish-SamePool,
}

-- Every descriptor of the queue is once in the free list or once in one outstanding chain, and
-- nothing else is; the chains are filed under their heads.
pub record IsOwned (d : Driver) : Type 0 where
  pub owned :
      (i : ℕ)
      → count i d.free_descs + held i d.outstanding ≡ (if ltb i d.layout.queue_size then 1 else 0)
  pub keyed : IsKeyed d.outstanding

-- A new driver has every descriptor of its queue once in the free list, and no chain outstanding.
pub new-IsOwned :
    (layout : VirtqLayout) (arena_end : ℕ) (event_idx : Bool)
    → IsOwned (new layout arena_end event_idx)
unfolding new
new-IsOwned layout arena_end event_idx = record {
  owned = λ i. ground (arith, count-range_up i 0 layout.queue_size);
  keyed = tt;
}

SamePool-IsOwned : (w w' : World) → SamePool w w' → IsOwned w.drv → IsOwned w'.drv
SamePool-IsOwned w w' s h = record {
  owned = λ i. rw s.0 (rw s.1 (rw s.2 (h.owned i)));
  keyed = rw s.1 h.keyed;
}

-- The driver once `taken` is a chain under its head.
abbrev take_chain : Driver → List ℕ → List ℕ → ℕ → Driver
take_chain d taken left head = record d {
  free_descs = left;
  outstanding = insert head taken d.outstanding;
}

-- The head was free, so that the map has no chain under it.
head-absent :
    (d : Driver) (n head : ℕ) (taken left : List ℕ)
    → IsOwned d
    → pop_indices n d.free_descs ≡ some (taken, left)
    → first? taken ≡ some head
    → (remove head d.outstanding).0 ≡ none
head-absent d n head taken left h e f =
    let a = pop_indices-count n d.free_descs taken left head e in
    let b = count-first head taken f in
    let c = h.owned head in remove-absent head d.outstanding h.keyed (ground (arith, a, b, c))

take_chain-IsOwned :
    (d : Driver) (n head : ℕ) (taken left : List ℕ)
    → IsOwned d
    → pop_indices n d.free_descs ≡ some (taken, left)
    → first? taken ≡ some head
    → IsOwned (take_chain d taken left head)
unfolding insert
take_chain-IsOwned d n head taken left h e f =
    let absent = head-absent d n head taken left h e f in
    record {
      owned = λ i.
          let a = pop_indices-count n d.free_descs taken left i e in
          let r = held-remove i head d.outstanding in
          let z = ap (count? i) absent in let c = h.owned i in ground (arith, a, r, z, c);
      keyed = (f, IsKeyed-remove head d.outstanding h.keyed);
    }

first?-none : (is : List ℕ) → first? is ≡ none → length is ≡ 0
first?-none [] e = refl
first?-none (i ∷ is) e = cc

-- What `add_chain` does once the chain is filed.
tail-SamePool :
    (head : ℕ) (taken : List ℕ) (bs : List Buffer) (w : World)
    → SamePool w ((write_descriptors taken bs >> (publish head >> pure head)) w).1
tail-SamePool head taken bs w =
    SamePool-result w (write_descriptors taken bs w) (publish head >> pure head)
      (write_descriptors-SamePool taken bs w)
      (λ v.
        SamePool-result v (publish head v) (pure head) (publish-SamePool head v)
          (λ u. (refl, refl, refl)))

chain_up-IsOwned :
    (bs : List Buffer) (w : World) → 1 ≤ length bs → IsOwned w.drv → IsOwned (chain_up bs w).1.drv
unfolding chain_up
chain_up-IsOwned bs w some_buffer h = elim (Bool-cases (readable_first bs)) [
  | inr e ↦ rw e h
  | inl e ↦ elim (Option-cases (pop_indices (length bs) w.drv.free_descs)) [
    | inl p ↦ rw e (rw p h)
    | inr ((taken, left), p) ↦ elim (Option-cases (first? taken)) [
      | inl f ↦
          let a = pop_indices-count (length bs) w.drv.free_descs taken left 0 p in
          let n = first?-none taken f in absurd (omega (arith, a, n))
      | inr (head, f) ↦
          let v = record w { drv = take_chain w.drv taken left head } in
          rw e (
            rw p (
              rw f (
                SamePool-IsOwned v ((write_descriptors taken bs >> (publish head >> pure head)) v).1
                  (tail-SamePool head taken bs v)
                  (take_chain-IsOwned w.drv (length bs) head taken left h p f))))
    ]
  ]
]

-- `add_chain` keeps every descriptor of the queue once in the free list or once in one outstanding
-- chain, filed under its head, whatever its buffers and the region are: where it returns the head, an
-- error or the panic of an assertion, and also where a write fails half-way.
pub add_chain-IsOwned :
    (bs : List Buffer) (w : World) → IsOwned w.drv → IsOwned (add_chain bs w).1.drv
unfolding add_chain
add_chain-IsOwned [] w h = h
add_chain-IsOwned (b ∷ bs) w h =
    elim (Bool-cases (ltb (length w.drv.free_descs) (length (b ∷ bs)))) [
      | inl e ↦ rw e h
      | inr e ↦ rw e (chain_up-IsOwned (b ∷ bs) w (omega arith) h)
    ]

removed-IsOwned :
    (d : Driver) (found : Option (List ℕ)) (rest : List (ℕ × List ℕ))
    → ((i : ℕ) → count? i found + held i rest ≡ held i d.outstanding)
    → IsKeyed rest
    → IsOwned d
    → IsOwned (give_back d (found, rest))
removed-IsOwned d none rest r k h = record {
  owned = λ i. let a = r i in let c = h.owned i in ground (arith, a, c);
  keyed = k;
}
removed-IsOwned d (some is) rest r k h = record {
  owned = λ i.
      let a = r i in
      let c = h.owned i in
      let b = count-append i (reverse is) d.free_descs in
      let v = count-reverse i is in ground (arith, a, b, c, v);
  keyed = k;
}

give_back-IsOwned :
    (d : Driver) (k : ℕ) → IsOwned d → IsOwned (give_back d (remove k d.outstanding))
give_back-IsOwned d k h =
    removed-IsOwned d (remove k d.outstanding).0 (remove k d.outstanding).1
      (λ i. held-remove i k d.outstanding) (IsKeyed-remove k d.outstanding h.keyed) h

collect_one-IsOwned : (w : World) → IsOwned w.drv → IsOwned (collect_one w).1.drv
unfolding collect_one
collect_one-IsOwned w h =
    let slot = used_slot w.drv.layout w.drv.last_used in
    elim (Result-cases (read_u32 w.memory slot.0)) [
      | inr (x, e) ↦ rw e h
      | inl (id, e) ↦ elim (Result-cases (read_u32 w.memory slot.1)) [
        | inr (x, f) ↦ rw e (rw f h)
        | inl (n, f) ↦
            let g = give_back-IsOwned w.drv (id % u16_mod) h in
            rw e (rw f (record { owned = g.owned; keyed = g.keyed }))
      ]
    ]

collect_loop-IsOwned :
    (fuel target : ℕ) (out : List (ℕ × ℕ)) (w : World)
    → IsOwned w.drv
    → IsOwned (collect_loop fuel target out w).1.drv
unfolding collect_loop
collect_loop-IsOwned zero target out w h = h
collect_loop-IsOwned (suc fuel) target out w h = elim (Bool-cases (w.drv.last_used == target)) [
  | inl e ↦ rw e h
  | inr e ↦ elim (Result-cases (collect_one w).0) [
    | inl (c, f) ↦ rw e (
        rw f (
          collect_loop-IsOwned fuel target (out ++ c ∷ []) (collect_one w).1
            (collect_one-IsOwned w h)))
    | inr (x, f) ↦ rw e (rw f (collect_one-IsOwned w h))
  ]
]

-- `collect_used` keeps every descriptor once in the free list or once in one outstanding chain,
-- whatever the used ring holds: a device that names an id twice, or one that is not outstanding, or an
-- index that is no position of the ring, cannot make the driver free a descriptor twice.
pub collect_used-IsOwned :
    (fuel : ℕ) (w : World) → IsOwned w.drv → IsOwned (collect_used fuel w).1.drv
unfolding collect_used
collect_used-IsOwned fuel w h =
    elim (Result-cases (load_idx_acquire w.memory (used_idx w.drv.layout))) [
      | inl (target, e) ↦ rw e (collect_loop-IsOwned fuel target [] w h)
      | inr (x, e) ↦ rw e h
    ]
