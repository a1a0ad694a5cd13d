-- ===== src/Virtio/Chain/Accept.antt =====
-- The collecting loop of `process` on a guest's chain: it always ends, and it takes exactly the
-- legal chains.
use systems_study.Prelude.{
  ℕ, ◌+◌, ◌≤◌, ◌<◌, ◌≡◌, refl, ap, arith, ◌∙◌, inl, inr, none, some, List, [], ◌∷◌, ◌++◌, length,
  append_assoc,
}
use mathlib.Core.List.{append-nil}
use systems_study.Prelude.Word.{u32_mod}
use systems_study.Virtio.Mem.{SharedMem}
use systems_study.Virtio.Layout.{Descriptor, VirtqLayout}
use systems_study.Virtio.Chain.{Gathered, nothing, push, new, collect}
use systems_study.Virtio.Chain.Legal.{Linked, IsLegal, total, readable_of, writable_of}
use systems_study.Virtio.Chain.Gather.{push_all, Fits, gather_outcome, gather_legal}

-- What a chain of descriptors comes to when it is collected.
abbrev pub gathered : List Descriptor → Gathered
gathered ds = record {
  readable = readable_of ds;
  writable = writable_of ds;
  descriptors = length ds;
  chain_error = none;
}

abbrev after : Gathered → List Descriptor → Gathered
after g ds = record g {
  readable = g.readable ++ readable_of ds;
  writable = g.writable ++ writable_of ds;
  descriptors = g.descriptors + length ds;
}

push_all_lem : (ds : List Descriptor) (g : Gathered) → push_all g ds ≡ after g ds
unfolding push
push_all_lem [] g = ground (arith, append-nil g.readable, append-nil g.writable)
push_all_lem (d ∷ ds) g =
    push_all_lem ds (push g d)
    ∙ ground (
      arith,
      append_assoc g.readable ((d.addr, d.len) ∷ []) (readable_of ds),
      append_assoc g.writable ((d.addr, d.len) ∷ []) (writable_of ds),
    )

gathered_lem : (ds : List Descriptor) → push_all nothing ds ≡ gathered ds
unfolding nothing
gathered_lem ds = push_all_lem ds nothing ∙ ground arith

-- The bytes that buffers claim.
abbrev pub bytes : List (ℕ × ℕ) → ℕ
bytes [] = 0
bytes ((addr, len) ∷ bs) = len + bytes bs

bytes_lem : (ds : List Descriptor) → bytes (readable_of ds) + bytes (writable_of ds) ≡ total ds
bytes_lem [] = omega arith
bytes_lem (d ∷ ds) = ground (arith, bytes_lem ds)

module _ (m : SharedMem) (l : VirtqLayout) (head : ℕ) where
  legal-Fits : (ds : List Descriptor) → IsLegal l.queue_size ds → Fits (new m l head) ds
  unfolding new
  legal-Fits ds g = record {
    short = g.short;
    small = omega (arith, g.small);
    writable = λ s. cc;
    ordered = g.ordered;
    direct = g.direct;
  }

  Fits-IsLegal : (ds : List Descriptor) → Fits (new m l head) ds → IsLegal l.queue_size ds
  unfolding new
  Fits-IsLegal ds f = record {
    short = f.short;
    small = omega (arith, f.small);
    ordered = f.ordered;
    direct = f.direct;
  }

-- A chain that the `next` fields link from `head` and that is legal (no longer than the table, below
-- 2^32 bytes, nothing readable after something writable, nothing indirect) is collected without an
-- error, its buffers of each direction in the order of the chain.
pub collect_legal :
    (m : SharedMem) (l : VirtqLayout) (head : ℕ) (ds : List Descriptor)
    → Linked m l head ds
    → IsLegal l.queue_size ds
    → collect m l head ≡ some (gathered ds)
unfolding collect new
collect_legal m l head ds linked legal =
    gather_legal (l.queue_size + 1) head ds (new m l head) nothing refl (omega (arith, legal.short))
      refl linked (legal-Fits m l head ds legal)
    ∙ ap some (gathered_lem ds)

-- A chain that is collected without an error is legal, is what the `next` fields link from `head`,
-- and what was collected are its buffers.
pub collect_sound :
    (m : SharedMem) (l : VirtqLayout) (head : ℕ) (g : Gathered)
    → collect m l head ≡ some g
    → g.chain_error ≡ none
    → (ds : List Descriptor) × Linked m l head ds × IsLegal l.queue_size ds × (g ≡ gathered ds)
unfolding collect new
collect_sound m l head g e clean =
    elim (gather_outcome (l.queue_size + 1) (new m l head) nothing refl (omega arith)
      (omega arith)) [
        | inl (ds, linked, fits, r) ↦
            (ds, linked, Fits-IsLegal m l head ds fits, cc (e, r, gathered_lem ds))
        | inr (ds, x, short, small, r) ↦ absurd (ground (arith, e, r))
      ]

-- Whatever bytes the guest has written, collecting a chain ends, with at most as many descriptors as
-- the table has entries, and the buffers that it holds claim fewer than 2^32 bytes in all.
pub collect_total :
    (m : SharedMem) (l : VirtqLayout) (head : ℕ)
    → (g : Gathered) × (collect m l head ≡ some g)
      × (g.descriptors ≤ l.queue_size)
      × (bytes g.readable + bytes g.writable < u32_mod)
unfolding collect new
collect_total m l head =
    elim (gather_outcome (l.queue_size + 1) (new m l head) nothing refl (omega arith)
      (omega arith)) [
        | inl (ds, linked, fits, r) ↦ (
          gathered ds,
          r ∙ ap some (gathered_lem ds),
          fits.short,
          omega (arith, fits.small, bytes_lem ds),
        )
        | inr (ds, x, short, small, r) ↦ (
          record (gathered ds) { chain_error = some x },
          r ∙ ap (λ (g : Gathered). some (record g { chain_error = some x })) (gathered_lem ds),
          short,
          omega (arith, small, bytes_lem ds),
        )
      ]
