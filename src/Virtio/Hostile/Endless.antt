-- ===== src/Virtio/Hostile/Endless.antt =====
-- Chains whose `next` fields never lead out of a set of entries, such as a cycle.
use systems_study.Prelude.{
  ℕ, arith, ◌≡◌, refl, sym, ◌∙◌, ap, inl, inr, true, some, List, ◌∷◌, [], ◌++◌, Option-cases,
}
use systems_study.Prelude.Result.{ok}
use mathlib.Core.Path.{subst}
use systems_study.Prelude.Word.{add64}
use systems_study.Virtio.Mem.{SharedMem}
use systems_study.Virtio.Layout.{Descriptor, VirtqLayout, has_next}
use systems_study.Virtio.Chain.{ChainError, Gathered, collect}
use systems_study.Virtio.Chain.Legal.{EntryAt, Linked, last, link, EntryAt-unique}
use systems_study.Virtio.Chain.Accept.{collect_sound, collect_total}
use systems_study.Virtio.Device.{World}
use systems_study.Virtio.Device.Calls.{HasRings, completes}
use systems_study.Virtio.Device.Process.{ProcessStats, chain, serve}
use systems_study.Virtio.Device.Process.Serve.{act-refuse, serve-act}
use systems_study.Virtio.Device.Process.Round.{refused, refuse_lem}

-- Every entry of `S` is in the table, has a next, and its next is in `S`.
abbrev pub IsEndless : SharedMem → VirtqLayout → (ℕ → Type 0) → Type 0
IsEndless m l S =
    (i : ℕ) → S i → (d : Descriptor) × EntryAt m l i d × (has_next d ≡ true) × S d.next

Linked-ends :
    (m : SharedMem) (l : VirtqLayout) (S : ℕ → Type 0)
    → IsEndless m l S
    → {i : ℕ} {ds : List Descriptor} → Linked m l i ds
    → S i
    → ⊥
Linked-ends m l S endless (last i d e stops) s =
    let (d', e', goes, _) = endless i s in
    ground
      (arith, stops, goes, ap (λ (x : Descriptor). has_next x) (EntryAt-unique m l i d d' e e'))
Linked-ends m l S endless (link i d ds e goes rest) s =
    let (d', e', _, s') = endless i s in
    Linked-ends m l S endless rest
      (subst (λ (x : Descriptor). S x.next) (sym (EntryAt-unique m l i d d' e e')) s')

-- A chain whose head lies in such a set is given up after finitely many descriptors.
collect-endless :
    (m : SharedMem) (l : VirtqLayout) (S : ℕ → Type 0) (head : ℕ)
    → IsEndless m l S
    → S head
    → (g : Gathered) × (e : ChainError) × (collect m l head ≡ some g) × (g.chain_error ≡ some e)
collect-endless m l S head endless s =
    let (g, run, _, _) = collect_total m l head in
    elim (Option-cases g.chain_error) [
      | inr (e, bad) ↦ (g, e, run, bad)
      | inl clean ↦
          let (ds, linked, _, _) = collect_sound m l head g run clean in
          absurd (Linked-ends m l S endless linked s)
    ]

-- What `process` does with a chain that it refuses: `work` does not run, the rejection and its chain
-- are counted, and the chain is completed with length 0.
abbrev pub Refused :
    {C : Type 0} → (C → List ℕ → List ℕ × C) → ℕ → ProcessStats → C → World → Type 0
Refused work head stats c w =
    (s : ProcessStats) × (e : ChainError) × (serve work head stats c w
      ≡ (ok (some (s, c)), completes w head 0))
    × (s.chains ≡ add64 stats.chains 1)
    × (s.rejected ≡ stats.rejected ++ (head, chain e) ∷ [])

-- With the rings placed in the region, a chain that starts in a set of table entries whose `next`
-- fields stay in the set, such as a cycle, is refused, for every closure `work` and whatever else the
-- guest wrote: the round of `process` ends, does not run `work`, records the rejection, and completes
-- the chain with length 0.
pub endless-Refused :
    {C : Type 0} (work : C → List ℕ → List ℕ × C) (S : ℕ → Type 0) (head : ℕ) (stats : ProcessStats)
    (c : C) (w : World)
    → HasRings w.dev.layout w.memory
    → IsEndless w.memory w.dev.layout S
    → S head
    → Refused work head stats c w
endless-Refused work S head stats c w h endless s =
    let (g, e, run, bad) = collect-endless w.memory w.dev.layout S head endless s in
    let counted : ProcessStats = record stats {
      descriptors = add64 stats.descriptors g.descriptors;
    } in
    (
      refused work head e counted,
      e,
      serve-act work head g stats _ c c w _ run
          (act-refuse work head g e stats c w bad ∙ refuse_lem work head e counted c w h),
      refl,
      refl,
    )
