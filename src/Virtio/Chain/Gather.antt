-- ===== src/Virtio/Chain/Gather.antt =====
-- The collecting loop of `process` against the specification of a legal chain.
use systems_study.Prelude.{
  ℕ, zero, suc, ◌+◌, ◌≤◌, ◌<◌, ◌≡◌, arith, ◌∙◌, ◌⊎◌, inl, inr, true, false, Option, some, List, [],
  ◌∷◌, length, Bool-cases,
}
use mathlib.Core.Path.{subst}
use systems_study.Prelude.Result.{err}
use systems_study.Prelude.Word.{u32_mod}
use systems_study.Virtio.Layout.{Descriptor, has_next, is_write_only}
use systems_study.Virtio.Chain.{ChainIter, ChainError, Gathered, push, gather, next}
use systems_study.Virtio.Chain.Legal.{Linked, last, link, total, AllWritable, IsOrdered, AllDirect}
use systems_study.Virtio.Chain.Step.{advance, Passes, Yields, next-Yields, next_cases}

abbrev pub push_all : Gathered → List Descriptor → Gathered
push_all g [] = g
push_all g (d ∷ ds) = push_all (push g d) ds

-- The rest of a chain that an iterator in this state will let through.
pub record Fits (it : ChainIter) (ds : List Descriptor) : Type 0 where
  pub short : length ds ≤ it.ttl
  pub small : it.yielded_bytes + total ds < u32_mod
  pub writable : it.seen_writable ≡ true → AllWritable ds
  pub ordered : IsOrdered ds
  pub direct : AllDirect ds

Fits-cons :
    (it : ChainIter) (d : Descriptor) (ds : List Descriptor)
    → 0 < it.ttl
    → has_next d ≡ true
    → Passes it d
    → Fits (advance it d) ds
    → Fits it (d ∷ ds)
Fits-cons it d ds room more p f = record {
  short = ground (arith, f.short);
  small = omega (arith, f.small);
  writable = λ s. (p.direction s, f.writable (ground arith));
  ordered = (λ w. f.writable (ground arith), f.ordered);
  direct = (p.direct, f.direct);
}

Fits-last : (it : ChainIter) (d : Descriptor) → 0 < it.ttl → Passes it d → Fits it (d ∷ [])
Fits-last it d room p = record {
  short = omega arith;
  small = omega (arith, p.bytes);
  writable = λ s. (p.direction s, tt);
  ordered = (λ w. tt, tt);
  direct = (p.direct, tt);
}

Fits-uncons :
    (it : ChainIter) (d : Descriptor) (ds : List Descriptor)
    → Fits it (d ∷ ds)
    → Passes it d × (has_next d ≡ true → Fits (advance it d) ds)
Fits-uncons it d ds f = (
  record { direct = f.direct.0; bytes = omega (arith, f.small); direction = λ s. (f.writable s).0 },
  λ more. record {
    short = ground (arith, f.short);
    small = omega (arith, f.small);
    writable = λ s. elim (Bool-cases (is_write_only d)) [
      | inl w ↦ f.ordered.0 w
      | inr r ↦ (f.writable (ground arith)).1
    ];
    ordered = f.ordered.1;
    direct = f.direct.1;
  },
)

gather_done :
    (fuel : ℕ) (it : ChainIter) (g : Gathered)
    → it.done ≡ true
    → 0 < fuel
    → gather fuel it g ≡ some g
unfolding gather next
gather_done zero it g h pos = absurd (omega arith)
gather_done (suc fuel) it g h pos = ground arith

gather_step :
    (fuel : ℕ) (it : ChainIter) (g : Gathered) (d : Descriptor)
    → Yields it d (next it)
    → gather (suc fuel) it g ≡ gather fuel (advance it d) (push g d)
unfolding gather
gather_step fuel it g d y = ground arith

gather_refused :
    (fuel : ℕ) (it : ChainIter) (g : Gathered) (e : ChainError)
    → (next it).0 ≡ some (err e)
    → gather (suc fuel) it g ≡ some (record g { chain_error = some e })
unfolding gather
gather_refused fuel it g e h = ground arith

abbrev pub Accepted : ChainIter → Gathered → Option Gathered → Type 0
Accepted it g r =
    (ds : List Descriptor) × Linked it.memory it.layout it.next_index ds
    × Fits it ds
    × (r ≡ some (push_all g ds))

abbrev pub Rejected : ChainIter → Gathered → Option Gathered → Type 0
Rejected it g r =
    (ds : List Descriptor) × (e : ChainError) × (length ds ≤ it.ttl)
    × (it.yielded_bytes + total ds < u32_mod)
    × (r ≡ some (record (push_all g ds) { chain_error = some e }))

-- With more fuel than the iterator has room the loop ends, with a legal chain or with an error.
pub gather_outcome :
    (fuel : ℕ) (it : ChainIter) (g : Gathered)
    → it.done ≡ false
    → it.ttl < fuel
    → it.yielded_bytes < u32_mod
    → Accepted it g (gather fuel it g) ⊎ Rejected it g (gather fuel it g)
gather_outcome zero it g live h b = absurd (omega arith)
gather_outcome (suc fuel) it g live h b = elim (next_cases it live) [
  | inr (e, x) ↦ inr ([], e, omega arith, omega arith, gather_refused fuel it g e x)
  | inl (d, room, at, p) ↦
      let s = gather_step fuel it g d (next-Yields it d live room at p) in
      elim (Bool-cases (has_next d)) [
        | inr end ↦
            let stop = gather_done fuel (advance it d) (push g d) (ground arith) (omega arith) in
            inl (d ∷ [], last it.next_index d at end, Fits-last it d room p, s ∙ stop)
        | inl more ↦
            let rest =
              gather_outcome fuel (advance it d) (push g d) (ground arith) (ground arith) p.bytes in
            elim rest [
              | inl (ds, l, f, e) ↦
                  let next : (advance it d).next_index ≡ d.next = rw more in
                  let l' = subst (λ i. Linked it.memory it.layout i ds) next l in
                  inl (
                    d ∷ ds,
                    link it.next_index d ds at more l',
                    Fits-cons it d ds room more p f,
                    s ∙ e,
                  )
              | inr (ds, x, short, small, e) ↦ inr (d ∷ ds, x, ground arith, omega arith, s ∙ e)
            ]
      ]
]

-- A chain that is linked in the table and fits is gathered whole, with fuel for its length.
pub gather_legal :
    (fuel i : ℕ) (ds : List Descriptor) (it : ChainIter) (g : Gathered)
    → it.done ≡ false
    → length ds < fuel
    → it.next_index ≡ i
    → Linked it.memory it.layout i ds
    → Fits it ds
    → gather fuel it g ≡ some (push_all g ds)
gather_legal zero i ds it g live h at l f = absurd (omega arith)
gather_legal (suc fuel) i [] it g live h at l f = elim l [ ]
gather_legal (suc fuel) i (d ∷ []) it g live h at (last _ _ e end) f =
    let p = Fits-uncons it d [] f in
    gather_step fuel it g d (next-Yields it d live (omega (arith, f.short)) (rw at e) p.0)
    ∙ gather_done fuel (advance it d) (push g d) (ground arith) (omega arith)
gather_legal (suc fuel) i (d ∷ ds) it g live h at (link _ _ _ e more l) f =
    let p = Fits-uncons it d ds f in
    gather_step fuel it g d (next-Yields it d live (omega (arith, f.short)) (rw at e) p.0)
    ∙ gather_legal fuel d.next ds (advance it d) (push g d) (ground arith) (omega arith)
        (ground arith) l (p.1 more)
