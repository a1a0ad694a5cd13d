-- ===== src/Virtio/Driver/Collect.antt =====
-- `collect_used` of driver.rs, where the rings lie in the region: it ends, and returns what the
-- device has published.
use systems_study.Prelude.{
  ℕ, zero, suc, ◌+◌, ◌%◌, ◌≤◌, ◌<◌, ◌≡◌, refl, arith, ◌∙◌, ap, false, ◌==◌, Option, none, some,
  List, [], ◌∷◌, ◌++◌, append_assoc,
}
use mathlib.Core.List.{append-nil}
use systems_study.Prelude.Result.{ok}
use systems_study.Prelude.Word.{add16, sub16, u16_mod}
use systems_study.Virtio.Mem.{SharedMem, len, load_idx_acquire}
use systems_study.Virtio.Mem.Access.{peek, read_u32_ok}
use systems_study.Virtio.Layout.{VirtqLayout, used_slot, used_idx}
use systems_study.Virtio.Layout.Placement.{used_slot_lem}
use systems_study.Virtio.Device.Calls.{HasRings}
use systems_study.Virtio.Driver.{
  Driver, World, collect_used, collect_loop, collect_one, give_back, remove,
}

-- The entry of the used ring at counter value `i`, its id cut to 16 bits.
abbrev pub completion : SharedMem → VirtqLayout → ℕ → ℕ × ℕ
completion m l i = (peek 4 m (used_slot l i).0 % u16_mod, peek 4 m (used_slot l i).1)

-- The `n` entries from counter value `i` on.
abbrev pub completions : SharedMem → VirtqLayout → ℕ → ℕ → List (ℕ × ℕ)
completions m l i zero = []
completions m l i (suc n) = completion m l i ∷ completions m l (add16 i 1) n

-- The world has the same region and layout, and the driver has read up to `i`.
abbrev pub ReadTo : World → World → ℕ → Type 0
ReadTo w w' i = (w'.memory ≡ w.memory) × (w'.drv.layout ≡ w.drv.layout) × (w'.drv.last_used ≡ i)

give_back-layout :
    (d : Driver) (found : Option (List ℕ)) (rest : List (ℕ × List ℕ))
    → (give_back d (found, rest)).layout ≡ d.layout
give_back-layout d none rest = refl
give_back-layout d (some is) rest = refl

give_back-last_used :
    (d : Driver) (found : Option (List ℕ)) (rest : List (ℕ × List ℕ))
    → (give_back d (found, rest)).last_used ≡ d.last_used
give_back-last_used d none rest = refl
give_back-last_used d (some is) rest = refl

collect_one_lem :
    (w : World)
    → HasRings w.drv.layout w.memory
    → ((collect_one w).0 ≡ ok (completion w.memory w.drv.layout w.drv.last_used))
      × ReadTo w (collect_one w).1 (add16 w.drv.last_used 1)
unfolding collect_one
collect_one_lem w h =
    let l = w.drv.layout in
    let m = w.memory in
    let slot = used_slot l w.drv.last_used in
    let at = used_slot_lem h.placed w.drv.last_used in
    let in0 : slot.0 + 4 ≤ len m = omega (arith, h.inside, h.placed.size_pos, at.0) in
    let in1 : slot.1 + 4 ≤ len m = omega (arith, h.inside, h.placed.size_pos, at.1) in
    let r = remove (peek 4 m slot.0 % u16_mod) w.drv.outstanding in
    rw (read_u32_ok m slot.0 h.region in0, read_u32_ok m slot.1 h.region in1)
      (
        refl,
        (
          refl,
          give_back-layout w.drv r.0 r.1,
          ap (λ i. add16 i 1) (give_back-last_used w.drv r.0 r.1),
        ),
      )

-- With fuel for the `n` entries that are left, the loop returns them and stops at the target.
collect_loop_lem :
    (n fuel target : ℕ) (out : List (ℕ × ℕ)) (w : World)
    → HasRings w.drv.layout w.memory
    → w.drv.last_used < u16_mod
    → target < u16_mod
    → sub16 target w.drv.last_used ≡ n
    → n < fuel
    → (w' : World) × (collect_loop fuel target out w
        ≡ (ok (some (out ++ completions w.memory w.drv.layout w.drv.last_used n)), w'))
      × ReadTo w w' target
unfolding collect_loop
collect_loop_lem n zero target out w h small ht d enough = absurd (omega arith)
collect_loop_lem zero (suc fuel) target out w h small ht d enough =
    let e : w.drv.last_used ≡ target = omega arith in
    (w, ground (arith, append-nil out), (refl, refl, e))
collect_loop_lem (suc n) (suc fuel) target out w h small ht d enough =
    let (one, (same, layout, last)) = collect_one_lem w h in
    let v = (collect_one w).1 in
    let c = completion w.memory w.drv.layout w.drv.last_used in
    let hv : HasRings v.drv.layout v.memory = rw (same, layout) h in
    let (w', run, rest) =
      collect_loop_lem n fuel target (out ++ c ∷ []) v hv (rw last (omega arith)) ht
        (rw last (omega arith)) (omega arith) in
    let more = completions v.memory v.drv.layout v.drv.last_used n in
    let joined : (out ++ c ∷ []) ++ more
        ≡ out ++ completions w.memory w.drv.layout w.drv.last_used (suc n) =
      append_assoc out (c ∷ []) more ∙ rw (same, layout, last) refl in
    let ne : (w.drv.last_used == target) ≡ false = ground arith in
    (
      w',
      rw (ne, one) (run ∙ ap (λ xs. (ok (some xs), w')) joined),
      (rest.0 ∙ same, rest.1 ∙ layout, rest.2),
    )

-- `collect_used` ends: on rings in the region, with a published index `target` and more fuel than
-- entries between the driver's position and it, it returns those entries of the used ring in order,
-- each with its id cut to 16 bits. It then stands at `target`, and has not written the region.
pub collect_used_lem :
    (fuel target : ℕ) (w : World)
    → HasRings w.drv.layout w.memory
    → w.drv.last_used < u16_mod
    → target < u16_mod
    → load_idx_acquire w.memory (used_idx w.drv.layout) ≡ ok target
    → sub16 target w.drv.last_used < fuel
    → (w' : World) × (collect_used fuel w ≡ (
      ok (some (completions w.memory w.drv.layout w.drv.last_used (sub16 target w.drv.last_used))),
      w',
    ))
      × ReadTo w w' target
unfolding collect_used
collect_used_lem fuel target w h small below rd enough =
    let (w', run, rest) =
      collect_loop_lem (sub16 target w.drv.last_used) fuel target [] w h small below refl enough in
    (w', rw rd run, rest)
