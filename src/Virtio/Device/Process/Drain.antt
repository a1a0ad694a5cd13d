-- ===== src/Virtio/Device/Process/Drain.antt =====
-- `process` drains the queue: it ends, and completes every chain that was available.
use systems_study.Prelude.{
  ℕ, zero, suc, ◌+◌, ◌<◌, ◌≡◌, ◌≢◌, ◌%◌, ◌≤◌, refl, arith, ◌⊎◌, inl, inr, ◌∙◌, ap, sym, none, some,
  List,
}
use mathlib.Core.Path.{subst}
use native.Mathlib.Decide.{ℕ_discrete}
use systems_study.Prelude.Result.{ok}
use systems_study.Prelude.Word.{from_le_bytes, add16, add64, u16_mod, u64_mod}
use systems_study.Virtio.Mem.{SharedMem}
use systems_study.Virtio.Mem.Access.{peek}
use systems_study.Virtio.Layout.{VirtqLayout, used_idx, avail_idx, avail_slot}
use systems_study.Virtio.Layout.Placement.{IsPlaced, avail_idx_lem}
use systems_study.Virtio.Device.{Device, World, pop_chain_head}
use systems_study.Virtio.Device.Calls.{HasRings, count, taken, pop_none, pop_some}
use systems_study.Virtio.Device.Frozen.{
  Frozen, Frozen-refl, Frozen-trans, BuffersClear, EntryAt-frozen,
}
use systems_study.Virtio.Device.Process.{ProcessStats, serve, process_loop}
use systems_study.Virtio.Device.Process.Entries.{
  OneEntry, Leaves, HasHeads, lengths, Leaves-step, HasHeads-step, lengths-step,
}
use systems_study.Virtio.Device.Process.Round.{Served}
use systems_study.Virtio.Device.Process.Serve.{HasRings-Frozen, serve_lem}

-- The used ring after `n` completions: no other slot was written, and if they fit into the ring,
-- their ids are the heads, and their lengths add up to the bytes written meanwhile (modulo 2^64).
pub record Entries (l : VirtqLayout) (nu na n before after : ℕ) (m m' : SharedMem) : Type 0 where
  pub leaves : Leaves l nu n m m'
  pub filled :
      (l.queue_size < n)
      ⊎ (HasHeads l nu na n m m' × (after % u64_mod ≡ (before + lengths l m' nu n) % u64_mod))

-- The world after `n` chains have been taken and completed, and nothing else done to the device;
-- `before` are the counters before them.
pub record Drained (w : World) (n : ℕ) (before stats : ProcessStats) (w' : World) : Type 0 where
  pub dev : w'.dev ≡ record w.dev {
    next_avail = add16 w.dev.next_avail n;
    next_used = add16 w.dev.next_used n;
    num_added = add16 w.dev.num_added n;
  }
  pub frozen : Frozen w.dev.layout.desc_table w.dev.layout.used_ring w.memory w'.memory
  pub index :
      (0 < n) ⊎ (peek 2 w.memory (used_idx w.dev.layout) ≡ w.dev.next_used)
      → peek 2 w'.memory (used_idx w.dev.layout) ≡ add16 w.dev.next_used n
  pub counted : stats.chains ≡ add64 before.chains n
  pub entries :
      Entries w.dev.layout w.dev.next_used w.dev.next_avail n before.bytes_written
        stats.bytes_written w.memory w'.memory

-- The counters of the device are 16-bit values.
pub record HasCounters (d : Device) : Type 0 where
  pub avail_small : d.next_avail < u16_mod
  pub used_small : d.next_used < u16_mod
  pub added_small : d.num_added < u16_mod

-- Taking a chain and completing it leaves one fewer.
count-Served :
    (w w' : World) (head : ℕ) (before s : ProcessStats)
    → HasRings w.dev.layout w.memory
    → HasCounters w.dev
    → count w ≢ 0
    → Served (taken w) head before s w'
    → count w' + 1 ≡ count w
count-Served w w' head before s h k ne sv =
    let l = w.dev.layout in
    let e_layout : w'.dev.layout ≡ l = ap (λ d. d.layout) sv.dev in
    let e_avail : w'.dev.next_avail ≡ add16 w.dev.next_avail 1 = ap (λ d. d.next_avail) sv.dev in
    let at = avail_idx_lem h.placed in
    let same : peek 2 w'.memory (avail_idx l) ≡ peek 2 w.memory (avail_idx l) = ap from_le_bytes (
      sv.frozen.same (avail_idx l) 2 (omega (arith, at, h.placed.desc_first))
        (omega (arith, at, h.placed.avail_second))) in
    let whole : peek 2 w'.memory (avail_idx w'.dev.layout) ≡ peek 2 w.memory (avail_idx l) =
      ap (λ k. peek 2 w'.memory (avail_idx k)) e_layout ∙ same in
    omega (arith, whole, e_avail, k.avail_small, ne)

Served-HasCounters :
    (w w' : World) (head : ℕ) (before s : ProcessStats)
    → Served w head before s w'
    → w.dev.next_avail < u16_mod
    → HasCounters w'.dev
Served-HasCounters w w' head before s sv small = rw sv.dev (omega arith)

-- One more entry before `n` others.
Served-Entries :
    (l : VirtqLayout) (nu na n head b0 b1 b2 size : ℕ) (m m1 m2 : SharedMem)
    → IsPlaced l
    → nu < u16_mod
    → na < u16_mod
    → head ≡ peek 2 m (avail_slot l na)
    → Frozen l.desc_table l.used_ring m m1
    → OneEntry l nu head size m m1
    → b1 % u64_mod ≡ (b0 + size) % u64_mod
    → Entries l (add16 nu 1) (add16 na 1) n b1 b2 m1 m2
    → Entries l nu na (n + 1) b0 b2 m m2
Served-Entries l nu na n head b0 b1 b2 size m m1 m2 p small_used small_avail is_head f one wrote
      en =
    let cases : (l.queue_size < n + 1) ⊎ (n + 1 ≤ l.queue_size) = omega arith in
    record {
      leaves = Leaves-step l p nu na n m m1 m2 head size one en.leaves small_used;
      filled = elim cases [
        | inl many ↦ inl many
        | inr fits ↦ elim en.filled [
          | inl many ↦ absurd (omega (arith, many, fits))
          | inr (heads, total) ↦ inr (
            HasHeads-step l p nu na n m m1 m2 head size one en.leaves small_used small_avail fits
                is_head f heads,
            omega (
              arith,
              total,
              wrote,
              lengths-step l p nu na n m m1 m2 head size one en.leaves fits,
            ),
          )
        ]
      ];
    }

Served-Drained :
    (w w' w'' : World) (n head : ℕ) (s0 s s' : ProcessStats)
    → HasRings w.dev.layout w.memory
    → HasCounters w.dev
    → head ≡ peek 2 w.memory (avail_slot w.dev.layout w.dev.next_avail)
    → Served (taken w) head s0 s w'
    → Drained w' n s s' w''
    → n < u16_mod
    → Drained w (n + 1) s0 s' w''
Served-Drained w w' w'' n head s0 s s' h k is_head sv dr small =
    let el : w'.dev.layout ≡ w.dev.layout = ap (λ d. d.layout) sv.dev in
    let eu : w'.dev.next_used ≡ add16 w.dev.next_used 1 = ap (λ d. d.next_used) sv.dev in
    let synced : peek 2 w'.memory (used_idx w'.dev.layout) ≡ w'.dev.next_used =
      ap (λ l. peek 2 w'.memory (used_idx l)) el ∙ sv.index ∙ sym eu in
    let later =
      subst
        (λ (d : Device).
          Entries d.layout d.next_used d.next_avail n s.bytes_written s'.bytes_written w'.memory
            w''.memory)
        sv.dev dr.entries in
    record {
      dev = ground arith;
      frozen =
          Frozen-trans sv.frozen
            (subst (λ l. Frozen l.desc_table l.used_ring w'.memory w''.memory) el dr.frozen);
      index = λ _.
          ap (λ l. peek 2 w''.memory (used_idx l)) (sym el)
          ∙ dr.index (inr synced)
          ∙ omega (arith, eu);
      counted = omega (arith, dr.counted, sv.counted);
      entries =
          Served-Entries w.dev.layout w.dev.next_used w.dev.next_avail n head s0.bytes_written
            s.bytes_written s'.bytes_written sv.size w.memory w'.memory w''.memory h.placed
            k.used_small k.avail_small is_head sv.frozen sv.entry sv.wrote later;
    }

Drained-none :
    (w : World) (s : ProcessStats) → HasCounters w.dev → s.chains < u64_mod → Drained w 0 s s w
unfolding lengths
Drained-none w s k small = record {
  dev = ground (arith, k.avail_small, k.used_small, k.added_small);
  frozen = Frozen-refl w.dev.layout.desc_table w.dev.layout.used_ring w.memory;
  index = ground (arith, k.used_small);
  counted = omega arith;
  entries = record {
    leaves = λ i _. (refl, refl);
    filled = inr (λ j lt. absurd (omega arith), omega arith);
  };
}

module _ {C : Type 0} (work : C → List ℕ → List ℕ × C) where
  loop_none :
      (fuel : ℕ) (s : ProcessStats) (c : C) (w : World)
      → pop_chain_head w ≡ (ok none, w)
      → process_loop work (suc fuel) s c w ≡ (ok (some (s, c)), w)
  unfolding process_loop
  loop_none fuel s c w e = rw e

  loop_some :
      (fuel head : ℕ) (s s' : ProcessStats) (c c' : C) (w w' w'' : World)
      → pop_chain_head w ≡ (ok (some head), w')
      → serve work head s c w' ≡ (ok (some (s', c')), w'')
      → process_loop work (suc fuel) s c w ≡ process_loop work fuel s' c' w''
  unfolding process_loop
  loop_some fuel head s s' c c' w w' w'' e f = rw (e, f)

  abbrev pub Drains : ℕ → ProcessStats → C → World → Type 0
  Drains fuel s c w =
      (s' : ProcessStats) × (c' : C) × (w' : World) × (process_loop work fuel s c w
        ≡ (ok (some (s', c')), w'))
      × Drained w (count w) s s' w'

  pub drains :
      (fuel : ℕ) (s : ProcessStats) (c : C) (w : World)
      → HasRings w.dev.layout w.memory
      → HasCounters w.dev
      → BuffersClear w.dev.layout w.memory
      → s.chains < u64_mod
      → count w < fuel
      → Drains fuel s c w
  drains zero s c w h k b small enough = absurd (omega arith)
  drains (suc fuel) s c w h k b small enough = elim (ℕ_discrete (count w) 0) [
    | yes none_left ↦ (
      s,
      c,
      w,
      loop_none fuel s c w (pop_none w h none_left),
      subst (λ n. Drained w n s s w) (sym none_left) (Drained-none w s k small),
    )
    | no some_left ↦
        let head = peek 2 w.memory (avail_slot w.dev.layout w.dev.next_avail) in
        let (s1, c1, w1, served, sv) = serve_lem work head s c (taken w) h b in
        let fewer = count-Served w w1 head s s1 h k some_left sv in
        let el : w1.dev.layout ≡ w.dev.layout = ap (λ d. d.layout) sv.dev in
        let h1 : HasRings w1.dev.layout w1.memory =
          subst (λ l. HasRings l w1.memory) (sym el) (HasRings-Frozen h sv.frozen) in
        let b1 : BuffersClear w1.dev.layout w1.memory =
          subst (λ l. BuffersClear l w1.memory) (sym el)
            (λ i d at. b i d (EntryAt-frozen h.placed h.region h.inside sv.frozen i d at)) in
        let k1 = Served-HasCounters (taken w) w1 head s s1 sv (omega arith) in
        let (s2, c2, w2, rest, dr) =
          drains fuel s1 c1 w1 h1 k1 b1 (omega (arith, sv.counted)) (omega (arith, fewer)) in
        (
          s2,
          c2,
          w2,
          loop_some fuel head s s1 c c1 w (taken w) w1 (pop_some w h some_left) served ∙ rest,
          subst (λ n. Drained w n s s2 w2) fewer
              (Served-Drained w w1 w2 (count w1) head s s1 s2 h k refl sv dr (omega arith)),
        )
  ]
