-- ===== src/Virtio/Device/Process/Serve.antt =====
-- Every chain that `process` pops is completed once, malformed or not.
use systems_study.Prelude.{
  ℕ, ◌+◌, ◌*◌, ◌≡◌, refl, arith, inl, inr, ◌∙◌, none, some, List, Option-cases,
}
use systems_study.Prelude.Result.{ok}
use systems_study.Prelude.Word.{add64}
use systems_study.Virtio.Mem.{SharedMem}
use systems_study.Virtio.Layout.{VirtqLayout}
use systems_study.Virtio.Chain.{ChainError, Gathered, collect}
use systems_study.Virtio.Chain.Accept.{collect_sound, collect_total}
use systems_study.Virtio.Device.{World}
use systems_study.Virtio.Device.Calls.{HasRings, completes}
use systems_study.Virtio.Device.Frozen.{
  Frozen, Frozen-trans, Frozen-mono, BuffersClear, Linked-Clear, Clear,
}
use systems_study.Virtio.Device.Process.{ProcessStats, act, serve, refuse, answer}
use systems_study.Virtio.Device.Process.Writes.{scatter-Frozen, scatter_small}
use systems_study.Virtio.Device.Used.{completed-OneEntry}
use systems_study.Virtio.Device.Process.Entries.{OneEntry-Frozen}
use systems_study.Virtio.Device.Process.Round.{
  completed-Frozen, completed_index, Served, refused, refuse_lem, requested, scattered, answered,
  written_to, answer_lem,
}

pub HasRings-Frozen :
    {l : VirtqLayout} {lo hi : ℕ} {m m' : SharedMem}
    → HasRings l m
    → Frozen lo hi m m'
    → HasRings l m'
HasRings-Frozen h f = record {
  placed = h.placed;
  region = omega (arith, h.region, f.same_len);
  inside = omega (arith, h.inside, f.same_len);
}

module _ {C : Type 0} (work : C → List ℕ → List ℕ × C) where
  abbrev counted : ProcessStats → Gathered → ProcessStats
  counted stats g = record stats { descriptors = add64 stats.descriptors g.descriptors }

  pub act-refuse :
      (head : ℕ) (g : Gathered) (e : ChainError) (stats : ProcessStats) (c : C) (w : World)
      → g.chain_error ≡ some e
      → act work head g stats c w ≡ refuse work head e (counted stats g) c w
  unfolding act
  act-refuse head g e stats c w x = rw x

  act-answer :
      (head : ℕ) (g : Gathered) (stats : ProcessStats) (c : C) (w : World)
      → g.chain_error ≡ none
      → act work head g stats c w ≡ answer work head g (counted stats g) c w
  unfolding act
  act-answer head g stats c w x = rw x

  abbrev pub Acts : ℕ → Gathered → ProcessStats → C → World → Type 0
  Acts head g stats c w =
      (s : ProcessStats) × (c' : C) × (w' : World) × (act work head g stats c w ≡ (ok (s, c'), w'))
      × Served w head stats s w'

  act_lem :
      (head : ℕ) (g : Gathered) (stats : ProcessStats) (c : C) (w : World)
      → HasRings w.dev.layout w.memory
      → BuffersClear w.dev.layout w.memory
      → collect w.memory w.dev.layout head ≡ some g
      → Acts head g stats c w
  act_lem head g stats c w h b e = elim (Option-cases g.chain_error) [
    | inr (x, bad) ↦ (
      refused work head x (counted stats g),
      c,
      completes w head 0,
      act-refuse head g x stats c w bad ∙ refuse_lem work head x (counted stats g) c w h,
      record {
        dev = refl;
        frozen = completed-Frozen w.memory w.dev h head 0;
        index = completed_index w.memory w.dev h head 0;
        counted = refl;
        size = 0;
        entry = completed-OneEntry w.memory w.dev h head 0 (omega arith);
        wrote = omega arith;
      },
    )
    | inl clean ↦
        let (ds, linked, legal, shape) = collect_sound w.memory w.dev.layout head g e clean in
        let l = w.dev.layout in
        let s = scattered work head g (counted stats g) c w in
        let clear : Clear l.desc_table (l.used_ring + 6 + 8 * l.queue_size) g.writable =
          rw shape (Linked-Clear l w.memory head ds b linked) in
        let all : Frozen l.desc_table (l.used_ring + 6 + 8 * l.queue_size) w.memory s.memory =
          scatter-Frozen l.desc_table (l.used_ring + 6 + 8 * l.queue_size) head
            (work c (requested work head g (counted stats g) w).0).0 g.writable
            record {
              memory = w.memory;
              cursor = 0;
              written = 0;
              rejected = (requested work head g (counted stats g) w).1;
            }
            h.region clear in
        let v = written_to work head g (counted stats g) c w in
        let hv : HasRings l s.memory = HasRings-Frozen h all in
        let rings = Frozen-mono all (omega arith) (omega arith) in
        (
          answered work head g (counted stats g) c w,
          (work c (requested work head g (counted stats g) w).0).1,
          completes v head s.written,
          act-answer head g stats c w clean ∙ answer_lem work head g (counted stats g) c w hv,
          record {
            dev = refl;
            frozen = Frozen-trans rings (completed-Frozen s.memory w.dev hv head s.written);
            index = completed_index s.memory w.dev hv head s.written;
            counted = refl;
            size = s.written;
            entry = OneEntry-Frozen w.dev.layout h.placed w.dev.next_used head s.written all (
                completed-OneEntry s.memory w.dev hv head s.written (
                  scatter_small head (work c (requested work head g (counted stats g) w).0).0
                    g.writable _ (omega arith)));
            wrote = omega arith;
          },
        )
  ]

  abbrev pub Serves : ℕ → ProcessStats → C → World → Type 0
  Serves head stats c w =
      (s : ProcessStats) × (c' : C) × (w' : World) × (serve work head stats c w
        ≡ (ok (some (s, c')), w'))
      × Served w head stats s w'

  pub serve-act :
      (head : ℕ) (g : Gathered) (stats s : ProcessStats) (c c' : C) (w w' : World)
      → collect w.memory w.dev.layout head ≡ some g
      → act work head g stats c w ≡ (ok (s, c'), w')
      → serve work head stats c w ≡ (ok (some (s, c')), w')
  unfolding serve
  serve-act head g stats s c c' w w' e a = rw (e, a)

  pub serve_lem :
      (head : ℕ) (stats : ProcessStats) (c : C) (w : World)
      → HasRings w.dev.layout w.memory
      → BuffersClear w.dev.layout w.memory
      → Serves head stats c w
  serve_lem head stats c w h b =
      let (g, e, _, _) = collect_total w.memory w.dev.layout head in
      let (s, c', w', a, done) = act_lem head g stats c w h b e in
      (s, c', w', serve-act head g stats s c c' w w' e a, done)
