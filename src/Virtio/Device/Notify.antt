-- ===== src/Virtio/Device/Notify.antt =====
-- When the device interrupts the driver, and how it asks to be notified again.
use systems_study.Prelude.{
  inl, inr, ◌⊎◌, Bool-cases, ℕ, ◌+◌, ◌≤◌, ◌<◌, ◌≡◌, ◌↔◌, refl, arith, inl, ◌∙◌, ap, Bool, true,
  false, not, ◌==◌,
}
use systems_study.Prelude.Result.{ok}
use systems_study.Prelude.Word.{add16, sub16, u16_mod, to_le_bytes}
use systems_study.Virtio.Mem.{len, read_u16}
use systems_study.Virtio.Mem.Access.{
  poke, len-poke, poke-IsRegion, peek-poke-Apart, read_u16_ok, write_u16_ok, read_u16-poke,
}
use systems_study.Virtio.Layout.{avail_idx, used_event, avail_event, need_event}
use systems_study.Virtio.Layout.Placement.{avail_idx_lem, avail_event_lem}
use systems_study.Virtio.Layout.Event.{need_event_iff}
use systems_study.Virtio.Device.{World, available, needs_notification, enable_notification}
use systems_study.Virtio.Device.Calls.{HasRings, count, available_lem}

-- The world with the batch forgotten.
abbrev pub reset : World → World
reset w = record w { dev = record w.dev { num_added = 0 } }

needs_notification_run :
    (w : World) (event : ℕ)
    → w.dev.event_idx ≡ true
    → read_u16 w.memory (used_event w.dev.layout) ≡ ok event
    → needs_notification w
      ≡ (ok (need_event event w.dev.next_used (sub16 w.dev.next_used w.dev.num_added)), reset w)
unfolding needs_notification
needs_notification_run w event on e = rw (on, e)

-- Without `EVENT_IDX` the device always interrupts. With it, it does so exactly when the used event
-- that the driver asked for is the position of one of the completions added since the last call. In
-- both cases the call forgets the batch, and changes nothing else.
pub needs_notification_lem :
    (w : World) (event : ℕ)
    → w.dev.next_used < u16_mod
    → w.dev.num_added < u16_mod
    → event < u16_mod
    → read_u16 w.memory (used_event w.dev.layout) ≡ ok event
    → ((w.dev.event_idx ≡ false) × (needs_notification w ≡ (ok true, reset w)))
      ⊎ ((w.dev.event_idx ≡ true)
          × (b : Bool) × (needs_notification w ≡ (ok b, reset w))
          × ((b ≡ true) ↔ (
              (j : ℕ) × (j < w.dev.num_added)
              × (event ≡ add16 (sub16 w.dev.next_used w.dev.num_added) j))))
unfolding needs_notification
needs_notification_lem w event hu hn he e = elim (Bool-cases w.dev.event_idx) [
  | inr off ↦ inl (off, rw off refl)
  | inl on ↦ inr (
    on,
    need_event event w.dev.next_used old,
    needs_notification_run w event on e,
    rw at_end at (need_event_iff event old w.dev.num_added he (omega arith) hn),
  )
]
  where
    old : ℕ
    old = sub16 w.dev.next_used w.dev.num_added

    at_end : add16 old w.dev.num_added ≡ w.dev.next_used
    at_end = omega arith

-- The world after the device has published where it stopped.
abbrev pub armed : World → World
armed w = record w {
  memory = poke w.memory (avail_event w.dev.layout) (to_le_bytes 2 w.dev.next_avail);
}

module _ (w : World) (h : HasRings w.dev.layout w.memory) (on : w.dev.event_idx ≡ true) where
  armed-HasRings : HasRings w.dev.layout (armed w).memory
  armed-HasRings = record {
    placed = h.placed;
    region =
        poke-IsRegion w.memory (avail_event w.dev.layout) (to_le_bytes 2 w.dev.next_avail) h.region;
    inside = omega (
      arith,
      h.inside,
      len-poke w.memory (avail_event w.dev.layout) (to_le_bytes 2 w.dev.next_avail),
    );
  }

  count-armed : count (armed w) ≡ count w
  count-armed =
      let l = w.dev.layout in
      ap (λ (n : ℕ). sub16 n w.dev.next_avail)
        (peek-poke-Apart w.memory (avail_event l) (avail_idx l) 2 (to_le_bytes 2 w.dev.next_avail) (
          inl (
            omega
              (arith, avail_idx_lem h.placed, avail_event_lem h.placed, h.placed.avail_second))))

  enable_notification_run : enable_notification w ≡ (ok (not (count w == 0)), armed w)
  unfolding enable_notification
  enable_notification_run =
      let at = avail_event_lem h.placed in
      let wr =
        write_u16_ok w.memory (avail_event w.dev.layout) h.region w.dev.next_avail
          (omega (arith, at, h.inside)) in
      let rd =
        read_u16_ok (armed w).memory (avail_idx w.dev.layout) armed-HasRings.region
          (omega (arith, avail_idx_lem h.placed, armed-HasRings.inside)) in
      rw (on, wr, rd, count-armed)

-- With `EVENT_IDX`, `enable_notification` on a queue of `n` available chains writes the position
-- where the device stopped into the avail event and changes nothing of the device, and it returns
-- true exactly when `n` is not 0; as many chains are available after it.
pub enable_notification_lem :
    (w : World) (n : ℕ)
    → HasRings w.dev.layout w.memory
    → w.dev.next_avail < u16_mod
    → w.dev.event_idx ≡ true
    → available w ≡ (ok n, w)
    → (w' : World) × (enable_notification w ≡ (ok (not (n == 0)), w'))
      × (w'.dev ≡ w.dev)
      × (read_u16 w'.memory (avail_event w.dev.layout) ≡ ok w.dev.next_avail)
      × (available w' ≡ (ok n, w'))
enable_notification_lem w n h small on av =
    let e : count w ≡ n = ground (arith, available_lem w h) in
    let at : avail_event w.dev.layout + 2 ≤ len w.memory =
      omega (arith, avail_event_lem h.placed, h.inside) in
    let same = count-armed w h on ∙ e in
    (
      armed w,
      enable_notification_run w h on ∙ ap (λ (k : ℕ). (ok (not (k == 0)), armed w)) e,
      refl,
      read_u16-poke w.memory (avail_event w.dev.layout) w.dev.next_avail h.region at small,
      available_lem (armed w) (armed-HasRings w h on) ∙ ap (λ (k : ℕ). (ok k, armed w)) same,
    )

-- No kick is lost. If `enable_notification` reports that nothing is available, then a driver whose
-- last decision on a kick was `k` chains before the device's position, and which publishes `d` more
-- chains (at least one, and with `k` fewer than 2^16), finds in the avail event a value on which its
-- own test asks for the kick.
pub no_lost_kick :
    (w : World) (n old k d : ℕ)
    → HasRings w.dev.layout w.memory
    → w.dev.next_avail < u16_mod
    → w.dev.event_idx ≡ true
    → available w ≡ (ok n, w)
    → (enable_notification w).0 ≡ ok false
    → old < u16_mod
    → w.dev.next_avail ≡ add16 old k
    → 0 < d
    → k + d < u16_mod
    → (n ≡ 0)
      × (event : ℕ) × (read_u16 (enable_notification w).1.memory (avail_event w.dev.layout)
          ≡ ok event)
      × (need_event event (add16 old (k + d)) old ≡ true)
no_lost_kick w n old k d h small on av idle ho e pos fits =
    let (w', run, _, published, _) = enable_notification_lem w n h small on av in
    let drained : n ≡ 0 = ground (arith, run) in
    let asked = need_event_iff w.dev.next_avail old (k + d) small ho fits in
    (drained, w.dev.next_avail, rw run published, asked.1 (k, omega arith, e))
