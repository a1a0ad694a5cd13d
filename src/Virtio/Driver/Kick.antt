-- ===== src/Virtio/Driver/Kick.antt =====
-- When the driver kicks the device, and how it asks to be interrupted.
use systems_study.Prelude.{
  ℕ, ◌+◌, ◌≤◌, ◌<◌, ◌≡◌, ◌↔◌, refl, arith, ◌⊎◌, inl, inr, Bool, true, false, Bool-cases,
}
use systems_study.Prelude.Result.{ok}
use systems_study.Prelude.Word.{add16, u16_mod, to_le_bytes}
use systems_study.Virtio.Mem.{len, read_u16}
use systems_study.Virtio.Mem.Access.{poke, read_u16-poke, write_u16_ok}
use systems_study.Virtio.Layout.{used_event, avail_event, need_event}
use systems_study.Virtio.Layout.Placement.{used_event_lem}
use systems_study.Virtio.Layout.Event.{need_event_iff}
use systems_study.Virtio.Device.Calls.{HasRings}
use systems_study.Virtio.Driver.{World, needs_kick, arm_used_event}

-- The world once the driver has decided on all that it has published.
abbrev pub decided : World → World
decided w = record w { drv = record w.drv { last_kick = w.drv.avail_idx } }

needs_kick_run :
    (w : World) (event : ℕ)
    → w.drv.event_idx ≡ true
    → read_u16 w.memory (avail_event w.drv.layout) ≡ ok event
    → needs_kick w ≡ (ok (need_event event w.drv.avail_idx w.drv.last_kick), decided w)
unfolding needs_kick
needs_kick_run w event on e = rw (on, e) refl

-- A driver that has published `d` chains, fewer than 2^16, since its last decision kicks always
-- without `EVENT_IDX`. With it, it kicks exactly when the avail event that the device asked for is
-- the position of one of these chains. In both cases it remembers the decision, and changes nothing
-- else.
pub needs_kick_lem :
    (w : World) (event d : ℕ)
    → w.drv.last_kick < u16_mod
    → d < u16_mod
    → w.drv.avail_idx ≡ add16 w.drv.last_kick d
    → event < u16_mod
    → read_u16 w.memory (avail_event w.drv.layout) ≡ ok event
    → ((w.drv.event_idx ≡ false) × (needs_kick w ≡ (ok true, decided w)))
      ⊎ ((w.drv.event_idx ≡ true)
          × (b : Bool) × (needs_kick w ≡ (ok b, decided w))
          × ((b ≡ true) ↔ ((j : ℕ) × (j < d) × (event ≡ add16 w.drv.last_kick j))))
unfolding needs_kick
needs_kick_lem w event d small few at small_event e = elim (Bool-cases w.drv.event_idx) [
  | inr off ↦ inl (off, rw off refl)
  | inl on ↦ inr (
    on,
    need_event event w.drv.avail_idx w.drv.last_kick,
    needs_kick_run w event on e,
    rw at (need_event_iff event w.drv.last_kick d small_event small few),
  )
]

-- No interrupt is lost. After `arm_used_event`, which leaves the driver as it is, a device whose last
-- decision on an interrupt was `k` completions before the driver's position, and which publishes `d`
-- more completions than that position (at least one, and with `k` fewer than 2^16), finds in the used
-- event a value on which its own test asks for the interrupt.
pub no_lost_interrupt :
    (w : World) (old k d : ℕ)
    → HasRings w.drv.layout w.memory
    → w.drv.last_used < u16_mod
    → old < u16_mod
    → w.drv.last_used ≡ add16 old k
    → 0 < d
    → k + d < u16_mod
    → (w' : World) × (arm_used_event w ≡ (ok tt, w'))
      × (w'.drv ≡ w.drv)
      × (read_u16 w'.memory (used_event w.drv.layout) ≡ ok w.drv.last_used)
      × (need_event w.drv.last_used (add16 old (k + d)) old ≡ true)
unfolding arm_used_event
no_lost_interrupt w old k d h small ho pos some fits =
    let at : used_event w.drv.layout + 2 ≤ len w.memory =
      omega (arith, used_event_lem h.placed, h.inside, h.placed.avail_second) in
    let m' = poke w.memory (used_event w.drv.layout) (to_le_bytes 2 w.drv.last_used) in
    let wr = write_u16_ok w.memory (used_event w.drv.layout) h.region w.drv.last_used at in
    let asked = need_event_iff w.drv.last_used old (k + d) small ho fits in
    (
      record w { memory = m' },
      rw (arm_used_event, wr) refl,
      refl,
      read_u16-poke w.memory (used_event w.drv.layout) w.drv.last_used h.region at small,
      asked.1 (k, omega arith, pos),
    )
