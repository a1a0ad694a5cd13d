-- ===== src/Virtio/Layout/Slots.antt =====
-- The ring slot of an entry, by the free-running 16-bit counter.
use native.Mathlib.Nat.{pow-suc, zero-add, mod-mod_of_dvd, dvd-mul_right}
use mathlib.Core.Path.{subst}
use systems_study.Prelude.{
  inl, inr, ℕ, zero, suc, ◌+◌, ◌-◌, ◌*◌, ◌%◌, ◌^◌, ◌≤◌, ◌≡◌, ◌⊎◌, ◌≢◌, arith, ap, ◌∙◌,
}
use systems_study.Prelude.Word.{u16_mod, add16}
use systems_study.Virtio.Layout.{VirtqLayout, avail_slot, used_slot, used_event, avail_event}
use systems_study.Virtio.Layout.Placement.{
  IsQueueSize, IsPlaced, avail_slot_lem, used_slot_lem, used_event_lem, avail_event_lem,
}

pow-add : (k j : ℕ) → 2 ^ k * 2 ^ j ≡ 2 ^ (k + j)
pow-add zero j = rw zero-add (omega arith)
pow-add (suc k) j =
    let e : suc k + j ≡ suc (k + j) = omega arith in
    rw (e, pow-suc, pow-suc) (grind (arith, pow-add k j))

-- Every queue size divides the range of the counters.
queue_size_divides : (q : ℕ) → IsQueueSize q → (d : ℕ) × (q * d ≡ u16_mod)
queue_size_divides q s =
    let e : s.0 + (16 - s.0) ≡ 16 = omega arith in
    (2 ^ (16 - s.0), rw s.2 (pow-add s.0 (16 - s.0) ∙ ap (λ k. 2 ^ k) e))

mod-mod_mul : (x q d : ℕ) → x % (q * d) % q ≡ x % q
mod-mod_mul x q d = mod-mod_of_dvd q {b = q * d} x (dvd-mul_right q d)

-- Reducing a counter modulo 2^16 does not move its entry to another slot.
pub counter_slot : (q x : ℕ) → IsQueueSize q → x % u16_mod % q ≡ x % q
counter_slot q x s =
    let d = queue_size_divides q s in subst (λ n. x % n % q ≡ x % q) d.1 (mod-mod_mul x q d.0)

-- In a placed layout the slot of the entry that comes `n` places after the one at counter value `i`
-- does not depend on whether the 16-bit counter has wrapped in between: in both rings it is slot
-- `(i + n) % queue_size`.
pub slot_across_wrap :
    (l : VirtqLayout) (i n : ℕ)
    → IsPlaced l
    → (avail_slot l (add16 i n) ≡ l.avail_ring + 4 + 2 * ((i + n) % l.queue_size))
      × ((used_slot l (add16 i n)).0 ≡ l.used_ring + 4 + 8 * ((i + n) % l.queue_size))
      × ((used_slot l (add16 i n)).1 ≡ l.used_ring + 8 + 8 * ((i + n) % l.queue_size))
slot_across_wrap l i n p =
    let e = counter_slot l.queue_size (i + n) p.size in
    omega (arith, e, avail_slot_lem p (add16 i n), used_slot_lem p (add16 i n))

-- Two counter values that agree modulo the queue size name the same slot of both rings; those of two
-- others share no byte. Every slot lies between the ring's index and its event field.
pub slots_apart :
    (l : VirtqLayout) (i j : ℕ)
    → IsPlaced l
    → (((i % l.queue_size ≡ j % l.queue_size)
          × (avail_slot l i ≡ avail_slot l j)
          × ((used_slot l i).0 ≡ (used_slot l j).0))
        ⊎ ((i % l.queue_size ≢ j % l.queue_size)
            × ((avail_slot l i + 2 ≤ avail_slot l j) ⊎ (avail_slot l j + 2 ≤ avail_slot l i))
            × (((used_slot l i).0 + 8 ≤ (used_slot l j).0)
                ⊎ ((used_slot l j).0 + 8 ≤ (used_slot l i).0))))
      × (l.avail_ring + 4 ≤ avail_slot l i)
      × (avail_slot l i + 2 ≤ used_event l)
      × (l.used_ring + 4 ≤ (used_slot l i).0)
      × ((used_slot l i).1 + 4 ≤ avail_event l)
slots_apart l i j p =
    let ai = avail_slot_lem p i in
    let aj = avail_slot_lem p j in
    let ui = used_slot_lem p i in
    let uj = used_slot_lem p j in
    let ue = used_event_lem p in
    let ae = avail_event_lem p in
    let pos = p.size_pos in
    let cases : (i % l.queue_size ≡ j % l.queue_size) ⊎ (i % l.queue_size ≢ j % l.queue_size) =
      omega arith in
    (
      elim cases [
        | inl e ↦ inl (e, omega arith, omega arith)
        | inr ne ↦ inr (ne, omega arith, omega arith)
      ],
      omega arith,
      omega arith,
      omega arith,
      omega arith,
    )
