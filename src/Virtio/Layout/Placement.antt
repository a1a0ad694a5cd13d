-- ===== src/Virtio/Layout/Placement.antt =====
-- What `VirtqLayout::new` guarantees of the rings, and the addresses without their wraps.
use systems_study.Prelude.{
  ℕ, zero, suc, ◌+◌, ◌*◌, ◌%◌, ◌^◌, ◌≤◌, ◌<◌, ◌≡◌, ◌↔◌, inl, inr, arith, true, ◌==◌, none, some,
  Bool-cases,
}
use native.Mathlib.Nat.{one-le-pow, pow-le-pow_right}
use native.Mathlib.Decide.{ℕ_discrete}
use systems_study.Prelude.Word.{u64_mod}
use systems_study.Virtio.Layout.{
  VirtqLayout, power_of_two_below, is_power_of_two, new, total_size, end, desc, avail_idx,
  avail_slot, used_event, used_idx, used_slot, avail_event,
}

power_of_two_of_below : (b n : ℕ) → power_of_two_below b n ≡ true → (k : ℕ) × (k < b) × (n ≡ 2 ^ k)
unfolding power_of_two_below
power_of_two_of_below zero n h = cc
power_of_two_of_below (suc b) n h = elim (Bool-cases (n == 2 ^ b)) [
  | inl e ↦ (b, omega arith, ground arith)
  | inr e ↦ let r = power_of_two_of_below b n (ground arith) in (r.0, omega arith, r.2)
]

power_of_two_below_pow : (b k : ℕ) → k < b → power_of_two_below b (2 ^ k) ≡ true
unfolding power_of_two_below
power_of_two_below_pow zero k h = absurd (omega arith)
power_of_two_below_pow (suc b) k h = elim (ℕ_discrete k b) [
  | yes e ↦ rw e (ground arith)
  | no ne ↦ ground (arith, power_of_two_below_pow b k)
]

-- The queue size is a power of two below 2^16.
abbrev pub IsQueueSize : ℕ → Type 0
IsQueueSize q = (k : ℕ) × (k < 16) × (q ≡ 2 ^ k)

is_power_of_two_iff : (n : ℕ) → (is_power_of_two n ≡ true) ↔ IsQueueSize n
unfolding is_power_of_two
is_power_of_two_iff n =
    (power_of_two_of_below 16 n, λ r. rw r.2 (power_of_two_below_pow 16 r.0 r.1))

-- The rings are aligned, in order and apart, and end below 2^64.
pub record IsPlaced (l : VirtqLayout) : Type 0 where
  pub size : IsQueueSize l.queue_size
  pub size_pos : 1 ≤ l.queue_size
  pub size_small : l.queue_size ≤ 32768
  pub desc_aligned : l.desc_table % 16 ≡ 0
  pub avail_aligned : l.avail_ring % 2 ≡ 0
  pub used_aligned : l.used_ring % 4 ≡ 0
  pub desc_first : l.desc_table + 16 * l.queue_size ≤ l.avail_ring
  pub avail_second : l.avail_ring + 6 + 2 * l.queue_size ≤ l.used_ring
  pub used_last : l.used_ring + 6 + 8 * l.queue_size < u64_mod

module _ {l : VirtqLayout} (p : IsPlaced l) where
  pub desc_lem : (i : ℕ) → i < l.queue_size → desc l i ≡ some (l.desc_table + 16 * i)
  unfolding desc
  desc_lem i h = ground arith

  pub desc_out : (i : ℕ) → l.queue_size ≤ i → desc l i ≡ none
  unfolding desc
  desc_out i h = ground arith

  pub avail_idx_lem : avail_idx l ≡ l.avail_ring + 2
  unfolding avail_idx
  avail_idx_lem = omega arith

  pub avail_slot_lem : (i : ℕ) → avail_slot l i ≡ l.avail_ring + 4 + 2 * (i % l.queue_size)
  unfolding avail_slot
  avail_slot_lem i = omega arith

  pub used_event_lem : used_event l ≡ l.avail_ring + 4 + 2 * l.queue_size
  unfolding used_event
  used_event_lem = omega arith

  pub used_idx_lem : used_idx l ≡ l.used_ring + 2
  unfolding used_idx
  used_idx_lem = omega arith

  pub used_slot_lem :
      (i : ℕ)
      → ((used_slot l i).0 ≡ l.used_ring + 4 + 8 * (i % l.queue_size))
        × ((used_slot l i).1 ≡ l.used_ring + 8 + 8 * (i % l.queue_size))
  unfolding used_slot
  used_slot_lem i = omega arith

  pub avail_event_lem : avail_event l ≡ l.used_ring + 4 + 8 * l.queue_size
  unfolding avail_event
  avail_event_lem = omega arith

  pub end_lem : end l ≡ l.used_ring + 6 + 8 * l.queue_size
  unfolding end
  end_lem = omega arith

pow-le : (k : ℕ) → k < 16 → (1 ≤ 2 ^ k) × (2 ^ k ≤ 32768)
pow-le k h = (
  one-le-pow k 2 (omega arith),
  pow-le-pow_right {n = 2} (omega arith) {i = k} {j = 15} (omega arith),
)

-- The constructor panics exactly when the size is no power of two in 1..=32768.
pub new_panics : (base q : ℕ) → (new base q ≡ none) ↔ ¬ (IsQueueSize q)
unfolding new
new_panics base q = (
  λ e s. ground (arith, (is_power_of_two_iff q).1 s, pow-le s.0 s.1),
  λ ns. elim (Bool-cases (is_power_of_two q)) [
    | inl y ↦ absurd (ns ((is_power_of_two_iff q).0 y))
    | inr n ↦ ground arith
  ],
)

-- A layout that `VirtqLayout::new` returns for a base at least 2^20 below the end of the address
-- space has the size asked for, starts at or after the base, and has its rings aligned, in order,
-- disjoint and free of wraps; its total size is at most 26 bytes an entry and 14 more.
pub new-IsPlaced :
    (base q : ℕ) (l : VirtqLayout)
    → base + 1048576 ≤ u64_mod
    → new base q ≡ some l
    → IsPlaced l
      × (l.queue_size ≡ q)
      × (base ≤ l.desc_table)
      × (l.desc_table < base + 16)
      × (end l ≡ l.used_ring + 6 + 8 * q)
      × (total_size l ≤ 26 * q + 14)
unfolding new total_size end
new-IsPlaced base q l h e = elim (Bool-cases (is_power_of_two q)) [
  | inr n ↦ absurd (ground arith)
  | inl y ↦ let s = (is_power_of_two_iff q).0 y in ground (arith, s, pow-le s.0 s.1)
]
