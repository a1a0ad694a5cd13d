-- ===== src/Virtio/Device/Process/Entries.antt =====
-- The entries of the used ring after several completions.
use native.Mathlib.Nat.{mod-add-mod, mod-eq_of_lt, mod-eq-sub-mod}
use systems_study.Prelude.{
  ℕ, zero, suc, ◌+◌, ◌-◌, ◌*◌, ◌%◌, ◌≤◌, ◌<◌, ◌≡◌, ◌≢◌, arith, ◌∙◌, ap, sym, inl, inr, ◌⊎◌,
}
use systems_study.Prelude.Word.{add16, u16_mod, u32_mod, from_le_bytes}
use systems_study.Virtio.Mem.{SharedMem}
use systems_study.Virtio.Mem.Access.{peek}
use systems_study.Virtio.Layout.{VirtqLayout, used_slot, avail_slot}
use systems_study.Virtio.Layout.Placement.{IsPlaced, avail_slot_lem, used_slot_lem}
use systems_study.Virtio.Layout.Slots.{counter_slot}
use systems_study.Virtio.Device.Frozen.{Frozen}

-- Two numbers less than `q` apart differ modulo `q`.
apart_mod : (q x d : ℕ) → 0 < d → d < q → x % q ≢ (x + d) % q
apart_mod q x d pos lt e =
    let below : x % q < q = omega (arith, lt) in
    let same : (x % q + d) % q ≡ x % q = mod-add-mod x q d ∙ sym e in
    let cases : (x % q + d < q) ⊎ (q ≤ x % q + d) = omega arith in
    elim cases [
      | inl small ↦ omega (arith, same, pos, mod-eq_of_lt small)
      | inr large ↦
          let left : x % q + d - q < q = omega (arith, below, lt, large) in
          omega (arith, same, lt, pos, large, mod-eq-sub-mod large, mod-eq_of_lt left)
    ]

-- The id and the length in the slot of the counter value `i`.
abbrev pub entry_id : VirtqLayout → SharedMem → ℕ → ℕ
entry_id l m i = peek 4 m (used_slot l i).0

abbrev pub entry_len : VirtqLayout → SharedMem → ℕ → ℕ
entry_len l m i = peek 4 m (used_slot l i).1

abbrev pub SameEntry : VirtqLayout → SharedMem → SharedMem → ℕ → Type 0
SameEntry l m m' i = (entry_id l m' i ≡ entry_id l m i) × (entry_len l m' i ≡ entry_len l m i)

-- The slot of `nu` holds `head`, modulo 2^32, and `n`, and the other slots are as they were.
pub record OneEntry (l : VirtqLayout) (nu head n : ℕ) (m m' : SharedMem) : Type 0 where
  pub id : entry_id l m' nu ≡ head % u32_mod
  pub size : entry_len l m' nu ≡ n
  pub rest : (i : ℕ) → i % l.queue_size ≢ nu % l.queue_size → SameEntry l m m' i

-- What was done before did not touch the rings.
pub OneEntry-Frozen :
    (l : VirtqLayout)
    → IsPlaced l
    → (nu head n : ℕ) {m m1 m2 : SharedMem}
    → Frozen l.desc_table (l.used_ring + 6 + 8 * l.queue_size) m m1
    → OneEntry l nu head n m1 m2
    → OneEntry l nu head n m m2
OneEntry-Frozen l p nu head n {m} {m1} {m2} f one = record {
  id = one.id;
  size = one.size;
  rest = λ i ne. let r = one.rest i ne in (r.0 ∙ (kept i).0, r.1 ∙ (kept i).1);
}
  where
    kept : (i : ℕ) → SameEntry l m m1 i
    kept i =
        let at = used_slot_lem p i in
        let below : i % l.queue_size < l.queue_size = omega (arith, p.size_pos) in
        (
          ap from_le_bytes (
              f.same (used_slot l i).0 4 (omega (arith, at, p.desc_first, p.avail_second))
                (omega (arith, at, below))),
          ap from_le_bytes (
              f.same (used_slot l i).1 4 (omega (arith, at, p.desc_first, p.avail_second))
                (omega (arith, at, below))),
        )

-- The slots but those of the `n` counter values from `nu` on are as they were.
abbrev pub Leaves : VirtqLayout → ℕ → ℕ → SharedMem → SharedMem → Type 0
Leaves l nu n m m' =
    (i : ℕ) → ((j : ℕ) → j < n → i % l.queue_size ≢ add16 nu j % l.queue_size) → SameEntry l m m' i

-- The ids of `n` entries from `nu` on are the heads in the available ring from `na` on,
-- modulo 2^32, which changes no head of 16 bits.
abbrev pub HasHeads : VirtqLayout → ℕ → ℕ → ℕ → SharedMem → SharedMem → Type 0
HasHeads l nu na n m m' =
    (j : ℕ) → j < n → entry_id l m' (add16 nu j) ≡ peek 2 m (avail_slot l (add16 na j)) % u32_mod

-- The sum of the lengths of `n` entries from `nu` on.
unfoldable pub lengths : VirtqLayout → SharedMem → ℕ → ℕ → ℕ
lengths l m nu zero = 0
lengths l m nu (suc n) = entry_len l m nu + lengths l m (add16 nu 1) n

module _ (l : VirtqLayout) (p : IsPlaced l) (nu na n : ℕ) where
  next_slots :
      n + 1 ≤ l.queue_size
      → (j : ℕ) → j < n
      → nu % l.queue_size ≢ add16 (add16 nu 1) j % l.queue_size
  next_slots fits j lt e =
      let q = l.queue_size in
      let far : add16 (add16 nu 1) j ≡ (nu + (1 + j)) % u16_mod = omega arith in
      apart_mod q nu (1 + j) (omega arith) (omega arith)
        (e ∙ (ap (λ x. x % q) far ∙ counter_slot q (nu + (1 + j)) p.size))

  module _ (m m1 m2 : SharedMem) (head size : ℕ) (one : OneEntry l nu head size m m1)
      (leaves : Leaves l (add16 nu 1) n m1 m2) where
    pub Leaves-step : nu < u16_mod → Leaves l nu (n + 1) m m2
    Leaves-step small i h =
        let q = l.queue_size in
        let here : nu ≡ add16 nu 0 = omega arith in
        let ne = λ (e : i % q ≡ nu % q). h 0 (omega arith) (e ∙ ap (λ x. x % q) here) in
        let later = leaves i (λ j lt e.
          let moved : add16 (add16 nu 1) j ≡ add16 nu (suc j) = omega arith in
          h (suc j) (omega arith) (e ∙ ap (λ x. x % q) moved)) in
        let now = one.rest i ne in (later.0 ∙ now.0, later.1 ∙ now.1)

    -- The first entry, after the others.
    first_kept :
        n + 1 ≤ l.queue_size → (entry_id l m2 nu ≡ head % u32_mod) × (entry_len l m2 nu ≡ size)
    first_kept fits = let same = leaves nu (next_slots fits) in (same.0 ∙ one.id, same.1 ∙ one.size)

    pub HasHeads-step :
        nu < u16_mod
        → na < u16_mod
        → n + 1 ≤ l.queue_size
        → head ≡ peek 2 m (avail_slot l na)
        → Frozen l.desc_table l.used_ring m m1
        → HasHeads l (add16 nu 1) (add16 na 1) n m1 m2
        → HasHeads l nu na (n + 1) m m2
    HasHeads-step small_used small_avail fits is_head frozen heads zero lt =
        let used : add16 nu 0 ≡ nu = omega arith in
        let avail : na ≡ add16 na 0 = omega arith in
        ap (entry_id l m2) used
        ∙ ((first_kept fits).0
            ∙ ap (λ x. x % u32_mod) (is_head ∙ ap (λ i. peek 2 m (avail_slot l i)) avail))
    HasHeads-step small_used small_avail fits is_head frozen heads (suc j) lt =
        let used : add16 nu (suc j) ≡ add16 (add16 nu 1) j = omega arith in
        let avail : add16 (add16 na 1) j ≡ add16 na (suc j) = omega arith in
        let at = avail_slot_lem p (add16 na (suc j)) in
        let below : add16 na (suc j) % l.queue_size < l.queue_size = omega (arith, p.size_pos) in
        let kept : peek 2 m1 (avail_slot l (add16 na (suc j)))
            ≡ peek 2 m (avail_slot l (add16 na (suc j))) =
          ap from_le_bytes (
            frozen.same (avail_slot l (add16 na (suc j))) 2 (omega (arith, at, p.desc_first))
              (omega (arith, at, below, p.avail_second))) in
        ap (entry_id l m2) used
        ∙ (heads j (omega arith)
            ∙ ap (λ x. x % u32_mod) (ap (λ i. peek 2 m1 (avail_slot l i)) avail ∙ kept))

    pub lengths-step :
        n + 1 ≤ l.queue_size → lengths l m2 nu (n + 1) ≡ size + lengths l m2 (add16 nu 1) n
    unfolding lengths
    lengths-step fits =
        let e : n + 1 ≡ suc n = omega arith in
        rw e (ap (λ x. x + lengths l m2 (add16 nu 1) n) (first_kept fits).1)
