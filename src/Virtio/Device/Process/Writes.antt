-- ===== src/Virtio/Device/Process/Writes.antt =====
-- The scattering loop of `process` writes only into the buffers that it is given.
use systems_study.Prelude.{
  ℕ, ◌+◌, ◌-◌, ◌<◌, ◌≡◌, arith, inl, inr, true, false, min, leb, ◌%◌, List, [], ◌∷◌, length, take,
  drop, length-take, Bool-cases,
}
use systems_study.Prelude.Result.{ok, err, Result-cases}
use systems_study.Prelude.Word.{add32, u32_mod}
use systems_study.Virtio.Mem.{MemError, SharedMem, write_slice}
use systems_study.Virtio.Mem.Access.{IsRegion}
use systems_study.Virtio.Mem.RoundTrip.{write_slice_inv}
use systems_study.Virtio.Device.Frozen.{Frozen, Frozen-refl, Frozen-trans, Frozen-poke, Clear}
use systems_study.Virtio.Device.Process.{Scatter, scatter}

abbrev room : List ℕ → ℕ → Scatter → ℕ
room response n s = min n (length response - s.cursor)

abbrev piece : List ℕ → ℕ → Scatter → List ℕ
piece response n s = take (room response n s) (drop s.cursor response)

abbrev moved : List ℕ → ℕ → Scatter → SharedMem → Scatter
moved response n s m = record s {
  memory = m;
  cursor = s.cursor + room response n s;
  written = add32 s.written (room response n s % u32_mod);
}

module _ (head : ℕ) (response : List ℕ) (a n : ℕ) (bs : List (ℕ × ℕ)) (s : Scatter) where
  scatter_stop : leb (length response) s.cursor ≡ true → scatter head response ((a, n) ∷ bs) s ≡ s
  unfolding scatter
  scatter_stop h = rw h

  scatter_ok :
      (m : SharedMem)
      → leb (length response) s.cursor ≡ false
      → write_slice s.memory a (piece response n s) ≡ ok m
      → scatter head response ((a, n) ∷ bs) s ≡ scatter head response bs (moved response n s m)
  unfolding scatter
  scatter_ok m h e = ground arith

  scatter_err :
      {e : MemError}
      → leb (length response) s.cursor ≡ false
      → write_slice s.memory a (piece response n s) ≡ err e
      → (scatter head response ((a, n) ∷ bs) s).memory ≡ s.memory
  unfolding scatter
  scatter_err h x = ground arith

  scatter_err_written :
      {e : MemError}
      → leb (length response) s.cursor ≡ false
      → write_slice s.memory a (piece response n s) ≡ err e
      → (scatter head response ((a, n) ∷ bs) s).written ≡ s.written
  unfolding scatter
  scatter_err_written h x = ground arith

-- The count of written bytes is a 32-bit value.
pub scatter_small :
    (head : ℕ) (response : List ℕ) (bs : List (ℕ × ℕ)) (s : Scatter)
    → s.written < u32_mod
    → (scatter head response bs s).written < u32_mod
unfolding scatter
scatter_small head response [] s small = small
scatter_small head response ((a, n) ∷ bs) s small =
    elim (Bool-cases (leb (length response) s.cursor)) [
      | inl h ↦ rw (scatter_stop head response a n bs s h) small
      | inr h ↦ elim (Result-cases (write_slice s.memory a (piece response n s))) [
        | inr (e, x) ↦ rw (scatter_err_written head response a n bs s h x) small
        | inl (m, x) ↦
            rw (scatter_ok head response a n bs s m h x)
              (scatter_small head response bs (moved response n s m) (omega arith))
      ]
    ]

-- Scattering a response into buffers that are clear of a range leaves the range alone.
pub scatter-Frozen :
    (lo hi head : ℕ) (response : List ℕ) (bs : List (ℕ × ℕ)) (s : Scatter)
    → IsRegion s.memory
    → Clear lo hi bs
    → Frozen lo hi s.memory (scatter head response bs s).memory
unfolding scatter
scatter-Frozen lo hi head response [] s region c = Frozen-refl lo hi s.memory
scatter-Frozen lo hi head response ((a, n) ∷ bs) s region c =
    elim (Bool-cases (leb (length response) s.cursor)) [
      | inl h ↦ rw (scatter_stop head response a n bs s h) (Frozen-refl lo hi s.memory)
      | inr h ↦ elim (Result-cases (write_slice s.memory a (piece response n s))) [
        | inr (e, x) ↦ rw (scatter_err head response a n bs s h x) (Frozen-refl lo hi s.memory)
        | inl (m, x) ↦
            let w = write_slice_inv s.memory a (piece response n s) m region x in
            let first : Frozen lo hi s.memory m = rw (← w.1) (
              Frozen-poke lo hi s.memory a (piece response n s)
                (omega (arith, length-take (room response n s) (drop s.cursor response), c.0))) in
            let region' : IsRegion m = omega (arith, first.same_len) in
            rw (scatter_ok head response a n bs s m h x) (
              Frozen-trans first
                (scatter-Frozen lo hi head response bs (moved response n s m) region' c.1))
      ]
    ]
