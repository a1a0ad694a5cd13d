-- ===== src/Virtio/Layout/Event.antt =====
-- What `need_event` decides: whether the event value is among the counter's positions in a batch.
use systems_study.Prelude.{ℕ, ◌+◌, ◌<◌, ◌≡◌, ◌↔◌, arith, true, false, ◌||◌, ◌&&◌, ltb→lt}
use systems_study.Prelude.Word.{u16_mod, add16, sub16}
use systems_study.Virtio.Layout.{need_event}

-- For a counter that stood at `old` and moved on by `d` places, the predicate holds exactly when
-- `event` is one of the positions `old, old + 1, ..., old + d - 1` that it left, modulo 2^16. A
-- batch cannot step over the event value, and the wrap of the counter changes nothing.
pub need_event_iff :
    (event old d : ℕ)
    → event < u16_mod
    → old < u16_mod
    → d < u16_mod
    → (need_event event (add16 old d) old ≡ true) ↔ ((j : ℕ) × (j < d) × (event ≡ add16 old j))
unfolding need_event
need_event_iff event old d he ho hd =
    (λ h. (sub16 event old, omega (arith, ltb→lt), omega (arith, ltb→lt)), λ h. ground arith)

-- A batch of `d` and then `e` places, both checked, asks for a notification in exactly one of the
-- two checks when one check of the whole batch asks for it, and in none otherwise.
pub need_event_split :
    (event old d e : ℕ)
    → event < u16_mod
    → old < u16_mod
    → d + e < u16_mod
    → let mid = add16 old d in
      let new = add16 old (d + e) in
      (need_event event new old ≡ (need_event event mid old || need_event event new mid))
      × ((need_event event mid old && need_event event new mid) ≡ false)
unfolding need_event
need_event_split event old d e he ho hd = ground arith
