-- ===== src/Virtio/Device.antt =====
-- rung-02-virtio/toy-virtq-raw/src/device.rs, the device half of a queue. A method works on the
-- device and the shared region, and keeps what it did to them before an error.
pub mod Process
pub mod Calls
pub mod Frozen
pub mod Notify
pub mod Used
mod Tests
use Prim.Native.Nat.{bit_and, bit_or}
use systems_study.Prelude.{ℕ, ◌+◌, Bool, true, false, not, ◌==◌, if◌then◌else◌, Option, none, some}
use systems_study.Prelude.Result.{
  Result, ok, err, Method, ◌>>=◌, ◌>>◌, bind_result, pure, state, modify,
}
use systems_study.Prelude.Word.{add16, sub16}
use systems_study.Virtio.Mem.{
  MemError, SharedMem, read_u16, write_u16, write_u32, load_idx_acquire, store_idx_release,
  load_relaxed,
}
use systems_study.Virtio.Layout.{
  VirtqLayout, avail_idx, avail_slot, used_slot, used_idx, used_event, avail_event, used_flags,
  virtq_used_f_no_notify, need_event,
}

pub record Device : Type 0 where
  pub layout : VirtqLayout
  pub next_avail : ℕ
  pub next_used : ℕ
  pub num_added : ℕ
  pub event_idx : Bool

-- The device and the region that it is handed.
pub record World : Type 0 where
  pub dev : Device
  pub memory : SharedMem

abbrev pub Action : Type 0 → Type 0
Action A = Method World MemError A

abbrev pub load : {A : Type 0} → (SharedMem → Result MemError A) → Action A
load f w = (f w.memory, w)

abbrev pub stored : World → Result MemError SharedMem → Result MemError (Unit {0}) × World
stored w (ok m) = (ok tt, record w { memory = m })
stored w (err e) = (err e, w)

abbrev pub store : (SharedMem → Result MemError SharedMem) → Action (Unit {0})
store f w = stored w (f w.memory)

abbrev pub update : (Device → Device) → Action (Unit {0})
update f = modify λ w. record w { dev = f w.dev }

pub new : VirtqLayout → Bool → Device
new layout event_idx = record {
  layout = layout;
  next_avail = 0;
  next_used = 0;
  num_added = 0;
  event_idx = event_idx;
}

pub available : Action ℕ
available = do
  w ← state
  published ← load λ m. load_idx_acquire m (avail_idx w.dev.layout)
  pure (sub16 published w.dev.next_avail)

-- The rest of `pop_chain_head` once there is a chain.
pub take_head : Action (Option ℕ)
take_head = do
  w ← state
  head ← load λ m. read_u16 m (avail_slot w.dev.layout w.dev.next_avail)
  update λ d. record d { next_avail = add16 d.next_avail 1 }
  pure (some head)

pub pop_chain_head : Action (Option ℕ)
unfolding available take_head
pop_chain_head = do n ← available; if n == 0 then pure none else take_head

pub add_used : ℕ → ℕ → Action (Unit {0})
add_used head len = do
  w ← state
  let slot = used_slot w.dev.layout w.dev.next_used
  store λ m. write_u32 m slot.0 head
  store λ m. write_u32 m slot.1 len
  update λ d. record d { next_used = add16 d.next_used 1; num_added = add16 d.num_added 1 }
  w' ← state
  store λ m. store_idx_release m (used_idx w'.dev.layout) w'.dev.next_used

-- The two branches of `needs_notification`: without and with `EVENT_IDX`.
pub notify_always : Action Bool
notify_always = do update λ d. record d { num_added = 0 }; pure true

pub notify_on_event : Action Bool
notify_on_event = do
  w ← state
  event ← load λ m. load_relaxed m (used_event w.dev.layout)
  let old = sub16 w.dev.next_used w.dev.num_added
  update λ d. record d { num_added = 0 }
  pure (need_event event w.dev.next_used old)

pub needs_notification : Action Bool
unfolding notify_always notify_on_event
needs_notification = do w ← state; if not w.dev.event_idx then notify_always else notify_on_event

-- `flags & !VIRTQ_USED_F_NO_NOTIFY` on a `u16`.
abbrev pub clear_no_notify : ℕ → ℕ
clear_no_notify flags = bit_and flags 0xfffe

abbrev pub set_no_notify : ℕ → ℕ
set_no_notify flags = bit_or flags virtq_used_f_no_notify

-- Publish where this device stopped, and change the device's flags.
pub publish_event : Action (Unit {0})
publish_event = do w ← state; store λ m. write_u16 m (avail_event w.dev.layout) w.dev.next_avail

pub change_flags : (ℕ → ℕ) → Action (Unit {0})
change_flags f = do
  w ← state
  flags ← load λ m. read_u16 m (used_flags w.dev.layout)
  store λ m. write_u16 m (used_flags w.dev.layout) (f flags)

pub enable_notification : Action Bool
unfolding available publish_event change_flags
enable_notification = do
  w ← state
  (if w.dev.event_idx then publish_event else change_flags clear_no_notify)
  n ← available
  pure (not (n == 0))

pub disable_notification : Action (Unit {0})
unfolding change_flags
disable_notification = do w ← state; if w.dev.event_idx then pure tt else change_flags set_no_notify
