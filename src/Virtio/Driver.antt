-- ===== src/Virtio/Driver.antt =====
-- rung-02-virtio/toy-virtq-raw/src/driver.rs, the driver half of a queue. A method works on the
-- driver and the shared region, and keeps what it did to them before an error.
pub mod Send
pub mod Pool
pub mod Keeps
pub mod Collect
pub mod Owned
pub mod Kick
pub mod Write
pub mod Table
pub mod Indices
pub mod Described
pub mod Links
pub mod Publish
pub mod Sent
pub mod Handover
mod Tests
use Prim.Native.Nat.{bit_or}
use systems_study.Prelude.{
  ℕ, zero, suc, ◌+◌, ◌-◌, ◌%◌, Bool, true, false, not, ◌==◌, ltb, ◌&&◌, ◌||◌, if◌then◌else◌, Option,
  none, some, List, [], ◌∷◌, ◌++◌, length,
}
use mathlib.Core.List.{reverse}
use systems_study.Prelude.Result.{
  Result, ok, err, Method, ◌>>=◌, ◌>>◌, bind_result, pure, fail, state, modify,
}
use systems_study.Prelude.Word.{add16, sub16, add64, u16_mod, u32_mod, u64_mod, checked_add64}
use systems_study.Virtio.Mem.{
  GuestAddr, MemError, SharedMem, read_u32, write_slice, write_u16, write_u32, write_u64,
  load_idx_acquire, store_idx_release, load_relaxed,
}
use systems_study.Virtio.Layout.{
  VirtqLayout, end, desc, avail_idx, avail_slot, used_slot, used_idx, used_event, avail_event,
  need_event, virtq_desc_f_next, virtq_desc_f_write,
}

pub record Buffer : Type 0 where
  pub addr : GuestAddr
  pub len : ℕ
  pub device_writable : Bool

-- `free_descs` has its last element first, so that `pop` takes the head; `outstanding` is the map
-- as a list of its entries.
pub record Driver : Type 0 where
  pub layout : VirtqLayout
  pub avail_idx : ℕ
  pub last_kick : ℕ
  pub last_used : ℕ
  pub free_descs : List ℕ
  pub outstanding : List (ℕ × List ℕ)
  pub arena : ℕ
  pub arena_end : ℕ
  pub event_idx : Bool

-- `range_up i n` is `i, i + 1, ..., i + n - 1`.
pub range_up : ℕ → ℕ → List ℕ
range_up i zero = []
range_up i (suc n) = i ∷ range_up (suc i) n

-- `next_multiple_of` of the standard library, on a `u64`.
abbrev pub next_multiple_of : ℕ → ℕ → ℕ
next_multiple_of v k = if v % k == 0 then v else add64 v (k - v % k)

pub new : VirtqLayout → ℕ → Bool → Driver
unfolding range_up
new layout arena_end event_idx = record {
  layout = layout;
  avail_idx = 0;
  last_kick = 0;
  last_used = 0;
  free_descs = range_up 0 layout.queue_size;
  outstanding = [];
  arena = next_multiple_of (end layout) 16;
  arena_end = arena_end;
  event_idx = event_idx;
}

abbrev pub free_descriptors : Driver → ℕ
free_descriptors d = length d.free_descs

pub alloc_uninit : ℕ → Driver → Option GuestAddr × Driver
alloc_uninit n d = elim (checked_add64 d.arena n) [
  | none ↦ (none, d)
  | some stop ↦
      if ltb d.arena_end stop
      then (none, d)
      else (some d.arena, record d { arena = next_multiple_of stop 8 })
]

pub record World : Type 0 where
  pub drv : Driver
  pub memory : SharedMem

-- The write that follows an allocation, `mem.write_slice(addr, data).ok()?`.
abbrev pub fill : World → List ℕ → Option GuestAddr → Option GuestAddr × World
fill w bytes none = (none, w)
fill w bytes (some addr) = elim (write_slice w.memory addr bytes) [
  | ok m ↦ (some addr, record w { memory = m })
  | err e ↦ (none, w)
]

pub alloc : List ℕ → World → Option GuestAddr × World
unfolding alloc_uninit
alloc bytes w =
    let (addr, d) = alloc_uninit (length bytes % u32_mod) w.drv in
    fill (record w { drv = d }) bytes addr

-- `HashMap::remove` and `HashMap::insert`.
pub remove : ℕ → List (ℕ × List ℕ) → Option (List ℕ) × List (ℕ × List ℕ)
remove k [] = (none, [])
remove k ((j, v) ∷ m) =
    let (found, rest) = remove k m in if j == k then (some v, m) else (found, (j, v) ∷ rest)

pub insert : ℕ → List ℕ → List (ℕ × List ℕ) → List (ℕ × List ℕ)
unfolding remove
insert k v m = (k, v) ∷ (remove k m).1

abbrev pub MemAction : Type 0 → Type 0
MemAction A = Method World MemError A

abbrev pub load : {A : Type 0} → (SharedMem → Result MemError A) → MemAction A
load f w = (f w.memory, w)

abbrev pub mem_update : (Driver → Driver) → MemAction (Unit {0})
mem_update f = modify λ w. record w { drv = f w.drv }

-- The answer of `needs_kick` with `EVENT_IDX`.
pub kick_on_event : ℕ → ℕ → MemAction Bool
kick_on_event new old = do
  w ← state
  event ← load λ m. load_relaxed m (avail_event w.drv.layout)
  pure (need_event event new old)

pub needs_kick : MemAction Bool
unfolding kick_on_event
needs_kick = do
  w ← state
  let new = w.drv.avail_idx
  let old = w.drv.last_kick
  mem_update λ d. record d { last_kick = new }
  if not w.drv.event_idx then pure true else kick_on_event new old

pub arm_used_event : World → Result MemError (Unit {0}) × World
arm_used_event w = elim (write_u16 w.memory (used_event w.drv.layout) w.drv.last_used) [
  | ok m ↦ (ok tt, record w { memory = m })
  | err e ↦ (err e, w)
]

-- Give the descriptors of a completed chain back: `extend` pushes them in order.
abbrev pub give_back : Driver → Option (List ℕ) × List (ℕ × List ℕ) → Driver
give_back d (none, rest) = record d { outstanding = rest }
give_back d (some is, rest) = record d {
  outstanding = rest;
  free_descs = reverse is ++ d.free_descs;
}

-- One completion: `id` is cut to 16 bits.
pub collect_one : MemAction (ℕ × ℕ)
collect_one = do
  w ← state
  let slot = used_slot w.drv.layout w.drv.last_used
  id ← load λ m. read_u32 m slot.0
  len ← load λ m. read_u32 m slot.1
  mem_update λ d. give_back d (remove (id % u16_mod) d.outstanding)
  mem_update λ d. record d { last_used = add16 d.last_used 1 }
  pure (id % u16_mod, len)

-- The loop up to the published index, with fuel; `none` means that it ran out.
pub collect_loop : ℕ → ℕ → List (ℕ × ℕ) → MemAction (Option (List (ℕ × ℕ)))
collect_loop zero target out = pure none
collect_loop (suc fuel) target out = do
  w ← state
  let again = do c ← collect_one; collect_loop fuel target (out ++ c ∷ [])
  if w.drv.last_used == target then pure (some out) else again

pub collect_used : ℕ → MemAction (Option (List (ℕ × ℕ)))
unfolding collect_loop
collect_used fuel = do
  w ← state
  target ← load λ m. load_idx_acquire m (used_idx w.drv.layout)
  collect_loop fuel target []
