-- ===== src/Virtio/Chain.antt =====
-- rung-02-virtio/toy-virtq-raw/src/device.rs, the walk of one descriptor chain, and the loop of
-- `Device::process` that collects a chain before it acts.
pub mod Legal
pub mod Entry
pub mod Step
pub mod Gather
pub mod Accept
use systems_study.Prelude.{
  ℕ, zero, suc, ◌+◌, ◌-◌, Bool, true, false, ◌==◌, if◌then◌else◌, Option, none, some, List, [], ◌∷◌,
  ◌++◌, ◌&&◌, not,
}
use systems_study.Prelude.Result.{Result, ok, err, and_then}
use systems_study.Prelude.Word.{add64, checked_add32}
use systems_study.Virtio.Mem.{GuestAddr, MemError, SharedMem, read_u16, read_u32, read_u64}
use systems_study.Virtio.Layout.{
  Descriptor, has_next, is_write_only, is_indirect, VirtqLayout, desc,
}

pub data ChainError : Type 0 where
  index_out_of_range : ℕ → ℕ → ChainError
  too_long : ℕ → ChainError
  too_many_bytes : ChainError
  bad_buffer : MemError → ChainError
  indirect : ChainError
  readable_after_writable : ChainError
  mem : MemError → ChainError

pub record ChainIter : Type 0 where
  pub memory : SharedMem
  pub layout : VirtqLayout
  pub next_index : ℕ
  pub ttl : ℕ
  pub yielded_bytes : ℕ
  pub seen_writable : Bool
  pub done : Bool

pub new : SharedMem → VirtqLayout → ℕ → ChainIter
new m layout head = record {
  memory = m;
  layout = layout;
  next_index = head;
  ttl = layout.queue_size;
  yielded_bytes = 0;
  seen_writable = false;
  done = false;
}

-- The four fields are read in order, and the first failure is the result.
pub read_descriptor : SharedMem → GuestAddr → Result MemError Descriptor
read_descriptor m at = and_then (read_u64 m at) λ addr. and_then (read_u32 m (add64 at 8)) λ len.
    and_then (read_u16 m (add64 at 12)) λ flags.
      and_then (read_u16 m (add64 at 14))
        λ next. ok record { addr = addr; len = len; flags = flags; next = next }

-- What one call of the iterator yields.
abbrev pub Item : Type 0
Item = Option (Result ChainError Descriptor)

-- `self.done = true; Some(Err(e))`.
abbrev pub stop : ChainIter → ChainError → Item × ChainIter
stop it e = (some (err e), record it { done = true })

-- The last step: follow `next` or finish, and yield the descriptor.
pub follow : ChainIter → Descriptor → Item × ChainIter
follow it d =
    if has_next d
    then (some (ok d), record it { next_index = d.next; ttl = it.ttl - 1 })
    else (some (ok d), record it { done = true })

-- The direction check.
pub check_direction : ChainIter → Descriptor → Item × ChainIter
unfolding follow
check_direction it d =
    if is_write_only d
    then follow (record it { seen_writable = true }) d
    else if it.seen_writable
    then stop it readable_after_writable
    else follow it d

-- The third bound: the bytes so far, by checked addition.
pub check_bytes : ChainIter → Descriptor → Item × ChainIter
unfolding check_direction
check_bytes it d = elim (checked_add32 it.yielded_bytes d.len) [
  | some n ↦ check_direction (record it { yielded_bytes = n }) d
  | none ↦ stop it too_many_bytes
]

abbrev pub check_read : ChainIter → Result MemError Descriptor → Item × ChainIter
check_read it (ok d) = if is_indirect d then stop it indirect else check_bytes it d
check_read it (err e) = stop it (mem e)

abbrev pub check_index : ChainIter → Option GuestAddr → Item × ChainIter
check_index it none = stop it (index_out_of_range it.next_index it.layout.queue_size)
check_index it (some addr) = check_read it (read_descriptor it.memory addr)

-- `Iterator::next`.
pub next : ChainIter → Item × ChainIter
next it =
    if it.done
    then (none, it)
    else if it.ttl == 0
    then stop it (too_long it.layout.queue_size)
    else check_index it (desc it.layout it.next_index)

-- What the collecting loop of `process` has gathered: the buffers of each direction in order, the
-- descriptors counted, and the error that ended the chain.
pub record Gathered : Type 0 where
  pub readable : List (ℕ × ℕ)
  pub writable : List (ℕ × ℕ)
  pub descriptors : ℕ
  pub chain_error : Option ChainError

pub nothing : Gathered
nothing = record { readable = []; writable = []; descriptors = 0; chain_error = none }

pub push : Gathered → Descriptor → Gathered
push g d =
    if is_write_only d
    then record g { writable = g.writable ++ (d.addr, d.len) ∷ []; descriptors = g.descriptors + 1 }
    else record g { readable = g.readable ++ (d.addr, d.len) ∷ []; descriptors = g.descriptors + 1 }

-- `for item in self.chain(mem, head)`, with fuel for the calls of the iterator; `none` means that it
-- ran out.
pub gather : ℕ → ChainIter → Gathered → Option Gathered
gather zero it g = none
gather (suc fuel) it g =
    let (item, it') = next it in
    elim item [
      | none ↦ some g
      | some (ok d) ↦ gather fuel it' (push g d)
      | some (err e) ↦ some (record g { chain_error = some e })
    ]

-- The loop on a new iterator. The time to live bounds the calls: one for each descriptor, and one
-- that ends the loop.
pub collect : SharedMem → VirtqLayout → ℕ → Option Gathered
collect m layout head = gather (layout.queue_size + 1) (new m layout head) nothing
