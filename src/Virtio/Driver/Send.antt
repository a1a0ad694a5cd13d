-- ===== src/Virtio/Driver/Send.antt =====
-- `add_chain` of rung-02-virtio/toy-virtq-raw/src/driver.rs: take descriptors, write the chain into
-- them, and publish its head.
use Prim.Native.Nat.{bit_or}
use systems_study.Prelude.{
  ℕ, zero, suc, Bool, true, false, not, ltb, ◌&&◌, ◌||◌, if◌then◌else◌, Option, none, some, List,
  [], ◌∷◌, length,
}
use systems_study.Prelude.Result.{Result, ok, err, Method, ◌>>=◌, ◌>>◌, pure, fail, state, modify}
use systems_study.Prelude.Word.{add16, add64}
use systems_study.Virtio.Mem.{
  MemError, SharedMem, write_u16, write_u32, write_u64, store_idx_release,
}
use systems_study.Virtio.Layout.{desc, avail_idx, avail_slot, virtq_desc_f_next, virtq_desc_f_write}
use systems_study.Virtio.Driver.{Buffer, Driver, World, insert}

pub data DriverError : Type 0 where
  out_of_descriptors : DriverError
  mem : MemError → DriverError

-- How `add_chain` can fail: an error, or a panic of an assertion, an `unwrap` or an index.
pub data Fault : Type 0 where
  panic : Fault
  error : DriverError → Fault

abbrev pub Action : Type 0 → Type 0
Action A = Method World Fault A

abbrev pub stored : World → Result MemError SharedMem → Result Fault (Unit {0}) × World
stored w (ok m) = (ok tt, record w { memory = m })
stored w (err e) = (err (error (mem e)), w)

abbrev pub store : (SharedMem → Result MemError SharedMem) → Action (Unit {0})
store f w = stored w (f w.memory)

abbrev pub update : (Driver → Driver) → Action (Unit {0})
update f = modify λ w. record w { drv = f w.drv }

abbrev pub assert : Bool → Action (Unit {0})
assert true = pure tt
assert false = fail panic

-- `unwrap`, and an index.
abbrev pub expect : {A : Type 0} → Option A → Action A
expect (some a) = pure a
expect none = fail panic

-- `buffers.windows(2).all(|w| !w[0].device_writable || w[1].device_writable)`
unfoldable pub readable_first : List Buffer → Bool
readable_first [] = true
readable_first (b ∷ []) = true
readable_first (b ∷ c ∷ bs) =
    (not b.device_writable || c.device_writable) && readable_first (c ∷ bs)

-- `n` times `pop().unwrap()`: what was taken, and what is left.
unfoldable pub pop_indices : ℕ → List ℕ → Option (List ℕ × List ℕ)
pop_indices zero free = some ([], free)
pop_indices (suc n) [] = none
pop_indices (suc n) (i ∷ free) = elim (pop_indices n free) [
  | none ↦ none
  | some (taken, left) ↦ some (i ∷ taken, left)
]

abbrev pub is_last : List Buffer → Bool
is_last [] = true
is_last (b ∷ bs) = false

unfoldable pub flags_of : Buffer → Bool → ℕ
flags_of b last =
    let write = if b.device_writable then bit_or 0 virtq_desc_f_write else 0 in
    if last then write else bit_or write virtq_desc_f_next

-- `indices[0]`.
abbrev pub first? : List ℕ → Option ℕ
first? [] = none
first? (i ∷ is) = some i

-- The `next` field: 0 in the last descriptor, else the following index.
abbrev pub next_of : Bool → List ℕ → Option ℕ
next_of true is = some 0
next_of false is = first? is

-- The body of the loop that writes the descriptors; `is` are the indices that follow.
unfoldable pub write_descriptor : ℕ → List ℕ → Buffer → Bool → Action (Unit {0})
unfolding flags_of
write_descriptor i is b last = do
  w ← state
  at ← expect (desc w.drv.layout i)
  store λ m. write_u64 m at b.addr
  store λ m. write_u32 m (add64 at 8) b.len
  store λ m. write_u16 m (add64 at 12) (flags_of b last)
  next ← expect (next_of last is)
  store λ m. write_u16 m (add64 at 14) next

-- The lists are the indices and buffers still to come.
unfoldable pub write_descriptors : List ℕ → List Buffer → Action (Unit {0})
unfolding write_descriptor
write_descriptors is [] = pure tt
write_descriptors [] (b ∷ bs) = fail panic
write_descriptors (i ∷ is) (b ∷ bs) = do
  write_descriptor i is b (is_last bs)
  write_descriptors is bs

-- Publish the head index in its slot, and bump the available index.
unfoldable pub publish : ℕ → Action (Unit {0})
publish head = do
  w ← state
  store λ m. write_u16 m (avail_slot w.drv.layout w.drv.avail_idx) head
  update λ d. record d { avail_idx = add16 d.avail_idx 1 }
  w' ← state
  store λ m. store_idx_release m (avail_idx w'.drv.layout) w'.drv.avail_idx

-- `add_chain` once there are descriptors for the buffers.
unfoldable pub chain_up : List Buffer → Action ℕ
chain_up buffers = do
  assert (readable_first buffers)
  w ← state
  popped ← expect (pop_indices (length buffers) w.drv.free_descs)
  update λ d. record d { free_descs = popped.1 }
  head ← expect (first? popped.0)
  update λ d. record d { outstanding = insert head popped.0 d.outstanding }
  write_descriptors popped.0 buffers
  publish head
  pure head

unfoldable pub add_chain : List Buffer → Action ℕ
unfolding chain_up
add_chain buffers = do
  assert (not (is_last buffers))
  w ← state
  if ltb (length w.drv.free_descs) (length buffers)
      then fail (error out_of_descriptors)
      else chain_up buffers
