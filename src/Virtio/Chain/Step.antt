-- ===== src/Virtio/Chain/Step.antt =====
-- One call of the iterator: it yields a descriptor that passed every check, or an error.
use systems_study.Prelude.{
  ◌+◌, ◌-◌, ◌<◌, ◌≡◌, refl, arith, ◌⊎◌, inl, inr, true, false, ◌||◌, not, ltb, ◌==◌, if◌then◌else◌,
  some, Bool-cases, Option-cases,
}
use systems_study.Prelude.Result.{Result, ok, err}
use systems_study.Prelude.Word.{u32_mod}
use systems_study.Virtio.Mem.{MemError}
use systems_study.Virtio.Layout.{Descriptor, has_next, is_write_only, is_indirect, desc}
use systems_study.Virtio.Chain.{
  ChainIter, ChainError, too_many_bytes, readable_after_writable, indirect, mem, too_long,
  index_out_of_range, Item, read_descriptor, check_bytes, check_read, next,
}
use systems_study.Virtio.Chain.Legal.{EntryAt}

-- The iterator after it has yielded `d`.
abbrev pub advance : ChainIter → Descriptor → ChainIter
advance it d = record it {
  next_index = if has_next d then d.next else it.next_index;
  ttl = if has_next d then it.ttl - 1 else it.ttl;
  yielded_bytes = it.yielded_bytes + d.len;
  seen_writable = it.seen_writable || is_write_only d;
  done = not (has_next d);
}

-- The checks on a descriptor once it has been read.
pub record Passes (it : ChainIter) (d : Descriptor) : Type 0 where
  pub direct : is_indirect d ≡ false
  pub bytes : it.yielded_bytes + d.len < u32_mod
  pub direction : it.seen_writable ≡ true → is_write_only d ≡ true

abbrev pub Yields : ChainIter → Descriptor → Item × ChainIter → Type 0
Yields it d r = r ≡ (some (ok d), advance it d)

abbrev pub Refuses : Item × ChainIter → Type 0
Refuses r = (e : ChainError) × (r.0 ≡ some (err e))

check_bytes-Yields :
    (it : ChainIter) (d : Descriptor)
    → it.done ≡ false
    → it.yielded_bytes + d.len < u32_mod
    → (it.seen_writable ≡ true → is_write_only d ≡ true)
    → Yields it d (check_bytes it d)
unfolding check_bytes
check_bytes-Yields it d live b w = ground arith

check_bytes_cases :
    (it : ChainIter) (d : Descriptor)
    → ((it.yielded_bytes + d.len < u32_mod) × (it.seen_writable ≡ true → is_write_only d ≡ true))
      ⊎ Refuses (check_bytes it d)
unfolding check_bytes
check_bytes_cases it d = elim (Bool-cases (ltb (it.yielded_bytes + d.len) u32_mod)) [
  | inr big ↦ inr (too_many_bytes, ground arith)
  | inl fits ↦ elim (Bool-cases (is_write_only d)) [
    | inl w ↦ inl (ground arith, λ _. w)
    | inr r ↦ elim (Bool-cases it.seen_writable) [
      | inl seen ↦ inr (readable_after_writable, ground arith)
      | inr new ↦ inl (ground arith, λ seen. cc)
    ]
  ]
]

-- With room left, an entry that passes the checks is yielded.
pub next-Yields :
    (it : ChainIter) (d : Descriptor)
    → it.done ≡ false
    → 0 < it.ttl
    → EntryAt it.memory it.layout it.next_index d
    → Passes it d
    → Yields it d (next it)
unfolding next
next-Yields it d live room (at, e, r) p =
    ground (arith, check_bytes-Yields it d live p.bytes p.direction)

check_read_cases :
    (it : ChainIter) (r : Result MemError Descriptor)
    → ((d : Descriptor) × (r ≡ ok d) × Passes it d) ⊎ Refuses (check_read it r)
check_read_cases it (err e) = inr (mem e, refl)
check_read_cases it (ok d) = elim (Bool-cases (is_indirect d)) [
  | inl i ↦ inr (indirect, ground arith)
  | inr direct ↦ elim (check_bytes_cases it d) [
    | inl (b, w) ↦ inl (d, refl, record { direct = direct; bytes = b; direction = w })
    | inr (e, h) ↦ inr (e, ground arith)
  ]
]

-- A call on an iterator that is not done yields an entry that passes every check, or refuses.
pub next_cases :
    (it : ChainIter)
    → it.done ≡ false
    → ((d : Descriptor) × (0 < it.ttl) × EntryAt it.memory it.layout it.next_index d × Passes it d)
      ⊎ Refuses (next it)
unfolding next
next_cases it live = elim (Bool-cases (it.ttl == 0)) [
  | inl z ↦ inr (too_long it.layout.queue_size, ground arith)
  | inr room ↦ elim (Option-cases (desc it.layout it.next_index)) [
    | inl out ↦ inr (index_out_of_range it.next_index it.layout.queue_size, ground arith)
    | inr (at, e) ↦ elim (check_read_cases it (read_descriptor it.memory at)) [
      | inl (d, r, p) ↦ inl (d, ground arith, (at, e, r), p)
      | inr (x, h) ↦ inr (x, ground arith)
    ]
  ]
]
