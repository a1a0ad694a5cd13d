-- ===== src/Virtio/Driver/Described.antt =====
-- Descriptors that describe buffers make a legal chain of these buffers.
use systems_study.Prelude.{
  ℕ, ◌+◌, ◌≤◌, ◌<◌, ◌≡◌, refl, arith, Bool, true, false, if◌then◌else◌, none, List, [], ◌∷◌, length,
}
use systems_study.Prelude.Word.{u32_mod}
use systems_study.Virtio.Layout.{Descriptor, is_write_only}
use systems_study.Virtio.Chain.Legal.{
  IsLegal, total, AllWritable, IsOrdered, AllDirect, readable_of, writable_of,
}
use systems_study.Virtio.Chain.Accept.{gathered}
use systems_study.Virtio.Chain.{Gathered}
use systems_study.Virtio.Driver.{Buffer}
use systems_study.Virtio.Driver.Send.{readable_first}
use systems_study.Virtio.Driver.Table.{AllDescribe}

-- The buffers of one direction, and the bytes of all.
abbrev pub buffers_of : Bool → List Buffer → List (ℕ × ℕ)
buffers_of w [] = []
buffers_of true (b ∷ bs) =
    if b.device_writable then (b.addr, b.len) ∷ buffers_of true bs else buffers_of true bs
buffers_of false (b ∷ bs) =
    if b.device_writable then buffers_of false bs else (b.addr, b.len) ∷ buffers_of false bs

abbrev pub claimed : List Buffer → ℕ
claimed [] = 0
claimed (b ∷ bs) = b.len + claimed bs

-- What the device should collect of the buffers.
abbrev pub request_of : List Buffer → Gathered
request_of bs = record {
  readable = buffers_of false bs;
  writable = buffers_of true bs;
  descriptors = length bs;
  chain_error = none;
}

described_readable :
    (ds : List Descriptor) (bs : List Buffer)
    → AllDescribe ds bs
    → readable_of ds ≡ buffers_of false bs
described_readable [] [] h = refl
described_readable [] (b ∷ bs) h = absurd h
described_readable (d ∷ ds) [] h = absurd h
described_readable (d ∷ ds) (b ∷ bs) h = ground (arith, described_readable ds bs h.1)

described_writable :
    (ds : List Descriptor) (bs : List Buffer)
    → AllDescribe ds bs
    → writable_of ds ≡ buffers_of true bs
described_writable [] [] h = refl
described_writable [] (b ∷ bs) h = absurd h
described_writable (d ∷ ds) [] h = absurd h
described_writable (d ∷ ds) (b ∷ bs) h = ground (arith, described_writable ds bs h.1)

described_sizes :
    (ds : List Descriptor) (bs : List Buffer)
    → AllDescribe ds bs
    → (length ds ≡ length bs) × (total ds ≡ claimed bs)
described_sizes [] [] h = (refl, refl)
described_sizes [] (b ∷ bs) h = absurd h
described_sizes (d ∷ ds) [] h = absurd h
described_sizes (d ∷ ds) (b ∷ bs) h = ground (arith, described_sizes ds bs h.1)

described_direct : (ds : List Descriptor) (bs : List Buffer) → AllDescribe ds bs → AllDirect ds
described_direct [] [] h = tt
described_direct [] (b ∷ bs) h = absurd h
described_direct (d ∷ ds) [] h = absurd h
described_direct (d ∷ ds) (b ∷ bs) h = (h.0.3, described_direct ds bs h.1)

-- After a writable buffer all are writable.
described_rest :
    (d : Descriptor) (ds : List Descriptor) (b : Buffer) (bs : List Buffer)
    → AllDescribe (d ∷ ds) (b ∷ bs)
    → readable_first (b ∷ bs) ≡ true
    → is_write_only d ≡ true
    → AllWritable ds
unfolding readable_first
described_rest d [] b [] h r w = tt
described_rest d [] b (c ∷ bs) h r w = absurd h.1
described_rest d (e ∷ ds) b [] h r w = absurd h.1
described_rest d (e ∷ ds) b (c ∷ bs) h r w =
    let first : is_write_only e ≡ true = ground arith in
    (first, described_rest e ds c bs h.1 (ground arith) first)

described-IsOrdered :
    (ds : List Descriptor) (bs : List Buffer)
    → AllDescribe ds bs
    → readable_first bs ≡ true
    → IsOrdered ds
unfolding readable_first
described-IsOrdered [] [] h r = tt
described-IsOrdered [] (b ∷ bs) h r = absurd h
described-IsOrdered (d ∷ ds) [] h r = absurd h
described-IsOrdered (d ∷ []) (b ∷ []) h r = (λ w. tt, tt)
described-IsOrdered (d ∷ []) (b ∷ c ∷ bs) h r = absurd h.1
described-IsOrdered (d ∷ e ∷ ds) (b ∷ []) h r = absurd h.1
described-IsOrdered (d ∷ e ∷ ds) (b ∷ c ∷ bs) h r = (
  described_rest d (e ∷ ds) b (c ∷ bs) h r,
  described-IsOrdered (e ∷ ds) (c ∷ bs) h.1 (ground arith),
)

-- Descriptors that describe buffers in the right order make a legal chain, which is collected as
-- these buffers.
pub described-IsLegal :
    (q : ℕ) (ds : List Descriptor) (bs : List Buffer)
    → AllDescribe ds bs
    → readable_first bs ≡ true
    → length bs ≤ q
    → claimed bs < u32_mod
    → IsLegal q ds × (gathered ds ≡ request_of bs)
described-IsLegal q ds bs h r n c =
    let (e, t) = described_sizes ds bs h in
    (
      record {
        short = omega arith;
        small = omega arith;
        ordered = described-IsOrdered ds bs h r;
        direct = described_direct ds bs h;
      },
      rw (described_readable ds bs h, described_writable ds bs h, e),
    )
