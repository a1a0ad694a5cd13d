-- ===== src/Kvm/Guest/Laws.antt =====
-- The programs that guest.rs builds, and where `load` of vmm.rs puts their bytes.
use Prim.Native.Nat.{bit_and}
use systems_study.Prelude.{
  inl, inr, ℕ, zero, suc, ◌+◌, ◌*◌, ◌/◌, ◌%◌, ◌<◌, ◌≤◌, ◌≡◌, ◌⊎◌, arith, refl, Bool, true, false,
  if◌then◌else◌, none, some, List, [], ◌∷◌, ◌==◌, ==_iff, ◌++◌, length, take, drop, length-append,
  length-take, length-drop, take_all, drop_all,
}
use systems_study.Prelude.Word.{u16_mod, u64_mod}
use systems_study.Kvm.Guest.{bench_program, loaded, exceeds, stray, load}

-- A test that holds of every number below a bound, checked by evaluation.
every_below : ℕ → (ℕ → Bool) → Bool
every_below zero test = true
every_below (suc n) test = let rest = every_below n test in if test n then rest else false

every_below_lem :
    (n : ℕ) (test : ℕ → Bool) (x : ℕ) → every_below n test ≡ true → x < n → test x ≡ true
unfolding every_below
every_below_lem zero test x e h = absurd (omega arith)
every_below_lem (suc n) test x e h = ground (arith, every_below_lem n test x)

-- The low byte of the 16-bit number of bytes `hi` and `lo`.
abbrev masks_low : ℕ → ℕ → Bool
masks_low hi lo = bit_and (256 * hi + lo) 0xff == lo

masks_table : every_below 256 (λ hi. every_below 256 (masks_low hi)) ≡ true
unfolding every_below
masks_table = refl

low_byte : (c : ℕ) → c < u16_mod → bit_and c 0xff ≡ c % 256
low_byte c h =
    let lo = c % 256 in
    let hi = c / 256 in
    let row =
      every_below_lem 256 (λ n. every_below 256 (masks_low n)) hi masks_table (omega arith) in
    let cell = every_below_lem 256 (masks_low hi) lo row (omega arith) in
    let whole : 256 * hi + lo ≡ c = omega arith in
    let e = (==_iff (bit_and (256 * hi + lo) 0xff) lo).0 cell in rw whole at e

-- `bench_program` panics on 0 and above 65535. For every other count it returns the template with
-- the operand of `mov cx` replaced by the count, low byte first, and no byte else.
pub bench_program_lem :
    (count : ℕ)
    → (((count ≡ 0) ⊎ (65535 < count)) × (bench_program count ≡ none))
      ⊎ ((0 < count)
          × (count ≤ 65535)
          × (lo : ℕ) × (hi : ℕ) × (lo < 256)
          × (hi < 256)
          × (lo + 256 * hi ≡ count)
          × (bench_program count
              ≡ some (0xba ∷ 0x80 ∷ 0x00 ∷ 0xb9 ∷ lo ∷ hi ∷ 0xee ∷ 0xe2 ∷ 0xfd ∷ 0xf4 ∷ [])))
unfolding bench_program
bench_program_lem count =
    let cases : ((count ≡ 0) ⊎ (65535 < count)) ⊎ ((0 < count) × (count ≤ 65535)) = omega arith in
    elim cases [
      | inl bad ↦ inl (bad, ground arith)
      | inr (pos, fits) ↦
          let same : count % u16_mod ≡ count = omega arith in
          let low = low_byte (count % u16_mod) (omega arith) in
          inr (
            pos,
            fits,
            count % 256,
            count / 256,
            omega arith,
            omega arith,
            omega arith,
            ground (arith, low),
          )
    ]

module _ (ram : List ℕ) (gpa : ℕ) (bytes : List ℕ) (inside : gpa + length bytes ≤ length ram) where
  abbrev front : List ℕ
  front = take gpa ram

  abbrev back : List ℕ
  back = drop (gpa + length bytes) ram

  front-length : length front ≡ gpa
  front-length = omega (arith, length-take gpa ram)

  after_front : drop gpa (front ++ (bytes ++ back)) ≡ bytes ++ back
  after_front = rw front-length at (drop_all front (bytes ++ back))

  before_bytes : take gpa (front ++ (bytes ++ back)) ≡ front
  before_bytes = rw front-length at (take_all front (bytes ++ back))

  placed_bytes : take (length bytes) (drop gpa (front ++ (bytes ++ back))) ≡ bytes
  placed_bytes = rw after_front (take_all bytes back)

  after_bytes : drop (length bytes) (drop gpa (front ++ (bytes ++ back))) ≡ back
  after_bytes = rw after_front (drop_all bytes back)

  same_length : length (front ++ (bytes ++ back)) ≡ length ram
  same_length = omega (
    arith,
    length-append front (bytes ++ back),
    length-append bytes back,
    length-drop (gpa + length bytes) ram,
    front-length,
  )

-- The memory after a load: `bytes` stand at `gpa`, and the rest is as it was.
pub record IsLoaded (ram ram' : List ℕ) (gpa : ℕ) (bytes : List ℕ) : Type 0 where
  pub size : length ram' ≡ length ram
  pub before : take gpa ram' ≡ take gpa ram
  pub at_gpa : take (length bytes) (drop gpa ram') ≡ bytes
  pub after : drop (length bytes) (drop gpa ram') ≡ drop (gpa + length bytes) ram

-- For a 64-bit address: a load that ends inside guest memory puts its bytes at `gpa` and changes
-- nothing else. One that ends outside it, below 2^64, is refused. Where the end passes 2^64 the sum
-- wraps: the load is refused if the wrapped end lies outside guest memory too, and else it passes
-- the check and copies outside the mapping.
pub load_lem :
    (ram : List ℕ) (gpa : ℕ) (bytes : List ℕ)
    → length ram < u64_mod
    → length bytes < u64_mod
    → gpa < u64_mod
    → let end = gpa + length bytes in
      ((end ≤ length ram)
        × (ram' : List ℕ) × (load ram gpa bytes ≡ loaded ram')
        × IsLoaded ram ram' gpa bytes)
      ⊎ (((length ram < end) × (end < u64_mod) × (load ram gpa bytes ≡ exceeds))
          ⊎ (((length ram + u64_mod < end) × (load ram gpa bytes ≡ exceeds))
              ⊎ ((u64_mod ≤ end) × (end ≤ length ram + u64_mod) × (load ram gpa bytes ≡ stray))))
unfolding load
load_lem ram gpa bytes small_ram small_bytes small =
    let end = gpa + length bytes in
    let cases : (end ≤ length ram)
        ⊎ (((length ram < end) × (end < u64_mod))
            ⊎ ((length ram + u64_mod < end) ⊎ ((u64_mod ≤ end) × (end ≤ length ram + u64_mod)))) =
      omega arith in
    elim cases [
      | inl inside ↦ inl (
        inside,
        front ram gpa bytes inside ++ (bytes ++ back ram gpa bytes inside),
        ground arith,
        record {
          size = same_length ram gpa bytes inside;
          before = before_bytes ram gpa bytes inside;
          at_gpa = placed_bytes ram gpa bytes inside;
          after = after_bytes ram gpa bytes inside;
        },
      )
      | inr (inl (outside, fits)) ↦ inr (inl (outside, fits, ground arith))
      | inr (inr (inl outside)) ↦ inr (inr (inl (outside, ground arith)))
      | inr (inr (inr (wraps, inside))) ↦ inr (inr (inr (wraps, inside, ground arith)))
    ]
