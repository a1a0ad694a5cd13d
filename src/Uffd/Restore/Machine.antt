-- ===== src/Uffd/Restore/Machine.antt =====
-- A kernel that does what the handler relies on, to run the demonstration.
use systems_study.Prelude.{
  ℕ, ◌+◌, ◌-◌, ◌/◌, ◌%◌, ◌≤◌, ◌<◌, ◌≡◌, refl, ap, ◌⊎◌, inl, inr, arith, Bool, false, true, leb, ltb,
  ◌&&◌, if◌then◌else◌, Option, none, some,
}
use systems_study.Prelude.Result.{Result, ok, err}
use systems_study.Uffd.{UffdMsg, UffdioCopy, pos, msg_size, eagain}
use systems_study.Uffd.Handler.{page, uffd_event_pagefault, Handler}
use systems_study.Uffd.Handler.Kernel.{Phase, running, parked, fetched, Paging, IsKernel}

pub record Memory : Type 0 where
  pub phase : Phase
  pub cells : ℕ → Option ℕ

abbrev pub src_at : ℕ
src_at = 0x100000

abbrev pub image_byte : ℕ → ℕ
image_byte a = (a - src_at) / page % 256

abbrev fault_message : ℕ → UffdMsg
fault_message a = record {
  event = uffd_event_pagefault;
  reserved1 = 0;
  reserved2 = 0;
  reserved3 = 0;
  pagefault_flags = 0;
  pagefault_address = a;
  pagefault_ptid = 0;
  pad = 0;
}

abbrev hand_over : Phase → Memory → Result ℕ (ℕ × UffdMsg) × Memory
hand_over running m = (err eagain, m)
hand_over (fetched a) m = (err eagain, m)
hand_over (parked a) m = (ok (msg_size, fault_message a), record m { phase = fetched a })

abbrev install : UffdioCopy → Memory → Memory
install c m = record {
  phase = running;
  cells = λ b.
      if leb c.dst b && ltb b (c.dst + c.len)
      then some (image_byte (c.src + (b - c.dst)))
      else m.cells b;
}

abbrev pub memory_paging : Paging Memory
memory_paging = record {
  sys = record {
    poll = λ t m. (ok 1, m);
    read = λ m. hand_over m.phase m;
    copy_ioctl = λ c m. (ok (record c { copied = pos c.len }), install c m);
    register_ioctl = λ r m. (ok r, m);
    wake_ioctl = λ r m. (ok tt, m);
    stopped = λ m. (false, m);
  };
  phase = λ m. m.phase;
  look = λ m a. m.cells a;
  fault = λ a m. record m { phase = parked a };
  image = image_byte;
}

memory_message :
    (a : ℕ) (m : Memory)
    → m.phase ≡ parked a
    → (msg : UffdMsg) × (m' : Memory) × (hand_over m.phase m ≡ (ok (msg_size, msg), m'))
      × (msg.event ≡ uffd_event_pagefault)
      × (msg.pagefault_address / page ≡ a / page)
      × (m'.phase ≡ fetched a)
      × ((b : ℕ) → m'.cells b ≡ m.cells b)
memory_message a m e = (
  fault_message a,
  record m { phase = fetched a },
  ap (λ (p : Phase). hand_over p m) e,
  refl,
  refl,
  refl,
  (λ b. refl),
)

install_inside :
    (c : UffdioCopy) (m : Memory) (i : ℕ)
    → i < c.len
    → (install c m).cells (c.dst + i) ≡ some (image_byte (c.src + i))
install_inside c m i h =
    let back : c.dst + i - c.dst ≡ i = omega arith in
    let test : (leb c.dst (c.dst + i) && ltb (c.dst + i) (c.dst + c.len)) ≡ true = ground arith in
    rw (test, back)

install_outside :
    (c : UffdioCopy) (m : Memory) (b : ℕ)
    → (b < c.dst) ⊎ (c.dst + c.len ≤ b)
    → (install c m).cells b ≡ m.cells b
install_outside c m b h =
    let test : (leb c.dst b && ltb b (c.dst + c.len)) ≡ false = ground arith in rw test

pub memory-IsKernel : IsKernel memory_paging
memory-IsKernel = record {
  parks = λ a m e n. refl;
  parks_only = λ a b m. refl;
  flag = λ a m e. refl;
  ready = λ a t m e. (0, refl);
  message = memory_message;
  installs = λ a c m e f al ll lo hi absent. (
    install c m,
    refl,
    refl,
    install_inside c m,
    (λ b h. install_outside c m b (inl h)),
    (λ b h. install_outside c m b (inr h)),
  );
}

abbrev pub handler : ℕ → ℕ → Bool → Handler
handler pages batch spin = record {
  region_start = 0x10000;
  region_pages = pages;
  src = src_at;
  batch_pages = batch;
  spin = spin;
}

-- No page is installed.
abbrev pub fresh : Memory
fresh = record { phase = running; cells = λ a. none }
