-- ===== src/Uffd/Handler.antt =====
-- rung-03-uffd/toy-uffd-raw/src/main.rs: the fault handler, `Handler`, `HandlerStats` and
-- `handler_loop`. What it prints is left out; subtractions wrap as in a release build.
pub mod Kernel
pub mod Turn
use systems_study.Prelude.{
  ℕ, zero, suc, ◌+◌, ◌-◌, ◌*◌, ◌/◌, ◌%◌, min, Bool, true, false, ◌==◌, if◌then◌else◌, Option, none,
  some,
}
use systems_study.Prelude.Result.{Result, ok, err}
use systems_study.Prelude.Word.{u64_mod, add64, mul64}
use systems_study.Uffd.{Syscalls, UffdMsg, IoError, read_event, read_event_spin, copy}

abbrev pub page : ℕ
page = 4096

abbrev pub uffd_event_pagefault : ℕ
uffd_event_pagefault = 0x12

pub record HandlerStats : Type 0 where
  pub faults : ℕ
  pub pages_installed : ℕ
  pub write_faults : ℕ

abbrev pub no_stats : HandlerStats
no_stats = record { faults = 0; pages_installed = 0; write_faults = 0 }

-- The region and the image are given by their addresses.
pub record Handler : Type 0 where
  pub region_start : ℕ
  pub region_pages : ℕ
  pub src : ℕ
  pub batch_pages : ℕ
  pub spin : Bool

abbrev pub sub64 : ℕ → ℕ → ℕ
sub64 a b = (a + u64_mod - b) % u64_mod

-- The message counts as a fault, and as a write fault if its flag says so.
unfoldable pub count_fault : UffdMsg → HandlerStats → HandlerStats
count_fault msg s = record s {
  faults = add64 s.faults 1;
  write_faults = if msg.pagefault_flags % 2 == 1 then add64 s.write_faults 1 else s.write_faults;
}

pub data Control : Type 0 where
  next quit : Control

module _ {K : Type 0} where
  -- After `UFFDIO_COPY`: a failure ends the thread.
  abbrev pub copied : HandlerStats → Result IoError ℕ × K → Control × HandlerStats × K
  copied s (ok n, k) = (next, record s { pages_installed = add64 s.pages_installed (n / page) }, k)
  copied s (err e, k) = (quit, s, k)

  abbrev pub at_once :
      Result IoError (Option UffdMsg) × K → Option (Result IoError (Option UffdMsg)) × K
  at_once (r, k) = (some r, k)

  abbrev pub go_on :
      (HandlerStats → K → HandlerStats × K) → Control × HandlerStats × K → HandlerStats × K
  go_on rest (next, s, k) = rest s k
  go_on rest (quit, s, k) = (s, k)

module _ {K : Type 0} (sys : Syscalls K) (h : Handler) where
  -- The pages from the faulting one on are installed, at most as many as the region still has.
  pub serve : UffdMsg → HandlerStats → K → Control × HandlerStats × K
  serve msg s k =
      let addr = msg.pagefault_address - msg.pagefault_address % page in
      let number = sub64 addr h.region_start / page in
      let run = min h.batch_pages (sub64 h.region_pages number) in
      let len = mul64 run page in
      copied s (copy sys addr (add64 h.src (mul64 number page)) len true k)

  -- What the loop does with the answer of its read; `none` says that it is spinning still.
  pub handle :
      HandlerStats → Option (Result IoError (Option UffdMsg)) × K → Control × HandlerStats × K
  unfolding serve count_fault
  handle s (none, k) = (next, s, k)
  handle s (some (ok none), k) = (next, s, k)
  handle s (some (err e), k) = (quit, s, k)
  handle s (some (ok (some msg)), k) =
      if msg.event == uffd_event_pagefault then serve msg (count_fault msg s) k else (next, s, k)

  -- One pass of the loop; `fuel` bounds the spinning.
  pub turn : ℕ → HandlerStats → K → Control × HandlerStats × K
  unfolding handle
  turn fuel s k =
      let (stop, k') = sys.stopped k in
      if stop
      then (quit, s, k')
      else handle s (if h.spin then read_event_spin sys fuel k' else at_once (read_event sys 50 k'))

  -- The thread, for a number of passes.
  pub handler_loop : ℕ → HandlerStats → K → HandlerStats × K
  unfolding turn
  handler_loop zero s k = (s, k)
  handler_loop (suc fuel) s k = go_on (handler_loop fuel) (turn (suc fuel) s k)
