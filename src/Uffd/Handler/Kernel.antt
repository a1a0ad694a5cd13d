-- ===== src/Uffd/Handler/Kernel.antt =====
-- What the handler relies on: userfaultfd as ioctl_userfaultfd(2) and the kernel's documentation
-- describe it, for one thread that faults and one that serves.
use systems_study.Prelude.{ℕ, suc, ◌+◌, ◌*◌, ◌/◌, ◌%◌, ◌≤◌, ◌<◌, ◌≡◌, false, Option, none, some}
use systems_study.Prelude.Result.{ok}
use systems_study.Uffd.{Syscalls, UffdMsg, UffdioCopy, pos, msg_size}
use systems_study.Uffd.Handler.{page, uffd_event_pagefault}

-- The faulting thread: it runs, it is parked with its message to be read, or the message was read.
pub data Phase : Type 0 where
  running : Phase
  parked fetched : ℕ → Phase

-- `look` is what a load finds, or `none` where it would fault; `fault` parks the thread; `image`
-- holds the bytes that are copied.
pub record Paging (K : Type 0) : Type 0 where
  pub sys : Syscalls K
  pub phase : K → Phase
  pub look : K → ℕ → Option ℕ
  pub fault : ℕ → K → K
  pub image : ℕ → ℕ

pub record IsKernel {K : Type 0} (g : Paging K) : Type 0 where
  -- A load of a page that is absent parks the thread, and installs nothing.
  pub parks :
      (a : ℕ) (k : K) → g.phase k ≡ running → g.look k a ≡ none → g.phase (g.fault a k) ≡ parked a
  pub parks_only : (a b : ℕ) (k : K) → g.look (g.fault a k) b ≡ g.look k b
  -- While it is parked, nobody stops the handler, and its message can be read.
  pub flag : (a : ℕ) (k : K) → g.phase k ≡ parked a → g.sys.stopped k ≡ (false, k)
  pub ready :
      (a t : ℕ) (k : K) → g.phase k ≡ parked a → (n : ℕ) × (g.sys.poll t k ≡ (ok (suc n), k))
  -- The message names the page, whether or not its address is rounded.
  pub message :
      (a : ℕ) (k : K)
      → g.phase k ≡ parked a
      → (msg : UffdMsg) × (k' : K) × (g.sys.read k ≡ (ok (msg_size, msg), k'))
        × (msg.event ≡ uffd_event_pagefault)
        × (msg.pagefault_address / page ≡ a / page)
        × (g.phase k' ≡ fetched a)
        × ((b : ℕ) → g.look k' b ≡ g.look k b)
  -- A copy over absent pages, the awaited one among them, installs them and wakes the thread.
  pub installs :
      (a : ℕ) (c : UffdioCopy) (k : K)
      → g.phase k ≡ fetched a
      → c.mode ≡ 0
      → c.dst % page ≡ 0
      → c.len % page ≡ 0
      → c.dst ≤ a
      → a < c.dst + c.len
      → ((i : ℕ) → i * page < c.len → g.look k (c.dst + i * page) ≡ none)
      → (k' : K) × (g.sys.copy_ioctl c k ≡ (ok (record c { copied = pos c.len }), k'))
        × (g.phase k' ≡ running)
        × ((i : ℕ) → i < c.len → g.look k' (c.dst + i) ≡ some (g.image (c.src + i)))
        × ((b : ℕ) → b < c.dst → g.look k' b ≡ g.look k b)
        × ((b : ℕ) → c.dst + c.len ≤ b → g.look k' b ≡ g.look k b)
