-- ===== src/Uffd/Spin.antt =====
-- `read_event_spin` and `copy` of uffd.rs: how the loop ends, and when a page counts as installed.
use systems_study.Prelude.{
  ℕ, zero, suc, ◌<◌, ◌≡◌, ◌≢◌, Bool-cases, true, false, ◌↔◌, ◌⊎◌, inl, inr, refl, sym, ap, ◌∙◌,
  arith, Bool, if◌then◌else◌, Option, none, some,
}
use systems_study.Prelude.Result.{Result, ok, err}
use systems_study.Uffd.{
  Syscalls, UffdMsg, UffdioCopy, ℤ, pos, negsuc, IoError, os, eagain, eintr, msg_size, eexist, spun,
  spin_round, read_event_spin, copy, by_ioctl, by_out, uffdio_copy_mode_dontwake,
}

-- The answer of a round or of the loop, with the state after it.
abbrev pub Answer : Type 0 → Type 0
Answer K = Option (Result IoError (Option UffdMsg)) × K

-- Answers of `read` after which the loop tries again: no message, an interruption, a short read.
abbrev pub Nothing : Result ℕ (ℕ × UffdMsg) → Type 0
Nothing a =
    (a ≡ err eagain)
    ⊎ ((a ≡ err eintr) ⊎ ((got : ℕ) × (msg : UffdMsg) × (a ≡ ok (got, msg)) × (got ≢ msg_size)))

-- Answers of `read` that end the loop, with the result: a whole message, or any other error.
abbrev pub Says : Result ℕ (ℕ × UffdMsg) → Result IoError (Option UffdMsg) → Type 0
Says a r =
    ((msg : UffdMsg) × (a ≡ ok (msg_size, msg)) × (r ≡ ok (some msg)))
    ⊎ ((e : ℕ) × (a ≡ err e) × (e ≢ eagain) × (e ≢ eintr) × (r ≡ err (os e)))

-- The flag is not set and `read` gives nothing; the two calls lead from `k` to `l`.
abbrev pub Quiet : {K : Type 0} → Syscalls K → K → K → Type 0
Quiet sys k l =
    let (stop, k') = sys.stopped k in
    (stop ≡ false) × Nothing (sys.read k').0 × ((sys.read k').1 ≡ l)

-- The flag is set, which is no message and no error, or it is not and `read` ends the loop.
abbrev pub Ends : {K : Type 0} → Syscalls K → K → Result IoError (Option UffdMsg) → K → Type 0
Ends sys k r l =
    let (stop, k') = sys.stopped k in
    ((stop ≡ true) × (r ≡ ok none) × (k' ≡ l))
    ⊎ ((stop ≡ false) × Says (sys.read k').0 r × ((sys.read k').1 ≡ l))

-- `n` times the flag was not set and there was nothing to read.
pub data Spins {K : Type 0} (sys : Syscalls K) : ℕ → K → K → Type 0 where
  here : (k : K) → Spins sys 0 k k
  again : {n : ℕ} (k l m : K) → Quiet sys k l → Spins sys n l m → Spins sys (suc n) k m

spun-Nothing : (a : Result ℕ (ℕ × UffdMsg)) → (spun a ≡ none) ↔ Nothing a
unfolding spun
spun-Nothing (ok (got, msg)) = ground arith
spun-Nothing (err e) = ground arith

spun-Says :
    (a : Result ℕ (ℕ × UffdMsg)) (r : Result IoError (Option UffdMsg))
    → (spun a ≡ some r) ↔ Says a r
unfolding spun
spun-Says (ok (got, msg)) r = ground arith
spun-Says (err e) r = ground arith

-- Two equal parts make two equal answers.
pair_path :
    {K : Type 0} {a b : Option (Result IoError (Option UffdMsg))} {k l : K}
    → a ≡ b
    → k ≡ l
    → ◌≡◌ {A = Answer K} (a, k) (b, l)
pair_path e f = cc

-- One round, told by its two calls.
module _ {K : Type 0} (sys : Syscalls K) (k l : K) where
  stopped-round : (sys.stopped k).0 ≡ true → spin_round sys k ≡ (some (ok none), (sys.stopped k).1)
  unfolding spin_round
  stopped-round e = rw e refl

  read-round :
      (sys.stopped k).0 ≡ false
      → spin_round sys k ≡ (spun (sys.read (sys.stopped k).1).0, (sys.read (sys.stopped k).1).1)
  unfolding spin_round
  read-round e = rw e refl

  round-Quiet : (spin_round sys k ≡ (none, l)) ↔ Quiet sys k l
  round-Quiet =
      let nothing = spun-Nothing (sys.read (sys.stopped k).1).0 in
      elim (Bool-cases (sys.stopped k).0) [
        | inl e ↦ (λ h. absurd (cc (stopped-round e, h)), λ q. absurd (cc (e, q.0)))
        | inr e ↦ (
          λ h.
              let both = sym (read-round e) ∙ h in
              (e, nothing.0 (ap (λ (a : Answer K). a.0) both), ap (λ (a : Answer K). a.1) both),
          λ (f, n, same). read-round e ∙ pair_path (nothing.1 n) same,
        )
      ]

  round-Ends :
      (r : Result IoError (Option UffdMsg)) → (spin_round sys k ≡ (some r, l)) ↔ Ends sys k r l
  round-Ends r =
      let says = spun-Says (sys.read (sys.stopped k).1).0 r in
      elim (Bool-cases (sys.stopped k).0) [
        | inl e ↦ (
          λ h.
              let both = sym (stopped-round e) ∙ h in
              inl (e, cc both, ap (λ (a : Answer K). a.1) both),
          λ h. elim h [
            | inl (f, none_read, same) ↦ stopped-round e ∙ pair_path (ap some (sym none_read)) same
            | inr (f, said, same) ↦ absurd (cc (e, f))
          ],
        )
        | inr e ↦ (
          λ h.
              let both = sym (read-round e) ∙ h in
              inr (e, says.0 (ap (λ (a : Answer K). a.0) both), ap (λ (a : Answer K). a.1) both),
          λ h. elim h [
            | inl (f, none_read, same) ↦ absurd (cc (e, f))
            | inr (f, s, same) ↦ read-round e ∙ pair_path (says.1 s) same
          ],
        )
      ]

module _ {K : Type 0} (sys : Syscalls K) where
  spin-next :
      (fuel : ℕ) (k l : K)
      → spin_round sys k ≡ (none, l)
      → read_event_spin sys (suc fuel) k ≡ read_event_spin sys fuel l
  unfolding read_event_spin
  spin-next fuel k l e = rw (read_event_spin, e) (ap (λ a. read_event_spin sys fuel a.1) e)

  pub spin-stop :
      (fuel : ℕ) (k l : K) (r : Result IoError (Option UffdMsg))
      → spin_round sys k ≡ (some r, l)
      → read_event_spin sys (suc fuel) k ≡ (some r, l)
  unfolding read_event_spin
  spin-stop fuel k l r e = rw (read_event_spin, e) (ap (λ (a : Answer _). (some r, a.1)) e)

  spin-zero :
      (k l : K) (r : Result IoError (Option UffdMsg)) → read_event_spin sys 0 k ≡ (some r, l) → ⊥
  unfolding read_event_spin
  spin-zero k l r e = cc

round-cases :
    {K : Type 0} (a : Answer K)
    → (a ≡ (none, a.1)) ⊎ ((r : Result IoError (Option UffdMsg)) × (a ≡ (some r, a.1)))
round-cases (none, k) = inl refl
round-cases (some r, k) = inr (r, refl)

to_rounds :
    {K : Type 0} (sys : Syscalls K) (fuel : ℕ) (k l : K) (r : Result IoError (Option UffdMsg))
    → read_event_spin sys fuel k ≡ (some r, l)
    → (n : ℕ) × (n < fuel) × (m : K) × Spins sys n k m × Ends sys m r l
to_rounds sys zero k l r e = absurd (spin-zero sys k l r e)
to_rounds sys (suc fuel) k l r e = elim (round-cases (spin_round sys k)) [
  | inl go ↦
      let m = (spin_round sys k).1 in
      let (n, lt, last, spins, stop) =
        to_rounds sys fuel m l r (sym (spin-next sys fuel k m go) ∙ e) in
      (suc n, omega arith, last, again k m last ((round-Quiet sys k m).0 go) spins, stop)
  | inr (answer, stop) ↦
      let m = (spin_round sys k).1 in
      let whole = stop ∙ (sym (spin-stop sys fuel k m answer stop) ∙ e) in
      (0, omega arith, k, here k, (round-Ends sys k l r).0 whole)
]

from_rounds :
    {K : Type 0} (sys : Syscalls K) (fuel n : ℕ) (k l m : K) (r : Result IoError (Option UffdMsg))
    → n < fuel
    → Spins sys n k m
    → Ends sys m r l
    → read_event_spin sys fuel k ≡ (some r, l)
from_rounds sys zero n k l m r lt spins e = absurd (omega arith)
from_rounds sys (suc fuel) zero k l m r lt (here _) e =
    spin-stop sys fuel k l r ((round-Ends sys k l r).1 e)
from_rounds sys (suc fuel) (suc n) k l m r lt (again _ k' _ go spins) e =
    spin-next sys fuel k k' ((round-Quiet sys k k').1 go)
    ∙ from_rounds sys fuel n k' l m r (omega arith) spins e

-- `read_event_spin` returns a result exactly when, after some number of rounds smaller than the fuel
-- in each of which the flag was not set and `read` gave `EAGAIN`, `EINTR` or a short read, either
-- the flag is set and the result is no message, or it is not and `read` gives a whole message, which
-- is the result, or an error other than these two, which is returned.
pub read_event_spin_iff :
    {K : Type 0} (sys : Syscalls K) (fuel : ℕ) (k l : K) (r : Result IoError (Option UffdMsg))
    → (read_event_spin sys fuel k ≡ (some r, l))
      ↔ ((n : ℕ) × (n < fuel) × (m : K) × Spins sys n k m × Ends sys m r l)
read_event_spin_iff sys fuel k l r =
    (λ e. to_rounds sys fuel k l r e, λ h. from_rounds sys fuel h.0 k l h.2 r h.1 h.3 h.4)

-- The request that `copy` hands to the kernel.
abbrev pub request : ℕ → ℕ → ℕ → Bool → UffdioCopy
request dst src len wake = record {
  dst = dst;
  src = src;
  len = len;
  mode = if wake then 0 else uffdio_copy_mode_dontwake;
  copied = pos 0;
}

-- What the kernel said that makes `copy` return `n` bytes.
abbrev pub Installed : Result ℕ UffdioCopy → ℕ → Type 0
Installed answer n =
    ((c : UffdioCopy) × (answer ≡ ok c) × (c.copied ≡ pos n))
    ⊎ ((n ≡ 0)
        × ((answer ≡ err eexist) ⊎ ((c : UffdioCopy) × (answer ≡ ok c) × (c.copied ≡ negsuc 16))))

out_iff : (x : ℤ) (n : ℕ) → (by_out x ≡ ok n) ↔ ((x ≡ pos n) ⊎ ((n ≡ 0) × (x ≡ negsuc 16)))
out_iff (pos k) n = ground arith
out_iff (negsuc k) n = ground arith

abbrev copied_of : Result ℕ UffdioCopy → ℤ
copied_of (ok c) = c.copied
copied_of (err e) = pos 0

by_ioctl_iff :
    (answer : Result ℕ UffdioCopy) (n : ℕ) → (by_ioctl answer ≡ ok n) ↔ Installed answer n
by_ioctl_iff (err e) n = (
  λ h. inr (ground arith, inl (ground arith)),
  λ h. elim h [ inl (c, a, b) ↦ cc | inr (z, inl a) ↦ ground arith | inr (z, inr (c, a, b)) ↦ cc ],
)
by_ioctl_iff (ok c) n = (
  λ h. elim ((out_iff c.copied n).0 h) [
    | inl a ↦ inl (c, refl, a)
    | inr (z, a) ↦ inr (z, inr (c, refl, a))
  ],
  λ h. elim h [
    | inl (c', a, b) ↦ (out_iff c.copied n).1 (inl (ap copied_of a ∙ b))
    | inr (z, inl a) ↦ cc
    | inr (z, inr (c', a, b)) ↦ (out_iff c.copied n).1 (inr (z, ap copied_of a ∙ b))
  ],
)

-- `copy` counts a page as installed exactly when the kernel says so: it returns `n` bytes where the
-- ioctl succeeds and its out-parameter is `n`, and 0 bytes also where another thread was first,
-- whichever way the kernel reports that: `EEXIST` by the call, or by the out-parameter of a call
-- that succeeds. In every other case, a negative out-parameter included, it returns an error.
pub copy_iff :
    {K : Type 0} (sys : Syscalls K) (dst src len : ℕ) (wake : Bool) (k : K) (n : ℕ)
    → ((copy sys dst src len wake k).0 ≡ ok n)
      ↔ Installed (sys.copy_ioctl (request dst src len wake) k).0 n
unfolding copy
copy_iff sys dst src len wake k n = by_ioctl_iff (sys.copy_ioctl (request dst src len wake) k).0 n
