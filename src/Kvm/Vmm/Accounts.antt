-- ===== src/Kvm/Vmm/Accounts.antt =====
-- What the counters of `run` in vmm.rs and of the devices say of a run.
use systems_study.Prelude.{
  ℕ, zero, suc, ◌+◌, ◌≤◌, ◌<◌, ◌≡◌, refl, arith, inl, inr, ◌==◌, Option, none, some, Bool-cases,
}
use systems_study.Prelude.Result.{Result, ok, err, pure, bind_result}
use systems_study.Prelude.Word.{u64_mod}
use systems_study.Kvm.Device.{Devices}
use systems_study.Kvm.Device.Calls.{port_calls, mmio_calls}
use systems_study.Kvm.Vmm.{
  Session, Kernel, RunPage, RunSummary, RunError, handle_mmio, handle_io, dispatch, after_entry,
  round, run_loop, run, entered, no_exits, interrupt,
}
use systems_study.Kvm.Vmm.Rounds.{round-cases}
use systems_study.Kvm.Vmm.Counted.{Counted, HasRoom, Ready, exited, io_goes, mmio_goes}

-- What a finished run says: `n` entries, the last of them the exit of the halt.
pub record Balanced (d d' : Devices) (n : ℕ) (sum : RunSummary) : Type 0 where
  pub handled : sum.io_exits + sum.mmio_exits + 1 ≤ sum.exits
  pub all : sum.exits ≤ sum.io_exits + sum.mmio_exits + sum.interrupted + 1
  pub entries : sum.io_exits + sum.mmio_exits + sum.interrupted + 1 ≤ n
  pub ports : port_calls d' ≡ port_calls d + sum.io_exits
  pub mmios : mmio_calls d' ≡ mmio_calls d + sum.mmio_exits

-- The outcome of a round or of the loop, after `n` entries or at most `n` entries.
abbrev Outcome :
    {V : Type 0} → Devices → ℕ → Result RunError (Option RunSummary) × Session V → Type 0
Outcome d n (ok none, t) = Counted d n t
Outcome d n (ok (some sum), t) = Balanced d t.devices n sum
Outcome d n (err x, t) = Unit

-- A handler and the end of the round.
handled-Outcome :
    {V : Type 0} (d : Devices) (n : ℕ) (r : Result RunError (Unit {0}) × Session V)
    → ((t : Session V) → r ≡ (ok tt, t) → Counted d n t)
    → Outcome d n (bind_result r (λ u. pure none))
handled-Outcome d n (ok tt, t) goes = goes t refl
handled-Outcome d n (err x, t) goes = tt

module _ {V : Type 0} (d : Devices) (n : ℕ) (s : Session V) (h : Ready d n s) where
  abbrev c : Counted d n s
  c = h.0

  halt-Balanced : Balanced d s.devices (suc n) (exited d n s h).summary
  halt-Balanced = record {
    handled = omega (arith, c.handled, c.all, c.entries, h.2);
    all = omega (arith, c.handled, c.all, c.entries, h.2);
    entries = omega (arith, c.entries);
    ports = c.ports;
    mmios = c.mmios;
  }

  -- The host has interrupted the guest, with an exit or with `EINTR`.
  exit_interrupted : Counted d (suc n) (interrupt (exited d n s h)).1
  exit_interrupted = record {
    handled = omega (arith, c.handled, c.all, c.entries, h.2);
    all = omega (arith, c.handled, c.all, c.entries, h.2);
    entries = omega (arith, c.entries, h.2);
    ports = c.ports;
    mmios = c.mmios;
  }

  entry_interrupted : Counted d (suc n) (interrupt s).1
  entry_interrupted = record {
    handled = c.handled;
    all = omega (arith, c.all, c.entries, h.2);
    entries = omega (arith, c.entries, h.2);
    ports = c.ports;
    mmios = c.mmios;
  }

  dispatch-Outcome : (reason : ℕ) → Outcome d (suc n) (dispatch reason (exited d n s h))
  unfolding dispatch
  dispatch-Outcome reason = elim (Bool-cases (reason == 2)) [
    | inl e ↦ rw e (handled-Outcome d (suc n) (handle_io (exited d n s h)) (io_goes d n s h))
    | inr e ↦ elim (Bool-cases (reason == 6)) [
      | inl f ↦
          rw e (rw f (handled-Outcome d (suc n) (handle_mmio (exited d n s h)) (mmio_goes d n s h)))
      | inr f ↦ elim (Bool-cases (reason == 5)) [
        | inl g ↦ rw e (rw f (rw g halt-Balanced))
        | inr g ↦ elim (Bool-cases (reason == 10)) [
          | inl k ↦ rw e (rw f (rw g (rw k exit_interrupted)))
          | inr k ↦ rw e (rw f (rw g (rw k tt)))
        ]
      ]
    ]
  ]

  after_entry-Outcome : (r : Result ℕ (Unit {0})) → Outcome d (suc n) (after_entry r s)
  unfolding after_entry
  after_entry-Outcome (ok u) = dispatch-Outcome s.page.exit_reason
  after_entry-Outcome (err e) = elim (Bool-cases (e == 4)) [
    | inl f ↦ rw f entry_interrupted
    | inr f ↦ rw f tt
  ]

round-Outcome :
    {V : Type 0} (kvm_run : Kernel V) (d : Devices) (n : ℕ) (s : Session V)
    → Ready d n s
    → Outcome d (suc n) (round kvm_run s)
unfolding round
round-Outcome kvm_run d n s h =
    let answer = kvm_run s.vcpu s.page in
    let c = h.0 in
    let same : Counted d n (entered s answer) = record {
      handled = c.handled;
      all = c.all;
      entries = c.entries;
      ports = c.ports;
      mmios = c.mmios;
    } in
    after_entry-Outcome d n (entered s answer) (same, h.1, h.2) answer.0

Balanced-more :
    (d d' : Devices) (n k : ℕ) (sum : RunSummary)
    → n ≤ k
    → Balanced d d' n sum
    → Balanced d d' k sum
Balanced-more d d' n k sum le b = record {
  handled = b.handled;
  all = b.all;
  entries = omega (arith, b.entries);
  ports = b.ports;
  mmios = b.mmios;
}

-- The rest of the loop after a round.
rest-Outcome :
    {V : Type 0} (kvm_run : Kernel V) (d : Devices) (n fuel : ℕ) (s : Session V)
    → Counted d n s
    → HasRoom d (n + fuel)
    → n + fuel < u64_mod
    → Outcome d (n + fuel) (run_loop kvm_run fuel s)
unfolding run_loop
rest-Outcome kvm_run d n zero s c room small = let e : n + 0 ≡ n = omega arith in rw e c
rest-Outcome kvm_run d n (suc fuel) s c room small =
    let e : n + suc fuel ≡ suc n + fuel = omega arith in
    let ready : Ready d n s = (c, (omega (arith, room), omega (arith, room)), omega arith) in
    let t = (round kvm_run s).1 in
    let here = round-Outcome kvm_run d n s ready in
    elim (round-cases (round kvm_run s)) [
      | inl go ↦
          rw (e, go)
            (rest-Outcome kvm_run d (suc n) fuel t (rw go at here) (rw e at room) (rw e at small))
      | inr (inl (sum, stop)) ↦
          rw stop
            (Balanced-more d t.devices (suc n) (n + suc fuel) sum (omega arith) (rw stop at here))
      | inr (inr (x, stop)) ↦ rw stop tt
    ]

-- The books of a run balance. A run that returns after at most `fuel` entries into the guest counts
-- in `exits` every I/O exit, every MMIO exit and its last one, and no more than these and the
-- interruptions; all of them together are no more than the entries. For each I/O exit the devices
-- have counted one port access, and for each MMIO exit one MMIO access. The counters have room for
-- the entries.
pub run-Balanced :
    {V : Type 0} (kvm_run : Kernel V) (fuel : ℕ) (v : V) (page : RunPage) (d : Devices)
    (sum : RunSummary) (t : Session V)
    → port_calls d + fuel < u64_mod
    → mmio_calls d + fuel < u64_mod
    → fuel < u64_mod
    → run kvm_run fuel v page d ≡ (ok (some sum), t)
    → Balanced d t.devices fuel sum
unfolding run
run-Balanced kvm_run fuel v page d sum t ports mmios small e =
    let s : Session _ = record { vcpu = v; page = page; devices = d; summary = no_exits } in
    let start : Counted d 0 s = record {
      handled = omega arith;
      all = omega arith;
      entries = refl;
      ports = omega arith;
      mmios = omega arith;
    } in
    let zero_left : 0 + fuel ≡ fuel = omega arith in
    let all = rest-Outcome kvm_run d 0 fuel s start (omega arith, omega arith) (omega arith) in
    rw (zero_left, e) at all
