-- ===== src/Uffd/Event.antt =====
-- `read_event` of uffd.rs: what it takes for a message, and what for no message yet.
use systems_study.Prelude.{ℕ, zero, suc, ◌≡◌, ◌↔◌, ◌⊎◌, inl, inr, arith, Option, none, some}
use systems_study.Prelude.Result.{Result, ok, err}
use systems_study.Uffd.{Syscalls, UffdMsg, eintr, eagain, msg_size, read_event, polled, received}

-- What the answer of `read` means for the caller.
abbrev Received : Result ℕ (ℕ × UffdMsg) → Option UffdMsg → Type 0
Received answer o =
    ((o ≡ none) × (answer ≡ err eagain))
    ⊎ ((m : UffdMsg) × (o ≡ some m) × (answer ≡ ok (msg_size, m)))

-- What the answers of `poll` and of the `read` that follows it mean.
abbrev pub Polled : Result ℕ ℕ → Result ℕ (ℕ × UffdMsg) → Option UffdMsg → Type 0
Polled (err e) answer o = (o ≡ none) × (e ≡ eintr)
Polled (ok zero) answer o = o ≡ none
Polled (ok (suc n)) answer o = Received answer o

received_iff :
    {K : Type 0} (sys : Syscalls K) (answer : Result ℕ (ℕ × UffdMsg) × K) (o : Option UffdMsg)
    → ((received sys answer).0 ≡ ok o) ↔ Received answer.0 o
unfolding received
received_iff sys (err e, k) o =
    (λ h. inl (ground arith), λ h. elim h [ inl (a, b) ↦ ground arith | inr (m, a, b) ↦ cc ])
received_iff sys (ok (got, m), k) o = (
  λ h. inr (m, ground arith, ground arith),
  λ h. elim h [ inl (a, b) ↦ cc | inr (m', a, b) ↦ ground arith ],
)

polled_iff :
    {K : Type 0} (sys : Syscalls K) (p : Result ℕ ℕ × K) (o : Option UffdMsg)
    → ((polled sys p).0 ≡ ok o) ↔ Polled p.0 (sys.read p.1).0 o
unfolding polled
polled_iff sys (err e, k) o = (λ h. ground arith, λ h. ground arith)
polled_iff sys (ok zero, k) o = (λ h. ground arith, λ h. ground arith)
polled_iff sys (ok (suc n), k) o = received_iff sys (sys.read k) o

-- `read_event` returns a message exactly when `poll` reports the descriptor and `read` returns that
-- message whole. It returns none exactly when `poll` times out or is interrupted, or when another
-- handler has taken the message that `poll` reported (`EAGAIN`). All else is an error.
pub read_event_iff :
    {K : Type 0} (sys : Syscalls K) (timeout_ms : ℕ) (k : K) (o : Option UffdMsg)
    → let p = sys.poll timeout_ms k in
      ((read_event sys timeout_ms k).0 ≡ ok o) ↔ Polled p.0 (sys.read p.1).0 o
unfolding read_event
read_event_iff sys timeout_ms k o = polled_iff sys (sys.poll timeout_ms k) o
