-- ===== src/Uffd/Setup/Opening.antt =====
-- What `Uffd::new` opens, and that it leaves nothing open when it fails.
use Prim.Native.Nat.{bit_or}
use systems_study.Prelude.{
  arith, ℕ, ◌≡◌, refl, ap, sym, Bool, true, false, ◌==◌, List, [], ◌∷◌, ◌++◌, append-nil,
}
use systems_study.Prelude.Result.{Result, ok, err}
use systems_study.Prelude.Owned.{fd, Event, acquired, Process}
use systems_study.Prelude.Owned.Tidy.{
  Tidy, Tidy-answered, Tidy-opened, Tidy-if, Tidy-bind, Tidy-keeping,
}
use systems_study.Uffd.Ioctl.{uffdio_api}
use systems_study.Uffd.Setup.{
  Uffd, UffdCalls, eperm, uffd_user_mode_only, uffd_api, open_flags, retry, fall_back, open_fd,
  handshake, new,
}

-- Where a descriptor comes from: the kernel gave it at once, and then it is unrestricted, or it
-- refused with EPERM and gave it for user mode only. `r` is the first answer.
abbrev pub From : {K : Type 0} → UffdCalls K → ℕ → Result ℕ ℕ × K → ℕ → Bool → Type 0
From sys base r raw false = r.0 ≡ ok raw
From sys base r raw true =
    (r.0 ≡ err eperm) × ((sys.userfaultfd (bit_or base uffd_user_mode_only) r.1).0 ≡ ok raw)

-- What `Uffd::new` promises.
abbrev pub Opened :
    {K : Type 0} → UffdCalls K → Bool → Process K → Uffd × Bool → List Event → Type 0
Opened sys non_blocking p u log =
    (log ≡ p.log ++ acquired (fd u.0.raw) ∷ [])
    × From sys (open_flags non_blocking) (sys.userfaultfd (open_flags non_blocking) p.kernel)
        u.0.raw u.1

abbrev refusal : ℕ → Result ℕ ℕ
refusal e = err e

only_eperm : (x : ℕ) → (x == eperm) ≡ true → refusal x ≡ refusal eperm
only_eperm x e = let same : x ≡ eperm = ground arith in ap refusal same

module _ {K : Type 0} (sys : UffdCalls K) where
  handshake-Tidy :
      (good : Uffd × Bool → List Event → Type 0) (l : List Event) (raw : ℕ) (restricted : Bool)
      (t : Process K)
      → t.log ≡ l
      → ((ioctls : ℕ) (log : List Event)
          → log ≡ l
          → good (record { raw = raw; supported_ioctls = ioctls }, restricted) log)
      → Tidy good l (handshake sys raw restricted t)
  unfolding handshake
  handshake-Tidy good l raw restricted t e h =
      Tidy-answered _ good l t
        (sys.api_ioctl raw uffdio_api (record { api = uffd_api; features = 0; ioctls = 0 })
          t.kernel)
        _ e λ api u e'. h api.ioctls u.log e'

  fall_back-Tidy :
      (base : ℕ) (p : Process K) (r : Result ℕ ℕ × K)
      → Tidy
          (λ a log. (log ≡ p.log ++ acquired (fd a.0) ∷ []) × From sys base r a.0 a.1)
          p.log
          (fall_back sys base p r)
  unfolding fall_back retry
  fall_back-Tidy base p (ok raw, k) = (refl, refl)
  fall_back-Tidy base p (err x, k) =
      Tidy-if _ p.log (x == eperm) (retry sys base (record p { kernel = k })) _
        (λ refused.
          Tidy-opened _ _ p.log (λ n. fd n) (record p { kernel = k })
            (sys.userfaultfd (bit_or base uffd_user_mode_only) k) _ refl
            λ raw q given e. (e, (only_eperm x refused, given)))
        ([], sym (append-nil p.log))

  -- Whatever the kernel answers, `Uffd::new` either returns a descriptor, says rightly whether it is
  -- restricted to user mode, which it is exactly when the kernel first refused with EPERM, and has
  -- acquired just that descriptor; or it stops with an error, and then nothing is left open.
  pub new-Opened :
      (non_blocking : Bool) (p : Process K)
      → Tidy (Opened sys non_blocking p) p.log (new sys non_blocking p)
  unfolding new open_fd
  new-Opened non_blocking p =
      let base = open_flags non_blocking in
      let first = sys.userfaultfd base p.kernel in
      Tidy-bind _ p.log _ (fall_back sys base p first) _ (fall_back-Tidy base p first) λ a q h.
        Tidy-keeping _ p.log (fd a.0) (handshake sys a.0 a.1) q
          (handshake-Tidy (Opened sys non_blocking p) _ a.0 a.1 q h.0 λ n log e'. (e', h.1))
