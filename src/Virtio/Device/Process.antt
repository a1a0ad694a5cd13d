-- ===== src/Virtio/Device/Process.antt =====
-- `Device::process`: drain every available chain.
pub mod Writes
pub mod Round
pub mod Serve
pub mod Entries
pub mod Drain
pub mod Complete
use systems_study.Prelude.{
  ℕ, zero, suc, ◌+◌, ◌-◌, ◌%◌, min, leb, if◌then◌else◌, Option, none, some, List, [], ◌∷◌, ◌++◌,
  length, take, drop,
}
use systems_study.Prelude.Result.{Result, ok, err, ◌>>=◌, ◌>>◌, bind_result, pure, state, modify}
use systems_study.Prelude.Word.{add32, add64, u32_mod}
use systems_study.Virtio.Mem.{MemError, SharedMem, read_slice, write_slice}
use systems_study.Virtio.Chain.{ChainError, Gathered, collect}
use systems_study.Virtio.Device.{World, Action, pop_chain_head, add_used}

pub data RejectReason : Type 0 where
  chain : ChainError → RejectReason
  buffer : MemError → RejectReason

pub record ProcessStats : Type 0 where
  pub chains : ℕ
  pub descriptors : ℕ
  pub bytes_read : ℕ
  pub bytes_written : ℕ
  pub rejected : List (ℕ × RejectReason)

pub default : ProcessStats
default = record { chains = 0; descriptors = 0; bytes_read = 0; bytes_written = 0; rejected = [] }

abbrev pub errors : ProcessStats → ℕ
errors s = length s.rejected

-- The request so far, and the rejections.
pub gather_request :
    SharedMem
    → ℕ
    → List (ℕ × ℕ)
    → List ℕ
    → List (ℕ × RejectReason)
    → List ℕ × List (ℕ × RejectReason)
gather_request m head [] request rejected = (request, rejected)
gather_request m head ((addr, len) ∷ rest) request rejected = elim (read_slice m addr len) [
  | ok s ↦ gather_request m head rest (request ++ s) rejected
  | err e ↦ gather_request m head rest request (rejected ++ (head, buffer e) ∷ [])
]

-- The variables of the scattering loop.
pub record Scatter : Type 0 where
  pub memory : SharedMem
  pub cursor : ℕ
  pub written : ℕ
  pub rejected : List (ℕ × RejectReason)

pub scatter : ℕ → List ℕ → List (ℕ × ℕ) → Scatter → Scatter
scatter head response [] s = s
scatter head response ((addr, len) ∷ rest) s =
    let n = min len (length response - s.cursor) in
    let piece = take n (drop s.cursor response) in
    if leb (length response) s.cursor then s else elim (write_slice s.memory addr piece) [
      | err e ↦ record s { rejected = s.rejected ++ (head, buffer e) ∷ [] }
      | ok m ↦
          scatter head response rest
            record s { memory = m; cursor = s.cursor + n; written = add32 s.written (n % u32_mod) }
    ]

abbrev pub Loop : Type 0 → Type 0
Loop C = ProcessStats → C → Action (Option (ProcessStats × C))

-- The closure `work` may change what it has captured, which is a value of `C`.
module _ {C : Type 0} (work : C → List ℕ → List ℕ × C) where
  -- A malformed chain is completed with length 0.
  pub refuse : ℕ → ChainError → ProcessStats → C → Action (ProcessStats × C)
  refuse head e stats c = do
    add_used head 0
    pure (
      record stats {
        chains = add64 stats.chains 1;
        rejected = stats.rejected ++ (head, chain e) ∷ [];
      },
      c,
    )

  -- A legal chain: gather the request, produce the response, scatter it.
  pub answer : ℕ → Gathered → ProcessStats → C → Action (ProcessStats × C)
  answer head g stats c = do
    w ← state
    let (request, rejected) = gather_request w.memory head g.readable [] stats.rejected
    let (response, c') = work c request
    let s =
        scatter head response g.writable
          record { memory = w.memory; cursor = 0; written = 0; rejected = rejected }
    modify λ (v : World). record v { memory = s.memory }
    add_used head s.written
    pure (
      record stats {
        chains = add64 stats.chains 1;
        bytes_read = add64 stats.bytes_read (length request);
        bytes_written = add64 stats.bytes_written s.written;
        rejected = s.rejected;
      },
      c',
    )

  pub act : ℕ → Gathered → ProcessStats → C → Action (ProcessStats × C)
  unfolding refuse answer
  act head g stats c =
      let stats' = record stats { descriptors = add64 stats.descriptors g.descriptors } in
      elim g.chain_error [ some e ↦ refuse head e stats' c | none ↦ answer head g stats' c ]

  -- What follows the collection of a chain; `none` means that it ran out of fuel.
  abbrev pub act_on : ℕ → ProcessStats → C → Option Gathered → Action (Option (ProcessStats × C))
  act_on head stats c none = pure none
  act_on head stats c (some g) = do r ← act head g stats c; pure (some r)

  -- One round of the loop.
  pub serve : ℕ → ProcessStats → C → Action (Option (ProcessStats × C))
  serve head stats c = do w ← state; act_on head stats c (collect w.memory w.dev.layout head)

  abbrev pub on_served : Loop C → Option (ProcessStats × C) → Action (Option (ProcessStats × C))
  on_served again none = pure none
  on_served again (some (stats, c)) = again stats c

  abbrev pub on_popped : Loop C → ProcessStats → C → Option ℕ → Action (Option (ProcessStats × C))
  on_popped again stats c none = pure (some (stats, c))
  on_popped again stats c (some head) = do r ← serve head stats c; on_served again r

  -- The loop, with fuel for its rounds; `none` means that it ran out.
  pub process_loop : ℕ → Loop C
  process_loop zero stats c = pure none
  process_loop (suc fuel) stats c = do
    popped ← pop_chain_head
    on_popped (process_loop fuel) stats c popped

  pub process : ℕ → C → Action (Option (ProcessStats × C))
  unfolding process_loop default
  process fuel c = process_loop fuel default c
