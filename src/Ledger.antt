-- ===== src/Ledger.antt =====
-- tools/sp_daemon/src/pouw_ledger.rs: the append-only ledger of receipts, its two readers, replay
-- and the canonical order. A file is its bytes; `Disk` maps a path to its file (an absent file and
-- an empty one are the same, since `open` creates). What the system makes of a flush is an
-- argument: a failed flush leaves the unwritten bytes in the `BufWriter`, as `std` documents, and
-- the next flush writes them first. Reads fail only at the end of the file.
pub mod Key
pub mod Next
pub mod Read
pub mod Total
pub mod Broadcast
pub mod Replay
pub mod Identical
pub mod Canonical
pub mod Torn
mod Tests
use Prim.Native.String.{String}
use text.Mathlib.Text.{◌==◌ as str_eq}
use kairos_engine.Base.{
  ℕ, zero, suc, ◌+◌, ◌-◌, ◌/◌, ◌%◌, ◌^◌, Bool, true, false, not, Option, none, some, List, [], ◌∷◌,
  ◌++◌, length, take, drop, ltb, ◌==◌, if◌then◌else◌,
}
use kairos_engine.Receipt.{SpinorReceipt, as_bytes, receipt_from_bytes, byte_at, spinor_sentinel}

abbrev pub receipt_bytes : ℕ
receipt_bytes = 64

abbrev pub u64_mod : ℕ
u64_mod = 2 ^ 64

-- The kinds of `std::io::Error` that the code makes or meets; `os` carries a system code.
pub data IoError : Type 0 where
  invalid_input : IoError
  unexpected_eof : IoError
  os : ℕ → IoError

pub data LedgerError : Type 0 where
  io : IoError → LedgerError
  bad_sentinel : ℕ → ℕ → LedgerError
  partial_tail : ℕ → LedgerError

pub data LedgerResult {ℓ} (A : Type ℓ) : Type ℓ where
  ok : A → LedgerResult A
  err : LedgerError → LedgerResult A

abbrev pub Disk : Type 0
Disk = String → List ℕ

unfoldable pub write_file : Disk → String → List ℕ → Disk
write_file d p bytes q = if str_eq p q then bytes else d q

pub record Ledger : Type 0 where
  pub path : String
  pub pending : List ℕ  -- what the BufWriter holds between calls
  pub bytes_written : ℕ

-- What a flush does: write all, or write the first bytes and fail.
pub data Flush : Type 0 where
  done : Flush
  torn : ℕ → IoError → Flush

unfoldable pub open_ledger : String → Disk → Ledger
open_ledger p d = record { path = p; pending = []; bytes_written = length (d p) % u64_mod }

-- `write_all` into the buffer, `flush`, and the counter, which an error leaves alone.
unfoldable pub append : Ledger → SpinorReceipt → Flush → Disk → LedgerResult ℕ × Ledger × Disk
append l r done d = (
  ok l.bytes_written,
  record l { pending = []; bytes_written = (l.bytes_written + receipt_bytes) % u64_mod },
  write_file d l.path (d l.path ++ (l.pending ++ as_bytes r)),
)
append l r (torn k e) d = (
  err (io e),
  record l { pending = drop k (l.pending ++ as_bytes r) },
  write_file d l.path (d l.path ++ take k (l.pending ++ as_bytes r)),
)

unfoldable pub len_bytes : Ledger → ℕ
len_bytes l = l.bytes_written

pub record LedgerIter : Type 0 where
  pub file : List ℕ  -- what the read handle has not read yet
  pub remaining : ℕ
  pub index : ℕ
  pub finished : Bool

unfoldable pub iter : Ledger → Disk → LedgerIter
iter l d = record { file = d l.path; remaining = length (d l.path); index = 0; finished = false }

-- A full record: its sentinel is checked before it is yielded.
unfoldable pub next_record : LedgerIter → Option (LedgerResult SpinorReceipt) × LedgerIter
next_record it =
    let buf = take receipt_bytes it.file in
    let it' = record it {
      file = drop receipt_bytes it.file;
      remaining = it.remaining - receipt_bytes;
    } in
    if byte_at buf 63 == spinor_sentinel
    then (some (ok (receipt_from_bytes buf)), record it' { index = it.index + 1 })
    else (some (err (bad_sentinel it.index (byte_at buf 63))), record it' { finished = true })

unfoldable pub next : LedgerIter → Option (LedgerResult SpinorReceipt) × LedgerIter
next it =
    if it.finished
    then (none, it)
    else if it.remaining == 0
    then (none, record it { finished = true })
    else if ltb it.remaining receipt_bytes
    then (some (err (partial_tail it.remaining)), record it { finished = true })
    else if ltb (length it.file) receipt_bytes
    then (some (err (io unexpected_eof)), record it { finished = true })
    else next_record it

abbrev pub prepend {ℓ} :
    {A : Type ℓ} → A → Option (LedgerResult (List A)) → Option (LedgerResult (List A))
prepend x none = none
prepend x (some (err e)) = some (err e)
prepend x (some (ok xs)) = some (ok (x ∷ xs))

-- `collect::<LedgerResult<Vec<_>>>()`, which stops at the first error. `none`: out of fuel.
unfoldable pub collect : ℕ → LedgerIter → Option (LedgerResult (List SpinorReceipt))
collect zero it = none
collect (suc fuel) it =
    let (item, it') = next it in
    elim item [
      | none ↦ some (ok [])
      | some res ↦ elim res [ ok r ↦ prepend r (collect fuel it') | err e ↦ some (err e) ]
    ]

-- The fuel of a whole file: one call of `next` for each record, one for what follows.
abbrev pub read_fuel : ℕ → ℕ
read_fuel bytes = bytes / receipt_bytes + 2

unfoldable pub read_all : Ledger → Disk → Option (LedgerResult (List SpinorReceipt))
unfolding collect iter
read_all l d = collect (read_fuel (length (d l.path))) (iter l d)

-- `read_exact_or_eof`
pub data ReadOutcome : Type 0 where
  full : ReadOutcome
  eof : ReadOutcome
  tail_of : ℕ → ReadOutcome

unfoldable pub read_exact_or_eof : List ℕ → ReadOutcome
read_exact_or_eof f =
    if length f == 0 then eof else if ltb (length f) receipt_bytes then tail_of (length f) else full

-- The loop of `broadcast_to_peers`.
unfoldable pub broadcast_loop : ℕ → List ℕ → ℕ → Option (LedgerResult (List SpinorReceipt))
broadcast_loop zero f idx = none
broadcast_loop (suc fuel) f idx =
    let buf = take receipt_bytes f in
    let rest = broadcast_loop fuel (drop receipt_bytes f) (idx + 1) in
    elim (read_exact_or_eof f) [
      | eof ↦ some (ok [])
      | tail_of extra ↦ some (err (partial_tail extra))
      | full ↦
          if byte_at buf 63 == spinor_sentinel
          then prepend (receipt_from_bytes buf) rest
          else some (err (bad_sentinel idx (byte_at buf 63)))
    ]

unfoldable pub broadcast_to_peers : Ledger → ℕ → Disk → Option (LedgerResult (List SpinorReceipt))
unfolding broadcast_loop
broadcast_to_peers l since_offset d =
    if since_offset % receipt_bytes == 0
    then broadcast_loop (read_fuel (length (d l.path))) (drop since_offset (d l.path))
        (since_offset / receipt_bytes)
    else some (err (io invalid_input))
