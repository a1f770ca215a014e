-- ===== src/Ledger/Replay.antt =====
-- `append`, `LedgerReplayer` and what they leave on the disk.
use Prim.Native.String.{String}
use text.Mathlib.Text.{◌==◌ as str_eq}
use text.Mathlib.TextEquality.{eq_iff}
use text.Mathlib.TextPositions.{eq_refl}
use kairos_engine.Base.{
  ℕ, zero, suc, ◌+◌, ◌%◌, ◌<◌, ◌≡◌, ◌≢◌, refl, ap, ◌∙◌, Bool-cases, inl, inr, Option, some, none,
  List, [], ◌∷◌, ◌++◌, arith, length, length-append,
}
use kairos_engine.Receipt.{SpinorReceipt, IsReceipt, as_bytes}
use kairos_engine.Receipt.Layout.{length-as_bytes}
use kairos_engine.Ledger.{
  Disk, Ledger, LedgerIter, LedgerResult, LedgerError, ok, err, Flush, done, append, write_file,
  next, read_fuel, iter, open_ledger, receipt_bytes, u64_mod,
}

abbrev pub Outcome : Type 0
Outcome = LedgerResult ℕ × Ledger × Disk

-- `dest.append(r)?`: go on with the new ledger and disk, or return the error.
abbrev pub and_then {ℓ} :
    {A : Type ℓ} → Outcome → (Ledger → Disk → A) → (LedgerError → Ledger → Disk → A) → A
and_then (ok n, l, d) k f = k l d
and_then (err e, l, d) k f = f e l d

-- The loop that appends a list; `env n` is what the system makes of the n-th flush.
unfoldable pub append_each : (ℕ → Flush) → ℕ → List SpinorReceipt → Ledger → Disk → Outcome
append_each env n [] l d = (ok n, l, d)
append_each env n (r ∷ rs) l d =
    and_then (append l r (env n) d) (λ l' d'. append_each env (n + 1) rs l' d')
      (λ e l' d'. (err e, l', d'))

-- Returns `receipts.len()`.
unfoldable pub replay_list : (ℕ → Flush) → List SpinorReceipt → Ledger → Disk → Outcome
replay_list env rs l d =
    and_then (append_each env 0 rs l d) (λ l' d'. (ok (length rs), l', d'))
      (λ e l' d'. (err e, l', d'))

-- The loop of `replay_from`; the source is read through the handle that `iter` opened.
unfoldable pub replay_loop : (ℕ → Flush) → ℕ → LedgerIter → ℕ → Ledger → Disk → Option Outcome
replay_loop env zero it count into d = none
replay_loop env (suc fuel) it count into d =
    let (item, it') = next it in
    elim item [
      | none ↦ some (ok count, into, d)
      | some res ↦ elim res [
        | err e ↦ some (err e, into, d)
        | ok r ↦
            and_then (append into r (env count) d)
              (λ l' d'. replay_loop env fuel it' (count + 1) l' d')
              (λ e l' d'. some (err e, l', d'))
      ]
    ]

unfoldable pub replay_from : (ℕ → Flush) → Ledger → Ledger → Disk → Option Outcome
replay_from env source into d =
    replay_loop env (read_fuel (length (d source.path))) (iter source d) 0 into d

pub read-write_file : (d : Disk) (p : String) (b : List ℕ) → write_file d p b p ≡ b
unfolding write_file
read-write_file d p b = rw (eq_refl p)

pub read-write_file_ne : (d : Disk) (p q : String) (b : List ℕ) → p ≢ q → write_file d p b q ≡ d q
unfolding write_file
read-write_file_ne d p q b ne = elim (Bool-cases (str_eq p q)) [
  | inl e ↦ absurd (ne ((eq_iff p q).0 e))
  | inr e ↦ rw e
]

-- The counter agrees with the file, and the buffer is empty.
pub record IsSynced (l : Ledger) (d : Disk) : Type 0 where
  pub flushed : l.pending ≡ []
  pub counted : l.bytes_written ≡ length (d l.path) % u64_mod

-- A ledger that is opened is in step with its file.
pub open_ledger-IsSynced : (p : String) (d : Disk) → IsSynced (open_ledger p d) d
unfolding open_ledger
open_ledger-IsSynced p d = record { flushed = refl; counted = refl }

-- A successful append returns the length of the file before it, puts exactly the receipt's 64 bytes
-- behind it, touches no other file, and leaves counter and file in step.
pub append_done :
    (l : Ledger) (r : SpinorReceipt) (d : Disk)
    → IsSynced l d
    → IsReceipt r
    → length (d l.path) < u64_mod
    → ((append l r done d).0 ≡ ok (length (d l.path)))
      × ((append l r done d).2 l.path ≡ d l.path ++ as_bytes r)
      × ((q : String) → l.path ≢ q → (append l r done d).2 q ≡ d q)
      × IsSynced (append l r done d).1 (append l r done d).2
unfolding append
append_done l r d s v lt = (
  ap ok (s.counted ∙ omega arith),
  file,
  λ q ne. read-write_file_ne d l.path q _ ne,
  record {
    flushed = refl;
    counted =
        ap (λ (n : ℕ). (n + receipt_bytes) % u64_mod) s.counted
        ∙ omega (
          arith,
          ap (length {0} {A = ℕ}) file,
          length-append {0} (d l.path) (as_bytes r),
          length-as_bytes r v,
        );
  },
)
  where
    file :
        write_file d l.path (d l.path ++ (l.pending ++ as_bytes r)) l.path ≡ d l.path ++ as_bytes r
    file = read-write_file d l.path _ ∙ ap (λ t. d l.path ++ (t ++ as_bytes r)) s.flushed
