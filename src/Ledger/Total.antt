-- ===== src/Ledger/Total.antt =====
-- The readers come to an end on every file.
use kairos_engine.Base.{
  ℕ, zero, suc, ◌+◌, ◌-◌, ◌/◌, ◌≤◌, ◌<◌, ◌≡◌, ◌≢◌, refl, Bool-cases, inl, inr, Option, some, none,
  List, [], arith, take, ◌==◌,
}
use kairos_engine.Receipt.{SpinorReceipt, byte_at, spinor_sentinel}
use kairos_engine.Ledger.{
  Disk, Ledger, LedgerIter, LedgerResult, ok, err, prepend, next, next_record, collect, read_all,
  iter,
}

next_record_remaining :
    (it : LedgerIter) (r : SpinorReceipt)
    → (next_record it).0 ≡ some (ok r)
    → (next_record it).1.remaining ≡ it.remaining - 64
unfolding next_record
next_record_remaining it r e = elim (Bool-cases (byte_at (take 64 it.file) 63 == spinor_sentinel)) [
  | inl t ↦ rw (t, next_record)
  | inr t ↦ rw (t, next_record)
]

next_remaining :
    (it : LedgerIter) (r : SpinorReceipt)
    → (next it).0 ≡ some (ok r)
    → (next it).1.remaining + 64 ≤ it.remaining
unfolding next
next_remaining it r = ground (arith, next_record_remaining it r)

prepend_total {ℓ} :
    {A : Type ℓ} (r : A) (o : Option (LedgerResult (List A))) → o ≢ none → prepend r o ≢ none
prepend_total r none h e = h refl
prepend_total r (some (ok xs)) h e = cc
prepend_total r (some (err x)) h e = cc

collect_total : (fuel : ℕ) (it : LedgerIter) → it.remaining / 64 + 1 < fuel → collect fuel it ≢ none
unfolding collect
collect_total zero it h = absurd (omega arith)
collect_total (suc fuel) it h = go (next it).0 (next_remaining it) (collect_total fuel (next it).1)
  where
    go :
        (item : Option (LedgerResult SpinorReceipt))
        → ((r : SpinorReceipt) → item ≡ some (ok r) → (next it).1.remaining + 64 ≤ it.remaining)
        → ((next it).1.remaining / 64 + 1 < fuel → collect fuel (next it).1 ≢ none)
        → elim item [
          | none ↦ some (ok [])
          | some res ↦ elim res [
            | ok r ↦ prepend r (collect fuel (next it).1)
            | err e ↦ some (err e)
          ]
        ]
          ≢ none
    go none less ih = λ e. cc
    go (some (err x)) less ih = λ e. cc
    go (some (ok r)) less ih = prepend_total r _ (ih (omega (arith, less r refl)))

-- The fuel is enough: reading any file, whatever it holds, comes to an end.
pub read_all_total : (l : Ledger) (d : Disk) → read_all l d ≢ none
unfolding read_all iter
read_all_total l d = collect_total _ _ (omega arith)
