-- ===== src/Ledger/Torn.antt =====
-- A flush that fails part of the way: what the file, the buffer and the counter are afterwards.
use mathlib.Core.List.{append_assoc}
use kairos_engine.Base.{
  ℕ, ◌+◌, ◌%◌, ◌≡◌, refl, ap, sym, ◌∙◌, [], ◌++◌, take, drop, take-append-drop,
}
use kairos_engine.Receipt.{SpinorReceipt, as_bytes}
use kairos_engine.Ledger.{
  Disk, Ledger, ok, err, io, IoError, done, torn, append, receipt_bytes, u64_mod,
}
use kairos_engine.Ledger.Replay.{read-write_file}

-- The append whose flush failed is retried by the next append: the failed receipt, reported as an
-- error, stands in the file before the next one, while the counter, and so the offset that the next
-- append returns, is that of a file without it.
pub append_after_torn :
    (l : Ledger) (r s : SpinorReceipt) (k : ℕ) (e : IoError) (d : Disk)
    → l.pending ≡ []
    → ((append l r (torn k e) d).0 ≡ err (io e))
      × ((append (append l r (torn k e) d).1 s done (append l r (torn k e) d).2).0
          ≡ ok l.bytes_written)
      × ((append (append l r (torn k e) d).1 s done (append l r (torn k e) d).2).1.bytes_written
          ≡ (l.bytes_written + receipt_bytes) % u64_mod)
      × ((append (append l r (torn k e) d).1 s done (append l r (torn k e) d).2).2 l.path
          ≡ d l.path ++ (as_bytes r ++ as_bytes s))
unfolding append
append_after_torn l r s k e d p = (
  refl,
  refl,
  refl,
  read-write_file _ l.path _
      ∙ ap (λ t. t ++ (drop k (l.pending ++ as_bytes r) ++ as_bytes s)) (read-write_file d l.path _)
      ∙ append_assoc (d l.path) (take k (l.pending ++ as_bytes r)) _
      ∙ ap (λ t. d l.path ++ t)
          (sym (
              append_assoc (take k (l.pending ++ as_bytes r)) (drop k (l.pending ++ as_bytes r))
                (as_bytes s))
            ∙ ap (λ t. t ++ as_bytes s) (take-append-drop k (l.pending ++ as_bytes r))
            ∙ ap (λ t. (t ++ as_bytes r) ++ as_bytes s) p),
)
