-- ===== src/Ledger/Read.antt =====
-- `Ledger::iter` collected: what each shape of file reads as.
use mathlib.Core.List.{append_assoc, append-nil}
use kairos_engine.Base.{
  ℕ, zero, suc, ◌+◌, ◌*◌, ◌/◌, ◌≤◌, ◌<◌, ◌≡◌, ◌≢◌, refl, ap, ◌∙◌, Option, some, none, List, [], ◌∷◌,
  ◌++◌, arith, length, take, All, length-append,
}
use kairos_engine.Receipt.{SpinorReceipt, as_bytes, byte_at, spinor_sentinel}
use kairos_engine.Ledger.{
  Disk, Ledger, LedgerIter, LedgerResult, LedgerError, ok, err, bad_sentinel, partial_tail, prepend,
  next, collect, read_fuel, read_all, iter,
}
use kairos_engine.Ledger.Next.{
  IsSealed, encode, length-encode, iter_at, next-as_bytes, next_tail, next_bad,
}

-- One round of `collect` after a known answer of `next`.
pub collect_step :
    (fuel : ℕ) (it : LedgerIter) (r : SpinorReceipt) (it' : LedgerIter)
    → next it ≡ (some (ok r), it')
    → collect (suc fuel) it ≡ prepend r (collect fuel it')
unfolding collect
collect_step fuel it r it' e =
    rw (ap (λ (p : Option (LedgerResult SpinorReceipt) × LedgerIter). p.0) e, collect)
      (ap (λ t. prepend r (collect fuel t))
        (ap (λ (p : Option (LedgerResult SpinorReceipt) × LedgerIter). p.1) e))

pub collect_stop :
    (fuel : ℕ) (it : LedgerIter) (e : LedgerError)
    → (next it).0 ≡ some (err e)
    → collect (suc fuel) it ≡ some (err e)
unfolding collect
collect_stop fuel it e h = rw (h, collect)

pub collect_end :
    (fuel : ℕ) (it : LedgerIter) → (next it).0 ≡ none → collect (suc fuel) it ≡ some (ok [])
unfolding collect
collect_end fuel it h = rw (h, collect)

abbrev pub prepend_all {ℓ} :
    {A : Type ℓ} → List A → Option (LedgerResult (List A)) → Option (LedgerResult (List A))
prepend_all [] x = x
prepend_all (r ∷ rs) x = prepend r (prepend_all rs x)

pub collect-encode :
    (fuel k i : ℕ) (rs : List SpinorReceipt) (tail : List ℕ)
    → All IsSealed rs
    → fuel ≡ length rs + k
    → collect fuel (iter_at (encode rs ++ tail) i)
      ≡ prepend_all rs (collect k (iter_at tail (i + length rs)))
collect-encode fuel k i [] tail h e =
    ap (λ (n : ℕ). collect n (iter_at tail i)) (omega arith)
    ∙ ap (λ (n : ℕ). collect k (iter_at tail n)) (omega arith)
collect-encode zero k i (r ∷ rs) tail h e = absurd (omega arith)
collect-encode (suc fuel) k i (r ∷ rs) tail h e =
    ap (λ t. collect (suc fuel) (iter_at t i)) (append_assoc (as_bytes r) (encode rs) tail)
    ∙ collect_step fuel _ r _ (next-as_bytes r (encode rs ++ tail) h.0 i)
    ∙ ap (prepend r) (collect-encode fuel k (i + 1) rs tail h.1 (omega arith))
    ∙ ap (λ (n : ℕ). prepend r (prepend_all rs (collect k (iter_at tail n)))) (omega arith)

pub prepend_all_ok :
    (rs ss : List SpinorReceipt) → prepend_all rs (some (ok ss)) ≡ some (ok (rs ++ ss))
prepend_all_ok [] ss = refl
prepend_all_ok (r ∷ rs) ss = ap (prepend r) (prepend_all_ok rs ss)

pub prepend_all_err :
    (rs : List SpinorReceipt) (e : LedgerError) → prepend_all rs (some (err e)) ≡ some (err e)
prepend_all_err [] e = refl
prepend_all_err (r ∷ rs) e = ap (prepend r) (prepend_all_err rs e)

fuel_split : (n t : ℕ) → t < 128 → (64 * n + t) / 64 + 2 ≡ n + (t / 64 + 2)
fuel_split n t h = omega arith

module _ (l : Ledger) (d : Disk) (rs : List SpinorReceipt) (h : All IsSealed rs) where
  read_prefix :
      (tail : List ℕ)
      → d l.path ≡ encode rs ++ tail
      → read_all l d ≡ prepend_all rs (collect (length tail / 64 + 2) (iter_at tail (length rs)))
  unfolding read_all iter
  read_prefix tail e = rw e (
      collect-encode (read_fuel (length (encode rs ++ tail))) (length tail / 64 + 2) 0 rs tail h
        (omega (arith, length-append {0} (encode rs) tail, length-encode rs h))
      ∙ ap (λ (n : ℕ). prepend_all rs (collect (length tail / 64 + 2) (iter_at tail n)))
          (omega arith))

  -- A file of sealed receipts reads back as these receipts. If a torn record follows them the
  -- reader reports the number of its bytes, and if a 64-byte record follows whose last byte is not
  -- the marker it reports the record's index and that byte, whatever comes after it.
  pub read_all_shapes :
      (tail : List ℕ)
      → d l.path ≡ encode rs ++ tail
      → (tail ≡ [] → read_all l d ≡ some (ok rs))
        × (0 < length tail
            → length tail < 64
            → read_all l d ≡ some (err (partial_tail (length tail))))
        × (64 ≤ length tail
            → byte_at (take 64 tail) 63 ≢ spinor_sentinel
            → read_all l d ≡ some (err (bad_sentinel (length rs) (byte_at (take 64 tail) 63))))
  read_all_shapes tail e = (
    λ empty.
        read_prefix tail e
        ∙ ap (λ t. prepend_all rs (collect (length t / 64 + 2) (iter_at t (length rs)))) empty
        ∙ ap (prepend_all rs) (collect_end 1 (iter_at [] (length rs)) (unfold next in refl))
        ∙ prepend_all_ok rs []
        ∙ ap (λ t. some (ok t)) (append-nil rs),
    λ p short.
        read_prefix tail e
        ∙ ap (prepend_all rs) (stops _ (next_tail tail (length rs) p short))
        ∙ prepend_all_err rs _,
    λ long bad.
        read_prefix tail e
        ∙ ap (prepend_all rs) (stops _ (next_bad tail (length rs) long bad))
        ∙ prepend_all_err rs _,
  )
    where
      stops :
          (x : LedgerError)
          → (next (iter_at tail (length rs))).0 ≡ some (err x)
          → collect (length tail / 64 + 2) (iter_at tail (length rs)) ≡ some (err x)
      stops x n =
          ap (λ (k : ℕ). collect k (iter_at tail (length rs))) (omega arith)
          ∙ collect_stop (length tail / 64 + 1) (iter_at tail (length rs)) x n
