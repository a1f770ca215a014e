-- ===== src/Ledger/Next.antt =====
-- One call of the ledger's iterator, on each shape of what is left of the file.
use mathlib.Core.List.{append_assoc}
use kairos_engine.Base.{
  ℕ, ◌+◌, ◌*◌, ◌≤◌, ◌<◌, ◌≡◌, ◌≢◌, refl, ap, sym, ◌∙◌, true, false, some, List, [], ◌∷◌, ◌++◌,
  arith, length, take, drop, All, length-append, length-drop, ◌==◌, ltb,
}
use kairos_engine.Base.Bytes.{take_field, drop_field}
use kairos_engine.Receipt.{
  SpinorReceipt, IsReceipt, as_bytes, receipt_from_bytes, byte_at, spinor_sentinel,
}
use kairos_engine.Receipt.Layout.{length-as_bytes, byte_at-as_bytes, receipt_from_bytes-as_bytes}
use kairos_engine.Ledger.{LedgerIter, ok, err, bad_sentinel, partial_tail, next, next_record}

-- A receipt as the ledger accepts it: fields in range, and the marker in place.
pub record IsSealed (r : SpinorReceipt) : Type 0 where
  pub valid : IsReceipt r
  pub marked : r.sentinel ≡ spinor_sentinel

-- The file that holds these receipts and nothing else.
abbrev pub encode : List SpinorReceipt → List ℕ
encode [] = []
encode (r ∷ rs) = as_bytes r ++ encode rs

pub length-encode :
    (rs : List SpinorReceipt) → All IsSealed rs → length (encode rs) ≡ 64 * length rs
length-encode [] h = refl
length-encode (r ∷ rs) h = omega (
  arith,
  length-append {0} (as_bytes r) (encode rs),
  length-as_bytes r h.0.valid,
  length-encode rs h.1,
)

pub encode-append : (rs ss : List SpinorReceipt) → encode (rs ++ ss) ≡ encode rs ++ encode ss
encode-append [] ss = refl
encode-append (r ∷ rs) ss = simp (encode-append rs ss, append_assoc)

-- The iterator over a file that was opened now, at record `i`.
abbrev pub iter_at : List ℕ → ℕ → LedgerIter
iter_at f i = record { file = f; remaining = length f; index = i; finished = false }

not_zero : (n : ℕ) → 64 ≤ n → (n == 0) ≡ false
not_zero n h = ground arith

not_short : (n : ℕ) → 64 ≤ n → ltb n 64 ≡ false
not_short n h = ground arith

-- Each case of `next` on an iterator that is not finished.
pub next_full :
    (f : List ℕ) (i : ℕ) → 64 ≤ length f → next (iter_at f i) ≡ next_record (iter_at f i)
unfolding next
next_full f i h = rw (not_zero (length f) h, not_short (length f) h)

pub next_record_ok :
    (f : List ℕ) (i : ℕ)
    → byte_at (take 64 f) 63 ≡ spinor_sentinel
    → next_record (iter_at f i)
      ≡ (some (ok (receipt_from_bytes (take 64 f))), iter_at (drop 64 f) (i + 1))
unfolding next_record
next_record_ok f i e = rw e (λ j. (
  some (ok (receipt_from_bytes (take 64 f))),
  record {
    file = drop 64 f;
    remaining = sym (length-drop 64 f) j;
    index = i + 1;
    finished = false;
  },
))

module _ (r : SpinorReceipt) (rest : List ℕ) (s : IsSealed r) where
  record_len : length (as_bytes r ++ rest) ≡ 64 + length rest
  record_len = omega (arith, length-append {0} (as_bytes r) rest, length-as_bytes r s.valid)

  pub record_take : take 64 (as_bytes r ++ rest) ≡ as_bytes r
  record_take = take_field 64 (as_bytes r) rest (length-as_bytes r s.valid)

  pub record_drop : drop 64 (as_bytes r ++ rest) ≡ rest
  record_drop = drop_field 64 (as_bytes r) rest (length-as_bytes r s.valid)

  pub next-as_bytes :
      (i : ℕ) → next (iter_at (as_bytes r ++ rest) i) ≡ (some (ok r), iter_at rest (i + 1))
  next-as_bytes i =
      next_full (as_bytes r ++ rest) i (omega (arith, record_len))
      ∙ next_record_ok (as_bytes r ++ rest) i marker
      ∙ ap (λ t. (some (ok (receipt_from_bytes t)), iter_at (drop 64 (as_bytes r ++ rest)) (i + 1)))
          record_take
      ∙ ap (λ t. (some (ok t), iter_at (drop 64 (as_bytes r ++ rest)) (i + 1)))
          (receipt_from_bytes-as_bytes r s.valid)
      ∙ ap (λ t. (some (ok r), iter_at t (i + 1))) record_drop
    where
      marker : byte_at (take 64 (as_bytes r ++ rest)) 63 ≡ spinor_sentinel
      marker = ap (λ t. byte_at t 63) record_take ∙ byte_at-as_bytes r s.valid ∙ s.marked

pub next_tail :
    (f : List ℕ) (i : ℕ)
    → 0 < length f
    → length f < 64
    → (next (iter_at f i)).0 ≡ some (err (partial_tail (length f)))
unfolding next
next_tail f i p h = rw (is_some_length (length f) p, is_short (length f) h)
  where
    is_some_length : (n : ℕ) → 0 < n → (n == 0) ≡ false
    is_some_length n p = ground arith

    is_short : (n : ℕ) → n < 64 → ltb n 64 ≡ true
    is_short n h = ground arith

pub next_bad :
    (f : List ℕ) (i : ℕ)
    → 64 ≤ length f
    → byte_at (take 64 f) 63 ≢ spinor_sentinel
    → (next (iter_at f i)).0 ≡ some (err (bad_sentinel i (byte_at (take 64 f) 63)))
next_bad f i h ne = rw (next_full f i h) (go f i (differs _ ne))
  where
    differs : (b : ℕ) → b ≢ 165 → (b == 165) ≡ false
    differs b ne = ground arith

    go :
        (f : List ℕ) (i : ℕ)
        → (byte_at (take 64 f) 63 == spinor_sentinel) ≡ false
        → (next_record (iter_at f i)).0 ≡ some (err (bad_sentinel i (byte_at (take 64 f) 63)))
    go f i e = unfold next_record in rw e
