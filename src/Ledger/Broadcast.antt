-- ===== src/Ledger/Broadcast.antt =====
-- `broadcast_to_peers`, the second reader of the ledger, against the iterator.
use mathlib.Core.List.{append-nil}
use kairos_engine.Base.{
  ℕ, zero, suc, ◌+◌, ◌-◌, ◌*◌, ◌%◌, ◌≤◌, ◌<◌, ◌≡◌, ◌≢◌, refl, ap, sym, ◌∙◌, true, false, Bool-cases,
  inl, inr, some, List, [], ◌∷◌, ◌++◌, arith, length, take, drop, All, length-append, ◌==◌, ltb,
  ==_iff,
}
use kairos_engine.Base.Bytes.{drop_field}
use kairos_engine.Receipt.{SpinorReceipt, receipt_from_bytes, byte_at, spinor_sentinel}
use kairos_engine.Ledger.{
  Disk, Ledger, ok, err, io, invalid_input, prepend, next, collect, read_all, iter,
  read_exact_or_eof, full, eof, tail_of, broadcast_loop, broadcast_to_peers,
}
use kairos_engine.Ledger.Next.{
  IsSealed, encode, encode-append, length-encode, iter_at, next_full, next_record_ok, next_tail,
  next_bad,
}
use kairos_engine.Ledger.Read.{
  collect_step, collect_stop, collect_end, collect-encode, prepend_all, prepend_all_ok,
}

data Shape (f : List ℕ) : Type 0 where
  empty : f ≡ [] → Shape f
  short : 0 < length f → length f < 64 → Shape f
  long : 64 ≤ length f → Shape f

shape : (f : List ℕ) → Shape f
shape [] = empty refl
shape (x ∷ f) = elim (Bool-cases (ltb (length (x ∷ f)) 64)) [
  | inl e ↦ short (omega arith) (ground arith)
  | inr e ↦ long (ground arith)
]

outcome_short : (n : ℕ) → 0 < n → n < 64 → ((n == 0) ≡ false) × (ltb n 64 ≡ true)
outcome_short n p h = (ground arith, ground arith)

outcome_long : (n : ℕ) → 64 ≤ n → ((n == 0) ≡ false) × (ltb n 64 ≡ false)
outcome_long n h = (ground arith, ground arith)

read_empty : read_exact_or_eof [] ≡ eof
unfolding read_exact_or_eof
read_empty = refl

read_short : (f : List ℕ) → 0 < length f → length f < 64 → read_exact_or_eof f ≡ tail_of (length f)
unfolding read_exact_or_eof
read_short f p h = rw ((outcome_short (length f) p h).0, (outcome_short (length f) p h).1)

read_long : (f : List ℕ) → 64 ≤ length f → read_exact_or_eof f ≡ full
unfolding read_exact_or_eof
read_long f h = rw ((outcome_long (length f) h).0, (outcome_long (length f) h).1)

-- Round for round the two loops give the same answer.
pub broadcast_loop-eq-collect :
    (fuel : ℕ) (f : List ℕ) (i : ℕ) → broadcast_loop fuel f i ≡ collect fuel (iter_at f i)
unfolding broadcast_loop
broadcast_loop-eq-collect zero f i = unfold collect in refl
broadcast_loop-eq-collect (suc fuel) f i =
    go (shape f) (broadcast_loop-eq-collect fuel (drop 64 f) (i + 1))
  where
    bad : (b : ℕ) → (b == 165) ≡ false → b ≢ 165
    bad b e p = ground arith

    go :
        Shape f
        → broadcast_loop fuel (drop 64 f) (i + 1) ≡ collect fuel (iter_at (drop 64 f) (i + 1))
        → broadcast_loop (suc fuel) f i ≡ collect (suc fuel) (iter_at f i)
    go (empty e) ih = rw e (
        rw (read_empty, broadcast_loop)
          (sym (collect_end fuel (iter_at [] i) (unfold next in refl))))
    go (short p h) ih =
        rw (read_short f p h, broadcast_loop)
          (sym (collect_stop fuel (iter_at f i) _ (next_tail f i p h)))
    go (long h) ih = elim (Bool-cases (byte_at (take 64 f) 63 == spinor_sentinel)) [
      | inl e ↦
          rw (read_long f h, broadcast_loop)
            (rw e (
              ap (prepend (receipt_from_bytes (take 64 f))) ih
              ∙ sym (
                  collect_step fuel (iter_at f i) _ _
                    (next_full f i h ∙ next_record_ok f i ((==_iff _ 165).0 e)))))
      | inr e ↦
          rw (read_long f h, broadcast_loop)
            (rw e (sym (collect_stop fuel (iter_at f i) _ (next_bad f i h (bad _ e)))))
    ]

-- Read from the start, a file gives a peer what the iterator gives, errors included.
pub broadcast-eq-read_all : (l : Ledger) (d : Disk) → broadcast_to_peers l 0 d ≡ read_all l d
unfolding broadcast_to_peers read_all iter
broadcast-eq-read_all l d = broadcast_loop-eq-collect _ (d l.path) 0

module _ (l : Ledger) (d : Disk) where
  aligned : (n : ℕ) → ((64 * n) % 64 == 0) ≡ true
  aligned n = (==_iff _ 0).1 (omega arith)

  collect_whole :
      (ss : List SpinorReceipt) (fuel i : ℕ)
      → All IsSealed ss
      → length ss < fuel
      → collect fuel (iter_at (encode ss) i) ≡ some (ok ss)
  collect_whole ss fuel i h lt =
      ap (λ t. collect fuel (iter_at t i)) (sym (append-nil (encode ss)))
      ∙ collect-encode fuel (suc (fuel - length ss - 1)) i ss [] h (omega arith)
      ∙ ap (prepend_all ss) (collect_end _ (iter_at [] (i + length ss)) (unfold next in refl))
      ∙ prepend_all_ok ss []
      ∙ ap (λ t. some (ok t)) (append-nil ss)

  -- Of a file that holds sealed receipts and nothing else, a peer gets from the offset of a record
  -- exactly the receipts from that record on; an offset that is no multiple of 64 is refused.
  pub broadcast_suffix :
      (rs ss : List SpinorReceipt)
      → All IsSealed rs
      → All IsSealed ss
      → d l.path ≡ encode (rs ++ ss)
      → (broadcast_to_peers l (64 * length rs) d ≡ some (ok ss))
        × ((offset : ℕ)
            → offset % 64 ≢ 0
            → broadcast_to_peers l offset d ≡ some (err (io invalid_input)))
  unfolding broadcast_to_peers
  broadcast_suffix rs ss hr hs e = (
    rw (aligned (length rs), e, encode-append rs ss)
        (rw (drop_field (64 * length rs) (encode rs) (encode ss) (length-encode rs hr)) (
          broadcast_loop-eq-collect _ (encode ss) _
          ∙ collect_whole ss _ _ hs (
              omega (
                arith,
                length-append {0} (encode rs) (encode ss),
                length-encode rs hr,
                length-encode ss hs,
              )))),
    λ offset ne. rw (not_aligned offset ne),
  )
    where
      not_aligned : (n : ℕ) → n % 64 ≢ 0 → (n % 64 == 0) ≡ false
      not_aligned n ne = ground arith
