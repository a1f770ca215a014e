-- ===== src/Ledger/Identical.antt =====
-- Replays that the system does not interrupt, and what they write.
use Prim.Native.String.{String}
use mathlib.Core.List.{append_assoc, append-nil}
use kairos_engine.Base.{
  ℕ, zero, suc, ◌+◌, ◌<◌, ◌≡◌, ◌≢◌, refl, ap, sym, ◌∙◌, Option, some, List, [], ◌∷◌, ◌++◌, arith,
  length, All,
}
use kairos_engine.Receipt.{SpinorReceipt, as_bytes}
use kairos_engine.Ledger.{
  Disk, Ledger, LedgerIter, LedgerResult, LedgerError, ok, err, Flush, done, append, next,
  read_fuel, iter,
}
use kairos_engine.Ledger.Next.{IsSealed, encode, length-encode, iter_at, next-as_bytes}
use kairos_engine.Ledger.Replay.{
  Outcome, and_then, append_each, replay_list, replay_loop, replay_from, read-write_file,
  read-write_file_ne,
}

-- What a replay of these receipts into `l` comes to, when nothing fails.
pub record Wrote (l : Ledger) (d : Disk) (count : ℕ) (rs : List SpinorReceipt) (o : Outcome)
    : Type 0 where
  pub returned : o.0 ≡ ok count
  pub same_path : o.1.path ≡ l.path
  pub flushed : o.1.pending ≡ []
  pub file : o.2 l.path ≡ d l.path ++ encode rs
  pub others : (q : String) → l.path ≢ q → o.2 q ≡ d q

Wrote-nil : (l : Ledger) (d : Disk) (n : ℕ) → l.pending ≡ [] → Wrote l d n [] (ok n, l, d)
Wrote-nil l d n p = record {
  returned = refl;
  same_path = refl;
  flushed = p;
  file = sym (append-nil (d l.path));
  others = λ q ne. refl;
}

-- One append, then the rest.
Wrote-cons :
    (l : Ledger) (d : Disk) (n : ℕ) (r : SpinorReceipt) (rs : List SpinorReceipt) (o : Outcome)
    → l.pending ≡ []
    → Wrote (append l r done d).1 (append l r done d).2 n rs o
    → Wrote l d n (r ∷ rs) o
unfolding append
Wrote-cons l d n r rs o p w = record {
  returned = w.returned;
  same_path = w.same_path;
  flushed = w.flushed;
  file =
      w.file
      ∙ ap (λ t. t ++ encode rs)
          (read-write_file d l.path _ ∙ ap (λ t. d l.path ++ (t ++ as_bytes r)) p)
      ∙ append_assoc (d l.path) (as_bytes r) (encode rs);
  others = λ q ne. w.others q ne ∙ read-write_file_ne d l.path q _ ne;
}

Wrote-count :
    {l : Ledger} {d : Disk} {m n : ℕ} {rs : List SpinorReceipt} {o : Outcome}
    → m ≡ n
    → Wrote l d m rs o
    → Wrote l d n rs o
Wrote-count e w = record {
  returned = w.returned ∙ ap ok e;
  same_path = w.same_path;
  flushed = w.flushed;
  file = w.file;
  others = w.others;
}

append_flushed : (l : Ledger) (r : SpinorReceipt) (d : Disk) → (append l r done d).1.pending ≡ []
unfolding append
append_flushed l r d = refl

append_returns :
    {A : Type 0} (l : Ledger) (r : SpinorReceipt) (d : Disk) (k : Ledger → Disk → A)
    (f : LedgerError → Ledger → Disk → A)
    → and_then (append l r done d) k f ≡ k (append l r done d).1 (append l r done d).2
unfolding append
append_returns l r d k f = refl

module _ (env : ℕ → Flush) (calm : (n : ℕ) → env n ≡ done) where
  append_each-Wrote :
      (n : ℕ) (rs : List SpinorReceipt) (l : Ledger) (d : Disk)
      → l.pending ≡ []
      → Wrote l d (n + length rs) rs (append_each env n rs l d)
  unfolding append_each
  append_each-Wrote n [] l d p = Wrote-count (omega arith) (Wrote-nil l d n p)
  append_each-Wrote n (r ∷ rs) l d p =
      rw (calm n, append_returns)
        (Wrote-count (omega arith) (
          Wrote-cons l d (n + 1 + length rs) r rs _ p (
            append_each-Wrote (n + 1) rs (append l r done d).1 (append l r done d).2
              (append_flushed l r d))))

  replay_step :
      (fuel n : ℕ) (it it' : LedgerIter) (r : SpinorReceipt) (l : Ledger) (d : Disk)
      → next it ≡ (some (ok r), it')
      → replay_loop env (suc fuel) it n l d
        ≡ replay_loop env fuel it' (n + 1) (append l r done d).1 (append l r done d).2
  unfolding replay_loop
  replay_step fuel n it it' r l d e =
      rw (ap (λ (p : Option (LedgerResult SpinorReceipt) × LedgerIter). p.0) e, replay_loop)
        (rw (calm n, append_returns)
          (ap (λ t. replay_loop env fuel t (n + 1) (append l r done d).1 (append l r done d).2)
            (ap (λ (p : Option (LedgerResult SpinorReceipt) × LedgerIter). p.1) e)))

  replay_end :
      (fuel i n : ℕ) (l : Ledger) (d : Disk)
      → replay_loop env (suc fuel) (iter_at [] i) n l d ≡ some (ok n, l, d)
  unfolding replay_loop next
  replay_end fuel i n l d = refl

  -- The loop over the iterator of a file that holds these receipts and nothing else.
  replay_loop-Wrote :
      (fuel i n : ℕ) (rs : List SpinorReceipt) (l : Ledger) (d : Disk)
      → All IsSealed rs
      → length rs < fuel
      → l.pending ≡ []
      → (o : Outcome) × (replay_loop env fuel (iter_at (encode rs) i) n l d ≡ some o)
        × Wrote l d (n + length rs) rs o
  replay_loop-Wrote zero i n rs l d h lt p = absurd (omega arith)
  replay_loop-Wrote (suc fuel) i n [] l d h lt p =
      ((ok n, l, d), replay_end fuel i n l d, Wrote-count (omega arith) (Wrote-nil l d n p))
  replay_loop-Wrote (suc fuel) i n (r ∷ rs) l d h lt p =
      let l' : Ledger = (append l r done d).1 in
      let d' : Disk = (append l r done d).2 in
      let (o, e, w) =
        replay_loop-Wrote fuel (i + 1) (n + 1) rs l' d' h.1 (omega arith) (append_flushed l r d) in
      (
        o,
        replay_step fuel n _ _ r l d (next-as_bytes r (encode rs) h.0 i) ∙ e,
        Wrote-count (omega arith) (Wrote-cons l d (n + 1 + length rs) r rs o p w),
      )

  -- Where no flush fails and the destination's writer has nothing pending: a source file that holds
  -- these sealed receipts and nothing else is appended byte for byte. The replay ends, returns the
  -- number of receipts, the destination's file is what it was followed by the source's file, and
  -- every other file is unchanged. Into an empty destination the two files are identical.
  pub replay_from_identical :
      (rs : List SpinorReceipt) (source into : Ledger) (d : Disk)
      → All IsSealed rs
      → d source.path ≡ encode rs
      → into.pending ≡ []
      → (l' : Ledger) × (d' : Disk) × (replay_from env source into d
          ≡ some (ok (length rs), l', d'))
        × (d' into.path ≡ d into.path ++ d source.path)
        × ((q : String) → into.path ≢ q → d' q ≡ d q)
  unfolding replay_from iter
  replay_from_identical rs source into d h e p =
      let (o, run, w) =
        replay_loop-Wrote (read_fuel (length (d source.path))) 0 0 rs into d h
          (omega (arith, ap (length {0} {A = ℕ}) e, length-encode rs h)) p in
      (
        o.1,
        o.2,
        ap (λ t. replay_loop env (read_fuel (length (d source.path))) (iter_at t 0) 0 into d) e
            ∙ run
            ∙ ap (λ t. some (t, o.1, o.2)) (w.returned ∙ ap ok (omega arith)),
        w.file ∙ ap (λ t. d into.path ++ t) (sym e),
        w.others,
      )

  -- `replay_list` writes the receipts that it is given, in their order, and returns their number.
  pub replay_list-Wrote :
      (rs : List SpinorReceipt) (l : Ledger) (d : Disk)
      → l.pending ≡ []
      → Wrote l d (length rs) rs (replay_list env rs l d)
  unfolding replay_list
  replay_list-Wrote rs l d p = from_each (append_each env 0 rs l d) (append_each-Wrote 0 rs l d p)
    where
      from_each :
          (o : Outcome)
          → Wrote l d (0 + length rs) rs o
          → Wrote l d
              (length rs)
              rs
              (and_then o (λ l' d'. (ok (length rs), l', d')) (λ x l' d'. (err x, l', d')))
      from_each (ok n, l', d') w = record {
        returned = refl;
        same_path = w.same_path;
        flushed = w.flushed;
        file = w.file;
        others = w.others;
      }
      from_each (err x, l', d') w = absurd (cc (w.returned))
