-- ===== src/Ledger/Canonical.antt =====
-- `canonical_sort` and `replay_canonical_into`: the order, and when two devices converge.
use mathlib.Core.List.{Permᴰ, append-nil}
use kairos_engine.Base.{
  ℕ, ◌≡◌, ◌≢◌, refl, ap, sym, ◌∙◌, subst, true, Option, some, none, List, [], ◌∷◌, ◌++◌, length,
  take, All,
}
use kairos_engine.Base.Sort.{
  sort_by, insert_by, IsSorted, AllApart, length-sort_by, sort_by-IsSorted, sort_by-perm,
  sort_by-eq_of_perm,
}
use kairos_engine.Receipt.{SpinorReceipt, as_bytes}
use kairos_engine.Ledger.{Disk, Ledger, LedgerResult, ok, err, Flush, done, read_all}
use kairos_engine.Ledger.Key.{key_leb, key_leb-IsOrder, canonical_sort, on_ok}
use kairos_engine.Ledger.Next.{IsSealed, encode, record_take}
use kairos_engine.Ledger.Read.{read_all_shapes}
use kairos_engine.Ledger.Replay.{Outcome, replay_list}
use kairos_engine.Ledger.Identical.{replay_list-Wrote}

abbrev replay_sorted :
    (ℕ → Flush) → Ledger → Disk → Option (LedgerResult (List SpinorReceipt)) → Option Outcome
replay_sorted env dest d none = none
replay_sorted env dest d (some (err e)) = some (err e, dest, d)
replay_sorted env dest d (some (ok sorted)) = some (replay_list env sorted dest d)

unfoldable pub replay_canonical_into : (ℕ → Flush) → Ledger → Ledger → Disk → Option Outcome
replay_canonical_into env source dest d = replay_sorted env dest d (canonical_sort source d)

-- What `canonical_sort` returns is in ascending order of the key, and is the receipts of the file,
-- each as often as it stands there: nothing is dropped, and equal receipts are not merged.
pub canonical_sort_sorts :
    (l : Ledger) (d : Disk) (xs : List SpinorReceipt)
    → canonical_sort l d ≡ some (ok xs)
    → (rs : List SpinorReceipt) × (read_all l d ≡ some (ok rs)) × IsSorted key_leb xs × Permᴰ xs rs
unfolding canonical_sort
canonical_sort_sorts l d xs e = go (read_all l d) e
  where
    go :
        (o : Option (LedgerResult (List SpinorReceipt)))
        → on_ok (sort_by key_leb) o ≡ some (ok xs)
        → (rs : List SpinorReceipt) × (o ≡ some (ok rs)) × IsSorted key_leb xs × Permᴰ xs rs
    go none e = absurd (cc e)
    go (some (err x)) e = absurd (cc e)
    go (some (ok rs)) e =
        let same : sort_by key_leb rs ≡ xs = cc e in
        (
          rs,
          refl,
          subst (IsSorted key_leb) same (sort_by-IsSorted key_leb key_leb-IsOrder rs),
          subst (λ t. Permᴰ t rs) same (sort_by-perm key_leb rs),
        )

module _ (env : ℕ → Flush) (calm : (n : ℕ) → env n ≡ done) where
  replay_canonical-file :
      (rs : List SpinorReceipt) (source dest : Ledger) (d : Disk)
      → All IsSealed rs
      → d source.path ≡ encode rs
      → dest.pending ≡ []
      → (l' : Ledger) × (d' : Disk) × (replay_canonical_into env source dest d
          ≡ some (ok (length rs), l', d'))
        × (d' dest.path ≡ d dest.path ++ encode (sort_by key_leb rs))
  unfolding replay_canonical_into canonical_sort
  replay_canonical-file rs source dest d h e p =
      let w = replay_list-Wrote env calm (sort_by key_leb rs) dest d p in
      let o : Outcome = replay_list env (sort_by key_leb rs) dest d in
      (
        o.1,
        o.2,
        ap (λ t. replay_sorted env dest d (on_ok (sort_by key_leb) t))
              ((read_all_shapes source d rs h [] (e ∙ sym (append-nil (encode rs)))).0 refl)
            ∙ ap (λ t. some (t, o.1, o.2)) (w.returned ∙ ap ok (length-sort_by key_leb rs)),
        w.file,
      )

  -- Where no flush fails: two devices hold the same sealed receipts in any two orders, no two of
  -- them with the same rank and input hash. Each replays its own file canonically into an empty
  -- file, through a writer with nothing pending: both replays end and return the number of
  -- receipts, and the two new files are byte for byte the same.
  pub replay_canonical_converges :
      (xs ys : List SpinorReceipt) (s t : Ledger) (a b : Ledger) (d e : Disk)
      → All IsSealed xs
      → All IsSealed ys
      → Permᴰ xs ys
      → AllApart key_leb xs
      → d s.path ≡ encode xs
      → e t.path ≡ encode ys
      → a.pending ≡ []
      → b.pending ≡ []
      → d a.path ≡ []
      → e b.path ≡ []
      → (la lb : Ledger) × (da db : Disk) × (replay_canonical_into env s a d
          ≡ some (ok (length xs), la, da))
        × (replay_canonical_into env t b e ≡ some (ok (length ys), lb, db))
        × (da a.path ≡ db b.path)
  replay_canonical_converges xs ys s t a b d e hx hy p apart fs ft pa pb ea eb =
      let (la, da, ra, fa) = replay_canonical-file xs s a d hx fs pa in
      let (lb, db, rb, fb) = replay_canonical-file ys t b e hy ft pb in
      (
        la,
        lb,
        da,
        db,
        ra,
        rb,
        fa
            ∙ ap (λ t. t ++ encode (sort_by key_leb xs)) ea
            ∙ ap encode (sort_by-eq_of_perm key_leb key_leb-IsOrder p apart)
            ∙ sym (fb ∙ ap (λ t. t ++ encode (sort_by key_leb ys)) eb),
      )

  sort_pair : (x y : SpinorReceipt) → key_leb x y ≡ true → sort_by key_leb (x ∷ y ∷ []) ≡ x ∷ y ∷ []
  unfolding sort_by insert_by
  sort_pair x y h = rw h

  -- Where no flush fails: two sealed receipts with the same rank and the same input hash but
  -- different bytes are held in opposite orders by two devices. Both canonical replays into empty
  -- files, through writers with nothing pending, succeed, and the two new files differ.
  pub replay_canonical_same_key :
      (x y : SpinorReceipt) (s t : Ledger) (a b : Ledger) (d e : Disk)
      → IsSealed x
      → IsSealed y
      → key_leb x y ≡ true
      → key_leb y x ≡ true
      → as_bytes x ≢ as_bytes y
      → d s.path ≡ encode (x ∷ y ∷ [])
      → e t.path ≡ encode (y ∷ x ∷ [])
      → a.pending ≡ []
      → b.pending ≡ []
      → d a.path ≡ []
      → e b.path ≡ []
      → (la lb : Ledger) × (da db : Disk) × (replay_canonical_into env s a d ≡ some (ok 2, la, da))
        × (replay_canonical_into env t b e ≡ some (ok 2, lb, db))
        × (da a.path ≢ db b.path)
  replay_canonical_same_key x y s t a b d e hx hy lxy lyx ne fs ft pa pb ea eb =
      let (la, da, ra, fa) = replay_canonical-file (x ∷ y ∷ []) s a d (hx, (hy, tt)) fs pa in
      let (lb, db, rb, fb) = replay_canonical-file (y ∷ x ∷ []) t b e (hy, (hx, tt)) ft pb in
      (
        la,
        lb,
        da,
        db,
        ra,
        rb,
        λ same. ne (
            sym (record_take x _ hx)
            ∙ ap (take 64) (
                sym (ap encode (sort_pair x y lxy))
                ∙ sym (fa ∙ ap (λ t. t ++ encode (sort_by key_leb (x ∷ y ∷ []))) ea)
                ∙ same
                ∙ (fb ∙ ap (λ t. t ++ encode (sort_by key_leb (y ∷ x ∷ []))) eb)
                ∙ ap encode (sort_pair y x lyx))
            ∙ record_take y _ hy),
      )
