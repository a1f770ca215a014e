-- ===== src/Mining/Ring.antt =====
-- The receipt store against the history of all receipts minted.
use mathlib.Core.List.{append_assoc, append-nil}
use kairos_engine.Base.{
  ℕ, zero, suc, ◌+◌, ◌-◌, ◌<◌, ◌^◌, ◌%◌, ◌≡◌, refl, ap, sym, ◌∙◌, Bool, true, false, List, [], ◌∷◌,
  ◌++◌, length, drop, length-append, length-drop, drop-append_le, ltb, if◌then◌else◌, arith,
}
use kairos_engine.Mining.{
  receipt_ring_cap, SieveEvent, ReceiptRecord, Miner, store_push, Outside, record_of, mint,
  mint_all,
}

-- The last elements of a list, as many as the ring holds.
abbrev pub recent : List ReceiptRecord → List ReceiptRecord
recent xs = drop (length xs - receipt_ring_cap) xs

drop-nil {ℓ} : {A : Type ℓ} (k : ℕ) → drop {A = A} k [] ≡ []
drop-nil zero = refl
drop-nil (suc k) = refl

suc_add : (b a : ℕ) → suc (b + a) ≡ suc b + a
suc_add b a = omega arith

zero_add : (a : ℕ) → a ≡ 0 + a
zero_add a = omega arith

drop-drop {ℓ} : {A : Type ℓ} (a b : ℕ) (xs : List A) → drop a (drop b xs) ≡ drop (b + a) xs
drop-drop a zero xs = ap (λ (k : ℕ). drop k xs) (zero_add a)
drop-drop a (suc b) [] = drop-nil a ∙ sym (drop-nil (suc b + a))
drop-drop a (suc b) (x ∷ xs) = drop-drop a b xs ∙ ap (λ (k : ℕ). drop k (x ∷ xs)) (suc_add b a)

store_push-trims :
    (store : List ReceiptRecord) (r : ReceiptRecord)
    → store_push store r ≡ recent (store ++ (r ∷ []))
unfolding store_push
store_push-trims store r = go (ltb receipt_ring_cap (length (store ++ (r ∷ [])))) refl
  where
    pushed : List ReceiptRecord
    pushed = store ++ (r ∷ [])

    go :
        (b : Bool)
        → ltb receipt_ring_cap (length pushed) ≡ b
        → (if b then drop (length pushed - receipt_ring_cap) pushed else pushed) ≡ recent pushed
    go true e = refl
    go false e = ap (λ (k : ℕ). drop k pushed) (short (length pushed) e)
      where
        short : (n : ℕ) → ltb receipt_ring_cap n ≡ false → 0 ≡ n - receipt_ring_cap
        short n h = ground arith

-- Trimming before a push loses nothing that trimming after it would keep.
recent-append :
    (xs : List ReceiptRecord) (r : ReceiptRecord)
    → recent (recent xs ++ (r ∷ [])) ≡ recent (xs ++ (r ∷ []))
recent-append xs r =
    ap recent (sym (drop-append_le k xs (r ∷ []) (omega arith)))
    ∙ drop-drop (length (drop k ys) - receipt_ring_cap) k ys
    ∙ ap (λ (n : ℕ). drop n ys) same
  where
    k : ℕ
    k = length xs - receipt_ring_cap

    ys : List ReceiptRecord
    ys = xs ++ (r ∷ [])

    same : k + (length (drop k ys) - receipt_ring_cap) ≡ length ys - receipt_ring_cap
    same = omega (arith, length-drop k ys, length-append xs (r ∷ []))

module _ (o : Outside) where
  -- The records of a run of events, with no ring.
  unfoldable pub records : ℕ → List (SieveEvent × ℕ) → List ReceiptRecord
  records round [] = []
  records round ((ev, now) ∷ evs) = record_of o round ev now ∷ records ((round + 1) % 2 ^ 64) evs

  -- A store that holds the last 4096 receipts of a history still does after any run of events, for
  -- the history with their records behind it, one for each event in order; the round number and
  -- the counter, each below 2 ^ 64 before, advance by the number of events and wrap at 2 ^ 64.
  pub mint_all_keeps_recent :
      (m : Miner) (history : List ReceiptRecord) (evs : List (SieveEvent × ℕ))
      → m.receipt_store ≡ recent history
      → m.global_round < 2 ^ 64
      → m.pouw_minted < 2 ^ 64
      → ((mint_all o m evs).receipt_store ≡ recent (history ++ records m.global_round evs))
        × ((mint_all o m evs).global_round ≡ (m.global_round + length evs) % 2 ^ 64)
        × ((mint_all o m evs).pouw_minted ≡ (m.pouw_minted + length evs) % 2 ^ 64)
  unfolding mint_all records
  mint_all_keeps_recent m history [] h round fits =
      (h ∙ ap recent (sym (append-nil history)), omega (arith, round), omega (arith, fits))
  mint_all_keeps_recent m history ((ev, now) ∷ evs) h round fits =
      let r = record_of o m.global_round ev now in
      let kept : store_push m.receipt_store r ≡ recent (history ++ (r ∷ [])) =
        store_push-trims m.receipt_store r
        ∙ ap (λ (l : List ReceiptRecord). recent (l ++ (r ∷ []))) h
        ∙ recent-append history r in
      let (s, g, p) =
        mint_all_keeps_recent (mint o m ev now) (history ++ (r ∷ [])) evs kept (omega arith)
          (omega arith) in
      (
        s ∙ ap recent (append_assoc history (r ∷ []) (records ((m.global_round + 1) % 2 ^ 64) evs)),
        omega (arith, g),
        omega (arith, p),
      )
