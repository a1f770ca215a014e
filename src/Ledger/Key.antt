-- ===== src/Ledger/Key.antt =====
-- The canonical key `(sequence_rank, input_hash)` of pouw_ledger.rs, and `canonical_sort`.
use Prim.Native.Nat.{compare, Ordering}
use kairos_engine.Base.{ℕ, ◌≡◌, refl, Bool, true, false, Option, some, none, List, [], ◌∷◌, arith}
use kairos_engine.Base.Sort.{IsOrder, sort_by}
use kairos_engine.Receipt.{SpinorReceipt, sequence_rank}
use kairos_engine.Ledger.{Disk, Ledger, LedgerResult, ok, err, read_all}

-- `a <= b` of `Ord` on byte arrays.
pub bytes_leb : List ℕ → List ℕ → Bool
bytes_leb [] ys = true
bytes_leb (x ∷ xs) [] = false
bytes_leb (x ∷ xs) (y ∷ ys) = elim (compare x y) [
  | Ordering.lt ↦ true
  | Ordering.gt ↦ false
  | Ordering.eq ↦ bytes_leb xs ys
]

-- The comparison that `sort_by` is given: `a` does not come after `b`.
unfoldable pub key_leb : SpinorReceipt → SpinorReceipt → Bool
unfolding bytes_leb
key_leb a b = elim (compare (sequence_rank a) (sequence_rank b)) [
  | Ordering.lt ↦ true
  | Ordering.gt ↦ false
  | Ordering.eq ↦ bytes_leb a.input_hash b.input_hash
]

abbrev pub on_ok {ℓ κ} :
    {A : Type ℓ} {B : Type κ} → (A → B) → Option (LedgerResult A) → Option (LedgerResult B)
on_ok f none = none
on_ok f (some (ok x)) = some (ok (f x))
on_ok f (some (err e)) = some (err e)

unfoldable pub canonical_sort : Ledger → Disk → Option (LedgerResult (List SpinorReceipt))
canonical_sort l d = on_ok (sort_by key_leb) (read_all l d)

bytes_leb_total : (xs ys : List ℕ) → bytes_leb xs ys ≡ false → bytes_leb ys xs ≡ true
unfolding bytes_leb
bytes_leb_total [] ys h = ground arith
bytes_leb_total (x ∷ xs) [] h = refl
bytes_leb_total (x ∷ xs) (y ∷ ys) h = ground (arith, bytes_leb_total xs ys)

bytes_leb_trans :
    (xs ys zs : List ℕ) → bytes_leb xs ys ≡ true → bytes_leb ys zs ≡ true → bytes_leb xs zs ≡ true
unfolding bytes_leb
bytes_leb_trans [] ys zs h k = refl
bytes_leb_trans (x ∷ xs) [] zs h k = ground arith
bytes_leb_trans (x ∷ xs) (y ∷ ys) [] h k = ground arith
bytes_leb_trans (x ∷ xs) (y ∷ ys) (z ∷ zs) h k = ground (arith, bytes_leb_trans xs ys zs)

key_leb_total : (a b : SpinorReceipt) → key_leb a b ≡ false → key_leb b a ≡ true
unfolding key_leb
key_leb_total a b h = ground (arith, bytes_leb_total a.input_hash b.input_hash)

key_leb_trans :
    (a b c : SpinorReceipt) → key_leb a b ≡ true → key_leb b c ≡ true → key_leb a c ≡ true
unfolding key_leb
key_leb_trans a b c h k = ground (arith, bytes_leb_trans a.input_hash b.input_hash c.input_hash)

pub key_leb-IsOrder : IsOrder key_leb
key_leb-IsOrder = record { total = key_leb_total; trans = key_leb_trans }
