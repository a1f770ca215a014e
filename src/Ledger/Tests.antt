-- ===== src/Ledger/Tests.antt =====
-- Ledgers of one and two receipts.
use Prim.Native.String.{String}
use mathlib.Core.List.{Permᴰ, append-nil}
use kairos_engine.Base.{
  ℕ, zero, suc, ◌+◌, ◌%◌, ◌^◌, ◌≤◌, ◌<◌, ◌≡◌, ◌≢◌, refl, ap, sym, ◌∙◌, true, inr, none, some, List,
  [], ◌∷◌, ◌++◌, length, take, replicate, All, arith,
}
use kairos_engine.Base.Bytes.{IsByte, to_le_bytes, from_le_bytes}
use kairos_engine.Base.Sort.{AllApart, sort_by}
use kairos_engine.Receipt.{
  SpinorReceipt, mint, as_bytes, byte_at, with_sequence_rank, sequence_rank, spinor_sentinel,
}
use kairos_engine.Receipt.Mint.{IsDigest, mint-IsReceipt}
use kairos_engine.Receipt.Rank.{with_sequence_rank-IsReceipt}
use kairos_engine.Ledger.{
  Disk, Ledger, os, io, invalid_input, bad_sentinel, partial_tail, ok, err, Flush, done, torn,
  append, read_all, broadcast_to_peers, receipt_bytes, u64_mod, write_file,
}
use kairos_engine.Ledger.Key.{key_leb, canonical_sort, on_ok}
use kairos_engine.Ledger.Next.{IsSealed, encode}
use kairos_engine.Ledger.Read.{read_all_shapes}
use kairos_engine.Ledger.Total.{read_all_total}
use kairos_engine.Ledger.Broadcast.{broadcast_suffix}
use kairos_engine.Ledger.Replay.{replay_from}
use kairos_engine.Ledger.Identical.{replay_from_identical}
use kairos_engine.Ledger.Canonical.{
  replay_canonical_into, replay_canonical_converges, replay_canonical_same_key,
}
use kairos_engine.Ledger.Torn.{append_after_torn}

abbrev digest : List ℕ → List ℕ
digest m = replicate 32 (length m % 256)

All-replicate : (n b : ℕ) → IsByte b → All IsByte (replicate n b)
All-replicate zero b h = tt
All-replicate (suc n) b h = (h, All-replicate n b h)

digest-IsDigest : IsDigest digest
digest-IsDigest = record {
  digest_len = λ m. refl;
  digest_bytes = λ m. All-replicate 32 (length m % 256) (omega arith);
}

abbrev turn : ℕ → ℕ → SpinorReceipt
turn wall rank = with_sequence_rank (mint digest 1 14 (5 ∷ 6 ∷ []) (7 ∷ []) wall) rank

turn-IsSealed : (wall rank : ℕ) → rank < 2 ^ 16 → IsSealed (turn wall rank)
unfolding with_sequence_rank mint
turn-IsSealed wall rank h = record {
  valid = with_sequence_rank-IsReceipt (mint digest 1 14 (5 ∷ 6 ∷ []) (7 ∷ []) wall) rank (
      mint-IsReceipt digest digest-IsDigest 1 14 (5 ∷ 6 ∷ []) (7 ∷ []) wall (omega arith)
        (omega arith));
  marked = refl;
}

-- Two turns of different rank, and one that has the first one's rank and input at another time.
abbrev first : SpinorReceipt
first = turn 1000 1

abbrev second : SpinorReceipt
second = turn 1000 2

abbrev again : SpinorReceipt
again = turn 2000 1

first-IsSealed : IsSealed first
first-IsSealed = turn-IsSealed 1000 1 (omega arith)

second-IsSealed : IsSealed second
second-IsSealed = turn-IsSealed 1000 2 (omega arith)

again-IsSealed : IsSealed again
again-IsSealed = turn-IsSealed 2000 1 (omega arith)

abbrev at : String → Ledger
at p = record { path = p; pending = []; bytes_written = 0 }

abbrev all_done : ℕ → Flush
all_done n = done

-- The file "s" holds these bytes, and every other file is empty.
abbrev holding : List ℕ → Disk
holding bytes = write_file (λ p. []) "s" bytes

holds : (bytes : List ℕ) → holding bytes "s" ≡ bytes
unfolding write_file
holds bytes = refl

lacks : (bytes : List ℕ) → holding bytes "t" ≡ []
unfolding write_file
lacks bytes = refl

abbrev scrap : List ℕ
scrap = 9 ∷ 9 ∷ 9 ∷ []

-- A receipt, then three bytes of a torn one.
read_all_shapes_example :
    (scrap ≡ []
      → read_all (at "s") (holding (encode (first ∷ []) ++ scrap)) ≡ some (ok (first ∷ [])))
    × (0 < length scrap
        → length scrap < 64
        → read_all (at "s") (holding (encode (first ∷ []) ++ scrap))
          ≡ some (err (partial_tail (length scrap))))
    × (64 ≤ length scrap
        → byte_at (take 64 scrap) 63 ≢ spinor_sentinel
        → read_all (at "s") (holding (encode (first ∷ []) ++ scrap))
          ≡ some (err (bad_sentinel 1 (byte_at (take 64 scrap) 63))))
read_all_shapes_example =
    read_all_shapes (at "s") (holding (encode (first ∷ []) ++ scrap)) (first ∷ [])
      (first-IsSealed, tt) scrap (holds (encode (first ∷ []) ++ scrap))

read_all_total_example : read_all (at "s") (holding (9 ∷ [])) ≢ none
read_all_total_example = read_all_total (at "s") (holding (9 ∷ []))

broadcast_suffix_example :
    (broadcast_to_peers (at "s") 64 (holding (encode (first ∷ second ∷ [])))
      ≡ some (ok (second ∷ [])))
    × ((offset : ℕ)
        → offset % 64 ≢ 0
        → broadcast_to_peers (at "s") offset (holding (encode (first ∷ second ∷ [])))
          ≡ some (err (io invalid_input)))
broadcast_suffix_example =
    broadcast_suffix (at "s") (holding (encode (first ∷ second ∷ []))) (first ∷ []) (second ∷ [])
      (first-IsSealed, tt) (second-IsSealed, tt) (holds (encode (first ∷ second ∷ [])))

append_after_torn_example :
    ((append (at "t") first (torn 5 (os 28)) (holding [])).0 ≡ err (io (os 28)))
    × ((append
          (append (at "t") first (torn 5 (os 28)) (holding [])).1
          second
          done
          (append (at "t") first (torn 5 (os 28)) (holding [])).2).0
        ≡ ok 0)
    × ((append
          (append (at "t") first (torn 5 (os 28)) (holding [])).1
          second
          done
          (append (at "t") first (torn 5 (os 28)) (holding [])).2).1.bytes_written
        ≡ (0 + receipt_bytes) % u64_mod)
    × ((append
            (append (at "t") first (torn 5 (os 28)) (holding [])).1
            second
            done
            (append (at "t") first (torn 5 (os 28)) (holding [])).2).2
          "t"
        ≡ holding [] "t" ++ (as_bytes first ++ as_bytes second))
append_after_torn_example = append_after_torn (at "t") first second 5 (os 28) (holding []) refl

replay_from_identical_example :
    (l' : Ledger) × (d' : Disk) × (replay_from all_done
        (at "s")
        (at "t")
        (holding (encode (first ∷ second ∷ [])))
      ≡ some (ok 2, l', d'))
    × (d' "t"
        ≡ holding (encode (first ∷ second ∷ [])) "t" ++ holding (encode (first ∷ second ∷ [])) "s")
    × ((q : String) → "t" ≢ q → d' q ≡ holding (encode (first ∷ second ∷ [])) q)
replay_from_identical_example =
    replay_from_identical all_done (λ n. refl) (first ∷ second ∷ []) (at "s") (at "t")
      (holding (encode (first ∷ second ∷ []))) (first-IsSealed, (second-IsSealed, tt))
      (holds (encode (first ∷ second ∷ []))) refl

sorted_two :
    canonical_sort (at "s") (holding (encode (second ∷ first ∷ [])))
    ≡ some (ok (first ∷ second ∷ []))
unfolding canonical_sort key_leb sequence_rank with_sequence_rank from_le_bytes to_le_bytes sort_by
sorted_two = ap (on_ok (sort_by key_leb)) (
    (read_all_shapes (at "s") (holding (encode (second ∷ first ∷ []))) (second ∷ first ∷ [])
        (second-IsSealed, (first-IsSealed, tt)) []
        (holds (encode (second ∷ first ∷ [])) ∙ sym (append-nil (encode (second ∷ first ∷ []))))).0
      refl)

ranks_apart : AllApart key_leb (first ∷ second ∷ [])
unfolding key_leb sequence_rank with_sequence_rank from_le_bytes to_le_bytes
ranks_apart = ((inr refl, tt), (tt, tt))

replay_canonical_converges_example :
    (la lb : Ledger) × (da db : Disk) × (replay_canonical_into all_done
        (at "s")
        (at "t")
        (holding (encode (first ∷ second ∷ [])))
      ≡ some (ok 2, la, da))
    × (replay_canonical_into all_done (at "s") (at "t") (holding (encode (second ∷ first ∷ [])))
        ≡ some (ok 2, lb, db))
    × (da "t" ≡ db "t")
replay_canonical_converges_example =
    replay_canonical_converges all_done (λ n. refl) (first ∷ second ∷ []) (second ∷ first ∷ [])
      (at "s") (at "s") (at "t") (at "t") (holding (encode (first ∷ second ∷ [])))
      (holding (encode (second ∷ first ∷ []))) (first-IsSealed, (second-IsSealed, tt))
      (second-IsSealed, (first-IsSealed, tt)) (Permᴰ.swap refl refl) ranks_apart
      (holds (encode (first ∷ second ∷ []))) (holds (encode (second ∷ first ∷ []))) refl refl
      (lacks (encode (first ∷ second ∷ []))) (lacks (encode (second ∷ first ∷ [])))

same_key : key_leb first again ≡ true
unfolding key_leb sequence_rank with_sequence_rank from_le_bytes to_le_bytes mint
same_key = refl

same_key_back : key_leb again first ≡ true
unfolding key_leb sequence_rank with_sequence_rank from_le_bytes to_le_bytes mint
same_key_back = refl

other_bytes : as_bytes first ≢ as_bytes again
unfolding as_bytes with_sequence_rank mint to_le_bytes
other_bytes e = absurd (omega (arith, ap (λ (bs : List ℕ). byte_at bs 4) e))

replay_canonical_same_key_example :
    (la lb : Ledger) × (da db : Disk) × (replay_canonical_into all_done
        (at "s")
        (at "t")
        (holding (encode (first ∷ again ∷ [])))
      ≡ some (ok 2, la, da))
    × (replay_canonical_into all_done (at "s") (at "t") (holding (encode (again ∷ first ∷ [])))
        ≡ some (ok 2, lb, db))
    × (da "t" ≢ db "t")
replay_canonical_same_key_example =
    replay_canonical_same_key all_done (λ n. refl) first again (at "s") (at "s") (at "t") (at "t")
      (holding (encode (first ∷ again ∷ []))) (holding (encode (again ∷ first ∷ []))) first-IsSealed
      again-IsSealed same_key same_key_back other_bytes (holds (encode (first ∷ again ∷ [])))
      (holds (encode (again ∷ first ∷ []))) refl refl (lacks (encode (first ∷ again ∷ [])))
      (lacks (encode (again ∷ first ∷ [])))
