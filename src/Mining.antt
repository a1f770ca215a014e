-- ===== src/Mining.antt =====
-- tools/sp_daemon/src/mining.rs: the loop that mints receipts. Parameters are the sieve (C code
-- behind sieve_ffi.rs, `sp_sieve_evaluate`), the random bytes of each candidate, the signature of
-- the ed25519 library, and the clock. A tree is its 64 bytes; the event channel, whose send the
-- code ignores, is the list of what was sent. Waiting and the log line change no state.
pub mod Ring
pub mod Payload
mod Tests
use kairos_engine.Base.{
  ℕ, zero, suc, ◌+◌, ◌-◌, ◌*◌, ◌/◌, ◌%◌, ◌^◌, Bool, true, false, List, [], ◌∷◌, ◌++◌, length, take,
  drop, replicate, ltb, ◌==◌, if◌then◌else◌, map,
}
use kairos_engine.Base.Bytes.{to_le_bytes}

abbrev pub receipt_ring_cap : ℕ
receipt_ring_cap = 4096

abbrev pub batch_size : ℕ
batch_size = 64

abbrev pub frontier_cap : ℕ
frontier_cap = 256

-- SpSieveEvent
pub record SieveEvent : Type 0 where
  pub sig : List ℕ
  pub seq_hash : List ℕ
  pub round : ℕ

pub record ReceiptRecord : Type 0 where
  pub payload_hex : List ℕ
  pub sig_hex : List ℕ
  pub round : ℕ

-- The header, the 48 random bytes of the label region, and the rest of the 64 bytes.
abbrev pub synthetic_kste : List ℕ → List ℕ
synthetic_kste random = 1 ∷ 3 ∷ 3 ∷ 0 ∷ 0 ∷ 0 ∷ 0 ∷ 0 ∷ (random ++ replicate 8 0)

-- b"SPRCPT01"
abbrev pub magic : List ℕ
magic = 83 ∷ 80 ∷ 82 ∷ 67 ∷ 80 ∷ 84 ∷ 48 ∷ 49 ∷ []

unfoldable pub pack_receipt : List ℕ → List ℕ → List ℕ → ℕ → ℕ → List ℕ
pack_receipt sig seq_hash pubkey round minted_at_ns =
    magic ++ (sig ++ (seq_hash ++ (pubkey ++ (to_le_bytes 8 round ++ to_le_bytes 8 minted_at_ns))))

abbrev pub hex_digit : ℕ → ℕ
hex_digit d = if ltb d 10 then 48 + d else 87 + d

unfoldable pub hex_encode : List ℕ → List ℕ
hex_encode [] = []
hex_encode (b ∷ bs) = hex_digit (b / 16) ∷ hex_digit (b % 16) ∷ hex_encode bs

-- What the loop keeps: its own variables and the shared store, counter and channel.
pub record Miner : Type 0 where
  pub frontier : List (List ℕ)
  pub frontier_n : ℕ
  pub global_round : ℕ
  pub receipt_store : List ReceiptRecord
  pub pouw_minted : ℕ
  pub sent : List (List ℕ × List ℕ)

-- The push to the store and its trimming.
unfoldable pub store_push : List ReceiptRecord → ReceiptRecord → List ReceiptRecord
store_push store rec =
    let pushed = store ++ (rec ∷ []) in
    if ltb receipt_ring_cap (length pushed)
    then drop (length pushed - receipt_ring_cap) pushed
    else pushed

-- SP_ESIEVE_FULL, the pattern of -30.
abbrev pub esieve_full : ℕ
esieve_full = 2 ^ 32 - 30

-- The sieve's results: the code (the pattern of an `i32`), the frontier and its length, and the events.
pub record Sieved : Type 0 where
  pub rc : ℕ
  pub frontier : List (List ℕ)
  pub frontier_n : ℕ
  pub events : List SieveEvent

pub record Outside : Type 0 where
  pub sp_sieve_evaluate : List (List ℕ) → List (List ℕ) → ℕ → Sieved
  pub sign : List ℕ → List ℕ
  pub pubkey : List ℕ

module _ (o : Outside) where
  open o use {sp_sieve_evaluate, sign, pubkey}

  abbrev pub receipt_of : ℕ → SieveEvent → ℕ → List ℕ
  receipt_of global_round ev now =
      pack_receipt ev.sig ev.seq_hash pubkey global_round (now % 2 ^ 64)

  abbrev pub record_of : ℕ → SieveEvent → ℕ → ReceiptRecord
  record_of global_round ev now = record {
    payload_hex = hex_encode (receipt_of global_round ev now);
    sig_hex = hex_encode (sign (receipt_of global_round ev now));
    round = global_round;
  }

  -- The body of the loop over the events; `now` is the time in nanoseconds.
  abbrev pub mint : Miner → SieveEvent → ℕ → Miner
  mint m ev now =
      let rec = record_of m.global_round ev now in
      record {
        frontier = m.frontier;
        frontier_n = m.frontier_n;
        global_round = (m.global_round + 1) % 2 ^ 64;
        receipt_store = store_push m.receipt_store rec;
        pouw_minted = (m.pouw_minted + 1) % 2 ^ 64;
        sent = m.sent ++ ((rec.payload_hex, rec.sig_hex) ∷ []);
      }

  -- The events of a batch, each with the time at which it is minted.
  unfoldable pub mint_all : Miner → List (SieveEvent × ℕ) → Miner
  mint_all m [] = m
  mint_all m ((ev, now) ∷ evs) = mint_all (mint m ev now) evs

  -- After the call of the sieve: a full frontier is emptied.
  abbrev pub settle : Miner → Sieved → Miner
  settle m s = record {
    frontier = s.frontier;
    frontier_n = if s.rc == esieve_full then 0 else s.frontier_n;
    global_round = m.global_round;
    receipt_store = m.receipt_store;
    pouw_minted = m.pouw_minted;
    sent = m.sent;
  }

  abbrev pub stamp : (ℕ → ℕ) → ℕ → List SieveEvent → List (SieveEvent × ℕ)
  stamp clock i [] = []
  stamp clock i (ev ∷ evs) = (ev, clock i) ∷ stamp clock (i + 1) evs

  -- One turn of the loop: nothing while inference is active.
  pub mine_batch : Bool → List (List ℕ) → (ℕ → ℕ) → Miner → Miner
  unfolding mint_all
  mine_batch true random clock m = m
  mine_batch false random clock m =
      let s = sp_sieve_evaluate (map synthetic_kste random) m.frontier m.frontier_n in
      mint_all (settle m s) (stamp clock 0 s.events)
