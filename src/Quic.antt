-- ===== src/Quic.antt =====
-- tools/sp_daemon/src/network/quic_shard.rs: the blocks of residues that shards send over QUIC, and
-- the loop that joins the two blocks of a sequence id. QUIC, TLS and tokio are other crates'; a
-- stream is its bytes. The recombination is C code and a parameter, `none` where its context cannot
-- be made.
pub mod Wire
pub mod Garner
pub mod Finish
pub mod Effect
pub mod Pair
pub mod Pairing
pub mod Joined
mod Tests
use kairos_engine.Base.{ℕ, List}

-- The reserved bytes are written as zeros and not read.
pub record ShardBlockHeader : Type 0 where
  pub seq_id : ℕ
  pub token_pos : ℕ
  pub layer_id : ℕ
  pub prime_selector : ℕ

pub record ResidueBlock : Type 0 where
  pub header : ShardBlockHeader
  pub residues : List ℕ
