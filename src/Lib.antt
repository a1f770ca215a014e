-- ===== src/Lib.antt =====
-- The kairos engine: a Rust daemon (tools/sp_daemon) that wraps an inference library behind HTTP,
-- and a swarm library (tools/sp_swarm). What is modelled here is the daemon's own logic around the
-- forward pass, file by file:
--
-- - Base: lists over the native numbers, little-endian bytes, text, a stable insertion sort.
-- - BatchCont: tools/sp_daemon/src/batch_cont_prefill.rs, the choice of a batched prefill.
-- - Receipt: the receipt of a dialogue turn (tools/sp_daemon/src/dialogue.rs, `SpinorReceipt`), a
--   record of its fields; `as_bytes` and `receipt_from_bytes` are its 64 bytes in the order of the
--   packed struct. SHA-256 is a parameter that returns 32 bytes.
-- - Ledger: tools/sp_daemon/src/pouw_ledger.rs, the append-only file of receipts. The disk maps
--   paths to bytes; a ledger has its path, what its writer still holds, and its counter. What the
--   system makes of each flush is an argument. The readers run on fuel, one call for each 64 bytes
--   and two more, which suffices for every file. Ledger uses Receipt for its records.
-- - Argmax: the two greedy pickers (`argmax` of tools/sp_daemon/src/spec.rs and sampler.rs, and of
--   dialogue.rs), over the order of the logits.
-- - Spec: `spec_step` of tools/sp_daemon/src/spec.rs, over an engine with `decode_step` and
--   `rewind`, which are calls of the C library. It picks with Argmax.
-- - ToolMask: tools/sp_daemon/src/tool_mask.rs, the mask on the tokens of a tool's name.
-- - Sampler: tools/sp_daemon/src/sampler.rs, the choice of a token from a row of logits. `masked` is
--   the row after the suppressed set, the thought floor and ceiling and the n-gram ban, in the
--   order of `Sampler::sample`; Draw is the rest of it, with `none` for a panic. The floats are a
--   record of abstract operations, with the sort of the library; a token is the bit pattern of its
--   i32, and the time of the turn an argument. It picks with Argmax.
-- - Tokenizer: tools/sp_daemon/src/tokenizer.rs. DecodeBuffer is the buffer that holds back what may
--   begin a stop string; its UTF-8 scan has the length of the bytes as fuel, and a character has a
--   byte at least. The parent has the vocabulary, the stops and the suppressed set, which the
--   sampler masks; Template has the encoders and the chat templates. The engine's encoder is a
--   parameter; its loop has fuel for two rounds.
-- - Sessions: tools/sp_daemon/src/sessions.rs, the registry of chats; flags are cells of a store.
-- - Mining: `run_mining_loop` of tools/sp_daemon/src/mining.rs, with the sieve, the signature, the
--   random bytes and the clock as parameters.
-- - Kairos: tools/sp_daemon/src/kairos.rs, the event tape, the counters and the heartbeat, over an
--   abstract f32. Runner is tools/sp_daemon/src/kairos_runner.rs, the same over a session of the C
--   library, with `none` for an error and for the panic of its log line; the decision takes at most
--   24 rounds, as in the source, which are its recursion.
-- - Swarm: tools/sp_swarm/src/lib.rs, content addresses, the frontmatter, provenance and `pull`,
--   with SHA-256, hex and ed25519 as parameters; a folder maps an address to its text, and how each
--   write ends, whole, in part or not at all, is a parameter.
-- - Similarity: tools/sp_swarm/src/similarity.rs, the measure and the index of signatures.
-- - Recall: tools/sp_daemon/src/recall.rs in part. Policy is the policy of an episode, its concept
--   file and the classes; EpisodeDir says where an episode lies; Match has the agreement of
--   signatures and the best match; Lexical has the word tests and reads a citation. The file
--   system, the environment and Unicode's tables are arguments.
-- - Routing: tools/sp_daemon/src/memo_routing.rs, the heads that a query activates in each layer,
--   with the KSTE encoding as a parameter.
-- - Quic: tools/sp_daemon/src/network/quic_shard.rs. Wire is the form of a block on a stream; Garner
--   has the tasks of `run_garner_loop` and what they share, and a step for each stretch that a task
--   runs alone. A schedule is the list of the tasks' numbers, in the order in which they run.
-- - Spine: tools/sp_daemon/src/spine.rs, the deciders of a turn and their fold, and the executor of
--   a decision. It reads Recall's word tests and builds its prompt with Tokenizer. The floats are
--   abstract operations, the cache a parameter.
--
-- Numbers are natural; where the code wraps, saturates or casts, the model writes it out. Not
-- modelled: the C, CUDA and DSP code and its bindings, the HTTP routes and process glue, the
-- reader of the vocabulary blob, the rest of recall (its loaders and its floating-point scores), the
-- dialogue runner, the route seam of the spine, the acceptance of Eagle drafts, the night-shift
-- curator, the swarm transport, and the endpoints and connections of QUIC.
pub mod Base
pub mod BatchCont
pub mod Receipt
pub mod Ledger
pub mod Argmax
pub mod Spec
pub mod ToolMask
pub mod Sampler
pub mod Tokenizer
pub mod Sessions
pub mod Mining
pub mod Kairos
pub mod Swarm
pub mod Similarity
pub mod Recall
pub mod Routing
pub mod Quic
pub mod Spine
