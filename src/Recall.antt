-- ===== src/Recall.antt =====
-- tools/sp_daemon/src/recall.rs, in part: how an episode wants to be delivered, where it lies, and
-- which one a signature matches. A string is its list of code points.
pub mod Policy
pub mod EpisodeDir
pub mod Match
pub mod Lexical
