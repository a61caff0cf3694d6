-- ===== src/Raft.antt =====
-- server/raft.go: the consensus module, a module for each group of its methods.
pub mod State
pub mod Vote
pub mod Append
pub mod Leader
pub mod Apply
pub mod System
pub mod Cluster
