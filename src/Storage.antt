-- ===== src/Storage.antt =====
-- server/storage.go: the disk store of the chat data and of the raft state.
pub mod Backend
pub mod Disk
pub mod Messages
pub mod RaftState
