-- ===== src/Server.antt =====
-- server/raft_server.go, server/server_store.go and server/chat_service.go.
pub mod Persist
pub mod Peers
pub mod Start
pub mod Connections
pub mod Chat
