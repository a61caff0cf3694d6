-- ===== src/Client.antt =====
-- chat_client/ and main/client: the client, its commands and what it prints.
pub mod Text
pub mod Commands
pub mod Printing
pub mod Session
