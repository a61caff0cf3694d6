-- ===== src/Tests.antt =====
-- The theorems of the development at concrete states of the program.
mod Votes
mod Entries
mod Leading
mod Memory
mod Disks
mod Chats
mod Clusters
mod Terms
mod Sessions
