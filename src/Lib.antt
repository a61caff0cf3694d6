-- ===== src/Lib.antt =====
-- A chat system of five servers and its client. Clients talk to one server by gRPC streams; a server
-- hands each change of a group to its Raft consensus module as a command; a command that a majority
-- of the servers has stored is applied by each server to its own disk store; and the members of the
-- group that changed are sent the group.
--
-- The files, and the code that they model:
--   Base: numbers, ℤ with the wrap-around of int64, lists, results (`panic` for a Go panic and for
--     log.Fatal), maps as association lists, slices.
--   Pb: the messages of pb/*.pb.go.
--   Raft: server/raft.go. State: the fields of ConsensusModule, and the effects of a method, which
--     are the goroutines that it starts, its channel messages and its disk writes. Vote:
--     RequestVoteHelper, runElectionTimer, startElection, startLeader. Append: AppendEntriesHelper.
--     Leader: Submit, forwarding, leaderSendAEs and its replies. Apply: commitChanSender. System:
--     the module as a state machine, an event for each section of code that runs under the lock.
--     Cluster: the modules of all servers, with the votes and requests between them. Its invariants
--     are in Plain (what a handler does to the part of a module in elections), Invariant, Voting,
--     Asking, Leading and Starting (votes, counts and leaders, step by step) for Safety and Counts;
--     and in Logs, LogEvents, LogSteps and LogGrowth (logs, by the logs of the leaders) for Matching.
--     History: the logs with which servers ran, voted and started to lead, and what they accepted.
--   Storage: server/storage.go. Backend: the store of raft-badger, gob and copier as a record of
--     operations, with their laws. Disk: users and groups. Messages: messages and likes. RaftState:
--     SetState, GetState, HasData.
--   Node: a consensus module on its store: what it writes, and a restart.
--   Server: server/raft_server.go (Persist: persistData and the loop of commitEntries of
--     server/raft.go; Peers: the peers and their connections; Start: NewServer),
--     server/server_store.go (Connections) and server/chat_service.go (Chat).
--   Client: chat_client and main/client. Text: the functions of strings and strconv. Commands: the
--     store and ProcessMessage. Session: main, ConnectClient and the loops of JoinGroupChat.
--     Printing: PrintRecent and PrintAll, the lines of messages.
--   Appending: a typed message, from the client to the disks of the servers.
--   Tests: the theorems at concrete states; Memory is a store that has the laws of Backend.
--
-- Conventions. An operation is a function from its arguments and the old state to the new state and
-- its reply; one that may panic returns a Result. A lock makes a method one step; startLeader, which
-- may run in a goroutine of its own, is an event of its own. Terms and indices are ℤ: sums and
-- differences wrap as in int64 (`add64`, `sub64`), and the theorems that need it ask for a term or
-- a log within the range. Loops are recursions over the list that they walk; the ones that count
-- (`other_ids`, `last_index_of_term`, `itoa_from`, the printing loops) have as fuel the number of
-- rounds that the source makes, and `itoa_from` one more than the number, which has fewer digits.
-- The order in which Go visits a map is an argument.
--
-- The steps of a cluster let a goroutine act on the term that it saved however late, as in the code. The
-- theorems on a cluster are about the runs of orderly steps (`IsOrderly` in Raft/Cluster), which
-- leave three races of the code out: a reply to a vote request does not take a candidate back to an
-- earlier term or to the start of its own, startLeader runs in the term that was won and not in a
-- follower, and a request to append is made while the server still leads in the saved term. The
-- code checks none of the three. What the first two lead to is in Raft/System/Races. Where a history
-- is used, a request for a vote also bears the log with which its candidate ran (`IsHonest`), which
-- the goroutine in the code reads later. Servers of a cluster do not restart; what a restart keeps
-- is in Node/Restart.
--
-- Not modelled: clocks and timeouts beyond the test of the election timer, blocking on channels,
-- gRPC and the network (a reply comes in as an event, or not at all), data races on fields that are
-- read without the lock, the sharing of arrays between slices of the log, the difference of nil and
-- empty maps, logging, and the flags and listeners of main/server.
pub mod Base
pub mod Pb
pub mod Raft
pub mod Storage
pub mod Node
pub mod Server
pub mod Client
pub mod Appending
pub mod Tests
