-- ===== src/Raft/System.antt =====
-- server/raft.go: the consensus module as a state machine. An event is one section of code that runs
-- under the lock; events of a module interleave in any order.
pub mod VoteOnce
pub mod Terms
pub mod Races
pub mod AppendOnly
use advanced_group_chat_syst.Base.{ℕ, ℤ, List, Option, Result, ok, ◌>>=◌, ◌≡◌}
use advanced_group_chat_syst.Pb.{
  Command, LogEntry, RequestVoteRequest, RequestVoteResponse, AppendEntriesRequest,
  AppendEntriesResponse, ForwardLeaderResponse,
}
use advanced_group_chat_syst.Raft.State.{ConsensusModule, stop}
use advanced_group_chat_syst.Raft.Vote.{
  request_vote_helper, tick_election_timer, vote_reply, start_leader,
}
use advanced_group_chat_syst.Raft.Append.{append_entries_helper}
use advanced_group_chat_syst.Raft.Leader.{
  submit, forward_leader_helper, forward_reply, append_reply,
}
use advanced_group_chat_syst.Raft.Apply.{commit_chan_sender}

pub data Event : Type 0 where
  vote_requested : (now : ℕ) → RequestVoteRequest → Event
  entries_received : (now : ℕ) → AppendEntriesRequest → Event
  timer_ticked : (timeout now : ℕ) (term_started : ℤ) → Event
  vote_replied : (now : ℕ) (saved_term : ℤ) → RequestVoteResponse → (votes : ℕ) → Event
  leader_started : Event
  entries_replied :
      (now : ℕ) (peer saved_term next : ℤ) → List LogEntry → AppendEntriesResponse → Event
  command_submitted : Option Command → Event
  command_forwarded : Option Command → Event
  forward_replied : Option Command → ForwardLeaderResponse → Event
  entries_applied : Event
  stopped : Event

unfoldable pub step : Event → ConsensusModule → Result ConsensusModule
step (vote_requested now req) cm = ok (request_vote_helper now req cm).0
step (entries_received now req) cm = do (cm', _, _) ← append_entries_helper now req cm; ok cm'
step (timer_ticked timeout now started) cm = ok (tick_election_timer timeout now started cm).1
step (vote_replied now saved reply votes) cm = ok (vote_reply now saved reply votes cm).0
step leader_started cm = ok (start_leader cm).0
step (entries_replied now peer saved next es reply) cm = do
  (cm', _) ← append_reply now peer saved next es reply cm
  ok cm'
step (command_submitted command) cm = ok (submit command cm).0
step (command_forwarded command) cm = ok (forward_leader_helper command cm).0
step (forward_replied command reply) cm = ok (forward_reply command reply cm).0
step entries_applied cm = do (cm', _) ← commit_chan_sender cm; ok cm'
step stopped cm = ok (stop cm).0

-- A run of events, each of which meets a condition in the state that it finds.
pub data Run (P : Event → ConsensusModule → Type 0)
    : ConsensusModule → ConsensusModule → Type 0 where
  done : {cm : ConsensusModule} → Run P cm cm
  then :
      {cm cm' cm'' : ConsensusModule} (e : Event)
      → P e cm
      → step e cm ≡ ok cm'
      → Run P cm' cm''
      → Run P cm cm''

-- A property that every step of a run keeps holds at its end.
pub Run-keeps {ℓ} :
    {P : Event → ConsensusModule → Type 0} (I : ConsensusModule → Type ℓ)
    → ((e : Event) (cm cm' : ConsensusModule) → P e cm → step e cm ≡ ok cm' → I cm → I cm')
    → {cm cm' : ConsensusModule} → Run P cm cm'
    → I cm
    → I cm'
Run-keeps I keep done h = h
Run-keeps I keep (then e p s r) h = Run-keeps I keep r (keep e _ _ p s h)
