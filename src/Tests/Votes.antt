-- ===== src/Tests/Votes.antt =====
-- server/raft.go at concrete states: votes and terms.
use advanced_group_chat_syst.Raft.Leader.{submit}
use advanced_group_chat_syst.Base.{
  add64, ℕ, pos, minus_one, ◌<ℤ◌, ◌≤ℤ◌, true, false, ◌≡◌, ◌≢◌, ◌↔◌, inr, refl, [], ◌∷◌, arith, none,
  ok,
}
use advanced_group_chat_syst.Pb.{
  RequestVoteRequest, RequestVoteResponse, AppendEntriesRequest, AppendEntriesResponse,
}
use advanced_group_chat_syst.Raft.Append.{append_entries_helper, insert_entries, matches_prev}
use advanced_group_chat_syst.Raft.State.{
  CmState, follower, candidate, leader, ConsensusModule, last_log_index_and_term,
  run_election_timer, persist, persisted,
}
use advanced_group_chat_syst.Raft.Vote.{
  tick_election_timer, is_up_to_date, request_vote_helper, vote_reply, start_leader,
}
use advanced_group_chat_syst.Raft.Vote.Grants.{MayVote, IsUpToDate, granted_iff}
use advanced_group_chat_syst.Raft.System.{
  vote_requested, timer_ticked, command_submitted, step, Run,
}
use advanced_group_chat_syst.Raft.System.VoteOnce.{vote_once, Quiet}
use advanced_group_chat_syst.Raft.System.Terms.{term_monotone, InTime}
use advanced_group_chat_syst.Raft.System.Races.{
  stepped_down_second_vote, stale_reply_second_vote, late_leader_unwon_term,
}

-- Server 1 of five, in a state and a term.
abbrev server : CmState → ℕ → ConsensusModule
server state term = record {
  id = pos 1;
  leader_id = minus_one;
  peer_ids = pos 2 ∷ pos 3 ∷ pos 4 ∷ pos 5 ∷ [];
  current_term = pos term;
  voted_for = minus_one;
  log = record { command = none; term = pos 1 } ∷ [];
  commit_index = minus_one;
  last_applied = minus_one;
  state = state;
  election_reset_event = 0;
  next_index = [];
  match_index = [];
}

-- Server 2 asks for a vote in a term, with a log of three entries.
abbrev ask : ℕ → ℕ → RequestVoteRequest
ask term from = record {
  term = pos term;
  candidate_id = pos from;
  last_log_index = pos 2;
  last_log_term = pos 1;
}

granted_iff_example :
    ((request_vote_helper 5 (ask 3 2) (server follower 2)).1.vote_granted ≡ true)
    ↔ MayVote (ask 3 2) (server follower 2)
granted_iff_example = granted_iff 5 (ask 3 2) (server follower 2)

grants : (request_vote_helper 5 (ask 3 2) (server follower 2)).1.vote_granted ≡ true
unfolding request_vote_helper is_up_to_date
grants = refl

abbrev voter : ConsensusModule
voter = (request_vote_helper 5 (ask 3 2) (server follower 2)).0

-- The voter is asked by server 4 in the same term, and is handed a command.
voter-Run : Run Quiet voter voter
unfolding step submit request_vote_helper is_up_to_date
voter-Run =
    Run.then (vote_requested 6 (ask 3 4)) (ground arith) refl
      (Run.then (command_submitted none) tt refl Run.done)

grants_again : (request_vote_helper 9 (ask 3 2) voter).1.vote_granted ≡ true
unfolding request_vote_helper is_up_to_date
grants_again = refl

vote_once_example : (ask 3 2).candidate_id ≡ (ask 3 2).candidate_id
vote_once_example =
    vote_once 5 9 (ask 3 2) (ask 3 2) (server follower 2) voter refl (ground arith) grants voter-Run
      refl grants_again

-- A follower whose timer runs out, and that then hears of a later term.
abbrev later_voter : ConsensusModule
later_voter = record (server follower 7) { voted_for = pos 2; election_reset_event = 500 }

election-Run : Run InTime (server follower 2) later_voter
unfolding step request_vote_helper tick_election_timer add64 is_up_to_date
election-Run =
    Run.then (timer_ticked 200 300 (pos 2)) (ground arith) refl
      (Run.then (vote_requested 500 (ask 7 2)) tt refl Run.done)

term_monotone_example : (server follower 2).current_term ≤ℤ later_voter.current_term
term_monotone_example = term_monotone election-Run

abbrev refused_in : ℕ → RequestVoteResponse
refused_in term = record { term = pos term; vote_granted = false }

recent : IsUpToDate (ask 6 2) (server candidate 6).log
unfolding last_log_index_and_term
recent = inr (refl, omega arith)

stale_reply_second_vote_example :
    let cm' = (vote_reply 8 (pos 3) (refused_in 4) 1 (server candidate 6)).0 in
    (cm'.current_term <ℤ pos 6) × ((request_vote_helper 9 (ask 6 2) cm').1.vote_granted ≡ true)
stale_reply_second_vote_example =
    stale_reply_second_vote 8 9 (pos 3) (refused_in 4) 1 (ask 6 2) (server candidate 6) refl
      (omega arith) (omega arith) refl recent

late_leader_unwon_term_example :
    let cm' = (start_leader (request_vote_helper 9 (ask 7 2) (server candidate 6)).0).0 in
    (cm'.state ≡ leader) × (cm'.current_term ≡ pos 7) × (cm'.voted_for ≢ cm'.id)
late_leader_unwon_term_example =
    late_leader_unwon_term 9 (ask 7 2) (server candidate 6) refl (omega arith) (ground arith)
      (ground arith)

-- The entries of server 3, which leads in the term in which server 1 is a candidate.
abbrev heartbeat : AppendEntriesRequest
heartbeat = record {
  term = pos 6;
  leader_id = pos 3;
  prev_log_index = minus_one;
  prev_log_term = minus_one;
  entries = [];
  leader_commit = minus_one;
}

abbrev stepped_down : ConsensusModule
stepped_down = record (server follower 6) { leader_id = pos 3; election_reset_event = 8 }

abbrev accepts : AppendEntriesResponse
accepts = record { term = pos 6; success = true; conflict_index = pos 0; conflict_term = pos 0 }

steps_down :
    append_entries_helper 8 heartbeat (record (server candidate 6) { voted_for = pos 1 })
    ≡ ok (stepped_down, accepts, run_election_timer ∷ persist (persisted stepped_down) ∷ [])
unfolding append_entries_helper persisted insert_entries matches_prev
steps_down = refl

stepped_down_second_vote_example :
    (stepped_down.current_term ≡ pos 6)
    × ((request_vote_helper 9 (ask 6 2) stepped_down).1.vote_granted ≡ true)
stepped_down_second_vote_example =
    stepped_down_second_vote 8 9 heartbeat (ask 6 2)
      (record (server candidate 6) { voted_for = pos 1 }) stepped_down accepts
      (run_election_timer ∷ persist (persisted stepped_down) ∷ []) refl refl steps_down refl recent
