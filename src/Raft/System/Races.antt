-- ===== src/Raft/System/Races.antt =====
-- Two orders of events that the code does not guard against.
use advanced_group_chat_syst.Base.{ℕ, ℤ, minus_one, ◌<ℤ◌, ◌≡◌, ◌≢◌, true, false, List, ok, arith}
use advanced_group_chat_syst.Pb.{
  RequestVoteRequest, RequestVoteResponse, AppendEntriesRequest, AppendEntriesResponse,
}
use advanced_group_chat_syst.Raft.Append.{append_entries_helper}
use advanced_group_chat_syst.Raft.State.{
  ConsensusModule, candidate, leader, is_dead, is_follower, Effect,
}
use advanced_group_chat_syst.Raft.Vote.{request_vote_helper, vote_reply, start_leader}
use advanced_group_chat_syst.Raft.Vote.Grants.{IsUpToDate, MayVote-granted}

-- A candidate that gets a reply of an older election, with a term between that election's and its
-- own, goes back to a lower term. Whatever it voted before, it then grants a vote in the term that it
-- had to any candidate whose log is up to date.
pub stale_reply_second_vote :
    (now later : ℕ) (saved : ℤ) (reply : RequestVoteResponse) (votes : ℕ) (req : RequestVoteRequest)
    (cm : ConsensusModule)
    → cm.state ≡ candidate
    → saved <ℤ reply.term
    → reply.term <ℤ cm.current_term
    → req.term ≡ cm.current_term
    → IsUpToDate req cm.log
    → let cm' = (vote_reply now saved reply votes cm).0 in
      (cm'.current_term <ℤ cm.current_term)
      × ((request_vote_helper later req cm').1.vote_granted ≡ true)
unfolding vote_reply
stale_reply_second_vote now later saved reply votes req cm c old between same recent =
    (ground arith, MayVote-granted later req (vote_reply now saved reply votes cm).0 (ground arith))

-- The goroutine of startLeader does not look at the state: a server that won an election, and that
-- handles a vote request of another candidate for a later term before the goroutine runs, becomes
-- the leader of that later term, in which it has not voted for itself.
pub late_leader_unwon_term :
    (now : ℕ) (req : RequestVoteRequest) (cm : ConsensusModule)
    → is_dead cm.state ≡ false
    → cm.current_term <ℤ req.term
    → req.candidate_id ≢ cm.id
    → minus_one ≢ cm.id
    → let cm' = (start_leader (request_vote_helper now req cm).0).0 in
      (cm'.state ≡ leader) × (cm'.current_term ≡ req.term) × (cm'.voted_for ≢ cm'.id)
unfolding start_leader request_vote_helper
late_leader_unwon_term now req cm alive later other real = ground arith

freed :
    (now : ℕ) (entries : AppendEntriesRequest) (cm cm' : ConsensusModule)
    (reply : AppendEntriesResponse) (es : List Effect)
    → cm.state ≡ candidate
    → entries.term ≡ cm.current_term
    → append_entries_helper now entries cm ≡ ok (cm', reply, es)
    → (cm'.current_term ≡ cm.current_term)
      × (cm'.voted_for ≡ minus_one)
      × (is_follower cm'.state ≡ true)
unfolding append_entries_helper
freed now entries cm cm' reply es c same h = ground arith

-- A candidate that hears from the leader of its own term forgets its vote for itself: it then grants
-- a vote in the same term to any candidate whose log is up to date. (The term has its leader by then.)
pub stepped_down_second_vote :
    (now later : ℕ) (entries : AppendEntriesRequest) (req : RequestVoteRequest)
    (cm cm' : ConsensusModule) (reply : AppendEntriesResponse) (es : List Effect)
    → cm.state ≡ candidate
    → entries.term ≡ cm.current_term
    → append_entries_helper now entries cm ≡ ok (cm', reply, es)
    → req.term ≡ cm.current_term
    → IsUpToDate req cm'.log
    → (cm'.current_term ≡ cm.current_term)
      × ((request_vote_helper later req cm').1.vote_granted ≡ true)
stepped_down_second_vote now later entries req cm cm' reply es c same h t recent =
    let (term, voted, state) = freed now entries cm cm' reply es c same h in
    (term, MayVote-granted later req cm' (ground (arith, term, voted, state)))
