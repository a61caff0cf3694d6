-- ===== src/Raft/Vote.antt =====
-- server/raft.go: RequestVoteHelper, the election timer, startElection and the replies to its
-- requests, and startLeader.
pub mod Grants
use advanced_group_chat_syst.Base.{
  ℕ, suc, ◌+◌, ◌*◌, ◌-◌, ℤ, pos, minus_one, beq_ℤ, ltb_ℤ, leb_ℤ, add64, ltb, leb, Bool, true, false,
  ◌&&◌, ◌||◌, not, List, [], ◌∷◌, ◌++◌, map, length, Map, insert, if◌then◌else◌,
}
use advanced_group_chat_syst.Pb.{LogEntry, RequestVoteRequest, RequestVoteResponse}
use advanced_group_chat_syst.Raft.State.{
  candidate, leader, is_dead, is_leader, is_follower, ConsensusModule, Effect, run_election_timer,
  ask_vote, go_start_leader, heartbeat_loop, persist_to_storage, become_follower,
  last_log_index_and_term, int_eq,
}

-- The log of the candidate, by its last entry, is at least as recent as ours.
unfoldable pub is_up_to_date : RequestVoteRequest → List LogEntry → Bool
unfolding last_log_index_and_term
is_up_to_date req log =
    let (last_log_index, last_log_term) = last_log_index_and_term log in
    ltb_ℤ last_log_term req.last_log_term
    || (beq_ℤ req.last_log_term last_log_term && leb_ℤ last_log_index req.last_log_index)

-- The second half of RequestVoteHelper, after a greater term has been adopted.
unfoldable pub decide_vote : ℕ → RequestVoteRequest → ConsensusModule → ConsensusModule × Bool
decide_vote now req cm =
    if beq_ℤ cm.current_term req.term
      && (beq_ℤ cm.voted_for minus_one || beq_ℤ cm.voted_for req.candidate_id)
      && is_up_to_date req cm.log
    then (record cm { voted_for = req.candidate_id; election_reset_event = now }, true)
    else (cm, false)

unfoldable pub request_vote_helper :
    ℕ → RequestVoteRequest → ConsensusModule → ConsensusModule × RequestVoteResponse × List Effect
unfolding become_follower decide_vote persist_to_storage
request_vote_helper now req cm =
    if is_dead cm.state
    then (cm, record { term = pos 0; vote_granted = false }, [])
    else let (cm1, spawned) =
        if ltb_ℤ cm.current_term req.term then become_follower now req.term cm else (cm, []) in
      let (cm2, granted) = decide_vote now req cm1 in
      (
        cm2,
        record { term = cm2.current_term; vote_granted = granted },
        spawned ++ persist_to_storage cm2 ∷ [],
      )

-- startElection. The goroutine for a peer asks for its vote with the saved term.
unfoldable pub start_election : ℕ → ConsensusModule → ConsensusModule × List Effect
start_election now cm =
    let saved_current_term = add64 cm.current_term (pos 1) in
    (
      record cm {
        state = candidate;
        current_term = saved_current_term;
        election_reset_event = now;
        voted_for = cm.id;
      },
      map (λ peer. ask_vote peer saved_current_term) cm.peer_ids ++ run_election_timer ∷ [],
    )

-- What one tick of runElectionTimer decides: the timer goes on, ends, or ends with an election.
pub data TimerResult : Type 0 where
  keep_waiting timer_ended election_started : TimerResult

-- The body of the loop of runElectionTimer; `now` and the timeout are in the same unit.
unfoldable pub tick_election_timer :
    (timeout now : ℕ) (term_started : ℤ)
    → ConsensusModule
    → TimerResult × ConsensusModule × List Effect
unfolding start_election
tick_election_timer timeout now term_started cm =
    if is_leader cm.state || is_dead cm.state
    then (timer_ended, cm, [])
    else if not (beq_ℤ term_started cm.current_term)
    then (timer_ended, cm, [])
    else if leb timeout (now - cm.election_reset_event)
    then (let (cm', es) = start_election now cm in (election_started, cm', es))
    else (keep_waiting, cm, [])

-- The arguments of a request for a vote, read under the lock when the goroutine runs.
unfoldable pub vote_request : ℤ → ConsensusModule → RequestVoteRequest
unfolding last_log_index_and_term
vote_request saved_term cm =
    let (index, term) = last_log_index_and_term cm.log in
    record { term = saved_term; candidate_id = cm.id; last_log_index = index; last_log_term = term }

-- `nextIndex[peerId] = len(log)` and `matchIndex[peerId] = -1` for every peer
unfoldable pub set_all : ℤ → List ℤ → Map ℤ ℤ → Map ℤ ℤ
set_all v [] m = m
set_all v (p ∷ ps) m = set_all v ps (insert p v m)

-- startLeader
unfoldable pub start_leader : ConsensusModule → ConsensusModule × List Effect
unfolding set_all
start_leader cm = (
  record cm {
    state = leader;
    leader_id = cm.id;
    next_index = set_all (pos (length cm.log)) cm.peer_ids cm.next_index;
    match_index = set_all minus_one cm.peer_ids cm.match_index;
  },
  heartbeat_loop ∷ [],
)

-- The handling of one reply to a request for a vote. `votes` is the counter that the goroutines
-- of one election share.
unfoldable pub vote_reply :
    ℕ
    → (saved_term : ℤ) → RequestVoteResponse
    → (votes : ℕ) → ConsensusModule
    → ConsensusModule × ℕ × List Effect
unfolding start_leader become_follower
vote_reply now saved_term reply votes cm =
    if is_leader cm.state
    then (let (cm', es) = start_leader cm in (cm', votes, es))
    else if is_follower cm.state
    then (cm, votes, [])
    else if ltb_ℤ saved_term reply.term
    then (let (cm', es) = become_follower now reply.term cm in (cm', votes, es))
    else if beq_ℤ reply.term saved_term && reply.vote_granted
    then (
      cm,
      suc votes,
      if ltb (length cm.peer_ids + 1) (suc votes * 2) then go_start_leader ∷ [] else [],
    )
    else (cm, votes, [])
