-- ===== src/Raft/Vote/Grants.antt =====
-- When RequestVoteHelper grants a vote, and what it leaves behind.
use advanced_group_chat_syst.Base.{
  ℕ, minus_one, beq_ℤ_iff, ◌≤ℤ◌, ◌<ℤ◌, eq_of_parts, ◌≡◌, ◌↔◌, ◌⊎◌, true, false, List, [], ◌∷◌,
  arith,
}
use advanced_group_chat_syst.Pb.{LogEntry, RequestVoteRequest}
use advanced_group_chat_syst.Raft.State.{
  is_dead, ConsensusModule, last_log_index_and_term, last_entry,
}
use advanced_group_chat_syst.Raft.Vote.{is_up_to_date, request_vote_helper}

-- The rule of the Raft paper: later last term, or the same and a log that is no shorter.
abbrev pub IsUpToDate : RequestVoteRequest → List LogEntry → Type 0
IsUpToDate req log =
    ((last_log_index_and_term log).1 <ℤ req.last_log_term)
    ⊎ ((req.last_log_term ≡ (last_log_index_and_term log).1)
        × ((last_log_index_and_term log).0 ≤ℤ req.last_log_index))

abbrev pub MayVote : RequestVoteRequest → ConsensusModule → Type 0
MayVote req cm =
    (is_dead cm.state ≡ false)
    × IsUpToDate req cm.log
    × ((cm.current_term <ℤ req.term)
        ⊎ ((cm.current_term ≡ req.term)
            × ((cm.voted_for ≡ minus_one) ⊎ (cm.voted_for ≡ req.candidate_id))))

is_up_to_date_iff :
    (req : RequestVoteRequest) (log : List LogEntry)
    → (is_up_to_date req log ≡ true) ↔ IsUpToDate req log
unfolding is_up_to_date
is_up_to_date_iff req [] = ground (arith, eq_of_parts req.last_log_term minus_one)
is_up_to_date_iff req (e ∷ es) =
    ground (arith, eq_of_parts req.last_log_term (last_entry e es).term)

pub granted-MayVote :
    (now : ℕ) (req : RequestVoteRequest) (cm : ConsensusModule)
    → (request_vote_helper now req cm).1.vote_granted ≡ true
    → MayVote req cm
unfolding request_vote_helper
granted-MayVote now req cm h = ground (
  arith,
  is_up_to_date_iff req cm.log,
  eq_of_parts cm.current_term req.term,
  eq_of_parts cm.voted_for req.candidate_id,
  eq_of_parts cm.voted_for minus_one,
)

pub MayVote-granted :
    (now : ℕ) (req : RequestVoteRequest) (cm : ConsensusModule)
    → MayVote req cm
    → (request_vote_helper now req cm).1.vote_granted ≡ true
unfolding request_vote_helper
MayVote-granted now req cm h = ground (
  arith,
  is_up_to_date_iff req cm.log,
  beq_ℤ_iff cm.current_term req.term,
  beq_ℤ_iff cm.voted_for req.candidate_id,
  beq_ℤ_iff cm.voted_for minus_one,
)

-- RequestVoteHelper grants a vote exactly when the server is up, the candidate's log is at least as
-- recent as its own, and the term is new or the server has not voted for another in it.
pub granted_iff :
    (now : ℕ) (req : RequestVoteRequest) (cm : ConsensusModule)
    → ((request_vote_helper now req cm).1.vote_granted ≡ true) ↔ MayVote req cm
granted_iff now req cm = (granted-MayVote now req cm, MayVote-granted now req cm)
