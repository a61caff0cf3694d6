-- ===== src/Raft/System/VoteOnce.antt =====
-- A server that has voted for a candidate votes for no other in that term.
use advanced_group_chat_syst.Base.{
  ℕ, ◌+◌, ◌^◌, ◌<◌, ℤ, pos_part, minus_one, ◌<ℤ◌, InRange64, lt-add64_one, eq_of_parts, ◌≡◌, ◌≢◌,
  ◌⊎◌, true, ◌||◌, ok, Result-cases, slot_after, inl, inr, arith, subst, eq_of_ok, List,
}
use advanced_group_chat_syst.Pb.{
  LogEntry, RequestVoteRequest, AppendEntriesRequest, AppendEntriesResponse,
}
use advanced_group_chat_syst.Raft.State.{ConsensusModule, stop, is_follower, is_dead}
use advanced_group_chat_syst.Raft.Vote.{request_vote_helper, tick_election_timer}
use advanced_group_chat_syst.Raft.Append.{append_entries_helper}
use advanced_group_chat_syst.Raft.Leader.{
  submit, forward_leader_helper, forward_reply, append_reply,
}
use advanced_group_chat_syst.Raft.Apply.{commit_chan_sender}
use advanced_group_chat_syst.Raft.System.Terms.{term-append}
use advanced_group_chat_syst.Raft.System.{
  Event, vote_requested, entries_received, timer_ticked, vote_replied, leader_started,
  entries_replied, command_submitted, command_forwarded, forward_replied, entries_applied, stopped,
  step, Run, Run-keeps,
}

-- No vote for an election of the server's own comes in and startLeader is not called, its elections do not overflow the term, and
-- candidates have ids other than -1.
abbrev pub Quiet : Event → ConsensusModule → Type 0
Quiet (vote_requested _ req) cm = req.candidate_id ≢ minus_one
Quiet (timer_ticked _ _ _) cm = InRange64 cm.current_term × (pos_part cm.current_term + 1 < 2 ^ 63)
Quiet (vote_replied _ _ _ _) cm = ⊥
Quiet leader_started cm = ⊥
Quiet _ cm = Unit {0}

-- The server has left term `t`, or is a follower (or stopped) that voted for `c` in it.
abbrev pub Voted : ℤ → ℤ → ConsensusModule → Type 0
Voted t c cm =
    (t <ℤ cm.current_term)
    ⊎ ((cm.current_term ≡ t)
        × (cm.voted_for ≡ c)
        × ((is_follower cm.state || is_dead cm.state) ≡ true))

apply_keeps :
    (cm cm' : ConsensusModule)
    → step entries_applied cm ≡ ok cm'
    → (cm'.current_term ≡ cm.current_term) × (cm'.voted_for ≡ cm.voted_for) × (cm'.state ≡ cm.state)
unfolding step commit_chan_sender
apply_keeps cm cm' h = elim (Result-cases (slot_after cm.last_applied)) [
  | inl bad ↦ ground (arith, bad)
  | inr (lo, at) ↦ elim (Result-cases (slot_after cm.commit_index)) [
    | inl bad ↦ ground (arith, at, bad)
    | inr (hi, to) ↦ ground (arith, at, to)
  ]
]

module _ (t c : ℤ) (real : c ≢ minus_one) where
  Voted-vote :
      (now : ℕ) (req : RequestVoteRequest) (cm : ConsensusModule)
      → Voted t c cm
      → Voted t c (request_vote_helper now req cm).0
  unfolding request_vote_helper
  Voted-vote now req cm h = ground (
    arith,
    eq_of_parts cm.voted_for minus_one,
    eq_of_parts cm.voted_for req.candidate_id,
    eq_of_parts cm.current_term req.term,
  )

  Voted-append :
      (now : ℕ) (req : AppendEntriesRequest) (cm cm' : ConsensusModule)
      → step (entries_received now req) cm ≡ ok cm'
      → Voted t c cm
      → Voted t c cm'
  unfolding step append_entries_helper
  Voted-append now req cm cm' s h = elim h [
    | inl past ↦ inl (omega (arith, term-append now req cm cm' s))
    | inr now_in ↦ ground (arith, eq_of_parts cm.current_term req.term)
  ]

  Voted-reply :
      (now : ℕ) (peer saved next : ℤ) (es : List LogEntry) (reply : AppendEntriesResponse)
      (cm cm' : ConsensusModule)
      → step (entries_replied now peer saved next es reply) cm ≡ ok cm'
      → Voted t c cm
      → Voted t c cm'
  unfolding step append_reply
  Voted-reply now peer saved next es reply cm cm' s h = ground arith

  Voted-apply :
      (cm cm' : ConsensusModule) → step entries_applied cm ≡ ok cm' → Voted t c cm → Voted t c cm'
  Voted-apply cm cm' s h = ground (arith, apply_keeps cm cm' s)

  Voted-step :
      (e : Event) (cm cm' : ConsensusModule)
      → Quiet e cm
      → step e cm ≡ ok cm'
      → Voted t c cm
      → Voted t c cm'
  unfolding step
  Voted-step (vote_requested now req) cm cm' q s h =
      subst (Voted t c) (eq_of_ok s) (Voted-vote now req cm h)
  Voted-step (entries_received now req) cm cm' q s h = Voted-append now req cm cm' s h
  Voted-step (timer_ticked timeout now started) cm cm' q s h =
      subst (Voted t c) (eq_of_ok s)
        (unfold tick_election_timer in ground (arith, lt-add64_one cm.current_term q.0 q.1))
  Voted-step (vote_replied now saved reply votes) cm cm' q s h = absurd q
  Voted-step leader_started cm cm' q s h = absurd q
  Voted-step (entries_replied now peer saved next es reply) cm cm' q s h =
      Voted-reply now peer saved next es reply cm cm' s h
  Voted-step (command_submitted x) cm cm' q s h =
      subst (Voted t c) (eq_of_ok s) (unfold submit in ground arith)
  Voted-step (command_forwarded x) cm cm' q s h =
      subst (Voted t c) (eq_of_ok s) (unfold forward_leader_helper in ground arith)
  Voted-step (forward_replied x reply) cm cm' q s h =
      subst (Voted t c) (eq_of_ok s) (unfold forward_reply in ground arith)
  Voted-step entries_applied cm cm' q s h = Voted-apply cm cm' s h
  Voted-step stopped cm cm' q s h = subst (Voted t c) (eq_of_ok s) (unfold stop in ground arith)

granted-Voted :
    (now : ℕ) (req : RequestVoteRequest) (cm : ConsensusModule)
    → is_follower cm.state ≡ true
    → (request_vote_helper now req cm).1.vote_granted ≡ true
    → Voted req.term req.candidate_id (request_vote_helper now req cm).0
unfolding request_vote_helper
granted-Voted now req cm f h = ground (arith, eq_of_parts cm.current_term req.term)

Voted-granted :
    (now : ℕ) (t c : ℤ) (req : RequestVoteRequest) (cm : ConsensusModule)
    → c ≢ minus_one
    → Voted t c cm
    → req.term ≡ t
    → (request_vote_helper now req cm).1.vote_granted ≡ true
    → req.candidate_id ≡ c
unfolding request_vote_helper
Voted-granted now t c req cm real h same g = ground (
  arith,
  eq_of_parts cm.current_term req.term,
  eq_of_parts cm.voted_for minus_one,
  eq_of_parts cm.voted_for req.candidate_id,
)

-- After a follower has granted its vote, whatever it handles then except the replies of an election
-- of its own and the call of startLeader that such a reply has started, and while its elections
-- do not overflow the term and no candidate has the id -1, a vote that it grants in the same
-- term goes to the same candidate.
pub vote_once :
    (now later : ℕ) (req req' : RequestVoteRequest) (cm cm' : ConsensusModule)
    → is_follower cm.state ≡ true
    → req.candidate_id ≢ minus_one
    → (request_vote_helper now req cm).1.vote_granted ≡ true
    → Run Quiet (request_vote_helper now req cm).0 cm'
    → req'.term ≡ req.term
    → (request_vote_helper later req' cm').1.vote_granted ≡ true
    → req'.candidate_id ≡ req.candidate_id
vote_once now later req req' cm cm' f real granted run same again =
    Voted-granted later req.term req.candidate_id req' cm' real
      (Run-keeps (Voted req.term req.candidate_id) (Voted-step req.term req.candidate_id real) run
        (granted-Voted now req cm f granted))
      same again
