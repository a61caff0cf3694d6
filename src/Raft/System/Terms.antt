-- ===== src/Raft/System/Terms.antt =====
-- The current term of a module never falls, unless a reply of an older election comes late.
use advanced_group_chat_syst.Base.{
  ℕ, ◌+◌, ◌^◌, ◌<◌, ℤ, pos_part, ◌≤ℤ◌, InRange64, lt-add64_one, ◌≡◌, ok, Result-cases, slot_after,
  inl, inr, arith, List,
}
use advanced_group_chat_syst.Pb.{LogEntry, AppendEntriesRequest, AppendEntriesResponse}
use advanced_group_chat_syst.Raft.State.{ConsensusModule, stop}
use advanced_group_chat_syst.Raft.Vote.{
  request_vote_helper, tick_election_timer, vote_reply, start_leader,
}
use advanced_group_chat_syst.Raft.Append.{append_entries_helper}
use advanced_group_chat_syst.Raft.Leader.{
  submit, forward_leader_helper, forward_reply, append_reply,
}
use advanced_group_chat_syst.Raft.Apply.{commit_chan_sender}
use advanced_group_chat_syst.Raft.System.{
  Event, vote_requested, entries_received, timer_ticked, vote_replied, leader_started,
  entries_replied, command_submitted, command_forwarded, forward_replied, entries_applied, stopped,
  step, Run, Run-keeps,
}

-- An election does not overflow the term, and a reply is to a request of the current election.
abbrev pub InTime : Event → ConsensusModule → Type 0
InTime (timer_ticked _ _ _) cm = InRange64 cm.current_term × (pos_part cm.current_term + 1 < 2 ^ 63)
InTime (vote_replied _ saved _ _) cm = saved ≡ cm.current_term
InTime _ cm = Unit {0}

pub term-append :
    (now : ℕ) (req : AppendEntriesRequest) (cm cm' : ConsensusModule)
    → step (entries_received now req) cm ≡ ok cm'
    → cm.current_term ≤ℤ cm'.current_term
unfolding step append_entries_helper
term-append now req cm cm' h = ground arith

term-append_reply :
    (now : ℕ) (peer saved next : ℤ) (es : List LogEntry) (reply : AppendEntriesResponse)
    (cm cm' : ConsensusModule)
    → step (entries_replied now peer saved next es reply) cm ≡ ok cm'
    → cm.current_term ≤ℤ cm'.current_term
unfolding step append_reply
term-append_reply now peer saved next es reply cm cm' h = ground arith

term-apply :
    (cm cm' : ConsensusModule)
    → step entries_applied cm ≡ ok cm'
    → cm.current_term ≤ℤ cm'.current_term
unfolding step commit_chan_sender
term-apply cm cm' h = elim (Result-cases (slot_after cm.last_applied)) [
  | inl bad ↦ ground (arith, bad)
  | inr (lo, at) ↦ elim (Result-cases (slot_after cm.commit_index)) [
    | inl bad ↦ ground (arith, at, bad)
    | inr (hi, to) ↦ ground (arith, at, to)
  ]
]

le_trans_ℤ : (a b c : ℤ) → a ≤ℤ b → b ≤ℤ c → a ≤ℤ c
le_trans_ℤ a b c h k = omega arith

pub term-step :
    (e : Event) (cm cm' : ConsensusModule)
    → InTime e cm
    → step e cm ≡ ok cm'
    → cm.current_term ≤ℤ cm'.current_term
unfolding step
term-step (vote_requested now req) cm cm' p h = unfold request_vote_helper in ground arith
term-step (entries_received now req) cm cm' p h = term-append now req cm cm' h
term-step (timer_ticked timeout now started) cm cm' p h =
    unfold tick_election_timer in ground (arith, lt-add64_one cm.current_term p.0 p.1)
term-step (vote_replied now saved reply votes) cm cm' p h = unfold vote_reply in ground arith
term-step leader_started cm cm' p h = unfold start_leader in ground arith
term-step (entries_replied now peer saved next es reply) cm cm' p h =
    term-append_reply now peer saved next es reply cm cm' h
term-step (command_submitted c) cm cm' p h = unfold submit in ground arith
term-step (command_forwarded c) cm cm' p h = unfold forward_leader_helper in ground arith
term-step (forward_replied c reply) cm cm' p h = unfold forward_reply in ground arith
term-step entries_applied cm cm' p h = term-apply cm cm' h
term-step stopped cm cm' p h = unfold stop in ground arith

-- Over any run in which elections do not overflow the term and no reply of an older election
-- arrives, the current term does not fall.
pub term_monotone :
    {cm cm' : ConsensusModule} → Run InTime cm cm' → cm.current_term ≤ℤ cm'.current_term
term_monotone {cm} r =
    Run-keeps (λ c. cm.current_term ≤ℤ c.current_term)
      (λ e c c' p s h.
        le_trans_ℤ cm.current_term c.current_term c'.current_term h (term-step e c c' p s))
      r (omega arith)
