-- ===== src/Raft/System/AppendOnly.antt =====
-- While a server leads, its log only grows.
use advanced_group_chat_syst.Base.{
  ℕ, ◌≤◌, ℤ, true, ◌≡◌, sym, ap, ◌∙◌, List, [], ◌∷◌, ◌++◌, length, take, take-append, take-ge,
  take-take, length-take, Option, ok, Result-cases, inl, inr, slot_after, eq_of_ok, arith,
}
use advanced_group_chat_syst.Pb.{Command, LogEntry, AppendEntriesRequest, AppendEntriesResponse}
use advanced_group_chat_syst.Raft.State.{ConsensusModule, is_leader, stop}
use advanced_group_chat_syst.Raft.Vote.{
  request_vote_helper, tick_election_timer, vote_reply, start_leader,
}
use advanced_group_chat_syst.Raft.Append.{append_entries_helper}
use advanced_group_chat_syst.Raft.Leader.{
  submit, forward_leader_helper, forward_reply, append_reply,
}
use advanced_group_chat_syst.Raft.Apply.{commit_chan_sender}
use advanced_group_chat_syst.Raft.System.{
  Event, vote_requested, entries_received, timer_ticked, vote_replied, leader_started,
  entries_replied, command_submitted, command_forwarded, forward_replied, entries_applied, stopped,
  step, Run, Run-keeps,
}

-- The event finds a leader.
abbrev pub Leading : Event → ConsensusModule → Type 0
Leading e cm = is_leader cm.state ≡ true

-- If the second log is a leader's, the first is its beginning.
abbrev Extends : List LogEntry → ConsensusModule → Type 0
Extends log cm = is_leader cm.state ≡ true → take (length log) cm.log ≡ log

take_self : (log : List LogEntry) → take (length log) log ≡ log
take_self log = take-ge (length log) log (omega arith)

take_longer : (log new : List LogEntry) → take (length log) (log ++ new) ≡ log
take_longer log new = take-append (length log) log new (omega arith) ∙ take_self log

same_log : (cm cm' : ConsensusModule) → cm'.log ≡ cm.log → take (length cm.log) cm'.log ≡ cm.log
same_log cm cm' h = ap (take (length cm.log)) h ∙ take_self cm.log

append_not_leading :
    (now : ℕ) (req : AppendEntriesRequest) (cm cm' : ConsensusModule)
    → step (entries_received now req) cm ≡ ok cm'
    → is_leader cm'.state ≡ true
    → cm'.log ≡ cm.log
unfolding step append_entries_helper
append_not_leading now req cm cm' s lead = ground arith

reply_log :
    (now : ℕ) (peer saved next : ℤ) (es : List LogEntry) (reply : AppendEntriesResponse)
    (cm cm' : ConsensusModule)
    → step (entries_replied now peer saved next es reply) cm ≡ ok cm'
    → cm'.log ≡ cm.log
unfolding step append_reply
reply_log now peer saved next es reply cm cm' s = ground arith

apply_log : (cm cm' : ConsensusModule) → step entries_applied cm ≡ ok cm' → cm'.log ≡ cm.log
unfolding step commit_chan_sender
apply_log cm cm' h = elim (Result-cases (slot_after cm.last_applied)) [
  | inl bad ↦ ground (arith, bad)
  | inr (lo, at) ↦ elim (Result-cases (slot_after cm.commit_index)) [
    | inl bad ↦ ground (arith, at, bad)
    | inr (hi, to) ↦ ground (arith, at, to)
  ]
]

extends-submit :
    (c : Option Command) (cm : ConsensusModule) → take (length cm.log) (submit c cm).0.log ≡ cm.log
unfolding submit
extends-submit c cm = ground (
  arith,
  take_longer cm.log (record { command = c; term = cm.current_term } ∷ []),
  take_self cm.log,
)

extends-step :
    (e : Event) (cm cm' : ConsensusModule)
    → step e cm ≡ ok cm'
    → is_leader cm'.state ≡ true
    → take (length cm.log) cm'.log ≡ cm.log
unfolding step
extends-step (vote_requested now req) cm cm' s lead =
    same_log cm cm' (unfold request_vote_helper in ground arith)
extends-step (entries_received now req) cm cm' s lead =
    same_log cm cm' (append_not_leading now req cm cm' s lead)
extends-step (timer_ticked timeout now started) cm cm' s lead =
    same_log cm cm' (unfold tick_election_timer in ground arith)
extends-step (vote_replied now saved reply votes) cm cm' s lead =
    same_log cm cm' (unfold vote_reply in ground arith)
extends-step leader_started cm cm' s lead = same_log cm cm' (unfold start_leader in ground arith)
extends-step (entries_replied now peer saved next es reply) cm cm' s lead =
    same_log cm cm' (reply_log now peer saved next es reply cm cm' s)
extends-step (command_submitted c) cm cm' s lead =
    ap (λ (x : ConsensusModule). take (length cm.log) x.log) (sym (eq_of_ok s))
    ∙ extends-submit c cm
extends-step (command_forwarded c) cm cm' s lead =
    ap (λ (x : ConsensusModule). take (length cm.log) x.log) (sym (eq_of_ok s))
    ∙ unfold forward_leader_helper in ground (arith, extends-submit c cm, take_self cm.log)
extends-step (forward_replied c reply) cm cm' s lead =
    same_log cm cm' (unfold forward_reply in ground arith)
extends-step entries_applied cm cm' s lead = same_log cm cm' (apply_log cm cm' s)
extends-step stopped cm cm' s lead = same_log cm cm' (unfold stop in ground arith)

length-extends : (xs ys : List LogEntry) → take (length xs) ys ≡ xs → length xs ≤ length ys
length-extends xs ys h = omega (arith, ap length h, length-take (length xs) ys)

extends_trans :
    (xs ys zs : List LogEntry)
    → take (length xs) ys ≡ xs
    → take (length ys) zs ≡ ys
    → take (length xs) zs ≡ xs
extends_trans xs ys zs h k =
    sym (take-take (length xs) (length ys) zs (length-extends xs ys h))
    ∙ ap (take (length xs)) k
    ∙ h

-- Over a run of events that all find the server leading, and that leaves it leading, the log only
-- grows at its end.
pub leader_append_only :
    {cm cm' : ConsensusModule}
    → Run Leading cm cm'
    → is_leader cm'.state ≡ true
    → take (length cm.log) cm'.log ≡ cm.log
leader_append_only {cm} run =
    Run-keeps (Extends cm.log)
      (λ e c c' leading s h lead.
        extends_trans cm.log c.log c'.log (h leading) (extends-step e c c' s lead))
      run (λ lead. take_self cm.log)
