-- ===== src/Tests/Clusters.antt =====
-- server/raft.go at a run of five servers: an election that server 1 wins, and a command that it
-- takes and sends to server 2.
use advanced_group_chat_syst.Base.{
  subst, sym, ◌≤◌, ℤ, pos, minus_one, add64, sub64, lookup, insert, Bool, true, false, ◌≡◌, refl,
  inl, inr, List, [], ◌∷◌, length, take, get_elem?, ap, ok, none, In, Distinct, arith,
}
use advanced_group_chat_syst.Pb.{
  LogEntry, RequestVoteRequest, RequestVoteResponse, AppendEntriesRequest, AppendEntriesResponse,
}
use advanced_group_chat_syst.Raft.State.{
  Persisted, persisted, persist, ConsensusModule, is_leader, is_candidate, new_consensus_module,
}
use advanced_group_chat_syst.Raft.Vote.{
  tick_election_timer, request_vote_helper, vote_reply, start_leader, is_up_to_date,
}
use advanced_group_chat_syst.Raft.Append.{append_entries_helper, matches_prev, insert_entries}
use advanced_group_chat_syst.Raft.Leader.{submit, append_request, request_from}
use advanced_group_chat_syst.Raft.System.{command_submitted, entries_received, step}
use advanced_group_chat_syst.Raft.Cluster.{
  Cluster, ClusterStep, ticked, asked, answered, started_leading, commanded, entries_sent,
  entries_delivered, OrderlyRun, IsOrderly, Count, initial, after_tick, after_request, after_reply,
  after_start, after_command, set_node,
}
use advanced_group_chat_syst.Raft.Cluster.Safety.{election_safety}
use advanced_group_chat_syst.Raft.Cluster.Counts.{counter_bounded}
use advanced_group_chat_syst.Raft.Cluster.Matching.{log_matching, replicated}

abbrev five : List ℤ
five = pos 1 ∷ pos 2 ∷ pos 3 ∷ pos 4 ∷ pos 5 ∷ []

five-Distinct : Distinct five
five-Distinct =
    (λ h. ground arith, (λ h. ground arith, (λ h. ground arith, (λ h. ground arith, (λ h. h, tt)))))

real : In minus_one five → ⊥
real h = ground arith

abbrev no_data : ℤ → Bool
no_data i = false

abbrev nothing : ℤ → Persisted
nothing i = record { term = pos 0; voted_for = minus_one; log = [] }

abbrev start : Cluster
start = initial five no_data nothing

abbrev ticking : Cluster
ticking = after_tick (pos 1) (tick_election_timer 200 300 (pos 0) (start.node (pos 1))) start

abbrev ask : RequestVoteRequest
ask = record {
  term = pos 1;
  candidate_id = pos 1;
  last_log_index = minus_one;
  last_log_term = minus_one;
}

abbrev voting : Cluster
voting = after_request (pos 2) ask (request_vote_helper 310 ask (ticking.node (pos 2))) ticking

abbrev voted : Cluster
voted = after_request (pos 3) ask (request_vote_helper 311 ask (voting.node (pos 3))) voting

abbrev grant : RequestVoteResponse
grant = record { term = pos 1; vote_granted = true }

abbrev counting : Cluster
counting =
    after_reply (pos 1) (pos 1) (pos 2)
      (vote_reply 320 (pos 1) grant (voted.counted (pos 1) (pos 1)).received (voted.node (pos 1)))
      voted

abbrev counted : Cluster
counted =
    after_reply (pos 1) (pos 1) (pos 3)
      (vote_reply 321 (pos 1) grant (counting.counted (pos 1) (pos 1)).received
        (counting.node (pos 1)))
      counting

abbrev led : Cluster
led = after_start (pos 1) counted

third_uncounted : In (pos 3) (pos 2 ∷ []) → ⊥
third_uncounted h = ground arith

ticks : ClusterStep five start ticking
unfolding new_consensus_module
ticks = ticked {s = start} (pos 1) 200 300 (pos 0) (inl refl)

ticks-IsOrderly : IsOrderly ticks
unfolding ticks new_consensus_module
ticks-IsOrderly = (omega arith, omega arith)

ran : In (pos 1, pos 1, pos 1) ticking.votes
unfolding new_consensus_module tick_election_timer add64
ran = inl refl

asks : ClusterStep five ticking voting
asks = asked {s = ticking} (pos 2) 310 ask (inr (inl refl)) (ground arith) ran

voting_votes : voting.votes ≡ (pos 2, pos 1, pos 1) ∷ (pos 1, pos 1, pos 1) ∷ []
unfolding new_consensus_module tick_election_timer add64 request_vote_helper is_up_to_date
    vote_reply start_leader
voting_votes = refl

asks_again : ClusterStep five voting voted
asks_again =
    asked {s = voting} (pos 3) 311 ask (inr (inr (inl refl))) (ground arith)
      (subst (In (pos 1, pos 1, pos 1)) (sym voting_votes) (inr (inl refl)))

votes : voted.votes ≡ (pos 3, pos 1, pos 1) ∷ (pos 2, pos 1, pos 1) ∷ (pos 1, pos 1, pos 1) ∷ []
unfolding new_consensus_module tick_election_timer add64 request_vote_helper is_up_to_date
    vote_reply start_leader
votes = refl

none_counted : (voted.counted (pos 1) (pos 1)).peers ≡ []
unfolding new_consensus_module tick_election_timer add64 request_vote_helper is_up_to_date
    vote_reply start_leader
none_counted = refl

second_counted : (counting.counted (pos 1) (pos 1)).peers ≡ pos 2 ∷ []
unfolding new_consensus_module tick_election_timer add64 request_vote_helper is_up_to_date
    vote_reply start_leader
second_counted = refl

both_counted :
    counted.counted (pos 1) (pos 1)
    ≡ record { received = 3; won = true; peers = pos 3 ∷ pos 2 ∷ [] }
unfolding new_consensus_module tick_election_timer add64 request_vote_helper is_up_to_date
    vote_reply start_leader
both_counted = refl

counts : ClusterStep five voted counting
counts =
    answered {s = voted} (pos 1) (pos 2) (pos 1) 320 grant (inr (inl refl)) (ground arith)
      (subst (In (pos 1, pos 1, pos 1)) (sym votes) (inr (inr (inl refl))))
      (λ h. subst (In (pos 2)) none_counted h)
      (λ h. subst (In (pos 2, pos 1, pos 1)) (sym votes) (inr (inl refl)))

counts_again : ClusterStep five counting counted
counts_again =
    answered {s = counting} (pos 1) (pos 3) (pos 1) 321 grant (inr (inr (inl refl))) (ground arith)
      (subst (In (pos 1, pos 1, pos 1)) (sym votes) (inr (inr (inl refl))))
      (λ h. third_uncounted (subst (In (pos 3)) second_counted h))
      (λ h. subst (In (pos 3, pos 1, pos 1)) (sym votes) (inl refl))

runs : is_candidate (counted.node (pos 1)).state ≡ true
unfolding new_consensus_module tick_election_timer add64 request_vote_helper is_up_to_date
    vote_reply start_leader
runs = refl

then_first : pos 1 ≡ (counted.node (pos 1)).current_term
unfolding new_consensus_module tick_election_timer add64 request_vote_helper is_up_to_date
    vote_reply start_leader
then_first = refl

starts : ClusterStep five counted led
starts =
    started_leading {s = counted} (pos 1) (pos 1) (inl refl)
      (ap (λ (c : Count). c.won) both_counted)

asked_all : OrderlyRun five start voted
unfolding asks asks_again
asked_all =
    OrderlyRun.then
      (OrderlyRun.then (OrderlyRun.then OrderlyRun.done ticks ticks-IsOrderly) asks tt) asks_again
      tt

elected : OrderlyRun five start led
unfolding counts counts_again starts
elected =
    OrderlyRun.then
      (OrderlyRun.then (OrderlyRun.then asked_all counts (inr (inl (omega arith)))) counts_again
        (inr (inl (omega arith))))
      starts (inl runs, then_first)

led_leads : is_leader (led.node (pos 1)).state ≡ true
unfolding new_consensus_module tick_election_timer add64 request_vote_helper is_up_to_date
    vote_reply start_leader
led_leads = refl

election_safety_example : pos 1 ≡ pos 1
election_safety_example =
    election_safety five five-Distinct real no_data nothing led elected (pos 1) (pos 1) led_leads
      led_leads refl

abbrev entry : LogEntry
entry = record { command = none; term = pos 1 }

-- Server 1 after it has taken a command.
abbrev leading : ConsensusModule
leading = (submit none (led.node (pos 1))).0

abbrev taken : Cluster
taken = after_command (pos 1) leading led

abbrev sending : AppendEntriesRequest
sending = record {
  term = pos 1;
  leader_id = pos 1;
  prev_log_index = minus_one;
  prev_log_term = minus_one;
  entries = entry ∷ [];
  leader_commit = minus_one;
}

abbrev sent : Cluster
sent = record taken { sent = sending ∷ taken.sent }

abbrev following : ConsensusModule
following = record (taken.node (pos 2)) {
  leader_id = pos 1;
  log = entry ∷ [];
  election_reset_event = 400;
}

abbrev stored : Cluster
stored = set_node (pos 2) following sent

made : append_request (pos 2) (pos 1) (taken.node (pos 1)) ≡ ok sending
unfolding new_consensus_module tick_election_timer add64 request_vote_helper is_up_to_date
    vote_reply start_leader submit append_request request_from sub64 lookup insert
made = refl

in_term : (taken.node (pos 1)).current_term ≡ pos 1
unfolding new_consensus_module tick_election_timer add64 request_vote_helper is_up_to_date
    vote_reply start_leader submit append_request request_from sub64 lookup insert
in_term = refl

leads_first : In (pos 1, pos 1) taken.led
unfolding new_consensus_module tick_election_timer add64 request_vote_helper is_up_to_date
    vote_reply start_leader
leads_first = inl refl

received : step (entries_received 400 sending) (sent.node (pos 2)) ≡ ok following
unfolding step new_consensus_module tick_election_timer add64 request_vote_helper is_up_to_date
    vote_reply start_leader submit append_entries_helper matches_prev insert_entries
received = refl

still_leads : is_leader (taken.node (pos 1)).state ≡ true
unfolding new_consensus_module tick_election_timer add64 request_vote_helper is_up_to_date
    vote_reply start_leader submit step append_entries_helper matches_prev insert_entries
    append_request request_from
still_leads = refl

one_taken : (taken.node (pos 1)).log ≡ entry ∷ []
unfolding new_consensus_module tick_election_timer add64 request_vote_helper is_up_to_date
    vote_reply start_leader submit step append_entries_helper matches_prev insert_entries
    append_request request_from
one_taken = refl

one_stored : (stored.node (pos 2)).log ≡ entry ∷ []
one_stored = refl

takes : ClusterStep five led taken
unfolding step submit
takes = commanded {s = led} (pos 1) (command_submitted none) leading tt refl

sends : ClusterStep five taken sent
sends = entries_sent {s = taken} (pos 1) (pos 2) (pos 1) sending leads_first made

delivers : ClusterStep five sent stored
delivers =
    entries_delivered {s = sent} (pos 2) 400 sending following (ground arith) (inl refl) received

stores : OrderlyRun five start stored
unfolding takes sends delivers
stores =
    OrderlyRun.then
      (OrderlyRun.then (OrderlyRun.then elected takes tt) sends
        (still_leads, sym in_term, omega (arith, ap length one_taken)))
      delivers tt

log_matching_example : take 1 (stored.node (pos 1)).log ≡ take 1 (stored.node (pos 2)).log
log_matching_example =
    log_matching five five-Distinct real no_data nothing stored (λ i. refl) stores (pos 1) (pos 2) 0
      entry entry (ap (λ l. get_elem? l 0) one_taken) (ap (λ l. get_elem? l 0) one_stored) refl

-- Server 3 takes the request of server 1 as well.
abbrev third : ConsensusModule
third = record (stored.node (pos 3)) {
  leader_id = pos 1;
  log = entry ∷ [];
  election_reset_event = 500;
}

abbrev reply : AppendEntriesResponse
reply = record { term = pos 1; success = true; conflict_index = pos 0; conflict_term = pos 0 }

third_takes :
    append_entries_helper 500 sending (stored.node (pos 3))
    ≡ ok (third, reply, persist (persisted third) ∷ [])
unfolding persisted new_consensus_module tick_election_timer add64 request_vote_helper is_up_to_date
    vote_reply start_leader submit append_entries_helper matches_prev insert_entries
third_takes = refl

replicated_example : take (length (stored.node (pos 1)).log) third.log ≡ (stored.node (pos 1)).log
replicated_example =
    replicated five five-Distinct real no_data nothing stored (λ i. refl) stores (pos 1) (pos 3)
      (pos 2) (pos 1) 500 sending third reply (persist (persisted third) ∷ [])
      (omega (arith, ap length one_taken)) made third_takes refl

counter_bounded_example : (led.counted (pos 1) (pos 1)).received ≤ length five
counter_bounded_example =
    counter_bounded five five-Distinct real no_data nothing led elected (pos 1) (pos 1) (inl refl)
