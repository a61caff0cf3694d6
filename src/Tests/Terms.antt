-- ===== src/Tests/Terms.antt =====
-- server/raft.go at a run of three servers over two terms: server 1 leads, takes a command and sends it to
-- server 2, which then leads with the vote of server 3.
use advanced_group_chat_syst.Base.{
  InRange64, pos_part, ◌^◌, ◌<◌, ◌+◌, ◌<ℤ◌, ℤ, pos, minus_one, add64, sub64, lookup, insert, true,
  false, ◌≡◌, refl, sym, ap, subst, inl, inr, List, [], ◌∷◌, length, take, get_elem?, ok, none, In,
  Distinct, arith,
}
use advanced_group_chat_syst.Pb.{
  LogEntry, RequestVoteRequest, RequestVoteResponse, AppendEntriesRequest,
}
use advanced_group_chat_syst.Raft.State.{
  Persisted, ConsensusModule, is_leader, is_candidate, become_follower, new_consensus_module,
  last_log_index_and_term, last_entry,
}
use advanced_group_chat_syst.Raft.Vote.{
  tick_election_timer, request_vote_helper, vote_reply, start_leader, is_up_to_date,
}
use advanced_group_chat_syst.Raft.Append.{append_entries_helper, matches_prev, insert_entries}
use advanced_group_chat_syst.Raft.Leader.{submit, append_request, request_from}
use advanced_group_chat_syst.Raft.System.{command_submitted, entries_received, step}
use advanced_group_chat_syst.Raft.Cluster.{
  Cluster, ClusterStep, IsOrderly, ticked, asked, answered, started_leading, commanded,
  entries_sent, entries_delivered, initial, after_tick, after_request, after_reply, after_start,
  after_command, set_node,
}
use advanced_group_chat_syst.Raft.Cluster.History.{History, IsHonest, after}
use advanced_group_chat_syst.Raft.Cluster.History.Complete.{Committed}
use advanced_group_chat_syst.Raft.Cluster.History.Completeness.{
  HistoryRun, begins, goes_on, leader_completeness,
}

abbrev three : List ℤ
three = pos 1 ∷ pos 2 ∷ pos 3 ∷ []

three-Distinct : Distinct three
three-Distinct = (λ h. ground arith, (λ h. ground arith, ((λ h. h), tt)))

real_three : In minus_one three → ⊥
real_three h = ground arith

abbrev nothing : ℤ → Persisted
nothing i = record { term = pos 0; voted_for = minus_one; log = [] }

abbrev entry : LogEntry
entry = record { command = none; term = pos 1 }

abbrev start : Cluster
start = initial three (λ i. false) nothing

abbrev running : Cluster
running = after_tick (pos 1) (tick_election_timer 200 300 (pos 0) (start.node (pos 1))) start

abbrev ask : RequestVoteRequest
ask = record {
  term = pos 1;
  candidate_id = pos 1;
  last_log_index = minus_one;
  last_log_term = minus_one;
}

abbrev voting : Cluster
voting = after_request (pos 2) ask (request_vote_helper 310 ask (running.node (pos 2))) running

abbrev grant : RequestVoteResponse
grant = record { term = pos 1; vote_granted = true }

abbrev counting : Cluster
counting =
    after_reply (pos 1) (pos 1) (pos 2)
      (vote_reply 320 (pos 1) grant (voting.counted (pos 1) (pos 1)).received (voting.node (pos 1)))
      voting

abbrev leading : Cluster
leading = after_start (pos 1) counting

abbrev taker : ConsensusModule
taker = (submit none (leading.node (pos 1))).0

abbrev taken : Cluster
taken = after_command (pos 1) taker leading

abbrev sending : AppendEntriesRequest
sending = record {
  term = pos 1;
  leader_id = pos 1;
  prev_log_index = minus_one;
  prev_log_term = minus_one;
  entries = entry ∷ [];
  leader_commit = minus_one;
}

abbrev sent : Cluster
sent = record taken { sent = sending ∷ [] }

abbrev following : ConsensusModule
following = record (taken.node (pos 2)) {
  leader_id = pos 1;
  log = entry ∷ [];
  election_reset_event = 400;
}

abbrev stored : Cluster
stored = set_node (pos 2) following sent

abbrev running_again : Cluster
running_again =
    after_tick (pos 2) (tick_election_timer 200 900 (pos 1) (stored.node (pos 2))) stored

abbrev ask_again : RequestVoteRequest
ask_again = record {
  term = pos 2;
  candidate_id = pos 2;
  last_log_index = pos 0;
  last_log_term = pos 1;
}

abbrev voting_again : Cluster
voting_again =
    after_request (pos 3) ask_again (request_vote_helper 910 ask_again (running_again.node (pos 3)))
      running_again

abbrev grant_again : RequestVoteResponse
grant_again = record { term = pos 2; vote_granted = true }

abbrev counting_again : Cluster
counting_again =
    after_reply (pos 2) (pos 2) (pos 3)
      (vote_reply 920 (pos 2) grant_again (voting_again.counted (pos 2) (pos 2)).received
        (voting_again.node (pos 2)))
      voting_again

abbrev leading_again : Cluster
leading_again = after_start (pos 2) counting_again

running_votes : running.votes ≡ (pos 1, pos 1, pos 1) ∷ []
unfolding new_consensus_module tick_election_timer add64 request_vote_helper is_up_to_date
    last_log_index_and_term last_entry vote_reply start_leader submit become_follower step
    append_entries_helper matches_prev insert_entries append_request request_from sub64 lookup
    insert
running_votes = refl

voting_votes : voting.votes ≡ (pos 2, pos 1, pos 1) ∷ (pos 1, pos 1, pos 1) ∷ []
unfolding new_consensus_module tick_election_timer add64 request_vote_helper is_up_to_date
    last_log_index_and_term last_entry vote_reply start_leader submit become_follower step
    append_entries_helper matches_prev insert_entries append_request request_from sub64 lookup
    insert
voting_votes = refl

none_counted : (voting.counted (pos 1) (pos 1)).peers ≡ []
unfolding new_consensus_module tick_election_timer add64 request_vote_helper is_up_to_date
    last_log_index_and_term last_entry vote_reply start_leader submit become_follower step
    append_entries_helper matches_prev insert_entries append_request request_from sub64 lookup
    insert
none_counted = refl

one_counted : (counting.counted (pos 1) (pos 1)).won ≡ true
unfolding new_consensus_module tick_election_timer add64 request_vote_helper is_up_to_date
    last_log_index_and_term last_entry vote_reply start_leader submit become_follower step
    append_entries_helper matches_prev insert_entries append_request request_from sub64 lookup
    insert
one_counted = refl

still_runs : is_candidate (counting.node (pos 1)).state ≡ true
unfolding new_consensus_module tick_election_timer add64 request_vote_helper is_up_to_date
    last_log_index_and_term last_entry vote_reply start_leader submit become_follower step
    append_entries_helper matches_prev insert_entries append_request request_from sub64 lookup
    insert
still_runs = refl

first_term : pos 1 ≡ (counting.node (pos 1)).current_term
unfolding new_consensus_module tick_election_timer add64 request_vote_helper is_up_to_date
    last_log_index_and_term last_entry vote_reply start_leader submit become_follower step
    append_entries_helper matches_prev insert_entries append_request request_from sub64 lookup
    insert
first_term = refl

first_led : taken.led ≡ (pos 1, pos 1) ∷ []
unfolding new_consensus_module tick_election_timer add64 request_vote_helper is_up_to_date
    last_log_index_and_term last_entry vote_reply start_leader submit become_follower step
    append_entries_helper matches_prev insert_entries append_request request_from sub64 lookup
    insert
first_led = refl

made : append_request (pos 2) (pos 1) (taken.node (pos 1)) ≡ ok sending
unfolding new_consensus_module tick_election_timer add64 request_vote_helper is_up_to_date
    last_log_index_and_term last_entry vote_reply start_leader submit become_follower step
    append_entries_helper matches_prev insert_entries append_request request_from sub64 lookup
    insert
made = refl

leads : is_leader (taken.node (pos 1)).state ≡ true
unfolding new_consensus_module tick_election_timer add64 request_vote_helper is_up_to_date
    last_log_index_and_term last_entry vote_reply start_leader submit become_follower step
    append_entries_helper matches_prev insert_entries append_request request_from sub64 lookup
    insert
leads = refl

leading_term : pos 1 ≡ (taken.node (pos 1)).current_term
unfolding new_consensus_module tick_election_timer add64 request_vote_helper is_up_to_date
    last_log_index_and_term last_entry vote_reply start_leader submit become_follower step
    append_entries_helper matches_prev insert_entries append_request request_from sub64 lookup
    insert
leading_term = refl

one_taken : (taken.node (pos 1)).log ≡ entry ∷ []
unfolding new_consensus_module tick_election_timer add64 request_vote_helper is_up_to_date
    last_log_index_and_term last_entry vote_reply start_leader submit become_follower step
    append_entries_helper matches_prev insert_entries append_request request_from sub64 lookup
    insert
one_taken = refl

received : step (entries_received 400 sending) (sent.node (pos 2)) ≡ ok following
unfolding new_consensus_module tick_election_timer add64 request_vote_helper is_up_to_date
    last_log_index_and_term last_entry vote_reply start_leader submit become_follower step
    append_entries_helper matches_prev insert_entries append_request request_from sub64 lookup
    insert
received = refl

second_term : (stored.node (pos 2)).current_term ≡ pos 1
unfolding new_consensus_module tick_election_timer add64 request_vote_helper is_up_to_date
    last_log_index_and_term last_entry vote_reply start_leader submit become_follower step
    append_entries_helper matches_prev insert_entries append_request request_from sub64 lookup
    insert
second_term = refl

again_votes : running_again.votes ≡ (pos 2, pos 2, pos 2) ∷ voting.votes
unfolding new_consensus_module tick_election_timer add64 request_vote_helper is_up_to_date
    last_log_index_and_term last_entry vote_reply start_leader submit become_follower step
    append_entries_helper matches_prev insert_entries append_request request_from sub64 lookup
    insert
again_votes = refl

voting_again_votes :
    voting_again.votes ≡ (pos 3, pos 2, pos 2) ∷ (pos 2, pos 2, pos 2) ∷ voting.votes
unfolding new_consensus_module tick_election_timer add64 request_vote_helper is_up_to_date
    last_log_index_and_term last_entry vote_reply start_leader submit become_follower step
    append_entries_helper matches_prev insert_entries append_request request_from sub64 lookup
    insert
voting_again_votes = refl

none_counted_again : (voting_again.counted (pos 2) (pos 2)).peers ≡ []
unfolding new_consensus_module tick_election_timer add64 request_vote_helper is_up_to_date
    last_log_index_and_term last_entry vote_reply start_leader submit become_follower step
    append_entries_helper matches_prev insert_entries append_request request_from sub64 lookup
    insert
none_counted_again = refl

one_counted_again : (counting_again.counted (pos 2) (pos 2)).won ≡ true
unfolding new_consensus_module tick_election_timer add64 request_vote_helper is_up_to_date
    last_log_index_and_term last_entry vote_reply start_leader submit become_follower step
    append_entries_helper matches_prev insert_entries append_request request_from sub64 lookup
    insert
one_counted_again = refl

still_runs_again : is_candidate (counting_again.node (pos 2)).state ≡ true
unfolding new_consensus_module tick_election_timer add64 request_vote_helper is_up_to_date
    last_log_index_and_term last_entry vote_reply start_leader submit become_follower step
    append_entries_helper matches_prev insert_entries append_request request_from sub64 lookup
    insert
still_runs_again = refl

second_term_again : pos 2 ≡ (counting_again.node (pos 2)).current_term
unfolding new_consensus_module tick_election_timer add64 request_vote_helper is_up_to_date
    last_log_index_and_term last_entry vote_reply start_leader submit become_follower step
    append_entries_helper matches_prev insert_entries append_request request_from sub64 lookup
    insert
second_term_again = refl

ticks : ClusterStep three start running
ticks = ticked {s = start} (pos 1) 200 300 (pos 0) (inl refl)

ticks-IsOrderly : IsOrderly ticks
unfolding ticks new_consensus_module
ticks-IsOrderly = (omega arith, omega arith)

asks : ClusterStep three running voting
asks =
    asked {s = running} (pos 2) 310 ask (inr (inl refl)) (ground arith)
      (subst (In (pos 1, pos 1, pos 1)) (sym running_votes) (inl refl))

counts : ClusterStep three voting counting
counts =
    answered {s = voting} (pos 1) (pos 2) (pos 1) 320 grant (inr (inl refl)) (ground arith)
      (subst (In (pos 1, pos 1, pos 1)) (sym voting_votes) (inr (inl refl)))
      (λ h. subst (In (pos 2)) none_counted h)
      (λ h. subst (In (pos 2, pos 1, pos 1)) (sym voting_votes) (inl refl))

starts : ClusterStep three counting leading
starts = started_leading {s = counting} (pos 1) (pos 1) (inl refl) one_counted

takes : ClusterStep three leading taken
unfolding step submit
takes = commanded {s = leading} (pos 1) (command_submitted none) taker tt refl

sends : ClusterStep three taken sent
unfolding new_consensus_module tick_election_timer add64 request_vote_helper is_up_to_date
    last_log_index_and_term last_entry vote_reply start_leader submit become_follower step
    append_entries_helper matches_prev insert_entries append_request request_from sub64 lookup
    insert
sends =
    entries_sent {s = taken} (pos 1) (pos 2) (pos 1) sending
      (subst (In (pos 1, pos 1)) (sym first_led) (inl refl)) made

delivers : ClusterStep three sent stored
delivers =
    entries_delivered {s = sent} (pos 2) 400 sending following (ground arith) (inl refl) received

ticks_again : ClusterStep three stored running_again
ticks_again = ticked {s = stored} (pos 2) 200 900 (pos 1) (inr (inl refl))

ticks_again-IsOrderly : IsOrderly ticks_again
unfolding ticks_again
ticks_again-IsOrderly =
    subst (λ x. InRange64 x × (pos_part x + 1 < 2 ^ 63)) (sym second_term)
      (omega arith, omega arith)

asks_again : ClusterStep three running_again voting_again
asks_again =
    asked {s = running_again} (pos 3) 910 ask_again (inr (inr (inl refl))) (ground arith)
      (subst (In (pos 2, pos 2, pos 2)) (sym again_votes) (inl refl))

counts_again : ClusterStep three voting_again counting_again
counts_again =
    answered {s = voting_again} (pos 2) (pos 3) (pos 2) 920 grant_again (inr (inr (inl refl)))
      (ground arith) (subst (In (pos 2, pos 2, pos 2)) (sym voting_again_votes) (inr (inl refl)))
      (λ h. subst (In (pos 3)) none_counted_again h)
      (λ h. subst (In (pos 3, pos 2, pos 2)) (sym voting_again_votes) (inl refl))

starts_again : ClusterStep three counting_again leading_again
starts_again =
    started_leading {s = counting_again} (pos 2) (pos 2) (inr (inl refl)) one_counted_again

abbrev no_history : History
no_history = record { runs = []; voted = []; starts = []; accepted = [] }

abbrev first_history : History
first_history =
    after delivers (
      after sends (after takes (after starts (after counts (after asks (after ticks no_history))))))

abbrev history : History
history =
    after starts_again (after counts_again (after asks_again (after ticks_again first_history)))

asks-IsHonest : IsHonest asks (after ticks no_history)
unfolding ticks asks new_consensus_module tick_election_timer add64 request_vote_helper
    is_up_to_date last_log_index_and_term last_entry vote_reply start_leader submit become_follower
    step append_entries_helper matches_prev insert_entries append_request request_from sub64 lookup
    insert
asks-IsHonest = ([], inl refl, refl)

first_run : HistoryRun three start stored first_history
unfolding ticks asks counts starts takes sends delivers
first_run =
    goes_on
      (goes_on
        (goes_on
          (goes_on
            (goes_on (goes_on (goes_on begins ticks ticks-IsOrderly tt) asks tt asks-IsHonest)
              counts (inr (inl (omega arith))) tt)
            starts (inl still_runs, first_term) tt)
          takes tt tt)
        sends (leads, leading_term, omega (arith, ap length one_taken)) tt)
      delivers tt tt

asks_again-IsHonest : IsHonest asks_again (after ticks_again first_history)
unfolding ticks asks counts starts takes sends delivers ticks_again asks_again new_consensus_module
    tick_election_timer add64 request_vote_helper is_up_to_date last_log_index_and_term last_entry
    vote_reply start_leader submit become_follower step append_entries_helper matches_prev
    insert_entries append_request request_from sub64 lookup insert
asks_again-IsHonest = (entry ∷ [], inl refl, refl)

whole : HistoryRun three start leading_again history
unfolding ticks_again asks_again counts_again starts_again
whole =
    goes_on
      (goes_on
        (goes_on (goes_on first_run ticks_again ticks_again-IsOrderly tt) asks_again tt
          asks_again-IsHonest)
        counts_again (inr (inl (omega arith))) tt)
      starts_again (inl still_runs_again, second_term_again) tt

first_log : leading_again.leader_log (pos 1) ≡ entry ∷ []
unfolding new_consensus_module tick_election_timer add64 request_vote_helper is_up_to_date
    last_log_index_and_term last_entry vote_reply start_leader submit become_follower step
    append_entries_helper matches_prev insert_entries append_request request_from sub64 lookup
    insert
first_log = refl

has_led : In (pos 1, pos 1) leading_again.led
unfolding new_consensus_module tick_election_timer add64 request_vote_helper is_up_to_date
    last_log_index_and_term last_entry vote_reply start_leader submit become_follower step
    append_entries_helper matches_prev insert_entries append_request request_from sub64 lookup
    insert
has_led = inr (inl refl)

has_accepted : In (pos 2, sending) history.accepted
unfolding ticks asks counts starts takes sends delivers ticks_again asks_again counts_again
    starts_again new_consensus_module tick_election_timer add64 request_vote_helper is_up_to_date
    last_log_index_and_term last_entry vote_reply start_leader submit become_follower step
    append_entries_helper matches_prev insert_entries append_request request_from sub64 lookup
    insert
has_accepted = inl refl

entry-Committed : Committed three leading_again history (pos 1) 0
entry-Committed = record {
  entry = entry;
  found = ap (λ l. get_elem? l 0) first_log;
  in_term = refl;
  holders = pos 1 ∷ pos 2 ∷ [];
  distinct = (λ h. ground arith, ((λ h. h), tt));
  holds = λ q i. elim i [
    | inl same ↦ (
      inl same,
      inr (
        subst (λ x. In (x, pos 1) leading_again.led) (sym same) has_led,
        omega (arith, ap length first_log),
      ),
    )
    | inr (inl same) ↦ (
      inr (inl same),
      inl (
        sending,
        subst (λ x. In (x, sending) history.accepted) (sym same) has_accepted,
        refl,
        (0, refl, omega arith),
      ),
    )
    | inr (inr other) ↦ absurd other
  ];
  most = omega arith;
}

leads_again : is_leader (leading_again.node (pos 2)).state ≡ true
unfolding new_consensus_module tick_election_timer add64 request_vote_helper is_up_to_date
    last_log_index_and_term last_entry vote_reply start_leader submit become_follower step
    append_entries_helper matches_prev insert_entries append_request request_from sub64 lookup
    insert
leads_again = refl

in_second : (leading_again.node (pos 2)).current_term ≡ pos 2
unfolding new_consensus_module tick_election_timer add64 request_vote_helper is_up_to_date
    last_log_index_and_term last_entry vote_reply start_leader submit become_follower step
    append_entries_helper matches_prev insert_entries append_request request_from sub64 lookup
    insert
in_second = refl

leader_completeness_example :
    take 1 (leading_again.node (pos 2)).log ≡ take 1 (leading_again.leader_log (pos 1))
leader_completeness_example =
    leader_completeness three three-Distinct real_three (λ i. false) nothing leading_again history
      (λ i. refl) whole (pos 1) 0 (omega arith) entry-Committed (pos 2) leads_again
      (subst (λ x. pos 1 <ℤ x) (sym in_second) (omega arith))
