-- ===== src/Tests/Leading.antt =====
-- server/raft.go at concrete states: the replies to a leader, and the entries that are applied.
use advanced_group_chat_syst.Base.{
  length, ap, ◌>>=◌, sub64, lookup, insert, add64, ℕ, zero, suc, ◌-◌, pos, minus_one, ◌≤ℤ◌, true,
  false, ◌≡◌, ◌⊎◌, refl, List, [], ◌∷◌, ◌++◌, take, get_elem?, ok, arith, none, some, slot_after,
}
use advanced_group_chat_syst.Pb.{LogEntry, AppendEntriesRequest, AppendEntriesResponse}
use advanced_group_chat_syst.Raft.State.{
  follower, leader, ConsensusModule, Effect, commit_ready, trigger_append, run_election_timer,
  persist, persisted, become_follower,
}
use advanced_group_chat_syst.Raft.Append.{append_entries_helper, matches_prev}
use advanced_group_chat_syst.Raft.Append.Outcome.{succeeded}
use advanced_group_chat_syst.Raft.Leader.{
  submit, scan_commit, has_majority, append_request, append_reply,
}
use advanced_group_chat_syst.Raft.Leader.Delivery.{refused_then_accepted, NoTerm}
use advanced_group_chat_syst.Raft.Leader.Commit.{commit_moves, commit_maximal}
use advanced_group_chat_syst.Raft.Leader.Scan.{matching, Majority}
use advanced_group_chat_syst.Raft.System.{entries_replied, command_submitted, step, Run}
use advanced_group_chat_syst.Raft.System.AppendOnly.{Leading, leader_append_only}
use advanced_group_chat_syst.Raft.Apply.{CommitEntry, commit_chan_sender}
use advanced_group_chat_syst.Raft.Apply.Extends.{
  sender_extends, commands, sent_commands, sent_indices, indices_from,
}

abbrev entry : ℕ → LogEntry
entry term = record { command = none; term = pos term }

-- A leader of term 2; server 3 has both entries, server 2 has sent a reply for both.
abbrev lead : ConsensusModule
lead = record {
  id = pos 1;
  leader_id = pos 1;
  peer_ids = pos 2 ∷ pos 3 ∷ pos 4 ∷ pos 5 ∷ [];
  current_term = pos 2;
  voted_for = pos 1;
  log = entry 1 ∷ entry 2 ∷ [];
  commit_index = pos 0;
  last_applied = minus_one;
  state = leader;
  election_reset_event = 0;
  next_index = (pos 2, pos 0) ∷ (pos 3, pos 2) ∷ (pos 4, pos 2) ∷ (pos 5, pos 2) ∷ [];
  match_index = (pos 2, minus_one) ∷ (pos 3, pos 1) ∷ (pos 4, minus_one) ∷ (pos 5, minus_one) ∷ [];
}

abbrev counted : ConsensusModule
counted = record lead {
  next_index = (pos 2, pos 2) ∷ (pos 3, pos 2) ∷ (pos 4, pos 2) ∷ (pos 5, pos 2) ∷ [];
  match_index = (pos 2, pos 1) ∷ (pos 3, pos 1) ∷ (pos 4, minus_one) ∷ (pos 5, minus_one) ∷ [];
  commit_index = pos 1;
}

abbrev success : AppendEntriesResponse
success = record { term = pos 2; success = true; conflict_index = pos 0; conflict_term = pos 0 }

counted_reply :
    append_reply 4 (pos 2) (pos 2) (pos 0) lead.log success lead
    ≡ ok (counted, commit_ready ∷ trigger_append ∷ [])
unfolding append_reply scan_commit insert has_majority add64 sub64 lookup
counted_reply = refl

commit_moves_example :
    (pos 0 ≤ℤ counted.commit_index)
    × ((counted.commit_index ≡ pos 0)
        ⊎ ((i : ℕ) × (e : LogEntry) × (get_elem? lead.log i ≡ some e)
            × (e.term ≡ pos 2)
            × Majority (pos i) counted.match_index lead.peer_ids
            × (counted.commit_index ≡ pos i)))
commit_moves_example =
    commit_moves 4 (pos 2) (pos 2) (pos 0) lead.log success lead counted
      (commit_ready ∷ trigger_append ∷ []) counted_reply

three_of_five : Majority (pos 1) counted.match_index lead.peer_ids
unfolding matching lookup
three_of_five = omega arith

commit_maximal_example : pos 1 ≤ℤ counted.commit_index
commit_maximal_example =
    commit_maximal 4 (pos 2) (pos 2) (pos 0) lead.log success lead counted
      (commit_ready ∷ trigger_append ∷ []) counted_reply 1 (entry 2) refl refl (omega arith) refl
      (omega arith) refl refl three_of_five

NoTerm-zero : NoTerm (pos 0) lead.log
NoTerm-zero zero e h = ground arith
NoTerm-zero (suc zero) e h = ground arith
NoTerm-zero (suc (suc i)) e h = absurd (ground arith)

-- A new server, whose log is empty.
abbrev empty_follower : ConsensusModule
empty_follower = record lead {
  id = pos 2;
  state = follower;
  log = [];
  commit_index = minus_one;
  current_term = pos 1;
}

-- The request for entries after the leader's whole log, which the new server refuses.
abbrev ahead : AppendEntriesRequest
ahead = record {
  term = pos 2;
  leader_id = pos 1;
  prev_log_index = pos 1;
  prev_log_term = pos 2;
  entries = [];
  leader_commit = pos 0;
}

abbrev behind : ConsensusModule
behind = record empty_follower {
  leader_id = pos 1;
  current_term = pos 2;
  voted_for = minus_one;
  election_reset_event = 3;
}

abbrev refusing : AppendEntriesResponse
refusing = record { term = pos 2; success = false; conflict_index = pos 0; conflict_term = pos 0 }

abbrev refusing_effects : List Effect
refusing_effects = run_election_timer ∷ persist (persisted behind) ∷ []

refuses : append_entries_helper 3 ahead empty_follower ≡ ok (behind, refusing, refusing_effects)
unfolding append_entries_helper matches_prev become_follower
refuses = refl

refused_then_accepted_example :
    (leader' : ConsensusModule) × (es' : List Effect) × (req : AppendEntriesRequest) × (append_reply
        4
        (pos 2)
        (pos 2)
        (pos 2)
        []
        refusing
        lead
      ≡ ok (leader', es'))
    × (append_request (pos 2) (pos 2) leader' ≡ ok req)
    × (succeeded (append_entries_helper 5 req behind) ≡ true)
refused_then_accepted_example =
    refused_then_accepted 3 4 5 (pos 2) (pos 2) ahead lead empty_follower behind refusing
      refusing_effects refl NoTerm-zero refl (omega arith) refl refuses refl

sender_extends_example :
    (cm' : ConsensusModule) × (sent : List CommitEntry) × (commit_chan_sender counted
      ≡ ok (cm', sent))
    × (commands (take 0 counted.log) ++ sent_commands sent ≡ commands (take 2 counted.log))
    × (sent_indices sent ≡ indices_from 0 (2 - 0))
    × (slot_after cm'.last_applied ≡ ok 2)
sender_extends_example =
    sender_extends counted 0 2 refl refl (omega arith) (omega arith) (omega arith)

abbrev submitted : ConsensusModule
submitted = record counted { log = entry 1 ∷ entry 2 ∷ entry 2 ∷ [] }

counted-step : step (entries_replied 4 (pos 2) (pos 2) (pos 0) lead.log success) lead ≡ ok counted
unfolding step
counted-step = ap (λ r. do (cm', _) ← r; ok cm') counted_reply

Leading-Run : Run Leading lead submitted
unfolding step submit
Leading-Run =
    let after : Run Leading counted submitted =
      Run.then (command_submitted none) refl refl Run.done in
    Run.then (entries_replied 4 (pos 2) (pos 2) (pos 0) lead.log success) refl counted-step after

leader_append_only_example : take (length lead.log) submitted.log ≡ lead.log
leader_append_only_example = leader_append_only Leading-Run refl
