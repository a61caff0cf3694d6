-- ===== src/Tests/Entries.antt =====
-- server/raft.go at concrete states: AppendEntries.
use advanced_group_chat_syst.Base.{
  sub64, lookup, ℕ, zero, suc, ◌-◌, ℤ, pos, minus_one, ◌<ℤ◌, ◌≤ℤ◌, true, false, ◌≡◌, ◌↔◌, refl,
  List, [], ◌∷◌, length, take, drop, ok, arith, none,
}
use advanced_group_chat_syst.Pb.{LogEntry, AppendEntriesRequest, AppendEntriesResponse}
use advanced_group_chat_syst.Raft.State.{
  CmState, follower, leader, ConsensusModule, Effect, is_dead, commit_ready, persist, persisted,
}
use advanced_group_chat_syst.Raft.Append.{matches_prev, insert_entries, append_entries_helper}
use advanced_group_chat_syst.Raft.Append.MergeLaws.{Agrees}
use advanced_group_chat_syst.Raft.Append.{insert_entries}
use advanced_group_chat_syst.Raft.Append.Merge.{merged, insert_entries_lem}
use advanced_group_chat_syst.Raft.Append.Outcome.{
  succeeds_iff, panics_iff, succeeded, panics, Acceptable,
}
use advanced_group_chat_syst.Raft.Append.Replication.{committed_kept, repeat_unchanged}
use advanced_group_chat_syst.Raft.Leader.{append_request}
use advanced_group_chat_syst.Raft.Leader.Delivery.{delivered, LogMatching}

abbrev entry : ℕ → LogEntry
entry term = record { command = none; term = pos term }

-- A server with a log and a commit index.
abbrev server : CmState → ℕ → List LogEntry → ℤ → ConsensusModule
server state term log commit = record {
  id = pos 1;
  leader_id = pos 1;
  peer_ids = pos 2 ∷ pos 3 ∷ pos 4 ∷ pos 5 ∷ [];
  current_term = pos term;
  voted_for = minus_one;
  log = log;
  commit_index = commit;
  last_applied = minus_one;
  state = state;
  election_reset_event = 0;
  next_index = (pos 2, pos 1) ∷ [];
  match_index = [];
}

-- The follower has an entry of term 2 where the leader has one of term 3.
abbrev old : ConsensusModule
old = server follower 3 (entry 1 ∷ entry 2 ∷ []) (pos 0)

abbrev lead : ConsensusModule
lead = server leader 3 (entry 1 ∷ entry 3 ∷ entry 3 ∷ []) (pos 1)

abbrev request : AppendEntriesRequest
request = record {
  term = pos 3;
  leader_id = pos 1;
  prev_log_index = pos 0;
  prev_log_term = pos 1;
  entries = entry 3 ∷ entry 3 ∷ [];
  leader_commit = pos 1;
}

abbrev new : ConsensusModule
new = record old {
  log = entry 1 ∷ entry 3 ∷ entry 3 ∷ [];
  commit_index = pos 1;
  election_reset_event = 7;
}

abbrev reply : AppendEntriesResponse
reply = record { term = pos 3; success = true; conflict_index = pos 0; conflict_term = pos 0 }

abbrev effects : List Effect
effects = commit_ready ∷ persist (persisted new) ∷ []

handled : append_entries_helper 7 request old ≡ ok (new, reply, effects)
unfolding append_entries_helper matches_prev insert_entries
handled = refl

sent : append_request (pos 2) (pos 3) lead ≡ ok request
unfolding append_request sub64 lookup
sent = refl

succeeds_iff_example :
    (succeeded (append_entries_helper 7 request old) ≡ true) ↔ Acceptable 7 request old
succeeds_iff_example = succeeds_iff 7 request old

abbrev bad_request : AppendEntriesRequest
bad_request = record request { prev_log_index = ℤ.negsuc 4 }

panics_iff_example :
    (panics (append_entries_helper 7 bad_request old) ≡ true)
    ↔ ((is_dead old.state ≡ false) × (pos 3 ≤ℤ pos 3) × (bad_request.prev_log_index <ℤ minus_one))
panics_iff_example = panics_iff 7 bad_request old

agrees : Agrees (1 - 1) (drop 1 old.log) request.entries
agrees = ground arith

committed_kept_example : take 1 new.log ≡ take 1 old.log
committed_kept_example =
    committed_kept 7 request old new reply effects handled refl 1 1 refl (omega arith) agrees

repeat_unchanged_example :
    (cm'' : ConsensusModule) × (reply' : AppendEntriesResponse) × (es' : List Effect)
    × (append_entries_helper 9 request new ≡ ok (cm'', reply', es'))
    × (reply'.success ≡ true)
    × (cm''.log ≡ new.log)
    × (cm''.commit_index ≡ new.commit_index)
repeat_unchanged_example = repeat_unchanged 7 request old new reply effects handled refl 9

old-matching : LogMatching old.log lead.log
old-matching zero x y f g h = refl
old-matching (suc zero) x y f g h = absurd (ground arith)
old-matching (suc (suc i)) x y f g h = absurd (ground arith)

delivered_example : take (length lead.log) new.log ≡ lead.log
delivered_example =
    delivered 7 (pos 2) (pos 3) lead old new request reply effects (omega arith) sent handled refl
      old-matching

insert_entries_lem_example : insert_entries request old.log ≡ ok (merged 1 old.log request.entries)
insert_entries_lem_example = insert_entries_lem request old.log refl (omega arith)
