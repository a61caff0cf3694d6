-- ===== src/Tests/Disks.antt =====
-- server/storage.go and the restart of a server, on the store in memory.
use advanced_group_chat_syst.Base.{
  lookup, insert, delete, ℕ, pos, minus_one, true, ◌≡◌, refl, List, [], ◌∷◌, ok, none, some, arith,
}
use advanced_group_chat_syst.Pb.{User, Group, LogEntry, RequestVoteRequest}
use advanced_group_chat_syst.Raft.State.{follower, ConsensusModule, Persisted}
use advanced_group_chat_syst.Raft.Vote.{is_up_to_date, request_vote_helper}
use advanced_group_chat_syst.Storage.RaftState.{set_state, get_state}
use advanced_group_chat_syst.Storage.RaftState.Round.{Writable, set_get_state}
use advanced_group_chat_syst.Storage.Disk.{
  update_group, get_group, create_group, join_group, remove_user_in_group,
}
use advanced_group_chat_syst.Storage.Disk.Membership.{Joined, join_group-Joined}
use advanced_group_chat_syst.Storage.Disk.Leaving.{Removed, remove_user-Removed}
use advanced_group_chat_syst.Node.{write_effects, start_module}
use advanced_group_chat_syst.Node.Restart.{restart_restores, restart_second_vote}
use advanced_group_chat_syst.Tests.Memory.{
  memory, memory-IsLawful, int_bytes, log_bytes, group_bytes,
}

memory-Writable : Writable memory
memory-Writable k v s h = cc

abbrev entry : ℕ → LogEntry
entry term = record { command = none; term = pos term }

abbrev saved : Persisted
saved = record { term = pos 3; voted_for = pos 2; log = entry 1 ∷ entry 3 ∷ [] }

abbrev disk : ℕ → ℕ → List LogEntry → memory.Store
disk term voted_for log =
    ("currentTerm", int_bytes (pos term))
    ∷ ("votedFor", int_bytes (pos voted_for))
    ∷ ("log", log_bytes log)
    ∷ []

writes : set_state memory saved [] ≡ ok (disk 3 2 saved.log)
unfolding set_state insert
writes = refl

set_get_state_example : get_state memory (disk 3 2 saved.log) ≡ ok saved
set_get_state_example =
    set_get_state memory memory-IsLawful memory-Writable saved [] (disk 3 2 saved.log) writes

-- Server 1 of five in term 2.
abbrev server : List LogEntry → ConsensusModule
server log = record {
  id = pos 1;
  leader_id = minus_one;
  peer_ids = pos 2 ∷ pos 3 ∷ pos 4 ∷ pos 5 ∷ [];
  current_term = pos 2;
  voted_for = minus_one;
  log = log;
  commit_index = minus_one;
  last_applied = minus_one;
  state = follower;
  election_reset_event = 0;
  next_index = [];
  match_index = [];
}

abbrev ask : ℕ → RequestVoteRequest
ask from = record {
  term = pos 3;
  candidate_id = pos from;
  last_log_index = pos 0;
  last_log_term = pos 1;
}

votes_logged :
    write_effects memory (request_vote_helper 5 (ask 2) (server (entry 1 ∷ []))).2 []
    ≡ ok (disk 3 2 (entry 1 ∷ []))
unfolding write_effects request_vote_helper set_state insert is_up_to_date
votes_logged = refl

votes_bare :
    write_effects memory (request_vote_helper 5 (ask 2) (server [])).2 [] ≡ ok (disk 3 2 [])
unfolding write_effects request_vote_helper set_state insert is_up_to_date
votes_bare = refl

restart_restores_example :
    let (cm', reply, _) = request_vote_helper 5 (ask 2) (server (entry 1 ∷ [])) in
    (cm'' : ConsensusModule) × (start_module memory (pos 1) [] (disk 3 2 (entry 1 ∷ [])) ≡ ok cm'')
    × (cm''.current_term ≡ reply.term)
    × (cm''.voted_for ≡ cm'.voted_for)
    × (cm''.log ≡ entry 1 ∷ [])
restart_restores_example =
    restart_restores memory memory-IsLawful memory-Writable 5 (ask 2) (server (entry 1 ∷ [])) []
      (disk 3 2 (entry 1 ∷ [])) (pos 1) [] refl votes_logged (omega arith)

restart_second_vote_example :
    (cm'' : ConsensusModule) × (start_module memory (pos 1) [] (disk 3 2 []) ≡ ok cm'')
    × ((request_vote_helper 6 (ask 4) cm'').1.vote_granted ≡ true)
restart_second_vote_example =
    restart_second_vote memory memory-IsLawful memory-Writable 5 6 (ask 2) (ask 4) (server []) []
      (disk 3 2 []) (pos 1) [] refl votes_bare refl (omega arith) (omega arith) (omega arith)

abbrev ann : User
ann = record { id = 7; name = "ann" }

abbrev group_of_ann : Group
group_of_ann = record {
  group_id = 12;
  groupname = "go";
  participants = (7, "ann") ∷ [];
  messages = [];
}

abbrev one_group : Group → memory.Store
one_group g = ("go", group_bytes g) ∷ []

joins : join_group memory 12 "go" (some ann) [] ≡ ok (one_group group_of_ann)
unfolding join_group get_group lookup create_group update_group insert
joins = refl

join_group-Joined_example :
    Joined memory memory-IsLawful "go" (some ann) [] (one_group group_of_ann)
join_group-Joined_example =
    join_group-Joined memory memory-IsLawful 12 "go" (some ann) [] (one_group group_of_ann) joins

leaves :
    remove_user_in_group memory 7 "go" (one_group group_of_ann)
    ≡ ok (one_group (record group_of_ann { participants = [] }), true)
unfolding remove_user_in_group get_group lookup update_group insert delete
leaves = refl

remove_user-Removed_example :
    (true ≡ true)
    × Removed memory memory-IsLawful 7 "go"
        (one_group group_of_ann)
        (one_group (record group_of_ann { participants = [] }))
remove_user-Removed_example =
    remove_user-Removed memory memory-IsLawful 7 "go" (one_group group_of_ann)
      (one_group (record group_of_ann { participants = [] })) true leaves
