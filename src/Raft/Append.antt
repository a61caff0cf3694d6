-- ===== src/Raft/Append.antt =====
-- server/raft.go: AppendEntriesHelper.
pub mod Merge
pub mod MergeLaws
pub mod Accepted
pub mod Outcome
pub mod Replication
use advanced_group_chat_syst.Base.{
  ℕ, suc, ℤ, pos, minus_one, beq_ℤ, ltb_ℤ, sub_ℕ, ltb, leb, Bool, true, false, List, [], ◌∷◌, ◌++◌,
  length, get_elem?, take, drop, Result, ok, demand, ◌>>=◌, index, slot_after, if◌then◌else◌,
}
use advanced_group_chat_syst.Pb.{LogEntry, AppendEntriesRequest, AppendEntriesResponse}
use advanced_group_chat_syst.Raft.State.{
  is_dead, is_follower, ConsensusModule, Effect, commit_ready, persist_to_storage, become_follower,
}

-- Our log has an entry of the given term at PrevLogIndex, or nothing comes before the new entries.
unfoldable pub matches_prev : AppendEntriesRequest → List LogEntry → Result Bool
matches_prev req log =
    if beq_ℤ req.prev_log_index minus_one
    then ok true
    else if ltb_ℤ req.prev_log_index (pos (length log))
    then (do e ← index log req.prev_log_index; ok (beq_ℤ req.prev_log_term e.term))
    else ok false

-- The loop that looks for the first entry that differs: the list is what of the new entries is left
-- from newEntriesIndex on. The start is PrevLogIndex + 1, which the test above puts within the log.
unfoldable pub insertion_point : List LogEntry → ℕ → ℕ → List LogEntry → Result (ℕ × ℕ)
insertion_point log insert_index new_index [] = ok (insert_index, new_index)
insertion_point log insert_index new_index (e ∷ es) =
    let next = insertion_point log (suc insert_index) (suc new_index) es in
    if leb (length log) insert_index then ok (insert_index, new_index) else do
      old ← demand (get_elem? log insert_index)
      if beq_ℤ old.term e.term then next else ok (insert_index, new_index)

unfoldable pub insert_entries : AppendEntriesRequest → List LogEntry → Result (List LogEntry)
unfolding insertion_point
insert_entries req log = do
  start ← slot_after req.prev_log_index
  (insert_index, new_index) ← insertion_point log start 0 req.entries
  if ltb new_index (length req.entries)
      then ok (take insert_index log ++ drop new_index req.entries)
      else ok log

-- intMin
abbrev pub int_min : ℤ → ℤ → ℤ
int_min a b = if ltb_ℤ a b then a else b

-- len(xs) - 1
abbrev pub last_index {ℓ} : {A : Type ℓ} → List A → ℤ
last_index xs = sub_ℕ (length xs) 1

unfoldable pub follow_commit : ℤ → ConsensusModule → ConsensusModule × List Effect
follow_commit leader_commit cm =
    if ltb_ℤ cm.commit_index leader_commit
    then (record cm { commit_index = int_min leader_commit (last_index cm.log) }, commit_ready ∷ [])
    else (cm, [])

-- What follows the test on the term: a candidate or leader of the same term steps down first.
unfoldable pub append_in_term :
    ℕ → AppendEntriesRequest → ConsensusModule → Result (ConsensusModule × Bool × List Effect)
unfolding become_follower follow_commit
append_in_term now req cm0 =
    let (cm1, spawned) =
      if is_follower cm0.state then (cm0, []) else become_follower now req.term cm0 in
    let cm2 : ConsensusModule = record cm1 { election_reset_event = now } in
    do
      matched ← matches_prev req cm2.log
      if matched
          then (do
            log ← insert_entries req cm2.log
            let (cm3, signals) = follow_commit req.leader_commit (record cm2 { log = log })
            ok (cm3, true, spawned ++ signals))
          else ok (cm2, false, spawned)

unfoldable pub append_entries_helper :
    ℕ
    → AppendEntriesRequest
    → ConsensusModule
    → Result (ConsensusModule × AppendEntriesResponse × List Effect)
unfolding append_in_term become_follower persist_to_storage
append_entries_helper now req cm =
    if is_dead cm.state
    then ok (
      cm,
      record { term = pos 0; success = false; conflict_index = pos 0; conflict_term = pos 0 },
      [],
    )
    else let cm0 : ConsensusModule = record cm { leader_id = req.leader_id } in
      let (cm1, spawned) =
        if ltb_ℤ cm0.current_term req.term then become_follower now req.term cm0 else (cm0, []) in
      do
        (cm2, success, effects) ←
            if beq_ℤ req.term cm1.current_term
            then append_in_term now req cm1
            else ok (cm1, false, [])
        ok (
          cm2,
          record {
            term = cm2.current_term;
            success = success;
            conflict_index = pos 0;
            conflict_term = pos 0;
          },
          spawned ++ effects ++ persist_to_storage cm2 ∷ [],
        )
