-- ===== src/Raft/Leader.antt =====
-- server/raft.go: what a leader does. Submit, ForwardLeaderHelper, forwardToLeader, leaderSendAEs and
-- the replies to its requests.
pub mod Request
pub mod Delivery
pub mod Scan
pub mod Commit
use advanced_group_chat_syst.Base.{
  ℕ, zero, suc, ◌+◌, ◌*◌, ℤ, pos, minus_one, beq_ℤ, ltb_ℤ, leb_ℤ, add64, sub64, ltb, Bool, true,
  false, ◌&&◌, List, [], ◌∷◌, ◌++◌, map, length, get_elem?, drop, Option, none, some, Map, insert,
  Result, ok, ◌>>=◌, index, slot_after, slice_from, if◌then◌else◌,
}
use advanced_group_chat_syst.Pb.{
  Command, LogEntry, AppendEntriesRequest, AppendEntriesResponse, ForwardLeaderResponse,
}
use advanced_group_chat_syst.Raft.State.{
  is_dead, is_leader, ConsensusModule, Effect, trigger_append, commit_ready, send_append,
  forward_command, read, persist_to_storage, become_follower, int_eq,
}

-- forwardToLeader: the goroutine that it starts sends the command to the known leader.
unfoldable pub forward_to_leader : Option Command → ConsensusModule → List Effect
forward_to_leader command cm = if is_leader cm.state then [] else forward_command command ∷ []

-- Submit, which always reports success.
unfoldable pub submit : Option Command → ConsensusModule → ConsensusModule × Bool × List Effect
unfolding persist_to_storage forward_to_leader
submit command cm =
    if is_leader cm.state
    then (let cm' : ConsensusModule = record cm {
      log = cm.log ++ record { command = command; term = cm.current_term } ∷ [];
    } in
        (cm', true, persist_to_storage cm' ∷ trigger_append ∷ []))
    else (cm, true, forward_to_leader command cm)

-- ForwardLeaderHelper
unfoldable pub forward_leader_helper :
    Option Command → ConsensusModule → ConsensusModule × ForwardLeaderResponse × List Effect
unfolding submit
forward_leader_helper command cm =
    if is_dead cm.state
    then (cm, record { success = false; leader_id = pos 0 }, [])
    else if is_leader cm.state
    then (let (cm', submitted, effects) = submit command cm in
        (
          cm',
          if submitted
              then record { success = true; leader_id = cm'.id }
              else record { success = false; leader_id = pos 0 },
          effects,
        ))
    else (cm, record { success = false; leader_id = cm.leader_id }, [])

-- The rest of the goroutine of forwardToLeader, once the reply has come.
unfoldable pub forward_reply :
    Option Command → ForwardLeaderResponse → ConsensusModule → ConsensusModule × List Effect
unfolding forward_to_leader
forward_reply command reply cm =
    if reply.success
    then (cm, commit_ready ∷ [])
    else (let cm' : ConsensusModule = record cm { leader_id = reply.leader_id } in
        (cm', forward_to_leader command cm'))

-- leaderSendAEs: one goroutine for each peer, with the term saved.
unfoldable pub leader_send_aes : ConsensusModule → List Effect
leader_send_aes cm =
    if is_leader cm.state then map (λ peer. send_append peer cm.current_term) cm.peer_ids else []

-- The request whose entries begin at `next`: an index or a slice out of range is a panic.
unfoldable pub request_from : ℤ → ℤ → ConsensusModule → Result AppendEntriesRequest
request_from next saved_term cm =
    let prev = sub64 next (pos 1) in
    do
      prev_term ← if leb_ℤ (pos 0) prev then (do e ← index cm.log prev; ok e.term) else ok minus_one
      entries ← slice_from cm.log next
      ok (record {
        term = saved_term;
        leader_id = cm.id;
        prev_log_index = prev;
        prev_log_term = prev_term;
        entries = entries;
        leader_commit = cm.commit_index;
      })

-- The request for a peer, read under the lock when its goroutine runs.
unfoldable pub append_request : ℤ → ℤ → ConsensusModule → Result AppendEntriesRequest
unfolding request_from
append_request peer saved_term cm = request_from (read cm.next_index peer) saved_term cm

-- matchCount for index `i`, from the count so far.
unfoldable pub count_matches : ℤ → Map ℤ ℤ → List ℤ → ℕ → ℕ
count_matches i match_index [] n = n
count_matches i match_index (p ∷ ps) n =
    count_matches i match_index ps (if leb_ℤ i (read match_index p) then suc n else n)

unfoldable pub has_majority : ℤ → Map ℤ ℤ → List ℤ → Bool
unfolding count_matches
has_majority i match_index peers = ltb (length peers + 1) (count_matches i match_index peers 1 * 2)

-- The loop over log[i:], which keeps the last index that may be committed.
unfoldable pub scan_commit : ℤ → Map ℤ ℤ → List ℤ → ℕ → List LogEntry → ℤ → ℤ
scan_commit term match_index peers i [] commit = commit
scan_commit term match_index peers i (e ∷ es) commit =
    scan_commit term match_index peers (suc i) es
      (if beq_ℤ e.term term && has_majority (pos i) match_index peers then pos i else commit)

-- The loop `for i := len(cm.log) - 1; i >= 0; i--`, with `n` rounds left.
unfoldable pub last_index_of_term : List LogEntry → ℤ → ℕ → ℤ
last_index_of_term log term zero = minus_one
last_index_of_term log term (suc n) =
    let rest = last_index_of_term log term n in
    elim (get_elem? log n) [ none ↦ rest | some e ↦ if beq_ℤ e.term term then pos n else rest ]

-- The new nextIndex after a refusal.
unfoldable pub next_after_refusal : AppendEntriesResponse → List LogEntry → ℤ
unfolding last_index_of_term
next_after_refusal reply log =
    if leb_ℤ (pos 0) reply.conflict_term
    then (let last = last_index_of_term log reply.conflict_term (length log) in
        if leb_ℤ (pos 0) last then add64 last (pos 1) else reply.conflict_index)
    else reply.conflict_index

-- The handling of the reply to a request that was made with `next` and held `entries`.
unfoldable pub append_reply :
    (now : ℕ) (peer saved_term next : ℤ) (entries : List LogEntry)
    → AppendEntriesResponse
    → ConsensusModule
    → Result (ConsensusModule × List Effect)
unfolding become_follower
append_reply now peer saved_term next entries reply cm =
    if ltb_ℤ cm.current_term reply.term
    then ok (become_follower now reply.term cm)
    else if is_leader cm.state && beq_ℤ saved_term reply.term
    then if reply.success
      then (do
        let after = add64 next (pos (length entries))
        let next_index = insert peer after cm.next_index
        let match_index = insert peer (sub64 after (pos 1)) cm.match_index
        start ← slot_after cm.commit_index
        let commit =
            scan_commit cm.current_term match_index cm.peer_ids start (drop start cm.log)
              cm.commit_index
        ok (
          record cm { next_index = next_index; match_index = match_index; commit_index = commit },
          if beq_ℤ commit cm.commit_index then [] else commit_ready ∷ trigger_append ∷ [],
        ))
      else ok (
        record cm { next_index = insert peer (next_after_refusal reply cm.log) cm.next_index },
        [],
      )
    else ok (cm, [])
