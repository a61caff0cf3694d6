-- ===== src/Raft/Leader/Request.antt =====
-- What a leader sends: the requests of leaderSendAEs, and what comes of them at a follower.
use advanced_group_chat_syst.Base.{
  ℕ, zero, suc, ◌^◌, ◌<◌, ℤ, pos, negsuc, ◌≡◌, refl, List, length, get_elem?, drop, ok, panic, some,
  arith, minus_one, get_elem?-of_lt, sub64, sub64_one,
}
use advanced_group_chat_syst.Pb.{LogEntry, AppendEntriesRequest}
use advanced_group_chat_syst.Raft.State.{ConsensusModule}
use advanced_group_chat_syst.Raft.Leader.{request_from}
use native.Mathlib.Decide.{dec_le}
use advanced_group_chat_syst.Raft.Append.Accepted.{Start}

-- The request holds the log from nextIndex on, and names the entry before.
pub record Requested (cm : ConsensusModule) (saved_term : ℤ) (req : AppendEntriesRequest) (n : ℕ)
    : Type 0 where
  pub starts : Start req cm.log n
  pub entries : req.entries ≡ drop n cm.log
  pub term : req.term ≡ saved_term
  pub leader : req.leader_id ≡ cm.id
  pub commit : req.leader_commit ≡ cm.commit_index

abbrev pub request_of :
    ℤ → ConsensusModule → (prev prev_term : ℤ) → List LogEntry → AppendEntriesRequest
request_of saved_term cm prev prev_term entries = record {
  term = saved_term;
  leader_id = cm.id;
  prev_log_index = prev;
  prev_log_term = prev_term;
  entries = entries;
  leader_commit = cm.commit_index;
}

pub request_from-zero :
    (saved_term : ℤ) (cm : ConsensusModule)
    → request_from (pos 0) saved_term cm ≡ ok (request_of saved_term cm minus_one minus_one cm.log)
unfolding request_from sub64
request_from-zero saved_term cm = ground arith

request_from-suc :
    (n : ℕ) (saved_term : ℤ) (cm : ConsensusModule) {e : LogEntry}
    → n < length cm.log
    → n < 2 ^ 63
    → get_elem? cm.log n ≡ some e
    → request_from (pos (suc n)) saved_term cm
      ≡ ok (request_of saved_term cm (pos n) e.term (drop (suc n) cm.log))
unfolding request_from
request_from-suc n saved_term cm inside fits found = rw (sub64_one n fits, found) (ground arith)

request_from-past :
    (n : ℕ) (saved_term : ℤ) (cm : ConsensusModule)
    → length cm.log < suc n
    → request_from (pos (suc n)) saved_term cm ≡ panic
unfolding request_from
request_from-past n saved_term cm past = ground arith

pub Requested-from :
    (next saved_term : ℤ) (cm : ConsensusModule) (req : AppendEntriesRequest)
    → length cm.log < 2 ^ 63
    → request_from next saved_term cm ≡ ok req
    → (n : ℕ) × (next ≡ pos n) × Requested cm saved_term req n
Requested-from (pos zero) saved_term cm req fits h =
    (0, refl, ground (arith, request_from-zero saved_term cm))
Requested-from (pos (suc n)) saved_term cm req fits h = elim (dec_le (suc n) (length cm.log)) [
  | yes inside ↦
      let (e, found) = get_elem?-of_lt cm.log n inside in
      let is = request_from-suc n saved_term cm inside (omega arith) found in
      (
        suc n,
        refl,
        record {
          starts = (ground arith, inside, (e, found, ground arith));
          entries = ground arith;
          term = ground arith;
          leader = ground arith;
          commit = ground arith;
        },
      )
  | no past ↦ absurd (ground (arith, request_from-past n saved_term cm (omega arith)))
]
Requested-from (negsuc n) saved_term cm req fits h = absurd (unfold request_from in ground arith)
