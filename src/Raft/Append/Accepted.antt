-- ===== src/Raft/Append/Accepted.antt =====
-- What a successful AppendEntries has checked and done.
use advanced_group_chat_syst.Base.{
  ℕ, zero, suc, ◌≤◌, ◌<◌, ℤ, pos, negsuc, eq_of_parts, ltb_ℤ, ◌≡◌, refl, ap, List, length,
  get_elem?, true, ok, some, if◌then◌else◌, arith, slot_after, get_elem?-of_lt,
}
use advanced_group_chat_syst.Pb.{LogEntry, AppendEntriesRequest, AppendEntriesResponse}
use advanced_group_chat_syst.Raft.State.{ConsensusModule, follower, Effect}
use advanced_group_chat_syst.Raft.Append.{matches_prev, int_min, last_index, append_entries_helper}
use advanced_group_chat_syst.Raft.Append.Merge.{merged, insert_entries_lem}

-- The entry before index `n`, if any, has term `t`.
abbrev pub HasPrev : ℕ → ℤ → List LogEntry → Type 0
HasPrev zero t log = Unit
HasPrev (suc n) t log = (e : LogEntry) × (get_elem? log n ≡ some e) × (t ≡ e.term)

abbrev pub Start : AppendEntriesRequest → List LogEntry → ℕ → Type 0
Start req log n =
    (slot_after req.prev_log_index ≡ ok n) × (n ≤ length log) × HasPrev n req.prev_log_term log

pub Start-at :
    (prev : ℤ) (req : AppendEntriesRequest) (log : List LogEntry)
    → req.prev_log_index ≡ prev
    → matches_prev req log ≡ ok true
    → (n : ℕ) × Start req log n
unfolding matches_prev
Start-at (negsuc zero) req log e h = (0, (ap slot_after e, omega arith, tt))
Start-at (negsuc (suc n)) req log e h = absurd (ground arith)
Start-at (pos n) req log e h =
    let inside : n < length log = ground arith in
    let (x, found) = get_elem?-of_lt log n inside in
    (
      suc n,
      (ap slot_after e, inside, (x, found, ground (arith, eq_of_parts req.prev_log_term x.term))),
    )

pub record Accepted (req : AppendEntriesRequest) (cm cm' : ConsensusModule) : Type 0 where
  pub start : ℕ
  pub starts : Start req cm.log start
  pub log : cm'.log ≡ merged start cm.log req.entries
  pub commit : cm'.commit_index ≡ (
      if ltb_ℤ cm.commit_index req.leader_commit
      then int_min req.leader_commit (last_index cm'.log)
      else cm.commit_index)
  pub term : cm'.current_term ≡ req.term
  pub is_follower_now : cm'.state ≡ follower
  pub leader : cm'.leader_id ≡ req.leader_id

module _ (now : ℕ) (req : AppendEntriesRequest) (cm cm' : ConsensusModule)
    (reply : AppendEntriesResponse) (es : List Effect)
    (returned : append_entries_helper now req cm ≡ ok (cm', reply, es))
    (success : reply.success ≡ true) where
  success_matched : matches_prev req cm.log ≡ ok true
  unfolding append_entries_helper
  success_matched = ground arith

  -- Whatever state and terms the module had, a successful reply has done all of this.
  pub accepted : Accepted req cm cm'
  accepted =
      let (start, starts) = Start-at req.prev_log_index req cm.log refl success_matched in
      let inserted = insert_entries_lem req cm.log starts.0 starts.1 in
      let matched = success_matched in
      record {
        start = start;
        starts = starts;
        log = unfold append_entries_helper in ground (arith, inserted, matched);
        commit = unfold append_entries_helper in ground (arith, inserted, matched);
        term =
            unfold append_entries_helper in
            ground (arith, inserted, matched, eq_of_parts cm.current_term req.term);
        is_follower_now = unfold append_entries_helper in ground (arith, inserted, matched);
        leader = unfold append_entries_helper in ground (arith, inserted, matched);
      }
