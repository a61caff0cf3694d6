-- ===== src/Raft/Apply.antt =====
-- server/raft.go: commitChanSender, which hands the committed entries on.
pub mod Extends
use advanced_group_chat_syst.Base.{
  ℕ, suc, ℤ, pos, ltb_ℤ, add64, List, [], ◌∷◌, Option, Result, ok, ◌>>=◌, slot_after, slice,
  if◌then◌else◌,
}
use advanced_group_chat_syst.Pb.{Command, LogEntry}
use advanced_group_chat_syst.Raft.State.{ConsensusModule}

pub record CommitEntry : Type 0 where
  pub command : Option Command
  pub index : ℤ
  pub term : ℤ

-- The loop over the entries: entry `i` has the index savedLastApplied + int64(i + 1).
unfoldable pub number_entries : ℤ → ℤ → ℕ → List LogEntry → List CommitEntry
number_entries saved_last term i [] = []
number_entries saved_last term i (e ∷ es) =
    record { command = e.command; index = add64 saved_last (pos (suc i)); term = term }
    ∷ number_entries saved_last term (suc i) es

-- One round of commitChanSender: the new state, and what is put on commitChan.
unfoldable pub commit_chan_sender : ConsensusModule → Result (ConsensusModule × List CommitEntry)
unfolding number_entries
commit_chan_sender cm =
    if ltb_ℤ cm.last_applied cm.commit_index
    then (do
      lo ← slot_after cm.last_applied
      hi ← slot_after cm.commit_index
      entries ← slice cm.log lo hi
      ok (
        record cm { last_applied = cm.commit_index },
        number_entries cm.last_applied cm.current_term 0 entries,
      ))
    else ok (cm, [])
