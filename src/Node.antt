-- ===== src/Node.antt =====
-- server/raft.go with server/storage.go: a consensus module on its disk store. What the module
-- persists is written by SetState, and NewConsensusModule reads it back after a restart.
pub mod Restart
use advanced_group_chat_syst.Base.{
  ℤ, Bool, true, false, List, [], ◌∷◌, minus_one, pos, Result, ok, ◌>>=◌, if◌then◌else◌,
}
use advanced_group_chat_syst.Raft.State.{
  Effect, persist, run_election_timer, Persisted, ConsensusModule, new_consensus_module,
}
use advanced_group_chat_syst.Storage.Backend.{Backend}
use advanced_group_chat_syst.Storage.RaftState.{set_state, get_state, has_data}

module _ (b : Backend) where
  open b use {Store}

  -- What the effects of a method write, in order.
  unfoldable pub write_effects : List Effect → Store → Result Store
  write_effects [] s = ok s
  write_effects (persist p ∷ es) s = do s' ← set_state b p s; write_effects es s'
  write_effects (e ∷ es) s = write_effects es s

  -- NewConsensusModule over the store that it opens: the state is read only if HasData says so.
  unfoldable pub start_module : ℤ → List ℤ → Store → Result ConsensusModule
  unfolding new_consensus_module
  start_module id peer_ids s = do
    found ← has_data b s
    let nothing : Persisted = record { term = pos 0; voted_for = minus_one; log = [] }
    stored ← if found then get_state b s else ok nothing
    ok (new_consensus_module id peer_ids found stored)
