-- ===== src/Raft/State.antt =====
-- server/raft.go: the state of a consensus module, what its methods do outside it, and the methods
-- that the others call (`becomeFollower`, `lastLogIndexAndTerm`, `persistToStorage`, restore).
use advanced_group_chat_syst.Base.{
  ℕ, ℤ, pos, minus_one, beq_ℤ, beq_ℤ_iff, Bool, true, false, List, [], ◌∷◌, length, Eq, Map, none,
  some, Option, lookup, if◌then◌else◌,
}
use advanced_group_chat_syst.Pb.{Command, LogEntry}

pub data CmState : Type 0 where
  follower candidate leader dead : CmState

abbrev pub is_dead : CmState → Bool
is_dead dead = true
is_dead _ = false

abbrev pub is_leader : CmState → Bool
is_leader leader = true
is_leader _ = false

abbrev pub is_follower : CmState → Bool
is_follower follower = true
is_follower _ = false

abbrev pub is_candidate : CmState → Bool
is_candidate candidate = true
is_candidate _ = false

instance abbrev pub int_eq : Eq ℤ
int_eq = record { equals = beq_ℤ; equals_iff = beq_ℤ_iff }

-- The fields that the methods read and write. `server`, `commitChan` and the channels are the
-- receivers of the effects below; `mu` is held by each method, so a method is one step.
pub record ConsensusModule : Type 0 where
  pub id : ℤ
  pub leader_id : ℤ
  pub peer_ids : List ℤ
  pub current_term : ℤ
  pub voted_for : ℤ
  pub log : List LogEntry
  pub commit_index : ℤ
  pub last_applied : ℤ
  pub state : CmState
  pub election_reset_event : ℕ
  pub next_index : Map ℤ ℤ
  pub match_index : Map ℤ ℤ

-- What DiskStore.SetState is handed, and GetState returns.
pub record Persisted : Type 0 where
  pub term : ℤ
  pub voted_for : ℤ
  pub log : List LogEntry

-- What a method does outside the module, in order: goroutines that it starts, messages that it puts
-- on a channel, and what it writes to the disk.
pub data Effect : Type 0 where
  run_election_timer : Effect
  persist : Persisted → Effect
  commit_ready : Effect
  close_commit_ready : Effect
  trigger_append : Effect
  ask_vote : (peer saved_term : ℤ) → Effect
  go_start_leader : Effect
  heartbeat_loop : Effect
  send_append : (peer saved_term : ℤ) → Effect
  forward_command : Option Command → Effect

-- A read of a map[int64]int64: a missing key gives 0.
abbrev pub read : Map ℤ ℤ → ℤ → ℤ
read m k = elim (lookup k m) [ none ↦ pos 0 | some v ↦ v ]

unfoldable pub persisted : ConsensusModule → Persisted
persisted cm = record { term = cm.current_term; voted_for = cm.voted_for; log = cm.log }

-- persistToStorage: an error of SetState is ignored.
unfoldable pub persist_to_storage : ConsensusModule → Effect
unfolding persisted
persist_to_storage cm = persist (persisted cm)

-- becomeFollower; `now` is the clock.
unfoldable pub become_follower : ℕ → ℤ → ConsensusModule → ConsensusModule × List Effect
become_follower now term cm = (
  record cm {
    state = follower;
    current_term = term;
    voted_for = minus_one;
    election_reset_event = now;
  },
  run_election_timer ∷ [],
)

unfoldable pub last_entry : LogEntry → List LogEntry → LogEntry
last_entry e [] = e
last_entry e (f ∷ es) = last_entry f es

-- lastLogIndexAndTerm
unfoldable pub last_log_index_and_term : List LogEntry → ℤ × ℤ
unfolding last_entry
last_log_index_and_term [] = (minus_one, minus_one)
last_log_index_and_term (e ∷ es) = (pos (length es), (last_entry e es).term)

-- restoreFromStorage, with what GetState returned.
unfoldable pub restore_from_storage : Persisted → ConsensusModule → ConsensusModule
restore_from_storage p cm = record cm {
  current_term = p.term;
  voted_for = p.voted_for;
  log = p.log;
}

-- NewConsensusModule: `has_data` and `stored` are what HasData and GetState return.
unfoldable pub new_consensus_module : ℤ → List ℤ → Bool → Persisted → ConsensusModule
unfolding restore_from_storage
new_consensus_module id peer_ids has_data stored =
    let cm : ConsensusModule = record {
      id = id;
      leader_id = minus_one;
      peer_ids = peer_ids;
      current_term = pos 0;
      voted_for = minus_one;
      log = [];
      commit_index = minus_one;
      last_applied = minus_one;
      state = follower;
      election_reset_event = 0;
      next_index = [];
      match_index = [];
    } in
    if has_data then restore_from_storage stored cm else cm

-- Report
unfoldable pub report : ConsensusModule → ℤ × ℤ × Bool
report cm = (cm.id, cm.current_term, is_leader cm.state)

-- Stop
unfoldable pub stop : ConsensusModule → ConsensusModule × List Effect
stop cm = (record cm { state = dead }, close_commit_ready ∷ [])
