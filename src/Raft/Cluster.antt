-- ===== src/Raft/Cluster.antt =====
-- server/raft.go on several servers: the modules of a cluster and the messages of elections between
-- them. A step is an event at one module; messages may be delayed, lost, repeated and reordered.
pub mod Plain
pub mod Invariant
pub mod Voting
pub mod Asking
pub mod Leading
pub mod Starting
pub mod Safety
pub mod Logs
pub mod LogEvents
pub mod LogSteps
pub mod LogGrowth
pub mod Matching
pub mod Counts
pub mod History
use advanced_group_chat_syst.Base.{
  ℕ, suc, ◌+◌, ◌*◌, ◌<◌, ◌<ℤ◌, ◌≤ℤ◌, ◌⊎◌, ℤ, pos, minus_one, beq_ℤ, pos_part, InRange64, ◌^◌, ◌||◌,
  Bool, true, false, ◌≡◌, ◌≢◌, List, [], ◌∷◌, length, In, ltb, ok, if◌then◌else◌,
}
use advanced_group_chat_syst.Pb.{
  LogEntry, RequestVoteRequest, RequestVoteResponse, AppendEntriesRequest,
}
use advanced_group_chat_syst.Raft.State.{
  CmState, follower, candidate, ConsensusModule, Persisted, Effect, go_start_leader, is_candidate,
  is_leader, is_follower, new_consensus_module,
}
use advanced_group_chat_syst.Raft.Vote.{
  TimerResult, keep_waiting, timer_ended, election_started, request_vote_helper,
  tick_election_timer, vote_reply, start_leader,
}
use advanced_group_chat_syst.Raft.Leader.{append_request}
use advanced_group_chat_syst.Raft.System.{
  Event, vote_requested, entries_received, timer_ticked, vote_replied, leader_started,
  entries_replied, command_submitted, command_forwarded, forward_replied, entries_applied, stopped,
  step,
}

-- The votes of one election: `received` is the counter `votesReceived`, `won` says whether a reply has
-- started the goroutine of startLeader, and `peers` lists the peers whose votes were counted.
pub record Count : Type 0 where
  pub received : ℕ
  pub won : Bool
  pub peers : List ℤ

-- `votesReceived := 1`
abbrev pub new_count : Count
new_count = record { received = 1; won = false; peers = [] }

-- `node` is the module of each server. `counted` holds the count of the election of a candidate in
-- a term. `votes` holds the votes given, as voter, candidate and term; `led` the leaders that have
-- started, with the term that they had; `sent` the AppendEntries requests. `leader_log` is history:
-- the log of the leader of each term, as it was when the server last led in that term.
pub record Cluster : Type 0 where
  pub node : ℤ → ConsensusModule
  pub counted : ℤ → ℤ → Count
  pub votes : List (ℤ × ℤ × ℤ)
  pub led : List (ℤ × ℤ)
  pub sent : List AppendEntriesRequest
  pub leader_log : ℤ → List LogEntry

abbrev pub update : ℤ → ConsensusModule → (ℤ → ConsensusModule) → ℤ → ConsensusModule
update i cm node j = if beq_ℤ j i then cm else node j

abbrev pub set_node : ℤ → ConsensusModule → Cluster → Cluster
set_node i cm s = record s { node = update i cm s.node }

abbrev pub set_counted : ℤ → ℤ → Count → (ℤ → ℤ → Count) → ℤ → ℤ → Count
set_counted c t count counted c' t' =
    if beq_ℤ c' c then (if beq_ℤ t' t then count else counted c' t') else counted c' t'

abbrev pub set_log : ℤ → List LogEntry → (ℤ → List LogEntry) → ℤ → List LogEntry
set_log t log logs t' = if beq_ℤ t' t then log else logs t'

-- The peers of a server: the other members.
abbrev pub others : ℤ → List ℤ → List ℤ
others i [] = []
others i (m ∷ ms) = let rest = others i ms in if beq_ℤ m i then rest else m ∷ rest

-- The events that neither take part in an election nor change the log: replies to AppendEntries, the
-- reply of a leader that was forwarded to, the application of entries, and Stop.
abbrev pub IsLocal : Event → Type 0
IsLocal (vote_requested _ _) = ⊥
IsLocal (entries_received _ _) = ⊥
IsLocal (timer_ticked _ _ _) = ⊥
IsLocal (vote_replied _ _ _ _) = ⊥
IsLocal leader_started = ⊥
IsLocal (command_submitted _) = ⊥
IsLocal (command_forwarded _) = ⊥
IsLocal _ = Unit {0}

abbrev pub IsCommand : Event → Type 0
IsCommand (command_submitted _) = Unit {0}
IsCommand (command_forwarded _) = Unit {0}
IsCommand _ = ⊥

-- A command that a leader takes lengthens its log.
abbrev pub after_command : ℤ → ConsensusModule → Cluster → Cluster
after_command i cm s = record s {
  node = update i cm s.node;
  leader_log =
      if is_leader cm.state then set_log cm.current_term cm.log s.leader_log else s.leader_log;
}

abbrev pub first_start : ℤ → Cluster → Cluster
first_start c s = record s {
  node = update c (start_leader (s.node c)).0 s.node;
  led = (c, (s.node c).current_term) ∷ s.led;
  leader_log = set_log (s.node c).current_term (s.node c).log s.leader_log;
}

-- A start of the leader, which is noted unless the server leads already.
abbrev pub after_start : ℤ → Cluster → Cluster
after_start c s =
    if is_leader (s.node c).state then set_node c (start_leader (s.node c)).0 s else first_start c s

-- A tick: an election adds the vote of the candidate for itself, and its count begins anew.
abbrev pub after_tick : ℤ → TimerResult × ConsensusModule × List Effect → Cluster → Cluster
after_tick i (election_started, cm, _) s = record s {
  node = update i cm s.node;
  counted = set_counted i cm.current_term new_count s.counted;
  votes = (i, i, cm.current_term) ∷ s.votes;
}
after_tick i (_, cm, _) s = set_node i cm s

abbrev pub after_request :
    ℤ → RequestVoteRequest → ConsensusModule × RequestVoteResponse × List Effect → Cluster → Cluster
after_request p req (cm, reply, _) s = record s {
  node = update p cm s.node;
  votes = if reply.vote_granted then (p, req.candidate_id, req.term) ∷ s.votes else s.votes;
}

abbrev pub starts_leader : List Effect → Bool
starts_leader [] = false
starts_leader (go_start_leader ∷ es) = true
starts_leader (_ ∷ es) = starts_leader es

-- The count after a reply of `p`, with what vote_reply returned: the counter, and the goroutine that it
-- may have started. A peer whose reply raised the counter has been counted.
abbrev pub reply_count : ℤ → ℕ → List Effect → Count → Count
reply_count p votes es old = record {
  received = votes;
  won = old.won || starts_leader es;
  peers = if ltb old.received votes then p ∷ old.peers else old.peers;
}

-- A reply of `p` in the election of `c` in term `t`.
abbrev pub after_reply : ℤ → ℤ → ℤ → ConsensusModule × ℕ × List Effect → Cluster → Cluster
after_reply c t p (cm, votes, es) s = record s {
  node = update c cm s.node;
  counted = set_counted c t (reply_count p votes es (s.counted c t)) s.counted;
}

-- The steps of a cluster whose servers are `members`. A message comes from one that was sent: a
-- request for a vote from an election, a granted vote from a vote given, entries from a request; a
-- goroutine runs if it was started, however late, and here even more than once: `t` and `saved` are
-- the terms that it saved, which need not be current any more. For each peer of an election one
-- goroutine handles one reply, so no peer is counted twice. A request or a reply may have any
-- content besides.
pub data ClusterStep (members : List ℤ) : Cluster → Cluster → Type 0 where
  local_event :
      {s : Cluster} (i : ℤ) (e : Event) (cm : ConsensusModule)
      → IsLocal e
      → step e (s.node i) ≡ ok cm
      → ClusterStep members s (set_node i cm s)
  commanded :
      {s : Cluster} (i : ℤ) (e : Event) (cm : ConsensusModule)
      → IsCommand e
      → step e (s.node i) ≡ ok cm
      → ClusterStep members s (after_command i cm s)
  ticked :
      {s : Cluster} (i : ℤ) (timeout now : ℕ) (started : ℤ)
      → In i members
      → ClusterStep members s (after_tick i (tick_election_timer timeout now started (s.node i)) s)
  asked :
      {s : Cluster} (p : ℤ) (now : ℕ) (req : RequestVoteRequest)
      → In p members
      → p ≢ req.candidate_id
      → In (req.candidate_id, req.candidate_id, req.term) s.votes
      → ClusterStep members s (after_request p req (request_vote_helper now req (s.node p)) s)
  answered :
      {s : Cluster} (c p t : ℤ) (now : ℕ) (reply : RequestVoteResponse)
      → In p members
      → p ≢ c
      → In (c, c, t) s.votes
      → (In p (s.counted c t).peers → ⊥)
      → (reply.vote_granted ≡ true → In (p, c, t) s.votes)
      → ClusterStep members s
          (after_reply c t p (vote_reply now t reply (s.counted c t).received (s.node c)) s)
  started_leading :
      {s : Cluster} (c t : ℤ)
      → In c members
      → (s.counted c t).won ≡ true
      → ClusterStep members s (after_start c s)
  entries_sent :
      {s : Cluster} (l peer saved : ℤ) (req : AppendEntriesRequest)
      → In (l, saved) s.led
      → append_request peer saved (s.node l) ≡ ok req
      → ClusterStep members s (record s { sent = req ∷ s.sent })
  entries_delivered :
      {s : Cluster} (p : ℤ) (now : ℕ) (req : AppendEntriesRequest) (cm : ConsensusModule)
      → p ≢ req.leader_id
      → In req s.sent
      → step (entries_received now req) (s.node p) ≡ ok cm
      → ClusterStep members s (set_node p cm s)

-- A reply that the candidate does not take for one of a later term, or that is of a later term than its
-- current one.
abbrev pub IsTimely : ℤ → RequestVoteResponse → ConsensusModule → Type 0
IsTimely saved reply cm =
    ((is_leader cm.state || is_follower cm.state) ≡ true)
    ⊎ ((reply.term ≤ℤ saved) ⊎ (cm.current_term <ℤ reply.term))

-- A step in which no goroutine acts on a term that has passed meanwhile, and no integer overflows:
-- startLeader runs in the term that was won, and not in a follower; a request is made by a server that
-- still leads in the saved term; and a reply to a vote request does not take a candidate back to an
-- earlier term or to the start of its own. The code does not check this: a reply is compared with
-- the term saved and not with the current one, startLeader looks neither at the state nor at the
-- term, and the goroutines of leaderSendAEs read the log without looking at either again.
abbrev pub IsOrderly : {members : List ℤ} {s s' : Cluster} → ClusterStep members s s' → Type 0
IsOrderly {s = s} (ticked i timeout now started _) =
    InRange64 (s.node i).current_term × (pos_part (s.node i).current_term + 1 < 2 ^ 63)
IsOrderly {s = s} (answered c p t now reply _ _ _ _ _) = IsTimely t reply (s.node c)
IsOrderly {s = s} (started_leading c t _ _) =
    ((is_candidate (s.node c).state ≡ true) ⊎ (is_leader (s.node c).state ≡ true))
    × (t ≡ (s.node c).current_term)
IsOrderly {s = s} (entries_sent l peer saved req _ _) =
    (is_leader (s.node l).state ≡ true)
    × (saved ≡ (s.node l).current_term)
    × (length (s.node l).log < 2 ^ 63)
IsOrderly _ = Unit {0}

-- The servers as NewServer makes them, each with what its disk held.
abbrev pub initial : List ℤ → (ℤ → Bool) → (ℤ → Persisted) → Cluster
initial members found stored = record {
  node = λ i. new_consensus_module i (others i members) (found i) (stored i);
  counted = λ c t. new_count;
  votes = [];
  led = [];
  sent = [];
  leader_log = λ t. [];
}

-- A run of orderly steps.
pub data OrderlyRun (members : List ℤ) : Cluster → Cluster → Type 0 where
  done : {s : Cluster} → OrderlyRun members s s
  then :
      {s s' s'' : Cluster}
      → OrderlyRun members s s'
      → (st : ClusterStep members s' s'') → IsOrderly st
      → OrderlyRun members s s''
