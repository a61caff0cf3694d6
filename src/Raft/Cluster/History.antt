-- ===== src/Raft/Cluster/History.antt =====
-- What a cluster's servers have done: the logs with which candidates ran, with which servers voted and
-- with which leaders started, and the requests that were accepted.
pub mod Complete
pub mod Kept
pub mod Quiet
pub mod Votes
pub mod Accepting
pub mod Growth
pub mod Started
pub mod Completeness
use advanced_group_chat_syst.Base.{
  ℕ, suc, ◌+◌, ◌<◌, ◌≤◌, ℤ, ◌<ℤ◌, ◌≤ℤ◌, Bool, true, false, ◌≡◌, ◌⊎◌, List, [], ◌∷◌, ◌++◌, length,
  take, get_elem?, some, Result, ok, panic, slot_after, In, Distinct, if◌then◌else◌,
}
use advanced_group_chat_syst.Pb.{
  LogEntry, RequestVoteRequest, AppendEntriesRequest, AppendEntriesResponse,
}
use advanced_group_chat_syst.Raft.State.{
  is_leader, ConsensusModule, Effect, last_log_index_and_term,
}
use advanced_group_chat_syst.Raft.Vote.{
  TimerResult, election_started, tick_election_timer, request_vote_helper,
}
use advanced_group_chat_syst.Raft.Append.{append_entries_helper}
use advanced_group_chat_syst.Raft.Cluster.{
  Cluster, ClusterStep, local_event, ticked, asked, commanded, entries_sent, answered,
  started_leading, entries_delivered,
}

-- `runs` holds candidate, term and log; `voted` voter, candidate, term and the voter's log; `starts`
-- leader, term and log; `accepted` the server and the request.
pub record History : Type 0 where
  pub runs : List (ℤ × ℤ × List LogEntry)
  pub voted : List (ℤ × ℤ × ℤ × List LogEntry)
  pub starts : List (ℤ × ℤ × List LogEntry)
  pub accepted : List (ℤ × AppendEntriesRequest)

abbrev pub after_timer :
    ℤ → ConsensusModule → TimerResult × ConsensusModule × List Effect → History → History
after_timer i cm (election_started, cm', _) h = record h {
  runs = (i, cm'.current_term, cm.log) ∷ h.runs;
  voted = (i, i, cm'.current_term, cm.log) ∷ h.voted;
}
after_timer i cm (_, cm', _) h = h

abbrev pub after_delivery :
    ℤ
    → AppendEntriesRequest
    → Result (ConsensusModule × AppendEntriesResponse × List Effect)
    → History
    → History
after_delivery p req panic h = h
after_delivery p req (ok (cm, reply, es)) h = record h {
  accepted = if reply.success then (p, req) ∷ h.accepted else h.accepted;
}

-- A server that starts to lead.
abbrev pub after_first : ℤ → Cluster → History → History
after_first c s h = record h { starts = (c, (s.node c).current_term, (s.node c).log) ∷ h.starts }

-- What a step adds to the history.
abbrev pub after :
    {members : List ℤ} {s s' : Cluster} → ClusterStep members s s' → History → History
after {s = s} (ticked i timeout now started _) h =
    after_timer i (s.node i) (tick_election_timer timeout now started (s.node i)) h
after {s = s} (asked p now req _ _ _) h = record h {
  voted =
      if (request_vote_helper now req (s.node p)).1.vote_granted
      then (p, req.candidate_id, req.term, (s.node p).log) ∷ h.voted
      else h.voted;
}
after {s = s} (started_leading c _ _ _) h =
    if is_leader (s.node c).state then h else after_first c s h
after {s = s} (entries_delivered p now req cm _ _ _) h =
    after_delivery p req (append_entries_helper now req (s.node p)) h
after _ h = h

-- A request for a vote that bears the last index and term of the log with which the candidate ran.
abbrev pub IsHonest :
    {members : List ℤ} {s s' : Cluster} → ClusterStep members s s' → History → Type 0
IsHonest (asked p now req _ _ _) h =
    (log : List LogEntry) × In (req.candidate_id, req.term, log) h.runs
    × (last_log_index_and_term log ≡ (req.last_log_index, req.last_log_term))
IsHonest _ h = Unit {0}

-- Server `q` has held the first `n` entries of the log of the leader of term `t`: it has accepted a
-- request of the term that reached so far, or it is the leader.
abbrev pub Stored : Cluster → History → ℤ → ℤ → ℕ → Type 0
Stored s h q t n =
    ((req : AppendEntriesRequest) × In (q, req) h.accepted
      × (req.term ≡ t)
      × ((k : ℕ) × (slot_after req.prev_log_index ≡ ok k) × (n ≤ k + length req.entries)))
    ⊎ (In (q, t) s.led × (n ≤ length (s.leader_log t)))

-- A leader of a term after `t`, and up to `b`, has started without the first `n` entries of the log
-- of the leader of `t`.
abbrev pub Deviant : Cluster → History → ℤ → ℕ → ℤ → Type 0
Deviant s h t n b =
    (w u : ℤ) × (log : List LogEntry) × In (w, u, log) h.starts
    × (t <ℤ u)
    × (u ≤ℤ b)
    × (take n log ≡ take n (s.leader_log t) → ⊥)

abbrev pub Has : Cluster → History → ℤ → ℕ → ℤ → List LogEntry → Type 0
Has s h t n b log = (take n log ≡ take n (s.leader_log t)) ⊎ Deviant s h t n b

-- The first log is at least as recent as the second, by the rule for votes.
abbrev pub Recent : List LogEntry → List LogEntry → Type 0
Recent c v =
    ((last_log_index_and_term v).1 <ℤ (last_log_index_and_term c).1)
    ⊎ (((last_log_index_and_term c).1 ≡ (last_log_index_and_term v).1)
        × ((last_log_index_and_term v).0 ≤ℤ (last_log_index_and_term c).0))
