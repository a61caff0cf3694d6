-- ===== src/Raft/Cluster/Logs.antt =====
-- What holds of the logs of a cluster: each is made of beginnings of the leaders' logs.
use advanced_group_chat_syst.Base.{
  ℕ, suc, ◌≤◌, ℤ, ◌<ℤ◌, true, false, ◌≡◌, ◌⊎◌, sym, ap, ◌∙◌, List, ◌++◌, length, take, drop,
  get_elem?, take-append, length-take, lt_of_get_elem?, take-ge, some, In, arith,
}
use advanced_group_chat_syst.Pb.{LogEntry, AppendEntriesRequest}
use advanced_group_chat_syst.Raft.State.{ConsensusModule, is_leader, is_candidate}
use advanced_group_chat_syst.Raft.Append.Accepted.{Start}
use advanced_group_chat_syst.Raft.Leader.Delivery.{LogMatching}
use advanced_group_chat_syst.Raft.Cluster.{Cluster}

-- Up to each entry the log is the beginning of the log of the leader of the entry's term.
abbrev pub FromLeaders : List (ℤ × ℤ) → (ℤ → List LogEntry) → List LogEntry → Type 0
FromLeaders led logs log =
    (k : ℕ) (e : LogEntry)
    → get_elem? log k ≡ some e
    → (take (suc k) log ≡ take (suc k) (logs e.term)) × ((l : ℤ) × In (l, e.term) led)

-- The server is past a term in which it has led, or leads in it or has stepped down.
abbrev pub HasLed : ConsensusModule → ℤ → Type 0
HasLed cm t = (t <ℤ cm.current_term) ⊎ ((cm.current_term ≡ t) × (is_candidate cm.state ≡ false))

-- A request holds the entries of a beginning of the leader's log from some index on.
abbrev pub FromLeader : List (ℤ × ℤ) → (ℤ → List LogEntry) → AppendEntriesRequest → Type 0
FromLeader led logs req =
    (log : List LogEntry) × (n : ℕ) × (log ≡ take (length log) (logs req.term))
    × FromLeaders led logs log
    × Start req log n
    × (req.entries ≡ drop n log)

pub record LogInv (s : Cluster) : Type 0 where
  pub logs : (i : ℤ) → FromLeaders s.led s.leader_log (s.node i).log
  pub led_logs : (l t : ℤ) → In (l, t) s.led → FromLeaders s.led s.leader_log (s.leader_log t)
  pub leading :
      (i : ℤ)
      → is_leader (s.node i).state ≡ true
      → (s.node i).log ≡ s.leader_log (s.node i).current_term
  pub past : (c t : ℤ) → In (c, t) s.led → HasLed (s.node c) t
  pub mail : (req : AppendEntriesRequest) → In req s.sent → FromLeader s.led s.leader_log req

-- The leaders' logs have grown, in the terms that had a leader.
abbrev pub Grown : List (ℤ × ℤ) → (ℤ → List LogEntry) → (ℤ → List LogEntry) → Type 0
Grown led logs logs' =
    (l t : ℤ) → In (l, t) led → (more : List LogEntry) × (logs' t ≡ logs t ++ more)

-- A beginning of a list is a beginning of what follows on it.
pub take_grown :
    (k : ℕ) (xs ys zs : List LogEntry)
    → k ≤ length xs
    → take k xs ≡ take k ys
    → take k xs ≡ take k (ys ++ zs)
take_grown k xs ys zs inside h =
    h ∙ sym (take-append k ys zs (omega (arith, ap length h, length-take k xs, length-take k ys)))

pub FromLeaders-Grown :
    (led led' : List (ℤ × ℤ)) (logs logs' : ℤ → List LogEntry) (log : List LogEntry)
    → ((l : ℤ × ℤ) → In l led → In l led')
    → Grown led logs logs'
    → FromLeaders led logs log
    → FromLeaders led' logs' log
FromLeaders-Grown led led' logs logs' log more grown h k e found =
    let (same, (l, leads)) = h k e found in
    let (zs, longer) = grown l e.term leads in
    (
      take_grown (suc k) log (logs e.term) zs (lt_of_get_elem? log k found) same
          ∙ ap (take (suc k)) (sym longer),
      (l, more (l, e.term) leads),
    )

pub FromLeader-Grown :
    (led led' : List (ℤ × ℤ)) (logs logs' : ℤ → List LogEntry) (req : AppendEntriesRequest)
    → ((l : ℤ × ℤ) → In l led → In l led')
    → Grown led logs logs'
    → In (req.leader_id, req.term) led
    → FromLeader led logs req
    → FromLeader led' logs' req
FromLeader-Grown led led' logs logs' req more grown leads (log, n, begins, from, starts, entries) =
    let (zs, longer) = grown req.leader_id req.term leads in
    (
      log,
      n,
      sym (take-ge (length log) log (omega arith))
          ∙ take_grown (length log) log (logs req.term) zs (omega arith)
              (take-ge (length log) log (omega arith) ∙ begins)
          ∙ ap (take (length log)) (sym longer),
      FromLeaders-Grown led led' logs logs' log more grown from,
      starts,
      entries,
    )

-- Two such logs match.
pub FromLeaders-LogMatching :
    (led : List (ℤ × ℤ)) (logs : ℤ → List LogEntry) (xs ys : List LogEntry)
    → FromLeaders led logs xs
    → FromLeaders led logs ys
    → LogMatching xs ys
FromLeaders-LogMatching led logs xs ys h k i x y fx fy same =
    (h i x fx).0 ∙ ap (λ t. take (suc i) (logs t)) same ∙ sym (k i y fy).0
