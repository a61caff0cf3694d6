-- ===== src/Raft/Cluster/Matching.antt =====
-- Log Matching over a cluster whose servers start with empty logs.
use advanced_group_chat_syst.Base.{
  ℕ, suc, ◌<◌, ◌^◌, ℤ, minus_one, Bool, true, false, Bool-cases, inl, inr, ◌≡◌, subst, List, [],
  ◌∷◌, length, take, get_elem?, some, In, Distinct, ok, if◌then◌else◌, arith,
}
use advanced_group_chat_syst.Pb.{LogEntry, AppendEntriesRequest, AppendEntriesResponse}
use advanced_group_chat_syst.Raft.State.{
  ConsensusModule, Effect, Persisted, is_leader, new_consensus_module,
}
use advanced_group_chat_syst.Raft.Vote.{
  TimerResult, keep_waiting, timer_ended, election_started, tick_election_timer,
  request_vote_helper, vote_reply, start_leader,
}
use advanced_group_chat_syst.Raft.Append.{append_entries_helper}
use advanced_group_chat_syst.Raft.Leader.Delivery.{LogMatching, delivered}
use advanced_group_chat_syst.Raft.Leader.{append_request}
use advanced_group_chat_syst.Raft.Cluster.{
  Cluster, ClusterStep, local_event, ticked, asked, commanded, entries_sent, answered,
  started_leading, entries_delivered, OrderlyRun, others, initial, after_tick, set_counted,
  new_count, reply_count, IsOrderly,
}
use advanced_group_chat_syst.Raft.Cluster.Invariant.{Inv, Won}
use advanced_group_chat_syst.Raft.Cluster.Safety.{initial-Inv, run-Inv}
use advanced_group_chat_syst.Raft.Cluster.Logs.{LogInv, FromLeaders-LogMatching}
use advanced_group_chat_syst.Raft.Cluster.LogEvents.{
  KeepsPlace, local-KeepsPlace, tick-KeepsPlace, request-KeepsPlace, answer-KeepsPlace,
  again-KeepsPlace, command-CommandTaken,
}
use advanced_group_chat_syst.Raft.Cluster.LogSteps.{LogInv-quiet, delivered-LogInv}
use advanced_group_chat_syst.Raft.Cluster.LogGrowth.{commanded-LogInv, started-LogInv, sent-LogInv}

pub started_empty :
    (id : ℤ) (peers : List ℤ) (found : Bool) (stored : Persisted)
    → stored.log ≡ []
    → let cm = new_consensus_module id peers found stored in
      (cm.log ≡ []) × (is_leader cm.state ≡ false)
unfolding new_consensus_module
started_empty id peers found stored h = ground arith

pub initial-LogInv :
    (members : List ℤ) (found : ℤ → Bool) (stored : ℤ → Persisted)
    → ((i : ℤ) → (stored i).log ≡ [])
    → LogInv (initial members found stored)
initial-LogInv members found stored blank =
    let fresh = λ (i : ℤ). started_empty i (others i members) (found i) (stored i) (blank i) in
    record {
      logs = λ i k e h. absurd (
          nothing_in (new_consensus_module i (others i members) (found i) (stored i)).log k e
            (fresh i).0 h);
      led_logs = λ l t h. absurd h;
      leading = λ i h. absurd (ground (arith, (fresh i).1));
      past = λ c t h. absurd h;
      mail = λ req h. absurd h;
    }
  where
    nothing_in :
        (log : List LogEntry) (k : ℕ) (e : LogEntry) → log ≡ [] → get_elem? log k ≡ some e → ⊥
    nothing_in [] k e empty found = ground arith
    nothing_in (x ∷ xs) k e empty found = ground arith

ticked-LogInv :
    (s : Cluster) (i : ℤ) (r : TimerResult × ConsensusModule × List Effect)
    → KeepsPlace (s.node i) r.1 × (r.1.log ≡ (s.node i).log)
    → LogInv s
    → LogInv (after_tick i r s)
ticked-LogInv s i (keep_waiting, cm, es) k logs = LogInv-quiet s i cm s.counted s.votes k logs
ticked-LogInv s i (timer_ended, cm, es) k logs = LogInv-quiet s i cm s.counted s.votes k logs
ticked-LogInv s i (election_started, cm, es) k logs =
    LogInv-quiet s i cm (set_counted i cm.current_term new_count s.counted)
      ((i, i, cm.current_term) ∷ s.votes) k logs

module _ (members : List ℤ) (distinct : Distinct members) (real : In minus_one members → ⊥) where
  pub step-LogInv :
      (s s' : Cluster) (st : ClusterStep members s s')
      → IsOrderly st
      → Inv members s
      → LogInv s
      → LogInv s'
  step-LogInv s s' (local_event i e cm l h) _ inv logs =
      LogInv-quiet s i cm s.counted s.votes (local-KeepsPlace e (s.node i) cm l h) logs
  step-LogInv s s' (commanded i e cm l h) _ inv logs =
      commanded-LogInv members s i cm inv logs (command-CommandTaken e (s.node i) cm l h)
  step-LogInv s s' (ticked i timeout now started m) (r, room) inv logs =
      ticked-LogInv s i (tick_election_timer timeout now started (s.node i))
        (tick-KeepsPlace timeout now started (s.node i) r room) logs
  step-LogInv s s' (asked p now req m apart runs) _ inv logs =
      LogInv-quiet s p (request_vote_helper now req (s.node p)).0 s.counted
        (if (request_vote_helper now req (s.node p)).1.vote_granted
          then (p, req.candidate_id, req.term) ∷ s.votes
          else s.votes)
        (request-KeepsPlace now req (s.node p)) logs
  step-LogInv s s' (answered c p t now reply m apart ran new vote) timely inv logs =
      let n = (s.counted c t).received in
      let r = vote_reply now t reply n (s.node c) in
      LogInv-quiet s c r.0 (set_counted c t (reply_count p r.1 r.2 (s.counted c t)) s.counted)
        s.votes (answer-KeepsPlace now t reply n (s.node c) timely) logs
  step-LogInv s s' (started_leading c t m won) (role, timely) inv logs =
      elim (Bool-cases (is_leader (s.node c).state)) [
        | inl leads ↦ rw leads (
            LogInv-quiet s c (start_leader (s.node c)).0 s.counted s.votes
              (again-KeepsPlace (s.node c) leads) logs)
        | inr not_yet ↦ rw not_yet (
            started-LogInv members s c (ground (arith, role, not_yet))
              (subst (Won members s.votes c) timely ((inv.fair c t).ready won)) inv logs)
      ]
  step-LogInv s s' (entries_sent l peer saved req led h) (leads, timely, fits) inv logs =
      sent-LogInv s l peer saved req leads timely fits h logs
  step-LogInv s s' (entries_delivered p now req cm apart sent h) _ inv logs =
      delivered-LogInv s logs p now req cm sent h

  pub run-LogInv : (s s' : Cluster) → OrderlyRun members s s' → Inv members s → LogInv s → LogInv s'
  run-LogInv s s' OrderlyRun.done inv logs = logs
  run-LogInv s s' (OrderlyRun.then {s' = t} r st orderly) inv logs =
      step-LogInv t s' st orderly (run-Inv members distinct real s t r inv)
        (run-LogInv s t r inv logs)

  module _ (found : ℤ → Bool) (stored : ℤ → Persisted) (s : Cluster)
      (blank : (i : ℤ) → (stored i).log ≡ [])
      (run : OrderlyRun members (initial members found stored) s) where
    reached-LogMatching : (a b : ℤ) → LogMatching (s.node a).log (s.node b).log
    reached-LogMatching a b =
        let start = initial members found stored in
        let logs =
          run-LogInv start s run (initial-Inv members found stored)
            (initial-LogInv members found stored blank) in
        FromLeaders-LogMatching s.led s.leader_log (s.node a).log (s.node b).log (logs.logs a)
          (logs.logs b)

    -- Log Matching, for servers with distinct ids other than -1: in every state that they reach
    -- by orderly steps (`IsOrderly`) from a start with empty logs, whatever terms and votes their
    -- disks hold, two logs with entries of one term at one index are equal up to there.
    pub log_matching :
        (a b : ℤ) (i : ℕ) (x y : LogEntry)
        → get_elem? (s.node a).log i ≡ some x
        → get_elem? (s.node b).log i ≡ some y
        → x.term ≡ y.term
        → take (suc i) (s.node a).log ≡ take (suc i) (s.node b).log
    log_matching a b i x y fx fy same = reached-LogMatching a b i x y fx fy same

    -- For servers with distinct ids other than -1, in every state that they reach by orderly steps
    -- (`IsOrderly`) from a start with empty logs: if the server `b` accepts the request that the
    -- server `a`, with fewer than 2^63 entries, makes for any peer and any term, then `b` holds
    -- the whole log of `a` as the beginning of its own.
    pub replicated :
        (a b peer saved_term : ℤ) (now : ℕ) (req : AppendEntriesRequest) (cm : ConsensusModule)
        (reply : AppendEntriesResponse) (es : List Effect)
        → length (s.node a).log < 2 ^ 63
        → append_request peer saved_term (s.node a) ≡ ok req
        → append_entries_helper now req (s.node b) ≡ ok (cm, reply, es)
        → reply.success ≡ true
        → take (length (s.node a).log) cm.log ≡ (s.node a).log
    replicated a b peer saved_term now req cm reply es fits sent returned success =
        delivered now peer saved_term (s.node a) (s.node b) cm req reply es fits sent returned
          success (reached-LogMatching b a)
