-- ===== src/Raft/Cluster/History/Completeness.antt =====
-- Leader completeness over the runs of a cluster.
use advanced_group_chat_syst.Base.{
  Bool-cases, ℕ, suc, ℤ, pos, minus_one, ◌<ℤ◌, ◌≤ℤ◌, Bool, true, ◌≡◌, ap, ◌∙◌, subst, inl, inr,
  List, [], ◌∷◌, take, get_elem?, some, In, Distinct, arith,
}
use advanced_group_chat_syst.Pb.{LogEntry}
use advanced_group_chat_syst.Raft.State.{Persisted, is_leader, new_consensus_module}
use advanced_group_chat_syst.Raft.Vote.{vote_reply, start_leader}
use advanced_group_chat_syst.Raft.Cluster.{
  Cluster, ClusterStep, local_event, ticked, asked, commanded, entries_sent, answered,
  started_leading, entries_delivered, others, initial, set_counted, reply_count, IsOrderly,
}
use advanced_group_chat_syst.Raft.Cluster.Invariant.{Inv, Won}
use advanced_group_chat_syst.Raft.Cluster.Plain.{local-Plain, answer-Plain, again-Plain}
use advanced_group_chat_syst.Raft.Cluster.Safety.{initial-Inv, step-Inv}
use advanced_group_chat_syst.Raft.Cluster.Logs.{LogInv}
use advanced_group_chat_syst.Raft.Cluster.LogEvents.{
  local-KeepsPlace, again-KeepsPlace, answer-KeepsPlace, command-CommandTaken,
}
use advanced_group_chat_syst.Raft.Cluster.Matching.{initial-LogInv, started_empty, step-LogInv}
use advanced_group_chat_syst.Raft.Cluster.History.{History, IsHonest, after, Stored}
use advanced_group_chat_syst.Raft.Cluster.History.Complete.{Committed, complete, leader_has}
use advanced_group_chat_syst.Raft.Cluster.History.Kept.{HistInv, HistInv-Elections}
use advanced_group_chat_syst.Raft.Cluster.History.Quiet.{Plain-RanBefore, quiet-HistInv}
use advanced_group_chat_syst.Raft.Cluster.History.Votes.{ticked-HistInv, asked-HistInv}
use advanced_group_chat_syst.Raft.Cluster.History.Accepting.{delivered-HistInv}
use advanced_group_chat_syst.Raft.Cluster.History.Growth.{sent-HistInv, commanded-HistInv}
use advanced_group_chat_syst.Raft.Cluster.History.Started.{started-HistInv}

-- A run of orderly steps in which the requests for votes bear the log with which the candidate ran, and its history.
pub data HistoryRun (members : List ℤ) (s : Cluster) : Cluster → History → Type 0 where
  begins : HistoryRun members s s (record { runs = []; voted = []; starts = []; accepted = [] })
  goes_on :
      {s' s'' : Cluster} {h : History}
      → HistoryRun members s s' h
      → (st : ClusterStep members s' s'') → IsOrderly st
      → IsHonest st h
      → HistoryRun members s s'' (after st h)

module _ (members : List ℤ) (distinct : Distinct members) (real : In minus_one members → ⊥) where
  step-HistInv :
      (s s' : Cluster) (h : History) (st : ClusterStep members s s')
      → IsOrderly st
      → IsHonest st h
      → Inv members s
      → LogInv s
      → HistInv members s h
      → HistInv members s' (after st h)
  step-HistInv s s' h (local_event i e cm l st) _ honest inv logs hist =
      let (k, same) = local-KeepsPlace e (s.node i) cm l st in
      quiet-HistInv members s h i cm s.counted inv logs hist (same, k.grows)
        (Plain-RanBefore (s.node i) cm (local-Plain e (s.node i) cm l st) same)
  step-HistInv s s' h (commanded i e cm l st) _ honest inv logs hist =
      commanded-HistInv members s h inv logs hist i cm (command-CommandTaken e (s.node i) cm l st)
  step-HistInv s s' h (ticked i timeout now started m) (range, room) honest inv logs hist =
      ticked-HistInv members s h inv logs hist i timeout now started range room
  step-HistInv s s' h (asked p now req m apart runs) _ honest inv logs hist =
      asked-HistInv members s h inv logs hist p now req honest
  step-HistInv s s' h (answered c p t now reply m apart ran new vote) timely honest inv logs hist =
      let cm = s.node c in
      let n = (s.counted c t).received in
      let (k, same) = answer-KeepsPlace now t reply n cm timely in
      quiet-HistInv members s h c (vote_reply now t reply n cm).0
        (set_counted c t
          (reply_count p (vote_reply now t reply n cm).1 (vote_reply now t reply n cm).2
            (s.counted c t))
          s.counted)
        inv logs hist (same, k.grows)
        (Plain-RanBefore cm (vote_reply now t reply n cm).0 (answer-Plain now t reply n cm timely)
          same)
  step-HistInv s s' h (started_leading c t m won) (role, timely) honest inv logs hist =
      elim (Bool-cases (is_leader (s.node c).state)) [
        | inl leads ↦
            let (k, same) = again-KeepsPlace (s.node c) leads in
            rw leads (
              quiet-HistInv members s h c (start_leader (s.node c)).0 s.counted inv logs hist
                (same, k.grows)
                (Plain-RanBefore (s.node c) (start_leader (s.node c)).0
                  (again-Plain (s.node c) leads) same))
        | inr not_yet ↦ rw not_yet (
            started-HistInv members s h inv logs hist c (ground (arith, role, not_yet))
              (subst (Won members s.votes c) timely ((inv.fair c t).ready won)))
      ]
  step-HistInv s s' h (entries_sent l peer saved req led made) _ honest inv logs hist =
      sent-HistInv members s h req hist
  step-HistInv s s' h (entries_delivered p now req cm apart sent st) _ honest inv logs hist =
      delivered-HistInv members s h inv logs hist p now req cm sent st

  run-HistInv :
      (s s' : Cluster) (h : History)
      → HistoryRun members s s' h
      → Inv members s
      → LogInv s
      → HistInv members s (record { runs = []; voted = []; starts = []; accepted = [] })
      → Inv members s' × LogInv s' × HistInv members s' h
  run-HistInv s s' h begins inv logs hist = (inv, logs, hist)
  run-HistInv s s' h (goes_on {s' = t} {h = g} r st orderly honest) inv logs hist =
      let (inv', logs', hist') = run-HistInv s t g r inv logs hist in
      (
        step-Inv members distinct real t s' st orderly inv',
        step-LogInv members distinct real t s' st orderly inv' logs',
        step-HistInv t s' g st orderly honest inv' logs' hist',
      )

  initial-HistInv :
      (found : ℤ → Bool) (stored : ℤ → Persisted)
      → ((i : ℤ) → (stored i).log ≡ [])
      → HistInv members
          (initial members found stored)
          (record { runs = []; voted = []; starts = []; accepted = [] })
  initial-HistInv found stored blank = record {
    bounded = λ t k e at. absurd (ground (arith, at));
    node_bound = λ i k e at. absurd (
        nothing_in (new_consensus_module i (others i members) (found i) (stored i)).log k e
          (started_empty i (others i members) (found i) (stored i) (blank i)).0 at);
    run = λ c u log i. absurd i;
    runs_now = λ c u log i. absurd i;
    vote = λ q c u v i. absurd i;
    logged = λ q c u i. absurd i;
    kept = λ q t n stored. absurd (nothing_stored q t n stored);
    acked = λ q req i. absurd i;
    start = λ w u log i. absurd i;
    started = λ w u i. absurd i;
  }
    where
      nothing_in :
          (log : List LogEntry) (k : ℕ) (e : LogEntry) → log ≡ [] → get_elem? log k ≡ some e → ⊥
      nothing_in [] k e empty at = ground arith
      nothing_in (x ∷ xs) k e empty at = ground arith

      nothing_stored :
          (q t : ℤ) (n : ℕ)
          → Stored
              (initial members found stored)
              (record { runs = []; voted = []; starts = []; accepted = [] })
              q
              t
              n
          → ⊥
      nothing_stored q t n (inl (req, i, in_term, reach)) = i
      nothing_stored q t n (inr (led, room)) = led

  -- Leader completeness, for servers with distinct ids other than -1, over a run of orderly steps
  -- (`IsOrderly`) from empty logs, in which the requests for votes bear the last index and term
  -- of the log with which the candidate ran (`IsHonest`): if an entry of a
  -- leader's own term, which is not negative, and all before it have been stored by more than
  -- half of the servers in that term, then every server that leads in a later term has them all.
  pub leader_completeness :
      (found : ℤ → Bool) (stored : ℤ → Persisted) (s : Cluster) (h : History)
      → ((i : ℤ) → (stored i).log ≡ [])
      → HistoryRun members (initial members found stored) s h
      → (t : ℤ) (n : ℕ) → pos 0 ≤ℤ t
      → Committed members s h t n
      → (l : ℤ) → is_leader (s.node l).state ≡ true
      → t <ℤ (s.node l).current_term
      → take (suc n) (s.node l).log ≡ take (suc n) (s.leader_log t)
  leader_completeness found stored s h blank run t n real_term c l leads later =
      let (inv, logs, hist) =
        run-HistInv (initial members found stored) s h run (initial-Inv members found stored)
          (initial-LogInv members found stored blank) (initial-HistInv found stored blank) in
      let el = HistInv-Elections members s h hist in
      let u = (s.node l).current_term in
      let (log, starts) = hist.started l u ((inv.nodes l).leads leads) in
      ap (take (suc n)) (logs.leading l leads)
      ∙ leader_has members s h el t n c real_term l u log starts
          (complete members s h el t n c real_term l u log starts later)
