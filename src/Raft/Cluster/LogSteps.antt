-- ===== src/Raft/Cluster/LogSteps.antt =====
-- The steps that keep all logs keep what holds of the logs of a cluster, and so do entries that reach
-- a server.
use advanced_group_chat_syst.Base.{
  ℕ, ℤ, ltb_ℤ, eq_of_parts, true, ◌≡◌, inl, inr, sym, ap, ◌∙◌, subst, List, drop, Bool-cases, In,
  ok, arith,
}
use advanced_group_chat_syst.Pb.{AppendEntriesRequest}
use advanced_group_chat_syst.Raft.State.{ConsensusModule, is_leader, int_eq}
use advanced_group_chat_syst.Raft.Append.Accepted.{Accepted, HasPrev}
use advanced_group_chat_syst.Raft.Append.Merge.{merged}
use advanced_group_chat_syst.Raft.System.{entries_received, step}
use advanced_group_chat_syst.Raft.Cluster.{Count, Cluster, update, set_node}
use advanced_group_chat_syst.Raft.Cluster.Invariant.{update_all}
use advanced_group_chat_syst.Raft.Cluster.Logs.{
  FromLeaders, HasLed, LogInv, FromLeaders-LogMatching,
}
use advanced_group_chat_syst.Raft.Cluster.LogEvents.{
  KeepsPlace, received-KeepsPlace, received-cases, merged-cases,
}

HasLed-KeepsPlace :
    (cm cm' : ConsensusModule) (t : ℤ) → KeepsPlace cm cm' → HasLed cm t → HasLed cm' t
HasLed-KeepsPlace cm cm' t k (inl past) = inl (omega (arith, k.grows))
HasLed-KeepsPlace cm cm' t k (inr (at, idle)) =
    elim (Bool-cases (ltb_ℤ cm.current_term cm'.current_term)) [
      | inl later ↦ inl (ground arith)
      | inr still ↦
          let same : cm'.current_term ≡ cm.current_term =
            eq_of_parts cm'.current_term cm.current_term (ground (arith, k.grows)) in
          inr (same ∙ at, k.none_new same idle)
    ]

-- A server has moved on; its log is made of the leaders' logs, and stays if the server leads. Votes and
-- counts do not matter.
pub LogInv-moved :
    (s : Cluster) (q : ℤ) (cm : ConsensusModule) (counted : ℤ → ℤ → Count)
    (votes : List (ℤ × ℤ × ℤ))
    → KeepsPlace (s.node q) cm
    → FromLeaders s.led s.leader_log cm.log
    → (is_leader cm.state ≡ true → cm.log ≡ (s.node q).log)
    → LogInv s
    → LogInv (record s { node = update q cm s.node; counted = counted; votes = votes })
LogInv-moved s q cm counted votes k from stays inv = record {
  logs =
      update_all (λ i m. FromLeaders s.led s.leader_log m.log) q cm s.node from
        (λ i other. inv.logs i);
  led_logs = inv.led_logs;
  leading =
      update_all (λ i m. is_leader m.state ≡ true → m.log ≡ s.leader_log m.current_term) q cm s.node
        (λ leads.
          let (led, same) = k.leads_on leads in
          stays leads ∙ inv.leading q led ∙ ap s.leader_log (sym same))
        (λ i other. inv.leading i);
  past = λ c.
      update_all (λ i m. (t : ℤ) → In (i, t) s.led → HasLed m t) q cm s.node
        (λ t led. HasLed-KeepsPlace (s.node q) cm t k (inv.past q t led))
        (λ i other t led. inv.past i t led) c;
  mail = inv.mail;
}

-- A server whose log stays.
pub LogInv-quiet :
    (s : Cluster) (q : ℤ) (cm : ConsensusModule) (counted : ℤ → ℤ → Count)
    (votes : List (ℤ × ℤ × ℤ))
    → KeepsPlace (s.node q) cm × (cm.log ≡ (s.node q).log)
    → LogInv s
    → LogInv (record s { node = update q cm s.node; counted = counted; votes = votes })
LogInv-quiet s q cm counted votes (k, same) inv =
    LogInv-moved s q cm counted votes k
      (subst (FromLeaders s.led s.leader_log) (sym same) (inv.logs q)) (λ leads. same) inv

module _ (s : Cluster) (inv : LogInv s) (p : ℤ) (now : ℕ) (req : AppendEntriesRequest)
    (cm : ConsensusModule) (sent : In req s.sent) where
  -- An accepted request leaves the log as it was, or makes it the beginning of the leader's log that
  -- the request was made from.
  accepted_from : Accepted req (s.node p) cm → FromLeaders s.led s.leader_log cm.log
  accepted_from a =
      let old = (s.node p).log in
      let (log, n, begins, from, starts, entries) = inv.mail req sent in
      let same : a.start ≡ n = cc (a.starts.0, starts.0) in
      let here : HasPrev n req.prev_log_term old =
        subst (λ k. HasPrev k req.prev_log_term old) same a.starts.2 in
      let new : cm.log ≡ merged n old (drop n log) =
        a.log ∙ ap (λ k. merged k old req.entries) same ∙ ap (merged n old) entries in
      elim (merged-cases n req.prev_log_term old log
        (FromLeaders-LogMatching s.led s.leader_log old log (inv.logs p) from) here starts.2) [
          | inl stays ↦ subst (FromLeaders s.led s.leader_log) (sym (new ∙ stays)) (inv.logs p)
          | inr sender ↦ subst (FromLeaders s.led s.leader_log) (sym (new ∙ sender)) from
        ]

  pub delivered-LogInv :
      step (entries_received now req) (s.node p) ≡ ok cm → LogInv (set_node p cm s)
  delivered-LogInv h =
      let k = received-KeepsPlace now req (s.node p) cm h in
      elim (received-cases now req (s.node p) cm h) [
        | inl same ↦ LogInv-quiet s p cm s.counted s.votes (k, same) inv
        | inr a ↦
            LogInv-moved s p cm s.counted s.votes k (accepted_from a)
              (λ leads. absurd (ground (arith, a.is_follower_now))) inv
      ]
