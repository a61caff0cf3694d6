-- ===== src/Raft/Cluster/Counts.antt =====
-- The counters of votes in a cluster.
use advanced_group_chat_syst.Base.{
  ◌≤◌, ℤ, minus_one, Bool, refl, sym, subst, inl, inr, List, ◌∷◌, length, In, Distinct,
  length-le_of_Within,
}
use advanced_group_chat_syst.Raft.State.{Persisted, int_eq}
use advanced_group_chat_syst.Raft.Cluster.{Cluster, OrderlyRun, initial}
use advanced_group_chat_syst.Raft.Cluster.Safety.{initial-Inv, run-Inv}

-- For servers with distinct ids other than -1, in every state that they reach by orderly steps
-- (`IsOrderly`) from their start, in which each peer's reply to an election is handled at most
-- once as its goroutine does: the counter votesReceived of a member's election, as the handler of
-- replies returned it last, is at most the number of the servers.
pub counter_bounded :
    (members : List ℤ)
    → Distinct members
    → (In minus_one members → ⊥)
    → (found : ℤ → Bool) (stored : ℤ → Persisted) (s : Cluster)
    → OrderlyRun members (initial members found stored) s
    → (c t : ℤ) → In c members
    → (s.counted c t).received ≤ length members
counter_bounded members distinct real found stored s run c t member =
    let inv =
      run-Inv members distinct real (initial members found stored) s run
        (initial-Inv members found stored) in
    let f = inv.fair c t in
    subst (λ n. n ≤ length members) (sym f.sum)
      (length-le_of_Within (c ∷ (s.counted c t).peers) members (λ h. (f.tally c h).1 refl, f.alone)
        (λ q h. elim h [
          | inl same ↦ subst (λ x. In x members) (sym same) member
          | inr counted ↦ (f.tally q counted).0
        ]))
