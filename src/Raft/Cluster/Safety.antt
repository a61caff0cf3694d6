-- ===== src/Raft/Cluster/Safety.antt =====
-- Election safety: a term has at most one leader.
use advanced_group_chat_syst.Base.{
  length, ok, ◌<◌, ◌^◌, ◌∙◌, ℤ, minus_one, Bool, true, ◌≡◌, subst, sym, List, Bool-cases, inl, inr,
  [], In, Distinct, arith,
}
use advanced_group_chat_syst.Pb.{AppendEntriesRequest}
use advanced_group_chat_syst.Raft.Vote.{start_leader}
use advanced_group_chat_syst.Raft.Leader.{append_request}
use advanced_group_chat_syst.Raft.Leader.Request.{Requested-from}
use advanced_group_chat_syst.Raft.State.{
  read, ConsensusModule, Persisted, is_leader, new_consensus_module,
}
use advanced_group_chat_syst.Raft.Cluster.{
  Cluster, ClusterStep, local_event, ticked, asked, commanded, entries_sent, answered,
  started_leading, entries_delivered, IsOrderly, OrderlyRun, others, initial, set_node,
  after_command,
}
use advanced_group_chat_syst.Raft.Cluster.Plain.{
  is_settled, local-Plain, command-Plain, again-Plain,
}
use advanced_group_chat_syst.Raft.Cluster.Invariant.{
  Won, Fair-new, NodeInv, Inv, Inv-Plain, Inv-history, Inv-sent,
}
use advanced_group_chat_syst.Raft.Cluster.Voting.{ticked-Inv}
use advanced_group_chat_syst.Raft.Cluster.Asking.{asked-Inv}
use advanced_group_chat_syst.Raft.Cluster.Leading.{answered-Inv}
use advanced_group_chat_syst.Raft.Cluster.Starting.{started-Inv, delivered-Inv}

new_module :
    (id : ℤ) (peers : List ℤ) (found : Bool) (stored : Persisted)
    → let cm = new_consensus_module id peers found stored in
      (cm.id ≡ id) × (cm.peer_ids ≡ peers) × (is_settled cm.state ≡ true)
unfolding new_consensus_module
new_module id peers found stored = ground arith

pub initial-Inv :
    (members : List ℤ) (found : ℤ → Bool) (stored : ℤ → Persisted)
    → Inv members (initial members found stored)
initial-Inv members found stored = record {
  nodes = λ i. initial-NodeInv i;
  known = λ q c t h. absurd h;
  fair = λ c t. Fair-new members [] c t;
  wins = λ c t h. absurd h;
  mail = λ req h. absurd h;
  unique = λ c c' t h h'. absurd h;
}
  where
    initial-NodeInv :
        (i : ℤ)
        → NodeInv members
            (initial members found stored)
            i
            (new_consensus_module i (others i members) (found i) (stored i))
    initial-NodeInv i =
        let (id, peers, settled) = new_module i (others i members) (found i) (stored i) in
        record {
          is_id = id;
          peers = peers;
          own = λ h. absurd (ground (arith, settled));
          ran = λ h. absurd (ground (arith, settled));
          firm = λ c t h. absurd h;
          twice = λ c c' t h h'. absurd h;
          leads = λ h. absurd (ground (arith, settled));
        }

sender :
    (peer saved : ℤ) (cm : ConsensusModule) (req : AppendEntriesRequest)
    → length cm.log < 2 ^ 63
    → append_request peer saved cm ≡ ok req
    → (req.leader_id ≡ cm.id) × (req.term ≡ saved)
unfolding append_request
sender peer saved cm req fits h =
    let (n, at, r) = Requested-from (read cm.next_index peer) saved cm req fits h in
    (r.leader, r.term)

module _ (members : List ℤ) (distinct : Distinct members) (real : In minus_one members → ⊥) where
  pub step-Inv :
      (s s' : Cluster) (st : ClusterStep members s s')
      → IsOrderly st
      → Inv members s
      → Inv members s'
  step-Inv s s' (local_event i e cm l h) _ inv =
      Inv-Plain members s i cm (local-Plain e (s.node i) cm l h) inv
  step-Inv s s' (ticked i timeout now started m) (r, room) inv =
      ticked-Inv members s i timeout now started m r room inv
  step-Inv s s' (asked p now req m apart runs) _ inv =
      asked-Inv members s p now req real m apart runs inv
  step-Inv s s' (answered c p t now reply m apart ran new vote) timely inv =
      answered-Inv members s c p t now reply distinct m apart ran timely new vote inv
  step-Inv s s' (started_leading c t m won) (role, timely) inv =
      elim (Bool-cases (is_leader (s.node c).state)) [
        | inl leads ↦
            rw leads
              (Inv-Plain members s c (start_leader (s.node c)).0 (again-Plain (s.node c) leads) inv)
        | inr not_yet ↦ rw not_yet (
            started-Inv members s c (ground (arith, role, not_yet)) inv
              (subst (Won members s.votes c) timely ((inv.fair c t).ready won)))
      ]
  step-Inv s s' (entries_delivered p now req cm apart led h) _ inv =
      delivered-Inv members s p now req cm apart (inv.mail req led) h inv
  step-Inv s s' (commanded i e cm l h) _ inv =
      Inv-history members (set_node i cm s) (after_command i cm s).leader_log
        (Inv-Plain members s i cm (command-Plain e (s.node i) cm l h) inv)
  step-Inv s s' (entries_sent l peer saved req led h) (lead, timely, fits) inv =
      let (from, in_term) = sender peer saved (s.node l) req fits h in
      Inv-sent members s req
        (subst (λ x. In (x, req.term) s.led) (sym (from ∙ (inv.nodes l).is_id))
          (subst (λ x. In (l, x) s.led) (sym in_term) led))
        inv

  pub run-Inv : (s s' : Cluster) → OrderlyRun members s s' → Inv members s → Inv members s'
  run-Inv s s' OrderlyRun.done inv = inv
  run-Inv s s' (OrderlyRun.then {s' = t} r st orderly) inv =
      step-Inv t s' st orderly (run-Inv s t r inv)

  -- Election safety, for servers with distinct ids other than -1 and whatever their disks hold: in
  -- every state that they reach from their start by orderly steps (`IsOrderly`: startLeader runs
  -- in the term that was won and not in a follower, a request is made by a server that still
  -- leads in the saved term, a reply to a vote request does not set a candidate back, and terms
  -- and lengths do not overflow), two servers that are leaders in the same term are the same.
  pub election_safety :
      (found : ℤ → Bool) (stored : ℤ → Persisted) (s : Cluster)
      → OrderlyRun members (initial members found stored) s
      → (a b : ℤ) → is_leader (s.node a).state ≡ true
      → is_leader (s.node b).state ≡ true
      → (s.node a).current_term ≡ (s.node b).current_term
      → a ≡ b
  election_safety found stored s run a b la lb same =
      let inv = run-Inv (initial members found stored) s run (initial-Inv members found stored) in
      inv.unique a b (s.node b).current_term
        (subst (λ t. In (a, t) s.led) same ((inv.nodes a).leads la)) ((inv.nodes b).leads lb)
