-- ===== src/Raft/Cluster/LogGrowth.antt =====
-- The steps that lengthen the log of a leader, start a leader or send its entries keep what holds of
-- the logs of a cluster.
use advanced_group_chat_syst.Base.{
  ℕ, suc, ◌<◌, ◌^◌, ℤ, ◌<ℤ◌, beq_ℤ, beq_ℤ_iff, true, false, ◌≡◌, ◌≢◌, ◌⊎◌, inl, inr, refl, sym, ap,
  ◌∙◌, subst, List, [], ◌∷◌, ◌++◌, length, take, zero, eq_of_some, append-nil, get_elem?-append,
  take-append, take-ge, get_elem?, some, Bool-cases, In, ok, arith,
}
use advanced_group_chat_syst.Pb.{LogEntry, AppendEntriesRequest}
use advanced_group_chat_syst.Raft.State.{ConsensusModule, read, is_leader, is_candidate}
use advanced_group_chat_syst.Raft.Vote.{start_leader}
use advanced_group_chat_syst.Raft.Leader.{append_request}
use advanced_group_chat_syst.Raft.Leader.Request.{Requested-from}
use advanced_group_chat_syst.Raft.Cluster.{Cluster, update, set_log, after_command, first_start}
use advanced_group_chat_syst.Raft.Cluster.Invariant.{Won, Inv, update_all}
use advanced_group_chat_syst.Raft.Cluster.Starting.{first}
use advanced_group_chat_syst.Raft.Cluster.Logs.{
  FromLeaders, HasLed, FromLeader, LogInv, Grown, FromLeaders-Grown, FromLeader-Grown,
}
use advanced_group_chat_syst.Raft.Cluster.LogEvents.{KeepsPlace, CommandTaken}
use advanced_group_chat_syst.Raft.Cluster.LogSteps.{LogInv-quiet}

pub set_log_cases :
    (P : ℤ → List LogEntry → Type 0) (t : ℤ) (log : List LogEntry) (logs : ℤ → List LogEntry)
    → P t log
    → ((u : ℤ) → u ≢ t → P u (logs u))
    → (u : ℤ) → P u (set_log t log logs u)
set_log_cases P t log logs new old u = elim (Bool-cases (beq_ℤ u t)) [
  | inl same ↦ rw same (subst (λ v. P v log) (sym ((beq_ℤ_iff u t).0 same)) new)
  | inr other ↦ rw other (old u (λ e. ground (arith, beq_ℤ_iff u t)))
]

-- The server `i`, in state `cm`, now holds the log of the leader of its term.
module _ (members : List ℤ) (s : Cluster) (i : ℤ) (cm : ConsensusModule) (led' : List (ℤ × ℤ))
    (inv : Inv members s) (logs : LogInv s) where
  abbrev logs' : ℤ → List LogEntry
  logs' = set_log cm.current_term cm.log s.leader_log

  Grown-LogInv :
      ((l : ℤ × ℤ) → In l s.led → In l led')
      → ((l u : ℤ) → In (l, u) led' → In (l, u) s.led ⊎ ((l ≡ i) × (u ≡ cm.current_term)))
      → Grown s.led s.leader_log logs'
      → FromLeaders led' logs' cm.log
      → ((j : ℤ)
          → j ≢ i
          → is_leader (s.node j).state ≡ true
          → (s.node j).current_term ≢ cm.current_term)
      → ((u : ℤ) → In (i, u) led' → HasLed cm u)
      → LogInv (record s { node = update i cm s.node; led = led'; leader_log = logs' })
  Grown-LogInv more back grown from alone ended = record {
    logs =
        update_all (λ j m. FromLeaders led' logs' m.log) i cm s.node from
          (λ j other.
            FromLeaders-Grown s.led led' s.leader_log logs' (s.node j).log more grown
              (logs.logs j));
    led_logs = λ l u h.
        set_log_cases (λ v log. In (l, v) led' → FromLeaders led' logs' log) cm.current_term cm.log
          s.leader_log (λ h'. from)
          (λ v other h'. elim (back l v h') [
            | inl old ↦
                FromLeaders-Grown s.led led' s.leader_log logs' (s.leader_log v) more grown
                  (logs.led_logs l v old)
            | inr (it, now) ↦ absurd (other now)
          ])
          u h;
    leading =
        update_all (λ j m. is_leader m.state ≡ true → m.log ≡ logs' m.current_term) i cm s.node
          (λ h. rw ((beq_ℤ_iff cm.current_term cm.current_term).1 refl) refl)
          (λ j other h.
            set_log_cases (λ v log. (s.node j).current_term ≡ v → (s.node j).log ≡ log)
              cm.current_term cm.log s.leader_log (λ e. absurd (alone j other h e))
              (λ v _ e. logs.leading j h ∙ ap s.leader_log e) (s.node j).current_term refl);
    past = λ c.
        update_all (λ j m. (u : ℤ) → In (j, u) led' → HasLed m u) i cm s.node ended
          (λ j other u h. elim (back j u h) [
            | inl old ↦ logs.past j u old
            | inr (it, now) ↦ absurd (other it)
          ])
          c;
    mail = λ req h.
        FromLeader-Grown s.led led' s.leader_log logs' req more grown (inv.mail req h)
          (logs.mail req h);
  }

-- The log of a leader, longer by entries of its term.
lengthened-FromLeaders :
    (led : List (ℤ × ℤ)) (logs : ℤ → List LogEntry) (l t : ℤ) (old more : List LogEntry)
    → In (l, t) led
    → logs t ≡ old ++ more
    → ((k : ℕ) (e : LogEntry) → get_elem? more k ≡ some e → e.term ≡ t)
    → FromLeaders led logs old
    → FromLeaders led logs (old ++ more)
lengthened-FromLeaders led logs l t old more leads is each from k e found =
    elim (get_elem?-append old more k e found) [
      | inl (inside, before) ↦
          let (same, leader) = from k e before in
          (take-append (suc k) old more (omega arith) ∙ same, leader)
      | inr (j, after) ↦
          let in_term = each j e after in
          (
            ap (take (suc k)) (sym is) ∙ ap (λ u. take (suc k) (logs u)) (sym in_term),
            (l, subst (λ u. In (l, u) led) (sym in_term) leads),
          )
    ]

module _ (members : List ℤ) (s : Cluster) (i : ℤ) (cm : ConsensusModule) (inv : Inv members s)
    (logs : LogInv s) where
  -- A leader whose log is longer by entries of its term.
  led_command :
      is_leader (s.node i).state ≡ true
      → cm.current_term ≡ (s.node i).current_term
      → cm.state ≡ (s.node i).state
      → (more : List LogEntry)
      → ((k : ℕ) (e : LogEntry) → get_elem? more k ≡ some e → e.term ≡ cm.current_term)
      → cm.log ≡ (s.node i).log ++ more
      → LogInv (record s {
        node = update i cm s.node;
        leader_log = set_log cm.current_term cm.log s.leader_log;
      })
  led_command leads same_term same_state more each longer =
      let log = (s.node i).log in
      let new = set_log cm.current_term cm.log s.leader_log in
      let here : In (i, cm.current_term) s.led =
        subst (λ t. In (i, t) s.led) (sym same_term) ((inv.nodes i).leads leads) in
      let at : new cm.current_term ≡ cm.log =
        rw ((beq_ℤ_iff cm.current_term cm.current_term).1 refl) refl in
      let was : s.leader_log cm.current_term ≡ log =
        ap s.leader_log same_term ∙ sym (logs.leading i leads) in
      let grown : Grown s.led s.leader_log new = λ l u h.
        set_log_cases (λ v new_log. (rest : List LogEntry) × (new_log ≡ s.leader_log v ++ rest))
          cm.current_term cm.log s.leader_log (more, longer ∙ ap (λ x. x ++ more) (sym was))
          (λ v other. ([], sym (append-nil (s.leader_log v)))) u in
      Grown-LogInv members s i cm s.led inv logs (λ l h. h) (λ l u h. inl h) grown
        (subst (FromLeaders s.led new) (sym longer) (
          lengthened-FromLeaders s.led new i cm.current_term log more here (at ∙ longer) each
            (FromLeaders-Grown s.led s.led s.leader_log new log (λ l h. h) grown (logs.logs i))))
        (λ j other leads' e. other (
          inv.unique j i cm.current_term
            (subst (λ t. In (j, t) s.led) e ((inv.nodes j).leads leads')) here))
        (λ u h.
          subst (λ st. (u <ℤ cm.current_term) ⊎ ((cm.current_term ≡ u) × (is_candidate st ≡ false)))
            (sym same_state)
            (subst (λ t. (u <ℤ t) ⊎ ((t ≡ u) × (is_candidate (s.node i).state ≡ false)))
              (sym same_term) (logs.past i u h)))

  one_entry : (c e : LogEntry) (k : ℕ) → get_elem? (c ∷ []) k ≡ some e → e.term ≡ c.term
  one_entry c e zero found = ap (λ (x : LogEntry). x.term) (sym (eq_of_some found))
  one_entry c e (suc k) found = absurd (ground arith)

  pub added :
      CommandTaken (s.node i) cm
      → is_leader (s.node i).state ≡ true
      → (more : List LogEntry) × (cm.log ≡ (s.node i).log ++ more)
        × ((k : ℕ) (e : LogEntry) → get_elem? more k ≡ some e → e.term ≡ cm.current_term)
  added (same_term, same_state, inl same) leads =
      ([], same ∙ sym (append-nil (s.node i).log), λ k e found. absurd (ground arith))
  added (same_term, same_state, inr (_, (c, longer))) leads = (
    record { command = c; term = (s.node i).current_term } ∷ [],
    longer,
    λ k e found.
        one_entry (record { command = c; term = (s.node i).current_term }) e k found
        ∙ sym same_term,
  )

  pub commanded-LogInv : CommandTaken (s.node i) cm → LogInv (after_command i cm s)
  commanded-LogInv taken = elim (Bool-cases (is_leader (s.node i).state)) [
    | inl leads ↦
        let (more, longer, each) = added taken leads in
        rw (ap is_leader taken.1 ∙ leads) (led_command leads taken.0 taken.1 more each longer)
    | inr follows ↦ rw (ap is_leader taken.1 ∙ follows) (
        LogInv-quiet s i cm s.counted s.votes (follower-KeepsPlace follows, ground (arith, taken))
          logs)
  ]
    where
      follower-KeepsPlace : is_leader (s.node i).state ≡ false → KeepsPlace (s.node i) cm
      follower-KeepsPlace follows = record {
        grows = ground (arith, taken);
        leads_on = λ h. absurd (ground (arith, taken));
        none_new = λ _ h. ap is_candidate taken.1 ∙ h;
      }

-- A candidate that its count has made the leader.
pub started-LogInv :
    (members : List ℤ) (s : Cluster) (c : ℤ)
    → is_candidate (s.node c).state ≡ true
    → Won members s.votes c (s.node c).current_term
    → Inv members s
    → LogInv s
    → LogInv (first_start c s)
unfolding start_leader
started-LogInv members s c runs w inv logs =
    let cm = s.node c in
    let t = cm.current_term in
    let new = set_log t cm.log s.leader_log in
    let grown : Grown s.led s.leader_log new = λ l u h.
      set_log_cases
        (λ v log. In (l, v) s.led → (more : List LogEntry) × (log ≡ s.leader_log v ++ more)) t
        cm.log s.leader_log (λ led. absurd (none_before l led))
        (λ v other _. ([], sym (append-nil (s.leader_log v)))) u h in
    Grown-LogInv members s c (start_leader cm).0 ((c, t) ∷ s.led) inv logs (λ l h. inr h)
      (λ l u h. elim h [ inl e ↦ inr (ap (λ p. p.0) e, ap (λ p. p.1) e) | inr old ↦ inl old ]) grown
      (FromLeaders-Grown s.led ((c, t) ∷ s.led) s.leader_log new cm.log (λ l h. inr h) grown
        (logs.logs c))
      (λ j other leads e.
        none_before j (subst (λ u. In (j, u) s.led) e ((inv.nodes j).leads leads)))
      (λ u h. elim h [
        | inl e ↦ inr (sym (ap (λ p. p.1) e), refl)
        | inr old ↦ elim (logs.past c u old) [
          | inl past ↦ inl past
          | inr (at, idle) ↦ inr (at, refl)
        ]
      ])
  where
    none_before : (l : ℤ) → In (l, (s.node c).current_term) s.led → ⊥
    none_before l led =
        let it : l ≡ c = first members s c runs inv w l led in
        elim (logs.past c (s.node c).current_term
          (subst (λ x. In (x, (s.node c).current_term) s.led) it led)) [
            | inl past ↦ omega arith
            | inr (at, idle) ↦ ground arith
          ]

-- Entries that a leader sends.
pub sent-LogInv :
    (s : Cluster) (l peer saved : ℤ) (req : AppendEntriesRequest)
    → is_leader (s.node l).state ≡ true
    → saved ≡ (s.node l).current_term
    → length (s.node l).log < 2 ^ 63
    → append_request peer saved (s.node l) ≡ ok req
    → LogInv s
    → LogInv (record s { sent = req ∷ s.sent })
unfolding append_request
sent-LogInv s l peer saved req leads timely fits made logs =
    let cm = s.node l in
    let (n, at, r) = Requested-from (read cm.next_index peer) saved cm req fits made in
    record {
      logs = logs.logs;
      led_logs = logs.led_logs;
      leading = logs.leading;
      past = logs.past;
      mail = λ q h. elim h [
        | inl e ↦ subst (FromLeader s.led s.leader_log) (sym e) (
          cm.log,
          n,
          sym (take-ge (length cm.log) cm.log (omega arith))
              ∙ ap (take (length cm.log))
                  (logs.leading l leads ∙ ap s.leader_log (sym (r.term ∙ timely))),
          logs.logs l,
          r.starts,
          r.entries,
        )
        | inr old ↦ logs.mail q old
      ];
    }
