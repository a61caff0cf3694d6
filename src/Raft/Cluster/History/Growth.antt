-- ===== src/Raft/Cluster/History/Growth.antt =====
-- Commands, new leaders and requests keep what a history records.
use advanced_group_chat_syst.Base.{
  ℕ, ◌≤◌, ℤ, beq_ℤ_iff, ◌<ℤ◌, ◌≤ℤ◌, true, false, ◌≡◌, ◌≢◌, ◌⊎◌, inl, inr, refl, sym, ap, ◌∙◌, subst,
  List, [], ◌∷◌, ◌++◌, length, take, append-nil, get_elem?, get_elem?-append, some, length-take,
  take-append, In, Bool-cases, arith,
}
use advanced_group_chat_syst.Pb.{LogEntry, AppendEntriesRequest}
use advanced_group_chat_syst.Raft.State.{ConsensusModule, is_candidate, is_leader}
use advanced_group_chat_syst.Raft.Cluster.{Cluster, update, set_log, after_command}
use advanced_group_chat_syst.Raft.Cluster.Invariant.{Inv, update_all}
use advanced_group_chat_syst.Raft.Cluster.Logs.{LogInv}
use advanced_group_chat_syst.Raft.Cluster.LogEvents.{CommandTaken}
use advanced_group_chat_syst.Raft.Cluster.LogGrowth.{set_log_cases, added}
use advanced_group_chat_syst.Raft.Cluster.History.{History, Stored, Has}
use advanced_group_chat_syst.Raft.Cluster.History.Kept.{
  HistInv, Later, Stored-fits, Has-later, vote_later, run_later, start_later,
}
use advanced_group_chat_syst.Raft.Cluster.History.Quiet.{runs_now_before, quiet-HistInv, terms_grow}

pub sent-HistInv :
    (members : List ℤ) (s : Cluster) (h : History) (req : AppendEntriesRequest)
    → HistInv members s h
    → HistInv members (record s { sent = req ∷ s.sent }) h
sent-HistInv members s h req hist = record {
  bounded = hist.bounded;
  node_bound = hist.node_bound;
  run = hist.run;
  runs_now = hist.runs_now;
  vote = hist.vote;
  logged = hist.logged;
  kept = hist.kept;
  start = hist.start;
  started = hist.started;
  acked = λ q r k. let (there, term) = hist.acked q r k in (inr there, term);
}

module _ (members : List ℤ) (s : Cluster) (h : History) (inv : Inv members s) (logs : LogInv s)
    (hist : HistInv members s h) where
  -- A leader whose log is longer by entries of its term.
  module _ (i : ℤ) (cm : ConsensusModule) (leads : is_leader (s.node i).state ≡ true)
      (taken : CommandTaken (s.node i) cm) where
    abbrev T : ℤ
    T = (s.node i).current_term

    abbrev commanded : Cluster
    commanded = record s {
      node = update i cm s.node;
      leader_log = set_log cm.current_term cm.log s.leader_log;
    }

    more :
        (more : List LogEntry) × (cm.log ≡ (s.node i).log ++ more)
        × ((k : ℕ) (e : LogEntry) → get_elem? more k ≡ some e → e.term ≡ cm.current_term)
    more = added members s i cm inv logs taken leads

    led_here : In (i, cm.current_term) s.led
    led_here = subst (λ t. In (i, t) s.led) (sym taken.0) ((inv.nodes i).leads leads)

    was : s.leader_log cm.current_term ≡ (s.node i).log
    was = ap s.leader_log taken.0 ∙ sym (logs.leading i leads)

    command_back :
        (q t : ℤ) (n : ℕ)
        → Stored commanded h q t n
        → Stored s h q t n ⊎ ((q ≡ i) × (t ≡ cm.current_term))
    command_back q t n (inl acc) = inl (inl acc)
    command_back q t n (inr (led, room)) =
        set_log_cases
          (λ u l.
            In (q, u) s.led → n ≤ length l → Stored s h q u n ⊎ ((q ≡ i) × (u ≡ cm.current_term)))
          cm.current_term cm.log s.leader_log
          (λ led' room'. inr (inv.unique q i cm.current_term led' led_here, refl))
          (λ u other led' room'. inl (inr (led', room'))) t led room

    command-Later : Later s commanded h h
    command-Later = record {
      led_more = λ l k. k;
      starts_more = λ l k. k;
      runs_more = λ l k. k;
      grown = λ l u k.
          set_log_cases (λ v new_log. (rest : List LogEntry) × (new_log ≡ s.leader_log v ++ rest))
            cm.current_term cm.log s.leader_log (more.0, more.1 ∙ ap (λ x. x ++ more.0) (sym was))
            (λ v other. ([], sym (append-nil (s.leader_log v)))) u;
      terms = terms_grow s i cm (subst (λ x. T ≤ℤ x) (sym taken.0) (omega arith));
      back = λ q t n stored lt. elim (command_back q t n stored) [
        | inl before ↦ before
        | inr (it, now) ↦
            let lt' = subst (λ x. t <ℤ (s.node x).current_term) it lt in
            let lt2 = subst (λ x. x <ℤ (s.node i).current_term) (now ∙ taken.0) lt' in
            absurd (omega (arith, lt2))
      ];
    }

    longer_bound : (k : ℕ) (e : LogEntry) → get_elem? cm.log k ≡ some e → e.term ≤ℤ cm.current_term
    longer_bound k e found =
        elim (get_elem?-append (s.node i).log more.0 k e
          (ap (λ l. get_elem? l k) (sym more.1) ∙ found)) [
            | inl (inside, before) ↦
                subst (λ x. e.term ≤ℤ x) (sym taken.0) (hist.node_bound i k e before)
            | inr (j, new) ↦ subst (λ x. e.term ≤ℤ x) (more.2 j e new) (omega arith)
          ]

    extended-Has :
        (t : ℤ) (n : ℕ)
        → Stored s h i t n
        → Has commanded h t n cm.current_term (s.node i).log
        → Has commanded h t n cm.current_term cm.log
    extended-Has t n stored (inr deviant) = inr deviant
    extended-Has t n stored (inl same) =
        let (room, (l, led), old) = Stored-fits members s h i t n inv logs hist stored in
        let (rest, longer) = command-Later.grown l t led in
        let same_old : take n (s.leader_log t) ≡ take n (commanded.leader_log t) =
          sym (take-append n (s.leader_log t) rest room) ∙ ap (take n) (sym longer) in
        let inside : n ≤ length (s.node i).log = omega (
          arith,
          ap length (same ∙ sym same_old),
          length-take n (s.node i).log,
          length-take n (s.leader_log t),
          room,
        ) in
        inl (ap (take n) more.1 ∙ take-append n (s.node i).log more.0 inside ∙ same)

    command_kept :
        (t : ℤ) (n : ℕ) → Stored commanded h i t n → Has commanded h t n cm.current_term cm.log
    command_kept t n stored = elim (command_back i t n stored) [
      | inl before ↦ extended-Has t n before (
          Has-later members s commanded h h inv logs hist command-Later i t n T cm.current_term
            (s.node i).log before (subst (λ x. T ≤ℤ x) (sym taken.0) (omega arith))
            (hist.kept i t n before))
      | inr (it, now) ↦ inl (ap (take n) (sym (ap commanded.leader_log now ∙ at)))
    ]
      where
        at : set_log cm.current_term cm.log s.leader_log cm.current_term ≡ cm.log
        at = rw ((beq_ℤ_iff cm.current_term cm.current_term).1 refl) refl

    command_kept_other :
        (q t : ℤ) (n : ℕ)
        → q ≢ i
        → Stored commanded h q t n
        → Has commanded h t n (s.node q).current_term (s.node q).log
    command_kept_other q t n other stored = elim (command_back q t n stored) [
      | inl before ↦
          Has-later members s commanded h h inv logs hist command-Later q t n
            (s.node q).current_term (s.node q).current_term (s.node q).log before (omega arith)
            (hist.kept q t n before)
      | inr (it, now) ↦ absurd (other it)
    ]

    led-HistInv : HistInv members commanded h
    led-HistInv = record {
      bounded = λ t.
          set_log_cases (λ u l. (k : ℕ) (e : LogEntry) → get_elem? l k ≡ some e → e.term ≤ℤ u)
            cm.current_term cm.log s.leader_log longer_bound (λ u other. hist.bounded u) t;
      node_bound = λ j.
          update_all
            (λ j m. (k : ℕ) (e : LogEntry) → get_elem? m.log k ≡ some e → e.term ≤ℤ m.current_term)
            i cm s.node longer_bound (λ j other. hist.node_bound j) j;
      run = λ c u log k.
          run_later members s commanded h h inv logs hist command-Later c u log
            (hist.run c u log k);
      runs_now =
          runs_now_before s i cm h.runs (λ cand. absurd (ground (arith, taken.1, leads, cand)))
            hist.runs_now;
      vote = λ q c u v k.
          vote_later members s commanded h h inv logs hist command-Later q c u v
            (hist.vote q c u v k);
      logged = hist.logged;
      kept = λ q.
          update_all
            (λ j m.
              (t : ℤ) (n : ℕ) → Stored commanded h j t n → Has commanded h t n m.current_term m.log)
            i cm s.node command_kept (λ j other t n. command_kept_other j t n other) q;
      acked = λ q r k.
          let (there, term) = hist.acked q r k in (there, omega (arith, command-Later.terms q));
      start = λ w u log k.
          start_later members s commanded h h inv logs hist command-Later w u log
            (hist.start w u log k);
      started = hist.started;
    }

  pub commanded-HistInv :
      (i : ℤ) (cm : ConsensusModule)
      → CommandTaken (s.node i) cm
      → HistInv members (after_command i cm s) h
  commanded-HistInv i cm taken = elim (Bool-cases (is_leader (s.node i).state)) [
    | inl leads ↦ rw (ap is_leader taken.1 ∙ leads) (led-HistInv i cm leads taken)
    | inr follows ↦ rw (ap is_leader taken.1 ∙ follows) (
        quiet-HistInv members s h i cm s.counted inv logs hist
          (same follows, subst (λ x. (s.node i).current_term ≤ℤ x) (sym taken.0) (omega arith))
          (λ cand. (ap is_candidate (sym taken.1) ∙ cand, taken.0, same follows)))
  ]
    where
      same : is_leader (s.node i).state ≡ false → cm.log ≡ (s.node i).log
      same follows = ground (arith, taken)
