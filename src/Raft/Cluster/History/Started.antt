-- ===== src/Raft/Cluster/History/Started.antt =====
-- A server that starts to lead keeps what a history records.
use advanced_group_chat_syst.Base.{
  ℕ, ◌≤◌, ℤ, beq_ℤ_iff, ◌<ℤ◌, ◌≤ℤ◌, true, ◌≡◌, ◌⊎◌, inl, inr, refl, sym, ap, ◌∙◌, subst, List, [],
  ◌∷◌, ◌++◌, length, take, append-nil, get_elem?, some, In, Bool-cases, arith, eq_of_parts, ltb_ℤ,
}
use advanced_group_chat_syst.Pb.{LogEntry}
use advanced_group_chat_syst.Raft.State.{is_candidate}
use advanced_group_chat_syst.Raft.Vote.{start_leader}
use advanced_group_chat_syst.Raft.Cluster.{Cluster, set_log, first_start}
use advanced_group_chat_syst.Raft.Cluster.Invariant.{Inv, update_all, Won}
use advanced_group_chat_syst.Raft.Cluster.Starting.{first, unsettled}
use advanced_group_chat_syst.Raft.Cluster.Logs.{LogInv}
use advanced_group_chat_syst.Raft.Cluster.LogGrowth.{set_log_cases}
use advanced_group_chat_syst.Raft.Cluster.History.{History, Stored, Has, Recent}
use advanced_group_chat_syst.Raft.Cluster.History.Complete.{Elector}
use advanced_group_chat_syst.Raft.Cluster.History.Kept.{
  HistInv, Later, StartFact, Has-later, vote_later, run_later, start_later, from_later, same_prefix,
}
use advanced_group_chat_syst.Raft.Cluster.History.Quiet.{runs_now_before, terms_grow}

module _ (members : List ℤ) (s : Cluster) (h : History) (inv : Inv members s) (logs : LogInv s)
    (hist : HistInv members s h) (c : ℤ) (runs : is_candidate (s.node c).state ≡ true)
    (victory : Won members s.votes c (s.node c).current_term) where
  abbrev T : ℤ
  T = (s.node c).current_term

  abbrev log : List LogEntry
  log = (s.node c).log

  abbrev s' : Cluster
  s' = first_start c s

  abbrev h' : History
  h' = record h { starts = (c, T, log) ∷ h.starts }

  none_before : (l : ℤ) → In (l, T) s.led → ⊥
  none_before l led =
      let it : l ≡ c = first members s c runs inv victory l led in
      elim (logs.past c T (subst (λ x. In (x, T) s.led) it led)) [
        | inl past ↦ omega (arith, past)
        | inr (at, idle) ↦ ground (arith, runs, idle)
      ]

  start_back : (q t : ℤ) (n : ℕ) → Stored s' h' q t n → Stored s h q t n ⊎ ((q ≡ c) × (t ≡ T))
  start_back q t n (inl acc) = inl (inl acc)
  start_back q t n (inr (inl new, room)) = inr (ap (λ l. l.0) new, ap (λ l. l.1) new)
  start_back q t n (inr (inr led, room)) =
      set_log_cases (λ u l. In (q, u) s.led → n ≤ length l → Stored s h q u n ⊎ ((q ≡ c) × (u ≡ T)))
        T log s.leader_log (λ led' room'. absurd (none_before q led'))
        (λ u other led' room'. inl (inr (led', room'))) t led room

  start-Later : Later s s' h h'
  unfolding start_leader
  start-Later = record {
    led_more = λ l k. inr k;
    starts_more = λ l k. inr k;
    runs_more = λ l k. k;
    grown = λ l u k.
        set_log_cases
          (λ v new_log.
            In (l, v) s.led → (rest : List LogEntry) × (new_log ≡ s.leader_log v ++ rest))
          T log s.leader_log (λ led. absurd (none_before l led))
          (λ v other led. ([], sym (append-nil (s.leader_log v)))) u k;
    terms = terms_grow s c (start_leader (s.node c)).0 (omega arith);
    back = λ q t n stored lt. elim (start_back q t n stored) [
      | inl before ↦ before
      | inr (it, now) ↦
          let lt' = subst (λ x. t <ℤ (s.node x).current_term) it lt in
          let lt2 = subst (λ x. x <ℤ (s.node c).current_term) now lt' in absurd (omega (arith, lt2))
    ];
  }

  -- The log with which the candidate ran is the one that it has.
  ran_with : (run : List LogEntry) → In (c, T, run) h.runs → log ≡ run
  ran_with run i = hist.runs_now c T run i refl runs

  below : (k : ℕ) (e : LogEntry) → get_elem? log k ≡ some e → e.term <ℤ T
  below k e found =
      let (v, voted) = hist.logged c c T ((inv.nodes c).ran (unsettled members s c runs inv)) in
      let (old, from, (run, ran, recent), had) = hist.vote c c T v voted in
      let (_, _, lower) = hist.run c T run ran in
      lower k e (ap (λ l. get_elem? l k) (sym (ran_with run ran)) ∙ found)

  elector : (q : ℤ) → In (q, c, T) s.votes → Elector members s' h' q T log
  elector q vote =
      let (v, voted) = hist.logged q c T vote in
      let (old, from, (run, ran, recent), had) = hist.vote q c T v voted in
      (
        omega (arith, start-Later.terms q, old),
        (
          v,
          from_later members s s' h h' inv logs hist start-Later v from,
          subst (λ l. Recent l v) (sym (ran_with run ran)) recent,
          λ t n stored lt.
              let before = start-Later.back q t n stored (omega (arith, old, lt)) in
              elim (had t n before lt) [
                | inl same ↦
                    inl
                      (same ∙ same_prefix members s s' h h' inv logs hist start-Later q t n before)
                | inr (w, u, l, i, lt', within, other) ↦ inr (
                  w,
                  u,
                  l,
                  inr i,
                  lt',
                  strictly w u l i within,
                  λ e. other (
                      e
                      ∙ sym (same_prefix members s s' h h' inv logs hist start-Later q t n before)),
                )
              ],
        ),
      )
    where
      strictly :
          (w u : ℤ) (l : List LogEntry)
          → In (w, u, l) h.starts
          → u ≤ℤ (s.node c).current_term
          → u <ℤ (s.node c).current_term
      strictly w u l i within = elim (Bool-cases (ltb_ℤ u (s.node c).current_term)) [
        | inl before ↦ ground (arith, before)
        | inr not_before ↦
            let e : u ≡ (s.node c).current_term =
              eq_of_parts u (s.node c).current_term (ground (arith, not_before, within)) in
            absurd (none_before w (subst (λ x. In (w, x) s.led) e (hist.start w u l i).0))
      ]

  start_fact : StartFact members s' h' c T log
  start_fact =
      let (voters, each_once, each, most) = victory in
      (
        inl refl,
        from_later members s s' h h' inv logs hist start-Later log (logs.logs c),
        below,
        ([], at ∙ sym (append-nil log)),
        (voters, each_once, (λ q i. let (m, vote) = each q i in (m, elector q vote)), most),
      )
    where
      at :
          set_log (s.node c).current_term (s.node c).log s.leader_log (s.node c).current_term
          ≡ (s.node c).log
      at = rw ((beq_ℤ_iff (s.node c).current_term (s.node c).current_term).1 refl) refl

  start_kept :
      (q t : ℤ) (n : ℕ) → Stored s' h' q t n → Has s' h' t n (s.node q).current_term (s.node q).log
  start_kept q t n stored = elim (start_back q t n stored) [
    | inl before ↦
        Has-later members s s' h h' inv logs hist start-Later q t n (s.node q).current_term
          (s.node q).current_term (s.node q).log before (omega arith) (hist.kept q t n before)
    | inr (it, now) ↦
        inl (ap (λ x. take n (s.node x).log) it ∙ ap (take n) (sym (ap s'.leader_log now ∙ at)))
  ]
    where
      at :
          set_log (s.node c).current_term (s.node c).log s.leader_log (s.node c).current_term
          ≡ (s.node c).log
      at = rw ((beq_ℤ_iff (s.node c).current_term (s.node c).current_term).1 refl) refl

  pub started-HistInv : HistInv members s' h'
  unfolding start_leader
  started-HistInv = record {
    bounded = λ t.
        set_log_cases (λ u l. (k : ℕ) (e : LogEntry) → get_elem? l k ≡ some e → e.term ≤ℤ u) T log
          s.leader_log (hist.node_bound c) (λ u other. hist.bounded u) t;
    node_bound = λ j.
        update_all
          (λ j m. (k : ℕ) (e : LogEntry) → get_elem? m.log k ≡ some e → e.term ≤ℤ m.current_term) c
          (start_leader (s.node c)).0 s.node (hist.node_bound c) (λ j other. hist.node_bound j) j;
    run = λ d u l k. run_later members s s' h h' inv logs hist start-Later d u l (hist.run d u l k);
    runs_now =
        runs_now_before s c (start_leader (s.node c)).0 h.runs
          (λ cand. absurd (ground (arith, cand))) hist.runs_now;
    vote = λ q d u v k.
        vote_later members s s' h h' inv logs hist start-Later q d u v (hist.vote q d u v k);
    logged = hist.logged;
    kept = λ q.
        update_all
          (λ j m. (t : ℤ) (n : ℕ) → Stored s' h' j t n → Has s' h' t n m.current_term m.log) c
          (start_leader (s.node c)).0 s.node (start_kept c) (λ j other. start_kept j) q;
    acked = λ q r k.
        let (there, term) = hist.acked q r k in (there, omega (arith, start-Later.terms q, term));
    start = λ w u l k. elim k [
      | inl new ↦ subst (λ x. StartFact members s' h' x.0 x.1 x.2) (sym new) start_fact
      | inr old ↦
          start_later members s s' h h' inv logs hist start-Later w u l (hist.start w u l old)
    ];
    started = λ w u k. elim k [
      | inl new ↦ (log, inl (ap (λ x. (x.0, x.1, (s.node c).log)) new))
      | inr old ↦ let (l, there) = hist.started w u old in (l, inr there)
    ];
  }
