-- ===== src/Raft/Cluster/History/Accepting.antt =====
-- Entries that are sent and that reach a server keep what a history records.
use advanced_group_chat_syst.Base.{
  ℕ, zero, suc, ◌+◌, ◌≤◌, ℤ, beq_ℤ, beq_ℤ_iff, eq_of_parts, ◌<ℤ◌, ◌≤ℤ◌, ◌≡◌, ◌≢◌, ◌⊎◌, inl, inr,
  refl, sym, ap, ◌∙◌, subst, List, ◌∷◌, length, take, drop, get_elem?, some, eq_of_some,
  Option-cases, get_elem?-take, get_elem?-drop, get_elem?-of_lt, lt_of_get_elem?, length-take,
  length-drop, take-take, take-append, take-ge, slot_after, ok, In, Bool-cases, if◌then◌else◌,
  arith,
}
use native.Mathlib.Decide.{dec_le}
use advanced_group_chat_syst.Pb.{LogEntry, AppendEntriesRequest}
use advanced_group_chat_syst.Raft.State.{ConsensusModule}
use advanced_group_chat_syst.Raft.Append.{append_entries_helper}
use advanced_group_chat_syst.Raft.Append.Accepted.{Accepted, accepted, Start, HasPrev}
use advanced_group_chat_syst.Raft.Append.Merge.{merged}
use advanced_group_chat_syst.Raft.Append.Replication.{take-merged_agree}
use advanced_group_chat_syst.Raft.Leader.Delivery.{LogMatching, merged-prefix, prefix_of_HasPrev}
use advanced_group_chat_syst.Raft.System.{entries_received, step}
use advanced_group_chat_syst.Raft.Cluster.{Cluster, update, set_node}
use advanced_group_chat_syst.Raft.Cluster.Invariant.{Inv, update_all}
use advanced_group_chat_syst.Raft.Cluster.Plain.{delivered-cases}
use advanced_group_chat_syst.Raft.Cluster.Logs.{FromLeaders, LogInv, FromLeaders-LogMatching}
use advanced_group_chat_syst.Raft.Cluster.LogEvents.{
  received-KeepsPlace, merged-cases, refused_log, handled_by,
}
use advanced_group_chat_syst.Raft.Cluster.History.{History, Stored, Has, after_delivery}
use advanced_group_chat_syst.Raft.Cluster.History.Complete.{moved, shorter}
use advanced_group_chat_syst.Raft.Cluster.History.Kept.{
  HistInv, Later, Stored-fits, vote_later, run_later, start_later,
}
use advanced_group_chat_syst.Raft.Cluster.History.Quiet.{
  RanBefore, Plain-RanBefore, runs_now_before, quiet-HistInv, terms_grow, Grown-refl,
}

-- What an accepted request leaves of a beginning that the old log shares with the log `x` which the request
-- is from.
kept_prefix :
    (k m : ℕ) (t : ℤ) (old log x : List LogEntry)
    → LogMatching old log
    → HasPrev k t old
    → HasPrev k t log
    → k ≤ length old
    → k ≤ length log
    → log ≡ take (length log) x
    → take m old ≡ take m x
    → m ≤ length x
    → take m (merged k old (drop k log)) ≡ take m x
kept_prefix k m t old log x matching here there inside within begins same room =
    elim (dec_le m (length log)) [
      | yes short ↦
          shorter m (length log) (merged k old (drop k log)) log short (
            merged-prefix old log matching k inside within
              (prefix_of_HasPrev old log matching k t here there)
            ∙ sym (take-ge (length log) log (omega arith)))
          ∙ ap (take m) begins
          ∙ take-take m (length log) x short
      | no long ↦
          take-merged_agree k old (drop k log) inside m
            (omega (arith, ap length same, length-take m old, length-take m x))
            (λ i f e lt at at'.
              let f_in =
                moved m (k + i) old x f same (omega arith) (sym (get_elem?-drop k old i) ∙ at) in
              let found = sym (get_elem?-drop k log i) ∙ at' in
              let e_in =
                sym (get_elem?-take (length log) x (k + i) (lt_of_get_elem? log (k + i) found))
                ∙ ap (λ l. get_elem? l (k + i)) (sym begins)
                ∙ found in
              ap (λ (y : LogEntry). y.term) (eq_of_some (sym f_in ∙ e_in)))
          ∙ same
    ]

-- Whether a log has the beginning of another can be read off one term.
same_or_not :
    (led : List (ℤ × ℤ)) (logs : ℤ → List LogEntry) (n : ℕ) (xs ys : List LogEntry)
    → FromLeaders led logs xs
    → FromLeaders led logs ys
    → n ≤ length ys
    → (take n xs ≡ take n ys) ⊎ (take n xs ≡ take n ys → ⊥)
same_or_not led logs zero xs ys from from' room = inl refl
same_or_not led logs (suc n) xs ys from from' room =
    let (y, at) = get_elem?-of_lt ys n room in
    elim (Option-cases (get_elem? xs n)) [
      | inl past ↦
          inr (λ e. absurd (ground (arith, past, moved (suc n) n ys xs y (sym e) (omega arith) at)))
      | inr (x, found) ↦ elim (Bool-cases (beq_ℤ x.term y.term)) [
        | inl same ↦ inl (
            FromLeaders-LogMatching led logs xs ys from from' n x y found at
              ((beq_ℤ_iff x.term y.term).0 same))
        | inr other ↦ inr (λ e.
            let it = eq_of_some (sym found ∙ moved (suc n) n ys xs y (sym e) (omega arith) at) in
            absurd (ground (arith, beq_ℤ_iff x.term y.term, ap (λ (z : LogEntry). z.term) it)))
      ]
    ]

module _ (members : List ℤ) (s : Cluster) (h : History) (inv : Inv members s) (logs : LogInv s)
    (hist : HistInv members s h) (p : ℤ) (req : AppendEntriesRequest) (cm : ConsensusModule)
    (sent : In req s.sent) (le : (s.node p).current_term ≤ℤ cm.current_term)
    (a : Accepted req (s.node p) cm) where
  abbrev old : List LogEntry
  old = (s.node p).log

  abbrev s' : Cluster
  s' = set_node p cm s

  abbrev h' : History
  h' = record h { accepted = (p, req) ∷ h.accepted }

  -- The log that the request is from, and the place where it starts.
  from_log :
      (log : List LogEntry) × (k : ℕ) × (log ≡ take (length log) (s.leader_log req.term))
      × FromLeaders s.led s.leader_log log
      × Start req log k
      × HasPrev k req.prev_log_term old
      × (k ≤ length old)
      × (req.entries ≡ drop k log)
      × (cm.log ≡ merged k old (drop k log))
  from_log =
      let (log, k, begins, from, starts, entries) = logs.mail req sent in
      let same : a.start ≡ k = cc (a.starts.0, starts.0) in
      (
        log,
        k,
        begins,
        from,
        starts,
        subst (λ j. HasPrev j req.prev_log_term old) same a.starts.2,
        subst (λ j. j ≤ length old) same a.starts.1,
        entries,
        a.log ∙ ap (λ j. merged j old req.entries) same ∙ ap (merged k old) entries,
      )

  -- The new log has what the old log shares with the leader's.
  keeps_shared :
      (n : ℕ)
      → take n old ≡ take n (s.leader_log req.term)
      → n ≤ length (s.leader_log req.term)
      → take n cm.log ≡ take n (s.leader_log req.term)
  keeps_shared n same room =
      let (log, k, begins, from, starts, here, inside, entries, new) = from_log in
      ap (take n) new
      ∙ kept_prefix k n req.prev_log_term old log (s.leader_log req.term)
          (FromLeaders-LogMatching s.led s.leader_log old log (logs.logs p) from) here starts.2
          inside starts.1 begins same room

  -- What the request reached is stored.
  newly_stored :
      (n : ℕ)
      → ((k : ℕ) × (slot_after req.prev_log_index ≡ ok k) × (n ≤ k + length req.entries))
      → take n cm.log ≡ take n (s.leader_log req.term)
  newly_stored n (j, at, reach) =
      let (log, k, begins, from, starts, here, inside, entries, new) = from_log in
      let same : j ≡ k = cc (at, starts.0) in
      let short : n ≤ length log =
        omega (arith, same, ap length entries, length-drop k log, starts.1) in
      let agree =
        prefix_of_HasPrev old log
          (FromLeaders-LogMatching s.led s.leader_log old log (logs.logs p) from) k
          req.prev_log_term here starts.2 in
      ap (take n) new
      ∙ shorter n (length log) (merged k old (drop k log)) log short (
          merged-prefix old log
            (FromLeaders-LogMatching s.led s.leader_log old log (logs.logs p) from) k inside
            starts.1 agree
          ∙ sym (take-ge (length log) log (omega arith)))
      ∙ ap (take n) begins
      ∙ take-take n (length log) (s.leader_log req.term) short

  still-Has :
      (t : ℤ) (n : ℕ)
      → Stored s h p t n
      → Has s h t n (s.node p).current_term old
      → Has s h t n cm.current_term cm.log
  still-Has t n stored (inr (w, u, l, i, lt, within, other)) =
      inr (w, u, l, i, lt, omega (arith, le), other)
  still-Has t n stored (inl same) =
      let (room, (l, led), term_le) = Stored-fits members s h p t n inv logs hist stored in
      elim (Bool-cases (beq_ℤ t req.term)) [
        | inl now ↦
            let e : t ≡ req.term = (beq_ℤ_iff t req.term).0 now in
            inl (
              keeps_shared n (same ∙ ap (λ x. take n (s.leader_log x)) e)
                (subst (λ x. n ≤ length (s.leader_log x)) e room)
              ∙ sym (ap (λ x. take n (s.leader_log x)) e))
        | inr other ↦
            earlier_term t n (l, led) room same
              (ground (arith, beq_ℤ_iff t req.term, eq_of_parts t req.term, term_le, le, a.term))
      ]
    where
      earlier_term :
          (t : ℤ) (n : ℕ)
          → ((l : ℤ) × In (l, t) s.led)
          → n ≤ length (s.leader_log t)
          → take n old ≡ take n (s.leader_log t)
          → t <ℤ req.term
          → Has s h t n cm.current_term cm.log
      earlier_term t n (l, led) room same lt =
          let (start, i) = hist.started req.leader_id req.term (inv.mail req sent) in
          let (_, from, _, (more, longer), _) = hist.start req.leader_id req.term start i in
          elim (same_or_not s.led s.leader_log n start (s.leader_log t) from (logs.led_logs l t led)
            room) [
              | inr differs ↦ inr (
                req.leader_id,
                req.term,
                start,
                i,
                lt,
                subst (λ x. req.term ≤ℤ x) (sym a.term) (omega arith),
                differs,
              )
              | inl shares ↦
                  let inside : n ≤ length start = omega (
                    arith,
                    ap length shares,
                    length-take n start,
                    length-take n (s.leader_log t),
                  ) in
                  let lead : take n (s.leader_log req.term) ≡ take n (s.leader_log t) =
                    ap (take n) longer ∙ take-append n start more inside ∙ shares in
                  let room' : n ≤ length (s.leader_log req.term) = omega (
                    arith,
                    ap length lead,
                    length-take n (s.leader_log req.term),
                    length-take n (s.leader_log t),
                  ) in
                  inl (keeps_shared n (same ∙ sym lead) room' ∙ lead)
            ]

  accepted-Later : Later s s' h h'
  accepted-Later = record {
    led_more = λ l i. i;
    starts_more = λ l i. i;
    runs_more = λ l i. i;
    grown = Grown-refl s.led s.leader_log;
    terms = terms_grow s p cm le;
    back = λ q t n stored lt. elim stored [
      | inr led ↦ inr led
      | inl (r, i, in_term, reach) ↦ elim i [
        | inr before ↦ inl (r, before, in_term, reach)
        | inl new ↦ absurd (passed q t r new in_term lt)
      ]
    ];
  }
    where
      passed :
          (q t : ℤ) (r : AppendEntriesRequest)
          → ◌≡◌ {A = ℤ × AppendEntriesRequest} (q, r) (p, req)
          → r.term ≡ t
          → t <ℤ (s.node q).current_term
          → ⊥
      passed q t r new in_term lt =
          let at : t ≡ cm.current_term = sym in_term ∙ ap (λ x. x.1.term) new ∙ sym a.term in
          let there : (s.node q).current_term ≡ (s.node p).current_term =
            ap (λ x. (s.node x.0).current_term) new in
          let le' = le in
          let lt' = subst (λ x. x <ℤ (s.node p).current_term) at (subst (λ x. t <ℤ x) there lt) in
          omega (arith, le', lt')

  new_bound : (k : ℕ) (e : LogEntry) → get_elem? cm.log k ≡ some e → e.term ≤ℤ cm.current_term
  new_bound k e found =
      let (log, j, begins, from, starts, here, inside, entries, new) = from_log in
      let matching = FromLeaders-LogMatching s.led s.leader_log old log (logs.logs p) from in
      elim (merged-cases j req.prev_log_term old log matching here starts.2) [
        | inl stays ↦
            omega (
              arith,
              le,
              hist.node_bound p k e (ap (λ l. get_elem? l k) (sym (new ∙ stays)) ∙ found),
            )
        | inr its ↦
            let at : get_elem? log k ≡ some e = ap (λ l. get_elem? l k) (sym (new ∙ its)) ∙ found in
            let lead =
              sym (get_elem?-take (length log) (s.leader_log req.term) k (lt_of_get_elem? log k at))
              ∙ ap (λ l. get_elem? l k) (sym begins)
              ∙ at in
            subst (λ x. e.term ≤ℤ x) (sym a.term) (hist.bounded req.term k e lead)
      ]

  new_kept : (t : ℤ) (n : ℕ) → Stored s' h' p t n → Has s' h' t n cm.current_term cm.log
  new_kept t n (inr led) = still-Has t n (inr led) (hist.kept p t n (inr led))
  new_kept t n (inl (r, inr i, in_term, reach)) =
      still-Has t n (inl (r, i, in_term, reach)) (hist.kept p t n (inl (r, i, in_term, reach)))
  new_kept t n (inl (r, inl new, in_term, reach)) =
      let e : r ≡ req = ap (λ x. x.1) new in
      let reach' =
        subst
          (λ (x : AppendEntriesRequest).
            (k : ℕ) × (slot_after x.prev_log_index ≡ ok k) × (n ≤ k + length x.entries))
          e reach in
      inl (
        subst (λ x. take n cm.log ≡ take n (s.leader_log x))
          (ap (λ (x : AppendEntriesRequest). x.term) (sym e) ∙ in_term) (newly_stored n reach'))

  other_kept :
      (q t : ℤ) (n : ℕ)
      → q ≢ p
      → Stored s' h' q t n
      → Has s' h' t n (s.node q).current_term (s.node q).log
  other_kept q t n other (inr led) = hist.kept q t n (inr led)
  other_kept q t n other (inl (r, inr i, in_term, reach)) =
      hist.kept q t n (inl (r, i, in_term, reach))
  other_kept q t n other (inl (r, inl new, in_term, reach)) = absurd (other (ap (λ x. x.0) new))

  accepted-HistInv : RanBefore (s.node p) cm → HistInv members s' h'
  accepted-HistInv ran = record {
    bounded = hist.bounded;
    node_bound = λ i.
        update_all
          (λ j m. (k : ℕ) (e : LogEntry) → get_elem? m.log k ≡ some e → e.term ≤ℤ m.current_term) p
          cm s.node new_bound (λ j other. hist.node_bound j) i;
    run = λ c u log i.
        run_later members s s' h h' inv logs hist accepted-Later c u log (hist.run c u log i);
    runs_now = runs_now_before s p cm h.runs ran hist.runs_now;
    vote = λ i c u v k.
        vote_later members s s' h h' inv logs hist accepted-Later i c u v (hist.vote i c u v k);
    logged = hist.logged;
    kept = λ i.
        update_all
          (λ j m. (t : ℤ) (n : ℕ) → Stored s' h' j t n → Has s' h' t n m.current_term m.log) p cm
          s.node new_kept (λ j other t n. other_kept j t n other) i;
    acked = λ i r k. elim k [
      | inl new ↦ (
        subst (λ x. In x s.sent) (sym (ap (λ x. x.1) new)) sent,
        subst (λ (x : ℤ × AppendEntriesRequest). x.1.term ≤ℤ (update p cm s.node x.0).current_term)
            (sym new) here_term,
      )
      | inr before ↦
          let (there, term) = hist.acked i r before in
          (there, omega (arith, terms_grow s p cm le i))
    ];
    start = λ w u log i.
        start_later members s s' h h' inv logs hist accepted-Later w u log (hist.start w u log i);
    started = hist.started;
  }
    where
      here_term : req.term ≤ℤ (update p cm s.node p).current_term
      here_term = ground (arith, a.term)

-- A step in which entries reach a server, accepted or not.
pub delivered-HistInv :
    (members : List ℤ) (s : Cluster) (h : History)
    → Inv members s
    → LogInv s
    → HistInv members s h
    → (p : ℤ) (now : ℕ) (req : AppendEntriesRequest) (cm : ConsensusModule) → In req s.sent
    → step (entries_received now req) (s.node p) ≡ ok cm
    → HistInv members
        (set_node p cm s)
        (after_delivery p req (append_entries_helper now req (s.node p)) h)
unfolding step
delivered-HistInv members s h inv logs hist p now req cm sent st =
    let (reply, es, returned) = handled_by (append_entries_helper now req (s.node p)) cm st in
    let k = received-KeepsPlace now req (s.node p) cm (unfold step in st) in
    subst (λ r. HistInv members (set_node p cm s) (after_delivery p req r h)) (sym returned)
      (elim (Bool-cases reply.success) [
        | inl success ↦
            let a = accepted now req (s.node p) cm reply es returned success in
            subst
              (λ b.
                HistInv members (set_node p cm s)
                  (record h { accepted = if b then (p, req) ∷ h.accepted else h.accepted }))
              (sym success)
              (accepted-HistInv members s h inv logs hist p req cm sent k.grows a
                (λ cand. absurd (ground (arith, cand, a.is_follower_now))))
        | inr refused ↦
            let same = refused_log now req (s.node p) cm reply es returned refused in
            subst
              (λ b.
                HistInv members (set_node p cm s)
                  (record h { accepted = if b then (p, req) ∷ h.accepted else h.accepted }))
              (sym refused)
              (quiet-HistInv members s h p cm s.counted inv logs hist (same, k.grows)
                (elim (delivered-cases now req (s.node p) cm (unfold step in st)) [
                  | inl plain ↦ Plain-RanBefore (s.node p) cm plain same
                  | inr down ↦ λ cand. absurd (ground (arith, down, cand))
                ]))
      ])
