-- ===== src/Raft/Cluster/History/Votes.antt =====
-- Elections and votes keep what a history records.
use advanced_group_chat_syst.Base.{
  ℕ, ◌+◌, ◌<◌, ◌^◌, ℤ, pos_part, InRange64, ◌<ℤ◌, ◌≤ℤ◌, Bool, true, false, ◌≡◌, ◌⊎◌, inl, inr, refl,
  sym, ap, ◌∙◌, subst, List, ◌∷◌, In, Bool-cases, if◌then◌else◌, arith,
}
use advanced_group_chat_syst.Pb.{LogEntry, RequestVoteRequest}
use advanced_group_chat_syst.Raft.State.{
  ConsensusModule, Effect, is_candidate, last_log_index_and_term,
}
use advanced_group_chat_syst.Raft.Vote.{
  TimerResult, keep_waiting, timer_ended, election_started, tick_election_timer,
  request_vote_helper,
}
use advanced_group_chat_syst.Raft.Vote.Grants.{IsUpToDate, granted-MayVote}
use advanced_group_chat_syst.Raft.Cluster.{
  new_count, Cluster, update, set_counted, after_tick, after_request,
}
use advanced_group_chat_syst.Raft.Cluster.Invariant.{Inv, update_all}
use advanced_group_chat_syst.Raft.Cluster.Plain.{refused-Plain, granted-Granting}
use advanced_group_chat_syst.Raft.Cluster.Voting.{Ticked, tick-Ticked}
use advanced_group_chat_syst.Raft.Cluster.Logs.{LogInv}
use advanced_group_chat_syst.Raft.Cluster.LogEvents.{tick-KeepsPlace, request-KeepsPlace}
use advanced_group_chat_syst.Raft.Cluster.History.{History, Has, Recent, after_timer}
use advanced_group_chat_syst.Raft.Cluster.History.Kept.{HistInv, RunFact, VotedFact}
use advanced_group_chat_syst.Raft.Cluster.History.Quiet.{
  SameLog, RanBefore, Plain-RanBefore, runs_now_before, quiet-HistInv, moved-HistInv,
}

-- A fact on the server that has moved.
update_here :
    (P : ConsensusModule → Type 0) (q : ℤ) (cm : ConsensusModule) (node : ℤ → ConsensusModule)
    → P cm
    → P (update q cm node q)
update_here P q cm node h = subst P (sym (at q cm node)) h
  where
    at : (q : ℤ) (cm : ConsensusModule) (node : ℤ → ConsensusModule) → update q cm node q ≡ cm
    at q cm node = ground arith

module _ (members : List ℤ) (s : Cluster) (h : History) (inv : Inv members s) (logs : LogInv s)
    (hist : HistInv members s h) where
  raised :
      (t : ℤ) (n : ℕ) (b b' : ℤ) (log : List LogEntry)
      → b ≤ℤ b'
      → Has s h t n b log
      → Has s h t n b' log
  raised t n b b' log le (inl same) = inl same
  raised t n b b' log le (inr (w, u, l, i, lt, within, other)) =
      inr (w, u, l, i, lt, omega arith, other)

  module _ (i : ℤ) (cm : ConsensusModule) (same : cm.log ≡ (s.node i).log)
      (next : (s.node i).current_term <ℤ cm.current_term) where
    abbrev t : ℤ
    t = cm.current_term

    abbrev log : List LogEntry
    log = (s.node i).log

    abbrev ran_now : List (ℤ × ℤ × List LogEntry)
    ran_now = (i, t, log) ∷ h.runs

    abbrev voted_now : List (ℤ × ℤ × ℤ × List LogEntry)
    voted_now = (i, i, t, log) ∷ h.voted

    abbrev elected : Cluster
    elected = record s {
      node = update i cm s.node;
      counted = set_counted i t new_count s.counted;
      votes = (i, i, t) ∷ s.votes;
    }

    abbrev noted : History
    noted = record h { runs = ran_now; voted = voted_now }

    here : t ≤ℤ (elected.node i).current_term
    here = update_here (λ m. t ≤ℤ m.current_term) i cm s.node (omega arith)

    run_fact : RunFact elected i t log
    run_fact = (here, logs.logs i, λ k e found. omega (arith, hist.node_bound i k e found))

    vote_fact : VotedFact elected noted i i t log
    vote_fact = (
      here,
      logs.logs i,
      (log, inl refl, inr (refl, omega arith)),
      λ t' n stored lt.
          raised t' n (s.node i).current_term t log (omega arith) (hist.kept i t' n stored),
    )

    now_running :
        (c u : ℤ) (l : List LogEntry)
        → In (c, u, l) ran_now
        → (elected.node c).current_term ≡ u
        → is_candidate (elected.node c).state ≡ true
        → (elected.node c).log ≡ l
    now_running c =
        update_all
          (λ j m.
            (u : ℤ) (l : List LogEntry)
            → In (j, u, l) ran_now
            → m.current_term ≡ u
            → is_candidate m.state ≡ true
            → m.log ≡ l)
          i cm s.node
          (λ u l k at cand. elim k [
            | inl new ↦ same ∙ sym (ap (λ p. p.2) new)
            | inr old ↦ absurd (
                omega (
                  arith,
                  next,
                  subst (λ x. x ≤ℤ (s.node i).current_term) (sym at) (hist.run i u l old).0,
                ))
          ])
          (λ j other u l k at cand. elim k [
            | inl new ↦ absurd (other (ap (λ p. p.0) new))
            | inr old ↦ hist.runs_now j u l old at cand
          ])
          c

    pub elected-HistInv : HistInv members elected noted
    elected-HistInv =
        moved-HistInv members s h inv logs hist i cm (set_counted i t new_count s.counted)
          ((i, i, t) ∷ s.votes) ran_now voted_now (same, omega arith) (λ l k. inr k)
          (λ c u l k. elim k [
            | inl new ↦ inr (subst (λ p. RunFact elected p.0 p.1 p.2) (sym new) run_fact)
            | inr old ↦ inl old
          ])
          now_running
          (λ j c u v k. elim k [
            | inl new ↦
                inr (subst (λ p. VotedFact elected noted p.0 p.1 p.2 p.3) (sym new) vote_fact)
            | inr old ↦ inl old
          ])
          (λ l k. inr k)
          (λ j c u k. elim k [
            | inl new ↦ inr (log, inl (ap (λ p. (p.0, p.1, p.2, log)) new))
            | inr old ↦ inl old
          ])

  stayed :
      (i : ℤ) (cm : ConsensusModule)
      → cm ≡ s.node i
      → HistInv members (record s { node = update i cm s.node }) h
  stayed i cm e =
      quiet-HistInv members s h i cm s.counted inv logs hist
        (ap (λ (x : ConsensusModule). x.log) e, ground (arith, e))
        (λ cand. (
          ap (λ (x : ConsensusModule). is_candidate x.state) (sym e) ∙ cand,
          ap (λ (x : ConsensusModule). x.current_term) e,
          ap (λ (x : ConsensusModule). x.log) e,
        ))

  -- A tick of the election timer, by its result.
  Ticked-by :
      (i : ℤ) (r : TimerResult × ConsensusModule × List Effect)
      → Ticked (s.node i) r
      → r.1.log ≡ (s.node i).log
      → HistInv members (after_tick i r s) (after_timer i (s.node i) r h)
  Ticked-by i (election_started, cm, es) e same = elected-HistInv i cm same e.grows
  Ticked-by i (keep_waiting, cm, es) e same = stayed i cm e
  Ticked-by i (timer_ended, cm, es) e same = stayed i cm e

  pub ticked-HistInv :
      (i : ℤ) (timeout now : ℕ) (started : ℤ)
      → InRange64 (s.node i).current_term
      → pos_part (s.node i).current_term + 1 < 2 ^ 63
      → let r = tick_election_timer timeout now started (s.node i) in
        HistInv members (after_tick i r s) (after_timer i (s.node i) r h)
  ticked-HistInv i timeout now started range room =
      Ticked-by i (tick_election_timer timeout now started (s.node i))
        (tick-Ticked timeout now started (s.node i) range room)
        (tick-KeepsPlace timeout now started (s.node i) range room).1

  -- A vote request, refused or granted.
  module _ (p : ℤ) (now : ℕ) (req : RequestVoteRequest)
      (honest : (log : List LogEntry) × In (req.candidate_id, req.term, log) h.runs
        × (last_log_index_and_term log ≡ (req.last_log_index, req.last_log_term))) where
    abbrev answer : ConsensusModule
    answer = (request_vote_helper now req (s.node p)).0

    answer_same : SameLog (s.node p) answer
    answer_same = let (k, same) = request-KeepsPlace now req (s.node p) in (same, k.grows)

    abbrev after_vote : Cluster
    after_vote = record s {
      node = update p answer s.node;
      votes = (p, req.candidate_id, req.term) ∷ s.votes;
    }

    abbrev noted_vote : History
    noted_vote = record h { voted = (p, req.candidate_id, req.term, (s.node p).log) ∷ h.voted }

    granted_ran :
        (request_vote_helper now req (s.node p)).1.vote_granted ≡ true → RanBefore (s.node p) answer
    granted_ran granted cand =
        let g = granted-Granting now req (s.node p) granted in
        let before = ap is_candidate (sym g.same_state) ∙ cand in
        let (was, term) = g.plain.came_from (ground arith) in
        (g.plain.ran_before before, g.same_term ∙ term, answer_same.0)

    grant_fact :
        (request_vote_helper now req (s.node p)).1.vote_granted ≡ true
        → VotedFact after_vote noted_vote p req.candidate_id req.term (s.node p).log
    grant_fact granted =
        let g = granted-Granting now req (s.node p) granted in
        let (run, ran, last) = honest in
        let at : answer.current_term ≡ req.term = g.same_term ∙ g.in_term in
        (
          update_here (λ m. req.term ≤ℤ m.current_term) p answer s.node
              (subst (λ x. req.term ≤ℤ x) (sym at) (omega arith)),
          logs.logs p,
          (run, ran, recent run last (granted-MayVote now req (s.node p) granted).1),
          λ t' n stored lt.
              raised t' n (s.node p).current_term req.term (s.node p).log
                (subst (λ x. (s.node p).current_term ≤ℤ x) at answer_same.1)
                (hist.kept p t' n stored),
        )
      where
        recent :
            (run : List LogEntry)
            → last_log_index_and_term run ≡ (req.last_log_index, req.last_log_term)
            → IsUpToDate req (s.node p).log
            → Recent run (s.node p).log
        recent run last up =
            subst
              (λ x.
                ((last_log_index_and_term (s.node p).log).1 <ℤ x.1)
                ⊎ ((x.1 ≡ (last_log_index_and_term (s.node p).log).1)
                    × ((last_log_index_and_term (s.node p).log).0 ≤ℤ x.0)))
              (sym last) up

    granted-HistInv :
        (request_vote_helper now req (s.node p)).1.vote_granted ≡ true
        → HistInv members
            (record s {
              node = update p answer s.node;
              votes = (p, req.candidate_id, req.term) ∷ s.votes;
            })
            (record h { voted = (p, req.candidate_id, req.term, (s.node p).log) ∷ h.voted })
    granted-HistInv granted =
        moved-HistInv members s h inv logs hist p answer s.counted
          ((p, req.candidate_id, req.term) ∷ s.votes) h.runs
          ((p, req.candidate_id, req.term, (s.node p).log) ∷ h.voted) answer_same (λ l k. k)
          (λ c u l k. inl k) (runs_now_before s p answer h.runs (granted_ran granted) hist.runs_now)
          (λ j c u v k. elim k [
            | inl new ↦ inr (
                subst (λ x. VotedFact after_vote noted_vote x.0 x.1 x.2 x.3) (sym new)
                  (grant_fact granted))
            | inr old ↦ inl old
          ])
          (λ l k. inr k)
          (λ j c u k. elim k [
            | inl new ↦ inr ((s.node p).log, inl (ap (λ x. (x.0, x.1, x.2, (s.node p).log)) new))
            | inr old ↦ inl old
          ])

    refused-HistInv :
        (request_vote_helper now req (s.node p)).1.vote_granted ≡ false
        → HistInv members (record s { node = update p answer s.node }) h
    refused-HistInv refused =
        quiet-HistInv members s h p answer s.counted inv logs hist answer_same (
          Plain-RanBefore (s.node p) answer (refused-Plain now req (s.node p) refused)
            answer_same.0)

    pub asked-HistInv :
        HistInv members (after_request p req (request_vote_helper now req (s.node p)) s) (record h {
          voted =
              if (request_vote_helper now req (s.node p)).1.vote_granted
              then (p, req.candidate_id, req.term, (s.node p).log) ∷ h.voted
              else h.voted;
        })
    asked-HistInv = elim (Bool-cases (request_vote_helper now req (s.node p)).1.vote_granted) [
      | inl granted ↦ subst (by_grant) (sym granted) (granted-HistInv granted)
      | inr refused ↦ subst (by_grant) (sym refused) (refused-HistInv refused)
    ]
      where
        by_grant : Bool → Type 0
        by_grant b =
            HistInv members
              (record s {
                node = update p answer s.node;
                votes = if b then (p, req.candidate_id, req.term) ∷ s.votes else s.votes;
              })
              (record h {
                voted =
                    if b
                    then (p, req.candidate_id, req.term, (s.node p).log) ∷ h.voted
                    else h.voted;
              })
