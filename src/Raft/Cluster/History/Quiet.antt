-- ===== src/Raft/Cluster/History/Quiet.antt =====
-- The steps that keep all logs keep what a history records.
use advanced_group_chat_syst.Base.{
  ℕ, ℤ, ◌≤ℤ◌, true, ◌≡◌, ◌⊎◌, inl, inr, refl, sym, ap, ◌∙◌, subst, List, [], append-nil, get_elem?,
  some, In, arith,
}
use advanced_group_chat_syst.Pb.{LogEntry}
use advanced_group_chat_syst.Raft.State.{ConsensusModule, is_candidate}
use advanced_group_chat_syst.Raft.Cluster.{Count, Cluster, update}
use advanced_group_chat_syst.Raft.Cluster.Invariant.{Inv, update_all}
use advanced_group_chat_syst.Raft.Cluster.Plain.{Plain}
use advanced_group_chat_syst.Raft.Cluster.Logs.{LogInv, Grown}
use advanced_group_chat_syst.Raft.Cluster.History.{History, Has}
use advanced_group_chat_syst.Raft.Cluster.History.Kept.{
  HistInv, Later, RunFact, VotedFact, Has-later, vote_later, run_later, start_later,
}

-- The log stays and the term does not fall.
abbrev pub SameLog : ConsensusModule → ConsensusModule → Type 0
SameLog cm cm' = (cm'.log ≡ cm.log) × (cm.current_term ≤ℤ cm'.current_term)

-- A candidate was one before, in the same term and with the same log.
abbrev pub RanBefore : ConsensusModule → ConsensusModule → Type 0
RanBefore cm cm' =
    is_candidate cm'.state ≡ true
    → (is_candidate cm.state ≡ true) × (cm'.current_term ≡ cm.current_term) × (cm'.log ≡ cm.log)

pub Plain-RanBefore :
    (cm cm' : ConsensusModule) → Plain cm cm' → cm'.log ≡ cm.log → RanBefore cm cm'
Plain-RanBefore cm cm' p same h =
    let (before, term) = p.came_from (ground arith) in (p.ran_before h, term, same)

pub Grown-refl : (led : List (ℤ × ℤ)) (logs : ℤ → List LogEntry) → Grown led logs logs
Grown-refl led logs l t led_in = ([], sym (append-nil (logs t)))

pub terms_grow :
    (s : Cluster) (q : ℤ) (cm : ConsensusModule)
    → (s.node q).current_term ≤ℤ cm.current_term
    → (i : ℤ) → (s.node i).current_term ≤ℤ (update q cm s.node i).current_term
terms_grow s q cm le =
    update_all (λ i m. (s.node i).current_term ≤ℤ m.current_term) q cm s.node le
      (λ i other. omega arith)

-- The runs after a step that lets nobody become a candidate.
pub runs_now_before :
    (s : Cluster) (q : ℤ) (cm : ConsensusModule) (runs : List (ℤ × ℤ × List LogEntry))
    → RanBefore (s.node q) cm
    → ((c u : ℤ) (log : List LogEntry)
        → In (c, u, log) runs
        → (s.node c).current_term ≡ u
        → is_candidate (s.node c).state ≡ true
        → (s.node c).log ≡ log)
    → (c u : ℤ) (log : List LogEntry) → In (c, u, log) runs
    → (update q cm s.node c).current_term ≡ u
    → is_candidate (update q cm s.node c).state ≡ true
    → (update q cm s.node c).log ≡ log
runs_now_before s q cm runs ran old c =
    update_all
      (λ i m.
        (u : ℤ) (log : List LogEntry)
        → In (i, u, log) runs
        → m.current_term ≡ u
        → is_candidate m.state ≡ true
        → m.log ≡ log)
      q cm s.node
      (λ u log i at cand.
        let (before, term, same) = ran cand in same ∙ old q u log i (sym term ∙ at) before)
      (λ i other u log k at cand. old i u log k at cand) c

module _ (members : List ℤ) (s : Cluster) (h : History) (inv : Inv members s) (logs : LogInv s)
    (hist : HistInv members s h) (q : ℤ) (cm : ConsensusModule) (counted : ℤ → ℤ → Count)
    (votes : List (ℤ × ℤ × ℤ)) (runs : List (ℤ × ℤ × List LogEntry))
    (voted : List (ℤ × ℤ × ℤ × List LogEntry)) (same : SameLog (s.node q) cm) where
  abbrev moved : Cluster
  moved = record s { node = update q cm s.node; counted = counted; votes = votes }

  abbrev recorded : History
  recorded = record h { runs = runs; voted = voted }

  moved-Later : ((l : ℤ × ℤ × List LogEntry) → In l h.runs → In l runs) → Later s moved h recorded
  moved-Later more = record {
    led_more = λ l i. i;
    starts_more = λ l i. i;
    runs_more = more;
    grown = Grown-refl s.led s.leader_log;
    terms = terms_grow s q cm same.1;
    back = λ i t n stored lt. stored;
  }

  pub moved-HistInv :
      ((l : ℤ × ℤ × List LogEntry) → In l h.runs → In l runs)
      → ((c u : ℤ) (log : List LogEntry)
          → In (c, u, log) runs
          → In (c, u, log) h.runs ⊎ RunFact moved c u log)
      → ((c u : ℤ) (log : List LogEntry)
          → In (c, u, log) runs
          → (moved.node c).current_term ≡ u
          → is_candidate (moved.node c).state ≡ true
          → (moved.node c).log ≡ log)
      → ((i c u : ℤ) (v : List LogEntry)
          → In (i, c, u, v) voted
          → In (i, c, u, v) h.voted ⊎ VotedFact moved recorded i c u v)
      → ((l : ℤ × ℤ × ℤ × List LogEntry) → In l h.voted → In l voted)
      → ((i c u : ℤ)
          → In (i, c, u) votes
          → In (i, c, u) s.votes ⊎ ((v : List LogEntry) × In (i, c, u, v) voted))
      → HistInv members moved recorded
  moved-HistInv more run_back now vote_back more_votes logged_back =
      let later = moved-Later more in
      record {
        bounded = hist.bounded;
        node_bound = λ i.
            update_all
              (λ j m.
                (k : ℕ) (e : LogEntry) → get_elem? m.log k ≡ some e → e.term ≤ℤ m.current_term)
              q cm s.node
              (λ k e found. omega (
                arith,
                same.1,
                hist.node_bound q k e (ap (λ l. get_elem? l k) (sym same.0) ∙ found),
              ))
              (λ j other. hist.node_bound j) i;
        run = λ c u log i. elim (run_back c u log i) [
          | inl old ↦
              run_later members s moved h recorded inv logs hist later c u log
                (hist.run c u log old)
          | inr new ↦ new
        ];
        runs_now = now;
        vote = λ i c u v k. elim (vote_back i c u v k) [
          | inl old ↦
              vote_later members s moved h recorded inv logs hist later i c u v
                (hist.vote i c u v old)
          | inr new ↦ new
        ];
        logged = λ i c u k. elim (logged_back i c u k) [
          | inl old ↦ let (v, there) = hist.logged i c u old in (v, more_votes (i, c, u, v) there)
          | inr new ↦ new
        ];
        kept = λ i t n stored.
            Has-later members s moved h recorded inv logs hist later i t n (s.node i).current_term
              (moved.node i).current_term (moved.node i).log stored (terms_grow s q cm same.1 i)
              (subst (Has s h t n (s.node i).current_term) (sym (log_stays i))
                (hist.kept i t n stored));
        acked = λ i req k.
            let (sent, old) = hist.acked i req k in
            (sent, omega (arith, terms_grow s q cm same.1 i));
        start = λ w u log i.
            start_later members s moved h recorded inv logs hist later w u log
              (hist.start w u log i);
        started = hist.started;
      }
    where
      log_stays : (i : ℤ) → (update q cm s.node i).log ≡ (s.node i).log
      log_stays = update_all (λ i m. m.log ≡ (s.node i).log) q cm s.node same.0 (λ i other. refl)

-- A server that neither votes nor runs.
pub quiet-HistInv :
    (members : List ℤ) (s : Cluster) (h : History) (q : ℤ) (cm : ConsensusModule)
    (counted : ℤ → ℤ → Count)
    → Inv members s
    → LogInv s
    → HistInv members s h
    → SameLog (s.node q) cm
    → RanBefore (s.node q) cm
    → HistInv members (record s { node = update q cm s.node; counted = counted }) h
quiet-HistInv members s h q cm counted inv logs hist same ran =
    moved-HistInv members s h inv logs hist q cm counted s.votes h.runs h.voted same (λ l i. i)
      (λ c u log i. inl i) (runs_now_before s q cm h.runs ran hist.runs_now) (λ i c u v k. inl k)
      (λ l i. i) (λ i c u k. inl k)
