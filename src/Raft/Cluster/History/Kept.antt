-- ===== src/Raft/Cluster/History/Kept.antt =====
-- What a history of a cluster records, as an invariant, and what a step leaves of it.
use advanced_group_chat_syst.Base.{
  ℕ, ◌+◌, ◌<◌, ◌≤◌, ℤ, ◌<ℤ◌, ◌≤ℤ◌, true, ◌≡◌, inl, inr, sym, ap, ◌∙◌, subst, List, ◌++◌, length,
  take, get_elem?, some, length-drop, length-take, take-append, append_assoc, In, Distinct, arith,
}
use advanced_group_chat_syst.Pb.{LogEntry, AppendEntriesRequest}
use advanced_group_chat_syst.Raft.State.{is_candidate}
use advanced_group_chat_syst.Raft.Cluster.{Cluster}
use advanced_group_chat_syst.Raft.Cluster.Invariant.{Inv}
use advanced_group_chat_syst.Raft.Cluster.Logs.{FromLeaders, LogInv, Grown, FromLeaders-Grown}
use advanced_group_chat_syst.Raft.Cluster.History.{History, Stored, Has, Recent}
use advanced_group_chat_syst.Raft.Cluster.History.Complete.{Elections, Elector}

abbrev pub VotedFact : Cluster → History → ℤ → ℤ → ℤ → List LogEntry → Type 0
VotedFact s h q c u v =
    (u ≤ℤ (s.node q).current_term)
    × FromLeaders s.led s.leader_log v
    × ((run : List LogEntry) × In (c, u, run) h.runs × Recent run v)
    × ((t : ℤ) (n : ℕ) → Stored s h q t n → t <ℤ u → Has s h t n u v)

abbrev pub RunFact : Cluster → ℤ → ℤ → List LogEntry → Type 0
RunFact s c u log =
    (u ≤ℤ (s.node c).current_term)
    × FromLeaders s.led s.leader_log log
    × ((k : ℕ) (e : LogEntry) → get_elem? log k ≡ some e → e.term <ℤ u)

abbrev pub StartFact : List ℤ → Cluster → History → ℤ → ℤ → List LogEntry → Type 0
StartFact members s h w u log =
    In (w, u) s.led
    × FromLeaders s.led s.leader_log log
    × ((k : ℕ) (e : LogEntry) → get_elem? log k ≡ some e → e.term <ℤ u)
    × ((more : List LogEntry) × (s.leader_log u ≡ log ++ more))
    × ((voters : List ℤ) × Distinct voters
        × ((q : ℤ) → In q voters → In q members × Elector members s h q u log)
        × (length members < length voters + length voters))

pub record HistInv (members : List ℤ) (s : Cluster) (h : History) : Type 0 where
  pub bounded : (t : ℤ) (k : ℕ) (e : LogEntry) → get_elem? (s.leader_log t) k ≡ some e → e.term ≤ℤ t
  pub node_bound :
      (i : ℤ) (k : ℕ) (e : LogEntry)
      → get_elem? (s.node i).log k ≡ some e
      → e.term ≤ℤ (s.node i).current_term
  pub run : (c u : ℤ) (log : List LogEntry) → In (c, u, log) h.runs → RunFact s c u log
  pub runs_now :
      (c u : ℤ) (log : List LogEntry)
      → In (c, u, log) h.runs
      → (s.node c).current_term ≡ u
      → is_candidate (s.node c).state ≡ true
      → (s.node c).log ≡ log
  pub vote : (q c u : ℤ) (v : List LogEntry) → In (q, c, u, v) h.voted → VotedFact s h q c u v
  pub logged : (q c u : ℤ) → In (q, c, u) s.votes → (v : List LogEntry) × In (q, c, u, v) h.voted
  pub kept :
      (q t : ℤ) (n : ℕ) → Stored s h q t n → Has s h t n (s.node q).current_term (s.node q).log
  pub acked :
      (q : ℤ) (req : AppendEntriesRequest)
      → In (q, req) h.accepted
      → In req s.sent × (req.term ≤ℤ (s.node q).current_term)
  pub start :
      (w u : ℤ) (log : List LogEntry) → In (w, u, log) h.starts → StartFact members s h w u log
  pub started : (w u : ℤ) → In (w, u) s.led → (log : List LogEntry) × In (w, u, log) h.starts

pub HistInv-Elections :
    (members : List ℤ) (s : Cluster) (h : History) → HistInv members s h → Elections members s h
HistInv-Elections members s h inv = record {
  bounded = inv.bounded;
  before = λ w u log i. (inv.start w u log i).2;
  from = λ w u log i. (inv.start w u log i).1;
  extended = λ w u log i. (inv.start w u log i).3;
  started = inv.started;
  electors = λ w u log i. (inv.start w u log i).4;
}

-- What is stored is within the log of the leader of the term.
pub Stored-fits :
    (members : List ℤ) (s : Cluster) (h : History) (q t : ℤ) (n : ℕ)
    → Inv members s
    → LogInv s
    → HistInv members s h
    → Stored s h q t n
    → (n ≤ length (s.leader_log t)) × ((l : ℤ) × In (l, t) s.led) × (t ≤ℤ (s.node q).current_term)
Stored-fits members s h q t n inv logs hist (inl (req, i, in_term, (k, at, inside))) =
    let (sent, old) = hist.acked q req i in
    let (log, m, begins, from, starts, entries) = logs.mail req sent in
    let same : k ≡ m = cc (at, starts.0) in
    (
      subst (λ u. n ≤ length (s.leader_log u)) in_term
          (omega (
            arith,
            ap length begins,
            length-take (length log) (s.leader_log req.term),
            ap length entries,
            length-drop m log,
            starts.1,
            same,
          )),
      (req.leader_id, subst (λ u. In (req.leader_id, u) s.led) in_term (inv.mail req sent)),
      subst (λ u. u ≤ℤ (s.node q).current_term) in_term old,
    )
Stored-fits members s h q t n inv logs hist (inr (led, inside)) = (
  inside,
  (q, led),
  elim (logs.past q t led) [ inl past ↦ omega arith | inr (at, idle) ↦ ground arith ],
)

-- A step that only adds to the history and to the logs of the leaders, and whose new facts about what a
-- server has stored are not of terms that the server had passed.
pub record Later (s s' : Cluster) (h h' : History) : Type 0 where
  pub led_more : (l : ℤ × ℤ) → In l s.led → In l s'.led
  pub starts_more : (l : ℤ × ℤ × List LogEntry) → In l h.starts → In l h'.starts
  pub runs_more : (l : ℤ × ℤ × List LogEntry) → In l h.runs → In l h'.runs
  pub grown : Grown s.led s.leader_log s'.leader_log
  pub terms : (q : ℤ) → (s.node q).current_term ≤ℤ (s'.node q).current_term
  pub back :
      (q t : ℤ) (n : ℕ) → Stored s' h' q t n → t <ℤ (s.node q).current_term → Stored s h q t n

module _ (members : List ℤ) (s s' : Cluster) (h h' : History) (inv : Inv members s)
    (logs : LogInv s) (hist : HistInv members s h) (later : Later s s' h h') where
  pub from_later :
      (log : List LogEntry)
      → FromLeaders s.led s.leader_log log
      → FromLeaders s'.led s'.leader_log log
  from_later log from =
      FromLeaders-Grown s.led s'.led s.leader_log s'.leader_log log later.led_more later.grown from

  pub same_prefix :
      (q t : ℤ) (n : ℕ) → Stored s h q t n → take n (s.leader_log t) ≡ take n (s'.leader_log t)
  same_prefix q t n stored =
      let (inside, (l, led), old) = Stored-fits members s h q t n inv logs hist stored in
      let (more, longer) = later.grown l t led in
      sym (take-append n (s.leader_log t) more inside) ∙ ap (take n) (sym longer)

  pub Has-later :
      (q t : ℤ) (n : ℕ) (b b' : ℤ) (log : List LogEntry)
      → Stored s h q t n
      → b ≤ℤ b'
      → Has s h t n b log
      → Has s' h' t n b' log
  Has-later q t n b b' log stored le (inl same) = inl (same ∙ same_prefix q t n stored)
  Has-later q t n b b' log stored le (inr (w, u, l, i, lt, within, other)) = inr (
    w,
    u,
    l,
    later.starts_more (w, u, l) i,
    lt,
    omega arith,
    λ e. other (e ∙ sym (same_prefix q t n stored)),
  )

  Elector-later :
      (q u : ℤ) (log : List LogEntry) → Elector members s h q u log → Elector members s' h' q u log
  Elector-later q u log (old, (v, from, recent, had)) = (
    omega (arith, later.terms q),
    (
      v,
      from_later v from,
      recent,
      λ t n stored lt.
          let before = later.back q t n stored (omega arith) in
          elim (had t n before lt) [
            | inl same ↦ inl (same ∙ same_prefix q t n before)
            | inr (w, u', l, i, lt', sooner, other) ↦ inr (
              w,
              u',
              l,
              later.starts_more (w, u', l) i,
              lt',
              sooner,
              λ e. other (e ∙ sym (same_prefix q t n before)),
            )
          ],
    ),
  )

  pub vote_later : (q c u : ℤ) (v : List LogEntry) → VotedFact s h q c u v → VotedFact s' h' q c u v
  vote_later q c u v (old, from, (run, i, recent), had) = (
    omega (arith, later.terms q),
    from_later v from,
    (run, later.runs_more (c, u, run) i, recent),
    λ t n stored lt.
        let before = later.back q t n stored (omega arith) in
        Has-later q t n u u v before (omega arith) (had t n before lt),
  )

  pub run_later : (c u : ℤ) (log : List LogEntry) → RunFact s c u log → RunFact s' c u log
  run_later c u log (old, from, below) = (omega (arith, later.terms c), from_later log from, below)

  pub start_later :
      (w u : ℤ) (log : List LogEntry)
      → StartFact members s h w u log
      → StartFact members s' h' w u log
  start_later w u log (led, from, below, (more, longer), (voters, each_once, each, most)) =
      let (rest, further) = later.grown w u led in
      (
        later.led_more (w, u) led,
        from_later log from,
        below,
        (more ++ rest, further ∙ ap (λ l. l ++ rest) longer ∙ append_assoc log more rest),
        (voters, each_once, (λ q i. let (m, e) = each q i in (m, Elector-later q u log e)), most),
      )
