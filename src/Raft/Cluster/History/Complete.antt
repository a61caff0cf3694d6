-- ===== src/Raft/Cluster/History/Complete.antt =====
-- Leader completeness, from what a history records of the elections.
use advanced_group_chat_syst.Base.{
  ℕ, zero, suc, ◌+◌, ◌<◌, ◌≤◌, ℤ, pos, minus_one, pos_part, neg_part, ◌<ℤ◌, ◌≤ℤ◌, ◌≡◌, ◌⊎◌, inl,
  inr, refl, sym, ap, ◌∙◌, subst, List, [], ◌∷◌, ◌++◌, length, take, get_elem?, some,
  get_elem?-take, lt_of_get_elem?, length-take, take-append, take-take, In, Distinct, shared_member,
  arith,
}
use native.Mathlib.Decide.{dec_le}
use advanced_group_chat_syst.Pb.{LogEntry}
use advanced_group_chat_syst.Raft.State.{last_log_index_and_term, last_entry, int_eq}
use advanced_group_chat_syst.Raft.Cluster.{Cluster}
use advanced_group_chat_syst.Raft.Cluster.Logs.{FromLeaders}
use advanced_group_chat_syst.Raft.Cluster.History.{History, Stored, Recent}

-- The last entry of a log that has one.
last_of :
    (log : List LogEntry) (n : ℕ) (e : LogEntry)
    → get_elem? log n ≡ some e
    → (k : ℕ) × (f : LogEntry) × (get_elem? log k ≡ some f)
      × (length log ≡ suc k)
      × (last_log_index_and_term log ≡ (pos k, f.term))
unfolding last_log_index_and_term
last_of [] n e h = absurd (ground arith)
last_of (x ∷ xs) n e h = (length xs, last_entry x xs, last_at x xs, refl, refl)
  where
    last_at :
        (x : LogEntry) (xs : List LogEntry)
        → get_elem? (x ∷ xs) (length xs) ≡ some (last_entry x xs)
    last_at x [] = unfold last_entry in refl
    last_at x (y ∷ ys) = unfold last_entry in last_at y ys

-- An element of a list is one of another with the same beginning.
pub moved :
    (n k : ℕ) (xs ys : List LogEntry) (e : LogEntry)
    → take n xs ≡ take n ys
    → k < n
    → get_elem? xs k ≡ some e
    → get_elem? ys k ≡ some e
moved n k xs ys e same inside found =
    sym (get_elem?-take n ys k inside)
    ∙ ap (λ l. get_elem? l k) (sym same)
    ∙ get_elem?-take n xs k inside
    ∙ found

-- A log is empty, or has an entry.
first_of :
    (log : List LogEntry)
    → (last_log_index_and_term log ≡ (minus_one, minus_one))
      ⊎ ((e : LogEntry) × (get_elem? log 0 ≡ some e))
unfolding last_log_index_and_term
first_of [] = inl refl
first_of (e ∷ es) = inr (e, refl)

-- Equal beginnings are equal in what is shorter.
pub shorter :
    (m n : ℕ) (xs ys : List LogEntry) → m ≤ n → take n xs ≡ take n ys → take m xs ≡ take m ys
shorter m n xs ys h same = sym (take-take m n xs h) ∙ ap (take m) same ∙ take-take m n ys h

module _ (members : List ℤ) (s : Cluster) (h : History) where
  -- A server that voted for the leader of `u`, with a log `v` that was not more recent and that had all that
  -- the server had stored in earlier terms, unless a leader before `u` started without it.
  abbrev pub Elector : ℤ → ℤ → List LogEntry → Type 0
  Elector q u log =
      (u ≤ℤ (s.node q).current_term)
      × ((v : List LogEntry) × FromLeaders s.led s.leader_log v
          × Recent log v
          × ((t : ℤ) (n : ℕ)
              → Stored s h q t n
              → t <ℤ u
              → (take n v ≡ take n (s.leader_log t))
                ⊎ ((w u' : ℤ) × (l : List LogEntry) × In (w, u', l) h.starts
                    × (t <ℤ u')
                    × (u' <ℤ u)
                    × (take n l ≡ take n (s.leader_log t) → ⊥))))

  pub record Elections : Type 0 where
    pub bounded :
        (t : ℤ) (k : ℕ) (e : LogEntry) → get_elem? (s.leader_log t) k ≡ some e → e.term ≤ℤ t
    pub before :
        (w u : ℤ) (log : List LogEntry)
        → In (w, u, log) h.starts
        → (k : ℕ) (e : LogEntry) → get_elem? log k ≡ some e
        → e.term <ℤ u
    pub from :
        (w u : ℤ) (log : List LogEntry)
        → In (w, u, log) h.starts
        → FromLeaders s.led s.leader_log log
    pub extended :
        (w u : ℤ) (log : List LogEntry)
        → In (w, u, log) h.starts
        → (more : List LogEntry) × (s.leader_log u ≡ log ++ more)
    pub started : (w u : ℤ) → In (w, u) s.led → (log : List LogEntry) × In (w, u, log) h.starts
    pub electors :
        (w u : ℤ) (log : List LogEntry)
        → In (w, u, log) h.starts
        → (voters : List ℤ) × Distinct voters
          × ((q : ℤ) → In q voters → In q members × Elector q u log)
          × (length members < length voters + length voters)

  -- The first `n` entries of the log of the leader of `t`, the last of which is of the term `t`, are on more
  -- than half of the servers.
  pub record Committed (t : ℤ) (n : ℕ) : Type 0 where
    pub entry : LogEntry
    pub found : get_elem? (s.leader_log t) n ≡ some entry
    pub in_term : entry.term ≡ t
    pub holders : List ℤ
    pub distinct : Distinct holders
    pub holds : (q : ℤ) → In q holders → In q members × Stored s h q t (suc n)
    pub most : length members < length holders + length holders

  module _ (el : Elections) (t : ℤ) (n : ℕ) (c : Committed t n) (real : pos 0 ≤ℤ t) where
    -- What the leader of a later term has if its log at the start had it.
    pub leader_has :
        (w u : ℤ) (log : List LogEntry)
        → In (w, u, log) h.starts
        → take (suc n) log ≡ take (suc n) (s.leader_log t)
        → take (suc n) (s.leader_log u) ≡ take (suc n) (s.leader_log t)
    leader_has w u log starts same =
        let (more, longer) = el.extended w u log starts in
        let room = lt_of_get_elem? (s.leader_log t) n c.found in
        ap (take (suc n)) longer
        ∙ take-append (suc n) log more (
            omega (
              arith,
              ap length same,
              length-take (suc n) log,
              length-take (suc n) (s.leader_log t),
            ))
        ∙ same

    module _ (u : ℤ) (log v : List LogEntry) (from : FromLeaders s.led s.leader_log log)
        (from_v : FromLeaders s.led s.leader_log v)
        (below : (k : ℕ) (e : LogEntry) → get_elem? log k ≡ some e → e.term <ℤ u)
        (same : take (suc n) v ≡ take (suc n) (s.leader_log t))
        (earlier : (w u' : ℤ) (l : List LogEntry)
          → In (w, u', l) h.starts
          → t <ℤ u'
          → u' <ℤ u
          → take (suc n) l ≡ take (suc n) (s.leader_log t)) where
      -- The last entry of `v` is not of a term before `t`.
      voter_last :
          (k : ℕ) × (f : LogEntry) × (get_elem? v k ≡ some f)
          × (n ≤ k)
          × (t ≤ℤ f.term)
          × (last_log_index_and_term v ≡ (pos k, f.term))
      voter_last =
          let here = moved (suc n) n (s.leader_log t) v c.entry (sym same) (omega arith) c.found in
          let (k, f, at, size, last) = last_of v n c.entry here in
          let inside : n ≤ k = omega (arith, lt_of_get_elem? v n here) in
          let there =
            moved (suc k) n v (s.leader_log f.term) c.entry (from_v k f at).0 (omega arith) here in
          (
            k,
            f,
            at,
            inside,
            subst (λ x. x ≤ℤ f.term) c.in_term (el.bounded f.term n c.entry there),
            last,
          )

      -- Its last entry is of a later term, or of the same and `log` is as long.
      later_has :
          (k : ℕ) (g : LogEntry)
          → get_elem? log k ≡ some g
          → t <ℤ g.term
          → take (suc n) log ≡ take (suc n) (s.leader_log t)
      later_has k g at later =
          let (begins, (l, led)) = from k g at in
          let (start, starts) = el.started l g.term led in
          let lead =
            leader_has l g.term start starts (earlier l g.term start starts later (below k g at)) in
          elim (dec_le (suc n) (suc k)) [
            | yes inside ↦ shorter (suc n) (suc k) log (s.leader_log g.term) inside begins ∙ lead
            | no short ↦
                let there = moved (suc k) k log (s.leader_log g.term) g begins (omega arith) at in
                let too =
                  moved (suc n) k (s.leader_log g.term) (s.leader_log t) g lead (omega arith)
                    there in
                absurd (omega (arith, el.bounded t k g too))
          ]

      Recent-has : Recent log v → take (suc n) log ≡ take (suc n) (s.leader_log t)
      Recent-has recent =
          let (k, f, at, inside, not_before, last) = voter_last in
          elim (first_of log) [
            | inl nothing ↦ absurd (ground (arith, nothing, last, recent))
            | inr (e, some_entry) ↦
                let (k', g, at', size', last') = last_of log 0 e some_entry in
                elim recent [
                  | inl later ↦ later_has k' g at' (ground (arith, last, last'))
                  | inr (term, index) ↦
                      let terms : g.term ≡ f.term = ground (arith, last, last') in
                      let room : k ≤ k' = ground (arith, last, last') in
                      shorter (suc n) (suc k') log (s.leader_log g.term) (omega arith)
                        (from k' g at').0
                      ∙ ap (λ x. take (suc n) (s.leader_log x)) terms
                      ∙ sym (
                          shorter (suc n) (suc k) v (s.leader_log f.term) (omega arith)
                            (from_v k f at).0)
                      ∙ same
                ]
          ]

    complete_below :
        (m : ℕ) (w u : ℤ) (log : List LogEntry)
        → pos_part u + neg_part t < m + (pos_part t + neg_part u)
        → In (w, u, log) h.starts
        → t <ℤ u
        → take (suc n) log ≡ take (suc n) (s.leader_log t)
    complete_below zero w u log close starts later = absurd (omega arith)
    complete_below (suc m) w u log close starts later =
        let (voters, each_once, each, most) = el.electors w u log starts in
        let (q, votes, holds) =
          shared_member voters c.holders members each_once c.distinct (λ q i. (each q i).0)
            (λ q i. (c.holds q i).0) (omega (arith, most, c.most)) in
        let (old, (v, from_v, recent, had)) = (each q votes).1 in
        elim (had t (suc n) (c.holds q holds).1 later) [
          | inl same ↦
              Recent-has u log v (el.from w u log starts) from_v (el.before w u log starts) same
                (λ w' u' l starts' later' sooner.
                  complete_below m w' u' l (omega arith) starts' later')
                recent
          | inr (w', u', l, starts', later', sooner, other) ↦
              absurd (other (complete_below m w' u' l (omega arith) starts' later'))
        ]

    -- Whoever starts to lead in a later term has the entries.
    pub complete :
        (w u : ℤ) (log : List LogEntry)
        → In (w, u, log) h.starts
        → t <ℤ u
        → take (suc n) log ≡ take (suc n) (s.leader_log t)
    complete w u log starts later =
        complete_below (suc (pos_part u + neg_part t)) w u log (omega arith) starts later
