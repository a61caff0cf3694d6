-- ===== src/Raft/Leader/Scan.antt =====
-- The scan for the commit index, against the rule of a majority of the cluster.
use advanced_group_chat_syst.Base.{
  ℕ, zero, suc, ◌+◌, ◌*◌, ◌<◌, ℤ, pos, beq_ℤ, beq_ℤ_iff, leb_ℤ, ◌≤ℤ◌, ◌≡◌, ◌⊎◌, inl, inr, refl, ap,
  ◌∙◌, List, [], ◌∷◌, length, get_elem?, true, ◌&&◌, Bool-cases, Map, some, subst, arith,
  eq_of_some, if◌then◌else◌,
}
use advanced_group_chat_syst.Pb.{LogEntry}
use advanced_group_chat_syst.Raft.State.{read}
use advanced_group_chat_syst.Raft.Leader.{count_matches, has_majority, scan_commit}

-- How many of the peers are known to hold the entry at `i`.
unfoldable pub matching : ℤ → Map ℤ ℤ → List ℤ → ℕ
matching i match_index [] = 0
matching i match_index (p ∷ ps) =
    (if leb_ℤ i (read match_index p) then 1 else 0) + matching i match_index ps

-- The leader and the matching peers are more than half of the cluster.
abbrev pub Majority : ℤ → Map ℤ ℤ → List ℤ → Type 0
Majority i match_index peers = length peers + 1 < 2 * (1 + matching i match_index peers)

count_matches_lem :
    (i : ℤ) (m : Map ℤ ℤ) (ps : List ℤ) (n : ℕ) → count_matches i m ps n ≡ n + matching i m ps
unfolding count_matches matching
count_matches_lem i m [] n = omega arith
count_matches_lem i m (p ∷ ps) n =
    ground (arith, count_matches_lem i m ps n, count_matches_lem i m ps (suc n))

has_majority-Majority :
    (i : ℤ) (m : Map ℤ ℤ) (ps : List ℤ) → has_majority i m ps ≡ true → Majority i m ps
unfolding has_majority
has_majority-Majority i m ps h = ground (arith, count_matches_lem i m ps 1)

Majority-has_majority :
    (i : ℤ) (m : Map ℤ ℤ) (ps : List ℤ) → Majority i m ps → has_majority i m ps ≡ true
unfolding has_majority
Majority-has_majority i m ps h = ground (arith, count_matches_lem i m ps 1)

module _ (term : ℤ) (m : Map ℤ ℤ) (ps : List ℤ) where
  -- The entry at `j`, of the list that begins at `i`, may be committed.
  pub record Committable (i : ℕ) (es : List LogEntry) (j : ℕ) : Type 0 where
    pub entry : LogEntry
    pub found : get_elem? es j ≡ some entry
    pub own_term : entry.term ≡ term
    pub majority : Majority (pos (i + j)) m ps

  Committable-here :
      (i : ℕ) (e : LogEntry) (es : List LogEntry)
      → (beq_ℤ e.term term && has_majority (pos i) m ps) ≡ true
      → Committable i (e ∷ es) 0
  Committable-here i e es h = record {
    entry = e;
    found = refl;
    own_term = ground (arith, beq_ℤ_iff e.term term);
    majority =
        subst (λ k. Majority (pos k) m ps) (let z : i ≡ i + 0 = omega arith in z)
          (has_majority-Majority (pos i) m ps (ground arith));
  }

  not-Committable_here :
      (i : ℕ) (e : LogEntry) (es : List LogEntry)
      → Committable i (e ∷ es) 0
      → (beq_ℤ e.term term && has_majority (pos i) m ps) ≡ true
  not-Committable_here i e es c =
      let majority =
        Majority-has_majority (pos i) m ps
          (subst (λ k. Majority (pos k) m ps) (let z : i + 0 ≡ i = omega arith in z) c.majority) in
      let same : e.term ≡ term = ap (λ (x : LogEntry). x.term) (eq_of_some c.found) ∙ c.own_term in
      ground (arith, beq_ℤ_iff e.term term)

  Committable-later :
      (i : ℕ) (e : LogEntry) (es : List LogEntry) (j : ℕ)
      → Committable (suc i) es j
      → Committable i (e ∷ es) (suc j)
  Committable-later i e es j c = record {
    entry = c.entry;
    found = c.found;
    own_term = c.own_term;
    majority =
        subst (λ k. Majority (pos k) m ps) (let z : suc i + j ≡ i + suc j = omega arith in z)
          c.majority;
  }

  Committable-tail :
      (i : ℕ) (e : LogEntry) (es : List LogEntry) (j : ℕ)
      → Committable i (e ∷ es) (suc j)
      → Committable (suc i) es j
  Committable-tail i e es j c = record {
    entry = c.entry;
    found = c.found;
    own_term = c.own_term;
    majority =
        subst (λ k. Majority (pos k) m ps) (let z : i + suc j ≡ suc i + j = omega arith in z)
          c.majority;
  }

  -- The result of the scan: the old index, or the index of an entry that may be committed.
  abbrev pub Scanned : ℕ → List LogEntry → ℤ → ℤ → Type 0
  Scanned i es commit r = (r ≡ commit) ⊎ ((j : ℕ) × Committable i es j × (r ≡ pos (i + j)))

  Scanned-later :
      (i : ℕ) (e : LogEntry) (es : List LogEntry) (commit r : ℤ)
      → (r ≡ commit → Scanned i (e ∷ es) commit r)
      → Scanned (suc i) es commit r
      → Scanned i (e ∷ es) commit r
  Scanned-later i e es commit r f (inl same) = f same
  Scanned-later i e es commit r f (inr (j, c, at)) = inr (
    suc j,
    Committable-later i e es j c,
    at ∙ ap pos (let z : suc i + j ≡ i + suc j = omega arith in z),
  )

  Scanned-new :
      (i : ℕ) (e : LogEntry) (es : List LogEntry)
      → Committable i (e ∷ es) 0
      → (r : ℤ) → Scanned (suc i) es (pos i) r
      → (j : ℕ) × Committable i (e ∷ es) j × (r ≡ pos (i + j))
  Scanned-new i e es c r (inl same) = (0, c, same ∙ ap pos (let z : i ≡ i + 0 = omega arith in z))
  Scanned-new i e es c r (inr (j, d, at)) = (
    suc j,
    Committable-later i e es j d,
    at ∙ ap pos (let z : suc i + j ≡ i + suc j = omega arith in z),
  )

  pub scan-cases :
      (i : ℕ) (es : List LogEntry) (commit : ℤ)
      → Scanned i es commit (scan_commit term m ps i es commit)
  unfolding scan_commit
  scan-cases i [] commit = inl refl
  scan-cases i (e ∷ es) commit =
      elim (Bool-cases (beq_ℤ e.term term && has_majority (pos i) m ps)) [
        | inl here ↦ rw here (
            inr
              (Scanned-new i e es (Committable-here i e es here) _ (scan-cases (suc i) es (pos i))))
        | inr passed ↦
            rw passed
              (Scanned-later i e es commit _ (λ same. inl same) (scan-cases (suc i) es commit))
      ]

  pub scan-ge :
      (i : ℕ) (es : List LogEntry) (commit : ℤ)
      → commit ≤ℤ pos i
      → commit ≤ℤ scan_commit term m ps i es commit
  unfolding scan_commit
  scan-ge i [] commit h = omega arith
  scan-ge i (e ∷ es) commit h = elim (Bool-cases (beq_ℤ e.term term && has_majority (pos i) m ps)) [
    | inl here ↦ rw here (omega (arith, scan-ge (suc i) es (pos i)))
    | inr passed ↦ rw passed (scan-ge (suc i) es commit (omega arith))
  ]

  pub scan-last :
      (i : ℕ) (es : List LogEntry) (commit : ℤ) (j : ℕ)
      → Committable i es j
      → pos (i + j) ≤ℤ scan_commit term m ps i es commit
  unfolding scan_commit
  scan-last i [] commit j c = absurd (ground (arith, c.found))
  scan-last i (e ∷ es) commit zero c =
      rw (not-Committable_here i e es c) (omega (arith, scan-ge (suc i) es (pos i)))
  scan-last i (e ∷ es) commit (suc j) c =
      omega (arith, scan-last (suc i) es _ j (Committable-tail i e es j c))
