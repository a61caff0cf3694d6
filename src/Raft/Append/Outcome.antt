-- ===== src/Raft/Append/Outcome.antt =====
-- When AppendEntries succeeds, and when it panics.
use advanced_group_chat_syst.Base.{
  ℕ, zero, suc, ℤ, pos, negsuc, beq_ℤ_iff, ◌≡◌, ◌↔◌, refl, List, length, Bool, true, false, Result,
  ok, panic, inl, inr, ltb, ◌≢◌, Bool-cases, minus_one, ◌≤ℤ◌, ◌<ℤ◌, arith, get_elem?-of_lt,
}
use advanced_group_chat_syst.Pb.{LogEntry, AppendEntriesRequest, AppendEntriesResponse}
use advanced_group_chat_syst.Raft.State.{ConsensusModule, Effect, is_dead}
use advanced_group_chat_syst.Raft.Append.{matches_prev, append_entries_helper}
use advanced_group_chat_syst.Raft.Append.Merge.{insert_entries_lem}
use advanced_group_chat_syst.Raft.Append.Accepted.{Start, Start-at}

abbrev pub Handled : Type 0
Handled = Result (ConsensusModule × AppendEntriesResponse × List Effect)

abbrev pub succeeded : Handled → Bool
succeeded panic = false
succeeded (ok (_, reply, _)) = reply.success

abbrev pub panics {ℓ} : {A : Type ℓ} → Result A → Bool
panics panic = true
panics (ok _) = false

Start-matched_prev :
    (prev : ℤ) (req : AppendEntriesRequest) (log : List LogEntry) {n : ℕ}
    → req.prev_log_index ≡ prev
    → Start req log n
    → matches_prev req log ≡ ok true
unfolding matches_prev
Start-matched_prev (negsuc zero) req log e s = ground arith
Start-matched_prev (negsuc (suc m)) req log e s = ground arith
Start-matched_prev (pos m) req log {n = zero} e s = ground arith
Start-matched_prev (pos m) req log {n = suc n} e (from, inside, (x, found, t)) =
    ground (arith, beq_ℤ_iff req.prev_log_term x.term)

module _ (now : ℕ) (req : AppendEntriesRequest) (cm : ConsensusModule) where
  -- The server is up, the term is not stale, and the logs meet where the new entries begin.
  abbrev pub Acceptable : Type 0
  Acceptable =
      (is_dead cm.state ≡ false) × (cm.current_term ≤ℤ req.term) × ((n : ℕ) × Start req cm.log n)

  succeeded_matched :
      succeeded (append_entries_helper now req cm) ≡ true
      → (is_dead cm.state ≡ false)
        × (cm.current_term ≤ℤ req.term)
        × (matches_prev req cm.log ≡ ok true)
  unfolding append_entries_helper
  succeeded_matched h = ground arith

  matched_succeeded :
      (n : ℕ)
      → is_dead cm.state ≡ false
      → cm.current_term ≤ℤ req.term
      → Start req cm.log n
      → succeeded (append_entries_helper now req cm) ≡ true
  unfolding append_entries_helper
  matched_succeeded n alive fresh s =
      let matched = Start-matched_prev req.prev_log_index req cm.log refl s in
      let inserted = insert_entries_lem req cm.log s.0 s.1 in ground (arith, matched, inserted)

  -- AppendEntries succeeds exactly when the server is up, the request's term is not below its own,
  -- and its log has the entry before the new ones: PrevLogIndex is -1, or is the index of an entry
  -- of term PrevLogTerm.
  pub succeeds_iff : (succeeded (append_entries_helper now req cm) ≡ true) ↔ Acceptable
  succeeds_iff = (
    λ h.
        let (alive, fresh, matched) = succeeded_matched h in
        (alive, fresh, Start-at req.prev_log_index req cm.log refl matched),
    λ (alive, fresh, (n, s)). matched_succeeded n alive fresh s,
  )

-- What the test of PrevLogIndex can give.
data Matched (req : AppendEntriesRequest) (log : List LogEntry) : Type 0 where
  below : req.prev_log_index <ℤ minus_one → matches_prev req log ≡ panic → Matched req log
  hit :
      minus_one ≤ℤ req.prev_log_index
      → (n : ℕ) → Start req log n
      → matches_prev req log ≡ ok true
      → Matched req log
  miss : minus_one ≤ℤ req.prev_log_index → matches_prev req log ≡ ok false → Matched req log

never_panics :
    (prev : ℤ) (req : AppendEntriesRequest) (log : List LogEntry)
    → req.prev_log_index ≡ prev
    → minus_one ≤ℤ prev
    → matches_prev req log ≢ panic
unfolding matches_prev
never_panics (negsuc zero) req log e b p = ground arith
never_panics (negsuc (suc m)) req log e b p = absurd (omega arith)
never_panics (pos m) req log e b p = elim (Bool-cases (ltb m (length log))) [
  | inl inside ↦ let (x, found) = get_elem?-of_lt log m (ground arith) in ground (arith, found)
  | inr outside ↦ ground arith
]

Matched-by :
    (r : Result Bool) (req : AppendEntriesRequest) (log : List LogEntry)
    → matches_prev req log ≡ r
    → minus_one ≤ℤ req.prev_log_index
    → Matched req log
Matched-by panic req log e b = absurd (never_panics req.prev_log_index req log refl b e)
Matched-by (ok true) req log e b =
    let (n, s) = Start-at req.prev_log_index req log refl e in hit b n s e
Matched-by (ok false) req log e b = miss b e

Matched-at :
    (prev : ℤ) (req : AppendEntriesRequest) (log : List LogEntry)
    → req.prev_log_index ≡ prev
    → Matched req log
Matched-at (negsuc (suc m)) req log e = below (ground arith) (unfold matches_prev in ground arith)
Matched-at prev req log e = Matched-by (matches_prev req log) req log refl (ground arith)

module _ (now : ℕ) (req : AppendEntriesRequest) (cm : ConsensusModule) where
  panics_below :
      panics (append_entries_helper now req cm) ≡ true
      → Matched req cm.log
      → (is_dead cm.state ≡ false)
        × (cm.current_term ≤ℤ req.term)
        × (req.prev_log_index <ℤ minus_one)
  unfolding append_entries_helper
  panics_below h (below b p) = ground arith
  panics_below h (hit b n s p) = absurd (ground (arith, insert_entries_lem req cm.log s.0 s.1))
  panics_below h (miss b p) = absurd (ground arith)

  below_panics :
      is_dead cm.state ≡ false
      → cm.current_term ≤ℤ req.term
      → req.prev_log_index <ℤ minus_one
      → Matched req cm.log
      → panics (append_entries_helper now req cm) ≡ true
  unfolding append_entries_helper
  below_panics alive fresh b (below _ p) = ground arith
  below_panics alive fresh b (hit c n s p) = absurd (omega arith)
  below_panics alive fresh b (miss c p) = absurd (omega arith)

  -- AppendEntries panics exactly when a running server accepts the term of a request whose
  -- PrevLogIndex is below -1.
  pub panics_iff : (panics (append_entries_helper now req cm) ≡ true) ↔ (
      (is_dead cm.state ≡ false)
      × (cm.current_term ≤ℤ req.term)
      × (req.prev_log_index <ℤ minus_one))
  panics_iff =
      let m = Matched-at req.prev_log_index req cm.log refl in
      (λ h. panics_below h m, λ (alive, fresh, b). below_panics alive fresh b m)
